-- ===== src/Contracts.antt =====
-- crates/voicetext-gateway/src/contracts/: the JSON frames that the gateway exchanges with its clients.
mod Tests
mod BatchTests
pub mod Live
pub mod Server
pub mod Outbound
pub mod Config
pub mod Delivery
pub mod BatchModels
pub mod Batch
pub mod BatchOutbound
pub mod BatchDelivery
pub mod BatchRoundTrip
pub mod Projection
