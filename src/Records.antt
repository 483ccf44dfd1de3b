-- ===== src/Records.antt =====
-- crates/voicetext-gateway/src/storage/records.rs: the mapping between rows and snapshots.
mod Tests
pub mod Checks
pub mod State
pub mod Results
pub mod Rows
pub mod Laws
pub mod RoundTrip
pub mod Storable
pub mod Stored
