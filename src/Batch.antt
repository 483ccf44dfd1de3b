-- ===== src/Batch.antt =====
-- crates/voicetext-speech/src/application/{ports,batch_models,batch,batch_recovery}.rs: durable batch
-- recognition. Each child models one step of a job's way through the coordinator.
pub mod Models
pub mod Ports
pub mod Logs
pub mod Admit
pub mod Execute
pub mod Recover
pub mod Fence
pub mod Custody
pub mod Filing
pub mod Startup
pub mod Validate
pub mod Bounds
pub mod Outcome
pub mod Verdict
pub mod Answers
pub mod Codes
mod Tests
