-- ===== src/Lib.antt =====
-- voicetext-gateway: the core of the speech gateway, modelled and verified.
--
-- The gateway takes audio from its clients and has a provider recognize it, either as a batch job that
-- is admitted, claimed, submitted and stored, or as a live session that is streamed through an
-- acknowledged sequence of frames. This library models the deterministic core of both: the state
-- machines of the domain, the coordinators that drive them through ports, the adapters that normalize
-- what the providers send, the validation of uploads, the rows of the ledger, the JSON contracts with
-- the clients, and the slots and tasks that the handlers of one process share.
--
-- Parts, with the code that each file models (paths from the repository's root):
--   Prelude     shared names: native numbers with Rust's checked and saturating arithmetic, `Result`,
--               methods on `&mut self` as functions that return the result and the new state, ordered
--               sets, texts as lists of scalar values, and the bits of an `f32`.
--   Session     crates/voicetext-speech/src/domain/live.rs, `LiveSession`: one definition for each
--               method, `step` for any call, `run` for a history. Session/Confirm follows one frame.
--   Timeline    crates/voicetext-speech/src/application/live_timeline.rs, `LiveTimeline`.
--   Job         crates/voicetext-speech/src/domain/batch.rs: `BatchJob` with its profile and codes.
--   Batch       crates/voicetext-speech/src/application/ports.rs (Batch/Models, Batch/Ports), batch.rs
--               (Batch/Admit, Batch/Execute), batch_models.rs (Batch/Outcome, Batch/Validate) and
--               batch_recovery.rs (Batch/Recover). A port is a record of methods over an abstract
--               world; `traced` logs each call, and Batch/Logs holds the rules to reason about logs.
--   Live        crates/voicetext-speech/src/application/live.rs, `LiveCoordinator`, over any provider.
--   ElevenLabs  crates/voicetext-providers/src/elevenlabs/live_state.rs, `LiveState`; it feeds Live.
--   Deepgram    crates/voicetext-providers/src/deepgram/timeline.rs, `normalize`; it feeds Batch.
--   OggOpus     crates/voicetext-audio/src/ogg_opus.rs: the container scan (OggOpus/Container), the two
--               headers (OggOpus/Headers) and `validate_complete_ogg_opus`.
--   Records     crates/voicetext-gateway/src/storage/records.rs and records/result_validation.rs: the
--               checks of a row (Records/Checks), its state and result columns (Records/State,
--               Records/Results) and the two mappings (Records/Rows). Snapshots are those of Batch.
--   Contracts   crates/voicetext-gateway/src/contracts/: live.rs (Contracts/Live for the config,
--               Contracts/Server for the frames of the server), live_outbound.rs
--               (Contracts/Outbound), batch.rs (Contracts/BatchModels, Contracts/Batch), batch_outbound.rs
--               (Contracts/BatchOutbound) and batch_projection.rs (Contracts/Projection), which Batch
--               asks before it completes a job. Contracts/Config, Delivery and BatchRoundTrip relate
--               the two directions.
--   Gateway     crates/voicetext-gateway/src/server/state.rs: `GatewayLimits` (Gateway), the slots
--               (Gateway/Slots, Gateway/Permits), the calls that take permits as lists of atomic steps
--               that interleave in any order (Gateway/Calls, Gateway/Admission), the tracked tasks
--               against the shutdown (Gateway/Tasks) and `drain_tasks_until`; and server/batch.rs, the
--               answer to a request for a job (Gateway/BatchStatus), which Gateway/Serving follows
--               from the provider's result to the client.
--
-- A batch coordinator uses Job for every transition and Batch/Validate for every answer. A live
-- coordinator owns a Session and a Timeline, and calls its provider in between.
--
-- Bounds and fuel: integers are natural numbers with the overflow checks written out; `usize` is taken
-- as 64 bits. `next_event` runs on fuel, as a provider may send finalize evidence for ever; one more
-- round than that evidence is enough. The container scan runs on as much fuel as the upload has
-- bytes, which is enough, as each page takes at least 27. The loop that joins tasks runs on as much
-- fuel as there are tasks, which is enough, as each round removes one. A call that waits for permits
-- takes them one at a time, in any order among the calls, which covers the fair queue of the semaphore.
--
-- Parameters, for code outside the repository: the ports of the coordinators, the Unicode tables for
-- alphanumeric characters and lower case, the packets that the `ogg` crate reads, the sample count of
-- the `opus` crate, the functions of `uuid` and `serde_json` that the mappings call, and the
-- semaphores and task handles of `tokio`. The conversions to floating-point seconds and from `f32` to
-- `f64` are parameters too. What is relied on is stated as laws: JSON that was printed is read back, of
-- a confidence only if it is in [0, 1], and then only that it is again one; a UUID is read back from its hyphenated form; a
-- semaphore counts its permits. Where serde derives the reading of a struct, the function from a JSON
-- value to its fields is a parameter, and what the source does with the fields is modelled.
--
-- Not modelled: futures and cancellation, and the concurrency of workers outside the slots and the
-- tasks of one process; the HTTP, WebSocket and SQL adapters and the parsing of provider JSON; the v2
-- consumer of batch responses; the storage of the spool; the admission of uploads
-- and the other handlers; configuration, secrets, metrics and the build
-- tools.
pub mod Prelude
pub mod Contracts
pub mod Records
pub mod Session
pub mod Timeline
pub mod Gateway
pub mod Job
pub mod Batch
pub mod Live
pub mod ElevenLabs
pub mod Deepgram
pub mod OggOpus
