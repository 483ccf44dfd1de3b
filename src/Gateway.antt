-- ===== src/Gateway.antt =====
-- crates/voicetext-gateway/src/server/state.rs: the state that the handlers of one process share. A
-- `Duration` is a number of milliseconds. Semaphores and task handles are those of tokio, and enter as
-- parameters.
mod Tests
pub mod Slots
pub mod Calls
pub mod Permits
pub mod Admission
pub mod Drain
pub mod Tasks
pub mod BatchStatus
pub mod Serving
use voicetext_gateway.Prelude.{
  ℕ, ◌+◌, ◌≤◌, ◌≡◌, ◌↔◌, ◌/◌, refl, Bool, true, false, not, ◌&&◌, ◌||◌, Option, none, some, Result,
  ok, err, leb, ltb, if◌then◌else◌, max, arith,
}

abbrev pub max_batch_upload_bytes : ℕ
max_batch_upload_bytes = 67108864

abbrev pub max_live_frame_bytes : ℕ
max_live_frame_bytes = 65536

abbrev pub max_connections : ℕ
max_connections = 10000

pub record GatewayLimits : Type 0 where
  pub batch_upload_bytes : ℕ
  pub live_frame_bytes : ℕ
  pub live_connections : ℕ
  pub first_frame_timeout : ℕ
  pub finalize_timeout : ℕ

pub data InvalidGatewayLimits : Type 0 where
  batch_upload_bytes live_frame_bytes live_connections : InvalidGatewayLimits
  first_frame_timeout finalize_timeout : InvalidGatewayLimits

-- `(lo..=hi).contains(&n)`
abbrev within : ℕ → ℕ → ℕ → Bool
within lo hi n = leb lo n && leb n hi

-- `GatewayLimits::new`; the connections are a `NonZeroUsize`.
unfoldable pub new_limits : ℕ → ℕ → ℕ → ℕ → ℕ → Result InvalidGatewayLimits GatewayLimits
new_limits upload frame connections first finalize =
    if not (within 27 max_batch_upload_bytes upload)
    then err InvalidGatewayLimits.batch_upload_bytes
    else if not (within 2 max_live_frame_bytes frame)
    then err InvalidGatewayLimits.live_frame_bytes
    else if ltb max_connections connections
    then err InvalidGatewayLimits.live_connections
    else if not (within 100 120000 first)
    then err InvalidGatewayLimits.first_frame_timeout
    else if not (within 100 300000 finalize)
    then err InvalidGatewayLimits.finalize_timeout
    else ok (record {
      batch_upload_bytes = upload;
      live_frame_bytes = frame;
      live_connections = connections;
      first_frame_timeout = first;
      finalize_timeout = finalize;
    })

-- The limits are accepted exactly within their bounds, and kept unchanged.
pub new_limits_iff :
    (upload frame connections first finalize : ℕ) (l : GatewayLimits)
    → (new_limits upload frame connections first finalize ≡ ok l) ↔ (
        (27 ≤ upload)
        × (upload ≤ max_batch_upload_bytes)
        × (2 ≤ frame)
        × (frame ≤ max_live_frame_bytes)
        × (connections ≤ max_connections)
        × (100 ≤ first)
        × (first ≤ 120000)
        × (100 ≤ finalize)
        × (finalize ≤ 300000)
        × (l ≡ record {
          batch_upload_bytes = upload;
          live_frame_bytes = frame;
          live_connections = connections;
          first_frame_timeout = first;
          finalize_timeout = finalize;
        }))
unfolding new_limits
new_limits_iff upload frame connections first finalize l = ground arith
