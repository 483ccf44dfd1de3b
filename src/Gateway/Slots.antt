-- ===== src/Gateway/Slots.antt =====
-- The bounded slots of server/state.rs: the semaphores, and what a permit taken or dropped does to them.
use voicetext_gateway.Prelude.{
  ℕ, suc, ◌+◌, ◌≡◌, ◌↔◌, ◌/◌, Bool, true, false, Option, none, some, max, u32_max, if◌then◌else◌,
  ltb,
}
use voicetext_gateway.Gateway.{GatewayLimits}

-- The semaphore of tokio, as far as the state calls it without waiting.
pub record Semaphore (S : Type 0) : Type 0 where
  pub new : ℕ → S
  pub try_acquire : S → Option S
  pub release : S → S

-- A semaphore counts its permits: it refuses exactly when there is none.
pub record SemaphoreLaws {S : Type 0} (sem : Semaphore S) (available : S → ℕ) : Type 0 where
  pub available-new : (n : ℕ) → available (sem.new n) ≡ n
  pub refused : (s : S) → (sem.try_acquire s ≡ none) ↔ (available s ≡ 0)
  pub acquired : (s t : S) → sem.try_acquire s ≡ some t → available s ≡ suc (available t)
  pub released : (s : S) → available (sem.release s) ≡ suc (available s)

pub data BatchIdentity : Type 0 where
  deepgram_nova3_multi_v2 elevenlabs_scribe_v2_multi_v3 : BatchIdentity

-- The semaphores of the state.
pub data Slots : Type 0 where
  live global_batch batch : Slots
  provider_batch : BatchIdentity → Slots

pub record GatewayState (S : Type 0) : Type 0 where
  pub live_slots : S
  pub global_batch_slots : S
  pub batch_capacity : ℕ
  pub batch_slots : S
  pub deepgram_batch_slots : S
  pub elevenlabs_batch_slots : S
  pub startup_reconciled : Bool
  pub accepting_work : Bool

-- `u32::try_from(batch_capacity).unwrap_or(u32::MAX)`
abbrev capacity_u32 : ℕ → ℕ
capacity_u32 n = if ltb u32_max n then u32_max else n

-- `batch_capacity.div_ceil(2).max(1)`
abbrev pub provider_capacity : ℕ → ℕ
provider_capacity n = max ((n + 1) / 2) 1

module _ {S : Type 0} (sem : Semaphore S) where
  unfoldable pub new_state : GatewayLimits → GatewayState S
  new_state limits = record {
    live_slots = sem.new limits.live_connections;
    global_batch_slots = sem.new limits.live_connections;
    batch_capacity = capacity_u32 limits.live_connections;
    batch_slots = sem.new limits.live_connections;
    deepgram_batch_slots = sem.new (provider_capacity limits.live_connections);
    elevenlabs_batch_slots = sem.new (provider_capacity limits.live_connections);
    startup_reconciled = false;
    accepting_work = true;
  }

  unfoldable pub begin_shutdown : GatewayState S → GatewayState S
  begin_shutdown g = record g { accepting_work = false }

  unfoldable pub mark_startup_reconciled : GatewayState S → GatewayState S
  mark_startup_reconciled g = record g { startup_reconciled = true }

  abbrev pub slots : Slots → GatewayState S → S
  slots live g = g.live_slots
  slots global_batch g = g.global_batch_slots
  slots batch g = g.batch_slots
  slots (provider_batch deepgram_nova3_multi_v2) g = g.deepgram_batch_slots
  slots (provider_batch elevenlabs_scribe_v2_multi_v3) g = g.elevenlabs_batch_slots

  abbrev pub set_slots : Slots → S → GatewayState S → GatewayState S
  set_slots live s g = record g { live_slots = s }
  set_slots global_batch s g = record g { global_batch_slots = s }
  set_slots batch s g = record g { batch_slots = s }
  set_slots (provider_batch deepgram_nova3_multi_v2) s g = record g { deepgram_batch_slots = s }
  set_slots (provider_batch elevenlabs_scribe_v2_multi_v3) s g = record g {
    elevenlabs_batch_slots = s;
  }

  abbrev kept : Slots → GatewayState S → Option S → Option (GatewayState S)
  kept p g none = none
  kept p g (some s) = some (set_slots p s g)

  -- One permit is taken, if there is one.
  unfoldable pub take_slot : Slots → GatewayState S → Option (GatewayState S)
  take_slot p g = kept p g (sem.try_acquire (slots p g))

  -- A permit is dropped.
  unfoldable pub drop_slot : Slots → GatewayState S → GatewayState S
  drop_slot p g = set_slots p (sem.release (slots p g)) g
