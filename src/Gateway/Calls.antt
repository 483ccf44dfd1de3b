-- ===== src/Gateway/Calls.antt =====
-- The calls of server/state.rs that take permits, as they run next to each other. A call is the list of
-- its atomic steps: a reading of `accepting_work`, or one access to a semaphore. Any call may step
-- next, so that other calls come between any two steps. The semaphores are never closed.
use voicetext_gateway.Prelude.{
  ℕ, zero, suc, ◌≡◌, Bool, Option, none, some, List, [], ◌∷◌, if◌then◌else◌,
}
use voicetext_gateway.Gateway.{GatewayLimits}
use voicetext_gateway.Gateway.Slots.{
  Semaphore, BatchIdentity, Slots, live, global_batch, batch, provider_batch, GatewayState,
  new_state, begin_shutdown, mark_startup_reconciled, take_slot, drop_slot,
}

pub data Instr : Type 0 where
  -- `if !self.accepting_work() { return None; }`, or `self.accepting_work().then_some(permit)`
  reads : Instr
  -- `try_acquire_owned().ok()?`
  tries : Slots → Instr
  -- `acquire_owned().await.ok()?`
  awaits : Slots → Instr
  -- `accepting_work.store(false, …)`
  shuts : Instr

abbrev pub times : ℕ → Instr → List Instr
times zero i = []
times (suc n) i = i ∷ times n i

pub data Operation : Type 0 where
  try_live try_global_batch try_batch shut shut_batch_tasks : Operation
  try_provider_batch recover : BatchIdentity → Operation

unfoldable pub try_acquire_live_slot : List Instr
try_acquire_live_slot = reads ∷ tries live ∷ reads ∷ []

unfoldable pub try_acquire_global_batch_slot : List Instr
try_acquire_global_batch_slot = reads ∷ tries global_batch ∷ reads ∷ []

unfoldable pub try_acquire_batch_slot : List Instr
try_acquire_batch_slot = tries batch ∷ []

unfoldable pub try_acquire_provider_batch_slot : BatchIdentity → List Instr
try_acquire_provider_batch_slot identity = tries (provider_batch identity) ∷ []

unfoldable pub acquire_recovery_batch_slots : BatchIdentity → List Instr
acquire_recovery_batch_slots identity =
    reads ∷ awaits global_batch ∷ awaits batch ∷ awaits (provider_batch identity) ∷ reads ∷ []

-- `begin_shutdown` and `acquire_many_owned`, which gathers its permits as they come.
unfoldable pub acquire_all : ℕ → List Instr
acquire_all batch_capacity = shuts ∷ times batch_capacity (awaits global_batch)

unfoldable pub program : ℕ → Operation → List Instr
unfolding try_acquire_live_slot try_acquire_global_batch_slot try_acquire_batch_slot
    try_acquire_provider_batch_slot acquire_recovery_batch_slots acquire_all
program batch_capacity try_live = try_acquire_live_slot
program batch_capacity try_global_batch = try_acquire_global_batch_slot
program batch_capacity try_batch = try_acquire_batch_slot
program batch_capacity (try_provider_batch identity) = try_acquire_provider_batch_slot identity
program batch_capacity (recover identity) = acquire_recovery_batch_slots identity
program batch_capacity shut = shuts ∷ []
program batch_capacity shut_batch_tasks = acquire_all batch_capacity

-- A call with the permits that it holds: it runs, and with no step left it has returned them, or it
-- gives them back.
pub data Call : Type 0 where
  running : Operation → List Slots → List Instr → Call
  dropping : Operation → List Slots → Call

-- The two readings of `accepting_work`.
abbrev pub read_work : Bool → Operation → List Slots → List Instr → Call
read_work accepting op held todo = if accepting then running op held todo else dropping op held

module _ {S : Type 0} (sem : Semaphore S) where
  abbrev pub tried :
      GatewayState S
      → Operation
      → List Slots
      → List Instr
      → Slots
      → Option (GatewayState S)
      → GatewayState S × Call
  tried g op held todo p none = (g, dropping op held)
  tried g op held todo p (some h) = (h, running op (p ∷ held) todo)

  abbrev pub awaited :
      Operation
      → List Slots
      → List Instr
      → Slots
      → Option (GatewayState S)
      → Option (GatewayState S × Call)
  awaited op held todo p none = none
  awaited op held todo p (some h) = some (h, running op (p ∷ held) todo)

  -- The next step of a call: `none` while it waits, and when it is over. A call that has returned its
  -- permits has them dropped by its caller.
  unfoldable pub advance : GatewayState S → Call → Option (GatewayState S × Call)
  advance g (running op held []) = some (g, dropping op held)
  advance g (running op held (reads ∷ todo)) = some (g, read_work g.accepting_work op held todo)
  advance g (running op held (tries p ∷ todo)) = some (tried g op held todo p (take_slot sem p g))
  advance g (running op held (awaits p ∷ todo)) = awaited op held todo p (take_slot sem p g)
  advance g (running op held (shuts ∷ todo)) = some (begin_shutdown sem g, running op held todo)
  advance g (dropping op []) = none
  advance g (dropping op (p ∷ held)) = some (drop_slot sem p g, dropping op held)

  -- One call of the list steps. A wait may be given up: its future is dropped, or it times out.
  pub data Turn (g : GatewayState S) : List Call → GatewayState S → List Call → Type 0 where
    first :
        {c d : Call} {h : GatewayState S} {cs : List Call}
        → advance g c ≡ some (h, d)
        → Turn g (c ∷ cs) h (d ∷ cs)
    gives_up :
        {op : Operation} {held : List Slots} {p : Slots} {todo : List Instr} {cs : List Call}
        → Turn g (running op held (awaits p ∷ todo) ∷ cs) g (dropping op held ∷ cs)
    next :
        {c : Call} {h : GatewayState S} {cs ds : List Call}
        → Turn g cs h ds
        → Turn g (c ∷ cs) h (c ∷ ds)

  pub record System : Type 0 where
    pub gateway : GatewayState S
    pub calls : List Call

  abbrev pub initial : GatewayLimits → System
  initial limits = record { gateway = new_state sem limits; calls = [] }

  pub data Step (s : System) : System → Type 0 where
    reconciles : Step s (record s { gateway = mark_startup_reconciled sem s.gateway })
    starts :
        (op : Operation)
        → Step s
            (record s { calls = running op [] (program s.gateway.batch_capacity op) ∷ s.calls })
    turns :
        {g : GatewayState S} {cs : List Call}
        → Turn s.gateway s.calls g cs
        → Step s (record { gateway = g; calls = cs })

  pub data Reach (s : System) : System → Type 0 where
    here : Reach s s
    later : {t u : System} → Reach s t → Step t u → Reach s u
