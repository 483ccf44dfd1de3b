-- ===== src/Gateway/Tests.antt =====
-- Concrete calls on the shared state: a semaphore is its number of permits, a task is a number.
use voicetext_gateway.Prelude.{
  ℕ, zero, suc, ◌+◌, ◌≤◌, ◌≡◌, ◌⊎◌, inl, refl, Bool, true, false, [], ◌∷◌, ◌==◌, Option, none, some,
  arith,
}
use voicetext_gateway.Gateway.{GatewayLimits}
use voicetext_gateway.Gateway.Slots.{
  Semaphore, SemaphoreLaws, deepgram_nova3_multi_v2, global_batch, batch, provider_batch, slots,
  take_slot, begin_shutdown, new_state,
}
use voicetext_gateway.Gateway.Calls.{
  reads, awaits, try_global_batch, recover, shut, program, try_acquire_global_batch_slot,
  acquire_recovery_batch_slots, running, dropping, advance, first, next, System, initial, starts,
  turns, Reach, here, later,
}
use voicetext_gateway.Gateway.Permits.{permits_held}
use voicetext_gateway.Gateway.Admission.{admissions, slots_balanced, shutdown_gives_nothing}
use voicetext_gateway.Gateway.Tasks.{
  Tasks, no_tasks, In, no_task_escapes, begin_spawn, push_task, close_registration, take_tasks,
  spawns, pushes, closes,
}
use voicetext_gateway.Gateway.Tasks as Tasks

abbrev pred? : ℕ → Option ℕ
pred? zero = none
pred? (suc n) = some n

abbrev permits : Semaphore ℕ
permits = record { new = λ n. n; try_acquire = pred?; release = λ n. suc n }

refused_law : (s : ℕ) → (pred? s ≡ none → s ≡ 0) × (s ≡ 0 → pred? s ≡ none)
refused_law zero = (λ h. refl, λ h. refl)
refused_law (suc n) = (λ h. cc, λ h. absurd (omega arith))

acquired_law : (s t : ℕ) → pred? s ≡ some t → s ≡ suc t
acquired_law zero t h = cc
acquired_law (suc n) t h = cc

permit_laws : SemaphoreLaws permits (λ n. n)
permit_laws = record {
  available-new = λ n. refl;
  refused = refused_law;
  acquired = acquired_law;
  released = λ s. refl;
}

abbrev limits : GatewayLimits
limits = record {
  batch_upload_bytes = 1000;
  live_frame_bytes = 1000;
  live_connections = 2;
  first_frame_timeout = 1000;
  finalize_timeout = 1000;
}

-- A global batch slot is wanted while one recovery waits; the call has its permit and reads next.
abbrev one_taken : System permits
one_taken = record {
  gateway = record (new_state permits limits) { global_batch_slots = 1 };
  calls =
      running try_global_batch (global_batch ∷ []) (reads ∷ [])
      ∷ running (recover deepgram_nova3_multi_v2) [] (
          awaits global_batch
          ∷ awaits batch
          ∷ awaits (provider_batch deepgram_nova3_multi_v2)
          ∷ reads
          ∷ [])
      ∷ [];
}

taken : Reach permits (initial permits limits) one_taken
unfolding new_state program try_acquire_global_batch_slot acquire_recovery_batch_slots advance
    take_slot
taken =
    later
      (later
        (later (later (later here (starts (recover deepgram_nova3_multi_v2))) (turns (first refl)))
          (starts try_global_batch))
        (turns (first refl)))
      (turns (first refl))

slots_balanced_example :
    (slots permits global_batch one_taken.gateway + permits_held global_batch one_taken.calls ≡ 2)
    × (permits_held global_batch one_taken.calls ≤ 2)
slots_balanced_example =
    slots_balanced permits (λ n. n) permit_laws limits global_batch one_taken taken

-- The shutdown begins after that, and the call reads that no work is accepted.
abbrev shut_down : System permits
shut_down = record {
  gateway = begin_shutdown permits one_taken.gateway;
  calls = running shut [] [] ∷ one_taken.calls;
}

closed : Reach permits (initial permits limits) shut_down
unfolding advance program
closed = later (later taken (starts shut)) (turns (first refl))

refuses_work : shut_down.gateway.accepting_work ≡ false
unfolding begin_shutdown
refuses_work = refl

abbrev withdrawn : System permits
withdrawn = record shut_down {
  calls =
      running shut [] []
      ∷ dropping try_global_batch (global_batch ∷ [])
      ∷ running (recover deepgram_nova3_multi_v2) [] (
          awaits global_batch
          ∷ awaits batch
          ∷ awaits (provider_batch deepgram_nova3_multi_v2)
          ∷ reads
          ∷ [])
      ∷ [];
}

late_call : Reach permits shut_down withdrawn
unfolding advance begin_shutdown
late_call = later here (turns (next (first refl)))

shutdown_gives_nothing_example :
    (withdrawn.gateway.accepting_work ≡ false)
    × (admissions withdrawn.calls ≤ admissions shut_down.calls)
shutdown_gives_nothing_example =
    shutdown_gives_nothing permits (λ n. n) permit_laws limits shut_down withdrawn closed
      refuses_work late_call

abbrev is_one : ℕ → Bool
is_one n = n == 1

abbrev drained : Tasks ℕ
drained = take_tasks (close_registration (push_task 4 (begin_spawn 4 (no_tasks is_one))))

drained_reached : Tasks.Reach (no_tasks is_one) drained
unfolding take_tasks close_registration push_task begin_spawn
drained_reached =
    Tasks.later
      (Tasks.later (Tasks.later (Tasks.later Tasks.here (spawns 4 refl)) (pushes 4 refl)) closes)
      (Tasks.takes refl refl)

no_task_escapes_example : (drained.finished 4 ≡ true) ⊎ In 4 drained.drained
unfolding take_tasks close_registration push_task begin_spawn
no_task_escapes_example = no_task_escapes is_one drained 4 drained_reached refl (inl refl)
