-- ===== src/Gateway/Admission.antt =====
-- What the interleaved calls of server/state.rs keep: the slots are never over-committed, and nothing is
-- admitted once the shutdown has begun.
use voicetext_gateway.Prelude.{
  ℕ, ◌+◌, ◌≤◌, ◌≡◌, refl, ◌∙◌, ◌||◌, not, Option-cases, inl, inr, Bool, true, false, some, List, [],
  ◌∷◌, All, arith,
}
use voicetext_gateway.Gateway.{GatewayLimits}
use voicetext_gateway.Gateway.Slots.{
  Semaphore, SemaphoreLaws, Slots, GatewayState, slots, take_slot,
}
use voicetext_gateway.Gateway.Calls.{
  Instr, reads, tries, awaits, shuts, Operation, try_live, try_global_batch, try_batch, shut,
  try_provider_batch, recover, shut_batch_tasks, program, Call, running, dropping, advance, Turn,
  first, gives_up, next, System, initial, reconciles, starts, turns, Reach, here, later,
}
use voicetext_gateway.Gateway.Permits.{
  capacity, held_by, permits_held, free, taken_slot, dropped_slot, shut_slot, reconciled_slot,
  new_slot,
}

-- The operations that give a permit only while work is accepted.
abbrev guarded : Operation → Bool
guarded try_live = true
guarded try_global_batch = true
guarded (recover identity) = true
guarded op = false

abbrev one_if : Bool → ℕ
one_if true = 1
one_if false = 0

-- One for a guarded call that has returned its permits and not dropped them.
abbrev admission : Call → ℕ
admission (running op held []) = one_if (guarded op)
admission c = 0

abbrev pub admissions : List Call → ℕ
admissions [] = 0
admissions (c ∷ cs) = admission c + admissions cs

abbrev is_reads : Instr → Bool
is_reads reads = true
is_reads i = false

abbrev ends_in_reads : List Instr → Bool
ends_in_reads [] = true
ends_in_reads (i ∷ []) = is_reads i
ends_in_reads (i ∷ j ∷ is) = ends_in_reads (j ∷ is)

ends_tail : (i : Instr) (is : List Instr) → ends_in_reads (i ∷ is) ≡ true → ends_in_reads is ≡ true
ends_tail i [] h = refl
ends_tail i (j ∷ is) h = h

-- What is left of a guarded call ends in a reading of `accepting_work`.
abbrev IsGuarded : Call → Type 0
IsGuarded (running op held todo) = not (guarded op) || ends_in_reads todo ≡ true
IsGuarded (dropping op held) = Unit {0}

module _ {S : Type 0} (sem : Semaphore S) (available : S → ℕ)
    (laws : SemaphoreLaws sem available) where
  advance_keeps :
      (q : Slots) (g h : GatewayState S) (c d : Call)
      → advance sem g c ≡ some (h, d)
      → free sem available laws q h + held_by q d ≡ free sem available laws q g + held_by q c
  unfolding advance
  advance_keeps q g h (running op held []) d e = ground arith
  advance_keeps q g h (running op held (reads ∷ todo)) d e = ground arith
  advance_keeps q g h (running op held (tries p ∷ todo)) d e =
      elim (Option-cases (take_slot sem p g)) [
        | inl n ↦ ground arith
        | inr (k, n) ↦ ground (arith, taken_slot sem available laws p q g k n)
      ]
  advance_keeps q g h (running op held (awaits p ∷ todo)) d e =
      elim (Option-cases (take_slot sem p g)) [
        | inl n ↦ absurd (ground arith)
        | inr (k, n) ↦ ground (arith, taken_slot sem available laws p q g k n)
      ]
  advance_keeps q g h (running op held (shuts ∷ todo)) d e =
      ground (arith, shut_slot sem available laws q g)
  advance_keeps q g h (dropping op []) d e = cc
  advance_keeps q g h (dropping op (p ∷ held)) d e =
      ground (arith, dropped_slot sem available laws p q g)

  some_call_keeps :
      (q : Slots) (g h : GatewayState S) (cs ds : List Call)
      → Turn sem g cs h ds
      → free sem available laws q h + permits_held q ds
        ≡ free sem available laws q g + permits_held q cs
  some_call_keeps q g _ _ _ (first {c = c} {d = d} {h = h} e) =
      let k = advance_keeps q g h c d e in omega arith
  some_call_keeps q g _ _ _ gives_up = refl
  some_call_keeps q g h _ _ (next {cs = cs} {ds = ds} t) =
      let k = some_call_keeps q g h cs ds t in omega arith

  -- A permit is free or held by a call.
  Balanced : GatewayLimits → Slots → System sem → Type 0
  Balanced limits q s =
      free sem available laws q s.gateway + permits_held q s.calls ≡ capacity limits q

  reach-Balanced :
      (limits : GatewayLimits) (q : Slots) (s : System sem)
      → Reach sem (initial sem limits) s
      → Balanced limits q s
  unfolding Balanced
  reach-Balanced limits q _ here = let k = new_slot sem available laws limits q in omega arith
  reach-Balanced limits q _ (later {t = t} r reconciles) =
      let b = reach-Balanced limits q t r in
      let (k, _) = reconciled_slot sem available laws q t.gateway in omega arith
  reach-Balanced limits q _ (later {t = t} r (starts op)) =
      let b = reach-Balanced limits q t r in omega arith
  reach-Balanced limits q _ (later {t = t} r (turns {g = g} {cs = cs} u)) =
      let b = reach-Balanced limits q t r in
      let k = some_call_keeps q t.gateway g t.calls cs u in omega arith

  -- If a semaphore counts its permits, then, however the calls that take permits and the shutdown
  -- are interleaved, for each semaphore the free permits and those that calls hold, on their way,
  -- given or not yet dropped, add up to its configured capacity, so that no more than these are
  -- ever held.
  pub slots_balanced :
      (limits : GatewayLimits) (q : Slots) (s : System sem)
      → Reach sem (initial sem limits) s
      → (available (slots sem q s.gateway) + permits_held q s.calls ≡ capacity limits q)
        × (permits_held q s.calls ≤ capacity limits q)
  unfolding Balanced
  slots_balanced limits q s r = let b = reach-Balanced limits q s r in (b, omega arith)

  program-IsGuarded : (n : ℕ) (op : Operation) → IsGuarded (running op [] (program n op))
  unfolding program
  program-IsGuarded n try_live = refl
  program-IsGuarded n try_global_batch = refl
  program-IsGuarded n (recover identity) = refl
  program-IsGuarded n try_batch = refl
  program-IsGuarded n shut = refl
  program-IsGuarded n (try_provider_batch identity) = refl
  program-IsGuarded n shut_batch_tasks = refl

  started_admits_nothing : (n : ℕ) (op : Operation) → admission (running op [] (program n op)) ≡ 0
  unfolding program
  started_admits_nothing n try_live = refl
  started_admits_nothing n try_global_batch = refl
  started_admits_nothing n (recover identity) = refl
  started_admits_nothing n try_batch = refl
  started_admits_nothing n shut = refl
  started_admits_nothing n (try_provider_batch identity) = refl
  started_admits_nothing n shut_batch_tasks = refl

  advance_closed :
      (g h : GatewayState S) (c d : Call)
      → g.accepting_work ≡ false
      → IsGuarded c
      → advance sem g c ≡ some (h, d)
      → (h.accepting_work ≡ false) × (admission d ≤ admission c)
  unfolding advance
  advance_closed g h (running op held []) d a v e = ground arith
  advance_closed g h (running op held (reads ∷ todo)) d a v e = ground arith
  advance_closed g h (running op held (tries p ∷ [])) d a v e =
      elim (Option-cases (take_slot sem p g)) [
        | inl n ↦ ground arith
        | inr (k, n) ↦ ground (arith, taken_slot sem available laws p p g k n)
      ]
  advance_closed g h (running op held (tries p ∷ i ∷ todo)) d a v e =
      elim (Option-cases (take_slot sem p g)) [
        | inl n ↦ ground arith
        | inr (k, n) ↦ ground (arith, taken_slot sem available laws p p g k n)
      ]
  advance_closed g h (running op held (awaits p ∷ [])) d a v e =
      elim (Option-cases (take_slot sem p g)) [
        | inl n ↦ absurd (ground arith)
        | inr (k, n) ↦ ground (arith, taken_slot sem available laws p p g k n)
      ]
  advance_closed g h (running op held (awaits p ∷ i ∷ todo)) d a v e =
      elim (Option-cases (take_slot sem p g)) [
        | inl n ↦ absurd (ground arith)
        | inr (k, n) ↦ ground (arith, taken_slot sem available laws p p g k n)
      ]
  advance_closed g h (running op held (shuts ∷ [])) d a v e =
      ground (arith, shut_slot sem available laws Slots.live g)
  advance_closed g h (running op held (shuts ∷ i ∷ todo)) d a v e =
      ground (arith, shut_slot sem available laws Slots.live g)
  advance_closed g h (dropping op []) d a v e = cc
  advance_closed g h (dropping op (p ∷ held)) d a v e =
      ground (arith, dropped_slot sem available laws p p g)

  advance-IsGuarded :
      (g h : GatewayState S) (c d : Call)
      → IsGuarded c
      → advance sem g c ≡ some (h, d)
      → IsGuarded d
  unfolding advance
  advance-IsGuarded g h (running op held []) d v e = ground arith
  advance-IsGuarded g h (running op held (reads ∷ todo)) d v e =
      ground (arith, ends_tail reads todo)
  advance-IsGuarded g h (running op held (tries p ∷ todo)) d v e =
      elim (Option-cases (take_slot sem p g)) [
        | inl n ↦ ground arith
        | inr (k, n) ↦ ground (arith, ends_tail (tries p) todo)
      ]
  advance-IsGuarded g h (running op held (awaits p ∷ todo)) d v e =
      elim (Option-cases (take_slot sem p g)) [
        | inl n ↦ absurd (ground arith)
        | inr (k, n) ↦ ground (arith, ends_tail (awaits p) todo)
      ]
  advance-IsGuarded g h (running op held (shuts ∷ todo)) d v e =
      ground (arith, ends_tail shuts todo)
  advance-IsGuarded g h (dropping op []) d v e = cc
  advance-IsGuarded g h (dropping op (p ∷ held)) d v e = ground arith

  some_call_closed :
      (g h : GatewayState S) (cs ds : List Call)
      → g.accepting_work ≡ false
      → Turn sem g cs h ds
      → All IsGuarded cs
      → (h.accepting_work ≡ false) × (admissions ds ≤ admissions cs)
  some_call_closed g _ _ _ a (first {c = c} {d = d} {h = h} e) (v, w) =
      let (b, k) = advance_closed g h c d a v e in (b, omega arith)
  some_call_closed g _ _ _ a gives_up v = (a, omega arith)
  some_call_closed g h _ _ a (next {cs = cs} {ds = ds} t) (v, w) =
      let (b, k) = some_call_closed g h cs ds a t w in (b, omega arith)

  Turn-IsGuarded :
      (g h : GatewayState S) (cs ds : List Call)
      → Turn sem g cs h ds
      → All IsGuarded cs
      → All IsGuarded ds
  Turn-IsGuarded g _ _ _ (first {c = c} {d = d} {h = h} e) (v, w) =
      (advance-IsGuarded g h c d v e, w)
  Turn-IsGuarded g _ _ _ gives_up (v, w) = (tt, w)
  Turn-IsGuarded g h _ _ (next {cs = cs} {ds = ds} t) (v, w) = (v, Turn-IsGuarded g h cs ds t w)

  reach-IsGuarded :
      (s t : System sem) → All IsGuarded s.calls → Reach sem s t → All IsGuarded t.calls
  reach-IsGuarded s _ v here = v
  reach-IsGuarded s _ v (later {t = t} r reconciles) = reach-IsGuarded s t v r
  reach-IsGuarded s _ v (later {t = t} r (starts op)) =
      (program-IsGuarded t.gateway.batch_capacity op, reach-IsGuarded s t v r)
  reach-IsGuarded s _ v (later {t = t} r (turns {g = g} {cs = cs} u)) =
      Turn-IsGuarded t.gateway g t.calls cs u (reach-IsGuarded s t v r)

  closed :
      (s t : System sem)
      → All IsGuarded s.calls
      → s.gateway.accepting_work ≡ false
      → Reach sem s t
      → (t.gateway.accepting_work ≡ false) × (admissions t.calls ≤ admissions s.calls)
  closed s _ v a here = (a, omega arith)
  closed s _ v a (later {t = t} r reconciles) =
      let (b, k) = closed s t v a r in
      let (_, e) = reconciled_slot sem available laws Slots.live t.gateway in (e ∙ b, k)
  closed s _ v a (later {t = t} r (starts op)) =
      let (b, k) = closed s t v a r in
      (b, omega (arith, started_admits_nothing t.gateway.batch_capacity op))
  closed s _ v a (later {t = t} r (turns {g = g} {cs = cs} u)) =
      let (b, k) = closed s t v a r in
      let (b2, k2) = some_call_closed t.gateway g t.calls cs b u (reach-IsGuarded s t v r) in
      (b2, omega arith)

  -- If a semaphore counts its permits, then, once the shutdown has begun, work stays refused, and no
  -- further guarded call, for a live slot, a global batch slot or the slots of a recovery, returns a
  -- permit, whatever calls were under way and however they go on.
  pub shutdown_gives_nothing :
      (limits : GatewayLimits) (s t : System sem)
      → Reach sem (initial sem limits) s
      → s.gateway.accepting_work ≡ false
      → Reach sem s t
      → (t.gateway.accepting_work ≡ false) × (admissions t.calls ≤ admissions s.calls)
  shutdown_gives_nothing limits s t r a = closed s t (reach-IsGuarded (initial sem limits) s tt r) a
