-- ===== src/Gateway/Permits.antt =====
-- The permits of the slots of server/state.rs, counted: what a call takes is not free, and what it drops
-- is free again.
use mathlib.Core.Path.{subst}
use voicetext_gateway.Prelude.{
  ℕ, ap, ◌⊎◌, ◌+◌, ◌≡◌, refl, false, Option-cases, inl, inr, some, List, [], ◌∷◌, arith,
}
use voicetext_gateway.Gateway.{GatewayLimits}
use voicetext_gateway.Gateway.Slots.{
  Semaphore, SemaphoreLaws, deepgram_nova3_multi_v2, elevenlabs_scribe_v2_multi_v3, Slots, live,
  global_batch, batch, provider_batch, GatewayState, new_state, begin_shutdown,
  mark_startup_reconciled, slots, set_slots, take_slot, drop_slot, provider_capacity,
}
use voicetext_gateway.Gateway.Calls.{Call, running, dropping}

-- `live_connections` permits, or half of them for a provider.
abbrev pub capacity : GatewayLimits → Slots → ℕ
capacity limits (provider_batch identity) = provider_capacity limits.live_connections
capacity limits p = limits.live_connections

-- One for the same slots.
abbrev same : Slots → Slots → ℕ
same live live = 1
same global_batch global_batch = 1
same batch batch = 1
same (provider_batch deepgram_nova3_multi_v2) (provider_batch deepgram_nova3_multi_v2) = 1
same (provider_batch elevenlabs_scribe_v2_multi_v3) (provider_batch elevenlabs_scribe_v2_multi_v3) =
    1
same p q = 0

-- The permits of some slots that a list holds.
abbrev pub permits_in : Slots → List Slots → ℕ
permits_in p [] = 0
permits_in p (q ∷ qs) = same p q + permits_in p qs

abbrev pub held_by : Slots → Call → ℕ
held_by p (running op held todo) = permits_in p held
held_by p (dropping op held) = permits_in p held

-- The permits that the calls hold, on their way and given.
abbrev pub permits_held : Slots → List Call → ℕ
permits_held p [] = 0
permits_held p (c ∷ cs) = held_by p c + permits_held p cs

module _ {S : Type 0} (sem : Semaphore S) (available : S → ℕ)
    (laws : SemaphoreLaws sem available) where
  abbrev pub free : Slots → GatewayState S → ℕ
  free p g = available (slots sem p g)

  set_same :
      (p : Slots) (s : S) (g : GatewayState S)
      → (same p p ≡ 1)
        × (slots sem p (set_slots sem p s g) ≡ s)
        × ((set_slots sem p s g).accepting_work ≡ g.accepting_work)
  set_same live s g = (refl, refl, refl)
  set_same global_batch s g = (refl, refl, refl)
  set_same batch s g = (refl, refl, refl)
  set_same (provider_batch deepgram_nova3_multi_v2) s g = (refl, refl, refl)
  set_same (provider_batch elevenlabs_scribe_v2_multi_v3) s g = (refl, refl, refl)

  -- A change of some slots leaves the others alone.
  set_other :
      (p q : Slots)
      → (p ≡ q)
        ⊎ ((same q p ≡ 0)
            × ((s : S) (g : GatewayState S) → slots sem q (set_slots sem p s g) ≡ slots sem q g))
  set_other live live = inl refl
  set_other live global_batch = inr (refl, λ s g. refl)
  set_other live batch = inr (refl, λ s g. refl)
  set_other live (provider_batch deepgram_nova3_multi_v2) = inr (refl, λ s g. refl)
  set_other live (provider_batch elevenlabs_scribe_v2_multi_v3) = inr (refl, λ s g. refl)
  set_other global_batch live = inr (refl, λ s g. refl)
  set_other global_batch global_batch = inl refl
  set_other global_batch batch = inr (refl, λ s g. refl)
  set_other global_batch (provider_batch deepgram_nova3_multi_v2) = inr (refl, λ s g. refl)
  set_other global_batch (provider_batch elevenlabs_scribe_v2_multi_v3) = inr (refl, λ s g. refl)
  set_other batch live = inr (refl, λ s g. refl)
  set_other batch global_batch = inr (refl, λ s g. refl)
  set_other batch batch = inl refl
  set_other batch (provider_batch deepgram_nova3_multi_v2) = inr (refl, λ s g. refl)
  set_other batch (provider_batch elevenlabs_scribe_v2_multi_v3) = inr (refl, λ s g. refl)
  set_other (provider_batch deepgram_nova3_multi_v2) live = inr (refl, λ s g. refl)
  set_other (provider_batch deepgram_nova3_multi_v2) global_batch = inr (refl, λ s g. refl)
  set_other (provider_batch deepgram_nova3_multi_v2) batch = inr (refl, λ s g. refl)
  set_other (provider_batch deepgram_nova3_multi_v2) (provider_batch deepgram_nova3_multi_v2) =
      inl refl
  set_other (provider_batch deepgram_nova3_multi_v2)
        (provider_batch elevenlabs_scribe_v2_multi_v3) =
      inr (refl, λ s g. refl)
  set_other (provider_batch elevenlabs_scribe_v2_multi_v3) live = inr (refl, λ s g. refl)
  set_other (provider_batch elevenlabs_scribe_v2_multi_v3) global_batch = inr (refl, λ s g. refl)
  set_other (provider_batch elevenlabs_scribe_v2_multi_v3) batch = inr (refl, λ s g. refl)
  set_other (provider_batch elevenlabs_scribe_v2_multi_v3)
        (provider_batch deepgram_nova3_multi_v2) =
      inr (refl, λ s g. refl)
  set_other (provider_batch elevenlabs_scribe_v2_multi_v3)
        (provider_batch elevenlabs_scribe_v2_multi_v3) =
      inl refl

  -- What is free after a change of some slots by one permit.
  pub taken_slot :
      (p q : Slots) (g h : GatewayState S)
      → take_slot sem p g ≡ some h
      → (free q g ≡ same q p + free q h) × (h.accepting_work ≡ g.accepting_work)
  unfolding take_slot
  taken_slot p q g h e = elim (Option-cases (sem.try_acquire (slots sem p g))) [
    | inl n ↦ absurd (ground arith)
    | inr (s, k) ↦
        let (one, own, work) = set_same p s g in
        let less = laws.acquired (slots sem p g) s k in
        let h_eq : set_slots sem p s g ≡ h = ground arith in
        elim (set_other p q) [
          | inl z ↦ (
            subst (λ q. free q g ≡ same q p + free q h) z
                (subst (λ h. free p g ≡ same p p + free p h) h_eq
                  (omega (arith, less, one, ap available own))),
            subst (λ h. h.accepting_work ≡ g.accepting_work) h_eq work,
          )
          | inr (z, f) ↦ (
            subst (λ h. free q g ≡ same q p + free q h) h_eq
                (omega (arith, z, ap available (f s g))),
            subst (λ h. h.accepting_work ≡ g.accepting_work) h_eq work,
          )
        ]
  ]

  pub dropped_slot :
      (p q : Slots) (g : GatewayState S)
      → (free q (drop_slot sem p g) ≡ same q p + free q g)
        × ((drop_slot sem p g).accepting_work ≡ g.accepting_work)
  unfolding drop_slot
  dropped_slot p q g =
      let s = sem.release (slots sem p g) in
      let (one, own, work) = set_same p s g in
      let more = laws.released (slots sem p g) in
      elim (set_other p q) [
        | inl z ↦ (
          subst (λ q. free q (set_slots sem p s g) ≡ same q p + free q g) z
              (omega (arith, more, one, ap available own)),
          work,
        )
        | inr (z, f) ↦ (omega (arith, z, ap available (f s g)), work)
      ]

  pub shut_slot :
      (q : Slots) (g : GatewayState S)
      → (free q (begin_shutdown sem g) ≡ free q g) × ((begin_shutdown sem g).accepting_work ≡ false)
  unfolding begin_shutdown
  shut_slot live g = (refl, refl)
  shut_slot global_batch g = (refl, refl)
  shut_slot batch g = (refl, refl)
  shut_slot (provider_batch deepgram_nova3_multi_v2) g = (refl, refl)
  shut_slot (provider_batch elevenlabs_scribe_v2_multi_v3) g = (refl, refl)

  pub reconciled_slot :
      (q : Slots) (g : GatewayState S)
      → (free q (mark_startup_reconciled sem g) ≡ free q g)
        × ((mark_startup_reconciled sem g).accepting_work ≡ g.accepting_work)
  unfolding mark_startup_reconciled
  reconciled_slot live g = (refl, refl)
  reconciled_slot global_batch g = (refl, refl)
  reconciled_slot batch g = (refl, refl)
  reconciled_slot (provider_batch deepgram_nova3_multi_v2) g = (refl, refl)
  reconciled_slot (provider_batch elevenlabs_scribe_v2_multi_v3) g = (refl, refl)

  pub new_slot :
      (limits : GatewayLimits) (q : Slots) → free q (new_state sem limits) ≡ capacity limits q
  unfolding new_state
  new_slot limits live = laws.available-new _
  new_slot limits global_batch = laws.available-new _
  new_slot limits batch = laws.available-new _
  new_slot limits (provider_batch deepgram_nova3_multi_v2) = laws.available-new _
  new_slot limits (provider_batch elevenlabs_scribe_v2_multi_v3) = laws.available-new _
