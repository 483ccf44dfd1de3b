-- ===== src/OggOpus/Granules.antt =====
-- The granule positions of ogg_opus.rs held against the samples of the packets.
use mathlib.Core.Path.{subst}
use voicetext_gateway.Prelude.{
  and_then, ℕ, ◌+◌, ◌*◌, ◌≤◌, ◌<◌, ◌≡◌, ◌∙◌, refl, Bool, true, List, [], ◌∷◌, Option, none, some,
  Result, ok, err, arith, length, if◌then◌else◌, Result-cases, Bool-cases, inl, inr, ◌==◌, ◌||◌,
  not,
}
use voicetext_gateway.OggOpus.{
  AudioTiming, Packet, ValidatedOggOpus, OggOpusValidationError, accept, accept_all, finish,
  new_timing, max_samples_per_packet, sample_rate_hz,
}

-- The last page's position, from 0.
abbrev pub position : Option ℕ → ℕ
position none = 0
position (some granule) = granule

module _ (get_nb_samples : List ℕ → Option ℕ) where
  abbrev samples_in : Option ℕ → ℕ
  samples_in none = 0
  samples_in (some n) = n

  abbrev pub samples_of : Packet → ℕ
  samples_of p = samples_in (get_nb_samples p.payload)

  abbrev pub total_samples : List (Option Packet) → ℕ
  total_samples [] = 0
  total_samples (none ∷ ps) = total_samples ps
  total_samples (some p ∷ ps) = samples_of p + total_samples ps

  -- After the last packet of a page comes the first of the next: how the `ogg` crate marks packets.
  abbrev pub Paged : Bool → List (Option Packet) → Type 0
  Paged b [] = Unit {0}
  Paged b (none ∷ ps) = Paged b ps
  Paged b (some p ∷ ps) = (b ≡ true → p.first_in_page ≡ true) × Paged p.last_in_page ps

  -- The positions and the samples of the page under way are within the samples so far.
  abbrev Within : ℕ → Bool → AudioTiming → Type 0
  Within total b t = position t.previous_page_granule + (if b then 0 else t.page_samples) ≤ total

  abbrev Accepted : ℕ → AudioTiming → Packet → Result OggOpusValidationError AudioTiming → Type 0
  Accepted total t p (err e) = Unit {0}
  Accepted total t p (ok u) =
      Within (total + samples_of p) p.last_in_page u
      × (u.packet_count ≡ t.packet_count + 1)
      × (u.pre_skip ≡ t.pre_skip)
      × (1 ≤ samples_of p)
      × (samples_of p ≤ max_samples_per_packet)

  accept-Within :
      (total : ℕ) (b : Bool) (t : AudioTiming) (p : Packet)
      → Within total b t
      → (b ≡ true → p.first_in_page ≡ true)
      → Accepted total t p (accept get_nb_samples p t)
  unfolding accept and_then
  accept-Within total b t p w f = ground (arith, f)

  abbrev AllAccepted :
      ℕ → AudioTiming → List (Option Packet) → Result OggOpusValidationError AudioTiming → Type 0
  AllAccepted total t ps (err e) = Unit {0}
  AllAccepted total t ps (ok u) =
      (position u.previous_page_granule ≤ total + total_samples ps)
      × (u.packet_count ≡ t.packet_count + length ps)
      × (u.pre_skip ≡ t.pre_skip)
      × (total_samples ps ≤ length ps * max_samples_per_packet)

  all_step :
      (total : ℕ) (t u : AudioTiming) (p : Packet) (ps : List (Option Packet))
      (r : Result OggOpusValidationError AudioTiming)
      → Accepted total t p (ok u)
      → AllAccepted (total + samples_of p) u ps r
      → AllAccepted total t (some p ∷ ps) r
  all_step total t u p ps (err e) (w, c, k, low, high) h = tt
  all_step total t u p ps (ok v) (w, c, k, low, high) (a, b, d, e) =
      (omega arith, omega arith, d ∙ k, omega arith)

  accept_all-Within :
      (serial total : ℕ) (b : Bool) (t : AudioTiming) (ps : List (Option Packet))
      → Within total b t
      → Paged b ps
      → AllAccepted total t ps (accept_all get_nb_samples serial ps t)
  unfolding accept_all
  accept_all-Within serial total b t [] w g = (omega arith, omega arith, refl, omega arith)
  accept_all-Within serial total b t (none ∷ ps) w g = tt
  accept_all-Within serial total b t (some p ∷ ps) w (f, g) =
      elim (Bool-cases (not (p.stream_serial == serial) || p.first_in_stream)) [
        | inl e ↦ rw e tt
        | inr e ↦ elim (Result-cases (accept get_nb_samples p t)) [
          | inr (x, h) ↦ rw (e, h) tt
          | inl (u, h) ↦
              let a = subst (Accepted total t p) h (accept-Within total b t p w f) in
              rw (e, h)
                (all_step total t u p ps (accept_all get_nb_samples serial ps u) a
                  (accept_all-Within serial (total + samples_of p) p.last_in_page u ps a.0 g))
        ]
      ]

  -- If the audio packets, marked as the `ogg` crate marks them, are accepted and the stream is
  -- finished with a final position, then that position is the playable duration and the pre-skip
  -- together, lies within the samples that the packets hold, of which there are at most 5,760 in each;
  -- the duration is positive, its milliseconds are rounded up, and every packet is counted.
  pub duration_backed :
      (serial pre_skip final_granule : ℕ) (ps : List (Option Packet)) (t : AudioTiming)
      (v : ValidatedOggOpus)
      → Paged true ps
      → accept_all get_nb_samples serial ps (new_timing pre_skip) ≡ ok t
      → finish get_nb_samples final_granule t ≡ ok v
      → (v.duration_samples + pre_skip ≡ final_granule)
        × (final_granule ≤ total_samples ps)
        × (total_samples ps ≤ length ps * max_samples_per_packet)
        × (0 < v.duration_samples)
        × (v.duration_samples * 1000 ≤ v.duration_millis * sample_rate_hz)
        × (v.duration_millis * sample_rate_hz < v.duration_samples * 1000 + sample_rate_hz)
        × (v.audio_packet_count ≡ length ps)
  unfolding finish new_timing
  duration_backed serial pre_skip final_granule ps t v g h k =
      let (a, b, c, d) =
        subst (AllAccepted 0 (new_timing pre_skip) ps) h
          (accept_all-Within serial 0 true (new_timing pre_skip) ps (omega arith) g) in
      ground arith
