-- ===== src/ElevenLabs/Blanks.antt =====
-- White space in elevenlabs/live_state.rs: a text with something left after normalization leaves
-- something in the stable text.
use mathlib.Core.List.{reverse, reverse_aux}
use voicetext_gateway.Prelude.{
  ◌≡◌, ◌∙◌, refl, sym, Bool, true, false, ◌&&◌, [], ◌∷◌, ◌++◌, Text, all, is_empty, is_whitespace,
  trim, trim_start, words_from, split_whitespace, arith, Unicode, if◌then◌else◌,
}
use voicetext_gateway.ElevenLabs.{normalize, append_stable}

abbrev pub is_blank : Text → Bool
is_blank t = all is_whitespace t

blank-append : (t u : Text) → is_blank (t ++ u) ≡ (is_blank t && is_blank u)
blank-append [] u = refl
blank-append (c ∷ t) u = ground (arith, blank-append t u)

blank-trim_start : (t : Text) → is_blank (trim_start t) ≡ is_blank t
unfolding trim_start
blank-trim_start [] = refl
blank-trim_start (c ∷ t) = ground (arith, blank-trim_start t)

blank-reverse_aux : (t u : Text) → is_blank (reverse_aux t u) ≡ (is_blank t && is_blank u)
blank-reverse_aux [] u = refl
blank-reverse_aux (c ∷ t) u = ground (arith, blank-reverse_aux t (c ∷ u))

blank-reverse : (t : Text) → is_blank (reverse t) ≡ is_blank t
blank-reverse t = ground (arith, blank-reverse_aux t [])

blank-trim : (t : Text) → is_blank (trim t) ≡ is_blank t
unfolding trim
blank-trim t =
    blank-reverse (trim_start (reverse (trim_start t)))
    ∙ blank-trim_start (reverse (trim_start t))
    ∙ blank-reverse (trim_start t)
    ∙ blank-trim_start t

-- A text that is white space throughout has no words.
blank_words : (t : Text) → is_blank t ≡ true → words_from [] t ≡ []
unfolding words_from
blank_words [] h = refl
blank_words (c ∷ t) h = ground (arith, blank_words t)

pub normalize_blank :
    (unicode : Unicode) (t : Text) → is_empty (normalize unicode t) ≡ false → is_blank t ≡ false
unfolding normalize split_whitespace
normalize_blank unicode t h = ground (arith, blank_words t)

and_false : (b : Bool) → (b && false) ≡ false
and_false true = refl
and_false false = refl

pub append_blank : (s t : Text) → is_blank t ≡ false → is_blank (append_stable s t) ≡ false
unfolding append_stable
append_blank s t h =
    blank-append (if is_empty s then s else s ++ 32 ∷ []) (trim t)
    ∙ rw (blank-trim t, h) (and_false (is_blank (if is_empty s then s else s ++ 32 ∷ [])))

empty_blank : (t : Text) → is_empty t ≡ true → is_blank t ≡ true
empty_blank [] h = refl
empty_blank (c ∷ t) h = cc

pub trim_blank : (t : Text) → is_empty (trim t) ≡ true → is_blank t ≡ true
trim_blank t h = sym (blank-trim t) ∙ empty_blank (trim t) h
