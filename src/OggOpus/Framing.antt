-- ===== src/OggOpus/Framing.antt =====
-- The container scan of ogg_opus.rs ends, and the fields of the identification header.
use voicetext_gateway.Prelude.{
  ℕ, zero, suc, ◌+◌, ◌≤◌, List, [], ◌∷◌, IsSome, Result, ok, err, arith, length, length-drop, take,
  is_empty,
}
use voicetext_gateway.OggOpus.{
  ScanState, OggOpusValidationError, scan_pages, scan_page, Scanned, after_scan, after_bounds,
  page_bounds, scan_container, initial_scan, sum, slice, byte_at,
}

abbrev Shrinks : ℕ → Result OggOpusValidationError (List ℕ × List ℕ × List ℕ) → Type 0
Shrinks n (err e) = Unit {0}
Shrinks n (ok (header, segments, rest)) = length rest + 27 ≤ n

-- What follows a page is shorter than what it starts by at least its header.
bounds_shrink : (input : List ℕ) → Shrinks (length input) (page_bounds input)
unfolding page_bounds
bounds_shrink input = ground (
  arith,
  length-drop (27 + byte_at 26 (take 27 input) + sum (slice 27 (byte_at 26 (take 27 input)) input))
      input,
)

scan_ends :
    (again : List ℕ → ScanState → Scanned) (rest : List ℕ)
    (r : Result OggOpusValidationError ScanState)
    → ((t : ScanState) → IsSome (again rest t))
    → IsSome (after_scan again rest r)
unfolding after_scan
scan_ends again rest (err e) h = tt
scan_ends again rest (ok s) h = h s

bounds_end :
    (again : List ℕ → ScanState → Scanned) (n : ℕ) (s : ScanState)
    (r : Result OggOpusValidationError (List ℕ × List ℕ × List ℕ))
    → Shrinks n r
    → ((rest : List ℕ) (t : ScanState) → length rest + 27 ≤ n → IsSome (again rest t))
    → IsSome (after_bounds again s r)
unfolding after_bounds
bounds_end again n s (err e) h k = tt
bounds_end again n s (ok (header, segments, rest)) h k =
    scan_ends again rest (scan_page header segments (is_empty rest) s) (λ t. k rest t h)

pages_end :
    (fuel : ℕ) (input : List ℕ) (s : ScanState)
    → length input ≤ fuel
    → IsSome (scan_pages fuel input s)
unfolding scan_pages
pages_end fuel [] s h = tt
pages_end zero (b ∷ bs) s h = absurd (omega (arith, h))
pages_end (suc fuel) (b ∷ bs) s h =
    bounds_end (scan_pages fuel) (length (b ∷ bs)) s (page_bounds (b ∷ bs)) (bounds_shrink (b ∷ bs))
      (λ rest t k. pages_end fuel rest t (omega (arith, h)))

-- The scan of any upload ends within as many pages as it has bytes: it always has a result.
pub scan_container_total : (input : List ℕ) → IsSome (scan_container input)
unfolding scan_container
scan_container_total input = ground (arith, pages_end (length input) input initial_scan)
