-- ===== src/OggOpus/Container.antt =====
-- crates/voicetext-audio/src/ogg_opus.rs: the scan of the pages.
use voicetext_gateway.Prelude.{
  ℕ, zero, suc, ◌+◌, ◌/◌, Bool, true, false, not, ◌&&◌, ◌||◌, ◌==◌, ltb, leb, if◌then◌else◌, Option,
  none, some, List, [], ◌∷◌, text, text_eq, is_empty, length, take, drop, any, u32_max, Result, ok,
  err, and_then,
}
use voicetext_gateway.OggOpus.Types.{
  max_ogg_opus_bytes, no_granule_position, OggOpusValidationError, ContainerSummary, from_le_bytes,
  byte_at, slice, sum, has_bit, ScanState, invalid_size, invalid_container, invalid_logical_stream,
  invalid_granule_position, missing_end_of_stream,
}

-- `match serial`
unfoldable pub scan_serial : Option ℕ → ℕ → ℕ → Result OggOpusValidationError ℕ
scan_serial none flags page_serial =
    if has_bit flags 2 && not (has_bit flags 1) then ok page_serial else err invalid_logical_stream
scan_serial (some value) flags page_serial =
    if value == page_serial && not (has_bit flags 2) then ok value else err invalid_logical_stream

-- The granule rules of one page: the position never falls.
unfoldable pub scan_granule : ℕ → ScanState → Result OggOpusValidationError ScanState
scan_granule granule s =
    if granule == no_granule_position
    then ok s
    else if s.saw_position && ltb granule s.previous_granule
    then err invalid_granule_position
    else ok (record s { previous_granule = granule; saw_position = true })

unfoldable pub scan_end : ℕ → ℕ → Bool → ScanState → Result OggOpusValidationError ScanState
scan_end flags granule at_end s =
    if not (has_bit flags 4)
    then ok s
    else if not at_end || granule == no_granule_position
    then err invalid_logical_stream
    else ok (record s { final_granule = some granule })

abbrev next_sequence : ℕ → Result OggOpusValidationError ℕ
next_sequence n = if leb (n + 1) u32_max then ok (n + 1) else err invalid_container

-- The rules of one page, once its bounds are checked.
unfoldable pub scan_page :
    List ℕ → List ℕ → Bool → ScanState → Result OggOpusValidationError ScanState
unfolding scan_serial scan_granule scan_end from_le_bytes
scan_page header segments at_end s =
    let flags = byte_at 5 header in
    let granule = from_le_bytes (slice 6 8 header) in
    let page_serial = from_le_bytes (slice 14 4 header) in
    let sequence = from_le_bytes (slice 18 4 header) in
    let has_completed_packet = any (λ v. ltb v 255) segments in
    if (if has_completed_packet
      then granule == no_granule_position
      else not (granule == no_granule_position))
    then err invalid_granule_position
    else and_then (scan_serial s.serial flags page_serial) λ serial.
      if not (sequence == s.expected_sequence)
      then err invalid_container
      else and_then (next_sequence s.expected_sequence) λ expected.
        and_then
          (scan_granule granule (record s { serial = some serial; expected_sequence = expected }))
          λ t. scan_end flags granule at_end t

-- The end of the page that starts the list, when the header, the table and the body lie inside it.
unfoldable pub page_bounds : List ℕ → Result OggOpusValidationError (List ℕ × List ℕ × List ℕ)
page_bounds rest =
    if ltb (length rest) 27
    then err invalid_container
    else let header = take 27 rest in
      if not (text_eq (take 4 header) (text "OggS"))
        || not (byte_at 4 header == 0)
        || not (byte_at 5 header / 8 == 0)
      then err invalid_container
      else let segment_count = byte_at 26 header in
        if ltb (length rest) (27 + segment_count)
        then err invalid_container
        else let segments = slice 27 segment_count rest in
          if ltb (length rest) (27 + segment_count + sum segments)
          then err invalid_container
          else ok (header, segments, drop (27 + segment_count + sum segments) rest)

abbrev pub Scanned : Type 0
Scanned = Option (Result OggOpusValidationError ScanState)

unfoldable pub after_scan :
    (List ℕ → ScanState → Scanned) → List ℕ → Result OggOpusValidationError ScanState → Scanned
after_scan again rest (err e) = some (err e)
after_scan again rest (ok s) = again rest s

unfoldable pub after_bounds :
    (List ℕ → ScanState → Scanned)
    → ScanState
    → Result OggOpusValidationError (List ℕ × List ℕ × List ℕ)
    → Scanned
unfolding after_scan scan_page
after_bounds again s (err e) = some (err e)
after_bounds again s (ok (header, segments, rest)) =
    after_scan again rest (scan_page header segments (is_empty rest) s)

-- The loop, on fuel: `none` when the fuel ends before the input does.
unfoldable pub scan_pages : ℕ → List ℕ → ScanState → Scanned
unfolding after_bounds page_bounds
scan_pages fuel [] s = some (ok s)
scan_pages zero (b ∷ bs) s = none
scan_pages (suc fuel) (b ∷ bs) s = after_bounds (scan_pages fuel) s (page_bounds (b ∷ bs))

unfoldable pub summarize : ScanState → Result OggOpusValidationError ContainerSummary
summarize s = elim s.serial [
  | none ↦ err invalid_container
  | some serial ↦ elim s.final_granule [
    | none ↦ err missing_end_of_stream
    | some granule ↦ ok (record { serial = serial; final_granule = granule })
  ]
]

abbrev pub initial_scan : ScanState
initial_scan = record {
  serial = none;
  expected_sequence = 0;
  previous_granule = 0;
  saw_position = false;
  final_granule = none;
}

abbrev summarized :
    Option (Result OggOpusValidationError ScanState)
    → Option (Result OggOpusValidationError ContainerSummary)
summarized none = none
summarized (some (err e)) = some (err e)
summarized (some (ok s)) = some (summarize s)

unfoldable pub scan_container : List ℕ → Option (Result OggOpusValidationError ContainerSummary)
unfolding scan_pages summarize
scan_container input =
    if is_empty input || ltb max_ogg_opus_bytes (length input)
    then some (err invalid_size)
    else summarized (scan_pages (length input) input initial_scan)
