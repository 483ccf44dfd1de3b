-- ===== src/OggOpus.antt =====
-- crates/voicetext-audio/src/ogg_opus.rs: the validation of a whole Ogg Opus upload. The packets that
-- the `ogg` crate reads and the `opus` crate's count of samples are parameters. A byte is a number
-- below 256, a bit mask a division and a remainder, and a slice from `offset` on the rest of the list.
mod Types
mod Container
mod Headers
pub mod Framing
pub mod Granules
mod Tests
use voicetext_gateway.Prelude.{
  ℕ, ◌+◌, ◌-◌, ◌*◌, ◌/◌, Bool, true, false, not, ◌&&◌, ◌||◌, ◌==◌, ltb, leb, if◌then◌else◌, Option,
  none, some, List, [], ◌∷◌, is_empty, length, u32_max, u64_max, Result, ok, err, and_then,
}
use Types.{
  max_packet_bytes, no_granule_position, ContainerSummary, invalid_container,
  invalid_logical_stream, invalid_identification_header, invalid_comment_header,
  invalid_audio_packet, invalid_granule_position, missing_end_of_stream,
}
pub use Types.{
  max_samples_per_packet, sample_rate_hz, ValidatedOggOpus, OggOpusValidationError, Packet, byte_at,
  slice, sum, ScanState,
}
pub use Container.{scan_page, Scanned, initial_scan}
unfoldable pub use Container.{page_bounds, after_scan, after_bounds, scan_pages, scan_container}
use Headers.{validate_identification_header, validate_comment_header}

pub record AudioTiming : Type 0 where
  pub pre_skip : ℕ
  pub packet_count : ℕ
  pub page_samples : ℕ
  pub previous_page_granule : Option ℕ
  pub saw_eos : Bool

unfoldable pub new_timing : ℕ → AudioTiming
new_timing pre_skip = record {
  pre_skip = pre_skip;
  packet_count = 0;
  page_samples = 0;
  previous_page_granule = none;
  saw_eos = false;
}

-- The guards of `match self.previous_page_granule`.
unfoldable pub granule_fits : Option ℕ → ℕ → ℕ → ℕ → Bool → Bool
granule_fits none pre_skip page_samples granule true =
    leb pre_skip granule && leb granule page_samples
granule_fits none pre_skip page_samples granule false = granule == page_samples
granule_fits (some previous) pre_skip page_samples granule true =
    leb (previous + page_samples) u64_max
    && ltb previous granule
    && leb granule (previous + page_samples)
granule_fits (some previous) pre_skip page_samples granule false =
    leb (previous + page_samples) u64_max && granule == previous + page_samples

unfoldable pub validate_page_granule :
    Packet → AudioTiming → Result OggOpusValidationError AudioTiming
unfolding granule_fits
validate_page_granule p t =
    if p.absgp_page == no_granule_position
      || not (
          granule_fits t.previous_page_granule t.pre_skip t.page_samples p.absgp_page
            p.last_in_stream)
    then err invalid_granule_position
    else ok (record t { previous_page_granule = some p.absgp_page })

abbrev is_granule : Option ℕ → ℕ → Bool
is_granule none granule = false
is_granule (some previous) granule = previous == granule

-- `opus::packet::get_nb_samples` at 48 kHz: `none` for an error.
module _ (get_nb_samples : List ℕ → Option ℕ) where
  unfoldable pub packet_samples : Packet → Result OggOpusValidationError ℕ
  packet_samples p = elim (get_nb_samples p.payload) [
    | none ↦ err invalid_audio_packet
    | some samples ↦
        if samples == 0 || ltb max_samples_per_packet samples
        then err invalid_audio_packet
        else ok samples
  ]

  -- The sums of one packet.
  unfoldable pub count_packet : Packet → ℕ → AudioTiming → Result OggOpusValidationError AudioTiming
  count_packet p samples t =
      let page_samples = (if p.first_in_page then 0 else t.page_samples) + samples in
      if ltb u64_max page_samples
      then err invalid_granule_position
      else if ltb u32_max (t.packet_count + 1)
      then err invalid_audio_packet
      else ok (record t { page_samples = page_samples; packet_count = t.packet_count + 1 })

  unfoldable pub accept : Packet → AudioTiming → Result OggOpusValidationError AudioTiming
  unfolding packet_samples count_packet validate_page_granule
  accept p t =
      if t.saw_eos || is_empty p.payload || ltb max_packet_bytes (length p.payload)
      then err invalid_audio_packet
      else and_then (packet_samples p) λ samples. and_then (count_packet p samples t) λ counted.
        and_then (if p.last_in_page then validate_page_granule p counted else ok counted)
          λ checked. ok (record checked { saw_eos = p.last_in_stream })

  unfoldable pub finish : ℕ → AudioTiming → Result OggOpusValidationError ValidatedOggOpus
  finish final_granule t =
      if t.packet_count == 0
      then err invalid_audio_packet
      else if not t.saw_eos
      then err missing_end_of_stream
      else if not (is_granule t.previous_page_granule final_granule)
      then err invalid_granule_position
      else if leb final_granule t.pre_skip
          || ltb u64_max ((final_granule - t.pre_skip) * 1000 + (sample_rate_hz - 1))
      then err invalid_granule_position
      else ok (record {
        pre_skip_samples = t.pre_skip;
        duration_samples = final_granule - t.pre_skip;
        duration_millis =
            ((final_granule - t.pre_skip) * 1000 + (sample_rate_hz - 1)) / sample_rate_hz;
        audio_packet_count = t.packet_count;
      })

  -- The loop over the audio packets: an element `none` is a read that fails.
  unfoldable pub accept_all :
      ℕ → List (Option Packet) → AudioTiming → Result OggOpusValidationError AudioTiming
  unfolding accept
  accept_all serial [] t = ok t
  accept_all serial (none ∷ ps) t = err invalid_container
  accept_all serial (some p ∷ ps) t =
      if not (p.stream_serial == serial) || p.first_in_stream
      then err invalid_logical_stream
      else elim (accept p t) [ err e ↦ err e | ok u ↦ accept_all serial ps u ]

  unfoldable pub next_packet :
      List (Option Packet)
      → OggOpusValidationError
      → Result OggOpusValidationError (Packet × List (Option Packet))
  next_packet [] missing = err missing
  next_packet (none ∷ ps) missing = err invalid_container
  next_packet (some p ∷ ps) missing = ok (p, ps)

  -- The packets are those that the `ogg` crate reads from the input.
  unfoldable pub validate_packets :
      ContainerSummary → List (Option Packet) → Result OggOpusValidationError ValidatedOggOpus
  unfolding next_packet validate_identification_header validate_comment_header accept_all finish
      new_timing
  validate_packets container packets =
      and_then (next_packet packets invalid_identification_header) λ (head, after_head).
        if not (head.stream_serial == container.serial)
          || not head.first_in_stream
          || not head.first_in_page
          || not head.last_in_page
          || head.last_in_stream
          || not (head.absgp_page == 0)
        then err invalid_identification_header
        else and_then (validate_identification_header head.payload) λ pre_skip.
          and_then (next_packet after_head invalid_comment_header) λ (tags, audio).
            if not (tags.stream_serial == container.serial)
              || tags.first_in_stream
              || not tags.last_in_page
              || tags.last_in_stream
              || not (tags.absgp_page == 0)
            then err invalid_comment_header
            else and_then (validate_comment_header tags.payload) λ _.
              and_then (accept_all container.serial audio (new_timing pre_skip))
                λ timing. finish container.final_granule timing

  unfoldable pub validate_complete_ogg_opus :
      (List ℕ → List (Option Packet))
      → List ℕ
      → Option (Result OggOpusValidationError ValidatedOggOpus)
  unfolding scan_container validate_packets
  validate_complete_ogg_opus read_packets input = elim (scan_container input) [
    | none ↦ none
    | some (err e) ↦ some (err e)
    | some (ok container) ↦ some (validate_packets container (read_packets input))
  ]
