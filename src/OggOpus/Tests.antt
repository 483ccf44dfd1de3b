-- ===== src/OggOpus/Tests.antt =====
-- One page of two Opus packets of 960 samples each.
use voicetext_gateway.Prelude.{
  and_then, ℕ, ◌≡◌, ◌≤◌, ◌<◌, ◌+◌, ◌*◌, refl, true, false, List, [], ◌∷◌, Option, some, IsSome,
}
use voicetext_gateway.OggOpus.{
  Packet, AudioTiming, ValidatedOggOpus, accept_all, finish, new_timing, scan_container,
  max_samples_per_packet, sample_rate_hz,
}
use voicetext_gateway.OggOpus.Granules.{total_samples, duration_backed}
use voicetext_gateway.OggOpus.Framing.{scan_container_total}

abbrev samples : List ℕ → Option ℕ
samples bytes = some 960

abbrev packet : Packet
packet = record {
  payload = 1 ∷ [];
  stream_serial = 7;
  first_in_stream = false;
  last_in_stream = false;
  first_in_page = true;
  last_in_page = false;
  absgp_page = 1900;
}

abbrev last_packet : Packet
last_packet = record packet { first_in_page = false; last_in_page = true; last_in_stream = true }

abbrev timing : AudioTiming
timing = record {
  pre_skip = 312;
  packet_count = 2;
  page_samples = 1920;
  previous_page_granule = some 1900;
  saw_eos = true;
}

abbrev validated : ValidatedOggOpus
validated = record {
  pre_skip_samples = 312;
  duration_samples = 1588;
  duration_millis = 34;
  audio_packet_count = 2;
}

duration_backed_example :
    (1588 + 312 ≡ 1900)
    × (1900 ≤ total_samples samples (some packet ∷ some last_packet ∷ []))
    × (total_samples samples (some packet ∷ some last_packet ∷ []) ≤ 2 * max_samples_per_packet)
    × (0 < 1588)
    × (1588 * 1000 ≤ 34 * sample_rate_hz)
    × (34 * sample_rate_hz < 1588 * 1000 + sample_rate_hz)
    × (validated.audio_packet_count ≡ 2)
unfolding accept_all and_then finish new_timing
duration_backed_example =
    duration_backed samples 7 312 1900 (some packet ∷ some last_packet ∷ []) timing validated
      ((λ e. refl), ((λ e. cc), tt)) refl refl

scan_container_total_example : IsSome (scan_container (79 ∷ 103 ∷ 103 ∷ 83 ∷ []))
scan_container_total_example = scan_container_total (79 ∷ 103 ∷ 103 ∷ 83 ∷ [])
