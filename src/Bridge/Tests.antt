-- ===== src/Bridge/Tests.antt =====
-- The bridge with a decoder of two rounds, and the theorems at it.
use wenet_android.Prelude.{
  refl, ℕ, ◌+◌, ◌≡◌, true, false, some, List, [], ◌∷◌, ◌++◌, codes, All, ltb,
}
use wenet_android.Prelude.Int.{◌+ℤ◌, ◌-ℤ◌, ◌*ℤ◌, ℤ, pos, ◌≤ℤ◌, leb_ℤ}
use wenet_android.Text.Utf8.{Bytes}
use wenet_android.Text.Parts.{is_empty, join_string}
use wenet_android.Bridge.{
  none, arith, is_empty, lookup_offset_ms, lookup_loop, div_int, show_int, digits, json_escape,
  print_piece, append_element, append_word_pieces, first_pieces, decoded_something, ◌*ℤ◌, ◌-ℤ◌,
  ◌+ℤ◌, escape_char, Decoder, OffsetEntry, Bridge, DecodeState, end_batch, endpoint, end_feats,
}
use wenet_android.Bridge.Calls.{
  push_silence, append_result, finish_round, endpoint_round, round_at, strip_comma, partial,
  to_int32, get_result_delta, reset, add_skipped_samples, snapshot_offset, decode_round,
  get_timed_result_delta,
}
use wenet_android.Bridge.Runs.{Run, stay, go, skips, snapshots, decodes}
use wenet_android.Bridge.Offsets.{lookup_latest, last_skip}
use wenet_android.Bridge.Escape.{scan, is_plain, scan-json_escape}
use wenet_android.Bridge.Confirmed.{confirmed_since_poll}
use wenet_android.Bridge.Pieces.{IsPiece}
use wenet_android.Bridge.Deltas.{delta_since_poll}

-- Its state counts the rounds: an endpoint, and then the end, with one word each.
abbrev two_rounds : Decoder ℕ
two_rounds = record {
  accept_waveform = λ pcm n. n;
  decode = λ n. (if_zero n, n + 1);
  rescoring = λ n. n;
  result = λ n.
      record {
        sentence = codes "hi";
        word_pieces = record { word = codes "hi"; start = pos 100; end = pos 200 } ∷ [];
      }
      ∷ [];
  reset = λ n. 0;
  reset_continuous_decoding = λ n. n;
}
  where
    if_zero : ℕ → DecodeState
    if_zero n = elim (ltb 0 n) [ true ↦ end_feats | false ↦ endpoint ]

abbrev no_time : ℤ → Bytes
no_time samples = []

abbrev blank_state : Bridge ℕ
blank_state = record {
  decoder = 0;
  state = end_batch;
  decode_thread_done = false;
  has_new_endpoint = false;
  total_result = [];
  timed_result_json = [];
  timed_result_sent_pos = 0;
  total_result_sent = [];
  total_samples = pos 0;
  endpoint_start_sample = pos 0;
  skipped_samples_offset = pos 0;
  pushed_silence_total = 0;
  total_fed_samples = 0;
  offset_map = [];
  last_partial_pieces = [];
}

abbrev started : Bridge ℕ
started = reset two_rounds no_time blank_state

-- 4000 samples skipped, a snapshot, and a first round.
abbrev skipped : Bridge ℕ
skipped =
    snapshot_offset two_rounds no_time (add_skipped_samples two_rounds no_time (pos 4000) started)

abbrev first_round : Bridge ℕ
first_round = (decode_round two_rounds no_time skipped).0

abbrev to_first : Run two_rounds no_time started first_round
to_first = go (go (go (stay started) (skips (pos 4000) started)) (snapshots _)) (decodes skipped)

abbrev polled : Bridge ℕ
polled = (get_timed_result_delta two_rounds no_time first_round).1

abbrev second_round : Bridge ℕ
second_round = (decode_round two_rounds no_time polled).0

second_delta :
    (get_timed_result_delta two_rounds no_time second_round).0
    ≡ codes "[{\"w\":\"hi\",\"s\":100,\"e\":200}]"
unfolding get_timed_result_delta decode_round round_at endpoint_round finish_round append_result
    append_word_pieces append_element print_piece json_escape escape_char show_int digits
    lookup_offset_ms lookup_loop div_int ◌+ℤ◌ ◌-ℤ◌ ◌*ℤ◌ is_empty snapshot_offset add_skipped_samples
    push_silence reset decoded_something first_pieces strip_comma to_int32
second_delta = refl

lookup_latest_example :
    (before after : List OffsetEntry) × (first_round.offset_map ≡ before ++ after)
    × All (λ (e : OffsetEntry). e.pipeline_ms ≤ℤ pos 1500) before
    × All (λ (e : OffsetEntry). leb_ℤ e.pipeline_ms (pos 1500) ≡ false) after
    × (lookup_loop first_round.offset_map (pos 1500) (pos 0) ≡ last_skip before (pos 0))
unfolding decode_round round_at endpoint_round append_result snapshot_offset add_skipped_samples
    push_silence reset decoded_something first_pieces is_empty
lookup_latest_example =
    lookup_latest two_rounds no_time blank_state first_round (pos 1500) to_first (omega arith)

scan-json_escape_example :
    scan false (json_escape (codes "a\"b\n") ++ b'"' ∷ codes ",") ≡ some (codes "a\"b\n", codes ",")
unfolding is_plain
scan-json_escape_example =
    scan-json_escape (codes "a\"b\n") (codes ",") (refl, (refl, (refl, (refl, tt))))

-- A bell is copied as it is, and no JSON string holds it.
bell : scan false (json_escape (7 ∷ []) ++ b'"' ∷ []) ≡ none
unfolding json_escape escape_char scan
bell = refl

delta_since_poll_example :
    (pieces more : List Bytes) × All IsPiece (pieces ++ more)
    × (first_round.timed_result_json ≡ join_string (b',' ∷ []) pieces)
    × (second_round.timed_result_json ≡ join_string (b',' ∷ []) (pieces ++ more))
    × ((get_timed_result_delta two_rounds no_time second_round).0
        ≡ codes "[" ++ join_string (b',' ∷ []) more ++ codes "]")
delta_since_poll_example =
    delta_since_poll two_rounds no_time blank_state first_round second_round to_first
      (go (stay polled) (decodes polled)) (tt, tt)

abbrev told : Bridge ℕ
told = (get_result_delta two_rounds no_time first_round).1

confirmed_since_poll_example :
    (more : Bytes) × ((decode_round two_rounds no_time told).0.total_result
      ≡ first_round.total_result ++ more)
    × ((get_result_delta two_rounds no_time (decode_round two_rounds no_time told).0).0
        ≡ more
          ++ b'\n' ∷ partial two_rounds no_time (decode_round two_rounds no_time told).0.decoder)
confirmed_since_poll_example =
    confirmed_since_poll two_rounds no_time blank_state first_round
      (decode_round two_rounds no_time told).0 to_first (go (stay told) (decodes told)) (tt, tt)
