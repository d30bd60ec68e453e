-- ===== src/Bridge.antt =====
-- wenet/runtime/android/app/src/main/cpp/wenet.cc: the state between the application and the
-- decoder, and the calls that change it, each as one step. `FormatTime` prints a float and is a
-- parameter, as is the decoder with the feature pipeline that it shares.
pub mod Calls
mod Runs
mod Pieces
mod Offsets
mod Deltas
mod Confirmed
mod Escape
mod Tests
use wenet_android.Prelude.{
  ℕ, zero, suc, ◌+◌, ◌*◌, ◌/◌, ◌%◌, Bool, true, false, not, Option, none, some, List, [], ◌∷◌, ◌++◌,
  arith, if◌then◌else◌, ◌==◌, length, take, drop, replicate, codes, ◌>>=◌,
}
use wenet_android.Prelude.Int.{ℤ, pos, negsuc, ◌+ℤ◌, ◌-ℤ◌, ◌*ℤ◌, leb_ℤ, ltb_ℤ}
use wenet_android.Text.Utf8.{Bytes}
use wenet_android.Text.Parts.{is_empty}

pub data DecodeState : Type 0 where
  end_batch : DecodeState
  endpoint : DecodeState
  end_feats : DecodeState
  wait_feats : DecodeState

pub record WordPiece : Type 0 where
  pub word : Bytes
  pub start : ℤ
  pub end : ℤ

pub record DecodeResult : Type 0 where
  pub sentence : Bytes
  pub word_pieces : List WordPiece

-- What the bridge calls of decoder/asr_decoder.h and frontend/feature_pipeline.h.
pub record Decoder (D : Type 0) : Type 0 where
  pub accept_waveform : List ℤ → D → D
  pub decode : D → DecodeState × D
  pub rescoring : D → D
  pub result : D → List DecodeResult
  pub reset : D → D
  pub reset_continuous_decoding : D → D

pub record OffsetEntry : Type 0 where
  pub pipeline_ms : ℤ
  pub skip_samples : ℤ

pub record Bridge (D : Type 0) : Type 0 where
  pub decoder : D
  pub state : DecodeState
  pub decode_thread_done : Bool
  pub has_new_endpoint : Bool
  pub total_result : Bytes
  pub timed_result_json : Bytes
  pub timed_result_sent_pos : ℕ
  pub total_result_sent : Bytes
  pub total_samples : ℤ
  pub endpoint_start_sample : ℤ
  pub skipped_samples_offset : ℤ
  pub pushed_silence_total : ℕ
  pub total_fed_samples : ℕ
  pub offset_map : List OffsetEntry
  pub last_partial_pieces : List WordPiece  -- local to the decoding thread

abbrev pub sample_rate : ℕ
sample_rate = 8000

-- One character of `JsonEscape`.
unfoldable pub escape_char : ℕ → Bytes
escape_char c =
    if c == b'"'
    then codes "\\\""
    else if c == b'\\'
    then codes "\\\\"
    else if c == b'\n'
    then codes "\\n"
    else if c == b'\r'
    then codes "\\r"
    else if c == b'\t'
    then codes "\\t"
    else c ∷ []

unfoldable pub json_escape : Bytes → Bytes
json_escape [] = []
json_escape (c ∷ s) = escape_char c ++ json_escape s

-- `%d`: the digits of a number, the last first in `rest`.
unfoldable pub digits : ℕ → ℕ → Bytes → Bytes
digits zero n rest = rest
digits (suc fuel) n rest =
    let shown = (b'0' + n % 10) ∷ rest in
    let more = digits fuel (n / 10) shown in if n / 10 == 0 then shown else more

unfoldable pub show_int : ℤ → Bytes
show_int (pos n) = digits (n + 1) n []
show_int (negsuc n) = b'-' ∷ digits (n + 2) (n + 1) []

-- Division of C++: towards 0.
unfoldable pub div_int : ℤ → ℕ → ℤ
div_int (pos n) d = pos (n / d)
div_int (negsuc n) d = pos 0 -ℤ pos ((n + 1) / d)

unfoldable pub lookup_loop : List OffsetEntry → ℤ → ℤ → ℤ
lookup_loop [] word_pipeline_ms offset_samples = offset_samples
lookup_loop (entry ∷ entries) word_pipeline_ms offset_samples =
    let later = lookup_loop entries word_pipeline_ms entry.skip_samples in
    if leb_ℤ entry.pipeline_ms word_pipeline_ms then later else offset_samples

-- `offset_samples * 1000 / kSampleRate`
unfoldable pub lookup_offset_ms : List OffsetEntry → ℤ → ℤ
lookup_offset_ms entries word_pipeline_ms =
    div_int (lookup_loop entries word_pipeline_ms (pos 0) *ℤ pos 1000) sample_rate

-- `snprintf` into 256 bytes.
unfoldable pub print_piece : List OffsetEntry → WordPiece → Bytes
print_piece entries wp =
    let offset_ms = lookup_offset_ms entries wp.start in
    take 255 (
      codes "{\"w\":\""
      ++ json_escape wp.word
      ++ codes "\",\"s\":"
      ++ show_int (wp.start +ℤ offset_ms)
      ++ codes ",\"e\":"
      ++ show_int (wp.end +ℤ offset_ms)
      ++ codes "}")

-- `timed_result_json` gets an element, behind a comma unless it is the first.
unfoldable pub append_element : Bytes → Bytes → Bytes
append_element json element = (if is_empty json then json else json ++ b',' ∷ []) ++ element

unfoldable pub append_word_pieces : List OffsetEntry → List WordPiece → Bytes → Bytes
append_word_pieces entries [] json = json
append_word_pieces entries (wp ∷ pieces) json =
    append_word_pieces entries pieces (append_element json (print_piece entries wp))

abbrev pub newline_marker : Bytes
newline_marker = codes "{\"w\":\"\\n\",\"s\":0,\"e\":0}"

-- `DecodedSomething()`, and what the bridge reads of the first result then.
unfoldable pub decoded_something : List DecodeResult → Bool
decoded_something [] = false
decoded_something (r ∷ results) = not (is_empty r.sentence)

unfoldable pub first_sentence : List DecodeResult → Bytes
first_sentence [] = []
first_sentence (r ∷ results) = r.sentence

unfoldable pub first_pieces : List DecodeResult → List WordPiece
first_pieces [] = []
first_pieces (r ∷ results) = r.word_pieces
