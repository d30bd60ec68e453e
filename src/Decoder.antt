-- ===== src/Decoder.antt =====
-- wenet/runtime/core/decoder/asr_decoder.{h,cc}: `AsrDecoder`. The search is a record of the
-- operations of decoder/search_interface.h; the symbol tables, which are openfst's, are functions.
pub mod Stamps
pub mod Advance
pub mod Rescoring
pub mod Ordered
pub mod States
pub mod Took
pub mod Kept
pub mod Utterance
mod Tests
use wenet_android.Prelude.{
  ℕ, zero, suc, ◌+◌, ◌-◌, ◌*◌, ◌/◌, Bool, true, false, not, ◌&&◌, Option, none, some, List, [], ◌∷◌,
  ◌++◌, arith, if◌then◌else◌, ltb, leb, ◌==◌, length, ◌>>=◌, ◌>>◌, check,
}
use wenet_android.Prelude.Int.{ℤ, pos}
use wenet_android.Prelude.Float.{Float}
use wenet_android.Text.Utf8.{Bytes}
use wenet_android.Text.Parts.{is_empty}
use wenet_android.Feature as Feature
use wenet_android.Feature.{FeaturePipeline, num_queued_frames, read}
use wenet_android.Endpoint.{CtcEndpoint, is_endpoint}
use wenet_android.Endpoint as Endpoint
use wenet_android.Model.{
  AsrModel, num_frames_for_chunk, forward_encoder, set_chunk_size, set_num_left_chunks,
}
use wenet_android.Bridge.{DecodeState, end_batch, endpoint, end_feats, wait_feats, WordPiece}

-- `SearchInterface`
pub record Search (f : Float) (S : Type 0) : Type 0 where
  pub search : List (List f.F) → S → Option S
  pub finalize_search : S → Option S
  pub reset : S → S
  pub inputs : S → List (List ℕ)
  pub outputs : S → List (List ℕ)
  pub likelihood : S → List f.F
  pub times : S → List (List ℕ)
  pub is_wfst : Bool

pub record Result (f : Float) : Type 0 where
  pub score : f.F
  pub sentence : Bytes
  pub word_pieces : List WordPiece

abbrev pub time_stamp_gap : ℕ
time_stamp_gap = 100

-- The start of a unit, from the time of the one before it and its own. A time before that of the
-- unit in front gives a negative difference, which is below the gap as 0 is.
unfoldable pub start_of : ℕ → Option ℕ → ℕ → ℕ
start_of shift previous time =
    let alone = if ltb time_stamp_gap (time * shift) then time * shift - time_stamp_gap else 0 in
    elim previous [
      | none ↦ alone
      | some before ↦
          if ltb ((time - before) * shift) time_stamp_gap
          then (before + time) / 2 * shift
          else alone
    ]

-- Its end, from its own time and that of the one behind it.
unfoldable pub end_of : ℕ → ℕ → List ℕ → ℕ
end_of shift time [] = time * shift
end_of shift time (next ∷ later) =
    if ltb ((next - time) * shift) time_stamp_gap then (next + time) / 2 * shift else time * shift

-- The units of one hypothesis with their times; `CHECK_EQ` of the two sizes.
unfoldable pub pieces_from :
    (ℕ → Bytes) → ℕ → ℕ → Option ℕ → List ℕ → List ℕ → Option (List WordPiece)
pieces_from find offset shift previous [] [] = some []
pieces_from find offset shift previous [] (t ∷ times) = none
pieces_from find offset shift previous (unit ∷ input) [] = none
pieces_from find offset shift previous (unit ∷ input) (t ∷ times) =
    pieces_from find offset shift (some t) input times >>= λ pieces. some (
      record {
        word = find unit;
        start = pos (offset + start_of shift previous t);
        end = pos (offset + end_of shift t times);
      }
      ∷ pieces)

-- `path.sentence`
unfoldable pub spell_words : (ℕ → Bytes) → Bool → List ℕ → Bytes
spell_words find is_wfst [] = []
spell_words find is_wfst (id ∷ hypothesis) =
    (if is_wfst then 32 ∷ find id else find id) ++ spell_words find is_wfst hypothesis
