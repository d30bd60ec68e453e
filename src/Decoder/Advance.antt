-- ===== src/Decoder/Advance.antt =====
-- The state of `AsrDecoder`, its results and `AdvanceDecoding`.
use wenet_android.Prelude.{
  ℕ, ◌+◌, ◌*◌, ◌/◌, Bool, true, false, not, ◌&&◌, ◌||◌, Option, none, some, List, [], ◌∷◌,
  if◌then◌else◌, ltb, drop, get_elem?, length, ◌>>=◌,
}
use wenet_android.Prelude.Int.{ℤ, pos}
use wenet_android.Prelude.Float.{Float}
use wenet_android.Text.Utf8.{Bytes}
use wenet_android.Text.Parts.{is_empty}
use wenet_android.Feature.{FeaturePipeline, num_queued_frames, read}
use wenet_android.Feature as Feature
use wenet_android.Endpoint.{CtcEndpoint, is_endpoint}
use wenet_android.Endpoint as Endpoint
use wenet_android.Model.{
  AsrModel, num_frames_for_chunk, forward_encoder, set_chunk_size, set_num_left_chunks,
}
use wenet_android.Bridge.{DecodeState, end_batch, endpoint, end_feats, wait_feats, WordPiece}
use wenet_android.Decoder.{Search, Result, pieces_from, spell_words}

pub record DecodeOptions (f : Float) : Type 0 where
  pub chunk_size : ℤ
  pub num_left_chunks : ℤ
  pub ctc_weight : f.F
  pub rescoring_weight : f.F
  pub reverse_weight : f.F
  pub blank_scale : f.F  -- of the WFST search's options

pub record AsrDecoder (f : Float) (Sample V E S : Type 0) : Type 0 where
  pub opts : DecodeOptions f
  pub feature_pipeline : FeaturePipeline Sample V
  pub model : AsrModel V E
  pub searcher : S
  pub ctc_endpointer : CtcEndpoint f
  pub start : Bool
  pub num_frames : ℕ
  pub global_frame_offset : ℕ
  pub result : List (Result f)

-- What the decoder is built from: the search, the model's own operations, the symbol tables and the
-- post processor, the last two where they are given.
pub record Resource (f : Float) (Sample V E S : Type 0) : Type 0 where
  pub search : Search f S
  pub forward : List V → E → List (List f.F) × E
  pub reset_model : AsrModel V E → AsrModel V E
  pub attention_rescoring : List (List ℕ) → f.F → E → List f.F
  pub find_symbol : ℕ → Bytes
  pub find_unit : Option (ℕ → Bytes)
  pub post_process : Option (Bytes → Bool → Option Bytes)

module _ {f : Float} {Sample V E S : Type 0} (r : Resource f Sample V E S) where
  abbrev pub AsrDec : Type 0
  AsrDec = AsrDecoder f Sample V E S

  unfoldable pub decoded_something : List (Result f) → Bool
  decoded_something [] = false
  decoded_something (path ∷ result) = not (is_empty path.sentence)

  unfoldable pub feature_frame_shift_in_ms : AsrDec → ℕ
  feature_frame_shift_in_ms d =
      d.feature_pipeline.config.frame_shift * 1000 / d.feature_pipeline.config.sample_rate

  unfoldable pub frame_shift_in_ms : AsrDec → ℕ
  frame_shift_in_ms d =
      d.model.subsampling_rate * d.feature_pipeline.config.frame_shift * 1000
      / d.feature_pipeline.config.sample_rate

  -- The sentence, through the post processor.
  unfoldable pub sentence_of : Bool → List ℕ → Option Bytes
  sentence_of finish hypothesis =
      let spelt = spell_words r.find_symbol r.search.is_wfst hypothesis in
      elim r.post_process [ none ↦ some spelt | some process ↦ process spelt finish ]

  -- The word pieces, in a final result with a unit table only.
  unfoldable pub pieces_of :
      Bool → ℕ → ℕ → Option (List ℕ) → Option (List ℕ) → Option (List WordPiece)
  pieces_of finish offset shift input time_stamp = elim r.find_unit [
    | none ↦ some []
    | some find ↦
        if finish
        then (input >>= (λ units.
            time_stamp >>= (λ stamps. pieces_from find offset shift none units stamps)))
        else some []
  ]

  -- One result for each hypothesis; the inputs and times are read at the same index.
  unfoldable pub results_from :
      Bool
      → ℕ
      → ℕ
      → List (List ℕ)
      → List f.F
      → List (List ℕ)
      → List (List ℕ)
      → Option (List (Result f))
  results_from finish offset shift [] [] inputs times = some []
  results_from finish offset shift [] (l ∷ likelihood) inputs times = none
  results_from finish offset shift (h ∷ hypotheses) [] inputs times = none
  results_from finish offset shift (h ∷ hypotheses) (l ∷ likelihood) inputs times =
      results_from finish offset shift hypotheses likelihood (drop 1 inputs) (drop 1 times)
      >>= λ later. sentence_of finish h >>= λ sentence.
          pieces_of finish offset shift (get_elem? inputs 0) (get_elem? times 0) >>= λ pieces.
          some (record { score = l; sentence = sentence; word_pieces = pieces } ∷ later)

  unfoldable pub update_result : Bool → AsrDec → Option AsrDec
  update_result finish d = do
    result ←
        results_from finish (d.global_frame_offset * feature_frame_shift_in_ms d)
          (frame_shift_in_ms d) (r.search.outputs d.searcher) (r.search.likelihood d.searcher)
          (r.search.inputs d.searcher) (r.search.times d.searcher)
    some (record d { result = result })

  -- `ctc_log_probs[i][0] + log(blank_scale)`, unless the scale is 1.
  unfoldable pub scale_frames : f.F → List (List f.F) → Option (List (List f.F))
  scale_frames scale [] = some []
  scale_frames scale ([] ∷ frames) = none
  scale_frames scale ((p ∷ frame) ∷ frames) =
      scale_frames scale frames >>= λ later. some ((f.add p (f.log scale) ∷ frame) ∷ later)

  unfoldable pub scale_blank : f.F → List (List f.F) → Option (List (List f.F))
  scale_blank scale frames =
      let scaled = scale_frames scale frames in
      let one = f.of_int (pos 1) in if f.lt scale one || f.lt one scale then scaled else some frames

  -- The endpoint is asked for unless the features have ended.
  unfoldable pub finish_chunk : Bool → List (List f.F) → AsrDec → Option (DecodeState × AsrDec)
  finish_chunk true ctc_log_probs d =
      is_endpoint d.ctc_endpointer ctc_log_probs (decoded_something d.result) >>= λ (e, ends).
      some (if ends then endpoint else end_batch, record d { ctc_endpointer = e; start = true })
  finish_chunk false ctc_log_probs d = some (end_feats, record d { start = true })

  -- A chunk that has been read, with all the frames it asked for or the last ones.
  unfoldable pub decode_chunk :
      Bool → List V → FeaturePipeline Sample V → AsrDec → Option (DecodeState × AsrDec)
  decode_chunk enough chunk_feats pipeline d =
      let (probs, model) = forward_encoder r.forward chunk_feats d.model in
      scale_blank d.opts.blank_scale probs >>= λ ctc_log_probs.
      r.search.search ctc_log_probs d.searcher >>= λ searcher.
      update_result false (record d {
        feature_pipeline = pipeline;
        model = model;
        searcher = searcher;
        num_frames = d.num_frames + length chunk_feats;
      })
      >>= λ d'. finish_chunk enough ctc_log_probs d'

  -- The test for kWaitFeats.
  unfoldable pub waits : Bool → ℕ → FeaturePipeline Sample V → Bool
  waits block num_required_frames pipeline =
      not block
      && not pipeline.input_finished
      && ltb (num_queued_frames pipeline) num_required_frames

  -- `none` if it blocks or fails a check.
  unfoldable pub advance_decoding : Bool → AsrDec → Option (DecodeState × AsrDec)
  advance_decoding block d =
      let model =
        set_num_left_chunks d.opts.num_left_chunks (set_chunk_size d.opts.chunk_size d.model) in
      let num_required_frames = num_frames_for_chunk model d.start in
      let d' : AsrDec = record d { model = model } in
      if waits block num_required_frames d.feature_pipeline
      then some (wait_feats, d')
      else (read num_required_frames d.feature_pipeline
          >>= (λ (enough, chunk_feats, pipeline). decode_chunk enough chunk_feats pipeline d'))

  unfoldable pub reset : AsrDec → AsrDec
  reset d = record d {
    start = false;
    result = [];
    num_frames = 0;
    global_frame_offset = 0;
    model = r.reset_model d.model;
    searcher = r.search.reset d.searcher;
    feature_pipeline = Feature.reset d.feature_pipeline;
    ctc_endpointer = Endpoint.reset d.ctc_endpointer;
  }

  unfoldable pub reset_continuous_decoding : AsrDec → AsrDec
  reset_continuous_decoding d = record d {
    global_frame_offset = d.num_frames;
    start = false;
    result = [];
    model = r.reset_model d.model;
    searcher = r.search.reset d.searcher;
    ctc_endpointer = Endpoint.reset d.ctc_endpointer;
  }
