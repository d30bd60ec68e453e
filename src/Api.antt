-- ===== src/Api.antt =====
-- wenet/runtime/core/api/wenet_api.cc: `Recognizer`, around the decoder of `Decoder`. The results
-- are those that the JSON library is given to print. The context graph and the
-- search are built by functions of `Setup`, which also holds what the constructor has read.
pub mod Loop
mod Bounds
mod Tests
use wenet_android.Prelude.{
  ℕ, zero, suc, ◌+◌, ◌*◌, ◌/◌, ◌%◌, Bool, true, false, not, ◌&&◌, ◌||◌, Option, none, some, List,
  [], ◌∷◌, ◌++◌, arith, ltb, ◌==◌, if◌then◌else◌, length, take, map, ◌>>=◌, ◌>>◌, check,
}
use wenet_android.Prelude.Int.{ℤ, pos, negsuc, pos_part, ltb_ℤ}
use wenet_android.Prelude.Float.{Float}
use wenet_android.Text.Utf8.{Bytes}
use wenet_android.Wav.{signed, of_le}
use wenet_android.Feature.{Fbank, FeaturePipeline, accept_waveform, set_input_finished}
use wenet_android.Feature as Feature
use wenet_android.Endpoint.{CtcEndpoint, set_frame_shift_in_ms}
use wenet_android.Endpoint as Endpoint
use wenet_android.Model.{AsrModel}
use wenet_android.Bridge.{DecodeState, end_batch, endpoint, end_feats, wait_feats, WordPiece}
use wenet_android.Decoder.{Result}
use wenet_android.Decoder.Advance.{
  Resource, DecodeOptions, AsrDecoder, AsrDec, advance_decoding, reset_continuous_decoding,
  frame_shift_in_ms,
}
use wenet_android.Decoder.Advance as Advance
use wenet_android.Decoder.Rescoring.{attention_rescoring}

-- A word piece in a result, its times in seconds.
pub record Piece (f : Float) : Type 0 where
  pub word : Bytes
  pub start : f.F
  pub end : f.F

pub record Entry (f : Float) : Type 0 where
  pub sentence : Bytes
  pub word_pieces : Option (List (Piece f))

-- The object that `UpdateResult` dumps.
pub record Output (f : Float) : Type 0 where
  pub final_result : Bool
  pub nbest : List (Entry f)

-- A call that has returned, that has failed a check, or whose loop has used up its fuel.
pub data Call (R : Type 0) : Type 0 where
  returns : R → Call R
  fails : Call R
  out_of_fuel : Call R

module _ {f : Float} {V E S : Type 0} (r : Resource f ℤ V E S) where
  pub record Recognizer : Type 0 where
    pub feature_pipeline : FeaturePipeline ℤ V  -- until there is a decoder, which shares it
    pub decoder : Option (AsrDec r)
    pub nbest : ℤ
    pub enable_timestamp : Bool
    pub context : List Bytes
    pub context_score : f.F
    pub language : Bytes
    pub continuous_decoding : Bool
    pub chunk_size : ℤ

  unfoldable pub set_nbest : ℤ → Recognizer → Recognizer
  set_nbest n rec = record rec { nbest = n }

  unfoldable pub set_enable_timestamp : Bool → Recognizer → Recognizer
  set_enable_timestamp flag rec = record rec { enable_timestamp = flag }

  unfoldable pub add_context : Bytes → Recognizer → Recognizer
  add_context word rec = record rec { context = rec.context ++ word ∷ [] }

  unfoldable pub set_context_score : f.F → Recognizer → Recognizer
  set_context_score score rec = record rec { context_score = score }

  unfoldable pub set_language : Bytes → Recognizer → Recognizer
  set_language lang rec = record rec { language = lang }

  unfoldable pub set_continuous_decoding : Bool → Recognizer → Recognizer
  set_continuous_decoding flag rec = record rec { continuous_decoding = flag }

  unfoldable pub set_chunk_size : ℤ → Recognizer → Recognizer
  set_chunk_size n rec = record rec { chunk_size = n }

  unfoldable pub reset : Recognizer → Recognizer
  reset rec = elim rec.decoder [
    | none ↦ record rec { feature_pipeline = Feature.reset rec.feature_pipeline }
    | some d ↦ record rec { decoder = some (Advance.reset r d) }
  ]

  unfoldable pub piece_of : WordPiece → Piece f
  piece_of p = record {
    word = p.word;
    start = f.div (f.of_int p.start) (f.of_int (pos 1000));
    end = f.div (f.of_int p.end) (f.of_int (pos 1000));
  }

  unfoldable pub entry_of : Bool → Result f → Entry f
  entry_of with_pieces path = record {
    sentence = path.sentence;
    word_pieces = if with_pieces then some (map piece_of path.word_pieces) else none;
  }

  unfoldable pub update_result : Bool → Recognizer → AsrDec r → Output f
  update_result final_result rec d = record {
    final_result = final_result;
    nbest =
        map (entry_of (final_result && rec.enable_timestamp))
          (take (if final_result then pos_part rec.nbest else 1) d.result);
  }

  -- The result of a call, and the decoder behind it.
  abbrev pub Decoded : Type 0
  Decoded = Output f × AsrDec r

  -- `Rescoring` and the final result; `next` is what is done to the decoder afterwards.
  unfoldable pub conclude : Recognizer → (AsrDec r → AsrDec r) → AsrDec r → Call Decoded
  conclude rec next d = elim (attention_rescoring r d) [
    | none ↦ fails
    | some d' ↦ returns (update_result true rec d', next d')
  ]

  -- What a round of the loop does in each state. A result that a later round replaces is not kept.
  unfoldable pub decode_round : Recognizer → DecodeState → AsrDec r → Call Decoded → Call Decoded
  decode_round rec wait_feats d later = returns (update_result false rec d, d)
  decode_round rec end_feats d later = conclude rec (λ d'. d') d
  decode_round rec endpoint d later =
      if rec.continuous_decoding then conclude rec (reset_continuous_decoding r) d else later
  decode_round rec end_batch d later = later

  unfoldable pub decode_loop : ℕ → Recognizer → AsrDec r → Call Decoded
  decode_loop zero rec d = out_of_fuel
  decode_loop (suc fuel) rec d = elim (advance_decoding r false d) [
    | none ↦ fails
    | some (state, d') ↦ decode_round rec state d' (decode_loop fuel rec d')
  ]

-- `reinterpret_cast<const int16_t*>`, of an even number of bytes.
unfoldable pub pcm16 : Bytes → List ℤ
pcm16 [] = []
pcm16 (a ∷ []) = []
pcm16 (a ∷ b ∷ bytes) = signed 65_536 (of_le (a ∷ b ∷ [])) ∷ pcm16 bytes

-- What the constructor has read or been given, and what `InitDecoder` builds with.
pub record Setup (f : Float) (V E S G : Type 0) : Type 0 where
  pub resource : Resource f ℤ V E S
  pub fbank : Fbank ℤ V
  pub build_graph : f.F → List Bytes → G
  pub new_search : Option G → S
  pub model : AsrModel V E
  pub is_bidirectional : Bool
  pub options : DecodeOptions f
  pub endpoint_config : Endpoint.Config f

module _ {f : Float} {V E S G : Type 0} (s : Setup f V E S G) where
  -- The constructor of `AsrDecoder`.
  unfoldable pub new_decoder :
      FeaturePipeline ℤ V → S → DecodeOptions f → Option (AsrDec s.resource)
  new_decoder pipeline searcher opts =
      let d : AsrDec s.resource = record {
        opts = opts;
        feature_pipeline = pipeline;
        model = s.model;
        searcher = searcher;
        ctc_endpointer = record {
          config = s.endpoint_config;
          frame_shift_in_ms = negsuc 0;
          num_frames_decoded = 0;
          num_frames_trailing_blank = 0;
        };
        start = false;
        num_frames = 0;
        global_frame_offset = 0;
        result = [];
      } in
      check (not (f.lt (f.of_int (pos 0)) opts.reverse_weight) || s.is_bidirectional)
      >> some (record d {
        ctc_endpointer =
            set_frame_shift_in_ms (pos (frame_shift_in_ms s.resource d)) d.ctc_endpointer;
      })

  unfoldable pub init_decoder : Recognizer s.resource → Option (AsrDec s.resource)
  init_decoder rec =
      let graph =
        if length rec.context == 0
        then none
        else some (s.build_graph rec.context_score rec.context) in
      new_decoder rec.feature_pipeline (s.new_search graph)
        (record s.options { chunk_size = rec.chunk_size })

  -- The decoder of a call: the one that there is, or a new one.
  unfoldable pub decoder_of : Recognizer s.resource → Option (AsrDec s.resource)
  decoder_of rec = elim rec.decoder [ none ↦ init_decoder rec | some d ↦ some d ]

  -- The samples of a call are given to the pipeline, and its end if it is the last one.
  unfoldable pub accept : Bytes → ℤ → FeaturePipeline ℤ V → Option (FeaturePipeline ℤ V)
  accept bytes last p = do
    check (length bytes % 2 == 0)
    p' ← accept_waveform s.fbank (pcm16 bytes) p
    if ltb_ℤ (pos 0) last then set_input_finished p' else some p'

  unfoldable pub fed : Bytes → ℤ → AsrDec s.resource → Option (AsrDec s.resource)
  fed bytes last d =
      accept bytes last d.feature_pipeline >>= λ p. some (record d { feature_pipeline = p })

  -- The loop has one round for each queued frame and one more.
  unfoldable pub decode :
      Bytes → ℤ → Recognizer s.resource → Call (Output f × Recognizer s.resource)
  decode bytes last rec = elim (decoder_of rec >>= fed bytes last) [
    | none ↦ fails
    | some d ↦ elim (decode_loop s.resource (length d.feature_pipeline.feature_queue + 1) rec d) [
      | returns (out, d') ↦ returns (out, record rec { decoder = some d' })
      | fails ↦ fails
      | out_of_fuel ↦ out_of_fuel
    ]
  ]
