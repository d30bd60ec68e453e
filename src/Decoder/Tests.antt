-- ===== src/Decoder/Tests.antt =====
-- A decoder around a search of one hypothesis, and the theorems at it.
use wenet_android.Prelude.{ℕ, suc, ◌+◌, ◌≡◌, refl, true, false, Option, none, some, [], ◌∷◌}
use wenet_android.Prelude.Int.{ℤ, pos, negsuc}
use wenet_android.Prelude.Float.{whole}
use wenet_android.Text.Utf8.{Bytes}
use wenet_android.Feature.{make_config, kaldi, num_queued_frames, read}
use wenet_android.Endpoint.{default_rule1, default_rule2, default_rule3}
use wenet_android.Model.{num_frames_for_chunk, forward_encoder, set_chunk_size, set_num_left_chunks}
use wenet_android.Bridge.{DecodeState, end_feats}
use wenet_android.Decoder.{Search, pieces_from, spell_words}
use wenet_android.Decoder.Advance.{
  AsrDecoder, Resource, advance_decoding, waits, decode_chunk, finish_chunk, scale_blank,
  scale_frames, update_result, results_from, sentence_of, pieces_of,
}
use wenet_android.Decoder.Rescoring.{attention_rescoring, combine_scores, combine}
use wenet_android.Decoder.Took.{Accounts, advance-Accounts}
use wenet_android.Decoder.States.{Says}

-- Two units at the times 3 and 4; the state counts the searches.
abbrev one_path : Search whole ℕ
one_path = record {
  search = λ logp n. some (suc n);
  finalize_search = λ n. some n;
  reset = λ n. 0;
  inputs = λ n. (1 ∷ 2 ∷ []) ∷ [];
  outputs = λ n. (1 ∷ 2 ∷ []) ∷ [];
  likelihood = λ n. negsuc 4 ∷ [];
  times = λ n. (3 ∷ 4 ∷ []) ∷ [];
  is_wfst = false;
}

abbrev letter : ℕ → Bytes
letter id = (96 + id) ∷ []

abbrev resource : Resource whole ℤ ℕ ℕ ℕ
resource = record {
  search = one_path;
  forward = λ feats e. ([], e);
  reset_model = λ m. m;
  attention_rescoring = λ hyps w e. negsuc 1 ∷ [];
  find_symbol = letter;
  find_unit = some letter;
  post_process = none;
}

-- One frame is left, and the input has ended.
abbrev decoder : AsrDecoder whole ℤ ℕ ℕ ℕ
decoder = record {
  opts = record {
    chunk_size = pos 2;
    num_left_chunks = negsuc 0;
    ctc_weight = pos 1;
    rescoring_weight = pos 2;
    reverse_weight = pos 0;
    blank_scale = pos 1;
  };
  feature_pipeline = record {
    config = make_config 80 8000 kaldi;
    feature_queue = 5 ∷ [];
    num_frames = 1;
    input_finished = true;
    remained_wav = [];
  };
  model = record {
    right_context = 6;
    subsampling_rate = 4;
    chunk_size = pos 16;
    num_left_chunks = negsuc 0;
    cached_feature = [];
    encoder = 0;
  };
  searcher = 0;
  ctc_endpointer = record {
    config = record {
      blank = 0;
      blank_scale = pos 1;
      blank_threshold = pos 5;
      rule1 = default_rule1;
      rule2 = default_rule2;
      rule3 = default_rule3;
    };
    frame_shift_in_ms = pos 40;
    num_frames_decoded = 0;
    num_frames_trailing_blank = 0;
  };
  start = false;
  num_frames = 0;
  global_frame_offset = 0;
  result = [];
}

abbrev or_decoder : Option (DecodeState × AsrDecoder whole ℤ ℕ ℕ ℕ) → AsrDecoder whole ℤ ℕ ℕ ℕ
or_decoder none = decoder
or_decoder (some (state, d)) = d

abbrev advanced : AsrDecoder whole ℤ ℕ ℕ ℕ
advanced = or_decoder (advance_decoding resource true decoder)

advance_run : advance_decoding resource true decoder ≡ some (end_feats, advanced)
unfolding advance_decoding waits num_queued_frames read decode_chunk finish_chunk scale_blank
    scale_frames forward_encoder update_result results_from sentence_of pieces_of spell_words
    num_frames_for_chunk set_chunk_size set_num_left_chunks
advance_run = refl

advance-Accounts_example :
    Says resource end_feats true decoder advanced × Accounts resource end_feats decoder advanced
advance-Accounts_example = advance-Accounts resource true decoder advanced end_feats advance_run

abbrev or_same : Option (AsrDecoder whole ℤ ℕ ℕ ℕ) → AsrDecoder whole ℤ ℕ ℕ ℕ
or_same none = decoder
or_same (some d) = d

abbrev rescored : AsrDecoder whole ℤ ℕ ℕ ℕ
rescored = or_same (attention_rescoring resource decoder)

rescoring_run : attention_rescoring resource decoder ≡ some rescored
unfolding attention_rescoring combine_scores combine update_result results_from sentence_of
    pieces_of pieces_from spell_words
rescoring_run = refl
