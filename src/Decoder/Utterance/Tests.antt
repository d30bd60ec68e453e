-- ===== src/Decoder/Utterance/Tests.antt =====
-- An utterance of two chunks.
use wenet_android.Prelude.{ℕ, ◌+◌, ◌≡◌, refl, true, false, Option, none, some, [], ◌∷◌}
use wenet_android.Prelude.Int.{ℤ, pos, negsuc, ◌+ℤ◌, ◌-ℤ◌}
use wenet_android.Prelude.Float.{whole}
use wenet_android.Text.Utf8.{Bytes}
use wenet_android.TopK.{top_k, heap_data, replace_loop, fill, push, value_comp, log_add}
use wenet_android.PrefixScore.{
  blank_case, repeat_case, repeat_times, double_case, other_case, grow, keep_context, grow_context,
  update_context, copy_context, set_back, score, viterbi_score, times, total_score,
}
use wenet_android.PrefixBeam.{
  Hyps, CtcPrefixBeamSearch, reset, search, finalize_search, search_frames, search_frame,
  pass_tokens, pass_all, pass, update, ends_with, sort, insert, prefix_score_compare,
  update_hypotheses, assign_all, assign,
}
use wenet_android.PrefixBeam.Reached.{IsWalk}
use wenet_android.Feature as Feature
use wenet_android.Feature.{make_config, kaldi, FeaturePipeline, num_queued_frames, read}
use wenet_android.Endpoint as Endpoint
use wenet_android.Endpoint.{default_rule1, default_rule2, default_rule3}
use wenet_android.Model.{
  num_frames_for_chunk, forward_encoder, set_chunk_size, set_num_left_chunks, cache_feature,
}
use wenet_android.Bridge.{DecodeState, end_feats}
use wenet_android.Decoder.{pieces_from, spell_words, start_of, end_of}
use wenet_android.Decoder.Advance.{
  AsrDecoder, AsrDec, Resource, advance_decoding, waits, decode_chunk, finish_chunk, scale_blank,
  scale_frames, update_result, results_from, sentence_of, pieces_of,
}
use wenet_android.Decoder.Advance as Advance
use wenet_android.Decoder.Rescoring.{attention_rescoring, combine_scores, combine}
use wenet_android.Decoder.Ordered.{AreOrderly}
use wenet_android.Decoder.Utterance.{with_beam, begun, heard, decoded, utterance_orderly}

abbrev in_order : Hyps whole → Hyps whole
in_order hyps = hyps

in_order-IsWalk : IsWalk in_order
in_order-IsWalk = record {
  meets = λ P hyps h. h;
  keeps_apart = λ hyps h. h;
  keeps_length = λ hyps. refl;
}

abbrev Beam : Type 0
Beam = CtcPrefixBeamSearch whole

abbrev letter : ℕ → Bytes
letter id = (96 + id) ∷ []

-- Every frame says the unit 1.
abbrev resource : Resource whole ℤ ℕ ℕ Beam
resource = record {
  search = record {
    search = λ logp st. some st;
    finalize_search = λ st. some st;
    reset = λ st. st;
    inputs = λ st. [];
    outputs = λ st. [];
    likelihood = λ st. [];
    times = λ st. [];
    is_wfst = false;
  };
  forward = λ feats e. ((negsuc 9 ∷ negsuc 0 ∷ negsuc 4 ∷ []) ∷ [], e);
  reset_model = λ m. m;
  attention_rescoring = λ hyps w e. [];
  find_symbol = letter;
  find_unit = some letter;
  post_process = none;
}

abbrev BeamDecoder : Type 0
BeamDecoder = AsrDec (with_beam in_order resource)

abbrev pipeline : FeaturePipeline ℤ ℕ
pipeline = record {
  config = make_config 80 8000 kaldi;
  feature_queue = 5 ∷ [];
  num_frames = 1;
  input_finished = true;
  remained_wav = [];
}

abbrev decoder : BeamDecoder
decoder = record {
  opts = record {
    chunk_size = pos 2;
    num_left_chunks = negsuc 0;
    ctc_weight = pos 1;
    rescoring_weight = pos 0;
    reverse_weight = pos 0;
    blank_scale = pos 1;
  };
  feature_pipeline = pipeline;
  model = record {
    right_context = 0;
    subsampling_rate = 1;
    chunk_size = pos 2;
    num_left_chunks = negsuc 0;
    cached_feature = [];
    encoder = 0;
  };
  searcher = record {
    opts = record { blank = 0; first_beam_size = 2; second_beam_size = 2 };
    context_graph = none;
    abs_time_step = 0;
    hypotheses = [];
    likelihood = [];
    viterbi_likelihood = [];
    times_of = [];
    outputs = [];
    cur_hyps = [];
  };
  ctc_endpointer = record {
    config = record {
      blank = 0;
      blank_scale = pos 1;
      blank_threshold = pos 5;
      rule1 = default_rule1;
      rule2 = default_rule2;
      rule3 = default_rule3;
    };
    frame_shift_in_ms = pos 40;
    num_frames_decoded = 0;
    num_frames_trailing_blank = 0;
  };
  start = false;
  num_frames = 0;
  global_frame_offset = 0;
  result = [];
}

abbrev beam : Resource whole ℤ ℕ ℕ Beam
beam = with_beam in_order resource

abbrev begun_decoder : BeamDecoder
begun_decoder = record (Advance.reset beam decoder) { feature_pipeline = pipeline }

abbrev or_decoder : Option (DecodeState × BeamDecoder) → BeamDecoder
or_decoder none = decoder
or_decoder (some (state, d)) = d

abbrev advanced : BeamDecoder
advanced = or_decoder (advance_decoding beam false begun_decoder)

abbrev or_same : Option BeamDecoder → BeamDecoder
or_same none = decoder
or_same (some d) = d

abbrev rescored : BeamDecoder
rescored = or_same (attention_rescoring beam advanced)

advance_run : advance_decoding beam false begun_decoder ≡ some (end_feats, advanced)
unfolding Advance.reset Feature.reset Endpoint.reset reset advance_decoding waits num_queued_frames
    read decode_chunk finish_chunk scale_blank scale_frames forward_encoder cache_feature
    update_result results_from sentence_of pieces_of spell_words num_frames_for_chunk set_chunk_size
    set_num_left_chunks attention_rescoring combine_scores combine pieces_from search search_frames
    search_frame top_k heap_data replace_loop fill push value_comp pass_tokens pass_all pass update
    ends_with blank_case repeat_case repeat_times double_case other_case grow keep_context
    grow_context update_context copy_context set_back score viterbi_score times total_score log_add
    sort insert prefix_score_compare update_hypotheses assign_all assign finalize_search start_of
    end_of ◌+ℤ◌ ◌-ℤ◌
advance_run = refl

rescoring_run : attention_rescoring beam advanced ≡ some rescored
unfolding Advance.reset Feature.reset Endpoint.reset reset advance_decoding waits num_queued_frames
    read decode_chunk finish_chunk scale_blank scale_frames forward_encoder cache_feature
    update_result results_from sentence_of pieces_of spell_words num_frames_for_chunk set_chunk_size
    set_num_left_chunks attention_rescoring combine_scores combine pieces_from search search_frames
    search_frame top_k heap_data replace_loop fill push value_comp pass_tokens pass_all pass update
    ends_with blank_case repeat_case repeat_times double_case other_case grow keep_context
    grow_context update_context copy_context set_back score viterbi_score times total_score log_add
    sort insert prefix_score_compare update_hypotheses assign_all assign finalize_search start_of
    end_of ◌+ℤ◌ ◌-ℤ◌
rescoring_run = refl

utterance_orderly_example : AreOrderly rescored.result
utterance_orderly_example =
    utterance_orderly in_order resource in_order-IsWalk advanced rescored
      (decoded false end_feats (heard pipeline (begun decoder)) advance_run) rescoring_run
