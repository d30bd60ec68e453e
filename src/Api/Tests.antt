-- ===== src/Api/Tests.antt =====
-- A recognizer around a search of one hypothesis.
use wenet_android.Prelude.{
  ℕ, suc, ◌+◌, ◌≡◌, refl, true, false, Bool, Option, none, some, [], ◌∷◌, arith, length,
}
use wenet_android.Prelude.Int.{pos, negsuc}
use wenet_android.Prelude.Float.{whole}
use wenet_android.Text.Utf8.{Bytes}
use wenet_android.Wav.{signed, of_le}
use wenet_android.Feature.{
  make_config, kaldi, normalize, num_queued_frames, read, accept_waveform, set_input_finished,
  compute, count_frames, windows_from,
}
use wenet_android.Endpoint.{default_rule1, default_rule2, default_rule3, set_frame_shift_in_ms}
use wenet_android.Model.{num_frames_for_chunk, forward_encoder, set_chunk_size, set_num_left_chunks}
use wenet_android.Decoder.{Search, pieces_from, spell_words}
use wenet_android.Decoder.Advance.{
  Resource, advance_decoding, waits, decode_chunk, finish_chunk, scale_blank, frame_shift_in_ms,
  scale_frames, results_from, sentence_of, pieces_of,
}
use wenet_android.Decoder.Advance as Advance
use wenet_android.Decoder.Rescoring.{attention_rescoring, combine_scores, combine, sort, insert}
use wenet_android.Api.{
  Setup, Recognizer, Output, Call, returns, decode, decoder_of, init_decoder, new_decoder, accept,
  fed, pcm16, decode_loop, decode_round, conclude, update_result, entry_of, piece_of, fails,
  out_of_fuel,
}
use wenet_android.Api.Bounds.{Tells, decode-Tells}

abbrev one_path : Search whole ℕ
one_path = record {
  search = λ logp n. some (suc n);
  finalize_search = λ n. some n;
  reset = λ n. 0;
  inputs = λ n. (1 ∷ 2 ∷ []) ∷ [];
  outputs = λ n. (1 ∷ 2 ∷ []) ∷ [];
  likelihood = λ n. negsuc 4 ∷ [];
  times = λ n. (3 ∷ 4 ∷ []) ∷ [];
  is_wfst = false;
}

abbrev letter : ℕ → Bytes
letter id = (96 + id) ∷ []

abbrev setup : Setup whole ℕ ℕ ℕ ℕ
setup = record {
  resource = record {
    search = one_path;
    forward = λ feats e. ([], e);
    reset_model = λ m. m;
    attention_rescoring = λ hyps w e. negsuc 1 ∷ [];
    find_symbol = letter;
    find_unit = some letter;
    post_process = none;
  };
  fbank = record { energies = λ window. length window; whisper_norm = λ feats feat. feat };
  build_graph = λ score words. 0;
  new_search = λ graph. 0;
  model = record {
    right_context = 6;
    subsampling_rate = 4;
    chunk_size = pos 16;
    num_left_chunks = negsuc 0;
    cached_feature = [];
    encoder = 0;
  };
  is_bidirectional = false;
  options = record {
    chunk_size = pos 16;
    num_left_chunks = negsuc 0;
    ctc_weight = pos 1;
    rescoring_weight = pos 2;
    reverse_weight = pos 0;
    blank_scale = pos 1;
  };
  endpoint_config = record {
    blank = 0;
    blank_scale = pos 1;
    blank_threshold = pos 5;
    rule1 = default_rule1;
    rule2 = default_rule2;
    rule3 = default_rule3;
  };
}

-- Windows of four samples, two apart.
abbrev recognizer : Recognizer setup.resource
recognizer = record {
  feature_pipeline = record {
    config = record (make_config 80 100 kaldi) { frame_length = 4; frame_shift = 2 };
    feature_queue = [];
    num_frames = 0;
    input_finished = false;
    remained_wav = [];
  };
  decoder = none;
  nbest = pos 3;
  enable_timestamp = true;
  context = [];
  context_score = pos 3;
  language = [];
  continuous_decoding = false;
  chunk_size = pos 2;
}

abbrev eight_bytes : Bytes
eight_bytes = 1 ∷ 0 ∷ 2 ∷ 0 ∷ 255 ∷ 255 ∷ 0 ∷ 128 ∷ []

abbrev output_of : Call (Output whole × Recognizer setup.resource) → Option (Bool × ℕ)
output_of (returns (out, rec)) = some (out.final_result, length out.nbest)
output_of fails = none
output_of out_of_fuel = none

samples_of : pcm16 eight_bytes ≡ pos 1 ∷ pos 2 ∷ negsuc 0 ∷ negsuc 32_767 ∷ []
unfolding pcm16 signed of_le
samples_of = refl

last_call : output_of (decode setup eight_bytes (pos 1) recognizer) ≡ some (true, 1)
unfolding decode sort insert decoder_of init_decoder new_decoder accept fed pcm16 decode_loop
    decode_round conclude update_result entry_of piece_of advance_decoding waits num_queued_frames
    read decode_chunk finish_chunk scale_blank scale_frames forward_encoder results_from sentence_of
    pieces_of spell_words num_frames_for_chunk set_chunk_size set_num_left_chunks accept_waveform
    set_input_finished compute normalize count_frames windows_from attention_rescoring
    combine_scores combine pieces_from frame_shift_in_ms set_frame_shift_in_ms signed of_le
    Advance.update_result
last_call = refl

decode-Tells_example :
    Tells setup eight_bytes (pos 1) recognizer (decode setup eight_bytes (pos 1) recognizer)
decode-Tells_example = decode-Tells setup eight_bytes (pos 1) recognizer (omega arith, λ d e. cc)
