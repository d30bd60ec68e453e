-- ===== src/Feature/Tests.antt =====
-- A pipeline of windows of three samples that are two apart, whose features are the windows.
use wenet_android.Prelude.{
  ℕ, ◌<◌, ◌≡◌, refl, true, false, some, none, Option, List, [], ◌∷◌, arith, length,
}
use wenet_android.Prelude.Float.{whole}
use wenet_android.Prelude.Int.{pos, ◌+ℤ◌, ◌-ℤ◌}
use wenet_android.Feature.Whisper.{make_fbank, max_of_all, max_of, norm_energy}
use wenet_android.Feature.{
  Fbank, kaldi, whisper, norm_whisper, normalize, FeaturePipelineConfig, FeaturePipeline,
  make_config, count_frames, windows_from, compute, accept_waveform, read, read_one,
}
use wenet_android.Feature.Framing.{IsSane}
use wenet_android.Feature.Chunks.{accept_all, accept_all-concat}
use wenet_android.Feature.Reading.{read_sound}

abbrev config : FeaturePipelineConfig
config = record (make_config 80 8000 kaldi) { frame_length = 3; frame_shift = 2 }

-- Its Whisper normalisation counts the windows of a call.
abbrev same : Fbank ℕ (List ℕ)
same = record { energies = λ w. w; whisper_norm = λ feats feat. length feats ∷ feat }

abbrev fresh : FeaturePipeline ℕ (List ℕ)
fresh = record {
  config = config;
  feature_queue = [];
  num_frames = 0;
  input_finished = false;
  remained_wav = [];
}

abbrev after_six : FeaturePipeline ℕ (List ℕ)
after_six = record {
  config = config;
  feature_queue = (1 ∷ 2 ∷ 3 ∷ []) ∷ (3 ∷ 4 ∷ 5 ∷ []) ∷ [];
  num_frames = 2;
  input_finished = false;
  remained_wav = 5 ∷ 6 ∷ [];
}

six_samples : accept_waveform same (1 ∷ 2 ∷ 3 ∷ 4 ∷ 5 ∷ 6 ∷ []) fresh ≡ some after_six
unfolding accept_waveform compute normalize count_frames windows_from
six_samples = refl

-- The sizes of 8 kHz are sane; below 1 kHz the shift is 0.
sizes : IsSane (make_config 80 8000 kaldi) × ((make_config 80 999 whisper).frame_shift ≡ 0)
sizes = ((omega arith, omega arith), refl)

-- Under the Whisper normalisation the features depend on the call that they come with.
cut_by_calls : Option (FeaturePipeline ℕ (List ℕ)) → List (List ℕ)
cut_by_calls none = []
cut_by_calls (some p) = p.feature_queue

abbrev whispering : FeaturePipeline ℕ (List ℕ)
whispering = record fresh { config = record config { norm_type = norm_whisper } }

in_one_call :
    cut_by_calls (accept_all same ((1 ∷ 2 ∷ 3 ∷ 4 ∷ 5 ∷ []) ∷ []) whispering)
    ≡ (2 ∷ 1 ∷ 2 ∷ 3 ∷ []) ∷ (2 ∷ 3 ∷ 4 ∷ 5 ∷ []) ∷ []
unfolding cut_by_calls accept_all accept_waveform compute normalize count_frames windows_from
in_one_call = refl

in_two_calls :
    cut_by_calls (accept_all same ((1 ∷ 2 ∷ 3 ∷ []) ∷ (4 ∷ 5 ∷ []) ∷ []) whispering)
    ≡ (1 ∷ 1 ∷ 2 ∷ 3 ∷ []) ∷ (1 ∷ 3 ∷ 4 ∷ 5 ∷ []) ∷ []
unfolding cut_by_calls accept_all accept_waveform compute normalize count_frames windows_from
in_two_calls = refl

-- The maximum is 20: an energy below 12 counts as 12. The numbers are not divided.
norm_runs :
    normalize (make_fbank whole {S = ℕ} (pos 0) (λ w. [])) norm_whisper ((pos 20 ∷ pos 3 ∷ []) ∷ [])
    ≡ (pos 24 ∷ pos 16 ∷ []) ∷ []
unfolding normalize make_fbank max_of_all max_of norm_energy ◌+ℤ◌ ◌-ℤ◌
norm_runs = refl

one_feature :
    read_one after_six
    ≡ some (some (1 ∷ 2 ∷ 3 ∷ []), record after_six { feature_queue = (3 ∷ 4 ∷ 5 ∷ []) ∷ [] })
unfolding read_one
one_feature = refl

accept_all-concat_example :
    (q : FeaturePipeline ℕ (List ℕ)) × (accept_all same
        ((1 ∷ 2 ∷ []) ∷ (3 ∷ []) ∷ (4 ∷ 5 ∷ []) ∷ [])
        fresh
      ≡ some q)
    × (accept_waveform same (1 ∷ 2 ∷ 3 ∷ 4 ∷ 5 ∷ []) fresh ≡ some q)
accept_all-concat_example =
    accept_all-concat same (1 ∷ 2 ∷ []) ((3 ∷ []) ∷ (4 ∷ 5 ∷ []) ∷ []) fresh (omega arith) refl

abbrev rest_of_six : FeaturePipeline ℕ (List ℕ)
rest_of_six = record after_six { feature_queue = (3 ∷ 4 ∷ 5 ∷ []) ∷ [] }

read_sound_example :
    ((1 ∷ 2 ∷ 3 ∷ []) ∷ rest_of_six.feature_queue ≡ after_six.feature_queue)
    × (true ≡ true → length {A = List ℕ} ((1 ∷ 2 ∷ 3 ∷ []) ∷ []) ≡ 1)
    × (true ≡ false → (1 < 1) × (false ≡ true) × (rest_of_six.feature_queue ≡ []))
unfolding read
read_sound_example = read_sound 1 after_six rest_of_six true ((1 ∷ 2 ∷ 3 ∷ []) ∷ []) refl
