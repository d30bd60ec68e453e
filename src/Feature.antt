-- ===== src/Feature.antt =====
-- frontend/feature_pipeline.h and feature_pipeline.cc, with the framing of `Fbank::Compute` of
-- frontend/fbank.h. `S` is a sample and `V` the vector of a window. The queue's capacity is that of
-- an `int` and is not reached.
mod Whisper
pub mod Framing
pub mod Chunks
pub mod Reading
mod Tests
use wenet_android.Prelude.{
  ℕ, zero, suc, ◌+◌, ◌-◌, ◌*◌, ◌/◌, Bool, true, false, not, Option, none, some, List, [], ◌∷◌, ◌++◌,
  ltb, leb, ◌==◌, if◌then◌else◌, length, take, drop, map, ◌>>=◌, ◌>>◌, check,
}

pub data FeatureType : Type 0 where
  kaldi : FeatureType
  whisper : FeatureType

pub data LogBase : Type 0 where
  base_e : LogBase
  base_10 : LogBase

pub data WindowType : Type 0 where
  povey : WindowType
  hanning : WindowType

pub data MelType : Type 0 where
  htk : MelType
  slaney : MelType

pub data NormalizationType : Type 0 where
  norm_kaldi : NormalizationType
  norm_whisper : NormalizationType

-- `log_floor` is a fraction: its numerator and its denominator.
pub record FeaturePipelineConfig : Type 0 where
  pub num_bins : ℕ
  pub sample_rate : ℕ
  pub frame_length : ℕ
  pub frame_shift : ℕ
  pub low_freq : ℕ
  pub pre_emphasis : Bool
  pub scale_input_to_unit : Bool
  pub log_floor : ℕ × ℕ
  pub log_base : LogBase
  pub window_type : WindowType
  pub mel_type : MelType
  pub norm_type : NormalizationType

-- The frame sizes of the constructor: 25 ms and 10 ms. The epsilon of a float is 2^-23.
abbrev pub make_config : ℕ → ℕ → FeatureType → FeaturePipelineConfig
make_config num_bins sample_rate kaldi = record {
  num_bins = num_bins;
  sample_rate = sample_rate;
  frame_length = sample_rate / 1000 * 25;
  frame_shift = sample_rate / 1000 * 10;
  low_freq = 20;
  pre_emphasis = true;
  scale_input_to_unit = false;
  log_floor = (1, 8_388_608);
  log_base = base_e;
  window_type = povey;
  mel_type = htk;
  norm_type = norm_kaldi;
}
make_config num_bins sample_rate whisper = record {
  num_bins = num_bins;
  sample_rate = sample_rate;
  frame_length = sample_rate / 1000 * 25;
  frame_shift = sample_rate / 1000 * 10;
  low_freq = 0;
  pre_emphasis = false;
  scale_input_to_unit = true;
  log_floor = (1, 10_000_000_000);
  log_base = base_10;
  window_type = hanning;
  mel_type = slaney;
  norm_type = norm_whisper;
}

-- What an `Fbank` computes: the mel energies of a window, without dither; and what `WhisperNorm`
-- makes of those of one window among those of all windows of a call.
pub record Fbank (S V : Type 0) : Type 0 where
  pub energies : List S → V
  pub whisper_norm : List V → V → V

pub record FeaturePipeline (S V : Type 0) : Type 0 where
  pub config : FeaturePipelineConfig
  pub feature_queue : List V
  pub num_frames : ℕ
  pub input_finished : Bool
  pub remained_wav : List S

unfoldable pub make_pipeline : {S V : Type 0} → FeaturePipelineConfig → FeaturePipeline S V
make_pipeline config = record {
  config = config;
  feature_queue = [];
  num_frames = 0;
  input_finished = false;
  remained_wav = [];
}

-- `num_frames` of `Fbank::Compute`; the division by a `frame_shift_` of 0 is a fault.
unfoldable pub count_frames : FeaturePipelineConfig → ℕ → Option ℕ
count_frames c num_samples =
    if ltb num_samples c.frame_length
    then some 0
    else if c.frame_shift == 0
    then none
    else some (1 + (num_samples - c.frame_length) / c.frame_shift)

module _ {S : Type 0} where
  -- The loop over the frames from `i` on: the window of each.
  unfoldable pub windows_from : FeaturePipelineConfig → ℕ → ℕ → List S → List (List S)
  windows_from c i zero wave = []
  windows_from c i (suc n) wave =
      take c.frame_length (drop (i * c.frame_shift) wave) ∷ windows_from c (i + 1) n wave

module _ {S V : Type 0} (fbank : Fbank S V) where
  unfoldable pub normalize : NormalizationType → List V → List V
  normalize norm_kaldi feats = feats
  normalize norm_whisper feats = map (fbank.whisper_norm feats) feats

  -- `Fbank::Compute`.
  unfoldable pub compute : FeaturePipelineConfig → List S → Option (ℕ × List V)
  compute c wave = do
    num_frames ← count_frames c (length wave)
    some (num_frames, normalize c.norm_type (map fbank.energies (windows_from c 0 num_frames wave)))

  -- `resize` of a negative number of samples throws.
  unfoldable pub accept_waveform : List S → FeaturePipeline S V → Option (FeaturePipeline S V)
  accept_waveform pcm p = do
    let waves = p.remained_wav ++ pcm
    (num_frames, feats) ← compute p.config waves
    check (leb (p.config.frame_shift * num_frames) (length waves))
    some (record p {
      feature_queue = p.feature_queue ++ feats;
      num_frames = p.num_frames + num_frames;
      remained_wav = drop (p.config.frame_shift * num_frames) waves;
    })

module _ {S V : Type 0} where
  unfoldable pub set_input_finished : FeaturePipeline S V → Option (FeaturePipeline S V)
  set_input_finished p = do check (not p.input_finished); some (record p { input_finished = true })

  unfoldable pub num_queued_frames : FeaturePipeline S V → ℕ
  num_queued_frames p = length p.feature_queue

  unfoldable pub is_last_frame : ℕ → FeaturePipeline S V → Bool
  is_last_frame frame p = if p.input_finished then frame + 1 == p.num_frames else false

  -- `Read` as far as its next wait, which is `none`: the features, and whether they are as many as
  -- asked for.
  unfoldable pub read : ℕ → FeaturePipeline S V → Option (Bool × List V × FeaturePipeline S V)
  read num_frames p =
      if leb num_frames (length p.feature_queue)
      then some (
        true,
        take num_frames p.feature_queue,
        record p { feature_queue = drop num_frames p.feature_queue },
      )
      else if p.input_finished
      then some (false, p.feature_queue, record p { feature_queue = [] })
      else none

  unfoldable pub read_one : FeaturePipeline S V → Option (Option V × FeaturePipeline S V)
  read_one p = elim p.feature_queue [
    | feat ∷ rest ↦ some (some feat, record p { feature_queue = rest })
    | [] ↦ if p.input_finished then some (none, p) else none
  ]

  unfoldable pub reset : FeaturePipeline S V → FeaturePipeline S V
  reset p = record p {
    input_finished = false;
    num_frames = 0;
    remained_wav = [];
    feature_queue = [];
  }
