-- ===== src/Feature/Chunks.antt =====
-- The features do not depend on how the caller cuts the wave into calls.
use mathlib.Core.List.{map-append}
use native.Mathlib.Nat.{add_assoc}
use native.Mathlib.Decide.{dec_le}
use wenet_android.Prelude.{
  ℕ, zero, suc, ◌+◌, ◌≤◌, ◌≡◌, refl, ap, ◌∙◌, sym, Option, some, List, [], ◌∷◌, ◌++◌, arith, length,
  take, drop, map, append_assoc, append-nil, ◌>>=◌, length-append, length-drop, take-append_le,
  drop-append_le, concat,
}
use wenet_android.Feature.{
  Fbank, norm_kaldi, normalize, FeaturePipelineConfig, FeaturePipeline, windows_from, compute,
  accept_waveform,
}
use wenet_android.Feature.Framing.{
  IsSane, frames, count_frames-frames, cut, left, cut_few, cut_many, windows-cut, left-drop,
}

module _ {S : Type 0} where
  -- More fuel than the wave is long changes nothing.
  cut_more :
      (k : ℕ) (c : FeaturePipelineConfig) (wave : List S)
      → IsSane c
      → length wave ≤ k
      → (cut (suc k) c wave ≡ cut k c wave) × (left (suc k) c wave ≡ left k c wave)
  cut_more zero c wave (pos, le) h =
      let (a, b) = cut_few 1 c wave (omega arith) in
      let (a', b') = cut_few 0 c wave (omega arith) in (a ∙ sym a', b ∙ sym b')
  cut_more (suc k) c wave (pos, le) h = elim (dec_le c.frame_length (length wave)) [
    | yes many ↦
        let (a, b) = cut_many (suc k) c wave many in
        let (a', b') = cut_many k c wave many in
        let (ih, ih') =
          cut_more k c (drop c.frame_shift wave) (pos, le)
            (omega (arith, length-drop c.frame_shift wave)) in
        (a ∙ ap (λ t. take c.frame_length wave ∷ t) ih ∙ sym a', b ∙ ih' ∙ sym b')
    | no few ↦
        let (a, b) = cut_few (suc (suc k)) c wave (omega arith) in
        let (a', b') = cut_few (suc k) c wave (omega arith) in (a ∙ sym a', b ∙ sym b')
  ]

  length-left :
      (k : ℕ) (c : FeaturePipelineConfig) (wave : List S) → length (left k c wave) ≤ length wave
  unfolding left
  length-left zero c wave = omega arith
  length-left (suc k) c wave =
      ground (arith, length-left k c (drop c.frame_shift wave), length-drop c.frame_shift wave)

  cut-append :
      (k : ℕ) (c : FeaturePipelineConfig) (xs ys : List S)
      → IsSane c
      → length (xs ++ ys) ≤ k
      → (cut k c (xs ++ ys) ≡ cut k c xs ++ cut k c (left k c xs ++ ys))
        × (left k c (xs ++ ys) ≡ left k c (left k c xs ++ ys))
  cut-append zero c xs ys (pos, le) h =
      let (a, b) = cut_few 0 c xs (omega (arith, length-append xs ys)) in rw (a, b) (refl, refl)
  cut-append (suc k) c xs ys (pos, le) h = elim (dec_le c.frame_length (length xs)) [
    | yes many ↦
        let rest = drop c.frame_shift xs in
        let (a, b) = cut_many k c (xs ++ ys) (omega (arith, length-append xs ys)) in
        let (a', b') = cut_many k c xs many in
        let first = take-append_le c.frame_length xs ys many in
        let later = drop-append_le c.frame_shift xs ys (omega arith) in
        let size = length-drop c.frame_shift xs in
        let (ih, ih') =
          cut-append k c rest ys (pos, le)
            (omega (arith, length-append xs ys, length-append rest ys, size)) in
        let (more, more') =
          cut_more k c (left k c rest ++ ys) (pos, le)
            (omega (
              arith,
              length-append xs ys,
              length-append (left k c rest) ys,
              length-left k c rest,
              size,
            )) in
        (
          a ∙ rw (first, later, a', b', more) (ap (λ t. take c.frame_length xs ∷ t) ih),
          b ∙ rw (later, b', more') ih',
        )
    | no few ↦ let (a, b) = cut_few (suc k) c xs (omega arith) in rw (a, b) (refl, refl)
  ]

  length-cut :
      (c : FeaturePipelineConfig) (i n : ℕ) (wave : List S) → length (windows_from c i n wave) ≡ n
  unfolding windows_from
  length-cut c i zero wave = refl
  length-cut c i (suc n) wave = ap suc (length-cut c (i + 1) n wave)

module _ {S V : Type 0} (fbank : Fbank S V) where
  -- `k` is any number that the waves do not outgrow.
  abbrev fed : ℕ → List S → FeaturePipeline S V → FeaturePipeline S V
  fed k waves p = record p {
    feature_queue = p.feature_queue ++ map fbank.energies (cut k p.config waves);
    num_frames = p.num_frames + length (cut k p.config waves);
    remained_wav = left k p.config waves;
  }

  accept_lem :
      (k : ℕ) (pcm : List S) (p : FeaturePipeline S V)
      → IsSane p.config
      → p.config.norm_type ≡ norm_kaldi
      → length (p.remained_wav ++ pcm) ≤ k
      → accept_waveform fbank pcm p ≡ some (fed k (p.remained_wav ++ pcm) p)
  unfolding accept_waveform compute normalize
  accept_lem k pcm p sane local h =
      let waves = p.remained_wav ++ pcm in
      let n = frames p.config (length waves) in
      let (rest, fits) = left-drop k p.config waves sane h in
      let windows = windows-cut k p.config waves sane h in
      let number : n ≡ length (cut k p.config waves) =
        sym (length-cut p.config 0 n waves) ∙ ap length windows in
      rw (count_frames-frames p.config (length waves) sane, local) (ground arith)

  fed-fed :
      (k : ℕ) (waves ys : List S) (p : FeaturePipeline S V)
      → cut k p.config (waves ++ ys)
        ≡ cut k p.config waves ++ cut k p.config (left k p.config waves ++ ys)
      → left k p.config (waves ++ ys) ≡ left k p.config (left k p.config waves ++ ys)
      → fed k (left k p.config waves ++ ys) (fed k waves p) ≡ fed k (waves ++ ys) p
  fed-fed k waves ys p windows rest =
      let first = cut k p.config waves in
      let second = cut k p.config (left k p.config waves ++ ys) in
      ground (
        arith,
        windows,
        rest,
        map-append fbank.energies first second,
        append_assoc p.feature_queue (map fbank.energies first) (map fbank.energies second),
        length-append first second,
        add_assoc p.num_frames (length first) (length second),
      )

  -- Two calls queue the same features, count the same frames and keep the same samples as one call
  -- with both waves, and each of them returns.
  pub accept_waveform-append :
      (xs ys : List S) (p : FeaturePipeline S V)
      → IsSane p.config
      → p.config.norm_type ≡ norm_kaldi
      → (q : FeaturePipeline S V) × ((accept_waveform fbank xs p >>= accept_waveform fbank ys)
          ≡ some q)
        × (accept_waveform fbank (xs ++ ys) p ≡ some q)
  accept_waveform-append xs ys p sane local =
      let waves = p.remained_wav ++ xs in
      let k = length (waves ++ ys) in
      let whole = append_assoc p.remained_wav xs ys in
      let kept = length-left k p.config waves in
      let size = length-append waves ys in
      let (windows, rest) = cut-append k p.config waves ys sane (omega arith) in
      (
        fed k (waves ++ ys) p,
        rw (accept_lem k xs p sane local (omega (arith, size))) (
            accept_lem k ys (fed k waves p) sane local
              (omega (arith, size, kept, length-append (left k p.config waves) ys))
            ∙ ap some (fed-fed k waves ys p windows rest)),
        rw (← whole) at (accept_lem k (xs ++ ys) p sane local (omega (arith, ap length whole))),
      )

  -- All calls, one after the other.
  unfoldable pub accept_all : List (List S) → FeaturePipeline S V → Option (FeaturePipeline S V)
  accept_all [] p = some p
  accept_all (pcm ∷ pcms) p = accept_waveform fbank pcm p >>= λ q. accept_all pcms q

  -- Under the Kaldi normalisation, and where a frame is not shorter than its shift and the shift not
  -- 0: however the wave is cut into calls, at least one, each call returns, and the pipeline ends in
  -- the state after one call with the whole wave.
  pub accept_all-concat :
      (pcm : List S) (pcms : List (List S)) (p : FeaturePipeline S V)
      → IsSane p.config
      → p.config.norm_type ≡ norm_kaldi
      → (q : FeaturePipeline S V) × (accept_all (pcm ∷ pcms) p ≡ some q)
        × (accept_waveform fbank (concat (pcm ∷ pcms)) p ≡ some q)
  unfolding accept_all
  accept_all-concat pcm [] p sane local =
      let k = length (p.remained_wav ++ pcm) in
      let e = accept_lem k pcm p sane local (omega arith) in
      (fed k (p.remained_wav ++ pcm) p, rw e, rw append-nil e)
  accept_all-concat pcm (next ∷ pcms) p sane local =
      let k = length (p.remained_wav ++ pcm) in
      let e = accept_lem k pcm p sane local (omega arith) in
      let middle = fed k (p.remained_wav ++ pcm) p in
      let (q, parts, whole) = accept_all-concat next pcms middle sane local in
      let (q', two, one) = accept_waveform-append pcm (concat (next ∷ pcms)) p sane local in
      let same : some q ≡ some q' = sym whole ∙ (rw e at two) in (q, rw e parts, one ∙ sym same)
