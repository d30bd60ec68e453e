-- ===== src/Feature/Framing.antt =====
-- The windows of a wave, by recursion on the wave instead of by index.
use native.Mathlib.Decide.{dec_le}
use native.Mathlib.Nat.{mul-zero, zero-mul, div-eq_of_lt, div-eq-sub-div}
use wenet_android.Prelude.{
  ℕ, zero, suc, ◌+◌, ◌-◌, ◌*◌, ◌/◌, ◌≤◌, ◌<◌, ◌≡◌, refl, ap, ◌∙◌, sym, inl, inr, some, List, [],
  ◌∷◌, arith, ltb, if◌then◌else◌, length, take, drop, subst, length-drop, Bool-cases,
}
use wenet_android.Feature.{FeaturePipelineConfig, count_frames, windows_from}

-- What the constructor gives for every sample rate from 1 kHz up.
abbrev pub IsSane : FeaturePipelineConfig → Type 0
IsSane c = (0 < c.frame_shift) × (c.frame_shift ≤ c.frame_length)

drop-nil {ℓ} : {A : Type ℓ} (n : ℕ) → drop {A = A} n [] ≡ []
drop-nil zero = refl
drop-nil (suc n) = refl

drop-drop {ℓ} : {A : Type ℓ} (m n : ℕ) (xs : List A) → drop m (drop n xs) ≡ drop (n + m) xs
drop-drop m zero xs = ap (λ k. drop k xs) (omega arith)
drop-drop m (suc n) [] = drop-nil m ∙ sym (drop-nil (suc n + m))
drop-drop m (suc n) (x ∷ xs) =
    let e : suc n + m ≡ suc (n + m) = omega arith in rw e (drop-drop m n xs)

-- How many windows fit into `n` samples.
pub frames : FeaturePipelineConfig → ℕ → ℕ
frames c n = if ltb n c.frame_length then 0 else 1 + (n - c.frame_length) / c.frame_shift

pub count_frames-frames :
    (c : FeaturePipelineConfig) (n : ℕ) → IsSane c → count_frames c n ≡ some (frames c n)
unfolding count_frames frames
count_frames-frames c n (pos, le) = ground arith

pub frames_few : (c : FeaturePipelineConfig) (n : ℕ) → n < c.frame_length → frames c n ≡ 0
unfolding frames
frames_few c n h = ground arith

frames_step :
    (c : FeaturePipelineConfig) (n : ℕ)
    → IsSane c
    → c.frame_length ≤ n
    → frames c n ≡ suc (frames c (n - c.frame_shift))
unfolding frames
frames_step c n (pos, le) h = elim (Bool-cases (ltb (n - c.frame_shift) c.frame_length)) [
  | inl few ↦
      let small : (n - c.frame_length) / c.frame_shift ≡ 0 = div-eq_of_lt (ground arith) in
      ground arith
  | inr many ↦
      let less : (n - c.frame_length) / c.frame_shift
          ≡ (n - c.frame_length - c.frame_shift) / c.frame_shift + 1 =
        div-eq-sub-div pos (ground arith) in
      let same : n - c.frame_length - c.frame_shift ≡ n - c.frame_shift - c.frame_length =
        omega arith in
      ground (arith, ap (λ (t : ℕ). t / c.frame_shift) same)
]

module _ {S : Type 0} where
  -- The window at `i + 1` is that at `i` of the wave less one shift.
  windows_from_shift :
      (c : FeaturePipelineConfig) (i n : ℕ) (wave : List S)
      → windows_from c (i + 1) n wave ≡ windows_from c i n (drop c.frame_shift wave)
  unfolding windows_from
  windows_from_shift c i zero wave = refl
  windows_from_shift c i (suc n) wave =
      let e : (i + 1) * c.frame_shift ≡ c.frame_shift + i * c.frame_shift = omega arith in
      rw (drop-drop (i * c.frame_shift) c.frame_shift wave, e)
        (ap (λ t. take c.frame_length (drop (c.frame_shift + i * c.frame_shift) wave) ∷ t)
          (windows_from_shift c (i + 1) n wave))

  windows_from_first :
      (c : FeaturePipelineConfig) (n : ℕ) (wave : List S)
      → windows_from c 0 (suc n) wave
        ≡ take c.frame_length wave ∷ windows_from c 0 n (drop c.frame_shift wave)
  unfolding windows_from
  windows_from_first c n wave =
      rw (zero-mul c.frame_shift)
        (ap (λ t. take c.frame_length wave ∷ t) (windows_from_shift c 0 n wave))

  -- The windows, and what is left when the last one has been shifted out.
  unfoldable pub cut : ℕ → FeaturePipelineConfig → List S → List (List S)
  cut zero c wave = []
  cut (suc k) c wave =
      let rest = cut k c (drop c.frame_shift wave) in
      if ltb (length wave) c.frame_length then [] else take c.frame_length wave ∷ rest

  unfoldable pub left : ℕ → FeaturePipelineConfig → List S → List S
  left zero c wave = wave
  left (suc k) c wave =
      let rest = left k c (drop c.frame_shift wave) in
      if ltb (length wave) c.frame_length then wave else rest

  pub cut_few :
      (k : ℕ) (c : FeaturePipelineConfig) (wave : List S)
      → length wave < c.frame_length
      → (cut k c wave ≡ []) × (left k c wave ≡ wave)
  unfolding cut left
  cut_few zero c wave h = (refl, refl)
  cut_few (suc k) c wave h = ground arith

  pub cut_many :
      (k : ℕ) (c : FeaturePipelineConfig) (wave : List S)
      → c.frame_length ≤ length wave
      → (cut (suc k) c wave ≡ take c.frame_length wave ∷ cut k c (drop c.frame_shift wave))
        × (left (suc k) c wave ≡ left k c (drop c.frame_shift wave))
  unfolding cut left
  cut_many k c wave h = ground arith

  pub windows-cut :
      (k : ℕ) (c : FeaturePipelineConfig) (wave : List S)
      → IsSane c
      → length wave ≤ k
      → windows_from c 0 (frames c (length wave)) wave ≡ cut k c wave
  windows-cut zero c wave (pos, le) h =
      rw (frames_few c (length wave) (omega arith), (cut_few zero c wave (omega arith)).0)
        (unfold windows_from in refl)
  windows-cut (suc k) c wave (pos, le) h = elim (dec_le c.frame_length (length wave)) [
    | yes many ↦
        let rest = drop c.frame_shift wave in
        let size = length-drop c.frame_shift wave in
        let ih = windows-cut k c rest (pos, le) (omega (arith, size)) in
        rw (frames_step c (length wave) (pos, le) many, (cut_many k c wave many).0)
          (windows_from_first c (frames c (length wave - c.frame_shift)) wave
            ∙ ap (λ t. take c.frame_length wave ∷ t)
                (ap (λ n. windows_from c 0 (frames c n) rest) (sym size) ∙ ih))
    | no few ↦
        rw (frames_few c (length wave) (omega arith), (cut_few (suc k) c wave (omega arith)).0)
          (unfold windows_from in refl)
  ]

  pub left-drop :
      (k : ℕ) (c : FeaturePipelineConfig) (wave : List S)
      → IsSane c
      → length wave ≤ k
      → (drop (c.frame_shift * frames c (length wave)) wave ≡ left k c wave)
        × (c.frame_shift * frames c (length wave) ≤ length wave)
  left-drop zero c wave (pos, le) h =
      let few = frames_few c (length wave) (omega arith) in
      rw (few, (cut_few zero c wave (omega arith)).1, mul-zero) (refl, omega arith)
  left-drop (suc k) c wave (pos, le) h = elim (dec_le c.frame_length (length wave)) [
    | yes many ↦
        let n = frames c (length wave - c.frame_shift) in
        let rest = drop c.frame_shift wave in
        let size = length-drop c.frame_shift wave in
        let (ih, fits) = left-drop k c rest (pos, le) (omega (arith, size)) in
        let fitted : c.frame_shift * n ≤ length wave - c.frame_shift =
          subst (λ m. c.frame_shift * frames c m ≤ m) size fits in
        let more : c.frame_shift * suc n ≡ c.frame_shift + c.frame_shift * n = grind arith in
        rw (frames_step c (length wave) (pos, le) many, (cut_many k c wave many).1, more)
          (
            sym (drop-drop (c.frame_shift * n) c.frame_shift wave)
                ∙ ap (λ m. drop (c.frame_shift * frames c m) rest) (sym size)
                ∙ ih,
            omega arith,
          )
    | no few ↦
        rw
          (
            frames_few c (length wave) (omega arith),
            (cut_few (suc k) c wave (omega arith)).1,
            mul-zero,
          )
          (refl, omega arith)
  ]
