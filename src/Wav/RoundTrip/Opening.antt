-- ===== src/Wav/RoundTrip/Opening.antt =====
-- wav.h: `Open` of a whole file.
use native.Mathlib.Nat.{mul-div_cancel, mod-eq_of_lt}
use wenet_android.Prelude.{
  drop-append, append-nil, length-take, ℕ, suc, ◌+◌, ◌*◌, ◌/◌, ◌%◌, ◌^◌, ◌≤◌, ◌<◌, ◌≡◌, refl, ap,
  sym, ◌∙◌, some, List, [], ◌∷◌, ◌++◌, arith, length, take, drop, inl, inr, map, All, Bool-cases,
  ltb, ◌==◌, false, true,
}
use wenet_android.Prelude.Int.{ℤ, pos}
use wenet_android.Prelude.Float.{Float}
use wenet_android.Text.Utf8.{Bytes}
use wenet_android.Wav.{
  new_header, to_bytes, signed, sample_width, skip_chunks, fread, default_header,
}
use wenet_android.Wav.Files.{
  WavReader, opened, read_data, header_refused, first_chunk, open_file, encode_samples,
}
use wenet_android.Wav.Words.{Fits, width_cases, of_le-le_bytes}
use wenet_android.Wav.RoundTrip.Headers.{
  length-default_header, length-to_bytes, of_bytes-to_bytes, fread_whole,
  read_samples-encode_samples,
}

-- The arguments of a header whose sizes the words hold.
pub record IsSane (n c rate bits k : ℕ) : Type 0 where
  pub width : sample_width bits ≡ some k
  pub some_channel : 0 < c
  pub channels_fit : c < 2 ^ 16
  pub rate_fits : rate < 2 ^ 31
  pub size_fits : n * c * k + 36 < 2 ^ 31

abbrev pub Width : ℕ → ℕ → Type 0
Width bits k =
    (0 < 256 ^ k / 2)
    × (0 < k)
    × (k < 5)
    × (bits < 2 ^ 16)
    × (bits / 8 ≡ k)
    × (256 ^ k ≡ 256 ^ k / 2 + 256 ^ k / 2)

pub sample_width-Width : (bits k : ℕ) → sample_width bits ≡ some k → Width bits k
sample_width-Width bits k e = elim (width_cases bits k e) [
  | inl (b, w) ↦
      rw (b, w) (omega arith, omega arith, omega arith, omega arith, omega arith, omega arith)
  | inr (inl (b, w)) ↦
      rw (b, w) (omega arith, omega arith, omega arith, omega arith, omega arith, omega arith)
  | inr (inr (b, w)) ↦
      rw (b, w) (omega arith, omega arith, omega arith, omega arith, omega arith, omega arith)
]

module _ (f : Float) (n c rate bits k : ℕ) (xs : List ℤ) where
  abbrev pub wave : WavReader f
  wave = record {
    num_channel = c;
    sample_rate = pos rate;
    bits_per_sample = bits;
    num_samples = n;
    samples = map f.of_int xs;
  }

  pub read_data_lem :
      (stale file : Bytes)
      → IsSane n c rate bits k
      → length stale ≡ 4
      → length xs ≡ n * c
      → All (Fits (256 ^ k / 2)) xs
      → drop 44 file ≡ encode_samples k xs
      → read_data f (new_header n c rate bits) stale file 44 ≡ some (opened wave)
  unfolding read_data new_header signed
  read_data_lem stale file sane l len fits e =
      let (hp, kp, kl, bl, bk, m) = sample_width-Width bits k sane.width in
      let size : n * c * (bits / 8) % 2 ^ 32 ≡ n * c * k =
        rw bk (mod-eq_of_lt (omega (arith, sane.size_fits))) in
      let b : bits % 2 ^ 16 ≡ bits = omega arith in
      let ch : c % 2 ^ 16 ≡ c = omega (arith, sane.channels_fit) in
      let ra : rate % 2 ^ 32 ≡ rate = omega (arith, sane.rate_fits) in
      let d : n * c * k / k ≡ n * c = mul-div_cancel (n * c) kp in
      let q : n * c / c ≡ n = mul-div_cancel n sane.some_channel in
      let le : n * c ≤ n * c * k = grind arith in
      let t1 : (k == 0) ≡ false = ground arith in
      let t2 : ltb (n * c) (2 ^ 31) ≡ true = ground (arith, sane.size_fits) in
      let t3 : (c == 0) ≡ false = ground (arith, sane.some_channel) in
      let t4 : ltb rate (2 ^ 32 / 2) ≡ true = ground (arith, sane.rate_fits) in
      let lt : length (take k stale) ≡ k = length-take k stale ∙ omega arith in
      let e' : drop 44 file ≡ encode_samples k xs ++ [] =
        e ∙ sym (append-nil (encode_samples k xs)) in
      rw (size, b, ch, ra, bk, d, q, t1, t2, t3, t4)
        (elim (Bool-cases (n * c == 0)) [
          | inl z ↦
              rw z (
                ap (λ s. some (opened (record wave { samples = s })))
                  (no_samples xs (ground arith)))
          | inr z ↦
              rw (z, sane.width, ← len)
                (ap (λ s. some (opened (record wave { samples = s })))
                  (read_samples-encode_samples f k (256 ^ k / 2) xs (take k stale) file [] 44 m hp
                    lt fits e'))
        ])
    where
      no_samples : (ys : List ℤ) → length ys ≡ 0 → [] ≡ map f.of_int ys
      no_samples [] _ = refl
      no_samples (y ∷ ys) h = absurd (omega arith)

  -- The file that has such a header and the samples behind it.
  abbrev pub wave_file : Bytes
  wave_file = to_bytes (new_header n c rate bits) ++ encode_samples k xs

  pub open_file-wave_file :
      (fuel : ℕ) (stale : Bytes)
      → IsSane n c rate bits k
      → length stale ≡ 4
      → length xs ≡ n * c
      → All (Fits (256 ^ k / 2)) xs
      → open_file f (suc fuel) stale (some wave_file) ≡ some (opened wave)
  unfolding open_file skip_chunks header_refused first_chunk new_header
  open_file-wave_file fuel stale sane l len fits =
      let h = new_header n c rate bits in
      let hb = length-to_bytes n c rate bits in
      let r : fread (to_bytes default_header) wave_file 0 ≡ (to_bytes h, 44) =
        fread_whole (to_bytes default_header) wave_file (to_bytes h) 0 (encode_samples k xs) refl
          (length-default_header ∙ sym hb)
        ∙ ap (λ t. (to_bytes h, t)) (omega (arith, hb)) in
      let size = of_le-le_bytes 4 h.data_size (omega arith) in
      let d : drop 44 wave_file ≡ encode_samples k xs =
        ap (λ t. drop t wave_file) (sym hb) ∙ drop-append (to_bytes h) (encode_samples k xs) in
      rw (r, of_bytes-to_bytes n c rate bits, size)
        (read_data_lem stale wave_file sane l len fits d)
