-- ===== src/Wav/Words.antt =====
-- Numbers and integers as bytes, and back.
use native.Mathlib.Nat.{pow-suc, mod-eq_of_lt}
use wenet_android.Prelude.{
  ℕ, zero, suc, ◌+◌, ◌*◌, ◌/◌, ◌%◌, ◌^◌, ◌<◌, ◌≡◌, refl, ap, some, List, [], ◌∷◌, ◌++◌, arith,
  length, drop, ◌⊎◌, length-append, append_assoc,
}
use wenet_android.Prelude.Int.{ℤ, pos, negsuc}
use wenet_android.Wav.{le_bytes, of_le, wrap, signed, sample_width}
use wenet_android.Wav.Files.{encode_samples}

pub length-le_bytes : (k v : ℕ) → length (le_bytes k v) ≡ k
unfolding le_bytes
length-le_bytes zero v = refl
length-le_bytes (suc k) v = ap suc (length-le_bytes k (v / 256))

pub of_le-le_bytes : (k v : ℕ) → v < 256 ^ k → of_le (le_bytes k v) ≡ v
unfolding le_bytes of_le
of_le-le_bytes zero v h = omega arith
of_le-le_bytes (suc k) v h =
    omega (arith, of_le-le_bytes k (v / 256) (omega (arith, pow-suc 256 k)))

-- An integer that a signed word of twice `h` values holds.
abbrev pub Fits : ℕ → ℤ → Type 0
Fits h (pos n) = n < h
Fits h (negsuc n) = n < h

pub signed-wrap : (h m : ℕ) (x : ℤ) → m ≡ h + h → Fits h x → signed m (wrap m x) ≡ x
unfolding signed wrap
signed-wrap h m (pos n) e fits =
    let e' : n % m ≡ n = mod-eq_of_lt (omega arith) in rw e' (ground arith)
signed-wrap h m (negsuc n) e fits =
    let e' : n % m ≡ n = mod-eq_of_lt (omega arith) in rw e' (ground arith)

pub wrap-lt : (m : ℕ) (x : ℤ) → 0 < m → wrap m x < m
unfolding wrap
wrap-lt m (pos n) h = omega arith
wrap-lt m (negsuc n) h = omega arith

pub width_cases :
    (bits k : ℕ)
    → sample_width bits ≡ some k
    → ((bits ≡ 8) × (k ≡ 1)) ⊎ (((bits ≡ 16) × (k ≡ 2)) ⊎ ((bits ≡ 32) × (k ≡ 4)))
unfolding sample_width
width_cases bits k e = ground arith

pub encode_samples-append :
    (k : ℕ) (xs ys : List ℤ)
    → encode_samples k (xs ++ ys) ≡ encode_samples k xs ++ encode_samples k ys
unfolding encode_samples
encode_samples-append k [] ys = refl
encode_samples-append k (x ∷ xs) ys = simp (encode_samples-append k xs ys, append_assoc)

pub length-encode_samples : (k : ℕ) (xs : List ℤ) → length (encode_samples k xs) ≡ k * length xs
unfolding encode_samples
length-encode_samples k [] = omega arith
length-encode_samples k (x ∷ xs) = grind (
  arith,
  length-append (le_bytes k (wrap (256 ^ k) x)) (encode_samples k xs),
  length-le_bytes k (wrap (256 ^ k) x),
  length-encode_samples k xs,
)

pub drop-add {ℓ} : {A : Type ℓ} (m n : ℕ) (xs : List A) → drop (m + n) xs ≡ drop n (drop m xs)
drop-add zero n xs = let e : 0 + n ≡ n = omega arith in rw e
drop-add (suc m) zero [] = let e : suc m + 0 ≡ suc m = omega arith in rw e
drop-add (suc m) (suc n) [] = let e : suc m + suc n ≡ suc (m + suc n) = omega arith in rw e
drop-add (suc m) n (x ∷ xs) =
    let e : suc m + n ≡ suc (m + n) = omega arith in rw e (drop-add m n xs)
