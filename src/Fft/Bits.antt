-- ===== src/Fft/Bits.antt =====
-- Numbers with their bits in the opposite order, as the table of fft.cc is to hold them.
use wenet_android.Prelude.{
  ℕ, zero, suc, ◌+◌, ◌*◌, ◌/◌, ◌%◌, ◌<◌, ◌≡◌, ◌⊎◌, refl, ap, ◌∙◌, true, false, arith, ◌==◌,
  if◌then◌else◌, inl, inr,
}

unfoldable pub pow2 : ℕ → ℕ
pow2 zero = 1
pow2 (suc b) = 2 * pow2 b

-- The lowest `b` bits of a number, from the last to the first.
unfoldable pub reversed : ℕ → ℕ → ℕ
reversed zero i = 0
reversed (suc b) i = if i % 2 == 0 then reversed b (i / 2) else pow2 b + reversed b (i / 2)

pub pow2_pos : (b : ℕ) → 0 < pow2 b
unfolding pow2
pow2_pos zero = omega arith
pow2_pos (suc b) = omega (arith, pow2_pos b)

pub pow2-lt : (b : ℕ) → b < pow2 b
unfolding pow2
pow2-lt zero = omega arith
pow2-lt (suc b) = omega (arith, pow2-lt b)

pub reversed-lt : (b i : ℕ) → reversed b i < pow2 b
unfolding reversed pow2
reversed-lt zero i = omega arith
reversed-lt (suc b) i = ground (arith, reversed-lt b (i / 2))

pub even_next : (b i : ℕ) → i % 2 ≡ 0 → reversed (suc b) (i + 1) ≡ reversed (suc b) i + pow2 b
unfolding reversed
even_next b i e =
    let half : (i + 1) / 2 ≡ i / 2 = omega arith in
    let odd : ((i + 1) % 2 == 0) ≡ false = ground arith in
    let even : (i % 2 == 0) ≡ true = ground arith in rw (odd, even, half) (omega arith)

pub even_lem : (b i : ℕ) → i % 2 ≡ 0 → reversed (suc b) i ≡ reversed b (i / 2)
unfolding reversed
even_lem b i e = let even : (i % 2 == 0) ≡ true = ground arith in rw even

pub odd_lem : (b i : ℕ) → i % 2 ≡ 1 → reversed (suc b) i ≡ pow2 b + reversed b (i / 2)
unfolding reversed
odd_lem b i e = let odd : (i % 2 == 0) ≡ false = ground arith in rw odd

pub odd_next : (b i : ℕ) → i % 2 ≡ 1 → reversed (suc b) (i + 1) ≡ reversed b (i / 2 + 1)
odd_next b i e =
    let half : (i + 1) / 2 ≡ i / 2 + 1 = omega arith in
    even_lem b (i + 1) (omega arith) ∙ ap (reversed b) half

pub parity : (i : ℕ) → (i % 2 ≡ 0) ⊎ (i % 2 ≡ 1)
parity i = omega arith

pub pow2-half : (b : ℕ) → pow2 (suc b) / 2 ≡ pow2 b
unfolding pow2
pow2-half b = omega arith

pub pow2-above : (b : ℕ) → b < pow2 (suc b)
unfolding pow2
pow2-above b = omega (arith, pow2-lt b)

pub reversed-zero : (b : ℕ) → reversed b 0 ≡ 0
unfolding reversed
reversed-zero zero = refl
reversed-zero (suc b) = even_lem b 0 refl ∙ reversed-zero b

-- The reversal by the highest bit in place of the lowest.
nothing : (i : ℕ) → reversed 0 i ≡ 0
unfolding reversed
nothing i = refl

reversed-low : (b x : ℕ) → x < pow2 b → reversed (suc b) x ≡ 2 * reversed b x
unfolding pow2
reversed-low zero x h = omega (arith, even_lem 0 x (omega arith), nothing x, nothing (x / 2))
reversed-low (suc b) x h =
    let below = reversed-low b (x / 2) (omega arith) in
    elim (parity x) [
      | inl e ↦ omega (arith, even_lem (suc b) x e, even_lem b x e, below)
      | inr e ↦ omega (arith, odd_lem (suc b) x e, odd_lem b x e, below)
    ]

reversed-high : (b x : ℕ) → x < pow2 b → reversed (suc b) (pow2 b + x) ≡ 1 + 2 * reversed b x
unfolding pow2
reversed-high zero x h =
    omega (arith, odd_lem 0 (1 + x) (omega arith), nothing x, nothing ((1 + x) / 2))
reversed-high (suc b) x h =
    let below = reversed-high b (x / 2) (omega arith) in
    let half : (pow2 (suc b) + x) / 2 ≡ pow2 b + x / 2 = omega arith in
    let halved : reversed (suc b) ((pow2 (suc b) + x) / 2) ≡ reversed (suc b) (pow2 b + x / 2) =
      ap (reversed (suc b)) half in
    elim (parity x) [
      | inl e ↦
          omega (
            arith,
            even_lem (suc b) (pow2 (suc b) + x) (omega arith),
            even_lem b x e,
            below,
            halved,
          )
      | inr e ↦
          omega
            (arith, odd_lem (suc b) (pow2 (suc b) + x) (omega arith), odd_lem b x e, below, halved)
    ]

pub reversed_twice : (b i : ℕ) → i < pow2 b → reversed b (reversed b i) ≡ i
unfolding pow2
reversed_twice zero i h = omega (arith, nothing (reversed 0 i))
reversed_twice (suc b) i h =
    let twice = reversed_twice b (i / 2) (omega arith) in
    let small = reversed-lt b (i / 2) in
    elim (parity i) [
      | inl e ↦
          rw (even_lem b i e, reversed-low b (reversed b (i / 2)) small) (omega (arith, twice))
      | inr e ↦
          rw (odd_lem b i e, reversed-high b (reversed b (i / 2)) small) (omega (arith, twice))
    ]
