-- ===== src/Fft/Reversal.antt =====
-- fft.cc: `make_bitrev` reverses the bits of each index.
use wenet_android.Prelude.{
  ℕ, zero, suc, ◌+◌, ◌-◌, ◌/◌, ◌%◌, ◌<◌, ◌≡◌, refl, true, false, some, List, [], ◌∷◌, arith, leb,
  get_elem?, inl, inr,
}
use wenet_android.Fft.{carry, bitrev_loop, make_bitrev}
use wenet_android.Fft.Bits.{
  pow2, pow2_pos, reversed, reversed-lt, pow2-half, pow2-above, reversed-zero, even_next, odd_next,
  even_lem, odd_lem, parity,
}

-- The reversed numbers from `i` on.
unfoldable pub reversed_from : ℕ → ℕ → ℕ → List ℕ
reversed_from b zero i = []
reversed_from b (suc rounds) i = reversed b i ∷ reversed_from b rounds (i + 1)

carry_stops : (fuel k j : ℕ) → j < k → carry (suc fuel) k j ≡ some (j + k)
unfolding carry
carry_stops fuel k j h = let no_more : leb k j ≡ false = ground arith in rw no_more

carry_goes : (fuel k j : ℕ) → carry (suc fuel) k (k + j) ≡ carry fuel (k / 2) j
unfolding carry
carry_goes fuel k j =
    let more : leb k (k + j) ≡ true = ground arith in
    let rest : k + j - k ≡ j = omega arith in rw (more, rest)

-- The carry steps from one reversed index to the next one.
carry-reversed :
    (b fuel i : ℕ)
    → suc i < pow2 (suc b)
    → b < fuel
    → carry fuel (pow2 b) (reversed (suc b) i) ≡ some (reversed (suc b) (i + 1))
unfolding pow2
carry-reversed b zero i h l = elim l [ ]
carry-reversed zero (suc fuel) i h l =
    let first : i % 2 ≡ 0 = omega arith in
    rw (even_next zero i first) (
      carry_stops fuel (pow2 zero) (reversed 1 i)
        (rw (even_lem zero i first) (reversed-lt zero (i / 2))))
carry-reversed (suc b) (suc fuel) i h l = elim (parity i) [
  | inl e ↦ rw (even_next (suc b) i e) (
      carry_stops fuel (pow2 (suc b)) (reversed (suc (suc b)) i)
        (rw (even_lem (suc b) i e) (reversed-lt (suc b) (i / 2))))
  | inr e ↦
      let half : pow2 (suc b) / 2 ≡ pow2 b = omega arith in
      rw
        (
          odd_lem (suc b) i e,
          odd_next (suc b) i e,
          carry_goes fuel (pow2 (suc b)) (reversed (suc b) (i / 2)),
          half,
        )
        (carry-reversed b fuel (i / 2) (omega arith) (omega arith))
]

bitrev_loop-reversed :
    (b rounds fuel i : ℕ)
    → i + suc rounds ≡ pow2 (suc b)
    → rounds < fuel
    → bitrev_loop fuel (pow2 (suc b)) i (reversed (suc b) i)
      ≡ some (reversed_from (suc b) (suc rounds) i)
unfolding bitrev_loop reversed_from
bitrev_loop-reversed b rounds zero i e l = elim l [ ]
bitrev_loop-reversed b zero (suc fuel) i e l =
    let last : leb (pow2 (suc b)) (i + 1) ≡ true = ground arith in rw last
bitrev_loop-reversed b (suc rounds) (suc fuel) i e l =
    let more : leb (pow2 (suc b)) (i + 1) ≡ false = ground arith in
    let half = pow2-half b in
    let next = carry-reversed b (pow2 (suc b)) i (omega arith) (pow2-above b) in
    rw (more, half, next, bitrev_loop-reversed b rounds fuel (i + 1) (omega arith) (omega arith))

of_one : bitrev_loop 2 1 0 0 ≡ some (reversed_from 0 1 0)
unfolding bitrev_loop reversed_from reversed
of_one = refl

-- Over a length that is a power of two, `make_bitrev` ends, and the entry at each index is the
-- index with its bits from the last to the first.
pub make_bitrev-reversed : (b : ℕ) → make_bitrev (pow2 b) ≡ some (reversed_from b (pow2 b) 0)
unfolding make_bitrev
make_bitrev-reversed zero = unfold pow2 in of_one
make_bitrev-reversed (suc b) =
    let rounds : 0 + suc (pow2 (suc b) - 1) ≡ pow2 (suc b) = omega (arith, pow2_pos (suc b)) in
    let count : suc (pow2 (suc b) - 1) ≡ pow2 (suc b) = omega (arith, pow2_pos (suc b)) in
    let looped =
      bitrev_loop-reversed b (pow2 (suc b) - 1) (pow2 (suc b) + 1) 0 rounds (omega arith) in
    rw (reversed-zero (suc b), count) at looped

pub get_elem?-reversed_from :
    (b rounds i p : ℕ)
    → p < rounds
    → get_elem? (reversed_from b rounds i) p ≡ some (reversed b (i + p))
unfolding reversed_from
get_elem?-reversed_from b zero i p h = elim h [ ]
get_elem?-reversed_from b (suc rounds) i zero h = let e : i + 0 ≡ i = omega arith in rw e
get_elem?-reversed_from b (suc rounds) i (suc p) h =
    let e : i + suc p ≡ i + 1 + p = omega arith in
    rw e (get_elem?-reversed_from b rounds (i + 1) p (omega arith))
