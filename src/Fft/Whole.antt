-- ===== src/Fft/Whole.antt =====
-- fft.cc: `fft` on arrays of a power of two.
use wenet_android.Prelude.{
  ℕ, zero, suc, ◌+◌, ◌/◌, ◌≡◌, refl, ap, subst, ◌∙◌, Bool, true, false, some, List, arith, length,
  length-map, bind_inv,
}
use wenet_android.Prelude.Int.{ℤ, pos, negsuc, pos_part, neg_part}
use wenet_android.Prelude.Float.{Float}
use wenet_android.Fft.{
  make_bitrev, reverse_round, reverse_loop, reverse_both, transform, scaled, fft,
}
use wenet_android.Fft.Bits.{pow2, pow2_pos, pow2-lt}
use wenet_android.Fft.Bounds.{Long, stages-Long}
use wenet_android.Fft.Order.{reverse_loop-reversed}

-- The exchanges of the two arrays do not depend on one another.
both_of_each {ℓ} :
    {A : Type ℓ} (bitrev : List ℕ) (rounds i : ℕ) (x y x' y' : List A)
    → reverse_loop bitrev rounds i x ≡ some x'
    → reverse_loop bitrev rounds i y ≡ some y'
    → reverse_both bitrev rounds i (x, y) ≡ some (x', y')
unfolding reverse_loop reverse_both
both_of_each bitrev zero i x y x' y' e e' = cc
both_of_each bitrev (suc rounds) i x y x' y' e e' =
    let (x1, r1, s1) =
      bind_inv (reverse_round bitrev i x) (reverse_loop bitrev rounds (i + 1)) x' e in
    let (y1, r2, s2) =
      bind_inv (reverse_round bitrev i y) (reverse_loop bitrev rounds (i + 1)) y' e' in
    rw (r1, r2) (both_of_each bitrev rounds (i + 1) x1 y1 x' y' s1 s2)

module _ (f : Float) where
  length-scaled :
      (inverse : Bool) (sintbl : List f.F) (n : ℕ) (x : List f.F)
      → length (scaled f inverse sintbl n x) ≡ length x
  unfolding scaled
  length-scaled true sintbl n x = length-map x (λ v. f.div v (f.of_int (pos n)))
  length-scaled false sintbl n x = refl

  transform-Long :
      (b n : ℕ) (inverse : Bool) (bitrev : List ℕ) (sintbl x y : List f.F)
      → pow2 b ≡ n
      → make_bitrev (pow2 b) ≡ some bitrev
      → length sintbl ≡ pow2 b + pow2 b / 4
      → Long f (pow2 b) (x, y)
      → (out : List f.F × List f.F) × (transform f inverse sintbl n bitrev (x, y) ≡ some out)
        × Long f (pow2 b) out
  unfolding transform pow2
  transform-Long b n inverse bitrev sintbl x y e made sized (ex, ey) =
      let (x1, r1, l1, _) = reverse_loop-reversed b bitrev x made ex in
      let (y1, r2, l2, _) = reverse_loop-reversed b bitrev y made ey in
      let from_0 : 0 + b ≡ b = omega arith in
      let both = both_of_each bitrev (pow2 b) 0 x y x1 y1 r1 r2 in
      let (xy2, r3, l3) =
        stages-Long f b (pow2 b + 1) 0 (pow2 b) inverse sintbl (x1, y1) sized (ap pow2 (from_0))
          (omega (arith, pow2-lt b)) (l1, l2) in
      let out : List f.F × List f.F =
        (scaled f inverse sintbl (pow2 b) xy2.0, scaled f inverse sintbl (pow2 b) xy2.1) in
      let whole : transform f inverse sintbl (pow2 b) bitrev (x, y) ≡ some out = rw (both, r3) in
      (
        out,
        subst (λ (n : ℕ). transform f inverse sintbl n bitrev (x, y) ≡ some out) e whole,
        (
          length-scaled inverse sintbl (pow2 b) xy2.0 ∙ l3.0,
          length-scaled inverse sintbl (pow2 b) xy2.1 ∙ l3.1,
        ),
      )

  -- With the table of `make_bitrev`, and a table of sines and two arrays of the lengths that go with
  -- it, a power of two, `fft` makes no access out of range in either direction, its loops end,
  -- and the arrays keep their lengths.
  pub fft-Long :
      (b : ℕ) (m : ℤ) (bitrev : List ℕ) (sintbl x y : List f.F)
      → pos_part m + neg_part m ≡ pow2 b
      → make_bitrev (pow2 b) ≡ some bitrev
      → length sintbl ≡ pow2 b + pow2 b / 4
      → length x ≡ pow2 b
      → length y ≡ pow2 b
      → (out : List f.F × List f.F) × (fft f bitrev sintbl m (x, y) ≡ some out)
        × (length out.0 ≡ pow2 b)
        × (length out.1 ≡ pow2 b)
  unfolding fft
  fft-Long b (pos zero) bitrev sintbl x y e made sized ex ey = absurd (omega (arith, pow2_pos b))
  fft-Long b (pos (suc n)) bitrev sintbl x y e made sized ex ey =
      let (out, r, l) =
        transform-Long b (suc n) false bitrev sintbl x y (omega arith) made sized (ex, ey) in
      (out, r, l.0, l.1)
  fft-Long b (negsuc n) bitrev sintbl x y e made sized ex ey =
      let (out, r, l) =
        transform-Long b (suc n) true bitrev sintbl x y (omega arith) made sized (ex, ey) in
      (out, r, l.0, l.1)
