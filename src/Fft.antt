-- ===== src/Fft.antt =====
-- wenet/runtime/core/frontend/fft.cc: the table of reversed bits and the transform,
-- whose first stage puts the samples in the order of the table. An access out of range is none.
pub mod Bits
pub mod Reversal
pub mod Exchanges
pub mod Order
pub mod Bounds
pub mod Whole
mod Tests
use wenet_android.Prelude.{
  ℕ, zero, suc, ◌+◌, ◌-◌, ◌/◌, Bool, true, false, Option, none, some, List, [], ◌∷◌, arith, ltb,
  leb, if◌then◌else◌, get_elem?, set, map, ◌>>=◌,
}
use wenet_android.Prelude.Float.{Float}
use wenet_android.Prelude.Int.{ℤ, pos, negsuc}

-- `while (k <= j)`, and the sum behind it. With `k` = 0 the loop never ends.
unfoldable pub carry : ℕ → ℕ → ℕ → Option ℕ
carry zero k j = none
carry (suc fuel) k j =
    let more = carry fuel (k / 2) (j - k) in if leb k j then more else some (j + k)

-- The values that are written from `bitrev[i]` on.
unfoldable pub bitrev_loop : ℕ → ℕ → ℕ → ℕ → Option (List ℕ)
bitrev_loop zero n i j = none
bitrev_loop (suc fuel) n i j =
    let rest =
      carry n (n / 2) j >>= λ j'. bitrev_loop fuel n (i + 1) j' >>= λ table. some (j ∷ table) in
    if leb n (i + 1) then some (j ∷ []) else rest

unfoldable pub make_bitrev : ℕ → Option (List ℕ)
make_bitrev n = bitrev_loop (n + 1) n 0 0

module _ {ℓ} {A : Type ℓ} where
  -- Exchanges two entries; an index out of range is none.
  unfoldable pub exchange : ℕ → ℕ → List A → Option (List A)
  exchange i j x = get_elem? x i >>= λ t. get_elem? x j >>= λ u. some (set (set x i u) j t)

  -- The exchange of round `i`, in one of the two arrays.
  unfoldable pub reverse_round : List ℕ → ℕ → List A → Option (List A)
  reverse_round bitrev i x = get_elem? bitrev i >>= λ j. if ltb i j then exchange i j x else some x

  -- The rounds from `i` on, in one array.
  unfoldable pub reverse_loop : List ℕ → ℕ → ℕ → List A → Option (List A)
  reverse_loop bitrev zero i x = some x
  reverse_loop bitrev (suc rounds) i x =
      reverse_round bitrev i x >>= reverse_loop bitrev rounds (i + 1)

  -- The rounds from `i` on, in both.
  unfoldable pub reverse_both : List ℕ → ℕ → ℕ → List A × List A → Option (List A × List A)
  reverse_both bitrev zero i xy = some xy
  reverse_both bitrev (suc rounds) i (x, y) = reverse_round bitrev i x >>= λ x'.
      reverse_round bitrev i y >>= λ y'. reverse_both bitrev rounds (i + 1) (x', y')

module _ (f : Float) where
  unfoldable pub butterfly : f.F → f.F → ℕ → ℕ → List f.F × List f.F → Option (List f.F × List f.F)
  butterfly s c i ik (x, y) = do
    xk ← get_elem? x ik
    yk ← get_elem? y ik
    xi ← get_elem? x i
    yi ← get_elem? y i
    let dx = f.add (f.mul s yk) (f.mul c xk)
    let dy = f.sub (f.mul c yk) (f.mul s xk)
    some
        (set (set x ik (f.sub xi dx)) i (f.add xi dx), set (set y ik (f.sub yi dy)) i (f.add yi dy))

  -- `for (i = j; i < n; i += k2)`.
  unfoldable pub butterflies :
      ℕ → f.F → f.F → ℕ → ℕ → ℕ → List f.F × List f.F → Option (List f.F × List f.F)
  butterflies zero s c n k i xy = none
  butterflies (suc fuel) s c n k i xy =
      let rest = butterfly s c i (i + k) xy >>= butterflies fuel s c n k (i + (k + k)) in
      if ltb i n then rest else some xy

  module _ (inverse : Bool) (sintbl : List f.F) (n : ℕ) where
    -- `for (j = 0; j < k; ++j)`, with the rounds that are left.
    unfoldable pub factors : ℕ → ℕ → ℕ → ℕ → List f.F × List f.F → Option (List f.F × List f.F)
    factors k zero j h xy = some xy
    factors k (suc rounds) j h xy = do
      c ← get_elem? sintbl (h + n / 4)
      t ← get_elem? sintbl h
      xy' ← butterflies (n + 1) (if inverse then f.neg t else t) c n k j xy
      factors k rounds (j + 1) (h + n / (k + k)) xy'

    -- `for (k = 1; k < n; k = k2)`.
    unfoldable pub stages : ℕ → ℕ → List f.F × List f.F → Option (List f.F × List f.F)
    stages zero k xy = none
    stages (suc fuel) k xy =
        let rest = factors k k 0 0 xy >>= stages fuel (k + k) in if ltb k n then rest else some xy

    unfoldable pub scaled : List f.F → List f.F
    scaled x = if inverse then map (λ v. f.div v (f.of_int (pos n))) x else x

    unfoldable pub transform : List ℕ → List f.F × List f.F → Option (List f.F × List f.F)
    transform bitrev xy =
        reverse_both bitrev n 0 xy >>= stages (n + 1) 1 >>= λ (x, y). some (scaled x, scaled y)

  unfoldable pub fft : List ℕ → List f.F → ℤ → List f.F × List f.F → Option (List f.F × List f.F)
  fft bitrev sintbl (pos zero) xy = some xy
  fft bitrev sintbl (pos (suc n)) xy = transform false sintbl (suc n) bitrev xy
  fft bitrev sintbl (negsuc n) xy = transform true sintbl (suc n) bitrev xy
