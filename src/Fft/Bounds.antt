-- ===== src/Fft/Bounds.antt =====
-- fft.cc: the transform stays within its arrays and ends.
use wenet_android.Prelude.{
  ℕ, zero, suc, ◌+◌, ◌*◌, ◌/◌, ◌≤◌, ◌<◌, ◌≡◌, refl, sym, ap, ◌∙◌, Bool, true, false, some, List,
  arith, ltb, length, set, get_elem?_of_lt, length-set, if◌then◌else◌,
}
use wenet_android.Prelude.Float.{Float}
use native.Mathlib.Decide.{dec_lt}
use native.Mathlib.Nat.{div-add-mod, mod-lt, add-mul}
use wenet_android.Fft.{butterfly, butterflies, factors, stages}
use wenet_android.Fft.Bits.{pow2, pow2_pos}

multiple : ℕ → ℕ → ℕ
multiple zero q = 0
multiple (suc r) q = q + multiple r q

multiple-eq-mul : (r q : ℕ) → multiple r q ≡ r * q
unfolding multiple
multiple-eq-mul zero q = omega arith
multiple-eq-mul (suc r) q = grind (arith, multiple-eq-mul r q)

le-multiple : (r q : ℕ) → 0 < q → r ≤ multiple r q
unfolding multiple
le-multiple zero q h = omega arith
le-multiple (suc r) q h = omega (arith, le-multiple r q h)

positive : (n q : ℕ) → q ≤ n → 0 < q → 0 < n / q
positive n q l h = elim (dec_lt 0 (n / q)) [
  | yes p ↦ p
  | no p ↦
      let rest = mod-lt n {m = q} h in
      let none_whole : q * (n / q) ≡ q * 0 = ap (λ (d : ℕ). q * d) (omega arith) in
      absurd (omega (arith, div-add-mod n q))
]

-- What the factors of one stage need of its step.
step_fits : (n k : ℕ) → 0 < k → k + k ≤ n → (0 < n / (k + k)) × (multiple k (n / (k + k)) ≤ n)
step_fits n k h l =
    let whole = div-add-mod n (k + k) in
    let rest = mod-lt n {m = k + k} (omega arith) in
    let product = multiple-eq-mul k (n / (k + k)) in
    let double = add-mul k k (n / (k + k)) in
    let fits : multiple k (n / (k + k)) ≤ n = omega arith in
    (positive n (k + k) l (omega arith), fits)

times_double : (p q : ℕ) → multiple (2 * p) q ≡ 2 * multiple p q
times_double p q =
    let left = multiple-eq-mul (2 * p) q in
    let right = multiple-eq-mul p q in
    let twice : 2 * p ≡ p + p = omega arith in
    let both : 2 * p * q ≡ p * q + p * q = ap (λ (t : ℕ). t * q) twice ∙ add-mul p p q in
    omega arith

pow2-multiple : (a c : ℕ) → pow2 (a + suc c) ≡ multiple (pow2 c) (pow2 a + pow2 a)
unfolding pow2 multiple
pow2-multiple a zero = let next : a + 1 ≡ suc a = omega arith in ap pow2 next ∙ omega arith
pow2-multiple a (suc c) =
    let next : a + suc (suc c) ≡ suc (a + suc c) = omega arith in
    let below = pow2-multiple a c in
    ap pow2 next ∙ omega (arith, below, times_double (pow2 c) (pow2 a + pow2 a))

pow2_double : (a : ℕ) → pow2 (suc a) ≡ pow2 a + pow2 a
unfolding pow2
pow2_double a = omega arith

multiple-ge : (m q : ℕ) → 0 < m → q ≤ multiple m q
unfolding multiple
multiple-ge zero q h = elim h [ ]
multiple-ge (suc m) q h = omega arith

module _ (f : Float) where
  -- Both arrays have `n` entries.
  abbrev pub Long : ℕ → List f.F × List f.F → Type 0
  Long n (x, y) = (length x ≡ n) × (length y ≡ n)

  butterfly-Long :
      (n : ℕ) (s c : f.F) (i ik : ℕ) (xy : List f.F × List f.F)
      → i < n
      → ik < n
      → Long n xy
      → (r : List f.F × List f.F) × (butterfly f s c i ik xy ≡ some r) × Long n r
  unfolding butterfly
  butterfly-Long n s c i ik (x, y) h l (ex, ey) =
      let (xk, e1) = get_elem?_of_lt x ik (omega arith) in
      let (yk, e2) = get_elem?_of_lt y ik (omega arith) in
      let (xi, e3) = get_elem?_of_lt x i (omega arith) in
      let (yi, e4) = get_elem?_of_lt y i (omega arith) in
      let dx = f.add (f.mul s yk) (f.mul c xk) in
      let dy = f.sub (f.mul c yk) (f.mul s xk) in
      (
        (
          set (set x ik (f.sub xi dx)) i (f.add xi dx),
          set (set y ik (f.sub yi dy)) i (f.add yi dy),
        ),
        rw (e1, e2, e3, e4),
        (
          length-set (set x ik (f.sub xi dx)) i (f.add xi dx) ∙ length-set x ik (f.sub xi dx) ∙ ex,
          length-set (set y ik (f.sub yi dy)) i (f.add yi dy) ∙ length-set y ik (f.sub yi dy) ∙ ey,
        ),
      )

  butterflies-Long :
      (r fuel n : ℕ) (s c : f.F) (k i j : ℕ) (xy : List f.F × List f.F)
      → r < fuel
      → j < k
      → i + multiple r (k + k) ≡ n + j
      → Long n xy
      → (out : List f.F × List f.F) × (butterflies f fuel s c n k i xy ≡ some out) × Long n out
  unfolding butterflies multiple
  butterflies-Long zero (suc fuel) n s c k i j xy l h e long =
      let stops : ltb i n ≡ false = ground arith in (xy, rw stops, long)
  butterflies-Long (suc r) (suc fuel) n s c k i j xy l h e long =
      let goes : ltb i n ≡ true = ground arith in
      let (mid, e1, long1) = butterfly-Long n s c i (i + k) xy (omega arith) (omega arith) long in
      let (out, e2, long2) =
        butterflies-Long r fuel n s c k (i + (k + k)) j mid (omega arith) h (omega arith) long1 in
      (out, rw (goes, e1) e2, long2)
  butterflies-Long r zero n s c k i j xy l h e long = elim l [ ]

  -- The rounds over the factors of one stage; the index `h` grows by `d`.
  factors-Long :
      (rounds n k m j h : ℕ) (inverse : Bool) (sintbl : List f.F) (xy : List f.F × List f.F)
      → length sintbl ≡ n + n / 4
      → n ≡ multiple m (k + k)
      → 0 < k
      → 0 < n / (k + k)
      → j + rounds ≡ k
      → h + multiple rounds (n / (k + k)) ≤ n
      → Long n xy
      → (out : List f.F × List f.F) × (factors f inverse sintbl n k rounds j h xy ≡ some out)
        × Long n out
  unfolding factors multiple
  factors-Long zero n k m j h inverse sintbl xy sized whole pk pd e fits long = (xy, refl, long)
  factors-Long (suc rounds) n k m j h inverse sintbl xy sized whole pk pd e fits long =
      let (c, e1) = get_elem?_of_lt sintbl (h + n / 4) (omega arith) in
      let (t, e2) = get_elem?_of_lt sintbl h (omega arith) in
      let below : m < n + 1 = omega (arith, le-multiple m (k + k)) in
      let (mid, e3, long1) =
        butterflies-Long m (n + 1) n (if inverse then f.neg t else t) c k j j xy below (omega arith)
          (omega arith) long in
      let (out, e4, long2) =
        factors-Long rounds n k m (j + 1) (h + n / (k + k)) inverse sintbl mid sized whole pk pd
          (omega arith) (omega arith) long1 in
      (out, rw (e1, e2, e3) e4, long2)

  pub stages-Long :
      (c fuel a n : ℕ) (inverse : Bool) (sintbl : List f.F) (xy : List f.F × List f.F)
      → length sintbl ≡ n + n / 4
      → pow2 (a + c) ≡ n
      → c < fuel
      → Long n xy
      → (out : List f.F × List f.F) × (stages f inverse sintbl n fuel (pow2 a) xy ≡ some out)
        × Long n out
  unfolding stages
  stages-Long c zero a n inverse sintbl xy sized e l long = elim l [ ]
  stages-Long zero (suc fuel) a n inverse sintbl xy sized e l long =
      let whole : a + 0 ≡ a = omega arith in
      let same : pow2 a ≡ n = sym (ap pow2 whole) ∙ e in
      let stops : ltb (pow2 a) n ≡ false = ground arith in (xy, rw stops, long)
  stages-Long (suc c) (suc fuel) a n inverse sintbl xy sized e l long =
      let k = pow2 a in
      let product : n ≡ multiple (pow2 c) (k + k) = sym e ∙ pow2-multiple a c in
      let small : k + k ≤ n = omega (arith, multiple-ge (pow2 c) (k + k) (pow2_pos c)) in
      let goes : ltb (pow2 a) n ≡ true = ground (arith, pow2_pos a) in
      let (some_angle, angles) = step_fits n k (pow2_pos a) small in
      let (mid, e1, long1) =
        factors-Long k n k (pow2 c) 0 0 inverse sintbl xy sized product (pow2_pos a) some_angle
          (omega arith) (omega arith) long in
      let next : a + suc c ≡ suc a + c = omega arith in
      let (out, e2, long2) =
        stages-Long c fuel (suc a) n inverse sintbl mid sized (ap pow2 (sym next) ∙ e) (omega arith)
          long1 in
      let doubled : pow2 (suc a) ≡ pow2 a + pow2 a = pow2_double a in
      (out, rw (goes, e1) (rw doubled at e2), long2)
