-- ===== src/Fft/Exchanges.antt =====
-- fft.cc: where each sample stands after some of the exchanges of the first stage.
use wenet_android.Prelude.{
  ℕ, suc, ◌≤◌, ◌<◌, ◌≡◌, ◌≢◌, sym, ap, subst, ◌∙◌, ◌⊎◌, inl, inr, ◌||◌, some, List, arith, ltb,
  ◌==◌, if◌then◌else◌, get_elem?, set, length, get_elem?_of_lt, length-set, get_elem?-set_self,
  get_elem?-set_ne,
}
use native.Mathlib.Decide.{dec_lt, ℕ_discrete}
use wenet_android.Fft.{exchange}
use wenet_android.Fft.Bits.{pow2, reversed, reversed-lt, reversed_twice}

-- Where the entry `p` comes from when the rounds before `i` are done, and after one exchange.
pub source : ℕ → ℕ → ℕ → ℕ
source b i p = if ltb p i || ltb (reversed b p) i then reversed b p else p

pub swapped : ℕ → ℕ → ℕ → ℕ
swapped i j p = if p == i then j else if p == j then i else p

module _ {ℓ} {A : Type ℓ} where
  set-set-swapped :
      (i j : ℕ) (x : List A) (t u : A)
      → get_elem? x i ≡ some t
      → get_elem? x j ≡ some u
      → i < length x
      → j < length x
      → (p : ℕ) → get_elem? (set (set x i u) j t) p ≡ get_elem? x (swapped i j p)
  unfolding swapped
  set-set-swapped i j x t u et eu h k p = elim (ℕ_discrete j p) [
    | yes e ↦
        let fits : j < length (set x i u) = omega (arith, length-set x i u) in
        let here = get_elem?-set_self (set x i u) j t fits in
        let to_j : swapped i j j ≡ i = ground arith in
        subst (λ (p : ℕ). get_elem? (set (set x i u) j t) p ≡ get_elem? x (swapped i j p)) e
          (here ∙ sym et ∙ ap (get_elem? x) (sym to_j))
    | no n ↦ get_elem?-set_ne (set x i u) t n ∙ elim (ℕ_discrete i p) [
      | yes e ↦
          let to_j : swapped i j i ≡ j = ground arith in
          subst (λ (p : ℕ). get_elem? (set x i u) p ≡ get_elem? x (swapped i j p)) e
            (get_elem?-set_self x i u h ∙ sym eu ∙ ap (get_elem? x) (sym to_j))
      | no m ↦
          let stays : swapped i j p ≡ p = ground (arith, n, m) in
          get_elem?-set_ne x u m ∙ ap (get_elem? x) (sym stays)
    ]
  ]

  pub exchange_lem :
      (i j : ℕ) (x : List A)
      → i < length x
      → j < length x
      → (y : List A) × (exchange i j x ≡ some y)
        × (length y ≡ length x)
        × ((p : ℕ) → get_elem? y p ≡ get_elem? x (swapped i j p))
  unfolding exchange
  exchange_lem i j x h k =
      let (t, et) = get_elem?_of_lt x i h in
      let (u, eu) = get_elem?_of_lt x j k in
      (
        set (set x i u) j t,
        rw (et, eu),
        length-set (set x i u) j t ∙ length-set x i u,
        set-set-swapped i j x t u et eu h k,
      )

pub source_moved : (b i p : ℕ) → (p < i) ⊎ (reversed b p < i) → source b i p ≡ reversed b p
unfolding source
source_moved b i p h = ground arith

pub source_kept : (b i p : ℕ) → i ≤ p → i ≤ reversed b p → source b i p ≡ p
unfolding source
source_kept b i p h k = ground arith

-- Away from the index of the round and its reversed index, the round changes nothing.
source_same : (b i p : ℕ) → p ≢ i → reversed b p ≢ i → source b i p ≡ source b (suc i) p
unfolding source
source_same b i p h k = ground (arith, h, k)

swapped_same : (i j p : ℕ) → p ≢ i → p ≢ j → swapped i j p ≡ p
unfolding swapped
swapped_same i j p h k = ground (arith, h, k)

partner : (b i p : ℕ) → p < pow2 b → p ≢ reversed b i → reversed b p ≢ i
partner b i p l n e = n (sym (reversed_twice b p l) ∙ ap (reversed b) e)

swapped_first : (i j : ℕ) → swapped i j i ≡ j
unfolding swapped
swapped_first i j = ground arith

swapped_second : (i j : ℕ) → swapped i j j ≡ i
unfolding swapped
swapped_second i j = ground arith

pub source_step :
    (b i p : ℕ)
    → i < reversed b i
    → p < pow2 b
    → i < pow2 b
    → source b i (swapped i (reversed b i) p) ≡ source b (suc i) p
source_step b i p h l k =
    let back = reversed_twice b i k in
    elim (ℕ_discrete p i) [
      | yes e ↦
          subst (λ (p : ℕ). source b i (swapped i (reversed b i) p) ≡ source b (suc i) p) (sym e)
            (ap (source b i) (swapped_first i (reversed b i))
              ∙ source_kept b i (reversed b i) (omega arith) (omega arith)
              ∙ sym (source_moved b (suc i) i (inl (omega arith))))
      | no n ↦ elim (ℕ_discrete p (reversed b i)) [
        | yes e ↦
            subst (λ (p : ℕ). source b i (swapped i (reversed b i) p) ≡ source b (suc i) p) (sym e)
              (ap (source b i) (swapped_second i (reversed b i))
                ∙ source_kept b i i (omega arith) (omega arith)
                ∙ sym (source_moved b (suc i) (reversed b i) (inr (omega arith)) ∙ back))
        | no m ↦
            ap (source b i) (swapped_same i (reversed b i) p n m)
            ∙ source_same b i p n (partner b i p l m)
      ]
    ]

pub swapped-lt : (b i p : ℕ) → i < pow2 b → p < pow2 b → swapped i (reversed b i) p < pow2 b
unfolding swapped
swapped-lt b i p h k = ground (arith, reversed-lt b i)

settled : (b i : ℕ) → reversed b i ≤ i → source b i i ≡ reversed b i
settled b i h = elim (dec_lt (reversed b i) i) [
  | yes p ↦ source_moved b i i (inr p)
  | no p ↦ source_kept b i i (omega arith) (omega arith) ∙ omega arith
]

pub source_stay :
    (b i p : ℕ) → reversed b i ≤ i → p < pow2 b → i < pow2 b → source b i p ≡ source b (suc i) p
source_stay b i p h l k =
    let back = reversed_twice b i k in
    elim (ℕ_discrete p i) [
      | yes e ↦
          subst (λ (p : ℕ). source b i p ≡ source b (suc i) p) (sym e)
            (settled b i h ∙ sym (source_moved b (suc i) i (inl (omega arith))))
      | no n ↦ elim (ℕ_discrete p (reversed b i)) [
        | yes e ↦
            subst (λ (p : ℕ). source b i p ≡ source b (suc i) p) (sym e)
              (source_moved b i (reversed b i) (inl (omega arith))
                ∙ sym (source_moved b (suc i) (reversed b i) (inl (omega arith))))
        | no m ↦ source_same b i p n (partner b i p l m)
      ]
    ]
