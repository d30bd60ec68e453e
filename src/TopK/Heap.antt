-- ===== src/TopK/Heap.antt =====
-- What the priority queue of `TopK` holds after each round.
use native.Mathlib.Decide.{dec_lt}
use wenet_android.Prelude.{
  Chain, ◌<◌, some, get_elem?, ℕ, suc, ◌≡◌, refl, ap, sym, ◌≢◌, ◌⊎◌, inl, inr, true, false, List,
  [], ◌∷◌, arith, length, All, All-map_of, Bool-cases,
}
use wenet_android.Prelude.Float.{Float, IsOrdered}
use wenet_android.TopK.{Item, value_comp, push, fill}

module _ {F : Type 0} where
  -- The index occurs among the items.
  abbrev pub Has : ℕ → List (F × ℕ) → Type 0
  Has i [] = ⊥
  Has i ((v, j) ∷ items) = (i ≡ j) ⊎ Has i items

  -- No two items have the same index.
  abbrev pub IsDistinct : List (F × ℕ) → Type 0
  IsDistinct items = Chain (λ x y. y.1 ≢ x.1) items

module _ {f : Float} (o : IsOrdered f) where
  -- No item is smaller than `v`.
  abbrev pub AtLeast : f.F → List (Item f) → Type 0
  AtLeast v items = All (λ item. f.lt item.0 v ≡ false) items

  -- Every item is at least the one before it.
  abbrev pub IsAscending : List (Item f) → Type 0
  IsAscending items = Chain (λ x y. f.lt y.0 x.0 ≡ false) items

  pub ge_trans : (a b c : f.F) → f.lt a b ≡ false → f.lt b c ≡ false → f.lt a c ≡ false
  ge_trans a b c h k = elim (Bool-cases (f.lt a c)) [
    | inr e ↦ e
    | inl e ↦ elim (o.lt_split a b c e) [ inl l ↦ cc | inr r ↦ cc ]
  ]

  pub lt_asym : (a b : f.F) → f.lt a b ≡ true → f.lt b a ≡ false
  lt_asym a b h = elim (Bool-cases (f.lt b a)) [
    | inr e ↦ e
    | inl e ↦ let t = o.lt_trans a b a h e in let u = o.lt_irrefl a in cc
  ]

  value_comp_le : (x y : Item f) → value_comp f y x ≡ true → f.lt y.0 x.0 ≡ false
  unfolding value_comp
  value_comp_le (a, i) (b, j) h = let t = lt_asym a b in ground arith

  value_comp_ge : (x y : Item f) → value_comp f y x ≡ false → f.lt x.0 y.0 ≡ false
  unfolding value_comp
  value_comp_ge (a, i) (b, j) h = ground arith

  module _ (P : Item f → Type 0) where
    push-All : (x : Item f) (pq : List (Item f)) → P x → All P pq → All P (push f x pq)
    unfolding push
    push-All x [] px _ = (px, tt)
    push-All x (y ∷ pq) px (py, ps) = elim (Bool-cases (value_comp f y x)) [
      | inl e ↦ rw e (px, (py, ps))
      | inr e ↦ rw e (py, push-All x pq px ps)
    ]

    pub fill-All : (pq filled : List (Item f)) → All P pq → All P filled → All P (fill f pq filled)
    unfolding fill
    fill-All [] filled _ h = h
    fill-All (x ∷ pq) filled (p, ps) h = fill-All pq (x ∷ filled) ps (p, h)

  push-IsAscending : (x : Item f) (pq : List (Item f)) → IsAscending pq → IsAscending (push f x pq)
  unfolding push
  push-IsAscending x [] h = (tt, tt)
  push-IsAscending x (y ∷ pq) (above, h) = elim (Bool-cases (value_comp f y x)) [
    | inl e ↦
        let le = value_comp_le x y e in
        rw e ((le, All-map_of (λ z k. ge_trans z.0 y.0 x.0 k le) pq above), (above, h))
    | inr e ↦ rw e (
      push-All (λ z. f.lt z.0 y.0 ≡ false) x pq (value_comp_ge x y e) above,
      push-IsAscending x pq h,
    )
  ]

  push-IsDistinct :
      (x : Item f) (pq : List (Item f))
      → All (λ item. item.1 ≢ x.1) pq
      → IsDistinct pq
      → IsDistinct (push f x pq)
  unfolding push
  push-IsDistinct x [] new h = (tt, tt)
  push-IsDistinct x (y ∷ pq) (ne, new) (apart, h) = elim (Bool-cases (value_comp f y x)) [
    | inl e ↦ rw e ((ne, new), (apart, h))
    | inr e ↦
        rw e (push-All (λ z. z.1 ≢ y.1) x pq (λ k. ne (sym k)) apart, push-IsDistinct x pq new h)
  ]

  push-Has : (i : ℕ) (x : Item f) (pq : List (Item f)) → Has i (x ∷ pq) → Has i (push f x pq)
  unfolding push
  push-Has i x [] h = h
  push-Has i x (y ∷ pq) h = elim (Bool-cases (value_comp f y x)) [
    | inl e ↦ rw e h
    | inr e ↦ rw e (elim h [
      | inl here ↦ inr (push-Has i x pq (inl here))
      | inr (inl next) ↦ inl next
      | inr (inr later) ↦ inr (push-Has i x pq (inr later))
    ])
  ]

  pub push-length : (x : Item f) (pq : List (Item f)) → length (push f x pq) ≡ suc (length pq)
  unfolding push
  push-length x [] = refl
  push-length x (y ∷ pq) = elim (Bool-cases (value_comp f y x)) [
    | inl e ↦ rw e
    | inr e ↦ rw e (ap suc (push-length x pq))
  ]

  -- What the queue holds after the first `m` of the values.
  pub record IsHeap (values : List f.F) (m : ℕ) (pq : List (Item f)) : Type 0 where
    pub entries : All (λ item. get_elem? values item.1 ≡ some item.0) pq
    pub below : All (λ item. item.1 < m) pq
    pub distinct : IsDistinct pq
    pub ascending : IsAscending pq
    pub best : (i : ℕ) (v : f.F) → i < m → get_elem? values i ≡ some v → Has i pq ⊎ AtLeast v pq

  push_new :
      (values : List f.F) (m : ℕ) (x : f.F) (pq : List (Item f))
      → get_elem? values m ≡ some x
      → All (λ item. get_elem? values item.1 ≡ some item.0) pq
      → All (λ item. item.1 < m) pq
      → IsDistinct pq
      → IsAscending pq
      → All (λ item. get_elem? values item.1 ≡ some item.0) (push f (x, m) pq)
        × All (λ item. item.1 < suc m) (push f (x, m) pq)
        × IsDistinct (push f (x, m) pq)
        × IsAscending (push f (x, m) pq)
  push_new values m x pq e entries below distinct ascending = (
    push-All (λ item. get_elem? values item.1 ≡ some item.0) (x, m) pq e entries,
    push-All (λ item. item.1 < suc m) (x, m) pq (omega arith)
        (All-map_of (λ item (h : item.1 < m). omega arith) pq below),
    push-IsDistinct (x, m) pq
        (All-map_of {Q = λ item. item.1 ≢ m} (λ item (h : item.1 < m) k. omega arith) pq below)
        distinct,
    push-IsAscending (x, m) pq ascending,
  )

  -- The first phase: every value so far is in the queue.
  pub first-IsHeap :
      (values : List f.F) (m : ℕ) (x : f.F) (pq : List (Item f))
      → get_elem? values m ≡ some x
      → IsHeap values m pq
      → ((i : ℕ) → i < m → Has i pq)
      → IsHeap values (suc m) (push f (x, m) pq) × ((i : ℕ) → i < suc m → Has i (push f (x, m) pq))
  first-IsHeap values m x pq e h all_in =
      let (entries, below, distinct, ascending) =
        push_new values m x pq e h.entries h.below h.distinct h.ascending in
      let all_in' : (i : ℕ) → i < suc m → Has i (push f (x, m) pq) =
        λ i lt. push-Has i (x, m) pq (first_in i lt) in
      (
        record {
          entries = entries;
          below = below;
          distinct = distinct;
          ascending = ascending;
          best = λ i v lt k. inl (all_in' i lt);
        },
        all_in',
      )
    where
      first_in : (i : ℕ) → i < suc m → Has i ((x, m) ∷ pq)
      first_in i lt = elim (dec_lt i m) [ yes l ↦ inr (all_in i l) | no n ↦ inl (omega arith) ]

  -- The second phase, where the value takes the place of the top.
  pub replaced-IsHeap :
      (values : List f.F) (m : ℕ) (x top : f.F) (j : ℕ) (pq : List (Item f))
      → get_elem? values m ≡ some x
      → IsHeap values m ((top, j) ∷ pq)
      → f.lt top x ≡ true
      → IsHeap values (suc m) (push f (x, m) pq)
  replaced-IsHeap values m x top j pq e h lt =
      let (entries, below, distinct, ascending) =
        push_new values m x pq e h.entries.1 h.below.1 h.distinct.1 h.ascending.1 in
      record {
        entries = entries;
        below = below;
        distinct = distinct;
        ascending = ascending;
        best = λ i v small k. elim (dec_lt i m) [
          | no n ↦ inl (push-Has i (x, m) pq (inl (omega arith)))
          | yes l ↦ elim (h.best i v l k) [
            | inl (inl here) ↦
                let same : v ≡ top = ground (arith, h.entries.0) in
                inr (
                  rw same (
                    push-All (λ z. f.lt z.0 top ≡ false) (x, m) pq (lt_asym top x lt)
                      h.ascending.0))
            | inl (inr later) ↦ inl (push-Has i (x, m) pq (inr later))
            | inr (ge_top, ge_rest) ↦
                let ge = ge_trans x top v (lt_asym top x lt) ge_top in
                inr (push-All (λ z. f.lt z.0 v ≡ false) (x, m) pq ge ge_rest)
          ]
        ];
      }

  pub kept-IsHeap :
      (values : List f.F) (m : ℕ) (x top : f.F) (j : ℕ) (pq : List (Item f))
      → get_elem? values m ≡ some x
      → IsHeap values m ((top, j) ∷ pq)
      → f.lt top x ≡ false
      → IsHeap values (suc m) ((top, j) ∷ pq)
  kept-IsHeap values m x top j pq e h ge = record {
    entries = h.entries;
    below = All-map_of (λ item (h : item.1 < m). omega arith) ((top, j) ∷ pq) h.below;
    distinct = h.distinct;
    ascending = h.ascending;
    best = λ i v small k. elim (dec_lt i m) [
      | yes l ↦ h.best i v l k
      | no n ↦
          let at_m : i ≡ m = omega arith in
          let same : v ≡ x = ground (arith, e) in
          inr (
            rw same ge,
            All-map_of {Q = λ item. f.lt item.0 v ≡ false}
                (λ item g. rw same (ge_trans item.0 top x g ge)) pq h.ascending.0,
          )
    ];
  }
