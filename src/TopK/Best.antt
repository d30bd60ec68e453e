-- ===== src/TopK/Best.antt =====
-- `TopK` finds the largest entries.
use native.Mathlib.Decide.{dec_le}
use wenet_android.Prelude.{
  lt_of_get_elem?, false, ℕ, zero, suc, ◌+◌, ◌<◌, ◌≡◌, refl, ap, ◌∙◌, ◌≢◌, ◌⊎◌, inl, inr, some,
  List, [], ◌∷◌, arith, min, length, get_elem?, drop, All, All-map_of, Bool-cases, Chain,
  length-drop, get_elem?-drop,
}
use wenet_android.Prelude.Float.{Float, IsOrdered}
use wenet_android.TopK.{Item, push, heap_data, replace_loop, fill, top_k}
use wenet_android.TopK.Heap.{
  Has, IsHeap, AtLeast, push-length, fill-All, first-IsHeap, replaced-IsHeap, kept-IsHeap,
}

module _ (f : Float) where
  module _ (R : Item f → Item f → Type 0) where
    -- Filling from the back turns the order round.
    fill-Chain :
        (pq filled : List (Item f))
        → Chain R pq
        → Chain (λ x y. R y x) filled
        → All (λ y. All (R y) pq) filled
        → Chain (λ x y. R y x) (fill f pq filled)
    unfolding fill
    fill-Chain [] filled _ h _ = h
    fill-Chain (x ∷ pq) filled (first, chain) h across =
        fill-Chain pq (x ∷ filled) chain
          (All-map_of {Q = λ y. R y x} (λ y (k : All (R y) (x ∷ pq)). k.0) filled across, h)
          (
            first,
            All-map_of {Q = λ y. All (R y) pq} (λ y (k : All (R y) (x ∷ pq)). k.1) filled across,
          )

  fill-length : (pq filled : List (Item f)) → length (fill f pq filled) ≡ length pq + length filled
  unfolding fill
  fill-length [] filled = omega arith
  fill-length (x ∷ pq) filled = omega (arith, fill-length pq (x ∷ filled))

  fill-Has :
      (i : ℕ) (pq filled : List (Item f)) → Has i pq ⊎ Has i filled → Has i (fill f pq filled)
  unfolding fill
  fill-Has i [] filled (inl h) = absurd h
  fill-Has i [] filled (inr h) = h
  fill-Has i (x ∷ pq) filled (inl (inl here)) = fill-Has i pq (x ∷ filled) (inr (inl here))
  fill-Has i (x ∷ pq) filled (inl (inr later)) = fill-Has i pq (x ∷ filled) (inl later)
  fill-Has i (x ∷ pq) filled (inr h) = fill-Has i pq (x ∷ filled) (inr (inr h))

module _ {f : Float} (o : IsOrdered f) where
  heap_data_lem :
      (values : List f.F) (k m : ℕ) (rest : List f.F) (pq : List (Item f))
      → ((n : ℕ) → get_elem? rest n ≡ get_elem? values (m + n))
      → length pq ≡ m
      → IsHeap o values m pq
      → ((i : ℕ) → i < m → Has i pq)
      → IsHeap o values (m + min k (length rest)) (heap_data f m k rest pq)
        × (length (heap_data f m k rest pq) ≡ m + min k (length rest))
  unfolding heap_data
  heap_data_lem values zero m rest pq suffix len h all_in =
      let none_left : m + min 0 (length rest) ≡ m = omega arith in (rw none_left h, omega arith)
  heap_data_lem values (suc k) m [] pq suffix len h all_in =
      let none_left : m + min (suc k) 0 ≡ m = omega arith in (rw none_left h, omega arith)
  heap_data_lem values (suc k) m (x ∷ rest) pq suffix len h all_in =
      let e : get_elem? values m ≡ some x = ground (arith, suffix 0) in
      let (h', all_in') = first-IsHeap o values m x pq e h all_in in
      let next : (n : ℕ) → get_elem? rest n ≡ get_elem? values (suc m + n) =
        λ n. ground (arith, suffix (suc n)) in
      let (done, len') =
        heap_data_lem values k (suc m) rest (push f (x, m) pq) next
          (push-length o (x, m) pq ∙ ap suc len) h' all_in' in
      let count : m + min (suc k) (length (x ∷ rest)) ≡ suc m + min k (length rest) = omega arith in
      (rw count done, omega arith)

  replace_loop_lem :
      (values : List f.F) (m : ℕ) (rest : List f.F) (pq : List (Item f))
      → ((n : ℕ) → get_elem? rest n ≡ get_elem? values (m + n))
      → 0 < length pq
      → IsHeap o values m pq
      → (pq' : List (Item f)) × (replace_loop f m rest pq ≡ some pq')
        × IsHeap o values (m + length rest) pq'
        × (length pq' ≡ length pq)
  unfolding replace_loop
  replace_loop_lem values m [] pq suffix pos h =
      let none_left : m + 0 ≡ m = omega arith in (pq, refl, rw none_left h, refl)
  replace_loop_lem values m (x ∷ rest) [] suffix pos h = absurd (omega arith)
  replace_loop_lem values m (x ∷ rest) ((top, j) ∷ pq) suffix pos h =
      let e : get_elem? values m ≡ some x = ground (arith, suffix 0) in
      let next : (n : ℕ) → get_elem? rest n ≡ get_elem? values (suc m + n) =
        λ n. ground (arith, suffix (suc n)) in
      let count : m + length (x ∷ rest) ≡ suc m + length rest = omega arith in
      elim (Bool-cases (f.lt top x)) [
        | inl lt ↦
            let (pq', run, h', len) =
              replace_loop_lem values (suc m) rest (push f (x, m) pq) next
                (omega (arith, push-length o (x, m) pq))
                (replaced-IsHeap o values m x top j pq e h lt) in
            (pq', rw lt run, rw count h', omega (arith, push-length o (x, m) pq))
        | inr ge ↦
            let (pq', run, h', len) =
              replace_loop_lem values (suc m) rest ((top, j) ∷ pq) next (omega arith)
                (kept-IsHeap o values m x top j pq e h ge) in
            (pq', rw ge run, rw count h', len)
      ]

  nil_of_length : {A : Type 0} (xs : List A) → length xs ≡ 0 → xs ≡ []
  nil_of_length [] h = refl
  nil_of_length (x ∷ xs) h = absurd (omega arith)

  empty-IsHeap : (values : List f.F) → IsHeap o values 0 []
  empty-IsHeap values = record {
    entries = tt;
    below = tt;
    distinct = tt;
    ascending = tt;
    best = λ i v lt k. absurd (omega arith);
  }

  loops_lem :
      (values : List f.F) (k : ℕ)
      → 0 < k
      → (pq : List (Item f)) × (replace_loop f k (drop k values) (heap_data f 0 k values [])
          ≡ some pq)
        × IsHeap o values (length values) pq
        × (length pq ≡ min k (length values))
  loops_lem values k pos =
      let whole : (n : ℕ) → get_elem? values n ≡ get_elem? values (0 + n) =
        λ n. let e : 0 + n ≡ n = omega arith in rw e in
      let (first, len) =
        heap_data_lem values k 0 values [] whole refl (empty-IsHeap values)
          (λ i lt. absurd (omega arith)) in
      elim (dec_le k (length values)) [
        | yes le ↦
            let all : 0 + min k (length values) ≡ k = omega arith in
            let all' : k + length (drop k values) ≡ length values =
              omega (arith, length-drop k values) in
            let (pq, run, h, same) =
              replace_loop_lem values k (drop k values) (heap_data f 0 k values [])
                (λ n. get_elem?-drop k n values) (omega arith) (rw all at first) in
            (pq, run, rw all' at h, omega arith)
        | no n ↦
            let all : 0 + min k (length values) ≡ length values = omega arith in
            let over : drop k values ≡ [] =
              nil_of_length (drop k values) (omega (arith, length-drop k values)) in
            (
              heap_data f 0 k values [],
              rw over (unfold replace_loop in refl),
              rw all at first,
              omega arith,
            )
      ]

  -- For `k` above 0 `TopK` returns the `k` largest entries, or all if there are fewer: each with its
  -- own index, in descending order, and no entry that is left out is larger than one of them.
  pub top_k_best :
      (values : List f.F) (k : ℕ)
      → 0 < k
      → (items : List (Item f)) × (top_k f values k ≡ some items)
        × (length items ≡ min k (length values))
        × All (λ item. get_elem? values item.1 ≡ some item.0) items
        × Chain (λ x y. x.1 ≢ y.1) items
        × Chain (λ x y. f.lt x.0 y.0 ≡ false) items
        × ((i : ℕ) (v : f.F) → get_elem? values i ≡ some v → Has i items ⊎ AtLeast o v items)
  unfolding top_k
  top_k_best values k pos =
      let (pq, run, h, len) = loops_lem values k pos in
      (
        fill f pq [],
        rw run,
        omega (arith, fill-length f pq []),
        fill-All o (λ item. get_elem? values item.1 ≡ some item.0) pq [] h.entries tt,
        fill-Chain f (λ x y. y.1 ≢ x.1) pq [] h.distinct tt tt,
        fill-Chain f (λ x y. f.lt y.0 x.0 ≡ false) pq [] h.ascending tt tt,
        λ i v e. elim (h.best i v (lt_of_get_elem? values i v e) e) [
          | inl here ↦ inl (fill-Has f i pq [] (inl here))
          | inr above ↦ inr (fill-All o (λ item. f.lt item.0 v ≡ false) pq [] above tt)
        ],
      )
