-- ===== src/TopK.antt =====
-- wenet/runtime/core/utils/utils.cc: `LogAdd`, and `TopK`, the largest entries of a vector by a
-- priority queue. The queue is the list of its entries, the top in front.
pub mod Heap
pub mod Best
mod Tests
use wenet_android.Prelude.{
  ℕ, zero, suc, ◌+◌, Bool, not, ◌&&◌, ◌||◌, Option, none, some, List, [], ◌∷◌, arith, ltb,
  if◌then◌else◌, drop, ◌>>=◌,
}
use wenet_android.Prelude.Float.{Float}

module _ (f : Float) where
  -- An entry and its index.
  abbrev pub Item : Type 0
  Item = f.F × ℕ

  unfoldable pub log_add : f.F → f.F → f.F
  log_add x y =
      if not (f.lt f.lowest x)
      then y
      else if not (f.lt f.lowest y)
      then x
      else (let xmax = if f.lt x y then y else x in
          f.add (f.log (f.add (f.exp (f.sub x xmax)) (f.exp (f.sub y xmax)))) xmax)

  -- `ValueComp`: the queue's top is the smallest entry, and of equal ones the last.
  unfoldable pub value_comp : Item → Item → Bool
  value_comp (a, i) (b, j) = f.lt b a || (not (f.lt a b) && not (f.lt b a) && ltb i j)

  unfoldable pub push : Item → List Item → List Item
  push x [] = x ∷ []
  push x (y ∷ pq) = if value_comp y x then x ∷ y ∷ pq else y ∷ push x pq

  -- The first `k` entries.
  unfoldable pub heap_data : ℕ → ℕ → List f.F → List Item → List Item
  heap_data i zero values pq = pq
  heap_data i (suc k) [] pq = pq
  heap_data i (suc k) (x ∷ values) pq = heap_data (suc i) k values (push (x, i) pq)

  -- The entries after them. The top of an empty queue is `none`.
  unfoldable pub replace_loop : ℕ → List f.F → List Item → Option (List Item)
  replace_loop i [] pq = some pq
  replace_loop i (x ∷ values) [] = none
  replace_loop i (x ∷ values) ((top, j) ∷ pq) =
      let pq' = if f.lt top x then push (x, i) pq else (top, j) ∷ pq in
      replace_loop (suc i) values pq'

  -- `values` and `indices` are filled from the back.
  unfoldable pub fill : List Item → List Item → List Item
  fill [] filled = filled
  fill (item ∷ pq) filled = fill pq (item ∷ filled)

  unfoldable pub top_k : List f.F → ℕ → Option (List Item)
  top_k values k = do
    pq ← replace_loop k (drop k values) (heap_data 0 k values [])
    some (fill pq [])
