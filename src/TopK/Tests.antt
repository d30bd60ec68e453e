-- ===== src/TopK/Tests.antt =====
-- `TopK` on a vector, and the theorem at it.
use wenet_android.Prelude.{
  false, ℕ, ◌≡◌, refl, ◌≢◌, ◌⊎◌, some, List, [], ◌∷◌, length, get_elem?, All, Chain, arith, min,
}
use wenet_android.Prelude.Int.{ℤ, pos, ltb_ℤ}
use wenet_android.Prelude.Float.{whole, whole-IsOrdered}
use wenet_android.TopK.{value_comp, push, fill, replace_loop, heap_data, Item, top_k}
use wenet_android.TopK.Heap.{Has, AtLeast}
use wenet_android.TopK.Best.{top_k_best}

abbrev scores : List ℤ
scores = pos 3 ∷ pos 7 ∷ pos 5 ∷ pos 7 ∷ []

two_best : top_k whole scores 2 ≡ some ((pos 7, 1) ∷ (pos 7, 3) ∷ [])
unfolding top_k heap_data replace_loop fill push value_comp
two_best = refl

top_k_best_example :
    (items : List (Item whole)) × (top_k whole scores 2 ≡ some items)
    × (length items ≡ min 2 4)
    × All (λ item. get_elem? scores item.1 ≡ some item.0) items
    × Chain (λ x y. x.1 ≢ y.1) items
    × Chain (λ x y. ltb_ℤ x.0 y.0 ≡ false) items
    × ((i : ℕ) (v : ℤ)
        → get_elem? scores i ≡ some v
        → Has i items ⊎ AtLeast whole-IsOrdered v items)
top_k_best_example = top_k_best whole-IsOrdered scores 2 (omega arith)
