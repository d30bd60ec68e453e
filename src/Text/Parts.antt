-- ===== src/Text/Parts.antt =====
-- utils/string.cc: `SplitStringToVector`, `SplitString`, `JoinString` and `JoinPath`.
pub mod RoundTrip
pub mod Omit
use wenet_android.Prelude.{
  ℕ, zero, suc, ◌+◌, Bool, true, false, not, ◌&&◌, ◌||◌, Option, none, some, List, [], ◌∷◌, ◌++◌,
  ◌==◌, if◌then◌else◌, length, take, drop, elem,
}
use wenet_android.Text.Utf8.{Bytes}
use wenet_android.Text.Trim.{trim}

unfoldable pub find_first_of : Bytes → Bytes → Option ℕ
find_first_of delim [] = none
find_first_of delim (c ∷ s) =
    let later = find_first_of delim s in
    if elem c delim then some 0 else elim later [ none ↦ none | some i ↦ some (suc i) ]

-- `if (!omit_empty_strings || (found != start && start != end)) out->push_back(piece)`, where
-- `found != start` is tested by the caller.
unfoldable pub push_piece : Bool → Bool → Bool → Bytes → List Bytes → List Bytes
push_piece omit found_ne_start start_ne_end piece out =
    if not omit || (found_ne_start && start_ne_end) then out ++ piece ∷ [] else out

unfoldable pub is_empty : Bytes → Bool
is_empty [] = true
is_empty (c ∷ s) = false

-- The loop: `rest` is the text from `start` on. Each round but the last reads a delimiter.
unfoldable pub split_loop : ℕ → Bytes → Bool → Bytes → List Bytes → List Bytes
split_loop zero delim omit rest out = out
split_loop (suc fuel) delim omit rest out = elim (find_first_of delim rest) [
  | none ↦ push_piece omit true (not (is_empty rest)) rest out
  | some k ↦
      split_loop fuel delim omit (drop (k + 1) rest)
        (push_piece omit (not (k == 0)) (not (is_empty rest)) (take k rest) out)
]

unfoldable pub split_string_to_vector : Bytes → Bytes → Bool → List Bytes
split_string_to_vector full delim omit = split_loop (length full + 1) delim omit full []

unfoldable pub split_string : Bytes → List Bytes
split_string str = split_string_to_vector (trim str) (32 ∷ 9 ∷ []) true

unfoldable pub join_loop : Bytes → List Bytes → Bytes → Bytes
join_loop c [] result = result
join_loop c (s ∷ []) result = result ++ s
join_loop c (s ∷ t ∷ strs) result = join_loop c (t ∷ strs) (result ++ (s ++ c))

unfoldable pub join_string : Bytes → List Bytes → Bytes
join_string c strs = join_loop c strs []

abbrev slash : ℕ
slash = b'/'

-- Whether the text is not empty and does not end in a slash.
unfoldable pub needs_slash : Bytes → Bool
needs_slash [] = false
needs_slash (c ∷ []) = not (c == slash)
needs_slash (c ∷ d ∷ s) = needs_slash (d ∷ s)

unfoldable pub join_path : Bytes → Bytes → Bytes
join_path left right = (if needs_slash left then left ++ slash ∷ [] else left) ++ right
