-- ===== src/Text/Trim.antt =====
-- utils/string.cc: `Ltrim`, `Rtrim`, `Trim`.
pub mod Laws
use wenet_android.Prelude.{
  ℕ, zero, suc, ◌+◌, ◌≤◌, ◌<◌, ◌≡◌, refl, ap, ◌∙◌, sym, inl, inr, Bool, true, false, ◌||◌, Option,
  none, some, List, [], ◌∷◌, ◌++◌, arith, ◌==◌, if◌then◌else◌, length, take, drop, All, Bool-cases,
  append-nil, take-append-drop, Option-cases, append_assoc,
}
use wenet_android.Text.Utf8.{Bytes}

-- WHITESPACE, " \n\r\t\f\v".
unfoldable pub is_whitespace : ℕ → Bool
is_whitespace c = c == 32 || c == 10 || c == 13 || c == 9 || c == 12 || c == 11

unfoldable pub find_first_not_ws : Bytes → Option ℕ
find_first_not_ws [] = none
find_first_not_ws (c ∷ s) =
    let later = find_first_not_ws s in
    if is_whitespace c then elim later [ none ↦ none | some i ↦ some (suc i) ] else some 0

unfoldable pub find_last_not_ws : Bytes → Option ℕ
find_last_not_ws [] = none
find_last_not_ws (c ∷ s) = elim (find_last_not_ws s) [
  | none ↦ if is_whitespace c then none else some 0
  | some i ↦ some (suc i)
]

unfoldable pub ltrim : Bytes → Bytes
ltrim str = elim (find_first_not_ws str) [ none ↦ [] | some start ↦ drop start str ]

unfoldable pub rtrim : Bytes → Bytes
rtrim str = elim (find_last_not_ws str) [ none ↦ [] | some end ↦ take (end + 1) str ]

unfoldable pub trim : Bytes → Bytes
trim str = rtrim (ltrim str)

abbrev pub AllBlank : Bytes → Type 0
AllBlank = All (λ c. is_whitespace c ≡ true)

-- The first byte, if any, is no white space.
abbrev pub StartsBare : Bytes → Type 0
StartsBare [] = Unit
StartsBare (c ∷ s) = is_whitespace c ≡ false

abbrev pub EndsBare : Bytes → Type 0
EndsBare [] = Unit
EndsBare (c ∷ []) = is_whitespace c ≡ false
EndsBare (c ∷ d ∷ s) = EndsBare (d ∷ s)
