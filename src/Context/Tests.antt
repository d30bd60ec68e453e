-- ===== src/Context/Tests.antt =====
-- Contexts over a table of four units.
use wenet_android.Prelude.{
  ℕ, ◌+◌, ◌==◌, ◌*◌, ◌≡◌, refl, Bool, true, Option, none, some, List, [], ◌∷◌, ◌++◌, arith,
  bytes_eq, bytes_eq_sound, codes, if◌then◌else◌, length,
}
use wenet_android.Text.Utf8.{
  Bytes, split_utf8_string_to_chars, split_from, is_lead, lead_bytes, is_alpha,
}
use wenet_android.Text.Blank.{space_symbol}
use wenet_android.Context.{
  split_context_to_units, split_units, match_unit, unit_of, single, first_byte,
}
use wenet_android.Context.Units.{bare, said}
use wenet_android.Context.Spelling.{split_context_to_units-spells, IsTable}

-- The symbol, "hi" with the mark in front, "a" and "bc".
abbrev find : Bytes → Option ℕ
find u =
    if bytes_eq space_symbol u
    then some 1
    else if bytes_eq (space_symbol ++ codes "hi") u
    then some 2
    else if bytes_eq (codes "a") u
    then some 3
    else if bytes_eq (codes "bc") u
    then some 4
    else none

abbrev spell : ℕ → Bytes
spell id =
    if id == 1
    then space_symbol
    else if id == 2
    then space_symbol ++ codes "hi"
    else if id == 3
    then codes "a"
    else codes "bc"

find-IsTable : IsTable find spell
find-IsTable unit id e = ground (
  arith,
  bytes_eq_sound space_symbol unit,
  bytes_eq_sound (space_symbol ++ codes "hi") unit,
  bytes_eq_sound (codes "a") unit,
  bytes_eq_sound (codes "bc") unit,
)

abbrev hi_a_bc : Bytes
hi_a_bc = codes "hi abc"

abbrev hi_chars : List Bytes
hi_chars = codes "h" ∷ codes "i" ∷ codes " " ∷ codes "a" ∷ codes "b" ∷ codes "c" ∷ []

units_of_hi :
    split_context_to_units find 13 hi_a_bc ≡ some (some 2 ∷ some 1 ∷ some 3 ∷ some 4 ∷ [], true)
unfolding split_context_to_units split_utf8_string_to_chars split_from is_lead lead_bytes
    split_units match_unit unit_of is_alpha single first_byte
units_of_hi = refl

split_context_to_units-spells_example :
    (r : List (Option ℕ) × Bool) × (split_context_to_units find (2 * length hi_chars + 1) hi_a_bc
      ≡ some r)
    × (r.1 ≡ true → bare (said spell r.0) ≡ bare hi_a_bc)
unfolding split_utf8_string_to_chars split_from is_lead lead_bytes
split_context_to_units-spells_example =
    split_context_to_units-spells find spell find-IsTable hi_a_bc hi_chars refl (omega arith)
