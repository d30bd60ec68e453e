-- ===== src/Context.antt =====
-- wenet/runtime/core/decoder/context_graph.cc: `SplitContextToUnits`. `find` is the symbol table's
-- `Find`, whose -1 is `none`; the units are what it returns.
pub mod Units
pub mod Spelling
pub mod Graph
mod Tests
use wenet_android.Prelude.{
  ℕ, zero, suc, ◌+◌, ◌*◌, Bool, true, false, ◌&&◌, Option, none, some, List, [], ◌∷◌, ◌++◌, arith,
  ◌==◌, if◌then◌else◌, length, take, drop, ◌>>=◌, bytes_eq, concat,
}
use wenet_android.Text.Utf8.{Bytes, is_alpha, split_utf8_string_to_chars}
use wenet_android.Text.Blank.{space_symbol, space}

-- `unit[0]`, which is 0 in an empty string.
unfoldable pub first_byte : Bytes → ℕ
first_byte [] = 0
first_byte (c ∷ s) = c

-- The characters as one unit, marked if it is the beginning of an English word.
unfoldable pub unit_of : Bool → List Bytes → Bytes
unit_of beginning chars =
    let unit = concat chars in if is_alpha unit && beginning then space_symbol ++ unit else unit

-- How a round of the outer loop ends: with the unit of the first `k` characters, with the space
-- symbol alone, behind a space, or behind a character that is in no unit.
pub data Match : Type 0 where
  takes : ℕ → ℕ → Match
  marks : Match
  spaces : Match
  misses : Match

unfoldable pub single : Bytes → Match
single unit =
    if first_byte unit == first_byte space_symbol
    then marks
    else if bytes_eq unit (space ∷ [])
    then spaces
    else misses

module _ (find : Bytes → Option ℕ) where
  -- The inner loop, from `end` = `start` + `k` + 1 down.
  unfoldable pub match_unit : ℕ → Bool → List Bytes → Match
  match_unit zero beginning chars =
      let unit = unit_of beginning (take 1 chars) in
      elim (find unit) [ some id ↦ takes id 1 | none ↦ single unit ]
  match_unit (suc k) beginning chars =
      let shorter = match_unit k beginning chars in
      elim (find (unit_of beginning (take (suc (suc k)) chars))) [
        | some id ↦ takes id (suc (suc k))
        | none ↦ shorter
      ]

  -- The outer loop, over the characters from `start` on: the units, and `no_oov`.
  unfoldable pub split_units : ℕ → Bool → List Bytes → Option (List (Option ℕ) × Bool)
  split_units fuel beginning [] = some ([], true)
  split_units zero beginning (c ∷ chars) = none
  split_units (suc fuel) beginning (c ∷ chars) =
      elim (match_unit (length chars) beginning (c ∷ chars)) [
        | takes id k ↦ split_units fuel false (drop k (c ∷ chars)) >>= λ (units, no_oov).
            some (some id ∷ units, no_oov)
        | marks ↦ split_units fuel false (c ∷ chars) >>= λ (units, no_oov).
            some (find space_symbol ∷ units, no_oov)
        | spaces ↦ split_units fuel true chars
        | misses ↦ split_units fuel beginning chars >>= λ (units, no_oov). some (units, false)
      ]

  unfoldable pub split_context_to_units : ℕ → Bytes → Option (List (Option ℕ) × Bool)
  split_context_to_units fuel context = split_utf8_string_to_chars context >>= split_units fuel true
