-- ===== src/Context/Units.antt =====
-- context_graph.cc: `SplitContextToUnits` ends with units that spell the context, or it never ends.
use wenet_android.Prelude.{
  ℕ, zero, suc, ◌≤◌, ◌<◌, ◌≡◌, ◌≢◌, refl, ap, ◌∙◌, Bool, true, false, ◌&&◌, Option, none, some,
  List, [], ◌∷◌, ◌++◌, arith, ◌==◌, if◌then◌else◌, length, take, drop, bytes_eq, bytes_eq_sound,
  concat, All, inl, inr, Bool-cases, if_cases, Option-cases, append_assoc, All-append,
}
use wenet_android.Text.Utf8.{Bytes, is_alpha}
use wenet_android.Text.Blank.{space_symbol, space}
use wenet_android.Context.{
  first_byte, unit_of, Match, takes, marks, spaces, misses, single, match_unit,
}

-- A text without the spaces.
unfoldable pub bare : Bytes → Bytes
bare [] = []
bare (c ∷ s) = if c == space then bare s else c ∷ bare s

-- A unit without the mark of a word's beginning.
unfoldable pub unmarked : Bytes → Bytes
unmarked u = if bytes_eq (take 3 u) space_symbol then drop 3 u else u

-- The text of the units, by what the symbol table says of each.
unfoldable pub said : (ℕ → Bytes) → List (Option ℕ) → Bytes
said spell [] = []
said spell (none ∷ units) = said spell units
said spell (some id ∷ units) = unmarked (spell id) ++ said spell units

-- No byte is the first one of the space symbol.
abbrev pub Plain : Bytes → Type 0
Plain = All (λ c. c ≢ 0xe2)

pub bare-append : (s t : Bytes) → bare (s ++ t) ≡ bare s ++ bare t
unfolding bare
bare-append [] t = refl
bare-append (c ∷ s) t = ground (arith, bare-append s t)

pub concat-take-drop :
    (n : ℕ) (chars : List Bytes) → concat (take n chars) ++ concat (drop n chars) ≡ concat chars
concat-take-drop zero chars = refl
concat-take-drop (suc n) [] = refl
concat-take-drop (suc n) (c ∷ chars) =
    append_assoc c (concat (take n chars)) (concat (drop n chars))
    ∙ ap (λ t. c ++ t) (concat-take-drop n chars)

pub concat-take-Plain :
    (n : ℕ) (chars : List Bytes) → All Plain chars → Plain (concat (take n chars))
concat-take-Plain zero chars h = tt
concat-take-Plain (suc n) [] h = tt
concat-take-Plain (suc n) (c ∷ chars) (p, h) =
    All-append (λ c. c ≢ 0xe2) c (concat (take n chars)) p (concat-take-Plain n chars h)

pub All-drop {ℓ κ} :
    {A : Type ℓ} (P : A → Type κ) (n : ℕ) (xs : List A) → All P xs → All P (drop n xs)
All-drop P zero xs h = h
All-drop P (suc n) [] h = tt
All-drop P (suc n) (x ∷ xs) (p, h) = All-drop P n xs h

first_byte-ne : (u : Bytes) → Plain u → (first_byte u == first_byte space_symbol) ≡ false
unfolding first_byte
first_byte-ne [] h = refl
first_byte-ne (c ∷ u) (n, h) = ground (arith, n)

unmarked-Plain : (u : Bytes) → Plain u → unmarked u ≡ u
unfolding unmarked
unmarked-Plain [] h = refl
unmarked-Plain (c ∷ u) (n, h) = elim (Bool-cases (c == 0xe2)) [
  | inl e ↦ absurd (n (ground arith))
  | inr e ↦ rw e
]

-- The mark in front of a unit is all that `unit_of` adds.
pub unmarked-unit_of :
    (b : Bool) (chars : List Bytes)
    → Plain (concat chars)
    → unmarked (unit_of b chars) ≡ concat chars
unfolding unmarked unit_of
unmarked-unit_of b chars h = elim (Bool-cases (is_alpha (concat chars) && b)) [
  | inl e ↦ rw e
  | inr e ↦ rw e (unmarked-Plain (concat chars) h)
]

and_right : (a b : Bool) → (a && b) ≡ true → b ≡ true
and_right true b e = e
and_right false b e = cc

module _ (find : Bytes → Option ℕ) where
  -- What a round of the outer loop knows of the characters that it ends with.
  abbrev pub Fit : Bool → List Bytes → Match → Type 0
  Fit b chars (takes id n) =
      (0 < n) × (n ≤ length chars) × (find (unit_of b (take n chars)) ≡ some id)
  Fit b chars marks = b ≡ true
  Fit b chars spaces = concat (take 1 chars) ≡ space ∷ []
  Fit b chars misses = Unit {0}

  single-Fit :
      (b : Bool) (chars : List Bytes)
      → Plain (concat (take 1 chars))
      → Fit b chars (single (unit_of b (take 1 chars)))
  unfolding single unit_of first_byte
  single-Fit b chars h = elim (Bool-cases (is_alpha (concat (take 1 chars)) && b)) [
    | inl e ↦ rw e (and_right (is_alpha (concat (take 1 chars))) b e)
    | inr e ↦
        rw (e, first_byte-ne (concat (take 1 chars)) h)
          (if_cases (Fit b chars) (bytes_eq (concat (take 1 chars)) (space ∷ []))
            (bytes_eq_sound _ _) (λ _. tt))
  ]

  pub match_unit-Fit :
      (k : ℕ) (b : Bool) (chars : List Bytes)
      → k < length chars
      → All Plain chars
      → Fit b chars (match_unit find k b chars)
  unfolding match_unit
  match_unit-Fit zero b chars h plain = elim (Option-cases (find (unit_of b (take 1 chars)))) [
    | inl e ↦ rw (e, match_unit) (single-Fit b chars (concat-take-Plain 1 chars plain))
    | inr (id, e) ↦ rw (e, match_unit) (omega arith, h, e)
  ]
  match_unit-Fit (suc k) b chars h plain =
      elim (Option-cases (find (unit_of b (take (suc (suc k)) chars)))) [
        | inl e ↦ rw (e, match_unit) (match_unit-Fit k b chars (omega arith) plain)
        | inr (id, e) ↦ rw (e, match_unit) (omega arith, h, e)
      ]
