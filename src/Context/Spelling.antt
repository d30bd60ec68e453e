-- ===== src/Context/Spelling.antt =====
-- context_graph.cc: the outer loop of `SplitContextToUnits` on whole contexts.
use wenet_android.Prelude.{
  ℕ, zero, suc, ◌+◌, ◌*◌, ◌≤◌, ◌≡◌, refl, ap, sym, ◌∙◌, Bool, true, false, Option, none, some, List,
  [], ◌∷◌, arith, if◌then◌else◌, length, take, drop, concat, All, inl, inr, Option-cases,
  append-nil, length-drop,
}
use wenet_android.Text.Utf8.{Bytes, is_alpha, split_utf8_string_to_chars}
use wenet_android.Text.Utf8.Chars.{concat-split_utf8}
use wenet_android.Text.Blank.{space_symbol, space}
use wenet_android.Context.{
  first_byte, single, first_byte, single, is_alpha, unit_of, takes, marks, spaces, misses,
  match_unit, split_units, split_context_to_units,
}
use wenet_android.Context.Units.{
  bare, unmarked, said, Plain, bare-append, concat-take-drop, concat-take-Plain, All-drop,
  unmarked-unit_of, Fit, match_unit-Fit,
}

-- The rounds that the outer loop has left: a character costs two at most, the first one after a
-- space or at the beginning.
abbrev rounds : Bool → List Bytes → ℕ
rounds b chars = 2 * length chars + (if b then 1 else 0)

-- The symbol table is one: what it finds a number for is what that number stands for.
abbrev pub IsTable : (Bytes → Option ℕ) → (ℕ → Bytes) → Type 0
IsTable find spell = (unit : Bytes) (id : ℕ) → find unit ≡ some id → spell id ≡ unit

module _ (find : Bytes → Option ℕ) (spell : ℕ → Bytes) (table : IsTable find spell) where
  abbrev Spells : List Bytes → List (Option ℕ) × Bool → Type 0
  Spells chars r = r.1 ≡ true → bare (said spell r.0) ≡ bare (concat chars)

  takes-Spells :
      (b : Bool) (chars : List Bytes) (n id : ℕ) (units : List (Option ℕ)) (ok : Bool)
      → All Plain chars
      → find (unit_of b (take n chars)) ≡ some id
      → Spells (drop n chars) (units, ok)
      → Spells chars (some id ∷ units, ok)
  unfolding said
  takes-Spells b chars n id units ok plain found later good =
      let front = concat (take n chars) in
      let u : unmarked (spell id) ≡ front =
        ap unmarked (table (unit_of b (take n chars)) id found)
        ∙ unmarked-unit_of b (take n chars) (concat-take-Plain n chars plain) in
      rw (
        u,
        bare-append,
        later good,
        ← bare-append front (concat (drop n chars)),
        concat-take-drop n chars,
      )

  marks-Spells :
      (chars : List Bytes) (units : List (Option ℕ)) (ok : Bool)
      → Spells chars (units, ok)
      → Spells chars (find space_symbol ∷ units, ok)
  unfolding said unmarked
  marks-Spells chars units ok later good = elim (Option-cases (find space_symbol)) [
    | inl e ↦ rw e (later good)
    | inr (id, e) ↦ rw (e, table space_symbol id e) (later good)
  ]

  spaces-Spells :
      (c : Bytes) (chars : List Bytes) (r : List (Option ℕ) × Bool)
      → concat (take 1 (c ∷ chars)) ≡ space ∷ []
      → Spells chars r
      → Spells (c ∷ chars) r
  unfolding bare
  spaces-Spells c chars r e later good =
      let e' : c ≡ space ∷ [] = sym (append-nil c) ∙ e in rw e' (later good)

  -- Where no byte of the context is the first one of the space symbol, the loop ends in time, and
  -- if no character is unknown its units spell the context.
  split_units-Spells :
      (fuel : ℕ) (b : Bool) (chars : List Bytes)
      → rounds b chars ≤ fuel
      → All Plain chars
      → (r : List (Option ℕ) × Bool) × (split_units find fuel b chars ≡ some r) × Spells chars r
  unfolding split_units said
  split_units-Spells fuel b [] h plain = (([], true), refl, λ _. refl)
  split_units-Spells zero b (c ∷ chars) h plain = absurd (omega arith)
  split_units-Spells (suc fuel) b (c ∷ chars) h plain =
      (elim (match_unit find (length chars) b (c ∷ chars))
          as (λ m.
            match_unit find (length chars) b (c ∷ chars) ≡ m
            → Fit find b (c ∷ chars) m
            → (r : List (Option ℕ) × Bool) × (split_units find (suc fuel) b (c ∷ chars) ≡ some r)
              × Spells (c ∷ chars) r) [
                | takes id n ↦ λ e fit.
                    let later =
                      split_units-Spells fuel false (drop n (c ∷ chars))
                        (omega (arith, fit, length-drop n (c ∷ chars)))
                        (All-drop Plain n (c ∷ chars) plain) in
                    (
                      (some id ∷ later.0.0, later.0.1),
                      rw (e, split_units) (rw later.1),
                      takes-Spells b (c ∷ chars) n id later.0.0 later.0.1 plain fit.2 later.2,
                    )
                | marks ↦ λ e fit.
                    let later = split_units-Spells fuel false (c ∷ chars) (ground arith) plain in
                    (
                      (find space_symbol ∷ later.0.0, later.0.1),
                      rw (e, split_units) (rw later.1),
                      marks-Spells (c ∷ chars) later.0.0 later.0.1 later.2,
                    )
                | spaces ↦ λ e fit.
                    let later = split_units-Spells fuel true chars (omega arith) plain.1 in
                    (
                      later.0,
                      rw (e, split_units) (rw later.1),
                      spaces-Spells c chars later.0 fit later.2,
                    )
                | misses ↦ λ e fit.
                    let later = split_units-Spells fuel b chars (omega arith) plain.1 in
                    ((later.0.0, false), rw (e, split_units) (rw later.1), λ bad. cc)
              ])
        refl (match_unit-Fit find (length chars) b (c ∷ chars) (omega arith) plain)

  -- A context without the byte that begins the space symbol: `SplitContextToUnits` ends within two
  -- rounds for each character and one more, and if it reports no unknown character, then its
  -- units, without their marks, spell the context, spaces left out.
  pub split_context_to_units-spells :
      (context : Bytes) (chars : List Bytes)
      → split_utf8_string_to_chars context ≡ some chars
      → All Plain chars
      → (r : List (Option ℕ) × Bool) × (split_context_to_units find (2 * length chars + 1) context
          ≡ some r)
        × (r.1 ≡ true → bare (said spell r.0) ≡ bare context)
  unfolding split_context_to_units
  split_context_to_units-spells context chars e plain =
      let (r, found, spells) =
        split_units-Spells (2 * length chars + 1) true chars (omega arith) plain in
      (r, rw e found, λ good. spells good ∙ ap bare (concat-split_utf8 context chars e).0)

module _ (find : Bytes → Option ℕ) (s : Bytes) (chars : List Bytes) where
  -- The characters from one on that begins like the space symbol, and begins no unit.
  abbrev pub Unknown : Type 0
  Unknown = (n : ℕ) → find (concat (take (suc n) ((0xe2 ∷ s) ∷ chars))) ≡ none
