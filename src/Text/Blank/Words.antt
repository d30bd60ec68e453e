-- ===== src/Text/Blank/Words.antt =====
-- What `ProcessBlank` leaves of a text without plain spaces: its words, one space between two.
use wenet_android.Prelude.{
  ℕ, ◌≡◌, refl, ap, ◌∙◌, sym, inl, inr, true, false, not, List, [], ◌∷◌, ◌++◌, arith, if◌then◌else◌,
  bytes_eq, All, append-nil, append_assoc, Bool-cases, All-append,
}
use wenet_android.Text.Utf8.{Bytes}
use wenet_android.Text.Parts.{join_string, is_empty}
use wenet_android.Text.Parts.RoundTrip.{Lacks, tail_of, spell, join-spell, tail_of-append}
use wenet_android.Text.Blank.{
  space_symbol, space, ends_in_word, ends_in_space, pop_back, blank_round, blank_loop,
  drop_tail_space, squeeze,
}

-- The runs of characters between the space symbols, less the empty ones; `word` is the run so far.
pub words_from : Bytes → List Bytes → List Bytes
words_from word [] = if is_empty word then [] else word ∷ []
words_from word (ch ∷ chars) =
    let go = words_from (word ++ ch) chars in
    let cut = words_from [] chars in
    if not (bytes_eq ch space_symbol) then go else if is_empty word then cut else word ∷ cut

unfoldable pub words : List Bytes → List Bytes
unfolding words_from is_empty
words chars = words_from [] chars

-- Every word with a space behind it.
spaced : List Bytes → Bytes
spaced [] = []
spaced (w ∷ ws) = w ++ (space ∷ spaced ws)

spaced-tail_of : (ws : List Bytes) → space ∷ spaced ws ≡ tail_of space ws ++ space ∷ []
unfolding spaced tail_of
spaced-tail_of [] = refl
spaced-tail_of (w ∷ ws) =
    ap (λ t. space ∷ (w ++ t)) (spaced-tail_of ws)
    ∙ ap (λ t. space ∷ t) (sym (append_assoc w (tail_of space ws) (space ∷ [])))

spaced-spell : (w : Bytes) (ws : List Bytes) → spaced (w ∷ ws) ≡ spell space (w ∷ ws) ++ space ∷ []
unfolding spaced spell
spaced-spell w ws =
    ap (λ t. w ++ t) (spaced-tail_of ws) ∙ sym (append_assoc w (tail_of space ws) (space ∷ []))

tail_of-snoc :
    (ws : List Bytes) (w : Bytes)
    → tail_of space ws ++ tail_of space (w ∷ []) ≡ (space ∷ spaced ws) ++ w
tail_of-snoc ws w =
    unfold tail_of in
    ap (λ t. tail_of space ws ++ space ∷ t) (append-nil w)
    ∙ sym (append_assoc (tail_of space ws) (space ∷ []) w)
    ∙ ap (λ t. t ++ w) (sym (spaced-tail_of ws))

spell-snoc : (ws : List Bytes) (w : Bytes) → spell space (ws ++ w ∷ []) ≡ spaced ws ++ w
unfolding spaced spell
spell-snoc [] w = unfold tail_of in append-nil w
spell-snoc (v ∷ ws) w =
    rw (tail_of-append space ws (w ∷ []), append_assoc) (ap (λ t. v ++ t) (tail_of-snoc ws w))

spaced-snoc : (ws : List Bytes) (w : Bytes) → (spaced ws ++ w) ++ space ∷ [] ≡ spaced (ws ++ w ∷ [])
unfolding spaced
spaced-snoc [] w = refl
spaced-snoc (v ∷ ws) w =
    simp append_assoc
      (ap (λ t. v ++ space ∷ t) (sym (append_assoc (spaced ws) w (space ∷ [])) ∙ spaced-snoc ws w))

ends_in_word-append :
    (r : Bytes) (c : ℕ) (w : Bytes) → ends_in_word (r ++ c ∷ w) ≡ ends_in_word (c ∷ w)
unfolding ends_in_word
ends_in_word-append [] c w = refl
ends_in_word-append (x ∷ []) c w = refl
ends_in_word-append (x ∷ y ∷ r) c w = ends_in_word-append (y ∷ r) c w

ends_in_space-append :
    (r : Bytes) (c : ℕ) (w : Bytes) → ends_in_space (r ++ c ∷ w) ≡ ends_in_space (c ∷ w)
unfolding ends_in_space
ends_in_space-append [] c w = refl
ends_in_space-append (x ∷ []) c w = refl
ends_in_space-append (x ∷ y ∷ r) c w = ends_in_space-append (y ∷ r) c w

word_ends :
    (c : ℕ) (w : Bytes)
    → Lacks space (c ∷ w)
    → (ends_in_word (c ∷ w) ≡ true) × (ends_in_space (c ∷ w) ≡ false)
unfolding ends_in_word ends_in_space
word_ends c [] (h, _) = ground arith
word_ends c (d ∷ w) (_, h) = word_ends d w h

pop_back-snoc : (r : Bytes) (c : ℕ) → pop_back (r ++ c ∷ []) ≡ r
unfolding pop_back
pop_back-snoc [] c = refl
pop_back-snoc (x ∷ []) c = refl
pop_back-snoc (x ∷ y ∷ r) c = ap (λ t. x ∷ t) (pop_back-snoc (y ∷ r) c)

-- A character that is not empty and holds no plain space.
abbrev pub IsPlain : Bytes → Type 0
IsPlain [] = ⊥
IsPlain (c ∷ ch) = Lacks space (c ∷ ch)

IsPlain-Lacks : (ch : Bytes) → IsPlain ch → Lacks space ch
IsPlain-Lacks [] h = absurd h
IsPlain-Lacks (c ∷ ch) h = h

drop_tail-nil : (ws : List Bytes) → drop_tail_space (spaced ws) ≡ spell space ws
drop_tail-nil [] = unfold drop_tail_space spaced spell ends_in_space in refl
drop_tail-nil (w ∷ ws) =
    let e = ends_in_space-append (spell space (w ∷ ws)) space [] in
    let p = pop_back-snoc (spell space (w ∷ ws)) space in
    rw (spaced-spell w ws) (unfold drop_tail_space in rw (e, p) (unfold ends_in_space in refl))

drop_tail-word :
    (r : Bytes) (c : ℕ) (w : Bytes)
    → Lacks space (c ∷ w)
    → drop_tail_space (r ++ c ∷ w) ≡ r ++ c ∷ w
unfolding drop_tail_space
drop_tail-word r c w h = rw (ends_in_space-append r c w, (word_ends c w h).1)

round_plain :
    (result ch : Bytes) → bytes_eq ch space_symbol ≡ false → blank_round result ch ≡ result ++ ch
unfolding blank_round
round_plain result ch e = rw e

spaced_quiet : (ws : List Bytes) → ends_in_word (spaced ws) ≡ false
spaced_quiet [] = unfold spaced ends_in_word in refl
spaced_quiet (w ∷ ws) =
    rw (spaced-spell w ws, ends_in_word-append (spell space (w ∷ ws)) space [])
      (unfold ends_in_word in refl)

-- One round at a space symbol.
round_symbol :
    (ws : List Bytes) (word ch : Bytes)
    → Lacks space word
    → bytes_eq ch space_symbol ≡ true
    → blank_round (spaced ws ++ word) ch
      ≡ (if is_empty word then spaced ws else spaced (ws ++ word ∷ []))
unfolding blank_round is_empty
round_symbol ws [] ch h e = rw (e, append-nil, spaced_quiet ws)
round_symbol ws (c ∷ w) ch h e =
    rw (e, ends_in_word-append (spaced ws) c w, (word_ends c w h).0) (spaced-snoc ws (c ∷ w))

loop_words :
    (chars ws : List Bytes) (word : Bytes)
    → Lacks space word
    → All IsPlain chars
    → drop_tail_space (blank_loop chars (spaced ws ++ word))
      ≡ spell space (ws ++ words_from word chars)
unfolding blank_loop words_from is_empty
loop_words [] ws [] h ok = rw (append-nil, append-nil) (drop_tail-nil ws)
loop_words [] ws (c ∷ w) h ok = rw (drop_tail-word (spaced ws) c w h) (sym (spell-snoc ws (c ∷ w)))
loop_words (ch ∷ chars) ws [] h (plain, ok) = elim (Bool-cases (bytes_eq ch space_symbol)) [
  | inl e ↦ rw (e, round_symbol ws [] ch h e) (rw append-nil at (loop_words chars ws [] tt ok))
  | inr e ↦
      rw (e, round_plain (spaced ws ++ []) ch e, append-nil)
        (loop_words chars ws ch (IsPlain-Lacks ch plain) ok)
]
loop_words (ch ∷ chars) ws (c ∷ w) h (plain, ok) = elim (Bool-cases (bytes_eq ch space_symbol)) [
  | inl e ↦
      rw (e, round_symbol ws (c ∷ w) ch h e)
        (rw (append-nil, append_assoc) at (loop_words chars (ws ++ (c ∷ w) ∷ []) [] tt ok))
  | inr e ↦
      rw (e, round_plain (spaced ws ++ c ∷ w) ch e, append_assoc)
        (loop_words chars ws ((c ∷ w) ++ ch) (All-append _ (c ∷ w) ch h (IsPlain-Lacks ch plain))
          ok)
]

-- A text without plain spaces is squeezed to its words, a single space between two of them, with
-- none at the ends.
pub squeeze-words :
    (chars : List Bytes)
    → All IsPlain chars
    → squeeze chars ≡ join_string (space ∷ []) (words chars)
unfolding squeeze words
squeeze-words chars ok =
    rw (join-spell space (words_from [] chars)) (unfold spaced in loop_words chars [] [] tt ok)
