-- ===== src/Text/Parts/RoundTrip.antt =====
-- Splitting and joining at one delimiter.
use mathlib.Core.List.{concat-ne-nil}
use native.Mathlib.Numerals.{add-one}
use wenet_android.Prelude.{
  ℕ, zero, suc, ◌+◌, ◌<◌, ◌≡◌, refl, ap, ◌∙◌, sym, ◌≢◌, inl, inr, false, none, some, List, [], ◌∷◌,
  ◌++◌, arith, length, take, drop, All, append-nil, append_assoc, take-append, length-append,
  length-drop, Option-cases,
}
use wenet_android.Text.Utf8.{Bytes}
use wenet_android.Text.Parts.{
  find_first_of, push_piece, split_loop, split_string_to_vector, join_loop, join_string,
}

abbrev tail : Bytes → Bytes
tail [] = []
tail (c ∷ s) = s

abbrev pub Lacks : ℕ → Bytes → Type 0
Lacks d = All (λ c. c ≢ d)

module _ (d : ℕ) where
  -- The parts behind the first, each behind a delimiter.
  unfoldable pub tail_of : List Bytes → Bytes
  tail_of [] = []
  tail_of (p ∷ ps) = d ∷ (p ++ tail_of ps)

  unfoldable pub spell : List Bytes → Bytes
  spell [] = []
  spell (p ∷ ps) = p ++ tail_of ps

  join_loop_lem :
      (s : Bytes) (ps : List Bytes) (result : Bytes)
      → join_loop (d ∷ []) (s ∷ ps) result ≡ result ++ spell (s ∷ ps)
  unfolding join_loop spell tail_of
  join_loop_lem s [] result = simp append-nil
  join_loop_lem s (t ∷ ps) result =
      join_loop_lem t ps (result ++ (s ++ d ∷ [])) ∙ unfold spell tail_of in simp append_assoc

  pub join-spell : (ps : List Bytes) → join_string (d ∷ []) ps ≡ spell ps
  unfolding join_string spell
  join-spell [] = unfold join_loop in refl
  join-spell (p ∷ ps) = join_loop_lem p ps []

  find-none : (p : Bytes) → Lacks d p → find_first_of (d ∷ []) p ≡ none
  unfolding find_first_of
  find-none [] h = refl
  find-none (c ∷ p) (h, hs) = ground (arith, find-none p hs)

  find-some :
      (p rest : Bytes) → Lacks d p → find_first_of (d ∷ []) (p ++ d ∷ rest) ≡ some (length p)
  unfolding find_first_of
  find-some [] rest h = ground arith
  find-some (c ∷ p) rest (h, hs) = ground (arith, find-some p rest hs)

  find_sound :
      (s : Bytes) (k : ℕ)
      → find_first_of (d ∷ []) s ≡ some k
      → (s ≡ take k s ++ d ∷ drop (suc k) s) × (k < length s)
  unfolding find_first_of
  find_sound [] k h = cc
  find_sound (c ∷ s) zero h = ground (arith, find_sound s 0)
  find_sound (c ∷ s) (suc k) h = ground (arith, find_sound s k)

  split_last :
      (fuel : ℕ) (rest : Bytes) (out : List Bytes)
      → find_first_of (d ∷ []) rest ≡ none
      → split_loop (suc fuel) (d ∷ []) false rest out ≡ out ++ rest ∷ []
  unfolding split_loop push_piece
  split_last fuel rest out e = rw (e, split_loop)

  split_next :
      (fuel : ℕ) (rest : Bytes) (out : List Bytes) (k : ℕ)
      → find_first_of (d ∷ []) rest ≡ some k
      → split_loop (suc fuel) (d ∷ []) false rest out
        ≡ split_loop fuel (d ∷ []) false (drop (suc k) rest) (out ++ take k rest ∷ [])
  unfolding split_loop push_piece
  split_next fuel rest out k e = rw (e, split_loop, add-one)

  drop-append_suc : (p rest : Bytes) → drop (suc (length p)) (p ++ d ∷ rest) ≡ rest
  drop-append_suc [] rest = refl
  drop-append_suc (c ∷ p) rest = drop-append_suc p rest

  split-spell :
      (fuel : ℕ) (p : Bytes) (ps out : List Bytes)
      → length (spell (p ∷ ps)) < fuel
      → All (Lacks d) (p ∷ ps)
      → split_loop fuel (d ∷ []) false (spell (p ∷ ps)) out ≡ out ++ p ∷ ps
  unfolding spell tail_of
  split-spell zero p ps out h ok = absurd (omega arith)
  split-spell (suc fuel) p [] out h (lacks, _) =
      rw append-nil (split_last fuel p out (find-none p lacks))
  split-spell (suc fuel) p (q ∷ ps) out h (lacks, ok) =
      split_next fuel (p ++ d ∷ spell (q ∷ ps)) out (length p) (find-some p (spell (q ∷ ps)) lacks)
      ∙ rw (take-append p (d ∷ spell (q ∷ ps)), drop-append_suc p (spell (q ∷ ps)))
          (split-spell fuel q ps (out ++ p ∷ [])
              (omega (arith, length-append p (d ∷ spell (q ∷ ps)))) ok
            ∙ append_assoc out (p ∷ []) (q ∷ ps))

  pub tail_of-append : (ps qs : List Bytes) → tail_of (ps ++ qs) ≡ tail_of ps ++ tail_of qs
  unfolding tail_of
  tail_of-append [] qs = refl
  tail_of-append (p ∷ ps) qs = simp (tail_of-append ps qs, append_assoc)

  tail_of_round :
      (out : List Bytes) (p rest : Bytes)
      → tail_of (out ++ p ∷ []) ++ d ∷ rest ≡ tail_of out ++ d ∷ (p ++ d ∷ rest)
  tail_of_round out p rest =
      rw (tail_of-append out (p ∷ [])) (unfold tail_of in simp (append_assoc, append-nil))

  tail_of-split :
      (fuel : ℕ) (rest : Bytes) (out : List Bytes)
      → length rest < fuel
      → tail_of (split_loop fuel (d ∷ []) false rest out) ≡ tail_of out ++ d ∷ rest
  tail_of-split zero rest out h = absurd (omega arith)
  tail_of-split (suc fuel) rest out h = elim (Option-cases (find_first_of (d ∷ []) rest)) [
    | inl e ↦
        rw (split_last fuel rest out e, tail_of-append out (rest ∷ []))
          (unfold tail_of in rw append-nil)
    | inr (k, e) ↦
        let (cut, small) = find_sound rest k e in
        rw (split_next fuel rest out k e) (
          tail_of-split fuel (drop (suc k) rest) (out ++ take k rest ∷ [])
            (omega (arith, length-drop (suc k) rest))
          ∙ tail_of_round out (take k rest) (drop (suc k) rest)
          ∙ ap (λ t. tail_of out ++ d ∷ t) (sym cut))
  ]

  tail_of-spell : (ps : List Bytes) → ps ≢ [] → tail_of ps ≡ d ∷ spell ps
  unfolding tail_of spell
  tail_of-spell [] h = absurd (h refl)
  tail_of-spell (p ∷ ps) h = refl

  split_loop-ne-nil :
      (fuel : ℕ) (rest : Bytes) (out : List Bytes)
      → length rest < fuel
      → split_loop fuel (d ∷ []) false rest out ≢ []
  split_loop-ne-nil zero rest out h = absurd (omega arith)
  split_loop-ne-nil (suc fuel) rest out h = elim (Option-cases (find_first_of (d ∷ []) rest)) [
    | inl e ↦ rw (split_last fuel rest out e) (concat-ne-nil rest out)
    | inr (k, e) ↦
        let (_, small) = find_sound rest k e in
        rw (split_next fuel rest out k e) (
          split_loop-ne-nil fuel (drop (suc k) rest) (out ++ take k rest ∷ [])
            (omega (arith, length-drop (suc k) rest)))
  ]

-- Split at one delimiter, keeping the empty parts, and join again: the text comes back.
pub join_string-split :
    (full : Bytes) (d : ℕ)
    → join_string (d ∷ []) (split_string_to_vector full (d ∷ []) false) ≡ full
unfolding split_string_to_vector tail_of
join_string-split full d =
    let parts = split_loop (length full + 1) (d ∷ []) false full [] in
    let spelt = tail_of-split d (length full + 1) full [] (omega arith) in
    let headed =
      tail_of-spell d parts (split_loop-ne-nil d (length full + 1) full [] (omega arith)) in
    join-spell d parts ∙ ap tail (sym headed ∙ spelt)

-- A join of at least one part, none of which holds the delimiter, is split into its parts again.
pub split-join_string :
    (strs : List Bytes) (d : ℕ)
    → strs ≢ []
    → All (Lacks d) strs
    → split_string_to_vector (join_string (d ∷ []) strs) (d ∷ []) false ≡ strs
unfolding split_string_to_vector
split-join_string [] d h ok = absurd (h refl)
split-join_string (p ∷ ps) d h ok =
    rw (join-spell d (p ∷ ps))
      (split-spell d (length (spell d (p ∷ ps)) + 1) p ps [] (omega arith) ok)
