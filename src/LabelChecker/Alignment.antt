-- ===== src/LabelChecker/Alignment.antt =====
-- label_checker_main.cc: what the machine of `CompileAlignFst` accepts of a transcript.
pub mod Paths
pub mod Accepted
use wenet_android.Prelude.{
  ℕ, zero, suc, ◌+◌, ◌<◌, ◌≡◌, sym, subst, ◌⊎◌, List, [], ◌∷◌, ◌++◌, arith, All,
}
use wenet_android.Prelude.Int.{ℤ, pos}
use wenet_android.LabelChecker.{
  Arc, FstOps, free_arc, Marks, filler_loop, insertion_arcs, position_arcs, align_loop,
}
use wenet_android.LabelChecker.Machine.{Reads, Shows, Laws, emit}

module _ (o : FstOps) (k : Marks o.W) where
  abbrev pub filler_arc : ℕ → Arc o.W
  filler_arc i = record {
    ilabel = pos i;
    olabel = pos i;
    weight = k.is_penalty;
    nextstate = k.filler_end;
  }

  abbrev pub deletion_arc : ℕ → Arc o.W
  deletion_arc cur = record {
    ilabel = pos 0;
    olabel = k.del;
    weight = k.del_penalty;
    nextstate = cur;
  }

  abbrev pub With : (ℕ → Arc o.W → Type 0) → ℕ → Arc o.W → ℕ → Arc o.W → Type 0
  With A s a t b = A t b ⊎ ((t ≡ s) × (b ≡ a))

  -- The arcs of the filler's first `n` symbols.
  abbrev pub FillerArc : ℕ → ℕ → Arc o.W → Type 0
  FillerArc zero = λ t b. ⊥
  FillerArc (suc n) = With (FillerArc n) k.filler_start (filler_arc (suc (suc n)))

  abbrev pub InsertionArc : (ℕ → Arc o.W → Type 0) → ℕ → ℕ → Arc o.W → Type 0
  InsertionArc A prev =
      With (With A prev (free_arc o (pos 0) k.ins_start k.filler_start)) k.filler_end
        (free_arc o (pos 0) k.ins_end prev)

  -- The arcs `A`, with those of the labels behind the state `prev`; the next state is `n`.
  abbrev pub LabelArc : (ℕ → Arc o.W → Type 0) → List ℤ → ℕ → ℕ → ℕ → Arc o.W → Type 0
  LabelArc A [] prev n = InsertionArc A prev
  LabelArc A (label ∷ labels) prev n =
      LabelArc
        (With (With (InsertionArc A prev) prev (free_arc o label label n)) prev (deletion_arc n))
        labels n (suc n)

  abbrev pub last_state : List ℤ → ℕ → ℕ → ℕ
  last_state [] prev n = prev
  last_state (label ∷ labels) prev n = last_state labels n (suc n)

  abbrev pub states_after : List ℤ → ℕ → ℕ
  states_after [] n = n
  states_after (label ∷ labels) n = states_after labels (suc n)

module _ {o : FstOps} (r : Reads o) (laws : Laws r) (k : Marks o.W) where
  pub filler_loop_lem :
      (rounds i n : ℕ) (m : o.Fst) (S F : ℕ → Type 0)
      → rounds + i ≡ n
      → k.filler_start < 3
      → Shows r m 3 (FillerArc o k i) S F
      → Shows r (filler_loop o k rounds (suc (suc i)) m) 3 (FillerArc o k n) S F
  unfolding filler_loop
  filler_loop_lem zero i n m S F e l h =
      let same : i ≡ n = omega arith in subst (λ (j : ℕ). Shows r m 3 (FillerArc o k j) S F) same h
  filler_loop_lem (suc rounds) i n m S F e l h =
      filler_loop_lem rounds (suc i) n _ S F (omega arith) l
        (laws.add_arc_lem m 3 _ S F k.filler_start (filler_arc o k (suc (suc i))) h l)

  insertion_arcs_lem :
      (prev n : ℕ) (m : o.Fst) (A : ℕ → Arc o.W → Type 0) (S F : ℕ → Type 0)
      → prev < n
      → k.filler_end < n
      → Shows r m n A S F
      → Shows r (insertion_arcs o k prev m) n (InsertionArc o k A prev) S F
  unfolding insertion_arcs
  insertion_arcs_lem prev n m A S F l e h =
      laws.add_arc_lem _ n _ S F k.filler_end _ (laws.add_arc_lem m n A S F prev _ h l) e

  position_arcs_lem :
      (label : ℤ) (prev n : ℕ) (m : o.Fst) (A : ℕ → Arc o.W → Type 0) (S F : ℕ → Type 0)
      → prev < suc n
      → k.filler_end < suc n
      → Shows r m (suc n) A S F
      → Shows r
          (position_arcs o k label prev (m, n))
          (suc n)
          (With o k
            (With o k (InsertionArc o k A prev) prev (free_arc o label label n))
            prev
            (deletion_arc o k n))
          S
          F
  unfolding position_arcs
  position_arcs_lem label prev n m A S F l e h =
      laws.add_arc_lem _ (suc n) _ S F prev (deletion_arc o k n)
        (laws.add_arc_lem _ (suc n) _ S F prev (free_arc o label label n)
          (insertion_arcs_lem prev (suc n) m A S F l e h) l)
        l

  pub align_loop_lem :
      (labels : List ℤ) (prev n : ℕ) (m : o.Fst) (A : ℕ → Arc o.W → Type 0) (S F : ℕ → Type 0)
      → prev < n
      → k.filler_end < n
      → Shows r m n A S F
      → Shows r
          (align_loop o k labels prev m)
          (states_after o k labels n)
          (LabelArc o k A labels prev n)
          S
          (λ t. F t ⊎ (t ≡ last_state o k labels prev n))
  unfolding align_loop
  align_loop_lem [] prev n m A S F l e h =
      laws.set_final_lem _ n _ S F prev (insertion_arcs_lem prev n m A S F l e h) l
  align_loop_lem (label ∷ labels) prev n m A S F l e h =
      let (grown, id) = laws.add_state_lem m n A S F h in
      let l' : prev < suc n = omega arith in
      let e' : k.filler_end < suc n = omega arith in
      let at_n =
        align_loop_lem labels n (suc n) _ _ S F (omega arith) e'
          (position_arcs_lem label prev n (o.add_state m).0 A S F l' e' grown) in
      subst
        (λ (j : ℕ).
          Shows r (align_loop o k labels j (position_arcs o k label prev ((o.add_state m).0, j)))
            (states_after o k labels (suc n)) (LabelArc o k A (label ∷ labels) prev n) S
            (λ t. F t ⊎ (t ≡ last_state o k labels n (suc n))))
        (sym id) at_n
