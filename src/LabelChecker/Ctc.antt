-- ===== src/LabelChecker/Ctc.antt =====
-- label_checker_main.cc: what the machine of `CompileCtcFst` accepts.
use wenet_android.Prelude.{
  ℕ, zero, suc, ◌+◌, ◌-◌, ◌<◌, ◌≡◌, sym, subst, ◌⊎◌, List, [], ◌∷◌, ◌++◌, arith, replicate,
}
use wenet_android.Prelude.Int.{ℤ, pos}
use wenet_android.LabelChecker.{Arc, FstOps, free_arc, label_arcs, ctc_loop, ctc_arcs}
use wenet_android.LabelChecker.Machine.{Reads, Shows, Laws}

-- Blanks, which have the number 1, stand anywhere, and each label written stands for a run of one
-- or more of itself; the labels are the numbers 2 to `k` + 1.
pub data Spells (k : ℕ) : List ℤ → List ℤ → Type 0 where
  ends : Spells k [] []
  skip : (ins outs : List ℤ) → Spells k ins outs → Spells k (pos 1 ∷ ins) outs
  run :
      (i n : ℕ) (ins outs : List ℤ)
      → i < k
      → Spells k ins outs
      → Spells k
          (pos (suc (suc i)) ∷ (replicate n (pos (suc (suc i))) ++ ins))
          (pos (suc (suc i)) ∷ outs)

module _ (o : FstOps) where
  -- The arcs of the first `k` labels, in the order in which they are added.
  abbrev pub CtcArc : ℕ → ℕ → Arc o.W → Type 0
  CtcArc zero t b = ⊥ ⊎ ((t ≡ 0) × (b ≡ free_arc o (pos 1) (pos 0) 0))
  CtcArc (suc k) t b =
      ((CtcArc k t b ⊎ ((t ≡ 0) × (b ≡ free_arc o (pos (suc (suc k))) (pos (suc (suc k))) (suc k))))
        ⊎ ((t ≡ suc k) × (b ≡ free_arc o (pos (suc (suc k))) (pos 0) (suc k))))
      ⊎ ((t ≡ suc k) × (b ≡ free_arc o (pos 0) (pos 0) 0))

module _ {o : FstOps} (r : Reads o) (laws : Laws r) where
  label_arcs_lem :
      (k : ℕ) (m : o.Fst) (S F : ℕ → Type 0)
      → Shows r m (suc (suc k)) (CtcArc o k) S F
      → Shows r (label_arcs o 0 (suc (suc k)) (m, suc k)) (suc (suc k)) (CtcArc o (suc k)) S F
  unfolding label_arcs
  label_arcs_lem k m S F h =
      let below : 0 < suc (suc k) = omega arith in
      let last : suc k < suc (suc k) = omega arith in
      let h1 = laws.add_arc_lem m _ _ S F 0 _ h below in
      let h2 = laws.add_arc_lem _ _ _ S F (suc k) _ h1 last in
      laws.add_arc_lem _ _ _ S F (suc k) _ h2 last

  ctc_loop_lem :
      (rounds k n : ℕ) (m : o.Fst) (S F : ℕ → Type 0)
      → rounds + k ≡ n
      → Shows r m (suc k) (CtcArc o k) S F
      → Shows r (ctc_loop o 0 rounds (suc (suc k)) m) (suc n) (CtcArc o n) S F
  unfolding ctc_loop
  ctc_loop_lem zero k n m S F e h =
      let same : k ≡ n = omega arith in subst (λ (j : ℕ). Shows r m (suc j) (CtcArc o j) S F) same h
  ctc_loop_lem (suc rounds) k n m S F e h =
      let (grown, id) = laws.add_state_lem m _ _ S F h in
      let entered : Shows r (label_arcs o 0 (suc (suc k)) (o.add_state m)) (suc (suc k))
          (CtcArc o (suc k)) S F =
        subst
          (λ (j : ℕ).
            Shows r (label_arcs o 0 (suc (suc k)) ((o.add_state m).0, j)) (suc (suc k))
              (CtcArc o (suc k)) S F)
          (sym id) (label_arcs_lem k (o.add_state m).0 S F grown) in
      ctc_loop_lem rounds (suc k) n _ S F (omega arith) entered

  from_start :
      (k : ℕ) (m : o.Fst)
      → Shows r m 1 (λ t b. ⊥) (λ t. ⊥) (λ t. ⊥)
      → Shows r
          (ctc_arcs o (suc (suc k)) (m, 0))
          (suc k)
          (CtcArc o k)
          (λ t. t ≡ 0)
          (λ t. ⊥ ⊎ (t ≡ 0))
  unfolding ctc_arcs
  from_start k m h =
      let one : 0 < 1 = omega arith in
      let h1 = laws.set_start_lem m 1 _ _ _ 0 h one in
      let h2 = laws.add_arc_lem _ 1 _ _ _ 0 (free_arc o (pos 1) (pos 0) 0) h1 one in
      let rounds : suc (suc k) - 2 ≡ k = omega arith in
      let h3 = ctc_loop_lem (suc (suc k) - 2) 0 k _ _ _ (omega arith) h2 in
      let some_state : 0 < suc k = omega arith in
      laws.sort_olabel_lem _ _ _ _ _ (laws.set_final_lem _ _ _ _ _ 0 h3 some_state)

  pub ctc_arcs_lem :
      (k : ℕ) (m : o.Fst)
      → Shows r
          (ctc_arcs o (suc (suc k)) (o.add_state (o.delete_states m)))
          (suc k)
          (CtcArc o k)
          (λ t. t ≡ 0)
          (λ t. ⊥ ⊎ (t ≡ 0))
  ctc_arcs_lem k m =
      let (grown, id) = laws.add_state_lem (o.delete_states m) 0 _ _ _ (laws.delete_states_lem m) in
      subst
        (λ (s : ℕ).
          Shows r (ctc_arcs o (suc (suc k)) ((o.add_state (o.delete_states m)).0, s)) (suc k)
            (CtcArc o k) (λ t. t ≡ 0) (λ t. ⊥ ⊎ (t ≡ 0)))
        (sym id) (from_start k (o.add_state (o.delete_states m)).0 grown)
