-- ===== src/LabelChecker/Spelt.antt =====
-- label_checker_main.cc: the machine of `CompileCtcFst` accepts what its labels spell.
use wenet_android.Prelude.{
  ℕ, zero, suc, ◌+◌, ◌≤◌, ◌<◌, ◌≡◌, refl, sym, ap, subst, ◌↔◌, inl, inr, some, List, ◌∷◌, ◌++◌,
  arith, replicate,
}
use native.Mathlib.Decide.{dec_le}
use wenet_android.Prelude.Int.{ℤ, pos}
use wenet_android.LabelChecker.{
  is_key, Arc, FstOps, SymbolOps, free_arc, ctc_arcs, compile_ctc_fst, label_bound, eps, blank,
}
use wenet_android.LabelChecker.Machine.{
  Reads, Laws, emit, Route, stop, step, Accepts, Accepts-Shows,
}
use wenet_android.LabelChecker.Ctc.{Spells, ends, skip, run, CtcArc, ctc_arcs_lem}

-- The arcs of the description, by the label that they are of.
module _ (o : FstOps) where
  pub data CtcEntry (k t : ℕ) (b : Arc o.W) : Type 0 where
    blank_loop : t ≡ 0 → b ≡ free_arc o (pos 1) (pos 0) 0 → CtcEntry k t b
    enter :
        (i : ℕ)
        → i < k
        → t ≡ 0
        → b ≡ free_arc o (pos (suc (suc i))) (pos (suc (suc i))) (suc i)
        → CtcEntry k t b
    stay :
        (i : ℕ)
        → i < k
        → t ≡ suc i
        → b ≡ free_arc o (pos (suc (suc i))) (pos 0) (suc i)
        → CtcEntry k t b
    leave : (i : ℕ) → i < k → t ≡ suc i → b ≡ free_arc o (pos 0) (pos 0) 0 → CtcEntry k t b

  widen : (k t : ℕ) (b : Arc o.W) → CtcEntry k t b → CtcEntry (suc k) t b
  widen k t b (blank_loop p q) = blank_loop p q
  widen k t b (enter i h p q) = enter i (omega arith) p q
  widen k t b (stay i h p q) = stay i (omega arith) p q
  widen k t b (leave i h p q) = leave i (omega arith) p q

  ctc_entry_of : (k t : ℕ) (b : Arc o.W) → CtcArc o k t b → CtcEntry k t b
  ctc_entry_of zero t b (inr (p, q)) = blank_loop p q
  ctc_entry_of zero t b (inl h) = absurd h
  ctc_entry_of (suc k) t b (inl (inl (inl h))) = widen k t b (ctc_entry_of k t b h)
  ctc_entry_of (suc k) t b (inl (inl (inr (p, q)))) = enter k (omega arith) p q
  ctc_entry_of (suc k) t b (inl (inr (p, q))) = stay k (omega arith) p q
  ctc_entry_of (suc k) t b (inr (p, q)) = leave k (omega arith) p q

  older : (i k t : ℕ) (b : Arc o.W) → i ≤ k → CtcArc o i t b → CtcArc o k t b
  older i zero t b h a = let e : i ≡ 0 = omega arith in subst (λ (j : ℕ). CtcArc o j t b) e a
  older i (suc k) t b h a = elim (dec_le i k) [
    | yes p ↦ inl (inl (inl (older i k t b p a)))
    | no p ↦ let e : i ≡ suc k = omega arith in subst (λ (j : ℕ). CtcArc o j t b) e a
  ]

  blank_in : (k : ℕ) → CtcArc o k 0 (free_arc o (pos 1) (pos 0) 0)
  blank_in k = older 0 k 0 _ (omega arith) (inr (refl, refl))

  enter_in :
      (k i : ℕ) → i < k → CtcArc o k 0 (free_arc o (pos (suc (suc i))) (pos (suc (suc i))) (suc i))
  enter_in k i h = older (suc i) k 0 _ (omega arith) (inl (inl (inr (refl, refl))))

  stay_in : (k i : ℕ) → i < k → CtcArc o k (suc i) (free_arc o (pos (suc (suc i))) (pos 0) (suc i))
  stay_in k i h = older (suc i) k (suc i) _ (omega arith) (inl (inr (refl, refl)))

  leave_in : (k i : ℕ) → i < k → CtcArc o k (suc i) (free_arc o (pos 0) (pos 0) 0)
  leave_in k i h = older (suc i) k (suc i) _ (omega arith) (inr (refl, refl))

module _ (o : FstOps) (k : ℕ) where
  -- What a way to the start state reads and writes: from the state of the label `i` it begins with
  -- more of that label.
  abbrev FromLabel : ℕ → List ℤ → List ℤ → Type 0
  FromLabel i ins outs =
      (n : ℕ) × (rest : List ℤ) × (ins ≡ replicate n (pos (suc (suc i))) ++ rest)
      × Spells k rest outs

  abbrev From : ℕ → List ℤ → List ℤ → Type 0
  From s ins outs =
      (s ≡ 0 → Spells k ins outs) × ((i : ℕ) → i < k → s ≡ suc i → FromLabel i ins outs)

  blank_From : (s : ℕ) (ins outs : List ℤ) → s ≡ 0 → From 0 ins outs → From s (pos 1 ∷ ins) outs
  blank_From s ins outs p h = (λ z. skip ins outs (h.0 refl), λ i l z. absurd (omega arith))

  enter_From :
      (s i : ℕ) (ins outs : List ℤ)
      → i < k
      → s ≡ 0
      → From (suc i) ins outs
      → From s (pos (suc (suc i)) ∷ ins) (pos (suc (suc i)) ∷ outs)
  enter_From s i ins outs l p h =
      let (n, rest, e, spelt) = h.1 i l refl in
      let label = pos (suc (suc i)) in
      (
        λ z.
            subst (λ (w : List ℤ). Spells k (label ∷ w) (label ∷ outs)) (sym e)
              (run i n rest outs l spelt),
        λ j m z. absurd (omega arith),
      )

  stay_From :
      (s i : ℕ) (ins outs : List ℤ)
      → i < k
      → s ≡ suc i
      → From (suc i) ins outs
      → From s (pos (suc (suc i)) ∷ ins) outs
  stay_From s i ins outs l p h =
      let (n, rest, e, spelt) = h.1 i l refl in
      (
        λ z. absurd (omega arith),
        λ j m z.
            let same : i ≡ j = omega arith in
            subst (λ (j : ℕ). FromLabel j (pos (suc (suc i)) ∷ ins) outs) same
              (suc n, rest, ap (λ (w : List ℤ). pos (suc (suc i)) ∷ w) e, spelt),
      )

  step_From :
      (s : ℕ) (a : Arc o.W) (ins outs : List ℤ)
      → CtcEntry o k s a
      → From a.nextstate ins outs
      → From s (emit a.ilabel ins) (emit a.olabel outs)
  step_From s a ins outs entry = elim entry [
    | blank_loop p q ↦ subst Goal (sym q) (blank_From s ins outs p)
    | enter i l p q ↦ subst Goal (sym q) (enter_From s i ins outs l p)
    | stay i l p q ↦ subst Goal (sym q) (stay_From s i ins outs l p)
    | leave i l p q ↦
        subst Goal (sym q)
          (λ (h : From 0 ins outs). (λ z. absurd (omega arith), λ j m z. (0, ins, refl, h.0 refl)))
  ]
    where
      Goal : Arc o.W → Type 0
      Goal a = From a.nextstate ins outs → From s (emit a.ilabel ins) (emit a.olabel outs)

  Route-From :
      (s t : ℕ) (ins outs : List ℤ) → Route (CtcArc o k) s ins outs t → t ≡ 0 → From s ins outs
  Route-From s t ins outs (stop _) e = (λ z. ends, λ i l z. absurd (omega arith))
  Route-From s t _ _ (step _ a _ ins outs h way) e =
      step_From s a ins outs (ctc_entry_of o k s a h) (Route-From a.nextstate t ins outs way e)

  -- The rounds at the label `i`, and the way on from the start state.
  run_of :
      (i n : ℕ) (ins outs : List ℤ)
      → i < k
      → Route (CtcArc o k) 0 ins outs 0
      → Route (CtcArc o k) (suc i) (replicate n (pos (suc (suc i))) ++ ins) outs 0
  run_of i zero ins outs l way = step (suc i) _ 0 ins outs (leave_in o k i l) way
  run_of i (suc n) ins outs l way =
      step (suc i) _ 0 (replicate n (pos (suc (suc i))) ++ ins) outs (stay_in o k i l)
        (run_of i n ins outs l way)

  Spells-Route : (ins outs : List ℤ) → Spells k ins outs → Route (CtcArc o k) 0 ins outs 0
  Spells-Route _ _ ends = stop 0
  Spells-Route _ _ (skip ins outs h) = step 0 _ 0 ins outs (blank_in o k) (Spells-Route ins outs h)
  Spells-Route _ _ (run i n ins outs l h) =
      step 0 _ 0 (replicate n (pos (suc (suc i))) ++ ins) outs (enter_in o k i l)
        (run_of i n ins outs l (Spells-Route ins outs h))

module _ (o : FstOps) (r : Reads o) (laws : Laws r) where
  abbrev pub AcceptsSpelt : ℕ → o.Fst → Type 0
  AcceptsSpelt k m = (ins outs : List ℤ) → Accepts r m ins outs ↔ Spells k ins outs

  ctc_arcs-AcceptsSpelt :
      (k : ℕ) (m : o.Fst)
      → AcceptsSpelt k (ctc_arcs o (suc (suc k)) (o.add_state (o.delete_states m)))
  ctc_arcs-AcceptsSpelt k m ins outs =
      let both = Accepts-Shows r _ _ _ _ _ (ctc_arcs_lem r laws k m) ins outs in
      (
        λ a.
            let (s, t, p, q, way) = both.0 a in
            (Route-From o k s t ins outs way (elim q [ inl h ↦ absurd h | inr h ↦ h ])).0 p,
        λ h. both.1 (0, 0, refl, inr refl, Spells-Route o k ins outs h),
      )

  -- Over a table with "<eps>" at 0, "<blank>" at 1 and `k` labels behind them, up to the three
  -- marks at its end, `CompileCtcFst` builds a machine, and the machine reads a sequence and
  -- writes another one exactly if, blanks aside, each label written stands for a run of one or
  -- more of itself: it accepts nothing else, and it leaves nothing out.
  pub compile_ctc_fst-AcceptsSpelt :
      (t : SymbolOps) (table : t.Table) (k : ℕ) (m : o.Fst)
      → t.find table eps ≡ pos 0
      → t.find table blank ≡ pos 1
      → t.num_symbols table ≡ k + 5
      → k < 4_294_967_296
      → (built : o.Fst) × (compile_ctc_fst o t table m ≡ some built) × AcceptsSpelt k built
  unfolding compile_ctc_fst is_key label_bound
  compile_ctc_fst-AcceptsSpelt t table k m e b n w =
      let bound : label_bound (k + 5) ≡ suc (suc k) = omega arith in
      let compiled : compile_ctc_fst o t table m
          ≡ some (ctc_arcs o (suc (suc k)) (o.add_state (o.delete_states m))) =
        rw (e, b, n, bound) in
      (
        ctc_arcs o (suc (suc k)) (o.add_state (o.delete_states m)),
        compiled,
        ctc_arcs-AcceptsSpelt k m,
      )
