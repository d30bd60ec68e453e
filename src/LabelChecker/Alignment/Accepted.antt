-- ===== src/LabelChecker/Alignment/Accepted.antt =====
-- label_checker_main.cc: `CompileAlignFst` accepts each alignment of its labels, and more.
use wenet_android.Prelude.{
  ℕ, zero, suc, ◌+◌, ◌-◌, ◌<◌, ◌≡◌, refl, sym, ap, inl, inr, List, [], ◌∷◌, ◌++◌, arith, subst, All,
  append-nil,
}
use native.Mathlib.Decide.{dec_lt}
use wenet_android.Prelude.Int.{ℤ, pos}
use wenet_android.LabelChecker.{
  Arc, FstOps, SymbolOps, Marks, free_arc, compile_align_fst, label_bound, deletion, is_start,
  is_end,
}
use wenet_android.LabelChecker.Machine.{Reads, Laws, Route, Accepts, Accepts-Shows}
use wenet_android.LabelChecker.Alignment.{
  emit, LabelArc, With, FillerArc, last_state, filler_loop_lem, align_loop_lem, filler_arc,
}
use wenet_android.LabelChecker.Alignment.Paths.{
  skipping_way, Aligned-Route, IsSymbol, Aligned, HasFiller,
}

module _ (o : FstOps) (k : Marks o.W) where
  abbrev Base : ℕ → ℕ → Arc o.W → Type 0
  Base count =
      With o k (FillerArc o k count) k.filler_end (free_arc o (pos 0) (pos 0) k.filler_start)

  symbol_in :
      (count i : ℕ) → i < count → FillerArc o k count k.filler_start (filler_arc o k (suc (suc i)))
  symbol_in zero i h = elim h [ ]
  symbol_in (suc n) i h = elim (dec_lt i n) [
    | yes p ↦ inl (symbol_in n i p)
    | no p ↦
        let e : n ≡ i = omega arith in
        inr (refl, ap (λ (j : ℕ). filler_arc o k (suc (suc j))) (sym e))
  ]

  Base-HasFiller : (count : ℕ) → HasFiller o k count (Base count)
  Base-HasFiller count = record {
    symbols = λ i l. inl (symbol_in count i l);
    again = inr (refl, refl);
  }

-- What `CompileAlignFst` is called with, and the way through its machine.
module _ (o : FstOps) (r : Reads o) (laws : Laws r) (t : SymbolOps) (table : t.Table)
    (count : ℕ) where
  abbrev Ways : Marks o.W → List ℤ → ℕ → List ℤ → List ℤ → Type 0
  Ways k labels prev ins outs =
      Route (LabelArc o k (Base o k count) labels prev 3) prev ins outs
        (last_state o k labels prev 3)

  -- Each way from the first state to the last one, whatever numbers the first three states have.
  Accepts-Ways :
      (labels ins outs : List ℤ) (is_penalty del_penalty : o.W) (m : o.Fst)
      → t.num_symbols table ≡ count + 5
      → count < 4_294_967_296
      → ((k : Marks o.W) (prev : ℕ)
          → k.del ≡ t.find table deletion
          → k.ins_start ≡ t.find table is_start
          → k.ins_end ≡ t.find table is_end
          → Ways k labels prev ins outs)
      → Accepts r (compile_align_fst o t is_penalty del_penalty labels table m) ins outs
  unfolding compile_align_fst label_bound
  Accepts-Ways labels ins outs is_penalty del_penalty m e w way =
      let (h1, id1) = laws.add_state_lem (o.delete_states m) 0 _ _ _ (laws.delete_states_lem m) in
      let start = (o.add_state (o.delete_states m)).1 in
      let hs = laws.set_start_lem _ 1 _ _ _ start h1 (omega arith) in
      let (h2, id2) = laws.add_state_lem _ 1 _ _ _ hs in
      let (h3, id3) = laws.add_state_lem _ 2 _ _ _ h2 in
      let k : Marks o.W = record {
        del = t.find table deletion;
        ins_start = t.find table is_start;
        ins_end = t.find table is_end;
        is_penalty = is_penalty;
        del_penalty = del_penalty;
        filler_start = (o.add_state (o.set_start start (o.add_state (o.delete_states m)).0)).1;
        filler_end =
            (o.add_state (o.add_state (o.set_start start (o.add_state (o.delete_states m)).0)).0).1;
      } in
      let rounds : label_bound (t.num_symbols table) - 2 + 0 ≡ count = omega arith in
      let filled =
        filler_loop_lem r laws k (label_bound (t.num_symbols table) - 2) 0 count _ _ _ rounds
          (omega arith) h3 in
      let looped =
        laws.add_arc_lem _ 3 _ _ _ k.filler_end (free_arc o (pos 0) (pos 0) k.filler_start) filled
          (omega arith) in
      let built =
        laws.sort_ilabel_lem _ _ _ _ _
          (align_loop_lem r laws k labels start 3 _ _ _ _ (omega arith) (omega arith) looped) in
      (Accepts-Shows r _ _ _ _ _ built ins outs).1
        (start, last_state o k labels start 3, refl, inr refl, way k start refl refl refl)

  -- The machine of `CompileAlignFst` accepts every alignment to its labels: each label is read and
  -- written, or written as deleted with nothing read, and in front of the labels, between them and
  -- behind them symbols of the table are read and written between the two marks of an insertion.
  pub compile_align_fst-Aligned :
      (labels ins outs : List ℤ) (is_penalty del_penalty : o.W) (m : o.Fst)
      → t.num_symbols table ≡ count + 5
      → count < 4_294_967_296
      → Aligned count
          (t.find table deletion)
          (t.find table is_start)
          (t.find table is_end)
          labels
          ins
          outs
      → Accepts r (compile_align_fst o t is_penalty del_penalty labels table m) ins outs
  compile_align_fst-Aligned labels ins outs is_penalty del_penalty m e w h =
      Accepts-Ways labels ins outs is_penalty del_penalty m e w λ k prev d s f.
        Aligned-Route o k count labels ins outs
          (subst (λ (d : ℤ). Aligned count d k.ins_start k.ins_end labels ins outs) (sym d)
            (subst (λ (s : ℤ). Aligned count (t.find table deletion) s k.ins_end labels ins outs)
              (sym s)
              (subst
                (λ (f : ℤ).
                  Aligned count (t.find table deletion) (t.find table is_start) f labels ins outs)
                (sym f) h)))
          prev 3 _ (Base-HasFiller o k count)

  -- For any labels at all, the machine of `CompileAlignFst` also accepts any symbols of the table,
  -- one or more, as one insertion and nothing else: the way goes from the start through the
  -- filler straight to the final state, and no label is read or written as deleted.
  pub compile_align_fst_skips :
      (labels : List ℤ) (x : ℤ) (xs : List ℤ) (is_penalty del_penalty : o.W) (m : o.Fst)
      → t.num_symbols table ≡ count + 5
      → count < 4_294_967_296
      → All (IsSymbol count) (x ∷ xs)
      → Accepts r
          (compile_align_fst o t is_penalty del_penalty labels table m)
          (x ∷ xs)
          (emit (t.find table is_start) ((x ∷ xs) ++ emit (t.find table is_end) []))
  compile_align_fst_skips labels x xs is_penalty del_penalty m e w all =
      Accepts-Ways labels (x ∷ xs) _ is_penalty del_penalty m e w λ k prev d s f.
        let way = skipping_way o k count labels x xs all prev 3 _ (Base-HasFiller o k count) in
        let read =
          subst
            (λ (ins : List ℤ).
              Ways k labels prev ins (emit k.ins_start ((x ∷ xs) ++ emit k.ins_end [])))
            (append-nil (x ∷ xs)) way in
        let marked =
          subst (λ (s : ℤ). Ways k labels prev (x ∷ xs) (emit s ((x ∷ xs) ++ emit k.ins_end []))) s
            read in
        subst
          (λ (f : ℤ).
            Ways k labels prev (x ∷ xs) (emit (t.find table is_start) ((x ∷ xs) ++ emit f [])))
          f marked
