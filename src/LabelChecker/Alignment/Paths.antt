-- ===== src/LabelChecker/Alignment/Paths.antt =====
-- label_checker_main.cc: the alignments that the machine of `CompileAlignFst` accepts.
use wenet_android.Prelude.{ℕ, suc, ◌<◌, ◌≡◌, refl, sym, subst, inl, inr, List, [], ◌∷◌, ◌++◌, All}
use wenet_android.Prelude.Int.{ℤ, pos}
use wenet_android.LabelChecker.{Arc, FstOps, Marks, free_arc}
use wenet_android.LabelChecker.Machine.{emit, Route, stop, step}
use wenet_android.LabelChecker.Alignment.{
  LabelArc, InsertionArc, With, filler_arc, deletion_arc, last_state,
}

-- A symbol of the filler.
abbrev pub IsSymbol : ℕ → ℤ → Type 0
IsSymbol k x = (i : ℕ) × (i < k) × (x ≡ pos (suc (suc i)))

-- The outputs of an alignment of the inputs to the labels: each label is read, or is written as
-- deleted, and before, between and behind them symbols are read that are written between two marks.
module _ (k : ℕ) (del ins_start ins_end : ℤ) where
  pub data Aligned : List ℤ → List ℤ → List ℤ → Type 0 where
    ends : Aligned [] [] []
    correct :
        (label : ℤ) (labels ins outs : List ℤ)
        → Aligned labels ins outs
        → Aligned (label ∷ labels) (emit label ins) (emit label outs)
    deleted :
        (label : ℤ) (labels ins outs : List ℤ)
        → Aligned labels ins outs
        → Aligned (label ∷ labels) ins (emit del outs)
    inserted :
        (x : ℤ) (xs labels ins outs : List ℤ)
        → All (IsSymbol k) (x ∷ xs)
        → Aligned labels ins outs
        → Aligned labels ((x ∷ xs) ++ ins) (emit ins_start ((x ∷ xs) ++ emit ins_end outs))

module _ (o : FstOps) (k : Marks o.W) where
  older :
      (labels : List ℤ) (prev n : ℕ) (A : ℕ → Arc o.W → Type 0) (t : ℕ) (b : Arc o.W)
      → A t b
      → LabelArc o k A labels prev n t b
  older [] prev n A t b h = inl (inl h)
  older (label ∷ labels) prev n A t b h = older labels n (suc n) _ t b (inl (inl (inl (inl h))))

  enters :
      (labels : List ℤ) (prev n : ℕ) (A : ℕ → Arc o.W → Type 0)
      → LabelArc o k A labels prev n prev (free_arc o (pos 0) k.ins_start k.filler_start)
  enters [] prev n A = inl (inr (refl, refl))
  enters (label ∷ labels) prev n A =
      older labels n (suc n) _ prev _ (inl (inl (inl (inr (refl, refl)))))

  leaves :
      (labels : List ℤ) (prev n : ℕ) (A : ℕ → Arc o.W → Type 0)
      → LabelArc o k A labels prev n k.filler_end (free_arc o (pos 0) k.ins_end prev)
  leaves [] prev n A = inr (refl, refl)
  leaves (label ∷ labels) prev n A =
      older labels n (suc n) _ k.filler_end _ (inl (inl (inr (refl, refl))))

  leaves_to_last :
      (labels : List ℤ) (prev n : ℕ) (A : ℕ → Arc o.W → Type 0)
      → LabelArc o k A labels prev n k.filler_end
          (free_arc o (pos 0) k.ins_end (last_state o k labels prev n))
  leaves_to_last [] prev n A = inr (refl, refl)
  leaves_to_last (label ∷ labels) prev n A = leaves_to_last labels n (suc n) _

  -- The arcs of the filler over `count` symbols are there.
  pub record HasFiller (count : ℕ) (A : ℕ → Arc o.W → Type 0) : Type 0 where
    pub symbols : (i : ℕ) → i < count → A k.filler_start (filler_arc o k (suc (suc i)))
    pub again : A k.filler_end (free_arc o (pos 0) (pos 0) k.filler_start)

  through :
      (count : ℕ) (A : ℕ → Arc o.W → Type 0)
      → HasFiller count A
      → (x : ℤ) (xs ins outs : List ℤ) (t : ℕ) → All (IsSymbol count) (x ∷ xs)
      → Route A k.filler_end ins outs t
      → Route A k.filler_start ((x ∷ xs) ++ ins) ((x ∷ xs) ++ outs) t
  through count A f x [] ins outs t ((i, l, e), _) way =
      subst (λ (y : ℤ). Route A k.filler_start (y ∷ ins) (y ∷ outs) t) (sym e)
        (step k.filler_start (filler_arc o k (suc (suc i))) t ins outs (f.symbols i l) way)
  through count A f x (y ∷ ys) ins outs t ((i, l, e), h) way =
      let rest =
        step k.filler_end _ t ((y ∷ ys) ++ ins) ((y ∷ ys) ++ outs) f.again
          (through count A f y ys ins outs t h way) in
      subst (λ (x : ℤ). Route A k.filler_start (x ∷ ((y ∷ ys) ++ ins)) (x ∷ ((y ∷ ys) ++ outs)) t)
        (sym e) (step k.filler_start (filler_arc o k (suc (suc i))) t _ _ (f.symbols i l) rest)

  grown :
      (count : ℕ) (label : ℤ) (prev n : ℕ) (A : ℕ → Arc o.W → Type 0)
      → HasFiller count A
      → HasFiller count (
          With o k
            (With o k (InsertionArc o k A prev) prev (free_arc o label label n))
            prev
            (deletion_arc o k n))
  grown count label prev n A f = record {
    symbols = λ i l. inl (inl (inl (inl (f.symbols i l))));
    again = inl (inl (inl (inl f.again)));
  }

  all_grown :
      (count : ℕ) (labels : List ℤ) (prev n : ℕ) (A : ℕ → Arc o.W → Type 0)
      → HasFiller count A
      → HasFiller count (LabelArc o k A labels prev n)
  all_grown count labels prev n A f = record {
    symbols = λ i l. older labels prev n A _ _ (f.symbols i l);
    again = older labels prev n A _ _ f.again;
  }

  pub Aligned-Route :
      (count : ℕ) (labels ins outs : List ℤ)
      → Aligned count k.del k.ins_start k.ins_end labels ins outs
      → (prev n : ℕ) (A : ℕ → Arc o.W → Type 0) → HasFiller count A
      → Route (LabelArc o k A labels prev n) prev ins outs (last_state o k labels prev n)
  Aligned-Route count _ _ _ ends prev n A f = stop prev
  Aligned-Route count _ _ _ (correct label labels ins outs h) prev n A f =
      step prev (free_arc o label label n) _ ins outs
        (older labels n (suc n) _ prev _ (inl (inr (refl, refl))))
        (Aligned-Route count labels ins outs h n (suc n) _ (grown count label prev n A f))
  Aligned-Route count _ _ _ (deleted label labels ins outs h) prev n A f =
      step prev (deletion_arc o k n) _ ins outs (older labels n (suc n) _ prev _ (inr (refl, refl)))
        (Aligned-Route count labels ins outs h n (suc n) _ (grown count label prev n A f))
  Aligned-Route count _ _ _ (inserted x xs labels ins outs all h) prev n A f =
      step prev (free_arc o (pos 0) k.ins_start k.filler_start) _ _ _ (enters labels prev n A) (
        through count _ (all_grown count labels prev n A f) x xs ins _ _ all (
          step k.filler_end (free_arc o (pos 0) k.ins_end prev) _ ins outs (leaves labels prev n A)
            (Aligned-Route count labels ins outs h prev n A f)))

  -- One insertion leads from any state of the labels to the last one.
  pub skipping_way :
      (count : ℕ) (labels : List ℤ) (x : ℤ) (xs : List ℤ)
      → All (IsSymbol count) (x ∷ xs)
      → (prev n : ℕ) (A : ℕ → Arc o.W → Type 0) → HasFiller count A
      → Route
          (LabelArc o k A labels prev n)
          prev
          ((x ∷ xs) ++ [])
          (emit k.ins_start ((x ∷ xs) ++ emit k.ins_end []))
          (last_state o k labels prev n)
  skipping_way count labels x xs all prev n A f =
      step prev (free_arc o (pos 0) k.ins_start k.filler_start) _ _ _ (enters labels prev n A) (
        through count _ (all_grown count labels prev n A f) x xs [] _ _ all (
          step k.filler_end (free_arc o (pos 0) k.ins_end (last_state o k labels prev n)) _ [] []
            (leaves_to_last labels prev n A) (stop _)))
