-- ===== src/LabelChecker/Machine.antt =====
-- What label_checker_main.cc relies on of openfst's transducers, and what a transducer accepts.
use wenet_android.Prelude.{ℕ, zero, suc, ◌<◌, ◌≡◌, ◌↔◌, ◌⊎◌, List, [], ◌∷◌}
use wenet_android.Prelude.Int.{ℤ, pos, negsuc}
use wenet_android.LabelChecker.{Arc, FstOps}

-- What can be read of a transducer: the number of its states, its arcs by the state that they
-- leave, its start and its final states.
pub record Reads (o : FstOps) : Type 1 where
  pub num_states : o.Fst → ℕ
  pub has_arc : o.Fst → ℕ → Arc o.W → Type 0
  pub is_first : o.Fst → ℕ → Type 0
  pub is_last : o.Fst → ℕ → Type 0

module _ {o : FstOps} (r : Reads o) where
  -- The machine has `n` states, the arcs `A`, the start `S` and the final states `F`.
  pub record Shows (m : o.Fst) (n : ℕ) (A : ℕ → Arc o.W → Type 0) (S F : ℕ → Type 0) : Type 0 where
    pub states : r.num_states m ≡ n
    pub arcs : (s : ℕ) (a : Arc o.W) → r.has_arc m s a ↔ A s a
    pub first : (s : ℕ) → r.is_first m s ↔ S s
    pub last : (s : ℕ) → r.is_last m s ↔ F s

  -- The operations as openfst documents them.
  pub record Laws : Type 1 where
    pub delete_states_lem : (m : o.Fst) → Shows (o.delete_states m) 0 (λ s a. ⊥) (λ s. ⊥) (λ s. ⊥)
    pub add_state_lem :
        (m : o.Fst) (n : ℕ) (A : ℕ → Arc o.W → Type 0) (S F : ℕ → Type 0)
        → Shows m n A S F
        → Shows (o.add_state m).0 (suc n) A S F × ((o.add_state m).1 ≡ n)
    pub set_start_lem :
        (m : o.Fst) (n : ℕ) (A : ℕ → Arc o.W → Type 0) (S F : ℕ → Type 0) (s : ℕ)
        → Shows m n A S F
        → s < n
        → Shows (o.set_start s m) n A (λ t. t ≡ s) F
    pub add_arc_lem :
        (m : o.Fst) (n : ℕ) (A : ℕ → Arc o.W → Type 0) (S F : ℕ → Type 0) (s : ℕ) (a : Arc o.W)
        → Shows m n A S F
        → s < n
        → Shows (o.add_arc s a m) n (λ t b. A t b ⊎ ((t ≡ s) × (b ≡ a))) S F
    pub set_final_lem :
        (m : o.Fst) (n : ℕ) (A : ℕ → Arc o.W → Type 0) (S F : ℕ → Type 0) (s : ℕ)
        → Shows m n A S F
        → s < n
        → Shows (o.set_final s o.one m) n A S (λ t. F t ⊎ (t ≡ s))
    pub sort_ilabel_lem :
        (m : o.Fst) (n : ℕ) (A : ℕ → Arc o.W → Type 0) (S F : ℕ → Type 0)
        → Shows m n A S F
        → Shows (o.sort_ilabel m) n A S F
    pub sort_olabel_lem :
        (m : o.Fst) (n : ℕ) (A : ℕ → Arc o.W → Type 0) (S F : ℕ → Type 0)
        → Shows m n A S F
        → Shows (o.sort_olabel m) n A S F

-- A label in front of a text: the label 0 is none.
abbrev pub emit : ℤ → List ℤ → List ℤ
emit (pos zero) l = l
emit (pos (suc n)) l = pos (suc n) ∷ l
emit (negsuc n) l = negsuc n ∷ l

-- A way along arcs from one state to another, with the labels that it reads and writes.
module _ {W : Type 0} (A : ℕ → Arc W → Type 0) where
  pub data Route : ℕ → List ℤ → List ℤ → ℕ → Type 0 where
    stop : (s : ℕ) → Route s [] [] s
    step :
        (s : ℕ) (a : Arc W) (t : ℕ) (ins outs : List ℤ)
        → A s a
        → Route a.nextstate ins outs t
        → Route s (emit a.ilabel ins) (emit a.olabel outs) t

-- The transducer reads `ins` and writes `outs` on a way from its start to a final state.
module _ {o : FstOps} (r : Reads o) where
  abbrev pub Accepts : o.Fst → List ℤ → List ℤ → Type 0
  Accepts m ins outs =
      (s : ℕ) × (t : ℕ) × r.is_first m s × r.is_last m t × Route (r.has_arc m) s ins outs t

module _ {W : Type 0} {A B : ℕ → Arc W → Type 0} where
  pub Route-map :
      (f : (s : ℕ) (a : Arc W) → A s a → B s a)
      → (s : ℕ) (ins outs : List ℤ) (t : ℕ) → Route A s ins outs t
      → Route B s ins outs t
  Route-map f s ins outs t (stop _) = stop s
  Route-map f s _ _ t (step _ a _ ins outs h way) =
      step s a t ins outs (f s a h) (Route-map f a.nextstate ins outs t way)

module _ {o : FstOps} (r : Reads o) where
  -- What a machine accepts is what its description says.
  pub Accepts-Shows :
      (m : o.Fst) (n : ℕ) (A : ℕ → Arc o.W → Type 0) (S F : ℕ → Type 0)
      → Shows r m n A S F
      → (ins outs : List ℤ)
      → Accepts r m ins outs ↔ ((s : ℕ) × (t : ℕ) × S s × F t × Route A s ins outs t)
  Accepts-Shows m n A S F h ins outs = (
    λ (s, t, p, q, way).
        (s, t, (h.first s).0 p, (h.last t).0 q, Route-map (λ u a. (h.arcs u a).0) s ins outs t way),
    λ (s, t, p, q, way).
        (s, t, (h.first s).1 p, (h.last t).1 q, Route-map (λ u a. (h.arcs u a).1) s ins outs t way),
  )
