-- ===== src/Context/Graph/Total.antt =====
-- context_graph.cc: `GetNextState` ends, and it never reads an arc of a state that has none.
use wenet_android.Prelude.{
  ℕ, zero, suc, ◌<◌, ◌≡◌, refl, true, false, none, some, List, [], ◌∷◌, arith, ◌==◌, All,
  if◌then◌else◌, Option-cases, Bool-cases, inl, inr,
}
use wenet_android.Prelude.Int.{ℤ}
use wenet_android.Prelude.Float.{Float}
use wenet_android.Text.Utf8.{Bytes}
use wenet_android.Context.Graph.{
  Contexts, GraphArc, fallback_loop, collect, take_arc, get_next_state, is_zero, collect_contexts,
}

module _ {f : Float} (g : Contexts f) where
  abbrev pub HasArc : ℕ → Type 0
  HasArc s = (arc : GraphArc f) × (g.graph.first_arc s ≡ some arc)

  -- An automaton that falls back to shorter and shorter ends of what was read: fallback arcs lead to
  -- states of a lower rank that have arcs, and the final states behind a state have lower ranks. A
  -- state without arcs is a leaf, and the start is none.
  pub record IsRanked (bound : ℕ) (rank : ℕ → ℕ) : Type 0 where
    pub bounded : (s : ℕ) → rank s < bound
    pub start : HasArc 0
    pub inner : (s : ℕ) → (g.graph.num_arcs s == 0) ≡ false → HasArc s
    pub lower :
        (s : ℕ) (arc : GraphArc f)
        → g.graph.first_arc s ≡ some arc
        → is_zero arc.ilabel ≡ true
        → (rank arc.nextstate < rank s) × HasArc arc.nextstate
    pub finals : (s t : ℕ) → g.fallback_finals s ≡ some t → rank t < rank s

  module _ (bound : ℕ) (rank : ℕ → ℕ) (ranked : IsRanked bound rank) where
    fallback_loop_total :
        (fuel s : ℕ) (contexts : List Bytes)
        → rank s < fuel
        → (collected : List Bytes) × (fallback_loop g fuel s contexts ≡ some collected)
    unfolding fallback_loop
    fallback_loop_total zero s contexts l = elim l [ ]
    fallback_loop_total (suc fuel) s contexts l = elim (Option-cases (g.fallback_finals s)) [
      | inl e ↦ (contexts, rw (e, fallback_loop))
      | inr (t, e) ↦
          let (collected, found) =
            fallback_loop_total fuel t (g.context_table t ∷ contexts)
              (omega (arith, ranked.finals s t e)) in
          (collected, rw (e, fallback_loop) found)
    ]

    -- The state behind an arc that is taken.
    abbrev target : GraphArc f → ℕ
    target arc = if g.graph.num_arcs arc.nextstate == 0 then 0 else arc.nextstate

    target-HasArc : (arc : GraphArc f) → HasArc (target arc)
    target-HasArc arc = elim (Bool-cases (g.graph.num_arcs arc.nextstate == 0)) [
      | inl leaf ↦ rw leaf (ranked.start)
      | inr more ↦ rw more (ranked.inner arc.nextstate more)
    ]

    -- Behind a fallback arc there is no set of contexts.
    fallen_total :
        (fuel s : ℕ) (unit_id : ℤ) (v : f.F)
        → is_zero unit_id ≡ false
        → rank s < fuel
        → HasArc s
        → (u : ℕ) × (total : f.F) × (get_next_state g fuel s unit_id v none ≡ some (u, total, none))
          × HasArc u
    unfolding get_next_state take_arc collect
    fallen_total zero s unit_id v nonzero l has = elim l [ ]
    fallen_total (suc fuel) s unit_id v nonzero l (first, e1) =
        elim (Option-cases (g.graph.find s unit_id)) [
          | inr (arc, e) ↦ (target arc, f.add v arc.weight, rw (nonzero, e), target-HasArc arc)
          | inl e ↦ elim (Bool-cases (is_zero first.ilabel)) [
            | inr z ↦ (0, v, rw (nonzero, e, e1, z), ranked.start)
            | inl z ↦
                let (less, has) = ranked.lower s first e1 z in
                let (u, total, called, there) =
                  fallen_total fuel first.nextstate unit_id (f.add v first.weight) nonzero
                    (omega arith) has in
                (u, total, rw (nonzero, e, e1, z, called), there)
          ]
        ]

    next_total :
        (s : ℕ) (unit_id : ℤ) (v : f.F) (contexts : List Bytes)
        → is_zero unit_id ≡ false
        → HasArc s
        → (u : ℕ) × (total : f.F) × (collected : List Bytes) × (get_next_state g
              (suc bound)
              s
              unit_id
              v
              (some contexts)
            ≡ some (u, total, some collected))
          × HasArc u
    unfolding get_next_state take_arc collect
    next_total s unit_id v contexts nonzero (first, e1) =
        elim (Option-cases (g.graph.find s unit_id)) [
          | inr (arc, e) ↦
              let n = arc.nextstate in
              let (collected, found) =
                fallback_loop_total bound n
                  (if g.graph.is_final n then g.context_table n ∷ contexts else contexts)
                  (ranked.bounded n) in
              (target arc, f.add v arc.weight, collected, rw (nonzero, e, found), target-HasArc arc)
          | inl e ↦ elim (Bool-cases (is_zero first.ilabel)) [
            | inr z ↦ (0, v, contexts, rw (nonzero, e, e1, z), ranked.start)
            | inl z ↦
                let (less, has) = ranked.lower s first e1 z in
                let (u, total, called, there) =
                  fallen_total bound first.nextstate unit_id (f.add v first.weight) nonzero
                    (ranked.bounded first.nextstate) has in
                (u, total, contexts, rw (nonzero, e, e1, z, called), there)
          ]
        ]

    contexts_from :
        (inputs : List ℤ) (s : ℕ) (score : f.F) (contexts : List Bytes)
        → All (λ id. is_zero id ≡ false) inputs
        → HasArc s
        → (collected : List Bytes) × (collect_contexts g (suc bound) s score inputs contexts
            ≡ some collected)
    unfolding collect_contexts
    contexts_from [] s score contexts ok has = (contexts, refl)
    contexts_from (id ∷ inputs) s score contexts (nonzero, ok) has =
        let (u, total, more, called, there) = next_total s id score contexts nonzero has in
        let (collected, found) = contexts_from inputs u total more ok there in
        (collected, rw called found)

  -- On an automaton whose start has arcs, whose fallback arcs lead to states of a lower rank that
  -- have arcs, and whose fallback final states are of a lower rank: the loop over the units of a
  -- result, none of which is 0, ends. Where `bound` is above all ranks, each call of `GetNextState`
  -- takes at most `bound` rounds and one more, and none of them reads an arc of a state without arcs.
  pub collect_contexts_total :
      (bound : ℕ) (rank : ℕ → ℕ)
      → IsRanked bound rank
      → (inputs : List ℤ) (score : f.F) → All (λ id. is_zero id ≡ false) inputs
      → (collected : List Bytes) × (collect_contexts g (suc bound) 0 score inputs []
          ≡ some collected)
  collect_contexts_total bound rank ranked inputs score ok =
      contexts_from bound rank ranked inputs 0 score [] ok ranked.start
