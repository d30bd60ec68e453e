-- ===== src/Context/Graph.antt =====
-- context_graph.cc: `GetNextState`, and the loop of decoder/asr_decoder.cc that collects the contexts
-- of a result. The automaton is openfst's, and what is read of it are the fields of a record.
mod Total
mod Tests
use wenet_android.Prelude.{
  ℕ, zero, suc, Bool, true, false, Option, none, some, List, [], ◌∷◌, arith, ◌==◌, if◌then◌else◌,
  ◌>>=◌, ◌>>◌, check, not,
}
use wenet_android.Prelude.Int.{ℤ, pos, negsuc}
use wenet_android.Prelude.Float.{Float}
use wenet_android.Text.Utf8.{Bytes}

pub record GraphArc (f : Float) : Type 0 where
  pub ilabel : ℤ
  pub weight : f.F
  pub nextstate : ℕ

-- `find` is what the matcher finds at a state, `first_arc` the arc that an iterator starts at.
pub record Automaton (f : Float) : Type 0 where
  pub find : ℕ → ℤ → Option (GraphArc f)
  pub first_arc : ℕ → Option (GraphArc f)
  pub num_arcs : ℕ → ℕ
  pub is_final : ℕ → Bool

-- `fallback_finals_` and `context_table_`; a state that is not in the table has the empty text.
pub record Contexts (f : Float) : Type 0 where
  pub graph : Automaton f
  pub fallback_finals : ℕ → Option ℕ
  pub context_table : ℕ → Bytes

unfoldable pub is_zero : ℤ → Bool
is_zero (pos n) = n == 0
is_zero (negsuc n) = false

module _ {f : Float} (g : Contexts f) where
  -- The loop over the final states that a state falls back to.
  unfoldable pub fallback_loop : ℕ → ℕ → List Bytes → Option (List Bytes)
  fallback_loop zero state contexts = none
  fallback_loop (suc fuel) state contexts = elim (g.fallback_finals state) [
    | none ↦ some contexts
    | some final ↦ fallback_loop fuel final (g.context_table final ∷ contexts)
  ]

  -- `contexts` is a pointer, which may be null; the set behind it is a list.
  unfoldable pub collect : ℕ → ℕ → Option (List Bytes) → Option (Option (List Bytes))
  collect fuel state none = some none
  collect fuel state (some contexts) =
      fallback_loop fuel state
        (if g.graph.is_final state then g.context_table state ∷ contexts else contexts)
      >>= λ collected. some (some collected)

  -- The arc of the unit is taken; a leaf goes back to the start.
  unfoldable pub take_arc :
      ℕ → GraphArc f → f.F → Option (List Bytes) → Option (ℕ × f.F × Option (List Bytes))
  take_arc fuel arc score contexts = collect fuel arc.nextstate contexts >>= λ collected. some (
    if g.graph.num_arcs arc.nextstate == 0 then 0 else arc.nextstate,
    f.add score arc.weight,
    collected,
  )

  unfoldable pub get_next_state :
      ℕ → ℕ → ℤ → f.F → Option (List Bytes) → Option (ℕ × f.F × Option (List Bytes))
  get_next_state zero cur_state unit_id score contexts = none
  get_next_state (suc fuel) cur_state unit_id score contexts =
      check (not (is_zero unit_id)) >> elim (g.graph.find cur_state unit_id) [
        | some arc ↦ take_arc fuel arc score contexts
        | none ↦ g.graph.first_arc cur_state >>= λ arc.
            let fallen =
              get_next_state fuel arc.nextstate unit_id (f.add score arc.weight) none
              >>= λ (state, total, _). some (state, total, contexts) in
            if is_zero arc.ilabel then fallen else some (0, score, contexts)
      ]

  -- `for (int ilabel : inputs[0])` of `AsrDecoder::UpdateResult`.
  unfoldable pub collect_contexts : ℕ → ℕ → f.F → List ℤ → List Bytes → Option (List Bytes)
  collect_contexts fuel cur_state score [] contexts = some contexts
  collect_contexts fuel cur_state score (ilabel ∷ inputs) contexts =
      get_next_state fuel cur_state ilabel score (some contexts) >>= λ (state, total, collected).
      collected >>= collect_contexts fuel state total inputs
