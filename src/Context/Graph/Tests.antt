-- ===== src/Context/Graph/Tests.antt =====
-- The automaton of the contexts "ac" and "b", with the units a = 1, b = 2 and c = 3.
use wenet_android.Prelude.{
  ℕ, zero, suc, false, ◌<◌, some_inj, ◌≡◌, refl, Option, none, some, List, [], ◌∷◌, arith, ◌==◌,
  ◌&&◌, ◌||◌, if◌then◌else◌, codes,
}
use wenet_android.Prelude.Int.{ℤ, pos, negsuc, ◌+ℤ◌}
use wenet_android.Prelude.Float.{whole}
use wenet_android.Text.Utf8.{Bytes}
use wenet_android.Context.Graph.{
  true, Contexts, GraphArc, get_next_state, take_arc, collect, fallback_loop, is_zero,
  collect_contexts,
}
use wenet_android.Context.Graph.Total.{HasArc, IsRanked, collect_contexts_total}

abbrev arc_to : ℤ → ℤ → ℕ → GraphArc whole
arc_to label weight next = record { ilabel = label; weight = weight; nextstate = next }

abbrev fallback : GraphArc whole
fallback = arc_to (pos 0) (negsuc 2) 0

abbrev find_arc : ℕ → ℤ → Option (GraphArc whole)
find_arc s (negsuc n) = none
find_arc s (pos n) =
    if (s == 0) && (n == 1)
    then some (arc_to (pos 1) (pos 3) 1)
    else if (s == 0) && (n == 2)
    then some (arc_to (pos 2) (pos 3) 3)
    else if (s == 1) && (n == 3)
    then some (arc_to (pos 3) (pos 3) 2)
    else none

abbrev two : Contexts whole
two = record {
  graph = record {
    find = find_arc;
    first_arc = λ s.
        if s == 1 then some fallback else if s == 0 then some (arc_to (pos 1) (pos 3) 1) else none;
    num_arcs = λ s. if (s == 0) || (s == 1) then 2 else 0;
    is_final = λ s. (s == 2) || (s == 3);
  };
  fallback_finals = λ s. none;
  context_table = λ s. if s == 2 then codes "ac" else if s == 3 then codes "b" else [];
}

b_alone : collect_contexts two 5 0 (pos 0) (pos 2 ∷ []) [] ≡ some (codes "b" ∷ [])
unfolding collect_contexts get_next_state take_arc collect fallback_loop is_zero
b_alone = refl

-- "b" behind "a" is reached by the fallback arc, and is not collected.
b_behind_a : collect_contexts two 5 0 (pos 0) (pos 1 ∷ pos 2 ∷ []) [] ≡ some []
unfolding collect_contexts get_next_state take_arc collect fallback_loop is_zero ◌+ℤ◌
b_behind_a = refl

two-IsRanked : IsRanked two 2 (λ s. if s == 1 then 1 else 0)
unfolding is_zero
two-IsRanked = record {
  bounded = λ s. ground arith;
  start = (_, refl);
  inner = inner;
  lower = lower;
  finals = λ s t e. cc;
}
  where
    inner : (s : ℕ) → (two.graph.num_arcs s == 0) ≡ false → HasArc two s
    inner zero e = (_, refl)
    inner (suc zero) e = (_, refl)
    inner (suc (suc s)) e = absurd (ground arith)

    lower :
        (s : ℕ) (arc : GraphArc whole)
        → two.graph.first_arc s ≡ some arc
        → is_zero arc.ilabel ≡ true
        → ((if arc.nextstate == 1 then 1 else 0) < (if s == 1 then 1 else 0))
          × HasArc two arc.nextstate
    lower zero arc e z = absurd (ground arith)
    lower (suc zero) arc e z = rw (some_inj fallback arc e) (omega arith, (_, refl))
    lower (suc (suc s)) arc e z = absurd (ground arith)

collect_contexts_total_example :
    (collected : List Bytes) × (collect_contexts two 3 0 (pos 0) (pos 1 ∷ pos 2 ∷ []) []
      ≡ some collected)
unfolding is_zero
collect_contexts_total_example =
    collect_contexts_total two 2 (λ s. if s == 1 then 1 else 0) two-IsRanked (pos 1 ∷ pos 2 ∷ [])
      (pos 0) (refl, (refl, tt))
