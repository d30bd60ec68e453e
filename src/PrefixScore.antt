-- ===== src/PrefixScore.antt =====
-- wenet/runtime/core/decoder/ctc_prefix_beam_search.{h,cc}: the scores of one prefix, and what the
-- four cases of the token passing do to the scores of a prefix of the next frame.
pub mod Aligned
pub mod Stamped
use wenet_android.Prelude.{
  ℕ, ◌+◌, Bool, true, false, not, Option, none, some, List, [], ◌∷◌, ◌++◌, arith, if◌then◌else◌,
  ◌>>=◌,
}
use wenet_android.Prelude.Int.{ℤ, pos}
use wenet_android.Prelude.Float.{Float}
use wenet_android.TopK.{log_add}

-- What the search needs of decoder/context_graph.h: the next state and the score of the step.
pub record ContextGraph (f : Float) : Type 0 where
  pub get_next_state : ℕ → ℤ → ℕ × f.F

pub record PrefixScore (f : Float) : Type 0 where
  pub s : f.F
  pub ns : f.F
  pub v_s : f.F
  pub v_ns : f.F
  pub cur_token_prob : f.F
  pub times_s : List ℕ
  pub times_ns : List ℕ
  pub has_context : Bool
  pub context_state : ℕ
  pub context_score : f.F

-- `CHECK_GT(times.size(), 0); times.back() = t`
unfoldable pub set_back : ℕ → List ℕ → Option (List ℕ)
set_back t [] = none
set_back t (x ∷ []) = some (t ∷ [])
set_back t (x ∷ y ∷ xs) = set_back t (y ∷ xs) >>= λ r. some (x ∷ r)

module _ {f : Float} where
  abbrev pub fresh : PrefixScore f
  fresh = record {
    s = f.lowest;
    ns = f.lowest;
    v_s = f.lowest;
    v_ns = f.lowest;
    cur_token_prob = f.lowest;
    times_s = [];
    times_ns = [];
    has_context = false;
    context_state = 0;
    context_score = f.of_int (pos 0);
  }

  unfoldable pub score : PrefixScore f → f.F
  score p = log_add f p.s p.ns

  unfoldable pub viterbi_score : PrefixScore f → f.F
  viterbi_score p = if f.lt p.v_ns p.v_s then p.v_s else p.v_ns

  unfoldable pub times : PrefixScore f → List ℕ
  times p = if f.lt p.v_ns p.v_s then p.times_s else p.times_ns

  unfoldable pub total_score : PrefixScore f → f.F
  total_score p = f.add (score p) p.context_score

  -- `next.CopyContext(prefix_score)`
  unfoldable pub copy_context : PrefixScore f → PrefixScore f → PrefixScore f
  copy_context prefix_score next = record next {
    context_state = prefix_score.context_state;
    context_score = prefix_score.context_score;
  }

  unfoldable pub update_context : ContextGraph f → PrefixScore f → ℤ → PrefixScore f → PrefixScore f
  update_context graph prefix_score word_id next =
      let copied = copy_context prefix_score next in
      let (state, score) = graph.get_next_state prefix_score.context_state word_id in
      record copied { context_state = state; context_score = f.add copied.context_score score }

  -- The context of a prefix that stays the same, and of one that grows by `id`: once per frame.
  unfoldable pub keep_context :
      Option (ContextGraph f) → PrefixScore f → PrefixScore f → PrefixScore f
  keep_context none prefix_score next = next
  keep_context (some graph) prefix_score next =
      if next.has_context
      then next
      else record (copy_context prefix_score next) { has_context = true }

  unfoldable pub grow_context :
      Option (ContextGraph f) → PrefixScore f → ℕ → PrefixScore f → PrefixScore f
  grow_context none prefix_score id next = next
  grow_context (some graph) prefix_score id next =
      if next.has_context
      then next
      else record (update_context graph prefix_score (pos id) next) { has_context = true }

  module _ (graph : Option (ContextGraph f)) (abs_time_step : ℕ) (prob : f.F) where
    -- Case 0: *a + ε => *a
    unfoldable pub blank_case : PrefixScore f → PrefixScore f → PrefixScore f
    blank_case prefix_score next = keep_context graph prefix_score (record next {
      s = log_add f next.s (f.add (score prefix_score) prob);
      v_s = f.add (viterbi_score prefix_score) prob;
      times_s = times prefix_score;
    })

    -- Case 1: *a + a => *a
    unfoldable pub repeat_times : PrefixScore f → PrefixScore f → Option (PrefixScore f)
    repeat_times prefix_score next =
        let v = f.add prefix_score.v_ns prob in
        if not (f.lt next.v_ns v)
        then some next
        else if not (f.lt next.cur_token_prob prob)
        then some (record next { v_ns = v })
        else (set_back abs_time_step prefix_score.times_ns >>= (λ stamped.
            some (record next { v_ns = v; cur_token_prob = prob; times_ns = stamped })))

    unfoldable pub repeat_case : PrefixScore f → PrefixScore f → Option (PrefixScore f)
    repeat_case prefix_score next =
        repeat_times prefix_score
          (record next { ns = log_add f next.ns (f.add prefix_score.ns prob) })
        >>= λ next'. some (keep_context graph prefix_score next')

    -- A prefix that grows by the token, from a score, a viterbi score and its times.
    unfoldable pub grow : f.F → f.F → List ℕ → PrefixScore f → ℕ → PrefixScore f → PrefixScore f
    grow from viterbi before prefix_score id next =
        let summed : PrefixScore f = record next { ns = log_add f next.ns (f.add from prob) } in
        let v = f.add viterbi prob in
        grow_context graph prefix_score id (
          if f.lt next.v_ns v
          then record summed {
            v_ns = v;
            cur_token_prob = prob;
            times_ns = before ++ abs_time_step ∷ [];
          }
          else summed)

    -- Case 2: *aε + a => *aa
    unfoldable pub double_case : PrefixScore f → ℕ → PrefixScore f → PrefixScore f
    double_case prefix_score id next =
        grow prefix_score.s prefix_score.v_s prefix_score.times_s prefix_score id next

    -- Case 3: *a + b => *ab, *aε + b => *ab
    unfoldable pub other_case : PrefixScore f → ℕ → PrefixScore f → PrefixScore f
    other_case prefix_score id next =
        grow (score prefix_score) (viterbi_score prefix_score) (times prefix_score) prefix_score id
          next
