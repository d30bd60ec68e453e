-- ===== src/PrefixBeam/Tests.antt =====
-- Searches on whole numbers, and the theorems at them.
use wenet_android.Prelude.{
  ℕ, ◌+◌, ◌≡◌, ◌≤◌, ◌<◌, refl, Option, none, some, List, [], ◌∷◌, length, All, arith, ◌>>=◌,
}
use wenet_android.Prelude.Int.{ℤ, negsuc, ◌+ℤ◌, ◌-ℤ◌}
use wenet_android.Prelude.Float.{whole, whole-IsOrdered}
use wenet_android.TopK.{top_k, heap_data, replace_loop, fill, push, value_comp, log_add}
use wenet_android.PrefixScore.{
  blank_case, repeat_case, repeat_times, double_case, other_case, grow, keep_context, grow_context,
  update_context, copy_context, set_back, score, viterbi_score, times, total_score, ContextGraph,
}
use wenet_android.PrefixScore.Aligned.{IsLogProb}
use wenet_android.PrefixBeam.{
  Prefix, Hyps, CtcPrefixBeamSearch, reset, search, finalize_search, search_frames, search_frame,
  pass_tokens, pass_all, pass, update, ends_with, sort, insert, prefix_score_compare,
  update_hypotheses, assign_all, assign,
}
use wenet_android.PrefixBeam.Reached.{IsWalk, IsReached, search_reaches}
use wenet_android.PrefixBeam.Result.{IsFalling, reset-IsReached, search_ranks, finalize_reaches}

-- A map that is walked in the order of insertion.
abbrev in_order : Hyps whole → Hyps whole
in_order hyps = hyps

in_order-IsWalk : IsWalk in_order
in_order-IsWalk = record {
  meets = λ P hyps h. h;
  keeps_apart = λ hyps h. h;
  keeps_length = λ hyps. refl;
}

-- Every context step costs one.
abbrev costly : ContextGraph whole
costly = record { get_next_state = λ state word_id. (state + 1, negsuc 0) }

abbrev search_with : ℕ → ℕ → Option (ContextGraph whole) → CtcPrefixBeamSearch whole
search_with first second graph = record {
  opts = record { blank = 0; first_beam_size = first; second_beam_size = second };
  context_graph = graph;
  abs_time_step = 0;
  hypotheses = [];
  likelihood = [];
  viterbi_likelihood = [];
  times_of = [];
  outputs = [];
  cur_hyps = [];
}

abbrev start : CtcPrefixBeamSearch whole
start = reset (search_with 2 2 (some costly))

-- Units: blank, 1 and 2.
abbrev frame_1 : List ℤ
frame_1 = negsuc 9 ∷ negsuc 0 ∷ negsuc 4 ∷ []

abbrev frame_blank : List ℤ
frame_blank = negsuc 0 ∷ negsuc 9 ∷ negsuc 10 ∷ []

log_prob : (n : ℕ) → n < 999_999 → IsLogProb whole-IsOrdered (negsuc n)
unfolding ◌+ℤ◌
log_prob n h = record { finite = ground arith; sinks = λ a k. ground arith }

abbrev shown : CtcPrefixBeamSearch whole → Option (List Prefix × List (List ℕ))
shown st = some (st.hypotheses, st.times_of)

-- With a first beam of one unit, "1, blank, 1" leaves the hypothesis of one unit without a time.
lone_beam :
    (search in_order (frame_1 ∷ frame_blank ∷ frame_1 ∷ []) (reset (search_with 1 10 none))
      >>= shown)
    ≡ some ((1 ∷ 1 ∷ []) ∷ (1 ∷ []) ∷ [], (0 ∷ 2 ∷ []) ∷ [] ∷ [])
unfolding search search_frames search_frame reset top_k heap_data replace_loop fill push value_comp
    pass_tokens pass_all pass update ends_with blank_case repeat_case repeat_times double_case
    other_case grow keep_context grow_context update_context copy_context set_back score
    viterbi_score times total_score log_add sort insert prefix_score_compare update_hypotheses
    assign_all assign ◌+ℤ◌ ◌-ℤ◌
lone_beam = refl

abbrev frames : List (List ℤ)
frames = frame_blank ∷ []

frames_ok : All (All (IsLogProb whole-IsOrdered)) (frame_1 ∷ frames)
frames_ok = (
  (log_prob 9 (omega arith), (log_prob 0 (omega arith), (log_prob 4 (omega arith), tt))),
  ((log_prob 0 (omega arith), (log_prob 9 (omega arith), (log_prob 10 (omega arith), tt))), tt),
)

search_reaches_example :
    (st' : CtcPrefixBeamSearch whole) × (search in_order (frame_1 ∷ frames) start ≡ some st')
    × IsReached st'
    × (st'.opts ≡ start.opts)
    × (st'.abs_time_step ≡ start.abs_time_step + 2)
search_reaches_example =
    search_reaches whole-IsOrdered in_order in_order-IsWalk frame_1 frames start (omega arith)
      (unfold reset in omega arith) frames_ok (reset-IsReached (search_with 2 2 (some costly)))

abbrev or_start : Option (CtcPrefixBeamSearch whole) → CtcPrefixBeamSearch whole
or_start none = start
or_start (some st) = st

abbrev after : CtcPrefixBeamSearch whole
after = or_start (search in_order (frame_1 ∷ frames) start)

after_run : search in_order (frame_1 ∷ frames) start ≡ some after
unfolding search search_frames search_frame reset top_k heap_data replace_loop fill push value_comp
    pass_tokens pass_all pass update ends_with blank_case repeat_case repeat_times double_case
    other_case grow keep_context grow_context update_context copy_context set_back score
    viterbi_score times total_score log_add sort insert prefix_score_compare update_hypotheses
    assign_all assign ◌+ℤ◌ ◌-ℤ◌
after_run = refl

after-IsReached : IsReached after
after-IsReached =
    let (st', run, h, _, _) =
      search_reaches whole-IsOrdered in_order in_order-IsWalk frame_1 frames start (omega arith)
        (unfold reset in omega arith) frames_ok (reset-IsReached (search_with 2 2 (some costly))) in
    rw run h

search_ranks_example : (length after.hypotheses ≤ 2) × IsFalling whole-IsOrdered after.likelihood
unfolding reset
search_ranks_example = search_ranks whole-IsOrdered in_order frame_1 frames start after after_run

finalize_reaches_example :
    (st' : CtcPrefixBeamSearch whole) × (finalize_search in_order after ≡ some st')
    × IsReached st'
    × IsFalling whole-IsOrdered st'.likelihood
unfolding search search_frames search_frame reset top_k heap_data replace_loop fill push value_comp
    pass_tokens pass_all pass update ends_with blank_case repeat_case repeat_times double_case
    other_case grow keep_context grow_context update_context copy_context set_back score
    viterbi_score times total_score log_add sort insert prefix_score_compare update_hypotheses
    assign_all assign ◌+ℤ◌ ◌-ℤ◌
finalize_reaches_example =
    finalize_reaches whole-IsOrdered in_order after costly in_order-IsWalk after-IsReached refl
