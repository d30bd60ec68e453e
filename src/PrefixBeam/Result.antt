-- ===== src/PrefixBeam/Result.antt =====
-- What the decoder reads after `Reset`, `Search` and `FinalizeSearch`.
use wenet_android.Prelude.{
  ℕ, ◌≤◌, ◌≡◌, refl, ap, ◌∙◌, true, false, Option, some, List, [], ◌∷◌, arith, min, ◌==◌, length,
  length-map, length-take, take, map, Chain, Chain-take, bind_inv, some_inj, if_cases, All-map,
}
use wenet_android.Prelude.Int.{pos}
use wenet_android.Prelude.Float.{Float, IsOrdered}
use wenet_android.TopK.{top_k}
use wenet_android.PrefixScore.{
  ContextGraph, PrefixScore, times, total_score, update_context, copy_context,
}
use wenet_android.PrefixScore.Aligned.{IsAligned, fresh-IsLive}
use wenet_android.PrefixBeam.{
  Prefix, Hyps, CtcPrefixBeamSearch, pass_tokens, sort, update_hypotheses, reset, search_frame,
  search_frames, search, back_off, back_off_all, finalize_search, prefix_score_compare,
}
use wenet_android.PrefixBeam.Maps.{
  IsApart, IsRanked, update-All, update-IsApart, sort-All, sort-IsApart, sort-IsRanked,
}
use wenet_android.PrefixBeam.Reached.{IsWalk, IsReached, AreAligned, update_hypotheses-IsReached}

module _ {f : Float} where
  -- `Reset` starts from one hypothesis, the empty prefix.
  pub reset-IsReached : (st : CtcPrefixBeamSearch f) → IsReached (reset st)
  unfolding reset times
  reset-IsReached st = record {
    apart = (tt, tt);
    aligned = (record { blank_times = λ _. refl; token_times = λ _. refl }, tt);
    hypotheses_of = refl;
    likelihood_of = refl;
    times_shown =
        if_cases {A = List ℕ} (λ ts. [] ∷ [] ≡ ts ∷ []) (f.lt (f.of_int (pos 0)) (f.of_int (pos 0)))
          (λ _. refl) (λ _. refl);
  }

module _ {f : Float} (o : IsOrdered f) where
  -- The scores do not rise along the list.
  abbrev pub IsFalling : List f.F → Type 0
  IsFalling scores = Chain (λ a b. f.lt a b ≡ false) scores

  likelihood-IsFalling :
      (arr : Hyps f) → IsRanked o arr → IsFalling (map (λ h. total_score h.1) arr)
  unfolding prefix_score_compare
  likelihood-IsFalling [] _ = tt
  likelihood-IsFalling (h ∷ arr) (first, ranked) = (
    All-map (λ h'. total_score h'.1) (λ b. f.lt (total_score h.1) b ≡ false) arr first,
    likelihood-IsFalling arr ranked,
  )

  best_few : (n : ℕ) (arr : Hyps f) → length (map (λ h. h.0) (take n arr)) ≤ n
  best_few n arr = omega (arith, length-map (take n arr) (λ h. h.0), length-take n arr)

  module _ (walk : Hyps f → Hyps f) where
    frame_result :
        (k : ℕ) (logp_t : List f.F) (st st' : CtcPrefixBeamSearch f)
        → search_frame walk k logp_t st ≡ some st'
        → (length st'.hypotheses ≤ st.opts.second_beam_size)
          × IsFalling st'.likelihood
          × (st'.opts ≡ st.opts)
    unfolding search_frame update_hypotheses
    frame_result k logp_t st st' e =
        let (items, _, e1) = bind_inv (top_k f logp_t k) _ st' e in
        let (next, _, e2) =
          bind_inv
            (pass_tokens st.opts st.context_graph st.abs_time_step items (walk st.cur_hyps) []) _
            st' e1 in
        rw (some_inj _ st' e2) (
          best_few st.opts.second_beam_size (sort (walk next)),
          likelihood-IsFalling (take st.opts.second_beam_size (sort (walk next))) (
              Chain-take (λ a b. prefix_score_compare b a ≡ false) st.opts.second_beam_size
                (sort (walk next)) (sort-IsRanked o (walk next))),
          refl,
        )

    frames_result :
        (k : ℕ) (logp_t : List f.F) (logp : List (List f.F)) (st st' : CtcPrefixBeamSearch f)
        → search_frames walk k (logp_t ∷ logp) st ≡ some st'
        → (length st'.hypotheses ≤ st.opts.second_beam_size)
          × IsFalling st'.likelihood
          × (st'.opts ≡ st.opts)
    unfolding search_frames
    frames_result k logp_t [] st st' e =
        let (mid, e1, last) =
          bind_inv (search_frame walk k logp_t st) (search_frames walk k []) st' e in
        rw (some_inj mid st' last) (frame_result k logp_t st mid e1)
    frames_result k logp_t (next ∷ logp) st st' e =
        let (mid, e1, later) =
          bind_inv (search_frame walk k logp_t st) (search_frames walk k (next ∷ logp)) st' e in
        let (_, _, same) = frame_result k logp_t st mid e1 in
        let (few, falling, same') = frames_result k next logp mid st' later in
        (rw (ap (λ opts. opts.second_beam_size) same) at few, falling, same' ∙ same)

    -- After a search of at least one frame there are no more hypotheses than the second beam allows,
    -- and their scores do not rise along the list.
    pub search_ranks :
        (logp_0 : List f.F) (logp : List (List f.F)) (st st' : CtcPrefixBeamSearch f)
        → search walk (logp_0 ∷ logp) st ≡ some st'
        → (length st'.hypotheses ≤ st.opts.second_beam_size) × IsFalling st'.likelihood
    unfolding search
    search_ranks logp_0 logp st st' e =
        let (few, falling, _) =
          frames_result (min (length logp_0) st.opts.first_beam_size) logp_0 logp st st' e in
        (few, falling)

    back_off-IsAligned :
        (graph : ContextGraph f) (n : ℕ) (p : PrefixScore f)
        → IsAligned n p
        → IsAligned n (back_off walk graph p)
    unfolding back_off update_context copy_context
    back_off-IsAligned graph n p h =
        if_cases (IsAligned n) (p.context_state == 0) (λ _. h)
          (λ _. record { blank_times = h.blank_times; token_times = h.token_times })

    back_off_all_lem :
        (graph : ContextGraph f) (prefixes : List Prefix) (hyps : Hyps f)
        → IsApart f hyps
        → AreAligned hyps
        → (hyps' : Hyps f) × (back_off_all walk graph prefixes hyps ≡ some hyps')
          × IsApart f hyps'
          × AreAligned hyps'
    unfolding back_off_all
    back_off_all_lem graph [] hyps apart aligned = (hyps, refl, apart, aligned)
    back_off_all_lem graph (prefix ∷ prefixes) hyps apart aligned =
        let g : PrefixScore f → Option (PrefixScore f) = λ p. some (back_off walk graph p) in
        let (mid, e, aligned') =
          update-All (λ key p. IsAligned (length key) p) prefix g hyps
            (fresh-IsLive o (length prefix)).aligned
            (λ p h. (_, refl, back_off-IsAligned graph (length prefix) p h)) aligned in
        let (hyps', e', rest, rest') =
          back_off_all_lem graph prefixes mid (update-IsApart prefix g hyps mid e apart) aligned' in
        (hyps', rw e e', rest, rest')

    -- From a state between two calls, with a context graph and an order of walking the hypotheses that
    -- meets each of them once, `FinalizeSearch` passes its checks, and leaves a state between two
    -- calls in which the scores do not rise along the list.
    pub finalize_reaches :
        (st : CtcPrefixBeamSearch f) (graph : ContextGraph f)
        → IsWalk walk
        → IsReached st
        → st.context_graph ≡ some graph
        → (st' : CtcPrefixBeamSearch f) × (finalize_search walk st ≡ some st')
          × IsReached st'
          × IsFalling st'.likelihood
    unfolding finalize_search
    finalize_reaches st graph is_walk h with_graph =
        let (hyps, run, apart, aligned) =
          back_off_all_lem graph st.hypotheses st.cur_hyps h.apart h.aligned in
        let arr = sort (walk hyps) in
        let (_, done) =
          update_hypotheses-IsReached o arr st
            (sort-IsApart (walk hyps) (is_walk.keeps_apart hyps apart))
            (sort-All (λ h. IsAligned (length h.0) h.1) (walk hyps)
              (is_walk.meets (λ h. IsAligned (length h.0) h.1) hyps aligned)) in
        let sizes : (length st.hypotheses == length st.cur_hyps) ≡ true =
          ground (arith, h.hypotheses_of, length-map st.cur_hyps (λ h. h.0)) in
        let scores : (length st.hypotheses == length st.likelihood) ≡ true = ground (
          arith,
          h.hypotheses_of,
          h.likelihood_of,
          length-map st.cur_hyps (λ h. h.0),
          length-map st.cur_hyps (λ h. total_score h.1),
        ) in
        (
          update_hypotheses arr st,
          rw (with_graph, sizes, scores, run),
          done,
          unfold update_hypotheses in likelihood-IsFalling arr (sort-IsRanked o (walk hyps)),
        )
