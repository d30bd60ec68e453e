-- ===== src/PrefixBeam/Reached.antt =====
-- A search never fails on log-probabilities, and keeps the hypotheses apart and their times aligned.
use wenet_android.Prelude.{
  All-take, Chain-take, ◌∙◌, All-get_elem?, All-map_of, ℕ, ◌+◌, ◌<◌, ◌≡◌, refl, inl, inr, true,
  Option, some, List, [], ◌∷◌, ◌++◌, arith, ◌==◌, length, length-append, map, All, Bool-cases,
}
use wenet_android.Prelude.Float.{Float, IsOrdered}
use wenet_android.TopK.Best.{top_k_best}
use wenet_android.TopK.{Item}
use wenet_android.PrefixScore.{
  ContextGraph, PrefixScore, blank_case, repeat_case, double_case, other_case, times, total_score,
}
use wenet_android.PrefixScore.Aligned.{
  IsAligned, IsLive, IsLogProb, blank_case-IsLive, repeat_case-IsLive, double_case-IsLive,
  other_case-IsLive, fresh-IsLive,
}
use wenet_android.PrefixBeam.{
  min, search, false, bytes_eq, sort, take, search_frames, search_frame, Prefix, Hyps, Options,
  CtcPrefixBeamSearch, ends_with, update, pass, pass_all, pass_tokens, update_hypotheses,
}
use wenet_android.PrefixBeam.Maps.{
  sort-All, sort-IsApart, IsApart, update-All, update-IsApart, assign_all_lem,
}

-- Walking a map meets every entry and no other, in some order.
pub record IsWalk {f : Float} (walk : Hyps f → Hyps f) : Type 1 where
  pub meets : (P : Prefix × PrefixScore f → Type 0) (hyps : Hyps f) → All P hyps → All P (walk hyps)
  pub keeps_apart : (hyps : Hyps f) → IsApart f hyps → IsApart f (walk hyps)
  pub keeps_length : (hyps : Hyps f) → length (walk hyps) ≡ length hyps

module _ {f : Float} where
  abbrev pub AreAligned : Hyps f → Type 0
  AreAligned hyps = All (λ h. IsAligned (length h.0) h.1) hyps

  abbrev pub AreLive : Hyps f → Type 0
  AreLive hyps = All (λ h. IsLive (length h.0) h.1) hyps

  -- What holds of the search between two calls.
  pub record IsReached (st : CtcPrefixBeamSearch f) : Type 0 where
    pub apart : IsApart f st.cur_hyps
    pub aligned : AreAligned st.cur_hyps
    pub hypotheses_of : st.hypotheses ≡ map (λ h. h.0) st.cur_hyps
    pub likelihood_of : st.likelihood ≡ map (λ h. total_score h.1) st.cur_hyps
    pub times_shown : st.times_of ≡ map (λ h. times h.1) st.cur_hyps

ends_with_pos : (id : ℕ) (prefix : Prefix) → ends_with id prefix ≡ true → 0 < length prefix
unfolding ends_with
ends_with_pos id [] h = cc
ends_with_pos id (x ∷ xs) h = omega arith

module _ {f : Float} (o : IsOrdered f) where
  update_live :
      (prefix : Prefix) (g : PrefixScore f → Option (PrefixScore f)) (hyps : Hyps f)
      → ((p : PrefixScore f)
          → IsLive (length prefix) p
          → (p' : PrefixScore f) × (g p ≡ some p') × IsLive (length prefix) p')
      → AreLive hyps
      → IsApart f hyps
      → (hyps' : Hyps f) × (update prefix g hyps ≡ some hyps') × AreLive hyps' × IsApart f hyps'
  update_live prefix g hyps keeps live apart =
      let (hyps', e, live') =
        update-All (λ key p. IsLive (length key) p) prefix g hyps (fresh-IsLive o (length prefix))
          keeps live in
      (hyps', e, live', update-IsApart prefix g hyps hyps' e apart)

  module _ (opts : Options) (graph : Option (ContextGraph f)) (t : ℕ) where
    pass_live :
        (item : Item f) (hyp : Prefix × PrefixScore f) (next : Hyps f)
        → IsLogProb o item.0
        → IsAligned (length hyp.0) hyp.1
        → AreLive next
        → IsApart f next
        → (next' : Hyps f) × (pass opts graph t item hyp next ≡ some next')
          × AreLive next'
          × IsApart f next'
    unfolding pass
    pass_live (prob, id) (prefix, p) next ok h live apart =
        let grown = prefix ++ id ∷ [] in
        let n = length prefix in
        let len : length grown ≡ n + 1 = length-append prefix (id ∷ []) in
        elim (Bool-cases (id == opts.blank)) [
          | inl blank ↦
              let (next', e, lv, ap) =
                update_live prefix (λ q. some (blank_case graph t prob p q)) next
                  (λ q live_q. (_, refl, blank_case-IsLive o graph t prob ok n p q h live_q)) live
                  apart in
              (next', rw blank e, lv, ap)
          | inr token ↦ elim (Bool-cases (ends_with id prefix)) [
            | inl again ↦
                let (mid, e, live', apart') =
                  update_live prefix (repeat_case graph t prob p) next
                    (λ q live_q.
                      repeat_case-IsLive o graph t prob ok n p q (ends_with_pos id prefix again) h
                        live_q)
                    live apart in
                let (next', e', lv, ap) =
                  update_live grown (λ q. some (double_case graph t prob p id q)) mid
                    (λ q live_q. (
                      _,
                      refl,
                      rw len (double_case-IsLive o graph t prob ok n p id q h (rw len at live_q)),
                    ))
                    live' apart' in
                (next', rw (token, again, e) e', lv, ap)
            | inr other ↦
                let (next', e', lv, ap) =
                  update_live grown (λ q. some (other_case graph t prob p id q)) next
                    (λ q live_q. (
                      _,
                      refl,
                      rw len (other_case-IsLive o graph t prob ok n p id q h (rw len at live_q)),
                    ))
                    live apart in
                (next', rw (token, other) e', lv, ap)
          ]
        ]

    pass_all_live :
        (item : Item f) (hyps next : Hyps f)
        → IsLogProb o item.0
        → AreAligned hyps
        → AreLive next
        → IsApart f next
        → (next' : Hyps f) × (pass_all opts graph t item hyps next ≡ some next')
          × AreLive next'
          × IsApart f next'
    unfolding pass_all
    pass_all_live item [] next ok _ live apart = (next, refl, live, apart)
    pass_all_live item (hyp ∷ hyps) next ok (h, hs) live apart =
        let (mid, e, live', apart') = pass_live item hyp next ok h live apart in
        let (next', e', lv, ap) = pass_all_live item hyps mid ok hs live' apart' in
        (next', rw e e', lv, ap)

    pass_tokens_live :
        (items : List (Item f)) (hyps next : Hyps f)
        → All (λ item. IsLogProb o item.0) items
        → AreAligned hyps
        → AreLive next
        → IsApart f next
        → (next' : Hyps f) × (pass_tokens opts graph t items hyps next ≡ some next')
          × AreLive next'
          × IsApart f next'
    unfolding pass_tokens
    pass_tokens_live [] hyps next _ hs live apart = (next, refl, live, apart)
    pass_tokens_live (item ∷ items) hyps next (ok, oks) hs live apart =
        let (mid, e, live', apart') = pass_all_live item hyps next ok hs live apart in
        let (next', e', lv, ap) = pass_tokens_live items hyps mid oks hs live' apart' in
        (next', rw e e', lv, ap)

  -- Showing a map's entries makes it the current one.
  pub update_hypotheses-IsReached :
      (arr : Hyps f) (st : CtcPrefixBeamSearch f)
      → IsApart f arr
      → AreAligned arr
      → (update_hypotheses arr st).cur_hyps ≡ arr × IsReached (update_hypotheses arr st)
  unfolding update_hypotheses
  update_hypotheses-IsReached arr st apart aligned =
      let rebuilt = assign_all_lem arr apart in
      (
        rebuilt,
        record {
          apart = rw rebuilt apart;
          aligned = rw rebuilt aligned;
          hypotheses_of = rw rebuilt;
          likelihood_of = rw rebuilt;
          times_shown = rw rebuilt;
        },
      )

  module _ (walk : Hyps f → Hyps f) (is_walk : IsWalk walk) where
    -- One frame of log-probabilities.
    search_frame_lem :
        (k : ℕ) (logp_t : List f.F) (st : CtcPrefixBeamSearch f)
        → 0 < k
        → All (IsLogProb o) logp_t
        → IsReached st
        → (st' : CtcPrefixBeamSearch f) × (search_frame walk k logp_t st ≡ some st')
          × IsReached st'
          × (st'.opts ≡ st.opts)
          × (st'.abs_time_step ≡ st.abs_time_step + 1)
    unfolding search_frame update_hypotheses
    search_frame_lem k logp_t st pos ok h =
        let (items, best, _, entries, _, _, _) = top_k_best o logp_t k pos in
        let probs : All (λ item. IsLogProb o item.0) items =
          All-map_of {Q = λ item. IsLogProb o item.0}
            (λ item e. All-get_elem? (IsLogProb o) logp_t item.1 item.0 ok e) items entries in
        let (next, run, live, apart) =
          pass_tokens_live st.opts st.context_graph st.abs_time_step items (walk st.cur_hyps) []
            probs (is_walk.meets (λ h. IsAligned (length h.0) h.1) st.cur_hyps h.aligned) tt tt in
        let aligned : AreAligned next =
          All-map_of {Q = λ h. IsAligned (length h.0) h.1}
            (λ h (l : IsLive (length h.0) h.1). l.aligned) next live in
        let arr = take st.opts.second_beam_size (sort (walk next)) in
        let (_, done) =
          update_hypotheses-IsReached arr st
            (Chain-take (λ a b. bytes_eq b.0 a.0 ≡ false) st.opts.second_beam_size
              (sort (walk next)) (sort-IsApart (walk next) (is_walk.keeps_apart next apart)))
            (All-take (λ h. IsAligned (length h.0) h.1) st.opts.second_beam_size (sort (walk next))
              (sort-All (λ h. IsAligned (length h.0) h.1) (walk next)
                (is_walk.meets (λ h. IsAligned (length h.0) h.1) next aligned))) in
        (
          record (update_hypotheses arr st) { abs_time_step = st.abs_time_step + 1 },
          rw (best, run),
          record {
            apart = done.apart;
            aligned = done.aligned;
            hypotheses_of = done.hypotheses_of;
            likelihood_of = done.likelihood_of;
            times_shown = done.times_shown;
          },
          refl,
          refl,
        )

    search_frames_lem :
        (k : ℕ) (logp : List (List f.F)) (st : CtcPrefixBeamSearch f)
        → 0 < k
        → All (All (IsLogProb o)) logp
        → IsReached st
        → (st' : CtcPrefixBeamSearch f) × (search_frames walk k logp st ≡ some st')
          × IsReached st'
          × (st'.opts ≡ st.opts)
          × (st'.abs_time_step ≡ st.abs_time_step + length logp)
    unfolding search_frames
    search_frames_lem k [] st pos _ h = (st, refl, h, refl, omega arith)
    search_frames_lem k (logp_t ∷ logp) st pos (ok, oks) h =
        let (mid, e, h', same, step) = search_frame_lem k logp_t st pos ok h in
        let (st', e', h'', same', steps) = search_frames_lem k logp mid pos oks h' in
        (st', rw e e', h'', same' ∙ same, omega arith)

    -- From a state with its hypotheses apart and their times aligned, `Search` on finite
    -- log-probabilities passes all its checks and ends in such a state, one time step further for
    -- each frame, if the first frame and the first beam are not empty.
    pub search_reaches :
        (logp_0 : List f.F) (logp : List (List f.F)) (st : CtcPrefixBeamSearch f)
        → 0 < length logp_0
        → 0 < st.opts.first_beam_size
        → All (All (IsLogProb o)) (logp_0 ∷ logp)
        → IsReached st
        → (st' : CtcPrefixBeamSearch f) × (search walk (logp_0 ∷ logp) st ≡ some st')
          × IsReached st'
          × (st'.opts ≡ st.opts)
          × (st'.abs_time_step ≡ st.abs_time_step + length (logp_0 ∷ logp))
    unfolding search
    search_reaches logp_0 logp st some_ids some_beam ok h =
        search_frames_lem (min (length logp_0) st.opts.first_beam_size) (logp_0 ∷ logp) st
          (omega arith) ok h
