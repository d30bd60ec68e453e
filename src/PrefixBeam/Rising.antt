-- ===== src/PrefixBeam/Rising.antt =====
-- The times of every hypothesis rise along the prefix, whatever the scores are.
use wenet_android.Prelude.{
  ℕ, ◌+◌, ◌≡◌, inl, inr, Option, none, some, List, [], ◌∷◌, ◌++◌, ◌==◌, take, All, All-take,
  All-map, All-map_of, Bool-cases, bind_inv, some_inj, if_cases, bytes_eq, ◌>>◌, check, length,
}
use wenet_android.Prelude.Float.{Float}
use wenet_android.TopK.{Item, top_k}
use wenet_android.PrefixScore.{
  ContextGraph, PrefixScore, fresh, times, copy_context, update_context, blank_case, repeat_case,
  double_case, other_case, viterbi_score, score,
}
use wenet_android.PrefixBeam.{
  Prefix, Hyps, Options, CtcPrefixBeamSearch, ends_with, update, pass, pass_all, pass_tokens, sort,
  assign, assign_all, update_hypotheses, reset, search_frame, search_frames, search, back_off,
  back_off_all, finalize_search,
}
use wenet_android.PrefixBeam.Maps.{sort-All}
use wenet_android.PrefixBeam.Reached.{IsWalk}
use wenet_android.PrefixScore.Stamped.{
  Between, IsStamped, times_between, blank_case-IsStamped, repeat_case-IsStamped, grow-IsStamped,
}

module _ {f : Float} where
  abbrev pub AllStamped : ℕ → Hyps f → Type 0
  AllStamped t hyps = All (λ h. IsStamped t h.1) hyps

  -- What an update keeps, if it is made.
  update_stamped :
      (t : ℕ) (prefix : Prefix) (g : PrefixScore f → Option (PrefixScore f)) (hyps hyps' : Hyps f)
      → update prefix g hyps ≡ some hyps'
      → ((p p' : PrefixScore f) → IsStamped t p → g p ≡ some p' → IsStamped t p')
      → AllStamped t hyps
      → AllStamped t hyps'
  unfolding update
  update_stamped t prefix g [] hyps' e keeps _ =
      let (p', made, last) = bind_inv (g fresh) _ hyps' e in
      rw (some_inj _ hyps' last) (keeps fresh p' (tt, tt) made, tt)
  update_stamped t prefix g ((key, p) ∷ hyps) hyps' e keeps (h, hs) =
      elim (Bool-cases (bytes_eq prefix key)) [
        | inl same ↦
            let (p', made, last) =
              bind_inv (g p) (λ p'. some ((key, p') ∷ hyps)) hyps' (rw same at e) in
            rw (some_inj _ hyps' last) (keeps p p' h made, hs)
        | inr other ↦
            let (later, run, last) =
              bind_inv (update prefix g hyps) (λ later. some ((key, p) ∷ later)) hyps'
                (rw other at e) in
            rw (some_inj _ hyps' last) (h, update_stamped t prefix g hyps later run keeps hs)
      ]

  module _ (opts : Options) (graph : Option (ContextGraph f)) (t : ℕ) where
    pass_stamped :
        (item : Item f) (hyp : Prefix × PrefixScore f) (next next' : Hyps f)
        → pass opts graph t item hyp next ≡ some next'
        → IsStamped t hyp.1
        → AllStamped (t + 1) next
        → AllStamped (t + 1) next'
    unfolding pass double_case other_case
    pass_stamped (prob, id) (prefix, p) next next' e h hs =
        let grown = prefix ++ id ∷ [] in
        elim (Bool-cases (id == opts.blank)) [
          | inl blank ↦
              update_stamped (t + 1) prefix (λ q. some (blank_case graph t prob p q)) next next'
                (rw blank at e)
                (λ q q' k made. rw (some_inj _ q' made) (blank_case-IsStamped graph t prob p q h k))
                hs
          | inr token ↦ elim (Bool-cases (ends_with id prefix)) [
            | inl again ↦
                let (mid, first, second) =
                  bind_inv (update prefix (repeat_case graph t prob p) next)
                    (update grown (λ q. some (double_case graph t prob p id q))) next'
                    (rw (token, again) at e) in
                update_stamped (t + 1) grown (λ q. some (double_case graph t prob p id q)) mid next'
                  second
                  (λ q q' k made.
                    rw (some_inj _ q' made)
                      (grow-IsStamped graph t prob p.s p.v_s p.times_s p id q h.0 k))
                  (update_stamped (t + 1) prefix (repeat_case graph t prob p) next mid first
                    (λ q q' k made. repeat_case-IsStamped graph t prob p q q' h k made) hs)
            | inr other ↦
                update_stamped (t + 1) grown (λ q. some (other_case graph t prob p id q)) next next'
                  (rw (token, other) at e)
                  (λ q q' k made. rw (some_inj _ q' made) (
                    grow-IsStamped graph t prob (score p) (viterbi_score p) (times p) p id q
                      (times_between t p h) k))
                  hs
          ]
        ]

    pass_all_stamped :
        (item : Item f) (hyps next next' : Hyps f)
        → pass_all opts graph t item hyps next ≡ some next'
        → AllStamped t hyps
        → AllStamped (t + 1) next
        → AllStamped (t + 1) next'
    unfolding pass_all
    pass_all_stamped item [] next next' e _ hs = rw (some_inj _ next' e) hs
    pass_all_stamped item (hyp ∷ hyps) next next' e (h, hs) ks =
        let (mid, first, rest) = bind_inv (pass opts graph t item hyp next) _ next' e in
        pass_all_stamped item hyps mid next' rest hs (pass_stamped item hyp next mid first h ks)

    pass_tokens_stamped :
        (items : List (Item f)) (hyps next next' : Hyps f)
        → pass_tokens opts graph t items hyps next ≡ some next'
        → AllStamped t hyps
        → AllStamped (t + 1) next
        → AllStamped (t + 1) next'
    unfolding pass_tokens
    pass_tokens_stamped [] hyps next next' e hs ks = rw (some_inj _ next' e) ks
    pass_tokens_stamped (item ∷ items) hyps next next' e hs ks =
        let (mid, first, rest) = bind_inv (pass_all opts graph t item hyps next) _ next' e in
        pass_tokens_stamped items hyps mid next' rest hs
          (pass_all_stamped item hyps next mid first hs ks)

  assign_stamped :
      (t : ℕ) (item : Prefix × PrefixScore f) (hyps : Hyps f)
      → IsStamped t item.1
      → AllStamped t hyps
      → AllStamped t (assign item hyps)
  unfolding assign
  assign_stamped t item [] h _ = (h, tt)
  assign_stamped t item (hyp ∷ hyps) h (k, ks) =
      if_cases (AllStamped t) (bytes_eq item.0 hyp.0) (λ _. (h, ks))
        (λ _. (k, assign_stamped t item hyps h ks))

  assign_all_stamped :
      (t : ℕ) (hpys hyps : Hyps f)
      → AllStamped t hpys
      → AllStamped t hyps
      → AllStamped t (assign_all hpys hyps)
  unfolding assign_all
  assign_all_stamped t [] hyps _ ks = ks
  assign_all_stamped t (item ∷ hpys) hyps (h, hs) ks =
      assign_all_stamped t hpys (assign item hyps) hs (assign_stamped t item hyps h ks)

  -- The times that are kept and those that are shown lie before the time step.
  pub record AreStamped (st : CtcPrefixBeamSearch f) : Type 0 where
    pub kept : AllStamped st.abs_time_step st.cur_hyps
    pub shown : All (Between 0 st.abs_time_step) st.times_of

  pub reset-AreStamped : (st : CtcPrefixBeamSearch f) → AreStamped (reset st)
  unfolding reset
  reset-AreStamped st = record { kept = ((tt, tt), tt); shown = (tt, tt) }

  update_hypotheses-AreStamped :
      (t : ℕ) (arr : Hyps f) (st : CtcPrefixBeamSearch f)
      → AllStamped t arr
      → AreStamped (record (update_hypotheses arr st) { abs_time_step = t })
  unfolding update_hypotheses
  update_hypotheses-AreStamped t arr st h = record {
    kept = assign_all_stamped t arr [] h tt;
    shown =
        All-map (λ h. times h.1) (Between 0 t) arr
          (All-map_of (λ h k. times_between t h.1 k) arr h);
  }

  module _ (walk : Hyps f → Hyps f) (is_walk : IsWalk walk) where
    sorted_stamped : (t : ℕ) (hyps : Hyps f) → AllStamped t hyps → AllStamped t (sort (walk hyps))
    sorted_stamped t hyps h =
        sort-All (λ h. IsStamped t h.1) (walk hyps) (is_walk.meets (λ h. IsStamped t h.1) hyps h)

    frame-AreStamped :
        (k : ℕ) (logp_t : List f.F) (st st' : CtcPrefixBeamSearch f)
        → search_frame walk k logp_t st ≡ some st'
        → AreStamped st
        → AreStamped st'
    unfolding search_frame
    frame-AreStamped k logp_t st st' e h =
        let t = st.abs_time_step in
        let (items, _, e1) = bind_inv (top_k f logp_t k) _ st' e in
        let (next, run, last) =
          bind_inv (pass_tokens st.opts st.context_graph t items (walk st.cur_hyps) []) _ st' e1 in
        let stamped =
          pass_tokens_stamped st.opts st.context_graph t items (walk st.cur_hyps) [] next run
            (is_walk.meets (λ h. IsStamped t h.1) st.cur_hyps h.kept) tt in
        rw (some_inj _ st' last) (
          update_hypotheses-AreStamped (t + 1) (take st.opts.second_beam_size (sort (walk next))) st
            (All-take (λ h. IsStamped (t + 1) h.1) st.opts.second_beam_size (sort (walk next))
              (sorted_stamped (t + 1) next stamped)))

    frames-AreStamped :
        (k : ℕ) (logp : List (List f.F)) (st st' : CtcPrefixBeamSearch f)
        → search_frames walk k logp st ≡ some st'
        → AreStamped st
        → AreStamped st'
    unfolding search_frames
    frames-AreStamped k [] st st' e h = rw (some_inj _ st' e) h
    frames-AreStamped k (logp_t ∷ logp) st st' e h =
        let (mid, first, rest) = bind_inv (search_frame walk k logp_t st) _ st' e in
        frames-AreStamped k logp mid st' rest (frame-AreStamped k logp_t st mid first h)

    pub search-AreStamped :
        (logp : List (List f.F)) (st st' : CtcPrefixBeamSearch f)
        → search walk logp st ≡ some st'
        → AreStamped st
        → AreStamped st'
    unfolding search
    search-AreStamped [] st st' e h = rw (some_inj _ st' e) h
    search-AreStamped (logp_0 ∷ logp) st st' e h = frames-AreStamped _ (logp_0 ∷ logp) st st' e h

    back_off_all_stamped :
        (t : ℕ) (graph : ContextGraph f) (prefixes : List Prefix) (hyps hyps' : Hyps f)
        → back_off_all walk graph prefixes hyps ≡ some hyps'
        → AllStamped t hyps
        → AllStamped t hyps'
    unfolding back_off_all back_off update_context copy_context
    back_off_all_stamped t graph [] hyps hyps' e hs = rw (some_inj _ hyps' e) hs
    back_off_all_stamped t graph (prefix ∷ prefixes) hyps hyps' e hs =
        let (mid, first, rest) =
          bind_inv (update prefix (λ p. some (back_off walk graph p)) hyps) _ hyps' e in
        back_off_all_stamped t graph prefixes mid hyps' rest (
          update_stamped t prefix (λ p. some (back_off walk graph p)) hyps mid first
            (λ p p' h made.
              rw (some_inj _ p' made)
                (if_cases (IsStamped t) (p.context_state == 0) (λ _. h) (λ _. h)))
            hs)

    with_graph :
        (st st' : CtcPrefixBeamSearch f) (g : Option (ContextGraph f))
        → finalize_search walk (record st { context_graph = g }) ≡ some st'
        → AreStamped st
        → AreStamped st'
    unfolding finalize_search update_hypotheses
    with_graph st st' none e h = rw (some_inj _ st' e) (record { kept = h.kept; shown = h.shown })
    with_graph st st' (some graph) e h =
        let (_, _, e1) =
          bind_inv
            (check (length st.hypotheses == length st.cur_hyps)
              >> check (length st.hypotheses == length st.likelihood))
            _ st' e in
        let (hyps, run, last) =
          bind_inv (back_off_all walk graph st.hypotheses st.cur_hyps) _ st' e1 in
        rw (some_inj _ st' last) (
          update_hypotheses-AreStamped st.abs_time_step (sort (walk hyps))
            (record st { context_graph = some graph })
            (sorted_stamped st.abs_time_step hyps (
              back_off_all_stamped st.abs_time_step graph st.hypotheses st.cur_hyps hyps run
                h.kept)))

    pub finalize-AreStamped :
        (st st' : CtcPrefixBeamSearch f)
        → finalize_search walk st ≡ some st'
        → AreStamped st
        → AreStamped st'
    finalize-AreStamped st st' e h = with_graph st st' st.context_graph e h
