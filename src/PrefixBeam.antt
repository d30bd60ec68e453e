-- ===== src/PrefixBeam.antt =====
-- wenet/runtime/core/decoder/ctc_prefix_beam_search.{h,cc}: `CtcPrefixBeamSearch`. An unordered map
-- is the list of its entries; the order in which the code walks it is the parameter `walk`.
mod Maps
pub mod Reached
mod Result
pub mod Rising
mod Tests
use wenet_android.Prelude.{
  ℕ, ◌+◌, ◌≡◌, Bool, true, false, not, ◌&&◌, Option, none, some, List, [], ◌∷◌, ◌++◌, arith, min,
  if◌then◌else◌, ◌==◌, bytes_eq, length, take, map, All, Chain, ◌>>=◌, ◌>>◌, check,
}
use wenet_android.Prelude.Int.{ℤ, pos, negsuc}
use wenet_android.Prelude.Float.{Float}
use wenet_android.TopK.{Item, top_k}
use wenet_android.PrefixScore.{
  ContextGraph, PrefixScore, fresh, viterbi_score, times, total_score, update_context, blank_case,
  repeat_case, double_case, other_case,
}

abbrev pub Prefix : Type 0
Prefix = List ℕ

abbrev pub Hyps : Float → Type 0
Hyps f = List (Prefix × PrefixScore f)

pub record Options : Type 0 where
  pub blank : ℕ
  pub first_beam_size : ℕ
  pub second_beam_size : ℕ

pub record CtcPrefixBeamSearch (f : Float) : Type 0 where
  pub opts : Options
  pub context_graph : Option (ContextGraph f)
  pub abs_time_step : ℕ
  pub hypotheses : List Prefix
  pub likelihood : List f.F
  pub viterbi_likelihood : List f.F
  pub times_of : List (List ℕ)
  pub outputs : List Prefix
  pub cur_hyps : Hyps f

-- `!prefix.empty() && id == prefix.back()`
unfoldable pub ends_with : ℕ → Prefix → Bool
ends_with id [] = false
ends_with id (x ∷ []) = id == x
ends_with id (x ∷ y ∷ xs) = ends_with id (y ∷ xs)

module _ {f : Float} where
  -- `hyps[prefix]`, made fresh if it is not there, and changed by `g`.
  unfoldable pub update :
      Prefix → (PrefixScore f → Option (PrefixScore f)) → Hyps f → Option (Hyps f)
  update prefix g [] = g fresh >>= λ p. some ((prefix, p) ∷ [])
  update prefix g ((key, p) ∷ hyps) =
      let later = update prefix g hyps in
      if bytes_eq prefix key
      then (g p >>= (λ p'. some ((key, p') ∷ hyps)))
      else (later >>= (λ hyps'. some ((key, p) ∷ hyps')))

  -- Token passing from one hypothesis by one token.
  unfoldable pub pass :
      Options
      → Option (ContextGraph f)
      → ℕ
      → Item f
      → Prefix × PrefixScore f
      → Hyps f
      → Option (Hyps f)
  pass opts graph t (prob, id) (prefix, prefix_score) next_hyps =
      let grown = prefix ++ id ∷ [] in
      if id == opts.blank
      then update prefix (λ next. some (blank_case graph t prob prefix_score next)) next_hyps
      else if ends_with id prefix
      then (update prefix (repeat_case graph t prob prefix_score) next_hyps >>= (λ next_hyps'.
          update grown (λ next. some (double_case graph t prob prefix_score id next)) next_hyps'))
      else update grown (λ next. some (other_case graph t prob prefix_score id next)) next_hyps

  unfoldable pub pass_all :
      Options → Option (ContextGraph f) → ℕ → Item f → Hyps f → Hyps f → Option (Hyps f)
  pass_all opts graph t item [] next_hyps = some next_hyps
  pass_all opts graph t item (hyp ∷ hyps) next_hyps =
      pass opts graph t item hyp next_hyps >>= λ next_hyps'.
      pass_all opts graph t item hyps next_hyps'

  unfoldable pub pass_tokens :
      Options → Option (ContextGraph f) → ℕ → List (Item f) → Hyps f → Hyps f → Option (Hyps f)
  pass_tokens opts graph t [] hyps next_hyps = some next_hyps
  pass_tokens opts graph t (item ∷ items) hyps next_hyps =
      pass_all opts graph t item hyps next_hyps >>= λ next_hyps'.
      pass_tokens opts graph t items hyps next_hyps'

  unfoldable pub prefix_score_compare : Prefix × PrefixScore f → Prefix × PrefixScore f → Bool
  prefix_score_compare a b = f.lt (total_score b.1) (total_score a.1)

  -- `std::sort`
  unfoldable pub insert : Prefix × PrefixScore f → Hyps f → Hyps f
  insert a [] = a ∷ []
  insert a (b ∷ arr) =
      let later = insert a arr in if prefix_score_compare b a then b ∷ later else a ∷ b ∷ arr

  unfoldable pub sort : Hyps f → Hyps f
  sort [] = []
  sort (a ∷ arr) = insert a (sort arr)

  -- `cur_hyps_[item.first] = item.second`
  unfoldable pub assign : Prefix × PrefixScore f → Hyps f → Hyps f
  assign item [] = item ∷ []
  assign item (hyp ∷ hyps) =
      let later = assign item hyps in
      if bytes_eq item.0 hyp.0 then (hyp.0, item.1) ∷ hyps else hyp ∷ later

  unfoldable pub assign_all : Hyps f → Hyps f → Hyps f
  assign_all [] cur_hyps = cur_hyps
  assign_all (item ∷ hpys) cur_hyps = assign_all hpys (assign item cur_hyps)

  unfoldable pub update_hypotheses : Hyps f → CtcPrefixBeamSearch f → CtcPrefixBeamSearch f
  update_hypotheses hpys st = record st {
    cur_hyps = assign_all hpys [];
    hypotheses = map (λ item. item.0) hpys;
    outputs = map (λ item. item.0) hpys;
    likelihood = map (λ item. total_score item.1) hpys;
    viterbi_likelihood = map (λ item. viterbi_score item.1) hpys;
    times_of = map (λ item. times item.1) hpys;
  }

  abbrev pub first_score : PrefixScore f
  first_score = record (fresh {f = f}) {
    s = f.of_int (pos 0);
    ns = f.lowest;
    v_s = f.of_int (pos 0);
    v_ns = f.of_int (pos 0);
  }

  unfoldable pub reset : CtcPrefixBeamSearch f → CtcPrefixBeamSearch f
  reset st = record st {
    abs_time_step = 0;
    cur_hyps = ([], first_score) ∷ [];
    outputs = [] ∷ [];
    hypotheses = [] ∷ [];
    likelihood = total_score first_score ∷ [];
    viterbi_likelihood = [];
    times_of = [] ∷ [];
  }

  module _ (walk : Hyps f → Hyps f) where
    -- One frame. `nth_element`, `resize` and `sort` leave the best entries in order.
    unfoldable pub search_frame :
        ℕ → List f.F → CtcPrefixBeamSearch f → Option (CtcPrefixBeamSearch f)
    search_frame first_beam_size logp_t st = do
      items ← top_k f logp_t first_beam_size
      next_hyps ← pass_tokens st.opts st.context_graph st.abs_time_step items (walk st.cur_hyps) []
      let arr = take st.opts.second_beam_size (sort (walk next_hyps))
      some (record (update_hypotheses arr st) { abs_time_step = st.abs_time_step + 1 })

    unfoldable pub search_frames :
        ℕ → List (List f.F) → CtcPrefixBeamSearch f → Option (CtcPrefixBeamSearch f)
    search_frames first_beam_size [] st = some st
    search_frames first_beam_size (logp_t ∷ logp) st =
        search_frame first_beam_size logp_t st >>= λ st'. search_frames first_beam_size logp st'

    unfoldable pub search : List (List f.F) → CtcPrefixBeamSearch f → Option (CtcPrefixBeamSearch f)
    search [] st = some st
    search (logp_0 ∷ logp) st =
        search_frames (min (length logp_0) st.opts.first_beam_size) (logp_0 ∷ logp) st

    -- The context score of one hypothesis, backed off.
    unfoldable pub back_off : ContextGraph f → PrefixScore f → PrefixScore f
    back_off graph p = if p.context_state == 0 then p else update_context graph p (negsuc 0) p

    unfoldable pub back_off_all : ContextGraph f → List Prefix → Hyps f → Option (Hyps f)
    back_off_all graph [] cur_hyps = some cur_hyps
    back_off_all graph (prefix ∷ prefixes) cur_hyps =
        update prefix (λ p. some (back_off graph p)) cur_hyps >>= λ cur_hyps'.
        back_off_all graph prefixes cur_hyps'

    unfoldable pub finalize_search : CtcPrefixBeamSearch f → Option (CtcPrefixBeamSearch f)
    finalize_search st = elim st.context_graph [
      | none ↦ some st
      | some graph ↦
          check (length st.hypotheses == length st.cur_hyps)
          >> check (length st.hypotheses == length st.likelihood)
          >>= λ _. back_off_all graph st.hypotheses st.cur_hyps >>= λ cur_hyps.
              some (update_hypotheses (sort (walk cur_hyps)) st)
    ]
