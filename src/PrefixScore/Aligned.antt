-- ===== src/PrefixScore/Aligned.antt =====
-- The times of a prefix are as many as its tokens, wherever its viterbi score is above the lowest.
use wenet_android.Prelude.{
  length-append, ◌++◌, ◌+◌, ◌∙◌, if_cases, ℕ, suc, ◌<◌, ◌≡◌, refl, ap, inl, inr, true, false,
  Option, none, some, List, [], ◌∷◌, arith, length, Bool-cases,
}
use wenet_android.Prelude.Float.{Float, IsOrdered}
use wenet_android.TopK.Heap.{lt_asym}
use wenet_android.PrefixScore.{
  score, log_add, not, double_case, grow, fresh, repeat_case, other_case, repeat_times,
  copy_context, update_context, ContextGraph, PrefixScore, viterbi_score, times, keep_context,
  grow_context, set_back, blank_case,
}

set_back_lem :
    (t : ℕ) (times : List ℕ)
    → 0 < length times
    → (r : List ℕ) × (set_back t times ≡ some r) × (length r ≡ length times)
unfolding set_back
set_back_lem t [] pos = absurd (omega arith)
set_back_lem t (x ∷ []) pos = (t ∷ [], refl, refl)
set_back_lem t (x ∷ y ∷ xs) pos =
    let (r, e, len) = set_back_lem t (y ∷ xs) (omega arith) in (x ∷ r, rw e, ap suc len)

module _ {f : Float} where
  -- The times are those of the prefix of `n` tokens.
  pub record IsAligned (n : ℕ) (p : PrefixScore f) : Type 0 where
    pub blank_times : f.lt f.lowest p.v_s ≡ true → length p.times_s ≡ n
    pub token_times : f.lt f.lowest p.v_ns ≡ true → length p.times_ns ≡ n

  -- While a frame is being searched.
  pub record IsLive (n : ℕ) (p : PrefixScore f) : Type 0 where
    pub aligned : IsAligned n p
    pub floor : f.lt p.v_ns f.lowest ≡ false
    pub token_seen : f.lt f.lowest p.cur_token_prob ≡ true → length p.times_ns ≡ n

  -- The context does not matter.
  same-IsLive :
      (n : ℕ) (p q : PrefixScore f)
      → p.v_s ≡ q.v_s
      → p.v_ns ≡ q.v_ns
      → p.cur_token_prob ≡ q.cur_token_prob
      → p.times_s ≡ q.times_s
      → p.times_ns ≡ q.times_ns
      → IsLive n q
      → IsLive n p
  same-IsLive n p q a b c d e h = record {
    aligned = record {
      blank_times = λ k. rw d (h.aligned.blank_times (rw a at k));
      token_times = λ k. rw e (h.aligned.token_times (rw b at k));
    };
    floor = rw b h.floor;
    token_seen = λ k. rw e (h.token_seen (rw c at k));
  }

  pub keep_context-IsLive :
      (graph : Option (ContextGraph f)) (n : ℕ) (p q : PrefixScore f)
      → IsLive n q
      → IsLive n (keep_context graph p q)
  unfolding keep_context copy_context
  keep_context-IsLive none n p q h = h
  keep_context-IsLive (some graph) n p q h =
      if_cases (IsLive n) q.has_context (λ _. h) (λ _. same-IsLive n _ q refl refl refl refl refl h)

  pub grow_context-IsLive :
      (graph : Option (ContextGraph f)) (n : ℕ) (p : PrefixScore f) (id : ℕ) (q : PrefixScore f)
      → IsLive n q
      → IsLive n (grow_context graph p id q)
  unfolding grow_context update_context copy_context
  grow_context-IsLive none n p id q h = h
  grow_context-IsLive (some graph) n p id q h =
      if_cases (IsLive n) q.has_context (λ _. h) (λ _. same-IsLive n _ q refl refl refl refl refl h)

  pub viterbi_times :
      (n : ℕ) (p : PrefixScore f)
      → IsAligned n p
      → f.lt f.lowest (viterbi_score p) ≡ true
      → length (times p) ≡ n
  unfolding viterbi_score times
  viterbi_times n p h live = elim (Bool-cases (f.lt p.v_ns p.v_s)) [
    | inl e ↦ rw e (h.blank_times (rw e at live))
    | inr e ↦ rw e (h.token_times (rw e at live))
  ]

-- A finite log-probability: adding it to a score does not lift the score above the lowest.
module _ {f : Float} (o : IsOrdered f) where
  -- `a` above the lowest is not reached by adding `prob` to the lowest or less.
  pub record IsLogProb (prob : f.F) : Type 0 where
    pub finite : f.lt f.lowest prob ≡ true
    pub sinks : (a : f.F) → f.lt f.lowest (f.add a prob) ≡ true → f.lt f.lowest a ≡ true

  above : (v w : f.F) → f.lt v f.lowest ≡ false → f.lt v w ≡ true → f.lt f.lowest w ≡ true
  above v w floor lt = elim (o.lt_split v f.lowest w lt) [ inl l ↦ cc | inr r ↦ r ]

  module _ (graph : Option (ContextGraph f)) (t : ℕ) (prob : f.F) (ok : IsLogProb prob) where
    -- A token that was seen with at least this probability was seen.
    more_likely :
        (next : PrefixScore f)
        → f.lt next.cur_token_prob prob ≡ false
        → f.lt f.lowest next.cur_token_prob ≡ true
    more_likely next h = elim (o.lt_split f.lowest next.cur_token_prob prob ok.finite) [
      | inl l ↦ l
      | inr r ↦ cc
    ]

    pub blank_case-IsLive :
        (n : ℕ) (p next : PrefixScore f)
        → IsAligned n p
        → IsLive n next
        → IsLive n (blank_case graph t prob p next)
    unfolding blank_case
    blank_case-IsLive n p next h live = keep_context-IsLive graph n p _ (record {
      aligned = record {
        blank_times = λ k. viterbi_times n p h (ok.sinks (viterbi_score p) k);
        token_times = live.aligned.token_times;
      };
      floor = live.floor;
      token_seen = live.token_seen;
    })

    repeat_times-IsLive :
        (n : ℕ) (p next : PrefixScore f)
        → 0 < n
        → IsAligned n p
        → IsLive n next
        → (next' : PrefixScore f) × (repeat_times graph t prob p next ≡ some next') × IsLive n next'
    unfolding repeat_times
    repeat_times-IsLive n p next pos h live =
        let v = f.add p.v_ns prob in
        if_cases Q (not (f.lt next.v_ns v)) (λ _. (next, refl, live))
          (λ raised.
            let up = above next.v_ns v live.floor (ground arith) in
            let floor = lt_asym o f.lowest v up in
            if_cases Q (not (f.lt next.cur_token_prob prob))
              (λ seen. (
                _,
                refl,
                record {
                  aligned = record {
                    blank_times = live.aligned.blank_times;
                    token_times = λ _. live.token_seen (more_likely next (ground arith));
                  };
                  floor = floor;
                  token_seen = live.token_seen;
                },
              ))
              (λ _.
                let len = h.token_times (ok.sinks p.v_ns up) in
                let (stamped, e, same) = set_back_lem t p.times_ns (omega arith) in
                (
                  record next { v_ns = v; cur_token_prob = prob; times_ns = stamped },
                  rw e,
                  record {
                    aligned = record {
                      blank_times = live.aligned.blank_times;
                      token_times = λ _. same ∙ len;
                    };
                    floor = floor;
                    token_seen = λ _. same ∙ len;
                  },
                )))
      where
        Q : Option (PrefixScore f) → Type 0
        Q r = (next' : PrefixScore f) × (r ≡ some next') × IsLive n next'

    pub repeat_case-IsLive :
        (n : ℕ) (p next : PrefixScore f)
        → 0 < n
        → IsAligned n p
        → IsLive n next
        → (next' : PrefixScore f) × (repeat_case graph t prob p next ≡ some next') × IsLive n next'
    unfolding repeat_case
    repeat_case-IsLive n p next pos h live =
        let summed : PrefixScore f = record next { ns = log_add f next.ns (f.add p.ns prob) } in
        let (next', e, live') =
          repeat_times-IsLive n p summed pos h
            (same-IsLive n summed next refl refl refl refl refl live) in
        (keep_context graph p next', rw e, keep_context-IsLive graph n p next' live')

    grow-IsLive :
        (n : ℕ) (from viterbi : f.F) (before : List ℕ) (p : PrefixScore f) (id : ℕ)
        (next : PrefixScore f)
        → (f.lt f.lowest viterbi ≡ true → length before + 1 ≡ n)
        → IsLive n next
        → IsLive n (grow graph t prob from viterbi before p id next)
    unfolding grow
    grow-IsLive n from viterbi before p id next fits live =
        let v = f.add viterbi prob in
        grow_context-IsLive graph n p id _ (
          if_cases (IsLive n) (f.lt next.v_ns v)
            (λ lt.
              let up = above next.v_ns v live.floor lt in
              let len : length (before ++ t ∷ []) ≡ n =
                omega (arith, length-append before (t ∷ []), fits (ok.sinks viterbi up)) in
              record {
                aligned = record { blank_times = live.aligned.blank_times; token_times = λ _. len };
                floor = lt_asym o f.lowest v up;
                token_seen = λ _. len;
              })
            (λ _. same-IsLive n _ next refl refl refl refl refl live))

    pub double_case-IsLive :
        (n : ℕ) (p : PrefixScore f) (id : ℕ) (next : PrefixScore f)
        → IsAligned n p
        → IsLive (n + 1) next
        → IsLive (n + 1) (double_case graph t prob p id next)
    unfolding double_case
    double_case-IsLive n p id next h live =
        grow-IsLive (n + 1) p.s p.v_s p.times_s p id next (λ k. omega (arith, h.blank_times k)) live

    pub other_case-IsLive :
        (n : ℕ) (p : PrefixScore f) (id : ℕ) (next : PrefixScore f)
        → IsAligned n p
        → IsLive (n + 1) next
        → IsLive (n + 1) (other_case graph t prob p id next)
    unfolding other_case
    other_case-IsLive n p id next h live =
        grow-IsLive (n + 1) (score p) (viterbi_score p) (times p) p id next
          (λ k. omega (arith, viterbi_times n p h k)) live

  pub fresh-IsLive : (n : ℕ) → IsLive n (fresh {f = f})
  fresh-IsLive n = record {
    aligned = record {
      blank_times = λ k. let t = o.lt_irrefl f.lowest in cc;
      token_times = λ k. let t = o.lt_irrefl f.lowest in cc;
    };
    floor = o.lt_irrefl f.lowest;
    token_seen = λ k. let t = o.lt_irrefl f.lowest in cc;
  }
