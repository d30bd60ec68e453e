-- ===== src/PrefixScore/Stamped.antt =====
-- The times of a prefix's scores rise, whatever the scores are.
use wenet_android.Prelude.{
  ℕ, ◌+◌, ◌≤◌, ◌<◌, ◌≡◌, inl, inr, not, Option, none, some, List, [], ◌∷◌, ◌++◌, arith, Bool-cases,
  bind_inv, some_inj, if_cases,
}
use wenet_android.Prelude.Float.{Float}
use wenet_android.PrefixScore.{
  ContextGraph, PrefixScore, times, set_back, keep_context, grow_context, copy_context,
  update_context, blank_case, repeat_times, repeat_case, grow,
}
use wenet_android.Decoder.Stamps.{IsRising}

-- From `low` on, below `high`, and not falling.
abbrev pub Between : ℕ → ℕ → List ℕ → Type 0
Between low high [] = Unit
Between low high (x ∷ xs) = (low ≤ x) × (x < high) × Between x high xs

pub Between-suc : (low t : ℕ) (xs : List ℕ) → Between low t xs → Between low (t + 1) xs
Between-suc low t [] h = tt
Between-suc low t (x ∷ xs) (a, b, h) = (a, omega arith, Between-suc x t xs h)

pub Between-snoc :
    (low t : ℕ) (xs : List ℕ) → low ≤ t → Between low t xs → Between low (t + 1) (xs ++ t ∷ [])
Between-snoc low t [] le h = (le, omega arith, tt)
Between-snoc low t (x ∷ xs) le (a, b, h) = (a, omega arith, Between-snoc x t xs (omega arith) h)

pub Between-set_back :
    (low t : ℕ) (xs r : List ℕ)
    → low ≤ t
    → set_back t xs ≡ some r
    → Between low t xs
    → Between low (t + 1) r
unfolding set_back
Between-set_back low t [] r le e h = cc
Between-set_back low t (x ∷ []) r le e h = rw (some_inj _ r e) (le, omega arith, tt)
Between-set_back low t (x ∷ y ∷ xs) r le e (a, b, h) =
    let (s, e', last) = bind_inv (set_back t (y ∷ xs)) _ r e in
    rw (some_inj _ r last) (a, omega arith, Between-set_back x t (y ∷ xs) s (omega arith) e' h)

module _ {f : Float} where
  -- Both lists of times lie before the time step.
  abbrev pub IsStamped : ℕ → PrefixScore f → Type 0
  IsStamped t p = Between 0 t p.times_s × Between 0 t p.times_ns

  pub times_between : (t : ℕ) (p : PrefixScore f) → IsStamped t p → Between 0 t (times p)
  unfolding times
  times_between t p (a, b) = if_cases (Between 0 t) (f.lt p.v_ns p.v_s) (λ _. a) (λ _. b)

  keep_context-IsStamped :
      (graph : Option (ContextGraph f)) (t : ℕ) (p q : PrefixScore f)
      → IsStamped t q
      → IsStamped t (keep_context graph p q)
  unfolding keep_context copy_context
  keep_context-IsStamped none t p q h = h
  keep_context-IsStamped (some graph) t p q h =
      if_cases (IsStamped t) q.has_context (λ _. h) (λ _. h)

  grow_context-IsStamped :
      (graph : Option (ContextGraph f)) (t : ℕ) (p : PrefixScore f) (id : ℕ) (q : PrefixScore f)
      → IsStamped t q
      → IsStamped t (grow_context graph p id q)
  unfolding grow_context update_context copy_context
  grow_context-IsStamped none t p id q h = h
  grow_context-IsStamped (some graph) t p id q h =
      if_cases (IsStamped t) q.has_context (λ _. h) (λ _. h)

  module _ (graph : Option (ContextGraph f)) (t : ℕ) (prob : f.F) where
    pub blank_case-IsStamped :
        (p next : PrefixScore f)
        → IsStamped t p
        → IsStamped (t + 1) next
        → IsStamped (t + 1) (blank_case graph t prob p next)
    unfolding blank_case
    blank_case-IsStamped p next h k =
        keep_context-IsStamped graph (t + 1) p _
          (Between-suc 0 t (times p) (times_between t p h), k.1)

    repeat_times-IsStamped :
        (p next next' : PrefixScore f)
        → IsStamped t p
        → IsStamped (t + 1) next
        → repeat_times graph t prob p next ≡ some next'
        → IsStamped (t + 1) next'
    unfolding repeat_times
    repeat_times-IsStamped p next next' h k e =
        let v = f.add p.v_ns prob in
        elim (Bool-cases (not (f.lt next.v_ns v))) [
          | inl low ↦ rw (some_inj _ next' (rw low at e)) k
          | inr raised ↦ elim (Bool-cases (not (f.lt next.cur_token_prob prob))) [
            | inl seen ↦ rw (some_inj _ next' (rw (raised, seen) at e)) k
            | inr new ↦
                let (stamped, set, last) =
                  bind_inv (set_back t p.times_ns) _ next' (rw (raised, new) at e) in
                rw (some_inj _ next' last)
                  (k.0, Between-set_back 0 t p.times_ns stamped (omega arith) set h.1)
          ]
        ]

    pub repeat_case-IsStamped :
        (p next next' : PrefixScore f)
        → IsStamped t p
        → IsStamped (t + 1) next
        → repeat_case graph t prob p next ≡ some next'
        → IsStamped (t + 1) next'
    unfolding repeat_case
    repeat_case-IsStamped p next next' h k e =
        let (mid, made, last) = bind_inv (repeat_times graph t prob p _) _ next' e in
        rw (some_inj _ next' last)
          (keep_context-IsStamped graph (t + 1) p mid (repeat_times-IsStamped p _ mid h k made))

    pub grow-IsStamped :
        (from viterbi : f.F) (before : List ℕ) (p : PrefixScore f) (id : ℕ) (next : PrefixScore f)
        → Between 0 t before
        → IsStamped (t + 1) next
        → IsStamped (t + 1) (grow graph t prob from viterbi before p id next)
    unfolding grow
    grow-IsStamped from viterbi before p id next b k = grow_context-IsStamped graph (t + 1) p id _ (
        if_cases (IsStamped (t + 1)) (f.lt next.v_ns (f.add viterbi prob))
          (λ _. (k.0, Between-snoc 0 t before (omega arith) b)) (λ _. k))

-- Times that lie between two steps do not fall.
pub Between-IsRising : (high : ℕ) (xs : List ℕ) → Between 0 high xs → IsRising none xs
Between-IsRising high [] h = tt
Between-IsRising high (x ∷ xs) (_, _, h) = from x xs h
  where
    from : (low : ℕ) (ys : List ℕ) → Between low high ys → IsRising (some low) ys
    from low [] h = tt
    from low (y ∷ ys) (a, _, h) = (a, from y ys h)
