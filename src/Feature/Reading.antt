-- ===== src/Feature/Reading.antt =====
-- What the decoder reads.
use native.Mathlib.Decide.{dec_le}
use wenet_android.Prelude.{
  ℕ, zero, suc, ◌≤◌, ◌<◌, ◌≡◌, ◌↔◌, Bool, true, false, Option, none, some, List, [], ◌∷◌, ◌++◌,
  arith, if◌then◌else◌, length, take, drop, append-nil, ◌>>=◌, length-take, length-drop,
  take-append-drop, concat,
}
use wenet_android.Feature.{FeaturePipeline, read}

module _ {S V : Type 0} where
  -- `Read` takes features off the front of the queue: as many as asked for if it says so, and
  -- otherwise all that are left, which are fewer, once the input is finished.
  pub read_sound :
      (n : ℕ) (p q : FeaturePipeline S V) (enough : Bool) (feats : List V)
      → read n p ≡ some (enough, feats, q)
      → (feats ++ q.feature_queue ≡ p.feature_queue)
        × (enough ≡ true → length feats ≡ n)
        × (enough ≡ false → (length feats < n) × (p.input_finished ≡ true) × (q.feature_queue ≡ []))
  unfolding read
  read_sound n p q enough feats h = ground (
    arith,
    take-append-drop n p.feature_queue,
    length-take n p.feature_queue,
    append-nil p.feature_queue,
  )

  -- It waits exactly when the queue is short and more may come.
  pub read_waits_iff :
      (n : ℕ) (p : FeaturePipeline S V)
      → (read n p ≡ none) ↔ ((length p.feature_queue < n) × (p.input_finished ≡ false))
  unfolding read
  read_waits_iff n p = (λ h. ground arith, λ (a, b). ground arith)

  -- The decoder's loop: `Read(n)` until it says that the input has ended.
  pub read_all : ℕ → ℕ → FeaturePipeline S V → Option (List (List V))
  read_all zero n p = none
  read_all (suc fuel) n p = read n p >>= λ (enough, feats, q).
      let rest = read_all fuel n q in
      if enough then (rest >>= λ more. some (feats ∷ more)) else some (feats ∷ [])

  read_enough :
      (n : ℕ) (p : FeaturePipeline S V)
      → n ≤ length p.feature_queue
      → read n p
        ≡ some (true, take n p.feature_queue, record p { feature_queue = drop n p.feature_queue })
  unfolding read
  read_enough n p h = ground arith

  read_last :
      (n : ℕ) (p : FeaturePipeline S V)
      → length p.feature_queue < n
      → p.input_finished ≡ true
      → read n p ≡ some (false, p.feature_queue, record p { feature_queue = [] })
  unfolding read
  read_last n p h e = ground arith

  -- Once the input is finished the loop ends, with no wait, and its reads hold every queued feature
  -- once and in order.
  pub read_all_drains :
      (fuel n : ℕ) (p : FeaturePipeline S V)
      → 0 < n
      → p.input_finished ≡ true
      → length p.feature_queue < fuel
      → (chunks : List (List V)) × (read_all fuel n p ≡ some chunks)
        × (concat chunks ≡ p.feature_queue)
  unfolding read_all
  read_all_drains zero n p pos fin h = absurd (omega arith)
  read_all_drains (suc fuel) n p pos fin h = elim (dec_le n (length p.feature_queue)) [
    | yes many ↦
        let q = record p { feature_queue = drop n p.feature_queue } in
        let (chunks, e, all) =
          read_all_drains fuel n q pos fin (omega (arith, length-drop n p.feature_queue)) in
        (
          take n p.feature_queue ∷ chunks,
          rw (read_enough n p many, e),
          rw all (take-append-drop n p.feature_queue),
        )
    | no few ↦
        (p.feature_queue ∷ [], rw (read_last n p (omega arith) fin), append-nil p.feature_queue)
  ]
