-- ===== src/Queue/Transfer.antt =====
-- One thread pushes a vector while another pops `num` values: every interleaving of their rounds.
use wenet_android.Prelude.{
  ℕ, zero, suc, ◌+◌, ◌≤◌, ◌<◌, ◌≡◌, ◌⊎◌, refl, ap, ◌∙◌, sym, none, some, List, [], ◌∷◌, ◌++◌, arith,
  length, take, drop, append_assoc, length-append, Option-cases, inl, inr, take-append, drop-append,
}
use wenet_android.Queue.{BlockingQueue, push, pop, push_values, pop_num}

-- The two calls and the queue between them.
pub record Transfer {ℓ} (A : Type ℓ) : Type ℓ where
  pub values : List A  -- what `Push` has not pushed yet
  pub shared : BlockingQueue A
  pub missing : ℕ  -- `num - block_data.size()`
  pub block_data : List A

module _ {ℓ} {A : Type ℓ} where
  -- A round of one of the two loops, when its thread need not wait.
  pub data Round (t : Transfer A) : Transfer A → Type ℓ where
    pushes :
        (a : A) (rest : List A) (q : BlockingQueue A)
        → t.values ≡ a ∷ rest
        → push a t.shared ≡ some q
        → Round t (record t { values = rest; shared = q })
    pops :
        (a : A) (n : ℕ) (q : BlockingQueue A)
        → t.missing ≡ suc n
        → pop t.shared ≡ some (a, q)
        → Round t (record t { shared = q; missing = n; block_data = t.block_data ++ a ∷ [] })

  pub data Rounds (t : Transfer A) : Transfer A → Type ℓ where
    here : Rounds t t
    next : {u v : Transfer A} → Rounds t u → Round u v → Rounds t v

  -- All values, in the order in which they pass.
  abbrev pub stream : Transfer A → List A
  stream t = t.block_data ++ (t.shared.queue ++ t.values)

  -- What no round changes, and the bound on the queue.
  pub record Same (t u : Transfer A) : Type ℓ where
    pub in_order : stream u ≡ stream t
    pub total : length u.block_data + u.missing ≡ length t.block_data + t.missing
    pub capacity : u.shared.capacity ≡ t.shared.capacity
    pub bounded : length u.shared.queue ≤ u.shared.capacity

  pub push_lem :
      (a : A) (q q' : BlockingQueue A)
      → push a q ≡ some q'
      → (q'.queue ≡ q.queue ++ a ∷ []) × (q'.capacity ≡ q.capacity) × (length q.queue < q.capacity)
  unfolding push
  push_lem a q q' h = ground arith

  pub pop_lem :
      (q q' : BlockingQueue A) (a : A)
      → pop q ≡ some (a, q')
      → (q.queue ≡ a ∷ q'.queue) × (q'.capacity ≡ q.capacity)
  unfolding pop
  pop_lem q q' a h = ground arith

  Round-Same : {t u : Transfer A} → length t.shared.queue ≤ t.shared.capacity → Round t u → Same t u
  Round-Same {t} b (pushes a rest q e h) =
      let (k, c, room) = push_lem a t.shared q h in
      record {
        in_order =
            rw (k, e) (ap (λ l. t.block_data ++ l) (append_assoc t.shared.queue (a ∷ []) rest));
        total = refl;
        capacity = c;
        bounded = rw (k, c) (omega (arith, length-append t.shared.queue (a ∷ [])));
      }
  Round-Same {t} b (pops a n q e h) =
      let (k, c) = pop_lem t.shared q a h in
      record {
        in_order = rw k (append_assoc t.block_data (a ∷ []) (q.queue ++ t.values));
        total = omega (arith, length-append t.block_data (a ∷ []));
        capacity = c;
        bounded = omega (arith, ap length k);
      }

  Rounds-Same :
      {t u : Transfer A} → length t.shared.queue ≤ t.shared.capacity → Rounds t u → Same t u
  Rounds-Same b here = record { in_order = refl; total = refl; capacity = refl; bounded = b }
  Rounds-Same b (next r s) =
      let past = Rounds-Same b r in
      let last = Round-Same past.bounded s in
      record {
        in_order = last.in_order ∙ past.in_order;
        total = last.total ∙ past.total;
        capacity = last.capacity ∙ past.capacity;
        bounded = last.bounded;
      }

  -- In every interleaving `Pop(num)` returns the first `num` values of the queue and of what is
  -- pushed behind it, in that order, and the queue never outgrows its capacity.
  pub pop_num_in_order :
      (q : BlockingQueue A) (values : List A) (num : ℕ) (u : Transfer A)
      → length q.queue ≤ q.capacity
      → Rounds (record { values = values; shared = q; missing = num; block_data = [] }) u
      → u.missing ≡ 0
      → (u.block_data ≡ take num (q.queue ++ values))
        × (u.shared.queue ++ u.values ≡ drop num (q.queue ++ values))
        × (length u.shared.queue ≤ q.capacity)
  pop_num_in_order q values num u b r done =
      let same = Rounds-Same b r in
      let size : length u.block_data ≡ num = omega (arith, same.total) in
      let rest = u.shared.queue ++ u.values in
      (
        sym (take-append u.block_data rest) ∙ cut take size same.in_order,
        sym (drop-append u.block_data rest) ∙ cut drop size same.in_order,
        omega (arith, same.bounded, same.capacity),
      )
    where
      cut :
          (f : ℕ → List A → List A)
          → length u.block_data ≡ num
          → u.block_data ++ (u.shared.queue ++ u.values) ≡ q.queue ++ values
          → f (length u.block_data) (u.block_data ++ (u.shared.queue ++ u.values))
            ≡ f num (q.queue ++ values)
      cut f size order = rw (size, order)

  first : {t u v : Transfer A} → Round t u → Rounds u v → Rounds t v
  first s here = next here s
  first s (next r l) = next (first s r) l

  pop_front :
      (a : A) (rest : List A) (q : BlockingQueue A)
      → q.queue ≡ a ∷ rest
      → pop q ≡ some (a, record q { queue = rest })
  unfolding pop
  pop_front a rest q h = rw (h, pop)

  join : {t u v : Transfer A} → Rounds t u → Rounds u v → Rounds t v
  join r here = r
  join r (next l s) = next (join r l) s

  abbrev pub state : List A → BlockingQueue A → ℕ → List A → Transfer A
  state values q n got = record { values = values; shared = q; missing = n; block_data = got }

  -- The loop of `Push(values)` up to its wait is a sequence of such rounds.
  push_values-Rounds :
      (values : List A) (q : BlockingQueue A) (n : ℕ) (got : List A)
      → Rounds
          (state values q n got)
          (state (push_values values q).0 (push_values values q).1 n got)
  unfolding push_values
  push_values-Rounds [] q n got = here
  push_values-Rounds (a ∷ values) q n got = elim (Option-cases (push a q)) [
    | inl e ↦ rw (e, push_values) here
    | inr (q', e) ↦
        rw (e, push_values) (first (pushes a values q' refl e) (push_values-Rounds values q' n got))
  ]

  pop_num-Rounds :
      (n : ℕ) (got values : List A) (q : BlockingQueue A)
      → Rounds
          (state values q n got)
          (state values (pop_num n got q).2 (pop_num n got q).0 (pop_num n got q).1)
  unfolding pop_num
  pop_num-Rounds zero got values q = here
  pop_num-Rounds (suc n) got values q = elim (Option-cases (pop q)) [
    | inl e ↦ rw (e, pop_num) here
    | inr ((a, q'), e) ↦
        rw (e, pop_num) (first (pops a n q' refl e) (pop_num-Rounds n (got ++ a ∷ []) values q'))
  ]

  push_waits : (a : A) (q : BlockingQueue A) → push a q ≡ none → q.capacity ≤ length q.queue
  unfolding push
  push_waits a q e = ground arith

  pop_waits : (q : BlockingQueue A) → pop q ≡ none → q.queue ≡ []
  unfolding pop
  pop_waits q e = empty q.queue refl
    where
      empty : (l : List A) → q.queue ≡ l → q.queue ≡ []
      empty [] e' = e'
      empty (a ∷ rest) e' = absurd (cc (pop_front a rest q e'))

  -- Where the loops stop: done, or at a full or an empty queue.
  pub push_values_stops :
      (values : List A) (q : BlockingQueue A)
      → ((push_values values q).0 ≡ [])
        ⊎ ((push_values values q).1.capacity ≤ length (push_values values q).1.queue)
  unfolding push_values
  push_values_stops [] q = inl refl
  push_values_stops (a ∷ values) q = elim (Option-cases (push a q)) [
    | inl e ↦ rw (e, push_values) (inr (push_waits a q e))
    | inr (q', e) ↦ rw (e, push_values) (push_values_stops values q')
  ]

  pub pop_num_stops :
      (n : ℕ) (got : List A) (q : BlockingQueue A)
      → ((pop_num n got q).0 ≡ 0) ⊎ ((pop_num n got q).2.queue ≡ [])
  unfolding pop_num
  pop_num_stops zero got q = inl refl
  pop_num_stops (suc n) got q = elim (Option-cases (pop q)) [
    | inl e ↦ rw (e, pop_num) (inr (pop_waits q e))
    | inr ((a, q'), e) ↦ rw (e, pop_num) (pop_num_stops n (got ++ a ∷ []) q')
  ]

  -- The loops of `Push(values)` and of `Pop(num)`, one behind the other, are rounds of the two
  -- threads; the first stops when all values are pushed or the queue is full, the second when no
  -- value is missing or the queue is empty.
  pub calls-Rounds :
      (values got : List A) (q : BlockingQueue A) (n : ℕ)
      → let (left, q') = push_values values q in
        let (missing, block_data, q'') = pop_num n got q' in
        Rounds (state values q n got) (state left q'' missing block_data)
        × ((left ≡ []) ⊎ (q'.capacity ≤ length q'.queue))
        × ((missing ≡ 0) ⊎ (q''.queue ≡ []))
  calls-Rounds values got q n = (
    join (push_values-Rounds values q n got)
        (pop_num-Rounds n got (push_values values q).0 (push_values values q).1),
    push_values_stops values q,
    pop_num_stops n got (push_values values q).1,
  )
