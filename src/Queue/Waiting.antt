-- ===== src/Queue/Waiting.antt =====
-- utils/blocking_queue.h: `Push(values)` and `Pop(num)` in two threads, with the condition variables.
-- A turn of a thread is what it does under the mutex, from its start or from being woken up to its
-- next wait or its return. A thread is woken by a notification only.
use wenet_android.Prelude.{
  ℕ, zero, suc, ◌+◌, ◌*◌, ◌≤◌, ◌<◌, ◌≡◌, refl, ap, Bool, true, false, not, List, [], ◌∷◌, ◌++◌,
  ◌==◌, arith, if◌then◌else◌, length, length-append, Option-cases, Bool-cases, inl, inr,
}
use wenet_android.Queue.{BlockingQueue, push, pop, push_values, pop_num}
use wenet_android.Queue.Transfer.{Transfer, push_lem, pop_lem, push_values_stops, pop_num_stops}

pub record Threads {ℓ} (A : Type ℓ) : Type ℓ where
  pub transfer : Transfer A
  pub producer_waits : Bool  -- on `not_full_condition_`
  pub consumer_waits : Bool  -- on `not_empty_condition_`

module _ {ℓ} {A : Type ℓ} where
  -- The loop of `Push(values)`; before it waits, and when it is done, it notifies the other thread.
  unfoldable pub producer_turn : Threads A → Threads A
  producer_turn t =
      let (values, q) = push_values t.transfer.values t.transfer.shared in
      record {
        transfer = record t.transfer { values = values; shared = q };
        producer_waits = not (length values == 0);
        consumer_waits = false;
      }

  -- The loop of `Pop(num)`, which notifies in the same way.
  unfoldable pub consumer_turn : Threads A → Threads A
  consumer_turn t =
      let (missing, block_data, q) =
        pop_num t.transfer.missing t.transfer.block_data t.transfer.shared in
      record {
        transfer = record t.transfer { missing = missing; block_data = block_data; shared = q };
        producer_waits = false;
        consumer_waits = not (missing == 0);
      }

  -- A thread that neither waits nor has returned takes its turn.
  pub data Turn (t : Threads A) : Threads A → Type ℓ where
    produces : t.producer_waits ≡ false → 0 < length t.transfer.values → Turn t (producer_turn t)
    consumes : t.consumer_waits ≡ false → 0 < t.transfer.missing → Turn t (consumer_turn t)

  -- A number of turns, of either thread.
  pub data Turns (t : Threads A) : ℕ → Threads A → Type ℓ where
    start : Turns t 0 t
    turn : (n : ℕ) (u v : Threads A) → Turns t n u → Turn u v → Turns t (suc n) v

  -- What is left to do: values to push and to pop, and the threads that do not wait.
  unfoldable left : Threads A → ℕ
  left t =
      2 * (length t.transfer.values + t.transfer.missing)
      + (if t.producer_waits then 0 else 1)
      + (if t.consumer_waits then 0 else 1)

  record IsLive (t : Threads A) : Type ℓ where
    capacity_pos : 0 < t.transfer.shared.capacity
    bounded : length t.transfer.shared.queue ≤ t.transfer.shared.capacity
    full : t.producer_waits ≡ true → t.transfer.shared.capacity ≤ length t.transfer.shared.queue
    empty : t.consumer_waits ≡ true → length t.transfer.shared.queue ≡ 0
    enough : t.transfer.missing ≤ length t.transfer.shared.queue + length t.transfer.values

  push_sizes :
      (values : List A) (q : BlockingQueue A)
      → length q.queue ≤ q.capacity
      → let (rest, q') = push_values values q in
        (q'.capacity ≡ q.capacity)
        × (length q'.queue + length rest ≡ length q.queue + length values)
        × (length rest ≤ length values)
        × (length q'.queue ≤ q.capacity)
  unfolding push_values
  push_sizes [] q b = (refl, refl, omega arith, b)
  push_sizes (a ∷ values) q b = elim (Option-cases (push a q)) [
    | inl e ↦ rw (e, push_values) (refl, refl, omega arith, b)
    | inr (q', e) ↦
        let (k, c, room) = push_lem a q q' e in
        let size : length q'.queue ≡ length q.queue + 1 =
          omega (arith, ap length k, length-append q.queue (a ∷ [])) in
        let (c', sum, few, b') = push_sizes values q' (omega arith) in
        rw (e, push_values) (omega arith, omega arith, omega arith, omega arith)
  ]

  pop_sizes :
      (n : ℕ) (got : List A) (q : BlockingQueue A)
      → let (n', got', q') = pop_num n got q in
        (q'.capacity ≡ q.capacity) × (length q.queue + n' ≡ length q'.queue + n) × (n' ≤ n)
  unfolding pop_num
  pop_sizes zero got q = (refl, refl, omega arith)
  pop_sizes (suc n) got q = elim (Option-cases (pop q)) [
    | inl e ↦ rw (e, pop_num) (refl, refl, omega arith)
    | inr ((a, q'), e) ↦
        let (k, c) = pop_lem q q' a e in
        let size : length q.queue ≡ suc (length q'.queue) = ap length k in
        let (c', sum, few) = pop_sizes n (got ++ a ∷ []) q' in
        rw (e, pop_num) (omega arith, omega arith, omega arith)
  ]

  push_stop :
      (values : List A) (q : BlockingQueue A)
      → let (rest, q') = push_values values q in
        not (length rest == 0) ≡ true → q'.capacity ≤ length q'.queue
  push_stop values q more = elim (push_values_stops values q) [
    | inl done ↦ let e = ap length done in absurd (ground arith)
    | inr stop ↦ stop
  ]

  pop_stop :
      (n : ℕ) (got : List A) (q : BlockingQueue A)
      → let (n', got', q') = pop_num n got q in not (n' == 0) ≡ true → length q'.queue ≡ 0
  pop_stop n got q more = elim (pop_num_stops n got q) [
    | inl done ↦ absurd (ground arith)
    | inr stop ↦ ap length stop
  ]

  -- A turn keeps the invariant and leaves less to do.
  Turn-IsLive : (t u : Threads A) → Turn t u → IsLive t → IsLive u × (left u < left t)
  unfolding producer_turn consumer_turn left
  Turn-IsLive t u (produces ready some_left) live =
      let values = t.transfer.values in
      let q = t.transfer.shared in
      let (c, sum, few, b) = push_sizes values q live.bounded in
      let stop = push_stop values q in
      let en = live.enough in
      let e = live.empty in
      (
        record {
          capacity_pos = omega (arith, live.capacity_pos);
          bounded = omega arith;
          full = stop;
          empty = λ k. cc;
          enough = omega arith;
        },
        grind (arith, live.capacity_pos, live.bounded),
      )
  Turn-IsLive t u (consumes ready some_left) live =
      let q = t.transfer.shared in
      let (c, sum, few) = pop_sizes t.transfer.missing t.transfer.block_data q in
      let stop = pop_stop t.transfer.missing t.transfer.block_data q in
      let en = live.enough in
      let f = live.full in
      (
        record {
          capacity_pos = omega (arith, live.capacity_pos);
          bounded = omega (arith, live.bounded);
          full = λ k. cc;
          empty = stop;
          enough = omega arith;
        },
        grind (arith, live.capacity_pos, live.bounded),
      )

  Turns-IsLive :
      (t u : Threads A) (n : ℕ) → Turns t n u → IsLive t → IsLive u × (n + left u ≤ left t)
  Turns-IsLive t u n start live = (live, omega arith)
  Turns-IsLive t u n (turn m mid last turns step) live =
      let (mid_live, spent) = Turns-IsLive t mid m turns live in
      let (last_live, less) = Turn-IsLive mid last step mid_live in (last_live, omega arith)

  next-Turn : (t : Threads A) → IsLive t → 0 < t.transfer.missing → (v : Threads A) × Turn t v
  next-Turn t live more = elim (Bool-cases t.consumer_waits) [
    | inr ready ↦ (consumer_turn t, consumes ready more)
    | inl waits ↦
        let none_queued = live.empty waits in
        let en = live.enough in
        elim (Bool-cases t.producer_waits) [
          | inr ready ↦ (producer_turn t, produces ready (omega arith))
          | inl stuck ↦ let at_end = live.full stuck in absurd (omega (arith, live.capacity_pos))
        ]
  ]

  -- Two threads start `Push(values)` and `Pop(num)` on a queue of a capacity above 0, which holds
  -- no more values than that, and together with `values` at least `num`; no other thread uses it,
  -- and no thread wakes up unnotified. However their turns alternate, before `Pop(num)` has all its
  -- values one of the threads is awake and has a turn, and there are at most two turns for each
  -- value to push or to pop and two more. So no notification is missing, and the call completes,
  -- also with `num` greater than the capacity.
  pub pop_num_completes :
      (values : List A) (q : BlockingQueue A) (num n : ℕ) (u : Threads A)
      → 0 < q.capacity
      → length q.queue ≤ q.capacity
      → num ≤ length q.queue + length values
      → Turns
          (record {
            transfer = record { values = values; shared = q; missing = num; block_data = [] };
            producer_waits = false;
            consumer_waits = false;
          })
          n
          u
      → (n ≤ 2 * (length values + num) + 2) × (0 < u.transfer.missing → (v : Threads A) × Turn u v)
  unfolding left
  pop_num_completes values q num n u c b enough turns =
      let (live, spent) =
        Turns-IsLive
          (record {
            transfer = record { values = values; shared = q; missing = num; block_data = [] };
            producer_waits = false;
            consumer_waits = false;
          })
          u n turns
          (record {
            capacity_pos = c;
            bounded = b;
            full = λ k. cc;
            empty = λ k. cc;
            enough = enough;
          }) in
      (omega arith, next-Turn u live)
