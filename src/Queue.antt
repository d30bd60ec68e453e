-- ===== src/Queue.antt =====
-- utils/blocking_queue.h. Each method runs under the mutex, which a thread gives up only to wait;
-- `none` is a thread that has to wait.
pub mod Transfer
mod Waiting
mod Tests
use wenet_android.Prelude.{
  ℕ, zero, suc, ◌+◌, Bool, true, false, Option, none, some, List, [], ◌∷◌, ◌++◌, ltb, if◌then◌else◌,
  length,
}

pub record BlockingQueue {ℓ} (A : Type ℓ) : Type ℓ where
  pub capacity : ℕ
  pub queue : List A

module _ {ℓ} {A : Type ℓ} where
  unfoldable pub size : BlockingQueue A → ℕ
  size q = length q.queue

  unfoldable pub is_empty : BlockingQueue A → Bool
  is_empty q = elim q.queue [ [] ↦ true | a ∷ rest ↦ false ]

  -- `Push(value)`: waits while `queue_.size() >= capacity_`.
  unfoldable pub push : A → BlockingQueue A → Option (BlockingQueue A)
  push a q =
      if ltb (length q.queue) q.capacity
      then some (record q { queue = q.queue ++ a ∷ [] })
      else none

  -- `Push(values)` up to its next wait: the values that are left, and the queue.
  unfoldable pub push_values : List A → BlockingQueue A → List A × BlockingQueue A
  push_values [] q = ([], q)
  push_values (a ∷ values) q = elim (push a q) [
    | none ↦ (a ∷ values, q)
    | some q' ↦ push_values values q'
  ]

  -- `Pop()`: waits while the queue is empty.
  unfoldable pub pop : BlockingQueue A → Option (A × BlockingQueue A)
  pop q = elim q.queue [ [] ↦ none | a ∷ rest ↦ some (a, record q { queue = rest }) ]

  -- `Pop(num)` up to its next wait: how many are missing, `block_data`, and the queue.
  unfoldable pub pop_num : ℕ → List A → BlockingQueue A → ℕ × List A × BlockingQueue A
  pop_num zero block_data q = (zero, block_data, q)
  pop_num (suc num) block_data q = elim (pop q) [
    | none ↦ (suc num, block_data, q)
    | some (a, q') ↦ pop_num num (block_data ++ a ∷ []) q'
  ]

  -- `Clear()`: pops as long as the queue is not empty.
  clear_loop : ℕ → BlockingQueue A → BlockingQueue A
  clear_loop zero q = q
  clear_loop (suc fuel) q = elim (pop q) [ none ↦ q | some (a, q') ↦ clear_loop fuel q' ]

  unfoldable pub clear : BlockingQueue A → BlockingQueue A
  unfolding clear_loop
  clear q = clear_loop (length q.queue) q
