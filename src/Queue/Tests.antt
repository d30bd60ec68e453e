-- ===== src/Queue/Tests.antt =====
-- A queue of capacity 1 between a producer of three values and a `Pop(2)`.
use wenet_android.Prelude.{
  false, List, ◌⊎◌, ℕ, ◌≤◌, ◌<◌, ◌≡◌, refl, none, [], ◌∷◌, ◌++◌, arith, length,
}
use wenet_android.Queue.Waiting.{
  Threads, Turn, start, turn, produces, producer_turn, consumer_turn, pop_num_completes,
}
use wenet_android.Queue.{BlockingQueue, push, pop, push_values, pop_num, clear}
use wenet_android.Queue.Transfer.{
  Transfer, Rounds, here, next, pushes, pops, pop_num_in_order, calls-Rounds, state,
}

abbrev narrow : BlockingQueue ℕ
narrow = record { capacity = 1; queue = [] }

abbrev holding : ℕ → BlockingQueue ℕ
holding a = record { capacity = 1; queue = a ∷ [] }

push_full : push 8 (holding 7) ≡ none
unfolding push
push_full = refl

clear_runs : clear (holding 7) ≡ narrow
unfolding clear pop
clear_runs = refl

begin : Transfer ℕ
begin = state (5 ∷ 6 ∷ 7 ∷ []) narrow 2 []

end : Transfer ℕ
end = state (7 ∷ []) narrow 0 (5 ∷ 6 ∷ [])

begin-end : Rounds begin end
unfolding begin end push pop
begin-end =
    next
      (next
        (next (next here (pushes 5 (6 ∷ 7 ∷ []) (holding 5) refl refl)) (pops 5 1 narrow refl refl))
        (pushes 6 (7 ∷ []) (holding 6) refl refl))
      (pops 6 0 narrow refl refl)

pop_num_in_order_example :
    (end.block_data ≡ 5 ∷ 6 ∷ [])
    × (end.shared.queue ++ end.values ≡ 7 ∷ [])
    × (length end.shared.queue ≤ 1)
unfolding begin end
pop_num_in_order_example =
    pop_num_in_order narrow (5 ∷ 6 ∷ 7 ∷ []) 2 end (omega arith) begin-end refl

abbrev two_threads : Threads ℕ
two_threads = record { transfer = begin; producer_waits = false; consumer_waits = false }

-- The producer waits with two values left, the consumer with one missing, the producer again with
-- one left, and the consumer has its values.
four_turns :
    consumer_turn (producer_turn (consumer_turn (producer_turn two_threads)))
    ≡ record { transfer = end; producer_waits = false; consumer_waits = false }
unfolding producer_turn consumer_turn push_values pop_num push pop begin end
four_turns = refl

pop_num_completes_example :
    (1 ≤ 12)
    × (0 < (producer_turn two_threads).transfer.missing
        → (v : Threads ℕ) × Turn (producer_turn two_threads) v)
unfolding begin
pop_num_completes_example =
    pop_num_completes (5 ∷ 6 ∷ 7 ∷ []) narrow 2 1 (producer_turn two_threads) (omega arith)
      (omega arith) (omega arith)
      (turn 0 two_threads (producer_turn two_threads) start (produces refl (omega arith)))

calls-Rounds_example :
    Rounds (state (5 ∷ 6 ∷ []) narrow 2 []) (state (6 ∷ []) narrow 1 (5 ∷ []))
    × (◌≡◌ {A = List ℕ} (6 ∷ []) [] ⊎ (1 ≤ 1))
    × (◌≡◌ {A = ℕ} 1 0 ⊎ (narrow.queue ≡ []))
unfolding push_values pop_num push pop
calls-Rounds_example = calls-Rounds (5 ∷ 6 ∷ []) [] narrow 2
