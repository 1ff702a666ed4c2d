-- ===== src/Rpc/Fifo/Tests.antt =====
-- Runs of the queue, and a witness.
use cse_2014_undergrad.Prelude.{
  ℕ, ◌≤◌, true, false, List, [], ◌∷◌, ◌++◌, ◌≡◌, refl, arith, ◌⊎◌, inr, length,
}
use cse_2014_undergrad.Rpc.Fifo.{Fifo, fifo, enq, deq, size}
use cse_2014_undergrad.Rpc.Fifo.Bounds.{Round, puts, takes, run, queue_order}

abbrev two : Fifo ℕ
two = record { q = []; max = 2 }

fifo-two : fifo 2 ≡ two
unfolding fifo
fifo-two = refl

-- The third element is refused, the fourth put in when there is room.
abbrev rounds : List (Round ℕ)
rounds = puts 5 true ∷ puts 6 true ∷ puts 7 false ∷ takes ∷ puts 8 true ∷ []

run-rounds : run two rounds ≡ (record { q = 6 ∷ 8 ∷ []; max = 2 }, 5 ∷ 6 ∷ 8 ∷ [], 5 ∷ [])
unfolding run enq deq
run-rounds = refl

-- `size` does not tell one element from two.
size_two : size (record two { q = 5 ∷ [] }) ≡ size (record two { q = 5 ∷ 6 ∷ [] })
unfolding size
size_two = refl

queue_order_example :
    let (g, ins, outs) = run two rounds in
    (two.q ++ ins ≡ outs ++ g.q) × (g.max ≡ two.max) × ((g.max ≡ 0) ⊎ (length g.q ≤ g.max))
queue_order_example = queue_order rounds two (inr (omega arith))
