-- ===== src/Rpc/Fifo.antt =====
-- The queue of rpc/fifo.h.
--
-- The mutex makes each round of a loop one step; a thread that waits on a condition tries again when it
-- is woken, with the queue as it is then.
pub mod Bounds
mod Tests
use cse_2014_undergrad.Prelude.{
  ℕ, ◌*◌, Bool, true, false, not, ◌||◌, List, [], ◌∷◌, ◌++◌, if◌then◌else◌, ltb, ◌==◌, length,
  is_empty,
}

-- `fifo`: `max` is 0 for a queue without a limit.
pub record Fifo (A : Type 0) : Type 0 where
  pub q : List A
  pub max : ℕ

-- `enq` put the element in, gave up, or waits for `has_space_c_`.
pub data Enqueued (A : Type 0) : Type 0 where
  added : Fifo A → Enqueued A
  refused waits : Enqueued A

-- `deq` has the first element, or waits for `non_empty_c_`.
pub data Dequeued (A : Type 0) : Type 0 where
  got : A → Fifo A → Dequeued A
  waits_empty : Dequeued A

module _ {A : Type 0} where
  -- `fifo::fifo`
  unfoldable pub fifo : ℕ → Fifo A
  fifo limit = record { q = []; max = limit }

  -- `fifo::size`, whose result is a `bool`
  unfoldable pub size : Fifo A → Bool
  size f = not (length f.q == 0)

  unfoldable pub enq : Fifo A → A → Bool → Enqueued A
  enq f e blocking =
      if f.max == 0 || ltb (length f.q) f.max
      then added (record f { q = f.q ++ (e ∷ []) })
      else (if blocking then waits else refused)

  unfoldable pub deq : Fifo A → Dequeued A
  deq f = elim f.q [ [] ↦ waits_empty | x ∷ xs ↦ got x (record f { q = xs }) ]
