-- ===== src/Rpc/Fifo/Bounds.antt =====
-- The queue over a history: first in, first out, and never longer than its limit.
use cse_2014_undergrad.Prelude.{
  ℕ, suc, ◌≤◌, Bool, ◌||◌, List, [], ◌∷◌, ◌++◌, ◌≡◌, refl, sym, ◌∙◌, ap, arith, ltb, ◌==◌, length,
  ◌⊎◌, inl, inr, Bool-cases, append_assoc, append-nil,
}
use cse_2014_undergrad.Rpc.Fifo.{
  Fifo, Enqueued, added, refused, waits, Dequeued, got, waits_empty, enq, deq,
}

-- One round of a thread.
pub data Round (A : Type 0) : Type 0 where
  puts : A → Bool → Round A
  takes : Round A

module _ {A : Type 0} where
  after_enq : Fifo A → Enqueued A → Fifo A
  after_enq f (added g) = g
  after_enq f refused = f
  after_enq f waits = f

  after_deq : Fifo A → Dequeued A → Fifo A
  after_deq f (got x g) = g
  after_deq f waits_empty = f

  accepted : A → Enqueued A → List A
  accepted e (added g) = e ∷ []
  accepted e refused = []
  accepted e waits = []

  taken : Dequeued A → List A
  taken (got x g) = x ∷ []
  taken waits_empty = []

  -- The queue after some rounds, with what went in and what came out.
  unfoldable pub run : Fifo A → List (Round A) → Fifo A × List A × List A
  unfolding after_enq after_deq accepted taken
  run f [] = (f, [], [])
  run f (puts e blocking ∷ rs) =
      let o = enq f e blocking in
      let (g, ins, outs) = run (after_enq f o) rs in (g, accepted e o ++ ins, outs)
  run f (takes ∷ rs) =
      let o = deq f in let (g, ins, outs) = run (after_deq f o) rs in (g, ins, taken o ++ outs)

  length-append : (xs : List A) (e : A) → length (xs ++ (e ∷ [])) ≡ suc (length xs)
  length-append [] e = refl
  length-append (x ∷ xs) e = ground (arith, length-append xs e)

  abbrev Within : Fifo A → Type 0
  Within f = (f.max ≡ 0) ⊎ (length f.q ≤ f.max)

  abbrev Kept : Fifo A → List (Round A) → Type 0
  Kept f rs =
      let (g, ins, outs) = run f rs in (f.q ++ ins ≡ outs ++ g.q) × (g.max ≡ f.max) × Within g

  takes-Kept :
      (rs : List (Round A)) (q : List A) (m : ℕ)
      → ((f : Fifo A) → Within f → Kept f rs)
      → Within (record { q = q; max = m })
      → Kept (record { q = q; max = m }) (takes ∷ rs)
  unfolding run deq
  takes-Kept rs [] m k h = k (record { q = []; max = m }) h
  takes-Kept rs (x ∷ xs) m k h =
      let (a, b, c) = k (record { q = xs; max = m }) (ground (arith, h)) in
      (ap (λ l. x ∷ l) a, b, c)

  -- In any history of rounds of any threads, what was in the queue and what went in, in this order, is
  -- what came out and what is in the queue; and a queue within its limit stays within it.
  pub queue_order :
      (rs : List (Round A)) (f : Fifo A)
      → (f.max ≡ 0) ⊎ (length f.q ≤ f.max)
      → let (g, ins, outs) = run f rs in
        (f.q ++ ins ≡ outs ++ g.q) × (g.max ≡ f.max) × ((g.max ≡ 0) ⊎ (length g.q ≤ g.max))
  unfolding run enq deq
  queue_order [] f h = (append-nil f.q, refl, h)
  queue_order (puts e blocking ∷ rs) f h =
      elim (Bool-cases (f.max == 0 || ltb (length f.q) f.max)) [
        | inl y ↦
            let f' : Fifo A = record f { q = f.q ++ (e ∷ []) } in
            let (a, b, c) = queue_order rs f' (ground (arith, y, length-append f.q e)) in
            rw y (sym (append_assoc f.q (e ∷ []) (run f' rs).1) ∙ a, b, c)
        | inr y ↦ elim (Bool-cases blocking) [
          | inl k ↦ rw (y, k) (queue_order rs f h)
          | inr k ↦ rw (y, k) (queue_order rs f h)
        ]
      ]
  queue_order (takes ∷ rs) f h = takes-Kept rs f.q f.max (queue_order rs) h
