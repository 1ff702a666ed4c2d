-- ===== src/Lock/Protocol/Tests.antt =====
-- Runs of the protocol: two clients that pass a lock between them, and witnesses.
use Prim.Native.String.{String}
use text.Mathlib.TextEquality.{eq_iff}
use cse_2014_undergrad.Prelude.{List, [], ◌∷◌, ◌≡◌, ◌≢◌, refl, subst, arith, All}
use cse_2014_undergrad.Lock.Protocol.{
  Node, System, Move, client, server, Outcome, next, disabled, aborted, fire, enter, wake, leave,
  deliver_revoke, deliver_retry, deliver_reply, caller, start, local, serve, Reachable, here, there,
}
use cse_2014_undergrad.Lock.Server.{acquire_lock, release_lock}
use cse_2014_undergrad.Lock.Protocol.Exclusion.{inside_exclusive, fire-ne-aborted}

-- The state that a list of moves leads to; a move that cannot be made ends it.
run_next : (System → Outcome System) → Outcome System → Outcome System
run_next rest (next t) = rest t
run_next rest disabled = disabled
run_next rest aborted = aborted

run_moves : List Move → System → Outcome System
unfolding run_next fire
run_moves [] s = next s
run_moves (m ∷ ms) s = run_next (run_moves ms) (fire s m)

next-inj : {s t : System} → next s ≡ next t → s ≡ t
next-inj h = cc

a_named : ◌≢◌ {A = String} "a" ""
a_named = ground (arith, eq_iff "a" "")

b_named : ◌≢◌ {A = String} "b" ""
b_named = ground (arith, eq_iff "b" "")

run_moves-Reachable :
    (ms : List Move) (s t : System)
    → All (λ m. caller m ≢ "") ms
    → Reachable s
    → run_moves ms s ≡ next t
    → Reachable t
unfolding run_moves
run_moves-Reachable [] s t h r e = subst Reachable (next-inj e) r
run_moves-Reachable (m ∷ ms) s t h r e =
    go (λ u p q. run_moves-Reachable ms u t h.1 (there m h.0 r p) q) (fire s m) refl e
  where
    go :
        ((u : System) → fire s m ≡ next u → run_moves ms u ≡ next t → Reachable t)
        → (o : Outcome System) → fire s m ≡ o
        → run_next (run_moves ms) o ≡ next t
        → Reachable t
    go f (next u) p q = f u p q
    go f disabled p q = cc
    go f aborted p q = cc

-- Client `a` takes the free lock; `b` asks for it and is told to wait; `a` is asked to give it back
-- and does so; `b` is called back, asks again and takes the lock.
abbrev hand_over : List Move
hand_over =
    client "a" enter
    ∷ server "a"
    ∷ client "a" deliver_reply
    ∷ client "b" enter
    ∷ server "b"
    ∷ client "b" deliver_reply
    ∷ client "a" deliver_revoke
    ∷ client "a" leave
    ∷ server "a"
    ∷ client "b" deliver_retry
    ∷ server "b"
    ∷ client "b" deliver_reply
    ∷ client "b" wake
    ∷ []

-- What is left if a run is not over; it never is here.
final : Outcome System → System
final (next s) = s
final disabled = start
final aborted = start

handed_over : System
unfolding final run_moves local serve acquire_lock release_lock
handed_over = final (run_moves hand_over start)

hand_over_run : run_moves hand_over start ≡ next handed_over
unfolding handed_over
hand_over_run = refl

named : All (λ m. caller m ≢ "") hand_over
named = assumption (a_named, b_named)

handed_over-Reachable : Reachable handed_over
handed_over-Reachable =
    run_moves-Reachable hand_over start handed_over named (here refl) hand_over_run

inside_after : (Node.inside (handed_over.node "a") ≡ 0) × (Node.inside (handed_over.node "b") ≡ 1)
unfolding handed_over
inside_after = (refl, refl)

inside_exclusive_example : (◌≡◌ {A = String} "b" "b") × (Node.inside (handed_over.node "b") ≡ 1)
inside_exclusive_example =
    inside_exclusive "b" "b" handed_over-Reachable b_named b_named (omega (arith, inside_after.1))
      (omega (arith, inside_after.1))

fire-ne-aborted_example : fire handed_over (client "b" leave) ≢ aborted
fire-ne-aborted_example = fire-ne-aborted (client "b" leave) handed_over-Reachable b_named
