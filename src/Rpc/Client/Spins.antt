-- ===== src/Rpc/Client/Spins.antt =====
-- The wait of `call1` of rpc/rpc.cc on a deadline that `pthread_cond_timedwait` does not take.
use cse_2014_undergrad.Prelude.{
  ℕ, ◌+◌, ◌*◌, ◌%◌, ◌≤◌, ◌<◌, Option, none, some, List, [], ◌∷◌, All, false, ◌≡◌, inl, inr, refl,
  ap, ◌∙◌, arith,
}
use cse_2014_undergrad.Rpc.Time.{Timespec, second, add_timespec}
use cse_2014_undergrad.Rpc.Time.Bounds.{total, add_timespec_lem, add_timespec_full}
use cse_2014_undergrad.Rpc.Marshall.{Marshall}
use cse_2014_undergrad.Rpc.Client.{Client, Caller, to_min}
use cse_2014_undergrad.Rpc.Client.Rounds.{Call, refused, Sleep, wait_loop, begin_round, call_begins}
use cse_2014_undergrad.Rpc.Client.Variables.{begin_round_lem}
use cse_2014_undergrad.Rpc.Client.Deadlines.{cmp_timespec-more, next_deadline_lem}

-- `pthread_cond_timedwait` by its manual: a deadline whose nanoseconds are a second or more is refused
-- with EINVAL.
abbrev pub IsRefused : Timespec → Sleep → Type 0
IsRefused next s = second ≤ next.tv_nsec → s.woken ≡ refused

-- The call has not been answered when the thread has the mutex again.
abbrev pub IsOpen : ℕ → Sleep → Type 0
IsOpen t s = Caller.done (Client.callers s.client t) ≡ false

wait_loop-refused :
    (r : Client) (t : ℕ) (next : Timespec) (ss : List Sleep)
    → second ≤ next.tv_nsec
    → Caller.done (r.callers t) ≡ false
    → All (IsRefused next) ss
    → All (IsOpen t) ss
    → wait_loop r t ss ≡ none
unfolding wait_loop
wait_loop-refused r t next [] v d a o = rw d refl
wait_loop-refused r t next (s ∷ ss) v d a o =
    rw (d, a.0 v) (wait_loop-refused s.client t next ss v o.0 a.1 o.1)

-- A call of a time out below the second of `to_min` whose milliseconds make up a whole second with the
-- nanoseconds of the clock, when its first round comes to wait: the deadline has a second of nanoseconds,
-- and while no reply comes the loop of the wait goes on, however often `pthread_cond_timedwait` is called
-- and however late, if that refuses such a deadline, as its manual says. The call does not time out.
pub begin_round-spins :
    (t : ℕ) (req : Marshall) (xid_rep to : ℕ) (from now next : Timespec) (r r' s : Client)
    (k' : Call) (new : Option ℕ) (sleeps : List Sleep)
    → to < to_min
    → from.tv_nsec + to % 1000 * 1000000 ≡ second
    → total from ≤ total now
    → begin_round r (call_begins req xid_rep to from) new now ≡ some (r', k', some next)
    → Caller.done (s.callers t) ≡ false
    → All (IsRefused next) sleeps
    → All (IsOpen t) sleeps
    → (next.tv_nsec ≡ second) × (wait_loop s t sleeps ≡ none)
unfolding call_begins
begin_round-spins t req xid_rep to from now next r r' s k' new sleeps small full c b d a o =
    let late =
      next_deadline_lem to_min now (add_timespec from to) (begin_round_lem r _ new now b).0 in
    let last = add_timespec_lem from to in
    let first = add_timespec_lem now to_min in
    let whole : next.tv_nsec ≡ second = elim late.1 [
      | inl (e, x, y) ↦ absurd (
          e (
            cmp_timespec-more (add_timespec now to_min) (add_timespec from to) first.1 last.1
              (omega (arith, first.0, last.0))))
      | inr (x, y) ↦ ap Timespec.tv_nsec x ∙ ap Timespec.tv_nsec (add_timespec_full from to full)
    ] in
    (whole, wait_loop-refused s t next sleeps (omega (arith, whole)) d a o)
