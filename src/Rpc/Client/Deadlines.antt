-- ===== src/Rpc/Client/Deadlines.antt =====
-- How long a call waits: the loop of `call1` of rpc/rpc.cc over its deadlines.
use cse_2014_undergrad.Prelude.{
  ℕ, suc, ◌*◌, ◌^◌, ◌≤◌, ◌<◌, Option, none, some, ◌≡◌, ◌≢◌, refl, sym, ◌∙◌, ◌⊎◌, inl, inr, arith,
  Bool, false, ◌||◌, List, [], ◌∷◌, leb, ◌==◌, Bool-cases,
}
use cse_2014_undergrad.Rpc.Time.{
  Timespec, Sign, less, same, more, second, cmp_timespec, add_timespec,
}
use cse_2014_undergrad.Rpc.Time.Bounds.{total}
use cse_2014_undergrad.Rpc.Marshall.{Marshall}
use cse_2014_undergrad.Rpc.Client.{Client, to_min}
use cse_2014_undergrad.Rpc.Client.Rounds.{
  Call, timed_out, Sleep, wait_loop, next_deadline, begin_round, after_wait,
}

-- `Waits t k0 from n k`: the call of thread `t` has waited `n` times since `k0`, and its variables are
-- `k`. The clock is not before `from`; what the connections are, and what the other threads do to the
-- client meanwhile, is left open.
pub data Waits (t : ℕ) (k0 : Call) (from : Timespec) : ℕ → Call → Type 0 where
  at_once : Waits t k0 from 0 k0
  again :
      (n : ℕ) (k k' : Call) {k'' : Call} (r r' s s' : Client) (new : Option ℕ) (now next : Timespec)
      (sleeps : List Sleep)
      → Waits t k0 from n k
      → total from ≤ total now
      → begin_round r k new now ≡ some (r', k', some next)
      → wait_loop s t sleeps ≡ some s'
      → after_wait s' t k' ≡ some k''
      → Waits t k0 from (suc n) k''

-- `pthread_cond_timedwait` by its manual: called once a deadline with less than a second of nanoseconds
-- is over, it gives ETIMEDOUT.
abbrev pub IsTimed : Timespec → Sleep → Type 0
IsTimed next s = next.tv_nsec < second → total next ≤ total s.called → s.woken ≡ timed_out

-- One of the calls is made when the clock is at `limit` or later.
abbrev pub has_late : ℕ → List Sleep → Bool
has_late limit [] = false
has_late limit (s ∷ ss) = leb limit (total s.called) || has_late limit ss

-- `cmp_timespec` finds the later time, also when its nanoseconds are a whole second.
pub cmp_timespec-more :
    (a b : Timespec)
    → a.tv_nsec ≤ second
    → b.tv_nsec ≤ second
    → total b < total a
    → cmp_timespec a b ≡ more
unfolding cmp_timespec
cmp_timespec-more a b p q h = ground arith

-- What is before the deadline of a wait, `m` being the number of doublings that go past the time out
abbrev IsWaiting : ℕ → ℕ → ℕ → Call → Type 0
IsWaiting limit m n k =
    (Timespec.tv_nsec k.final ≤ second)
    × (total k.final ≤ limit)
    × (((n ≤ m) × (k.curr_to ≡ to_min * 2 ^ n)) ⊎ (k.final.tv_sec ≡ 0))

-- A deadline that is set leaves the final one, or is the final one.
pub next_deadline_lem :
    (c : ℕ) (now final : Timespec) {next final' : Timespec}
    → next_deadline c now final ≡ some (next, final')
    → (final.tv_sec ≢ 0)
      × (((cmp_timespec (add_timespec now c) final ≢ more)
            × (next ≡ add_timespec now c)
            × (final' ≡ final))
          ⊎ ((next ≡ final) × (final' ≡ record final { tv_sec = 0 })))
unfolding next_deadline
next_deadline_lem c now final {next} {final'} h = elim (Bool-cases (final.tv_sec == 0)) [
  | inl z ↦ absurd (some≢none (sym (rw z at h)))
  | inr z ↦ (ground (arith, z), go (cmp_timespec (add_timespec now c) final) refl (rw z at h))
]
  where
    some≢none : {d : Timespec × Timespec} → some d ≢ none
    some≢none e = cc

    less≢more : less ≢ more
    less≢more f = cc

    same≢more : same ≢ more
    same≢more f = cc

    set : Sign → Option (Timespec × Timespec)
    set more = some (final, record final { tv_sec = 0 })
    set less = some (add_timespec now c, final)
    set same = some (add_timespec now c, final)

    go :
        (s : Sign)
        → cmp_timespec (add_timespec now c) final ≡ s
        → set s ≡ some (next, final')
        → ((cmp_timespec (add_timespec now c) final ≢ more)
            × (next ≡ add_timespec now c)
            × (final' ≡ final))
          ⊎ ((next ≡ final) × (final' ≡ record final { tv_sec = 0 }))
    go less e q = inl (λ f. less≢more (sym e ∙ f), cc, cc)
    go same e q = inl (λ f. same≢more (sym e ∙ f), cc, cc)
    go more e q = inr (cc, cc)

-- `m` doublings of `to_min` go past the time out `to`, and do not overflow.
abbrev pub IsPast : ℕ → ℕ → Type 0
IsPast m to = (to < to_min * 2 ^ m) × (m ≤ 22)
