-- ===== src/Rpc/Time/Bounds.antt =====
-- Deadlines: what `add_timespec` adds, and where its result lies.
use cse_2014_undergrad.Prelude.{
  ℕ, zero, suc, ◌+◌, ◌-◌, ◌*◌, ◌/◌, ◌%◌, ◌≤◌, ◌≡◌, ◌≢◌, refl, ap, ◌∙◌, arith,
}
use cse_2014_undergrad.Rpc.Time.{Timespec, less, cmp_timespec, second, carry, add_timespec}

-- A time in nanoseconds.
abbrev pub total : Timespec → ℕ
total t = t.tv_sec * second + t.tv_nsec

carry_lem :
    (n : ℕ) (t : Timespec)
    → t.tv_nsec ≤ n
    → (total (carry n t) ≡ total t) × (Timespec.tv_nsec (carry n t) ≤ second)
unfolding carry
carry_lem zero t h = ground arith
carry_lem (suc n) t h =
    ground (arith, carry_lem n (record { tv_sec = t.tv_sec + 1; tv_nsec = t.tv_nsec - second }))

carry-later : (n : ℕ) (t : Timespec) → t.tv_sec ≤ Timespec.tv_sec (carry n t)
unfolding carry
carry-later zero t = omega arith
carry-later (suc n) t =
    ground (arith, carry-later n (record { tv_sec = t.tv_sec + 1; tv_nsec = t.tv_nsec - second }))

add_timespec-later : (a : Timespec) (b : ℕ) → a.tv_sec ≤ Timespec.tv_sec (add_timespec a b)
unfolding add_timespec
add_timespec-later a b =
    let t : Timespec = record {
      tv_sec = a.tv_sec + b / 1000;
      tv_nsec = a.tv_nsec + b % 1000 * 1000000;
    } in
    omega (arith, carry-later t.tv_nsec t)

carry-stop : (n : ℕ) (t : Timespec) → t.tv_nsec ≤ second → carry n t ≡ t
unfolding carry
carry-stop zero t h = refl
carry-stop (suc n) t h = ground arith

-- `add_timespec` adds `b` milliseconds, to the nanosecond, and leaves at most a whole second of
-- nanoseconds, whatever the time it starts from.
pub add_timespec_lem :
    (a : Timespec) (b : ℕ)
    → (total (add_timespec a b) ≡ total a + b * 1000000)
      × (Timespec.tv_nsec (add_timespec a b) ≤ second)
unfolding add_timespec
add_timespec_lem a b =
    let t : Timespec = record {
      tv_sec = a.tv_sec + b / 1000;
      tv_nsec = a.tv_nsec + b % 1000 * 1000000;
    } in
    let k = carry_lem t.tv_nsec t (omega arith) in (omega (arith, k.0), k.1)

-- A deadline is never before the time it is computed from, as `cmp_timespec` compares.
pub add_timespec-cmp_timespec : (a : Timespec) (b : ℕ) → cmp_timespec (add_timespec a b) a ≢ less
unfolding cmp_timespec
add_timespec-cmp_timespec a b = ground (arith, add_timespec_lem a b, add_timespec-later a b)

-- When the nanoseconds add up to a whole second, the loop stops a round early: the result has a second
-- of nanoseconds, which is no valid `tv_nsec`.
pub add_timespec_full :
    (a : Timespec) (b : ℕ)
    → a.tv_nsec + b % 1000 * 1000000 ≡ second
    → add_timespec a b ≡ record { tv_sec = a.tv_sec + b / 1000; tv_nsec = second }
unfolding add_timespec
add_timespec_full a b h =
    carry-stop (a.tv_nsec + b % 1000 * 1000000) _ (omega (arith, h))
    ∙ ap (λ x. record { tv_sec = a.tv_sec + b / 1000; tv_nsec = x }) h
