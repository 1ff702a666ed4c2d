-- ===== src/Rpc/Time.antt =====
-- The arithmetic on `struct timespec` of rpc/rpc.cc, with which `rpcc::call1` computes its deadlines.
--
-- Times are not negative. The loop of `add_timespec` runs on fuel: each round takes a second off the
-- nanoseconds, so their number is enough.
pub mod Bounds
pub mod Difference
mod Tests
use cse_2014_undergrad.Prelude.{
  ℕ, zero, suc, ◌+◌, ◌-◌, ◌*◌, ◌/◌, ◌%◌, ◌^◌, not, ◌||◌, Option, some, if◌then◌else◌, ltb, ◌==◌,
  ◌>>◌, verify,
}

-- `struct timespec`
pub record Timespec : Type 0 where
  pub tv_sec : ℕ
  pub tv_nsec : ℕ

-- The results -1, 0 and 1 of `cmp_timespec`
pub data Sign : Type 0 where
  less same more : Sign

unfoldable pub cmp_timespec : Timespec → Timespec → Sign
cmp_timespec a b =
    if ltb b.tv_sec a.tv_sec
    then more
    else (if ltb a.tv_sec b.tv_sec
        then less
        else (if ltb b.tv_nsec a.tv_nsec
            then more
            else (if ltb a.tv_nsec b.tv_nsec then less else same)))

abbrev pub second : ℕ
second = 1000000000

-- The `while` loop
unfoldable pub carry : ℕ → Timespec → Timespec
carry zero t = t
carry (suc n) t =
    let rest = carry n (record { tv_sec = t.tv_sec + 1; tv_nsec = t.tv_nsec - second }) in
    if ltb second t.tv_nsec then rest else t

-- `add_timespec` for a time out of `b` milliseconds
unfoldable pub add_timespec : Timespec → ℕ → Timespec
unfolding carry
add_timespec a b =
    let nsec = a.tv_nsec + b % 1000 * 1000000 in
    carry nsec (record { tv_sec = a.tv_sec + b / 1000; tv_nsec = nsec })

-- `diff_timespec`, in milliseconds, an `int`; `none` is a failed VERIFY.
unfoldable pub diff_timespec : Timespec → Timespec → Option ℕ
diff_timespec end start =
    let diff =
      (if ltb start.tv_sec end.tv_sec then (end.tv_sec - start.tv_sec) * 1000 % 2 ^ 32 else 0) in
    verify (not (diff == 0) || end.tv_sec == start.tv_sec)
    >> some (
        if ltb start.tv_nsec end.tv_nsec
        then (diff + (end.tv_nsec - start.tv_nsec) / 1000000) % 2 ^ 32
        else (diff + 2 ^ 32 - (start.tv_nsec - end.tv_nsec) / 1000000 % 2 ^ 32) % 2 ^ 32)
