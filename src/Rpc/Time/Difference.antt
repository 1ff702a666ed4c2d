-- ===== src/Rpc/Time/Difference.antt =====
-- The difference of a deadline and the time it was computed from, `diff_timespec` in rpc/rpc.cc
use cse_2014_undergrad.Prelude.{
  ℕ, zero, suc, ◌+◌, ◌-◌, ◌*◌, ◌/◌, ◌%◌, ◌^◌, ◌≤◌, ◌<◌, ◌≡◌, refl, ◌∙◌, ap, arith, some, false, ltb,
  ltb→lt, if◌then◌else◌, Bool-cases, inl, inr,
}
use cse_2014_undergrad.Rpc.Time.{Timespec, second, carry, add_timespec, diff_timespec}

-- The loop of `add_timespec` makes a round at most.
carry_once :
    (n : ℕ) (t : Timespec)
    → t.tv_nsec ≤ 2 * second
    → t.tv_nsec ≤ n
    → carry n t ≡ (
        if ltb second t.tv_nsec
        then record { tv_sec = t.tv_sec + 1; tv_nsec = t.tv_nsec - second }
        else t)
unfolding carry
carry_once (suc zero) t h l = refl
carry_once (suc (suc n)) t h l = elim (Bool-cases (ltb second t.tv_nsec)) [
  | inl y ↦ (let z : ltb second (t.tv_nsec - second) ≡ false = ground (arith, y) in rw (y, z) refl)
  | inr y ↦ rw y refl
]
carry_once zero t h l = (let z : ltb second t.tv_nsec ≡ false = ground arith in rw z refl)

abbrev at : ℕ → ℕ → Timespec
at s n = record { tv_sec = s; tv_nsec = n }

-- The two branches, for nanoseconds that go up and that go down
diff_up :
    (s d n r : ℕ)
    → d * 1000 + r < 2 ^ 31
    → diff_timespec (at (s + d) (n + r * 1000000)) (at s n) ≡ some (d * 1000 + r)
unfolding diff_timespec
diff_up s d n r h = ground arith

diff_down :
    (s d n r : ℕ)
    → suc d * 1000 < 2 ^ 32
    → r < 1000
    → diff_timespec (at (s + suc d) n) (at s (n + r * 1000000)) ≡ some (suc d * 1000 - r)
unfolding diff_timespec
diff_down s d n r h l = ground arith

-- A deadline is as many milliseconds after the time that it was computed from as it was asked to be, as
-- `diff_timespec` counts them, if that time has at most a whole second of nanoseconds and the milliseconds
-- are an `int` that is not negative; no assertion fails.
pub diff_timespec-add_timespec :
    (a : Timespec) (b : ℕ)
    → a.tv_nsec ≤ second
    → b < 2 ^ 31
    → diff_timespec (add_timespec a b) a ≡ some b
unfolding add_timespec
diff_timespec-add_timespec a b h l =
    let nsec = a.tv_nsec + b % 1000 * 1000000 in
    let e = carry_once nsec (at (a.tv_sec + b / 1000) nsec) (omega arith) (omega arith) in
    ap (λ t. diff_timespec t a) e ∙ elim (Bool-cases (ltb second nsec)) [
      | inl y ↦
          (let over : second < nsec = ltb→lt second nsec y in
            let n : a.tv_nsec ≡ nsec - second + (1000 - b % 1000) * 1000000 =
              omega (arith, over, h) in
            let s : a.tv_sec + b / 1000 + 1 ≡ a.tv_sec + suc (b / 1000) = omega arith in
            let m : suc (b / 1000) * 1000 - (1000 - b % 1000) ≡ b = omega arith in
            rw y (
              ap (λ i. diff_timespec (at i (nsec - second)) a) s
              ∙ ap
                  (λ i.
                    diff_timespec (at (a.tv_sec + suc (b / 1000)) (nsec - second)) (at a.tv_sec i))
                  n
              ∙ diff_down a.tv_sec (b / 1000) (nsec - second) (1000 - b % 1000) (omega arith)
                  (omega (arith, over, h))
              ∙ ap some m))
      | inr y ↦
          (let m : b / 1000 * 1000 + b % 1000 ≡ b = omega arith in
            rw y (diff_up a.tv_sec (b / 1000) a.tv_nsec (b % 1000) (omega arith) ∙ ap some m))
    ]
