-- ===== src/Rpc/Time/Tests.antt =====
-- A time out that ends on a whole second, and a witness.
use cse_2014_undergrad.Prelude.{◌≡◌, refl, some, arith}
use cse_2014_undergrad.Rpc.Time.{Timespec, second, add_timespec, diff_timespec}
use cse_2014_undergrad.Rpc.Time.Bounds.{add_timespec_full}
use cse_2014_undergrad.Rpc.Time.Difference.{diff_timespec-add_timespec}

abbrev start : Timespec
start = record { tv_sec = 7; tv_nsec = 600000000 }

start_full : add_timespec start 1400 ≡ record { tv_sec = 8; tv_nsec = second }
start_full = add_timespec_full start 1400 refl

diff_timespec-add_timespec_example : diff_timespec (add_timespec start 1500) start ≡ some 1500
diff_timespec-add_timespec_example =
    diff_timespec-add_timespec start 1500 (omega arith) (omega arith)
