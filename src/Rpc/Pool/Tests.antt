-- ===== src/Rpc/Pool/Tests.antt =====
-- Runs of the pool, and a witness.
use cse_2014_undergrad.Prelude.{true, some, [], ◌∷◌, ◌≡◌, refl}
use cse_2014_undergrad.Rpc.Fifo.{Fifo, added}
use cse_2014_undergrad.Rpc.Pool.{Job, ThrPool, thr_pool, add_job, runs, take_job}

abbrev job : Job
job = record { f = some 7; a = 8 }

abbrev pool : ThrPool
pool = record { nthreads = 2; blockadd = true; jobq = record { q = []; max = 200 } }

pool_is_new : thr_pool 2 true ≡ pool
unfolding thr_pool
pool_is_new = refl

abbrev one_job : Fifo Job
one_job = record { q = job ∷ []; max = 200 }

job-added : add_job pool 7 8 ≡ added one_job
unfolding add_job
job-added = refl

job_is_taken : take_job (record pool { jobq = one_job }) ≡ runs 7 8 pool
unfolding take_job
job_is_taken = refl
