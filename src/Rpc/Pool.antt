-- ===== src/Rpc/Pool.antt =====
-- The thread pool of rpc/thr_pool.cc: a queue of jobs that its workers share.
mod Tests
use cse_2014_undergrad.Prelude.{
  ℕ, suc, zero, ◌*◌, ◌<◌, ◌≤◌, Bool, true, false, Option, none, some, List, [], ◌∷◌, ◌++◌, ◌≡◌,
  arith, length, length-append,
}
use cse_2014_undergrad.Rpc.Fifo.{Fifo, fifo, Enqueued, added, Dequeued, got, waits_empty, enq, deq}

-- `job_t`: a function, `none` for a null pointer, and its argument
pub record Job : Type 0 where
  pub f : Option ℕ
  pub a : ℕ

-- `ThrPool`
pub record ThrPool : Type 0 where
  pub nthreads : ℕ
  pub blockadd : Bool
  pub jobq : Fifo Job

-- The constructor, less the creation of the threads
unfoldable pub thr_pool : ℕ → Bool → ThrPool
unfolding fifo
thr_pool sz blocking = record { nthreads = sz; blockadd = blocking; jobq = fifo (100 * sz) }

unfoldable pub add_job : ThrPool → ℕ → ℕ → Enqueued Job
unfolding enq
add_job p f a = enq p.jobq (record { f = some f; a = a }) p.blockadd

-- What a worker does next: it runs a job, ends at a poison pill, or waits for a job.
pub data Work : Type 0 where
  runs : ℕ → ℕ → ThrPool → Work
  ends : ThrPool → Work
  idles : Work

work_on : ThrPool → Dequeued Job → Work
work_on p waits_empty = idles
work_on p (got j q) = elim j.f [
  | some f ↦ runs f j.a (record p { jobq = q })
  | none ↦ ends (record p { jobq = q })
]

-- A round of `do_worker`, with `takeJob`
unfoldable pub take_job : ThrPool → Work
unfolding work_on deq
take_job p = work_on p (deq p.jobq)

-- A pool as its constructor makes it never has more than a hundred jobs a thread waiting: a job that
-- `add_job` accepts is the last of at most so many.
pub add_job-length :
    (p : ThrPool) (f a : ℕ) (q : Fifo Job)
    → 0 < p.nthreads
    → Fifo.max p.jobq ≡ 100 * p.nthreads
    → add_job p f a ≡ added q
    → (Fifo.q q ≡ Fifo.q p.jobq ++ (record { f = some f; a = a } ∷ []))
      × (length (Fifo.q q) ≤ 100 * p.nthreads)
unfolding add_job enq
add_job-length p f a q n m e =
    ground (arith, length-append (Fifo.q p.jobq) (record { f = some f; a = a } ∷ []))
