-- ===== src/Lock/Plain/Tests.antt =====
-- Two threads and a lock of the plain server, and a witness.
use cse_2014_undergrad.Prelude.{some, none, List, [], ◌∷◌, ◌≡◌, refl, update}
use cse_2014_undergrad.Lock.Server.{locked, free}
use cse_2014_undergrad.Lock.Plain.{LockServer, lock_server, try_acquire, round, release, give_back}
use cse_2014_undergrad.Lock.Plain.Holders.{Step, tries, gives, run, IsCounted, run-IsCounted}

-- The second try waits, and is granted when it is made again.
abbrev tried : List Step
tried = tries 7 ∷ tries 8 ∷ tries 7 ∷ gives 7 ∷ tries 7 ∷ []

abbrev after : LockServer
after = record lock_server {
  lock_state =
      update
        (update (update (update lock_server.lock_state 7 (some locked)) 8 (some locked)) 7
          (some free))
        7 (some locked);
}

run-IsCounted_example : IsCounted after 7 1
unfolding run try_acquire round release give_back
run-IsCounted_example = run-IsCounted tried 7 1 after refl

-- Who gives back a lock that nobody has aborts the server.
aborted : run lock_server 7 0 (tries 7 ∷ gives 7 ∷ gives 7 ∷ []) ≡ none
unfolding run try_acquire round release give_back
aborted = refl
