-- ===== src/Lock/Plain.antt =====
-- The lock server whose clients do not cache: lock_server.h and lock_server.cc.
--
-- A round of the loop of `acquire` is one step; a thread that does not get the lock waits, and makes
-- another such step after a broadcast. A failed assertion is `none`.
pub mod Holders
mod Tests
use cse_2014_undergrad.Prelude.{ℕ, Bool, true, false, Option, none, some, update}
use cse_2014_undergrad.Lock.Server.{LkStatus, free, locked, expecting}

-- `lock_server`, less its mutex and condition
pub record LockServer : Type 0 where
  pub nacquire : ℕ
  pub lock_state : ℕ → Option LkStatus

-- `lock_server::lock_server`
abbrev pub lock_server : LockServer
lock_server = record { nacquire = 0; lock_state = λ lid. none }

-- `stat`: what it stores in `r`
abbrev pub stat : LockServer → ℕ
stat s = s.nacquire

-- `lock_state[lid]`, where a new entry is FREE
abbrev pub state_of : Option LkStatus → LkStatus
state_of none = free
state_of (some s) = s

-- What a round of `acquire` does in each state: whether the lock is had
unfoldable pub round : LkStatus → LockServer → ℕ → Bool × LockServer
round free s lid = (true, record s { lock_state = update s.lock_state lid (some locked) })
round locked s lid = (false, s)
round expecting s lid = (false, s)

unfoldable pub try_acquire : LockServer → ℕ → Bool × LockServer
unfolding round
try_acquire s lid = round (state_of (s.lock_state lid)) s lid

-- `release`, by what `find` gives
unfoldable pub give_back : Option LkStatus → LockServer → ℕ → Option LockServer
give_back none s lid = none
give_back (some locked) s lid = some (record s { lock_state = update s.lock_state lid (some free) })
give_back (some free) s lid = none
give_back (some expecting) s lid = none

unfoldable pub release : LockServer → ℕ → Option LockServer
unfolding give_back
release s lid = give_back (s.lock_state lid) s lid
