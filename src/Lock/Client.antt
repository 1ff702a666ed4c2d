-- ===== src/Lock/Client.antt =====
-- The caching lock client: lock_client_cache.h and lock_client_cache.cc, for one lock.
--
-- A handler holds the client's mutex except during an RPC and in `pthread_cond_wait`. It is cut there
-- into functions that run in one go: each returns the lock's new state with what the thread does
-- next. `_rpc_call` is the cut: it lets the mutex go, makes the call and takes the mutex again.
-- An `assert` that fails is `none`.
use cse_2014_undergrad.Prelude.{
  Bool, true, false, not, Option, some, ◌>>◌, verify, if◌then◌else◌, ◌||◌,
}
use cse_2014_undergrad.Lock.Server.{Status, ok}

-- `rlock_protocol::rlkstatus`
pub data RlkStatus : Type 0 where
  unheld owned locked acquiring waiting releasing : RlkStatus

-- The values of `pending`: 0, `rlock_protocol::revoke`, `rlock_protocol::retry`.
pub data Pending : Type 0 where
  nothing revoke retry : Pending

-- `lock_state_client`, less `locked`, which only the constructor writes.
pub record ClientLock : Type 0 where
  pub state : RlkStatus
  pub pending : Pending

-- Which code waits for the reply to an `acquire` RPC: the first or the second call of `acquire`, or
-- `retry_handler`; and to a `release` RPC: `release` or `revoke_handler`.
pub data Caller : Type 0 where
  first second handler : Caller

pub data Returner : Type 0 where
  by_user by_handler : Returner

-- What a thread does once it lets the mutex go. `holding`: `acquire` returns to its caller.
-- `done b`: a handler or `release` returns, after a broadcast if `b`.
pub data Todo : Type 0 where
  call_acquire : Caller → Todo
  call_release : Returner → Todo
  sleep holding : Todo
  done : Bool → Todo

abbrev pub is_owned : RlkStatus → Bool
is_owned owned = true
is_owned _ = false

abbrev pub is_unheld : RlkStatus → Bool
is_unheld unheld = true
is_unheld _ = false

abbrev pub is_locked : RlkStatus → Bool
is_locked locked = true
is_locked _ = false

abbrev pub is_acquiring : RlkStatus → Bool
is_acquiring acquiring = true
is_acquiring _ = false

abbrev pub is_waiting : RlkStatus → Bool
is_waiting waiting = true
is_waiting _ = false

abbrev pub is_releasing : RlkStatus → Bool
is_releasing releasing = true
is_releasing _ = false

abbrev pub is_ok : Status → Bool
is_ok ok = true
is_ok _ = false

abbrev pub is_nothing : Pending → Bool
is_nothing nothing = true
is_nothing _ = false

abbrev pub is_revoke : Pending → Bool
is_revoke revoke = true
is_revoke _ = false

abbrev pub is_retry : Pending → Bool
is_retry retry = true
is_retry _ = false

-- `lock_state_client::lock_state_client`
abbrev pub fresh : ClientLock
fresh = record { state = unheld; pending = nothing }

-- The head of the loop of `acquire`: ask the server if nobody here has, and sleep otherwise.
pub acquire_loop : ClientLock → ClientLock × Todo
acquire_loop l =
    if is_unheld l.state then (record l { state = acquiring }, call_acquire first) else (l, sleep)

-- `acquire`, from its start
unfoldable pub acquire : ClientLock → ClientLock × Todo
unfolding acquire_loop
acquire l = if is_owned l.state then (record l { state = locked }, holding) else acquire_loop l

-- `acquire`, from the return of `pthread_cond_wait`: the test of its loop
unfoldable pub acquire_woken : ClientLock → ClientLock × Todo
unfolding acquire_loop
acquire_woken l =
    if not (is_owned l.state) then acquire_loop l else (record l { state = locked }, holding)

-- `acquire`, when its first RPC was not answered by OK
acquire_refused : ClientLock → Option (ClientLock × Todo)
acquire_refused l = do
  verify (not (is_revoke l.pending))
  some (
      if is_retry l.pending
      then (record { state = waiting; pending = nothing }, call_acquire second)
      else (record l { state = waiting }, sleep))

-- `acquire`, from the reply to its first RPC
unfoldable pub acquire_replied : ClientLock → Status → Option (ClientLock × Todo)
unfolding acquire_refused
acquire_replied l r = do
  verify (is_acquiring l.state)
  if is_ok r then some (record l { state = locked }, holding) else acquire_refused l

-- `acquire`, from the reply to its second RPC
unfoldable pub acquire_retried : ClientLock → Status → Option (ClientLock × Todo)
acquire_retried l r = do verify (is_ok r); some (record l { state = locked }, holding)

-- `release`, from its start
unfoldable pub release : ClientLock → Option (ClientLock × Todo)
release l = do
  verify (is_locked l.state)
  verify (not (is_retry l.pending))
  some (
      if is_nothing l.pending
      then (record l { state = owned }, done true)
      else (record { state = releasing; pending = nothing }, call_release by_user))

-- `release`, from the reply to its RPC: it returns without a broadcast
unfoldable pub release_replied : ClientLock → Status → Option (ClientLock × Todo)
release_replied l r = do
  verify (is_ok r)
  verify (is_releasing l.state)
  some (record l { state = unheld }, done false)

-- `revoke_handler`, from its start
unfoldable pub revoke_handler : ClientLock → Option (ClientLock × Todo)
revoke_handler l = do
  verify (not (is_unheld l.state))
  verify (is_nothing l.pending)
  some (
      if is_owned l.state
      then (record l { state = releasing }, call_release by_handler)
      else (record l { pending = revoke }, done false))

-- `revoke_handler`, from the reply to its RPC
unfoldable pub revoke_replied : ClientLock → Status → Option (ClientLock × Todo)
revoke_replied l r = do verify (is_ok r); some (record l { state = unheld }, done true)

-- `retry_handler`, from its start
unfoldable pub retry_handler : ClientLock → Option (ClientLock × Todo)
retry_handler l = do
  verify (is_nothing l.pending)
  verify (is_acquiring l.state || is_waiting l.state)
  some (
      if is_acquiring l.state
      then (record l { pending = retry }, done false)
      else (l, call_acquire handler))

-- `retry_handler`, from the reply to its RPC
unfoldable pub retry_replied : ClientLock → Status → Option (ClientLock × Todo)
retry_replied l r = do verify (is_ok r); some (record l { state = owned }, done true)
