-- ===== src/Lock/Server.antt =====
-- The caching lock server: lock_server_cache.h and lock_server_cache.cc.
--
-- `lock_states_server` is indexed only, so it is a function whose value at a new lock is the default
-- state. The mutex makes a handler's part up to `pthread_mutex_unlock` one step; the callback that
-- follows it (`revoke` or `retry`, sent through a handle) is the message that the step returns, and
-- `finish_handler` is the handler's part from there on, with its assertions.
-- An `assert` that fails is `none`.
pub mod Invariant
pub mod Order
mod Tests
use Prim.Native.String.{String}
use text.Mathlib.Text.{◌==◌ as str_eq}
use cse_2014_undergrad.Prelude.{
  ℕ, Bool, true, false, not, Option, none, some, List, [], ◌∷◌, ◌++◌, if◌then◌else◌, update, ◌>>=◌,
  ◌>>◌, verify, is_empty,
}

-- `lock_protocol::lkstatus`
pub data LkStatus : Type 0 where
  free locked expecting : LkStatus

-- `lock_protocol::xxstatus` as a caller sees it: OK, RETRY, or any other status, those of a call that
-- did not get through included. The handlers below return the first two.
pub data Status : Type 0 where
  ok retry_later failed : Status

-- `client_state`
pub record ClientState : Type 0 where
  pub id : String
  pub send_rpc : Bool

-- `lock_state_server`
pub record LockState : Type 0 where
  pub state : LkStatus
  pub holding_client : ClientState
  pub waiting_clients : List String

-- The RPC of `rlock_protocol` that a handler sends once it has left the mutex.
pub data Callback : Type 0 where
  no_call : Callback
  revoke retry : String → Callback

-- What a handler does to one lock: its status, its callback and the lock's new state.
pub record Reply : Type 0 where
  pub status : Status
  pub callback : Callback
  pub lock : LockState

-- `lock_state_server::lock_state_server`, with `client_state::client_state`
abbrev pub fresh : LockState
fresh = record {
  state = free;
  holding_client = record { id = ""; send_rpc = false };
  waiting_clients = [];
}

-- `acquire` under FREE
acquire_free : LockState → String → Option Reply
acquire_free l id = do
  verify (is_empty l.waiting_clients)
  some (record {
    status = ok;
    callback = no_call;
    lock = record l { state = locked; holding_client = record { id = id; send_rpc = false } };
  })

-- `acquire` under EXPECTING
acquire_expecting : LockState → String → Reply
acquire_expecting l id =
    if str_eq l.holding_client.id id
    then record {
      status = ok;
      callback = if l.holding_client.send_rpc then revoke l.holding_client.id else no_call;
      lock = record l { state = locked };
    }
    else record {
      status = retry_later;
      callback = no_call;
      lock = record l {
        waiting_clients = l.waiting_clients ++ (id ∷ []);
        holding_client = record { id = l.holding_client.id; send_rpc = true };
      };
    }

-- `acquire` under LOCKED
acquire_locked : LockState → String → Option Reply
acquire_locked l id = do
  verify (not (str_eq l.holding_client.id id))
  some (record {
    status = retry_later;
    callback = if l.holding_client.send_rpc then no_call else revoke l.holding_client.id;
    lock = record l {
      waiting_clients = l.waiting_clients ++ (id ∷ []);
      holding_client = record { id = l.holding_client.id; send_rpc = true };
    };
  })

-- `lock_server_cache::acquire` on the state of one lock, up to where it leaves the mutex
unfoldable pub acquire_lock : LockState → String → Option Reply
unfolding acquire_free acquire_expecting acquire_locked
acquire_lock l id = elim l.state [
  | free ↦ acquire_free l id
  | expecting ↦ do verify (not (str_eq l.holding_client.id "")); some (acquire_expecting l id)
  | locked ↦ do verify (not (str_eq l.holding_client.id "")); acquire_locked l id
]

abbrev is_locked : LkStatus → Bool
is_locked locked = true
is_locked _ = false

-- `release` once its assertions hold: to nobody, or to the front of the queue
pass_on : LockState → List String → Reply
pass_on l [] = record {
  status = ok;
  callback = no_call;
  lock = record l { state = free; holding_client = record { id = ""; send_rpc = false } };
}
pass_on l (dest ∷ rest) = record {
  status = ok;
  callback = retry dest;
  lock = record {
    state = expecting;
    holding_client = record { id = dest; send_rpc = not (is_empty rest) };
    waiting_clients = rest;
  };
}

-- `lock_server_cache::release` on the state of one lock, up to where it leaves the mutex
unfoldable pub release_lock : LockState → String → Option Reply
unfolding pass_on
release_lock l id = do
  verify (is_locked l.state)
  verify (str_eq l.holding_client.id id)
  some (pass_on l l.waiting_clients)

abbrev is_ok : Status → Bool
is_ok ok = true
is_ok _ = false

-- A handler once it has left the mutex, with what it returns. `came` is what the callback came to:
-- `none` where `safebind` gave no client, and else the status of the call. That of `retry` is not read.
unfoldable pub finish_handler : Reply → Option Status → Option Status
finish_handler r came = elim r.callback [
  | no_call ↦ some r.status
  | revoke dest ↦ elim came [ none ↦ none | some st ↦ do verify (is_ok st); some r.status ]
  | retry dest ↦ elim came [ none ↦ none | some st ↦ some r.status ]
]

-- The whole of `acquire` and of `release` for one lock, which return a status or abort
unfoldable pub acquire_returns : LockState → String → Option Status → Option Status
unfolding acquire_lock finish_handler
acquire_returns l id came = acquire_lock l id >>= λ r. finish_handler r came

unfoldable pub release_returns : LockState → String → Option Status → Option Status
unfolding release_lock finish_handler
release_returns l id came = release_lock l id >>= λ r. finish_handler r came

-- `lock_server_cache`. Nothing in the source writes `nacquire`.
pub record Server : Type 0 where
  pub nacquire : ℕ
  pub lock_states_server : ℕ → LockState

-- The state of one lock put back in the table.
store : Server → ℕ → Option Reply → Option (Reply × Server)
store s lid none = none
store s lid (some r) =
    some (r, record s { lock_states_server = update s.lock_states_server lid r.lock })

unfoldable pub acquire : Server → ℕ → String → Option (Reply × Server)
unfolding store
acquire s lid id = store s lid (acquire_lock (s.lock_states_server lid) id)

unfoldable pub release : Server → ℕ → String → Option (Reply × Server)
unfolding store
release s lid id = store s lid (release_lock (s.lock_states_server lid) id)

-- `lock_server_cache::stat`: the number that it reports
unfoldable pub stat : Server → ℕ → ℕ
stat s lid = s.nacquire
