-- ===== src/Lock/Server/Invariant.antt =====
-- What holds of every lock of the caching server.
use Prim.Native.String.{String}
use text.Mathlib.TextEquality.{eq_iff}
use cse_2014_undergrad.Prelude.{
  Option, not, none, some, [], ◌≡◌, ◌≢◌, ◌↔◌, ◌⊎◌, refl, arith, is_empty, All,
}
use cse_2014_undergrad.Lock.Server.{
  LkStatus, LockState, Reply, Status, ok, free, locked, expecting, fresh, acquire_lock,
  release_lock, acquire_returns, release_returns,
}

-- A free lock has no queue; any other has a holder; and the holder has been asked to give the lock
-- back, or will be once it has it, exactly if somebody waits.
abbrev pub Shape : LkStatus → LockState → Type 0
Shape free l = l.waiting_clients ≡ []
Shape _ l = l.holding_client.id ≢ ""

pub record IsValid (l : LockState) : Type 0 where
  pub shape : Shape l.state l
  pub asked : l.holding_client.send_rpc ≡ not (is_empty l.waiting_clients)

pub fresh-IsValid : IsValid fresh
fresh-IsValid = record { shape = refl; asked = refl }

-- `acquire` by a client with a name, when it does not abort, keeps the invariant of a lock's state: a
-- free lock has no queue, any other lock names a client, and that client has been asked to give the
-- lock back, or will be, exactly if somebody waits.
pub acquire_lock-IsValid :
    (l : LockState) (id : String) (r : Reply)
    → id ≢ ""
    → IsValid l
    → acquire_lock l id ≡ some r
    → IsValid r.lock
unfolding acquire_lock
acquire_lock-IsValid l id r ne v e =
    ground (arith, eq_iff l.holding_client.id "", eq_iff l.holding_client.id id)

pub release_lock-IsValid :
    (l : LockState) (id : String) (r : Reply)
    → All (λ c. c ≢ "") l.waiting_clients
    → release_lock l id ≡ some r
    → IsValid r.lock
unfolding release_lock
release_lock-IsValid l id r named e = ground arith

-- On the state of a lock that keeps the invariant, and with `came` for what the callback comes to:
-- `acquire` aborts exactly if the client that has the lock asks for it again, or if it has a `revoke` to
-- send and that does not come back OK, which it sends to the holder of a lock for which nobody waits
-- yet, and to a caller that gets a lock for which somebody waits. `release` aborts exactly if the caller
-- has not got the lock, or if somebody waits and there is no client to send the `retry` through.
pub lock_aborts_iff :
    (l : LockState) (id : String) (came : Option Status)
    → IsValid l
    → ((acquire_returns l id came ≡ none) ↔ (
        ((l.state ≡ locked) × (l.holding_client.id ≡ id))
        ⊎ ((came ≢ some ok)
            × (((l.state ≡ locked) × (l.waiting_clients ≡ []))
                ⊎ ((l.state ≡ expecting)
                    × (l.holding_client.id ≡ id)
                    × (l.waiting_clients ≢ []))))))
      × ((release_returns l id came ≡ none) ↔ (
          (¬ ((l.state ≡ locked) × (l.holding_client.id ≡ id)))
          ⊎ ((came ≡ none) × (l.waiting_clients ≢ []))))
unfolding acquire_returns release_returns
lock_aborts_iff l id came v =
    ground (arith, eq_iff l.holding_client.id "", eq_iff l.holding_client.id id)
