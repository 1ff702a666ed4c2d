-- ===== src/Lock/Server/Tests.antt =====
-- Runs of the caching server's handlers, and witnesses.
use Prim.Native.String.{String}
use text.Mathlib.TextEquality.{eq_iff}
use cse_2014_undergrad.Prelude.{
  true, false, some, none, ◌↔◌, ◌⊎◌, List, [], ◌∷◌, ◌++◌, ◌≡◌, ◌≢◌, refl, arith,
}
use cse_2014_undergrad.Lock.Server.{
  LockState, locked, expecting, fresh, acquire_lock, release_lock, acquire_returns, release_returns,
  failed, ok, retry_later, retry, no_call,
}
use cse_2014_undergrad.Lock.Server.Invariant.{IsValid, lock_aborts_iff}
use cse_2014_undergrad.Lock.Server.Order.{
  Call, acquires, releases, run, joined, served, line, run_fifo,
}

-- `a` has the lock and `b` waits for it.
abbrev contended : LockState
contended = record {
  state = locked;
  holding_client = record { id = "a"; send_rpc = true };
  waiting_clients = "b" ∷ [];
}

contended-IsValid : IsValid contended
contended-IsValid = record { shape = ground (arith, eq_iff "a" ""); asked = refl }

c_named : ◌≢◌ {A = String} "c" ""
c_named = ground (arith, eq_iff "c" "")

-- A third client queues; the holder has been asked already.
third_waits :
    acquire_lock contended "c"
    ≡ some (record {
      status = retry_later;
      callback = no_call;
      lock = record contended { waiting_clients = "b" ∷ "c" ∷ [] };
    })
unfolding acquire_lock
third_waits = refl

handed_on :
    release_lock contended "a"
    ≡ some (record {
      status = ok;
      callback = retry "b";
      lock = record {
        state = expecting;
        holding_client = record { id = "b"; send_rpc = false };
        waiting_clients = [];
      };
    })
unfolding release_lock
handed_on = refl

-- `a` has the lock and nobody waits for it; the `revoke` that the request of `b` brings about fails.
abbrev lone : LockState
lone = record {
  state = locked;
  holding_client = record { id = "a"; send_rpc = false };
  waiting_clients = [];
}

revoke_fails : acquire_returns lone "b" (some failed) ≡ none
unfolding acquire_returns
revoke_fails = refl

lone-IsValid : IsValid lone
lone-IsValid = record { shape = ground (arith, eq_iff "a" ""); asked = refl }

lock_aborts_iff_example :
    ((acquire_returns lone "b" (some failed) ≡ none) ↔ (
      ((locked ≡ locked) × (◌≡◌ {A = String} "a" "b"))
      ⊎ ((some failed ≢ some ok)
          × (((locked ≡ locked) × (◌≡◌ {A = List String} [] []))
              ⊎ ((locked ≡ expecting)
                  × (◌≡◌ {A = String} "a" "b")
                  × (◌≢◌ {A = List String} [] []))))))
    × ((release_returns lone "b" (some failed) ≡ none) ↔ (
        (¬ ((locked ≡ locked) × (◌≡◌ {A = String} "a" "b")))
        ⊎ ((some failed ≡ none) × (◌≢◌ {A = List String} [] []))))
lock_aborts_iff_example = lock_aborts_iff lone "b" (some failed) lone-IsValid

abbrev history : List Call
history = acquires "a" ∷ acquires "b" ∷ acquires "c" ∷ releases "a" ∷ acquires "b" ∷ []

abbrev b_then_c : LockState
b_then_c = record {
  state = locked;
  holding_client = record { id = "b"; send_rpc = true };
  waiting_clients = "c" ∷ [];
}

history-run : run fresh history ≡ some b_then_c
unfolding run acquire_lock release_lock
history-run = refl

asked_in_order : joined history fresh ≡ "a" ∷ "b" ∷ "c" ∷ []
unfolding joined acquire_lock release_lock
asked_in_order = refl

run_fifo_example : joined history fresh ≡ served history ++ line b_then_c
run_fifo_example =
    run_fifo history b_then_c
      (
        ground (arith, eq_iff "a" ""),
        (ground (arith, eq_iff "b" ""), (c_named, (ground (arith, eq_iff "b" ""), tt))),
      )
      history-run
