-- ===== src/Lock/Protocol.antt =====
-- One lock, its server and any number of clients: the handlers of Lock/Server and Lock/Client joined
-- by the RPCs that they send, in every order of delivery.
--
-- The model lets more happen than the code does: a callback is delivered whether or not the server
-- has answered the request that caused it, a sleeping thread may wake without a broadcast, and any
-- thread of a client may ask for the lock at any time. An RPC is delivered once, which is what the
-- at-most-once logic of rpc/rpc.cc is for, and its reply always arrives.
pub mod Phase
pub mod Roles
pub mod Serve
pub mod Exclusion
mod Tests
use Prim.Native.String.{String}
use text.Mathlib.Text.{◌==◌ as str_eq}
use cse_2014_undergrad.Prelude.{
  ℕ, ◌+◌, ◌-◌, zero, suc, Bool, true, false, Option, none, some, if◌then◌else◌, ◌≢◌, ◌≡◌,
}
use cse_2014_undergrad.Lock.Server
use cse_2014_undergrad.Lock.Server.{LockState, Status, Callback}
use cse_2014_undergrad.Lock.Client
use cse_2014_undergrad.Lock.Client.{
  ClientLock, Todo, Caller, Returner, call_acquire, call_release, sleep, holding, done, first,
  second, handler, by_user, by_handler,
}

-- The RPC that a client has under way for the lock.
pub data Rpc : Type 0 where
  no_rpc : Rpc
  asked_acquire : Caller → Rpc
  got_acquire : Caller → Status → Rpc
  asked_release : Returner → Rpc
  got_release : Returner → Status → Rpc

-- A client: its view of the lock, how many of its threads hold it, its RPC under way, and the
-- callbacks sent to it and not yet delivered.
pub record Node : Type 0 where
  pub lock : ClientLock
  pub inside : ℕ
  pub rpc : Rpc
  pub revokes : ℕ
  pub retries : ℕ

pub record System : Type 0 where
  pub server : LockState
  pub node : String → Node

-- `disabled`: there is no such thing to do. `aborted`: an assertion of the code failed, or a client
-- had two RPCs for the lock under way at once.
pub data Outcome {ℓ} (A : Type ℓ) : Type ℓ where
  next : A → Outcome A
  disabled aborted : Outcome A

send : Node → ClientLock → Rpc → Outcome Node
send n l r = elim n.rpc [ no_rpc ↦ next (record n { lock = l; rpc = r }) | _ ↦ aborted ]

perform : Node → ClientLock × Todo → Outcome Node
unfolding send
perform n (l, call_acquire k) = send n l (asked_acquire k)
perform n (l, call_release k) = send n l (asked_release k)
perform n (l, sleep) = next (record n { lock = l })
perform n (l, holding) = next (record n { lock = l; inside = suc n.inside })
perform n (l, done b) = next (record n { lock = l })

perform? : Node → Option (ClientLock × Todo) → Outcome Node
unfolding perform
perform? n none = aborted
perform? n (some d) = perform n d

-- What may happen at one client.
pub data Event : Type 0 where
  enter wake leave deliver_revoke deliver_retry deliver_reply : Event

on_leave : Node → ℕ → Outcome Node
unfolding perform? Client.release
on_leave n zero = disabled
on_leave n (suc m) = perform? (record n { inside = m }) (Client.release n.lock)

on_revoke : Node → ℕ → Outcome Node
unfolding perform? Client.revoke_handler
on_revoke n zero = disabled
on_revoke n (suc m) = perform? (record n { revokes = m }) (Client.revoke_handler n.lock)

on_retry : Node → ℕ → Outcome Node
unfolding perform? Client.retry_handler
on_retry n zero = disabled
on_retry n (suc m) = perform? (record n { retries = m }) (Client.retry_handler n.lock)

on_reply : Node → Rpc → Outcome Node
unfolding perform? Client.acquire_replied Client.acquire_retried Client.retry_replied
    Client.release_replied Client.revoke_replied
on_reply n (got_acquire first s) =
    perform? (record n { rpc = no_rpc }) (Client.acquire_replied n.lock s)
on_reply n (got_acquire second s) =
    perform? (record n { rpc = no_rpc }) (Client.acquire_retried n.lock s)
on_reply n (got_acquire handler s) =
    perform? (record n { rpc = no_rpc }) (Client.retry_replied n.lock s)
on_reply n (got_release by_user s) =
    perform? (record n { rpc = no_rpc }) (Client.release_replied n.lock s)
on_reply n (got_release by_handler s) =
    perform? (record n { rpc = no_rpc }) (Client.revoke_replied n.lock s)
on_reply n _ = disabled

-- A client's part of the protocol. A thread calls `release` only if it holds the lock.
pub local : Node → Event → Outcome Node
unfolding perform Client.acquire Client.acquire_woken on_leave on_revoke on_retry on_reply
local n enter = perform n (Client.acquire n.lock)
local n wake = perform n (Client.acquire_woken n.lock)
local n leave = on_leave n n.inside
local n deliver_revoke = on_revoke n n.revokes
local n deliver_retry = on_retry n n.retries
local n deliver_reply = on_reply n n.rpc

abbrev pub put : (String → Node) → String → Node → String → Node
put f c n d = if str_eq c d then n else f d

-- The callback of a server's handler is sent.
abbrev pub call_back : (String → Node) → Callback → String → Node
call_back f Callback.no_call = f
call_back f (Callback.revoke d) = put f d (record (f d) { revokes = suc (Node.revokes (f d)) })
call_back f (Callback.retry d) = put f d (record (f d) { retries = suc (Node.retries (f d)) })

-- The server's handler ran for client `c`, which gets reply `rpc`.
answer : System → String → (Status → Rpc) → Option Server.Reply → Outcome System
answer s c reply none = aborted
answer s c reply (some r) = next (record {
  server = r.lock;
  node = call_back (put s.node c (record (s.node c) { rpc = reply r.status })) r.callback;
})

serve_rpc : System → String → Rpc → Outcome System
unfolding answer
serve_rpc s c (asked_acquire k) = answer s c (got_acquire k) (Server.acquire_lock s.server c)
serve_rpc s c (asked_release k) = answer s c (got_release k) (Server.release_lock s.server c)
serve_rpc s c _ = disabled

-- The server takes up the request of a client.
pub serve : System → String → Outcome System
unfolding serve_rpc
serve s c = serve_rpc s c (Node.rpc (s.node c))

at_node : System → String → Outcome Node → Outcome System
at_node s c (next n) = next (record s { node = put s.node c n })
at_node s c disabled = disabled
at_node s c aborted = aborted

pub data Move : Type 0 where
  client : String → Event → Move
  server : String → Move

-- One step of the whole system.
pub fire : System → Move → Outcome System
unfolding at_node
fire s (client c e) = at_node s c (local (s.node c) e)
fire s (server c) = serve s c

abbrev pub fresh_node : Node
fresh_node = record { lock = Client.fresh; inside = 0; rpc = no_rpc; revokes = 0; retries = 0 }

abbrev pub start : System
start = record { server = Server.fresh; node = λ c. fresh_node }

abbrev pub caller : Move → String
caller (client c e) = c
caller (server c) = c

-- Client ids are not empty: they are addresses with a port.
pub data Reachable : System → Type 0 where
  here : {s : System} → s ≡ start → Reachable s
  there : {s t : System} (m : Move) → caller m ≢ "" → Reachable s → fire s m ≡ next t → Reachable t
