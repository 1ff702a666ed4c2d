-- ===== src/Rpc/Client.antt =====
-- The client of the RPC library: `rpcc` of rpc/rpc.h and rpc/rpc.cc.
--
-- A call is a thread `t`, and its variable `ca` is `callers t`. What the code does between two points
-- where it has no mutex is one step: `call_start`, then in turn `begin_round` and `after_wait`, then
-- `call_end` (Rounds, Ends); `got_pdu` and `cancel` (Replies) come from other threads between them. The clock, and the
-- connection that `connect_to_dst` makes, are arguments. A failed VERIFY is `none`.
pub mod Rounds
pub mod Ends
pub mod Replies
pub mod Events
mod Calls
mod Fresh
mod Pending
mod Runs
mod Variables
pub mod Deadlines
pub mod Spins
pub mod Matching
mod Tests
use cse_2014_undergrad.Prelude.{
  ℕ, ◌+◌, ◌-◌, ◌*◌, ◌^◌, ◌%◌, Bool, true, false, not, ◌&&◌, ◌||◌, Option, none, some, List, [], ◌∷◌,
  if◌then◌else◌, ltb, leb, slt, ◌==◌, update, ◌>>=◌, ◌>>◌, verify,
}
use cse_2014_undergrad.Rpc.Marshall.{Marshall, Unmarshall, unmarshall, rpc_header_sz, okdone}
use cse_2014_undergrad.Rpc.Marshall.Headers.{
  ReqHeader, ReplyHeader, pack_req_header, unpack_reply_header,
}
use cse_2014_undergrad.Rpc.Time.{Timespec, more, cmp_timespec, add_timespec}
use cse_2014_undergrad.Rpc.Xid.{front, update_xid_rep}

-- `rpc_const`
abbrev pub bind_proc : ℕ
bind_proc = 1

abbrev pub timeout_failure : ℕ
timeout_failure = 2 ^ 32 - 1

abbrev pub bind_failure : ℕ
bind_failure = 2 ^ 32 - 6

abbrev pub cancel_failure : ℕ
cancel_failure = 2 ^ 32 - 7

-- `to_min`, in milliseconds
abbrev pub to_min : ℕ
to_min = 1000

-- `rpcc::caller`
pub record Caller : Type 0 where
  pub xid : ℕ
  pub un : Unmarshall
  pub intret : ℕ
  pub done : Bool

-- `rpcc::request`; its xid is -1 if it is not valid.
pub record Request : Type 0 where
  pub buf : ℕ → ℕ
  pub sz : ℕ
  pub xid : ℕ

abbrev pub cleared : Request
cleared = record { buf = λ i. 0; sz = 0; xid = 2 ^ 32 - 1 }

-- `request::isvalid`
abbrev pub isvalid : Request → Bool
isvalid q = not (q.xid == 2 ^ 32 - 1)

-- `rpcc`, with the references of its connections and whether they are dead, and what was sent on them
pub record Client : Type 0 where
  pub clt_nonce : ℕ
  pub srv_nonce : ℕ
  pub is_bound : Bool
  pub xid : ℕ
  pub lossytest : Bool
  pub retrans : Bool
  pub reachable : Bool
  pub chan : Option ℕ
  pub destroy_wait : Bool
  pub calls : List (ℕ × ℕ)
  pub callers : ℕ → Caller
  pub xid_rep_window : List ℕ
  pub dup_req : Request
  pub xid_rep_done : ℕ
  pub refs : ℕ → ℕ
  pub dead : ℕ → Bool
  pub sent : List (ℕ × (ℕ → ℕ) × ℕ)

-- The constructor, with the values of `random()` and `getenv`
pub client : ℕ → Bool → Bool → Client
client nonce retrans lossy = record {
  clt_nonce = if retrans then nonce else 0;
  srv_nonce = 0;
  is_bound = false;
  xid = 1;
  lossytest = lossy;
  retrans = retrans;
  reachable = true;
  chan = none;
  destroy_wait = false;
  calls = [];
  callers = λ t. record {
    xid = 0;
    un = record { buf = λ i. 0; sz = 0; ind = 0; ok = false };
    intret = 0;
    done = false;
  };
  xid_rep_window = 0 ∷ [];
  dup_req = cleared;
  xid_rep_done = 2 ^ 32 - 1;
  refs = λ c. 0;
  dead = λ c. false;
  sent = [];
}

-- `calls_`: the thread of each xid
pub find : ℕ → List (ℕ × ℕ) → Option ℕ
find xid [] = none
find xid ((x, t) ∷ calls) = if x == xid then some t else find xid calls

pub erase : ℕ → List (ℕ × ℕ) → List (ℕ × ℕ)
erase xid [] = []
erase xid ((x, t) ∷ calls) = let rest = erase xid calls in if x == xid then rest else (x, t) ∷ rest

pub incref : Client → ℕ → Client
incref r c = record r { refs = update r.refs c (r.refs c + 1) }

pub decref : Client → ℕ → Option Client
decref r c = verify (ltb 0 (r.refs c)) >> some (record r { refs = update r.refs c (r.refs c - 1) })

abbrev pub drop_ref : Option ℕ → Client → Option Client
unfolding decref
drop_ref none r = some r
drop_ref (some c) r = decref r c

-- `chan_ = connect_to_dst(...)`, which gives a connection with one reference, or none
pub reconnect : Client → Option ℕ → Client
reconnect r none = record r { chan = none }
reconnect r (some c) = record r {
  chan = some c;
  refs = update r.refs c 1;
  dead = update r.dead c false;
}

-- `!chan_ || chan_->isdead()`
abbrev pub is_gone : Client → Option ℕ → Bool
is_gone r none = true
is_gone r (some c) = r.dead c

-- The first `if` of `get_refconn`
pub renew : Client → Option ℕ → Option Client
unfolding drop_ref reconnect
renew r new =
    if is_gone r r.chan then (do r' ← drop_ref r.chan r; some (reconnect r' new)) else some r

-- Its second `if`, with the connection that the caller holds and `chan_`
pub share : Client → Option ℕ → Option ℕ → Option (Client × Option ℕ)
unfolding drop_ref incref
share r ch none = some (r, ch)
share r ch (some c) = do r' ← drop_ref ch r; some (incref r' c, some c)

pub get_refconn : Client → Option ℕ → Option ℕ → Option (Client × Option ℕ)
unfolding renew share
get_refconn r ch new = do r' ← renew r new; share r' ch r'.chan
