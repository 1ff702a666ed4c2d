-- ===== src/Rpc/Client/Rounds.antt =====
-- The loop of `rpcc::call1` of rpc/rpc.cc: a round up to its wait, and what follows the wait.
use cse_2014_undergrad.Prelude.{
  ℕ, ◌*◌, ◌^◌, ◌%◌, Bool, true, false, not, ◌&&◌, ◌||◌, Option, none, some, List, [], ◌∷◌,
  if◌then◌else◌, slt, ◌==◌, ◌>>=◌,
}
use cse_2014_undergrad.Rpc.Marshall.{Marshall}
use cse_2014_undergrad.Rpc.Time.{Timespec, more, cmp_timespec, add_timespec}
use cse_2014_undergrad.Rpc.Client.{to_min, Caller, cleared, isvalid, Client, is_gone, get_refconn}

-- The variables of `call1` between two waits; a final deadline with `tv_sec` 0 says that none follows.
pub record Call : Type 0 where
  pub req : Marshall
  pub xid_rep : ℕ
  pub ch : Option ℕ
  pub transmit : Bool
  pub curr_to : ℕ
  pub final : Timespec

-- The variables before the loop
unfoldable pub call_begins : Marshall → ℕ → ℕ → Timespec → Call
call_begins req xid_rep to now = record {
  req = req;
  xid_rep = xid_rep;
  ch = none;
  transmit = true;
  curr_to = to_min;
  final = add_timespec now to;
}

-- What is sent on a connection: an older request again, if its time has come, and the request
unfoldable pub send_requests : Client → ℕ → Marshall → Client
send_requests r c req =
    let forgot = isvalid r.dup_req && slt r.dup_req.xid r.xid_rep_done in
    let sent = (if forgot then (c, r.dup_req.buf, r.dup_req.sz) ∷ r.sent else r.sent) in
    record r {
      dup_req = if forgot then cleared else r.dup_req;
      sent = (c, req.buf, req.ind) ∷ sent;
    }

-- `if(ch)`, and the end of the block: the request is sent only once on a given connection.
unfoldable pub send_on : Client → Call → Option ℕ → Client × Call
unfolding send_requests
send_on r k none = (r, record k { ch = none; transmit = false })
send_on r k (some c) =
    (if r.reachable then send_requests r c k.req else r, record k { ch = some c; transmit = false })

-- `if(transmit)`
unfoldable pub transmit : Client → Call → Option ℕ → Option (Client × Call)
unfolding get_refconn send_on
transmit r k new =
    if not k.transmit
    then some (r, k)
    else (do p ← get_refconn r k.ch new; some (send_on p.0 k p.1))

-- The deadline of the next wait and the final one after it; `none` where the loop ends.
unfoldable pub next_deadline : ℕ → Timespec → Timespec → Option (Timespec × Timespec)
unfolding cmp_timespec
next_deadline curr_to now final =
    let next = add_timespec now curr_to in
    if final.tv_sec == 0 then none else elim (cmp_timespec next final) [
      | more ↦ some (final, record final { tv_sec = 0 })
      | _ ↦ some (next, final)
    ]

-- The call waits, and its final deadline is then the second of the two, or it leaves the loop.
unfoldable pub wait_until :
    Client → Call → Option (Timespec × Timespec) → Client × Call × Option Timespec
wait_until r k none = (r, k, none)
wait_until r k (some d) = (r, record k { final = d.1 }, some d.0)

-- The loop up to its wait, with the time until which it waits; `none` where it ends
unfoldable pub begin_round :
    Client → Call → Option ℕ → Timespec → Option (Client × Call × Option Timespec)
unfolding transmit next_deadline wait_until
begin_round r k new now = do
  p ← transmit r k new
  some (wait_until p.0 p.1 (next_deadline k.curr_to now k.final))

-- What `pthread_cond_timedwait` gives: 0, ETIMEDOUT, or another error, as EINVAL.
pub data Woken : Type 0 where
  signalled timed_out refused : Woken

abbrev pub is_timed_out : Woken → Bool
is_timed_out timed_out = true
is_timed_out _ = false

-- A call of it: the clock when it is made, what it gives, and the client when it returns
pub record Sleep : Type 0 where
  pub called : Timespec
  pub woken : Woken
  pub client : Client

-- The loop of the wait, on the calls that are made in it: the client when it ends, or `none` where it
-- makes one more call. Only the thread's own `done` and ETIMEDOUT end it.
unfoldable pub wait_loop : Client → ℕ → List Sleep → Option Client
wait_loop r t [] = if Caller.done (r.callers t) then some r else none
wait_loop r t (s ∷ ss) =
    let rest = wait_loop s.client t ss in
    if Caller.done (r.callers t)
    then some r
    else if is_timed_out s.woken
    then some s.client
    else rest

-- The loop after its wait: `none` where the call is done, and else the variables for the next round.
unfoldable pub after_wait : Client → ℕ → Call → Option Call
after_wait r t k =
    if Caller.done (r.callers t)
    then none
    else some (record k {
      transmit = k.transmit || r.retrans && is_gone r k.ch;
      curr_to = k.curr_to * 2 % 2 ^ 32;
    })
