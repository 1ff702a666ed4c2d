-- ===== src/Rpc/Client/Tests.antt =====
-- Calls of a client, and witnesses.
use cse_2014_undergrad.Prelude.{ℕ, true, false, none, List, [], ◌∷◌, ◌≡◌, refl, arith}
use cse_2014_undergrad.Rpc.Marshall.{
  Marshall, marshall, Unmarshall, unmarshall, pack, rawbyte, unpack, take_byte,
}
use cse_2014_undergrad.Rpc.Marshall.Headers.{
  pack_req_header, pack_reply_header, unpack_reply_header,
}
use cse_2014_undergrad.Rpc.Time.{Timespec, second, cmp_timespec, add_timespec, carry}
use cse_2014_undergrad.Rpc.Client.{
  Client, Caller, client, get_refconn, renew, reconnect, share, drop_ref, find, erase,
}
use cse_2014_undergrad.Rpc.Client.Rounds.{
  Call, Sleep, signalled, timed_out, refused, wait_loop, call_begins, begin_round, transmit,
  send_on, next_deadline, wait_until,
}
use cse_2014_undergrad.Rpc.Client.Ends.{
  result, bound, call_start, call_end, unregister, save_request,
}
use cse_2014_undergrad.Rpc.Client.Replies.{got_pdu, answer, take_in}
use cse_2014_undergrad.Rpc.Xid.{front}
use cse_2014_undergrad.Rpc.Client.Events.{Event, starts, replies, binds, step, run}
use cse_2014_undergrad.Rpc.Client.Pending.{reply}
use cse_2014_undergrad.Rpc.Client.Matching.{
  first_reply, has_cancel, outcome, read, call_end-outcome,
}
use cse_2014_undergrad.Rpc.Client.Spins.{begin_round-spins}

abbrev blank : Marshall
blank = marshall (λ i. 0)

abbrev empty : Unmarshall
empty = unmarshall (λ i. 0) 0

-- A message of the server
abbrev message : ℕ → ℕ → ℕ → ℕ
message xid ret = Marshall.buf (pack_reply_header blank (record { xid = xid; ret = ret }))

abbrev bound_client : Client
bound_client = record (client 9 true true) { is_bound = true; srv_nonce = 5 }

abbrev request : Marshall
request =
    pack_req_header blank
      (record { xid = 1; proc = 7; clt_nonce = 9; srv_nonce = 5; xid_rep = front (0 ∷ []) })

abbrev sent_call : Client
sent_call = (call_start bound_client 4 7 blank empty).0

abbrev noon : Timespec
noon = record { tv_sec = 40; tv_nsec = 900000000 }

abbrev waiting : Call
waiting = record {
  req = request;
  xid_rep = 0;
  ch = none;
  transmit = false;
  curr_to = 1000;
  final = noon;
}

-- Another call starts, and is answered; then come a reply to the first call and a second one to it.
abbrev answers : List Event
answers =
    starts 6 8 blank empty
    ∷ replies (message 2 3) 24
    ∷ replies (message 1 0) 24
    ∷ replies (message 1 5) 24
    ∷ []

abbrev after_start : Client
after_start = (call_start sent_call 6 8 blank empty).0

abbrev answered : Client
answered =
    got_pdu (got_pdu (got_pdu after_start (message 2 3) 24) (message 1 0) 24) (message 1 5) 24

first_reply_found : outcome (first_reply 1 answers) (has_cancel answers) ≡ 0
unfolding reply pack_reply_header unpack_reply_header pack unpack rawbyte take_byte
first_reply_found = refl

call_end-outcome_example :
    (0 ≡ outcome (first_reply 1 answers) (has_cancel answers))
    × (has_cancel answers ≡ false
        → Caller.un (answered.callers 4) ≡ read (first_reply 1 answers) empty)
unfolding client run step bound call_start call_end drop_ref got_pdu answer take_in find erase
    result unregister save_request pack_req_header pack_reply_header unpack_reply_header pack unpack
    rawbyte take_byte
call_end-outcome_example =
    call_end-outcome 9 true true (binds 0 5 ∷ []) answers 4 7 blank request empty (front (0 ∷ []))
      waiting bound_client sent_call answered (save_request (unregister answered 4) 4 waiting) 0
      (omega arith) refl tt refl ((λ e. omega (arith, e)), (tt, (tt, (tt, tt)))) refl refl

-- A call with a time out of 1500 milliseconds waits twice: for its first second, and for the rest.
abbrev first_call : Call
first_call = call_begins request 0 1500 noon

abbrev unreachable : Client
unreachable = record bound_client { chan = none }

abbrev round_1 : Client × Call × Timespec
round_1 = (
  unreachable,
  record first_call { transmit = false },
  record { tv_sec = 41; tv_nsec = 900000000 },
)

abbrev second_call : Call
second_call = record first_call { transmit = true; curr_to = 2000 }

abbrev later : Timespec
later = record { tv_sec = 41; tv_nsec = 900000005 }

-- The first wait is over when the clock has passed its deadline. In the second one the thread is woken
-- without a reply, and called again it is too late.
abbrev asleep : List Sleep
asleep = record { called = round_1.2; woken = timed_out; client = unreachable } ∷ []

abbrev much_later : Timespec
much_later = record { tv_sec = 43; tv_nsec = 0 }

abbrev woken_once : List Sleep
woken_once =
    record { called = later; woken = signalled; client = unreachable }
    ∷ record { called = much_later; woken = timed_out; client = unreachable }
    ∷ []

-- A call of half a second that starts at half a second
abbrev half_past : Timespec
half_past = record { tv_sec = 40; tv_nsec = 500000000 }

abbrev full_second : Timespec
full_second = record { tv_sec = 40; tv_nsec = second }

abbrev spins : List Sleep
spins =
    record { called = later; woken = refused; client = unreachable }
    ∷ record { called = much_later; woken = refused; client = unreachable }
    ∷ []

begin_round-spins_example :
    (Timespec.tv_nsec full_second ≡ second) × (wait_loop unreachable 4 spins ≡ none)
unfolding begin_round call_begins transmit get_refconn renew reconnect drop_ref share send_on
    next_deadline wait_until cmp_timespec add_timespec carry client
begin_round-spins_example =
    begin_round-spins 4 request 0 500 half_past noon full_second unreachable unreachable unreachable
      (record (call_begins request 0 500 half_past) {
        transmit = false;
        final = record full_second { tv_sec = 0 };
      })
      none spins (omega arith) refl (omega arith) refl refl ((λ v. refl), ((λ v. refl), tt))
      (refl, (refl, tt))
