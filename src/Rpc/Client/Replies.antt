-- ===== src/Rpc/Client/Replies.antt =====
-- What other threads do to a call: `got_pdu` and `cancel` of rpc/rpc.cc.
use cse_2014_undergrad.Prelude.{
  ℕ, Bool, true, false, not, ◌||◌, none, some, List, [], ◌∷◌, if◌then◌else◌, leb, update,
}
use cse_2014_undergrad.Rpc.Marshall.{Unmarshall, unmarshall, rpc_header_sz}
use cse_2014_undergrad.Rpc.Marshall.Headers.{ReplyHeader, unpack_reply_header}
use cse_2014_undergrad.Rpc.Xid.{update_xid_rep}
use cse_2014_undergrad.Rpc.Client.{cancel_failure, Caller, Client, find}

-- `unmarshall::take_in`, of the buffer of another
unfoldable pub take_in : Unmarshall → Unmarshall
take_in another = record {
  buf = another.buf;
  sz = another.sz;
  ind = rpc_header_sz;
  ok = leb rpc_header_sz another.sz;
}

-- What a reply does to the call that it is for
unfoldable pub answer : Caller → ReplyHeader → Unmarshall → Caller
unfolding take_in
answer ca h rep =
    if ca.done then ca else record ca { un = take_in rep; intret = h.ret; done = true }

-- `got_pdu`
unfoldable pub got_pdu : Client → (ℕ → ℕ) → ℕ → Client
unfolding unpack_reply_header find answer
got_pdu r b sz =
    let (h, rep) = unpack_reply_header (unmarshall b sz) in
    let r' : Client = record r { xid_rep_window = update_xid_rep r.xid_rep_window h.xid } in
    if not rep.ok then r else elim (find h.xid r.calls) [
      | none ↦ r'
      | some t ↦ record r' { callers = update r.callers t (answer (r.callers t) h rep) }
    ]

-- The loop of `cancel` over `calls_`
abbrev pub cancelled : Caller → Caller
cancelled ca = record ca { done = true; intret = cancel_failure }

unfoldable pub cancel_all : List (ℕ × ℕ) → (ℕ → Caller) → ℕ → Caller
cancel_all [] callers = callers
cancel_all ((x, t) ∷ calls) callers = cancel_all calls (update callers t (cancelled (callers t)))

-- `cancel` up to its first wait, with whether it waits; it goes on when no call is left.
unfoldable pub cancel : Client → Client × Bool
unfolding cancel_all
cancel r =
    let waits : Bool = elim r.calls [ [] ↦ false | c ∷ cs ↦ true ] in
    (
      record r { callers = cancel_all r.calls r.callers; destroy_wait = r.destroy_wait || waits },
      waits,
    )
