-- ===== src/Rpc/Dispatch/Tests.antt =====
-- Runs of the server, and witnesses.
use cse_2014_undergrad.Prelude.{
  if◌then◌else◌, ◌==◌, ℕ, true, false, none, some, List, [], ◌∷◌, ◌≡◌, refl, arith,
}
use cse_2014_undergrad.Rpc.Marshall.{
  Marshall, marshall, Unmarshall, pack, rawbyte, unpack, take_byte,
}
use cse_2014_undergrad.Rpc.Marshall.Headers.{
  ReqHeader, pack_req_header, pack_reply_header, unpack_req_header,
}
use cse_2014_undergrad.Rpc.Window.{
  reply_t, done, check_window, checkduplicate_and_update, add_reply, stat_of,
}
use cse_2014_undergrad.Rpc.Window.Order.{front}
use cse_2014_undergrad.Rpc.Window.Once.{Distinct}
use cse_2014_undergrad.Rpc.Dispatch.{
  Server, Sent, arrive, admit, act, remember, finish, keep_reply, latest, send, incref, decref,
  leave, older,
}
use cse_2014_undergrad.Rpc.Dispatch.Replies.{packed, finish-check_window}
use cse_2014_undergrad.Rpc.Dispatch.Once.{Event, arrives, finishes, run, dispatch_once}

abbrev started : Server
started = record {
  nonce = 9;
  procs = λ proc. true;
  reply_window = λ n. [];
  conns = λ n. none;
  refs = λ c. 1;
  dead = λ c. false;
  created = λ c. (c, 0);
  bufs = λ b i. 0;
  fresh = 100;
  counting = 0;
  curr_counts = 0;
  counts = λ proc. 0;
  sent = [];
}

abbrev header : ReqHeader
header = record { xid = 1; proc = 7; clt_nonce = 5; srv_nonce = 9; xid_rep = 0 }

abbrev blank : Marshall
blank = marshall (λ i. 0)

abbrev packet : Unmarshall
packet = record { buf = (pack_req_header blank header).buf; sz = 24; ind = 0; ok = true }

-- A request, its duplicate while the handler runs, the return of the handler, and another duplicate.
abbrev history : List Event
history = arrives 3 packet ∷ arrives 4 packet ∷ finishes 3 header 0 blank ∷ arrives 4 packet ∷ []

history-run : run (λ i. 0) 5 started history ≡ some (1 ∷ [])
unfolding run arrive finish admit act leave remember incref decref older keep_reply latest send
    pack_req_header pack_reply_header unpack_req_header pack unpack rawbyte take_byte
    checkduplicate_and_update check_window stat_of add_reply
history-run = refl

dispatch_once_example : Distinct (1 ∷ [])
dispatch_once_example =
    dispatch_once (λ i. 0) 5 history started (1 ∷ []) (omega arith) refl history-run

-- The window and the log when the handler of `header` returns.
abbrev working : Server
working = record started { reply_window = λ n. reply_t 0 ∷ reply_t 1 ∷ []; conns = λ n. some 3 }

abbrev finished : Server
finished = record working {
  reply_window = λ n.
      if 5 == n
      then reply_t 0 ∷ record { xid = 1; cb_present = true; buf = 100; sz = 24 } ∷ []
      else reply_t 0 ∷ reply_t 1 ∷ [];
  refs = λ c. if 3 == c then 0 else 1;
  bufs = λ b. if 100 == b then Marshall.buf (packed header 0 blank) else λ i. 0;
  fresh = 101;
  sent = record { chan = 3; buf = Marshall.buf (packed header 0 blank); sz = 24 } ∷ [];
}

working-finish : finish working 3 header 0 blank ≡ some finished
unfolding finish keep_reply latest send decref add_reply pack_reply_header pack rawbyte
working-finish = refl

finish-check_window_example :
    (b : ℕ) × (d : ℕ) × (old : List Sent) × ((check_window (finished.reply_window 5) 1 0).stat
      ≡ done b (Marshall.ind (packed header 0 blank)))
    × (finished.sent
        ≡ record { chan = d; buf = finished.bufs b; sz = Marshall.ind (packed header 0 blank) }
          ∷ old)
    × (finished.bufs b ≡ Marshall.buf (packed header 0 blank))
finish-check_window_example =
    finish-check_window working finished 3 header 0 blank working-finish (omega arith)
      (omega arith, tt) (omega arith) (unfold front in omega arith)
