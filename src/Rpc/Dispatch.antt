-- ===== src/Rpc/Dispatch.antt =====
-- `rpcs::dispatch` of rpc/rpc.cc: what the server does with a request that has arrived, around the
-- window of Rpc/Window and the headers of Rpc/Marshall.
--
-- The handler runs outside every mutex, so `dispatch` is two steps with the handler between them:
-- `arrive` up to the `switch`, and `finish` after the call of `fn`. A connection is a number; `dead`,
-- `created` and `refs` are the fields of `connection` that are looked at here. What is sent is logged
-- in `sent`, newest first; the result of `send` is not looked at in the source. A failed `VERIFY` or
-- a call through a null pointer is `none`.
pub mod Replies
pub mod Once
mod Tests
use cse_2014_undergrad.Prelude.{
  ℕ, suc, ◌+◌, ◌-◌, ◌^◌, Bool, true, false, not, ◌&&◌, ◌||◌, Option, none, some, List, [], ◌∷◌,
  if◌then◌else◌, ltb, ◌==◌, update, ◌>>=◌, ◌>>◌, verify,
}
use cse_2014_undergrad.Rpc.Marshall.{Marshall, marshall, Unmarshall}
use cse_2014_undergrad.Rpc.Marshall.Headers.{
  ReqHeader, ReplyHeader, unpack_req_header, pack_reply_header,
}
use cse_2014_undergrad.Rpc.Window.{
  ReplyT, RpcState, new, in_progress, forgotten, done, checkduplicate_and_update, add_reply,
}

-- The bytes and the size that went out on a connection.
pub record Sent : Type 0 where
  pub chan : ℕ
  pub buf : ℕ → ℕ
  pub sz : ℕ

-- `rpcs`, and what it uses of its connections and of the memory that `take_buf` hands out. `fresh` is
-- an address that is not yet in use.
pub record Server : Type 0 where
  pub nonce : ℕ
  pub procs : ℕ → Bool
  pub reply_window : ℕ → List ReplyT
  pub conns : ℕ → Option ℕ
  pub refs : ℕ → ℕ
  pub dead : ℕ → Bool
  pub created : ℕ → ℕ × ℕ
  pub bufs : ℕ → ℕ → ℕ
  pub fresh : ℕ
  pub counting : ℕ
  pub curr_counts : ℕ
  pub counts : ℕ → ℕ
  pub sent : List Sent

abbrev pub atmostonce_failure : ℕ
atmostonce_failure = 2 ^ 32 - 4

abbrev pub oldsrv_failure : ℕ
oldsrv_failure = 2 ^ 32 - 5

-- `connection::incref` and `connection::decref`
unfoldable pub incref : Server → ℕ → Server
incref s c = record s { refs = update s.refs c (s.refs c + 1) }

unfoldable pub decref : Server → ℕ → Option Server
decref s c = verify (ltb 0 (s.refs c)) >> some (record s { refs = update s.refs c (s.refs c - 1) })

-- `compare(another) < 0`: it was made before the other.
unfoldable pub older : ℕ × ℕ → ℕ × ℕ → Bool
older (sec, usec) (sec', usec') = ltb sec sec' || (sec == sec' && ltb usec usec')

unfoldable pub send : Server → ℕ → (ℕ → ℕ) → ℕ → Server
send s c buf sz = record s { sent = record { chan = c; buf = buf; sz = sz } ∷ s.sent }

-- A reply without contents, for a request that is not handled.
unfoldable pub send_failure : (ℕ → ℕ) → Server → ℕ → ℕ → ℕ → Server
unfolding send
send_failure junk s c xid ret =
    let rep = pack_reply_header (marshall junk) (record { xid = xid; ret = ret }) in
    send s c rep.buf rep.ind

-- The latest good connection of a client is kept.
unfoldable pub remember : Server → ℕ → ℕ → Option Server
unfolding incref decref older
remember s n c = elim (s.conns n) [
  | none ↦ some (record (incref s c) { conns = update s.conns n (some c) })
  | some d ↦
      if older (s.created d) (s.created c)
      then (do s' ← decref s d; some (record (incref s' c) { conns = update s.conns n (some c) }))
      else some s
]

-- What is left to do when a request has been looked at: nothing, or to call its handler.
pub data Next : Type 0 where
  quit : Next
  handle : ReqHeader → Unmarshall → Next

pub leave : Server → ℕ → Option (Server × Next)
leave s c = decref s c >>= λ s'. some (s', quit)

-- The `switch`, less the handler
unfoldable pub act :
    (ℕ → ℕ) → Server → ℕ → ReqHeader → Unmarshall → RpcState → Option (Server × Next)
unfolding leave send send_failure
act junk s c h u new = some (s, handle h u)
act junk s c h u in_progress = leave s c
act junk s c h u (done b sz) = leave (send s c (s.bufs b) sz) c
act junk s c h u forgotten = leave (send_failure junk s c h.xid atmostonce_failure) c

-- A request to a procedure that is registered
unfoldable pub admit : (ℕ → ℕ) → Server → ℕ → ReqHeader → Unmarshall → Option (Server × Next)
unfolding remember checkduplicate_and_update act
admit junk s c h u = if h.clt_nonce == 0 then act junk s c h u new else (do
  s' ← remember s h.clt_nonce c
  r ← checkduplicate_and_update (s'.reply_window h.clt_nonce) h.xid h.xid_rep
  act junk (record s' { reply_window = update s'.reply_window h.clt_nonce r.window }) c h u r.stat)

-- `dispatch` up to the handler. A request to an old instance of the server leaves its reference to the
-- connection behind.
unfoldable pub arrive : (ℕ → ℕ) → Server → ℕ → Unmarshall → Option (Server × Next)
unfolding unpack_req_header leave send_failure admit
arrive junk s c req =
    let (h, u) = unpack_req_header req in
    if not u.ok
    then leave s c
    else (if not (h.srv_nonce == 0) && not (h.srv_nonce == s.nonce)
        then some (send_failure junk s c h.xid oldsrv_failure, quit)
        else (verify (s.procs h.proc) >> admit junk s c h u))

-- `updatestat`, if statistics are kept. `curr_counts` runs from `counting` down to 1 over and over.
unfoldable pub count : Server → ℕ → Server
count s proc = if s.counting == 0 then s else record s {
  counts = update s.counts proc (s.counts proc + 1);
  curr_counts = if s.curr_counts == 1 then s.counting else s.curr_counts - 1;
}

-- The reply is kept for a client that wants at most once.
unfoldable pub keep_reply : Server → ReqHeader → ℕ → ℕ → Option Server
unfolding add_reply
keep_reply s h b sz =
    if ltb 0 h.clt_nonce
    then (add_reply (s.reply_window h.clt_nonce) h.xid b sz >>= λ w.
        some (record s { reply_window = update s.reply_window h.clt_nonce w }))
    else some s

abbrev is_conn : Option ℕ → ℕ → Bool
is_conn none c = false
is_conn (some d) c = d == c

-- A dead connection is replaced by the latest one of the client, which has to be there.
unfoldable pub latest : Server → ℕ → ℕ → Option (Server × ℕ)
unfolding incref decref
latest s c n =
    if s.dead c && not (is_conn (s.conns n) c)
    then (do s' ← decref s c; d ← s'.conns n; some (incref s' d, d))
    else some (s, c)

-- `dispatch` after the handler, which returned `ret` and wrote its results to `rep`.
unfoldable pub finish : Server → ℕ → ReqHeader → ℕ → Marshall → Option Server
unfolding keep_reply latest send decref pack_reply_header
finish s c h ret rep =
    let m = pack_reply_header rep (record { xid = h.xid; ret = ret }) in
    (do
      verify (ltb ret (2 ^ 31))
      s1 ←
          keep_reply (record s { bufs = update s.bufs s.fresh m.buf; fresh = s.fresh + 1 }) h
            s.fresh m.ind
      p ← latest s1 c h.clt_nonce
      decref (send p.0 p.1 m.buf m.ind) p.1)

module _ {A : Type 0} (fn : A → ℕ → Unmarshall → Marshall → ℕ × Marshall × A) (junk : ℕ → ℕ) where
  -- The rest of `dispatch` for a request that is looked at; `fn` is the table of handlers.
  run_handler : Server → A → ℕ → Next → Option (Server × A)
  unfolding count finish
  run_handler s a c quit = some (s, a)
  run_handler s a c (handle h u) =
      let (ret, rep, a') = fn a h.proc u (marshall junk) in
      finish (count s h.proc) c h ret rep >>= λ s'. some (s', a')

  -- `rpcs::dispatch` with nothing in between
  unfoldable pub dispatch : Server → A → ℕ → Unmarshall → Option (Server × A)
  unfolding arrive run_handler
  dispatch s a c req = arrive junk s c req >>= λ p. run_handler p.0 a c p.1
