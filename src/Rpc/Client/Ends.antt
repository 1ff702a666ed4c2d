-- ===== src/Rpc/Client/Ends.antt =====
-- The two ends of `rpcc::call1` of rpc/rpc.cc, and what `bind` and `call_m` make of its result.
use cse_2014_undergrad.Prelude.{
  ℕ, ◌+◌, ◌^◌, ◌%◌, true, false, not, ◌&&◌, ◌||◌, Option, none, some, ◌∷◌, if◌then◌else◌, leb, slt,
  ◌==◌, update, ◌>>=◌, ◌>>◌, verify,
}
use cse_2014_undergrad.Rpc.Marshall.{Marshall, Unmarshall, okdone}
use cse_2014_undergrad.Rpc.Marshall.Headers.{pack_req_header}
use cse_2014_undergrad.Rpc.Xid.{front, update_xid_rep}
use cse_2014_undergrad.Rpc.Client.{
  bind_proc, timeout_failure, bind_failure, cancel_failure, Caller, isvalid, Client, erase,
  drop_ref,
}
use cse_2014_undergrad.Rpc.Client.Rounds.{Call}

-- What `call1` does in its first stretch: it returns, or goes on with the request and its `xid_rep`.
pub data Start : Type 0 where
  refused : ℕ → Start
  started : Marshall → ℕ → Start

-- `call1` up to the first transmission. The caller gets the next xid.
unfoldable pub call_start : Client → ℕ → ℕ → Marshall → Unmarshall → Client × Start
unfolding erase pack_req_header
call_start r t proc req rep =
    if (not (proc == bind_proc) && not r.is_bound) || (proc == bind_proc && r.is_bound)
    then (r, refused bind_failure)
    else if r.destroy_wait
    then (r, refused cancel_failure)
    else (
      record r {
        xid = (r.xid + 1) % 2 ^ 32;
        callers = update r.callers t (record { xid = r.xid; un = rep; intret = 0; done = false });
        calls = (r.xid, t) ∷ erase r.xid r.calls;
      },
      started
          (pack_req_header req (record {
            xid = r.xid;
            proc = proc;
            clt_nonce = r.clt_nonce;
            srv_nonce = r.srv_nonce;
            xid_rep = front r.xid_rep_window;
          }))
          (front r.xid_rep_window),
    )

-- The call leaves `calls_`.
unfoldable pub unregister : Client → ℕ → Client
unfolding erase
unregister r t =
    let xid = Caller.xid (r.callers t) in
    record r { calls = erase xid r.calls; xid_rep_window = update_xid_rep r.xid_rep_window xid }

-- With `RPC_LOSSY`, a request that was answered is kept to be sent once more.
unfoldable pub save_request : Client → ℕ → Call → Client
save_request r t k =
    let ca = r.callers t in
    if ca.done && r.lossytest
    then record r {
      dup_req =
          if isvalid r.dup_req
          then r.dup_req
          else record { buf = k.req.buf; sz = k.req.ind; xid = ca.xid };
      xid_rep_done = if slt r.xid_rep_done k.xid_rep then k.xid_rep else r.xid_rep_done;
    }
    else r

-- What `call1` returns
unfoldable pub result : Caller → ℕ
result ca = if ca.done then ca.intret else timeout_failure

-- `call1` after the loop
unfoldable pub call_end : Client → ℕ → Call → Option (ℕ × Client)
unfolding unregister save_request drop_ref result
call_end r t k = do
  r' ← drop_ref k.ch (save_request (unregister r t) t k)
  some (result (r'.callers t), r')

-- `bind` after its call, which returned `ret` and stored `nonce`
unfoldable pub bound : Client → ℕ → ℕ → ℕ × Client
bound r ret nonce = (ret, if ret == 0 then record r { is_bound = true; srv_nonce = nonce } else r)

-- `call_m` after `call1`; `get` is the operator `>>` of the type of the result, which may also fail a
-- VERIFY.
unfoldable pub call_m :
    {A : Type 0} → (Unmarshall → A × Unmarshall) → ℕ → Unmarshall → Option (ℕ × Option A)
unfolding okdone
call_m get intret u =
    if leb (2 ^ 31) intret
    then some (intret, none)
    else (let (a, u') = get u in verify (okdone u') >> some (intret, some a))
