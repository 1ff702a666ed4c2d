-- ===== src/Rpc/Window.antt =====
-- The reply window of the RPC server, which makes the delivery of requests at most once: `reply_t`,
-- `checkduplicate_and_update`, `add_reply` and `free_reply_window` of rpc/rpc.h and rpc/rpc.cc.
--
-- A window is the `std::list<reply_t>` of one client, oldest first. A reply buffer is its address,
-- NULL is 0, and an operation returns the addresses that it frees, in order (`free(NULL)` included).
pub mod Order
pub mod Knows
pub mod Once
pub mod Buffers
mod Tests
use cse_2014_undergrad.Prelude.{
  ℕ, Bool, true, false, not, Option, none, some, List, [], ◌∷◌, ◌++◌, if◌then◌else◌, ltb, leb, ◌==◌,
  update, ◌>>=◌, ◌>>◌, verify,
}

-- `reply_t`
pub record ReplyT : Type 0 where
  pub xid : ℕ
  pub cb_present : Bool
  pub buf : ℕ
  pub sz : ℕ

-- The constructor `reply_t(_xid)`
abbrev pub reply_t : ℕ → ReplyT
reply_t x = record { xid = x; cb_present = false; buf = 0; sz = 0 }

-- `rpcstate_t`; `done` has what comes back through `*b` and `*sz`.
pub data RpcState : Type 0 where
  new in_progress forgotten : RpcState
  done : ℕ → ℕ → RpcState

pub record Checked : Type 0 where
  pub stat : RpcState
  pub window : List ReplyT
  pub freed : List ℕ

-- The loop that frees the replies below `xid_rep`, and the list that `erase` leaves.
pub freed_below : ℕ → List ReplyT → List ℕ
freed_below xid_rep [] = []
freed_below xid_rep (r ∷ rs) = if ltb r.xid xid_rep then r.buf ∷ freed_below xid_rep rs else []

pub erase_below : ℕ → List ReplyT → List ReplyT
erase_below xid_rep [] = []
erase_below xid_rep (r ∷ rs) = if ltb r.xid xid_rep then erase_below xid_rep rs else r ∷ rs

-- The entry that stands for `xid_rep` at the front.
pub mark : ℕ → List ReplyT → List ReplyT
mark xid_rep [] = reply_t xid_rep ∷ []
mark xid_rep (r ∷ rs) = if not (r.xid == xid_rep) then reply_t xid_rep ∷ r ∷ rs else r ∷ rs

-- `reply_list.back().xid`
pub back_xid : ReplyT → List ReplyT → ℕ
back_xid r [] = r.xid
back_xid r (q ∷ rs) = back_xid q rs

-- What an entry with the request's xid says.
unfoldable pub stat_of : ReplyT → RpcState
stat_of r = if r.cb_present then done r.buf r.sz else in_progress

-- The loop that looks for `xid`, with the insertion before the entry where it stops.
pub scan : ℕ → List ReplyT → RpcState × List ReplyT
unfolding stat_of
scan xid [] = (new, reply_t xid ∷ [])
scan xid (r ∷ rs) =
    let (st, rest) = scan xid rs in
    if r.xid == xid
    then (stat_of r, r ∷ rs)
    else (if ltb xid r.xid then (new, reply_t xid ∷ r ∷ rs) else (st, r ∷ rest))

-- From the test against `back()` on.
pub place : ℕ → List ReplyT → RpcState × List ReplyT
unfolding scan back_xid
place xid [] = (new, reply_t xid ∷ [])
place xid (r ∷ rs) =
    if ltb (back_xid r rs) xid then (new, (r ∷ rs) ++ (reply_t xid ∷ [])) else scan xid (r ∷ rs)

-- A window that has entries, once `xid` is above its front.
pub advance : ℕ → ℕ → ReplyT → List ReplyT → Checked
unfolding freed_below erase_below mark place
advance xid xid_rep r rs =
    if ltb r.xid xid_rep
    then (let (st, w) = place xid (mark xid_rep (erase_below xid_rep (r ∷ rs))) in
        record { stat = st; window = w; freed = freed_below xid_rep (r ∷ rs) })
    else (let (st, w) = place xid (r ∷ rs) in record { stat = st; window = w; freed = [] })

-- `checkduplicate_and_update` on the window of the client
unfoldable pub check_window : List ReplyT → ℕ → ℕ → Checked
unfolding advance
check_window [] xid xid_rep = record {
  stat = new;
  window = reply_t xid_rep ∷ reply_t xid ∷ [];
  freed = [];
}
check_window (r ∷ rs) xid xid_rep =
    if leb xid r.xid
    then record { stat = forgotten; window = r ∷ rs; freed = [] }
    else advance xid xid_rep r rs

unfoldable pub checkduplicate_and_update : List ReplyT → ℕ → ℕ → Option Checked
unfolding check_window
checkduplicate_and_update w xid xid_rep = do
  verify (ltb xid_rep xid)
  some (check_window w xid xid_rep)

-- `add_reply` on the window of the client
unfoldable pub add_reply : List ReplyT → ℕ → ℕ → ℕ → Option (List ReplyT)
add_reply [] xid b sz = none
add_reply (r ∷ rs) xid b sz =
    let rest = add_reply rs xid b sz in
    if r.xid == xid
    then (verify (not r.cb_present) >> some (record r { buf = b; sz = sz; cb_present = true } ∷ rs))
    else (rest >>= λ rs'. some (r ∷ rs'))

-- `free_reply_window` on the window of one client: what it frees. It leaves the empty window.
pub free_window : List ReplyT → List ℕ
free_window [] = []
free_window (r ∷ rs) = r.buf ∷ free_window rs
