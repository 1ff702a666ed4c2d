-- ===== src/Rpc/Window/Order.antt =====
-- The entries of a window stand in the order of their xids, so that the answer to a request is a
-- plain lookup.
use cse_2014_undergrad.Prelude.{
  ℕ, ◌<◌, ◌≤◌, Option, none, some, List, [], ◌∷◌, ◌++◌, ◌≡◌, ◌≢◌, refl, arith, if◌then◌else◌, leb,
  ◌==◌,
}
use cse_2014_undergrad.Rpc.Window.{
  ReplyT, reply_t, RpcState, new, forgotten, erase_below, mark, back_xid, stat_of, scan, place,
  check_window,
}

-- Every xid of the window lies above `n`, and they grow.
abbrev pub Above : ℕ → List ReplyT → Type 0
Above n [] = Unit
Above n (r ∷ rs) = (n < r.xid) × Above r.xid rs

abbrev pub IsSorted : List ReplyT → Type 0
IsSorted [] = Unit
IsSorted (r ∷ rs) = Above r.xid rs

-- The entry of a request.
unfoldable pub find : ℕ → List ReplyT → Option ReplyT
find xid [] = none
find xid (r ∷ rs) = if r.xid == xid then some r else find xid rs

Above-weaken : (m n : ℕ) (rs : List ReplyT) → m ≤ n → Above n rs → Above m rs
Above-weaken m n [] h a = tt
Above-weaken m n (r ∷ rs) h a = (omega arith, a.1)

pub find-Above : (xid n : ℕ) (rs : List ReplyT) → Above n rs → xid ≤ n → find xid rs ≡ none
unfolding find
find-Above xid n [] a h = refl
find-Above xid n (r ∷ rs) a h = ground (arith, find-Above xid r.xid rs a.1)

scan-Above : (xid n : ℕ) (rs : List ReplyT) → Above n rs → n < xid → Above n (scan xid rs).1
unfolding scan
scan-Above xid n [] a h = (h, tt)
scan-Above xid n (r ∷ rs) a h = ground (arith, scan-Above xid r.xid rs a.1)

append-Above :
    (xid n : ℕ) (r : ReplyT) (rs : List ReplyT)
    → Above n (r ∷ rs)
    → back_xid r rs < xid
    → Above n ((r ∷ rs) ++ (reply_t xid ∷ []))
unfolding back_xid
append-Above xid n r [] a h = omega arith
append-Above xid n r (q ∷ rs) a h = (a.0, append-Above xid r.xid q rs a.1 h)

place-Above : (xid n : ℕ) (rs : List ReplyT) → Above n rs → n < xid → Above n (place xid rs).1
unfolding place
place-Above xid n [] a h = (h, tt)
place-Above xid n (r ∷ rs) a h =
    ground (arith, scan-Above xid n (r ∷ rs) a h, append-Above xid n r rs a)

-- What the window says of a request that lies above its front.
abbrev pub answer : Option ReplyT → RpcState
answer none = new
answer (some r) = stat_of r

scan-answer : (xid n : ℕ) (rs : List ReplyT) → Above n rs → (scan xid rs).0 ≡ answer (find xid rs)
unfolding scan find
scan-answer xid n [] a = refl
scan-answer xid n (r ∷ rs) a =
    ground (arith, scan-answer xid r.xid rs a.1, find-Above xid r.xid rs a.1)

back-lt : (n : ℕ) (r : ReplyT) (rs : List ReplyT) → Above n (r ∷ rs) → n < back_xid r rs
unfolding back_xid
back-lt n r [] a = a.0
back-lt n r (q ∷ rs) a = omega (arith, back-lt r.xid q rs a.1)

find-back :
    (xid n : ℕ) (r : ReplyT) (rs : List ReplyT)
    → Above n (r ∷ rs)
    → back_xid r rs < xid
    → find xid (r ∷ rs) ≡ none
unfolding back_xid find
find-back xid n r [] a h = ground arith
find-back xid n r (q ∷ rs) a h =
    ground (arith, find-back xid r.xid q rs a.1, back-lt r.xid q rs a.1)

find-scan : (x xid : ℕ) (rs : List ReplyT) → x ≢ xid → find x (scan xid rs).1 ≡ find x rs
unfolding scan find
find-scan x xid [] h = ground arith
find-scan x xid (r ∷ rs) h = ground (arith, find-scan x xid rs h)

find-snoc : (x xid : ℕ) (rs : List ReplyT) → x ≢ xid → find x (rs ++ (reply_t xid ∷ [])) ≡ find x rs
unfolding find
find-snoc x xid [] h = ground arith
find-snoc x xid (r ∷ rs) h = ground (arith, find-snoc x xid rs h)

pub place-answer :
    (xid n : ℕ) (rs : List ReplyT) → Above n rs → (place xid rs).0 ≡ answer (find xid rs)
unfolding place
place-answer xid n [] a = ground (arith, find-Above xid xid [] tt)
place-answer xid n (r ∷ rs) a = ground (arith, scan-answer xid n (r ∷ rs) a, find-back xid n r rs a)

-- Trimming keeps what lies above `xid_rep`, and puts `xid_rep` at the front.
pub find-erase_below :
    (x xid_rep : ℕ) (rs : List ReplyT)
    → xid_rep < x
    → find x (mark xid_rep (erase_below xid_rep rs)) ≡ find x rs
unfolding find mark erase_below
find-erase_below x xid_rep [] h = ground arith
find-erase_below x xid_rep (r ∷ rs) h = ground (arith, find-erase_below x xid_rep rs h)

unfoldable pub front : List ReplyT → ℕ
front [] = 0
front (r ∷ rs) = r.xid

pub front-erase_below :
    (xid_rep : ℕ) (rs : List ReplyT) → front (mark xid_rep (erase_below xid_rep rs)) ≡ xid_rep
unfolding front mark erase_below
front-erase_below xid_rep [] = refl
front-erase_below xid_rep (r ∷ rs) = ground (arith, front-erase_below xid_rep rs)

erase_below-Above :
    (n m xid_rep : ℕ) (rs : List ReplyT)
    → Above n rs
    → m < xid_rep
    → Above m (mark xid_rep (erase_below xid_rep rs))
unfolding mark erase_below
erase_below-Above n m xid_rep [] a h = (h, tt)
erase_below-Above n m xid_rep (r ∷ rs) a h =
    ground (arith, erase_below-Above r.xid m xid_rep rs a.1 h)

pub IsSorted-Above : (n : ℕ) (rs : List ReplyT) → Above n rs → IsSorted rs
IsSorted-Above n [] a = tt
IsSorted-Above n (r ∷ rs) a = a.1

append-tail :
    (xid : ℕ) (r : ReplyT) (rs : List ReplyT)
    → Above r.xid rs
    → back_xid r rs < xid
    → Above r.xid (rs ++ (reply_t xid ∷ []))
unfolding back_xid
append-tail xid r [] a h = (h, tt)
append-tail xid r (q ∷ rs) a h = append-Above xid r.xid q rs a h

pub place-IsSorted :
    (xid : ℕ) (r : ReplyT) (rs : List ReplyT)
    → IsSorted (r ∷ rs)
    → r.xid < xid
    → IsSorted (place xid (r ∷ rs)).1
unfolding place scan
place-IsSorted xid r rs a h = ground (arith, scan-Above xid r.xid rs a, append-tail xid r rs a)

pub place-answer_sorted :
    (xid : ℕ) (r : ReplyT) (rs : List ReplyT)
    → IsSorted (r ∷ rs)
    → r.xid < xid
    → (place xid (r ∷ rs)).0 ≡ answer (find xid (r ∷ rs))
unfolding place scan find back_xid
place-answer_sorted xid r [] a h = ground arith
place-answer_sorted xid r (q ∷ rs) a h =
    ground (arith, scan-answer xid r.xid (q ∷ rs) a, find-back xid r.xid q rs a)

pub find-place : (x xid : ℕ) (rs : List ReplyT) → x ≢ xid → find x (place xid rs).1 ≡ find x rs
unfolding place scan find
find-place x xid [] h = ground arith
find-place x xid (r ∷ rs) h = ground (arith, find-scan x xid rs h, find-snoc x xid rs h)

-- The list to which `xid` is added, once `xid_rep` has been taken into account.
pub trimmed-IsSorted :
    (xid_rep : ℕ) (rs : List ReplyT)
    → IsSorted rs
    → IsSorted (mark xid_rep (erase_below xid_rep rs))
unfolding mark erase_below
trimmed-IsSorted xid_rep [] a = tt
trimmed-IsSorted xid_rep (r ∷ rs) a =
    ground (arith, trimmed-IsSorted xid_rep rs (IsSorted-Above r.xid rs a))

-- A nonempty sorted list whose front lies below `xid`.
pub place_lem :
    (xid : ℕ) (w : List ReplyT)
    → IsSorted w
    → front w < xid
    → ((place xid w).0 ≡ answer (find xid w)) × IsSorted (place xid w).1
unfolding front place find
place_lem xid [] a h = (refl, tt)
place_lem xid (r ∷ rs) a h = (place-answer_sorted xid r rs a h, place-IsSorted xid r rs a h)

-- The answer to a request is decided by the window alone: nothing to say of what lies at or below
-- the front (`forgotten`); of any other request, what its entry says, and `new` if it has none. The
-- new window is again in order.
pub check_window_lem :
    (r : ReplyT) (rs : List ReplyT) (xid xid_rep : ℕ)
    → IsSorted (r ∷ rs)
    → xid_rep < xid
    → let c = check_window (r ∷ rs) xid xid_rep in
      (c.stat ≡ (if leb xid r.xid then forgotten else answer (find xid (r ∷ rs))))
      × IsSorted c.window
unfolding check_window
check_window_lem r rs xid xid_rep a h = ground (
  arith,
  place-answer_sorted xid r rs a,
  place-IsSorted xid r rs a,
  place_lem xid (mark xid_rep (erase_below xid_rep (r ∷ rs))) (trimmed-IsSorted xid_rep (r ∷ rs) a),
  front-erase_below xid_rep (r ∷ rs),
  find-erase_below xid xid_rep (r ∷ rs) h,
)
