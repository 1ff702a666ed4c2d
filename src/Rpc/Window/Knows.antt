-- ===== src/Rpc/Window/Knows.antt =====
-- What the window knows of the requests: each step keeps it, and a request that is new is added.
use cse_2014_undergrad.Prelude.{
  ℕ, ◌<◌, Bool, true, false, not, ◌&&◌, ◌||◌, Option, none, some, List, [], ◌∷◌, ◌++◌, ◌≡◌, refl,
  arith, leb, ◌==◌, Option-cases, inl, inr, is_empty, map,
}
use cse_2014_undergrad.Rpc.Window.{
  ReplyT, reply_t, new, erase_below, mark, stat_of, scan, place, check_window, add_reply,
}
use cse_2014_undergrad.Rpc.Window.Order.{
  Above, IsSorted, find, front, front-erase_below, find-erase_below, check_window_lem,
}

abbrev is_some : Option ReplyT → Bool
is_some none = false
is_some (some r) = true

-- The window knows of a request: it would not be answered `new`.
unfoldable pub knows : List ReplyT → ℕ → Bool
knows w x = not (is_empty w) && (leb x (front w) || is_some (find x w))

find-append :
    (x : ℕ) (rs : List ReplyT) (q : ReplyT)
    → is_some (find x (rs ++ (q ∷ []))) ≡ (is_some (find x rs) || q.xid == x)
unfolding find
find-append x [] q = ground arith
find-append x (r ∷ rs) q = ground (arith, find-append x rs q)

scan-find :
    (x xid : ℕ) (rs : List ReplyT)
    → is_some (find x (scan xid rs).1) ≡ (is_some (find x rs) || xid == x)
unfolding find scan
scan-find x xid [] = ground arith
scan-find x xid (r ∷ rs) = ground (arith, scan-find x xid rs)

place-find :
    (x xid : ℕ) (rs : List ReplyT)
    → is_some (find x (place xid rs).1) ≡ (is_some (find x rs) || xid == x)
unfolding place
place-find x xid [] = unfold find in ground arith
place-find x xid (r ∷ rs) =
    ground (arith, scan-find x xid (r ∷ rs), find-append x (r ∷ rs) (reply_t xid))

place-front :
    (xid : ℕ) (rs : List ReplyT)
    → is_empty rs ≡ false
    → front rs < xid
    → (front (place xid rs).1 ≡ front rs) × (is_empty (place xid rs).1 ≡ false)
unfolding place scan front
place-front xid [] n h = cc
place-front xid (r ∷ rs) n h = ground arith

mark-cons : (xid_rep : ℕ) (rs : List ReplyT) → is_empty (mark xid_rep rs) ≡ false
unfolding mark
mark-cons xid_rep [] = refl
mark-cons xid_rep (r ∷ rs) = ground arith

pub knows-nil : (x : ℕ) → knows [] x ≡ false
unfolding knows
knows-nil x = refl

-- What was known stays known.
pub knows-check_window :
    (w : List ReplyT) (xid xid_rep x : ℕ)
    → xid_rep < xid
    → knows w x ≡ true
    → knows (check_window w xid xid_rep).window x ≡ true
unfolding knows check_window
knows-check_window [] xid xid_rep x h k = cc
knows-check_window (r ∷ rs) xid xid_rep x h k =
    unfold front in
    ground (
      arith,
      place-front xid (r ∷ rs) refl,
      place-find x xid (r ∷ rs),
      place-front xid (mark xid_rep (erase_below xid_rep (r ∷ rs)))
          (mark-cons xid_rep (erase_below xid_rep (r ∷ rs))),
      place-find x xid (mark xid_rep (erase_below xid_rep (r ∷ rs))),
      front-erase_below xid_rep (r ∷ rs),
      find-erase_below x xid_rep (r ∷ rs),
    )

-- A request that is answered `new` was not known, and is known from then on.
pub check_window-new :
    (w : List ReplyT) (xid xid_rep : ℕ)
    → IsSorted w
    → xid_rep < xid
    → (check_window w xid xid_rep).stat ≡ new
    → (knows w xid ≡ false) × (knows (check_window w xid xid_rep).window xid ≡ true)
unfolding knows check_window
check_window-new [] xid xid_rep a h k = unfold find in ground arith
check_window-new (r ∷ rs) xid xid_rep a h k =
    unfold front stat_of in
    ground (
      arith,
      check_window_lem r rs xid xid_rep a h,
      place-front xid (r ∷ rs) refl,
      place-find xid xid (r ∷ rs),
      place-front xid (mark xid_rep (erase_below xid_rep (r ∷ rs)))
          (mark-cons xid_rep (erase_below xid_rep (r ∷ rs))),
      place-find xid xid (mark xid_rep (erase_below xid_rep (r ∷ rs))),
      front-erase_below xid_rep (r ∷ rs),
    )

pub add_reply-xids :
    (w : List ReplyT) (xid b sz : ℕ) (w' : List ReplyT)
    → add_reply w xid b sz ≡ some w'
    → map ReplyT.xid w' ≡ map ReplyT.xid w
unfolding add_reply
add_reply-xids [] xid b sz w' e = cc
add_reply-xids (r ∷ rs) xid b sz w' e = elim (Option-cases (add_reply rs xid b sz)) [
  | inl n ↦ ground arith
  | inr (v, n) ↦ ground (arith, add_reply-xids rs xid b sz v n)
]

-- Order and knowledge are matters of the xids alone.
find-xids :
    (x : ℕ) (v w : List ReplyT)
    → map ReplyT.xid v ≡ map ReplyT.xid w
    → is_some (find x v) ≡ is_some (find x w)
unfolding find
find-xids x [] [] e = refl
find-xids x [] (r ∷ rs) e = cc
find-xids x (q ∷ qs) [] e = cc
find-xids x (q ∷ qs) (r ∷ rs) e = ground (arith, find-xids x qs rs)

pub knows-xids :
    (x : ℕ) (v w : List ReplyT) → map ReplyT.xid v ≡ map ReplyT.xid w → knows v x ≡ knows w x
unfolding knows front
knows-xids x [] [] e = refl
knows-xids x [] (r ∷ rs) e = cc
knows-xids x (q ∷ qs) [] e = cc
knows-xids x (q ∷ qs) (r ∷ rs) e = ground (arith, find-xids x (q ∷ qs) (r ∷ rs) e)

Above-xids :
    (n : ℕ) (v w : List ReplyT) → map ReplyT.xid v ≡ map ReplyT.xid w → Above n w → Above n v
Above-xids n [] w e a = tt
Above-xids n (q ∷ qs) [] e a = cc
Above-xids n (q ∷ qs) (r ∷ rs) e a =
    (ground arith, Above-xids q.xid qs rs (ground arith) (ground arith))

pub IsSorted-xids :
    (v w : List ReplyT) → map ReplyT.xid v ≡ map ReplyT.xid w → IsSorted w → IsSorted v
IsSorted-xids [] w e a = tt
IsSorted-xids (q ∷ qs) [] e a = cc
IsSorted-xids (q ∷ qs) (r ∷ rs) e a = Above-xids q.xid qs rs (ground arith) (ground arith)
