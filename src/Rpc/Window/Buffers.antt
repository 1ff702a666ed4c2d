-- ===== src/Rpc/Window/Buffers.antt =====
-- The reply buffers that a window keeps: which reply a duplicate gets, and who frees a buffer.
use cse_2014_undergrad.Prelude.{
  ℕ, ◌<◌, true, none, some, List, [], ◌∷◌, ◌++◌, ◌≡◌, refl, arith, if◌then◌else◌, ◌==◌,
  Option-cases, inl, inr,
}
use cse_2014_undergrad.Rpc.Window.{
  ReplyT, reply_t, done, freed_below, erase_below, mark, stat_of, scan, place, check_window,
  add_reply, free_window,
}
use cse_2014_undergrad.Rpc.Window.Order.{
  IsSorted, find, front, check_window_lem, front-erase_below, trimmed-IsSorted, find-Above,
  find-place,
}

-- The buffers among some addresses: `free(NULL)` does nothing.
pub real : List ℕ → List ℕ
real [] = []
real (b ∷ bs) = if b == 0 then real bs else b ∷ real bs

-- The buffers that a window answers for.
pub owned : List ReplyT → List ℕ
owned [] = []
owned (r ∷ rs) = if r.buf == 0 then owned rs else r.buf ∷ owned rs

owned-append : (xid : ℕ) (rs : List ReplyT) → owned (rs ++ (reply_t xid ∷ [])) ≡ owned rs
unfolding owned
owned-append xid [] = refl
owned-append xid (r ∷ rs) = ground (arith, owned-append xid rs)

owned-scan : (xid : ℕ) (rs : List ReplyT) → owned (scan xid rs).1 ≡ owned rs
unfolding owned scan
owned-scan xid [] = refl
owned-scan xid (r ∷ rs) = ground (arith, owned-scan xid rs)

owned-place : (xid : ℕ) (rs : List ReplyT) → owned (place xid rs).1 ≡ owned rs
unfolding place
owned-place xid [] = unfold owned in refl
owned-place xid (r ∷ rs) = ground (arith, owned-scan xid (r ∷ rs), owned-append xid (r ∷ rs))

owned-mark : (xid_rep : ℕ) (rs : List ReplyT) → owned (mark xid_rep rs) ≡ owned rs
unfolding owned mark
owned-mark xid_rep [] = refl
owned-mark xid_rep (r ∷ rs) = ground arith

owned-erase :
    (xid_rep : ℕ) (rs : List ReplyT)
    → real (freed_below xid_rep rs) ++ owned (erase_below xid_rep rs) ≡ owned rs
unfolding owned real freed_below erase_below
owned-erase xid_rep [] = refl
owned-erase xid_rep (r ∷ rs) = ground (arith, owned-erase xid_rep rs)

real-nil : real [] ≡ []
unfolding real
real-nil = refl

-- `checkduplicate_and_update` frees each buffer that leaves the window, and no other: what it frees,
-- followed by what the window still answers for, is what the window answered for before.
pub check_window-owned :
    (w : List ReplyT) (xid xid_rep : ℕ)
    → real (check_window w xid xid_rep).freed ++ owned (check_window w xid xid_rep).window ≡ owned w
unfolding check_window
check_window-owned [] xid xid_rep = unfold owned real in refl
check_window-owned (r ∷ rs) xid xid_rep = ground (
  arith,
  real-nil,
  owned-place xid (r ∷ rs),
  owned-place xid (mark xid_rep (erase_below xid_rep (r ∷ rs))),
  owned-mark xid_rep (erase_below xid_rep (r ∷ rs)),
  owned-erase xid_rep (r ∷ rs),
)

-- `free_reply_window` frees what the window answers for.
pub free_window-owned : (w : List ReplyT) → real (free_window w) ≡ owned w
unfolding real owned free_window
free_window-owned [] = refl
free_window-owned (r ∷ rs) = ground (arith, free_window-owned rs)

add_reply-find :
    (w v : List ReplyT) (xid b sz : ℕ)
    → add_reply w xid b sz ≡ some v
    → find xid v ≡ some (record { xid = xid; cb_present = true; buf = b; sz = sz })
unfolding add_reply find
add_reply-find [] v xid b sz e = cc
add_reply-find (r ∷ rs) v xid b sz e = elim (Option-cases (add_reply rs xid b sz)) [
  | inl n ↦ ground arith
  | inr (u, n) ↦ ground (arith, add_reply-find rs u xid b sz n)
]

-- A duplicate of a request whose reply is in the window, above its front, gets that reply: its buffer
-- and its size, as `add_reply` was given them.
pub check_window-add_reply :
    (w v : List ReplyT) (xid xid_rep b sz : ℕ)
    → IsSorted v
    → add_reply w xid b sz ≡ some v
    → xid_rep < xid
    → front v < xid
    → (check_window v xid xid_rep).stat ≡ done b sz
check_window-add_reply w [] xid xid_rep b sz a e h f =
    unfold find in cc (add_reply-find w [] xid b sz e)
check_window-add_reply w (r ∷ rs) xid xid_rep b sz a e h f =
    unfold front stat_of in
    ground (arith, add_reply-find w (r ∷ rs) xid b sz e, check_window_lem r rs xid xid_rep a h)

add_reply_absent :
    (w : List ReplyT) (xid b sz : ℕ) → find xid w ≡ none → add_reply w xid b sz ≡ none
unfolding add_reply find
add_reply_absent [] xid b sz e = refl
add_reply_absent (r ∷ rs) xid b sz e = ground (arith, add_reply_absent rs xid b sz)

find-front : (x : ℕ) (w : List ReplyT) → IsSorted w → x < front w → find x w ≡ none
unfolding find front
find-front x [] a h = refl
find-front x (r ∷ rs) a h = ground (arith, find-Above x r.xid rs a)

-- A request that is still in progress when a later request of the client says, by its `xid_rep`, that
-- a higher xid is settled, loses its entry: the reply then makes the assertion of `add_reply` fail.
pub late_reply_aborts :
    (r : ReplyT) (rs : List ReplyT) (late xid xid_rep b sz : ℕ)
    → IsSorted (r ∷ rs)
    → r.xid < xid_rep
    → late < xid_rep
    → xid_rep < xid
    → add_reply (check_window (r ∷ rs) xid xid_rep).window late b sz ≡ none
unfolding check_window
late_reply_aborts r rs late xid xid_rep b sz a f l h =
    let kept = mark xid_rep (erase_below xid_rep (r ∷ rs)) in
    add_reply_absent _ late b sz (
      ground (
        arith,
        find-place late xid kept,
        find-front late kept (trimmed-IsSorted xid_rep (r ∷ rs) a),
        front-erase_below xid_rep (r ∷ rs),
      ))
