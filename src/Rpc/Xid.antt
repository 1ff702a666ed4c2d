-- ===== src/Rpc/Xid.antt =====
-- Which replies the client has: `xid_rep_window_` and `update_xid_rep` of rpc/rpc.h and rpc/rpc.cc.
--
-- The window is the `std::list<unsigned>`, front first. Its front is the `xid_rep` that every request
-- carries.
pub mod Compress
mod Settled
mod Tests
use cse_2014_undergrad.Prelude.{
  ℕ, ◌+◌, ◌%◌, ◌^◌, Bool, true, false, List, [], ◌∷◌, ◌++◌, if◌then◌else◌, ltb, leb, ◌==◌,
}

-- `front()`; the list is never empty.
pub front : List ℕ → ℕ
front [] = 0
front (x ∷ xs) = x

-- The first loop: `xid` goes before the first larger entry, or to the end.
pub insert : ℕ → List ℕ → List ℕ
insert xid [] = xid ∷ []
insert xid (x ∷ xs) = if ltb xid x then xid ∷ x ∷ xs else x ∷ insert xid xs

-- `while (front() + 1 == *it) pop_front()`, `before` being the entries in front of `it`. With none
-- left the front is `*it` itself, which ends the loop.
pub pop_while : List ℕ → ℕ → List ℕ
pop_while [] it = []
pop_while (x ∷ before) it =
    let rest = pop_while before it in if (x + 1) % 2 ^ 32 == it then rest else x ∷ before

-- The second loop, `it` going from entry to entry.
pub compress_from : List ℕ → List ℕ → List ℕ
unfolding pop_while
compress_from before [] = before
compress_from before (it ∷ after) = compress_from (pop_while before it ++ (it ∷ [])) after

pub compress : List ℕ → List ℕ
unfolding compress_from
compress [] = []
compress (x ∷ xs) = compress_from (x ∷ []) xs

-- `rpcc::update_xid_rep`
pub update_xid_rep : List ℕ → ℕ → List ℕ
unfolding front insert compress
update_xid_rep w xid = if leb xid (front w) then w else compress (insert xid w)

-- The replies of a history of calls, from the constructor's window on.
pub update_all : List ℕ → List ℕ → List ℕ
update_all w [] = w
update_all w (xid ∷ xids) = update_all (update_xid_rep w xid) xids

abbrev pub initial : List ℕ
initial = 0 ∷ []
