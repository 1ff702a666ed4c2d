-- ===== src/Rpc/Xid/Tests.antt =====
-- Runs of the client's window, and witnesses.
use cse_2014_undergrad.Prelude.{ℕ, ◌+◌, false, List, [], ◌∷◌, ◌≡◌, refl, arith}
use cse_2014_undergrad.Rpc.Xid.{front, update_xid_rep, update_all, initial}
use cse_2014_undergrad.Rpc.Xid.Compress.{elem}
use cse_2014_undergrad.Rpc.Xid.Settled.{Covers, front_exact}

-- Replies 2 and 4 come twice, and the gap at 1 is closed last; an entry that came twice stays twice.
abbrev replies : List ℕ
replies = 2 ∷ 2 ∷ 4 ∷ 3 ∷ 4 ∷ 6 ∷ 1 ∷ []

closed : update_all initial replies ≡ 4 ∷ 4 ∷ 6 ∷ []
unfolding update_all update_xid_rep
closed = refl

front_exact_example :
    Covers (front (update_all initial replies)) replies
    × (elem (front (update_all initial replies) + 1) replies ≡ false)
front_exact_example = front_exact replies (omega arith)
