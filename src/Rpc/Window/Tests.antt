-- ===== src/Rpc/Window/Tests.antt =====
-- Runs of the reply window, and witnesses.
use cse_2014_undergrad.Prelude.{
  true, some, none, List, [], ◌∷◌, ◌++◌, ◌≡◌, refl, arith, if◌then◌else◌, leb,
}
use cse_2014_undergrad.Rpc.Window.{
  ReplyT, reply_t, forgotten, done, check_window, add_reply, checkduplicate_and_update,
}
use cse_2014_undergrad.Rpc.Window.Order.{find, answer, IsSorted, check_window_lem, front}
use cse_2014_undergrad.Rpc.Window.Once.{request, reply, run, Distinct, at_most_once}
use cse_2014_undergrad.Rpc.Window.Buffers.{
  real, owned, check_window-owned, check_window-add_reply, late_reply_aborts,
}

-- Requests 3 and 5 are in progress, 4 has the reply at address 64 with 10 bytes.
abbrev busy : List ReplyT
busy =
    reply_t 2
    ∷ reply_t 3
    ∷ record { xid = 4; cb_present = true; buf = 64; sz = 10 }
    ∷ reply_t 5
    ∷ []

busy-IsSorted : IsSorted busy
busy-IsSorted = omega arith

abbrev unanswered : List ReplyT
unanswered = reply_t 2 ∷ reply_t 3 ∷ reply_t 4 ∷ reply_t 5 ∷ []

answered : add_reply unanswered 4 64 10 ≡ some busy
unfolding add_reply
answered = refl

duplicate : (check_window busy 4 3).stat ≡ done 64 10
unfolding check_window
duplicate = refl

trimmed : (check_window busy 6 5).freed ≡ 0 ∷ 0 ∷ 64 ∷ []
unfolding check_window
trimmed = refl

check_window_lem_example :
    let c = check_window (reply_t 2 ∷ reply_t 3 ∷ []) 4 2 in
    (c.stat ≡ (if leb 4 2 then forgotten else answer (find 4 (reply_t 2 ∷ reply_t 3 ∷ []))))
    × IsSorted c.window
check_window_lem_example =
    check_window_lem (reply_t 2) (reply_t 3 ∷ []) 4 2 (omega arith) (omega arith)

at_most_once_example : Distinct (1 ∷ 2 ∷ 3 ∷ [])
unfolding run checkduplicate_and_update add_reply
at_most_once_example =
    at_most_once
      (request 1 0
        ∷ request 2 0
        ∷ request 1 0
        ∷ reply 1 64 10
        ∷ request 1 0
        ∷ request 3 1
        ∷ request 1 0
        ∷ [])
      (1 ∷ 2 ∷ 3 ∷ []) refl

check_window-owned_example :
    real (check_window busy 6 5).freed ++ owned (check_window busy 6 5).window ≡ owned busy
check_window-owned_example = check_window-owned busy 6 5

check_window-add_reply_example : (check_window busy 4 3).stat ≡ done 64 10
unfolding front
check_window-add_reply_example =
    check_window-add_reply unanswered busy 4 3 64 10 busy-IsSorted answered (omega arith)
      (omega arith)

late_reply_aborts_example : add_reply (check_window busy 6 5).window 3 80 12 ≡ none
late_reply_aborts_example =
    late_reply_aborts (reply_t 2)
      (reply_t 3 ∷ record { xid = 4; cb_present = true; buf = 64; sz = 10 } ∷ reply_t 5 ∷ []) 3 6 5
      80 12 busy-IsSorted (omega arith) (omega arith) (omega arith)
