-- ===== src/Rpc/Connection/Tests.antt =====
-- Runs of the connection, and witnesses.
use cse_2014_undergrad.Prelude.{ℕ, true, some, List, [], ◌∷◌, ◌≡◌, refl, arith}
use cse_2014_undergrad.Rpc.Connection.{
  Connection, connection, got, wrote, htonl, send, send_rest, write_cb, await_rest, sent,
}
use cse_2014_undergrad.Rpc.Connection.Frames.{write_all, framed, receive, message_delivered}

-- 9 bytes, the first four of them for the size
abbrev message : List ℕ
message = 0 ∷ 0 ∷ 0 ∷ 0 ∷ 1 ∷ 2 ∷ 3 ∷ 4 ∷ 5 ∷ []

message_delivered_example :
    (write_all (record { buf = some message; sz = 9; solong = 0 }) (3 ∷ 0 ∷ 6 ∷ [])
      ≡ some (record { buf = some (framed message); sz = 9; solong = 9 }, framed message))
    × (receive connection (got (htonl 9)) ((1 ∷ 2 ∷ []) ∷ (3 ∷ 4 ∷ 5 ∷ []) ∷ [])
        ≡ some (connection, framed message ∷ []))
message_delivered_example =
    message_delivered message (3 ∷ 0 ∷ 6 ∷ []) ((1 ∷ 2 ∷ []) ∷ (3 ∷ 4 ∷ 5 ∷ []) ∷ []) (omega arith)
      (omega arith) refl (omega arith, (omega arith, tt)) refl

-- `send` writes a part, and waits until `write_cb` has written the rest.
abbrev half_sent : Connection
half_sent = record connection { wpdu = record { buf = some (framed message); sz = 9; solong = 4 } }

sends_part : send connection message 9 (wrote 4) ≡ some (await_rest, half_sent, 0 ∷ 0 ∷ 0 ∷ 9 ∷ [])
unfolding send
sends_part = refl

abbrev all_sent : Connection
all_sent = record connection { wpdu = record { buf = some (framed message); sz = 9; solong = 9 } }

sends_rest : write_cb half_sent (wrote 5) ≡ some (all_sent, 1 ∷ 2 ∷ 3 ∷ 4 ∷ 5 ∷ [])
unfolding write_cb
sends_rest = refl

send_returns : send_rest all_sent ≡ (sent true, connection)
unfolding send_rest
send_returns = refl
