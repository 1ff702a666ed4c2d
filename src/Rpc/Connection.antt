-- ===== src/Rpc/Connection.antt =====
-- Messages on a socket: `connection` of rpc/connection.h and rpc/connection.cc.
--
-- A call of `read` or `write` of the system is its outcome, an argument of the method. `int`s are their
-- 32 bits. Of a buffer that is being read the model has the bytes that were read; a failed VERIFY is
-- `none`. A wait on a condition ends a step.
pub mod Frames
mod Tests
use cse_2014_undergrad.Prelude.{
  ℕ, ◌+◌, ◌-◌, ◌*◌, ◌/◌, ◌%◌, ◌^◌, Bool, true, false, not, ◌&&◌, ◌||◌, Option, none, some, List, [],
  ◌∷◌, ◌++◌, if◌then◌else◌, ltb, leb, ◌==◌, length, take, drop, verify, ◌>>=◌, ◌>>◌,
}

-- `MAX_PDU`
abbrev pub max_pdu : ℕ
max_pdu = 10 * 1024 * 1024

-- `charbuf`; a buffer of `none` is NULL.
pub record Charbuf : Type 0 where
  pub buf : Option (List ℕ)
  pub sz : ℕ
  pub solong : ℕ

abbrev pub charbuf : Charbuf
charbuf = record { buf = none; sz = 0; solong = 0 }

-- `connection`, less the mutexes, the references, the count of waiters and the time; `fd_` is the system's.
pub record Connection : Type 0 where
  pub dead : Bool
  pub wpdu : Charbuf
  pub rpdu : Charbuf

abbrev pub connection : Connection
connection = record { dead = false; wpdu = charbuf; rpdu = charbuf }

-- What `write` returns: so many bytes, or -1 with EAGAIN or another error
pub data Written : Type 0 where
  wrote : ℕ → Written
  full unwritten : Written

-- What `read` returns: some bytes, none at the end of the stream, or -1 with EAGAIN or another error
pub data Received : Type 0 where
  got : List ℕ → Received
  empty unread : Received

-- The bytes of `htonl(sz)`, and `ntohl`
abbrev pub htonl : ℕ → List ℕ
htonl n = n / 16777216 % 256 ∷ n / 65536 % 256 ∷ n / 256 % 256 ∷ n % 256 ∷ []

abbrev pub ntohl : List ℕ → ℕ
ntohl (a ∷ b ∷ c ∷ d ∷ _) = 16777216 * a + 65536 * b + 256 * c + d
ntohl _ = 0

-- `bcopy(&sz, wpdu_.buf, sizeof(sz))`
abbrev pub put_size : ℕ → List ℕ → List ℕ
put_size sz b = htonl sz ++ drop 4 b

-- `x >= 0` of an `int`
abbrev pub is_natural : ℕ → Bool
is_natural x = ltb x (2 ^ 31)

-- `writepdu`: whether it succeeds, and the bytes that went to the socket
unfoldable pub writepdu : Charbuf → List ℕ → Written → Option (Bool × Charbuf × List ℕ)
writepdu p b n =
    verify (is_natural p.solong)
    >> (let b' = (if p.solong == 0 then put_size p.sz b else b) in
        if p.solong == p.sz then some (true, p, []) else elim n [
          | full ↦ some (true, record p { buf = some b' }, [])
          | unwritten ↦ some (false, record { buf = some b'; sz = 0; solong = 2 ^ 32 - 1 }, [])
          | wrote k ↦
              some
                (true, record p { buf = some b'; solong = p.solong + k }, take k (drop p.solong b'))
        ])

-- How a stretch of `send` ends: it waits for its turn or for the rest to be written, or it returns.
pub data Sending : Type 0 where
  await_turn await_rest : Sending
  sent : Bool → Sending

-- The end of `send`, once it waits no more
unfoldable pub send_done : Connection → Bool × Connection
send_done c = (
  not c.dead && c.wpdu.solong == c.wpdu.sz,
  record c { wpdu = record { buf = none; sz = 0; solong = 0 } },
)

-- `send` up to its first wait, or again when its turn may have come
unfoldable pub send : Connection → List ℕ → ℕ → Written → Option (Sending × Connection × List ℕ)
unfolding writepdu send_done
send c b sz n =
    let w = writepdu (record { buf = some b; sz = sz; solong = 0 }) b n in
    let finish : Connection → List ℕ → Option (Sending × Connection × List ℕ) =
      λ c' out. let (r, c2) = send_done c' in some (sent r, c2, out) in
    elim c.wpdu.buf [
      | some busy ↦ if c.dead then some (sent false, c, []) else some (await_turn, c, [])
      | none ↦
          if c.dead
          then some (sent false, c, [])
          else w >>= λ (ok, p, out).
              (if not ok
                then finish (record c { wpdu = p; dead = true }) out
                else if p.solong == p.sz
                then finish (record c { wpdu = p }) out
                else some (await_rest, record c { wpdu = p }, out))
    ]

-- The rest of `send`, when it is woken
unfoldable pub send_rest : Connection → Sending × Connection
unfolding send_done
send_rest c =
    let (r, c') = send_done c in
    if not c.dead && is_natural c.wpdu.solong && ltb c.wpdu.solong c.wpdu.sz
    then (await_rest, c)
    else (sent r, c')

-- `write_cb`, with the bytes that went to the socket
unfoldable pub write_cb : Connection → Written → Option (Connection × List ℕ)
unfolding writepdu
write_cb c n =
    let w = c.wpdu.buf >>= λ b. writepdu c.wpdu b n in
    verify (not c.dead)
    >> (if c.wpdu.sz == 0
        then some (c, [])
        else w >>= λ (ok, p, out). some (record c { wpdu = p; dead = not ok }, out))

-- The second part of `readpdu`, for the rest of the message. `stale` says whether `errno` is EAGAIN
-- where `read` returns 0, which does not set it.
unfoldable pub read_rest : Charbuf → Received → Bool → Bool × Charbuf
read_rest p n stale = elim n [
  | empty ↦ (true, p)
  | unread ↦ (false, charbuf)
  | got [] ↦ if stale then (true, p) else (false, charbuf)
  | got (x ∷ xs) ↦ (
    true,
    record p { buf = p.buf >>= λ b. some (b ++ (x ∷ xs)); solong = p.solong + length (x ∷ xs) },
  )
]

-- `readpdu`: `first` is what the size's `read` returns, where it is made, and `n` the other's. The
-- buffer has the size and four bytes more, as a `size_t`: for a size below -4 it cannot be had.
unfoldable pub readpdu : Charbuf → Received → Received → Bool → Option (Bool × Charbuf)
unfolding read_rest
readpdu p first n stale = if not (p.sz == 0) then some (read_rest p n stale) else elim first [
  | empty ↦ none
  | unread ↦ some (false, p)
  | got bs ↦
      let sz = ntohl bs in
      let new : Charbuf = record { buf = some bs; sz = sz; solong = 4 } in
      if not (length bs == 4)
      then some (false, p)
      else if is_natural sz && ltb max_pdu sz
      then some (false, p)
      else verify (elim p.buf [ none ↦ true | some b ↦ false ])
        >> (verify (is_natural sz || leb (2 ^ 32 - 4) sz) >> some (read_rest new n stale))
]

-- The end of `read_cb`: a whole message goes to the manager of the channel, and is dropped here if that
-- takes it; `got_pdu` says whether it does.
unfoldable pub hand_over : Connection → (List ℕ → Bool) → Connection × Option (List ℕ)
hand_over c got_pdu = elim c.rpdu.buf [
  | none ↦ (c, none)
  | some b ↦
      if c.rpdu.sz == c.rpdu.solong
      then (if got_pdu b then record c { rpdu = charbuf } else c, some b)
      else (c, none)
]

-- `read_cb`, with the message that it hands over
unfoldable pub read_cb :
    Connection
    → Received
    → Received
    → Bool
    → (List ℕ → Bool)
    → Option (Connection × Option (List ℕ))
unfolding readpdu hand_over
read_cb c first n stale got_pdu =
    let r =
      (if elim c.rpdu.buf [ none ↦ true | some b ↦ ltb c.rpdu.solong c.rpdu.sz ]
        then readpdu c.rpdu first n stale
        else some (true, c.rpdu)) in
    if c.dead
    then some (c, none)
    else r >>= λ (succ, p). some (hand_over (record c { rpdu = p; dead = not succ }) got_pdu)
