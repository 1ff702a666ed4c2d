-- ===== src/Rpc/Connection/Frames.antt =====
-- A message goes through a socket whole, however the reads and writes cut it.
use cse_2014_undergrad.Prelude.{
  ℕ, zero, suc, ◌+◌, ◌^◌, ◌<◌, ◌≤◌, Bool, true, false, not, Option, none, some, List, [], ◌∷◌, ◌++◌,
  ◌≡◌, refl, sym, ap, ◌∙◌, arith, if◌then◌else◌, ltb, ◌==◌, length, take, drop, ◌>>=◌, append_assoc,
  append-nil, length-append, length-drop, All, Bool-cases, inl, inr,
}
use cse_2014_undergrad.Rpc.Connection.{
  max_pdu, Charbuf, Connection, connection, wrote, got, Received, htonl, ntohl, put_size,
  is_natural, writepdu, read_rest, readpdu, hand_over, read_cb,
}

-- Calls of `writepdu` that write so many bytes each, with all the bytes that they write
unfoldable pub write_all : Charbuf → List ℕ → Option (Charbuf × List ℕ)
unfolding writepdu
write_all p [] = some (p, [])
write_all p (k ∷ ks) = do
  b ← p.buf
  w ← writepdu p b (wrote k)
  r ← write_all w.1 ks
  some (r.0, w.2 ++ r.1)

abbrev pub total : List ℕ → ℕ
total [] = 0
total (k ∷ ks) = k + total ks

-- The message as it goes over the socket: its size lies over its first four bytes.
abbrev pub framed : List ℕ → List ℕ
framed b = put_size (length b) b

take-nil : (k : ℕ) → take {A = ℕ} k [] ≡ []
take-nil zero = refl
take-nil (suc k) = refl

drop-nil : (k : ℕ) → drop {A = ℕ} k [] ≡ []
drop-nil zero = refl
drop-nil (suc k) = refl

drop_all : (n : ℕ) (xs : List ℕ) → length xs ≤ n → drop n xs ≡ []
drop_all zero [] h = refl
drop_all zero (x ∷ xs) h = absurd (omega arith)
drop_all (suc n) [] h = refl
drop_all (suc n) (x ∷ xs) h = drop_all n xs (omega arith)

take-drop : (n k : ℕ) (xs : List ℕ) → take k (drop n xs) ++ drop (n + k) xs ≡ drop n xs
take-drop zero zero (x ∷ xs) = refl
take-drop zero k [] = rw (take-nil k) (drop-nil (0 + k))
take-drop zero (suc k) (x ∷ xs) = ground (arith, take-drop zero k xs)
take-drop (suc n) k [] = rw (take-nil k) (drop-nil (suc n + k))
take-drop (suc n) k (x ∷ xs) =
    let e : suc n + k ≡ suc (n + k) = omega arith in rw e (take-drop n k xs)

write_all_rest :
    (ks : List ℕ) (m : List ℕ) (sz at : ℕ)
    → put_size sz m ≡ m
    → length m ≡ sz
    → sz < 2 ^ 31
    → at + total ks ≡ sz
    → write_all (record { buf = some m; sz = sz; solong = at }) ks
      ≡ some (record { buf = some m; sz = sz; solong = sz }, drop at m)
unfolding write_all
write_all_rest [] m sz at e l h t =
    let q : at ≡ sz = omega arith in rw (q, drop_all sz m (omega (arith, l))) refl
write_all_rest (k ∷ ks) m sz at e l h t =
    let y : is_natural at ≡ true = ground arith in
    let same : (if at == 0 then put_size sz m else m) ≡ m = if_same (at == 0) e in
    elim (Bool-cases (at == sz)) [
      | inl z ↦ rw (y, z, write_all_rest ks m sz at e l h (ground arith)) refl
      | inr z ↦
          rw (y, z, same, write_all_rest ks m sz (at + k) e l h (omega arith))
            (ap (λ o. some (record { buf = some m; sz = sz; solong = sz }, o)) (take-drop at k m))
    ]
  where
    if_same : (t : Bool) {u v : List ℕ} → u ≡ v → (if t then u else v) ≡ v
    if_same true q = q
    if_same false q = refl

put_size_twice : (sz : ℕ) (b : List ℕ) → put_size sz (put_size sz b) ≡ put_size sz b
put_size_twice sz b = refl

length-put_size : (sz : ℕ) (b : List ℕ) → 4 ≤ length b → length (put_size sz b) ≡ length b
length-put_size sz b h = omega (arith, length-drop 4 b)

-- Writes that together take a message of 4 bytes at least write it with its size in front.
pub write_all_lem :
    (ks b : List ℕ)
    → 4 ≤ length b
    → length b < 2 ^ 31
    → total ks ≡ length b
    → write_all (record { buf = some b; sz = length b; solong = 0 }) ks
      ≡ some (record { buf = some (framed b); sz = length b; solong = length b }, framed b)
unfolding write_all
write_all_lem [] b h l t = absurd (omega arith)
write_all_lem (k ∷ ks) b h l t =
    let z : (0 == length b) ≡ false = ground arith in
    let e : 0 + k ≡ k = omega arith in
    rw
      (
        z,
        write_all_rest ks (framed b) (length b) (0 + k) (put_size_twice (length b) b)
            (length-put_size (length b) b h) l (omega arith),
      )
      (ap (λ o. some (record { buf = some (framed b); sz = length b; solong = length b }, o))
        (take-drop 0 k (framed b)))

-- Calls of `read_cb` that read such pieces each, `first` for the size, and the messages that they hand over
unfoldable pub receive : Connection → Received → List (List ℕ) → Option (Connection × List (List ℕ))
unfolding read_cb
receive c first [] = some (c, [])
receive c first (x ∷ xs) = do
  r ← read_cb c first (got x) false (λ m. true)
  s ← receive r.0 first xs
  some (s.0, elim r.1 [ none ↦ s.1 | some m ↦ m ∷ s.1 ])

abbrev pub join : List (List ℕ) → List ℕ
join [] = []
join (x ∷ xs) = x ++ join xs

abbrev reading : List ℕ → ℕ → ℕ → Connection
reading pre sz n = record connection { rpdu = record { buf = some pre; sz = sz; solong = n } }

-- A piece that is not the last, and one that is
read_part :
    (first : Received) (pre : List ℕ) (sz n x : ℕ) (xs : List ℕ)
    → n + length (x ∷ xs) < sz
    → read_cb (reading pre sz n) first (got (x ∷ xs)) false (λ m. true)
      ≡ some (reading (pre ++ (x ∷ xs)) sz (n + length (x ∷ xs)), none)
unfolding read_cb
read_part first pre sz n x xs h =
    let y : (sz == 0) ≡ false = ground arith in
    let u : ltb n sz ≡ true = ground arith in
    let part : (sz == n + length (x ∷ xs)) ≡ false = ground arith in rw (u, y, part) refl

read_last :
    (first : Received) (pre : List ℕ) (sz n x : ℕ) (xs : List ℕ)
    → n + length (x ∷ xs) ≡ sz
    → read_cb (reading pre sz n) first (got (x ∷ xs)) false (λ m. true)
      ≡ some (connection, some (pre ++ (x ∷ xs)))
unfolding read_cb
read_last first pre sz n x xs h =
    let y : (sz == 0) ≡ false = ground arith in
    let u : ltb n sz ≡ true = ground arith in
    let full : (sz == n + length (x ∷ xs)) ≡ true = ground (arith, h) in rw (u, y, full) refl

abbrev add_message :
    Option (List ℕ) → Connection × List (List ℕ) → Option (Connection × List (List ℕ))
add_message m s = some (s.0, elim m [ none ↦ s.1 | some b ↦ b ∷ s.1 ])

receive_rest :
    (cs : List (List ℕ)) (first : Received) (pre : List ℕ) (sz n : ℕ)
    → All (λ x. 0 < length x) cs
    → n + length (join cs) ≡ sz
    → n < sz
    → receive (reading pre sz n) first cs ≡ some (connection, (pre ++ join cs) ∷ [])
unfolding receive
receive_rest [] first pre sz n a t l = absurd (omega arith)
receive_rest ([] ∷ cs) first pre sz n a t l = absurd (omega (arith, a.0))
receive_rest ((x ∷ xs) ∷ []) first pre sz n a t l =
    let full : n + length (x ∷ xs) ≡ sz = omega (arith, t, length-append (x ∷ xs) []) in
    ap (λ r. r >>= λ r. receive r.0 first [] >>= add_message r.1)
      (read_last first pre sz n x xs full)
    ∙ ap (λ m. some (connection, (pre ++ m) ∷ [])) (sym (append-nil (x ∷ xs)))
receive_rest ((x ∷ xs) ∷ (d ∷ cs)) first pre sz n a t l =
    let len = length-append (x ∷ xs) (join (d ∷ cs)) in
    let len' = length-append d (join cs) in
    let more : n + length (x ∷ xs) < sz = omega (arith, t, len, len', a.1.0) in
    ap (λ r. r >>= λ r. receive r.0 first (d ∷ cs) >>= add_message r.1)
      (read_part first pre sz n x xs more)
    ∙ ap (λ r. r >>= add_message none)
        (receive_rest (d ∷ cs) first (pre ++ (x ∷ xs)) sz (n + length (x ∷ xs)) a.1
          (omega (arith, t, len)) more)
    ∙ ap (λ m. some (connection, m ∷ [])) (append_assoc pre (x ∷ xs) (join (d ∷ cs)))

ntohl-htonl : (n : ℕ) → n < 2 ^ 32 → ntohl (htonl n) ≡ n
ntohl-htonl n h = omega arith

-- The first call reads the size.
read_size :
    (sz : ℕ) (x : List ℕ)
    → 4 < sz
    → sz ≤ max_pdu
    → read_cb connection (got (htonl sz)) (got x) false (λ m. true)
      ≡ read_cb (reading (htonl sz) sz 4) (got (htonl sz)) (got x) false (λ m. true)
unfolding read_cb readpdu
read_size sz x lo hi =
    let e : ntohl (htonl sz) ≡ sz = ntohl-htonl sz (omega arith) in
    let small : ltb max_pdu (ntohl (htonl sz)) ≡ false = ap (λ n. ltb max_pdu n) e ∙ ground arith in
    let natural : is_natural (ntohl (htonl sz)) ≡ true = ap is_natural e ∙ ground arith in
    let after : ℕ → Bool × Charbuf =
      λ n. read_rest (record { buf = some (htonl sz); sz = n; solong = 4 }) (got x) false in
    let y : (sz == 0) ≡ false = ground arith in
    let u : ltb 4 sz ≡ true = ground arith in
    rw (small, natural, y, u)
      (ap
        (λ n. some (
          hand_over (record connection { rpdu = (after n).1; dead = not (after n).0 }) (λ m. true)))
        e)

-- A message of more than 4 bytes and at most 10 megabytes is written in pieces of any lengths, and what
-- went over the socket is read as its size and then in pieces of any lengths: then the reader hands over
-- one message, which is the one sent with its size over its first four bytes, and is ready for the next.
pub message_delivered :
    (b ks : List ℕ) (cs : List (List ℕ))
    → 4 < length b
    → length b ≤ max_pdu
    → total ks ≡ length b
    → All (λ x. 0 < length x) cs
    → htonl (length b) ++ join cs ≡ framed b
    → (write_all (record { buf = some b; sz = length b; solong = 0 }) ks
        ≡ some (record { buf = some (framed b); sz = length b; solong = length b }, framed b))
      × (receive connection (got (htonl (length b))) cs ≡ some (connection, framed b ∷ []))
unfolding receive
message_delivered b ks cs lo hi t a e =
    (write_all_lem ks b (omega arith) (omega arith) t, read_all cs a e)
  where
    read_all :
        (cs : List (List ℕ))
        → All (λ x. 0 < length x) cs
        → htonl (length b) ++ join cs ≡ framed b
        → receive connection (got (htonl (length b))) cs ≡ some (connection, framed b ∷ [])
    read_all [] a e = absurd (omega (arith, ap length e, length-drop 4 b))
    read_all (x ∷ xs) a e =
        let first = got (htonl (length b)) in
        let sum : 4 + length (join (x ∷ xs)) ≡ length b =
          omega (arith, ap length e, length-drop 4 b) in
        ap (λ r. r >>= λ r. receive r.0 first xs >>= add_message r.1) (read_size (length b) x lo hi)
        ∙ receive_rest (x ∷ xs) first (htonl (length b)) (length b) 4 a sum lo
        ∙ ap (λ m. some (connection, m ∷ [])) e
