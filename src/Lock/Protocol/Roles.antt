-- ===== src/Lock/Protocol/Roles.antt =====
-- What the server's part of a step does to the role of every client.
use Prim.Native.String.{String}
use text.Mathlib.Text.{◌==◌ as str_eq}
use text.Mathlib.TextEquality.{eq_iff}
use cse_2014_undergrad.Prelude.{
  Bool, true, false, not, ◌&&◌, ◌||◌, none, some, List, [], ◌∷◌, ◌++◌, ◌≡◌, ◌≢◌, refl, arith,
  is_empty, Bool-cases, inl, inr, if◌then◌else◌,
}
use cse_2014_undergrad.Lock.Server.{
  LkStatus, LockState, Reply, free, locked, expecting, ok, retry_later, fresh, acquire_lock,
  release_lock, no_call, revoke, retry,
}
use cse_2014_undergrad.Lock.Server.Invariant.{IsValid, fresh-IsValid}
use cse_2014_undergrad.Lock.Protocol.Phase.{Role, stranger, queued, called, holder}

abbrev pub elem : String → List String → Bool
elem c [] = false
elem c (x ∷ xs) = str_eq x c || elem c xs

abbrev pub nodup : List String → Bool
nodup [] = true
nodup (x ∷ xs) = not (elem x xs) && nodup xs

elem-append :
    (c : String) (xs : List String) (id : String)
    → elem c (xs ++ (id ∷ [])) ≡ (elem c xs || str_eq id c)
elem-append c [] id = ground arith
elem-append c (x ∷ xs) id = ground (arith, elem-append c xs id)

nodup-append :
    (xs : List String) (id : String)
    → nodup xs ≡ true
    → elem id xs ≡ false
    → nodup (xs ++ (id ∷ [])) ≡ true
nodup-append [] id h e = refl
nodup-append (x ∷ xs) id h e =
    ground (arith, nodup-append xs id, elem-append x xs id, eq_iff x id, eq_iff id x)

abbrev pub role_at : LkStatus → LockState → String → Role
role_at free l c = stranger
role_at expecting l c =
    if str_eq l.holding_client.id c
    then called
    else (if elem c l.waiting_clients then queued else stranger)
role_at locked l c =
    if str_eq l.holding_client.id c
    then holder
    else (if elem c l.waiting_clients then queued else stranger)

abbrev pub role : LockState → String → Role
role l c = role_at l.state l c

-- Nobody is in the queue twice, nor at its head again.
pub record IsLine (l : LockState) : Type 0 where
  pub valid : IsValid l
  pub once : nodup l.waiting_clients ≡ true
  pub ahead : elem l.holding_client.id l.waiting_clients ≡ false
  pub named : elem "" l.waiting_clients ≡ false

pub acquire_lock-IsLine :
    (l : LockState) (c : String) (r : Reply)
    → c ≢ ""
    → IsLine l
    → role l c ≢ queued
    → acquire_lock l c ≡ some r
    → IsLine r.lock
unfolding acquire_lock
acquire_lock-IsLine l c r ne v q e = ground (
  arith,
  eq_iff l.holding_client.id "",
  eq_iff l.holding_client.id c,
  eq_iff c l.holding_client.id,
  eq_iff c "",
  nodup-append l.waiting_clients c,
  elem-append l.holding_client.id l.waiting_clients c,
  elem-append "" l.waiting_clients c,
)

pub acquire_lock-role :
    (l : LockState) (c : String) (r : Reply) (d : String)
    → IsLine l
    → acquire_lock l c ≡ some r
    → role r.lock d
      ≡ (if str_eq c d then (elim r.status [ ok ↦ holder | _ ↦ queued ]) else role l d)
unfolding acquire_lock
acquire_lock-role l c r d v e = ground (
  arith,
  eq_iff l.holding_client.id c,
  eq_iff l.holding_client.id d,
  eq_iff c d,
  elem-append d l.waiting_clients c,
)

-- The four ways in which `acquire` succeeds.
pub data Acquires (l : LockState) (c : String) (r : Reply) : Type 0 where
  takes :
      l.state ≡ free
      → r.status ≡ ok
      → r.callback ≡ no_call
      → r.lock.holding_client.send_rpc ≡ false
      → Acquires l c r
  confirms :
      l.state ≡ expecting
      → str_eq l.holding_client.id c ≡ true
      → r.status ≡ ok
      → r.callback ≡ (if l.holding_client.send_rpc then revoke c else no_call)
      → r.lock.holding_client.send_rpc ≡ l.holding_client.send_rpc
      → Acquires l c r
  joins :
      l.state ≡ expecting
      → str_eq l.holding_client.id c ≡ false
      → r.status ≡ retry_later
      → r.callback ≡ no_call
      → r.lock.holding_client.send_rpc ≡ true
      → Acquires l c r
  asks :
      l.state ≡ locked
      → str_eq l.holding_client.id c ≡ false
      → r.status ≡ retry_later
      → r.callback ≡ (if l.holding_client.send_rpc then no_call else revoke l.holding_client.id)
      → r.lock.holding_client.send_rpc ≡ true
      → Acquires l c r

Acquires-at :
    (st : LkStatus) (l : LockState) (c : String) (r : Reply)
    → l.state ≡ st
    → acquire_lock l c ≡ some r
    → Acquires l c r
unfolding acquire_lock
Acquires-at free l c r s e = takes s (ground arith) (ground arith) (ground arith)
Acquires-at expecting l c r s e = elim (Bool-cases (str_eq l.holding_client.id c)) [
  | inl h ↦
      confirms s h (ground arith) (ground (arith, eq_iff l.holding_client.id c)) (ground arith)
  | inr h ↦ joins s h (ground arith) (ground arith) (ground arith)
]
Acquires-at locked l c r s e = asks s (ground arith) (ground arith) (ground arith) (ground arith)

pub acquire_lock-Acquires :
    (l : LockState) (c : String) (r : Reply) → acquire_lock l c ≡ some r → Acquires l c r
acquire_lock-Acquires l c r e = Acquires-at l.state l c r refl e

-- The ways in which `release` succeeds: the lock becomes free, or goes to the front of the queue.
pub data Releases (l : LockState) (c : String) (r : Reply) : Type 0 where
  frees :
      l.state ≡ locked
      → l.holding_client.id ≡ c
      → l.waiting_clients ≡ []
      → r.callback ≡ no_call
      → r.lock ≡ fresh
      → r.status ≡ ok
      → Releases l c r
  passes :
      (w : String) (ws : List String)
      → l.state ≡ locked
      → l.holding_client.id ≡ c
      → l.waiting_clients ≡ w ∷ ws
      → r.callback ≡ retry w
      → r.lock ≡ record {
        state = expecting;
        holding_client = record { id = w; send_rpc = not (is_empty ws) };
        waiting_clients = ws;
      }
      → r.status ≡ ok
      → Releases l c r

Releases-at :
    (ws : List String) (l : LockState) (c : String) (r : Reply)
    → l.waiting_clients ≡ ws
    → release_lock l c ≡ some r
    → Releases l c r
unfolding release_lock
Releases-at [] l c r s e =
    frees (ground arith) (ground (arith, eq_iff l.holding_client.id c)) s (ground arith)
      (ground arith) (ground arith)
Releases-at (w ∷ ws) l c r s e =
    passes w ws (ground arith) (ground (arith, eq_iff l.holding_client.id c)) s (ground arith)
      (ground arith) (ground arith)

pub release_lock-Releases :
    (l : LockState) (c : String) (r : Reply) → release_lock l c ≡ some r → Releases l c r
release_lock-Releases l c r e = Releases-at l.waiting_clients l c r refl e

pub release_lock-IsLine :
    (l : LockState) (c : String) (r : Reply) → IsLine l → release_lock l c ≡ some r → IsLine r.lock
release_lock-IsLine l c r v e = elim (release_lock-Releases l c r e) [
  | frees s h w k t u ↦ ground arith
  | passes w ws s h p k t u ↦ ground (arith, eq_iff w "")
]

pub fresh-IsLine : IsLine fresh
fresh-IsLine = record { valid = fresh-IsValid; once = refl; ahead = refl; named = refl }

-- Of the clients that may ask, none makes an assertion of `acquire` fail.
pub acquire_lock-ne-none :
    (l : LockState) (c : String) → IsLine l → role l c ≢ holder → acquire_lock l c ≢ none
unfolding acquire_lock
acquire_lock-ne-none l c v h = ground (arith, eq_iff l.holding_client.id "")

pub release_lock-ne-none :
    (l : LockState) (c : String) → role l c ≡ holder → release_lock l c ≢ none
unfolding release_lock
release_lock-ne-none l c h = ground arith

pub holder_unique : (l : LockState) (c d : String) → role l c ≡ holder → role l d ≡ holder → c ≡ d
holder_unique l c d p q = ground (arith, eq_iff l.holding_client.id c, eq_iff l.holding_client.id d)
