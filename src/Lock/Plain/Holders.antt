-- ===== src/Lock/Plain/Holders.antt =====
-- A lock of lock_server.cc is had at most once at a time.
use cse_2014_undergrad.Prelude.{
  ℕ, ◌+◌, ◌-◌, true, false, Option, none, some, List, [], ◌∷◌, ◌≡◌, ◌≢◌, refl, sym, ap, ◌∙◌, subst,
  if◌then◌else◌, ◌==◌, ==_iff, update, ◌>>=◌, >>=-eq-some, Bool-cases, inl, inr, some-inj,
}
use cse_2014_undergrad.Lock.Server.{LkStatus, free, locked, expecting}
use cse_2014_undergrad.Lock.Plain.{
  LockServer, lock_server, state_of, round, try_acquire, give_back, release,
}

-- What the threads of the server do, in turn
pub data Step : Type 0 where
  tries gives : ℕ → Step

-- The server after these steps, with how often the lock `lid` was had and not given back
unfoldable pub run : LockServer → ℕ → ℕ → List Step → Option (ℕ × LockServer)
run s lid n [] = some (n, s)
run s lid n (tries k ∷ es) =
    let (had, s') = try_acquire s k in
    run s' lid (if had then (if k == lid then n + 1 else n) else n) es
run s lid n (gives k ∷ es) = release s k >>= λ s'. run s' lid (if k == lid then n - 1 else n) es

-- A lock that nobody has is had at the next try and not given back; one that somebody has is not had, and is
-- given back.
pub data IsCounted (s : LockServer) (lid : ℕ) : ℕ → Type 0 where
  nobody :
      state_of (s.lock_state lid) ≡ free
      → (try_acquire s lid).0 ≡ true
      → release s lid ≡ none
      → IsCounted s lid 0
  somebody :
      s.lock_state lid ≡ some locked
      → (try_acquire s lid).0 ≡ false
      → release s lid ≢ none
      → IsCounted s lid 1

some≢none : {s : LockServer} → some s ≢ none
some≢none e = cc

counted_free :
    (s : LockServer) (lid : ℕ) (o : Option LkStatus)
    → s.lock_state lid ≡ o
    → state_of o ≡ free
    → IsCounted s lid 0
unfolding try_acquire release round give_back
counted_free s lid none e h = nobody (rw e refl) (rw e refl) (rw e refl)
counted_free s lid (some free) e h = nobody (rw e refl) (rw e refl) (rw e refl)
counted_free s lid (some locked) e h = cc
counted_free s lid (some expecting) e h = cc

counted_locked : (s : LockServer) (lid : ℕ) → s.lock_state lid ≡ some locked → IsCounted s lid 1
unfolding try_acquire release round give_back
counted_locked s lid e = somebody e (rw e refl) (λ q. some≢none (rw e at q))

counted_same :
    {s s' : LockServer} {lid n : ℕ}
    → s'.lock_state lid ≡ s.lock_state lid
    → IsCounted s lid n
    → IsCounted s' lid n
counted_same {s'} {lid} e (nobody a b c) = counted_free s' lid _ e a
counted_same {s'} {lid} e (somebody a b c) = counted_locked s' lid (e ∙ a)

locked≢free : locked ≢ free
locked≢free e = cc

-- The entry of a lock, once another one or itself has been changed
update_at :
    (s : LockServer) (k lid : ℕ) (st : LkStatus)
    → (k == lid) ≡ true
    → update s.lock_state k (some st) lid ≡ some st
update_at s k lid st y = rw y refl

update_beside :
    (s : LockServer) (k lid : ℕ) (st : LkStatus)
    → (k == lid) ≡ false
    → update s.lock_state k (some st) lid ≡ s.lock_state lid
update_beside s k lid st y = rw y refl

-- The lock is free, so nobody has it.
taken :
    (s s' : LockServer) (k lid : ℕ) {n : ℕ}
    → (k == lid) ≡ true
    → state_of (s.lock_state k) ≡ free
    → s'.lock_state lid ≡ some locked
    → IsCounted s lid n
    → IsCounted s' lid (n + 1)
taken s s' k lid y f e (nobody a b c) = counted_locked s' lid e
taken s s' k lid y f e (somebody a b c) = absurd (
    locked≢free
      (ap state_of (sym a) ∙ ap (λ i. state_of (s.lock_state i)) (sym ((==_iff k lid).0 y)) ∙ f))

round-IsCounted :
    (st : LkStatus) (s : LockServer) (k lid n : ℕ)
    → state_of (s.lock_state k) ≡ st
    → IsCounted s lid n
    → IsCounted
        (round st s k).1
        lid
        (if (round st s k).0 then (if k == lid then n + 1 else n) else n)
unfolding round
round-IsCounted locked s k lid n e c = c
round-IsCounted expecting s k lid n e c = c
round-IsCounted free s k lid n e c = elim (Bool-cases (k == lid)) [
  | inl y ↦ rw y (taken s _ k lid y e (update_at s k lid locked y) c)
  | inr y ↦ rw y (counted_same (update_beside s k lid locked y) c)
]

-- The lock is LOCKED, so somebody has it.
given :
    (s s' : LockServer) (k lid : ℕ) {n : ℕ}
    → (k == lid) ≡ true
    → s.lock_state k ≡ some locked
    → s'.lock_state lid ≡ some free
    → IsCounted s lid n
    → IsCounted s' lid (n - 1)
given s s' k lid y f e (nobody a b c) = counted_free s' lid (some free) e refl
given s s' k lid y f e (somebody a b c) = counted_free s' lid (some free) e refl

give_back-IsCounted :
    (o : Option LkStatus) (s : LockServer) (k lid n : ℕ) {s' : LockServer}
    → s.lock_state k ≡ o
    → give_back o s k ≡ some s'
    → IsCounted s lid n
    → IsCounted s' lid (if k == lid then n - 1 else n)
unfolding give_back
give_back-IsCounted none s k lid n e h c = cc
give_back-IsCounted (some free) s k lid n e h c = cc
give_back-IsCounted (some expecting) s k lid n e h c = cc
give_back-IsCounted (some locked) s k lid n e h c =
    subst (λ q. IsCounted q lid (if k == lid then n - 1 else n)) (some-inj h)
      (elim (Bool-cases (k == lid)) [
        | inl y ↦ rw y (given s _ k lid y e (update_at s k lid free y) c)
        | inr y ↦ rw y (counted_same (update_beside s k lid free y) c)
      ])

run_counted :
    (es : List Step) (s : LockServer) (lid n : ℕ) {m : ℕ} {s' : LockServer}
    → run s lid n es ≡ some (m, s')
    → IsCounted s lid n
    → IsCounted s' lid m
unfolding run try_acquire release
run_counted [] s lid n h c = subst (λ p. IsCounted p.1 lid p.0) (some-inj h) c
run_counted (tries k ∷ es) s lid n h c =
    run_counted es (try_acquire s k).1 lid _ h
      (round-IsCounted (state_of (s.lock_state k)) s k lid n refl c)
run_counted (gives k ∷ es) s lid n h c =
    let (q, e, g) = >>=-eq-some (release s k) _ h in
    run_counted es q lid _ g (give_back-IsCounted (s.lock_state k) s k lid n refl e c)

-- In whatever order threads try for locks and give them back, from the constructor on, a lock has been had
-- and not given back at most once. If it has not, its state is FREE, the next try for it is granted, and
-- giving it back fails an assertion; if it has, its state is LOCKED, a try for it waits, and it can be given
-- back.
pub run-IsCounted :
    (es : List Step) (lid m : ℕ) (s : LockServer)
    → run lock_server lid 0 es ≡ some (m, s)
    → IsCounted s lid m
run-IsCounted es lid m s h =
    run_counted es lock_server lid 0 h (counted_free lock_server lid none refl refl)
