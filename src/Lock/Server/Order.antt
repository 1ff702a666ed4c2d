-- ===== src/Lock/Server/Order.antt =====
-- The caching server as a queue of clients: whoever holds a lock or was called back stands first.
use Prim.Native.String.{String}
use text.Mathlib.Text.{◌==◌ as str_eq}
use text.Mathlib.TextEquality.{eq_iff}
use cse_2014_undergrad.Prelude.{
  Bool, false, Option, none, some, List, [], ◌∷◌, ◌++◌, ◌≡◌, ◌≢◌, ◌⊎◌, sym, subst, arith, All,
  Bool-cases, ◌>>=◌, if◌then◌else◌, append_assoc, append-nil, Option-cases, inl, inr,
}
use cse_2014_undergrad.Lock.Server.{
  LkStatus, LockState, Reply, free, expecting, fresh, acquire_lock, release_lock,
}
use cse_2014_undergrad.Lock.Server.Invariant.{
  IsValid, Shape, acquire_lock-IsValid, release_lock-IsValid, fresh-IsValid,
}

abbrev line_at : LkStatus → LockState → List String
line_at free l = []
line_at _ l = l.holding_client.id ∷ l.waiting_clients

abbrev pub line : LockState → List String
line l = line_at l.state l

-- The server has called this client back and waits for it to ask again.
abbrev pub is_called : LkStatus → LockState → String → Bool
is_called expecting l id = str_eq l.holding_client.id id
is_called _ l id = false

acquire_lock-line :
    (l : LockState) (id : String) (r : Reply)
    → Shape l.state l
    → acquire_lock l id ≡ some r
    → line r.lock ≡ (if is_called l.state l id then line l else line l ++ (id ∷ []))
unfolding acquire_lock
acquire_lock-line l id r v e = ground (arith, eq_iff l.holding_client.id "")

release_lock-line :
    (l : LockState) (id : String) (r : Reply)
    → release_lock l id ≡ some r
    → line l ≡ id ∷ line r.lock
unfolding release_lock
release_lock-line l id r e = ground (arith, eq_iff l.holding_client.id id)

pub data Call : Type 0 where
  acquires releases : String → Call

-- The calls for one lock, one after another; `none` if one of them aborts.
unfoldable pub run : LockState → List Call → Option LockState
run l [] = some l
run l (acquires id ∷ cs) = acquire_lock l id >>= λ r. run r.lock cs
run l (releases id ∷ cs) = release_lock l id >>= λ r. run r.lock cs

-- The requests of a history that add a client to the queue: all but those of a client called back.
after_acquire : (LockState → List String) → Bool → String → Option Reply → List String
after_acquire rest again id none = []
after_acquire rest again id (some r) = if again then rest r.lock else id ∷ rest r.lock

after_release : (LockState → List String) → Option Reply → List String
after_release rest none = []
after_release rest (some r) = rest r.lock

unfoldable pub joined : List Call → LockState → List String
unfolding after_acquire after_release
joined [] l = []
joined (acquires id ∷ cs) l =
    after_acquire (joined cs) (is_called l.state l id) id (acquire_lock l id)
joined (releases id ∷ cs) l = after_release (joined cs) (release_lock l id)

-- The clients that gave the lock back, in order.
abbrev pub served : List Call → List String
served [] = []
served (acquires id ∷ cs) = served cs
served (releases id ∷ cs) = id ∷ served cs

abbrev pub Named : List Call → Type 0
Named [] = Unit {0}
Named (acquires id ∷ cs) = (id ≢ "") × Named cs
Named (releases id ∷ cs) = Named cs

record IsNamed (l : LockState) : Type 0 where
  valid : IsValid l
  queue : All (λ c. c ≢ "") l.waiting_clients

All-snoc :
    (xs : List String) (c : String)
    → All (λ c. c ≢ "") xs
    → c ≢ ""
    → All (λ c. c ≢ "") (xs ++ (c ∷ []))
All-snoc [] c h n = (n, tt)
All-snoc (x ∷ xs) c h n = (h.0, All-snoc xs c h.1 n)

acquire-queue :
    (l : LockState) (id : String) (r : Reply)
    → acquire_lock l id ≡ some r
    → (r.lock.waiting_clients ≡ l.waiting_clients)
      ⊎ (r.lock.waiting_clients ≡ l.waiting_clients ++ (id ∷ []))
unfolding acquire_lock
acquire-queue l id r e = ground arith

acquire-IsNamed :
    (l : LockState) (id : String) (r : Reply)
    → id ≢ ""
    → IsNamed l
    → acquire_lock l id ≡ some r
    → IsNamed r.lock
acquire-IsNamed l id r n v e = record {
  valid = acquire_lock-IsValid l id r n v.valid e;
  queue = elim (acquire-queue l id r e) [
    | inl p ↦ subst (All (λ c. c ≢ "")) (sym p) v.queue
    | inr p ↦ subst (All (λ c. c ≢ "")) (sym p) (All-snoc l.waiting_clients id v.queue n)
  ];
}

release-queue :
    (l : LockState) (id : String) (r : Reply)
    → All (λ c. c ≢ "") l.waiting_clients
    → release_lock l id ≡ some r
    → All (λ c. c ≢ "") r.lock.waiting_clients
unfolding release_lock
release-queue l id r h e = ground arith

release-IsNamed :
    (l : LockState) (id : String) (r : Reply)
    → IsNamed l
    → release_lock l id ≡ some r
    → IsNamed r.lock
release-IsNamed l id r v e = record {
  valid = release_lock-IsValid l id r v.queue e;
  queue = release-queue l id r v.queue e;
}

run-line :
    (cs : List Call) (l l' : LockState)
    → IsNamed l
    → Named cs
    → run l cs ≡ some l'
    → line l ++ joined cs l ≡ served cs ++ line l'
unfolding run joined
run-line [] l l' v n e = ground (arith, append-nil (line l))
run-line (acquires id ∷ cs) l l' v n e = elim (Option-cases (acquire_lock l id)) [
  | inl a ↦ cc
  | inr (r, a) ↦ elim (Bool-cases (is_called l.state l id)) [
    | inl b ↦ ground (
      arith,
      acquire_lock-line l id r v.valid.shape a,
      run-line cs r.lock l' (acquire-IsNamed l id r n.0 v a) n.1,
    )
    | inr b ↦ ground (
      arith,
      acquire_lock-line l id r v.valid.shape a,
      run-line cs r.lock l' (acquire-IsNamed l id r n.0 v a) n.1,
      append_assoc (line l) (id ∷ []) (joined cs r.lock),
    )
  ]
]
run-line (releases id ∷ cs) l l' v n e = elim (Option-cases (release_lock l id)) [
  | inl a ↦ cc
  | inr (r, a) ↦
      ground
        (arith, release_lock-line l id r a, run-line cs r.lock l' (release-IsNamed l id r v a) n)
]

-- The lock is first come, first served: in any history of calls from the start that does not abort,
-- the clients that gave the lock back, followed by those in line now, are the clients that asked for
-- it, in the order in which they asked.
pub run_fifo :
    (cs : List Call) (l : LockState)
    → Named cs
    → run fresh cs ≡ some l
    → joined cs fresh ≡ served cs ++ line l
run_fifo cs l n e = run-line cs fresh l (record { valid = fresh-IsValid; queue = tt }) n e
