-- ===== src/Lock/Protocol/Phase.antt =====
-- Which states a client can be in, by what the server knows of it.
use cse_2014_undergrad.Prelude.{
  ℕ, Bool, true, false, ◌≡◌, ◌≢◌, ◌⊎◌, ◌<◌, suc, subst, if◌then◌else◌, arith,
}
use cse_2014_undergrad.Lock.Server.{ok, retry_later}
use cse_2014_undergrad.Lock.Client.{
  Caller, Returner, first, second, handler, RlkStatus, Pending, nothing, revoke, retry, unheld,
  owned, locked, acquiring, waiting, releasing,
}
use cse_2014_undergrad.Lock.Protocol.{
  Node, Rpc, no_rpc, asked_acquire, got_acquire, asked_release, got_release, Outcome, next,
  disabled, aborted, Event, enter, wake, leave, deliver_revoke, deliver_retry, deliver_reply, local,
  fresh_node,
}

-- What a client is to the server: a stranger, in the queue, called back, or the holder.
pub data Role : Type 0 where
  stranger queued called holder : Role

-- The request to give the lock back: not made, on its way, or noted by the client.
abbrev pub Asked : Bool → Pending → ℕ → Type 0
Asked b p revokes =
    ((b ≡ false) × (p ≡ nothing) × (revokes ≡ 0))
    ⊎ ((b ≡ true) × (p ≡ nothing) × (revokes ≡ 1))
    ⊎ ((b ≡ true) × (p ≡ revoke) × (revokes ≡ 0))

-- The call back to a queued client: not made, on its way, or noted by the client.
abbrev pub CalledBack : Role → Pending → ℕ → Type 0
CalledBack r p retries =
    ((r ≡ queued) × (p ≡ nothing) × (retries ≡ 0))
    ⊎ ((r ≡ called) × (p ≡ nothing) × (retries ≡ 1))
    ⊎ ((r ≡ called) × (p ≡ retry) × (retries ≡ 0))

abbrev Quiet : Node → Type 0
Quiet n = (n.inside ≡ 0) × (n.retries ≡ 0)

abbrev Silent : Node → Type 0
Silent n = (n.inside ≡ 0) × (n.retries ≡ 0) × (n.revokes ≡ 0) × (n.lock.pending ≡ nothing)

abbrev GoodAt : RlkStatus → Rpc → Role → Bool → Node → Type 0
GoodAt unheld no_rpc r b n = (r ≡ stranger) × Silent n
GoodAt acquiring (asked_acquire first) r b n = (r ≡ stranger) × Silent n
GoodAt acquiring (got_acquire first retry_later) r b n =
    (n.inside ≡ 0) × (n.revokes ≡ 0) × CalledBack r n.lock.pending n.retries
GoodAt acquiring (got_acquire first ok) r b n =
    (r ≡ holder) × Quiet n × Asked b n.lock.pending n.revokes
GoodAt waiting no_rpc r b n =
    (n.lock.pending ≡ nothing)
    × (n.inside ≡ 0)
    × (n.revokes ≡ 0)
    × CalledBack r n.lock.pending n.retries
GoodAt waiting (asked_acquire second) r b n = (r ≡ called) × Silent n
GoodAt waiting (asked_acquire handler) r b n = (r ≡ called) × Silent n
GoodAt waiting (got_acquire second ok) r b n =
    (r ≡ holder) × Quiet n × Asked b n.lock.pending n.revokes
GoodAt waiting (got_acquire handler ok) r b n =
    (r ≡ holder) × Quiet n × Asked b n.lock.pending n.revokes
GoodAt owned no_rpc r b n = (r ≡ holder) × Quiet n × Asked b n.lock.pending n.revokes
GoodAt locked no_rpc r b n =
    (r ≡ holder) × (n.inside ≡ 1) × (n.retries ≡ 0) × Asked b n.lock.pending n.revokes
GoodAt releasing (asked_release k) r b n = (r ≡ holder) × (b ≡ true) × Silent n
GoodAt releasing (got_release k ok) r b n = (r ≡ stranger) × Silent n
GoodAt _ _ r b n = ⊥

-- `b` is the server's `send_rpc`.
pub Good : Role → Bool → Node → Type 0
Good r b n = GoodAt n.lock.state n.rpc r b n

unfoldable pub Keeps : Role → Bool → Outcome Node → Type 0
Keeps r b (next n) = Good r b n
Keeps r b disabled = Unit
Keeps r b aborted = ⊥

pub local-Keeps : (r : Role) (b : Bool) (n : Node) (e : Event) → Good r b n → Keeps r b (local n e)
unfolding local Good Keeps
local-Keeps r b n enter g = ground arith
local-Keeps r b n wake g = ground arith
local-Keeps r b n leave g = ground arith
local-Keeps r b n deliver_revoke g = ground arith
local-Keeps r b n deliver_retry g = ground arith
local-Keeps r b n deliver_reply g = ground arith

pub fresh-Good : (b : Bool) → Good stranger b fresh_node
unfolding Good
fresh-Good b = ground arith

-- The server's flag matters to the holder only.
pub Good-flag : (r : Role) (b b' : Bool) (n : Node) → r ≢ holder → Good r b n → Good r b' n
unfolding Good
Good-flag r b b' n h g = ground arith

-- What the server's answer and callbacks do to a client.
module _ {k : Caller} (b : Bool) (n : Node) (a : Node.rpc n ≡ asked_acquire k) where
  pub grant-Good : Good stranger b n → Good holder false (record n { rpc = got_acquire k ok })
  unfolding Good
  grant-Good g = ground arith

  pub confirm-Good :
      Good called b n
      → Good holder b (
          if b
          then record n { rpc = got_acquire k ok; revokes = suc n.revokes }
          else record n { rpc = got_acquire k ok })
  unfolding Good
  confirm-Good g = ground arith

  pub join-Good :
      (b' : Bool)
      → Good stranger b n
      → Good queued b' (record n { rpc = got_acquire k retry_later })
  unfolding Good
  join-Good b' g = ground arith

-- The roles that an asking client can have.
pub asking-role :
    {k : Caller} (r : Role) (b : Bool) (n : Node)
    → Node.rpc n ≡ asked_acquire k
    → Good r b n
    → (r ≡ stranger) ⊎ (r ≡ called)
unfolding Good
asking-role r b n a g = ground arith

pub giving-role :
    {k : Returner} (r : Role) (b : Bool) (n : Node)
    → Node.rpc n ≡ asked_release k
    → Good r b n
    → (r ≡ holder) × (b ≡ true)
unfolding Good
giving-role r b n a g = ground arith

pub leave-Good :
    {k : Returner} (b b' : Bool) (n : Node)
    → Node.rpc n ≡ asked_release k
    → Good holder b n
    → Good stranger b' (record n { rpc = got_release k ok })
unfolding Good
leave-Good b b' n a g = ground arith

pub revoke-Good :
    (n : Node) → Good holder false n → Good holder true (record n { revokes = suc n.revokes })
unfolding Good
revoke-Good n g = ground arith

pub retry-Good :
    (b b' : Bool) (n : Node)
    → Good queued b n
    → Good called b' (record n { retries = suc n.retries })
unfolding Good
retry-Good b b' n g = ground arith

-- Only the holder has a thread inside, and one at most.
pub inside-holder :
    (r : Role) (b : Bool) (n : Node) → Good r b n → 0 < n.inside → (r ≡ holder) × (n.inside ≡ 1)
unfolding Good
inside-holder r b n g h = ground arith

pub Good-move :
    {r r' : Role} {b b' : Bool} {n n' : Node}
    → r ≡ r'
    → b ≡ b'
    → n ≡ n'
    → Good r b n
    → Good r' b' n'
Good-move {r} {r'} {b} {b'} {n} {n'} p q s g =
    subst (λ x. Good x b' n') p (subst (λ x. Good r x n') q (subst (Good r b) s g))
