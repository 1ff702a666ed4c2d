-- ===== src/Rpc/Client/Matching.antt =====
-- Which reply a call returns: `call1`, `got_pdu` and `cancel` of rpc/rpc.cc, under the calls of other
-- threads.
use cse_2014_undergrad.Prelude.{
  ℕ, ◌+◌, ◌^◌, ◌<◌, Bool, true, false, Option, none, some, List, [], ◌∷◌, ◌≡◌, ◌≢◌, refl, sym, ap,
  ◌∙◌, subst, arith, if◌then◌else◌, All, length,
}
use cse_2014_undergrad.Rpc.Marshall.{Marshall, Unmarshall}
use cse_2014_undergrad.Rpc.Marshall.Headers.{ReplyHeader}
use cse_2014_undergrad.Rpc.Client.{Client, Caller, client, timeout_failure, cancel_failure}
use cse_2014_undergrad.Rpc.Client.Rounds.{Call}
use cse_2014_undergrad.Rpc.Client.Ends.{call_start, call_end, result, started}
use cse_2014_undergrad.Rpc.Client.Replies.{answer, cancelled, take_in}
use cse_2014_undergrad.Rpc.Client.Fresh.{IsFresh, call_start-IsFresh, client-IsFresh}
use cse_2014_undergrad.Rpc.Client.Pending.{Awaits, awaits, reply, heard, IsOther}
use cse_2014_undergrad.Rpc.Client.Runs.{hears, run-Awaits, call_start-Awaits}
use cse_2014_undergrad.Rpc.Client.Events.{
  Event, starts, begins, replies, ends, cancels, binds, run, call_end_lem,
}

-- The first of two replies
abbrev pub or :
    Option (ReplyHeader × Unmarshall)
    → Option (ReplyHeader × Unmarshall)
    → Option (ReplyHeader × Unmarshall)
or none q = q
or (some p) q = some p

-- The first reply to the call with this xid among what a client sees
abbrev pub first_reply : ℕ → List Event → Option (ReplyHeader × Unmarshall)
first_reply x [] = none
first_reply x (starts t proc req rep ∷ es) = first_reply x es
first_reply x (begins k new now ∷ es) = first_reply x es
first_reply x (replies b sz ∷ es) = let rest = first_reply x es in or (reply x b sz) rest
first_reply x (ends t k ∷ es) = first_reply x es
first_reply x (cancels ∷ es) = first_reply x es
first_reply x (binds ret nonce ∷ es) = first_reply x es

abbrev pub has_cancel : List Event → Bool
has_cancel [] = false
has_cancel (starts t proc req rep ∷ es) = has_cancel es
has_cancel (begins k new now ∷ es) = has_cancel es
has_cancel (replies b sz ∷ es) = has_cancel es
has_cancel (ends t k ∷ es) = has_cancel es
has_cancel (cancels ∷ es) = true
has_cancel (binds ret nonce ∷ es) = has_cancel es

-- What a call returns, and the buffer from which its caller takes the results
abbrev pub outcome : Option (ReplyHeader × Unmarshall) → Bool → ℕ
outcome o true = cancel_failure
outcome none false = timeout_failure
outcome (some p) false = ReplyHeader.ret p.0

abbrev pub read : Option (ReplyHeader × Unmarshall) → Unmarshall → Unmarshall
read none rep = rep
read (some p) rep = take_in p.1

heard_done :
    (ca : Caller) (o : Option (ReplyHeader × Unmarshall)) → ca.done ≡ true → heard ca o ≡ ca
unfolding answer
heard_done ca none h = refl
heard_done ca (some p) h = rw h refl

if_same : (b : Bool) → (if b then cancel_failure else cancel_failure) ≡ cancel_failure
if_same true = refl
if_same false = refl

outcome-some :
    (p : ReplyHeader × Unmarshall) (b : Bool) (i : ℕ)
    → i ≡ ReplyHeader.ret p.0
    → (if b then cancel_failure else i) ≡ outcome (some p) b
outcome-some p true i h = refl
outcome-some p false i h = h

true≢false : true ≢ false
true≢false e = cc

-- A call that is done changes no more, but for a cancel.
hears_done :
    (x : ℕ) (ca : Caller) (es : List Event)
    → ca.done ≡ true
    → (result (hears x ca es) ≡ (if has_cancel es then cancel_failure else ca.intret))
      × (Caller.un (hears x ca es) ≡ ca.un)
unfolding result
hears_done x ca [] h = (rw h refl, refl)
hears_done x ca (starts t proc req rep ∷ es) h = hears_done x ca es h
hears_done x ca (begins k new now ∷ es) h = hears_done x ca es h
hears_done x ca (replies b sz ∷ es) h =
    subst
      (λ c.
        (result (hears x c es) ≡ (if has_cancel es then cancel_failure else ca.intret))
        × (Caller.un (hears x c es) ≡ ca.un))
      (sym (heard_done ca (reply x b sz) h)) (hears_done x ca es h)
hears_done x ca (ends t k ∷ es) h = hears_done x ca es h
hears_done x ca (cancels ∷ es) h =
    let (a, c) = hears_done x (cancelled ca) es refl in (a ∙ if_same (has_cancel es), c)
hears_done x ca (binds ret nonce ∷ es) h = hears_done x ca es h

-- A message, and what follows it
heard_lem :
    (x : ℕ) (ca : Caller) (o : Option (ReplyHeader × Unmarshall)) (es : List Event)
    → ca.done ≡ false
    → (result (hears x ca es) ≡ outcome (first_reply x es) (has_cancel es))
      × (has_cancel es ≡ false → Caller.un (hears x ca es) ≡ read (first_reply x es) ca.un)
    → (result (hears x (heard ca o) es) ≡ outcome (or o (first_reply x es)) (has_cancel es))
      × (has_cancel es ≡ false
          → Caller.un (hears x (heard ca o) es) ≡ read (or o (first_reply x es)) ca.un)
unfolding answer
heard_lem x ca none es h r = r
heard_lem x ca (some p) es h r =
    let (a, b) = hears_done x (answer ca p.0 p.1) es (rw h refl) in
    (a ∙ outcome-some p (has_cancel es) _ (rw h refl), λ c. b ∙ rw h refl)

hears_lem :
    (x : ℕ) (ca : Caller) (es : List Event)
    → ca.done ≡ false
    → (result (hears x ca es) ≡ outcome (first_reply x es) (has_cancel es))
      × (has_cancel es ≡ false → Caller.un (hears x ca es) ≡ read (first_reply x es) ca.un)
unfolding result
hears_lem x ca [] h = (rw h refl, λ c. refl)
hears_lem x ca (starts t proc req rep ∷ es) h = hears_lem x ca es h
hears_lem x ca (begins k new now ∷ es) h = hears_lem x ca es h
hears_lem x ca (replies b sz ∷ es) h = heard_lem x ca (reply x b sz) es h (hears_lem x ca es h)
hears_lem x ca (ends t k ∷ es) h = hears_lem x ca es h
hears_lem x ca (cancels ∷ es) h =
    ((hears_done x (cancelled ca) es refl).0 ∙ if_same (has_cancel es), λ c. absurd (true≢false c))
hears_lem x ca (binds ret nonce ∷ es) h = hears_lem x ca es h

-- A call that goes on, with the next xid, returns the value of the first reply to that xid and its caller
-- reads that reply's contents; it returns `timeout_failure` if there is none, and `cancel_failure` if
-- there is a `cancel`. This is so in whatever order the rounds and the ends of the calls of other
-- threads, replies, old and repeated ones too, and cancels come between, from the constructor on, if
-- fewer than 2^32 - 2 steps are made.
pub call_end-outcome :
    (nonce : ℕ) (retrans lossy : Bool) (before es : List Event) (t proc : ℕ) (req m : Marshall)
    (rep : Unmarshall) (xid_rep : ℕ) (k : Call) (r r1 r2 r3 : Client) (ret : ℕ)
    → length before + length es + 2 < 2 ^ 32
    → run (client nonce retrans lossy) before ≡ some r
    → All (λ c. c.1 ≢ t) r.calls
    → call_start r t proc req rep ≡ (r1, started m xid_rep)
    → All (IsOther t) es
    → run r1 es ≡ some r2
    → call_end r2 t k ≡ some (ret, r3)
    → (ret ≡ outcome (first_reply r.xid es) (has_cancel es))
      × (has_cancel es ≡ false → Caller.un (r2.callers t) ≡ read (first_reply r.xid es) rep)
call_end-outcome nonce retrans lossy before es t proc req m rep xid_rep k r r1 r2 r3 ret b h n c o g
      e =
    let f = client-IsFresh nonce retrans lossy before (omega arith) h in
    let ca : Caller = record { xid = r.xid; un = rep; intret = 0; done = false } in
    let a1 =
      call_start-Awaits t proc req m rep xid_rep (length before + 1) r r1 (omega arith) f n c in
    let f1 : IsFresh (length before + 1 + 1) r1 =
      subst (λ p. IsFresh (length before + 1 + 1) p.0) c
        (call_start-IsFresh r t proc req rep (omega arith) f) in
    let same = callers_same (run-Awaits ca es r1 (omega arith) f1 o g a1) in
    let (x, y) = hears_lem r.xid ca es refl in
    ((call_end_lem r2 t k e).0 ∙ ap result same ∙ x, λ z. ap Caller.un same ∙ y z)
  where
    callers_same : {x t : ℕ} {r : Client} {ca : Caller} → Awaits x t r ca → r.callers t ≡ ca
    callers_same (awaits f g l o h e) = h
