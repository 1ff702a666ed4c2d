-- ===== src/Rpc/Client/Runs.antt =====
-- A call of rpc/rpc.cc from its start, over any run of its client.
use cse_2014_undergrad.Prelude.{
  ℕ, ◌+◌, ◌%◌, ◌^◌, ◌<◌, false, not, inl, inr, ◌&&◌, ◌||◌, some, List, [], ◌∷◌, ◌≡◌, ◌≢◌, refl, sym,
  ap, ◌∙◌, subst, arith, ◌==◌, ==-refl, >>=-eq-some, Bool-cases, some-inj, All, All-map, length,
  update, update_self, update_ne,
}
use cse_2014_undergrad.Rpc.Marshall.{Marshall, Unmarshall}
use cse_2014_undergrad.Rpc.Client.{Client, Caller, find, erase, bind_proc}
use cse_2014_undergrad.Rpc.Client.Rounds.{begin_round}
use cse_2014_undergrad.Rpc.Client.Ends.{call_start, bound, unregister, call_end, refused, started}
use cse_2014_undergrad.Rpc.Client.Replies.{cancelled}
use cse_2014_undergrad.Rpc.Client.Calls.{All-erase}
use cse_2014_undergrad.Rpc.Client.Fresh.{IsFresh, Starts, call_start-Starts, step-IsFresh}
use cse_2014_undergrad.Rpc.Client.Events.{
  Event, starts, begins, replies, ends, cancels, binds, step, run, Same, same, begin_round-Same,
  call_end_lem,
}
use cse_2014_undergrad.Rpc.Client.Pending.{
  Awaits, awaits, Same-Awaits, Starts-Awaits, got_pdu-Awaits, cancel-Awaits, unregister-Awaits,
  reply, heard, hear, IsOther,
}

bound-Same : (r : Client) (ret nonce : ℕ) → Same r (bound r ret nonce).1
unfolding bound
bound-Same r ret nonce = elim (Bool-cases (ret == 0)) [
  | inl z ↦ rw z (same refl refl refl)
  | inr z ↦ rw z (same refl refl refl)
]

step-Awaits :
    {x t : ℕ} {ca : Caller} (e : Event) (r : Client) {r' : Client}
    → r.xid + 1 < 2 ^ 32
    → IsOther t e
    → step r e ≡ some r'
    → Awaits x t r ca
    → Awaits x t r' (hear x ca e)
unfolding step
step-Awaits (starts u proc req rep) r {r'} b n h a =
    Starts-Awaits r r' u rep b n
      (subst (Starts r u rep) (some-inj h) (call_start-Starts r u proc req rep)) a
step-Awaits (begins k new now) r {r'} b n h a =
    let (p, e, g) = >>=-eq-some (begin_round r k new now) _ h in
    Same-Awaits r r' (subst (Same r) (some-inj g) (begin_round-Same r k new now e)) a
step-Awaits {x} {t} {ca} (replies m sz) r b n h a =
    subst (λ v. Awaits x t v (heard ca (reply x m sz))) (some-inj h) (got_pdu-Awaits r m sz a)
step-Awaits (ends u k) r {r'} b n h a =
    let (p, e, g) = >>=-eq-some (call_end r u k) _ h in
    let s = subst (Same (unregister r u)) (some-inj g) ((call_end_lem r u k e).1) in
    Same-Awaits (unregister r u) r' s (unregister-Awaits r u n a)
step-Awaits {x} {t} {ca} cancels r b n h a =
    subst (λ v. Awaits x t v (cancelled ca)) (some-inj h) (cancel-Awaits r a)
step-Awaits (binds ret nonce) r {r'} b n h a =
    Same-Awaits r r' (subst (Same r) (some-inj h) (bound-Same r ret nonce)) a

abbrev pub hears : ℕ → Caller → List Event → Caller
hears x ca [] = ca
hears x ca (e ∷ es) = hears x (hear x ca e) es

pub run-Awaits :
    {x t : ℕ} (ca : Caller) (es : List Event) (r : Client) {r' : Client} {n : ℕ}
    → n + length es < 2 ^ 32
    → IsFresh n r
    → All (IsOther t) es
    → run r es ≡ some r'
    → Awaits x t r ca
    → Awaits x t r' (hears x ca es)
unfolding run
run-Awaits {x} {t} ca [] r b f o h a = subst (λ v. Awaits x t v ca) (some-inj h) a
run-Awaits {x} ca (e ∷ es) r b f o h a =
    let (q, y, g) = >>=-eq-some (step r e) _ h in
    run-Awaits (hear x ca e) es q (omega arith) (step-IsFresh e r (omega arith) y f) o.1 g
      (step-Awaits e r (omega (arith, f.0)) o.0 y a)

-- What `call1` leaves when it goes on with a call
call_start-started :
    (t proc : ℕ) (req m : Marshall) (rep : Unmarshall) (xid_rep : ℕ) (r : Client) {r' : Client}
    → call_start r t proc req rep ≡ (r', started m xid_rep)
    → (r'.xid ≡ (r.xid + 1) % 2 ^ 32)
      × (r'.calls ≡ (r.xid, t) ∷ erase r.xid r.calls)
      × (r'.callers
          ≡ update r.callers t (record { xid = r.xid; un = rep; intret = 0; done = false }))
unfolding call_start
call_start-started t proc req m rep xid_rep r {r'} h =
    elim (Bool-cases
      (not (proc == bind_proc) && not r.is_bound || proc == bind_proc && r.is_bound)) [
        | inl z ↦ absurd (refused≢started (ap (λ p. p.1) (rw z at h)))
        | inr z ↦ elim (Bool-cases r.destroy_wait) [
          | inl w ↦ absurd (refused≢started (ap (λ p. p.1) (rw (z, w) at h)))
          | inr w ↦
              (let e = ap (λ p. p.0) (rw (z, w) at h) in
                (ap Client.xid (sym e), ap Client.calls (sym e), ap Client.callers (sym e)))
        ]
      ]
  where
    refused≢started : {x y : ℕ} {m : Marshall} → refused x ≢ started m y
    refused≢started e = cc

-- A call that `call1` goes on with is under way.
pub call_start-Awaits :
    (t proc : ℕ) (req m : Marshall) (rep : Unmarshall) (xid_rep n : ℕ) (r r' : Client)
    → n + 1 < 2 ^ 32
    → IsFresh n r
    → All (λ c. c.1 ≢ t) r.calls
    → call_start r t proc req rep ≡ (r', started m xid_rep)
    → Awaits r.xid t r' (record { xid = r.xid; un = rep; intret = 0; done = false })
unfolding find
call_start-Awaits t proc req m rep xid_rep n r r' b (l, (u, v)) o h =
    let (x, c, d) = call_start-started t proc req m rep xid_rep r h in
    awaits (ap (find r.xid) c ∙ rw (==-refl r.xid) refl)
      (subst (All (λ c. c.1 ≡ t → c.0 ≡ r.xid)) (sym c)
        (λ q. refl, All-erase _ r.xid r.calls (All-map (λ c n q. absurd (n q)) r.calls o)))
      (omega (arith, x))
      (λ y w.
        subst (λ m. Caller.xid (m y) ≢ r.xid) (sym d)
          (subst (λ k. k ≢ r.xid) (ap Caller.xid (sym (update_ne r.callers t y _ (λ q. w (sym q)))))
            (λ q. omega (arith, q, v y))))
      (ap (λ m. m t) d ∙ update_self r.callers t _) refl
