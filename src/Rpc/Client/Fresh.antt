-- ===== src/Rpc/Client/Fresh.antt =====
-- The xids that a client has given out: `xid_`, `calls_` and `caller::xid` of rpc/rpc.cc.
use cse_2014_undergrad.Prelude.{
  ℕ, ◌+◌, ◌%◌, ◌^◌, ◌<◌, ◌≤◌, Bool, false, not, inl, inr, ◌&&◌, ◌||◌, some, List, [], ◌∷◌, ◌≡◌,
  refl, sym, subst, arith, ◌==◌, >>=-eq-some, Bool-cases, Option-cases, some-inj, All, All-map,
  length, update,
}
use cse_2014_undergrad.Rpc.Marshall.{Marshall, Unmarshall, unmarshall}
use cse_2014_undergrad.Rpc.Marshall.Headers.{ReplyHeader, unpack_reply_header}
use cse_2014_undergrad.Rpc.Client.{Client, Caller, client, find, erase, bind_proc}
use cse_2014_undergrad.Rpc.Client.Rounds.{begin_round}
use cse_2014_undergrad.Rpc.Client.Ends.{call_start, bound, unregister, call_end}
use cse_2014_undergrad.Rpc.Client.Replies.{answer, got_pdu, cancel}
use cse_2014_undergrad.Rpc.Client.Calls.{All-erase, answer-xid, update-xid, cancel_all-xid}
use cse_2014_undergrad.Rpc.Client.Events.{
  Event, starts, begins, replies, ends, cancels, binds, step, run, Same, same, begin_round-Same,
  call_end_lem,
}

-- No call has an xid that is still to come.
abbrev pub Below : ℕ → Client → Type 0
Below n r = All (λ c. c.0 < n) r.calls × ((t : ℕ) → Caller.xid (r.callers t) < n)

abbrev pub IsFresh : ℕ → Client → Type 0
IsFresh n r = (r.xid ≤ n) × Below r.xid r

Below_mono : {m n : ℕ} (r : Client) → m ≤ n → Below m r → Below n r
Below_mono r h b = (All-map (λ c l. omega arith) r.calls b.0, λ t. omega (arith, b.1 t))

Same-IsFresh : (r r' : Client) (n : ℕ) → Same r r' → IsFresh n r → IsFresh n r'
Same-IsFresh r r' n (same a b c) (l, (u, v)) = (
  omega (arith, a),
  (
    subst (All (λ c. c.0 < r'.xid)) (sym b) (All-map (λ c l. omega (arith, a)) r.calls u),
    λ t. subst (λ f. Caller.xid (f t) < r'.xid) (sym c) (omega (arith, a, v t)),
  ),
)

-- A call that is not refused has the next xid.
pub data Starts (r : Client) (t : ℕ) (rep : Unmarshall) (r' : Client) : Type 0 where
  refuses : Same r r' → Starts r t rep r'
  begins_with :
      r'.xid ≡ (r.xid + 1) % 2 ^ 32
      → r'.calls ≡ (r.xid, t) ∷ erase r.xid r.calls
      → r'.callers ≡ update r.callers t (record { xid = r.xid; un = rep; intret = 0; done = false })
      → Starts r t rep r'

pub call_start-Starts :
    (r : Client) (t proc : ℕ) (req : Marshall) (rep : Unmarshall)
    → Starts r t rep (call_start r t proc req rep).0
unfolding call_start
call_start-Starts r t proc req rep =
    elim (Bool-cases
      (not (proc == bind_proc) && not r.is_bound || proc == bind_proc && r.is_bound)) [
        | inl z ↦ rw z (refuses (same refl refl refl))
        | inr z ↦ elim (Bool-cases r.destroy_wait) [
          | inl w ↦ rw (z, w) (refuses (same refl refl refl))
          | inr w ↦ rw (z, w) (begins_with refl refl refl)
        ]
      ]

Starts-IsFresh :
    (r r' : Client) (t : ℕ) (rep : Unmarshall) {n : ℕ}
    → n + 1 < 2 ^ 32
    → Starts r t rep r'
    → IsFresh n r
    → IsFresh (n + 1) r'
Starts-IsFresh r r' t rep {n} b (refuses s) f =
    let (l, u) = Same-IsFresh r r' n s f in (omega (arith, l), u)
Starts-IsFresh r r' t rep {n} b (begins_with x c d) (l, (u, v)) =
    let e : r'.xid ≡ r.xid + 1 = omega (arith, x) in
    (
      omega (arith, e),
      (
        subst (All (λ c. c.0 < r'.xid)) (sym c) (
          omega (arith, e),
          All-erase _ r.xid r.calls (All-map (λ c l. omega (arith, e)) r.calls u),
        ),
        λ y.
            subst (λ f. Caller.xid (f y) < r'.xid) (sym d)
              (elim (Bool-cases (t == y)) [
                | inl z ↦ rw z (omega (arith, e))
                | inr z ↦ rw z (omega (arith, e, v y))
              ]),
      ),
    )

pub call_start-IsFresh :
    (r : Client) (t proc : ℕ) (req : Marshall) (rep : Unmarshall) {n : ℕ}
    → n + 1 < 2 ^ 32
    → IsFresh n r
    → IsFresh (n + 1) (call_start r t proc req rep).0
call_start-IsFresh r t proc req rep b f =
    Starts-IsFresh r (call_start r t proc req rep).0 t rep b (call_start-Starts r t proc req rep) f

later : (r : Client) {n : ℕ} → IsFresh n r → IsFresh (n + 1) r
later r f = (omega (arith, f.0), f.1)

got_pdu-IsFresh :
    (r : Client) (b : ℕ → ℕ) (sz : ℕ) {n : ℕ} → IsFresh n r → IsFresh n (got_pdu r b sz)
unfolding got_pdu
got_pdu-IsFresh r b sz (l, (u, v)) =
    let p = unpack_reply_header (unmarshall b sz) in
    elim (Bool-cases (Unmarshall.ok p.1)) [
      | inl z ↦ elim (Option-cases (find (ReplyHeader.xid p.0) r.calls)) [
        | inl w ↦ rw (z, w) (l, (u, v))
        | inr (t, w) ↦
            rw (z, w)
              (
                l,
                (
                  u,
                  λ x.
                      rw
                        (update-xid r.callers t x (answer (r.callers t) p.0 p.1)
                          (answer-xid (r.callers t) p.0 p.1) refl)
                        (v x),
                ),
              )
      ]
      | inr z ↦ rw z (l, (u, v))
    ]

cancel-IsFresh : (r : Client) {n : ℕ} → IsFresh n r → IsFresh n (cancel r).0
unfolding cancel
cancel-IsFresh r (l, (u, v)) = (l, (u, λ x. rw (cancel_all-xid r.calls r.callers x) (v x)))

unregister-IsFresh : (r : Client) (t : ℕ) {n : ℕ} → IsFresh n r → IsFresh n (unregister r t)
unfolding unregister
unregister-IsFresh r t (l, (u, v)) = (l, (All-erase _ (Caller.xid (r.callers t)) r.calls u, v))

bound-IsFresh : (r : Client) (ret nonce : ℕ) {n : ℕ} → IsFresh n r → IsFresh n (bound r ret nonce).1
unfolding bound
bound-IsFresh r ret nonce f = elim (Bool-cases (ret == 0)) [ inl z ↦ rw z f | inr z ↦ rw z f ]

pub step-IsFresh :
    (e : Event) (r : Client) {r' : Client} {n : ℕ}
    → n + 1 < 2 ^ 32
    → step r e ≡ some r'
    → IsFresh n r
    → IsFresh (n + 1) r'
unfolding step
step-IsFresh (starts t proc req rep) r {r'} b h f =
    Starts-IsFresh r r' t rep b
      (subst (Starts r t rep) (some-inj h) (call_start-Starts r t proc req rep)) f
step-IsFresh (begins k new now) r {r'} {n} b h f =
    let (p, e, g) = >>=-eq-some (begin_round r k new now) _ h in
    later r' (Same-IsFresh r r' n (subst (Same r) (some-inj g) (begin_round-Same r k new now e)) f)
step-IsFresh (replies m sz) r {r'} b h f =
    later r' (subst (IsFresh _) (some-inj h) (got_pdu-IsFresh r m sz f))
step-IsFresh (ends t k) r {r'} {n} b h f =
    let (p, e, g) = >>=-eq-some (call_end r t k) _ h in
    let s = subst (Same (unregister r t)) (some-inj g) ((call_end_lem r t k e).1) in
    later r' (Same-IsFresh (unregister r t) r' n s (unregister-IsFresh r t f))
step-IsFresh cancels r {r'} b h f = later r' (subst (IsFresh _) (some-inj h) (cancel-IsFresh r f))
step-IsFresh (binds ret nonce) r {r'} b h f =
    later r' (subst (IsFresh _) (some-inj h) (bound-IsFresh r ret nonce f))

run-IsFresh :
    (es : List Event) (r : Client) {r' : Client} {n : ℕ}
    → n + length es < 2 ^ 32
    → run r es ≡ some r'
    → IsFresh n r
    → IsFresh (n + length es) r'
unfolding run
run-IsFresh [] r b h f = let (l, u) = subst (IsFresh _) (some-inj h) f in (omega (arith, l), u)
run-IsFresh (e ∷ es) r b h f =
    let (q, x, g) = >>=-eq-some (step r e) _ h in
    let (l, u) = run-IsFresh es q (omega arith) g (step-IsFresh e r (omega arith) x f) in
    (omega (arith, l), u)

-- However its threads come to the mutex, the xids of a client lie below its next one, which does not wrap
-- within 2^32 - 2 steps.
pub client-IsFresh :
    (nonce : ℕ) (retrans lossy : Bool) (es : List Event) {r : Client}
    → length es + 1 < 2 ^ 32
    → run (client nonce retrans lossy) es ≡ some r
    → IsFresh (length es + 1) r
unfolding client
client-IsFresh nonce retrans lossy es b h =
    let (l, u) =
      run-IsFresh es (client nonce retrans lossy) {n = 1} (omega arith) h
        (omega arith, (tt, λ t. omega arith)) in
    (omega (arith, l), u)
