-- ===== src/Rpc/Client/Events.antt =====
-- The threads of a client and its connections, as the order in which they come to its mutex.
use cse_2014_undergrad.Prelude.{
  ℕ, inl, inr, ◌&&◌, Option, none, some, List, [], ◌∷◌, ◌≡◌, refl, ap, ◌∙◌, subst, ltb, ◌>>=◌,
  >>=-eq-some, Bool-cases, some-inj, verify,
}
use cse_2014_undergrad.Rpc.Time.{Timespec}
use cse_2014_undergrad.Rpc.Marshall.{Marshall, Unmarshall}
use cse_2014_undergrad.Rpc.Client.{
  Client, Caller, drop_ref, decref, incref, is_gone, reconnect, renew, share, get_refconn,
}
use cse_2014_undergrad.Rpc.Client.Rounds.{
  Call, begin_round, send_requests, send_on, transmit, wait_until, next_deadline,
}
use cse_2014_undergrad.Rpc.Client.Ends.{
  call_start, call_end, bound, save_request, unregister, result,
}
use cse_2014_undergrad.Rpc.Client.Replies.{got_pdu, cancel}

-- `starts t proc req rep` and `ends t k` are the two ends of a call of thread `t`, `begins` a round of
-- its loop, `replies b sz` a message from the server, `cancels` and `binds` the calls of those names.
pub data Event : Type 0 where
  starts : ℕ → ℕ → Marshall → Unmarshall → Event
  begins : Call → Option ℕ → Timespec → Event
  replies : (ℕ → ℕ) → ℕ → Event
  ends : ℕ → Call → Event
  cancels : Event
  binds : ℕ → ℕ → Event

unfoldable pub step : Client → Event → Option Client
unfolding call_start begin_round got_pdu call_end cancel bound
step r (starts t proc req rep) = some (call_start r t proc req rep).0
step r (begins k new now) = begin_round r k new now >>= λ p. some p.0
step r (replies b sz) = some (got_pdu r b sz)
step r (ends t k) = call_end r t k >>= λ p. some p.1
step r cancels = some (cancel r).0
step r (binds ret nonce) = some (bound r ret nonce).1

unfoldable pub run : Client → List Event → Option Client
unfolding step
run r [] = some r
run r (e ∷ es) = step r e >>= λ r'. run r' es

-- Two states of a client that agree on its calls
pub data Same (r r' : Client) : Type 0 where
  same : r'.xid ≡ r.xid → r'.calls ≡ r.calls → r'.callers ≡ r.callers → Same r r'

Same-trans : {r r' r'' : Client} → Same r r' → Same r' r'' → Same r r''
Same-trans (same a b c) (same d e f) = same (d ∙ a) (e ∙ b) (f ∙ c)

drop_ref-Same : (ch : Option ℕ) (r : Client) {r' : Client} → drop_ref ch r ≡ some r' → Same r r'
unfolding decref
drop_ref-Same none r h = subst (Same r) (some-inj h) (same refl refl refl)
drop_ref-Same (some c) r h =
    let (u, e, g) = >>=-eq-some (verify (ltb 0 (r.refs c))) _ h in
    subst (Same r) (some-inj g) (same refl refl refl)

reconnect-Same : (r : Client) (new : Option ℕ) → Same r (reconnect r new)
unfolding reconnect
reconnect-Same r none = same refl refl refl
reconnect-Same r (some c) = same refl refl refl

renew-Same : (r : Client) (new : Option ℕ) {r' : Client} → renew r new ≡ some r' → Same r r'
unfolding renew
renew-Same r new h = elim (Bool-cases (is_gone r r.chan)) [
  | inl z ↦
      (let (q, e, g) = >>=-eq-some (drop_ref r.chan r) _ (rw z at h) in
        subst (Same r) (some-inj g) (Same-trans (drop_ref-Same r.chan r e) (reconnect-Same q new)))
  | inr z ↦ subst (Same r) (some-inj (rw z at h)) (same refl refl refl)
]

share-Same :
    (r : Client) (ch chan : Option ℕ) {p : Client × Option ℕ}
    → share r ch chan ≡ some p
    → Same r p.0
unfolding share incref
share-Same r ch none h = subst (λ p. Same r p.0) (some-inj h) (same refl refl refl)
share-Same r ch (some c) h =
    let (q, e, g) = >>=-eq-some (drop_ref ch r) _ h in
    subst (λ p. Same r p.0) (some-inj g) (Same-trans (drop_ref-Same ch r e) (same refl refl refl))

get_refconn-Same :
    (r : Client) (ch new : Option ℕ) {p : Client × Option ℕ}
    → get_refconn r ch new ≡ some p
    → Same r p.0
unfolding get_refconn
get_refconn-Same r ch new h =
    let (q, e, g) = >>=-eq-some (renew r new) _ h in
    Same-trans (renew-Same r new e) (share-Same q ch q.chan g)

send_on-Same : (r : Client) (k : Call) (ch : Option ℕ) → Same r (send_on r k ch).0
unfolding send_on send_requests
send_on-Same r k none = same refl refl refl
send_on-Same r k (some c) = elim (Bool-cases r.reachable) [
  | inl z ↦ rw z (same refl refl refl)
  | inr z ↦ rw z (same refl refl refl)
]

transmit-Same :
    (r : Client) (k : Call) (new : Option ℕ) {p : Client × Call}
    → transmit r k new ≡ some p
    → Same r p.0
unfolding transmit
transmit-Same r k new h = elim (Bool-cases k.transmit) [
  | inl z ↦
      (let (q, e, g) = >>=-eq-some (get_refconn r k.ch new) _ (rw z at h) in
        subst (λ v. Same r v.0) (some-inj g)
          (Same-trans (get_refconn-Same r k.ch new e) (send_on-Same q.0 k q.1)))
  | inr z ↦ subst (λ v. Same r v.0) (some-inj (rw z at h)) (same refl refl refl)
]

wait_until-Same :
    (r : Client) (k : Call) (d : Option (Timespec × Timespec)) → Same r (wait_until r k d).0
unfolding wait_until
wait_until-Same r k none = same refl refl refl
wait_until-Same r k (some d) = same refl refl refl

-- A round of a loop changes nothing that another call has.
pub begin_round-Same :
    (r : Client) (k : Call) (new : Option ℕ) (now : Timespec) {p : Client × Call × Option Timespec}
    → begin_round r k new now ≡ some p
    → Same r p.0
unfolding begin_round
begin_round-Same r k new now h =
    let (q, e, g) = >>=-eq-some (transmit r k new) _ h in
    subst (λ v. Same r v.0) (some-inj g)
      (Same-trans (transmit-Same r k new e)
        (wait_until-Same q.0 q.1 (next_deadline k.curr_to now k.final)))

save_request-Same : (r : Client) (t : ℕ) (k : Call) → Same r (save_request r t k)
unfolding save_request
save_request-Same r t k = elim (Bool-cases (Caller.done (r.callers t) && r.lossytest)) [
  | inl z ↦ rw z (same refl refl refl)
  | inr z ↦ rw z (same refl refl refl)
]

-- The end of a call takes its entry away, and returns its result.
pub call_end_lem :
    (r : Client) (t : ℕ) (k : Call) {p : ℕ × Client}
    → call_end r t k ≡ some p
    → (p.0 ≡ result (r.callers t)) × Same (unregister r t) p.1
unfolding call_end unregister
call_end_lem r t k h =
    let (q, e, g) = >>=-eq-some (drop_ref k.ch (save_request (unregister r t) t k)) _ h in
    let s = Same-trans (save_request-Same (unregister r t) t k) (drop_ref-Same k.ch _ e) in
    subst (λ v. (v.0 ≡ result (r.callers t)) × Same (unregister r t) v.1) (some-inj g)
      (callers s, s)
  where
    callers : {q : Client} → Same (unregister r t) q → result (q.callers t) ≡ result (r.callers t)
    callers (same a b c) = ap (λ m. result (m t)) c
