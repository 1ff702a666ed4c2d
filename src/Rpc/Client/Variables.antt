-- ===== src/Rpc/Client/Variables.antt =====
-- What a round of the loop of `call1` in rpc/rpc.cc does to its deadlines.
use cse_2014_undergrad.Prelude.{
  ℕ, ◌*◌, ◌^◌, ◌%◌, Option, none, some, ◌≡◌, refl, sym, ap, ◌∙◌, inl, inr, subst, Bool-cases,
  some-inj, >>=-eq-some,
}
use cse_2014_undergrad.Rpc.Time.{Timespec}
use cse_2014_undergrad.Rpc.Client.{Client, Caller, get_refconn}
use cse_2014_undergrad.Rpc.Client.Rounds.{
  Call, send_on, wait_until, transmit, next_deadline, begin_round, after_wait,
}

send_on-variables :
    (r : Client) (k : Call) (ch : Option ℕ)
    → (Call.curr_to ((send_on r k ch).1) ≡ k.curr_to) × (Call.final ((send_on r k ch).1) ≡ k.final)
unfolding send_on
send_on-variables r k none = (refl, refl)
send_on-variables r k (some c) = (refl, refl)

transmit-variables :
    (r : Client) (k : Call) (new : Option ℕ) {p : Client × Call}
    → transmit r k new ≡ some p
    → (Call.curr_to p.1 ≡ k.curr_to) × (Call.final p.1 ≡ k.final)
unfolding transmit
transmit-variables r k new {p} h = elim (Bool-cases k.transmit) [
  | inl z ↦
      (let (q, e, g) = >>=-eq-some (get_refconn r k.ch new) _ (rw z at h) in
        subst (λ v. (Call.curr_to v.1 ≡ k.curr_to) × (Call.final v.1 ≡ k.final)) (some-inj g)
          (send_on-variables q.0 k q.1))
  | inr z ↦ rw (← some-inj (rw z at h)) (refl, refl)
]

wait_until_lem :
    (r : Client) (k : Call) (d : Option (Timespec × Timespec)) {r' : Client} {k' : Call}
    {next : Timespec}
    → wait_until r k d ≡ (r', k', some next)
    → (d ≡ some (next, k'.final)) × (k'.curr_to ≡ k.curr_to)
unfolding wait_until
wait_until_lem r k none h = cc
wait_until_lem r k (some d) h = (cc, cc)

pub begin_round_lem :
    (r : Client) (k : Call) (new : Option ℕ) (now : Timespec) {r' : Client} {k' : Call}
    {next : Timespec}
    → begin_round r k new now ≡ some (r', k', some next)
    → (next_deadline k.curr_to now k.final ≡ some (next, k'.final)) × (k'.curr_to ≡ k.curr_to)
unfolding begin_round
begin_round_lem r k new now h =
    let (p, e, g) = >>=-eq-some (transmit r k new) _ h in
    let (d, c) = wait_until_lem p.0 p.1 (next_deadline k.curr_to now k.final) (some-inj g) in
    (d, c ∙ (transmit-variables r k new e).0)

pub after_wait-variables :
    (r : Client) (t : ℕ) (k : Call) {k' : Call}
    → after_wait r t k ≡ some k'
    → (k'.curr_to ≡ k.curr_to * 2 % 2 ^ 32) × (k'.final ≡ k.final)
unfolding after_wait
after_wait-variables r t k h = elim (Bool-cases (Caller.done (r.callers t))) [
  | inl z ↦ none≢some (rw z at h)
  | inr z ↦ (let e = some-inj (rw z at h) in (ap Call.curr_to (sym e), ap Call.final (sym e)))
]
  where
    none≢some : {B : Type 0} {k : Call} → none ≡ some k → B
    none≢some e = cc
