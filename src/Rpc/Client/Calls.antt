-- ===== src/Rpc/Client/Calls.antt =====
-- What the entries of `calls_` are after a search, an `erase` and the loop of `cancel`.
use cse_2014_undergrad.Prelude.{
  ℕ, ◌≢◌, Bool-cases, inl, inr, some, List, [], ◌∷◌, ◌≡◌, refl, ap, ◌∙◌, subst, false, arith, ◌==◌,
  ==_iff, some-inj, All, update,
}
use cse_2014_undergrad.Rpc.Marshall.{Unmarshall}
use cse_2014_undergrad.Rpc.Marshall.Headers.{ReplyHeader}
use cse_2014_undergrad.Rpc.Client.{Caller, find, erase}
use cse_2014_undergrad.Rpc.Client.Replies.{answer, cancelled, cancel_all}

module _ (P : ℕ × ℕ → Type 0) where
  pub All-find :
      (x : ℕ) (calls : List (ℕ × ℕ)) {t : ℕ} → All P calls → find x calls ≡ some t → P (x, t)
  unfolding find
  All-find x [] h e = cc
  All-find x ((y, u) ∷ calls) h e = elim (Bool-cases (y == x)) [
    | inl z ↦ subst P (λ i. ((==_iff y x).0 z i, some-inj (rw z at e) i)) h.0
    | inr z ↦ All-find x calls h.1 (rw z at e)
  ]

  pub All-erase : (x : ℕ) (calls : List (ℕ × ℕ)) → All P calls → All P (erase x calls)
  unfolding erase
  All-erase x [] h = tt
  All-erase x ((y, u) ∷ calls) h = elim (Bool-cases (y == x)) [
    | inl z ↦ rw z (All-erase x calls h.1)
    | inr z ↦ rw z (h.0, All-erase x calls h.1)
  ]

pub find-erase_ne : (x y : ℕ) (calls : List (ℕ × ℕ)) → x ≢ y → find x (erase y calls) ≡ find x calls
unfolding find erase
find-erase_ne x y [] h = refl
find-erase_ne x y ((z, u) ∷ calls) h = elim (Bool-cases (z == y)) [
  | inl e ↦ (let q : (z == x) ≡ false = ground (arith, e) in rw (e, q) (find-erase_ne x y calls h))
  | inr e ↦ elim (Bool-cases (z == x)) [
    | inl q ↦ rw (e, q) refl
    | inr q ↦ rw (e, q) (find-erase_ne x y calls h)
  ]
]

pub answer-xid :
    (ca : Caller) (h : ReplyHeader) (rep : Unmarshall) → Caller.xid (answer ca h rep) ≡ ca.xid
unfolding answer
answer-xid ca h rep = elim (Bool-cases ca.done) [ inl z ↦ rw z refl | inr z ↦ rw z refl ]

pub update-xid :
    (callers : ℕ → Caller) (t u : ℕ) (ca : Caller) {x : ℕ}
    → ca.xid ≡ x
    → x ≡ Caller.xid (callers t)
    → Caller.xid (update callers t ca u) ≡ Caller.xid (callers u)
update-xid callers t u ca e q = elim (Bool-cases (t == u)) [
  | inl z ↦ rw z (e ∙ q ∙ ap (λ v. Caller.xid (callers v)) ((==_iff t u).0 z))
  | inr z ↦ rw z refl
]

pub cancel_all-xid :
    (calls : List (ℕ × ℕ)) (callers : ℕ → Caller) (u : ℕ)
    → Caller.xid (cancel_all calls callers u) ≡ Caller.xid (callers u)
unfolding cancel_all
cancel_all-xid [] callers u = refl
cancel_all-xid ((x, t) ∷ calls) callers u =
    cancel_all-xid calls (update callers t (cancelled (callers t))) u
    ∙ update-xid callers t u (cancelled (callers t)) refl refl

-- A caller that is cancelled stays so, and every caller that has an entry is cancelled.
cancel_all_kept :
    (calls : List (ℕ × ℕ)) (callers : ℕ → Caller) (t : ℕ) (ca : Caller)
    → callers t ≡ cancelled ca
    → cancel_all calls callers t ≡ cancelled ca
unfolding cancel_all
cancel_all_kept [] callers t ca h = h
cancel_all_kept ((x, u) ∷ calls) callers t ca h =
    cancel_all_kept calls (update callers u (cancelled (callers u))) t ca
      (elim (Bool-cases (u == t)) [
        | inl z ↦ rw z (ap cancelled (ap callers ((==_iff u t).0 z) ∙ h))
        | inr z ↦ rw z h
      ])

pub cancel_all-find :
    (x : ℕ) (calls : List (ℕ × ℕ)) (callers : ℕ → Caller) (t : ℕ) (ca : Caller)
    → find x calls ≡ some t
    → callers t ≡ ca
    → cancel_all calls callers t ≡ cancelled ca
unfolding cancel_all find
cancel_all-find x [] callers t ca e h = cc
cancel_all-find x ((y, u) ∷ calls) callers t ca e h = elim (Bool-cases (u == t)) [
  | inl z ↦
      cancel_all_kept calls (update callers u (cancelled (callers u))) t ca
        (rw z (ap cancelled (ap callers ((==_iff u t).0 z) ∙ h)))
  | inr z ↦ elim (Bool-cases (y == x)) [
    | inl w ↦ absurd (ground (arith, z, some-inj (rw w at e)))
    | inr w ↦
        cancel_all-find x calls (update callers u (cancelled (callers u))) t ca (rw w at e) (rw z h)
  ]
]
