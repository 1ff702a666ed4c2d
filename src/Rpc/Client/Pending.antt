-- ===== src/Rpc/Client/Pending.antt =====
-- A call of rpc/rpc.cc that is under way, while other threads start and end theirs.
use cse_2014_undergrad.Prelude.{
  ℕ, ◌+◌, ◌^◌, ◌<◌, false, inl, inr, ◌&&◌, Option, none, some, ◌≡◌, ◌≢◌, refl, sym, ap, ◌∙◌, subst,
  arith, if◌then◌else◌, ◌==◌, ==_iff, Bool-cases, Option-cases, All, update_self, update_ne,
}
use cse_2014_undergrad.Rpc.Marshall.{Unmarshall, unmarshall}
use cse_2014_undergrad.Rpc.Marshall.Headers.{ReplyHeader, unpack_reply_header}
use cse_2014_undergrad.Rpc.Client.{Client, Caller, find}
use cse_2014_undergrad.Rpc.Client.Ends.{unregister}
use cse_2014_undergrad.Rpc.Client.Replies.{answer, cancelled, got_pdu, cancel}
use cse_2014_undergrad.Rpc.Client.Calls.{
  All-find, All-erase, find-erase_ne, update-xid, answer-xid, cancel_all-xid, cancel_all-find,
}
use cse_2014_undergrad.Rpc.Client.Fresh.{Starts, begins_with, refuses}
use cse_2014_undergrad.Rpc.Client.Events.{
  Event, starts, begins, replies, ends, cancels, binds, Same, same,
}

-- The call `x` of thread `t` is under way, with the caller `ca`.
pub data Awaits (x t : ℕ) (r : Client) (ca : Caller) : Type 0 where
  awaits :
      find x r.calls ≡ some t
      → All (λ c. c.1 ≡ t → c.0 ≡ x) r.calls
      → x < r.xid
      → ((u : ℕ) → u ≢ t → Caller.xid (r.callers u) ≢ x)
      → r.callers t ≡ ca
      → ca.xid ≡ x
      → Awaits x t r ca

pub Same-Awaits :
    {x t : ℕ} {ca : Caller} (r r' : Client) → Same r r' → Awaits x t r ca → Awaits x t r' ca
Same-Awaits {x} {t} r r' (same a b c) (awaits f g l o h e) =
    awaits (ap (find x) b ∙ f) (subst (All _) (sym b) g) (omega (arith, a))
      (λ u n. subst (λ m. Caller.xid (m u) ≢ x) (sym c) (o u n)) (ap (λ m. m t) c ∙ h) e

-- What a message is for the call `x`: a reply or nothing
unfoldable pub reply : ℕ → (ℕ → ℕ) → ℕ → Option (ReplyHeader × Unmarshall)
reply x b sz =
    let p = unpack_reply_header (unmarshall b sz) in
    if Unmarshall.ok p.1 && ReplyHeader.xid p.0 == x then some p else none

abbrev pub heard : Caller → Option (ReplyHeader × Unmarshall) → Caller
heard ca none = ca
heard ca (some p) = answer ca p.0 p.1

-- What an event means to the call `x`
abbrev pub hear : ℕ → Caller → Event → Caller
hear x ca (starts t proc req rep) = ca
hear x ca (begins k new now) = ca
hear x ca (replies b sz) = heard ca (reply x b sz)
hear x ca (ends t k) = ca
hear x ca cancels = cancelled ca
hear x ca (binds ret nonce) = ca

-- The event is not an end of a call of thread `t`.
abbrev pub IsOther : ℕ → Event → Type 0
IsOther t (starts u proc req rep) = u ≢ t
IsOther t (begins k new now) = Unit
IsOther t (replies b sz) = Unit
IsOther t (ends u k) = u ≢ t
IsOther t cancels = Unit
IsOther t (binds ret nonce) = Unit

pub Starts-Awaits :
    {x t : ℕ} {ca : Caller} (r r' : Client) (u : ℕ) (rep : Unmarshall)
    → r.xid + 1 < 2 ^ 32
    → u ≢ t
    → Starts r u rep r'
    → Awaits x t r ca
    → Awaits x t r' ca
unfolding find
Starts-Awaits r r' u rep b n (refuses s) a = Same-Awaits r r' s a
Starts-Awaits {x} {t} {ca} r r' u rep b n (begins_with y c d) (awaits f g l o h e) =
    let z : (r.xid == x) ≡ false = ground arith in
    awaits (ap (find x) c ∙ rw z (find-erase_ne x r.xid r.calls (ne l) ∙ f))
      (subst (All (λ c. c.1 ≡ t → c.0 ≡ x)) (sym c)
        (λ q. absurd (n q), All-erase _ r.xid r.calls g))
      (omega (arith, y))
      (λ v w.
        subst (λ m. Caller.xid (m v) ≢ x) (sym d)
          (elim (Bool-cases (u == v)) [ inl q ↦ rw q (λ k. ne l (sym k)) | inr q ↦ rw q (o v w) ]))
      (ap (λ m. m t) d
        ∙ update_ne r.callers u t (record { xid = r.xid; un = rep; intret = 0; done = false }) n
        ∙ h)
      e
  where
    ne : x < r.xid → x ≢ r.xid
    ne l k = omega (arith, k)

pub got_pdu-Awaits :
    {x t : ℕ} {ca : Caller} (r : Client) (b : ℕ → ℕ) (sz : ℕ)
    → Awaits x t r ca
    → Awaits x t (got_pdu r b sz) (heard ca (reply x b sz))
unfolding got_pdu reply
got_pdu-Awaits {x} {t} {ca} r b sz (awaits f g l o h e) =
    let p = unpack_reply_header (unmarshall b sz) in
    elim (Bool-cases (Unmarshall.ok p.1)) [
      | inl z ↦ elim (Bool-cases (ReplyHeader.xid p.0 == x)) [
        | inl w ↦
            (let v : find (ReplyHeader.xid p.0) r.calls ≡ some t =
                ap (λ y. find y r.calls) ((==_iff (ReplyHeader.xid p.0) x).0 w) ∙ f in
              rw (z, w, v)
                (awaits f g l
                  (λ y n q. o y n (
                    sym (
                      update-xid r.callers t y (answer (r.callers t) p.0 p.1)
                        (answer-xid (r.callers t) p.0 p.1) refl)
                    ∙ q))
                  (update_self r.callers t (answer (r.callers t) p.0 p.1)
                    ∙ ap (λ v. answer v p.0 p.1) h)
                  (answer-xid ca p.0 p.1 ∙ e)))
        | inr w ↦ elim (Option-cases (find (ReplyHeader.xid p.0) r.calls)) [
          | inl v ↦ rw (z, w, v) (awaits f g l o h e)
          | inr (u, v) ↦
              rw (z, w, v)
                (awaits f g l
                  (λ y n.
                    subst (λ i. i ≢ x)
                      (sym (
                        update-xid r.callers u y (answer (r.callers u) p.0 p.1)
                          (answer-xid (r.callers u) p.0 p.1) refl))
                      (o y n))
                  (update_ne r.callers u t _ (λ q.
                      other (ReplyHeader.xid p.0) w
                        (All-find (λ c. c.1 ≡ t → c.0 ≡ x) (ReplyHeader.xid p.0) r.calls g v q))
                    ∙ h)
                  e)
        ]
      ]
      | inr z ↦ rw z (awaits f g l o h e)
    ]
  where
    other : (y : ℕ) → (y == x) ≡ false → y ≢ x
    other y w q = ground (arith, q)

pub cancel-Awaits :
    {x t : ℕ} {ca : Caller} (r : Client) → Awaits x t r ca → Awaits x t (cancel r).0 (cancelled ca)
unfolding cancel
cancel-Awaits {x} {t} {ca} r (awaits f g l o h e) =
    awaits f g l (λ u n q. o u n (sym (cancel_all-xid r.calls r.callers u) ∙ q))
      (cancel_all-find x r.calls r.callers t ca f h) e

pub unregister-Awaits :
    {x t : ℕ} {ca : Caller} (r : Client) (u : ℕ)
    → u ≢ t
    → Awaits x t r ca
    → Awaits x t (unregister r u) ca
unfolding unregister
unregister-Awaits {x} {t} {ca} r u n (awaits f g l o h e) =
    awaits (find-erase_ne x (Caller.xid (r.callers u)) r.calls (λ q. o u n (sym q)) ∙ f)
      (All-erase _ (Caller.xid (r.callers u)) r.calls g) l o h e
