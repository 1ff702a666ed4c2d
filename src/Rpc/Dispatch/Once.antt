-- ===== src/Rpc/Dispatch/Once.antt =====
-- At most once for the whole of `dispatch`: no request is handed to its handler twice.
use cse_2014_undergrad.Prelude.{
  ℕ, ◌<◌, not, ◌&&◌, Option, some, List, [], ◌∷◌, ◌++◌, ◌≡◌, ◌≢◌, subst, arith, if◌then◌else◌, ◌==◌,
  update, ◌>>=◌, >>=-eq-some, ap, ◌∙◌, Bool-cases, Option-cases, ◌⊎◌, inl, inr,
}
use cse_2014_undergrad.Rpc.Marshall.{Marshall, Unmarshall}
use cse_2014_undergrad.Rpc.Marshall.Headers.{ReqHeader, unpack_req_header}
use cse_2014_undergrad.Rpc.Window.{
  RpcState, new, in_progress, forgotten, done, Checked, checkduplicate_and_update, add_reply,
}
use cse_2014_undergrad.Rpc.Window.Once.{
  Call, request, reply, is_new, run as run_window, Distinct, at_most_once,
}
use cse_2014_undergrad.Rpc.Dispatch.{
  Server, incref, decref, send, send_failure, remember, Next, quit, handle, leave, act, admit,
  arrive, finish,
}
use cse_2014_undergrad.Rpc.Dispatch.Replies.{keep_reply-kept, finish-kept, packed}

-- What the server does: it takes up a request that has come in on a connection, or a handler returns.
pub data Event : Type 0 where
  arrives : ℕ → Unmarshall → Event
  finishes : ℕ → ReqHeader → ℕ → Marshall → Event

-- The xid of the request, if it is one of client `n` that goes to its handler.
abbrev pub handled : ℕ → Next → List ℕ
handled n quit = []
handled n (handle h u) = if h.clt_nonce == n then h.xid ∷ [] else []

-- The xids of client `n` that go to their handlers, in order; `none` if the server aborts.
unfoldable pub run : (ℕ → ℕ) → ℕ → Server → List Event → Option (List ℕ)
run junk n s [] = some []
run junk n s (arrives c req ∷ es) = do
  p ← arrive junk s c req
  xs ← run junk n p.0 es
  some (handled n p.1 ++ xs)
run junk n s (finishes c h ret rep ∷ es) = do s' ← finish s c h ret rep; run junk n s' es

remember-window :
    (s t : Server) (n c : ℕ) → remember s n c ≡ some t → t.reply_window ≡ s.reply_window
unfolding remember incref decref
remember-window s t n c e = ground arith

abbrev new_xid : RpcState → ℕ → List ℕ
new_xid st xid = if is_new st then xid ∷ [] else []

act-window :
    (junk : ℕ → ℕ) (s : Server) (c : ℕ) (h : ReqHeader) (u : Unmarshall) (st : RpcState)
    (p : Server × Next)
    → act junk s c h u st ≡ some p
    → (p.0.reply_window ≡ s.reply_window) × (handled h.clt_nonce p.1 ≡ new_xid st h.xid)
unfolding act leave decref send send_failure
act-window junk s c h u new p e = ground arith
act-window junk s c h u in_progress p e = ground arith
act-window junk s c h u forgotten p e = ground arith
act-window junk s c h u (done b sz) p e = ground arith

act-other :
    (junk : ℕ → ℕ) (s : Server) (c : ℕ) (h : ReqHeader) (u : Unmarshall) (st : RpcState)
    (p : Server × Next) (n : ℕ)
    → h.clt_nonce ≢ n
    → act junk s c h u st ≡ some p
    → handled n p.1 ≡ []
unfolding act leave decref send send_failure
act-other junk s c h u new p n ne e = ground arith
act-other junk s c h u in_progress p n ne e = ground arith
act-other junk s c h u forgotten p n ne e = ground arith
act-other junk s c h u (done b sz) p n ne e = ground arith

-- What a step that takes up a request does to the window of client `n`: nothing, and nothing of that
-- client goes to a handler; or it checks a request, which goes to its handler if it is new.
Looked : ℕ → Server → Server × Next → Type 0
Looked n s p =
    ((p.0.reply_window n ≡ s.reply_window n) × (handled n p.1 ≡ []))
    ⊎ ((xid : ℕ) × (xid_rep : ℕ) × (r : Checked) × (checkduplicate_and_update (s.reply_window n) xid
            xid_rep
          ≡ some r)
        × (p.0.reply_window n ≡ r.window)
        × (handled n p.1 ≡ new_xid r.stat xid))

admit-Looked :
    (junk : ℕ → ℕ) (s : Server) (c : ℕ) (h : ReqHeader) (u : Unmarshall) (p : Server × Next) (n : ℕ)
    → 0 < n
    → admit junk s c h u ≡ some p
    → Looked n s p
unfolding admit Looked
admit-Looked junk s c h u p n z e = elim (Bool-cases (h.clt_nonce == 0)) [
  | inl y ↦
      let e' : act junk s c h u new ≡ some p = ground (arith, y) in
      inl (
        ap (λ f. f n) (act-window junk s c h u new p e').0,
        act-other junk s c h u new p n (ground (arith, y)) e',
      )
  | inr y ↦ elim (Option-cases (remember s h.clt_nonce c)) [
    | inl q ↦ absurd (ground (arith, y, q))
    | inr (t, q) ↦
        elim (Option-cases
          (checkduplicate_and_update (t.reply_window h.clt_nonce) h.xid h.xid_rep)) [
            | inl k ↦ absurd (ground (arith, y, q, k))
            | inr (r, k) ↦
                let t' : Server = record t {
                  reply_window = update t.reply_window h.clt_nonce r.window;
                } in
                let e' : act junk t' c h u r.stat ≡ some p = ground (arith, y, q, k) in
                let (a, b) = act-window junk t' c h u r.stat p e' in
                let m = remember-window s t h.clt_nonce c q in
                elim (Bool-cases (h.clt_nonce == n)) [
                  | inl i ↦
                      let same : h.clt_nonce ≡ n = ground (arith, i) in
                      inr (
                        h.xid,
                        h.xid_rep,
                        r,
                        subst
                            (λ x.
                              checkduplicate_and_update (s.reply_window x) h.xid h.xid_rep ≡ some r)
                            same
                            (subst
                              (λ f.
                                checkduplicate_and_update (f h.clt_nonce) h.xid h.xid_rep ≡ some r)
                              m k),
                        ap (λ f. f n) a ∙ ground (arith, i),
                        subst (λ x. handled x p.1 ≡ new_xid r.stat h.xid) same b,
                      )
                  | inr i ↦ inl (
                    ap (λ f. f n) a ∙ ground (arith, i, m),
                    act-other junk t' c h u r.stat p n (ground (arith, i)) e',
                  )
                ]
          ]
  ]
]

arrive-Looked :
    (junk : ℕ → ℕ) (s : Server) (c : ℕ) (req : Unmarshall) (p : Server × Next) (n : ℕ)
    → 0 < n
    → arrive junk s c req ≡ some p
    → Looked n s p
unfolding arrive
arrive-Looked junk s c req p n z e =
    let h = (unpack_req_header req).0 in
    let u = (unpack_req_header req).1 in
    elim (Bool-cases (not u.ok)) [
      | inl b ↦ unfold Looked leave decref in inl (ground (arith, b), ground (arith, b))
      | inr b ↦ elim (Bool-cases (not (h.srv_nonce == 0) && not (h.srv_nonce == s.nonce))) [
        | inl o ↦
            unfold Looked send_failure send in inl (ground (arith, b, o), ground (arith, b, o))
        | inr o ↦ elim (Bool-cases (s.procs h.proc)) [
          | inl q ↦ admit-Looked junk s c h u p n z (ground (arith, b, o, q))
          | inr q ↦ absurd (ground (arith, b, o, q))
        ]
      ]
    ]

-- The history of the window of client `n` that a run of the server makes.
run-window :
    (junk : ℕ → ℕ) (n : ℕ) (es : List Event) (s : Server) (xs : List ℕ)
    → 0 < n
    → run junk n s es ≡ some xs
    → (cs : List Call) × (run_window (s.reply_window n) cs ≡ some xs)
unfolding run run_window Looked
run-window junk n [] s xs z e = ([], e)
run-window junk n (arrives c req ∷ es) s xs z e =
    let (p, a, e1) = >>=-eq-some (arrive junk s c req) _ e in
    let (ys, b, e2) = >>=-eq-some (run junk n p.0 es) _ e1 in
    let (cs, k) = run-window junk n es p.0 ys z b in
    elim (arrive-Looked junk s c req p n z a) [
      | inl (w, g) ↦ (cs, subst (λ l. run_window l cs ≡ some xs) w (k ∙ ground (arith, e2, g)))
      | inr (xid, xid_rep, r, q, w, g) ↦ (request xid xid_rep ∷ cs, ground (arith, q, w, g, k, e2))
    ]
run-window junk n (finishes c h ret rep ∷ es) s xs z e =
    let (t, a, e1) = >>=-eq-some (finish s c h ret rep) _ e in
    let (cs, k) = run-window junk n es t xs z e1 in
    let (w, d, q, ew, _, _) = finish-kept s t c h ret rep a in
    elim ((keep_reply-kept _ w h s.fresh _ q).1) [
      | inl (_, u) ↦ (cs, subst (λ f. run_window (f n) cs ≡ some xs) (ew ∙ u) k)
      | inr (v, _, r, u) ↦ elim (Bool-cases (h.clt_nonce == n)) [
        | inl i ↦ (
          reply h.xid s.fresh (Marshall.ind (packed h ret rep)) ∷ cs,
          (let now : t.reply_window n ≡ v = ap (λ f. f n) (ew ∙ u) ∙ ground (arith, i) in
              let kept =
                subst
                  (λ x.
                    add_reply (s.reply_window x) h.xid s.fresh (Marshall.ind (packed h ret rep))
                    ≡ some v)
                  (ground (arith, i)) r in
              ap (λ m. m >>= λ l. run_window l cs) kept
              ∙ subst (λ l. run_window l cs ≡ some xs) now k),
        )
        | inr i ↦ (
          cs,
          subst (λ l. run_window l cs ≡ some xs) (ap (λ f. f n) (ew ∙ u) ∙ ground (arith, i)) k,
        )
      ]
    ]

-- At most once: in any run of the server in which it does not abort, requests of any clients and the
-- returns of handlers coming in any order, no xid of a client that wants at most once, and whose window
-- is empty at the start, goes to its handler twice.
pub dispatch_once :
    (junk : ℕ → ℕ) (n : ℕ) (es : List Event) (s : Server) (xs : List ℕ)
    → 0 < n
    → s.reply_window n ≡ []
    → run junk n s es ≡ some xs
    → Distinct xs
dispatch_once junk n es s xs z w e =
    let (cs, k) = run-window junk n es s xs z e in
    at_most_once cs xs (subst (λ l. run_window l cs ≡ some xs) w k)
