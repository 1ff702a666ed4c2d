-- ===== src/Rpc/Dispatch/Replies.antt =====
-- The reply that a duplicate gets.
use cse_2014_undergrad.Prelude.{
  ℕ, ◌<◌, some, List, [], map, ◌∷◌, ◌≡◌, refl, sym, subst, arith, ltb, update, ap, ◌∙◌, Bool-cases,
  Option-cases, ◌⊎◌, suc, inl, inr,
}
use cse_2014_undergrad.Rpc.Marshall.{Marshall}
use cse_2014_undergrad.Rpc.Marshall.Headers.{ReqHeader, pack_reply_header}
use cse_2014_undergrad.Rpc.Window.{ReplyT, done, check_window, add_reply}
use cse_2014_undergrad.Rpc.Window.Order.{IsSorted, front}
use cse_2014_undergrad.Rpc.Window.Knows.{IsSorted-xids, add_reply-xids}
use cse_2014_undergrad.Rpc.Window.Buffers.{check_window-add_reply}
use cse_2014_undergrad.Rpc.Dispatch.{Sent, Server, incref, decref, send, keep_reply, latest, finish}

-- What a step leaves alone.
pub record Same (s t : Server) : Type 0 where
  pub window : t.reply_window ≡ s.reply_window
  pub bufs : t.bufs ≡ s.bufs
  pub sent : t.sent ≡ s.sent

pub decref-Same : (s t : Server) (c : ℕ) → decref s c ≡ some t → Same s t
unfolding decref
decref-Same s t c e = record { window = ground arith; bufs = ground arith; sent = ground arith }

pub latest-Same : (s : Server) (c n : ℕ) (p : Server × ℕ) → latest s c n ≡ some p → Same s p.0
unfolding latest decref incref
latest-Same s c n p e = record { window = ground arith; bufs = ground arith; sent = ground arith }

pub keep_reply-kept :
    (s t : Server) (h : ReqHeader) (b sz : ℕ)
    → keep_reply s h b sz ≡ some t
    → (t.bufs ≡ s.bufs)
      × ((h.clt_nonce ≡ 0) × (t.reply_window ≡ s.reply_window)
          ⊎ (v : List ReplyT) × (0 < h.clt_nonce)
            × (add_reply (s.reply_window h.clt_nonce) h.xid b sz ≡ some v)
            × (t.reply_window ≡ update s.reply_window h.clt_nonce v))
unfolding keep_reply
keep_reply-kept s t h b sz e =
    elim (Option-cases (add_reply (s.reply_window h.clt_nonce) h.xid b sz)) [
      | inl n ↦ (ground arith, inl (ground arith))
      | inr (v, n) ↦ elim (Bool-cases (ltb 0 h.clt_nonce)) [
        | inl y ↦ (ground arith, inr (v, ground arith, n, ground arith))
        | inr y ↦ (ground arith, inl (ground arith))
      ]
    ]

-- The bytes of a reply.
abbrev pub packed : ReqHeader → ℕ → Marshall → Marshall
packed h ret rep = pack_reply_header rep (record { xid = h.xid; ret = ret })

-- What `finish` leaves in the window and in memory is what `keep_reply` has put there, and what it has
-- sent is the reply.
pub finish-kept :
    (s t : Server) (c : ℕ) (h : ReqHeader) (ret : ℕ) (rep : Marshall)
    → finish s c h ret rep ≡ some t
    → (w : Server) × (d : ℕ) × (keep_reply
          (record s {
            bufs = update s.bufs s.fresh (Marshall.buf (packed h ret rep));
            fresh = suc s.fresh;
          })
          h
          s.fresh
          (Marshall.ind (packed h ret rep))
        ≡ some w)
      × (t.reply_window ≡ w.reply_window)
      × (t.bufs ≡ w.bufs)
      × (t.sent
          ≡ record {
            chan = d;
            buf = Marshall.buf (packed h ret rep);
            sz = Marshall.ind (packed h ret rep);
          }
            ∷ w.sent)
unfolding finish send
finish-kept s t c h ret rep e =
    let m = packed h ret rep in
    let s0 : Server = record s { bufs = update s.bufs s.fresh m.buf; fresh = suc s.fresh } in
    elim (Option-cases (keep_reply s0 h s.fresh m.ind)) [
      | inl k ↦ absurd (ground (arith, k))
      | inr (w, k) ↦ elim (Option-cases (latest w c h.clt_nonce)) [
        | inl l ↦ absurd (ground (arith, k, l))
        | inr (p, l) ↦
            let e3 : decref (send p.0 p.1 m.buf m.ind) p.1 ≡ some t = ground (arith, k, l) in
            let a = latest-Same w c h.clt_nonce p l in
            let b = decref-Same (send p.0 p.1 m.buf m.ind) t p.1 e3 in
            (
              w,
              p.1,
              k,
              b.window ∙ a.window,
              b.bufs ∙ a.bufs,
              b.sent ∙ ap (λ x. record { chan = p.1; buf = m.buf; sz = m.ind } ∷ x) a.sent,
            )
      ]
    ]

front-xids : (v w : List ReplyT) → map ReplyT.xid v ≡ map ReplyT.xid w → front v ≡ front w
unfolding front
front-xids [] [] e = refl
front-xids [] (r ∷ rs) e = cc
front-xids (q ∷ qs) [] e = cc
front-xids (q ∷ qs) (r ∷ rs) e = ground arith

-- Once the handler of a request above the front has finished, a duplicate of the request is answered
-- with the same reply: the window says `done` with an address and a size, at the address are the bytes
-- that were sent last, and the size is theirs. The client wants at most once, and its window is in
-- order.
pub finish-check_window :
    (s t : Server) (c : ℕ) (h : ReqHeader) (ret : ℕ) (rep : Marshall)
    → finish s c h ret rep ≡ some t
    → 0 < h.clt_nonce
    → IsSorted (s.reply_window h.clt_nonce)
    → h.xid_rep < h.xid
    → front (s.reply_window h.clt_nonce) < h.xid
    → (b : ℕ) × (d : ℕ) × (old : List Sent) × ((check_window
          (t.reply_window h.clt_nonce)
          h.xid
          h.xid_rep).stat
        ≡ done b (Marshall.ind (packed h ret rep)))
      × (t.sent ≡ record { chan = d; buf = t.bufs b; sz = Marshall.ind (packed h ret rep) } ∷ old)
      × (t.bufs b ≡ Marshall.buf (packed h ret rep))
finish-check_window s t c h ret rep e n a l f =
    let (w, d, k, ew, eb, es) = finish-kept s t c h ret rep e in
    let (kb, kw) = keep_reply-kept _ w h s.fresh _ k in
    let here : t.bufs s.fresh ≡ Marshall.buf (packed h ret rep) = ground (arith, eb, kb) in
    elim kw [
      | inl (z, _) ↦ absurd (omega (arith, z))
      | inr (v, _, r, u) ↦
          let same = add_reply-xids _ h.xid s.fresh _ v r in
          let now : t.reply_window h.clt_nonce ≡ v = ground (arith, ew, u) in
          (
            s.fresh,
            d,
            w.sent,
            subst
                (λ l.
                  (check_window l h.xid h.xid_rep).stat
                  ≡ done s.fresh (Marshall.ind (packed h ret rep)))
                (sym now)
                (check_window-add_reply _ v h.xid h.xid_rep s.fresh _ (IsSorted-xids v _ same a) r l
                  (subst (λ x. x < h.xid) (sym (front-xids v _ same)) f)),
            subst
                (λ x.
                  t.sent
                  ≡ record { chan = d; buf = x; sz = Marshall.ind (packed h ret rep) } ∷ w.sent)
                (sym here) es,
            here,
          )
    ]
