-- ===== src/Rpc/Marshall/Headers.antt =====
-- `req_header` and `reply_header`, which lie in front of the contents, and the room that the buffer
-- has.
use cse_2014_undergrad.Prelude.{ℕ, ◌+◌, ◌<◌, ◌≤◌, ◌^◌, true, ◌≡◌, refl, arith, ltb, List}
use cse_2014_undergrad.Rpc.Marshall.{
  Marshall, Unmarshall, rpc_sz, rpc_header_sz, pack, unpack, rawbyte, rawbytes,
}
use cse_2014_undergrad.Rpc.Marshall.Codec.{Appends, Appends-trans, Faces, Faces-left, Faces-right}
use cse_2014_undergrad.Rpc.Marshall.Words.{pack-Appends, unpack-pack}

pub record ReqHeader : Type 0 where
  pub xid : ℕ
  pub proc : ℕ
  pub clt_nonce : ℕ
  pub srv_nonce : ℕ
  pub xid_rep : ℕ

pub record ReplyHeader : Type 0 where
  pub xid : ℕ
  pub ret : ℕ

unfoldable pub pack_req_header : Marshall → ReqHeader → Marshall
pack_req_header m h =
    record (pack
      (pack (pack (pack (pack (record m { ind = rpc_sz }) h.xid) h.proc) h.clt_nonce) h.srv_nonce)
      h.xid_rep) { ind = m.ind }

unfoldable pub pack_reply_header : Marshall → ReplyHeader → Marshall
pack_reply_header m h = record (pack (pack (record m { ind = rpc_sz }) h.xid) h.ret) { ind = m.ind }

unfoldable pub unpack_req_header : Unmarshall → ReqHeader × Unmarshall
unpack_req_header u =
    let (xid, u1) = unpack (record u { ind = rpc_sz }) in
    let (proc, u2) = unpack u1 in
    let (clt_nonce, u3) = unpack u2 in
    let (srv_nonce, u4) = unpack u3 in
    let (xid_rep, u5) = unpack u4 in
    (
      record {
        xid = xid;
        proc = proc;
        clt_nonce = clt_nonce;
        srv_nonce = srv_nonce;
        xid_rep = xid_rep;
      },
      record u5 { ind = rpc_header_sz },
    )

unfoldable pub unpack_reply_header : Unmarshall → ReplyHeader × Unmarshall
unpack_reply_header u =
    let (xid, u1) = unpack (record u { ind = rpc_sz }) in
    let (ret, u2) = unpack u1 in
    (record { xid = xid; ret = ret }, record u2 { ind = rpc_header_sz })

abbrev pub IsWord : ℕ → Type 0
IsWord x = ltb x (2 ^ 32) ≡ true

pack-ind : (m : Marshall) (x : ℕ) → Marshall.ind (pack m x) ≡ m.ind + 4
unfolding pack rawbyte
pack-ind m x = omega arith

pack-above : (m : Marshall) (x i : ℕ) → m.ind + 4 ≤ i → Marshall.buf (pack m x) i ≡ m.buf i
unfolding pack rawbyte
pack-above m x i h = ground arith

-- Two numbers packed one after the other: the first comes back, and the reader faces the second.
next_word :
    {m m' : Marshall} (u : Unmarshall) (x : ℕ)
    → Appends (pack m x) m'
    → IsWord x
    → Faces u m m'
    → (unpack u ≡ (x, record u { ind = Marshall.ind (pack m x) }))
      × Faces (record u { ind = Marshall.ind (pack m x) }) (pack m x) m'
next_word {m} u x s w f =
    (unpack-pack m u x w (Faces-left (pack-Appends m x) s f), Faces-right (pack-Appends m x) s f)

done-Appends : (m : Marshall) → Appends m m
done-Appends m = record { grows = omega arith; keeps = λ i h. refl }

-- The header of a request comes back from a packet that begins with the bytes in which it was packed;
-- and packing it changes no byte of the contents nor their end.
pub req_header_round_trip :
    (m : Marshall) (h : ReqHeader) (u : Unmarshall) (j : ℕ)
    → IsWord h.xid
    → IsWord h.proc
    → IsWord h.clt_nonce
    → IsWord h.srv_nonce
    → IsWord h.xid_rep
    → u.ok ≡ true
    → rpc_header_sz ≤ u.sz
    → u.sz < 2 ^ 32
    → ((i : ℕ) → i < rpc_header_sz → u.buf i ≡ Marshall.buf (pack_req_header m h) i)
    → rpc_header_sz ≤ j
    → (unpack_req_header u ≡ (h, record u { ind = rpc_header_sz }))
      × (Marshall.buf (pack_req_header m h) j ≡ m.buf j)
      × (Marshall.ind (pack_req_header m h) ≡ m.ind)
unfolding pack_req_header unpack_req_header
req_header_round_trip m h u j w1 w2 w3 w4 w5 k r l e b =
    let m0 : Marshall = record m { ind = rpc_sz } in
    let m1 = pack m0 h.xid in
    let m2 = pack m1 h.proc in
    let m3 = pack m2 h.clt_nonce in
    let m4 = pack m3 h.srv_nonce in
    let m5 = pack m4 h.xid_rep in
    let i1 = pack-ind m0 h.xid in
    let i2 = pack-ind m1 h.proc in
    let i3 = pack-ind m2 h.clt_nonce in
    let i4 = pack-ind m3 h.srv_nonce in
    let i5 = pack-ind m4 h.xid_rep in
    let s5 = done-Appends m5 in
    let s4 = Appends-trans (pack-Appends m4 h.xid_rep) s5 in
    let s3 = Appends-trans (pack-Appends m3 h.srv_nonce) s4 in
    let s2 = Appends-trans (pack-Appends m2 h.clt_nonce) s3 in
    let s1 = Appends-trans (pack-Appends m1 h.proc) s2 in
    let f0 : Faces (record u { ind = rpc_sz }) m0 m5 = record {
      fine = k;
      at = refl;
      room = omega arith;
      fits = l;
      same = λ i _ j. e i (omega arith);
    } in
    let t1 = next_word (record u { ind = rpc_sz }) h.xid s1 w1 f0 in
    let t2 = next_word (record u { ind = m1.ind }) h.proc s2 w2 t1.1 in
    let t3 = next_word (record u { ind = m2.ind }) h.clt_nonce s3 w3 t2.1 in
    let t4 = next_word (record u { ind = m3.ind }) h.srv_nonce s4 w4 t3.1 in
    let t5 = next_word (record u { ind = m4.ind }) h.xid_rep s5 w5 t4.1 in
    (
      rw (t1.0, t2.0, t3.0, t4.0, t5.0),
      ground (
        arith,
        pack-above m0 h.xid j,
        pack-above m1 h.proc j,
        pack-above m2 h.clt_nonce j,
        pack-above m3 h.srv_nonce j,
        pack-above m4 h.xid_rep j,
      ),
      refl,
    )

-- The header of a reply comes back from a packet that begins with the bytes in which it was packed; and
-- packing it changes no byte of the contents nor their end.
pub reply_header_round_trip :
    (m : Marshall) (h : ReplyHeader) (u : Unmarshall) (j : ℕ)
    → IsWord h.xid
    → IsWord h.ret
    → u.ok ≡ true
    → rpc_header_sz ≤ u.sz
    → u.sz < 2 ^ 32
    → ((i : ℕ) → i < rpc_header_sz → u.buf i ≡ Marshall.buf (pack_reply_header m h) i)
    → rpc_header_sz ≤ j
    → (unpack_reply_header u ≡ (h, record u { ind = rpc_header_sz }))
      × (Marshall.buf (pack_reply_header m h) j ≡ m.buf j)
      × (Marshall.ind (pack_reply_header m h) ≡ m.ind)
unfolding pack_reply_header unpack_reply_header
reply_header_round_trip m h u j w1 w2 k r l e b =
    let m0 : Marshall = record m { ind = rpc_sz } in
    let m1 = pack m0 h.xid in
    let m2 = pack m1 h.ret in
    let i1 = pack-ind m0 h.xid in
    let i2 = pack-ind m1 h.ret in
    let s2 = done-Appends m2 in
    let s1 = Appends-trans (pack-Appends m1 h.ret) s2 in
    let f0 : Faces (record u { ind = rpc_sz }) m0 m2 = record {
      fine = k;
      at = refl;
      room = omega arith;
      fits = l;
      same = λ i _ j. e i (omega arith);
    } in
    let t1 = next_word (record u { ind = rpc_sz }) h.xid s1 w1 f0 in
    let t2 = next_word (record u { ind = m1.ind }) h.ret s2 w2 t1.1 in
    (rw (t1.0, t2.0), ground (arith, pack-above m0 h.xid j, pack-above m1 h.ret j), refl)

-- The buffer has room for what is written: after a byte, and after a run of bytes, the end of what is
-- written lies within the capacity, and the capacity has not shrunk.
pub marshall_in_bounds :
    (m : Marshall) (x : ℕ) (p : List ℕ)
    → 0 < m.capa
    → m.ind ≤ m.capa
    → (Marshall.ind (rawbyte m x) ≤ Marshall.capa (rawbyte m x))
      × (m.capa ≤ Marshall.capa (rawbyte m x))
      × (Marshall.ind (rawbytes m p) ≤ Marshall.capa (rawbytes m p))
      × (m.capa ≤ Marshall.capa (rawbytes m p))
unfolding rawbyte rawbytes
marshall_in_bounds m x p h k = ground arith
