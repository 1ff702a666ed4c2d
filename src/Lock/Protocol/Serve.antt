-- ===== src/Lock/Protocol/Serve.antt =====
-- The server's part of a step keeps every client in a state that fits its role.
use Prim.Native.String.{String}
use text.Mathlib.Text.{◌==◌ as str_eq}
use text.Mathlib.TextEquality.{eq_iff}
use cse_2014_undergrad.Prelude.{false, ◌≡◌, refl, sym, subst, arith, some, Bool-cases, inl, inr}
use cse_2014_undergrad.Lock.Server.{LockState, Reply, acquire_lock, release_lock}
use cse_2014_undergrad.Lock.Client.{Caller, Returner}
use cse_2014_undergrad.Lock.Protocol.{
  Node, asked_acquire, got_acquire, asked_release, got_release, put, call_back,
}
use cse_2014_undergrad.Lock.Protocol.Phase.{
  Good, Good-flag, Good-move, grant-Good, confirm-Good, join-Good, leave-Good, revoke-Good,
  retry-Good, asking-role, giving-role,
}
use cse_2014_undergrad.Lock.Protocol.Roles.{
  role, IsLine, takes, confirms, joins, asks, acquire_lock-Acquires, acquire_lock-role, frees,
  passes, release_lock-Releases,
}

module _ (l : LockState) (f : String → Node) (c : String) (r : Reply) (v : IsLine l) where
  -- The asking client itself.
  acquire-Good_self :
      {k : Caller}
      → Node.rpc (f c) ≡ asked_acquire k
      → Good (role l c) l.holding_client.send_rpc (f c)
      → acquire_lock l c ≡ some r
      → Good
          (role r.lock c)
          r.lock.holding_client.send_rpc
          (call_back (put f c (record (f c) { rpc = got_acquire k r.status })) r.callback c)
  acquire-Good_self {k} a g e =
      let after = acquire_lock-role l c r c v e in
      let before = asking-role (role l c) _ (f c) a g in
      elim (acquire_lock-Acquires l c r e) [
        | takes s t u w ↦
            Good-move (ground (arith, eq_iff c c, after)) (sym w) (ground (arith, eq_iff c c))
              (grant-Good _ (f c) a (Good-move (ground arith) refl refl g))
        | confirms s h t u w ↦
            Good-move (ground (arith, eq_iff c c, after)) (sym w) (ground (arith, eq_iff c c))
              (confirm-Good _ (f c) a (Good-move (ground arith) refl refl g))
        | joins s h t u w ↦
            Good-move (ground (arith, eq_iff c c, after)) refl (ground (arith, eq_iff c c))
              (join-Good _ (f c) a _ (Good-move (ground (arith, before)) refl refl g))
        | asks s h t u w ↦
            Good-move (ground (arith, eq_iff c c, after)) refl (ground (arith, eq_iff c c))
              (join-Good _ (f c) a _ (Good-move (ground (arith, before)) refl refl g))
      ]

  -- Any other client.
  acquire-Good_other :
      (k : Caller) (d : String)
      → str_eq c d ≡ false
      → Good (role l d) l.holding_client.send_rpc (f d)
      → acquire_lock l c ≡ some r
      → Good
          (role r.lock d)
          r.lock.holding_client.send_rpc
          (call_back (put f c (record (f c) { rpc = got_acquire k r.status })) r.callback d)
  acquire-Good_other k d ne g e =
      let after = acquire_lock-role l c r d v e in
      elim (acquire_lock-Acquires l c r e) [
        | takes s t u w ↦
            Good-move (ground (arith, after)) refl (ground arith)
              (Good-flag (role l d) _ _ (f d) (ground arith) g)
        | confirms s h t u w ↦ Good-move (ground (arith, after)) (sym w) (ground arith) g
        | joins s h t u w ↦
            Good-move (ground (arith, after)) refl (ground arith)
              (Good-flag (role l d) _ _ (f d) (ground arith) g)
        | asks s h t u w ↦ elim (Bool-cases l.holding_client.send_rpc) [
          | inl b ↦ Good-move (ground (arith, after)) (ground arith) (ground arith) g
          | inr b ↦ elim (Bool-cases (str_eq l.holding_client.id d)) [
            | inl i ↦
                Good-move (ground (arith, after)) (sym w)
                  (ground (arith, eq_iff l.holding_client.id d))
                  (revoke-Good (f d) (Good-move (ground arith) b refl g))
            | inr i ↦
                Good-move (ground (arith, after)) refl (ground arith)
                  (Good-flag (role l d) _ _ (f d) (ground arith) g)
          ]
        ]
      ]

  pub acquire-Good :
      (k : Caller) (d : String)
      → Node.rpc (f c) ≡ asked_acquire k
      → Good (role l c) l.holding_client.send_rpc (f c)
      → Good (role l d) l.holding_client.send_rpc (f d)
      → acquire_lock l c ≡ some r
      → Good
          (role r.lock d)
          r.lock.holding_client.send_rpc
          (call_back (put f c (record (f c) { rpc = got_acquire k r.status })) r.callback d)
  acquire-Good k d a gc gd e = elim (Bool-cases (str_eq c d)) [
    | inl same ↦
        subst
          (λ x.
            Good (role r.lock x) r.lock.holding_client.send_rpc
              (call_back (put f c (record (f c) { rpc = got_acquire k r.status })) r.callback x))
          ((eq_iff c d).0 same) (acquire-Good_self a gc e)
    | inr ne ↦ acquire-Good_other k d ne gd e
  ]

  release-Good_self :
      {k : Returner}
      → Node.rpc (f c) ≡ asked_release k
      → Good (role l c) l.holding_client.send_rpc (f c)
      → release_lock l c ≡ some r
      → Good
          (role r.lock c)
          r.lock.holding_client.send_rpc
          (call_back (put f c (record (f c) { rpc = got_release k r.status })) r.callback c)
  release-Good_self {k} a g e = elim (release_lock-Releases l c r e) [
    | frees s h w t u st ↦ Good-move (ground arith) refl (ground (arith, eq_iff c c)) (
        leave-Good _ _ (f c) a
          (Good-move (ground (arith, giving-role (role l c) _ (f c) a g)) refl refl g))
    | passes w ws s h p t u st ↦
        Good-move (ground (arith, eq_iff c c, eq_iff w c)) refl
          (ground (arith, eq_iff c c, eq_iff w c))
          (leave-Good _ _ (f c) a
            (Good-move (ground (arith, giving-role (role l c) _ (f c) a g)) refl refl g))
  ]

  release-Good_other :
      (k : Returner) (d : String)
      → str_eq c d ≡ false
      → Good (role l d) l.holding_client.send_rpc (f d)
      → release_lock l c ≡ some r
      → Good
          (role r.lock d)
          r.lock.holding_client.send_rpc
          (call_back (put f c (record (f c) { rpc = got_release k r.status })) r.callback d)
  release-Good_other k d ne g e = elim (release_lock-Releases l c r e) [
    | frees s h w t u st ↦
        Good-move (ground arith) refl (ground arith)
          (Good-flag (role l d) _ _ (f d) (ground arith) g)
    | passes w ws s h p t u st ↦ elim (Bool-cases (str_eq w d)) [
      | inl i ↦ Good-move (ground arith) refl (ground (arith, eq_iff w d)) (
          retry-Good _ _ (f d)
            (Good-move (ground (arith, eq_iff l.holding_client.id d, eq_iff c d)) refl refl g))
      | inr i ↦
          Good-move (ground (arith, eq_iff c d, eq_iff l.holding_client.id d)) refl (ground arith)
            (Good-flag (role l d) _ _ (f d) (ground arith) g)
    ]
  ]

  pub release-Good :
      (k : Returner) (d : String)
      → Node.rpc (f c) ≡ asked_release k
      → Good (role l c) l.holding_client.send_rpc (f c)
      → Good (role l d) l.holding_client.send_rpc (f d)
      → release_lock l c ≡ some r
      → Good
          (role r.lock d)
          r.lock.holding_client.send_rpc
          (call_back (put f c (record (f c) { rpc = got_release k r.status })) r.callback d)
  release-Good k d a gc gd e = elim (Bool-cases (str_eq c d)) [
    | inl same ↦
        subst
          (λ x.
            Good (role r.lock x) r.lock.holding_client.send_rpc
              (call_back (put f c (record (f c) { rpc = got_release k r.status })) r.callback x))
          ((eq_iff c d).0 same) (release-Good_self a gc e)
    | inr ne ↦ release-Good_other k d ne gd e
  ]
