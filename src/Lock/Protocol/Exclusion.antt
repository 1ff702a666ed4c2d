-- ===== src/Lock/Protocol/Exclusion.antt =====
-- What holds of every state that the lock protocol can reach.
use Prim.Native.String.{String}
use text.Mathlib.Text.{◌==◌ as str_eq}
use text.Mathlib.TextEquality.{eq_iff}
use cse_2014_undergrad.Prelude.{
  ◌<◌, Option, none, some, ◌≡◌, ◌≢◌, refl, sym, subst, arith, Bool-cases, inl, inr,
}
use cse_2014_undergrad.Lock.Server.{Reply, acquire_lock, release_lock}
use cse_2014_undergrad.Lock.Protocol.{
  Node, System, Move, client, server, Outcome, next, disabled, aborted, fire, local, serve, Rpc,
  no_rpc, asked_acquire, got_acquire, asked_release, got_release, serve_rpc, answer, at_node, start,
  caller, Reachable, here, there,
}
use cse_2014_undergrad.Lock.Client.{Caller, Returner}
use cse_2014_undergrad.Lock.Protocol.Phase.{
  Good, Good-move, Keeps, local-Keeps, fresh-Good, asking-role, giving-role, inside-holder,
}
use cse_2014_undergrad.Lock.Protocol.Roles.{
  role, IsLine, fresh-IsLine, acquire_lock-IsLine, release_lock-IsLine, acquire_lock-ne-none,
  release_lock-ne-none, holder_unique,
}
use cse_2014_undergrad.Lock.Protocol.Serve.{acquire-Good, release-Good}

pub record Inv (s : System) : Type 0 where
  pub line : IsLine s.server
  pub good :
      (c : String) → c ≢ "" → Good (role s.server c) s.server.holding_client.send_rpc (s.node c)

abbrev pub Safe : Outcome System → Type 0
Safe (next s) = Inv s
Safe disabled = Unit
Safe aborted = ⊥

at_node-Safe :
    (s : System) (c : String) (o : Outcome Node)
    → Inv s
    → Keeps (role s.server c) s.server.holding_client.send_rpc o
    → Safe (at_node s c o)
unfolding at_node Keeps
at_node-Safe s c (next n) v g = record {
  line = v.line;
  good = λ d ne. elim (Bool-cases (str_eq c d)) [
    | inl same ↦ Good-move (ground (arith, eq_iff c d)) refl (ground arith) g
    | inr other ↦ Good-move refl refl (ground arith) (v.good d ne)
  ];
}
at_node-Safe s c disabled v g = tt
at_node-Safe s c aborted v g = g

acquire-Safe :
    (s : System) (c : String) (k : Caller) (o : Option Reply)
    → c ≢ ""
    → Inv s
    → Node.rpc (s.node c) ≡ asked_acquire k
    → acquire_lock s.server c ≡ o
    → Safe (answer s c (got_acquire k) o)
unfolding answer
acquire-Safe s c k none ne v a e =
    acquire_lock-ne-none s.server c v.line (ground (arith, asking-role _ _ _ a (v.good c ne))) e
acquire-Safe s c k (some r) ne v a e = record {
  line =
      acquire_lock-IsLine s.server c r ne v.line (ground (arith, asking-role _ _ _ a (v.good c ne)))
        e;
  good = λ d h. acquire-Good s.server s.node c r v.line k d a (v.good c ne) (v.good d h) e;
}

release-Safe :
    (s : System) (c : String) (k : Returner) (o : Option Reply)
    → c ≢ ""
    → Inv s
    → Node.rpc (s.node c) ≡ asked_release k
    → release_lock s.server c ≡ o
    → Safe (answer s c (got_release k) o)
unfolding answer
release-Safe s c k none ne v a e =
    release_lock-ne-none s.server c (giving-role _ _ _ a (v.good c ne)).0 e
release-Safe s c k (some r) ne v a e = record {
  line = release_lock-IsLine s.server c r v.line e;
  good = λ d h. release-Good s.server s.node c r v.line k d a (v.good c ne) (v.good d h) e;
}

serve-Safe :
    (s : System) (c : String) (q : Rpc)
    → c ≢ ""
    → Inv s
    → Node.rpc (s.node c) ≡ q
    → Safe (serve_rpc s c q)
unfolding serve_rpc
serve-Safe s c (asked_acquire k) ne v a = acquire-Safe s c k (acquire_lock s.server c) ne v a refl
serve-Safe s c (asked_release k) ne v a = release-Safe s c k (release_lock s.server c) ne v a refl
serve-Safe s c no_rpc ne v a = tt
serve-Safe s c (got_acquire k st) ne v a = tt
serve-Safe s c (got_release k st) ne v a = tt

fire-Safe : (s : System) (m : Move) → caller m ≢ "" → Inv s → Safe (fire s m)
unfolding fire serve
fire-Safe s (client c e) ne v =
    at_node-Safe s c (local (s.node c) e) v (local-Keeps _ _ (s.node c) e (v.good c ne))
fire-Safe s (server c) ne v = serve-Safe s c (Node.rpc (s.node c)) ne v refl

start-Inv : Inv start
start-Inv = record { line = fresh-IsLine; good = λ c ne. fresh-Good _ }

Reachable-Inv : {s : System} → Reachable s → Inv s
Reachable-Inv (here e) = subst Inv (sym e) start-Inv
Reachable-Inv (there {s} m ne r e) = subst Safe e (fire-Safe s m ne (Reachable-Inv r))

-- In no reachable state can a step of a client with a name make an assertion fail, the server's on the
-- lock's state or a client's, nor start a second RPC for the lock at a client that has one under way.
pub fire-ne-aborted : {s : System} (m : Move) → Reachable s → caller m ≢ "" → fire s m ≢ aborted
fire-ne-aborted {s} m r ne e = subst Safe e (fire-Safe s m ne (Reachable-Inv r))

-- Mutual exclusion: in every reachable state at most one thread of one client is between its return
-- from `acquire` and its call of `release`.
pub inside_exclusive :
    {s : System} (c d : String)
    → Reachable s
    → c ≢ ""
    → d ≢ ""
    → 0 < Node.inside (s.node c)
    → 0 < Node.inside (s.node d)
    → (c ≡ d) × (Node.inside (s.node c) ≡ 1)
inside_exclusive {s} c d r nc nd hc hd =
    let v = Reachable-Inv r in
    let pc = inside-holder _ _ _ (v.good c nc) hc in
    let pd = inside-holder _ _ _ (v.good d nd) hd in (holder_unique s.server c d pc.0 pd.0, pc.1)
