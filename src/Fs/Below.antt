-- ===== src/Fs/Below.antt =====
-- What the file system stands on: the extent client and the lock client, as `yfs_client` calls them.
use cse_2014_undergrad.Prelude.{
  ℕ, Bool, Option, some, List, ◌≡◌, refl, ◌⊎◌, inl, inr, if◌then◌else◌, ◌==◌,
}
use cse_2014_undergrad.Extent.Client.{Status, ok, failed, Attr, Cache, Rpc}
use cse_2014_undergrad.Extent.Client

-- The methods of `ec` and `lc`, on their common state. `acquire` returns OK whenever it returns;
-- `release` may fail an assertion, since the extents of the lock may have to be written back.
pub record Below (S : Type 0) : Type 0 where
  pub get : S → ℕ → Status × List ℕ × S
  pub put : S → ℕ → List ℕ → Status × S
  pub getattr : S → ℕ → Status × Attr × S
  pub create : S → ℕ → Status × ℕ × S
  pub remove : S → ℕ → Status × S
  pub acquire : S → ℕ → S
  pub release : S → ℕ → Option S

-- What the file system relies on while no other client writes: extents have contents, which `put`
-- replaces in one extent and nothing else changes; on a good state the calls that matter say OK, and
-- leave a good state.
pub record Laws {S : Type 0} (b : Below S) : Type 1 where
  pub Good : S → Type 0
  pub content : S → ℕ → List ℕ
  pub get_ok : (s : S) (i : ℕ) → Good s → (b.get s i).0 ≡ ok
  pub get_value : (s : S) (i : ℕ) → Good s → (b.get s i).1 ≡ content s i
  pub get_keeps : (s : S) (i j : ℕ) → Good s → content (b.get s i).2 j ≡ content s j
  pub get_good : (s : S) (i : ℕ) → Good s → Good (b.get s i).2
  pub put_ok : (s : S) (i : ℕ) (v : List ℕ) → Good s → (b.put s i v).0 ≡ ok
  pub put_value :
      (s : S) (i : ℕ) (v : List ℕ) (j : ℕ)
      → Good s
      → content (b.put s i v).1 j ≡ (if i == j then v else content s j)
  pub put_good : (s : S) (i : ℕ) (v : List ℕ) → Good s → Good (b.put s i v).1
  pub create_keeps : (s : S) (type j : ℕ) → Good s → content (b.create s type).2 j ≡ content s j
  pub create_good : (s : S) (type : ℕ) → Good s → Good (b.create s type).2
  pub getattr_keeps : (s : S) (i j : ℕ) → Good s → content (b.getattr s i).2 j ≡ content s j
  pub getattr_good : (s : S) (i : ℕ) → Good s → Good (b.getattr s i).2
  pub acquire_keeps : (s : S) (i j : ℕ) → Good s → content (b.acquire s i) j ≡ content s j
  pub acquire_good : (s : S) (i : ℕ) → Good s → Good (b.acquire s i)
  pub release_some :
      (s : S) (i : ℕ)
      → Good s
      → (t : S) × (b.release s i ≡ some t) × Good t × ((j : ℕ) → content t j ≡ content s j)

-- The extent client over a server, and a lock client that is asked for a lock back, or not, when it
-- gives it up: `revoked` says for which locks. The extent's lock has its number.
module _ {T : Type 0} (cl : Rpc T) (revoked : ℕ → Bool) where
  abbrev pub cached : Below (Cache × T)
  cached = record {
    get = λ s i. let (st, v, c, t) = Client.get cl s.0 s.1 i in (st, v, (c, t));
    put = λ s i v. (ok, (Client.put s.0 i v, s.1));
    getattr = λ s i. let (st, a, c, t) = Client.getattr cl s.0 s.1 i in (st, a, (c, t));
    create = λ s type. let (st, i, c, t) = Client.create cl s.0 s.1 type in (st, i, (c, t));
    remove = λ s i. (ok, (Client.remove s.0 i, s.1));
    acquire = λ s i. s;
    release = λ s i. if revoked i then Client.flush cl s.0 s.1 i else some s;
  }

pub Status-cases : (st : Status) → (st ≡ ok) ⊎ (st ≡ failed)
Status-cases ok = inl refl
Status-cases failed = inr refl
