-- ===== src/Fs/Cached.antt =====
-- The extent client satisfies what the file system relies on, over a server that does its part.
mod Tests
use cse_2014_undergrad.Prelude.{ℕ, Bool, some, ◌≡◌, refl, arith, Bool-cases, inl, inr}
use cse_2014_undergrad.Extent.Client.{ok, Cache, Rpc}
use cse_2014_undergrad.Extent.Client
use cse_2014_undergrad.Extent.Client.View
use cse_2014_undergrad.Extent.Client.View.{view, Coherent, get-view, put-view, flush-view}
use cse_2014_undergrad.Fs.Below.{Below, Laws, cached}

-- Besides: neither a new extent nor a look at attributes changes contents.
pub record Keeps {T : Type 0} (cl : Rpc T) (w : View.Laws cl) : Type 0 where
  pub create : (t : T) (type j : ℕ) → w.content (cl.create t type).2 j ≡ w.content t j
  pub getattr : (t : T) (i j : ℕ) → w.content (cl.getattr t i).2 j ≡ w.content t j

module _ {T : Type 0} (cl : Rpc T) (w : View.Laws cl) (k : Keeps cl w) (revoked : ℕ → Bool) where
  pub create-view :
      (c : Cache) (t : T) (type : ℕ)
      → Coherent cl w c t
      → let r = Client.create cl c t type in
        ((j : ℕ) → view cl w r.2 r.3 j ≡ view cl w c t j) × Coherent cl w r.2 r.3
  unfolding Client.create view Coherent
  create-view c t type h =
      ((λ j. ground (arith, k.create t type j)), (λ j. ground (arith, k.create t type j, h j)))

  pub getattr-view :
      (c : Cache) (t : T) (i : ℕ)
      → Coherent cl w c t
      → let r = Client.getattr cl c t i in
        ((j : ℕ) → view cl w r.2 r.3 j ≡ view cl w c t j) × Coherent cl w r.2 r.3
  unfolding Client.getattr view Coherent
  getattr-view c t i h =
      ((λ j. ground (arith, k.getattr t i j)), (λ j. ground (arith, k.getattr t i j, h j)))

  pub release-view :
      (s : Cache × T) (i : ℕ)
      → Coherent cl w s.0 s.1
      → (r : Cache × T) × (Below.release (cached cl revoked) s i ≡ some r)
        × Coherent cl w r.0 r.1
        × ((j : ℕ) → view cl w r.0 r.1 j ≡ view cl w s.0 s.1 j)
  release-view s i h = elim (Bool-cases (revoked i)) [
    | inl y ↦ let (d, t, r, v, _, _, g) = flush-view cl w s.0 s.1 i h in ((d, t), rw y r, g, v)
    | inr y ↦ (s, rw y refl, h, λ j. refl)
  ]

  abbrev pub cached_laws : Laws (cached cl revoked)
  cached_laws = record {
    Good = λ s. Coherent cl w s.0 s.1;
    content = λ s i. view cl w s.0 s.1 i;
    get_ok = λ s i g. (get-view cl w s.0 s.1 i g).0;
    get_value = λ s i g. (get-view cl w s.0 s.1 i g).1;
    get_keeps = λ s i j g. (get-view cl w s.0 s.1 i g).2 j;
    get_good = λ s i g. (get-view cl w s.0 s.1 i g).3;
    put_ok = λ s i v g. refl;
    put_value = λ s i v j g. (put-view cl w s.0 s.1 i v g).0 j;
    put_good = λ s i v g. (put-view cl w s.0 s.1 i v g).1;
    create_keeps = λ s type j g. (create-view s.0 s.1 type g).0 j;
    create_good = λ s type g. (create-view s.0 s.1 type g).1;
    getattr_keeps = λ s i j g. (getattr-view s.0 s.1 i g).0 j;
    getattr_good = λ s i g. (getattr-view s.0 s.1 i g).1;
    acquire_keeps = λ s i j g. refl;
    acquire_good = λ s i g. g;
    release_some = λ s i g. release-view s i g;
  }
