-- ===== src/Prelude/Maps.antt =====
-- `std::map` as a function of its key: `m[k] = v`. A map that the code searches with `find` is a
-- function into `Option`; one that it only indexes gives the default value at a new key.
use Prim.Native.Nat.{ℕ}
use mathlib.Core.Path.{◌≡◌}
use mathlib.Core.Logic.{◌≢◌}
use native.Mathlib.Omega.{arith}
use cse_2014_undergrad.Prelude.Tests.{◌==◌, if◌then◌else◌}

module _ {ℓ} {V : Type ℓ} where
  abbrev pub update : (ℕ → V) → ℕ → V → ℕ → V
  update m k v j = if k == j then v else m j

  pub update_self : (m : ℕ → V) (k : ℕ) (v : V) → update m k v k ≡ v
  update_self m k v = ground arith

  pub update_ne : (m : ℕ → V) (k j : ℕ) (v : V) → k ≢ j → update m k v j ≡ m j
  update_ne m k j v h = ground arith
