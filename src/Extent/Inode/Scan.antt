-- ===== src/Extent/Inode/Scan.antt =====
-- The search of one block for an inode that is not in use.
use cse_2014_undergrad.Prelude.{
  ℕ, zero, suc, ◌+◌, ◌*◌, ◌<◌, ◌≤◌, true, false, ◌&&◌, ◌≡◌, inl, inr, subst, arith, leb, ◌==◌,
  ==_iff, Bool-cases,
}
use cse_2014_undergrad.Extent.Block.{inode_num, ipb, Block}
use cse_2014_undergrad.Extent.Inode.{
  Inode, load_inode, Search, next_block, passed, found_at, search_block,
}

-- An inode of block `i` that the search has to consider, and that is in use if it is one
abbrev pub IsTaken : ℕ → Block → ℕ → Type 0
IsTaken i buf m =
    1 ≤ m + i * ipb → m + i * ipb < inode_num → (Inode.type (load_inode buf m) == 0) ≡ false

-- What the search of block `i` from inode `j` on has found
abbrev pub Searched : ℕ → ℕ → Block → Search → Type 0
Searched i j buf next_block = (m : ℕ) → j ≤ m → m < ipb → IsTaken i buf m
Searched i j buf passed =
    (inode_num ≤ ipb + i * ipb) × ((m : ℕ) → j ≤ m → m < ipb → IsTaken i buf m)
Searched i j buf (found_at k) =
    (j ≤ k)
    × (k < ipb)
    × (1 ≤ k + i * ipb)
    × (k + i * ipb < inode_num)
    × ((Inode.type (load_inode buf k) == 0) ≡ true)
    × ((m : ℕ) → j ≤ m → m < k → IsTaken i buf m)

from_here : (j m : ℕ) (P : ℕ → Type 0) → P j → (j + 1 ≤ m → P m) → j ≤ m → P m
from_here j m P here later h = elim (Bool-cases (j == m)) [
  | inl y ↦ subst P ((==_iff _ _).0 y) here
  | inr y ↦ later (ground arith)
]

extend :
    (i j : ℕ) (buf : Block) (r : Search)
    → IsTaken i buf j
    → Searched i (j + 1) buf r
    → Searched i j buf r
extend i j buf next_block t s = λ m h k. from_here j m (IsTaken i buf) t (λ g. s m g k) h
extend i j buf passed t s = (s.0, λ m h k. from_here j m (IsTaken i buf) t (λ g. s.1 m g k) h)
extend i j buf (found_at k) t s = (
  omega (arith, s.0),
  s.1,
  s.2,
  s.3,
  s.4,
  λ m h l. from_here j m (IsTaken i buf) t (λ g. s.5 m g l) h,
)

pub search_block_lem :
    (n i j : ℕ) (buf : Block) → j + n ≡ ipb → Searched i j buf (search_block n i j buf)
unfolding search_block
search_block_lem zero i j buf e = λ m h k. absurd (omega arith)
search_block_lem (suc n) i j buf e = elim (Bool-cases (i == 0 && j == 0)) [
  | inl y ↦
      let z : j + i * ipb ≡ 0 = ground arith in
      rw y (
        extend i j buf _ (λ g h. absurd (omega arith))
          (search_block_lem n i (j + 1) buf (omega arith)))
  | inr y ↦ elim (Bool-cases (leb inode_num (j + i * ipb))) [
    | inl z ↦
        let big : inode_num ≤ j + i * ipb = ground arith in
        rw (y, z) (omega arith, λ m h k g l. absurd (omega arith))
    | inr z ↦ elim (Bool-cases (Inode.type (load_inode buf j) == 0)) [
      | inl t ↦
          let some_inode : 1 ≤ j + i * ipb = ground arith in
          rw (y, z, t)
            (omega arith, omega arith, some_inode, ground arith, t, λ m h l. absurd (omega arith))
      | inr t ↦
          rw (y, z, t)
            (extend i j buf _ (λ g h. t) (search_block_lem n i (j + 1) buf (omega arith)))
    ]
  ]
]
