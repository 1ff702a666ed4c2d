-- ===== src/Extent/Block/Bitmap.antt =====
-- The bitmap of free blocks: what allocation promises, and how far the bitmap reaches.
use cse_2014_undergrad.Prelude.{
  ℕ, zero, suc, ◌+◌, ◌<◌, ◌≤◌, ◌-◌, Bool, true, false, not, ◌&&◌, ◌||◌, ◌≡◌, inl, inr, refl, ap,
  ◌∙◌, arith, ◌==◌, if◌then◌else◌, Bool-cases, ◌⊎◌, ltb,
}
use cse_2014_undergrad.Extent.Block.{
  Block, Disk, block_num, inode_num, bblock, byte_of, bit_of, test_bit, set_bit, clear_bit,
  mark_used, alloc_from, alloc_block, free_block, BlockManager, first_data_block,
}
use cse_2014_undergrad.Extent.Block.Bits.{set_bit_lem, clear_bit_lem}
use cse_2014_undergrad.Extent.Block.Place.{
  used, covered_end, IsCovered, IsBytes, change, byte_of-covered, byte_of-beyond, bblock-lt,
  bit_of-lt, looks_used-covered, change-at, change-beyond, same_place, same_place_lem,
}

change-used :
    (d : Disk) (stack : Block) (f : ℕ → ℕ) (i j : ℕ)
    → IsCovered i
    → IsCovered j
    → used (change d stack (bblock i) (byte_of i) f) j ≡ (
        if bblock i == bblock j && byte_of i == byte_of j
        then test_bit (f (d (bblock j) (byte_of j))) (bit_of j)
        else used d j)
unfolding used
change-used d stack f i j hi hj =
    rw
      (change-at d stack (bblock i) (byte_of i) f (bblock j) (byte_of j) (bblock-lt i (omega arith))
        (byte_of-covered i hi) (byte_of-covered j hj))
      (if_move (bblock i == bblock j && byte_of i == byte_of j) _ _ (bit_of j))
  where
    if_move :
        (c : Bool) (x y k : ℕ)
        → test_bit (if c then x else y) k ≡ (if c then test_bit x k else test_bit y k)
    if_move true x y k = refl
    if_move false x y k = refl

set_place : (b y t u : Bool) → (if b && y then (t || u) else u) ≡ ((b && (y && t)) || u)
set_place b y t u = ground arith

clear_place : (b y t u : Bool) → (if b && y then (not t && u) else u) ≡ (not (b && (y && t)) && u)
clear_place b y t u = ground arith

if_true : (c u v w : Bool) → v ≡ w → (if c then v else u) ≡ (if c then w else u)
if_true c u v w e = ap (λ (x : Bool). if c then x else u) e

set_bit-used :
    (d : Disk) (i j : ℕ)
    → IsBytes d
    → test_bit (set_bit (d (bblock j) (byte_of j)) (bit_of i)) (bit_of j)
      ≡ (bit_of i == bit_of j || used d j)
unfolding used
set_bit-used d i j h =
    set_bit_lem (d (bblock j) (byte_of j)) (bit_of i) (bit_of j) (h _ _) (bit_of-lt i) (bit_of-lt j)

clear_bit-used :
    (d : Disk) (i j : ℕ)
    → IsBytes d
    → test_bit (clear_bit (d (bblock j) (byte_of j)) (bit_of i)) (bit_of j)
      ≡ (not (bit_of i == bit_of j) && used d j)
unfolding used
clear_bit-used d i j h =
    clear_bit_lem (d (bblock j) (byte_of j)) (bit_of i) (bit_of j) (h _ _) (bit_of-lt i)
      (bit_of-lt j)

same_bit :
    (i j : ℕ)
    → IsCovered i
    → IsCovered j
    → (bblock i == bblock j && (byte_of i == byte_of j && bit_of i == bit_of j)) ≡ (i == j)
unfolding same_place
same_bit i j hi hj = same_place_lem i j hi hj

mark_used-used :
    (d : Disk) (stack : Block) (i j : ℕ)
    → IsBytes d
    → IsCovered i
    → IsCovered j
    → used (mark_used d stack i) j ≡ (i == j || used d j)
unfolding mark_used
mark_used-used d stack i j h hi hj =
    change-used d stack (λ b. set_bit b (bit_of i)) i j hi hj
    ∙ if_true _ (used d j) _ _ (set_bit-used d i j h)
    ∙ set_place (bblock i == bblock j) (byte_of i == byte_of j) (bit_of i == bit_of j) (used d j)
    ∙ ap (λ (x : Bool). x || used d j) (same_bit i j hi hj)

-- Freeing a block that the bitmap covers clears its bit, and no other covered block's.
pub free_block-used :
    (stack : Block) (bm : BlockManager) (i j : ℕ)
    → IsBytes bm.disk
    → IsCovered i
    → IsCovered j
    → used (BlockManager.disk (free_block stack bm i)) j ≡ (not (i == j) && used bm.disk j)
unfolding free_block
free_block-used stack bm i j h hi hj =
    change-used bm.disk stack (λ b. clear_bit b (bit_of i)) i j hi hj
    ∙ if_true _ (used bm.disk j) _ _ (clear_bit-used bm.disk i j h)
    ∙ clear_place (bblock i == bblock j) (byte_of i == byte_of j) (bit_of i == bit_of j)
        (used bm.disk j)
    ∙ ap (λ (x : Bool). not x && used bm.disk j) (same_bit i j hi hj)

mark_used-beyond :
    (d : Disk) (stack : Block) (i : ℕ) → covered_end ≤ i → i < block_num → mark_used d stack i ≡ d
unfolding mark_used
mark_used-beyond d stack i h l =
    change-beyond d stack (bblock i) (byte_of i) (λ b. set_bit b (bit_of i)) (byte_of-beyond i h l)

-- Which block the loop finds: the first whose bit is clear.
alloc_from-first :
    (n i f : ℕ) (stack : Block) (d : Disk)
    → 3 ≤ i
    → i ≤ f
    → f < i + n
    → f < covered_end
    → used d f ≡ false
    → (k : ℕ) × (alloc_from n i stack d ≡ (k, mark_used d stack k))
      × (i ≤ k)
      × (k ≤ f)
      × (used d k ≡ false)
      × ((j : ℕ) → i ≤ j → j < k → used d j ≡ true)
unfolding alloc_from
alloc_from-first zero i f stack d a b c e h = absurd (omega arith)
alloc_from-first (suc n) i f stack d a b c e h = elim (Bool-cases (used d i)) [
  | inr u ↦ (
    i,
    rw (looks_used-covered d stack i (omega arith) ∙ u) refl,
    omega arith,
    omega arith,
    u,
    λ j l m. absurd (omega arith),
  )
  | inl u ↦
      let (k, p, q, r, s, t) =
        alloc_from-first n (i + 1) f stack d (omega arith) (ground arith) (omega arith) e h in
      (
        k,
        rw (looks_used-covered d stack i (omega arith) ∙ u) p,
        omega arith,
        r,
        s,
        λ j l m. ground (arith, t j),
      )
]

-- The sizes that `format` gives.
pub record IsFormatted (bm : BlockManager) : Type 0 where
  pub blocks : bm.nblocks ≡ block_num
  pub inodes : bm.ninodes ≡ inode_num

-- If a data block that the bitmap covers is free, `alloc_block` returns the first free one: a data
-- block, not in use before, every data block in front of it being in use. Afterwards it is in use, and
-- no other covered data block has changed.
pub alloc_block_lem :
    (stack : Block) (bm : BlockManager) (f j : ℕ)
    → IsFormatted bm
    → IsBytes bm.disk
    → first_data_block bm ≤ f
    → f < covered_end
    → used bm.disk f ≡ false
    → first_data_block bm ≤ j
    → j < covered_end
    → let k = (alloc_block stack bm).0 in
      (first_data_block bm ≤ k)
      × (k ≤ f)
      × (used bm.disk k ≡ false)
      × ((k ≤ j) ⊎ (used bm.disk j ≡ true))
      × (used (BlockManager.disk (alloc_block stack bm).1) j ≡ (k == j || used bm.disk j))
unfolding alloc_block
alloc_block_lem stack bm f j h b l c u lj cj =
    let start : first_data_block bm ≡ 353 = ground (arith, h.blocks, h.inodes) in
    let (k, p, q, r, s, t) =
      alloc_from-first (bm.nblocks - first_data_block bm) (first_data_block bm) f stack bm.disk
        (omega arith) l (omega (arith, h.blocks)) c u in
    rw p (
      q,
      r,
      s,
      before k j (t j (omega arith)),
      mark_used-used bm.disk stack k j b (omega arith) (omega arith),
    )
  where
    before : (k j : ℕ) {A : Type 0} → (j < k → A) → (k ≤ j) ⊎ A
    before k j f = elim (Bool-cases (ltb j k)) [
      | inl e ↦ inr (f (ground arith))
      | inr e ↦ inl (ground arith)
    ]

alloc_from-beyond :
    (n i : ℕ) (stack : Block) (d : Disk)
    → i + n ≤ block_num
    → covered_end ≤ (alloc_from n i stack d).0
    → (alloc_from n i stack d).1 ≡ d
unfolding alloc_from
alloc_from-beyond zero i stack d a h = refl
alloc_from-beyond (suc n) i stack d a h =
    ground (arith, alloc_from-beyond n (i + 1) stack d, mark_used-beyond d stack i)

-- A block that the bitmap does not cover is not recorded: when `alloc_block` returns one, the disk is
-- as it was, so the same call returns the same block again.
pub alloc_block-beyond :
    (stack : Block) (bm : BlockManager)
    → IsFormatted bm
    → covered_end ≤ (alloc_block stack bm).0
    → alloc_block stack (alloc_block stack bm).1 ≡ alloc_block stack bm
unfolding alloc_block
alloc_block-beyond stack bm h c =
    let same =
      alloc_from-beyond (bm.nblocks - first_data_block bm) (first_data_block bm) stack bm.disk
        (ground (arith, h.blocks, h.inodes)) c in
    ground (arith, same)
