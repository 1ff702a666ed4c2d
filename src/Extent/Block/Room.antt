-- ===== src/Extent/Block/Room.antt =====
-- Allocation while there is room: `alloc_block` and `free_block` of inode_manager.cc, by the number of free blocks.
use cse_2014_undergrad.Prelude.{
  ℕ, zero, suc, ◌+◌, ◌-◌, ◌<◌, ◌≤◌, false, ◌||◌, ◌≡◌, ◌≢◌, refl, ap, ◌∙◌, arith, if◌then◌else◌,
  ◌==◌, Bool-cases, inl, inr,
}
use cse_2014_undergrad.Extent.Block.{
  Block, Disk, block_num, bblock, byte_of, bit_of, read_block, write_block, set_bit, clear_bit,
  looks_used, mark_used, alloc_from, alloc_block, free_block, BlockManager, first_data_block,
}
use cse_2014_undergrad.Extent.Block.Bits.{set_bit-lt}
use cse_2014_undergrad.Extent.Block.Place.{used, covered_end, IsBytes, change, bit_of-lt}
use cse_2014_undergrad.Extent.Block.Bitmap.{IsFormatted, alloc_block_lem}

-- The number of free blocks among `n` from `i` on
unfoldable pub count_free : ℕ → ℕ → Disk → ℕ
count_free zero i d = 0
count_free (suc n) i d = (if used d i then 0 else 1) + count_free n (i + 1) d

-- The data blocks of which the bitmap keeps a record
abbrev pub IsRecorded : ℕ → Type 0
IsRecorded id = (353 ≤ id) × (id < covered_end)

-- At least `n` of these are free.
abbrev pub IsRoom : ℕ → Disk → Type 0
IsRoom n d = n ≤ count_free 3746 353 d

-- More blocks, more room
pub count_free_mono : (m n i : ℕ) (d : Disk) → m ≤ n → count_free m i d ≤ count_free n i d
unfolding count_free
count_free_mono zero n i d h = omega arith
count_free_mono (suc m) zero i d h = absurd (omega arith)
count_free_mono (suc m) (suc n) i d h = omega (arith, count_free_mono m n (i + 1) d (omega arith))

free_found :
    (n i : ℕ) (d : Disk)
    → 1 ≤ count_free n i d
    → (f : ℕ) × (i ≤ f) × (f < i + n) × (used d f ≡ false)
unfolding count_free
free_found zero i d h = absurd (omega arith)
free_found (suc n) i d h = elim (Bool-cases (used d i)) [
  | inl u ↦
      (let (f, a, b, c) = free_found n (i + 1) d (ground (arith, u)) in
        (f, omega arith, omega arith, c))
  | inr u ↦ (i, omega arith, omega arith, u)
]

pub count_free-agree :
    (n i : ℕ) (d d' : Disk)
    → ((j : ℕ) → i ≤ j → j < i + n → used d' j ≡ used d j)
    → count_free n i d' ≡ count_free n i d
unfolding count_free
count_free-agree zero i d d' h = refl
count_free-agree (suc n) i d d' h =
    let q = count_free-agree n (i + 1) d d' (λ j a b. h j (omega arith) (omega arith)) in
    rw (h i (omega arith) (omega arith), q) refl

-- One more block in use is one less that is free.
count_free-mark :
    (n i k : ℕ) (d d' : Disk)
    → ((j : ℕ) → i ≤ j → j < i + n → used d' j ≡ (k == j || used d j))
    → count_free n i d ≤ count_free n i d' + 1
unfolding count_free
count_free-mark zero i k d d' h = omega arith
count_free-mark (suc n) i k d d' h = elim (Bool-cases (k == i)) [
  | inl y ↦
      (let q = count_free-agree n (i + 1) d d' (λ j a b.
          let z : (k == j) ≡ false = ground (arith, y) in
          h j (omega arith) (omega arith) ∙ ap (λ t. t || used d j) z) in
        ground (arith, q))
  | inr y ↦
      (let q = count_free-mark n (i + 1) k d d' (λ j a b. h j (omega arith) (omega arith)) in
        let z : used d' i ≡ used d i =
          h i (omega arith) (omega arith) ∙ ap (λ t. t || used d i) y in
        rw z (omega (arith, q)))
]

change-IsBytes :
    (d : Disk) (stack : Block) (b y : ℕ) (f : ℕ → ℕ)
    → IsBytes d
    → ((x : ℕ) → x < 256 → f x < 256)
    → IsBytes (change d stack b y f)
unfolding read_block write_block
change-IsBytes d stack b y f h g id i = ground (arith, h id i, h b i, g (d b y) (h b y))

change-ne :
    (d : Disk) (stack : Block) (b y : ℕ) (f : ℕ → ℕ) (id : ℕ)
    → b ≢ id
    → change d stack b y f id ≡ d id
unfolding write_block
change-ne d stack b y f id n = ground arith

alloc_from-change :
    (n i : ℕ) (stack : Block) (d : Disk)
    → i + n ≤ block_num
    → IsBytes d
    → IsBytes (alloc_from n i stack d).1
      × ((id : ℕ) → 10 ≤ id → (alloc_from n i stack d).1 id ≡ d id)
unfolding alloc_from mark_used
alloc_from-change zero i stack d l h = (h, λ id m. refl)
alloc_from-change (suc n) i stack d l h = elim (Bool-cases (looks_used d stack i)) [
  | inl u ↦ rw u (alloc_from-change n (i + 1) stack d (omega arith) h)
  | inr u ↦ rw u (
    change-IsBytes d stack (bblock i) (byte_of i) (λ b. set_bit b (bit_of i)) h
        (λ x m. set_bit-lt x (bit_of i) m (bit_of-lt i)),
    λ id m.
        change-ne d stack (bblock i) (byte_of i) (λ b. set_bit b (bit_of i)) id
          (λ e. absurd (omega (arith, e))),
  )
]

-- While the disk has room, a block is allocated: a data block that was free, and the only one whose bit
-- changes. The data and the inodes stay as they are.
pub alloc_block-IsRoom :
    (stack : Block) (bm : BlockManager) (n : ℕ)
    → IsFormatted bm
    → IsBytes bm.disk
    → IsRoom (suc n) bm.disk
    → let k = (alloc_block stack bm).0 in
      let d = BlockManager.disk (alloc_block stack bm).1 in
      IsRecorded k
      × (used bm.disk k ≡ false)
      × ((j : ℕ) → IsRecorded j → used d j ≡ (k == j || used bm.disk j))
      × IsRoom n d
      × IsBytes d
      × ((id : ℕ) → 10 ≤ id → d id ≡ bm.disk id)
unfolding alloc_block
alloc_block-IsRoom stack bm n h b r =
    let start : first_data_block bm ≡ 353 = ground (arith, h.blocks, h.inodes) in
    let (f, x, y, z) = free_found 3746 353 bm.disk (omega arith) in
    let lem = λ (j : ℕ) (l : 353 ≤ j) (m : j < covered_end).
      alloc_block_lem stack bm f j h b (omega (arith, start)) (omega arith) z (omega (arith, start))
        m in
    let (p, q, u, v, w) = lem 353 (omega arith) (omega arith) in
    let others =
      alloc_from-change (bm.nblocks - first_data_block bm) (first_data_block bm) stack bm.disk
        (omega (arith, start, h.blocks)) b in
    (
      (omega (arith, p, start), omega (arith, q)),
      u,
      λ j (l, m). (lem j l m).4,
      omega (arith, count_free-mark 3746 353 _ bm.disk _ (λ j l m. (lem j l m).4)),
      others.0,
      others.1,
    )

-- A data block that is given back, or written, leaves the others as they are.
pub free_block-ne :
    (stack : Block) (bm : BlockManager) (i id : ℕ)
    → i < block_num
    → 10 ≤ id
    → BlockManager.disk (free_block stack bm i) id ≡ bm.disk id
unfolding free_block
free_block-ne stack bm i id h m =
    change-ne bm.disk stack (bblock i) (byte_of i) (λ b. clear_bit b (bit_of i)) id
      (λ e. absurd (omega (arith, e)))

pub write_block-used :
    (d : Disk) (id : ℕ) (buf : Block) (j : ℕ)
    → 10 ≤ id
    → j < covered_end
    → used (write_block d id buf) j ≡ used d j
unfolding used write_block
write_block-used d id buf j h m = ground arith

pub write_block-IsRoom :
    (d : Disk) (id : ℕ) (buf : Block) (n : ℕ)
    → 10 ≤ id
    → IsRoom n d
    → IsRoom n (write_block d id buf)
write_block-IsRoom d id buf n h r = omega (
  arith,
  count_free-agree 3746 353 d (write_block d id buf)
      (λ j a b. write_block-used d id buf j h (omega arith)),
)

pub write_block-IsBytes :
    (d : Disk) (id : ℕ) (buf : Block)
    → IsBytes d
    → ((i : ℕ) → buf i < 256)
    → IsBytes (write_block d id buf)
unfolding write_block
write_block-IsBytes d id buf h g k i = ground (arith, h k i, g i)
