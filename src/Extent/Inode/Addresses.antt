-- ===== src/Extent/Inode/Addresses.antt =====
-- The addresses of a file in memory: the macro `BLK` of inode_manager.cc, read and assigned to.
use cse_2014_undergrad.Prelude.{
  ℕ, ◌+◌, ◌-◌, ◌*◌, ◌^◌, ◌<◌, ◌≤◌, true, false, ◌≡◌, ◌≢◌, ◌⊎◌, refl, ap, ◌∙◌, arith, ltb, leb, ◌&&◌,
  Bool-cases, inl, inr, update_ne, update_self,
}
use cse_2014_undergrad.Extent.Block.{Block}
use cse_2014_undergrad.Extent.Inode.{ndirect, Inode, load32_at, byte_at}
use cse_2014_undergrad.Extent.Inode.Records.{IsInode}
use cse_2014_undergrad.Extent.Inode.File.{Open, blk, store_number, set_blk}

load32_at-store_number :
    (buf : Block) (o v : ℕ) → v < 2 ^ 32 → load32_at (store_number buf o v) o ≡ v
load32_at-store_number buf o v h =
    let at : (j : ℕ) → j < 4 → store_number buf o v (o + j) ≡ byte_at v j = λ j l.
      let e : o + j - o ≡ j = omega arith in
      let a : leb o (o + j) && ltb (o + j) (o + 4) ≡ true = ground arith in rw (a, e) refl in
    let z : store_number buf o v o ≡ byte_at v 0 =
      ap (store_number buf o v) (omega arith) ∙ at 0 (omega arith) in
    omega (arith, z, at 1 (omega arith), at 2 (omega arith), at 3 (omega arith))

load32_at-store_number_ne :
    (buf : Block) (o p v : ℕ)
    → (o + 4 ≤ p) ⊎ (p + 4 ≤ o)
    → load32_at (store_number buf o v) p ≡ load32_at buf p
load32_at-store_number_ne buf o p v h =
    let at : (j : ℕ) → j < 4 → store_number buf o v (p + j) ≡ buf (p + j) =
      λ j l. let a : leb o (p + j) && ltb (p + j) (o + 4) ≡ false = ground arith in rw a refl in
    let z : store_number buf o v p ≡ buf p =
      ap (store_number buf o v) (omega arith) ∙ at 0 (omega arith) ∙ ap buf (omega arith) in
    omega (arith, z, at 1 (omega arith), at 2 (omega arith), at 3 (omega arith))

apart :
    (i k : ℕ)
    → i ≢ k
    → ndirect ≤ i
    → ndirect ≤ k
    → (4 * (i - ndirect) + 4 ≤ 4 * (k - ndirect)) ⊎ (4 * (k - ndirect) + 4 ≤ 4 * (i - ndirect))
apart i k n a b = elim (Bool-cases (ltb i k)) [
  | inl y ↦ inl (ground (arith, y))
  | inr y ↦ inr (ground (arith, y))
]

pub blk-set_blk_self : (f : Open) (i v : ℕ) → v < 2 ^ 32 → blk (set_blk f i v) i ≡ v
blk-set_blk_self f i v h = elim (Bool-cases (ltb i ndirect)) [
  | inl y ↦ rw y (update_self f.ino.blocks i v)
  | inr y ↦ rw y (load32_at-store_number f.ind (4 * (i - ndirect)) v h)
]

pub blk-set_blk_ne : (f : Open) (i k v : ℕ) → i ≢ k → blk (set_blk f i v) k ≡ blk f k
blk-set_blk_ne f i k v n = elim (Bool-cases (ltb i ndirect)) [
  | inl y ↦ elim (Bool-cases (ltb k ndirect)) [
    | inl z ↦ rw (y, z) (update_ne f.ino.blocks i k v n)
    | inr z ↦ rw (y, z) refl
  ]
  | inr y ↦ elim (Bool-cases (ltb k ndirect)) [
    | inl z ↦ rw (y, z) refl
    | inr z ↦
        rw (y, z)
          (load32_at-store_number_ne f.ind (4 * (i - ndirect)) (4 * (k - ndirect)) v
            (apart i k n (ground (arith, y)) (ground (arith, z))))
  ]
]

-- No assignment to an address of contents is one to that of the block of addresses.
pub set_blk-last :
    (f : Open) (i v : ℕ) → Inode.blocks (Open.ino (set_blk f i v)) ndirect ≡ f.ino.blocks ndirect
set_blk-last f i v = elim (Bool-cases (ltb i ndirect)) [
  | inl y ↦ rw y (update_ne f.ino.blocks i ndirect v (λ e. ground (arith, y)))
  | inr y ↦ rw y refl
]

pub set_blk-IsInode :
    (f : Open) (i v : ℕ) → v < 2 ^ 32 → IsInode f.ino → IsInode (Open.ino (set_blk f i v))
set_blk-IsInode f i v h g = elim (Bool-cases (ltb i ndirect)) [
  | inl y ↦ rw y (record {
    type = g.type;
    size = g.size;
    atime = g.atime;
    mtime = g.mtime;
    ctime = g.ctime;
    blocks = λ n. ground (arith, g.blocks n);
    none_beyond = λ n l. ground (arith, y, g.none_beyond n l);
  })
  | inr y ↦ rw y g
]

pub set_blk-type : (f : Open) (i v : ℕ) → Inode.type (Open.ino (set_blk f i v)) ≡ f.ino.type
set_blk-type f i v = elim (Bool-cases (ltb i ndirect)) [ inl y ↦ rw y refl | inr y ↦ rw y refl ]
