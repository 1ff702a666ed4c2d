-- ===== src/Extent/Inode/Table.antt =====
-- The inode table: what `put_inode`, `alloc_inode` and `free_inode` do to the inodes on the disk.
use cse_2014_undergrad.Prelude.{
  ℕ, ◌+◌, ◌*◌, ◌%◌, ◌^◌, ◌<◌, false, none, some, ◌≡◌, ◌≢◌, refl, sym, ap, ◌∙◌, arith, if◌then◌else◌,
  leb, ◌==◌, ==_iff, Bool-cases, inl, inr,
}
use cse_2014_undergrad.Extent.Block.{
  block_num, block_size, inode_num, inode_sz, ipb, iblock, Block, Disk, read_block, write_block,
  BlockManager,
}
use cse_2014_undergrad.Extent.Inode.{
  ndirect, Inode, load32_at, load_inode, store_inode, get_inode, put_inode,
}
use cse_2014_undergrad.Extent.Block.Place.{IsBytes}
use cse_2014_undergrad.Extent.Inode.Records.{
  IsInode, load_inode-agree, load_inode-store_inode, load_inode-beside,
}

-- The superblock that the constructor makes.
abbrev pub IsFormatted : BlockManager → Type 0
IsFormatted bm = bm.nblocks ≡ block_num

-- The inode `inum` on the disk, in use or not
unfoldable pub inode_of : BlockManager → ℕ → Inode
inode_of bm inum = load_inode (bm.disk (iblock inum bm.nblocks)) (inum % ipb)

pub read_block-lt :
    (d : Disk) (id : ℕ) (stack : Block) (i : ℕ)
    → id < block_num
    → i < block_size
    → read_block d id stack i ≡ d id i
unfolding read_block
read_block-lt d id stack i h k = ground arith

pub write_block-lt :
    (d : Disk) (id : ℕ) (buf : Block) (i : ℕ)
    → id < block_num
    → i < block_size
    → write_block d id buf id i ≡ buf i
unfolding write_block
write_block-lt d id buf i h k = ground arith

pub write_block-ne :
    (d : Disk) (id : ℕ) (buf : Block) (other : ℕ)
    → id ≢ other
    → write_block d id buf other ≡ d other
unfolding write_block
write_block-ne d id buf other h = ground arith

pub iblock-lt : (inum : ℕ) → inum < inode_num → iblock inum block_num < block_num
iblock-lt inum h = omega arith

in_block : (inum j : ℕ) → j < inode_sz → inum % ipb * inode_sz + j < block_size
in_block inum j h = omega arith

-- `get_inode` gives the inode on the disk, if it is in use.
pub get_inode_lem :
    (stack : Block) (bm : BlockManager) (inum : ℕ)
    → IsFormatted bm
    → inum < inode_num
    → get_inode stack bm inum
      ≡ (if Inode.type (inode_of bm inum) == 0 then none else some (inode_of bm inum))
unfolding get_inode inode_of
get_inode_lem stack bm inum f h =
    let y : leb inode_num inum ≡ false = ground arith in
    let e : load_inode (read_block bm.disk (iblock inum bm.nblocks) stack) (inum % ipb)
        ≡ inode_of bm inum =
      load_inode-agree (read_block bm.disk (iblock inum bm.nblocks) stack)
        (bm.disk (iblock inum bm.nblocks)) (inum % ipb) (inum % ipb)
        (λ j k.
          read_block-lt bm.disk (iblock inum bm.nblocks) stack _ (omega (arith, f))
            (in_block inum j k)) in
    rw y (ap (λ ino. if Inode.type ino == 0 then none else some ino) e)

-- The block of the inode `a` after `put_inode`, where it holds bytes of inodes
put_inode-at :
    (stack : Block) (bm : BlockManager) (a : ℕ) (ino : Inode) (l : ℕ)
    → IsFormatted bm
    → a < inode_num
    → l < ipb
    → load_inode (BlockManager.disk (put_inode stack bm a ino) (iblock a bm.nblocks)) l
      ≡ load_inode (store_inode (read_block bm.disk (iblock a bm.nblocks) stack) (a % ipb) ino) l
unfolding put_inode
put_inode-at stack bm a ino l f h k =
    load_inode-agree _ _ l l
      (λ j m. write_block-lt bm.disk (iblock a bm.nblocks) _ _ (omega (arith, f)) (omega arith))

put_inode_self :
    (stack : Block) (bm : BlockManager) (a : ℕ) (ino : Inode)
    → IsFormatted bm
    → IsInode ino
    → a < inode_num
    → inode_of (put_inode stack bm a ino) a ≡ ino
unfolding put_inode inode_of
put_inode_self stack bm a ino f v h =
    put_inode-at stack bm a ino (a % ipb) f h (omega arith)
    ∙ load_inode-store_inode _ (a % ipb) ino v

put_inode_other :
    (stack : Block) (bm : BlockManager) (a : ℕ) (ino : Inode) (b : ℕ)
    → IsFormatted bm
    → a < inode_num
    → b < inode_num
    → a ≢ b
    → inode_of (put_inode stack bm a ino) b ≡ inode_of bm b
unfolding put_inode inode_of
put_inode_other stack bm a ino b f ha hb n =
    elim (Bool-cases (iblock a bm.nblocks == iblock b bm.nblocks)) [
      | inl y ↦
          let e : iblock a bm.nblocks ≡ iblock b bm.nblocks = (==_iff _ _).0 y in
          let m : a % ipb ≢ b % ipb = λ r. n (omega (arith, f, e)) in
          let buf = read_block bm.disk (iblock a bm.nblocks) stack in
          ap (λ id. load_inode (BlockManager.disk (put_inode stack bm a ino) id) (b % ipb)) (sym e)
          ∙ put_inode-at stack bm a ino (b % ipb) f ha (omega arith)
          ∙ load_inode-beside buf (a % ipb) (b % ipb) ino m
          ∙ load_inode-agree buf (bm.disk (iblock a bm.nblocks)) (b % ipb) (b % ipb) (λ j k.
            read_block-lt bm.disk (iblock a bm.nblocks) stack _ (omega (arith, f)) (omega arith))
          ∙ ap (λ id. load_inode (bm.disk id) (b % ipb)) e
      | inr y ↦
          let m : iblock a bm.nblocks ≢ iblock b bm.nblocks = ground arith in
          ap (λ c. load_inode c (b % ipb))
            (write_block-ne bm.disk (iblock a bm.nblocks) _ (iblock b bm.nblocks) m)
    ]

-- What `put_inode` stores is the inode from then on, and every other inode is as before.
pub put_inode_lem :
    (stack : Block) (bm : BlockManager) (a : ℕ) (ino : Inode) (b : ℕ)
    → IsFormatted bm
    → IsInode ino
    → a < inode_num
    → b < inode_num
    → inode_of (put_inode stack bm a ino) b ≡ (if a == b then ino else inode_of bm b)
put_inode_lem stack bm a ino b f v ha hb = elim (Bool-cases (a == b)) [
  | inl y ↦
      let e : a ≡ b = (==_iff _ _).0 y in
      rw y (
        ap (λ k. inode_of (put_inode stack bm a ino) k) (sym e)
        ∙ put_inode_self stack bm a ino f v ha)
  | inr y ↦ let n : a ≢ b = ground arith in rw y (put_inode_other stack bm a ino b f ha hb n)
]

-- Bytes of the disk make numbers that fit the fields of an inode.
pub inode_of-IsInode : (bm : BlockManager) (inum : ℕ) → IsBytes bm.disk → IsInode (inode_of bm inum)
unfolding inode_of load_inode
inode_of-IsInode bm inum h =
    let buf = bm.disk (iblock inum bm.nblocks) in
    let o : ℕ = inum % ipb * inode_sz in
    let number : (p : ℕ) → load32_at buf p < 2 ^ 32 = λ p. omega (
      arith,
      h (iblock inum bm.nblocks) p,
      h (iblock inum bm.nblocks) (p + 1),
      h (iblock inum bm.nblocks) (p + 2),
      h (iblock inum bm.nblocks) (p + 3),
    ) in
    record {
      type = omega (arith, h (iblock inum bm.nblocks) o, h (iblock inum bm.nblocks) (o + 1));
      size = number (o + 4);
      atime = number (o + 8);
      mtime = number (o + 12);
      ctime = number (o + 16);
      blocks = λ n. elim (Bool-cases (leb n ndirect)) [
        | inl y ↦ rw y (number (o + (20 + 4 * n)))
        | inr y ↦ rw y (omega arith)
      ];
      none_beyond = λ n k. let y : leb n ndirect ≡ false = ground arith in rw y refl;
    }

-- An inode that is in use is what `get_inode` gives.
pub get_inode_used :
    (stack : Block) (bm : BlockManager) (inum : ℕ) (ino : Inode)
    → IsFormatted bm
    → inum < inode_num
    → inode_of bm inum ≡ ino
    → (ino.type == 0) ≡ false
    → get_inode stack bm inum ≡ some ino
get_inode_used stack bm inum ino f h e t =
    get_inode_lem stack bm inum f h
    ∙ ap (λ i. if Inode.type i == 0 then none else some i) e
    ∙ rw t refl
