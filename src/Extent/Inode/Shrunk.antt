-- ===== src/Extent/Inode/Shrunk.antt =====
-- A file that loses blocks: the branch of `write_file` in inode_manager.cc for fewer blocks than before.
use cse_2014_undergrad.Prelude.{
  ℕ, ◌-◌, ◌^◌, ◌<◌, ◌≤◌, true, false, Bool, ◌≡◌, ◌≢◌, refl, sym, ap, ◌∙◌, arith, if◌then◌else◌, ltb,
  leb, ◌&&◌, Bool-cases, inl, inr, update, update_ne,
}
use cse_2014_undergrad.Extent.Block.{block_num, block_size, Block, BlockManager, free_block}
use cse_2014_undergrad.Extent.Block.Room.{free_block-ne}
use cse_2014_undergrad.Extent.Inode.{ndirect, Inode, ceil, put_inode}
use cse_2014_undergrad.Extent.Inode.Records.{IsInode}
use cse_2014_undergrad.Extent.Inode.File.{Open, blk, piece, shrink_from, write_shrunk}
use cse_2014_undergrad.Extent.Inode.Rewrite.{IsLaidOut}
use cse_2014_undergrad.Extent.Inode.Shrink.{shrink_from-IsShrunk}
use cse_2014_undergrad.Extent.Inode.Stored.{IsStored}

-- The test for giving the block of addresses back, too
abbrev loses_last : ℕ → ℕ → Bool
loses_last bc bc_new = ltb ndirect bc && leb bc_new ndirect

-- What `write_shrunk` stores
abbrev pub shrunk : Block → BlockManager → Open → ℕ → ℕ → BlockManager × Open
shrunk stack bm f bc bc_new = shrink_from (bc - bc_new) bc_new stack bm f

abbrev pub shrunk_inode : Block → ℕ → BlockManager → Open → ℕ → ℕ → ℕ → Inode
shrunk_inode stack cur bm f size bc bc_new =
    let f1 = (shrunk stack bm f bc bc_new).1 in
    record f1.ino {
      blocks = if loses_last bc bc_new then update f1.ino.blocks ndirect 0 else f1.ino.blocks;
      mtime = cur;
      ctime = cur;
      size = size;
    }

abbrev pub shrunk_disk : Block → BlockManager → Open → ℕ → ℕ → BlockManager
shrunk_disk stack bm f bc bc_new =
    let p = shrunk stack bm f bc bc_new in
    if loses_last bc bc_new then free_block stack p.0 (Inode.blocks (Open.ino p.1) ndirect) else p.0

pub write_shrunk_lem :
    (stack : Block) (cur : ℕ) (bm : BlockManager) (inum : ℕ) (f : Open) (size bc bc_new : ℕ)
    → write_shrunk stack cur bm inum f size bc bc_new
      ≡ put_inode stack
          (shrunk_disk stack bm f bc bc_new)
          inum
          (shrunk_inode stack cur bm f size bc bc_new)
unfolding write_shrunk
write_shrunk_lem stack cur bm inum f size bc bc_new = refl

cleared-ne :
    (t : Bool) (blocks : ℕ → ℕ) (k : ℕ)
    → k ≢ ndirect
    → (if t then update blocks ndirect 0 else blocks) k ≡ blocks k
cleared-ne t blocks k n = elim (Bool-cases t) [
  | inl y ↦ rw y (update_ne blocks ndirect k 0 (λ e. n (sym e)))
  | inr y ↦ rw y refl
]

cleared-lt :
    (t : Bool) (blocks : ℕ → ℕ) (k : ℕ)
    → blocks k < 2 ^ 32
    → (if t then update blocks ndirect 0 else blocks) k < 2 ^ 32
cleared-lt t blocks k h = ground arith

freed-same :
    (stack : Block) (t : Bool) (bm : BlockManager) (last id : ℕ)
    → (t ≡ true → last < block_num)
    → 10 ≤ id
    → BlockManager.disk (if t then free_block stack bm last else bm) id ≡ bm.disk id
freed-same stack t bm last id h m = elim (Bool-cases t) [
  | inl y ↦ rw y (free_block-ne stack bm last id (h y) m)
  | inr y ↦ rw y refl
]

-- The addresses of a file whose inode has been replaced
blk-replaced :
    (f f1 : Open) (ino : Inode) (k : ℕ)
    → blk f1 k ≡ blk f k
    → (k < ndirect → ino.blocks k ≡ f1.ino.blocks k)
    → blk (record { ino = ino; ind = f.ind }) k ≡ blk f k
blk-replaced f f1 ino k e h = elim (Bool-cases (ltb k ndirect)) [
  | inl y ↦ rw y (h (ground (arith, y)) ∙ rw y at e)
  | inr y ↦ rw y refl
]

-- A file that loses blocks changes the bitmap only.
pub shrunk-same :
    (stack : Block) (bm : BlockManager) (f : Open) (size id : ℕ)
    → IsLaidOut f
    → ceil size block_size < ceil f.ino.size block_size
    → 10 ≤ id
    → BlockManager.disk
        (shrunk_disk stack bm f (ceil f.ino.size block_size) (ceil size block_size))
        id
      ≡ bm.disk id
shrunk-same stack bm f size id v l m =
    let bc = ceil f.ino.size block_size in
    let bc_new = ceil size block_size in
    let (bm1, f1) = shrunk stack bm f bc bc_new in
    let d =
      shrink_from-IsShrunk (bc - bc_new) bc_new stack bm f
        (λ k p q. (v.placed k (omega arith)).1) in
    freed-same stack (loses_last bc bc_new) bm1 (f1.ino.blocks ndirect) id
      (λ y. omega (arith, d.last, (v.last_placed (ground (arith, y))).1)) m
    ∙ d.same id m

pub shrunk-IsInode :
    (stack : Block) (cur : ℕ) (bm : BlockManager) (f : Open) (size : ℕ)
    → IsLaidOut f
    → IsInode f.ino
    → cur < 2 ^ 32
    → size < 2 ^ 32
    → ceil size block_size < ceil f.ino.size block_size
    → IsInode (shrunk_inode stack cur bm f size (ceil f.ino.size block_size) (ceil size block_size))
shrunk-IsInode stack cur bm f size v g c s l =
    let bc = ceil f.ino.size block_size in
    let bc_new = ceil size block_size in
    let t = loses_last bc bc_new in
    let (bm1, f1) = shrunk stack bm f bc bc_new in
    let d =
      shrink_from-IsShrunk (bc - bc_new) bc_new stack bm f
        (λ k p q. (v.placed k (omega arith)).1) in
    let g1 = d.valid g in
    record {
      type = g1.type;
      size = s;
      atime = g1.atime;
      mtime = c;
      ctime = c;
      blocks = λ n. cleared-lt t f1.ino.blocks n (g1.blocks n);
      none_beyond =
          λ n m. cleared-ne t f1.ino.blocks n (λ e. omega (arith, e)) ∙ g1.none_beyond n m;
    }

-- The blocks that are kept hold what they held.
pub shrunk-IsStored :
    (stack : Block) (cur : ℕ) (bm : BlockManager) (f : Open) (size : ℕ) (content : Block)
    → IsLaidOut f
    → IsInode f.ino
    → cur < 2 ^ 32
    → size < 2 ^ 32
    → ceil size block_size < ceil f.ino.size block_size
    → ((k j : ℕ)
        → k < ceil size block_size
        → j < block_size
        → bm.disk (blk f k) j ≡ piece content k j)
    → (ndirect < ceil f.ino.size block_size
        → (j : ℕ) → j < block_size
        → bm.disk (f.ino.blocks ndirect) j ≡ f.ind j)
    → IsStored
        (shrunk_disk stack bm f (ceil f.ino.size block_size) (ceil size block_size))
        (record {
          ino =
              shrunk_inode stack cur bm f size (ceil f.ino.size block_size) (ceil size block_size);
          ind = f.ind;
        })
        content
shrunk-IsStored stack cur bm f size content v g c s l h a =
    let bc = ceil f.ino.size block_size in
    let bc_new = ceil size block_size in
    let t = loses_last bc bc_new in
    let (bm1, f1) = shrunk stack bm f bc bc_new in
    let d =
      shrink_from-IsShrunk (bc - bc_new) bc_new stack bm f
        (λ k p q. (v.placed k (omega arith)).1) in
    let ino = shrunk_inode stack cur bm f size bc bc_new in
    let f' : Open = record { ino = ino; ind = f.ind } in
    let few = v.few in
    let same : (id : ℕ)
        → 10 ≤ id
        → BlockManager.disk (shrunk_disk stack bm f bc bc_new) id ≡ bm.disk id =
      λ id m. shrunk-same stack bm f size id v l m in
    let at : (k : ℕ) → k < bc_new → blk f' k ≡ blk f k = λ k m.
      blk-replaced f f1 ino k (d.kept k m)
        (λ q. cleared-ne t f1.ino.blocks k (λ e. omega (arith, e))) in
    let last : ndirect < bc_new → ino.blocks ndirect ≡ f.ino.blocks ndirect =
      λ m. (let z : t ≡ false = ground arith in rw z d.last) in
    record {
      valid = shrunk-IsInode stack cur bm f size v g c s l;
      few = omega arith;
      placed = λ k m. (
        omega (arith, at k m, (v.placed k (omega arith)).0),
        omega (arith, at k m, (v.placed k (omega arith)).1),
      );
      holds = λ k j m b.
          ap (λ id. BlockManager.disk (shrunk_disk stack bm f bc bc_new) id j) (at k m)
          ∙ ap (λ q. q j) (same (blk f k) (omega (arith, (v.placed k (omega arith)).0)))
          ∙ h k j m b;
      last_placed = λ m. (
        omega (arith, last m, (v.last_placed (omega arith)).0),
        omega (arith, last m, (v.last_placed (omega arith)).1),
      );
      last_holds = λ m j b.
          ap (λ id. BlockManager.disk (shrunk_disk stack bm f bc bc_new) id j) (last m)
          ∙ ap (λ q. q j)
              (same (f.ino.blocks ndirect) (omega (arith, (v.last_placed (omega arith)).0)))
          ∙ a (omega arith) j b;
    }

-- The kind of the file, and the number of blocks of the disk
pub shrunk-kept :
    (stack : Block) (bm : BlockManager) (f : Open) (size : ℕ)
    → IsLaidOut f
    → ceil size block_size < ceil f.ino.size block_size
    → let p = shrunk stack bm f (ceil f.ino.size block_size) (ceil size block_size) in
      (Inode.type (Open.ino p.1) ≡ f.ino.type)
      × (BlockManager.nblocks
            (shrunk_disk stack bm f (ceil f.ino.size block_size) (ceil size block_size))
          ≡ bm.nblocks)
unfolding free_block
shrunk-kept stack bm f size v l =
    let bc = ceil f.ino.size block_size in
    let bc_new = ceil size block_size in
    let d =
      shrink_from-IsShrunk (bc - bc_new) bc_new stack bm f
        (λ k p q. (v.placed k (omega arith)).1) in
    (
      d.type,
      elim (Bool-cases (loses_last bc bc_new)) [ inl y ↦ rw y d.nblocks | inr y ↦ rw y d.nblocks ],
    )
