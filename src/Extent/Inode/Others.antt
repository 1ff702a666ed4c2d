-- ===== src/Extent/Inode/Others.antt =====
-- A write to one file leaves the others as they are: `write_file` and `read_file` of inode_manager.cc.
use cse_2014_undergrad.Prelude.{
  ℕ, suc, ◌-◌, ◌%◌, ◌^◌, ◌<◌, ◌≤◌, false, ◌≡◌, ◌≢◌, refl, sym, ap, ◌∙◌, arith, if◌then◌else◌, ◌==◌,
  inl, inr,
}
use cse_2014_undergrad.Extent.Block.{
  block_num, block_size, inode_num, ipb, iblock, Block, BlockManager,
}
use cse_2014_undergrad.Extent.Block.Place.{IsBytes}
use cse_2014_undergrad.Extent.Block.Bitmap.{IsFormatted}
use cse_2014_undergrad.Extent.Block.Room.{IsRoom}
use cse_2014_undergrad.Extent.Inode.{ndirect, Inode, ceil, load_inode, put_inode}
use cse_2014_undergrad.Extent.Inode.Table.{inode_of, get_inode_used, put_inode_lem}
use cse_2014_undergrad.Extent.Inode.File.{Open, blk, open_file, read_file, write_file}
use cse_2014_undergrad.Extent.Inode.Rewrite.{blk-kept, put_inode_keeps, read_file_holds}
use cse_2014_undergrad.Extent.Inode.Head.{IsOwned, IsForeign}
use cse_2014_undergrad.Extent.Inode.Storage.{contents, contents-piece}
use cse_2014_undergrad.Extent.Inode.Written.{write_file-IsWritten}

-- Two files have no block in common, blocks of addresses included.
pub record IsApart (f g : Open) : Type 0 where
  pub blocks :
      (k l : ℕ)
      → k < ceil f.ino.size block_size
      → l < ceil g.ino.size block_size
      → blk f k ≢ blk g l
  pub last :
      (k : ℕ)
      → k < ceil f.ino.size block_size
      → ndirect < ceil g.ino.size block_size
      → blk f k ≢ g.ino.blocks ndirect
  pub last_of :
      (l : ℕ)
      → ndirect < ceil f.ino.size block_size
      → l < ceil g.ino.size block_size
      → f.ino.blocks ndirect ≢ blk g l
  pub lasts :
      ndirect < ceil f.ino.size block_size
      → ndirect < ceil g.ino.size block_size
      → f.ino.blocks ndirect ≢ g.ino.blocks ndirect

module _ (bm : BlockManager) (f g : Open) (o : IsOwned bm g) (a : IsApart f g) where
  block-IsForeign : (l : ℕ) → l < ceil g.ino.size block_size → IsForeign bm f (blk g l)
  block-IsForeign l h = record {
    behind = omega (arith, (o.layout.placed l h).0);
    blocks = λ k m. a.blocks k l m h;
    last = λ m. a.last_of l m h;
    kind = inr (((o.layout.placed l h).0, (o.recorded l h).0), (o.recorded l h).1);
  }

  last-IsForeign : ndirect < ceil g.ino.size block_size → IsForeign bm f (g.ino.blocks ndirect)
  last-IsForeign h = record {
    behind = omega (arith, (o.layout.last_placed h).0);
    blocks = λ k m. a.last k m h;
    last = λ m. a.lasts m h;
    kind = inr (((o.layout.last_placed h).0, (o.last_recorded h).0), (o.last_recorded h).1);
  }

-- The blocks of inodes are foreign to every file.
inodes-IsForeign :
    (bm : BlockManager) (f : Open) (other : ℕ)
    → IsOwned bm f
    → other < inode_num
    → IsForeign bm f (iblock other block_num)
inodes-IsForeign bm f other o h = record {
  behind = omega arith;
  blocks = λ k m e. omega (arith, e, h, (o.layout.placed k m).0);
  last = λ m e. omega (arith, e, h, (o.layout.last_placed m).0);
  kind = inl (omega arith);
}

inode_of-agree :
    (bm new : BlockManager) (other : ℕ)
    → new.nblocks ≡ block_num
    → bm.nblocks ≡ block_num
    → new.disk (iblock other block_num) ≡ bm.disk (iblock other block_num)
    → inode_of new other ≡ inode_of bm other
unfolding inode_of
inode_of-agree bm new other f f' h =
    ap (λ n. load_inode (new.disk (iblock other n)) (other % ipb)) f
    ∙ ap (λ b. load_inode b (other % ipb)) h
    ∙ ap (λ n. load_inode (bm.disk (iblock other n)) (other % ipb)) (sym f')

-- What a read of a file gives is decided by its inode and its blocks.
read_file-agree :
    (stack : Block) (cur : ℕ) (bm new : BlockManager) (other : ℕ)
    → bm.nblocks ≡ block_num
    → new.nblocks ≡ block_num
    → other < inode_num
    → (Inode.type (inode_of bm other) == 0) ≡ false
    → IsOwned bm (open_file stack bm (inode_of bm other))
    → inode_of new other ≡ inode_of bm other
    → ((k : ℕ)
        → k < ceil (Inode.size (inode_of bm other)) block_size
        → new.disk (blk (open_file stack bm (inode_of bm other)) k)
          ≡ bm.disk (blk (open_file stack bm (inode_of bm other)) k))
    → (ndirect < ceil (Inode.size (inode_of bm other)) block_size
        → new.disk (Inode.blocks (inode_of bm other) ndirect)
          ≡ bm.disk (Inode.blocks (inode_of bm other) ndirect))
    → (read_file stack cur new other).0 ≡ (read_file stack cur bm other).0
unfolding open_file
read_file-agree stack cur bm new other f f' h t o stored same last =
    let oth = inode_of bm other in
    let v = o.layout in
    let kept : (k : ℕ)
        → k < ceil oth.size block_size
        → blk (open_file stack new oth) k ≡ blk (open_file stack bm oth) k =
      λ k m.
        blk-kept stack stack bm new oth oth k refl refl v.few m
          (λ long. (λ j l. ap (λ q. q j) (last long), (v.last_placed long).1)) in
    read_file_holds stack cur new other oth (contents stack bm oth)
      (get_inode_used stack new other oth f' h stored t) t
      (λ k m. omega (arith, kept k m, (v.placed k m).1))
      (λ k j m l.
        ap (λ id. new.disk id j) (kept k m)
        ∙ ap (λ q. q j) (same k m)
        ∙ contents-piece stack bm oth k j l)
    ∙ sym (
        read_file_holds stack cur bm other oth (contents stack bm oth)
          (get_inode_used stack bm other oth f h refl t) t (λ k m. (v.placed k m).1)
          (λ k j m l. contents-piece stack bm oth k j l))

-- On a disk with the superblock of the constructor, two files in use own their blocks and have none in
-- common. One is written with bytes, with more, fewer or as many blocks as it has; where it gets more, as
-- many blocks are free, and one for addresses. The time and the size fit 32 bits. Then a read of the other
-- gives what it gave before.
pub read_file-write_file_other :
    (stack stack' : Block) (cur cur' : ℕ) (bm : BlockManager) (inum other : ℕ) (content : Block)
    (size : ℕ)
    → IsFormatted bm
    → IsBytes bm.disk
    → ((p : ℕ) → content p < 256)
    → inum < inode_num
    → other < inode_num
    → inum ≢ other
    → (Inode.type (inode_of bm inum) == 0) ≡ false
    → (Inode.type (inode_of bm other) == 0) ≡ false
    → IsOwned bm (open_file stack bm (inode_of bm inum))
    → IsOwned bm (open_file stack' bm (inode_of bm other))
    → IsApart (open_file stack bm (inode_of bm inum)) (open_file stack' bm (inode_of bm other))
    → (ceil (Inode.size (inode_of bm inum)) block_size < ceil size block_size
        → IsRoom
            (suc (ceil size block_size - ceil (Inode.size (inode_of bm inum)) block_size))
            bm.disk)
    → cur < 2 ^ 32
    → size < 2 ^ 32
    → (read_file stack' cur' (write_file stack cur bm inum content size) other).0
      ≡ (read_file stack' cur' bm other).0
unfolding put_inode open_file
read_file-write_file_other stack stack' cur cur' bm inum other content size f b p h h' n t t' o o' a
      r c s =
    let w = write_file-IsWritten stack cur bm inum content size f b h t o c s p r in
    let g = open_file stack bm (inode_of bm inum) in
    let q = open_file stack' bm (inode_of bm other) in
    let mid = w.mid in
    let new = put_inode stack mid inum w.ino in
    let ne : (inum == other) ≡ false = ground arith in
    let unchanged : (id : ℕ) → 353 ≤ id → IsForeign bm g id → new.disk id ≡ bm.disk id =
      λ id l z. put_inode_keeps stack mid inum w.ino id w.nblocks h l ∙ w.same id z in
    ap (λ m. (read_file stack' cur' m other).0) w.stored
    ∙ read_file-agree stack' cur' bm new other f.blocks w.nblocks h' t' o'
        (put_inode_lem stack mid inum w.ino other w.nblocks w.valid h h'
          ∙ ap (λ x. if x then w.ino else inode_of mid other) ne
          ∙ inode_of-agree bm mid other w.nblocks f.blocks
              (w.same (iblock other block_num) (inodes-IsForeign bm g other o h')))
        (λ k m. unchanged (blk q k) (o'.layout.placed k m).0 (block-IsForeign bm g q o' a k m))
        (λ m.
          unchanged (q.ino.blocks ndirect) (o'.layout.last_placed m).0
            (last-IsForeign bm g q o' a m))
