-- ===== src/Extent/Inode/Storage.antt =====
-- What is written to a file that keeps its number of blocks is read back, and no other file is changed.
use cse_2014_undergrad.Prelude.{
  ℕ, ◌+◌, ◌*◌, ◌/◌, ◌%◌, ◌^◌, ◌<◌, ◌≤◌, false, some, ◌≡◌, ◌≢◌, refl, sym, ap, ◌∙◌, arith,
  if◌then◌else◌, ◌==◌, ==-refl,
}
use cse_2014_undergrad.Extent.Block.{block_size, inode_num, ipb, iblock, Block, BlockManager}
use cse_2014_undergrad.Extent.Block.Place.{IsBytes}
use cse_2014_undergrad.Extent.Inode.{ndirect, Inode, ceil, load_inode, put_inode}
use cse_2014_undergrad.Extent.Inode.Records.{IsInode}
use cse_2014_undergrad.Extent.Inode.Table.{
  IsFormatted, inode_of, inode_of-IsInode, get_inode_used, put_inode_lem,
}
use cse_2014_undergrad.Extent.Inode.Blocks.{write_from-ne, write_from-at}
use cse_2014_undergrad.Extent.Inode.File.{
  Open, blk, open_file, bytes_from, read_file, piece, write_file,
}
use cse_2014_undergrad.Extent.Inode.Rewrite.{
  IsLaidOut, blk-kept, put_inode_keeps, rewritten, with_content, write_file_same, read_file_holds,
}

-- The inode after a write
rewritten-IsInode :
    (cur size : ℕ) (ino : Inode)
    → IsInode ino
    → cur < 2 ^ 32
    → size < 2 ^ 32
    → IsInode (rewritten cur size ino)
rewritten-IsInode cur size ino v c s = record {
  type = v.type;
  size = s;
  atime = v.atime;
  mtime = c;
  ctime = c;
  blocks = v.blocks;
  none_beyond = v.none_beyond;
}

-- On a disk with the superblock of the constructor, a file in use, whose blocks (at most 160, and
-- the block of addresses if it has one) are data blocks that all differ, is written with contents
-- that need as many blocks as it has; the time and the size fit 32 bits. Then a read gives these
-- contents back.
pub write_read :
    (stack stack' : Block) (cur cur' : ℕ) (bm : BlockManager) (inum : ℕ) (content : Block)
    (size : ℕ)
    → IsFormatted bm
    → IsBytes bm.disk
    → inum < inode_num
    → (Inode.type (inode_of bm inum) == 0) ≡ false
    → IsLaidOut (open_file stack bm (inode_of bm inum))
    → ceil size block_size ≡ ceil (Inode.size (inode_of bm inum)) block_size
    → cur < 2 ^ 32
    → size < 2 ^ 32
    → (read_file stack' cur' (write_file stack cur bm inum content size) inum).0
      ≡ some (bytes_from content 0 size)
unfolding open_file put_inode
write_read stack stack' cur cur' bm inum content size f b h t v e c s =
    let ino = inode_of bm inum in
    let mid = with_content stack bm ino content in
    let after = rewritten cur size ino in
    let new = put_inode stack mid inum after in
    let stored : inode_of new inum ≡ after =
      put_inode_lem stack mid inum after inum f
        (rewritten-IsInode cur size ino (inode_of-IsInode bm inum b) c s) h h
      ∙ ap (λ q. if q then after else inode_of mid inum) (==-refl inum) in
    let kept : (k : ℕ)
        → k < ceil ino.size block_size
        → blk (open_file stack' new after) k ≡ blk (open_file stack bm ino) k =
      λ k m. blk-kept stack stack' bm new ino after k e refl v.few m (λ long. (
        λ j l.
            ap (λ q. q j)
              (put_inode_keeps stack mid inum after (ino.blocks ndirect) f h (v.last_placed long).0
                ∙ write_from-ne (ceil ino.size block_size) 0 bm.disk (open_file stack bm ino)
                    content (ino.blocks ndirect) (λ k' a l'. v.last_apart k' long (omega arith))),
        (v.last_placed long).1,
      )) in
    ap (λ m. (read_file stack' cur' m inum).0)
      (write_file_same stack cur bm inum ino content size
        (get_inode_used stack bm inum ino f h refl t) t e)
    ∙ read_file_holds stack' cur' new inum after content
        (get_inode_used stack' new inum after f h stored t) t
        (λ k m. omega (arith, kept k (omega (arith, e)), (v.placed k (omega (arith, e))).1))
        (λ k j m l.
          ap (λ id. new.disk id j) (kept k (omega (arith, e)))
          ∙ ap (λ q. q j)
              (put_inode_keeps stack mid inum after (blk (open_file stack bm ino) k) f h
                (v.placed k (omega (arith, e))).0)
          ∙ write_from-at (ceil ino.size block_size) 0 bm.disk (open_file stack bm ino) content k j
              (λ k' a l'. (v.placed k' (omega arith)).1)
              (λ k' l' a u u'. v.apart k' l' u (omega arith)) (omega arith) (omega (arith, e)) l)

-- The contents of a file, as its blocks hold them
abbrev pub contents : Block → BlockManager → Inode → Block
unfolding open_file
contents stack bm ino p = bm.disk (blk (open_file stack bm ino) (p / block_size)) (p % block_size)

pub contents-piece :
    (stack : Block) (bm : BlockManager) (ino : Inode) (k j : ℕ)
    → j < block_size
    → bm.disk (blk (open_file stack bm ino) k) j ≡ piece (contents stack bm ino) k j
unfolding contents
contents-piece stack bm ino k j h =
    let e : k ≡ (k * block_size + j) / block_size = omega arith in
    let e' : j ≡ (k * block_size + j) % block_size = omega arith in
    ap (λ q. bm.disk (blk (open_file stack bm ino) q) j) e
    ∙ ap (λ q. bm.disk (blk (open_file stack bm ino) ((k * block_size + j) / block_size)) q) e'

-- No block of the one file, its block of addresses included, is written as contents of the other.
pub record IsDisjoint (f g : Open) : Type 0 where
  pub blocks :
      (k l : ℕ)
      → k < ceil f.ino.size block_size
      → l < ceil g.ino.size block_size
      → blk f k ≢ blk g l
  pub last : (k : ℕ) → k < ceil f.ino.size block_size → blk f k ≢ g.ino.blocks ndirect

-- Contents that go to data blocks leave the inodes alone.
with_content_inodes :
    (stack : Block) (bm : BlockManager) (ino : Inode) (content : Block) (other : ℕ)
    → IsFormatted bm
    → other < inode_num
    → ((k : ℕ) → k < ceil ino.size block_size → 353 ≤ blk (open_file stack bm ino) k)
    → inode_of (with_content stack bm ino content) other ≡ inode_of bm other
unfolding inode_of
with_content_inodes stack bm ino content other f h r =
    ap (λ q. load_inode q (other % ipb))
      (write_from-ne (ceil ino.size block_size) 0 bm.disk (open_file stack bm ino) content
        (iblock other bm.nblocks) (λ k a l e. absurd (omega (arith, f, h, e, r k (omega arith)))))

-- On a disk with the superblock of the constructor, a write to a file in use that keeps its number
-- of blocks does not change what a read of another file in use gives, where the blocks of each are
-- data blocks that differ, no block of the second, its block of addresses included, is one of the
-- first, and the time and the size fit 32 bits.
pub write_read_other :
    (stack stack' : Block) (cur cur' : ℕ) (bm : BlockManager) (inum other : ℕ) (content : Block)
    (size : ℕ)
    → IsFormatted bm
    → IsBytes bm.disk
    → inum < inode_num
    → other < inode_num
    → inum ≢ other
    → (Inode.type (inode_of bm inum) == 0) ≡ false
    → (Inode.type (inode_of bm other) == 0) ≡ false
    → IsLaidOut (open_file stack bm (inode_of bm inum))
    → IsLaidOut (open_file stack' bm (inode_of bm other))
    → IsDisjoint (open_file stack bm (inode_of bm inum)) (open_file stack' bm (inode_of bm other))
    → ceil size block_size ≡ ceil (Inode.size (inode_of bm inum)) block_size
    → cur < 2 ^ 32
    → size < 2 ^ 32
    → (read_file stack' cur' (write_file stack cur bm inum content size) other).0
      ≡ (read_file stack' cur' bm other).0
unfolding open_file put_inode
write_read_other stack stack' cur cur' bm inum other content size f b h h' n t t' w v d e c s =
    let ino = inode_of bm inum in
    let oth = inode_of bm other in
    let mid = with_content stack bm ino content in
    let after = rewritten cur size ino in
    let new = put_inode stack mid inum after in
    let ne : (inum == other) ≡ false = ground arith in
    let stored : inode_of new other ≡ oth =
      put_inode_lem stack mid inum after other f
        (rewritten-IsInode cur size ino (inode_of-IsInode bm inum b) c s) h h'
      ∙ ap (λ q. if q then after else inode_of mid other) ne
      ∙ with_content_inodes stack bm ino content other f h' (λ k m. (w.placed k m).0) in
    let same_block : (id : ℕ)
        → 353 ≤ id
        → ((k : ℕ) → k < ceil ino.size block_size → blk (open_file stack bm ino) k ≢ id)
        → new.disk id ≡ bm.disk id =
      λ id lo m.
        put_inode_keeps stack mid inum after id f h lo
        ∙ write_from-ne (ceil ino.size block_size) 0 bm.disk (open_file stack bm ino) content id
            (λ k a l. m k (omega arith)) in
    let kept : (k : ℕ)
        → k < ceil oth.size block_size
        → blk (open_file stack' new oth) k ≡ blk (open_file stack' bm oth) k =
      λ k m. blk-kept stack' stack' bm new oth oth k refl refl v.few m (λ long. (
        λ j l. ap (λ q. q j) (same_block (oth.blocks ndirect) (v.last_placed long).0 d.last),
        (v.last_placed long).1,
      )) in
    ap (λ m. (read_file stack' cur' m other).0)
      (write_file_same stack cur bm inum ino content size
        (get_inode_used stack bm inum ino f h refl t) t e)
    ∙ read_file_holds stack' cur' new other oth (contents stack' bm oth)
        (get_inode_used stack' new other oth f h' stored t') t'
        (λ k m. omega (arith, kept k m, (v.placed k m).1))
        (λ k j m l.
          ap (λ id. new.disk id j) (kept k m)
          ∙ ap (λ q. q j)
              (same_block (blk (open_file stack' bm oth) k) (v.placed k m).0
                (λ k' m'. d.blocks k' k m' m))
          ∙ contents-piece stack' bm oth k j l)
    ∙ sym (
        read_file_holds stack' cur' bm other oth (contents stack' bm oth)
          (get_inode_used stack' bm other oth f h' refl t') t' (λ k m. (v.placed k m).1)
          (λ k j m l. contents-piece stack' bm oth k j l))
