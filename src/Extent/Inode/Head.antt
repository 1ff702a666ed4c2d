-- ===== src/Extent/Inode/Head.antt =====
-- What `write_file` in inode_manager.cc does to the blocks that a file has and keeps.
use cse_2014_undergrad.Prelude.{
  ℕ, zero, suc, ◌+◌, ◌*◌, ◌/◌, ◌<◌, ◌≤◌, true, false, some, ◌≡◌, ◌≢◌, refl, ◌∙◌, arith, ltb, ◌==◌,
  min, ◌⊎◌, inl, inr,
}
use cse_2014_undergrad.Extent.Block.{block_size, Block, Disk, write_block, BlockManager}
use cse_2014_undergrad.Extent.Block.Place.{IsBytes, used, covered_end}
use cse_2014_undergrad.Extent.Block.Room.{IsRoom, IsRecorded, count_free-agree, write_block-IsBytes}
use cse_2014_undergrad.Extent.Inode.{ndirect, Inode, ceil, get_inode}
use cse_2014_undergrad.Extent.Inode.Blocks.{write_from-ne, write_from-at}
use cse_2014_undergrad.Extent.Inode.File.{
  Open, blk, open_file, piece, write_from, write_shrunk, write_grown, write_file,
}
use cse_2014_undergrad.Extent.Inode.Rewrite.{IsLaidOut}

-- A file has what it should: its blocks are its own, the bitmap has them in use, and it has no address of
-- a block of addresses unless it needs one.
pub record IsOwned (bm : BlockManager) (f : Open) : Type 0 where
  pub layout : IsLaidOut f
  pub recorded :
      (k : ℕ)
      → k < ceil f.ino.size block_size
      → (blk f k < covered_end) × (used bm.disk (blk f k) ≡ true)
  pub last_recorded :
      ndirect < ceil f.ino.size block_size
      → (f.ino.blocks ndirect < covered_end) × (used bm.disk (f.ino.blocks ndirect) ≡ true)
  pub no_last : ceil f.ino.size block_size ≤ ndirect → f.ino.blocks ndirect ≡ 0

-- A block of the bitmap's record, or in front of the data, that is none of a file
pub record IsForeign (bm : BlockManager) (f : Open) (id : ℕ) : Type 0 where
  pub behind : 10 ≤ id
  pub blocks : (k : ℕ) → k < ceil f.ino.size block_size → blk f k ≢ id
  pub last : ndirect < ceil f.ino.size block_size → f.ino.blocks ndirect ≢ id
  pub kind : (id < 353) ⊎ (IsRecorded id × (used bm.disk id ≡ true))

-- The disk with the contents in the first `n` blocks of a file
abbrev pub with_head : ℕ → BlockManager → Open → Block → BlockManager
with_head n bm f content = record bm { disk = write_from n 0 bm.disk f content }

module _ (n : ℕ) (bm : BlockManager) (f : Open) (content : Block) where
  pub with_head-ne :
      (id : ℕ)
      → ((k : ℕ) → k < n → blk f k ≢ id)
      → BlockManager.disk (with_head n bm f content) id ≡ bm.disk id
  with_head-ne id h = write_from-ne n 0 bm.disk f content id (λ k a b. h k (omega arith))

  pub with_head-at :
      (k j : ℕ)
      → IsLaidOut f
      → n ≤ ceil f.ino.size block_size
      → k < n
      → j < block_size
      → BlockManager.disk (with_head n bm f content) (blk f k) j ≡ piece content k j
  with_head-at k j v l h m =
      write_from-at n 0 bm.disk f content k j (λ m a b. (v.placed m (omega arith)).1)
        (λ m q a b c. v.apart m q b (omega arith)) (omega arith) (omega arith) m

  -- The bitmap stays as it is.
  pub with_head-used :
      (j : ℕ)
      → IsLaidOut f
      → n ≤ ceil f.ino.size block_size
      → j < covered_end
      → used (BlockManager.disk (with_head n bm f content)) j ≡ used bm.disk j
  unfolding used
  with_head-used j v l h =
      rw
        (with_head-ne (j / 4096 + 2)
          (λ k m e. absurd (omega (arith, e, (v.placed k (omega arith)).0))))
        refl

  pub with_head-IsRoom :
      (m : ℕ)
      → IsLaidOut f
      → n ≤ ceil f.ino.size block_size
      → IsRoom m bm.disk
      → IsRoom m (BlockManager.disk (with_head n bm f content))
  with_head-IsRoom m v l r = omega (
    arith,
    count_free-agree 3746 353 bm.disk (BlockManager.disk (with_head n bm f content))
        (λ j a b. with_head-used j v l (omega arith)),
  )

write_from-IsBytes :
    (n i : ℕ) (d : Disk) (f : Open) (content : Block)
    → IsBytes d
    → ((p : ℕ) → content p < 256)
    → IsBytes (write_from n i d f content)
unfolding write_from
write_from-IsBytes zero i d f content h c = h
write_from-IsBytes (suc n) i d f content h c =
    write_from-IsBytes n (i + 1) (write_block d (blk f i) (piece content i)) f content
      (write_block-IsBytes d (blk f i) (piece content i) h (λ p. c (i * block_size + p))) c

pub with_head-IsBytes :
    (n : ℕ) (bm : BlockManager) (f : Open) (content : Block)
    → IsBytes bm.disk
    → ((p : ℕ) → content p < 256)
    → IsBytes (BlockManager.disk (with_head n bm f content))
with_head-IsBytes n bm f content h c = write_from-IsBytes n 0 bm.disk f content h c

module _ (stack : Block) (cur : ℕ) (bm : BlockManager) (inum : ℕ) (ino : Inode) (content : Block)
    (size : ℕ) where
  pub write_file_shrunk :
      get_inode stack bm inum ≡ some ino
      → (ino.type == 0) ≡ false
      → ceil size block_size < ceil ino.size block_size
      → write_file stack cur bm inum content size
        ≡ write_shrunk stack cur
            (with_head (ceil size block_size) bm (open_file stack bm ino) content)
            inum
            (open_file stack bm ino)
            size
            (ceil ino.size block_size)
            (ceil size block_size)
  unfolding write_file
  write_file_shrunk g t l =
      let a : (ceil size block_size == ceil ino.size block_size) ≡ false = ground arith in
      let b : ltb (ceil size block_size) (ceil ino.size block_size) ≡ true = ground arith in
      let m : min (ceil size block_size) (ceil ino.size block_size) ≡ ceil size block_size =
        omega arith in
      rw (g, t, a, b, m, write_file) refl

  pub write_file_grown :
      get_inode stack bm inum ≡ some ino
      → (ino.type == 0) ≡ false
      → ceil ino.size block_size < ceil size block_size
      → write_file stack cur bm inum content size
        ≡ write_grown stack cur
            (with_head (ceil ino.size block_size) bm (open_file stack bm ino) content)
            inum
            (open_file stack bm ino)
            size
            (ceil ino.size block_size)
            (ceil size block_size)
            content
  unfolding write_file
  write_file_grown g t l =
      let a : (ceil size block_size == ceil ino.size block_size) ≡ false = ground arith in
      let b : ltb (ceil size block_size) (ceil ino.size block_size) ≡ false = ground arith in
      let m : min (ceil size block_size) (ceil ino.size block_size) ≡ ceil ino.size block_size =
        omega arith in
      rw (g, t, a, b, m, write_file) refl

pub with_head-IsOwned :
    (n : ℕ) (bm : BlockManager) (f : Open) (content : Block)
    → n ≤ ceil f.ino.size block_size
    → IsOwned bm f
    → IsOwned (with_head n bm f content) f
with_head-IsOwned n bm f content l o = record {
  layout = o.layout;
  recorded = λ k m.
      (let q = o.recorded k m in
        (q.0, with_head-used n bm f content (blk f k) o.layout l q.0 ∙ q.1));
  last_recorded = λ m.
      (let q = o.last_recorded m in
        (q.0, with_head-used n bm f content (f.ino.blocks ndirect) o.layout l q.0 ∙ q.1));
  no_last = o.no_last;
}

pub with_head-IsForeign :
    (n : ℕ) (bm : BlockManager) (f : Open) (content : Block) (id : ℕ)
    → n ≤ ceil f.ino.size block_size
    → IsOwned bm f
    → IsForeign bm f id
    → IsForeign (with_head n bm f content) f id
with_head-IsForeign n bm f content id l o g = record {
  behind = g.behind;
  blocks = g.blocks;
  last = g.last;
  kind = elim g.kind [
    | inl y ↦ inl y
    | inr (v, u) ↦ inr (v, with_head-used n bm f content id o.layout l v.1 ∙ u)
  ];
}
