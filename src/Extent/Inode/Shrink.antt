-- ===== src/Extent/Inode/Shrink.antt =====
-- The loop of `write_file` in inode_manager.cc that gives blocks of a file back.
use cse_2014_undergrad.Prelude.{ℕ, zero, suc, ◌+◌, ◌<◌, ◌≤◌, ◌≡◌, ◌≢◌, refl, ◌∙◌, arith}
use cse_2014_undergrad.Extent.Block.{block_num, Block, BlockManager, free_block}
use cse_2014_undergrad.Extent.Block.Room.{free_block-ne}
use cse_2014_undergrad.Extent.Inode.{ndirect}
use cse_2014_undergrad.Extent.Inode.Records.{IsInode}
use cse_2014_undergrad.Extent.Inode.File.{Open, blk, set_blk, shrink_from}
use cse_2014_undergrad.Extent.Inode.Addresses.{
  blk-set_blk_ne, set_blk-last, set_blk-type, set_blk-IsInode,
}

-- A file has lost blocks from its block `i` on; no data block and no inode has changed.
pub record IsShrunk (i : ℕ) (bm : BlockManager) (f : Open) (bm' : BlockManager) (f' : Open)
    : Type 0 where
  pub kept : (k : ℕ) → k < i → blk f' k ≡ blk f k
  pub last : f'.ino.blocks ndirect ≡ f.ino.blocks ndirect
  pub type : f'.ino.type ≡ f.ino.type
  pub valid : IsInode f.ino → IsInode f'.ino
  pub same : (id : ℕ) → 10 ≤ id → bm'.disk id ≡ bm.disk id
  pub nblocks : bm'.nblocks ≡ bm.nblocks

pub shrink_from-IsShrunk :
    (n i : ℕ) (stack : Block) (bm : BlockManager) (f : Open)
    → ((k : ℕ) → i ≤ k → k < i + n → blk f k < block_num)
    → let (bm', f') = shrink_from n i stack bm f in IsShrunk i bm f bm' f'
unfolding shrink_from
shrink_from-IsShrunk zero i stack bm f h = record {
  kept = λ k l. refl;
  last = refl;
  type = refl;
  valid = λ g. g;
  same = λ id m. refl;
  nblocks = refl;
}
shrink_from-IsShrunk (suc n) i stack bm f h =
    let other : (k : ℕ) → i ≢ k → blk (set_blk f i 0) k ≡ blk f k =
      λ k q. blk-set_blk_ne f i k 0 q in
    let g =
      shrink_from-IsShrunk n (i + 1) stack (free_block stack bm (blk f i)) (set_blk f i 0) (λ k a b.
        omega (arith, other k (λ q. omega (arith, q)), h k (omega arith) (omega arith))) in
    record {
      kept = λ k l. g.kept k (omega arith) ∙ other k (λ q. omega (arith, q));
      last = g.last ∙ set_blk-last f i 0;
      type = g.type ∙ set_blk-type f i 0;
      valid = λ q. g.valid (set_blk-IsInode f i 0 (omega arith) q);
      same = λ id m.
          g.same id m ∙ free_block-ne stack bm (blk f i) id (h i (omega arith) (omega arith)) m;
      nblocks = g.nblocks;
    }
