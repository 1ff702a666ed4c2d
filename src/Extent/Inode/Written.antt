-- ===== src/Extent/Inode/Written.antt =====
-- What `write_file` of inode_manager.cc leaves alone, whether the file grows, shrinks or keeps its blocks.
use cse_2014_undergrad.Prelude.{ℕ, suc, ◌-◌, ◌^◌, ◌<◌, false, ◌≡◌, refl, ◌∙◌, arith, ◌==◌, inl, inr}
use cse_2014_undergrad.Extent.Block.{block_num, block_size, inode_num, Block, BlockManager}
use cse_2014_undergrad.Extent.Block.Place.{IsBytes}
use cse_2014_undergrad.Extent.Block.Bitmap.{IsFormatted}
use cse_2014_undergrad.Extent.Block.Room.{IsRoom}
use cse_2014_undergrad.Extent.Inode.{Inode, ceil}
use cse_2014_undergrad.Extent.Inode.Table.{inode_of, inode_of-IsInode, get_inode_used}
use cse_2014_undergrad.Extent.Inode.File.{Open, open_file, write_file}
use cse_2014_undergrad.Extent.Inode.Head.{
  IsOwned, with_head, with_head-ne, with_head-IsRoom, with_head-IsBytes, with_head-IsOwned,
  write_file_shrunk, write_file_grown,
}
use cse_2014_undergrad.Extent.Inode.Shrunk.{
  shrunk_disk, shrunk_inode, write_shrunk_lem, shrunk-kept,
}
use cse_2014_undergrad.Extent.Inode.Grown.{grown_disk, grown_inode, write_grown_lem}
use cse_2014_undergrad.Extent.Inode.Gains.{grown-kept}
use cse_2014_undergrad.Extent.Inode.Resize.{compare_cases}
use cse_2014_undergrad.Extent.Inode.{put_inode}
use cse_2014_undergrad.Extent.Inode.Records.{IsInode}
use cse_2014_undergrad.Extent.Inode.Head.{IsForeign, with_head-IsForeign}
use cse_2014_undergrad.Extent.Inode.Shrunk.{shrunk-same, shrunk-IsInode}
use cse_2014_undergrad.Extent.Inode.Gains.{grown-same, grown-IsInode}
use cse_2014_undergrad.Extent.Inode.Rewrite.{rewritten, with_content, write_file_same}

-- A write stores an inode at last, and before that has changed no block that is foreign to the file.
pub record IsWritten (stack : Block) (bm : BlockManager) (inum : ℕ) (f : Open) (new : BlockManager)
    : Type 0 where
  pub mid : BlockManager
  pub ino : Inode
  pub stored : new ≡ put_inode stack mid inum ino
  pub valid : IsInode ino
  pub nblocks : mid.nblocks ≡ block_num
  pub same : (id : ℕ) → IsForeign bm f id → mid.disk id ≡ bm.disk id

module _ (stack : Block) (cur : ℕ) (bm : BlockManager) (inum : ℕ) (content : Block) (size : ℕ)
    (f : IsFormatted bm) (b : IsBytes bm.disk) (h : inum < inode_num)
    (t : (Inode.type (inode_of bm inum) == 0) ≡ false)
    (o : IsOwned bm (open_file stack bm (inode_of bm inum))) (c : cur < 2 ^ 32)
    (s : size < 2 ^ 32) where
  kept-IsWritten :
      ceil size block_size ≡ ceil (Inode.size (inode_of bm inum)) block_size
      → IsWritten stack bm inum
          (open_file stack bm (inode_of bm inum))
          (write_file stack cur bm inum content size)
  unfolding open_file
  kept-IsWritten e =
      let ino = inode_of bm inum in
      let v = inode_of-IsInode bm inum b in
      record {
        mid = with_content stack bm ino content;
        ino = rewritten cur size ino;
        stored =
            write_file_same stack cur bm inum ino content size
              (get_inode_used stack bm inum ino f.blocks h refl t) t e;
        valid = record {
          type = v.type;
          size = s;
          atime = v.atime;
          mtime = c;
          ctime = c;
          blocks = v.blocks;
          none_beyond = v.none_beyond;
        };
        nblocks = f.blocks;
        same = λ id z.
            with_head-ne (ceil ino.size block_size) bm (open_file stack bm ino) content id z.blocks;
      }

  shrunk-IsWritten :
      ceil size block_size < ceil (Inode.size (inode_of bm inum)) block_size
      → IsWritten stack bm inum
          (open_file stack bm (inode_of bm inum))
          (write_file stack cur bm inum content size)
  unfolding open_file
  shrunk-IsWritten l =
      let ino = inode_of bm inum in
      let g = open_file stack bm ino in
      let bc = ceil ino.size block_size in
      let bc_new = ceil size block_size in
      let mid = with_head bc_new bm g content in
      let below : (k : ℕ) → k < bc_new → k < bc = λ k q. omega (arith, l) in
      record {
        mid = shrunk_disk stack mid g bc bc_new;
        ino = shrunk_inode stack cur mid g size bc bc_new;
        stored =
            write_file_shrunk stack cur bm inum ino content size
              (get_inode_used stack bm inum ino f.blocks h refl t) t l
            ∙ write_shrunk_lem stack cur mid inum g size bc bc_new;
        valid = shrunk-IsInode stack cur mid g size o.layout (inode_of-IsInode bm inum b) c s l;
        nblocks = (shrunk-kept stack mid g size o.layout l).1 ∙ f.blocks;
        same = λ id z.
            shrunk-same stack mid g size id o.layout l z.behind
            ∙ with_head-ne bc_new bm g content id (λ k q. z.blocks k (below k q));
      }

  grown-IsWritten :
      ((p : ℕ) → content p < 256)
      → ceil (Inode.size (inode_of bm inum)) block_size < ceil size block_size
      → IsRoom
          (suc (ceil size block_size - ceil (Inode.size (inode_of bm inum)) block_size))
          bm.disk
      → IsWritten stack bm inum
          (open_file stack bm (inode_of bm inum))
          (write_file stack cur bm inum content size)
  unfolding open_file
  grown-IsWritten p l r =
      let ino = inode_of bm inum in
      let g = open_file stack bm ino in
      let bc = ceil ino.size block_size in
      let bc_new = ceil size block_size in
      let mid = with_head bc bm g content in
      let bytes = with_head-IsBytes bc bm g content b p in
      let room = with_head-IsRoom bc bm g content (suc (bc_new - bc)) o.layout (omega arith) r in
      let own = with_head-IsOwned bc bm g content (omega arith) o in
      let fm : IsFormatted mid = record { blocks = f.blocks; inodes = f.inodes } in
      record {
        mid = grown_disk stack mid g bc bc_new content;
        ino = grown_inode stack cur mid g size bc bc_new content;
        stored =
            write_file_grown stack cur bm inum ino content size
              (get_inode_used stack bm inum ino f.blocks h refl t) t l
            ∙ write_grown_lem stack cur mid inum g size bc bc_new content;
        valid =
            grown-IsInode stack cur mid g size content fm bytes room own
              (inode_of-IsInode bm inum b) p c s l;
        nblocks = (grown-kept stack mid g size content fm bytes room own p l).1 ∙ f.blocks;
        same = λ id z.
            grown-same stack mid g size content id fm bytes room own p l
              (with_head-IsForeign bc bm g content id (omega arith) o z)
            ∙ with_head-ne bc bm g content id z.blocks;
      }

  pub write_file-IsWritten :
      ((p : ℕ) → content p < 256)
      → (ceil (Inode.size (inode_of bm inum)) block_size < ceil size block_size
          → IsRoom
              (suc (ceil size block_size - ceil (Inode.size (inode_of bm inum)) block_size))
              bm.disk)
      → IsWritten stack bm inum
          (open_file stack bm (inode_of bm inum))
          (write_file stack cur bm inum content size)
  write_file-IsWritten p r =
      elim (compare_cases (ceil size block_size)
        (ceil (Inode.size (inode_of bm inum)) block_size)) [
          | inl e ↦ kept-IsWritten e
          | inr (inl l) ↦ shrunk-IsWritten l
          | inr (inr l) ↦ grown-IsWritten p l (r l)
        ]
