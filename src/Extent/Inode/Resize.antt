-- ===== src/Extent/Inode/Resize.antt =====
-- What is written to a file is read back, also where the file gains or loses blocks.
use cse_2014_undergrad.Prelude.{
  ℕ, suc, ◌-◌, ◌^◌, ◌<◌, ◌≤◌, true, false, some, ◌≡◌, refl, sym, ap, ◌∙◌, arith, ltb, ◌==◌,
  Bool-cases, inl, inr, ◌⊎◌,
}
use cse_2014_undergrad.Extent.Block.{block_size, inode_num, Block, BlockManager}
use cse_2014_undergrad.Extent.Block.Place.{IsBytes}
use cse_2014_undergrad.Extent.Block.Bitmap.{IsFormatted}
use cse_2014_undergrad.Extent.Block.Room.{IsRoom}
use cse_2014_undergrad.Extent.Inode.{ndirect, Inode, ceil}
use cse_2014_undergrad.Extent.Inode.Table.{
  inode_of, inode_of-IsInode, get_inode_used, read_block-lt,
}
use cse_2014_undergrad.Extent.Inode.File.{Open, open_file, bytes_from, read_file, write_file}
use cse_2014_undergrad.Extent.Inode.Head.{
  IsOwned, with_head, with_head-ne, with_head-at, with_head-IsRoom, with_head-IsBytes,
  with_head-IsOwned, write_file_shrunk, write_file_grown,
}
use cse_2014_undergrad.Extent.Inode.Shrunk.{
  shrunk_disk, shrunk_inode, write_shrunk_lem, shrunk-IsStored, shrunk-kept,
}
use cse_2014_undergrad.Extent.Inode.Grown.{
  grown_disk, grown_inode, grown, write_grown_lem, grown-IsStored,
}
use cse_2014_undergrad.Extent.Inode.Gains.{grown-kept}
use cse_2014_undergrad.Extent.Inode.Stored.{read_stored}
use cse_2014_undergrad.Extent.Inode.Storage.{write_read}

pub compare_cases : (a b : ℕ) → (a ≡ b) ⊎ ((a < b) ⊎ (b < a))
compare_cases a b = elim (Bool-cases (a == b)) [
  | inl y ↦ inl (ground (arith, y))
  | inr y ↦ inr (elim (Bool-cases (ltb a b)) [
    | inl z ↦ inl (ground (arith, z))
    | inr z ↦ inr (ground (arith, y, z))
  ])
]

module _ (stack stack' : Block) (cur cur' : ℕ) (bm : BlockManager) (inum : ℕ) (content : Block)
    (size : ℕ) (f : IsFormatted bm) (b : IsBytes bm.disk) (h : inum < inode_num)
    (t : (Inode.type (inode_of bm inum) == 0) ≡ false)
    (o : IsOwned bm (open_file stack bm (inode_of bm inum))) (c : cur < 2 ^ 32)
    (s : size < 2 ^ 32) where
  read_shrunk :
      ceil size block_size < ceil (Inode.size (inode_of bm inum)) block_size
      → (read_file stack' cur' (write_file stack cur bm inum content size) inum).0
        ≡ some (bytes_from content 0 size)
  unfolding open_file
  read_shrunk l =
      let ino = inode_of bm inum in
      let g = open_file stack bm ino in
      let bc = ceil ino.size block_size in
      let bc_new = ceil size block_size in
      let mid = with_head bc_new bm g content in
      let most : bc_new ≤ bc = omega (arith, l) in
      let below : (k : ℕ) → k < bc_new → k < bc = λ k q. omega (arith, l) in
      let kept = shrunk-kept stack mid g size o.layout l in
      ap (λ m. (read_file stack' cur' m inum).0)
        (write_file_shrunk stack cur bm inum ino content size
            (get_inode_used stack bm inum ino f.blocks h refl t) t l
          ∙ write_shrunk_lem stack cur mid inum g size bc bc_new)
      ∙ read_stored stack stack' cur' (shrunk_disk stack mid g bc bc_new) inum
          (record { ino = shrunk_inode stack cur mid g size bc bc_new; ind = g.ind }) content
          (kept.1 ∙ f.blocks) h (ap (λ x. x == 0) kept.0 ∙ t)
          (shrunk-IsStored stack cur mid g size content o.layout (inode_of-IsInode bm inum b) c s l
            (λ k j m q. with_head-at bc_new bm g content k j o.layout most m q)
            (λ m j q.
              let z : ltb ndirect bc ≡ true = ground arith in
              ap (λ d. d j)
                (with_head-ne bc_new bm g content (ino.blocks ndirect)
                  (λ k l. o.layout.last_apart k m (below k l)))
              ∙ rw z (
                  sym (
                    read_block-lt bm.disk (ino.blocks ndirect) stack j (o.layout.last_placed m).1
                      q))))

  read_grown :
      ((p : ℕ) → content p < 256)
      → ceil size block_size ≤ 160
      → ceil (Inode.size (inode_of bm inum)) block_size < ceil size block_size
      → IsRoom
          (suc (ceil size block_size - ceil (Inode.size (inode_of bm inum)) block_size))
          bm.disk
      → (read_file stack' cur' (write_file stack cur bm inum content size) inum).0
        ≡ some (bytes_from content 0 size)
  unfolding open_file
  read_grown p few l r =
      let ino = inode_of bm inum in
      let g = open_file stack bm ino in
      let bc = ceil ino.size block_size in
      let bc_new = ceil size block_size in
      let mid = with_head bc bm g content in
      let bytes = with_head-IsBytes bc bm g content b p in
      let room = with_head-IsRoom bc bm g content (suc (bc_new - bc)) o.layout (omega arith) r in
      let own = with_head-IsOwned bc bm g content (omega arith) o in
      let fm : IsFormatted mid = record { blocks = f.blocks; inodes = f.inodes } in
      let kept = grown-kept stack mid g size content fm bytes room own p l in
      ap (λ m. (read_file stack' cur' m inum).0)
        (write_file_grown stack cur bm inum ino content size
            (get_inode_used stack bm inum ino f.blocks h refl t) t l
          ∙ write_grown_lem stack cur mid inum g size bc bc_new content)
      ∙ read_stored stack stack' cur' (grown_disk stack mid g bc bc_new content) inum
          (record {
            ino = grown_inode stack cur mid g size bc bc_new content;
            ind = Open.ind (grown stack mid g bc bc_new content).1;
          })
          content (kept.1 ∙ f.blocks) h (ap (λ x. x == 0) kept.0 ∙ t)
          (grown-IsStored stack cur mid g size content fm bytes room own
            (inode_of-IsInode bm inum b) p c s l few
            (λ k j m q. with_head-at bc bm g content k j o.layout (omega arith) m q))

-- On a disk with the superblock of the constructor, a file in use owns its blocks: they are data blocks
-- that all differ and that the bitmap has in use, its block of addresses too if it needs one, and else it
-- has none. It is written with contents of at most 160 blocks, more, fewer or as many as it has; where it
-- gets more, as many blocks are free, and one for addresses. The time and the size fit 32 bits. Then a read
-- gives these contents back.
pub read_file-write_file :
    (stack stack' : Block) (cur cur' : ℕ) (bm : BlockManager) (inum : ℕ) (content : Block)
    (size : ℕ)
    → IsFormatted bm
    → IsBytes bm.disk
    → ((p : ℕ) → content p < 256)
    → inum < inode_num
    → (Inode.type (inode_of bm inum) == 0) ≡ false
    → IsOwned bm (open_file stack bm (inode_of bm inum))
    → (ceil (Inode.size (inode_of bm inum)) block_size < ceil size block_size
        → IsRoom
            (suc (ceil size block_size - ceil (Inode.size (inode_of bm inum)) block_size))
            bm.disk)
    → ceil size block_size ≤ 160
    → cur < 2 ^ 32
    → size < 2 ^ 32
    → (read_file stack' cur' (write_file stack cur bm inum content size) inum).0
      ≡ some (bytes_from content 0 size)
read_file-write_file stack stack' cur cur' bm inum content size f b p h t o r few c s =
    elim (compare_cases (ceil size block_size) (ceil (Inode.size (inode_of bm inum)) block_size)) [
      | inl e ↦ write_read stack stack' cur cur' bm inum content size f.blocks b h t o.layout e c s
      | inr (inl l) ↦ read_shrunk stack stack' cur cur' bm inum content size f b h t o c s l
      | inr (inr l) ↦
          read_grown stack stack' cur cur' bm inum content size f b h t o c s p few l (r l)
    ]
