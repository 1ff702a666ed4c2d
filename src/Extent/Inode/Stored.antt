-- ===== src/Extent/Inode/Stored.antt =====
-- When a read gives the contents back that the blocks of a file in memory hold.
use cse_2014_undergrad.Prelude.{
  ℕ, ◌+◌, ◌-◌, ◌*◌, ◌<◌, ◌≤◌, true, false, some, ◌≡◌, refl, ap, ◌∙◌, arith, if◌then◌else◌, ltb,
  ◌==◌, ==-refl, Bool-cases, inl, inr,
}
use cse_2014_undergrad.Extent.Block.{
  block_num, block_size, inode_num, Block, BlockManager, read_block,
}
use cse_2014_undergrad.Extent.Inode.{ndirect, ceil, put_inode}
use cse_2014_undergrad.Extent.Inode.Records.{IsInode}
use cse_2014_undergrad.Extent.Inode.Table.{
  IsFormatted, inode_of, get_inode_used, put_inode_lem, read_block-lt,
}
use cse_2014_undergrad.Extent.Inode.File.{Open, blk, open_file, bytes_from, read_file, piece}
use cse_2014_undergrad.Extent.Inode.Rewrite.{IsData, put_inode_keeps, read_file_holds}

-- The addresses that an open file has are those in memory, if its block of addresses holds these.
blk-open_file :
    (stack : Block) (bm : BlockManager) (f : Open) (k : ℕ)
    → ceil f.ino.size block_size ≤ 160
    → k < ceil f.ino.size block_size
    → (ndirect < ceil f.ino.size block_size
        → (f.ino.blocks ndirect < block_num)
          × ((j : ℕ) → j < block_size → bm.disk (f.ino.blocks ndirect) j ≡ f.ind j))
    → blk (open_file stack bm f.ino) k ≡ blk f k
unfolding open_file
blk-open_file stack bm f k few h g = elim (Bool-cases (ltb k ndirect)) [
  | inl y ↦ rw y refl
  | inr y ↦
      let long : ndirect < ceil f.ino.size block_size = ground arith in
      let t : ltb ndirect (ceil f.ino.size block_size) ≡ true = ground arith in
      let low : 4 * (k - ndirect) + 3 < block_size = ground arith in
      let same : (j : ℕ)
          → j < block_size
          → read_block bm.disk (f.ino.blocks ndirect) stack j ≡ f.ind j =
        λ j m. read_block-lt bm.disk (f.ino.blocks ndirect) stack j (g long).0 m ∙ (g long).1 j m in
      let p : ℕ = 4 * (k - ndirect) in
      rw (y, t)
        (let q0 = same p (omega arith) in
          let q1 = same (p + 1) (omega arith) in
          let q2 = same (p + 2) (omega arith) in
          let q3 = same (p + 3) (omega arith) in omega (arith, q0, q1, q2, q3))
]

-- A file in memory whose blocks hold contents on the disk
pub record IsStored (bm : BlockManager) (f : Open) (content : Block) : Type 0 where
  pub valid : IsInode f.ino
  pub few : ceil f.ino.size block_size ≤ 160
  pub placed : (k : ℕ) → k < ceil f.ino.size block_size → IsData (blk f k)
  pub holds :
      (k j : ℕ)
      → k < ceil f.ino.size block_size
      → j < block_size
      → bm.disk (blk f k) j ≡ piece content k j
  pub last_placed : ndirect < ceil f.ino.size block_size → IsData (f.ino.blocks ndirect)
  pub last_holds :
      ndirect < ceil f.ino.size block_size
      → (j : ℕ) → j < block_size
      → bm.disk (f.ino.blocks ndirect) j ≡ f.ind j

-- Once its inode is stored, a read gives the contents.
pub read_stored :
    (stack stack' : Block) (cur : ℕ) (bm : BlockManager) (inum : ℕ) (f : Open) (content : Block)
    → IsFormatted bm
    → inum < inode_num
    → (f.ino.type == 0) ≡ false
    → IsStored bm f content
    → (read_file stack' cur (put_inode stack bm inum f.ino) inum).0
      ≡ some (bytes_from content 0 f.ino.size)
unfolding put_inode
read_stored stack stack' cur bm inum f content h l t s =
    let new = put_inode stack bm inum f.ino in
    let stored : inode_of new inum ≡ f.ino =
      put_inode_lem stack bm inum f.ino inum h s.valid l l
      ∙ ap (λ q. if q then f.ino else inode_of bm inum) (==-refl inum) in
    let keeps : (id : ℕ) → 353 ≤ id → BlockManager.disk new id ≡ bm.disk id =
      λ id m. put_inode_keeps stack bm inum f.ino id h l m in
    let at : (k : ℕ)
        → k < ceil f.ino.size block_size
        → blk (open_file stack' new f.ino) k ≡ blk f k =
      λ k m. blk-open_file stack' new f k s.few m (λ long. (
        (s.last_placed long).1,
        λ j b.
            ap (λ c. c j) (keeps (f.ino.blocks ndirect) (s.last_placed long).0)
            ∙ s.last_holds long j b,
      )) in
    read_file_holds stack' cur new inum f.ino content
      (get_inode_used stack' new inum f.ino h l stored t) t
      (λ k m. omega (arith, at k m, (s.placed k m).1))
      (λ k j m b.
        ap (λ id. BlockManager.disk new id j) (at k m)
        ∙ ap (λ c. c j) (keeps (blk f k) (s.placed k m).0)
        ∙ s.holds k j m b)
