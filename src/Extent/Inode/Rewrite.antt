-- ===== src/Extent/Inode/Rewrite.antt =====
-- `write_file` and then `read_file`, for a file that keeps its number of blocks.
use cse_2014_undergrad.Prelude.{
  ℕ, ◌+◌, ◌-◌, ◌*◌, ◌%◌, ◌<◌, ◌≤◌, true, false, some, ◌≡◌, ◌≢◌, refl, sym, ap, ◌∙◌, arith,
  if◌then◌else◌, ltb, min, ◌==◌, ==_iff, ==-refl, Bool-cases, inl, inr,
}
use cse_2014_undergrad.Extent.Block.{
  block_num, block_size, inode_num, iblock, Block, read_block, BlockManager,
}
use cse_2014_undergrad.Extent.Inode.{ndirect, Inode, ceil, get_inode, put_inode}
use cse_2014_undergrad.Extent.Inode.Table.{IsFormatted, read_block-lt, write_block-ne}
use cse_2014_undergrad.Extent.Inode.Blocks.{read_from_lem}
use cse_2014_undergrad.Extent.Inode.File.{
  Open, blk, open_file, bytes_from, read_file, piece, write_from, write_same, write_file,
}

-- The blocks behind the bitmap and the inodes
abbrev pub IsData : ℕ → Type 0
IsData id = (353 ≤ id) × (id < block_num)

-- A file has no more blocks than there are addresses for them, each is a data block, and no two are the
-- same, the block of addresses included.
pub record IsLaidOut (f : Open) : Type 0 where
  pub few : ceil f.ino.size block_size ≤ 160
  pub placed : (k : ℕ) → k < ceil f.ino.size block_size → IsData (blk f k)
  pub apart : (k l : ℕ) → k < l → l < ceil f.ino.size block_size → blk f l ≢ blk f k
  pub last_placed : ndirect < ceil f.ino.size block_size → IsData (f.ino.blocks ndirect)
  pub last_apart :
      (k : ℕ)
      → ndirect < ceil f.ino.size block_size
      → k < ceil f.ino.size block_size
      → blk f k ≢ f.ino.blocks ndirect

-- The addresses of a file depend only on its inode and on its block of addresses.
pub blk-kept :
    (stack stack' : Block) (bm bm' : BlockManager) (ino ino' : Inode) (k : ℕ)
    → ceil ino'.size block_size ≡ ceil ino.size block_size
    → ino'.blocks ≡ ino.blocks
    → ceil ino.size block_size ≤ 160
    → k < ceil ino.size block_size
    → (ndirect < ceil ino.size block_size
        → ((j : ℕ)
            → j < block_size
            → bm'.disk (ino.blocks ndirect) j ≡ bm.disk (ino.blocks ndirect) j)
          × (ino.blocks ndirect < block_num))
    → blk (open_file stack' bm' ino') k ≡ blk (open_file stack bm ino) k
unfolding open_file
blk-kept stack stack' bm bm' ino ino' k e b few h g = elim (Bool-cases (ltb k ndirect)) [
  | inl y ↦ rw (y, b) refl
  | inr y ↦
      let long : ndirect < ceil ino.size block_size = ground arith in
      let t : ltb ndirect (ceil ino.size block_size) ≡ true = ground arith in
      let t' : ltb ndirect (ceil ino'.size block_size) ≡ true = rw e t in
      let low : 4 * (k - ndirect) + 3 < block_size = ground arith in
      let same : (j : ℕ)
          → j < block_size
          → read_block bm'.disk (ino'.blocks ndirect) stack' j
            ≡ read_block bm.disk (ino.blocks ndirect) stack j =
        λ j m.
          ap (λ q. read_block bm'.disk (q ndirect) stack' j) b
          ∙ read_block-lt bm'.disk (ino.blocks ndirect) stack' j (g long).1 m
          ∙ (g long).0 j m
          ∙ sym (read_block-lt bm.disk (ino.blocks ndirect) stack j (g long).1 m) in
      let p : ℕ = 4 * (k - ndirect) in
      rw (y, t, t')
        (let q0 = same p (omega arith) in
          let q1 = same (p + 1) (omega arith) in
          let q2 = same (p + 2) (omega arith) in
          let q3 = same (p + 3) (omega arith) in omega (arith, q0, q1, q2, q3))
]

pub put_inode_keeps :
    (stack : Block) (bm : BlockManager) (inum : ℕ) (ino : Inode) (id : ℕ)
    → IsFormatted bm
    → inum < inode_num
    → 353 ≤ id
    → BlockManager.disk (put_inode stack bm inum ino) id ≡ bm.disk id
unfolding put_inode
put_inode_keeps stack bm inum ino id f h k =
    let n : iblock inum bm.nblocks ≢ id = λ e. absurd (omega (arith, f, e, h, k)) in
    write_block-ne bm.disk (iblock inum bm.nblocks) _ id n

-- The inode of a file that has been written and has kept its number of blocks
abbrev pub rewritten : ℕ → ℕ → Inode → Inode
rewritten cur size ino = record ino { mtime = cur; ctime = cur; size = size }

write_same_lem :
    (stack : Block) (cur : ℕ) (bm : BlockManager) (inum : ℕ) (ino : Inode) (size : ℕ)
    → write_same stack cur bm inum ino size ≡ put_inode stack bm inum (rewritten cur size ino)
unfolding write_same
write_same_lem stack cur bm inum ino size = elim (Bool-cases (size == ino.size)) [
  | inl y ↦
      let e : size ≡ ino.size = (==_iff _ _).0 y in
      rw y (
        ap (λ s. put_inode stack bm inum (record ino { mtime = cur; ctime = cur; size = s }))
          (sym e))
  | inr y ↦ rw y refl
]

-- The disk, once the contents have gone to the blocks
abbrev pub with_content : Block → BlockManager → Inode → Block → BlockManager
with_content stack bm ino content = record bm {
  disk = write_from (ceil ino.size block_size) 0 bm.disk (open_file stack bm ino) content;
}

min_self : (n : ℕ) → min n n ≡ n
min_self n = omega arith

pub write_file_same :
    (stack : Block) (cur : ℕ) (bm : BlockManager) (inum : ℕ) (ino : Inode) (content : Block)
    (size : ℕ)
    → get_inode stack bm inum ≡ some ino
    → (ino.type == 0) ≡ false
    → ceil size block_size ≡ ceil ino.size block_size
    → write_file stack cur bm inum content size
      ≡ put_inode stack (with_content stack bm ino content) inum (rewritten cur size ino)
unfolding write_file
write_file_same stack cur bm inum ino content size g t e =
    rw
      (g, t, e, min_self (ceil ino.size block_size), ==-refl (ceil ino.size block_size), write_file)
      (write_same_lem stack cur (with_content stack bm ino content) inum ino size)

length_split :
    (size : ℕ)
    → (size == 0) ≡ false
    → (ceil size block_size - 1) * block_size
        + (if size % block_size == 0 then block_size else size % block_size)
      ≡ size
length_split size h = ground arith

rest_le :
    (size : ℕ) → (if size % block_size == 0 then block_size else size % block_size) ≤ block_size
rest_le size = ground arith

-- `read_file` of a file whose blocks hold contents
pub read_file_holds :
    (stack : Block) (cur : ℕ) (bm : BlockManager) (inum : ℕ) (ino : Inode) (content : Block)
    → get_inode stack bm inum ≡ some ino
    → (ino.type == 0) ≡ false
    → ((k : ℕ) → k < ceil ino.size block_size → blk (open_file stack bm ino) k < block_num)
    → ((k j : ℕ)
        → k < ceil ino.size block_size
        → j < block_size
        → bm.disk (blk (open_file stack bm ino) k) j ≡ piece content k j)
    → (read_file stack cur bm inum).0 ≡ some (bytes_from content 0 ino.size)
unfolding read_file
read_file_holds stack cur bm inum ino content g t r h = elim (Bool-cases (ino.size == 0)) [
  | inl y ↦
      let e : 0 ≡ ino.size = sym ((==_iff _ _).0 y) in
      rw (g, t, y, read_file) (ap (λ n. some (bytes_from content 0 n)) e)
  | inr y ↦
      let many : 1 ≤ ceil ino.size block_size = ground arith in
      rw (g, t, y, read_file)
        (ap some (
          read_from_lem (ceil ino.size block_size - 1) 0 _ bm.disk (open_file stack bm ino) stack
            content (λ k a b. r k (omega (arith, many)))
            (λ k j a b c. h k j (omega (arith, many)) c) (rest_le ino.size)
          ∙ ap (λ n. bytes_from content 0 n) (length_split ino.size y)))
]
