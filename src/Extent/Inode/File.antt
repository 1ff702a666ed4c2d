-- ===== src/Extent/Inode/File.antt =====
-- The contents of files: `read_file`, `write_file` and `remove_file` of inode_manager.cc.
--
-- `content` is what a pointer to the contents points to, a function of the offset; `ind` is `ind_buf`.
use cse_2014_undergrad.Prelude.{
  ℕ, zero, suc, ◌+◌, ◌-◌, ◌*◌, ◌%◌, ◌&&◌, ◌||◌, Option, none, some, List, [], ◌∷◌, ◌++◌,
  if◌then◌else◌, leb, ltb, ◌==◌, update, min,
}
use cse_2014_undergrad.Extent.Block.{
  block_size, Block, Disk, read_block, write_block, BlockManager, alloc_block, free_block,
}
use cse_2014_undergrad.Extent.Inode.{
  ndirect, Inode, load32_at, byte_at, ceil, get_inode, put_inode, free_inode,
}

-- An inode in memory with its block of further addresses
pub record Open : Type 0 where
  pub ino : Inode
  pub ind : Block

-- `BLK(ino, ind, i)`, and an assignment to it
abbrev pub blk : Open → ℕ → ℕ
blk f i = if ltb i ndirect then f.ino.blocks i else load32_at f.ind (4 * (i - ndirect))

abbrev pub store_number : Block → ℕ → ℕ → Block
store_number buf o v i = if leb o i && ltb i (o + 4) then byte_at v (i - o) else buf i

abbrev pub set_blk : Open → ℕ → ℕ → Open
set_blk f i v =
    if ltb i ndirect
    then record f { ino = record f.ino { blocks = update f.ino.blocks i v } }
    else record f { ind = store_number f.ind (4 * (i - ndirect)) v }

-- The inode that was read, with `ind_buf` filled if the file has a block of addresses
unfoldable pub open_file : Block → BlockManager → Inode → Open
unfolding read_block
open_file stack bm ino = record {
  ino = ino;
  ind =
      if ltb ndirect (ceil ino.size block_size)
      then read_block bm.disk (ino.blocks ndirect) stack
      else stack;
}

-- The first `n` bytes of a buffer from `o` on, as `memcpy` takes them
unfoldable pub bytes_from : Block → ℕ → ℕ → List ℕ
bytes_from buf o zero = []
bytes_from buf o (suc n) = buf o ∷ bytes_from buf (o + 1) n

-- The loop of `read_file` from block `i` on for `n` whole blocks, and the `rest` bytes of the last one.
unfoldable pub read_from : ℕ → ℕ → ℕ → Disk → Open → Block → List ℕ
unfolding read_block bytes_from
read_from zero i rest d f buf = bytes_from (read_block d (blk f i) buf) 0 rest
read_from (suc n) i rest d f buf =
    let buf' = read_block d (blk f i) buf in
    bytes_from buf' 0 block_size ++ read_from n (i + 1) rest d f buf'

-- `read_file`: what it stores in `*buf_out` and `*size`; `none` where it leaves them as they are.
unfoldable pub read_file : Block → ℕ → BlockManager → ℕ → Option (List ℕ) × BlockManager
unfolding get_inode open_file read_from put_inode
read_file stack cur bm inum = elim (get_inode stack bm inum) [
  | none ↦ (none, bm)
  | some ino ↦
      let bytes =
        read_from (ceil ino.size block_size - 1) 0
          (if ino.size % block_size == 0 then block_size else ino.size % block_size) bm.disk
          (open_file stack bm ino) stack in
      if ino.type == 0 || ino.size == 0
      then (some [], bm)
      else (some bytes, put_inode stack bm inum (record ino { atime = cur }))
]

-- `content + i * BLOCK_SIZE`
abbrev pub piece : Block → ℕ → Block
piece content i j = content (i * block_size + j)

-- The first loop of `write_file`, from block `i` on for `n` blocks
unfoldable pub write_from : ℕ → ℕ → Disk → Open → Block → Disk
unfolding write_block
write_from zero i d f content = d
write_from (suc n) i d f content =
    write_from n (i + 1) (write_block d (blk f i) (piece content i)) f content

-- The loop that gives blocks back
unfoldable pub shrink_from : ℕ → ℕ → Block → BlockManager → Open → BlockManager × Open
unfolding free_block
shrink_from zero i stack bm f = (bm, f)
shrink_from (suc n) i stack bm f =
    shrink_from n (i + 1) stack (free_block stack bm (blk f i)) (set_blk f i 0)

-- The loop that adds blocks
unfoldable pub grow_from : ℕ → ℕ → Block → BlockManager → Open → Block → BlockManager × Open
unfolding alloc_block write_block
grow_from zero i stack bm f content = (bm, f)
grow_from (suc n) i stack bm f content =
    let (id, bm') = alloc_block stack bm in
    let f' = set_blk f i id in
    grow_from n (i + 1) stack
      (record bm' { disk = write_block bm'.disk (blk f' i) (piece content i) }) f' content

-- `write_file` where the file keeps its number of blocks
unfoldable pub write_same : Block → ℕ → BlockManager → ℕ → Inode → ℕ → BlockManager
unfolding put_inode
write_same stack cur bm inum ino size =
    let ino1 : Inode = record ino { mtime = cur; ctime = cur } in
    put_inode stack bm inum
      (if size == ino.size then ino1 else record ino1 { size = size; ctime = cur })

-- Where it loses blocks: `bc` and `bc_new` are the numbers of blocks before and after.
unfoldable pub write_shrunk : Block → ℕ → BlockManager → ℕ → Open → ℕ → ℕ → ℕ → BlockManager
unfolding put_inode shrink_from free_block
write_shrunk stack cur bm inum f size bc bc_new =
    let (bm1, f1) = shrink_from (bc - bc_new) bc_new stack bm f in
    let last = ltb ndirect bc && leb bc_new ndirect in
    let bm2 = (if last then free_block stack bm1 (f1.ino.blocks ndirect) else bm1) in
    let blocks = (if last then update f1.ino.blocks ndirect 0 else f1.ino.blocks) in
    put_inode stack bm2 inum
      (record f1.ino { blocks = blocks; mtime = cur; ctime = cur; size = size })

-- Where it gains blocks
unfoldable pub write_grown : Block → ℕ → BlockManager → ℕ → Open → ℕ → ℕ → ℕ → Block → BlockManager
unfolding put_inode alloc_block grow_from write_block
write_grown stack cur bm inum f size bc bc_new content =
    let (id, bm') = alloc_block stack bm in
    let (bm1, f1) =
      (if leb bc ndirect && ltb ndirect bc_new
        then (
          bm',
          record {
            ino = record f.ino { blocks = update f.ino.blocks ndirect id };
            ind = λ i. if ltb i block_size then 0 else f.ind i;
          },
        )
        else (bm, f)) in
    let (bm2, f2) = grow_from (bc_new - bc) bc stack bm1 f1 content in
    let bm3 : BlockManager =
      (if f2.ino.blocks ndirect == 0
        then bm2
        else record bm2 { disk = write_block bm2.disk (f2.ino.blocks ndirect) f2.ind }) in
    put_inode stack bm3 inum (record f2.ino { mtime = cur; ctime = cur; size = size })

-- `write_file` of `size` bytes
unfoldable pub write_file : Block → ℕ → BlockManager → ℕ → Block → ℕ → BlockManager
unfolding get_inode open_file write_from write_same write_shrunk write_grown
write_file stack cur bm inum content size = elim (get_inode stack bm inum) [
  | none ↦ bm
  | some ino ↦
      let bc = ceil ino.size block_size in
      let bc_new = ceil size block_size in
      let f = open_file stack bm ino in
      let bm1 : BlockManager = record bm {
        disk = write_from (min bc_new bc) 0 bm.disk f content;
      } in
      if ino.type == 0
      then bm
      else if bc_new == bc
      then write_same stack cur bm1 inum ino size
      else if ltb bc_new bc
      then write_shrunk stack cur bm1 inum f size bc bc_new
      else write_grown stack cur bm1 inum f size bc bc_new content
]

-- The loop of `remove_file`
unfoldable pub free_from : ℕ → ℕ → Block → BlockManager → Open → BlockManager
unfolding free_block
free_from zero i stack bm f = bm
free_from (suc n) i stack bm f = free_from n (i + 1) stack (free_block stack bm (blk f i)) f

-- `remove_file`
unfoldable pub remove_file : Block → ℕ → BlockManager → ℕ → BlockManager
unfolding get_inode open_file free_block free_from free_inode
remove_file stack cur bm inum = elim (get_inode stack bm inum) [
  | none ↦ bm
  | some ino ↦
      let bc = ceil ino.size block_size in
      let bm1 = (if ltb ndirect bc then free_block stack bm (ino.blocks ndirect) else bm) in
      if ino.type == 0
      then bm
      else free_inode stack cur (free_from bc 0 stack bm1 (open_file stack bm ino)) inum
]
