-- ===== src/Extent/Inode.antt =====
-- The inodes: `inode_manager` of inode_manager.h and inode_manager.cc. Files are in the child File.
--
-- As for the block manager, a block is a function of the offset, and each operation has as arguments
-- what lies in and behind its buffer (`stack`) and what `time` returns (`cur`).
pub mod File
mod Addresses
mod Grow
mod Shrink
mod Stored
pub mod Head
mod Shrunk
mod Based
mod Grown
mod Gains
pub mod Resize
mod Written
pub mod Others
pub mod Records
pub mod Table
pub mod Scan
pub mod Alloc
pub mod Blocks
pub mod Rewrite
pub mod Storage
use cse_2014_undergrad.Prelude.{
  ℕ, zero, suc, ◌+◌, ◌-◌, ◌*◌, ◌/◌, ◌%◌, ◌^◌, Bool, true, false, not, ◌&&◌, Option, none, some,
  if◌then◌else◌, leb, ltb, ◌==◌,
}
use cse_2014_undergrad.Extent.Client.{Attr}
use cse_2014_undergrad.Extent.Block.{
  inode_num, inode_sz, ipb, iblock, Block, read_block, write_block, BlockManager, format,
}

abbrev pub ndirect : ℕ
ndirect = 32

-- `inode`; `blocks` has entries for 0 to NDIRECT.
pub record Inode : Type 0 where
  pub type : ℕ
  pub size : ℕ
  pub atime : ℕ
  pub mtime : ℕ
  pub ctime : ℕ
  pub blocks : ℕ → ℕ

-- The number of `n` bytes at `o`, the lowest first
abbrev pub load16 : Block → ℕ → ℕ
load16 buf o = buf o + 256 * buf (o + 1)

abbrev pub load32_at : Block → ℕ → ℕ
load32_at buf o = buf o + 256 * buf (o + 1) + 65536 * buf (o + 2) + 16777216 * buf (o + 3)

-- `((struct inode *) buf)[k]`
unfoldable pub load_inode : Block → ℕ → Inode
load_inode buf k = record {
  type = load16 buf (k * inode_sz);
  size = load32_at buf (k * inode_sz + 4);
  atime = load32_at buf (k * inode_sz + 8);
  mtime = load32_at buf (k * inode_sz + 12);
  ctime = load32_at buf (k * inode_sz + 16);
  blocks = λ n. if leb n ndirect then load32_at buf (k * inode_sz + (20 + 4 * n)) else 0;
}

-- The byte `j` of a number, and of the `struct inode`: `old` is kept where there is padding.
abbrev pub byte_at : ℕ → ℕ → ℕ
byte_at n j =
    if j == 0
    then n % 256
    else if j == 1
    then n / 256 % 256
    else if j == 2
    then n / 65536 % 256
    else n / 16777216 % 256

abbrev pub inode_byte : Inode → ℕ → ℕ → ℕ
inode_byte ino old j =
    if ltb j 2
    then byte_at ino.type j
    else if ltb j 4
    then old
    else if ltb j 8
    then byte_at ino.size (j - 4)
    else if ltb j 12
    then byte_at ino.atime (j - 8)
    else if ltb j 16
    then byte_at ino.mtime (j - 12)
    else if ltb j 20
    then byte_at ino.ctime (j - 16)
    else byte_at (ino.blocks ((j - 20) / 4)) ((j - 20) % 4)

-- `((struct inode *) buf)[k] = *ino`
unfoldable pub store_inode : Block → ℕ → Inode → Block
store_inode buf k ino i =
    if leb (k * inode_sz) i && ltb (i - k * inode_sz) inode_sz
    then inode_byte ino (buf i) (i - k * inode_sz)
    else buf i

-- `get_inode`; `none` is NULL.
unfoldable pub get_inode : Block → BlockManager → ℕ → Option Inode
unfolding load_inode read_block
get_inode stack bm inum =
    let ino_disk = load_inode (read_block bm.disk (iblock inum bm.nblocks) stack) (inum % ipb) in
    if leb inode_num inum then none else if ino_disk.type == 0 then none else some ino_disk

-- `put_inode`, whose callers pass no NULL
unfoldable pub put_inode : Block → BlockManager → ℕ → Inode → BlockManager
unfolding store_inode read_block write_block
put_inode stack bm inum ino =
    let buf = read_block bm.disk (iblock inum bm.nblocks) stack in
    record bm {
      disk = write_block bm.disk (iblock inum bm.nblocks) (store_inode buf (inum % ipb) ino);
    }

-- How the loop of `alloc_inode` over one block ends: it has passed the last inode, has found a free one,
-- or goes on with the next block.
pub data Search : Type 0 where
  next_block passed : Search
  found_at : ℕ → Search

-- The inner loop of `alloc_inode`, from the inode `j` of block `i` on, for those that are left in it
unfoldable pub search_block : ℕ → ℕ → ℕ → Block → Search
unfolding load_inode
search_block zero i j buf = next_block
search_block (suc n) i j buf =
    let rest = search_block n i (j + 1) buf in
    if i == 0 && j == 0
    then rest
    else if leb inode_num (j + i * ipb)
    then passed
    else if Inode.type (load_inode buf j) == 0
    then found_at j
    else rest

-- What `alloc_inode` makes of the inode that it has found
abbrev pub new_inode : ℕ → ℕ → Inode → Inode
new_inode type cur ino = record ino {
  type = type;
  size = 0;
  mtime = cur;
  ctime = cur;
  blocks = λ n. 0;
}

-- The outer loop, from block `i` on, for the blocks that are left
unfoldable pub alloc_inode_from : ℕ → ℕ → Block → BlockManager → ℕ → ℕ → ℕ × BlockManager
unfolding search_block load_inode store_inode read_block write_block
alloc_inode_from zero i buf bm type cur = (0, bm)
alloc_inode_from (suc n) i buf bm type cur =
    let id = i + iblock 0 bm.nblocks in
    let buf' = read_block bm.disk id buf in
    let rest = alloc_inode_from n (i + 1) buf' bm type cur in
    elim (search_block ipb i 0 buf') [
      | next_block ↦ rest
      | passed ↦ (0, bm)
      | found_at j ↦ (
        j + i * ipb,
        record bm {
          disk =
              write_block bm.disk id (store_inode buf' j (new_inode type cur (load_inode buf' j)));
        },
      )
    ]

-- `CEIL`
abbrev pub ceil : ℕ → ℕ → ℕ
ceil a b = a / b + (if a % b == 0 then 0 else 1)

-- `alloc_inode`
unfoldable pub alloc_inode : Block → ℕ → BlockManager → ℕ → ℕ × BlockManager
unfolding alloc_inode_from
alloc_inode stack cur bm type = alloc_inode_from (ceil bm.ninodes ipb) 0 stack bm type cur

-- `free_inode`
unfoldable pub free_inode : Block → ℕ → BlockManager → ℕ → BlockManager
unfolding get_inode put_inode
free_inode stack cur bm inum = elim (get_inode stack bm inum) [
  | none ↦ bm
  | some ino ↦
      if ino.type == 0
      then bm
      else put_inode stack bm inum (record ino { type = 0; mtime = cur; ctime = cur })
]

-- `getattr`. A `short` that becomes a `uint32_t` keeps its sign.
unfoldable pub getattr : Block → BlockManager → ℕ → Attr
unfolding load_inode read_block
getattr stack bm inum =
    let ino = load_inode (read_block bm.disk (iblock inum bm.nblocks) stack) (inum % ipb) in
    record {
      type = if ltb ino.type (2 ^ 15) then ino.type else ino.type + 2 ^ 32 - 2 ^ 16;
      size = ino.size;
      atime = ino.atime;
      mtime = ino.mtime;
      ctime = ino.ctime;
    }

-- `inode_manager::inode_manager`; `none` is `exit`.
unfoldable pub inode_manager : Block → ℕ → Option BlockManager
unfolding alloc_inode
inode_manager stack cur =
    let (root_dir, bm) = alloc_inode stack cur format 1 in if root_dir == 1 then some bm else none
