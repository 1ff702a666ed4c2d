-- ===== src/Extent/Block.antt =====
-- The disk and the block manager: `disk` and `block_manager` of inode_manager.h and inode_manager.cc.
--
-- A block, and a buffer of the stack, is a function of the offset. Only offsets below BLOCK_SIZE belong
-- to it: what lies behind a buffer is whatever the stack holds there, an argument of the operations,
-- so that an access out of bounds has a meaning here though it has none in C++.
pub mod Bits
pub mod Place
pub mod Bitmap
pub mod Room
mod Tests
use cse_2014_undergrad.Prelude.{
  ℕ, zero, suc, ◌+◌, ◌-◌, ◌*◌, ◌/◌, ◌%◌, ◌^◌, Bool, true, false, if◌then◌else◌, leb, ltb, ◌==◌,
  update,
}

abbrev pub block_size : ℕ
block_size = 512

-- `DISK_SIZE/BLOCK_SIZE`
abbrev pub block_num : ℕ
block_num = 1024 * 1024 * 16 / block_size

abbrev pub inode_num : ℕ
inode_num = 1024

-- `sizeof(struct inode)`: 2 bytes, 2 of padding, and 4 + 33 numbers of 4 bytes.
abbrev pub inode_sz : ℕ
inode_sz = 152

-- `BPB`, `IPB`, `BBLOCK` and `IBLOCK`
abbrev pub bpb : ℕ
bpb = block_size * 8

abbrev pub ipb : ℕ
ipb = block_size / inode_sz

abbrev pub bblock : ℕ → ℕ
bblock b = b / bpb + 2

abbrev pub iblock : ℕ → ℕ → ℕ
iblock i nblocks = nblocks / bpb + i / ipb + 3

abbrev pub Block : Type 0
Block = ℕ → ℕ

-- `disk`
abbrev pub Disk : Type 0
Disk = ℕ → Block

abbrev pub blank_disk : Disk
blank_disk id i = 0

-- `memcpy(to, from, BLOCK_SIZE)`
abbrev pub copy_block : Block → Block → Block
copy_block to from i = if ltb i block_size then from i else to i

-- `disk::read_block` into `buf`, and `disk::write_block` of `buf`. No caller passes NULL.
unfoldable pub read_block : Disk → ℕ → Block → Block
read_block d id buf = if leb block_num id then buf else copy_block buf (d id)

unfoldable pub write_block : Disk → ℕ → Block → Disk
write_block d id buf = if leb block_num id then d else update d id (copy_block (d id) buf)

-- `buf[t >> 3] & (1 << (t % 8))`, `|=` and `&= ~` on a byte
abbrev pub test_bit : ℕ → ℕ → Bool
test_bit b k = b / 2 ^ k % 2 == 1

unfoldable pub set_bit : ℕ → ℕ → ℕ
set_bit b k = if test_bit b k then b else b + 2 ^ k

unfoldable pub clear_bit : ℕ → ℕ → ℕ
clear_bit b k = if test_bit b k then b - 2 ^ k else b

-- `superblock`, with the disk
pub record BlockManager : Type 0 where
  pub disk : Disk
  pub size : ℕ
  pub nblocks : ℕ
  pub ninodes : ℕ

-- `block_manager::block_manager`
abbrev pub format : BlockManager
format = record {
  disk = blank_disk;
  size = block_size * block_num;
  nblocks = block_num;
  ninodes = inode_num;
}

-- The place of a block's bit: `t`, an unsigned difference, its byte in the bitmap block, and its bit there.
abbrev pub bit_index : ℕ → ℕ
bit_index i = (i + 2 ^ 32 - bblock i) % 2 ^ 32

abbrev pub byte_of : ℕ → ℕ
byte_of i = bit_index i / 8

abbrev pub bit_of : ℕ → ℕ
bit_of i = bit_index i % 8

-- The body of the loop, for block `i`: the test, and the bitmap block written back with the bit set.
unfoldable pub looks_used : Disk → Block → ℕ → Bool
unfolding read_block
looks_used d stack i = test_bit (read_block d (bblock i) stack (byte_of i)) (bit_of i)

unfoldable pub mark_used : Disk → Block → ℕ → Disk
unfolding read_block write_block
mark_used d stack i =
    let buf = read_block d (bblock i) stack in
    write_block d (bblock i) (update buf (byte_of i) (set_bit (buf (byte_of i)) (bit_of i)))

-- The loop from block `i` on, for the blocks that are left.
unfoldable pub alloc_from : ℕ → ℕ → Block → Disk → ℕ × Disk
alloc_from zero i stack d = (0, d)
alloc_from (suc n) i stack d =
    let rest = alloc_from n (i + 1) stack d in
    if looks_used d stack i then rest else (i, mark_used d stack i)

abbrev pub first_data_block : BlockManager → ℕ
first_data_block bm = iblock (bm.ninodes - 1) bm.nblocks + 1

-- `block_manager::alloc_block`; `stack` is what lies in and behind its buffer.
unfoldable pub alloc_block : Block → BlockManager → ℕ × BlockManager
alloc_block stack bm =
    let (i, d) =
      alloc_from (bm.nblocks - first_data_block bm) (first_data_block bm) stack bm.disk in
    (i, record bm { disk = d })

-- `block_manager::free_block`
unfoldable pub free_block : Block → BlockManager → ℕ → BlockManager
free_block stack bm id =
    let buf = read_block bm.disk (bblock id) stack in
    record bm {
      disk =
          write_block bm.disk (bblock id)
            (update buf (byte_of id) (clear_bit (buf (byte_of id)) (bit_of id)));
    }
