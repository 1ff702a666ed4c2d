-- ===== src/Extent/Tests.antt =====
-- Runs of the inode manager and of the extent server, and witnesses.
use cse_2014_undergrad.Prelude.{
  ℕ, zero, suc, ◌+◌, ◌-◌, ◌*◌, ◌/◌, ◌%◌, ◌^◌, ◌<◌, ◌≤◌, Bool, true, false, some, none, List, [],
  ◌∷◌, ◌≡◌, ◌⊎◌, refl, sym, ap, subst, arith, if◌then◌else◌, ltb, leb, ◌&&◌, ◌==◌, replicate,
  get_or,
}
use cse_2014_undergrad.Extent.Block.{Block, BlockManager, format, inode_num, block_size}
use cse_2014_undergrad.Extent.Block.Place.{IsBytes, used}
use cse_2014_undergrad.Extent.Inode.{
  Inode, ceil, byte_at, inode_byte, store_inode, new_inode, alloc_inode,
}
use cse_2014_undergrad.Extent.Inode.Records.{IsInode, load_inode-store_inode}
use cse_2014_undergrad.Extent.Inode.Table.{IsFormatted, inode_of}
use cse_2014_undergrad.Extent.Inode.Alloc.{IsBusy, alloc_inode_lem}
use cse_2014_undergrad.Extent.Inode.File.{blk, open_file, bytes_from, read_file, write_file}
use cse_2014_undergrad.Extent.Inode.Rewrite.{IsLaidOut}
use cse_2014_undergrad.Extent.Client.{ok, Cache, empty, flush}
use cse_2014_undergrad.Extent.Client
use cse_2014_undergrad.Extent.Server.{put, get, extent_server, put_get}
use cse_2014_undergrad.Extent.Server.Flushed.{Fits, get-flush-put, get-flush-put_other}
use cse_2014_undergrad.Extent.Inode.Others.{IsApart, read_file-write_file_other}
use cse_2014_undergrad.Extent.Inode.Head.{IsOwned}
use cse_2014_undergrad.Extent.Inode.Resize.{read_file-write_file}
use cse_2014_undergrad.Extent.Block.Bitmap
use cse_2014_undergrad.Extent.Block.Room.{IsRoom, count_free, count_free_mono}

abbrev zeros : Block
zeros i = 0

-- A file of 700 bytes in two blocks, and one of 100 in one
abbrev file : ℕ → ℕ → (ℕ → ℕ) → Inode
file type size blocks = record {
  type = type;
  size = size;
  atime = 0;
  mtime = 0;
  ctime = 0;
  blocks = blocks;
}

abbrev long_file : Inode
long_file = file 2 700 (λ n. if n == 0 then 400 else if n == 1 then 401 else 0)

abbrev short_file : Inode
short_file = file 2 100 (λ n. if n == 0 then 402 else 0)

long_file-IsInode : IsInode long_file
long_file-IsInode = record {
  type = omega arith;
  size = omega arith;
  atime = omega arith;
  mtime = omega arith;
  ctime = omega arith;
  blocks = λ n. ground arith;
  none_beyond = λ n h. ground arith;
}

short_file-IsInode : IsInode short_file
short_file-IsInode = record {
  type = omega arith;
  size = omega arith;
  atime = omega arith;
  mtime = omega arith;
  ctime = omega arith;
  blocks = λ n. ground arith;
  none_beyond = λ n h. ground arith;
}

-- The bitmap has their blocks, 400, 401 and 402, in use.
abbrev bitmap : Block
bitmap i = if i == 49 then 192 else if i == 50 then 1 else 0

-- They are the inodes 5 and 6.
abbrev files : BlockManager
unfolding store_inode
files = record format {
  disk = λ id.
      if id == 2
      then bitmap
      else if id == 12
      then store_inode zeros 2 long_file
      else if id == 13
      then store_inode zeros 0 short_file
      else zeros;
}

long_at : inode_of files 5 ≡ long_file
unfolding inode_of files
long_at = load_inode-store_inode zeros 2 long_file long_file-IsInode

short_at : inode_of files 6 ≡ short_file
unfolding inode_of files
short_at = load_inode-store_inode zeros 0 short_file short_file-IsInode

files-IsFormatted : IsFormatted files
unfolding files
files-IsFormatted = refl

files_inodes : files.ninodes ≡ inode_num
unfolding files
files_inodes = refl

byte_at-lt : (n j : ℕ) → byte_at n j < 256
byte_at-lt n j = ground arith

if_lt : (t : Bool) {x y : ℕ} → x < 256 → y < 256 → (if t then x else y) < 256
if_lt true h k = h
if_lt false h k = k

inode_byte-lt : (ino : Inode) (j : ℕ) → inode_byte ino 0 j < 256
inode_byte-lt ino j = if_lt (ltb j 2) (byte_at-lt ino.type j) (
    if_lt (ltb j 4) (omega arith) (
      if_lt (ltb j 8) (byte_at-lt ino.size (j - 4)) (
        if_lt (ltb j 12) (byte_at-lt ino.atime (j - 8)) (
          if_lt (ltb j 16) (byte_at-lt ino.mtime (j - 12)) (
            if_lt (ltb j 20) (byte_at-lt ino.ctime (j - 16))
              (byte_at-lt (ino.blocks ((j - 20) / 4)) ((j - 20) % 4)))))))

store_inode-lt : (k i : ℕ) (ino : Inode) → store_inode zeros k ino i < 256
unfolding store_inode
store_inode-lt k i ino =
    if_lt (leb (k * 152) i && ltb (i - k * 152) 152) (inode_byte-lt ino (i - k * 152)) (omega arith)

files-IsBytes : IsBytes files.disk
unfolding files
files-IsBytes id i = ground (arith, store_inode-lt 2 i long_file, store_inode-lt 0 i short_file)

long-IsLaidOut : IsLaidOut (open_file zeros files (inode_of files 5))
unfolding open_file
long-IsLaidOut =
    subst (λ o. IsLaidOut (open_file zeros files o)) (sym long_at)
      (record {
        few = omega arith;
        placed = λ k h. (ground arith, ground arith);
        apart = λ k l h m. ground arith;
        last_placed = λ h. absurd (omega arith);
        last_apart = λ k h. absurd (omega arith);
      })

short-IsLaidOut : IsLaidOut (open_file zeros files (inode_of files 6))
unfolding open_file
short-IsLaidOut =
    subst (λ o. IsLaidOut (open_file zeros files o)) (sym short_at)
      (record {
        few = omega arith;
        placed = λ k h. (ground arith, ground arith);
        apart = λ k l h m. absurd (omega arith);
        last_placed = λ h. absurd (omega arith);
        last_apart = λ k h. absurd (omega arith);
      })

files-IsApart :
    IsApart (open_file zeros files (inode_of files 5)) (open_file zeros files (inode_of files 6))
unfolding open_file
files-IsApart =
    subst (λ o. IsApart (open_file zeros files o) (open_file zeros files (inode_of files 6)))
      (sym long_at)
      (subst (λ o. IsApart (open_file zeros files long_file) (open_file zeros files o))
        (sym short_at)
        (record {
          blocks = λ k l h m. ground arith;
          last = λ k h m. absurd (omega arith);
          last_of = λ l h m. absurd (omega arith);
          lasts = λ h m. absurd (omega arith);
        }))

long_type : (Inode.type (inode_of files 5) == 0) ≡ false
long_type = ap (λ o. Inode.type o == 0) long_at

short_type : (Inode.type (inode_of files 6) == 0) ≡ false
short_type = ap (λ o. Inode.type o == 0) short_at

long_blocks : ceil 600 block_size ≡ ceil (Inode.size (inode_of files 5)) block_size
long_blocks = sym (ap (λ o. ceil (Inode.size o) block_size) long_at)

-- What is written: the low byte of the offset
abbrev pattern_bytes : Block
pattern_bytes i = i % 256

long_used : (k : ℕ) → k < 2 → used files.disk (blk (open_file zeros files long_file) k) ≡ true
unfolding files open_file used
long_used zero h = refl
long_used (suc zero) h = refl
long_used (suc (suc k)) h = absurd (omega arith)

long-IsOwned : IsOwned files (open_file zeros files (inode_of files 5))
unfolding open_file
long-IsOwned =
    subst (λ o. IsLaidOut (open_file zeros files o) → IsOwned files (open_file zeros files o))
      (sym long_at)
      (λ layout. record {
        layout = layout;
        recorded = λ k h. (ground arith, long_used k h);
        last_recorded = λ h. absurd (omega arith);
        no_last = λ h. refl;
      })
      long-IsLaidOut

files_superblock : Bitmap.IsFormatted files
unfolding files
files_superblock = record { blocks = refl; inodes = refl }

-- The 33 blocks from 353 on are free.
first_free : count_free 33 353 files.disk ≡ 33
unfolding files count_free used
first_free = refl

files-IsRoom : IsRoom 33 files.disk
files-IsRoom = omega (arith, first_free, count_free_mono 33 3746 353 files.disk (omega arith))

long_size : ceil (Inode.size (inode_of files 5)) block_size ≡ 2
long_size = ap (λ o. ceil (Inode.size o) block_size) long_at

-- A file of 17,000 bytes needs a block of addresses.
read_file-write_file_example :
    (read_file zeros 9 (write_file zeros 8 files 5 pattern_bytes 17000) 5).0
    ≡ some (bytes_from pattern_bytes 0 17000)
read_file-write_file_example =
    read_file-write_file zeros zeros 8 9 files 5 pattern_bytes 17000 files_superblock files-IsBytes
      (λ p. omega arith) (omega arith) long_type long-IsOwned
      (λ h. subst (λ n. IsRoom (suc (34 - n)) files.disk) (sym long_size) files-IsRoom)
      (omega arith) (omega arith) (omega arith)

short_used : (k : ℕ) → k < 1 → used files.disk (blk (open_file zeros files short_file) k) ≡ true
unfolding files open_file used
short_used zero h = refl
short_used (suc k) h = absurd (omega arith)

short-IsOwned : IsOwned files (open_file zeros files (inode_of files 6))
unfolding open_file
short-IsOwned =
    subst (λ o. IsLaidOut (open_file zeros files o) → IsOwned files (open_file zeros files o))
      (sym short_at)
      (λ layout. record {
        layout = layout;
        recorded = λ k h. (ground arith, short_used k h);
        last_recorded = λ h. absurd (omega arith);
        no_last = λ h. refl;
      })
      short-IsLaidOut

read_file-write_file_other_example :
    (read_file zeros 9 (write_file zeros 8 files 5 pattern_bytes 17000) 6).0
    ≡ (read_file zeros 9 files 6).0
read_file-write_file_other_example =
    read_file-write_file_other zeros zeros 8 9 files 5 6 pattern_bytes 17000 files_superblock
      files-IsBytes (λ p. omega arith) (omega arith) (omega arith) (ground arith) long_type
      short_type long-IsOwned short-IsOwned files-IsApart
      (λ h. subst (λ n. IsRoom (suc (34 - n)) files.disk) (sym long_size) files-IsRoom)
      (omega arith) (omega arith)

alloc_inode_lem_example :
    let (k, bm) = alloc_inode zeros 7 files 2 in
    ((k ≡ 0) × (bm ≡ files) × IsBusy files 6)
    ⊎ ((1 ≤ k)
        × (k < inode_num)
        × ((Inode.type (inode_of files k) == 0) ≡ true)
        × ((k ≤ 6) ⊎ IsBusy files 6)
        × (inode_of bm 6 ≡ (if k == 6 then new_inode 2 7 (inode_of files k) else inode_of files 6)))
alloc_inode_lem_example =
    alloc_inode_lem zeros 7 files 2 6 files-IsFormatted files_inodes files-IsBytes (omega arith)
      (omega arith) (omega arith) (omega arith)

-- The root directory of a new disk is inode 1.
root_made : (alloc_inode zeros 7 format 1).0 ≡ 1
unfolding alloc_inode
root_made = refl

-- 1200 characters, for the extent 2^31 + 5, whose highest bit is not looked at
abbrev characters : List ℕ
characters = replicate 1200 120

get_or-replicate-lt : (n p : ℕ) → get_or (replicate n 120) p 0 < 256
get_or-replicate-lt zero p = omega arith
get_or-replicate-lt (suc n) zero = omega arith
get_or-replicate-lt (suc n) (suc p) = get_or-replicate-lt n p

put_get_example :
    ((get zeros zeros 9 (put zeros zeros 8 files (2 ^ 31 + 5) characters).1 (2 ^ 31 + 5)).0 ≡ ok)
    × ((get zeros zeros 9 (put zeros zeros 8 files (2 ^ 31 + 5) characters).1 (2 ^ 31 + 5)).1
        ≡ characters)
put_get_example =
    put_get zeros zeros zeros zeros 8 9 files (2 ^ 31 + 5) characters files_superblock files-IsBytes
      (get_or-replicate-lt 1200) (omega arith) long_type long-IsOwned
      (λ h.
        subst (λ n. IsRoom (suc (3 - n)) files.disk) (sym long_size) (omega (arith, files-IsRoom)))
      (omega arith) (omega arith) (omega arith)

-- The extent as the client names it, and the characters, fit the disk.
characters-Fits : Fits zeros zeros 8 files (2 ^ 31 + 5) characters
characters-Fits = record {
  formatted = files_superblock;
  bytes = files-IsBytes;
  characters = get_or-replicate-lt 1200;
  is_inode = omega arith;
  in_use = long_type;
  owned = long-IsOwned;
  room = λ h.
      subst (λ n. IsRoom (suc (3 - n)) files.disk) (sym long_size) (omega (arith, files-IsRoom));
  few = omega arith;
  clock = omega arith;
  size = omega arith;
}

-- One client has nothing in its cache, the other an older extent.
abbrev reader : Cache
reader = Client.put empty 7 (3 ∷ [])

get-flush-put_example :
    (d : Cache) × (bm : BlockManager) × (flush
        (extent_server zeros zeros 8)
        (Client.put empty (2 ^ 31 + 5) characters)
        files
        (2 ^ 31 + 5)
      ≡ some (d, bm))
    × (d.bcache (2 ^ 31 + 5) ≡ none)
    × ((Client.get (extent_server zeros zeros 9) reader bm (2 ^ 31 + 5)).0 ≡ ok)
    × ((Client.get (extent_server zeros zeros 9) reader bm (2 ^ 31 + 5)).1 ≡ characters)
unfolding Client.put
get-flush-put_example =
    get-flush-put zeros zeros zeros zeros 8 9 empty reader files (2 ^ 31 + 5) characters refl
      characters-Fits refl

get-flush-put_other_example :
    (d : Cache) × (bm : BlockManager) × (flush
        (extent_server zeros zeros 8)
        (Client.put empty (2 ^ 31 + 5) characters)
        files
        (2 ^ 31 + 5)
      ≡ some (d, bm))
    × ((Client.get (extent_server zeros zeros 9) reader bm 6).1
        ≡ (Client.get (extent_server zeros zeros 9) reader files 6).1)
unfolding Client.put
get-flush-put_other_example =
    get-flush-put_other zeros zeros zeros zeros 8 9 empty reader files (2 ^ 31 + 5) 6 characters
      refl characters-Fits (omega arith) (ground arith) short_type short-IsOwned files-IsApart refl
