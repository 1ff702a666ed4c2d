-- ===== src/Extent/Server.antt =====
-- The extent server over the inodes: extent_server.h and extent_server.cc.
--
-- Every method returns OK. `behind` is what lies behind the characters of a string.
pub mod Flushed
use cse_2014_undergrad.Prelude.{
  ℕ, suc, ◌+◌, ◌-◌, ◌%◌, ◌^◌, ◌<◌, ◌≤◌, false, Option, none, some, List, [], ◌∷◌, ◌≡◌, refl, ap,
  ◌∙◌, arith, ◌==◌, length, get_or,
}
use cse_2014_undergrad.Extent.Client.{Status, ok, Attr, Rpc}
use cse_2014_undergrad.Extent.Block.{block_size, inode_num, Block, BlockManager}
use cse_2014_undergrad.Extent.Block.Place.{IsBytes}
use cse_2014_undergrad.Extent.Block.Bitmap.{IsFormatted}
use cse_2014_undergrad.Extent.Block.Room.{IsRoom}
use cse_2014_undergrad.Extent.Inode.{Inode, ceil, alloc_inode}
use cse_2014_undergrad.Extent.Inode
use cse_2014_undergrad.Extent.Inode.Table.{inode_of}
use cse_2014_undergrad.Extent.Inode.Blocks.{bytes_from-agree}
use cse_2014_undergrad.Extent.Inode.File.{open_file, bytes_from, read_file, write_file, remove_file}
use cse_2014_undergrad.Extent.Inode.Head.{IsOwned}
use cse_2014_undergrad.Extent.Inode.Resize.{read_file-write_file}

-- `id &= 0x7fffffff`
abbrev pub masked : ℕ → ℕ
masked id = id % 2 ^ 31

-- `buf.c_str()`
abbrev pub c_str : List ℕ → Block → Block
c_str buf behind i = get_or buf i (behind i)

-- The contents of the string that `get` makes of what `read_file` has stored
abbrev pub string_of : Option (List ℕ) → List ℕ
string_of none = []
string_of (some bytes) = bytes

-- `extent_server`: `create`, `put`, `get`, `getattr` and `remove`, as the server of the RPCs of a client
module _ (stack behind : Block) (cur : ℕ) where
  unfoldable pub create : BlockManager → ℕ → Status × ℕ × BlockManager
  unfolding alloc_inode
  create bm type = let (id, bm') = alloc_inode stack cur bm type in (ok, id, bm')

  unfoldable pub put : BlockManager → ℕ → List ℕ → Status × BlockManager
  unfolding write_file
  put bm id buf = (ok, write_file stack cur bm (masked id) (c_str buf behind) (length buf))

  unfoldable pub get : BlockManager → ℕ → Status × List ℕ × BlockManager
  unfolding read_file
  get bm id = let (r, bm') = read_file stack cur bm (masked id) in (ok, string_of r, bm')

  unfoldable pub getattr : BlockManager → ℕ → Status × Attr × BlockManager
  getattr bm id = (ok, Inode.getattr stack bm (masked id), bm)

  unfoldable pub remove : BlockManager → ℕ → Status × BlockManager
  unfolding remove_file
  remove bm id = (ok, remove_file stack cur bm (masked id))

  abbrev pub extent_server : Rpc BlockManager
  unfolding create put get getattr remove
  extent_server = record {
    create = create;
    get = get;
    getattr = getattr;
    put = put;
    remove = remove;
  }

bytes_from-c_str :
    (buf : List ℕ) (behind : Block) → bytes_from (c_str buf behind) 0 (length buf) ≡ buf
unfolding bytes_from
bytes_from-c_str [] behind = refl
bytes_from-c_str (x ∷ xs) behind =
    ap (λ l. x ∷ l)
      (bytes_from-agree (c_str (x ∷ xs) behind) (c_str xs (λ i. behind (suc i))) 1 0 (length xs)
          (λ j h.
            let e : 1 + j ≡ suc (0 + j) = omega arith in ap (λ k. get_or (x ∷ xs) k (behind k)) e)
        ∙ bytes_from-c_str xs (λ i. behind (suc i)))

-- On a disk with the superblock of the constructor, an extent in use owns its blocks: they are data
-- blocks that all differ and that the bitmap has in use, its block of addresses too if it needs one, and
-- else it has none. It is put with contents of at most 160 blocks, more, fewer or as many as it has; where
-- it gets more, as many blocks are free, and one for addresses. The characters, and what lies behind them,
-- are bytes, the time and the size fit 32 bits. Then a get says OK and gives these contents.
pub put_get :
    (stack stack' behind behind' : Block) (cur cur' : ℕ) (bm : BlockManager) (id : ℕ) (buf : List ℕ)
    → IsFormatted bm
    → IsBytes bm.disk
    → ((p : ℕ) → c_str buf behind p < 256)
    → masked id < inode_num
    → (Inode.type (inode_of bm (masked id)) == 0) ≡ false
    → IsOwned bm (open_file stack bm (inode_of bm (masked id)))
    → (ceil (Inode.size (inode_of bm (masked id))) block_size < ceil (length buf) block_size
        → IsRoom
            (suc (
              ceil (length buf) block_size
              - ceil (Inode.size (inode_of bm (masked id))) block_size))
            bm.disk)
    → ceil (length buf) block_size ≤ 160
    → cur < 2 ^ 32
    → length buf < 2 ^ 32
    → ((get stack' behind' cur' (put stack behind cur bm id buf).1 id).0 ≡ ok)
      × ((get stack' behind' cur' (put stack behind cur bm id buf).1 id).1 ≡ buf)
unfolding get put
put_get stack stack' behind behind' cur cur' bm id buf f b p h t o r few c s = (
  refl,
  ap string_of (
        read_file-write_file stack stack' cur cur' bm (masked id) (c_str buf behind) (length buf) f
          b p h t o r few c s)
      ∙ bytes_from-c_str buf behind,
)
