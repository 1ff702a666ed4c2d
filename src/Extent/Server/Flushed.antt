-- ===== src/Extent/Server/Flushed.antt =====
-- extent_client.cc over extent_server.cc: what one client writes and gives back, and another then reads.
use cse_2014_undergrad.Prelude.{
  ℕ, suc, ◌-◌, ◌^◌, ◌<◌, ◌≤◌, false, none, some, List, ◌≡◌, ◌≢◌, refl, sym, ap, ◌∙◌, arith, update,
  ◌==◌, length,
}
use cse_2014_undergrad.Extent.Client.{ok, CacheEntry, Cache, Rpc, entry_or, flush, is_ok}
use cse_2014_undergrad.Extent.Client
use cse_2014_undergrad.Extent.Block.{block_size, inode_num, Block, BlockManager}
use cse_2014_undergrad.Extent.Block.Place.{IsBytes}
use cse_2014_undergrad.Extent.Block.Bitmap.{IsFormatted}
use cse_2014_undergrad.Extent.Block.Room.{IsRoom}
use cse_2014_undergrad.Extent.Inode.{Inode, ceil}
use cse_2014_undergrad.Extent.Inode.Table.{inode_of}
use cse_2014_undergrad.Extent.Inode.File.{open_file}
use cse_2014_undergrad.Extent.Inode.Head.{IsOwned}
use cse_2014_undergrad.Extent.Inode.Others.{IsApart, read_file-write_file_other}
use cse_2014_undergrad.Extent.Server.{masked, c_str, string_of, put, get, extent_server, put_get}

-- The disk has room for the contents `buf` of the extent `id`: it has the superblock of the constructor,
-- the extent is in use and owns its blocks, and where it gets more of them, as many are free, and one for
-- addresses. There are at most 160 blocks in all; the characters, and what lies behind them, are bytes,
-- the time and the size fit 32 bits.
pub record Fits (stack behind : Block) (cur : ℕ) (bm : BlockManager) (id : ℕ) (buf : List ℕ)
    : Type 0 where
  pub formatted : IsFormatted bm
  pub bytes : IsBytes bm.disk
  pub characters : (p : ℕ) → c_str buf behind p < 256
  pub is_inode : masked id < inode_num
  pub in_use : (Inode.type (inode_of bm (masked id)) == 0) ≡ false
  pub owned : IsOwned bm (open_file stack bm (inode_of bm (masked id)))
  pub room :
      ceil (Inode.size (inode_of bm (masked id))) block_size < ceil (length buf) block_size
      → IsRoom
          (suc
            (ceil (length buf) block_size - ceil (Inode.size (inode_of bm (masked id))) block_size))
          bm.disk
  pub few : ceil (length buf) block_size ≤ 160
  pub clock : cur < 2 ^ 32
  pub size : length buf < 2 ^ 32

module _ {S : Type 0} (cl : Rpc S) (s : S) (id : ℕ) where
  -- What a client puts goes to the server when it flushes.
  flush-put :
      (c : Cache) (buf : List ℕ)
      → CacheEntry.deleted (entry_or (c.bcache id)) ≡ false
      → (cl.put s id buf).0 ≡ ok
      → (d : Cache) × (flush cl (Client.put c id buf) s id ≡ some (d, (cl.put s id buf).1))
        × (d.bcache id ≡ none)
  unfolding flush Client.put
  flush-put c buf alive h =
      let c1 = Client.put c id buf in
      (
        record { acache = update c1.acache id none; bcache = update c1.bcache id none },
        ground (arith, alive, h),
        ground arith,
      )

  -- A client without the contents of an extent asks the server.
  get-miss :
      (c : Cache)
      → c.bcache id ≡ none
      → (cl.get s id).0 ≡ ok
      → ((Client.get cl c s id).0 ≡ ok) × ((Client.get cl c s id).1 ≡ (cl.get s id).1)
  unfolding Client.get
  get-miss c n h = (ground (arith, n, h), ground (arith, n, h))

-- What a client puts, and flushes, is what any client without the extent in its cache then gets from
-- the extent server, the writer too; the flush does not abort, and the contents are in the writer's cache
-- no more. The extent is in use at the server and owns its blocks, the disk is in order and has room for the
-- contents, of at most 160 blocks (`Fits`), and the writer has not removed the extent.
pub get-flush-put :
    (stack stack' behind behind' : Block) (cur cur' : ℕ) (c c' : Cache) (bm : BlockManager) (id : ℕ)
    (buf : List ℕ)
    → CacheEntry.deleted (entry_or (c.bcache id)) ≡ false
    → Fits stack behind cur bm id buf
    → c'.bcache id ≡ none
    → (d : Cache) × (bm' : BlockManager) × (flush
          (extent_server stack behind cur)
          (Client.put c id buf)
          bm
          id
        ≡ some (d, bm'))
      × (d.bcache id ≡ none)
      × ((Client.get (extent_server stack' behind' cur') c' bm' id).0 ≡ ok)
      × ((Client.get (extent_server stack' behind' cur') c' bm' id).1 ≡ buf)
unfolding put get extent_server
get-flush-put stack stack' behind behind' cur cur' c c' bm id buf alive r n =
    let (d, e, gone) = flush-put (extent_server stack behind cur) bm id c buf alive refl in
    let bm' = (put stack behind cur bm id buf).1 in
    let (st, v) = get-miss (extent_server stack' behind' cur') bm' id c' n refl in
    let back =
      put_get stack stack' behind behind' cur cur' bm id buf r.formatted r.bytes r.characters
        r.is_inode r.in_use r.owned r.room r.few r.clock r.size in
    (d, bm', e, gone, st, v ∙ back.1)

-- When a client puts an extent and flushes it, the flush does not abort, and any client that has some
-- other extent not in its cache gets of that from the extent server what it would have got before. The one
-- that is put fits the disk (`Fits`), and the writer has not removed it; the other one is another inode
-- that is in use, owns its blocks and has none of them in common with the first.
pub get-flush-put_other :
    (stack stack' behind behind' : Block) (cur cur' : ℕ) (c c' : Cache) (bm : BlockManager)
    (id other : ℕ) (buf : List ℕ)
    → CacheEntry.deleted (entry_or (c.bcache id)) ≡ false
    → Fits stack behind cur bm id buf
    → masked other < inode_num
    → masked id ≢ masked other
    → (Inode.type (inode_of bm (masked other)) == 0) ≡ false
    → IsOwned bm (open_file stack' bm (inode_of bm (masked other)))
    → IsApart
        (open_file stack bm (inode_of bm (masked id)))
        (open_file stack' bm (inode_of bm (masked other)))
    → c'.bcache other ≡ none
    → (d : Cache) × (bm' : BlockManager) × (flush
          (extent_server stack behind cur)
          (Client.put c id buf)
          bm
          id
        ≡ some (d, bm'))
      × ((Client.get (extent_server stack' behind' cur') c' bm' other).1
          ≡ (Client.get (extent_server stack' behind' cur') c' bm other).1)
unfolding put get extent_server
get-flush-put_other stack stack' behind behind' cur cur' c c' bm id other buf alive r h ne t o a n =
    let (d, e, gone) = flush-put (extent_server stack behind cur) bm id c buf alive refl in
    let bm' = (put stack behind cur bm id buf).1 in
    let now = (get-miss (extent_server stack' behind' cur') bm' other c' n refl).1 in
    let before = (get-miss (extent_server stack' behind' cur') bm other c' n refl).1 in
    let kept =
      read_file-write_file_other stack stack' cur cur' bm (masked id) (masked other)
        (c_str buf behind) (length buf) r.formatted r.bytes r.characters r.is_inode h ne r.in_use t
        r.owned o a r.room r.clock r.size in
    (d, bm', e, now ∙ ap string_of kept ∙ sym before)
