-- ===== src/Extent/Inode/Gains.antt =====
-- What `write_file` of inode_manager.cc leaves as it is where a file gains blocks.
use cse_2014_undergrad.Prelude.{
  ℕ, suc, ◌+◌, ◌-◌, ◌^◌, ◌<◌, ◌≤◌, false, ◌≡◌, ◌≢◌, sym, ◌∙◌, arith, ltb, ◌==◌, Bool-cases, inl,
  inr,
}
use cse_2014_undergrad.Extent.Block.{block_size, Block, BlockManager}
use cse_2014_undergrad.Extent.Block.Place.{IsBytes, used}
use cse_2014_undergrad.Extent.Block.Bitmap.{IsFormatted}
use cse_2014_undergrad.Extent.Block.Room.{IsRoom}
use cse_2014_undergrad.Extent.Inode.{ndirect, Inode, ceil}
use cse_2014_undergrad.Extent.Inode.Records.{IsInode}
use cse_2014_undergrad.Extent.Inode.Table.{write_block-ne}
use cse_2014_undergrad.Extent.Inode.File.{Open, blk}
use cse_2014_undergrad.Extent.Inode.Grow.{IsGrown, grow_from-IsGrown}
use cse_2014_undergrad.Extent.Inode.Head.{IsOwned, IsForeign}
use cse_2014_undergrad.Extent.Inode.Based.{based, IsBased, based-IsBased, differ}
use cse_2014_undergrad.Extent.Inode.Grown.{grown, grown_inode, grown_disk}

-- The kind of the file, and the number of blocks of the disk
pub grown-kept :
    (stack : Block) (bm : BlockManager) (f : Open) (size : ℕ) (content : Block)
    → IsFormatted bm
    → IsBytes bm.disk
    → IsRoom (suc (ceil size block_size - ceil f.ino.size block_size)) bm.disk
    → IsOwned bm f
    → ((p : ℕ) → content p < 256)
    → ceil f.ino.size block_size < ceil size block_size
    → let p = grown stack bm f (ceil f.ino.size block_size) (ceil size block_size) content in
      (Inode.type (Open.ino p.1) ≡ f.ino.type)
      × (BlockManager.nblocks
            (grown_disk stack bm f (ceil f.ino.size block_size) (ceil size block_size) content)
          ≡ bm.nblocks)
grown-kept stack bm f size content h b r o p l =
    let bc = ceil f.ino.size block_size in
    let bc_new = ceil size block_size in
    let (bm1, f1) = based stack bm f bc bc_new in
    let d : IsBased bm f bc bc_new (bc_new - bc) bm1 f1 =
      based-IsBased stack bm f bc_new (bc_new - bc) h b r o l in
    let (bm2, f2) = grown stack bm f bc bc_new content in
    let e : IsGrown bc (bc_new - bc) bm1 f1 content bm2 f2 =
      grow_from-IsGrown (bc_new - bc) bc stack bm1 f1 content d.formatted d.bytes d.room p in
    (
      e.type ∙ d.type,
      elim (Bool-cases (f2.ino.blocks ndirect == 0)) [
        | inl y ↦ rw y (e.nblocks ∙ d.nblocks)
        | inr y ↦ rw y (e.nblocks ∙ d.nblocks)
      ],
    )

-- A file that grows leaves every foreign block alone.
pub grown-same :
    (stack : Block) (bm : BlockManager) (f : Open) (size : ℕ) (content : Block) (id : ℕ)
    → IsFormatted bm
    → IsBytes bm.disk
    → IsRoom (suc (ceil size block_size - ceil f.ino.size block_size)) bm.disk
    → IsOwned bm f
    → ((p : ℕ) → content p < 256)
    → ceil f.ino.size block_size < ceil size block_size
    → IsForeign bm f id
    → BlockManager.disk
        (grown_disk stack bm f (ceil f.ino.size block_size) (ceil size block_size) content)
        id
      ≡ bm.disk id
grown-same stack bm f size content id h b r o p l z =
    let bc = ceil f.ino.size block_size in
    let bc_new = ceil size block_size in
    let (bm1, f1) = based stack bm f bc bc_new in
    let d : IsBased bm f bc bc_new (bc_new - bc) bm1 f1 =
      based-IsBased stack bm f bc_new (bc_new - bc) h b r o l in
    let (bm2, f2) = grown stack bm f bc bc_new content in
    let e : IsGrown bc (bc_new - bc) bm1 f1 content bm2 f2 =
      grow_from-IsGrown (bc_new - bc) bc stack bm1 f1 content d.formatted d.bytes d.room p in
    let new : (k : ℕ) → bc ≤ k → k < bc + (bc_new - bc) → blk f2 k ≢ id = λ k u v. elim z.kind [
      | inl q ↦ λ t. omega (arith, q, t, (e.fresh k u v).0)
      | inr (q, q') ↦
          λ t. differ (used bm1.disk) (blk f2 k) id (e.fresh k u v).1 (d.in_use id q q') (sym t)
    ] in
    let same : bm2.disk id ≡ bm.disk id = e.same id z.behind new ∙ d.same id z.behind in
    elim (Bool-cases (f2.ino.blocks ndirect == 0)) [
      | inl y ↦ rw y same
      | inr y ↦
          (let m : ndirect < bc_new =
              long bc_new (f2.ino.blocks ndirect) y (λ q. e.last ∙ d.no_last q) in
            rw y (
              write_block-ne bm2.disk (f2.ino.blocks ndirect) f2.ind id
                (λ t. d.foreign id m z (sym e.last ∙ t))
              ∙ same))
    ]
  where
    long : (n x : ℕ) → (x == 0) ≡ false → (n ≤ ndirect → x ≡ 0) → ndirect < n
    long n x y g = elim (Bool-cases (ltb ndirect n)) [
      | inl u ↦ ground (arith, u)
      | inr u ↦ absurd (ground (arith, y, g (ground (arith, u))))
    ]

pub grown-IsInode :
    (stack : Block) (cur : ℕ) (bm : BlockManager) (f : Open) (size : ℕ) (content : Block)
    → IsFormatted bm
    → IsBytes bm.disk
    → IsRoom (suc (ceil size block_size - ceil f.ino.size block_size)) bm.disk
    → IsOwned bm f
    → IsInode f.ino
    → ((p : ℕ) → content p < 256)
    → cur < 2 ^ 32
    → size < 2 ^ 32
    → ceil f.ino.size block_size < ceil size block_size
    → IsInode (
        grown_inode stack cur bm f size (ceil f.ino.size block_size) (ceil size block_size) content)
grown-IsInode stack cur bm f size content h b r o g p c s l =
    let bc = ceil f.ino.size block_size in
    let bc_new = ceil size block_size in
    let (bm1, f1) = based stack bm f bc bc_new in
    let d : IsBased bm f bc bc_new (bc_new - bc) bm1 f1 =
      based-IsBased stack bm f bc_new (bc_new - bc) h b r o l in
    let v =
      IsGrown.valid
        (grow_from-IsGrown (bc_new - bc) bc stack bm1 f1 content d.formatted d.bytes d.room p)
        (d.valid g) in
    record {
      type = v.type;
      size = s;
      atime = v.atime;
      mtime = c;
      ctime = c;
      blocks = v.blocks;
      none_beyond = v.none_beyond;
    }
