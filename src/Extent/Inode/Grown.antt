-- ===== src/Extent/Inode/Grown.antt =====
-- A file that gains blocks: the branch of `write_file` in inode_manager.cc for more blocks than before.
use cse_2014_undergrad.Prelude.{
  ℕ, suc, ◌-◌, ◌^◌, ◌<◌, ◌≤◌, true, false, ◌≡◌, ◌≢◌, refl, sym, ap, ◌∙◌, arith, subst,
  if◌then◌else◌, ltb, ◌==◌, Bool-cases, inl, inr,
}
use cse_2014_undergrad.Extent.Block.{block_size, Block, BlockManager, write_block}
use cse_2014_undergrad.Extent.Block.Place.{IsBytes, used}
use cse_2014_undergrad.Extent.Block.Bitmap.{IsFormatted}
use cse_2014_undergrad.Extent.Block.Room.{IsRecorded, IsRoom}
use cse_2014_undergrad.Extent.Inode.{ndirect, Inode, ceil, put_inode}
use cse_2014_undergrad.Extent.Inode.Records.{IsInode}
use cse_2014_undergrad.Extent.Inode.Table.{write_block-lt, write_block-ne}
use cse_2014_undergrad.Extent.Inode.File.{Open, blk, piece, grow_from, write_grown}
use cse_2014_undergrad.Extent.Inode.Grow.{IsGrown, grow_from-IsGrown}
use cse_2014_undergrad.Extent.Inode.Head.{IsOwned}
use cse_2014_undergrad.Extent.Inode.Stored.{IsStored}
use cse_2014_undergrad.Extent.Inode.Based.{based, IsBased, based-IsBased, differ}

abbrev pub grown : Block → BlockManager → Open → ℕ → ℕ → Block → BlockManager × Open
grown stack bm f bc bc_new content =
    let (bm1, f1) = based stack bm f bc bc_new in grow_from (bc_new - bc) bc stack bm1 f1 content

abbrev pub grown_inode : Block → ℕ → BlockManager → Open → ℕ → ℕ → ℕ → Block → Inode
grown_inode stack cur bm f size bc bc_new content =
    let f2 = (grown stack bm f bc bc_new content).1 in
    record f2.ino { mtime = cur; ctime = cur; size = size }

-- The block of addresses is written, if there is one.
abbrev pub with_last : BlockManager → Open → BlockManager
with_last bm f =
    if f.ino.blocks ndirect == 0
    then bm
    else record bm { disk = write_block bm.disk (f.ino.blocks ndirect) f.ind }

abbrev pub grown_disk : Block → BlockManager → Open → ℕ → ℕ → Block → BlockManager
grown_disk stack bm f bc bc_new content =
    let (bm2, f2) = grown stack bm f bc bc_new content in with_last bm2 f2

pub write_grown_lem :
    (stack : Block) (cur : ℕ) (bm : BlockManager) (inum : ℕ) (f : Open) (size bc bc_new : ℕ)
    (content : Block)
    → write_grown stack cur bm inum f size bc bc_new content
      ≡ put_inode stack
          (grown_disk stack bm f bc bc_new content)
          inum
          (grown_inode stack cur bm f size bc bc_new content)
unfolding write_grown
write_grown_lem stack cur bm inum f size bc bc_new content = refl

-- The blocks of a file hold contents, and the block of addresses is still to be written.
record IsFull (n : ℕ) (bm : BlockManager) (f : Open) (content : Block) : Type 0 where
  valid : IsInode f.ino
  recorded : (k : ℕ) → k < n → IsRecorded (blk f k)
  held : (k j : ℕ) → k < n → j < block_size → bm.disk (blk f k) j ≡ piece content k j
  apart : ndirect < n → (k : ℕ) → k < n → f.ino.blocks ndirect ≢ blk f k
  last : ndirect < n → IsRecorded (f.ino.blocks ndirect)
  no_last : n ≤ ndirect → f.ino.blocks ndirect ≡ 0

grown-IsFull :
    (stack : Block) (bm : BlockManager) (f : Open) (size : ℕ) (content : Block)
    → IsFormatted bm
    → IsBytes bm.disk
    → IsRoom (suc (ceil size block_size - ceil f.ino.size block_size)) bm.disk
    → IsOwned bm f
    → IsInode f.ino
    → ((p : ℕ) → content p < 256)
    → ceil f.ino.size block_size < ceil size block_size
    → ((k j : ℕ)
        → k < ceil f.ino.size block_size
        → j < block_size
        → bm.disk (blk f k) j ≡ piece content k j)
    → let (bm2, f2) =
        grown stack bm f (ceil f.ino.size block_size) (ceil size block_size) content in
      IsFull (ceil size block_size) bm2 f2 content
grown-IsFull stack bm f size content h b r o g p l a =
    let bc = ceil f.ino.size block_size in
    let bc_new = ceil size block_size in
    let (bm1, f1) = based stack bm f bc bc_new in
    let d : IsBased bm f bc bc_new (bc_new - bc) bm1 f1 =
      based-IsBased stack bm f bc_new (bc_new - bc) h b r o l in
    let (bm2, f2) = grown stack bm f bc bc_new content in
    let e : IsGrown bc (bc_new - bc) bm1 f1 content bm2 f2 =
      grow_from-IsGrown (bc_new - bc) bc stack bm1 f1 content d.formatted d.bytes d.room p in
    let old : (k : ℕ) → k < bc → blk f2 k ≡ blk f k = λ k m. e.kept k m ∙ d.kept k m in
    let old_recorded : (k : ℕ) → k < bc → IsRecorded (blk f k) =
      λ k m. ((o.layout.placed k m).0, (o.recorded k m).0) in
    let recorded : (k : ℕ) → k < bc_new → IsRecorded (blk f2 k) = λ k m.
      elim (Bool-cases (ltb k bc)) [
        | inl y ↦
            subst IsRecorded (sym (old k (ground (arith, y)))) (old_recorded k (ground (arith, y)))
        | inr y ↦ (e.fresh k (ground (arith, y)) (omega arith)).0
      ] in
    let held : (k j : ℕ) → k < bc_new → j < block_size → bm2.disk (blk f2 k) j ≡ piece content k j =
      λ k j m q. elim (Bool-cases (ltb k bc)) [
        | inl y ↦
            (let k' : k < bc = ground (arith, y) in
              let low : 10 ≤ blk f k = omega (arith, (o.layout.placed k k').0) in
              ap (λ id. bm2.disk id j) (old k k')
              ∙ ap (λ t. t j)
                  (e.same (blk f k) low (λ i u v t.
                      differ (used bm1.disk) (blk f2 i) (blk f k) (e.fresh i u v).1
                        (d.in_use (blk f k) (old_recorded k k') (o.recorded k k').1) (sym t))
                    ∙ d.same (blk f k) low)
              ∙ a k j k' q)
        | inr y ↦ e.holds k j (ground (arith, y)) (omega arith) q
      ] in
    let apart : ndirect < bc_new → (k : ℕ) → k < bc_new → f2.ino.blocks ndirect ≢ blk f2 k =
      λ m k q. elim (Bool-cases (ltb k bc)) [
        | inl y ↦
            λ t. d.apart k m (ground (arith, y)) (sym (old k (ground (arith, y))) ∙ sym t ∙ e.last)
        | inr y ↦ λ t.
            differ (used bm1.disk) (blk f2 k) (f1.ino.blocks ndirect)
              (e.fresh k (ground (arith, y)) (omega arith)).1 (d.last m).1 (sym e.last ∙ t)
      ] in
    let last : ndirect < bc_new → IsRecorded (f2.ino.blocks ndirect) =
      λ m. subst IsRecorded (sym e.last) (d.last m).0 in
    record {
      valid = e.valid (d.valid g);
      recorded = recorded;
      held = held;
      apart = apart;
      last = λ m. subst IsRecorded (sym e.last) (d.last m).0;
      no_last = λ m. e.last ∙ d.no_last m;
    }

with_last-at :
    (n : ℕ) (bm : BlockManager) (f : Open) (content : Block) (k j : ℕ)
    → IsFull n bm f content
    → k < n
    → j < block_size
    → BlockManager.disk (with_last bm f) (blk f k) j ≡ piece content k j
with_last-at n bm f content k j g m q = elim (Bool-cases (ltb ndirect n)) [
  | inl y ↦
      (let z : (f.ino.blocks ndirect == 0) ≡ false = ground (arith, g.last (ground (arith, y))) in
        rw z (
          ap (λ t. t j)
            (write_block-ne bm.disk (f.ino.blocks ndirect) f.ind (blk f k)
              (g.apart (ground (arith, y)) k m))
          ∙ g.held k j m q))
  | inr y ↦
      (let z : (f.ino.blocks ndirect == 0) ≡ true = ground (arith, g.no_last (ground (arith, y))) in
        rw z (g.held k j m q))
]

with_last-last :
    (n : ℕ) (bm : BlockManager) (f : Open) (content : Block) (j : ℕ)
    → IsFull n bm f content
    → ndirect < n
    → j < block_size
    → BlockManager.disk (with_last bm f) (f.ino.blocks ndirect) j ≡ f.ind j
with_last-last n bm f content j g m q =
    let z : (f.ino.blocks ndirect == 0) ≡ false = ground (arith, g.last m) in
    rw z (write_block-lt bm.disk (f.ino.blocks ndirect) f.ind j (omega (arith, g.last m)) q)

-- The blocks of a file that has grown hold the contents.
pub grown-IsStored :
    (stack : Block) (cur : ℕ) (bm : BlockManager) (f : Open) (size : ℕ) (content : Block)
    → IsFormatted bm
    → IsBytes bm.disk
    → IsRoom (suc (ceil size block_size - ceil f.ino.size block_size)) bm.disk
    → IsOwned bm f
    → IsInode f.ino
    → ((p : ℕ) → content p < 256)
    → cur < 2 ^ 32
    → size < 2 ^ 32
    → ceil f.ino.size block_size < ceil size block_size
    → ceil size block_size ≤ 160
    → ((k j : ℕ)
        → k < ceil f.ino.size block_size
        → j < block_size
        → bm.disk (blk f k) j ≡ piece content k j)
    → IsStored
        (grown_disk stack bm f (ceil f.ino.size block_size) (ceil size block_size) content)
        (record {
          ino =
              grown_inode stack cur bm f size
                (ceil f.ino.size block_size)
                (ceil size block_size)
                content;
          ind =
              Open.ind
                (grown stack bm f (ceil f.ino.size block_size) (ceil size block_size) content).1;
        })
        content
grown-IsStored stack cur bm f size content h b r o g p c s l few a =
    let n = ceil size block_size in
    let (bm2, f2) = grown stack bm f (ceil f.ino.size block_size) n content in
    let u : IsFull n bm2 f2 content = grown-IsFull stack bm f size content h b r o g p l a in
    record {
      valid = record {
        type = u.valid.type;
        size = s;
        atime = u.valid.atime;
        mtime = c;
        ctime = c;
        blocks = u.valid.blocks;
        none_beyond = u.valid.none_beyond;
      };
      few = few;
      placed = λ k m. (let q = u.recorded k m in (q.0, omega (arith, q)));
      holds = λ k j m q. with_last-at n bm2 f2 content k j u m q;
      last_placed = λ m. (let q = u.last m in (q.0, omega (arith, q)));
      last_holds = λ m j q. with_last-last n bm2 f2 content j u m q;
    }
