-- ===== src/Extent/Inode/Based.antt =====
-- Where `write_file` of inode_manager.cc gives a file its block of addresses, before it adds blocks.
use cse_2014_undergrad.Prelude.{
  ℕ, suc, ◌<◌, ◌≤◌, true, false, Bool, ◌||◌, ◌≡◌, ◌≢◌, refl, sym, ap, ◌∙◌, arith, if◌then◌else◌,
  ltb, leb, ◌&&◌, ◌==◌, ==-refl, Bool-cases, inl, inr, update, update_ne, update_self,
}
use cse_2014_undergrad.Extent.Block.{block_size, Block, BlockManager, alloc_block}
use cse_2014_undergrad.Extent.Block.Place.{IsBytes, used}
use cse_2014_undergrad.Extent.Block.Bitmap.{IsFormatted}
use cse_2014_undergrad.Extent.Block.Room.{IsRecorded, IsRoom, alloc_block-IsRoom}
use cse_2014_undergrad.Extent.Inode.{ndirect, ceil}
use cse_2014_undergrad.Extent.Inode.Records.{IsInode}
use cse_2014_undergrad.Extent.Inode.File.{Open, blk}
use cse_2014_undergrad.Extent.Inode.Head.{IsOwned, IsForeign}

-- The block of addresses that a file gets with its first block that is not direct
abbrev pub based : Block → BlockManager → Open → ℕ → ℕ → BlockManager × Open
based stack bm f bc bc_new =
    let (id, bm') = alloc_block stack bm in
    if leb bc ndirect && ltb ndirect bc_new
    then (
      bm',
      record {
        ino = record f.ino { blocks = update f.ino.blocks ndirect id };
        ind = λ i. if ltb i block_size then 0 else f.ind i;
      },
    )
    else (bm, f)

-- What a file is before it gets new blocks of contents
pub record IsBased (bm : BlockManager) (f : Open) (bc bc_new n : ℕ) (bm1 : BlockManager) (f1 : Open)
    : Type 0 where
  pub kept : (k : ℕ) → k < bc → blk f1 k ≡ blk f k
  pub last :
      ndirect < bc_new
      → IsRecorded (f1.ino.blocks ndirect) × (used bm1.disk (f1.ino.blocks ndirect) ≡ true)
  pub apart : (k : ℕ) → ndirect < bc_new → k < bc → blk f k ≢ f1.ino.blocks ndirect
  pub foreign : (id : ℕ) → ndirect < bc_new → IsForeign bm f id → f1.ino.blocks ndirect ≢ id
  pub no_last : bc_new ≤ ndirect → f1.ino.blocks ndirect ≡ 0
  pub type : f1.ino.type ≡ f.ino.type
  pub valid : IsInode f.ino → IsInode f1.ino
  pub same : (id : ℕ) → 10 ≤ id → bm1.disk id ≡ bm.disk id
  pub in_use : (j : ℕ) → IsRecorded j → used bm.disk j ≡ true → used bm1.disk j ≡ true
  pub room : IsRoom n bm1.disk
  pub bytes : IsBytes bm1.disk
  pub formatted : IsFormatted bm1
  pub nblocks : bm1.nblocks ≡ bm.nblocks

false≢true : false ≢ true
false≢true e = cc

-- A block that is free is none that is in use.
pub differ : (u : ℕ → Bool) (x y : ℕ) → u x ≡ false → u y ≡ true → y ≢ x
differ u x y p q e = false≢true (sym p ∙ ap u (sym e) ∙ q)

pub based-IsBased :
    (stack : Block) (bm : BlockManager) (f : Open) (bc_new n : ℕ)
    → IsFormatted bm
    → IsBytes bm.disk
    → IsRoom (suc n) bm.disk
    → IsOwned bm f
    → ceil f.ino.size block_size < bc_new
    → let (bm1, f1) = based stack bm f (ceil f.ino.size block_size) bc_new in
      IsBased bm f (ceil f.ino.size block_size) bc_new n bm1 f1
unfolding alloc_block
based-IsBased stack bm f bc_new n h b r o l =
    let bc = ceil f.ino.size block_size in
    elim (Bool-cases (leb bc ndirect && ltb ndirect bc_new)) [
      | inl y ↦
          (let (v, u, w, r', b', s) = alloc_block-IsRoom stack bm n h b r in
            let id = (alloc_block stack bm).0 in
            let short : bc ≤ ndirect = ground (arith, y) in
            rw y (record {
              kept = λ k m.
                  (let z : ltb k ndirect ≡ true = ground arith in
                    rw z (update_ne f.ino.blocks ndirect k id (λ e. omega (arith, e))));
              last = λ m.
                  rw (update_self f.ino.blocks ndirect id)
                    (v, w id v ∙ ap (λ t. t || used bm.disk id) (==-refl id));
              apart = λ k m q e.
                  differ (used bm.disk) id (blk f k) u (o.recorded k q).1
                    (e ∙ update_self f.ino.blocks ndirect id);
              foreign = λ i m z. elim z.kind [
                | inl q ↦ λ e. omega (arith, q, e, v.0, update_self f.ino.blocks ndirect id)
                | inr (q, q') ↦ λ e.
                    differ (used bm.disk) id i u q' (sym e ∙ update_self f.ino.blocks ndirect id)
              ];
              no_last = λ m. absurd (ground (arith, y));
              type = refl;
              valid = λ g. record {
                type = g.type;
                size = g.size;
                atime = g.atime;
                mtime = g.mtime;
                ctime = g.ctime;
                blocks = λ j. ground (arith, g.blocks j, v.1);
                none_beyond = λ j m.
                    update_ne f.ino.blocks ndirect j id (λ e. omega (arith, e)) ∙ g.none_beyond j m;
              };
              same = s;
              in_use = λ j m q. w j m ∙ or_true (id == j) q;
              room = r';
              bytes = b';
              formatted = record { blocks = h.blocks; inodes = h.inodes };
              nblocks = refl;
            }))
      | inr y ↦ rw y (record {
        kept = λ k m. refl;
        last = λ m.
            (let q = o.last_recorded (ground (arith, y)) in
              (((o.layout.last_placed (ground (arith, y))).0, q.0), q.1));
        apart = λ k m q. o.layout.last_apart k (ground (arith, y)) q;
        foreign = λ i m z. z.last (ground (arith, y));
        no_last = λ m. o.no_last (omega arith);
        type = refl;
        valid = λ g. g;
        same = λ id m. refl;
        in_use = λ j m q. q;
        room = omega arith;
        bytes = b;
        formatted = h;
        nblocks = refl;
      })
    ]
  where
    or_true : (a : Bool) {b : Bool} → b ≡ true → (a || b) ≡ true
    or_true a h = ground arith
