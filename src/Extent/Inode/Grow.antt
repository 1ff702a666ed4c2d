-- ===== src/Extent/Inode/Grow.antt =====
-- The loop of `write_file` in inode_manager.cc that adds blocks to a file.
use cse_2014_undergrad.Prelude.{
  ℕ, zero, suc, ◌+◌, ◌*◌, ◌<◌, ◌≤◌, Bool, false, ◌||◌, ◌≡◌, ◌≢◌, refl, sym, ap, ◌∙◌, subst, arith,
  ◌==◌, ==_iff, Bool-cases, inl, inr,
}
use cse_2014_undergrad.Extent.Block.{block_size, Block, write_block, BlockManager, alloc_block}
use cse_2014_undergrad.Extent.Block.Place.{IsBytes, used}
use cse_2014_undergrad.Extent.Block.Bitmap.{IsFormatted}
use cse_2014_undergrad.Extent.Block.Room.{
  IsRecorded, IsRoom, alloc_block-IsRoom, write_block-used, write_block-IsRoom, write_block-IsBytes,
}
use cse_2014_undergrad.Extent.Inode.{ndirect}
use cse_2014_undergrad.Extent.Inode.Records.{IsInode}
use cse_2014_undergrad.Extent.Inode.Table.{write_block-lt, write_block-ne}
use cse_2014_undergrad.Extent.Inode.File.{Open, blk, set_blk, piece, grow_from}
use cse_2014_undergrad.Extent.Inode.Addresses.{
  blk-set_blk_self, blk-set_blk_ne, set_blk-last, set_blk-IsInode, set_blk-type,
}

-- `n` blocks have been added to a file from its block `i` on.
pub record IsGrown (i n : ℕ) (bm : BlockManager) (f : Open) (content : Block) (bm' : BlockManager)
    (f' : Open) : Type 0 where
  pub kept : (k : ℕ) → k < i → blk f' k ≡ blk f k
  pub last : f'.ino.blocks ndirect ≡ f.ino.blocks ndirect
  pub type : f'.ino.type ≡ f.ino.type
  pub valid : IsInode f.ino → IsInode f'.ino
  pub fresh :
      (k : ℕ) → i ≤ k → k < i + n → IsRecorded (blk f' k) × (used bm.disk (blk f' k) ≡ false)
  pub apart : (k l : ℕ) → i ≤ k → k < l → l < i + n → blk f' l ≢ blk f' k
  pub holds :
      (k j : ℕ) → i ≤ k → k < i + n → j < block_size → bm'.disk (blk f' k) j ≡ piece content k j
  pub same :
      (id : ℕ) → 10 ≤ id → ((k : ℕ) → i ≤ k → k < i + n → blk f' k ≢ id) → bm'.disk id ≡ bm.disk id
  pub nblocks : bm'.nblocks ≡ bm.nblocks

or_false : (a b : Bool) → (a || b) ≡ false → (a ≡ false) × (b ≡ false)
or_false a b h = ground arith

-- The blocks that come after one more block has been added are added behind it.
IsGrown-suc :
    (n i id : ℕ) (bm bm1 bm' : BlockManager) (f f' : Open) (content : Block)
    → bm1.nblocks ≡ bm.nblocks
    → IsRecorded id
    → used bm.disk id ≡ false
    → ((j : ℕ) → IsRecorded j → used bm1.disk j ≡ (id == j || used bm.disk j))
    → ((k : ℕ) → 10 ≤ k → bm1.disk k ≡ bm.disk k)
    → IsGrown
        (i + 1)
        n
        (record bm1 { disk = write_block bm1.disk (blk (set_blk f i id) i) (piece content i) })
        (set_blk f i id)
        content
        bm'
        f'
    → IsGrown i (suc n) bm f content bm' f'
IsGrown-suc n i id bm bm1 bm' f f' content e v u w s g =
    let own : blk (set_blk f i id) i ≡ id = blk-set_blk_self f i id (omega (arith, v.1)) in
    let here : blk f' i ≡ id = g.kept i (omega arith) ∙ own in
    let others : (k : ℕ)
        → i + 1 ≤ k
        → k < i + 1 + n
        → IsRecorded (blk f' k) × ((id == blk f' k || used bm.disk (blk f' k)) ≡ false) =
      λ k a b.
        let (p, q) = g.fresh k a b in
        (
          p,
          sym (
                write_block-used bm1.disk (blk (set_blk f i id) i) (piece content i) (blk f' k)
                  (omega (arith, own, v.0)) p.1
                ∙ w (blk f' k) p)
              ∙ q,
        ) in
    record {
      kept = λ k l. g.kept k (omega arith) ∙ blk-set_blk_ne f i k id (λ q. omega (arith, q));
      last = g.last ∙ set_blk-last f i id;
      type = g.type ∙ set_blk-type f i id;
      valid = λ q. g.valid (set_blk-IsInode f i id (omega (arith, v.1)) q);
      fresh = λ k a b. elim (Bool-cases (i == k)) [
        | inl y ↦
            subst (λ q. IsRecorded (blk f' q) × (used bm.disk (blk f' q) ≡ false))
              ((==_iff i k).0 y)
              (subst (λ q. IsRecorded q × (used bm.disk q ≡ false)) (sym here) (v, u))
        | inr y ↦
            (let (p, q) = others k (ground (arith, y)) (omega arith) in
              (p, (or_false (id == blk f' k) (used bm.disk (blk f' k)) q).1))
      ];
      apart = λ k l a m b. elim (Bool-cases (i == k)) [
        | inl y ↦
            (let q = (or_false _ _ (others l (ground (arith, y)) (omega arith)).1).0 in
              λ t. differ id (blk f' l) q (t ∙ ap (blk f') (sym ((==_iff i k).0 y)) ∙ here))
        | inr y ↦ g.apart k l (ground (arith, y)) m (omega arith)
      ];
      holds = λ k j a b m. elim (Bool-cases (i == k)) [
        | inl y ↦
            subst (λ q. bm'.disk (blk f' q) j ≡ piece content q j) ((==_iff i k).0 y)
              (ap (λ q. bm'.disk q j) (here ∙ sym own)
                ∙ ap (λ c. c j)
                    (g.same (blk (set_blk f i id) i) (omega (arith, own, v.0))
                      (λ l p q t. differ id (blk f' l) (or_false _ _ (others l p q).1).0 (t ∙ own)))
                ∙ write_block-lt bm1.disk (blk (set_blk f i id) i) (piece content i) j
                    (omega (arith, own, v.1)) m)
        | inr y ↦ g.holds k j (ground (arith, y)) (omega arith) m
      ];
      same = λ k l a.
          g.same k l (λ m b c. a m (omega arith) (omega arith))
          ∙ write_block-ne bm1.disk (blk (set_blk f i id) i) (piece content i) k
              (λ q. a i (omega arith) (omega arith) (here ∙ sym own ∙ q))
          ∙ s k l;
      nblocks = g.nblocks ∙ e;
    }
  where
    differ : (x y : ℕ) → (x == y) ≡ false → y ≢ x
    differ x y q t = ground (arith, t)

pub grow_from-IsGrown :
    (n i : ℕ) (stack : Block) (bm : BlockManager) (f : Open) (content : Block)
    → IsFormatted bm
    → IsBytes bm.disk
    → IsRoom n bm.disk
    → ((p : ℕ) → content p < 256)
    → let (bm', f') = grow_from n i stack bm f content in IsGrown i n bm f content bm' f'
unfolding grow_from
grow_from-IsGrown zero i stack bm f content h b r c = record {
  kept = λ k l. refl;
  last = refl;
  type = refl;
  valid = λ g. g;
  fresh = λ k l m. absurd (omega arith);
  apart = λ k l a m e. absurd (omega arith);
  holds = λ k j a m e. absurd (omega arith);
  same = λ id m a. refl;
  nblocks = refl;
}
grow_from-IsGrown (suc n) i stack bm f content h b r c =
    let (v, u, w, r', b', s) = alloc_block-IsRoom stack bm n h b r in
    let id = (alloc_block stack bm).0 in
    let bm1 = (alloc_block stack bm).1 in
    let at : 10 ≤ blk (set_blk f i id) i =
      omega (arith, blk-set_blk_self f i id (omega (arith, v.1)), v.0) in
    IsGrown-suc n i id bm bm1 _ f _ content refl v u w s (
      grow_from-IsGrown n (i + 1) stack
        (record bm1 { disk = write_block bm1.disk (blk (set_blk f i id) i) (piece content i) })
        (set_blk f i id) content (record { blocks = h.blocks; inodes = h.inodes })
        (write_block-IsBytes bm1.disk _ _ b' (λ p. c (i * block_size + p)))
        (write_block-IsRoom bm1.disk _ _ n at r') c)
