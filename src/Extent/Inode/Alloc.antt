-- ===== src/Extent/Inode/Alloc.antt =====
-- `alloc_inode`: the first inode that is not in use.
use cse_2014_undergrad.Prelude.{
  ℕ, zero, suc, ◌+◌, ◌-◌, ◌*◌, ◌%◌, ◌^◌, ◌<◌, ◌≤◌, true, false, ◌≡◌, ◌⊎◌, inl, inr, refl, sym, ap,
  ◌∙◌, subst, arith, if◌then◌else◌, ltb, ◌==◌, Bool-cases,
}
use cse_2014_undergrad.Extent.Block.{
  inode_num, inode_sz, ipb, iblock, Block, read_block, write_block, BlockManager,
}
use cse_2014_undergrad.Extent.Block.Place.{IsBytes}
use cse_2014_undergrad.Extent.Inode.{
  Inode, load_inode, store_inode, put_inode, Search, next_block, passed, found_at, search_block,
  new_inode, alloc_inode_from, alloc_inode, ceil,
}
use cse_2014_undergrad.Extent.Inode.Records.{IsInode, load_inode-agree}
use cse_2014_undergrad.Extent.Inode.Table.{
  IsFormatted, inode_of, inode_of-IsInode, put_inode_lem, read_block-lt,
}
use cse_2014_undergrad.Extent.Inode.Scan.{IsTaken, Searched, search_block_lem}

-- The inodes of block `i`, once it is in the buffer
table-at :
    (bm : BlockManager) (i m : ℕ) (buf : Block)
    → IsFormatted bm
    → i < 342
    → m < ipb
    → load_inode (read_block bm.disk (i + iblock 0 bm.nblocks) buf) m ≡ inode_of bm (m + i * ipb)
unfolding inode_of
table-at bm i m buf f h k =
    let e : i + iblock 0 bm.nblocks ≡ iblock (m + i * ipb) bm.nblocks = omega arith in
    let e' : m ≡ (m + i * ipb) % ipb = omega arith in
    load_inode-agree (read_block bm.disk (i + iblock 0 bm.nblocks) buf)
      (bm.disk (i + iblock 0 bm.nblocks)) m m
      (λ j l.
        read_block-lt bm.disk (i + iblock 0 bm.nblocks) buf (m * inode_sz + j) (omega (arith, f))
          (omega arith))
    ∙ ap (λ id. load_inode (bm.disk id) m) e
    ∙ ap (λ q. load_inode (bm.disk (iblock (m + i * ipb) bm.nblocks)) q) e'

abbrev pub IsBusy : BlockManager → ℕ → Type 0
IsBusy bm m = (Inode.type (inode_of bm m) == 0) ≡ false

-- What `alloc_inode` does from the inode `low` on: it finds no free one and changes nothing, or it takes
-- the first free one.
abbrev pub Allocated : BlockManager → ℕ → ℕ → ℕ → ℕ × BlockManager → Type 0
Allocated bm type cur low r =
    ((r.0 ≡ 0) × (r.1 ≡ bm) × ((m : ℕ) → low ≤ m → 1 ≤ m → m < inode_num → IsBusy bm m))
    ⊎ ((1 ≤ r.0)
        × (r.0 < inode_num)
        × ((Inode.type (inode_of bm r.0) == 0) ≡ true)
        × ((m : ℕ) → low ≤ m → 1 ≤ m → m < r.0 → IsBusy bm m)
        × ((m : ℕ)
            → m < inode_num
            → inode_of r.1 m
              ≡ (if r.0 == m then new_inode type cur (inode_of bm r.0) else inode_of bm m)))

new_inode-IsInode :
    (type cur : ℕ) (ino : Inode)
    → IsInode ino
    → type < 2 ^ 16
    → cur < 2 ^ 32
    → IsInode (new_inode type cur ino)
new_inode-IsInode type cur ino v t c = record {
  type = t;
  size = omega arith;
  atime = v.atime;
  mtime = c;
  ctime = c;
  blocks = λ n. omega arith;
  none_beyond = λ n h. refl;
}

-- The inode that is found is stored as `put_inode` would.
store_found :
    (bm : BlockManager) (i j : ℕ) (buf : Block) (ino : Inode)
    → i < 342
    → j < ipb
    → record bm {
      disk =
          write_block bm.disk
            (i + iblock 0 bm.nblocks)
            (store_inode (read_block bm.disk (i + iblock 0 bm.nblocks) buf) j ino);
    }
      ≡ put_inode buf bm (j + i * ipb) ino
unfolding put_inode
store_found bm i j buf ino h k =
    let e : i + iblock 0 bm.nblocks ≡ iblock (j + i * ipb) bm.nblocks = omega arith in
    let e' : j ≡ (j + i * ipb) % ipb = omega arith in
    let write : ℕ → ℕ → BlockManager = λ id q. record bm {
      disk = write_block bm.disk id (store_inode (read_block bm.disk id buf) q ino);
    } in
    ap (λ id. write id j) e ∙ ap (λ q. write (iblock (j + i * ipb) bm.nblocks) q) e'

found :
    (bm : BlockManager) (i j : ℕ) (buf : Block) (type cur : ℕ) (m : ℕ)
    → IsFormatted bm
    → IsBytes bm.disk
    → type < 2 ^ 16
    → cur < 2 ^ 32
    → i < 342
    → j < ipb
    → j + i * ipb < inode_num
    → m < inode_num
    → let buf' = read_block bm.disk (i + iblock 0 bm.nblocks) buf in
      inode_of
        (record bm {
          disk =
              write_block bm.disk
                (i + iblock 0 bm.nblocks)
                (store_inode buf' j (new_inode type cur (load_inode buf' j)));
        })
        m
      ≡ (if j + i * ipb == m then new_inode type cur (inode_of bm (j + i * ipb)) else inode_of bm m)
found bm i j buf type cur m f b t c h k l g =
    let ino = inode_of bm (j + i * ipb) in
    let buf' = read_block bm.disk (i + iblock 0 bm.nblocks) buf in
    let write : Inode → BlockManager = λ o. record bm {
      disk =
          write_block bm.disk (i + iblock 0 bm.nblocks) (store_inode buf' j (new_inode type cur o));
    } in
    ap (λ o. inode_of (write o) m) (table-at bm i j buf f h k)
    ∙ ap (λ s. inode_of s m) (store_found bm i j buf (new_inode type cur ino) h k)
    ∙ put_inode_lem buf bm (j + i * ipb) (new_inode type cur ino) m f
        (new_inode-IsInode type cur ino (inode_of-IsInode bm (j + i * ipb) b) t c) l g

-- The inodes of a block that has been searched, or a part of it
IsBusy-here :
    (bm : BlockManager) (i hi : ℕ) (buf : Block)
    → IsFormatted bm
    → i < 342
    → hi ≤ ipb
    → ((m : ℕ) → 0 ≤ m → m < hi → IsTaken i (read_block bm.disk (i + iblock 0 bm.nblocks) buf) m)
    → (m : ℕ) → i * ipb ≤ m
    → m < i * ipb + hi
    → 1 ≤ m
    → m < inode_num
    → IsBusy bm m
IsBusy-here bm i hi buf f h k taken m lo up one top =
    let e : m - i * ipb + i * ipb ≡ m = omega arith in
    subst (IsBusy bm) e (
      ap (λ o. Inode.type o == 0) (sym (table-at bm i (m - i * ipb) buf f h (omega arith)))
      ∙ taken (m - i * ipb) (omega arith) (omega arith) (omega arith) (omega arith))

alloc_step :
    (bm : BlockManager) (i : ℕ) (buf : Block) (type cur : ℕ) (rest : ℕ × BlockManager) (r : Search)
    → IsFormatted bm
    → IsBytes bm.disk
    → type < 2 ^ 16
    → cur < 2 ^ 32
    → i < 342
    → Searched i 0 (read_block bm.disk (i + iblock 0 bm.nblocks) buf) r
    → Allocated bm type cur ((i + 1) * ipb) rest
    → let id = i + iblock 0 bm.nblocks in
      let buf' = read_block bm.disk id buf in
      Allocated bm type cur (i * ipb) (elim r [
        | next_block ↦ rest
        | passed ↦ (0, bm)
        | found_at j ↦ (
          j + i * ipb,
          record bm {
            disk =
                write_block bm.disk id
                  (store_inode buf' j (new_inode type cur (load_inode buf' j)));
          },
        )
      ])
alloc_step bm i buf type cur rest next_block f b t c h s a =
    let here = IsBusy-here bm i ipb buf f h (omega arith) s in
    let all : (top : ℕ)
        → top ≤ inode_num
        → ((m : ℕ) → (i + 1) * ipb ≤ m → 1 ≤ m → m < top → IsBusy bm m)
        → (m : ℕ) → i * ipb ≤ m
        → 1 ≤ m
        → m < top
        → IsBusy bm m =
      λ top q later m lo one up. elim (Bool-cases (ltb m ((i + 1) * ipb))) [
        | inl y ↦ here m lo (ground arith) one (omega arith)
        | inr y ↦ later m (ground arith) one up
      ] in
    elim a [
      | inl (z, e, later) ↦ inl (z, e, all inode_num (omega arith) later)
      | inr (one, top, free, later, new) ↦ inr (one, top, free, all rest.0 (omega arith) later, new)
    ]
alloc_step bm i buf type cur rest passed f b t c h s a = inl (
  refl,
  refl,
  λ m lo one up. IsBusy-here bm i ipb buf f h (omega arith) s.1 m lo (omega (arith, s.0)) one up,
)
alloc_step bm i buf type cur rest (found_at j) f b t c h s a = inr (
  s.2,
  s.3,
  ap (λ o. Inode.type o == 0) (sym (table-at bm i j buf f h s.1)) ∙ s.4,
  λ m lo one up.
      IsBusy-here bm i j buf f h (omega (arith, s.1)) s.5 m lo (omega arith) one
        (omega (arith, s.3)),
  λ m up. found bm i j buf type cur m f b t c h s.1 s.3 up,
)

alloc_inode_from_lem :
    (n i : ℕ) (buf : Block) (bm : BlockManager) (type cur : ℕ)
    → IsFormatted bm
    → IsBytes bm.disk
    → type < 2 ^ 16
    → cur < 2 ^ 32
    → i + n ≡ 342
    → Allocated bm type cur (i * ipb) (alloc_inode_from n i buf bm type cur)
unfolding alloc_inode_from
alloc_inode_from_lem zero i buf bm type cur f b t c h =
    inl (refl, refl, λ m lo one up. absurd (omega arith))
alloc_inode_from_lem (suc n) i buf bm type cur f b t c h =
    let buf' = read_block bm.disk (i + iblock 0 bm.nblocks) buf in
    alloc_step bm i buf type cur (alloc_inode_from n (i + 1) buf' bm type cur)
      (search_block ipb i 0 buf') f b t c (omega arith)
      (search_block_lem ipb i 0 buf' (omega arith))
      (alloc_inode_from_lem n (i + 1) buf' bm type cur f b t c (omega arith))

-- On a disk with the superblock of the constructor, for a type of 16 bits, a time of 32 bits and any
-- inode `m` from 1 to 1023: either `alloc_inode` returns 0, changes nothing, and `m` is in use; or
-- it returns an inode that was free, and `m` does not come before it or is in use; the inode
-- returned then has the type, no contents and the time, and `m`, if it is another, is as before.
pub alloc_inode_lem :
    (stack : Block) (cur : ℕ) (bm : BlockManager) (type m : ℕ)
    → IsFormatted bm
    → bm.ninodes ≡ inode_num
    → IsBytes bm.disk
    → type < 2 ^ 16
    → cur < 2 ^ 32
    → 1 ≤ m
    → m < inode_num
    → let (k, bm') = alloc_inode stack cur bm type in
      ((k ≡ 0) × (bm' ≡ bm) × IsBusy bm m)
      ⊎ ((1 ≤ k)
          × (k < inode_num)
          × ((Inode.type (inode_of bm k) == 0) ≡ true)
          × ((k ≤ m) ⊎ IsBusy bm m)
          × (inode_of bm' m
              ≡ (if k == m then new_inode type cur (inode_of bm k) else inode_of bm m)))
unfolding alloc_inode
alloc_inode_lem stack cur bm type m f g b t c one up =
    let e : 0 + ceil bm.ninodes ipb ≡ 342 = ap (λ n. 0 + ceil n ipb) g in
    elim (alloc_inode_from_lem (ceil bm.ninodes ipb) 0 stack bm type cur f b t c e) [
      | inl (z, u, busy) ↦ inl (z, u, busy m (omega arith) one up)
      | inr (lo, hi, free, before, new) ↦
          let k = (alloc_inode_from (ceil bm.ninodes ipb) 0 stack bm type cur).0 in
          let first : (k ≤ m) ⊎ IsBusy bm m = elim (Bool-cases (ltb m k)) [
            | inl y ↦ inr (before m (omega arith) one (ground arith))
            | inr y ↦ inl (ground arith)
          ] in
          inr (lo, hi, free, first, new m up)
    ]
