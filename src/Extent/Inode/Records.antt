-- ===== src/Extent/Inode/Records.antt =====
-- An inode that is stored in a block is read back, and the others of the block stay as they are.
use cse_2014_undergrad.Prelude.{
  ℕ, ◌+◌, ◌-◌, ◌*◌, ◌/◌, ◌%◌, ◌^◌, ◌<◌, ◌≤◌, true, false, ◌≡◌, ◌≢◌, refl, sym, ap, ◌∙◌, fun_ext,
  arith, leb, ltb, Bool-cases, inl, inr,
}
use cse_2014_undergrad.Extent.Block.{inode_sz, Block}
use cse_2014_undergrad.Extent.Inode.{
  ndirect, Inode, load32_at, byte_at, inode_byte, load_inode, store_inode,
}

-- Every number fits its field, and there are no addresses beyond the last.
pub record IsInode (ino : Inode) : Type 0 where
  pub type : ino.type < 2 ^ 16
  pub size : ino.size < 2 ^ 32
  pub atime : ino.atime < 2 ^ 32
  pub mtime : ino.mtime < 2 ^ 32
  pub ctime : ino.ctime < 2 ^ 32
  pub blocks : (n : ℕ) → ino.blocks n < 2 ^ 32
  pub none_beyond : (n : ℕ) → ndirect < n → ino.blocks n ≡ 0

same_inode :
    {a b : Inode}
    → a.type ≡ b.type
    → a.size ≡ b.size
    → a.atime ≡ b.atime
    → a.mtime ≡ b.mtime
    → a.ctime ≡ b.ctime
    → a.blocks ≡ b.blocks
    → a ≡ b
same_inode p q r s t u =
    λ i. record { type = p i; size = q i; atime = r i; mtime = s i; ctime = t i; blocks = u i }

-- The byte `j` of the inode `k`
store_inode-at :
    (buf : Block) (k : ℕ) (ino : Inode) (j : ℕ)
    → j < inode_sz
    → store_inode buf k ino (k * inode_sz + j) ≡ inode_byte ino (buf (k * inode_sz + j)) j
unfolding store_inode
store_inode-at buf k ino j h =
    let e : k * inode_sz + j - k * inode_sz ≡ j = omega arith in
    let y : leb (k * inode_sz) (k * inode_sz + j) ≡ true = ground arith in
    let z : ltb j inode_sz ≡ true = ground arith in rw (e, y, z) refl

store_inode-beside :
    (buf : Block) (k l : ℕ) (ino : Inode) (j : ℕ)
    → k ≢ l
    → j < inode_sz
    → store_inode buf k ino (l * inode_sz + j) ≡ buf (l * inode_sz + j)
unfolding store_inode
store_inode-beside buf k l ino j n h = ground arith

-- A number of four bytes, at the offset `o` of two inodes whose bytes agree
load32_at-agree :
    (b c : Block) (k l o : ℕ)
    → ((j : ℕ) → j < inode_sz → b (k * inode_sz + j) ≡ c (l * inode_sz + j))
    → o + 3 < inode_sz
    → load32_at b (k * inode_sz + o) ≡ load32_at c (l * inode_sz + o)
load32_at-agree b c k l o h m =
    let at : (d : ℕ) → d ≤ 3 → b (k * inode_sz + o + d) ≡ c (l * inode_sz + o + d) =
      λ d y. ap b (omega arith) ∙ h (o + d) (omega arith) ∙ ap c (omega arith) in
    let zero_at : b (k * inode_sz + o) ≡ c (l * inode_sz + o) = h o (omega arith) in
    omega (arith, zero_at, at 1 (omega arith), at 2 (omega arith), at 3 (omega arith))

pub load_inode-agree :
    (b c : Block) (k l : ℕ)
    → ((j : ℕ) → j < inode_sz → b (k * inode_sz + j) ≡ c (l * inode_sz + j))
    → load_inode b k ≡ load_inode c l
unfolding load_inode
load_inode-agree b c k l h =
    same_inode
      (let u : b (k * inode_sz) ≡ c (l * inode_sz) =
          ap b (omega arith) ∙ h 0 (omega arith) ∙ ap c (omega arith) in
        omega (arith, u, h 1 (omega arith)))
      (load32_at-agree b c k l 4 h (omega arith)) (load32_at-agree b c k l 8 h (omega arith))
      (load32_at-agree b c k l 12 h (omega arith)) (load32_at-agree b c k l 16 h (omega arith))
      (fun_ext λ n. elim (Bool-cases (leb n ndirect)) [
        | inl y ↦ rw y (load32_at-agree b c k l (20 + 4 * n) h (ground arith))
        | inr y ↦ rw y refl
      ])

-- The bytes of an inode, read back
block_bytes :
    (ino : Inode) (old : ℕ → ℕ) (n d : ℕ)
    → d < 4
    → inode_byte ino (old (20 + 4 * n + d)) (20 + 4 * n + d) ≡ byte_at (ino.blocks n) d
block_bytes ino old n d h =
    let q : (20 + 4 * n + d - 20) / 4 ≡ n = omega arith in
    let r : (20 + 4 * n + d - 20) % 4 ≡ d = omega arith in
    let a : ltb (20 + 4 * n + d) 2 ≡ false = ground arith in
    let b : ltb (20 + 4 * n + d) 4 ≡ false = ground arith in
    let c : ltb (20 + 4 * n + d) 8 ≡ false = ground arith in
    let e : ltb (20 + 4 * n + d) 12 ≡ false = ground arith in
    let f : ltb (20 + 4 * n + d) 16 ≡ false = ground arith in
    let g : ltb (20 + 4 * n + d) 20 ≡ false = ground arith in rw (q, r, a, b, c, e, f, g) refl

four_bytes :
    (x : ℕ)
    → x < 2 ^ 32
    → byte_at x 0 + 256 * byte_at x 1 + 65536 * byte_at x 2 + 16777216 * byte_at x 3 ≡ x
four_bytes x h = omega arith

load_inode-bytes :
    (ino : Inode) (old : ℕ → ℕ) → IsInode ino → load_inode (λ j. inode_byte ino (old j) j) 0 ≡ ino
unfolding load_inode
load_inode-bytes ino old v =
    same_inode (omega (arith, v.type)) (four_bytes ino.size v.size) (four_bytes ino.atime v.atime)
      (four_bytes ino.mtime v.mtime) (four_bytes ino.ctime v.ctime)
      (fun_ext λ n. elim (Bool-cases (leb n ndirect)) [
        | inl y ↦ rw y (block n)
        | inr y ↦ rw y (sym (v.none_beyond n (ground arith)))
      ])
  where
    block :
        (n : ℕ)
        → load32_at (λ j. inode_byte ino (old j) j) (0 * inode_sz + (20 + 4 * n)) ≡ ino.blocks n
    block n =
        let s : 0 * inode_sz + (20 + 4 * n) ≡ 20 + 4 * n = omega arith in
        let t : 20 + 4 * n ≡ 20 + 4 * n + 0 = omega arith in
        let first : inode_byte ino (old (20 + 4 * n)) (20 + 4 * n) ≡ byte_at (ino.blocks n) 0 =
          ap (λ m. inode_byte ino (old m) m) t ∙ block_bytes ino old n 0 (omega arith) in
        rw s (
          omega (
            arith,
            first,
            block_bytes ino old n 1 (omega arith),
            block_bytes ino old n 2 (omega arith),
            block_bytes ino old n 3 (omega arith),
            four_bytes (ino.blocks n) (v.blocks n),
          ))

-- An inode that is stored is read back; the others of the block are as before.
pub load_inode-store_inode :
    (buf : Block) (k : ℕ) (ino : Inode) → IsInode ino → load_inode (store_inode buf k ino) k ≡ ino
load_inode-store_inode buf k ino v =
    load_inode-agree (store_inode buf k ino) (λ j. inode_byte ino (buf (k * inode_sz + j)) j) k 0
      (λ j h.
        let e : j ≡ 0 * inode_sz + j = omega arith in
        store_inode-at buf k ino j h ∙ ap (λ m. inode_byte ino (buf (k * inode_sz + m)) m) e)
    ∙ load_inode-bytes ino (λ j. buf (k * inode_sz + j)) v

pub load_inode-beside :
    (buf : Block) (k l : ℕ) (ino : Inode)
    → k ≢ l
    → load_inode (store_inode buf k ino) l ≡ load_inode buf l
load_inode-beside buf k l ino n =
    load_inode-agree (store_inode buf k ino) buf l l (λ j h. store_inode-beside buf k l ino j n h)
