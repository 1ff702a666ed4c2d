-- ===== src/Extent/Inode/Blocks.antt =====
-- The loops of `read_file` and `write_file` over the blocks of a file.
use cse_2014_undergrad.Prelude.{
  ℕ, zero, suc, ◌+◌, ◌*◌, ◌<◌, ◌≤◌, ◌∷◌, ◌++◌, ◌≡◌, ◌≢◌, refl, ap, ◌∙◌, subst, arith, ◌==◌, ==_iff,
  Bool-cases, inl, inr,
}
use cse_2014_undergrad.Extent.Block.{block_num, block_size, Block, Disk, read_block, write_block}
use cse_2014_undergrad.Extent.Inode.Table.{read_block-lt, write_block-lt, write_block-ne}
use cse_2014_undergrad.Extent.Inode.File.{Open, blk, bytes_from, read_from, piece, write_from}

pub bytes_from-agree :
    (b c : Block) (o p n : ℕ)
    → ((j : ℕ) → j < n → b (o + j) ≡ c (p + j))
    → bytes_from b o n ≡ bytes_from c p n
unfolding bytes_from
bytes_from-agree b c o p zero h = refl
bytes_from-agree b c o p (suc n) h =
    let z : o ≡ o + 0 = omega arith in
    let z' : p + 0 ≡ p = omega arith in
    let first : b o ≡ c p = ap b z ∙ h 0 (omega arith) ∙ ap c z' in
    let rest = bytes_from-agree b c (o + 1) (p + 1) n (λ j k.
      let e : o + 1 + j ≡ o + suc j = omega arith in
      let e' : p + suc j ≡ p + 1 + j = omega arith in ap b e ∙ h (suc j) (omega arith) ∙ ap c e') in
    rw (first, rest) refl

pub bytes_from-append :
    (c : Block) (o m n : ℕ) → bytes_from c o m ++ bytes_from c (o + m) n ≡ bytes_from c o (m + n)
unfolding bytes_from
bytes_from-append c o zero n =
    let e : o + 0 ≡ o = omega arith in let e' : 0 + n ≡ n = omega arith in rw (e, e') refl
bytes_from-append c o (suc m) n =
    let e : o + suc m ≡ o + 1 + m = omega arith in
    let e' : suc m + n ≡ suc (m + n) = omega arith in
    rw (e, e') (ap (λ l. c o ∷ l) (bytes_from-append c (o + 1) m n))

-- A read of blocks that hold the contents from block `i` on
pub read_from_lem :
    (n i rest : ℕ) (d : Disk) (f : Open) (buf content : Block)
    → ((k : ℕ) → i ≤ k → k ≤ i + n → blk f k < block_num)
    → ((k j : ℕ) → i ≤ k → k ≤ i + n → j < block_size → d (blk f k) j ≡ piece content k j)
    → rest ≤ block_size
    → read_from n i rest d f buf ≡ bytes_from content (i * block_size) (n * block_size + rest)
unfolding read_from
read_from_lem zero i rest d f buf content r h l =
    let e : 0 * block_size + rest ≡ rest = omega arith in
    rw e (
      bytes_from-agree (read_block d (blk f i) buf) content 0 (i * block_size) rest (λ j k.
        let z : 0 + j ≡ j = omega arith in
        rw z (
          read_block-lt d (blk f i) buf j (r i (omega arith) (omega arith)) (omega arith)
          ∙ h i j (omega arith) (omega arith) (omega arith))))
read_from_lem (suc n) i rest d f buf content r h l =
    let first =
      bytes_from-agree (read_block d (blk f i) buf) content 0 (i * block_size) block_size (λ j k.
        let z : 0 + j ≡ j = omega arith in
        rw z (
          read_block-lt d (blk f i) buf j (r i (omega arith) (omega arith)) (omega arith)
          ∙ h i j (omega arith) (omega arith) (omega arith))) in
    let others =
      read_from_lem n (i + 1) rest d f (read_block d (blk f i) buf) content
        (λ k a b. r k (omega arith) (omega arith))
        (λ k j a b c. h k j (omega arith) (omega arith) c) l in
    let e : (i + 1) * block_size ≡ i * block_size + block_size = omega arith in
    let e' : block_size + (n * block_size + rest) ≡ suc n * block_size + rest = omega arith in
    ap (λ l. l ++ read_from n (i + 1) rest d f (read_block d (blk f i) buf)) first
    ∙ ap (λ l. bytes_from content (i * block_size) block_size ++ l)
        (others ∙ ap (λ o. bytes_from content o (n * block_size + rest)) e)
    ∙ bytes_from-append content (i * block_size) block_size (n * block_size + rest)
    ∙ ap (λ m. bytes_from content (i * block_size) m) e'

-- The writes leave every block alone that is none of theirs,
pub write_from-ne :
    (n i : ℕ) (d : Disk) (f : Open) (content : Block) (id : ℕ)
    → ((k : ℕ) → i ≤ k → k < i + n → blk f k ≢ id)
    → write_from n i d f content id ≡ d id
unfolding write_from
write_from-ne zero i d f content id h = refl
write_from-ne (suc n) i d f content id h =
    write_from-ne n (i + 1) (write_block d (blk f i) (piece content i)) f content id
      (λ k a b. h k (omega arith) (omega arith))
    ∙ write_block-ne d (blk f i) (piece content i) id (h i (omega arith) (omega arith))

-- and put the contents into theirs, which differ.
pub write_from-at :
    (n i : ℕ) (d : Disk) (f : Open) (content : Block) (k j : ℕ)
    → ((m : ℕ) → i ≤ m → m < i + n → blk f m < block_num)
    → ((m l : ℕ) → i ≤ m → m < l → l < i + n → blk f l ≢ blk f m)
    → i ≤ k
    → k < i + n
    → j < block_size
    → write_from n i d f content (blk f k) j ≡ piece content k j
unfolding write_from
write_from-at zero i d f content k j r a l h m = absurd (omega arith)
write_from-at (suc n) i d f content k j r a l h m = elim (Bool-cases (i == k)) [
  | inl y ↦
      let e : i ≡ k = (==_iff _ _).0 y in
      subst
        (λ q.
          write_from n (i + 1) (write_block d (blk f i) (piece content i)) f content (blk f q) j
          ≡ piece content q j)
        e
        (ap (λ c. c j)
            (write_from-ne n (i + 1) (write_block d (blk f i) (piece content i)) f content (blk f i)
              (λ q b c. a i q (omega arith) (omega arith) (omega arith)))
          ∙ write_block-lt d (blk f i) (piece content i) j (r i (omega arith) (omega arith)) m)
  | inr y ↦
      let n' : i ≢ k = ground arith in
      write_from-at n (i + 1) (write_block d (blk f i) (piece content i)) f content k j
        (λ q b c. r q (omega arith) (omega arith))
        (λ q q' b c e. a q q' (omega arith) c (omega arith)) (omega (arith, n')) (omega arith) m
]
