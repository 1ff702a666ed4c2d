-- ===== src/Extent/Block/Place.antt =====
-- Where the bit of a block lies, and a change of the byte it lies in.
use cse_2014_undergrad.Prelude.{
  ℕ, ◌<◌, ◌≤◌, Bool, true, false, ◌&&◌, ◌≡◌, ◌≢◌, inl, inr, refl, sym, ◌∙◌, subst, fun_ext, arith,
  ◌==◌, if◌then◌else◌, update, Bool-cases, ==_iff,
}
use cse_2014_undergrad.Extent.Block.{
  Block, Disk, block_num, block_size, bblock, byte_of, bit_of, read_block, write_block, test_bit,
  looks_used,
}

-- The bit of a block on the disk.
unfoldable pub used : Disk → ℕ → Bool
used d i = test_bit (d (bblock i) (byte_of i)) (bit_of i)

-- The blocks whose bits lie within the bitmap block that the code reads for them: those from 3 on
-- and below 4099, the number of a block being less its `BBLOCK` only, and not less a whole block of
-- bits for each before.
abbrev pub covered_end : ℕ
covered_end = 4099

abbrev pub IsCovered : ℕ → Type 0
IsCovered i = (3 ≤ i) × (i < covered_end)

-- Every byte of the disk is a byte.
abbrev pub IsBytes : Disk → Type 0
IsBytes d = (id i : ℕ) → d id i < 256

pub byte_of-covered : (i : ℕ) → IsCovered i → byte_of i < block_size
byte_of-covered i h = omega arith

pub byte_of-beyond : (i : ℕ) → covered_end ≤ i → i < block_num → block_size ≤ byte_of i
byte_of-beyond i h l = omega arith

pub bblock-lt : (i : ℕ) → i < block_num → bblock i < block_num
bblock-lt i h = omega arith

-- No two blocks share a bit.
place-injective :
    (i j : ℕ)
    → IsCovered i
    → IsCovered j
    → bblock i ≡ bblock j
    → byte_of i ≡ byte_of j
    → bit_of i ≡ bit_of j
    → i ≡ j
place-injective i j hi hj b y t = omega arith

pub bit_of-lt : (i : ℕ) → bit_of i < 8
bit_of-lt i = omega arith

pub looks_used-covered :
    (d : Disk) (stack : Block) (i : ℕ) → IsCovered i → looks_used d stack i ≡ used d i
unfolding looks_used used
looks_used-covered d stack i h = ground (arith, byte_of-covered i h, bblock-lt i)

-- A byte of a bitmap block is changed by `f`, and the block is written back.
abbrev pub change : Disk → Block → ℕ → ℕ → (ℕ → ℕ) → Disk
change d stack b y f = let buf = read_block d b stack in write_block d b (update buf y (f (buf y)))

pub change-at :
    (d : Disk) (stack : Block) (b y : ℕ) (f : ℕ → ℕ) (b' y' : ℕ)
    → b < block_num
    → y < block_size
    → y' < block_size
    → change d stack b y f b' y' ≡ (if b == b' && y == y' then f (d b' y') else d b' y')
unfolding read_block write_block
change-at d stack b y f b' y' hb hy hy' = ground arith

-- Behind the buffer a change is lost.
pub change-beyond :
    (d : Disk) (stack : Block) (b y : ℕ) (f : ℕ → ℕ) → block_size ≤ y → change d stack b y f ≡ d
unfolding read_block write_block
change-beyond d stack b y f h = fun_ext λ b'. fun_ext λ y'. ground arith

-- Whether two blocks have their bits in one place.
unfoldable pub same_place : (i j : ℕ) → Bool
same_place i j = bblock i == bblock j && (byte_of i == byte_of j && bit_of i == bit_of j)

all_same :
    (a b c a' b' c' : ℕ) → (a == a' && (b == b' && c == c')) ≡ true → (a ≡ a') × (b ≡ b') × (c ≡ c')
all_same a b c a' b' c' h = ground arith

same_place_self : (a b c : ℕ) → (a == a && (b == b && c == c)) ≡ true
same_place_self a b c = ground arith

pub same_place_lem : (i j : ℕ) → IsCovered i → IsCovered j → same_place i j ≡ (i == j)
unfolding same_place
same_place_lem i j hi hj = elim (Bool-cases (i == j)) [
  | inl e ↦
      subst (λ k. same_place i k ≡ (i == k)) ((==_iff i j).0 e)
        (same_place_self (bblock i) (byte_of i) (bit_of i) ∙ sym ((==_iff i i).1 refl))
  | inr e ↦ elim (Bool-cases (same_place i j)) [
    | inr s ↦ s ∙ sym e
    | inl s ↦
        let (b, y, t) =
          all_same (bblock i) (byte_of i) (bit_of i) (bblock j) (byte_of j) (bit_of j) s in
        absurd (ne_of_test i j e (place-injective i j hi hj b y t))
  ]
]
  where
    ne_of_test : (i j : ℕ) → (i == j) ≡ false → i ≢ j
    ne_of_test i j e = ground arith
