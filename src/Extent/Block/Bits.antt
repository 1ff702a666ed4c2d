-- ===== src/Extent/Block/Bits.antt =====
-- The bits of a byte, by a table of all bytes.
use cse_2014_undergrad.Prelude.{
  ℕ, zero, suc, ◌<◌, Bool, true, false, not, ◌&&◌, ◌||◌, ◌≡◌, refl, arith, ltb, ◌==◌,
}
use cse_2014_undergrad.Extent.Block.{test_bit, set_bit, clear_bit}

all_below : ℕ → (ℕ → Bool) → Bool
all_below zero p = true
all_below (suc n) p = p n && all_below n p

all_below-at : (n : ℕ) (p : ℕ → Bool) (x : ℕ) → all_below n p ≡ true → x < n → p x ≡ true
unfolding all_below
all_below-at zero p x h l = absurd (omega arith)
all_below-at (suc n) p x h l = ground (arith, all_below-at n p x)

abbrev same : Bool → Bool → Bool
same true b = b
same false b = not b

same-eq : (a b : Bool) → same a b ≡ true → a ≡ b
same-eq a b h = ground arith

abbrev bit_row : ℕ → ℕ → ℕ → Bool
bit_row b k j =
    same (test_bit (set_bit b k) j) (k == j || test_bit b j)
    && same (test_bit (clear_bit b k) j) (not (k == j) && test_bit b j)
    && ltb (set_bit b k) 256
    && ltb (clear_bit b k) 256

bit_table : all_below 256 (λ b. all_below 8 (λ k. all_below 8 (bit_row b k))) ≡ true
unfolding all_below set_bit clear_bit
bit_table = refl

bit_row-at : (b k j : ℕ) → b < 256 → k < 8 → j < 8 → bit_row b k j ≡ true
bit_row-at b k j hb hk hj =
    all_below-at 8 (bit_row b k) j
      (all_below-at 8 (λ k. all_below 8 (bit_row b k)) k (all_below-at 256 _ b bit_table hb) hk) hj

pub set_bit_lem :
    (b k j : ℕ) → b < 256 → k < 8 → j < 8 → test_bit (set_bit b k) j ≡ (k == j || test_bit b j)
set_bit_lem b k j hb hk hj =
    ground (
      arith,
      bit_row-at b k j hb hk hj,
      same-eq (test_bit (set_bit b k) j) (k == j || test_bit b j),
    )

pub clear_bit_lem :
    (b k j : ℕ)
    → b < 256
    → k < 8
    → j < 8
    → test_bit (clear_bit b k) j ≡ (not (k == j) && test_bit b j)
clear_bit_lem b k j hb hk hj = ground (
  arith,
  bit_row-at b k j hb hk hj,
  same-eq (test_bit (clear_bit b k) j) (not (k == j) && test_bit b j),
)

pub set_bit-lt : (b k : ℕ) → b < 256 → k < 8 → set_bit b k < 256
set_bit-lt b k hb hk = ground (arith, bit_row-at b k 0 hb hk)

pub clear_bit-lt : (b k : ℕ) → b < 256 → k < 8 → clear_bit b k < 256
clear_bit-lt b k hb hk = ground (arith, bit_row-at b k 0 hb hk)
