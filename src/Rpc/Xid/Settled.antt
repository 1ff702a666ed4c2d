-- ===== src/Rpc/Xid/Settled.antt =====
-- What the front of the window says: it is the highest xid up to which the client has every reply.
use cse_2014_undergrad.Prelude.{
  ℕ, zero, suc, ◌+◌, ◌<◌, ◌≤◌, ◌^◌, true, false, ◌||◌, List, [], ◌∷◌, ◌≡◌, refl, arith, ltb, leb,
  ◌==◌, All, Bool-cases, inl, inr,
}
use cse_2014_undergrad.Rpc.Xid.{front, insert, compress, update_xid_rep, update_all, initial}
use cse_2014_undergrad.Rpc.Xid.Compress.{elem, Asc, IsSorted, Result, compress_from-Result}

-- The xids of a history, newest first.
abbrev rev : List ℕ → List ℕ → List ℕ
rev [] seen = seen
rev (x ∷ xs) seen = rev xs (x ∷ seen)

-- The xids that have been taken in since the start, and the window that they leave.
record Settles (seen w : List ℕ) : Type 0 where
  below : (i : ℕ) → 0 < i → i ≤ front w → elem i seen ≡ true
  gap : elem (front w + 1) w ≡ false
  above : (x : ℕ) → elem x seen ≡ true → (leb x (front w) || elem x w) ≡ true
  only : (x : ℕ) → 0 < x → elem x w ≡ true → elem x seen ≡ true
  small : All (λ x. x < 2 ^ 32) w
  sorted : IsSorted w

insert-elem : (x xid : ℕ) (w : List ℕ) → elem x (insert xid w) ≡ (xid == x || elem x w)
unfolding insert
insert-elem x xid [] = refl
insert-elem x xid (y ∷ ys) = ground (arith, insert-elem x xid ys)

insert-Asc : (n xid : ℕ) (w : List ℕ) → n ≤ xid → Asc n w → Asc n (insert xid w)
unfolding insert
insert-Asc n xid [] h a = (h, tt)
insert-Asc n xid (y ∷ ys) h a = ground (arith, insert-Asc y xid ys)

insert-small :
    (xid : ℕ) (w : List ℕ)
    → xid < 2 ^ 32
    → All (λ x. x < 2 ^ 32) w
    → All (λ x. x < 2 ^ 32) (insert xid w)
unfolding insert
insert-small xid [] h a = (h, tt)
insert-small xid (y ∷ ys) h a = ground (arith, insert-small xid ys h a.1)

small-elem : (w : List ℕ) → ((x : ℕ) → elem x w ≡ true → x < 2 ^ 32) → All (λ x. x < 2 ^ 32) w
small-elem [] f = tt
small-elem (y ∷ ys) f = (f y (ground arith), small-elem ys (λ x h. f x (ground arith)))

elem-small : (x : ℕ) (w : List ℕ) → All (λ x. x < 2 ^ 32) w → elem x w ≡ true → x < 2 ^ 32
elem-small x [] a h = cc
elem-small x (y ∷ ys) a h = ground (arith, elem-small x ys a.1)

Result-Settles :
    (seen w v : List ℕ) (f xid : ℕ)
    → Settles seen (f ∷ w)
    → xid < 2 ^ 32
    → Result f (f ∷ insert xid w) v
    → Settles (xid ∷ seen) v
unfolding front
Result-Settles seen w v f xid s l r = record {
  below = λ i p h. ground (arith, s.below i, r.filled i, s.only i, insert-elem i xid w);
  gap = r.gap;
  above = λ x h. ground (arith, s.above x, r.grows, r.kept x, insert-elem x xid w);
  only = λ x p h. ground (arith, s.only x p, r.only x h, insert-elem x xid w);
  small =
      small-elem v
        λ x h. ground (arith, r.only x h, insert-elem x xid w, elem-small x (f ∷ w) s.small);
  sorted = r.sorted;
}

again-Settles :
    (seen w : List ℕ) (f xid : ℕ) → Settles seen (f ∷ w) → xid ≤ f → Settles (xid ∷ seen) (f ∷ w)
unfolding front
again-Settles seen w f xid s h = record {
  below = λ i p k. ground (arith, s.below i);
  gap = s.gap;
  above = λ x k. ground (arith, s.above x);
  only = λ x p k. ground (arith, s.only x p k);
  small = s.small;
  sorted = s.sorted;
}

update-Settles :
    (seen w : List ℕ) (xid : ℕ)
    → Settles seen w
    → xid < 2 ^ 32
    → Settles (xid ∷ seen) (update_xid_rep w xid)
unfolding update_xid_rep front insert compress
update-Settles seen [] xid s l = absurd s.sorted
update-Settles seen (f ∷ w) xid s l = elim (Bool-cases (leb xid f)) [
  | inl e ↦ rw e (again-Settles seen w f xid s (ground arith))
  | inr e ↦
      let above : ltb xid f ≡ false = ground arith in
      rw (e, above)
        (Result-Settles seen w _ f xid s l (
          compress_from-Result (insert xid w) f [] (insert-Asc f xid w (ground arith) s.sorted) refl
            (insert-small xid w l s.small.1)))
]

abbrev Words : List ℕ → Type 0
Words = All (λ x. x < 2 ^ 32)

update_all-Settles :
    (xids seen w : List ℕ)
    → Settles seen w
    → Words xids
    → Settles (rev xids seen) (update_all w xids)
unfolding update_all
update_all-Settles [] seen w s h = s
update_all-Settles (x ∷ xs) seen w s h =
    update_all-Settles xs (x ∷ seen) (update_xid_rep w x) (update-Settles seen w x s h.0) h.1

initial-Settles : Settles [] initial
unfolding front
initial-Settles = record {
  below = λ i p h. absurd (omega arith);
  gap = refl;
  above = λ x h. cc;
  only = λ x p h. ground arith;
  small = omega arith;
  sorted = tt;
}

elem-rev : (i : ℕ) (xs seen : List ℕ) → elem i (rev xs seen) ≡ (elem i xs || elem i seen)
elem-rev i [] seen = refl
elem-rev i (x ∷ xs) seen = ground (arith, elem-rev i xs (x ∷ seen))

-- Every number from 1 up to `n` is among the xids.
abbrev pub Covers : ℕ → List ℕ → Type 0
Covers zero xs = Unit
Covers (suc n) xs = (elem (suc n) xs ≡ true) × Covers n xs

Covers-intro : (n : ℕ) (xs : List ℕ) → ((i : ℕ) → 0 < i → i ≤ n → elem i xs ≡ true) → Covers n xs
Covers-intro zero xs f = tt
Covers-intro (suc n) xs f =
    (f (suc n) (omega arith) (omega arith), Covers-intro n xs (λ i p h. f i p (omega arith)))

-- However the replies come in, and however often each, the `xid_rep` that the client sends is exact:
-- every xid from 1 up to it has been taken in, and the next one has not, for xids of 32 bits.
pub front_exact :
    (xids : List ℕ)
    → All (λ x. x < 2 ^ 32) xids
    → Covers (front (update_all initial xids)) xids
      × (elem (front (update_all initial xids) + 1) xids ≡ false)
front_exact xids h =
    let s = update_all-Settles xids [] initial initial-Settles h in
    (
      Covers-intro (front (update_all initial xids)) xids
          (λ i p k. ground (arith, s.below i p k, elem-rev i xids [])),
      ground (
        arith,
        s.gap,
        s.above (front (update_all initial xids) + 1),
        elem-rev (front (update_all initial xids) + 1) xids [],
      ),
    )
