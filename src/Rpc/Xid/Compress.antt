-- ===== src/Rpc/Xid/Compress.antt =====
-- One pass of `compress`: how far the front moves, and what stays.
use cse_2014_undergrad.Prelude.{
  ℕ, ◌+◌, ◌<◌, ◌≤◌, ◌^◌, Bool, true, false, ◌||◌, List, [], ◌∷◌, ◌++◌, ◌≡◌, refl, sym, subst, arith,
  if◌then◌else◌, leb, ◌==◌, All, Bool-cases, inl, inr, append_assoc,
}
use cse_2014_undergrad.Rpc.Xid.{front, pop_while, compress_from}

abbrev pub elem : ℕ → List ℕ → Bool
elem x [] = false
elem x (y ∷ ys) = y == x || elem x ys

abbrev pub Asc : ℕ → List ℕ → Type 0
Asc n [] = Unit
Asc n (x ∷ xs) = (n ≤ x) × Asc x xs

abbrev pub IsSorted : List ℕ → Type 0
IsSorted [] = ⊥
IsSorted (x ∷ xs) = Asc x xs

pub elem-append : (x : ℕ) (xs ys : List ℕ) → elem x (xs ++ ys) ≡ (elem x xs || elem x ys)
elem-append x [] ys = refl
elem-append x (y ∷ xs) ys = ground (arith, elem-append x xs ys)

Asc-le : (n x : ℕ) (xs : List ℕ) → Asc n xs → elem x xs ≡ true → n ≤ x
Asc-le n x [] a e = cc
Asc-le n x (y ∷ ys) a e = ground (arith, Asc-le y x ys a.1)

Asc-middle :
    (n x it : ℕ) (ps after : List ℕ) → Asc n (ps ++ (it ∷ after)) → elem x ps ≡ true → x ≤ it
Asc-middle n x it [] after a e = cc
Asc-middle n x it (p ∷ ps) after a e = ground (
  arith,
  Asc-middle p x it ps after a.1,
  Asc-le p it (ps ++ (it ∷ after)) a.1,
  elem-append it ps (it ∷ after),
)

Asc-after : (n it : ℕ) (ps after : List ℕ) → Asc n (ps ++ (it ∷ after)) → Asc it after
Asc-after n it [] after a = a.1
Asc-after n it (p ∷ ps) after a = Asc-after p it ps after a.1

-- The front is dropped only if `it` follows it, and then all before `it` is the same number.
pop_while_lem :
    (p it : ℕ) (ps after : List ℕ)
    → Asc p (ps ++ (it ∷ after))
    → elem (p + 1) ps ≡ false
    → it < 2 ^ 32
    → pop_while (p ∷ ps) it ≡ (if p + 1 == it then [] else p ∷ ps)
unfolding pop_while
pop_while_lem p it [] after a g h = ground arith
pop_while_lem p it (q ∷ qs) after a g h =
    ground (arith, Asc-middle p q it (q ∷ qs) after a, pop_while_lem q it qs after a.1)

-- What the window says after the xids of `old` have been taken in from `p` on.
pub record Result (p : ℕ) (old w : List ℕ) : Type 0 where
  pub grows : p ≤ front w
  pub filled : (i : ℕ) → p < i → i ≤ front w → elem i old ≡ true
  pub gap : elem (front w + 1) w ≡ false
  pub kept : (x : ℕ) → elem x old ≡ true → (leb x (front w) || elem x w) ≡ true
  pub only : (x : ℕ) → elem x w ≡ true → elem x old ≡ true
  pub sorted : IsSorted w

Asc-before : (n : ℕ) (ps after : List ℕ) → Asc n (ps ++ after) → Asc n ps
Asc-before n [] after a = tt
Asc-before n (p ∷ ps) after a = (a.0, Asc-before p ps after a.1)

All-middle : (it : ℕ) (ps after : List ℕ) → All (λ x. x < 2 ^ 32) (ps ++ (it ∷ after)) → it < 2 ^ 32
All-middle it [] after h = h.0
All-middle it (p ∷ ps) after h = All-middle it ps after h.1

All-after :
    (it : ℕ) (ps after : List ℕ)
    → All (λ x. x < 2 ^ 32) (ps ++ (it ∷ after))
    → All (λ x. x < 2 ^ 32) (it ∷ after)
All-after it [] after h = h
All-after it (p ∷ ps) after h = All-after it ps after h.1

-- The front moves on to `it`.
advance-Result :
    (p it : ℕ) (ps after w : List ℕ)
    → Asc p (ps ++ (it ∷ after))
    → it ≡ p + 1
    → Result it (it ∷ after) w
    → Result p (p ∷ ps ++ (it ∷ after)) w
advance-Result p it ps after w a e r = record {
  grows = omega (arith, r.grows);
  filled = λ i l h. ground (arith, r.filled i, elem-append i (p ∷ ps) (it ∷ after));
  gap = r.gap;
  kept = λ x h.
      ground (
        arith,
        r.grows,
        r.kept x,
        elem-append x (p ∷ ps) (it ∷ after),
        Asc-middle p x it ps after a,
      );
  only = λ x h. ground (arith, r.only x h, elem-append x (p ∷ ps) (it ∷ after));
  sorted = r.sorted;
}

pub compress_from-Result :
    (after : List ℕ) (p : ℕ) (ps : List ℕ)
    → Asc p (ps ++ after)
    → elem (p + 1) ps ≡ false
    → All (λ x. x < 2 ^ 32) (ps ++ after)
    → Result p (p ∷ ps ++ after) (compress_from (p ∷ ps) after)
unfolding compress_from front
compress_from-Result [] p ps a g h = record {
  grows = omega arith;
  filled = λ i l h. absurd (omega arith);
  gap = ground arith;
  kept = λ x h. ground (arith, elem-append x ps []);
  only = λ x h. ground (arith, elem-append x ps []);
  sorted = Asc-before p ps [] a;
}
compress_from-Result (it ∷ after) p ps a g h =
    rw (pop_while_lem p it ps after a g (All-middle it ps after h))
      (elim (Bool-cases (p + 1 == it)) [
        | inl e ↦ rw e (
            advance-Result p it ps after _ a (ground arith) (
              compress_from-Result after it [] (Asc-after p it ps after a) refl
                (All-after it ps after h).1))
        | inr e ↦
            let same : (ps ++ (it ∷ [])) ++ after ≡ ps ++ (it ∷ after) =
              append_assoc ps (it ∷ []) after in
            rw e (
              subst (λ l. Result p (p ∷ l) (compress_from (p ∷ (ps ++ (it ∷ []))) after)) same
                (compress_from-Result after p (ps ++ (it ∷ [])) (subst (Asc p) (sym same) a)
                  (ground (arith, elem-append (p + 1) ps (it ∷ [])))
                  (subst (All (λ x. x < 2 ^ 32)) (sym same) h)))
      ])
