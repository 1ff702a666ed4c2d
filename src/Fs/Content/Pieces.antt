-- ===== src/Fs/Content/Pieces.antt =====
-- Writes at the end and in the middle, piece by piece.
use cse_2014_undergrad.Prelude.{
  ℕ, zero, suc, ◌+◌, ◌-◌, ◌≤◌, false, some, List, [], ◌∷◌, ◌++◌, ◌≡◌, refl, ap, ◌∙◌, subst, arith,
  ltb, length, take, drop, replicate, length-append, length-replicate, length-take, take-append,
  drop-append, append-nil, Bool-cases, inl, inr,
}
use cse_2014_undergrad.Fs.Content.Bytes.{length-resize, overwrite_lem}
use cse_2014_undergrad.Fs.Content.{resize, replace, overwrite, substr}

pub drop_more : (xs ys : List ℕ) (k : ℕ) → drop (length xs + k) (xs ++ ys) ≡ drop k ys
drop_more [] ys k = let e : 0 + k ≡ k = omega arith in rw e
drop_more (x ∷ xs) ys k =
    let e : suc (length xs) + k ≡ suc (length xs + k) = omega arith in rw e (drop_more xs ys k)

take_all : (n : ℕ) (xs : List ℕ) → length xs ≤ n → take n xs ≡ xs
take_all zero [] h = refl
take_all zero (x ∷ xs) h = absurd (omega arith)
take_all (suc n) [] h = refl
take_all (suc n) (x ∷ xs) h = ap (λ l. x ∷ l) (take_all n xs (omega arith))

drop_all : (n : ℕ) (xs : List ℕ) → length xs ≤ n → drop n xs ≡ []
drop_all zero [] h = refl
drop_all zero (x ∷ xs) h = absurd (omega arith)
drop_all (suc n) [] h = refl
drop_all (suc n) (x ∷ xs) h = drop_all n xs (omega arith)

pub replace_middle :
    (xs content ys : List ℕ)
    → replace (length xs) content (xs ++ ys) ≡ xs ++ (content ++ drop (length content) ys)
unfolding replace
replace_middle xs content ys = rw (take-append xs ys, drop_more xs ys (length content))

pub overwrite_middle :
    (xs content ys : List ℕ)
    → length content ≤ length ys
    → overwrite (length xs) content (xs ++ ys) ≡ xs ++ (content ++ drop (length content) ys)
unfolding overwrite
overwrite_middle xs content ys h =
    let grows : ltb (length (xs ++ ys)) (length xs + length content) ≡ false =
      ground (arith, length-append xs ys) in
    rw grows (replace_middle xs content ys)

resize_end : (n : ℕ) (xs : List ℕ) → resize (length xs + n) xs ≡ xs ++ replicate n 0
unfolding resize
resize_end n xs =
    let rest : length xs + n - length xs ≡ n = omega arith in
    rw (take_all (length xs + n) xs (omega arith), rest)

pub overwrite_end : (xs content : List ℕ) → overwrite (length xs) content xs ≡ xs ++ content
unfolding overwrite
overwrite_end xs content = elim (Bool-cases (ltb (length xs) (length xs + length content))) [
  | inl y ↦
      rw (y, resize_end (length content) xs)
        (replace_middle xs content (replicate (length content) 0)
          ∙ ap (λ l. xs ++ l)
              (ap (λ l. content ++ l)
                  (drop_all (length content) (replicate (length content) 0)
                    (omega (arith, length-replicate {A = ℕ} (length content) 0)))
                ∙ append-nil content))
  | inr y ↦
      rw
        (
          y,
          take_all (length xs) xs (omega arith),
          drop_all (length xs + length content) xs (omega arith),
        )
        (ap (λ l. xs ++ l) (append-nil content))
]

replace_read :
    (off : ℕ) (content buf : List ℕ)
    → off ≤ length buf
    → take (length content) (drop off (replace off content buf)) ≡ content
unfolding replace
replace_read off content buf h =
    let behind = content ++ drop (off + length content) buf in
    let at : drop off (take off buf ++ behind) ≡ behind =
      subst (λ n. drop n (take off buf ++ behind) ≡ behind) (omega (arith, length-take off buf))
        (drop-append (take off buf) behind) in
    rw at (take-append content (drop (off + length content) buf))

overwrite_read :
    (off : ℕ) (content buf : List ℕ)
    → take (length content) (drop off (overwrite off content buf)) ≡ content
unfolding overwrite
overwrite_read off content buf = elim (Bool-cases (ltb (length buf) (off + length content))) [
  | inl y ↦ rw y (
      replace_read off content (resize (off + length content) buf)
        (omega (arith, length-resize (off + length content) buf)))
  | inr y ↦ rw y (replace_read off content buf (ground arith))
]

-- A read of what a write has just written gives it back, wherever it was written.
pub substr-overwrite :
    (off : ℕ) (content buf : List ℕ)
    → substr off (length content) (overwrite off content buf) ≡ some content
unfolding substr
substr-overwrite off content buf =
    rw (ltb_off off (length (overwrite off content buf)) (omega (arith, reaches))) (ap some read)
  where
    ltb_off : (a b : ℕ) → a ≤ b → ltb b a ≡ false
    ltb_off a b h = ground arith

    reaches : off ≤ length (overwrite off content buf)
    reaches = ground (arith, (overwrite_lem off content buf 0).1)

    read : take (length content) (drop off (overwrite off content buf)) ≡ content
    read = overwrite_read off content buf
