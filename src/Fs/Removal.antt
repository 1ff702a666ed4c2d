-- ===== src/Fs/Removal.antt =====
-- The slot that `unlink` makes free.
use cse_2014_undergrad.Prelude.{
  ℕ, zero, suc, ◌+◌, ◌^◌, ◌<◌, ◌≤◌, true, false, some, List, [], ◌∷◌, ◌++◌, ◌≡◌, refl, sym, ap, ◌∙◌,
  arith, length, drop, All, length-append, length-drop,
}
use cse_2014_undergrad.Fs.Dir.{store32, filldir}
use cse_2014_undergrad.Fs.Dir.Slots.{
  Slot, stride, bytes, encode, IsDir, length-bytes, length-encode,
}
use cse_2014_undergrad.Fs.Dir.Walks.{live, is_named}
use cse_2014_undergrad.Fs.Content.{overwrite}
use cse_2014_undergrad.Fs.Content.Pieces.{overwrite_middle}
use cse_2014_undergrad.Fs.Client.{find_name}
use cse_2014_undergrad.Fs.Create.{encode-append}

-- It keeps its length.
abbrev pub freed : Slot → Slot
freed s = record { inum = 0; name = []; pad = drop 12 (bytes s) }

stride-freed : (s : Slot) → stride (freed s) ≡ stride s
stride-freed s = omega (arith, length-drop 12 (bytes s), length-bytes s)

freed-bytes : (s : Slot) → filldir 0 (stride s) [] 0 ++ drop 12 (bytes s) ≡ bytes (freed s)
unfolding filldir
freed-bytes s =
    ap (λ n. store32 0 (store32 0 (store32 n (drop 12 (bytes s))))) (sym (stride-freed s))

drop_within :
    {A : Type 0} (n : ℕ) (xs ys : List A) → n ≤ length xs → drop n (xs ++ ys) ≡ drop n xs ++ ys
drop_within zero xs ys h = refl
drop_within (suc n) [] ys h = absurd (omega arith)
drop_within (suc n) (x ∷ xs) ys h = drop_within n xs ys (omega arith)

-- What `unlink` writes over a slot makes it free, and leaves the others as they are.
pub overwrite-freed :
    (before : List Slot) (s : Slot) (after : List Slot)
    → overwrite
        (0 + length (encode before))
        (filldir 0 (stride s) [] 0)
        (encode (before ++ (s ∷ after)))
      ≡ encode (before ++ (freed s ∷ after))
unfolding filldir
overwrite-freed before s after =
    let line = filldir 0 (stride s) [] 0 in
    let rest = bytes s ++ encode after in
    let z : 0 + length (encode before) ≡ length (encode before) = omega arith in
    let short : 12 ≤ length (bytes s) = omega (arith, length-bytes s) in
    let fits : length line ≤ length rest =
      omega (arith, short, length-append (bytes s) (encode after)) in
    ap (λ n. overwrite n line (encode (before ++ (s ∷ after)))) z
    ∙ ap (λ l. overwrite (length (encode before)) line l) (encode-append before (s ∷ after))
    ∙ overwrite_middle (encode before) line rest fits
    ∙ ap (λ l. encode before ++ (line ++ l)) (drop_within 12 (bytes s) (encode after) short)
    ∙ ap (λ l. encode before ++ (l ++ encode after)) (freed-bytes s)
    ∙ sym (encode-append before (freed s ∷ after))

All-replace :
    (P : Slot → Type 0) (before : List Slot) (s t : Slot) (after : List Slot)
    → All P (before ++ (s ∷ after))
    → P t
    → All P (before ++ (t ∷ after))
All-replace P [] s t after h k = (k, h.1)
All-replace P (x ∷ before) s t after h k = (h.0, All-replace P before s t after h.1 k)

pub IsDir-freed :
    (before : List Slot) (s : Slot) (after : List Slot)
    → IsDir (before ++ (s ∷ after))
    → IsDir (before ++ (freed s ∷ after))
IsDir-freed before s after v = record {
  fits =
      let a = ap length (encode-append before (s ∷ after)) in
      let c = ap length (encode-append before (freed s ∷ after)) in
      omega (
        arith,
        a,
        c,
        length-append (encode before) (encode (s ∷ after)),
        length-append (encode before) (encode (freed s ∷ after)),
        length-encode s after,
        length-encode (freed s) after,
        stride-freed s,
        v.fits,
      );
  inums = All-replace (λ t. Slot.inum t < 2 ^ 32) before s (freed s) after v.inums (omega arith);
}

pub live-freed :
    (before : List Slot) (s : Slot) (after : List Slot)
    → live (before ++ (freed s ∷ after)) ≡ live (before ++ after)
live-freed [] s after = refl
live-freed (t ∷ before) s after = rw (live-freed before s after) refl

-- The first slot of a name is the one that is found.
pub find_name-here :
    (name : List ℕ) (before : List Slot) (s : Slot) (after : List Slot)
    → All (λ t. is_named name t ≡ false) before
    → is_named name s ≡ true
    → find_name name (live (before ++ (s ∷ after))) ≡ some s.inum
unfolding find_name
find_name-here name [] s after o h = ground arith
find_name-here name (t ∷ before) s after o h =
    ground (arith, find_name-here name before s after o.1 h, o.0)
