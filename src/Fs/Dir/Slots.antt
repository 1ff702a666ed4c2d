-- ===== src/Fs/Dir/Slots.antt =====
-- A directory in order: its contents are the bytes of a list of slots, and `parsedir` reads them back.
use cse_2014_undergrad.Prelude.{
  slt, ℕ, ◌+◌, ◌-◌, ◌%◌, ◌^◌, ◌<◌, ◌≤◌, false, none, some, List, [], ◌∷◌, ◌++◌, ◌≡◌, refl, ap,
  subst, ◌∙◌, arith, length, drop, All, append_assoc, length-append, drop-append,
}
use cse_2014_undergrad.Fs.Dir.{store32, load32, assign, Entry, parsedir}

-- A slot is free if its inode number is 0. `pad` is what lies between its end and the next slot.
pub record Slot : Type 0 where
  pub inum : ℕ
  pub name : List ℕ
  pub pad : List ℕ

abbrev pub stride : Slot → ℕ
stride s = length s.name + 12 + length s.pad

abbrev pub bytes : Slot → List ℕ
bytes s = store32 s.inum (store32 (length s.name) (s.name ++ store32 (stride s) s.pad))

abbrev pub encode : List Slot → List ℕ
encode [] = []
encode (s ∷ ss) = bytes s ++ encode ss

-- The contents fit an `int`, and the numbers their four bytes.
pub record IsDir (ss : List Slot) : Type 0 where
  pub fits : length (encode ss) < 2 ^ 31
  pub inums : All (λ s. Slot.inum s < 2 ^ 32) ss

pub load32-store32 : (x : ℕ) (rest : List ℕ) → x < 2 ^ 32 → load32 (store32 x rest) ≡ some x
unfolding load32
load32-store32 x rest h = ap some (omega arith)

pub assign-append : (name rest : List ℕ) → assign (length name) (name ++ rest) ≡ some name
unfolding assign
assign-append [] rest = refl
assign-append (x ∷ xs) rest = ground (arith, assign-append xs rest)

pub length-bytes : (s : Slot) → length (bytes s) ≡ stride s
length-bytes s = omega (arith, length-append s.name (store32 (stride s) s.pad))

pub length-encode :
    (s : Slot) (ss : List Slot) → length (encode (s ∷ ss)) ≡ stride s + length (encode ss)
length-encode s ss = omega (arith, length-append (bytes s) (encode ss), length-bytes s)

drop-encode : (s : Slot) (ss : List Slot) → drop (stride s) (encode (s ∷ ss)) ≡ encode ss
drop-encode s ss =
    subst (λ n. drop n (encode (s ∷ ss)) ≡ encode ss) (length-bytes s)
      (drop-append (bytes s) (encode ss))

-- What `parsedir` finds at the first slot
abbrev pub entry : Slot → List Slot → Entry
entry s ss = record {
  inum = s.inum;
  filelen = length s.name;
  entrylen = stride s;
  name = s.name;
  next = encode ss;
  remain = length (encode ss);
}

pub parsedir-nil : parsedir [] 0 ≡ some none
unfolding parsedir
parsedir-nil = refl

slt_entry : (n k : ℕ) → k + 12 ≤ n → n < 2 ^ 31 → slt n ((k + 12) % 2 ^ 32) ≡ false
slt_entry n k h l = ground arith

slt_eight : (n : ℕ) → 12 ≤ n → n < 2 ^ 31 → slt n 8 ≡ false
slt_eight n h l = ground arith

left : (n k m : ℕ) → n ≡ k + m → n < 2 ^ 31 → (n + 2 ^ 32 - k) % 2 ^ 32 ≡ m
left n k m e l = omega arith

entry_eq :
    (s : Slot) (ss : List Slot) (next : List ℕ) (remain : ℕ)
    → next ≡ encode ss
    → remain ≡ length (encode ss)
    → some (some (record (entry s ss) { next = next; remain = remain })) ≡ some (some (entry s ss))
entry_eq s ss next remain e r = rw (e, r)

-- `parsedir` where its reads and its assertion succeed.
parsedir_steps :
    (p name : List ℕ) (remain inum filelen entrylen : ℕ)
    → slt remain 8 ≡ false
    → load32 p ≡ some inum
    → load32 (drop 4 p) ≡ some filelen
    → slt remain ((filelen + 12) % 2 ^ 32) ≡ false
    → assign filelen (drop 8 p) ≡ some name
    → load32 (drop filelen (drop 8 p)) ≡ some entrylen
    → parsedir p remain
      ≡ some (
          some (record {
            inum = inum;
            filelen = filelen;
            entrylen = entrylen;
            name = name;
            next = drop entrylen p;
            remain = (remain + 2 ^ 32 - entrylen) % 2 ^ 32;
          }))
unfolding parsedir
parsedir_steps p name remain inum filelen entrylen a b c d e f = rw (a, b, c, d, e, f)

pub parsedir-encode :
    (s : Slot) (ss : List Slot)
    → IsDir (s ∷ ss)
    → parsedir (encode (s ∷ ss)) (length (encode (s ∷ ss))) ≡ some (some (entry s ss))
parsedir-encode s ss v =
    let n : length (encode (s ∷ ss)) ≡ stride s + length (encode ss) = length-encode s ss in
    let tail : List ℕ = store32 (stride s) s.pad ++ encode ss in
    let named : drop 8 (encode (s ∷ ss)) ≡ s.name ++ tail =
      append_assoc s.name (store32 (stride s) s.pad) (encode ss) in
    let dropped : drop (length s.name) (drop 8 (encode (s ∷ ss))) ≡ tail =
      ap (λ l. drop (length s.name) l) named ∙ drop-append s.name tail in
    parsedir_steps (encode (s ∷ ss)) s.name (length (encode (s ∷ ss))) s.inum (length s.name)
      (stride s) (slt_eight _ (omega (arith, n)) v.fits) (load32-store32 s.inum _ v.inums.0)
      (load32-store32 (length s.name) _ (omega (arith, n, v.fits)))
      (slt_entry _ _ (omega (arith, n)) v.fits)
      (ap (λ l. assign (length s.name) l) named ∙ assign-append s.name tail)
      (ap load32 dropped ∙ load32-store32 (stride s) _ (omega (arith, n, v.fits)))
    ∙ entry_eq s ss _ _ (drop-encode s ss) (left _ _ _ n v.fits)
