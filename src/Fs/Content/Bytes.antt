-- ===== src/Fs/Content/Bytes.antt =====
-- Byte by byte: what a write, a read and a change of size do.
use cse_2014_undergrad.Prelude.{
  ℕ, zero, suc, ◌+◌, ◌-◌, ◌≤◌, ◌&&◌, List, [], ◌∷◌, ◌++◌, ◌≡◌, refl, ◌∙◌, arith, if◌then◌else◌, ltb,
  leb, length, get_or, take, drop, replicate, length-append, length-take, length-drop,
  length-replicate, Bool-cases, inl, inr,
}
use cse_2014_undergrad.Fs.Content.{resize, replace, overwrite}

-- Bytes are counted from 0, and there are zeros behind the end.
abbrev pub byte : List ℕ → ℕ → ℕ
byte buf i = get_or buf i 0

byte-append :
    (xs ys : List ℕ) (i : ℕ)
    → byte (xs ++ ys) i ≡ (if ltb i (length xs) then byte xs i else byte ys (i - length xs))
byte-append [] ys i = ground arith
byte-append (x ∷ xs) ys zero = ground arith
byte-append (x ∷ xs) ys (suc i) = ground (arith, byte-append xs ys i)

byte-take : (n : ℕ) (xs : List ℕ) (i : ℕ) → byte (take n xs) i ≡ (if ltb i n then byte xs i else 0)
byte-take zero xs i = ground arith
byte-take (suc n) [] i = ground arith
byte-take (suc n) (x ∷ xs) zero = ground arith
byte-take (suc n) (x ∷ xs) (suc i) = ground (arith, byte-take n xs i)

byte-drop : (n : ℕ) (xs : List ℕ) (i : ℕ) → byte (drop n xs) i ≡ byte xs (n + i)
byte-drop zero xs i = ground arith
byte-drop (suc n) [] i = refl
byte-drop (suc n) (x ∷ xs) i = ground (arith, byte-drop n xs i)

byte-replicate : (n i : ℕ) → byte (replicate n 0) i ≡ 0
byte-replicate zero i = refl
byte-replicate (suc n) zero = refl
byte-replicate (suc n) (suc i) = byte-replicate n i

byte-behind : (xs : List ℕ) (i : ℕ) → length xs ≤ i → byte xs i ≡ 0
byte-behind [] i h = refl
byte-behind (x ∷ xs) zero h = absurd (omega arith)
byte-behind (x ∷ xs) (suc i) h = byte-behind xs i (omega arith)

pub length-resize : (n : ℕ) (buf : List ℕ) → length (resize n buf) ≡ n
unfolding resize
length-resize n buf = omega (
  arith,
  length-append (take n buf) (replicate (n - length buf) 0),
  length-take n buf,
  length-replicate {A = ℕ} (n - length buf) 0,
)

pub byte-resize :
    (n : ℕ) (buf : List ℕ) (i : ℕ) → byte (resize n buf) i ≡ (if ltb i n then byte buf i else 0)
unfolding resize
byte-resize n buf i = ground (
  arith,
  byte-append (take n buf) (replicate (n - length buf) 0) i,
  byte-take n buf i,
  byte-replicate (n - length buf) (i - length (take n buf)),
  length-take n buf,
  byte-behind buf i,
)

length-replace :
    (off : ℕ) (content buf : List ℕ)
    → off + length content ≤ length buf
    → length (replace off content buf) ≡ length buf
unfolding replace
length-replace off content buf h = omega (
  arith,
  length-append (take off buf) (content ++ drop (off + length content) buf),
  length-append content (drop (off + length content) buf),
  length-take off buf,
  length-drop (off + length content) buf,
)

byte-replace :
    (off : ℕ) (content buf : List ℕ) (i : ℕ)
    → off + length content ≤ length buf
    → byte (replace off content buf) i
      ≡ (if leb off i && ltb i (off + length content) then byte content (i - off) else byte buf i)
unfolding replace
byte-replace off content buf i h = ground (
  arith,
  byte-append (take off buf) (content ++ drop (off + length content) buf) i,
  byte-append content (drop (off + length content) buf) (i - off),
  length-take off buf,
  byte-take off buf i,
  byte-drop (off + length content) buf (i - off - length content),
)

-- A write changes the bytes from `off` on to those written and no other; what lies between the old end
-- and `off` is zero, and the length grows only as far as the write reaches.
pub overwrite_lem :
    (off : ℕ) (content buf : List ℕ) (i : ℕ)
    → (byte (overwrite off content buf) i ≡ (
        if leb off i && ltb i (off + length content) then byte content (i - off) else byte buf i))
      × (length (overwrite off content buf)
          ≡ (if ltb (length buf) (off + length content) then off + length content else length buf))
unfolding overwrite
overwrite_lem off content buf i = elim (Bool-cases (ltb (length buf) (off + length content))) [
  | inl y ↦
      let n = off + length content in
      let l = length-resize n buf in
      rw y (
        ground (
          arith,
          byte-replace off content (resize n buf) i,
          byte-resize n buf i,
          l,
          byte-behind buf i,
        ),
        length-replace off content (resize n buf) (omega (arith, l)) ∙ l,
      )
  | inr y ↦
      rw y (
        byte-replace off content buf i (ground arith),
        length-replace off content buf (ground arith),
      )
]
