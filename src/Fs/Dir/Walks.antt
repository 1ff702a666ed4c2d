-- ===== src/Fs/Dir/Walks.antt =====
-- The walks along a directory in order: they end, and this is what they find.
use cse_2014_undergrad.Prelude.{
  ℕ, zero, suc, ◌+◌, ◌-◌, ◌%◌, ◌^◌, ◌<◌, ◌≤◌, Bool, true, false, not, ◌&&◌, none, some, List, [],
  ◌∷◌, ◌++◌, ◌≡◌, refl, ap, ◌∙◌, arith, if◌then◌else◌, ltb, ◌==◌, length, All,
}
use cse_2014_undergrad.Fs.Dir.{same, Dirent, entries_from, room_from, name_from, entries_of}
use cse_2014_undergrad.Fs.Dir.Slots.{
  Slot, stride, encode, IsDir, parsedir-nil, parsedir-encode, length-encode,
}

-- The entries of the slots in use
abbrev pub live : List Slot → List Dirent
live [] = []
live (s ∷ ss) = if s.inum == 0 then live ss else record { name = s.name; inum = s.inum } ∷ live ss

pub IsDir-tail : (s : Slot) (ss : List Slot) → IsDir (s ∷ ss) → IsDir ss
IsDir-tail s ss v = record { fits = omega (arith, length-encode s ss, v.fits); inums = v.inums.1 }

pub entries_from-encode :
    (fuel : ℕ) (ss : List Slot)
    → IsDir ss
    → length ss < fuel
    → entries_from fuel (encode ss) (length (encode ss)) ≡ some (live ss)
unfolding entries_from
entries_from-encode zero ss v h = absurd (omega arith)
entries_from-encode (suc n) [] v h = rw parsedir-nil refl
entries_from-encode (suc n) (s ∷ ss) v h =
    rw (parsedir-encode s ss v, entries_from-encode n ss (IsDir-tail s ss v) (omega arith)) refl

pub length-slots : (ss : List Slot) → length ss ≤ length (encode ss)
length-slots [] = omega arith
length-slots (s ∷ ss) = omega (arith, length-slots ss, length-encode s ss)

-- Walking along a directory in order ends without a failed assertion, and lists exactly its live
-- entries, in order.
pub entries_of-encode : (ss : List Slot) → IsDir ss → entries_of (encode ss) ≡ some (live ss)
unfolding entries_of
entries_of-encode ss v = entries_from-encode _ ss v (omega (arith, length-slots ss))

-- A slot that has room behind it for a name of `n` bytes
abbrev pub has_room : ℕ → Slot → Bool
has_room n s = ltb (n + length s.name + 24) (stride s)

abbrev pub IsFull : ℕ → List Slot → Type 0
IsFull n = All (λ s. has_room n s ≡ false)

no_room :
    (n k m : ℕ)
    → ltb (n + k + 24) m ≡ false
    → n + k + 24 < 2 ^ 32
    → ltb ((n + k + 24) % 2 ^ 32) m ≡ false
no_room n k m h b = ground arith

pub room_from-encode :
    (fuel n pos : ℕ) (ss : List Slot)
    → IsDir ss
    → IsFull n ss
    → n < 2 ^ 31 - 24
    → length ss < fuel
    → room_from fuel n pos (encode ss) (length (encode ss)) ≡ some (pos + length (encode ss), none)
unfolding room_from
room_from-encode zero n pos ss v f b h = absurd (omega arith)
room_from-encode (suc k) n pos [] v f b h = rw parsedir-nil (ap (λ x. some (x, none)) (omega arith))
room_from-encode (suc k) n pos (s ∷ ss) v f b h =
    let l = length-encode s ss in
    rw (parsedir-encode s ss v) (
      rw (no_room n (length s.name) (stride s) f.0 (omega (arith, l, v.fits))) (
        room_from-encode k n (pos + stride s) ss (IsDir-tail s ss v) f.1 b (omega arith)
        ∙ ap (λ x. some (x, none)) (omega (arith, l))))

-- A slot that `unlink` looks for
abbrev pub is_named : List ℕ → Slot → Bool
is_named name s = not (s.inum == 0) && same s.name name

pub name_from-encode :
    (fuel : ℕ) (name : List ℕ) (pos : ℕ) (before : List Slot) (s : Slot) (after : List Slot)
    → IsDir (before ++ (s ∷ after))
    → All (λ t. is_named name t ≡ false) before
    → is_named name s ≡ true
    → length before < fuel
    → name_from fuel name s.inum pos
        (encode (before ++ (s ∷ after)))
        (length (encode (before ++ (s ∷ after))))
      ≡ some (some (pos + length (encode before), stride s))
unfolding name_from
name_from-encode zero name pos before s after v o h l = absurd (omega arith)
name_from-encode (suc k) name pos [] s after v o h l =
    rw (parsedir-encode s after v) (rw h (ground arith))
name_from-encode (suc k) name pos (t ∷ before) s after v o h l =
    rw (parsedir-encode t (before ++ (s ∷ after)) v) (
      rw o.0 (
        name_from-encode k name (pos + stride t) before s after
          (IsDir-tail t (before ++ (s ∷ after)) v) o.1 h (omega arith)
        ∙ ap (λ x. some (some (x, stride s))) (omega (arith, length-encode t before))))
