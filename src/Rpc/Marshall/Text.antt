-- ===== src/Rpc/Marshall/Text.antt =====
-- Round trips of strings and of containers.
use cse_2014_undergrad.Prelude.{
  ℕ, ◌+◌, ◌<◌, ◌≤◌, ◌^◌, true, ◌≡◌, refl, arith, ltb, List, [], ◌∷◌, length, update,
}
use cse_2014_undergrad.Rpc.Marshall.{
  Marshall, Unmarshall, copy, slice, rawbytes, take_bytes, put_u32, put_string, get_string,
}
use cse_2014_undergrad.Rpc.Marshall.Codec.{
  Codec, Appends, Appends-trans, Faces, Faces-left, Faces-right,
}
use cse_2014_undergrad.Rpc.Marshall.Words.{put_u32-Appends, u32-back}

copy-below : (f : ℕ → ℕ) (i : ℕ) (s : List ℕ) (j : ℕ) → j < i → copy f i s j ≡ f j
unfolding copy
copy-below f i [] j h = refl
copy-below f i (x ∷ s) j h = ground (arith, copy-below (update f i x) (i + 1) s j)

slice-copy :
    (f g : ℕ → ℕ) (i : ℕ) (s : List ℕ)
    → ((j : ℕ) → i ≤ j → j < i + length s → g j ≡ copy f i s j)
    → slice g i (length s) ≡ s
unfolding copy slice
slice-copy f g i [] h = refl
slice-copy f g i (x ∷ s) h = ground (
  arith,
  h i,
  copy-below (update f i x) (i + 1) s i,
  slice-copy (update f i x) g (i + 1) s (λ j l k. h j (omega arith) (omega arith)),
)

rawbytes-Appends : (m : Marshall) (s : List ℕ) → Appends m (rawbytes m s)
unfolding rawbytes
rawbytes-Appends m s = record { grows = omega arith; keeps = λ i h. copy-below m.buf m.ind s i h }

-- Reading `length s` raw bytes gives `s`, whatever the string held.
take_bytes-back :
    (m : Marshall) (u : Unmarshall) (t s : List ℕ)
    → Faces u m (rawbytes m s)
    → take_bytes u t (length s) ≡ (s, record u { ind = Marshall.ind (rawbytes m s) })
unfolding take_bytes rawbytes
take_bytes-back m u t s f =
    ground (arith, f.at, f.room, f.fits, slice-copy m.buf u.buf m.ind s f.same)

pub put_string-Appends : (m : Marshall) (s : List ℕ) → Appends m (put_string m s)
unfolding put_string
put_string-Appends m s = Appends-trans (put_u32-Appends m _) (rawbytes-Appends _ _)

-- The length of a string that fits the buffer is a 32-bit number.
length-fits :
    (m : Marshall) (u : Unmarshall) (s : List ℕ)
    → Faces u m (rawbytes m s)
    → ltb (length s) (2 ^ 32) ≡ true
unfolding rawbytes
length-fits m u s f = ground (arith, f.room, f.fits)

-- A string comes back, whatever the string read into held before, and the reader is left behind it, if
-- the reader faces the bytes that were written.
pub string-back :
    (t : List ℕ) (m : Marshall) (u : Unmarshall) (s : List ℕ)
    → Faces u m (put_string m s)
    → get_string t u ≡ (s, record u { ind = Marshall.ind (put_string m s) })
unfolding put_string get_string
string-back t m u s f =
    let s1 = put_u32-Appends m (length s) in
    let s2 = rawbytes-Appends (put_u32 m (length s)) s in
    let f2 = Faces-right s1 s2 f in
    ground (
      arith,
      f.fine,
      u32-back m u (length s) (length-fits _ _ s f2) (Faces-left s1 s2 f),
      take_bytes-back (put_u32 m (length s)) _ t s f2,
    )

-- `std::string`, read into a new one
instance abbrev pub string_codec : Codec (List ℕ)
string_codec = record {
  put = put_string;
  get = get_string [];
  valid = λ s. true;
  appends = put_string-Appends;
  back = λ m u s _. string-back [] m u s;
}

-- A length that makes the sum wrap gets past the test: `n` bytes are read, though they reach beyond the
-- packet, `_ok` stays as it was, and the reader is back at the first byte.
pub take_bytes_wraps :
    (u : Unmarshall) (s : List ℕ) (n : ℕ)
    → u.sz < 2 ^ 32
    → u.ind + n ≡ 2 ^ 32
    → (u.sz < u.ind + n) × (take_bytes u s n ≡ (slice u.buf u.ind n, record u { ind = 0 }))
unfolding take_bytes
take_bytes_wraps u s n l h = (omega arith, ground arith)
