-- ===== src/Rpc/Marshall/Words.antt =====
-- Round trips of the fixed-size types.
use cse_2014_undergrad.Prelude.{ℕ, ◌+◌, ◌^◌, ◌/◌, ◌%◌, ◌*◌, ap, Bool, true, false, ◌≡◌, arith, ltb}
use cse_2014_undergrad.Rpc.Marshall.{
  Marshall, Unmarshall, rawbyte, take_byte, sign_extend, pack, unpack, put_bool, put_u8, put_u16,
  put_u32, put_u64, get_bool, get_u8, get_u16, get_u32, get_u64,
}
use cse_2014_undergrad.Rpc.Marshall.Codec.{
  Codec, Appends, Appends-trans, Faces, Faces-left, Faces-right,
}

pub rawbyte-Appends : (m : Marshall) (x : ℕ) → Appends m (rawbyte m x)
unfolding rawbyte
rawbyte-Appends m x = record { grows = omega arith; keeps = λ i h. ground arith }

pub take_byte-back :
    (m : Marshall) (u : Unmarshall) (x : ℕ)
    → Faces u m (rawbyte m x)
    → take_byte u ≡ (sign_extend x, record u { ind = Marshall.ind (rawbyte m x) })
unfolding rawbyte take_byte
take_byte-back m u x f = ground (arith, f.at, f.room, f.same m.ind)

-- Four bytes one after another.
take_four :
    (m : Marshall) (u : Unmarshall) (a b c d : ℕ)
    → let m1 = rawbyte m a in
      let m2 = rawbyte m1 b in
      let m3 = rawbyte m2 c in
      let m4 = rawbyte m3 d in
      Faces u m m4
      → (take_byte u ≡ (sign_extend a, record u { ind = m1.ind }))
        × (take_byte (record u { ind = m1.ind }) ≡ (sign_extend b, record u { ind = m2.ind }))
        × (take_byte (record u { ind = m2.ind }) ≡ (sign_extend c, record u { ind = m3.ind }))
        × (take_byte (record u { ind = m3.ind }) ≡ (sign_extend d, record u { ind = m4.ind }))
take_four m u a b c d f =
    let m1 = rawbyte m a in
    let m2 = rawbyte m1 b in
    let m3 = rawbyte m2 c in
    let s1 = rawbyte-Appends m a in
    let s2 = rawbyte-Appends m1 b in
    let s3 = rawbyte-Appends m2 c in
    let s4 = rawbyte-Appends m3 d in
    let f1 = Faces-right s1 (Appends-trans s2 (Appends-trans s3 s4)) f in
    let f2 = Faces-right s2 (Appends-trans s3 s4) f1 in
    (
      take_byte-back m u a (Faces-left s1 (Appends-trans s2 (Appends-trans s3 s4)) f),
      take_byte-back m1 _ b (Faces-left s2 (Appends-trans s3 s4) f1),
      take_byte-back m2 _ c (Faces-left s3 s4 f2),
      take_byte-back m3 _ d (Faces-right s3 s4 f2),
    )

join-split :
    (x : ℕ)
    → ltb x (2 ^ 32) ≡ true
    → sign_extend (x / 2 ^ 24 % 256) % 256 * 2 ^ 24
        + sign_extend (x / 2 ^ 16 % 256) % 256 * 2 ^ 16
        + sign_extend (x / 2 ^ 8 % 256) % 256 * 2 ^ 8
        + sign_extend (x % 256) % 256
      ≡ x
join-split x h = ground arith

pub u32-back :
    (m : Marshall) (u : Unmarshall) (x : ℕ)
    → ltb x (2 ^ 32) ≡ true
    → Faces u m (put_u32 m x)
    → get_u32 u ≡ (x, record u { ind = Marshall.ind (put_u32 m x) })
unfolding put_u32 get_u32
u32-back m u x h f =
    let t = take_four m u _ _ _ _ f in
    rw (t.0, t.1, t.2, t.3)
      (ap (λ y. (y, record u { ind = Marshall.ind (put_u32 m x) })) (join-split x h))

pub put_u32-Appends : (m : Marshall) (x : ℕ) → Appends m (put_u32 m x)
unfolding put_u32
put_u32-Appends m x = Appends-trans (rawbyte-Appends m _) (
    Appends-trans (rawbyte-Appends _ _) (Appends-trans (rawbyte-Appends _ _) (rawbyte-Appends _ _)))

-- `int` and `unsigned int`
instance abbrev pub u32_codec : Codec ℕ
u32_codec = record {
  put = put_u32;
  get = get_u32;
  valid = λ x. ltb x (2 ^ 32);
  appends = put_u32-Appends;
  back = u32-back;
}

pub unpack-pack :
    (m : Marshall) (u : Unmarshall) (x : ℕ)
    → ltb x (2 ^ 32) ≡ true
    → Faces u m (pack m x)
    → unpack u ≡ (x, record u { ind = Marshall.ind (pack m x) })
unfolding pack unpack
unpack-pack m u x h f =
    let t = take_four m u _ _ _ _ f in
    rw (t.0, t.1, t.2, t.3)
      (ap (λ y. (y, record u { ind = Marshall.ind (pack m x) })) (join-split x h))

pub pack-Appends : (m : Marshall) (x : ℕ) → Appends m (pack m x)
unfolding pack
pack-Appends m x = Appends-trans (rawbyte-Appends m _) (
    Appends-trans (rawbyte-Appends _ _) (Appends-trans (rawbyte-Appends _ _) (rawbyte-Appends _ _)))

pub u8-back :
    (m : Marshall) (u : Unmarshall) (x : ℕ)
    → ltb x 256 ≡ true
    → Faces u m (put_u8 m x)
    → get_u8 u ≡ (x, record u { ind = Marshall.ind (put_u8 m x) })
unfolding put_u8 get_u8
u8-back m u x h f =
    rw (take_byte-back m u x f)
      (ap (λ (y : ℕ). (y, record u { ind = Marshall.ind (put_u8 m x) })) (ground arith))

pub put_u8-Appends : (m : Marshall) (x : ℕ) → Appends m (put_u8 m x)
unfolding put_u8
put_u8-Appends m x = rawbyte-Appends m x

-- `char` and `unsigned char`
abbrev pub u8_codec : Codec ℕ
u8_codec = record {
  put = put_u8;
  get = get_u8;
  valid = λ x. ltb x 256;
  appends = put_u8-Appends;
  back = u8-back;
}

pub bool-back :
    (m : Marshall) (u : Unmarshall) (x : Bool)
    → true ≡ true
    → Faces u m (put_bool m x)
    → get_bool u ≡ (x, record u { ind = Marshall.ind (put_bool m x) })
unfolding put_bool get_bool
bool-back m u false h f = rw (take_byte-back m u 0 f)
bool-back m u true h f = rw (take_byte-back m u 1 f)

pub put_bool-Appends : (m : Marshall) (x : Bool) → Appends m (put_bool m x)
unfolding put_bool
put_bool-Appends m x = rawbyte-Appends m _

instance abbrev pub bool_codec : Codec Bool
bool_codec = record {
  put = put_bool;
  get = get_bool;
  valid = λ x. true;
  appends = put_bool-Appends;
  back = bool-back;
}

pub u16-back :
    (m : Marshall) (u : Unmarshall) (x : ℕ)
    → ltb x (2 ^ 16) ≡ true
    → Faces u m (put_u16 m x)
    → get_u16 u ≡ (x, record u { ind = Marshall.ind (put_u16 m x) })
unfolding put_u16 get_u16
u16-back m u x h f =
    let a = x / 2 ^ 8 % 256 in
    let s1 = rawbyte-Appends m a in
    let s2 = rawbyte-Appends (rawbyte m a) (x % 256) in
    rw
      (
        take_byte-back m u a (Faces-left s1 s2 f),
        take_byte-back (rawbyte m a) _ (x % 256) (Faces-right s1 s2 f),
      )
      (ap (λ (y : ℕ). (y, record u { ind = Marshall.ind (put_u16 m x) })) (ground arith))

pub put_u16-Appends : (m : Marshall) (x : ℕ) → Appends m (put_u16 m x)
unfolding put_u16
put_u16-Appends m x = Appends-trans (rawbyte-Appends m _) (rawbyte-Appends _ _)

-- `short` and `unsigned short`
abbrev pub u16_codec : Codec ℕ
u16_codec = record {
  put = put_u16;
  get = get_u16;
  valid = λ x. ltb x (2 ^ 16);
  appends = put_u16-Appends;
  back = u16-back;
}

-- A 64-bit number comes back from the two 32-bit halves in which it was written, and the reader is left
-- behind it, if the reader faces the bytes that were written.
pub u64-back :
    (m : Marshall) (u : Unmarshall) (x : ℕ)
    → ltb x (2 ^ 64) ≡ true
    → Faces u m (put_u64 m x)
    → get_u64 u ≡ (x, record u { ind = Marshall.ind (put_u64 m x) })
unfolding put_u64 get_u64
u64-back m u x h f =
    let a = x / 2 ^ 32 % 2 ^ 32 in
    let b = x % 2 ^ 32 in
    let s1 = put_u32-Appends m a in
    let s2 = put_u32-Appends (put_u32 m a) b in
    rw
      (
        u32-back m u a (ground arith) (Faces-left s1 s2 f),
        u32-back (put_u32 m a) _ b (ground arith) (Faces-right s1 s2 f),
      )
      (ap (λ (y : ℕ). (y, record u { ind = Marshall.ind (put_u64 m x) })) (ground arith))

pub put_u64-Appends : (m : Marshall) (x : ℕ) → Appends m (put_u64 m x)
unfolding put_u64
put_u64-Appends m x = Appends-trans (put_u32-Appends m _) (put_u32-Appends _ _)

-- `unsigned long long`
abbrev pub u64_codec : Codec ℕ
u64_codec = record {
  put = put_u64;
  get = get_u64;
  valid = λ x. ltb x (2 ^ 64);
  appends = put_u64-Appends;
  back = u64-back;
}
