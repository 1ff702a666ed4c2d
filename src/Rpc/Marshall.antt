-- ===== src/Rpc/Marshall.antt =====
-- Values on the wire: `marshall` and `unmarshall` of rpc/marshall.h and rpc/rpc.cc, without
-- RPC_CHECKSUMMING, which the build does not define.
--
-- `_buf` is a function of the index: `realloc` keeps what was written, and what was not is arbitrary.
-- A byte is a number below 256, a signed value is its bit pattern. The sizes are taken to stay below
-- 2 ^ 31, where `_capa` and `_ind` do not overflow; the sum that the code forms as an unsigned number
-- wraps (`Unmarshall.rawbytes`).
pub mod Codec
pub mod Words
pub mod Text
pub mod Headers
pub mod Vectors
pub mod Maps
mod Tests
use cse_2014_undergrad.Prelude.{
  ℕ, suc, ◌+◌, ◌*◌, ◌/◌, ◌%◌, ◌^◌, ◌-◌, Bool, true, false, not, List, [], ◌∷◌, if◌then◌else◌, leb,
  ltb, ◌==◌, update, length,
}

-- `sizeof(rpc_sz_t)`, and `RPC_HEADER_SZ`: the larger header with it.
abbrev pub rpc_sz : ℕ
rpc_sz = 4

abbrev pub rpc_header_sz : ℕ
rpc_header_sz = 24

abbrev pub default_rpc_sz : ℕ
default_rpc_sz = 1024

pub record Marshall : Type 0 where
  pub buf : ℕ → ℕ
  pub capa : ℕ
  pub ind : ℕ

-- The constructor, over whatever `malloc` gives.
abbrev pub marshall : (ℕ → ℕ) → Marshall
marshall junk = record { buf = junk; capa = default_rpc_sz; ind = rpc_header_sz }

-- `marshall::rawbyte`
unfoldable pub rawbyte : Marshall → ℕ → Marshall
rawbyte m x = record {
  buf = update m.buf m.ind x;
  capa = if leb m.capa m.ind then m.capa * 2 else m.capa;
  ind = m.ind + 1;
}

-- `memcpy(_buf + i, p, n)`
unfoldable pub copy : (ℕ → ℕ) → ℕ → List ℕ → ℕ → ℕ
copy f i [] = f
copy f i (x ∷ xs) = copy (update f i x) (i + 1) xs

-- `marshall::rawbytes`
unfoldable pub rawbytes : Marshall → List ℕ → Marshall
unfolding copy
rawbytes m p = record {
  buf = copy m.buf m.ind p;
  capa =
      if ltb m.capa (m.ind + length p)
      then (if ltb (length p) m.capa then 2 * m.capa else m.capa + length p)
      else m.capa;
  ind = m.ind + length p;
}

-- `operator<<` for `bool`, `unsigned char` and `char`
unfoldable pub put_bool : Marshall → Bool → Marshall
unfolding rawbyte
put_bool m x = rawbyte m (if x then 1 else 0)

unfoldable pub put_u8 : Marshall → ℕ → Marshall
unfolding rawbyte
put_u8 m x = rawbyte m x

-- `operator<<` for `unsigned short` and `short`
unfoldable pub put_u16 : Marshall → ℕ → Marshall
unfolding rawbyte
put_u16 m x = rawbyte (rawbyte m (x / 2 ^ 8 % 256)) (x % 256)

-- `operator<<` for `unsigned int` and `int`; `pack` has the same text.
unfoldable pub put_u32 : Marshall → ℕ → Marshall
unfolding rawbyte
put_u32 m x =
    rawbyte (rawbyte (rawbyte (rawbyte m (x / 2 ^ 24 % 256)) (x / 2 ^ 16 % 256)) (x / 2 ^ 8 % 256))
      (x % 256)

unfoldable pub pack : Marshall → ℕ → Marshall
unfolding rawbyte
pack m x =
    rawbyte (rawbyte (rawbyte (rawbyte m (x / 2 ^ 24 % 256)) (x / 2 ^ 16 % 256)) (x / 2 ^ 8 % 256))
      (x % 256)

-- `operator<<` for `unsigned long long`
unfoldable pub put_u64 : Marshall → ℕ → Marshall
put_u64 m x = put_u32 (put_u32 m (x / 2 ^ 32 % 2 ^ 32)) (x % 2 ^ 32)

-- `operator<<` for `std::string`
unfoldable pub put_string : Marshall → List ℕ → Marshall
put_string m s = rawbytes (put_u32 m (length s)) s

pub record Unmarshall : Type 0 where
  pub buf : ℕ → ℕ
  pub sz : ℕ
  pub ind : ℕ
  pub ok : Bool

-- `unmarshall(char *b, int sz)`
abbrev pub unmarshall : (ℕ → ℕ) → ℕ → Unmarshall
unmarshall b sz = record { buf = b; sz = sz; ind = 0; ok = true }

-- A `char` as an `unsigned int`: its sign is extended.
abbrev pub sign_extend : ℕ → ℕ
sign_extend c = if ltb c 128 then c else 2 ^ 32 - 256 + c

-- `unmarshall::rawbyte`
unfoldable pub take_byte : Unmarshall → ℕ × Unmarshall
take_byte u =
    if leb u.sz u.ind
    then (0, record u { ok = false })
    else (sign_extend (u.buf u.ind), record u { ind = u.ind + 1 })

-- `operator>>` for `bool`, `unsigned char` and `char`
unfoldable pub get_bool : Unmarshall → Bool × Unmarshall
unfolding take_byte
get_bool u = let (c, u') = take_byte u in (not (c == 0), u')

unfoldable pub get_u8 : Unmarshall → ℕ × Unmarshall
unfolding take_byte
get_u8 u = let (c, u') = take_byte u in (c % 256, u')

-- `operator>>` for `unsigned short`: the parts that `|` joins have no bit in common.
unfoldable pub get_u16 : Unmarshall → ℕ × Unmarshall
unfolding take_byte
get_u16 u =
    let (a, u1) = take_byte u in let (b, u2) = take_byte u1 in (a % 256 * 2 ^ 8 + b % 256, u2)

-- `operator>>` for `unsigned int` and `int`; `unpack` has the same text.
unfoldable pub get_u32 : Unmarshall → ℕ × Unmarshall
unfolding take_byte
get_u32 u =
    let (a, u1) = take_byte u in
    let (b, u2) = take_byte u1 in
    let (c, u3) = take_byte u2 in
    let (d, u4) = take_byte u3 in
    (a % 256 * 2 ^ 24 + b % 256 * 2 ^ 16 + c % 256 * 2 ^ 8 + d % 256, u4)

unfoldable pub unpack : Unmarshall → ℕ × Unmarshall
unfolding take_byte
unpack u =
    let (a, u1) = take_byte u in
    let (b, u2) = take_byte u1 in
    let (c, u3) = take_byte u2 in
    let (d, u4) = take_byte u3 in
    (a % 256 * 2 ^ 24 + b % 256 * 2 ^ 16 + c % 256 * 2 ^ 8 + d % 256, u4)

-- `operator>>` for `unsigned long long`
unfoldable pub get_u64 : Unmarshall → ℕ × Unmarshall
get_u64 u = let (h, u1) = get_u32 u in let (l, u2) = get_u32 u1 in (l + h * 2 ^ 32, u2)

-- `std::string(_buf + i, n)`
unfoldable pub slice : (ℕ → ℕ) → ℕ → ℕ → List ℕ
slice f i ℕ.zero = []
slice f i (suc n) = f i ∷ slice f (i + 1) n

-- `unmarshall::rawbytes`: the sum is formed as an unsigned number, and `_ind` takes it back. With a
-- failure the string stays as it was.
unfoldable pub take_bytes : Unmarshall → List ℕ → ℕ → List ℕ × Unmarshall
unfolding slice
take_bytes u s n =
    if ltb u.sz ((u.ind + n) % 2 ^ 32)
    then (s, record u { ok = false })
    else (slice u.buf u.ind n, record u { ind = (u.ind + n) % 2 ^ 32 })

-- `operator>>` for `std::string`, into a string that held `s`
unfoldable pub get_string : List ℕ → Unmarshall → List ℕ × Unmarshall
get_string s u = let (n, u') = get_u32 u in if u'.ok then take_bytes u' s n else (s, u')

-- `unmarshall::okdone`
unfoldable pub okdone : Unmarshall → Bool
okdone u = if u.ok then u.ind == u.sz else false
