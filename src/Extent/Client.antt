-- ===== src/Extent/Client.antt =====
-- The extent client with its cache: extent_client.h and extent_client.cc.
--
-- A method holds the mutex while it works on the cache and lets it go for an RPC; the lock of the
-- extent, which the caller holds, keeps other users of it away meanwhile. The calls to the server go
-- through `cl`, which is a parameter: an operation on the server's state `S` for each RPC.
pub mod View
pub mod Refine
mod Tests
use cse_2014_undergrad.Prelude.{
  ℕ, Bool, true, false, Option, none, some, List, [], ◌∷◌, if◌then◌else◌, update, length, verify,
  ◌>>=◌, ◌>>◌,
}

-- `extent_protocol::status`: OK, or any other.
pub data Status : Type 0 where
  ok failed : Status

abbrev pub is_ok : Status → Bool
is_ok ok = true
is_ok failed = false

-- `extent_protocol::attr`
pub record Attr : Type 0 where
  pub type : ℕ
  pub atime : ℕ
  pub mtime : ℕ
  pub ctime : ℕ
  pub size : ℕ

-- `buffer_cache_entry`
pub record CacheEntry : Type 0 where
  pub dirty : Bool
  pub deleted : Bool
  pub buf : List ℕ

-- `buffer_cache_entry::buffer_cache_entry`
abbrev pub new_entry : CacheEntry
new_entry = record { dirty = false; deleted = false; buf = [] }

-- What `std::map` makes of an `attr` that is first written through `[]`.
abbrev pub zero_attr : Attr
zero_attr = record { type = 0; atime = 0; mtime = 0; ctime = 0; size = 0 }

-- `extent_client`, less the mutex and the connection
pub record Cache : Type 0 where
  pub acache : ℕ → Option Attr
  pub bcache : ℕ → Option CacheEntry

abbrev pub empty : Cache
empty = record { acache = λ eid. none; bcache = λ eid. none }

-- The extent server behind `cl->call`.
pub record Rpc (S : Type 0) : Type 0 where
  pub create : S → ℕ → Status × ℕ × S
  pub get : S → ℕ → Status × List ℕ × S
  pub getattr : S → ℕ → Status × Attr × S
  pub put : S → ℕ → List ℕ → Status × S
  pub remove : S → ℕ → Status × S

-- `map[eid]`, which makes an entry where there is none.
abbrev pub entry_or : Option CacheEntry → CacheEntry
entry_or none = new_entry
entry_or (some e) = e

abbrev pub attr_or : Option Attr → Attr
attr_or none = zero_attr
attr_or (some a) = a

-- `extent_client::put`
unfoldable pub put : Cache → ℕ → List ℕ → Cache
put c eid buf = record {
  acache = update c.acache eid (some (record (attr_or (c.acache eid)) { size = length buf }));
  bcache =
      update c.bcache eid (some (record (entry_or (c.bcache eid)) { buf = buf; dirty = true }));
}

-- `extent_client::remove`
unfoldable pub remove : Cache → ℕ → Cache
remove c eid = record c {
  bcache = update c.bcache eid (some (record (entry_or (c.bcache eid)) { deleted = true }));
}

module _ {S : Type 0} (cl : Rpc S) where
  -- `extent_client::getattr` on a miss
  getattr_miss : Cache → ℕ → Status × Attr × S → Status × Attr × Cache × S
  getattr_miss c eid (ok, a, s) = (ok, a, record c { acache = update c.acache eid (some a) }, s)
  getattr_miss c eid (failed, a, s) = (failed, a, c, s)

  unfoldable pub getattr : Cache → S → ℕ → Status × Attr × Cache × S
  unfolding getattr_miss
  getattr c s eid = elim (c.acache eid) [
    | some a ↦ (ok, a, c, s)
    | none ↦ getattr_miss c eid (cl.getattr s eid)
  ]

  -- `extent_client::create`
  unfoldable pub create : Cache → S → ℕ → Status × ℕ × Cache × S
  create c s type = let (st, id, s') = cl.create s type in (st, id, c, s')

  -- `extent_client::get` on a miss: `bcache[eid]` is new there.
  get_miss : Cache → ℕ → Status × List ℕ × S → Status × List ℕ × Cache × S
  get_miss c eid (ok, buf, s) = (
    ok,
    buf,
    record c { bcache = update c.bcache eid (some (record new_entry { buf = buf })) },
    s,
  )
  get_miss c eid (failed, buf, s) = (failed, buf, c, s)

  unfoldable pub get : Cache → S → ℕ → Status × List ℕ × Cache × S
  unfolding get_miss
  get c s eid = elim (c.bcache eid) [
    | some e ↦ (ok, e.buf, c, s)
    | none ↦ get_miss c eid (cl.get s eid)
  ]

  write_back : Cache → S → ℕ → CacheEntry → Option (Cache × S)
  write_back c s eid e =
      if e.deleted
      then (let (st, s') = cl.remove s eid in verify (is_ok st) >> some (c, s'))
      else (if e.dirty
          then (let (st, s') = cl.put s eid e.buf in verify (is_ok st) >> some (c, s'))
          else some (c, s))

  -- `extent_client::flush`, which `lock_release_user_client::dorelease` calls before a lock goes back.
  -- An entry is dropped from both caches and written back; without one nothing is done.
  unfoldable pub flush : Cache → S → ℕ → Option (Cache × S)
  unfolding write_back
  flush c s eid = elim (c.bcache eid) [
    | none ↦ some (c, s)
    | some e ↦
        write_back (record { acache = update c.acache eid none; bcache = update c.bcache eid none })
          s eid e
  ]
