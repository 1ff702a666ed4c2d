-- ===== src/Fs/Dir.antt =====
-- The contents of a directory: `newdir`, `filldir` and `parsedir` of yfs_client.cc, and the loops of
-- its methods that walk along a directory.
--
-- A pointer into the copy of the contents is the list of the bytes from there to the end, so `p + n` is
-- `drop n p`. A failed assertion and a read behind the end are `none`, and so is a walk that runs out of
-- fuel. `int` and `uint32_t` values are their 32 bits.
pub mod Slots
pub mod Walks
use cse_2014_undergrad.Prelude.{
  ℕ, zero, suc, ◌+◌, ◌-◌, ◌*◌, ◌/◌, ◌%◌, ◌^◌, Bool, true, false, not, ◌&&◌, Option, none, some,
  List, [], ◌∷◌, ◌++◌, if◌then◌else◌, ltb, slt, ◌==◌, length, take, drop, ◌>>=◌, ◌>>◌, verify,
}

-- The four bytes of `*((uint32_t *) p) = x`, in front of what follows
abbrev pub store32 : ℕ → List ℕ → List ℕ
store32 x rest = x % 256 ∷ x / 256 % 256 ∷ x / 65536 % 256 ∷ x / 16777216 % 256 ∷ rest

-- `*((uint32_t *) p)`
unfoldable pub load32 : List ℕ → Option ℕ
load32 (a ∷ b ∷ c ∷ d ∷ _) = some (a + 256 * b + 65536 * c + 16777216 * d)
load32 _ = none

-- `name.assign(p, n)`
unfoldable pub assign : ℕ → List ℕ → Option (List ℕ)
assign zero p = some []
assign (suc n) [] = none
assign (suc n) (x ∷ p) = assign n p >>= λ name. some (x ∷ name)

-- `std::string::compare`, whether it is 0
unfoldable pub same : List ℕ → List ℕ → Bool
same [] [] = true
same [] (y ∷ ys) = false
same (x ∷ xs) [] = false
same (x ∷ xs) (y ∷ ys) = x == y && same xs ys

-- `newdir`
unfoldable pub newdir : List ℕ
newdir = store32 0 (store32 0 (store32 12 []))

-- `filldir`: the `size` bytes that it makes. `newnamelen` is the length of `name`.
unfoldable pub filldir : ℕ → ℕ → List ℕ → ℕ → List ℕ
filldir inum entrylen name preventrylen =
    let bytes = store32 inum (store32 (length name) (name ++ store32 entrylen [])) in
    if preventrylen == 0 then bytes else store32 preventrylen bytes

-- What `parsedir` finds at an entry; `next` is the pointer that it returns, `remain` what is left there.
pub record Entry : Type 0 where
  pub inum : ℕ
  pub filelen : ℕ
  pub entrylen : ℕ
  pub name : List ℕ
  pub next : List ℕ
  pub remain : ℕ

-- `parsedir`: `some none` where it returns NULL
unfoldable pub parsedir : List ℕ → ℕ → Option (Option Entry)
unfolding load32 assign
parsedir p remain = if slt remain 8 then (verify (remain == 0) >> some none) else (do
  inum ← load32 p
  filelen ← load32 (drop 4 p)
  verify (not (slt remain ((filelen + 12) % 2 ^ 32)))
  name ← assign filelen (drop 8 p)
  entrylen ← load32 (drop filelen (drop 8 p))
  some (
      some (record {
        inum = inum;
        filelen = filelen;
        entrylen = entrylen;
        name = name;
        next = drop entrylen p;
        remain = (remain + 2 ^ 32 - entrylen) % 2 ^ 32;
      })))

-- `dirent`
pub record Dirent : Type 0 where
  pub name : List ℕ
  pub inum : ℕ

-- The loop of `readdir`
unfoldable pub entries_from : ℕ → List ℕ → ℕ → Option (List Dirent)
entries_from zero p remain = none
entries_from (suc fuel) p remain = do
  r ← parsedir p remain
  elim r [
    | none ↦ some []
    | some e ↦ do
      es ← entries_from fuel e.next e.remain
      some (if e.inum == 0 then es else record { name = e.name; inum = e.inum } ∷ es)
  ]

-- The loop of `create`: the offset at which it ends, with the entry that has room, if there is one
unfoldable pub room_from : ℕ → ℕ → ℕ → List ℕ → ℕ → Option (ℕ × Option Entry)
room_from zero newnamelen pos p remain = none
room_from (suc fuel) newnamelen pos p remain = do
  r ← parsedir p remain
  elim r [
    | none ↦ some (pos, none)
    | some e ↦
        let rest = room_from fuel newnamelen (pos + e.entrylen) e.next e.remain in
        if ltb ((newnamelen + e.filelen + 24) % 2 ^ 32) e.entrylen then some (pos, some e) else rest
  ]

-- The loop of `unlink`: the offset of the entry of that name, with its length, if it is that of `ino`
unfoldable pub name_from : ℕ → List ℕ → ℕ → ℕ → List ℕ → ℕ → Option (Option (ℕ × ℕ))
name_from zero name ino pos p remain = none
name_from (suc fuel) name ino pos p remain = do
  r ← parsedir p remain
  elim r [
    | none ↦ some none
    | some e ↦
        let rest = name_from fuel name ino (pos + e.entrylen) e.next e.remain in
        if not (e.inum == 0) && same e.name name
        then some (if e.inum == ino then some (pos, e.entrylen) else none)
        else rest
  ]

-- A walk along all the contents. Every entry of a directory that is in order has some bytes, so that
-- this much fuel is enough.
unfoldable pub entries_of : List ℕ → Option (List Dirent)
entries_of buf = entries_from (suc (length buf)) buf (length buf)
