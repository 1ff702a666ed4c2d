-- ===== src/Extent/Client/View.antt =====
-- What a user of the cache sees of an extent, and that each operation shows it.
use cse_2014_undergrad.Prelude.{
  ℕ, false, Option, none, some, List, ◌≡◌, inl, inr, refl, arith, if◌then◌else◌, update, length,
  Option-cases, Bool-cases, ◌==◌,
}
use cse_2014_undergrad.Extent.Client.{
  ok, Attr, CacheEntry, Cache, Rpc, put, get, getattr, flush, zero_attr,
}

-- A server that has every extent and room for all contents: `get` returns the contents and leaves them
-- as they are, and `put` replaces them in one extent; both say OK. The extent server is such a one only
-- while its extents are in use, their numbers fit 31 bits and its disk has room; Extent/Server/Flushed
-- has these conditions.
pub record Laws {S : Type 0} (cl : Rpc S) : Type 0 where
  pub content : S → ℕ → List ℕ
  pub get_ok : (s : S) (eid : ℕ) → (cl.get s eid).0 ≡ ok
  pub get_value : (s : S) (eid : ℕ) → (cl.get s eid).1 ≡ content s eid
  pub get_keeps : (s : S) (eid j : ℕ) → content (cl.get s eid).2 j ≡ content s j
  pub put_ok : (s : S) (eid : ℕ) (b : List ℕ) → (cl.put s eid b).0 ≡ ok
  pub put_value :
      (s : S) (eid : ℕ) (b : List ℕ) (j : ℕ)
      → content (cl.put s eid b).1 j ≡ (if eid == j then b else content s j)

module _ {S : Type 0} (cl : Rpc S) (w : Laws cl) where
  abbrev seen : Option CacheEntry → List ℕ → List ℕ
  seen none b = b
  seen (some e) b = e.buf

  -- The contents of an extent as the cache shows them.
  unfoldable pub view : Cache → S → ℕ → List ℕ
  view c s eid = seen (c.bcache eid) (w.content s eid)

  abbrev Matches : Option CacheEntry → List ℕ → Type 0
  Matches none b = Unit
  Matches (some e) b = (e.deleted ≡ false) × ((e.dirty ≡ false) → e.buf ≡ b)

  -- No extent is removed, and an entry that is not dirty has what the server has.
  unfoldable pub Coherent : Cache → S → Type 0
  Coherent c s = (eid : ℕ) → Matches (c.bcache eid) (w.content s eid)

  -- On a coherent cache, `get` gives what the view shows, and changes neither the view nor its coherence.
  pub get-view :
      (c : Cache) (s : S) (eid : ℕ)
      → Coherent c s
      → let r = get cl c s eid in
        (r.0 ≡ ok)
        × (r.1 ≡ view c s eid)
        × ((j : ℕ) → view r.2 r.3 j ≡ view c s j)
        × Coherent r.2 r.3
  unfolding get view Coherent
  get-view c s eid h = (
    ground (arith, w.get_ok s eid),
    ground (arith, w.get_ok s eid, w.get_value s eid),
    (λ j. ground (arith, w.get_ok s eid, w.get_value s eid, w.get_keeps s eid j)),
    (λ j. ground (arith, w.get_ok s eid, w.get_value s eid, w.get_keeps s eid j, h j)),
  )

  -- `put` changes the view of its extent, and of no other.
  pub put-view :
      (c : Cache) (s : S) (eid : ℕ) (b : List ℕ)
      → Coherent c s
      → ((j : ℕ) → view (put c eid b) s j ≡ (if eid == j then b else view c s j))
        × Coherent (put c eid b) s
  unfolding put view Coherent
  put-view c s eid b h = ((λ j. ground arith), (λ j. ground (arith, h j)))

  -- On a coherent cache, `flush` does not abort, the view stays, and the server has what the view shows
  -- of the extent: another client that reads it gets that. The extent's contents are in the cache no
  -- more, and the cache is coherent.
  pub flush-view :
      (c : Cache) (s : S) (eid : ℕ)
      → Coherent c s
      → (d : Cache) × (t : S) × (flush cl c s eid ≡ some (d, t))
        × ((j : ℕ) → view d t j ≡ view c s j)
        × (w.content t eid ≡ view c s eid)
        × (d.bcache eid ≡ none)
        × Coherent d t
  unfolding flush view Coherent
  flush-view c s eid h = elim (Option-cases (c.bcache eid)) [
    | inl n ↦ (c, s, ground arith, (λ j. refl), ground arith, n, h)
    | inr (e, n) ↦ elim (Bool-cases e.dirty) [
      | inl y ↦ (
        record { acache = update c.acache eid none; bcache = update c.bcache eid none },
        (cl.put s eid e.buf).1,
        ground (arith, h eid, w.put_ok s eid e.buf),
        (λ j. ground (arith, h j, w.put_value s eid e.buf j)),
        ground (arith, w.put_value s eid e.buf eid),
        ground arith,
        (λ j. ground (arith, h j, w.put_value s eid e.buf j)),
      )
      | inr y ↦ (
        record { acache = update c.acache eid none; bcache = update c.bcache eid none },
        s,
        ground (arith, h eid),
        (λ j. ground (arith, h j, h eid)),
        ground (arith, h eid),
        ground arith,
        (λ j. ground (arith, h j)),
      )
    ]
  ]

-- An extent that is written before its attributes were read has the attribute type 0, whatever the
-- server has, so `isfile` does not take it for a file.
pub put_unread_type :
    {S : Type 0} (cl : Rpc S) (c : Cache) (s : S) (eid : ℕ) (b : List ℕ)
    → c.acache eid ≡ none
    → getattr cl (put c eid b) s eid ≡ (ok, record zero_attr { size = length b }, put c eid b, s)
unfolding getattr put
put_unread_type cl c s eid b h = ground arith

-- `flush` leaves the attributes of an extent whose contents are not in the cache: they are given out
-- after the lock has gone back, whatever the server has then.
pub flush_keeps_attr :
    {S : Type 0} (cl : Rpc S) (c : Cache) (s t : S) (eid : ℕ) (a : Attr)
    → c.bcache eid ≡ none
    → c.acache eid ≡ some a
    → (flush cl c s eid ≡ some (c, s)) × (getattr cl c t eid ≡ (ok, a, c, t))
unfolding flush getattr
flush_keeps_attr cl c s t eid a h k = (ground arith, ground arith)
