-- ===== src/Fs/Create.antt =====
-- `create` and `lookup` together: a name that was created is found.
use cse_2014_undergrad.Prelude.{
  ℕ, suc, ◌+◌, ◌-◌, ◌^◌, ◌<◌, Bool, true, false, Option, none, some, List, [], ◌∷◌, ◌++◌, ◌≡◌, refl,
  sym, ap, ◌∙◌, arith, if◌then◌else◌, ◌==◌, length, append_assoc, append-nil,
}
use cse_2014_undergrad.Extent.Client.{ok}
use cse_2014_undergrad.Fs.Below.{Below, Laws}
use cse_2014_undergrad.Fs.Dir.{same, room_from, filldir}
use cse_2014_undergrad.Fs.Dir.Slots.{Slot, bytes, encode, IsDir}
use cse_2014_undergrad.Fs.Dir.Walks.{live, IsFull, room_from-encode, length-slots}
use cse_2014_undergrad.Fs.Content.{overwrite}
use cse_2014_undergrad.Fs.Content.Pieces.{overwrite_end}
use cse_2014_undergrad.Fs.Client.{Result, done, Fs, lock, lookup, find_name, t_dir}
use cse_2014_undergrad.Fs.Names.{create_entry, create_extent, create_found, create}
use cse_2014_undergrad.Fs.Locks.{write-held, lookup-held}
use cse_2014_undergrad.Fs.Effects.{
  content, Good, lock-Good, lock-content, leave_lem, write_lem, lookup_lem,
}

-- The slot of a new entry at the end
abbrev pub new_slot : ℕ → List ℕ → Slot
new_slot ino name = record { inum = ino; name = name; pad = [] }

pub encode-append : (ss ts : List Slot) → encode (ss ++ ts) ≡ encode ss ++ encode ts
encode-append [] ts = refl
encode-append (s ∷ ss) ts =
    ap (λ l. bytes s ++ l) (encode-append ss ts)
    ∙ sym (append_assoc (bytes s) (encode ss) (encode ts))

filldir-bytes :
    (ino : ℕ) (name : List ℕ)
    → filldir ino (length name + 12) name 0 ≡ encode (new_slot ino name ∷ [])
unfolding filldir
filldir-bytes ino name =
    let e : length name + 12 + 0 ≡ length name + 12 = omega arith in rw e (sym (append-nil _))

-- What `create` writes at the end of a directory is the new slot.
overwrite-filldir :
    (ss : List Slot) (ino : ℕ) (name : List ℕ)
    → overwrite (0 + length (encode ss)) (filldir ino (length name + 12) name 0) (encode ss)
      ≡ encode (ss ++ (new_slot ino name ∷ []))
overwrite-filldir ss ino name =
    let e : 0 + length (encode ss) ≡ length (encode ss) = omega arith in
    rw e (
      overwrite_end (encode ss) _
      ∙ ap (λ l. encode ss ++ l) (filldir-bytes ino name)
      ∙ sym (encode-append ss (new_slot ino name ∷ [])))

pub same_refl : (name : List ℕ) → same name name ≡ true
unfolding same
same_refl [] = refl
same_refl (x ∷ xs) = ground (arith, same_refl xs)

-- Looking a name up after a slot was put at the end.
pub find_name-append :
    (ss : List Slot) (ino : ℕ) (name other : List ℕ)
    → 0 < ino
    → find_name other (live (ss ++ (new_slot ino name ∷ []))) ≡ (elim (find_name other (live ss)) [
      | some i ↦ some i
      | none ↦ if same name other then some ino else none
    ])
unfolding find_name
find_name-append [] ino name other h = ground arith
find_name-append (s ∷ ss) ino name other h = ground (arith, find_name-append ss ino name other h)

-- A slot with the number 0 is found under no name.
pub find_name-append_0 :
    (ss : List Slot) (name other : List ℕ)
    → find_name other (live (ss ++ (new_slot 0 name ∷ []))) ≡ find_name other (live ss)
unfolding find_name
find_name-append_0 [] name other = ground arith
find_name-append_0 (s ∷ ss) name other = ground (arith, find_name-append_0 ss name other)

module _ {S : Type 0} (b : Below S) where
  -- From this state the server makes an extent, whose number is not 0 and fits 32 bits. A server without
  -- a free inode gives number 0.
  abbrev pub Makes : S → ℕ → Type 0
  Makes s type =
      ((b.create s type).0 ≡ ok) × (0 < (b.create s type).1) × (b.create s type).1 < 2 ^ 32

  -- The server says OK, and gives some number.
  abbrev pub Numbers : S → ℕ → Type 0
  Numbers s type = ((b.create s type).0 ≡ ok) × (b.create s type).1 < 2 ^ 32

module _ {S : Type 0} (b : Below S) (w : Laws b) where
  -- The last part of `create`, from a state `g` with the locks that `create` has taken.
  create_entry_lem :
      (f g : Fs S) (parent : ℕ) (name : List ℕ) (ino : ℕ) (ss : List Slot)
      → Good b w g
      → g.held parent ≡ (lock b f parent).1.held parent
      → IsDir ss
      → IsFull (length name) ss
      → length name < 2 ^ 31 - 24
      → content b w g parent ≡ encode ss
      → (h : Fs S) × (create_entry b (lock b f parent).0 g parent name ino
          ≡ some ((done, some ino), h))
        × Good b w h
        × ((j : ℕ)
            → content b w h j
              ≡ (if parent == j then encode (ss ++ (new_slot ino name ∷ [])) else content b w g j))
  unfolding create_entry
  create_entry_lem f g parent name ino ss k held v full short e =
      let y = w.get_ok g.ext parent k in
      let buf = (b.get g.ext parent).1 in
      let g' : Fs S = record g { ext = (b.get g.ext parent).2 } in
      let same_buf : buf ≡ encode ss = w.get_value g.ext parent k ∙ e in
      let k' = w.get_good g.ext parent k in
      let room : room_from (suc (length buf)) (length name) 0 buf (length buf)
          ≡ some (0 + length (encode ss), none) =
        ap (λ l. room_from (suc (length l)) (length name) 0 l (length l)) same_buf
        ∙ room_from-encode (suc (length (encode ss))) (length name) 0 ss v full short
            (omega (arith, length-slots ss)) in
      let line = filldir ino (length name + 12) name 0 in
      let (h, r, gd, c) = write_lem b w g' parent (0 + length (encode ss)) line k' in
      let locks = write-held b g' parent _ line _ r parent in
      let (h', r', gd', c') =
        leave_lem b w {A = Result × Option ℕ} f h parent (done, some ino) gd (locks ∙ held) in
      let old : content b w g' parent ≡ encode ss = w.get_keeps g.ext parent parent k ∙ e in
      let put : overwrite (0 + length (encode ss)) line (content b w g' parent)
          ≡ encode (ss ++ (new_slot ino name ∷ [])) =
        ap (λ l. overwrite (0 + length (encode ss)) line l) old ∙ overwrite-filldir ss ino name in
      (
        h',
        rw (y, room, r, r', create_entry) refl,
        gd',
        λ j. c' j ∙ c j ∙ branch (parent == j) put (w.get_keeps g.ext parent j k),
      )
    where
      branch :
          (t : Bool) {x y u v : List ℕ}
          → x ≡ y
          → u ≡ v
          → (if t then x else u) ≡ (if t then y else v)
      branch true e k = e
      branch false e k = k

  -- In a directory in order, none of whose slots has room behind it, `create` of a name that is not
  -- there makes the name: the directory is as before with a new slot at its end, and no other extent is
  -- changed. The new extent is not a directory, and has the number that the server gives in the state in
  -- which `create` asks for it, once it has looked the name up.
  pub create_lem :
      (f : Fs S) (parent : ℕ) (name : List ℕ) (type : ℕ) (ss : List Slot)
      → Good b w f
      → content b w f parent ≡ encode ss
      → IsDir ss
      → IsFull (length name) ss
      → length name < 2 ^ 31 - 24
      → find_name name (live ss) ≡ none
      → (type == t_dir) ≡ false
      → ((x : Result × Option ℕ) (q : Fs S)
          → lookup b (lock b f parent).1 parent name ≡ some (x, q)
          → Numbers b q.ext type)
      → (ino : ℕ) × (h : Fs S) × (create b f parent name type ≡ some ((done, some ino), h))
        × Good b w h
        × ((j : ℕ)
            → content b w h j
              ≡ (if parent == j then encode (ss ++ (new_slot ino name ∷ [])) else content b w f j))
        × (ino < 2 ^ 32)
        × (x : Result × Option ℕ) × (q : Fs S) × (lookup b (lock b f parent).1 parent name
            ≡ some (x, q))
        × (ino ≡ (b.create q.ext type).1)
  unfolding create create_found create_extent
  create_lem f parent name type ss k e v full short fresh t room =
      let f1 = (lock b f parent).1 in
      let (q, r, gq, cq) =
        lookup_lem b w f1 parent name ss (lock-Good b w f parent k) v
          (lock-content b w f parent parent k ∙ e) in
      let locks = lookup-held b f1 parent name _ r parent in
      let y = (room _ q r).0 in
      let ino = (b.create q.ext type).1 in
      let g : Fs S = record q { ext = (b.create q.ext type).2 } in
      let kept : (j : ℕ) → content b w g j ≡ content b w f j =
        λ j. w.create_keeps q.ext type j gq ∙ cq j ∙ lock-content b w f parent j k in
      let (h, r', gd, c) =
        create_entry_lem f g parent name ino ss (w.create_good q.ext type gq) locks v full short
          (kept parent ∙ e) in
      (
        ino,
        h,
        rw (r, fresh, y, t, r', create, create_found, create_extent) refl,
        gd,
        λ j. c j ∙ branch (parent == j) (encode (ss ++ (new_slot ino name ∷ []))) (kept j),
        (room _ q r).1,
        (done, find_name name (live ss)),
        q,
        r,
        refl,
      )
    where
      branch :
          (t : Bool) (x : List ℕ) {u v : List ℕ}
          → u ≡ v
          → (if t then x else u) ≡ (if t then x else v)
      branch true x k = refl
      branch false x k = k
