-- ===== src/Fs/Found.antt =====
-- `create` and then `lookup`, on one directory.
use cse_2014_undergrad.Prelude.{
  ℕ, ◌+◌, ◌-◌, ◌^◌, ◌<◌, false, none, some, Option, List, [], ◌∷◌, ◌++◌, ◌≡◌, ap, ◌∙◌, arith,
  if◌then◌else◌, ◌==◌, ==-refl, length, All, length-append,
}
use cse_2014_undergrad.Extent.Client.{ok}
use cse_2014_undergrad.Fs.Below.{Below, Laws}
use cse_2014_undergrad.Fs.Dir.{same}
use cse_2014_undergrad.Fs.Dir.Slots.{Slot, encode, IsDir, length-encode}
use cse_2014_undergrad.Fs.Dir.Walks.{live, IsFull}
use cse_2014_undergrad.Fs.Client.{Result, done, Fs, lock, lookup, find_name, t_dir}
use cse_2014_undergrad.Fs.Names.{create}
use cse_2014_undergrad.Fs.Effects.{content, Good, lookup_lem}
use cse_2014_undergrad.Fs.Create.{
  new_slot, encode-append, find_name-append, find_name-append_0, Makes, create_lem,
}

All-append :
    (P : Slot → Type 0) (ss : List Slot) (t : Slot) → All P ss → P t → All P (ss ++ (t ∷ []))
All-append P [] t h k = (k, tt)
All-append P (s ∷ ss) t h k = (h.0, All-append P ss t h.1 k)

IsDir-append :
    (ss : List Slot) (ino : ℕ) (name : List ℕ)
    → IsDir ss
    → ino < 2 ^ 32
    → length (encode ss) + length name + 12 < 2 ^ 31
    → IsDir (ss ++ (new_slot ino name ∷ []))
IsDir-append ss ino name v h k = record {
  fits = omega (
    arith,
    k,
    ap length (encode-append ss (new_slot ino name ∷ [])),
    length-append (encode ss) (encode (new_slot ino name ∷ [])),
    length-encode (new_slot ino name) [],
  );
  inums = All-append (λ s. Slot.inum s < 2 ^ 32) ss (new_slot ino name) v.inums h;
}

module _ {S : Type 0} (b : Below S) (w : Laws b) where
  -- On a good state, in a directory in order, none of whose slots has room behind it, `create` of a
  -- name that is not there, and of no directory, succeeds, if the directory stays below 2^31 - 12 bytes
  -- and the server, in the state in which `create` asks it for an extent once it has looked the name up,
  -- makes one whose number is not 0 and fits 32 bits. A later `lookup` then finds the new extent under
  -- the new name, and under every other name what it found before.
  pub create_lookup :
      (f : Fs S) (parent : ℕ) (name : List ℕ) (type : ℕ) (ss : List Slot)
      → Good b w f
      → content b w f parent ≡ encode ss
      → IsDir ss
      → IsFull (length name) ss
      → length (encode ss) + length name + 12 < 2 ^ 31 - 12
      → find_name name (live ss) ≡ none
      → (type == t_dir) ≡ false
      → ((x : Result × Option ℕ) (q : Fs S)
          → lookup b (lock b f parent).1 parent name ≡ some (x, q)
          → Makes b q.ext type)
      → (ino : ℕ) × (h : Fs S) × (create b f parent name type ≡ some ((done, some ino), h))
        × ((other : List ℕ)
            → (h' : Fs S) × (lookup b h parent other
                ≡ some (
                  (
                    done,
                    elim (find_name other (live ss)) [
                      | some i ↦ some i
                      | none ↦ if same name other then some ino else none
                    ],
                  ),
                  h',
                )))
  create_lookup f parent name type ss k e v full short fresh t room =
      let (ino, h, r, gd, c, hi, x, q, looked, made) =
        create_lem b w f parent name type ss k e v full (omega arith) fresh t
          (λ x q l. ((room x q l).0, (room x q l).2)) in
      let lo : 0 < ino = omega (arith, made, (room x q looked).1) in
      (
        ino,
        h,
        r,
        λ other.
            let put : content b w h parent ≡ encode (ss ++ (new_slot ino name ∷ [])) =
              c parent
              ∙ ap
                  (λ u. if u then encode (ss ++ (new_slot ino name ∷ [])) else content b w f parent)
                  (==-refl parent) in
            let (h', r', _, _) =
              lookup_lem b w h parent other (ss ++ (new_slot ino name ∷ [])) gd
                (IsDir-append ss ino name v hi (omega arith)) put in
            (h', r' ∙ ap (λ x. some ((done, x), h')) (find_name-append ss ino name other lo)),
      )

  -- On a good state, in a directory in order, none of whose slots has room behind it and which stays
  -- below 2^31 - 12 bytes, `create` of a name that is not there, and of no directory, succeeds also where
  -- the server, which has no free inode, gives the number 0 with its OK when `create` asks it for an
  -- extent. It gives out the number 0, and a later `lookup` finds under every name what it found before,
  -- so nothing under the new one.
  pub create_exhausted :
      (f : Fs S) (parent : ℕ) (name : List ℕ) (type : ℕ) (ss : List Slot)
      → Good b w f
      → content b w f parent ≡ encode ss
      → IsDir ss
      → IsFull (length name) ss
      → length (encode ss) + length name + 12 < 2 ^ 31 - 12
      → find_name name (live ss) ≡ none
      → (type == t_dir) ≡ false
      → ((x : Result × Option ℕ) (q : Fs S)
          → lookup b (lock b f parent).1 parent name ≡ some (x, q)
          → ((b.create q.ext type).0 ≡ ok) × ((b.create q.ext type).1 ≡ 0))
      → (h : Fs S) × (create b f parent name type ≡ some ((done, some 0), h))
        × ((other : List ℕ)
            → (h' : Fs S) × (lookup b h parent other
                ≡ some ((done, find_name other (live ss)), h')))
  create_exhausted f parent name type ss k e v full short fresh t room =
      let (ino, h, r, gd, c, hi, x, q, looked, made) =
        create_lem b w f parent name type ss k e v full (omega arith) fresh t
          (λ x q l. ((room x q l).0, omega (arith, (room x q l).1))) in
      let zero_given : ino ≡ 0 = made ∙ (room x q looked).1 in
      (
        h,
        r ∙ ap (λ i. some ((done, some i), h)) zero_given,
        λ other.
            let put : content b w h parent ≡ encode (ss ++ (new_slot 0 name ∷ [])) =
              c parent
              ∙ ap
                  (λ u. if u then encode (ss ++ (new_slot ino name ∷ [])) else content b w f parent)
                  (==-refl parent)
              ∙ ap (λ i. encode (ss ++ (new_slot i name ∷ []))) zero_given in
            let (h', r', _, _) =
              lookup_lem b w h parent other (ss ++ (new_slot 0 name ∷ [])) gd
                (IsDir-append ss 0 name v (omega arith) (omega arith)) put in
            (h', r' ∙ ap (λ x. some ((done, x), h')) (find_name-append_0 ss name other)),
      )
