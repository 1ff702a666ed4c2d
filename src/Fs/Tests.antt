-- ===== src/Fs/Tests.antt =====
-- Runs of the file system over extents in a map, and witnesses.
use cse_2014_undergrad.Prelude.{
  ℕ, true, false, Option, none, some, List, [], ◌∷◌, ◌≡◌, refl, arith, if◌then◌else◌, ◌==◌, update,
  length, replicate, ◌>>=◌, is_empty, subst, some-inj,
}
use cse_2014_undergrad.Extent.Client.{ok, zero_attr}
use cse_2014_undergrad.Fs.Below.{Below, Laws}
use cse_2014_undergrad.Fs.Dir.{same, parsedir, entries_from, entries_of, Dirent}
use cse_2014_undergrad.Fs.Dir.Slots.{Slot, encode, IsDir}
use cse_2014_undergrad.Fs.Dir.Walks.{live, entries_of-encode}
use cse_2014_undergrad.Fs.Content.{overwrite, count_written, substr}
use cse_2014_undergrad.Fs.Content.Bytes.{byte, overwrite_lem}
use cse_2014_undergrad.Fs.Content.Pieces.{substr-overwrite}
use cse_2014_undergrad.Fs.Client.{
  Result, done, no_ent, Fs, lock, lookup, readdir, write, find_name, t_file,
}
use cse_2014_undergrad.Fs.Names.{yfs_client, create, unlink}
use cse_2014_undergrad.Fs.Locks.{create-held, unlink_leaks}
use cse_2014_undergrad.Fs.Effects.{write_lem}
use cse_2014_undergrad.Fs.Create.{Makes, create_lem, new_slot}
use cse_2014_undergrad.Fs.Removal.{freed}
use cse_2014_undergrad.Fs.Unlink.{unlink_lem}
use cse_2014_undergrad.Fs.Found.{create_lookup, create_exhausted}

-- Extents in a map; a new extent has the number 5, and once that has contents none can be made.
abbrev memory : Below (ℕ → List ℕ)
memory = record {
  get = λ s i. (ok, s i, s);
  put = λ s i v. (ok, update s i v);
  getattr = λ s i. (ok, record zero_attr { type = t_file }, s);
  create = λ s type. (ok, if is_empty (s 5) then 5 else 0, s);
  remove = λ s i. (ok, update s i []);
  acquire = λ s i. s;
  release = λ s i. some s;
}

abbrev memory_laws : Laws memory
memory_laws = record {
  Good = λ s. Unit {0};
  content = λ s i. s i;
  get_ok = λ s i g. refl;
  get_value = λ s i g. refl;
  get_keeps = λ s i j g. refl;
  get_good = λ s i g. g;
  put_ok = λ s i v g. refl;
  put_value = λ s i v j g. refl;
  put_good = λ s i v g. g;
  create_keeps = λ s type j g. refl;
  create_good = λ s type g. g;
  getattr_keeps = λ s i j g. refl;
  getattr_good = λ s i g. g;
  acquire_keeps = λ s i j g. refl;
  acquire_good = λ s i g. g;
  release_some = λ s i g. (s, refl, g, λ j. refl);
}

-- A directory with a free slot and the name [97; 98]
abbrev slots : List Slot
slots = new_slot 0 [] ∷ new_slot 7 (97 ∷ 98 ∷ []) ∷ []

slots-IsDir : IsDir slots
slots-IsDir = record { fits = omega arith; inums = (omega arith, (omega arith, tt)) }

abbrev mounted : Fs (ℕ → List ℕ)
mounted = record { held = λ i. i == 9; ext = λ i. if i == 1 then encode slots else [] }

entries_of-encode_example : entries_of (encode slots) ≡ some (live slots)
entries_of-encode_example = entries_of-encode slots slots-IsDir

overwrite_lem_example :
    (byte (overwrite 1 (7 ∷ 8 ∷ []) (1 ∷ 2 ∷ [])) 2 ≡ 8)
    × (length (overwrite 1 (7 ∷ 8 ∷ []) (1 ∷ 2 ∷ [])) ≡ 3)
overwrite_lem_example = overwrite_lem 1 (7 ∷ 8 ∷ []) (1 ∷ 2 ∷ []) 2

substr-overwrite_example : substr 3 2 (overwrite 3 (7 ∷ 8 ∷ []) (1 ∷ [])) ≡ some (7 ∷ 8 ∷ [])
substr-overwrite_example = substr-overwrite 3 (7 ∷ 8 ∷ []) (1 ∷ [])

write_lem_example :
    (h : Fs (ℕ → List ℕ)) × (write memory mounted 4 2 (6 ∷ [])
      ≡ some ((done, count_written 2 1 0), h))
    × Unit {0}
    × ((j : ℕ) → h.ext j ≡ (if 4 == j then overwrite 2 (6 ∷ []) [] else mounted.ext j))
write_lem_example = write_lem memory memory_laws mounted 4 2 (6 ∷ []) tt

-- The lookup of the new name leaves extent 5 empty.
mounted-Makes :
    (x : Result × Option ℕ) (q : Fs (ℕ → List ℕ))
    → lookup memory (lock memory mounted 1).1 1 (99 ∷ []) ≡ some (x, q)
    → Makes memory q.ext t_file
unfolding lookup lock entries_of entries_from parsedir
mounted-Makes x q e =
    subst (λ p. Makes memory (Fs.ext p.1) t_file) (some-inj e) (refl, omega arith, omega arith)

create_lookup_example :
    (ino : ℕ) × (h : Fs (ℕ → List ℕ)) × (create memory mounted 1 (99 ∷ []) t_file
      ≡ some ((done, some ino), h))
    × ((other : List ℕ)
        → (h' : Fs (ℕ → List ℕ)) × (lookup memory h 1 other
            ≡ some (
              (
                done,
                elim (find_name other (live slots)) [
                  | some i ↦ some i
                  | none ↦ if same (99 ∷ []) other then some ino else none
                ],
              ),
              h',
            )))
unfolding find_name same
create_lookup_example =
    create_lookup memory memory_laws mounted 1 (99 ∷ []) t_file slots tt refl slots-IsDir
      (refl, (refl, tt)) (omega arith) refl refl mounted-Makes

-- With extent 5 written no extent can be made.
abbrev used_up : Fs (ℕ → List ℕ)
used_up = record mounted { ext = update mounted.ext 5 (1 ∷ []) }

used_up_zero :
    (x : Result × Option ℕ) (q : Fs (ℕ → List ℕ))
    → lookup memory (lock memory used_up 1).1 1 (99 ∷ []) ≡ some (x, q)
    → ((memory.create q.ext t_file).0 ≡ ok) × ((memory.create q.ext t_file).1 ≡ 0)
unfolding lookup lock entries_of entries_from parsedir
used_up_zero x q e =
    subst
      (λ p.
        ((memory.create (Fs.ext p.1) t_file).0 ≡ ok) × ((memory.create (Fs.ext p.1) t_file).1 ≡ 0))
      (some-inj e) (refl, refl)

create_exhausted_example :
    (h : Fs (ℕ → List ℕ)) × (create memory used_up 1 (99 ∷ []) t_file ≡ some ((done, some 0), h))
    × ((other : List ℕ)
        → (h' : Fs (ℕ → List ℕ)) × (lookup memory h 1 other
            ≡ some ((done, find_name other (live slots)), h')))
unfolding find_name same
create_exhausted_example =
    create_exhausted memory memory_laws used_up 1 (99 ∷ []) t_file slots tt refl slots-IsDir
      (refl, (refl, tt)) (omega arith) refl refl used_up_zero

made :
    (ino : ℕ) × (h : Fs (ℕ → List ℕ)) × (create memory mounted 1 (99 ∷ []) t_file
      ≡ some ((done, some ino), h))
unfolding find_name same
made =
    let (ino, h, r, _, _, _, _, _, _, _) =
      create_lem memory memory_laws mounted 1 (99 ∷ []) t_file slots tt refl slots-IsDir
        (refl, (refl, tt)) (omega arith) refl refl
        (λ x q e. ((mounted-Makes x q e).0, (mounted-Makes x q e).2)) in
    (ino, h, r)

create-held_example : Fs.held made.1 1 ≡ false
create-held_example =
    create-held memory mounted 1 (99 ∷ []) t_file ((done, some made.0), made.1) 1 made.2

looked_up :
    lookup memory (lock memory mounted 1).1 1 (100 ∷ [])
    ≡ some ((done, none), (lock memory mounted 1).1)
unfolding lock lookup readdir entries_of entries_from parsedir find_name same
looked_up = refl

unlink_leaks_example :
    (unlink memory mounted 1 (100 ∷ []) ≡ some (no_ent, (lock memory mounted 1).1))
    × ((lock memory mounted 1).1.held 1 ≡ true)
unlink_leaks_example =
    unlink_leaks memory mounted (lock memory mounted 1).1 1 (100 ∷ []) done looked_up

unlink_lem_example :
    (h : Fs (ℕ → List ℕ)) × (unlink memory mounted 1 (97 ∷ 98 ∷ []) ≡ some (done, h))
    × ((j : ℕ)
        → h.ext j ≡ (
            if 1 == j
            then encode (new_slot 0 [] ∷ freed (new_slot 7 (97 ∷ 98 ∷ [])) ∷ [])
            else if 7 == j
            then h.ext j
            else mounted.ext j))
    × ((other : List ℕ)
        → (h' : Fs (ℕ → List ℕ)) × (lookup memory h 1 other
            ≡ some ((done, find_name other []), h')))
unfolding same
unlink_lem_example =
    unlink_lem memory memory_laws mounted 1 (97 ∷ 98 ∷ []) (new_slot 0 [] ∷ [])
      (new_slot 7 (97 ∷ 98 ∷ [])) [] tt refl slots-IsDir (refl, tt) refl (ground arith)
      (λ t g. (refl, refl)) (λ t g. (refl, g, λ j n. ground arith))

-- A name of 14 bytes is made and unlinked in a new root directory, and one of 1 byte is made in its
-- place; then the directory cannot be read.
abbrev long_name : List ℕ
long_name = replicate 14 97

reuse : Option (Option ((Result × List Dirent) × Fs (ℕ → List ℕ)))
unfolding yfs_client create unlink readdir
reuse = do
  f ← yfs_client memory (λ i. [])
  p ← create memory f 1 long_name t_file
  q ← unlink memory p.1 1 long_name
  r ← create memory q.1 1 (98 ∷ []) t_file
  some (readdir memory r.1 1)

reuse_breaks : reuse ≡ some none
unfolding reuse yfs_client create unlink readdir entries_of entries_from parsedir find_name
    overwrite same
reuse_breaks = refl
