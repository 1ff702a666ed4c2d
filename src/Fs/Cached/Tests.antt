-- ===== src/Fs/Cached/Tests.antt =====
-- The file system over the extent client over extents in a map.
use cse_2014_undergrad.Prelude.{
  ℕ, false, some, none, List, [], ◌∷◌, ◌≡◌, refl, arith, if◌then◌else◌, ◌==◌, update,
}
use cse_2014_undergrad.Extent.Client.{Cache, Rpc, ok, empty, zero_attr}
use cse_2014_undergrad.Extent.Client
use cse_2014_undergrad.Extent.Client.View
use cse_2014_undergrad.Extent.Client.View.{Coherent}
use cse_2014_undergrad.Fs.Below.{cached}
use cse_2014_undergrad.Fs.Cached.{Keeps, cached_laws}
use cse_2014_undergrad.Fs.Dir.{same}
use cse_2014_undergrad.Fs.Dir.Slots.{Slot, encode, IsDir}
use cse_2014_undergrad.Fs.Dir.Walks.{live}
use cse_2014_undergrad.Fs.Client.{done, Fs, find_name, lookup, t_file}
use cse_2014_undergrad.Fs.Names.{create}
use cse_2014_undergrad.Fs.Create.{new_slot}
use cse_2014_undergrad.Fs.Found.{create_lookup}

abbrev map_server : Rpc (ℕ → List ℕ)
map_server = record {
  create = λ s type. (ok, 7, s);
  get = λ s eid. (ok, s eid, s);
  getattr = λ s eid. (ok, record zero_attr { type = t_file }, s);
  put = λ s eid b. (ok, update s eid b);
  remove = λ s eid. (ok, update s eid []);
}

abbrev map_laws : View.Laws map_server
map_laws = record {
  content = λ s eid. s eid;
  get_ok = λ s eid. refl;
  get_value = λ s eid. refl;
  get_keeps = λ s eid j. refl;
  put_ok = λ s eid b. refl;
  put_value = λ s eid b j. refl;
}

map-Keeps : Keeps map_server map_laws
map-Keeps = record { create = λ t type j. refl; getattr = λ t i j. refl }

abbrev slots : List Slot
slots = new_slot 0 [] ∷ []

abbrev mounted : Fs (Cache × (ℕ → List ℕ))
mounted = record { held = λ i. false; ext = (empty, λ i. if i == 1 then encode slots else []) }

mounted-Coherent : Coherent map_server map_laws empty (λ i. if i == 1 then encode slots else [])
unfolding Coherent
mounted-Coherent = λ i. tt

slots-IsDir : IsDir slots
slots-IsDir = record { fits = omega arith; inums = (omega arith, tt) }

-- The cache gives the lock of the directory back when it is asked for it, so the new entry reaches the
-- server; the next `lookup` reads it from there.
create_cached :
    let b = cached map_server (λ i. i == 1) in
    (ino : ℕ) × (h : Fs (Cache × (ℕ → List ℕ))) × (create b mounted 1 (99 ∷ []) t_file
      ≡ some ((done, some ino), h))
    × ((other : List ℕ)
        → (h' : Fs (Cache × (ℕ → List ℕ))) × (lookup b h 1 other
            ≡ some (
              (
                done,
                elim (find_name other (live slots)) [
                  | some i ↦ some i
                  | none ↦ if same (99 ∷ []) other then some ino else none
                ],
              ),
              h',
            )))
unfolding find_name View.view Client.create
create_cached =
    create_lookup (cached map_server (λ i. i == 1))
      (cached_laws map_server map_laws map-Keeps (λ i. i == 1)) mounted 1 (99 ∷ []) t_file slots
      mounted-Coherent refl slots-IsDir (refl, tt) (omega arith) refl refl
      (λ x q e. (refl, omega arith, omega arith))
