-- ===== src/Extent/Client/Tests.antt =====
-- Runs of the extent client against a server that keeps extents in a map.
use cse_2014_undergrad.Prelude.{ℕ, some, List, [], ◌∷◌, ◌≡◌, refl, update}
use cse_2014_undergrad.Extent.Client.{ok, Cache, Rpc, put, get, flush, empty, zero_attr}
use cse_2014_undergrad.Extent.Client.Refine.{Op, reads, writes, gives_back, run}

-- A server with room for all contents
abbrev map_server : Rpc (ℕ → List ℕ)
map_server = record {
  create = λ s type. (ok, 7, s);
  get = λ s eid. (ok, s eid, s);
  getattr = λ s eid. (ok, record zero_attr { type = 2 }, s);
  put = λ s eid b. (ok, update s eid b);
  remove = λ s eid. (ok, update s eid []);
}

abbrev stored : ℕ → List ℕ
stored eid = eid ∷ []

-- Extent 3 has been written and not flushed.
abbrev written : Cache
written = put empty 3 (8 ∷ 9 ∷ [])

abbrev session : List Op
session = reads 3 ∷ writes 3 (1 ∷ []) ∷ reads 3 ∷ gives_back 3 ∷ reads 3 ∷ reads 4 ∷ []

session_reads :
    run map_server session written stored
    ≡ some ((8 ∷ 9 ∷ []) ∷ (1 ∷ []) ∷ (1 ∷ []) ∷ (4 ∷ []) ∷ [])
unfolding run get put flush
session_reads = refl
