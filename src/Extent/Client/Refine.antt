-- ===== src/Extent/Client/Refine.antt =====
-- The cached extents behave as plain extents, over a server that has room for all contents.
use cse_2014_undergrad.Prelude.{
  ℕ, Option, none, some, List, [], ◌∷◌, ◌≡◌, refl, subst, fun_ext, arith, update, ◌>>=◌,
}
use cse_2014_undergrad.Extent.Client.{Status, ok, failed, Cache, Rpc, put, get, flush}
use cse_2014_undergrad.Extent.Client.View.{Laws, view, Coherent, get-view, put-view, flush-view}

-- What the holder of the locks does: it reads and writes extents, and gives locks back.
pub data Op : Type 0 where
  reads : ℕ → Op
  writes : ℕ → List ℕ → Op
  gives_back : ℕ → Op

-- What the reads give on extents without a cache.
unfoldable pub run_plain : (ℕ → List ℕ) → List Op → List (List ℕ)
run_plain f [] = []
run_plain f (reads eid ∷ ops) = f eid ∷ run_plain f ops
run_plain f (writes eid b ∷ ops) = run_plain (update f eid b) ops
run_plain f (gives_back eid ∷ ops) = run_plain f ops

module _ {S : Type 0} (cl : Rpc S) where
  -- What the reads give through the cache; `none` if an assertion fails or a read does not say OK.
  answer : Status → List ℕ → Option (List (List ℕ)) → Option (List (List ℕ))
  answer ok b rest = rest >>= λ bs. some (b ∷ bs)
  answer failed b rest = none

  unfoldable pub run : List Op → Cache → S → Option (List (List ℕ))
  unfolding answer
  run [] c s = some []
  run (reads eid ∷ ops) c s = let (st, b, c', s') = get cl c s eid in answer st b (run ops c' s')
  run (writes eid b ∷ ops) c s = run ops (put c eid b) s
  run (gives_back eid ∷ ops) c s = flush cl c s eid >>= λ p. run ops p.0 p.1

  module _ (w : Laws cl) where
    -- Whatever the holder of the locks reads, writes and flushes, in any order, it reads what it would
    -- read from plain extents, which start with what the cache shows, and no assertion fails; if the
    -- server keeps its laws and the cache is coherent at the start.
    pub run_lem :
        (ops : List Op) (c : Cache) (s : S)
        → Coherent cl w c s
        → run ops c s ≡ some (run_plain (view cl w c s) ops)
    unfolding run run_plain
    run_lem [] c s h = refl
    run_lem (reads eid ∷ ops) c s h =
        let g = get-view cl w c s eid h in
        let c' = (get cl c s eid).2 in
        let s' = (get cl c s eid).3 in
        let rest : run ops c' s' ≡ some (run_plain (view cl w c s) ops) =
          subst (λ f. run ops c' s' ≡ some (run_plain f ops)) (fun_ext g.2)
            (run_lem ops c' s' g.3) in
        ground (arith, g.0, g.1, rest)
    run_lem (writes eid b ∷ ops) c s h =
        let g = put-view cl w c s eid b h in
        subst (λ f. run ops (put c eid b) s ≡ some (run_plain f ops)) (fun_ext g.0)
          (run_lem ops (put c eid b) s g.1)
    run_lem (gives_back eid ∷ ops) c s h =
        let (d, t, e, same, _, _, k) = flush-view cl w c s eid h in
        rw e (subst (λ f. run ops d t ≡ some (run_plain f ops)) (fun_ext same) (run_lem ops d t k))
