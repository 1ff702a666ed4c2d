-- ===== src/Rpc/Marshall/Maps.antt =====
-- The templates for `std::map` of rpc/marshall.h, for keys that are numbers: a map is its entries in the order of
-- their keys.
use cse_2014_undergrad.Prelude.{
  ℕ, suc, zero, ◌<◌, true, ◌≡◌, refl, sym, ap, ◌∙◌, arith, ltb, ◌==◌, if◌then◌else◌, List, [], ◌∷◌,
  ◌++◌, append_assoc, All, append-nil,
}
use cse_2014_undergrad.Rpc.Marshall.{Marshall, Unmarshall, get_u32}
use cse_2014_undergrad.Rpc.Marshall.Codec.{Codec, Faces}
use cse_2014_undergrad.Rpc.Marshall.Vectors.{
  put_vector, get_vector, get_each, valid_vector, vector-back, get_pair, pair_codec,
}

module _ {B : Type 0} where
  -- `d[a] = b`
  unfoldable pub assign : ℕ → B → List (ℕ × B) → List (ℕ × B)
  assign a b [] = (a, b) ∷ []
  assign a b ((k, v) ∷ d) =
      let rest = assign a b d in
      if ltb k a then (k, v) ∷ rest else if k == a then (a, b) ∷ d else (a, b) ∷ (k, v) ∷ d

  -- The keys of a map ascend.
  abbrev pub IsMap : List (ℕ × B) → Type 0
  IsMap [] = Unit
  IsMap ((k, v) ∷ d) = All (λ e. k < e.0) d × IsMap d

  assign_last :
      (a : ℕ) (b : B) (d : List (ℕ × B)) → All (λ e. e.0 < a) d → assign a b d ≡ d ++ ((a, b) ∷ [])
  unfolding assign
  assign_last a b [] h = refl
  assign_last a b ((k, v) ∷ d) (h, hs) =
      let y : ltb k a ≡ true = ground arith in rw y (ap (λ l. (k, v) ∷ l) (assign_last a b d hs))

  unfoldable assign_all : List (ℕ × B) → List (ℕ × B) → List (ℕ × B)
  unfolding assign
  assign_all d [] = d
  assign_all d ((a, b) ∷ es) = assign_all (assign a b d) es

  assign_all_last :
      (a : ℕ) (b : B) (d es : List (ℕ × B))
      → assign a b (assign_all d es) ≡ assign_all d (es ++ ((a, b) ∷ []))
  unfolding assign_all
  assign_all_last a b d [] = refl
  assign_all_last a b d ((x, y) ∷ es) = assign_all_last a b (assign x y d) es

module _ {B : Type 0} ⦃c : Codec ℕ⦄ ⦃e : Codec B⦄ where
  abbrev pub entry_codec : Codec (ℕ × B)
  entry_codec = pair_codec

  -- `operator<<`: the size, and each entry as two values
  unfoldable pub put_map : Marshall → List (ℕ × B) → Marshall
  put_map m d = put_vector ⦃c = entry_codec⦄ m d

  -- The loop of `operator>>`, for the entries that are still to come
  unfoldable pub get_entries : ℕ → List (ℕ × B) → Unmarshall → List (ℕ × B) × Unmarshall
  unfolding assign
  get_entries zero d u = (d, u)
  get_entries (suc n) d u = let ((a, b), u') = get_pair u in get_entries n (assign a b d) u'

  unfoldable pub get_map : Unmarshall → List (ℕ × B) × Unmarshall
  unfolding get_entries
  get_map u = let (n, u') = get_u32 u in get_entries n [] u'

  get_entries_lem :
      (n : ℕ) (d es : List (ℕ × B)) (u : Unmarshall)
      → get_entries n (assign_all d es) u ≡ (
        assign_all d (get_each ⦃c = entry_codec⦄ n es u).0,
        (get_each ⦃c = entry_codec⦄ n es u).1,
      )
  unfolding get_entries get_each
  get_entries_lem zero d es u = refl
  get_entries_lem (suc n) d es u =
      let ((a, b), u') = get_pair u in
      ap (λ x. get_entries n x u') (assign_all_last a b d es)
      ∙ get_entries_lem n d (es ++ ((a, b) ∷ [])) u'

  get_map_lem :
      (u : Unmarshall)
      → get_map u ≡ (
        assign_all [] (get_vector ⦃c = entry_codec⦄ [] u).0,
        (get_vector ⦃c = entry_codec⦄ [] u).1,
      )
  unfolding get_map get_vector assign_all
  get_map_lem u = let (n, u') = get_u32 u in get_entries_lem n [] [] u'

module _ {B : Type 0} where
  All-snoc :
      (k a : ℕ) (b : B) (d : List (ℕ × B))
      → a < k
      → All (λ x. x.0 < k) d
      → All (λ x. x.0 < k) (d ++ ((a, b) ∷ []))
  All-snoc k a b [] l h = (l, tt)
  All-snoc k a b (x ∷ d) l (h, hs) = (h, All-snoc k a b d l hs)

  -- Behind what is there, entries in the order of their keys are put as they come.
  assign_all_lem :
      (d es : List (ℕ × B))
      → IsMap es
      → All (λ x. All (λ y. y.0 < x.0) d) es
      → assign_all d es ≡ d ++ es
  unfolding assign_all
  assign_all_lem d [] m h = sym (append-nil d)
  assign_all_lem d ((a, b) ∷ es) (l, m) (h, hs) =
      ap (λ d'. assign_all d' es) (assign_last a b d h)
      ∙ assign_all_lem (d ++ ((a, b) ∷ [])) es m (later es l hs)
      ∙ append_assoc d ((a, b) ∷ []) es
    where
      later :
          (es : List (ℕ × B))
          → All (λ x. a < x.0) es
          → All (λ x. All (λ y. y.0 < x.0) d) es
          → All (λ x. All (λ y. y.0 < x.0) (d ++ ((a, b) ∷ []))) es
      later [] l h = tt
      later (x ∷ es) (l, ls) (h, hs) = (All-snoc x.0 a b d l h, later es ls hs)

  All-nil : (es : List (ℕ × B)) → All (λ x. All (λ (y : ℕ × B). y.0 < x.0) []) es
  All-nil [] = tt
  All-nil (x ∷ es) = (tt, All-nil es)

module _ {B : Type 0} ⦃c : Codec ℕ⦄ ⦃e : Codec B⦄ where
  -- A map comes back: reading where `operator<<` wrote it gives the same entries, for keys that are numbers and
  -- values that come back, if its keys ascend, as in every `std::map`, each key and value is of its type and
  -- there are fewer than 2 ^ 32 entries.
  pub map-back :
      (m : Marshall) (u : Unmarshall) (d : List (ℕ × B))
      → valid_vector ⦃c = entry_codec⦄ d ≡ true
      → IsMap d
      → Faces u m (put_map m d)
      → get_map u ≡ (d, record u { ind = Marshall.ind (put_map m d) })
  unfolding put_map
  map-back m u d h o f =
      let back = vector-back ⦃c = entry_codec⦄ [] m u d h f in
      get_map_lem u
      ∙ ap (λ p. (assign_all [] p.0, p.1)) back
      ∙ ap (λ l. (l, record u { ind = Marshall.ind (put_map m d) }))
          (assign_all_lem [] d o (All-nil d))
