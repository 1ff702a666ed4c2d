-- ===== src/Rpc/Marshall/Vectors.antt =====
-- The templates for containers: `operator<<` and `operator>>` of `std::vector<C>`, over those of `C`.
use cse_2014_undergrad.Prelude.{
  ℕ, suc, zero, ◌^◌, Bool, true, ◌&&◌, ◌≡◌, refl, ap, ◌∙◌, arith, ltb, List, [], ◌∷◌, ◌++◌, length,
  append-nil, append_assoc,
}
use cse_2014_undergrad.Rpc.Marshall.{Marshall, Unmarshall, put_u32, get_u32}
use cse_2014_undergrad.Rpc.Marshall.Codec.{
  Codec, Appends, Appends-trans, Faces, Faces-left, Faces-right,
}
use cse_2014_undergrad.Rpc.Marshall.Words.{put_u32-Appends, u32-back}

module _ {A : Type 0} ⦃c : Codec A⦄ where
  -- The loop of `operator<<`
  unfoldable pub put_each : Marshall → List A → Marshall
  put_each m [] = m
  put_each m (x ∷ xs) = put_each (c.put m x) xs

  unfoldable pub put_vector : Marshall → List A → Marshall
  unfolding put_each
  put_vector m v = put_each (put_u32 m (length v)) v

  -- The loop of `operator>>`, for the elements that are still to come: `v.push_back(z)`
  unfoldable pub get_each : ℕ → List A → Unmarshall → List A × Unmarshall
  get_each zero v u = (v, u)
  get_each (suc n) v u = let (z, u') = c.get u in get_each n (v ++ (z ∷ [])) u'

  -- The target is not cleared.
  unfoldable pub get_vector : List A → Unmarshall → List A × Unmarshall
  unfolding get_each
  get_vector v u = let (n, u') = get_u32 u in get_each n v u'

  all_valid : List A → Bool
  all_valid [] = true
  all_valid (x ∷ xs) = c.valid x && all_valid xs

  unfoldable pub valid_vector : List A → Bool
  unfolding all_valid
  valid_vector v = ltb (length v) (2 ^ 32) && all_valid v

  put_each-Appends : (m : Marshall) (v : List A) → Appends m (put_each m v)
  unfolding put_each
  put_each-Appends m [] = record { grows = omega arith; keeps = λ i h. refl }
  put_each-Appends m (x ∷ xs) = Appends-trans (c.appends m x) (put_each-Appends (c.put m x) xs)

  get_each-back :
      (old v : List A) (m : Marshall) (u : Unmarshall)
      → all_valid v ≡ true
      → Faces u m (put_each m v)
      → get_each (length v) old u ≡ (old ++ v, record u { ind = Marshall.ind (put_each m v) })
  unfolding put_each get_each all_valid
  get_each-back old [] m u h f = rw (append-nil old, ← f.at)
  get_each-back old (x ∷ xs) m u h f =
      let s1 = c.appends m x in
      let s2 = put_each-Appends (c.put m x) xs in
      let rest =
        get_each-back (old ++ (x ∷ [])) xs (c.put m x) _ (ground arith) (Faces-right s1 s2 f) in
      ap (λ p. get_each (length xs) (old ++ (p.0 ∷ [])) p.1)
        (c.back m u x (ground arith) (Faces-left s1 s2 f))
      ∙ rest
      ∙ ap (λ l. (l, record u { ind = Marshall.ind (put_each m (x ∷ xs)) }))
          (append_assoc old (x ∷ []) xs)

  pub put_vector-Appends : (m : Marshall) (v : List A) → Appends m (put_vector m v)
  unfolding put_vector
  put_vector-Appends m v = Appends-trans (put_u32-Appends m _) (put_each-Appends _ v)

  -- A vector comes back behind what the target holds: reading where `operator<<` wrote it appends its
  -- elements in order to those of the target, which `operator>>` does not clear, and leaves the reader
  -- behind them, for any element type that comes back, if each element is of its type and there are
  -- fewer than 2 ^ 32.
  pub vector-back :
      (old : List A) (m : Marshall) (u : Unmarshall) (v : List A)
      → valid_vector v ≡ true
      → Faces u m (put_vector m v)
      → get_vector old u ≡ (old ++ v, record u { ind = Marshall.ind (put_vector m v) })
  unfolding put_vector get_vector valid_vector
  vector-back old m u v h f =
      let s1 = put_u32-Appends m (length v) in
      let s2 = put_each-Appends (put_u32 m (length v)) v in
      rw (u32-back m u (length v) (ground arith) (Faces-left s1 s2 f))
        (get_each-back old v (put_u32 m (length v)) _ (ground arith) (Faces-right s1 s2 f))

  -- A vector in a vector: the inner target is new.
  abbrev pub vector_codec : Codec (List A)
  vector_codec = record {
    put = put_vector;
    get = get_vector [];
    valid = valid_vector;
    appends = put_vector-Appends;
    back = vector-back [];
  }

-- Two values one after the other, as the calls of the RPC templates chain their operators.
module _ {A B : Type 0} ⦃c : Codec A⦄ ⦃d : Codec B⦄ where
  unfoldable pub put_pair : Marshall → A × B → Marshall
  put_pair m (a, b) = d.put (c.put m a) b

  pub get_pair : Unmarshall → (A × B) × Unmarshall
  get_pair u = let (a, u') = c.get u in let (b, u'') = d.get u' in ((a, b), u'')

  pub put_pair-Appends : (m : Marshall) (p : A × B) → Appends m (put_pair m p)
  unfolding put_pair
  put_pair-Appends m (a, b) = Appends-trans (c.appends m a) (d.appends _ b)

  pub pair-back :
      (m : Marshall) (u : Unmarshall) (p : A × B)
      → (c.valid p.0 && d.valid p.1) ≡ true
      → Faces u m (put_pair m p)
      → get_pair u ≡ (p, record u { ind = Marshall.ind (put_pair m p) })
  unfolding put_pair get_pair
  pair-back m u (a, b) h f =
      let s1 = c.appends m a in
      let s2 = d.appends (c.put m a) b in
      rw (
        c.back m u a (ground arith) (Faces-left s1 s2 f),
        d.back (c.put m a) _ b (ground arith) (Faces-right s1 s2 f),
      )

  abbrev pub pair_codec : Codec (A × B)
  pair_codec = record {
    put = put_pair;
    get = get_pair;
    valid = λ p. c.valid p.0 && d.valid p.1;
    appends = put_pair-Appends;
    back = pair-back;
  }
