-- ===== src/Rpc/Marshall/Codec.antt =====
-- What a pair of operators promises: writing appends, and reading gets the value back.
use cse_2014_undergrad.Prelude.{ℕ, ◌^◌, ◌<◌, ◌≤◌, Bool, true, ◌≡◌, refl, ◌∙◌, arith}
use cse_2014_undergrad.Rpc.Marshall.{Marshall, Unmarshall}

-- Writing appends: it leaves what is there.
pub record Appends (m m' : Marshall) : Type 0 where
  pub grows : m.ind ≤ m'.ind
  pub keeps : (i : ℕ) → i < m.ind → m'.buf i ≡ m.buf i

-- The reader stands where the writer stood, and has before it what was written.
pub record Faces (u : Unmarshall) (m m' : Marshall) : Type 0 where
  pub fine : u.ok ≡ true
  pub at : u.ind ≡ m.ind
  pub room : m'.ind ≤ u.sz
  pub fits : u.sz < 2 ^ 32
  pub same : (i : ℕ) → m.ind ≤ i → i < m'.ind → u.buf i ≡ m'.buf i

-- The operators `<<` and `>>` of a type, and the values that they carry over.
pub record Codec (A : Type 0) : Type 0 where
  pub put : Marshall → A → Marshall
  pub get : Unmarshall → A × Unmarshall
  pub valid : A → Bool
  pub appends : (m : Marshall) (a : A) → Appends m (put m a)
  -- Reading what was written gives the value, and moves on behind it.
  pub back :
      (m : Marshall) (u : Unmarshall) (a : A)
      → valid a ≡ true
      → Faces u m (put m a)
      → get u ≡ (a, record u { ind = Marshall.ind (put m a) })

pub Appends-trans : {a b c : Marshall} → Appends a b → Appends b c → Appends a c
Appends-trans {a} {b} {c} p q = record {
  grows = omega (arith, p.grows, q.grows);
  keeps = λ i h. q.keeps i (omega (arith, p.grows)) ∙ p.keeps i h;
}

-- What faces two writings faces the first, and once it has read that, the second.
pub Faces-left :
    {u : Unmarshall} {a b c : Marshall} → Appends a b → Appends b c → Faces u a c → Faces u a b
Faces-left p q f = record {
  fine = f.fine;
  at = f.at;
  room = omega (arith, q.grows, f.room);
  fits = f.fits;
  same = λ i l h. f.same i l (omega (arith, q.grows)) ∙ q.keeps i h;
}

pub Faces-right :
    {u : Unmarshall} {a b c : Marshall}
    → Appends a b
    → Appends b c
    → Faces u a c
    → Faces (record u { ind = b.ind }) b c
Faces-right p q f = record {
  fine = f.fine;
  at = refl;
  room = f.room;
  fits = f.fits;
  same = λ i l h. f.same i (omega (arith, p.grows)) h;
}
