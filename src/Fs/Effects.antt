-- ===== src/Fs/Effects.antt =====
-- What the methods do to the contents of the extents.
use cse_2014_undergrad.Prelude.{
  ℕ, Bool, true, false, some, List, ◌≡◌, refl, ap, ◌∙◌, arith, if◌then◌else◌, ◌==◌, length,
  Bool-cases, inl, inr, update,
}
use cse_2014_undergrad.Fs.Below.{Below, Laws}
use cse_2014_undergrad.Fs.Dir.{entries_of}
use cse_2014_undergrad.Fs.Dir.Slots.{Slot, encode, IsDir}
use cse_2014_undergrad.Fs.Dir.Walks.{live, entries_of-encode}
use cse_2014_undergrad.Fs.Content.{overwrite, count_written}
use cse_2014_undergrad.Fs.Client.{
  Result, done, Fs, lock, unlock, unlock_unless, leave, readdir, lookup, write, find_name,
}

module _ {S : Type 0} (b : Below S) (w : Laws b) where
  abbrev pub content : Fs S → ℕ → List ℕ
  content f j = w.content f.ext j

  abbrev pub Good : Fs S → Type 0
  Good f = w.Good f.ext

  pub lock-Good : (f : Fs S) (i : ℕ) → Good f → Good (lock b f i).1
  unfolding lock
  lock-Good f i g = elim (Bool-cases (f.held i)) [
    | inl y ↦ rw y g
    | inr y ↦ rw y (w.acquire_good f.ext i g)
  ]

  pub lock-content : (f : Fs S) (i j : ℕ) → Good f → content (lock b f i).1 j ≡ content f j
  unfolding lock
  lock-content f i j g = elim (Bool-cases (f.held i)) [
    | inl y ↦ rw y refl
    | inr y ↦ rw y (w.acquire_keeps f.ext i j g)
  ]

  -- A method that has locked `i` and still holds it can leave.
  pub leave_lem :
      {A : Type 0} (f g : Fs S) (i : ℕ) (a : A)
      → Good g
      → g.held i ≡ (lock b f i).1.held i
      → (h : Fs S) × (leave b (lock b f i).0 g i a ≡ some (a, h))
        × Good h
        × ((j : ℕ) → content h j ≡ content g j)
  unfolding leave unlock_unless unlock lock
  leave_lem f g i a k e = elim (Bool-cases (f.held i)) [
    | inl y ↦ (g, rw y refl, k, λ j. refl)
    | inr y ↦
        let (t, r, l, c) = w.release_some g.ext i k in
        let here : g.held i ≡ true = ground (arith, e, y) in
        (record { held = update g.held i false; ext = t }, rw (y, here, r) refl, l, c)
  ]

  -- `write` on a good state succeeds, changes the one extent as `overwrite` says and no other, and
  -- reports `count_written`.
  pub write_lem :
      (f : Fs S) (i off : ℕ) (v : List ℕ)
      → Good f
      → (h : Fs S) × (write b f i off v
          ≡ some ((done, count_written off (length v) (length (content f i))), h))
        × Good h
        × ((j : ℕ) → content h j ≡ (if i == j then overwrite off v (content f i) else content f j))
  unfolding write
  write_lem f i off v g =
      let f1 = (lock b f i).1 in
      let good = lock-Good f i g in
      let y = w.get_ok f1.ext i good in
      let buf = (b.get f1.ext i).1 in
      let s = (b.get f1.ext i).2 in
      let same_buf : buf ≡ content f i = w.get_value f1.ext i good ∙ lock-content f i i g in
      let got = w.get_good f1.ext i good in
      let u = w.put_ok s i (overwrite off v buf) got in
      let f2 : Fs S = record f1 { ext = (b.put s i (overwrite off v buf)).1 } in
      let (h, r, gd, c) =
        leave_lem {A = Result × ℕ} f f2 i (done, count_written off (length v) (length buf))
          (w.put_good s i _ got) refl in
      (
        h,
        rw (y, u, write)
            (r ∙ ap (λ l. some ((done, count_written off (length v) (length l)), h)) same_buf),
        gd,
        λ j.
            c j
            ∙ w.put_value s i _ j got
            ∙ both (i == j) (ap (λ l. overwrite off v l) same_buf)
                (w.get_keeps f1.ext i j good ∙ lock-content f i j g),
      )
    where
      both :
          (t : Bool) {x y u v : List ℕ}
          → x ≡ y
          → u ≡ v
          → (if t then x else u) ≡ (if t then y else v)
      both true e k = e
      both false e k = k

  -- `readdir` on a good state whose directory is in order lists its live entries.
  pub readdir_lem :
      (f : Fs S) (dir : ℕ) (ss : List Slot)
      → Good f
      → IsDir ss
      → content f dir ≡ encode ss
      → (h : Fs S) × (readdir b f dir ≡ some ((done, live ss), h))
        × Good h
        × ((j : ℕ) → content h j ≡ content f j)
  unfolding readdir
  readdir_lem f dir ss g v e =
      let f1 = (lock b f dir).1 in
      let good = lock-Good f dir g in
      let y = w.get_ok f1.ext dir good in
      let got = w.get_good f1.ext dir good in
      let f2 : Fs S = record f1 { ext = (b.get f1.ext dir).2 } in
      let (h, r, gd, c) = leave_lem f f2 dir done got refl in
      let es : entries_of (b.get f1.ext dir).1 ≡ some (live ss) =
        ap entries_of (w.get_value f1.ext dir good ∙ lock-content f dir dir g ∙ e)
        ∙ entries_of-encode ss v in
      (
        h,
        rw (y, r, es, readdir) refl,
        gd,
        λ j. c j ∙ w.get_keeps f1.ext dir j good ∙ lock-content f dir j g,
      )

  pub lookup_lem :
      (f : Fs S) (parent : ℕ) (name : List ℕ) (ss : List Slot)
      → Good f
      → IsDir ss
      → content f parent ≡ encode ss
      → (h : Fs S) × (lookup b f parent name ≡ some ((done, find_name name (live ss)), h))
        × Good h
        × ((j : ℕ) → content h j ≡ content f j)
  unfolding lookup
  lookup_lem f parent name ss g v e =
      let (h, r, gd, c) = readdir_lem f parent ss g v e in (h, rw (r, lookup) refl, gd, c)
