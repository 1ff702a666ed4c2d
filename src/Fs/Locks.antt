-- ===== src/Fs/Locks.antt =====
-- Which locks the methods leave held: those that were held when they were called.
use cse_2014_undergrad.Prelude.{
  ℕ, Bool, true, not, Option, none, some, List, ◌≡◌, refl, ap, subst, ◌∙◌, arith, if◌then◌else◌,
  ◌==◌, ltb, length, suc, ◌>>=◌, verify, >>=-eq-some, some-inj, Bool-cases, inl, inr,
}
use cse_2014_undergrad.Fs.Below.{Below, Status-cases}
use cse_2014_undergrad.Fs.Dir.{Dirent, Entry, newdir, entries_of, room_from}
use cse_2014_undergrad.Fs.Content.{substr}
use cse_2014_undergrad.Fs.Client.{
  Result, done, no_ent, is_done, Fileinfo, Fs, lock, unlock, unlock_unless, leave, isfile, getfile,
  setattr, readdir, lookup, read, write, t_dir,
}
use cse_2014_undergrad.Fs.Names.{
  add_entry, create_entry, create_extent, create_found, create, unlink_looked, unlink,
}

module _ {S : Type 0} (b : Below S) where
  abbrev pub SameLocks : Fs S → Fs S → Type 0
  SameLocks f g = (j : ℕ) → f.held j ≡ g.held j

  -- What `leave` undoes is what `lock` did.
  lock-leave :
      {A : Type 0} (f g : Fs S) (i : ℕ) (a : A) (p : A × Fs S)
      → SameLocks g (lock b f i).1
      → leave b (lock b f i).0 g i a ≡ some p
      → SameLocks p.1 f
  unfolding lock leave unlock_unless unlock
  lock-leave f g i a p h e j = ground (arith, h j, h i)

  pub isfile-held : (f : Fs S) (i : ℕ) (p : Bool × Fs S) → isfile b f i ≡ some p → SameLocks p.1 f
  unfolding isfile
  isfile-held f i p e = lock-leave f _ i _ p (λ j. refl) e

  getfile-held :
      (f : Fs S) (i : ℕ) (p : (Result × Option Fileinfo) × Fs S)
      → getfile b f i ≡ some p
      → SameLocks p.1 f
  unfolding getfile
  getfile-held f i p e = lock-leave f _ i _ p (λ j. refl) e

  setattr-held :
      (f : Fs S) (i n : ℕ) (p : Result × Fs S) → setattr b f i n ≡ some p → SameLocks p.1 f
  unfolding setattr
  setattr-held f i n p e = elim (Status-cases (b.get (lock b f i).1.ext i).0) [
    | inl y ↦ lock-leave f _ i _ p (λ j. refl) (rw (y, setattr) at e)
    | inr y ↦ lock-leave f _ i _ p (λ j. refl) (rw (y, setattr) at e)
  ]

  pub write-held :
      (f : Fs S) (i off : ℕ) (v : List ℕ) (p : (Result × ℕ) × Fs S)
      → write b f i off v ≡ some p
      → SameLocks p.1 f
  unfolding write
  write-held f i off v p e = elim (Status-cases (b.get (lock b f i).1.ext i).0) [
    | inl y ↦ lock-leave f _ i _ p (λ j. refl) (rw (y, write) at e)
    | inr y ↦ lock-leave f _ i _ p (λ j. refl) (rw (y, write) at e)
  ]

  readdir-held :
      (f : Fs S) (i : ℕ) (p : (Result × List Dirent) × Fs S)
      → readdir b f i ≡ some p
      → SameLocks p.1 f
  unfolding readdir
  readdir-held f i p e = elim (Status-cases (b.get (lock b f i).1.ext i).0) [
    | inr y ↦ lock-leave f _ i _ p (λ j. refl) (rw (y, readdir) at e)
    | inl y ↦
        let g : Fs S = record (lock b f i).1 { ext = (b.get (lock b f i).1.ext i).2 } in
        let (q, k, e1) = >>=-eq-some (leave b (lock b f i).0 g i done) _ (rw (y, readdir) at e) in
        let (es, m, e2) = >>=-eq-some (entries_of (b.get (lock b f i).1.ext i).1) _ e1 in
        subst (λ (r : (Result × List Dirent) × Fs S). SameLocks r.1 f) (some-inj e2)
          (lock-leave f g i done q (λ j. refl) k)
  ]

  pub lookup-held :
      (f : Fs S) (i : ℕ) (name : List ℕ) (p : (Result × Option ℕ) × Fs S)
      → lookup b f i name ≡ some p
      → SameLocks p.1 f
  unfolding lookup
  lookup-held f i name p e =
      let (q, k, e1) = >>=-eq-some (readdir b f i) _ e in
      subst (λ (r : (Result × Option ℕ) × Fs S). SameLocks r.1 f) (some-inj e1)
        (readdir-held f i q k)

  read-held :
      (f : Fs S) (i size off : ℕ) (p : (Result × List ℕ) × Fs S)
      → read b f i size off ≡ some p
      → SameLocks p.1 f
  unfolding read
  read-held f i size off p e = elim (Status-cases (b.get (lock b f i).1.ext i).0) [
    | inr y ↦ lock-leave f _ i _ p (λ j. refl) (rw (y, read) at e)
    | inl y ↦
        let g : Fs S = record (lock b f i).1 { ext = (b.get (lock b f i).1.ext i).2 } in
        let (q, k, e1) = >>=-eq-some (leave b (lock b f i).0 g i done) _ (rw (y, read) at e) in
        let (v, m, e2) = >>=-eq-some (substr off size (b.get (lock b f i).1.ext i).1) _ e1 in
        subst (λ (r : (Result × List ℕ) × Fs S). SameLocks r.1 f) (some-inj e2)
          (lock-leave f g i done q (λ j. refl) k)
  ]

  add_entry-held :
      (f : Fs S) (parent : ℕ) (name : List ℕ) (ino : ℕ) (r : ℕ × Option Entry)
      (p : (Result × ℕ) × Fs S)
      → add_entry b f parent name ino r ≡ some p
      → SameLocks p.1 f
  unfolding add_entry
  add_entry-held f parent name ino (pos, none) p e = write-held f parent _ _ p e
  add_entry-held f parent name ino (pos, some t) p e =
      let (_, _, k) = >>=-eq-some (verify (not (ltb pos 4))) _ e in write-held f parent _ _ p k

  -- `create` goes on from `lock b f parent`: `g` is a later state with the same locks.
  create_entry-held :
      (f g : Fs S) (parent : ℕ) (name : List ℕ) (ino : ℕ) (p : (Result × Option ℕ) × Fs S)
      → SameLocks g (lock b f parent).1
      → create_entry b (lock b f parent).0 g parent name ino ≡ some p
      → SameLocks p.1 f
  unfolding create_entry
  create_entry-held f g parent name ino p h e = elim (Status-cases (b.get g.ext parent).0) [
    | inr y ↦ lock-leave f _ parent _ p h (rw (y, create_entry) at e)
    | inl y ↦
        let buf = (b.get g.ext parent).1 in
        let g' : Fs S = record g { ext = (b.get g.ext parent).2 } in
        let (r, m, e1) =
          >>=-eq-some (room_from (suc (length buf)) (length name) 0 buf (length buf)) _
            (rw (y, create_entry) at e) in
        let (w, n, e2) = >>=-eq-some (add_entry b g' parent name ino r) _ e1 in
        let k = add_entry-held g' parent name ino r w n in
        lock-leave f w.1 parent _ p (λ j. k j ∙ h j) e2
  ]

  create_extent-held :
      (f g : Fs S) (parent : ℕ) (name : List ℕ) (type : ℕ) (p : (Result × Option ℕ) × Fs S)
      → SameLocks g (lock b f parent).1
      → create_extent b (lock b f parent).0 g parent name type ≡ some p
      → SameLocks p.1 f
  unfolding create_extent
  create_extent-held f g parent name type p h e = elim (Status-cases (b.create g.ext type).0) [
    | inr y ↦ lock-leave f _ parent _ p h (rw (y, create_extent) at e)
    | inl y ↦ elim (Bool-cases (type == t_dir)) [
      | inr t ↦ create_entry-held f _ parent name _ p h (rw (y, t, create_extent) at e)
      | inl t ↦
          let (st, s) = b.put (b.create g.ext type).2 (b.create g.ext type).1 newdir in
          elim (Status-cases st) [
            | inr u ↦ lock-leave f _ parent _ p h (rw (y, t, u, create_extent) at e)
            | inl u ↦ create_entry-held f _ parent name _ p h (rw (y, t, u, create_extent) at e)
          ]
    ]
  ]

  create_found-held :
      (f : Fs S) (parent : ℕ) (name : List ℕ) (type : ℕ) (q p : (Result × Option ℕ) × Fs S)
      → SameLocks q.1 (lock b f parent).1
      → create_found b (lock b f parent).0 parent name type q ≡ some p
      → SameLocks p.1 f
  unfolding create_found
  create_found-held f parent name type ((done, some ino), g) p h e = lock-leave f g parent _ p h e
  create_found-held f parent name type ((done, none), g) p h e =
      create_extent-held f g parent name type p h e
  create_found-held f parent name type ((_, found), g) p h e = lock-leave f g parent _ p h e

  -- Whatever `create` returns, an error too, it leaves the locks held that were held when it was called.
  pub create-held :
      (f : Fs S) (parent : ℕ) (name : List ℕ) (type : ℕ) (p : (Result × Option ℕ) × Fs S) (j : ℕ)
      → create b f parent name type ≡ some p
      → Fs.held p.1 j ≡ f.held j
  unfolding create
  create-held f parent name type p j e =
      let f1 = (lock b f parent).1 in
      let (q, k, e1) = >>=-eq-some (lookup b f1 parent name) _ e in
      create_found-held f parent name type q p (lookup-held f1 parent name q k) e1 j

  lock-holds : (f : Fs S) (i : ℕ) → Fs.held (lock b f i).1 i ≡ true
  unfolding lock
  lock-holds f i = ground arith

  looked :
      (lr : Bool) (parent : ℕ) (name : List ℕ) (r : Result) (g : Fs S)
      → unlink_looked b lr parent name ((r, none), g) ≡ some ((if is_done r then no_ent else r), g)
  unfolding unlink_looked
  looked lr parent name done g = refl
  looked lr parent name _ g = refl

  -- Where it finds no such name, or the directory cannot be read, `unlink` returns with the lock of the
  -- directory held, also if it was not held before.
  pub unlink_leaks :
      (f g : Fs S) (parent : ℕ) (name : List ℕ) (r : Result)
      → lookup b (lock b f parent).1 parent name ≡ some ((r, none), g)
      → (unlink b f parent name ≡ some ((if is_done r then no_ent else r), g))
        × (g.held parent ≡ true)
  unfolding unlink
  unlink_leaks f g parent name r e = (
    ap (λ m. m >>= λ q. unlink_looked b (lock b f parent).0 parent name q) e
        ∙ looked (lock b f parent).0 parent name r g,
    lookup-held (lock b f parent).1 parent name ((r, none), g) e parent ∙ lock-holds f parent,
  )
