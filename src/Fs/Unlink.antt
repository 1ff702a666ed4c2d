-- ===== src/Fs/Unlink.antt =====
-- `unlink` of a file: its name is gone from the directory, and the locks are given back.
use cse_2014_undergrad.Prelude.{
  ℕ, suc, ◌+◌, true, false, not, some, List, [], ◌∷◌, ◌++◌, ◌≡◌, ◌≢◌, refl, sym, ap, ◌∙◌, arith,
  if◌then◌else◌, ◌==◌, ==-refl, length, All, length-append, Bool-cases, inl, inr, update, ◌>>=◌,
}
use cse_2014_undergrad.Extent.Client.{ok}
use cse_2014_undergrad.Fs.Below.{Below, Laws}
use cse_2014_undergrad.Fs.Dir.{filldir, name_from}
use cse_2014_undergrad.Fs.Dir.Slots.{Slot, stride, encode, IsDir}
use cse_2014_undergrad.Fs.Dir.Walks.{live, is_named, name_from-encode, length-slots}
use cse_2014_undergrad.Fs.Content.{overwrite}
use cse_2014_undergrad.Fs.Client.{
  done, Fs, lock, unlock, unlock_unless, isfile, isdir, lookup, find_name, t_file,
}
use cse_2014_undergrad.Fs.Names.{unlink_entry, unlink_file, unlink_found, unlink_looked, unlink}
use cse_2014_undergrad.Fs.Locks.{write-held, lookup-held, isfile-held, SameLocks}
use cse_2014_undergrad.Fs.Effects.{
  content, Good, lock-Good, lock-content, leave_lem, write_lem, lookup_lem,
}
use cse_2014_undergrad.Fs.Removal.{freed, overwrite-freed, IsDir-freed, live-freed, find_name-here}

module _ {S : Type 0} (b : Below S) (w : Laws b) where
  lock-other : (f : Fs S) (i j : ℕ) → i ≢ j → Fs.held (lock b f i).1 j ≡ f.held j
  unfolding lock
  lock-other f i j n = ground arith

  unlock_lem :
      (f g : Fs S) (i : ℕ)
      → Good b w g
      → g.held i ≡ (lock b f i).1.held i
      → (h : Fs S) × (unlock_unless b (lock b f i).0 g i ≡ some h)
        × Good b w h
        × ((j : ℕ) → content b w h j ≡ content b w g j)
        × ((j : ℕ) → i ≢ j → h.held j ≡ g.held j)
  unfolding unlock_unless unlock lock
  unlock_lem f g i k e = elim (Bool-cases (f.held i)) [
    | inl y ↦ (g, rw y refl, k, λ j. refl, λ j n. refl)
    | inr y ↦
        let (t, r, l, c) = w.release_some g.ext i k in
        let here : g.held i ≡ true = ground (arith, e, y) in
        (
          record { held = update g.held i false; ext = t },
          rw (y, here, r) refl,
          l,
          c,
          λ j n. ground arith,
        )
  ]

  -- `isdir` of a file
  isdir_lem :
      (f : Fs S) (i : ℕ)
      → Good b w f
      → ((t : S)
          → w.Good t
          → ((b.getattr t i).0 ≡ ok) × (((b.getattr t i).1.type == t_file) ≡ true))
      → (h : Fs S) × (isdir b f i ≡ some (false, h))
        × Good b w h
        × ((j : ℕ) → content b w h j ≡ content b w f j)
        × SameLocks b h f
  unfolding isdir isfile
  isdir_lem f i g file =
      let f1 = (lock b f i).1 in
      let good = lock-Good b w f i g in
      let (y, t) = file f1.ext good in
      let f2 : Fs S = record f1 { ext = (b.getattr f1.ext i).2 } in
      let (h, r, gd, c) = leave_lem b w f f2 i true (w.getattr_good f1.ext i good) refl in
      let e : isfile b f i ≡ some (true, h) = rw (y, t, isfile) r in
      (
        h,
        ap (λ m. m >>= λ p. some (not p.0, p.1)) e,
        gd,
        λ j. c j ∙ w.getattr_keeps f1.ext i j good ∙ lock-content b w f i j g,
        isfile-held b f i (true, h) e,
      )

  -- The last part of `unlink`, from a state `g` with the locks of the parent, which `f` had not, and of
  -- the file, which `q` had not.
  unlink_entry_lem :
      (f q g : Fs S) (parent ino : ℕ) (before : List Slot) (s : Slot) (after : List Slot)
      → Good b w g
      → SameLocks b q (lock b f parent).1
      → SameLocks b g (lock b q ino).1
      → parent ≢ ino
      → content b w g parent ≡ encode (before ++ (s ∷ after))
      → ((t : S)
          → w.Good t
          → ((b.remove t ino).0 ≡ ok)
            × w.Good (b.remove t ino).1
            × ((j : ℕ) → ino ≢ j → w.content (b.remove t ino).1 j ≡ w.content t j))
      → (h : Fs S) × (unlink_entry b
            (lock b f parent).0
            (lock b q ino).0
            g
            parent
            ino
            (some (0 + length (encode before), stride s))
          ≡ some (done, h))
        × Good b w h
        × ((j : ℕ)
            → ino ≢ j
            → content b w h j
              ≡ (if parent == j then encode (before ++ (freed s ∷ after)) else content b w g j))
  unfolding unlink_entry
  unlink_entry_lem f q g parent ino before s after k hq hg n e gone =
      let n' : ino ≢ parent = λ r. n (sym r) in
      let pos = 0 + length (encode before) in
      let line = filldir 0 (stride s) [] 0 in
      let (h1, r1, k1, c1) = write_lem b w g parent pos line k in
      let l1 = write-held b g parent pos line _ r1 in
      let at_parent : h1.held parent ≡ (lock b f parent).1.held parent =
        l1 parent ∙ hg parent ∙ lock-other q ino parent n' ∙ hq parent in
      let (h2, r2, k2, c2, l2) = unlock_lem f h1 parent k1 at_parent in
      let (y, k3, c3) = gone h2.ext k2 in
      let h3 : Fs S = record h2 { ext = (b.remove h2.ext ino).1 } in
      let at_file : h3.held ino ≡ (lock b q ino).1.held ino = l2 ino n ∙ l1 ino ∙ hg ino in
      let (h, r, k4, c4) = leave_lem b w q h3 ino done k3 at_file in
      let put : overwrite pos line (content b w g parent) ≡ encode (before ++ (freed s ∷ after)) =
        ap (λ l. overwrite pos line l) e ∙ overwrite-freed before s after in
      (
        h,
        rw (r1, r2, y, unlink_entry) r,
        k4,
        λ j m.
            c4 j ∙ c3 j m ∙ c2 j ∙ c1 j ∙ ap (λ x. if parent == j then x else content b w g j) put,
      )

  -- `unlink` on a good state, of a name whose first live entry in a directory in order is that of a
  -- file, not the directory itself, which the extent client takes for a file and can remove: it
  -- succeeds, the slot of the entry becomes free, and besides the file's own no other extent is
  -- changed. A later `lookup` finds what the other entries have.
  pub unlink_lem :
      (f : Fs S) (parent : ℕ) (name : List ℕ) (before : List Slot) (s : Slot) (after : List Slot)
      → Good b w f
      → content b w f parent ≡ encode (before ++ (s ∷ after))
      → IsDir (before ++ (s ∷ after))
      → All (λ t. is_named name t ≡ false) before
      → is_named name s ≡ true
      → parent ≢ s.inum
      → ((t : S)
          → w.Good t
          → ((b.getattr t s.inum).0 ≡ ok) × (((b.getattr t s.inum).1.type == t_file) ≡ true))
      → ((t : S)
          → w.Good t
          → ((b.remove t s.inum).0 ≡ ok)
            × w.Good (b.remove t s.inum).1
            × ((j : ℕ) → s.inum ≢ j → w.content (b.remove t s.inum).1 j ≡ w.content t j))
      → (h : Fs S) × (unlink b f parent name ≡ some (done, h))
        × ((j : ℕ)
            → content b w h j ≡ (
                if parent == j
                then encode (before ++ (freed s ∷ after))
                else if s.inum == j
                then content b w h j
                else content b w f j))
        × ((other : List ℕ)
            → (h' : Fs S) × (lookup b h parent other
                ≡ some ((done, find_name other (live (before ++ after))), h')))
  unfolding unlink unlink_looked unlink_found unlink_file
  unlink_lem f parent name before s after k e v o named n file gone =
      let ss = before ++ (s ∷ after) in
      let ino = s.inum in
      let n' : ino ≢ parent = λ r. n (sym r) in
      let f1 = (lock b f parent).1 in
      let (q, r, kq, cq) =
        lookup_lem b w f1 parent name ss (lock-Good b w f parent k) v
          (lock-content b w f parent parent k ∙ e) in
      let found = find_name-here name before s after o named in
      let locks = lookup-held b f1 parent name _ r in
      let (d, r', kd, cd, ld) = isdir_lem (lock b q ino).1 ino (lock-Good b w q ino kq) file in
      let y = w.get_ok d.ext parent kd in
      let kept : (j : ℕ) → content b w d j ≡ content b w f j =
        λ j. cd j ∙ lock-content b w q ino j kq ∙ cq j ∙ lock-content b w f parent j k in
      let buf = (b.get d.ext parent).1 in
      let same_buf : buf ≡ encode ss = w.get_value d.ext parent kd ∙ kept parent ∙ e in
      let walk : name_from (suc (length buf)) name ino 0 buf (length buf)
          ≡ some (some (0 + length (encode before), stride s)) =
        ap (λ l. name_from (suc (length l)) name ino 0 l (length l)) same_buf
        ∙ name_from-encode (suc (length (encode ss))) name 0 before s after v o named
            (omega (arith, length-append before (s ∷ after), length-slots ss)) in
      let g : Fs S = record d { ext = (b.get d.ext parent).2 } in
      let kg = w.get_good d.ext parent kd in
      let old : (j : ℕ) → content b w g j ≡ content b w f j =
        λ j. w.get_keeps d.ext parent j kd ∙ kept j in
      let (h, r'', kh, c) =
        unlink_entry_lem f q g parent ino before s after kg locks ld n (old parent ∙ e) gone in
      let after_it : (j : ℕ)
          → ino ≢ j
          → content b w h j
            ≡ (if parent == j then encode (before ++ (freed s ∷ after)) else content b w f j) =
        λ j m.
          c j m
          ∙ ap (λ x. if parent == j then encode (before ++ (freed s ∷ after)) else x) (old j) in
      (
        h,
        rw (r, found, r', y, walk, unlink, unlink_looked, unlink_found, unlink_file) r'',
        λ j. elim (Bool-cases (s.inum == j)) [
          | inl z ↦ let p : (parent == j) ≡ false = ground arith in rw (z, p) refl
          | inr z ↦ let m : s.inum ≢ j = ground arith in rw z (after_it j m)
        ],
        λ other.
            let now : content b w h parent ≡ encode (before ++ (freed s ∷ after)) =
              after_it parent n'
              ∙ ap (λ u. if u then encode (before ++ (freed s ∷ after)) else content b w f parent)
                  (==-refl parent) in
            let (h', r3, _, _) =
              lookup_lem b w h parent other (before ++ (freed s ∷ after)) kh
                (IsDir-freed before s after v) now in
            (h', r3 ∙ ap (λ l. some ((done, find_name other l), h')) (live-freed before s after)),
      )
