-- ===== src/Fs/Names.antt =====
-- `yfs_client`: its constructor, and the methods that change directories, `create` and `unlink`.
use cse_2014_undergrad.Prelude.{
  ℕ, suc, ◌+◌, ◌-◌, ◌%◌, ◌^◌, Bool, false, not, Option, none, some, List, [], if◌then◌else◌, ltb,
  ◌==◌, length, ◌>>=◌, ◌>>◌, verify,
}
use cse_2014_undergrad.Extent.Client.{ok, failed}
use cse_2014_undergrad.Fs.Below.{Below}
use cse_2014_undergrad.Fs.Dir.{Entry, newdir, filldir, room_from, name_from}
use cse_2014_undergrad.Fs.Client.{
  Result, done, ext_failed, rpc_err, no_ent, exist, not_empty, is_done, t_dir, Fs, lock,
  unlock_unless, leave, isdir, lookup, write,
}

module _ {S : Type 0} (b : Below S) where
  -- `yfs_client::yfs_client`, on what `new` made below: the root directory is made anew.
  unfoldable pub yfs_client : S → Option (Fs S)
  unfolding lock unlock_unless newdir
  yfs_client s =
      let (lr, f) = lock b (record { held = λ i. false; ext = s }) 1 in
      unlock_unless b lr (record f { ext = (b.put f.ext 1 newdir).1 }) 1

  -- What `create` writes where its walk has ended: an entry behind that with room, or at the end. An
  -- offset below 0 makes `replace` throw.
  unfoldable pub add_entry : Fs S → ℕ → List ℕ → ℕ → ℕ × Option Entry → Option ((Result × ℕ) × Fs S)
  unfolding filldir write
  add_entry f parent name ino (pos, none) =
      write b f parent pos (filldir ino (length name + 12) name 0)
  add_entry f parent name ino (pos, some e) =
      let w =
        write b f parent (pos - 4)
          (filldir ino ((e.entrylen + 2 ^ 32 - e.filelen - 12) % 2 ^ 32) name (e.filelen + 12)) in
      verify (not (ltb pos 4)) >> w

  -- `create` once the new extent is there: its entry goes into the directory.
  unfoldable pub create_entry : Bool → Fs S → ℕ → List ℕ → ℕ → Option ((Result × Option ℕ) × Fs S)
  unfolding leave add_entry room_from
  create_entry lr f parent name ino =
      let (st, buf, s) = b.get f.ext parent in
      elim st [
        | failed ↦ leave b lr (record f { ext = s }) parent (ext_failed, some ino)
        | ok ↦ do
          r ← room_from (suc (length buf)) (length name) 0 buf (length buf)
          w ← add_entry (record f { ext = s }) parent name ino r
          leave b lr w.1 parent (w.0.0, some ino)
      ]

  -- `create` once the name is known to be new. A directory is made empty; where that fails, `r` is the
  -- value of a comparison.
  unfoldable pub create_extent : Bool → Fs S → ℕ → List ℕ → ℕ → Option ((Result × Option ℕ) × Fs S)
  unfolding leave create_entry newdir
  create_extent lr f parent name type =
      let (st, ino, s) = b.create f.ext type in
      elim st [
        | failed ↦ leave b lr (record f { ext = s }) parent (ext_failed, none)
        | ok ↦
            if type == t_dir
            then (let (st', s') = b.put s ino newdir in
                elim st' [
                  | failed ↦ leave b lr (record f { ext = s' }) parent (rpc_err, none)
                  | ok ↦ create_entry lr (record f { ext = s' }) parent name ino
                ])
            else create_entry lr (record f { ext = s }) parent name ino
      ]

  -- What `create` does once it has looked the name up
  unfoldable pub create_found :
      Bool → ℕ → List ℕ → ℕ → (Result × Option ℕ) × Fs S → Option ((Result × Option ℕ) × Fs S)
  unfolding leave create_extent
  create_found lr parent name type ((r, found), f) =
      if is_done r
      then elim found [
        | some ino ↦ leave b lr f parent (exist, none)
        | none ↦ create_extent lr f parent name type
      ]
      else leave b lr f parent (r, none)

  -- `create`; with the result comes what it stored in `ino_out`.
  unfoldable pub create : Fs S → ℕ → List ℕ → ℕ → Option ((Result × Option ℕ) × Fs S)
  unfolding lock lookup create_found
  create f parent name type =
      let (lr, f1) = lock b f parent in
      lookup b f1 parent name >>= λ q. create_found lr parent name type q

  -- The last part of `unlink`: the entry is made free, the parent unlocked, the extent removed.
  unfoldable pub unlink_entry : Bool → Bool → Fs S → ℕ → ℕ → Option (ℕ × ℕ) → Option (Result × Fs S)
  unfolding leave filldir write unlock_unless
  unlink_entry lr1 lr2 f parent ino found = do
    f1 ← elim found [
      | none ↦ some f
      | some (pos, entrylen) ↦ write b f parent pos (filldir 0 entrylen [] 0) >>= λ w. some w.1
    ]
    f2 ← unlock_unless b lr1 f1 parent
    let st = b.remove f2.ext ino
    leave b lr2 (record f2 { ext = st.1 }) ino (elim st.0 [ ok ↦ done | failed ↦ ext_failed ])

  -- `unlink` of an entry that was found: `lr1` says whether the parent was locked before, `lr2` whether
  -- the extent was.
  unfoldable pub unlink_file : Bool → Bool → Fs S → ℕ → List ℕ → ℕ → Option (Result × Fs S)
  unfolding leave unlock_unless name_from unlink_entry
  unlink_file lr1 lr2 f parent name ino =
      let (st, buf, s) = b.get f.ext parent in
      elim st [
        | failed ↦ unlock_unless b lr2 (record f { ext = s }) ino >>= λ f2.
            leave b lr1 f2 parent ext_failed
        | ok ↦ name_from (suc (length buf)) name ino 0 buf (length buf) >>= λ found.
            unlink_entry lr1 lr2 (record f { ext = s }) parent ino found
      ]

  unfoldable pub unlink_found : Bool → Fs S → ℕ → List ℕ → ℕ → Option (Result × Fs S)
  unfolding lock isdir leave unlock_unless unlink_file
  unlink_found lr1 f parent name ino =
      let (lr2, f1) = lock b f ino in
      isdir b f1 ino >>= λ d.
      (if d.0
        then (unlock_unless b lr2 d.1 ino >>= λ f2. leave b lr1 f2 parent not_empty)
        else unlink_file lr1 lr2 d.1 parent name ino)

  unfoldable pub unlink_looked :
      Bool → ℕ → List ℕ → (Result × Option ℕ) × Fs S → Option (Result × Fs S)
  unfolding unlink_found
  unlink_looked lr1 parent name ((r, found), f) =
      if is_done r
      then elim found [ none ↦ some (no_ent, f) | some ino ↦ unlink_found lr1 f parent name ino ]
      else some (r, f)

  -- `unlink`: where the lookup fails, or finds nothing, it returns with the parent still locked.
  unfoldable pub unlink : Fs S → ℕ → List ℕ → Option (Result × Fs S)
  unfolding lock lookup unlink_looked
  unlink f parent name =
      let (lr1, f1) = lock b f parent in
      lookup b f1 parent name >>= λ q. unlink_looked lr1 parent name q
