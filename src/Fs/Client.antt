-- ===== src/Fs/Client.antt =====
-- `yfs_client`: its methods over extents and locks.
--
-- An uncaught exception of `std::string`, a failed assertion or VERIFY, and a directory walk that does
-- not end are `none`. Offsets and sizes are those of files that fit the memory, so sums do not wrap.
use cse_2014_undergrad.Prelude.{
  ℕ, Bool, true, false, not, Option, none, some, List, [], ◌∷◌, if◌then◌else◌, ◌==◌, update, length,
  ◌>>=◌, ◌>>◌, verify,
}
use cse_2014_undergrad.Extent.Client.{Status, ok, failed}
use cse_2014_undergrad.Fs.Below.{Below}
use cse_2014_undergrad.Fs.Dir.{Dirent, same, entries_of}
use cse_2014_undergrad.Fs.Content.{overwrite, count_written, substr, set_size}

-- `yfs_client::xxstatus`, with the statuses of `extent_protocol` and the error numbers that are
-- returned as one: success, any failure of the extent client, and those that the methods give.
pub data Result : Type 0 where
  done : Result
  ext_failed rpc_err no_ent io_err exist not_empty : Result

abbrev pub is_done : Result → Bool
is_done done = true
is_done _ = false

abbrev pub t_dir : ℕ
t_dir = 1

abbrev pub t_file : ℕ
t_file = 2

-- `fileinfo`
pub record Fileinfo : Type 0 where
  pub size : ℕ
  pub atime : ℕ
  pub mtime : ℕ
  pub ctime : ℕ

-- `dirinfo`
pub record Dirinfo : Type 0 where
  pub atime : ℕ
  pub mtime : ℕ
  pub ctime : ℕ

-- `yfs_client`: the locks in `held_lock`, and what lies below.
pub record Fs (S : Type 0) : Type 0 where
  pub held : ℕ → Bool
  pub ext : S

-- The first entry of that name, for `lookup`
unfoldable pub find_name : List ℕ → List Dirent → Option ℕ
find_name name [] = none
find_name name (e ∷ es) = if same e.name name then some e.inum else find_name name es

module _ {S : Type 0} (b : Below S) where
  -- `lock`, with whether the lock was held before; and `unlock`
  unfoldable pub lock : Fs S → ℕ → Bool × Fs S
  lock f i =
      if f.held i
      then (true, f)
      else (false, record { held = update f.held i true; ext = b.acquire f.ext i })

  unfoldable pub unlock : Fs S → ℕ → Option (Fs S)
  unlock f i =
      verify (f.held i)
      >> (b.release f.ext i >>= λ s. some (record { held = update f.held i false; ext = s }))

  -- `if (!lr) unlock(i)`
  unfoldable pub unlock_unless : Bool → Fs S → ℕ → Option (Fs S)
  unfolding unlock
  unlock_unless was_held f i = if was_held then some f else unlock f i

  -- Unlocks and returns a result.
  unfoldable pub leave : {A : Type 0} → Bool → Fs S → ℕ → A → Option (A × Fs S)
  unfolding unlock_unless
  leave was_held f i a = unlock_unless was_held f i >>= λ f'. some (a, f')

  unfoldable pub isfile : Fs S → ℕ → Option (Bool × Fs S)
  unfolding lock leave
  isfile f i =
      let (lr, f1) = lock f i in
      let (st, a, s) = b.getattr f1.ext i in
      leave lr (record f1 { ext = s }) i (elim st [ ok ↦ a.type == t_file | failed ↦ false ])

  unfoldable pub isdir : Fs S → ℕ → Option (Bool × Fs S)
  unfolding isfile
  isdir f i = isfile f i >>= λ p. some (not p.0, p.1)

  unfoldable pub getfile : Fs S → ℕ → Option ((Result × Option Fileinfo) × Fs S)
  unfolding lock leave
  getfile f i =
      let (lr, f1) = lock f i in
      let (st, a, s) = b.getattr f1.ext i in
      leave lr (record f1 { ext = s }) i
        (elim st [
          | failed ↦ (io_err, none)
          | ok ↦ (
            done,
            some (record { size = a.size; atime = a.atime; mtime = a.mtime; ctime = a.ctime }),
          )
        ])

  unfoldable pub getdir : Fs S → ℕ → Option ((Result × Option Dirinfo) × Fs S)
  unfolding lock leave
  getdir f i =
      let (lr, f1) = lock f i in
      let (st, a, s) = b.getattr f1.ext i in
      leave lr (record f1 { ext = s }) i
        (elim st [
          | failed ↦ (io_err, none)
          | ok ↦ (done, some (record { atime = a.atime; mtime = a.mtime; ctime = a.ctime }))
        ])

  -- What `ec->put` returns, as the result of a method
  abbrev result : Status → Result
  result ok = done
  result failed = ext_failed

  unfoldable pub setattr : Fs S → ℕ → ℕ → Option (Result × Fs S)
  unfolding lock leave
  setattr f ino size =
      let (lr, f1) = lock f ino in
      let (st, buf, s) = b.get f1.ext ino in
      elim st [
        | failed ↦ leave lr (record f1 { ext = s }) ino ext_failed
        | ok ↦
            let (st', s') = b.put s ino (set_size size buf) in
            leave lr (record f1 { ext = s' }) ino (result st')
      ]

  unfoldable pub readdir : Fs S → ℕ → Option ((Result × List Dirent) × Fs S)
  unfolding lock leave
  readdir f dir =
      let (lr, f1) = lock f dir in
      let (st, buf, s) = b.get f1.ext dir in
      elim st [
        | failed ↦ leave lr (record f1 { ext = s }) dir (ext_failed, [])
        | ok ↦ do
          p ← leave lr (record f1 { ext = s }) dir done
          es ← entries_of buf
          some ((done, es), p.1)
      ]

  unfoldable pub lookup : Fs S → ℕ → List ℕ → Option ((Result × Option ℕ) × Fs S)
  unfolding readdir
  lookup f parent name = do
    p ← readdir f parent
    some ((p.0.0, if is_done p.0.0 then find_name name p.0.1 else none), p.1)

  unfoldable pub read : Fs S → ℕ → ℕ → ℕ → Option ((Result × List ℕ) × Fs S)
  unfolding lock leave
  read f ino size off =
      let (lr, f1) = lock f ino in
      let (st, buf, s) = b.get f1.ext ino in
      elim st [
        | failed ↦ leave lr (record f1 { ext = s }) ino (ext_failed, [])
        | ok ↦ do
          p ← leave lr (record f1 { ext = s }) ino done
          bytes ← substr off size buf
          some ((done, bytes), p.1)
      ]

  -- `write` of the bytes `bytes`, with what it reports as written
  unfoldable pub write : Fs S → ℕ → ℕ → List ℕ → Option ((Result × ℕ) × Fs S)
  unfolding lock leave
  write f ino off bytes =
      let (lr, f1) = lock f ino in
      let (st, buf, s) = b.get f1.ext ino in
      elim st [
        | failed ↦ leave lr (record f1 { ext = s }) ino (ext_failed, 0)
        | ok ↦
            let (st', s') = b.put s ino (overwrite off bytes buf) in
            leave lr (record f1 { ext = s' }) ino
              (result st', count_written off (length bytes) (length buf))
      ]
