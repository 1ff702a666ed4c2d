-- ===== src/Fs/Content.antt =====
-- The contents of a file as `std::string` operations of yfs_client.cc change them.
pub mod Bytes
pub mod Pieces
use cse_2014_undergrad.Prelude.{
  ℕ, ◌+◌, ◌-◌, Option, none, some, List, ◌++◌, if◌then◌else◌, ltb, ◌==◌, length, take, drop,
  replicate,
}

-- `buf.resize(n, '\0')`
unfoldable pub resize : ℕ → List ℕ → List ℕ
resize n buf = take n buf ++ replicate (n - length buf) 0

-- `buf.replace(off, size, data, size)` where `off` is not behind the end
unfoldable pub replace : ℕ → List ℕ → List ℕ → List ℕ
replace off content buf = take off buf ++ (content ++ drop (off + length content) buf)

-- What `write` does to the contents
unfoldable pub overwrite : ℕ → List ℕ → List ℕ → List ℕ
unfolding resize replace
overwrite off content buf =
    replace off content
      (if ltb (length buf) (off + length content) then resize (off + length content) buf else buf)

-- `bytes_written`, as `write` reports it
unfoldable pub count_written : ℕ → ℕ → ℕ → ℕ
count_written off size len = if ltb off len then size else off + size - len

-- `buf.substr(off, size)`, which throws if `off` lies behind the end
unfoldable pub substr : ℕ → ℕ → List ℕ → Option (List ℕ)
substr off size buf = if ltb (length buf) off then none else some (take size (drop off buf))

-- What `setattr` does to the contents
unfoldable pub set_size : ℕ → List ℕ → List ℕ
unfolding resize
set_size size buf = if size == length buf then buf else resize size buf
