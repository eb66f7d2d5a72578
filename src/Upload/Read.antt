-- ===== src/Upload/Read.antt =====
-- `_read_limited`: an upload is read in chunks, up to a limit.
pub mod Limit
use n8n_production_systems.Common.{
  List, ℕ, ◌*◌, Option, none, suc, take, length, drop, [], ◌+◌, ◌++◌, if◌then◌else◌, some, ltb,
  zero,
}
use n8n_production_systems.Text.{is_empty}

abbrev pub max_upload_bytes : ℕ
max_upload_bytes = 10 * 1024 * 1024

abbrev pub read_chunk : ℕ
read_chunk = 64 * 1024

-- The loop, over what is left of the upload. `read` returns at most a chunk of it, and nothing at
-- its end. `none` is the 413; the fuel is more than the rounds, since each takes a byte at least.
read_from : ℕ → List ℕ → ℕ → List ℕ → Option (List ℕ)
read_from zero left total chunks = none
read_from (suc fuel) left total chunks =
    let chunk = take read_chunk left in
    let more = read_from fuel (drop read_chunk left) (total + length chunk) (chunks ++ chunk) in
    if is_empty chunk
    then some chunks
    else if ltb max_upload_bytes (total + length chunk)
    then none
    else more

unfoldable pub read_limited : List ℕ → Option (List ℕ)
unfolding read_from
read_limited upload = read_from (suc (length upload)) upload 0 []
