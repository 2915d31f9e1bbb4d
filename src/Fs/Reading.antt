-- ===== src/Fs/Reading.antt =====
-- The operations of internal/fs that only read: list.go, read.go and stat.go.
pub mod Bounds
use fileserver_mcp.Base.{
  Text, Bytes, List, [], ◌∷◌, ◌++◌, length, Bool, true, false, not, if◌then◌else◌, ℤ, exceeds,
  reaches, is_positive, Result, ok, err, Error, fs, limit_exceeded, path_is_directory,
  file_too_large, not_found, is_not_exist, fail_if, ◌>>=◌, ◌>>◌,
}
use fileserver_mcp.Os.{Os, DirEntry}
use fileserver_mcp.Security.Guard.{SafePath, resolve_existing, allow_list_entry}
use fileserver_mcp.Fs.Limits.{LocalFileSystem, Entry, Metadata}

-- `if errors.Is(err, os.ErrNotExist) { return ErrNotFound }`, and any other error as it is.
unfoldable pub or_not_found {ℓ} : {A : Type ℓ} → Result A → Result A
or_not_found (ok a) = ok a
or_not_found (err e) = if is_not_exist e then err (fs not_found) else err e

module _ {D : Type 0} (os : Os D) (d : D) (f : LocalFileSystem) where
  -- The loop of List; `result` holds the entries so far.
  unfoldable pub list_entries : SafePath → List Entry → List DirEntry → Result (List Entry)
  list_entries safe_path result [] = ok result
  list_entries safe_path result (dir_entry ∷ rest) = do
    allowed ← allow_list_entry os d f.guard safe_path dir_entry.name
    elim allowed [
      | false ↦ list_entries safe_path result rest
      | true ↦ (do
        fail_if (reaches (length result) f.limits.max_list_entries) (fs limit_exceeded)
        info ← dir_entry.info
        list_entries safe_path
            (result
              ++ record { name = dir_entry.name; is_dir = dir_entry.is_dir; size = info.size } ∷ [])
            rest)
    ]

  unfoldable pub list : Text → Result (List Entry)
  list path = do
    safe_path ← resolve_existing os d f.guard path
    dir_entries ← os.read_dir d safe_path.path
    list_entries safe_path [] dir_entries

  unfoldable pub read : Text → ℤ → Result Bytes
  read path max_bytes = do
    safe_path ← resolve_existing os d f.guard path
    info ← os.stat d safe_path.path
    fail_if info.is_dir (fs path_is_directory)
    fail_if (not (is_positive max_bytes)) (fs file_too_large)
    fail_if (exceeds info.size max_bytes) (fs file_too_large)
    os.read_file d safe_path.path

  unfoldable pub stat : Text → Result Metadata
  stat path = do
    safe_path ← or_not_found (resolve_existing os d f.guard path)
    info ← or_not_found (os.stat d safe_path.path)
    ok (record { name = info.name; is_dir = info.is_dir; size = info.size })
