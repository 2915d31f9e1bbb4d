-- ===== src/Fs/Writing.antt =====
-- The operations of internal/fs that write: write.go, copy.go and delete.go. Each is a chain of
-- checks that leave the disk alone, and then the calls that change it.
pub mod Walk
pub mod Effects
pub mod Creating
pub mod Targets
pub mod Deleting
use fileserver_mcp.Base.{
  ℕ, zero, suc, ◌+◌, Text, Bytes, List, [], ◌∷◌, length, Bool, true, false, not, ◌==◌, ◌=ᵗ◌,
  if◌then◌else◌, ℤ, exceeds, Option, none, some, Result, ok, err, Error, fs, os as os_error,
  short_write, limit_exceeded, path_is_directory, file_exists, path_is_not_directory,
  directory_not_empty, copy_directory_unsupported, is_not_exist, is_exist, fail_if, ◌>>=◌, ◌>>◌,
}
use fileserver_mcp.FilePath.{clean, dir}
use fileserver_mcp.Os.{Os, OpenMode, trunc, excl, FileInfo, Visit}
use fileserver_mcp.Security.Guard.{SafePath, resolve_existing, resolve_for_create}
use fileserver_mcp.Fs.Limits.{LocalFileSystem}

-- pathsEquivalent of internal/fs/move_unix.go
unfoldable pub paths_equivalent : Text → Text → Bool
paths_equivalent left right = clean left =ᵗ clean right

-- The flag beside os.O_WRONLY|os.O_CREATE.
unfoldable pub open_mode : Bool → OpenMode
open_mode true = trunc
open_mode false = excl

-- What Write makes of the state of its target.
unfoldable pub write_target : Result FileInfo → Bool → Result (Unit {0})
write_target (ok info) overwrite = do
  fail_if info.is_dir (fs path_is_directory)
  fail_if (not overwrite) (fs file_exists)
write_target (err e) overwrite = if is_not_exist e then ok tt else err e

-- What the two writers make of a failure to open the target.
unfoldable pub open_failure : Error → Error
open_failure e = if is_exist e then fs file_exists else e

-- What Write makes of the number of bytes written.
unfoldable pub write_result : Result ℕ → ℕ → Result (Unit {0})
write_result r expected = do written ← r; fail_if (not (written == expected)) (os_error short_write)

-- ensureTargetPolicy of copy.go
unfoldable pub ensure_target_policy : Result FileInfo → Bool → Result (Unit {0})
ensure_target_policy (ok info) overwrite = do
  fail_if (not overwrite) (fs file_exists)
  fail_if info.is_dir (fs path_is_directory)
ensure_target_policy (err e) overwrite = if is_not_exist e then ok tt else err e

-- The walk of ensureRecursiveDeleteWithinLimit, `entries` of whose paths were counted so far.
unfoldable pub walk_within_limit : Text → ℤ → ℕ → List Visit → Result (Unit {0})
walk_within_limit root limit entries [] = ok tt
walk_within_limit root limit entries (visit ∷ rest) = elim visit.error [
  | some e ↦ err e
  | none ↦ elim (visit.path =ᵗ root) [
    | true ↦ walk_within_limit root limit entries rest
    | false ↦ (do
      fail_if (exceeds (entries + 1) limit) (fs limit_exceeded)
      walk_within_limit root limit (entries + 1) rest)
  ]
]

module _ {D : Type 0} (os : Os D) (d : D) (f : LocalFileSystem) where
  -- The checks of Write.
  unfoldable pub write_checks : Text → Bytes → Bool → Result SafePath
  write_checks path content overwrite = do
    safe_path ← resolve_for_create os d f.guard path
    fail_if (exceeds (length content) f.limits.max_write_bytes) (fs limit_exceeded)
    write_target (os.stat d safe_path.path) overwrite
    ok safe_path

  -- The part of Write that changes the disk.
  unfoldable pub write_file : Text → Bytes → Bool → Result (Unit {0}) × D
  write_file path content overwrite =
      let (opened, d1) = os.open_file d path (open_mode overwrite) 0o600 in
      elim opened [
        | err e ↦ (err (open_failure e), d1)
        | ok file ↦
            let (written, d2) = os.write d1 file content in
            (write_result written (length content), d2)
      ]

  unfoldable pub write : Text → Bytes → Bool → Result (Unit {0}) × D
  write path content overwrite = elim (write_checks path content overwrite) [
    | err e ↦ (err e, d)
    | ok safe_path ↦ write_file safe_path.path content overwrite
  ]

  -- The part of Mkdir that changes the disk.
  unfoldable pub make_directory : Text → Result Bool × D
  make_directory path =
      let (parents, d1) = os.mkdir_all d (dir path) 0o700 in
      elim parents [
        | err e ↦ (err e, d1)
        | ok _ ↦
            let (made, d2) = os.mkdir d1 path 0o700 in
            elim made [
              | ok _ ↦ (ok true, d2)
              | err e ↦ (
                if not (is_exist e) then err e else (do
                  info ← os.stat d2 path
                  fail_if (not info.is_dir) (fs path_is_not_directory)
                  ok false),
                d2,
              )
            ]
      ]

  unfoldable pub mkdir : Text → Result Bool × D
  mkdir path = elim (resolve_for_create os d f.guard path) [
    | err e ↦ (err e, d)
    | ok safe_path ↦
        if paths_equivalent safe_path.path f.guard.root
        then (ok false, d)
        else make_directory safe_path.path
  ]

  -- The checks of Copy: the paths of source and target, and the source's permissions.
  unfoldable pub copy_checks : Text → Text → Bool → Result (Text × Text × ℕ)
  copy_checks source target overwrite = do
    source_path ← resolve_existing os d f.guard source
    target_path ← resolve_for_create os d f.guard target
    source_info ← os.stat d source_path.path
    fail_if source_info.is_dir (fs copy_directory_unsupported)
    fail_if (exceeds source_info.size f.limits.max_copy_bytes) (fs limit_exceeded)
    ensure_target_policy (os.stat d target_path.path) overwrite
    ok (source_path.path, target_path.path, source_info.perm)

  -- The part of Copy that opens the two files and copies.
  unfoldable pub copy_file : Text → Text → ℕ → Bool → Result (Unit {0}) × D
  copy_file source target perm overwrite = elim (os.open_read d source) [
    | err e ↦ (err e, d)
    | ok source_file ↦
        let (opened, d1) = os.open_file d target (open_mode overwrite) perm in
        elim opened [
          | err e ↦ (err (open_failure e), d1)
          | ok target_file ↦
              let (copied, d2) = os.copy d1 target_file source_file in ((do _ ← copied; ok tt), d2)
        ]
  ]

  unfoldable pub copy : Text → Text → Bool → Result (Unit {0}) × D
  copy source target overwrite = elim (copy_checks source target overwrite) [
    | err e ↦ (err e, d)
    | ok (source_path, target_path, perm) ↦ copy_file source_path target_path perm overwrite
  ]

  unfoldable pub ensure_recursive_delete_within_limit : Text → Result (Unit {0})
  ensure_recursive_delete_within_limit root =
      walk_within_limit root f.limits.max_delete_entries 0 (os.walk_dir d root)

  -- What Delete does at an existing path.
  unfoldable pub delete_existing : Text → FileInfo → Bool → Result (Unit {0}) × D
  delete_existing path info recursive =
      if not info.is_dir
      then os.remove d path
      else if recursive
      then elim (ensure_recursive_delete_within_limit path) [
        | err e ↦ (err e, d)
        | ok _ ↦ os.remove_all d path
      ]
      else elim (os.read_dir d path) [
        | err e ↦ (err e, d)
        | ok [] ↦ os.remove d path
        | ok (entry ∷ entries) ↦ (err (fs directory_not_empty), d)
      ]

  unfoldable pub delete : Text → Bool → Result (Unit {0}) × D
  delete path recursive = elim (resolve_existing os d f.guard path) [
    | err e ↦ (err e, d)
    | ok safe_path ↦ elim (os.stat d safe_path.path) [
      | err e ↦ (err e, d)
      | ok info ↦ delete_existing safe_path.path info recursive
    ]
  ]
