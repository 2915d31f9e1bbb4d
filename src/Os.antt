-- ===== src/Os.antt =====
-- The operating system as the program sees it: the calls of Go's `os`, `io` and
-- `filepath.EvalSymlinks` and `filepath.WalkDir`, over a type `D` of disk states. A call that
-- only reads is a function of the disk; a call that writes gives the disk after it, also where
-- it fails. Times, owners and open descriptors beyond a handle's number are not modelled.
use fileserver_mcp.Base.{ℕ, Text, Bytes, Bool, Option, List, Result, Error, ◌==◌}

-- os.FileInfo. `id` is what os.SameFile compares, `dev` the device of the Unix stat data.
pub record FileInfo : Type 0 where
  pub name : Text
  pub is_dir : Bool
  pub size : ℕ
  pub is_symlink : Bool
  pub perm : ℕ
  pub id : ℕ
  pub dev : Option ℕ

-- os.DirEntry, with the result of its method `Info`.
pub record DirEntry : Type 0 where
  pub name : Text
  pub is_dir : Bool
  pub info : Result FileInfo

-- One call that filepath.WalkDir makes of its function: a path, and an error if there is one.
pub record Visit : Type 0 where
  pub path : Text
  pub error : Option Error

-- The flag that os.OpenFile gets beside O_WRONLY and O_CREATE.
pub data OpenMode : Type 0 where
  trunc excl : OpenMode

pub record Os (D : Type 0) : Type 0 where
  pub getwd : D → Result Text
  pub lstat : D → Text → Result FileInfo
  pub stat : D → Text → Result FileInfo
  pub eval_symlinks : D → Text → Result Text
  pub read_dir : D → Text → Result (List DirEntry)
  pub read_file : D → Text → Result Bytes
  pub walk_dir : D → Text → List Visit
  pub open_read : D → Text → Result ℕ
  pub open_file : D → Text → OpenMode → ℕ → Result ℕ × D
  pub write : D → ℕ → Bytes → Result ℕ × D
  pub copy : D → ℕ → ℕ → Result ℕ × D
  pub mkdir_all : D → Text → ℕ → Result (Unit {0}) × D
  pub mkdir : D → Text → ℕ → Result (Unit {0}) × D
  pub remove : D → Text → Result (Unit {0}) × D
  pub remove_all : D → Text → Result (Unit {0}) × D
  pub rename : D → Text → Text → Result (Unit {0}) × D

-- os.SameFile
unfoldable pub same_file : FileInfo → FileInfo → Bool
same_file a b = a.id == b.id
