-- ===== src/Fs/Limits.antt =====
-- The limits and the constructors of internal/fs/filesystem.go.
use fileserver_mcp.Base.{
  ℕ, Text, Bool, not, ◌||◌, ℤ, pos, is_positive, Result, fs, limit_exceeded, fail_if, ◌>>=◌, ◌>>◌,
  ok,
}
use fileserver_mcp.Os.{Os}
use fileserver_mcp.Security.Policy.{Policy, default_policy}
use fileserver_mcp.Security.Guard.{PathGuard, new_path_guard_with_policy}

pub record Limits : Type 0 where
  pub max_write_bytes : ℤ
  pub max_list_entries : ℤ
  pub max_copy_bytes : ℤ
  pub max_delete_entries : ℤ

abbrev pub default_limits : Limits
default_limits = record {
  max_write_bytes = pos 10_485_760;
  max_list_entries = pos 1000;
  max_copy_bytes = pos 10_485_760;
  max_delete_entries = pos 1000;
}

pub record Entry : Type 0 where
  pub name : Text
  pub is_dir : Bool
  pub size : ℕ

pub record Metadata : Type 0 where
  pub name : Text
  pub is_dir : Bool
  pub size : ℕ

pub record LocalFileSystem : Type 0 where
  pub guard : PathGuard
  pub limits : Limits

unfoldable pub validate_limits : Limits → Result (Unit {0})
validate_limits limits =
    fail_if
      (not (is_positive limits.max_write_bytes)
        || not (is_positive limits.max_list_entries)
        || not (is_positive limits.max_copy_bytes)
        || not (is_positive limits.max_delete_entries))
      (fs limit_exceeded)

module _ {D : Type 0} (os : Os D) (d : D) where
  unfoldable pub new_local_file_system_with_policy_and_limits :
      Text → Policy → Limits → Result LocalFileSystem
  new_local_file_system_with_policy_and_limits root policy limits = do
    validate_limits limits
    guard ← new_path_guard_with_policy os d root policy
    ok (record { guard = guard; limits = limits })

  unfoldable pub new_local_file_system_with_policy : Text → Policy → Result LocalFileSystem
  new_local_file_system_with_policy root policy =
      new_local_file_system_with_policy_and_limits root policy default_limits

  unfoldable pub new_local_file_system : Text → Result LocalFileSystem
  new_local_file_system root = new_local_file_system_with_policy root default_policy
