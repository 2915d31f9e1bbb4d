-- ===== src/Fs/Opening.antt =====
-- filesystem.go: what the constructors of LocalFileSystem establish.
use fileserver_mcp.Base.{
  Text, true, is_positive, Result, ok, err, >>=-eq-ok, ◌≡◌, refl, arith, ap, subst,
}
use fileserver_mcp.Os.{Os}
use fileserver_mcp.Security.Policy.{Policy}
use fileserver_mcp.Security.Guard.{new_path_guard_with_policy}
use fileserver_mcp.Security.Lexical.{IsRooted}
use fileserver_mcp.Security.Existing.{IsLawful}
use fileserver_mcp.Security.Root.{new_path_guard_with_policy-IsRooted}
use fileserver_mcp.Fs.Limits.{
  Limits, LocalFileSystem, validate_limits, new_local_file_system_with_policy_and_limits,
}

-- Every limit is positive.
pub record ArePositive (limits : Limits) : Type 0 where
  pub write : is_positive limits.max_write_bytes ≡ true
  pub list : is_positive limits.max_list_entries ≡ true
  pub copy : is_positive limits.max_copy_bytes ≡ true
  pub delete : is_positive limits.max_delete_entries ≡ true

validate_limits-ArePositive :
    (limits : Limits) → validate_limits limits ≡ ok tt → ArePositive limits
unfolding validate_limits
validate_limits-ArePositive limits h = record {
  write = ground arith;
  list = ground arith;
  copy = ground arith;
  delete = ground arith;
}

-- What the operations need of the file system that they work on.
pub record IsReady (limits : Limits) (f : LocalFileSystem) : Type 0 where
  pub rooted : IsRooted f.guard
  pub positive : ArePositive f.limits
  pub as_asked : f.limits ≡ limits

file_system_in : LocalFileSystem → Result LocalFileSystem → LocalFileSystem
file_system_in f (ok g) = g
file_system_in f (err e) = f

-- On the lawful operating system, a file system that the constructor returns has a rooted guard, and
-- the limits asked for, which are positive.
pub new_local_file_system-IsReady :
    {D : Type 0} {os : Os D} (law : IsLawful os) (d : D) (root : Text) (policy : Policy)
    (limits : Limits) {f : LocalFileSystem}
    → new_local_file_system_with_policy_and_limits os d root policy limits ≡ ok f
    → IsReady limits f
unfolding new_local_file_system_with_policy_and_limits file_system_in
new_local_file_system-IsReady {os} law d root policy limits {f} h =
    let (u, valid, h1) = >>=-eq-ok (validate_limits limits) _ h in
    let (g, guarded, same) = >>=-eq-ok (new_path_guard_with_policy os d root policy) _ h1 in
    subst (IsReady limits) (ap (file_system_in f) same) (record {
      rooted = new_path_guard_with_policy-IsRooted law d root policy guarded;
      positive = validate_limits-ArePositive limits valid;
      as_asked = refl;
    })
