-- ===== src/Security/Root.antt =====
-- NewPathGuardWithPolicy leaves a guard whose two roots are rooted paths.
use fileserver_mcp.Base.{
  ◌≡◌, refl, [], Text, trim_space, ◌=ᵗ◌, Bool, true, false, not, ◌&&◌, arith, ok, guard, empty_root,
  unc_path_denied, root_not_directory, fail_if, ◌>>=◌, >>=-eq-ok, if◌then◌else◌,
}
use fileserver_mcp.FilePath.{is_abs, clean, join}
use fileserver_mcp.FilePath.Clean.{clean-clean, is_abs-clean}
use fileserver_mcp.FilePath.Join.{is_abs-join, join-clean}
use fileserver_mcp.Os.{Os}
use fileserver_mcp.Security.Policy.{
  Policy, is_unc_path, validate_path_metadata, eval_effective_path,
}
use fileserver_mcp.Security.Guard.{PathGuard, abs, new_path_guard_with_policy}
use fileserver_mcp.Security.Lexical.{IsRooted}
use fileserver_mcp.Security.Existing.{IsLawful}

module _ {D : Type 0} {os : Os D} (law : IsLawful os) (d : D) where
  abs-is_abs_if :
      (p : Text) (b : Bool) {q : Text}
      → is_abs p ≡ b
      → (if b then ok (clean p) else (os.getwd d >>= λ wd. ok (join wd p))) ≡ ok q
      → (is_abs q ≡ true) × (clean q ≡ q)
  abs-is_abs_if p true rooted h = ground (arith, is_abs-clean p rooted, clean-clean p rooted)
  abs-is_abs_if p false relative h =
      let (wd, e, joined) = >>=-eq-ok (os.getwd d) _ h in
      let wd_abs = law.getwd_abs d wd e in
      ground (arith, is_abs-join wd p wd_abs, join-clean wd p wd_abs)

  abs-is_abs : (p : Text) {q : Text} → abs os d p ≡ ok q → (is_abs q ≡ true) × (clean q ≡ q)
  unfolding abs
  abs-is_abs p h = abs-is_abs_if p (is_abs p) refl h

  -- A guard that NewPathGuardWithPolicy returns has a cleaned rooted root and a rooted effective
  -- root, on the lawful operating system.
  pub new_path_guard_with_policy-IsRooted :
      (root : Text) (policy : Policy) {g : PathGuard}
      → new_path_guard_with_policy os d root policy ≡ ok g
      → IsRooted g
  unfolding new_path_guard_with_policy eval_effective_path
  new_path_guard_with_policy-IsRooted root policy {g} h =
      let (u1, named, h1) = >>=-eq-ok (fail_if (trim_space root =ᵗ []) (guard empty_root)) _ h in
      let (u2, local, h2) =
        >>=-eq-ok (fail_if (not policy.allow_unc_paths && is_unc_path root) (guard unc_path_denied))
          _ h1 in
      let (root', resolved, h3) = >>=-eq-ok (abs os d (clean root)) _ h2 in
      let (u3, local', h4) =
        >>=-eq-ok
          (fail_if (not policy.allow_unc_paths && is_unc_path root') (guard unc_path_denied)) _
          h3 in
      let (u4, plain, h5) = >>=-eq-ok (validate_path_metadata os d root' policy) _ h4 in
      let (effective, evaluated, h6) = >>=-eq-ok (os.eval_symlinks d root') _ h5 in
      let (info, found, h7) = >>=-eq-ok (os.stat d effective) _ h6 in
      let (u5, directory, h8) =
        >>=-eq-ok (fail_if (not info.is_dir) (guard root_not_directory)) _ h7 in
      let rooted = abs-is_abs (clean root) resolved in
      let effective_abs = law.eval_abs d root' effective rooted.0 evaluated in
      record {
        root_abs = ground (arith, h8, rooted.0);
        root_clean = ground (arith, h8, rooted.1);
        effective_abs = ground (arith, h8, effective_abs);
      }
