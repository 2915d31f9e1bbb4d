-- ===== src/Security/Guard.antt =====
-- `PathGuard` of internal/security/path.go. The operating system and its disk are the section's
-- parameters; one call of a method sees one disk.
use fileserver_mcp.Base.{
  ℕ, zero, suc, ◌+◌, [], ◌∷◌, List, length, Text, ◌=ᵗ◌, trim_space, Bool, true, false, not, ◌&&◌,
  ◌||◌, or_else, Option, none, some, if◌then◌else◌, Result, ok, err, guard, empty_root,
  root_not_directory, absolute_path, path_traversal, outside_root, hidden_path_denied,
  unc_path_denied, symlink_denied, reparse_point_denied, Error, is_not_exist, fail_if, ◌>>=◌, ◌>>◌,
}
use fileserver_mcp.FilePath.{clean, rel, split, dot, join, is_abs, dir}
use fileserver_mcp.Os.{Os}
use fileserver_mcp.Security.Policy.{
  Policy, default_policy, is_unc_path, validate_path_metadata, eval_effective_path,
  normalize_user_path, is_traversal_path, is_hidden_name, has_hidden_path_component, is_inside_root,
}

pub record SafePath : Type 0 where
  pub path : Text

pub record PathGuard : Type 0 where
  pub root : Text
  pub effective_root : Text
  pub policy : Policy

-- Errors by which AllowListEntry hides an entry instead of failing.
unfoldable pub hides_entry : Error → Bool
hides_entry (guard hidden_path_denied) = true
hides_entry (guard symlink_denied) = true
hides_entry (guard reparse_point_denied) = true
hides_entry _ = false

module _ {D : Type 0} (os : Os D) (d : D) where
  -- filepath.Abs
  unfoldable pub abs : Text → Result Text
  abs path = if is_abs path then ok (clean path) else (do wd ← os.getwd d; ok (join wd path))

  unfoldable pub new_path_guard_with_policy : Text → Policy → Result PathGuard
  new_path_guard_with_policy root policy = do
    fail_if (trim_space root =ᵗ []) (guard empty_root)
    fail_if (not policy.allow_unc_paths && is_unc_path root) (guard unc_path_denied)
    absolute_root ← abs (clean root)
    fail_if (not policy.allow_unc_paths && is_unc_path absolute_root) (guard unc_path_denied)
    validate_path_metadata os d absolute_root policy
    effective_root ← eval_effective_path os d absolute_root
    effective_info ← os.stat d effective_root
    fail_if (not effective_info.is_dir) (guard root_not_directory)
    ok (record { root = absolute_root; effective_root = effective_root; policy = policy })

  unfoldable pub new_path_guard : Text → Result PathGuard
  new_path_guard root = new_path_guard_with_policy root default_policy

  -- The loop of validateExistingPathPolicy over the components below `current`.
  unfoldable pub validate_components : Policy → Text → List Text → Result (Unit {0})
  validate_components policy current [] = ok tt
  validate_components policy current (component ∷ rest) =
      elim (component =ᵗ [] || component =ᵗ dot) [
        | true ↦ validate_components policy current rest
        | false ↦ (do
          fail_if (not policy.allow_hidden_files && is_hidden_name component)
              (guard hidden_path_denied)
          validate_path_metadata os d (join current component) policy
          validate_components policy (join current component) rest)
      ]

  module _ (g : PathGuard) where
    unfoldable pub validate_existing_path_policy : Text → Result (Unit {0})
    validate_existing_path_policy path = elim (rel g.root path) [
      | none ↦ err (guard outside_root)
      | some relative ↦
          if relative =ᵗ dot
          then validate_path_metadata os d g.root g.policy
          else validate_components g.policy g.root (split relative)
    ]

    unfoldable pub resolve_lexical : Text → Result Text
    resolve_lexical user_path = do
      let normalized = normalize_user_path user_path
      fail_if (not g.policy.allow_unc_paths && is_unc_path normalized) (guard unc_path_denied)
      fail_if (is_abs normalized) (guard absolute_path)
      fail_if (is_traversal_path normalized) (guard path_traversal)
      fail_if (not g.policy.allow_hidden_files && has_hidden_path_component normalized)
          (guard hidden_path_denied)
      resolved_path ← abs (join g.root normalized)
      fail_if (not (is_inside_root g.root resolved_path)) (guard outside_root)
      ok resolved_path

    unfoldable pub resolve_existing : Text → Result SafePath
    resolve_existing user_path = do
      resolved_path ← resolve_lexical user_path
      validate_existing_path_policy resolved_path
      effective_path ← eval_effective_path os d resolved_path
      fail_if (not (is_inside_root g.effective_root effective_path)) (guard outside_root)
      ok (record { path = resolved_path })

    -- One round of resolveExistingParent: `none` asks for the next round at `parent`.
    unfoldable pub probe_parent : Text → Option (Result Text)
    probe_parent parent = elim (validate_existing_path_policy parent) [
      | err e ↦ if is_not_exist e then none else some (err e)
      | ok _ ↦ elim (eval_effective_path os d parent) [
        | ok effective_parent ↦ some (ok effective_parent)
        | err e ↦ if is_not_exist e then none else some (err e)
      ]
    ]

    -- The loop of resolveExistingParent on fuel; `none` means that the fuel ran out.
    unfoldable pub parent_loop : ℕ → Text → Option (Result Text)
    parent_loop zero current = none
    parent_loop (suc fuel) current =
        let next = parent_loop fuel (dir current) in
        if dir current =ᵗ current
        then some (err (guard outside_root))
        else if not (is_inside_root g.root (dir current))
        then some (err (guard outside_root))
        else or_else (probe_parent (dir current)) next

    -- The fuel is never used up at the paths that the guard passes.
    unfoldable pub resolve_existing_parent : Text → Result Text
    resolve_existing_parent path = elim (parent_loop (length (clean path) + 1) (clean path)) [
      | some result ↦ result
      | none ↦ err (guard outside_root)
    ]

    -- What ResolveForCreate does with the result of evalEffectivePath.
    unfoldable pub finish_create : Text → Result Text → Result SafePath
    finish_create resolved_path (ok effective_path) = do
      validate_existing_path_policy resolved_path
      fail_if (not (is_inside_root g.effective_root effective_path)) (guard outside_root)
      ok (record { path = resolved_path })
    finish_create resolved_path (err e) =
        if is_not_exist e
        then (do
          effective_parent ← resolve_existing_parent resolved_path
          fail_if (not (is_inside_root g.effective_root effective_parent)) (guard outside_root)
          ok (record { path = resolved_path }))
        else err e

    unfoldable pub resolve_for_create : Text → Result SafePath
    resolve_for_create user_path = do
      resolved_path ← resolve_lexical user_path
      finish_create resolved_path (eval_effective_path os d resolved_path)

    unfoldable pub resolve : Text → Result SafePath
    resolve user_path = resolve_for_create user_path

    unfoldable pub allow_list_entry : SafePath → Text → Result Bool
    allow_list_entry parent name =
        let entry_path = join parent.path name in
        if not g.policy.allow_hidden_files && is_hidden_name name
        then ok false
        else if not (is_inside_root g.root entry_path)
        then err (guard outside_root)
        else elim (validate_path_metadata os d entry_path g.policy) [
          | err e ↦ if hides_entry e then ok false else err e
          | ok _ ↦ (do
            effective_path ← eval_effective_path os d entry_path
            ok (is_inside_root g.effective_root effective_path))
        ]
