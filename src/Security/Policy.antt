-- ===== src/Security/Policy.antt =====
-- The policy and the tests on paths of internal/security/path.go, and the Unix versions of
-- internal/security/policy_unix.go.
use fileserver_mcp.Base.{
  [], ◌∷◌, List, Text, codes, ◌=ᵗ◌, has_prefix, trim_space, Bool, false, not, ◌&&◌, ◌||◌, Option,
  none, some, if◌then◌else◌, Result, guard, symlink_denied, fail_if, ◌>>=◌,
}
use fileserver_mcp.FilePath.{clean, rel, split, dot, dotdot}
use fileserver_mcp.Os.{Os}

pub record Policy : Type 0 where
  pub allow_hidden_files : Bool
  pub allow_unc_paths : Bool
  pub follow_symlinks : Bool

abbrev pub default_policy : Policy
default_policy = record {
  allow_hidden_files = false;
  allow_unc_paths = false;
  follow_symlinks = false;
}

unfoldable pub is_unc_path : Text → Bool
is_unc_path path = has_prefix path (codes "\\\\") || has_prefix path (codes "//")

-- os.Lstat on the path itself, so a symbolic link is seen and not followed.
unfoldable pub validate_path_metadata : {D : Type 0} → Os D → D → Text → Policy → Result (Unit {0})
validate_path_metadata os d path policy = do
  info ← os.lstat d path
  fail_if (not policy.follow_symlinks && info.is_symlink) (guard symlink_denied)

unfoldable pub eval_effective_path : {D : Type 0} → Os D → D → Text → Result Text
eval_effective_path os d path = os.eval_symlinks d path

unfoldable pub normalize_user_path : Text → Text
normalize_user_path user_path = if trim_space user_path =ᵗ [] then dot else clean user_path

unfoldable pub is_traversal_path : Text → Bool
is_traversal_path path = path =ᵗ dotdot || has_prefix path (codes "../")

unfoldable pub is_hidden_name : Text → Bool
is_hidden_name name =
    not (name =ᵗ []) && not (name =ᵗ dot) && not (name =ᵗ dotdot) && has_prefix name (codes ".")

-- The loop of hasHiddenPathComponent.
unfoldable pub any_hidden : List Text → Bool
any_hidden [] = false
any_hidden (component ∷ rest) = is_hidden_name component || any_hidden rest

unfoldable pub has_hidden_path_component : Text → Bool
has_hidden_path_component path = if path =ᵗ dot then false else any_hidden (split path)

-- The test of isInsideRoot on the relative path.
unfoldable pub stays_below : Text → Bool
stays_below relative =
    relative =ᵗ dot || (not (relative =ᵗ dotdot) && not (has_prefix relative (codes "../")))

-- The two results of `Rel`: its error, and the relative path.
unfoldable pub below_root : Option Text → Bool
below_root none = false
below_root (some relative) = stays_below relative

unfoldable pub is_inside_root : Text → Text → Bool
is_inside_root root resolved_path = below_root (rel root resolved_path)
