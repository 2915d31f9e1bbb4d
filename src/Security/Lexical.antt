-- ===== src/Security/Lexical.antt =====
-- What `resolveLexical` accepts, and where the accepted path lies.
use fileserver_mcp.Base.{◌≡◌, sym, ap, ◌∙◌, ◌++◌, List, Text, true, false, not, ◌&&◌, arith, ok}
use fileserver_mcp.FilePath.{is_abs, elements, clean, join}
use fileserver_mcp.FilePath.Join.{is_abs-join, join-clean}
use fileserver_mcp.FilePath.Relative.{is_prefix-append}
use fileserver_mcp.Os.{Os}
use fileserver_mcp.Security.Policy.{
  normalize_user_path, is_unc_path, is_traversal_path, has_hidden_path_component, is_inside_root,
}
use fileserver_mcp.Security.Inside.{is_inside_root-is_prefix}
use fileserver_mcp.Security.Guard.{PathGuard, abs, resolve_lexical}

-- The guard's root is a cleaned rooted path, as NewPathGuard leaves it.
pub record IsRooted (g : PathGuard) : Type 0 where
  pub root_abs : is_abs g.root ≡ true
  pub root_clean : clean g.root ≡ g.root
  pub effective_abs : is_abs g.effective_root ≡ true

-- `path` is the root, or lies below it by plain names.
abbrev pub LiesBelow : Text → Text → Type 0
LiesBelow root path = (rest : List Text) × (elements path ≡ elements root ++ rest)

pub LiesBelow-is_inside_root :
    (root path : Text)
    → is_abs root ≡ true
    → is_abs path ≡ true
    → is_inside_root root path ≡ true
    → LiesBelow root path
LiesBelow-is_inside_root root path hr hp h =
    is_prefix-append _ _ (sym (is_inside_root-is_prefix root path hr hp) ∙ h)

-- What an accepted user path satisfies.
pub record Accepted (g : PathGuard) (user_path path : Text) : Type 0 where
  pub resolved : path ≡ join g.root (normalize_user_path user_path)
  pub inside : is_inside_root g.root path ≡ true
  pub relative : is_abs (normalize_user_path user_path) ≡ false
  pub no_traversal : is_traversal_path (normalize_user_path user_path) ≡ false
  pub no_unc : (not g.policy.allow_unc_paths && is_unc_path (normalize_user_path user_path)) ≡ false
  pub no_hidden :
      (not g.policy.allow_hidden_files && has_hidden_path_component (normalize_user_path user_path))
      ≡ false

module _ {D : Type 0} (os : Os D) (d : D) where
  abs_rooted : (p : Text) → is_abs p ≡ true → abs os d p ≡ ok (clean p)
  unfolding abs
  abs_rooted p h = rw h

  module _ (g : PathGuard) (r : IsRooted g) where
    joined_abs : (n : Text) → abs os d (join g.root n) ≡ ok (join g.root n)
    joined_abs n =
        abs_rooted (join g.root n) (is_abs-join g.root n r.root_abs)
        ∙ ap ok (join-clean g.root n r.root_abs)

    pub resolve_lexical-Accepted :
        (user_path path : Text)
        → resolve_lexical os d g user_path ≡ ok path
        → Accepted g user_path path
    unfolding resolve_lexical
    resolve_lexical-Accepted user_path path h =
        ground (arith, joined_abs (normalize_user_path user_path))

    pub Accepted-is_abs : (user_path path : Text) → Accepted g user_path path → is_abs path ≡ true
    Accepted-is_abs user_path path a =
        rw (a.resolved) (is_abs-join g.root (normalize_user_path user_path) r.root_abs)

    pub Accepted-clean : (user_path path : Text) → Accepted g user_path path → clean path ≡ path
    Accepted-clean user_path path a =
        rw (a.resolved) (join-clean g.root (normalize_user_path user_path) r.root_abs)

    pub Accepted-LiesBelow :
        (user_path path : Text) → Accepted g user_path path → LiesBelow g.root path
    Accepted-LiesBelow user_path path a =
        LiesBelow-is_inside_root g.root path r.root_abs (Accepted-is_abs user_path path a) a.inside
