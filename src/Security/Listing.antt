-- ===== src/Security/Listing.antt =====
-- AllowListEntry exposes an entry only where the guard would let its path be reached.
use fileserver_mcp.Base.{◌≡◌, Text, true, false, not, ◌&&◌, arith, ok, inl, inr, Result-cases}
use fileserver_mcp.FilePath.{join, is_abs}
use fileserver_mcp.FilePath.Join.{is_abs-join}
use fileserver_mcp.Os.{Os}
use fileserver_mcp.Security.Policy.{
  is_hidden_name, is_inside_root, validate_path_metadata, eval_effective_path,
}
use fileserver_mcp.Security.Guard.{PathGuard, SafePath, allow_list_entry, hides_entry}
use fileserver_mcp.Security.Lexical.{IsRooted, LiesBelow, LiesBelow-is_inside_root}
use fileserver_mcp.Security.Components.{Admits, validate_path_metadata-Admits}
use fileserver_mcp.Security.Existing.{IsLawful}

-- The entry's name is no hidden name where the policy forbids them; its path lies below the root,
-- exists, is no symbolic link where the policy forbids them, and stands for a path below the
-- effective root.
pub record Exposed {D : Type 0} (os : Os D) (d : D) (g : PathGuard) (parent name : Text)
    : Type 0 where
  pub shown : (not g.policy.allow_hidden_files && is_hidden_name name) ≡ false
  pub below : LiesBelow g.root (join parent name)
  pub admitted : Admits os d g.policy (join parent name)
  pub effective : Text
  pub evaluated : os.eval_symlinks d (join parent name) ≡ ok effective
  pub effective_below : LiesBelow g.effective_root effective

module _ {D : Type 0} (os : Os D) (d : D) (g : PathGuard) (parent : SafePath) (name : Text) where
  -- The conditions of the branch that answers true, as the code tests them.
  record Visible : Type 0 where
    shown : (not g.policy.allow_hidden_files && is_hidden_name name) ≡ false
    inside : is_inside_root g.root (join parent.path name) ≡ true
    admitted : validate_path_metadata os d (join parent.path name) g.policy ≡ ok tt
    effective : Text
    evaluated : os.eval_symlinks d (join parent.path name) ≡ ok effective
    effective_inside : is_inside_root g.effective_root effective ≡ true

  allow_list_entry-Visible : allow_list_entry os d g parent name ≡ ok true → Visible
  unfolding allow_list_entry eval_effective_path hides_entry
  allow_list_entry-Visible h = elim (Result-cases (os.eval_symlinks d (join parent.path name))) [
    | inl (effective, e) ↦ record {
      shown = ground arith;
      inside = ground arith;
      admitted = ground arith;
      effective = effective;
      evaluated = e;
      effective_inside = ground arith;
    }
    | inr (x, e) ↦ absurd (ground arith)
  ]

-- An entry that AllowListEntry exposes, in a rooted directory, is `Exposed`; on the lawful operating
-- system and for a guard as NewPathGuard leaves it.
pub allow_list_entry-Exposed :
    {D : Type 0} {os : Os D} (law : IsLawful os) (d : D) {g : PathGuard} (r : IsRooted g)
    (parent : SafePath) (name : Text)
    → is_abs parent.path ≡ true
    → allow_list_entry os d g parent name ≡ ok true
    → Exposed os d g parent.path name
allow_list_entry-Exposed {os} law d {g} r parent name parent_abs h =
    let v = allow_list_entry-Visible os d g parent name h in
    let entry_abs = is_abs-join parent.path name parent_abs in
    record {
      shown = v.shown;
      below = LiesBelow-is_inside_root g.root (join parent.path name) r.root_abs entry_abs v.inside;
      admitted = validate_path_metadata-Admits os d g.policy (join parent.path name) v.admitted;
      effective = v.effective;
      evaluated = v.evaluated;
      effective_below =
          LiesBelow-is_inside_root g.effective_root v.effective r.effective_abs
            (law.eval_abs d (join parent.path name) v.effective entry_abs v.evaluated)
            v.effective_inside;
    }
