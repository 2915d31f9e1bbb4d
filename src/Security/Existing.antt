-- ===== src/Security/Existing.antt =====
-- ResolveExisting and the confinement of the paths that it accepts.
use fileserver_mcp.Base.{
  ◌≡◌, refl, ap, subst, [], ◌++◌, List, Text, Bool, true, false, not, arith, Error, Result, ok, err,
  fail_if, ◌>>◌, >>=-eq-ok,
}
use fileserver_mcp.FilePath.{is_abs, elements}
use fileserver_mcp.Os.{Os}
use fileserver_mcp.Security.Policy.{is_inside_root, eval_effective_path}
use fileserver_mcp.Security.Guard.{
  PathGuard, SafePath, resolve_lexical, validate_existing_path_policy, resolve_existing,
}
use fileserver_mcp.Security.Lexical.{
  IsRooted, LiesBelow, LiesBelow-is_inside_root, Accepted, resolve_lexical-Accepted,
  Accepted-is_abs, Accepted-LiesBelow,
}
use fileserver_mcp.Security.Components.{Clear, validate_existing_path_policy-Clear}

-- filepath.EvalSymlinks and os.Getwd give rooted paths, EvalSymlinks where it is given one.
pub record IsLawful {D : Type 0} (os : Os D) : Type 0 where
  pub eval_abs :
      (d : D) (p q : Text) → is_abs p ≡ true → os.eval_symlinks d p ≡ ok q → is_abs q ≡ true
  pub getwd_abs : (d : D) (wd : Text) → os.getwd d ≡ ok wd → is_abs wd ≡ true

-- The path lies below the guard's root by plain names; every path on the way down to it exists,
-- is no hidden name and no symbolic link where the policy forbids them; and the path that it
-- stands for, its links resolved, lies below the effective root.
pub record Confined {D : Type 0} (os : Os D) (d : D) (g : PathGuard) (path : Text) : Type 0 where
  pub rest : List Text
  pub below : elements path ≡ elements g.root ++ rest
  pub clear : Clear os d g.policy (elements g.root) rest
  pub effective : Text
  pub evaluated : os.eval_symlinks d path ≡ ok effective
  pub effective_below : LiesBelow g.effective_root effective

pub fail_if-eq-ok :
    (b : Bool) (e : Error) (k : Result SafePath) {s : SafePath}
    → (fail_if b e >> k) ≡ ok s
    → (b ≡ false) × (k ≡ ok s)
fail_if-eq-ok true e k h = cc
fail_if-eq-ok false e k h = (refl, h)

path_of : Result SafePath → Text
path_of (ok s) = s.path
path_of (err e) = []

pub ok_path :
    {p : Text} {s : SafePath} → ok (let t : SafePath = record { path = p } in t) ≡ ok s → p ≡ s.path
unfolding path_of
ok_path e = ap path_of e

module _ {D : Type 0} {os : Os D} (law : IsLawful os) (d : D) {g : PathGuard} (r : IsRooted g) where
  pub Confined-of :
      (user_path path effective : Text)
      → Accepted g user_path path
      → validate_existing_path_policy os d g path ≡ ok tt
      → os.eval_symlinks d path ≡ ok effective
      → is_inside_root g.effective_root effective ≡ true
      → Confined os d g path
  Confined-of user_path path effective a v e i =
      let path_abs = Accepted-is_abs os d g r user_path path a in
      let (rest, below) = Accepted-LiesBelow os d g r user_path path a in
      record {
        rest = rest;
        below = below;
        clear = validate_existing_path_policy-Clear os d g r path path_abs rest below v;
        effective = effective;
        evaluated = e;
        effective_below =
            LiesBelow-is_inside_root g.effective_root effective r.effective_abs
              (law.eval_abs d path effective path_abs e) i;
      }

  -- A path that ResolveExisting returns is confined to the root, on the lawful operating system and
  -- for a guard as NewPathGuard leaves it.
  pub resolve_existing-Confined :
      (user_path : Text) {s : SafePath}
      → resolve_existing os d g user_path ≡ ok s
      → Confined os d g s.path
  unfolding resolve_existing eval_effective_path
  resolve_existing-Confined user_path {s} h =
      let (path, accepted, h1) = >>=-eq-ok (resolve_lexical os d g user_path) _ h in
      let (u, checked, h2) = >>=-eq-ok (validate_existing_path_policy os d g path) _ h1 in
      let (effective, evaluated, h3) = >>=-eq-ok (os.eval_symlinks d path) _ h2 in
      let (inside, same) = fail_if-eq-ok (not (is_inside_root g.effective_root effective)) _ _ h3 in
      subst (λ p. Confined os d g p) (ok_path same)
        (Confined-of user_path path effective
          (resolve_lexical-Accepted os d g r user_path path accepted) checked evaluated
          (ground arith))
