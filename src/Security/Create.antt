-- ===== src/Security/Create.antt =====
-- ResolveForCreate: the path that it accepts is confined, or does not exist yet and has a confined
-- directory above it.
use mathlib.Core.List.{append_assoc}
use fileserver_mcp.Base.{
  ◌≡◌, refl, sym, ◌∙◌, subst, [], ◌∷◌, ◌++◌, List, Text, true, not, arith, inl, inr, ◌⊎◌,
  Bool-cases, Levels, ap, All, Error, is_not_exist, Result, ok, err, >>=-eq-ok,
}
use fileserver_mcp.FilePath.{is_abs, elements, render}
use fileserver_mcp.FilePath.Clean.{IsPlain, elements-IsPlain, elements-render, render-is_abs}
use fileserver_mcp.Os.{Os}
use fileserver_mcp.Security.Policy.{is_inside_root, eval_effective_path}
use fileserver_mcp.Security.Guard.{
  PathGuard, SafePath, resolve_lexical, validate_existing_path_policy, resolve_existing_parent,
  finish_create, resolve_for_create,
}
use fileserver_mcp.Security.Lexical.{
  IsRooted, LiesBelow, LiesBelow-is_inside_root, Accepted, resolve_lexical-Accepted,
  Accepted-is_abs,
}
use fileserver_mcp.Security.Components.{
  Clear, Missing, validate_existing_path_policy-Clear, validate_existing_path_policy-Missing,
}
use fileserver_mcp.Security.Existing.{IsLawful, Confined, Confined-of, fail_if-eq-ok, ok_path}
use fileserver_mcp.Security.Parents.{ParentOf, Skipped, resolve_existing_parent-ParentOf}

-- A path below the root that cannot be reached: it or a path above it is gone, below paths that are
-- clear; or it is clear, and EvalSymlinks finds something missing, as behind a dangling link.
abbrev pub Unreached : {D : Type 0} → Os D → D → PathGuard → List Text → Type 0
Unreached os d g ws =
    (rest : List Text) × (ws ≡ elements g.root ++ rest)
    × (Missing os d g.policy (elements g.root) rest
        ⊎ (Clear os d g.policy (elements g.root) rest
            × ((e : Error) × (os.eval_symlinks d (render true ws) ≡ err e)
                × (is_not_exist e ≡ true))))

-- EvalSymlinks finds the path missing. Of the paths above it, the nearest that is not `Unreached`
-- lies below the root, every path on the way down to it is clear, and what it stands for lies
-- below the effective root.
pub record Vacant {D : Type 0} (os : Os D) (d : D) (g : PathGuard) (path : Text) : Type 0 where
  pub reason : Error
  pub missing : os.eval_symlinks d path ≡ err reason
  pub is_missing : is_not_exist reason ≡ true
  pub rest : List Text
  pub between : List Text
  pub last : Text
  pub above : elements path ≡ (elements g.root ++ rest) ++ (between ++ last ∷ [])
  pub nearest : Levels (Unreached os d g) (elements g.root ++ rest) between
  pub clear : Clear os d g.policy (elements g.root) rest
  pub target : Text
  pub evaluated : os.eval_symlinks d (render true (elements g.root ++ rest)) ≡ ok target
  pub target_below : LiesBelow g.effective_root target

IsPlain-above : (above rest : List Text) → All IsPlain (above ++ rest) → All IsPlain above
IsPlain-above [] rest h = tt
IsPlain-above (a ∷ above) rest h = (h.0, IsPlain-above above rest h.1)

snoc_cons :
    (rest : List Text) (t : Text)
    → (first : Text) × (others : List Text) × (rest ++ t ∷ [] ≡ first ∷ others)
snoc_cons [] t = (t, [], refl)
snoc_cons (a ∷ rest) t = (a, rest ++ t ∷ [], refl)

module _ {D : Type 0} {os : Os D} (law : IsLawful os) (d : D) {g : PathGuard} (r : IsRooted g) where
  Skipped-Unreached :
      (ws : List Text) (t : Text) (rest : List Text)
      → All IsPlain ws
      → ws ≡ elements g.root ++ t ∷ rest
      → Skipped os d g ws
      → Unreached os d g ws
  Skipped-Unreached ws t rest names below (e, missing, failed) =
      let path_abs = render-is_abs ws in
      let shown = elements-render ws names ∙ below in
      (
        t ∷ rest,
        below,
        elim failed [
          | inl refused ↦ inl (
              validate_existing_path_policy-Missing os d g r (render true ws) path_abs t rest e
                shown missing refused)
          | inr (accepted, gone) ↦ inr (
            validate_existing_path_policy-Clear os d g r (render true ws) path_abs (t ∷ rest) shown
                accepted,
            (e, gone, missing),
          )
        ],
      )

  Levels-Unreached :
      (above rest between more : List Text)
      → above ≡ elements g.root ++ rest
      → All IsPlain (above ++ (between ++ more))
      → Levels (Skipped os d g) above between
      → Levels (Unreached os d g) above between
  Levels-Unreached above rest [] more below names h = tt
  Levels-Unreached above rest (t ∷ between) more below names h =
      let next : above ++ t ∷ [] ≡ elements g.root ++ (rest ++ t ∷ []) =
        ap (λ l. l ++ t ∷ []) below ∙ append_assoc (elements g.root) rest (t ∷ []) in
      let all_names : All IsPlain ((above ++ t ∷ []) ++ (between ++ more)) =
        subst (All IsPlain) (sym (append_assoc above (t ∷ []) (between ++ more))) names in
      let (first, others, cons) = snoc_cons rest t in
      (
        Skipped-Unreached (above ++ t ∷ []) first others
            (IsPlain-above (above ++ t ∷ []) (between ++ more) all_names)
            (next ∙ ap (λ l. elements g.root ++ l) cons) h.0,
        Levels-Unreached (above ++ t ∷ []) (rest ++ t ∷ []) between more next all_names h.1,
      )

  Vacant-of :
      (path : Text) (e : Error) (target : Text)
      → is_abs path ≡ true
      → os.eval_symlinks d path ≡ err e
      → is_not_exist e ≡ true
      → ParentOf os d g (elements path) target
      → is_inside_root g.effective_root target ≡ true
      → Vacant os d g path
  Vacant-of path e target path_abs missing absent p inside =
      let names = subst (All IsPlain) p.above (elements-IsPlain path path_abs) in
      let parent_names : All IsPlain p.parent =
        IsPlain-above p.parent (p.between ++ p.last ∷ []) names in
      let parent_abs = render-is_abs p.parent in
      let (rest, found) =
        LiesBelow-is_inside_root g.root (render true p.parent) r.root_abs parent_abs p.inside in
      let below : p.parent ≡ elements g.root ++ rest =
        sym (elements-render p.parent parent_names) ∙ found in
      record {
        reason = e;
        missing = missing;
        is_missing = absent;
        rest = rest;
        between = p.between;
        last = p.last;
        above = subst (λ v. elements path ≡ v ++ (p.between ++ p.last ∷ [])) below p.above;
        nearest =
            Levels-Unreached (elements g.root ++ rest) rest p.between (p.last ∷ []) refl
              (subst (λ v. All IsPlain (v ++ (p.between ++ p.last ∷ []))) below names)
              (subst (λ v. Levels (Skipped os d g) v p.between) below p.skipped);
        clear =
            validate_existing_path_policy-Clear os d g r (render true p.parent) parent_abs rest
              found p.accepted;
        target = target;
        evaluated = subst (λ v. os.eval_symlinks d (render true v) ≡ ok target) below p.evaluated;
        target_below =
            LiesBelow-is_inside_root g.effective_root target r.effective_abs
              (law.eval_abs d (render true p.parent) target parent_abs p.evaluated) inside;
      }

  finish_create-same :
      (path : Text) (m : Result Text) {s : SafePath}
      → finish_create os d g path m ≡ ok s
      → path ≡ s.path
  unfolding finish_create
  finish_create-same path (ok effective) h =
      let (u, checked, h1) = >>=-eq-ok (validate_existing_path_policy os d g path) _ h in
      ok_path (fail_if-eq-ok (not (is_inside_root g.effective_root effective)) _ _ h1).1
  finish_create-same path (err e) h = elim (Bool-cases (is_not_exist e)) [
    | inl absent ↦
        let h1 = rw absent at h in
        let (target, found, h2) = >>=-eq-ok (resolve_existing_parent os d g path) _ h1 in
        ok_path (fail_if-eq-ok (not (is_inside_root g.effective_root target)) _ _ h2).1
    | inr other ↦ absurd (ground arith)
  ]

  -- A path that ResolveForCreate returns is one that resolveLexical accepts.
  pub resolve_for_create-Accepted :
      (user_path : Text) {s : SafePath}
      → resolve_for_create os d g user_path ≡ ok s
      → Accepted g user_path s.path
  unfolding resolve_for_create eval_effective_path
  resolve_for_create-Accepted user_path h =
      let (path, accepted, h1) = >>=-eq-ok (resolve_lexical os d g user_path) _ h in
      subst (Accepted g user_path) (finish_create-same path (os.eval_symlinks d path) h1)
        (resolve_lexical-Accepted os d g r user_path path accepted)

  finish_create-Confined :
      (user_path path : Text) (m : Result Text) {s : SafePath}
      → Accepted g user_path path
      → os.eval_symlinks d path ≡ m
      → finish_create os d g path m ≡ ok s
      → Confined os d g s.path ⊎ Vacant os d g s.path
  unfolding finish_create
  finish_create-Confined user_path path (ok effective) a evaluated h =
      let (u, checked, h1) = >>=-eq-ok (validate_existing_path_policy os d g path) _ h in
      let (inside, same) = fail_if-eq-ok (not (is_inside_root g.effective_root effective)) _ _ h1 in
      inl (
        subst (λ p. Confined os d g p) (ok_path same)
          (Confined-of law d r user_path path effective a checked evaluated (ground arith)))
  finish_create-Confined user_path path (err e) {s} a missing h =
      elim (Bool-cases (is_not_exist e)) [
        | inl absent ↦
            let path_abs = Accepted-is_abs os d g r user_path path a in
            let h1 = rw absent at h in
            let (target, found, h2) = >>=-eq-ok (resolve_existing_parent os d g path) _ h1 in
            let (inside, same) =
              fail_if-eq-ok (not (is_inside_root g.effective_root target)) _ _ h2 in
            inr (
              subst (λ p. Vacant os d g p) (ok_path same)
                (Vacant-of path e target path_abs missing absent
                  (resolve_existing_parent-ParentOf os d g path path_abs found) (ground arith)))
        | inr other ↦ absurd (ground arith)
      ]

  -- A path that ResolveForCreate returns is confined to the root, or is vacant: EvalSymlinks finds
  -- it missing; every path between it and a nearest one above it is unreached, which means that
  -- something is gone on the way to it, with a clear way down to that, or that EvalSymlinks finds
  -- something missing there; and the nearest one lies below the root, with a clear way down to it,
  -- and stands for a path below the effective root. This holds on the lawful operating system and
  -- for a guard as NewPathGuard leaves it.
  pub resolve_for_create-Confined :
      (user_path : Text) {s : SafePath}
      → resolve_for_create os d g user_path ≡ ok s
      → Confined os d g s.path ⊎ Vacant os d g s.path
  unfolding resolve_for_create eval_effective_path
  resolve_for_create-Confined user_path {s} h =
      let (path, accepted, h1) = >>=-eq-ok (resolve_lexical os d g user_path) _ h in
      finish_create-Confined user_path path (os.eval_symlinks d path)
        (resolve_lexical-Accepted os d g r user_path path accepted) refl h1
