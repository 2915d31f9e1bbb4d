-- ===== src/Security/Components.antt =====
-- validateExistingPathPolicy checks every path from the root down to the given one.
use fileserver_mcp.Base.{
  ◌≡◌, refl, sym, ◌∙◌, is_not_exist, ◌⊎◌, inl, inr, Result-cases, [], ◌∷◌, ◌++◌, List, Text, ◌=ᵗ◌,
  Bool, true, false, not, ◌&&◌, arith, All, subst, Result, Error, guard, hidden_path_denied, ok,
  err, fail_if, ◌>>◌, >>=-eq-ok,
}
use fileserver_mcp.FilePath.{is_abs, elements, render, join, join_words, dot}
use fileserver_mcp.FilePath.Split.{split-join_words}
use fileserver_mcp.FilePath.Clean.{IsPlain, All-NoSlash, elements-IsPlain, clean-is_abs}
use fileserver_mcp.FilePath.Join.{join-render, All-last}
use fileserver_mcp.FilePath.Relative.{rel-append, rel-same}
use fileserver_mcp.Os.{Os, FileInfo}
use fileserver_mcp.Security.Policy.{Policy, validate_path_metadata, is_hidden_name}
use fileserver_mcp.Security.Guard.{PathGuard, validate_components, validate_existing_path_policy}
use fileserver_mcp.Security.Lexical.{IsRooted}

IsPlain-rest : (above rest : List Text) → All IsPlain (above ++ rest) → All IsPlain rest
IsPlain-rest [] rest h = h
IsPlain-rest (a ∷ above) rest h = IsPlain-rest above rest h.1

-- Names joined by slashes are not ".".
name_ne_dot : (t : Text) (rest : List Text) → IsPlain t → (join_words (t ∷ rest) =ᵗ dot) ≡ false
unfolding join_words ◌=ᵗ◌
name_ne_dot t [] p = p.not_dot
name_ne_dot [] (u ∷ rest) p = refl
name_ne_dot (a ∷ []) (u ∷ rest) p = ground arith
name_ne_dot (a ∷ b ∷ t) (u ∷ rest) p = ground arith

guarded_chain :
    (b : Bool) (e : Error) (m k : Result (Unit {0}))
    → (fail_if b e >> (m >> k)) ≡ ok tt
    → (b ≡ false) × (m ≡ ok tt) × (k ≡ ok tt)
guarded_chain true e m k h = cc
guarded_chain false e (err x) k h = cc
guarded_chain false e (ok u) k h = (refl, refl, h)

-- A chain that fails as something missing passes its first test, which fails otherwise.
failed_chain :
    (b : Bool) (hidden e : Error) (m k : Result (Unit {0}))
    → is_not_exist hidden ≡ false
    → is_not_exist e ≡ true
    → (fail_if b hidden >> (m >> k)) ≡ err e
    → (b ≡ false) × ((m ≡ err e) ⊎ ((m ≡ ok tt) × (k ≡ err e)))
failed_chain true hidden e m k other missing h = absurd (ground arith)
failed_chain false hidden e (err x) k other missing h = (refl, inl h)
failed_chain false hidden e (ok u) k other missing h = (refl, inr (refl, h))

module _ {D : Type 0} (os : Os D) (d : D) where
  -- The path exists, and it is no symbolic link unless the policy follows them.
  abbrev pub Admits : Policy → Text → Type 0
  Admits policy path =
      (info : FileInfo) × (os.lstat d path ≡ ok info)
      × ((not policy.follow_symlinks && info.is_symlink) ≡ false)

  -- Every path that adds one more of the names to the elements so far is admitted, and none of
  -- the names is hidden unless the policy allows it.
  abbrev pub Clear : Policy → List Text → List Text → Type 0
  Clear policy above [] = Unit
  Clear policy above (c ∷ names) =
      ((not policy.allow_hidden_files && is_hidden_name c) ≡ false)
      × Admits policy (render true (above ++ c ∷ []))
      × Clear policy (above ++ c ∷ []) names

  -- Nothing stands at the path, not even a symbolic link.
  abbrev pub IsGone : Text → Type 0
  IsGone path = (e : Error) × (os.lstat d path ≡ err e) × (is_not_exist e ≡ true)

  -- One of the paths that add names is gone; those before it are clear, and its own name is not
  -- hidden either.
  abbrev pub Missing : Policy → List Text → List Text → Type 0
  Missing policy above [] = ⊥
  Missing policy above (c ∷ names) =
      ((not policy.allow_hidden_files && is_hidden_name c) ≡ false)
      × (IsGone (render true (above ++ c ∷ []))
          ⊎ (Admits policy (render true (above ++ c ∷ []))
              × Missing policy (above ++ c ∷ []) names))

  validate_path_metadata-IsGone :
      (policy : Policy) (path : Text) (e : Error)
      → is_not_exist e ≡ true
      → validate_path_metadata os d path policy ≡ err e
      → IsGone path
  unfolding validate_path_metadata is_not_exist
  validate_path_metadata-IsGone policy path e missing h = elim (Result-cases (os.lstat d path)) [
    | inr (x, failed) ↦ (x, failed, ground (arith, failed))
    | inl (info, found) ↦ absurd (ground (arith, found))
  ]

  pub validate_path_metadata-Admits :
      (policy : Policy) (path : Text)
      → validate_path_metadata os d path policy ≡ ok tt
      → Admits policy path
  unfolding validate_path_metadata
  validate_path_metadata-Admits policy path h =
      let (info, e, f) = >>=-eq-ok (os.lstat d path) _ h in (info, e, ground arith)

  validate_components_plain :
      (policy : Policy) (current c : Text) (names : List Text)
      → IsPlain c
      → validate_components os d policy current (c ∷ names) ≡ (
          fail_if (not policy.allow_hidden_files && is_hidden_name c) (guard hidden_path_denied)
          >> (validate_path_metadata os d (join current c) policy
              >> validate_components os d policy (join current c) names))
  unfolding validate_components
  validate_components_plain policy current c names h =
      rw (h.nonempty, h.not_dot, validate_components) refl

  validate_components-Clear :
      (policy : Policy) (above names : List Text)
      → All IsPlain above
      → All IsPlain names
      → validate_components os d policy (render true above) names ≡ ok tt
      → Clear policy above names
  validate_components-Clear policy above [] ha hn h = tt
  validate_components-Clear policy above (c ∷ names) ha hn h =
      let (no_hidden, here, below) =
        guarded_chain _ _ _ _
          (sym (validate_components_plain policy (render true above) c names hn.0) ∙ h) in
      let joined = join-render above c ha hn.0 in
      (
        no_hidden,
        subst (Admits policy) joined (validate_path_metadata-Admits policy _ here),
        validate_components-Clear policy (above ++ c ∷ []) names (All-last IsPlain above c ha hn.0)
            hn.1 (subst (λ p. validate_components os d policy p names ≡ ok tt) joined below),
      )

  validate_components-Missing :
      (policy : Policy) (above names : List Text) (e : Error)
      → All IsPlain above
      → All IsPlain names
      → is_not_exist e ≡ true
      → validate_components os d policy (render true above) names ≡ err e
      → Missing policy above names
  unfolding is_not_exist validate_components
  validate_components-Missing policy above [] e ha hn missing h = absurd (ground arith)
  validate_components-Missing policy above (c ∷ names) e ha hn missing h =
      let (no_hidden, failed) =
        failed_chain _ (guard hidden_path_denied) e _ _ refl missing
          (sym (validate_components_plain policy (render true above) c names hn.0) ∙ h) in
      let joined = join-render above c ha hn.0 in
      (
        no_hidden,
        elim failed [
          | inl here ↦
              inl (subst IsGone joined (validate_path_metadata-IsGone policy _ e missing here))
          | inr (here, below) ↦ inr (
            subst (Admits policy) joined (validate_path_metadata-Admits policy _ here),
            validate_components-Missing policy (above ++ c ∷ []) names e
                (All-last IsPlain above c ha hn.0) hn.1 missing
                (subst (λ p. validate_components os d policy p names ≡ err e) joined below),
          )
        ],
      )

  module _ (g : PathGuard) (r : IsRooted g) (path : Text) (path_abs : is_abs path ≡ true) where
    checked_root :
        elements path ≡ elements g.root
        → validate_existing_path_policy os d g path ≡ validate_path_metadata os d g.root g.policy
    unfolding validate_existing_path_policy ◌=ᵗ◌
    checked_root e =
        rw (rel-same g.root path r.root_abs path_abs e, validate_existing_path_policy) refl

    checked_components :
        (t : Text) (rest : List Text)
        → IsPlain t
        → All IsPlain rest
        → elements path ≡ elements g.root ++ t ∷ rest
        → validate_existing_path_policy os d g path
          ≡ validate_components os d g.policy g.root (t ∷ rest)
    unfolding validate_existing_path_policy
    checked_components t rest pt prest e =
        rw (rel-append g.root path t rest r.root_abs path_abs e, validate_existing_path_policy)
          (rw (name_ne_dot t rest pt, split-join_words t rest pt.no_slash (All-NoSlash rest prest))
            refl)

    -- Where the path policy accepts a path below the root, every path from below the root down to
    -- it is clear.
    pub validate_existing_path_policy-Clear :
        (rest : List Text)
        → elements path ≡ elements g.root ++ rest
        → validate_existing_path_policy os d g path ≡ ok tt
        → Clear g.policy (elements g.root) rest
    validate_existing_path_policy-Clear [] e h = tt
    validate_existing_path_policy-Clear (t ∷ rest) e h =
        let names : All IsPlain (t ∷ rest) =
          IsPlain-rest (elements g.root) (t ∷ rest)
            (subst (All IsPlain) e (elements-IsPlain path path_abs)) in
        validate_components-Clear g.policy (elements g.root) (t ∷ rest)
          (elements-IsPlain g.root r.root_abs) names
          (subst (λ p. validate_components os d g.policy p (t ∷ rest) ≡ ok tt)
            (sym r.root_clean ∙ clean-is_abs g.root r.root_abs)
            (sym (checked_components t rest names.0 names.1 e) ∙ h))

    -- Where the path policy fails as something missing, at a path below the root, one of the paths
    -- down to it is gone.
    pub validate_existing_path_policy-Missing :
        (t : Text) (rest : List Text) (e : Error)
        → elements path ≡ elements g.root ++ t ∷ rest
        → is_not_exist e ≡ true
        → validate_existing_path_policy os d g path ≡ err e
        → Missing g.policy (elements g.root) (t ∷ rest)
    validate_existing_path_policy-Missing t rest e below missing h =
        let names : All IsPlain (t ∷ rest) =
          IsPlain-rest (elements g.root) (t ∷ rest)
            (subst (All IsPlain) below (elements-IsPlain path path_abs)) in
        validate_components-Missing g.policy (elements g.root) (t ∷ rest) e
          (elements-IsPlain g.root r.root_abs) names missing
          (subst (λ p. validate_components os d g.policy p (t ∷ rest) ≡ err e)
            (sym r.root_clean ∙ clean-is_abs g.root r.root_abs)
            (sym (checked_components t rest names.0 names.1 below) ∙ h))
