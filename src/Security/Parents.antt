-- ===== src/Security/Parents.antt =====
-- The loop of resolveExistingParent: it ends, and what it returns stands for a directory between
-- the root and the path.
use mathlib.Core.List.{append_assoc}
use fileserver_mcp.Base.{
  ℕ, zero, suc, or_else, guard, outside_root, ◌+◌, ◌<◌, ◌≡◌, ◌≢◌, refl, sym, ap, ◌∙◌, subst, [],
  ◌∷◌, ◌++◌, List, length, length-append, Text, ◌=ᵗ◌, Bool, true, false, not, arith, inl, inr,
  Bool-cases, ◌⊎◌, All, Option, some, none, Result, ok, err, Levels, Levels-last, Error,
  is_not_exist, Result-cases, text_eq_iff, text_eq_refl, if◌then◌else◌,
}
use fileserver_mcp.FilePath.{is_abs, elements, clean, render}
use fileserver_mcp.FilePath.Clean.{IsPlain, elements-IsPlain, clean-is_abs, elements-render}
use fileserver_mcp.FilePath.Join.{All-last}
use fileserver_mcp.FilePath.Relative.{append_longer}
use fileserver_mcp.FilePath.Parent.{dir-render, dir-render_root, last_cases, length-render}
use fileserver_mcp.Os.{Os}
use fileserver_mcp.Security.Policy.{is_inside_root, eval_effective_path}
use fileserver_mcp.Security.Guard.{
  PathGuard, validate_existing_path_policy, probe_parent, parent_loop, resolve_existing_parent,
}

pub IsPlain-init :
    (init : List Text) (w : Text) → All IsPlain (init ++ w ∷ []) → All IsPlain init × IsPlain w
IsPlain-init [] w h = (tt, h.0)
IsPlain-init (v ∷ init) w h = let (a, b) = IsPlain-init init w h.1 in ((h.0, a), b)

render_ne :
    (init : List Text) (w : Text)
    → All IsPlain init
    → All IsPlain (init ++ w ∷ [])
    → (render true init =ᵗ render true (init ++ w ∷ [])) ≡ false
render_ne init w h hw = elim (Bool-cases (render true init =ᵗ render true (init ++ w ∷ []))) [
  | inl same ↦ absurd (
      append_longer init w [] (
        sym (elements-render (init ++ w ∷ []) hw)
        ∙ sym (ap elements ((text_eq_iff _ _).0 same))
        ∙ elements-render init h))
  | inr differ ↦ differ
]

round-ne-none :
    (inside : Bool) (probe next : Option (Result Text))
    → next ≢ none
    → (if not inside then some (err (guard outside_root)) else or_else probe next) ≢ none
unfolding or_else
round-ne-none true (some x) next h = λ p. cc
round-ne-none true none next h = h
round-ne-none false probe next h = λ p. cc

round-eq-ok :
    (inside : Bool) (probe next : Option (Result Text)) {e : Text}
    → (if not inside then some (err (guard outside_root)) else or_else probe next) ≡ some (ok e)
    → (inside ≡ true) × ((probe ≡ some (ok e)) ⊎ ((probe ≡ none) × (next ≡ some (ok e))))
unfolding or_else
round-eq-ok true (some x) next h = (refl, inl h)
round-eq-ok true none next h = (refl, inr (refl, h))
round-eq-ok false probe next h = absurd (ground arith)

module _ {D : Type 0} (os : Os D) (d : D) (g : PathGuard) where
  parent_loop_root :
      (fuel : ℕ) → parent_loop os d g (suc fuel) (render true []) ≡ some (err (guard outside_root))
  unfolding parent_loop
  parent_loop_root fuel = rw (dir-render_root, text_eq_refl (render true []), parent_loop) refl

  -- One round of the loop, at a path with a last element.
  parent_loop_round :
      (fuel : ℕ) (init : List Text) (w : Text)
      → All IsPlain init
      → IsPlain w
      → parent_loop os d g (suc fuel) (render true (init ++ w ∷ [])) ≡ (
          if not (is_inside_root g.root (render true init))
          then some (err (guard outside_root))
          else or_else
              (probe_parent os d g (render true init))
              (parent_loop os d g fuel (render true init)))
  unfolding parent_loop
  parent_loop_round fuel init w h hw =
      rw (dir-render init w h hw, parent_loop)
        (rw (render_ne init w h (All-last IsPlain init w h hw)) refl)

  -- With more fuel than elements the loop does not run out of it.
  parent_loop-ne-none :
      (fuel : ℕ) (ws : List Text)
      → All IsPlain ws
      → length ws < fuel
      → parent_loop os d g fuel (render true ws) ≢ none
  parent_loop-ne-none zero ws h lt = absurd (omega arith)
  parent_loop-ne-none (suc fuel) ws h lt = elim (last_cases ws) [
    | inl e ↦ rw (e, parent_loop_root fuel) (λ p. cc)
    | inr (init, w, e) ↦
        let plain = IsPlain-init init w (subst (All IsPlain) e h) in
        let rest =
          parent_loop-ne-none fuel init plain.0
            (omega (arith, ap (λ (l : List Text). length l) e, length-append {0} init (w ∷ []))) in
        rw (e, parent_loop_round fuel init w plain.0 plain.1) (round-ne-none _ _ _ rest)
  ]

  -- The policy finds something missing on the way down to the path, or accepts it and EvalSymlinks
  -- finds something missing.
  abbrev pub Skipped : List Text → Type 0
  Skipped ws =
      (e : Error) × (is_not_exist e ≡ true)
      × ((validate_existing_path_policy os d g (render true ws) ≡ err e)
          ⊎ ((validate_existing_path_policy os d g (render true ws) ≡ ok tt)
              × (os.eval_symlinks d (render true ws) ≡ err e)))

  -- A directory on the way from the root down to the path, which the policy accepts and which
  -- stands for `result`. Every path between them was skipped.
  pub record ParentOf (ws : List Text) (result : Text) : Type 0 where
    pub parent : List Text
    pub between : List Text
    pub last : Text
    pub above : ws ≡ parent ++ (between ++ last ∷ [])
    pub skipped : Levels Skipped parent between
    pub inside : is_inside_root g.root (render true parent) ≡ true
    pub accepted : validate_existing_path_policy os d g (render true parent) ≡ ok tt
    pub evaluated : os.eval_symlinks d (render true parent) ≡ ok result

  probe_parent-eq-none : (ws : List Text) → probe_parent os d g (render true ws) ≡ none → Skipped ws
  unfolding probe_parent eval_effective_path
  probe_parent-eq-none ws h =
      elim (Result-cases (validate_existing_path_policy os d g (render true ws))) [
        | inr (e, failed) ↦ (e, ground (arith, failed), inl failed)
        | inl (u, passed) ↦ elim (Result-cases (os.eval_symlinks d (render true ws))) [
          | inl (p, found) ↦ absurd (ground (arith, passed, found))
          | inr (e, failed) ↦ (e, ground (arith, passed, failed), inr (passed, failed))
        ]
      ]

  probe_parent-eq-ok :
      (p : Text) {e : Text}
      → probe_parent os d g p ≡ some (ok e)
      → (validate_existing_path_policy os d g p ≡ ok tt) × (os.eval_symlinks d p ≡ ok e)
  unfolding probe_parent eval_effective_path
  probe_parent-eq-ok p h = ground arith

  fuel_out :
      (ws : List Text) {e : Text} → parent_loop os d g zero (render true ws) ≡ some (ok e) → ⊥
  unfolding parent_loop
  fuel_out ws q = ground arith

  root_fails :
      (fuel : ℕ) {e : Text} → parent_loop os d g (suc fuel) (render true []) ≡ some (ok e) → ⊥
  root_fails fuel q = ground (arith, parent_loop_root fuel)

  ParentOf-here :
      (init : List Text) (w : Text) {e : Text}
      → is_inside_root g.root (render true init) ≡ true
      → (validate_existing_path_policy os d g (render true init) ≡ ok tt)
        × (os.eval_symlinks d (render true init) ≡ ok e)
      → ParentOf (init ++ w ∷ []) e
  ParentOf-here init w inside (accepted, evaluated) = record {
    parent = init;
    between = [];
    last = w;
    above = refl;
    skipped = tt;
    inside = inside;
    accepted = accepted;
    evaluated = evaluated;
  }

  ParentOf-more :
      (init : List Text) (w : Text) {e : Text}
      → Skipped init
      → ParentOf init e
      → ParentOf (init ++ w ∷ []) e
  ParentOf-more init w s p = record {
    parent = p.parent;
    between = p.between ++ p.last ∷ [];
    last = w;
    above =
        ap (λ l. l ++ w ∷ []) p.above ∙ append_assoc p.parent (p.between ++ p.last ∷ []) (w ∷ []);
    skipped = Levels-last Skipped p.parent p.between p.last p.skipped (subst Skipped p.above s);
    inside = p.inside;
    accepted = p.accepted;
    evaluated = p.evaluated;
  }

  parent_loop-ParentOf :
      (fuel : ℕ) (ws : List Text) {e : Text}
      → All IsPlain ws
      → parent_loop os d g fuel (render true ws) ≡ some (ok e)
      → ParentOf ws e
  parent_loop-ParentOf zero ws h q = absurd (fuel_out ws q)
  parent_loop-ParentOf (suc fuel) ws {e} h q = elim (last_cases ws) [
    | inl empty ↦ absurd (
        root_fails fuel
          (subst (λ v. parent_loop os d g (suc fuel) (render true v) ≡ some (ok e)) empty q))
    | inr (init, w, split) ↦
        let plain = IsPlain-init init w (subst (All IsPlain) split h) in
        let q' = subst (λ v. parent_loop os d g (suc fuel) (render true v) ≡ some (ok e)) split q in
        let (inside, found) =
          round-eq-ok _ _ _ (sym (parent_loop_round fuel init w plain.0 plain.1) ∙ q') in
        rw split (elim found [
          | inl here ↦ ParentOf-here init w inside (probe_parent-eq-ok (render true init) here)
          | inr (skipped, later) ↦
              ParentOf-more init w (probe_parent-eq-none init skipped)
                (parent_loop-ParentOf fuel init plain.0 later)
        ])
  ]

  -- The loop of resolveExistingParent ends within the fuel that it is given, at every rooted path.
  pub resolve_existing_parent-ends :
      (path : Text)
      → is_abs path ≡ true
      → parent_loop os d g (length (clean path) + 1) (clean path) ≢ none
  resolve_existing_parent-ends path h =
      let ws = elements path in
      let plain = elements-IsPlain path h in
      rw (clean-is_abs path h) (
        parent_loop-ne-none (length (render true ws) + 1) ws plain
          (omega (arith, length-render ws plain)))

  loop_result :
      (path : Text) {e : Text}
      → resolve_existing_parent os d g path ≡ ok e
      → parent_loop os d g (length (clean path) + 1) (clean path) ≡ some (ok e)
  unfolding resolve_existing_parent
  loop_result path q = ground arith

  pub resolve_existing_parent-ParentOf :
      (path : Text) {e : Text}
      → is_abs path ≡ true
      → resolve_existing_parent os d g path ≡ ok e
      → ParentOf (elements path) e
  resolve_existing_parent-ParentOf path {e} h q =
      parent_loop-ParentOf (length (clean path) + 1) (elements path) (elements-IsPlain path h) (
        subst (λ p. parent_loop os d g (length (clean path) + 1) p ≡ some (ok e))
          (clean-is_abs path h) (loop_result path q))
