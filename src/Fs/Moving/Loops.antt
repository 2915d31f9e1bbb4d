-- ===== src/Fs/Moving/Loops.antt =====
-- The two loops of Move that climb from a path towards the root end within their fuel.
use fileserver_mcp.Base.{
  ℕ, zero, suc, ◌+◌, ◌<◌, ◌≡◌, ◌≢◌, ap, subst, [], ◌∷◌, ◌++◌, List, length, length-append, Text,
  ◌=ᵗ◌, true, arith, inl, inr, ◌⊎◌, All, none, text_eq_refl,
}
use fileserver_mcp.FilePath.{is_abs, elements, clean, render, dir, base}
use fileserver_mcp.FilePath.Clean.{IsPlain, elements-IsPlain, clean-is_abs}
use fileserver_mcp.FilePath.Parent.{dir-render, dir-render_root, last_cases, length-render}
use fileserver_mcp.Os.{Os, FileInfo}
use fileserver_mcp.Security.Parents.{IsPlain-init}
use fileserver_mcp.Fs.Moving.{effective_loop, volume_loop}

module _ {D : Type 0} (os : Os D) (d : D) where
  effective_loop_next :
      (fuel : ℕ) (current : Text) (missing : List Text)
      → ((dir current =ᵗ current) ≡ true)
        ⊎ (effective_loop os d fuel (dir current) (base current ∷ missing) ≢ none)
      → effective_loop os d (suc fuel) current missing ≢ none
  unfolding effective_loop
  effective_loop_next fuel current missing h = ground arith

  effective_loop-ne-none :
      (fuel : ℕ) (ws missing : List Text)
      → All IsPlain ws
      → length ws < fuel
      → effective_loop os d fuel (render true ws) missing ≢ none
  effective_loop-ne-none zero ws missing h lt = absurd (omega arith)
  effective_loop-ne-none (suc fuel) ws missing h lt = elim (last_cases ws) [
    | inl e ↦ rw e (
        effective_loop_next fuel (render true []) missing
          (inl (rw dir-render_root (text_eq_refl (render true [])))))
    | inr (init, w, e) ↦
        let plain = IsPlain-init init w (subst (All IsPlain) e h) in
        let rest =
          effective_loop-ne-none fuel init (base (render true (init ++ w ∷ [])) ∷ missing) plain.0
            (omega (arith, ap (λ (l : List Text). length l) e, length-append {0} init (w ∷ []))) in
        rw e (
          effective_loop_next fuel (render true (init ++ w ∷ [])) missing
            (inr (rw (dir-render init w plain.0 plain.1) rest)))
  ]

  -- The loop of effectivePathForComparison ends within the fuel that it is given, at every rooted
  -- path.
  pub effective_loop-ends :
      (path : Text)
      → is_abs path ≡ true
      → effective_loop os d (length (clean path) + 1) (clean path) [] ≢ none
  effective_loop-ends path h =
      let plain = elements-IsPlain path h in
      rw (clean-is_abs path h) (
        effective_loop-ne-none (length (render true (elements path)) + 1) (elements path) [] plain
          (omega (arith, length-render (elements path) plain)))

  volume_loop_next :
      (fuel : ℕ) (info : FileInfo) (probe : Text)
      → ((dir probe =ᵗ probe) ≡ true) ⊎ (volume_loop os d fuel info (dir probe) ≢ none)
      → volume_loop os d (suc fuel) info probe ≢ none
  unfolding volume_loop
  volume_loop_next fuel info probe h = ground arith

  volume_loop-ne-none :
      (fuel : ℕ) (info : FileInfo) (ws : List Text)
      → All IsPlain ws
      → length ws < fuel
      → volume_loop os d fuel info (render true ws) ≢ none
  volume_loop-ne-none zero info ws h lt = absurd (omega arith)
  volume_loop-ne-none (suc fuel) info ws h lt = elim (last_cases ws) [
    | inl e ↦ rw e (
        volume_loop_next fuel info (render true [])
          (inl (rw dir-render_root (text_eq_refl (render true [])))))
    | inr (init, w, e) ↦
        let plain = IsPlain-init init w (subst (All IsPlain) e h) in
        let rest =
          volume_loop-ne-none fuel info init plain.0
            (omega (arith, ap (λ (l : List Text). length l) e, length-append {0} init (w ∷ []))) in
        rw e (
          volume_loop_next fuel info (render true (init ++ w ∷ []))
            (inr (rw (dir-render init w plain.0 plain.1) rest)))
  ]

  -- The loop of pathsOnSameVolume ends within the fuel that it is given, at every cleaned rooted path.
  pub volume_loop-ends :
      (info : FileInfo) (path : Text)
      → is_abs path ≡ true
      → clean path ≡ path
      → volume_loop os d (length path + 1) info path ≢ none
  volume_loop-ends info path h c =
      let plain = elements-IsPlain path h in
      subst (λ p. volume_loop os d (length p + 1) info p ≢ none) c
        (rw (clean-is_abs path h) (
          volume_loop-ne-none (length (render true (elements path)) + 1) info (elements path) plain
            (omega (arith, length-render (elements path) plain))))
