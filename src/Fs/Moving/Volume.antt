-- ===== src/Fs/Moving/Volume.antt =====
-- pathsOnSameVolume of internal/fs/move_unix.go: whose devices it compares.
use mathlib.Core.List.{append_assoc, append-nil}
use fileserver_mcp.Base.{
  ℕ, zero, suc, ◌+◌, ◌≡◌, sym, ap, ◌∙◌, subst, [], ◌∷◌, ◌++◌, List, length, Text, ◌=ᵗ◌, Bool, true,
  false, arith, inl, inr, ◌⊎◌, All, Levels, Levels-last, some, Error, is_not_exist, ok, err,
  Result-cases, Bool-cases, text_eq_refl,
}
use fileserver_mcp.FilePath.{is_abs, elements, clean, render, dir}
use fileserver_mcp.FilePath.Clean.{IsPlain, elements-IsPlain, clean-is_abs}
use fileserver_mcp.FilePath.Parent.{dir-render, dir-render_root, last_cases}
use fileserver_mcp.Os.{Os, FileInfo}
use fileserver_mcp.Security.Parents.{IsPlain-init}
use fileserver_mcp.Fs.Moving.{same_volume, volume_loop, paths_on_same_volume}

-- No device is known to differ from the other.
abbrev pub SameDevice : FileInfo → FileInfo → Type 0
SameDevice a b = (m n : ℕ) → a.dev ≡ some m → b.dev ≡ some n → m ≡ n

same_volume-SameDevice : (a b : FileInfo) → same_volume a b ≡ true → SameDevice a b
unfolding same_volume
same_volume-SameDevice a b h m n p q = ground (arith, p, q)

module _ {D : Type 0} (os : Os D) (d : D) where
  -- os.Stat says that the path does not exist.
  abbrev pub IsUnseen : List Text → Type 0
  IsUnseen ws = (e : Error) × (os.stat d (render true ws) ≡ err e) × (is_not_exist e ≡ true)

  -- The nearest path that exists, of the path and those above it, and what os.Stat says of it.
  pub record NearestSeen (ws : List Text) (info : FileInfo) : Type 0 where
    pub there : List Text
    pub gone : List Text
    pub split : ws ≡ there ++ gone
    pub found : os.stat d (render true there) ≡ ok info
    pub unseen : Levels IsUnseen there gone

  here-NearestSeen :
      (ws : List Text) {info : FileInfo}
      → os.stat d (render true ws) ≡ ok info
      → NearestSeen ws info
  here-NearestSeen ws found = record {
    there = ws;
    gone = [];
    split = sym (append-nil ws);
    found = found;
    unseen = tt;
  }

  above-NearestSeen :
      (init : List Text) (w : Text) {info : FileInfo}
      → IsUnseen (init ++ w ∷ [])
      → NearestSeen init info
      → NearestSeen (init ++ w ∷ []) info
  above-NearestSeen init w unseen n =
      let longer : init ++ w ∷ [] ≡ n.there ++ (n.gone ++ w ∷ []) =
        ap (λ l. l ++ w ∷ []) n.split ∙ append_assoc n.there n.gone (w ∷ []) in
      record {
        there = n.there;
        gone = n.gone ++ w ∷ [];
        split = longer;
        found = n.found;
        unseen = Levels-last IsUnseen n.there n.gone w n.unseen (subst IsUnseen longer unseen);
      }

  -- One round of the loop: the path is there, or the loop goes on above it.
  volume_round :
      (fuel : ℕ) (source : FileInfo) (probe : Text) {b : Bool}
      → volume_loop os d (suc fuel) source probe ≡ some (ok b)
      → ((info : FileInfo) × (os.stat d probe ≡ ok info) × (same_volume source info ≡ b))
        ⊎ ((e : Error) × (os.stat d probe ≡ err e)
            × (is_not_exist e ≡ true)
            × ((dir probe =ᵗ probe) ≡ false)
            × (volume_loop os d fuel source (dir probe) ≡ some (ok b)))
  unfolding volume_loop
  volume_round fuel source probe h = elim (Result-cases (os.stat d probe)) [
    | inl (info, found) ↦ inl (info, found, ground (arith, found))
    | inr (e, failed) ↦ elim (Bool-cases (is_not_exist e)) [
      | inr other ↦ absurd (ground (arith, failed, other))
      | inl missing ↦ elim (Bool-cases (dir probe =ᵗ probe)) [
        | inl top ↦ absurd (ground (arith, failed, missing, top))
        | inr below ↦ inr (e, failed, missing, below, ground (arith, failed, missing, below))
      ]
    ]
  ]

  not_top : (dir (render true []) =ᵗ render true []) ≡ false → ⊥
  not_top h = ground (arith, dir-render_root, text_eq_refl (render true []))

  volume_loop-NearestSeen :
      (fuel : ℕ) (source : FileInfo) (ws : List Text) {b : Bool}
      → All IsPlain ws
      → volume_loop os d fuel source (render true ws) ≡ some (ok b)
      → (info : FileInfo) × NearestSeen ws info × (same_volume source info ≡ b)
  unfolding volume_loop
  volume_loop-NearestSeen zero source ws names h = absurd (ground arith)
  volume_loop-NearestSeen (suc fuel) source ws {b} names h =
      elim (volume_round fuel source (render true ws) h) [
        | inl (info, found, same) ↦ (info, here-NearestSeen ws found, same)
        | inr (e, failed, missing, below, next) ↦ elim (last_cases ws) [
          | inl empty ↦
              absurd
                (not_top (subst (λ v. (dir (render true v) =ᵗ render true v) ≡ false) empty below))
          | inr (init, w, split) ↦
              let plain = IsPlain-init init w (subst (All IsPlain) split names) in
              let climbed : dir (render true ws) ≡ render true init =
                ap (λ v. dir (render true v)) split ∙ dir-render init w plain.0 plain.1 in
              let (info, n, same) =
                volume_loop-NearestSeen fuel source init plain.0
                  (subst (λ p. volume_loop os d fuel source p ≡ some (ok b)) climbed next) in
              let unseen = subst IsUnseen split (e, failed, missing) in
              let whole =
                subst (λ v. NearestSeen v info) (sym split) (above-NearestSeen init w unseen n) in
              (info, whole, same)
        ]
      ]

  -- Where pathsOnSameVolume says yes, the source's device is that of the nearest path that exists,
  -- of the target and those above it.
  pub paths_on_same_volume-NearestSeen :
      (source target : Text) {info : FileInfo}
      → is_abs target ≡ true
      → clean target ≡ target
      → os.stat d source ≡ ok info
      → paths_on_same_volume os d source target ≡ ok true
      → (at : FileInfo) × NearestSeen (elements target) at × SameDevice info at
  unfolding paths_on_same_volume
  paths_on_same_volume-NearestSeen source target {info} rooted cleaned found h =
      let probed : volume_loop os d (length target + 1) info target ≡ some (ok true) =
        ground (arith, found) in
      let (at, n, same) =
        volume_loop-NearestSeen (length target + 1) info (elements target)
          (elements-IsPlain target rooted)
          (subst (λ p. volume_loop os d (length target + 1) info p ≡ some (ok true))
            (sym cleaned ∙ clean-is_abs target rooted) probed) in
      (at, n, same_volume-SameDevice info at same)
