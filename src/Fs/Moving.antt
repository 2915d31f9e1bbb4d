-- ===== src/Fs/Moving.antt =====
-- Move of internal/fs/move.go, with the Unix half move_unix.go. Another process may change the disk
-- between the checks and the second validation: `drift` is what it does then.
pub mod Loops
pub mod Targets
pub mod Volume
use fileserver_mcp.Base.{
  ℕ, zero, suc, ◌+◌, Text, codes, length, ◌=ᵗ◌, has_prefix, List, [], ◌∷◌, Bool, true, false, not,
  ◌==◌, ◌&&◌, ◌||◌, if◌then◌else◌, Option, none, some, Result, ok, err, Error, fs, os as os_error,
  cross_device, not_found, same_path, move_into_self, cross_volume_move_unsupported,
  move_type_mismatch, move_path_changed, file_exists, is_not_exist, fail_if, ◌>>=◌, ◌>>◌,
}
use fileserver_mcp.FilePath.{clean, dir, base, join, rel, dot, dotdot}
use fileserver_mcp.Os.{Os, FileInfo, same_file}
use fileserver_mcp.Security.Guard.{SafePath, resolve_existing, resolve_for_create}
use fileserver_mcp.Fs.Limits.{LocalFileSystem}
use fileserver_mcp.Fs.Reading.{or_not_found}
use fileserver_mcp.Fs.Writing.{paths_equivalent}

unfoldable pub is_cross_volume_error : Error → Bool
is_cross_volume_error (os_error cross_device) = true
is_cross_volume_error _ = false

-- The test of isStrictDescendant on the relative path.
unfoldable pub goes_down : Option Text → Bool
goes_down none = false
goes_down (some relative) =
    if relative =ᵗ dot
    then false
    else not (relative =ᵗ dotdot) && not (has_prefix relative (codes "../"))

unfoldable pub is_strict_descendant : Text → Text → Bool
is_strict_descendant parent candidate = goes_down (rel parent candidate)

-- Joins the missing elements to the path, the last one found first.
unfoldable pub join_missing : Text → List Text → Text
join_missing effective [] = effective
join_missing effective (name ∷ names) = join_missing (join effective name) names

-- The comparison of the devices in pathsOnSameVolume.
unfoldable pub same_volume : FileInfo → FileInfo → Bool
same_volume source target = elim source.dev [
  | none ↦ true
  | some a ↦ elim target.dev [ none ↦ true | some b ↦ a == b ]
]

-- What revalidateMoveState makes of the target at the second look.
unfoldable pub revalidate_target : FileInfo → Option FileInfo → Result FileInfo → Result (Unit {0})
revalidate_target source (some expected) (err e) =
    if is_not_exist e then err (fs move_path_changed) else err e
revalidate_target source (some expected) (ok current) = do
  fail_if
      (not (if expected.is_dir then current.is_dir else not current.is_dir)
        || not (same_file expected current))
      (fs move_path_changed)
  fail_if (same_file source current) (fs same_path)
revalidate_target source none (ok current) = err (fs move_path_changed)
revalidate_target source none (err e) = if is_not_exist e then ok tt else err e

-- os.Stat of the target: `none` where it does not exist.
unfoldable pub existing_target : Result FileInfo → Result (Option FileInfo)
existing_target (ok info) = ok (some info)
existing_target (err e) = if is_not_exist e then ok none else err e

-- `targetExists && os.SameFile(sourceInfo, targetInfo)`
unfoldable pub is_same_target : FileInfo → Option FileInfo → Bool
is_same_target source none = false
is_same_target source (some target) = same_file source target

-- What Move has found when its checks are passed.
pub record Plan : Type 0 where
  pub source : Text
  pub target : Text
  pub source_info : FileInfo
  pub target_info : Option FileInfo
  pub on_same_volume : Bool

-- The rules on an existing target.
unfoldable pub target_rules : Plan → Bool → Result (Unit {0})
target_rules plan overwrite = elim plan.target_info [
  | none ↦ ok tt
  | some info ↦ (do
    fail_if (not overwrite) (fs file_exists)
    fail_if (plan.source_info.is_dir || info.is_dir) (fs move_type_mismatch))
]

module _ {D : Type 0} (os : Os D) (d : D) where
  -- The loop of effectivePathForComparison on fuel.
  unfoldable pub effective_loop : ℕ → Text → List Text → Option (Result Text)
  effective_loop zero current missing = none
  effective_loop (suc fuel) current missing =
      let next = effective_loop fuel (dir current) (base current ∷ missing) in
      elim (os.eval_symlinks d current) [
        | ok effective ↦ some (ok (clean (join_missing effective missing)))
        | err e ↦
            if not (is_not_exist e)
            then some (err e)
            else if dir current =ᵗ current
            then some (err e)
            else next
      ]

  -- The fuel is never used up at the paths that Move passes.
  unfoldable pub effective_path_for_comparison : Text → Result Text
  effective_path_for_comparison path =
      elim (effective_loop (length (clean path) + 1) (clean path) []) [
        | some result ↦ result
        | none ↦ err (fs not_found)
      ]

  -- The loop of pathsOnSameVolume on fuel.
  unfoldable pub volume_loop : ℕ → FileInfo → Text → Option (Result Bool)
  volume_loop zero source_info probe = none
  volume_loop (suc fuel) source_info probe =
      let next = volume_loop fuel source_info (dir probe) in
      elim (os.stat d probe) [
        | ok info ↦ some (ok (same_volume source_info info))
        | err e ↦
            if not (is_not_exist e)
            then some (err e)
            else if dir probe =ᵗ probe
            then some (err e)
            else next
      ]

  unfoldable pub paths_on_same_volume : Text → Text → Result Bool
  paths_on_same_volume source target = do
    source_info ← os.stat d source
    elim (volume_loop (length target + 1) source_info target) [
      | some result ↦ result
      | none ↦ err (fs not_found)
    ]

  unfoldable pub revalidate_move_state :
      Text → Text → FileInfo → Option FileInfo → Result (Unit {0})
  revalidate_move_state source target expected_source expected_target = do
    current_source ← or_not_found (os.stat d source)
    fail_if
        (not (if expected_source.is_dir then current_source.is_dir else not current_source.is_dir)
          || not (same_file expected_source current_source))
        (fs move_path_changed)
    revalidate_target current_source expected_target (os.stat d target)

  unfoldable pub rename_on_same_volume : Text → Text → Bool → Result (Unit {0}) × D
  rename_on_same_volume source target on_same_volume =
      if not on_same_volume
      then (err (fs cross_volume_move_unsupported), d)
      else let (renamed, d') = os.rename d source target in
        elim renamed [
          | ok _ ↦ (ok tt, d')
          | err e ↦ (
            if is_cross_volume_error e then err (fs cross_volume_move_unsupported) else err e,
            d',
          )
        ]

  -- The checks of Move up to pathsOnSameVolume.
  unfoldable pub move_checks : LocalFileSystem → Text → Text → Result Plan
  move_checks f source target = do
    source_path ← or_not_found (resolve_existing os d f.guard source)
    target_path ← resolve_for_create os d f.guard target
    fail_if (paths_equivalent source_path.path target_path.path) (fs same_path)
    source_info ← or_not_found (os.stat d source_path.path)
    target_info ← existing_target (os.stat d target_path.path)
    fail_if (is_same_target source_info target_info) (fs same_path)
    effective_source ← os.eval_symlinks d source_path.path
    effective_target ← effective_path_for_comparison target_path.path
    fail_if (paths_equivalent effective_source effective_target) (fs same_path)
    fail_if (source_info.is_dir && is_strict_descendant effective_source effective_target)
        (fs move_into_self)
    on_same_volume ← paths_on_same_volume source_path.path target_path.path
    ok (record {
      source = source_path.path;
      target = target_path.path;
      source_info = source_info;
      target_info = target_info;
      on_same_volume = on_same_volume;
    })

-- The end of Move, at the disk that another process has left.
unfoldable pub validated_rename : {D : Type 0} → Os D → D → Plan → Result (Unit {0}) × D
validated_rename os d plan =
    elim (revalidate_move_state os d plan.source plan.target plan.source_info plan.target_info) [
      | err e ↦ (err e, d)
      | ok _ ↦ rename_on_same_volume os d plan.source plan.target plan.on_same_volume
    ]

unfoldable pub move :
    {D : Type 0} → Os D → D → (D → D) → LocalFileSystem → Text → Text → Bool → Result (Unit {0}) × D
move os d drift f source target overwrite = elim (move_checks os d f source target) [
  | err e ↦ (err e, d)
  | ok plan ↦
      if not plan.on_same_volume
      then rename_on_same_volume os d plan.source plan.target false
      else elim (target_rules plan overwrite) [
        | err e ↦ (err e, d)
        | ok _ ↦ validated_rename os (drift d) plan
      ]
]
