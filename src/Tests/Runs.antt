-- ===== src/Tests/Runs.antt =====
-- Runs of the file system's operations on the small disk: what they do where they are accepted, and
-- the errors where they are not.
use fileserver_mcp.Base.{
  codes, ◌≡◌, refl, true, false, ok, err, [], ◌∷◌, fs, guard, file_exists, path_traversal,
  directory_not_empty, move_into_self, List, Text,
}
use fileserver_mcp.Fs.Writing.{
  open_mode, write_target, open_failure, write_result, ensure_target_policy, walk_within_limit,
  write_checks, write_file, write, make_directory, mkdir, copy_checks, copy_file, copy,
  ensure_recursive_delete_within_limit, delete_existing, delete, paths_equivalent,
}
use fileserver_mcp.Fs.Moving.{
  is_cross_volume_error, goes_down, is_strict_descendant, join_missing, same_volume,
  revalidate_target, existing_target, is_same_target, target_rules, effective_loop,
  effective_path_for_comparison, volume_loop, paths_on_same_volume, revalidate_move_state,
  rename_on_same_volume, move_checks, validated_rename, move,
}
use fileserver_mcp.Os.{same_file}
use fileserver_mcp.Tests.Toy.{
  Disk, Node, folder, document, toy, toy_open_file, toy_rename, disk, served,
}
use fileserver_mcp.Tests.Toy

-- What the runs below unfold.
all : Unit {0}
unfolding Toy.runs toy_open_file toy_rename open_mode write_target open_failure write_result
    ensure_target_policy walk_within_limit write_checks write_file write make_directory mkdir
    copy_checks copy_file copy ensure_recursive_delete_within_limit delete_existing delete
    paths_equivalent is_cross_volume_error goes_down is_strict_descendant join_missing same_volume
    revalidate_target existing_target is_same_target target_rules effective_loop
    effective_path_for_comparison volume_loop paths_on_same_volume revalidate_move_state
    rename_on_same_volume move_checks validated_rename move same_file
all = tt

abbrev with_a : List (Text × Node) → Disk
with_a rest = (codes "/r", folder) ∷ (codes "/r/a", document (1 ∷ 2 ∷ 3 ∷ [])) ∷ rest

write_replaces :
    write toy disk served (codes "s/b") (7 ∷ []) true
    ≡ (ok tt, with_a ((codes "/r/s", folder) ∷ (codes "/r/s/b", document (7 ∷ [])) ∷ []))
unfolding all
write_replaces = refl

write_keeps : write toy disk served (codes "s/b") (7 ∷ []) false ≡ (err (fs file_exists), disk)
unfolding all
write_keeps = refl

write_outside :
    write toy disk served (codes "../b") (7 ∷ []) true ≡ (err (guard path_traversal), disk)
unfolding all
write_outside = refl

delete_tree : delete toy disk served (codes "s") true ≡ (ok tt, with_a [])
unfolding all
delete_tree = refl

delete_full : delete toy disk served (codes "s") false ≡ (err (fs directory_not_empty), disk)
unfolding all
delete_full = refl

copy_new : copy toy disk served (codes "s/b") (codes "c") false ≡ (
  ok tt,
  with_a (
      (codes "/r/s", folder)
      ∷ (codes "/r/s/b", document (4 ∷ []))
      ∷ (codes "/r/c", document (4 ∷ []))
      ∷ []),
)
unfolding all
copy_new = refl

move_new :
    move toy disk (λ d. d) served (codes "s/b") (codes "c") false
    ≡ (ok tt, with_a ((codes "/r/s", folder) ∷ (codes "/r/c", document (4 ∷ [])) ∷ []))
unfolding all
move_new = refl

move_down :
    move toy disk (λ d. d) served (codes "s") (codes "s/s") false ≡ (err (fs move_into_self), disk)
unfolding all
move_down = refl
