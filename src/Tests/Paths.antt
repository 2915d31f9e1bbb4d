-- ===== src/Tests/Paths.antt =====
-- The theorems on the path guard, on the small disk.
use fileserver_mcp.Base.{codes, ◌≡◌, refl, ◌⊎◌, ◌≢◌, ◌+◌, length, none, Text}
use fileserver_mcp.FilePath.{elements, clean}
use fileserver_mcp.FilePath.Relative.{is_prefix}
use fileserver_mcp.Security.Policy.{default_policy, is_inside_root}
use fileserver_mcp.Security.Guard.{SafePath, parent_loop}
use fileserver_mcp.Security.Lexical.{IsRooted}
use fileserver_mcp.Security.Existing.{Confined, resolve_existing-Confined}
use fileserver_mcp.Security.Create.{Vacant, resolve_for_create-Confined}
use fileserver_mcp.Security.Root.{new_path_guard_with_policy-IsRooted}
use fileserver_mcp.Security.Listing.{Exposed, allow_list_entry-Exposed}
use fileserver_mcp.Security.Inside.{is_inside_root-is_prefix}
use fileserver_mcp.Security.Parents.{resolve_existing_parent-ends}
use fileserver_mcp.Tests.Toy.{toy, toy-IsLawful, disk, toy_guard, toy_guard-IsRooted}
use fileserver_mcp.Tests.Toy

abbrev safe : Text → SafePath
safe p = record { path = p }

resolve_existing-Confined_example : Confined toy disk toy_guard (codes "/r/s/b")
unfolding Toy.runs
resolve_existing-Confined_example =
    resolve_existing-Confined toy-IsLawful disk toy_guard-IsRooted (codes "s//./b")
      {s = safe (codes "/r/s/b")} refl

resolve_for_create-Confined_example :
    Confined toy disk toy_guard (codes "/r/s/new") ⊎ Vacant toy disk toy_guard (codes "/r/s/new")
unfolding Toy.runs
resolve_for_create-Confined_example =
    resolve_for_create-Confined toy-IsLawful disk toy_guard-IsRooted (codes "s/new")
      {s = safe (codes "/r/s/new")} refl

new_path_guard_with_policy-IsRooted_example : IsRooted toy_guard
unfolding Toy.runs
new_path_guard_with_policy-IsRooted_example =
    new_path_guard_with_policy-IsRooted toy-IsLawful disk (codes "r/") default_policy
      {g = toy_guard} refl

allow_list_entry-Exposed_example : Exposed toy disk toy_guard (codes "/r") (codes "s")
unfolding Toy.runs
allow_list_entry-Exposed_example =
    allow_list_entry-Exposed toy-IsLawful disk toy_guard-IsRooted (safe (codes "/r")) (codes "s")
      refl refl

is_inside_root-is_prefix_example :
    is_inside_root (codes "/r") (codes "/r/../rs")
    ≡ is_prefix (elements (codes "/r")) (elements (codes "/r/../rs"))
unfolding Toy.runs
is_inside_root-is_prefix_example =
    is_inside_root-is_prefix (codes "/r") (codes "/r/../rs") refl refl

resolve_existing_parent-ends_example :
    parent_loop toy disk toy_guard
      (length (clean (codes "/r/s/new/x")) + 1)
      (clean (codes "/r/s/new/x"))
    ≢ none
unfolding Toy.runs
resolve_existing_parent-ends_example =
    resolve_existing_parent-ends toy disk toy_guard (codes "/r/s/new/x") refl
