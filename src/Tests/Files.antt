-- ===== src/Tests/Files.antt =====
-- The theorems on the file system's operations, on the small disk.
use fileserver_mcp.Base.{
  ℕ, codes, length, exceeds, ◌≡◌, ◌≢◌, ◌↔◌, ◌⊎◌, ap, sym, ◌∙◌, refl, true, false, ok, err, Result,
  none, some, [], ◌∷◌, Text, Bytes, pos, ◌+◌, Option-cases, inl, inr, arith, List,
}
use fileserver_mcp.FilePath.{clean}
use fileserver_mcp.Os.{FileInfo}
use fileserver_mcp.Security.Guard.{SafePath, resolve_existing}
use fileserver_mcp.Security.Policy.{default_policy}
use fileserver_mcp.Fs.Opening.{IsReady, new_local_file_system-IsReady}
use fileserver_mcp.Fs.Limits.{
  Entry, default_limits, validate_limits, new_local_file_system_with_policy_and_limits,
}
use fileserver_mcp.Fs.Writing.{write, copy, delete, walk_within_limit}
use fileserver_mcp.Fs.Writing.Targets.{Refused, Writes, write-Writes, Copies, copy-Copies}
use fileserver_mcp.Fs.Writing.Deleting.{Removes, delete-Removes}
use fileserver_mcp.Fs.Writing.Walk.{Walked, walk_within_limit-eq_ok}
use fileserver_mcp.Fs.Moving.{move, effective_loop, volume_loop}
use fileserver_mcp.Fs.Moving.Targets.{Moves, move-Moves}
use fileserver_mcp.Fs.Moving.Loops.{effective_loop-ends, volume_loop-ends}
use fileserver_mcp.Fs.Reading.Bounds.{SizesAgree, Listing, list-Listing, read-le-max_bytes}
use fileserver_mcp.Protocol.{Json, obj, field, str, int, end}
use fileserver_mcp.Tools.Execute.{read_file, local_file_system}
use fileserver_mcp.Tools.Limits.{Within, read_file-Within}
use fileserver_mcp.Tests.Toy.{
  Disk, Node, folder, document, find, info_of, toy_stat, toy_read, toy, toy-IsLawful, disk,
  toy_guard, toy_guard-IsRooted, served,
}
use fileserver_mcp.Tests.Toy

info_of_result : FileInfo → Result FileInfo → FileInfo
info_of_result i (ok a) = a
info_of_result i (err e) = i

content_of_result : Result Bytes → Bytes
content_of_result (ok a) = a
content_of_result (err e) = []

toy_stat-found :
    (p : Text) (f : ℕ × Node) → find disk p ≡ some f → toy_stat disk p ≡ ok (info_of p f)
unfolding toy_stat
toy_stat-found p f found = rw (found, toy_stat) refl

toy_read-found :
    (p : Text) (n : ℕ) (bytes : Bytes)
    → find disk p ≡ some (n, document bytes)
    → toy_read disk p ≡ ok bytes
unfolding toy_read
toy_read-found p n bytes found = rw (found, toy_read) refl

toy-SizesAgree : SizesAgree toy disk served
unfolding toy_stat toy_read info_of info_of_result content_of_result
toy-SizesAgree p info content hs hr = elim (Option-cases (find disk p)) [
  | inl missing ↦ ground (arith, missing)
  | inr ((n, folder), found) ↦ ground (arith, found)
  | inr ((n, document bytes), found) ↦
      let size =
        ap (λ r. (info_of_result info r).size)
          (sym (toy_stat-found p (n, document bytes) found) ∙ hs) in
      let same = ap content_of_result (sym (toy_read-found p n bytes found) ∙ hr) in
      ap length (sym same) ∙ size
]

write-Writes_example :
    Refused disk (write toy disk served (codes "s/b") (7 ∷ []) true)
    ⊎ Writes toy-IsLawful disk served toy_guard-IsRooted (codes "s/b") (7 ∷ []) true
write-Writes_example =
    write-Writes toy-IsLawful disk served toy_guard-IsRooted (codes "s/b") (7 ∷ []) true

copy-Copies_example :
    Refused disk (copy toy disk served (codes "a") (codes "c") false)
    ⊎ Copies toy-IsLawful disk served toy_guard-IsRooted (codes "a") (codes "c") false
copy-Copies_example =
    copy-Copies toy-IsLawful disk served toy_guard-IsRooted (codes "a") (codes "c") false

delete-Removes_example :
    Refused disk (delete toy disk served (codes "s") true)
    ⊎ Removes toy-IsLawful disk served toy_guard-IsRooted (codes "s") true
delete-Removes_example =
    delete-Removes toy-IsLawful disk served toy_guard-IsRooted (codes "s") true refl

move-Moves_example :
    Refused disk (move toy disk (λ d. d) served (codes "a") (codes "s/a") false)
    ⊎ (Refused disk (move toy disk (λ d. d) served (codes "a") (codes "s/a") false)
        ⊎ Moves toy-IsLawful disk served toy_guard-IsRooted
            (λ d. d)
            (codes "a")
            (codes "s/a")
            false)
move-Moves_example =
    move-Moves toy-IsLawful disk served toy_guard-IsRooted (λ d. d) (codes "a") (codes "s/a") false

walk_within_limit-eq_ok_example :
    (walk_within_limit (codes "/r/s") (pos 1) 0 (toy.walk_dir disk (codes "/r/s")) ≡ ok tt)
    ↔ Walked (codes "/r/s") (pos 1) 0 (toy.walk_dir disk (codes "/r/s"))
walk_within_limit-eq_ok_example =
    walk_within_limit-eq_ok (codes "/r/s") (pos 1) 0 (toy.walk_dir disk (codes "/r/s")) refl

effective_loop-ends_example :
    effective_loop toy disk (length (clean (codes "/r/s/n")) + 1) (clean (codes "/r/s/n")) [] ≢ none
unfolding Toy.runs
effective_loop-ends_example = effective_loop-ends toy disk (codes "/r/s/n") refl

volume_loop-ends_example :
    volume_loop toy disk
      (length (codes "/r/s/n") + 1)
      (info_of (codes "/r") (0, folder))
      (codes "/r/s/n")
    ≢ none
unfolding Toy.runs
volume_loop-ends_example =
    volume_loop-ends toy disk (info_of (codes "/r") (0, folder)) (codes "/r/s/n") refl refl

abbrev safe : Text → SafePath
safe p = record { path = p }

read-le-max_bytes_example :
    (exceeds 3 (pos 3) ≡ false)
    × ((s : SafePath) × (resolve_existing toy disk toy_guard (codes "a") ≡ ok s)
        × (toy.read_file disk s.path ≡ ok (1 ∷ 2 ∷ 3 ∷ [])))
unfolding Toy.runs
read-le-max_bytes_example =
    read-le-max_bytes toy disk served toy-SizesAgree (codes "a") (pos 3) {content = 1 ∷ 2 ∷ 3 ∷ []}
      refl

abbrev entries : List Entry
entries =
    record { name = codes "a"; is_dir = false; size = 3 }
    ∷ record { name = codes "s"; is_dir = true; size = 0 }
    ∷ []

list-Listing_example : Listing toy disk served (codes ".") entries
unfolding Toy.runs
list-Listing_example = list-Listing toy disk served (codes ".") {out = entries} refl refl

abbrev read_arguments : Json
read_arguments =
    obj (field (codes "path") (str (codes "a")) (field (codes "maxBytes") (int (pos 100)) end))

read_file-Within_example :
    Within (pos 3) (read_file (local_file_system toy (λ d. d) served) disk (pos 3) read_arguments).0
read_file-Within_example =
    read_file-Within toy (λ d. d) served disk (pos 3) read_arguments toy-SizesAgree

new_local_file_system-IsReady_example : IsReady default_limits served
unfolding Toy.runs validate_limits new_local_file_system_with_policy_and_limits
new_local_file_system-IsReady_example =
    new_local_file_system-IsReady toy-IsLawful disk (codes "/r") default_policy default_limits
      {f = served} refl
