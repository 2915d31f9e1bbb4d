-- ===== src/Fs/Writing/Deleting.antt =====
-- Delete: what it leaves alone, and what it removes.
use fileserver_mcp.Base.{
  ◌≡◌, refl, Text, [], ◌∷◌, Bool, true, false, arith, ◌⊎◌, inl, inr, Bool-cases, Result-cases,
  is_positive, ok, fs, directory_not_empty, exceeds-zero,
}
use fileserver_mcp.Os.{Os, FileInfo}
use fileserver_mcp.Security.Guard.{resolve_existing}
use fileserver_mcp.Security.Lexical.{IsRooted}
use fileserver_mcp.Security.Existing.{IsLawful, Confined, resolve_existing-Confined}
use fileserver_mcp.Fs.Limits.{LocalFileSystem}
use fileserver_mcp.Fs.Writing.{delete, delete_existing, ensure_recursive_delete_within_limit}
use fileserver_mcp.Fs.Writing.Walk.{Walked, walk_within_limit-eq_ok}
use fileserver_mcp.Fs.Writing.Targets.{Refused}

module _ {D : Type 0} {os : Os D} (law : IsLawful os) (d : D) (f : LocalFileSystem)
    (r : IsRooted f.guard) where
  -- The ways in which Delete removes the path `target`, of which the operating system says `info`.
  pub data Removal (path : Text) (recursive : Bool) (target : Text) (info : FileInfo) : Type 0 where
    one_file :
        info.is_dir ≡ false
        → delete os d f path recursive ≡ os.remove d target
        → Removal path recursive target info
    empty_directory :
        info.is_dir ≡ true
        → recursive ≡ false
        → os.read_dir d target ≡ ok []
        → delete os d f path recursive ≡ os.remove d target
        → Removal path recursive target info
    whole_tree :
        info.is_dir ≡ true
        → recursive ≡ true
        → Walked target f.limits.max_delete_entries 0 (os.walk_dir d target)
        → delete os d f path recursive ≡ os.remove_all d target
        → Removal path recursive target info

  pub record Removes (path : Text) (recursive : Bool) : Type 0 where
    pub target : Text
    pub confined : Confined os d f.guard target
    pub info : FileInfo
    pub found : os.stat d target ≡ ok info
    pub removal : Removal path recursive target info

  module _ (path : Text) (recursive : Bool) (target : Text) (info : FileInfo)
      (acts : delete os d f path recursive ≡ delete_existing os d f target info recursive) where
    Removal-tree :
        info.is_dir ≡ true
        → recursive ≡ true
        → is_positive f.limits.max_delete_entries ≡ true
        → Refused d (delete os d f path recursive) ⊎ Removal path recursive target info
    unfolding delete_existing ensure_recursive_delete_within_limit
    Removal-tree directory wanted positive =
        elim (Result-cases (ensure_recursive_delete_within_limit os d f target)) [
          | inr (e, over) ↦ inl (e, ground arith)
          | inl (u, within) ↦ inr (
              whole_tree directory wanted
                ((walk_within_limit-eq_ok target f.limits.max_delete_entries 0
                    (os.walk_dir d target) (exceeds-zero f.limits.max_delete_entries positive)).0
                  within)
                (ground arith))
        ]

    Removal-empty :
        info.is_dir ≡ true
        → recursive ≡ false
        → Refused d (delete os d f path recursive) ⊎ Removal path recursive target info
    unfolding delete_existing
    Removal-empty directory plain = elim (Result-cases (os.read_dir d target)) [
      | inr (e, failed) ↦ inl (e, ground arith)
      | inl ([], none_there) ↦ inr (empty_directory directory plain none_there (ground arith))
      | inl (entry ∷ entries, some_there) ↦ inl (fs directory_not_empty, ground arith)
    ]

    Removal-cases :
        is_positive f.limits.max_delete_entries ≡ true
        → Refused d (delete os d f path recursive) ⊎ Removal path recursive target info
    unfolding delete_existing
    Removal-cases positive = elim (Bool-cases info.is_dir) [
      | inr file ↦ inr (one_file file (ground arith))
      | inl directory ↦ elim (Bool-cases recursive) [
        | inl wanted ↦ Removal-tree directory wanted positive
        | inr plain ↦ Removal-empty directory plain
      ]
    ]

  -- Where the entry limit is positive, Delete refuses and leaves the disk alone; or it removes
  -- one confined path: a file, an empty directory, or, if asked to, a directory whose walk
  -- meets no error and visits no more paths below it than the limit. This holds on the lawful
  -- operating system and for a guard as NewPathGuard leaves it.
  pub delete-Removes :
      (path : Text) (recursive : Bool)
      → is_positive f.limits.max_delete_entries ≡ true
      → Refused d (delete os d f path recursive) ⊎ Removes path recursive
  unfolding delete
  delete-Removes path recursive positive =
      elim (Result-cases (resolve_existing os d f.guard path)) [
        | inr (e, failed) ↦ inl (e, rw (failed, delete) refl)
        | inl (s, resolved) ↦ elim (Result-cases (os.stat d s.path)) [
          | inr (e, failed) ↦ inl (e, rw (resolved, delete) (rw failed refl))
          | inl (info, found) ↦
              elim (Removal-cases path recursive s.path info (rw (resolved, delete) (rw found refl))
                positive) [
                  | inl refused ↦ inl refused
                  | inr removal ↦ inr (record {
                    target = s.path;
                    confined = resolve_existing-Confined law d r path resolved;
                    info = info;
                    found = found;
                    removal = removal;
                  })
                ]
        ]
      ]
