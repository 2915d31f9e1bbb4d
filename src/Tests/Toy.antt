-- ===== src/Tests/Toy.antt =====
-- A disk as a list of paths with what stands there, and an operating system over it, without
-- symbolic links.
use fileserver_mcp.Base.{
  or_else, trim_space, is_not_exist, is_space, trim_left, ℕ, zero, suc, [], ◌∷◌, ◌++◌, List, length,
  Text, Bytes, codes, ◌=ᵗ◌, has_prefix, Bool, true, false, not, ◌&&◌, ◌||◌, Option, none, some,
  if◌then◌else◌, Result, ok, err, os, not_exist, exist, other, ◌≡◌, ◌∙◌, arith, Option-cases, inl,
  inr, refl, sym, ap, subst,
}
use fileserver_mcp.FilePath.{dir, base, slash, is_abs}
use fileserver_mcp.Os.{Os, FileInfo, DirEntry, Visit, OpenMode, trunc, excl}
use fileserver_mcp.Security.Policy.{
  default_policy, is_unc_path, validate_path_metadata, eval_effective_path, normalize_user_path,
  is_traversal_path, is_hidden_name, any_hidden, has_hidden_path_component, stays_below, below_root,
  is_inside_root,
}
use fileserver_mcp.Security.Guard.{
  PathGuard, hides_entry, abs, new_path_guard_with_policy, validate_components,
  validate_existing_path_policy, resolve_lexical, resolve_existing, probe_parent, parent_loop,
  resolve_existing_parent, finish_create, resolve_for_create, allow_list_entry,
}
use fileserver_mcp.Fs.Reading.{list_entries, list, read, or_not_found}
use fileserver_mcp.Security.Lexical.{IsRooted}
use fileserver_mcp.Security.Existing.{IsLawful}
use fileserver_mcp.Fs.Limits.{LocalFileSystem, default_limits}
use fileserver_mcp.FilePath

pub data Node : Type 0 where
  folder : Node
  document : Bytes → Node

abbrev pub Disk : Type 0
Disk = List (Text × Node)

unfoldable pub find : Disk → Text → Option (ℕ × Node)
find [] p = none
find ((q, node) ∷ d) p =
    let later = find d p in
    if q =ᵗ p
    then some (0, node)
    else elim later [ none ↦ none | some (n, found) ↦ some (suc n, found) ]

unfoldable pub put : Disk → Text → Node → Disk
put [] p node = (p, node) ∷ []
put ((q, old) ∷ d) p node =
    let later = put d p node in if q =ᵗ p then (q, node) ∷ d else (q, old) ∷ later

unfoldable pub fill : Disk → ℕ → Bytes → Disk
fill [] n content = []
fill ((q, old) ∷ d) zero content = (q, document content) ∷ d
fill ((q, old) ∷ d) (suc n) content = (q, old) ∷ fill d n content

unfoldable pub content_at : Disk → ℕ → Bytes
content_at [] n = []
content_at ((q, folder) ∷ d) zero = []
content_at ((q, document content) ∷ d) zero = content
content_at ((q, old) ∷ d) (suc n) = content_at d n

unfoldable pub without : (Text → Bool) → Disk → Disk
without gone [] = []
without gone ((q, node) ∷ d) =
    let rest = without gone d in if gone q then rest else (q, node) ∷ rest

unfoldable pub info_of : Text → ℕ × Node → FileInfo
info_of p (n, folder) = record {
  name = base p;
  is_dir = true;
  size = 0;
  is_symlink = false;
  perm = 0o700;
  id = n;
  dev = some 1;
}
info_of p (n, document content) = record {
  name = base p;
  is_dir = false;
  size = length content;
  is_symlink = false;
  perm = 0o600;
  id = n;
  dev = some 1;
}

unfoldable pub toy_stat : Disk → Text → Result FileInfo
toy_stat d p = elim (find d p) [ none ↦ err (os not_exist) | some found ↦ ok (info_of p found) ]

unfoldable pub toy_eval : Disk → Text → Result Text
toy_eval d p = elim (find d p) [ none ↦ err (os not_exist) | some found ↦ ok p ]

unfoldable pub toy_read : Disk → Text → Result Bytes
toy_read d p = elim (find d p) [
  | none ↦ err (os not_exist)
  | some (n, node) ↦ elim node [ folder ↦ err (os (other 21)) | document content ↦ ok content ]
]

unfoldable pub children : Disk → Disk → Text → List DirEntry
children all [] p = []
children all ((q, node) ∷ d) p =
    let rest = children all d p in
    let entry : DirEntry = record {
      name = base q;
      is_dir = elim node [ folder ↦ true | document content ↦ false ];
      info = toy_stat all q;
    } in
    if dir q =ᵗ p && not (q =ᵗ p) then entry ∷ rest else rest

unfoldable pub visits : Disk → Text → List Visit
visits [] p = []
visits ((q, node) ∷ d) p =
    let rest = visits d p in
    if q =ᵗ p || has_prefix q (p ++ slash ∷ [])
    then record { path = q; error = none } ∷ rest
    else rest

unfoldable pub toy_open : Disk → Text → Result ℕ
toy_open d p = elim (find d p) [ none ↦ err (os not_exist) | some (n, node) ↦ ok n ]

unfoldable pub toy_open_file : Disk → Text → OpenMode → ℕ → Result ℕ × Disk
toy_open_file d p mode perm = elim (find d p) [
  | none ↦ (toy_open (put d p (document [])) p, put d p (document []))
  | some (n, node) ↦ elim mode [ excl ↦ (err (os exist), d) | trunc ↦ (ok n, fill d n []) ]
]

unfoldable pub toy_rename : Disk → Text → Text → Result (Unit {0}) × Disk
toy_rename d p q = elim (find d p) [
  | none ↦ (err (os not_exist), d)
  | some (n, node) ↦ (ok tt, put (without (λ x. x =ᵗ p) d) q node)
]

abbrev pub toy : Os Disk
toy = record {
  getwd = λ d. ok (codes "/");
  lstat = toy_stat;
  stat = toy_stat;
  eval_symlinks = toy_eval;
  read_dir = λ d p. ok (children d d p);
  read_file = toy_read;
  walk_dir = visits;
  open_read = toy_open;
  open_file = toy_open_file;
  write = λ d n content. (ok (length content), fill d n content);
  copy =
      λ d target source. (ok (length (content_at d source)), fill d target (content_at d source));
  mkdir_all = λ d p perm. (ok tt, put d p folder);
  mkdir = λ d p perm. (ok tt, put d p folder);
  remove = λ d p. (ok tt, without (λ q. q =ᵗ p) d);
  remove_all = λ d p. (ok tt, without (λ q. q =ᵗ p || has_prefix q (p ++ slash ∷ [])) d);
  rename = toy_rename;
}

path_in : Result Text → Text → Text
path_in (ok p) q = p
path_in (err e) q = q

toy_eval-found : (d : Disk) (p : Text) (f : ℕ × Node) → find d p ≡ some f → toy_eval d p ≡ ok p
unfolding toy_eval
toy_eval-found d p f found = rw (found, toy_eval) refl

toy_eval_abs : (d : Disk) (p q : Text) → is_abs p ≡ true → toy_eval d p ≡ ok q → is_abs q ≡ true
unfolding toy_eval path_in
toy_eval_abs d p q h e = elim (Option-cases (find d p)) [
  | inl missing ↦ ground (arith, missing)
  | inr (f, found) ↦
      subst (λ x. is_abs x ≡ true) (ap (λ r. path_in r p) (sym (toy_eval-found d p f found) ∙ e)) h
]

pub toy-IsLawful : IsLawful toy
unfolding FilePath.runs path_in
toy-IsLawful = record {
  eval_abs = toy_eval_abs;
  getwd_abs = λ d wd e. subst (λ x. is_abs x ≡ true) (ap (λ r. path_in r []) e) refl;
}

-- /r with the files a and s/b.
abbrev pub disk : Disk
disk =
    (codes "/r", folder)
    ∷ (codes "/r/a", document (1 ∷ 2 ∷ 3 ∷ []))
    ∷ (codes "/r/s", folder)
    ∷ (codes "/r/s/b", document (4 ∷ []))
    ∷ []

abbrev pub toy_guard : PathGuard
toy_guard = record { root = codes "/r"; effective_root = codes "/r"; policy = default_policy }

pub toy_guard-IsRooted : IsRooted toy_guard
unfolding FilePath.runs
toy_guard-IsRooted = record { root_abs = refl; root_clean = refl; effective_abs = refl }

abbrev pub served : LocalFileSystem
served = record { guard = toy_guard; limits = default_limits }

-- What a run of the path guard on the small disk unfolds.
unfoldable pub runs : Unit {0}
unfolding FilePath.runs trim_left is_space trim_space is_not_exist is_unc_path
    validate_path_metadata eval_effective_path normalize_user_path is_traversal_path is_hidden_name
    any_hidden has_hidden_path_component stays_below below_root is_inside_root hides_entry abs
    new_path_guard_with_policy validate_components validate_existing_path_policy resolve_lexical
    resolve_existing probe_parent parent_loop resolve_existing_parent finish_create
    resolve_for_create allow_list_entry list_entries list read or_not_found or_else find put fill
    content_at without info_of toy_stat toy_eval toy_read children visits toy_open
runs = tt
