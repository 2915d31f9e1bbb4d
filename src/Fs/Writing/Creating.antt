-- ===== src/Fs/Writing/Creating.antt =====
-- Mkdir: the directories that it makes.
use fileserver_mcp.Base.{
  ◌≡◌, ◌↔◌, [], ◌∷◌, ◌++◌, List, Text, Bool, true, false, not, ◌⊎◌, Result, ok, err, Error,
  is_exist, if◌then◌else◌, ◌>>=◌, ◌>>◌, fail_if, fs, path_is_not_directory,
}
use fileserver_mcp.FilePath.{elements, render}
use fileserver_mcp.Os.{Os, FileInfo}
use fileserver_mcp.Security.Lexical.{IsRooted}
use fileserver_mcp.Security.Existing.{IsLawful}
use fileserver_mcp.Fs.Limits.{LocalFileSystem}
use fileserver_mcp.Fs.Writing.{mkdir}
use fileserver_mcp.Fs.Writing.Targets.{Creatable}

module _ {D : Type 0} (os : Os D) (d : D) (parent target : Text) where
  -- The disk after os.MkdirAll of the parent, and after os.Mkdir of the target there.
  abbrev with_parents : D
  with_parents = (os.mkdir_all d parent 0o700).1

  abbrev with_target : D
  with_target = (os.mkdir with_parents target 0o700).1

  -- os.Mkdir failed since something is there, and a directory is there.
  abbrev AlreadyThere : Type 0
  AlreadyThere =
      (e : Error) × ((os.mkdir with_parents target 0o700).0 ≡ err e)
      × (is_exist e ≡ true)
      × ((info : FileInfo) × (os.stat with_target target ≡ ok info) × (info.is_dir ≡ true))

  -- os.MkdirAll of the parent failed, and nothing else was done; or os.Mkdir of the target followed,
  -- which tells whether the target was made, and if not whether it was there before.
  abbrev pub Made : Result Bool × D → Type 0
  Made r =
      ((e : Error) × ((os.mkdir_all d parent 0o700).0 ≡ err e) × (r ≡ (err e, with_parents)))
      ⊎ (((os.mkdir_all d parent 0o700).0 ≡ ok tt)
          × (r.1 ≡ with_target)
          × ((r.0 ≡ ok true) ↔ ((os.mkdir with_parents target 0o700).0 ≡ ok tt))
          × ((r.0 ≡ ok false) ↔ AlreadyThere))

-- What Mkdir answers where os.Mkdir failed.
failed_mkdir : Error → Result FileInfo → Result Bool
failed_mkdir e look =
    if not (is_exist e)
    then err e
    else (do info ← look; fail_if (not info.is_dir) (fs path_is_not_directory); ok false)

module _ {D : Type 0} {os : Os D} (law : IsLawful os) (d : D) (f : LocalFileSystem)
    (r : IsRooted f.guard) where
  -- Where Mkdir goes on to change the disk: the path is a creatable one, and it and the path above
  -- it lie below the root. What it does there is `Made`.
  pub record Makes (path : Text) : Type 0 where
    pub above : List Text
    pub name : Text
    pub target : Text
    pub creatable : Creatable os d f.guard target
    pub below : elements target ≡ (elements f.guard.root ++ above) ++ name ∷ []
    pub made : Made os d (render true (elements f.guard.root ++ above)) target (mkdir os d f path)
