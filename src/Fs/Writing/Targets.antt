-- ===== src/Fs/Writing/Targets.antt =====
-- Write and Copy: what they leave alone, and the paths at which they act.
use fileserver_mcp.Base.{
  ℕ, ◌≡◌, refl, ◌∙◌, subst, Text, Bytes, length, Bool, true, false, arith, ◌⊎◌, inl, inr,
  Result-cases, exceeds, Result, ok, err, Error, >>=-eq-ok, fail_if-eq-ok_any,
}
use fileserver_mcp.Os.{Os, FileInfo, OpenMode}
use fileserver_mcp.Security.Guard.{PathGuard, SafePath, resolve_existing, resolve_for_create}
use fileserver_mcp.Security.Lexical.{IsRooted}
use fileserver_mcp.Security.Existing.{
  IsLawful, Confined, fail_if-eq-ok, ok_path, resolve_existing-Confined,
}
use fileserver_mcp.Security.Create.{Vacant, resolve_for_create-Confined}
use fileserver_mcp.Fs.Limits.{LocalFileSystem}
use fileserver_mcp.Fs.Writing.Effects.{
  Opens, open_mode-Opens, Written, write_file-Written, Copied, copy_file-Copied,
}
use fileserver_mcp.Fs.Writing.{
  open_mode, write, write_checks, write_file, write_target, copy, copy_checks, copy_file,
  ensure_target_policy,
}

-- The operation failed and left the disk as it was.
abbrev pub Refused {ℓ} : {A : Type ℓ} {D : Type 0} → D → Result A × D → Type ℓ
Refused d r = (e : Error) × (r ≡ (err e, d))

-- A path that the guard lets be created or replaced.
abbrev pub Creatable : {D : Type 0} → Os D → D → PathGuard → Text → Type 0
Creatable os d g path = Confined os d g path ⊎ Vacant os d g path

-- An existing target is a plain file, and overwriting was asked for.
abbrev pub MayReplace : {D : Type 0} → Os D → D → Text → Bool → Type 0
MayReplace os d path overwrite =
    (info : FileInfo) → os.stat d path ≡ ok info → (info.is_dir ≡ false) × (overwrite ≡ true)

write_target-MayReplace :
    (r : Result FileInfo) (overwrite : Bool)
    → write_target r overwrite ≡ ok tt
    → (info : FileInfo) → r ≡ ok info
    → (info.is_dir ≡ false) × (overwrite ≡ true)
unfolding write_target
write_target-MayReplace (ok i) overwrite h info e = ground arith
write_target-MayReplace (err x) overwrite h info e = ground arith

ensure_target_policy-MayReplace :
    (r : Result FileInfo) (overwrite : Bool)
    → ensure_target_policy r overwrite ≡ ok tt
    → (info : FileInfo) → r ≡ ok info
    → (info.is_dir ≡ false) × (overwrite ≡ true)
unfolding ensure_target_policy
ensure_target_policy-MayReplace (ok i) overwrite h info e = ground arith
ensure_target_policy-MayReplace (err x) overwrite h info e = ground arith

module _ {D : Type 0} {os : Os D} (law : IsLawful os) (d : D) (f : LocalFileSystem)
    (r : IsRooted f.guard) where
  -- Where Write goes on to change the disk.
  pub record Writes (path : Text) (content : Bytes) (overwrite : Bool) : Type 0 where
    pub target : Text
    pub creatable : Creatable os d f.guard target
    pub fits : exceeds (length content) f.limits.max_write_bytes ≡ false
    pub replaces : MayReplace os d target overwrite
    pub acts : write os d f path content overwrite ≡ write_file os d f target content overwrite
    pub mode : OpenMode
    pub opens : Opens overwrite mode
    pub written : Written os d target content mode (write os d f path content overwrite)

  write_checked :
      (path : Text) (content : Bytes) (overwrite : Bool) {s : SafePath}
      → write_checks os d f path content overwrite ≡ ok s
      → Creatable os d f.guard s.path
        × (exceeds (length content) f.limits.max_write_bytes ≡ false)
        × MayReplace os d s.path overwrite
  unfolding write_checks
  write_checked path content overwrite {s} h =
      let (s', resolved, h1) = >>=-eq-ok (resolve_for_create os d f.guard path) _ h in
      let (fits, h2) = fail_if-eq-ok (exceeds (length content) f.limits.max_write_bytes) _ _ h1 in
      let (u, allowed, same) = >>=-eq-ok (write_target (os.stat d s'.path) overwrite) _ h2 in
      subst
        (λ p.
          Creatable os d f.guard p
          × (exceeds (length content) f.limits.max_write_bytes ≡ false)
          × MayReplace os d p overwrite)
        (ok_path same)
        (
          resolve_for_create-Confined law d r path resolved,
          fits,
          λ info. write_target-MayReplace (os.stat d s'.path) overwrite allowed info,
        )

  -- Write refuses and leaves the disk alone; or it acts at one creatable path, with content
  -- within the limit, where no directory stands, and a file only if overwriting was asked for: it
  -- opens that path, emptied or as a new file as the option says, and writes the content to it, and
  -- succeeds exactly if all of it was written. This holds on the lawful operating system and for a guard as NewPathGuard leaves it.
  pub write-Writes :
      (path : Text) (content : Bytes) (overwrite : Bool)
      → Refused d (write os d f path content overwrite) ⊎ Writes path content overwrite
  unfolding write
  write-Writes path content overwrite =
      elim (Result-cases (write_checks os d f path content overwrite)) [
        | inr (e, failed) ↦ inl (e, rw (failed, write) refl)
        | inl (s, passed) ↦
            let c = write_checked path content overwrite passed in
            inr (record {
              target = s.path;
              creatable = c.0;
              fits = c.1;
              replaces = c.2;
              acts = rw (passed, write) refl;
              mode = open_mode overwrite;
              opens = open_mode-Opens overwrite;
              written = rw (passed, write) (write_file-Written os d f s.path content overwrite);
            })
      ]

  -- Where Copy goes on to open its two files.
  pub record Copies (source target : Text) (overwrite : Bool) : Type 0 where
    pub from : Text
    pub to : Text
    pub confined : Confined os d f.guard from
    pub creatable : Creatable os d f.guard to
    pub info : FileInfo
    pub found : os.stat d from ≡ ok info
    pub plain : info.is_dir ≡ false
    pub fits : exceeds info.size f.limits.max_copy_bytes ≡ false
    pub replaces : MayReplace os d to overwrite
    pub acts : copy os d f source target overwrite ≡ copy_file os d f from to info.perm overwrite
    pub mode : OpenMode
    pub opens : Opens overwrite mode
    pub copied : Copied os d from to info.perm mode (copy os d f source target overwrite)

  copy_checked :
      (source target : Text) (overwrite : Bool) (plan : Text × Text × ℕ)
      → copy_checks os d f source target overwrite ≡ ok plan
      → copy os d f source target overwrite ≡ copy_file os d f plan.0 plan.1 plan.2 overwrite
      → Copies source target overwrite
  unfolding copy_checks
  copy_checked source target overwrite plan h acts =
      let (a, resolved, h1) = >>=-eq-ok (resolve_existing os d f.guard source) _ h in
      let (b, created, h2) = >>=-eq-ok (resolve_for_create os d f.guard target) _ h1 in
      let (info, found, h3) = >>=-eq-ok (os.stat d a.path) _ h2 in
      let (plain, h4) = fail_if-eq-ok_any info.is_dir _ _ h3 in
      let (fits, h5) = fail_if-eq-ok_any (exceeds info.size f.limits.max_copy_bytes) _ _ h4 in
      let (u, allowed, same) = >>=-eq-ok (ensure_target_policy (os.stat d b.path) overwrite) _ h5 in
      let whole : copy os d f source target overwrite
          ≡ copy_file os d f a.path b.path info.perm overwrite =
        acts ∙ ground (arith, same) in
      record {
        from = a.path;
        to = b.path;
        confined = resolve_existing-Confined law d r source resolved;
        creatable = resolve_for_create-Confined law d r target created;
        info = info;
        found = found;
        plain = plain;
        fits = fits;
        replaces = λ i. ensure_target_policy-MayReplace (os.stat d b.path) overwrite allowed i;
        acts = whole;
        mode = open_mode overwrite;
        opens = open_mode-Opens overwrite;
        copied = rw whole (copy_file-Copied os d f a.path b.path info.perm overwrite);
      }

  -- Copy refuses and leaves the disk alone; or it copies a confined plain file within the limit
  -- to one creatable path, where no directory stands, and a file only if overwriting was asked
  -- for: it opens the source and then the target, emptied or as a new file as the option says, and
  -- succeeds exactly if io.Copy does. This holds on the lawful operating system and for a guard as NewPathGuard leaves it.
  pub copy-Copies :
      (source target : Text) (overwrite : Bool)
      → Refused d (copy os d f source target overwrite) ⊎ Copies source target overwrite
  unfolding copy
  copy-Copies source target overwrite =
      elim (Result-cases (copy_checks os d f source target overwrite)) [
        | inr (e, failed) ↦ inl (e, rw (failed, copy) refl)
        | inl (plan, passed) ↦
            inr (copy_checked source target overwrite plan passed (rw (passed, copy) refl))
      ]
