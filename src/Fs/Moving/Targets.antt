-- ===== src/Fs/Moving/Targets.antt =====
-- Move: what it leaves alone, and the rename that it makes.
use fileserver_mcp.Base.{
  ◌≡◌, ◌↔◌, refl, ap, ◌∙◌, subst, Text, Bool, true, false, not, ◌&&◌, ◌||◌, arith, ◌⊎◌, inl, inr,
  Bool-cases, Result-cases, Option, some, none, Error, Result, ok, err, fs,
  cross_volume_move_unsupported, is_not_exist, if◌then◌else◌, >>=-eq-ok, fail_if-eq-ok_any,
}
use fileserver_mcp.Os.{Os, FileInfo, same_file}
use fileserver_mcp.Security.Guard.{resolve_existing, resolve_for_create}
use fileserver_mcp.FilePath.{elements}
use fileserver_mcp.Security.Lexical.{IsRooted, Accepted-is_abs, Accepted-clean}
use fileserver_mcp.Security.Existing.{IsLawful, Confined, resolve_existing-Confined}
use fileserver_mcp.Security.Create.{resolve_for_create-Accepted, resolve_for_create-Confined}
use fileserver_mcp.Fs.Limits.{LocalFileSystem}
use fileserver_mcp.Fs.Reading.{or_not_found}
use fileserver_mcp.Fs.Writing.{paths_equivalent}
use fileserver_mcp.Fs.Writing.Targets.{Refused, Creatable}
use fileserver_mcp.Fs.Moving.Volume.{NearestSeen, SameDevice, paths_on_same_volume-NearestSeen}
use fileserver_mcp.Fs.Moving.{
  Plan, move, move_checks, target_rules, existing_target, is_same_target, is_strict_descendant,
  effective_path_for_comparison, paths_on_same_volume, revalidate_move_state, revalidate_target,
  validated_rename, rename_on_same_volume,
}

pub or_not_found-eq-ok {ℓ} : {A : Type ℓ} (m : Result A) {a : A} → or_not_found m ≡ ok a → m ≡ ok a
unfolding or_not_found
or_not_found-eq-ok (ok a) h = h
or_not_found-eq-ok (err e) h = absurd (ground arith)

-- What stands at the target is still what the checks saw there: nothing, or the same file, which is
-- not the source.
abbrev pub TargetAsSeen : FileInfo → Option FileInfo → Result FileInfo → Type 0
TargetAsSeen source none now = (e : Error) × (now ≡ err e) × (is_not_exist e ≡ true)
TargetAsSeen source (some seen) now =
    (current : FileInfo) × (now ≡ ok current)
    × (seen.is_dir ≡ current.is_dir)
    × (same_file seen current ≡ true)
    × (same_file source current ≡ false)

same_kind : (a b : Bool) → not (if a then b else not b) ≡ false → a ≡ b
same_kind a b h = ground arith

revalidate_target-TargetAsSeen :
    (source : FileInfo) (seen : Option FileInfo) (now : Result FileInfo)
    → revalidate_target source seen now ≡ ok tt
    → TargetAsSeen source seen now
unfolding revalidate_target
revalidate_target-TargetAsSeen source none (ok current) h = cc
revalidate_target-TargetAsSeen source none (err e) h = (e, refl, ground arith)
revalidate_target-TargetAsSeen source (some seen) (err e) h = absurd (ground arith)
revalidate_target-TargetAsSeen source (some seen) (ok current) h =
    (current, refl, same_kind seen.is_dir current.is_dir (ground arith), ground arith, ground arith)

module _ {D : Type 0} (os : Os D) (d : D) (plan : Plan) where
  -- The source is still the same file, of the same kind, and the target is as the checks saw it.
  pub record AsSeen : Type 0 where
    pub current : FileInfo
    pub source_now : os.stat d plan.source ≡ ok current
    pub same_source_kind : plan.source_info.is_dir ≡ current.is_dir
    pub same_source : same_file plan.source_info current ≡ true
    pub target_now : TargetAsSeen current plan.target_info (os.stat d plan.target)

  revalidate_move_state-AsSeen :
      revalidate_move_state os d plan.source plan.target plan.source_info plan.target_info ≡ ok tt
      → AsSeen
  unfolding revalidate_move_state
  revalidate_move_state-AsSeen h =
      let (current, now, h1) = >>=-eq-ok (or_not_found (os.stat d plan.source)) _ h in
      let (same, h2) =
        fail_if-eq-ok_any
          (not (if plan.source_info.is_dir then current.is_dir else not current.is_dir)
            || not (same_file plan.source_info current))
          _ _ h1 in
      record {
        current = current;
        source_now = or_not_found-eq-ok _ now;
        same_source_kind = same_kind plan.source_info.is_dir current.is_dir (ground arith);
        same_source = ground arith;
        target_now =
            revalidate_target-TargetAsSeen current plan.target_info (os.stat d plan.target) h2;
      }

-- An existing target is replaced only if overwriting was asked for, and only a file by a file.
abbrev pub ReplacesFile : Plan → Bool → Type 0
ReplacesFile plan overwrite =
    (info : FileInfo)
    → plan.target_info ≡ some info
    → (overwrite ≡ true) × (plan.source_info.is_dir ≡ false) × (info.is_dir ≡ false)

target_rules-ReplacesFile :
    (plan : Plan) (overwrite : Bool)
    → target_rules plan overwrite ≡ ok tt
    → ReplacesFile plan overwrite
unfolding target_rules
target_rules-ReplacesFile plan overwrite h info e = ground arith

plan_of : Plan → Result Plan → Plan
plan_of default (ok p) = p
plan_of default (err e) = default

ok_plan : {p q : Plan} → ok p ≡ ok q → p ≡ q
unfolding plan_of
ok_plan {p} e = ap (plan_of p) e

rename_on_same_volume-renames :
    {D : Type 0} (os : Os D) (d : D) (plan : Plan)
    → ((rename_on_same_volume os d plan.source plan.target true).1
        ≡ (os.rename d plan.source plan.target).1)
      × (((rename_on_same_volume os d plan.source plan.target true).0 ≡ ok tt)
          ↔ ((os.rename d plan.source plan.target).0 ≡ ok tt))
unfolding rename_on_same_volume
rename_on_same_volume-renames os d plan =
    elim (Result-cases (os.rename d plan.source plan.target).0) [
      | inl (u, moved) ↦ rw moved (refl, ((λ h. refl), (λ h. refl)))
      | inr (e, failed) ↦
          rw failed (refl, ((λ h. absurd (ground arith)), (λ h. absurd (ground arith))))
    ]

module _ {D : Type 0} {os : Os D} (law : IsLawful os) (d : D) (f : LocalFileSystem)
    (r : IsRooted f.guard) where
  -- What the checks of Move find before they let it go on.
  pub record Checked (plan : Plan) : Type 0 where
    pub confined : Confined os d f.guard plan.source
    pub creatable : Creatable os d f.guard plan.target
    pub other_path : paths_equivalent plan.source plan.target ≡ false
    pub found : os.stat d plan.source ≡ ok plan.source_info
    pub looked : existing_target (os.stat d plan.target) ≡ ok plan.target_info
    pub other_file : is_same_target plan.source_info plan.target_info ≡ false
    pub from : Text
    pub to : Text
    pub effective_from : os.eval_symlinks d plan.source ≡ ok from
    pub effective_to : effective_path_for_comparison os d plan.target ≡ ok to
    pub on_volume :
        plan.on_same_volume ≡ true
        → (at : FileInfo) × NearestSeen os d (elements plan.target) at
          × SameDevice plan.source_info at
    pub not_into_self : (plan.source_info.is_dir && is_strict_descendant from to) ≡ false

  move_checks-Checked :
      (source target : Text) {plan : Plan}
      → move_checks os d f source target ≡ ok plan
      → Checked plan
  unfolding move_checks
  move_checks-Checked source target {plan} h =
      let (a, ra, h1) = >>=-eq-ok (or_not_found (resolve_existing os d f.guard source)) _ h in
      let (b, rb, h2) = >>=-eq-ok (resolve_for_create os d f.guard target) _ h1 in
      let (other, h3) = fail_if-eq-ok_any (paths_equivalent a.path b.path) _ _ h2 in
      let (si, found, h4) = >>=-eq-ok (or_not_found (os.stat d a.path)) _ h3 in
      let (ti, looked, h5) = >>=-eq-ok (existing_target (os.stat d b.path)) _ h4 in
      let (differ, h6) = fail_if-eq-ok_any (is_same_target si ti) _ _ h5 in
      let (from, ef, h7) = >>=-eq-ok (os.eval_symlinks d a.path) _ h6 in
      let (to, et, h8) = >>=-eq-ok (effective_path_for_comparison os d b.path) _ h7 in
      let (apart, h9) = fail_if-eq-ok_any (paths_equivalent from to) _ _ h8 in
      let (outside, h10) = fail_if-eq-ok_any (si.is_dir && is_strict_descendant from to) _ _ h9 in
      let accepted = resolve_for_create-Accepted law d r target rb in
      let (v, volume, same) = >>=-eq-ok (paths_on_same_volume os d a.path b.path) _ h10 in
      subst Checked (ok_plan same) (record {
        confined = resolve_existing-Confined law d r source (or_not_found-eq-ok _ ra);
        creatable = resolve_for_create-Confined law d r target rb;
        other_path = other;
        found = or_not_found-eq-ok _ found;
        looked = looked;
        other_file = differ;
        from = from;
        to = to;
        effective_from = ef;
        effective_to = et;
        on_volume = λ together.
            paths_on_same_volume-NearestSeen os d a.path b.path
              (Accepted-is_abs os d f.guard r target b.path accepted)
              (Accepted-clean os d f.guard r target b.path accepted) (or_not_found-eq-ok _ found)
              (volume ∙ ap (λ x. ok x) together);
        not_into_self = outside;
      })

  -- Where Move goes on to rename, at the disk that another process has left.
  pub record Moves (drift : D → D) (source target : Text) (overwrite : Bool) : Type 0 where
    pub plan : Plan
    pub checked : Checked plan
    pub replaces : ReplacesFile plan overwrite
    pub as_seen : AsSeen os (drift d) plan
    pub at : FileInfo
    pub nearest : NearestSeen os d (elements plan.target) at
    pub one_device : SameDevice plan.source_info at
    pub renames :
        (move os d drift f source target overwrite).1
        ≡ (os.rename (drift d) plan.source plan.target).1
    pub succeeds_iff :
        ((move os d drift f source target overwrite).0 ≡ ok tt)
        ↔ ((os.rename (drift d) plan.source plan.target).0 ≡ ok tt)
    pub acts :
        move os d drift f source target overwrite
        ≡ rename_on_same_volume os (drift d) plan.source plan.target true

  move_validated :
      (drift : D → D) (source target : Text) (overwrite : Bool) (plan : Plan)
      → Checked plan
      → ReplacesFile plan overwrite
      → plan.on_same_volume ≡ true
      → move os d drift f source target overwrite ≡ validated_rename os (drift d) plan
      → Refused (drift d) (move os d drift f source target overwrite)
        ⊎ Moves drift source target overwrite
  unfolding validated_rename
  move_validated drift source target overwrite plan checked rules volume acts =
      elim (Result-cases (
        revalidate_move_state os (drift d) plan.source plan.target plan.source_info
          plan.target_info)) [
            | inr (e, changed) ↦ inl (e, acts ∙ rw (changed, validated_rename) refl)
            | inl (u, same) ↦
                let done = acts ∙ rw (same, validated_rename) (rw volume refl) in
                let (at, nearest, device) = checked.on_volume volume in
                let (disk_same, ok_iff) = rename_on_same_volume-renames os (drift d) plan in
                inr (record {
                  at = at;
                  nearest = nearest;
                  one_device = device;
                  renames = ap (λ p. p.1) done ∙ disk_same;
                  succeeds_iff = rw done ok_iff;
                  plan = plan;
                  checked = checked;
                  replaces = rules;
                  as_seen = revalidate_move_state-AsSeen os (drift d) plan same;
                  acts = done;
                })
          ]

  -- Move refuses, and leaves the disk as it was or as another process left it; or it does what
  -- os.Rename does, and succeeds exactly if that does, from a confined path to a creatable one. Then
  -- the source's device is not known to differ from that of the nearest path that exists, of the
  -- target and those above it; the two were different files, no
  -- directory goes into itself, an existing target is replaced as `ReplacesFile` says, and
  -- source and target are still as the checks saw them. This holds on the lawful operating
  -- system and for a guard as NewPathGuard leaves it.
  pub move-Moves :
      (drift : D → D) (source target : Text) (overwrite : Bool)
      → Refused d (move os d drift f source target overwrite)
        ⊎ (Refused (drift d) (move os d drift f source target overwrite)
            ⊎ Moves drift source target overwrite)
  unfolding move rename_on_same_volume
  move-Moves drift source target overwrite =
      elim (Result-cases (move_checks os d f source target)) [
        | inr (e, failed) ↦ inl (e, rw (failed, move) refl)
        | inl (plan, passed) ↦ elim (Bool-cases plan.on_same_volume) [
          | inr apart ↦ inl (fs cross_volume_move_unsupported, rw (passed, move) (rw apart refl))
          | inl together ↦ elim (Result-cases (target_rules plan overwrite)) [
            | inr (e, failed) ↦ inl (e, rw (passed, move) (ground (arith, together, failed)))
            | inl (u, rules) ↦ inr (
                move_validated drift source target overwrite plan
                  (move_checks-Checked source target passed)
                  (target_rules-ReplacesFile plan overwrite rules) together
                  (rw (passed, move) (ground (arith, together, rules))))
          ]
        ]
      ]
