-- ===== src/Fs/Writing/Effects.antt =====
-- What Write and Copy do to the disk once their checks are passed.
use fileserver_mcp.Base.{
  ℕ, ◌≡◌, ◌↔◌, refl, ap, Text, Bytes, length, Bool, true, false, arith, ◌⊎◌, inl, inr, Result-cases,
  Result, ok, err, Error, ◌==◌, ◌>>=◌,
}
use fileserver_mcp.Os.{Os, OpenMode, trunc, excl}
use fileserver_mcp.Fs.Limits.{LocalFileSystem}
use fileserver_mcp.Fs.Writing.{open_mode, open_failure, write_result, write_file, copy_file}

-- A target is emptied where overwriting is asked for, and must be new otherwise.
abbrev pub Opens : Bool → OpenMode → Type 0
Opens overwrite mode = ((overwrite ≡ true) × (mode ≡ trunc)) ⊎ ((overwrite ≡ false) × (mode ≡ excl))

pub open_mode-Opens : (overwrite : Bool) → Opens overwrite (open_mode overwrite)
unfolding open_mode
open_mode-Opens true = inl (refl, refl)
open_mode-Opens false = inr (refl, refl)

-- The call failed, and the disk is the one after opening the target.
abbrev FailedOpening : {D : Type 0} → Result ℕ × D → Result (Unit {0}) × D → Type 0
FailedOpening opened r = (e : Error) × (opened.0 ≡ err e) × (r ≡ (err (open_failure e), opened.1))

-- The target was opened and got the content, and nothing else was done; the call succeeded exactly
-- if all of it was written.
abbrev pub Written :
    {D : Type 0} → Os D → D → Text → Bytes → OpenMode → Result (Unit {0}) × D → Type 0
Written os d target content mode r =
    FailedOpening (os.open_file d target mode 0o600) r
    ⊎ ((file : ℕ) × ((os.open_file d target mode 0o600).0 ≡ ok file)
        × (r.1 ≡ (os.write (os.open_file d target mode 0o600).1 file content).1)
        × ((r.0 ≡ ok tt) ↔ (
            (os.write (os.open_file d target mode 0o600).1 file content).0 ≡ ok (length content))))

value_or_zero : Result ℕ → ℕ
value_or_zero (ok k) = k
value_or_zero (err e) = 0

value_in : {k n : ℕ} → ok k ≡ ok n → k ≡ n
unfolding value_or_zero
value_in h = ap value_or_zero h

all_written : (k n : ℕ) → k ≡ n → write_result (ok k) n ≡ ok tt
unfolding write_result
all_written k n same =
    let equal : (k == n) ≡ true = ground (arith, same) in rw (write_result, equal) refl

write_result-ok : (m : Result ℕ) (n : ℕ) → (write_result m n ≡ ok tt) ↔ (m ≡ ok n)
unfolding write_result
write_result-ok (err e) n = ((λ h. absurd (ground arith)), (λ h. absurd (ground arith)))
write_result-ok (ok k) n =
    ((λ h. ap (λ x. ok x) (ground arith)), (λ h. all_written k n (value_in h)))

pub write_file-Written :
    {D : Type 0} (os : Os D) (d : D) (f : LocalFileSystem) (target : Text) (content : Bytes)
    (overwrite : Bool)
    → Written os d target content (open_mode overwrite) (write_file os d f target content overwrite)
unfolding write_file
write_file-Written os d f target content overwrite =
    elim (Result-cases (os.open_file d target (open_mode overwrite) 0o600).0) [
      | inr (e, failed) ↦ inl (e, failed, rw (write_file, failed) refl)
      | inl (file, opened) ↦
          let written =
            os.write (os.open_file d target (open_mode overwrite) 0o600).1 file content in
          let done : write_file os d f target content overwrite
              ≡ (write_result written.0 (length content), written.1) =
            rw (write_file, opened) refl in
          inr
            (file, opened, ap (λ r. r.1) done, rw done (write_result-ok written.0 (length content)))
    ]

-- The source was opened, then the target, which got what io.Copy copies, and nothing else was done;
-- the call succeeded exactly if io.Copy did.
abbrev pub Copied :
    {D : Type 0} → Os D → D → Text → Text → ℕ → OpenMode → Result (Unit {0}) × D → Type 0
Copied os d source target perm mode r =
    ((e : Error) × (os.open_read d source ≡ err e) × (r ≡ (err e, d)))
    ⊎ ((from : ℕ) × (os.open_read d source ≡ ok from)
        × (FailedOpening (os.open_file d target mode perm) r
            ⊎ ((to : ℕ) × ((os.open_file d target mode perm).0 ≡ ok to)
                × (r.1 ≡ (os.copy (os.open_file d target mode perm).1 to from).1)
                × ((r.0 ≡ ok tt) ↔ (
                    (n : ℕ) × ((os.copy (os.open_file d target mode perm).1 to from).0 ≡ ok n))))))

abbrev without_count : Result ℕ → Result (Unit {0})
without_count m = do _ ← m; ok tt

copy_result-ok : (m : Result ℕ) → (without_count m ≡ ok tt) ↔ ((n : ℕ) × (m ≡ ok n))
copy_result-ok (err e) = ((λ h. absurd (ground arith)), (λ h. absurd (ground (arith, h.1))))
copy_result-ok (ok k) = ((λ h. (k, refl)), (λ h. refl))

pub copy_file-Copied :
    {D : Type 0} (os : Os D) (d : D) (f : LocalFileSystem) (source target : Text) (perm : ℕ)
    (overwrite : Bool)
    → Copied os d source target perm
        (open_mode overwrite)
        (copy_file os d f source target perm overwrite)
unfolding copy_file
copy_file-Copied os d f source target perm overwrite = elim (Result-cases (os.open_read d source)) [
  | inr (e, failed) ↦ inl (e, failed, rw (copy_file, failed) refl)
  | inl (from, found) ↦ elim (Result-cases (os.open_file d target (open_mode overwrite) perm).0) [
    | inr (e, failed) ↦ inr (from, found, inl (e, failed, rw (copy_file, found, failed) refl))
    | inl (to, opened) ↦
        let copied = os.copy (os.open_file d target (open_mode overwrite) perm).1 to from in
        let done : copy_file os d f source target perm overwrite
            ≡ (without_count copied.0, copied.1) =
          rw (copy_file, found, opened) refl in
        inr (from, found, inr (to, opened, ap (λ r. r.1) done, rw done (copy_result-ok copied.0)))
  ]
]
