-- ===== src/Base/Outcome.antt =====
-- Errors as values: the sentinel errors of the two packages, the operating system's errors that
-- the program tells apart, and the result of a call that returns `(value, error)`.
use Prim.Native.Nat.{ℕ}
use mathlib.Core.Path.{◌≡◌, refl}
use mathlib.Core.Bool.{Bool, true, false}
use mathlib.Core.Logic.{◌⊎◌, inl, inr}

-- The sentinel errors of `security`.
pub data GuardError : Type 0 where
  empty_root root_not_directory absolute_path path_traversal outside_root hidden_path_denied
        unc_path_denied symlink_denied reparse_point_denied :
      GuardError

-- The sentinel errors of `fs`.
pub data FsError : Type 0 where
  file_too_large path_is_directory path_is_not_directory file_exists directory_not_empty
        copy_directory_unsupported limit_exceeded not_found same_path move_into_self
        cross_volume_move_unsupported move_type_mismatch move_path_changed :
      FsError

-- What `errors.Is` tells apart in an error of the operating system: os.ErrNotExist, os.ErrExist,
-- os.ErrPermission, EXDEV, io.ErrShortWrite, and any other.
pub data OsError : Type 0 where
  not_exist exist permission cross_device short_write : OsError
  other : ℕ → OsError

pub data Error : Type 0 where
  guard : GuardError → Error
  fs : FsError → Error
  os : OsError → Error

-- errors.Is(err, os.ErrNotExist)
unfoldable pub is_not_exist : Error → Bool
is_not_exist (os not_exist) = true
is_not_exist _ = false

-- errors.Is(err, os.ErrExist)
unfoldable pub is_exist : Error → Bool
is_exist (os exist) = true
is_exist _ = false

-- `value, err`: a call gives one of the two.
pub data Result {ℓ} (Value : Type ℓ) : Type ℓ where
  ok : Value → Result Value
  err : Error → Result Value

-- `if test { return failure }`
abbrev pub fail_if : Bool → Error → Result (Unit {0})
fail_if true failure = err failure
fail_if false failure = ok tt

-- `value, err := call; if err != nil { return err }`, and the same where no value is kept.
infixl 5 ◌>>=◌
abbrev pub ◌>>=◌ {ℓ κ} : {V : Type ℓ} {W : Type κ} → Result V → (V → Result W) → Result W
ok value >>= next = next value
err failure >>= next = err failure

infixl 5 ◌>>◌
abbrev pub ◌>>◌ {ℓ} : {W : Type ℓ} → Result (Unit {0}) → Result W → Result W
check >> next = check >>= λ done. next

-- The call returned no error.
unfoldable pub is_ok {ℓ} : {A : Type ℓ} → Result A → Bool
is_ok (ok a) = true
is_ok (err e) = false

-- Where a chain of calls succeeds, so do its first call and the rest.
pub >>=-eq-ok {ℓ κ} :
    {V : Type ℓ} {W : Type κ} (first : Result V) (next : V → Result W) {w : W}
    → (first >>= next) ≡ ok w
    → (v : V) × (first ≡ ok v) × (next v ≡ ok w)
>>=-eq-ok (err failure) next whole = cc
>>=-eq-ok (ok v) next whole = (v, refl, whole)

-- To split on a result and keep the equation.
pub Result-cases {ℓ} :
    {A : Type ℓ} (m : Result A) → ((a : A) × (m ≡ ok a)) ⊎ ((e : Error) × (m ≡ err e))
Result-cases (ok a) = inl (a, refl)
Result-cases (err e) = inr (e, refl)

-- Inversion of a passed test.
pub fail_if-eq-ok_any {ℓ} :
    {A : Type ℓ} (b : Bool) (e : Error) (k : Result A) {a : A}
    → (fail_if b e >>= λ _. k) ≡ ok a
    → (b ≡ false) × (k ≡ ok a)
fail_if-eq-ok_any true e k h = cc
fail_if-eq-ok_any false e k h = (refl, h)
