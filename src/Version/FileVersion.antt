-- ===== src/Version/FileVersion.antt =====
-- version.go, WindowsFileVersion, and parseFileVersion of cmd/versioninfo, which reads what it
-- makes.
use fileserver_mcp.Base.{
  ℕ, ◌≤◌, ◌+◌, ◌%◌, numeral, [], ◌∷◌, ◌++◌, List, Text, codes, Bool, true, false, not, ◌||◌,
  Bool-cases, leb, ◌=ᵗ◌, some, Option-cases, digits_after, decimal, decimal-Without,
  digits_after-decimal, decimal-one_digit, decimal-digits_after, split_on, join_on, split_on-append,
  split_on_word, join_on-split_on, cut, trim_space, ◌≡◌, refl, sym, ap, ◌∙◌, subst, inl, inr, arith,
}
use mathlib.Core.List.{append_assoc}
use fileserver_mcp.Version.{
  dot, Versioned, valid, invalid, ◌>>=◌, VersionError, invalid_if, has_leading_zero,
  valid_core_number, parse_uint16, core_number, core_numbers, bad_build, bad_prerelease,
  parse_sem_ver, file_version_text, windows_file_version, file_version_part, file_version_parts,
  parse_file_version,
}

>>=-eq-valid {ℓ κ} :
    {V : Type ℓ} {W : Type κ} (first : Versioned V) (next : V → Versioned W) {w : W}
    → (first >>= next) ≡ valid w
    → (v : V) × (first ≡ valid v) × (next v ≡ valid w)
>>=-eq-valid (invalid e) next whole = cc
>>=-eq-valid (valid v) next whole = (v, refl, whole)

invalid_if-eq-valid {ℓ} :
    {A : Type ℓ} (b : Bool) (e : VersionError) (k : Versioned A) {a : A}
    → (invalid_if b e >>= λ _. k) ≡ valid a
    → (b ≡ false) × (k ≡ valid a)
invalid_if-eq-valid true e k h = cc
invalid_if-eq-valid false e k h = (refl, h)

parse_uint16_snoc :
    (s : Text) (c n : ℕ)
    → digits_after 0 (s ++ c ∷ []) ≡ some n
    → n ≤ 65535
    → parse_uint16 (s ++ c ∷ []) ≡ some n
unfolding parse_uint16
parse_uint16_snoc [] c n h small = rw (parse_uint16, h) (ground arith)
parse_uint16_snoc (b ∷ s) c n h small = rw (parse_uint16, h) (ground arith)

parse_uint16-decimal : (n : ℕ) → n ≤ 65535 → parse_uint16 (decimal n) ≡ some n
unfolding decimal numeral
parse_uint16-decimal n h = parse_uint16_snoc _ (b'0' + n % 10) n (digits_after-decimal n) h

parse_uint16-some :
    (c n : ℕ) (s : Text)
    → parse_uint16 (c ∷ s) ≡ some n
    → (digits_after 0 (c ∷ s) ≡ some n) × (n ≤ 65535)
unfolding parse_uint16
parse_uint16-some c n s h = elim (Option-cases (digits_after 0 (c ∷ s))) [
  | inl bad ↦ ground (arith, bad)
  | inr (k, good) ↦ elim (Bool-cases (leb k 65535)) [
    | inl small ↦ (good ∙ ground (arith, good), ground (arith, good))
    | inr large ↦ ground (arith, good)
  ]
]

-- A numeral without a leading zero is the numeral of its number, which is below 2^16.
parse_uint16-core :
    (part : Text) (n : ℕ)
    → valid_core_number part ≡ true
    → parse_uint16 part ≡ some n
    → (decimal n ≡ part) × (n ≤ 65535)
unfolding parse_uint16 valid_core_number has_leading_zero ◌=ᵗ◌
parse_uint16-core [] n plain h = cc
parse_uint16-core (c ∷ []) n plain h =
    let (read, small) = parse_uint16-some c n [] h in (decimal-one_digit c n read, small)
parse_uint16-core (c ∷ d ∷ s) n plain h =
    let (read, small) = parse_uint16-some c n (d ∷ s) h in
    (decimal-digits_after c d n s (ground (arith, plain)) read, small)

core_number-decimal :
    (part : Text) {n : ℕ} → core_number part ≡ valid n → (decimal n ≡ part) × (n ≤ 65535)
unfolding core_number
core_number-decimal part {n} h =
    let (plain, h1) = invalid_if-eq-valid (not (valid_core_number part)) _ _ h in
    elim (Option-cases (parse_uint16 part)) [
      | inl bad ↦ ground (arith, bad)
      | inr (k, good) ↦
          parse_uint16-core part n (ground (arith, plain)) (good ∙ ground (arith, good))
    ]

-- The core of a version: what stands before the build metadata and the prerelease.
abbrev pub core_text : Text → Text
core_text value = (cut b'-' (cut b'+' value).0).0

AreSmall : ℕ × ℕ × ℕ → Type 0
AreSmall (major, minor, patch) = (major ≤ 65535) × (minor ≤ 65535) × (patch ≤ 65535)

dotted : ℕ × ℕ × ℕ → Text
dotted (major, minor, patch) = decimal major ++ dot ∷ (decimal minor ++ dot ∷ decimal patch)

value_in : {V : Type 0} → V → Versioned V → V
value_in default (valid v) = v
value_in default (invalid e) = default

-- Three parts that are numbers are the numerals of these numbers.
core_numbers-dotted :
    (parts : List Text) (numbers : ℕ × ℕ × ℕ)
    → core_numbers parts ≡ valid numbers
    → (join_on dot parts ≡ dotted numbers) × AreSmall numbers
unfolding core_numbers dotted AreSmall join_on value_in
core_numbers-dotted [] numbers h = cc
core_numbers-dotted (a ∷ []) numbers h = cc
core_numbers-dotted (a ∷ b ∷ []) numbers h = cc
core_numbers-dotted (a ∷ b ∷ c ∷ []) numbers h =
    let (major, e1, h1) = >>=-eq-valid (core_number a) _ h in
    let (minor, e2, h2) = >>=-eq-valid (core_number b) _ h1 in
    let (patch, e3, h3) = >>=-eq-valid (core_number c) _ h2 in
    let (first, small1) = core_number-decimal a e1 in
    let (second, small2) = core_number-decimal b e2 in
    let (third, small3) = core_number-decimal c e3 in
    let same : (major, minor, patch) ≡ numbers = ap (value_in numbers) h3 in
    subst (λ ns. (join_on dot (a ∷ b ∷ c ∷ []) ≡ dotted ns) × AreSmall ns) same
      (rw (first, second, third) refl, (small1, small2, small3))
core_numbers-dotted (a ∷ b ∷ c ∷ d ∷ rest) numbers h = cc

split_on-file_version_text :
    (major minor patch : ℕ)
    → split_on dot (file_version_text (major, minor, patch))
      ≡ decimal major ∷ decimal minor ∷ decimal patch ∷ codes "0" ∷ []
unfolding file_version_text
split_on-file_version_text major minor patch =
    rw
      (
        split_on-append dot (decimal major) _ (decimal-Without dot major (omega arith)),
        split_on-append dot (decimal minor) _ (decimal-Without dot minor (omega arith)),
        split_on-append dot (decimal patch) _ (decimal-Without dot patch (omega arith)),
        split_on_word dot (codes "0") (refl, tt),
      )
      refl

file_version_part-decimal : (n : ℕ) → n ≤ 65535 → file_version_part (decimal n) ≡ valid n
unfolding file_version_part
file_version_part-decimal n h = rw (file_version_part, parse_uint16-decimal n h) refl

file_version_part-zero : file_version_part (codes "0") ≡ valid 0
unfolding file_version_part parse_uint16 digits_after
file_version_part-zero = refl

parse_file_version-text :
    (major minor patch : ℕ)
    → AreSmall (major, minor, patch)
    → parse_file_version (file_version_text (major, minor, patch)) ≡ valid (major, minor, patch, 0)
unfolding parse_file_version file_version_parts AreSmall
parse_file_version-text major minor patch (h1, h2, h3) =
    rw
      (
        split_on-file_version_text major minor patch,
        file_version_part-decimal major h1,
        file_version_part-decimal minor h2,
        file_version_part-decimal patch h3,
        file_version_part-zero,
      )
      refl

-- What WindowsFileVersion makes of a product version that parseSemVer accepts.
pub record Mapped (value out : Text) : Type 0 where
  pub major : ℕ
  pub minor : ℕ
  pub patch : ℕ
  pub small : (major ≤ 65535) × (minor ≤ 65535) × (patch ≤ 65535)
  pub parsed : parse_sem_ver value ≡ valid (major, minor, patch)
  pub keeps_core : out ≡ core_text value ++ codes ".0"
  pub reads_back : parse_file_version out ≡ valid (major, minor, patch, 0)

parse_sem_ver-core :
    (value : Text) {numbers : ℕ × ℕ × ℕ}
    → parse_sem_ver value ≡ valid numbers
    → core_numbers (split_on dot (core_text value)) ≡ valid numbers
unfolding parse_sem_ver
parse_sem_ver-core value h =
    let (trimmed, h1) =
      invalid_if-eq-valid (not (trim_space value =ᵗ value) || value =ᵗ []) _ _ h in
    let (build, h2) = invalid_if-eq-valid (bad_build (cut b'+' value).1) _ _ h1 in
    (invalid_if-eq-valid (bad_prerelease (cut b'-' (cut b'+' value).0).1) _ _ h2).1

file_version_text-dotted :
    (numbers : ℕ × ℕ × ℕ) → file_version_text numbers ≡ dotted numbers ++ codes ".0"
unfolding file_version_text dotted
file_version_text-dotted (major, minor, patch) =
    rw
      (
        append_assoc (decimal major) (dot ∷ (decimal minor ++ dot ∷ decimal patch)) (codes ".0"),
        append_assoc (decimal minor) (dot ∷ decimal patch) (codes ".0"),
      )
      refl

-- A product version that WindowsFileVersion maps has three numbers below 2^16; the file version is
-- the version's own core, with .0 behind it, and cmd/versioninfo reads it as these numbers and 0.
pub windows_file_version-Mapped :
    (value : Text) {out : Text} → windows_file_version value ≡ valid out → Mapped value out
unfolding windows_file_version value_in AreSmall
windows_file_version-Mapped value {out} h =
    let ((major, minor, patch), parsed, made) = >>=-eq-valid (parse_sem_ver value) _ h in
    let same : file_version_text (major, minor, patch) ≡ out = ap (value_in out) made in
    let (joined, small) =
      core_numbers-dotted (split_on dot (core_text value)) (major, minor, patch)
        (parse_sem_ver-core value parsed) in
    record {
      major = major;
      minor = minor;
      patch = patch;
      small = small;
      parsed = parsed;
      keeps_core =
          sym same
          ∙ file_version_text-dotted (major, minor, patch)
          ∙ ap (λ t. t ++ codes ".0") (sym joined ∙ join_on-split_on dot (core_text value));
      reads_back =
          ap parse_file_version (sym same) ∙ parse_file_version-text major minor patch small;
    }
