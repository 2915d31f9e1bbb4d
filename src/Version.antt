-- ===== src/Version.antt =====
-- internal/version/version.go: the product version, the Windows file version and the build
-- identity; and cmd/versioninfo/main.go's reading of a file version. Times are the standard
-- library's: how RFC 3339 is read and printed is a parameter.
pub mod FileVersion
pub mod Identity
pub mod Named
pub mod Resource
use fileserver_mcp.Base.{
  ℕ, [], ◌∷◌, ◌++◌, List, Text, codes, ◌=ᵗ◌, trim_space, trim_left, is_space, before_first, numeral,
  ◌≡◌, refl, Bool, true, false, not, ◌&&◌, ◌||◌, ◌==◌, leb, ltb, length, is_digit, digits_after,
  decimal, split_on, cut, Option, none, some, if◌then◌else◌,
}
use fileserver_mcp.Config.{parse_bool}

abbrev pub dot : ℕ
dot = b'.'

-- The errors of parseSemVer.
pub data VersionError : Type 0 where
  invalid_semantic_version component_out_of_range invalid_file_version : VersionError

-- `(value, error)` where the error is one of those.
pub data Versioned {ℓ} (Value : Type ℓ) : Type ℓ where
  valid : Value → Versioned Value
  invalid : VersionError → Versioned Value

infixl 5 ◌>>=◌
abbrev pub ◌>>=◌ {ℓ κ} : {V : Type ℓ} {W : Type κ} → Versioned V → (V → Versioned W) → Versioned W
valid value >>= next = next value
invalid e >>= next = invalid e

abbrev pub invalid_if : Bool → VersionError → Versioned (Unit {0})
invalid_if true e = invalid e
invalid_if false e = valid tt

infixl 5 ◌>>◌
abbrev pub ◌>>◌ {ℓ} : {W : Type ℓ} → Versioned (Unit {0}) → Versioned W → Versioned W
check >> next = check >>= λ done. next

unfoldable pub all_digits : Text → Bool
all_digits [] = true
all_digits (c ∷ s) = is_digit c && all_digits s

-- A numeral of several digits that starts with 0.
unfoldable pub has_leading_zero : Text → Bool
has_leading_zero [] = false
has_leading_zero (c ∷ s) = not (s =ᵗ []) && c == b'0'

unfoldable pub valid_core_number : Text → Bool
valid_core_number [] = false
valid_core_number (c ∷ s) = not (has_leading_zero (c ∷ s)) && all_digits (c ∷ s)

unfoldable pub is_identifier_character : ℕ → Bool
is_identifier_character c =
    is_digit c || (leb b'A' c && leb c b'Z') || (leb b'a' c && leb c b'z') || c == b'-'

unfoldable pub all_identifier_characters : Text → Bool
all_identifier_characters [] = true
all_identifier_characters (c ∷ s) = is_identifier_character c && all_identifier_characters s

-- One identifier of validIdentifierList.
unfoldable pub valid_identifier : Bool → Text → Bool
valid_identifier reject_numeric_leading_zero identifier =
    not (identifier =ᵗ [])
    && all_identifier_characters identifier
    && not (reject_numeric_leading_zero && all_digits identifier && has_leading_zero identifier)

unfoldable pub all_identifiers : Bool → List Text → Bool
all_identifiers reject_numeric_leading_zero [] = true
all_identifiers reject_numeric_leading_zero (identifier ∷ identifiers) =
    valid_identifier reject_numeric_leading_zero identifier
    && all_identifiers reject_numeric_leading_zero identifiers

unfoldable pub valid_identifier_list : Text → Bool → Bool
valid_identifier_list value reject_numeric_leading_zero =
    all_identifiers reject_numeric_leading_zero (split_on dot value)

unfoldable pub has_plus : Text → Bool
has_plus [] = false
has_plus (c ∷ s) = c == b'+' || has_plus s

-- strconv.ParseUint(part, 10, 16)
unfoldable pub parse_uint16 : Text → Option ℕ
parse_uint16 [] = none
parse_uint16 (c ∷ s) = elim (digits_after 0 (c ∷ s)) [
  | none ↦ none
  | some n ↦ if leb n 65535 then some n else none
]

-- One of the three parts of the core.
unfoldable pub core_number : Text → Versioned ℕ
core_number part = do
  invalid_if (not (valid_core_number part)) invalid_semantic_version
  elim (parse_uint16 part) [ none ↦ invalid component_out_of_range | some number ↦ valid number ]

unfoldable pub core_numbers : List Text → Versioned (ℕ × ℕ × ℕ)
core_numbers (a ∷ b ∷ c ∷ []) = do
  major ← core_number a
  minor ← core_number b
  patch ← core_number c
  valid (major, minor, patch)
core_numbers _ = invalid invalid_semantic_version

-- What is behind the plus sign may be missing; it is not to be empty, nor to hold another plus.
unfoldable pub bad_build : Option Text → Bool
bad_build none = false
bad_build (some metadata) =
    metadata =ᵗ [] || has_plus metadata || not (valid_identifier_list metadata false)

unfoldable pub bad_prerelease : Option Text → Bool
bad_prerelease none = false
bad_prerelease (some prerelease) = prerelease =ᵗ [] || not (valid_identifier_list prerelease true)

unfoldable pub parse_sem_ver : Text → Versioned (ℕ × ℕ × ℕ)
parse_sem_ver value = do
  invalid_if (not (trim_space value =ᵗ value) || value =ᵗ []) invalid_semantic_version
  let (without_build, build) = cut b'+' value
  invalid_if (bad_build build) invalid_semantic_version
  let (core, prerelease) = cut b'-' without_build
  invalid_if (bad_prerelease prerelease) invalid_semantic_version
  core_numbers (split_on dot core)

-- %d.%d.%d.0
unfoldable pub file_version_text : ℕ × ℕ × ℕ → Text
file_version_text (major, minor, patch) =
    decimal major ++ dot ∷ (decimal minor ++ dot ∷ (decimal patch ++ dot ∷ codes "0"))

unfoldable pub windows_file_version : Text → Versioned Text
windows_file_version product_version = do
  numbers ← parse_sem_ver product_version
  valid (file_version_text numbers)

-- parseFileVersion of cmd/versioninfo.
unfoldable pub file_version_part : Text → Versioned ℕ
file_version_part part = elim (parse_uint16 part) [
  | none ↦ invalid invalid_file_version
  | some number ↦ valid number
]

unfoldable pub file_version_parts : List Text → Versioned (ℕ × ℕ × ℕ × ℕ)
file_version_parts (a ∷ b ∷ c ∷ d ∷ []) = do
  major ← file_version_part a
  minor ← file_version_part b
  patch ← file_version_part c
  build ← file_version_part d
  valid (major, minor, patch, build)
file_version_parts _ = invalid invalid_file_version

unfoldable pub parse_file_version : Text → Versioned (ℕ × ℕ × ℕ × ℕ)
parse_file_version value = file_version_parts (split_on dot value)

-- What a run of the functions above unfolds.
unfoldable pub runs : Unit {0}
unfolding ◌=ᵗ◌ trim_space trim_left is_space split_on before_first cut digits_after numeral decimal
    all_digits has_leading_zero valid_core_number is_identifier_character all_identifier_characters
    valid_identifier all_identifiers valid_identifier_list has_plus parse_uint16 core_number
    core_numbers bad_build bad_prerelease parse_sem_ver file_version_text windows_file_version
    file_version_part file_version_parts parse_file_version
runs = tt

file_version_runs : windows_file_version (codes "1.20.3-rc.1+b.07") ≡ valid (codes "1.20.3.0")
unfolding runs
file_version_runs = refl

leading_zero_runs : windows_file_version (codes "1.02.3") ≡ invalid invalid_semantic_version
unfolding runs
leading_zero_runs = refl

out_of_range_runs : windows_file_version (codes "1.65536.3") ≡ invalid component_out_of_range
unfolding runs
out_of_range_runs = refl
