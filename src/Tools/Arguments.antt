-- ===== src/Tools/Arguments.antt =====
-- params_validation.go: strict decoding of a tool's arguments, as encoding/json does it for the
-- argument structs of the tools.
use fileserver_mcp.Base.{
  ℕ, ◌+◌, [], ◌∷◌, List, Text, ◌=ᵗ◌, trim_space, map, Bool, true, false, not, ◌&&◌, ◌||◌, ◌==◌, leb,
  ℤ, pos, negsuc, Option, none, some, if◌then◌else◌, exceeds,
}
use fileserver_mcp.Protocol.{Json, null, bool, int, str, obj, Fields, end, field, is_json_null}

-- The case folding by which encoding/json matches a name to an ASCII field name.
unfoldable pub fold : ℕ → ℕ
fold c =
    if leb b'A' c && leb c b'Z'
    then c + 32
    else if c == 0x17f
    then b's'
    else if c == 0x212a
    then b'k'
    else c

unfoldable pub names_field : Text → Text → Bool
names_field key name = map fold key =ᵗ name

unfoldable pub contains_key : Text → Fields → Bool
contains_key key end = false
contains_key key (field name value rest) = name =ᵗ key || contains_key key rest

-- Some value of the decoded map is null.
unfoldable pub any_null : Fields → Bool
any_null end = false
any_null (field name value rest) =
    (is_json_null (some value) && not (contains_key name rest)) || any_null rest

-- DisallowUnknownFields: every name is one of the struct's.
unfoldable pub any_name : Text → List Text → Bool
any_name key [] = false
any_name key (name ∷ names) = names_field key name || any_name key names

unfoldable pub all_known : List Text → Fields → Bool
all_known names end = true
all_known names (field key value rest) = any_name key names && all_known names rest

-- The fields of a struct: each of the object's fields of that name is decoded in turn, from the
-- value `found` so far.
unfoldable pub string_argument : Text → Text → Fields → Option Text
string_argument name found end = some found
string_argument name found (field key value rest) =
    let later = string_argument name found rest in
    if not (names_field key name)
    then later
    else elim value [ str s ↦ string_argument name s rest | null ↦ later | _ ↦ none ]

unfoldable pub string_pointer_argument : Text → Option Text → Fields → Option (Option Text)
string_pointer_argument name found end = some found
string_pointer_argument name found (field key value rest) =
    let later = string_pointer_argument name found rest in
    let cleared = string_pointer_argument name none rest in
    if not (names_field key name) then later else elim value [
      | str s ↦ string_pointer_argument name (some s) rest
      | null ↦ cleared
      | _ ↦ none
    ]

unfoldable pub bool_argument : Text → Bool → Fields → Option Bool
bool_argument name found end = some found
bool_argument name found (field key value rest) =
    let later = bool_argument name found rest in
    if not (names_field key name)
    then later
    else elim value [ bool b ↦ bool_argument name b rest | null ↦ later | _ ↦ none ]

-- The integers of Go's int64.
unfoldable pub in_int64 : ℤ → Bool
in_int64 (pos n) = not (exceeds n (pos 9_223_372_036_854_775_807))
in_int64 (negsuc n) = not (exceeds n (pos 9_223_372_036_854_775_807))

unfoldable pub int64_pointer_argument : Text → Option ℤ → Fields → Option (Option ℤ)
int64_pointer_argument name found end = some found
int64_pointer_argument name found (field key value rest) =
    let later = int64_pointer_argument name found rest in
    let cleared = int64_pointer_argument name none rest in
    if not (names_field key name) then later else elim value [
      | int n ↦
          (let next = int64_pointer_argument name (some n) rest in
            if in_int64 n then next else none)
      | null ↦ cleared
      | _ ↦ none
    ]

-- The checks of decodeStrictArguments that do not depend on the types of the struct's fields: the
-- fields of an object that has no null value and no unknown name.
unfoldable pub strict_fields : List Text → Json → Option Fields
strict_fields names (obj fields) =
    if any_null fields then none else if all_known names fields then some fields else none
strict_fields names _ = none

unfoldable pub is_non_blank : Text → Bool
is_non_blank value = not (trim_space value =ᵗ [])
