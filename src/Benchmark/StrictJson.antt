-- ===== src/Benchmark/StrictJson.antt =====
-- internal/benchmark/strict_json.go: reading one JSON value whose objects have no repeated field
-- and which has the shape of a Go type. Reading tokens and filling the destination are
-- encoding/json's. `none` is no error.
pub mod Checks
pub mod Shape
pub mod Decoding
use fileserver_mcp.Base.{
  ℕ, ◌+◌, [], ◌∷◌, ◌++◌, List, Text, Bytes, codes, ◌=ᵗ◌, Bool, true, false, not, ◌&&◌, ◌||◌, ◌==◌,
  leb, ltb, decimal, split_on, Option, none, some, or_else, if◌then◌else◌,
}
use fileserver_mcp.Protocol.{
  Json, null, real, bool, int, str, arr, obj, Items, nil, cons, Fields, end, field, get_field,
}

-- A Go type, as far as validateJSONShape tells types apart. A struct's fields stand in their order,
-- each with its name and its json tag.
mutual
  pub data GoType : Type 0 where
    time_type string_type bool_type number_type interface_type unsupported_type : GoType
    pointer_to slice_of map_of : GoType → GoType
    struct_of : GoFields → GoType

  pub data GoFields : Type 0 where
    no_more : GoFields
    member : Text → Text → GoType → GoFields → GoFields

pub data Complaint : Type 0 where
  duplicate_field null_not_allowed expected_date_time expected_object missing_field unknown_field
        expected_array expected_string expected_boolean expected_number unsupported :
      Complaint

-- An error: where it is, and what it is.
pub record ShapeError : Type 0 where
  pub path : Text
  pub complaint : Complaint

abbrev pub at : Text → Complaint → Option ShapeError
at path complaint = some (record { path = path; complaint = complaint })

-- jsonFieldName
unfoldable pub tag_name : Text → List Text → Text
tag_name go_name [] = go_name
tag_name go_name (name ∷ options) = if name =ᵗ [] then go_name else name

unfoldable pub tag_options : List Text → List Text
tag_options [] = []
tag_options (name ∷ options) = options

unfoldable pub is_one_of : Text → List Text → Bool
is_one_of s [] = false
is_one_of s (t ∷ ts) = t =ᵗ s || is_one_of s ts

unfoldable pub json_field_name : Text → Text → Text × List Text
json_field_name go_name tag =
    let parts = split_on b',' tag in (tag_name go_name parts, tag_options parts)

-- The test of the loop over a struct's fields that leaves a field out.
unfoldable pub is_skipped : Text → Bool
is_skipped name = name =ᵗ codes "-" || name =ᵗ []

-- The keys of `fields`.
unfoldable pub member_names : GoFields → List Text
member_names no_more = []
member_names (member go_name tag type rest) =
    let (name, options) = json_field_name go_name tag in
    let later = member_names rest in if is_skipped name then later else name ∷ later

unfoldable pub keys : Fields → List Text
keys end = []
keys (field name value rest) = name ∷ keys rest

-- `<=` of Go strings: the order of their code points is that of their bytes.
unfoldable pub text_leb : Text → Text → Bool
text_leb [] t = true
text_leb (c ∷ s) [] = false
text_leb (c ∷ s) (d ∷ t) = ltb c d || (c == d && text_leb s t)

-- sort.Strings, by insertion.
unfoldable pub insert_text : Text → List Text → List Text
insert_text s [] = s ∷ []
insert_text s (t ∷ ts) =
    let rest = insert_text s ts in if text_leb s t then s ∷ t ∷ ts else t ∷ rest

unfoldable pub sort_texts : List Text → List Text
sort_texts [] = []
sort_texts (s ∷ ts) = insert_text s (sort_texts ts)

unfoldable pub not_among : List Text → List Text → List Text
not_among names [] = []
not_among names (key ∷ ks) =
    let later = not_among names ks in if is_one_of key names then later else key ∷ later

unfoldable pub is_path_character : ℕ → Bool
is_path_character c =
    c == b'_'
    || c == b'-'
    || (leb b'a' c && leb c b'z')
    || (leb b'A' c && leb c b'Z')
    || (leb b'0' c && leb c b'9')

unfoldable pub all_path_characters : Text → Bool
all_path_characters [] = true
all_path_characters (c ∷ s) = is_path_character c && all_path_characters s

-- `marshal` is json.Marshal of a string.
module _ (marshal : Text → Text) where
  unfoldable pub append_json_path : Text → Text → Text
  append_json_path path name =
      if not (name =ᵗ []) && all_path_characters name
      then path ++ codes "." ++ name
      else path ++ codes "[" ++ marshal name ++ codes "]"

  abbrev pub index_path : Text → ℕ → Text
  index_path path index = path ++ codes "[" ++ decimal index ++ codes "]"

  -- The loop over an array's elements.
  unfoldable pub check_items :
      (Json → Text → Option ShapeError) → Items → Text → ℕ → Option ShapeError
  check_items check nil path index = none
  check_items check (cons value rest) path index =
      or_else (check value (index_path path index)) (check_items check rest path (index + 1))

  -- The loop over a map's sorted keys.
  unfoldable pub check_keys :
      (Json → Text → Option ShapeError) → Fields → List Text → Text → Option ShapeError
  check_keys check object [] path = none
  check_keys check object (key ∷ ks) path =
      let later = check_keys check object ks path in
      elim (get_field key object) [
        | none ↦ at (append_json_path path key) null_not_allowed
        | some value ↦ or_else (check value (append_json_path path key)) later
      ]

  -- The test of a struct's field that is not skipped.
  unfoldable pub check_member :
      (Json → Text → Option ShapeError) → Option Json → Bool → Text → Option ShapeError
  check_member check none omit_empty path = if omit_empty then none else at path missing_field
  check_member check (some value) omit_empty path = check value path

  -- The first of the unknown fields, sorted.
  unfoldable pub check_unknown : List Text → Text → Option ShapeError
  check_unknown [] path = none
  check_unknown (key ∷ ks) path = at (append_json_path path key) unknown_field

  unfoldable mutual
    unfolding append_json_path check_items check_keys check_member check_unknown

    -- validateJSONShape
    pub validate_json_shape : GoType → Json → Text → Option ShapeError
    validate_json_shape type null path = at path null_not_allowed
    validate_json_shape (pointer_to type) value path = validate_json_shape type value path
    validate_json_shape time_type (str s) path = none
    validate_json_shape time_type value path = at path expected_date_time
    validate_json_shape (struct_of members) (obj object) path =
        or_else (check_members members object path)
          (check_unknown (sort_texts (not_among (member_names members) (keys object))) path)
    validate_json_shape (struct_of members) value path = at path expected_object
    validate_json_shape (slice_of type) (arr items) path =
        check_items (validate_json_shape type) items path 0
    validate_json_shape (slice_of type) value path = at path expected_array
    validate_json_shape (map_of type) (obj object) path =
        check_keys (validate_json_shape type) object (sort_texts (keys object)) path
    validate_json_shape (map_of type) value path = at path expected_object
    validate_json_shape string_type (str s) path = none
    validate_json_shape string_type value path = at path expected_string
    validate_json_shape bool_type (bool b) path = none
    validate_json_shape bool_type value path = at path expected_boolean
    validate_json_shape number_type (int n) path = none
    validate_json_shape number_type real path = none
    validate_json_shape number_type value path = at path expected_number
    validate_json_shape interface_type value path = none
    validate_json_shape unsupported_type value path = at path unsupported

    -- Its loop over a struct's fields.
    pub check_members : GoFields → Fields → Text → Option ShapeError
    check_members no_more object path = none
    check_members (member go_name tag type rest) object path =
        let (name, options) = json_field_name go_name tag in
        let later = check_members rest object path in
        if is_skipped name
        then later
        else or_else
            (check_member (validate_json_shape type) (get_field name object)
              (is_one_of (codes "omitempty") options) (append_json_path path name))
            later
