-- ===== src/Benchmark/StrictJson/Shape.antt =====
-- strict_json.go: the shape that a Go type asks of a JSON value, and that validateJSONShape accepts
-- just the values of that shape.
use fileserver_mcp.Base.{
  Text, codes, All, true, Bool-cases, Option, none, some, if◌then◌else◌, ◌≡◌, ◌↔◌, inl, inr, refl,
}
use fileserver_mcp.Protocol.{Json, null, real, bool, int, str, arr, obj, Fields, get_field}
use fileserver_mcp.Benchmark.StrictJson.{
  GoType, time_type, string_type, bool_type, number_type, interface_type, unsupported_type,
  pointer_to, slice_of, map_of, struct_of, GoFields, no_more, member, ShapeError, json_field_name,
  is_skipped, is_one_of, member_names, keys, sort_texts, not_among, append_json_path, check_unknown,
  check_member, validate_json_shape, check_members,
}
use fileserver_mcp.Benchmark.StrictJson.Checks.{
  AllItems, HasValue, MemberFits, or_else-eq-none, check_unknown-sort_texts, check_items-none,
  check_keys-sort_texts, check_member-none,
}

mutual
  -- A value of the type: never null; a struct's object has its fields, apart from those with
  -- omitempty, and no others.
  pub HasShape : GoType → Json → Type 0
  HasShape type null = ⊥
  HasShape (pointer_to type) value = HasShape type value
  HasShape time_type (str s) = Unit
  HasShape time_type value = ⊥
  HasShape (struct_of members) (obj object) =
      HasMembers members object
      × All (λ key. is_one_of key (member_names members) ≡ true) (keys object)
  HasShape (struct_of members) value = ⊥
  HasShape (slice_of type) (arr items) = AllItems (HasShape type) items
  HasShape (slice_of type) value = ⊥
  HasShape (map_of type) (obj object) = All (HasValue (HasShape type) object) (keys object)
  HasShape (map_of type) value = ⊥
  HasShape string_type (str s) = Unit
  HasShape string_type value = ⊥
  HasShape bool_type (bool b) = Unit
  HasShape bool_type value = ⊥
  HasShape number_type (int n) = Unit
  HasShape number_type real = Unit
  HasShape number_type value = ⊥
  HasShape interface_type value = Unit
  HasShape unsupported_type value = ⊥

  pub HasMembers : GoFields → Fields → Type 0
  HasMembers no_more object = Unit
  HasMembers (member go_name tag type rest) object =
      let (name, options) = json_field_name go_name tag in
      let later = HasMembers rest object in
      if is_skipped name
      then later
      else MemberFits (HasShape type) (get_field name object)
          (is_one_of (codes "omitempty") options)
        × later

never : {e : ShapeError} → (some e ≡ none) ↔ ⊥
never = ((λ h. cc), (λ h. elim h [ ]))

abbrev no_error : Option ShapeError
no_error = none

always : (no_error ≡ none) ↔ Unit {0}
always = ((λ h. tt), (λ h. refl))

module _ (marshal : Text → Text) where
  mutual
    unfolding validate_json_shape check_members HasShape HasMembers

    -- validateJSONShape finds no error in a value exactly if the value has the shape of the type,
    -- whatever the path is that it reports.
    pub validate_json_shape-eq_none :
        (type : GoType) (value : Json) (path : Text)
        → (validate_json_shape marshal type value path ≡ none) ↔ HasShape type value
    validate_json_shape-eq_none type null path = never
    validate_json_shape-eq_none (pointer_to type) value path =
        validate_json_shape-eq_none type value path
    validate_json_shape-eq_none time_type (str s) path = always
    validate_json_shape-eq_none time_type value path = never
    validate_json_shape-eq_none (struct_of members) (obj object) path =
        let (each, each') = check_members-eq_none members object path in
        let (known, known') =
          check_unknown-sort_texts marshal (member_names members) (keys object) path in
        let (both, both') = or_else-eq-none (check_members marshal members object path) (
          check_unknown marshal (sort_texts (not_among (member_names members) (keys object)))
            path) in
        ((λ h. let hs = both h in (each hs.0, known hs.1)), (λ h. both' (each' h.0, known' h.1)))
    validate_json_shape-eq_none (struct_of members) value path = never
    validate_json_shape-eq_none (slice_of type) (arr items) path =
        check_items-none marshal (validate_json_shape marshal type) (HasShape type)
          (validate_json_shape-eq_none type) items path 0
    validate_json_shape-eq_none (slice_of type) value path = never
    validate_json_shape-eq_none (map_of type) (obj object) path =
        check_keys-sort_texts marshal (validate_json_shape marshal type) (HasShape type)
          (validate_json_shape-eq_none type) object (keys object) path
    validate_json_shape-eq_none (map_of type) value path = never
    validate_json_shape-eq_none string_type (str s) path = always
    validate_json_shape-eq_none string_type value path = never
    validate_json_shape-eq_none bool_type (bool b) path = always
    validate_json_shape-eq_none bool_type value path = never
    validate_json_shape-eq_none number_type (int n) path = always
    validate_json_shape-eq_none number_type real path = always
    validate_json_shape-eq_none number_type value path = never
    validate_json_shape-eq_none interface_type value path = always
    validate_json_shape-eq_none unsupported_type value path = never

    check_members-eq_none :
        (members : GoFields) (object : Fields) (path : Text)
        → (check_members marshal members object path ≡ none) ↔ HasMembers members object
    check_members-eq_none no_more object path = ((λ h. tt), (λ h. refl))
    check_members-eq_none (member go_name tag type rest) object path =
        let (name, options) = json_field_name go_name tag in
        let (later, later') = check_members-eq_none rest object path in
        let (first, first') =
          check_member-none marshal (validate_json_shape marshal type) (HasShape type)
            (validate_json_shape-eq_none type) (get_field name object)
            (is_one_of (codes "omitempty") options) (append_json_path marshal path name) in
        let (both, both') =
          or_else-eq-none
            (check_member marshal (validate_json_shape marshal type) (get_field name object)
              (is_one_of (codes "omitempty") options) (append_json_path marshal path name))
            (check_members marshal rest object path) in
        elim (Bool-cases (is_skipped name)) [
          | inl skipped ↦ rw skipped (later, later')
          | inr kept ↦ rw kept (
            (λ h. let hs = both h in (first hs.0, later hs.1)),
            (λ h. both' (first' h.0, later' h.1)),
          )
        ]
