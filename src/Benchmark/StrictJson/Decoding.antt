-- ===== src/Benchmark/StrictJson/Decoding.antt =====
-- strict_json.go, decodeUniqueJSONValue and decodeStrictJSON. `parse` reads one complete value with
-- nothing behind it, and `fill` decodes it into the destination, refusing unknown fields; both are
-- encoding/json's.
use fileserver_mcp.Base.{
  ℕ, ◌+◌, [], ◌∷◌, List, Text, Bytes, codes, ◌=ᵗ◌, All, false, Bool-cases, Option, none, some,
  or_else, if◌then◌else◌, ◌≡◌, ◌↔◌, ◌⊎◌, inl, inr, refl, ap, ◌∙◌, arith,
}
use fileserver_mcp.Protocol.{Json, arr, obj, Items, nil, cons, Fields, end, field}
use fileserver_mcp.Benchmark.StrictJson.{
  GoType, ShapeError, duplicate_field, at, is_one_of, keys, append_json_path, index_path,
  validate_json_shape,
}
use fileserver_mcp.Benchmark.Names.{AreNew, AreNew-cons, AreNew-empty}
use fileserver_mcp.Benchmark.StrictJson.Checks.{or_else-eq-none}
use fileserver_mcp.Benchmark.StrictJson.Shape.{HasShape, validate_json_shape-eq_none}

module _ (marshal : Text → Text) where
  unfoldable mutual
    unfolding append_json_path

    -- decodeUniqueJSONValue, of a value with its fields in the order of the text.
    pub decode_unique : Json → Text → Option ShapeError
    decode_unique (arr items) path = decode_unique_items items path 0
    decode_unique (obj fields) path = decode_unique_fields fields [] path
    decode_unique _ path = none

    pub decode_unique_items : Items → Text → ℕ → Option ShapeError
    decode_unique_items nil path index = none
    decode_unique_items (cons value rest) path index =
        or_else (decode_unique value (index_path marshal path index))
          (decode_unique_items rest path (index + 1))

    -- The loop over an object's fields, with the names before.
    pub decode_unique_fields : Fields → List Text → Text → Option ShapeError
    decode_unique_fields end seen path = none
    decode_unique_fields (field name value rest) seen path =
        let this = decode_unique value (append_json_path marshal path name) in
        let later = decode_unique_fields rest (name ∷ seen) path in
        if is_one_of name seen
        then at (append_json_path marshal path name) duplicate_field
        else or_else this later

-- The errors of decodeStrictJSON: of the JSON, of its fields or its shape, or of the destination.
pub data StrictError : Type 0 where
  not_json not_filled : StrictError
  misshapen : ShapeError → StrictError

unfoldable pub filled : {Value : Type 0} → Option Value → StrictError ⊎ Value
filled none = inl not_filled
filled (some value) = inr value

unfoldable pub checked_value :
    {Value : Type 0} → Option ShapeError → Option ShapeError → Option Value → StrictError ⊎ Value
checked_value (some repeated) shape value = inl (misshapen repeated)
checked_value none (some e) value = inl (misshapen e)
checked_value none none value = filled value

module _ {Value : Type 0} (marshal : Text → Text) (parse : Bytes → Option Json)
    (fill : Json → Option Value) where
  unfoldable pub decode_value : GoType → Option Json → StrictError ⊎ Value
  decode_value type none = inl not_json
  decode_value type (some value) =
      checked_value (decode_unique marshal value (codes "$"))
        (validate_json_shape marshal type value (codes "$")) (fill value)

  unfoldable pub decode_strict_json : GoType → Bytes → StrictError ⊎ Value
  decode_strict_json type bytes = decode_value type (parse bytes)

mutual
  -- No object of the value has two fields of one name.
  pub IsUnique : Json → Type 0
  IsUnique (arr items) = AreUnique items
  IsUnique (obj fields) = HasUniqueFields fields
  IsUnique _ = Unit

  pub AreUnique : Items → Type 0
  AreUnique nil = Unit
  AreUnique (cons value rest) = IsUnique value × AreUnique rest

  pub HasUniqueFields : Fields → Type 0
  HasUniqueFields end = Unit
  HasUniqueFields (field name value rest) =
      All (λ key. (name =ᵗ key) ≡ false) (keys rest) × IsUnique value × HasUniqueFields rest

module _ (marshal : Text → Text) where
  mutual
    unfolding decode_unique decode_unique_items decode_unique_fields IsUnique AreUnique
        HasUniqueFields keys

    decode_unique-eq_none :
        (value : Json) (path : Text) → (decode_unique marshal value path ≡ none) ↔ IsUnique value
    decode_unique-eq_none (arr items) path = decode_unique_items-eq_none items path 0
    decode_unique-eq_none (obj fields) path =
        let (there, back) = decode_unique_fields-eq_none fields [] path in
        ((λ h. (there h).1), (λ h. back (AreNew-empty (keys fields), h)))
    decode_unique-eq_none _ path = ((λ h. tt), (λ h. refl))

    decode_unique_items-eq_none :
        (items : Items) (path : Text) (index : ℕ)
        → (decode_unique_items marshal items path index ≡ none) ↔ AreUnique items
    decode_unique_items-eq_none nil path index = ((λ h. tt), (λ h. refl))
    decode_unique_items-eq_none (cons value rest) path index =
        let (first, first') = decode_unique-eq_none value (index_path marshal path index) in
        let (later, later') = decode_unique_items-eq_none rest path (index + 1) in
        let (both, both') =
          or_else-eq-none (decode_unique marshal value (index_path marshal path index))
            (decode_unique_items marshal rest path (index + 1)) in
        ((λ h. let hs = both h in (first hs.0, later hs.1)), (λ h. both' (first' h.0, later' h.1)))

    decode_unique_fields-eq_none :
        (fields : Fields) (seen : List Text) (path : Text)
        → (decode_unique_fields marshal fields seen path ≡ none)
          ↔ (AreNew seen (keys fields) × HasUniqueFields fields)
    decode_unique_fields-eq_none end seen path = ((λ h. (tt, tt)), (λ h. refl))
    decode_unique_fields-eq_none (field name value rest) seen path =
        let (first, first') = decode_unique-eq_none value (append_json_path marshal path name) in
        let (later, later') = decode_unique_fields-eq_none rest (name ∷ seen) path in
        let (split, split') = AreNew-cons name seen (keys rest) in
        let (both, both') =
          or_else-eq-none (decode_unique marshal value (append_json_path marshal path name))
            (decode_unique_fields marshal rest (name ∷ seen) path) in
        elim (Bool-cases (is_one_of name seen)) [
          | inl again ↦ rw again ((λ h. cc), (λ h. ground arith))
          | inr new ↦ rw new (
            (λ h.
                let (h1, h2) = both h in
                let (h3, h4) = later h2 in
                let (h5, h6) = split h3 in ((refl, h6), (h5, first h1, h4))),
            (λ h. both' (first' h.1.1, later' (split' (h.1.0, h.0.1), h.1.2))),
          )
        ]

checked_value-eq_inr :
    {Value : Type 0} (repeated shape : Option ShapeError) (o : Option Value) (v : Value)
    → (checked_value repeated shape o ≡ inr v) ↔ ((repeated ≡ none) × (shape ≡ none) × (o ≡ some v))
unfolding checked_value filled
checked_value-eq_inr (some e) shape o v = ((λ h. cc), (λ h. cc))
checked_value-eq_inr none (some e) o v = ((λ h. cc), (λ h. cc))
checked_value-eq_inr none none none v = ((λ h. cc), (λ h. cc))
checked_value-eq_inr none none (some x) v = (
  (λ h. (refl, refl, ap (λ r. elim r [ inl e ↦ some x | inr y ↦ some y ]) h)),
  (λ h. ap (λ o. elim o [ none ↦ inr x | some y ↦ inr y ]) h.2),
)

-- The value that the text holds has unique fields and the shape of the type, and fills the
-- destination with `v`.
pub record IsRead {Value : Type 0} (parse : Bytes → Option Json) (fill : Json → Option Value)
    (type : GoType) (bytes : Bytes) (v : Value) : Type 0 where
  pub json : Json
  pub parsed : parse bytes ≡ some json
  pub unique : IsUnique json
  pub shaped : HasShape type json
  pub fills : fill json ≡ some v

module _ {Value : Type 0} (marshal : Text → Text) (parse : Bytes → Option Json)
    (fill : Json → Option Value) (type : GoType) (bytes : Bytes) (v : Value) where
  decode_value-IsRead :
      (o : Option Json)
      → parse bytes ≡ o
      → decode_value marshal parse fill type o ≡ inr v
      → IsRead parse fill type bytes v
  unfolding decode_value
  decode_value-IsRead none parsed h = cc
  decode_value-IsRead (some json) parsed h =
      let (unique, shaped, fills) = (checked_value-eq_inr _ _ (fill json) v).0 h in
      record {
        json = json;
        parsed = parsed;
        unique = (decode_unique-eq_none marshal json (codes "$")).0 unique;
        shaped = (validate_json_shape-eq_none marshal type json (codes "$")).0 shaped;
        fills = fills;
      }

  IsRead-decode_value :
      (r : IsRead parse fill type bytes v)
      → decode_value marshal parse fill type (some r.json) ≡ inr v
  unfolding decode_value
  IsRead-decode_value r = (checked_value-eq_inr _ _ (fill r.json) v).1 (
    (decode_unique-eq_none marshal r.json (codes "$")).1 r.unique,
    (validate_json_shape-eq_none marshal type r.json (codes "$")).1 r.shaped,
    r.fills,
  )

  -- decodeStrictJSON gives a value exactly if the bytes are one JSON value whose objects have no
  -- repeated field, which has the shape of the destination's type, and from which encoding/json
  -- fills that destination with this value.
  pub decode_strict_json-IsRead :
      (decode_strict_json marshal parse fill type bytes ≡ inr v) ↔ IsRead parse fill type bytes v
  unfolding decode_strict_json
  decode_strict_json-IsRead = (
    decode_value-IsRead (parse bytes) refl,
    (λ r. ap (decode_value marshal parse fill type) r.parsed ∙ IsRead-decode_value r),
  )
