-- ===== src/Server/Calls.antt =====
-- request_validation.go and tools_call.go: the two validations of a call agree.
use fileserver_mcp.Base.{
  ℕ, ◌<◌, ◌≤◌, Text, [], codes, ◌=ᵗ◌, text_eq_iff, trim_space, trim_left, ◌&&◌, ltb, false, ℤ, pos,
  negsuc, is_positive, exceeds, Option, none, some, or_else, if◌then◌else◌, ◌≡◌, ◌↔◌, ◌⊎◌, refl,
  sym, ap, ◌∙◌, subst, Bool-cases, Option-cases, inl, inr, arith, some_inj,
}
use fileserver_mcp.Protocol.{
  Json, null, str, obj, Fields, field, end, get_field, set_field, is_json_object, is_json_null,
  decode_string,
}
use fileserver_mcp.Tools.Arguments.{is_non_blank}
use fileserver_mcp.Tools.Handlers
use fileserver_mcp.Tools.Handlers.{call_arguments, validate_call_params}
use fileserver_mcp.Server.Validation.{
  string_field, is_blank, exceeds_limit, validate_arguments, validate_tools_call_params,
}

or_else-none : (o : Option Json) → or_else o none ≡ o
unfolding or_else
or_else-none none = refl
or_else-none (some j) = refl

get_field-set_field :
    (key k : Text) (v : Json) (fields : Fields)
    → get_field key (set_field k v fields) ≡ (if k =ᵗ key then some v else get_field key fields)
unfolding get_field set_field or_else
get_field-set_field key k v end = refl
get_field-set_field key k v (field name old rest) = elim (Bool-cases (name =ᵗ k)) [
  | inl same ↦ elim (Bool-cases (k =ᵗ key)) [
    | inl asked ↦ rw (same, get_field-set_field key k v rest, asked) refl
    | inr else_ ↦
        let equal = (text_eq_iff name k).0 same in
        let other : (name =ᵗ key) ≡ false = rw equal else_ in
        rw (same, get_field-set_field key k v rest, else_, other)
          (sym (or_else-none (get_field key rest)))
  ]
  | inr differ ↦ elim (Bool-cases (k =ᵗ key)) [
    | inl asked ↦ rw (differ, get_field-set_field key k v rest, asked) refl
    | inr else_ ↦ rw (differ, get_field-set_field key k v rest, else_) refl
  ]
]

decode_string-solid :
    (raw : Json) (name : Text)
    → decode_string raw ≡ some name
    → (trim_space name =ᵗ []) ≡ false
    → raw ≡ str name
unfolding decode_string trim_space trim_left ◌=ᵗ◌
decode_string-solid (str s) name h solid = ap (λ t. str t) (some_inj h)
decode_string-solid null name h solid =
    absurd (ground (arith, subst (λ t. (trim_space t =ᵗ []) ≡ false) (sym (some_inj h)) solid))
decode_string-solid _ name h solid = cc

limit_iff :
    (n : ℕ) (max : ℤ)
    → ((is_positive max && exceeds n max) ≡ false) ↔ ((m : ℕ) → max ≡ pos m → 0 < m → n ≤ m)
limit_iff n (pos k) = (
  (λ h m same some_limit. ground (arith, same)),
  (λ h. elim (Bool-cases (ltb 0 k)) [
    | inl yes_ ↦ ground (arith, h k refl)
    | inr no_ ↦ rw no_ refl
  ]),
)
limit_iff n (negsuc k) = ((λ h m same some_limit. cc), (λ h. refl))

module _ (text_length : Json → ℕ) (max : ℤ) where
  -- The value's text is no longer than the limit, where there is one.
  abbrev pub Fits : Json → Type 0
  Fits raw = (m : ℕ) → max ≡ pos m → 0 < m → text_length raw ≤ m

  exceeds_limit-Fits : (raw : Json) → (exceeds_limit text_length max raw ≡ false) ↔ Fits raw
  unfolding exceeds_limit
  exceeds_limit-Fits raw = limit_iff (text_length raw) max

  -- The arguments: the empty object, which the server puts in where the request has none or null;
  -- or the request's own object.
  abbrev pub Given : Fields → Fields → Option Json → Type 0
  Given fields inner passed =
      (((get_field (codes "arguments") fields ≡ none)
          ⊎ (get_field (codes "arguments") fields ≡ some null))
        × (inner ≡ end)
        × (passed ≡ some (obj (set_field (codes "arguments") (obj end) fields))))
      ⊎ ((get_field (codes "arguments") fields ≡ some (obj inner))
          × Fits (obj inner)
          × (passed ≡ some (obj fields)))

  -- The parameters are an object within the limit, with a name that is not blank and with arguments,
  -- and the handler of tools/call reads that name and those arguments from what is passed on.
  pub record Called (params passed : Option Json) (name : Text) (inner : Fields) : Type 0 where
    pub fields : Fields
    pub whole : params ≡ some (obj fields)
    pub fits : Fits (obj fields)
    pub named : get_field (codes "name") fields ≡ some (str name)
    pub solid : (trim_space name =ᵗ []) ≡ false
    pub given : Given fields inner passed
    pub handled : validate_call_params passed ≡ some (name, obj inner)

  validate_arguments-Given :
      (fields : Fields) (given : Option Json) {passed : Option Json}
      → get_field (codes "arguments") fields ≡ given
      → validate_arguments text_length max fields given ≡ some passed
      → (inner : Fields) × Given fields inner passed
  unfolding validate_arguments is_json_null is_json_object
  validate_arguments-Given fields none found h = (end, inl (inl found, refl, sym (some_inj h)))
  validate_arguments-Given fields (some null) found h =
      (end, inl (inr found, refl, sym (some_inj h)))
  validate_arguments-Given fields (some (obj inner)) found h =
      elim (Bool-cases (exceeds_limit text_length max (obj inner))) [
        | inl large ↦ absurd (ground (arith, large))
        | inr small ↦ (
          inner,
          inr (found, (exceeds_limit-Fits (obj inner)).0 small, sym (some_inj (rw small at h))),
        )
      ]
  validate_arguments-Given fields (some _) found h = cc

  Given-validate_arguments :
      (fields inner : Fields) (passed : Option Json)
      → Given fields inner passed
      → validate_arguments text_length max fields (get_field (codes "arguments") fields)
        ≡ some passed
  unfolding validate_arguments is_json_null is_json_object
  Given-validate_arguments fields inner passed (inl (inl missing, empty, same)) =
      rw (missing, same) refl
  Given-validate_arguments fields inner passed (inl (inr missing, empty, same)) =
      rw (missing, same) refl
  Given-validate_arguments fields inner passed (inr (found, fits, same)) =
      rw (found, same, (exceeds_limit-Fits (obj inner)).1 fits) refl

  -- The handler reads the name and the arguments.
  read_call :
      (fields inner : Fields) (name : Text)
      → get_field (codes "name") fields ≡ some (str name)
      → (trim_space name =ᵗ []) ≡ false
      → get_field (codes "arguments") fields ≡ some (obj inner)
      → validate_call_params (some (obj fields)) ≡ some (name, obj inner)
  unfolding validate_call_params Handlers.string_field is_non_blank call_arguments is_json_null
      is_json_object decode_string
  read_call fields inner name named solid given =
      rw (validate_call_params, named, solid, given) refl

  name_kept :
      (fields : Fields)
      → get_field (codes "name") (set_field (codes "arguments") (obj end) fields)
        ≡ get_field (codes "name") fields
  unfolding ◌=ᵗ◌
  name_kept fields = get_field-set_field (codes "name") (codes "arguments") (obj end) fields

  arguments_put :
      (fields : Fields)
      → get_field (codes "arguments") (set_field (codes "arguments") (obj end) fields)
        ≡ some (obj end)
  unfolding ◌=ᵗ◌
  arguments_put fields =
      get_field-set_field (codes "arguments") (codes "arguments") (obj end) fields

  Given-handled :
      (fields inner : Fields) (name : Text) (passed : Option Json)
      → get_field (codes "name") fields ≡ some (str name)
      → (trim_space name =ᵗ []) ≡ false
      → Given fields inner passed
      → validate_call_params passed ≡ some (name, obj inner)
  Given-handled fields inner name passed named solid (inl (missing, empty, same)) =
      rw (same, empty)
        (read_call (set_field (codes "arguments") (obj end) fields) end name
          (name_kept fields ∙ named) solid (arguments_put fields))
  Given-handled fields inner name passed named solid (inr (found, fits, same)) =
      rw same (read_call fields inner name named solid found)

  -- A decoded name that is not blank is a string of the request.
  decoded_name :
      (fields : Fields) (name : Text)
      → string_field (codes "name") fields ≡ some name
      → is_blank name ≡ false
      → (get_field (codes "name") fields ≡ some (str name)) × ((trim_space name =ᵗ []) ≡ false)
  unfolding string_field is_blank
  decoded_name fields name decoded solid = elim (Option-cases (get_field (codes "name") fields)) [
    | inl missing ↦ absurd (ground (arith, missing))
    | inr (raw, found) ↦ (
      found
          ∙ ap (λ j. some j)
              (decode_string-solid raw name (rw (string_field, found) at decoded) solid),
      solid,
    )
  ]

  -- The server lets the parameters of tools/call pass, as these, exactly if they are `Called`: an
  -- object within the limit, with a name that is not blank, and with arguments that are missing or
  -- null, for which the empty object is put in, or an object within the limit, which is kept. The
  -- handler of tools/call then reads that very name and those arguments.
  pub validate_tools_call_params-accepted :
      (params passed : Option Json)
      → (validate_tools_call_params text_length max params ≡ some passed)
        ↔ ((name : Text) × (inner : Fields) × Called params passed name inner)
  unfolding validate_tools_call_params string_field decode_string is_blank
  validate_tools_call_params-accepted params passed = (there params, back)
    where
      there :
          (params : Option Json)
          → validate_tools_call_params text_length max params ≡ some passed
          → (name : Text) × (inner : Fields) × Called params passed name inner
      there (some (obj fields)) h = elim (Bool-cases (exceeds_limit text_length max (obj fields))) [
        | inl large ↦ absurd (ground (arith, large))
        | inr small ↦ elim (Option-cases (string_field (codes "name") fields)) [
          | inl missing ↦ absurd (ground (arith, small, missing))
          | inr (name, decoded) ↦ elim (Bool-cases (is_blank name)) [
            | inl blank ↦ absurd (ground (arith, small, decoded, blank))
            | inr solid ↦
                let (named, trimmed) = decoded_name fields name decoded solid in
                let (inner, given) =
                  validate_arguments-Given fields (get_field (codes "arguments") fields) refl
                    (rw (small, decoded, solid) at h) in
                (
                  name,
                  inner,
                  record {
                    fields = fields;
                    whole = refl;
                    fits = (exceeds_limit-Fits (obj fields)).0 small;
                    named = named;
                    solid = trimmed;
                    given = given;
                    handled = Given-handled fields inner name passed named trimmed given;
                  },
                )
          ]
        ]
      ]
      there _ h = cc

      back :
          ((name : Text) × (inner : Fields) × Called params passed name inner)
          → validate_tools_call_params text_length max params ≡ some passed
      back (name, inner, c) =
          let small = (exceeds_limit-Fits (obj c.fields)).1 c.fits in
          let rest = Given-validate_arguments c.fields inner passed c.given in
          rw c.whole
            (rw (small, string_field, c.named, decode_string) (rw (is_blank, c.solid) rest))
