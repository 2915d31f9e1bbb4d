-- ===== src/Server/Validation.antt =====
-- internal/mcp/server/request_validation.go. A message is `none` where it is no valid JSON.
-- `text_length` is the number of bytes that a value takes in the message.
use fileserver_mcp.Base.{
  ℕ, [], Text, codes, ◌=ᵗ◌, trim_space, Bool, true, false, not, ◌&&◌, ◌||◌, ℤ, is_positive, exceeds,
  Option, none, some, if◌then◌else◌,
}
use fileserver_mcp.Protocol.{
  Json, null, real, int, str, obj, Fields, end, get_field, set_field, is_json_object, is_json_null,
  decode_string, ErrorCode, parse_error, invalid_request, invalid_params, json_rpc_version,
}

pub record ValidatedRequest : Type 0 where
  pub id : Json
  pub method : Text
  pub params : Option Json
  pub notification : Bool

pub record RequestValidationError : Type 0 where
  pub id : Json
  pub code : ErrorCode
  pub message : Text

pub data Validation : Type 0 where
  accepted : ValidatedRequest → Validation
  rejected : RequestValidationError → Validation

unfoldable pub new_request_validation_error : Json → ErrorCode → Text → Validation
new_request_validation_error id code message =
    rejected (record { id = id; code = code; message = message })

-- stringField of request_validation.go
unfoldable pub string_field : Text → Fields → Option Text
string_field key fields = elim (get_field key fields) [ none ↦ none | some raw ↦ decode_string raw ]

unfoldable pub is_valid_id : Json → Bool
is_valid_id null = true
is_valid_id (str s) = true
is_valid_id (int n) = true
is_valid_id real = true
is_valid_id _ = false

-- requestID: no id, an id that is not valid, or a valid one.
pub data RequestId : Type 0 where
  no_id bad_id : RequestId
  has_id : Json → RequestId

unfoldable pub request_id : Fields → RequestId
request_id fields = elim (get_field (codes "id") fields) [
  | none ↦ no_id
  | some raw ↦ if is_valid_id raw then has_id raw else bad_id
]

unfoldable pub request_id_or_null : RequestId → Json
request_id_or_null (has_id id) = id
request_id_or_null _ = null

unfoldable pub is_blank : Text → Bool
is_blank s = trim_space s =ᵗ []

module _ (text_length : Json → ℕ) (max_argument_bytes : ℤ) where
  unfoldable pub exceeds_limit : Json → Bool
  exceeds_limit raw = is_positive max_argument_bytes && exceeds (text_length raw) max_argument_bytes

  -- The parameters with which a call goes on; `none` stands for the error "invalid params".
  unfoldable pub validate_arguments : Fields → Option Json → Option (Option Json)
  validate_arguments fields none =
      some (some (obj (set_field (codes "arguments") (obj end) fields)))
  validate_arguments fields (some arguments) =
      if is_json_null (some arguments)
      then some (some (obj (set_field (codes "arguments") (obj end) fields)))
      else if not (is_json_object (some arguments))
      then none
      else if exceeds_limit arguments
      then none
      else some (some (obj fields))

  unfoldable pub validate_tools_call_params : Option Json → Option (Option Json)
  validate_tools_call_params (some (obj fields)) =
      if exceeds_limit (obj fields) then none else elim (string_field (codes "name") fields) [
        | none ↦ none
        | some name ↦
            if is_blank name
            then none
            else validate_arguments fields (get_field (codes "arguments") fields)
      ]
  validate_tools_call_params _ = none

  unfoldable pub validate_initialize_params : Option Json → Option (Option Json)
  validate_initialize_params (some (obj fields)) =
      elim (string_field (codes "protocolVersion") fields) [
        | none ↦ none
        | some version ↦ if version =ᵗ [] then none else some (some (obj fields))
      ]
  validate_initialize_params _ = none

  unfoldable pub validate_tools_list_params : Option Json → Option (Option Json)
  validate_tools_list_params none = some none
  validate_tools_list_params (some raw) =
      if is_json_null (some raw) || is_json_object (some raw) then some (some raw) else none

  unfoldable pub validate_method_params : Text → Option Json → Option (Option Json)
  validate_method_params method params =
      if method =ᵗ codes "initialize"
      then validate_initialize_params params
      else if method =ᵗ codes "tools/list"
      then validate_tools_list_params params
      else if method =ᵗ codes "tools/call"
      then validate_tools_call_params params
      else some params

  -- The rest of the validation, from the request's id on.
  unfoldable pub validate_method : Fields → RequestId → Validation
  validate_method fields bad_id =
      new_request_validation_error null invalid_request (codes "invalid request")
  validate_method fields no_id = elim (string_field (codes "method") fields) [
    | none ↦ new_request_validation_error null invalid_request (codes "invalid request")
    | some method ↦
        if is_blank method
        then new_request_validation_error null invalid_request (codes "invalid request")
        else accepted (record {
          id = null;
          method = method;
          params = get_field (codes "params") fields;
          notification = true;
        })
  ]
  validate_method fields (has_id id) = elim (string_field (codes "method") fields) [
    | none ↦ new_request_validation_error id invalid_request (codes "invalid request")
    | some method ↦
        if is_blank method
        then new_request_validation_error id invalid_request (codes "invalid request")
        else elim (validate_method_params method (get_field (codes "params") fields)) [
          | none ↦ new_request_validation_error id invalid_params (codes "invalid params")
          | some params ↦
              accepted (record { id = id; method = method; params = params; notification = false })
        ]
  ]

  unfoldable pub validate_version : Fields → Option Text → Validation
  validate_version fields none =
      new_request_validation_error (request_id_or_null (request_id fields)) invalid_request
        (codes "invalid request")
  validate_version fields (some version) =
      if not (version =ᵗ json_rpc_version)
      then new_request_validation_error (request_id_or_null (request_id fields)) invalid_request
          (codes "invalid request")
      else validate_method fields (request_id fields)

  unfoldable pub validate_request_message : Option Json → Validation
  validate_request_message none =
      new_request_validation_error null parse_error (codes "parse error")
  validate_request_message (some (obj fields)) =
      validate_version fields (string_field (codes "jsonrpc") fields)
  validate_request_message _ =
      new_request_validation_error null invalid_request (codes "invalid request")
