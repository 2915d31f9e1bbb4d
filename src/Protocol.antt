-- ===== src/Protocol.antt =====
-- JSON values and the JSON-RPC shapes of internal/protocol.
use fileserver_mcp.Base.{
  [], Text, codes, ◌=ᵗ◌, Bool, true, false, ℤ, negsuc, Option, none, some, or_else, if◌then◌else◌,
}

-- A JSON value as encoding/json reads it. `int` is a number without fraction or exponent, `real` any
-- other number. The fields of an object stand in the order of the text, repeated names included.
mutual
  pub data Json : Type 0 where
    null real : Json
    bool : Bool → Json
    int : ℤ → Json
    str : Text → Json
    arr : Items → Json
    obj : Fields → Json

  pub data Items : Type 0 where
    nil : Items
    cons : Json → Items → Items

  pub data Fields : Type 0 where
    end : Fields
    field : Text → Json → Fields → Fields

-- `fields[key]` of a decoded map: the last field of that name.
unfoldable pub get_field : Text → Fields → Option Json
get_field key end = none
get_field key (field name value rest) =
    or_else (get_field key rest) (if name =ᵗ key then some value else none)

-- `fields[key] = value`
unfoldable pub set_field : Text → Json → Fields → Fields
set_field key value end = field key value end
set_field key value (field name old rest) =
    let later = set_field key value rest in if name =ᵗ key then later else field name old later

unfoldable pub is_json_object : Option Json → Bool
is_json_object (some (obj fields)) = true
is_json_object _ = false

unfoldable pub is_json_null : Option Json → Bool
is_json_null (some null) = true
is_json_null _ = false

-- A JSON string or null decoded into a Go string; null leaves the empty string.
unfoldable pub decode_string : Json → Option Text
decode_string (str s) = some s
decode_string null = some []
decode_string _ = none

pub data ErrorCode : Type 0 where
  parse_error invalid_request method_not_found invalid_params internal_error : ErrorCode

unfoldable pub code_number : ErrorCode → ℤ
code_number parse_error = negsuc 32699
code_number invalid_request = negsuc 32599
code_number method_not_found = negsuc 32600
code_number invalid_params = negsuc 32601
code_number internal_error = negsuc 32602

-- protocol.Error; the field Data is never set.
pub record RpcError : Type 0 where
  pub code : ErrorCode
  pub message : Text

pub data Outcome : Type 0 where
  result : Json → Outcome
  failure : RpcError → Outcome

-- protocol.Response; the field JSONRPC is always "2.0".
pub record Response : Type 0 where
  pub id : Json
  pub outcome : Outcome

abbrev pub json_rpc_version : Text
json_rpc_version = codes "2.0"

abbrev pub protocol_version : Text
protocol_version = codes "2025-11-25"

unfoldable pub invalid_params_error : RpcError
invalid_params_error = record { code = invalid_params; message = codes "invalid params" }
