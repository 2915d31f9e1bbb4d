-- ===== src/Initialize.antt =====
-- internal/mcp/initialize/handler.go: the handler of the method initialize.
use fileserver_mcp.Base.{
  [], Text, codes, ◌=ᵗ◌, Bool, true, false, ◌&&◌, Option, none, some, if◌then◌else◌,
}
use fileserver_mcp.Protocol.{
  Json, null, str, obj, Fields, end, field, invalid_params, protocol_version,
}
use fileserver_mcp.Tools.Arguments.{names_field, string_argument}
use fileserver_mcp.Router.{Handling, answers, refuses}

unfoldable pub is_text : Option Text → Bool
is_text none = false
is_text (some s) = true

-- A value that decodes into the struct `implementation`.
unfoldable pub is_implementation : Json → Bool
is_implementation null = true
is_implementation (obj fields) =
    is_text (string_argument (codes "name") [] fields)
    && is_text (string_argument (codes "version") [] fields)
is_implementation _ = false

unfoldable pub client_info_decodes : Fields → Bool
client_info_decodes end = true
client_info_decodes (field key value rest) =
    let later = client_info_decodes rest in
    if names_field key (codes "clientinfo") then is_implementation value && later else later

-- The protocol version of the params, if they decode.
unfoldable pub decode_params : Option Json → Option Text
decode_params (some null) = some []
decode_params (some (obj fields)) =
    if client_info_decodes fields then string_argument (codes "protocolversion") [] fields else none
decode_params _ = none

unfoldable pub initialized : Text → Text → Json
initialized name version = obj (
    field (codes "protocolVersion") (str protocol_version) (
      field (codes "capabilities") (obj (field (codes "tools") (obj end) end)) (
        field (codes "serverInfo")
          (obj (field (codes "name") (str name) (field (codes "version") (str version) end))) end)))

unfoldable pub initialize : {D : Type 0} → Text → Text → D → Option Json → Handling × D
initialize name version d params = elim (decode_params params) [
  | none ↦
      (refuses (record { code = invalid_params; message = codes "invalid initialize params" }), d)
  | some asked ↦
      if asked =ᵗ []
      then (
        refuses (record { code = invalid_params; message = codes "missing protocol version" }),
        d,
      )
      else (answers (initialized name version), d)
]
