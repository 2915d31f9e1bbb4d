-- ===== src/Tools/Handlers.antt =====
-- The handlers of tools/list and tools/call (tools_list.go, tools_call.go), and the JSON of the
-- tools' results. `text_of` is the text
-- that the encoder makes of a file's bytes, and `marshal` the encoder's text of a value.
use fileserver_mcp.Base.{
  ℕ, String, [], ◌∷◌, List, Text, Bytes, codes, length, Bool, true, false, not, ◌||◌, pos, Option,
  none, some, if◌then◌else◌,
}
use fileserver_mcp.Fs.Limits.{Entry}
use fileserver_mcp.Protocol.{
  Json, bool, int, str, arr, obj, Items, nil, cons, Fields, end, field, get_field, is_json_object,
  is_json_null, decode_string, invalid_params_error,
}
use fileserver_mcp.Tools.Arguments.{is_non_blank}
use fileserver_mcp.Tools.Execute.{
  ToolResult, listed, read_content, info_missing, info_found, written, created, deleted, copied,
  moved, Reply, done, fails,
}
use fileserver_mcp.Tools.Registry.{Tool, Registry, get, list}
use fileserver_mcp.Router.{Handling, answers, refuses}

-- stringField of params_validation.go
unfoldable pub string_field : Text → Fields → Option Text
string_field key fields = elim (get_field key fields) [
  | none ↦ none
  | some raw ↦ elim (decode_string raw) [
    | none ↦ none
    | some value ↦ if is_non_blank value then some value else none
  ]
]

-- The arguments of a call: missing and null ones are empty.
unfoldable pub call_arguments : Option Json → Option Json
call_arguments none = some (obj end)
call_arguments (some raw) =
    if is_json_null (some raw)
    then some (obj end)
    else if is_json_object (some raw)
    then some raw
    else none

-- The name and the arguments of a call.
unfoldable pub validate_call_params : Option Json → Option (Text × Json)
validate_call_params (some (obj fields)) = elim (string_field (codes "name") fields) [
  | none ↦ none
  | some name ↦ elim (call_arguments (get_field (codes "arguments") fields)) [
    | none ↦ none
    | some arguments ↦ some (name, arguments)
  ]
]
validate_call_params _ = none

unfoldable pub flag : String → Bool → Fields → Fields
flag name b rest = field (codes name) (bool b) rest

unfoldable pub text_field : String → Text → Fields → Fields
text_field name s rest = field (codes name) (str s) rest

unfoldable pub size_field : String → ℕ → Fields → Fields
size_field name n rest = field (codes name) (int (pos n)) rest

unfoldable pub entries_json : List Entry → Items
entries_json [] = nil
entries_json (e ∷ entries) =
    cons (obj (text_field "name" e.name (flag "isDir" e.is_dir (size_field "size" e.size end))))
      (entries_json entries)

module _ (text_of : Bytes → Text) (marshal : Json → Text) where
  -- The fields of the result structs.
  unfoldable pub result_fields : ToolResult → Fields
  result_fields (listed entries) = field (codes "entries") (arr (entries_json entries)) end
  result_fields (read_content content) =
      text_field "content" (text_of content) (size_field "size" (length content) end)
  result_fields (info_missing path) = text_field "path" path (flag "exists" false end)
  result_fields (info_found path m) = text_field "path" path (
      flag "exists" true
        (text_field "name" m.name (flag "isDir" m.is_dir (size_field "size" m.size end))))
  result_fields (written path size) =
      text_field "path" path (size_field "size" size (flag "written" true end))
  result_fields (created path b) = text_field "path" path (flag "created" b end)
  result_fields (deleted path) = text_field "path" path (flag "deleted" true end)
  result_fields (copied source target) =
      text_field "source" source (text_field "target" target (flag "copied" true end))
  result_fields (moved source target) =
      text_field "source" source (text_field "target" target (flag "moved" true end))

  -- wrapSuccessfulToolResult and NewCallToolResult: the JSON object and the same as a text.
  unfoldable pub wrap_successful_tool_result : ToolResult → Json
  wrap_successful_tool_result r =
      let content = obj (result_fields r) in
      obj (
        field (codes "content")
          (arr (
            cons (obj (text_field "type" (codes "text") (text_field "text" (marshal content) end)))
              nil))
          (field (codes "structuredContent") content end))

  unfoldable pub handling_of : Reply → Handling
  handling_of (done r) = answers (wrap_successful_tool_result r)
  handling_of (fails e) = refuses e

  unfoldable pub call : {D : Type 0} → Registry D → D → Option Json → Handling × D
  call registry d params = elim (validate_call_params params) [
    | none ↦ (refuses invalid_params_error, d)
    | some (name, arguments) ↦ elim (get registry name) [
      | none ↦ (refuses invalid_params_error, d)
      | some tool ↦ let (reply, d') = tool.execute d arguments in (handling_of reply, d')
    ]
  ]

unfoldable pub definitions_of : {D : Type 0} → List (Tool D) → Items
definitions_of [] = nil
definitions_of (t ∷ tools) = cons t.definition (definitions_of tools)

-- isMissingNullOrObject
unfoldable pub is_missing_null_or_object : Option Json → Bool
is_missing_null_or_object none = true
is_missing_null_or_object (some raw) = is_json_null (some raw) || is_json_object (some raw)

unfoldable pub list_tools : {D : Type 0} → Registry D → D → Option Json → Handling × D
list_tools registry d params =
    if not (is_missing_null_or_object params)
    then (refuses invalid_params_error, d)
    else (answers (obj (field (codes "tools") (arr (definitions_of (list registry))) end)), d)
