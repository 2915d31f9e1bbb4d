-- ===== src/Tests/Requests.antt =====
-- The theorems on requests, the transport and the start of the program, on concrete input.
use fileserver_mcp.Base.{
  none, codes, ◌≡◌, ◌≢◌, ◌↔◌, inr, refl, true, false, ok, Result, Option, some, [], ◌∷◌, ◌++◌, Text,
  Bytes, pos, List, ◌=ᵗ◌, arith, if◌then◌else◌,
}
use fileserver_mcp.Protocol.{Fields, Json, null, str, int, obj, field, end, Response}
use fileserver_mcp.Router.{Handler}
use fileserver_mcp.Transport.{
  Input, ended, byte, eof, newline, line, message_too_large, read_message, Writer,
}
use fileserver_mcp.Transport.Framing.{
  feed, read_message-feed, read_message-feed_over, read_message-feed_at_limit,
}
use fileserver_mcp.Server.Serving.{Options, silence, out_of_fuel, answer_message, run}
use fileserver_mcp.Server.Answers.{
  answer_id, HasId, IsNotification, answer_message-HasId, answer_message-silence_iff,
}
use fileserver_mcp.Server.Loop.{run-ends}
use fileserver_mcp.Server.Calls.{Called, validate_tools_call_params-accepted}
use fileserver_mcp.Server.Validation.{validate_tools_call_params}
use fileserver_mcp.Tools.Execute.{local_file_system}
use fileserver_mcp.Boot.{
  capabilities_from_read_only, create_tool_registry, create_router, ServerError, run_main,
}
use fileserver_mcp.Config
use fileserver_mcp.Config.{
  root_not_found, Config, Failure, Loading, loaded, load_from_environment, parse_bool,
  default_config,
}
use fileserver_mcp.Config.Loaded.{IsUsable, load_from_environment-IsUsable}
use fileserver_mcp.Boot.ReadOnly.{run-read_only}
use fileserver_mcp.Boot.ExitCodes.{Exits, run_main-Exits}
use fileserver_mcp.Tests.Toy.{Disk, toy, disk, served}

abbrev log : Writer Bytes
log = record {
  write = λ w payload. (ok tt, w ++ payload);
  write_byte = λ w b. (ok tt, w ++ b ∷ []);
  flush = λ w. (ok tt, w);
}

abbrev options : Options
options = record {
  max_message_bytes = pos 100;
  max_argument_bytes = pos 100;
  max_response_bytes = pos 100;
}

-- A call of delete_path.
abbrev deleting : Json
deleting = obj (
    field (codes "jsonrpc") (str (codes "2.0")) (
      field (codes "id") (int (pos 7)) (
        field (codes "method") (str (codes "tools/call")) (
          field (codes "params")
            (obj (
              field (codes "name") (str (codes "delete_path"))
                (field (codes "arguments") (obj (field (codes "path") (str (codes "a")) end)) end)))
            end))))

abbrev input : Input
input = byte 1 (byte newline (byte 2 (byte newline (ended eof))))

abbrev parse : Bytes → Option Json
parse message = some deleting

abbrev encode : Response → Result Bytes
encode response = ok (1 ∷ [])

abbrev read_only_router : List (Handler Disk)
read_only_router =
    create_router (λ bytes. bytes) (λ json. []) (codes "flashgate") (codes "1")
      (create_tool_registry (λ name. null) (local_file_system toy (λ d. d) served) (pos 1000)
        (capabilities_from_read_only true))

run-read_only_example :
    (run (λ json. 10) read_only_router options parse encode log (λ turn. false) 5 0 input disk []).1
    ≡ disk
run-read_only_example =
    run-read_only (λ name. null) (local_file_system toy (λ d. d) served) (pos 1000)
      (codes "flashgate") (codes "1") (λ bytes. bytes) (λ json. []) (λ json. 10) options parse
      encode log (λ turn. false) 5 0 input disk []

run-ends_example :
    (run (λ json. 10) read_only_router options parse encode log (λ turn. false) 5 0 input disk []).0
    ≢ out_of_fuel
run-ends_example =
    run-ends (λ json. 10) read_only_router options parse encode log (λ turn. false) 5 0 input disk
      [] (omega arith)

answer_message-HasId_example :
    HasId
      (answer_id (some deleting))
      (answer_message (λ json. 10) read_only_router options (some deleting) disk).0
answer_message-HasId_example =
    answer_message-HasId (λ json. 10) read_only_router options (some deleting) disk

answer_message-silence_iff_example :
    ((answer_message (λ json. 10) read_only_router options (some deleting) disk).0 ≡ silence)
    ↔ IsNotification (some deleting)
answer_message-silence_iff_example =
    answer_message-silence_iff (λ json. 10) read_only_router options (some deleting) disk

abbrev rest : Input
rest = byte 5 (ended eof)

read_message-feed_example :
    read_message (pos 3) (feed (1 ∷ 2 ∷ []) (byte newline rest))
    ≡ (line (1 ∷ 2 ∷ newline ∷ []), rest)
read_message-feed_example =
    read_message-feed 3 (1 ∷ 2 ∷ []) rest (refl, (refl, tt)) (inr (omega arith))

read_message-feed_over_example :
    read_message (pos 1) (feed (1 ∷ 2 ∷ []) (byte newline rest)) ≡ (message_too_large, rest)
read_message-feed_over_example =
    read_message-feed_over 1 (1 ∷ 2 ∷ []) rest (refl, (refl, tt)) (omega arith) (omega arith)

read_message-feed_at_limit_example :
    read_message (pos 2) (feed (1 ∷ 2 ∷ []) (byte newline (feed (3 ∷ []) (byte newline rest))))
    ≡ (message_too_large, rest)
read_message-feed_at_limit_example =
    read_message-feed_at_limit 2 (1 ∷ 2 ∷ []) (3 ∷ []) rest (refl, (refl, tt)) (refl, tt)
      (omega arith) refl

abbrev no_arguments : List Text
no_arguments = []

abbrev missing : ServerError
missing = record { is_canceled = false; category = some root_not_found }

run_main-Exits_example :
    (run_main no_arguments (some missing) ≡ 3) ↔ Exits no_arguments (some missing) 3
run_main-Exits_example = run_main-Exits (some missing) no_arguments 3

-- MCP_ROOT=/srv and MCP_READ_ONLY=true
abbrev environment : Text → Option Text
environment name =
    if name =ᵗ codes "MCP_ROOT"
    then some (codes "/srv")
    else if name =ᵗ codes "MCP_READ_ONLY"
    then some (codes "true")
    else none

abbrev config_of : Loading Config → Config
config_of (loaded c) = c
config_of (Config.refused e) = default_config

load_from_environment-IsUsable_example :
    IsUsable environment (config_of (load_from_environment environment))
unfolding Config.runs
load_from_environment-IsUsable_example =
    load_from_environment-IsUsable environment {c = config_of (load_from_environment environment)}
      refl

-- A call of read_file without arguments.
abbrev calling : Json
calling = obj (field (codes "name") (str (codes "read_file")) end)

abbrev passed_on : Option Json
passed_on =
    some (
      obj
        (field (codes "name") (str (codes "read_file")) (field (codes "arguments") (obj end) end)))

validate_tools_call_params-accepted_example :
    (validate_tools_call_params (λ json. 10) (pos 100) (some calling) ≡ some passed_on) ↔ (
      (name : Text) × (inner : Fields) × Called
        (λ json. 10)
        (pos 100)
        (some calling)
        passed_on
        name
        inner)
validate_tools_call_params-accepted_example =
    validate_tools_call_params-accepted (λ json. 10) (pos 100) (some calling) passed_on
