-- ===== src/Tests/Starts.antt =====
-- The theorems on whole runs of the server and on the start of the program, on concrete input.
use fileserver_mcp.Base.{
  or_else, [], ◌∷◌, ◌++◌, List, Text, Bytes, codes, ◌=ᵗ◌, false, if◌then◌else◌, Option, none, some,
  pos, ok, ◌≡◌, refl, inr, arith,
}
use fileserver_mcp.Protocol.{Json, Fields, null, str, int, obj, field, end, get_field, Response}
use fileserver_mcp.Router.{Handler}
use fileserver_mcp.Transport.{newline, Writer}
use fileserver_mcp.Config
use fileserver_mcp.Server.Serving.{Options, run}
use fileserver_mcp.Server.Answers.{answer_id, IsNotification}
use fileserver_mcp.Server.Transcript.{
  lines_input, IsWorking, encode_text, transcript, HasWritten, run-transcript,
}
use fileserver_mcp.Server.Replied.{HasResponse, run-HasResponse}
use fileserver_mcp.Tools.Execute.{local_file_system}
use fileserver_mcp.Boot.{capabilities_from_read_only, create_tool_registry, create_router}
use fileserver_mcp.Boot.Start.{World, run_with_io, run_with_io-read_only}
use fileserver_mcp.Tests.Toy.{Disk, toy, disk, served}

abbrev log : Writer Bytes
log = record {
  write = λ w payload. (ok tt, w ++ payload);
  write_byte = λ w b. (ok tt, w ++ b ∷ []);
  flush = λ w. (ok tt, w);
}

log-IsWorking : IsWorking log (λ w. w)
log-IsWorking = record {
  write_ok = λ w payload. refl;
  write_contents = λ w payload. refl;
  write_byte_ok = λ w b. refl;
  write_byte_contents = λ w b. refl;
  flush_ok = λ w. refl;
  flush_contents = λ w. refl;
}

abbrev options : Options
options = record {
  max_message_bytes = pos 100;
  max_argument_bytes = pos 100;
  max_response_bytes = pos 4;
}

-- A call of tools/list with the id 7.
abbrev listing_fields : Fields
listing_fields =
    field (codes "jsonrpc") (str (codes "2.0"))
      (field (codes "id") (int (pos 7)) (field (codes "method") (str (codes "tools/list")) end))

abbrev parse : Bytes → Option Json
parse message = some (obj listing_fields)

abbrev text : Response → Bytes
text response = 1 ∷ []

abbrev router : List (Handler Disk)
router =
    create_router (λ bytes. bytes) (λ json. []) (codes "flashgate") (codes "1")
      (create_tool_registry (λ name. null) (local_file_system toy (λ d. d) served) (pos 1000)
        (capabilities_from_read_only false))

abbrev lines : List Bytes
lines = (65 ∷ []) ∷ (66 ∷ 67 ∷ []) ∷ []

run-transcript_example :
    HasWritten
      (λ json. 10)
      router
      options
      parse
      text
      log
      (λ w. w)
      []
      (transcript (λ json. 10) router options parse text log 100 lines disk)
      (run
        (λ json. 10)
        router
        options
        parse
        (encode_text text)
        log
        (λ turn. false)
        5
        0
        (lines_input lines)
        disk
        [])
run-transcript_example =
    run-transcript (λ json. 10) router options parse text log log-IsWorking 100 refl lines 5 0 disk
      [] (((refl, tt), inr (omega arith)), (((refl, (refl, tt)), inr (omega arith)), tt))
      (omega arith)

listing-answered : ¬ IsNotification (some (obj listing_fields))
unfolding IsNotification get_field ◌=ᵗ◌ or_else
listing-answered (version, absent, method) = cc

run-HasResponse_example :
    (added : Bytes) × ((run
        (λ json. 10)
        router
        options
        parse
        (encode_text text)
        log
        (λ turn. false)
        5
        0
        (lines_input lines)
        disk
        []).2
      ≡ [] ++ added)
    × HasResponse text (answer_id (parse (66 ∷ 67 ∷ newline ∷ []))) added
run-HasResponse_example =
    run-HasResponse (λ json. 10) router options parse text log 100 log-IsWorking refl
      ((65 ∷ []) ∷ []) (66 ∷ 67 ∷ []) [] 5 disk []
      (((refl, tt), inr (omega arith)), (((refl, (refl, tt)), inr (omega arith)), tt)) (omega arith)
      (inr (omega arith)) listing-answered

-- MCP_ROOT=/r and MCP_READ_ONLY=1
abbrev environment : Text → Option Text
environment name =
    if name =ᵗ codes "MCP_ROOT"
    then some (codes "/r")
    else if name =ᵗ codes "MCP_READ_ONLY"
    then some (codes "1")
    else none

abbrev world : World Disk Bytes
world = record {
  os = toy;
  drift = λ d. d;
  definition = λ name. null;
  text_of = λ bytes. bytes;
  marshal = λ json. [];
  text_length = λ json. 10;
  parse = parse;
  encode = encode_text text;
  out = log;
  cancelled = λ turn. false;
  env = environment;
}

run_with_io-read_only_example : (run_with_io world 9 (lines_input lines) disk []).disk ≡ disk
unfolding Config.runs
run_with_io-read_only_example =
    run_with_io-read_only world (codes "1") 9 (lines_input lines) disk [] refl (λ h. cc)
