-- ===== src/Server/Serving.antt =====
-- internal/mcp/server/server.go: one request's handling, and the loop over the messages of the
-- input. Parsing and encoding of JSON are encoding/json's; the output is a writer outside the
-- program; `cancelled` says whether the context is done at the loop's n-th turn.
use fileserver_mcp.Base.{
  ℕ, zero, suc, ◌+◌, List, Text, Bytes, codes, Bool, true, false, ℤ, Option, if◌then◌else◌, Result,
  Error,
}
use fileserver_mcp.Protocol.{
  Json, ErrorCode, invalid_request, internal_error, result, failure, Response, null,
}
use fileserver_mcp.Router.{Handler, Handling, answers, refuses, panics, dispatch}
use fileserver_mcp.Transport.{
  Input, eof, broken, Reading, line, stopped, read_message, Writer, Sending, sent,
  response_too_large, not_sent, write_message,
}
use fileserver_mcp.Server.Validation.{
  ValidatedRequest, Validation, accepted, rejected, validate_request_message,
}

-- server.Options, without the diagnostics.
pub record Options : Type 0 where
  pub max_message_bytes : ℤ
  pub max_argument_bytes : ℤ
  pub max_response_bytes : ℤ

unfoldable pub error_response : Json → ErrorCode → Text → Response
error_response id code message = record {
  id = id;
  outcome = failure (record { code = code; message = message });
}

-- The response that handleRequest makes of what the handler did.
unfoldable pub response_of : Json → Handling → Response
response_of id (answers value) = record { id = id; outcome = result value }
response_of id (refuses e) = error_response id e.code e.message
response_of id panics = error_response id internal_error (codes "internal error")

unfoldable pub handle_request :
    {D : Type 0} → List (Handler D) → D → ValidatedRequest → Response × D
handle_request handlers d request =
    let (handling, d') = dispatch handlers d request.method request.params in
    (response_of request.id handling, d')

-- What goes back for a message: nothing, an error outside the response limit, or a response.
pub data Answer : Type 0 where
  silence : Answer
  reports : Response → Answer
  replies : Response → Answer

-- How Run comes to its end.
pub data RunEnd : Type 0 where
  completed canceled out_of_fuel : RunEnd
  failed : Error → RunEnd
  response_refused : RunEnd

-- How a turn goes on that has read something: `before` and `after` are the disk and the output
-- before and after its answer.
unfoldable pub after_turn :
    {D W : Type 0} → Reading → Sending → D × W → D × W → RunEnd × D × W → RunEnd × D × W
after_turn (stopped eof) sending (d, w) after rest = (completed, d, w)
after_turn (stopped (broken e)) sending (d, w) after rest = (failed e, d, w)
after_turn reading sent before after rest = rest
after_turn reading (not_sent e) before (d, w) rest = (failed e, d, w)
after_turn reading response_too_large before (d, w) rest = (response_refused, d, w)

module _ {D : Type 0} (text_length : Json → ℕ) (handlers : List (Handler D))
    (options : Options) where
  unfoldable pub answer_validated : Validation → D → Answer × D
  answer_validated (rejected e) d = (reports (error_response e.id e.code e.message), d)
  answer_validated (accepted request) d =
      let (response, d') = handle_request handlers d request in
      if request.notification then (silence, d) else (replies response, d')

  unfoldable pub answer_message : Option Json → D → Answer × D
  answer_message message d =
      answer_validated (validate_request_message text_length options.max_argument_bytes message) d

  module _ {W : Type 0} (parse : Bytes → Option Json) (encode : Response → Result Bytes)
      (out : Writer W) where
    unfoldable pub write_error : Json → ErrorCode → Text → W → Sending × W
    write_error id code message w =
        write_message out options.max_response_bytes false (encode (error_response id code message))
          w

    -- writeResponse, after its call of WriteMessage.
    unfoldable pub after_response : Json → Sending × W → Sending × W
    after_response id (response_too_large, w) =
        write_error id internal_error (codes "internal error") w
    after_response id (other, w) = (other, w)

    unfoldable pub write_response : Response → W → Sending × W
    write_response response w =
        after_response response.id
          (write_message out options.max_response_bytes true (encode response) w)

    unfoldable pub send : Answer → W → Sending × W
    send silence w = (sent, w)
    send (reports response) w =
        write_message out options.max_response_bytes false (encode response) w
    send (replies response) w = write_response response w

    -- One turn's answer to what was read, if the loop does not end there.
    unfoldable pub answer_reading : Reading → D → Answer × D
    answer_reading (line message) d = answer_message (parse message) d
    answer_reading _ d =
        (reports (error_response null invalid_request (codes "invalid request")), d)

    -- Run, from its turn `turn` on, for at most `fuel` turns.
    unfoldable pub run : (ℕ → Bool) → ℕ → ℕ → Input → D → W → RunEnd × D × W
    run cancelled zero turn input d w = (out_of_fuel, d, w)
    run cancelled (suc fuel) turn input d w =
        let (reading, input') = read_message options.max_message_bytes input in
        let (answer, d') = answer_reading reading d in
        let (sending, w') = send answer w in
        let rest = run cancelled fuel (turn + 1) input' d' w' in
        if cancelled turn then (canceled, d, w) else after_turn reading sending (d, w) (d', w') rest
