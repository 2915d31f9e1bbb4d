-- ===== src/Transport.antt =====
-- internal/mcp/transport/transport.go: one JSON message to a line, with limits on both directions.
pub mod Framing
use fileserver_mcp.Base.{
  ℕ, suc, ◌+◌, ◌≤◌, [], ◌∷◌, ◌++◌, Bytes, length, Bool, true, false, ◌&&◌, ◌==◌, ℤ, is_positive,
  exceeds, if◌then◌else◌, Result, ok, err, Error, ◌>>=◌,
}

-- What ends the input: io.EOF, or any other error of the reader.
pub data InputEnd : Type 0 where
  eof : InputEnd
  broken : Error → InputEnd

-- What is left to be read.
pub data Input : Type 0 where
  ended : InputEnd → Input
  byte : ℕ → Input → Input

abbrev pub newline : ℕ
newline = 10

pub data Reading : Type 0 where
  line : Bytes → Reading
  message_too_large : Reading
  stopped : InputEnd → Reading

unfoldable pub discard_line : Input → Input
discard_line (ended e) = ended e
discard_line (byte next input) =
    let rest = discard_line input in if next == newline then input else rest

-- ReadMessage's loop, with the line so far.
unfoldable pub read_line : ℤ → Bytes → Input → Reading × Input
read_line max_read_bytes so_far (ended e) = (stopped e, ended e)
read_line max_read_bytes so_far (byte next input) =
    let longer = so_far ++ next ∷ [] in
    let rest = read_line max_read_bytes longer input in
    if is_positive max_read_bytes && exceeds (length longer) max_read_bytes
    then (message_too_large, discard_line input)
    else if next == newline
    then (line longer, input)
    else rest

unfoldable pub read_message : ℤ → Input → Reading × Input
read_message max_read_bytes input = read_line max_read_bytes [] input

-- The output: a bufio.Writer over a writer that is not part of the program.
pub record Writer (W : Type 0) : Type 0 where
  pub write : W → Bytes → Result (Unit {0}) × W
  pub write_byte : W → ℕ → Result (Unit {0}) × W
  pub flush : W → Result (Unit {0}) × W

-- WriteMessage's result: `ErrResponseTooLarge`, or an error of the encoder or the writer.
pub data Sending : Type 0 where
  sent response_too_large : Sending
  not_sent : Error → Sending

unfoldable pub sending_of : Result (Unit {0}) → Sending
sending_of (ok u) = sent
sending_of (err e) = not_sent e

-- writeMessage, of a value that json.Marshal has encoded or not.
unfoldable pub write_message : {W : Type 0} → Writer W → ℤ → Bool → Result Bytes → W → Sending × W
write_message out max_write_bytes enforce_limit (err e) w = (not_sent e, w)
write_message out max_write_bytes enforce_limit (ok payload) w =
    if enforce_limit && is_positive max_write_bytes && exceeds (length payload + 1) max_write_bytes
    then (response_too_large, w)
    else let (written, w1) = out.write w payload in
      let (ended_line, w2) = out.write_byte w1 newline in
      let (flushed, w3) = out.flush w2 in
      elim written [
        | err e ↦ (not_sent e, w1)
        | ok _ ↦ elim ended_line [ err e ↦ (not_sent e, w2) | ok _ ↦ (sending_of flushed, w3) ]
      ]
