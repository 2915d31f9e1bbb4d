-- ===== src/Server/Transcript.antt =====
-- server.go, Run, over an input of whole lines and an output that works: what the server writes is
-- the transcript of its answers, in the order of the lines.
use fileserver_mcp.Base.{
  ℕ, zero, suc, ◌+◌, ◌<◌, [], ◌∷◌, ◌++◌, List, Bytes, length, codes, Bool, true, false, ◌&&◌, ltb,
  ℤ, pos, is_positive, exceeds, Option, if◌then◌else◌, Result, ok, ◌≡◌, ◌≢◌, ◌⊎◌, inl, inr, refl,
  sym, ap, subst, ◌∙◌, Bool-cases, All, arith,
}
use mathlib.Core.List.{append-nil, append_assoc}
use fileserver_mcp.Protocol.{Json, Response, internal_error}
use fileserver_mcp.Router.{Handler}
use fileserver_mcp.Transport.{
  Input, ended, byte, eof, newline, Reading, line, message_too_large, read_message, read_line,
  Writer, Sending, sent, response_too_large, write_message, sending_of,
}
use fileserver_mcp.Transport.Framing.{feed, IsInLine, read_message-feed, read_message-feed_over}
use fileserver_mcp.Server.Serving.{
  Options, error_response, Answer, silence, reports, replies, RunEnd, completed, answer_reading,
  send, write_error, write_response, after_response, run, after_turn,
}

-- The input of these lines and no more.
abbrev pub lines_input : List Bytes → Input
lines_input [] = ended eof
lines_input (m ∷ ms) = feed m (byte newline (lines_input ms))

-- A line that ReadMessage cuts off where it ends, with the limit `n` (0 is none): any but one of
-- exactly the limit's length.
abbrev pub IsFramed : ℕ → Bytes → Type 0
IsFramed n m = All IsInLine m × ((n ≡ 0) ⊎ (length m ≢ n))

unfoldable pub reading_of : ℕ → Bytes → Reading
reading_of n m = if ltb 0 n && ltb n (length m) then message_too_large else line (m ++ newline ∷ [])

read_message-reading_of :
    (n : ℕ) (m : Bytes) (rest : Input)
    → IsFramed n m
    → read_message (pos n) (feed m (byte newline rest)) ≡ (reading_of n m, rest)
unfolding reading_of
read_message-reading_of n m rest (inside, other) = elim (Bool-cases (ltb 0 n && ltb n (length m))) [
  | inl long ↦ rw long (read_message-feed_over n m rest inside (ground arith) (ground arith))
  | inr short ↦ rw short (read_message-feed n m rest inside (ground arith))
]

-- The output works: no call on it fails, and what was written is appended to its contents.
pub record IsWorking {W : Type 0} (out : Writer W) (contents : W → Bytes) : Type 0 where
  pub write_ok : (w : W) (payload : Bytes) → (out.write w payload).0 ≡ ok tt
  pub write_contents :
      (w : W) (payload : Bytes) → contents (out.write w payload).1 ≡ contents w ++ payload
  pub write_byte_ok : (w : W) (b : ℕ) → (out.write_byte w b).0 ≡ ok tt
  pub write_byte_contents : (w : W) (b : ℕ) → contents (out.write_byte w b).1 ≡ contents w ++ b ∷ []
  pub flush_ok : (w : W) → (out.flush w).0 ≡ ok tt
  pub flush_contents : (w : W) → contents (out.flush w).1 ≡ contents w

-- The test of writeMessage.
unfoldable pub refuses_response : ℤ → Bytes → Bool
refuses_response max payload = is_positive max && exceeds (length payload + 1) max

-- What the client sees of an answer, where `text` is the encoder's.
unfoldable pub shown : (Response → Bytes) → ℤ → Answer → Bytes
shown text max silence = []
shown text max (reports response) = text response ++ newline ∷ []
shown text max (replies response) =
    (if refuses_response max (text response)
      then text (error_response response.id internal_error (codes "internal error"))
      else text response)
    ++ newline ∷ []

module _ {W : Type 0} {out : Writer W} {contents : W → Bytes} (works : IsWorking out contents) where
  -- The call succeeded and added these bytes.
  Added : W → Bytes → Sending × W → Type 0
  Added w bytes r = (r.0 ≡ sent) × (contents r.1 ≡ contents w ++ bytes)

  write_message-Added :
      (max : ℤ) (enforce : Bool) (payload : Bytes) (w : W)
      → (enforce && is_positive max && exceeds (length payload + 1) max) ≡ false
      → Added w (payload ++ newline ∷ []) (write_message out max enforce (ok payload) w)
  unfolding Added sending_of write_message
  write_message-Added max enforce payload w fits =
      let w1 = (out.write w payload).1 in
      let w2 = (out.write_byte w1 newline).1 in
      let grown =
        works.flush_contents w2
        ∙ works.write_byte_contents w1 newline
        ∙ ap (λ b. b ++ newline ∷ []) (works.write_contents w payload)
        ∙ append_assoc (contents w) payload (newline ∷ []) in
      rw
        (
          write_message,
          fits,
          works.write_ok w payload,
          works.write_byte_ok w1 newline,
          works.flush_ok w2,
        )
        (refl, grown)

  write_message-refused :
      (max : ℤ) (payload : Bytes) (w : W)
      → refuses_response max payload ≡ true
      → write_message out max true (ok payload) w ≡ (response_too_large, w)
  unfolding refuses_response write_message
  write_message-refused max payload w long = rw (write_message, long) refl

-- An encoder that never fails.
abbrev pub encode_text : (Response → Bytes) → Response → Result Bytes
encode_text text response = ok (text response)

module _ {D W : Type 0} (text_length : Json → ℕ) (handlers : List (Handler D)) (options : Options)
    (parse : Bytes → Option Json) (text : Response → Bytes) (out : Writer W) where
  unfoldable pub answer_line : ℕ → Bytes → D → Answer × D
  answer_line n m d =
      answer_reading text_length handlers options parse (encode_text text) out (reading_of n m) d

  failure_text : Json → Bytes
  failure_text id = text (error_response id internal_error (codes "internal error"))

  module _ {contents : W → Bytes} (works : IsWorking out contents) where
    write_response-Added :
        (response : Response) (w : W)
        → Added works w
            (shown text options.max_response_bytes (replies response))
            (write_response text_length handlers options parse (encode_text text) out response w)
    unfolding failure_text shown write_response after_response write_error Added
    write_response-Added response w =
        let go_on =
          after_response text_length handlers options parse (encode_text text) out response.id in
        elim (Bool-cases (refuses_response options.max_response_bytes (text response))) [
          | inl long ↦
              let refused =
                write_message-refused works options.max_response_bytes (text response) w long in
              rw long (
                subst (Added works w (failure_text response.id ++ newline ∷ []))
                  (sym (ap go_on refused))
                  (write_message-Added works options.max_response_bytes false
                    (failure_text response.id) w refl))
          | inr fits ↦
              let r = write_message out options.max_response_bytes true (ok (text response)) w in
              let added =
                write_message-Added works options.max_response_bytes true (text response) w
                  (unfold refuses_response in fits) in
              rw fits (
                subst (Added works w (text response ++ newline ∷ []))
                  (sym (ap (λ s. go_on (s, r.1)) added.0)) (refl, added.1))
        ]

    send-Added :
        (answer : Answer) (w : W)
        → Added works w
            (shown text options.max_response_bytes answer)
            (send text_length handlers options parse (encode_text text) out answer w)
    unfolding send shown Added
    send-Added silence w = (refl, sym (append-nil (contents w)))
    send-Added (reports response) w =
        write_message-Added works options.max_response_bytes false (text response) w refl
    send-Added (replies response) w = write_response-Added response w

  -- What the server writes for these lines, one after the other, and the disk then.
  unfoldable pub transcript : ℕ → List Bytes → D → Bytes × D
  transcript n [] d = ([], d)
  transcript n (m ∷ ms) d =
      let (answer, d1) = answer_line n m d in
      let (later, d2) = transcript n ms d1 in
      (shown text options.max_response_bytes answer ++ later, d2)

  -- A run that has come to the end of its input, having written these bytes and left this disk.
  abbrev pub HasWritten : (W → Bytes) → W → Bytes × D → RunEnd × D × W → Type 0
  HasWritten contents w goal r =
      (r.0 ≡ completed) × (r.1 ≡ goal.1) × (contents r.2 ≡ contents w ++ goal.0)

  module _ {contents : W → Bytes} (works : IsWorking out contents) (n : ℕ)
      (limit : options.max_message_bytes ≡ pos n) where
    after_turn-reading_of :
        (m : Bytes) (before after : D × W) (rest : RunEnd × D × W)
        → after_turn (reading_of n m) sent before after rest ≡ rest
    unfolding after_turn reading_of
    after_turn-reading_of m before after rest = elim (Bool-cases (ltb 0 n && ltb n (length m))) [
      | inl long ↦ rw long refl
      | inr short ↦ rw short refl
    ]

    -- One turn at a framed line.
    run_turn :
        (fuel turn : ℕ) (m : Bytes) (rest : Input) (d : D) (w : W)
        → IsFramed n m
        → run text_length handlers options parse
            (encode_text text)
            out
            (λ t. false)
            (suc fuel)
            turn
            (feed m (byte newline rest))
            d
            w
          ≡ run text_length handlers options parse
              (encode_text text)
              out
              (λ t. false)
              fuel
              (turn + 1)
              rest
              (answer_line n m d).1
              (send text_length handlers options parse
                (encode_text text)
                out
                (answer_line n m d).0
                w).1
    unfolding answer_line Added run
    run_turn fuel turn m rest d w framed =
        let read : read_message options.max_message_bytes (feed m (byte newline rest))
            ≡ (reading_of n m, rest) =
          ap (λ l. read_message l (feed m (byte newline rest))) limit
          ∙ read_message-reading_of n m rest framed in
        rw (run, read, (send-Added works (answer_line n m d).0 w).0) (after_turn-reading_of m _ _ _)

    run_at_end :
        (fuel turn : ℕ) (d : D) (w : W)
        → run text_length handlers options parse
            (encode_text text)
            out
            (λ t. false)
            (suc fuel)
            turn
            (ended eof)
            d
            w
          ≡ (completed, d, w)
    unfolding run after_turn read_message read_line
    run_at_end fuel turn d w = refl

    -- Over whole lines that the limit frames, with an encoder that never fails, an output that works
    -- and a context that is never done, the server answers every line in its order and then ends:
    -- what it has written and the disk are those of the transcript.
    pub run-transcript :
        (ms : List Bytes) (fuel turn : ℕ) (d : D) (w : W)
        → All (IsFramed n) ms
        → length ms < fuel
        → HasWritten contents w (transcript n ms d) (
            run text_length handlers options parse
              (encode_text text)
              out
              (λ t. false)
              fuel
              turn
              (lines_input ms)
              d
              w)
    unfolding transcript Added
    run-transcript ms zero turn d w framed enough = elim enough [ ]
    run-transcript [] (suc fuel) turn d w framed enough =
        rw (run_at_end fuel turn d w) (refl, refl, sym (append-nil (contents w)))
    run-transcript (m ∷ ms) (suc fuel) turn d w framed enough =
        let (answer, d1) = answer_line n m d in
        let w1 = (send text_length handlers options parse (encode_text text) out answer w).1 in
        let (ends, disk, written) =
          run-transcript ms fuel (turn + 1) d1 w1 framed.1 (omega arith) in
        let grown = (send-Added works answer w).1 in
        rw (run_turn fuel turn m (lines_input ms) d w framed.0) (
          ends,
          disk,
          written
              ∙ ap (λ b. b ++ (transcript n ms d1).0) grown
              ∙ append_assoc (contents w) (shown text options.max_response_bytes answer)
                  (transcript n ms d1).0,
        )
