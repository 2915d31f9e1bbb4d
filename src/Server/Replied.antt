-- ===== src/Server/Replied.antt =====
-- server.go, Run: among the lines of its input, each request gets a response with its id.
use fileserver_mcp.Base.{
  ℕ, ◌<◌, [], ◌∷◌, ◌++◌, List, Bytes, length, codes, false, Bool-cases, ℤ, pos, Option, ◌≡◌, ◌≢◌,
  ◌⊎◌, inl, inr, refl, sym, ap, ◌∙◌, All, arith,
}
use mathlib.Core.List.{append_assoc}
use fileserver_mcp.Protocol.{Json, Response, internal_error}
use fileserver_mcp.Router.{Handler}
use fileserver_mcp.Transport.{newline, line, Writer}
use fileserver_mcp.Server.Serving.{
  Options, error_response, Answer, silence, reports, replies, answer_message, answer_reading, run,
}
use fileserver_mcp.Server.Answers.{
  answer_id, HasId, IsNotification, answer_message-HasId, answer_message-silence_iff,
}
use fileserver_mcp.Server.Transcript.{
  lines_input, IsFramed, reading_of, IsWorking, refuses_response, shown, encode_text, answer_line,
  transcript, run-transcript,
}

-- These bytes hold the line of a response with this id.
pub record HasResponse (text : Response → Bytes) (id : Json) (written : Bytes) : Type 0 where
  pub earlier : Bytes
  pub response : Response
  pub later : Bytes
  pub same_id : response.id ≡ id
  pub in_place : written ≡ earlier ++ ((text response ++ newline ∷ []) ++ later)

module _ (text : Response → Bytes) (max : ℤ) (id : Json) where
  IsShown : Answer → Type 0
  IsShown answer = (r : Response) × (r.id ≡ id) × (shown text max answer ≡ text r ++ newline ∷ [])

  IsShown-HasId : (answer : Answer) → answer ≢ silence → HasId id answer → IsShown answer
  unfolding IsShown shown HasId error_response
  IsShown-HasId silence loud same = elim (loud refl) [ ]
  IsShown-HasId (reports r) loud same = (r, same, refl)
  IsShown-HasId (replies r) loud same = elim (Bool-cases (refuses_response max (text r))) [
    | inl long ↦ rw long (error_response r.id internal_error (codes "internal error"), same, refl)
    | inr fits ↦ rw fits (r, same, refl)
  ]

-- The line is below the limit, or there is none.
abbrev pub IsBelow : ℕ → Bytes → Type 0
IsBelow n m = (n ≡ 0) ⊎ (length m < n)

reading_of-IsBelow : (n : ℕ) (m : Bytes) → IsBelow n m → reading_of n m ≡ line (m ++ newline ∷ [])
unfolding reading_of
reading_of-IsBelow n m below = ground arith

module _ {D W : Type 0} (text_length : Json → ℕ) (handlers : List (Handler D)) (options : Options)
    (parse : Bytes → Option Json) (text : Response → Bytes) (out : Writer W) (n : ℕ) where
  written : List Bytes → D → Bytes
  written ms d = (transcript text_length handlers options parse text out n ms d).0

  first-HasResponse :
      (m : Bytes) (after : List Bytes) (d : D)
      → IsBelow n m
      → ¬ IsNotification (parse (m ++ newline ∷ []))
      → HasResponse text (answer_id (parse (m ++ newline ∷ []))) (written (m ∷ after) d)
  unfolding written transcript answer_line answer_reading IsShown
  first-HasResponse m after d below asks =
      let message = parse (m ++ newline ∷ []) in
      let (r, same, seen) =
        IsShown-HasId text options.max_response_bytes (answer_id message)
          (answer_message text_length handlers options message d).0
          (λ quiet.
            asks ((answer_message-silence_iff text_length handlers options message d).0 quiet))
          (answer_message-HasId text_length handlers options message d) in
      rw (reading_of-IsBelow n m below, seen)
        (record {
          earlier = [];
          response = r;
          later =
              (transcript text_length handlers options parse text out n after
                (answer_message text_length handlers options message d).1).0;
          same_id = same;
          in_place = refl;
        })

  written-HasResponse :
      (before : List Bytes) (m : Bytes) (after : List Bytes) (d : D)
      → IsBelow n m
      → ¬ IsNotification (parse (m ++ newline ∷ []))
      → HasResponse text (answer_id (parse (m ++ newline ∷ []))) (written (before ++ m ∷ after) d)
  unfolding written transcript
  written-HasResponse [] m after d below asks = first-HasResponse m after d below asks
  written-HasResponse (l ∷ ls) m after d below asks =
      let (answer, d1) = answer_line text_length handlers options parse text out n l d in
      let rest = written-HasResponse ls m after d1 below asks in
      let first = shown text options.max_response_bytes answer in
      record {
        earlier = first ++ rest.earlier;
        response = rest.response;
        later = rest.later;
        same_id = rest.same_id;
        in_place =
            ap (λ b. first ++ b) rest.in_place
            ∙ sym (
                append_assoc first rest.earlier
                  ((text rest.response ++ newline ∷ []) ++ rest.later));
      }

  -- Over whole lines that the limit frames, with an encoder that never fails, an output that works
  -- and a context that is never done: each line below the limit that is no notification gets its
  -- response, which has the id of the request (null where it has no valid one); the bytes that the
  -- run adds to the output hold that response on a line of its own.
  pub run-HasResponse :
      {contents : W → Bytes}
      → IsWorking out contents
      → options.max_message_bytes ≡ pos n
      → (before : List Bytes) (m : Bytes) (after : List Bytes) (fuel : ℕ) (d : D) (w : W)
      → All (IsFramed n) (before ++ m ∷ after)
      → length (before ++ m ∷ after) < fuel
      → IsBelow n m
      → ¬ IsNotification (parse (m ++ newline ∷ []))
      → (added : Bytes) × (contents
            (run text_length handlers options parse
              (encode_text text)
              out
              (λ t. false)
              fuel
              0
              (lines_input (before ++ m ∷ after))
              d
              w).2
          ≡ contents w ++ added)
        × HasResponse text (answer_id (parse (m ++ newline ∷ []))) added
  unfolding written
  run-HasResponse works limit before m after fuel d w framed enough below asks = (
    written (before ++ m ∷ after) d,
    (run-transcript text_length handlers options parse text out works n limit (before ++ m ∷ after)
        fuel 0 d w framed enough).2,
    written-HasResponse before m after d below asks,
  )
