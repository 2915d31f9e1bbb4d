-- ===== src/Server/Loop.antt =====
-- server.go, Run: the loop ends, and it keeps what every handler keeps.
use fileserver_mcp.Base.{
  ℕ, zero, suc, ◌+◌, ◌<◌, List, Bytes, Bool, Option, Result, ◌≢◌, Bool-cases, inl, inr, All, arith,
  [], ◌∷◌, Text, ◌=ᵗ◌,
}
use fileserver_mcp.Protocol.{Json, Response}
use fileserver_mcp.Router.{Handler, dispatch, handler_of}
use fileserver_mcp.Transport.{
  Input, eof, broken, Reading, line, message_too_large, stopped, read_message, Writer, Sending,
  sent, response_too_large, not_sent,
}
use fileserver_mcp.Transport.Framing.{unread, Progress, read_message-Progress}
use fileserver_mcp.Server.Validation.{Validation, accepted, rejected, validate_request_message}
use fileserver_mcp.Server.Serving.{
  Options, RunEnd, out_of_fuel, answer_validated, answer_message, handle_request, answer_reading,
  run, after_turn,
}

-- The handler takes disks with the property to disks with it.
abbrev pub Keeps : {D : Type 0} → (D → Type 0) → Handler D → Type 0
Keeps {D} P h = (d : D) (params : Option Json) → P d → P (h.handle d params).1

Ends : {D W : Type 0} → RunEnd × D × W → Type 0
Ends r = r.0 ≢ out_of_fuel

after_turn-Ends :
    {D W : Type 0} (n : ℕ) (reading : Reading) (input : Input) (sending : Sending)
    (before after : D × W) (rest : RunEnd × D × W)
    → Progress n (reading, input)
    → (unread input < n → Ends rest)
    → Ends (after_turn reading sending before after rest)
unfolding Ends after_turn
after_turn-Ends n (stopped eof) input sending before after rest hp hr = λ h. cc
after_turn-Ends n (stopped (broken e)) input sending before after rest hp hr = λ h. cc
after_turn-Ends n (line l) input sent before after rest hp hr = hr hp
after_turn-Ends n (line l) input (not_sent e) before after rest hp hr = λ h. cc
after_turn-Ends n (line l) input response_too_large before after rest hp hr = λ h. cc
after_turn-Ends n message_too_large input sent before after rest hp hr = hr hp
after_turn-Ends n message_too_large input (not_sent e) before after rest hp hr = λ h. cc
after_turn-Ends n message_too_large input response_too_large before after rest hp hr = λ h. cc

module _ {D : Type 0} (text_length : Json → ℕ) (handlers : List (Handler D)) (options : Options)
    {W : Type 0} (parse : Bytes → Option Json) (encode : Response → Result Bytes)
    (out : Writer W) where
  -- With more turns than bytes to read, the loop comes to its end.
  pub run-ends :
      (cancelled : ℕ → Bool) (fuel turn : ℕ) (input : Input) (d : D) (w : W)
      → unread input < fuel
      → (run text_length handlers options parse encode out cancelled fuel turn input d w).0
        ≢ out_of_fuel
  unfolding run Ends
  run-ends cancelled zero turn input d w h = ground arith
  run-ends cancelled (suc fuel) turn input d w h = elim (Bool-cases (cancelled turn)) [
    | inl done_ ↦ rw done_ (λ h. cc)
    | inr going ↦
        let (reading, input') = read_message options.max_message_bytes input in
        let progress = read_message-Progress options.max_message_bytes input in
        rw going (
          after_turn-Ends (unread input) reading input' _ _ _ _ progress
            (λ shorter. run-ends cancelled fuel (turn + 1) input' _ _ (omega arith)))
  ]

after_turn-keeps :
    {D W : Type 0} (P : D → Type 0) (reading : Reading) (sending : Sending) (before after : D × W)
    (rest : RunEnd × D × W)
    → P before.0
    → P after.0
    → P rest.1
    → P (after_turn reading sending before after rest).1
unfolding after_turn
after_turn-keeps P (stopped eof) sending before after rest h0 h1 h2 = h0
after_turn-keeps P (stopped (broken e)) sending before after rest h0 h1 h2 = h0
after_turn-keeps P (line l) sent before after rest h0 h1 h2 = h2
after_turn-keeps P (line l) (not_sent e) before after rest h0 h1 h2 = h1
after_turn-keeps P (line l) response_too_large before after rest h0 h1 h2 = h1
after_turn-keeps P message_too_large sent before after rest h0 h1 h2 = h2
after_turn-keeps P message_too_large (not_sent e) before after rest h0 h1 h2 = h1
after_turn-keeps P message_too_large response_too_large before after rest h0 h1 h2 = h1

module _ {D : Type 0} (P : D → Type 0) where
  dispatch-keeps :
      (handlers : List (Handler D)) (d : D) (method : Text) (params : Option Json)
      → All (Keeps P) handlers
      → P d
      → P (dispatch handlers d method params).1
  unfolding dispatch handler_of
  dispatch-keeps [] d method params hk hp = hp
  dispatch-keeps (h ∷ handlers) d method params hk hp = elim (Bool-cases (h.method =ᵗ method)) [
    | inl same ↦ rw (same, dispatch) (hk.0 d params hp)
    | inr other ↦ rw (other, dispatch) (dispatch-keeps handlers d method params hk.1 hp)
  ]

  module _ (text_length : Json → ℕ) (handlers : List (Handler D)) (options : Options) where
    answer_validated-keeps :
        (v : Validation) (d : D)
        → All (Keeps P) handlers
        → P d
        → P (answer_validated text_length handlers options v d).1
    unfolding answer_validated handle_request
    answer_validated-keeps (rejected e) d hk hp = hp
    answer_validated-keeps (accepted request) d hk hp = elim (Bool-cases request.notification) [
      | inl note ↦ rw note hp
      | inr asked ↦ rw asked (dispatch-keeps handlers d request.method request.params hk hp)
    ]

    module _ {W : Type 0} (parse : Bytes → Option Json) (encode : Response → Result Bytes)
        (out : Writer W) where
      answer_reading-keeps :
          (r : Reading) (d : D)
          → All (Keeps P) handlers
          → P d
          → P (answer_reading text_length handlers options parse encode out r d).1
      unfolding answer_reading answer_message
      answer_reading-keeps (line message) d hk hp =
          answer_validated-keeps
            (validate_request_message text_length options.max_argument_bytes (parse message)) d hk
            hp
      answer_reading-keeps message_too_large d hk hp = hp
      answer_reading-keeps (stopped e) d hk hp = hp

      -- What every handler keeps of the disk, the whole run keeps, however it ends.
      pub run-keeps :
          (cancelled : ℕ → Bool) (fuel turn : ℕ) (input : Input) (d : D) (w : W)
          → All (Keeps P) handlers
          → P d
          → P (run text_length handlers options parse encode out cancelled fuel turn input d w).1
      unfolding run
      run-keeps cancelled zero turn input d w hk hp = hp
      run-keeps cancelled (suc fuel) turn input d w hk hp =
          let (reading, input') = read_message options.max_message_bytes input in
          let kept = answer_reading-keeps reading d hk hp in
          elim (Bool-cases (cancelled turn)) [
            | inl done_ ↦ rw done_ hp
            | inr going ↦ rw going (
                after_turn-keeps P reading _ (d, w) _ _ hp kept
                  (run-keeps cancelled fuel (turn + 1) input' _ _ hk kept))
          ]
