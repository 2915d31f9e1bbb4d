-- ===== src/Server/Answers.antt =====
-- server.go and request_validation.go: which messages are answered, and with which id.
use fileserver_mcp.Base.{
  ℕ, List, Text, codes, ◌=ᵗ◌, text_eq_iff, true, false, ℤ, Option, none, some, ◌≡◌, refl, subst, ap,
  ◌⊎◌, inl, inr, ◌↔◌, Bool-cases, Option-cases, arith,
}
use fileserver_mcp.Protocol.{Json, null, obj, Fields, get_field, json_rpc_version}
use fileserver_mcp.Router
use fileserver_mcp.Router.{Handler, dispatch}
use fileserver_mcp.Server.Validation.{
  ValidatedRequest, Validation, accepted, rejected, new_request_validation_error, string_field,
  RequestId, no_id, bad_id, has_id, request_id, request_id_or_null, is_blank,
  validate_method_params, validate_method, validate_version, validate_request_message,
}
use fileserver_mcp.Server.Serving.{
  Options, Answer, silence, reports, replies, handle_request, answer_validated, answer_message,
  response_of, error_response,
}

-- The id that JSON-RPC asks for in the response to a message: the request's, and null where the
-- message has no valid one.
pub answer_id : Option Json → Json
answer_id (some (obj fields)) = request_id_or_null (request_id fields)
answer_id _ = null

pub HasMethod : Fields → Type 0
HasMethod fields =
    (method : Text) × (string_field (codes "method") fields ≡ some method)
    × (is_blank method ≡ false)

-- A message that JSON-RPC gives no response to: an object of the right version with a method, and
-- without an id.
unfoldable pub IsNotification : Option Json → Type 0
IsNotification (some (obj fields)) =
    (string_field (codes "jsonrpc") fields ≡ some json_rpc_version)
    × (get_field (codes "id") fields ≡ none)
    × HasMethod fields
IsNotification _ = ⊥

-- What a response, where there is one, says of its id.
unfoldable pub HasId : Json → Answer → Type 0
HasId id silence = Unit
HasId id (reports response) = response.id ≡ id
HasId id (replies response) = response.id ≡ id

-- A validated request is a notification, or has the message's id; an error has that id, or null.
Judged : Fields → RequestId → Validation → Type 0
Judged fields r (accepted request) =
    ((request.notification ≡ true) × (r ≡ no_id) × HasMethod fields)
    ⊎ ((request.notification ≡ false) × (r ≡ has_id request.id))
Judged fields r (rejected e) = e.id ≡ request_id_or_null r

module _ (text_length : Json → ℕ) (max : ℤ) where
  validate_method-Judged :
      (fields : Fields) (r : RequestId) → Judged fields r (validate_method text_length max fields r)
  unfolding Judged HasMethod validate_method request_id_or_null new_request_validation_error
  validate_method-Judged fields bad_id = refl
  validate_method-Judged fields no_id = elim (Option-cases (string_field (codes "method") fields)) [
    | inl none_found ↦ rw (Judged, none_found) refl
    | inr (method, found) ↦ elim (Bool-cases (is_blank method)) [
      | inl blank ↦ rw (Judged, found, blank) refl
      | inr solid ↦ rw (Judged, found, solid) (inl (refl, refl, (method, found, solid)))
    ]
  ]
  validate_method-Judged fields (has_id id) =
      elim (Option-cases (string_field (codes "method") fields)) [
        | inl none_found ↦ rw (Judged, none_found) refl
        | inr (method, found) ↦ elim (Bool-cases (is_blank method)) [
          | inl blank ↦ rw (Judged, found, blank) refl
          | inr solid ↦
              elim (Option-cases (
                validate_method_params text_length max method
                  (get_field (codes "params") fields))) [
                    | inl bad ↦ rw (Judged, found, solid, bad) refl
                    | inr (params, good) ↦ rw (Judged, found, solid, good) (inr (refl, refl))
                  ]
        ]
      ]

  validate_version-Judged :
      (fields : Fields) (version : Option Text)
      → Judged fields (request_id fields) (validate_version text_length max fields version)
  unfolding validate_version new_request_validation_error Judged
  validate_version-Judged fields none = refl
  validate_version-Judged fields (some version) = elim (Bool-cases (version =ᵗ json_rpc_version)) [
    | inl same ↦ rw same (validate_method-Judged fields (request_id fields))
    | inr other ↦ rw other refl
  ]

response_of-id : (id : Json) (handling : _) → (response_of id handling).id ≡ id
unfolding response_of error_response
response_of-id id (Router.answers value) = refl
response_of-id id (Router.refuses e) = refl
response_of-id id Router.panics = refl

module _ {D : Type 0} (text_length : Json → ℕ) (handlers : List (Handler D))
    (options : Options) where
  answered : Validation → D → Answer
  answered v d = (answer_validated text_length handlers options v d).0

  answer_validated-HasId :
      (fields : Fields) (r : RequestId) (v : Validation) (d : D)
      → Judged fields r v
      → HasId (request_id_or_null r) (answered v d)
  unfolding answered Judged HasId answer_validated error_response handle_request request_id_or_null
  answer_validated-HasId fields r (rejected e) d h = h
  answer_validated-HasId fields r (accepted request) d h = elim h [
    | inl (note, absent, found) ↦ rw (note, HasId) tt
    | inr (note, has) ↦
        rw (note, HasId, has)
          (response_of-id request.id (dispatch handlers d request.method request.params).0)
  ]

  -- An answer has the id that JSON-RPC asks for: the message's, where it has a valid one, and
  -- null otherwise.
  pub answer_message-HasId :
      (message : Option Json) (d : D)
      → HasId (answer_id message) (answer_message text_length handlers options message d).0
  unfolding answer_message answer_id HasId answer_validated validate_request_message error_response
      new_request_validation_error answered
  answer_message-HasId none d = refl
  answer_message-HasId (some (obj fields)) d =
      answer_validated-HasId fields (request_id fields)
        (validate_version text_length options.max_argument_bytes fields
          (string_field (codes "jsonrpc") fields))
        d
        (validate_version-Judged text_length options.max_argument_bytes fields
          (string_field (codes "jsonrpc") fields))
  answer_message-HasId (some _) d = refl

  silent-notification :
      (v : Validation) (d : D)
      → answered v d ≡ silence
      → (request : ValidatedRequest) × (v ≡ accepted request) × (request.notification ≡ true)
  unfolding answered answer_validated
  silent-notification (rejected e) d h = cc
  silent-notification (accepted request) d h = elim (Bool-cases request.notification) [
    | inl note ↦ (request, refl, note)
    | inr other ↦ cc
  ]

  validate_version-right :
      (max : ℤ) (fields : Fields) (version : Option Text) (request : ValidatedRequest)
      → validate_version text_length max fields version ≡ accepted request
      → version ≡ some json_rpc_version
  unfolding validate_version new_request_validation_error
  validate_version-right max fields none request h = cc
  validate_version-right max fields (some version) request h =
      elim (Bool-cases (version =ᵗ json_rpc_version)) [
        | inl same ↦ ap some ((text_eq_iff version json_rpc_version).0 same)
        | inr other ↦ ground arith
      ]

  request_id-eq_no_id :
      (fields : Fields) → (request_id fields ≡ no_id) ↔ (get_field (codes "id") fields ≡ none)
  unfolding request_id
  request_id-eq_no_id fields = ground arith

  check : Fields → Validation
  check fields =
      validate_version text_length options.max_argument_bytes fields
        (string_field (codes "jsonrpc") fields)

  object_silence :
      (fields : Fields) (d : D)
      → answered (check fields) d ≡ silence
      → IsNotification (some (obj fields))
  unfolding IsNotification check Judged
  object_silence fields d h =
      let (request, valid, note) = silent-notification (check fields) d h in
      let judged =
        validate_version-Judged text_length options.max_argument_bytes fields
          (string_field (codes "jsonrpc") fields) in
      let version =
        validate_version-right options.max_argument_bytes fields
          (string_field (codes "jsonrpc") fields) request valid in
      let split : Judged fields (request_id fields) (accepted request) =
        subst (λ v. Judged fields (request_id fields) v) valid judged in
      elim split [
        | inl (_, absent, found) ↦ (version, (request_id-eq_no_id fields).0 absent, found)
        | inr (other, _) ↦ cc
      ]

  notification_silence :
      (fields : Fields) (d : D)
      → IsNotification (some (obj fields))
      → answered (check fields) d ≡ silence
  unfolding IsNotification check answered HasMethod validate_version answer_validated
      validate_method ◌=ᵗ◌
  notification_silence fields d (version, absent, (method, found, solid)) =
      rw
        (
          version,
          validate_version,
          (request_id-eq_no_id fields).1 absent,
          validate_method,
          found,
          solid,
          answer_validated,
        )
        refl

  -- A message is left without an answer exactly if it is a notification: an object of version
  -- 2.0 with a method that is not blank and without an id.
  pub answer_message-silence_iff :
      (message : Option Json) (d : D)
      → ((answer_message text_length handlers options message d).0 ≡ silence)
        ↔ IsNotification message
  unfolding answer_message answered answer_validated validate_request_message IsNotification
      error_response new_request_validation_error check
  answer_message-silence_iff none d = ((λ h. cc), (λ h. elim h [ ]))
  answer_message-silence_iff (some (obj fields)) d =
      (object_silence fields d, notification_silence fields d)
  answer_message-silence_iff (some _) d = ((λ h. cc), (λ h. elim h [ ]))
