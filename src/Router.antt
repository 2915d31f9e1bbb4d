-- ===== src/Router.antt =====
-- internal/mcp/router/router.go: the handlers of the methods.
use fileserver_mcp.Base.{
  [], ◌∷◌, List, Text, codes, ◌=ᵗ◌, text_eq_iff, text_eq_sym, sym, Option, none, some,
  if◌then◌else◌, false, ◌≡◌, refl, Bool-cases, inl, inr,
}
use fileserver_mcp.Protocol.{Json, method_not_found, RpcError}

-- What a handler makes of a request: `(any, *protocol.Error)`, or a panic.
pub data Handling : Type 0 where
  answers : Json → Handling
  refuses : RpcError → Handling
  panics : Handling

-- handlers.Handler; the disk `D` is what its tools work on. The parameters of a request may be
-- missing.
pub record Handler (D : Type 0) : Type 0 where
  pub method : Text
  pub handle : D → Option Json → Handling × D

unfoldable pub method_not_found_error : RpcError
method_not_found_error = record { code = method_not_found; message = codes "method not found" }

module _ {D : Type 0} where
  -- `handlers`, with one entry for each method.
  unfoldable pub register : List (Handler D) → Handler D → List (Handler D)
  register [] handler = handler ∷ []
  register (h ∷ handlers) handler =
      let later = register handlers handler in
      if h.method =ᵗ handler.method then handler ∷ handlers else h ∷ later

  unfoldable pub handler_of : Text → List (Handler D) → Option (Handler D)
  handler_of name [] = none
  handler_of name (h ∷ handlers) =
      let later = handler_of name handlers in if h.method =ᵗ name then some h else later

  unfoldable pub dispatch : List (Handler D) → D → Text → Option Json → Handling × D
  dispatch handlers d method params = elim (handler_of method handlers) [
    | none ↦ (refuses method_not_found_error, d)
    | some handler ↦ handler.handle d params
  ]

  -- A method's handler is the one registered last for it.
  pub handler_of-register :
      (handlers : List (Handler D)) (handler : Handler D) (name : Text)
      → handler_of name (register handlers handler)
        ≡ (if handler.method =ᵗ name then some handler else handler_of name handlers)
  unfolding register handler_of
  handler_of-register [] handler name = refl
  handler_of-register (h ∷ handlers) handler name = elim (Bool-cases (h.method =ᵗ handler.method)) [
    | inl same ↦ elim (Bool-cases (handler.method =ᵗ name)) [
      | inl asked ↦ rw (same, asked) refl
      | inr else_ ↦
          let equal = (text_eq_iff h.method handler.method).0 same in
          let other : (h.method =ᵗ name) ≡ false = rw equal else_ in rw (same, other, else_) refl
    ]
    | inr differ ↦ elim (Bool-cases (h.method =ᵗ name)) [
      | inr other ↦ rw (differ, other) (handler_of-register handlers handler name)
      | inl asked ↦
          let equal = (text_eq_iff h.method name).0 asked in
          let other : (handler.method =ᵗ name) ≡ false =
            rw (text_eq_sym handler.method name, sym equal) differ in
          rw (differ, asked, other) refl
    ]
  ]
