-- ===== src/Boot/ReadOnly.antt =====
-- tools_boot.go: with MCP_READ_ONLY set, no request changes the disk.
use fileserver_mcp.Base.{
  ℕ, [], ◌∷◌, List, Text, Bytes, ◌=ᵗ◌, Bool, true, ℤ, Option, none, some, Result, ◌≡◌, refl, All,
  Bool-cases, Option-cases, inl, inr, arith, sym, subst,
}
use fileserver_mcp.Protocol.{Json, Response}
use fileserver_mcp.Tools.Execute.{FileSystem, list_directory, read_file, get_path_info}
use fileserver_mcp.Tools.Registry.{Tool, Registry, put, tool_of, get}
use fileserver_mcp.Tools.Registry
use fileserver_mcp.Tools.Handlers.{call, list_tools, validate_call_params}
use fileserver_mcp.Initialize.{initialize}
use fileserver_mcp.Router.{Handler}
use fileserver_mcp.Router
use fileserver_mcp.Transport.{Input, Writer}
use fileserver_mcp.Server.Serving.{Options, run}
use fileserver_mcp.Server.Loop.{Keeps, run-keeps}
use fileserver_mcp.Boot.{
  capabilities_from_read_only, tool, read_tools, create_tool_registry, create_router,
}

module _ {D : Type 0} (filesystem : FileSystem D) (d : D) (raw : Json) where
  list_directory-reads : (list_directory filesystem d raw).1 ≡ d
  unfolding list_directory
  list_directory-reads = ground arith

  read_file-reads : (max : ℤ) → (read_file filesystem d max raw).1 ≡ d
  unfolding read_file
  read_file-reads max = ground arith

  get_path_info-reads : (get_path_info filesystem d raw).1 ≡ d
  unfolding get_path_info
  get_path_info-reads = ground arith

module _ {D : Type 0} (P : D → Type 0) where
  KeepsTool : Tool D → Type 0
  KeepsTool t = (d : D) (raw : Json) → P d → P (t.execute d raw).1

  put-All :
      (Q : Tool D → Type 0) (t : Tool D) (tools : List (Tool D))
      → Q t
      → All Q tools
      → All Q (put t tools)
  unfolding put
  put-All Q t [] ht h = (ht, tt)
  put-All Q t (u ∷ tools) ht h = elim (Bool-cases (u.name =ᵗ t.name)) [
    | inl same ↦ rw (same, All) (ht, h.1)
    | inr other ↦ rw (other, All) (h.0, put-All Q t tools ht h.1)
  ]

  OnSome : (Tool D → Type 0) → Option (Tool D) → Type 0
  OnSome Q none = Unit
  OnSome Q (some t) = Q t

  tool_of-OnSome :
      (Q : Tool D → Type 0) (name : Text) (tools : List (Tool D))
      → All Q tools
      → OnSome Q (tool_of name tools)
  unfolding tool_of OnSome
  tool_of-OnSome Q name [] h = tt
  tool_of-OnSome Q name (u ∷ tools) h = elim (Bool-cases (u.name =ᵗ name)) [
    | inl same ↦ rw (OnSome, same) h.0
    | inr other ↦ rw (OnSome, other) (tool_of-OnSome Q name tools h.1)
  ]

  tool_of-All :
      (Q : Tool D → Type 0) (name : Text) (tools : List (Tool D)) (t : Tool D)
      → All Q tools
      → tool_of name tools ≡ some t
      → Q t
  unfolding OnSome
  tool_of-All Q name tools t h e = subst (λ o. OnSome Q o) e (tool_of-OnSome Q name tools h)

  register-All :
      (handlers : List (Handler D)) (h : Handler D)
      → Keeps P h
      → All (Keeps P) handlers
      → All (Keeps P) (Router.register handlers h)
  unfolding Router.register
  register-All [] h hh hk = (hh, tt)
  register-All (g ∷ handlers) h hh hk = elim (Bool-cases (g.method =ᵗ h.method)) [
    | inl same ↦ rw (same, All) (hh, hk.1)
    | inr other ↦ rw (other, All) (hk.0, register-All handlers h hh hk.1)
  ]

  module _ (text_of : Bytes → Text) (marshal : Json → Text) (registry : Registry D) where
    call-keeps :
        (d : D) (params : Option Json)
        → All KeepsTool registry.tools
        → P d
        → P (call text_of marshal registry d params).1
    unfolding call get KeepsTool
    call-keeps d params hk hp = elim (Option-cases (validate_call_params params)) [
      | inl bad ↦ rw (bad, call) hp
      | inr ((name, arguments), good) ↦ elim (Option-cases (tool_of name registry.tools)) [
        | inl absent ↦ rw (good, call, get, absent) hp
        | inr (t, found) ↦
            rw (good, call, get, found)
              (tool_of-All KeepsTool name registry.tools t hk found d arguments hp)
      ]
    ]

initialize-keeps :
    {D : Type 0} (P : D → Type 0) (name version : Text) (d : D) (params : Option Json)
    → P d
    → P (initialize name version d params).1
unfolding initialize
initialize-keeps P name version d params hp = subst P (ground arith) hp

list_tools-keeps :
    {D : Type 0} (P : D → Type 0) (registry : Registry D) (d : D) (params : Option Json)
    → P d
    → P (list_tools registry d params).1
unfolding list_tools
list_tools-keeps P registry d params hp = subst P (ground arith) hp

module _ {D : Type 0} (P : D → Type 0) (definition : Text → Json) (filesystem : FileSystem D)
    (max_file_size : ℤ) where
  read_tools-KeepsTool :
      All (KeepsTool P) (Registry.tools (read_tools definition filesystem max_file_size))
  unfolding read_tools Registry.register KeepsTool tool
  read_tools-KeepsTool =
      put-All P (KeepsTool P) _ _
        (λ d raw hp. subst P (sym (get_path_info-reads filesystem d raw)) hp)
        (put-All P (KeepsTool P) _ _
          (λ d raw hp. subst P (sym (read_file-reads filesystem d raw max_file_size)) hp)
          (put-All P (KeepsTool P) _ _
            (λ d raw hp. subst P (sym (list_directory-reads filesystem d raw)) hp) tt))

  read_only_router-Keeps :
      (text_of : Bytes → Text) (marshal : Json → Text) (name version : Text)
      → All (Keeps P) (
          create_router text_of marshal name version (
            create_tool_registry definition filesystem max_file_size
              (capabilities_from_read_only true)))
  unfolding create_router create_tool_registry
  read_only_router-Keeps text_of marshal name version =
      let registry = read_tools definition filesystem max_file_size in
      register-All P _ _
        (λ d params hp. call-keeps P text_of marshal registry d params read_tools-KeepsTool hp)
        (register-All P _ _ (λ d params hp. list_tools-keeps P registry d params hp)
          (register-All P [] _ (λ d params hp. initialize-keeps P name version d params hp) tt))

-- A server that is started with MCP_READ_ONLY leaves the disk as it was, whatever the input, the
-- options and the file system are, and however the run ends.
pub run-read_only :
    {D W : Type 0} (definition : Text → Json) (filesystem : FileSystem D) (max_file_size : ℤ)
    (name version : Text) (text_of : Bytes → Text) (marshal : Json → Text) (text_length : Json → ℕ)
    (options : Options) (parse : Bytes → Option Json) (encode : Response → Result Bytes)
    (out : Writer W) (cancelled : ℕ → Bool) (fuel turn : ℕ) (input : Input) (d : D) (w : W)
    → (run text_length
        (create_router text_of marshal name version (
          create_tool_registry definition filesystem max_file_size
            (capabilities_from_read_only true)))
        options
        parse
        encode
        out
        cancelled
        fuel
        turn
        input
        d
        w).1
      ≡ d
run-read_only definition filesystem max_file_size name version text_of marshal text_length options
      parse encode out cancelled fuel turn input d w =
    run-keeps (λ d'. d' ≡ d) text_length _ options parse encode out cancelled fuel turn input d w
      (read_only_router-Keeps (λ d'. d' ≡ d) definition filesystem max_file_size text_of marshal
        name version)
      refl
