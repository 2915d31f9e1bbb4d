-- ===== src/Tools/Outcomes.antt =====
-- What a client learns of an error (tool_list_directory.go), and the registry's order (registry.go).
use fileserver_mcp.Base.{
  [], ◌∷◌, List, Text, ◌=ᵗ◌, text_eq_iff, text_eq_sym, false, some, if◌then◌else◌, ◌≡◌, ◌↔◌, refl,
  sym, Bool-cases, inl, inr, Error,
}
use fileserver_mcp.Protocol.{internal_error}
use fileserver_mcp.Tools.Category.{
  io_error, Category, classify_filesystem_error, category_code, map_filesystem_error,
}
use fileserver_mcp.Tools.Registry.{Tool, Registry, put, tool_of, get, listed_in, list, appended}
use fileserver_mcp.Tools.Registry

category_code-internal_iff : (c : Category) → (category_code c ≡ internal_error) ↔ (c ≡ io_error)
unfolding category_code
category_code-internal_iff io_error = ((λ h. refl), (λ h. refl))
category_code-internal_iff _ = ((λ h. cc), (λ h. cc))

-- An error of the file system is reported as internal exactly if none of the categories that the
-- client can act on fits it.
pub map_filesystem_error-internal_iff :
    (e : Error)
    → ((map_filesystem_error e).code ≡ internal_error) ↔ (classify_filesystem_error e ≡ io_error)
unfolding map_filesystem_error
map_filesystem_error-internal_iff e = category_code-internal_iff (classify_filesystem_error e)

module _ {D : Type 0} where
  tool_of-put :
      (tools : List (Tool D)) (tool : Tool D) (name : Text)
      → tool_of name (put tool tools)
        ≡ (if tool.name =ᵗ name then some tool else tool_of name tools)
  unfolding put tool_of
  tool_of-put [] tool name = refl
  tool_of-put (t ∷ tools) tool name = elim (Bool-cases (t.name =ᵗ tool.name)) [
    | inl same ↦ elim (Bool-cases (tool.name =ᵗ name)) [
      | inl asked ↦ rw (same, asked) refl
      | inr else_ ↦
          let equal = (text_eq_iff t.name tool.name).0 same in
          let other : (t.name =ᵗ name) ≡ false = rw equal else_ in rw (same, other, else_) refl
    ]
    | inr differ ↦ elim (Bool-cases (t.name =ᵗ name)) [
      | inr other ↦ rw (differ, other) (tool_of-put tools tool name)
      | inl asked ↦
          let equal = (text_eq_iff t.name name).0 asked in
          let other : (tool.name =ᵗ name) ≡ false =
            rw (text_eq_sym tool.name name, sym equal) differ in
          rw (differ, asked, other) refl
    ]
  ]

  -- Get finds the tool that was registered last under the name.
  pub get-register :
      (r : Registry D) (tool : Tool D) (name : Text)
      → get (Registry.register r tool) name ≡ (if tool.name =ᵗ name then some tool else get r name)
  unfolding get Registry.register
  get-register r tool name = tool_of-put r.tools tool name
