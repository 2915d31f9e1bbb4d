-- ===== src/Tools/Registry.antt =====
-- internal/mcp/tools/registry.go, with the tools that it keeps.
use fileserver_mcp.Base.{[], ◌∷◌, ◌++◌, List, Text, ◌=ᵗ◌, Option, none, some, if◌then◌else◌}
use fileserver_mcp.Protocol.{Json}
use fileserver_mcp.Tools.Execute.{Reply}

pub record Tool (D : Type 0) : Type 0 where
  pub name : Text
  pub definition : Json
  pub execute : D → Json → Reply × D

-- `tools` has one entry for each name.
pub record Registry (D : Type 0) : Type 0 where
  pub tools : List (Tool D)
  pub order : List Text

module _ {D : Type 0} where
  abbrev pub new_registry : Registry D
  new_registry = record { tools = []; order = [] }

  unfoldable pub tool_of : Text → List (Tool D) → Option (Tool D)
  tool_of name [] = none
  tool_of name (t ∷ tools) =
      let later = tool_of name tools in if t.name =ᵗ name then some t else later

  unfoldable pub put : Tool D → List (Tool D) → List (Tool D)
  put tool [] = tool ∷ []
  put tool (t ∷ tools) =
      let later = put tool tools in if t.name =ᵗ tool.name then tool ∷ tools else t ∷ later

  unfoldable pub appended : Option (Tool D) → List Text → Text → List Text
  appended none order name = order ++ name ∷ []
  appended (some tool) order name = order

  unfoldable pub register : Registry D → Tool D → Registry D
  register r tool = record {
    tools = put tool r.tools;
    order = appended (tool_of tool.name r.tools) r.order tool.name;
  }

  unfoldable pub get : Registry D → Text → Option (Tool D)
  get r name = tool_of name r.tools

  unfoldable pub listed_in : List (Tool D) → List Text → List (Tool D)
  listed_in tools [] = []
  listed_in tools (name ∷ order) =
      let rest = listed_in tools order in
      elim (tool_of name tools) [ none ↦ rest | some t ↦ t ∷ rest ]

  unfoldable pub list : Registry D → List (Tool D)
  list r = listed_in r.tools r.order
