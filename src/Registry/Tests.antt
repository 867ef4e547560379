-- ===== src/Registry/Tests.antt =====
-- Tests of tool/registry.go on two tools.
use memax_go_agent_sdk.Prelude.{
  String, true, false, Option, none, some, [], ◌∷◌, lookup, insert, ok, ◌≡◌, refl,
}
use memax_go_agent_sdk.Prelude.Int.{pos}
use memax_go_agent_sdk.Model.{ToolSpec}
use memax_go_agent_sdk.Registry.{
  Tool, Registry, register, add_entry, compile_input_schema, new_registry, specs,
}
use memax_go_agent_sdk.Registry.Specs.{Added, register-specs}

abbrev spec : String → ToolSpec
spec name = record {
  name = name;
  description = "";
  search_hint = "";
  read_only = false;
  concurrency_safe = false;
  destructive = false;
  always_load = false;
  should_defer = false;
  max_result_bytes = pos 0;
}

abbrev tool : String → Tool
tool name = record { spec = spec name; input_schema = ""; concurrent = λ u. true }

abbrev compiles : String → Option String
compiles s = some s

abbrev one_tool : Registry
one_tool = record {
  entries = ("read", record { tool = tool "read"; input_schema = none }) ∷ [];
  order = "read" ∷ [];
}

abbrev two_tools : Registry
two_tools = record {
  entries =
      ("read", record { tool = tool "read"; input_schema = none })
      ∷ ("write", record { tool = tool "write"; input_schema = none })
      ∷ [];
  order = "read" ∷ "write" ∷ [];
}

-- A tool with a name that is taken is dropped.
built :
    new_registry compiles
      (some (tool "read") ∷ none ∷ some (tool "write") ∷ some (tool "read") ∷ [])
    ≡ two_tools
unfolding new_registry register add_entry compile_input_schema lookup insert
built = refl

listed : specs one_tool ≡ some (spec "read" ∷ [])
unfolding specs lookup
listed = refl

registered : register compiles one_tool (some (tool "write")) ≡ ok two_tools
unfolding register add_entry compile_input_schema lookup insert
registered = refl

register-specs_example : Added one_tool two_tools (tool "write") (spec "read" ∷ [])
register-specs_example =
    register-specs compiles one_tool two_tools (tool "write") (spec "read" ∷ []) listed registered
