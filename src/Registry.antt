-- ===== src/Registry.antt =====
-- tool/registry.go: the registry of tools. Of a tool it holds what the tool's own CanRunConcurrently
-- answers; `compile` stands for the schema compiler, on a schema that is not empty. A schema is its
-- text, and Specs gives none where it would read a missing entry.
use memax_go_agent_sdk.Prelude.{
  String, Bool, true, false, Option, none, some, List, [], ◌∷◌, ◌++◌, Dict, lookup, insert, has,
  ◌==◌, if◌then◌else◌, Result, ok, err, ◌>>=◌,
}
use memax_go_agent_sdk.Model.{ToolUse, ToolSpec}
pub mod Specs
pub mod Tests

pub record Tool : Type 0 where
  pub spec : ToolSpec
  pub input_schema : String
  pub concurrent : ToolUse → Bool

pub record Entry : Type 0 where
  pub tool : Tool
  pub input_schema : Option String

pub record Registry : Type 0 where
  pub entries : Dict Entry
  pub order : List String

pub data Error : Type 0 where
  nil_tool empty_name : Error
  bad_schema already_registered : String → Error

abbrev pub empty_registry : Registry
empty_registry = record { entries = []; order = [] }

module _ (compile : String → Option String) where
  -- compileInputSchema
  unfoldable pub compile_input_schema : String → String → Result Error (Option String)
  compile_input_schema name raw =
      if raw == ""
      then ok none
      else (elim (compile raw) [ none ↦ err (bad_schema name) | some s ↦ ok (some s) ])

  -- The end of Register, under the lock.
  unfoldable pub add_entry : Registry → Tool → Option String → Result Error Registry
  add_entry r t schema =
      if has t.spec.name r.entries
      then err (already_registered t.spec.name)
      else ok (record {
        entries = insert t.spec.name (record { tool = t; input_schema = schema }) r.entries;
        order = r.order ++ t.spec.name ∷ [];
      })

  -- Register
  unfoldable pub register : Registry → Option Tool → Result Error Registry
  register r none = err nil_tool
  register r (some t) =
      if t.spec.name == ""
      then err empty_name
      else do schema ← compile_input_schema t.spec.name t.input_schema; add_entry r t schema

  abbrev pub kept : Registry → Result Error Registry → Registry
  kept r (ok s) = s
  kept r (err e) = r

  -- The loop of NewRegistry, which drops the errors.
  unfoldable pub register_all : Registry → List (Option Tool) → Registry
  register_all r [] = r
  register_all r (t ∷ ts) = register_all (kept r (register r t)) ts

  -- NewRegistry
  unfoldable pub new_registry : List (Option Tool) → Registry
  unfolding register_all
  new_registry ts = register_all empty_registry ts

abbrev pub tool_of : Option Entry → Option Tool
tool_of none = none
tool_of (some e) = some e.tool

-- Get
unfoldable pub get : Registry → String → Option Tool
get r name = tool_of (lookup name r.entries)

abbrev pub spec_before : Option Entry → Option (List ToolSpec) → Option (List ToolSpec)
spec_before none rest = none
spec_before (some e) none = none
spec_before (some e) (some ss) = some (e.tool.spec ∷ ss)

-- The loop of Specs.
unfoldable pub specs_from : Dict Entry → List String → Option (List ToolSpec)
specs_from entries [] = some []
specs_from entries (name ∷ names) = spec_before (lookup name entries) (specs_from entries names)

-- Specs
unfoldable pub specs : Registry → Option (List ToolSpec)
unfolding specs_from
specs r = specs_from r.entries r.order
