-- ===== src/Model.antt =====
-- model/types.go: the transcript types and their defensive copies. Metadata values are the cases
-- of `any` that the code reads; raw JSON is its text.
pub mod Copies
use Prim.Native.String.{◌++◌ as text_append}
use memax_go_agent_sdk.Prelude.{
  String, Bool, true, false, not, ◌||◌, Option, none, some, List, [], ◌∷◌, map, Dict, lookup, ◌==◌,
  if◌then◌else◌,
}
use memax_go_agent_sdk.Prelude.Text.{trim_space}
use memax_go_agent_sdk.Prelude.Int.{ℤ}

-- Role is a string; the four constants and any other text.
pub data Role : Type 0 where
  system user assistant tool : Role
  custom : String → Role

pub data ContentType : Type 0 where
  text tool_use provider_artifact : ContentType
  other_type : String → ContentType

-- The dynamic types that metadata values have.
pub data Value : Type 0 where
  flag : Bool → Value
  word : String → Value
  number : ℤ → Value
  words : List String → Value

abbrev pub Metadata : Type 0
Metadata = Dict Value

pub record ToolUse : Type 0 where
  pub id : String
  pub name : String
  pub input : String

pub record ProviderArtifact : Type 0 where
  pub provider : String
  pub type : String
  pub id : String
  pub payload : String

pub record ContentBlock : Type 0 where
  pub type : ContentType
  pub text : String
  pub tool_use : Option ToolUse
  pub provider_artifact : Option ProviderArtifact

pub record ToolResult : Type 0 where
  pub tool_use_id : String
  pub name : String
  pub content : String
  pub is_error : Bool
  pub metadata : Metadata

pub record Message : Type 0 where
  pub id : String
  pub role : Role
  pub content : List ContentBlock
  pub tool_result : Option ToolResult
  pub metadata : Metadata

pub record ToolSpec : Type 0 where
  pub name : String
  pub description : String
  pub search_hint : String
  pub read_only : Bool
  pub concurrency_safe : Bool
  pub destructive : Bool
  pub always_load : Bool
  pub should_defer : Bool
  pub max_result_bytes : ℤ

abbrev pub is_tool_role : Role → Bool
is_tool_role tool = true
is_tool_role system = false
is_tool_role user = false
is_tool_role assistant = false
is_tool_role (custom s) = false

abbrev pub is_assistant_role : Role → Bool
is_assistant_role assistant = true
is_assistant_role system = false
is_assistant_role user = false
is_assistant_role tool = false
is_assistant_role (custom s) = false

abbrev pub is_user_role : Role → Bool
is_user_role user = true
is_user_role system = false
is_user_role assistant = false
is_user_role tool = false
is_user_role (custom s) = false

abbrev pub is_text : ContentType → Bool
is_text text = true
is_text tool_use = false
is_text provider_artifact = false
is_text (other_type s) = false

abbrev pub is_tool_use : ContentType → Bool
is_tool_use tool_use = true
is_tool_use text = false
is_tool_use provider_artifact = false
is_tool_use (other_type s) = false

-- Message.PlainText, over its content.
unfoldable pub plain_text_of : List ContentBlock → String
plain_text_of [] = ""
plain_text_of (b ∷ bs) =
    if is_text b.type then text_append b.text (plain_text_of bs) else plain_text_of bs

unfoldable pub plain_text : Message → String
unfolding plain_text_of
plain_text m = plain_text_of m.content

-- `json.Valid` decides the JSON grammar; the copies only ask it.
module _ (json_valid : String → Bool) where
  unfoldable pub normalize_tool_input : String → String
  normalize_tool_input input =
      if trim_space input == "" || not (json_valid input) then "{}" else input

  unfoldable pub normalize_tool_use : ToolUse → ToolUse
  unfolding normalize_tool_input
  normalize_tool_use use_ = record use_ { input = normalize_tool_input use_.input }

  unfoldable pub clone_content_block : ContentBlock → ContentBlock
  unfolding normalize_tool_use
  clone_content_block b = elim b.tool_use [
    | none ↦ b
    | some u ↦ record b { tool_use = some (normalize_tool_use u) }
  ]

  unfoldable pub clone_content_blocks : List ContentBlock → List ContentBlock
  unfolding clone_content_block
  clone_content_blocks bs = map clone_content_block bs

  unfoldable pub clone_message : Message → Message
  unfolding clone_content_blocks
  clone_message m = record m { content = clone_content_blocks m.content }

  unfoldable pub clone_messages : List Message → List Message
  unfolding clone_message
  clone_messages ms = map clone_message ms

-- internal/metadatavalues: a value of another type reads as the zero value.
unfoldable pub bool_value : Metadata → String → Bool
bool_value m k = elim (lookup k m) [ some (flag b) ↦ b | _ ↦ false ]

unfoldable pub string_value : Metadata → String → String
string_value m k = elim (lookup k m) [ some (word s) ↦ s | _ ↦ "" ]
