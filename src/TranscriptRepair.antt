-- ===== src/TranscriptRepair.antt =====
-- internal/transcriptrepair/repair.go: tool results brought next to the calls that they answer.
pub mod Loop
pub mod Ids
pub mod Pairing
pub mod Stability
pub mod Answers
pub mod Tests
use memax_go_agent_sdk.Prelude.{
  ℕ, zero, suc, String, Bool, true, false, not, ◌&&◌, ◌||◌, Option, none, some, List, [], ◌∷◌, ◌++◌,
  length, contains, select, map, ◌==◌, if◌then◌else◌,
}
use memax_go_agent_sdk.Model.{
  Role, ContentBlock, ToolUse, ToolResult, Message, tool, is_tool_role, is_assistant_role,
  is_tool_use, normalize_tool_use, clone_message,
}

abbrev pub interrupted_tool_result_content : String
interrupted_tool_result_content =
    "tool call was interrupted before a result was recorded; continue without relying on this tool output"

-- The keys of the map `known`: an empty ID is not entered.
abbrev pub known_ids : List ToolUse → List String
known_ids [] = []
known_ids (u ∷ us) = if u.id == "" then known_ids us else u.id ∷ known_ids us

-- The record that the loop over `uses` appends for a call with no result.
abbrev pub interrupted : ToolUse → Message
interrupted u = record {
  id = "";
  role = tool;
  content = [];
  tool_result = some (record {
    tool_use_id = u.id;
    name = u.name;
    content = interrupted_tool_result_content;
    is_error = true;
    metadata = [];
  });
  metadata = [];
}

-- The last loop: one record for each call with an ID that was not seen.
unfoldable pub missing : List ToolUse → List String → List Message
missing [] seen = []
missing (u ∷ us) seen =
    if u.id == "" || contains seen u.id then missing us seen else interrupted u ∷ missing us seen

-- What the loop over the tool messages leaves: the messages appended, `seen`, and those from `j` on.
pub record Absorbed : Type 0 where
  pub taken : List Message
  pub seen : List String
  pub rest : List Message

abbrev pub result_id : Option ToolResult → String
result_id none = ""
result_id (some r) = r.tool_use_id

-- The tests on a tool message: it has a result, whose ID is known and not yet seen.
unfoldable pub is_fresh : List String → List String → Option ToolResult → Bool
is_fresh known seen none = false
is_fresh known seen (some r) = contains known r.tool_use_id && not (contains seen r.tool_use_id)

module _ (json_valid : String → Bool) where
  unfoldable pub tool_uses_of : List ContentBlock → List ToolUse
  unfolding normalize_tool_use
  tool_uses_of [] = []
  tool_uses_of (b ∷ bs) =
      let rest = tool_uses_of bs in
      elim b.tool_use [
        | none ↦ rest
        | some u ↦ if is_tool_use b.type then normalize_tool_use json_valid u ∷ rest else rest
      ]

  unfoldable pub assistant_tool_uses : Message → List ToolUse
  unfolding tool_uses_of
  assistant_tool_uses m = if is_assistant_role m.role then tool_uses_of m.content else []

  unfoldable pub absorb : List String → List String → List Message → Absorbed
  unfolding is_fresh
  absorb known seen [] = record { taken = []; seen = seen; rest = [] }
  absorb known seen (m ∷ ms) = elim (is_tool_role m.role) [
    | false ↦ record { taken = []; seen = seen; rest = m ∷ ms }
    | true ↦ elim (is_fresh known seen m.tool_result) [
      | false ↦ absorb known seen ms
      | true ↦
          let after = absorb known (result_id m.tool_result ∷ seen) ms in
          record after { taken = clone_message json_valid m ∷ after.taken }
    ]
  ]

  -- The outer loop, from index i on; each round takes one fuel.
  unfoldable pub repair_loop : ℕ → List Message → List Message
  unfolding assistant_tool_uses absorb missing
  repair_loop zero ms = []
  repair_loop (suc fuel) [] = []
  repair_loop (suc fuel) (m ∷ ms) = elim (is_tool_role m.role) [
    | true ↦ repair_loop fuel ms
    | false ↦ elim (assistant_tool_uses m) [
      | [] ↦ clone_message json_valid m ∷ repair_loop fuel ms
      | u ∷ us ↦
          let a = absorb (known_ids (u ∷ us)) [] ms in
          clone_message json_valid m
          ∷ (a.taken ++ (missing (u ∷ us) a.seen ++ repair_loop fuel a.rest))
    ]
  ]

  -- Every round advances the index, so the length is fuel enough.
  unfoldable pub repair_tool_use_adjacency : List Message → List Message
  unfolding repair_loop
  repair_tool_use_adjacency ms = repair_loop (length ms) ms
