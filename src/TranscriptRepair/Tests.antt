-- ===== src/TranscriptRepair/Tests.antt =====
-- Tests of repair.go on a transcript with an orphan, a repeated and a missing result.
use memax_go_agent_sdk.Prelude.{
  String, Bool, true, false, none, some, List, [], ◌∷◌, ◌≡◌, refl, map, length,
}
use memax_go_agent_sdk.Model.{Message, tool, user, assistant, text, tool_use, clone_messages}
use memax_go_agent_sdk.TranscriptRepair.{assistant_tool_uses, repair_tool_use_adjacency}
use memax_go_agent_sdk.TranscriptRepair.Answers.{is_answered, repair-is_answered}
use memax_go_agent_sdk.TranscriptRepair.Stability.{turns, turns-repair, repair-eq-clone}

abbrev valid : String → Bool
valid s = true

abbrev asks : List String → Message
asks ids = record {
  id = "";
  role = assistant;
  content =
      map
        (λ i. record {
          type = tool_use;
          text = "";
          tool_use = some (record { id = i; name = "read"; input = "{}" });
          provider_artifact = none;
        })
        ids;
  tool_result = none;
  metadata = [];
}

abbrev says : String → Message
says s = record {
  id = "";
  role = user;
  content = record { type = text; text = s; tool_use = none; provider_artifact = none } ∷ [];
  tool_result = none;
  metadata = [];
}

abbrev result : String → Message
result i = record {
  id = "";
  role = tool;
  content = [];
  tool_result = some (record {
    tool_use_id = i;
    name = "read";
    content = "done";
    is_error = false;
    metadata = [];
  });
  metadata = [];
}

abbrev broken : List Message
broken = result "x" ∷ asks ("a" ∷ "b" ∷ []) ∷ result "b" ∷ result "b" ∷ result "x" ∷ says "hi" ∷ []

abbrev whole : List Message
whole = says "hi" ∷ asks ("a" ∷ "b" ∷ []) ∷ result "b" ∷ result "a" ∷ []

repair_broken : length (repair_tool_use_adjacency valid broken) ≡ 4
unfolding repair_tool_use_adjacency clone_messages
repair_broken = refl

-- Two calls with one ID, and no result: each gets a record.
repair_repeated : length (repair_tool_use_adjacency valid (asks ("a" ∷ "a" ∷ []) ∷ [])) ≡ 3
unfolding repair_tool_use_adjacency
repair_repeated = refl

repair-is_answered_example : is_answered valid [] (repair_tool_use_adjacency valid broken) ≡ true
unfolding assistant_tool_uses
repair-is_answered_example = repair-is_answered valid broken refl

turns-repair_example :
    turns (repair_tool_use_adjacency valid broken) ≡ clone_messages valid (turns broken)
turns-repair_example = turns-repair valid broken

repair-eq-clone_example : repair_tool_use_adjacency valid whole ≡ clone_messages valid whole
unfolding assistant_tool_uses
repair-eq-clone_example = repair-eq-clone valid whole refl
