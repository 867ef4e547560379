-- ===== src/Agent/Messages.antt =====
-- agent.go: the messages that the loop makes, and how it prepares a transcript for the model.
use Prim.Native.String.{◌++◌ as text_append}
use memax_go_agent_sdk.Prelude.{
  ℕ, zero, suc, String, none, some, List, [], ◌∷◌, ◌++◌, map, ◌==◌, if◌then◌else◌,
}
use memax_go_agent_sdk.Prelude.Int.{ℤ, pos, negsuc}
use memax_go_agent_sdk.Prelude.Text.{trim_space}
use memax_go_agent_sdk.Model.{
  Role, ContentType, ContentBlock, ToolResult, Message, is_assistant_role, is_text, clone_message,
}
use memax_go_agent_sdk.TranscriptRepair.{repair_tool_use_adjacency}
use memax_go_agent_sdk.Agent.TextStream.{Normalizer, new_normalizer, push}
use memax_go_agent_sdk.Agent.Run.{Host}

abbrev pub text_block : String → ContentBlock
text_block s = record {
  type = ContentType.text;
  text = s;
  tool_use = none;
  provider_artifact = none;
}

abbrev pub user_message : String → Message
user_message s = record {
  id = "";
  role = Role.user;
  content = text_block s ∷ [];
  tool_result = none;
  metadata = [];
}

abbrev pub assistant_message : List ContentBlock → Message
assistant_message bs = record {
  id = "";
  role = Role.assistant;
  content = bs;
  tool_result = none;
  metadata = [];
}

abbrev pub tool_message : ToolResult → Message
tool_message r = record {
  id = "";
  role = Role.tool;
  content = [];
  tool_result = some r;
  metadata = [];
}

unfoldable pub output_retry_prompt : String → String
output_retry_prompt e =
    text_append
      (text_append
        "Your previous final answer did not satisfy the required structured output contract: " e)
      "\nReturn only valid JSON that satisfies the schema. Do not include markdown fences, prose, or any text outside the JSON value."

unfoldable pub final_retry_prompt : String → String
unfolding trim_space
final_retry_prompt reason =
    let detail = trim_space reason in
    text_append
      (text_append "Your previous final answer cannot be accepted yet: "
        (if detail == "" then "the final answer is not ready" else detail))
      "\nUse the available tools to satisfy this requirement, then provide the final answer."

abbrev pub default_max_final_denials : ℕ
default_max_final_denials = 3

abbrev pub final_denial_limit : ℤ → ℕ
final_denial_limit (negsuc n) = 0
final_denial_limit (pos zero) = default_max_final_denials
final_denial_limit (pos (suc n)) = suc n

-- The text goes to the last block if that is text, or into the block that it came in.
unfoldable pub append_text : List ContentBlock → ContentBlock → String → List ContentBlock
append_text [] block s = record block { text = s } ∷ []
append_text (b ∷ []) block s =
    if is_text b.type
    then record b { text = text_append b.text s } ∷ []
    else b ∷ record block { text = s } ∷ []
append_text (b ∷ c ∷ bs) block s = b ∷ append_text (c ∷ bs) block s

module _ (host : Host) where
  unfoldable pub push_text : Normalizer → String → String × Normalizer
  unfolding push
  push_text n s = push host.is_letter host.is_digit host.is_upper host.is_lower host.lower n s

  -- The loop of normalizeAssistantTextContent, with the blocks it has and its normalizer.
  unfoldable pub normalize_content_from :
      List ContentBlock → Normalizer → List ContentBlock → List ContentBlock
  unfolding append_text push_text
  normalize_content_from out n [] = out
  normalize_content_from out n (b ∷ bs) =
      let (s, next) = push_text n b.text in
      if is_text b.type
      then (if s == ""
          then normalize_content_from out next bs
          else normalize_content_from (append_text out b s) next bs)
      else normalize_content_from (out ++ b ∷ []) new_normalizer bs

  unfoldable pub normalize_assistant_text_content : List ContentBlock → List ContentBlock
  unfolding normalize_content_from
  normalize_assistant_text_content bs = normalize_content_from [] new_normalizer bs

  -- The body of the loop of normalizeAssistantTextMessages.
  unfoldable pub normalize_message : Message → Message
  unfolding normalize_assistant_text_content clone_message
  normalize_message m =
      let copied = clone_message host.json_valid m in
      if is_assistant_role copied.role
      then record copied { content = normalize_assistant_text_content copied.content }
      else copied

  unfoldable pub normalize_assistant_text_messages : List Message → List Message
  unfolding normalize_message
  normalize_assistant_text_messages ms = map normalize_message ms

  unfoldable pub prepare_messages_for_model : List Message → List Message
  unfolding normalize_assistant_text_messages repair_tool_use_adjacency
  prepare_messages_for_model ms =
      repair_tool_use_adjacency host.json_valid (normalize_assistant_text_messages ms)
