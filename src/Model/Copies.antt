-- ===== src/Model/Copies.antt =====
-- Copying a message twice is copying it once.
use memax_go_agent_sdk.Prelude.{
  String, ◌≡◌, refl, Bool, true, Option, none, some, List, [], ◌∷◌, arith, Bool-cases, inl, inr,
  ◌==◌, not, ◌||◌,
}
use memax_go_agent_sdk.Prelude.Text.{trim_space}
use memax_go_agent_sdk.Model.{
  ToolUse, ContentBlock, Message, normalize_tool_input, normalize_tool_use, clone_content_block,
  clone_content_blocks, clone_message, clone_messages,
}

module _ (json_valid : String → Bool) (empty_object : json_valid "{}" ≡ true) where
  normalize_idem :
      (s : String)
      → normalize_tool_input json_valid (normalize_tool_input json_valid s)
        ≡ normalize_tool_input json_valid s
  unfolding normalize_tool_input trim_space
  normalize_idem s = elim (Bool-cases (trim_space s == "" || not (json_valid s))) [
    | inl t ↦ rw t (rw empty_object)
    | inr t ↦ rw t (rw t)
  ]

  clone_block_idem :
      (b : ContentBlock) (o : Option ToolUse)
      → b.tool_use ≡ o
      → clone_content_block json_valid (clone_content_block json_valid b)
        ≡ clone_content_block json_valid b
  unfolding clone_content_block normalize_tool_use
  clone_block_idem b none e = ground arith
  clone_block_idem b (some u) e = ground (arith, normalize_idem u.input)

  clone_blocks_idem :
      (bs : List ContentBlock)
      → clone_content_blocks json_valid (clone_content_blocks json_valid bs)
        ≡ clone_content_blocks json_valid bs
  unfolding clone_content_blocks
  clone_blocks_idem [] = refl
  clone_blocks_idem (b ∷ bs) = cc (clone_block_idem b b.tool_use refl, clone_blocks_idem bs)

  pub clone_message_idem :
      (m : Message)
      → clone_message json_valid (clone_message json_valid m) ≡ clone_message json_valid m
  unfolding clone_message
  clone_message_idem m = cc (clone_blocks_idem m.content)

  pub clone_messages_idem :
      (ms : List Message)
      → clone_messages json_valid (clone_messages json_valid ms) ≡ clone_messages json_valid ms
  unfolding clone_messages
  clone_messages_idem [] = refl
  clone_messages_idem (m ∷ ms) = cc (clone_message_idem m, clone_messages_idem ms)
