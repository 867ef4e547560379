-- ===== src/TranscriptRepair/Answers.antt =====
-- The provider's protocol over the transcript, and that repair.go establishes it.
use memax_go_agent_sdk.Prelude.{
  String, Bool, true, false, not, ◌&&◌, Option, none, some, List, [], ◌∷◌, map, contains, ◌≡◌, refl,
  sym, ◌∙◌, ap, arith, Bool-cases, inl, inr, if◌then◌else◌,
}
use memax_go_agent_sdk.Model.{
  ContentBlock, ToolUse, ToolResult, Message, is_tool_role, clone_message, clone_messages,
  clone_content_blocks, normalize_tool_use,
}
use memax_go_agent_sdk.TranscriptRepair.{
  known_ids, tool_uses_of, assistant_tool_uses, repair_tool_use_adjacency,
}
use memax_go_agent_sdk.TranscriptRepair.Ids.{is_empty, distinct, without}
use memax_go_agent_sdk.TranscriptRepair.Pairing.{
  answerable_ids, is_paired, has_distinct_calls, repair-is_paired,
}
use memax_go_agent_sdk.TranscriptRepair.Stability.{turns, turns-repair}

-- The IDs of the calls that a message makes, one for each call.
abbrev pub call_ids : (String → Bool) → Message → List String
call_ids v m = map (λ (u : ToolUse). u.id) (assistant_tool_uses v m)

-- A tool message answers one of the waiting calls; any other message, and the end, find none waiting.
abbrev pub is_answered : (String → Bool) → List String → List Message → Bool
is_answered v pending [] = is_empty pending
is_answered v pending (m ∷ ms) =
    if is_tool_role m.role
    then (elim m.tool_result [
      | none ↦ false
      | some r ↦ contains pending r.tool_use_id && is_answered v (without r.tool_use_id pending) ms
    ])
    else is_empty pending && is_answered v (call_ids v m) ms

-- Each call of a message has an ID, and no two have the same one.
abbrev pub are_proper : List String → Bool
are_proper ids = not (contains ids "") && distinct ids

abbrev pub has_proper_calls : (String → Bool) → List Message → Bool
has_proper_calls v [] = true
has_proper_calls v (m ∷ ms) = are_proper (call_ids v m) && has_proper_calls v ms

known_ids-proper :
    (us : List ToolUse)
    → contains (map (λ (u : ToolUse). u.id) us) "" ≡ false
    → known_ids us ≡ map (λ (u : ToolUse). u.id) us
known_ids-proper [] h = refl
known_ids-proper (u ∷ us) h = ground (arith, known_ids-proper us)

module _ (v : String → Bool) where
  answerable_ids-proper :
      (m : Message) → are_proper (call_ids v m) ≡ true → answerable_ids v m ≡ call_ids v m
  answerable_ids-proper m h = known_ids-proper (assistant_tool_uses v m) (ground arith)

  has_distinct_calls-proper :
      (ms : List Message) → has_proper_calls v ms ≡ true → has_distinct_calls v ms ≡ true
  has_distinct_calls-proper [] h = refl
  has_distinct_calls-proper (m ∷ ms) h =
      ground (arith, has_distinct_calls-proper ms, answerable_ids-proper m)

  is_answered-proper :
      (pending : List String) (ms : List Message)
      → has_proper_calls v ms ≡ true
      → is_answered v pending ms ≡ is_paired v pending ms
  is_answered-proper pending [] h = refl
  is_answered-proper pending (m ∷ ms) h =
      let p : are_proper (call_ids v m) ≡ true = ground arith in
      let q : has_proper_calls v ms ≡ true = ground arith in
      elim (Bool-cases (is_tool_role m.role)) [
        | inl e ↦ rw e (at m.tool_result (λ left. is_answered-proper left ms q))
        | inr e ↦ rw e (
            rw (answerable_ids-proper m p)
              (ap (λ b. is_empty pending && b) (is_answered-proper (call_ids v m) ms q)))
      ]
    where
      at :
          (o : Option ToolResult)
          → ((left : List String) → is_answered v left ms ≡ is_paired v left ms)
          → (elim o [
            | none ↦ false
            | some r ↦
                contains pending r.tool_use_id && is_answered v (without r.tool_use_id pending) ms
          ])
            ≡ (elim o [
              | none ↦ false
              | some r ↦
                  contains pending r.tool_use_id && is_paired v (without r.tool_use_id pending) ms
            ])
      at none later = refl
      at (some r) later =
          ap (λ b. contains pending r.tool_use_id && b) (later (without r.tool_use_id pending))

  -- Copying a message does not change the IDs of its calls.
  tool_uses_of-copy :
      (bs : List ContentBlock)
      → map (λ (u : ToolUse). u.id) (tool_uses_of v (clone_content_blocks v bs))
        ≡ map (λ (u : ToolUse). u.id) (tool_uses_of v bs)
  unfolding tool_uses_of clone_content_blocks normalize_tool_use
  tool_uses_of-copy [] = refl
  tool_uses_of-copy (b ∷ bs) = ground (arith, tool_uses_of-copy bs)

  call_ids-clone : (m : Message) → call_ids v (clone_message v m) ≡ call_ids v m
  unfolding assistant_tool_uses clone_message
  call_ids-clone m = ground (arith, tool_uses_of-copy m.content)

  call_ids-tool : (m : Message) → is_tool_role m.role ≡ true → call_ids v m ≡ []
  unfolding assistant_tool_uses
  call_ids-tool m h = ground arith

  -- Only the messages that are not tool results make calls.
  has_proper_calls-turns :
      (ms : List Message) → has_proper_calls v (turns ms) ≡ has_proper_calls v ms
  has_proper_calls-turns [] = refl
  has_proper_calls-turns (m ∷ ms) = elim (Bool-cases (is_tool_role m.role)) [
    | inl e ↦ rw e (rw (call_ids-tool m e) (has_proper_calls-turns ms))
    | inr e ↦ rw e (ap (λ b. are_proper (call_ids v m) && b) (has_proper_calls-turns ms))
  ]

  has_proper_calls-clone :
      (ms : List Message) → has_proper_calls v (clone_messages v ms) ≡ has_proper_calls v ms
  unfolding clone_messages
  has_proper_calls-clone [] = refl
  has_proper_calls-clone (m ∷ ms) =
      rw (call_ids-clone m) (ap (λ b. are_proper (call_ids v m) && b) (has_proper_calls-clone ms))

  -- A repair does not change the calls.
  pub has_proper_calls-repair :
      (ms : List Message)
      → has_proper_calls v (repair_tool_use_adjacency v ms) ≡ has_proper_calls v ms
  has_proper_calls-repair ms =
      sym (has_proper_calls-turns (repair_tool_use_adjacency v ms))
      ∙ (ap (has_proper_calls v) (turns-repair v ms)
          ∙ (has_proper_calls-clone (turns ms) ∙ has_proper_calls-turns ms))

  -- If each call has an ID that is not empty, and no message uses one ID for two calls, then in the
  -- repaired transcript the calls of each message are answered, each exactly once, before any message
  -- that is not a tool result; and no tool result answers anything else.
  pub repair-is_answered :
      (ms : List Message)
      → has_proper_calls v ms ≡ true
      → is_answered v [] (repair_tool_use_adjacency v ms) ≡ true
  repair-is_answered ms h =
      is_answered-proper [] (repair_tool_use_adjacency v ms) (has_proper_calls-repair ms ∙ h)
      ∙ repair-is_paired v ms (has_distinct_calls-proper ms h)
