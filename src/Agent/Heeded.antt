-- ===== src/Agent/Heeded.antt =====
-- The events of agent.go whose loss stops the run at once, without a call of finish.
use memax_go_agent_sdk.Prelude.{String, Bool, true, false, ◌&&◌, List, [], ◌∷◌, ◌++◌, ◌≡◌, arith}
use memax_go_agent_sdk.Model.{Metadata, ToolResult}
use memax_go_agent_sdk.Tenant.{Scope}
use memax_go_agent_sdk.Agent.Events.{Body}
use memax_go_agent_sdk.Agent.ToolEvents.{
  skill_tool_event, workspace_tool_event, verification_tool_event, consumed_events, request_events,
  approval_tool_event, tenant_tool_event, command_tool_event, tool_events,
}

-- The others are the start, which has a call of finish, the events of a stream, which break it off, the
-- errors, and the result, which comes after finish.
abbrev pub is_heeded : Body → Bool
is_heeded Body.model_request = true
is_heeded (Body.tool_result r) = true
is_heeded (Body.context_applied a b) = true
is_heeded (Body.context_compacted c) = true
is_heeded (Body.memory_candidates cs) = true
is_heeded (Body.memory_candidate_handler_error e) = true
is_heeded (Body.skill k e) = true
is_heeded (Body.workspace k e) = true
is_heeded (Body.verification e) = true
is_heeded (Body.approval k e) = true
is_heeded (Body.tenant_denied e) = true
is_heeded (Body.command k e) = true
is_heeded _ = false

abbrev pub all_heeded : List Body → Bool
all_heeded [] = true
all_heeded (b ∷ bs) = is_heeded b && all_heeded bs

joined :
    (xs ys : List Body) → all_heeded xs ≡ true → all_heeded ys ≡ true → all_heeded (xs ++ ys) ≡ true
joined [] ys h k = k
joined (b ∷ xs) ys h k = ground (arith, joined xs ys)

all_heeded-skill : (m : Metadata) → all_heeded (skill_tool_event m) ≡ true
unfolding skill_tool_event
all_heeded-skill m = ground arith

all_heeded-workspace : (m : Metadata) → all_heeded (workspace_tool_event m) ≡ true
unfolding workspace_tool_event
all_heeded-workspace m = ground arith

all_heeded-verification : (m : Metadata) → all_heeded (verification_tool_event m) ≡ true
unfolding verification_tool_event
all_heeded-verification m = ground arith

all_heeded-consumed : (m : Metadata) → all_heeded (consumed_events m) ≡ true
unfolding consumed_events
all_heeded-consumed m = ground arith

all_heeded-request : (m : Metadata) → all_heeded (request_events m) ≡ true
unfolding request_events
all_heeded-request m = ground arith

all_heeded-approval : (m : Metadata) → all_heeded (approval_tool_event m) ≡ true
unfolding approval_tool_event
all_heeded-approval m =
    joined (consumed_events m) (request_events m) (all_heeded-consumed m) (all_heeded-request m)

all_heeded-tenant :
    (s : Scope) (id parent : String) (r : ToolResult)
    → all_heeded (tenant_tool_event s id parent r) ≡ true
unfolding tenant_tool_event
all_heeded-tenant s id parent r = ground arith

all_heeded-command : (m : Metadata) → all_heeded (command_tool_event m) ≡ true
unfolding command_tool_event
all_heeded-command m = ground arith

-- Every event of a tool's result is one of them.
pub all_heeded-tool_events :
    (s : Scope) (id parent : String) (r : ToolResult)
    → all_heeded (tool_events s id parent r) ≡ true
unfolding tool_events
all_heeded-tool_events s id parent r =
    let m = r.metadata in
    let first = tenant_tool_event s id parent r ++ skill_tool_event m in
    let second = first ++ workspace_tool_event m in
    let third = second ++ verification_tool_event m in
    let fourth = third ++ approval_tool_event m in
    joined fourth (command_tool_event m)
      (joined third (approval_tool_event m)
        (joined second (verification_tool_event m)
          (joined first (workspace_tool_event m)
            (joined (tenant_tool_event s id parent r) (skill_tool_event m)
              (all_heeded-tenant s id parent r) (all_heeded-skill m))
            (all_heeded-workspace m))
          (all_heeded-verification m))
        (all_heeded-approval m))
      (all_heeded-command m)
