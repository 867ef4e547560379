-- ===== src/Agent/ToolEvents.antt =====
-- agent.go: the events that the results of tools report, read off their metadata. A list that is
-- stored as []any is not among the values of the metadata.
use memax_go_agent_sdk.Prelude.{
  ℕ, String, true, false, not, ◌&&◌, Option, none, some, List, [], ◌∷◌, ◌++◌, lookup, ◌==◌,
  if◌then◌else◌,
}
use memax_go_agent_sdk.Prelude.Int.{ℤ, pos}
use memax_go_agent_sdk.Model.{Metadata, ToolResult, number, words, bool_value, string_value}
use memax_go_agent_sdk.Tenant.{Scope, Boundary, Request, DeniedError, is_zero}
use memax_go_agent_sdk.Agent.Events.{
  Event, Body, SkillEvent, WorkspaceEvent, ApprovalEvent, ApprovalSummaryEvent, TenantEvent,
  CommandEvent, CommandKind, skill_search, skill_loaded, skill_resource_loaded, workspace_patch,
  workspace_diff, workspace_checkpoint, workspace_restore, approval_requested, approval_granted,
  approval_denied, approval_consumed, command_finished, command_started, command_input,
  command_output, command_stopped, command_resized,
}

-- metadatavalues.Int
unfoldable pub int_value : Metadata → String → ℤ
int_value m k = elim (lookup k m) [ some (number n) ↦ n | _ ↦ pos 0 ]

unfoldable pub metadata_strings : Metadata → String → List String
metadata_strings m k = elim (lookup k m) [ some (words ws) ↦ ws | _ ↦ [] ]

abbrev no_skill : SkillEvent
no_skill = record {
  action = "";
  skill_name = "";
  resource_name = "";
  query = "";
  selected_skills = [];
  selected = pos 0;
  omitted = pos 0;
  matches = pos 0;
  prompt_bytes = pos 0;
  metadata_only = false;
}

-- emitSkillToolEvent
unfoldable pub skill_tool_event : Metadata → List Body
unfolding bool_value string_value int_value
skill_tool_event m =
    if bool_value m "skill_search"
    then Body.skill skill_search (record no_skill {
      action = "search";
      query = string_value m "query";
      matches = int_value m "matches";
      metadata_only = bool_value m "metadata_only";
    })
      ∷ []
    else if bool_value m "loaded_skill"
    then Body.skill skill_loaded
        (record no_skill { action = "load"; skill_name = string_value m "skill_name" })
      ∷ []
    else if bool_value m "loaded_skill_resource"
    then Body.skill skill_resource_loaded (record no_skill {
      action = "resource_load";
      skill_name = string_value m "skill_name";
      resource_name = string_value m "resource";
    })
      ∷ []
    else []

unfoldable workspace_event : Metadata → String → WorkspaceEvent
unfolding string_value int_value metadata_strings
workspace_event m operation = record {
  operation = operation;
  paths = metadata_strings m "workspace_paths";
  changes = int_value m "workspace_changes";
  added = int_value m "workspace_added";
  modified = int_value m "workspace_modified";
  deleted = int_value m "workspace_deleted";
  byte_delta = int_value m "workspace_byte_delta";
  checkpoint_id = string_value m "workspace_checkpoint_id";
  base_id = string_value m "workspace_base_id";
}

-- The checkpoint that a patch took by itself.
abbrev auto_checkpoint : String → WorkspaceEvent
auto_checkpoint id = record {
  operation = "checkpoint";
  paths = [];
  changes = pos 0;
  added = pos 0;
  modified = pos 0;
  deleted = pos 0;
  byte_delta = pos 0;
  checkpoint_id = id;
  base_id = "";
}

-- emitWorkspaceToolEvent
unfoldable pub workspace_tool_event : Metadata → List Body
unfolding bool_value string_value workspace_event
workspace_tool_event m =
    let operation = string_value m "workspace_operation" in
    let event = workspace_event m operation in
    if operation == ""
    then []
    else if operation == "patch"
    then (if bool_value m "auto_checkpoint" && not (event.checkpoint_id == "")
        then Body.workspace workspace_checkpoint (auto_checkpoint event.checkpoint_id)
          ∷ Body.workspace workspace_patch event
          ∷ []
        else Body.workspace workspace_patch event ∷ [])
    else if operation == "diff"
    then Body.workspace workspace_diff event ∷ []
    else if operation == "checkpoint"
    then Body.workspace workspace_checkpoint event ∷ []
    else if operation == "restore"
    then Body.workspace workspace_restore event ∷ []
    else []

-- emitVerificationToolEvent
unfoldable pub verification_tool_event : Metadata → List Body
unfolding bool_value string_value int_value metadata_strings
verification_tool_event m =
    let operation = string_value m "verification_operation" in
    if operation == "verify"
    then Body.verification (record {
      operation = operation;
      name = string_value m "verification_name";
      passed = bool_value m "verification_passed";
      diagnostics = int_value m "verification_diagnostics";
      paths = metadata_strings m "verification_paths";
    })
      ∷ []
    else []

-- approvalSummaryFromMetadata
unfoldable pub approval_summary_from_metadata : Metadata → ApprovalSummaryEvent
unfolding string_value int_value metadata_strings
approval_summary_from_metadata m = record {
  title = string_value m "approval_summary_title";
  description = string_value m "approval_summary_description";
  risk = string_value m "approval_summary_risk";
  paths = metadata_strings m "approval_summary_paths";
  changes = int_value m "approval_summary_changes";
  added = int_value m "approval_summary_added";
  modified = int_value m "approval_summary_modified";
  deleted = int_value m "approval_summary_deleted";
  byte_delta = int_value m "approval_summary_byte_delta";
}

abbrev no_summary : ApprovalSummaryEvent
no_summary = record {
  title = "";
  description = "";
  risk = "";
  paths = [];
  changes = pos 0;
  added = pos 0;
  modified = pos 0;
  deleted = pos 0;
  byte_delta = pos 0;
}

-- The grant that a tool used up.
unfoldable pub consumed_events : Metadata → List Body
unfolding bool_value string_value
consumed_events m =
    let input_hash = string_value m "approval_input_hash" in
    if bool_value m "approval_consumed"
    then Body.approval approval_consumed (record {
      action = string_value m "approval_action";
      reason = "";
      input_hash = input_hash;
      summary = no_summary;
      requested = false;
      approved = false;
      consumed = true;
      single_use = bool_value m "approval_single_use";
      input_bound = not (input_hash == "");
    })
      ∷ []
    else []

unfoldable pub request_events : Metadata → List Body
unfolding bool_value string_value approval_summary_from_metadata
request_events m =
    let input_hash = string_value m "approval_input_hash" in
    let approved = bool_value m "approval_approved" in
    let event : ApprovalEvent = (record {
      action = string_value m "approval_action";
      reason = string_value m "approval_reason";
      input_hash = input_hash;
      summary = approval_summary_from_metadata m;
      requested = false;
      approved = approved;
      consumed = false;
      single_use = false;
      input_bound = not (input_hash == "");
    }) in
    if string_value m "approval_operation" == "request"
    then Body.approval approval_requested (record event { requested = true })
      ∷ Body.approval (if approved then approval_granted else approval_denied) event
      ∷ []
    else []

-- emitApprovalToolEvent
unfoldable pub approval_tool_event : Metadata → List Body
unfolding consumed_events request_events
approval_tool_event m = consumed_events m ++ request_events m

abbrev boundary_text : Boundary → String
boundary_text Boundary.session_start = "session_start"
boundary_text Boundary.model_request = "model_request"
boundary_text Boundary.tool_use = "tool_use"
boundary_text (Boundary.other_boundary s) = s

-- tenantEventFromRequest
unfoldable pub tenant_event_from_request : Request → String → TenantEvent
tenant_event_from_request req reason = record {
  boundary = boundary_text req.boundary;
  tenant_id = req.scope.id;
  subject_id = req.scope.subject_id;
  attributes = req.scope.attributes;
  reason = reason;
}

-- emitTenantToolEvent
unfoldable pub tenant_tool_event : Scope → String → String → ToolResult → List Body
unfolding bool_value string_value tenant_event_from_request
tenant_tool_event scope session_id parent r =
    if bool_value r.metadata "tenant_denied"
    then Body.tenant_denied (
        tenant_event_from_request
          (record {
            boundary = Boundary.other_boundary (string_value r.metadata "tenant_denied_boundary");
            scope = scope;
            session_id = session_id;
            parent_session_id = parent;
            tool_use_id = r.tool_use_id;
            tool_name = r.name;
            tool_read_only = false;
            tool_destructive = false;
            tool_concurrency_safe = false;
          })
          (string_value r.metadata "tenant_denied_reason"))
      ∷ []
    else []

-- emitTenantDeniedError: the event of a refusal at the session that it names, or at this one.
unfoldable pub tenant_denied_error : Scope → String → String → ℕ → DeniedError → Event
unfolding is_zero tenant_event_from_request
tenant_denied_error scope session_id parent turn e =
    let req : Request = (record e.request {
      session_id = if e.request.session_id == "" then session_id else e.request.session_id;
      parent_session_id =
          if e.request.parent_session_id == "" then parent else e.request.parent_session_id;
      scope = if is_zero e.request.scope then scope else e.request.scope;
    }) in
    record {
      session_id = req.session_id;
      parent_session_id = req.parent_session_id;
      turn = turn;
      body = Body.tenant_denied (tenant_event_from_request req e.reason);
    }

-- The kind of a command's event; an operation that the code does not know has none.
unfoldable pub command_kind : String → Option CommandKind
command_kind operation =
    if operation == "run"
    then some command_finished
    else if operation == "start"
    then some command_started
    else if operation == "write"
    then some command_input
    else if operation == "read"
    then some command_output
    else if operation == "wait"
    then some command_output
    else if operation == "stop"
    then some command_stopped
    else if operation == "resize"
    then some command_resized
    else none

unfoldable command_event : Metadata → CommandEvent
unfolding bool_value string_value int_value metadata_strings
command_event m = record {
  operation = string_value m "command_operation";
  command_id = string_value m "command_session_id";
  command = string_value m "command_string";
  argv = metadata_strings m "command_argv";
  cwd = string_value m "command_cwd";
  status = string_value m "command_status";
  pid = int_value m "command_pid";
  tty = bool_value m "command_tty";
  signals_process_tree = bool_value m "command_signals_process_tree";
  cols = int_value m "command_cols";
  rows = int_value m "command_rows";
  input_bytes = int_value m "command_input_bytes";
  exit_code = int_value m "command_exit_code";
  timed_out = bool_value m "command_timed_out";
  duration_ms = int_value m "command_duration_ms";
  stdout_bytes = int_value m "command_stdout_bytes";
  stderr_bytes = int_value m "command_stderr_bytes";
  output_truncated = bool_value m "command_output_truncated";
  next_seq = int_value m "command_next_seq";
  resume_after_seq = int_value m "command_resume_after_seq";
  output_chunks = int_value m "command_output_chunks";
  dropped_chunks = int_value m "command_dropped_chunks";
  dropped_bytes = int_value m "command_dropped_bytes";
}

-- emitCommandToolEvent
unfoldable pub command_tool_event : Metadata → List Body
unfolding string_value command_kind command_event
command_tool_event m =
    let operation = string_value m "command_operation" in
    if operation == "" then [] else (elim (command_kind operation) [
      | none ↦ []
      | some kind ↦ Body.command kind (command_event m) ∷ []
    ])

-- The events of a result, in the order in which handleToolResult sends them.
unfoldable pub tool_events : Scope → String → String → ToolResult → List Body
unfolding skill_tool_event workspace_tool_event verification_tool_event approval_tool_event
    tenant_tool_event command_tool_event
tool_events scope session_id parent r =
    let m = r.metadata in
    Body.tool_result r ∷ tenant_tool_event scope session_id parent r
    ++ skill_tool_event m
    ++ workspace_tool_event m
    ++ verification_tool_event m
    ++ approval_tool_event m
    ++ command_tool_event m
