-- ===== src/Agent/Events.antt =====
-- events.go: what a run reports. A kind is a constructor that holds what events of the kind carry;
-- the time of an event is left out. model/client.go: the usage of tokens.
use memax_go_agent_sdk.Prelude.{
  ℕ, String, Bool, Option, List, [], ◌∷◌, Dict, insert, has, ◌==◌, if◌then◌else◌,
}
use memax_go_agent_sdk.Prelude.Int.{ℤ, add_int}
use memax_go_agent_sdk.Model.{Metadata, ToolUse, ToolResult, ContentBlock, ProviderArtifact}
use memax_go_agent_sdk.Budget.{Usage, Reason}
use memax_go_agent_sdk.ContextWindow.Summary.{CompactionRecord}
use memax_go_agent_sdk.Session.Store.{Error}
use memax_go_agent_sdk.Tenant.{DeniedError}

-- model.Usage; the counts of tokens are those that a budget reads.
pub record ModelUsage : Type 0 where
  pub provider : String
  pub model : String
  pub tokens : Usage
  pub metadata : Metadata

abbrev pub no_usage : ModelUsage
no_usage = record {
  provider = "";
  model = "";
  tokens = record { input_tokens = ℤ.pos 0; output_tokens = ℤ.pos 0; total_tokens = ℤ.pos 0 };
  metadata = [];
}

-- mergeUsageMetadata: the first value of a key stays.
unfoldable pub merge_usage_metadata : Metadata → Metadata → Metadata
merge_usage_metadata first [] = first
merge_usage_metadata first ((k, v) ∷ next) =
    merge_usage_metadata (if has k first then first else insert k v first) next

-- Usage.Add
unfoldable pub add_usage : ModelUsage → ModelUsage → ModelUsage
unfolding merge_usage_metadata
add_usage u next = record {
  provider = if u.provider == "" then next.provider else u.provider;
  model = if u.model == "" then next.model else u.model;
  tokens = record {
    input_tokens = add_int u.tokens.input_tokens next.tokens.input_tokens;
    output_tokens = add_int u.tokens.output_tokens next.tokens.output_tokens;
    total_tokens = add_int u.tokens.total_tokens next.tokens.total_tokens;
  };
  metadata = merge_usage_metadata u.metadata next.metadata;
}

-- The errors that a run reports, by the place that they come from.
pub data RunError : Type 0 where
  budget_exceeded : Option Reason → RunError
  load_messages : Error → RunError
  context_policy context_hook select_tools build_prompt stream_model receive close_stream :
      String → RunError
  context_retry : String → RunError → RunError
  tenant_refused : DeniedError → RunError
  canceled : RunError
  append_partial append_assistant append_result append_canceled_result : Error → RunError
  append_final_retry append_output_retry append_prompt : Error → RunError
  skill_disclosure before_final invalid_output distill candidate_handler : String → RunError
  final_denied : ℕ → String → RunError
  stop_hook session_ended_hook : List String → RunError
  max_turns_exceeded : ℕ → RunError

-- hook.StopReason
pub data StopReason : Type 0 where
  stopped_result stopped_error stopped_budget stopped_policy stopped_canceled stopped_max_turns :
      StopReason

pub data WorkspaceKind : Type 0 where
  workspace_patch workspace_diff workspace_checkpoint workspace_restore : WorkspaceKind

pub data CommandKind : Type 0 where
  command_finished command_started command_input command_output command_stopped command_resized :
      CommandKind

pub data ApprovalKind : Type 0 where
  approval_requested approval_granted approval_denied approval_consumed : ApprovalKind

pub data SkillKind : Type 0 where
  skill_discovery skill_search skill_loaded skill_resource_loaded : SkillKind

pub record SkillEvent : Type 0 where
  pub action : String
  pub skill_name : String
  pub resource_name : String
  pub query : String
  pub selected_skills : List String
  pub selected : ℤ
  pub omitted : ℤ
  pub matches : ℤ
  pub prompt_bytes : ℤ
  pub metadata_only : Bool

pub record WorkspaceEvent : Type 0 where
  pub operation : String
  pub paths : List String
  pub changes : ℤ
  pub added : ℤ
  pub modified : ℤ
  pub deleted : ℤ
  pub byte_delta : ℤ
  pub checkpoint_id : String
  pub base_id : String

pub record VerificationEvent : Type 0 where
  pub operation : String
  pub name : String
  pub passed : Bool
  pub diagnostics : ℤ
  pub paths : List String

pub record ApprovalSummaryEvent : Type 0 where
  pub title : String
  pub description : String
  pub risk : String
  pub paths : List String
  pub changes : ℤ
  pub added : ℤ
  pub modified : ℤ
  pub deleted : ℤ
  pub byte_delta : ℤ

pub record ApprovalEvent : Type 0 where
  pub action : String
  pub reason : String
  pub input_hash : String
  pub summary : ApprovalSummaryEvent
  pub requested : Bool
  pub approved : Bool
  pub consumed : Bool
  pub single_use : Bool
  pub input_bound : Bool

pub record TenantEvent : Type 0 where
  pub boundary : String
  pub tenant_id : String
  pub subject_id : String
  pub attributes : Dict String
  pub reason : String

pub record CommandEvent : Type 0 where
  pub operation : String
  pub command_id : String
  pub command : String
  pub argv : List String
  pub cwd : String
  pub status : String
  pub pid : ℤ
  pub tty : Bool
  pub signals_process_tree : Bool
  pub cols : ℤ
  pub rows : ℤ
  pub input_bytes : ℤ
  pub exit_code : ℤ
  pub timed_out : Bool
  pub duration_ms : ℤ
  pub stdout_bytes : ℤ
  pub stderr_bytes : ℤ
  pub output_truncated : Bool
  pub next_seq : ℤ
  pub resume_after_seq : ℤ
  pub output_chunks : ℤ
  pub dropped_chunks : ℤ
  pub dropped_bytes : ℤ

pub data Body : Type 0 where
  session_started model_request : Body
  assistant_text : ContentBlock → Body
  tool_use_start : ToolUse → Body
  tool_use_delta : ToolUse → String → Body
  tool_used : ToolUse → Body
  tool_result : ToolResult → Body
  usage : ModelUsage → Body
  context_applied : ℕ → ℕ → Body
  context_compacted : CompactionRecord → Body
  memory_candidates : List String → Body
  memory_candidate_handler_error : RunError → Body
  thinking_delta : String → Body
  artifact : ProviderArtifact → Body
  skill : SkillKind → SkillEvent → Body
  workspace : WorkspaceKind → WorkspaceEvent → Body
  verification : VerificationEvent → Body
  approval : ApprovalKind → ApprovalEvent → Body
  tenant_denied : TenantEvent → Body
  command : CommandKind → CommandEvent → Body
  failed : RunError → Body
  result : String → Option ModelUsage → Body

pub record Event : Type 0 where
  pub session_id : String
  pub parent_session_id : String
  pub turn : ℕ
  pub body : Body

-- newEvent
abbrev pub new_event : String → ℕ → Body → Event
new_event session_id turn body = record {
  session_id = session_id;
  parent_session_id = "";
  turn = turn;
  body = body;
}
