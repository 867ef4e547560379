-- ===== src/Executor/Calls.antt =====
-- tool/executor.go: runOne and the limit on a result. What is asked of others, the record Host
-- answers, from the calls that were executed before.
use Prim.Native.String.{len}
use memax_go_agent_sdk.Prelude.{
  ℕ, String, true, not, ◌||◌, Option, none, some, List, [], ◌∷◌, ◌++◌, lookup, insert, leb, eqb,
  ◌==◌, if◌then◌else◌, Result, ok, err,
}
use memax_go_agent_sdk.Prelude.Int.{pos, positive_part, is_positive}
use memax_go_agent_sdk.Model.{Metadata, flag, word, words, number, ToolUse, ToolSpec, ToolResult}
use memax_go_agent_sdk.Registry.{Registry, Tool, Entry, get}
use memax_go_agent_sdk.Permission.{Decision}
use memax_go_agent_sdk.ResultStore.{PutRequest, Handle}
use memax_go_agent_sdk.Tenant as Tenant
use memax_go_agent_sdk.Tenant.{Scope, DeniedError, tool_use}
use memax_go_agent_sdk.Executor.{truncate_utf8}

pub data CallError : Type 0 where
  no_such_tool normalize invalid_input before_hook denied execution : String → CallError
  tenant_denied : DeniedError → CallError

pub record BeforeToolUse : Type 0 where
  pub deny_reason : String
  pub metadata : Metadata

-- The calls that a tool has executed, in their order.
abbrev pub Log : Type 0
Log = List ToolUse

pub record Host : Type 0 where
  pub registry : Registry
  pub session_id : String
  pub parent_session_id : String
  pub scope : Scope
  pub normalizer : String → Option (ToolUse → Log → Result String ToolUse)
  pub validate : ToolUse → String → Option String
  pub validator : Option (Log → Tenant.Request → Option String)
  pub before : Option (ToolUse → ToolSpec → Log → Result String BeforeToolUse)
  pub permissions : Option (ToolUse → ToolSpec → Log → Decision)
  pub execute : ToolUse → Log → Result String ToolResult
  pub store : Option (PutRequest → Log → Result String Handle)
  pub after : Option (ToolUse → ToolSpec → ToolResult → Log → List String)
  pub error_text : CallError → String
  pub boundary_text : Tenant.Boundary → String
  pub time_text : ℕ → Option String

-- model.CloneMetadata and the writes of withMetadata.
unfoldable pub write_all : Metadata → Metadata → Metadata
write_all into [] = into
write_all into ((k, v) ∷ m) = write_all (insert k v into) m

unfoldable pub with_metadata : ToolResult → Metadata → ToolResult
unfolding write_all
with_metadata r m = record r { metadata = write_all r.metadata m }

unfoldable pub with_hook_errors : ToolResult → List String → ToolResult
with_hook_errors r [] = r
with_hook_errors r (e ∷ es) = record r {
  metadata = insert "hook_errors" (words (e ∷ es)) r.metadata;
}

abbrev pub written : String → Metadata → String → Metadata
written key m text = if text == "" then m else insert key (word text) m

module _ (host : Host) where
  abbrev pub error_metadata : CallError → Metadata
  error_metadata (tenant_denied d) =
      ("tenant_denied", flag true)
      ∷ ("tenant_denied_boundary", word (host.boundary_text d.request.boundary))
      ∷ ("tenant_denied_reason", word (host.error_text (tenant_denied d)))
      ∷ []
  error_metadata (no_such_tool s) = []
  error_metadata (normalize s) = []
  error_metadata (invalid_input s) = []
  error_metadata (before_hook s) = []
  error_metadata (denied s) = []
  error_metadata (execution s) = []

  unfoldable pub error_result : ToolUse → CallError → ToolResult
  error_result u e = record {
    tool_use_id = u.id;
    name = u.name;
    content = host.error_text e;
    is_error = true;
    metadata = error_metadata e;
  }

  -- fail
  unfoldable pub failing : ToolUse → CallError → Metadata → Log → ToolResult × Log
  unfolding with_metadata error_result
  failing u e before log = (with_metadata (error_result u e) before, log)

  abbrev pub normalize_by :
      Option (ToolUse → Log → Result String ToolUse) → ToolUse → Log → Result String ToolUse
  normalize_by none u log = ok u
  normalize_by (some f) u log = f u log

  -- validateInput, with the schema of the entry; without a schema any input is valid.
  abbrev pub validate_by : Option String → ToolUse → Option String
  validate_by none u = none
  validate_by (some schema) u = host.validate u schema

  abbrev pub schema_of : Option Entry → Option String
  schema_of none = none
  schema_of (some e) = e.input_schema

  unfoldable pub validate_input : ToolUse → Option String
  validate_input u = validate_by (schema_of (lookup u.name host.registry.entries)) u

  abbrev pub validator_at :
      Log → Option (Log → Tenant.Request → Option String) → Option (Tenant.Request → Option String)
  validator_at log none = none
  validator_at log (some f) = some (f log)

  unfoldable pub tenant_check : ToolUse → ToolSpec → Log → Option DeniedError
  unfolding Tenant.check
  tenant_check u spec log = Tenant.check (validator_at log host.validator) (record {
    boundary = tool_use;
    scope = host.scope;
    session_id = host.session_id;
    parent_session_id = host.parent_session_id;
    tool_use_id = u.id;
    tool_name = u.name;
    tool_read_only = spec.read_only;
    tool_destructive = spec.destructive;
    tool_concurrency_safe = spec.concurrency_safe;
  })

  abbrev pub before_answer : Result String BeforeToolUse → Result CallError Metadata
  before_answer (err e) = err (before_hook e)
  before_answer (ok b) = if b.deny_reason == "" then ok b.metadata else err (denied b.deny_reason)

  -- The hook before a call: its metadata, or why the call does not run.
  unfoldable pub before_tool_use :
      Option (ToolUse → ToolSpec → Log → Result String BeforeToolUse)
      → ToolUse
      → ToolSpec
      → Log
      → Result CallError Metadata
  before_tool_use none u spec log = ok []
  before_tool_use (some f) u spec log = before_answer (f u spec log)

  unfoldable pub permission :
      Option (ToolUse → ToolSpec → Log → Decision) → ToolUse → ToolSpec → Log → Option CallError
  permission none u spec log = none
  permission (some f) u spec log =
      let d = f u spec log in
      if d.allow
      then none
      else some (denied (if d.reason == "" then "permission denied" else d.reason))

  abbrev pub dated_by : Option String → Metadata → Metadata
  dated_by none m = m
  dated_by (some s) m = insert "stored_result_created_at" (word s) m

  -- What the store answered, in the metadata of a cut result.
  unfoldable pub stored_metadata : ℕ → Option (Result String Handle) → Metadata → Metadata
  stored_metadata bytes none m = m
  stored_metadata bytes (some (err e)) m = insert "stored_result_error" (word e) m
  stored_metadata bytes (some (ok h)) m =
      let named = written "stored_result_id" m h.id in
      let located = written "stored_result_uri" named h.uri in
      let count = if eqb h.bytes 0 then bytes else h.bytes in
      let counted = insert "stored_result_bytes" (number (pos count)) located in
      let dated = dated_by (host.time_text h.created_at) counted in
      insert "context_retention" (word "important") dated

  abbrev pub store_by :
      Option (PutRequest → Log → Result String Handle)
      → PutRequest
      → Log
      → Option (Result String Handle)
  store_by none req log = none
  store_by (some f) req log = some (f req log)

  -- The rest of enforceResultLimit, for a result that is too long.
  unfoldable pub cut_result : ToolResult → ToolUse → ToolSpec → Log → ToolResult
  unfolding truncate_utf8 stored_metadata
  cut_result r u spec log =
      let answer =
        store_by host.store
          (record {
            session_id = host.session_id;
            parent_session_id = host.parent_session_id;
            tool_use_id = u.id;
            tool_name = u.name;
            content = r.content;
            metadata = r.metadata;
          })
          log in
      let bytes = len r.content in
      let content = truncate_utf8 r.content spec.max_result_bytes in
      record r {
        content = content;
        metadata = insert "returned_bytes" (number (pos (len content))) (
            insert "original_bytes" (number (pos bytes))
              (insert "truncated" (flag true) (stored_metadata bytes answer r.metadata)));
      }

  unfoldable pub enforce_result_limit : ToolResult → ToolUse → ToolSpec → Log → ToolResult
  unfolding cut_result
  enforce_result_limit r u spec log =
      if not (is_positive spec.max_result_bytes)
        || leb (len r.content) (positive_part spec.max_result_bytes)
      then r
      else cut_result r u spec log

  abbrev pub after_by :
      Option (ToolUse → ToolSpec → ToolResult → Log → List String)
      → ToolUse
      → ToolSpec
      → ToolResult
      → Log
      → List String
  after_by none u spec r log = []
  after_by (some f) u spec r log = f u spec r log

  -- runOne after the tool has answered.
  unfoldable pub finished : ToolUse → ToolSpec → Metadata → ToolResult → Log → ToolResult
  unfolding with_metadata enforce_result_limit with_hook_errors
  finished u spec before r log =
      let named : ToolResult = record r { tool_use_id = u.id; name = u.name } in
      let limited = enforce_result_limit (with_metadata named before) u spec log in
      with_hook_errors limited (after_by host.after u spec limited log)

  unfoldable pub executed :
      ToolUse → ToolSpec → Metadata → Result String ToolResult → Log → ToolResult × Log
  unfolding failing finished
  executed u spec before (err e) log = failing u (execution e) before log
  executed u spec before (ok r) log = (finished u spec before r log, log)

  unfoldable pub permitted :
      ToolUse → ToolSpec → Metadata → Option CallError → Log → ToolResult × Log
  unfolding failing executed
  permitted u spec before (some e) log = failing u e before log
  permitted u spec before none log = executed u spec before (host.execute u log) (log ++ u ∷ [])

  unfoldable pub hooked : ToolUse → ToolSpec → Result CallError Metadata → Log → ToolResult × Log
  unfolding failing permitted
  hooked u spec (err e) log = failing u e [] log
  hooked u spec (ok m) log = permitted u spec m (permission host.permissions u spec log) log

  unfoldable pub admitted : ToolUse → ToolSpec → Option DeniedError → Log → ToolResult × Log
  unfolding failing hooked
  admitted u spec (some d) log = failing u (tenant_denied d) [] log
  admitted u spec none log = hooked u spec (before_tool_use host.before u spec log) log

  unfoldable pub validated : ToolUse → ToolSpec → Option String → Log → ToolResult × Log
  unfolding failing admitted
  validated u spec (some e) log = failing u (invalid_input e) [] log
  validated u spec none log = admitted u spec (tenant_check u spec log) log

  unfoldable pub normalized : ToolUse → ToolSpec → Result String ToolUse → Log → ToolResult × Log
  unfolding failing validated
  normalized u spec (err e) log = failing u (normalize e) [] log
  normalized u spec (ok v) log = validated v spec (validate_input v) log

  unfoldable pub found : ToolUse → Option Tool → Log → ToolResult × Log
  unfolding failing normalized
  found u none log = failing u (no_such_tool u.name) [] log
  found u (some t) log = normalized u t.spec (normalize_by (host.normalizer u.name) u log) log

  -- runOne
  unfoldable pub run_one : ToolUse → Log → ToolResult × Log
  unfolding get found
  run_one u log = found u (get host.registry u.name) log
