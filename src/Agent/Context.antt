-- ===== src/Agent/Context.antt =====
-- agent.go: how a turn prepares its request: the transcript, the context policy, the tools, the prompt
-- and the tenant's boundary; and the call of the model, with the retry on a smaller context.
use memax_go_agent_sdk.Prelude.{
  Bool, ℕ, String, true, false, Option, none, some, List, [], ◌∷◌, ◌++◌, length, if◌then◌else◌,
  Result, ok, err,
}
use memax_go_agent_sdk.Prelude.Int.{pos}
use memax_go_agent_sdk.Model.{Message, ToolSpec}
use memax_go_agent_sdk.Session.Store.{
  Error, Store, MessageView, CompactionCheckpoint, message_view, save_compaction,
}
use memax_go_agent_sdk.Registry.{specs}
use memax_go_agent_sdk.Tenant.{DeniedError, Request as TenantRequest, Boundary, check}
use memax_go_agent_sdk.ContextWindow.Summary.{CompactionRecord, PolicyResult}
use memax_go_agent_sdk.Agent.Events.{
  RunError, SkillEvent, Body, skill_discovery, stopped_error, stopped_policy,
}
use memax_go_agent_sdk.Agent.ToolEvents.{tenant_denied_error}
use memax_go_agent_sdk.Agent.Messages.{prepare_messages_for_model}
use memax_go_agent_sdk.Agent.Run.{
  Run, Host, Step, Request, Stream, ModelError, BuiltPrompt, ◌>>=◌, ◌>>◌, return, stop, current,
  change, ask, emit, send, fail, or_fail, count_model_call,
}

module _ (host : Host) where
  -- The specs of the registry; they are all there in one that Register has made.
  abbrev pub specs_of : Option (List ToolSpec) → List ToolSpec
  specs_of none = []
  specs_of (some ts) = ts

  -- selectedToolSpecs
  unfoldable pub selected_by :
      Option (List Message → Run → Result String (List ToolSpec))
      → List Message
      → Step (Result String (List ToolSpec))
  unfolding ask specs
  selected_by none ms = return (ok (specs_of (specs host.registry)))
  selected_by (some select) ms = ask (select ms)

  unfoldable pub selected_tool_specs : List Message → Step (Result String (List ToolSpec))
  unfolding selected_by
  selected_tool_specs ms = selected_by host.selector ms

  -- What saveContextCompaction stores, from a record and the messages that were sent.
  abbrev pub checkpoint_of : ℕ → List Message → CompactionRecord → CompactionCheckpoint
  checkpoint_of raw ms c = record {
    id = "";
    created_at = 0;
    raw_message_count = pos raw;
    messages = ms;
    policy = c.policy;
    reason = c.reason;
    summary_hash = c.summary_hash;
    summary_preview = c.summary_preview;
  }

  -- A checkpoint that cannot be saved is only measured.
  abbrev pub saved : Result Error Store → Step (Unit {0})
  saved (ok t) = change (λ s. record s { store = t })
  saved (err e) = return tt

  unfoldable pub save_context_compaction : ℕ → List Message → CompactionRecord → Step (Unit {0})
  unfolding ask
  save_context_compaction raw ms c = do
    id ← ask host.fresh
    now ← ask host.now
    s ← current
    saved (save_compaction host.json_valid s.store host.session_id (checkpoint_of raw ms c) id now)

  abbrev pub Retry : Type 0
  Retry = PolicyResult × List ToolSpec × BuiltPrompt

  -- retryContextWindow, from the answer of the policy, of the selection and of the prompt.
  abbrev pub prompted :
      PolicyResult → List ToolSpec → Result String BuiltPrompt → Result String Retry
  prompted r tools (err e) = err e
  prompted r tools (ok p) = ok (r, tools, p)

  unfoldable pub tooled : PolicyResult → Result String (List ToolSpec) → Step (Result String Retry)
  unfolding ask
  tooled r (err e) = return (err e)
  tooled r (ok tools) = do p ← ask (host.build_prompt r.messages tools); return (prompted r tools p)

  unfoldable pub retried : Result String PolicyResult → Step (Result String Retry)
  unfolding selected_tool_specs tooled
  retried (err e) = return (err e)
  retried (ok r) = do tools ← selected_tool_specs r.messages; tooled r tools

  -- validateTenantBoundary before a request.
  unfoldable pub tenant_answer : Run → Option DeniedError
  unfolding check
  tenant_answer s =
      let request : TenantRequest = (record {
        boundary = Boundary.model_request;
        scope = host.scope;
        session_id = host.session_id;
        parent_session_id = host.parent_session_id;
        tool_use_id = "";
        tool_name = "";
        tool_read_only = false;
        tool_destructive = false;
        tool_concurrency_safe = false;
      }) in
      elim host.validator [
        | none ↦ check none request
        | some validate ↦ check (some (validate s)) request
      ]

  module _ (turn : ℕ) where
    -- emitContextApplied, whose error stops the run too.
    unfoldable pub applied : Option String → ℕ → ℕ → Step (Unit {0})
    unfolding send fail
    applied (some x) original sent = fail host turn stopped_error (RunError.context_hook x)
    applied none original sent = send host turn (Body.context_applied original sent)

    unfoldable pub emit_context_applied : ℕ → ℕ → Step (Unit {0})
    unfolding ask applied
    emit_context_applied original sent = do
      e ← ask (host.context_applied_hook original sent)
      applied e original sent

    unfoldable pub report_unless : Bool → ℕ → ℕ → Step (Unit {0})
    unfolding emit_context_applied
    report_unless true original sent = return tt
    report_unless false original sent = emit_context_applied original sent

    unfoldable pub report_context : List Message → List Message → Step (Unit {0})
    unfolding report_unless
    report_context old new = report_unless (host.same_messages new old) (length old) (length new)

    -- emitContextCompacted and the save after it.
    unfoldable pub report_compaction : ℕ → List Message → Option CompactionRecord → Step (Unit {0})
    unfolding send save_context_compaction
    report_compaction raw ms none = return tt
    report_compaction raw ms (some c) = do
      send host turn (Body.context_compacted c)
      save_context_compaction raw ms c

    -- The part of the turn under opts.Context.
    unfoldable pub apply_policy :
        Option (List Message → Run → Result String PolicyResult)
        → ℕ
        → List Message
        → Step (List Message)
    unfolding ask or_fail report_context report_compaction prepare_messages_for_model
    apply_policy none raw ms = return ms
    apply_policy (some policy) raw ms = do
      answer ← ask (policy ms)
      r ← or_fail host turn stopped_error RunError.context_policy answer
      let sent = prepare_messages_for_model host r.messages
      report_context ms sent
      report_compaction raw sent r.compaction
      return sent

    unfoldable pub apply_context : ℕ → List Message → Step (List Message)
    unfolding apply_policy
    apply_context raw ms = apply_policy host.context raw ms

    unfoldable pub load_messages : Step MessageView
    unfolding or_fail
    load_messages = do
      s ← current
      or_fail host turn stopped_error RunError.load_messages
          (message_view host.json_valid s.store host.session_id)

    unfoldable pub emit_skill_discovery : Option SkillEvent → Step (Unit {0})
    unfolding send
    emit_skill_discovery none = return tt
    emit_skill_discovery (some e) = send host turn (Body.skill skill_discovery e)

    -- emitTenantDeniedError and the error after it.
    unfoldable pub admitted : Option DeniedError → Step (Unit {0})
    unfolding emit fail tenant_denied_error
    admitted none = return tt
    admitted (some e) = do
      got ← emit host (tenant_denied_error host.scope host.session_id host.parent_session_id turn e)
      if got then fail host turn stopped_policy (RunError.tenant_refused e) else stop

    unfoldable pub admit_model_request : Step (Unit {0})
    unfolding ask tenant_answer admitted
    admit_model_request = do denied ← ask tenant_answer; admitted denied

    -- opts.Model.Stream
    unfoldable pub stream_request :
        List Message → List ToolSpec → BuiltPrompt → Step (Result ModelError Stream)
    unfolding ask
    stream_request ms tools p = do
      let request : Request = (record {
        messages = ms;
        tools = tools;
        system_prompt = p.system_prompt;
        append_system_prompt = p.append_system_prompt;
      })
      change (λ s. record s { requests = s.requests ++ request ∷ [] })
      ask (host.stream request)

    -- A stream that starts, or the error "stream model".
    unfoldable pub streaming : Result ModelError Stream → Step Stream
    unfolding fail
    streaming (ok s) = return s
    streaming (err e) = fail host turn stopped_error (RunError.stream_model e.text)

    -- The second call, after retryContextWindow gave a smaller context.
    unfoldable pub stream_again : ℕ → List Message → Retry → Step Stream
    unfolding report_context report_compaction emit_skill_discovery count_model_call stream_request
        streaming prepare_messages_for_model
    stream_again raw ms (r, tools, p) = do
      let sent = prepare_messages_for_model host r.messages
      report_context ms sent
      report_compaction raw sent r.compaction
      emit_skill_discovery p.skill_discovery
      count_model_call host turn
      answer ← stream_request sent tools p
      streaming answer

    -- The error path of the first call: only an error of the context's size is retried.
    unfoldable pub stream_retry : ℕ → List Message → ModelError → Result String Retry → Step Stream
    unfolding fail stream_again
    stream_retry raw ms e (err x) =
        fail host turn stopped_error (RunError.context_retry x (RunError.stream_model e.text))
    stream_retry raw ms e (ok again) = stream_again raw ms again

    unfoldable pub retry_by :
        Option (List Message → Run → Result String PolicyResult)
        → Bool
        → ℕ
        → List Message
        → ModelError
        → Step Stream
    unfolding ask retried stream_retry streaming
    retry_by none exceeded raw ms e = streaming (err e)
    retry_by (some policy) false raw ms e = streaming (err e)
    retry_by (some policy) true raw ms e = do
      answer ← ask (policy ms)
      again ← retried answer
      stream_retry raw ms e again

    unfoldable pub recover : ℕ → List Message → Result ModelError Stream → Step Stream
    unfolding retry_by
    recover raw ms (ok s) = return s
    recover raw ms (err e) = retry_by host.context_retry e.context_window_exceeded raw ms e
