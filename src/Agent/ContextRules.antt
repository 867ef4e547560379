-- ===== src/Agent/ContextRules.antt =====
-- The preparation of a request follows the machine, and a request holds prepared messages.
use memax_go_agent_sdk.Prelude.{
  ℕ, suc, String, Bool, true, false, Option, none, some, List, length, Result, ok, err, ◌≡◌, refl,
}
use memax_go_agent_sdk.Model.{Message, ToolSpec}
use memax_go_agent_sdk.Session.Store.{Error, Store, NewId, message_view, save_compaction}
use memax_go_agent_sdk.ContextWindow.Summary.{CompactionRecord, PolicyResult}
use memax_go_agent_sdk.Tenant.{DeniedError}
use memax_go_agent_sdk.Agent.Events.{RunError, SkillEvent, Body, stopped_error, stopped_policy}
use memax_go_agent_sdk.Agent.ToolEvents.{tenant_denied_error}
use memax_go_agent_sdk.Agent.Messages.{prepare_messages_for_model}
use memax_go_agent_sdk.Agent.Run.{Run, Host, Stream, ModelError, BuiltPrompt, ask, fail}
use memax_go_agent_sdk.Agent.Context.{
  selected_by, selected_tool_specs, checkpoint_of, saved, save_context_compaction, Retry, prompted,
  tooled, retried, applied, tenant_answer, admitted, stream_retry, emit_context_applied,
  report_unless, report_context, report_compaction, apply_policy, apply_context, load_messages,
  emit_skill_discovery, admit_model_request, stream_request, streaming, stream_again, retry_by,
  recover,
}
use memax_go_agent_sdk.Agent.Machine.{
  live, IsPrepared, prepared, asks, compacts, requests, here, move, once, EndsWell, Follows, bind,
}
use memax_go_agent_sdk.Agent.Rules.{
  Any, forget, return_follows, ask_follows, current_follows, told_follows, send_follows,
  fail_follows, or_fail_follows,
}
use memax_go_agent_sdk.Agent.BudgetRules.{count_model_call_follows}

module _ (host : Host) (m t : ℕ) where
  selected_by_follows :
      (o : Option (List Message → Run → Result String (List ToolSpec))) (ms : List Message)
      → Follows host (live m t) (selected_by host o ms) (live m t) Any
  unfolding selected_by
  selected_by_follows none ms = return_follows host _ _ _ tt
  selected_by_follows (some select) ms = ask_follows host (live m t) (select ms)

  pub selected_tool_specs_follows :
      (ms : List Message) → Follows host (live m t) (selected_tool_specs host ms) (live m t) Any
  unfolding selected_tool_specs
  selected_tool_specs_follows ms = selected_by_follows host.selector ms

  saved_at :
      (raw : ℕ) (ms : List Message) (c : CompactionRecord) (id : NewId) (now : ℕ) (s : Run)
      (r : Result Error Store)
      → save_compaction host.json_valid s.store host.session_id (checkpoint_of host raw ms c) id now
        ≡ r
      → EndsWell host (live m t) s (live m t) Any (saved host r s)
  saved_at raw ms c id now s (ok new) h =
      (once host (compacts m t s (checkpoint_of host raw ms c) id now new h), tt)
  saved_at raw ms c id now s (err e) h = (here _ s, tt)

  save_context_compaction_follows :
      (raw : ℕ) (ms : List Message) (c : CompactionRecord)
      → Follows host (live m t) (save_context_compaction host raw ms c) (live m t) Any
  unfolding save_context_compaction
  save_context_compaction_follows raw ms c =
      bind host (ask_follows host (live m t) host.fresh) (λ id _.
        bind host (ask_follows host (live m t) host.now)
          (λ now _. record { at = λ s. saved_at raw ms c id now s _ refl }))

  tooled_follows :
      (r : PolicyResult) (tools : Result String (List ToolSpec))
      → Follows host (live m t) (tooled host r tools) (live m t) Any
  unfolding tooled
  tooled_follows r (err e) = return_follows host _ _ _ tt
  tooled_follows r (ok tools) =
      bind host (ask_follows host (live m t) (host.build_prompt r.messages tools))
        (λ p _. return_follows host _ _ (prompted host r tools p) tt)

  retried_follows :
      (r : Result String PolicyResult) → Follows host (live m t) (retried host r) (live m t) Any
  unfolding retried
  retried_follows (err e) = return_follows host _ _ _ tt
  retried_follows (ok r) =
      bind host (selected_tool_specs_follows r.messages) (λ tools _. tooled_follows r tools)

  module _ (turn : ℕ) where
    applied_follows :
        (e : Option String) (original sent : ℕ)
        → Follows host (live m t) (applied host turn e original sent) (live m t) Any
    unfolding applied
    applied_follows (some x) original sent = fail_follows host m t turn stopped_error _ _ _
    applied_follows none original sent = send_follows host m t turn _ refl

    emit_context_applied_follows :
        (original sent : ℕ)
        → Follows host (live m t) (emit_context_applied host turn original sent) (live m t) Any
    unfolding emit_context_applied
    emit_context_applied_follows original sent =
        bind host (ask_follows host (live m t) (host.context_applied_hook original sent))
          (λ e _. applied_follows e original sent)

    report_unless_follows :
        (same : Bool) (original sent : ℕ)
        → Follows host (live m t) (report_unless host turn same original sent) (live m t) Any
    unfolding report_unless
    report_unless_follows true original sent = return_follows host _ _ tt tt
    report_unless_follows false original sent = emit_context_applied_follows original sent

    report_context_follows :
        (old new : List Message)
        → Follows host (live m t) (report_context host turn old new) (live m t) Any
    unfolding report_context
    report_context_follows old new =
        report_unless_follows (host.same_messages new old) (length old) (length new)

    report_compaction_follows :
        (raw : ℕ) (ms : List Message) (c : Option CompactionRecord)
        → Follows host (live m t) (report_compaction host turn raw ms c) (live m t) Any
    unfolding report_compaction
    report_compaction_follows raw ms none = return_follows host _ _ tt tt
    report_compaction_follows raw ms (some c) =
        bind host (send_follows host m t turn (Body.context_compacted c) refl)
          (λ _ _. save_context_compaction_follows raw ms c)

    apply_policy_follows :
        (o : Option (List Message → Run → Result String PolicyResult)) (raw : ℕ) (ms : List Message)
        → IsPrepared host ms
        → Follows host (live m t) (apply_policy host turn o raw ms) (live m t) (IsPrepared host)
    unfolding apply_policy
    apply_policy_follows none raw ms p = return_follows host _ _ ms p
    apply_policy_follows (some policy) raw ms p =
        bind host (ask_follows host (live m t) (policy ms)) (λ answer _.
          bind host (or_fail_follows host m t turn stopped_error RunError.context_policy answer)
            (λ r _.
              let sent = prepare_messages_for_model host r.messages in
              bind host (report_context_follows ms sent) (λ _ _.
                bind host (report_compaction_follows raw sent r.compaction)
                  (λ _ _. return_follows host _ _ sent (prepared r.messages)))))

    pub apply_context_follows :
        (raw : ℕ) (ms : List Message)
        → IsPrepared host ms
        → Follows host (live m t) (apply_context host turn raw ms) (live m t) (IsPrepared host)
    unfolding apply_context
    apply_context_follows raw ms p = apply_policy_follows host.context raw ms p

    pub load_messages_follows : Follows host (live m t) (load_messages host turn) (live m t) Any
    unfolding load_messages
    load_messages_follows = bind host (current_follows host (live m t)) (λ s _. forget host (
        or_fail_follows host m t turn stopped_error RunError.load_messages
          (message_view host.json_valid s.store host.session_id)))

    pub emit_skill_discovery_follows :
        (e : Option SkillEvent)
        → Follows host (live m t) (emit_skill_discovery host turn e) (live m t) Any
    unfolding emit_skill_discovery
    emit_skill_discovery_follows none = return_follows host _ _ tt tt
    emit_skill_discovery_follows (some e) = send_follows host m t turn _ refl

    admitted_follows :
        (e : Option DeniedError) → Follows host (live m t) (admitted host turn e) (live m t) Any
    unfolding admitted
    admitted_follows none = return_follows host _ _ tt tt
    admitted_follows (some e) =
        told_follows host m t
          (tenant_denied_error host.scope host.session_id host.parent_session_id turn e)
          (fail host turn stopped_policy (RunError.tenant_refused e)) refl
          (fail_follows host m t turn stopped_policy (RunError.tenant_refused e) (live m t) Any)

    pub admit_model_request_follows :
        Follows host (live m t) (admit_model_request host turn) (live m t) Any
    unfolding admit_model_request
    admit_model_request_follows =
        bind host (ask_follows host (live m t) (tenant_answer host)) (λ e _. admitted_follows e)

-- A request takes what the budget has allowed.
module _ (host : Host) (m t turn : ℕ) where
  pub stream_request_follows :
      (ms : List Message) (tools : List ToolSpec) (p : BuiltPrompt)
      → IsPrepared host ms
      → Follows host (live (suc m) t) (stream_request host turn ms tools p) (live m t) Any
  unfolding stream_request ask
  stream_request_follows ms tools p h = record {
    at = λ s. (move _ _ _ _ _ _ (requests m t s _ h) (once host (asks (live m t) _)), tt);
  }

  streaming_follows :
      (r : Result ModelError Stream)
      → Follows host (live m t) (streaming host turn r) (live m t) Any
  unfolding streaming
  streaming_follows (ok s) = return_follows host _ _ s tt
  streaming_follows (err e) = fail_follows host m t turn stopped_error _ _ _

  stream_again_follows :
      (raw : ℕ) (ms : List Message) (again : Retry host)
      → Follows host (live m t) (stream_again host turn raw ms again) (live m t) Any
  unfolding stream_again
  stream_again_follows raw ms (r, tools, p) =
      let sent = prepare_messages_for_model host r.messages in
      bind host (report_context_follows host m t turn ms sent) (λ _ _.
        bind host (report_compaction_follows host m t turn raw sent r.compaction) (λ _ _.
          bind host (emit_skill_discovery_follows host m t turn p.skill_discovery) (λ _ _.
            bind host (count_model_call_follows host m t turn) (λ _ _.
              bind host (stream_request_follows sent tools p (prepared r.messages))
                (λ answer _. streaming_follows answer)))))

  stream_retry_follows :
      (raw : ℕ) (ms : List Message) (e : ModelError) (again : Result String (Retry host))
      → Follows host (live m t) (stream_retry host turn raw ms e again) (live m t) Any
  unfolding stream_retry
  stream_retry_follows raw ms e (err x) = fail_follows host m t turn stopped_error _ _ _
  stream_retry_follows raw ms e (ok again) = stream_again_follows raw ms again

  retry_by_follows :
      (o : Option (List Message → Run → Result String PolicyResult)) (exceeded : Bool) (raw : ℕ)
      (ms : List Message) (e : ModelError)
      → Follows host (live m t) (retry_by host turn o exceeded raw ms e) (live m t) Any
  unfolding retry_by
  retry_by_follows none exceeded raw ms e = streaming_follows (err e)
  retry_by_follows (some policy) false raw ms e = streaming_follows (err e)
  retry_by_follows (some policy) true raw ms e =
      bind host (ask_follows host (live m t) (policy ms)) (λ answer _.
        bind host (retried_follows host m t answer)
          (λ again _. stream_retry_follows raw ms e again))

  pub recover_follows :
      (raw : ℕ) (ms : List Message) (r : Result ModelError Stream)
      → Follows host (live m t) (recover host turn raw ms r) (live m t) Any
  unfolding recover
  recover_follows raw ms (ok s) = return_follows host _ _ s tt
  recover_follows raw ms (err e) =
      retry_by_follows host.context_retry e.context_window_exceeded raw ms e
