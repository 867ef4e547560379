-- ===== src/Agent/StreamRules.antt =====
-- The reading of a stream follows the machine, and keeps the tally of the calls.
use memax_go_agent_sdk.Prelude.{
  ℕ, String, Bool, true, false, Option, none, some, List, [], ◌∷◌, ◌++◌, length, get_elem?, Result,
  ok, err, ◌≡◌, refl, subst, Bool-cases, Option-cases, inl, inr, ◌==◌, if◌then◌else◌,
}
use memax_go_agent_sdk.Model.{ToolUse, ToolResult, normalize_tool_use}
use memax_go_agent_sdk.Session.Store.{Error}
use memax_go_agent_sdk.Executor.{can_run_concurrently}
use memax_go_agent_sdk.Agent.Events.{RunError, Body, new_event, add_usage}
use memax_go_agent_sdk.Agent.Messages.{text_block, push_text, tool_message}
use memax_go_agent_sdk.Agent.Run.{
  Run, Host, Step, StreamEvent, ◌>>=◌, return, ask, snapshot, with_tool_calls, stream_text,
  stream_thinking, stream_tool_use_start, stream_tool_use, stream_tool_use_delta, stream_artifact,
  stream_usage, stream_other,
}
use memax_go_agent_sdk.Agent.Stream.{
  Collected, notify, start_allowed, start_if, start_early, started, collect_tool_use, collect_text,
  collect_event, collect, ended, tool_use_block, artifact_block, noted, done_if, keep_result,
  unless_error, cancel_one, emit_canceled, actual_result, canceled_result,
}
use memax_go_agent_sdk.Agent.Tally.{IsTally, late-IsTally, early-IsTally}
use memax_go_agent_sdk.Agent.Machine.{
  live, IsCleanupError, left_context, left_result, IsAllowed, here, asks, counts_tools, executes,
  move, once, EndsWell, Follows, prepend, bind, weaken,
}
use memax_go_agent_sdk.Agent.Rules.{
  return_follows, ask_follows, emit_follows, append_message_follows,
}
use memax_go_agent_sdk.Agent.BudgetRules.{check_budget-Checked}

abbrev pub HasTally : Collected → Type 0
HasTally c = IsTally c.early c.uses

-- The calls are those of another collection.
record HasCalls (c d : Collected) : Type 0 where
  early : d.early ≡ c.early
  uses : d.uses ≡ c.uses

HasTally-HasCalls : (c d : Collected) → HasTally c → HasCalls c d → HasTally d
HasTally-HasCalls c d t h = rw (h.early, h.uses) t

module _ (host : Host) (m t turn : ℕ) where
  notify_follows :
      (b : Body) (c : Collected)
      → Follows host (live m t) (notify host turn b c) (live m t) (HasCalls c)
  unfolding notify
  notify_follows b c =
      bind host (emit_follows host (live m t) (new_event host.session_id turn b) tt)
        (λ got _. return_follows host _ _ _ (kept got))
    where
      kept :
          (got : Bool) → HasCalls c (if got then c else record c { error = some RunError.canceled })
      kept true = record { early = refl; uses = refl }
      kept false = record { early = refl; uses = refl }

  notify_tally :
      (b : Body) (c : Collected)
      → HasTally c
      → Follows host (live m t) (notify host turn b c) (live m t) HasTally
  notify_tally b c h = weaken host (λ d k. HasTally-HasCalls c d h k) (notify_follows b c)

  -- A call that the budget allows is started at once.
  start_allowed_at :
      (u : ToolUse) (c d : Collected) (e : Option RunError) (s : Run)
      → HasTally c
      → HasCalls (record c { uses = c.uses ++ u ∷ [] }) d
      → (e ≡ none
          → (now : ℕ) × IsAllowed host host.budget
              (snapshot host now (with_tool_calls host 1 s.tracker)))
      → EndsWell host
          (live m t)
          s
          (live m t)
          HasTally
          (start_allowed host turn u (length c.uses) d e s)
  unfolding start_allowed ask
  start_allowed_at u c d (some e) s h k allows =
      (here _ s, rw (k.early, k.uses) (late-IsTally c.early c.uses u h))
  start_allowed_at u c d none s h k allows =
      let (now, a) = allows refl in
      (
        move _ _ _ _ _ _ (counts_tools m t 1 now s a)
            (move _ _ _ _ _ _ (executes m t _ (u ∷ [])) (once host (asks (live m t) _))),
        rw (k.early, k.uses) (early-IsTally c.early c.uses u _ h),
      )

  start_if_at :
      (b : Bool) (u : ToolUse) (c d : Collected) (s : Run)
      → HasTally c
      → HasCalls (record c { uses = c.uses ++ u ∷ [] }) d
      → EndsWell host (live m t) s (live m t) HasTally (start_if host turn b u (length c.uses) d s)
  unfolding start_if
  start_if_at false u c d s h k = (here _ s, rw (k.early, k.uses) (late-IsTally c.early c.uses u h))
  start_if_at true u c d s h k =
      let q = check_budget-Checked host (live m t) (with_tool_calls host 1) s in
      rw (EndsWell, q.result)
        (prepend host (live m t) (live m t) (live m t) HasTally s q.later q.way
          (start_allowed host turn u (length c.uses) d q.answer q.later)
          (start_allowed_at u c d q.answer q.later h k q.allowed))

  started_follows :
      (u : ToolUse) (c d : Collected) (e : Option RunError)
      → HasTally c
      → HasCalls (record c { uses = c.uses ++ u ∷ [] }) d
      → Follows host (live m t) (started host turn u (length c.uses) d e) (live m t) HasTally
  unfolding started start_early
  started_follows u c d (some e) h k =
      return_follows host _ _ d (rw (k.early, k.uses) (late-IsTally c.early c.uses u h))
  started_follows u c d none h k = record {
    at = λ s. start_if_at (can_run_concurrently (some host.registry) u) u c d s h k;
  }

  collect_tool_use_follows :
      (raw : ToolUse) (c : Collected)
      → HasTally c
      → Follows host (live m t) (collect_tool_use host turn raw c) (live m t) HasTally
  unfolding collect_tool_use
  collect_tool_use_follows raw c h =
      let u = normalize_tool_use host.json_valid raw in
      let grown : Collected = (record c {
        uses = c.uses ++ u ∷ [];
        blocks = c.blocks ++ tool_use_block u ∷ [];
      }) in
      bind host (notify_follows (Body.tool_used u) grown) (λ told k.
        started_follows u c told told.error h (record { early = k.early; uses = k.uses }))

  collect_text_follows :
      (s : String) (c : Collected)
      → HasTally c
      → Follows host (live m t) (collect_text host turn s c) (live m t) HasTally
  unfolding collect_text
  collect_text_follows s c h =
      let (sent, next) = push_text host c.text_stream s in
      let pushed : Collected = (record c { text_stream = next }) in
      elim (Bool-cases (sent == "")) [
        | inl e ↦ rw e (return_follows host _ _ pushed h)
        | inr e ↦ rw e (
            notify_tally (Body.assistant_text (text_block sent))
              (record pushed { blocks = c.blocks ++ text_block sent ∷ [] }) h)
      ]

  collect_event_follows :
      (e : StreamEvent) (c : Collected)
      → HasTally c
      → Follows host (live m t) (collect_event host turn e c) (live m t) HasTally
  unfolding collect_event
  collect_event_follows (stream_text s) c h = collect_text_follows s c h
  collect_event_follows (stream_tool_use_start u) c h = notify_tally _ c h
  collect_event_follows (stream_tool_use_delta u d) c h = notify_tally _ c h
  collect_event_follows (stream_tool_use u) c h = collect_tool_use_follows u c h
  collect_event_follows (stream_thinking s) c h = elim (Bool-cases (s == "")) [
    | inl e ↦ rw e (return_follows host _ _ c h)
    | inr e ↦ rw e (notify_tally (Body.thinking_delta s) c h)
  ]
  collect_event_follows (stream_artifact none) c h = return_follows host _ _ c h
  collect_event_follows (stream_artifact (some a)) c h =
      notify_tally (Body.artifact a) (record c { blocks = c.blocks ++ artifact_block a ∷ [] }) h
  collect_event_follows (stream_usage none) c h = return_follows host _ _ c h
  collect_event_follows (stream_usage (some u)) c h =
      notify_tally (Body.usage u) (record c { usage = add_usage c.usage u }) h
  collect_event_follows (stream_other k) c h = return_follows host _ _ c h

  ended-HasTally : (e : Option String) (c : Collected) → HasTally c → HasTally (ended host turn e c)
  ended-HasTally none c h = h
  ended-HasTally (some e) c h = record { below = h.below; counted = h.counted }

  pub collect_follows :
      (es : List StreamEvent) (e : Option String) (c : Collected)
      → HasTally c
      → Follows host (live m t) (collect host turn es e c) (live m t) HasTally
  unfolding collect
  collect_follows [] e c h = return_follows host _ _ _ (ended-HasTally e c h)
  collect_follows (x ∷ es) e c h = bind host (collect_event_follows x c h) (λ next k.
      elim (Option-cases next.error) [
        | inl n ↦ rw n (collect_follows es e next k)
        | inr (y, n) ↦ rw n (return_follows host _ _ next k)
      ])

  -- An error of the clean-up is one of its own.
  abbrev pub StopsIfAny : Option RunError → Type 0
  StopsIfAny e = (x : RunError) → e ≡ some x → IsCleanupError x

  canceled-StopsIfAny : StopsIfAny (some RunError.canceled)
  canceled-StopsIfAny x e =
      let same : RunError.canceled ≡ x = cc e in subst IsCleanupError same left_context

  keep_result_follows :
      (r : ToolResult) (got : Bool)
      → Follows host (live m t) (keep_result host turn r got) (live m t) StopsIfAny
  unfolding keep_result
  keep_result_follows r false = return_follows host _ _ _ canceled-StopsIfAny
  keep_result_follows r true =
      bind host (append_message_follows host m t (tool_message r) refl) (λ answer _. after answer)
    where
      looked :
          (done : Bool)
          → Follows host (live m t) (done_if host turn done none) (live m t) StopsIfAny
      looked true = return_follows host _ _ _ canceled-StopsIfAny
      looked false = return_follows host _ _ none (λ _. cc)

      after :
          (answer : Result Error (Unit {0}))
          → Follows host
              (live m t)
              (elim (noted host turn answer) [
                | some e ↦ return (some e)
                | none ↦ do done ← ask host.cancelled; done_if host turn done none
              ])
              (live m t)
              StopsIfAny
      after (err e) = return_follows host _ _ _ (λ x h.
          let same : RunError.append_canceled_result e ≡ x = cc h in
          subst IsCleanupError same (left_result e))
      after (ok _) = bind host (ask_follows host (live m t) host.cancelled) (λ done _. looked done)

  unless_error_follows :
      (e : Option RunError) (rest : Step (Option RunError))
      → StopsIfAny e
      → Follows host (live m t) rest (live m t) StopsIfAny
      → Follows host (live m t) (unless_error host turn e rest) (live m t) StopsIfAny
  unless_error_follows (some x) rest h later = return_follows host _ _ (some x) h
  unless_error_follows none rest h later = later

  cancel_one_follows :
      (reason : String) (o : Option ToolUse) (results : List ToolResult)
      (rest : Step (Option RunError))
      → Follows host (live m t) rest (live m t) StopsIfAny
      → Follows host (live m t) (cancel_one host turn reason o results rest) (live m t) StopsIfAny
  unfolding cancel_one
  cancel_one_follows reason none results rest later = later
  cancel_one_follows reason (some u) results rest later =
      bind host (ask_follows host (live m t) (host.arrives u)) (λ came _.
        let r = actual_result came results (canceled_result reason u) in
        bind host
          (emit_follows host (live m t) (new_event host.session_id turn (Body.tool_result r)) tt)
          (λ got _.
            bind host (keep_result_follows r got) (λ e h. unless_error_follows e rest h later)))

  pub emit_canceled_follows :
      (reason : String) (uses : List ToolUse) (early : List (ℕ × List ToolResult))
      → Follows host (live m t) (emit_canceled host turn reason uses early) (live m t) StopsIfAny
  unfolding emit_canceled
  emit_canceled_follows reason uses [] = return_follows host _ _ none (λ _. cc)
  emit_canceled_follows reason uses ((index, results) ∷ early) =
      cancel_one_follows reason (get_elem? uses index) results _
        (emit_canceled_follows reason uses early)
