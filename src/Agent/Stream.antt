-- ===== src/Agent/Stream.antt =====
-- agent.go: collectAssistant, and the clean-up of calls that were started early. The results of a call
-- that is started early are those that the executor will give it.
use memax_go_agent_sdk.Prelude.{
  ℕ, String, Bool, true, false, Option, none, some, List, [], ◌∷◌, ◌++◌, length, eqb, get_elem?,
  ◌==◌, if◌then◌else◌, Result, ok, err,
}
use memax_go_agent_sdk.Model.{
  ContentType, ContentBlock, ToolUse, ToolResult, ProviderArtifact, normalize_tool_use, word,
}
use memax_go_agent_sdk.Session.Store.{Error}
use memax_go_agent_sdk.Executor.{can_run_concurrently}
use memax_go_agent_sdk.Agent.Events.{ModelUsage, RunError, Body, no_usage, add_usage, new_event}
use memax_go_agent_sdk.Agent.TextStream.{Normalizer, new_normalizer}
use memax_go_agent_sdk.Agent.Messages.{text_block, push_text, tool_message}
use memax_go_agent_sdk.Agent.Run.{
  Host, Step, StreamEvent, stream_text, stream_thinking, stream_tool_use_start, stream_tool_use,
  stream_tool_use_delta, stream_artifact, stream_usage, stream_other, ◌>>=◌, ◌>>◌, return, change,
  ask, emit, check_budget, with_tool_calls, track, append_message,
}

-- The variables of collectAssistant. `early` holds the results by the index of the call.
pub record Collected : Type 0 where
  pub blocks : List ContentBlock
  pub uses : List ToolUse
  pub early : List (ℕ × List ToolResult)
  pub usage : ModelUsage
  pub text_stream : Normalizer
  pub error : Option RunError

abbrev pub nothing_collected : Collected
nothing_collected = record {
  blocks = [];
  uses = [];
  early = [];
  usage = no_usage;
  text_stream = new_normalizer;
  error = none;
}

abbrev pub tool_use_block : ToolUse → ContentBlock
tool_use_block u = record {
  type = ContentType.tool_use;
  text = "";
  tool_use = some u;
  provider_artifact = none;
}

abbrev pub artifact_block : ProviderArtifact → ContentBlock
artifact_block a = record {
  type = ContentType.provider_artifact;
  text = "";
  tool_use = none;
  provider_artifact = some a;
}

abbrev pub early_at : List (ℕ × List ToolResult) → ℕ → Option (List ToolResult)
early_at [] i = none
early_at ((j, rs) ∷ es) i = if eqb j i then some rs else early_at es i

-- The record for a call whose early result did not come.
unfoldable pub canceled_result : String → ToolUse → ToolResult
canceled_result reason u = record {
  tool_use_id = u.id;
  name = u.name;
  content = "tool execution canceled because model streaming stopped";
  is_error = true;
  metadata = ("streaming_status", word "canceled") ∷ ("streaming_reason", word reason) ∷ [];
}

-- The first result of the channel, if it came in time.
abbrev pub actual_result : Bool → List ToolResult → ToolResult → ToolResult
actual_result true (r ∷ rs) canceled = r
actual_result true [] canceled = canceled
actual_result false rs canceled = canceled

module _ (host : Host) (turn : ℕ) where
  -- Sends an event; if nobody takes it, reading ends with the context's error.
  unfoldable pub notify : Body → Collected → Step Collected
  unfolding emit
  notify body c = do
    got ← emit host (new_event host.session_id turn body)
    return (if got then c else record c { error = some RunError.canceled })

  -- The closure that starts a call early: it may run beside others, and the budget allows it.
  unfoldable pub start_allowed : ToolUse → ℕ → Collected → Option RunError → Step Collected
  unfolding ask
  start_allowed u index c (some e) = return (record c { error = some e })
  start_allowed u index c none = do
    track host (with_tool_calls host 1)
    change (λ s. record s { executed = s.executed ++ u ∷ [] })
    results ← ask (host.run_tools (u ∷ []))
    return (record c { early = c.early ++ (index, results) ∷ [] })

  -- A call that may not run beside others waits.
  unfoldable pub start_if : Bool → ToolUse → ℕ → Collected → Step Collected
  unfolding check_budget start_allowed
  start_if false u index c = return c
  start_if true u index c = do
    denied ← check_budget host (with_tool_calls host 1)
    start_allowed u index c denied

  unfoldable pub start_early : ToolUse → ℕ → Collected → Step Collected
  unfolding can_run_concurrently start_if
  start_early u index c = start_if (can_run_concurrently (some host.registry) u) u index c

  unfoldable pub started : ToolUse → ℕ → Collected → Option RunError → Step Collected
  unfolding start_early
  started u index c (some e) = return c
  started u index c none = start_early u index c

  -- A complete call of a tool.
  unfoldable pub collect_tool_use : ToolUse → Collected → Step Collected
  unfolding notify started normalize_tool_use
  collect_tool_use raw c = do
    let u = normalize_tool_use host.json_valid raw
    let grown : Collected = (record c {
      uses = c.uses ++ u ∷ [];
      blocks = c.blocks ++ tool_use_block u ∷ [];
    })
    told ← notify (Body.tool_used u) grown
    started u (length c.uses) told told.error

  unfoldable pub collect_text : String → Collected → Step Collected
  unfolding notify push_text
  collect_text s c = do
    let (sent, next) = push_text host c.text_stream s
    let pushed : Collected = (record c { text_stream = next })
    if sent == ""
        then return pushed
        else notify (Body.assistant_text (text_block sent))
            (record pushed { blocks = c.blocks ++ text_block sent ∷ [] })

  -- The switch on the kind of an event.
  unfoldable pub collect_event : StreamEvent → Collected → Step Collected
  unfolding notify collect_tool_use collect_text add_usage
  collect_event (stream_text s) c = collect_text s c
  collect_event (stream_tool_use_start u) c = notify (Body.tool_use_start u) c
  collect_event (stream_tool_use_delta u d) c = notify (Body.tool_use_delta u d) c
  collect_event (stream_tool_use u) c = collect_tool_use u c
  collect_event (stream_thinking s) c =
      if s == "" then return c else notify (Body.thinking_delta s) c
  collect_event (stream_artifact none) c = return c
  collect_event (stream_artifact (some a)) c =
      notify (Body.artifact a) (record c { blocks = c.blocks ++ artifact_block a ∷ [] })
  collect_event (stream_usage none) c = return c
  collect_event (stream_usage (some u)) c =
      notify (Body.usage u) (record c { usage = add_usage c.usage u })
  collect_event (stream_other k) c = return c

  abbrev pub ended : Option String → Collected → Collected
  ended none c = c
  ended (some e) c = record c { error = some (RunError.receive e) }

  -- collectAssistant, from what it has; an error ends the reading.
  unfoldable pub collect : List StreamEvent → Option String → Collected → Step Collected
  unfolding collect_event
  collect [] receive_error c = return (ended receive_error c)
  collect (event ∷ events) receive_error c = do
    next ← collect_event event c
    elim next.error [ some e ↦ return next | none ↦ collect events receive_error next ]

  abbrev pub noted : Result Error (Unit {0}) → Option RunError
  noted (ok _) = none
  noted (err e) = some (RunError.append_canceled_result e)

  abbrev pub done_if : Bool → Option RunError → Step (Option RunError)
  done_if true e = return (some RunError.canceled)
  done_if false e = return e

  -- After an event was taken: the append, and the look at the context.
  unfoldable pub keep_result : ToolResult → Bool → Step (Option RunError)
  unfolding append_message ask
  keep_result r false = return (some RunError.canceled)
  keep_result r true = do
    appended ← append_message host (tool_message r)
    elim (noted appended) [
      | some e ↦ return (some e)
      | none ↦ do done ← ask host.cancelled; done_if done none
    ]

  abbrev pub unless_error : Option RunError → Step (Option RunError) → Step (Option RunError)
  unless_error (some x) rest = return (some x)
  unless_error none rest = rest

  -- The body of the loop, before its next round; an index out of range is passed over.
  unfoldable pub cancel_one :
      String → Option ToolUse → List ToolResult → Step (Option RunError) → Step (Option RunError)
  unfolding ask emit keep_result canceled_result
  cancel_one reason none results rest = rest
  cancel_one reason (some u) results rest = do
    came ← ask (host.arrives u)
    let r = actual_result came results (canceled_result reason u)
    got ← emit host (new_event host.session_id turn (Body.tool_result r))
    e ← keep_result r got
    unless_error e rest

  -- The loop of emitCanceledEarlyToolResults.
  unfoldable pub emit_canceled :
      String → List ToolUse → List (ℕ × List ToolResult) → Step (Option RunError)
  unfolding cancel_one
  emit_canceled reason uses [] = return none
  emit_canceled reason uses ((index, results) ∷ early) =
      cancel_one reason (get_elem? uses index) results (emit_canceled reason uses early)
