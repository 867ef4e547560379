-- ===== src/Agent/Run.antt =====
-- agent.go: the state of a run, what the run asks of its host, and the steps that a turn is made of.
-- A turn is a computation that may end the turn or the whole run: Go's early returns, with or
-- without shouldStop.
use memax_go_agent_sdk.Prelude.{
  ℕ, suc, ◌+◌, String, Bool, Option, none, some, List, [], ◌∷◌, ◌++◌, ◌==◌, if◌then◌else◌, Result,
  ok, err,
}
use memax_go_agent_sdk.Prelude.Int.{ℤ, pos}
use memax_go_agent_sdk.Model.{ToolUse, ToolResult, ToolSpec, Message, ProviderArtifact}
use memax_go_agent_sdk.Budget.{Snapshot, Decision, time_sub}
use memax_go_agent_sdk.Session.Store.{Error, Store, NewId, append}
use memax_go_agent_sdk.Registry.{Registry}
use memax_go_agent_sdk.ContextWindow.Summary.{PolicyResult}
use memax_go_agent_sdk.Tenant.{Scope, Request as TenantRequest}
use memax_go_agent_sdk.Agent.Events.{
  ModelUsage, RunError, StopReason, SkillEvent, Event, Body, new_event, stopped_budget,
  stopped_error,
}

-- model.Request, without the tenant's scope and the IDs, which stay the same.
pub record Request : Type 0 where
  pub messages : List Message
  pub tools : List ToolSpec
  pub system_prompt : String
  pub append_system_prompt : String

-- model.StreamEvent: a kind and what is read of it.
pub data StreamEvent : Type 0 where
  stream_text stream_thinking : String → StreamEvent
  stream_tool_use_start stream_tool_use : ToolUse → StreamEvent
  stream_tool_use_delta : ToolUse → String → StreamEvent
  stream_artifact : Option ProviderArtifact → StreamEvent
  stream_usage : Option ModelUsage → StreamEvent
  stream_other : String → StreamEvent

-- What Stream returns: the events that Recv gives, how they end, and the error of Close.
pub record Stream : Type 0 where
  pub events : List StreamEvent
  pub receive_error : Option String
  pub close_error : Option String

-- An error of Stream, and whether model.IsContextWindowExceeded holds of it.
pub record ModelError : Type 0 where
  pub text : String
  pub context_window_exceeded : Bool

pub record BuiltPrompt : Type 0 where
  pub system_prompt : String
  pub append_system_prompt : String
  pub skill_discovery : Option SkillEvent

pub record BudgetTracker : Type 0 where
  pub started_at : ℕ
  pub turns : ℕ
  pub model_calls : ℕ
  pub tool_calls : ℕ
  pub usage : ModelUsage

-- One call of `finish`.
pub record Finish : Type 0 where
  pub turn : ℕ
  pub reason : StopReason
  pub error : Option RunError

-- The variables of runLoop and the session store, and what the run has done so far: the events that
-- were received, those that nobody took, the requests sent to the model, the calls given to the executor, the calls of finish.
-- `asked` counts the questions put to the host.
pub record Run : Type 0 where
  pub store : Store
  pub tracker : BudgetTracker
  pub total_usage : ModelUsage
  pub output_retries : ℕ
  pub final_denials : ℕ
  pub events : List Event
  pub lost : List Event
  pub requests : List Request
  pub executed : List ToolUse
  pub finishes : List Finish
  pub asked : ℕ

-- What the loop takes from outside, options included: an answer may depend on all that happened.
-- `registry_error` is the error of registryWithSkillTools, if there is one; without, `registry` holds
-- the tools of the run. `received` tells if the reader of the events takes one before the context ends, `arrives` if the
-- result of a call that was started early comes before the time that a stopped stream leaves it.
-- The last fields are json.Valid, reflect.DeepEqual, the classes of unicode, strings.ToLower and the
-- text of an error.
pub record Host : Type 0 where
  pub session_id : String
  pub parent_session_id : String
  pub max_turns : ℕ
  pub max_final_denials : ℤ
  pub retry_limit : ℕ
  pub registry : Registry
  pub registry_error : Option String
  pub scope : Scope
  pub now : Run → ℕ
  pub fresh : Run → NewId
  pub received : Event → Run → Bool
  pub budget : Option (Snapshot → Run → Decision)
  pub validator : Option (Run → TenantRequest → Option String)
  pub context : Option (List Message → Run → Result String PolicyResult)
  pub context_retry : Option (List Message → Run → Result String PolicyResult)
  pub selector : Option (List Message → Run → Result String (List ToolSpec))
  pub build_prompt : List Message → List ToolSpec → Run → Result String BuiltPrompt
  pub context_applied_hook : ℕ → ℕ → Run → Option String
  pub before_final_hook : String → Run → Result String String
  pub stop_hooks : Finish → Run → List String
  pub session_ended_hooks : Finish → Run → List String
  pub validate_output : String → Run → Option String
  pub distill_memories : String → Run → Result String (List String)
  pub handle_candidates : List String → Run → Option String
  pub stream : Request → Run → Result ModelError Stream
  pub run_tools : List ToolUse → Run → List ToolResult
  pub arrives : ToolUse → Run → Bool
  pub cancelled : Run → Bool
  pub json_valid : String → Bool
  pub same_messages : List Message → List Message → Bool
  pub is_letter : ℕ → Bool
  pub is_digit : ℕ → Bool
  pub is_upper : ℕ → Bool
  pub is_lower : ℕ → Bool
  pub lower : String → String
  pub error_text : RunError → String

-- How a step ends: with a value, with the turn, or with the run.
pub data Signal (A : Type 0) : Type 0 where
  value : A → Signal A
  next_turn stop_run : Signal A

abbrev pub Step : Type 0 → Type 0
Step A = Run → Signal A × Run

abbrev pub after : {A B : Type 0} → Signal A × Run → (A → Step B) → Signal B × Run
after (value a, s) f = f a s
after (next_turn, s) f = (next_turn, s)
after (stop_run, s) f = (stop_run, s)

infixl 5 ◌>>=◌ ◌>>◌
abbrev pub ◌>>=◌ : {A B : Type 0} → Step A → (A → Step B) → Step B
m >>= f = λ s. after (m s) f

abbrev pub ◌>>◌ : {B : Type 0} → Step (Unit {0}) → Step B → Step B
m >> k = m >>= λ _. k

abbrev pub return : {A : Type 0} → A → Step A
return a s = (value a, s)

abbrev pub end_turn : {A : Type 0} → Step A
end_turn s = (next_turn, s)

abbrev pub stop : {A : Type 0} → Step A
stop s = (stop_run, s)

-- The state, and a change of it.
abbrev pub current : Step Run
current s = (value s, s)

abbrev pub change : (Run → Run) → Step (Unit {0})
change f s = (value tt, f s)

-- A question to the host.
unfoldable pub ask : {A : Type 0} → (Run → A) → Step A
ask q s = (value (q s), record s { asked = suc s.asked })

module _ (host : Host) where
  -- The event under the parent session of the run, where it names none.
  abbrev pub addressed : Event → Event
  addressed e = record e {
    parent_session_id =
        if e.parent_session_id == "" then host.parent_session_id else e.parent_session_id;
  }

  -- The select that sends an event, unless the context ends first.
  unfoldable pub deliver : Event → Step Bool
  unfolding ask
  deliver e = do
    got ← ask (host.received e)
    change (λ s.
        if got
        then record s { events = s.events ++ e ∷ [] }
        else record s { lost = s.lost ++ e ∷ [] })
    return got

  -- The closure emit.
  unfoldable pub emit : Event → Step Bool
  unfolding deliver
  emit e = deliver (addressed e)

  -- Sends an event of this session; the run stops if nobody takes it.
  unfoldable pub send : ℕ → Body → Step (Unit {0})
  unfolding emit
  send turn body = do
    got ← emit (new_event host.session_id turn body)
    if got then return tt else stop

  -- What `finish` returns.
  abbrev pub final_error : Option RunError → List String → List String → Option RunError
  final_error (some e) stops ends = some e
  final_error none (x ∷ xs) ends = some (RunError.stop_hook (x ∷ xs))
  final_error none [] (x ∷ xs) = some (RunError.session_ended_hook (x ∷ xs))
  final_error none [] [] = none

  -- The closure finish.
  unfoldable pub finish : ℕ → StopReason → Option RunError → Step (Option RunError)
  unfolding ask
  finish turn reason error = do
    let entry : Finish = (record { turn = turn; reason = reason; error = error })
    change (λ s. record s { finishes = s.finishes ++ entry ∷ [] })
    stops ← ask (host.stop_hooks entry)
    ends ← ask (host.session_ended_hooks entry)
    return (final_error error stops ends)

  -- emitError, finish and the return that stops the run.
  unfoldable pub fail : {A : Type 0} → ℕ → StopReason → RunError → Step A
  unfolding emit finish
  fail turn reason e = do
    _ ← emit (new_event host.session_id turn (Body.failed e))
    _ ← finish turn reason (some e)
    stop

  unfoldable pub or_fail : {A E : Type 0} → ℕ → StopReason → (E → RunError) → Result E A → Step A
  unfolding fail
  or_fail turn reason wrap (ok a) = return a
  or_fail turn reason wrap (err e) = fail turn reason (wrap e)

  unfoldable pub fail_if : ℕ → StopReason → Option RunError → Step (Unit {0})
  unfolding fail
  fail_if turn reason none = return tt
  fail_if turn reason (some e) = fail turn reason e

  -- budgetTracker.snapshot
  abbrev pub snapshot : ℕ → BudgetTracker → Snapshot
  snapshot now t = record {
    started_at = t.started_at;
    now = now;
    elapsed = time_sub now t.started_at;
    turns = pos t.turns;
    model_calls = pos t.model_calls;
    tool_calls = pos t.tool_calls;
    usage = t.usage.tokens;
  }

  -- A denial with no reason reads "budget exceeded".
  abbrev pub denial_of : Decision → Option RunError
  denial_of d = if d.allow then none else some (RunError.budget_exceeded d.reason)

  unfoldable pub decide : Option (Snapshot → Run → Decision) → Snapshot → Step (Option RunError)
  unfolding ask
  decide none snap = return none
  decide (some policy) snap = do d ← ask (policy snap); return (denial_of d)

  -- checkBudget, on a tracker that is taken with some calls more.
  unfoldable pub check_budget : (BudgetTracker → BudgetTracker) → Step (Option RunError)
  unfolding ask decide
  check_budget more = do
    now ← ask host.now
    s ← current
    decide host.budget (snapshot now (more s.tracker))

  -- withModelCalls and withToolCalls; the counters of the tracker grow in the same way.
  abbrev pub with_model_calls : ℕ → BudgetTracker → BudgetTracker
  with_model_calls n t = record t { model_calls = t.model_calls + n }

  abbrev pub with_tool_calls : ℕ → BudgetTracker → BudgetTracker
  with_tool_calls n t = record t { tool_calls = t.tool_calls + n }

  abbrev pub track : (BudgetTracker → BudgetTracker) → Step (Unit {0})
  track more = change (λ s. record s { tracker = more s.tracker })

  -- checkBudget where a denial stops the run.
  unfoldable pub guard_budget : ℕ → (BudgetTracker → BudgetTracker) → Step (Unit {0})
  unfolding check_budget fail_if
  guard_budget turn more = do e ← check_budget more; fail_if turn stopped_budget e

  -- The budget for one more call of the model, and for more calls of tools.
  unfoldable pub count_model_call : ℕ → Step (Unit {0})
  unfolding guard_budget
  count_model_call turn = do guard_budget turn (with_model_calls 1); track (with_model_calls 1)

  unfoldable pub count_tool_calls : ℕ → ℕ → Step (Unit {0})
  unfolding guard_budget
  count_tool_calls turn n = do guard_budget turn (with_tool_calls n); track (with_tool_calls n)

  abbrev pub stored : Result Error Store → Step (Result Error (Unit {0}))
  stored (ok t) = do change (λ s. record s { store = t }); return (ok tt)
  stored (err e) = return (err e)

  -- opts.Sessions.Append
  unfoldable pub append_message : Message → Step (Result Error (Unit {0}))
  unfolding ask
  append_message m = do
    id ← ask host.fresh
    s ← current
    stored (append host.json_valid s.store host.session_id m id)

  -- Appends a message; an error stops the run.
  unfoldable pub append_or_fail : ℕ → (Error → RunError) → Message → Step (Unit {0})
  unfolding append_message fail
  append_or_fail turn wrap m = do r ← append_message m; or_fail turn stopped_error wrap r
