-- ===== src/Agent/Turn.antt =====
-- agent.go: runLoop. A turn prepares and sends a request, reads the model's answer, and then ends
-- the run with a final answer or runs the tools that the answer asks for.
use memax_go_agent_sdk.Prelude.{
  ℕ, zero, suc, String, Option, none, some, List, [], ◌∷◌, if◌then◌else◌,
}
use memax_go_agent_sdk.Model.{ContentBlock, ToolUse}
use memax_go_agent_sdk.Session.Store.{Error, Store}
use memax_go_agent_sdk.Agent.Events.{
  RunError, Body, no_usage, add_usage, stopped_error, stopped_canceled, stopped_max_turns,
  new_event,
}
use memax_go_agent_sdk.Agent.Messages.{assistant_message, prepare_messages_for_model}
use memax_go_agent_sdk.Agent.Run.{
  Run, Host, Step, Signal, Stream, BudgetTracker, value, next_turn, stop_run, ◌>>=◌, ◌>>◌, return,
  stop, change, ask, deliver, emit, send, finish, fail, or_fail, guard_budget, count_model_call,
  track, append_or_fail,
}
use memax_go_agent_sdk.Agent.Stream.{Collected, nothing_collected, collect, emit_canceled}
use memax_go_agent_sdk.Agent.Context.{
  selected_tool_specs, load_messages, apply_context, emit_skill_discovery, admit_model_request,
  stream_request, recover,
}
use memax_go_agent_sdk.Agent.Tools.{run_tools}
use memax_go_agent_sdk.Agent.Final.{finalize}

module _ (host : Host) (turn : ℕ) where
  unfoldable pub append_assistant : (Error → RunError) → List ContentBlock → Step (Unit {0})
  unfolding append_or_fail
  append_assistant wrap [] = return tt
  append_assistant wrap (b ∷ bs) = append_or_fail host turn wrap (assistant_message (b ∷ bs))

  -- The answer of a stream that broke off is kept if it has calls.
  unfoldable pub keep_partial : List ToolUse → List ContentBlock → Step (Unit {0})
  unfolding append_assistant
  keep_partial [] blocks = return tt
  keep_partial (u ∷ us) blocks = append_assistant RunError.append_partial blocks

  -- After the clean-up; where that fails, the run stops without a call of finish.
  unfoldable pub stop_broken : RunError → Option RunError → Step (Unit {0})
  unfolding emit fail
  stop_broken e none = fail host turn stopped_error e
  stop_broken e (some x) = do _ ← emit host (new_event host.session_id turn (Body.failed x)); stop

  unfoldable pub break_off : Collected → RunError → Step (Unit {0})
  unfolding keep_partial emit_canceled stop_broken
  break_off c e = do
    keep_partial c.uses c.blocks
    x ← emit_canceled host turn (host.error_text e) c.uses c.early
    stop_broken e x

  unfoldable pub answered : List ToolUse → Collected → Step (Unit {0})
  unfolding finalize run_tools
  answered [] c = finalize host turn c.blocks
  answered (u ∷ us) c = run_tools host turn c

  -- A turn after its stream was read.
  unfoldable pub act_on : Collected → Step (Unit {0})
  unfolding guard_budget append_assistant answered
  act_on c = do
    guard_budget host turn (λ t. t)
    append_assistant RunError.append_assistant c.blocks
    answered c.uses c

  unfoldable pub act_unless : Option RunError → Collected → Step (Unit {0})
  unfolding break_off act_on
  act_unless (some e) c = break_off c e
  act_unless none c = act_on c

  -- The error of reading, or else of Close.
  abbrev pub stream_error : Option RunError → Option String → Option RunError
  stream_error (some e) closed = some e
  stream_error none (some x) = some (RunError.close_stream x)
  stream_error none none = none

  unfoldable pub read_stream : Stream → Step (Unit {0})
  unfolding collect act_unless add_usage
  read_stream stream = do
    c ← collect host turn stream.events stream.receive_error nothing_collected
    change (λ s. record s {
      total_usage = add_usage s.total_usage c.usage;
      tracker = record s.tracker { usage = add_usage s.total_usage c.usage };
    })
    act_unless (stream_error c.error stream.close_error) c

  -- The function literal in the loop of runLoop.
  unfoldable pub run_turn : Step (Unit {0})
  unfolding ask send or_fail guard_budget load_messages apply_context selected_tool_specs
      admit_model_request count_model_call emit_skill_discovery stream_request recover read_stream
      prepare_messages_for_model
  run_turn = do
    track host (λ t. record t { turns = turn })
    guard_budget host turn (λ t. t)
    view ← load_messages host turn
    sent ←
        apply_context host turn view.raw_message_count
          (prepare_messages_for_model host view.messages)
    selected ← selected_tool_specs host sent
    tools ← or_fail host turn stopped_error RunError.select_tools selected
    built ← ask (host.build_prompt sent tools)
    prompt ← or_fail host turn stopped_error RunError.build_prompt built
    admit_model_request host turn
    count_model_call host turn
    send host turn Body.model_request
    emit_skill_discovery host turn prompt.skill_discovery
    answer ← stream_request host turn sent tools prompt
    stream ← recover host turn view.raw_message_count sent answer
    read_stream stream

-- What follows a turn: the run stops, or the rest goes on.
abbrev pub go_on : Signal (Unit {0}) × Run → (Run → Run) → Run
go_on (value a, s) rest = rest s
go_on (next_turn, s) rest = rest s
go_on (stop_run, s) rest = s

abbrev pub first_tracker : ℕ → BudgetTracker
first_tracker now = record {
  started_at = now;
  turns = 0;
  model_calls = 0;
  tool_calls = 0;
  usage = no_usage;
}

module _ (host : Host) where
  unfoldable pub exceed_turns : Step (Unit {0})
  unfolding fail
  exceed_turns =
      fail host host.max_turns stopped_max_turns (RunError.max_turns_exceeded host.max_turns)

  -- The loop over the turns, with the number of those that are left and the number of the next.
  unfoldable pub run_turns : ℕ → ℕ → Run → Run
  unfolding run_turn exceed_turns
  run_turns zero turn s = (exceed_turns s).1
  run_turns (suc left) turn s = go_on (run_turn host turn s) (run_turns left (suc turn))

  unfoldable pub open_run : Step (Unit {0})
  unfolding ask
  open_run = do now ← ask host.now; change (λ s. record s { tracker = first_tracker now })

  unfoldable pub refuse_run : Step (Unit {0})
  unfolding finish
  refuse_run = do _ ← finish host 0 stopped_canceled (some RunError.canceled); stop

  -- The start of runLoop, for a session that is open.
  unfoldable pub start_run : Step (Unit {0})
  unfolding emit refuse_run open_run
  start_run = do
    got ← emit host (new_event host.session_id 0 Body.session_started)
    if got then open_run else refuse_run

  -- The skill tools come first; their error is sent as it is, and ends the run.
  unfoldable pub configure : Option String → Step (Unit {0})
  unfolding deliver start_run
  configure none = start_run
  configure (some e) = do
    _ ← deliver host (new_event host.session_id 0 (Body.failed (RunError.skill_disclosure e)))
    stop

  unfoldable pub run_loop : Run → Run
  unfolding configure run_turns
  run_loop s = go_on (configure host.registry_error s) (run_turns host.max_turns 1)

-- The state in which a run begins.
abbrev pub new_run : Store → Run
new_run store = record {
  store = store;
  tracker = first_tracker 0;
  total_usage = no_usage;
  output_retries = 0;
  final_denials = 0;
  events = [];
  lost = [];
  requests = [];
  executed = [];
  finishes = [];
  asked = 0;
}
