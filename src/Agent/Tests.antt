-- ===== src/Agent/Tests.antt =====
-- Tests of agent.go: a run in which the model asks for one call of a tool, and then answers.
use memax_go_agent_sdk.Prelude.{
  String, true, false, none, some, List, [], ◌∷◌, lookup, insert, length, leb, ◌&&◌, ok, ◌≡◌, ◌⊎◌,
  refl, All, if◌then◌else◌,
}
use memax_go_agent_sdk.Prelude.Int.{pos}
use memax_go_agent_sdk.Model.{Message, user, text}
use memax_go_agent_sdk.Budget.{Policy, check, over}
use memax_go_agent_sdk.Registry.{Registry, Tool, get}
use memax_go_agent_sdk.Session.Ids.{canonical_id}
use memax_go_agent_sdk.Session.Store.{
  MemorySession, Store, canonical_required_id, known_session, message_view, view_of, append,
}
use memax_go_agent_sdk.Session.Invariant.{IsValid, insert-IsValid}
use memax_go_agent_sdk.Agent.TextStream.{new_normalizer}
use memax_go_agent_sdk.Agent.TextLaws.{squeezed, pushed, joined, pushed-keeps_text}
use memax_go_agent_sdk.Agent.Run.{Run, Host, Request, Stream, stream_text, stream_tool_use}
use memax_go_agent_sdk.Agent.Turn.{new_run, run_loop}
use memax_go_agent_sdk.Agent.Machine.{Interrupted}
use memax_go_agent_sdk.Agent.Refinement.{Ends, run_loop-refines}
use memax_go_agent_sdk.Agent.Ending.{run_loop-finishes_once}
use memax_go_agent_sdk.Agent.Spending.{check_by, IsUnder, run_loop-IsUnder}
use memax_go_agent_sdk.Agent.Protocol.{IsProtocol, run_loop-KeepsProtocol}
use memax_go_agent_sdk.Agent.History.{Keeps, user_count, run_loop-Keeps}
use memax_go_agent_sdk.Agent.Asking.{run_loop-asks_at_most}
use memax_go_agent_sdk.Agent.Messages.{final_denial_limit}
use memax_go_agent_sdk.Prelude.{◌+◌, ◌≤◌}

abbrev session_id : String
session_id = "01890a5d-ac96-774b-bcce-b302099a8057"

abbrev other_id : String
other_id = "01890a5d-ac96-774b-bcce-b302099a8058"

abbrev prompt : Message
prompt = record {
  id = "a";
  role = user;
  content = record { type = text; text = "go"; tool_use = none; provider_artifact = none } ∷ [];
  tool_result = none;
  metadata = [];
}

abbrev begun : MemorySession
begun = record {
  session = record { id = session_id; parent_id = ""; created_at = 1 };
  messages = prompt ∷ [];
  compaction = none;
}

abbrev store : Store
store = (session_id, begun) ∷ []

abbrev read_tool : Tool
read_tool = record {
  spec = record {
    name = "read";
    description = "";
    search_hint = "";
    read_only = true;
    concurrency_safe = true;
    destructive = false;
    always_load = true;
    should_defer = false;
    max_result_bytes = pos 0;
  };
  input_schema = "";
  concurrent = λ _. true;
}

abbrev registry : Registry
registry = record {
  entries = ("read", record { tool = read_tool; input_schema = none }) ∷ [];
  order = "read" ∷ [];
}

abbrev policy : Policy
policy = record {
  max_turns = pos 0;
  max_model_calls = pos 2;
  max_tool_calls = pos 1;
  max_input_tokens = pos 0;
  max_output_tokens = pos 0;
  max_total_tokens = pos 0;
  max_duration = pos 0;
}

abbrev asking : Stream
asking = record {
  events =
      stream_text "let me "
      ∷ stream_text "look"
      ∷ stream_tool_use (record { id = "c1"; name = "read"; input = "{}" })
      ∷ [];
  receive_error = none;
  close_error = none;
}

abbrev answering : Stream
answering = record { events = stream_text "done" ∷ []; receive_error = none; close_error = none }

abbrev host : Host
host = record {
  session_id = session_id;
  parent_session_id = "";
  max_turns = 5;
  max_final_denials = pos 0;
  retry_limit = 1;
  registry = registry;
  registry_error = none;
  scope = record { id = ""; subject_id = ""; attributes = [] };
  now = λ s. s.asked;
  fresh = λ _. ok other_id;
  received = λ e s. true;
  budget = some (check_by policy (λ _. none) (λ s. s.asked));
  validator = none;
  context = none;
  context_retry = none;
  selector = none;
  build_prompt = λ ms tools s.
      ok (record { system_prompt = ""; append_system_prompt = ""; skill_discovery = none });
  context_applied_hook = λ original sent s. none;
  before_final_hook = λ answer s. ok "";
  stop_hooks = λ f s. [];
  session_ended_hooks = λ f s. [];
  validate_output = λ answer s. none;
  distill_memories = λ answer s. ok [];
  handle_candidates = λ cs s. none;
  stream = λ request s. if leb (length s.requests) 1 then ok asking else ok answering;
  run_tools = λ us s.
      (record {
        tool_use_id = "c1";
        name = "read";
        content = "text";
        is_error = false;
        metadata = [];
      })
      ∷ [];
  arrives = λ u s. true;
  cancelled = λ s. false;
  json_valid = λ s. true;
  same_messages = λ a b. true;
  is_letter = λ c. leb 97 c && leb c 122;
  is_digit = λ c. leb 48 c && leb c 57;
  is_upper = λ c. leb 65 c && leb c 90;
  is_lower = λ c. leb 97 c && leb c 122;
  lower = λ s. s;
  error_text = λ e. "";
}

abbrev end : Run
unfolding run_loop
end = run_loop host (new_run store)

-- The counts of a run: messages of its session, requests, calls, events.
counts_test : (length end.requests ≡ 2) × (length end.executed ≡ 1) × (length end.finishes ≡ 1)
unfolding end check over message_view canonical_id lookup view_of get append insert
counts_test = (refl, refl, refl)

run_loop-refines_example : Ends host 0 0 (new_run store) (run_loop host (new_run store))
run_loop-refines_example = run_loop-refines host store

run_loop-finishes_once_example :
    (length (run_loop host (new_run store)).finishes ≡ 1)
    ⊎ (((run_loop host (new_run store)).finishes ≡ [])
        × Interrupted host (run_loop host (new_run store)))
run_loop-finishes_once_example = run_loop-finishes_once host store

run_loop-IsUnder_example :
    IsUnder (length (run_loop host (new_run store)).requests) (pos 2)
    × IsUnder (length (run_loop host (new_run store)).executed) (pos 1)
run_loop-IsUnder_example = run_loop-IsUnder host policy (λ _. none) (λ s. s.asked) refl store

run_loop-KeepsProtocol_example :
    All
      (λ (r : Request). IsProtocol (λ s. true) r.messages)
      (run_loop host (new_run store)).requests
run_loop-KeepsProtocol_example = run_loop-KeepsProtocol host store

session_id-canonical : canonical_id session_id ≡ some session_id
unfolding canonical_id
session_id-canonical = refl

session_id-required : canonical_required_id session_id ≡ ok session_id
unfolding canonical_required_id canonical_id
session_id-required = refl

store-known : known_session store session_id ≡ ok begun
unfolding known_session lookup
store-known = refl

empty-valid : IsValid []
unfolding lookup
empty-valid = record { at = λ id r h. cc h }

store-IsValid : IsValid store
unfolding insert
store-IsValid =
    insert-IsValid [] session_id begun empty-valid
      (record { own_id = refl; canonical = session_id-canonical; covered = refl })

run_loop-Keeps_example :
    Keeps host session_id other_id store begun session_id-required refl
      (run_loop host (new_run store)).store
run_loop-Keeps_example =
    run_loop-Keeps host session_id other_id store begun session_id-required refl store-IsValid
      store-known

abbrev pieces : List String
pieces = "Hel" ∷ "lo," ∷ "\n\n" ∷ " wor" ∷ "ld" ∷ []

pushed-keeps_text_example :
    squeezed (
      pushed host.is_letter host.is_digit host.is_upper host.is_lower host.lower new_normalizer
        pieces)
    ≡ squeezed (joined pieces)
pushed-keeps_text_example =
    pushed-keeps_text host.is_letter host.is_digit host.is_upper host.is_lower host.lower pieces

run_loop-asks_at_most_example :
    (now : MemorySession) × (known_session (run_loop host (new_run store)).store session_id
      ≡ ok now)
    × (user_count now.messages
        ≤ user_count begun.messages
          + (final_denial_limit host.max_final_denials + host.retry_limit))
run_loop-asks_at_most_example =
    run_loop-asks_at_most host session_id begun session_id-required store store-known
