-- ===== src/Executor/Tests.antt =====
-- Tests of tool/executor.go on four calls and a short text.
use memax_go_agent_sdk.Prelude.{String, true, false, List, [], ◌∷◌, All, ◌≡◌, refl}
use memax_go_agent_sdk.Prelude.Int.{pos, is_positive}
use memax_go_agent_sdk.Model.{ToolUse, words}
use memax_go_agent_sdk.Prelude.{Option, none, some, lookup, ok, ◌==◌}
use memax_go_agent_sdk.Executor.Calls.{
  Host, run_one, validate_input, tenant_check, before_tool_use, permission,
}
use memax_go_agent_sdk.Executor.Admission.{Answered, run_one-Answered}
use memax_go_agent_sdk.Executor.{can_run_concurrently, partition, truncate_utf8}
use memax_go_agent_sdk.Prelude.{insert, Bool, false}
use memax_go_agent_sdk.Registry.{
  Registry, Tool, get, new_registry, register, add_entry, compile_input_schema,
}
use memax_go_agent_sdk.Executor.Batches.{uses_of, IsUniform, IsSeparated, partition-keeps_order}
use memax_go_agent_sdk.Executor.Cuts.{IsLongestFront, truncate_utf8-cut}

abbrev call : String → String → ToolUse
call id name = record { id = id; name = name; input = "{}" }

abbrev tool : String → Bool → Tool
tool name concurrent = record {
  spec = record {
    name = name;
    description = "";
    search_hint = "";
    read_only = false;
    concurrency_safe = concurrent;
    destructive = false;
    always_load = false;
    should_defer = false;
    max_result_bytes = pos 0;
  };
  input_schema = "";
  concurrent = λ u. concurrent;
}

abbrev limited : String → Tool
limited name = record (tool name false) {
  spec = record (tool name false).spec { max_result_bytes = pos 2 };
}

abbrev reads : Option Registry
reads = some (new_registry (λ s. some s) (some (tool "read" true) ∷ some (tool "write" false) ∷ []))

abbrev calls : List ToolUse
calls =
    call "a" "read" ∷ call "b" "read" ∷ call "c" "write" ∷ call "d" "write" ∷ call "e" "read" ∷ []

batches :
    partition reads calls
    ≡ record { concurrent = true; uses = call "a" "read" ∷ call "b" "read" ∷ [] }
      ∷ record { concurrent = false; uses = call "c" "write" ∷ [] }
      ∷ record { concurrent = false; uses = call "d" "write" ∷ [] }
      ∷ record { concurrent = true; uses = call "e" "read" ∷ [] }
      ∷ []
unfolding partition can_run_concurrently new_registry register add_entry compile_input_schema get
    lookup insert
batches = refl

partition-keeps_order_example :
    (uses_of (partition reads calls) ≡ calls)
    × All (IsUniform reads) (partition reads calls)
    × IsSeparated reads (partition reads calls)
partition-keeps_order_example = partition-keeps_order reads calls

cut : truncate_utf8 "aéb" (pos 2) ≡ "a"
unfolding truncate_utf8
cut = refl

truncate_utf8-cut_example :
    (is_positive (pos 2) ≡ true → IsLongestFront 2 "aéb" (truncate_utf8 "aéb" (pos 2)))
    × (is_positive (pos 2) ≡ false → truncate_utf8 "aéb" (pos 2) ≡ "")
truncate_utf8-cut_example = truncate_utf8-cut "aéb" (pos 2)

-- A host with two tools and a policy that refuses the second; results are cut at two bytes.
abbrev short : Registry
short = record {
  entries =
      ("read", record { tool = limited "read"; input_schema = none })
      ∷ ("write", record { tool = limited "write"; input_schema = none })
      ∷ [];
  order = "read" ∷ "write" ∷ [];
}

abbrev careful : Host
careful = record {
  registry = short;
  session_id = "s";
  parent_session_id = "";
  scope = record { id = ""; subject_id = ""; attributes = [] };
  normalizer = λ name. none;
  validate = λ u schema. none;
  validator = none;
  before = none;
  permissions = some (λ u spec log. record { allow = u.name == "read"; reason = "" });
  execute = λ u log.
      ok
        (record { tool_use_id = ""; name = ""; content = "long"; is_error = false; metadata = [] });
  store = none;
  after = some (λ u spec r log. "late" ∷ []);
  error_text = λ e. "refused";
  boundary_text = λ b. "";
  time_text = λ n. none;
}

read_test : (run_one careful (call "a" "read") []).0.content ≡ "lo"
unfolding run_one get lookup truncate_utf8 insert validate_input tenant_check before_tool_use
    permission
read_test = refl

hook_test :
    lookup "hook_errors" (run_one careful (call "a" "read") []).0.metadata
    ≡ some (words ("late" ∷ []))
unfolding run_one get lookup truncate_utf8 insert validate_input tenant_check before_tool_use
    permission
hook_test = refl

write_test : (run_one careful (call "b" "write") []).1 ≡ []
unfolding run_one get lookup validate_input tenant_check before_tool_use permission
write_test = refl

run_one-Answered_example :
    Answered careful (call "a" "read") [] (run_one careful (call "a" "read") [])
run_one-Answered_example = run_one-Answered careful (call "a" "read") []
