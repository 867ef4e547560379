-- ===== src/Planner/Tests.antt =====
-- Tests of planner/planner.go on four tasks.
use memax_go_agent_sdk.Prelude.{String, none, some, List, [], ◌∷◌, map, select, ok, ◌≡◌, refl}
use memax_go_agent_sdk.Prelude.Int.{ℤ, pos}
use mathlib.Core.List.{Perm}
use memax_go_agent_sdk.Planner.{
  Task, Status, TaskSourcePolicy, completed, canceled, unset, sort_tasks, task_less, is_named,
  plan_of, prepare,
}
use memax_go_agent_sdk.Planner.Steps.{IsInOrder, AreStepsOf, prepare-steps}

abbrev task : String → Status → ℤ → Task
task id status priority = record {
  id = id;
  title = "";
  status = status;
  notes = "";
  priority = priority;
  verification_hints = [];
  evidence = [];
  tool_hints = [];
}

abbrev tasks : List Task
tasks =
    task "c" completed (pos 0)
    ∷ task "b" canceled (pos 2)
    ∷ task " " completed (pos 1)
    ∷ task "a" completed (pos 2)
    ∷ []

abbrev policy : TaskSourcePolicy
policy = record {
  source = some (ok tasks);
  goal = "ship";
  constraints = [];
  state = unset;
  verification_hints = [];
  tool_hints = [];
}

order : map (λ (t : Task). t.id) (sort_tasks tasks) ≡ " " ∷ "a" ∷ "b" ∷ "c" ∷ []
unfolding sort_tasks task_less
order = refl

prepared : prepare policy none ≡ ok (plan_of policy tasks)
unfolding prepare
prepared = refl

prepare-steps_example :
    IsInOrder (sort_tasks tasks)
    × Perm (sort_tasks tasks) tasks
    × AreStepsOf policy (select is_named (sort_tasks tasks)) (plan_of policy tasks).steps
prepare-steps_example = prepare-steps policy tasks (plan_of policy tasks) refl prepared
