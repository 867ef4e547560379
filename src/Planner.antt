-- ===== src/Planner.antt =====
-- planner/planner.go: plans made from tasks.
use memax_go_agent_sdk.Prelude.{
  ℕ, zero, suc, String, Bool, true, false, not, ◌&&◌, ◌||◌, Option, none, some, List, [], ◌∷◌, ◌++◌,
  eqb, ltb, ◌==◌, if◌then◌else◌, Result, ok, err, ◌>>=◌,
}
use memax_go_agent_sdk.Prelude.Int.{ℤ, pos, negsuc, lt_int}
use memax_go_agent_sdk.Prelude.Text.{trim_space}
use memax_go_agent_sdk.Prelude.Sort.{stable_sort}
use memax_go_agent_sdk.Prelude.Order.{text_less}
pub mod States
pub mod Steps
pub mod Tests

pub data Status : Type 0 where
  pending in_progress completed blocked canceled : Status
  other_status : String → Status

-- `unset` is the empty string.
pub data State : Type 0 where
  unset active_state completed_state blocked_state canceled_state : State
  other_state : String → State

pub record Step : Type 0 where
  pub id : String
  pub title : String
  pub status : Status
  pub notes : String
  pub verification_hints : List String
  pub evidence : List String
  pub tool_hints : List String

pub record Plan : Type 0 where
  pub goal : String
  pub steps : List Step
  pub constraints : List String
  pub state : State

pub record Task : Type 0 where
  pub id : String
  pub title : String
  pub status : Status
  pub notes : String
  pub priority : ℤ
  pub verification_hints : List String
  pub evidence : List String
  pub tool_hints : List String

pub data Error : Type 0 where
  cancelled load_tasks : String → Error

-- taskSourcePolicy. The source answers one request: the tasks, or an error.
pub record TaskSourcePolicy : Type 0 where
  pub source : Option (Result String (List Task))
  pub goal : String
  pub constraints : List String
  pub state : State
  pub verification_hints : List String
  pub tool_hints : List String

abbrev pub empty_plan : Plan
empty_plan = record { goal = ""; steps = []; constraints = []; state = unset }

abbrev pub is_unset : State → Bool
is_unset unset = true
is_unset active_state = false
is_unset completed_state = false
is_unset blocked_state = false
is_unset canceled_state = false
is_unset (other_state s) = s == ""

abbrev pub is_empty {ℓ} : {A : Type ℓ} → List A → Bool
is_empty [] = true
is_empty (x ∷ xs) = false

-- The method Empty.
unfoldable pub empty : Plan → Bool
empty p = trim_space p.goal == "" && is_empty p.steps && is_empty p.constraints && is_unset p.state

-- normalizeStatus
unfoldable pub normalize_status : Status → Status
normalize_status pending = pending
normalize_status in_progress = in_progress
normalize_status completed = completed
normalize_status blocked = blocked
normalize_status canceled = canceled
normalize_status (other_status s) = pending

-- The loop of inferState, on its two flags.
unfoldable pub infer_loop : List Task → Bool → Bool → State
unfolding normalize_status
infer_loop [] all_completed all_canceled =
    if all_completed then completed_state else if all_canceled then canceled_state else active_state
infer_loop (t ∷ ts) all_completed all_canceled = elim (normalize_status t.status) [
  | blocked ↦ blocked_state
  | canceled ↦ infer_loop ts false all_canceled
  | completed ↦ infer_loop ts all_completed false
  | _ ↦ infer_loop ts false false
]

-- inferState
unfoldable pub infer_state : List Task → State
unfolding infer_loop
infer_state [] = unset
infer_state (t ∷ ts) = infer_loop (t ∷ ts) true true

abbrev pub eq_int : ℤ → ℤ → Bool
eq_int a b = not (lt_int a b) && not (lt_int b a)

-- The order of sortTasks.
unfoldable pub task_less : Task → Task → Bool
task_less left right =
    if not (eq_int left.priority right.priority)
    then (if eq_int left.priority (pos 0)
        then false
        else if eq_int right.priority (pos 0)
        then true
        else lt_int left.priority right.priority)
    else text_less left.id right.id

-- sortTasks
unfoldable pub sort_tasks : List Task → List Task
sort_tasks ts = stable_sort task_less ts

-- Whether the loop of Prepare makes a step of a task.
abbrev pub is_named : Task → Bool
is_named t = not (trim_space t.title == "" && trim_space t.id == "")

unfoldable pub step_of : TaskSourcePolicy → Task → Step
step_of p t = record {
  id = trim_space t.id;
  title = trim_space t.title;
  status = normalize_status t.status;
  notes = trim_space t.notes;
  verification_hints = p.verification_hints ++ t.verification_hints;
  evidence = t.evidence;
  tool_hints = p.tool_hints ++ t.tool_hints;
}

-- The loop of Prepare.
unfoldable pub steps_of : TaskSourcePolicy → List Task → List Step
steps_of p [] = []
steps_of p (t ∷ ts) =
    let rest = steps_of p ts in
    if trim_space t.title == "" && trim_space t.id == "" then rest else step_of p t ∷ rest

-- What Prepare makes of the tasks.
unfoldable pub plan_of : TaskSourcePolicy → List Task → Plan
unfolding steps_of infer_state sort_tasks
plan_of p loaded =
    let tasks = sort_tasks loaded in
    let steps = steps_of p tasks in
    if is_empty steps && (trim_space p.goal == "" && is_empty p.constraints && is_unset p.state)
    then empty_plan
    else record {
      goal = trim_space p.goal;
      steps = steps;
      constraints = p.constraints;
      state = if is_unset p.state then infer_state tasks else p.state;
    }

-- taskSourcePolicy.Prepare; `cancel` is ctx.Err().
unfoldable pub prepare : TaskSourcePolicy → Option String → Result Error Plan
unfolding plan_of
prepare p (some e) = err (cancelled e)
prepare p none = elim p.source [
  | none ↦ ok empty_plan
  | some (err e) ↦ err (load_tasks e)
  | some (ok tasks) ↦ ok (plan_of p tasks)
]
