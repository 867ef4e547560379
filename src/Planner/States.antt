-- ===== src/Planner/States.antt =====
-- inferState of planner/planner.go: the state of a plan from the statuses of its tasks.
use memax_go_agent_sdk.Prelude.{Bool, true, false, ◌&&◌, List, any, all, if◌then◌else◌}
use memax_go_agent_sdk.Planner.{
  Task, State, completed, blocked, canceled, unset, active_state, completed_state, blocked_state,
  canceled_state, is_empty,
}

abbrev pub is_blocked : Task → Bool
is_blocked t = elim t.status [ blocked ↦ true | _ ↦ false ]

abbrev pub is_completed : Task → Bool
is_completed t = elim t.status [ completed ↦ true | _ ↦ false ]

abbrev pub is_canceled : Task → Bool
is_canceled t = elim t.status [ canceled ↦ true | _ ↦ false ]

-- The state of the tasks, said of all of them at once.
abbrev pub overall : List Task → State
overall ts =
    if is_empty ts
    then unset
    else if any is_blocked ts
    then blocked_state
    else if all is_completed ts
    then completed_state
    else if all is_canceled ts
    then canceled_state
    else active_state

abbrev pick : Bool → Bool → Bool → State
pick some_blocked all_completed all_canceled =
    if some_blocked
    then blocked_state
    else if all_completed
    then completed_state
    else if all_canceled
    then canceled_state
    else active_state

-- The state that the loop gives, from its flags.
abbrev overall_from : List Task → Bool → Bool → State
overall_from ts a b = pick (any is_blocked ts) (a && all is_completed ts) (b && all is_canceled ts)
