-- ===== src/Budget/Tests.antt =====
-- Tests of budget.go.
use memax_go_agent_sdk.Prelude.{◌↔◌, true, none, some, ◌≡◌, refl}
use memax_go_agent_sdk.Prelude.Int.{pos, negsuc}
use memax_go_agent_sdk.Budget.{
  Dimension, duration, turns, exceeded, Snapshot, Policy, filled, check, over,
}
use memax_go_agent_sdk.Budget.Limits.{IsWithin, Names, check-IsWithin_iff, check-reports}

abbrev limits : Policy
limits = record {
  max_turns = pos 3;
  max_model_calls = pos 0;
  max_tool_calls = pos 0;
  max_input_tokens = negsuc 0;
  max_output_tokens = pos 0;
  max_total_tokens = pos 0;
  max_duration = pos 100;
}

abbrev at_turn_3 : Snapshot
at_turn_3 = record {
  started_at = 50;
  now = 0;
  elapsed = pos 0;
  turns = pos 3;
  model_calls = pos 9;
  tool_calls = pos 0;
  usage = record { input_tokens = pos 7; output_tokens = pos 0; total_tokens = pos 7 };
}

abbrev at_turn_4 : Snapshot
at_turn_4 = record at_turn_3 { turns = pos 4 }

check_late : (check limits none 151 at_turn_3).reason ≡ some (exceeded duration (pos 101) (pos 100))
unfolding check over
check_late = refl

check-IsWithin_iff_example :
    ((check limits none 100 at_turn_3).allow ≡ true)
    ↔ ((d : Dimension) → IsWithin limits (filled 100 at_turn_3) d)
check-IsWithin_iff_example = check-IsWithin_iff limits 100 at_turn_3

check-reports_example : Names limits (filled 100 at_turn_4) turns (pos 4) (pos 3)
unfolding check over
check-reports_example = check-reports limits 100 at_turn_4 turns (pos 4) (pos 3) refl
