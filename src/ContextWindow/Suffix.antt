-- ===== src/ContextWindow/Suffix.antt =====
-- contextwindow/policy.go: the newest suffix that fits, RecentMessages and TokenBudget.
use memax_go_agent_sdk.Prelude.{
  ℕ, zero, suc, ◌+◌, ◌-◌, Bool, not, ◌&&◌, Option, none, some, List, [], ◌∷◌, length, drop,
  get_elem?, ltb, leb, if◌then◌else◌, Result, ok, err, ◌>>=◌, String,
}
use memax_go_agent_sdk.Prelude.Int.{ℤ, pos, negsuc, positive_part, is_positive}
use memax_go_agent_sdk.Model.{Message, is_tool_role, clone_messages}
use memax_go_agent_sdk.ContextWindow.{
  Error, max_messages_not_positive, max_tokens_not_positive, negative_estimate, index_out_of_range,
  Estimator, estimate_by_runes,
}

-- How many tool messages stand first.
abbrev pub leading_tool_results : List Message → ℕ
leading_tool_results [] = 0
leading_tool_results (m ∷ ms) = if is_tool_role m.role then suc (leading_tool_results ms) else 0

-- The loop reads messages[start], messages[start+1], … while they are tool messages.
unfoldable pub drop_leading_tool_results : List Message → ℕ → ℕ
drop_leading_tool_results ms start = start + leading_tool_results (drop start ms)

-- The loop of newestSuffixStart, by `start`; the call at `suc n` reads messages[n].
unfoldable pub suffix_loop : Estimator → ℕ → List Message → ℕ → ℕ → Result Error ℕ
suffix_loop estimate max ms total zero = ok 0
suffix_loop estimate max ms total (suc n) = elim (get_elem? ms n) [
  | none ↦ err index_out_of_range
  | some m ↦ elim (estimate m) [
    | negsuc k ↦ err negative_estimate
    | pos next ↦
        let rest = suffix_loop estimate max ms (total + next) n in
        if ltb 0 total && ltb max (total + next)
        then ok (suc n)
        else if leb max (total + next)
        then ok n
        else rest
  ]
]

unfoldable pub newest_suffix_start : List Message → ℕ → Estimator → Result Error ℕ
unfolding suffix_loop drop_leading_tool_results
newest_suffix_start ms max estimate = do
  start ← suffix_loop estimate max ms 0 (length ms)
  ok (drop_leading_tool_results ms start)

-- estimateMessages
unfoldable pub estimate_from : Estimator → ℕ → List Message → Result Error ℕ
estimate_from estimate total [] = ok total
estimate_from estimate total (m ∷ ms) = elim (estimate m) [
  | negsuc k ↦ err negative_estimate
  | pos next ↦ estimate_from estimate (total + next) ms
]

unfoldable pub estimate_messages : List Message → Estimator → Result Error ℕ
unfolding estimate_from
estimate_messages ms estimate = estimate_from estimate 0 ms

abbrev pub estimator_or_default : Option Estimator → Estimator
estimator_or_default none = estimate_by_runes
estimator_or_default (some f) = f

module _ (json_valid : String → Bool) where
  -- RecentMessages.Apply
  unfoldable pub apply_recent_messages : ℤ → List Message → Result Error (List Message)
  unfolding drop_leading_tool_results
  apply_recent_messages max ms =
      if not (is_positive max)
      then err max_messages_not_positive
      else if leb (length ms) (positive_part max)
      then ok (clone_messages json_valid ms)
      else ok (
          clone_messages json_valid
            (drop (drop_leading_tool_results ms (length ms - positive_part max)) ms))

  -- TokenBudget.Apply
  unfoldable pub apply_token_budget :
      ℤ → Option Estimator → List Message → Result Error (List Message)
  unfolding newest_suffix_start
  apply_token_budget max estimate ms =
      if not (is_positive max) then err max_tokens_not_positive else do
        start ← newest_suffix_start ms (positive_part max) (estimator_or_default estimate)
        ok (clone_messages json_valid (drop start ms))
