-- ===== src/Agent/Final.antt =====
-- agent.go: the end of a turn without calls: the gate before a final answer, the output contract, the
-- candidates for memories, and the result.
use memax_go_agent_sdk.Prelude.{
  ℕ, zero, suc, String, Bool, true, false, not, Option, none, some, List, [], ◌∷◌, ◌||◌, leb, ltb,
  ◌==◌, if◌then◌else◌,
}
use memax_go_agent_sdk.Prelude.Int.{ℤ, pos, negsuc}
use memax_go_agent_sdk.Prelude.Text.{trim_space}
use memax_go_agent_sdk.Model.{ContentBlock, plain_text}
use memax_go_agent_sdk.Agent.Events.{
  ModelUsage, RunError, Body, stopped_result, stopped_error, stopped_policy, new_event,
}
use memax_go_agent_sdk.Agent.Messages.{
  user_message, assistant_message, final_denial_limit, final_retry_prompt, output_retry_prompt,
}
use memax_go_agent_sdk.Agent.Run.{
  Host, Step, ◌>>=◌, ◌>>◌, return, end_turn, stop, current, change, ask, emit, send, finish, fail,
  or_fail, append_or_fail,
}

abbrev is_zero_int : ℤ → Bool
is_zero_int (pos zero) = true
is_zero_int (pos (suc n)) = false
is_zero_int (negsuc n) = false

unfoldable pub has_usage : ModelUsage → Bool
has_usage u =
    not (is_zero_int u.tokens.input_tokens)
    || (not (is_zero_int u.tokens.output_tokens)
        || (not (is_zero_int u.tokens.total_tokens)
            || (not (u.provider == "")
                || (not (u.model == "") || (elim u.metadata [ [] ↦ false | _ ∷ _ ↦ true ])))))

module _ (host : Host) (turn : ℕ) where
  -- A final answer that the hook denies: a message asks for another, up to the limit.
  unfoldable pub deny_if : Bool → ℕ → String → Step (Unit {0})
  unfolding fail append_or_fail final_retry_prompt trim_space
  deny_if true denials reason =
      fail host turn stopped_policy (RunError.final_denied denials (trim_space reason))
  deny_if false denials reason = do
    change (λ s. record s { final_denials = suc s.final_denials })
    append_or_fail host turn RunError.append_final_retry (user_message (final_retry_prompt reason))
    end_turn

  unfoldable pub deny_final : String → Step (Unit {0})
  unfolding deny_if
  deny_final reason = do
    s ← current
    deny_if (leb (final_denial_limit host.max_final_denials) s.final_denials) s.final_denials reason

  -- A final answer that breaks the output contract: a message asks for another, up to the limit.
  unfoldable pub retry_if : Bool → String → Step (Unit {0})
  unfolding fail append_or_fail output_retry_prompt
  retry_if false e = fail host turn stopped_error (RunError.invalid_output e)
  retry_if true e = do
    change (λ s. record s { output_retries = suc s.output_retries })
    append_or_fail host turn RunError.append_output_retry (user_message (output_retry_prompt e))
    end_turn

  unfoldable pub retry_output : String → Step (Unit {0})
  unfolding retry_if
  retry_output e = do s ← current; retry_if (ltb s.output_retries host.retry_limit) e

  unfoldable pub handled : Option String → Step (Unit {0})
  unfolding send
  handled none = return tt
  handled (some x) =
      send host turn (Body.memory_candidate_handler_error (RunError.candidate_handler x))

  unfoldable pub report_candidates : List String → Step (Unit {0})
  unfolding ask send handled
  report_candidates [] = return tt
  report_candidates (c ∷ cs) = do
    send host turn (Body.memory_candidates (c ∷ cs))
    e ← ask (host.handle_candidates (c ∷ cs))
    handled e

  -- The last event: the result, or the error of a hook.
  unfoldable pub last_body : String → ModelUsage → Option RunError → Body
  unfolding has_usage
  last_body answer usage (some x) = Body.failed x
  last_body answer usage none = Body.result answer (if has_usage usage then some usage else none)

  unfoldable pub conclude : String → Step (Unit {0})
  unfolding ask emit finish report_candidates last_body or_fail
  conclude answer = do
    found ← ask (host.distill_memories answer)
    candidates ← or_fail host turn stopped_error RunError.distill found
    report_candidates candidates
    e ← finish host turn stopped_result none
    s ← current
    _ ← emit host (new_event host.session_id turn (last_body answer s.total_usage e))
    stop

  unfoldable pub judged : Option String → String → Step (Unit {0})
  unfolding retry_output conclude
  judged (some e) answer = retry_output e
  judged none answer = conclude answer

  unfoldable pub judge : Bool → String → String → Step (Unit {0})
  unfolding ask judged deny_final
  judge false reason answer = deny_final reason
  judge true reason answer = do invalid ← ask (host.validate_output answer); judged invalid answer

  -- The end of a turn without calls: the hook before the final answer, and the output contract.
  unfoldable pub finalize : List ContentBlock → Step (Unit {0})
  unfolding ask or_fail judge plain_text
  finalize blocks = do
    let answer = plain_text (assistant_message blocks)
    gate ← ask (host.before_final_hook answer)
    reason ← or_fail host turn stopped_error RunError.before_final gate
    judge (reason == "") reason answer
