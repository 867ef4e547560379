-- ===== src/Agent/TurnRules.antt =====
-- The end of a turn follows the machine: the calls of tools, or the final answer.
use memax_go_agent_sdk.Prelude.{
  ℕ, suc, ◌+◌, ◌-◌, String, Bool, true, false, Option, none, some, List, [], ◌∷◌, ◌++◌, length, leb,
  ltb, ◌==◌, ◌≡◌, refl, subst, arith,
}
use memax_go_agent_sdk.Model.{ContentBlock, Message, ToolUse, ToolResult, plain_text}
use memax_go_agent_sdk.Session.Store.{Error}
use memax_go_agent_sdk.Prelude.Text.{trim_space}
use memax_go_agent_sdk.Agent.Events.{
  RunError, StopReason, Body, stopped_result, stopped_error, stopped_policy, new_event,
}
use memax_go_agent_sdk.Agent.ToolEvents.{tool_events}
use memax_go_agent_sdk.Agent.Heeded.{all_heeded, all_heeded-tool_events}
use memax_go_agent_sdk.Agent.Messages.{
  user_message, assistant_message, tool_message, output_retry_prompt, final_retry_prompt,
  final_denial_limit,
}
use memax_go_agent_sdk.Agent.Run.{Run, Host, ◌>>◌, end_turn, change, fail, append_or_fail}
use memax_go_agent_sdk.Agent.Stream.{Collected}
use memax_go_agent_sdk.Agent.Tools.{
  Chunk, started, batch, chunks, send_all, handle_tool_result, handle_results, run_chunk,
  run_chunks, run_tools,
}
use memax_go_agent_sdk.Agent.Final.{
  deny_if, deny_final, retry_if, retry_output, handled, report_candidates, last_body, conclude,
  judged, judge, finalize,
}
use memax_go_agent_sdk.Agent.Tally.{IsTally, batched, batched-chunks}
use memax_go_agent_sdk.Agent.Machine.{
  live, asking, finished, over_finished, executes, denies, retries, once, EndsWell, Follows,
  prepend, bind,
}
use memax_go_agent_sdk.Agent.Rules.{
  Any, return_follows, end_turn_follows, stop_follows, ask_follows, current_follows, emit_follows,
  send_follows, finish_follows, fail_follows, or_fail_follows, append_or_fail_follows,
  prompt_or_fail_follows,
}
use memax_go_agent_sdk.Agent.BudgetRules.{count_tool_calls_follows}

module _ (host : Host) (m turn : ℕ) where
  send_all_follows :
      (t : ℕ) (bs : List Body)
      → all_heeded bs ≡ true
      → Follows host (live m t) (send_all host turn bs) (live m t) Any
  unfolding send_all
  send_all_follows t [] h = return_follows host _ _ tt tt
  send_all_follows t (b ∷ bs) h =
      bind host (send_follows host m t turn b (ground arith))
        (λ _ _. send_all_follows t bs (ground arith))

  handle_tool_result_follows :
      (t : ℕ) (r : ToolResult)
      → Follows host (live m t) (handle_tool_result host turn r) (live m t) Any
  unfolding handle_tool_result
  handle_tool_result_follows t r =
      bind host
        (send_all_follows t (tool_events host.scope host.session_id host.parent_session_id r)
          (all_heeded-tool_events host.scope host.session_id host.parent_session_id r))
        (λ _ _. append_or_fail_follows host m t turn RunError.append_result (tool_message r) refl)

  handle_results_follows :
      (t : ℕ) (rs : List ToolResult)
      → Follows host (live m t) (handle_results host turn rs) (live m t) Any
  unfolding handle_results
  handle_results_follows t [] = return_follows host _ _ tt tt
  handle_results_follows t (r ∷ rs) =
      bind host (handle_tool_result_follows t r) (λ _ _. handle_results_follows t rs)

  execute_follows :
      (t : ℕ) (us : List ToolUse)
      → Follows host
          (live m (length us + t))
          (change (λ s. record s { executed = s.executed ++ us }))
          (live m t)
          Any
  execute_follows t us = record { at = λ s. (once host (executes m t s us), tt) }

  run_chunks_follows :
      (t : ℕ) (cs : List Chunk)
      → Follows host (live m (batched cs + t)) (run_chunks host turn cs) (live m t) Any
  unfolding run_chunks run_chunk batched
  run_chunks_follows t [] =
      let same : t ≡ 0 + t = omega arith in
      subst (λ k. Follows host (live m k) (run_chunks host turn []) (live m t) Any) same
        (return_follows host _ _ tt tt)
  run_chunks_follows t (started rs ∷ cs) =
      bind host (handle_results_follows (batched cs + t) rs) (λ _ _. run_chunks_follows t cs)
  run_chunks_follows t (batch us ∷ cs) =
      let n = batched cs + t in
      let same : length us + n ≡ length us + batched cs + t = omega arith in
      subst (λ k. Follows host (live m k) (run_chunks host turn (batch us ∷ cs)) (live m t) Any)
        same
        (bind host
          (bind host (execute_follows n us) (λ _ _.
            bind host (ask_follows host (live m n) (host.run_tools us))
              (λ rs _. handle_results_follows n rs)))
          (λ _ _. run_chunks_follows t cs))

  pub run_tools_follows :
      (t : ℕ) (c : Collected)
      → IsTally c.early c.uses
      → Follows host (live m t) (run_tools host turn c) (live m t) Any
  unfolding run_tools
  run_tools_follows t c h =
      let remaining = length c.uses - length c.early in
      let cs = chunks c.early 0 c.uses in
      let same : batched cs ≡ remaining =
        ground (arith, batched-chunks c.early 0 c.uses, h.counted) in
      bind host (count_tool_calls_follows host m t turn remaining) (λ _ _.
        subst (λ k. Follows host (live m (k + t)) (run_chunks host turn cs) (live m t) Any) same
          (run_chunks_follows t cs))

module _ (host : Host) (m t turn : ℕ) where
  fail_at :
      (reason : StopReason) (e : RunError) (s : Run)
      → EndsWell host {A = Unit {0}} (live m t) s (live m t) Any (fail host turn reason e s)
  fail_at reason e s =
      let failing : Follows host {A = Unit {0}} (live m t) (fail host turn reason e) (live m t)
          Any =
        fail_follows host m t turn reason e (live m t) Any in
      failing.at s

  -- A message that asks for another answer ends the turn.
  ask_again_follows :
      (wrap : Error → RunError) (x : Message)
      → Follows host {A = Unit {0}}
          (asking m t)
          (do append_or_fail host turn wrap x; end_turn)
          (live m t)
          Any
  ask_again_follows wrap x =
      bind host (prompt_or_fail_follows host m t turn wrap x)
        (λ _ _. end_turn_follows host m t (live m t) Any)

  deny_if_at :
      (b : Bool) (reason : String) (s : Run)
      → leb (final_denial_limit host.max_final_denials) s.final_denials ≡ b
      → EndsWell host (live m t) s (live m t) Any (deny_if host turn b s.final_denials reason s)
  unfolding deny_if
  deny_if_at true reason s h =
      fail_at stopped_policy (RunError.final_denied s.final_denials (trim_space reason)) s
  deny_if_at false reason s h =
      let later : Run = record s { final_denials = suc s.final_denials } in
      prepend host (live m t) (asking m t) (live m t) Any s later
        (once host (denies m t s (ground arith))) _
        ((ask_again_follows RunError.append_final_retry
            (user_message (final_retry_prompt reason))).at
          later)

  deny_final_follows :
      (reason : String) → Follows host (live m t) (deny_final host turn reason) (live m t) Any
  unfolding deny_final
  deny_final_follows reason = record { at = λ s. deny_if_at _ reason s refl }

  retry_if_at :
      (b : Bool) (e : String) (s : Run)
      → ltb s.output_retries host.retry_limit ≡ b
      → EndsWell host (live m t) s (live m t) Any (retry_if host turn b e s)
  unfolding retry_if
  retry_if_at false e s h = fail_at stopped_error (RunError.invalid_output e) s
  retry_if_at true e s h =
      let later : Run = record s { output_retries = suc s.output_retries } in
      prepend host (live m t) (asking m t) (live m t) Any s later
        (once host (retries m t s (ground arith))) _
        ((ask_again_follows RunError.append_output_retry (user_message (output_retry_prompt e))).at
          later)

  retry_output_follows :
      (e : String) → Follows host (live m t) (retry_output host turn e) (live m t) Any
  unfolding retry_output
  retry_output_follows e = record { at = λ s. retry_if_at _ e s refl }

  handled_follows :
      (e : Option String) → Follows host (live m t) (handled host turn e) (live m t) Any
  unfolding handled
  handled_follows none = return_follows host _ _ tt tt
  handled_follows (some x) = send_follows host m t turn _ refl

  report_candidates_follows :
      (cs : List String) → Follows host (live m t) (report_candidates host turn cs) (live m t) Any
  unfolding report_candidates
  report_candidates_follows [] = return_follows host _ _ tt tt
  report_candidates_follows (c ∷ cs) =
      bind host (send_follows host m t turn (Body.memory_candidates (c ∷ cs)) refl) (λ _ _.
        bind host (ask_follows host (live m t) (host.handle_candidates (c ∷ cs)))
          (λ e _. handled_follows e))

  conclude_follows :
      (answer : String) → Follows host (live m t) (conclude host turn answer) (live m t) Any
  unfolding conclude
  conclude_follows answer =
      bind host (ask_follows host (live m t) (host.distill_memories answer)) (λ found _.
        bind host (or_fail_follows host m t turn stopped_error RunError.distill found) (λ cs _.
          bind host (report_candidates_follows cs) (λ _ _.
            bind host (finish_follows host m t turn stopped_result none) (λ e _.
              bind host (current_follows host finished) (λ s _.
                bind host
                  (emit_follows host finished
                    (new_event host.session_id turn (last_body host turn answer s.total_usage e))
                    tt)
                  (λ _ _. stop_follows host finished (live m t) Any over_finished))))))

  judged_follows :
      (invalid : Option String) (answer : String)
      → Follows host (live m t) (judged host turn invalid answer) (live m t) Any
  unfolding judged
  judged_follows (some e) answer = retry_output_follows e
  judged_follows none answer = conclude_follows answer

  judge_follows :
      (b : Bool) (reason answer : String)
      → Follows host (live m t) (judge host turn b reason answer) (live m t) Any
  unfolding judge
  judge_follows false reason answer = deny_final_follows reason
  judge_follows true reason answer =
      bind host (ask_follows host (live m t) (host.validate_output answer))
        (λ invalid _. judged_follows invalid answer)

  pub finalize_follows :
      (blocks : List ContentBlock)
      → Follows host (live m t) (finalize host turn blocks) (live m t) Any
  unfolding finalize
  finalize_follows blocks =
      let answer = plain_text (assistant_message blocks) in
      bind host (ask_follows host (live m t) (host.before_final_hook answer)) (λ gate _.
        bind host (or_fail_follows host m t turn stopped_error RunError.before_final gate)
          (λ reason _. judge_follows (reason == "") reason answer))
