-- ===== src/Agent/Refinement.antt =====
-- runLoop of agent.go refines the machine.
use memax_go_agent_sdk.Prelude.{
  ℕ, zero, suc, ◌+◌, ◌≤◌, Option, none, some, List, [], ◌∷◌, ◌≡◌, refl, ap, arith, Bool-cases, inl,
  inr, ◌++◌, String,
}
use memax_go_agent_sdk.Model.{ContentBlock, ToolUse}
use memax_go_agent_sdk.Session.Store.{Error, Store}
use memax_go_agent_sdk.Agent.Events.{
  RunError, StopReason, Event, Body, new_event, add_usage, stopped_error, stopped_canceled,
  stopped_max_turns,
}
use memax_go_agent_sdk.Agent.Messages.{assistant_message, prepare_messages_for_model}
use memax_go_agent_sdk.Agent.Run.{
  Run, Host, Signal, Stream, value, next_turn, stop_run, change, ask, addressed, deliver, emit,
  stop, ◌>>=◌, finish, fail, track,
}
use memax_go_agent_sdk.Agent.Stream.{Collected, nothing_collected}
use memax_go_agent_sdk.Agent.Tally.{nothing-IsTally}
use memax_go_agent_sdk.Agent.Turn.{
  append_assistant, keep_partial, stop_broken, break_off, answered, act_on, act_unless,
  stream_error, read_stream, run_turn, go_on, exceed_turns, run_turns, open_run, refuse_run,
  start_run, configure, run_loop, new_run,
}
use memax_go_agent_sdk.Agent.Machine.{
  Ledger, live, finished, IsOver, over_finished, prepared, asks, tells, loses, unclean,
  misconfigured, IsCleanupError, begins, begins_turn, spends, Reaches, Reaches-trans, move, once,
  EndsWell, Follows, prepend, bind,
}
use memax_go_agent_sdk.Agent.Rules.{
  Any, return_follows, stop_follows, interrupt_at, ask_follows, send_follows, finish_follows,
  fail_follows, or_fail_follows, append_or_fail_follows,
}
use memax_go_agent_sdk.Agent.BudgetRules.{guard_budget_follows, count_model_call_follows}
use memax_go_agent_sdk.Agent.StreamRules.{
  HasTally, StopsIfAny, collect_follows, emit_canceled_follows,
}
use memax_go_agent_sdk.Agent.ContextRules.{
  load_messages_follows, apply_context_follows, selected_tool_specs_follows,
  admit_model_request_follows, emit_skill_discovery_follows, stream_request_follows,
  recover_follows,
}
use memax_go_agent_sdk.Agent.TurnRules.{run_tools_follows, finalize_follows}

module _ (host : Host) (m t turn : ℕ) where
  -- Addressing an event leaves its content.
  addressed-body : (e : Event) → (addressed host e).body ≡ e.body
  addressed-body e = ground arith

  append_assistant_follows :
      (wrap : Error → RunError) (bs : List ContentBlock)
      → Follows host (live m t) (append_assistant host turn wrap bs) (live m t) Any
  unfolding append_assistant
  append_assistant_follows wrap [] = return_follows host _ _ tt tt
  append_assistant_follows wrap (b ∷ bs) =
      append_or_fail_follows host m t turn wrap (assistant_message (b ∷ bs)) refl

  keep_partial_follows :
      (us : List ToolUse) (bs : List ContentBlock)
      → Follows host (live m t) (keep_partial host turn us bs) (live m t) Any
  unfolding keep_partial
  keep_partial_follows [] bs = return_follows host _ _ tt tt
  keep_partial_follows (u ∷ us) bs = append_assistant_follows RunError.append_partial bs

  -- The error of the clean-up is the last event, or is not heard.
  broken_at :
      (x : RunError) (s : Run)
      → IsCleanupError x
      → EndsWell host {A = Unit {0}}
          (live m t)
          s
          (live m t)
          Any
          ((do _ ← emit host (new_event host.session_id turn (Body.failed x)); stop) s)
  unfolding emit deliver ask
  broken_at x s h =
      let l = live m t in
      let e = addressed host (new_event host.session_id turn (Body.failed x)) in
      let read : Run = record s { asked = suc s.asked } in
      let told : Run = record read { events = s.events ++ e ∷ [] } in
      let missed : Run = record read { lost = s.lost ++ e ∷ [] } in
      elim (Bool-cases (host.received e s)) [
        | inl q ↦
            rw (EndsWell, q)
              (interrupt_at host {A = Unit {0}} m t l Any s told
                (move l l l s read told (asks l s) (once host (tells l read e tt)))
                (unclean s.events e x (inl refl)
                  (addressed-body (new_event host.session_id turn (Body.failed x))) h))
        | inr q ↦
            rw (EndsWell, q)
              (interrupt_at host {A = Unit {0}} m t l Any s missed
                (move l l l s read missed (asks l s) (once host (loses l read e tt)))
                (unclean s.lost e x (inr refl)
                  (addressed-body (new_event host.session_id turn (Body.failed x))) h))
      ]

  stop_broken_follows :
      (e : RunError) (x : Option RunError)
      → StopsIfAny host m t turn x
      → Follows host (live m t) (stop_broken host turn e x) (live m t) Any
  unfolding stop_broken
  stop_broken_follows e none h = fail_follows host m t turn stopped_error e _ _
  stop_broken_follows e (some x) h = record { at = λ s. broken_at x s (h x refl) }

  break_off_follows :
      (c : Collected) (e : RunError)
      → Follows host (live m t) (break_off host turn c e) (live m t) Any
  unfolding break_off
  break_off_follows c e = bind host (keep_partial_follows c.uses c.blocks) (λ _ _.
      bind host (emit_canceled_follows host m t turn (host.error_text e) c.uses c.early)
        (λ x h. stop_broken_follows e x h))

  answered_follows :
      (us : List ToolUse) (c : Collected)
      → HasTally c
      → Follows host (live m t) (answered host turn us c) (live m t) Any
  unfolding answered
  answered_follows [] c h = finalize_follows host m t turn c.blocks
  answered_follows (u ∷ us) c h = run_tools_follows host m turn t c h

  act_unless_follows :
      (e : Option RunError) (c : Collected)
      → HasTally c
      → Follows host (live m t) (act_unless host turn e c) (live m t) Any
  unfolding act_unless act_on
  act_unless_follows (some e) c h = break_off_follows c e
  act_unless_follows none c h = bind host (guard_budget_follows host m t turn (λ x. x)) (λ _ _.
      bind host (append_assistant_follows RunError.append_assistant c.blocks)
        (λ _ _. answered_follows c.uses c h))

  spend_follows :
      (c : Collected)
      → Follows host
          (live m t)
          (change (λ s. record s {
            total_usage = add_usage s.total_usage c.usage;
            tracker = record s.tracker { usage = add_usage s.total_usage c.usage };
          }))
          (live m t)
          Any
  spend_follows c = record { at = λ s. (once host (spends m t s c.usage), tt) }

  read_stream_follows :
      (x : Stream) → Follows host (live m t) (read_stream host turn x) (live m t) Any
  unfolding read_stream
  read_stream_follows x =
      bind host
        (collect_follows host m t turn x.events x.receive_error nothing_collected nothing-IsTally)
        (λ c h.
          bind host (spend_follows c)
            (λ _ _. act_unless_follows (stream_error host turn c.error x.close_error) c h))

module _ (host : Host) (m t : ℕ) where
  begin_turn_follows :
      (turn : ℕ)
      → turn ≤ host.max_turns
      → Follows host (live m t) (track host (λ x. record x { turns = turn })) (live m t) Any
  begin_turn_follows turn h = record { at = λ s. (once host (begins_turn m t turn s h), tt) }

  run_turn_follows :
      (turn : ℕ)
      → turn ≤ host.max_turns
      → Follows host (live m t) (run_turn host turn) (live m t) Any
  unfolding run_turn
  run_turn_follows turn h = bind host (begin_turn_follows turn h) (λ _ _.
      bind host (guard_budget_follows host m t turn (λ x. x)) (λ _ _.
        bind host (load_messages_follows host m t turn) (λ view _.
          bind host
            (apply_context_follows host m t turn view.raw_message_count
              (prepare_messages_for_model host view.messages) (prepared view.messages))
            (λ sent p. bind host (selected_tool_specs_follows host m t sent) (λ selected _.
              bind host (or_fail_follows host m t turn stopped_error RunError.select_tools selected)
                (λ tools _.
                  bind host (ask_follows host (live m t) (host.build_prompt sent tools)) (λ built _.
                    bind host
                      (or_fail_follows host m t turn stopped_error RunError.build_prompt built)
                      (λ prompt _. bind host (admit_model_request_follows host m t turn) (λ _ _.
                        bind host (count_model_call_follows host m t turn) (λ _ _.
                          bind host (send_follows host (suc m) t turn Body.model_request refl)
                            (λ _ _.
                              bind host
                                (emit_skill_discovery_follows host (suc m) t turn
                                  prompt.skill_discovery)
                                (λ _ _.
                                  bind host
                                    (stream_request_follows host m t turn sent tools prompt p)
                                    (λ answer _.
                                      bind host
                                        (recover_follows host m t turn view.raw_message_count sent
                                          answer)
                                        (λ stream _.
                                          read_stream_follows host m t turn stream))))))))))))))

-- A run of the machine that is over.
pub record Ends (host : Host) (m t : ℕ) (s u : Run) : Type 0 where
  pub ledger : Ledger
  pub over : IsOver ledger
  pub way : Reaches host (live m t) s ledger u

module _ (host : Host) where
  fail-stops :
      (turn : ℕ) (reason : StopReason) (e : RunError) (s : Run)
      → (fail host {A = Unit {0}} turn reason e s).0 ≡ stop_run
  unfolding fail emit deliver finish ask
  fail-stops turn reason e s = refl

  ended :
      (m t : ℕ) (s : Run) (r : Signal (Unit {0}) × Run)
      → r.0 ≡ stop_run
      → EndsWell host (live m t) s (live m t) Any r
      → Ends host m t s r.1
  ended m t s (value a, u) h e = cc
  ended m t s (next_turn, u) h e = cc
  ended m t s (stop_run, u) h (n, o, way) = record { ledger = n; over = o; way = way }

  exceed_turns-Ends : (m t : ℕ) (s : Run) → Ends host m t s (exceed_turns host s).1
  unfolding exceed_turns
  exceed_turns-Ends m t s =
      let e = RunError.max_turns_exceeded host.max_turns in
      let failing : Follows host (live m t) (exceed_turns host) (live m t) Any =
        fail_follows host m t host.max_turns stopped_max_turns e (live m t) Any in
      ended m t s (exceed_turns host s) (fail-stops host.max_turns stopped_max_turns e s)
        (failing.at s)

  later-Ends :
      (m t i j : ℕ) (s u w : Run)
      → Reaches host (live m t) s (live i j) u
      → Ends host i j u w
      → Ends host m t s w
  later-Ends m t i j s u w way e = record {
    ledger = e.ledger;
    over = e.over;
    way = Reaches-trans host way e.way;
  }

  -- What follows a step: the rest, or nothing if the run is over.
  go_on-Ends :
      (m t i j : ℕ) (s : Run) (rest : Run → Run)
      → ((a b : ℕ) (u : Run) → Ends host a b u (rest u))
      → (r : Signal (Unit {0}) × Run) → EndsWell host (live m t) s (live i j) Any r
      → Ends host m t s (go_on r rest)
  go_on-Ends m t i j s rest later (value a, u) (way, x) =
      later-Ends m t i j s u (rest u) way (later i j u)
  go_on-Ends m t i j s rest later (next_turn, u) (a, b, way) =
      later-Ends m t a b s u (rest u) way (later a b u)
  go_on-Ends m t i j s rest later (stop_run, u) (n, o, way) = record {
    ledger = n;
    over = o;
    way = way;
  }

  run_turns-Ends :
      (left turn : ℕ)
      → turn + left ≤ suc host.max_turns
      → (m t : ℕ) (s : Run) → Ends host m t s (run_turns host left turn s)
  unfolding run_turns
  run_turns-Ends zero turn h m t s = exceed_turns-Ends m t s
  run_turns-Ends (suc left) turn h m t s =
      go_on-Ends m t m t s (run_turns host left (suc turn))
        (λ a b u. run_turns-Ends left (suc turn) (omega arith) a b u) (run_turn host turn s)
        ((run_turn_follows host m t turn (omega arith)).at s)

  open_run_at :
      (s : Run)
      → s.requests ≡ []
      → s.executed ≡ []
      → EndsWell host (live 0 0) s (live 0 0) Any (open_run host s)
  unfolding open_run ask
  open_run_at s q x =
      let later : Run = record s { asked = suc s.asked } in
      (
        move (live 0 0) (live 0 0) (live 0 0) s later _ (asks _ s)
            (once host (begins (host.now s) later q x)),
        tt,
      )

  refuse_run_follows : Follows host (live 0 0) (refuse_run host) (live 0 0) Any
  unfolding refuse_run
  refuse_run_follows =
      bind host (finish_follows host 0 0 0 stopped_canceled (some RunError.canceled))
        (λ _ _. stop_follows host finished (live 0 0) Any over_finished)

  -- The start, while nothing has been asked of the model or of tools.
  start_run_at :
      (s : Run)
      → s.requests ≡ []
      → s.executed ≡ []
      → EndsWell host (live 0 0) s (live 0 0) Any (start_run host s)
  unfolding start_run emit deliver ask
  start_run_at s q x =
      let e = addressed host (new_event host.session_id 0 Body.session_started) in
      let later : Run = record s { asked = suc s.asked } in
      let told : Run = record later { events = s.events ++ e ∷ [] } in
      let missed : Run = record later { lost = s.lost ++ e ∷ [] } in
      let l = live 0 0 in
      elim (Bool-cases (host.received e s)) [
        | inl h ↦
            rw (EndsWell, h)
              (prepend host l l l Any s told
                (move l l l s later told (asks l s) (once host (tells l later e tt)))
                (open_run host told) (open_run_at told q x))
        | inr h ↦
            rw (EndsWell, h)
              (prepend host l l l Any s missed
                (move l l l s later missed (asks l s) (once host (loses l later e tt)))
                (refuse_run host missed) (refuse_run_follows.at missed))
      ]

  -- The skill tools come before the start.
  configure_at :
      (o : Option String) (s : Run)
      → host.registry_error ≡ o
      → s.requests ≡ []
      → s.executed ≡ []
      → s.events ≡ []
      → s.lost ≡ []
      → EndsWell host (live 0 0) s (live 0 0) Any (configure host o s)
  unfolding configure deliver ask
  configure_at none s c q x v w = start_run_at s q x
  configure_at (some y) s c q x v w =
      let l = live 0 0 in
      let e = new_event host.session_id 0 (Body.failed (RunError.skill_disclosure y)) in
      let later : Run = record s { asked = suc s.asked } in
      let told : Run = record later { events = s.events ++ e ∷ [] } in
      let missed : Run = record later { lost = s.lost ++ e ∷ [] } in
      elim (Bool-cases (host.received e s)) [
        | inl h ↦
            rw (EndsWell, h)
              (interrupt_at host {A = Unit {0}} 0 0 l Any s told
                (move l l l s later told (asks l s) (once host (tells l later e tt)))
                (misconfigured e y (inl (ap (λ es. es ++ e ∷ []) v)) refl c))
        | inr h ↦
            rw (EndsWell, h)
              (interrupt_at host {A = Unit {0}} 0 0 l Any s missed
                (move l l l s later missed (asks l s) (once host (loses l later e tt)))
                (misconfigured e y (inr (ap (λ es. es ++ e ∷ []) w)) refl c))
      ]

  -- Every run of runLoop is a run of the abstract machine to a state in which the run is over: finish
  -- was called, or the last lost event is one whose loss stops a run at once, or the last event, lost
  -- or not, is the error of a clean-up, or the only one is the error of the skill tools.
  pub run_loop-refines :
      (store : Store) → Ends host 0 0 (new_run store) (run_loop host (new_run store))
  unfolding run_loop
  run_loop-refines store =
      go_on-Ends 0 0 0 0 (new_run store) (run_turns host host.max_turns 1)
        (λ a b u. run_turns-Ends host.max_turns 1 (omega arith) a b u)
        (configure host host.registry_error (new_run store))
        (configure_at host.registry_error (new_run store) refl refl refl refl refl)
