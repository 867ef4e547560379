-- ===== src/TranscriptRepair/Stability.antt =====
-- What repair.go leaves alone.
use memax_go_agent_sdk.Prelude.{
  String, Bool, true, false, not, List, [], ◌∷◌, ◌++◌, ◌≡◌, refl, arith, map, select, select-append,
  append_assoc,
}
use memax_go_agent_sdk.Model.{ToolUse, Message, is_tool_role, clone_message, clone_messages}
use memax_go_agent_sdk.TranscriptRepair.{
  known_ids, missing, is_fresh, result_id, assistant_tool_uses, absorb, repair_tool_use_adjacency,
}
use memax_go_agent_sdk.TranscriptRepair.Ids.{
  is_empty, waiting, waiting-nil, waiting-cons, contains-waiting,
}
use memax_go_agent_sdk.TranscriptRepair.Loop.{
  answers, taken-absorb-nil, repaired, repair-eq-repaired,
}
use memax_go_agent_sdk.TranscriptRepair.Pairing.{is_paired, answerable_ids}

-- The messages that are no tool messages.
abbrev pub turns : List Message → List Message
turns ms = select (λ m. not (is_tool_role m.role)) ms

module _ (v : String → Bool) where
  turns-missing : (us : List ToolUse) (seen : List String) → turns (missing us seen) ≡ []
  unfolding missing
  turns-missing [] seen = refl
  turns-missing (u ∷ us) seen = ground (arith, turns-missing us seen)

  turns-taken :
      (known seen : List String) (ms : List Message) → turns (absorb v known seen ms).taken ≡ []
  unfolding absorb clone_message
  turns-taken known seen [] = refl
  turns-taken known seen (m ∷ ms) =
      ground
        (arith, turns-taken known seen ms, turns-taken known (result_id m.tool_result ∷ seen) ms)

  turns-answers :
      (m : Message) (ms rest : List Message) → turns (answers v m ms ++ rest) ≡ turns rest
  turns-answers m ms rest =
      let uses = assistant_tool_uses v m in
      let a = absorb v (known_ids uses) [] ms in
      rw (append_assoc a.taken (missing uses a.seen) rest) (
        rw (select-append _ a.taken (missing uses a.seen ++ rest)) (
          rw (select-append _ (missing uses a.seen) rest)
            (rw (turns-taken (known_ids uses) [] ms) (rw (turns-missing uses a.seen)))))

  turns-repaired : (ms : List Message) → turns (repaired v ms) ≡ map (clone_message v) (turns ms)
  unfolding clone_message
  turns-repaired [] = refl
  turns-repaired (m ∷ ms) = ground (arith, turns-repaired ms, turns-answers m ms (repaired v ms))

  -- Every message that is no tool message is kept, copied, in its place among the others, and none is added.
  pub turns-repair :
      (ms : List Message) → turns (repair_tool_use_adjacency v ms) ≡ clone_messages v (turns ms)
  unfolding clone_messages
  turns-repair ms = rw (repair-eq-repaired v ms) (turns-repaired ms)

  missing-eq-nil :
      (us : List ToolUse) (seen : List String)
      → is_empty (waiting seen (known_ids us)) ≡ true
      → missing us seen ≡ []
  unfolding missing
  missing-eq-nil [] seen h = refl
  missing-eq-nil (u ∷ us) seen h = ground (arith, missing-eq-nil us seen)

  -- A turn and what follows it, if the messages up to the next turn are its answers.
  repaired-cons :
      (m : Message) (ms : List Message)
      → (let uses = assistant_tool_uses v m in
          let a = absorb v (known_ids uses) [] ms in
          a.taken ++ (missing uses a.seen ++ repaired v ms) ≡ map (clone_message v) ms)
      → is_tool_role m.role ≡ false
      → repaired v (m ∷ ms) ≡ map (clone_message v) (m ∷ ms)
  repaired-cons m ms h t =
      let uses = assistant_tool_uses v m in
      let a = absorb v (known_ids uses) [] ms in
      ground (arith, append_assoc a.taken (missing uses a.seen) (repaired v ms))

  answered_in_place :
      (us : List ToolUse) (seen : List String) (ms : List Message)
      → is_paired v (waiting seen (known_ids us)) ms ≡ true
      → (absorb v (known_ids us) seen ms).taken
          ++ (missing us (absorb v (known_ids us) seen ms).seen ++ repaired v ms)
        ≡ map (clone_message v) ms
  unfolding absorb is_fresh
  answered_in_place us seen [] h = rw (missing-eq-nil us seen h)
  answered_in_place us seen (m ∷ ms) h =
      let id = result_id m.tool_result in
      ground (
        arith,
        answered_in_place us (id ∷ seen) ms,
        waiting-cons id seen (known_ids us),
        contains-waiting id seen (known_ids us),
        missing-eq-nil us seen,
        waiting-nil (answerable_ids v m),
        answered_in_place (assistant_tool_uses v m) [] ms,
        repaired-cons m ms,
      )

  -- A transcript that follows the protocol is left as it is: its messages are copied, and nothing is
  -- dropped or added.
  pub repair-eq-clone :
      (ms : List Message)
      → is_paired v [] ms ≡ true
      → repair_tool_use_adjacency v ms ≡ clone_messages v ms
  unfolding clone_messages missing
  repair-eq-clone ms h =
      rw (repair-eq-repaired v ms)
        (rw (← taken-absorb-nil-append ms) (answered_in_place [] [] ms h))
    where
      taken-absorb-nil-append :
          (ms : List Message) → (absorb v [] [] ms).taken ++ repaired v ms ≡ repaired v ms
      taken-absorb-nil-append ms = rw (taken-absorb-nil v [] ms)
