-- ===== src/TranscriptRepair/Loop.antt =====
-- The index loop of repair.go against a recursion on the transcript.
use memax_go_agent_sdk.Prelude.{
  ℕ, zero, suc, ◌≤◌, String, Bool, List, [], ◌∷◌, ◌++◌, length, ◌≡◌, refl, arith, if◌then◌else◌,
  append_assoc,
}
use memax_go_agent_sdk.Model.{Message, is_tool_role, clone_message}
use memax_go_agent_sdk.TranscriptRepair.{
  known_ids, missing, result_id, assistant_tool_uses, absorb, repair_loop,
  repair_tool_use_adjacency,
}

module _ (json_valid : String → Bool) where
  -- The messages that stand for the results of the calls of `m`, when `ms` follows it.
  abbrev pub answers : Message → List Message → List Message
  answers m ms =
      let uses = assistant_tool_uses json_valid m in
      let a = absorb json_valid (known_ids uses) [] ms in a.taken ++ missing uses a.seen

  -- Tool messages are dropped where they stand, and each other message is followed by its answers.
  abbrev pub repaired : List Message → List Message
  repaired [] = []
  repaired (m ∷ ms) =
      if is_tool_role m.role
      then repaired ms
      else clone_message json_valid m ∷ (answers m ms ++ repaired ms)

  length-rest-absorb :
      (known seen : List String) (ms : List Message)
      → length (absorb json_valid known seen ms).rest ≤ length ms
  unfolding absorb
  length-rest-absorb known seen [] = omega arith
  length-rest-absorb known seen (m ∷ ms) = ground (
    arith,
    length-rest-absorb known seen ms,
    length-rest-absorb known (result_id m.tool_result ∷ seen) ms,
  )

  -- What the inner loop has passed over is what the outer loop would drop.
  repaired-rest-absorb :
      (known seen : List String) (ms : List Message)
      → repaired (absorb json_valid known seen ms).rest ≡ repaired ms
  unfolding absorb
  repaired-rest-absorb known seen [] = refl
  repaired-rest-absorb known seen (m ∷ ms) = ground (
    arith,
    repaired-rest-absorb known seen ms,
    repaired-rest-absorb known (result_id m.tool_result ∷ seen) ms,
  )

  pub taken-absorb-nil :
      (seen : List String) (ms : List Message) → (absorb json_valid [] seen ms).taken ≡ []
  unfolding absorb
  taken-absorb-nil seen [] = refl
  taken-absorb-nil seen (m ∷ ms) =
      ground (arith, taken-absorb-nil seen ms, taken-absorb-nil (result_id m.tool_result ∷ seen) ms)

  -- A message with no calls has no answers.
  answers-eq-nil :
      (m : Message) (ms : List Message) → assistant_tool_uses json_valid m ≡ [] → answers m ms ≡ []
  unfolding missing
  answers-eq-nil m ms e = rw e (rw (taken-absorb-nil [] ms))

  repair_loop-eq-repaired :
      (fuel : ℕ) (ms : List Message)
      → length ms ≤ fuel
      → repair_loop json_valid fuel ms ≡ repaired ms
  unfolding repair_loop
  repair_loop-eq-repaired zero [] h = refl
  repair_loop-eq-repaired zero (m ∷ ms) h = absurd (omega arith)
  repair_loop-eq-repaired (suc fuel) [] h = refl
  repair_loop-eq-repaired (suc fuel) (m ∷ ms) h =
      let uses = assistant_tool_uses json_valid m in
      let a = absorb json_valid (known_ids uses) [] ms in
      ground (
        arith,
        repair_loop-eq-repaired fuel ms,
        repair_loop-eq-repaired fuel a.rest,
        length-rest-absorb (known_ids uses) [] ms,
        repaired-rest-absorb (known_ids uses) [] ms,
        answers-eq-nil m ms,
        append_assoc a.taken (missing uses a.seen) (repaired ms),
      )

  -- The loop that jumps over the tool messages it has read computes the recursion `repaired`.
  pub repair-eq-repaired :
      (ms : List Message) → repair_tool_use_adjacency json_valid ms ≡ repaired ms
  unfolding repair_tool_use_adjacency
  repair-eq-repaired ms = repair_loop-eq-repaired (length ms) ms (omega arith)
