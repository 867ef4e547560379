-- ===== src/Agent/Protocol.antt =====
-- Every request of runLoop in agent.go follows the protocol of calls and results: an invariant of the
-- machine, on what internal/transcriptrepair/repair.go establishes.
use memax_go_agent_sdk.Prelude.{
  String, Bool, false, not, ◌&&◌, List, [], ◌∷◌, All, All-append, ◌≡◌, refl, sym, ◌∙◌, Bool-cases,
  inl, inr,
}
use memax_go_agent_sdk.Model.{Message}
use memax_go_agent_sdk.TranscriptRepair.{repair_tool_use_adjacency}
use memax_go_agent_sdk.TranscriptRepair.Answers.{
  has_proper_calls, is_answered, has_proper_calls-repair, repair-is_answered,
}
use memax_go_agent_sdk.Session.Store.{Store}
use memax_go_agent_sdk.Agent.Messages.{
  normalize_assistant_text_messages, prepare_messages_for_model,
}
use memax_go_agent_sdk.Agent.Run.{Run, Host, Request}
use memax_go_agent_sdk.Agent.Turn.{new_run, run_loop}
use memax_go_agent_sdk.Agent.Machine.{
  Ledger, IsPrepared, prepared, Move, asks, tells, loses, prompts, gives_up, finishes, interrupts,
  appends, compacts, begins, begins_turn, spends, counts_model, counts_tools, requests, executes,
  denies, retries, Reaches, here, move,
}
use memax_go_agent_sdk.Agent.Refinement.{run_loop-refines}

-- The protocol is not broken, unless a call has no ID or an ID is used twice in a message.
abbrev pub IsProtocol : (String → Bool) → List Message → Type 0
IsProtocol v ms = (has_proper_calls v ms && not (is_answered v [] ms)) ≡ false

module _ (host : Host) where
  prepared-IsProtocol : (ms : List Message) → IsPrepared host ms → IsProtocol host.json_valid ms
  unfolding prepare_messages_for_model
  prepared-IsProtocol _ (prepared ms) =
      let v = host.json_valid in
      let given = normalize_assistant_text_messages host ms in
      let sent = repair_tool_use_adjacency v given in
      elim (Bool-cases (has_proper_calls v sent)) [
        | inr e ↦ rw e refl
        | inl e ↦
            rw e (rw (repair-is_answered v given (sym (has_proper_calls-repair v given) ∙ e)) refl)
      ]

  abbrev KeepsProtocol : Run → Type 0
  KeepsProtocol s = All (λ (r : Request). IsProtocol host.json_valid r.messages) s.requests

  KeepsProtocol-Move :
      (l k : Ledger) (s t : Run) → Move host l s k t → KeepsProtocol s → KeepsProtocol t
  KeepsProtocol-Move l k s t (asks _ _) h = h
  KeepsProtocol-Move l k s t (tells _ _ _ _) h = h
  KeepsProtocol-Move l k s t (loses _ _ _ _) h = h
  KeepsProtocol-Move l k s t (finishes m n _ f) h = h
  KeepsProtocol-Move l k s t (interrupts m n _ why) h = h
  KeepsProtocol-Move l k s t (appends m n _ x id new u e) h = h
  KeepsProtocol-Move l k s t (prompts m n _ x id new e) h = h
  KeepsProtocol-Move l k s t (gives_up m n _) h = h
  KeepsProtocol-Move l k s t (compacts m n _ c id now new e) h = h
  KeepsProtocol-Move l k s t (begins now _ q x) h = h
  KeepsProtocol-Move l k s t (begins_turn m n turn _ le) h = h
  KeepsProtocol-Move l k s t (spends m n _ u) h = h
  KeepsProtocol-Move l k s t (counts_model m n now _ a) h = h
  KeepsProtocol-Move l k s t (counts_tools m n c now _ a) h = h
  KeepsProtocol-Move l k s t (requests m n _ r q) h =
      All-append _ s.requests (r ∷ []) h (prepared-IsProtocol r.messages q, tt)
  KeepsProtocol-Move l k s t (executes m n _ us) h = h
  KeepsProtocol-Move l k s t (denies m n _ lt) h = h
  KeepsProtocol-Move l k s t (retries m n _ lt) h = h

  KeepsProtocol-Reaches :
      (l k : Ledger) (s t : Run) → Reaches host l s k t → KeepsProtocol s → KeepsProtocol t
  KeepsProtocol-Reaches l k s t (here _ _) h = h
  KeepsProtocol-Reaches l k s t (move _ j _ _ u _ m way) h =
      KeepsProtocol-Reaches j k u t way (KeepsProtocol-Move l j s u m h)

  -- In every request that a run sends to the model, whatever the transcript, the context policies and the
  -- retries, each call is answered exactly once before any message that is not a tool result, if in
  -- the request each call has an ID that is not empty and no message repeats one.
  pub run_loop-KeepsProtocol :
      (store : Store)
      → All
          (λ (r : Request). IsProtocol host.json_valid r.messages)
          (run_loop host (new_run store)).requests
  run_loop-KeepsProtocol store =
      let e = run_loop-refines host store in
      KeepsProtocol-Reaches _ e.ledger (new_run store) _ e.way tt
