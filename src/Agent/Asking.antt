-- ===== src/Agent/Asking.antt =====
-- How often runLoop of agent.go asks for another final answer: an invariant of the machine on the
-- messages that it adds to the transcript.
use memax_go_agent_sdk.Prelude.{
  ℕ, ◌+◌, ◌≤◌, String, List, [], ◌∷◌, ◌++◌, append-nil, ok, ◌≡◌, refl, sym, arith,
}
use memax_go_agent_sdk.Model.{Message}
use memax_go_agent_sdk.Session.Store.{Store, MemorySession, canonical_required_id, known_session}
use memax_go_agent_sdk.Session.Invariant.{save_compaction-Saved}
use memax_go_agent_sdk.Agent.Messages.{final_denial_limit}
use memax_go_agent_sdk.Agent.Run.{Run, Host}
use memax_go_agent_sdk.Agent.Turn.{new_run, run_loop}
use memax_go_agent_sdk.Agent.Machine.{
  Ledger, live, asking, finished, interrupted, Move, asks, tells, loses, finishes, interrupts,
  appends, prompts, gives_up, compacts, begins, begins_turn, spends, counts_model, counts_tools,
  requests, executes, denies, retries, Reaches, here, move,
}
use memax_go_agent_sdk.Agent.Refinement.{run_loop-refines}
use memax_go_agent_sdk.Agent.History.{
  Touches, IsGrown, user_count, append-adds, Saved-adds, IsGrown-adds,
}

user_count-append : (xs ys : List Message) → user_count (xs ++ ys) ≡ user_count xs + user_count ys
user_count-append [] ys = omega arith
user_count-append (m ∷ xs) ys = ground (arith, user_count-append xs ys)

-- The prompts that the ledger still holds.
abbrev prompt_credit : Ledger → ℕ
prompt_credit (live m t) = 0
prompt_credit (asking m t) = 1
prompt_credit finished = 0
prompt_credit interrupted = 0

module _ (host : Host) (k : String) (r : MemorySession)
    (own : canonical_required_id host.session_id ≡ ok k) where
  -- Each message of the user that was added, and each that is to be added, was counted, and the counts
  -- are within the limits.
  record IsAsked (l : Ledger) (s : Run) : Type 0 where
    grown : IsGrown k r s.store
    prompted : user_count grown.added + prompt_credit l ≤ s.final_denials + s.output_retries
    denials : s.final_denials ≤ final_denial_limit host.max_final_denials
    outputs : s.output_retries ≤ host.retry_limit

  -- A step that leaves the store and the counts.
  same_counts :
      (l n : Ledger) (s t : Run)
      → t.store ≡ s.store
      → t.final_denials ≡ s.final_denials
      → t.output_retries ≡ s.output_retries
      → prompt_credit n ≤ prompt_credit l
      → IsAsked l s
      → IsAsked n t
  same_counts l n s t e d o c h =
      let g : IsGrown k r t.store = record {
        now = h.grown.now;
        added = h.grown.added;
        found = rw e h.grown.found;
        grown = h.grown.grown;
      } in
      record {
        grown = g;
        prompted = rw (d, o) (let x = h.prompted in omega arith);
        denials = rw d h.denials;
        outputs = rw o h.outputs;
      }

  -- A step that adds to the transcript, and uses up a prompt if it adds one.
  added_counts :
      (l n : Ledger) (s : Run) (new : Store) (w : Touches host.session_id s.store new)
      → user_count w.added + prompt_credit n ≤ prompt_credit l
      → IsAsked l s
      → IsAsked n (record s { store = new })
  added_counts l n s new w c h =
      let (g, e) = IsGrown-adds host.session_id k r s.store new own w h.grown in
      record {
        grown = g;
        prompted =
            rw e (let x = h.prompted in omega (arith, user_count-append h.grown.added w.added));
        denials = h.denials;
        outputs = h.outputs;
      }

  IsAsked-Move : (l n : Ledger) (s t : Run) → Move host l s n t → IsAsked l s → IsAsked n t
  IsAsked-Move l n s t (asks _ _) h = same_counts l n s t refl refl refl (omega arith) h
  IsAsked-Move l n s t (tells _ _ _ _) h = same_counts l n s t refl refl refl (omega arith) h
  IsAsked-Move l n s t (loses _ _ _ _) h = same_counts l n s t refl refl refl (omega arith) h
  IsAsked-Move l n s t (finishes a b _ f) h = same_counts l n s t refl refl refl (omega arith) h
  IsAsked-Move l n s t (interrupts a b _ w) h = same_counts l n s t refl refl refl (omega arith) h
  IsAsked-Move l n s t (appends a b _ x id new u e) h =
      let (w, c) = append-adds host.json_valid s.store new host.session_id x id e in
      added_counts l n s new w (ground arith) h
  IsAsked-Move l n s t (prompts a b _ x id new e) h =
      let (w, c) = append-adds host.json_valid s.store new host.session_id x id e in
      added_counts l n s new w (ground arith) h
  IsAsked-Move l n s t (gives_up a b _) h = same_counts l n s t refl refl refl (omega arith) h
  IsAsked-Move l n s t (compacts a b _ c id now new e) h =
      let saved = save_compaction-Saved host.json_valid s.store new host.session_id c id now e in
      let (w, q) = Saved-adds host.json_valid s.store new host.session_id c saved in
      added_counts l n s new w (ground arith) h
  IsAsked-Move l n s t (begins now _ q x) h = same_counts l n s t refl refl refl (omega arith) h
  IsAsked-Move l n s t (begins_turn a b turn _ le) h =
      same_counts l n s t refl refl refl (omega arith) h
  IsAsked-Move l n s t (spends a b _ u) h = same_counts l n s t refl refl refl (omega arith) h
  IsAsked-Move l n s t (counts_model a b now _ x) h =
      same_counts l n s t refl refl refl (omega arith) h
  IsAsked-Move l n s t (counts_tools a b c now _ x) h =
      same_counts l n s t refl refl refl (omega arith) h
  IsAsked-Move l n s t (requests a b _ q x) h = same_counts l n s t refl refl refl (omega arith) h
  IsAsked-Move l n s t (executes a b _ us) h = same_counts l n s t refl refl refl (omega arith) h
  IsAsked-Move l n s t (denies a b _ lt) h = record {
    grown = h.grown;
    prompted = let x = h.prompted in omega arith;
    denials = omega arith;
    outputs = h.outputs;
  }
  IsAsked-Move l n s t (retries a b _ lt) h = record {
    grown = h.grown;
    prompted = let x = h.prompted in omega arith;
    denials = h.denials;
    outputs = omega arith;
  }

  IsAsked-Reaches : (l n : Ledger) (s t : Run) → Reaches host l s n t → IsAsked l s → IsAsked n t
  IsAsked-Reaches l n s t (here _ _) h = h
  IsAsked-Reaches l n s t (move _ i _ _ u _ m way) h =
      IsAsked-Reaches i n u t way (IsAsked-Move l i s u m h)

  -- A run adds to the transcript of its session at most as many messages of the user, which are the
  -- prompts for another final answer, as the limits on denials and on output retries say together.
  pub run_loop-asks_at_most :
      (start : Store)
      → known_session start k ≡ ok r
      → (now : MemorySession) × (known_session (run_loop host (new_run start)).store k ≡ ok now)
        × (user_count now.messages
            ≤ user_count r.messages
              + (final_denial_limit host.max_final_denials + host.retry_limit))
  run_loop-asks_at_most start known =
      let e = run_loop-refines host start in
      let first : IsGrown k r start = record {
        now = r;
        added = [];
        found = known;
        grown = sym (append-nil r.messages);
      } in
      let h = IsAsked-Reaches _ e.ledger (new_run start) _ e.way (record {
        grown = first;
        prompted = omega arith;
        denials = omega arith;
        outputs = omega arith;
      }) in
      let g = h.grown in
      (
        g.now,
        g.found,
        rw (g.grown) (
            let x = h.prompted in
            let y = h.denials in
            let z = h.outputs in omega (arith, user_count-append r.messages g.added)),
      )
