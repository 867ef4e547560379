-- ===== src/Agent/Ending.antt =====
-- How a run of agent.go ends: an invariant of the machine.
use memax_go_agent_sdk.Prelude.{suc, [], length, ◌≡◌, ◌⊎◌, inl, inr, refl, ap, ◌∙◌}
use memax_go_agent_sdk.Session.Store.{Store}
use memax_go_agent_sdk.Agent.Run.{Run, Host}
use memax_go_agent_sdk.Agent.Turn.{new_run, run_loop}
use memax_go_agent_sdk.Agent.Machine.{
  Ledger, live, asking, finished, IsOpen, unheard, unclean, misconfigured, loses, prompts, gives_up,
  interrupted, IsOver, over_finished, over_interrupted, Interrupted, Move, asks, tells, finishes,
  interrupts, appends, compacts, begins, begins_turn, spends, counts_model, counts_tools, requests,
  executes, denies, retries, Reaches, here, move,
}
use memax_go_agent_sdk.Agent.Events.{Event}
use memax_go_agent_sdk.Prelude.{List}
use memax_go_agent_sdk.Agent.Refinement.{run_loop-refines}

module _ (host : Host) where
  either :
      {es : List Event} (s t : Run)
      → t.events ≡ s.events
      → t.lost ≡ s.lost
      → (s.events ≡ es) ⊎ (s.lost ≡ es)
      → (t.events ≡ es) ⊎ (t.lost ≡ es)
  either s t e l (inl h) = inl (e ∙ h)
  either s t e l (inr h) = inr (l ∙ h)

  Interrupted-same :
      (s t : Run) → t.events ≡ s.events → t.lost ≡ s.lost → Interrupted host s → Interrupted host t
  Interrupted-same s t e l (unheard es x h b) = unheard es x (l ∙ h) b
  Interrupted-same s t e l (unclean es x y h b c) = unclean es x y (either s t e l h) b c
  Interrupted-same s t e l (misconfigured x y h b c) = misconfigured x y (either s t e l h) b c

  -- finish is called once, unless the run is interrupted.
  abbrev IsClosed : Ledger → Run → Type 0
  IsClosed (live m t) s = s.finishes ≡ []
  IsClosed (asking m t) s = s.finishes ≡ []
  IsClosed finished s = length s.finishes ≡ 1
  IsClosed interrupted s = (s.finishes ≡ []) × Interrupted host s

  IsClosed-open :
      (l : Ledger) (s t : Run) → IsOpen l → t.finishes ≡ s.finishes → IsClosed l s → IsClosed l t
  IsClosed-open (live m n) s t o e h = e ∙ h
  IsClosed-open (asking m n) s t o e h = e ∙ h
  IsClosed-open finished s t o e h = ap length e ∙ h
  IsClosed-open interrupted s t o e h = absurd o

  IsClosed-asks :
      (l : Ledger) (s : Run) → IsClosed l s → IsClosed l (record s { asked = suc s.asked })
  IsClosed-asks (live m n) s h = h
  IsClosed-asks (asking m n) s h = h
  IsClosed-asks finished s h = h
  IsClosed-asks interrupted s (h, why) =
      (h, Interrupted-same s (record s { asked = suc s.asked }) refl refl why)

  IsClosed-Move : (l k : Ledger) (s t : Run) → Move host l s k t → IsClosed l s → IsClosed k t
  IsClosed-Move l k s t (asks _ _) h = IsClosed-asks l s h
  IsClosed-Move l k s t (tells _ _ _ o) h = IsClosed-open l s t o refl h
  IsClosed-Move l k s t (loses _ _ _ o) h = IsClosed-open l s t o refl h
  IsClosed-Move l k s t (finishes m n _ f) h = rw h refl
  IsClosed-Move l k s t (interrupts m n _ why) h = (h, why)
  IsClosed-Move l k s t (appends m n _ x id new u e) h = h
  IsClosed-Move l k s t (prompts m n _ x id new e) h = h
  IsClosed-Move l k s t (gives_up m n _) h = h
  IsClosed-Move l k s t (compacts m n _ c id now new e) h = h
  IsClosed-Move l k s t (begins now _ q x) h = h
  IsClosed-Move l k s t (begins_turn m n turn _ le) h = h
  IsClosed-Move l k s t (spends m n _ u) h = h
  IsClosed-Move l k s t (counts_model m n now _ a) h = h
  IsClosed-Move l k s t (counts_tools m n c now _ a) h = h
  IsClosed-Move l k s t (requests m n _ r p) h = h
  IsClosed-Move l k s t (executes m n _ us) h = h
  IsClosed-Move l k s t (denies m n _ lt) h = h
  IsClosed-Move l k s t (retries m n _ lt) h = h

  IsClosed-Reaches : (l k : Ledger) (s t : Run) → Reaches host l s k t → IsClosed l s → IsClosed k t
  IsClosed-Reaches l k s t (here _ _) h = h
  IsClosed-Reaches l k s t (move _ j _ _ u _ m way) h =
      IsClosed-Reaches j k u t way (IsClosed-Move l j s u m h)

  closed_over :
      (l : Ledger) (s : Run)
      → IsOver l
      → IsClosed l s
      → (length s.finishes ≡ 1) ⊎ ((s.finishes ≡ []) × Interrupted host s)
  closed_over _ s over_finished h = inl h
  closed_over _ s over_interrupted h = inr h

  -- A run calls finish exactly once, or it calls finish never, and then shows why: the last event that
  -- nobody took is one whose loss stops a run at once; or the last event, taken or not, is the error
  -- of a clean-up after a broken stream; or the only one is that the skill tools could not be
  -- registered.
  pub run_loop-finishes_once :
      (store : Store)
      → (length (run_loop host (new_run store)).finishes ≡ 1)
        ⊎ (((run_loop host (new_run store)).finishes ≡ [])
            × Interrupted host (run_loop host (new_run store)))
  run_loop-finishes_once store =
      let e = run_loop-refines host store in
      closed_over e.ledger _ e.over (IsClosed-Reaches _ e.ledger (new_run store) _ e.way refl)
