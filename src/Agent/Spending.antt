-- ===== src/Agent/Spending.antt =====
-- runLoop of agent.go under the policy of budget/budget.go: an invariant of the machine.
use memax_go_agent_sdk.Prelude.{
  ℕ, ◌+◌, ◌≤◌, String, true, Option, none, some, [], ◌∷◌, length, length-append, ◌≡◌, subst, arith,
}
use memax_go_agent_sdk.Prelude.Int.{ℤ, pos, negsuc, is_positive, ◌≤ℤ◌}
use memax_go_agent_sdk.Budget.{Policy, Snapshot, Decision, check, filled, model_calls, tool_calls}
use memax_go_agent_sdk.Budget.Limits.{check-IsWithin_iff}
use memax_go_agent_sdk.Session.Store.{Store}
use memax_go_agent_sdk.Agent.Run.{
  Run, Host, BudgetTracker, snapshot, with_model_calls, with_tool_calls,
}
use memax_go_agent_sdk.Agent.Turn.{new_run, run_loop}
use memax_go_agent_sdk.Agent.Machine.{
  Ledger, live, asking, finished, interrupted, IsAllowed, Move, asks, tells, loses, prompts,
  gives_up, finishes, interrupts, appends, compacts, begins, begins_turn, spends, counts_model,
  counts_tools, requests, executes, denies, retries, Reaches, here, move,
}
use memax_go_agent_sdk.Agent.Refinement.{run_loop-refines}

-- Policy.Check, with the error of the context and the clock at each call.
abbrev pub check_by : Policy → (Run → Option String) → (Run → ℕ) → Snapshot → Run → Decision
check_by p cancelled clock snap s = check p (cancelled s) (clock s) snap

abbrev model_credit : Ledger → ℕ
model_credit (live m t) = m
model_credit (asking m t) = m
model_credit finished = 0
model_credit interrupted = 0

abbrev tool_credit : Ledger → ℕ
tool_credit (live m t) = t
tool_credit (asking m t) = t
tool_credit finished = 0
tool_credit interrupted = 0

-- A positive limit binds a count.
abbrev pub IsUnder : ℕ → ℤ → Type 0
IsUnder n l = is_positive l ≡ true → pos n ≤ℤ l

IsUnder-zero : (l : ℤ) → IsUnder 0 l
IsUnder-zero (pos l) h = ground arith
IsUnder-zero (negsuc l) h = cc

IsUnder-weaker : (m n : ℕ) (l : ℤ) → m ≤ n → IsUnder n l → IsUnder m l
IsUnder-weaker m n (pos l) le h k = let x = h k in ground arith
IsUnder-weaker m n (negsuc l) le h k = cc

module _ (host : Host) (p : Policy) (cancelled : Run → Option String) (clock : Run → ℕ) where
  -- What the check of a tracker says of its counts.
  record IsApproved (t : BudgetTracker) : Type 0 where
    models : IsUnder t.model_calls p.max_model_calls
    tools : IsUnder t.tool_calls p.max_tool_calls

  approved_at :
      (now time : ℕ) (t : BudgetTracker) (o : Option String)
      → (check p o time (snapshot host now t)).allow ≡ true
      → IsApproved t
  unfolding check filled
  approved_at now time t (some e) h = cc
  approved_at now time t none h =
      let within = (check-IsWithin_iff p time (snapshot host now t)).0 h in
      record { models = within model_calls; tools = within tool_calls }

  module _ (policed : host.budget ≡ some (check_by p cancelled clock)) where
    approved :
        (now : ℕ) (t : BudgetTracker)
        → IsAllowed host host.budget (snapshot host now t)
        → IsApproved t
    approved now t a =
        let (s, b) = subst (λ o. IsAllowed host o (snapshot host now t)) policed a in
        approved_at now (clock s) t (cancelled s) b

    -- The requests and the calls that were made, and those that the ledger still holds, were counted
    -- under the limits.
    record IsCounted (l : Ledger) (s : Run) : Type 0 where
      requested : length s.requests + model_credit l ≤ s.tracker.model_calls
      executed : length s.executed + tool_credit l ≤ s.tracker.tool_calls
      models : IsUnder s.tracker.model_calls p.max_model_calls
      tools : IsUnder s.tracker.tool_calls p.max_tool_calls

    IsCounted-Move : (l k : Ledger) (s t : Run) → Move host l s k t → IsCounted l s → IsCounted k t
    IsCounted-Move l k s t (asks _ _) h = record {
      requested = h.requested;
      executed = h.executed;
      models = h.models;
      tools = h.tools;
    }
    IsCounted-Move l k s t (tells _ _ _ _) h = record {
      requested = h.requested;
      executed = h.executed;
      models = h.models;
      tools = h.tools;
    }
    IsCounted-Move l k s t (loses _ _ _ _) h = record {
      requested = h.requested;
      executed = h.executed;
      models = h.models;
      tools = h.tools;
    }
    IsCounted-Move l k s t (finishes m n _ f) h = record {
      requested = let x = h.requested in omega arith;
      executed = let x = h.executed in omega arith;
      models = h.models;
      tools = h.tools;
    }
    IsCounted-Move l k s t (interrupts m n _ why) h = record {
      requested = let x = h.requested in omega arith;
      executed = let x = h.executed in omega arith;
      models = h.models;
      tools = h.tools;
    }
    IsCounted-Move l k s t (appends m n _ x id new u e) h = record {
      requested = h.requested;
      executed = h.executed;
      models = h.models;
      tools = h.tools;
    }
    IsCounted-Move l k s t (gives_up m n _) h = record {
      requested = h.requested;
      executed = h.executed;
      models = h.models;
      tools = h.tools;
    }
    IsCounted-Move l k s t (prompts m n _ x id new e) h = record {
      requested = h.requested;
      executed = h.executed;
      models = h.models;
      tools = h.tools;
    }
    IsCounted-Move l k s t (compacts m n _ c id now new e) h = record {
      requested = h.requested;
      executed = h.executed;
      models = h.models;
      tools = h.tools;
    }
    IsCounted-Move l k s t (begins now _ q x) h = record {
      requested = rw q (omega arith);
      executed = rw x (omega arith);
      models = IsUnder-zero p.max_model_calls;
      tools = IsUnder-zero p.max_tool_calls;
    }
    IsCounted-Move l k s t (begins_turn m n turn _ le) h = record {
      requested = h.requested;
      executed = h.executed;
      models = h.models;
      tools = h.tools;
    }
    IsCounted-Move l k s t (spends m n _ u) h = record {
      requested = h.requested;
      executed = h.executed;
      models = h.models;
      tools = h.tools;
    }
    IsCounted-Move l k s t (counts_model m n now _ a) h =
        let good = approved now (with_model_calls host 1 s.tracker) a in
        record {
          requested = let x = h.requested in omega arith;
          executed = h.executed;
          models = good.models;
          tools = good.tools;
        }
    IsCounted-Move l k s t (counts_tools m n c now _ a) h =
        let good = approved now (with_tool_calls host c s.tracker) a in
        record {
          requested = h.requested;
          executed = let x = h.executed in omega arith;
          models = good.models;
          tools = good.tools;
        }
    IsCounted-Move l k s t (requests m n _ r q) h = record {
      requested = let x = h.requested in ground (arith, length-append s.requests (r ∷ []));
      executed = h.executed;
      models = h.models;
      tools = h.tools;
    }
    IsCounted-Move l k s t (executes m n _ us) h = record {
      requested = h.requested;
      executed = let x = h.executed in ground (arith, length-append s.executed us);
      models = h.models;
      tools = h.tools;
    }
    IsCounted-Move l k s t (denies m n _ lt) h = record {
      requested = h.requested;
      executed = h.executed;
      models = h.models;
      tools = h.tools;
    }
    IsCounted-Move l k s t (retries m n _ lt) h = record {
      requested = h.requested;
      executed = h.executed;
      models = h.models;
      tools = h.tools;
    }

    IsCounted-Reaches :
        (l k : Ledger) (s t : Run) → Reaches host l s k t → IsCounted l s → IsCounted k t
    IsCounted-Reaches l k s t (here _ _) h = h
    IsCounted-Reaches l k s t (move _ j _ _ u _ m way) h =
        IsCounted-Reaches j k u t way (IsCounted-Move l j s u m h)

    -- Under a budget policy, checked with any errors of the context and any clock, a run sends at most
    -- as many requests to the model, and gives at most as many calls to the executor, as the limits of
    -- the policy say wherever they are positive, retries and calls that were started early included.
    pub run_loop-IsUnder :
        (store : Store)
        → IsUnder (length (run_loop host (new_run store)).requests) p.max_model_calls
          × IsUnder (length (run_loop host (new_run store)).executed) p.max_tool_calls
    run_loop-IsUnder store =
        let e = run_loop-refines host store in
        let u = run_loop host (new_run store) in
        let c = IsCounted-Reaches _ e.ledger (new_run store) u e.way (record {
          requested = omega arith;
          executed = omega arith;
          models = IsUnder-zero p.max_model_calls;
          tools = IsUnder-zero p.max_tool_calls;
        }) in
        (
          IsUnder-weaker _ _ p.max_model_calls (let x = c.requested in omega arith) c.models,
          IsUnder-weaker _ _ p.max_tool_calls (let x = c.executed in omega arith) c.tools,
        )
