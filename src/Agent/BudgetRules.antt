-- ===== src/Agent/BudgetRules.antt =====
-- The checks of the budget in Run.antt follow the machine.
use memax_go_agent_sdk.Prelude.{
  ℕ, suc, ◌+◌, true, Option, none, some, ◌≡◌, refl, sym, subst, Bool-cases, inl, inr, arith,
}
use memax_go_agent_sdk.Budget.{Snapshot, Decision}
use memax_go_agent_sdk.Agent.Events.{RunError, StopReason, stopped_budget}
use memax_go_agent_sdk.Agent.Run.{
  Run, Host, Step, Signal, BudgetTracker, ◌>>=◌, ◌>>◌, ask, fail, fail_if, denial_of, decide,
  check_budget, guard_budget, snapshot, with_model_calls, with_tool_calls, count_model_call,
  count_tool_calls, track,
}
use memax_go_agent_sdk.Agent.Machine.{
  Ledger, live, IsAllowed, Move, asks, counts_model, counts_tools, Reaches, move, once, prepend,
  EndsWell, Follows, bind,
}
use memax_go_agent_sdk.Agent.Rules.{
  Any, return_follows, forget, ask_follows, current_follows, fail_follows, fail_if_follows,
}

module _ (host : Host) where
  -- The decision of the policy on a snapshot.
  decide_follows :
      (l : Ledger) (policy : Option (Snapshot → Run → Decision)) (snap : Snapshot)
      → Follows host l (decide host policy snap) l (λ e. e ≡ none → IsAllowed host policy snap)
  unfolding decide ask
  decide_follows l none snap = return_follows host _ _ none (λ _. tt)
  decide_follows l (some policy) snap = record {
    at = λ s. (once host (asks l s), λ e. (s, allowed_of (policy snap s) e));
  }
    where
      allowed_of : (d : Decision) → denial_of host d ≡ none → d.allow ≡ true
      allowed_of d e = ground arith

  check_budget_follows :
      (l : Ledger) (more : BudgetTracker → BudgetTracker)
      → Follows host l (check_budget host more) l Any
  unfolding check_budget
  check_budget_follows l more = bind host (ask_follows host l host.now) (λ now _.
      bind host (current_follows host l)
        (λ s _. forget host (decide_follows l host.budget (snapshot host now (more s.tracker)))))

  -- The part of the check after the clock is read, and the step on the tracker.
  count_by :
      Option (Snapshot → Run → Decision)
      → ℕ
      → (BudgetTracker → BudgetTracker)
      → Snapshot
      → Step (Unit {0})
  unfolding decide fail_if
  count_by policy turn more snap = do
    (do e ← decide host policy snap; fail_if host turn stopped_budget e)
    track host more

  Counts : (BudgetTracker → BudgetTracker) → (k : Ledger) → (m t : ℕ) → Type 0
  Counts more k m t =
      (s : Run) (now : ℕ)
      → IsAllowed host host.budget (snapshot host now (more s.tracker))
      → Move host (live m t) s k (record s { tracker = more s.tracker })

  fail_first :
      (m t : ℕ) (k : Ledger) (turn : ℕ) (reason : StopReason) (e : RunError)
      (next : Unit {0} → Step (Unit {0}))
      → Follows host (live m t) (fail host turn reason e >>= next) k Any
  fail_first m t k turn reason e next =
      bind host (fail_follows host m t turn reason e k (λ _. ⊥)) (λ _ x. absurd x)

  counted_by :
      (m t : ℕ) (k : Ledger) (turn : ℕ) (more : BudgetTracker → BudgetTracker)
      (policy : Option (Snapshot → Run → Decision)) (snap : Snapshot) (s : Run)
      → ((r : Run)
          → r.tracker ≡ s.tracker
          → IsAllowed host policy snap
          → Move host (live m t) r k (record r { tracker = more r.tracker }))
      → EndsWell host (live m t) s k Any (count_by policy turn more snap s)
  unfolding count_by decide fail_if ask
  counted_by m t k turn more none snap s moves = (once host (moves s refl tt), tt)
  counted_by m t k turn more (some policy) snap s moves = elim (Bool-cases (policy snap s).allow) [
    | inl h ↦ rw h (move _ _ _ _ _ _ (asks _ s) (once host (moves _ refl (s, h))), tt)
    | inr h ↦
        let e = RunError.budget_exceeded (policy snap s).reason in
        let later : Run = record s { asked = suc s.asked } in
        let next : Unit {0} → Step (Unit {0}) = λ _. track host more in
        rw h (
          prepend host (live m t) (live m t) k Any s later (once host (asks _ s))
            ((fail host turn stopped_budget e >>= next) later)
            ((fail_first m t k turn stopped_budget e next).at later))
  ]

  counted :
      (m t : ℕ) (k : Ledger) (turn : ℕ) (more : BudgetTracker → BudgetTracker)
      → Counts more k m t
      → (s : Run)
      → EndsWell host (live m t) s k Any ((do guard_budget host turn more; track host more) s)
  unfolding guard_budget check_budget ask count_by Counts
  counted m t k turn more moves s =
      let later : Run = record s { asked = suc s.asked } in
      let snap = snapshot host (host.now s) (more s.tracker) in
      prepend host (live m t) (live m t) k Any s later (once host (asks _ s))
        (count_by host.budget turn more snap later)
        (counted_by m t k turn more host.budget snap later (λ r e a. moves r (host.now s) (
          subst (λ z. IsAllowed host host.budget (snapshot host (host.now s) (more z))) (sym e) a)))

  pub count_model_call_follows :
      (m t turn : ℕ) → Follows host (live m t) (count_model_call host turn) (live (suc m) t) Any
  unfolding count_model_call Counts
  count_model_call_follows m t turn = record {
    at =
        counted m t (live (suc m) t) turn (with_model_calls host 1)
          (λ s now a. counts_model m t now s a);
  }

  pub count_tool_calls_follows :
      (m t turn n : ℕ) → Follows host (live m t) (count_tool_calls host turn n) (live m (n + t)) Any
  unfolding count_tool_calls Counts
  count_tool_calls_follows m t turn n = record {
    at =
        counted m t (live m (n + t)) turn (with_tool_calls host n)
          (λ s now a. counts_tools m t n now s a);
  }

  -- A check of the budget that counts nothing.
  pub guard_budget_follows :
      (m t turn : ℕ) (more : BudgetTracker → BudgetTracker)
      → Follows host (live m t) (guard_budget host turn more) (live m t) Any
  unfolding guard_budget
  guard_budget_follows m t turn more =
      bind host (check_budget_follows (live m t) more)
        (λ e _. fail_if_follows host m t turn stopped_budget e)

  -- What a check of the budget says at a state.
  pub record Checked (l : Ledger) (more : BudgetTracker → BudgetTracker) (s : Run) : Type 0 where
    pub answer : Option RunError
    pub later : Run
    pub result : check_budget host more s ≡ (Signal.value answer, later)
    pub way : Reaches host l s l later
    pub kept : later.tracker ≡ s.tracker
    pub allowed :
        answer ≡ none
        → (now : ℕ) × IsAllowed host host.budget (snapshot host now (more later.tracker))

  decided :
      (l : Ledger) (more : BudgetTracker → BudgetTracker) (s : Run)
      (policy : Option (Snapshot → Run → Decision))
      → host.budget ≡ policy
      → Checked l more s
  unfolding check_budget decide ask
  decided l more s none h = record {
    answer = none;
    later = record s { asked = suc s.asked };
    result = rw h refl;
    way = once host (asks l s);
    kept = refl;
    allowed = λ _. (host.now s, rw h tt);
  }
  decided l more s (some policy) h =
      let read : Run = record s { asked = suc s.asked } in
      let snap = snapshot host (host.now s) (more s.tracker) in
      record {
        answer = denial_of host (policy snap read);
        later = record read { asked = suc read.asked };
        result = rw h refl;
        way = move l l l s read _ (asks l s) (once host (asks l read));
        kept = refl;
        allowed = λ e. (host.now s, rw h (read, allowed_of (policy snap read) e));
      }
    where
      allowed_of : (d : Decision) → denial_of host d ≡ none → d.allow ≡ true
      allowed_of d e = ground arith

  pub check_budget-Checked :
      (l : Ledger) (more : BudgetTracker → BudgetTracker) (s : Run) → Checked l more s
  check_budget-Checked l more s = decided l more s host.budget refl
