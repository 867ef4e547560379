-- ===== src/Agent/Machine.antt =====
-- What a run of agent.go may do, as an abstract machine. Its ledger holds the calls of the model and
-- of tools that the budget has allowed and that are still to be made, or says that the run is over;
-- `asking` is a ledger with a prompt for another answer still to be appended.
use memax_go_agent_sdk.Prelude.{
  ℕ, suc, ◌+◌, ◌≤◌, ◌<◌, String, true, false, Option, none, some, List, [], ◌∷◌, ◌++◌, length, ok,
  ◌≡◌, ◌⊎◌,
}
use memax_go_agent_sdk.Model.{ToolUse, Message, is_user_role}
use memax_go_agent_sdk.Budget.{Snapshot, Decision}
use memax_go_agent_sdk.Session.Store.{
  Error, Store, NewId, CompactionCheckpoint, append, save_compaction,
}
use memax_go_agent_sdk.Agent.Events.{ModelUsage, Event, RunError, Body, add_usage}
use memax_go_agent_sdk.Agent.Heeded.{is_heeded}
use memax_go_agent_sdk.Agent.Messages.{final_denial_limit, prepare_messages_for_model}
use memax_go_agent_sdk.Agent.Run.{
  Run, Host, Request, Signal, Step, Finish, value, next_turn, stop_run, after, ◌>>=◌, snapshot,
  with_model_calls, with_tool_calls,
}
use memax_go_agent_sdk.Agent.Turn.{first_tracker}

pub data Ledger : Type 0 where
  live asking : ℕ → ℕ → Ledger
  finished interrupted : Ledger

pub data IsOver : Ledger → Type 0 where
  over_finished : IsOver finished
  over_interrupted : IsOver interrupted

-- A run that was interrupted sends nothing more.
abbrev pub IsOpen : Ledger → Type 0
IsOpen (live m t) = Unit
IsOpen (asking m t) = Unit
IsOpen finished = Unit
IsOpen interrupted = ⊥

-- The errors of emitCanceledEarlyToolResults.
pub data IsCleanupError : RunError → Type 0 where
  left_context : IsCleanupError RunError.canceled
  left_result : (e : Error) → IsCleanupError (RunError.append_canceled_result e)

module _ (host : Host) where
  -- What a run that stops without a call of finish shows. The last event that nobody took is one
  -- whose loss stops a run; or the last event, taken or not, is the error of a clean-up; or the only
  -- one is the error of the skill tools.
  pub data Interrupted (s : Run) : Type 0 where
    unheard :
        (es : List Event) (e : Event)
        → s.lost ≡ es ++ e ∷ []
        → is_heeded e.body ≡ true
        → Interrupted s
    unclean :
        (es : List Event) (e : Event) (x : RunError)
        → (s.events ≡ es ++ e ∷ []) ⊎ (s.lost ≡ es ++ e ∷ [])
        → e.body ≡ Body.failed x
        → IsCleanupError x
        → Interrupted s
    misconfigured :
        (e : Event) (x : String)
        → (s.events ≡ e ∷ []) ⊎ (s.lost ≡ e ∷ [])
        → e.body ≡ Body.failed (RunError.skill_disclosure x)
        → host.registry_error ≡ some x
        → Interrupted s

  -- The budget policy, if there is one, has allowed a snapshot.
  abbrev pub IsAllowed : Option (Snapshot → Run → Decision) → Snapshot → Type 0
  IsAllowed none snap = Unit
  IsAllowed (some policy) snap = (s : Run) × ((policy snap s).allow ≡ true)

  pub data IsPrepared : List Message → Type 0 where
    prepared : (ms : List Message) → IsPrepared (prepare_messages_for_model host ms)

  pub data Move : Ledger → Run → Ledger → Run → Type 0 where
    asks : (l : Ledger) (s : Run) → Move l s l (record s { asked = suc s.asked })
    tells :
        (l : Ledger) (s : Run) (e : Event)
        → IsOpen l
        → Move l s l (record s { events = s.events ++ e ∷ [] })
    loses :
        (l : Ledger) (s : Run) (e : Event)
        → IsOpen l
        → Move l s l (record s { lost = s.lost ++ e ∷ [] })
    finishes :
        (m t : ℕ) (s : Run) (f : Finish)
        → Move (live m t) s finished (record s { finishes = s.finishes ++ f ∷ [] })
    interrupts : (m t : ℕ) (s : Run) → Interrupted s → Move (live m t) s interrupted s
    appends :
        (m t : ℕ) (s : Run) (x : Message) (id : NewId) (new : Store)
        → is_user_role x.role ≡ false
        → append host.json_valid s.store host.session_id x id ≡ ok new
        → Move (live m t) s (live m t) (record s { store = new })
    prompts :
        (m t : ℕ) (s : Run) (x : Message) (id : NewId) (new : Store)
        → append host.json_valid s.store host.session_id x id ≡ ok new
        → Move (asking m t) s (live m t) (record s { store = new })
    gives_up : (m t : ℕ) (s : Run) → Move (asking m t) s (live m t) s
    compacts :
        (m t : ℕ) (s : Run) (c : CompactionCheckpoint) (id : NewId) (now : ℕ) (new : Store)
        → save_compaction host.json_valid s.store host.session_id c id now ≡ ok new
        → Move (live m t) s (live m t) (record s { store = new })
    begins :
        (now : ℕ) (s : Run)
        → s.requests ≡ []
        → s.executed ≡ []
        → Move (live 0 0) s (live 0 0) (record s { tracker = first_tracker now })
    begins_turn :
        (m t n : ℕ) (s : Run)
        → n ≤ host.max_turns
        → Move (live m t) s (live m t) (record s { tracker = record s.tracker { turns = n } })
    spends :
        (m t : ℕ) (s : Run) (u : ModelUsage)
        → Move (live m t) s (live m t) (record s {
          total_usage = add_usage s.total_usage u;
          tracker = record s.tracker { usage = add_usage s.total_usage u };
        })
    counts_model :
        (m t now : ℕ) (s : Run)
        → IsAllowed host.budget (snapshot host now (with_model_calls host 1 s.tracker))
        → Move
            (live m t)
            s
            (live (suc m) t)
            (record s { tracker = with_model_calls host 1 s.tracker })
    counts_tools :
        (m t n now : ℕ) (s : Run)
        → IsAllowed host.budget (snapshot host now (with_tool_calls host n s.tracker))
        → Move
            (live m t)
            s
            (live m (n + t))
            (record s { tracker = with_tool_calls host n s.tracker })
    requests :
        (m t : ℕ) (s : Run) (r : Request)
        → IsPrepared r.messages
        → Move (live (suc m) t) s (live m t) (record s { requests = s.requests ++ r ∷ [] })
    executes :
        (m t : ℕ) (s : Run) (us : List ToolUse)
        → Move (live m (length us + t)) s (live m t) (record s { executed = s.executed ++ us })
    denies :
        (m t : ℕ) (s : Run)
        → s.final_denials < final_denial_limit host.max_final_denials
        → Move (live m t) s (asking m t) (record s { final_denials = suc s.final_denials })
    retries :
        (m t : ℕ) (s : Run)
        → s.output_retries < host.retry_limit
        → Move (live m t) s (asking m t) (record s { output_retries = suc s.output_retries })

  pub data Reaches : Ledger → Run → Ledger → Run → Type 0 where
    here : (l : Ledger) (s : Run) → Reaches l s l s
    move : (l k n : Ledger) (s t u : Run) → Move l s k t → Reaches k t n u → Reaches l s n u

  pub Reaches-trans :
      {l k n : Ledger} {s t u : Run} → Reaches l s k t → Reaches k t n u → Reaches l s n u
  Reaches-trans (here _ _) later = later
  Reaches-trans (move l k n s t u m earlier) later =
      move _ _ _ _ _ _ m (Reaches-trans earlier later)

  pub once : {l k : Ledger} {s t : Run} → Move l s k t → Reaches l s k t
  once m = move _ _ _ _ _ _ m (here _ _)

  -- How a step that begins with ledger `l` in state `s` may end: with a value of which V holds and
  -- ledger `k`, or with the turn, or with the run, which then is over.
  abbrev pub EndsWell :
      {A : Type 0} → Ledger → Run → Ledger → (A → Type 0) → Signal A × Run → Type 0
  EndsWell l s k V (value a, t) = Reaches l s k t × V a
  EndsWell l s k V (next_turn, t) = (m : ℕ) × (n : ℕ) × Reaches l s (live m n) t
  EndsWell l s k V (stop_run, t) = (n : Ledger) × IsOver n × Reaches l s n t

  pub record Follows {A : Type 0} (l : Ledger) (m : Step A) (k : Ledger) (V : A → Type 0)
      : Type 0 where
    pub at : (s : Run) → EndsWell l s k V (m s)

  -- A step after others.
  pub prepend :
      {B : Type 0} (l k n : Ledger) (W : B → Type 0) (s t : Run)
      → Reaches l s k t
      → (q : Signal B × Run) → EndsWell k t n W q
      → EndsWell l s n W q
  prepend l k n W s t way (value b, u) (more, w) = (Reaches-trans way more, w)
  prepend l k n W s t way (next_turn, u) (i, j, more) = (i, j, Reaches-trans way more)
  prepend l k n W s t way (stop_run, u) (h, o, more) = (h, o, Reaches-trans way more)

  bind_at :
      {A B : Type 0} (l k n : Ledger) (V : A → Type 0) (W : B → Type 0) (s : Run) (f : A → Step B)
      → ((a : A) → V a → Follows k (f a) n W)
      → (r : Signal A × Run) → EndsWell l s k V r
      → EndsWell l s n W (after r f)
  bind_at l k n V W s f later (value a, t) (way, v) =
      prepend l k n W s t way (f a t) ((later a v).at t)
  bind_at l k n V W s f later (next_turn, t) e = e
  bind_at l k n V W s f later (stop_run, t) e = e

  pub bind :
      {A B : Type 0} {l k n : Ledger} {V : A → Type 0} {W : B → Type 0} {m : Step A}
      {f : A → Step B}
      → Follows l m k V
      → ((a : A) → V a → Follows k (f a) n W)
      → Follows l (m >>= f) n W
  bind first later = record { at = λ s. bind_at _ _ _ _ _ s _ later _ (first.at s) }

  weaken_at :
      {A : Type 0} (l k : Ledger) (V W : A → Type 0) (s : Run)
      → ((a : A) → V a → W a)
      → (r : Signal A × Run) → EndsWell l s k V r
      → EndsWell l s k W r
  weaken_at l k V W s weaker (value a, t) (way, v) = (way, weaker a v)
  weaken_at l k V W s weaker (next_turn, t) e = e
  weaken_at l k V W s weaker (stop_run, t) e = e

  pub weaken :
      {A : Type 0} {l k : Ledger} {V W : A → Type 0} {m : Step A}
      → ((a : A) → V a → W a)
      → Follows l m k V
      → Follows l m k W
  weaken weaker first = record { at = λ s. weaken_at _ _ _ _ s weaker _ (first.at s) }
