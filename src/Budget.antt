-- ===== src/Budget.antt =====
-- budget/budget.go: the limits of a run. Times are nanoseconds, 0 the zero time; durations and
-- counts are Go's ints. A reason is kept as the text's parts.
pub mod Limits
pub mod Tests
use memax_go_agent_sdk.Prelude.{
  ℕ, ◌-◌, String, Bool, true, false, not, ◌&&◌, ◌||◌, Option, none, some, ltb, leb, eqb,
  if◌then◌else◌,
}
use memax_go_agent_sdk.Prelude.Int.{ℤ, pos, negsuc, lt_int, is_positive}

pub data Dimension : Type 0 where
  duration turns model_calls tool_calls input_tokens output_tokens total_tokens : Dimension

-- ctx.Err() as text, or the parts of "budget exceeded: %s (%v > %v)".
pub data Reason : Type 0 where
  cancelled : String → Reason
  exceeded : Dimension → ℤ → ℤ → Reason

pub record Decision : Type 0 where
  pub allow : Bool
  pub reason : Option Reason

-- model.Usage
pub record Usage : Type 0 where
  pub input_tokens : ℤ
  pub output_tokens : ℤ
  pub total_tokens : ℤ

pub record Snapshot : Type 0 where
  pub started_at : ℕ
  pub now : ℕ
  pub elapsed : ℤ
  pub turns : ℤ
  pub model_calls : ℤ
  pub tool_calls : ℤ
  pub usage : Usage

pub record Policy : Type 0 where
  pub max_turns : ℤ
  pub max_model_calls : ℤ
  pub max_tool_calls : ℤ
  pub max_input_tokens : ℤ
  pub max_output_tokens : ℤ
  pub max_total_tokens : ℤ
  pub max_duration : ℤ

-- time.Time.Sub
abbrev pub time_sub : ℕ → ℕ → ℤ
time_sub a b = if leb b a then pos (a - b) else negsuc (b - a - 1)

unfoldable pub enabled : Policy → Bool
enabled p =
    is_positive p.max_turns
    || (is_positive p.max_model_calls
        || (is_positive p.max_tool_calls
            || (is_positive p.max_input_tokens
                || (is_positive p.max_output_tokens
                    || (is_positive p.max_total_tokens || is_positive p.max_duration)))))

-- The snapshot once Now and Elapsed are filled in; `clock` is time.Now().
unfoldable pub filled : ℕ → Snapshot → Snapshot
filled clock s =
    let now = (if eqb s.now 0 then clock else s.now) in
    let elapsed =
      (if not (is_positive s.elapsed) && not (eqb s.started_at 0)
        then time_sub now s.started_at
        else s.elapsed) in
    record s { now = now; elapsed = elapsed }

unfoldable pub over : ℤ → ℤ → Bool
over limit got = is_positive limit && lt_int limit got

abbrev allowed : Decision
allowed = record { allow = true; reason = none }

abbrev denied : Reason → Decision
denied r = record { allow = false; reason = some r }

-- The seven tests, in their order.
unfoldable pub check_limits : Policy → Snapshot → Decision
check_limits p s =
    if over p.max_duration s.elapsed
    then denied (exceeded duration s.elapsed p.max_duration)
    else if over p.max_turns s.turns
    then denied (exceeded turns s.turns p.max_turns)
    else if over p.max_model_calls s.model_calls
    then denied (exceeded model_calls s.model_calls p.max_model_calls)
    else if over p.max_tool_calls s.tool_calls
    then denied (exceeded tool_calls s.tool_calls p.max_tool_calls)
    else if over p.max_input_tokens s.usage.input_tokens
    then denied (exceeded input_tokens s.usage.input_tokens p.max_input_tokens)
    else if over p.max_output_tokens s.usage.output_tokens
    then denied (exceeded output_tokens s.usage.output_tokens p.max_output_tokens)
    else if over p.max_total_tokens s.usage.total_tokens
    then denied (exceeded total_tokens s.usage.total_tokens p.max_total_tokens)
    else allowed

-- Policy.Check; `err` is ctx.Err().
unfoldable pub check : Policy → Option String → ℕ → Snapshot → Decision
unfolding enabled filled check_limits
check p (some e) clock s = denied (cancelled e)
check p none clock s = if not (enabled p) then allowed else check_limits p (filled clock s)
