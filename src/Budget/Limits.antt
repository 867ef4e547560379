-- ===== src/Budget/Limits.antt =====
-- What a budget decision says of the limits.
use memax_go_agent_sdk.Prelude.{
  ℕ, true, false, ◌&&◌, none, some, ◌≡◌, refl, ◌↔◌, arith, Bool-cases, inl, inr,
}
use memax_go_agent_sdk.Prelude.Int.{ℤ, pos, negsuc, lt_int, is_positive, ◌≤ℤ◌}
use memax_go_agent_sdk.Budget.{
  Dimension, duration, turns, model_calls, tool_calls, input_tokens, output_tokens, total_tokens,
  exceeded, Snapshot, Policy, enabled, filled, over, check_limits, check,
}

abbrev pub limit : Policy → Dimension → ℤ
limit p duration = p.max_duration
limit p turns = p.max_turns
limit p model_calls = p.max_model_calls
limit p tool_calls = p.max_tool_calls
limit p input_tokens = p.max_input_tokens
limit p output_tokens = p.max_output_tokens
limit p total_tokens = p.max_total_tokens

abbrev pub measure : Snapshot → Dimension → ℤ
measure s duration = s.elapsed
measure s turns = s.turns
measure s model_calls = s.model_calls
measure s tool_calls = s.tool_calls
measure s input_tokens = s.usage.input_tokens
measure s output_tokens = s.usage.output_tokens
measure s total_tokens = s.usage.total_tokens

-- A limit binds if it is positive.
abbrev pub IsWithin : Policy → Snapshot → Dimension → Type 0
IsWithin p s d = is_positive (limit p d) ≡ true → measure s d ≤ℤ limit p d

over-false : (l g : ℤ) → over l g ≡ false → is_positive l ≡ true → g ≤ℤ l
unfolding over
over-false (pos l) (pos g) h k = ground arith
over-false (pos l) (negsuc g) h k = tt
over-false (negsuc l) g h k = cc

false-over : (l g : ℤ) → (is_positive l ≡ true → g ≤ℤ l) → over l g ≡ false
unfolding over
false-over (pos l) (pos g) h = elim (Bool-cases (over (pos l) (pos g))) [
  | inl e ↦ absurd (ground (arith, h))
  | inr e ↦ e
]
false-over (pos l) (negsuc g) h = ground arith
false-over (negsuc l) g h = refl

check_limits-within :
    (p : Policy) (s : Snapshot) (d : Dimension)
    → (check_limits p s).allow ≡ true
    → over (limit p d) (measure s d) ≡ false
unfolding check_limits
check_limits-within p s duration h = ground arith
check_limits-within p s turns h = ground arith
check_limits-within p s model_calls h = ground arith
check_limits-within p s tool_calls h = ground arith
check_limits-within p s input_tokens h = ground arith
check_limits-within p s output_tokens h = ground arith
check_limits-within p s total_tokens h = ground arith

within-check_limits :
    (p : Policy) (s : Snapshot)
    → ((d : Dimension) → over (limit p d) (measure s d) ≡ false)
    → (check_limits p s).allow ≡ true
unfolding check_limits
within-check_limits p s h = ground (
  arith,
  h duration,
  h turns,
  h model_calls,
  h tool_calls,
  h input_tokens,
  h output_tokens,
  h total_tokens,
)

disabled-within : (p : Policy) (d : Dimension) → enabled p ≡ false → is_positive (limit p d) ≡ false
unfolding enabled
disabled-within p duration h = ground arith
disabled-within p turns h = ground arith
disabled-within p model_calls h = ground arith
disabled-within p tool_calls h = ground arith
disabled-within p input_tokens h = ground arith
disabled-within p output_tokens h = ground arith
disabled-within p total_tokens h = ground arith

-- On a live context the policy allows exactly if each measured quantity, elapsed time included once it
-- is filled in from the clock, is at most its limit wherever that limit is positive.
pub check-IsWithin_iff :
    (p : Policy) (clock : ℕ) (s : Snapshot)
    → ((check p none clock s).allow ≡ true) ↔ ((d : Dimension) → IsWithin p (filled clock s) d)
unfolding check
check-IsWithin_iff p clock s = (
  λ h d k.
      over-false _ _
        (elim (Bool-cases (enabled p)) [
          | inl e ↦ check_limits-within p (filled clock s) d (ground arith)
          | inr e ↦ absurd (cc (disabled-within p d e))
        ])
        k,
  λ h.
      let w = within-check_limits p (filled clock s) (λ d. false-over _ _ (h d)) in
      ground (arith, w),
)

-- What a reason claims of the snapshot.
abbrev pub Names : Policy → Snapshot → Dimension → ℤ → ℤ → Type 0
Names p s d got lim =
    (got ≡ measure s d)
    × (lim ≡ limit p d)
    × ((is_positive (limit p d) && lt_int (limit p d) (measure s d)) ≡ true)

check_limits-Names :
    (p : Policy) (s : Snapshot) (d : Dimension) (got lim : ℤ)
    → (check_limits p s).reason ≡ some (exceeded d got lim)
    → (got ≡ measure s d) × (lim ≡ limit p d) × (over (limit p d) (measure s d) ≡ true)
unfolding check_limits
check_limits-Names p s duration got lim h = ground arith
check_limits-Names p s turns got lim h = ground arith
check_limits-Names p s model_calls got lim h = ground arith
check_limits-Names p s tool_calls got lim h = ground arith
check_limits-Names p s input_tokens got lim h = ground arith
check_limits-Names p s output_tokens got lim h = ground arith
check_limits-Names p s total_tokens got lim h = ground arith

-- A denial for a dimension on a live context carries its measured value and its limit, and that limit is
-- positive and below the value.
pub check-reports :
    (p : Policy) (clock : ℕ) (s : Snapshot) (d : Dimension) (got lim : ℤ)
    → (check p none clock s).reason ≡ some (exceeded d got lim)
    → Names p (filled clock s) d got lim
unfolding check over
check-reports p clock s d got lim h = elim (Bool-cases (enabled p)) [
  | inl e ↦ check_limits-Names p (filled clock s) d got lim (rw e at h)
  | inr e ↦ cc (rw e at h)
]
