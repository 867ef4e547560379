-- ===== src/ContextWindow/TokenBudget.antt =====
-- newestSuffixStart succeeds on every estimate that is not negative, and TokenBudget with it.
use memax_go_agent_sdk.Prelude.{
  ℕ, zero, suc, ◌+◌, ◌≤◌, ◌<◌, Bool, ◌&&◌, Option, some, List, [], ◌∷◌, ◌≡◌, refl, inl, inr, length,
  drop, get_elem?, ltb, leb, Result, ok, err, ◌>>=◌, String, arith, All, IsOk, ok_of_IsOk,
  Bool-cases,
}
use native.Mathlib.Nat.{le_refl}
use memax_go_agent_sdk.Prelude.Int.{pos, positive_part}
use memax_go_agent_sdk.Model.{Message, clone_messages}
use memax_go_agent_sdk.ContextWindow.{Error, Estimator}
use memax_go_agent_sdk.ContextWindow.Suffix.{
  drop_leading_tool_results, suffix_loop, newest_suffix_start, estimator_or_default,
  apply_token_budget,
}
use memax_go_agent_sdk.ContextWindow.SuffixLaws.{
  suffix_branch, IsNewestSuffix, newest_suffix_start-IsNewestSuffix,
}

-- No estimate is negative.
abbrev pub Estimated : Estimator → List Message → Type 0
Estimated estimate ms = All (λ m. pos (positive_part (estimate m)) ≡ estimate m) ms

get_elem?-lt {ℓ} :
    {A : Type ℓ} (xs : List A) (n : ℕ) → n < length xs → (x : A) × (get_elem? xs n ≡ some x)
get_elem?-lt [] n h = elim h [ ]
get_elem?-lt (x ∷ xs) zero h = (x, refl)
get_elem?-lt (x ∷ xs) (suc n) h = get_elem?-lt xs n (omega arith)

Estimated-get_elem? :
    (estimate : Estimator) (ms : List Message) (n : ℕ) (m : Message)
    → Estimated estimate ms
    → get_elem? ms n ≡ some m
    → pos (positive_part (estimate m)) ≡ estimate m
Estimated-get_elem? estimate [] n m h e = cc
Estimated-get_elem? estimate (x ∷ xs) zero m h e = ground arith
Estimated-get_elem? estimate (x ∷ xs) (suc n) m h e = Estimated-get_elem? estimate xs n m h.1 e

suffix_branch-IsOk :
    (max total next n : ℕ) (rest : Result Error ℕ)
    → IsOk rest
    → IsOk (suffix_branch max total next n rest)
suffix_branch-IsOk max total next n (err e) h = absurd h
suffix_branch-IsOk max total next n (ok s) h =
    elim (Bool-cases (ltb 0 total && ltb max (total + next))) [
      | inl t ↦ rw t tt
      | inr t ↦ elim (Bool-cases (leb max (total + next))) [
        | inl u ↦ rw t (rw u tt)
        | inr u ↦ rw t (rw u tt)
      ]
    ]

suffix_loop-IsOk :
    (estimate : Estimator) (max : ℕ) (ms : List Message) (n total : ℕ)
    → n ≤ length ms
    → Estimated estimate ms
    → IsOk (suffix_loop estimate max ms total n)
unfolding suffix_loop
suffix_loop-IsOk estimate max ms zero total h e = tt
suffix_loop-IsOk estimate max ms (suc n) total h e =
    let (m, found) = get_elem?-lt ms n h in
    let v = Estimated-get_elem? estimate ms n m e found in
    let next = positive_part (estimate m) in
    rw (found, suffix_loop)
      (rw (← v, suffix_loop)
        (suffix_branch-IsOk max total next n _
          (suffix_loop-IsOk estimate max ms n (total + next) (omega arith) e)))

pub newest_suffix_start-total :
    (ms : List Message) (max : ℕ) (estimate : Estimator)
    → Estimated estimate ms
    → (s : ℕ) × (newest_suffix_start ms max estimate ≡ ok s)
unfolding newest_suffix_start
newest_suffix_start-total ms max estimate e =
    let (n, h) = ok_of_IsOk _ (suffix_loop-IsOk estimate max ms (length ms) 0 (le_refl _) e) in
    (drop_leading_tool_results ms n, rw (h, ◌>>=◌))

module _ (json_valid : String → Bool) where
  -- With a positive limit and no negative estimate the token budget returns copies of the messages from
  -- some index on, which is not that of a tool result. The estimates of those messages, taken before
  -- the copy, sum to at most the limit, unless only the first of them has a cost. The index is the
  -- one chosen, or the first after the tool results there; and the message before the one chosen, if
  -- there is one, does not fit in too, or the limit is already reached without it.
  pub apply_token_budget-IsNewestSuffix :
      (max : ℕ) (estimate : Option Estimator) (ms : List Message)
      → 0 < max
      → Estimated (estimator_or_default estimate) ms
      → (s : ℕ) × (apply_token_budget json_valid (pos max) estimate ms
          ≡ ok (clone_messages json_valid (drop s ms)))
        × IsNewestSuffix (estimator_or_default estimate) max ms s
  unfolding apply_token_budget
  apply_token_budget-IsNewestSuffix max estimate ms h e =
      let (s, f) = newest_suffix_start-total ms max (estimator_or_default estimate) e in
      (
        s,
        ground (arith, f),
        newest_suffix_start-IsNewestSuffix ms max (estimator_or_default estimate) s f,
      )
