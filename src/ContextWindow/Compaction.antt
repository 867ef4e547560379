-- ===== src/ContextWindow/Compaction.antt =====
-- What a compaction by SummarizingBudget sends, and what it records of it.
use memax_go_agent_sdk.Prelude.{
  ℕ, zero, suc, ◌+◌, ◌≤◌, ◌<◌, Bool, Option, none, some, List, [], ◌∷◌, ◌≡◌, refl, ap, ◌⊎◌, inl,
  inr, ok, >>=-eq-ok, String, ◌==◌, drop, arith, Bool-cases,
}
use memax_go_agent_sdk.Prelude.Int.{positive_part}
use memax_go_agent_sdk.Prelude.Text.{trim_space}
use memax_go_agent_sdk.Model.{Message, clone_message}
use memax_go_agent_sdk.ContextWindow.{Estimator}
use memax_go_agent_sdk.ContextWindow.Suffix.{newest_suffix_start}
use memax_go_agent_sdk.ContextWindow.SuffixLaws.{cost, newest_suffix_start-IsNewestSuffix}
use memax_go_agent_sdk.ContextWindow.Summary.{
  SummarizingBudget, Summarizer, PolicyResult, summary_budget, recent_budget, split_kept,
  summary_of, summary_message, summarized, compacted, prefix_at, compact,
}
use memax_go_agent_sdk.ContextWindow.SummaryLaws.{
  IgnoresMetadata, AreCopies, budgets-le, fitted-fits,
}

module _ (v : String → Bool) (hash : String → String) where
  -- How a compaction came about: the index of the suffix, the summary and the message made of it.
  record IsCompaction (p : SummarizingBudget) (max : ℕ) (estimate : Estimator) (ms : List Message)
      (r : PolicyResult) : Type 0 where
    start : ℕ
    summary : String
    sent : Message
    newest :
        newest_suffix_start ms
          (recent_budget max (summary_budget max p.max_summary_tokens))
          estimate
        ≡ ok start
    made :
        summary_message v hash p summary (summary_budget max p.max_summary_tokens) estimate
        ≡ ok sent
    result :
        r ≡ compacted v hash ms (prefix_at v hash ms start) (split_kept v hash (drop start ms)) sent

  compact-IsCompaction :
      (p : SummarizingBudget) (max : ℕ) (estimate : Estimator) (ms : List Message)
      (r : PolicyResult) (o : Option Summarizer)
      → p.summarizer ≡ o
      → compact v hash p max estimate ms ≡ ok r
      → IsCompaction p max estimate ms r
  unfolding compact
  compact-IsCompaction p max estimate ms r none e h = cc (rw (e, compact) at h)
  compact-IsCompaction p max estimate ms r (some summarize) e h =
      let budget = summary_budget max p.max_summary_tokens in
      let (start, f, g) =
        >>=-eq-ok (newest_suffix_start ms (recent_budget max budget) estimate) _
          (rw (e, compact) at h) in
      let (s, k, l) = >>=-eq-ok (summarized v hash (summarize (prefix_at v hash ms start))) _ g in
      let (sent, q, t) = >>=-eq-ok (summary_message v hash p s budget estimate) _ l in
      record { start = start; summary = s; sent = sent; newest = f; made = q; result = cc t }

  summary_message-fits :
      (p : SummarizingBudget) (s : String) (max : ℕ) (estimate : Estimator) (sent : Message)
      → IgnoresMetadata estimate
      → 0 < max
      → summary_message v hash p s max estimate ≡ ok sent
      → positive_part (estimate sent) ≤ max
  unfolding summary_message
  summary_message-fits p s max estimate sent st l h = elim (Bool-cases (trim_space s == "")) [
    | inl t ↦ cc (rw (t, summary_message) at h)
    | inr t ↦
        fitted-fits v hash (summary_of v hash p (trim_space s)) sent estimate max _ [] st l refl
          (rw (t, summary_message) at h)
  ]

  cost-split_kept-le :
      (estimate : Estimator) (ms : List Message)
      → AreCopies v ms
      → cost estimate (split_kept v hash ms) ≤ cost estimate ms
  unfolding split_kept
  cost-split_kept-le estimate [] c = omega arith
  cost-split_kept-le estimate (m ∷ ms) (e, c) =
      let same : estimate (clone_message v m) ≡ estimate m = ap estimate e in
      ground (arith, same, cost-split_kept-le estimate ms c)

  AreCopies-drop : (n : ℕ) (ms : List Message) → AreCopies v ms → AreCopies v (drop n ms)
  AreCopies-drop zero ms c = c
  AreCopies-drop (suc n) [] c = tt
  AreCopies-drop (suc n) (m ∷ ms) c = AreCopies-drop n ms c.1

  -- A compaction with a limit of at least 2 sends at most the limit, if estimates ignore metadata and
  -- the messages given are copies already, unless of the recent messages that it keeps whole only the
  -- first has a cost: then it sends at most the budget of the summary and the cost of that message.
  pub cost-compact :
      (p : SummarizingBudget) (max : ℕ) (estimate : Estimator) (ms : List Message)
      (r : PolicyResult)
      → 2 ≤ max
      → IgnoresMetadata estimate
      → AreCopies v ms
      → compact v hash p max estimate ms ≡ ok r
      → (cost estimate r.messages ≤ max)
        ⊎ ((s : ℕ) × (cost estimate (drop (suc s) ms) ≡ 0)
            × (cost estimate r.messages
                ≤ summary_budget max p.max_summary_tokens + cost estimate (drop s ms)))
  cost-compact p max estimate ms r two st copies h =
      let c = compact-IsCompaction p max estimate ms r p.summarizer refl h in
      let budget = summary_budget max p.max_summary_tokens in
      let (some_room, shares) = budgets-le max p.max_summary_tokens two in
      let newest =
        newest_suffix_start-IsNewestSuffix ms (recent_budget max budget) estimate c.start
          c.newest in
      let first = summary_message-fits p c.summary budget estimate c.sent st some_room c.made in
      let kept = cost-split_kept-le estimate (drop c.start ms) (AreCopies-drop c.start ms copies) in
      let sum : cost estimate r.messages
          ≡ positive_part (estimate c.sent) + cost estimate (split_kept v hash (drop c.start ms)) =
        ap (λ x. cost estimate x.messages) c.result in
      elim newest.fits [ inl f ↦ inl (omega arith) | inr z ↦ inr (c.start, z, omega arith) ]
