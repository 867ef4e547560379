-- ===== src/ContextWindow/SummaryLaws.antt =====
-- What a compaction by SummarizingBudget costs.
use memax_go_agent_sdk.Prelude.{
  All, ℕ, zero, suc, ◌+◌, ◌-◌, ◌/◌, ◌≤◌, ◌<◌, Bool, true, ◌||◌, Option, none, some, List, ◌∷◌, ◌≡◌,
  refl, inl, inr, ltb, leb, eqb, ok, ◌>>=◌, >>=-eq-ok, String, ◌==◌, arith, Bool-cases, subst,
}
use memax_go_agent_sdk.Prelude.Int.{ℤ, pos, negsuc, positive_part}
use memax_go_agent_sdk.Prelude.Text.{trim_space}
use memax_go_agent_sdk.Model.{Message, Metadata, ContentBlock, clone_message}
use memax_go_agent_sdk.ContextWindow.{Estimator}
use memax_go_agent_sdk.ContextWindow.Truncation.{
  search_loop, candidate_count, cut_at, with_text, first_text, take_runes, rune_count,
  truncate_text_message,
}
use memax_go_agent_sdk.ContextWindow.TruncationLaws.{FitsAt}
use memax_go_agent_sdk.ContextWindow.Summary.{summary_budget, recent_budget, rehashed, fitted}

-- The estimate does not depend on the metadata of a message.
abbrev pub IgnoresMetadata : Estimator → Type 0
IgnoresMetadata estimate =
    (m : Message) (d : Metadata) → estimate (record m { metadata = d }) ≡ estimate m

-- Copying leaves the messages as they are, as it does with those that the session store returns.
abbrev pub AreCopies : (String → Bool) → List Message → Type 0
AreCopies v ms = All (λ m. clone_message v m ≡ m) ms

-- The two budgets share the whole, if it is at least 2.
pub budgets-le :
    (max : ℕ) (max_summary : ℤ)
    → 2 ≤ max
    → (0 < summary_budget max max_summary)
      × (summary_budget max max_summary + recent_budget max (summary_budget max max_summary) ≤ max)
unfolding summary_budget recent_budget
budgets-le max (negsuc k) h = (ground arith, ground arith)
budgets-le max (pos zero) h = (ground arith, ground arith)
budgets-le max (pos (suc n)) h = (ground arith, ground arith)

abbrev FitsOrNone : (ℕ → ℤ) → ℕ → Option ℕ → Type 0
FitsOrNone count max none = Unit
FitsOrNone count max (some b) = FitsAt count max b

search_fit_step :
    (count : ℕ → ℤ) (max fuel low above : ℕ) (best r : Option ℕ) (v : ℤ)
    → ((l a : ℕ) (b : Option ℕ)
        → FitsOrNone count max b
        → search_loop count max fuel l a b ≡ ok r
        → FitsOrNone count max r)
    → ltb low above ≡ true
    → count (low + (above - 1 - low) / 2) ≡ v
    → FitsOrNone count max best
    → search_loop count max (suc fuel) low above best ≡ ok r
    → FitsOrNone count max r
unfolding search_loop
search_fit_step count max fuel low above best r (negsuc k) ih t e f h =
    cc (rw (t, e, search_loop) at h)
search_fit_step count max fuel low above best r (pos c) ih t e f h =
    let mid = low + (above - 1 - low) / 2 in
    elim (Bool-cases (leb c max)) [
      | inl g ↦ ih (mid + 1) above (some mid) (c, e, ground arith) (rw (t, e, g, search_loop) at h)
      | inr g ↦ ih low mid best f (rw (t, e, g, search_loop) at h)
    ]

search_loop-Fits :
    (count : ℕ → ℤ) (max fuel low above : ℕ) (best r : Option ℕ)
    → FitsOrNone count max best
    → search_loop count max fuel low above best ≡ ok r
    → FitsOrNone count max r
unfolding search_loop
search_loop-Fits count max zero low above best r f h = cc
search_loop-Fits count max (suc fuel) low above best r f h = elim (Bool-cases (ltb low above)) [
  | inl t ↦
      search_fit_step count max fuel low above best r (count (low + (above - 1 - low) / 2))
        (λ l a b. search_loop-Fits count max fuel l a b r) t refl f h
  | inr t ↦ let e : best ≡ r = ground arith in subst (FitsOrNone count max) e f
]

cut_at-fits :
    (v : String → Bool) (m cut : Message) (estimate : Estimator) (max : ℕ) (r : Option ℕ)
    → FitsOrNone (candidate_count v estimate m) max r
    → cut_at v m r ≡ ok cut
    → positive_part (estimate cut) ≤ max
cut_at-fits v m cut estimate max none f h = cc
cut_at-fits v m cut estimate max (some b) (c, e, l) h =
    elim (Bool-cases (trim_space (take_runes b (first_text m.content)) == "")) [
      | inl t ↦ cc (rw t at h)
      | inr t ↦
          let cut_eq : with_text v m (take_runes b (first_text m.content)) ≡ cut = cc (rw t at h) in
          subst (λ x. positive_part (estimate x) ≤ max) cut_eq (rw e l)
    ]

truncate-fits :
    (v : String → Bool) (m cut : Message) (estimate : Estimator) (max : ℕ) (b : ContentBlock)
    (bs : List ContentBlock)
    → m.content ≡ b ∷ bs
    → truncate_text_message v m max estimate ≡ ok cut
    → positive_part (estimate cut) ≤ max
unfolding truncate_text_message
truncate-fits v m cut estimate max b bs e h =
    let (r, f, g) =
      >>=-eq-ok
        (search_loop (candidate_count v estimate m) max (suc (suc (rune_count b.text))) 0
          (suc (rune_count b.text)) none)
        (cut_at v m) (ground arith) in
    cut_at-fits v m cut estimate max r
      (search_loop-Fits (candidate_count v estimate m) max _ 0 _ none r tt f) g

-- The message that is sent fits the budget, cut or not.
pub fitted-fits :
    (v : String → Bool) (hash : String → String) (m sent : Message) (estimate : Estimator) (max : ℕ)
    (b : ContentBlock) (bs : List ContentBlock)
    → IgnoresMetadata estimate
    → 0 < max
    → m.content ≡ b ∷ bs
    → fitted v hash m max estimate ≡ ok sent
    → positive_part (estimate sent) ≤ max
unfolding fitted
fitted-fits v hash m sent estimate max b bs st p e h = at_estimate (estimate m) refl
  where
    cut_case :
        (truncate_text_message v m max estimate >>= λ cut. ok (rehashed v hash cut)) ≡ ok sent
        → positive_part (estimate sent) ≤ max
    cut_case k =
        let (cut, f, g) = >>=-eq-ok (truncate_text_message v m max estimate) _ k in
        let same : estimate (rehashed v hash cut) ≡ estimate cut = st cut _ in
        let sent_eq : rehashed v hash cut ≡ sent = cc g in
        subst (λ x. positive_part (estimate x) ≤ max) sent_eq
          (rw same (truncate-fits v m cut estimate max b bs e f))

    at_estimate : (n : ℤ) → estimate m ≡ n → positive_part (estimate sent) ≤ max
    at_estimate (negsuc k) q = cc (rw (q, fitted) at h)
    at_estimate (pos c) q = elim (Bool-cases (eqb max 0 || leb c max)) [
      | inl t ↦
          let sent_eq : m ≡ sent = cc (rw (q, t, fitted) at h) in
          subst (λ x. positive_part (estimate x) ≤ max) sent_eq (rw q (ground arith))
      | inr t ↦ cut_case (rw (q, t, fitted) at h)
    ]
