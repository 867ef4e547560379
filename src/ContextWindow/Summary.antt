-- ===== src/ContextWindow/Summary.antt =====
-- contextwindow/policy.go: SummarizingBudget. `hash_text` is the hex SHA-256 of a text; the host's
-- summarizer is a function of the messages that may fail.
use Prim.Native.String.{◌++◌ as text_append}
use memax_go_agent_sdk.Prelude.{
  ℕ, suc, ◌-◌, ◌/◌, Bool, true, not, ◌&&◌, ◌||◌, Option, none, some, List, [], ◌∷◌, ◌++◌, ltb, leb,
  eqb, if◌then◌else◌, Result, ok, err, ◌>>=◌, String, ◌==◌, length, take, drop, insert,
}
use memax_go_agent_sdk.Prelude.Int.{ℤ, pos, negsuc, lt_int, is_positive, positive_part}
use memax_go_agent_sdk.Prelude.Text.{trim_space}
use memax_go_agent_sdk.Model.{
  Role, user, text, Message, flag, word, bool_value, string_value, plain_text, clone_message,
  clone_messages,
}
use memax_go_agent_sdk.ContextWindow.{
  Error, max_tokens_not_positive, negative_estimate, summarizer_required, empty_summary,
  summarize_failed, Estimator,
}
use memax_go_agent_sdk.ContextWindow.Suffix.{
  newest_suffix_start, estimate_messages, estimator_or_default,
}
use memax_go_agent_sdk.ContextWindow.Truncation.{take_runes, rune_count, truncate_text_message}

abbrev pub Summarizer : Type 0
Summarizer = List Message → Result String String

-- An absent role or prefix is the empty string.
pub record SummarizingBudget : Type 0 where
  pub max_tokens : ℤ
  pub trigger_tokens : ℤ
  pub max_summary_tokens : ℤ
  pub estimate : Option Estimator
  pub summarizer : Option Summarizer
  pub summary_role : Option Role
  pub summary_prefix : String

pub record CompactionRecord : Type 0 where
  pub policy : String
  pub reason : String
  pub original_messages : ℕ
  pub sent_messages : ℕ
  pub summarized_messages : ℕ
  pub retained_messages : ℕ
  pub replaced_summaries : ℕ
  pub summary_hash : String
  pub summary_preview : String

pub record PolicyResult : Type 0 where
  pub messages : List Message
  pub compaction : Option CompactionRecord

unfoldable pub is_summary_message : Message → Bool
is_summary_message m = bool_value m.metadata "context_summary"

unfoldable pub count_summary_messages : List Message → ℕ
count_summary_messages [] = 0
count_summary_messages (m ∷ ms) =
    if is_summary_message m then suc (count_summary_messages ms) else count_summary_messages ms

-- triggerTokens, for a MaxTokens that is positive.
unfoldable pub trigger_tokens_of : ℕ → ℤ → ℕ
trigger_tokens_of max trigger = if lt_int (pos max) trigger then positive_part trigger else max

-- summaryBudget
unfoldable pub summary_budget : ℕ → ℤ → ℕ
summary_budget max max_summary =
    let s = positive_part max_summary in
    if is_positive max_summary
    then (if leb max 1 then 1 else if leb max s && ltb 1 max then max - 1 else s)
    else if ltb (max / 4) 1
    then 1
    else max / 4

-- MaxTokens - summaryBudget, but at least 1.
unfoldable pub recent_budget : ℕ → ℕ → ℕ
recent_budget max budget = if ltb (max - budget) 1 then 1 else max - budget

unfoldable pub preview_text : String → ℕ → String
preview_text s max =
    if eqb max 0
    then ""
    else (let t = trim_space s in if leb (rune_count t) max then t else take_runes max t)

module _ (json_valid : String → Bool) (hash_text : String → String) where
  -- splitSummaryMessages: the kept ones and the summaries.
  unfoldable pub split_kept : List Message → List Message
  split_kept [] = []
  split_kept (m ∷ ms) =
      if is_summary_message m then split_kept ms else clone_message json_valid m ∷ split_kept ms

  unfoldable pub split_summaries : List Message → List Message
  split_summaries [] = []
  split_summaries (m ∷ ms) =
      if is_summary_message m
      then clone_message json_valid m ∷ split_summaries ms
      else split_summaries ms

  abbrev pub rehashed : Message → Message
  rehashed m = record m {
    metadata = insert "context_summary_hash" (word (hash_text (plain_text m))) m.metadata;
  }

  abbrev pub summary_of : SummarizingBudget → String → Message
  summary_of p summary =
      let prefix =
        (if p.summary_prefix == "" then "Previous conversation summary:\n" else p.summary_prefix) in
      let full = text_append prefix summary in
      record {
        id = "";
        role = elim p.summary_role [ none ↦ user | some r ↦ r ];
        content =
            record { type = text; text = full; tool_use = none; provider_artifact = none } ∷ [];
        tool_result = none;
        metadata =
            ("context_summary", flag true)
            ∷ ("context_summary_hash", word (hash_text full))
            ∷ ("context_policy", word "SummarizingBudget")
            ∷ [];
      }

  -- The message as it is, or cut to the budget.
  unfoldable pub fitted : Message → ℕ → Estimator → Result Error Message
  fitted m max estimate = elim (estimate m) [
    | negsuc k ↦ err negative_estimate
    | pos count ↦
        if eqb max 0 || leb count max
        then ok m
        else (truncate_text_message json_valid m max estimate >>= λ cut. ok (rehashed cut))
  ]

  unfoldable pub summary_message : SummarizingBudget → String → ℕ → Estimator → Result Error Message
  unfolding fitted
  summary_message p summary max estimate =
      let s = trim_space summary in
      if s == "" then err empty_summary else fitted (summary_of p s) max estimate

  abbrev pub summarized : Result String String → Result Error String
  summarized (ok s) = ok s
  summarized (err e) = err (summarize_failed e)

  -- What is returned once the split is known.
  abbrev pub compacted : List Message → List Message → List Message → Message → PolicyResult
  compacted ms prefix recent summary = record {
    messages = summary ∷ recent;
    compaction = some (record {
      policy = "SummarizingBudget";
      reason = "budget";
      original_messages = length ms;
      sent_messages = length (summary ∷ recent);
      summarized_messages = length prefix;
      retained_messages = 0;
      replaced_summaries = count_summary_messages ms;
      summary_hash = string_value summary.metadata "context_summary_hash";
      summary_preview = preview_text (plain_text summary) 200;
    });
  }

  -- The messages given to the summarizer for a suffix from `start` on.
  abbrev pub prefix_at : List Message → ℕ → List Message
  prefix_at ms start = clone_messages json_valid (take start ms) ++ split_summaries (drop start ms)

  -- ApplyWithResult past the trigger.
  unfoldable pub compact :
      SummarizingBudget → ℕ → Estimator → List Message → Result Error PolicyResult
  compact p max estimate ms = elim p.summarizer [
    | none ↦ err summarizer_required
    | some summarize ↦
        let budget = summary_budget max p.max_summary_tokens in
        (newest_suffix_start ms (recent_budget max budget) estimate >>= λ start.
        (summarized (summarize (prefix_at ms start)) >>= λ s.
        (summary_message p s budget estimate >>= λ summary.
        ok (compacted ms (prefix_at ms start) (split_kept (drop start ms)) summary))))
  ]

  -- SummarizingBudget.ApplyWithResult
  unfoldable pub apply_summarizing_budget :
      SummarizingBudget → List Message → Result Error PolicyResult
  unfolding compact
  apply_summarizing_budget p ms =
      let estimate = estimator_or_default p.estimate in
      let max = positive_part p.max_tokens in
      if not (is_positive p.max_tokens)
      then err max_tokens_not_positive
      else (estimate_messages ms estimate >>= λ total.
          if leb total (trigger_tokens_of max p.trigger_tokens)
          then ok (record { messages = clone_messages json_valid ms; compaction = none })
          else compact p max estimate ms)
