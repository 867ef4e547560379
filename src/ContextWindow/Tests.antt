-- ===== src/ContextWindow/Tests.antt =====
-- Tests of the context policies, with the length of a text as its cost.
use memax_go_agent_sdk.Prelude.{
  ℕ, suc, lookup, insert, ◌+◌, ◌≤◌, String, Bool, true, none, some, List, [], ◌∷◌, ◌≡◌, refl, ◌⊎◌,
  arith, ok, drop,
}
use memax_go_agent_sdk.Prelude.Int.{pos}
use memax_go_agent_sdk.Prelude.Text.{trim_space}
use memax_go_agent_sdk.Model.{
  Role, Message, ContentBlock, user, assistant, tool, text, clone_message, clone_messages, flag,
  word, bool_value, string_value, plain_text,
}
use memax_go_agent_sdk.ContextWindow.{Estimator, estimate_by_runes}
use memax_go_agent_sdk.ContextWindow.Suffix.{
  apply_token_budget, apply_recent_messages, newest_suffix_start,
}
use memax_go_agent_sdk.ContextWindow.SuffixLaws.{cost, IsNewestSuffix}
use memax_go_agent_sdk.ContextWindow.TokenBudget.{apply_token_budget-IsNewestSuffix}
use memax_go_agent_sdk.ContextWindow.Truncation.{rune_count, truncate_text_message, search_loop}
use memax_go_agent_sdk.ContextWindow.Summary.{
  SummarizingBudget, PolicyResult, is_summary_message, summary_budget, compact, summary_message,
  recent_budget, split_kept, split_summaries, count_summary_messages, preview_text,
}
use memax_go_agent_sdk.ContextWindow.SummaryLaws.{IgnoresMetadata}
use memax_go_agent_sdk.ContextWindow.Compaction.{cost-compact}

abbrev valid : String → Bool
valid s = true

abbrev hash : String → String
hash s = "h"

abbrev message : Role → String → Message
message r t = record {
  id = "";
  role = r;
  content = record { type = text; text = t; tool_use = none; provider_artifact = none } ∷ [];
  tool_result = none;
  metadata = [];
}

abbrev block_runes : List ContentBlock → ℕ
block_runes [] = 0
block_runes (b ∷ bs) = rune_count b.text + block_runes bs

abbrev runes : Estimator
runes m = pos (block_runes m.content)

abbrev transcript : List Message
transcript =
    message user "aaaaaaaaaa"
    ∷ message assistant "bbbbb"
    ∷ message tool "cc"
    ∷ message user "ddd"
    ∷ []

recent_three : apply_recent_messages valid (pos 2) transcript ≡ ok (message user "ddd" ∷ [])
unfolding apply_recent_messages clone_messages
recent_three = refl

apply_token_budget-IsNewestSuffix_example :
    (s : ℕ) × (apply_token_budget valid (pos 6) (some runes) transcript
      ≡ ok (clone_messages valid (drop s transcript)))
    × IsNewestSuffix runes 6 transcript s
apply_token_budget-IsNewestSuffix_example =
    apply_token_budget-IsNewestSuffix valid 6 (some runes) transcript (omega arith)
      (refl, (refl, (refl, (refl, tt))))

abbrev budget : SummarizingBudget
budget = record {
  max_tokens = pos 12;
  trigger_tokens = pos 0;
  max_summary_tokens = pos 6;
  estimate = some runes;
  summarizer = some (λ ms. ok "talked a lot");
  summary_role = none;
  summary_prefix = ">";
}

abbrev sent : PolicyResult
sent = record {
  messages =
      record {
        id = "";
        role = user;
        content =
            record { type = text; text = ">talke"; tool_use = none; provider_artifact = none } ∷ [];
        tool_result = none;
        metadata =
            ("context_summary", flag true)
            ∷ ("context_summary_hash", word "h")
            ∷ ("context_policy", word "SummarizingBudget")
            ∷ [];
      }
      ∷ message user "ddd"
      ∷ [];
  compaction = some (record {
    policy = "SummarizingBudget";
    reason = "budget";
    original_messages = 4;
    sent_messages = 2;
    summarized_messages = 3;
    retained_messages = 0;
    replaced_summaries = 0;
    summary_hash = "h";
    summary_preview = ">talke";
  });
}

compact-transcript : compact valid hash budget 12 runes transcript ≡ ok sent
unfolding compact summary_message truncate_text_message search_loop newest_suffix_start
    summary_budget recent_budget split_kept split_summaries clone_messages is_summary_message
    count_summary_messages preview_text trim_space insert lookup bool_value string_value plain_text
compact-transcript = refl

-- The package's own estimator ignores metadata.
default-IgnoresMetadata : IgnoresMetadata estimate_by_runes
unfolding estimate_by_runes
default-IgnoresMetadata m d = refl

cost-compact_example :
    (cost runes sent.messages ≤ 12)
    ⊎ ((s : ℕ) × (cost runes (drop (suc s) transcript) ≡ 0)
        × (cost runes sent.messages ≤ summary_budget 12 (pos 6) + cost runes (drop s transcript)))
unfolding clone_message
cost-compact_example =
    cost-compact valid hash budget 12 runes transcript sent (omega arith) (λ m d. refl)
      (refl, (refl, (refl, (refl, tt)))) compact-transcript
