-- ===== src/ContextWindow.antt =====
-- contextwindow/policy.go: policies that cut a transcript to a budget. Token counts are Go's ints;
-- once an estimate is known not to be negative it is a natural number.
pub mod Suffix
pub mod SuffixLaws
pub mod TokenBudget
pub mod Truncation
pub mod TruncationLaws
pub mod Summary
pub mod SummaryLaws
pub mod Compaction
pub mod Tests
use Prim.Native.String.{count, len}
use memax_go_agent_sdk.Prelude.{
  ℕ, zero, suc, ◌+◌, String, Bool, true, false, not, ◌&&◌, ◌||◌, Option, none, some, List, [], ◌∷◌,
  if◌then◌else◌,
}
use memax_go_agent_sdk.Prelude.Int.{ℤ, pos, negsuc}
use memax_go_agent_sdk.Model.{ContentBlock, ToolUse, ToolResult, ProviderArtifact, Message}

-- The errors, by their message.
pub data Error : Type 0 where
  max_messages_not_positive max_tokens_not_positive negative_estimate : Error
  summarizer_required empty_summary summary_cannot_fit : Error
  summarize_failed : String → Error
  -- The fuel of the binary search, which is never used up.
  out_of_fuel : Error
  -- Go's panic on an index out of range.
  index_out_of_range : Error

abbrev pub Estimator : Type 0
Estimator = Message → ℤ

-- EstimateByRunes
estimate_block : ContentBlock → ℕ
estimate_block b =
    count b.text
    + (elim b.tool_use [ none ↦ 0 | some u ↦ count u.name + len u.input ])
    + (elim b.provider_artifact [
      | none ↦ 0
      | some a ↦ count a.provider + count a.type + count a.id + len a.payload
    ])

estimate_blocks : List ContentBlock → ℕ
unfolding estimate_block
estimate_blocks [] = 0
estimate_blocks (b ∷ bs) = estimate_block b + estimate_blocks bs

unfoldable pub estimate_by_runes : Estimator
unfolding estimate_blocks
estimate_by_runes m = pos (
    estimate_blocks m.content
    + (elim m.tool_result [ none ↦ 0 | some r ↦ count r.name + count r.content ]))
