-- ===== src/ContextWindow/Truncation.antt =====
-- contextwindow/policy.go: truncateTextMessage, a binary search for the longest text that fits.
use memax_go_agent_sdk.Prelude.{
  ℕ, zero, suc, ◌+◌, ◌-◌, ◌/◌, Bool, true, false, Option, none, some, List, [], ◌∷◌, ltb, leb,
  if◌then◌else◌, Result, ok, err, ◌>>=◌, String, ◌==◌,
}
use memax_go_agent_sdk.Prelude.Int.{ℤ, pos, negsuc}
use memax_go_agent_sdk.Prelude.Text.{trim_space}
use memax_go_agent_sdk.Model.{Message, ContentBlock, clone_content_blocks}
use memax_go_agent_sdk.ContextWindow.{
  Error, negative_estimate, summary_cannot_fit, out_of_fuel, Estimator,
}

-- []rune(s)[:n] as text, and the number of runes.
abbrev pub take_runes : ℕ → String → String
take_runes zero s = ""
take_runes (suc n) String.[] = ""
take_runes (suc n) (String.◌∷◌ c s) = String.◌∷◌ c (take_runes n s)

abbrev pub rune_count : String → ℕ
rune_count String.[] = 0
rune_count (String.◌∷◌ c s) = suc (rune_count s)

-- The loop over low and high, with `above` for high + 1; `count` estimates the candidate of a length.
unfoldable pub search_loop : (ℕ → ℤ) → ℕ → ℕ → ℕ → ℕ → Option ℕ → Result Error (Option ℕ)
search_loop count max zero low above best = err out_of_fuel
search_loop count max (suc fuel) low above best =
    let mid = low + (above - 1 - low) / 2 in
    elim (ltb low above) [
      | false ↦ ok best
      | true ↦ elim (count mid) [
        | negsuc k ↦ err negative_estimate
        | pos c ↦ elim (leb c max) [
          | true ↦ search_loop count max fuel (mid + 1) above (some mid)
          | false ↦ search_loop count max fuel low mid best
        ]
      ]
    ]

-- The first block's text replaced in a copy of the content.
abbrev pub with_text : (String → Bool) → Message → String → Message
with_text json_valid m t = record m {
  content = elim (clone_content_blocks json_valid m.content) [
    | [] ↦ []
    | b ∷ bs ↦ record b { text = t } ∷ bs
  ];
}

abbrev pub first_text : List ContentBlock → String
first_text [] = ""
first_text (b ∷ bs) = b.text

abbrev pub candidate_count : (String → Bool) → Estimator → Message → ℕ → ℤ
candidate_count json_valid estimate m n =
    estimate (with_text json_valid m (take_runes n (first_text m.content)))

-- What follows the search: no length fits, or the text that does is blank.
abbrev pub cut_at : (String → Bool) → Message → Option ℕ → Result Error Message
cut_at json_valid m none = err summary_cannot_fit
cut_at json_valid m (some best) =
    let t = take_runes best (first_text m.content) in
    if trim_space t == "" then err summary_cannot_fit else ok (with_text json_valid m t)

unfoldable pub truncate_text_message :
    (String → Bool) → Message → ℕ → Estimator → Result Error Message
truncate_text_message json_valid m max estimate = elim m.content [
  | [] ↦ ok m
  | b ∷ bs ↦ do
    best ←
        search_loop (candidate_count json_valid estimate m) max (suc (suc (rune_count b.text))) 0
          (suc (rune_count b.text)) none
    cut_at json_valid m best
]
