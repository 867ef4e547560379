-- ===== src/Selection.antt =====
-- tool/selection.go: which tools are offered to the model. `lower` stands for strings.ToLower,
-- `contains_text` for strings.Contains, and `fields` for strings.FieldsFunc on what is neither a
-- letter nor a digit.
use Prim.Native.String.{◌++◌ as text_append, len}
use memax_go_agent_sdk.Prelude.{
  ℕ, zero, suc, ◌+◌, ◌-◌, String, Bool, true, false, not, ◌&&◌, ◌||◌, Option, none, some, List, [],
  ◌∷◌, ◌++◌, length, take, select, map, contains, ltb, leb, eqb, ◌==◌, if◌then◌else◌,
}
use memax_go_agent_sdk.Prelude.Int.{ℤ, positive_part, is_positive}
use memax_go_agent_sdk.Prelude.Text.{trim_space}
use memax_go_agent_sdk.Prelude.Sort.{stable_sort}
use memax_go_agent_sdk.Model.{Message, ToolSpec, plain_text}
pub mod Limits
pub mod Tests

pub record ScoredSpec : Type 0 where
  pub spec : ToolSpec
  pub score : ℕ
  pub index : ℕ

-- What one message adds to the query of QueryFromMessages.
unfoldable pub query_of : Message → String
query_of m = elim m.tool_result [
  | some r ↦ text_append " " (text_append r.name (text_append " " r.content))
  | none ↦ let text = plain_text m in if text == "" then "" else text_append " " text
]

-- QueryFromMessages
unfoldable pub query_from_messages : List Message → String
unfolding query_of
query_from_messages [] = ""
query_from_messages (m ∷ ms) = text_append (query_of m) (query_from_messages ms)

-- The loop of tokenize, by what is seen.
unfoldable pub distinct_tokens : List String → List String → List String
distinct_tokens seen [] = []
distinct_tokens seen (field ∷ fields) =
    if ltb (len field) 2
    then distinct_tokens seen fields
    else if contains seen field
    then distinct_tokens seen fields
    else field ∷ distinct_tokens (field ∷ seen) fields

-- The loop of SelectSpecs: what is offered at all.
abbrev pub is_offered : ScoredSpec → Bool
is_offered s = s.spec.always_load || (ltb 1 s.score || not s.spec.should_defer)

-- The order of SelectSpecs.
unfoldable pub offered_before : ScoredSpec → ScoredSpec → Bool
offered_before left right =
    if left.spec.always_load && not right.spec.always_load
    then true
    else if not left.spec.always_load && right.spec.always_load
    then false
    else if not (eqb left.score right.score)
    then ltb right.score left.score
    else ltb left.index right.index

-- The order of SearchSpecs.
unfoldable pub found_before : ScoredSpec → ScoredSpec → Bool
found_before left right =
    if not (eqb left.score right.score)
    then ltb right.score left.score
    else ltb left.index right.index

abbrev pub is_always : ScoredSpec → Bool
is_always s = s.spec.always_load

abbrev pub is_other : ScoredSpec → Bool
is_other s = not s.spec.always_load

-- limitPreservingAlwaysLoad, for a limit that is positive.
unfoldable pub limit_preserving_always_load : List ScoredSpec → ℕ → List ScoredSpec
limit_preserving_always_load items max_tools =
    let always = select is_always items in
    let rest = select is_other items in
    if leb (length items) max_tools
    then items
    else if leb max_tools (length always)
    then always
    else always ++ take (max_tools - length always) rest

abbrev pub specs_of : List ScoredSpec → List ToolSpec
specs_of items = map (λ (s : ScoredSpec). s.spec) items

module _ (lower : String → String) (contains_text : String → String → Bool)
    (fields : String → List String) where
  -- tokenize
  unfoldable pub tokenize : String → List String
  unfolding distinct_tokens
  tokenize query = distinct_tokens [] (fields (lower query))

  -- The loop of scoreSpec over the tokens.
  unfoldable pub token_score : String → String → List String → ℕ
  token_score name text [] = 0
  token_score name text (t ∷ ts) =
      let rest = token_score name text ts in
      if t == ""
      then rest
      else (if contains_text name t then 3 else 0)
        + ((if contains_text text t then 1 else 0) + rest)

  -- scoreSpec
  unfoldable pub score_spec : ToolSpec → String → List String → ℕ
  unfolding token_score
  score_spec spec query [] = 0
  score_spec spec query (t ∷ ts) =
      let name = lower spec.name in
      let text = lower (
        text_append spec.name
          (text_append " " (text_append spec.description (text_append " " spec.search_hint)))) in
      let normalized = lower (trim_space query) in
      token_score name text (t ∷ ts)
      + (if not (normalized == "") && contains_text text normalized then 5 else 0)

  -- The loop of scoreSpecs, from an index on.
  unfoldable pub score_from : ℕ → List ToolSpec → String → List String → List ScoredSpec
  unfolding score_spec
  score_from i [] query tokens = []
  score_from i (spec ∷ specs) query tokens =
      record { spec = spec; score = score_spec spec query tokens; index = i }
      ∷ score_from (suc i) specs query tokens

  -- scoreSpecs
  unfoldable pub score_specs : List ToolSpec → String → List ScoredSpec
  unfolding tokenize score_from
  score_specs specs query = score_from 0 specs query (tokenize query)

  -- SelectSpecs
  unfoldable pub select_specs : List ToolSpec → String → ℤ → List ToolSpec
  select_specs specs query max_tools =
      let sorted = stable_sort offered_before (select is_offered (score_specs specs query)) in
      specs_of (
        if is_positive max_tools
        then limit_preserving_always_load sorted (positive_part max_tools)
        else sorted)

  -- SearchSpecs
  unfoldable pub search_specs : List ToolSpec → String → ℤ → List ToolSpec
  search_specs specs query limit =
      let found =
        stable_sort found_before
          (select (λ (s : ScoredSpec). ltb 0 s.score) (score_specs specs query)) in
      specs_of (
        if is_positive limit && ltb (positive_part limit) (length found)
        then take (positive_part limit) found
        else found)
