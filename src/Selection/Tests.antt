-- ===== src/Selection/Tests.antt =====
-- Tests of tool/selection.go on three tools.
use memax_go_agent_sdk.Prelude.{
  String, Bool, true, false, List, [], ◌∷◌, select, map, length, all, ◌==◌, ◌≡◌, ◌≤◌, ◌⊎◌, refl,
}
use memax_go_agent_sdk.Prelude.Int.{pos, is_positive}
use memax_go_agent_sdk.Prelude.Text.{trim_space}
use mathlib.Core.List.{Perm}
use memax_go_agent_sdk.Model.{ToolSpec}
use memax_go_agent_sdk.Selection.{
  select_specs, limit_preserving_always_load, offered_before, score_specs,
}
use memax_go_agent_sdk.Selection.Limits.{always_loaded, select_specs-keeps_always}

abbrev tool : String → Bool → Bool → ToolSpec
tool name always deferred = record {
  name = name;
  description = "";
  search_hint = "";
  read_only = false;
  concurrency_safe = false;
  destructive = false;
  always_load = always;
  should_defer = deferred;
  max_result_bytes = pos 0;
}

abbrev tools : List ToolSpec
tools = tool "shell" false false ∷ tool "read" true false ∷ tool "deploy" false true ∷ []

-- Lower-case texts of one word, for which these agree with the functions of Go's strings.
abbrev as_it_is : String → String
as_it_is s = s

abbrev same_text : String → String → Bool
same_text text token = text == token

abbrev one_field : String → List String
one_field s = s ∷ []

offered :
    map
      (λ (s : ToolSpec). s.name)
      (select_specs as_it_is same_text one_field tools "deploy" (pos 2))
    ≡ "read" ∷ "deploy" ∷ []
unfolding select_specs score_specs limit_preserving_always_load offered_before trim_space
offered = refl

select_specs-keeps_always_example :
    Perm
      (select always_loaded (select_specs as_it_is same_text one_field tools "deploy" (pos 2)))
      (select always_loaded tools)
    × (is_positive (pos 2) ≡ true
        → (length (select_specs as_it_is same_text one_field tools "deploy" (pos 2)) ≤ 2)
          ⊎ (all always_loaded (select_specs as_it_is same_text one_field tools "deploy" (pos 2))
              ≡ true))
select_specs-keeps_always_example =
    select_specs-keeps_always as_it_is same_text one_field tools "deploy" (pos 2)
