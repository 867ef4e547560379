-- ===== src/Permission/Matchers.antt =====
-- The algebra of the matcher combinators of permission.go.
use memax_go_agent_sdk.Prelude.{
  Bool, true, false, Option, none, some, List, [], ◌∷◌, ◌≡◌, refl, arith,
}
use memax_go_agent_sdk.Model.{ToolUse, ToolSpec}
use memax_go_agent_sdk.Permission.{Matcher, all_of, any_of, negation}

-- A nil matcher counts as a match in All and as no match in AnyOf.
abbrev pub holds : Bool → Option Matcher → ToolUse → ToolSpec → Bool
holds absent none u s = absent
holds absent (some m) u s = m u s

-- The negation of every matcher of a list, as Not builds it.
abbrev negations : List (Option Matcher) → List (Option Matcher)
negations [] = []
negations (m ∷ ms) = some (negation m) ∷ negations ms

abbrev pub has_no_nil : List (Option Matcher) → Bool
has_no_nil [] = true
has_no_nil (none ∷ ms) = false
has_no_nil (some m ∷ ms) = has_no_nil ms

-- Not(AnyOf(...)) matches the same calls as All(Not(...), ...), with nil matchers too.
negation-any_of :
    (ms : List (Option Matcher)) (u : ToolUse) (s : ToolSpec)
    → negation (some (any_of ms)) u s ≡ all_of (negations ms) u s
unfolding negation any_of all_of
negation-any_of [] u s = refl
negation-any_of (none ∷ ms) u s = negation-any_of ms u s
negation-any_of (some m ∷ ms) u s = ground (arith, negation-any_of ms u s)

-- Not(All(...)) matches the same calls as AnyOf(Not(...), ...) if no matcher of the list is nil.
negation-all_of :
    (ms : List (Option Matcher)) (u : ToolUse) (s : ToolSpec)
    → has_no_nil ms ≡ true
    → negation (some (all_of ms)) u s ≡ any_of (negations ms) u s
unfolding negation any_of all_of
negation-all_of [] u s h = refl
negation-all_of (none ∷ ms) u s h = cc
negation-all_of (some m ∷ ms) u s h = ground (arith, negation-all_of ms u s)
