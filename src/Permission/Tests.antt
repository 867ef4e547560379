-- ===== src/Permission/Tests.antt =====
-- Tests of permission.go on a policy with one rule of each effect.
use Prim.Native.String.{◌++◌ as text_append}
use memax_go_agent_sdk.Prelude.{String, true, false, none, some, List, [], ◌∷◌, ◌≡◌, ◌≢◌, refl}
use memax_go_agent_sdk.Prelude.Int.{pos}
use memax_go_agent_sdk.Model.{ToolUse, ToolSpec}
use memax_go_agent_sdk.Permission.{
  Decision, Policy, Rule, ApprovalRequest, allow_rule, deny_rule, ask_rule, rule_matches,
  apply_rule, check, check_rules, tool_name, read_only_tool,
}
use memax_go_agent_sdk.Permission.Rules.{
  Allowance, check-allow_iff, check-first_match, check-reason,
}

abbrev quoted : String → String
quoted s = text_append "'" (text_append s "'")

abbrev call : ToolUse
call = record { id = "1"; name = "write"; input = "{}" }

abbrev writer : ToolSpec
writer = record {
  name = "write";
  description = "";
  search_hint = "";
  read_only = false;
  concurrency_safe = false;
  destructive = true;
  always_load = false;
  should_defer = false;
  max_result_bytes = pos 0;
}

abbrev consents : ApprovalRequest → Decision
consents r = record { allow = true; reason = "" }

abbrev rules : List Rule
rules =
    allow_rule (some read_only_tool)
    ∷ ask_rule (some (tool_name ("write" ∷ []))) "write?"
    ∷ deny_rule none "no"
    ∷ []

abbrev policy : Policy
policy = record {
  rules = rules;
  default = record { allow = false; reason = "" };
  approver = some consents;
}

abbrev unattended : Policy
unattended = record policy { approver = none }

unattended_reason : (check quoted unattended call writer).reason ≡ "tool 'write' requires approval"
unfolding check check_rules apply_rule allow_rule ask_rule deny_rule read_only_tool tool_name
unattended_reason = refl

check-allow_iff_example : Allowance policy policy.rules call writer
unfolding check check_rules apply_rule allow_rule ask_rule deny_rule read_only_tool tool_name
check-allow_iff_example = (check-allow_iff quoted policy call writer).0 refl

check-first_match_example :
    check quoted policy call writer
    ≡ check quoted
        (record policy { rules = ask_rule (some (tool_name ("write" ∷ []))) "write?" ∷ [] })
        call
        writer
unfolding rule_matches allow_rule ask_rule read_only_tool tool_name
check-first_match_example =
    check-first_match quoted policy (allow_rule (some read_only_tool) ∷ [])
      (deny_rule none "no" ∷ []) (ask_rule (some (tool_name ("write" ∷ []))) "write?") call writer
      (refl, tt) refl

check-reason_example : (check quoted unattended call writer).reason ≢ ""
unfolding check check_rules apply_rule allow_rule ask_rule deny_rule read_only_tool tool_name
check-reason_example = check-reason quoted unattended call writer refl
