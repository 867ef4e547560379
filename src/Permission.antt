-- ===== src/Permission.antt =====
-- permission/permission.go: ordered rules over tool calls. `quote` is the %q of fmt; `glob` is
-- path.Match, none for a malformed pattern; `decode` is json.Unmarshal into an object, none on error.
pub mod Matchers
pub mod Rules
pub mod Tests
use Prim.Native.String.{◌++◌ as text_append}
use memax_go_agent_sdk.Prelude.{
  String, Bool, true, false, not, ◌&&◌, ◌||◌, Option, none, some, List, [], ◌∷◌, any, contains,
  Dict, lookup, ◌==◌, if◌then◌else◌,
}
use memax_go_agent_sdk.Model.{ToolUse, ToolSpec, Value, word}

-- tool.Decision
pub record Decision : Type 0 where
  pub allow : Bool
  pub reason : String

-- A nil interface is none. Host matchers are any functions of the call.
abbrev pub Matcher : Type 0
Matcher = ToolUse → ToolSpec → Bool

pub data Effect : Type 0 where
  allow deny ask : Effect
  other_effect : String → Effect

pub record Rule : Type 0 where
  pub effect : Effect
  pub matcher : Option Matcher
  pub reason : String
  pub message : String

pub record ApprovalRequest : Type 0 where
  pub use_ : ToolUse
  pub spec : ToolSpec
  pub message : String

abbrev pub Approver : Type 0
Approver = ApprovalRequest → Decision

pub record Policy : Type 0 where
  pub rules : List Rule
  pub default : Decision
  pub approver : Option Approver

-- Allow, Deny, Ask
unfoldable pub allow_rule : Option Matcher → Rule
allow_rule m = record { effect = allow; matcher = m; reason = ""; message = "" }

unfoldable pub deny_rule : Option Matcher → String → Rule
deny_rule m r = record { effect = deny; matcher = m; reason = r; message = "" }

unfoldable pub ask_rule : Option Matcher → String → Rule
ask_rule m s = record { effect = ask; matcher = m; reason = ""; message = s }

-- AllowAll.Check, ReadOnly.Check
unfoldable pub check_all : ToolUse → ToolSpec → Decision
check_all u s = record { allow = true; reason = "" }

abbrev pub refused : String → Decision
refused r = record { allow = false; reason = r }

-- The rule's matcher, Any() for nil.
unfoldable pub rule_matches : Rule → Matcher
rule_matches r u s = elim r.matcher [ none ↦ true | some m ↦ m u s ]

pub denial : Rule → String → Decision
denial r fallback = if not (r.reason == "") then refused r.reason else refused fallback

module _ (quote : String → String) where
  abbrev tool_text : ToolUse → String → String
  tool_text u rest = text_append "tool " (text_append (quote u.name) rest)

  unfoldable pub check_read_only : ToolUse → ToolSpec → Decision
  check_read_only u s =
      if s.read_only && not s.destructive
      then record { allow = true; reason = "" }
      else refused (tool_text u " is not read-only")

  -- The approver's answer, with a reason where it refuses without one.
  abbrev pub approved : ToolUse → Decision → Decision
  approved u d =
      if not d.allow && d.reason == ""
      then record d { reason = tool_text u " was not approved" }
      else d

  unfoldable pub apply_rule : Policy → Rule → ToolUse → ToolSpec → Decision
  unfolding denial
  apply_rule p r u s = elim r.effect [
    | allow ↦ record { allow = true; reason = "" }
    | deny ↦ denial r (tool_text u " denied by policy")
    | ask ↦ elim p.approver [
      | none ↦ denial r (tool_text u " requires approval")
      | some a ↦ approved u (a (record { use_ = u; spec = s; message = r.message }))
    ]
    | other_effect e ↦
        denial r (tool_text u (text_append " matched invalid permission effect " (quote e)))
  ]

  -- The loop over the rules, and what follows it.
  unfoldable pub check_rules : Policy → List Rule → ToolUse → ToolSpec → Decision
  unfolding rule_matches
  check_rules p [] u s =
      if p.default.allow || not (p.default.reason == "")
      then p.default
      else refused (text_append "no permission rule matched tool " (quote u.name))
  check_rules p (r ∷ rs) u s =
      if rule_matches r u s then apply_rule p r u s else check_rules p rs u s

  -- Policy.Check
  unfoldable pub check : Policy → ToolUse → ToolSpec → Decision
  check p u s = check_rules p p.rules u s

-- Any, ToolName, ReadOnlyTool, DestructiveTool
unfoldable pub any_call : Matcher
any_call u s = true

unfoldable pub tool_name : List String → Matcher
tool_name names u s = contains names u.name

unfoldable pub read_only_tool : Matcher
read_only_tool u s = s.read_only && not s.destructive

unfoldable pub destructive_tool : Matcher
destructive_tool u s = s.destructive

module _ (glob : String → String → Option Bool) where
  abbrev pub globs : String → String → Bool
  globs pattern name = elim (glob pattern name) [ none ↦ false | some ok ↦ ok ]

  unfoldable pub tool_name_pattern : List String → Matcher
  tool_name_pattern patterns u s = any (λ pattern. globs pattern u.name) patterns

  unfoldable pub input_string : (String → Option (Dict Value)) → String → List String → Matcher
  input_string decode field patterns u s = elim (decode u.input) [
    | none ↦ false
    | some input ↦ elim (lookup field input) [
      | some (word value) ↦ any (λ pattern. globs pattern value) patterns
      | _ ↦ false
    ]
  ]

-- All, AnyOf, Not; a nil matcher is skipped by the first two, and its negation holds.
unfoldable pub all_of : List (Option Matcher) → Matcher
all_of [] u s = true
all_of (none ∷ ms) u s = all_of ms u s
all_of (some m ∷ ms) u s = if not (m u s) then false else all_of ms u s

unfoldable pub any_of : List (Option Matcher) → Matcher
any_of [] u s = false
any_of (none ∷ ms) u s = any_of ms u s
any_of (some m ∷ ms) u s = if m u s then true else any_of ms u s

unfoldable pub negation : Option Matcher → Matcher
negation none u s = true
negation (some m) u s = not (m u s)
