-- ===== src/Executor/Admission.antt =====
-- tool/executor.go: which calls runOne executes.
use memax_go_agent_sdk.Prelude.{
  String, true, Option, none, some, List, [], ◌∷◌, ◌++◌, Result, ok, err, ◌≡◌, refl, ◌∙◌, arith,
  ◌↔◌, eq_iff,
}
use memax_go_agent_sdk.Model.{Metadata, ToolUse, ToolSpec, ToolResult}
use memax_go_agent_sdk.Registry.{Tool, get}
use memax_go_agent_sdk.Tenant.{DeniedError}
use memax_go_agent_sdk.Permission.{Decision}
use memax_go_agent_sdk.Executor.Calls.{
  before_answer, BeforeToolUse, Host, Log, CallError, normalize_by, validate_input, tenant_check,
  before_tool_use, permission, with_metadata, with_hook_errors, error_result, failing, cut_result,
  enforce_result_limit, finished, executed, permitted, hooked, admitted, validated, normalized,
  found, run_one, after_by,
}

-- The hook before a call answers, and gives no reason to deny it.
pub LetsPass :
    Option (ToolUse → ToolSpec → Log → Result String BeforeToolUse)
    → ToolUse
    → ToolSpec
    → Log
    → Type 0
LetsPass none u spec log = Unit
LetsPass (some f) u spec log = (b : BeforeToolUse) × ((f u spec log ≡ ok b) × (b.deny_reason ≡ ""))

-- The permissions allow the call.
pub Permits : Option (ToolUse → ToolSpec → Log → Decision) → ToolUse → ToolSpec → Log → Type 0
Permits none u spec log = Unit
Permits (some f) u spec log = (f u spec log).allow ≡ true

module _ (host : Host) where
  permission-none_iff :
      (p : Option (ToolUse → ToolSpec → Log → Decision)) (u : ToolUse) (spec : ToolSpec) (log : Log)
      → (permission host p u spec log ≡ none) ↔ Permits p u spec log
  unfolding permission Permits
  permission-none_iff none u spec log = (λ _. tt, λ _. refl)
  permission-none_iff (some f) u spec log = (λ h. ground arith, λ h. rw h refl)

  before_answer-ok :
      (r : Result String BeforeToolUse) (m : Metadata)
      → before_answer host r ≡ ok m
      → (b : BeforeToolUse) × ((r ≡ ok b) × (b.deny_reason ≡ ""))
  before_answer-ok (err e) m h = absurd (cc h)
  before_answer-ok (ok b) m h = (b, (refl, ground (arith, eq_iff b.deny_reason "")))

  before_tool_use-LetsPass :
      (f : Option (ToolUse → ToolSpec → Log → Result String BeforeToolUse)) (u : ToolUse)
      (spec : ToolSpec) (log : Log) (m : Metadata)
      → before_tool_use host f u spec log ≡ ok m
      → LetsPass f u spec log
  unfolding before_tool_use LetsPass
  before_tool_use-LetsPass none u spec log m h = tt
  before_tool_use-LetsPass (some f) u spec log m h = before_answer-ok (f u spec log) m h

  before_tool_use-passes :
      (f : Option (ToolUse → ToolSpec → Log → Result String BeforeToolUse)) (u : ToolUse)
      (spec : ToolSpec) (log : Log)
      → LetsPass f u spec log
      → (m : Metadata) × (before_tool_use host f u spec log ≡ ok m)
  unfolding before_tool_use LetsPass
  before_tool_use-passes none u spec log h = ([], refl)
  before_tool_use-passes (some f) u spec log (b, (e, d)) = (b.metadata, rw (e, d) refl)

  -- A call of a tool passes every guard, in the form that its tool's normalizer gives it.
  pub data IsAdmitted (u v : ToolUse) (log : Log) : Type 0 where
    passes :
        (t : Tool)
        → get host.registry u.name ≡ some t
        → normalize_by host (host.normalizer u.name) u log ≡ ok v
        → validate_input host v ≡ none
        → tenant_check host v t.spec log ≡ none
        → LetsPass host.before v t.spec log
        → Permits host.permissions v t.spec log
        → IsAdmitted u v log

  -- What runOne does: it runs an admitted call, once, and answers it, or it runs nothing and answers
  -- with an error, where no form of the call is admitted.
  pub data Answered (u : ToolUse) (log : Log) : ToolResult × Log → Type 0 where
    has_run :
        (v : ToolUse) (r : ToolResult)
        → IsAdmitted u v log
        → r.tool_use_id ≡ v.id
        → r.name ≡ v.name
        → Answered u log (r, log ++ v ∷ [])
    not_run :
        (r : ToolResult)
        → r.is_error ≡ true
        → ((v : ToolUse) → IsAdmitted u v log → ⊥)
        → Answered u log (r, log)

  enforce_result_limit-id :
      (r : ToolResult) (u : ToolUse) (spec : ToolSpec) (log : Log)
      → ((enforce_result_limit host r u spec log).tool_use_id ≡ r.tool_use_id)
        × ((enforce_result_limit host r u spec log).name ≡ r.name)
  unfolding enforce_result_limit cut_result
  enforce_result_limit-id r u spec log = ground arith

  with_hook_errors-id :
      (r : ToolResult) (es : List String)
      → ((with_hook_errors r es).tool_use_id ≡ r.tool_use_id)
        × ((with_hook_errors r es).name ≡ r.name)
  unfolding with_hook_errors
  with_hook_errors-id r [] = (refl, refl)
  with_hook_errors-id r (e ∷ es) = (refl, refl)

  executed_answers :
      (u v : ToolUse) (spec : ToolSpec) (m : Metadata) (a : Result String ToolResult) (log : Log)
      → IsAdmitted u v log
      → Answered u log (executed host v spec m a (log ++ v ∷ []))
  unfolding executed failing with_metadata error_result finished
  executed_answers u v spec m (err e) log h = has_run v _ h refl refl
  executed_answers u v spec m (ok r) log h =
      let named = with_metadata (record r { tool_use_id = v.id; name = v.name }) m in
      let limited = enforce_result_limit host named v spec (log ++ v ∷ []) in
      let es = after_by host host.after v spec limited (log ++ v ∷ []) in
      let cut = enforce_result_limit-id named v spec (log ++ v ∷ []) in
      let noted = with_hook_errors-id limited es in
      has_run v _ h (noted.0 ∙ cut.0) (noted.1 ∙ cut.1)

  permitted_answers :
      (u v : ToolUse) (t : Tool) (m : Metadata) (d : Option CallError) (log : Log)
      → get host.registry u.name ≡ some t
      → normalize_by host (host.normalizer u.name) u log ≡ ok v
      → validate_input host v ≡ none
      → tenant_check host v t.spec log ≡ none
      → before_tool_use host host.before v t.spec log ≡ ok m
      → permission host host.permissions v t.spec log ≡ d
      → Answered u log (permitted host v t.spec m d log)
  unfolding permitted failing with_metadata error_result
  permitted_answers u v t m none log e1 e2 e3 e4 e5 e6 =
      executed_answers u v t.spec m (host.execute v log) log (
        passes t e1 e2 e3 e4 (before_tool_use-LetsPass host.before v t.spec log m e5)
          ((permission-none_iff host.permissions v t.spec log).0 e6))
  permitted_answers u v t m (some x) log e1 e2 e3 e4 e5 e6 = not_run _ refl (λ w a. elim a [
    | passes s a1 a2 a3 a4 a5 a6 ↦
        let e = (permission-none_iff host.permissions w s.spec log).1 a6 in grind arith
  ])

  hooked_answers :
      (u v : ToolUse) (t : Tool) (b : Result CallError Metadata) (log : Log)
      → get host.registry u.name ≡ some t
      → normalize_by host (host.normalizer u.name) u log ≡ ok v
      → validate_input host v ≡ none
      → tenant_check host v t.spec log ≡ none
      → before_tool_use host host.before v t.spec log ≡ b
      → Answered u log (hooked host v t.spec b log)
  unfolding hooked failing with_metadata error_result
  hooked_answers u v t (ok m) log e1 e2 e3 e4 e5 =
      permitted_answers u v t m _ log e1 e2 e3 e4 e5 refl
  hooked_answers u v t (err x) log e1 e2 e3 e4 e5 = not_run _ refl (λ w a. elim a [
    | passes s a1 a2 a3 a4 a5 a6 ↦
        let e = before_tool_use-passes host.before w s.spec log a5 in grind arith
  ])

  admitted_answers :
      (u v : ToolUse) (t : Tool) (d : Option DeniedError) (log : Log)
      → get host.registry u.name ≡ some t
      → normalize_by host (host.normalizer u.name) u log ≡ ok v
      → validate_input host v ≡ none
      → tenant_check host v t.spec log ≡ d
      → Answered u log (admitted host v t.spec d log)
  unfolding admitted failing with_metadata error_result
  admitted_answers u v t none log e1 e2 e3 e4 = hooked_answers u v t _ log e1 e2 e3 e4 refl
  admitted_answers u v t (some x) log e1 e2 e3 e4 =
      not_run _ refl (λ w a. elim a [ passes s a1 a2 a3 a4 a5 a6 ↦ grind arith ])

  validated_answers :
      (u v : ToolUse) (t : Tool) (e : Option String) (log : Log)
      → get host.registry u.name ≡ some t
      → normalize_by host (host.normalizer u.name) u log ≡ ok v
      → validate_input host v ≡ e
      → Answered u log (validated host v t.spec e log)
  unfolding validated failing with_metadata error_result
  validated_answers u v t none log e1 e2 e3 = admitted_answers u v t _ log e1 e2 e3 refl
  validated_answers u v t (some x) log e1 e2 e3 =
      not_run _ refl (λ w a. elim a [ passes s a1 a2 a3 a4 a5 a6 ↦ grind arith ])

  normalized_answers :
      (u : ToolUse) (t : Tool) (r : Result String ToolUse) (log : Log)
      → get host.registry u.name ≡ some t
      → normalize_by host (host.normalizer u.name) u log ≡ r
      → Answered u log (normalized host u t.spec r log)
  unfolding normalized failing with_metadata error_result
  normalized_answers u t (ok v) log e1 e2 = validated_answers u v t _ log e1 e2 refl
  normalized_answers u t (err x) log e1 e2 =
      not_run _ refl (λ w a. elim a [ passes s a1 a2 a3 a4 a5 a6 ↦ grind arith ])

  found_answers :
      (u : ToolUse) (t : Option Tool) (log : Log)
      → get host.registry u.name ≡ t
      → Answered u log (found host u t log)
  unfolding found failing with_metadata error_result
  found_answers u (some t) log e1 = normalized_answers u t _ log e1 refl
  found_answers u none log e1 =
      not_run _ refl (λ w a. elim a [ passes s a1 a2 a3 a4 a5 a6 ↦ grind arith ])

  -- A call runs, once, exactly if its tool is known and the normalizer, the schema, the tenant check,
  -- the hook before a tool and the permissions let it pass, and is then answered under its own ID and
  -- name, whatever the tool returned and the limit cut; otherwise nothing runs and the answer is an error.
  pub run_one-Answered : (u : ToolUse) (log : Log) → Answered u log (run_one host u log)
  unfolding run_one
  run_one-Answered u log = found_answers u _ log refl
