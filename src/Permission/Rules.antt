-- ===== src/Permission/Rules.antt =====
-- First match wins, and what an allowed or a refused call says of the rules.
use Prim.Native.String.{◌++◌ as text_append}
use text.Mathlib.TextLemmas.{append-eq-nil_iff}
use memax_go_agent_sdk.Prelude.{
  String, true, false, Option, none, some, List, [], ◌∷◌, ◌++◌, ◌≡◌, refl, ◌≢◌, ◌↔◌, ◌⊎◌, inl, inr,
  arith, eq_iff, Bool-cases, All, sym, ◌∙◌,
}
use memax_go_agent_sdk.Model.{ToolUse, ToolSpec}
use memax_go_agent_sdk.Permission.{
  Decision, Effect, allow, deny, ask, other_effect, Rule, ApprovalRequest, Policy, rule_matches,
  denial, apply_rule, check_rules, check, Approver, approved,
}

-- A call passes by a rule that allows it, or by the host's consent to a rule that asks.
abbrev pub Grants : Policy → Rule → ToolUse → ToolSpec → Type 0
Grants p r u s =
    (r.effect ≡ allow)
    ⊎ ((r.effect ≡ ask)
        × ((a : ApprovalRequest → Decision) × (p.approver ≡ some a)
            × ((a (record { use_ = u; spec = s; message = r.message })).allow ≡ true)))

-- No rule of the list matches the call.
abbrev pub Passed : List Rule → ToolUse → ToolSpec → Type 0
Passed rs u s = All (λ r. rule_matches r u s ≡ false) rs

-- Why a call is allowed: the first rule that matches it grants it, or none matches and the default does.
abbrev pub Allowance : Policy → List Rule → ToolUse → ToolSpec → Type 0
Allowance p [] u s = p.default.allow ≡ true
Allowance p (r ∷ rs) u s =
    ((rule_matches r u s ≡ true) × Grants p r u s)
    ⊎ ((rule_matches r u s ≡ false) × Allowance p rs u s)

module _ (quote : String → String) where
  apply_rule-Grants :
      (p : Policy) (r : Rule) (u : ToolUse) (s : ToolSpec)
      → (apply_rule quote p r u s).allow ≡ true
      → Grants p r u s
  unfolding apply_rule
  apply_rule-Grants p r u s h = ground arith

  Grants-apply_rule :
      (p : Policy) (r : Rule) (u : ToolUse) (s : ToolSpec)
      → Grants p r u s
      → (apply_rule quote p r u s).allow ≡ true
  unfolding apply_rule
  Grants-apply_rule p r u s (inl e) = ground arith
  Grants-apply_rule p r u s (inr (e, (a, f, g))) = ground arith

  check_rules-Allowance :
      (p : Policy) (rs : List Rule) (u : ToolUse) (s : ToolSpec)
      → (check_rules quote p rs u s).allow ≡ true
      → Allowance p rs u s
  unfolding check_rules
  check_rules-Allowance p [] u s h = ground arith
  check_rules-Allowance p (r ∷ rs) u s h = elim (Bool-cases (rule_matches r u s)) [
    | inl e ↦ inl (e, apply_rule-Grants p r u s (rw e at h))
    | inr e ↦ inr (e, check_rules-Allowance p rs u s (rw e at h))
  ]

  Allowance-check_rules :
      (p : Policy) (rs : List Rule) (u : ToolUse) (s : ToolSpec)
      → Allowance p rs u s
      → (check_rules quote p rs u s).allow ≡ true
  unfolding check_rules
  Allowance-check_rules p [] u s h = ground arith
  Allowance-check_rules p (r ∷ rs) u s (inl (e, g)) = rw e (Grants-apply_rule p r u s g)
  Allowance-check_rules p (r ∷ rs) u s (inr (e, h)) = rw e (Allowance-check_rules p rs u s h)

  -- A call is allowed exactly if the first rule that matches it allows it, or asks and the approver
  -- consents, or if no rule matches and the default decision allows.
  pub check-allow_iff :
      (p : Policy) (u : ToolUse) (s : ToolSpec)
      → ((check quote p u s).allow ≡ true) ↔ Allowance p p.rules u s
  unfolding check
  check-allow_iff p u s = (check_rules-Allowance p p.rules u s, Allowance-check_rules p p.rules u s)

  first_match :
      (p : Policy) (pre post : List Rule) (r : Rule) (u : ToolUse) (s : ToolSpec)
      → Passed pre u s
      → rule_matches r u s ≡ true
      → check_rules quote p (pre ++ r ∷ post) u s ≡ apply_rule quote p r u s
  unfolding check_rules
  first_match p [] post r u s passed h = rw h
  first_match p (q ∷ pre) post r u s passed h =
      rw passed.0 (first_match p pre post r u s passed.1 h)

  -- A rule uses its policy only for the approver.
  apply_rule-rules :
      (p : Policy) (rs : List Rule) (r : Rule) (u : ToolUse) (s : ToolSpec)
      → apply_rule quote (record p { rules = rs }) r u s ≡ apply_rule quote p r u s
  unfolding apply_rule
  apply_rule-rules p rs r u s = refl

  -- The decision is that of the policy whose only rule is the first one that matches: the rules before it,
  -- which do not match, and those after it have no effect.
  pub check-first_match :
      (p : Policy) (pre post : List Rule) (r : Rule) (u : ToolUse) (s : ToolSpec)
      → Passed pre u s
      → rule_matches r u s ≡ true
      → check quote (record p { rules = pre ++ r ∷ post }) u s
        ≡ check quote (record p { rules = r ∷ [] }) u s
  unfolding check
  check-first_match p pre post r u s passed h =
      let long = record p { rules = pre ++ r ∷ post } in
      let short = record p { rules = r ∷ [] } in
      first_match long pre post r u s passed h
      ∙ (apply_rule-rules p (pre ++ r ∷ post) r u s
          ∙ (sym (apply_rule-rules p (r ∷ []) r u s) ∙ sym (first_match short [] [] r u s tt h)))

  denial-reason : (r : Rule) (fallback : String) → fallback ≢ "" → (denial r fallback).reason ≢ ""
  unfolding denial
  denial-reason r fallback h = ground (arith, eq_iff r.reason "")

  text_append-ne-nil : (t : String) → text_append "tool " t ≢ ""
  text_append-ne-nil t e = absurd (ground (arith, eq_iff "tool " "", (append-eq-nil_iff.0 e).0))

  no_match-ne-nil : (t : String) → text_append "no permission rule matched tool " t ≢ ""
  no_match-ne-nil t e =
      absurd
        (ground (arith, eq_iff "no permission rule matched tool " "", (append-eq-nil_iff.0 e).0))

  -- Every fallback text is one of these.
  denial-tool : (r : Rule) (t : String) → (denial r (text_append "tool " t)).reason ≢ ""
  denial-tool r t = denial-reason r (text_append "tool " t) (text_append-ne-nil t)

  approved-reason :
      (u : ToolUse) (d : Decision)
      → (approved quote u d).allow ≡ false
      → (approved quote u d).reason ≢ ""
  approved-reason u d h = ground (
    arith,
    eq_iff d.reason "",
    text_append-ne-nil (text_append (quote u.name) " was not approved"),
  )

  apply_rule-reason :
      (p : Policy) (r : Rule) (u : ToolUse) (s : ToolSpec) (e : Effect) (o : Option Approver)
      → r.effect ≡ e
      → p.approver ≡ o
      → (apply_rule quote p r u s).allow ≡ false
      → (apply_rule quote p r u s).reason ≢ ""
  unfolding apply_rule
  apply_rule-reason p r u s allow o e f h = cc (rw (e, apply_rule) at h)
  apply_rule-reason p r u s deny o e f h = rw (e, apply_rule) (denial-tool r _)
  apply_rule-reason p r u s ask none e f h = rw (e, f, apply_rule) (denial-tool r _)
  apply_rule-reason p r u s ask (some a) e f h =
      rw (e, f, apply_rule)
        (approved-reason u (a (record { use_ = u; spec = s; message = r.message }))
          (rw (e, f, apply_rule) at h))
  apply_rule-reason p r u s (other_effect t) o e f h = rw (e, apply_rule) (denial-tool r _)

  check_rules-reason :
      (p : Policy) (rs : List Rule) (u : ToolUse) (s : ToolSpec)
      → (check_rules quote p rs u s).allow ≡ false
      → (check_rules quote p rs u s).reason ≢ ""
  unfolding check_rules
  check_rules-reason p [] u s h =
      ground (arith, eq_iff p.default.reason "", no_match-ne-nil (quote u.name))
  check_rules-reason p (r ∷ rs) u s h =
      ground (
        arith,
        apply_rule-reason p r u s r.effect p.approver refl refl,
        check_rules-reason p rs u s,
      )

  -- A refusal always carries a reason, whatever the rule, the default or the approver says.
  pub check-reason :
      (p : Policy) (u : ToolUse) (s : ToolSpec)
      → (check quote p u s).allow ≡ false
      → (check quote p u s).reason ≢ ""
  unfolding check
  check-reason p u s = check_rules-reason p p.rules u s
