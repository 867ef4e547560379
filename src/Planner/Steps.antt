-- ===== src/Planner/Steps.antt =====
-- Prepare of planner/planner.go: the order of the tasks and the steps made of them.
use memax_go_agent_sdk.Prelude.{
  String, Bool, true, false, not, ◌&&◌, Option, none, some, List, [], ◌∷◌, map, select,
  if◌then◌else◌, ◌≡◌, refl, subst, ◌++◌, sym, ◌∙◌, ap, arith, Bool-cases, inl, inr, ◌==◌, Result,
  ok, err,
}
use memax_go_agent_sdk.Prelude.Int.{ℤ, pos, negsuc, lt_int}
use memax_go_agent_sdk.Prelude.Order.{text_less, text_less-asym}
use memax_go_agent_sdk.Prelude.Text.{trim_space}
use memax_go_agent_sdk.Prelude.Sort.{
  IsOrdered, IsAsymmetric, stable_sort-perm, stable_sort-IsOrdered,
}
use mathlib.Core.List.{Perm}
use memax_go_agent_sdk.Planner.{
  Task, Step, Plan, TaskSourcePolicy, eq_int, task_less, sort_tasks, is_named, step_of, steps_of,
  plan_of, prepare, normalize_status, is_empty, is_unset, infer_state, empty_plan, State,
  load_tasks,
}

priority_less : ℤ → ℤ → Bool → Bool
priority_less a b c =
    if not (eq_int a b)
    then (if eq_int a (pos 0) then false else if eq_int b (pos 0) then true else lt_int a b)
    else c

priority_less-asym :
    (a b : ℤ) (c d : Bool)
    → (c ≡ true → d ≡ false)
    → priority_less a b c ≡ true
    → priority_less b a d ≡ false
unfolding priority_less
priority_less-asym (pos m) (pos n) c d f h = ground arith
priority_less-asym (pos m) (negsuc n) c d f h = ground arith
priority_less-asym (negsuc m) (pos n) c d f h = ground arith
priority_less-asym (negsuc m) (negsuc n) c d f h = ground arith

task_less-asym : IsAsymmetric task_less
unfolding task_less priority_less
task_less-asym x y h =
    priority_less-asym x.priority y.priority (text_less x.id y.id) (text_less y.id x.id)
      (text_less-asym x.id y.id) h

steps_of-eq :
    (p : TaskSourcePolicy) (ts : List Task) → steps_of p ts ≡ map (step_of p) (select is_named ts)
unfolding steps_of
steps_of-eq p [] = refl
steps_of-eq p (t ∷ ts) = elim (Bool-cases (trim_space t.title == "" && trim_space t.id == "")) [
  | inl e ↦ rw e (steps_of-eq p ts)
  | inr e ↦ rw e (ap (λ ss. step_of p t ∷ ss) (steps_of-eq p ts))
]

plan_with-steps :
    (p : TaskSourcePolicy) (ss : List Step) (bare : Bool) (s : State)
    → (if is_empty ss && bare then empty_plan else record {
      goal = trim_space p.goal;
      steps = ss;
      constraints = p.constraints;
      state = s;
    }).steps
      ≡ ss
plan_with-steps p [] true s = refl
plan_with-steps p [] false s = refl
plan_with-steps p (x ∷ ss) bare s = refl

pub plan_of-steps :
    (p : TaskSourcePolicy) (ts : List Task) → (plan_of p ts).steps ≡ steps_of p (sort_tasks ts)
unfolding plan_of
plan_of-steps p ts =
    plan_with-steps p (steps_of p (sort_tasks ts))
      (trim_space p.goal == "" && is_empty p.constraints && is_unset p.state)
      (if is_unset p.state then infer_state (sort_tasks ts) else p.state)

-- A task may stand directly before another: a priority of 0 stands last, a lower priority first, and
-- among equal priorities the IDs are in order.
pub data MayPrecede (t u : Task) : Type 0 where
  last : (t.priority ≡ pos 0 → ⊥) → u.priority ≡ pos 0 → MayPrecede t u
  lower :
      (t.priority ≡ pos 0 → ⊥)
      → (u.priority ≡ pos 0 → ⊥)
      → lt_int t.priority u.priority ≡ true
      → MayPrecede t u
  by_id : t.priority ≡ u.priority → text_less u.id t.id ≡ false → MayPrecede t u

abbrev pub IsInOrder : List Task → Type 0
IsInOrder [] = Unit
IsInOrder (t ∷ []) = Unit
IsInOrder (t ∷ u ∷ ts) = MayPrecede t u × IsInOrder (u ∷ ts)

-- The step made of a task: trimmed texts, the known status, and the hints of the policy before those
-- of the task.
pub record IsStepOf (p : TaskSourcePolicy) (t : Task) (x : Step) : Type 0 where
  pub id : x.id ≡ trim_space t.id
  pub title : x.title ≡ trim_space t.title
  pub notes : x.notes ≡ trim_space t.notes
  pub status : x.status ≡ normalize_status t.status
  pub checks : x.verification_hints ≡ p.verification_hints ++ t.verification_hints
  pub evidence : x.evidence ≡ t.evidence
  pub tools : x.tool_hints ≡ p.tool_hints ++ t.tool_hints

abbrev pub AreStepsOf : TaskSourcePolicy → List Task → List Step → Type 0
AreStepsOf p [] [] = Unit
AreStepsOf p [] (x ∷ xs) = ⊥
AreStepsOf p (t ∷ ts) [] = ⊥
AreStepsOf p (t ∷ ts) (x ∷ xs) = IsStepOf p t x × AreStepsOf p ts xs

step_of-IsStepOf : (p : TaskSourcePolicy) (t : Task) → IsStepOf p t (step_of p t)
unfolding step_of
step_of-IsStepOf p t = record {
  id = refl;
  title = refl;
  notes = refl;
  status = refl;
  checks = refl;
  evidence = refl;
  tools = refl;
}

map-AreStepsOf : (p : TaskSourcePolicy) (ts : List Task) → AreStepsOf p ts (map (step_of p) ts)
map-AreStepsOf p [] = tt
map-AreStepsOf p (t ∷ ts) = (step_of-IsStepOf p t, map-AreStepsOf p ts)

eq_int_sound : (a b : ℤ) → eq_int a b ≡ true → a ≡ b
eq_int_sound (pos m) (pos n) h = ap pos (ground arith)
eq_int_sound (pos m) (negsuc n) h = cc
eq_int_sound (negsuc m) (pos n) h = cc
eq_int_sound (negsuc m) (negsuc n) h = ap negsuc (ground arith)

eq_int_refl : (a : ℤ) → eq_int a a ≡ true
eq_int_refl (pos m) = ground arith
eq_int_refl (negsuc m) = ground arith

apart : (a b : ℤ) → eq_int a b ≡ false → a ≡ b → ⊥
apart a b h e =
    let same : eq_int b b ≡ false = subst (λ z. eq_int z b ≡ false) e h in cc (eq_int_refl b)

lt_int_total : (a b : ℤ) → eq_int b a ≡ false → lt_int b a ≡ false → lt_int a b ≡ true
lt_int_total a b h g = ground arith

MayPrecede-task_less : (t u : Task) → task_less u t ≡ false → MayPrecede t u
unfolding task_less
MayPrecede-task_less t u h = elim (Bool-cases (eq_int u.priority t.priority)) [
  | inl e ↦ by_id (sym (eq_int_sound u.priority t.priority e)) (ground arith)
  | inr e ↦ elim (Bool-cases (eq_int u.priority (pos 0))) [
    | inl z ↦
        let zero_u = eq_int_sound u.priority (pos 0) z in
        last (λ w. apart u.priority t.priority e (zero_u ∙ sym w)) zero_u
    | inr z ↦ elim (Bool-cases (eq_int t.priority (pos 0))) [
      | inl y ↦ absurd (ground arith)
      | inr y ↦
          lower (apart t.priority (pos 0) y) (apart u.priority (pos 0) z)
            (lt_int_total t.priority u.priority e (ground arith))
    ]
  ]
]

IsInOrder-IsOrdered : (ts : List Task) → IsOrdered task_less ts → IsInOrder ts
IsInOrder-IsOrdered [] h = tt
IsInOrder-IsOrdered (t ∷ []) h = tt
IsInOrder-IsOrdered (t ∷ u ∷ ts) (h, later) =
    (MayPrecede-task_less t u h, IsInOrder-IsOrdered (u ∷ ts) later)

-- Prepare puts all the tasks of its source, each once, in an order by priority, with 0 last, and by ID
-- among equal priorities; its steps are made, in that order, of the tasks with a title or an ID.
pub prepare-steps :
    (p : TaskSourcePolicy) (tasks : List Task) (plan : Plan)
    → p.source ≡ some (ok tasks)
    → prepare p none ≡ ok plan
    → IsInOrder (sort_tasks tasks)
      × Perm (sort_tasks tasks) tasks
      × AreStepsOf p (select is_named (sort_tasks tasks)) plan.steps
unfolding prepare sort_tasks
prepare-steps p tasks plan s h = (
  IsInOrder-IsOrdered (sort_tasks tasks) (stable_sort-IsOrdered task_less task_less-asym tasks),
  stable_sort-perm task_less tasks,
  subst (AreStepsOf p (select is_named (sort_tasks tasks))) (sym (at p.source s h))
      (map-AreStepsOf p (select is_named (sort_tasks tasks))),
)
  where
    at :
        (o : Option (Result String (List Task)))
        → o ≡ some (ok tasks)
        → (elim o [
          | none ↦ ok empty_plan
          | some (err e) ↦ err (load_tasks e)
          | some (ok ts) ↦ ok (plan_of p ts)
        ])
          ≡ ok plan
        → plan.steps ≡ map (step_of p) (select is_named (sort_tasks tasks))
    at o e k =
        let made : plan_of p tasks ≡ plan = cc (rw e at k) in
        ap (λ (x : Plan). x.steps) (sym made)
        ∙ plan_of-steps p tasks
        ∙ steps_of-eq p (sort_tasks tasks)
