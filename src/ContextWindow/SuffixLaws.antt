-- ===== src/ContextWindow/SuffixLaws.antt =====
-- What the suffix chosen by newestSuffixStart is.
use memax_go_agent_sdk.Prelude.{
  ℕ, zero, suc, ◌+◌, ◌≤◌, ◌<◌, ◌&&◌, some, List, [], ◌∷◌, ◌≡◌, refl, ◌⊎◌, inl, inr, length, drop,
  get_elem?, ltb, leb, if◌then◌else◌, Result, ok, >>=-eq-ok, arith, length-drop, drop-drop,
  drop-length, Option-cases, subst, sym, ap, Bool-cases,
}
use native.Mathlib.Nat.{le_refl, add-zero}
use memax_go_agent_sdk.Prelude.Int.{ℤ, pos, negsuc, positive_part}
use memax_go_agent_sdk.Model.{Message, is_tool_role}
use memax_go_agent_sdk.ContextWindow.{Error, Estimator}
use memax_go_agent_sdk.ContextWindow.Suffix.{
  leading_tool_results, drop_leading_tool_results, suffix_loop, newest_suffix_start,
}

-- The sum of the estimates.
abbrev pub cost : Estimator → List Message → ℕ
cost estimate [] = 0
cost estimate (m ∷ ms) = positive_part (estimate m) + cost estimate ms

drop-get_elem? {ℓ} :
    {A : Type ℓ} (xs : List A) (n : ℕ) (x : A)
    → get_elem? xs n ≡ some x
    → drop n xs ≡ x ∷ drop (suc n) xs
drop-get_elem? [] n x h = cc
drop-get_elem? (y ∷ ys) zero x h = ground arith
drop-get_elem? (y ∷ ys) (suc n) x h = drop-get_elem? ys n x h

-- A start from which the messages fit, or of which only the first has a cost.
abbrev pub Fits : Estimator → ℕ → List Message → ℕ → Type 0
Fits estimate max ms s = (cost estimate (drop s ms) ≤ max) ⊎ (cost estimate (drop (suc s) ms) ≡ 0)

-- The message before the start does not fit in too, or the budget is used up.
abbrev pub IsMaximal : Estimator → ℕ → List Message → ℕ → Type 0
IsMaximal estimate max ms zero = Unit
IsMaximal estimate max ms (suc n) =
    (max ≤ cost estimate (drop (suc n) ms)) ⊎ (max < cost estimate (drop n ms))

IsMaximal-at :
    (estimate : Estimator) (max : ℕ) (ms : List Message) (s : ℕ)
    → max ≤ cost estimate (drop s ms)
    → IsMaximal estimate max ms s
IsMaximal-at estimate max ms zero h = tt
IsMaximal-at estimate max ms (suc n) h = inl h

-- What the loop returns is within reach, fits and is maximal.
abbrev Chosen : Estimator → ℕ → List Message → ℕ → ℕ → Type 0
Chosen estimate max ms n s = (s ≤ n) × Fits estimate max ms s × IsMaximal estimate max ms s

Chosen-suc :
    (estimate : Estimator) (max : ℕ) (ms : List Message) (n s : ℕ)
    → Chosen estimate max ms n s
    → Chosen estimate max ms (suc n) s
Chosen-suc estimate max ms n s (b, f, m) = (omega arith, f, m)

-- The branches of one round; `rest` is the next one.
abbrev pub suffix_branch : ℕ → ℕ → ℕ → ℕ → Result Error ℕ → Result Error ℕ
suffix_branch max total next n rest =
    if ltb 0 total && ltb max (total + next)
    then ok (suc n)
    else if leb max (total + next)
    then ok n
    else rest

suffix_step :
    (estimate : Estimator) (max : ℕ) (ms : List Message) (total next n s : ℕ)
    → total ≡ cost estimate (drop (suc n) ms)
    → total + next ≡ cost estimate (drop n ms)
    → Fits estimate max ms (suc n)
    → (Fits estimate max ms n
        → suffix_loop estimate max ms (total + next) n ≡ ok s
        → Chosen estimate max ms n s)
    → suffix_branch max total next n (suffix_loop estimate max ms (total + next) n) ≡ ok s
    → Chosen estimate max ms (suc n) s
suffix_step estimate max ms total next n s e e' f ih h =
    elim (Bool-cases (ltb 0 total && ltb max (total + next))) [
      | inl t ↦ subst (Chosen estimate max ms (suc n)) (ground arith) (
          let over : max < cost estimate (drop n ms) = ground arith in
          (le_refl (suc n), f, inr over))
      | inr t ↦
          let fits : Fits estimate max ms n = ground arith in
          elim (Bool-cases (leb max (total + next))) [
            | inl u ↦
                subst (Chosen estimate max ms (suc n)) (ground arith)
                  (omega arith, fits, IsMaximal-at estimate max ms n (ground arith))
            | inr u ↦ Chosen-suc estimate max ms n s (ih fits (ground arith))
          ]
    ]

suffix_read :
    (estimate : Estimator) (max : ℕ) (ms : List Message) (total n s : ℕ) (v : ℤ) (m : Message)
    → total ≡ cost estimate (drop (suc n) ms)
    → Fits estimate max ms (suc n)
    → suffix_loop estimate max ms total (suc n) ≡ ok s
    → ((t : ℕ)
        → t ≡ cost estimate (drop n ms)
        → Fits estimate max ms n
        → suffix_loop estimate max ms t n ≡ ok s
        → Chosen estimate max ms n s)
    → get_elem? ms n ≡ some m
    → estimate m ≡ v
    → Chosen estimate max ms (suc n) s
unfolding suffix_loop
suffix_read estimate max ms total n s (negsuc k) m e f h ih found ev =
    cc (rw (found, ev, suffix_loop) at h)
suffix_read estimate max ms total n s (pos next) m e f h ih found ev =
    let e' : total + next ≡ cost estimate (drop n ms) =
      omega (arith, ap (cost estimate) (drop-get_elem? ms n m found), ap positive_part ev, e) in
    suffix_step estimate max ms total next n s e e' f (ih (total + next) e')
      (rw (found, ev, suffix_loop) at h)

suffix_loop-Chosen :
    (estimate : Estimator) (max : ℕ) (ms : List Message) (n total s : ℕ)
    → total ≡ cost estimate (drop n ms)
    → Fits estimate max ms n
    → suffix_loop estimate max ms total n ≡ ok s
    → Chosen estimate max ms n s
unfolding suffix_loop
suffix_loop-Chosen estimate max ms zero total s e f h =
    let e0 : 0 ≡ s = ground arith in subst (Chosen estimate max ms 0) e0 (omega arith, f, tt)
suffix_loop-Chosen estimate max ms (suc n) total s e f h = elim (Option-cases (get_elem? ms n)) [
  | inl absent ↦ cc (rw (absent, suffix_loop) at h)
  | inr (m, found) ↦
      suffix_read estimate max ms total n s (estimate m) m e f h
        (λ t. suffix_loop-Chosen estimate max ms n t s) found refl
]

pub cost-drop-le :
    (estimate : Estimator) (k : ℕ) (ms : List Message)
    → cost estimate (drop k ms) ≤ cost estimate ms
cost-drop-le estimate zero ms = omega arith
cost-drop-le estimate (suc k) [] = omega arith
cost-drop-le estimate (suc k) (m ∷ ms) = omega (arith, cost-drop-le estimate k ms)

leading-drop-leading :
    (ms : List Message) → leading_tool_results (drop (leading_tool_results ms) ms) ≡ 0
leading-drop-leading [] = refl
leading-drop-leading (m ∷ ms) = elim (Bool-cases (is_tool_role m.role)) [
  | inl t ↦ rw t (leading-drop-leading ms)
  | inr t ↦ rw t (rw t)
]

leading-le-length : (ms : List Message) → leading_tool_results ms ≤ length ms
leading-le-length [] = omega arith
leading-le-length (m ∷ ms) = ground (arith, leading-le-length ms)

-- What newestSuffixStart promises of the index that it returns.
pub record IsNewestSuffix (estimate : Estimator) (max : ℕ) (ms : List Message) (s : ℕ)
    : Type 0 where
  pub within : s ≤ length ms
  pub fits : Fits estimate max ms s
  pub no_orphan : leading_tool_results (drop s ms) ≡ 0
  pub chosen : ℕ
  pub start : s ≡ chosen + leading_tool_results (drop chosen ms)
  pub maximal : IsMaximal estimate max ms chosen

Fits-drop :
    (estimate : Estimator) (max : ℕ) (ms : List Message) (n k : ℕ)
    → Fits estimate max ms n
    → Fits estimate max ms (n + k)
Fits-drop estimate max ms n zero f = rw add-zero f
Fits-drop estimate max ms n (suc k) (inl f) =
    inl (rw (drop-drop n (suc k) ms) (omega (arith, cost-drop-le estimate (suc k) (drop n ms))))
Fits-drop estimate max ms n (suc k) (inr f) =
    let e : n + suc k ≡ suc n + k = omega arith in
    inl (
      rw e
        (rw (drop-drop (suc n) k ms) (omega (arith, cost-drop-le estimate k (drop (suc n) ms), f))))

pub newest_suffix_start-IsNewestSuffix :
    (ms : List Message) (max : ℕ) (estimate : Estimator) (s : ℕ)
    → newest_suffix_start ms max estimate ≡ ok s
    → IsNewestSuffix estimate max ms s
unfolding newest_suffix_start drop_leading_tool_results
newest_suffix_start-IsNewestSuffix ms max estimate s h =
    let (n, e, f) = >>=-eq-ok (suffix_loop estimate max ms 0 (length ms)) _ h in
    let k = leading_tool_results (drop n ms) in
    let start : s ≡ n + k = ground arith in
    let empty : cost estimate (drop (length ms) ms) ≡ 0 = rw (drop-length ms) in
    let (below, fits, maximal) =
      suffix_loop-Chosen estimate max ms (length ms) 0 n (sym empty) (inl (omega arith)) e in
    record {
      within = omega (arith, leading-le-length (drop n ms), length-drop n ms);
      fits = subst (Fits estimate max ms) (sym start) (Fits-drop estimate max ms n k fits);
      no_orphan = rw start (rw (drop-drop n k ms) (leading-drop-leading (drop n ms)));
      chosen = n;
      start = start;
      maximal = maximal;
    }
