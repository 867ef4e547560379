-- ===== src/Selection/Limits.antt =====
-- SelectSpecs of tool/selection.go: what the limit keeps.
use memax_go_agent_sdk.Prelude.{
  ℕ, zero, suc, ◌+◌, ◌-◌, ◌≤◌, String, Bool, true, not, ◌&&◌, List, [], ◌∷◌, length, take, select,
  all, map, leb, leb→le, if◌then◌else◌, ◌≡◌, ◌⊎◌, refl, sym, subst, ap, ◌∙◌, arith, Bool-cases, inl,
  inr, select-append, length-append, length-take, length-map, append-nil,
}
use memax_go_agent_sdk.Prelude.Int.{ℤ, positive_part, is_positive}
use memax_go_agent_sdk.Prelude.Sort.{stable_sort, sort_insert}
use mathlib.Core.List.{Perm}
use mathlib.Core.List.Perm
use memax_go_agent_sdk.Model.{ToolSpec}
use memax_go_agent_sdk.Selection.{
  ScoredSpec, is_offered, is_always, is_other, offered_before, limit_preserving_always_load,
  specs_of, score_from, score_specs, select_specs, tokenize,
}

abbrev pub always_loaded : ToolSpec → Bool
always_loaded s = s.always_load

module _ {ℓ} {A : Type ℓ} (p : A → Bool) where
  select-sort_insert-perm :
      (less : A → A → Bool) (x : A) (ys : List A)
      → Perm (select p (sort_insert less x ys)) (select p (x ∷ ys))
  select-sort_insert-perm less x [] = Perm.refl _
  select-sort_insert-perm less x (y ∷ ys) = elim (Bool-cases (less y x)) [
    | inr t ↦ rw t (Perm.refl _)
    | inl t ↦
        let ih = select-sort_insert-perm less x ys in
        elim (Bool-cases (p y)) [
          | inr u ↦ rw (t, u) ih
          | inl u ↦ elim (Bool-cases (p x)) [
            | inr w ↦ rw (t, u, w) (Perm.cons y (rw w at ih))
            | inl w ↦
                rw (t, u, w) (Perm.trans (Perm.cons y (rw w at ih)) (Perm.swap x y (select p ys)))
          ]
        ]
  ]

  select-stable_sort-perm :
      (less : A → A → Bool) (xs : List A) → Perm (select p (stable_sort less xs)) (select p xs)
  select-stable_sort-perm less [] = Perm.refl _
  select-stable_sort-perm less (x ∷ xs) =
      let ih = select-stable_sort-perm less xs in
      Perm.trans (select-sort_insert-perm less x (stable_sort less xs))
        (elim (Bool-cases (p x)) [ inl t ↦ rw t (Perm.cons x ih) | inr t ↦ rw t ih ])

  select-map {κ} :
      {B : Type κ} (q : B → Bool) (f : A → B) (xs : List A)
      → ((x : A) → q (f x) ≡ p x)
      → select q (map f xs) ≡ map f (select p xs)
  select-map q f [] h = refl
  select-map q f (x ∷ xs) h = elim (Bool-cases (p x)) [
    | inl t ↦ rw (h x, t) (ap (◌∷◌ (f x)) (select-map q f xs h))
    | inr t ↦ rw (h x, t) (select-map q f xs h)
  ]

  select-within :
      (q : A → Bool) (xs : List A)
      → ((x : A) → p x ≡ true → q x ≡ true)
      → select p (select q xs) ≡ select p xs
  select-within q [] h = refl
  select-within q (x ∷ xs) h = elim (Bool-cases (p x)) [
    | inl t ↦ rw (h x t, t) (ap (◌∷◌ x) (select-within q xs h))
    | inr t ↦ elim (Bool-cases (q x)) [
      | inl u ↦ rw (u, t) (select-within q xs h)
      | inr u ↦ rw (u, t) (select-within q xs h)
    ]
  ]

  all-select : (xs : List A) → all p (select p xs) ≡ true
  all-select [] = refl
  all-select (x ∷ xs) = elim (Bool-cases (p x)) [
    | inl t ↦ rw t (rw t (all-select xs))
    | inr t ↦ rw t (all-select xs)
  ]

  select-take_others : (n : ℕ) (xs : List A) → select p (take n (select (λ x. not (p x)) xs)) ≡ []
  select-take_others zero xs = refl
  select-take_others (suc n) [] = refl
  select-take_others (suc n) (x ∷ xs) = elim (Bool-cases (p x)) [
    | inl t ↦ rw t (select-take_others (suc n) xs)
    | inr t ↦ rw t (rw t (select-take_others n xs))
  ]

select-limit :
    (items : List ScoredSpec) (n : ℕ)
    → select is_always (limit_preserving_always_load items n) ≡ select is_always items
unfolding limit_preserving_always_load
select-limit items n = elim (Bool-cases (leb (length items) n)) [
  | inl t ↦ rw t refl
  | inr t ↦ elim (Bool-cases (leb n (length (select is_always items)))) [
    | inl u ↦ rw (t, u) (select-within is_always is_always items (λ x h. h))
    | inr u ↦
        rw (t, u)
          (select-append is_always (select is_always items) _
            ∙ rw
                (
                  select-within is_always is_always items (λ x h. h),
                  select-take_others is_always (n - length (select is_always items)) items,
                )
                (append-nil (select is_always items)))
  ]
]

select-score_from :
    (lower : String → String) (contains_text : String → String → Bool)
    (fields : String → List String) (i : ℕ) (specs : List ToolSpec) (query : String)
    (tokens : List String)
    → specs_of (score_from lower contains_text fields i specs query tokens) ≡ specs
unfolding score_from
select-score_from lower contains_text fields i [] query tokens = refl
select-score_from lower contains_text fields i (s ∷ specs) query tokens =
    ap (◌∷◌ s) (select-score_from lower contains_text fields (suc i) specs query tokens)

within_rest :
    (k : ℕ) (rest : List ScoredSpec) (a : ℕ) {n : ℕ} → a + k ≤ n → a + length (take k rest) ≤ n
within_rest k rest a h = omega (arith, length-take k rest)

-- A limited list is within the limit, or all of it is always loaded.
limit-bound :
    (items : List ScoredSpec) (n : ℕ)
    → (length (limit_preserving_always_load items n) ≤ n)
      ⊎ (all is_always (limit_preserving_always_load items n) ≡ true)
unfolding limit_preserving_always_load
limit-bound items n = elim (Bool-cases (leb (length items) n)) [
  | inl t ↦ inl (rw t (leb→le (length items) n t))
  | inr t ↦ elim (Bool-cases (leb n (length (select is_always items)))) [
    | inl u ↦ inr (rw (t, u) (all-select is_always items))
    | inr u ↦
        let k = n - length (select is_always items) in
        inl (
          rw (t, u)
            (rw (length-append (select is_always items) (take k (select is_other items))) (
              within_rest k (select is_other items) (length (select is_always items))
                (ground arith))))
  ]
]

-- What SelectSpecs keeps of its sorted list.
abbrev chosen : List ScoredSpec → ℤ → List ScoredSpec
chosen sorted m =
    if is_positive m then limit_preserving_always_load sorted (positive_part m) else sorted

select-chosen :
    (sorted : List ScoredSpec) (m : ℤ)
    → select is_always (chosen sorted m) ≡ select is_always sorted
select-chosen sorted m = elim (Bool-cases (is_positive m)) [
  | inl t ↦ rw t (select-limit sorted (positive_part m))
  | inr t ↦ rw t refl
]

all-specs_of : (items : List ScoredSpec) → all always_loaded (specs_of items) ≡ all is_always items
all-specs_of [] = refl
all-specs_of (s ∷ items) = ap (λ b. s.spec.always_load && b) (all-specs_of items)

chosen-bound :
    (sorted : List ScoredSpec) (m : ℤ)
    → is_positive m ≡ true
    → (length (specs_of (chosen sorted m)) ≤ positive_part m)
      ⊎ (all always_loaded (specs_of (chosen sorted m)) ≡ true)
chosen-bound sorted m h = rw h (elim (limit-bound sorted (positive_part m)) [
  | inl u ↦ inl (
      rw
        (length-map (λ (s : ScoredSpec). s.spec)
          (limit_preserving_always_load sorted (positive_part m)))
        u)
  | inr u ↦ inr (all-specs_of (limit_preserving_always_load sorted (positive_part m)) ∙ u)
])

module _ (lower : String → String) (contains_text : String → String → Bool)
    (fields : String → List String) where
  -- SelectSpecs offers every tool that is always loaded, once each, whatever the query and the
  -- limit are; with a limit it offers more tools than that only if all of them are always loaded.
  pub select_specs-keeps_always :
      (specs : List ToolSpec) (query : String) (max_tools : ℤ)
      → Perm
          (select always_loaded (select_specs lower contains_text fields specs query max_tools))
          (select always_loaded specs)
        × (is_positive max_tools ≡ true
            → (length (select_specs lower contains_text fields specs query max_tools)
                ≤ positive_part max_tools)
              ⊎ (all always_loaded (select_specs lower contains_text fields specs query max_tools)
                  ≡ true))
  unfolding select_specs score_specs
  select_specs-keeps_always specs query max_tools =
      let scored = score_specs lower contains_text fields specs query in
      let sorted = stable_sort offered_before (select is_offered scored) in
      let same : specs_of (select is_always scored) ≡ select always_loaded specs =
        sym (select-map is_always always_loaded (λ s. s.spec) scored (λ s. refl))
        ∙ ap (select always_loaded) (
            select-score_from lower contains_text fields 0 specs query
              (tokenize lower contains_text fields query)) in
      let kept : Perm (specs_of (select is_always sorted)) (select always_loaded specs) =
        subst (Perm (specs_of (select is_always sorted)))
          (ap specs_of (select-within is_always is_offered scored (λ s h. rw h refl)) ∙ same)
          (Perm.map (λ (s : ScoredSpec). s.spec)
            (select-stable_sort-perm is_always offered_before (select is_offered scored))) in
      (
        subst (λ (xs : List ToolSpec). Perm xs (select always_loaded specs))
            (sym (
              select-map is_always always_loaded (λ (s : ScoredSpec). s.spec)
                (chosen sorted max_tools) (λ s. refl)
              ∙ ap specs_of (select-chosen sorted max_tools)))
            kept,
        chosen-bound sorted max_tools,
      )
