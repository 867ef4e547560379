-- ===== src/Workspace/Diffs.antt =====
-- diffFiles of workspace/workspace.go: replaying a diff, and what is in it.
use memax_go_agent_sdk.Prelude.{
  String, Bool, true, false, ◌||◌, Option, none, some, List, [], ◌∷◌, ◌++◌, lookup, has, ◌==◌,
  eq_iff, ◌≡◌, ◌≢◌, refl, sym, subst, ap, ◌∙◌, arith, Bool-cases, inl, inr, contains, ◌↔◌, ◌⊎◌, All,
  All-append,
}
use memax_go_agent_sdk.Prelude.Order.{text_less}
use memax_go_agent_sdk.Prelude.Sort.{stable_sort, sort_insert}
use memax_go_agent_sdk.Workspace.Files.{
  Files, Change, names_of, all_names, changed, changes_of, diff_files,
}
use memax_go_agent_sdk.Workspace.Patches.{held_before, held_after, after_changes}

contains-sort_insert :
    (less : String → String → Bool) (x j : String) (ys : List String)
    → contains (sort_insert less x ys) j ≡ (x == j || contains ys j)
contains-sort_insert less x j [] = refl
contains-sort_insert less x j (y ∷ ys) = ground (arith, contains-sort_insert less x j ys)

contains-stable_sort :
    (less : String → String → Bool) (j : String) (xs : List String)
    → contains (stable_sort less xs) j ≡ contains xs j
contains-stable_sort less j [] = refl
contains-stable_sort less j (x ∷ xs) =
    contains-sort_insert less x j (stable_sort less xs)
    ∙ ap (λ b. x == j || b) (contains-stable_sort less j xs)

contains-names_of : (m : Files) (j : String) → contains (names_of m) j ≡ has j m
unfolding names_of lookup
contains-names_of [] j = refl
contains-names_of ((k, v) ∷ m) j =
    ground (arith, eq_iff k j, contains-names_of m j, contains-names_of m k)

has-append : (a b : Files) (j : String) → has j (a ++ b) ≡ (has j a || has j b)
unfolding lookup
has-append [] b j = refl
has-append ((k, v) ∷ a) b j = ground (arith, has-append a b j)

after_changes-append :
    (j : String) (cs ds : List Change) (o : Option String)
    → after_changes j (cs ++ ds) o ≡ after_changes j ds (after_changes j cs o)
after_changes-append j [] ds o = refl
after_changes-append j (c ∷ cs) ds o = after_changes-append j cs ds _

after_changes-changed_other :
    (n j : String) (x y o : Option String)
    → (n == j) ≡ false
    → after_changes j (changed n x y) o ≡ o
after_changes-changed_other n j none none o e = refl
after_changes-changed_other n j none (some w) o e = ground arith
after_changes-changed_other n j (some v) none o e = ground arith
after_changes-changed_other n j (some v) (some w) o e = ground arith

after_changes-changed_same :
    (n j : String) (x y o : Option String)
    → (n == j) ≡ true
    → (o ≡ x) ⊎ (o ≡ y)
    → after_changes j (changed n x y) o ≡ y
after_changes-changed_same n j none none o e d = ground arith
after_changes-changed_same n j none (some w) o e d = ground arith
after_changes-changed_same n j (some v) none o e d = ground arith
after_changes-changed_same n j (some v) (some w) o e d = ground (arith, eq_iff v w)

-- Replaying the changes of some names, where a name that is left out is in neither map.
after_changes-changes_of :
    (b a : Files) (j : String) (ns : List String) (o : Option String)
    → (o ≡ lookup j b) ⊎ (o ≡ lookup j a)
    → contains ns j ≡ true ⊎ o ≡ lookup j a
    → after_changes j (changes_of b a ns) o ≡ lookup j a
unfolding changes_of
after_changes-changes_of b a j [] o d (inl c) = cc
after_changes-changes_of b a j [] o d (inr c) = c
after_changes-changes_of b a j (n ∷ ns) o d c =
    after_changes-append j (changed n (lookup n b) (lookup n a)) (changes_of b a ns) o
    ∙ elim (Bool-cases (n == j)) [
      | inl t ↦
          let e = (eq_iff n j).0 t in
          let f =
            subst (λ k. after_changes j (changed n (lookup k b) (lookup k a)) o ≡ lookup j a)
              (sym e) (after_changes-changed_same n j (lookup j b) (lookup j a) o t d) in
          rw f (after_changes-changes_of b a j ns (lookup j a) (inr refl) (inr refl))
      | inr t ↦ rw (after_changes-changed_other n j (lookup n b) (lookup n a) o t) (
          after_changes-changes_of b a j ns o d
            (elim c [ inl u ↦ inl (rw t at u) | inr u ↦ inr u ]))
    ]

-- A change that says truly what its name holds in the two maps, which is not the same.
abbrev pub IsReal : Files → Files → Change → Type 0
IsReal b a c =
    (held_before c ≡ lookup c.path b)
    × (held_after c ≡ lookup c.path a)
    × (held_before c ≢ held_after c)

changed-IsReal :
    (b a : Files) (n : String) (x y : Option String)
    → x ≡ lookup n b
    → y ≡ lookup n a
    → All (IsReal b a) (changed n x y)
changed-IsReal b a n none none e f = tt
changed-IsReal b a n none (some w) e f = ((e, f, λ h. cc h), tt)
changed-IsReal b a n (some v) none e f = ((e, f, λ h. cc h), tt)
changed-IsReal b a n (some v) (some w) e f = elim (Bool-cases (v == w)) [
  | inl t ↦ rw t tt
  | inr t ↦ rw t ((e, f, λ h. ground (arith, eq_iff v w)), tt)
]

changes_of-IsReal : (b a : Files) (ns : List String) → All (IsReal b a) (changes_of b a ns)
unfolding changes_of
changes_of-IsReal b a [] = tt
changes_of-IsReal b a (n ∷ ns) =
    All-append (IsReal b a) (changed n (lookup n b) (lookup n a)) (changes_of b a ns)
      (changed-IsReal b a n (lookup n b) (lookup n a) refl refl) (changes_of-IsReal b a ns)

contains-all_names :
    (b a : Files) (j : String)
    → contains (stable_sort text_less (all_names b a)) j ≡ (has j b || has j a)
unfolding all_names
contains-all_names b a j =
    contains-stable_sort text_less j (names_of (b ++ a))
    ∙ contains-names_of (b ++ a) j
    ∙ has-append b a j

in_neither :
    (x y : Option String)
    → ((elim x [ none ↦ false | some _ ↦ true ]) || (elim y [ none ↦ false | some _ ↦ true ]))
        ≡ true
      ⊎ (x ≡ y)
in_neither none none = inr refl
in_neither none (some w) = inl refl
in_neither (some v) y = inl refl

-- Replaying a diff on what a name held in the first map gives what it holds in the second; every
-- change that it lists says truly what its name holds in both, and the two are not the same.
pub diff_files-exact :
    (before after : Files)
    → ((j : String) → after_changes j (diff_files before after) (lookup j before) ≡ lookup j after)
      × All (IsReal before after) (diff_files before after)
unfolding diff_files
diff_files-exact b a =
    let names = stable_sort text_less (all_names b a) in
    (
      λ j.
          after_changes-changes_of b a j names (lookup j b) (inl refl)
            (elim (in_neither (lookup j b) (lookup j a)) [
              | inl u ↦ inl (contains-all_names b a j ∙ u)
              | inr u ↦ inr u
            ]),
      changes_of-IsReal b a names,
    )

-- A diff is empty exactly when every name holds the same in both maps.
diff_files-empty_iff :
    (before after : Files)
    → (diff_files before after ≡ []) ↔ ((j : String) → lookup j before ≡ lookup j after)
diff_files-empty_iff b a = (
  λ h j. subst (λ cs. after_changes j cs (lookup j b) ≡ lookup j a) h ((diff_files-exact b a).0 j),
  λ same. none_real (diff_files b a) same (diff_files-exact b a).1,
)
  where
    none_real :
        (cs : List Change)
        → ((j : String) → lookup j b ≡ lookup j a)
        → All (IsReal b a) cs
        → cs ≡ []
    none_real [] same r = refl
    none_real (c ∷ cs) same r = absurd (r.0.2 (r.0.0 ∙ same c.path ∙ sym r.0.1))
