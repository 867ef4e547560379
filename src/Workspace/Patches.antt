-- ===== src/Workspace/Patches.antt =====
-- What a patch of workspace/workspace.go does to the files.
use memax_go_agent_sdk.Prelude.{
  String, false, Option, none, some, List, [], ◌∷◌, lookup, insert, delete, lookup-insert,
  lookup-delete, ◌==◌, eq_iff, if◌then◌else◌, ok, >>=-eq-ok, ◌≡◌, refl, sym, subst, ap, ◌∙◌, arith,
  Bool-cases, inl, inr,
}
use memax_go_agent_sdk.Workspace.Files.{
  Files, Change, added, modified, deleted, PatchOperation, clean_path, invalid_path, check_guard,
  mutate, apply_operation, apply_operations,
}

-- What a name held before a change, and what it holds after it.
abbrev pub held_before : Change → Option String
held_before c = elim c.kind [ added ↦ none | modified ↦ some c.before | deleted ↦ some c.before ]

abbrev pub held_after : Change → Option String
held_after c = elim c.kind [ added ↦ some c.after | modified ↦ some c.after | deleted ↦ none ]

-- What a name holds after some changes, from what it held before them.
abbrev pub after_changes : String → List Change → Option String → Option String
after_changes j [] o = o
after_changes j (c ∷ cs) o = after_changes j cs (if c.path == j then held_after c else o)

-- The same backwards: from what it holds after them.
abbrev pub before_changes : String → List Change → Option String → Option String
before_changes j [] o = o
before_changes j (c ∷ cs) o =
    let later = before_changes j cs o in if c.path == j then held_before c else later

module _ (path_clean : String → String) where
  -- What is known of the change that an operation makes.
  pub record Recorded (files next : Files) (op : PatchOperation) (c : Change) : Type 0 where
    pub path : c.path ≡ clean_path path_clean op.path
    pub accepted : invalid_path path_clean c.path ≡ false
    pub before : held_before c ≡ lookup c.path files
    pub after : held_after c ≡ op.new_content
    pub files_after :
        (j : String) → lookup j next ≡ (if c.path == j then held_after c else lookup j files)

  mutate-Recorded :
      (name : String) (new before : Option String) (files next : Files) (op : PatchOperation)
      (c : Change)
      → name ≡ clean_path path_clean op.path
      → invalid_path path_clean name ≡ false
      → op.new_content ≡ new
      → lookup name files ≡ before
      → mutate path_clean name new before files ≡ ok (next, c)
      → Recorded files next op c
  unfolding mutate
  mutate-Recorded name none none files next op c p i n b h = cc
  mutate-Recorded name none (some v) files next op c p i n b h =
      let e : delete name files ≡ next = ground arith in
      let f : record { path = name; kind = deleted; before = v; after = "" } ≡ c = ground arith in
      subst (λ x. Recorded files x op c) e
        (subst (λ (x : Change). Recorded files (delete name files) op x) f
          (record {
            path = p;
            accepted = i;
            before = sym b;
            after = sym n;
            files_after = λ j. lookup-delete j name files;
          }))
  mutate-Recorded name (some w) none files next op c p i n b h =
      let e : insert name w files ≡ next = ground arith in
      let f : record { path = name; kind = added; before = ""; after = w } ≡ c = ground arith in
      subst (λ x. Recorded files x op c) e
        (subst (λ (x : Change). Recorded files (insert name w files) op x) f
          (record {
            path = p;
            accepted = i;
            before = sym b;
            after = sym n;
            files_after = λ j. lookup-insert j name w files;
          }))
  mutate-Recorded name (some w) (some v) files next op c p i n b h =
      let e : insert name w files ≡ next = ground arith in
      let f : record { path = name; kind = modified; before = v; after = w } ≡ c = ground arith in
      subst (λ x. Recorded files x op c) e
        (subst (λ (x : Change). Recorded files (insert name w files) op x) f
          (record {
            path = p;
            accepted = i;
            before = sym b;
            after = sym n;
            files_after = λ j. lookup-insert j name w files;
          }))

  apply_operation-Recorded :
      (files next : Files) (op : PatchOperation) (c : Change)
      → apply_operation path_clean files op ≡ ok (next, c)
      → Recorded files next op c
  unfolding apply_operation
  apply_operation-Recorded files next op c h =
      let name = clean_path path_clean op.path in
      elim (Bool-cases (invalid_path path_clean name)) [
        | inl t ↦ cc (rw t at h)
        | inr t ↦
            let h1 = rw t at h in
            let (u, e, f) =
              >>=-eq-ok (check_guard path_clean name op.old_content (lookup name files)) _ h1 in
            mutate-Recorded name op.new_content (lookup name files) files next op c refl t refl refl
              f
      ]

  -- What a name holds after some operations, from what it held before them.
  abbrev pub after_operations : String → List PatchOperation → Option String → Option String
  after_operations j [] o = o
  after_operations j (op ∷ ops) o =
      after_operations j ops (if clean_path path_clean op.path == j then op.new_content else o)

  -- What is known of the changes that a patch reports.
  pub record Patched (files next : Files) (ops : List PatchOperation) (cs : List Change)
      : Type 0 where
    pub written : (j : String) → lookup j next ≡ after_operations j ops (lookup j files)
    pub reported : (j : String) → lookup j next ≡ after_changes j cs (lookup j files)
    pub undone : (j : String) → lookup j files ≡ before_changes j cs (lookup j next)

  Patched-cons :
      (files mid next : Files) (op : PatchOperation) (ops : List PatchOperation) (c : Change)
      (cs : List Change)
      → Recorded files mid op c
      → Patched mid next ops cs
      → Patched files next (op ∷ ops) (c ∷ cs)
  Patched-cons files mid next op ops c cs r p = record {
    written = λ j.
        p.written j ∙ ap (after_operations j ops) (r.files_after j ∙ rw (r.after, r.path) refl);
    reported = λ j. p.reported j ∙ ap (after_changes j cs) (r.files_after j);
    undone = λ j. elim (Bool-cases (c.path == j)) [
      | inl t ↦
          rw t (subst (λ k. lookup k files ≡ held_before c) ((eq_iff c.path j).0 t) (sym r.before))
      | inr t ↦ rw t (sym (r.files_after j ∙ rw t refl) ∙ p.undone j)
    ];
  }

  pub apply_operations-Patched :
      (files next : Files) (ops : List PatchOperation) (cs : List Change)
      → apply_operations path_clean files ops ≡ ok (next, cs)
      → Patched files next ops cs
  unfolding apply_operations
  apply_operations-Patched files next [] cs h =
      let e : files ≡ next = ground arith in
      let f : [] ≡ cs = ground arith in
      subst (λ x. Patched files x [] cs) e
        (subst (λ x. Patched files files [] x) f
          (record { written = λ j. refl; reported = λ j. refl; undone = λ j. refl }))
  apply_operations-Patched files next (op ∷ ops) cs h =
      let (v, e, f) = >>=-eq-ok (apply_operation path_clean files op) _ h in
      let (w, g, k) = >>=-eq-ok (apply_operations path_clean v.0 ops) _ f in
      let a : w.0 ≡ next = ground arith in
      let b : v.1 ∷ w.1 ≡ cs = ground arith in
      subst (λ x. Patched files x (op ∷ ops) cs) a
        (subst (λ x. Patched files w.0 (op ∷ ops) x) b
          (Patched-cons files v.0 w.0 op ops v.1 w.1 (apply_operation-Recorded files v.0 op v.1 e)
            (apply_operations-Patched v.0 w.0 ops w.1 g)))
