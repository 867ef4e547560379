-- ===== src/Workspace/Previews.antt =====
-- ApplyPatch and PreviewPatch of workspace/workspace.go: what they accept, and what they change.
use memax_go_agent_sdk.Prelude.{
  String, Bool, true, false, Option, none, some, List, [], ◌∷◌, lookup, ◌==◌, Result, ok, err,
  ◌>>=◌, ◌≡◌, refl, subst, arith, Bool-cases, inl, inr,
}
use memax_go_agent_sdk.Workspace.Files.{
  Files, Change, PatchOperation, PatchResult, Error, clean_path, invalid_path, check_guard, mutate,
  apply_operation, apply_operations, apply_patch_to_files,
}
use memax_go_agent_sdk.Workspace.Store.{MemoryStore, apply_patch}
use memax_go_agent_sdk.Prelude.{◌↔◌, IsOk}
use memax_go_agent_sdk.Workspace.Patches.{Patched, apply_operations-Patched}

-- What PreviewPatch returns where ApplyPatch returns a result: the store as it was.
abbrev pub previewed :
    MemoryStore
    → Result Error (MemoryStore × PatchResult)
    → Result Error (MemoryStore × PatchResult)
previewed s (ok (t, r)) = ok (s, record r { dry_run = true })
previewed s (err e) = err e

-- The guards of an operation on a file, for what the file holds.
abbrev pub admits : Option String → Option String → Option String → Bool
admits none new none = elim new [ none ↦ false | some _ ↦ true ]
admits none new (some v) = true
admits (some old) new none = false
admits (some old) new (some v) = v == old

module _ (path_clean : String → String) where
  -- A preview accepts exactly the patches that ApplyPatch accepts, with the same error or the same
  -- changes, and leaves the store as it was.
  pub apply_patch-preview :
      (s : MemoryStore) (ops : List PatchOperation)
      → apply_patch path_clean s ops true ≡ previewed s (apply_patch path_clean s ops false)
  unfolding apply_patch apply_patch_to_files
  apply_patch-preview s [] = refl
  apply_patch-preview s (op ∷ ops) = split (apply_operations path_clean s.files (op ∷ ops)) refl
    where
      split :
          (r : Result Error (Files × List Change))
          → apply_operations path_clean s.files (op ∷ ops) ≡ r
          → apply_patch path_clean s (op ∷ ops) true
            ≡ previewed s (apply_patch path_clean s (op ∷ ops) false)
      split (ok (f, cs)) e = rw e refl
      split (err x) e = rw e refl

  -- ApplyPatch changes nothing but the files. Each name holds what the last operation on it says,
  -- or what it held; replaying the reported changes gives the new files, and undoing them from the
  -- last to the first gives back the old ones.
  pub apply_patch-Patched :
      (s t : MemoryStore) (ops : List PatchOperation) (r : PatchResult)
      → apply_patch path_clean s ops false ≡ ok (t, r)
      → Patched path_clean s.files t.files ops r.changes
        × (t ≡ record s { files = t.files })
        × (r.dry_run ≡ false)
  unfolding apply_patch apply_patch_to_files
  apply_patch-Patched s t [] r h = cc
  apply_patch-Patched s t (op ∷ ops) r h =
      split (apply_operations path_clean s.files (op ∷ ops)) refl
    where
      split :
          (x : Result Error (Files × List Change))
          → apply_operations path_clean s.files (op ∷ ops) ≡ x
          → Patched path_clean s.files t.files (op ∷ ops) r.changes
            × (t ≡ record s { files = t.files })
            × (r.dry_run ≡ false)
      split (ok (f, cs)) e =
          let k = rw e at h in
          let a : record s { files = f } ≡ t = ground arith in
          let b : record { changes = cs; dry_run = false } ≡ r = ground arith in
          let p = apply_operations-Patched path_clean s.files f (op ∷ ops) cs e in
          subst
            (λ (x : MemoryStore).
              Patched path_clean s.files x.files (op ∷ ops) r.changes
              × (x ≡ record s { files = x.files })
              × (r.dry_run ≡ false))
            a
            (subst
              (λ (y : PatchResult).
                Patched path_clean s.files f (op ∷ ops) y.changes
                × (record s { files = f } ≡ record s { files = f })
                × (y.dry_run ≡ false))
              b (p, refl, refl))
      split (err x) e = cc (rw e at h)

  -- An operation is accepted exactly when its path is a file's and its guard holds: the old content
  -- that it names is there, and a file that it deletes without a guard is there.
  pub apply_operation-accepts_iff :
      (files : Files) (op : PatchOperation)
      → IsOk (apply_operation path_clean files op)
        ↔ (invalid_path path_clean (clean_path path_clean op.path) ≡ false)
          × (admits op.old_content op.new_content (lookup (clean_path path_clean op.path) files)
              ≡ true)
  unfolding apply_operation check_guard mutate
  apply_operation-accepts_iff files op =
      let name = clean_path path_clean op.path in
      elim (Bool-cases (invalid_path path_clean name)) [
        | inl t ↦ rw t (λ h. absurd h, λ h. absurd (cc))
        | inr t ↦ rw t (at op.old_content op.new_content (lookup name files))
      ]
    where
      at :
          (old new before : Option String)
          → IsOk (
              check_guard path_clean (clean_path path_clean op.path) old before >>= λ g.
              mutate path_clean (clean_path path_clean op.path) new before files)
            ↔ (false ≡ false) × (admits old new before ≡ true)
      at none none none = (λ h. absurd h, λ h. cc)
      at none none (some v) = (λ h. (refl, refl), λ h. tt)
      at none (some w) none = (λ h. (refl, refl), λ h. tt)
      at none (some w) (some v) = (λ h. (refl, refl), λ h. tt)
      at (some o) new none = (λ h. absurd h, λ h. cc)
      at (some o) none (some v) = elim (Bool-cases (v == o)) [
        | inl t ↦ rw t (λ h. (refl, refl), λ h. tt)
        | inr t ↦ rw t (λ h. absurd h, λ h. cc)
      ]
      at (some o) (some w) (some v) = elim (Bool-cases (v == o)) [
        | inl t ↦ rw t (λ h. (refl, refl), λ h. tt)
        | inr t ↦ rw t (λ h. absurd h, λ h. cc)
      ]
