-- ===== src/Workspace/Numbering.antt =====
-- nextIDLocked of workspace/workspace.go ends: the numbers of the checkpoints.
use memax_go_agent_sdk.Prelude.{
  ℕ, suc, ◌≤◌, String, false, Option, none, some, List, [], ◌∷◌, lookup, has-insert, has-one, has,
  length, ◌==◌, eq_iff, ◌≡◌, refl, sym, subst, ap, ◌∙◌, arith, Bool-cases, inl, inr,
}
use memax_go_agent_sdk.Workspace.Files.{Files}
use memax_go_agent_sdk.Workspace.Store.{
  Checkpoint, CheckpointOptions, MemoryStore, next_id_from, take_checkpoint, new_memory_store,
  checkpoint,
}
use memax_go_agent_sdk.Workspace.Restores.{
  Call, writing, deleting, patching, checkpointing, restoring, checkpointed, execute, run, Same,
  write_file-Same, delete_file-Same, apply_patch-Same, restore-Same, checkpoint-Made,
}

module _ (path_clean : String → String) (format_id : ℕ → String)
    (injective : (m n : ℕ) → format_id m ≡ format_id n → m ≡ n) where
  -- From the next number on, no name is in use.
  IsNumbered : MemoryStore → Type 0
  IsNumbered s = (n : ℕ) → s.next ≤ n → has (format_id n) s.checkpoints ≡ false

  IsNumbered-Same :
      (s t : MemoryStore) → IsNumbered s → Same path_clean format_id s t → IsNumbered t
  unfolding IsNumbered
  IsNumbered-Same s t v e n h = rw e.checkpoints (v n (subst (λ k. k ≤ n) e.next h))

  next_id_from-first :
      (s : MemoryStore) (fuel : ℕ)
      → IsNumbered s
      → next_id_from format_id (suc fuel) s.checkpoints s.next ≡ some (format_id s.next, suc s.next)
  unfolding next_id_from IsNumbered
  next_id_from-first s fuel v = let e = v s.next (omega arith) in rw e refl

  IsNumbered-checkpoint :
      (s t : MemoryStore) (opts : CheckpointOptions) (now : ℕ) (cp : Checkpoint)
      → IsNumbered s
      → checkpoint format_id s opts now ≡ some (t, cp)
      → IsNumbered t
  unfolding IsNumbered
  IsNumbered-checkpoint s t opts now cp v h n le =
      let m = checkpoint-Made path_clean format_id s t opts now cp h in
      let e = sym m.found ∙ next_id_from-first s (length s.checkpoints) v in
      let e1 : cp.id ≡ format_id s.next = ground arith in
      let e2 : t.next ≡ suc s.next = ground arith in
      let old : has (format_id n) s.checkpoints ≡ false = v n (omega arith) in
      let apart : (cp.id == format_id n) ≡ false = elim (Bool-cases (cp.id == format_id n)) [
        | inl u ↦
            let w : s.next ≡ n = injective s.next n (sym e1 ∙ (eq_iff cp.id (format_id n)).0 u) in
            absurd (omega arith)
        | inr u ↦ u
      ] in
      rw m.checkpoints (
        has-insert (format_id n) cp.id (record { checkpoint = cp; files = s.files }) s.checkpoints
        ∙ rw (apart, old) refl)

  execute-IsNumbered :
      (s : MemoryStore) (c : Call) → IsNumbered s → IsNumbered (execute path_clean format_id s c)
  unfolding execute
  execute-IsNumbered s (writing name content) v =
      IsNumbered-Same s _ v (write_file-Same path_clean format_id s name content)
  execute-IsNumbered s (deleting name) v =
      IsNumbered-Same s _ v (delete_file-Same path_clean format_id s name)
  execute-IsNumbered s (patching ops dry_run) v =
      IsNumbered-Same s _ v (apply_patch-Same path_clean format_id s ops dry_run)
  execute-IsNumbered s (restoring r) v =
      IsNumbered-Same s _ v (restore-Same path_clean format_id s r)
  execute-IsNumbered s (checkpointing opts now) v = split (checkpoint format_id s opts now) refl
    where
      split :
          (o : Option (MemoryStore × Checkpoint))
          → checkpoint format_id s opts now ≡ o
          → IsNumbered (checkpointed s o)
      split none e = v
      split (some (t, cp)) e = IsNumbered-checkpoint s t opts now cp v e

  run-IsNumbered :
      (s : MemoryStore) (cs : List Call) → IsNumbered s → IsNumbered (run path_clean format_id s cs)
  unfolding run
  run-IsNumbered s [] v = v
  run-IsNumbered s (c ∷ cs) v =
      run-IsNumbered (execute path_clean format_id s c) cs (execute-IsNumbered s c v)

  new-IsNumbered :
      (files : Files) (now : ℕ)
      → format_id 0 ≡ "checkpoint-0"
      → IsNumbered (new_memory_store path_clean files now)
  unfolding IsNumbered new_memory_store lookup
  new-IsNumbered files now z n h =
      let apart : ("checkpoint-0" == format_id n) ≡ false =
        elim (Bool-cases ("checkpoint-0" == format_id n)) [
          | inl u ↦
              let w : 0 ≡ n = injective 0 n (z ∙ (eq_iff "checkpoint-0" (format_id n)).0 u) in
              absurd (omega arith)
          | inr u ↦ u
        ] in
      has-one (format_id n) "checkpoint-0" _ ∙ apart

  -- After any calls on a new store, the loop of nextIDLocked ends within the rounds it is given:
  -- Checkpoint succeeds, under the name of the next number, which goes up by one. Different numbers
  -- have different names, and the name of 0 is that of the first checkpoint.
  pub checkpoint-total :
      (files : Files) (start now : ℕ) (cs : List Call) (opts : CheckpointOptions)
      → format_id 0 ≡ "checkpoint-0"
      → let s = run path_clean format_id (new_memory_store path_clean files start) cs in
        (t : MemoryStore) × (cp : Checkpoint) × (checkpoint format_id s opts now ≡ some (t, cp))
        × (cp.id ≡ format_id s.next)
        × (t.next ≡ suc s.next)
  unfolding checkpoint
  checkpoint-total files start now cs opts z =
      let s = run path_clean format_id (new_memory_store path_clean files start) cs in
      let v =
        run-IsNumbered (new_memory_store path_clean files start) cs
          (new-IsNumbered files start z) in
      (
        _,
        _,
        ap (take_checkpoint s opts now) (next_id_from-first s (length s.checkpoints) v),
        refl,
        refl,
      )
