-- ===== src/Workspace/Restores.antt =====
-- Checkpoint and Restore of workspace/workspace.go over histories of calls.
use memax_go_agent_sdk.Prelude.{
  ℕ, zero, suc, String, Bool, false, Option, none, some, List, [], ◌∷◌, ◌++◌, Dict, lookup, insert,
  lookup-insert, has, length, ◌==◌, eq_iff, eq_refl, Result, ok, err, ◌≡◌, refl, subst, arith,
  Bool-cases, inl, inr,
}
use memax_go_agent_sdk.Prelude.Text.{trim_space}
use memax_go_agent_sdk.Workspace.Files.{
  checkpoint_not_found, clean_path, invalid_path, apply_patch_to_files, Files, PatchOperation,
  PatchResult, Error,
}
use memax_go_agent_sdk.Workspace.Store.{
  Checkpoint, CheckpointOptions, Snapshot, MemoryStore, next_id_from, take_checkpoint, count_files,
  write_file, delete_file, apply_patch, checkpoint, restore,
}

-- A call that changes the store.
pub data Call : Type 0 where
  writing : String → String → Call
  deleting : String → Call
  patching : List PatchOperation → Bool → Call
  checkpointing : CheckpointOptions → ℕ → Call
  restoring : String → Call

abbrev pub stored : MemoryStore → Result Error MemoryStore → MemoryStore
stored s (ok t) = t
stored s (err e) = s

abbrev pub stored_of {ℓ} : {A : Type ℓ} → MemoryStore → Result Error (MemoryStore × A) → MemoryStore
stored_of s (ok (t, a)) = t
stored_of s (err e) = s

abbrev pub checkpointed : MemoryStore → Option (MemoryStore × Checkpoint) → MemoryStore
checkpointed s none = s
checkpointed s (some (t, cp)) = t

module _ (path_clean : String → String) (format_id : ℕ → String) where
  unfoldable pub execute : MemoryStore → Call → MemoryStore
  execute s (writing name content) = stored s (write_file path_clean s name content)
  execute s (deleting name) = stored s (delete_file path_clean s name)
  execute s (patching ops dry_run) = stored_of s (apply_patch path_clean s ops dry_run)
  execute s (checkpointing opts now) = checkpointed s (checkpoint format_id s opts now)
  execute s (restoring id) = stored_of s (restore s id)

  unfoldable pub run : MemoryStore → List Call → MemoryStore
  unfolding execute
  run s [] = s
  run s (c ∷ cs) = run (execute s c) cs

  -- A call that takes no checkpoint leaves the checkpoints and the next number.
  pub record Same (s t : MemoryStore) : Type 0 where
    pub checkpoints : t.checkpoints ≡ s.checkpoints
    pub next : t.next ≡ s.next

  pub write_file-Same :
      (s : MemoryStore) (name content : String)
      → Same s (stored s (write_file path_clean s name content))
  unfolding write_file
  write_file-Same s name content =
      elim (Bool-cases (invalid_path path_clean (clean_path path_clean name))) [
        | inl t ↦ rw t (record { checkpoints = refl; next = refl })
        | inr t ↦ rw t (record { checkpoints = refl; next = refl })
      ]

  pub delete_file-Same :
      (s : MemoryStore) (name : String) → Same s (stored s (delete_file path_clean s name))
  unfolding delete_file
  delete_file-Same s name =
      elim (Bool-cases (invalid_path path_clean (clean_path path_clean name))) [
        | inl t ↦ rw t (record { checkpoints = refl; next = refl })
        | inr t ↦ elim (Bool-cases (has (clean_path path_clean name) s.files)) [
          | inl u ↦ rw t (rw u (record { checkpoints = refl; next = refl }))
          | inr u ↦ rw t (rw u (record { checkpoints = refl; next = refl }))
        ]
      ]

  pub apply_patch-Same :
      (s : MemoryStore) (ops : List PatchOperation) (dry_run : Bool)
      → Same s (stored_of s (apply_patch path_clean s ops dry_run))
  unfolding apply_patch
  apply_patch-Same s [] dry_run = record { checkpoints = refl; next = refl }
  apply_patch-Same s (op ∷ ops) dry_run =
      split (apply_patch_to_files path_clean s.files (op ∷ ops) dry_run) refl
    where
      split :
          (r : Result Error (Files × PatchResult))
          → apply_patch_to_files path_clean s.files (op ∷ ops) dry_run ≡ r
          → Same s (stored_of s (apply_patch path_clean s (op ∷ ops) dry_run))
      split (ok x) e = rw e (record { checkpoints = refl; next = refl })
      split (err x) e = rw e (record { checkpoints = refl; next = refl })

  pub restore-Same : (s : MemoryStore) (id : String) → Same s (stored_of s (restore s id))
  unfolding restore
  restore-Same s id = elim (Bool-cases (trim_space id == "")) [
    | inl t ↦ rw t (record { checkpoints = refl; next = refl })
    | inr t ↦ rw t (split (lookup (trim_space id) s.checkpoints))
  ]
    where
      split :
          (o : Option Snapshot)
          → Same s (
              stored_of s (elim o [
                | none ↦ err (checkpoint_not_found (trim_space id))
                | some cp ↦ ok (record s { files = cp.files }, cp.checkpoint)
              ]))
      split none = record { checkpoints = refl; next = refl }
      split (some cp) = record { checkpoints = refl; next = refl }

  -- The name that the loop of nextIDLocked finds is not in use.
  next_id_from-fresh :
      (fuel : ℕ) (cs : Dict Snapshot) (n : ℕ) (id : String) (m : ℕ)
      → next_id_from format_id fuel cs n ≡ some (id, m)
      → has id cs ≡ false
  unfolding next_id_from
  next_id_from-fresh zero cs n id m h = cc
  next_id_from-fresh (suc fuel) cs n id m h = elim (Bool-cases (has (format_id n) cs)) [
    | inl t ↦ next_id_from-fresh fuel cs (suc n) id m (rw t at h)
    | inr t ↦
        let k = rw t at h in
        let e : format_id n ≡ id = ground arith in subst (λ x. has x cs ≡ false) e t
  ]

  -- What a new checkpoint adds to the store.
  pub record Made (s t : MemoryStore) (cp : Checkpoint) : Type 0 where
    pub checkpoints :
        t.checkpoints ≡ insert cp.id (record { checkpoint = cp; files = s.files }) s.checkpoints
    pub fresh : has cp.id s.checkpoints ≡ false
    pub files : t.files ≡ s.files
    pub order : t.order ≡ s.order ++ cp.id ∷ []
    pub found :
        next_id_from format_id (suc (length s.checkpoints)) s.checkpoints s.next
        ≡ some (cp.id, t.next)

  pub checkpoint-Made :
      (s t : MemoryStore) (opts : CheckpointOptions) (now : ℕ) (cp : Checkpoint)
      → checkpoint format_id s opts now ≡ some (t, cp)
      → Made s t cp
  unfolding checkpoint
  checkpoint-Made s t opts now cp h =
      split (next_id_from format_id (suc (length s.checkpoints)) s.checkpoints s.next) refl h
    where
      split :
          (o : Option (String × ℕ))
          → next_id_from format_id (suc (length s.checkpoints)) s.checkpoints s.next ≡ o
          → take_checkpoint s opts now o ≡ some (t, cp)
          → Made s t cp
      split none e k = cc k
      split (some (id, m)) e k =
          let made : Checkpoint = record {
            id = id;
            label = trim_space opts.label;
            created_at = now;
            files = count_files s.files;
            metadata = opts.metadata;
          } in
          let same : (record s {
            checkpoints = insert id (record { checkpoint = made; files = s.files }) s.checkpoints;
            order = s.order ++ id ∷ [];
            next = m;
          })
              ≡ t =
            ground arith in
          let made_is : made ≡ cp = ground arith in
          subst (λ (x : MemoryStore). Made s x cp) same
            (subst
              (λ (y : Checkpoint).
                Made s
                  (record s {
                    checkpoints =
                        insert id (record { checkpoint = made; files = s.files }) s.checkpoints;
                    order = s.order ++ id ∷ [];
                    next = m;
                  })
                  y)
              made_is
              (record {
                checkpoints = refl;
                fresh = next_id_from-fresh _ s.checkpoints s.next id m e;
                files = refl;
                order = refl;
                found = e;
              }))

  -- A checkpoint stays as it was taken, whatever call follows.
  execute-keeps :
      (s : MemoryStore) (c : Call) (id : String) (snap : Snapshot)
      → lookup id s.checkpoints ≡ some snap
      → lookup id (execute s c).checkpoints ≡ some snap
  unfolding execute
  execute-keeps s (writing name content) id snap h =
      rw (write_file-Same s name content).checkpoints h
  execute-keeps s (deleting name) id snap h = rw (delete_file-Same s name).checkpoints h
  execute-keeps s (patching ops dry_run) id snap h =
      rw (apply_patch-Same s ops dry_run).checkpoints h
  execute-keeps s (restoring r) id snap h = rw (restore-Same s r).checkpoints h
  execute-keeps s (checkpointing opts now) id snap h = split (checkpoint format_id s opts now) refl
    where
      split :
          (o : Option (MemoryStore × Checkpoint))
          → checkpoint format_id s opts now ≡ o
          → lookup id (checkpointed s o).checkpoints ≡ some snap
      split none e = h
      split (some (t, cp)) e =
          let m = checkpoint-Made s t opts now cp e in
          let f = m.fresh in
          rw m.checkpoints (
            ground (
              arith,
              lookup-insert id cp.id (record { checkpoint = cp; files = s.files }) s.checkpoints,
              eq_iff cp.id id,
            ))

  run-keeps :
      (s : MemoryStore) (cs : List Call) (id : String) (snap : Snapshot)
      → lookup id s.checkpoints ≡ some snap
      → lookup id (run s cs).checkpoints ≡ some snap
  unfolding run
  run-keeps s [] id snap h = h
  run-keeps s (c ∷ cs) id snap h = run-keeps (execute s c) cs id snap (execute-keeps s c id snap h)

  -- Restore, after any calls that follow a checkpoint, brings back the files of the time when it
  -- was taken, changes nothing else and returns it; TrimSpace leaves the checkpoint's ID
  -- as it is, and the ID is not empty.
  pub restore-checkpoint :
      (s t : MemoryStore) (opts : CheckpointOptions) (now : ℕ) (cp : Checkpoint) (cs : List Call)
      → trim_space cp.id ≡ cp.id
      → (cp.id == "") ≡ false
      → checkpoint format_id s opts now ≡ some (t, cp)
      → restore (run t cs) cp.id ≡ ok (record (run t cs) { files = s.files }, cp)
  unfolding restore
  restore-checkpoint s t opts now cp cs e n h =
      let m = checkpoint-Made s t opts now cp h in
      let taken : lookup cp.id t.checkpoints ≡ some (record { checkpoint = cp; files = s.files }) =
        rw m.checkpoints (
          ground (
            arith,
            lookup-insert cp.id cp.id (record { checkpoint = cp; files = s.files }) s.checkpoints,
            eq_refl cp.id,
          )) in
      rw (e, n) (rw (run-keeps t cs cp.id _ taken) refl)
