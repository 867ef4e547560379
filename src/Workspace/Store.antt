-- ===== src/Workspace/Store.antt =====
-- workspace/workspace.go: the operations of MemoryStore. `format_id` stands for
-- fmt.Sprintf("checkpoint-%d", n). A nil store and a cancelled context are left out.
use Prim.Native.String.{◌++◌ as text_append}
use memax_go_agent_sdk.Prelude.{
  ℕ, zero, suc, String, Bool, true, false, not, ◌&&◌, ◌||◌, Option, none, some, List, [], ◌∷◌, ◌++◌,
  Dict, lookup, insert, delete, has, length, select, ◌==◌, if◌then◌else◌, Result, ok, err, ◌>>=◌,
}
use memax_go_agent_sdk.Prelude.Text.{trim_space}
use memax_go_agent_sdk.Prelude.Order.{text_less}
use memax_go_agent_sdk.Prelude.Sort.{stable_sort}
use memax_go_agent_sdk.Model.{Metadata}
use memax_go_agent_sdk.Workspace.Files.{
  Files, Change, PatchOperation, PatchResult, Error, invalid_file_path, file_not_found,
  no_operations, id_required, checkpoint_not_found, clean_path, invalid_path, apply_patch_to_files,
  diff_files, names_of,
}

pub record Checkpoint : Type 0 where
  pub id : String
  pub label : String
  pub created_at : ℕ
  pub files : ℕ
  pub metadata : Metadata

pub record CheckpointOptions : Type 0 where
  pub label : String
  pub metadata : Metadata

pub record Snapshot : Type 0 where
  pub checkpoint : Checkpoint
  pub files : Files

pub record MemoryStore : Type 0 where
  pub files : Files
  pub checkpoints : Dict Snapshot
  pub order : List String
  pub next : ℕ
  pub base_id : String

pub record Diff : Type 0 where
  pub base_id : String
  pub changes : List Change

-- strings.HasPrefix
abbrev pub has_prefix : String → String → Bool
has_prefix s String.[] = true
has_prefix String.[] (String.◌∷◌ d p) = false
has_prefix (String.◌∷◌ c s) (String.◌∷◌ d p) =
    String.◌∷◌ c String.[] == String.◌∷◌ d String.[] && has_prefix s p

-- How many files a map holds.
unfoldable pub count_files : Files → ℕ
count_files m = length (names_of m)

-- The loop of nextIDLocked, with the next number after it.
unfoldable pub next_id_from : (ℕ → String) → ℕ → Dict Snapshot → ℕ → Option (String × ℕ)
next_id_from format_id zero checkpoints next = none
next_id_from format_id (suc fuel) checkpoints next =
    let rest = next_id_from format_id fuel checkpoints (suc next) in
    if not (has (format_id next) checkpoints) then some (format_id next, suc next) else rest

module _ (path_clean : String → String) where
  -- The files that NewMemoryStore keeps of its argument.
  unfoldable pub seeded : Files → Files
  unfolding clean_path
  seeded [] = []
  seeded ((name, content) ∷ m) =
      let clean = clean_path path_clean name in
      let rest = seeded m in if not (clean == ".") then insert clean content rest else rest

  -- NewMemoryStore
  unfoldable pub new_memory_store : Files → ℕ → MemoryStore
  unfolding seeded count_files
  new_memory_store files now =
      let kept = seeded files in
      let initial : Checkpoint = record {
        id = "checkpoint-0";
        label = "initial";
        created_at = now;
        files = count_files kept;
        metadata = [];
      } in
      record {
        files = kept;
        checkpoints = ("checkpoint-0", record { checkpoint = initial; files = kept }) ∷ [];
        order = "checkpoint-0" ∷ [];
        next = 1;
        base_id = "checkpoint-0";
      }

  -- ReadFile
  unfoldable pub read_file : MemoryStore → String → Result Error String
  read_file s name = elim (lookup (clean_path path_clean name) s.files) [
    | none ↦ err (file_not_found (clean_path path_clean name))
    | some content ↦ ok content
  ]

  -- WriteFile
  unfoldable pub write_file : MemoryStore → String → String → Result Error MemoryStore
  write_file s name content =
      let clean = clean_path path_clean name in
      if invalid_path path_clean clean
      then err (invalid_file_path clean)
      else ok (record s { files = insert clean content s.files })

  -- DeleteFile
  unfoldable pub delete_file : MemoryStore → String → Result Error MemoryStore
  delete_file s name =
      let clean = clean_path path_clean name in
      if invalid_path path_clean clean
      then err (invalid_file_path clean)
      else if not (has clean s.files)
      then err (file_not_found clean)
      else ok (record s { files = delete clean s.files })

  -- cleanPrefix
  abbrev clean_prefix : String → String
  clean_prefix prefix =
      let clean = clean_path path_clean prefix in if clean == "." then "" else clean

  -- ListFiles
  unfoldable pub list_files : MemoryStore → String → List String
  unfolding names_of
  list_files s prefix =
      let under = clean_prefix prefix in
      stable_sort text_less (
        select (λ name. under == "" || name == under || has_prefix name (text_append under "/"))
          (names_of s.files))

  -- applyPatch: ApplyPatch is the run with dry_run false, PreviewPatch the one with true.
  unfoldable pub apply_patch :
      MemoryStore → List PatchOperation → Bool → Result Error (MemoryStore × PatchResult)
  apply_patch s [] dry_run = err no_operations
  apply_patch s (op ∷ ops) dry_run = do
    (files, result) ← apply_patch_to_files path_clean s.files (op ∷ ops) dry_run
    ok (record s { files = files }, result)

-- Diff
unfoldable pub diff : MemoryStore → String → Result Error Diff
diff s base_id =
    let id = if trim_space base_id == "" then s.base_id else base_id in
    elim (lookup id s.checkpoints) [
      | none ↦ err (checkpoint_not_found id)
      | some base ↦ ok (record { base_id = id; changes = diff_files base.files s.files })
    ]

-- What Checkpoint does with the name and the number that nextIDLocked gives.
abbrev pub take_checkpoint :
    MemoryStore → CheckpointOptions → ℕ → Option (String × ℕ) → Option (MemoryStore × Checkpoint)
take_checkpoint s opts now none = none
take_checkpoint s opts now (some (id, next)) =
    let made : Checkpoint = record {
      id = id;
      label = trim_space opts.label;
      created_at = now;
      files = count_files s.files;
      metadata = opts.metadata;
    } in
    some (
      record s {
        checkpoints = insert id (record { checkpoint = made; files = s.files }) s.checkpoints;
        order = s.order ++ id ∷ [];
        next = next;
      },
      made,
    )

-- Checkpoint. The loop needs one round for each checkpoint there is, and one more.
unfoldable pub checkpoint :
    (ℕ → String) → MemoryStore → CheckpointOptions → ℕ → Option (MemoryStore × Checkpoint)
checkpoint format_id s opts now =
    take_checkpoint s opts now
      (next_id_from format_id (suc (length s.checkpoints)) s.checkpoints s.next)

-- Restore
unfoldable pub restore : MemoryStore → String → Result Error (MemoryStore × Checkpoint)
restore s id =
    let trimmed = trim_space id in
    if trimmed == "" then err id_required else (elim (lookup trimmed s.checkpoints) [
      | none ↦ err (checkpoint_not_found trimmed)
      | some cp ↦ ok (record s { files = cp.files }, cp.checkpoint)
    ])

-- ListCheckpoints
unfoldable pub list_checkpoints : MemoryStore → List Checkpoint
list_checkpoints s = listed s.order
  where
    listed : List String → List Checkpoint
    listed [] = []
    listed (id ∷ ids) = elim (lookup id s.checkpoints) [
      | none ↦ listed ids
      | some cp ↦ cp.checkpoint ∷ listed ids
    ]
