-- ===== src/Workspace/Tests.antt =====
-- Tests of workspace/workspace.go on a workspace of two files.
use memax_go_agent_sdk.Prelude.{
  ℕ, zero, suc, String, true, false, none, some, List, [], ◌∷◌, lookup, insert, delete, ok, ◌≡◌,
  ◌↔◌, refl, sym, ap, All, IsOk,
}
use memax_go_agent_sdk.Prelude.Text.{trim_space}
use memax_go_agent_sdk.Workspace.Files.{
  Files, names_of, Change, added, modified, deleted, PatchOperation, clean_path, invalid_path,
  apply_operation, apply_patch_to_files, diff_files,
}
use memax_go_agent_sdk.Workspace.Store.{
  Checkpoint, CheckpointOptions, MemoryStore, next_id_from, new_memory_store, apply_patch,
  checkpoint, restore, count_files,
}
use memax_go_agent_sdk.Workspace.Patches.{Patched, after_changes}
use memax_go_agent_sdk.Workspace.Previews.{
  previewed, admits, apply_patch-preview, apply_patch-Patched, apply_operation-accepts_iff,
}
use memax_go_agent_sdk.Workspace.Diffs.{IsReal, diff_files-exact}
use memax_go_agent_sdk.Workspace.Restores.{
  Call, writing, patching, checkpointing, run, restore-checkpoint,
}
use memax_go_agent_sdk.Workspace.Numbering.{checkpoint-total}

-- path.Clean on a path that is clean.
abbrev same_path : String → String
same_path name = name

abbrev two_files : Files
two_files = ("a.go", "one") ∷ ("b.go", "two") ∷ []

abbrev workspace : MemoryStore
workspace = record {
  files = two_files;
  checkpoints = [];
  order = [];
  next = 1;
  base_id = "checkpoint-0";
}

abbrev operations : List PatchOperation
operations =
    record { path = " /a.go"; old_content = some "one"; new_content = some "three" }
    ∷ record { path = "b.go"; old_content = none; new_content = none }
    ∷ record { path = "c.go"; old_content = none; new_content = some "new" }
    ∷ []

abbrev patched_files : Files
patched_files = ("a.go", "three") ∷ ("c.go", "new") ∷ []

abbrev changes : List Change
changes =
    record { path = "a.go"; kind = modified; before = "one"; after = "three" }
    ∷ record { path = "b.go"; kind = deleted; before = "two"; after = "" }
    ∷ record { path = "c.go"; kind = added; before = ""; after = "new" }
    ∷ []

abbrev patched : MemoryStore
patched = record workspace { files = patched_files }

applies :
    apply_patch same_path workspace operations false
    ≡ ok (patched, record { changes = changes; dry_run = false })
unfolding apply_patch apply_patch_to_files clean_path invalid_path lookup insert delete trim_space
applies = refl

diffs : diff_files two_files patched_files ≡ changes
unfolding diff_files lookup
diffs = refl

apply_patch-preview_example :
    apply_patch same_path workspace operations true
    ≡ previewed workspace (apply_patch same_path workspace operations false)
apply_patch-preview_example = apply_patch-preview same_path workspace operations

apply_patch-Patched_example :
    Patched same_path two_files patched_files operations changes
    × (patched ≡ record workspace { files = patched_files })
    × (false ≡ false)
apply_patch-Patched_example =
    apply_patch-Patched same_path workspace patched operations
      (record { changes = changes; dry_run = false }) applies

abbrev guarded : PatchOperation
guarded = record { path = "a.go"; old_content = some "two"; new_content = none }

apply_operation-accepts_iff_example :
    IsOk (apply_operation same_path two_files guarded)
    ↔ (invalid_path same_path (clean_path same_path "a.go") ≡ false)
      × (admits (some "two") none (lookup (clean_path same_path "a.go") two_files) ≡ true)
apply_operation-accepts_iff_example = apply_operation-accepts_iff same_path two_files guarded

diff_files-exact_example :
    ((j : String)
      → after_changes j (diff_files two_files patched_files) (lookup j two_files)
        ≡ lookup j patched_files)
    × All (IsReal two_files patched_files) (diff_files two_files patched_files)
diff_files-exact_example = diff_files-exact two_files patched_files

abbrev numbered : ℕ → String
numbered zero = "checkpoint-0"
numbered (suc n) = String.◌∷◌ "1" (numbered n)

abbrev first_of : String → String
first_of String.[] = String.[]
first_of (String.◌∷◌ c s) = String.◌∷◌ c String.[]

abbrev rest_of : String → String
rest_of String.[] = String.[]
rest_of (String.◌∷◌ c s) = s

different : Path String "c" "1" → ⊥
different h = cc h

numbered-injective : (m n : ℕ) → numbered m ≡ numbered n → m ≡ n
numbered-injective zero zero h = refl
numbered-injective zero (suc n) h = absurd (different (ap first_of h))
numbered-injective (suc m) zero h = absurd (different (sym (ap first_of h)))
numbered-injective (suc m) (suc n) h = ap suc (numbered-injective m n (ap rest_of h))

abbrev options : CheckpointOptions
options = record { label = " before "; metadata = [] }

abbrev taken : Checkpoint
taken = record { id = "1checkpoint-0"; label = "before"; created_at = 7; files = 2; metadata = [] }

abbrev with_checkpoint : MemoryStore
with_checkpoint = record workspace {
  checkpoints = ("1checkpoint-0", record { checkpoint = taken; files = two_files }) ∷ [];
  order = "1checkpoint-0" ∷ [];
  next = 2;
}

takes : checkpoint numbered workspace options 7 ≡ some (with_checkpoint, taken)
unfolding checkpoint next_id_from lookup insert count_files names_of trim_space
takes = refl

abbrev calls : List Call
calls = patching operations false ∷ checkpointing options 8 ∷ writing "d.go" "four" ∷ []

trimmed : trim_space "1checkpoint-0" ≡ "1checkpoint-0"
unfolding trim_space
trimmed = refl

restore-checkpoint_example :
    restore (run same_path numbered with_checkpoint calls) "1checkpoint-0"
    ≡ ok (record (run same_path numbered with_checkpoint calls) { files = two_files }, taken)
restore-checkpoint_example =
    restore-checkpoint same_path numbered workspace with_checkpoint options 7 taken calls trimmed
      refl takes

checkpoint-total_example :
    (t : MemoryStore) × (cp : Checkpoint) × (checkpoint numbered
        (run same_path numbered (new_memory_store same_path two_files 1) calls)
        options
        9
      ≡ some (t, cp))
    × (cp.id
        ≡ numbered (run same_path numbered (new_memory_store same_path two_files 1) calls).next)
    × (t.next ≡ suc (run same_path numbered (new_memory_store same_path two_files 1) calls).next)
checkpoint-total_example =
    checkpoint-total same_path numbered numbered-injective two_files 1 9 calls options refl
