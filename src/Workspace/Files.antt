-- ===== src/Workspace/Files.antt =====
-- workspace/workspace.go: paths, patches and diffs over a map of files.
use memax_go_agent_sdk.Prelude.{
  String, Bool, false, not, ◌||◌, Option, none, some, List, [], ◌∷◌, ◌++◌, Dict, lookup, insert,
  delete, ◌==◌, if◌then◌else◌, Result, ok, err, ◌>>=◌, contains,
}
use memax_go_agent_sdk.Prelude.Text.{trim_space}
use memax_go_agent_sdk.Prelude.Sort.{stable_sort}
use memax_go_agent_sdk.Prelude.Order.{text_less}

pub data ChangeKind : Type 0 where
  added modified deleted : ChangeKind

pub record Change : Type 0 where
  pub path : String
  pub kind : ChangeKind
  pub before : String
  pub after : String

pub record PatchOperation : Type 0 where
  pub path : String
  pub old_content : Option String
  pub new_content : Option String

pub record PatchResult : Type 0 where
  pub changes : List Change
  pub dry_run : Bool

pub data Error : Type 0 where
  invalid_file_path file_not_found guard_missing guard_mismatch delete_missing : String → Error
  no_operations id_required : Error
  checkpoint_not_found : String → Error

abbrev pub Files : Type 0
Files = Dict String

-- strings.TrimPrefix(name, "/")
abbrev pub without_slash : String → String
without_slash String.[] = String.[]
without_slash (String.◌∷◌ c s) = if String.◌∷◌ c String.[] == "/" then s else String.◌∷◌ c s

-- strings.HasPrefix(name, "../")
abbrev pub goes_up : String → Bool
goes_up (String.◌∷◌ a (String.◌∷◌ b (String.◌∷◌ c s))) =
    String.◌∷◌ a (String.◌∷◌ b (String.◌∷◌ c String.[])) == "../"
goes_up _ = false

-- map keys: each name once.
unfoldable pub names_of : Files → List String
names_of [] = []
names_of ((k, v) ∷ m) = let rest = names_of m in if contains rest k then rest else k ∷ rest

-- The names that diffFiles sees: those of both maps, each once.
unfoldable pub all_names : Files → Files → List String
unfolding names_of
all_names before after = names_of (before ++ after)

-- The body of the loop of diffFiles, for what a name holds before and after.
abbrev pub changed : String → Option String → Option String → List Change
changed name none none = []
changed name none (some new) = record { path = name; kind = added; before = ""; after = new } ∷ []
changed name (some old) none = record { path = name; kind = deleted; before = old; after = "" } ∷ []
changed name (some old) (some new) =
    if not (old == new)
    then record { path = name; kind = modified; before = old; after = new } ∷ []
    else []

unfoldable pub changes_of : Files → Files → List String → List Change
changes_of before after [] = []
changes_of before after (n ∷ ns) =
    changed n (lookup n before) (lookup n after) ++ changes_of before after ns

-- diffFiles
unfoldable pub diff_files : Files → Files → List Change
unfolding changes_of all_names
diff_files before after = changes_of before after (stable_sort text_less (all_names before after))

module _ (path_clean : String → String) where
  -- cleanPath
  unfoldable pub clean_path : String → String
  clean_path name =
      let trimmed = without_slash (trim_space name) in
      if trimmed == "" then "." else path_clean trimmed

  -- invalidPath
  unfoldable pub invalid_path : String → Bool
  unfolding clean_path
  invalid_path name = let clean = clean_path name in clean == "." || clean == ".." || goes_up clean

  -- The guard on the old content in applyPatchToFiles.
  unfoldable pub check_guard : String → Option String → Option String → Result Error (Unit {0})
  check_guard name none before = ok tt
  check_guard name (some old) none = err (guard_missing name)
  check_guard name (some old) (some before) =
      if not (before == old) then err (guard_mismatch name) else ok tt

  -- What one operation does to a file that is there with a content, or is missing.
  unfoldable pub mutate :
      String → Option String → Option String → Files → Result Error (Files × Change)
  mutate name none none next = err (delete_missing name)
  mutate name none (some before) next =
      ok (delete name next, record { path = name; kind = deleted; before = before; after = "" })
  mutate name (some after) none next =
      ok (insert name after next, record { path = name; kind = added; before = ""; after = after })
  mutate name (some after) (some before) next = ok (
    insert name after next,
    record { path = name; kind = modified; before = before; after = after },
  )

  -- The body of the loop of applyPatchToFiles.
  unfoldable pub apply_operation : Files → PatchOperation → Result Error (Files × Change)
  unfolding check_guard mutate invalid_path clean_path
  apply_operation next op =
      let name = clean_path op.path in
      if invalid_path name then err (invalid_file_path op.path) else do
        guarded ← check_guard name op.old_content (lookup name next)
        mutate name op.new_content (lookup name next) next

  unfoldable pub apply_operations : Files → List PatchOperation → Result Error (Files × List Change)
  unfolding apply_operation
  apply_operations next [] = ok (next, [])
  apply_operations next (op ∷ ops) = do
    (next1, change) ← apply_operation next op
    (next2, changes) ← apply_operations next1 ops
    ok (next2, change ∷ changes)

  -- applyPatchToFiles: the files after it, and its result.
  unfoldable pub apply_patch_to_files :
      Files → List PatchOperation → Bool → Result Error (Files × PatchResult)
  unfolding apply_operations
  apply_patch_to_files files ops dry_run = do
    (next, changes) ← apply_operations files ops
    ok (if dry_run then files else next, record { changes = changes; dry_run = dry_run })
