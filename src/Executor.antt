-- ===== src/Executor.antt =====
-- tool/executor.go: how the executor batches the calls of a turn, and how it cuts long results.
-- A text is valid UTF-8.
use Prim.Native.Char.{len_utf8}
use Prim.Native.String.{len, slice}
use memax_go_agent_sdk.Prelude.{
  ℕ, zero, suc, ◌+◌, String, Bool, true, false, not, ◌&&◌, Option, none, some, Dict, lookup, List,
  [], ◌∷◌, ◌++◌, ltb, leb, if◌then◌else◌,
}
use memax_go_agent_sdk.Prelude.Int.{ℤ, positive_part, is_positive}
use memax_go_agent_sdk.Model.{ToolUse}
use memax_go_agent_sdk.Registry.{Registry, get}
pub mod Batches
pub mod Calls
pub mod Admission
pub mod Cuts
pub mod Tests

pub record Batch : Type 0 where
  pub concurrent : Bool
  pub uses : List ToolUse

-- The body of the loop of partition: the call joins the last batch, or starts one.
unfoldable pub extend : List Batch → ToolUse → Bool → List Batch
extend [] u c = record { concurrent = c; uses = u ∷ [] } ∷ []
extend (b ∷ []) u c =
    if c && b.concurrent
    then record b { uses = b.uses ++ u ∷ [] } ∷ []
    else b ∷ record { concurrent = c; uses = u ∷ [] } ∷ []
extend (b ∷ d ∷ bs) u c = b ∷ extend (d ∷ bs) u c

-- CanRunConcurrently; a registry may be missing.
unfoldable pub can_run_concurrently : Option Registry → ToolUse → Bool
can_run_concurrently none u = false
can_run_concurrently (some registry) u = elim (get registry u.name) [
  | none ↦ false
  | some tool ↦ tool.concurrent u
]

-- The loop of partition, from the batches it has.
unfoldable pub partition_loop : Option Registry → List Batch → List ToolUse → List Batch
unfolding extend
partition_loop registry bs [] = bs
partition_loop registry bs (u ∷ us) =
    partition_loop registry (extend bs u (can_run_concurrently registry u)) us

-- partition
unfoldable pub partition : Option Registry → List ToolUse → List Batch
unfolding partition_loop
partition registry us = partition_loop registry [] us

-- The loop of truncateUTF8 over the positions where a rune starts.
unfoldable pub cut_loop : ℕ → String → ℕ → ℕ → ℕ
cut_loop limit String.[] i end = end
cut_loop limit (String.◌∷◌ c s) i end =
    if ltb limit i then end else cut_loop limit s (i + len_utf8 c) i

-- truncateUTF8
unfoldable pub truncate_utf8 : String → ℤ → String
unfolding cut_loop
truncate_utf8 s limit =
    if not (is_positive limit)
    then ""
    else if leb (len s) (positive_part limit)
    then s
    else slice s 0 (cut_loop (positive_part limit) s 0 0)
