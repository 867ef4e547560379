-- ===== src/Agent/Tools.antt =====
-- agent.go: the end of a turn that has calls, handleToolResult and the loop that runs the calls.
use memax_go_agent_sdk.Prelude.{ℕ, suc, ◌-◌, Option, none, some, List, [], ◌∷◌, ◌++◌, length}
use memax_go_agent_sdk.Model.{ToolUse, ToolResult}
use memax_go_agent_sdk.Agent.Events.{RunError, Body}
use memax_go_agent_sdk.Agent.ToolEvents.{tool_events}
use memax_go_agent_sdk.Agent.Messages.{tool_message}
use memax_go_agent_sdk.Agent.Run.{
  Host, Step, ◌>>=◌, ◌>>◌, return, change, ask, send, count_tool_calls, append_or_fail,
}
use memax_go_agent_sdk.Agent.Stream.{Collected, early_at}

-- The calls of a turn as the last loop takes them: the results of a call that was started early, or
-- a batch of the calls up to the next such.
pub data Chunk : Type 0 where
  started : List ToolResult → Chunk
  batch : List ToolUse → Chunk

abbrev pub join_batch : ToolUse → List Chunk → List Chunk
join_batch u [] = batch (u ∷ []) ∷ []
join_batch u (started rs ∷ cs) = batch (u ∷ []) ∷ started rs ∷ cs
join_batch u (batch us ∷ cs) = batch (u ∷ us) ∷ cs

abbrev pub extend_chunks : Option (List ToolResult) → ToolUse → List Chunk → List Chunk
extend_chunks (some rs) u cs = started rs ∷ cs
extend_chunks none u cs = join_batch u cs

unfoldable pub chunks : List (ℕ × List ToolResult) → ℕ → List ToolUse → List Chunk
chunks early i [] = []
chunks early i (u ∷ us) = extend_chunks (early_at early i) u (chunks early (suc i) us)

module _ (host : Host) (turn : ℕ) where
  unfoldable pub send_all : List Body → Step (Unit {0})
  unfolding send
  send_all [] = return tt
  send_all (b ∷ bs) = do send host turn b; send_all bs

  unfoldable pub handle_tool_result : ToolResult → Step (Unit {0})
  unfolding send_all tool_events append_or_fail
  handle_tool_result r = do
    send_all (tool_events host.scope host.session_id host.parent_session_id r)
    append_or_fail host turn RunError.append_result (tool_message r)

  unfoldable pub handle_results : List ToolResult → Step (Unit {0})
  unfolding handle_tool_result
  handle_results [] = return tt
  handle_results (r ∷ rs) = do handle_tool_result r; handle_results rs

  unfoldable pub run_chunk : Chunk → Step (Unit {0})
  unfolding ask handle_results
  run_chunk (started rs) = handle_results rs
  run_chunk (batch us) = do
    change (λ s. record s { executed = s.executed ++ us })
    rs ← ask (host.run_tools us)
    handle_results rs

  unfoldable pub run_chunks : List Chunk → Step (Unit {0})
  unfolding run_chunk
  run_chunks [] = return tt
  run_chunks (c ∷ cs) = do run_chunk c; run_chunks cs

  -- The end of a turn that has calls: the budget, then the results in the order of the calls.
  unfoldable pub run_tools : Collected → Step (Unit {0})
  unfolding count_tool_calls run_chunks chunks
  run_tools c = do
    let remaining = length c.uses - length c.early
    count_tool_calls host turn remaining
    run_chunks (chunks c.early 0 c.uses)
