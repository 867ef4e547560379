-- ===== src/Lib.antt =====
-- A model of the Memax Go Agent SDK: the agent loop, the transcript that it keeps, the policies that
-- bound and guard a run, the choice and the batching of tools, and the stores that keep sessions and
-- workspaces.
--
-- The agent loop sends a transcript to a model. Before it does, it repairs the pairing of tool calls
-- and results, lets a context window policy select and summarize messages, and asks the planner for
-- steps; the tools that it offers are selected from all that are registered. A budget policy is
-- asked before each call of the model and of tools, and a permission policy before each tool call;
-- calls run in batches, those that may run beside others while the model still answers.
-- The transcript is kept by a session store, the files that tools change by a workspace store.
--
-- Files, and the code they are about:
--   Prelude             lists, maps, results, integers, texts, orders and stable sorts
--   Model               model/types.go, internal/metadatavalues/metadatavalues.go
--   Agent               agent.go, the function runLoop and what it calls:
--     TextStream        assistantTextStreamNormalizer
--     Events            events.go and the usage of model/client.go
--     ToolEvents        the events about the metadata of a tool's result
--     Run               the state of a run, its host, emit, finish, the budget, appending messages
--     Messages          prompts that ask again, prepareMessagesForModel
--     Stream            collectAssistant with the early calls, emitCanceledEarlyToolResults
--     Context           the context policy, the tenant check, the request and its retry
--     Tools             the tool calls of a turn
--     Final             the final answer of a turn
--     Turn              a turn, the loop over the turns
--     Heeded            the events whose loss stops a run at once
--     Machine           an abstract machine with a budget ledger, whose moves Rules, BudgetRules,
--                       StreamRules, ContextRules and TurnRules show the steps of runLoop to be
--     Ending, Asking, Spending, History, Protocol   what a run keeps, as invariants of the machine
--   Tenant              tenant/tenant.go
--   ResultStore         resultstore/resultstore.go
--   TranscriptRepair    internal/transcriptrepair/repair.go
--   Budget              budget/budget.go
--   Permission          permission/permission.go
--   ContextWindow       contextwindow/policy.go (Suffix: RecentMessages, TokenBudget; Truncation:
--                       truncateTextMessage; Summary: SummarizingBudget)
--   Session             session/store.go, session/compaction.go
--   Workspace           workspace/workspace.go (Files: applyPatchToFiles, diffFiles and paths; Store:
--                       the methods of MemoryStore)
--   Planner             planner/planner.go
--   Registry            tool/registry.go, and the interface of tool/tool.go
--   Selection           tool/selection.go
--   Executor            tool/executor.go (Batches: partition; Cuts: truncateUTF8; Calls: runOne and
--                       enforceResultLimit; Admission: which calls run)
-- A function keeps its name, in snake case. A method takes the state and returns the new one; an
-- error is a constructor of the component's Error type. The stores are sequential: each method holds
-- its mutex for its whole body. A map is an association list, read by lookup alone; where the code
-- ranges over a map it sorts the names. A nil receiver is left out. A cancelled context is an answer
-- of the host in the agent loop, an error of the context in Budget and Planner, and left out
-- elsewhere.
--
-- The agent loop is a program of steps on a record, Run, that holds the session store, the budget
-- tracker and the counters, with a log of the events that were received and of those that nobody took,
-- of the requests sent, of the calls given to the executor and of the calls of finish. A step returns a value, ends the turn
-- or ends the run, as the code falls through, returns, or returns with shouldStop. All that the code
-- asks of others, the record Host answers, and an answer may depend on everything that happened so
-- far: the model's stream, tools, hooks, policies, the clock, the observer of events and the
-- context's state. The error of registryWithSkillTools, if there is one, is given with the host.
-- A tool that writes to the session store itself is outside of the model. The events
-- of a stream are a list with what Recv and Close return at its end.
--
-- The executor's runOne has a host of its own, whose answers depend on the calls executed before. An
-- error of a tool is a text, so a tenant's refusal that a tool passes on is not marked in metadata.
--
-- Machine integers: counts of tokens, messages and bytes are unbounded, as they stay far below 2^63.
-- A limit or an estimate that a host gives may be negative and is an integer.
--
-- Bounds and fuel: the loop of RepairToolUseAdjacency has the length of the transcript as fuel, since
-- each round moves past a message; the search of truncateTextMessage the number of runes and two,
-- since each round narrows the range; the loop of nextIDLocked the number of checkpoints and one.
-- The loop over the turns recurses on the number of turns that are left, and needs no fuel.
--
-- Parameters, for code of Go and its libraries: json_valid (json.Valid), hash_text (SHA-256), quote
-- (the %q of fmt), glob (path.Match), decode (json.Unmarshal), path_clean (path.Clean), format_id
-- (fmt.Sprintf of the number of a checkpoint or of a result), compile (the schema compiler), lower, contains_text and
-- fields (strings.ToLower, strings.Contains and strings.FieldsFunc), is_letter, is_digit, is_upper and
-- is_lower (the classes of unicode), same_messages (reflect.DeepEqual), error_text (the text of an
-- error), the IDs of uuid.NewV7, the clock, and the estimators, summarizers, approvers and task
-- sources of the host.
--
-- Not modelled: Query and its start-up, the skill tools, the parts of a prompt and the distillation
-- of memories, which answer as the host in the agent loop; the concurrent calls of a batch,
-- PreserveImportant, unified diffs, stores on files, databases and git, the tool kits and stacks,
-- model providers, telemetry: they are input and output, or assemblies of the parts above.
pub mod Prelude
pub mod Model
pub mod TranscriptRepair
pub mod Budget
pub mod Permission
pub mod ContextWindow
pub mod Session
pub mod Workspace
pub mod Planner
pub mod Selection
pub mod Executor
pub mod Registry
pub mod ResultStore
pub mod Tenant
pub mod Agent
