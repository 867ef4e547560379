-- ===== src/Session/Store.antt =====
-- session/store.go: MemoryStore, and the compaction checkpoints of session/compaction.go.
use memax_go_agent_sdk.Prelude.{
  ℕ, suc, String, Bool, not, Option, none, some, List, [], ◌∷◌, ◌++◌, Dict, lookup, insert, length,
  take, drop, select, ltb, eqb, ◌==◌, if◌then◌else◌, Result, ok, err, ◌>>=◌,
}
use memax_go_agent_sdk.Prelude.Int.{ℤ, pos, lt_int, positive_part}
use memax_go_agent_sdk.Prelude.Order.{text_less}
use memax_go_agent_sdk.Prelude.Sort.{stable_sort}
use memax_go_agent_sdk.Model.{Message, clone_message, clone_messages}
use memax_go_agent_sdk.Session.Ids.{canonical_id}

pub data Error : Type 0 where
  invalid_session_id invalid_parent_id unknown_session message_not_found : String → Error
  generate_id : String → Error
  negative_raw_count : Error
  invalid_compaction_id : String → Error
  raw_count_exceeds : ℤ → ℕ → Error

pub record Session : Type 0 where
  pub id : String
  pub parent_id : String
  pub created_at : ℕ

pub record CompactionCheckpoint : Type 0 where
  pub id : String
  pub created_at : ℕ
  pub raw_message_count : ℤ
  pub messages : List Message
  pub policy : String
  pub reason : String
  pub summary_hash : String
  pub summary_preview : String

pub record MemorySession : Type 0 where
  pub session : Session
  pub messages : List Message
  pub compaction : Option CompactionCheckpoint

pub record MessageView : Type 0 where
  pub messages : List Message
  pub raw_message_count : ℕ
  pub compaction : Option CompactionCheckpoint

abbrev pub Store : Type 0
Store = Dict MemorySession

-- What uuid.NewV7 gives.
abbrev pub NewId : Type 0
NewId = Result String String

abbrev pub new_id : NewId → Result Error String
new_id (ok id) = ok id
new_id (err e) = err (generate_id e)

unfoldable pub canonical_required_id : String → Result Error String
canonical_required_id id = elim (canonical_id id) [
  | none ↦ err (invalid_session_id id)
  | some c ↦ ok c
]

unfoldable pub canonical_parent_id : String → Result Error String
canonical_parent_id id =
    if id == ""
    then ok ""
    else (elim (canonical_id id) [ none ↦ err (invalid_parent_id id) | some c ↦ ok c ])

-- s.sessions[id], or the error that every method gives for a missing one.
unfoldable pub known_session : Store → String → Result Error MemorySession
known_session s id = elim (lookup id s) [ none ↦ err (unknown_session id) | some r ↦ ok r ]

abbrev pub fresh_session : String → String → ℕ → Session
fresh_session id parent now = record { id = id; parent_id = parent; created_at = now }

abbrev pub starting : Session → List Message → MemorySession
starting session ms = record { session = session; messages = ms; compaction = none }

-- CreateWithOptions; Create passes no parent.
unfoldable pub create_with_options : Store → String → NewId → ℕ → Result Error (Store × Session)
unfolding canonical_parent_id
create_with_options s parent fresh now = do
  parent_id ← canonical_parent_id parent
  id ← new_id fresh
  let session = fresh_session id parent_id now
  ok (insert id (starting session []) s, session)

-- Get
unfoldable pub get : Store → String → Result Error Session
unfolding canonical_required_id known_session
get s id = do id ← canonical_required_id id; r ← known_session s id; ok r.session

-- The order of sortSessions.
abbrev pub session_less : Session → Session → Bool
session_less a b =
    if not (eqb a.created_at b.created_at)
    then ltb a.created_at b.created_at
    else text_less a.id b.id

abbrev pub sessions_of : Store → List Session
sessions_of [] = []
sessions_of ((id, r) ∷ s) = r.session ∷ sessions_of s

-- List
unfoldable pub list : Store → List Session
list s = stable_sort session_less (sessions_of s)

-- Children
unfoldable pub children : Store → String → Result Error (List Session)
unfolding canonical_parent_id
children s parent = do
  parent_id ← canonical_parent_id parent
  ok (stable_sort session_less (select (λ x. x.parent_id == parent_id) (sessions_of s)))

-- The index after the message with an ID.
unfoldable pub fork_limit : List Message → String → Option ℕ
fork_limit [] id = none
fork_limit (m ∷ ms) id =
    if m.id == id then some 1 else (elim (fork_limit ms id) [ none ↦ none | some n ↦ some (suc n) ])

-- The ID that normalizeCompactionCheckpoint gives a checkpoint.
abbrev pub compaction_id : CompactionCheckpoint → NewId → Result Error String
compaction_id c fresh =
    if c.id == ""
    then new_id fresh
    else (elim (canonical_id c.id) [ none ↦ err (invalid_compaction_id c.id) | some k ↦ ok k ])

module _ (json_valid : String → Bool) where
  -- Append; a message with no ID gets one.
  unfoldable pub append : Store → String → Message → NewId → Result Error Store
  unfolding canonical_required_id known_session
  append s id m fresh = do
    id ← canonical_required_id id
    message_id ← if m.id == "" then new_id fresh else ok m.id
    r ← known_session s id
    ok (
        insert id
          (record r {
            messages = r.messages ++ clone_message json_valid (record m { id = message_id }) ∷ [];
          })
          s)

  -- Messages
  unfoldable pub messages : Store → String → Result Error (List Message)
  unfolding canonical_required_id known_session
  messages s id = do
    id ← canonical_required_id id
    r ← known_session s id
    ok (clone_messages json_valid r.messages)

  -- messageView
  unfoldable pub view_of : List Message → Option CompactionCheckpoint → Result Error MessageView
  view_of raw none = ok (record {
    messages = clone_messages json_valid raw;
    raw_message_count = length raw;
    compaction = none;
  })
  view_of raw (some c) =
      if lt_int (pos (length raw)) c.raw_message_count
      then err (raw_count_exceeds c.raw_message_count (length raw))
      else ok (record {
        messages =
            clone_messages json_valid c.messages
            ++ clone_messages json_valid (drop (positive_part c.raw_message_count) raw);
        raw_message_count = length raw;
        compaction = some (record c { messages = clone_messages json_valid c.messages });
      })

  -- MessageView
  unfoldable pub message_view : Store → String → Result Error MessageView
  unfolding canonical_required_id known_session
  message_view s id = do
    id ← canonical_required_id id
    r ← known_session s id
    view_of r.messages r.compaction

  -- normalizeCompactionCheckpoint
  unfoldable pub normalize_checkpoint :
      CompactionCheckpoint → NewId → ℕ → Result Error CompactionCheckpoint
  normalize_checkpoint c fresh now =
      if lt_int c.raw_message_count (pos 0) then err negative_raw_count else do
        id ← compaction_id c fresh
        ok (record c {
          id = id;
          created_at = if eqb c.created_at 0 then now else c.created_at;
          messages = clone_messages json_valid c.messages;
        })

  -- SaveCompaction
  unfoldable pub save_compaction :
      Store → String → CompactionCheckpoint → NewId → ℕ → Result Error Store
  unfolding canonical_required_id known_session
  save_compaction s id c fresh now = do
    id ← canonical_required_id id
    c ← normalize_checkpoint c fresh now
    r ← known_session s id
    if lt_int (pos (length r.messages)) c.raw_message_count
        then err (raw_count_exceeds c.raw_message_count (length r.messages))
        else ok (insert id (record r { compaction = some c }) s)

  -- forkMessages
  unfoldable pub fork_messages : List Message → String → Result Error (List Message)
  fork_messages ms through =
      if through == "" then ok (clone_messages json_valid ms) else (elim (fork_limit ms through) [
        | none ↦ err (message_not_found through)
        | some n ↦ ok (clone_messages json_valid (take n ms))
      ])

  -- Fork
  unfoldable pub fork :
      Store → String → String → String → NewId → ℕ → Result Error (Store × Session)
  unfolding canonical_required_id canonical_parent_id known_session
  fork s id parent through fresh now = do
    id ← canonical_required_id id
    parent_id ← canonical_parent_id parent
    source ← known_session s id
    ms ← fork_messages source.messages through
    new ← new_id fresh
    let session = fresh_session new (if parent_id == "" then id else parent_id) now
    ok (insert new (starting session (clone_messages json_valid ms)) s, session)
