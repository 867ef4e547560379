-- ===== src/Session/Tests.antt =====
-- Tests of session/store.go on a session with two messages.
use memax_go_agent_sdk.Prelude.{
  String, Bool, true, false, none, some, List, [], ◌∷◌, ◌++◌, lookup, insert, length, drop, ◌==◌,
  ok, ◌≡◌, refl,
}
use memax_go_agent_sdk.Prelude.Int.{pos}
use memax_go_agent_sdk.Model.{Message, user, text, clone_message, clone_messages}
use memax_go_agent_sdk.Session.Ids.{canonical_id}
use memax_go_agent_sdk.Session.Store.{
  Session, CompactionCheckpoint, MemorySession, MessageView, Store, new_id, get, append, messages,
  view_of, message_view, normalize_checkpoint, save_compaction, fork_messages, fork_limit, fork,
}
use memax_go_agent_sdk.Session.Invariant.{IsValid, insert-IsValid}
use memax_go_agent_sdk.Session.History.{Call, appending, compacting, forking, run, run-IsValid}
use memax_go_agent_sdk.Session.View.{message_view-total, message_view-append}
use memax_go_agent_sdk.Session.Checkpoints.{message_view-save_compaction}
use memax_go_agent_sdk.Session.Forks.{IsForkOf, messages-fork}

abbrev valid : String → Bool
valid s = true

abbrev first_id : String
first_id = "01890a5d-ac96-774b-bcce-b302099a8057"

abbrev second_id : String
second_id = "01890a5d-ac96-774b-bcce-b302099a8058"

abbrev says : String → String → Message
says id s = record {
  id = id;
  role = user;
  content = record { type = text; text = s; tool_use = none; provider_artifact = none } ∷ [];
  tool_result = none;
  metadata = [];
}

abbrev two_messages : MemorySession
two_messages = record {
  session = record { id = first_id; parent_id = ""; created_at = 1 };
  messages = says "a" "one" ∷ says "b" "two" ∷ [];
  compaction = none;
}

abbrev one_session : Store
one_session = (first_id, two_messages) ∷ []

abbrev summary : CompactionCheckpoint
summary = record {
  id = "";
  created_at = 0;
  raw_message_count = pos 1;
  messages = says "s" "summary" ∷ [];
  policy = "summarize";
  reason = "";
  summary_hash = "";
  summary_preview = "";
}

empty-IsValid : IsValid []
unfolding lookup
empty-IsValid = record { at = λ id r h. cc h }

first_id-canonical : canonical_id first_id ≡ some first_id
unfolding canonical_id
first_id-canonical = refl

second_id-canonical : canonical_id second_id ≡ some second_id
unfolding canonical_id
second_id-canonical = refl

one_session-IsValid : IsValid one_session
unfolding insert
one_session-IsValid =
    insert-IsValid [] first_id two_messages empty-IsValid
      (record { own_id = refl; canonical = first_id-canonical; covered = refl })

abbrev upper_id : String
upper_id = "01890A5D-AC96-774B-BCCE-B302099A8057"

abbrev calls : List Call
calls =
    appending upper_id (says "" "three") (ok second_id)
    ∷ compacting first_id summary (ok second_id) 5
    ∷ forking first_id "" "b" (ok second_id) 6
    ∷ appending "nothing" (says "x" "lost") (ok second_id)
    ∷ []

run-IsValid_example : IsValid (run valid one_session calls)
run-IsValid_example =
    run-IsValid valid one_session calls (tt, (tt, (second_id-canonical, (tt, tt))))
      one_session-IsValid

found : get one_session upper_id ≡ ok two_messages.session
unfolding get canonical_id lookup
found = refl

message_view-total_example : (w : MessageView) × (message_view valid one_session upper_id ≡ ok w)
message_view-total_example =
    message_view-total valid one_session upper_id two_messages.session one_session-IsValid found

abbrev view : MessageView
view = record { messages = two_messages.messages; raw_message_count = 2; compaction = none }

viewed : message_view valid one_session upper_id ≡ ok view
unfolding message_view canonical_id lookup view_of clone_messages
viewed = refl

abbrev with_third : Store
with_third =
    (
      first_id,
      record two_messages {
        messages = says "a" "one" ∷ says "b" "two" ∷ says second_id "three" ∷ [];
      },
    )
    ∷ []

appended : append valid one_session upper_id (says "" "three") (ok second_id) ≡ ok with_third
unfolding append canonical_id lookup insert clone_message
appended = refl

message_view-append_example :
    (i : String) × (new_id (ok second_id) ≡ ok i)
    × (message_view valid with_third upper_id
        ≡ ok (record view {
          messages = view.messages ++ clone_message valid (says i "three") ∷ [];
          raw_message_count = 3;
        }))
message_view-append_example =
    message_view-append valid refl one_session with_third upper_id (says "" "three") (ok second_id)
      view one_session-IsValid viewed appended

abbrev compacted : Store
compacted =
    (
      first_id,
      record two_messages { compaction = some (record summary { id = second_id; created_at = 5 }) },
    )
    ∷ []

saved : save_compaction valid one_session first_id summary (ok second_id) 5 ≡ ok compacted
unfolding save_compaction normalize_checkpoint canonical_id lookup insert clone_messages
saved = refl

message_view-save_compaction_example :
    (raw : List Message) × (messages valid one_session first_id ≡ ok raw)
    × (messages valid compacted first_id ≡ ok raw)
    × (v : MessageView) × (message_view valid compacted first_id ≡ ok v)
    × (v.messages ≡ clone_messages valid summary.messages ++ drop 1 raw)
    × (v.raw_message_count ≡ length raw)
message_view-save_compaction_example =
    message_view-save_compaction valid refl one_session compacted first_id summary (ok second_id) 5
      saved

abbrev child : Session
child = record { id = second_id; parent_id = first_id; created_at = 6 }

abbrev forked : Store
forked =
    (first_id, two_messages)
    ∷ (second_id, record { session = child; messages = says "a" "one" ∷ []; compaction = none })
    ∷ []

forks : fork valid one_session first_id "" "a" (ok second_id) 6 ≡ ok (forked, child)
unfolding fork fork_messages fork_limit canonical_id lookup insert clone_messages
forks = refl

messages-fork_example :
    (whole : List Message) × (cut : List Message) × (messages valid one_session first_id ≡ ok whole)
    × (messages valid forked second_id ≡ ok cut)
    × IsForkOf "a" whole cut
    × ((j : String) → (second_id == j) ≡ false → lookup j forked ≡ lookup j one_session)
messages-fork_example =
    messages-fork valid refl one_session forked first_id "" "a" (ok second_id) 6 child
      second_id-canonical forks
