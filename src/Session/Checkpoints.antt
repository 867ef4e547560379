-- ===== src/Session/Checkpoints.antt =====
-- SaveCompaction and Fork of session/store.go, as the readers of the store see them.
use memax_go_agent_sdk.Prelude.{
  ℕ, zero, suc, String, Bool, true, false, some, List, [], ◌∷◌, ◌++◌, insert, length, drop, ok, ◌≡◌,
  refl, sym, subst, length-map,
}
use memax_go_agent_sdk.Prelude.Int.{pos, lt_int, positive_part}
use memax_go_agent_sdk.Model.{Message, clone_message, clone_messages}
use memax_go_agent_sdk.Model.Copies.{clone_messages_idem}
use memax_go_agent_sdk.Session.Store.{
  CompactionCheckpoint, MemorySession, MessageView, Store, NewId, canonical_required_id,
  known_session, messages, view_of, message_view, save_compaction,
}
use memax_go_agent_sdk.Session.Invariant.{save_compaction-Saved}
use memax_go_agent_sdk.Session.View.{lookup-insert_same}

module _ (json_valid : String → Bool) (empty_object : json_valid "{}" ≡ true) where
  clone_messages-drop :
      (n : ℕ) (ms : List Message)
      → clone_messages json_valid (drop n ms) ≡ drop n (clone_messages json_valid ms)
  unfolding clone_messages
  clone_messages-drop zero ms = refl
  clone_messages-drop (suc n) [] = refl
  clone_messages-drop (suc n) (m ∷ ms) = clone_messages-drop n ms

  length-clone_messages : (ms : List Message) → length (clone_messages json_valid ms) ≡ length ms
  unfolding clone_messages
  length-clone_messages ms = length-map (clone_message json_valid) ms

  pub messages-insert :
      (s : Store) (id k : String) (r : MemorySession)
      → canonical_required_id id ≡ ok k
      → messages json_valid (insert k r s) id ≡ ok (clone_messages json_valid r.messages)
  unfolding messages
  messages-insert s id k r e = rw e (rw (lookup-insert_same json_valid k r s) refl)

  pub messages-known :
      (s : Store) (id k : String) (r : MemorySession)
      → canonical_required_id id ≡ ok k
      → known_session s k ≡ ok r
      → messages json_valid s id ≡ ok (clone_messages json_valid r.messages)
  unfolding messages
  messages-known s id k r e h = rw e (rw h refl)

  saved_view :
      (s : Store) (id k : String) (r : MemorySession) (c d : CompactionCheckpoint)
      → canonical_required_id id ≡ ok k
      → d.raw_message_count ≡ c.raw_message_count
      → d.messages ≡ clone_messages json_valid c.messages
      → lt_int (pos (length r.messages)) c.raw_message_count ≡ false
      → (v : MessageView) × (message_view json_valid
            (insert k (record r { compaction = some d }) s)
            id
          ≡ ok v)
        × (v.messages
            ≡ clone_messages json_valid c.messages
              ++ drop (positive_part c.raw_message_count) (clone_messages json_valid r.messages))
        × (v.raw_message_count ≡ length (clone_messages json_valid r.messages))
  unfolding message_view view_of
  saved_view s id k r c d e n m w = (
    record {
      messages =
          clone_messages json_valid d.messages
          ++ clone_messages json_valid (drop (positive_part d.raw_message_count) r.messages);
      raw_message_count = length r.messages;
      compaction = some (record d { messages = clone_messages json_valid d.messages });
    },
    rw e (
        rw (lookup-insert_same json_valid k (record r { compaction = some d }) s) (rw (n, w) refl)),
    rw (m, n)
        (rw (clone_messages_idem json_valid empty_object c.messages)
          (rw (clone_messages-drop (positive_part c.raw_message_count) r.messages) refl)),
    sym (length-clone_messages r.messages),
  )

  -- A SaveCompaction that succeeds replaces what the view shows by copies of the checkpoint's
  -- messages and the part of the transcript after it, and leaves the transcript as it was. The JSON
  -- text {} is valid.
  pub message_view-save_compaction :
      (s t : Store) (id : String) (c : CompactionCheckpoint) (fresh : NewId) (now : ℕ)
      → save_compaction json_valid s id c fresh now ≡ ok t
      → (raw : List Message) × (messages json_valid s id ≡ ok raw)
        × (messages json_valid t id ≡ ok raw)
        × (v : MessageView) × (message_view json_valid t id ≡ ok v)
        × (v.messages
            ≡ clone_messages json_valid c.messages ++ drop (positive_part c.raw_message_count) raw)
        × (v.raw_message_count ≡ length raw)
  message_view-save_compaction s t id c fresh now h =
      let w = save_compaction-Saved json_valid s t id c fresh now h in
      let r = w.record_ in
      let r' : MemorySession = record r { compaction = some w.checkpoint } in
      let view = saved_view s id w.key r c w.checkpoint w.keyed w.count w.copied w.within in
      (
        clone_messages json_valid r.messages,
        messages-known s id w.key r w.keyed w.known,
        subst (λ z. messages json_valid z id ≡ ok (clone_messages json_valid r.messages))
            (sym w.stored) (messages-insert s id w.key r' w.keyed),
        view.0,
        subst (λ z. message_view json_valid z id ≡ ok view.0) (sym w.stored) view.1,
        view.2,
        view.3,
      )
