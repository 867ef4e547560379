-- ===== src/Session/View.antt =====
-- What MessageView of session/store.go shows, and what Append adds to it.
use memax_go_agent_sdk.Prelude.{
  ◌+◌, ◌≤◌, String, Bool, true, false, not, ◌&&◌, Option, none, some, List, [], ◌∷◌, ◌++◌, insert,
  lookup-insert, length, drop, ◌==◌, eq_refl, if◌then◌else◌, Result, ok, err, >>=-eq-ok, ok_of_IsOk,
  append_assoc, ◌∙◌, ◌≡◌, refl, subst, arith, length-append, drop-append, ap,
}
use memax_go_agent_sdk.Prelude.Int.{ℤ, pos, negsuc, lt_int}
use memax_go_agent_sdk.Model.{Message, clone_message, clone_messages}
use memax_go_agent_sdk.Model.Copies.{clone_message_idem}
use memax_go_agent_sdk.Session.Store.{
  Error, Session, CompactionCheckpoint, MemorySession, MessageView, Store, NewId, new_id,
  canonical_required_id, known_session, get, append, view_of, message_view,
}
use memax_go_agent_sdk.Session.Invariant.{covers, IsValid, known_session-IsGood}

module _ (json_valid : String → Bool) where
  pub clone_messages-append :
      (xs ys : List Message)
      → clone_messages json_valid (xs ++ ys)
        ≡ clone_messages json_valid xs ++ clone_messages json_valid ys
  unfolding clone_messages
  clone_messages-append [] ys = refl
  clone_messages-append (x ∷ xs) ys =
      ap (λ zs. clone_message json_valid x ∷ zs) (clone_messages-append xs ys)

  -- The view with messages added at its end.
  abbrev extended : List Message → Result Error MessageView → Result Error MessageView
  extended new (ok v) = ok (record v {
    messages = v.messages ++ clone_messages json_valid new;
    raw_message_count = v.raw_message_count + length new;
  })
  extended new (err e) = err e

  view_of-append :
      (raw new : List Message) (o : Option CompactionCheckpoint)
      → covers o raw ≡ true
      → view_of json_valid (raw ++ new) o ≡ extended new (view_of json_valid raw o)
  unfolding view_of
  view_of-append raw new none c = rw (clone_messages-append raw new, length-append raw new)
  view_of-append raw new (some k) c = at_count k.raw_message_count refl c
    where
      at_count :
          (n : ℤ)
          → k.raw_message_count ≡ n
          → (not (lt_int n (pos 0)) && not (lt_int (pos (length raw)) n)) ≡ true
          → view_of json_valid (raw ++ new) (some k)
            ≡ extended new (view_of json_valid raw (some k))
      at_count (pos n) e h =
          let within : n ≤ length raw = ground arith in
          let x : lt_int (pos (length raw)) (pos n) ≡ false = ground arith in
          let y : lt_int (pos (length (raw ++ new))) (pos n) ≡ false =
            ground (arith, length-append raw new) in
          rw (e, x, y)
            (rw (drop-append n raw new within, length-append raw new)
              (rw (clone_messages-append (drop n raw) new) (
                cc (
                  append_assoc (clone_messages json_valid k.messages)
                    (clone_messages json_valid (drop n raw)) (clone_messages json_valid new)))))
      at_count (negsuc n) e h = cc

  -- Every session of a valid store has a view.
  view_of-covered :
      (raw : List Message) (o : Option CompactionCheckpoint)
      → covers o raw ≡ true
      → (v : MessageView) × (view_of json_valid raw o ≡ ok v)
  unfolding view_of
  view_of-covered raw none c = (_, refl)
  view_of-covered raw (some k) c =
      let e : lt_int (pos (length raw)) k.raw_message_count ≡ false = ground arith in
      ok_of_IsOk (view_of json_valid raw (some k)) (rw e tt)

  -- MessageView succeeds on every session of a valid store that Get finds: a checkpoint never
  -- asks for more messages than the transcript has.
  pub message_view-total :
      (s : Store) (id : String) (q : Session)
      → IsValid s
      → get s id ≡ ok q
      → (w : MessageView) × (message_view json_valid s id ≡ ok w)
  unfolding get message_view
  message_view-total s id q v h =
      let (k, e, f) = >>=-eq-ok (canonical_required_id id) _ h in
      let (r, g, l) = >>=-eq-ok (known_session s k) _ f in
      let (w, x) =
        view_of-covered r.messages r.compaction (known_session-IsGood s k r v g).covered in
      (w, rw e (rw g x))

  pub lookup-insert_same :
      (k : String) (r : MemorySession) (s : Store) → known_session (insert k r s) k ≡ ok r
  unfolding known_session
  lookup-insert_same k r s = ground (arith, lookup-insert k k r s, eq_refl k)

  module _ (empty_object : json_valid "{}" ≡ true) where
    appended_view :
        (s : Store) (id k : String) (r : MemorySession) (m : Message) (v : MessageView)
        → canonical_required_id id ≡ ok k
        → covers r.compaction r.messages ≡ true
        → view_of json_valid r.messages r.compaction ≡ ok v
        → message_view json_valid
            (insert k (record r { messages = r.messages ++ clone_message json_valid m ∷ [] }) s)
            id
          ≡ ok (record v {
            messages = v.messages ++ clone_message json_valid m ∷ [];
            raw_message_count = v.raw_message_count + 1;
          })
    unfolding message_view clone_messages
    appended_view s id k r m v e c h =
        let added = clone_message json_valid m in
        let x = view_of-append r.messages (added ∷ []) r.compaction c in
        rw e (
          rw (lookup-insert_same k (record r { messages = r.messages ++ added ∷ [] }) s)
            (x ∙ rw h (rw (clone_message_idem json_valid empty_object m) refl)))

    -- On a valid store, an Append that succeeds adds one message to the end of the view, a copy of
    -- its argument under its own or a new ID; it keeps what the view showed before, the checkpoint
    -- included. The JSON text {} is valid.
    pub message_view-append :
        (s t : Store) (id : String) (m : Message) (fresh : NewId) (v : MessageView)
        → IsValid s
        → message_view json_valid s id ≡ ok v
        → append json_valid s id m fresh ≡ ok t
        → (i : String) × ((if m.id == "" then new_id fresh else ok m.id) ≡ ok i)
          × (message_view json_valid t id
              ≡ ok (record v {
                messages = v.messages ++ clone_message json_valid (record m { id = i }) ∷ [];
                raw_message_count = v.raw_message_count + 1;
              }))
    unfolding message_view append
    message_view-append s t id m fresh v valid h a =
        let (k, e, f) = >>=-eq-ok (canonical_required_id id) _ h in
        let (r, g, l) = >>=-eq-ok (known_session s k) _ f in
        let a1 = rw e at a in
        let (i, u, n) = >>=-eq-ok (if m.id == "" then new_id fresh else ok m.id) _ a1 in
        let n1 = rw g at n in
        let added = clone_message json_valid (record m { id = i }) in
        let same : insert k (record r { messages = r.messages ++ added ∷ [] }) s ≡ t = cc n1 in
        let good = known_session-IsGood s k r valid g in
        (
          i,
          u,
          subst
              (λ z.
                message_view json_valid z id
                ≡ ok (record v {
                  messages = v.messages ++ added ∷ [];
                  raw_message_count = v.raw_message_count + 1;
                }))
              same (appended_view s id k r (record m { id = i }) v e good.covered l),
        )
