-- ===== src/Agent/History.antt =====
-- What runLoop of agent.go does to the session store: an invariant of the machine, on what
-- session/store.go says of Append and SaveCompaction.
use memax_go_agent_sdk.Prelude.{
  ℕ, suc, String, Bool, true, false, some, List, [], ◌∷◌, ◌++◌, lookup, insert, lookup-insert,
  append-nil, append_assoc, ok, >>=-eq-ok, ◌≡◌, refl, sym, ◌∙◌, subst, ◌==◌, if◌then◌else◌, ap,
}
use memax_go_agent_sdk.Model.{Message, clone_message, is_user_role}
use memax_go_agent_sdk.Session.Store.{
  Store, MemorySession, CompactionCheckpoint, NewId, new_id, canonical_required_id, known_session,
  append,
}
use memax_go_agent_sdk.Session.Invariant.{
  IsValid, append-IsValid, Saved, save_compaction-Saved, save_compaction-IsValid,
}
use memax_go_agent_sdk.Session.View.{lookup-insert_same}
use memax_go_agent_sdk.Agent.Run.{Run, Host}
use memax_go_agent_sdk.Agent.Turn.{new_run, run_loop}
use memax_go_agent_sdk.Agent.Machine.{
  Ledger, Move, asks, tells, loses, prompts, gives_up, finishes, interrupts, appends, compacts,
  begins, begins_turn, spends, counts_model, counts_tools, requests, executes, denies, retries,
  Reaches, here, move,
}
use memax_go_agent_sdk.Agent.Refinement.{run_loop-refines}

-- A change of one session that adds to its transcript.
pub record Touches (id : String) (s t : Store) : Type 0 where
  pub key : String
  pub before : MemorySession
  pub after : MemorySession
  pub added : List Message
  pub keyed : canonical_required_id id ≡ ok key
  pub known : known_session s key ≡ ok before
  pub stored : t ≡ insert key after s
  pub grown : after.messages ≡ before.messages ++ added

-- How many messages of the user's role there are.
abbrev pub user_count : List Message → ℕ
user_count [] = 0
user_count (m ∷ ms) = if is_user_role m.role then suc (user_count ms) else user_count ms

pub append-adds :
    (v : String → Bool) (s t : Store) (id : String) (m : Message) (fresh : NewId)
    → append v s id m fresh ≡ ok t
    → (w : Touches id s t) × (user_count w.added ≡ user_count (m ∷ []))
unfolding append clone_message
append-adds v s t id m fresh h =
    let (c, e, f) = >>=-eq-ok (canonical_required_id id) _ h in
    let (i, g, k) = >>=-eq-ok (if m.id == "" then new_id fresh else ok m.id) _ f in
    let (r, l, n) = >>=-eq-ok (known_session s c) _ k in
    let added = clone_message v (record m { id = i }) ∷ [] in
    (
      record {
        key = c;
        before = r;
        after = record r { messages = r.messages ++ added };
        added = added;
        keyed = e;
        known = l;
        stored = cc n;
        grown = refl;
      },
      refl,
    )

append-Touches :
    (v : String → Bool) (s t : Store) (id : String) (m : Message) (fresh : NewId)
    → append v s id m fresh ≡ ok t
    → Touches id s t
append-Touches v s t id m fresh h = (append-adds v s t id m fresh h).0

pub Saved-adds :
    (v : String → Bool) (s t : Store) (id : String) (c : CompactionCheckpoint)
    → Saved v s t id c
    → (w : Touches id s t) × (user_count w.added ≡ 0)
Saved-adds v s t id c w = (
  record {
    key = w.key;
    before = w.record_;
    after = record w.record_ { compaction = some w.checkpoint };
    added = [];
    keyed = w.keyed;
    known = w.known;
    stored = w.stored;
    grown = sym (append-nil w.record_.messages);
  },
  refl,
)

Saved-Touches :
    (v : String → Bool) (s t : Store) (id : String) (c : CompactionCheckpoint)
    → Saved v s t id c
    → Touches id s t
Saved-Touches v s t id c w = (Saved-adds v s t id c w).0

-- The session is there, with a transcript that begins with that of `r`.
pub record IsGrown (k : String) (r : MemorySession) (s : Store) : Type 0 where
  pub now : MemorySession
  pub added : List Message
  pub found : known_session s k ≡ ok now
  pub grown : now.messages ≡ r.messages ++ added

lookup-Touches :
    (id k j : String) (s t : Store)
    → canonical_required_id id ≡ ok k
    → (k == j) ≡ false
    → Touches id s t
    → lookup j t ≡ lookup j s
lookup-Touches id k j s t c d w =
    let same : k ≡ w.key = cc w.keyed in
    subst (λ z. lookup j z ≡ lookup j s) (sym w.stored)
      (lookup-insert j w.key w.after s ∙ (rw (sym same) (rw d refl)))

pub IsGrown-adds :
    (id k : String) (r : MemorySession) (s t : Store)
    → canonical_required_id id ≡ ok k
    → (w : Touches id s t) (g : IsGrown k r s)
    → (n : IsGrown k r t) × (n.added ≡ g.added ++ w.added)
IsGrown-adds id k r s t c w g =
    let same : w.key ≡ k = cc w.keyed in
    let known : known_session s k ≡ ok w.before =
      subst (λ z. known_session s z ≡ ok w.before) same w.known in
    let now : w.before ≡ g.now = cc g.found in
    (
      record {
        now = w.after;
        added = g.added ++ w.added;
        found =
            subst (λ z. known_session z k ≡ ok w.after) (sym w.stored)
              (subst (λ z. known_session (insert z w.after s) k ≡ ok w.after) (sym same)
                (lookup-insert_same (λ _. true) k w.after s));
        grown =
            w.grown
            ∙ (ap (λ (x : MemorySession). x.messages ++ w.added) now
                ∙ (ap (λ ms. ms ++ w.added) g.grown ∙ append_assoc r.messages g.added w.added));
      },
      refl,
    )

IsGrown-Touches :
    (id k : String) (r : MemorySession) (s t : Store)
    → canonical_required_id id ≡ ok k
    → Touches id s t
    → IsGrown k r s
    → IsGrown k r t
IsGrown-Touches id k r s t c w g = (IsGrown-adds id k r s t c w g).0

module _ (host : Host) (k j : String) (start : Store) (r : MemorySession)
    (own : canonical_required_id host.session_id ≡ ok k) (other : (k == j) ≡ false) where
  -- A valid store, with the session's transcript grown, and another entry as it was.
  pub record Keeps (s : Store) : Type 0 where
    pub valid : IsValid s
    pub grown : IsGrown k r s
    pub others : lookup j s ≡ lookup j start

  touched : (s t : Store) → Touches host.session_id s t → IsValid t → Keeps s → Keeps t
  touched s t w v h = record {
    valid = v;
    grown = IsGrown-Touches host.session_id k r s t own w h.grown;
    others = lookup-Touches host.session_id k j s t own other w ∙ h.others;
  }

  touched_by :
      (s t : Store) (x : Message) (id : NewId)
      → append host.json_valid s host.session_id x id ≡ ok t
      → Keeps s
      → Keeps t
  touched_by s t x id e h =
      touched s t (append-Touches host.json_valid s t host.session_id x id e)
        (append-IsValid host.json_valid s t host.session_id x id h.valid e) h

  Keeps-Move : (l n : Ledger) (s t : Run) → Move host l s n t → Keeps s.store → Keeps t.store
  Keeps-Move l n s t (asks _ _) h = h
  Keeps-Move l n s t (tells _ _ _ _) h = h
  Keeps-Move l n s t (loses _ _ _ _) h = h
  Keeps-Move l n s t (finishes a b _ f) h = h
  Keeps-Move l n s t (interrupts a b _ why) h = h
  Keeps-Move l n s t (gives_up a b _) h = h
  Keeps-Move l n s t (prompts a b _ x id new e) h = touched_by s.store new x id e h
  Keeps-Move l n s t (appends a b _ x id new u e) h = touched_by s.store new x id e h
  Keeps-Move l n s t (compacts a b _ c id now new e) h =
      touched s.store new
        (Saved-Touches host.json_valid s.store new host.session_id c
          (save_compaction-Saved host.json_valid s.store new host.session_id c id now e))
        (save_compaction-IsValid host.json_valid s.store new host.session_id c id now h.valid e) h
  Keeps-Move l n s t (begins now _ q x) h = h
  Keeps-Move l n s t (begins_turn a b turn _ le) h = h
  Keeps-Move l n s t (spends a b _ u) h = h
  Keeps-Move l n s t (counts_model a b now _ x) h = h
  Keeps-Move l n s t (counts_tools a b c now _ x) h = h
  Keeps-Move l n s t (requests a b _ q x) h = h
  Keeps-Move l n s t (executes a b _ us) h = h
  Keeps-Move l n s t (denies a b _ lt) h = h
  Keeps-Move l n s t (retries a b _ lt) h = h

  Keeps-Reaches : (l n : Ledger) (s t : Run) → Reaches host l s n t → Keeps s.store → Keeps t.store
  Keeps-Reaches l n s t (here _ _) h = h
  Keeps-Reaches l n s t (move _ i _ _ u _ m way) h =
      Keeps-Reaches i n u t way (Keeps-Move l i s u m h)

  -- A run on a valid store leaves it valid; it only adds messages to the end of the transcript of its
  -- session, and what the store holds under any other ID stays as it is.
  pub run_loop-Keeps :
      IsValid start → known_session start k ≡ ok r → Keeps (run_loop host (new_run start)).store
  run_loop-Keeps v known =
      let e = run_loop-refines host start in
      Keeps-Reaches _ e.ledger (new_run start) _ e.way (record {
        valid = v;
        grown = record { now = r; added = []; found = known; grown = sym (append-nil r.messages) };
        others = refl;
      })
