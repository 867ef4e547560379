-- ===== src/Session/Invariant.antt =====
-- The store keeps its sessions under their canonical IDs, with checkpoints inside the transcript.
use memax_go_agent_sdk.Prelude.{
  ℕ, String, Bool, true, false, not, ◌&&◌, Option, none, some, List, [], ◌∷◌, ◌++◌, lookup, insert,
  lookup-insert, length, ◌==◌, eq_iff, if◌then◌else◌, Result, ok, err, >>=-eq-ok, ◌≡◌, refl, sym,
  subst, arith, Bool-cases, inl, inr, length-append, ap,
}
use memax_go_agent_sdk.Prelude.Int.{ℤ, pos, negsuc, lt_int}
use memax_go_agent_sdk.Model.{Message, clone_message, clone_messages}
use memax_go_agent_sdk.Session.Ids.{canonical_id, canonical_id_idem}
use memax_go_agent_sdk.Session.Store.{
  Error, Session, CompactionCheckpoint, MemorySession, Store, NewId, new_id, starting,
  fresh_session, canonical_required_id, canonical_parent_id, known_session, create_with_options,
  append, compaction_id, normalize_checkpoint, save_compaction, fork_messages, fork,
}

-- A checkpoint covers a part of the transcript.
abbrev pub covers : Option CompactionCheckpoint → List Message → Bool
covers none ms = true
covers (some c) ms =
    not (lt_int c.raw_message_count (pos 0)) && not (lt_int (pos (length ms)) c.raw_message_count)

pub record IsGood (id : String) (r : MemorySession) : Type 0 where
  pub own_id : r.session.id ≡ id
  pub canonical : canonical_id id ≡ some id
  pub covered : covers r.compaction r.messages ≡ true

pub record IsValid (s : Store) : Type 0 where
  pub at : (id : String) (r : MemorySession) → lookup id s ≡ some r → IsGood id r

-- uuid.NewV7 gives the lower-case form.
abbrev pub IsCanonicalNew : NewId → Type 0
IsCanonicalNew (ok id) = canonical_id id ≡ some id
IsCanonicalNew (err e) = Unit

pub insert-IsValid :
    (s : Store) (id : String) (r : MemorySession)
    → IsValid s
    → IsGood id r
    → IsValid (insert id r s)
insert-IsValid s id r v g = record {
  at = λ j q h. elim (Bool-cases (id == j)) [
    | inl t ↦
        let e : id ≡ j = (eq_iff id j).0 t in
        let f : r ≡ q = ground (arith, lookup-insert j id r s) in
        subst (IsGood j) f (subst (λ k. IsGood k r) e g)
    | inr t ↦ v.at j q (ground (arith, lookup-insert j id r s))
  ];
}

pub canonical_of_required :
    (id c : String) → canonical_required_id id ≡ ok c → canonical_id c ≡ some c
unfolding canonical_required_id
canonical_of_required id c h = canonical_id_idem id c (ground arith)

pub known_session-IsGood :
    (s : Store) (id : String) (r : MemorySession)
    → IsValid s
    → known_session s id ≡ ok r
    → IsGood id r
unfolding known_session
known_session-IsGood s id r v h = v.at id r (ground arith)

pub IsCanonicalNew-new_id :
    (n : NewId) (id : String) → IsCanonicalNew n → new_id n ≡ ok id → canonical_id id ≡ some id
IsCanonicalNew-new_id (ok i) id c h = ground arith
IsCanonicalNew-new_id (err e) id c h = cc

covers-append :
    (o : Option CompactionCheckpoint) (ms ns : List Message)
    → covers o ms ≡ true
    → covers o (ms ++ ns) ≡ true
covers-append none ms ns h = refl
covers-append (some c) ms ns h = at_count c.raw_message_count h
  where
    at_count :
        (n : ℤ)
        → (not (lt_int n (pos 0)) && not (lt_int (pos (length ms)) n)) ≡ true
        → (not (lt_int n (pos 0)) && not (lt_int (pos (length (ms ++ ns))) n)) ≡ true
    at_count (pos n) k = ground (arith, length-append ms ns)
    at_count (negsuc n) k = cc

pub create-IsValid :
    (s t : Store) (parent : String) (fresh : NewId) (now : ℕ) (q : Session)
    → IsCanonicalNew fresh
    → IsValid s
    → create_with_options s parent fresh now ≡ ok (t, q)
    → IsValid t
unfolding create_with_options
create-IsValid s t parent fresh now q c v h =
    let (p, e, f) = >>=-eq-ok (canonical_parent_id parent) _ h in
    let (id, g, k) = >>=-eq-ok (new_id fresh) _ f in
    let same : insert id (starting (fresh_session id p now) []) s ≡ t = ground arith in
    subst IsValid same (
      insert-IsValid s id _ v
        (record { own_id = refl; canonical = IsCanonicalNew-new_id fresh id c g; covered = refl }))

module _ (json_valid : String → Bool) where
  pub append-IsValid :
      (s t : Store) (id : String) (m : Message) (fresh : NewId)
      → IsValid s
      → append json_valid s id m fresh ≡ ok t
      → IsValid t
  unfolding append
  append-IsValid s t id m fresh v h =
      let (c, e, f) = >>=-eq-ok (canonical_required_id id) _ h in
      let (i, g, k) = >>=-eq-ok (if m.id == "" then new_id fresh else ok m.id) _ f in
      let (r, l, n) = >>=-eq-ok (known_session s c) _ k in
      let good = known_session-IsGood s c r v l in
      let added = clone_message json_valid (record m { id = i }) ∷ [] in
      let r' : MemorySession = record r { messages = r.messages ++ added } in
      let same : insert c r' s ≡ t = cc n in
      subst IsValid same (
        insert-IsValid s c r' v (record {
          own_id = good.own_id;
          canonical = canonical_of_required id c e;
          covered = covers-append r.compaction r.messages added good.covered;
        }))

  normalize-keeps_count :
      (c d : CompactionCheckpoint) (fresh : NewId) (now : ℕ)
      → normalize_checkpoint json_valid c fresh now ≡ ok d
      → (d.raw_message_count ≡ c.raw_message_count)
        × (lt_int c.raw_message_count (pos 0) ≡ false)
        × (d.messages ≡ clone_messages json_valid c.messages)
  unfolding normalize_checkpoint
  normalize-keeps_count c d fresh now h = elim (Bool-cases (lt_int c.raw_message_count (pos 0))) [
    | inl t ↦ cc (rw t at h)
    | inr t ↦
        let (i, e, f) = >>=-eq-ok (compaction_id c fresh) _ (rw t at h) in
        (
          sym (ap (λ (x : Result Error CompactionCheckpoint). count_of x) f),
          t,
          sym (ap (λ (x : Result Error CompactionCheckpoint). messages_of x) f),
        )
  ]
    where
      count_of : Result Error CompactionCheckpoint → ℤ
      count_of (ok x) = x.raw_message_count
      count_of (err e) = pos 0

      messages_of : Result Error CompactionCheckpoint → List Message
      messages_of (ok x) = x.messages
      messages_of (err e) = []

  -- What a saved compaction is stored as.
  pub record Saved (s t : Store) (id : String) (c : CompactionCheckpoint) : Type 0 where
    pub key : String
    pub record_ : MemorySession
    pub checkpoint : CompactionCheckpoint
    pub keyed : canonical_required_id id ≡ ok key
    pub known : known_session s key ≡ ok record_
    pub count : checkpoint.raw_message_count ≡ c.raw_message_count
    pub natural : lt_int c.raw_message_count (pos 0) ≡ false
    pub copied : checkpoint.messages ≡ clone_messages json_valid c.messages
    pub within : lt_int (pos (length record_.messages)) c.raw_message_count ≡ false
    pub stored : t ≡ insert key (record record_ { compaction = some checkpoint }) s

  pub save_compaction-Saved :
      (s t : Store) (id : String) (c : CompactionCheckpoint) (fresh : NewId) (now : ℕ)
      → save_compaction json_valid s id c fresh now ≡ ok t
      → Saved s t id c
  unfolding save_compaction
  save_compaction-Saved s t id c fresh now h =
      let (k, e, f) = >>=-eq-ok (canonical_required_id id) _ h in
      let (d, g, l) = >>=-eq-ok (normalize_checkpoint json_valid c fresh now) _ f in
      let (r, m, n) = >>=-eq-ok (known_session s k) _ l in
      let (count, natural, copied) = normalize-keeps_count c d fresh now g in
      elim (Bool-cases (lt_int (pos (length r.messages)) d.raw_message_count)) [
        | inl u ↦ cc (rw u at n)
        | inr u ↦ record {
          key = k;
          record_ = r;
          checkpoint = d;
          keyed = e;
          known = m;
          count = count;
          natural = natural;
          copied = copied;
          within = subst (λ x. lt_int (pos (length r.messages)) x ≡ false) count u;
          stored = cc (rw u at n);
        }
      ]

  pub save_compaction-IsValid :
      (s t : Store) (id : String) (c : CompactionCheckpoint) (fresh : NewId) (now : ℕ)
      → IsValid s
      → save_compaction json_valid s id c fresh now ≡ ok t
      → IsValid t
  save_compaction-IsValid s t id c fresh now v h =
      let w = save_compaction-Saved s t id c fresh now h in
      let good = known_session-IsGood s w.key w.record_ v w.known in
      subst IsValid (sym w.stored) (
        insert-IsValid s w.key _ v (record {
          own_id = good.own_id;
          canonical = good.canonical;
          covered = rw w.count (rw w.natural (rw w.within));
        }))

  -- What a fork stores beside the source.
  pub record Forked (s t : Store) (id through : String) (fresh : NewId) (q : Session) : Type 0 where
    pub key : String
    pub source : MemorySession
    pub copied : List Message
    pub keyed : canonical_required_id id ≡ ok key
    pub known : known_session s key ≡ ok source
    pub cut : fork_messages json_valid source.messages through ≡ ok copied
    pub named : new_id fresh ≡ ok q.id
    pub stored : t ≡ insert q.id (starting q (clone_messages json_valid copied)) s

  pub fork-Forked :
      (s t : Store) (id parent through : String) (fresh : NewId) (now : ℕ) (q : Session)
      → fork json_valid s id parent through fresh now ≡ ok (t, q)
      → Forked s t id through fresh q
  unfolding fork
  fork-Forked s t id parent through fresh now q h =
      let (k, e, f) = >>=-eq-ok (canonical_required_id id) _ h in
      let (p, g, l) = >>=-eq-ok (canonical_parent_id parent) _ f in
      let (r, m, n) = >>=-eq-ok (known_session s k) _ l in
      let (ms, u, w) = >>=-eq-ok (fork_messages json_valid r.messages through) _ n in
      let (i, x, y) = >>=-eq-ok (new_id fresh) _ w in
      let session = fresh_session i (if p == "" then k else p) now in
      let e1 : session ≡ q = ground arith in
      let e2 : insert i (starting session (clone_messages json_valid ms)) s ≡ t = ground arith in
      record {
        key = k;
        source = r;
        copied = ms;
        keyed = e;
        known = m;
        cut = u;
        named = subst (λ (z : Session). new_id fresh ≡ ok z.id) e1 x;
        stored =
            subst (λ (z : Session). t ≡ insert z.id (starting z (clone_messages json_valid ms)) s)
              e1 (sym e2);
      }

  pub fork-IsValid :
      (s t : Store) (id parent through : String) (fresh : NewId) (now : ℕ) (q : Session)
      → IsCanonicalNew fresh
      → IsValid s
      → fork json_valid s id parent through fresh now ≡ ok (t, q)
      → IsValid t
  fork-IsValid s t id parent through fresh now q c v h =
      let w = fork-Forked s t id parent through fresh now q h in
      subst IsValid (sym w.stored) (
        insert-IsValid s q.id _ v (record {
          own_id = refl;
          canonical = IsCanonicalNew-new_id fresh q.id c w.named;
          covered = refl;
        }))
