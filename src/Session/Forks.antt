-- ===== src/Session/Forks.antt =====
-- Fork of session/store.go, as the readers of the store see it.
use memax_go_agent_sdk.Prelude.{
  ℕ, zero, suc, String, Bool, true, false, Option, none, some, List, [], ◌∷◌, ◌++◌, lookup,
  lookup-insert, take, ◌==◌, eq_iff, ◌⊎◌, ok, err, ◌∙◌, ◌≡◌, refl, sym, subst, arith, Bool-cases,
  inl, inr, ap, All,
}
use memax_go_agent_sdk.Model.{Message, clone_message, clone_messages}
use memax_go_agent_sdk.Model.Copies.{clone_messages_idem}
use memax_go_agent_sdk.Session.Ids.{canonical_id}
use memax_go_agent_sdk.Session.Store.{
  Session, Store, NewId, starting, canonical_required_id, messages, fork,
}
use memax_go_agent_sdk.Session.Invariant.{IsCanonicalNew, fork-Forked}
use memax_go_agent_sdk.Session.Invariant.{IsCanonicalNew-new_id}
use memax_go_agent_sdk.Session.Store.{message_not_found, fork_messages, fork_limit}
use memax_go_agent_sdk.Session.Checkpoints.{messages-insert, messages-known}

-- The messages up to the first one with an ID, and it.
pub record IsPrefixThrough (id : String) (whole cut : List Message) : Type 0 where
  pub before : List Message
  pub last : Message
  pub after : List Message
  pub split : whole ≡ before ++ last ∷ after
  pub cut_here : cut ≡ before ++ last ∷ []
  pub named : last.id ≡ id
  pub first : All (λ (m : Message). (m.id == id) ≡ false) before

-- What a fork keeps of a transcript.
abbrev pub IsForkOf : String → List Message → List Message → Type 0
IsForkOf through whole cut =
    ((through == "") ≡ true × cut ≡ whole)
    ⊎ ((through == "") ≡ false × IsPrefixThrough through whole cut)

prefix_behind :
    (m : Message) (ms : List Message) (id : String) (n : ℕ)
    → (m.id == id) ≡ false
    → (o : Option ℕ) → (elim o [ none ↦ none | some k ↦ some (suc k) ]) ≡ some n
    → ((k : ℕ) → o ≡ some k → IsPrefixThrough id ms (take k ms))
    → IsPrefixThrough id (m ∷ ms) (take n (m ∷ ms))
prefix_behind m ms id n u none h ih = cc
prefix_behind m ms id n u (some k) h ih =
    let w = ih k refl in
    let e : suc k ≡ n = cc in
    subst (λ k. IsPrefixThrough id (m ∷ ms) (take k (m ∷ ms))) e
      (record {
        before = m ∷ w.before;
        last = w.last;
        after = w.after;
        split = ap (◌∷◌ m) w.split;
        cut_here = ap (◌∷◌ m) w.cut_here;
        named = w.named;
        first = (u, w.first);
      })

fork_limit-IsPrefixThrough :
    (ms : List Message) (id : String) (n : ℕ)
    → fork_limit ms id ≡ some n
    → IsPrefixThrough id ms (take n ms)
unfolding fork_limit
fork_limit-IsPrefixThrough [] id n h = cc
fork_limit-IsPrefixThrough (m ∷ ms) id n h = elim (Bool-cases (m.id == id)) [
  | inl t ↦
      let e : 1 ≡ n = cc (rw t at h) in
      subst (λ k. IsPrefixThrough id (m ∷ ms) (take k (m ∷ ms))) e
        (record {
          before = [];
          last = m;
          after = ms;
          split = refl;
          cut_here = refl;
          named = (eq_iff m.id id).0 t;
          first = tt;
        })
  | inr t ↦
      prefix_behind m ms id n t (fork_limit ms id) (rw t at h) (fork_limit-IsPrefixThrough ms id)
]

canonical_required_id_of :
    (id : String) → canonical_id id ≡ some id → canonical_required_id id ≡ ok id
unfolding canonical_required_id canonical_id
canonical_required_id_of id h = rw h refl

module _ (json_valid : String → Bool) (empty_object : json_valid "{}" ≡ true) where
  clone_messages-take :
      (n : ℕ) (ms : List Message)
      → clone_messages json_valid (take n ms) ≡ take n (clone_messages json_valid ms)
  unfolding clone_messages
  clone_messages-take zero ms = refl
  clone_messages-take (suc n) [] = refl
  clone_messages-take (suc n) (m ∷ ms) =
      ap (◌∷◌ (clone_message json_valid m)) (clone_messages-take n ms)

  fork_limit-clone :
      (ms : List Message) (id : String)
      → fork_limit (clone_messages json_valid ms) id ≡ fork_limit ms id
  unfolding fork_limit clone_messages clone_message
  fork_limit-clone [] id = refl
  fork_limit-clone (m ∷ ms) id = rw (fork_limit-clone ms id) refl

  fork_messages-IsForkOf :
      (ms cut : List Message) (through : String)
      → fork_messages json_valid ms through ≡ ok cut
      → IsForkOf through (clone_messages json_valid ms) cut × (clone_messages json_valid cut ≡ cut)
  unfolding fork_messages
  fork_messages-IsForkOf ms cut through h = elim (Bool-cases (through == "")) [
    | inl t ↦
        let e : clone_messages json_valid ms ≡ cut = cc (rw t at h) in
        subst
          (λ x.
            IsForkOf through (clone_messages json_valid ms) x × (clone_messages json_valid x ≡ x))
          e (inl (t, refl), clone_messages_idem json_valid empty_object ms)
    | inr t ↦ cut_at t (fork_limit ms through) refl (rw t at h)
  ]
    where
      cut_at :
          (through == "") ≡ false
          → (o : Option ℕ) → fork_limit ms through ≡ o
          → (elim o [
            | none ↦ err (message_not_found through)
            | some n ↦ ok (clone_messages json_valid (take n ms))
          ])
            ≡ ok cut
          → IsForkOf through (clone_messages json_valid ms) cut
            × (clone_messages json_valid cut ≡ cut)
      cut_at t none e h = cc
      cut_at t (some n) e h =
          let f : clone_messages json_valid (take n ms) ≡ cut = cc in
          subst
            (λ x.
              IsForkOf through (clone_messages json_valid ms) x × (clone_messages json_valid x ≡ x))
            f
            (
              inr (
                t,
                subst (IsPrefixThrough through (clone_messages json_valid ms))
                    (sym (clone_messages-take n ms))
                    (fork_limit-IsPrefixThrough (clone_messages json_valid ms) through n
                      (fork_limit-clone ms through ∙ e)),
              ),
              clone_messages_idem json_valid empty_object (take n ms),
            )

  -- A fork that succeeds starts with a copy of the source's transcript up to the first message with
  -- the ID it names, the whole of it when it names none; every session of another ID keeps all that
  -- the store holds of it. The new ID is canonical, as uuid.NewV7 gives it, and the JSON text {} is
  -- valid.
  pub messages-fork :
      (s t : Store) (id parent through : String) (fresh : NewId) (now : ℕ) (q : Session)
      → IsCanonicalNew fresh
      → fork json_valid s id parent through fresh now ≡ ok (t, q)
      → (whole : List Message) × (cut : List Message) × (messages json_valid s id ≡ ok whole)
        × (messages json_valid t q.id ≡ ok cut)
        × IsForkOf through whole cut
        × ((j : String) → (q.id == j) ≡ false → lookup j t ≡ lookup j s)
  messages-fork s t id parent through fresh now q c h =
      let w = fork-Forked json_valid s t id parent through fresh now q h in
      let (of_fork, idem) = fork_messages-IsForkOf w.source.messages w.copied through w.cut in
      let keyed = canonical_required_id_of q.id (IsCanonicalNew-new_id fresh q.id c w.named) in
      let stored =
        messages-insert json_valid empty_object s q.id q.id
          (starting q (clone_messages json_valid w.copied)) keyed in
      (
        clone_messages json_valid w.source.messages,
        w.copied,
        messages-known json_valid empty_object s id w.key w.source w.keyed w.known,
        subst (λ z. messages json_valid z q.id ≡ ok w.copied) (sym w.stored)
            (stored ∙ ap ok (clone_messages_idem json_valid empty_object w.copied ∙ idem)),
        of_fork,
        λ j n. rw w.stored (
            ground
              (arith, lookup-insert j q.id (starting q (clone_messages json_valid w.copied)) s)),
      )
