-- ===== src/Session/History.antt =====
-- Histories of calls to session/store.go.
use memax_go_agent_sdk.Prelude.{ℕ, String, Bool, List, [], ◌∷◌, Result, ok, err, ◌≡◌, refl, All}
use memax_go_agent_sdk.Model.{Message}
use memax_go_agent_sdk.Session.Store.{
  Error, Session, CompactionCheckpoint, Store, NewId, create_with_options, append, save_compaction,
  fork,
}
use memax_go_agent_sdk.Session.Invariant.{
  IsValid, IsCanonicalNew, create-IsValid, append-IsValid, save_compaction-IsValid, fork-IsValid,
}

-- A call that changes the store.
pub data Call : Type 0 where
  creating : String → NewId → ℕ → Call
  appending : String → Message → NewId → Call
  compacting : String → CompactionCheckpoint → NewId → ℕ → Call
  forking : String → String → String → NewId → ℕ → Call

abbrev pub IsFresh : Call → Type 0
IsFresh (creating p fresh now) = IsCanonicalNew fresh
IsFresh (appending id m fresh) = Unit
IsFresh (compacting id c fresh now) = Unit
IsFresh (forking id p through fresh now) = IsCanonicalNew fresh

-- The store after a call: a refused call leaves it as it was.
abbrev pub kept : Store → Result Error Store → Store
kept s (ok t) = t
kept s (err e) = s

abbrev pub kept_of : Store → Result Error (Store × Session) → Store
kept_of s (ok (t, q)) = t
kept_of s (err e) = s

kept-IsValid :
    (s : Store) (r : Result Error Store)
    → IsValid s
    → ((t : Store) → r ≡ ok t → IsValid t)
    → IsValid (kept s r)
kept-IsValid s (ok t) v h = h t refl
kept-IsValid s (err e) v h = v

kept_of-IsValid :
    (s : Store) (r : Result Error (Store × Session))
    → IsValid s
    → ((t : Store) (q : Session) → r ≡ ok (t, q) → IsValid t)
    → IsValid (kept_of s r)
kept_of-IsValid s (ok (t, q)) v h = h t q refl
kept_of-IsValid s (err e) v h = v

module _ (json_valid : String → Bool) where
  unfoldable pub execute : Store → Call → Store
  execute s (creating p fresh now) = kept_of s (create_with_options s p fresh now)
  execute s (appending id m fresh) = kept s (append json_valid s id m fresh)
  execute s (compacting id c fresh now) = kept s (save_compaction json_valid s id c fresh now)
  execute s (forking id p through fresh now) = kept_of s (fork json_valid s id p through fresh now)

  unfoldable pub run : Store → List Call → Store
  unfolding execute
  run s [] = s
  run s (c ∷ cs) = run (execute s c) cs

  execute-IsValid : (s : Store) (c : Call) → IsFresh c → IsValid s → IsValid (execute s c)
  unfolding execute
  execute-IsValid s (creating p fresh now) f v =
      kept_of-IsValid s _ v λ t q h. create-IsValid s t p fresh now q f v h
  execute-IsValid s (appending id m fresh) f v =
      kept-IsValid s _ v λ t h. append-IsValid json_valid s t id m fresh v h
  execute-IsValid s (compacting id c fresh now) f v =
      kept-IsValid s _ v λ t h. save_compaction-IsValid json_valid s t id c fresh now v h
  execute-IsValid s (forking id p through fresh now) f v =
      kept_of-IsValid s _ v λ t q h. fork-IsValid json_valid s t id p through fresh now q f v h

  -- After any sequence of calls from a valid store, refused ones among them, every session is
  -- stored under its own ID, which is canonical, and every checkpoint covers a part of the
  -- transcript beside it; new IDs are canonical, as uuid.NewV7 gives them.
  pub run-IsValid : (s : Store) (cs : List Call) → All IsFresh cs → IsValid s → IsValid (run s cs)
  unfolding run
  run-IsValid s [] f v = v
  run-IsValid s (c ∷ cs) f v = run-IsValid (execute s c) cs f.1 (execute-IsValid s c f.0 v)
