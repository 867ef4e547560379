-- ===== src/ResultStore/Keeping.antt =====
-- Put and Get of resultstore/resultstore.go: what is put can be got, whatever is put later.
use memax_go_agent_sdk.Prelude.{ℕ, ◌<◌, String, none, List, [], ◌∷◌, lookup, ok, ◌≡◌}
use memax_go_agent_sdk.ResultStore.{PutRequest, Handle, MemoryStore, entry_of, put, get}

-- A sequence of calls of Put, each at a time of the clock, with the handles that it returns.
pub record Call : Type 0 where
  pub request : PutRequest
  pub now : ℕ

-- Each call's handle leads to what the call put.
abbrev pub AllKept : List Call → List Handle → MemoryStore → Type 0
AllKept [] [] s = Unit
AllKept [] (h ∷ hs) s = ⊥
AllKept (c ∷ cs) [] s = ⊥
AllKept (c ∷ cs) (h ∷ hs) s = (get s h.id ≡ ok (entry_of c.request h)) × AllKept cs hs s

module _ (format_id : ℕ → String) where
  unfoldable pub put_all : MemoryStore → List Call → List Handle × MemoryStore
  unfolding put
  put_all s [] = ([], s)
  put_all s (c ∷ cs) =
      let rest = put_all (put format_id s c.request c.now).1 cs in
      ((put format_id s c.request c.now).0 ∷ rest.0, rest.1)

  module _ (injective : (m n : ℕ) → format_id m ≡ format_id n → m ≡ n) where
    -- No number after the last is in use.
    IsNumbered : MemoryStore → Type 0
    IsNumbered s = (n : ℕ) → s.next < n → lookup (format_id n) s.entries ≡ none
