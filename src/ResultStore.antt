-- ===== src/ResultStore.antt =====
-- resultstore/resultstore.go: the memory store of tool results that are too long. `format_id` stands
-- for fmt.Sprintf("result-%d", n). A nil store and a cancelled context are left out; the times of
-- the clock are arguments.
use Prim.Native.String.{◌++◌ as text_append}
use Prim.Native.Char.{len_utf8}
use memax_go_agent_sdk.Prelude.{
  ℕ, zero, suc, ◌+◌, String, Option, none, some, List, [], ◌∷◌, map, Dict, lookup, insert, length,
  Result, ok, err,
}
use memax_go_agent_sdk.Prelude.Order.{text_less}
use memax_go_agent_sdk.Prelude.Sort.{stable_sort}
use memax_go_agent_sdk.Model.{Metadata}
pub mod Keeping
pub mod Tests

pub record PutRequest : Type 0 where
  pub session_id : String
  pub parent_session_id : String
  pub tool_use_id : String
  pub tool_name : String
  pub content : String
  pub metadata : Metadata

pub record Handle : Type 0 where
  pub id : String
  pub uri : String
  pub bytes : ℕ
  pub created_at : ℕ
  pub metadata : Metadata

pub record Entry : Type 0 where
  pub handle : Handle
  pub session_id : String
  pub parent_session_id : String
  pub tool_use_id : String
  pub tool_name : String
  pub content : String

pub record MemoryStore : Type 0 where
  pub next : ℕ
  pub entries : Dict Entry

pub data Error : Type 0 where
  no_such_result : String → Error

abbrev pub new_memory_store : MemoryStore
new_memory_store = record { next = 0; entries = [] }

-- len(s)
abbrev pub byte_count : String → ℕ
byte_count String.[] = zero
byte_count (String.◌∷◌ c s) = len_utf8 c + byte_count s

-- The entry that Put makes.
abbrev pub entry_of : PutRequest → Handle → Entry
entry_of req h = record {
  handle = h;
  session_id = req.session_id;
  parent_session_id = req.parent_session_id;
  tool_use_id = req.tool_use_id;
  tool_name = req.tool_name;
  content = req.content;
}

abbrev pub handle_of : String → PutRequest → ℕ → Handle
handle_of id req now = record {
  id = id;
  uri = text_append "memax-result://" id;
  bytes = byte_count req.content;
  created_at = now;
  metadata = req.metadata;
}

module _ (format_id : ℕ → String) where
  unfoldable pub put : MemoryStore → PutRequest → ℕ → Handle × MemoryStore
  put s req now =
      let h = handle_of (format_id (suc s.next)) req now in
      (h, record { next = suc s.next; entries = insert h.id (entry_of req h) s.entries })

unfoldable pub get : MemoryStore → String → Result Error Entry
get s id = elim (lookup id s.entries) [ none ↦ err (no_such_result id) | some e ↦ ok e ]

-- The entries under some names; each name is one of the map.
unfoldable pub entries_at : Dict Entry → List String → List Entry
entries_at m [] = []
entries_at m (id ∷ ids) =
    let rest = entries_at m ids in elim (lookup id m) [ none ↦ rest | some e ↦ e ∷ rest ]

-- List
unfoldable pub list_results : MemoryStore → List Entry
unfolding entries_at
list_results s = entries_at s.entries (stable_sort text_less (map (λ p. p.0) s.entries))

-- Len
abbrev pub count_results : MemoryStore → ℕ
count_results s = length s.entries
