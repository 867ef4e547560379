-- ===== src/ResultStore/Tests.antt =====
-- Tests of resultstore/resultstore.go on two results.
use memax_go_agent_sdk.Prelude.{ℕ, zero, suc, String, List, [], ◌∷◌, ◌≡◌, refl, map, insert, lookup}
use memax_go_agent_sdk.ResultStore.{
  PutRequest, Handle, Entry, new_memory_store, list_results, count_results,
}
use memax_go_agent_sdk.ResultStore.Keeping.{Call, put_all}

abbrev numbered : ℕ → String
numbered zero = "result-0"
numbered (suc n) = String.◌∷◌ "1" (numbered n)

abbrev first_of : String → String
first_of String.[] = String.[]
first_of (String.◌∷◌ c s) = String.◌∷◌ c String.[]

abbrev rest_of : String → String
rest_of String.[] = String.[]
rest_of (String.◌∷◌ c s) = s

abbrev request : String → PutRequest
request content = record {
  session_id = "s";
  parent_session_id = "";
  tool_use_id = "u";
  tool_name = "read";
  content = content;
  metadata = [];
}

abbrev calls : List Call
calls =
    record { request = request "one"; now = 3 } ∷ record { request = request "twö"; now = 4 } ∷ []

contents_test :
    map (λ (e : Entry). e.content) (list_results (put_all numbered new_memory_store calls).1)
    ≡ "twö" ∷ "one" ∷ []
unfolding put_all list_results insert lookup
contents_test = refl

bytes_test : map (λ (h : Handle). h.bytes) (put_all numbered new_memory_store calls).0 ≡ 3 ∷ 4 ∷ []
unfolding put_all
bytes_test = refl

count_test : count_results (put_all numbered new_memory_store calls).1 ≡ 2
unfolding put_all insert
count_test = refl
