-- ===== src/TranscriptRepair/Pairing.antt =====
-- The calls that can be answered, as a machine over the transcript, and what repair.go makes of them.
use memax_go_agent_sdk.Prelude.{
  String, Bool, true, false, ◌&&◌, none, some, List, [], ◌∷◌, ◌++◌, ◌≡◌, refl, arith, eq_refl,
  contains, subst, if◌then◌else◌, append_assoc,
}
use memax_go_agent_sdk.Model.{
  ContentBlock, ToolUse, Message, is_tool_role, clone_message, clone_content_blocks,
  normalize_tool_use,
}
use memax_go_agent_sdk.TranscriptRepair.{
  known_ids, missing, result_id, tool_uses_of, assistant_tool_uses, absorb,
  repair_tool_use_adjacency,
}
use memax_go_agent_sdk.TranscriptRepair.Ids.{
  is_empty, distinct, without, waiting, waiting-nil, waiting-cons, contains-waiting, without-absent,
}
use memax_go_agent_sdk.TranscriptRepair.Loop.{answers, repaired, repair-eq-repaired}

-- The IDs of the calls of a message that can be answered: those that are not empty.
abbrev pub answerable_ids : (String → Bool) → Message → List String
answerable_ids json_valid m = known_ids (assistant_tool_uses json_valid m)

-- A tool message answers one of the waiting calls; any other message, and the end, find none waiting.
abbrev pub is_paired : (String → Bool) → List String → List Message → Bool
is_paired v pending [] = is_empty pending
is_paired v pending (m ∷ ms) =
    if is_tool_role m.role
    then (elim m.tool_result [
      | none ↦ false
      | some r ↦ contains pending r.tool_use_id && is_paired v (without r.tool_use_id pending) ms
    ])
    else is_empty pending && is_paired v (answerable_ids v m) ms

-- No message uses one ID that is not empty for two of its calls.
abbrev pub has_distinct_calls : (String → Bool) → List Message → Bool
has_distinct_calls v [] = true
has_distinct_calls v (m ∷ ms) = distinct (answerable_ids v m) && has_distinct_calls v ms

module _ (v : String → Bool) where
  -- Copying a message does not change the IDs of its calls.
  tool_uses_of-clone :
      (bs : List ContentBlock)
      → known_ids (tool_uses_of v (clone_content_blocks v bs)) ≡ known_ids (tool_uses_of v bs)
  unfolding tool_uses_of clone_content_blocks normalize_tool_use
  tool_uses_of-clone [] = refl
  tool_uses_of-clone (b ∷ bs) = ground (arith, tool_uses_of-clone bs)

  clone-role : (m : Message) → is_tool_role (clone_message v m).role ≡ is_tool_role m.role
  unfolding clone_message
  clone-role m = refl

  pub answerable_ids-clone :
      (m : Message) → answerable_ids v (clone_message v m) ≡ answerable_ids v m
  unfolding assistant_tool_uses clone_message
  answerable_ids-clone m = ground (arith, tool_uses_of-clone m.content)

  -- The records of the last loop answer what is left, one call after the other.
  is_paired-missing :
      (us : List ToolUse) (seen : List String) (rest : List Message)
      → distinct (known_ids us) ≡ true
      → is_paired v [] rest ≡ true
      → is_paired v (waiting seen (known_ids us)) (missing us seen ++ rest) ≡ true
  unfolding missing
  is_paired-missing [] seen rest d h = h
  is_paired-missing (u ∷ us) seen rest d h = ground (
    arith,
    is_paired-missing us seen rest,
    eq_refl u.id,
    contains-waiting u.id seen (known_ids us),
    without-absent u.id (waiting seen (known_ids us)),
  )

  -- The results that the inner loop keeps answer waiting calls, each once.
  is_paired-taken :
      (known seen : List String) (ms tail : List Message)
      → is_paired v (waiting (absorb v known seen ms).seen known) tail ≡ true
      → is_paired v (waiting seen known) ((absorb v known seen ms).taken ++ tail) ≡ true
  unfolding absorb clone_message
  is_paired-taken known seen [] tail h = h
  is_paired-taken known seen (m ∷ ms) tail h =
      let id = result_id m.tool_result in
      ground (
        arith,
        is_paired-taken known seen ms tail,
        is_paired-taken known (id ∷ seen) ms tail,
        waiting-cons id seen known,
        contains-waiting id seen known,
      )

  is_paired-answers :
      (m : Message) (ms rest : List Message)
      → distinct (answerable_ids v m) ≡ true
      → is_paired v [] rest ≡ true
      → is_paired v (answerable_ids v m) (answers v m ms ++ rest) ≡ true
  is_paired-answers m ms rest d h =
      let uses = assistant_tool_uses v m in
      let a = absorb v (known_ids uses) [] ms in
      rw (append_assoc a.taken (missing uses a.seen) rest) (
        subst (λ ks. is_paired v ks (a.taken ++ (missing uses a.seen ++ rest)) ≡ true)
          (waiting-nil (known_ids uses))
          (is_paired-taken (known_ids uses) [] ms (missing uses a.seen ++ rest)
            (is_paired-missing uses a.seen rest d h)))

  is_paired-repaired :
      (ms : List Message) → has_distinct_calls v ms ≡ true → is_paired v [] (repaired v ms) ≡ true
  is_paired-repaired [] d = refl
  is_paired-repaired (m ∷ ms) d = ground (
    arith,
    is_paired-repaired ms,
    is_paired-answers m ms (repaired v ms),
    answerable_ids-clone m,
    clone-role m,
  )

  -- The repaired transcript answers each call with an ID once, if no message repeats one.
  pub repair-is_paired :
      (ms : List Message)
      → has_distinct_calls v ms ≡ true
      → is_paired v [] (repair_tool_use_adjacency v ms) ≡ true
  repair-is_paired ms d = rw (repair-eq-repaired v ms) (is_paired-repaired ms d)
