-- ===== src/Agent/Tally.antt =====
-- agent.go: of the calls of a turn, those that were not started early are those that the last loop
-- gives to the executor.
use memax_go_agent_sdk.Prelude.{
  ℕ, suc, ◌+◌, ◌≤◌, ◌<◌, Option, none, some, List, [], ◌∷◌, ◌++◌, length, All, All-append, eqb, ◌≡◌,
  refl, ap, arith, if◌then◌else◌, length-append,
}
use memax_go_agent_sdk.Model.{ToolUse, ToolResult}
use memax_go_agent_sdk.Agent.Stream.{early_at}
use memax_go_agent_sdk.Agent.Tools.{Chunk, started, batch, extend_chunks, chunks}

abbrev Early : Type 0
Early = List (ℕ × List ToolResult)

abbrev pub one_if_none : Option (List ToolResult) → ℕ
one_if_none none = 1
one_if_none (some rs) = 0

-- The number of the calls, from an index on, that were not started early.
unfoldable pub pending : Early → ℕ → List ToolUse → ℕ
pending early i [] = 0
pending early i (u ∷ us) = one_if_none (early_at early i) + pending early (suc i) us

-- The number of calls in the batches.
unfoldable pub batched : List Chunk → ℕ
batched [] = 0
batched (started rs ∷ cs) = batched cs
batched (batch us ∷ cs) = length us + batched cs

nothing_batched : batched [] ≡ 0
unfolding batched
nothing_batched = refl

batched-extend :
    (o : Option (List ToolResult)) (u : ToolUse) (cs : List Chunk)
    → batched (extend_chunks o u cs) ≡ one_if_none o + batched cs
unfolding batched
batched-extend (some rs) u cs = ground arith
batched-extend none u [] = ground arith
batched-extend none u (started rs ∷ cs) = ground arith
batched-extend none u (batch us ∷ cs) = ground arith

pub batched-chunks :
    (early : Early) (i : ℕ) (us : List ToolUse) → batched (chunks early i us) ≡ pending early i us
unfolding chunks pending
batched-chunks early i [] = nothing_batched
batched-chunks early i (u ∷ us) = ground (
  arith,
  batched-extend (early_at early i) u (chunks early (suc i) us),
  batched-chunks early (suc i) us,
)

pending-snoc :
    (early : Early) (i : ℕ) (us : List ToolUse) (u : ToolUse)
    → pending early i (us ++ u ∷ [])
      ≡ pending early i us + one_if_none (early_at early (i + length us))
unfolding pending
pending-snoc early i [] u = ground arith
pending-snoc early i (v ∷ us) u =
    let same : suc i + length us ≡ i + length (v ∷ us) = omega arith in
    ground (arith, pending-snoc early (suc i) us u, ap (λ k. one_if_none (early_at early k)) same)

early_at-below : (early : Early) (k : ℕ) → All (λ e. e.0 < k) early → early_at early k ≡ none
early_at-below [] k h = refl
early_at-below ((j, rs) ∷ early) k h = ground (arith, early_at-below early k h.1)

early_at-append :
    (early : Early) (k j : ℕ) (rs : List ToolResult)
    → one_if_none (early_at (early ++ (k, rs) ∷ []) j)
      ≡ (if eqb k j then 0 else one_if_none (early_at early j))
early_at-append [] k j rs = ground arith
early_at-append ((i, qs) ∷ early) k j rs = ground (arith, early_at-append early k j rs)

-- An entry above the calls counts for none of them.
pending-above :
    (early : Early) (k i : ℕ) (us : List ToolUse) (rs : List ToolResult)
    → i + length us ≤ k
    → pending (early ++ (k, rs) ∷ []) i us ≡ pending early i us
unfolding pending
pending-above early k i [] rs h = refl
pending-above early k i (u ∷ us) rs h =
    ground (arith, early_at-append early k i rs, pending-above early k (suc i) us rs)

pub record IsTally (early : Early) (uses : List ToolUse) : Type 0 where
  pub below : All (λ e. e.0 < length uses) early
  pub counted : pending early 0 uses + length early ≡ length uses

All-weaker : (early : Early) (m n : ℕ) → m ≤ n → All (λ e. e.0 < m) early → All (λ e. e.0 < n) early
All-weaker [] m n le h = tt
All-weaker ((j, rs) ∷ early) m n le (first, others) = (ground arith, All-weaker early m n le others)

pub nothing-IsTally : IsTally [] []
unfolding pending
nothing-IsTally = record { below = tt; counted = refl }

-- A call that is not started early.
pub late-IsTally :
    (early : Early) (uses : List ToolUse) (u : ToolUse)
    → IsTally early uses
    → IsTally early (uses ++ u ∷ [])
late-IsTally early uses u t = record {
  below = All-weaker early (length uses) _ (ground (arith, length-append uses (u ∷ []))) t.below;
  counted = ground (
    arith,
    t.counted,
    length-append uses (u ∷ []),
    pending-snoc early 0 uses u,
    early_at-below early (length uses) t.below,
  );
}

-- A call that is.
pub early-IsTally :
    (early : Early) (uses : List ToolUse) (u : ToolUse) (rs : List ToolResult)
    → IsTally early uses
    → IsTally (early ++ (length uses, rs) ∷ []) (uses ++ u ∷ [])
early-IsTally early uses u rs t = record {
  below =
      All-append _ early ((length uses, rs) ∷ []) (late-IsTally early uses u t).below
        (ground (arith, length-append uses (u ∷ [])), tt);
  counted = ground (
    arith,
    t.counted,
    length-append uses (u ∷ []),
    length-append early ((length uses, rs) ∷ []),
    pending-snoc (early ++ (length uses, rs) ∷ []) 0 uses u,
    pending-above early (length uses) 0 uses rs,
    early_at-append early (length uses) (length uses) rs,
  );
}
