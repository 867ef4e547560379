-- ===== src/Executor/Batches.antt =====
-- partition of tool/executor.go: batches keep the order of the calls.
use memax_go_agent_sdk.Prelude.{
  Bool, false, ◌&&◌, List, [], ◌∷◌, ◌++◌, All, length, ◌≡◌, refl, sym, ap, ◌∙◌, arith, Bool-cases,
  inl, inr, append_assoc, append-nil,
}
use memax_go_agent_sdk.Model.{ToolUse}
use memax_go_agent_sdk.Prelude.{Option}
use memax_go_agent_sdk.Registry.{Registry}
use memax_go_agent_sdk.Executor.{can_run_concurrently, Batch, extend, partition_loop, partition}

abbrev pub uses_of : List Batch → List ToolUse
uses_of [] = []
uses_of (b ∷ bs) = b.uses ++ uses_of bs

module _ (registry : Option Registry) where
  -- A batch of calls that may run together, or one call on its own.
  abbrev pub IsUniform : Batch → Type 0
  IsUniform b =
      All (λ u. can_run_concurrently registry u ≡ b.concurrent) b.uses
      × (b.concurrent ≡ false → length b.uses ≡ 1)

  -- No batch of calls that may run together stands next to another.
  abbrev pub IsSeparated : List Batch → Type 0
  IsSeparated [] = Unit
  IsSeparated (b ∷ []) = Unit
  IsSeparated (b ∷ d ∷ bs) = ((b.concurrent && d.concurrent) ≡ false) × IsSeparated (d ∷ bs)

  All-snoc :
      (c : Bool) (us : List ToolUse) (u : ToolUse)
      → All (λ v. can_run_concurrently registry v ≡ c) us
      → can_run_concurrently registry u ≡ c
      → All (λ v. can_run_concurrently registry v ≡ c) (us ++ u ∷ [])
  All-snoc c [] u h e = (e, tt)
  All-snoc c (v ∷ us) u h e = (h.0, All-snoc c us u h.1 e)

  uses-extend :
      (bs : List Batch) (u : ToolUse) (c : Bool) → uses_of (extend bs u c) ≡ uses_of bs ++ u ∷ []
  unfolding extend
  uses-extend [] u c = refl
  uses-extend (b ∷ []) u c = elim (Bool-cases (c && b.concurrent)) [
    | inl t ↦ rw t (rw (append-nil (b.uses ++ u ∷ []), append-nil b.uses) refl)
    | inr t ↦ rw t (rw (append-nil b.uses) refl)
  ]
  uses-extend (b ∷ d ∷ bs) u c =
      ap (◌++◌ b.uses) (uses-extend (d ∷ bs) u c)
      ∙ sym (append_assoc b.uses (uses_of (d ∷ bs)) (u ∷ []))

  IsUniform-extend :
      (bs : List Batch) (u : ToolUse)
      → All IsUniform bs
      → All IsUniform (extend bs u (can_run_concurrently registry u))
  unfolding extend
  IsUniform-extend [] u h = (((refl, tt), λ e. refl), tt)
  IsUniform-extend (b ∷ []) u h =
      elim (Bool-cases (can_run_concurrently registry u && b.concurrent)) [
        | inl t ↦
            rw t ((All-snoc b.concurrent b.uses u h.0.0 (ground arith), λ e. ground arith), tt)
        | inr t ↦ rw t (h.0, (((refl, tt), λ e. refl), tt))
      ]
  IsUniform-extend (b ∷ d ∷ bs) u h = (h.0, IsUniform-extend (d ∷ bs) u h.1)

  IsSeparated-extend :
      (bs : List Batch) (u : ToolUse)
      → IsSeparated bs
      → IsSeparated (extend bs u (can_run_concurrently registry u))
  unfolding extend
  IsSeparated-extend [] u h = tt
  IsSeparated-extend (b ∷ []) u h =
      elim (Bool-cases (can_run_concurrently registry u && b.concurrent)) [
        | inl t ↦ rw t tt
        | inr t ↦ rw t (ground arith, tt)
      ]
  IsSeparated-extend (b ∷ d ∷ []) u h =
      elim (Bool-cases (can_run_concurrently registry u && d.concurrent)) [
        | inl t ↦ rw t (h.0, tt)
        | inr t ↦ rw t (h.0, (ground arith, tt))
      ]
  IsSeparated-extend (b ∷ d ∷ e ∷ bs) u h = (h.0, IsSeparated-extend (d ∷ e ∷ bs) u h.1)

  partition_loop-uses :
      (bs : List Batch) (us : List ToolUse)
      → uses_of (partition_loop registry bs us) ≡ uses_of bs ++ us
  unfolding partition_loop
  partition_loop-uses bs [] = sym (append-nil (uses_of bs))
  partition_loop-uses bs (u ∷ us) =
      partition_loop-uses (extend bs u (can_run_concurrently registry u)) us
      ∙ ap (λ xs. xs ++ us) (uses-extend bs u (can_run_concurrently registry u))
      ∙ append_assoc (uses_of bs) (u ∷ []) us

  partition_loop-shape :
      (bs : List Batch) (us : List ToolUse)
      → All IsUniform bs
      → IsSeparated bs
      → All IsUniform (partition_loop registry bs us) × IsSeparated (partition_loop registry bs us)
  unfolding partition_loop
  partition_loop-shape bs [] f s = (f, s)
  partition_loop-shape bs (u ∷ us) f s =
      partition_loop-shape (extend bs u (can_run_concurrently registry u)) us
        (IsUniform-extend bs u f) (IsSeparated-extend bs u s)

  -- The batches hold the calls in their order, each once. A batch is of calls that may run together,
  -- or is one call that may not; two batches of the first kind never follow each other.
  pub partition-keeps_order :
      (us : List ToolUse)
      → (uses_of (partition registry us) ≡ us)
        × All IsUniform (partition registry us)
        × IsSeparated (partition registry us)
  unfolding partition
  partition-keeps_order us =
      let shape = partition_loop-shape [] us tt tt in (partition_loop-uses [] us, shape.0, shape.1)
