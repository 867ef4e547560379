-- ===== src/ContextWindow/TruncationLaws.antt =====
-- The binary search of truncateTextMessage finds the longest text that fits.
use memax_go_agent_sdk.Prelude.{ℕ, suc, ◌≤◌, ◌<◌, Option, none, some, ◌≡◌}
use memax_go_agent_sdk.Prelude.Int.{ℤ, pos}

-- A length whose candidate is estimated at no more than the limit.
abbrev pub FitsAt : (ℕ → ℤ) → ℕ → ℕ → Type 0
FitsAt count max n = (c : ℕ) × (count n ≡ pos c) × (c ≤ max)

-- The lengths that fit are an initial segment, and no estimate is negative.
abbrev pub IsMonotone : (ℕ → ℤ) → ℕ → Type 0
IsMonotone count max = (m n : ℕ) → m ≤ n → FitsAt count max n → FitsAt count max m

abbrev pub Best : (ℕ → ℤ) → ℕ → ℕ → Option ℕ → Type 0
Best count max above none = (n : ℕ) → n < above → ¬ FitsAt count max n
Best count max above (some b) =
    FitsAt count max b × (b < above) × ((n : ℕ) → b < n → n < above → ¬ FitsAt count max n)

-- What is known in the course of the search: `best` is the last length below `low`, or none fits there.
abbrev SoFar : (ℕ → ℤ) → ℕ → ℕ → Option ℕ → Type 0
SoFar count max low none = low ≡ 0
SoFar count max low (some b) = FitsAt count max b × (low ≡ suc b)

module _ (count : ℕ → ℤ) (max top : ℕ) (mono : IsMonotone count max) where
  -- The state of the search: no length from `above` on fits.
  record Searching (low above : ℕ) (best : Option ℕ) : Type 0 where
    ordered : low ≤ above
    bounded : above ≤ top
    over : (n : ℕ) → above ≤ n → n < top → ¬ FitsAt count max n
    so_far : SoFar count max low best
