-- ===== src/TranscriptRepair/Ids.antt =====
-- The IDs that still wait for a result, as the inner loops of repair.go go on.
use memax_go_agent_sdk.Prelude.{
  String, Bool, true, false, not, ◌&&◌, List, [], ◌∷◌, ◌≡◌, refl, arith, eq_iff, ◌==◌, contains,
  if◌then◌else◌,
}

abbrev pub is_empty : List String → Bool
is_empty [] = true
is_empty (x ∷ xs) = false

abbrev pub distinct : List String → Bool
distinct [] = true
distinct (x ∷ xs) = not (contains xs x) && distinct xs

-- `xs` less every entry equal to `x`.
abbrev pub without : String → List String → List String
without x [] = []
without x (y ∷ ys) = if y == x then without x ys else y ∷ without x ys

-- The known IDs that were not seen.
abbrev pub waiting : List String → List String → List String
waiting seen [] = []
waiting seen (k ∷ ks) = if contains seen k then waiting seen ks else k ∷ waiting seen ks

pub waiting-nil : (ks : List String) → waiting [] ks ≡ ks
waiting-nil [] = refl
waiting-nil (k ∷ ks) = ground (arith, waiting-nil ks)

pub waiting-cons :
    (x : String) (seen ks : List String) → waiting (x ∷ seen) ks ≡ without x (waiting seen ks)
waiting-cons x seen [] = refl
waiting-cons x seen (k ∷ ks) = ground (arith, waiting-cons x seen ks, eq_iff x k, eq_iff k x)

pub contains-waiting :
    (x : String) (seen ks : List String)
    → contains (waiting seen ks) x ≡ (contains ks x && not (contains seen x))
contains-waiting x seen [] = refl
contains-waiting x seen (k ∷ ks) = ground (arith, contains-waiting x seen ks, eq_iff k x)

pub without-absent : (x : String) (xs : List String) → contains xs x ≡ false → without x xs ≡ xs
without-absent x [] h = refl
without-absent x (y ∷ ys) h = ground (arith, without-absent x ys)
