-- ===== src/Prelude/Sort.antt =====
-- sort.SliceStable: the stable sort by a strict order, as an insertion sort. Entries that compare
-- as equal keep their order.
use mathlib.Core.Path.{◌≡◌}
use mathlib.Core.Bool.{Bool, true, false}
use mathlib.Core.List.{List, [], ◌∷◌, Perm}
use mathlib.Core.List.Perm
use memax_go_agent_sdk.Prelude.Tests.{if◌then◌else◌, Bool-cases}
use mathlib.Core.Logic.{inl, inr}

module _ {ℓ} {A : Type ℓ} (less : A → A → Bool) where
  -- An entry goes before the first that is not less than it.
  abbrev pub sort_insert : A → List A → List A
  sort_insert x [] = x ∷ []
  sort_insert x (y ∷ ys) = let rest = sort_insert x ys in if less y x then y ∷ rest else x ∷ y ∷ ys

  abbrev pub stable_sort : List A → List A
  stable_sort [] = []
  stable_sort (x ∷ xs) = sort_insert x (stable_sort xs)

  -- Each entry is not above its successor.
  abbrev pub IsOrdered : List A → Type 0
  IsOrdered [] = Unit
  IsOrdered (x ∷ []) = Unit
  IsOrdered (x ∷ y ∷ ys) = (less y x ≡ false) × IsOrdered (y ∷ ys)

  sort_insert-perm : (x : A) (ys : List A) → Perm (sort_insert x ys) (x ∷ ys)
  sort_insert-perm x [] = Perm.refl (x ∷ [])
  sort_insert-perm x (y ∷ ys) = elim (Bool-cases (less y x)) [
    | inl t ↦ rw t (Perm.trans (Perm.cons y (sort_insert-perm x ys)) (Perm.swap x y ys))
    | inr t ↦ rw t (Perm.refl (x ∷ y ∷ ys))
  ]

  pub stable_sort-perm : (xs : List A) → Perm (stable_sort xs) xs
  stable_sort-perm [] = Perm.refl []
  stable_sort-perm (x ∷ xs) =
      Perm.trans (sort_insert-perm x (stable_sort xs)) (Perm.cons x (stable_sort-perm xs))

  -- `less` is asymmetric where it matters.
  abbrev pub IsAsymmetric : Type ℓ
  IsAsymmetric = (x y : A) → less x y ≡ true → less y x ≡ false

  sort_insert-IsOrdered :
      IsAsymmetric → (x : A) (ys : List A) → IsOrdered ys → IsOrdered (sort_insert x ys)
  sort_insert-IsOrdered asym x [] o = tt
  sort_insert-IsOrdered asym x (y ∷ []) o = elim (Bool-cases (less y x)) [
    | inl t ↦ rw t (asym y x t, tt)
    | inr t ↦ rw t (t, tt)
  ]
  sort_insert-IsOrdered asym x (y ∷ z ∷ zs) o =
      let ih = sort_insert-IsOrdered asym x (z ∷ zs) o.1 in
      elim (Bool-cases (less y x)) [
        | inr t ↦ rw t (t, o)
        | inl t ↦ elim (Bool-cases (less z x)) [
          | inl u ↦ rw t (rw u (o.0, rw u at ih))
          | inr u ↦ rw t (rw u (asym y x t, rw u at ih))
        ]
      ]

  pub stable_sort-IsOrdered : IsAsymmetric → (xs : List A) → IsOrdered (stable_sort xs)
  stable_sort-IsOrdered asym [] = tt
  stable_sort-IsOrdered asym (x ∷ xs) =
      sort_insert-IsOrdered asym x (stable_sort xs) (stable_sort-IsOrdered asym xs)
