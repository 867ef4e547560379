-- ===== src/Prelude/Order.antt =====
-- Go's order of strings, which sort.Strings and `<` use, and what a sort needs of an order.
use Prim.Native.Nat.{Ordering, compare as compare_number}
use Prim.Native.Nat.{ℕ}
use Prim.Native.Char.{code}
use Prim.Native.String.compare as compare_text
use Prim.Native.String.{String, compare as compare_text, then}
use mathlib.Core.Path.{◌≡◌, refl}
use mathlib.Core.Bool.{Bool, true, false}
use native.Mathlib.Omega.{arith}

-- a < b
abbrev pub text_less : String → String → Bool
text_less a b = elim (compare_text a b) [ Ordering.lt ↦ true | _ ↦ false ]

abbrev flipped : Ordering → Ordering
flipped Ordering.lt = Ordering.gt
flipped Ordering.eq = Ordering.eq
flipped Ordering.gt = Ordering.lt

flipped-number : (m n : ℕ) → compare_number n m ≡ flipped (compare_number m n)
flipped-number m n = ground arith

flipped-then : (o p : Ordering) → then (flipped o) (flipped p) ≡ flipped (then o p)
flipped-then Ordering.lt p = refl
flipped-then Ordering.eq p = refl
flipped-then Ordering.gt p = refl

compare-flipped : (s t : String) → compare_text t s ≡ flipped (compare_text s t)
compare-flipped String.[] String.[] = refl
compare-flipped String.[] (String.◌∷◌ d t) =
    rw (compare_text.cons-nil d t, compare_text.nil-cons d t) refl
compare-flipped (String.◌∷◌ c s) String.[] =
    rw (compare_text.nil-cons c s, compare_text.cons-nil c s) refl
compare-flipped (String.◌∷◌ c s) (String.◌∷◌ d t) =
    rw (compare_text.cons-cons d c t s, compare_text.cons-cons c d s t)
      (rw (flipped-number (code c) (code d), compare-flipped s t)
        (flipped-then (compare_number (code c) (code d)) (compare_text s t)))

pub text_less-asym : (a b : String) → text_less a b ≡ true → text_less b a ≡ false
text_less-asym a b h = at (compare_text a b) (compare_text b a) (compare-flipped a b) h
  where
    at :
        (o p : Ordering)
        → p ≡ flipped o
        → (elim o [ Ordering.lt ↦ true | _ ↦ false ]) ≡ true
        → (elim p [ Ordering.lt ↦ true | _ ↦ false ]) ≡ false
    at Ordering.lt p e h = rw e refl
    at Ordering.eq p e h = cc h
    at Ordering.gt p e h = cc h
