-- ===== src/Session/Ids.antt =====
-- session/store.go: session IDs, UUIDs in lower case.
use Prim.Native.Char.{Char, code}
use memax_go_agent_sdk.Prelude.{
  ℕ, zero, suc, String, Bool, true, false, ◌&&◌, ◌||◌, Option, none, some, List, [], ◌∷◌, ◌≡◌, refl,
  leb, eqb, if◌then◌else◌, arith, Bool-cases, inl, inr, ap, &&-true, subst,
}

-- What a place of the pattern accepts; the flag (?i) adds the capital letters.
pub data Place : Type 0 where
  hex dash : Place

is_hex : ℕ → Bool
is_hex c = (leb b'0' c && leb c b'9') || ((leb b'a' c && leb c b'f') || (leb b'A' c && leb c b'F'))

abbrev accepts : Place → ℕ → Bool
accepts hex c = is_hex c
accepts dash c = eqb c b'-'

abbrev hexes : ℕ → List Place → List Place
hexes zero ps = ps
hexes (suc n) ps = hex ∷ hexes n ps

-- ^[0-9a-f]{8}-[0-9a-f]{4}-[0-9a-f]{4}-[0-9a-f]{4}-[0-9a-f]{12}$
abbrev session_id_pattern : List Place
session_id_pattern = hexes 8 (dash ∷ hexes 4 (dash ∷ hexes 4 (dash ∷ hexes 4 (dash ∷ hexes 12 []))))

matches : List Place → String → Bool
unfolding is_hex
matches [] String.[] = true
matches [] (String.◌∷◌ c s) = false
matches (p ∷ ps) String.[] = false
matches (p ∷ ps) (String.◌∷◌ c s) = accepts p (code c) && matches ps s

-- strings.ToLower on what the pattern accepts.
lower_hex : Char → Char
lower_hex c =
    if eqb (code c) b'A'
    then "a"
    else if eqb (code c) b'B'
    then "b"
    else if eqb (code c) b'C'
    then "c"
    else if eqb (code c) b'D'
    then "d"
    else if eqb (code c) b'E'
    then "e"
    else if eqb (code c) b'F'
    then "f"
    else c

to_lower : String → String
unfolding lower_hex
to_lower String.[] = String.[]
to_lower (String.◌∷◌ c s) = String.◌∷◌ (lower_hex c) (to_lower s)

-- CanonicalID; ValidID asks whether it succeeds.
unfoldable pub canonical_id : String → Option String
unfolding matches to_lower
canonical_id id = if matches session_id_pattern id then some (to_lower id) else none

unfoldable pub valid_id : String → Bool
unfolding canonical_id
valid_id id = elim (canonical_id id) [ none ↦ false | some _ ↦ true ]

if-cases :
    (P : Char → Type 0) (b : Bool) (x y : Char) → P x → (b ≡ false → P y) → P (if b then x else y)
if-cases P true x y p q = p
if-cases P false x y p q = q refl

abbrev is_capital_hex : Char → Bool
is_capital_hex c =
    eqb (code c) b'A'
    || (eqb (code c) b'B'
        || (eqb (code c) b'C' || (eqb (code c) b'D' || (eqb (code c) b'E' || eqb (code c) b'F'))))

lower_hex-cases :
    (P : Char → Type 0) (c : Char)
    → P "a"
    → P "b"
    → P "c"
    → P "d"
    → P "e"
    → P "f"
    → (is_capital_hex c ≡ false → P c)
    → P (lower_hex c)
unfolding lower_hex
lower_hex-cases P c pa pb pc pd pe pf p = if-cases P (eqb (code c) b'A') "a" _ pa λ ha.
    if-cases P (eqb (code c) b'B') "b" _ pb λ hb. if-cases P (eqb (code c) b'C') "c" _ pc λ hc.
      if-cases P (eqb (code c) b'D') "d" _ pd λ hd.
        if-cases P (eqb (code c) b'E') "e" _ pe
          λ he. if-cases P (eqb (code c) b'F') "f" _ pf λ hf. p (rw (ha, hb, hc, hd, he, hf))

lower_hex-other : (c : Char) → is_capital_hex c ≡ false → lower_hex c ≡ c
unfolding lower_hex
lower_hex-other c h = ground arith

lower_hex_idem : (c : Char) → lower_hex (lower_hex c) ≡ lower_hex c
unfolding lower_hex
lower_hex_idem c =
    lower_hex-cases (λ d. lower_hex d ≡ d) c refl refl refl refl refl refl (lower_hex-other c)

is_hex-lower : (c : Char) → is_hex (code c) ≡ true → is_hex (code (lower_hex c)) ≡ true
unfolding is_hex
is_hex-lower c h =
    lower_hex-cases (λ d. is_hex (code d) ≡ true) c refl refl refl refl refl refl (λ _. h)

dash-lower : (c : Char) → eqb (code c) b'-' ≡ true → eqb (code (lower_hex c)) b'-' ≡ true
unfolding lower_hex
dash-lower c h = ground arith

accepts-lower :
    (p : Place) (c : Char) → accepts p (code c) ≡ true → accepts p (code (lower_hex c)) ≡ true
accepts-lower hex c h = is_hex-lower c h
accepts-lower dash c h = dash-lower c h

matches-lower :
    (ps : List Place) (s : String) → matches ps s ≡ true → matches ps (to_lower s) ≡ true
unfolding matches to_lower
matches-lower [] String.[] h = refl
matches-lower [] (String.◌∷◌ c s) h = cc
matches-lower (p ∷ ps) String.[] h = cc
matches-lower (p ∷ ps) (String.◌∷◌ c s) h =
    let (a, b) = &&-true (accepts p (code c)) (matches ps s) h in
    rw (accepts-lower p c a) (matches-lower ps s b)

to_lower_idem : (s : String) → to_lower (to_lower s) ≡ to_lower s
unfolding to_lower
to_lower_idem String.[] = refl
to_lower_idem (String.◌∷◌ c s) = cc (lower_hex_idem c, to_lower_idem s)

-- A canonical ID is its own canonical form.
pub canonical_id_idem : (id c : String) → canonical_id id ≡ some c → canonical_id c ≡ some c
unfolding canonical_id
canonical_id_idem id c h = elim (Bool-cases (matches session_id_pattern id)) [
  | inl t ↦
      let e : to_lower id ≡ c = cc (rw t at h) in
      subst (λ x. canonical_id x ≡ some x) e
        (rw (matches-lower session_id_pattern id t) (ap some (to_lower_idem id)))
  | inr t ↦ cc (rw t at h)
]
