-- ===== src/Agent/TextLaws.antt =====
-- assistantTextStreamNormalizer of agent.go changes white space only.
use Prim.Native.Char.{code}
use Prim.Native.String.{◌++◌ as text_append}
use text.Mathlib.TextLemmas.{cons-append, nil-append}
use memax_go_agent_sdk.Prelude.{
  ℕ, String, Bool, true, false, Option, none, some, List, [], ◌∷◌, ◌==◌, eq_iff, if◌then◌else◌, ◌≡◌,
  refl, ◌∙◌, sym, ap, arith, Bool-cases, inl, inr,
}
use memax_go_agent_sdk.Prelude.Text.{is_space, trim_left, trim_right}
use memax_go_agent_sdk.Agent.TextStream.{
  Normalizer, new_normalizer, leading_space, trailing_space, split_assistant_stream_text, or_else,
  preserved_break_prefix, blank_separated_fragment_prefix, blank_prefix, prefix, remember, push,
}

-- A text without its white space.
unfoldable pub squeezed : String → String
unfolding is_space
squeezed String.[] = String.[]
squeezed (String.◌∷◌ c s) =
    let rest = squeezed s in if is_space (code c) then rest else String.◌∷◌ c rest

squeezed-append :
    (s t : String) → squeezed (text_append s t) ≡ text_append (squeezed s) (squeezed t)
unfolding squeezed
squeezed-append String.[] t = rw (nil-append t, nil-append (squeezed t)) refl
squeezed-append (String.◌∷◌ c s) t = elim (Bool-cases (is_space (code c))) [
  | inl e ↦ rw (cons-append c s t, e) (squeezed-append s t)
  | inr e ↦
      rw (cons-append c s t, e)
        (rw (squeezed-append s t) (sym (cons-append c (squeezed s) (squeezed t))))
]

squeezed-trim_left : (s : String) → squeezed (trim_left s) ≡ squeezed s
unfolding squeezed trim_left
squeezed-trim_left String.[] = refl
squeezed-trim_left (String.◌∷◌ c s) = ground (arith, squeezed-trim_left s)

squeezed-trim_right : (s : String) → squeezed (trim_right s) ≡ squeezed s
unfolding squeezed trim_right
squeezed-trim_right String.[] = refl
squeezed-trim_right (String.◌∷◌ c s) =
    ground (arith, squeezed-trim_right s, eq_iff (trim_right s) "")

squeezed-leading_space : (s : String) → squeezed (leading_space s) ≡ ""
unfolding squeezed leading_space
squeezed-leading_space String.[] = refl
squeezed-leading_space (String.◌∷◌ c s) = elim (Bool-cases (is_space (code c))) [
  | inl e ↦ rw e (rw e (squeezed-leading_space s))
  | inr e ↦ rw e refl
]

squeezed-trailing_space : (s : String) → squeezed (trailing_space s) ≡ ""
unfolding trailing_space squeezed
squeezed-trailing_space String.[] = squeezed-trim_right ""
squeezed-trailing_space (String.◌∷◌ c s) = elim (Bool-cases (trim_right (String.◌∷◌ c s) == "")) [
  | inl e ↦ rw e (
      sym (squeezed-trim_right (String.◌∷◌ c s))
      ∙ (ap squeezed ((eq_iff (trim_right (String.◌∷◌ c s)) "").0 e) ∙ squeezed-trim_right ""))
  | inr e ↦ rw e (squeezed-trailing_space s)
]

-- A prefix that is white space, if there is one.
data IsBlank : String → Type 0 where
  squeezes : (s : String) → squeezed s ≡ "" → IsBlank s

squeezed-IsBlank : (s : String) → IsBlank s → squeezed s ≡ ""
squeezed-IsBlank s (squeezes _ e) = e

data IsBlankIfAny : Option String → Type 0 where
  no_prefix : IsBlankIfAny none
  a_prefix : (p : String) → IsBlank p → IsBlankIfAny (some p)

if_any :
    (b : Bool) (x y : Option String)
    → IsBlankIfAny x
    → IsBlankIfAny y
    → IsBlankIfAny (if b then x else y)
if_any true x y hx hy = hx
if_any false x y hx hy = hy

either : (b : Bool) (x y : String) → IsBlank x → IsBlank y → IsBlank (if b then x else y)
either true x y hx hy = hx
either false x y hx hy = hy

chosen : (o : Option String) (y : String) → IsBlankIfAny o → IsBlank y → IsBlank (or_else o y)
chosen none y ho hy = hy
chosen (some p) y (a_prefix _ h) hy = h

blank_line : IsBlank "\n\n"
unfolding squeezed
blank_line = squeezes _ refl

line_end : IsBlank "\n"
unfolding squeezed
line_end = squeezes _ refl

blank : IsBlank " "
unfolding squeezed
blank = squeezes _ refl

nothing : IsBlank ""
unfolding squeezed
nothing = squeezes _ refl

joined-blank : (s t : String) → IsBlank s → IsBlank t → IsBlank (text_append s t)
joined-blank s t hs ht =
    squeezes _
      (squeezed-append s t ∙ (rw (squeezed-IsBlank s hs, squeezed-IsBlank t ht) (nil-append "")))

-- The text of pieces.
abbrev pub joined : List String → String
joined [] = ""
joined (s ∷ ss) = text_append s (joined ss)

module _ (is_letter is_digit is_upper is_lower : ℕ → Bool) (lower : String → String) where
  preserved-blank :
      (s : String)
      → IsBlankIfAny (preserved_break_prefix is_letter is_digit is_upper is_lower lower s)
  unfolding preserved_break_prefix
  preserved-blank s = search (if_any, a_prefix, no_prefix, blank_line, line_end) depth 20 fits 4000

  fragment-blank :
      (prev first len : ℕ) (s : String)
      → IsBlankIfAny (
          blank_separated_fragment_prefix is_letter is_digit is_upper is_lower lower prev first len
            s)
  unfolding blank_separated_fragment_prefix
  fragment-blank prev first len s =
      search (if_any, a_prefix, no_prefix, blank, nothing) depth 20 fits 4000

  prefix_over_lines-blank :
      (n : Normalizer) (w : String) (newlines first : ℕ) (core : String)
      → IsBlank (blank_prefix is_letter is_digit is_upper is_lower lower n w newlines first core)
  unfolding blank_prefix
  prefix_over_lines-blank n w newlines first core =
      search (either, chosen, if_any, no_prefix, fragment-blank, blank, blank_line, nothing) depth
        20 fits 4000

  prefix-blank :
      (n : Normalizer) (leading core : String)
      → IsBlank n.pending_whitespace
      → IsBlank leading
      → IsBlank (prefix is_letter is_digit is_upper is_lower lower n leading core)
  unfolding prefix
  prefix-blank n leading core p l =
      let w : IsBlank (text_append n.pending_whitespace leading) = joined-blank _ _ p l in
      search (either, chosen, preserved-blank, prefix_over_lines-blank, line_end, nothing, w) depth
        20 fits 4000

  -- The texts that push sends for a stream, joined.
  unfoldable pub pushed : Normalizer → List String → String
  pushed n [] = ""
  pushed n (s ∷ ss) =
      let (out, next) = push is_letter is_digit is_upper is_lower lower n s in
      text_append out (pushed next ss)

  remember-pending :
      (n : Normalizer) (s : String)
      → (remember is_letter is_digit is_upper is_lower lower n s).pending_whitespace
        ≡ n.pending_whitespace
  unfolding remember
  remember-pending n s = ground arith

  record Pushed (n : Normalizer) (s : String) : Type 0 where
    sent : squeezed (push is_letter is_digit is_upper is_lower lower n s).0 ≡ squeezed s
    pending : IsBlank (push is_letter is_digit is_upper is_lower lower n s).1.pending_whitespace

  squeezed-core : (s : String) → squeezed (trim_right (trim_left s)) ≡ squeezed s
  squeezed-core s = squeezed-trim_right (trim_left s) ∙ squeezed-trim_left s

  push-Pushed : (n : Normalizer) (s : String) → IsBlank n.pending_whitespace → Pushed n s
  unfolding push split_assistant_stream_text
  push-Pushed n s p =
      let core = trim_right (trim_left s) in
      let leads : IsBlank (leading_space s) = squeezes _ (squeezed-leading_space s) in
      let trails : IsBlank (trailing_space (trim_left s)) =
        squeezes _ (squeezed-trailing_space (trim_left s)) in
      elim (Bool-cases (s == "")) [
        | inl e ↦ record { sent = rw e (sym (ap squeezed ((eq_iff s "").0 e))); pending = rw e p }
        | inr e ↦ elim (Bool-cases (core == "")) [
          | inl f ↦
              let empty : squeezed s ≡ "" =
                sym (squeezed-core s)
                ∙ (ap squeezed ((eq_iff core "").0 f) ∙ squeezed-IsBlank "" nothing) in
              record {
                sent = rw e (rw f (squeezed-IsBlank "" nothing ∙ sym empty));
                pending = rw e (rw f (joined-blank _ _ p (squeezes _ empty)));
              }
          | inr f ↦ record {
            sent = rw e (
                rw f (
                  squeezed-append (prefix is_letter is_digit is_upper is_lower lower n _ core) core
                  ∙ (rw (squeezed-IsBlank _ (prefix-blank n (leading_space s) core p leads))
                      (nil-append (squeezed core) ∙ squeezed-core s))));
            pending = rw e (rw f (rw (remember-pending _ core) trails));
          }
        ]
      ]

  squeezed-pushed :
      (n : Normalizer) (ss : List String)
      → IsBlank n.pending_whitespace
      → squeezed (pushed n ss) ≡ squeezed (joined ss)
  unfolding pushed
  squeezed-pushed n [] p = refl
  squeezed-pushed n (s ∷ ss) p =
      let next = (push is_letter is_digit is_upper is_lower lower n s).1 in
      let step = push-Pushed n s p in
      squeezed-append _ _
      ∙ (rw (step.sent, squeezed-pushed next ss step.pending) (sym (squeezed-append s (joined ss))))

  -- Whatever the pieces in which a text is streamed, what the normalizer sends is the text, up to
  -- white space: no other rune is lost, added or moved.
  pub pushed-keeps_text :
      (ss : List String) → squeezed (pushed new_normalizer ss) ≡ squeezed (joined ss)
  pushed-keeps_text ss = squeezed-pushed new_normalizer ss nothing
