-- ===== src/Agent/TextStream.antt =====
-- agent.go: assistantTextStreamNormalizer, which mends the white space between the pieces of text
-- that a model streams. A rune is its code point, 0 where the code has none. The classes of runes are
-- parameters (unicode.IsLetter, IsDigit, IsUpper and IsLower), as is strings.ToLower.
use Prim.Native.Char.{code}
use Prim.Native.String.{◌++◌ as text_append}
use memax_go_agent_sdk.Prelude.{
  ℕ, suc, String, Bool, true, false, not, ◌&&◌, ◌||◌, Option, none, some, [], ◌∷◌, contains, ltb,
  leb, eqb, ◌==◌, if◌then◌else◌,
}
use memax_go_agent_sdk.Prelude.Text.{is_space, trim_left, trim_right, trim_space}

pub record Normalizer : Type 0 where
  pub pending_whitespace : String
  pub last_token_first : ℕ
  pub last_token_length : ℕ
  pub last_line_trimmed : String
  pub last_rune : ℕ
  pub emitted : Bool

abbrev pub new_normalizer : Normalizer
new_normalizer = record {
  pending_whitespace = "";
  last_token_first = 0;
  last_token_length = 0;
  last_line_trimmed = "";
  last_rune = 0;
  emitted = false;
}

-- Whether a text has a rune that passes a test.
abbrev has_rune : (ℕ → Bool) → String → Bool
has_rune p String.[] = false
has_rune p (String.◌∷◌ c s) = p (code c) || has_rune p s

-- strings.ContainsRune
abbrev contains_rune : String → ℕ → Bool
contains_rune s r = has_rune (λ c. eqb c r) s

-- strings.HasPrefix
abbrev has_prefix : String → String → Bool
has_prefix s String.[] = true
has_prefix String.[] (String.◌∷◌ d p) = false
has_prefix (String.◌∷◌ c s) (String.◌∷◌ d p) = eqb (code c) (code d) && has_prefix s p

-- strings.Count(text, "\n")
abbrev newline_count : String → ℕ
newline_count String.[] = 0
newline_count (String.◌∷◌ c s) =
    let rest = newline_count s in if eqb (code c) 10 then suc rest else rest

-- The three parts of splitAssistantStreamText; the core is what both trims leave.
unfoldable pub leading_space : String → String
unfolding is_space
leading_space String.[] = String.[]
leading_space (String.◌∷◌ c s) =
    let rest = leading_space s in if is_space (code c) then String.◌∷◌ c rest else String.[]

unfoldable pub trailing_space : String → String
unfolding is_space trim_right
trailing_space String.[] = String.[]
trailing_space (String.◌∷◌ c s) =
    let rest = trailing_space s in
    if trim_right (String.◌∷◌ c s) == "" then String.◌∷◌ c s else rest

unfoldable pub split_assistant_stream_text : String → String × String × String
unfolding leading_space trailing_space trim_left trim_right
split_assistant_stream_text s =
    (leading_space s, trim_right (trim_left s), trailing_space (trim_left s))

unfoldable pub first_non_space_rune : String → ℕ
unfolding is_space
first_non_space_rune String.[] = 0
first_non_space_rune (String.◌∷◌ c s) =
    let rest = first_non_space_rune s in if is_space (code c) then rest else code c

unfoldable last_from : ℕ → String → ℕ
unfolding is_space
last_from last String.[] = last
last_from last (String.◌∷◌ c s) = last_from (if is_space (code c) then last else code c) s

unfoldable pub last_non_space_rune : String → ℕ
unfolding last_from
last_non_space_rune s = last_from 0 s

-- The loop of leadingTokenRuneLength, with its count and flag.
unfoldable token_length_from : ℕ → Bool → String → ℕ
unfolding is_space
token_length_from count started String.[] = count
token_length_from count started (String.◌∷◌ c s) =
    let later = token_length_from count false s in
    let more = token_length_from (suc count) true s in
    if is_space (code c) then (if started then count else later) else more

unfoldable pub leading_token_rune_length : String → ℕ
unfolding token_length_from
leading_token_rune_length s = token_length_from 0 false s

-- The loop of trailingToken, with the first rune and the length of its token.
unfoldable trailing_from : ℕ → ℕ → String → ℕ × ℕ
unfolding is_space
trailing_from first len String.[] = (first, len)
trailing_from first len (String.◌∷◌ c s) =
    let fresh = trailing_from 0 0 s in
    let longer = trailing_from (if eqb len 0 then code c else first) (suc len) s in
    if is_space (code c) then fresh else longer

unfoldable pub trailing_token : String → ℕ × ℕ
unfolding trailing_from
trailing_token s = trailing_from 0 0 s

unfoldable pub has_horizontal_whitespace : String → Bool
unfolding is_space
has_horizontal_whitespace s = has_rune (λ c. not (eqb c 10) && (not (eqb c 13) && is_space c)) s

unfoldable pub starts_punctuation : ℕ → Bool
starts_punctuation r = contains_rune ".,;:!?)]}" r

unfoldable pub ends_sentence : ℕ → Bool
ends_sentence r = eqb r 46 || (eqb r 33 || eqb r 63)

-- What follows the last newline.
abbrev after_last_newline : String → Option String
after_last_newline String.[] = none
after_last_newline (String.◌∷◌ c s) = elim (after_last_newline s) [
  | some t ↦ some t
  | none ↦ if eqb (code c) 10 then some s else none
]

unfoldable line_of : String → Option String → String
unfolding trim_space
line_of s none = trim_space s
line_of s (some t) = trim_space t

unfoldable pub last_trimmed_line : String → String
unfolding trim_right line_of
last_trimmed_line s =
    let trimmed = trim_right s in
    if trimmed == "" then "" else line_of trimmed (after_last_newline trimmed)

-- The token that leadingToken reads after the white space.
unfoldable token_of : String → String
unfolding is_space
token_of String.[] = String.[]
token_of (String.◌∷◌ c s) =
    let rest = token_of s in if is_space (code c) then String.[] else String.◌∷◌ c rest

unfoldable pub leading_token : String → String
unfolding trim_left token_of
leading_token s = token_of (trim_left s)

-- The prefix that was found, or another.
abbrev pub or_else : Option String → String → String
or_else none other = other
or_else (some p) other = p

module _ (is_letter is_digit is_upper is_lower : ℕ → Bool) (lower : String → String) where
  -- The loop of assistantStreamStartsOrderedList; the flag is digits > 0.
  abbrev ordered_from : Bool → String → Bool
  ordered_from digits String.[] = false
  ordered_from digits (String.◌∷◌ c s) =
      let rest = ordered_from true s in
      if is_digit (code c) then rest else (digits && eqb (code c) 46)

  unfoldable pub starts_ordered_list : String → Bool
  starts_ordered_list s = ordered_from false s

  unfoldable pub line_starts_list : String → Bool
  unfolding trim_space starts_ordered_list
  line_starts_list s =
      let t = trim_space s in
      has_prefix t "- " || (has_prefix t "* " || (has_prefix t "+ " || starts_ordered_list t))

  unfoldable pub line_preserves_following_break : String → Bool
  unfolding trim_space line_starts_list
  line_preserves_following_break s =
      let t = trim_space s in
      line_starts_list t
      || (has_prefix t "#" || (has_prefix t ">" || (has_prefix t "|" || has_prefix t "```")))

  -- assistantStreamPreservedBreakPrefix
  unfoldable pub preserved_break_prefix : String → Option String
  unfolding trim_space starts_ordered_list
  preserved_break_prefix next =
      let t = trim_space next in
      if t == ""
      then none
      else if has_prefix t "```" || (has_prefix t "#" || (has_prefix t ">" || has_prefix t "|"))
      then some "\n\n"
      else if has_prefix t "- " || (has_prefix t "* " || has_prefix t "+ ")
      then some "\n\n"
      else if t == "-" || (t == "*" || t == "+")
      then some "\n"
      else if starts_ordered_list t
      then (if has_rune (λ c. eqb c 32 || eqb c 9) t then some "\n\n" else some "\n")
      else none

  -- assistantStreamShouldJoin
  unfoldable pub should_join : ℕ → ℕ → ℕ → String → Bool
  unfolding first_non_space_rune leading_token_rune_length
  should_join prev first len next_text =
      let next = first_non_space_rune next_text in
      let next_length = leading_token_rune_length next_text in
      if eqb prev 0 || eqb next 0
      then false
      else if contains_rune "./_-#`*" prev && (is_letter next || is_digit next)
      then (if eqb prev 46 && is_upper next
          then false
          else if eqb prev 46 && (is_upper first && ltb 3 len)
          then false
          else true)
      else if (is_letter prev || is_digit prev) && (is_letter next || is_digit next)
      then ltb 0 len && (ltb 0 next_length && (leb len 3 || leb next_length 3))
      else false

  unfoldable pub paragraph_starter : String → Bool
  unfolding leading_token
  paragraph_starter s =
      contains ("but" ∷ "so" ∷ "yet" ∷ "then" ∷ "thus" ∷ "therefore" ∷ "however" ∷ [])
        (lower (leading_token s))

  unfoldable pub word_join_word : String → Bool
  unfolding leading_token
  word_join_word s =
      contains
        ("a" ∷ "all" ∷ "an" ∷ "and" ∷ "any" ∷ "are" ∷ "as" ∷ "at" ∷ "by" ∷ "can" ∷ "did" ∷ "for"
          ∷ "had" ∷ "has" ∷ "he" ∷ "her" ∷ "his" ∷ "if" ∷ "in" ∷ "is" ∷ "it" ∷ "me" ∷ "my" ∷ "no"
          ∷ "nor" ∷ "not" ∷ "of" ∷ "old" ∷ "on" ∷ "one" ∷ "or" ∷ "our" ∷ "run" ∷ "so" ∷ "the" ∷ "to"
          ∷ "up" ∷ "us" ∷ "was" ∷ "we" ∷ "yet" ∷ "you" ∷ [])
        (lower (leading_token s))

  -- assistantStreamBlankSeparatedFragmentPrefix, where `none` is its false.
  unfoldable pub blank_separated_fragment_prefix : ℕ → ℕ → ℕ → String → Option String
  unfolding first_non_space_rune leading_token_rune_length ends_sentence paragraph_starter
      word_join_word
  blank_separated_fragment_prefix prev first len next_text =
      let next = first_non_space_rune next_text in
      let next_length = leading_token_rune_length next_text in
      let wordy : ℕ → Bool = λ r. is_letter r || is_digit r in
      if eqb prev 0 || eqb next 0
      then none
      else if eqb next 47
      then (if ltb 0 next_length && leb next_length 3 then some "" else none)
      else if eqb first 47 && (ltb 0 len && is_lower next)
      then some ""
      else if contains_rune "/_-#`*" prev && wordy next
      then some ""
      else if ends_sentence prev && (is_upper next && leb next_length 3)
      then some " "
      else if not (wordy prev) || not (wordy next)
      then none
      else if paragraph_starter next_text
      then none
      else if word_join_word next_text
      then some " "
      else if (eqb first 97 || eqb first 65) && (eqb len 1 && is_lower next)
      then some " "
      else if eqb len 1 && (not (eqb prev 73) && is_lower next)
      then some ""
      else if ltb 0 len
          && (leb len 3
              && (ltb 0 next_length && (leb next_length 3 && (is_lower first && is_lower next))))
      then some ""
      else if is_lower next
      then some " "
      else none

  -- prefix where at least two newlines stand between, after the preserved breaks.
  unfoldable pub blank_prefix : Normalizer → String → ℕ → ℕ → String → String
  unfolding line_preserves_following_break has_horizontal_whitespace starts_punctuation should_join
      blank_separated_fragment_prefix
  blank_prefix n whitespace newlines first core =
      if line_preserves_following_break n.last_line_trimmed
      then "\n\n"
      else if has_horizontal_whitespace whitespace
      then " "
      else if not (eqb first 47) && starts_punctuation first
      then ""
      else if ltb 2 newlines && should_join n.last_rune n.last_token_first n.last_token_length core
      then ""
      else or_else
          (if eqb newlines 2
            then blank_separated_fragment_prefix n.last_rune n.last_token_first n.last_token_length
                core
            else none)
          (if ltb 2 newlines then " " else "\n\n")

  -- The method prefix.
  unfoldable pub prefix : Normalizer → String → String → String
  unfolding first_non_space_rune starts_punctuation preserved_break_prefix blank_prefix
  prefix n leading core =
      let whitespace = text_append n.pending_whitespace leading in
      let newlines = newline_count whitespace in
      let first = first_non_space_rune core in
      if whitespace == "" || not n.emitted
      then ""
      else if eqb first 0
      then ""
      else if eqb newlines 0
      then (if starts_punctuation first then "" else whitespace)
      else if eqb newlines 1
      then (if starts_punctuation first && not (eqb first 47) then "" else "\n")
      else or_else (preserved_break_prefix core) (blank_prefix n whitespace newlines first core)

  unfoldable pub remember : Normalizer → String → Normalizer
  unfolding last_non_space_rune trailing_token last_trimmed_line
  remember n text =
      let r = last_non_space_rune text in
      let (first, len) = trailing_token text in
      if eqb r 0 then n else (record n {
        last_rune = r;
        last_token_first = first;
        last_token_length = len;
        last_line_trimmed = last_trimmed_line text;
        emitted = true;
      })

  -- push gives the text to send and the new state.
  unfoldable pub push : Normalizer → String → String × Normalizer
  unfolding split_assistant_stream_text prefix remember
  push n text =
      let (leading, core, trailing) = split_assistant_stream_text text in
      if text == ""
      then ("", n)
      else if core == ""
      then ("", record n { pending_whitespace = text_append n.pending_whitespace text })
      else (
        text_append (prefix n leading core) core,
        remember (record n { pending_whitespace = trailing }) core,
      )
