-- ===== src/Executor/Cuts.antt =====
-- truncateUTF8 of tool/executor.go: the longest prefix of whole runes within the limit.
use Prim.Native.Char.{Char, len_utf8}
use Prim.Native.String.len as text_len
use Prim.Native.String.{len, slice, ◌++◌ as text_append}
use text.Mathlib.TextPositions.{len-append, slice-append_left}
use text.Mathlib.TextLemmas.{
  append_assoc as text_append_assoc, cons-append, nil-append, head-eq_of_cons-eq,
  append-nil as text_append-nil,
}
use memax_go_agent_sdk.Prelude.{
  ℕ, ◌+◌, ◌≤◌, ◌<◌, String, true, false, ltb, leb, ◌≡◌, refl, sym, subst, ap, ◌∙◌, arith,
  Bool-cases, inl, inr,
}
use memax_go_agent_sdk.Prelude.Int.{ℤ, positive_part, is_positive}
use memax_go_agent_sdk.Executor.{cut_loop, truncate_utf8}

-- The longest front of a text that fits: no rune behind it does.
pub record IsLongestFront (limit : ℕ) (whole front : String) : Type 0 where
  pub back : String
  pub joined : whole ≡ text_append front back
  pub fits : len front ≤ limit
  pub longest : (c : Char) (r : String) → back ≡ String.◌∷◌ c r → limit < len front + len_utf8 c

snoc :
    (f : String) (d : Char) (s : String)
    → text_append (text_append f (String.◌∷◌ d String.[])) s ≡ text_append f (String.◌∷◌ d s)
snoc f d s =
    text_append_assoc f (String.◌∷◌ d String.[]) s
    ∙ ap (text_append f) (cons-append d String.[] s ∙ ap (λ t. String.◌∷◌ d t) (nil-append s))

len-snoc :
    (f : String) (d : Char) → len (text_append f (String.◌∷◌ d String.[])) ≡ len f + len_utf8 d
len-snoc f d =
    len-append f (String.◌∷◌ d String.[])
    ∙ rw (text_len.cons d String.[], text_len.nil) (omega arith)

-- The loop, after a rune that starts within the limit.
cut_loop-cut :
    (limit : ℕ) (f : String) (d : Char) (s : String)
    → len f ≤ limit
    → limit < len (text_append f (String.◌∷◌ d s))
    → IsLongestFront limit
        (text_append f (String.◌∷◌ d s))
        (slice (text_append f (String.◌∷◌ d s)) 0 (cut_loop limit s (len f + len_utf8 d) (len f)))
unfolding cut_loop
cut_loop-cut limit f d String.[] le over =
    rw (slice-append_left f (String.◌∷◌ d String.[])) (record {
      back = String.◌∷◌ d String.[];
      joined = refl;
      fits = le;
      longest = λ c r e.
          subst (λ x. limit < len f + len_utf8 x) (head-eq_of_cons-eq e)
            (subst (λ n. limit < n) (len-snoc f d) over);
    })
cut_loop-cut limit f d (String.◌∷◌ c s) le over =
    elim (Bool-cases (ltb limit (len f + len_utf8 d))) [
      | inl t ↦ rw t (
          rw (slice-append_left f (String.◌∷◌ d (String.◌∷◌ c s))) (record {
            back = String.◌∷◌ d (String.◌∷◌ c s);
            joined = refl;
            fits = le;
            longest = λ x r e.
                subst (λ y. limit < len f + len_utf8 y) (head-eq_of_cons-eq e) (ground arith);
          }))
      | inr t ↦
          let next =
            cut_loop-cut limit (text_append f (String.◌∷◌ d String.[])) c s
              (rw (len-snoc f d) (ground arith)) (rw (snoc f d (String.◌∷◌ c s)) over) in
          rw t (rw (snoc f d (String.◌∷◌ c s), len-snoc f d) at next)
    ]

-- A text that is over a positive limit is cut to the longest front of whole runes within it; a text
-- within the limit stays as it is, and a limit that is not positive leaves nothing.
pub truncate_utf8-cut :
    (s : String) (limit : ℤ)
    → (is_positive limit ≡ true → IsLongestFront (positive_part limit) s (truncate_utf8 s limit))
      × (is_positive limit ≡ false → truncate_utf8 s limit ≡ "")
unfolding truncate_utf8 cut_loop
truncate_utf8-cut s limit = (
  λ h. elim (Bool-cases (leb (len s) (positive_part limit))) [
    | inl t ↦
        rw (h, t)
          (record {
            back = String.[];
            joined = sym (text_append-nil s);
            fits = ground arith;
            longest = λ c r e. cc e;
          })
    | inr t ↦ rw (h, t) (over (positive_part limit) s t)
  ],
  λ h. rw h refl,
)
  where
    over :
        (n : ℕ) (w : String)
        → leb (len w) n ≡ false
        → IsLongestFront n w (slice w 0 (cut_loop n w 0 0))
    over n String.[] t = record {
      back = String.[];
      joined = refl;
      fits = omega arith;
      longest = λ c r e. cc e;
    }
    over n (String.◌∷◌ c r) t =
        let whole = nil-append (String.◌∷◌ c r) in
        let more : n < len (String.◌∷◌ c r) = ground arith in
        let found = cut_loop-cut n String.[] c r (omega arith) (rw whole more) in
        let start : ltb n 0 ≡ false = ground arith in rw start (rw whole at found)
