-- ===== src/Fortran/Faults.antt =====
-- Continuation lines of a directive with nothing to see behind their first character.
use xevxml.Prelude.{
  ℕ, ◌+◌, ◌≡◌, refl, Bool, true, false, none, List, [], ◌∷◌, ◌++◌, arith, ◌==◌, Bytes, codes, All,
}
use xevxml.Stream.{is_space}
use xevxml.Fortran.Search.{
  RelativePosition, Comment, Search, Found, is_transformation, visible_from, last_visible_char_pos,
  sixth, is_continued, substr_6, set_comment, continue_line, find_lines,
}
use xevxml.Fortran.Pragma.{write_lines}
use xevxml.Fortran.Pieces.{
  IsPlainChar, clean, ampersand-IsLineEnd, last_visible-plain, char_at-last,
}
use xevxml.Fortran.Joined.{directive_pos-prefix, first_line, same_position_refl}

is_space-IsPlainChar : (x : ℕ) → is_space x ≡ true → IsPlainChar x
unfolding is_space
is_space-IsPlainChar x h = let r = h in ground arith

visible_from-blank :
    (t : Bytes) (i : ℕ)
    → All (λ x. is_space x ≡ true) t
    → visible_from t i none ≡ record { str = t; cmt = []; last = none }
unfolding visible_from
visible_from-blank [] i h = refl
visible_from-blank (x ∷ t) i h =
    let n : (x == b'!') ≡ false = is_space-IsPlainChar x h.0 in
    rw (h.0, n, visible_from-blank t (i + 1) h.1) refl

continue_line-blank :
    (next inner : Found) (c : ℕ) (t : Bytes) (s : Search)
    → All (λ x. is_space x ≡ true) t
    → continue_line false next inner true (c ∷ t) s ≡ none
unfolding continue_line last_visible_char_pos
continue_line-blank next inner c t s h = rw (visible_from-blank t 1 h) refl

continue_line-none :
    (next inner : Found) (c : ℕ) (b : Bytes) (ms : List ℕ)
    → All IsPlainChar b
    → next (clean ms) ≡ none
    → continue_line false next inner false (c ∷ (b ++ b'&' ∷ [])) (clean ms) ≡ none
unfolding continue_line set_comment
continue_line-none next inner c b ms h e =
    rw (last_visible-plain c b b'&' h ampersand-IsLineEnd, char_at-last (c ∷ b) b'&', e) refl

abbrev pub blank_line : ℕ → RelativePosition → ℕ → Bytes → Comment
blank_line a at c t = record { address = a; position = at; string = codes "!$xev&" ++ c ∷ t }

module _ (inner : Found) (a' : ℕ) (at at' : RelativePosition) (c : ℕ) (t : Bytes)
    (rest : List Comment) where
  find_lines-blank :
      (ms : List ℕ)
      → All (λ x. is_space x ≡ true) t
      → is_transformation a' ms ≡ false
      → find_lines false inner (blank_line a' at' c t ∷ rest) true (clean ms) ≡ none
  unfolding find_lines is_continued sixth substr_6
  find_lines-blank ms h u =
      rw (find_lines, u, directive_pos-prefix (b'&' ∷ c ∷ t))
        (continue_line-blank (find_lines false inner rest true) inner c t (clean (a' ∷ ms)) h)

  find_lines-fault :
      (a : ℕ) (b : Bytes) (ms : List ℕ)
      → All IsPlainChar b
      → All (λ x. is_space x ≡ true) t
      → is_transformation a ms ≡ false
      → is_transformation a' ms ≡ false
      → find_lines false inner (first_line a at b ∷ blank_line a' at' c t ∷ rest) false (clean ms)
        ≡ none
  unfolding find_lines
  find_lines-fault a b ms hb h u v =
      rw (find_lines, u, directive_pos-prefix (b ++ b'&' ∷ []))
        (continue_line-none (find_lines false inner (blank_line a' at' c t ∷ rest) true) inner b'!'
          (codes "$xev" ++ b) ms (refl, (refl, (refl, (refl, hb)))) (find_lines-blank ms h v))

  -- In free form, the search for a directive that is continued by a line with one character, or
  -- with white space behind one character, has no result: the code reads a character at a position
  -- outside the string. The two lines are not marked before, and the first one has no comment of
  -- its own.
  pub write_lines-blank :
      (unparse : Bool) (d a : ℕ) (b : Bytes) (ms : List ℕ)
      → All IsPlainChar b
      → All (λ x. is_space x ≡ true) t
      → is_transformation a ms ≡ false
      → is_transformation a' ms ≡ false
      → write_lines false unparse d at inner (first_line a at b ∷ blank_line a' at' c t ∷ rest) ms
        ≡ none
  unfolding write_lines
  write_lines-blank unparse d a b ms hb h u v =
      rw
        (
          write_lines,
          same_position_refl at,
          directive_pos-prefix (b ++ b'&' ∷ []),
          find_lines-fault a b ms hb h u v,
        )
        refl
