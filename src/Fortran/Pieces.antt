-- ===== src/Fortran/Pieces.antt =====
-- Continuation lines of a directive in free form, and what is read of one of its lines.
use xevxml.Prelude.{
  ℕ, suc, ◌+◌, ◌≡◌, refl, ap, inl, inr, Bool, false, Option, none, some, List, [], ◌∷◌, ◌++◌, arith,
  ◌==◌, if◌then◌else◌, Bool-cases, Bytes, codes, length, take-length, drop-length, All,
}
use xevxml.Stream.{is_space}
use xevxml.Fortran.Search.{
  RelativePosition, Comment, Search, Found, is_transformation, visible_from, last_visible_char_pos,
  char_at, set_comment, continue_line,
}

-- A continuation line but its last character: the characters behind the prefix, of which there is one
-- at least.
pub record Piece : Type 0 where
  pub address : ℕ
  pub position : RelativePosition
  pub head : ℕ
  pub body : Bytes

abbrev pub IsPlainChar : ℕ → Type 0
IsPlainChar c = (c == b'!') ≡ false

-- The last character of a line.
pub record IsLineEnd (c : ℕ) : Type 0 where
  pub plain : (c == b'!') ≡ false
  pub seen : is_space c ≡ false

abbrev pub tail_of : Piece → ℕ → Bytes
tail_of p e = p.head ∷ (p.body ++ e ∷ [])

abbrev pub piece_line : Piece → ℕ → Comment
piece_line p e = record {
  address = p.address;
  position = p.position;
  string = codes "!$xev&" ++ tail_of p e;
}

-- Continuation lines that end with `&`, the last line, which ends with `e`, and what follows.
abbrev pub piece_lines : List Piece → Piece → ℕ → List Comment → List Comment
piece_lines [] f e rest = piece_line f e ∷ rest
piece_lines (p ∷ ps) f e rest = piece_line p b'&' ∷ piece_lines ps f e rest

abbrev pub joined : List Piece → Piece → ℕ → Bytes
joined [] f e = tail_of f e
joined (p ∷ ps) f e = (p.head ∷ p.body) ++ joined ps f e

abbrev pub marks_of : List Piece → Piece → List ℕ → List ℕ
marks_of [] f ms = f.address ∷ ms
marks_of (p ∷ ps) f ms = marks_of ps f (p.address ∷ ms)

-- The comments are different ones, and none is marked.
abbrev pub AreFresh : List Piece → Piece → List ℕ → Type 0
AreFresh [] f ms = is_transformation f.address ms ≡ false
AreFresh (p ∷ ps) f ms = (is_transformation p.address ms ≡ false) × AreFresh ps f (p.address ∷ ms)

abbrev pub ArePlain : List Piece → Piece → Type 0
ArePlain ps f = All (λ p. All IsPlainChar p.body) ps × All IsPlainChar f.body

abbrev pub clean : List ℕ → Search
clean ms = record { cmt_before = []; cmt_after = []; transformed = ms }

pub ampersand-IsLineEnd : IsLineEnd b'&'
unfolding is_space
ampersand-IsLineEnd = record { plain = refl; seen = refl }

visible_from-plain :
    (b : Bytes) (e i : ℕ) (at : Option ℕ)
    → All IsPlainChar b
    → IsLineEnd e
    → visible_from (b ++ e ∷ []) i at
      ≡ record { str = b ++ e ∷ []; cmt = []; last = some (i + length b) }
unfolding visible_from
visible_from-plain [] e i at h k =
    rw (k.plain, k.seen) (ap (λ n. record { str = e ∷ []; cmt = []; last = some n }) (omega arith))
visible_from-plain (c ∷ b) e i at h k =
    rw (h.0, visible_from-plain b e (i + 1) (if is_space c then at else some i) h.1 k)
      (ap (λ n. record { str = c ∷ (b ++ e ∷ []); cmt = []; last = some n }) (omega arith))

pub last_visible-plain :
    (c : ℕ) (b : Bytes) (e : ℕ)
    → All IsPlainChar b
    → IsLineEnd e
    → last_visible_char_pos (c ∷ (b ++ e ∷ []))
      ≡ record { str = c ∷ (b ++ e ∷ []); cmt = []; last = some (suc (length b)) }
unfolding last_visible_char_pos
last_visible-plain c b e h k =
    rw (visible_from-plain b e 1 none h k)
      (ap (λ n. record { str = c ∷ (b ++ e ∷ []); cmt = []; last = some n }) (omega arith))

pub char_at-last : (b : Bytes) (e : ℕ) → char_at (b ++ e ∷ []) (length b) ≡ some e
unfolding char_at
char_at-last b e = rw (char_at, drop-length b (e ∷ [])) refl

module _ (next inner : Found) (cont : Bool) (c : ℕ) (b : Bytes) (h : All IsPlainChar b) where
  -- A line that ends with something else than `&` is the last one.
  pub continue_line-end :
      (e : ℕ) (ms : List ℕ)
      → IsLineEnd e
      → (e == b'&') ≡ false
      → continue_line false next inner cont (c ∷ (b ++ e ∷ [])) (clean ms)
        ≡ some (c ∷ (b ++ e ∷ []), clean ms)
  unfolding continue_line set_comment
  continue_line-end e ms k n = elim (Bool-cases cont) [
    | inl q ↦ rw (q, last_visible-plain c b e h k, char_at-last (c ∷ b) e, n) refl
    | inr q ↦ rw (q, last_visible-plain c b e h k, char_at-last (c ∷ b) e, n) refl
  ]

  -- A line that ends with `&` is put before what the search behind it finds.
  pub continue_line-more :
      (ms ns : List ℕ) (d : ℕ) (ds : Bytes)
      → next (clean ms) ≡ some (d ∷ ds, clean ns)
      → continue_line false next inner cont (c ∷ (b ++ b'&' ∷ [])) (clean ms)
        ≡ some ((c ∷ b) ++ d ∷ ds, clean ns)
  unfolding continue_line set_comment
  continue_line-more ms ns d ds e = elim (Bool-cases cont) [
    | inl q ↦
        rw
          (
            q,
            last_visible-plain c b b'&' h ampersand-IsLineEnd,
            char_at-last (c ∷ b) b'&',
            e,
            last_visible-plain c b b'&' h ampersand-IsLineEnd,
            take-length b (b'&' ∷ []),
          )
          refl
    | inr q ↦
        rw
          (
            q,
            last_visible-plain c b b'&' h ampersand-IsLineEnd,
            char_at-last (c ∷ b) b'&',
            e,
            last_visible-plain c b b'&' h ampersand-IsLineEnd,
            take-length b (b'&' ∷ []),
          )
          refl
  ]
