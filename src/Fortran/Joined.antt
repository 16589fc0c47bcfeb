-- ===== src/Fortran/Joined.antt =====
-- The lines of a continued directive in free form, joined.
use xevxml.Prelude.{
  ℕ, ◌≡◌, refl, ap, ◌∙◌, inl, inr, Bool, true, false, Option, none, some, List, [], ◌∷◌, ◌++◌,
  arith, ◌==◌, ==_iff, Bool-cases, Option-cases, Bytes, codes, All,
}
use xevxml.Entity.{starts_with, find_at, find}
use xevxml.Xml.{Stream}
use xevxml.Fortran.Search.{
  RelativePosition, Comment, same_position, Found, is_transformation, to_lower, directive_pos,
  sixth, is_continued, ◌>>=◌, substr_6, find_lines, before, after, elsewhere,
}
use xevxml.Fortran.Pragma.{write_pragma, write_lines}
use xevxml.Fortran.Pieces.{
  Piece, IsLineEnd, IsPlainChar, tail_of, piece_line, piece_lines, joined, marks_of, AreFresh,
  ArePlain, clean, continue_line-end, continue_line-more,
}

pub directive_pos-prefix : (s : Bytes) → directive_pos false (codes "!$xev" ++ s) ≡ some 0
unfolding directive_pos to_lower find find_at starts_with
directive_pos-prefix s = refl

joined-cons :
    (ps : List Piece) (f : Piece) (e : ℕ) → (d : ℕ) × (ds : Bytes) × joined ps f e ≡ d ∷ ds
joined-cons [] f e = (f.head, f.body ++ e ∷ [], refl)
joined-cons (p ∷ ps) f e = (p.head, p.body ++ joined ps f e, refl)

module _ (inner : Found) (f : Piece) (e : ℕ) (rest : List Comment) where
  -- The search behind a continued line joins the pieces and marks them.
  find_lines-joined :
      (ps : List Piece) (ms : List ℕ)
      → IsLineEnd e
      → (e == b'&') ≡ false
      → ArePlain ps f
      → AreFresh ps f ms
      → find_lines false inner (piece_lines ps f e rest) true (clean ms)
        ≡ some (joined ps f e, clean (marks_of ps f ms))
  unfolding find_lines is_continued sixth substr_6
  find_lines-joined [] ms k n h u =
      rw (find_lines, u, directive_pos-prefix (b'&' ∷ tail_of f e))
        (continue_line-end (find_lines false inner rest true) inner true f.head f.body h.1 e
          (f.address ∷ ms) k n)
  find_lines-joined (p ∷ ps) ms k n h u =
      let j = joined-cons ps f e in
      let i = find_lines-joined ps (p.address ∷ ms) k n (h.0.1, h.1) u.1 in
      rw (find_lines, u.0, directive_pos-prefix (b'&' ∷ tail_of p b'&'), j.2)
        (continue_line-more (find_lines false inner (piece_lines ps f e rest) true) inner true
          p.head p.body h.0.0 (p.address ∷ ms) (marks_of ps f (p.address ∷ ms)) j.0 j.1
          (i ∙ ap (λ t. some (t, clean (marks_of ps f (p.address ∷ ms)))) j.2))

abbrev pub first_line : ℕ → RelativePosition → Bytes → Comment
first_line a at b = record {
  address = a;
  position = at;
  string = codes "!$xev" ++ (b ++ b'&' ∷ []);
}

-- A marked comment stays marked when others are.
is_transformation-marks_of :
    (a : ℕ) (ps : List Piece) (f : Piece) (ms : List ℕ)
    → is_transformation a ms ≡ true
    → is_transformation a (marks_of ps f ms) ≡ true
unfolding is_transformation
is_transformation-marks_of a [] f ms h = let r = h in ground arith
is_transformation-marks_of a (p ∷ ps) f ms h =
    is_transformation-marks_of a ps f (p.address ∷ ms) (let r = h in ground arith)

is_transformation-cons : (a : ℕ) (ms : List ℕ) → is_transformation a (a ∷ ms) ≡ true
unfolding is_transformation
is_transformation-cons a ms = rw ((==_iff a a).1 refl) refl

pub same_position_refl : (at : RelativePosition) → same_position at at ≡ true
unfolding same_position
same_position_refl before = refl
same_position_refl after = refl
same_position_refl (elsewhere n) = (==_iff n n).1 refl

find_lines-marked :
    (inner : Found) (c : Comment) (cs : List Comment) (cont : Bool) (ms : List ℕ)
    → is_transformation c.address ms ≡ true
    → find_lines false inner (c ∷ cs) cont (clean ms) ≡ some ([], clean ms)
unfolding find_lines
find_lines-marked inner c cs cont ms h = rw (find_lines, h) refl

unchanged : (o : Option (Stream × List ℕ)) → (o >>= λ w. some ([] ++ w.0, w.1)) ≡ o
unchanged none = refl
unchanged (some w) = refl

find_lines-first :
    (inner : Found) (a : ℕ) (at : RelativePosition) (b : Bytes) (ps : List Piece) (f : Piece)
    (e : ℕ) (rest : List Comment) (ms : List ℕ)
    → All IsPlainChar b
    → ArePlain ps f
    → IsLineEnd e
    → (e == b'&') ≡ false
    → is_transformation a ms ≡ false
    → AreFresh ps f ms
    → find_lines false inner (first_line a at b ∷ piece_lines ps f e rest) false (clean ms)
      ≡ some (codes "!$xev" ++ (b ++ joined ps f e), clean (marks_of ps f ms))
unfolding find_lines
find_lines-first inner a at b ps f e rest ms hb h k n u v =
    let j = joined-cons ps f e in
    let i = find_lines-joined inner f e rest ps ms k n h v in
    rw (find_lines, u, directive_pos-prefix (b ++ b'&' ∷ []), j.2)
      (continue_line-more (find_lines false inner (piece_lines ps f e rest) true) inner false b'!'
        (codes "$xev" ++ b) (refl, (refl, (refl, (refl, hb)))) ms (marks_of ps f ms) j.0 j.1
        (i ∙ ap (λ t. some (t, clean (marks_of ps f ms))) j.2))

module _ (unparse : Bool) (d : ℕ) (at : RelativePosition) (inner : Found) where
  write_lines-marked :
      (c : Comment) (cs : List Comment) (ms : List ℕ)
      → is_transformation c.address ms ≡ true
      → write_lines false unparse d at inner (c ∷ cs) ms
        ≡ write_lines false unparse d at inner cs ms
  unfolding write_lines
  write_lines-marked c cs ms h = elim (Bool-cases (same_position c.position at)) [
    | inl q ↦ elim (Option-cases (directive_pos false c.string)) [
      | inl n ↦ rw (write_lines, q, n) refl
      | inr k ↦
          rw (write_lines, q, k.1, find_lines-marked inner c cs false ms h)
            (unchanged (write_lines false unparse d at inner cs ms))
    ]
    | inr q ↦ rw (write_lines, q) refl
  ]

  write_lines-pieces :
      (f : Piece) (e : ℕ) (rest : List Comment) (ps : List Piece) (ms ns : List ℕ)
      → ns ≡ marks_of ps f ms
      → write_lines false unparse d at inner (piece_lines ps f e rest) ns
        ≡ write_lines false unparse d at inner rest ns
  write_lines-pieces f e rest [] ms ns q =
      write_lines-marked (piece_line f e) rest ns (rw q (is_transformation-cons f.address ms))
  write_lines-pieces f e rest (p ∷ ps) ms ns q =
      write_lines-marked (piece_line p b'&') (piece_lines ps f e rest) ns (
        rw q (
          is_transformation-marks_of p.address ps f (p.address ∷ ms)
            (is_transformation-cons p.address ms)))
      ∙ write_lines-pieces f e rest ps (p.address ∷ ms) ns q

  -- In free form, a directive that is continued on lines of the same node is written as one element
  -- that holds the joined text, and its continuation lines are not written again: what is written behind
  -- the element is what is written for the comments behind the last line. The lines have no comment of
  -- their own, a continuation line has two characters at least, and no line is marked before.
  pub write_lines-joined :
      (a : ℕ) (b : Bytes) (ps : List Piece) (f : Piece) (e : ℕ) (rest : List Comment) (ms : List ℕ)
      → All IsPlainChar b
      → ArePlain ps f
      → IsLineEnd e
      → (e == b'&') ≡ false
      → is_transformation a ms ≡ false
      → AreFresh ps f ms
      → write_lines false unparse d at inner (first_line a at b ∷ piece_lines ps f e rest) ms ≡ (
          write_lines false unparse d at inner rest (marks_of ps f ms) >>= λ w. some (
            write_pragma unparse d
                  (codes "!$xev" ++ (b ++ joined ps f e))
                  (clean (marks_of ps f ms))
                ++ w.0,
            w.1,
          ))
  unfolding write_lines
  write_lines-joined a b ps f e rest ms hb h k n u v =
      rw
        (
          write_lines,
          same_position_refl at,
          directive_pos-prefix (b ++ b'&' ∷ []),
          find_lines-first inner a at b ps f e rest ms hb h k n u v,
        )
        (ap
          (λ o. o >>= λ w. some (
            write_pragma unparse d (codes "!$xev" ++ (b ++ joined ps f e))
                  (clean (marks_of ps f ms))
                ++ w.0,
            w.1,
          ))
          (write_lines-pieces f e rest ps ms (marks_of ps f ms) refl))
