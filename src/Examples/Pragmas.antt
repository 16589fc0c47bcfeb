-- ===== src/Examples/Pragmas.antt =====
-- A directive on three lines, and one with a continuation line of one character.
use xevxml.Prelude.{◌≡◌, refl, true, false, none, some, [], ◌∷◌, ◌++◌, arith, codes}
use xevxml.Entity.{starts_with, find_at, find}
use xevxml.Stream.{is_space}
use xevxml.Fortran.Search.{
  LocatedNode, same_position, is_transformation, visible_from, last_visible_char_pos, to_lower,
  directive_pos, sixth, is_continued, char_at, ◌>>=◌, substr_6, set_comment, continue_line,
  find_lines, find_node, find_inner, before, located, no_successors, successor,
}
use xevxml.Fortran.Pragma.{write_comment, write_pragma, write_lines, write_fortran_pragma}
use xevxml.Fortran.Pieces.{Piece, piece_lines}
use xevxml.Fortran.Joined.{first_line, write_lines-joined}
use xevxml.Fortran.Faults.{blank_line, write_lines-blank}

abbrev node : LocatedNode
node = located true [] no_successors

abbrev middle : Piece
middle = record { address = 2; position = before; head = b' '; body = codes "unroll" }

abbrev end : Piece
end = record { address = 3; position = before; head = b'('; body = codes "4" }

write_lines-joined_example :
    write_lines false true 1 before
      (find_inner false before node)
      (first_line 1 before (codes " loop") ∷ piece_lines (middle ∷ []) end b')' [])
      []
    ≡ (write_lines false true 1 before (find_inner false before node) [] (3 ∷ 2 ∷ []) >>= λ w.
        some (
          write_pragma true 1
                (codes "!$xev loop unroll(4)")
                (record { cmt_before = []; cmt_after = []; transformed = 3 ∷ 2 ∷ [] })
              ++ w.0,
          w.1,
        ))
unfolding is_transformation is_space
write_lines-joined_example =
    write_lines-joined true 1 before (find_inner false before node) 1 (codes " loop") (middle ∷ [])
      end b')' [] [] (ground arith) (ground arith) (record { plain = refl; seen = refl }) refl refl
      (refl, refl)

write_lines-blank_example :
    write_lines false true 1 before
      (find_inner false before node)
      (first_line 1 before (codes " unroll(4") ∷ blank_line 2 before b')' [] ∷ [])
      []
    ≡ none
unfolding is_transformation
write_lines-blank_example =
    write_lines-blank (find_inner false before node) 2 before before b')' [] [] true 1 1
      (codes " unroll(4") [] (ground arith) tt refl refl

-- A directive in mixed case with a trailing comment, whose second line is a comment of the first
-- successor.
abbrev nested : LocatedNode
nested =
    located true
      (record { address = 1; position = before; string = codes "!$XEV loop & ! first" } ∷ [])
      (successor
        (located true
          (record { address = 2; position = before; string = codes "!$xev&tag(a)" } ∷ [])
          no_successors)
        no_successors)

nested_run :
    write_fortran_pragma false false 1 before nested []
    ≡ some (
      write_pragma false 1
          (codes "!$XEV loop tag(a)")
          (record { cmt_before = codes "! first" ++ 10 ∷ []; cmt_after = []; transformed = [] }),
      2 ∷ [],
    )
unfolding write_fortran_pragma write_lines find_inner find_node find_lines continue_line set_comment
    last_visible_char_pos visible_from is_transformation directive_pos to_lower starts_with find
    find_at is_continued sixth substr_6 char_at is_space same_position write_pragma write_comment
nested_run = refl
