-- ===== src/Examples/Blocks.antt =====
-- Test data: statements, and what the theorems ask of them.
use xevxml.Prelude.{refl, inl, inr, true, none, some, [], ◌∷◌, arith, Bool-cases, codes}
use xevxml.Stream.{pos}
use xevxml.Ast.Node.{SgNode, transformation_info, null, node}
use xevxml.Platform.{Scopes}
use xevxml.Write.Visit.{remove_include_directives}
use xevxml.RoundTrip.Readable.{Readable}
use xevxml.Statement.Io.Kinds.{IoAttrib, same_attrib, io_unit, write_statement}
use xevxml.Statement.Io.Write.{IoStatement, entries, has_list}
use xevxml.Statement.Io.Fields.{Fields, put, is_target, or-false}
use xevxml.Statement.Io.Accepted.{diagonal_of, kept}
use xevxml.Statement.Io.Readable.{ReadableIo, IsArgument}
use xevxml.Statement.Node.{
  StmtInfo, Item, slots_of, present, basic_block, expr_statement, break_stmt, if_stmt, exp, stmt,
  io, no_slots, absent, slot,
}
use xevxml.Statement.Visitors.{way}
use xevxml.Statement.Read.{Host, pad, adjust}
use xevxml.Statement.Readable.{IsStmtInfo, Matches, ReadableItem}
use xevxml.Write.Attributes.{same_int}
use xevxml.Examples.Program.{platform, comment, two}
use xevxml.Examples.Facts.{comment-IsComment, two-IsLiteral, fresh-IsLocated}

abbrev pub host : Host
host = record {
  platform = platform;
  has_file = true;
  new_scope = 9;
  before = pos 2;
  after = pos 3;
  inside = pos 4;
  linemarker = pos 5;
}

pub two-Readable : (st : Scopes) → Readable platform st two
unfolding Readable
two-Readable st = (fresh-IsLocated _, (two-IsLiteral, (tt, (tt, tt))))

-- Fields with one argument.
abbrev pub single : IoAttrib → SgNode → Fields
single a x = put a (node x) (λ b. null)

pub single-IsArgument : (st : Scopes) (a b : IoAttrib) → IsArgument platform st (single a two b)
single-IsArgument st a b = elim (Bool-cases (same_attrib a b)) [
  | inl q ↦ rw (q) (refl, two-Readable st)
  | inr q ↦ rw (q) tt
]

-- `write(unit=2)` with the label 10
abbrev pub write_two : IoStatement
write_two = record {
  io_class = write_statement;
  label = some (pos 10);
  info = transformation_info;
  preprocessing = comment ∷ [];
  parts = record { io_list = null; field = single io_unit two };
}

pub write_two-ReadableIo : (st : Scopes) → ReadableIo platform st write_two
unfolding remove_include_directives same_int has_list kept diagonal_of entries is_target
write_two-ReadableIo st = record {
  label = omega arith;
  info = refl;
  comments = (comment-IsComment, tt);
  no_include = refl;
  list = tt;
  operands = single-IsArgument st io_unit;
  absent = λ b h. let k = or-false (same_attrib io_unit b) _ h in rw (k.0) refl;
  lossless = tt;
}

abbrev pub bare_info : StmtInfo
bare_info = record { label = none; info = transformation_info; preprocessing = [] }

pub bare_info-IsStmtInfo : IsStmtInfo platform bare_info
unfolding remove_include_directives
bare_info-IsStmtInfo = record { label = tt; info = refl; comments = tt; no_include = refl }

-- `2;` and `break loop`
abbrev pub two_statement : Item
two_statement = stmt bare_info expr_statement (slot (exp two) no_slots)

abbrev pub break_loop : Item
break_loop = stmt bare_info (break_stmt (codes "loop")) no_slots

-- `if (2) { 2; write(unit=2); break loop }` without `else`
abbrev pub block : Item
block =
    stmt bare_info basic_block (slot two_statement (slot (io write_two) (slot break_loop no_slots)))

abbrev pub if_two : Item
if_two =
    stmt bare_info (if_stmt true true none (record { numeric = none; string = [] }))
      (slot two_statement (slot block (absent no_slots)))

pub two_statement-ReadableItem : (st : Scopes) → ReadableItem host st two_statement
unfolding ReadableItem way Matches present pad slots_of adjust
two_statement-ReadableItem st = (
  bare_info-IsStmtInfo,
  (
    tt,
    (
      record { matches = (refl, tt); enough = refl; in_place = refl; adjusted = refl },
      (two-Readable st, tt),
    ),
  ),
)

pub block-ReadableItem : (st : Scopes) → ReadableItem host st block
unfolding ReadableItem way present slots_of
block-ReadableItem st =
    let inner = 9 ∷ st in
    (
      bare_info-IsStmtInfo,
      (
        tt,
        (
          (record { statements = (refl, (refl, (refl, tt))); all_there = refl }, tt),
          (
            two_statement-ReadableItem inner,
            (write_two-ReadableIo inner, ((bare_info-IsStmtInfo, (omega arith, (refl, tt))), tt)),
          ),
        ),
      ),
    )

pub if_two-ReadableItem : (st : Scopes) → ReadableItem host st if_two
unfolding ReadableItem way Matches present pad slots_of adjust
if_two-ReadableItem st =
    let inner = 9 ∷ st in
    (
      bare_info-IsStmtInfo,
      (
        (tt, (tt, tt)),
        (
          record { matches = (refl, (refl, tt)); enough = refl; in_place = refl; adjusted = refl },
          (two_statement-ReadableItem inner, (block-ReadableItem inner, tt)),
        ),
      ),
    )
