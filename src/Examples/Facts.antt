-- ===== src/Examples/Facts.antt =====
-- The test data meet the conditions of the theorems.
use xevxml.Ast.Kinds.{int_val, add_op}
use xevxml.Prelude.{◌≡◌, refl, Bool, ◌&&◌, true, false, some, [], arith, codes}
use xevxml.Result.{ok}
use xevxml.Stream.{
  digits, print_nat, is_digit, is_space, skip_space, read_digits, saturate, read_unsigned,
  stream_ulong,
}
use xevxml.Stream.RoundTrip.{stream_ulong-print_nat}
use xevxml.Entity.{starts_with, find_at, find, replace_range, replace_loop, replace, entity_to_str}
use xevxml.Ast.Node.{SgNode, Exp, binary}
use xevxml.Write.Attributes.{same_bytes, same_int, is_literal}
use xevxml.Write.Visit.{remove_include_directives}
use xevxml.Read.Monad.{Child}
use xevxml.Read.Slots.{fresh}
use xevxml.RoundTrip.Text.{IsRestorable, print_nat-IsPlain}
use xevxml.RoundTrip.Literals.{IsSpelling, IsLiteral}
use xevxml.RoundTrip.Comments.{IsComment}
use xevxml.RoundTrip.Readable.{IsLocated}
use xevxml.Examples.Program.{platform, parenthesised, comment, commented}

pub comment-IsRestorable : IsRestorable (codes "/* a<b */")
unfolding entity_to_str replace replace_loop find find_at replace_range starts_with
comment-IsRestorable = record { chars = ground arith; no_entity = refl }

pub text-IsRestorable : IsRestorable (codes "a&b")
unfolding entity_to_str replace replace_loop find find_at replace_range starts_with
text-IsRestorable = record { chars = ground arith; no_entity = refl }

pub digits-IsRestorable : IsRestorable (codes "007")
unfolding entity_to_str replace replace_loop find find_at replace_range starts_with
digits-IsRestorable = record { chars = ground arith; no_entity = refl }

pub comment-IsComment : IsComment comment
comment-IsComment = (omega arith, (omega arith, comment-IsRestorable))

pub two-IsLiteral : IsLiteral platform int_val 2 []
two-IsLiteral = (stream_ulong-print_nat 0 2 (omega arith), print_nat-IsPlain 2)

pub seven-IsSpelling : IsSpelling platform int_val 7 (codes "007")
unfolding same_bytes print_nat digits stream_ulong skip_space is_space read_unsigned read_digits
    is_digit saturate
seven-IsSpelling = record { restorable = digits-IsRestorable; other = refl; reads = refl }

and_false : (b : Bool) → (b && false) ≡ false
and_false true = refl
and_false false = refl

pub fresh-IsLocated : (e : Exp) → IsLocated platform fresh e
unfolding remove_include_directives
fresh-IsLocated e = (refl, (tt, (refl, and_false (is_literal e))))

pub parenthesised-IsLocated : (l r : SgNode) → IsLocated platform parenthesised (binary add_op l r)
unfolding remove_include_directives is_literal
parenthesised-IsLocated l r = (refl, (tt, (refl, refl)))

pub commented-IsLocated : (e : Exp) → IsLocated platform commented e
unfolding remove_include_directives same_int
commented-IsLocated e = (refl, ((comment-IsComment, tt), (refl, and_false (is_literal e))))

abbrev pub gives : SgNode → Child
gives n st = ok (some n, st)
