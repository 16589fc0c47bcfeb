-- ===== src/Read/Losses.antt =====
-- What some visitors of src/expr.cpp do not read back, whatever the element holds.
use xevxml.Prelude.{
  ◌≡◌, refl, ◌≢◌, ◌⊎◌, inl, inr, Bool, true, not, ◌&&◌, ◌||◌, none, some, List, [], ◌∷◌, arith,
  if◌then◌else◌, Bool-cases,
}
use xevxml.Result.{ok}
use xevxml.Stream.{ℤ, is_set}
use xevxml.Ast.Kinds.{BinaryOp}
use xevxml.Ast.Node.{
  SgNode, OptNode, is_expression, expr, basic_type, plain_type, cast_exp, null, node,
}
use xevxml.Platform.{Platform, Scopes}
use xevxml.Xml.{Attrs, get_int}
use xevxml.Write.Visit.{is_in_same_file}
use xevxml.Read.Monad.{Child, require_string}
use xevxml.Read.Operands.{two_operands, visit_binary}
use xevxml.Read.Expressions.{
  CastVars, flag, cast_child, cast_children, cast_of, visit_cast, require_function, get_type,
  visit_user_defined_unary,
}
use xevxml.Read.Visit.{info_of}

abbrev pub original_tree : SgNode → OptNode
original_tree (expr l o e) = o
original_tree (basic_type t k) = null
original_tree (plain_type t) = null

-- The visitor of a binary operator never gives its node an original expression tree.
pub visit_binary-original_tree :
    (kids : List Child) (o : BinaryOp) (st st' : Scopes) (n : SgNode)
    → visit_binary kids o st ≡ ok (n, st')
    → original_tree n ≡ null
unfolding visit_binary two_operands
visit_binary-original_tree kids o st st' n h = grind arith

-- The operand of a cast.
abbrev pub operand_of : SgNode → OptNode
operand_of (expr l o (cast_exp c e t)) = node e
operand_of n = null

abbrev no_vars : CastVars
no_vars = record { exp = null; typ = null; oexp = null }

OptNode-cases : (o : OptNode) → (o ≡ null) ⊎ ((n : SgNode) × (o ≡ node n))
OptNode-cases null = inl refl
OptNode-cases (node n) = inr (n, refl)

-- The loop of a cast's visitor leaves the same node in two of its variables.
cast_child-same :
    (c : SgNode) (v : CastVars) → v.oexp ≡ v.exp → (cast_child c v).oexp ≡ (cast_child c v).exp
unfolding cast_child
cast_child-same c v h = elim (OptNode-cases v.exp) [
  | inl n ↦
      let k = h in
      elim (Bool-cases (is_expression c)) [ inl q ↦ rw (k, n, q) refl | inr q ↦ rw (k, n, q) refl ]
  | inr n ↦ let k = h in rw (k, n.1) refl
]

cast_children-same :
    (cs : List SgNode) (v : CastVars)
    → v.oexp ≡ v.exp
    → (cast_children cs v).oexp ≡ (cast_children cs v).exp
unfolding cast_children
cast_children-same [] v h = h
cast_children-same (c ∷ cs) v h = cast_children-same cs (cast_child c v) (cast_child-same c v h)

cast_of-original :
    (c : ℤ) (implicit : Bool) (v : CastVars) (n : SgNode)
    → v.oexp ≡ v.exp
    → cast_of c implicit v ≡ ok n
    → original_tree n ≡ (if implicit then operand_of n else null)
unfolding cast_of
cast_of-original c implicit v n h k = grind arith

-- Whatever the children are, the visitor of a cast that succeeds gives an implicit cast its operand as
-- the original expression tree, and any other cast none: an original expression tree that stands in the
-- element is never read.
pub visit_cast-original :
    (p : Platform) (atts : Attrs) (kids : List Child) (st st' : Scopes) (n : SgNode)
    → visit_cast p atts kids st ≡ ok (n, st')
    → original_tree n ≡ (if flag p atts "implicit" then operand_of n else null)
unfolding visit_cast
visit_cast-original p atts kids st st' n h =
    let same : (cs : List SgNode)
        → (cast_children cs no_vars).oexp ≡ (cast_children cs no_vars).exp =
      λ cs. cast_children-same cs no_vars refl in
    grind (arith, same, cast_of-original)

-- The visitor of a unary operator that the user defined never gives a node.
pub visit_user_defined_unary-fails :
    (p : Platform) (atts : Attrs) (kids : List Child) (st st' : Scopes) (n : SgNode)
    → visit_user_defined_unary p atts kids st ≢ ok (n, st')
unfolding visit_user_defined_unary get_type require_string require_function
visit_user_defined_unary-fails p atts kids st st' n h = grind arith

-- A node whose element says `unparse="0"` is written again only outside Fortran and below a scope that
-- is not global; any other node that was read is always written again.
pub is_in_same_file-info_of :
    (p : Platform) (atts : Attrs) (fortran outermost : Bool)
    → is_in_same_file fortran outermost (info_of p atts)
      ≡ elim (get_int p.decode p.tmp "unparse" atts) [
        | none ↦ true
        | some z ↦ is_set z || (not fortran && not outermost)
      ]
unfolding is_in_same_file info_of
is_in_same_file-info_of p atts fortran outermost = grind arith
