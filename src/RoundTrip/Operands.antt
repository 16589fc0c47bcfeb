-- ===== src/RoundTrip/Operands.antt =====
-- The classes that are made of their operands alone: the visitor puts the operands that it reads back
-- in their places.
use mathlib.Core.Bool.{false≢true}
use xevxml.Prelude.{◌≡◌, refl, true, false, List, [], ◌∷◌, arith, All}
use xevxml.Result.{ok}
use xevxml.Ast.Kinds.{BinaryOp, UnaryOp, complex_val, designated_initializer, implied_do}
use xevxml.Ast.Node.{
  SgNode, Nodes, to_list, is_expression, is_type, is_expr_list, is_initializer, is_value, expr,
  basic_type, plain_type, binary, unary, complex_val, conditional, designated_initializer,
  expr_list, function_call, implied_do, pointer_deref, size_of_type, size_of_exp, subscript,
  var_arg_copy, var_arg_end, var_arg, var_arg_start, pointer_assign, null, node, no_nodes, cons,
}
use xevxml.Platform.{Scopes}
use xevxml.Read.Monad.{Child, visit_subtree}
use xevxml.Read.Slots.{fill, first, select, build}
use xevxml.Read.Operands.{
  one_operand, two_operands, three_operands, exp_and_type, visit_binary, visit_unary,
  visit_conditional, visit_subscript, visit_var_arg_copy, visit_var_arg_start, visit_var_arg_end,
  visit_var_arg, visit_pointer_deref, visit_pointer_assign, visit_expr_list, size_of, visit_size_of,
  call, visit_function_call, implied, visit_implied_do, designated, visit_designated_initializer,
}
use xevxml.Read.Values.{complex_parts, visit_complex_val}
use xevxml.RoundTrip.Fits.{IsExpression, IsType, IsExprList, IsDesignator}

pub IsExpression-type : (n : SgNode) → IsExpression n → is_type n ≡ false
IsExpression-type (expr l o e) h = refl
IsExpression-type (basic_type t k) h = absurd (false≢true h)
IsExpression-type (plain_type t) h = absurd (false≢true h)

pub IsType-expression : (n : SgNode) → IsType n → is_expression n ≡ false
IsType-expression (expr l o e) h = absurd (false≢true h)
IsType-expression (basic_type t k) h = refl
IsType-expression (plain_type t) h = refl

pub IsExprList-type : (n : SgNode) → IsExprList n → is_type n ≡ false
IsExprList-type (expr l o e) h = refl
IsExprList-type (basic_type t k) h = absurd (false≢true h)
IsExprList-type (plain_type t) h = absurd (false≢true h)

pub IsType-list : (n : SgNode) → IsType n → is_expr_list n ≡ false
IsType-list (expr l o e) h = absurd (false≢true h)
IsType-list (basic_type t k) h = refl
IsType-list (plain_type t) h = refl

select-All : (ns : Nodes) → All IsExpression (to_list ns) → select is_expression (to_list ns) ≡ ns
unfolding select to_list
select-All no_nodes h = refl
select-All (cons n ns) h = rw (select, h.0, select-All ns h.1) refl

-- What visiting the children gives.
abbrev pub Visited : List Child → Scopes → List SgNode → Type 0
Visited kids st ns = visit_subtree kids st ≡ ok (ns, st)

module _ (kids : List Child) (st : Scopes) where
  pub visit_binary-pair :
      (o : BinaryOp) (l r : SgNode)
      → IsExpression l
      → IsExpression r
      → Visited kids st (l ∷ r ∷ [])
      → visit_binary kids o st ≡ ok (build (binary o l r), st)
  unfolding visit_binary two_operands fill
  visit_binary-pair o l r hl hr v = grind arith

  pub visit_unary-one :
      (o : UnaryOp) (e : SgNode)
      → IsExpression e
      → Visited kids st (e ∷ [])
      → visit_unary kids o st ≡ ok (build (unary o e), st)
  unfolding visit_unary one_operand fill
  visit_unary-one o e he v = grind arith

  pub visit_conditional-three :
      (a b c : SgNode)
      → IsExpression a
      → IsExpression b
      → IsExpression c
      → Visited kids st (a ∷ b ∷ c ∷ [])
      → visit_conditional kids st ≡ ok (build (conditional a b c), st)
  unfolding visit_conditional three_operands fill
  visit_conditional-three a b c ha hb hc v = grind arith

  pub visit_subscript-three :
      (a b c : SgNode)
      → IsExpression a
      → IsExpression b
      → IsExpression c
      → Visited kids st (a ∷ b ∷ c ∷ [])
      → visit_subscript kids st ≡ ok (build (subscript a b c), st)
  unfolding visit_subscript three_operands fill
  visit_subscript-three a b c ha hb hc v = grind arith

  pub visit_var_arg_copy-pair :
      (l r : SgNode)
      → IsExpression l
      → IsExpression r
      → Visited kids st (l ∷ r ∷ [])
      → visit_var_arg_copy kids st ≡ ok (build (var_arg_copy l r), st)
  unfolding visit_var_arg_copy two_operands fill
  visit_var_arg_copy-pair l r hl hr v = grind arith

  pub visit_var_arg_start-pair :
      (l r : SgNode)
      → IsExpression l
      → IsExpression r
      → Visited kids st (l ∷ r ∷ [])
      → visit_var_arg_start kids st ≡ ok (build (var_arg_start l r), st)
  unfolding visit_var_arg_start two_operands fill
  visit_var_arg_start-pair l r hl hr v = grind arith

  pub visit_pointer_assign-pair :
      (l r : SgNode)
      → IsExpression l
      → IsExpression r
      → Visited kids st (l ∷ r ∷ [])
      → visit_pointer_assign kids st ≡ ok (build (pointer_assign l r), st)
  unfolding visit_pointer_assign two_operands fill
  visit_pointer_assign-pair l r hl hr v = grind arith

  pub visit_var_arg_end-one :
      (e : SgNode)
      → IsExpression e
      → Visited kids st (e ∷ [])
      → visit_var_arg_end kids st ≡ ok (build (var_arg_end e), st)
  unfolding visit_var_arg_end one_operand fill
  visit_var_arg_end-one e he v = grind arith

  pub visit_var_arg-typed :
      (e t : SgNode)
      → IsExpression e
      → IsType t
      → Visited kids st (e ∷ t ∷ [])
      → visit_var_arg kids st ≡ ok (build (var_arg e t), st)
  unfolding visit_var_arg exp_and_type first
  visit_var_arg-typed e t he ht v = grind arith

  pub visit_pointer_deref-typed :
      (e t : SgNode)
      → IsExpression e
      → IsType t
      → Visited kids st (e ∷ t ∷ [])
      → visit_pointer_deref kids st ≡ ok (build (pointer_deref e t), st)
  unfolding visit_pointer_deref exp_and_type first
  visit_pointer_deref-typed e t he ht v = grind arith

  pub visit_expr_list-All :
      (ns : Nodes)
      → All IsExpression (to_list ns)
      → Visited kids st (to_list ns)
      → visit_expr_list kids st ≡ ok (build (expr_list ns), st)
  unfolding visit_expr_list
  visit_expr_list-All ns h v = let e = select-All ns h in grind arith

  pub visit_size_of-expression :
      (e : SgNode)
      → IsExpression e
      → Visited kids st (e ∷ [])
      → visit_size_of kids st ≡ ok (build (size_of_exp e), st)
  unfolding visit_size_of size_of first
  visit_size_of-expression e he v = grind arith

  pub visit_size_of-type :
      (t : SgNode)
      → IsType t
      → Visited kids st (t ∷ [])
      → visit_size_of kids st ≡ ok (build (size_of_type t), st)
  unfolding visit_size_of size_of first
  visit_size_of-type t ht v = grind arith

  pub visit_function_call-applied :
      (f e : SgNode)
      → IsExpression f
      → is_expr_list f ≡ false
      → IsExprList e
      → Visited kids st (f ∷ e ∷ [])
      → visit_function_call kids st ≡ ok (build (function_call f e), st)
  unfolding visit_function_call call first
  visit_function_call-applied f e hf hn he v = grind arith

  pub visit_implied_do-four :
      (a b c e : SgNode)
      → IsExpression a
      → IsExpression b
      → IsExpression c
      → IsExprList e
      → Visited kids st (a ∷ b ∷ c ∷ e ∷ [])
      → visit_implied_do kids st ≡ ok (build (implied_do a b c e), st)
  unfolding visit_implied_do implied fill
  visit_implied_do-four a b c e ha hb hc he v = grind arith

  pub visit_designated_initializer-pair :
      (e i : SgNode)
      → IsDesignator e
      → is_initializer i ≡ true
      → Visited kids st (e ∷ i ∷ [])
      → visit_designated_initializer kids st ≡ ok (build (designated_initializer e i), st)
  unfolding visit_designated_initializer designated first
  visit_designated_initializer-pair (expr l o (expr_list (cons n ns))) i he hi v = grind arith
  visit_designated_initializer-pair _ i he hi v = absurd he

  pub visit_complex_val-pair :
      (r i : SgNode)
      → is_value r ≡ true
      → is_value i ≡ true
      → Visited kids st (r ∷ i ∷ [])
      → visit_complex_val kids st ≡ ok (build (complex_val (node r) (node i)), st)
  unfolding visit_complex_val complex_parts fill
  visit_complex_val-pair r i hr hi v = grind arith

  pub visit_complex_val-imaginary :
      (i : SgNode)
      → is_value i ≡ true
      → Visited kids st (i ∷ [])
      → visit_complex_val kids st ≡ ok (build (complex_val null (node i)), st)
  unfolding visit_complex_val complex_parts fill
  visit_complex_val-imaginary i hi v = grind arith
