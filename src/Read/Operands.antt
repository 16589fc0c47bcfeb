-- ===== src/Read/Operands.antt =====
-- What the visitors of src/expr.cpp make of the children that they have sorted, for the classes that
-- need nothing but children.
use xevxml.Prelude.{ℕ, zero, suc, String, Bool, List, [], ◌∷◌}
use xevxml.Result.{Result, missing_node, missing_nodes, out_of_bounds, ok, err}
use xevxml.Ast.Kinds.{BinaryOp, UnaryOp}
use xevxml.Ast.Names.{binary_name, unary_name}
use xevxml.Ast.Node.{
  SgNode, Exp, OptNode, is_expression, is_type, is_expr_list, is_initializer, expr, binary, unary,
  conditional, designated_initializer, expr_list, function_call, implied_do, pointer_deref,
  size_of_type, size_of_exp, subscript, var_arg_copy, var_arg_end, var_arg, var_arg_start,
  pointer_assign, null, node, no_nodes,
}
use xevxml.Read.Monad.{Reader, pure, ◌>>=◌, Child, visit_subtree}
use xevxml.Read.Slots.{fill, first, select, build}

abbrev exps : ℕ → List (SgNode → Bool)
exps zero = []
exps (suc n) = is_expression ∷ exps n

-- One, two and three operands; the number in the message is the number that is needed.
unfoldable pub one_operand : String → (SgNode → Exp) → List SgNode → Result SgNode
one_operand name f (e ∷ _) = ok (build (f e))
one_operand name f _ = err (missing_node name "SgExpression")

unfoldable pub two_operands : String → (SgNode → SgNode → Exp) → List SgNode → Result SgNode
two_operands name f (l ∷ r ∷ _) = ok (build (f l r))
two_operands name f _ = err (missing_nodes name 2)

unfoldable pub three_operands :
    String → (SgNode → SgNode → SgNode → Exp) → List SgNode → Result SgNode
three_operands name f (a ∷ b ∷ c ∷ _) = ok (build (f a b c))
three_operands name f _ = err (missing_nodes name 3)

abbrev pub lift : {A : Type 0} → Result A → Reader A
lift r st = elim r [ ok a ↦ ok (a, st) | err e ↦ err e ]

-- An expression and a type, each the first of its kind.
unfoldable pub exp_and_type : String → (SgNode → SgNode → Exp) → OptNode → OptNode → Result SgNode
exp_and_type name f (node e) (node t) = ok (build (f e t))
exp_and_type name f null t = err (missing_node name "SgExpression")
exp_and_type name f (node e) null = err (missing_node name "SgType")

module _ (kids : List Child) where
  -- `VISIT_BOP`: the third expression is read, and dropped.
  unfoldable pub visit_binary : BinaryOp → Reader SgNode
  visit_binary o = do
    cs ← visit_subtree kids
    lift (two_operands (binary_name o) (binary o) (fill (exps 3) cs))

  -- `VISIT_UOP`
  unfoldable pub visit_unary : UnaryOp → Reader SgNode
  visit_unary o = do
    cs ← visit_subtree kids
    lift (one_operand (unary_name o) (unary o) (fill (exps 1) cs))

  unfoldable pub visit_conditional : Reader SgNode
  visit_conditional = do
    cs ← visit_subtree kids
    lift (three_operands "SgConditionalExp" conditional (fill (exps 3) cs))

  unfoldable pub visit_subscript : Reader SgNode
  visit_subscript = do
    cs ← visit_subtree kids
    lift (three_operands "SgSubscriptExpression" subscript (fill (exps 3) cs))

  unfoldable pub visit_var_arg_copy : Reader SgNode
  visit_var_arg_copy = do
    cs ← visit_subtree kids
    lift (two_operands "SgVarArgCopyOp" var_arg_copy (fill (exps 2) cs))

  unfoldable pub visit_var_arg_start : Reader SgNode
  visit_var_arg_start = do
    cs ← visit_subtree kids
    lift (two_operands "SgVarArgStartOp" var_arg_start (fill (exps 2) cs))

  unfoldable pub visit_var_arg_end : Reader SgNode
  visit_var_arg_end = do
    cs ← visit_subtree kids
    lift (one_operand "SgVarArgEndOp" var_arg_end (fill (exps 1) cs))

  unfoldable pub visit_var_arg : Reader SgNode
  visit_var_arg = do
    cs ← visit_subtree kids
    lift (exp_and_type "SgVarArgOp" var_arg (first is_expression cs) (first is_type cs))

  unfoldable pub visit_pointer_deref : Reader SgNode
  visit_pointer_deref = do
    cs ← visit_subtree kids
    lift
        (exp_and_type "SgPointerDerefExp" pointer_deref (first is_expression cs) (first is_type cs))

  unfoldable pub visit_pointer_assign : Reader SgNode
  visit_pointer_assign = do
    cs ← visit_subtree kids
    lift (two_operands "SgPointerAssignOp" pointer_assign (fill (exps 2) cs))

  unfoldable pub visit_expr_list : Reader SgNode
  visit_expr_list = do cs ← visit_subtree kids; pure (build (expr_list (select is_expression cs)))

  -- The type comes before the expression.
  unfoldable pub size_of : OptNode → OptNode → Result SgNode
  size_of e (node t) = ok (build (size_of_type t))
  size_of (node e) null = ok (build (size_of_exp e))
  size_of null null = err (missing_node "SgSizeOfOp" "SgType")

  unfoldable pub visit_size_of : Reader SgNode
  visit_size_of = do
    cs ← visit_subtree kids
    lift (size_of (first is_expression cs) (first is_type cs))

  unfoldable pub call : OptNode → OptNode → Result SgNode
  call (node f) (node args) = ok (build (function_call f args))
  call null args = err (missing_node "SgFunctionCall" "SgExpression")
  call (node f) null = err (missing_node "SgFunctionCall" "SgExprListExp")

  unfoldable pub visit_function_call : Reader SgNode
  visit_function_call = do
    cs ← visit_subtree kids
    lift (call (first is_expression cs) (first is_expr_list cs))

  unfoldable pub implied : List SgNode → Result SgNode
  implied (i ∷ l ∷ c ∷ e ∷ _) = ok (build (implied_do i l c e))
  implied (i ∷ l ∷ c ∷ []) = err (missing_node "SgImpliedDo" "SgExprListExpr")
  implied _ = err (missing_nodes "SgImpliedDo" 3)

  unfoldable pub visit_implied_do : Reader SgNode
  visit_implied_do = do
    cs ← visit_subtree kids
    lift (implied (fill (is_expression ∷ is_expression ∷ is_expression ∷ is_expr_list ∷ []) cs))

  -- `plst[0]` is read whether the list has an element or not.
  unfoldable pub designated : OptNode → OptNode → Result SgNode
  designated null e = err (missing_node "SgDesignatedInitializer" "SgInitializer")
  designated (node i) null = err (missing_node "SgDesignatedInitializer" "SgExprListExp")
  designated (node i) (node (expr l o (expr_list no_nodes))) = err out_of_bounds
  designated (node i) (node e) = ok (build (designated_initializer e i))

  unfoldable pub visit_designated_initializer : Reader SgNode
  visit_designated_initializer = do
    cs ← visit_subtree kids
    lift (designated (first is_initializer cs) (first is_expr_list cs))
