-- ===== src/Read/Expressions.antt =====
-- The visitors of src/expr.cpp that read attributes, resolve names or change the scope.
use xevxml.Prelude.{
  String, Bool, true, false, Option, none, some, List, [], ◌∷◌, if◌then◌else◌, Bytes,
}
use xevxml.Result.{Result, missing_node, missing_nodes, symbol_not_found, null_dereference, ok, err}
use xevxml.Stream.{ℤ, pos, is_set}
use xevxml.Entity.{entity_to_str}
use xevxml.Xml.{Attrs, get_int}
use xevxml.Ast.Kinds.{UnaryModeOp}
use xevxml.Ast.Node.{
  ConstructorFlags, AsmOperand, SgNode, Exp, OptNode, is_expression, is_type, is_expr_list,
  unary_mode, actual_argument, aggregate_initializer, asm_op, assign_initializer, cast_exp,
  constructor_initializer, function_ref, label_ref, var_ref, user_defined_binary,
  user_defined_unary, is_null, null, node,
}
use xevxml.Platform.{Platform}
use xevxml.Read.Monad.{
  Reader, pure, fatal, ◌>>=◌, ◌>>◌, pop_stack, Child, visit_subtree, require_string, int_or,
  string_or,
}
use xevxml.Read.Slots.{fill, first, build, build_with}
use xevxml.Read.Symbols.{resolve_variable, resolve_function, set_kind}
use xevxml.Read.Operands.{one_operand, two_operands, lift}

module _ (p : Platform) (atts : Attrs) where
  abbrev pub flag : String → Bool
  flag name = is_set (int_or p atts name (pos 0))

-- The variables of the loop of `visitSgCastExp`.
pub record CastVars : Type 0 where
  pub exp : OptNode
  pub typ : OptNode
  pub oexp : OptNode

-- `if(a==0) a = isA(child);`
abbrev pub set_if_null : OptNode → (SgNode → Bool) → SgNode → OptNode
set_if_null null t c = if t c then node c else null
set_if_null (node n) t c = node n

unfoldable pub cast_child : SgNode → CastVars → CastVars
cast_child c v =
    let e = set_if_null v.exp is_expression c in
    record {
      exp = e;
      typ = set_if_null v.typ is_type c;
      oexp = if is_null e then v.oexp else set_if_null v.oexp is_expression c;
    }

unfoldable pub cast_children : List SgNode → CastVars → CastVars
cast_children [] v = v
cast_children (c ∷ cs) v = cast_children cs (cast_child c v)

unfoldable pub cast_of : ℤ → Bool → CastVars → Result SgNode
cast_of c implicit v = elim v.typ [
  | null ↦ err (missing_node "SgCastExp" "SgType")
  | node t ↦ elim v.exp [
    | null ↦ err (missing_node "SgCastExp" "SgExpression")
    | node e ↦ ok (build_with (if implicit then v.oexp else null) (cast_exp c e t))
  ]
]

module _ (p : Platform) (atts : Attrs) (kids : List Child) where
  -- `VISIT_UOP_MODE`: any mode but 0 is postfix, and none is prefix.
  unfoldable pub mode_of : Option ℤ → ℤ
  mode_of none = pos 0
  mode_of (some m) = if is_set m then pos 1 else pos 0

  unfoldable pub visit_unary_mode : UnaryModeOp → Reader SgNode
  visit_unary_mode o = do
    cs ← visit_subtree kids
    lift (
        one_operand "SgUnaryOp" (unary_mode o (mode_of (get_int p.decode p.tmp "mode" atts)))
          (fill (is_expression ∷ []) cs))

  unfoldable pub visit_actual_argument : Reader SgNode
  visit_actual_argument = do
    name ← require_string p "SgActualArgumentExpression" atts "name"
    cs ← visit_subtree kids
    lift (
        one_operand "SgActualArgumentExpression" (actual_argument name)
          (fill (is_expression ∷ []) cs))

  unfoldable pub aggregate : Bool → OptNode → OptNode → Result SgNode
  aggregate brace (node l) (node t) = ok (build (aggregate_initializer brace l t))
  aggregate brace (node l) null = ok (build (aggregate_initializer brace l (p.type_of l)))
  aggregate brace null t = err (missing_node "SgAggregateInitializer" "SgExprListExp")

  unfoldable pub visit_aggregate_initializer : Reader SgNode
  visit_aggregate_initializer = do
    cs ← visit_subtree kids
    lift (aggregate (flag p atts "need_brace") (first is_expr_list cs) (first is_type cs))

  unfoldable pub visit_asm_op : Reader SgNode
  visit_asm_op = do
    let operand : AsmOperand = record {
      constraint = int_or p atts "constraint" (pos 0);
      constraint_string = entity_to_str (string_or p atts "constraint_string");
      modifiers = int_or p atts "modifiers" (pos 0);
      name = string_or p atts "name";
      record_raw = flag p atts "record";
      is_output = flag p atts "output";
    }
    cs ← visit_subtree kids
    pure (build (asm_op operand (first is_expression cs)))

  -- The attribute `cast`, or what the builder sets.
  unfoldable pub explicit_of : Option ℤ → Bool
  explicit_of none = p.explicit_cast
  explicit_of (some z) = is_set z

  unfoldable pub visit_assign_initializer : Reader SgNode
  visit_assign_initializer = do
    cs ← visit_subtree kids
    lift (
        one_operand "SgAssignInitializer"
          (assign_initializer (explicit_of (get_int p.decode p.tmp "cast" atts)))
          (fill (is_expression ∷ []) cs))

  unfoldable pub visit_cast : Reader SgNode
  visit_cast = do
    cs ← visit_subtree kids
    lift (
        cast_of (int_or p atts "ctype" (pos 0)) (flag p atts "implicit")
          (cast_children cs (record { exp = null; typ = null; oexp = null })))

  unfoldable pub visit_constructor_initializer : Reader SgNode
  visit_constructor_initializer = do
    let flags : ConstructorFlags = record {
      need_name = flag p atts "name";
      need_qualifier = flag p atts "qual";
      need_parenthesis = flag p atts "paren_after_name";
      class_unknown = flag p atts "unknown";
    }
    cs ← visit_subtree kids
    pure (build (constructor_initializer flags (first is_expr_list cs) (first is_type cs)))

  unfoldable pub visit_function_ref : Reader SgNode
  visit_function_ref = do
    name ← require_string p "SgFunctionRefExp" atts "name"
    found ← λ st. ok (resolve_function p st name, st)
    cs ← visit_subtree kids
    pure (
        build_with (first is_expression cs)
          (function_ref found.0 (set_kind p found.1 (get_int p.decode p.tmp "kind" atts))))

  unfoldable pub visit_var_ref : Reader SgNode
  visit_var_ref = do
    name ← require_string p "SgVarRefExp" atts "name"
    symbol ← λ st. lift (resolve_variable p st name) st
    cs ← visit_subtree kids
    pure (build_with (first is_expression cs) (var_ref symbol))

  -- The children of a label are not visited.
  unfoldable pub visit_label_ref : Reader SgNode
  visit_label_ref =
      pure (build (label_ref (int_or p atts "ltype" (pos 0)) (int_or p atts "nlabel" (pos 0))))

  unfoldable pub require_function : Bytes → Reader (Unit {0})
  require_function name st = elim (p.lookup_function st name) [
    | none ↦ err symbol_not_found
    | some f ↦ ok (tt, st)
  ]

  unfoldable pub visit_user_defined_binary : Reader SgNode
  visit_user_defined_binary = do
    name ← require_string p "SgUserDefinedBinaryOp" atts "name"
    require_function name
    cs ← visit_subtree kids
    lift (
        two_operands "SgUserDefinedBinaryOp" (user_defined_binary name)
          (fill (is_expression ∷ is_expression ∷ []) cs))

  -- A call of `get_type()`.
  unfoldable pub get_type : OptNode → Reader SgNode
  get_type null = fatal null_dereference
  get_type (node n) = pure (p.type_of n)

  -- `lhs` is still NULL when the node is made, from `lhs->get_type()`.
  unfoldable pub visit_user_defined_unary : Reader SgNode
  visit_user_defined_unary = do
    name ← require_string p "SgUserDefinedUnaryOp" atts "name"
    require_function name
    let lhs = null
    typ ← get_type lhs
    cs ← visit_subtree kids
    lift (
        one_operand "SgUserDefinedUnaryOp" (user_defined_unary name) (fill (is_expression ∷ []) cs))

module _ (p : Platform) (name : String) (f : SgNode → SgNode → Exp) where
  abbrev pop_if : Bool → Reader (Unit {0})
  pop_if true st = ok (tt, pop_stack st)
  pop_if false st = ok (tt, st)

  abbrev enter : SgNode → Reader Bool
  enter l st = elim (p.class_scope l) [ none ↦ ok (false, st) | some s ↦ ok (true, s ∷ st) ]

  -- Behind the left operand: each child up to the right operand pops the scope that was pushed.
  unfoldable pub member_right : Bool → SgNode → List Child → Reader SgNode
  member_right pushed l [] = fatal (missing_nodes name 2)
  member_right pushed l (c ∷ cs) = c >>= λ n. pop_if pushed >>= λ _. elim n [
    | none ↦ member_right pushed l cs
    | some r ↦ elim (is_expression r) [
      | false ↦ member_right pushed l cs
      | true ↦ visit_subtree cs >>= λ _. pure (build (f l r))
    ]
  ]

  -- The loop of `visitSgDotExp` and `visitSgArrowExp`: the scope of the left operand's class is pushed
  -- for the right operand.
  unfoldable pub visit_member : List Child → Reader SgNode
  visit_member [] = fatal (missing_nodes name 2)
  visit_member (c ∷ cs) = c >>= λ n. elim n [
    | none ↦ visit_member cs
    | some l ↦ elim (is_expression l) [
      | false ↦ visit_member cs
      | true ↦ enter l >>= λ pushed. member_right pushed l cs
    ]
  ]
