-- ===== src/RoundTrip/Fits.antt =====
-- Which expressions the readers can make again: each operand has the kind of its place, and each
-- attribute is one that an attribute's text holds.
use xevxml.Prelude.{◌<◌, ◌≡◌, ◌⊎◌, true, false, Option, none, some, List, [], ◌∷◌, ◌++◌, Bytes, All}
use xevxml.Stream.{ℤ, pos}
use xevxml.Stream.RoundTrip.{IsInt}
use xevxml.Ast.Node.{
  AsmOperand, SgNode, Exp, OptNode, to_list, opt, is_expression, is_type, is_expr_list,
  is_initializer, is_value, expr, binary, unary, unary_mode, numeric_val, bool_val, character_val,
  string_val, complex_val, actual_argument, aggregate_initializer, asm_op, assign_initializer,
  asterisk_shape, colon_shape, null_expression, cast_exp, conditional, constructor_initializer,
  designated_initializer, dot_exp, arrow_exp, expr_list, function_call, function_ref, implied_do,
  label_ref, pointer_deref, size_of_type, size_of_exp, subscript, var_arg_copy, var_arg_end,
  var_arg, var_arg_start, var_ref, pointer_assign, user_defined_binary, user_defined_unary, null,
  node, cons,
}
use xevxml.Platform.{Platform, Scopes}
use xevxml.Result.{ok}
use xevxml.Write.Attributes.{same_int}
use xevxml.Read.Symbols.{resolve_variable, resolve_function}
use xevxml.RoundTrip.Text.{IsRestorable, IsPlain}
use xevxml.RoundTrip.Literals.{IsLiteral}

abbrev pub IsExpression : SgNode → Type 0
IsExpression n = is_expression n ≡ true

abbrev pub IsType : SgNode → Type 0
IsType n = is_type n ≡ true

abbrev pub IsExprList : SgNode → Type 0
IsExprList n = is_expr_list n ≡ true

-- A pointer that is NULL, or a node of that kind.
abbrev pub IsNullOr : (SgNode → Type 0) → OptNode → Type 0
IsNullOr P null = Unit
IsNullOr P (node n) = P n

abbrev pub IsAsmOperand : AsmOperand → Type 0
IsAsmOperand a =
    IsInt a.constraint
    × (IsRestorable a.constraint_string × (IsInt a.modifiers × All IsPlain a.name))

-- The list that designates a member is not empty.
abbrev pub IsDesignator : SgNode → Type 0
IsDesignator (expr l o (expr_list (cons n ns))) = Unit
IsDesignator n = ⊥

-- Expressions that keep their original expression tree.
abbrev pub IsLeaf : Exp → Type 0
IsLeaf (numeric_val k v s) = Unit
IsLeaf (bool_val b) = Unit
IsLeaf (character_val k v) = Unit
IsLeaf (string_val s f) = Unit
IsLeaf (function_ref n k) = Unit
IsLeaf (var_ref n) = Unit
IsLeaf e = ⊥

-- What the readers ask of an expression whose scopes are `st`. An operator that the user defined is
-- never read if it is unary.
module _ (p : Platform) (st : Scopes) where
  -- The kind of a procedure header is an enumerator.
  abbrev pub IsKind : Option ℤ → Type 0
  IsKind none = Unit
  IsKind (some k) = IsInt k

  abbrev pub IsDeclared : Bytes → Type 0
  IsDeclared name = (f : Bytes × Option ℤ) × (p.lookup_function st name ≡ some f)

  abbrev pub Fits : Exp → Type 0
  Fits (binary o l r) = IsExpression l × IsExpression r
  Fits (unary o e) = IsExpression e
  Fits (unary_mode o m e) = IsExpression e × ((m ≡ pos 0) ⊎ (m ≡ pos 1))
  Fits (numeric_val k v s) = IsLiteral p k v s
  Fits (bool_val b) = Unit
  Fits (character_val k v) = v < 256
  Fits (string_val s f) = IsRestorable s
  Fits (complex_val null null) = ⊥
  Fits (complex_val null (node i)) = is_value i ≡ true
  Fits (complex_val (node r) null) = ⊥
  Fits (complex_val (node r) (node i)) = (is_value r ≡ true) × (is_value i ≡ true)
  Fits (actual_argument name e) = IsExpression e × All IsPlain name
  Fits (aggregate_initializer b e t) = IsExprList e × IsType t
  Fits (asm_op a e) = IsNullOr IsExpression e × IsAsmOperand a
  Fits (assign_initializer b e) = IsExpression e
  Fits asterisk_shape = Unit
  Fits colon_shape = Unit
  Fits null_expression = Unit
  Fits (cast_exp c e t) = IsInt c × (IsExpression e × IsType t)
  Fits (conditional c t f) = IsExpression c × (IsExpression t × IsExpression f)
  Fits (constructor_initializer f e t) = IsNullOr IsExprList e × IsNullOr IsType t
  Fits (designated_initializer e i) = IsDesignator e × (is_initializer i ≡ true)
  Fits (dot_exp l r) = IsExpression l × IsExpression r
  Fits (arrow_exp l r) = IsExpression l × IsExpression r
  Fits (expr_list ns) = All IsExpression (to_list ns)
  Fits (function_call f e) = IsExpression f × ((is_expr_list f ≡ false) × IsExprList e)
  Fits (function_ref name k) =
      All IsPlain name × ((resolve_function p st name ≡ (name, k)) × IsKind k)
  Fits (implied_do i l c e) = IsExpression i × (IsExpression l × (IsExpression c × IsExprList e))
  Fits (label_ref t n) = IsInt t × (IsInt n × (same_int t p.alternative_return ≡ false))
  Fits (pointer_deref e t) = IsExpression e × IsType t
  Fits (size_of_type t) = IsType t
  Fits (size_of_exp e) = IsExpression e
  Fits (subscript l u e) = IsExpression l × (IsExpression u × IsExpression e)
  Fits (var_arg_copy l r) = IsExpression l × IsExpression r
  Fits (var_arg_end e) = IsExpression e
  Fits (var_arg e t) = IsExpression e × IsType t
  Fits (var_arg_start l r) = IsExpression l × IsExpression r
  Fits (var_ref name) = All IsPlain name × (resolve_variable p st name ≡ ok name)
  Fits (pointer_assign l r) = IsExpression l × IsExpression r
  Fits (user_defined_binary name l r) =
      IsExpression l × (IsExpression r × (All IsPlain name × IsDeclared name))
  Fits (user_defined_unary name e) = ⊥

-- The children that an element of the class has, but those for the original tree.
unfoldable pub operands : Exp → List SgNode
unfolding to_list
operands (binary o l r) = l ∷ r ∷ []
operands (unary o e) = e ∷ []
operands (unary_mode o m e) = e ∷ []
operands (complex_val r i) = opt r ++ opt i
operands (actual_argument n e) = e ∷ []
operands (aggregate_initializer b e t) = e ∷ t ∷ []
operands (asm_op a e) = opt e
operands (assign_initializer b e) = e ∷ []
operands (cast_exp c e t) = e ∷ t ∷ []
operands (conditional c t f) = c ∷ t ∷ f ∷ []
operands (constructor_initializer f e t) = opt e ++ opt t
operands (designated_initializer e i) = e ∷ i ∷ []
operands (dot_exp l r) = l ∷ r ∷ []
operands (arrow_exp l r) = l ∷ r ∷ []
operands (expr_list ns) = to_list ns
operands (function_call f e) = f ∷ e ∷ []
operands (implied_do i l c e) = i ∷ l ∷ c ∷ e ∷ []
operands (pointer_deref e t) = e ∷ t ∷ []
operands (size_of_type t) = t ∷ []
operands (size_of_exp e) = e ∷ []
operands (subscript l u e) = l ∷ u ∷ e ∷ []
operands (var_arg_copy l r) = l ∷ r ∷ []
operands (var_arg_end e) = e ∷ []
operands (var_arg e t) = e ∷ t ∷ []
operands (var_arg_start l r) = l ∷ r ∷ []
operands (pointer_assign l r) = l ∷ r ∷ []
operands (user_defined_binary n l r) = l ∷ r ∷ []
operands (user_defined_unary n e) = e ∷ []
operands _ = []
