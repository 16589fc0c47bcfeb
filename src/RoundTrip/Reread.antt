-- ===== src/RoundTrip/Reread.antt =====
-- One expression is read from its attributes and its operands (the calls `visitSg##x` of
-- src/xml2rose.cpp).
use xevxml.Prelude.{◌≡◌, refl, ◌∙◌, subst, false, List, [], ◌∷◌, ◌++◌, append-nil, arith}
use xevxml.Result.{ok}
use xevxml.Ast.Kinds.{
  string_val, complex_val, aggregate_initializer, asm_op, assign_initializer, cast_exp,
  constructor_initializer, designated_initializer, dot_exp, arrow_exp, implied_do, null_expression,
}
use xevxml.Ast.Node.{
  Located, Exp, OptNode, opt, exp_variant, binary, unary, unary_mode, numeric_val, bool_val,
  character_val, string_val, complex_val, actual_argument, aggregate_initializer, asm_op,
  assign_initializer, asterisk_shape, colon_shape, null_expression, cast_exp, conditional,
  constructor_initializer, designated_initializer, dot_exp, arrow_exp, expr_list, function_call,
  function_ref, implied_do, label_ref, pointer_deref, size_of_type, size_of_exp, subscript,
  var_arg_copy, var_arg_end, var_arg, var_arg_start, var_ref, pointer_assign, user_defined_binary,
  user_defined_unary, null, node,
}
use xevxml.Platform.{Platform, Scopes}
use xevxml.Write.Attributes.{attributes}
use xevxml.Read.Monad.{Child}
use xevxml.Read.Slots.{build_with}
use xevxml.Read.Values.{with_original}
use xevxml.Read.Visit.{visit_class, visit_variant}
use xevxml.RoundTrip.Text.{DecodesEntities}
use xevxml.RoundTrip.Fits.{IsExpression, IsNullOr, IsLeaf, Fits, operands}
use xevxml.RoundTrip.Operands.{
  Visited, visit_binary-pair, visit_unary-one, visit_conditional-three, visit_subscript-three,
  visit_var_arg_copy-pair, visit_var_arg_start-pair, visit_pointer_assign-pair,
  visit_var_arg_end-one, visit_var_arg-typed, visit_pointer_deref-typed, visit_expr_list-All,
  visit_size_of-expression, visit_size_of-type, visit_function_call-applied, visit_implied_do-four,
  visit_designated_initializer-pair, visit_complex_val-pair, visit_complex_val-imaginary,
}
use xevxml.RoundTrip.Literals.{
  visit_numeric-attributes, visit_bool_val-attributes, visit_char-attributes,
  visit_string_val-attributes,
}
use xevxml.RoundTrip.Classes.{
  visit_unary_mode-written, visit_actual_argument-written, visit_cast-written,
  visit_label_ref-written,
}
use xevxml.RoundTrip.Symbols.{
  visit_user_defined_binary-written, visit_var_ref-written, visit_function_ref-written,
}
use xevxml.RoundTrip.Initializers.{
  visit_aggregate_initializer-written, visit_assign_initializer-written,
  visit_constructor_initializer-written,
}
use xevxml.RoundTrip.Assembler.{first-opt, visit_asm_op-written}
use xevxml.RoundTrip.Readable.{IsOriginal}

-- Expressions whose children are all read in the same scopes.
abbrev pub HasScopes : Exp → Type 0
HasScopes (dot_exp l r) = ⊥
HasScopes (arrow_exp l r) = ⊥
HasScopes e = Unit

leaf-operands : (e : Exp) → IsLeaf e → operands e ≡ []
unfolding operands
leaf-operands (numeric_val k v s) h = refl
leaf-operands (bool_val b) h = refl
leaf-operands (character_val k v) h = refl
leaf-operands (string_val s f) h = refl
leaf-operands (function_ref n k) h = refl
leaf-operands (var_ref n) h = refl
leaf-operands _ h = absurd h

module _ {p : Platform} (d : DecodesEntities p) (l : Located) (kids : List Child)
    (st : Scopes) where
  abbrev ResultOf : OptNode → Exp → Type 0
  ResultOf o e =
      visit_variant p (attributes p l o e) kids (exp_variant e) st ≡ ok (build_with o e, st)

  original :
      (o : OptNode) (e : Exp)
      → IsNullOr IsExpression o
      → Visited kids st (opt o)
      → with_original kids e st ≡ ok (build_with o e, st)
  unfolding with_original
  original o e h v = let f = first-opt o h in grind arith

  reread_leaf :
      (o : OptNode) (e : Exp)
      → IsLeaf e
      → Fits p st e
      → IsNullOr IsExpression o
      → Visited kids st (opt o)
      → ResultOf o e
  unfolding visit_variant visit_class exp_variant
  reread_leaf o (numeric_val k v s) i h n vs =
      rw (visit_numeric-attributes d l o kids k v s h) (original o (numeric_val k v s) n vs)
  reread_leaf o (bool_val b) i h n vs =
      rw (visit_bool_val-attributes d l o kids b) (original o (bool_val b) n vs)
  reread_leaf o (character_val k v) i h n vs =
      rw (visit_char-attributes d l o kids k v h) (original o (character_val k v) n vs)
  reread_leaf o (string_val s f) i h n vs =
      rw (visit_string_val-attributes d l o kids s f h) (original o (string_val s f) n vs)
  reread_leaf o (function_ref m k) i h n vs =
      visit_function_ref-written d l o kids st m k h.0 h.1.0 h.1.1 vs ∙ rw (first-opt o n) refl
  reread_leaf o (var_ref m) i h n vs =
      visit_var_ref-written d l o kids st m h.0 h.1 vs ∙ rw (first-opt o n) refl
  reread_leaf o _ i h n vs = absurd i

  reread_operands :
      (e : Exp)
      → l.info.compiler_generated ≡ false
      → HasScopes e
      → Fits p st e
      → Visited kids st (operands e)
      → ResultOf null e
  unfolding visit_variant visit_class exp_variant operands
  reread_operands (binary o a b) g s h v = visit_binary-pair kids st o a b h.0 h.1 v
  reread_operands (unary o e) g s h v = visit_unary-one kids st o e h v
  reread_operands (unary_mode o m e) g s h v =
      visit_unary_mode-written d l null kids st o m e h.0 h.1 v
  reread_operands (numeric_val k n t) g s h v = reread_leaf null (numeric_val k n t) tt h tt v
  reread_operands (bool_val b) g s h v = reread_leaf null (bool_val b) tt h tt v
  reread_operands (character_val k n) g s h v = reread_leaf null (character_val k n) tt h tt v
  reread_operands (string_val t f) g s h v = reread_leaf null (string_val t f) tt h tt v
  reread_operands (complex_val null null) g s h v = absurd h
  reread_operands (complex_val (node r) null) g s h v = absurd h
  reread_operands (complex_val null (node i)) g s h v = visit_complex_val-imaginary kids st i h v
  reread_operands (complex_val (node r) (node i)) g s h v =
      visit_complex_val-pair kids st r i h.0 h.1 v
  reread_operands (actual_argument n e) g s h v =
      visit_actual_argument-written d l null kids st n e h.0 h.1 v
  reread_operands (aggregate_initializer b e t) g s h v =
      visit_aggregate_initializer-written d l null kids st b e t h.0 h.1 v
  reread_operands (asm_op a e) g s h v = visit_asm_op-written d l null a e kids st h.0 h.1 v
  reread_operands (assign_initializer b e) g s h v =
      visit_assign_initializer-written d l null kids st b e h v
  reread_operands asterisk_shape g s h v = refl
  reread_operands colon_shape g s h v = refl
  reread_operands null_expression g s h v = refl
  reread_operands (cast_exp c e t) g s h v =
      visit_cast-written d l null kids st c e t g h.0 h.1.0 h.1.1 v
  reread_operands (conditional c t f) g s h v =
      visit_conditional-three kids st c t f h.0 h.1.0 h.1.1 v
  reread_operands (constructor_initializer f e t) g s h v =
      visit_constructor_initializer-written d l null kids st f e t h.0 h.1 v
  reread_operands (designated_initializer e i) g s h v =
      visit_designated_initializer-pair kids st e i h.0 h.1 v
  reread_operands (dot_exp a b) g s h v = absurd s
  reread_operands (arrow_exp a b) g s h v = absurd s
  reread_operands (expr_list ns) g s h v = visit_expr_list-All kids st ns h v
  reread_operands (function_call f e) g s h v =
      visit_function_call-applied kids st f e h.0 h.1.0 h.1.1 v
  reread_operands (function_ref n k) g s h v = reread_leaf null (function_ref n k) tt h tt v
  reread_operands (implied_do i a c e) g s h v =
      visit_implied_do-four kids st i a c e h.0 h.1.0 h.1.1.0 h.1.1.1 v
  reread_operands (label_ref t n) g s h v =
      visit_label_ref-written d l null kids st t n h.0 h.1.0 h.1.1
  reread_operands (pointer_deref e t) g s h v = visit_pointer_deref-typed kids st e t h.0 h.1 v
  reread_operands (size_of_type t) g s h v = visit_size_of-type kids st t h v
  reread_operands (size_of_exp e) g s h v = visit_size_of-expression kids st e h v
  reread_operands (subscript a u e) g s h v = visit_subscript-three kids st a u e h.0 h.1.0 h.1.1 v
  reread_operands (var_arg_copy a b) g s h v = visit_var_arg_copy-pair kids st a b h.0 h.1 v
  reread_operands (var_arg_end e) g s h v = visit_var_arg_end-one kids st e h v
  reread_operands (var_arg e t) g s h v = visit_var_arg-typed kids st e t h.0 h.1 v
  reread_operands (var_arg_start a b) g s h v = visit_var_arg_start-pair kids st a b h.0 h.1 v
  reread_operands (var_ref n) g s h v = reread_leaf null (var_ref n) tt h tt v
  reread_operands (pointer_assign a b) g s h v = visit_pointer_assign-pair kids st a b h.0 h.1 v
  reread_operands (user_defined_binary n a b) g s h v =
      visit_user_defined_binary-written d l null kids st n a b h.1.1.1.0 h.0 h.1.0 h.1.1.0 h.1.1.1.1
        v
  reread_operands (user_defined_unary n e) g s h v = absurd h

  pub reread :
      (o : OptNode) (e : Exp)
      → l.info.compiler_generated ≡ false
      → HasScopes e
      → Fits p st e
      → IsOriginal p e o
      → Visited kids st (operands e ++ opt o)
      → ResultOf o e
  reread null e g s h i v =
      reread_operands e g s h (subst (Visited kids st) (append-nil (operands e)) v)
  reread (node n) e g s h i v =
      reread_leaf (node n) e i.0 h i.1.0
        (subst (λ t. Visited kids st (t ++ n ∷ [])) (leaf-operands e i.0) v)
