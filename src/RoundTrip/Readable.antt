-- ===== src/RoundTrip/Readable.antt =====
-- Trees that the readers make again from what the writer makes of them.
use xevxml.Prelude.{◌≡◌, ◌&&◌, false, none, some, ◌∷◌, All}
use xevxml.Ast.Node.{
  Located, SgNode, Exp, OptNode, Nodes, transformation_info, expr, basic_type, plain_type, binary,
  unary, unary_mode, complex_val, actual_argument, aggregate_initializer, asm_op,
  assign_initializer, cast_exp, conditional, constructor_initializer, designated_initializer,
  dot_exp, arrow_exp, expr_list, function_call, implied_do, pointer_deref, size_of_type,
  size_of_exp, subscript, var_arg_copy, var_arg_end, var_arg, var_arg_start, pointer_assign,
  user_defined_binary, null, node, no_nodes, cons,
}
use xevxml.Platform.{Platform, Scopes}
use xevxml.Write.Attributes.{is_literal}
use xevxml.Write.Visit.{remove_include_directives}
use xevxml.RoundTrip.Fits.{IsExpression, IsNullOr, IsLeaf, Fits}
use xevxml.RoundTrip.Comments.{IsComment}

-- A node as the readers leave it, with comments that survive; include directives inside the construct
-- are not written, and neither are the parentheses around a literal.
abbrev pub IsLocated : Platform → Located → Exp → Type 0
IsLocated p l e =
    (l.info ≡ transformation_info)
    × (All IsComment l.preprocessing
        × ((remove_include_directives p l.preprocessing ≡ l.preprocessing)
            × ((is_literal e && l.need_paren) ≡ false)))

-- Only the classes that keep an original expression tree have one, and Fortran has none.
abbrev pub IsOriginal : Platform → Exp → OptNode → Type 0
IsOriginal p e null = Unit
IsOriginal p e (node n) = IsLeaf e × (IsExpression n × (p.is_fortran ≡ false))

-- The scopes in which the right operand of `.` and `->` stands.
abbrev pub member_scopes : Platform → Scopes → SgNode → Scopes
member_scopes p st l = elim (p.class_scope l) [ none ↦ st | some s ↦ s ∷ st ]

module _ (p : Platform) where
  unfoldable mutual
    pub Readable : Scopes → SgNode → Type 0
    Readable st (expr l o e) =
        IsLocated p l e
        × (Fits p st e × (IsOriginal p e o × (ReadableOpt st o × ReadableParts st e)))
    Readable st (basic_type t k) = IsNullOr IsExpression k × ReadableOpt st k
    Readable st (plain_type t) = Unit

    pub ReadableOpt : Scopes → OptNode → Type 0
    ReadableOpt st null = Unit
    ReadableOpt st (node n) = Readable st n

    pub ReadableNodes : Scopes → Nodes → Type 0
    ReadableNodes st no_nodes = Unit
    ReadableNodes st (cons n ns) = Readable st n × ReadableNodes st ns

    pub ReadableParts : Scopes → Exp → Type 0
    ReadableParts st (binary o l r) = Readable st l × Readable st r
    ReadableParts st (unary o e) = Readable st e
    ReadableParts st (unary_mode o m e) = Readable st e
    ReadableParts st (complex_val r i) = ReadableOpt st r × ReadableOpt st i
    ReadableParts st (actual_argument n e) = Readable st e
    ReadableParts st (aggregate_initializer b e t) = Readable st e × Readable st t
    ReadableParts st (asm_op a e) = ReadableOpt st e
    ReadableParts st (assign_initializer b e) = Readable st e
    ReadableParts st (cast_exp c e t) = Readable st e × Readable st t
    ReadableParts st (conditional c t f) = Readable st c × (Readable st t × Readable st f)
    ReadableParts st (constructor_initializer f e t) = ReadableOpt st e × ReadableOpt st t
    ReadableParts st (designated_initializer e i) = Readable st e × Readable st i
    ReadableParts st (dot_exp l r) = Readable st l × Readable (member_scopes p st l) r
    ReadableParts st (arrow_exp l r) = Readable st l × Readable (member_scopes p st l) r
    ReadableParts st (expr_list ns) = ReadableNodes st ns
    ReadableParts st (function_call f e) = Readable st f × Readable st e
    ReadableParts st (implied_do i l c e) =
        Readable st i × (Readable st l × (Readable st c × Readable st e))
    ReadableParts st (pointer_deref e t) = Readable st e × Readable st t
    ReadableParts st (size_of_type t) = Readable st t
    ReadableParts st (size_of_exp e) = Readable st e
    ReadableParts st (subscript l u e) = Readable st l × (Readable st u × Readable st e)
    ReadableParts st (var_arg_copy l r) = Readable st l × Readable st r
    ReadableParts st (var_arg_end e) = Readable st e
    ReadableParts st (var_arg e t) = Readable st e × Readable st t
    ReadableParts st (var_arg_start l r) = Readable st l × Readable st r
    ReadableParts st (pointer_assign l r) = Readable st l × Readable st r
    ReadableParts st (user_defined_binary n l r) = Readable st l × Readable st r
    ReadableParts st _ = Unit
