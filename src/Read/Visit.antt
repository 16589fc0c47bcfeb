-- ===== src/Read/Visit.antt =====
-- `XevXmlVisitor::visit`: the choice of a visitor by the element's name, and the checks that follow it
-- (src/xml2rose.cpp; `checkPreprocInfo` and `visitPreprocessingInfo` of src/preproc.cpp).
use text.Mathlib.Text.{◌==◌ as str_eq}
use xevxml.Prelude.{String, true, false, none, some, List, [], ◌∷◌, ◌++◌, if◌then◌else◌, Bytes}
use xevxml.Result.{Result, bind, missing_attr, unknown_node, null_dereference, ok, err}
use xevxml.Stream.{is_set}
use xevxml.Entity.{entity_to_str}
use xevxml.Xml.{Dom, Doms, Attrs, get_int, element, content, no_doms, dom}
use xevxml.Ast.Kinds.{
  BasicType, ExpClass, Variant, assign_initializer, dot_exp, arrow_exp, null_expression, bop, uop,
  numeric, character, basic, plain, class,
}
use xevxml.Ast.Names.{variant_of}
use xevxml.Ast.Node.{
  FileInfo, PreprocessingInfo, SgNode, Exp, OptNode, transformation_info, is_expression, expr,
  basic_type, plain_type, assign_initializer, asterisk_shape, colon_shape, null_expression, dot_exp,
  arrow_exp, null, node,
}
use xevxml.Platform.{Platform}
use xevxml.Read.Monad.{Reader, pure, fatal, ◌>>=◌, Child}
use xevxml.Read.Slots.{build}
use xevxml.Read.Operands.{
  visit_binary, visit_unary, visit_conditional, visit_subscript, visit_var_arg_copy,
  visit_var_arg_start, visit_var_arg_end, visit_var_arg, visit_pointer_deref, visit_pointer_assign,
  visit_expr_list, visit_size_of, visit_function_call, visit_implied_do,
  visit_designated_initializer,
}
use xevxml.Read.Values.{
  visit_numeric, visit_bool_val, visit_char, visit_string_val, visit_complex_val,
}
use xevxml.Read.Expressions.{
  flag, visit_unary_mode, visit_actual_argument, visit_aggregate_initializer, visit_asm_op,
  visit_assign_initializer, visit_cast, visit_constructor_initializer, visit_function_ref,
  visit_var_ref, visit_label_ref, visit_user_defined_binary, visit_user_defined_unary, visit_member,
}

-- `VISIT_TYPE`: what the last child is decides whether there is a kind.
unfoldable pub visit_kind : List Child → OptNode → Reader OptNode
visit_kind [] k = pure k
visit_kind (c ∷ cs) k = c >>= λ n.
    visit_kind cs (elim n [ none ↦ null | some e ↦ if is_expression e then node e else null ])

unfoldable pub visit_basic_type : BasicType → List Child → Reader SgNode
visit_basic_type t kids = do k ← visit_kind kids null; pure (basic_type t k)

module _ (p : Platform) where
  -- The first child of a PreprocessingInfo element is its text; another element has no text.
  unfoldable pub text_of : Doms → Result Bytes
  text_of no_doms = ok []
  text_of (dom (content b) ds) = ok (p.decode b)
  text_of (dom (element n a e) ds) = err null_dereference

  -- `visitPreprocessingInfo`
  unfoldable pub read_info : Attrs → Doms → Result PreprocessingInfo
  read_info atts ds = elim (get_int p.decode p.tmp "pos" atts) [
    | none ↦ err (missing_attr "PreprocessingInfo" "pos")
    | some pval ↦ elim (get_int p.decode p.tmp "type" atts) [
      | none ↦ err (missing_attr "PreprocessingInfo" "type")
      | some tval ↦
          bind (text_of ds)
            λ text. ok (record { position = pval; directive = tval; string = entity_to_str text })
    ]
  ]

  -- `checkPreprocInfo`, for a node that can carry such information
  unfoldable pub read_infos : Doms → Result (List PreprocessingInfo)
  read_infos no_doms = ok []
  read_infos (dom (content b) ds) = read_infos ds
  read_infos (dom (element n a e) ds) =
      let rest = read_infos ds in
      let with_info = bind (read_info a e) λ i. bind rest λ is. ok (i ∷ is) in
      if str_eq n "PreprocessingInfo" then with_info else rest

  -- `checkLocatedNode`: everything that is read counts as a transformation, but what must not be
  -- unparsed.
  unfoldable pub info_of : Attrs → FileInfo
  info_of atts = elim (get_int p.decode p.tmp "unparse" atts) [
    | none ↦ transformation_info
    | some z ↦ if is_set z then transformation_info else record {
      frontend_specific = true;
      compiler_generated = true;
      transformation = false;
      output_in_code_generation = false;
      same_file = false;
      in_cpp_file = false;
    }
  ]

  -- `checkExpression` looks at the attribute `cast` once more.
  unfoldable pub check_cast : Attrs → Exp → Exp
  check_cast atts (assign_initializer b e) = elim (get_int p.decode p.tmp "cast" atts) [
    | none ↦ assign_initializer b e
    | some z ↦ assign_initializer (is_set z) e
  ]
  check_cast atts e = e

  unfoldable pub check_node : Attrs → Doms → SgNode → Result SgNode
  check_node atts ds (expr l o e) = bind (read_infos ds) λ infos. ok (
      expr
        (record {
          need_paren = flag p atts "paren";
          info = info_of atts;
          preprocessing = l.preprocessing ++ infos;
        })
        o (check_cast atts e))
  check_node atts ds (basic_type t k) = ok (basic_type t k)
  check_node atts ds (plain_type t) = ok (plain_type t)

  unfoldable pub visit_class : Attrs → List Child → ExpClass → Reader SgNode
  visit_class atts kids ExpClass.bool_val_exp = visit_bool_val p atts kids
  visit_class atts kids ExpClass.string_val = visit_string_val p atts kids
  visit_class atts kids ExpClass.complex_val = visit_complex_val kids
  visit_class atts kids ExpClass.actual_argument_expression = visit_actual_argument p atts kids
  visit_class atts kids ExpClass.aggregate_initializer = visit_aggregate_initializer p atts kids
  visit_class atts kids ExpClass.asm_op = visit_asm_op p atts kids
  visit_class atts kids ExpClass.assign_initializer = visit_assign_initializer p atts kids
  visit_class atts kids ExpClass.asterisk_shape_exp = pure (build asterisk_shape)
  visit_class atts kids ExpClass.cast_exp = visit_cast p atts kids
  visit_class atts kids ExpClass.colon_shape_exp = pure (build colon_shape)
  visit_class atts kids ExpClass.conditional_exp = visit_conditional kids
  visit_class atts kids ExpClass.constructor_initializer = visit_constructor_initializer p atts kids
  visit_class atts kids ExpClass.designated_initializer = visit_designated_initializer kids
  visit_class atts kids ExpClass.dot_exp = visit_member p "SgDotExp" dot_exp kids
  visit_class atts kids ExpClass.arrow_exp = visit_member p "SgArrowExp" arrow_exp kids
  visit_class atts kids ExpClass.expr_list_exp = visit_expr_list kids
  visit_class atts kids ExpClass.function_call_exp = visit_function_call kids
  visit_class atts kids ExpClass.function_ref_exp = visit_function_ref p atts kids
  visit_class atts kids ExpClass.implied_do = visit_implied_do kids
  visit_class atts kids ExpClass.label_ref_exp = visit_label_ref p atts kids
  visit_class atts kids ExpClass.null_expression = pure (build null_expression)
  visit_class atts kids ExpClass.pointer_deref_exp = visit_pointer_deref kids
  visit_class atts kids ExpClass.size_of_op = visit_size_of kids
  visit_class atts kids ExpClass.subscript_expression = visit_subscript kids
  visit_class atts kids ExpClass.var_arg_copy_op = visit_var_arg_copy kids
  visit_class atts kids ExpClass.var_arg_end_op = visit_var_arg_end kids
  visit_class atts kids ExpClass.var_arg_op = visit_var_arg kids
  visit_class atts kids ExpClass.var_arg_start_op = visit_var_arg_start kids
  visit_class atts kids ExpClass.var_ref_exp = visit_var_ref p atts kids
  visit_class atts kids ExpClass.pointer_assign_op = visit_pointer_assign kids
  visit_class atts kids ExpClass.user_defined_binary_op = visit_user_defined_binary p atts kids
  visit_class atts kids ExpClass.user_defined_unary_op = visit_user_defined_unary p atts kids

  -- The calls `visitSg##x` behind `#define SAGE3(x)`.
  unfoldable pub visit_variant : Attrs → List Child → Variant → Reader SgNode
  visit_variant atts kids (bop o) = visit_binary kids o
  visit_variant atts kids (uop o) = visit_unary kids o
  visit_variant atts kids (Variant.uop_mode o) = visit_unary_mode p atts kids o
  visit_variant atts kids (numeric k) = visit_numeric p atts kids k
  visit_variant atts kids (character k) = visit_char p atts kids k
  visit_variant atts kids (basic t) = visit_basic_type t kids
  visit_variant atts kids (plain t) = pure (plain_type t)
  visit_variant atts kids (class c) = visit_class atts kids c

  -- The element of PreprocessingInfo is no node, and the parent takes care of it.
  unfoldable pub visit_element : String → Attrs → Doms → List Child → Child
  visit_element name atts ds kids = elim (variant_of name) [
    | none ↦ if str_eq name "PreprocessingInfo" then pure none else fatal (unknown_node name)
    | some v ↦ visit_variant atts kids v >>= λ n.
        λ st. elim (check_node atts ds n) [ ok m ↦ ok (some m, st) | err e ↦ err e ]
  ]

  unfoldable mutual
    pub visit : Dom → Child
    visit (element name atts ds) = visit_element name atts ds (visitors ds)
    visit (content b) = pure none

    -- The element nodes among the children.
    pub visitors : Doms → List Child
    visitors no_doms = []
    visitors (dom d ds) = visit_child d (visit d) (visitors ds)

    pub visit_child : Dom → Child → List Child → List Child
    visit_child (element name atts es) c cs = c ∷ cs
    visit_child (content b) c cs = cs
