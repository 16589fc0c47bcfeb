-- ===== src/Write/Document.antt =====
-- The forest of elements that the writer's calls describe, without the order of its output
-- operations: one element for a node that is written, and its successors in place of a node that is
-- skipped.
use xevxml.Prelude.{Bool, false, not, ◌&&◌, List, [], ◌∷◌, if◌then◌else◌}
use xevxml.Stream.{print_int}
use xevxml.Entity.{str_to_entity}
use xevxml.Xml.{Dom, Doms, append_doms, element, content, no_doms, dom}
use xevxml.Ast.Kinds.{basic, plain}
use xevxml.Ast.Node.{
  is_null, PreprocessingInfo, SgNode, Exp, OptNode, Nodes, exp_variant, expr, basic_type,
  plain_type, binary, unary, unary_mode, complex_val, actual_argument, aggregate_initializer,
  asm_op, assign_initializer, cast_exp, conditional, constructor_initializer,
  designated_initializer, dot_exp, arrow_exp, expr_list, function_call, implied_do, pointer_deref,
  size_of_type, size_of_exp, subscript, var_arg_copy, var_arg_end, var_arg, var_arg_start,
  pointer_assign, user_defined_binary, user_defined_unary, null, node, no_nodes, cons,
}
use xevxml.Ast.Names.{class_name}
use xevxml.Platform.{Platform}
use xevxml.Write.Attributes.{attributes}
use xevxml.Write.Visit.{remove_include_directives, is_in_same_file, has_inode}

infixr 65 ◌+++◌
abbrev pub ◌+++◌ : Doms → Doms → Doms
a +++ b = append_doms a b

abbrev pub one : Dom → Doms
one d = dom d no_doms

unfoldable pub doc_infos : List PreprocessingInfo → Doms
doc_infos [] = no_doms
doc_infos (i ∷ is) =
    dom
      (element "PreprocessingInfo"
        (("pos", print_int i.position) ∷ ("type", print_int i.directive) ∷ [])
        (one (content (str_to_entity i.string))))
      (doc_infos is)

unfoldable pub doc_inode : Exp → Doms → Doms → Doms
doc_inode (unary o e) t o' = no_doms
doc_inode (unary_mode o m e) t o' = no_doms
doc_inode (aggregate_initializer b e x) t o' = o' +++ t
doc_inode (cast_exp c e x) t o' = t +++ o'
doc_inode (constructor_initializer f e x) t o' = t +++ o'
doc_inode (pointer_deref e x) t o' = t +++ o'
doc_inode (size_of_type x) t o' = t
doc_inode (size_of_exp e) t o' = t
doc_inode (var_arg e x) t o' = t
doc_inode (user_defined_binary n l r) t o' = no_doms
doc_inode (user_defined_unary n e) t o' = no_doms
doc_inode e t o' = o'

module _ (p : Platform) where
  -- The elements that stand for a node: one, if it is written at all.
  unfoldable mutual
    pub doc : Bool → Bool → SgNode → Doms
    doc s outermost (expr l o e) =
        let skipped = doc_successors s e in
        let inside =
          skipped
          +++ (doc_inode e (doc_types s e) (doc_opt s o)
              +++ doc_infos (remove_include_directives p l.preprocessing)) in
        let whole = one (
          element (class_name (exp_variant e)) (attributes p l o e)
            (if has_inode p l o e then inside else no_doms)) in
        let chosen = if s && l.info.compiler_generated then skipped else whole in
        if is_in_same_file p.is_fortran outermost l.info then chosen else no_doms
    doc s outermost (basic_type t k) =
        one (element (class_name (basic t)) [] (if not (is_null k) then doc_opt s k else no_doms))
    doc s outermost (plain_type t) = one (element (class_name (plain t)) [] no_doms)

    pub doc_successors : Bool → Exp → Doms
    doc_successors s (binary o l r) = doc s false l +++ doc s false r
    doc_successors s (unary o e) = doc s false e
    doc_successors s (unary_mode o m e) = doc s false e
    doc_successors s (complex_val r i) = doc_opt s r +++ doc_opt s i
    doc_successors s (actual_argument n e) = doc s false e
    doc_successors s (aggregate_initializer b e t) = doc s false e
    doc_successors s (asm_op a e) = doc_opt s e
    doc_successors s (assign_initializer b e) = doc s false e
    doc_successors s (cast_exp c e t) = doc s false e
    doc_successors s (conditional c t f) = doc s false c +++ (doc s false t +++ doc s false f)
    doc_successors s (constructor_initializer f e t) = doc_opt s e
    doc_successors s (designated_initializer e i) = doc s false e +++ doc s false i
    doc_successors s (dot_exp l r) = doc s false l +++ doc s false r
    doc_successors s (arrow_exp l r) = doc s false l +++ doc s false r
    doc_successors s (expr_list ns) = doc_nodes s ns
    doc_successors s (function_call f e) = doc s false f +++ doc s false e
    doc_successors s (implied_do i l c e) =
        doc s false i +++ (doc s false l +++ (doc s false c +++ doc s false e))
    doc_successors s (pointer_deref e t) = doc s false e
    doc_successors s (size_of_exp e) = doc s false e
    doc_successors s (subscript l u e) = doc s false l +++ (doc s false u +++ doc s false e)
    doc_successors s (var_arg_copy l r) = doc s false l +++ doc s false r
    doc_successors s (var_arg_end e) = doc s false e
    doc_successors s (var_arg e t) = doc s false e
    doc_successors s (var_arg_start l r) = doc s false l +++ doc s false r
    doc_successors s (pointer_assign l r) = doc s false l +++ doc s false r
    doc_successors s (user_defined_binary n l r) = doc s false l +++ doc s false r
    doc_successors s (user_defined_unary n e) = doc s false e
    doc_successors s _ = no_doms

    pub doc_types : Bool → Exp → Doms
    doc_types s (aggregate_initializer b e t) = doc s false t
    doc_types s (cast_exp c e t) = doc s false t
    doc_types s (constructor_initializer f e t) = doc_opt s t
    doc_types s (pointer_deref e t) = doc s false t
    doc_types s (size_of_type t) = doc s false t
    doc_types s (var_arg e t) = doc s false t
    doc_types s _ = no_doms

    pub doc_opt : Bool → OptNode → Doms
    doc_opt s null = no_doms
    doc_opt s (node n) = doc s false n

    pub doc_nodes : Bool → Nodes → Doms
    doc_nodes s no_nodes = no_doms
    doc_nodes s (cons n ns) = doc s false n +++ doc_nodes s ns
