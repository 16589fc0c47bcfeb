-- ===== src/Write/Visit.antt =====
-- `XevSageVisitor::visit`: which nodes are written, and how an element is put together.
use xevxml.Prelude.{
  ℕ, suc, String, Bool, true, false, not, ◌&&◌, ◌||◌, List, [], ◌∷◌, ◌++◌, ltb, if◌then◌else◌,
}
use xevxml.Stream.{print_int}
use xevxml.Entity.{str_to_entity}
use xevxml.Xml.{Attrs, Stream, start_tag, empty_tag, end_tag, chars, indent, newline}
use xevxml.Ast.Kinds.{basic, plain}
use xevxml.Ast.Node.{
  is_null, FileInfo, PreprocessingInfo, Located, SgNode, Exp, OptNode, Nodes, exp_variant, expr,
  basic_type, plain_type, binary, unary, unary_mode, complex_val, actual_argument,
  aggregate_initializer, asm_op, assign_initializer, cast_exp, conditional, constructor_initializer,
  designated_initializer, dot_exp, arrow_exp, expr_list, function_call, implied_do, pointer_deref,
  size_of_type, size_of_exp, subscript, var_arg_copy, var_arg_end, var_arg, var_arg_start,
  pointer_assign, user_defined_binary, user_defined_unary, null, node, no_nodes, cons,
}
use xevxml.Ast.Names.{class_name}
use xevxml.Platform.{Platform}
use xevxml.Write.Attributes.{attributes, same_int}

-- The slots of `get_numberOfTraversalSuccessors`; an operand that is NULL has one too.
unfoldable pub successor_count : Exp → ℕ
successor_count (binary o l r) = 2
successor_count (unary o e) = 1
successor_count (unary_mode o m e) = 1
successor_count (complex_val r i) = 2
successor_count (actual_argument n e) = 1
successor_count (aggregate_initializer b e t) = 1
successor_count (asm_op a e) = 1
successor_count (assign_initializer b e) = 1
successor_count (cast_exp c e t) = 1
successor_count (conditional c t f) = 3
successor_count (constructor_initializer f e t) = 1
successor_count (designated_initializer e i) = 2
successor_count (dot_exp l r) = 2
successor_count (arrow_exp l r) = 2
successor_count (expr_list no_nodes) = 0
successor_count (expr_list (cons n ns)) = 1
successor_count (function_call f e) = 2
successor_count (implied_do i l s e) = 4
successor_count (pointer_deref e t) = 1
successor_count (size_of_type t) = 1
successor_count (size_of_exp e) = 1
successor_count (subscript l u s) = 3
successor_count (var_arg_copy l r) = 2
successor_count (var_arg_end e) = 1
successor_count (var_arg e t) = 1
successor_count (var_arg_start l r) = 2
successor_count (pointer_assign l r) = 2
successor_count (user_defined_binary n l r) = 2
successor_count (user_defined_unary n e) = 1
successor_count _ = 0

abbrev pub is_nil : List PreprocessingInfo → Bool
is_nil [] = true
is_nil (i ∷ is) = false

-- `removeIncludeDirectives`: the include directives inside the construct are erased.
unfoldable pub remove_include_directives :
    Platform → List PreprocessingInfo → List PreprocessingInfo
remove_include_directives p [] = []
remove_include_directives p (i ∷ is) =
    let rest = remove_include_directives p is in
    if p.is_within i && same_int i.directive p.include_directive then rest else i ∷ rest

-- `writePreprocessingInfo`
unfoldable pub write_infos : List PreprocessingInfo → Stream
write_infos [] = []
write_infos (i ∷ is) =
    start_tag "PreprocessingInfo"
      (("pos", print_int i.position) ∷ ("type", print_int i.directive) ∷ [])
    ∷ chars (str_to_entity i.string)
    ∷ end_tag "PreprocessingInfo"
    ∷ newline
    ∷ write_infos is

-- An element, with `hasInode`'s answer and what stands inside.
unfoldable pub write_element : ℕ → String → Attrs → Bool → Stream → Stream
write_element d name atts inode body =
    if inode
    then indent d ∷ start_tag name atts ∷ newline ∷ (body ++ indent d ∷ end_tag name ∷ newline ∷ [])
    else indent d ∷ empty_tag name atts ∷ newline ∷ []

-- `inodeSg…`: what a class writes behind its successors, from the streams of its type and of the
-- original expression tree.
unfoldable pub inode : Exp → Stream → Stream → Stream
inode (unary o e) t o' = []
inode (unary_mode o m e) t o' = []
inode (aggregate_initializer b e x) t o' = o' ++ t
inode (cast_exp c e x) t o' = t ++ o'
inode (constructor_initializer f e x) t o' = t ++ o'
inode (pointer_deref e x) t o' = t ++ o'
inode (size_of_type x) t o' = t
inode (size_of_exp e) t o' = t
inode (var_arg e x) t o' = t
inode (user_defined_binary n l r) t o' = []
inode (user_defined_unary n e) t o' = []
inode e t o' = o'

-- The nodes of the same file, and those that stand for code (`isInSameFile`). The flag says that the
-- parent is missing, or the global scope, or a namespace.
unfoldable pub is_in_same_file : Bool → Bool → FileInfo → Bool
is_in_same_file fortran outermost i =
    let generated =
      not i.frontend_specific
      && (i.compiler_generated || (i.transformation || i.output_in_code_generation)) in
    let code = not fortran && not outermost in
    let right_file = i.same_file || (fortran && i.in_cpp_file) in generated || (right_file || code)

module _ (p : Platform) where
  -- `hasInode`, for an expression
  unfoldable pub has_inode : Located → OptNode → Exp → Bool
  has_inode l o e =
      ltb 0 (successor_count e)
      || (not (is_nil l.preprocessing)
          || ((not (is_null o) && not p.is_fortran) || elim e [
            | aggregate_initializer b x t ↦ true
            | pointer_deref x t ↦ true
            | size_of_type t ↦ true
            | size_of_exp x ↦ true
            | var_arg x t ↦ true
            | _ ↦ false
          ]))

  unfoldable mutual
    pub write : Bool → ℕ → Bool → SgNode → Stream
    write skip d outermost (expr l o e) =
        let successors = write_successors skip (suc d) e in
        let skipped = write_successors skip d e in
        let types = write_types skip (suc d) e in
        let original = write_opt skip (suc d) o in
        let body =
          successors
          ++ (inode e types original
              ++ write_infos (remove_include_directives p l.preprocessing)) in
        let whole =
          write_element d (class_name (exp_variant e)) (attributes p l o e) (has_inode l o e)
            body in
        let chosen = if skip && l.info.compiler_generated then skipped else whole in
        if is_in_same_file p.is_fortran outermost l.info then chosen else []
    write skip d outermost (basic_type t k) =
        let kind = write_opt skip (suc d) k in
        write_element d (class_name (basic t)) [] (not (is_null k)) kind
    write skip d outermost (plain_type t) = write_element d (class_name (plain t)) [] false []

    -- `visitSuccessors`
    pub write_successors : Bool → ℕ → Exp → Stream
    write_successors s d (binary o l r) = write s d false l ++ write s d false r
    write_successors s d (unary o e) = write s d false e
    write_successors s d (unary_mode o m e) = write s d false e
    write_successors s d (complex_val r i) = write_opt s d r ++ write_opt s d i
    write_successors s d (actual_argument n e) = write s d false e
    write_successors s d (aggregate_initializer b e t) = write s d false e
    write_successors s d (asm_op a e) = write_opt s d e
    write_successors s d (assign_initializer b e) = write s d false e
    write_successors s d (cast_exp c e t) = write s d false e
    write_successors s d (conditional c t f) =
        write s d false c ++ (write s d false t ++ write s d false f)
    write_successors s d (constructor_initializer f e t) = write_opt s d e
    write_successors s d (designated_initializer e i) = write s d false e ++ write s d false i
    write_successors s d (dot_exp l r) = write s d false l ++ write s d false r
    write_successors s d (arrow_exp l r) = write s d false l ++ write s d false r
    write_successors s d (expr_list ns) = write_nodes s d ns
    write_successors s d (function_call f e) = write s d false f ++ write s d false e
    write_successors s d (implied_do i l c e) =
        write s d false i ++ (write s d false l ++ (write s d false c ++ write s d false e))
    write_successors s d (pointer_deref e t) = write s d false e
    write_successors s d (size_of_exp e) = write s d false e
    write_successors s d (subscript l u e) =
        write s d false l ++ (write s d false u ++ write s d false e)
    write_successors s d (var_arg_copy l r) = write s d false l ++ write s d false r
    write_successors s d (var_arg_end e) = write s d false e
    write_successors s d (var_arg e t) = write s d false e
    write_successors s d (var_arg_start l r) = write s d false l ++ write s d false r
    write_successors s d (pointer_assign l r) = write s d false l ++ write s d false r
    write_successors s d (user_defined_binary n l r) = write s d false l ++ write s d false r
    write_successors s d (user_defined_unary n e) = write s d false e
    write_successors s d _ = []

    -- The type that an `inodeSg…` visits.
    pub write_types : Bool → ℕ → Exp → Stream
    write_types s d (aggregate_initializer b e t) = write s d false t
    write_types s d (cast_exp c e t) = write s d false t
    write_types s d (constructor_initializer f e t) = write_opt s d t
    write_types s d (pointer_deref e t) = write s d false t
    write_types s d (size_of_type t) = write s d false t
    write_types s d (var_arg e t) = write s d false t
    write_types s d _ = []

    pub write_opt : Bool → ℕ → OptNode → Stream
    write_opt s d null = []
    write_opt s d (node n) = write s d false n

    pub write_nodes : Bool → ℕ → Nodes → Stream
    write_nodes s d no_nodes = []
    write_nodes s d (cons n ns) = write s d false n ++ write_nodes s d ns
