-- ===== src/Write/WellFormed.antt =====
-- What stands on the writer's stream is well-formed markup.
use xevxml.Prelude.{
  ℕ, suc, String, ◌≡◌, refl, ap, ◌∙◌, Bool, true, false, not, ◌&&◌, List, [], ◌∷◌, ◌++◌,
  append_assoc, append-nil, if◌then◌else◌,
}
use xevxml.Xml.{
  Doms, Attrs, Stream, tags, doms_tags, append_doms, element, no_doms, dom, start_tag, empty_tag,
  end_tag, chars, indent, newline,
}
use xevxml.Ast.Node.{
  is_null, PreprocessingInfo, SgNode, Exp, OptNode, Nodes, expr, basic_type, plain_type, binary,
  unary, unary_mode, complex_val, actual_argument, aggregate_initializer, asm_op,
  assign_initializer, cast_exp, conditional, constructor_initializer, designated_initializer,
  dot_exp, arrow_exp, expr_list, function_call, implied_do, pointer_deref, size_of_type,
  size_of_exp, subscript, var_arg_copy, var_arg_end, var_arg, var_arg_start, pointer_assign,
  user_defined_binary, user_defined_unary, null, node, no_nodes, cons,
}
use xevxml.Platform.{Platform}
use xevxml.Write.Visit.{
  remove_include_directives, write_infos, write_element, inode, is_in_same_file, has_inode, write,
  write_successors, write_types, write_opt, write_nodes,
}
use xevxml.Write.Document.{
  ◌+++◌, one, doc_infos, doc_inode, doc, doc_successors, doc_types, doc_opt, doc_nodes,
}

tags-append : (a b : Stream) → tags (a ++ b) ≡ tags a ++ tags b
unfolding tags
tags-append [] b = refl
tags-append (indent n ∷ a) b = tags-append a b
tags-append (newline ∷ a) b = tags-append a b
tags-append (start_tag n x ∷ a) b = ap (λ t. start_tag n x ∷ t) (tags-append a b)
tags-append (empty_tag n x ∷ a) b = ap (λ t. start_tag n x ∷ end_tag n ∷ t) (tags-append a b)
tags-append (end_tag n ∷ a) b = ap (λ t. end_tag n ∷ t) (tags-append a b)
tags-append (chars x ∷ a) b = ap (λ t. chars x ∷ t) (tags-append a b)

doms_tags-append : (a b : Doms) → doms_tags (a +++ b) ≡ doms_tags a ++ doms_tags b
unfolding doms_tags append_doms
doms_tags-append no_doms b = refl
doms_tags-append (dom d a) b = simp (doms_tags-append a b, append_assoc)

-- The stream is the markup of the forest.
pub record Spells (s : Stream) (ds : Doms) : Type 0 where
  pub at : tags s ≡ doms_tags ds

pub Spells-nil : Spells [] no_doms
unfolding tags doms_tags
Spells-nil = record { at = refl }

module _ {x y : Doms} (a b : Stream) where
  pub Spells-append : Spells a x → Spells b y → Spells (a ++ b) (x +++ y)
  Spells-append h k = record { at = simp (tags-append, doms_tags-append, h.at, k.at) }

pub Spells-infos : (is : List PreprocessingInfo) → Spells (write_infos is) (doc_infos is)
unfolding tags doms_tags write_infos doc_infos
Spells-infos [] = record { at = refl }
Spells-infos (i ∷ is) = record { at = rw ((Spells-infos is).at) }

module _ (d : ℕ) (name : String) (body : Stream) where
  end_tags : tags (body ++ indent d ∷ end_tag name ∷ newline ∷ []) ≡ tags body ++ end_tag name ∷ []
  end_tags = tags-append body _ ∙ (unfold tags in refl)

module _ {inside : Doms} (d : ℕ) (name : String) (a : Attrs) (body : Stream) where
  pub Spells-element :
      (b : Bool)
      → Spells body inside
      → Spells
          (write_element d name a b body)
          (one (element name a (if b then inside else no_doms)))
  Spells-element true h = record {
    at =
        unfold write_element tags doms_tags in
        ap (λ t. start_tag name a ∷ t) (rw (end_tags d name body, h.at, append-nil));
  }
  Spells-element false h = record { at = unfold write_element tags doms_tags in refl }

module _ {x y : Doms} (t o : Stream) (h : Spells t x) (k : Spells o y) where
  Spells-inode : (e : Exp) → Spells (inode e t o) (doc_inode e x y)
  unfolding inode doc_inode
  Spells-inode (unary p e) = Spells-nil
  Spells-inode (unary_mode p m e) = Spells-nil
  Spells-inode (aggregate_initializer b e z) = Spells-append o t k h
  Spells-inode (cast_exp c e z) = Spells-append t o h k
  Spells-inode (constructor_initializer f e z) = Spells-append t o h k
  Spells-inode (pointer_deref e z) = Spells-append t o h k
  Spells-inode (size_of_type z) = h
  Spells-inode (size_of_exp e) = h
  Spells-inode (var_arg e z) = h
  Spells-inode (user_defined_binary n l r) = Spells-nil
  Spells-inode (user_defined_unary n e) = Spells-nil
  Spells-inode _ = k

pub Spells-if :
    (b : Bool) {s t : Stream} {x y : Doms}
    → Spells s x
    → Spells t y
    → Spells (if b then s else t) (if b then x else y)
Spells-if true h k = h
Spells-if false h k = k

module _ (p : Platform) (s : Bool) where
  mutual
    unfolding write doc

    pub write-Spells :
        (d : ℕ) (outermost : Bool) (n : SgNode)
        → Spells (write p s d outermost n) (doc p s outermost n)
    write-Spells d g (expr l o e) =
        let inside = Spells-append _ _ (successors-Spells (suc d) e) (
          Spells-append _ _ (Spells-inode _ _ (types-Spells (suc d) e) (opt-Spells (suc d) o) e)
            (Spells-infos (remove_include_directives p l.preprocessing))) in
        Spells-if (is_in_same_file p.is_fortran g l.info)
          (Spells-if (s && l.info.compiler_generated) (successors-Spells d e)
            (Spells-element d _ _ _ (has_inode p l o e) inside))
          Spells-nil
    write-Spells d g (basic_type t k) =
        Spells-element d _ _ _ (not (is_null k)) (opt-Spells (suc d) k)
    write-Spells d g (plain_type t) = Spells-element d _ _ [] false Spells-nil

    successors-Spells : (d : ℕ) (e : Exp) → Spells (write_successors p s d e) (doc_successors p s e)
    successors-Spells d (binary o l r) =
        Spells-append _ _ (write-Spells d false l) (write-Spells d false r)
    successors-Spells d (unary o e) = write-Spells d false e
    successors-Spells d (unary_mode o m e) = write-Spells d false e
    successors-Spells d (complex_val r i) = Spells-append _ _ (opt-Spells d r) (opt-Spells d i)
    successors-Spells d (actual_argument n e) = write-Spells d false e
    successors-Spells d (aggregate_initializer b e t) = write-Spells d false e
    successors-Spells d (asm_op a e) = opt-Spells d e
    successors-Spells d (assign_initializer b e) = write-Spells d false e
    successors-Spells d (cast_exp c e t) = write-Spells d false e
    successors-Spells d (conditional c t f) =
        Spells-append _ _ (write-Spells d false c)
          (Spells-append _ _ (write-Spells d false t) (write-Spells d false f))
    successors-Spells d (constructor_initializer f e t) = opt-Spells d e
    successors-Spells d (designated_initializer e i) =
        Spells-append _ _ (write-Spells d false e) (write-Spells d false i)
    successors-Spells d (dot_exp l r) =
        Spells-append _ _ (write-Spells d false l) (write-Spells d false r)
    successors-Spells d (arrow_exp l r) =
        Spells-append _ _ (write-Spells d false l) (write-Spells d false r)
    successors-Spells d (expr_list ns) = nodes-Spells d ns
    successors-Spells d (function_call f e) =
        Spells-append _ _ (write-Spells d false f) (write-Spells d false e)
    successors-Spells d (implied_do i l c e) = Spells-append _ _ (write-Spells d false i) (
        Spells-append _ _ (write-Spells d false l)
          (Spells-append _ _ (write-Spells d false c) (write-Spells d false e)))
    successors-Spells d (pointer_deref e t) = write-Spells d false e
    successors-Spells d (size_of_exp e) = write-Spells d false e
    successors-Spells d (subscript l u e) =
        Spells-append _ _ (write-Spells d false l)
          (Spells-append _ _ (write-Spells d false u) (write-Spells d false e))
    successors-Spells d (var_arg_copy l r) =
        Spells-append _ _ (write-Spells d false l) (write-Spells d false r)
    successors-Spells d (var_arg_end e) = write-Spells d false e
    successors-Spells d (var_arg e t) = write-Spells d false e
    successors-Spells d (var_arg_start l r) =
        Spells-append _ _ (write-Spells d false l) (write-Spells d false r)
    successors-Spells d (pointer_assign l r) =
        Spells-append _ _ (write-Spells d false l) (write-Spells d false r)
    successors-Spells d (user_defined_binary n l r) =
        Spells-append _ _ (write-Spells d false l) (write-Spells d false r)
    successors-Spells d (user_defined_unary n e) = write-Spells d false e
    successors-Spells d _ = Spells-nil

    types-Spells : (d : ℕ) (e : Exp) → Spells (write_types p s d e) (doc_types p s e)
    types-Spells d (aggregate_initializer b e t) = write-Spells d false t
    types-Spells d (cast_exp c e t) = write-Spells d false t
    types-Spells d (constructor_initializer f e t) = opt-Spells d t
    types-Spells d (pointer_deref e t) = write-Spells d false t
    types-Spells d (size_of_type t) = write-Spells d false t
    types-Spells d (var_arg e t) = write-Spells d false t
    types-Spells d _ = Spells-nil

    pub opt-Spells : (d : ℕ) (o : OptNode) → Spells (write_opt p s d o) (doc_opt p s o)
    opt-Spells d null = Spells-nil
    opt-Spells d (node n) = write-Spells d false n

    nodes-Spells : (d : ℕ) (ns : Nodes) → Spells (write_nodes p s d ns) (doc_nodes p s ns)
    nodes-Spells d no_nodes = Spells-nil
    nodes-Spells d (cons n ns) = Spells-append _ _ (write-Spells d false n) (nodes-Spells d ns)

-- Whatever the options and the depth, what the writer puts on its stream for a node is well-formed
-- markup: without layout it is the sequence of tags of the forest `doc`, so that every tag is closed
-- and elements are nested.
pub tags-write :
    (p : Platform) (skip : Bool) (d : ℕ) (outermost : Bool) (n : SgNode)
    → tags (write p skip d outermost n) ≡ doms_tags (doc p skip outermost n)
tags-write p skip d outermost n = (write-Spells p skip d outermost n).at
