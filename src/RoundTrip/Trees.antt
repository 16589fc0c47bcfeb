-- ===== src/RoundTrip/Trees.antt =====
-- The two converters together: a readable tree is read back from the elements that are written for it.
use xevxml.Prelude.{ℕ, ◌≡◌, sym, ap, ◌∙◌, subst, Bool, false, some, List, [], ◌∷◌, ◌++◌, append-nil}
use xevxml.Result.{ok}
use xevxml.Ast.Kinds.{
  string_val, complex_val, aggregate_initializer, asm_op, assign_initializer, cast_exp,
  constructor_initializer, designated_initializer, dot_exp, arrow_exp, implied_do, null_expression,
}
use xevxml.Ast.Node.{
  SgNode, Exp, OptNode, Nodes, to_list, opt, expr, basic_type, plain_type, binary, unary,
  unary_mode, numeric_val, bool_val, character_val, string_val, complex_val, actual_argument,
  aggregate_initializer, asm_op, assign_initializer, asterisk_shape, colon_shape, null_expression,
  cast_exp, conditional, constructor_initializer, designated_initializer, dot_exp, arrow_exp,
  expr_list, function_call, function_ref, implied_do, label_ref, pointer_deref, size_of_type,
  size_of_exp, subscript, var_arg_copy, var_arg_end, var_arg, var_arg_start, var_ref,
  pointer_assign, user_defined_binary, user_defined_unary, null, node, no_nodes, cons,
}
use xevxml.Platform.{Platform, Scopes}
use xevxml.Write.Visit.{write}
use xevxml.Write.Document.{◌+++◌, doc_inode, doc, doc_successors, doc_types, doc_opt, doc_nodes}
use xevxml.Write.WellFormed.{tags-write}
use xevxml.Xml.{Dom, Doms, tags, dom_tags, doms_tags, append_doms, element, no_doms}
use xevxml.Read.Visit.{visit}
use xevxml.RoundTrip.Text.{DecodesEntities}
use xevxml.RoundTrip.Fits.{IsLeaf, Fits, operands}
use xevxml.RoundTrip.Children.{Yields, Reads, Yields-none, Yields-append, Yields-node}
use xevxml.RoundTrip.Readable.{member_scopes, Readable, ReadableOpt, ReadableNodes, ReadableParts}
use xevxml.RoundTrip.Reread.{HasScopes}
use xevxml.RoundTrip.Inside.{parts_of}
use xevxml.RoundTrip.Nodes.{Reads-parts, Reads-type, Reads-plain, Reads-kind}
use xevxml.RoundTrip.Members.{Reads-dot, Reads-arrow}

module _ {p : Platform} {st : Scopes} where
  Yields-end : {ds : Doms} {ns : List SgNode} → Yields p st ds ns → Yields p st (ds +++ no_doms) ns
  Yields-end {ns = ns} y = subst (Yields p st _) (append-nil ns) (Yields-append y Yields-none)

  Yields-original :
      (e : Exp) (n : SgNode)
      → IsLeaf e
      → Yields p st (doc p false false n) (n ∷ [])
      → Yields p st (parts_of p (node n) e) (operands e ++ n ∷ [])
  unfolding doc_successors doc_inode doc_opt operands append_doms
  Yields-original (numeric_val k v u) n i y = y
  Yields-original (bool_val b) n i y = y
  Yields-original (character_val k v) n i y = y
  Yields-original (string_val u g) n i y = y
  Yields-original (function_ref m k) n i y = y
  Yields-original (var_ref m) n i y = y
  Yields-original _ n i y = absurd i

module _ {p : Platform} (d : DecodesEntities p) where
  mutual
    unfolding Readable doc_successors doc_inode doc_types doc_opt doc_nodes operands to_list
        append_doms

    pub reads : (st : Scopes) (n : SgNode) → Readable p st n → Reads p st n
    reads st (plain_type t) h = Reads-plain p st t
    reads st (basic_type t null) h = Reads-type p st t
    reads st (basic_type t (node n)) h = Reads-kind p st t n h.0 (reads st n h.1)
    reads st (expr l (node n) (dot_exp a b)) h = absurd h.1.1.0.0
    reads st (expr l (node n) (arrow_exp a b)) h = absurd h.1.1.0.0
    reads st (expr l null (dot_exp a b)) h =
        let k = h.1.1.1.1 in
        Reads-dot d st l a b (reads st a k.0) (reads (member_scopes p st a) b k.1) h.0 h.1.0
    reads st (expr l null (arrow_exp a b)) h =
        let k = h.1.1.1.1 in
        Reads-arrow d st l a b (reads st a k.0) (reads (member_scopes p st a) b k.1) h.0 h.1.0
    reads st (expr l null e) h = Reads-parts d st l null e h.0 tt h.1.0 h.1.1.0 (
        subst (Yields p st (parts_of p null e)) (sym (append-nil (operands e)))
          (parts st e tt h.1.0 h.1.1.1.1))
    reads st (expr l (node n) e) h =
        Reads-parts d st l (node n) e h.0 tt h.1.0 h.1.1.0
          (Yields-original e n h.1.1.0.0 (Yields-node (reads st n h.1.1.1.0)))

    Yields-opt :
        (st : Scopes) (o : OptNode) → ReadableOpt p st o → Yields p st (doc_opt p false o) (opt o)
    Yields-opt st null h = Yields-none
    Yields-opt st (node n) h = Yields-node (reads st n h)

    Yields-nodes :
        (st : Scopes) (ns : Nodes)
        → ReadableNodes p st ns
        → Yields p st (doc_nodes p false ns) (to_list ns)
    Yields-nodes st no_nodes h = Yields-none
    Yields-nodes st (cons n ns) h =
        Yields-append (Yields-node (reads st n h.0)) (Yields-nodes st ns h.1)

    parts :
        (st : Scopes) (e : Exp)
        → HasScopes e
        → Fits p st e
        → ReadableParts p st e
        → Yields p st (parts_of p null e) (operands e)
    parts st (binary o a b) s f h =
        Yields-end (Yields-append (Yields-node (reads st a h.0)) (Yields-node (reads st b h.1)))
    parts st (designated_initializer a b) s f h =
        Yields-end (Yields-append (Yields-node (reads st a h.0)) (Yields-node (reads st b h.1)))
    parts st (function_call a b) s f h =
        Yields-end (Yields-append (Yields-node (reads st a h.0)) (Yields-node (reads st b h.1)))
    parts st (var_arg_copy a b) s f h =
        Yields-end (Yields-append (Yields-node (reads st a h.0)) (Yields-node (reads st b h.1)))
    parts st (var_arg_start a b) s f h =
        Yields-end (Yields-append (Yields-node (reads st a h.0)) (Yields-node (reads st b h.1)))
    parts st (pointer_assign a b) s f h =
        Yields-end (Yields-append (Yields-node (reads st a h.0)) (Yields-node (reads st b h.1)))
    parts st (user_defined_binary n a b) s f h =
        Yields-end (Yields-append (Yields-node (reads st a h.0)) (Yields-node (reads st b h.1)))
    parts st (unary o a) s f h = Yields-end (Yields-node (reads st a h))
    parts st (unary_mode o m a) s f h = Yields-end (Yields-node (reads st a h))
    parts st (actual_argument n a) s f h = Yields-end (Yields-node (reads st a h))
    parts st (assign_initializer b a) s f h = Yields-end (Yields-node (reads st a h))
    parts st (size_of_exp a) s f h = Yields-end (Yields-node (reads st a h))
    parts st (var_arg_end a) s f h = Yields-end (Yields-node (reads st a h))
    parts st (conditional a b c) s f h = Yields-end (
        Yields-append (Yields-node (reads st a h.0))
          (Yields-append (Yields-node (reads st b h.1.0)) (Yields-node (reads st c h.1.1))))
    parts st (subscript a b c) s f h = Yields-end (
        Yields-append (Yields-node (reads st a h.0))
          (Yields-append (Yields-node (reads st b h.1.0)) (Yields-node (reads st c h.1.1))))
    parts st (aggregate_initializer x a b) s f h =
        Yields-append (Yields-node (reads st a h.0)) (Yields-node (reads st b h.1))
    parts st (var_arg a b) s f h =
        Yields-append (Yields-node (reads st a h.0)) (Yields-node (reads st b h.1))
    parts st (cast_exp x a b) s f h =
        Yields-append (Yields-node (reads st a h.0)) (Yields-end (Yields-node (reads st b h.1)))
    parts st (pointer_deref a b) s f h =
        Yields-append (Yields-node (reads st a h.0)) (Yields-end (Yields-node (reads st b h.1)))
    parts st (numeric_val k v u) s f h = Yields-none
    parts st (bool_val b) s f h = Yields-none
    parts st (character_val k v) s f h = Yields-none
    parts st (string_val u g) s f h = Yields-none
    parts st (function_ref n k) s f h = Yields-none
    parts st (label_ref t n) s f h = Yields-none
    parts st (var_ref n) s f h = Yields-none
    parts st asterisk_shape s f h = Yields-none
    parts st colon_shape s f h = Yields-none
    parts st null_expression s f h = Yields-none
    parts st (complex_val r i) s f h =
        Yields-end (Yields-append (Yields-opt st r h.0) (Yields-opt st i h.1))
    parts st (asm_op x e) s f h = Yields-end (Yields-opt st e h)
    parts st (constructor_initializer g e t) s f h =
        Yields-append (Yields-opt st e h.0) (Yields-end (Yields-opt st t h.1))
    parts st (dot_exp a b) s f h = absurd s
    parts st (arrow_exp a b) s f h = absurd s
    parts st (expr_list ns) s f h = Yields-end (Yields-nodes st ns h)
    parts st (implied_do a b c e) s f h = Yields-end (
        Yields-append (Yields-node (reads st a h.0)) (
          Yields-append (Yields-node (reads st b h.1.0))
            (Yields-append (Yields-node (reads st c h.1.1.0)) (Yields-node (reads st e h.1.1.1)))))
    parts st (user_defined_unary n a) s f h = absurd f
    parts st (size_of_type a) s f h = Yields-node (reads st a h)

  -- A readable tree is written as one element, and what the reader makes of this element is the tree
  -- again: every operand, literal, name, flag, comment and original expression tree is in its place,
  -- and the stack of scopes is left as it was. No literal stands in parentheses, and no label is that
  -- of an alternative return. The parser must give an attribute or a text back as it was before its
  -- characters were written as entities.
  pub read-write :
      (st : Scopes) (depth : ℕ) (outermost : Bool) (n : SgNode)
      → Readable p st n
      → (e : Dom) × ((tags (write p false depth outermost n) ≡ dom_tags e)
          × (visit p e st ≡ ok (some n, st)))
  unfolding doms_tags
  read-write st depth outermost n h =
      let r = reads st n h in
      let e = element r.name r.atts r.inside in
      (
        e,
        (
          tags-write p false depth outermost n
              ∙ (ap doms_tags (r.alone outermost) ∙ append-nil (dom_tags e)),
          r.result,
        ),
      )
