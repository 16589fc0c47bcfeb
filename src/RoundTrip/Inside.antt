-- ===== src/RoundTrip/Inside.antt =====
-- What stands inside the element of an expression, and why nothing is lost where `hasInode` answers no.
use xevxml.Prelude.{◌≡◌, refl, Bool, false, not, ◌&&◌, ◌||◌, List, [], ◌∷◌, arith, if◌then◌else◌}
use xevxml.Xml.{Doms, append_doms, element, no_doms}
use xevxml.Ast.Kinds.{string_val, null_expression}
use xevxml.Ast.Node.{
  is_null, PreprocessingInfo, Located, Exp, OptNode, exp_variant, expr, numeric_val, bool_val,
  character_val, string_val, asterisk_shape, colon_shape, null_expression, expr_list, function_ref,
  label_ref, var_ref, null, node, no_nodes, cons,
}
use xevxml.Ast.Names.{class_name}
use xevxml.Platform.{Platform}
use xevxml.Write.Attributes.{attributes}
use xevxml.Write.Visit.{
  successor_count, is_nil, remove_include_directives, is_in_same_file, has_inode,
}
use xevxml.Write.Document.{
  ◌+++◌, one, doc_infos, doc_inode, doc, doc_successors, doc_types, doc_opt, doc_nodes,
}
use xevxml.RoundTrip.Readable.{IsLocated, IsOriginal}

module _ (p : Platform) where
  abbrev pub parts_of : OptNode → Exp → Doms
  parts_of o e = doc_successors p false e +++ doc_inode e (doc_types p false e) (doc_opt p false o)

  abbrev pub inside_of : Located → OptNode → Exp → Doms
  inside_of l o e =
      doc_successors p false e
      +++ (doc_inode e (doc_types p false e) (doc_opt p false o)
          +++ doc_infos (remove_include_directives p l.preprocessing))

  abbrev IsKept : OptNode → Type 0
  IsKept null = Unit
  IsKept (node n) = p.is_fortran ≡ false

  leaf-inside :
      (is : List PreprocessingInfo) (o : OptNode)
      → IsKept o
      → (if not (is_nil is) || ((not (is_null o) && not p.is_fortran) || false)
          then doc_opt p false o +++ doc_infos (remove_include_directives p is)
          else no_doms)
        ≡ doc_opt p false o +++ doc_infos (remove_include_directives p is)
  unfolding doc_opt doc_infos remove_include_directives append_doms
  leaf-inside [] null h = refl
  leaf-inside [] (node n) h = grind arith
  leaf-inside (i ∷ is) o h = refl

  original-IsKept : (e : Exp) (o : OptNode) → IsOriginal p e o → IsKept o
  original-IsKept e null h = tt
  original-IsKept e (node n) h = h.1.1

  -- Where `hasInode` answers no, nothing would stand inside the element, for an expression that has an
  -- original expression tree only if its class keeps it and the language is not Fortran.
  pub has_inode-inside :
      (l : Located) (o : OptNode) (e : Exp)
      → IsOriginal p e o
      → (if has_inode p l o e then inside_of l o e else no_doms) ≡ inside_of l o e
  unfolding has_inode successor_count doc_successors doc_inode doc_nodes append_doms
  has_inode-inside l o (numeric_val k v s) h =
      leaf-inside l.preprocessing o (original-IsKept (numeric_val k v s) o h)
  has_inode-inside l o (bool_val b) h =
      leaf-inside l.preprocessing o (original-IsKept (bool_val b) o h)
  has_inode-inside l o (character_val k v) h =
      leaf-inside l.preprocessing o (original-IsKept (character_val k v) o h)
  has_inode-inside l o (string_val s f) h =
      leaf-inside l.preprocessing o (original-IsKept (string_val s f) o h)
  has_inode-inside l o asterisk_shape h =
      leaf-inside l.preprocessing o (original-IsKept asterisk_shape o h)
  has_inode-inside l o colon_shape h =
      leaf-inside l.preprocessing o (original-IsKept colon_shape o h)
  has_inode-inside l o null_expression h =
      leaf-inside l.preprocessing o (original-IsKept null_expression o h)
  has_inode-inside l o (function_ref n k) h =
      leaf-inside l.preprocessing o (original-IsKept (function_ref n k) o h)
  has_inode-inside l o (label_ref t n) h =
      leaf-inside l.preprocessing o (original-IsKept (label_ref t n) o h)
  has_inode-inside l o (var_ref n) h =
      leaf-inside l.preprocessing o (original-IsKept (var_ref n) o h)
  has_inode-inside l o (expr_list no_nodes) h =
      leaf-inside l.preprocessing o (original-IsKept (expr_list no_nodes) o h)
  has_inode-inside l o (expr_list (cons n ns)) h = refl
  has_inode-inside l o _ h = refl

  -- The element of a node that the readers left.
  pub doc-element :
      (outermost : Bool) (l : Located) (o : OptNode) (e : Exp)
      → IsLocated p l e
      → IsOriginal p e o
      → doc p false outermost (expr l o e)
        ≡ one (element (class_name (exp_variant e)) (attributes p l o e) (inside_of l o e))
  unfolding doc is_in_same_file class_name attributes has_inode doc_inode doc_infos
  doc-element outermost l o e h k = rw (h.0, has_inode-inside l o e k) refl
