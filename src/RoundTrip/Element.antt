-- ===== src/RoundTrip/Element.antt =====
-- The element of an expression: its visitor, and the checks behind it (src/xml2rose.cpp).
use text.Mathlib.Text.{◌==◌ as str_eq}
use text.Mathlib.TextEquality.{eq_iff}
use mathlib.Core.Option.{none-ne-some}
use xevxml.Prelude.{
  ◌≡◌, refl, sym, ◌∙◌, subst, inl, inr, false, some, List, [], ◌∷◌, append-nil, arith, Bool-cases,
  not, ◌&&◌,
}
use xevxml.Result.{ok}
use xevxml.Ast.Kinds.{Variant}
use xevxml.Ast.Names.{class_name, variant_of}
use xevxml.Ast.NameSearch.{variant_of-class_name}
use xevxml.Ast.Node.{
  PreprocessingInfo, Located, SgNode, Exp, OptNode, exp_variant, expr, transformation_info,
}
use xevxml.Platform.{Platform, Scopes}
use xevxml.Write.Attributes.{attributes, is_literal}
use xevxml.Write.Document.{◌+++◌, doc_infos}
use xevxml.Xml.{Doms, element}
use xevxml.Read.Monad.{visit_subtree}
use xevxml.Read.Slots.{build_with}
use xevxml.Read.Visit.{
  read_infos, check_node, visit_variant, visit_element, visit, visitors, visit_child,
}
use xevxml.RoundTrip.Text.{DecodesEntities}
use xevxml.RoundTrip.Operands.{Visited}
use xevxml.RoundTrip.Attributes.{paren-attributes, info_of-attributes, check_cast-attributes}
use xevxml.RoundTrip.Children.{Yields, visit_subtree-append, visitors-append}
use xevxml.RoundTrip.Readable.{IsLocated}

-- No class has the name of the element of preprocessing information.
some-none : (v : Variant) → variant_of "PreprocessingInfo" ≡ some v → ⊥
unfolding variant_of
some-none v h = none-ne-some v h

pub class_name-own : (v : Variant) → str_eq (class_name v) "PreprocessingInfo" ≡ false
class_name-own v = elim (Bool-cases (str_eq (class_name v) "PreprocessingInfo")) [
  | inr h ↦ h
  | inl h ↦ absurd (
      some-none v (
        subst (λ n. variant_of n ≡ some v) ((eq_iff (class_name v) "PreprocessingInfo").0 h)
          (variant_of-class_name v)))
]

module _ (p : Platform) (st : Scopes) where
  pub infos-subtree :
      (is : List PreprocessingInfo) → visit_subtree (visitors p (doc_infos is)) st ≡ ok ([], st)
  unfolding visit_subtree visitors visit visit_child visit_element doc_infos variant_of
  infos-subtree [] = refl
  infos-subtree (i ∷ is) = let h = infos-subtree is in grind arith

module _ {p : Platform} (st : Scopes) where
  pub visited :
      {ds : Doms} {ns : List SgNode}
      → Yields p st ds ns
      → (is : List PreprocessingInfo) → Visited (visitors p (ds +++ doc_infos is)) st ns
  visited {ns = ns} y is =
      rw (visitors-append, visit_subtree-append, y.subtree, infos-subtree p st is, append-nil) refl

-- If its comments are read, the checks behind the visitor of an expression give it what its element
-- says: its comments, and its parentheses unless it is a literal; the parentheses around a literal
-- are lost. The parser must give back a text whose characters were written as entities.
pub check_node-attributes :
    {p : Platform} (d : DecodesEntities p) (l : Located) (o : OptNode) (e : Exp) (ds : Doms)
    → read_infos p ds ≡ ok l.preprocessing
    → check_node p (attributes p l o e) ds (build_with o e)
      ≡ ok (
          expr
            (record {
              need_paren = not (is_literal e) && l.need_paren;
              info = transformation_info;
              preprocessing = l.preprocessing;
            })
            o
            e)
unfolding check_node
check_node-attributes {p} d l o e ds h =
    let a = paren-attributes d l o e in
    let b = info_of-attributes d l o e in
    let c = check_cast-attributes d l o e in rw (h, a, b, c) refl

module _ {p : Platform} (d : DecodesEntities p) (st : Scopes) (l : Located) (o : OptNode) (e : Exp)
    (hl : IsLocated p l e) where
  check_node-written :
      (ds : Doms)
      → read_infos p ds ≡ ok l.preprocessing
      → check_node p (attributes p l o e) ds (build_with o e) ≡ ok (expr l o e)
  check_node-written ds h =
      let k : (not (is_literal e) && l.need_paren) ≡ l.need_paren =
        let q = hl.1.1.1 in ground arith in
      let i = hl.0 in check_node-attributes d l o e ds h ∙ rw (k, sym i) refl

  -- The element is read, if its visitor makes the expression and its children hold its comments.
  pub visit-written :
      (ds : Doms)
      → visit_variant p (attributes p l o e) (visitors p ds) (exp_variant e) st
        ≡ ok (build_with o e, st)
      → read_infos p ds ≡ ok l.preprocessing
      → visit p (element (class_name (exp_variant e)) (attributes p l o e) ds) st
        ≡ ok (some (expr l o e), st)
  unfolding visit visit_element
  visit-written ds h k =
      let v = variant_of-class_name (exp_variant e) in
      let c = check_node-written ds k in grind arith
