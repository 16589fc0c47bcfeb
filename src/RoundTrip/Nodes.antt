-- ===== src/RoundTrip/Nodes.antt =====
-- A node is read from its own element (src/rose2xml.cpp, then src/xml2rose.cpp).
use xevxml.Prelude.{◌≡◌, refl, sym, ap, ◌∙◌, subst, false, some, List, [], ◌∷◌, ◌++◌, arith}
use xevxml.Result.{ok}
use xevxml.Ast.Kinds.{BasicType, PlainType, basic, plain}
use xevxml.Ast.Names.{class_name}
use xevxml.Ast.NameSearch.{variant_of-class_name}
use xevxml.Ast.Node.{
  FileInfo, Located, SgNode, Exp, OptNode, opt, exp_variant, expr, basic_type, plain_type, null,
  node,
}
use xevxml.Platform.{Platform, Scopes}
use xevxml.Write.Attributes.{attributes}
use xevxml.Write.Visit.{remove_include_directives}
use xevxml.Write.Document.{◌+++◌, one, doc_infos, doc, doc_successors, doc_opt}
use xevxml.Xml.{Doms, element, no_doms}
use xevxml.Read.Monad.{Child}
use xevxml.Read.Slots.{build_with}
use xevxml.Read.Visit.{
  visit_kind, visit_basic_type, read_infos, check_node, visit_variant, visit_element, visit,
  visitors,
}
use xevxml.RoundTrip.Text.{DecodesEntities}
use xevxml.RoundTrip.Fits.{IsExpression, Fits, operands}
use xevxml.RoundTrip.Operands.{Visited}
use xevxml.RoundTrip.Comments.{read_infos-doc_infos}
use xevxml.RoundTrip.Children.{Yields, Reads, append_doms_assoc, visitors-one}
use xevxml.RoundTrip.Readable.{IsLocated, IsOriginal}
use xevxml.RoundTrip.Reread.{HasScopes, reread}
use xevxml.RoundTrip.Inside.{parts_of, inside_of, doc-element}
use xevxml.RoundTrip.Element.{class_name-own, visited, visit-written}

module _ {p : Platform} (d : DecodesEntities p) (st : Scopes) (l : Located) (o : OptNode)
    (e : Exp) where
  comments-inside :
      IsLocated p l e
      → ((es : Doms) → read_infos p (parts_of p o e +++ es) ≡ read_infos p es)
      → read_infos p (inside_of p l o e) ≡ ok l.preprocessing
  comments-inside hl hc =
      ap (read_infos p) (sym (append_doms_assoc (doc_successors p false e) _ _))
      ∙ (hc _
          ∙ (ap (λ is. read_infos p (doc_infos is)) hl.1.1.0
              ∙ read_infos-doc_infos d l.preprocessing hl.1.0))

  pub Reads-expr :
      IsLocated p l e
      → IsOriginal p e o
      → visit_variant p (attributes p l o e) (visitors p (inside_of p l o e)) (exp_variant e) st
        ≡ ok (build_with o e, st)
      → ((es : Doms) → read_infos p (parts_of p o e +++ es) ≡ read_infos p es)
      → Reads p st (expr l o e)
  Reads-expr hl ho hv hc = record {
    name = class_name (exp_variant e);
    atts = attributes p l o e;
    inside = inside_of p l o e;
    alone = λ outermost. doc-element p outermost l o e hl ho;
    own_name = class_name-own (exp_variant e);
    result = visit-written d st l o e hl (inside_of p l o e) hv (comments-inside hl hc);
  }

  pub Reads-parts :
      IsLocated p l e
      → HasScopes e
      → Fits p st e
      → IsOriginal p e o
      → Yields p st (parts_of p o e) (operands e ++ opt o)
      → Reads p st (expr l o e)
  Reads-parts hl hs hf ho y =
      let v =
        subst (λ ds. Visited (visitors p ds) st (operands e ++ opt o))
          (append_doms_assoc (doc_successors p false e) _ _)
          (visited st y (remove_include_directives p l.preprocessing)) in
      let g = ap (λ (i : FileInfo). i.compiler_generated) hl.0 in
      Reads-expr hl ho (reread d l _ st o e g hs hf ho v) y.comments

module _ (p : Platform) (st : Scopes) where
  pub Reads-type : (t : BasicType) → Reads p st (basic_type t null)
  unfolding doc visit visit_element visitors check_node visit_variant visit_basic_type visit_kind
  Reads-type t = record {
    name = class_name (basic t);
    atts = [];
    inside = no_doms;
    alone = λ outermost. refl;
    own_name = class_name-own (basic t);
    result = let h = variant_of-class_name (basic t) in grind arith;
  }

  pub Reads-plain : (t : PlainType) → Reads p st (plain_type t)
  unfolding doc visit visit_element visitors check_node visit_variant
  Reads-plain t = record {
    name = class_name (plain t);
    atts = [];
    inside = no_doms;
    alone = λ outermost. refl;
    own_name = class_name-own (plain t);
    result = let h = variant_of-class_name (plain t) in grind arith;
  }

  visit_kind-one :
      (c : Child) (n : SgNode)
      → c st ≡ ok (some n, st)
      → IsExpression n
      → visit_kind (c ∷ []) null st ≡ ok (node n, st)
  unfolding visit_kind
  visit_kind-one c n h k = grind arith

  visit_element-kind :
      (t : BasicType) (n : SgNode) (ds : Doms) (kids : List Child)
      → visit_kind kids null st ≡ ok (node n, st)
      → visit_element p (class_name (basic t)) [] ds kids st ≡ ok (some (basic_type t (node n)), st)
  unfolding visit_element check_node visit_variant visit_basic_type
  visit_element-kind t n ds kids h = let v = variant_of-class_name (basic t) in grind arith

  pub Reads-kind :
      (t : BasicType) (n : SgNode)
      → IsExpression n
      → Reads p st n
      → Reads p st (basic_type t (node n))
  unfolding doc doc_opt visit
  Reads-kind t n hn r = record {
    name = class_name (basic t);
    atts = [];
    inside = one (element r.name r.atts r.inside);
    alone = λ outermost. ap (λ ds. one (element (class_name (basic t)) [] ds)) (r.alone false);
    own_name = class_name-own (basic t);
    result = visit_element-kind t n _ _ (
        ap (λ cs. visit_kind cs null st) (visitors-one p r.name r.atts r.inside)
        ∙ visit_kind-one (visit p (element r.name r.atts r.inside)) n r.result hn);
  }
