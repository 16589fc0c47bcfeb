-- ===== src/RoundTrip/Children.antt =====
-- Visiting the children of an element (the macros `SUBTREE_VISIT_…` of src/xmlutils.hpp).
use text.Mathlib.Text.{◌==◌ as str_eq}
use xevxml.Prelude.{
  String, ◌≡◌, refl, sym, ap, ◌∙◌, Bool, false, Option, none, some, List, [], ◌∷◌, ◌++◌, arith,
}
use xevxml.Result.{Result, ok, err}
use xevxml.Xml.{Doms, Attrs, append_doms, element, content, no_doms, dom}
use xevxml.Ast.Node.{SgNode}
use xevxml.Platform.{Platform, Scopes}
use xevxml.Write.Document.{◌+++◌, one, doc}
use xevxml.Read.Monad.{Child, keep, visit_subtree}
use xevxml.Read.Visit.{read_infos, visit, visitors, visit_child}

abbrev then_all : List SgNode → Result (List SgNode × Scopes) → Result (List SgNode × Scopes)
then_all ns (err e) = err e
then_all ns (ok (ms, st)) = ok (ns ++ ms, st)

abbrev and_then : List Child → Result (List SgNode × Scopes) → Result (List SgNode × Scopes)
and_then ds (err e) = err e
and_then ds (ok (ns, st)) = then_all ns (visit_subtree ds st)

abbrev pub keep_in : Option SgNode → Result (List SgNode × Scopes) → Result (List SgNode × Scopes)
keep_in n (err e) = err e
keep_in n (ok (ns, st)) = ok (keep n ns, st)

then_all-nil : (r : Result (List SgNode × Scopes)) → r ≡ then_all [] r
then_all-nil (ok x) = refl
then_all-nil (err e) = refl

keep_in-then_all :
    (n : Option SgNode) (ns : List SgNode) (r : Result (List SgNode × Scopes))
    → keep_in n (then_all ns r) ≡ then_all (keep n ns) r
keep_in-then_all none ns (ok x) = refl
keep_in-then_all (some n) ns (ok x) = refl
keep_in-then_all n ns (err e) = refl

keep_in-and_then :
    (n : Option SgNode) (ds : List Child) (r : Result (List SgNode × Scopes))
    → keep_in n (and_then ds r) ≡ and_then ds (keep_in n r)
keep_in-and_then n ds (ok x) = keep_in-then_all n x.0 (visit_subtree ds x.1)
keep_in-and_then n ds (err e) = refl

abbrev pub first_then : List Child → Result (Option SgNode × Scopes) → Result (List SgNode × Scopes)
first_then cs (err e) = err e
first_then cs (ok (n, st)) = keep_in n (visit_subtree cs st)

pub visit_subtree-cons :
    (c : Child) (cs : List Child) (st : Scopes) → visit_subtree (c ∷ cs) st ≡ first_then cs (c st)
unfolding visit_subtree
visit_subtree-cons c cs st = ground arith

module _ (ds cs : List Child)
    (ih : (st : Scopes) → visit_subtree (cs ++ ds) st ≡ and_then ds (visit_subtree cs st)) where
  first_then-append :
      (r : Result (Option SgNode × Scopes))
      → first_then (cs ++ ds) r ≡ and_then ds (first_then cs r)
  first_then-append (err e) = refl
  first_then-append (ok x) =
      ap (keep_in x.0) (ih x.1) ∙ keep_in-and_then x.0 ds (visit_subtree cs x.1)

pub visit_subtree-append :
    (cs ds : List Child) (st : Scopes)
    → visit_subtree (cs ++ ds) st ≡ and_then ds (visit_subtree cs st)
visit_subtree-append [] ds st = unfold visit_subtree in then_all-nil (visit_subtree ds st)
visit_subtree-append (c ∷ cs) ds st =
    visit_subtree-cons c (cs ++ ds) st
    ∙ (first_then-append ds cs (visit_subtree-append cs ds) (c st)
        ∙ ap (and_then ds) (sym (visit_subtree-cons c cs st)))

pub visitors-append :
    (p : Platform) (ds es : Doms) → visitors p (ds +++ es) ≡ visitors p ds ++ visitors p es
unfolding visitors visit_child append_doms
visitors-append p no_doms es = refl
visitors-append p (dom (element n a k) ds) es =
    ap (λ t. visit p (element n a k) ∷ t) (visitors-append p ds es)
visitors-append p (dom (content b) ds) es = visitors-append p ds es

pub append_doms_assoc : (a b c : Doms) → (a +++ b) +++ c ≡ a +++ (b +++ c)
unfolding append_doms
append_doms_assoc no_doms b c = refl
append_doms_assoc (dom d a) b c = ap (λ t. dom d t) (append_doms_assoc a b c)

-- The elements `ds` hold just the nodes `ns`: the readers take these from them and leave the stack of
-- scopes as it is, and they hold no comment.
pub record Yields (p : Platform) (st : Scopes) (ds : Doms) (ns : List SgNode) : Type 0 where
  pub subtree : visit_subtree (visitors p ds) st ≡ ok (ns, st)
  pub comments : (es : Doms) → read_infos p (ds +++ es) ≡ read_infos p es

module _ {p : Platform} {st : Scopes} where
  pub Yields-none : Yields p st no_doms []
  unfolding visit_subtree visitors append_doms
  Yields-none = record { subtree = refl; comments = λ es. refl }

  pub Yields-append :
      {ds es : Doms} {ns ms : List SgNode}
      → Yields p st ds ns
      → Yields p st es ms
      → Yields p st (ds +++ es) (ns ++ ms)
  Yields-append a b = record {
    subtree = rw (visitors-append, visit_subtree-append, a.subtree, b.subtree) refl;
    comments = λ fs. rw (append_doms_assoc) (a.comments _ ∙ b.comments fs);
  }

-- A node's own element.
pub record Reads (p : Platform) (st : Scopes) (n : SgNode) : Type 0 where
  pub name : String
  pub atts : Attrs
  pub inside : Doms
  pub alone : (outermost : Bool) → doc p false outermost n ≡ one (element name atts inside)
  pub own_name : str_eq name "PreprocessingInfo" ≡ false
  pub result : visit p (element name atts inside) st ≡ ok (some n, st)

pub visitors-one :
    (p : Platform) (name : String) (atts : Attrs) (ds : Doms)
    → visitors p (one (element name atts ds)) ≡ visit p (element name atts ds) ∷ []
unfolding visitors visit_child
visitors-one p name atts ds = refl

visit_subtree-one :
    {n : SgNode} (c : Child) (st : Scopes)
    → c st ≡ ok (some n, st)
    → visit_subtree (c ∷ []) st ≡ ok (n ∷ [], st)
unfolding visit_subtree
visit_subtree-one c st h = visit_subtree-cons c [] st ∙ ap (first_then []) h

module _ {p : Platform} {st : Scopes} {n : SgNode} (r : Reads p st n) where
  pub Yields-node : Yields p st (doc p false false n) (n ∷ [])
  unfolding append_doms read_infos
  Yields-node = record {
    subtree = rw (r.alone false, visitors-one) (visit_subtree-one _ st r.result);
    comments = λ es. rw (r.alone false, r.own_name) refl;
  }
