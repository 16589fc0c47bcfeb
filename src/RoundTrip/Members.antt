-- ===== src/RoundTrip/Members.antt =====
-- `visitSgDotExp` and `visitSgArrowExp` (src/expr.cpp): the right operand is read in the scope of the
-- left operand's class, and the stack of scopes is restored behind it.
use xevxml.Prelude.{
  String, ◌≡◌, refl, ◌∙◌, inl, inr, false, some, List, [], ◌∷◌, arith, Option-cases,
}
use xevxml.Result.{ok}
use xevxml.Ast.Kinds.{dot_exp, arrow_exp}
use xevxml.Ast.Node.{
  PreprocessingInfo, Located, SgNode, Exp, exp_variant, expr, dot_exp, arrow_exp, null,
}
use xevxml.Platform.{Platform, Scopes}
use xevxml.Write.Document.{◌+++◌, doc_infos, doc_inode, doc, doc_successors, doc_opt}
use xevxml.Xml.{Doms, Attrs, append_doms, element, no_doms, dom}
use xevxml.Read.Monad.{Child}
use xevxml.Read.Slots.{build}
use xevxml.Read.Expressions.{member_right, visit_member}
use xevxml.Read.Visit.{read_infos, visit_class, visit_variant, visit, visitors, visit_child}
use xevxml.RoundTrip.Text.{DecodesEntities}
use xevxml.RoundTrip.Fits.{IsExpression, Fits}
use xevxml.RoundTrip.Operands.{Visited}
use xevxml.RoundTrip.Children.{Reads, append_doms_assoc, Yields-node}
use xevxml.RoundTrip.Readable.{IsLocated, member_scopes}
use xevxml.RoundTrip.Element.{infos-subtree}
use xevxml.RoundTrip.Nodes.{Reads-expr}

-- With two expressions as the first children and no node behind them, the right one is read in the
-- scope of the left one's class, if there is one, and afterwards the stack of scopes is what it was.
pub visit_member-pair :
    (p : Platform) (name : String) (f : SgNode → SgNode → Exp) (a b : Child) (cs : List Child)
    (st : Scopes) (l r : SgNode)
    → a st ≡ ok (some l, st)
    → IsExpression l
    → b (member_scopes p st l) ≡ ok (some r, member_scopes p st l)
    → IsExpression r
    → Visited cs st []
    → visit_member p name f (a ∷ b ∷ cs) st ≡ ok (build (f l r), st)
unfolding visit_member member_right
visit_member-pair p name f a b cs st l r ha hl hb hr v = elim (Option-cases (p.class_scope l)) [
  | inl h ↦ grind arith
  | inr h ↦ let e = h.1 in grind arith
]

visitors-two :
    (p : Platform) (m n : String) (x y : Attrs) (ds es fs : Doms)
    → visitors p (dom (element m x ds) (dom (element n y es) fs))
      ≡ visit p (element m x ds) ∷ visit p (element n y es) ∷ visitors p fs
unfolding visitors visit_child
visitors-two p m n x y ds es fs = refl

module _ {p : Platform} (d : DecodesEntities p) (st : Scopes) (l : Located) (a b : SgNode) where
  module _ (f : SgNode → SgNode → Exp) (name : String) (ra : Reads p st a)
      (rb : Reads p (member_scopes p st a) b) where
    visit_member-written :
        (is : List PreprocessingInfo)
        → IsExpression a
        → IsExpression b
        → visit_member p name f
            (visitors p ((doc p false false a +++ doc p false false b) +++ doc_infos is))
            st
          ≡ ok (build (f a b), st)
    unfolding append_doms
    visit_member-written is ha hb =
        rw (ra.alone false, rb.alone false, visitors-two)
          (visit_member-pair p name f _ _ (visitors p (doc_infos is)) st a b ra.result ha rb.result
            hb (infos-subtree p st is))

    members-comments :
        (es : Doms)
        → read_infos p (((doc p false false a +++ doc p false false b) +++ no_doms) +++ es)
          ≡ read_infos p es
    unfolding append_doms
    members-comments es =
        rw (append_doms_assoc, append_doms_assoc)
          ((Yields-node ra).comments _ ∙ (Yields-node rb).comments es)

module _ {p : Platform} (d : DecodesEntities p) (st : Scopes) (l : Located) (a b : SgNode)
    (ra : Reads p st a) (rb : Reads p (member_scopes p st a) b) where
  pub Reads-dot :
      IsLocated p l (dot_exp a b) → Fits p st (dot_exp a b) → Reads p st (expr l null (dot_exp a b))
  unfolding visit_variant visit_class exp_variant doc_successors doc_inode doc_opt append_doms
  Reads-dot hl h =
      Reads-expr d st l null (dot_exp a b) hl tt
        (visit_member-written d st l a b dot_exp "SgDotExp" ra rb _ h.0 h.1)
        (members-comments d st l a b dot_exp "SgDotExp" ra rb)

  pub Reads-arrow :
      IsLocated p l (arrow_exp a b)
      → Fits p st (arrow_exp a b)
      → Reads p st (expr l null (arrow_exp a b))
  unfolding visit_variant visit_class exp_variant doc_successors doc_inode doc_opt append_doms
  Reads-arrow hl h =
      Reads-expr d st l null (arrow_exp a b) hl tt
        (visit_member-written d st l a b arrow_exp "SgArrowExp" ra rb _ h.0 h.1)
        (members-comments d st l a b arrow_exp "SgArrowExp" ra rb)
