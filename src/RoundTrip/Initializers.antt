-- ===== src/RoundTrip/Initializers.antt =====
-- The initializers of src/expr.cpp.
use xevxml.Prelude.{◌≡◌, refl, ◌∙◌, Bool, List, [], ◌∷◌, ◌++◌, arith, codes}
use xevxml.Result.{ok}
use xevxml.Stream.{print_bool}
use xevxml.Stream.RoundTrip.{is_set-print_bool}
use xevxml.Xml.{get_named_item, get_int}
use xevxml.Ast.Node.{
  Located, ConstructorFlags, SgNode, Exp, OptNode, opt, is_type, is_expr_list,
  aggregate_initializer, assign_initializer, constructor_initializer, null, node,
}
use xevxml.Platform.{Platform, Scopes}
use xevxml.Write.Attributes.{attrib_class, attributes}
use xevxml.Read.Monad.{Child}
use xevxml.Read.Slots.{fill, first, build}
use xevxml.Read.Operands.{one_operand}
use xevxml.Read.Expressions.{
  aggregate, visit_aggregate_initializer, explicit_of, visit_assign_initializer,
  visit_constructor_initializer,
}
use xevxml.RoundTrip.Text.{DecodesEntities, decode-plain, print_bool-IsPlain}
use xevxml.RoundTrip.Attributes.{
  get_named_item-when, cast_of-attributes, own_attribute, flag-print_bool, flag-when,
}
use xevxml.RoundTrip.Fits.{IsExpression, IsType, IsExprList, IsNullOr}
use xevxml.RoundTrip.Operands.{IsExprList-type, IsType-list, Visited}

module _ {p : Platform} (d : DecodesEntities p) where
  first-list :
      (e t : OptNode)
      → IsNullOr IsExprList e
      → IsNullOr IsType t
      → first is_expr_list (opt e ++ opt t) ≡ e
  unfolding first
  first-list null null he ht = refl
  first-list null (node t) he ht = let n = IsType-list t ht in grind arith
  first-list (node e) t he ht = grind arith

  first-type :
      (e t : OptNode)
      → IsNullOr IsExprList e
      → IsNullOr IsType t
      → first is_type (opt e ++ opt t) ≡ t
  unfolding first
  first-type null null he ht = refl
  first-type null (node t) he ht = grind arith
  first-type (node e) null he ht = let n = IsExprList-type e he in grind arith
  first-type (node e) (node t) he ht = let n = IsExprList-type e he in grind arith

  module _ (l : Located) (o : OptNode) (kids : List Child) (st : Scopes) where
    pub visit_aggregate_initializer-written :
        (b : Bool) (e t : SgNode)
        → IsExprList e
        → IsType t
        → Visited kids st (e ∷ t ∷ [])
        → visit_aggregate_initializer p (attributes p l o (aggregate_initializer b e t)) kids st
          ≡ ok (build (aggregate_initializer b e t), st)
    unfolding visit_aggregate_initializer aggregate first attrib_class
    visit_aggregate_initializer-written b e t he ht v =
        let x : Exp = aggregate_initializer b e t in
        let f = flag-when d "need_brace" b (attributes p l o x) (
          own_attribute p l o "need_brace" x (refl, refl, refl)
          ∙ get_named_item-when "need_brace" b (codes "1") refl) in
        let n = IsExprList-type e he in grind arith

    pub visit_assign_initializer-written :
        (b : Bool) (e : SgNode)
        → IsExpression e
        → Visited kids st (e ∷ [])
        → visit_assign_initializer p (attributes p l o (assign_initializer b e)) kids st
          ≡ ok (build (assign_initializer b e), st)
    unfolding visit_assign_initializer one_operand fill explicit_of get_int
    visit_assign_initializer-written b e he v =
        let c = cast_of-attributes p l o b e in
        let h = decode-plain d (print_bool b) (print_bool-IsPlain b) in
        let s = is_set-print_bool p.tmp b in grind arith

    pub visit_constructor_initializer-written :
        (f : ConstructorFlags) (e t : OptNode)
        → IsNullOr IsExprList e
        → IsNullOr IsType t
        → Visited kids st (opt e ++ opt t)
        → visit_constructor_initializer p (attributes p l o (constructor_initializer f e t)) kids st
          ≡ ok (build (constructor_initializer f e t), st)
    unfolding visit_constructor_initializer attrib_class get_named_item
    visit_constructor_initializer-written f e t he ht v =
        let x : Exp = constructor_initializer f e t in
        let own = own_attribute p l o in
        let a =
          flag-print_bool d "name" f.need_name (attributes p l o x)
            (own "name" x (refl, refl, refl)) in
        let b =
          flag-print_bool d "qual" f.need_qualifier (attributes p l o x)
            (own "qual" x (refl, refl, refl)) in
        let c =
          flag-print_bool d "paren_after_name" f.need_parenthesis (attributes p l o x)
            (own "paren_after_name" x (refl, refl, refl)) in
        let g =
          flag-print_bool d "unknown" f.class_unknown (attributes p l o x)
            (own "unknown" x (refl, refl, refl)) in
        let h = first-list e t he ht in let k = first-type e t he ht in grind arith
