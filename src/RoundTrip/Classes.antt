-- ===== src/RoundTrip/Classes.antt =====
-- The classes whose elements have attributes of their own (src/expr.cpp): the visitor makes the
-- expression again from the attributes that were written for it and from its operands.
use xevxml.Prelude.{
  String, ◌≡◌, refl, ◌∙◌, ◌⊎◌, inl, inr, false, some, List, [], ◌∷◌, arith, Bytes, codes, All,
}
use xevxml.Result.{ok}
use xevxml.Stream.{ℤ, print_int, pos}
use xevxml.Stream.RoundTrip.{IsInt, stream_int-print_int}
use xevxml.Xml.{Attrs, get_named_item, get_string, get_int}
use xevxml.Ast.Kinds.{UnaryModeOp, cast_exp}
use xevxml.Ast.Node.{
  Located, SgNode, Exp, OptNode, unary_mode, actual_argument, cast_exp, label_ref,
}
use xevxml.Platform.{Platform, Scopes}
use xevxml.Write.Attributes.{same_int, attrib_class, attributes}
use xevxml.Read.Monad.{Child, require_string, int_or}
use xevxml.Read.Slots.{fill, build}
use xevxml.Read.Operands.{one_operand}
use xevxml.Read.Expressions.{
  mode_of, visit_unary_mode, visit_actual_argument, cast_of, cast_children, cast_child, visit_cast,
  visit_label_ref,
}
use xevxml.RoundTrip.Text.{DecodesEntities, IsPlain, decode-plain, print_int-IsPlain}
use xevxml.RoundTrip.Attributes.{get_named_item-when, own_attribute, flag-when}
use xevxml.RoundTrip.Fits.{IsExpression, IsType}
use xevxml.RoundTrip.Operands.{IsExpression-type, Visited}

module _ {p : Platform} (d : DecodesEntities p) where
  int_of :
      (n : String) (z : ℤ) (atts : Attrs)
      → IsInt z
      → get_named_item n atts ≡ some (print_int z)
      → get_int p.decode p.tmp n atts ≡ some z
  unfolding get_int
  int_of n z atts h e =
      rw
        (
          get_int,
          e,
          decode-plain d (print_int z) (print_int-IsPlain z),
          stream_int-print_int p.tmp z h,
        )
        refl

  int_or-written :
      (n : String) (z : ℤ) (atts : Attrs)
      → IsInt z
      → get_named_item n atts ≡ some (print_int z)
      → int_or p atts n (pos 0) ≡ z
  unfolding int_or
  int_or-written n z atts h e = rw (int_or, int_of n z atts h e) refl

  pub string_of :
      (n : String) (s : Bytes) (atts : Attrs)
      → All IsPlain s
      → get_named_item n atts ≡ some s
      → get_string p.decode n atts ≡ some s
  unfolding get_string
  string_of n s atts h e = rw (get_string, e, decode-plain d s h) refl

  module _ (l : Located) (o : OptNode) (kids : List Child) (st : Scopes) where
    pub visit_unary_mode-written :
        (op : UnaryModeOp) (m : ℤ) (e : SgNode)
        → IsExpression e
        → (m ≡ pos 0) ⊎ (m ≡ pos 1)
        → Visited kids st (e ∷ [])
        → visit_unary_mode p (attributes p l o (unary_mode op m e)) kids op st
          ≡ ok (build (unary_mode op m e), st)
    unfolding visit_unary_mode fill one_operand attributes attrib_class get_named_item mode_of
    visit_unary_mode-written op m e he (inl h) v =
        let i = int_of "mode" m (attributes p l o (unary_mode op m e)) (rw h (omega arith)) refl in
        grind arith
    visit_unary_mode-written op m e he (inr h) v =
        let i = int_of "mode" m (attributes p l o (unary_mode op m e)) (rw h (omega arith)) refl in
        grind arith

    pub visit_actual_argument-written :
        (name : Bytes) (e : SgNode)
        → IsExpression e
        → All IsPlain name
        → Visited kids st (e ∷ [])
        → visit_actual_argument p (attributes p l o (actual_argument name e)) kids st
          ≡ ok (build (actual_argument name e), st)
    unfolding visit_actual_argument fill one_operand attributes attrib_class get_named_item
        require_string
    visit_actual_argument-written name e he hn v =
        let s = string_of "name" name (attributes p l o (actual_argument name e)) hn refl in
        grind arith

    pub visit_cast-written :
        (c : ℤ) (e t : SgNode)
        → l.info.compiler_generated ≡ false
        → IsInt c
        → IsExpression e
        → IsType t
        → Visited kids st (e ∷ t ∷ [])
        → visit_cast p (attributes p l o (cast_exp c e t)) kids st ≡ ok (build (cast_exp c e t), st)
    unfolding visit_cast cast_of cast_children cast_child attrib_class get_named_item
    visit_cast-written c e t g hc he ht v =
        let x : Exp = cast_exp c e t in
        let i =
          int_or-written "ctype" c (attributes p l o x) hc
            (own_attribute p l o "ctype" x (refl, refl, refl)) in
        let f = flag-when d "implicit" l.info.compiler_generated (attributes p l o x) (
          own_attribute p l o "implicit" x (refl, refl, refl)
          ∙ get_named_item-when "implicit" l.info.compiler_generated (codes "1") refl) in
        let n = IsExpression-type e he in grind arith

    pub visit_label_ref-written :
        (t n : ℤ)
        → IsInt t
        → IsInt n
        → same_int t p.alternative_return ≡ false
        → visit_label_ref p (attributes p l o (label_ref t n)) kids st
          ≡ ok (build (label_ref t n), st)
    unfolding visit_label_ref attrib_class get_named_item
    visit_label_ref-written t n ht hn ha =
        let x = label_ref t n in
        let i =
          int_or-written "ltype" t (attributes p l o x) ht
            (own_attribute p l o "ltype" x (refl, refl, refl)) in
        let j =
          int_or-written "nlabel" n (attributes p l o x) hn
            (own_attribute p l o "nlabel" x (refl, refl, refl) ∙ (rw ha refl)) in
        grind arith
