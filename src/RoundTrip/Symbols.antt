-- ===== src/RoundTrip/Symbols.antt =====
-- References to variables, functions and operators (src/expr.cpp), which are looked up by their names.
use xevxml.Prelude.{◌≡◌, refl, ◌∙◌, not, Option, none, some, List, [], ◌∷◌, arith, Bytes, All}
use xevxml.Result.{ok}
use xevxml.Stream.{ℤ, print_int}
use xevxml.Stream.RoundTrip.{IsInt, stream_int-print_int}
use xevxml.Xml.{get_named_item, get_int}
use xevxml.Ast.Node.{
  Located, SgNode, OptNode, opt, is_expression, function_ref, var_ref, user_defined_binary,
}
use xevxml.Platform.{Platform, Scopes}
use xevxml.Write.Attributes.{same_int, attrib_class, attributes}
use xevxml.Read.Monad.{Child, require_string}
use xevxml.Read.Slots.{fill, first, build, build_with}
use xevxml.Read.Operands.{two_operands}
use xevxml.Read.Symbols.{resolve_variable, resolve_function, set_kind}
use xevxml.Read.Expressions.{
  visit_function_ref, visit_var_ref, require_function, visit_user_defined_binary,
}
use xevxml.RoundTrip.Text.{DecodesEntities, IsPlain, decode-plain, print_int-IsPlain}
use xevxml.RoundTrip.Attributes.{get_named_item-when, own_attribute}
use xevxml.RoundTrip.Fits.{IsExpression, IsKind}
use xevxml.RoundTrip.Operands.{Visited}
use xevxml.RoundTrip.Classes.{string_of}

module _ {p : Platform} (d : DecodesEntities p) where
  module _ (l : Located) (o : OptNode) (kids : List Child) (st : Scopes) where
    pub visit_user_defined_binary-written :
        (name : Bytes) (a b : SgNode) (f : Bytes × Option ℤ)
        → IsExpression a
        → IsExpression b
        → All IsPlain name
        → p.lookup_function st name ≡ some f
        → Visited kids st (a ∷ b ∷ [])
        → visit_user_defined_binary p (attributes p l o (user_defined_binary name a b)) kids st
          ≡ ok (build (user_defined_binary name a b), st)
    unfolding visit_user_defined_binary require_function require_string two_operands fill attributes
        attrib_class get_named_item
    visit_user_defined_binary-written name a b f ha hb hn hf v =
        let s = string_of d "name" name (attributes p l o (user_defined_binary name a b)) hn refl in
        grind arith

    pub visit_var_ref-written :
        (name : Bytes)
        → All IsPlain name
        → resolve_variable p st name ≡ ok name
        → Visited kids st (opt o)
        → visit_var_ref p (attributes p l o (var_ref name)) kids st
          ≡ ok (build_with (first is_expression (opt o)) (var_ref name), st)
    unfolding visit_var_ref require_string attributes attrib_class get_named_item
    visit_var_ref-written name hn hr v =
        let s = string_of d "name" name (attributes p l o (var_ref name)) hn refl in grind arith

    kind-written :
        (name : Bytes) (k : ℤ)
        → IsInt k
        → set_kind p
            (some k)
            (get_int p.decode p.tmp "kind" (attributes p l o (function_ref name (some k))))
          ≡ some k
    unfolding set_kind get_int attrib_class get_named_item
    kind-written name k h =
        let own =
          own_attribute p l o "kind" (function_ref name (some k)) (refl, refl, refl)
          ∙ get_named_item-when "kind" (not (same_int k p.function_kind)) (print_int k) refl in
        let e = decode-plain d (print_int k) (print_int-IsPlain k) in
        let r = stream_int-print_int p.tmp k h in grind arith

    -- A reference to a function that the symbol table knows under its name and with its kind comes
    -- back, whether the attribute for the kind is written or not, with the original tree that its
    -- element holds, if its name, which is written raw, holds only characters that an attribute
    -- carries as they are, and its kind is an int. The parser must give back a text whose
    -- characters were written as entities.
    pub visit_function_ref-written :
        (name : Bytes) (k : Option ℤ)
        → All IsPlain name
        → resolve_function p st name ≡ (name, k)
        → IsKind p st k
        → Visited kids st (opt o)
        → visit_function_ref p (attributes p l o (function_ref name k)) kids st
          ≡ ok (build_with (first is_expression (opt o)) (function_ref name k), st)
    unfolding visit_function_ref require_string attributes attrib_class get_named_item set_kind
    visit_function_ref-written name none hn hr hk v =
        let s = string_of d "name" name (attributes p l o (function_ref name none)) hn refl in
        grind arith
    visit_function_ref-written name (some k) hn hr hk v =
        let s = string_of d "name" name (attributes p l o (function_ref name (some k))) hn refl in
        let w = kind-written name k hk in grind arith
