-- ===== src/RoundTrip/Assembler.antt =====
-- `SgAsmOp`, whose attributes are written only if they say something (src/expr.cpp).
use xevxml.Prelude.{
  zero, suc, String, ◌≡◌, refl, ◌∙◌, not, Option, none, some, List, [], ◌∷◌, arith, if◌then◌else◌,
  Bytes, codes, All,
}
use xevxml.Result.{ok}
use xevxml.Stream.{ℤ, print_int, is_set, pos, negsuc}
use xevxml.Stream.RoundTrip.{IsInt, stream_int-print_int}
use xevxml.Entity.{str_to_entity, entity_to_str}
use xevxml.Xml.{Attrs, get_named_item, get_string, get_int}
use xevxml.Ast.Kinds.{asm_op}
use xevxml.Ast.Node.{Located, AsmOperand, OptNode, opt, is_expression, asm_op, null, node}
use xevxml.Platform.{Platform, Scopes}
use xevxml.Write.Attributes.{is_empty, attrib_class, attributes}
use xevxml.Read.Monad.{Child, int_or, string_or}
use xevxml.Read.Slots.{first, build}
use xevxml.Read.Expressions.{visit_asm_op}
use xevxml.RoundTrip.Text.{
  DecodesEntities, IsRestorable, IsPlain, decode-plain, decode-restorable, print_int-IsPlain,
}
use xevxml.RoundTrip.Attributes.{
  get_named_item-append, Lacks-when, get_named_item-when, IsOwn, own_attribute, flag-when,
}
use xevxml.RoundTrip.Fits.{IsExpression, IsNullOr, IsAsmOperand}
use xevxml.RoundTrip.Operands.{Visited}

pub first-opt : (e : OptNode) → IsNullOr IsExpression e → first is_expression (opt e) ≡ e
unfolding first
first-opt null h = refl
first-opt (node e) h = grind arith

module _ {p : Platform} (d : DecodesEntities p) where
  int_or-when :
      (n : String) (z : ℤ) (atts : Attrs)
      → IsInt z
      → get_named_item n atts ≡ (if is_set z then some (print_int z) else none)
      → int_or p atts n (pos 0) ≡ z
  unfolding int_or get_int
  int_or-when n (pos zero) atts h e = grind arith
  int_or-when n (pos (suc z)) atts h e =
      let a = decode-plain d (print_int (pos (suc z))) (print_int-IsPlain (pos (suc z))) in
      let b = stream_int-print_int p.tmp (pos (suc z)) h in grind arith
  int_or-when n (negsuc z) atts h e =
      let a = decode-plain d (print_int (negsuc z)) (print_int-IsPlain (negsuc z)) in
      let b = stream_int-print_int p.tmp (negsuc z) h in grind arith

  text_or-when :
      (n : String) (s : Bytes) (atts : Attrs)
      → IsRestorable s
      → get_named_item n atts ≡ (if not (is_empty s) then some (str_to_entity s) else none)
      → entity_to_str (string_or p atts n) ≡ s
  unfolding string_or get_string
  text_or-when n [] atts h e = let a = h.no_entity in grind arith
  text_or-when n (c ∷ s) atts h e = let a = decode-restorable d (c ∷ s) h in grind arith

  name_or-when :
      (n : String) (s : Bytes) (atts : Attrs)
      → All IsPlain s
      → get_named_item n atts ≡ (if not (is_empty s) then some s else none)
      → string_or p atts n ≡ s
  unfolding string_or get_string
  name_or-when n [] atts h e = grind arith
  name_or-when n (c ∷ s) atts h e = let a = decode-plain d (c ∷ s) h in grind arith

  module _ (l : Located) (o : OptNode) (a : AsmOperand) (e : OptNode) where
    own :
        (n : String) (v : Option Bytes)
        → IsOwn n
        → get_named_item n (attrib_class p l (asm_op a e)) ≡ v
        → get_named_item n (attributes p l o (asm_op a e)) ≡ v
    own n v h k = own_attribute p l o n (asm_op a e) h ∙ k

    constraint-written :
        get_named_item "constraint" (attributes p l o (asm_op a e))
        ≡ (if is_set a.constraint then some (print_int a.constraint) else none)
    unfolding attrib_class get_named_item
    constraint-written =
        own "constraint" _ (refl, refl, refl)
          (grind (arith, get_named_item-append, get_named_item-when, Lacks-when))

    text-written : get_named_item "constraint_string" (attributes p l o (asm_op a e)) ≡ (
        if not (is_empty a.constraint_string)
        then some (str_to_entity a.constraint_string)
        else none)
    unfolding attrib_class get_named_item
    text-written =
        own "constraint_string" _ (refl, refl, refl)
          (grind (arith, get_named_item-append, get_named_item-when, Lacks-when))

    modifiers-written :
        get_named_item "modifiers" (attributes p l o (asm_op a e))
        ≡ (if is_set a.modifiers then some (print_int a.modifiers) else none)
    unfolding attrib_class get_named_item
    modifiers-written =
        own "modifiers" _ (refl, refl, refl)
          (grind (arith, get_named_item-append, get_named_item-when, Lacks-when))

    name-written :
        get_named_item "name" (attributes p l o (asm_op a e))
        ≡ (if not (is_empty a.name) then some a.name else none)
    unfolding attrib_class get_named_item
    name-written =
        own "name" _ (refl, refl, refl)
          (grind (arith, get_named_item-append, get_named_item-when, Lacks-when))

    record-written :
        get_named_item "record" (attributes p l o (asm_op a e))
        ≡ (if a.record_raw then some (codes "1") else none)
    unfolding attrib_class get_named_item
    record-written =
        own "record" _ (refl, refl, refl)
          (grind (arith, get_named_item-append, get_named_item-when, Lacks-when))

    output-written :
        get_named_item "output" (attributes p l o (asm_op a e))
        ≡ (if a.is_output then some (codes "1") else none)
    unfolding attrib_class get_named_item
    output-written =
        own "output" _ (refl, refl, refl)
          (grind (arith, get_named_item-append, get_named_item-when, Lacks-when))

    -- An assembler operand comes back from its six attributes, those that are left out because they
    -- are zero or empty included, if its child, when there is one, is an expression, its two
    -- numbers are ints, its constraint text holds XML characters only and nothing that reads as an
    -- entity, and its name, which is written raw, holds only characters that an attribute carries
    -- as they are. The parser must give back a text whose characters were written as entities.
    pub visit_asm_op-written :
        (kids : List Child) (st : Scopes)
        → IsNullOr IsExpression e
        → IsAsmOperand a
        → Visited kids st (opt e)
        → visit_asm_op p (attributes p l o (asm_op a e)) kids st ≡ ok (build (asm_op a e), st)
    unfolding visit_asm_op
    visit_asm_op-written kids st he ha v =
        let atts = attributes p l o (asm_op a e) in
        let c = int_or-when "constraint" a.constraint atts ha.0 constraint-written in
        let t = text_or-when "constraint_string" a.constraint_string atts ha.1.0 text-written in
        let m = int_or-when "modifiers" a.modifiers atts ha.1.1.0 modifiers-written in
        let n = name_or-when "name" a.name atts ha.1.1.1 name-written in
        let r = flag-when d "record" a.record_raw atts record-written in
        let u = flag-when d "output" a.is_output atts output-written in
        let f = first-opt e he in grind arith
