-- ===== src/RoundTrip/Attributes.antt =====
-- What the readers find among the attributes that the writer put there.
use text.Mathlib.Text.{◌==◌ as str_eq}
use xevxml.Prelude.{
  ℕ, ◌+◌, List, String, ◌≡◌, refl, Bool, true, false, Option, none, some, [], ◌∷◌, ◌++◌, arith, not,
  ◌&&◌, Bool-cases, inl, inr, if◌then◌else◌, Bytes, codes,
}
use xevxml.Xml.{Attrs, get_named_item, get_int}
use xevxml.Ast.Kinds.{string_val, aggregate_initializer, asm_op, assign_initializer, cast_exp}
use xevxml.Ast.Node.{
  Located, SgNode, Exp, OptNode, transformation_info, expr, string_val, aggregate_initializer,
  asm_op, assign_initializer, cast_exp, function_ref, label_ref,
}
use xevxml.Platform.{Platform, Argument}
use xevxml.Read.Monad.{int_or}
use xevxml.Read.Expressions.{flag}
use xevxml.Read.Visit.{info_of, check_cast}
use xevxml.RoundTrip.Text.{DecodesEntities, decode-plain, print_bool-IsPlain}
use xevxml.Stream.RoundTrip.{is_set-print_bool}
use xevxml.Stream.{print_bool, print_int}
use xevxml.Write.Attributes.{
  when, type_attribute, cast_attribute, attrib_expression, attrib_class, attributes, is_literal,
  alternative_label, same_int,
}

-- Looking a name up in two lists of attributes.
abbrev pub or_else : Option Bytes → Option Bytes → Option Bytes
or_else none y = y
or_else (some v) y = some v

pub get_named_item-append :
    (n : String) (a b : Attrs)
    → get_named_item n (a ++ b) ≡ or_else (get_named_item n a) (get_named_item n b)
unfolding get_named_item
get_named_item-append n [] b = refl
get_named_item-append n ((m, v) ∷ a) b = ground (arith, get_named_item-append n a b)

pub or_else-none : (x : Option Bytes) → or_else x none ≡ x
or_else-none none = refl
or_else-none (some v) = refl

abbrev pub Lacks : String → Attrs → Type 0
Lacks n a = get_named_item n a ≡ none

pub Lacks-when : (n m : String) (b : Bool) (v : Bytes) → str_eq m n ≡ false → Lacks n (when b m v)
unfolding get_named_item
Lacks-when n m true v h = rw h
Lacks-when n m false v h = refl

pub get_named_item-when :
    (n : String) (b : Bool) (v : Bytes)
    → str_eq n n ≡ true
    → get_named_item n (when b n v) ≡ (if b then some v else none)
unfolding get_named_item
get_named_item-when n true v h = rw h
get_named_item-when n false v h = refl

-- An attribute of another name than those that every expression may have.
abbrev pub IsOwn : String → Type 0
IsOwn n = (str_eq "type" n ≡ false) × (str_eq "paren" n ≡ false) × (str_eq "cast" n ≡ false)

type_attribute-Lacks :
    (n : String) (t : Option Bytes) → str_eq "type" n ≡ false → Lacks n (type_attribute t)
unfolding type_attribute get_named_item
type_attribute-Lacks n none h = refl
type_attribute-Lacks n (some code) h = rw h

cast_attribute-Lacks : (n : String) (e : Exp) → str_eq "cast" n ≡ false → Lacks n (cast_attribute e)
unfolding cast_attribute get_named_item
cast_attribute-Lacks n (assign_initializer b x) h = rw h
cast_attribute-Lacks n _ h = refl

alternative_label-Lacks :
    (n : String) (args : List Argument) (counter : ℕ)
    → str_eq "nlabel" n ≡ false
    → Lacks n (alternative_label args counter)
unfolding alternative_label get_named_item
alternative_label-Lacks n [] counter h = refl
alternative_label-Lacks n (a ∷ args) counter h = ground (
  arith,
  alternative_label-Lacks n args counter h,
  alternative_label-Lacks n args (counter + 1) h,
)

label-Lacks :
    (n : String) (b : Bool) (args : List Argument) (v : Bytes)
    → str_eq "nlabel" n ≡ false
    → Lacks n (if b then alternative_label args 0 else ("nlabel", v) ∷ [])
unfolding get_named_item
label-Lacks n true args v h = alternative_label-Lacks n args 0 h
label-Lacks n false args v h = rw h refl

module _ (p : Platform) (l : Located) (o : OptNode) where
  attrib_expression-parts :
      (e : Exp)
      → attrib_expression p l o e
        ≡ type_attribute (p.type_code (expr l o e))
          ++ (when l.need_paren "paren" (codes "1") ++ cast_attribute e)
  unfolding attrib_expression
  attrib_expression-parts e = refl

  pub attrib_expression-Lacks :
      (n : String) (e : Exp) → IsOwn n → Lacks n (attrib_expression p l o e)
  attrib_expression-Lacks n e h =
      rw
        (
          attrib_expression-parts e,
          get_named_item-append,
          get_named_item-append,
          type_attribute-Lacks n (p.type_code (expr l o e)) h.0,
          Lacks-when n "paren" l.need_paren (codes "1") h.1,
          cast_attribute-Lacks n e h.2,
        )
        refl

  pub paren_of-expression :
      (e : Exp)
      → get_named_item "paren" (attrib_expression p l o e)
        ≡ (if l.need_paren then some (codes "1") else none)
  paren_of-expression e =
      rw
        (
          attrib_expression-parts e,
          get_named_item-append,
          get_named_item-append,
          type_attribute-Lacks "paren" (p.type_code (expr l o e)) refl,
          get_named_item-when "paren" l.need_paren (codes "1") refl,
          cast_attribute-Lacks "paren" e refl,
        )
        (ground arith)

  class-Lacks-unparse : (e : Exp) → Lacks "unparse" (attrib_class p l e)
  unfolding attrib_class get_named_item
  class-Lacks-unparse (string_val s f) = grind (arith, get_named_item-append, Lacks-when)
  class-Lacks-unparse (asm_op a e) = grind (arith, get_named_item-append, Lacks-when)
  class-Lacks-unparse (aggregate_initializer b e t) = grind (arith, Lacks-when)
  class-Lacks-unparse (cast_exp b e t) = grind (arith, Lacks-when)
  class-Lacks-unparse (function_ref n none) = refl
  class-Lacks-unparse (function_ref n (some k)) = grind (arith, Lacks-when)
  class-Lacks-unparse (label_ref t n) =
      label-Lacks "unparse" (same_int t p.alternative_return)
        (p.enclosing_arguments l (label_ref t n)) (print_int n) refl
  class-Lacks-unparse _ = refl

  class-Lacks-paren : (e : Exp) → Lacks "paren" (attrib_class p l e)
  unfolding attrib_class get_named_item
  class-Lacks-paren (string_val s f) = grind (arith, get_named_item-append, Lacks-when)
  class-Lacks-paren (asm_op a e) = grind (arith, get_named_item-append, Lacks-when)
  class-Lacks-paren (aggregate_initializer b e t) = grind (arith, Lacks-when)
  class-Lacks-paren (cast_exp b e t) = grind (arith, Lacks-when)
  class-Lacks-paren (function_ref n none) = refl
  class-Lacks-paren (function_ref n (some k)) = grind (arith, Lacks-when)
  class-Lacks-paren (label_ref t n) =
      label-Lacks "paren" (same_int t p.alternative_return)
        (p.enclosing_arguments l (label_ref t n)) (print_int n) refl
  class-Lacks-paren _ = refl

  -- What a class writes behind its own attributes.
  pub expression_attributes : Exp → Attrs
  expression_attributes e = if is_literal e then [] else attrib_expression p l o e

  attributes-lookup :
      (n : String) (e : Exp)
      → get_named_item n (attributes p l o e)
        ≡ or_else
            (get_named_item n (attrib_class p l e))
            (get_named_item n (expression_attributes e))
  unfolding attributes expression_attributes
  attributes-lookup n e = get_named_item-append n (attrib_class p l e) (expression_attributes e)

  expression-Lacks : (n : String) (e : Exp) → IsOwn n → Lacks n (expression_attributes e)
  unfolding expression_attributes get_named_item
  expression-Lacks n e h = elim (Bool-cases (is_literal e)) [
    | inl k ↦ rw k refl
    | inr k ↦ rw k (attrib_expression-Lacks n e h)
  ]

  -- An element says nothing against its node's being unparsed.
  pub unparse_of-attributes : (e : Exp) → Lacks "unparse" (attributes p l o e)
  unparse_of-attributes e =
      rw (attributes-lookup, class-Lacks-unparse e)
        (expression-Lacks "unparse" e (refl, refl, refl))

  pub paren_of-attributes :
      (e : Exp)
      → get_named_item "paren" (attributes p l o e)
        ≡ (if not (is_literal e) && l.need_paren then some (codes "1") else none)
  unfolding expression_attributes get_named_item
  paren_of-attributes e = elim (Bool-cases (is_literal e)) [
    | inl k ↦ rw (attributes-lookup, class-Lacks-paren e, k) refl
    | inr k ↦ rw (attributes-lookup, class-Lacks-paren e, k) (paren_of-expression e)
  ]

  pub cast_of-attributes :
      (b : Bool) (x : SgNode)
      → get_named_item "cast" (attributes p l o (assign_initializer b x)) ≡ some (print_bool b)
  unfolding attributes is_literal attrib_class cast_attribute get_named_item
  cast_of-attributes b x =
      rw
        (
          attrib_expression-parts (assign_initializer b x),
          get_named_item-append,
          get_named_item-append,
          type_attribute-Lacks "cast" (p.type_code (expr l o (assign_initializer b x))) refl,
          Lacks-when "cast" "paren" l.need_paren (codes "1") refl,
        )
        refl

  pub own_attribute :
      (n : String) (e : Exp)
      → IsOwn n
      → get_named_item n (attributes p l o e) ≡ get_named_item n (attrib_class p l e)
  own_attribute n e h =
      rw (attributes-lookup, expression-Lacks n e h)
        (or_else-none (get_named_item n (attrib_class p l e)))

module _ {p : Platform} (d : DecodesEntities p) where
  pub flag-print_bool :
      (n : String) (b : Bool) (atts : Attrs)
      → get_named_item n atts ≡ some (print_bool b)
      → flag p atts n ≡ b
  unfolding int_or get_int
  flag-print_bool n b atts h =
      rw (flag, int_or, get_int, h, decode-plain d (print_bool b) (print_bool-IsPlain b))
        (is_set-print_bool p.tmp b)

  pub flag-when :
      (n : String) (b : Bool) (atts : Attrs)
      → get_named_item n atts ≡ (if b then some (codes "1") else none)
      → flag p atts n ≡ b
  unfolding int_or get_int print_bool
  flag-when n true atts h = flag-print_bool n true atts h
  flag-when n false atts h = rw (flag, int_or, get_int, h) refl

  module _ (l : Located) (o : OptNode) (e : Exp) where
    -- The parentheses around a literal are not written.
    pub paren-attributes :
        flag p (attributes p l o e) "paren" ≡ (not (is_literal e) && l.need_paren)
    paren-attributes =
        flag-when "paren" (not (is_literal e) && l.need_paren) (attributes p l o e)
          (paren_of-attributes p l o e)

    pub info_of-attributes : info_of p (attributes p l o e) ≡ transformation_info
    unfolding info_of get_int
    info_of-attributes = rw (info_of, get_int, unparse_of-attributes p l o e) refl

  pub check_cast-attributes :
      (l : Located) (o : OptNode) (e : Exp) → check_cast p (attributes p l o e) e ≡ e
  unfolding check_cast get_int
  check_cast-attributes l o (assign_initializer b x) =
      rw
        (
          check_cast,
          get_int,
          cast_of-attributes p l o b x,
          decode-plain d (print_bool b) (print_bool-IsPlain b),
          is_set-print_bool p.tmp b,
        )
        refl
  check_cast-attributes l o _ = refl
