-- ===== src/Write/Attributes.antt =====
-- The attributes of an element: the methods `attribSg…` of src/expr.cpp and src/value.cpp.
use xevxml.Prelude.{
  ℕ, List, ◌+◌, ◌-◌, ◌^◌, String, Bool, true, false, Bytes, codes, [], ◌∷◌, ◌++◌, Option, none,
  some, ltb, ◌==◌, if◌then◌else◌, not, ◌&&◌,
}
use xevxml.Stream.{ℤ, pos, negsuc, print_int, print_nat, print_bool, is_set}
use xevxml.Entity.{str_to_entity}
use xevxml.Xml.{Attrs}
use xevxml.Ast.Kinds.{CharKind, unsigned_char_val}
use xevxml.Ast.Node.{
  Located, Exp, OptNode, expr, unary_mode, numeric_val, bool_val, character_val, string_val,
  complex_val, actual_argument, aggregate_initializer, asm_op, assign_initializer, cast_exp,
  constructor_initializer, function_ref, label_ref, var_ref, user_defined_binary,
  user_defined_unary,
}
use xevxml.Platform.{Platform, Argument}

-- An attribute that is written only if a flag is set.
abbrev pub when : Bool → String → Bytes → Attrs
when true name v = (name, v) ∷ []
when false name v = []

abbrev pub is_empty : Bytes → Bool
is_empty [] = true
is_empty (c ∷ s) = false

-- What the macro `VISIT_VAL` writes: the spelling of the source if there is one, and it is not what
-- the stream prints.
unfoldable pub same_bytes : Bytes → Bytes → Bool
same_bytes [] [] = true
same_bytes (a ∷ s) (b ∷ t) = a == b && same_bytes s t
same_bytes _ _ = false

unfoldable pub same_int : ℤ → ℤ → Bool
same_int (pos m) (pos n) = m == n
same_int (negsuc m) (negsuc n) = m == n
same_int _ _ = false

unfoldable pub value_text : Bytes → Bytes → Bytes
value_text printed spelling =
    if not (is_empty spelling) && not (same_bytes spelling printed)
    then str_to_entity spelling
    else printed

-- `(unsigned long)c` for a `char` of 8 bits, which is signed, and an `unsigned char`.
unfoldable pub widen : CharKind → ℕ → ℕ
widen CharKind.char_val v = if ltb v 128 then v else v + (2 ^ 64 - 2 ^ 8)
widen unsigned_char_val v = v

-- The attributes of every expression, and of an initializer.
unfoldable pub type_attribute : Option Bytes → Attrs
type_attribute none = []
type_attribute (some code) = ("type", code) ∷ []

unfoldable pub cast_attribute : Exp → Attrs
cast_attribute (assign_initializer b x) = ("cast", print_bool b) ∷ []
cast_attribute _ = []

-- The literals of src/value.cpp do not call `attribSgExpression`.
unfoldable pub is_literal : Exp → Bool
is_literal (numeric_val k v s) = true
is_literal (bool_val b) = true
is_literal (character_val k v) = true
is_literal (string_val s f) = true
is_literal (complex_val r i) = true
is_literal _ = false

-- The loop on the arguments of a function, with the labels counted so far.
unfoldable pub alternative_label : List Argument → ℕ → Attrs
alternative_label [] counter = []
alternative_label (a ∷ args) counter =
    let rest = alternative_label args counter in
    let next = alternative_label args (counter + 1) in
    if a.is_label
    then (if a.is_parameter then ("nlabel", print_nat (counter + 1)) ∷ [] else next)
    else rest

module _ (p : Platform) where
  -- `attribSgExpression`
  unfoldable pub attrib_expression : Located → OptNode → Exp → Attrs
  attrib_expression l o e =
      type_attribute (p.type_code (expr l o e))
      ++ (when l.need_paren "paren" (codes "1") ++ cast_attribute e)

  -- A label: its number, or for an alternative return the position of the argument that it stands for.
  abbrev pub attrib_label_ref : Located → ℤ → ℤ → Attrs
  attrib_label_ref l t n =
      ("ltype", print_int t)
      ∷ (if same_int t p.alternative_return
          then alternative_label (p.enclosing_arguments l (label_ref t n)) 0
          else ("nlabel", print_int n) ∷ [])

  -- The attributes that a class writes before those of every expression.
  unfoldable pub attrib_class : Located → Exp → Attrs
  attrib_class l (unary_mode o m e) = ("mode", print_int m) ∷ []
  attrib_class l (numeric_val k v s) = ("value", value_text (p.to_string k v) s) ∷ []
  attrib_class l (bool_val b) = ("value", print_bool b) ∷ []
  attrib_class l (character_val k v) = ("value", print_nat (widen k v)) ∷ []
  attrib_class l (string_val s f) =
      ("value", str_to_entity s)
      ∷ (when f.single "single" (codes "1")
          ++ (when f.wchar "wchar" (codes "1")
              ++ (when f.string16 "string16" (codes "1")
                  ++ when f.string32 "string32" (codes "1"))))
  attrib_class l (actual_argument name e) = ("name", name) ∷ []
  attrib_class l (aggregate_initializer b e t) = when b "need_brace" (codes "1")
  attrib_class l (asm_op a e) =
      when (is_set a.constraint) "constraint" (print_int a.constraint)
      ++ (when (not (is_empty a.constraint_string)) "constraint_string"
            (str_to_entity a.constraint_string)
          ++ (when (is_set a.modifiers) "modifiers" (print_int a.modifiers)
              ++ (when (not (is_empty a.name)) "name" a.name
                  ++ (when a.record_raw "record" (codes "1")
                      ++ when a.is_output "output" (codes "1")))))
  attrib_class l (cast_exp c e t) =
      ("ctype", print_int c) ∷ when l.info.compiler_generated "implicit" (codes "1")
  attrib_class l (constructor_initializer f e t) =
      ("name", print_bool f.need_name)
      ∷ ("qual", print_bool f.need_qualifier)
      ∷ ("paren_after_name", print_bool f.need_parenthesis)
      ∷ ("unknown", print_bool f.class_unknown)
      ∷ []
  attrib_class l (function_ref name none) = ("name", name) ∷ []
  attrib_class l (function_ref name (some k)) =
      ("name", name) ∷ when (not (same_int k p.function_kind)) "kind" (print_int k)
  attrib_class l (label_ref t n) = attrib_label_ref l t n
  attrib_class l (var_ref name) = ("name", name) ∷ []
  attrib_class l (user_defined_binary name e r) = ("name", name) ∷ []
  attrib_class l (user_defined_unary name e) = ("name", name) ∷ []
  attrib_class l _ = []

  -- The attributes of the element of an expression.
  unfoldable pub attributes : Located → OptNode → Exp → Attrs
  attributes l o e = attrib_class l e ++ (if is_literal e then [] else attrib_expression l o e)
