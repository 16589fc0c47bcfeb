-- ===== src/RoundTrip/Literals.antt =====
-- Literals: the visitors of src/value.cpp read what its `attribSg…` wrote.
use mathlib.Core.Path.{fun_ext}
use xevxml.Prelude.{
  ℕ, ◌%◌, ◌^◌, ◌<◌, String, ◌≡◌, refl, ◌∙◌, Bool, Bool-cases, inl, inr, true, false, none, some,
  List, [], ◌∷◌, arith, if◌then◌else◌, Bytes, codes, All,
}
use xevxml.Stream.{print_nat, print_bool}
use xevxml.Stream.RoundTrip.{is_set-print_bool, stream_ulong-print_nat}
use xevxml.Entity.{str_to_entity}
use xevxml.Xml.{get_named_item, get_string, get_int}
use xevxml.Ast.Kinds.{NumericVal, CharKind, unsigned_char_val, string_val}
use xevxml.Ast.Node.{
  Located, StringFlags, OptNode, numeric_val, bool_val, character_val, string_val,
}
use xevxml.Platform.{Platform}
use xevxml.Write.Attributes.{same_bytes, value_text, widen, attrib_class, attributes, is_literal}
use xevxml.Read.Monad.{Child, require_string, require_int}
use xevxml.Read.Values.{
  with_original, spelling_of, visit_numeric, visit_bool_val, visit_char, visit_string_val,
}
use xevxml.Read.Expressions.{flag}
use xevxml.RoundTrip.Attributes.{
  get_named_item-append, Lacks-when, get_named_item-when, IsOwn, own_attribute, flag-when,
}
use xevxml.RoundTrip.Text.{
  DecodesEntities, IsRestorable, IsPlain, entity_to_str-plain, decode-plain, decode-restorable,
  print_nat-IsPlain, print_bool-IsPlain,
}

-- A numeric literal as the front end leaves it: its spelling is missing, or it is not what the stream
-- prints, and the stream reads it as the value.
pub record IsSpelling (p : Platform) (k : NumericVal) (v : ℕ) (s : Bytes) : Type 0 where
  pub restorable : IsRestorable s
  pub other : same_bytes s (p.to_string k v) ≡ false
  pub reads : p.stream_in k s ≡ v

abbrev pub IsLiteral : Platform → NumericVal → ℕ → Bytes → Type 0
IsLiteral p k v [] = (p.stream_in k (p.to_string k v) ≡ v) × All IsPlain (p.to_string k v)
IsLiteral p k v (c ∷ s) = IsSpelling p k v (c ∷ s)

-- A spelling that the stream reads as the value, if there is one.
abbrev pub ReadsAs : Platform → NumericVal → ℕ → Bytes → Type 0
ReadsAs p k v [] = Unit
ReadsAs p k v (c ∷ s) = IsRestorable (c ∷ s) × (p.stream_in k (c ∷ s) ≡ v)

same_bytes_refl : (s : Bytes) → same_bytes s s ≡ true
unfolding same_bytes
same_bytes_refl [] = refl
same_bytes_refl (c ∷ s) = ground (arith, same_bytes_refl s)

value_text-same : (s t : Bytes) → same_bytes s t ≡ true → value_text t s ≡ t
unfolding value_text
value_text-same s t h = ground arith

widen-bound : (k : CharKind) (v : ℕ) → v < 256 → widen k v < 2 ^ 64
unfolding widen
widen-bound CharKind.char_val v h = ground arith
widen-bound unsigned_char_val v h = omega (arith, h)

-- The cast to `char` undoes the cast to `unsigned long`.
pub widen-low : (k : CharKind) (v : ℕ) → v < 256 → widen k v % 256 ≡ v
unfolding widen
widen-low CharKind.char_val v h = ground arith
widen-low unsigned_char_val v h = ground arith

module _ {p : Platform} (d : DecodesEntities p) (l : Located) (o : OptNode)
    (kids : List Child) where
  pub visit_numeric-attributes :
      (k : NumericVal) (v : ℕ) (s : Bytes)
      → IsLiteral p k v s
      → visit_numeric p (attributes p l o (numeric_val k v s)) kids k
        ≡ with_original kids (numeric_val k v s)
  unfolding visit_numeric attributes is_literal attrib_class get_named_item get_string
      require_string value_text spelling_of
  visit_numeric-attributes k v [] h = fun_ext λ st.
      rw
        (
          spelling_of,
          decode-plain d (p.to_string k v) h.1,
          h.0,
          entity_to_str-plain (p.to_string k v) h.1,
          same_bytes_refl (p.to_string k v),
        )
        refl
  visit_numeric-attributes k v (c ∷ s) h = fun_ext λ st.
      rw
        (
          spelling_of,
          value_text,
          h.other,
          d.at (c ∷ s) h.restorable.chars,
          h.restorable.no_entity,
          h.reads,
          h.other,
        )
        refl

  -- A numeric literal comes back from its attributes with its value and with the spelling of the
  -- source, but a spelling that is what the stream prints is dropped. What the stream prints is
  -- read as the value and holds only characters that an attribute carries as they are; a spelling,
  -- if there is one, is read as the value and holds XML characters only and nothing that reads as
  -- an entity. The parser must give back a text whose characters were written as entities.
  pub visit_numeric-written :
      (k : NumericVal) (v : ℕ) (s : Bytes)
      → p.stream_in k (p.to_string k v) ≡ v
      → All IsPlain (p.to_string k v)
      → ReadsAs p k v s
      → visit_numeric p (attributes p l o (numeric_val k v s)) kids k
        ≡ with_original kids (numeric_val k v (if same_bytes s (p.to_string k v) then [] else s))
  unfolding visit_numeric attributes is_literal attrib_class get_named_item get_string
      require_string spelling_of
  visit_numeric-written k v [] r h a = elim (Bool-cases (same_bytes [] (p.to_string k v))) [
    | inl q ↦ rw q (visit_numeric-attributes k v [] (r, h))
    | inr q ↦ rw q (visit_numeric-attributes k v [] (r, h))
  ]
  visit_numeric-written k v (c ∷ s) r h a =
      elim (Bool-cases (same_bytes (c ∷ s) (p.to_string k v))) [
        | inl q ↦ fun_ext λ st.
            rw
              (
                spelling_of,
                value_text-same (c ∷ s) (p.to_string k v) q,
                q,
                decode-plain d (p.to_string k v) h,
                r,
                entity_to_str-plain (p.to_string k v) h,
                same_bytes_refl (p.to_string k v),
              )
              refl
        | inr q ↦ rw q (
            visit_numeric-attributes k v (c ∷ s)
              (record { restorable = a.0; other = q; reads = a.1 }))
      ]

  pub visit_bool_val-attributes :
      (b : Bool)
      → visit_bool_val p (attributes p l o (bool_val b)) kids ≡ with_original kids (bool_val b)
  unfolding visit_bool_val attributes is_literal attrib_class get_named_item get_int require_int
  visit_bool_val-attributes b = fun_ext λ st.
      rw (decode-plain d (print_bool b) (print_bool-IsPlain b), is_set-print_bool p.tmp b) refl

  -- A character of 8 bits comes back from its attributes, negative or not: the cast to char undoes
  -- the cast to unsigned long with which it is written. The parser must give back a text whose
  -- characters were written as entities.
  pub visit_char-attributes :
      (k : CharKind) (v : ℕ)
      → v < 256
      → visit_char p (attributes p l o (character_val k v)) kids k
        ≡ with_original kids (character_val k v)
  unfolding visit_char attributes is_literal attrib_class get_named_item get_string require_string
  visit_char-attributes k v h = fun_ext λ st.
      rw
        (
          decode-plain d (print_nat (widen k v)) (print_nat-IsPlain (widen k v)),
          stream_ulong-print_nat p.tmp_ulong (widen k v) (widen-bound k v h),
          widen-low k v h,
        )
        refl

  string_flag :
      (n : String) (b : Bool) (s : Bytes) (f : StringFlags)
      → IsOwn n
      → get_named_item n (attrib_class p l (string_val s f))
        ≡ (if b then some (codes "1") else none)
      → flag p (attributes p l o (string_val s f)) n ≡ b
  string_flag n b s f h e = flag-when d n b _ (own_attribute p l o n (string_val s f) h ∙ e)

  single-attributes :
      (s : Bytes) (f : StringFlags) → flag p (attributes p l o (string_val s f)) "single" ≡ f.single
  unfolding attrib_class get_named_item
  single-attributes s f =
      string_flag "single" f.single s f (refl, refl, refl)
        (grind (arith, get_named_item-append, get_named_item-when, Lacks-when))

  wchar-attributes :
      (s : Bytes) (f : StringFlags) → flag p (attributes p l o (string_val s f)) "wchar" ≡ f.wchar
  unfolding attrib_class get_named_item
  wchar-attributes s f =
      string_flag "wchar" f.wchar s f (refl, refl, refl)
        (grind (arith, get_named_item-append, get_named_item-when, Lacks-when))

  string16-attributes :
      (s : Bytes) (f : StringFlags)
      → flag p (attributes p l o (string_val s f)) "string16" ≡ f.string16
  unfolding attrib_class get_named_item
  string16-attributes s f =
      string_flag "string16" f.string16 s f (refl, refl, refl)
        (grind (arith, get_named_item-append, get_named_item-when, Lacks-when))

  string32-attributes :
      (s : Bytes) (f : StringFlags)
      → flag p (attributes p l o (string_val s f)) "string32" ≡ f.string32
  unfolding attrib_class get_named_item
  string32-attributes s f =
      string_flag "string32" f.string32 s f (refl, refl, refl)
        (grind (arith, get_named_item-append, get_named_item-when, Lacks-when))

  value-attributes :
      (s : Bytes) (f : StringFlags)
      → get_named_item "value" (attributes p l o (string_val s f)) ≡ some (str_to_entity s)
  unfolding attributes is_literal attrib_class get_named_item
  value-attributes s f = refl

  -- A string literal comes back from its attributes with its four flags, if its text holds XML
  -- characters only and nothing that reads as an entity. The parser must give back a text whose
  -- characters were written as entities.
  pub visit_string_val-attributes :
      (s : Bytes) (f : StringFlags)
      → IsRestorable s
      → visit_string_val p (attributes p l o (string_val s f)) kids
        ≡ with_original kids (string_val s f)
  unfolding visit_string_val require_string get_string
  visit_string_val-attributes s f h = fun_ext λ st.
      rw
        (
          visit_string_val,
          require_string,
          get_string,
          value-attributes s f,
          decode-restorable d s h,
          single-attributes s f,
          wchar-attributes s f,
          string16-attributes s f,
          string32-attributes s f,
        )
        refl
