-- ===== src/Statement/Names.antt =====
-- The names of expressions, of statements for input and output and of the other statements are told
-- apart.
use text.Mathlib.Text.{◌==◌ as str_eq}
use text.Mathlib.TextEquality.{eq_iff}
use mathlib.Core.Option.{none-ne-some}
use xevxml.Prelude.{
  String, ◌≡◌, refl, sym, ap, ◌∙◌, inl, inr, Bool, true, false, ◌&&◌, Option, none, some, List, [],
  ◌∷◌, arith, Bool-cases,
}
use xevxml.Xml.{Doms, Attrs, element}
use xevxml.Result.{ok}
use xevxml.Ast.Kinds.{Variant}
use xevxml.Ast.Names.{variant_of}
use xevxml.Ast.Node.{SgNode}
use xevxml.Platform.{Platform, Scopes}
use xevxml.Read.Visit.{visit_element, visit}
use xevxml.Statement.Io.Kinds.{
  IoClass, io_class_name, backspace_statement, close_statement, endfile_statement, flush_statement,
  inquire_statement, open_statement, print_statement, read_statement, rewind_statement,
  wait_statement, write_statement,
}
use xevxml.Statement.Io.Read.{search_io, io_class_of}
use xevxml.Statement.HeadReaders.{HeadReader, head_readers, search_head, head_reader}

abbrev is_none : Option Variant → Bool
is_none none = true
is_none (some v) = false

unfoldable no_expressions : List (String × HeadReader) → Bool
no_expressions [] = true
no_expressions ((n, r) ∷ rs) = is_none (variant_of n) && no_expressions rs

unfoldable no_io_expressions : List IoClass → Bool
no_io_expressions [] = true
no_io_expressions (c ∷ cs) = is_none (variant_of (io_class_name c)) && no_io_expressions cs

is_none-eq : (o : Option Variant) → is_none o ≡ true → o ≡ none
is_none-eq none h = refl
is_none-eq (some v) h = absurd (grind arith)

module _ (name : String) (v : Variant) (h : variant_of name ≡ some v) where
  not_named : (n : String) → is_none (variant_of n) ≡ true → str_eq n name ≡ false
  not_named n k = elim (Bool-cases (str_eq n name)) [
    | inr q ↦ q
    | inl q ↦ absurd (
        none-ne-some v
          (sym (is_none-eq (variant_of n) k) ∙ (ap variant_of ((eq_iff n name).0 q) ∙ h)))
  ]

  search_head-none :
      (rs : List (String × HeadReader)) → no_expressions rs ≡ true → search_head rs name ≡ none
  unfolding search_head no_expressions
  search_head-none [] k = refl
  search_head-none ((n, r) ∷ rs) k =
      let q : (is_none (variant_of n) ≡ true) × (no_expressions rs ≡ true) = grind arith in
      rw (not_named n q.0) (search_head-none rs q.1)

  search_io-none : (cs : List IoClass) → no_io_expressions cs ≡ true → search_io cs name ≡ none
  unfolding search_io no_io_expressions
  search_io-none [] k = refl
  search_io-none (c ∷ cs) k =
      let q : (is_none (variant_of (io_class_name c)) ≡ true) × (no_io_expressions cs ≡ true) =
        grind arith in
      rw (not_named (io_class_name c) q.0) (search_io-none cs q.1)

  pub head_reader-expression : head_reader name ≡ none
  unfolding head_reader head_readers no_expressions variant_of
  head_reader-expression = search_head-none head_readers refl

  pub io_class_of-expression : io_class_of name ≡ none
  unfolding io_class_of no_io_expressions variant_of io_class_name
  io_class_of-expression =
      search_io-none
        (backspace_statement ∷ close_statement ∷ endfile_statement ∷ flush_statement
          ∷ inquire_statement ∷ open_statement ∷ print_statement ∷ read_statement ∷ rewind_statement
          ∷ wait_statement ∷ write_statement ∷ [])
        refl

pub head_reader-io : (c : IoClass) → head_reader (io_class_name c) ≡ none
unfolding head_reader search_head head_readers io_class_name
head_reader-io backspace_statement = refl
head_reader-io close_statement = refl
head_reader-io endfile_statement = refl
head_reader-io flush_statement = refl
head_reader-io inquire_statement = refl
head_reader-io open_statement = refl
head_reader-io print_statement = refl
head_reader-io read_statement = refl
head_reader-io rewind_statement = refl
head_reader-io wait_statement = refl
head_reader-io write_statement = refl

pub io_class_name-own : (c : IoClass) → str_eq (io_class_name c) "PreprocessingInfo" ≡ false
unfolding io_class_name
io_class_name-own backspace_statement = refl
io_class_name-own close_statement = refl
io_class_name-own endfile_statement = refl
io_class_name-own flush_statement = refl
io_class_name-own inquire_statement = refl
io_class_name-own open_statement = refl
io_class_name-own print_statement = refl
io_class_name-own read_statement = refl
io_class_name-own rewind_statement = refl
io_class_name-own wait_statement = refl
io_class_name-own write_statement = refl

module _ (p : Platform) (name : String) (atts : Attrs) (ds : Doms) (st : Scopes) (n : SgNode)
    (h : visit p (element name atts ds) st ≡ ok (some n, st))
    (own : str_eq name "PreprocessingInfo" ≡ false) where
  variant_here :
      (o : Option Variant) → variant_of name ≡ o → (v : Variant) × (variant_of name ≡ some v)
  unfolding visit visit_element
  variant_here none e = absurd (grind arith)
  variant_here (some v) e = (v, e)

  -- An element that is read as an expression or a type has the name of one.
  pub visit-variant : (v : Variant) × (variant_of name ≡ some v)
  visit-variant = variant_here (variant_of name) refl
