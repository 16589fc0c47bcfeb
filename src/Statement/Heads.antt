-- ===== src/Statement/Heads.antt =====
-- The attributes of a statement give its class again, with what it keeps in them.
use text.Mathlib.Text.{◌==◌ as str_eq}
use xevxml.Prelude.{
  String, ◌≡◌, refl, ◌⊎◌, Bool, true, false, Option, none, some, [], ◌∷◌, ◌++◌, Bytes, All,
}
use xevxml.Stream.{ℤ, print_bool, is_set, pos}
use xevxml.Stream.RoundTrip.{IsInt}
use xevxml.Xml.{Attrs, get_named_item}
use xevxml.Platform.{Platform}
use xevxml.Read.Monad.{int_or, string_or}
use xevxml.RoundTrip.Text.{IsPlain}
use xevxml.RoundTrip.Attributes.{Lacks}
use xevxml.Statement.Io.Readable.{IsLabel}
use xevxml.Statement.Node.{
  EndLabels, Head, head_name, allocate_statement, deallocate_statement, arithmetic_if_statement,
  basic_block, computed_goto_statement, do_while_stmt, else_where_statement, expr_statement,
  for_all_statement, for_init_statement, for_statement, function_definition, global, null_statement,
  nullify_statement, break_stmt, continue_stmt, case_option_stmt, default_option_stmt, fortran_do,
  if_stmt, stop_or_pause_statement, switch_statement, where_statement, while_stmt,
}
use xevxml.Statement.Write.{int_attribute, string_attribute, while_label, head_attributes}
use xevxml.Statement.HeadReaders.{
  read_fortran_do, read_if, read_switch, read_where, read_while, head_readers, search_head,
  head_reader,
}
use xevxml.Statement.Lookup.{int_attribute-other, string_attribute-other, in_first}

-- What the attributes can hold: labels and types that an `int` holds, and names that need no entity.
abbrev pub IsEndLabels : EndLabels → Type 0
IsEndLabels l = IsLabel l.numeric × All IsPlain l.string

-- A label that is read by its value: there is none, or one that is not 0.
abbrev pub IsNonzero : Option ℤ → Type 0
IsNonzero none = Unit
IsNonzero (some z) = IsInt z × (is_set z ≡ true)

abbrev pub IsEmpty : Bytes → Type 0
IsEmpty s = s ≡ []

-- The label at the end of a where statement is not read, a while statement has one of its labels at
-- most, and neither this one nor a switch statement keeps anything outside Fortran.
abbrev pub IsHead : Bool → Head → Type 0
IsHead f (break_stmt l) = All IsPlain l
IsHead f (continue_stmt l) = All IsPlain l
IsHead f (case_option_stmt c) = All IsPlain c
IsHead f (default_option_stmt c) = All IsPlain c
IsHead f (fortran_do o e l) = IsNonzero l.numeric × All IsPlain l.string
IsHead f (if_stmt e t a l) = IsLabel a × IsEndLabels l
IsHead f (stop_or_pause_statement t) = IsInt t
IsHead true (switch_statement l) = IsEndLabels l
IsHead false (switch_statement l) = (l.numeric ≡ none) × IsEmpty l.string
IsHead f (where_statement e l) = (l.numeric ≡ none) × All IsPlain l.string
IsHead true (while_stmt e l) =
    All IsPlain l.string × (IsNonzero l.numeric × ((l.numeric ≡ none) ⊎ IsEmpty l.string))
IsHead false (while_stmt e l) = (e ≡ false) × ((l.numeric ≡ none) × IsEmpty l.string)
IsHead f _ = Unit

unfoldable pub reader_of : Head → Platform → Attrs → Head
reader_of (break_stmt l) p a = break_stmt (string_or p a "slabel")
reader_of (continue_stmt l) p a = continue_stmt (string_or p a "slabel")
reader_of (case_option_stmt c) p a = case_option_stmt (string_or p a "construct")
reader_of (default_option_stmt c) p a = default_option_stmt (string_or p a "construct")
reader_of (fortran_do o e l) p a = read_fortran_do p a
reader_of (if_stmt e t b l) p a = read_if p a
reader_of (stop_or_pause_statement t) p a = stop_or_pause_statement (int_or p a "type" (pos 0))
reader_of (switch_statement l) p a = read_switch p a
reader_of (where_statement e l) p a = read_where p a
reader_of (while_stmt e l) p a = read_while p a
reader_of h p a = h

pub head_reader-head_name : (h : Head) → head_reader (head_name h) ≡ some (reader_of h)
unfolding head_reader search_head head_readers head_name reader_of
head_reader-head_name allocate_statement = refl
head_reader-head_name deallocate_statement = refl
head_reader-head_name arithmetic_if_statement = refl
head_reader-head_name basic_block = refl
head_reader-head_name computed_goto_statement = refl
head_reader-head_name do_while_stmt = refl
head_reader-head_name else_where_statement = refl
head_reader-head_name expr_statement = refl
head_reader-head_name for_all_statement = refl
head_reader-head_name for_init_statement = refl
head_reader-head_name for_statement = refl
head_reader-head_name function_definition = refl
head_reader-head_name global = refl
head_reader-head_name null_statement = refl
head_reader-head_name nullify_statement = refl
head_reader-head_name (break_stmt l) = refl
head_reader-head_name (continue_stmt l) = refl
head_reader-head_name (case_option_stmt c) = refl
head_reader-head_name (default_option_stmt c) = refl
head_reader-head_name (fortran_do o e l) = refl
head_reader-head_name (if_stmt e t a l) = refl
head_reader-head_name (stop_or_pause_statement t) = refl
head_reader-head_name (switch_statement l) = refl
head_reader-head_name (where_statement e l) = refl
head_reader-head_name (while_stmt e l) = refl

-- No class of statement has the name of the element of preprocessing information.
pub head_name-own : (h : Head) → str_eq (head_name h) "PreprocessingInfo" ≡ false
unfolding head_name
head_name-own (break_stmt l) = refl
head_name-own (continue_stmt l) = refl
head_name-own (case_option_stmt c) = refl
head_name-own (default_option_stmt c) = refl
head_name-own (fortran_do o e l) = refl
head_name-own (if_stmt e t a l) = refl
head_name-own (stop_or_pause_statement t) = refl
head_name-own (switch_statement l) = refl
head_name-own (where_statement e l) = refl
head_name-own (while_stmt e l) = refl
head_name-own _ = refl

-- Names that no class uses for its own attributes.
abbrev IsForeign : String → Type 0
IsForeign n =
    (str_eq "slabel" n ≡ false)
    × (str_eq "elabel" n ≡ false)
    × (str_eq "ellabel" n ≡ false)
    × (str_eq "end" n ≡ false)
    × (str_eq "then" n ≡ false)
    × (str_eq "style" n ≡ false)
    × (str_eq "type" n ≡ false)
    × (str_eq "construct" n ≡ false)

module _ (n : String) (h : IsForeign n) where
  both : (a b : Attrs) → Lacks n a → Lacks n b → Lacks n (a ++ b)
  both a b x y = in_first n a b none x y

  past :
      (m : String) (v : Bytes) (a : Attrs) → str_eq m n ≡ false → Lacks n a → Lacks n ((m, v) ∷ a)
  unfolding get_named_item
  past m v a x y = rw (x) y

  while_label-Lacks : (l : EndLabels) (z : Option ℤ) → l.numeric ≡ z → Lacks n (while_label l)
  unfolding while_label get_named_item
  while_label-Lacks l none e = rw (e, h.0) refl
  while_label-Lacks l (some z) e = rw (e, h.1) refl

  pub head_attributes-Lacks : (f : Bool) (k : Head) → Lacks n (head_attributes f k)
  unfolding head_attributes get_named_item
  head_attributes-Lacks f (break_stmt l) = string_attribute-other n "slabel" l h.0
  head_attributes-Lacks f (continue_stmt l) = string_attribute-other n "slabel" l h.0
  head_attributes-Lacks f (case_option_stmt c) = string_attribute-other n "construct" c h.7
  head_attributes-Lacks f (default_option_stmt c) = string_attribute-other n "construct" c h.7
  head_attributes-Lacks f (fortran_do o e l) =
      let labels = int_attribute "elabel" l.numeric ++ string_attribute "slabel" l.string in
      past "style" (print_bool o) (("end", print_bool e) ∷ labels) h.5 (
        past "end" (print_bool e) labels h.3 (
          both _ _ (int_attribute-other n "elabel" l.numeric h.1)
            (string_attribute-other n "slabel" l.string h.0)))
  head_attributes-Lacks f (if_stmt e t a l) =
      let labels =
        int_attribute "elabel" l.numeric
        ++ (int_attribute "ellabel" a ++ string_attribute "slabel" l.string) in
      past "end" (print_bool e) (("then", print_bool t) ∷ labels) h.3 (
        past "then" (print_bool t) labels h.4 (
          both _ _ (int_attribute-other n "elabel" l.numeric h.1) (
            both _ _ (int_attribute-other n "ellabel" a h.2)
              (string_attribute-other n "slabel" l.string h.0))))
  head_attributes-Lacks f (stop_or_pause_statement t) = past "type" _ [] h.6 refl
  head_attributes-Lacks f (switch_statement l) =
      both _ _ (int_attribute-other n "elabel" l.numeric h.1)
        (string_attribute-other n "slabel" l.string h.0)
  head_attributes-Lacks f (where_statement e l) = past "end" _ _ h.3 (
      both _ _ (string_attribute-other n "slabel" l.string h.0)
        (int_attribute-other n "elabel" l.numeric h.1))
  head_attributes-Lacks true (while_stmt e l) =
      past "end" _ _ h.3 (while_label-Lacks l l.numeric refl)
  head_attributes-Lacks false (while_stmt e l) = refl
  head_attributes-Lacks f _ = refl
