-- ===== src/Statement/Write.antt =====
-- What the writer makes of a statement (the methods `attribSg…` of src/stmt.cpp, in the frame of
-- `XevSageVisitor::visit` of src/rose2xml.cpp).
use xevxml.Prelude.{
  ℕ, suc, String, Bool, true, false, not, ◌&&◌, ◌||◌, Option, none, some, [], ◌∷◌, ◌++◌,
  if◌then◌else◌, Bytes, codes,
}
use xevxml.Stream.{ℤ, print_int, print_bool}
use xevxml.Xml.{Doms, Attrs, Stream, element, no_doms}
use xevxml.Platform.{Platform}
use xevxml.Write.Attributes.{when}
use xevxml.Write.Visit.{
  is_nil, remove_include_directives, write_infos, write_element, is_in_same_file, write,
}
use xevxml.Write.Document.{◌+++◌, one, doc_infos, doc}
use xevxml.Statement.Io.Write.{label_attribute, write_io, doc_io}
use xevxml.Statement.Node.{
  EndLabels, Head, StmtInfo, Item, Slots, head_name, arithmetic_if_statement, basic_block, global,
  break_stmt, continue_stmt, case_option_stmt, default_option_stmt, fortran_do, if_stmt,
  stop_or_pause_statement, switch_statement, where_statement, while_stmt, exp, stmt, io, no_slots,
  absent, slot,
}

unfoldable pub int_attribute : String → Option ℤ → Attrs
int_attribute name none = []
int_attribute name (some z) = (name, print_int z) ∷ []

-- A name is written as it is, if it is not empty.
unfoldable pub string_attribute : String → Bytes → Attrs
string_attribute name [] = []
string_attribute name (c ∷ s) = (name, c ∷ s) ∷ []

-- A while statement has either of its labels.
unfoldable pub while_label : EndLabels → Attrs
while_label l = elim l.numeric [
  | none ↦ ("slabel", l.string) ∷ []
  | some z ↦ ("elabel", print_int z) ∷ []
]

-- `attribSg…`, in front of `attribSgStatement`
abbrev pub break_attributes : Bytes → Attrs
break_attributes l = string_attribute "slabel" l

abbrev pub continue_attributes : Bytes → Attrs
continue_attributes l = string_attribute "slabel" l

abbrev pub case_option_attributes : Bytes → Attrs
case_option_attributes c = string_attribute "construct" c

abbrev pub default_option_attributes : Bytes → Attrs
default_option_attributes c = string_attribute "construct" c

abbrev pub fortran_do_attributes : Bool → Bool → EndLabels → Attrs
fortran_do_attributes o e l =
    ("style", print_bool o)
    ∷ ("end", print_bool e)
    ∷ (int_attribute "elabel" l.numeric ++ string_attribute "slabel" l.string)

abbrev pub if_attributes : Bool → Bool → Option ℤ → EndLabels → Attrs
if_attributes e t a l =
    ("end", print_bool e)
    ∷ ("then", print_bool t)
    ∷ (int_attribute "elabel" l.numeric
        ++ (int_attribute "ellabel" a ++ string_attribute "slabel" l.string))

abbrev pub stop_or_pause_attributes : ℤ → Attrs
stop_or_pause_attributes t = ("type", print_int t) ∷ []

abbrev pub switch_attributes : EndLabels → Attrs
switch_attributes l = int_attribute "elabel" l.numeric ++ string_attribute "slabel" l.string

abbrev pub where_attributes : Bool → EndLabels → Attrs
where_attributes e l =
    ("end", print_bool e) ∷ (string_attribute "slabel" l.string ++ int_attribute "elabel" l.numeric)

module _ (fortran : Bool) where
  abbrev pub while_attributes : Bool → EndLabels → Attrs
  while_attributes e l = if fortran then ("end", print_bool e) ∷ while_label l else []

  unfoldable pub head_attributes : Head → Attrs
  head_attributes (break_stmt l) = break_attributes l
  head_attributes (continue_stmt l) = continue_attributes l
  head_attributes (case_option_stmt c) = case_option_attributes c
  head_attributes (default_option_stmt c) = default_option_attributes c
  head_attributes (fortran_do o e l) = fortran_do_attributes o e l
  head_attributes (if_stmt e t a l) = if_attributes e t a l
  head_attributes (stop_or_pause_statement t) = stop_or_pause_attributes t
  head_attributes (switch_statement l) = switch_attributes l
  head_attributes (where_statement e l) = where_attributes e l
  head_attributes (while_stmt e l) = while_attributes e l
  head_attributes _ = []

  unfoldable pub stmt_attributes : Bool → StmtInfo → Head → Attrs
  stmt_attributes in_block i h =
      head_attributes h
      ++ (label_attribute i.label
          ++ when (in_block && i.info.compiler_generated) "unparse" (codes "0"))

-- Where a node stands: its parent is a basic block or the global scope; its parent is missing, or the
-- global scope, or a namespace.
pub record Place : Type 0 where
  pub in_block : Bool
  pub outermost : Bool

unfoldable pub place_in : Head → Place
place_in basic_block = record { in_block = true; outermost = false }
place_in global = record { in_block = true; outermost = true }
place_in _ = record { in_block = false; outermost = false }

-- `visitSuccessors` alone: the labels of an arithmetic if statement and the code of a stop statement
-- are no traversal successors.
unfoldable pub own_successors : {A : Type 0} → Head → A → A → A → A
own_successors arithmetic_if_statement first all nothing = first
own_successors (stop_or_pause_statement t) first all nothing = nothing
own_successors h first all nothing = all

abbrev pub is_no_slots : Slots → Bool
is_no_slots no_slots = true
is_no_slots _ = false

-- `hasInode`, for a statement: a class that holds a list has as many slots as elements.
abbrev pub stmt_has_inode : StmtInfo → Slots → Bool
stmt_has_inode i s = not (is_no_slots s) || not (is_nil i.preprocessing)

module _ (p : Platform) where
  unfoldable mutual
    pub write_item : Bool → ℕ → Place → Item → Stream
    write_item skip d at (exp n) = write p skip d at.outermost n
    write_item skip d at (io s) = write_io p skip d at.in_block at.outermost s
    write_item skip d at (stmt i h s) =
        let slots = write_slots skip (suc d) (place_in h) s in
        let all = write_slots skip d (place_in h) s in
        let first = write_first skip d (place_in h) s in
        let skipped = own_successors h first all [] in
        let whole =
          write_element d (head_name h) (stmt_attributes p.is_fortran at.in_block i h)
            (stmt_has_inode i s)
            (slots ++ write_infos (remove_include_directives p i.preprocessing)) in
        let chosen = if skip && i.info.compiler_generated then skipped else whole in
        if is_in_same_file p.is_fortran at.outermost i.info then chosen else []

    -- `visitSuccessors`, and the inner nodes
    pub write_slots : Bool → ℕ → Place → Slots → Stream
    write_slots skip d at no_slots = []
    write_slots skip d at (absent s) = write_slots skip d at s
    write_slots skip d at (slot i s) = write_item skip d at i ++ write_slots skip d at s

    pub write_first : Bool → ℕ → Place → Slots → Stream
    write_first skip d at (slot i s) = write_item skip d at i
    write_first skip d at _ = []

  -- The forest of elements.
  unfoldable mutual
    pub doc_item : Bool → Place → Item → Doms
    doc_item skip at (exp n) = doc p skip at.outermost n
    doc_item skip at (io s) = doc_io p skip at.in_block at.outermost s
    doc_item skip at (stmt i h s) =
        let slots = doc_slots skip (place_in h) s in
        let first = doc_first skip (place_in h) s in
        let skipped = own_successors h first slots no_doms in
        let inside = slots +++ doc_infos (remove_include_directives p i.preprocessing) in
        let whole = one (
          element (head_name h) (stmt_attributes p.is_fortran at.in_block i h)
            (if stmt_has_inode i s then inside else no_doms)) in
        let chosen = if skip && i.info.compiler_generated then skipped else whole in
        if is_in_same_file p.is_fortran at.outermost i.info then chosen else no_doms

    pub doc_slots : Bool → Place → Slots → Doms
    doc_slots skip at no_slots = no_doms
    doc_slots skip at (absent s) = doc_slots skip at s
    doc_slots skip at (slot i s) = doc_item skip at i +++ doc_slots skip at s

    pub doc_first : Bool → Place → Slots → Doms
    doc_first skip at (slot i s) = doc_item skip at i
    doc_first skip at _ = no_doms
