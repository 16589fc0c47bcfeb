-- ===== src/Statement/Io/Write.antt =====
-- Statements for input and output, and what the writer makes of them (the methods `attribSg…` and
-- `inodeSg…` of src/stmt.cpp, in the frame of `XevSageVisitor::visit` of src/rose2xml.cpp).
use xevxml.Prelude.{
  ℕ, suc, String, Bool, true, false, ◌&&◌, Option, none, some, List, [], ◌∷◌, ◌++◌, if◌then◌else◌,
  codes,
}
use xevxml.Stream.{ℤ, print_int}
use xevxml.Xml.{Doms, Attrs, Stream, element, no_doms}
use xevxml.Ast.Node.{FileInfo, PreprocessingInfo, SgNode, OptNode, actual_argument, null, node}
use xevxml.Platform.{Platform}
use xevxml.Write.Attributes.{when}
use xevxml.Write.Visit.{
  remove_include_directives, write_infos, write_element, is_in_same_file, write, write_opt,
}
use xevxml.Write.Document.{◌+++◌, one, doc_infos, doc, doc_opt}
use xevxml.Read.Slots.{build}
use xevxml.Statement.Io.Kinds.{
  IoAttrib, IoClass, io_class_name, io_fmt, io_iolength, io_unit, io_iostat, io_err, io_iomsg,
  io_file, io_access, io_form, io_recl, io_blank, io_exist, io_opened, io_number, io_named, io_name,
  io_sequential, io_direct, io_formatted, io_unformatted, io_nextrec, io_position, io_action,
  io_read, io_write, io_readwrite, io_delim, io_pad, io_asynchronous, io_decimal, io_stream,
  io_size, io_pending, io_status, io_round, io_sign, io_advance, io_rec, io_end, io_eor, io_nml,
  close_statement, inquire_statement, open_statement, print_statement, read_statement,
  write_statement,
}

-- The list of a statement, and its arguments by their attributes.
pub record IoParts : Type 0 where
  pub io_list : OptNode
  pub field : IoAttrib → OptNode

-- The label is that of `get_numeric_label`.
pub record IoStatement : Type 0 where
  pub io_class : IoClass
  pub label : Option ℤ
  pub info : FileInfo
  pub preprocessing : List PreprocessingInfo
  pub parts : IoParts

abbrev pub Entries : Type 0
Entries = List (String × IoAttrib)

-- What is traversed, under which name: `INODE_STMT_DEFAULT`, and the classes with methods of their own.
abbrev pub basic_entries : Entries
basic_entries =
    ("unit", io_unit) ∷ ("iostat", io_iostat) ∷ ("err", io_err) ∷ ("iomsg", io_iomsg) ∷ []

abbrev pub close_entries : Entries
close_entries =
    ("unit", io_unit)
    ∷ ("iostat", io_iostat)
    ∷ ("err", io_err)
    ∷ ("err", io_iomsg)
    ∷ ("status", io_status)
    ∷ []

abbrev pub inquire_entries : Entries
inquire_entries =
    ("iolength", io_iolength)
    ∷ ("unit", io_unit)
    ∷ ("iostat", io_iostat)
    ∷ ("err", io_err)
    ∷ ("iomsg", io_iomsg)
    ∷ ("file", io_file)
    ∷ ("access", io_access)
    ∷ ("form", io_form)
    ∷ ("recl", io_recl)
    ∷ ("blank", io_blank)
    ∷ ("exist", io_exist)
    ∷ ("opened", io_opened)
    ∷ ("number", io_number)
    ∷ ("named", io_named)
    ∷ ("name", io_name)
    ∷ ("sequential", io_sequential)
    ∷ ("direct", io_direct)
    ∷ ("formatted", io_formatted)
    ∷ ("unformatted", io_unformatted)
    ∷ ("nextrec", io_nextrec)
    ∷ ("position", io_position)
    ∷ ("action", io_action)
    ∷ ("read", io_read)
    ∷ ("write", io_write)
    ∷ ("readwrite", io_readwrite)
    ∷ ("delim", io_delim)
    ∷ ("pad", io_pad)
    ∷ ("asynchronous", io_asynchronous)
    ∷ ("decimal", io_decimal)
    ∷ ("stream", io_stream)
    ∷ ("size", io_size)
    ∷ ("padding", io_pending)
    ∷ []

abbrev pub open_entries : Entries
open_entries =
    ("unit", io_unit)
    ∷ ("iostat", io_iostat)
    ∷ ("err", io_err)
    ∷ ("file", io_file)
    ∷ ("status", io_status)
    ∷ ("access", io_access)
    ∷ ("form", io_form)
    ∷ ("recl", io_recl)
    ∷ ("blank", io_blank)
    ∷ ("position", io_position)
    ∷ ("action", io_action)
    ∷ ("delim", io_delim)
    ∷ ("pad", io_pad)
    ∷ ("iomsg", io_iomsg)
    ∷ ("round", io_round)
    ∷ ("sign", io_sign)
    ∷ ("asynchronous", io_asynchronous)
    ∷ []

abbrev pub print_entries : Entries
print_entries = ("fmt", io_fmt) ∷ []

abbrev pub read_entries : Entries
read_entries =
    ("unit", io_unit)
    ∷ ("iostat", io_iostat)
    ∷ ("err", io_err)
    ∷ ("iomsg", io_iomsg)
    ∷ ("fmt", io_fmt)
    ∷ ("rec", io_rec)
    ∷ ("end", io_end)
    ∷ ("nml", io_nml)
    ∷ ("advance", io_advance)
    ∷ ("size", io_size)
    ∷ ("eor", io_eor)
    ∷ ("asynchronous", io_asynchronous)
    ∷ []

abbrev pub write_entries : Entries
write_entries =
    ("unit", io_unit)
    ∷ ("iostat", io_iostat)
    ∷ ("err", io_err)
    ∷ ("iomsg", io_iomsg)
    ∷ ("fmt", io_fmt)
    ∷ ("rec", io_rec)
    ∷ ("advance", io_advance)
    ∷ ("nml", io_nml)
    ∷ ("asynchronous", io_asynchronous)
    ∷ []

unfoldable pub entries : IoClass → Entries
entries close_statement = close_entries
entries inquire_statement = inquire_entries
entries open_statement = open_entries
entries print_statement = print_entries
entries read_statement = read_entries
entries write_statement = write_entries
entries _ = basic_entries

-- The classes that visit `get_io_stmt_list()` first.
unfoldable pub has_list : IoClass → Bool
has_list inquire_statement = true
has_list print_statement = true
has_list read_statement = true
has_list write_statement = true
has_list _ = false

-- `TRAVERSE_IF_EXISTS` and `buildActualArgumentExpression`: the argument is wrapped in a new node, which has no parent.
abbrev pub argument : String → SgNode → SgNode
argument name x = build (actual_argument (codes name) x)

-- `attribSgStatement`
unfoldable pub label_attribute : Option ℤ → Attrs
label_attribute none = []
label_attribute (some z) = ("label", print_int z) ∷ []

-- The flag says that the parent is a basic block or the global scope.
unfoldable pub io_attributes : Bool → IoStatement → Attrs
io_attributes in_block s =
    label_attribute s.label ++ when (in_block && s.info.compiler_generated) "unparse" (codes "0")

module _ (p : Platform) where
  abbrev pub write_argument : Bool → ℕ → String → OptNode → Stream
  write_argument skip d name null = []
  write_argument skip d name (node x) = write p skip d true (argument name x)

  unfoldable pub write_arguments : Bool → ℕ → Entries → (IoAttrib → OptNode) → Stream
  write_arguments skip d [] f = []
  write_arguments skip d ((name, a) ∷ es) f =
      write_argument skip d name (f a) ++ write_arguments skip d es f

  unfoldable pub inode_io : Bool → ℕ → IoClass → IoParts → Stream
  inode_io skip d c s =
      (if has_list c then write_opt p skip d s.io_list else [])
      ++ write_arguments skip d (entries c) s.field

  -- The successors of such a statement are not visited, and every class has slots for them, so that
  -- `hasInode` says yes. The flags: the option to skip what the compiler generated, whether the parent
  -- is a basic block or the global scope, and whether it is missing, or the global scope, or a
  -- namespace.
  unfoldable pub write_io : Bool → ℕ → Bool → Bool → IoStatement → Stream
  write_io skip d in_block outermost s =
      let body =
        inode_io skip (suc d) s.io_class s.parts
        ++ write_infos (remove_include_directives p s.preprocessing) in
      let whole = write_element d (io_class_name s.io_class) (io_attributes in_block s) true body in
      let chosen = if skip && s.info.compiler_generated then [] else whole in
      if is_in_same_file p.is_fortran outermost s.info then chosen else []

  -- The forest of elements that these calls describe.
  abbrev pub doc_argument : Bool → String → OptNode → Doms
  doc_argument skip name null = no_doms
  doc_argument skip name (node x) = doc p skip true (argument name x)

  unfoldable pub doc_arguments : Bool → Entries → (IoAttrib → OptNode) → Doms
  doc_arguments skip [] f = no_doms
  doc_arguments skip ((name, a) ∷ es) f = doc_argument skip name (f a) +++ doc_arguments skip es f

  unfoldable pub doc_inode_io : Bool → IoClass → IoParts → Doms
  doc_inode_io skip c s =
      (if has_list c then doc_opt p skip s.io_list else no_doms)
      +++ doc_arguments skip (entries c) s.field

  unfoldable pub doc_io : Bool → Bool → Bool → IoStatement → Doms
  doc_io skip in_block outermost s =
      let inside =
        doc_inode_io skip s.io_class s.parts
        +++ doc_infos (remove_include_directives p s.preprocessing) in
      let whole = one (element (io_class_name s.io_class) (io_attributes in_block s) inside) in
      let chosen = if skip && s.info.compiler_generated then no_doms else whole in
      if is_in_same_file p.is_fortran outermost s.info then chosen else no_doms
