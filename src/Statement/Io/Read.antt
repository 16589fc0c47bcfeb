-- ===== src/Statement/Io/Read.antt =====
-- The visitors of statements for input and output (the methods `visitSg…` of src/stmt.cpp, and the
-- checks of src/xml2rose.cpp behind them).
use text.Mathlib.Text.{◌==◌ as str_eq}
use xevxml.Prelude.{
  String, Bool, true, false, ◌&&◌, ◌||◌, Option, none, some, List, [], ◌∷◌, if◌then◌else◌, Bytes,
}
use xevxml.Result.{
  Result, bind, missing_node, unknown_node, unknown_attribute, invalid_attribute, ok, err,
}
use xevxml.Xml.{Doms, Attrs, get_int}
use xevxml.Ast.Node.{
  is_null, SgNode, transformation_info, is_expr_list, expr, actual_argument, var_ref, null, node,
}
use xevxml.Platform.{Platform}
use xevxml.Read.Monad.{Reader, pure, fatal, ◌>>=◌, Child}
use xevxml.Read.Operands.{lift}
use xevxml.Read.Visit.{read_infos, info_of, visitors}
use xevxml.Statement.Io.Kinds.{
  IoAttrib, IoClass, same_attrib, io_attrib, io_class_name, io_fmt, io_iolength, io_unit, io_iostat,
  io_err, io_iomsg, io_file, io_access, io_form, io_recl, io_blank, io_exist, io_opened, io_number,
  io_named, io_name, io_sequential, io_direct, io_formatted, io_unformatted, io_nextrec,
  io_position, io_action, io_read, io_write, io_readwrite, io_delim, io_pad, io_asynchronous,
  io_decimal, io_stream, io_size, io_pending, io_status, io_round, io_sign, io_advance, io_rec,
  io_end, io_eor, io_nml, backspace_statement, close_statement, endfile_statement, flush_statement,
  inquire_statement, open_statement, print_statement, read_statement, rewind_statement,
  wait_statement, write_statement,
}
use xevxml.Statement.Io.Write.{IoParts, IoStatement, has_list}

-- A visitor's `switch`, given the name, the attribute and the expression.
abbrev pub Switch : Type 0
Switch = Bytes → IoAttrib → SgNode → IoParts → Result IoParts

abbrev pub set_field : IoAttrib → SgNode → IoParts → IoParts
set_field a e s = record {
  io_list = s.io_list;
  field = λ b. if same_attrib a b then node e else s.field b;
}

unfoldable pub is_one_of : List IoAttrib → IoAttrib → Bool
is_one_of [] a = false
is_one_of (b ∷ bs) a = same_attrib b a || is_one_of bs a

-- A `switch` whose cases set a field each, and whose default case is an error.
unfoldable pub one_of : List IoAttrib → Switch
one_of cases name a e s =
    if is_one_of cases a then ok (set_field a e s) else err (invalid_attribute name)

abbrev pub is_var_ref : SgNode → Bool
is_var_ref (expr l o (var_ref name)) = true
is_var_ref _ = false

abbrev pub backspace_cases : List IoAttrib
backspace_cases = io_unit ∷ io_iostat ∷ io_err ∷ io_iomsg ∷ []

abbrev pub endfile_cases : List IoAttrib
endfile_cases = io_unit ∷ io_iostat ∷ io_err ∷ io_iomsg ∷ []

abbrev pub flush_cases : List IoAttrib
flush_cases = io_unit ∷ io_iostat ∷ io_err ∷ io_iomsg ∷ []

abbrev pub rewind_cases : List IoAttrib
rewind_cases = io_unit ∷ io_iostat ∷ io_err ∷ io_iomsg ∷ []

abbrev pub wait_cases : List IoAttrib
wait_cases = io_unit ∷ io_iostat ∷ io_err ∷ io_iomsg ∷ []

abbrev pub print_cases : List IoAttrib
print_cases = io_fmt ∷ []

abbrev pub close_cases : List IoAttrib
close_cases = io_unit ∷ io_iostat ∷ io_err ∷ io_iomsg ∷ io_status ∷ []

abbrev pub open_cases : List IoAttrib
open_cases =
    io_unit ∷ io_iostat ∷ io_err ∷ io_iomsg ∷ io_file ∷ io_access ∷ io_form ∷ io_recl ∷ io_blank
    ∷ io_position ∷ io_action ∷ io_delim ∷ io_pad ∷ io_asynchronous ∷ io_status ∷ io_round ∷ io_sign
    ∷ []

abbrev pub read_cases : List IoAttrib
read_cases =
    io_unit ∷ io_iostat ∷ io_err ∷ io_iomsg ∷ io_fmt ∷ io_rec ∷ io_end ∷ io_nml ∷ io_advance
    ∷ io_size ∷ io_eor ∷ io_asynchronous ∷ []

abbrev pub write_cases : List IoAttrib
write_cases =
    io_unit ∷ io_iostat ∷ io_err ∷ io_iomsg ∷ io_fmt ∷ io_rec ∷ io_advance ∷ io_nml
    ∷ io_asynchronous ∷ []

abbrev pub inquire_cases : List IoAttrib
inquire_cases =
    io_unit ∷ io_iostat ∷ io_err ∷ io_iomsg ∷ io_file ∷ io_access ∷ io_form ∷ io_recl ∷ io_blank
    ∷ io_exist ∷ io_opened ∷ io_number ∷ io_named ∷ io_name ∷ io_sequential ∷ io_direct
    ∷ io_formatted ∷ io_unformatted ∷ io_nextrec ∷ io_position ∷ io_action ∷ io_read ∷ io_write
    ∷ io_readwrite ∷ io_delim ∷ io_pad ∷ io_asynchronous ∷ io_decimal ∷ io_stream ∷ io_size
    ∷ io_pending ∷ []

-- There is no default case: another attribute of the table is ignored.
unfoldable pub inquire_switch : Switch
inquire_switch name a e s =
    let length_set =
      if is_var_ref e
      then ok (set_field a e s)
      else err (missing_node "SgInquireStatement" "SgVarRefExp") in
    if same_attrib a io_iolength
    then length_set
    else (if is_one_of inquire_cases a then ok (set_field a e s) else ok s)

unfoldable pub io_switch : IoClass → Switch
io_switch close_statement = one_of close_cases
io_switch inquire_statement = inquire_switch
io_switch open_statement = one_of open_cases
io_switch print_statement = one_of print_cases
io_switch read_statement = one_of read_cases
io_switch write_statement = one_of write_cases
io_switch backspace_statement = one_of backspace_cases
io_switch endfile_statement = one_of endfile_cases
io_switch flush_statement = one_of flush_cases
io_switch rewind_statement = one_of rewind_cases
io_switch wait_statement = one_of wait_cases

-- `set_startOfConstruct(DEFAULT_FILE_INFO)`
unfoldable pub restart : SgNode → SgNode
restart (expr l o e) =
    expr
      (record {
        need_paren = l.need_paren;
        info = transformation_info;
        preprocessing = l.preprocessing;
      })
      o e
restart n = n

-- `isSgActualArgumentExpression`, and what is done with one.
unfoldable pub take_argument : Switch → SgNode → IoParts → Result IoParts
take_argument switch (expr l o (actual_argument name e)) s = elim (io_attrib name) [
  | none ↦ err (unknown_attribute name)
  | some a ↦ switch name a (restart e) s
]
take_argument switch n s = ok s

-- `if(exl==0) exl = isSgExprListExp(astchild);`
unfoldable pub take_list : SgNode → IoParts → IoParts
take_list n s = record {
  io_list = if is_null s.io_list && is_expr_list n then node n else s.io_list;
  field = s.field;
}

unfoldable pub take_child : IoClass → Option SgNode → IoParts → Result IoParts
take_child c none s = ok s
take_child c (some n) s = take_argument (io_switch c) n (if has_list c then take_list n s else s)

-- `SUBTREE_VISIT_BEGIN` … `SUBTREE_VISIT_END`: a child is dealt with before the next one is visited.
unfoldable pub read_parts : IoClass → List Child → IoParts → Reader IoParts
read_parts c [] s = pure s
read_parts c (k ∷ kids) s = k >>= λ n. lift (take_child c n s) >>= λ t. read_parts c kids t

abbrev pub no_parts : IoParts
no_parts = record { io_list = null; field = λ a. null }

unfoldable pub search_io : List IoClass → String → Option IoClass
search_io [] name = none
search_io (c ∷ cs) name = if str_eq (io_class_name c) name then some c else search_io cs name

unfoldable pub io_class_of : String → Option IoClass
unfolding search_io io_class_name
io_class_of name =
    search_io
      (backspace_statement ∷ close_statement ∷ endfile_statement ∷ flush_statement
        ∷ inquire_statement ∷ open_statement ∷ print_statement ∷ read_statement ∷ rewind_statement
        ∷ wait_statement ∷ write_statement ∷ [])
      name

module _ (p : Platform) where
  -- `checkPreprocInfo`, `checkStatement` and `checkLocatedNode`
  unfoldable pub check_io : IoClass → Attrs → Doms → IoParts → Result IoStatement
  check_io c atts ds s = bind (read_infos p ds) λ infos. ok (record {
    io_class = c;
    label = get_int p.decode p.tmp "label" atts;
    info = info_of p atts;
    preprocessing = infos;
    parts = s;
  })

  -- An element below a parent, as `XevXmlVisitor::visit` reads it.
  unfoldable pub visit_io : String → Attrs → Doms → Reader IoStatement
  visit_io name atts ds = elim (io_class_of name) [
    | none ↦ fatal (unknown_node name)
    | some c ↦ read_parts c (visitors p ds) no_parts >>= λ s. lift (check_io c atts ds s)
  ]
