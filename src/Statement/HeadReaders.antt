-- ===== src/Statement/HeadReaders.antt =====
-- What the visitors of statements read from the attributes of an element, and the choice of a class by
-- the element's name (the methods `visitSg…` of src/stmt.cpp, `XevXmlVisitor::visit` of
-- src/xml2rose.cpp).
use text.Mathlib.Text.{◌==◌ as str_eq}
use xevxml.Prelude.{String, false, Option, none, some, List, [], ◌∷◌, if◌then◌else◌, Bytes}
use xevxml.Stream.{ℤ, is_set, pos}
use xevxml.Xml.{Attrs, get_int}
use xevxml.Platform.{Platform}
use xevxml.Read.Monad.{int_or, string_or}
use xevxml.Statement.Node.{
  EndLabels, Head, allocate_statement, deallocate_statement, arithmetic_if_statement, basic_block,
  computed_goto_statement, do_while_stmt, else_where_statement, expr_statement, for_all_statement,
  for_init_statement, for_statement, function_definition, global, null_statement, nullify_statement,
  break_stmt, continue_stmt, case_option_stmt, default_option_stmt, fortran_do, if_stmt,
  stop_or_pause_statement, switch_statement, where_statement, while_stmt,
}

abbrev pub nonzero : ℤ → Option ℤ
nonzero z = if is_set z then some z else none

-- The string label takes the place of the numeric one.
unfoldable pub while_labels : Bytes → ℤ → EndLabels
while_labels [] z = record { numeric = nonzero z; string = [] }
while_labels (c ∷ s) z = record { numeric = none; string = c ∷ s }

module _ (p : Platform) (atts : Attrs) where
  abbrev pub read_break : Head
  read_break = break_stmt (string_or p atts "slabel")

  abbrev pub read_continue : Head
  read_continue = continue_stmt (string_or p atts "slabel")

  abbrev pub read_case_option : Head
  read_case_option = case_option_stmt (string_or p atts "construct")

  abbrev pub read_default_option : Head
  read_default_option = default_option_stmt (string_or p atts "construct")

  abbrev pub read_stop_or_pause : Head
  read_stop_or_pause = stop_or_pause_statement (int_or p atts "type" (pos 0))

  unfoldable pub read_fortran_do : Head
  read_fortran_do =
      fortran_do (is_set (int_or p atts "style" (pos 0))) (is_set (int_or p atts "end" (pos 0)))
        (record {
          numeric = nonzero (int_or p atts "elabel" (pos 0));
          string = string_or p atts "slabel";
        })

  unfoldable pub read_if : Head
  read_if =
      if_stmt (is_set (int_or p atts "end" (pos 1))) (is_set (int_or p atts "then" (pos 1)))
        (get_int p.decode p.tmp "ellabel" atts)
        (record {
          numeric = get_int p.decode p.tmp "elabel" atts;
          string = string_or p atts "slabel";
        })

  -- The labels are read in Fortran only.
  unfoldable pub read_switch : Head
  read_switch =
      if p.is_fortran
      then switch_statement (record {
        numeric = get_int p.decode p.tmp "elabel" atts;
        string = string_or p atts "slabel";
      })
      else switch_statement (record { numeric = none; string = [] })

  -- The label of the end is not read.
  unfoldable pub read_where : Head
  read_where =
      where_statement (is_set (int_or p atts "end" (pos 0)))
        (record { numeric = none; string = string_or p atts "slabel" })

  unfoldable pub read_while : Head
  read_while =
      if p.is_fortran
      then while_stmt (is_set (int_or p atts "end" (pos 0)))
          (while_labels (string_or p atts "slabel") (int_or p atts "elabel" (pos 0)))
      else while_stmt false (record { numeric = none; string = [] })

-- The classes by their names, and what is read from the attributes.
abbrev pub HeadReader : Type 0
HeadReader = Platform → Attrs → Head

unfoldable pub head_readers : List (String × HeadReader)
head_readers =
    ("SgAllocateStatement", λ p a. allocate_statement)
    ∷ ("SgDeallocateStatement", λ p a. deallocate_statement)
    ∷ ("SgArithmeticIfStatement", λ p a. arithmetic_if_statement)
    ∷ ("SgBasicBlock", λ p a. basic_block)
    ∷ ("SgComputedGotoStatement", λ p a. computed_goto_statement)
    ∷ ("SgDoWhileStmt", λ p a. do_while_stmt)
    ∷ ("SgElseWhereStatement", λ p a. else_where_statement)
    ∷ ("SgExprStatement", λ p a. expr_statement)
    ∷ ("SgForAllStatement", λ p a. for_all_statement)
    ∷ ("SgForInitStatement", λ p a. for_init_statement)
    ∷ ("SgForStatement", λ p a. for_statement)
    ∷ ("SgFunctionDefinition", λ p a. function_definition)
    ∷ ("SgGlobal", λ p a. global)
    ∷ ("SgNullStatement", λ p a. null_statement)
    ∷ ("SgNullifyStatement", λ p a. nullify_statement)
    ∷ ("SgBreakStmt", read_break)
    ∷ ("SgContinueStmt", read_continue)
    ∷ ("SgCaseOptionStmt", read_case_option)
    ∷ ("SgDefaultOptionStmt", read_default_option)
    ∷ ("SgFortranDo", read_fortran_do)
    ∷ ("SgIfStmt", read_if)
    ∷ ("SgStopOrPauseStatement", read_stop_or_pause)
    ∷ ("SgSwitchStatement", read_switch)
    ∷ ("SgWhereStatement", read_where)
    ∷ ("SgWhileStmt", read_while)
    ∷ []

unfoldable pub search_head : List (String × HeadReader) → String → Option HeadReader
search_head [] name = none
search_head ((n, r) ∷ rs) name = if str_eq n name then some r else search_head rs name

unfoldable pub head_reader : String → Option HeadReader
unfolding search_head head_readers
head_reader name = search_head head_readers name
