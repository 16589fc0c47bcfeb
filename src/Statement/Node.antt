-- ===== src/Statement/Node.antt =====
-- Statements as the converters see them: the class with what its attributes hold, and the traversal
-- successors, each of which may be NULL (src/stmt.cpp).
use xevxml.Prelude.{String, Bool, true, false, Option, List, [], ◌∷◌, Bytes}
use xevxml.Stream.{ℤ}
use xevxml.Ast.Node.{
  FileInfo, PreprocessingInfo, SgNode, is_expression, is_expr_list, expr, label_ref,
}
use xevxml.Statement.Io.Write.{IoStatement}

-- The labels of a construct: `get_end_numeric_label` and `get_string_label`.
pub record EndLabels : Type 0 where
  pub numeric : Option ℤ
  pub string : Bytes

-- A class, with `get_do_string_label`, the names of `case` constructs, and what the constructs keep
-- beside their labels.
pub data Head : Type 0 where
  allocate_statement deallocate_statement arithmetic_if_statement basic_block
        computed_goto_statement do_while_stmt else_where_statement expr_statement for_all_statement
        for_init_statement for_statement function_definition global null_statement
        nullify_statement :
      Head
  break_stmt : Bytes → Head
  continue_stmt : Bytes → Head
  case_option_stmt : Bytes → Head
  default_option_stmt : Bytes → Head
  -- whether it has the old style, and an end statement
  fortran_do : Bool → Bool → EndLabels → Head
  -- an end statement, the keyword `then`, and the label of `else`
  if_stmt : Bool → Bool → Option ℤ → EndLabels → Head
  stop_or_pause_statement : ℤ → Head
  switch_statement : EndLabels → Head
  where_statement : Bool → EndLabels → Head
  while_stmt : Bool → EndLabels → Head

-- What every statement carries; the label is that of `get_numeric_label`.
pub record StmtInfo : Type 0 where
  pub label : Option ℤ
  pub info : FileInfo
  pub preprocessing : List PreprocessingInfo

mutual
  pub data Item : Type 0 where
    exp : SgNode → Item
    stmt : StmtInfo → Head → Slots → Item
    io : IoStatement → Item

  -- The successors, in their order, with those that the class visits for itself behind them.
  pub data Slots : Type 0 where
    no_slots : Slots
    absent : Slots → Slots
    slot : Item → Slots → Slots

unfoldable pub slots_of : List Item → Slots
slots_of [] = no_slots
slots_of (i ∷ is) = slot i (slots_of is)

unfoldable pub present : Slots → List Item
present no_slots = []
present (absent s) = present s
present (slot i s) = i ∷ present s

-- The tests of the visitors.
abbrev pub is_exp : Item → Bool
is_exp (exp n) = is_expression n
is_exp _ = false

abbrev pub is_list : Item → Bool
is_list (exp n) = is_expr_list n
is_list _ = false

abbrev pub is_label_ref : Item → Bool
is_label_ref (exp (expr l o (label_ref t n))) = true
is_label_ref _ = false

abbrev pub is_statement : Item → Bool
is_statement (exp n) = false
is_statement (stmt i h s) = true
is_statement (io s) = true

abbrev pub is_block : Item → Bool
is_block (stmt i basic_block s) = true
is_block _ = false

abbrev pub is_expr_statement : Item → Bool
is_expr_statement (stmt i expr_statement s) = true
is_expr_statement _ = false

abbrev pub is_for_init : Item → Bool
is_for_init (stmt i for_init_statement s) = true
is_for_init _ = false

abbrev pub is_else_where : Item → Bool
is_else_where (stmt i else_where_statement s) = true
is_else_where _ = false

unfoldable pub head_name : Head → String
head_name allocate_statement = "SgAllocateStatement"
head_name deallocate_statement = "SgDeallocateStatement"
head_name arithmetic_if_statement = "SgArithmeticIfStatement"
head_name basic_block = "SgBasicBlock"
head_name computed_goto_statement = "SgComputedGotoStatement"
head_name do_while_stmt = "SgDoWhileStmt"
head_name else_where_statement = "SgElseWhereStatement"
head_name expr_statement = "SgExprStatement"
head_name for_all_statement = "SgForAllStatement"
head_name for_init_statement = "SgForInitStatement"
head_name for_statement = "SgForStatement"
head_name function_definition = "SgFunctionDefinition"
head_name global = "SgGlobal"
head_name null_statement = "SgNullStatement"
head_name nullify_statement = "SgNullifyStatement"
head_name (break_stmt l) = "SgBreakStmt"
head_name (continue_stmt l) = "SgContinueStmt"
head_name (case_option_stmt c) = "SgCaseOptionStmt"
head_name (default_option_stmt c) = "SgDefaultOptionStmt"
head_name (fortran_do o e l) = "SgFortranDo"
head_name (if_stmt e t a l) = "SgIfStmt"
head_name (stop_or_pause_statement t) = "SgStopOrPauseStatement"
head_name (switch_statement l) = "SgSwitchStatement"
head_name (where_statement e l) = "SgWhereStatement"
head_name (while_stmt e l) = "SgWhileStmt"
