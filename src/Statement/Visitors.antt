-- ===== src/Statement/Visitors.antt =====
-- What the visitor of each class of statement looks for among its children, and in its attributes (the
-- methods `visitSg…` of src/stmt.cpp).
use xevxml.Prelude.{ℕ, zero, suc, Bool, true, false, List, [], ◌∷◌}
use xevxml.Result.{Error, missing_node, missing_nodes, null_dereference}
use xevxml.Statement.Node.{
  Head, Item, is_exp, is_list, is_label_ref, is_statement, is_block, is_expr_statement, is_for_init,
  is_else_where, allocate_statement, deallocate_statement, arithmetic_if_statement, basic_block,
  computed_goto_statement, do_while_stmt, else_where_statement, expr_statement, for_all_statement,
  for_init_statement, for_statement, function_definition, global, null_statement, nullify_statement,
  break_stmt, continue_stmt, case_option_stmt, default_option_stmt, fortran_do, if_stmt,
  stop_or_pause_statement, switch_statement, where_statement, while_stmt,
}

-- The tests of `if(a==0) a = isA(child); else if(b==0) …`, how many of the variables must be filled,
-- the error if only so many are, and whether the statement is pushed on the stack of scopes.
pub record Visitor : Type 0 where
  pub chain : List (Item → Bool)
  pub required : ℕ
  pub missing : ℕ → Error
  pub scoped : Bool

-- The first name for a variable that is still empty, and another one for those behind it.
abbrev pub first_or : {A : Type 0} → A → A → ℕ → A
first_or a b zero = a
first_or a b (suc n) = b

abbrev optional : Visitor
optional = record { chain = []; required = 0; missing = λ k. null_dereference; scoped = false }

abbrev pub allocate_visitor : Visitor
allocate_visitor = record optional { chain = is_list ∷ is_exp ∷ [] }

abbrev pub deallocate_visitor : Visitor
deallocate_visitor = record optional { chain = is_list ∷ is_exp ∷ [] }

abbrev pub arithmetic_if_visitor : Visitor
arithmetic_if_visitor = record {
  chain = is_exp ∷ is_label_ref ∷ is_label_ref ∷ is_label_ref ∷ [];
  required = 4;
  missing = λ k. missing_nodes "SgArithmeticIfStatement" 4;
  scoped = false;
}

abbrev pub case_option_visitor : Visitor
case_option_visitor = record {
  chain = is_exp ∷ is_statement ∷ is_exp ∷ [];
  required = 2;
  missing = λ k. missing_node "SgCaseOptionStmt" (first_or "SgExpression" "SgStatement" k);
  scoped = false;
}

abbrev pub default_option_visitor : Visitor
default_option_visitor = record {
  chain = is_statement ∷ [];
  required = 1;
  missing = λ k. missing_node "SgDefaultOptionStmt" "SgStatement";
  scoped = false;
}

abbrev pub computed_goto_visitor : Visitor
computed_goto_visitor = record {
  chain = is_list ∷ is_exp ∷ [];
  required = 2;
  missing = λ k. missing_node "SgComputedGotoStatement" (first_or "SgExprListExp" "SgExpression" k);
  scoped = false;
}

abbrev pub do_while_visitor : Visitor
do_while_visitor = record {
  chain = is_statement ∷ is_expr_statement ∷ [];
  required = 2;
  missing = λ k. missing_node "SgDoWhileStmt" (first_or "SgStatement" "SgExprStatement" k);
  scoped = false;
}

-- The block is asked for first.
abbrev pub else_where_visitor : Visitor
else_where_visitor = record {
  chain = is_exp ∷ is_block ∷ is_else_where ∷ [];
  required = 2;
  missing = λ k. missing_node "SgDoElseWhileStmt" "SgBasicBlock";
  scoped = false;
}

abbrev pub expr_statement_visitor : Visitor
expr_statement_visitor = record {
  chain = is_exp ∷ [];
  required = 1;
  missing = λ k. missing_node "SgExprStatement" "SgExpression";
  scoped = false;
}

abbrev pub for_all_visitor : Visitor
for_all_visitor = record {
  chain = is_list ∷ is_block ∷ [];
  required = 2;
  missing = λ k. missing_node "SgForAllStatement" (first_or "SgExprListExp" "SgBasicBlock" k);
  scoped = false;
}

abbrev pub for_visitor : Visitor
for_visitor = record {
  chain = is_for_init ∷ is_statement ∷ is_exp ∷ is_statement ∷ [];
  required = 4;
  missing = λ k.
      first_or (missing_node "SgForStatement" "SgForInitStatement")
        (missing_nodes "SgForStatement" 2) k;
  scoped = false;
}

abbrev pub fortran_do_visitor : Visitor
fortran_do_visitor = record optional {
  chain = is_exp ∷ is_exp ∷ is_exp ∷ is_block ∷ [];
  scoped = true;
}

abbrev pub function_definition_visitor : Visitor
function_definition_visitor = record optional { chain = is_block ∷ []; scoped = true }

abbrev pub if_visitor : Visitor
if_visitor = record {
  chain = is_expr_statement ∷ is_statement ∷ is_statement ∷ [];
  required = 2;
  missing = λ k. missing_node "SgIfStmt" (first_or "SgExprStatement" "SgStatement" k);
  scoped = true;
}

abbrev pub nullify_visitor : Visitor
nullify_visitor = record {
  chain = is_list ∷ [];
  required = 1;
  missing = λ k. missing_node "SgNullifyStatement" "SgExprListExp";
  scoped = false;
}

abbrev pub stop_or_pause_visitor : Visitor
stop_or_pause_visitor = record optional { chain = is_exp ∷ [] }

abbrev pub switch_visitor : Visitor
switch_visitor = record {
  chain = is_statement ∷ is_statement ∷ [];
  required = 2;
  missing = λ k. missing_nodes "SgSwitchStatement" 2;
  scoped = true;
}

abbrev pub where_visitor : Visitor
where_visitor = record optional { chain = is_exp ∷ is_block ∷ is_else_where ∷ [] }

abbrev pub while_visitor : Visitor
while_visitor = record optional { chain = is_expr_statement ∷ is_statement ∷ is_statement ∷ [] }

-- How the children of a class are visited: not at all, as statements and texts, as a list of
-- statements, or in the chain of a visitor.
pub data Way : Type 0 where
  leaf traversed listed : Way
  chained : Visitor → Way

unfoldable pub way : Head → Way
way allocate_statement = chained allocate_visitor
way deallocate_statement = chained deallocate_visitor
way arithmetic_if_statement = chained arithmetic_if_visitor
way basic_block = traversed
way computed_goto_statement = chained computed_goto_visitor
way do_while_stmt = chained do_while_visitor
way else_where_statement = chained else_where_visitor
way expr_statement = chained expr_statement_visitor
way for_all_statement = chained for_all_visitor
way for_init_statement = listed
way for_statement = chained for_visitor
way function_definition = chained function_definition_visitor
way global = traversed
way null_statement = leaf
way nullify_statement = chained nullify_visitor
way (break_stmt l) = leaf
way (continue_stmt l) = leaf
way (case_option_stmt c) = chained case_option_visitor
way (default_option_stmt c) = chained default_option_visitor
way (fortran_do o e l) = chained fortran_do_visitor
way (if_stmt e t a l) = chained if_visitor
way (stop_or_pause_statement t) = chained stop_or_pause_visitor
way (switch_statement l) = chained switch_visitor
way (where_statement e l) = chained where_visitor
way (while_stmt e l) = chained while_visitor
