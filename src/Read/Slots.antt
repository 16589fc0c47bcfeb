-- ===== src/Read/Slots.antt =====
-- How a visitor sorts the children of an element into its variables.
use xevxml.Prelude.{Bool, true, false, List, [], ◌∷◌}
use xevxml.Ast.Node.{
  Located, SgNode, Exp, OptNode, Nodes, transformation_info, expr, null, node, no_nodes, cons,
}

-- `if(a==0) a = isA(child); else if(b==0) b = isB(child); …`: each child is offered to the first
-- variable that is still empty. The result holds the variables that were filled.
unfoldable pub fill : List (SgNode → Bool) → List SgNode → List SgNode
fill [] cs = []
fill (t ∷ ts) [] = []
fill (t ∷ ts) (c ∷ cs) = elim (t c) [ true ↦ c ∷ fill ts cs | false ↦ fill (t ∷ ts) cs ]

-- `if(a==0) a = isA(child);` by itself: the first child of that kind.
unfoldable pub first : (SgNode → Bool) → List SgNode → OptNode
first t [] = null
first t (c ∷ cs) = elim (t c) [ true ↦ node c | false ↦ first t cs ]

-- All the children of a kind.
unfoldable pub select : (SgNode → Bool) → List SgNode → Nodes
select t [] = no_nodes
select t (c ∷ cs) = elim (t c) [ true ↦ cons c (select t cs) | false ↦ select t cs ]

-- A new expression: the visitors leave it without parentheses, and with no original tree.
abbrev pub fresh : Located
fresh = record { need_paren = false; info = transformation_info; preprocessing = [] }

abbrev pub build : Exp → SgNode
build e = expr fresh null e

abbrev pub build_with : OptNode → Exp → SgNode
build_with o e = expr fresh o e
