-- ===== src/Statement/Io/Taken.antt =====
-- The visitor of a statement for input or output, once its children have been visited.
use xevxml.Prelude.{
  String, ◌≡◌, refl, sym, ap, ◌∙◌, inl, inr, Option, none, some, List, [], ◌∷◌, arith, Bool-cases,
  codes,
}
use xevxml.Result.{Result, bind, ok, err}
use xevxml.Ast.Node.{
  is_null, FileInfo, SgNode, OptNode, transformation_info, expr, basic_type, plain_type, null, node,
}
use xevxml.Platform.{Scopes}
use xevxml.Read.Monad.{Child, keep, visit_subtree}
use xevxml.RoundTrip.Children.{keep_in, first_then, visit_subtree-cons}
use xevxml.Statement.Io.Kinds.{IoAttrib, IoClass, attrib_name}
use xevxml.Statement.Io.Names.{io_attrib-attrib_name}
use xevxml.Statement.Io.Write.{IoParts, has_list, argument}
use xevxml.Statement.Io.Read.{
  Switch, io_switch, restart, take_argument, take_list, take_child, read_parts,
}
use xevxml.Statement.Io.Fields.{Pairs, Fields}

-- The loop of the visitor on the nodes that its children give.
unfoldable pub take_all : IoClass → List SgNode → IoParts → Result IoParts
take_all c [] s = ok s
take_all c (n ∷ ns) s = bind (take_child c (some n) s) (take_all c ns)

abbrev pub resume : IoClass → List Child → Scopes → Result IoParts → Result (IoParts × Scopes)
resume c kids st (err e) = err e
resume c kids st (ok s) = read_parts c kids s st

abbrev pub begin :
    IoClass → List Child → IoParts → Result (Option SgNode × Scopes) → Result (IoParts × Scopes)
begin c kids s (err e) = err e
begin c kids s (ok (n, st)) = resume c kids st (take_child c n s)

pub read_parts-cons :
    (c : IoClass) (k : Child) (kids : List Child) (s : IoParts) (st : Scopes)
    → read_parts c (k ∷ kids) s st ≡ begin c kids s (k st)
unfolding read_parts
read_parts-cons c k kids s st = ground arith

keep_in-ok :
    (n : Option SgNode) (m : Result (List SgNode × Scopes)) (ns : List SgNode) (st : Scopes)
    → keep_in n m ≡ ok (ns, st)
    → (ms : List SgNode) × ((m ≡ ok (ms, st)) × (keep n ms ≡ ns))
keep_in-ok n (err e) ns st h = absurd (grind arith)
keep_in-ok n (ok (ms, st')) ns st h = (ms, (grind arith, grind arith))

abbrev pub at_end : Scopes → Result IoParts → Result (IoParts × Scopes)
at_end st (err e) = err e
at_end st (ok s) = ok (s, st)

module _ (c : IoClass) (kids : List Child) (end : Scopes)
    (ih : (s : IoParts) (st : Scopes) (ns : List SgNode)
      → visit_subtree kids st ≡ ok (ns, end)
      → read_parts c kids s st ≡ at_end end (take_all c ns s)) where
  resume-taken :
      (r : Result IoParts) (st : Scopes) (ns : List SgNode)
      → visit_subtree kids st ≡ ok (ns, end)
      → resume c kids st r ≡ at_end end (bind r (take_all c ns))
  resume-taken (err e) st ns h = refl
  resume-taken (ok s) st ns h = ih s st ns h

  begin-kept :
      (n : Option SgNode) (s : IoParts) (st : Scopes) (ms : List SgNode)
      → visit_subtree kids st ≡ ok (ms, end)
      → resume c kids st (take_child c n s) ≡ at_end end (take_all c (keep n ms) s)
  unfolding take_all take_child
  begin-kept none s st ms h = ih s st ms h
  begin-kept (some n) s st ms h = resume-taken (take_child c (some n) s) st ms h

  begin-taken :
      (r : Result (Option SgNode × Scopes)) (s : IoParts) (ns : List SgNode)
      → first_then kids r ≡ ok (ns, end)
      → begin c kids s r ≡ at_end end (take_all c ns s)
  begin-taken (err e) s ns h = absurd (grind arith)
  begin-taken (ok (n, st)) s ns h =
      let k = keep_in-ok n (visit_subtree kids st) ns end h in
      begin-kept n s st k.0 k.1.0 ∙ ap (λ ms. at_end end (take_all c ms s)) k.1.1

-- If every child can be visited, dealing with each child before the next one is visited comes to
-- visiting them all first: the same statement, or the same error.
pub read_parts-take_all :
    (c : IoClass) (kids : List Child) (s : IoParts) (st end : Scopes) (ns : List SgNode)
    → visit_subtree kids st ≡ ok (ns, end)
    → read_parts c kids s st ≡ at_end end (take_all c ns s)
unfolding read_parts visit_subtree take_all
read_parts-take_all c [] s st end ns h = grind arith
read_parts-take_all c (k ∷ kids) s st end ns h =
    read_parts-cons c k kids s st
    ∙ begin-taken c kids end (λ t st' ms. read_parts-take_all c kids t st' end ms) (k st) s ns
        (sym (visit_subtree-cons k kids st) ∙ h)

-- The arguments that a statement has, as nodes.
abbrev pub add_argument : IoAttrib → OptNode → List SgNode → List SgNode
add_argument t null ns = ns
add_argument t (node x) ns = argument (attrib_name t) x ∷ ns

unfoldable pub arguments : Pairs → Fields → List SgNode
arguments [] f = []
arguments ((t, a) ∷ es) f = add_argument t (f a) (arguments es f)

-- An expression as the readers leave it.
abbrev pub IsOperand : SgNode → Type 0
IsOperand (expr l o e) = l.info ≡ transformation_info
IsOperand n = ⊥

restart-IsOperand : (x : SgNode) → IsOperand x → restart x ≡ x
unfolding restart
restart-IsOperand (expr l o e) h =
    ap
      (λ (i : FileInfo).
        expr (record { need_paren = l.need_paren; info = i; preprocessing = l.preprocessing }) o e)
      (sym h)
restart-IsOperand (basic_type t k) h = absurd h
restart-IsOperand (plain_type t) h = absurd h

take_list-argument : (name : String) (x : SgNode) (s : IoParts) → take_list (argument name x) s ≡ s
unfolding take_list
take_list-argument name x s = elim (Bool-cases (is_null s.io_list)) [
  | inl h ↦ rw (h) refl
  | inr h ↦ rw (h) refl
]

take_argument-argument :
    (switch : Switch) (t : IoAttrib) (x : SgNode) (s : IoParts)
    → IsOperand x
    → take_argument switch (argument (attrib_name t) x) s ≡ switch (codes (attrib_name t)) t x s
unfolding take_argument
take_argument-argument switch t x s h =
    let a = io_attrib-attrib_name t in let b = restart-IsOperand x h in grind arith

pub take_child-argument :
    (c : IoClass) (t : IoAttrib) (x : SgNode) (s : IoParts)
    → IsOperand x
    → take_child c (some (argument (attrib_name t) x)) s ≡ io_switch c (codes (attrib_name t)) t x s
unfolding take_child
take_child-argument c t x s h =
    let e = take_list-argument (attrib_name t) x s in
    let a = take_argument-argument (io_switch c) t x s h in
    elim (Bool-cases (has_list c)) [ inl k ↦ rw (k, e) a | inr k ↦ rw (k) a ]
