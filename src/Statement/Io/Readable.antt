-- ===== src/Statement/Io/Readable.antt =====
-- Which statements for input and output come back, and what their arguments are read as.
use xevxml.Prelude.{
  ◌≡◌, refl, sym, ◌∙◌, subst, Bool, true, false, Option, none, some, List, [], ◌∷◌, ◌++◌, arith,
  if◌then◌else◌, All,
}
use xevxml.Result.{ok}
use xevxml.Xml.{no_doms}
use xevxml.Stream.{ℤ}
use xevxml.Stream.RoundTrip.{IsInt}
use xevxml.Ast.Node.{
  SgNode, OptNode, transformation_info, opt, expr, basic_type, plain_type, expr_list, null, node,
}
use xevxml.Platform.{Platform, Scopes}
use xevxml.Write.Attributes.{is_literal}
use xevxml.Write.Visit.{remove_include_directives}
use xevxml.Write.Document.{doc_opt}
use xevxml.RoundTrip.Text.{DecodesEntities}
use xevxml.RoundTrip.Fits.{IsExpression, IsExprList}
use xevxml.RoundTrip.Comments.{IsComment}
use xevxml.RoundTrip.Readable.{Readable}
use xevxml.RoundTrip.Children.{Yields, Yields-none, Yields-append, Yields-node}
use xevxml.RoundTrip.Trees.{reads}
use xevxml.Statement.Io.Kinds.{
  IoAttrib, IoClass, attrib_name, io_class_name, backspace_statement, close_statement,
  endfile_statement, flush_statement, inquire_statement, open_statement, print_statement,
  read_statement, rewind_statement, wait_statement, write_statement,
}
use xevxml.Statement.Io.Names.{attrib_name-IsPlain}
use xevxml.Statement.Io.Write.{
  IoParts, IoStatement, has_list, argument, doc_argument, doc_arguments,
}
use xevxml.Statement.Io.Read.{
  Switch, io_switch, take_argument, take_list, take_child, no_parts, search_io, io_class_of,
}
use xevxml.Statement.Io.Fields.{Pairs, Fields, is_target}
use xevxml.Statement.Io.Taken.{take_all, add_argument, arguments, IsOperand}
use xevxml.Statement.Io.Accepted.{kept, IsLossless, AreOperands, take_all-cons}
use xevxml.Statement.Io.Document.{named}

module _ (p : Platform) (st : Scopes) where
  abbrev pub IsArgument : OptNode → Type 0
  IsArgument null = Unit
  IsArgument (node x) = IsExpression x × Readable p st x

  -- The list of a statement whose class has one.
  abbrev pub IsList : Bool → OptNode → Type 0
  IsList true null = Unit
  IsList true (node n) = IsExprList n × Readable p st n
  IsList false null = Unit
  IsList false (node n) = ⊥

abbrev pub IsLabel : Option ℤ → Type 0
IsLabel none = Unit
IsLabel (some z) = IsInt z

-- Statements that come back: as a reader left them, with comments that survive and readable
-- arguments, all of them in fields that the class writes and reads under the same name.
pub record ReadableIo (p : Platform) (st : Scopes) (s : IoStatement) : Type 0 where
  pub label : IsLabel s.label
  pub info : s.info ≡ transformation_info
  pub comments : All IsComment s.preprocessing
  pub no_include : remove_include_directives p s.preprocessing ≡ s.preprocessing
  pub list : IsList p st (has_list s.io_class) s.parts.io_list
  pub operands : (a : IoAttrib) → IsArgument p st (s.parts.field a)
  pub absent : (b : IoAttrib) → is_target (kept s.io_class) b ≡ false → s.parts.field b ≡ null
  pub lossless : IsLossless s.io_class s.parts.field

pub io_class_of-name : (c : IoClass) → io_class_of (io_class_name c) ≡ some c
unfolding io_class_of search_io io_class_name
io_class_of-name backspace_statement = refl
io_class_of-name close_statement = refl
io_class_of-name endfile_statement = refl
io_class_of-name flush_statement = refl
io_class_of-name inquire_statement = refl
io_class_of-name open_statement = refl
io_class_of-name print_statement = refl
io_class_of-name read_statement = refl
io_class_of-name rewind_statement = refl
io_class_of-name wait_statement = refl
io_class_of-name write_statement = refl

pub Readable-IsOperand :
    (p : Platform) (st : Scopes) (x : SgNode) → IsExpression x → Readable p st x → IsOperand x
unfolding Readable
Readable-IsOperand p st (expr l o e) h r = r.0.0
Readable-IsOperand p st (basic_type t k) h r = absurd (grind arith)
Readable-IsOperand p st (plain_type t) h r = absurd (grind arith)

pub operands-AreOperands :
    (p : Platform) (st : Scopes) (f : Fields)
    → ((a : IoAttrib) → IsArgument p st (f a))
    → AreOperands f
operands-AreOperands p st f h a x e =
    let k : IsArgument p st (node x) = subst (IsArgument p st) e (h a) in
    Readable-IsOperand p st x k.0 k.1

pub argument-Readable :
    (p : Platform) (st : Scopes) (t : IoAttrib) (x : SgNode)
    → IsExpression x
    → Readable p st x
    → Readable p st (argument (attrib_name t) x)
unfolding Readable remove_include_directives is_literal
argument-Readable p st t x h r =
    ((refl, (tt, (refl, refl))), ((h, attrib_name-IsPlain t), (tt, (tt, r))))

pub add_argument-append :
    (t : IoAttrib) (v : OptNode) (ns : List SgNode)
    → add_argument t v [] ++ ns ≡ add_argument t v ns
add_argument-append t null ns = refl
add_argument-append t (node x) ns = refl

module _ {p : Platform} (d : DecodesEntities p) (st : Scopes) where
  pub Yields-argument :
      (t : IoAttrib) (v : OptNode)
      → IsArgument p st v
      → Yields p st (doc_argument p false (attrib_name t) v) (add_argument t v [])
  Yields-argument t null h = Yields-none
  Yields-argument t (node x) h =
      let r = reads d st (argument (attrib_name t) x) (argument-Readable p st t x h.0 h.1) in
      subst (λ ds. Yields p st ds (argument (attrib_name t) x ∷ []))
        (r.alone false ∙ sym (r.alone true)) (Yields-node r)

  pub Yields-arguments :
      (es : Pairs) (f : Fields)
      → ((a : IoAttrib) → IsArgument p st (f a))
      → Yields p st (doc_arguments p false (named es) f) (arguments es f)
  unfolding doc_arguments named arguments
  Yields-arguments [] f h = Yields-none
  Yields-arguments ((t, a) ∷ es) f h =
      subst (Yields p st _) (add_argument-append t (f a) (arguments es f))
        (Yields-append (Yields-argument t (f a) (h a)) (Yields-arguments es f h))

  pub Yields-list :
      (b : Bool) (o : OptNode)
      → IsList p st b o
      → Yields p st (if b then doc_opt p false o else no_doms) (opt o)
  unfolding doc_opt
  Yields-list true null h = Yields-none
  Yields-list true (node n) h = Yields-node (reads d st n h.1)
  Yields-list false null h = Yields-none
  Yields-list false (node n) h = absurd h

pub take_argument-list :
    (switch : Switch) (n : SgNode) (s : IoParts) → IsExprList n → take_argument switch n s ≡ ok s
unfolding take_argument
take_argument-list switch (expr l o (expr_list ns)) s h = refl
take_argument-list switch _ s h = absurd (grind arith)

pub take_child-list :
    (c : IoClass) (n : SgNode)
    → has_list c ≡ true
    → IsExprList n
    → take_child c (some n) no_parts ≡ ok (record { io_list = node n; field = λ a. null })
unfolding take_child take_list
take_child-list c n h k =
    rw (h, k)
      (take_argument-list (io_switch c) n (record { io_list = node n; field = λ a. null }) k)

module _ (p : Platform) (st : Scopes) (c : IoClass) (f : Fields) where
  unfoldable pub from : OptNode → IoParts
  from o = record { io_list = o; field = λ a. null }

  pub take_all-list :
      (b : Bool) (o : OptNode) (ns : List SgNode)
      → has_list c ≡ b
      → IsList p st b o
      → take_all c (opt o ++ ns) no_parts ≡ take_all c ns (from o)
  unfolding from
  take_all-list b null ns e h = refl
  take_all-list true (node n) ns e h = take_all-cons c n ns no_parts _ (take_child-list c n e h.0)
  take_all-list false (node n) ns e h = absurd h
