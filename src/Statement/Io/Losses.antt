-- ===== src/Statement/Io/Losses.antt =====
-- Arguments that a statement for input or output does not keep on the way through its element.
use xevxml.Prelude.{
  ◌≡◌, refl, sym, ap, ◌∙◌, subst, true, false, some, List, [], ◌∷◌, ◌++◌, arith, codes, take,
}
use xevxml.Result.{bind-eq-ok, unknown_attribute, ok, err}
use xevxml.Xml.{append_doms}
use xevxml.Ast.Node.{SgNode, opt, null, node}
use xevxml.Platform.{Platform, Scopes}
use xevxml.Write.Attributes.{is_literal}
use xevxml.Write.Visit.{remove_include_directives}
use xevxml.Write.Attributes.{same_bytes}
use xevxml.Write.Document.{◌+++◌, doc_opt}
use xevxml.Read.Visit.{visitors}
use xevxml.RoundTrip.Text.{DecodesEntities}
use xevxml.RoundTrip.Fits.{IsExpression}
use xevxml.RoundTrip.Readable.{Readable}
use xevxml.RoundTrip.Children.{Yields, Yields-append, Yields-node}
use xevxml.RoundTrip.Trees.{reads}
use xevxml.Statement.Io.Kinds.{
  IoAttrib, IoClass, enumerator, attrib_name, find_attrib, io_attrib, io_iolength, io_unit,
  io_iostat, io_err, io_iomsg, io_pending, io_status, close_statement, inquire_statement,
}
use xevxml.Statement.Io.Names.{all_plain-All}
use xevxml.Statement.Io.Write.{
  IoParts, close_entries, inquire_entries, entries, has_list, argument, doc_argument, doc_arguments,
  doc_inode_io,
}
use xevxml.Statement.Io.Read.{
  is_one_of, one_of, close_cases, io_switch, take_argument, take_child, read_parts, no_parts,
}
use xevxml.Statement.Io.Fields.{Pairs, Fields, put, merged, is_target, merged-other}
use xevxml.Statement.Io.Taken.{take_all, at_end, read_parts-take_all, arguments}
use xevxml.Statement.Io.Accepted.{
  diagonal_of, kept, Accepts, covers, covers-one_of, IsVarRefOrNull, inquire-Accepts, take_all-cons,
  after, take_all-arguments,
}
use xevxml.Statement.Io.Document.{named, doc_arguments-append, append_doms-nil}
use xevxml.Statement.Io.Readable.{
  IsArgument, IsList, operands-AreOperands, Yields-arguments, Yields-list, from, take_all-list,
}

abbrev close_pairs : Pairs
close_pairs =
    (io_unit, io_unit)
    ∷ (io_iostat, io_iostat)
    ∷ (io_err, io_err)
    ∷ (io_err, io_iomsg)
    ∷ (io_status, io_status)
    ∷ []

-- The fields behind the label for errors and the message, which share a name.
abbrev before_message : Fields → Fields
before_message f =
    put io_err (f io_err) (put io_iostat (f io_iostat) (put io_unit (f io_unit) (λ b. null)))

module _ (f : Fields) (x : SgNode) (h : f io_iomsg ≡ node x) where
  close-err : merged close_pairs f (λ b. null) io_err ≡ node x
  unfolding merged
  close-err =
      merged-other ((io_status, io_status) ∷ []) f (put io_err (f io_iomsg) (before_message f))
        io_err (unfold is_target enumerator in refl)
      ∙ (unfold enumerator in ap (λ v. put io_err v (before_message f) io_err) h)

  close-iomsg : merged close_pairs f (λ b. null) io_iomsg ≡ null
  unfolding is_target enumerator
  close-iomsg = merged-other close_pairs f (λ b. null) io_iomsg refl

module _ {p : Platform} (d : DecodesEntities p) (st : Scopes) (s : IoParts)
    (h : (a : IoAttrib) → IsArgument p st (s.field a)) (x : SgNode) where
  -- A close statement with a message: reading what is written for its arguments gives the message to
  -- the label for errors, whatever this was, and no message.
  pub visit_close-iomsg :
      s.field io_iomsg ≡ node x
      → (t : IoParts) × (read_parts close_statement
            (visitors p (doc_inode_io p false close_statement s))
            no_parts
            st
          ≡ ok (t, st))
        × (t.field io_err ≡ node x)
        × (t.field io_iomsg ≡ null)
  unfolding doc_inode_io has_list append_doms entries named attrib_name io_switch covers is_one_of
      enumerator
  visit_close-iomsg e =
      let y : Yields p st (doc_arguments p false close_entries s.field)
          (arguments close_pairs s.field) =
        Yields-arguments d st close_pairs s.field h in
      let a : Accepts (one_of close_cases) close_pairs s.field =
        covers-one_of close_cases close_pairs s.field refl in
      (
        after close_pairs s.field no_parts,
        read_parts-take_all close_statement _ no_parts st st _ y.subtree
            ∙ ap (at_end st) (
                take_all-arguments close_statement close_pairs s.field no_parts
                  (operands-AreOperands p st s.field h) a),
        close-err s.field x e,
        close-iomsg s.field x e,
      )

take_all-append :
    (c : IoClass) (ns ms : List SgNode) (s t : IoParts)
    → take_all c ns s ≡ ok t
    → take_all c (ns ++ ms) s ≡ take_all c ms t
unfolding take_all
take_all-append c [] ms s t h = grind arith
take_all-append c (n ∷ ns) ms s t h =
    let k = bind-eq-ok (take_child c (some n) s) (take_all c ns) h in
    take_all-cons c n (ns ++ ms) s k.0 k.1 ∙ take_all-append c ns ms k.0 t k.2

padding-written :
    (p : Platform) (s : IoParts) (x : SgNode)
    → s.field io_pending ≡ node x
    → doc_inode_io p false inquire_statement s
      ≡ doc_opt p false s.io_list
        +++ (doc_arguments p false (named (kept inquire_statement)) s.field
            +++ doc_argument p false "padding" (node x))
unfolding doc_inode_io has_list entries named kept attrib_name diagonal_of doc_arguments
padding-written p s x e =
    let first = doc_arguments p false (take 31 inquire_entries) s.field in
    ap (λ ds. doc_opt p false s.io_list +++ ds)
      (doc_arguments-append p (take 31 inquire_entries) (("padding", io_pending) ∷ []) s.field
        ∙ ap (λ ds. first +++ ds)
            (append_doms-nil p (doc_argument p false "padding" (s.field io_pending))
              ∙ ap (λ v. doc_argument p false "padding" v) e))

abbrev padding : SgNode → SgNode
padding x = argument "padding" x

padding-unknown :
    (x : SgNode) (s : IoParts)
    → take_all inquire_statement (padding x ∷ []) s ≡ err (unknown_attribute (codes "padding"))
unfolding take_all take_child take_argument io_attrib find_attrib attrib_name same_bytes has_list
padding-unknown x s = refl

module _ {p : Platform} (d : DecodesEntities p) (st : Scopes) (s : IoParts)
    (h : (a : IoAttrib) → IsArgument p st (s.field a)) (x : SgNode) where
  Yields-padding :
      IsExpression x
      → Readable p st x
      → Yields p st (doc_argument p false "padding" (node x)) (padding x ∷ [])
  unfolding is_literal Readable remove_include_directives
  Yields-padding hx hr =
      let r = reads d st (padding x) (
        (refl, (tt, (refl, refl))),
        ((hx, all_plain-All (codes "padding") refl), (tt, (tt, hr))),
      ) in
      subst (λ ds. Yields p st ds (padding x ∷ [])) (r.alone false ∙ sym (r.alone true))
        (Yields-node r)

  padding-taken :
      IsList p st true s.io_list
      → IsVarRefOrNull (s.field io_iolength)
      → take_all inquire_statement
          (opt s.io_list ++ (arguments (kept inquire_statement) s.field ++ padding x ∷ []))
          no_parts
        ≡ err (unknown_attribute (codes "padding"))
  unfolding has_list
  padding-taken l v =
      let f = s.field in
      let start = from p st inquire_statement f s.io_list in
      let t =
        take_all-arguments inquire_statement (kept inquire_statement) f start
          (operands-AreOperands p st f h) (inquire-Accepts f v) in
      take_all-list p st inquire_statement f true s.io_list _ refl l
      ∙ (take_all-append inquire_statement (arguments (kept inquire_statement) f) _ start _ t
          ∙ padding-unknown x _)

  -- An inquire statement with a pending flag is written with an argument that its own visitor does
  -- not know: reading what is written for its list and its arguments is an error.
  pub visit_inquire-pending :
      s.field io_pending ≡ node x
      → IsList p st true s.io_list
      → IsVarRefOrNull (s.field io_iolength)
      → read_parts inquire_statement
          (visitors p (doc_inode_io p false inquire_statement s))
          no_parts
          st
        ≡ err (unknown_attribute (codes "padding"))
  unfolding doc_inode_io entries
  visit_inquire-pending e l v =
      let k : IsArgument p st (node x) = subst (IsArgument p st) e (h io_pending) in
      let y = Yields-append (Yields-list d st true s.io_list l) (
        Yields-append (Yields-arguments d st (kept inquire_statement) s.field h)
          (Yields-padding k.0 k.1)) in
      subst
        (λ ds.
          read_parts inquire_statement (visitors p ds) no_parts st
          ≡ err (unknown_attribute (codes "padding")))
        (sym (padding-written p s x e))
        (read_parts-take_all inquire_statement _ no_parts st st _ y.subtree
          ∙ ap (at_end st) (padding-taken l v))
