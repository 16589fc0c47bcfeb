-- ===== src/Statement/Io/RoundTrip.antt =====
-- A statement for input or output is read back from the element that is written for it.
use xevxml.Prelude.{
  ℕ, String, ◌≡◌, refl, sym, ap, ◌∙◌, Bool, true, false, ◌&&◌, Option, none, some, ◌++◌, append-nil,
  arith,
}
use xevxml.Result.{ok}
use xevxml.Xml.{Doms, Attrs, tags, dom_tags, doms_tags, get_named_item, get_int, element}
use xevxml.Stream.{ℤ, print_int}
use xevxml.Stream.RoundTrip.{stream_int-print_int}
use xevxml.Ast.Node.{transformation_info, opt}
use xevxml.Platform.{Platform, Scopes}
use xevxml.Write.Visit.{remove_include_directives, is_in_same_file}
use xevxml.Write.Document.{◌+++◌, one, doc_infos}
use xevxml.Read.Visit.{read_infos, info_of, visitors}
use xevxml.RoundTrip.Text.{DecodesEntities, decode-plain, print_int-IsPlain}
use xevxml.RoundTrip.Comments.{read_infos-doc_infos}
use xevxml.RoundTrip.Children.{Yields, Yields-append}
use xevxml.RoundTrip.Element.{visited}
use xevxml.Statement.Io.Kinds.{io_class_name}
use xevxml.Statement.Io.Write.{
  IoStatement, has_list, label_attribute, io_attributes, write_io, doc_inode_io, doc_io,
}
use xevxml.Statement.Io.Read.{read_parts, no_parts, check_io, visit_io}
use xevxml.Statement.Io.Fields.{merged-restores}
use xevxml.Statement.Io.Taken.{take_all, at_end, read_parts-take_all, arguments}
use xevxml.Statement.Io.Accepted.{kept, kept-is_diagonal, kept-Accepts, take_all-arguments}
use xevxml.Statement.Io.Document.{tags-write_io, doc_arguments-kept}
use xevxml.Statement.Io.Readable.{
  ReadableIo, IsLabel, io_class_of-name, operands-AreOperands, Yields-arguments, Yields-list, from,
  take_all-list,
}

module _ {p : Platform} (d : DecodesEntities p) (st : Scopes) (in_block : Bool) (s : IoStatement)
    (h : ReadableIo p st s) where
  pub attributes-label : io_attributes in_block s ≡ label_attribute s.label
  unfolding io_attributes
  attributes-label = rw (h.info, and-zero in_block) (append-nil (label_attribute s.label))
    where
      and-zero : (b : Bool) → (b && false) ≡ false
      and-zero true = refl
      and-zero false = refl

  label-read : (l : Option ℤ) → IsLabel l → get_int p.decode p.tmp "label" (label_attribute l) ≡ l
  unfolding label_attribute get_int get_named_item
  label-read none k = refl
  label-read (some z) k =
      rw (decode-plain d (print_int z) (print_int-IsPlain z), stream_int-print_int p.tmp z k) refl

  info-read : (l : Option ℤ) → info_of p (label_attribute l) ≡ transformation_info
  unfolding label_attribute get_int get_named_item info_of
  info-read none = refl
  info-read (some z) = refl

  abbrev pub io_inside : Doms
  io_inside =
      doc_inode_io p false s.io_class s.parts
      +++ doc_infos (remove_include_directives p s.preprocessing)

  Yields-inode :
      Yields p st
        (doc_inode_io p false s.io_class s.parts)
        (opt s.parts.io_list ++ arguments (kept s.io_class) s.parts.field)
  unfolding doc_inode_io
  Yields-inode = rw (doc_arguments-kept p s.io_class s.parts.field h.lossless) (
      Yields-append (Yields-list d st (has_list s.io_class) s.parts.io_list h.list)
        (Yields-arguments d st (kept s.io_class) s.parts.field h.operands))

  parts-taken :
      take_all s.io_class
        (opt s.parts.io_list ++ arguments (kept s.io_class) s.parts.field)
        no_parts
      ≡ ok s.parts
  unfolding from
  parts-taken =
      let f = s.parts.field in
      take_all-list p st s.io_class f (has_list s.io_class) s.parts.io_list _ refl h.list
      ∙ (take_all-arguments s.io_class (kept s.io_class) f (from p st s.io_class f s.parts.io_list)
            (operands-AreOperands p st f h.operands) (kept-Accepts s.io_class f h.lossless)
          ∙ ap (λ g. ok (record { io_list = s.parts.io_list; field = g }))
              (merged-restores (kept s.io_class) f (kept-is_diagonal s.io_class) h.absent))

  parts-read : read_parts s.io_class (visitors p io_inside) no_parts st ≡ ok (s.parts, st)
  parts-read =
      read_parts-take_all s.io_class (visitors p io_inside) no_parts st st _
        (visited st Yields-inode (remove_include_directives p s.preprocessing))
      ∙ ap (at_end st) parts-taken

  comments-read : read_infos p io_inside ≡ ok s.preprocessing
  comments-read =
      Yields-inode.comments _
      ∙ (ap (λ is. read_infos p (doc_infos is)) h.no_include
          ∙ read_infos-doc_infos d s.preprocessing h.comments)

  check-read : check_io p s.io_class (io_attributes in_block s) io_inside s.parts ≡ ok s
  unfolding check_io
  check-read =
      rw
        (comments-read, attributes-label, label-read s.label h.label, info-read s.label, sym h.info)
        refl

  pub visit_io-written :
      visit_io p (io_class_name s.io_class) (io_attributes in_block s) io_inside st ≡ ok (s, st)
  unfolding visit_io
  visit_io-written =
      let a = io_class_of-name s.io_class in let b = parts-read in let c = check-read in grind arith

  pub doc_io-written :
      (outermost : Bool)
      → doc_io p false in_block outermost s
        ≡ one (element (io_class_name s.io_class) (io_attributes in_block s) io_inside)
  unfolding doc_io is_in_same_file
  doc_io-written outermost = rw (h.info) refl

module _ {p : Platform} (d : DecodesEntities p) where
  -- A statement for input or output is written as one element, and what its visitor makes of this
  -- element below a parent is the statement again: its label, its comments, its list and each of its
  -- arguments in its field, and the stack of scopes is left as it was. The statement is one that a
  -- reader left, its arguments are readable, so that no literal in them stands in parentheses, those of
  -- its class alone are there, a close statement has no message, and an inquire statement has no pending flag and its length is a variable.
  pub read-write_io :
      (st : Scopes) (depth : ℕ) (in_block outermost : Bool) (s : IoStatement)
      → ReadableIo p st s
      → (name : String) × (atts : Attrs) × (ds : Doms) × ((tags
              (write_io p false depth in_block outermost s)
            ≡ dom_tags (element name atts ds))
          × (visit_io p name atts ds st ≡ ok (s, st)))
  unfolding doms_tags
  read-write_io st depth in_block outermost s h =
      let ds = io_inside d st in_block s h in
      let e = element (io_class_name s.io_class) (io_attributes in_block s) ds in
      (
        io_class_name s.io_class,
        io_attributes in_block s,
        ds,
        (
          tags-write_io p false depth in_block outermost s
              ∙ (ap doms_tags (doc_io-written d st in_block s h outermost)
                  ∙ append-nil (dom_tags e)),
          visit_io-written d st in_block s h,
        ),
      )
