-- ===== src/Statement/Io/Document.antt =====
-- The markup of a statement for input or output, and the nodes that its arguments are read as.
use xevxml.Prelude.{
  ℕ, suc, String, ◌≡◌, refl, sym, ap, ◌∙◌, Bool, true, false, ◌&&◌, [], ◌∷◌, ◌++◌, take,
}
use xevxml.Xml.{Doms, tags, doms_tags, append_doms, no_doms, dom}
use xevxml.Ast.Node.{OptNode, null, node}
use xevxml.Platform.{Platform}
use xevxml.Write.Visit.{remove_include_directives, is_in_same_file}
use xevxml.Write.Document.{◌+++◌}
use xevxml.Write.WellFormed.{
  Spells, Spells-nil, Spells-append, Spells-infos, Spells-element, Spells-if, write-Spells,
  opt-Spells,
}
use xevxml.RoundTrip.Children.{append_doms_assoc}
use xevxml.Statement.Io.Kinds.{
  IoAttrib, IoClass, attrib_name, io_class_name, io_iomsg, io_pending, close_statement,
  inquire_statement,
}
use xevxml.Statement.Io.Write.{
  IoStatement, Entries, close_entries, inquire_entries, entries, has_list, argument, io_attributes,
  write_argument, write_arguments, inode_io, write_io, doc_argument, doc_arguments, doc_inode_io,
  doc_io,
}
use xevxml.Statement.Io.Fields.{Pairs, Fields}
use xevxml.Statement.Io.Accepted.{diagonal_of, kept, IsLossless}

module _ (p : Platform) (skip : Bool) where
  argument-Spells :
      (d : ℕ) (name : String) (v : OptNode)
      → Spells (write_argument p skip d name v) (doc_argument p skip name v)
  argument-Spells d name null = Spells-nil
  argument-Spells d name (node x) = write-Spells p skip d true (argument name x)

  arguments-Spells :
      (d : ℕ) (es : Entries) (f : Fields)
      → Spells (write_arguments p skip d es f) (doc_arguments p skip es f)
  unfolding write_arguments doc_arguments
  arguments-Spells d [] f = Spells-nil
  arguments-Spells d ((name, a) ∷ es) f =
      Spells-append _ _ (argument-Spells d name (f a)) (arguments-Spells d es f)

  -- What the writer puts on its stream for a statement is well-formed markup: without the layout it
  -- is the sequence of tags of one element, or of none if the statement is left out.
  pub tags-write_io :
      (d : ℕ) (in_block outermost : Bool) (s : IoStatement)
      → tags (write_io p skip d in_block outermost s)
        ≡ doms_tags (doc_io p skip in_block outermost s)
  unfolding write_io doc_io inode_io doc_inode_io
  tags-write_io d in_block outermost s =
      let list =
        Spells-if (has_list s.io_class) (opt-Spells p skip (suc d) s.parts.io_list) Spells-nil in
      let inside =
        Spells-append _ _
          (Spells-append _ _ list (arguments-Spells (suc d) (entries s.io_class) s.parts.field))
          (Spells-infos (remove_include_directives p s.preprocessing)) in
      (Spells-if (is_in_same_file p.is_fortran outermost s.info)
        (Spells-if (skip && s.info.compiler_generated) Spells-nil
          (Spells-element d (io_class_name s.io_class) (io_attributes in_block s) _ true inside))
        Spells-nil).at

unfoldable pub named : Pairs → Entries
named [] = []
named ((t, a) ∷ es) = (attrib_name t, a) ∷ named es

module _ (p : Platform) where
  pub doc_arguments-append :
      (xs ys : Entries) (f : Fields)
      → doc_arguments p false (xs ++ ys) f
        ≡ doc_arguments p false xs f +++ doc_arguments p false ys f
  unfolding doc_arguments append_doms
  doc_arguments-append [] ys f = refl
  doc_arguments-append ((name, a) ∷ xs) ys f =
      ap (λ ds. doc_argument p false name (f a) +++ ds) (doc_arguments-append xs ys f)
      ∙ sym (append_doms_assoc (doc_argument p false name (f a)) _ _)

  pub append_doms-nil : (a : Doms) → a +++ no_doms ≡ a
  unfolding append_doms
  append_doms-nil no_doms = refl
  append_doms-nil (dom d a) = ap (λ t. dom d t) (append_doms-nil a)

  absent :
      (name : String) (a : IoAttrib) (f : Fields)
      → f a ≡ null
      → doc_arguments p false ((name, a) ∷ []) f ≡ no_doms
  unfolding doc_arguments append_doms
  absent name a f h = ap (λ v. doc_argument p false name v +++ no_doms) h

  close-kept :
      (f : Fields)
      → f io_iomsg ≡ null
      → doc_arguments p false close_entries f
        ≡ doc_arguments p false (named (kept close_statement)) f
  unfolding doc_arguments append_doms named kept attrib_name
  close-kept f h = rw (h) refl

  inquire-kept :
      (f : Fields)
      → f io_pending ≡ null
      → doc_arguments p false inquire_entries f
        ≡ doc_arguments p false (named (kept inquire_statement)) f
  unfolding named kept attrib_name diagonal_of
  inquire-kept f h =
      doc_arguments-append (take 31 inquire_entries) (("padding", io_pending) ∷ []) f
      ∙ (ap (λ ds. doc_arguments p false (take 31 inquire_entries) f +++ ds)
            (absent "padding" io_pending f h)
          ∙ append_doms-nil _)

  -- If nothing is there that gets lost, what is written is what is read.
  pub doc_arguments-kept :
      (c : IoClass) (f : Fields)
      → IsLossless c f
      → doc_arguments p false (entries c) f ≡ doc_arguments p false (named (kept c)) f
  unfolding entries kept named diagonal_of attrib_name
  doc_arguments-kept close_statement f h = close-kept f h
  doc_arguments-kept inquire_statement f h = inquire-kept f h.1
  doc_arguments-kept _ f h = refl
