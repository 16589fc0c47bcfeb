-- ===== src/Statement/Tree.antt =====
-- The two converters together, for statements: a readable tree is read back from the elements that are
-- written for it.
use xevxml.Prelude.{
  ℕ, ◌≡◌, refl, sym, ap, ◌∙◌, subst, Bool, true, false, not, ◌&&◌, ◌||◌, none, some, List, [], ◌∷◌,
  ◌++◌, append-nil, arith, if◌then◌else◌,
}
use xevxml.Result.{ok}
use xevxml.Xml.{
  Dom, Doms, Attrs, tags, dom_tags, doms_tags, append_doms, get_named_item, get_int, element,
  no_doms,
}
use xevxml.Ast.Node.{PreprocessingInfo, SgNode, transformation_info}
use xevxml.Platform.{Scopes}
use xevxml.Write.Visit.{is_nil, remove_include_directives, is_in_same_file}
use xevxml.Write.Document.{◌+++◌, one, doc_infos}
use xevxml.Read.Visit.{read_infos, info_of}
use xevxml.RoundTrip.Text.{DecodesEntities}
use xevxml.RoundTrip.Comments.{read_infos-doc_infos}
use xevxml.RoundTrip.Children.{Reads}
use xevxml.RoundTrip.Trees.{reads}
use xevxml.Statement.Io.Kinds.{io_class_name}
use xevxml.Statement.Io.Write.{IoStatement, label_attribute}
use xevxml.Statement.Io.Read.{visit_io}
use xevxml.Statement.Io.Readable.{ReadableIo, io_class_of-name}
use xevxml.Statement.Io.RoundTrip.{attributes-label, io_inside, visit_io-written, doc_io-written}
use xevxml.Statement.Node.{
  Head, StmtInfo, Item, Slots, present, head_name, exp, stmt, io, no_slots, absent, slot,
}
use xevxml.Statement.Write.{
  Place, head_attributes, stmt_attributes, place_in, is_no_slots, write_item, doc_item, doc_slots,
}
use xevxml.Statement.Visitors.{way}
use xevxml.Statement.Read.{
  Host, visit_inside, check_stmt, visit_stmt, visit_named, visit_item, pieces,
}
use xevxml.Statement.Lookup.{
  printed, label_attribute-other, label_attribute-at, get_int-printed, in_first, in_second,
}
use xevxml.Statement.Heads.{
  IsHead, reader_of, head_reader-head_name, head_name-own, head_attributes-Lacks,
}
use xevxml.Statement.HeadReads.{reader_of-head_attributes}
use xevxml.Statement.Children.{Holds, ReadsItem, Holds-none, Holds-append, Holds-item}
use xevxml.Statement.Readable.{
  IsStmtInfo, FitsWay, inner_scopes, ReadableItem, ReadableSlots, visit_way-fits,
}
use xevxml.Statement.Names.{
  head_reader-expression, io_class_of-expression, head_reader-io, io_class_name-own, visit-variant,
}
use xevxml.Statement.Markup.{tags-write_item}

module _ (host : Host) (d : DecodesEntities host.platform) (st : Scopes) where
  ReadsItem-exp : (n : SgNode) → Reads host.platform st n → ReadsItem host st (exp n)
  unfolding doc_item visit_item visit_named
  ReadsItem-exp n r =
      let v = visit-variant host.platform r.name r.atts r.inside st n r.result r.own_name in
      let a = head_reader-expression r.name v.0 v.1 in
      let b = io_class_of-expression r.name v.0 v.1 in
      let c = r.result in
      record {
        name = r.name;
        atts = r.atts;
        inside = r.inside;
        alone = λ at. r.alone at.outermost;
        own_name = r.own_name;
        result = grind arith;
      }

  ReadsItem-io : (s : IoStatement) → ReadableIo host.platform st s → ReadsItem host st (io s)
  unfolding doc_item visit_item visit_named
  ReadsItem-io s h =
      let ds = io_inside d st false s h in
      let a = head_reader-io s.io_class in
      let b = io_class_of-name s.io_class in
      let e = attributes-label d st false s h in
      let c : visit_io host.platform (io_class_name s.io_class) (label_attribute s.label) ds st
          ≡ ok (s, st) =
        subst (λ x. visit_io host.platform (io_class_name s.io_class) x ds st ≡ ok (s, st)) e
          (visit_io-written d st false s h) in
      record {
        name = io_class_name s.io_class;
        atts = label_attribute s.label;
        inside = ds;
        alone = λ at.
            doc_io-written d st at.in_block s h at.outermost
            ∙ ap (λ x. one (element (io_class_name s.io_class) x ds))
                (attributes-label d st at.in_block s h);
        own_name = io_class_name-own s.io_class;
        result = grind arith;
      }

module _ (host : Host) (d : DecodesEntities host.platform) (st : Scopes) (i : StmtInfo) (h : Head)
    (s : Slots) (hi : IsStmtInfo host.platform i) where
  abbrev stmt_atts : Attrs
  stmt_atts = head_attributes host.platform.is_fortran h ++ label_attribute i.label

  abbrev stmt_inside : Doms
  stmt_inside =
      doc_slots host.platform false (place_in h) s
      +++ doc_infos (remove_include_directives host.platform i.preprocessing)

  and-false : (b : Bool) → (b && false) ≡ false
  and-false true = refl
  and-false false = refl

  stmt_attributes-new : (b : Bool) → stmt_attributes host.platform.is_fortran b i h ≡ stmt_atts
  unfolding stmt_attributes
  stmt_attributes-new b =
      rw (hi.info, and-false b)
        (ap (λ a. head_attributes host.platform.is_fortran h ++ a)
          (append-nil (label_attribute i.label)))

  nothing_lost :
      (t : Slots) (is : List PreprocessingInfo)
      → (if not (is_no_slots t) || not (is_nil is)
          then doc_slots host.platform false (place_in h) t
            +++ doc_infos (remove_include_directives host.platform is)
          else no_doms)
        ≡ doc_slots host.platform false (place_in h) t
          +++ doc_infos (remove_include_directives host.platform is)
  unfolding doc_slots doc_infos remove_include_directives append_doms
  nothing_lost no_slots [] = refl
  nothing_lost no_slots (j ∷ is) = refl
  nothing_lost (absent t) is = refl
  nothing_lost (slot j t) is = refl

  stmt-alone :
      (at : Place)
      → doc_item host.platform false at (stmt i h s)
        ≡ one (element (head_name h) stmt_atts stmt_inside)
  unfolding doc_item is_in_same_file
  stmt-alone at = rw (stmt_attributes-new at.in_block, nothing_lost s i.preprocessing, hi.info) refl

  label-found : get_int host.platform.decode host.platform.tmp "label" stmt_atts ≡ i.label
  label-found = get_int-printed d "label" stmt_atts i.label hi.label (
      in_second "label" _ _ (printed i.label)
        (head_attributes-Lacks "label" (refl, refl, refl, refl, refl, refl, refl, refl)
          host.platform.is_fortran h)
        (label_attribute-at i.label))

  unparse-lacking : get_named_item "unparse" stmt_atts ≡ none
  unparse-lacking =
      in_first "unparse" _ _ none
        (head_attributes-Lacks "unparse" (refl, refl, refl, refl, refl, refl, refl, refl)
          host.platform.is_fortran h)
        (label_attribute-other "unparse" i.label refl)

  info-found : info_of host.platform stmt_atts ≡ transformation_info
  unfolding info_of get_int
  info-found = rw (info_of, get_int, unparse-lacking) refl

  module _
      (holds : Holds host
        (inner_scopes host (way h) st)
        (doc_slots host.platform false (place_in h) s)
        (present s))
      (hh : IsHead host.platform.is_fortran h) (hf : FitsWay host h (way h) s) where
    comments-found : read_infos host.platform stmt_inside ≡ ok i.preprocessing
    comments-found =
        holds.comments _
        ∙ (ap (λ is. read_infos host.platform (doc_infos is)) hi.no_include
            ∙ read_infos-doc_infos d i.preprocessing hi.comments)

    check-found : check_stmt host h stmt_atts stmt_inside (s, []) ≡ ok (stmt i h s)
    unfolding check_stmt
    check-found = rw (comments-found, label-found, info-found, sym hi.info) refl

    stmt-read :
        visit_stmt host h stmt_atts stmt_inside (pieces host stmt_inside) st
        ≡ ok (some (stmt i h s), st)
    unfolding visit_stmt visit_inside
    stmt-read =
        let a =
          visit_way-fits h (remove_include_directives host.platform i.preprocessing) (way h) hf
            holds in
        let b = check-found in grind arith

    stmt-result :
        visit_item host (element (head_name h) stmt_atts stmt_inside) st
        ≡ ok (some (stmt i h s), st)
    unfolding visit_item visit_named
    stmt-result =
        let a = head_reader-head_name h in
        let c : visit_stmt host (reader_of h host.platform stmt_atts) stmt_atts stmt_inside
              (pieces host stmt_inside) st
            ≡ ok (some (stmt i h s), st) =
          rw (reader_of-head_attributes d i.label h hh) stmt-read in
        grind arith

    ReadsItem-stmt : ReadsItem host st (stmt i h s)
    ReadsItem-stmt = record {
      name = head_name h;
      atts = stmt_atts;
      inside = stmt_inside;
      alone = stmt-alone;
      own_name = head_name-own h;
      result = stmt-result;
    }

module _ (host : Host) (d : DecodesEntities host.platform) where
  mutual
    unfolding ReadableItem doc_slots present

    reads_item : (st : Scopes) (i : Item) → ReadableItem host st i → ReadsItem host st i
    reads_item st (exp n) h = ReadsItem-exp host d st n (reads d st n h)
    reads_item st (io s) h = ReadsItem-io host d st s h
    reads_item st (stmt i k s) h =
        ReadsItem-stmt host d st i k s h.0
          (Holds-slots (inner_scopes host (way k) st) (place_in k) s h.1.1.1) h.1.0 h.1.1.0

    Holds-slots :
        (st : Scopes) (at : Place) (s : Slots)
        → ReadableSlots host st s
        → Holds host st (doc_slots host.platform false at s) (present s)
    Holds-slots st at no_slots h = Holds-none
    Holds-slots st at (absent s) h = Holds-slots st at s h
    Holds-slots st at (slot i s) h =
        Holds-append (Holds-item (reads_item st i h.0) at) (Holds-slots st at s h.1)

  -- A readable statement is written as one element, wherever it stands, and what the reader makes of
  -- this element is the statement again, with all the statements and expressions in it, their labels,
  -- flags and comments, and the stack of scopes is left as it was. Readable says that each successor
  -- is one that the class asks for, that only the last ones are missing, that the labels and names are
  -- ones that attributes carry and that the class reads, that no literal stands in parentheses and no
  -- label is that of an alternative return, and that the nodes are ones that a reader left.
  pub read-write_item :
      (st : Scopes) (depth : ℕ) (at : Place) (i : Item)
      → ReadableItem host st i
      → (e : Dom) × ((tags (write_item host.platform false depth at i) ≡ dom_tags e)
          × (visit_item host e st ≡ ok (some i, st)))
  unfolding doms_tags
  read-write_item st depth at i h =
      let r = reads_item st i h in
      let e = element r.name r.atts r.inside in
      (
        e,
        (
          tags-write_item host.platform false depth at i
              ∙ (ap doms_tags (r.alone at) ∙ append-nil (dom_tags e)),
          r.result,
        ),
      )
