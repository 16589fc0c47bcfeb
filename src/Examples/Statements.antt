-- ===== src/Examples/Statements.antt =====
-- The theorems on statements at concrete ones.
use xevxml.Prelude.{
  String, ◌≡◌, refl, true, false, Option, none, some, List, [], ◌∷◌, ◌++◌, map, arith, Bytes, codes,
}
use xevxml.Stream.{pos}
use xevxml.Xml.{Dom, Doms, Attrs, tags, dom_tags, doms_tags, element, no_doms}
use xevxml.Result.{unknown_attribute, ok, err}
use xevxml.Ast.Node.{null, node}
use xevxml.Read.Monad.{Reader, Child}
use xevxml.Read.Visit.{visitors}
use xevxml.Statement.Io.Kinds.{
  enumerator, io_err, io_iomsg, io_pending, close_statement, inquire_statement,
}
use xevxml.Statement.Io.Write.{IoParts, argument, label_attribute, write_io, doc_inode_io}
use xevxml.Statement.Io.Read.{read_parts, no_parts, visit_io}
use xevxml.Statement.Io.Losses.{visit_close-iomsg, visit_inquire-pending}
use xevxml.Statement.Io.RoundTrip.{read-write_io}
use xevxml.Statement.Node.{EndLabels, Item, basic_block, fortran_do}
use xevxml.Statement.Text.{kept_from, kept_lines, visible, visible-kept_lines}
use xevxml.Statement.Write.{Place, head_attributes, write_item, doc_item}
use xevxml.Statement.Read.{statements, emit, traverse, visit_stmt, visit_item, elem, raw}
use xevxml.Statement.Heads.{reader_of}
use xevxml.Statement.HeadReads.{reader_of-head_attributes}
use xevxml.Statement.Children.{kept_items}
use xevxml.Statement.Traversal.{GivesAmong, bare, traverse-bare, traverse-overwritten}
use xevxml.Statement.Scopes.{Preserves, Preserves-visit_stmt}
use xevxml.Statement.Markup.{tags-write_item}
use xevxml.Statement.Tree.{read-write_item}
use xevxml.Examples.Program.{platform, decodes, two}
use xevxml.Examples.Facts.{gives}
use xevxml.Examples.Blocks.{
  host, single, single-IsArgument, write_two, write_two-ReadableIo, break_loop, if_two,
  if_two-ReadableItem,
}

abbrev at_root : Place
at_root = record { in_block = false; outermost = true }

read-write_item_example :
    (e : Dom) × ((tags (write_item platform false 0 at_root if_two) ≡ dom_tags e)
      × (visit_item host e [] ≡ ok (some if_two, [])))
read-write_item_example = read-write_item host decodes [] 0 at_root if_two (if_two-ReadableItem [])

tags-write_item_example :
    tags (write_item platform false 0 at_root if_two)
    ≡ doms_tags (doc_item platform false at_root if_two)
tags-write_item_example = tags-write_item platform false 0 at_root if_two

read-write_io_example :
    (name : String) × (atts : Attrs) × (ds : Doms) × ((tags
          (write_io platform false 0 true false write_two)
        ≡ dom_tags (element name atts ds))
      × (visit_io platform name atts ds [] ≡ ok (write_two, [])))
read-write_io_example = read-write_io decodes [] 0 true false write_two (write_two-ReadableIo [])

abbrev argument_child : Child
argument_child = gives (argument "unit" two)

abbrev message_parts : IoParts
message_parts = record { io_list = null; field = single io_iomsg two }

visit_close-iomsg_example :
    (t : IoParts) × (read_parts close_statement
        (visitors platform (doc_inode_io platform false close_statement message_parts))
        no_parts
        []
      ≡ ok (t, []))
    × (t.field io_err ≡ node two)
    × (t.field io_iomsg ≡ null)
visit_close-iomsg_example =
    visit_close-iomsg decodes [] message_parts (single-IsArgument [] io_iomsg) two
      (unfold enumerator in refl)

abbrev pending_parts : IoParts
pending_parts = record { io_list = null; field = single io_pending two }

visit_inquire-pending_example :
    read_parts inquire_statement
      (visitors platform (doc_inode_io platform false inquire_statement pending_parts))
      no_parts
      []
    ≡ err (unknown_attribute (codes "padding"))
unfolding enumerator
visit_inquire-pending_example =
    visit_inquire-pending decodes [] pending_parts (single-IsArgument [] io_pending) two refl tt tt

visible-kept_lines_example : visible (kept_lines (codes "a b")) ≡ visible (codes "a b")
visible-kept_lines_example = visible-kept_lines (codes "a b")

abbrev loop_labels : EndLabels
loop_labels = record { numeric = some (pos 20); string = codes "loop" }

reader_of-head_attributes_example :
    reader_of
      (fortran_do false true loop_labels)
      platform
      (head_attributes false (fortran_do false true loop_labels) ++ label_attribute none)
    ≡ fortran_do false true loop_labels
reader_of-head_attributes_example =
    reader_of-head_attributes decodes none (fortran_do false true loop_labels)
      ((omega arith, refl), omega arith)

abbrev found : Reader (Option Item)
found st = ok (some break_loop, st)

abbrev nothing : Reader (Option Item)
nothing st = ok (none, st)

traverse-bare_example :
    (is : List Item) × (left : Bytes) × (traverse host
        (elem found ∷ raw (codes "x") ∷ [])
        none
        []
        []
      ≡ ok ((is, left), []))
    × (map bare is ≡ map bare (emit host none (statements (kept_items (some break_loop ∷ [])))))
unfolding GivesAmong
traverse-bare_example =
    traverse-bare host [] (elem found ∷ raw (codes "x") ∷ []) (some break_loop ∷ []) none []
      (refl, tt)

traverse-overwritten_example :
    traverse host (raw (codes "x") ∷ elem nothing ∷ raw (codes "y") ∷ []) none [] []
    ≡ traverse host (elem nothing ∷ raw (codes "y") ∷ []) none [] []
unfolding kept_lines kept_from
traverse-overwritten_example =
    traverse-overwritten host [] (codes "x") (codes "y") nothing [] refl (λ h. absurd (grind arith))

Preserves-visit_stmt_example : Preserves (visit_stmt host basic_block [] no_doms (elem found ∷ []))
Preserves-visit_stmt_example =
    Preserves-visit_stmt host basic_block [] no_doms (elem found ∷ [])
      ((λ st end a e. grind arith), tt)
