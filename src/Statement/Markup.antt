-- ===== src/Statement/Markup.antt =====
-- The writer's markup for statements is well-formed.
use xevxml.Prelude.{ℕ, suc, ◌≡◌, Bool, ◌&&◌}
use xevxml.Xml.{Doms, Stream, tags, doms_tags}
use xevxml.Platform.{Platform}
use xevxml.Write.Visit.{remove_include_directives, is_in_same_file}
use xevxml.Write.WellFormed.{
  Spells, Spells-nil, Spells-append, Spells-infos, Spells-element, Spells-if, write-Spells,
}
use xevxml.Statement.Io.Document.{tags-write_io}
use xevxml.Statement.Node.{
  Head, Item, Slots, head_name, arithmetic_if_statement, stop_or_pause_statement, exp, stmt, io,
  no_slots, absent, slot,
}
use xevxml.Statement.Write.{
  Place, stmt_attributes, place_in, own_successors, stmt_has_inode, write_item, write_slots,
  write_first, doc_item, doc_slots, doc_first,
}

module _ {s t u : Stream} {x y z : Doms} where
  own_successors-Spells :
      (h : Head)
      → Spells s x
      → Spells t y
      → Spells u z
      → Spells (own_successors h s t u) (own_successors h x y z)
  unfolding own_successors
  own_successors-Spells arithmetic_if_statement a b c = a
  own_successors-Spells (stop_or_pause_statement k) a b c = c
  own_successors-Spells _ a b c = b

module _ (p : Platform) (skip : Bool) where
  mutual
    unfolding write_item doc_item

    item-Spells :
        (d : ℕ) (at : Place) (i : Item) → Spells (write_item p skip d at i) (doc_item p skip at i)
    item-Spells d at (exp n) = write-Spells p skip d at.outermost n
    item-Spells d at (io s) = record { at = tags-write_io p skip d at.in_block at.outermost s }
    item-Spells d at (stmt i h s) =
        let inside =
          Spells-append _ _ (slots-Spells (suc d) (place_in h) s)
            (Spells-infos (remove_include_directives p i.preprocessing)) in
        Spells-if (is_in_same_file p.is_fortran at.outermost i.info)
          (Spells-if (skip && i.info.compiler_generated)
            (own_successors-Spells h (first-Spells d (place_in h) s) (slots-Spells d (place_in h) s)
              Spells-nil)
            (Spells-element d (head_name h) (stmt_attributes p.is_fortran at.in_block i h) _
              (stmt_has_inode i s) inside))
          Spells-nil

    slots-Spells :
        (d : ℕ) (at : Place) (s : Slots)
        → Spells (write_slots p skip d at s) (doc_slots p skip at s)
    slots-Spells d at no_slots = Spells-nil
    slots-Spells d at (absent s) = slots-Spells d at s
    slots-Spells d at (slot i s) = Spells-append _ _ (item-Spells d at i) (slots-Spells d at s)

    first-Spells :
        (d : ℕ) (at : Place) (s : Slots)
        → Spells (write_first p skip d at s) (doc_first p skip at s)
    first-Spells d at no_slots = Spells-nil
    first-Spells d at (absent s) = Spells-nil
    first-Spells d at (slot i s) = item-Spells d at i

  -- What the writer puts on its stream for a statement, with all that stands in it, is well-formed
  -- markup, whatever the options, the depth and the place are: without the layout it is the sequence
  -- of tags of a forest.
  pub tags-write_item :
      (d : ℕ) (at : Place) (i : Item)
      → tags (write_item p skip d at i) ≡ doms_tags (doc_item p skip at i)
  tags-write_item d at i = (item-Spells d at i).at
