-- ===== src/Xml.antt =====
-- The document between the two converters: the markup that the writer puts on its stream, the tree
-- that the XML parser builds from it, and the attributes of an element (src/xmlutils.cpp,
-- include/xmlutils.hpp).
use text.Mathlib.Text.{◌==◌ as str_eq}
use xevxml.Prelude.{ℕ, String, Bytes, [], ◌∷◌, ◌++◌, List, Option, none, some, if◌then◌else◌}
use xevxml.Stream.{ℤ, stream_int}

-- Values as they stand in the document's text.
abbrev pub Attrs : Type 0
Attrs = List (String × Bytes)

-- A DOM tree: elements and the text that they hold. Layout (line ends and the spaces before a tag) is
-- not kept: the readers skip text between elements.
mutual
  pub data Dom : Type 0 where
    element : String → Attrs → Doms → Dom
    content : Bytes → Dom

  pub data Doms : Type 0 where
    no_doms : Doms
    dom : Dom → Doms → Doms

-- What the writer puts on its stream.
pub data Markup : Type 0 where
  -- `<name attributes>`, `<name attributes/>`, `</name>`
  start_tag : String → Attrs → Markup
  empty_tag : String → Attrs → Markup
  end_tag : String → Markup
  chars : Bytes → Markup
  -- spaces of `writeIndent`, and line ends
  indent : ℕ → Markup
  newline : Markup

abbrev pub Stream : Type 0
Stream = List Markup

-- The tags and texts of a stream, without its layout; an empty tag is a start tag and an end tag.
unfoldable pub tags : Stream → Stream
tags [] = []
tags (indent n ∷ s) = tags s
tags (newline ∷ s) = tags s
tags (start_tag n a ∷ s) = start_tag n a ∷ tags s
tags (empty_tag n a ∷ s) = start_tag n a ∷ end_tag n ∷ tags s
tags (end_tag n ∷ s) = end_tag n ∷ tags s
tags (chars b ∷ s) = chars b ∷ tags s

-- The tags of a tree.
unfoldable mutual
  pub dom_tags : Dom → Stream
  dom_tags (element n a ds) = start_tag n a ∷ (doms_tags ds ++ end_tag n ∷ [])
  dom_tags (content b) = chars b ∷ []

  pub doms_tags : Doms → Stream
  doms_tags no_doms = []
  doms_tags (dom d ds) = dom_tags d ++ doms_tags ds

unfoldable pub append_doms : Doms → Doms → Doms
append_doms no_doms ds = ds
append_doms (dom d ds) es = dom d (append_doms ds es)

-- The attribute of that name, if the element has it (`getNamedItem`).
unfoldable pub get_named_item : String → Attrs → Option Bytes
get_named_item name [] = none
get_named_item name ((n, v) ∷ atts) = if str_eq n name then some v else get_named_item name atts

-- `XmlGetAttributeValue`, for a string and for an `int`. `decode` is what the parser makes of the
-- characters between the quotation marks.
module _ (decode : Bytes → Bytes) where
  unfoldable pub get_string : String → Attrs → Option Bytes
  get_string name atts = elim (get_named_item name atts) [ none ↦ none | some v ↦ some (decode v) ]

  -- `tmp` is what the variable `tmp` holds, which is not initialised.
  unfoldable pub get_int : ℤ → String → Attrs → Option ℤ
  get_int tmp name atts = elim (get_named_item name atts) [
    | none ↦ none
    | some v ↦ some (stream_int tmp (decode v))
  ]
