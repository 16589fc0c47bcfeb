-- ===== src/Statement/Labels.antt =====
-- What is read of the labels and the names in the attributes of a statement.
use text.Mathlib.Text.{◌==◌ as str_eq}
use xevxml.Prelude.{String, ◌≡◌, refl, sym, true, false, Option, none, some, [], ◌++◌, Bytes, All}
use xevxml.Stream.{ℤ, pos}
use xevxml.Xml.{Attrs, get_named_item, get_int}
use xevxml.Platform.{Platform}
use xevxml.Read.Monad.{int_or, string_or}
use xevxml.RoundTrip.Text.{DecodesEntities, IsPlain}
use xevxml.Statement.Io.Write.{label_attribute}
use xevxml.Statement.Node.{EndLabels}
use xevxml.Statement.Write.{int_attribute, string_attribute}
use xevxml.Statement.HeadReaders.{nonzero}
use xevxml.Statement.Lookup.{
  printed, text_or_none, int_attribute-at, int_attribute-other, string_attribute-at,
  string_attribute-other, label_attribute-other, int_or-printed, string_or-text, in_first,
  in_second,
}
use xevxml.Statement.Heads.{IsNonzero}

abbrev pub no_end : EndLabels
no_end = record { numeric = none; string = [] }

pub no_labels : (l : EndLabels) → l.numeric ≡ none → l.string ≡ [] → no_end ≡ l
no_labels l h k = λ i. record { numeric = sym h i; string = sym k i }

-- Attributes with the label of a statement behind them.
abbrev pub labelled : Option ℤ → Attrs → Attrs
labelled z a = a ++ label_attribute z

module _ {p : Platform} (d : DecodesEntities p) (z : Option ℤ) where
  -- An attribute that a class writes by itself, or behind a label.
  pub name-read :
      (n : String) (s : Bytes)
      → str_eq n n ≡ true
      → str_eq "label" n ≡ false
      → All IsPlain s
      → string_or p (labelled z (string_attribute n s)) n ≡ s
  name-read n s h k e =
      string_or-text d n _ s e
        (in_first n _ _ (text_or_none s) (string_attribute-at n s h) (label_attribute-other n z k))

  pub labels-elabel :
      (l : EndLabels)
      → get_named_item "elabel"
          (labelled z (int_attribute "elabel" l.numeric ++ string_attribute "slabel" l.string))
        ≡ printed l.numeric
  labels-elabel l =
      in_first "elabel" _ _ (printed l.numeric)
        (in_first "elabel" _ _ (printed l.numeric) (int_attribute-at "elabel" l.numeric refl)
          (string_attribute-other "elabel" "slabel" l.string refl))
        (label_attribute-other "elabel" z refl)

  pub labels-slabel :
      (l : EndLabels)
      → get_named_item "slabel"
          (labelled z (int_attribute "elabel" l.numeric ++ string_attribute "slabel" l.string))
        ≡ text_or_none l.string
  labels-slabel l =
      in_first "slabel" _ _ (text_or_none l.string)
        (in_second "slabel" _ _ (text_or_none l.string)
          (int_attribute-other "slabel" "elabel" l.numeric refl)
          (string_attribute-at "slabel" l.string refl))
        (label_attribute-other "slabel" z refl)

  pub nonzero-int_or :
      (n : String) (a : Attrs) (o : Option ℤ)
      → IsNonzero o
      → get_named_item n a ≡ printed o
      → nonzero (int_or p a n (pos 0)) ≡ o
  unfolding int_or get_int
  nonzero-int_or n a none k h = rw (int_or, get_int, h) (refl)
  nonzero-int_or n a (some v) k h = rw (int_or-printed d n a v k.0 h, k.1) refl
