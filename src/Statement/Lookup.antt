-- ===== src/Statement/Lookup.antt =====
-- Finding an attribute of a statement among those that are written in front of it and behind it.
use text.Mathlib.Text.{◌==◌ as str_eq}
use xevxml.Prelude.{
  String, ◌≡◌, refl, ◌∙◌, Bool, true, false, Option, none, some, [], ◌∷◌, ◌++◌, Bytes, All,
}
use xevxml.Stream.{ℤ, print_int, print_bool, is_set, pos}
use xevxml.Stream.RoundTrip.{IsInt, stream_int-print_int, is_set-print_bool}
use xevxml.Xml.{Attrs, get_named_item, get_string, get_int}
use xevxml.Platform.{Platform}
use xevxml.Read.Monad.{int_or, string_or}
use xevxml.RoundTrip.Text.{
  DecodesEntities, IsPlain, decode-plain, print_int-IsPlain, print_bool-IsPlain,
}
use xevxml.RoundTrip.Attributes.{get_named_item-append, or_else-none}
use xevxml.Statement.Io.Write.{label_attribute}
use xevxml.Statement.Io.Readable.{IsLabel}
use xevxml.Statement.Write.{int_attribute, string_attribute}

abbrev pub printed : Option ℤ → Option Bytes
printed none = none
printed (some z) = some (print_int z)

abbrev pub text_or_none : Bytes → Option Bytes
text_or_none [] = none
text_or_none (c ∷ s) = some (c ∷ s)

pub int_attribute-at :
    (n : String) (z : Option ℤ)
    → str_eq n n ≡ true
    → get_named_item n (int_attribute n z) ≡ printed z
unfolding int_attribute get_named_item
int_attribute-at n none h = refl
int_attribute-at n (some z) h = rw (h) refl

pub int_attribute-other :
    (n m : String) (z : Option ℤ) → str_eq m n ≡ false → get_named_item n (int_attribute m z) ≡ none
unfolding int_attribute get_named_item
int_attribute-other n m none h = refl
int_attribute-other n m (some z) h = rw (h) refl

pub string_attribute-at :
    (n : String) (s : Bytes)
    → str_eq n n ≡ true
    → get_named_item n (string_attribute n s) ≡ text_or_none s
unfolding string_attribute get_named_item
string_attribute-at n [] h = refl
string_attribute-at n (c ∷ s) h = rw (h) refl

pub string_attribute-other :
    (n m : String) (s : Bytes) → str_eq m n ≡ false → get_named_item n (string_attribute m s) ≡ none
unfolding string_attribute get_named_item
string_attribute-other n m [] h = refl
string_attribute-other n m (c ∷ s) h = rw (h) refl

pub label_attribute-other :
    (n : String) (z : Option ℤ)
    → str_eq "label" n ≡ false
    → get_named_item n (label_attribute z) ≡ none
unfolding label_attribute get_named_item
label_attribute-other n none h = refl
label_attribute-other n (some z) h = rw (h) refl

pub label_attribute-at : (z : Option ℤ) → get_named_item "label" (label_attribute z) ≡ printed z
unfolding label_attribute get_named_item
label_attribute-at none = refl
label_attribute-at (some z) = refl

module _ {p : Platform} (d : DecodesEntities p) where
  pub get_int-printed :
      (n : String) (atts : Attrs) (z : Option ℤ)
      → IsLabel z
      → get_named_item n atts ≡ printed z
      → get_int p.decode p.tmp n atts ≡ z
  unfolding get_int
  get_int-printed n atts none k h = rw (get_int, h) refl
  get_int-printed n atts (some z) k h =
      rw
        (
          get_int,
          h,
          decode-plain d (print_int z) (print_int-IsPlain z),
          stream_int-print_int p.tmp z k,
        )
        refl

  pub int_or-printed :
      (n : String) (atts : Attrs) (z : ℤ)
      → IsInt z
      → get_named_item n atts ≡ some (print_int z)
      → int_or p atts n (pos 0) ≡ z
  unfolding int_or get_int
  int_or-printed n atts z k h =
      rw
        (
          int_or,
          get_int,
          h,
          decode-plain d (print_int z) (print_int-IsPlain z),
          stream_int-print_int p.tmp z k,
        )
        refl

  pub string_or-text :
      (n : String) (atts : Attrs) (s : Bytes)
      → All IsPlain s
      → get_named_item n atts ≡ text_or_none s
      → string_or p atts n ≡ s
  unfolding string_or get_string
  string_or-text n atts [] k h = rw (string_or, get_string, h) refl
  string_or-text n atts (c ∷ s) k h = rw (string_or, get_string, h) (decode-plain d (c ∷ s) k)

  pub is_set-printed :
      (n : String) (atts : Attrs) (b : Bool) (z : ℤ)
      → get_named_item n atts ≡ some (print_bool b)
      → is_set (int_or p atts n z) ≡ b
  unfolding int_or get_int
  is_set-printed n atts b z h =
      rw (int_or, get_int, h, decode-plain d (print_bool b) (print_bool-IsPlain b))
        (is_set-print_bool p.tmp b)

module _ (n : String) (a b : Attrs) (x : Option Bytes) where
  pub in_first : get_named_item n a ≡ x → get_named_item n b ≡ none → get_named_item n (a ++ b) ≡ x
  in_first h k = get_named_item-append n a b ∙ rw (h, k) (or_else-none x)

  pub in_second : get_named_item n a ≡ none → get_named_item n b ≡ x → get_named_item n (a ++ b) ≡ x
  in_second h k = get_named_item-append n a b ∙ rw (h, k) refl
