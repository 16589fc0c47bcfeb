-- ===== src/RoundTrip/Comments.antt =====
-- Preprocessing information (comments and directives): `checkPreprocInfo` reads what
-- `writePreprocessingInfo` wrote (src/preproc.cpp).
use xevxml.Prelude.{◌≡◌, refl, List, [], ◌∷◌, All}
use xevxml.Stream.{print_int}
use xevxml.Stream.RoundTrip.{IsInt, stream_int-print_int}
use xevxml.Xml.{get_named_item, get_int}
use xevxml.Result.{ok}
use xevxml.Ast.Node.{PreprocessingInfo}
use xevxml.Platform.{Platform}
use xevxml.Write.Document.{doc_infos}
use xevxml.Read.Visit.{text_of, read_info, read_infos}
use xevxml.RoundTrip.Text.{
  DecodesEntities, IsRestorable, decode-plain, decode-restorable, print_int-IsPlain,
}

-- Enumerators that an `int` holds, and a text that XML can carry.
abbrev pub IsComment : PreprocessingInfo → Type 0
IsComment i = IsInt i.position × (IsInt i.directive × IsRestorable i.string)

module _ {p : Platform} (d : DecodesEntities p) where
  -- Comments and directives come back from the elements that are written for them, in their order,
  -- each with its position, its kind and its text, if the text holds XML characters only and
  -- nothing that reads as an entity, and position and kind are ints. The parser must give back a
  -- text whose characters were written as entities.
  pub read_infos-doc_infos :
      (is : List PreprocessingInfo) → All IsComment is → read_infos p (doc_infos is) ≡ ok is
  unfolding read_infos doc_infos read_info text_of get_named_item get_int
  read_infos-doc_infos [] h = refl
  read_infos-doc_infos (i ∷ is) (h, hs) =
      rw
        (
          decode-plain d (print_int i.position) (print_int-IsPlain i.position),
          decode-plain d (print_int i.directive) (print_int-IsPlain i.directive),
          stream_int-print_int p.tmp i.position h.0,
          stream_int-print_int p.tmp i.directive h.1.0,
          decode-restorable d i.string h.1.1,
          read_infos-doc_infos is hs,
        )
        refl
