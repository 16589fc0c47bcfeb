-- ===== src/Statement/Children.antt =====
-- Visiting the children of a statement's element, when it is known what each of them gives.
use text.Mathlib.Text.{◌==◌ as str_eq}
use xevxml.Prelude.{
  String, ◌≡◌, refl, sym, ap, ◌∙◌, subst, true, false, Option, none, some, List, [], ◌∷◌, ◌++◌,
  append-nil, arith, All,
}
use xevxml.Xml.{Doms, Attrs, append_doms, element, no_doms, dom}
use xevxml.Result.{ok}
use xevxml.Ast.Names.{variant_of}
use xevxml.Ast.Node.{PreprocessingInfo}
use xevxml.Platform.{Scopes}
use xevxml.Write.Document.{◌+++◌, one, doc_infos}
use xevxml.Read.Visit.{read_infos, visit_element, visit}
use xevxml.RoundTrip.Children.{append_doms_assoc}
use xevxml.Statement.Io.Kinds.{io_class_name}
use xevxml.Statement.Io.Read.{search_io, io_class_of}
use xevxml.Statement.Node.{Item, is_statement}
use xevxml.Statement.Write.{Place, doc_item}
use xevxml.Statement.HeadReaders.{head_readers, search_head, head_reader}
use xevxml.Statement.Read.{
  Host, Piece, keep_item, visit_all, emit, traverse, visit_named, visit_item, pieces, piece, elem,
  raw,
}

-- The children are elements, and these give what the list says and leave the stack as it is.
unfoldable pub Gives : Scopes → List Piece → List (Option Item) → Type 0
Gives st [] [] = Unit
Gives st [] (o ∷ os) = ⊥
Gives st (raw t ∷ ps) os = ⊥
Gives st (elem k ∷ ps) [] = ⊥
Gives st (elem k ∷ ps) (o ∷ os) = (k st ≡ ok (o, st)) × Gives st ps os

pub Gives-append :
    (st : Scopes) (ps qs : List Piece) (os us : List (Option Item))
    → Gives st ps os
    → Gives st qs us
    → Gives st (ps ++ qs) (os ++ us)
unfolding Gives
Gives-append st [] qs [] us h k = k
Gives-append st [] qs (o ∷ os) us h k = absurd h
Gives-append st (raw t ∷ ps) qs os us h k = absurd h
Gives-append st (elem f ∷ ps) qs [] us h k = absurd h
Gives-append st (elem f ∷ ps) qs (o ∷ os) us h k = (h.0, Gives-append st ps qs os us h.1 k)

unfoldable pub kept_items : List (Option Item) → List Item
kept_items [] = []
kept_items (o ∷ os) = keep_item o (kept_items os)

pub visit_all-Gives :
    (st : Scopes) (ps : List Piece) (os : List (Option Item))
    → Gives st ps os
    → visit_all ps st ≡ ok (kept_items os, st)
unfolding Gives kept_items visit_all
visit_all-Gives st [] [] h = refl
visit_all-Gives st [] (o ∷ os) h = absurd h
visit_all-Gives st (raw t ∷ ps) os h = absurd h
visit_all-Gives st (elem f ∷ ps) [] h = absurd h
visit_all-Gives st (elem f ∷ ps) (o ∷ os) h =
    let a = h.0 in let b = visit_all-Gives st ps os h.1 in grind arith

abbrev pub IsStatement : Item → Type 0
IsStatement i = is_statement i ≡ true

abbrev pub IsStatementOrNone : Option Item → Type 0
IsStatementOrNone none = Unit
IsStatementOrNone (some i) = IsStatement i

-- Statements without text between them are put into the block in their order.
pub traverse-Gives :
    (host : Host) (st : Scopes) (ps : List Piece) (os : List (Option Item)) (prev : Option Item)
    → Gives st ps os
    → All IsStatementOrNone os
    → traverse host ps prev [] st ≡ ok ((emit host prev (kept_items os), []), st)
unfolding Gives kept_items traverse
traverse-Gives host st [] [] prev h k = refl
traverse-Gives host st [] (o ∷ os) prev h k = absurd h
traverse-Gives host st (raw t ∷ ps) os prev h k = absurd h
traverse-Gives host st (elem f ∷ ps) [] prev h k = absurd h
traverse-Gives host st (elem f ∷ ps) (none ∷ os) prev h k =
    let a = h.0 in let b = traverse-Gives host st ps os prev h.1 k.1 in grind arith
traverse-Gives host st (elem f ∷ ps) (some i ∷ os) prev h k =
    let a = h.0 in
    let c = k.0 in let b = traverse-Gives host st ps os (some i) h.1 k.1 in grind arith

-- The elements hold the items, and no comment.
pub record Holds (host : Host) (st : Scopes) (ds : Doms) (is : List Item) : Type 0 where
  pub outcomes : List (Option Item)
  pub gives : Gives st (pieces host ds) outcomes
  pub kept : kept_items outcomes ≡ is
  pub comments : (es : Doms) → read_infos host.platform (ds +++ es) ≡ read_infos host.platform es

pieces-append :
    (host : Host) (ds es : Doms) → pieces host (ds +++ es) ≡ pieces host ds ++ pieces host es
unfolding pieces append_doms
pieces-append host no_doms es = refl
pieces-append host (dom d ds) es =
    ap (λ t. piece host d (visit_item host d) ∷ t) (pieces-append host ds es)

kept_items-append :
    (os us : List (Option Item)) → kept_items (os ++ us) ≡ kept_items os ++ kept_items us
unfolding kept_items
kept_items-append [] us = refl
kept_items-append (none ∷ os) us = kept_items-append os us
kept_items-append (some i ∷ os) us = ap (λ t. i ∷ t) (kept_items-append os us)

module _ {host : Host} {st : Scopes} where
  pub Holds-none : Holds host st no_doms []
  unfolding Gives kept_items pieces append_doms
  Holds-none = record { outcomes = []; gives = tt; kept = refl; comments = λ es. refl }

  pub Holds-append :
      {ds es : Doms} {is js : List Item}
      → Holds host st ds is
      → Holds host st es js
      → Holds host st (ds +++ es) (is ++ js)
  Holds-append {ds = ds} {es = es} a b = record {
    outcomes = a.outcomes ++ b.outcomes;
    gives =
        subst (λ ps. Gives st ps (a.outcomes ++ b.outcomes)) (sym (pieces-append host ds es))
          (Gives-append st (pieces host ds) (pieces host es) a.outcomes b.outcomes a.gives b.gives);
    kept = rw (kept_items-append, a.kept, b.kept) refl;
    comments = λ fs. rw (append_doms_assoc) (a.comments _ ∙ b.comments fs);
  }

-- What the comments behind the items give: nothing.
unfoldable nones : List PreprocessingInfo → List (Option Item)
nones [] = []
nones (i ∷ is) = none ∷ nones is

kept_items-nones : (is : List PreprocessingInfo) → kept_items (nones is) ≡ []
unfolding kept_items nones
kept_items-nones [] = refl
kept_items-nones (i ∷ is) = kept_items-nones is

infos-Gives :
    (host : Host) (st : Scopes) (is : List PreprocessingInfo)
    → Gives st (pieces host (doc_infos is)) (nones is)
unfolding Gives pieces nones doc_infos visit_item visit_named head_reader search_head head_readers
    io_class_of search_io io_class_name visit visit_element variant_of
infos-Gives host st [] = tt
infos-Gives host st (i ∷ is) = (refl, infos-Gives host st is)

module _ {host : Host} {st : Scopes} {ds : Doms} {is : List Item} (h : Holds host st ds is) where
  pub with_infos : List PreprocessingInfo → List (Option Item)
  with_infos infos = h.outcomes ++ nones infos

  pub inside-Gives :
      (infos : List PreprocessingInfo)
      → Gives st (pieces host (ds +++ doc_infos infos)) (with_infos infos)
  unfolding with_infos
  inside-Gives infos =
      subst (λ ps. Gives st ps (h.outcomes ++ nones infos))
        (sym (pieces-append host ds (doc_infos infos)))
        (Gives-append st (pieces host ds) _ h.outcomes (nones infos) h.gives
          (infos-Gives host st infos))

  pub kept-with_infos : (infos : List PreprocessingInfo) → kept_items (with_infos infos) ≡ is
  unfolding with_infos
  kept-with_infos infos =
      kept_items-append h.outcomes (nones infos)
      ∙ (rw (kept_items-nones infos, h.kept) (append-nil is))

IsStatement-kept :
    (os : List (Option Item)) → All IsStatement (kept_items os) → All IsStatementOrNone os
unfolding kept_items
IsStatement-kept [] h = tt
IsStatement-kept (none ∷ os) h = (tt, IsStatement-kept os h)
IsStatement-kept (some i ∷ os) h = (h.0, IsStatement-kept os h.1)

module _ {host : Host} {st : Scopes} {ds : Doms} {is : List Item} (h : Holds host st ds is)
    (infos : List PreprocessingInfo) where
  pub visit_all-inside : visit_all (pieces host (ds +++ doc_infos infos)) st ≡ ok (is, st)
  visit_all-inside =
      visit_all-Gives st _ _ (inside-Gives h infos)
      ∙ ap (λ js. ok (js, st)) (kept-with_infos h infos)

  pub traverse-inside :
      All IsStatement is
      → traverse host (pieces host (ds +++ doc_infos infos)) none [] st ≡ ok ((is, []), st)
  traverse-inside k =
      traverse-Gives host st _ _ none (inside-Gives h infos) (
        IsStatement-kept (with_infos h infos)
          (subst (All IsStatement) (sym (kept-with_infos h infos)) k))
      ∙ ap (λ js. ok ((js, []), st)) (kept-with_infos h infos)

-- An item's own element.
pub record ReadsItem (host : Host) (st : Scopes) (i : Item) : Type 0 where
  pub name : String
  pub atts : Attrs
  pub inside : Doms
  pub alone : (at : Place) → doc_item host.platform false at i ≡ one (element name atts inside)
  pub own_name : str_eq name "PreprocessingInfo" ≡ false
  pub result : visit_item host (element name atts inside) st ≡ ok (some i, st)

module _ {host : Host} {st : Scopes} {i : Item} (r : ReadsItem host st i) where
  pub Holds-item : (at : Place) → Holds host st (doc_item host.platform false at i) (i ∷ [])
  unfolding append_doms read_infos Gives pieces kept_items
  Holds-item at =
      subst (λ ds. Holds host st ds (i ∷ [])) (sym (r.alone at))
        (record {
          outcomes = some i ∷ [];
          gives = (r.result, tt);
          kept = refl;
          comments = λ es. rw (r.own_name) refl;
        })
