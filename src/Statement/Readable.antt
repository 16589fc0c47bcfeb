-- ===== src/Statement/Readable.antt =====
-- Statements that the readers make again from what the writer makes of them.
use xevxml.Prelude.{
  ◌≡◌, refl, sym, ap, Bool, true, false, not, ◌&&◌, none, List, [], ◌∷◌, arith, ltb, if◌then◌else◌,
  length, All,
}
use xevxml.Xml.{Doms}
use xevxml.Result.{ok}
use xevxml.Ast.Node.{PreprocessingInfo, transformation_info}
use xevxml.Platform.{Platform, Scopes}
use xevxml.Write.Visit.{remove_include_directives}
use xevxml.Write.Document.{◌+++◌, doc_infos}
use xevxml.Read.Monad.{Reader, ◌>>=◌}
use xevxml.Read.Operands.{lift}
use xevxml.RoundTrip.Comments.{IsComment}
use xevxml.RoundTrip.Readable.{Readable}
use xevxml.Statement.Io.Readable.{ReadableIo, IsLabel}
use xevxml.Statement.Node.{
  Head, StmtInfo, Item, Slots, slots_of, present, global, exp, stmt, io, no_slots, absent, slot,
}
use xevxml.Statement.Visitors.{Visitor, Way, way, leaf, traversed, listed, chained}
use xevxml.Statement.Read.{
  Host, Piece, visit_all, fill_items, statements, pad, no_texts, traverse, with_scope, adjust,
  arrange, is_global, visit_way, pieces,
}
use xevxml.Statement.Heads.{IsHead}
use xevxml.Statement.Children.{Holds, IsStatement, visit_all-inside, traverse-inside}

-- The items are those that the variables of a visitor ask for, in their order.
unfoldable pub Matches : List (Item → Bool) → List Item → Type 0
Matches ts [] = Unit
Matches [] (i ∷ is) = ⊥
Matches (t ∷ ts) (i ∷ is) = (t i ≡ true) × Matches ts is

fill_items-Matches :
    (ts : List (Item → Bool)) (is : List Item) → Matches ts is → fill_items ts is ≡ is
unfolding Matches fill_items
fill_items-Matches [] [] h = refl
fill_items-Matches [] (i ∷ is) h = absurd h
fill_items-Matches (t ∷ ts) [] h = refl
fill_items-Matches (t ∷ ts) (i ∷ is) h = rw (h.0) (ap (λ js. i ∷ js) (fill_items-Matches ts is h.1))

-- What a visitor asks of the successors: those that must be there are, only the last ones are NULL,
-- and nothing in them is given a new position.
pub record FitsVisitor (host : Host) (h : Head) (v : Visitor) (s : Slots) : Type 0 where
  pub matches : Matches v.chain (present s)
  pub enough : ltb (length (present s)) v.required ≡ false
  pub in_place : s ≡ pad v.chain (present s)
  pub adjusted : adjust host h (present s) ≡ present s

pub record FitsList (s : Slots) : Type 0 where
  pub statements : All IsStatement (present s)
  pub all_there : slots_of (present s) ≡ s

abbrev pub HasFile : Host → Head → Type 0
HasFile host global = host.has_file ≡ true
HasFile host h = Unit

abbrev pub FitsWay : Host → Head → Way → Slots → Type 0
FitsWay host h leaf s = s ≡ no_slots
FitsWay host h traversed s = FitsList s × HasFile host h
FitsWay host h listed s = FitsList s
FitsWay host h (chained v) s = FitsVisitor host h v s

abbrev pub inner_scopes : Host → Way → Scopes → Scopes
inner_scopes host leaf st = st
inner_scopes host traversed st = host.new_scope ∷ st
inner_scopes host listed st = st
inner_scopes host (chained v) st = if v.scoped then host.new_scope ∷ st else st

-- As a reader left it, with comments that survive.
pub record IsStmtInfo (p : Platform) (i : StmtInfo) : Type 0 where
  pub label : IsLabel i.label
  pub info : i.info ≡ transformation_info
  pub comments : All IsComment i.preprocessing
  pub no_include : remove_include_directives p i.preprocessing ≡ i.preprocessing

module _ (host : Host) where
  unfoldable mutual
    pub ReadableItem : Scopes → Item → Type 0
    ReadableItem st (exp n) = Readable host.platform st n
    ReadableItem st (io s) = ReadableIo host.platform st s
    ReadableItem st (stmt i h s) =
        IsStmtInfo host.platform i
        × (IsHead host.platform.is_fortran h
            × (FitsWay host h (way h) s × ReadableSlots (inner_scopes host (way h) st) s))

    pub ReadableSlots : Scopes → Slots → Type 0
    ReadableSlots st no_slots = Unit
    ReadableSlots st (absent s) = ReadableSlots st s
    ReadableSlots st (slot i s) = ReadableItem st i × ReadableSlots st s

statements-all : (is : List Item) → All IsStatement is → statements is ≡ is
unfolding statements
statements-all [] h = refl
statements-all (i ∷ is) h = rw (h.0) (ap (λ js. i ∷ js) (statements-all is h.1))

arrange-fits :
    (host : Host) (h : Head) (v : Visitor) (s : Slots)
    → FitsVisitor host h v s
    → arrange host h v (present s) ≡ ok s
unfolding arrange
arrange-fits host h v s f =
    rw (fill_items-Matches v.chain (present s) f.matches, f.enough, f.adjusted)
      (ap (λ t. ok t) (sym f.in_place))

with_scope-reads :
    (host : Host) (b : Bool) (m : Reader (List Item)) (is : List Item) (st : Scopes)
    → m (if b then host.new_scope ∷ st else st) ≡ ok (is, if b then host.new_scope ∷ st else st)
    → with_scope host b m st ≡ ok (is, st)
with_scope-reads host true m is st h = grind arith
with_scope-reads host false m is st h = h

has_file-test :
    (host : Host) (h : Head) → HasFile host h → (is_global host h && not host.has_file) ≡ false
has_file-test host global f = rw (f) refl
has_file-test host _ f = refl

within_scope :
    (host : Host) (ps : List Piece) (is : List Item) (st : Scopes)
    → traverse host ps none [] (host.new_scope ∷ st) ≡ ok ((is, []), host.new_scope ∷ st)
    → with_scope host true (traverse host ps none []) st ≡ ok ((is, []), st)
within_scope host ps is st h = grind arith

arranged :
    (host : Host) (h : Head) (v : Visitor) (s : Slots) (m : Reader (List Item)) (is : List Item)
    (st : Scopes)
    → arrange host h v is ≡ ok s
    → m st ≡ ok (is, st)
    → (m >>= λ js. lift (arrange host h v js) >>= no_texts) st ≡ ok ((s, []), st)
arranged host h v s m is st a k = grind arith

module _ {host : Host} {st : Scopes} {ds : Doms} {s : Slots} (h : Head)
    (infos : List PreprocessingInfo) where
  -- The children of a statement's element are its successors again.
  pub visit_way-fits :
      (w : Way)
      → FitsWay host h w s
      → Holds host (inner_scopes host w st) ds (present s)
      → visit_way host h w (pieces host (ds +++ doc_infos infos)) st ≡ ok ((s, []), st)
  unfolding visit_way
  visit_way-fits leaf f k = ap (λ t. ok ((t, []), st)) (sym f)
  visit_way-fits listed f k =
      let a = visit_all-inside k infos in
      let b = statements-all (present s) f.statements in let c = f.all_there in grind arith
  visit_way-fits traversed f k =
      let a = within_scope host _ (present s) st (traverse-inside k infos f.0.statements) in
      let b = has_file-test host h f.1 in let c = f.0.all_there in grind arith
  visit_way-fits (chained v) f k =
      arranged host h v s
        (with_scope host v.scoped (visit_all (pieces host (ds +++ doc_infos infos)))) (present s) st
        (arrange-fits host h v s f)
        (with_scope-reads host v.scoped _ (present s) st (visit_all-inside k infos))
