-- ===== src/Statement/Read.antt =====
-- The visitors of statements: their children, and the checks behind them (src/stmt.cpp, and
-- src/xml2rose.cpp).
use xevxml.Prelude.{
  String, Bool, true, false, not, ◌&&◌, Option, none, some, List, [], ◌∷◌, ◌++◌, ltb, if◌then◌else◌,
  Bytes, length,
}
use xevxml.Stream.{ℤ}
use xevxml.Xml.{Dom, Doms, Attrs, get_int, element, content, no_doms, dom}
use xevxml.Result.{Result, bind, null_dereference, ok, err}
use xevxml.Ast.Node.{PreprocessingInfo, SgNode, transformation_info, null_expression}
use xevxml.Platform.{Platform, Scope}
use xevxml.Read.Monad.{Reader, pure, fatal, ◌>>=◌, ◌>>◌, push_scope, pop_stack}
use xevxml.Read.Slots.{build}
use xevxml.Read.Operands.{lift}
use xevxml.Read.Visit.{read_infos, info_of, visit}
use xevxml.Statement.Io.Read.{restart, io_class_of, visit_io}
use xevxml.Statement.Node.{
  Head, Item, Slots, slots_of, is_statement, for_all_statement, global, stop_or_pause_statement,
  exp, stmt, io, no_slots, absent, slot,
}
use xevxml.Statement.Text.{kept_lines}
use xevxml.Statement.Visitors.{Visitor, Way, way, leaf, traversed, listed, chained}
use xevxml.Statement.HeadReaders.{head_reader}

-- What the statements need beside the platform: whether the file is known, a new scope, without
-- symbols, and the enumerators of ROSE for a text that is attached to a statement.
pub record Host : Type 0 where
  pub platform : Platform
  pub has_file : Bool
  pub new_scope : Scope
  pub before : ℤ
  pub after : ℤ
  pub inside : ℤ
  pub linemarker : ℤ

-- A child of an element: an element's visitor, or a text.
pub data Piece : Type 0 where
  elem : Reader (Option Item) → Piece
  raw : Bytes → Piece

abbrev pub keep_item : Option Item → List Item → List Item
keep_item none is = is
keep_item (some i) is = i ∷ is

-- `SUBTREE_VISIT_BEGIN` … `SUBTREE_VISIT_END`
unfoldable pub visit_all : List Piece → Reader (List Item)
visit_all [] = pure []
visit_all (raw t ∷ ps) = visit_all ps
visit_all (elem k ∷ ps) = k >>= λ i. visit_all ps >>= λ is. pure (keep_item i is)

unfoldable pub fill_items : List (Item → Bool) → List Item → List Item
fill_items [] is = []
fill_items (t ∷ ts) [] = []
fill_items (t ∷ ts) (i ∷ is) = elim (t i) [
  | true ↦ i ∷ fill_items ts is
  | false ↦ fill_items (t ∷ ts) is
]

unfoldable pub statements : List Item → List Item
statements [] = []
statements (i ∷ is) = if is_statement i then i ∷ statements is else statements is

-- The variables that are still empty are NULL.
unfoldable pub pad : {A : Type 0} → List A → List Item → Slots
pad [] is = slots_of is
pad (t ∷ ts) [] = absent (pad ts [])
pad (t ∷ ts) (i ∷ is) = slot i (pad ts is)

abbrev pub no_texts : Slots → Reader (Slots × List PreprocessingInfo)
no_texts s = pure (s, [])

module _ (host : Host) where
  -- `attachRawText`
  abbrev pub raw_text : ℤ → Bytes → PreprocessingInfo
  raw_text position text = record {
    position = position;
    directive = host.linemarker;
    string = text;
  }

  unfoldable pub attach : PreprocessingInfo → Item → Item
  attach t (exp n) = exp n
  attach t (stmt i h s) =
      stmt (record { label = i.label; info = i.info; preprocessing = i.preprocessing ++ t ∷ [] }) h
        s
  attach t (io s) = io (record {
    io_class = s.io_class;
    label = s.label;
    info = s.info;
    preprocessing = s.preprocessing ++ t ∷ [];
    parts = s.parts;
  })

  abbrev pub attach_text : ℤ → Bytes → Item → Item
  attach_text position [] i = i
  attach_text position (c ∷ text) i = attach (raw_text position (c ∷ text)) i

  abbrev pub emit : Option Item → List Item → List Item
  emit none is = is
  emit (some i) is = i ∷ is

  -- A text that stands before the first statement takes the place of one that is still remaining.
  abbrev pub remaining : Bytes → Bytes → Bytes
  remaining [] old = old
  remaining (c ∷ text) old = c ∷ text

  -- `traverseStatementsAndTexts`, with `prev` and `remain`: the statements, and the text that remains.
  unfoldable pub traverse : List Piece → Option Item → Bytes → Reader (List Item × Bytes)
  traverse [] prev remain = pure (emit prev [], remain)
  traverse (raw t ∷ ps) none remain = traverse ps none (remaining (kept_lines t) remain)
  traverse (raw t ∷ ps) (some i) remain =
      traverse ps (some (attach_text host.after (kept_lines t) i)) remain
  traverse (elem k ∷ ps) prev remain = k >>= λ c. elim c [
    | none ↦ traverse ps prev remain
    | some i ↦ elim (is_statement i) [
      | false ↦ traverse ps prev remain
      | true ↦ traverse ps (some (attach_text host.before remain i)) [] >>= λ r.
          pure (emit prev r.0, r.1)
    ]
  ]

  abbrev pub within : Bytes → List PreprocessingInfo
  within [] = []
  within (c ∷ text) = raw_text host.inside (c ∷ text) ∷ []

  abbrev pub with_scope : {A : Type 0} → Bool → Reader A → Reader A
  with_scope false m = m
  with_scope true m = push_scope host.new_scope >> (m >>= λ a. λ st. ok (a, pop_stack st))

  -- `set_startOfConstruct(DEFAULT_FILE_INFO)`
  unfoldable pub restart_item : Item → Item
  restart_item (exp n) = exp (restart n)
  restart_item (stmt i h s) =
      stmt (record { label = i.label; info = transformation_info; preprocessing = i.preprocessing })
        h s
  restart_item (io s) = io s

  unfoldable pub restart_all : List Item → List Item
  restart_all [] = []
  restart_all (i ∷ is) = restart_item i ∷ restart_all is

  -- What is done to the variables that are filled: the header and the body of a forall statement have
  -- new positions, and a stop statement without code gets an empty expression.
  unfoldable pub adjust : Head → List Item → List Item
  adjust for_all_statement is = restart_all is
  adjust (stop_or_pause_statement t) [] = exp (build null_expression) ∷ []
  adjust h is = is

  unfoldable pub arrange : Head → Visitor → List Item → Result Slots
  arrange h v is =
      let found = fill_items v.chain is in
      if ltb (length found) v.required
      then err (v.missing (length found))
      else ok (pad v.chain (adjust h found))

  abbrev pub is_global : Head → Bool
  is_global global = true
  is_global _ = false

  -- The successors of a statement, and the texts that it gets itself.
  unfoldable pub visit_way : Head → Way → List Piece → Reader (Slots × List PreprocessingInfo)
  visit_way h leaf ps = pure (no_slots, [])
  visit_way h listed ps = visit_all ps >>= λ is. pure (slots_of (statements is), [])
  visit_way h traversed ps =
      (if is_global h && not host.has_file
        then fatal null_dereference
        else with_scope true (traverse ps none []))
      >>= λ r. pure (slots_of r.0, within r.1)
  visit_way h (chained v) ps =
      with_scope v.scoped (visit_all ps) >>= λ is. lift (arrange h v is) >>= no_texts

  unfoldable pub visit_inside : Head → List Piece → Reader (Slots × List PreprocessingInfo)
  visit_inside h ps = visit_way h (way h) ps

  -- `checkPreprocInfo`, `checkStatement` and `checkLocatedNode`
  unfoldable pub check_stmt : Head → Attrs → Doms → Slots × List PreprocessingInfo → Result Item
  check_stmt h atts ds (s, own) = bind (read_infos host.platform ds) λ infos. ok (
      stmt
        (record {
          label = get_int host.platform.decode host.platform.tmp "label" atts;
          info = info_of host.platform atts;
          preprocessing = own ++ infos;
        })
        h s)

  unfoldable pub visit_stmt : Head → Attrs → Doms → List Piece → Reader (Option Item)
  visit_stmt h atts ds ps =
      visit_inside h ps >>= λ x. lift (check_stmt h atts ds x) >>= λ i. pure (some i)

  abbrev pub as_exp : Option SgNode → Option Item
  as_exp none = none
  as_exp (some n) = some (exp n)

  unfoldable pub visit_named : String → Attrs → Doms → List Piece → Reader (Option Item)
  visit_named name atts ds ps = elim (head_reader name) [
    | some r ↦ visit_stmt (r host.platform atts) atts ds ps
    | none ↦ elim (io_class_of name) [
      | some c ↦ visit_io host.platform name atts ds >>= λ s. pure (some (io s))
      | none ↦ visit host.platform (element name atts ds) >>= λ n. pure (as_exp n)
    ]
  ]

  -- An element below a parent.
  unfoldable mutual
    pub visit_item : Dom → Reader (Option Item)
    visit_item (element name atts ds) = visit_named name atts ds (pieces ds)
    visit_item (content b) = pure none

    pub pieces : Doms → List Piece
    pieces no_doms = []
    pieces (dom d ds) = piece d (visit_item d) ∷ pieces ds

    pub piece : Dom → Reader (Option Item) → Piece
    piece (element name atts es) k = elem k
    piece (content b) k = raw (host.platform.decode b)
