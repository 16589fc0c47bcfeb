-- ===== src/Read/Monad.antt =====
-- A visitor may end the process, and it works on the stack of scopes of SageBuilder.
use xevxml.Prelude.{String, Option, none, some, List, [], ◌∷◌, Bytes}
use xevxml.Result.{Result, ok, err, Error, missing_attr}
use xevxml.Stream.{ℤ}
use xevxml.Xml.{Attrs, get_string, get_int}
use xevxml.Platform.{Platform, Scope, Scopes}
use xevxml.Ast.Node.{SgNode}

abbrev pub Reader : Type 0 → Type 0
Reader A = Scopes → Result (A × Scopes)

abbrev pub pure : {A : Type 0} → A → Reader A
pure a st = ok (a, st)

abbrev pub fatal : {A : Type 0} → Error → Reader A
fatal e st = err e

infixl 5 ◌>>=◌ ◌>>◌
abbrev pub ◌>>=◌ : {A B : Type 0} → Reader A → (A → Reader B) → Reader B
◌>>=◌ m f st = elim (m st) [ ok (a, st') ↦ f a st' | err e ↦ err e ]

abbrev pub ◌>>◌ : {B : Type 0} → Reader (Unit {0}) → Reader B → Reader B
m >> k = m >>= λ _. k

-- `pushScopeStack` and `popScopeStack`
abbrev pub push_scope : Scope → Reader (Unit {0})
push_scope s st = ok (tt, s ∷ st)

abbrev pub pop_stack : Scopes → Scopes
pop_stack [] = []
pop_stack (s ∷ st) = st

-- What visiting a child gives: NULL for an element that is no node.
abbrev pub Child : Type 0
Child = Reader (Option SgNode)

abbrev pub keep : Option SgNode → List SgNode → List SgNode
keep none ns = ns
keep (some n) ns = n ∷ ns

-- `SUBTREE_VISIT_BEGIN` … `SUBTREE_VISIT_END`: every child is visited, in order.
unfoldable pub visit_subtree : List Child → Reader (List SgNode)
visit_subtree [] = pure []
visit_subtree (c ∷ cs) = c >>= λ n. visit_subtree cs >>= λ ns. pure (keep n ns)

-- `XmlGetAttributeValue` with `XEV_MISSING_ATTR`, and with a default.
module _ (p : Platform) (owner : String) (atts : Attrs) where
  unfoldable pub require_string : String → Reader Bytes
  require_string name = elim (get_string p.decode name atts) [
    | none ↦ fatal (missing_attr owner name)
    | some v ↦ pure v
  ]

  unfoldable pub require_int : String → Reader ℤ
  require_int name = elim (get_int p.decode p.tmp name atts) [
    | none ↦ fatal (missing_attr owner name)
    | some v ↦ pure v
  ]

module _ (p : Platform) (atts : Attrs) where
  unfoldable pub int_or : String → ℤ → ℤ
  int_or name z = elim (get_int p.decode p.tmp name atts) [ none ↦ z | some v ↦ v ]

  unfoldable pub string_or : String → Bytes
  string_or name = elim (get_string p.decode name atts) [ none ↦ [] | some v ↦ v ]
