-- ===== src/Statement/Scopes.antt =====
-- The stack of scopes (`pushScopeStack` and `popScopeStack` in the visitors of src/stmt.cpp).
use xevxml.Prelude.{
  ◌≡◌, refl, sym, ap, ◌∙◌, Bool, true, false, not, ◌&&◌, Option, none, some, List, [], ◌∷◌, arith,
  if◌then◌else◌, Bytes, All,
}
use xevxml.Xml.{Doms, Attrs}
use xevxml.Result.{Error, Result, null_dereference, ok, err}
use xevxml.Platform.{Scopes}
use xevxml.Read.Monad.{Reader, pure, fatal, ◌>>=◌, pop_stack}
use xevxml.Read.Operands.{lift}
use xevxml.Statement.Node.{Head, Item, slots_of, is_statement, no_slots}
use xevxml.Statement.Text.{kept_lines}
use xevxml.Statement.Visitors.{Way, way, leaf, traversed, listed, chained}
use xevxml.Statement.Read.{
  Host, Piece, keep_item, visit_all, statements, no_texts, attach_text, emit, remaining, traverse,
  within, with_scope, arrange, is_global, visit_way, visit_inside, check_stmt, visit_stmt, elem,
  raw,
}

-- A visitor that leaves the stack as it was, if it succeeds.
abbrev pub Preserves : {A : Type 0} → Reader A → Type 0
Preserves {A = A} m = (st end : Scopes) (a : A) → m st ≡ ok (a, end) → end ≡ st

abbrev pub PreservesPiece : Piece → Type 0
PreservesPiece (raw t) = Unit
PreservesPiece (elem k) = Preserves k

Preserves-pure : {A : Type 0} (a : A) → Preserves (pure a)
Preserves-pure a st end b h = grind arith

Preserves-fatal : {A : Type 0} (e : Error) → Preserves (fatal {A = A} e)
Preserves-fatal e st end b h = absurd (grind arith)

Preserves-lift : {A : Type 0} (r : Result A) → Preserves (lift r)
Preserves-lift (ok a) st end b h = grind arith
Preserves-lift (err e) st end b h = absurd (grind arith)

module _ {A B : Type 0} (f : A → Reader B) (hf : (a : A) → Preserves (f a)) where
  bound :
      (r : Result (A × Scopes)) (st end : Scopes) (b : B)
      → ((a : A) (mid : Scopes) → r ≡ ok (a, mid) → mid ≡ st)
      → elim r [ ok (a, mid) ↦ f a mid | err e ↦ err e ] ≡ ok (b, end)
      → end ≡ st
  bound (ok (a, mid)) st end b hm h = hf a mid end b h ∙ hm a mid refl
  bound (err e) st end b hm h = absurd (grind arith)

  Preserves-bind : (m : Reader A) → Preserves m → Preserves (m >>= f)
  Preserves-bind m hm st end b h = bound (m st) st end b (λ a mid e. hm st mid a e) h

Preserves-visit_all : (ps : List Piece) → All PreservesPiece ps → Preserves (visit_all ps)
unfolding visit_all
Preserves-visit_all [] h = Preserves-pure []
Preserves-visit_all (raw t ∷ ps) h = Preserves-visit_all ps h.1
Preserves-visit_all (elem k ∷ ps) h =
    Preserves-bind _
      (λ i. Preserves-bind _ (λ is. Preserves-pure (keep_item i is)) _ (Preserves-visit_all ps h.1))
      k h.0

module _ (host : Host) where
  -- The loop behind a child, by whether this is a statement.
  abbrev taken : List Piece → Option Item → Bytes → Item → Bool → Reader (List Item × Bytes)
  taken ps prev remain i false = traverse host ps prev remain
  taken ps prev remain i true =
      traverse host ps (some (attach_text host host.before remain i)) [] >>= λ r.
      pure (emit host prev r.0, r.1)

  abbrev next : List Piece → Option Item → Bytes → Option Item → Reader (List Item × Bytes)
  next ps prev remain none = traverse host ps prev remain
  next ps prev remain (some i) = taken ps prev remain i (is_statement i)

  module _ (ps : List Piece)
      (ih : (prev : Option Item) (remain : Bytes) → Preserves (traverse host ps prev remain)) where
    Preserves-taken :
        (prev : Option Item) (remain : Bytes) (i : Item) (b : Bool)
        → Preserves (taken ps prev remain i b)
    Preserves-taken prev remain i false = ih prev remain
    Preserves-taken prev remain i true =
        Preserves-bind _ (λ r. Preserves-pure (emit host prev r.0, r.1)) _
          (ih (some (attach_text host host.before remain i)) [])

    Preserves-next :
        (prev : Option Item) (remain : Bytes) (c : Option Item) → Preserves (next ps prev remain c)
    Preserves-next prev remain none = ih prev remain
    Preserves-next prev remain (some i) = Preserves-taken prev remain i (is_statement i)

  traverse-next :
      (k : Reader (Option Item)) (ps : List Piece) (prev : Option Item) (remain : Bytes)
      (st : Scopes)
      → traverse host (elem k ∷ ps) prev remain st ≡ (k >>= next ps prev remain) st
  unfolding traverse
  traverse-next k ps prev remain st = ground arith

  Preserves-traverse :
      (ps : List Piece) (prev : Option Item) (remain : Bytes)
      → All PreservesPiece ps
      → Preserves (traverse host ps prev remain)
  unfolding traverse
  Preserves-traverse [] prev remain h = Preserves-pure (emit host prev [], remain)
  Preserves-traverse (raw t ∷ ps) none remain h =
      Preserves-traverse ps none (remaining host (kept_lines t) remain) h.1
  Preserves-traverse (raw t ∷ ps) (some i) remain h =
      Preserves-traverse ps (some (attach_text host host.after (kept_lines t) i)) remain h.1
  Preserves-traverse (elem k ∷ ps) prev remain h = λ st end a e.
      Preserves-bind (next ps prev remain)
        (Preserves-next ps (λ o r. Preserves-traverse ps o r h.1) prev remain) k h.0 st end a
        (sym (traverse-next k ps prev remain st) ∙ e)

  abbrev pop_after : {A : Type 0} → Result (A × Scopes) → Result (A × Scopes)
  pop_after (ok (b, mid)) = ok (b, pop_stack mid)
  pop_after (err e) = err e

  popped :
      {A : Type 0} (r : Result (A × Scopes)) (st end : Scopes) (a : A)
      → ((b : A) (mid : Scopes) → r ≡ ok (b, mid) → mid ≡ host.new_scope ∷ st)
      → pop_after r ≡ ok (a, end)
      → end ≡ st
  popped (ok (b, mid)) st end a h e =
      let k : pop_stack mid ≡ end = grind arith in sym k ∙ ap pop_stack (h b mid refl)
  popped (err x) st end a h e = absurd (grind arith)

  scope-pop_after :
      {A : Type 0} (m : Reader A) (st : Scopes)
      → with_scope host true m st ≡ pop_after (m (host.new_scope ∷ st))
  scope-pop_after m st = ground arith

  Preserves-scope :
      {A : Type 0} (b : Bool) (m : Reader A) → Preserves m → Preserves (with_scope host b m)
  Preserves-scope false m h = h
  Preserves-scope true m h = λ st end a e.
      popped (m (host.new_scope ∷ st)) st end a (λ b mid k. h (host.new_scope ∷ st) mid b k)
        (sym (scope-pop_after m st) ∙ e)

  Preserves-global :
      (b : Bool) (m : Reader (List Item × Bytes))
      → Preserves m
      → Preserves (if b then fatal null_dereference else m)
  Preserves-global true m h = Preserves-fatal null_dereference
  Preserves-global false m h = h

  Preserves-way :
      (h : Head) (w : Way) (ps : List Piece)
      → All PreservesPiece ps
      → Preserves (visit_way host h w ps)
  unfolding visit_way
  Preserves-way h leaf ps k = Preserves-pure (no_slots, [])
  Preserves-way h listed ps k =
      Preserves-bind _ (λ is. Preserves-pure (slots_of (statements is), [])) _
        (Preserves-visit_all ps k)
  Preserves-way h traversed ps k =
      Preserves-bind _ (λ r. Preserves-pure (slots_of r.0, within host r.1)) _
        (Preserves-global (is_global host h && not host.has_file) _
          (Preserves-scope true _ (Preserves-traverse ps none [] k)))
  Preserves-way h (chained v) ps k =
      Preserves-bind (λ is. lift (arrange host h v is) >>= no_texts)
        (λ is.
          Preserves-bind no_texts (λ s. λ st end a e. grind arith) (lift (arrange host h v is))
            (Preserves-lift (arrange host h v is)))
        (with_scope host v.scoped (visit_all ps))
        (Preserves-scope v.scoped (visit_all ps) (Preserves-visit_all ps k))

  -- The visitor of a statement leaves the stack of scopes as it was, whatever the class is, if the
  -- visitors of its children do.
  pub Preserves-visit_stmt :
      (h : Head) (atts : Attrs) (ds : Doms) (ps : List Piece)
      → All PreservesPiece ps
      → Preserves (visit_stmt host h atts ds ps)
  unfolding visit_stmt visit_inside
  Preserves-visit_stmt h atts ds ps k =
      Preserves-bind _
        (λ x.
          Preserves-bind _ (λ i. Preserves-pure (some i)) (lift (check_stmt host h atts ds x))
            (Preserves-lift _))
        (visit_way host h (way h) ps) (Preserves-way h (way h) ps k)
