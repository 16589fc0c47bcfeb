-- ===== src/Statement/Traversal.antt =====
-- Statements with text between them (`traverseStatementsAndTexts` of src/stmt.cpp).
use xevxml.Prelude.{
  ◌≡◌, refl, ap, ◌∙◌, ◌≢◌, inl, inr, Option, none, some, List, [], ◌∷◌, map, arith, Bool-cases,
  Bytes,
}
use xevxml.Stream.{ℤ}
use xevxml.Result.{ok}
use xevxml.Platform.{Scopes}
use xevxml.Read.Monad.{Reader}
use xevxml.Statement.Node.{Item, is_statement, exp, stmt, io}
use xevxml.Statement.Text.{kept_lines}
use xevxml.Statement.Read.{
  Host, Piece, statements, attach, attach_text, emit, remaining, traverse, elem, raw,
}
use xevxml.Statement.Children.{kept_items}

-- The children give what the list says, and there may be text between them.
unfoldable pub GivesAmong : Scopes → List Piece → List (Option Item) → Type 0
GivesAmong st [] [] = Unit
GivesAmong st [] (o ∷ os) = ⊥
GivesAmong st (raw t ∷ ps) os = GivesAmong st ps os
GivesAmong st (elem k ∷ ps) [] = ⊥
GivesAmong st (elem k ∷ ps) (o ∷ os) = (k st ≡ ok (o, st)) × GivesAmong st ps os

-- A statement without what is attached to it.
unfoldable pub bare : Item → Item
bare (exp n) = exp n
bare (stmt i h s) = stmt (record { label = i.label; info = i.info; preprocessing = [] }) h s
bare (io s) = io (record {
  io_class = s.io_class;
  label = s.label;
  info = s.info;
  preprocessing = [];
  parts = s.parts;
})

bare-attach_text :
    (host : Host) (z : ℤ) (t : Bytes) (i : Item) → bare (attach_text host z t i) ≡ bare i
unfolding bare attach
bare-attach_text host z [] i = refl
bare-attach_text host z (c ∷ t) (exp n) = refl
bare-attach_text host z (c ∷ t) (stmt i h s) = refl
bare-attach_text host z (c ∷ t) (io s) = refl

abbrev SameBare : List Item → List Item → Type 0
SameBare is js = map bare is ≡ map bare js

module _ (host : Host) where
  emit-same :
      (o : Option Item) (is js : List Item)
      → SameBare is js
      → SameBare (emit host o is) (emit host o js)
  emit-same none is js h = h
  emit-same (some k) is js h = ap (λ t. bare k ∷ t) h

  emit-attached :
      (z : ℤ) (t : Bytes) (i : Item) (is : List Item)
      → SameBare (attach_text host z t i ∷ is) (i ∷ is)
  emit-attached z t i is = ap (λ j. j ∷ map bare is) (bare-attach_text host z t i)

  -- The loop on a block, whatever text stands between the statements: every statement is put into the
  -- block, once and in its order, and nothing but the texts that are attached to it has changed.
  pub traverse-bare :
      (st : Scopes) (ps : List Piece) (os : List (Option Item)) (prev : Option Item)
      (remain : Bytes)
      → GivesAmong st ps os
      → (is : List Item) × (left : Bytes) × (traverse host ps prev remain st ≡ ok ((is, left), st))
        × (map bare is ≡ map bare (emit host prev (statements (kept_items os))))
  unfolding GivesAmong traverse kept_items statements
  traverse-bare st [] [] prev remain h = (emit host prev [], remain, refl, refl)
  traverse-bare st [] (o ∷ os) prev remain h = absurd h
  traverse-bare st (raw t ∷ ps) os none remain h =
      traverse-bare st ps os none (remaining host (kept_lines t) remain) h
  traverse-bare st (raw t ∷ ps) os (some i) remain h =
      let r =
        traverse-bare st ps os (some (attach_text host host.after (kept_lines t) i)) remain h in
      (r.0, r.1, r.2, r.3 ∙ emit-attached host.after (kept_lines t) i (statements (kept_items os)))
  traverse-bare st (elem k ∷ ps) [] prev remain h = absurd h
  traverse-bare st (elem k ∷ ps) (none ∷ os) prev remain h =
      let r = traverse-bare st ps os prev remain h.1 in
      let a = h.0 in (r.0, r.1, (let b = r.2 in grind arith), r.3)
  traverse-bare st (elem k ∷ ps) (some i ∷ os) prev remain h = elim (Bool-cases (is_statement i)) [
    | inr q ↦
        let r = traverse-bare st ps os prev remain h.1 in
        let a = h.0 in (r.0, r.1, (let b = r.2 in grind arith), (r.3 ∙ rw (q) refl))
    | inl q ↦
        let r = traverse-bare st ps os (some (attach_text host host.before remain i)) [] h.1 in
        let a = h.0 in
        (
          emit host prev r.0,
          r.1,
          (let b = r.2 in grind arith),
          rw (q) (
              emit-same prev r.0 (i ∷ statements (kept_items os))
                (r.3 ∙ emit-attached host.before remain i (statements (kept_items os)))),
        )
  ]

  remaining-full : (text a b : Bytes) → text ≢ [] → remaining host text a ≡ remaining host text b
  remaining-full [] a b n = absurd (n refl)
  remaining-full (c ∷ text) a b n = refl

  -- Text before the first statement that is followed by other text, with no statement between them, is
  -- lost: the loop goes on as if it had not been there.
  pub traverse-overwritten :
      (st : Scopes) (t u : Bytes) (k : Reader (Option Item)) (ps : List Piece)
      → k st ≡ ok (none, st)
      → kept_lines u ≢ []
      → traverse host (raw t ∷ elem k ∷ raw u ∷ ps) none [] st
        ≡ traverse host (elem k ∷ raw u ∷ ps) none [] st
  unfolding traverse
  traverse-overwritten st t u k ps h n =
      let b : remaining host (kept_lines u) (remaining host (kept_lines t) [])
          ≡ remaining host (kept_lines u) [] =
        remaining-full (kept_lines u) (remaining host (kept_lines t) []) [] n in
      let a = h in grind arith
