-- ===== src/Statement/Io/Fields.antt =====
-- What the fields of a statement are after its arguments have been set, one behind the other.
use mathlib.Core.Path.{fun_ext}
use xevxml.Prelude.{
  ◌≡◌, refl, sym, ap, ◌∙◌, inl, inr, Bool, true, false, ◌&&◌, ◌||◌, List, [], ◌∷◌, arith,
  if◌then◌else◌, Bool-cases,
}
use xevxml.Ast.Node.{OptNode, null, node}
use xevxml.Statement.Io.Kinds.{IoAttrib, same_attrib}
use xevxml.Statement.Io.Names.{same_attrib-eq}

-- An argument that is written: the attribute that its name is read as, and the field that it comes
-- from.
abbrev pub Pairs : Type 0
Pairs = List (IoAttrib × IoAttrib)

abbrev pub Fields : Type 0
Fields = IoAttrib → OptNode

abbrev pub put : IoAttrib → OptNode → Fields → Fields
put a null g = g
put a (node x) g = λ b. if same_attrib a b then node x else g b

-- `g`, and then the arguments.
unfoldable pub merged : Pairs → Fields → Fields → Fields
merged [] f g = g
merged ((t, a) ∷ es) f g = merged es f (put t (f a) g)

unfoldable pub is_target : Pairs → IoAttrib → Bool
is_target [] b = false
is_target ((t, a) ∷ es) b = same_attrib t b || is_target es b

-- Every argument is read as the attribute that it comes from.
unfoldable pub is_diagonal : Pairs → Bool
is_diagonal [] = true
is_diagonal ((t, a) ∷ es) = same_attrib t a && is_diagonal es

put-other :
    (t b : IoAttrib) (o : OptNode) (g : Fields) → same_attrib t b ≡ false → put t o g b ≡ g b
put-other t b null g h = refl
put-other t b (node x) g h = rw (h) refl

pub put-own :
    (t b : IoAttrib) (o : OptNode) (g : Fields)
    → same_attrib t b ≡ true
    → g b ≡ null
    → put t o g b ≡ o
put-own t b null g h k = k
put-own t b (node x) g h k = rw (h) refl

pub put-same :
    (t b : IoAttrib) (o : OptNode) (g : Fields) → same_attrib t b ≡ true → g b ≡ o → put t o g b ≡ o
put-same t b null g h k = k
put-same t b (node x) g h k = rw (h) refl

pub or-false : (a b : Bool) → (a || b) ≡ false → (a ≡ false) × (b ≡ false)
or-false a b h = ground arith

and-true : (a b : Bool) → (a && b) ≡ true → (a ≡ true) × (b ≡ true)
and-true a b h = ground arith

-- A field that no argument is read as.
pub merged-other :
    (es : Pairs) (f g : Fields) (b : IoAttrib) → is_target es b ≡ false → merged es f g b ≡ g b
unfolding merged is_target
merged-other [] f g b h = refl
merged-other ((t, a) ∷ es) f g b h =
    let k = or-false (same_attrib t b) (is_target es b) h in
    merged-other es f (put t (f a) g) b k.1 ∙ put-other t b (f a) g k.0

module _ (f : Fields) (b : IoAttrib) where
  own-eq : (t a : IoAttrib) → same_attrib t a ≡ true → same_attrib t b ≡ true → f a ≡ f b
  own-eq t a h k = ap f (sym (same_attrib-eq t a h) ∙ same_attrib-eq t b k)

  merged-settled :
      (es : Pairs) (g : Fields) → is_diagonal es ≡ true → g b ≡ f b → merged es f g b ≡ f b
  unfolding merged is_diagonal
  merged-settled [] g h k = k
  merged-settled ((t, a) ∷ es) g h k =
      let d = and-true (same_attrib t a) (is_diagonal es) h in
      merged-settled es (put t (f a) g) d.1 (elim (Bool-cases (same_attrib t b)) [
        | inl q ↦ let e = own-eq t a d.0 q in put-same t b (f a) g q (k ∙ sym e) ∙ e
        | inr q ↦ put-other t b (f a) g q ∙ k
      ])

  merged-own :
      (es : Pairs) (g : Fields)
      → is_diagonal es ≡ true
      → is_target es b ≡ true
      → g b ≡ null
      → merged es f g b ≡ f b
  unfolding merged is_diagonal is_target
  merged-own [] g h i k = absurd (grind arith)
  merged-own ((t, a) ∷ es) g h i k =
      let d = and-true (same_attrib t a) (is_diagonal es) h in
      elim (Bool-cases (same_attrib t b)) [
        | inl q ↦ merged-settled es (put t (f a) g) d.1 (put-own t b (f a) g q k ∙ own-eq t a d.0 q)
        | inr q ↦ merged-own es (put t (f a) g) d.1 (grind arith) (put-other t b (f a) g q ∙ k)
      ]

-- If every field that is there is an argument, the fields are restored.
pub merged-restores :
    (es : Pairs) (f : Fields)
    → is_diagonal es ≡ true
    → ((b : IoAttrib) → is_target es b ≡ false → f b ≡ null)
    → merged es f (λ b. null) ≡ f
merged-restores es f h k = fun_ext λ b. elim (Bool-cases (is_target es b)) [
  | inl q ↦ merged-own f b es (λ b. null) h q refl
  | inr q ↦ merged-other es f (λ b. null) b q ∙ sym (k b q)
]
