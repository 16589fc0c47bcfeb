-- ===== src/Result.antt =====
-- Outcomes of a visitor. The macros `XEV_FATAL`, `XEV_MISSING_*` and `XEV_ASSERT` of src/common.hpp
-- end the process; here they end the run with an error that says which of them it was.
use xevxml.Prelude.{ℕ, String, Bytes, ◌≡◌, refl}

pub data Error : Type 0 where
  -- `XEV_MISSING_NODE` and `XEV_MISSING_NODES`: the element and the kind of child
  missing_node : String → String → Error
  missing_nodes : String → ℕ → Error
  -- `XEV_MISSING_ATTR`: the element and the attribute
  missing_attr : String → String → Error
  -- `XEV_FATAL( "unknown AST node found: " … )`, or a visitor outside the model
  unknown_node : String → Error
  -- `"Unknown attribute "` and `"Invalid attribute "` of a statement for input or output
  unknown_attribute : Bytes → Error
  invalid_attribute : Bytes → Error
  symbol_not_found null_dereference out_of_bounds : Error

pub data Result {ℓ} (A : Type ℓ) : Type ℓ where
  ok : A → Result A
  err : Error → Result A

module _ {ℓ κ} {A : Type ℓ} {B : Type κ} where
  abbrev pub bind : Result A → (A → Result B) → Result B
  bind (ok a) f = f a
  bind (err e) f = err e

  pub bind-eq-ok :
      (m : Result A) (f : A → Result B) {b : B}
      → bind m f ≡ ok b
      → (a : A) × (m ≡ ok a) × (f a ≡ ok b)
  bind-eq-ok (ok a) f h = (a, refl, h)
  bind-eq-ok (err e) f h = cc
