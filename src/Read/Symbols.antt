-- ===== src/Read/Symbols.antt =====
-- The symbols that `visitSgVarRefExp` and `visitSgFunctionRefExp` of src/expr.cpp settle on.
use xevxml.Prelude.{Option, none, some, [], ◌∷◌, if◌then◌else◌, Bytes}
use xevxml.Result.{Result, ok, err, symbol_not_found}
use xevxml.Stream.{ℤ}
use xevxml.Platform.{Platform, Scopes}

module _ (p : Platform) where
  -- In the scope of a class only its own variables are looked up.
  unfoldable pub find_variable : Scopes → Bytes → Option Bytes
  find_variable [] name = p.lookup_variable [] name
  find_variable (s ∷ st) name =
      if p.is_class s then p.scope_variable s name else p.lookup_variable (s ∷ st) name

  -- No variable of that name: a placeholder for a function's result, the variable behind an alias, an
  -- implicit variable of Fortran, or a fake of unknown type.
  unfoldable pub make_variable : Scopes → Bytes → Result Bytes
  make_variable st name = elim (p.lookup_function st name) [
    | some f ↦ ok name
    | none ↦ elim (p.lookup_alias st name) [
      | none ↦ ok name
      | some none ↦ err symbol_not_found
      | some (some v) ↦ ok v
    ]
  ]

  unfoldable pub resolve_variable : Scopes → Bytes → Result Bytes
  resolve_variable st name = elim (find_variable st name) [
    | some v ↦ ok v
    | none ↦ make_variable st name
  ]

  -- A function that is not declared yet is implicit in Fortran, and declared on the spot in C.
  unfoldable pub resolve_function : Scopes → Bytes → Bytes × Option ℤ
  resolve_function st name = elim (p.lookup_function st name) [
    | some f ↦ f
    | none ↦ (name, if p.is_fortran then some p.function_kind else none)
  ]

  -- The attribute `kind` is kept by a procedure header alone.
  unfoldable pub set_kind : Option ℤ → Option ℤ → Option ℤ
  set_kind none k = none
  set_kind (some old) none = some old
  set_kind (some old) (some k) = some k
