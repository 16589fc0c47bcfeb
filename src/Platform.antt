-- ===== src/Platform.antt =====
-- What the converters take from outside the repository: the language of the program, the XML parser's
-- decoding of attribute values, the streams' conversions of literals, and ROSE's symbol tables.
use xevxml.Prelude.{ℕ, Bool, List, Bytes, Option}
use xevxml.Stream.{ℤ}
use xevxml.Ast.Kinds.{NumericVal}
use xevxml.Ast.Node.{SgNode, Exp, Located, PreprocessingInfo}

-- A scope of ROSE, by a number. The stack of scopes is `topScopeStack`, `pushScopeStack` and
-- `popScopeStack` of SageBuilder.
abbrev pub Scope : Type 0
Scope = ℕ

abbrev pub Scopes : Type 0
Scopes = List Scope

-- An argument of a function: whether its type is `SgTypeLabel`, and whether it is the one that an
-- alternative return stands for.
pub record Argument : Type 0 where
  pub is_label : Bool
  pub is_parameter : Bool

pub record Platform : Type 0 where
  -- `SageInterface::is_Fortran_language`
  pub is_fortran : Bool
  -- the value of an attribute that is written by these characters
  pub decode : Bytes → Bytes
  -- what a variable `int tmp` or `unsigned long tmp` holds that is not initialised
  pub tmp : ℤ
  pub tmp_ulong : ℕ
  -- `str >> ival` and `oss << showpoint << t` at the type of a literal, on its bit pattern
  pub stream_in : NumericVal → Bytes → ℕ
  pub to_string : NumericVal → ℕ → Bytes
  -- the mangled code of `get_type()`, if it is there and not `SgTypeDefault`
  pub type_code : SgNode → Option Bytes
  -- `get_type()` of an expression, as a node
  pub type_of : SgNode → SgNode
  -- the class definition in whose scope the right operand of `.` and `->` is looked up
  pub class_scope : SgNode → Option Scope
  -- `isSgClassDefinition`, and the symbol tables: each gives the name of the symbol that it finds
  pub is_class : Scope → Bool
  pub scope_variable : Scope → Bytes → Option Bytes
  pub lookup_variable : Scopes → Bytes → Option Bytes
  -- with the subprogram kind, if the declaration is a procedure header
  pub lookup_function : Scopes → Bytes → Option (Bytes × Option ℤ)
  -- an alias symbol, and the variable symbol that it stands for, if it is one
  pub lookup_alias : Scopes → Bytes → Option (Option Bytes)
  -- `SgProcedureHeaderStatement::e_function_subprogram_kind`
  pub function_kind : ℤ
  -- whether `buildAssignInitializer` takes the cast for explicit
  pub explicit_cast : Bool
  -- `SgLabelSymbol::e_alternative_return_type`, and the arguments of the function around a label of that
  -- type; a program with such a label outside every function cannot be written
  pub alternative_return : ℤ
  pub enclosing_arguments : Located → Exp → List Argument
  -- `CpreprocessorIncludeDeclaration`, and whether a directive stands inside the construct that
  -- carries it, by the line comparisons of `Sg_File_Info`
  pub include_directive : ℤ
  pub is_within : PreprocessingInfo → Bool
