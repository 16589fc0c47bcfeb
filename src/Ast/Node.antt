-- ===== src/Ast/Node.antt =====
-- The nodes of the tree, with what the converters read and write of each class of ROSE.
use xevxml.Prelude.{ℕ, Bool, true, false, List, [], ◌∷◌, Bytes, Option}
use xevxml.Stream.{ℤ}
use xevxml.Ast.Kinds.{
  BinaryOp, UnaryOp, UnaryModeOp, NumericVal, CharKind, BasicType, PlainType, Variant, bop, uop,
  uop_mode, numeric, character, basic, plain, class, ExpClass,
}

-- What `Sg_File_Info` says of a node, as far as `isInSameFile` asks for it.
pub record FileInfo : Type 0 where
  pub frontend_specific : Bool
  pub compiler_generated : Bool
  pub transformation : Bool
  pub output_in_code_generation : Bool
  -- `isSameFile(file)`, and `isInCppFile`
  pub same_file : Bool
  pub in_cpp_file : Bool

-- After `setSourcePositionAsTransformation`.
abbrev pub transformation_info : FileInfo
transformation_info = record {
  frontend_specific = false;
  compiler_generated = false;
  transformation = true;
  output_in_code_generation = true;
  same_file = false;
  in_cpp_file = false;
}

-- `PreprocessingInfo`: its relative position and the type of its directive are enumerators.
pub record PreprocessingInfo : Type 0 where
  pub position : ℤ
  pub directive : ℤ
  pub string : Bytes

-- What every located expression carries.
pub record Located : Type 0 where
  pub need_paren : Bool
  pub info : FileInfo
  pub preprocessing : List PreprocessingInfo

-- `SgStringVal`'s flags, and those of `SgConstructorInitializer`.
pub record StringFlags : Type 0 where
  pub single : Bool
  pub wchar : Bool
  pub string16 : Bool
  pub string32 : Bool

pub record ConstructorFlags : Type 0 where
  pub need_name : Bool
  pub need_qualifier : Bool
  pub need_parenthesis : Bool
  pub class_unknown : Bool

-- `SgAsmOp`
pub record AsmOperand : Type 0 where
  pub constraint : ℤ
  pub constraint_string : Bytes
  pub modifiers : ℤ
  pub name : Bytes
  pub record_raw : Bool
  pub is_output : Bool

mutual
  -- An expression has its original expression tree beside the parts of its class.
  pub data SgNode : Type 0 where
    expr : Located → OptNode → Exp → SgNode
    basic_type : BasicType → OptNode → SgNode
    plain_type : PlainType → SgNode

  pub data Exp : Type 0 where
    binary : BinaryOp → SgNode → SgNode → Exp
    unary : UnaryOp → SgNode → Exp
    unary_mode : UnaryModeOp → ℤ → SgNode → Exp
    -- the machine's value, and the spelling in the source
    numeric_val : NumericVal → ℕ → Bytes → Exp
    bool_val : Bool → Exp
    character_val : CharKind → ℕ → Exp
    string_val : Bytes → StringFlags → Exp
    complex_val : OptNode → OptNode → Exp
    actual_argument : Bytes → SgNode → Exp
    aggregate_initializer : Bool → SgNode → SgNode → Exp
    asm_op : AsmOperand → OptNode → Exp
    assign_initializer : Bool → SgNode → Exp
    asterisk_shape colon_shape null_expression : Exp
    cast_exp : ℤ → SgNode → SgNode → Exp
    conditional : SgNode → SgNode → SgNode → Exp
    constructor_initializer : ConstructorFlags → OptNode → OptNode → Exp
    designated_initializer : SgNode → SgNode → Exp
    dot_exp : SgNode → SgNode → Exp
    arrow_exp : SgNode → SgNode → Exp
    expr_list : Nodes → Exp
    function_call : SgNode → SgNode → Exp
    -- the kind is there if the declaration is a procedure header
    function_ref : Bytes → Option ℤ → Exp
    implied_do : SgNode → SgNode → SgNode → SgNode → Exp
    label_ref : ℤ → ℤ → Exp
    pointer_deref : SgNode → SgNode → Exp
    size_of_type : SgNode → Exp
    size_of_exp : SgNode → Exp
    subscript : SgNode → SgNode → SgNode → Exp
    var_arg_copy : SgNode → SgNode → Exp
    var_arg_end : SgNode → Exp
    var_arg : SgNode → SgNode → Exp
    var_arg_start : SgNode → SgNode → Exp
    -- the name of the symbol
    var_ref : Bytes → Exp
    pointer_assign : SgNode → SgNode → Exp
    user_defined_binary : Bytes → SgNode → SgNode → Exp
    user_defined_unary : Bytes → SgNode → Exp

  -- A pointer that may be NULL.
  pub data OptNode : Type 0 where
    null : OptNode
    node : SgNode → OptNode

  pub data Nodes : Type 0 where
    no_nodes : Nodes
    cons : SgNode → Nodes → Nodes

unfoldable pub to_list : Nodes → List SgNode
to_list no_nodes = []
to_list (cons n ns) = n ∷ to_list ns

unfoldable pub from_list : List SgNode → Nodes
from_list [] = no_nodes
from_list (n ∷ ns) = cons n (from_list ns)

abbrev pub opt : OptNode → List SgNode
opt null = []
opt (node n) = n ∷ []

-- `variantT()`
unfoldable pub exp_variant : Exp → Variant
exp_variant (binary o l r) = bop o
exp_variant (unary o e) = uop o
exp_variant (unary_mode o m e) = uop_mode o
exp_variant (numeric_val k v s) = numeric k
exp_variant (character_val k v) = character k
exp_variant (bool_val b) = class ExpClass.bool_val_exp
exp_variant (string_val s f) = class ExpClass.string_val
exp_variant (complex_val r i) = class ExpClass.complex_val
exp_variant (actual_argument n e) = class ExpClass.actual_argument_expression
exp_variant (aggregate_initializer b l t) = class ExpClass.aggregate_initializer
exp_variant (asm_op a e) = class ExpClass.asm_op
exp_variant (assign_initializer b e) = class ExpClass.assign_initializer
exp_variant asterisk_shape = class ExpClass.asterisk_shape_exp
exp_variant colon_shape = class ExpClass.colon_shape_exp
exp_variant null_expression = class ExpClass.null_expression
exp_variant (cast_exp c e t) = class ExpClass.cast_exp
exp_variant (conditional c t f) = class ExpClass.conditional_exp
exp_variant (constructor_initializer f l t) = class ExpClass.constructor_initializer
exp_variant (designated_initializer l i) = class ExpClass.designated_initializer
exp_variant (dot_exp l r) = class ExpClass.dot_exp
exp_variant (arrow_exp l r) = class ExpClass.arrow_exp
exp_variant (expr_list ns) = class ExpClass.expr_list_exp
exp_variant (function_call f a) = class ExpClass.function_call_exp
exp_variant (function_ref n k) = class ExpClass.function_ref_exp
exp_variant (implied_do i l s e) = class ExpClass.implied_do
exp_variant (label_ref t n) = class ExpClass.label_ref_exp
exp_variant (pointer_deref e t) = class ExpClass.pointer_deref_exp
exp_variant (size_of_type t) = class ExpClass.size_of_op
exp_variant (size_of_exp e) = class ExpClass.size_of_op
exp_variant (subscript l u s) = class ExpClass.subscript_expression
exp_variant (var_arg_copy l r) = class ExpClass.var_arg_copy_op
exp_variant (var_arg_end e) = class ExpClass.var_arg_end_op
exp_variant (var_arg e t) = class ExpClass.var_arg_op
exp_variant (var_arg_start l r) = class ExpClass.var_arg_start_op
exp_variant (var_ref n) = class ExpClass.var_ref_exp
exp_variant (pointer_assign l r) = class ExpClass.pointer_assign_op
exp_variant (user_defined_binary n l r) = class ExpClass.user_defined_binary_op
exp_variant (user_defined_unary n e) = class ExpClass.user_defined_unary_op

unfoldable pub variant : SgNode → Variant
unfolding exp_variant
variant (expr l o e) = exp_variant e
variant (basic_type t k) = basic t
variant (plain_type t) = plain t

-- `isSgExpression`, `isSgType`, and those for the classes that the visitors look for.
abbrev pub is_expression : SgNode → Bool
is_expression (expr l o e) = true
is_expression (basic_type t k) = false
is_expression (plain_type t) = false

abbrev pub is_type : SgNode → Bool
is_type (expr l o e) = false
is_type (basic_type t k) = true
is_type (plain_type t) = true

abbrev pub is_expr_list : SgNode → Bool
is_expr_list (expr l o (expr_list ns)) = true
is_expr_list _ = false

-- `isSgInitializer`: one of the subclasses of `SgInitializer`
abbrev pub is_initializer : SgNode → Bool
is_initializer (expr l o (aggregate_initializer b e t)) = true
is_initializer (expr l o (assign_initializer b e)) = true
is_initializer (expr l o (constructor_initializer f e t)) = true
is_initializer (expr l o (designated_initializer e i)) = true
is_initializer _ = false

abbrev pub is_null : OptNode → Bool
is_null null = true
is_null (node n) = false

-- `isSgValueExp`
abbrev pub is_value : SgNode → Bool
is_value (expr l o (numeric_val k v s)) = true
is_value (expr l o (bool_val b)) = true
is_value (expr l o (character_val k v)) = true
is_value (expr l o (string_val s f)) = true
is_value (expr l o (complex_val r i)) = true
is_value _ = false
