-- ===== src/Ast/Names.antt =====
-- Names of classes, and the search that `visit` makes among them (`#define SAGE3(x)` before
-- `#include "sgnode.hpp"` in src/xml2rose.cpp).
use text.Mathlib.Text.{◌==◌ as str_eq}
use xevxml.Prelude.{String, List, [], ◌∷◌, ◌++◌, Option, none, some, if◌then◌else◌}
use xevxml.Ast.Kinds.{
  BinaryOp, add_op, and_assign_op, and_op, assign_op, bit_and_op, bit_or_op, bit_xor_op,
  comma_op_exp, concatenation_op, div_assign_op, divide_op, equality_op, exponentiation_op,
  greater_or_equal_op, greater_than_op, ior_assign_op, less_or_equal_op, less_than_op,
  lshift_assign_op, lshift_op, minus_assign_op, mod_assign_op, mod_op, mult_assign_op, multiply_op,
  not_equal_op, or_op, plus_assign_op, pntr_arr_ref_exp, rshift_assign_op, rshift_op, subtract_op,
  xor_assign_op, UnaryOp, address_of_op, bit_complement_op, not_op, unary_add_op, UnaryModeOp,
  minus_minus_op, minus_op, plus_plus_op, NumericVal, double_val, float_val, int_val,
  long_double_val, long_int_val, long_long_int_val, short_val, unsigned_int_val,
  unsigned_long_long_int_val, unsigned_long_val, unsigned_short_val, wchar_val, CharKind, char_val,
  unsigned_char_val, BasicType, type_bool, type_char, type_cray_pointer, type_double, type_float,
  type_long, type_long_double, type_long_long, type_short, type_signed_char, type_signed_int,
  type_signed_long, type_signed_long_long, type_signed_short, type_unsigned_char, type_unsigned_int,
  type_unsigned_long, type_unsigned_long_long, type_unsigned_short, type_void, PlainType,
  type_default, type_ellipse, ExpClass, bool_val_exp, string_val, complex_val,
  actual_argument_expression, aggregate_initializer, asm_op, assign_initializer, asterisk_shape_exp,
  cast_exp, colon_shape_exp, conditional_exp, constructor_initializer, designated_initializer,
  dot_exp, arrow_exp, expr_list_exp, function_call_exp, function_ref_exp, implied_do, label_ref_exp,
  null_expression, pointer_deref_exp, size_of_op, subscript_expression, var_arg_copy_op,
  var_arg_end_op, var_arg_op, var_arg_start_op, var_ref_exp, pointer_assign_op,
  user_defined_binary_op, user_defined_unary_op, Variant, bop, uop, uop_mode, numeric, character,
  basic, plain, class,
}

unfoldable pub binary_name : BinaryOp → String
binary_name add_op = "SgAddOp"
binary_name and_assign_op = "SgAndAssignOp"
binary_name and_op = "SgAndOp"
binary_name assign_op = "SgAssignOp"
binary_name bit_and_op = "SgBitAndOp"
binary_name bit_or_op = "SgBitOrOp"
binary_name bit_xor_op = "SgBitXorOp"
binary_name comma_op_exp = "SgCommaOpExp"
binary_name concatenation_op = "SgConcatenationOp"
binary_name div_assign_op = "SgDivAssignOp"
binary_name divide_op = "SgDivideOp"
binary_name equality_op = "SgEqualityOp"
binary_name exponentiation_op = "SgExponentiationOp"
binary_name greater_or_equal_op = "SgGreaterOrEqualOp"
binary_name greater_than_op = "SgGreaterThanOp"
binary_name ior_assign_op = "SgIorAssignOp"
binary_name less_or_equal_op = "SgLessOrEqualOp"
binary_name less_than_op = "SgLessThanOp"
binary_name lshift_assign_op = "SgLshiftAssignOp"
binary_name lshift_op = "SgLshiftOp"
binary_name minus_assign_op = "SgMinusAssignOp"
binary_name mod_assign_op = "SgModAssignOp"
binary_name mod_op = "SgModOp"
binary_name mult_assign_op = "SgMultAssignOp"
binary_name multiply_op = "SgMultiplyOp"
binary_name not_equal_op = "SgNotEqualOp"
binary_name or_op = "SgOrOp"
binary_name plus_assign_op = "SgPlusAssignOp"
binary_name pntr_arr_ref_exp = "SgPntrArrRefExp"
binary_name rshift_assign_op = "SgRshiftAssignOp"
binary_name rshift_op = "SgRshiftOp"
binary_name subtract_op = "SgSubtractOp"
binary_name xor_assign_op = "SgXorAssignOp"

unfoldable pub unary_name : UnaryOp → String
unary_name address_of_op = "SgAddressOfOp"
unary_name bit_complement_op = "SgBitComplementOp"
unary_name not_op = "SgNotOp"
unary_name unary_add_op = "SgUnaryAddOp"

unfoldable pub unary_mode_name : UnaryModeOp → String
unary_mode_name minus_minus_op = "SgMinusMinusOp"
unary_mode_name minus_op = "SgMinusOp"
unary_mode_name plus_plus_op = "SgPlusPlusOp"

unfoldable pub numeric_name : NumericVal → String
numeric_name double_val = "SgDoubleVal"
numeric_name float_val = "SgFloatVal"
numeric_name int_val = "SgIntVal"
numeric_name long_double_val = "SgLongDoubleVal"
numeric_name long_int_val = "SgLongIntVal"
numeric_name long_long_int_val = "SgLongLongIntVal"
numeric_name short_val = "SgShortVal"
numeric_name unsigned_int_val = "SgUnsignedIntVal"
numeric_name unsigned_long_long_int_val = "SgUnsignedLongLongIntVal"
numeric_name unsigned_long_val = "SgUnsignedLongVal"
numeric_name unsigned_short_val = "SgUnsignedShortVal"
numeric_name wchar_val = "SgWcharVal"

unfoldable pub char_name : CharKind → String
char_name char_val = "SgCharVal"
char_name unsigned_char_val = "SgUnsignedCharVal"

unfoldable pub basic_name : BasicType → String
basic_name type_bool = "SgTypeBool"
basic_name type_char = "SgTypeChar"
basic_name type_cray_pointer = "SgTypeCrayPointer"
basic_name type_double = "SgTypeDouble"
basic_name type_float = "SgTypeFloat"
basic_name type_long = "SgTypeLong"
basic_name type_long_double = "SgTypeLongDouble"
basic_name type_long_long = "SgTypeLongLong"
basic_name type_short = "SgTypeShort"
basic_name type_signed_char = "SgTypeSignedChar"
basic_name type_signed_int = "SgTypeSignedInt"
basic_name type_signed_long = "SgTypeSignedLong"
basic_name type_signed_long_long = "SgTypeSignedLongLong"
basic_name type_signed_short = "SgTypeSignedShort"
basic_name type_unsigned_char = "SgTypeUnsignedChar"
basic_name type_unsigned_int = "SgTypeUnsignedInt"
basic_name type_unsigned_long = "SgTypeUnsignedLong"
basic_name type_unsigned_long_long = "SgTypeUnsignedLongLong"
basic_name type_unsigned_short = "SgTypeUnsignedShort"
basic_name type_void = "SgTypeVoid"

unfoldable pub plain_name : PlainType → String
plain_name type_default = "SgTypeDefault"
plain_name type_ellipse = "SgTypeEllipse"

unfoldable pub exp_name : ExpClass → String
exp_name bool_val_exp = "SgBoolValExp"
exp_name string_val = "SgStringVal"
exp_name complex_val = "SgComplexVal"
exp_name actual_argument_expression = "SgActualArgumentExpression"
exp_name aggregate_initializer = "SgAggregateInitializer"
exp_name asm_op = "SgAsmOp"
exp_name assign_initializer = "SgAssignInitializer"
exp_name asterisk_shape_exp = "SgAsteriskShapeExp"
exp_name cast_exp = "SgCastExp"
exp_name colon_shape_exp = "SgColonShapeExp"
exp_name conditional_exp = "SgConditionalExp"
exp_name constructor_initializer = "SgConstructorInitializer"
exp_name designated_initializer = "SgDesignatedInitializer"
exp_name dot_exp = "SgDotExp"
exp_name arrow_exp = "SgArrowExp"
exp_name expr_list_exp = "SgExprListExp"
exp_name function_call_exp = "SgFunctionCallExp"
exp_name function_ref_exp = "SgFunctionRefExp"
exp_name implied_do = "SgImpliedDo"
exp_name label_ref_exp = "SgLabelRefExp"
exp_name null_expression = "SgNullExpression"
exp_name pointer_deref_exp = "SgPointerDerefExp"
exp_name size_of_op = "SgSizeOfOp"
exp_name subscript_expression = "SgSubscriptExpression"
exp_name var_arg_copy_op = "SgVarArgCopyOp"
exp_name var_arg_end_op = "SgVarArgEndOp"
exp_name var_arg_op = "SgVarArgOp"
exp_name var_arg_start_op = "SgVarArgStartOp"
exp_name var_ref_exp = "SgVarRefExp"
exp_name pointer_assign_op = "SgPointerAssignOp"
exp_name user_defined_binary_op = "SgUserDefinedBinaryOp"
exp_name user_defined_unary_op = "SgUserDefinedUnaryOp"

-- `class_name()`
unfoldable pub class_name : Variant → String
unfolding binary_name unary_name unary_mode_name numeric_name char_name basic_name plain_name
    exp_name
class_name (bop o) = binary_name o
class_name (uop o) = unary_name o
class_name (uop_mode o) = unary_mode_name o
class_name (numeric k) = numeric_name k
class_name (character k) = char_name k
class_name (basic t) = basic_name t
class_name (plain t) = plain_name t
class_name (class c) = exp_name c

binaries : List Variant
binaries =
    bop add_op
    ∷ bop and_assign_op
    ∷ bop and_op
    ∷ bop assign_op
    ∷ bop bit_and_op
    ∷ bop bit_or_op
    ∷ bop bit_xor_op
    ∷ bop comma_op_exp
    ∷ bop concatenation_op
    ∷ bop div_assign_op
    ∷ bop divide_op
    ∷ bop equality_op
    ∷ bop exponentiation_op
    ∷ bop greater_or_equal_op
    ∷ bop greater_than_op
    ∷ bop ior_assign_op
    ∷ bop less_or_equal_op
    ∷ bop less_than_op
    ∷ bop lshift_assign_op
    ∷ bop lshift_op
    ∷ bop minus_assign_op
    ∷ bop mod_assign_op
    ∷ bop mod_op
    ∷ bop mult_assign_op
    ∷ bop multiply_op
    ∷ bop not_equal_op
    ∷ bop or_op
    ∷ bop plus_assign_op
    ∷ bop pntr_arr_ref_exp
    ∷ bop rshift_assign_op
    ∷ bop rshift_op
    ∷ bop subtract_op
    ∷ bop xor_assign_op
    ∷ []

unaries : List Variant
unaries = uop address_of_op ∷ uop bit_complement_op ∷ uop not_op ∷ uop unary_add_op ∷ []

unary_modes : List Variant
unary_modes = uop_mode minus_minus_op ∷ uop_mode minus_op ∷ uop_mode plus_plus_op ∷ []

numerics : List Variant
numerics =
    numeric double_val
    ∷ numeric float_val
    ∷ numeric int_val
    ∷ numeric long_double_val
    ∷ numeric long_int_val
    ∷ numeric long_long_int_val
    ∷ numeric short_val
    ∷ numeric unsigned_int_val
    ∷ numeric unsigned_long_long_int_val
    ∷ numeric unsigned_long_val
    ∷ numeric unsigned_short_val
    ∷ numeric wchar_val
    ∷ []

characters : List Variant
characters = character char_val ∷ character unsigned_char_val ∷ []

basics : List Variant
basics =
    basic type_bool
    ∷ basic type_char
    ∷ basic type_cray_pointer
    ∷ basic type_double
    ∷ basic type_float
    ∷ basic type_long
    ∷ basic type_long_double
    ∷ basic type_long_long
    ∷ basic type_short
    ∷ basic type_signed_char
    ∷ basic type_signed_int
    ∷ basic type_signed_long
    ∷ basic type_signed_long_long
    ∷ basic type_signed_short
    ∷ basic type_unsigned_char
    ∷ basic type_unsigned_int
    ∷ basic type_unsigned_long
    ∷ basic type_unsigned_long_long
    ∷ basic type_unsigned_short
    ∷ basic type_void
    ∷ []

plains : List Variant
plains = plain type_default ∷ plain type_ellipse ∷ []

classes : List Variant
classes =
    class bool_val_exp
    ∷ class string_val
    ∷ class complex_val
    ∷ class actual_argument_expression
    ∷ class aggregate_initializer
    ∷ class asm_op
    ∷ class assign_initializer
    ∷ class asterisk_shape_exp
    ∷ class cast_exp
    ∷ class colon_shape_exp
    ∷ class conditional_exp
    ∷ class constructor_initializer
    ∷ class designated_initializer
    ∷ class dot_exp
    ∷ class arrow_exp
    ∷ class expr_list_exp
    ∷ class function_call_exp
    ∷ class function_ref_exp
    ∷ class implied_do
    ∷ class label_ref_exp
    ∷ class null_expression
    ∷ class pointer_deref_exp
    ∷ class size_of_op
    ∷ class subscript_expression
    ∷ class var_arg_copy_op
    ∷ class var_arg_end_op
    ∷ class var_arg_op
    ∷ class var_arg_start_op
    ∷ class var_ref_exp
    ∷ class pointer_assign_op
    ∷ class user_defined_binary_op
    ∷ class user_defined_unary_op
    ∷ []

all_variants : List Variant
unfolding binaries unaries unary_modes numerics characters basics plains classes
all_variants =
    binaries
    ++ (unaries ++ (unary_modes ++ (numerics ++ (characters ++ (basics ++ (plains ++ classes))))))

search_name : String → List Variant → Option Variant
search_name name [] = none
search_name name (v ∷ vs) = if str_eq (class_name v) name then some v else search_name name vs

unfoldable pub variant_of : String → Option Variant
unfolding search_name all_variants class_name
variant_of name = search_name name all_variants
