-- ===== src/Ast/NameSearch.antt =====
-- The search among the names of classes (src/xml2rose.cpp).
use xevxml.Prelude.{◌≡◌, refl, some}
use xevxml.Ast.Kinds.{
  add_op, and_assign_op, and_op, assign_op, bit_and_op, bit_or_op, bit_xor_op, comma_op_exp,
  concatenation_op, div_assign_op, divide_op, equality_op, exponentiation_op, greater_or_equal_op,
  greater_than_op, ior_assign_op, less_or_equal_op, less_than_op, lshift_assign_op, lshift_op,
  minus_assign_op, mod_assign_op, mod_op, mult_assign_op, multiply_op, not_equal_op, or_op,
  plus_assign_op, pntr_arr_ref_exp, rshift_assign_op, rshift_op, subtract_op, xor_assign_op,
  address_of_op, bit_complement_op, not_op, unary_add_op, minus_minus_op, minus_op, plus_plus_op,
  double_val, float_val, int_val, long_double_val, long_int_val, long_long_int_val, short_val,
  unsigned_int_val, unsigned_long_long_int_val, unsigned_long_val, unsigned_short_val, wchar_val,
  char_val, unsigned_char_val, type_bool, type_char, type_cray_pointer, type_double, type_float,
  type_long, type_long_double, type_long_long, type_short, type_signed_char, type_signed_int,
  type_signed_long, type_signed_long_long, type_signed_short, type_unsigned_char, type_unsigned_int,
  type_unsigned_long, type_unsigned_long_long, type_unsigned_short, type_void, type_default,
  type_ellipse, bool_val_exp, string_val, complex_val, actual_argument_expression,
  aggregate_initializer, asm_op, assign_initializer, asterisk_shape_exp, cast_exp, colon_shape_exp,
  conditional_exp, constructor_initializer, designated_initializer, dot_exp, arrow_exp,
  expr_list_exp, function_call_exp, function_ref_exp, implied_do, label_ref_exp, null_expression,
  pointer_deref_exp, size_of_op, subscript_expression, var_arg_copy_op, var_arg_end_op, var_arg_op,
  var_arg_start_op, var_ref_exp, pointer_assign_op, user_defined_binary_op, user_defined_unary_op,
  Variant, bop, uop, uop_mode, numeric, character, basic, plain, class,
}
use xevxml.Ast.Names.{class_name, variant_of}

-- Every class is found under its name.
pub variant_of-class_name : (v : Variant) → variant_of (class_name v) ≡ some v
unfolding variant_of
variant_of-class_name (bop add_op) = refl
variant_of-class_name (bop and_assign_op) = refl
variant_of-class_name (bop and_op) = refl
variant_of-class_name (bop assign_op) = refl
variant_of-class_name (bop bit_and_op) = refl
variant_of-class_name (bop bit_or_op) = refl
variant_of-class_name (bop bit_xor_op) = refl
variant_of-class_name (bop comma_op_exp) = refl
variant_of-class_name (bop concatenation_op) = refl
variant_of-class_name (bop div_assign_op) = refl
variant_of-class_name (bop divide_op) = refl
variant_of-class_name (bop equality_op) = refl
variant_of-class_name (bop exponentiation_op) = refl
variant_of-class_name (bop greater_or_equal_op) = refl
variant_of-class_name (bop greater_than_op) = refl
variant_of-class_name (bop ior_assign_op) = refl
variant_of-class_name (bop less_or_equal_op) = refl
variant_of-class_name (bop less_than_op) = refl
variant_of-class_name (bop lshift_assign_op) = refl
variant_of-class_name (bop lshift_op) = refl
variant_of-class_name (bop minus_assign_op) = refl
variant_of-class_name (bop mod_assign_op) = refl
variant_of-class_name (bop mod_op) = refl
variant_of-class_name (bop mult_assign_op) = refl
variant_of-class_name (bop multiply_op) = refl
variant_of-class_name (bop not_equal_op) = refl
variant_of-class_name (bop or_op) = refl
variant_of-class_name (bop plus_assign_op) = refl
variant_of-class_name (bop pntr_arr_ref_exp) = refl
variant_of-class_name (bop rshift_assign_op) = refl
variant_of-class_name (bop rshift_op) = refl
variant_of-class_name (bop subtract_op) = refl
variant_of-class_name (bop xor_assign_op) = refl
variant_of-class_name (uop address_of_op) = refl
variant_of-class_name (uop bit_complement_op) = refl
variant_of-class_name (uop not_op) = refl
variant_of-class_name (uop unary_add_op) = refl
variant_of-class_name (uop_mode minus_minus_op) = refl
variant_of-class_name (uop_mode minus_op) = refl
variant_of-class_name (uop_mode plus_plus_op) = refl
variant_of-class_name (numeric double_val) = refl
variant_of-class_name (numeric float_val) = refl
variant_of-class_name (numeric int_val) = refl
variant_of-class_name (numeric long_double_val) = refl
variant_of-class_name (numeric long_int_val) = refl
variant_of-class_name (numeric long_long_int_val) = refl
variant_of-class_name (numeric short_val) = refl
variant_of-class_name (numeric unsigned_int_val) = refl
variant_of-class_name (numeric unsigned_long_long_int_val) = refl
variant_of-class_name (numeric unsigned_long_val) = refl
variant_of-class_name (numeric unsigned_short_val) = refl
variant_of-class_name (numeric wchar_val) = refl
variant_of-class_name (character char_val) = refl
variant_of-class_name (character unsigned_char_val) = refl
variant_of-class_name (basic type_bool) = refl
variant_of-class_name (basic type_char) = refl
variant_of-class_name (basic type_cray_pointer) = refl
variant_of-class_name (basic type_double) = refl
variant_of-class_name (basic type_float) = refl
variant_of-class_name (basic type_long) = refl
variant_of-class_name (basic type_long_double) = refl
variant_of-class_name (basic type_long_long) = refl
variant_of-class_name (basic type_short) = refl
variant_of-class_name (basic type_signed_char) = refl
variant_of-class_name (basic type_signed_int) = refl
variant_of-class_name (basic type_signed_long) = refl
variant_of-class_name (basic type_signed_long_long) = refl
variant_of-class_name (basic type_signed_short) = refl
variant_of-class_name (basic type_unsigned_char) = refl
variant_of-class_name (basic type_unsigned_int) = refl
variant_of-class_name (basic type_unsigned_long) = refl
variant_of-class_name (basic type_unsigned_long_long) = refl
variant_of-class_name (basic type_unsigned_short) = refl
variant_of-class_name (basic type_void) = refl
variant_of-class_name (plain type_default) = refl
variant_of-class_name (plain type_ellipse) = refl
variant_of-class_name (class bool_val_exp) = refl
variant_of-class_name (class string_val) = refl
variant_of-class_name (class complex_val) = refl
variant_of-class_name (class actual_argument_expression) = refl
variant_of-class_name (class aggregate_initializer) = refl
variant_of-class_name (class asm_op) = refl
variant_of-class_name (class assign_initializer) = refl
variant_of-class_name (class asterisk_shape_exp) = refl
variant_of-class_name (class cast_exp) = refl
variant_of-class_name (class colon_shape_exp) = refl
variant_of-class_name (class conditional_exp) = refl
variant_of-class_name (class constructor_initializer) = refl
variant_of-class_name (class designated_initializer) = refl
variant_of-class_name (class dot_exp) = refl
variant_of-class_name (class arrow_exp) = refl
variant_of-class_name (class expr_list_exp) = refl
variant_of-class_name (class function_call_exp) = refl
variant_of-class_name (class function_ref_exp) = refl
variant_of-class_name (class implied_do) = refl
variant_of-class_name (class label_ref_exp) = refl
variant_of-class_name (class null_expression) = refl
variant_of-class_name (class pointer_deref_exp) = refl
variant_of-class_name (class size_of_op) = refl
variant_of-class_name (class subscript_expression) = refl
variant_of-class_name (class var_arg_copy_op) = refl
variant_of-class_name (class var_arg_end_op) = refl
variant_of-class_name (class var_arg_op) = refl
variant_of-class_name (class var_arg_start_op) = refl
variant_of-class_name (class var_ref_exp) = refl
variant_of-class_name (class pointer_assign_op) = refl
variant_of-class_name (class user_defined_binary_op) = refl
variant_of-class_name (class user_defined_unary_op) = refl
