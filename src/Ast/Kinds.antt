-- ===== src/Ast/Kinds.antt =====
-- The kinds of node that the visitors tell apart (include/sgnode.hpp, and the uses of the macros
-- `VISIT_BOP`, `VISIT_UOP`, `VISIT_UOP_MODE`, `VISIT_VAL`, `VISIT_VAL_CHAR`, `VISIT_TYPE` and
-- `VISIT_TYPE2` in src/expr.cpp, src/value.cpp and src/type.cpp).

-- The binary operators whose visitors come from `VISIT_BOP`.
pub data BinaryOp : Type 0 where
  add_op and_assign_op and_op assign_op bit_and_op bit_or_op bit_xor_op comma_op_exp
        concatenation_op div_assign_op divide_op equality_op exponentiation_op greater_or_equal_op
        greater_than_op ior_assign_op less_or_equal_op less_than_op lshift_assign_op lshift_op
        minus_assign_op mod_assign_op mod_op mult_assign_op multiply_op not_equal_op or_op
        plus_assign_op pntr_arr_ref_exp rshift_assign_op rshift_op subtract_op xor_assign_op :
      BinaryOp

-- `VISIT_UOP`
pub data UnaryOp : Type 0 where
  address_of_op bit_complement_op not_op unary_add_op : UnaryOp

-- `VISIT_UOP_MODE`: operators that stand before or behind their operand
pub data UnaryModeOp : Type 0 where
  minus_minus_op minus_op plus_plus_op : UnaryModeOp

-- `VISIT_VAL`: literals that keep their spelling
pub data NumericVal : Type 0 where
  double_val float_val int_val long_double_val long_int_val long_long_int_val short_val
        unsigned_int_val unsigned_long_long_int_val unsigned_long_val unsigned_short_val wchar_val :
      NumericVal

-- `VISIT_VAL_CHAR`
pub data CharKind : Type 0 where
  char_val unsigned_char_val : CharKind

-- `VISIT_TYPE`: types that may have a kind expression
pub data BasicType : Type 0 where
  type_bool type_char type_cray_pointer type_double type_float type_long type_long_double
        type_long_long type_short type_signed_char type_signed_int type_signed_long
        type_signed_long_long type_signed_short type_unsigned_char type_unsigned_int
        type_unsigned_long type_unsigned_long_long type_unsigned_short type_void :
      BasicType

-- `VISIT_TYPE2`: types with nothing inside
pub data PlainType : Type 0 where
  type_default type_ellipse : PlainType

-- The classes of expression with visitors of their own.
pub data ExpClass : Type 0 where
  bool_val_exp string_val complex_val actual_argument_expression aggregate_initializer asm_op
        assign_initializer asterisk_shape_exp cast_exp colon_shape_exp conditional_exp
        constructor_initializer designated_initializer dot_exp arrow_exp expr_list_exp
        function_call_exp function_ref_exp implied_do label_ref_exp null_expression
        pointer_deref_exp size_of_op subscript_expression var_arg_copy_op var_arg_end_op var_arg_op
        var_arg_start_op var_ref_exp pointer_assign_op user_defined_binary_op
        user_defined_unary_op :
      ExpClass

-- A name of include/sgnode.hpp.
pub data Variant : Type 0 where
  bop : BinaryOp → Variant
  uop : UnaryOp → Variant
  uop_mode : UnaryModeOp → Variant
  numeric : NumericVal → Variant
  character : CharKind → Variant
  basic : BasicType → Variant
  plain : PlainType → Variant
  class : ExpClass → Variant
