-- ===== src/Examples/Readers.antt =====
-- The theorems on single visitors at concrete elements.
use xevxml.Ast.Kinds.{CharKind, add_op, int_val}
use xevxml.Prelude.{
  ◌≡◌, refl, ◌≢◌, true, false, not, if◌then◌else◌, ◌&&◌, ◌||◌, none, some, [], ◌∷◌, arith, codes,
}
use xevxml.Result.{ok}
use xevxml.Stream.{
  is_set, pos, stream_int, skip_space, is_space, read_signed, read_digits, is_digit, positive,
}
use xevxml.Ast.Node.{
  expr, transformation_info, opt, is_expression, binary, numeric_val, character_val, string_val,
  asm_op, cast_exp, function_ref, null, node,
}
use xevxml.Xml.{get_int, get_named_item, no_doms}
use xevxml.Write.Attributes.{attributes, is_literal, same_bytes}
use xevxml.Write.Visit.{is_in_same_file}
use xevxml.Read.Monad.{visit_subtree, int_or}
use xevxml.Read.Slots.{fill, first, fresh, build, build_with}
use xevxml.Read.Symbols.{resolve_function}
use xevxml.Read.Operands.{two_operands, visit_binary}
use xevxml.Read.Values.{with_original, visit_numeric, visit_char, visit_string_val}
use xevxml.Read.Expressions.{
  flag, cast_of, cast_children, cast_child, visit_asm_op, visit_cast, visit_function_ref,
  visit_user_defined_unary,
}
use xevxml.Read.Visit.{info_of, check_node, read_infos}
use xevxml.Read.Losses.{
  original_tree, visit_binary-original_tree, visit_cast-original, operand_of,
  visit_user_defined_unary-fails, is_in_same_file-info_of,
}
use xevxml.RoundTrip.Element.{check_node-attributes}
use xevxml.RoundTrip.Text.{print_nat-IsPlain}
use xevxml.Stream.RoundTrip.{stream_ulong-print_nat}
use xevxml.RoundTrip.Literals.{
  visit_numeric-written, visit_char-attributes, visit_string_val-attributes,
}
use xevxml.RoundTrip.Symbols.{visit_function_ref-written}
use xevxml.RoundTrip.Assembler.{visit_asm_op-written}
use xevxml.Examples.Parser.{decode_entities}
use xevxml.Examples.Program.{
  platform, parenthesised, decodes, two, x_var, wide, int_type, implicit_atts, operand,
}
use xevxml.Examples.Facts.{text-IsRestorable, seven-IsSpelling, gives}

visit_numeric-written_example :
    visit_numeric platform
      (attributes platform fresh null (numeric_val int_val 7 (codes "007")))
      []
      int_val
    ≡ with_original [] (
        numeric_val int_val 7
          (if same_bytes (codes "007") (platform.to_string int_val 7) then [] else codes "007"))
visit_numeric-written_example =
    visit_numeric-written decodes fresh null [] int_val 7 (codes "007")
      (stream_ulong-print_nat 0 7 (omega arith)) (print_nat-IsPlain 7)
      (seven-IsSpelling.restorable, seven-IsSpelling.reads)

visit_char-attributes_example :
    visit_char platform
      (attributes platform fresh null (character_val CharKind.char_val 200))
      []
      CharKind.char_val
    ≡ with_original [] (character_val CharKind.char_val 200)
visit_char-attributes_example =
    visit_char-attributes decodes fresh null [] CharKind.char_val 200 (omega arith)

visit_string_val-attributes_example :
    visit_string_val platform (attributes platform fresh null (string_val (codes "a&b") wide)) []
    ≡ with_original [] (string_val (codes "a&b") wide)
visit_string_val-attributes_example =
    visit_string_val-attributes decodes fresh null [] (codes "a&b") wide text-IsRestorable

visit_binary-original_tree_example : original_tree (build (binary add_op x_var two)) ≡ null
unfolding visit_binary visit_subtree two_operands fill
visit_binary-original_tree_example =
    visit_binary-original_tree (gives x_var ∷ gives two ∷ gives two ∷ []) add_op [] []
      (build (binary add_op x_var two)) refl

visit_cast-original_example :
    original_tree (build_with (node x_var) (cast_exp (pos 0) x_var int_type)) ≡ (
      if flag platform implicit_atts "implicit"
      then operand_of (build_with (node x_var) (cast_exp (pos 0) x_var int_type))
      else null)
unfolding visit_subtree visit_cast cast_of cast_children cast_child int_or get_int get_named_item
    stream_int skip_space is_space read_signed read_digits is_digit positive decode_entities
visit_cast-original_example =
    visit_cast-original platform implicit_atts (gives x_var ∷ gives int_type ∷ gives two ∷ []) [] []
      (build_with (node x_var) (cast_exp (pos 0) x_var int_type)) refl

check_node-attributes_example :
    check_node platform
      (attributes platform parenthesised null (numeric_val int_val 2 []))
      no_doms
      (build (numeric_val int_val 2 []))
    ≡ ok (
        expr
          (record {
            need_paren = not (is_literal (numeric_val int_val 2 [])) && true;
            info = transformation_info;
            preprocessing = [];
          })
          null
          (numeric_val int_val 2 []))
unfolding read_infos
check_node-attributes_example =
    check_node-attributes decodes parenthesised null (numeric_val int_val 2 []) no_doms refl

visit_user_defined_unary-fails_example :
    visit_user_defined_unary platform (("name", codes "f") ∷ []) (gives x_var ∷ []) []
    ≢ ok (x_var, [])
visit_user_defined_unary-fails_example =
    visit_user_defined_unary-fails platform (("name", codes "f") ∷ []) (gives x_var ∷ []) [] []
      x_var

is_in_same_file-info_of_example :
    is_in_same_file true false (info_of platform (("unparse", codes "0") ∷ []))
    ≡ elim (get_int platform.decode platform.tmp "unparse" (("unparse", codes "0") ∷ [])) [
      | none ↦ true
      | some z ↦ is_set z || (not true && not false)
    ]
is_in_same_file-info_of_example =
    is_in_same_file-info_of platform (("unparse", codes "0") ∷ []) true false

visit_asm_op-written_example :
    visit_asm_op platform
      (attributes platform fresh null (asm_op operand (node x_var)))
      (gives x_var ∷ [])
      []
    ≡ ok (build (asm_op operand (node x_var)), [])
unfolding visit_subtree
visit_asm_op-written_example =
    visit_asm_op-written decodes fresh null operand (node x_var) (gives x_var ∷ []) [] refl
      (omega arith, (text-IsRestorable, (omega arith, tt))) refl

visit_function_ref-written_example :
    visit_function_ref platform
      (attributes platform fresh null (function_ref (codes "f") none))
      []
      []
    ≡ ok (build_with (first is_expression (opt null)) (function_ref (codes "f") none), [])
unfolding visit_subtree resolve_function
visit_function_ref-written_example =
    visit_function_ref-written decodes fresh null [] [] (codes "f") none (ground arith) refl tt refl
