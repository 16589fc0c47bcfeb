-- ===== src/Examples/Program.antt =====
-- Test data: symbol tables and a tree of expressions.
use xevxml.Prelude.{true, false, none, some, [], ◌∷◌, codes}
use xevxml.Stream.{print_nat, stream_ulong, pos}
use xevxml.Xml.{Attrs}
use xevxml.Ast.Kinds.{add_op, int_val, type_long, type_default, string_val}
use xevxml.Ast.Node.{
  PreprocessingInfo, Located, StringFlags, AsmOperand, SgNode, transformation_info, expr,
  basic_type, plain_type, binary, numeric_val, string_val, expr_list, function_call, function_ref,
  var_ref, null, no_nodes, cons,
}
use xevxml.Platform.{Platform}
use xevxml.Read.Slots.{build}
use xevxml.RoundTrip.Text.{DecodesEntities}
use xevxml.Examples.Parser.{decode_entities, decode_entities-str_to_entity}

-- C code with a variable `x` of a class that has a member `y`, and a function `f`.
abbrev pub platform : Platform
platform = record {
  is_fortran = false;
  decode = decode_entities;
  tmp = pos 0;
  tmp_ulong = 0;
  stream_in = λ k s. stream_ulong 0 s;
  to_string = λ k v. print_nat v;
  type_code = λ n. none;
  type_of = λ n. plain_type type_default;
  class_scope = λ n. some 5;
  is_class = λ s. false;
  scope_variable = λ s name. none;
  lookup_variable = λ st name. some name;
  lookup_function = λ st name. some (name, none);
  lookup_alias = λ st name. none;
  function_kind = pos 1;
  explicit_cast = false;
  alternative_return = pos 4;
  enclosing_arguments = λ l e. [];
  include_directive = pos 3;
  is_within = λ i. false;
}

pub decodes : DecodesEntities platform
decodes = record { at = λ s h. decode_entities-str_to_entity s }

-- `/* a<b */` in front of an expression
abbrev pub comment : PreprocessingInfo
comment = record { position = pos 1; directive = pos 2; string = codes "/* a<b */" }

abbrev pub commented : Located
commented = record { need_paren = false; info = transformation_info; preprocessing = comment ∷ [] }

abbrev pub parenthesised : Located
parenthesised = record { need_paren = true; info = transformation_info; preprocessing = [] }

abbrev pub two : SgNode
two = build (numeric_val int_val 2 [])

abbrev pub x_var : SgNode
x_var = build (var_ref (codes "x"))

abbrev pub wide : StringFlags
wide = record { single = false; wchar = true; string16 = false; string32 = false }

abbrev pub text_literal : SgNode
text_literal = build (string_val (codes "a&b") wide)

abbrev pub commented_two : SgNode
commented_two = expr commented null (numeric_val int_val 2 [])

abbrev pub argument_list : SgNode
argument_list = build (expr_list (cons x_var (cons text_literal no_nodes)))

abbrev pub call_of_f : SgNode
call_of_f = build (function_call (build (function_ref (codes "f") none)) argument_list)

-- `(f(x, L"a&b") + 2)` with the comment at the 2
abbrev pub call_expression : SgNode
call_expression = expr parenthesised null (binary add_op call_of_f commented_two)

abbrev pub int_type : SgNode
int_type = basic_type type_long null

abbrev pub implicit_atts : Attrs
implicit_atts = ("implicit", codes "1") ∷ []

-- an operand of inline assembler, without a name
abbrev pub operand : AsmOperand
operand = record {
  constraint = pos 4;
  constraint_string = codes "a&b";
  modifiers = pos 0;
  name = [];
  record_raw = false;
  is_output = true;
}

-- an include directive inside a construct, and a program all of whose directives are
abbrev pub include : PreprocessingInfo
include = record { position = pos 1; directive = pos 3; string = codes "#include <a.h>" }

abbrev pub include_free : Platform
include_free = record platform { is_within = λ i. true }
