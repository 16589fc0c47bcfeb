-- ===== src/Read/Values.antt =====
-- The visitors of literals (src/value.cpp).
use xevxml.Prelude.{ℕ, ◌%◌, ◌^◌, List, [], ◌∷◌, if◌then◌else◌, Bytes}
use xevxml.Stream.{pos, is_set, stream_ulong}
use xevxml.Entity.{entity_to_str}
use xevxml.Xml.{Attrs}
use xevxml.Ast.Kinds.{NumericVal, long_double_val, CharKind}
use xevxml.Ast.Names.{numeric_name, char_name}
use xevxml.Ast.Node.{
  SgNode, Exp, is_expression, is_value, numeric_val, bool_val, character_val, string_val,
  complex_val, null, node,
}
use xevxml.Platform.{Platform}
use xevxml.Write.Attributes.{same_bytes}
use xevxml.Read.Monad.{
  Reader, pure, ◌>>=◌, Child, visit_subtree, require_string, require_int, int_or,
}
use xevxml.Read.Slots.{fill, first, build, build_with}

-- The original expression tree of a literal is its first child that is an expression.
unfoldable pub with_original : List Child → Exp → Reader SgNode
with_original kids e = do cs ← visit_subtree kids; pure (build_with (first is_expression cs) e)

module _ (p : Platform) (atts : Attrs) (kids : List Child) where
  -- `VISIT_VAL`: the spelling is kept if it is not what the stream prints.
  unfoldable pub spelling_of : NumericVal → ℕ → Bytes → Bytes
  spelling_of k v text = if same_bytes text (p.to_string k v) then [] else text

  unfoldable pub visit_numeric : NumericVal → Reader SgNode
  visit_numeric k = do
    text ← require_string p (numeric_name k) atts "value"
    let v = p.stream_in k text
    with_original kids (numeric_val k v (spelling_of k v (entity_to_str text)))

  -- `VISIT_VAL_NO_STRING`
  unfoldable pub visit_bool_val : Reader SgNode
  visit_bool_val = do
    v ← require_int p "SgBoolValExp" atts "value"
    with_original kids (bool_val (is_set v))

  -- `VISIT_VAL_CHAR`: the number is cut down to a byte.
  unfoldable pub visit_char : CharKind → Reader SgNode
  visit_char k = do
    text ← require_string p (char_name k) atts "value"
    with_original kids (character_val k (stream_ulong p.tmp_ulong text % 2 ^ 8))

  unfoldable pub visit_string_val : Reader SgNode
  visit_string_val = do
    text ← require_string p "SgStringVal" atts "value"
    with_original kids (
        string_val (entity_to_str text) (record {
          single = is_set (int_or p atts "single" (pos 0));
          wchar = is_set (int_or p atts "wchar" (pos 0));
          string16 = is_set (int_or p atts "string16" (pos 0));
          string32 = is_set (int_or p atts "string32" (pos 0));
        }))

-- The parts of a complex literal, from the values among the children: with none, two zeros; with one,
-- that is the imaginary part.
unfoldable pub complex_parts : List SgNode → Exp
complex_parts [] =
    let zero_val = build (numeric_val long_double_val 0 []) in
    complex_val (node zero_val) (node zero_val)
complex_parts (r ∷ []) = complex_val null (node r)
complex_parts (r ∷ i ∷ _) = complex_val (node r) (node i)

unfoldable pub visit_complex_val : List Child → Reader SgNode
visit_complex_val kids = do
  cs ← visit_subtree kids
  pure (build (complex_parts (fill (is_value ∷ is_value ∷ []) cs)))
