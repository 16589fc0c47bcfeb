-- ===== src/Examples/Trees.antt =====
-- The theorems on trees at a concrete tree.
use xevxml.Ast.Kinds.{int_val}
use xevxml.Ast.Node.{numeric_val, null, to_list, dot_exp, function_ref}
use xevxml.Examples.Facts.{
  text-IsRestorable, comment-IsComment, two-IsLiteral, fresh-IsLocated, parenthesised-IsLocated,
  commented-IsLocated, gives,
}
use xevxml.Examples.Program.{
  platform, decodes, comment, two, x_var, text_literal, commented_two, argument_list, call_of_f,
  call_expression,
}
use xevxml.Prelude.{if◌then◌else◌, none, some, ◌≡◌, true, false, refl, [], ◌∷◌, arith, codes}
use xevxml.Read.Expressions.{visit_member}
use xevxml.Read.Monad.{visit_subtree}
use xevxml.Read.Slots.{fresh, build}
use xevxml.Read.Symbols.{find_variable, resolve_variable, resolve_function}
use xevxml.Read.Visit.{read_infos, visit}
use xevxml.Result.{ok}
use xevxml.RoundTrip.Comments.{read_infos-doc_infos}
use xevxml.RoundTrip.Inside.{inside_of, has_inode-inside}
use xevxml.RoundTrip.Members.{visit_member-pair}
use xevxml.RoundTrip.Readable.{Readable}
use xevxml.RoundTrip.Trees.{read-write}
use xevxml.Write.Document.{doc_infos, doc}
use xevxml.Write.Visit.{has_inode, write}
use xevxml.Write.WellFormed.{tags-write}
use xevxml.Xml.{no_doms, Dom, tags, dom_tags, doms_tags}

call_expression-Readable : Readable platform [] call_expression
unfolding Readable resolve_variable find_variable resolve_function to_list
call_expression-Readable =
    let f_ref : Readable platform [] (build (function_ref (codes "f") none)) =
      (fresh-IsLocated _, ((ground arith, (refl, tt)), (tt, (tt, tt)))) in
    let x_ref : Readable platform [] x_var =
      (fresh-IsLocated _, ((ground arith, refl), (tt, (tt, tt)))) in
    let text : Readable platform [] text_literal =
      (fresh-IsLocated _, (text-IsRestorable, (tt, (tt, tt)))) in
    let arguments : Readable platform [] argument_list =
      (fresh-IsLocated _, ((refl, (refl, tt)), (tt, (tt, (x_ref, (text, tt)))))) in
    let call : Readable platform [] call_of_f =
      (fresh-IsLocated _, ((refl, (refl, refl)), (tt, (tt, (f_ref, arguments))))) in
    let number : Readable platform [] commented_two =
      (commented-IsLocated _, (two-IsLiteral, (tt, (tt, tt)))) in
    (parenthesised-IsLocated call_of_f commented_two, ((refl, refl), (tt, (tt, (call, number)))))

read-write_example :
    (e : Dom) × ((tags (write platform false 0 true call_expression) ≡ dom_tags e)
      × (visit platform e [] ≡ ok (some call_expression, [])))
read-write_example = read-write decodes [] 0 true call_expression call_expression-Readable

tags-write_example :
    tags (write platform false 0 true call_expression)
    ≡ doms_tags (doc platform false true call_expression)
tags-write_example = tags-write platform false 0 true call_expression

read_infos-doc_infos_example : read_infos platform (doc_infos (comment ∷ [])) ≡ ok (comment ∷ [])
read_infos-doc_infos_example = read_infos-doc_infos decodes (comment ∷ []) (comment-IsComment, tt)

visit_member-pair_example :
    visit_member platform "SgDotExp" dot_exp (gives x_var ∷ gives two ∷ []) []
    ≡ ok (build (dot_exp x_var two), [])
unfolding visit_subtree
visit_member-pair_example =
    visit_member-pair platform "SgDotExp" dot_exp (gives x_var) (gives two) [] [] x_var two refl
      refl refl refl refl

has_inode-inside_example :
    (if has_inode platform fresh null (numeric_val int_val 2 [])
      then inside_of platform fresh null (numeric_val int_val 2 [])
      else no_doms)
    ≡ inside_of platform fresh null (numeric_val int_val 2 [])
has_inode-inside_example = has_inode-inside platform fresh null (numeric_val int_val 2 []) tt
