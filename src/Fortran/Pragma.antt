-- ===== src/Fortran/Pragma.antt =====
-- `writeFortranPragma` of src/preproc.cpp.
use xevxml.Prelude.{
  ℕ, suc, Bool, true, false, Bytes, codes, [], ◌∷◌, ◌++◌, List, Option, none, some, String, drop,
  if◌then◌else◌,
}
use xevxml.Entity.{str_to_entity}
use xevxml.Xml.{Attrs, Stream, start_tag, empty_tag, end_tag, chars, indent, newline}
use xevxml.Fortran.Search.{
  RelativePosition, Comment, LocatedNode, Search, located, Found, same_position, is_empty, ◌>>=◌,
  directive_pos, find_lines, find_inner,
}

unfoldable pub write_comment : String → Bytes → Stream
write_comment pos [] = []
write_comment pos (c ∷ cs) =
    start_tag "PreprocessingInfo" (("pos", codes pos) ∷ ("type", codes "3") ∷ [])
    ∷ chars (str_to_entity (c ∷ cs))
    ∷ end_tag "PreprocessingInfo"
    ∷ newline
    ∷ []

-- The element of a directive; `unparse` is `getFortranPragmaUnparseFlag`.
unfoldable pub write_pragma : Bool → ℕ → Bytes → Search → Stream
write_pragma unparse d str s =
    let atts : Attrs = if unparse then [] else ("unparse", codes "0") ∷ [] in
    indent d
    ∷ start_tag "SgPragmaDeclaration" atts
    ∷ newline
    ∷ indent (suc d)
    ∷ empty_tag "SgPragma" (("pragma", str_to_entity (drop 2 str)) ∷ [])
    ∷ newline
    ∷ (write_comment "2" s.cmt_before
        ++ (write_comment "3" s.cmt_after
            ++ indent d ∷ end_tag "SgPragmaDeclaration" ∷ newline ∷ []))

-- The loop of `writeFortranPragma` on the comments from an index on, with the addresses of the
-- comments that are marked.
unfoldable pub write_lines :
    Bool → Bool → ℕ → RelativePosition → Found → List Comment → List ℕ → Option (Stream × List ℕ)
write_lines is_fixed unparse d pos inner [] marks = some ([], marks)
write_lines is_fixed unparse d pos inner (c ∷ cs) marks =
    let fresh : Search = record { cmt_before = []; cmt_after = []; transformed = marks } in
    let rest : List ℕ → Option (Stream × List ℕ) =
      λ ms. write_lines is_fixed unparse d pos inner cs ms in
    let found = find_lines is_fixed inner (c ∷ cs) false fresh >>= λ r.
    rest r.1.transformed >>= λ w.
    some ((if is_empty r.0 then [] else write_pragma unparse d r.0 r.1) ++ w.0, w.1) in
    elim (same_position c.position pos) [
      | false ↦ rest marks
      | true ↦ elim (directive_pos is_fixed c.string) [ none ↦ rest marks | some i ↦ found ]
    ]

-- `writeFortranPragma` in a Fortran program.
unfoldable pub write_fortran_pragma :
    Bool → Bool → ℕ → RelativePosition → LocatedNode → List ℕ → Option (Stream × List ℕ)
write_fortran_pragma is_fixed unparse d pos (located b cs ns) marks =
    write_lines is_fixed unparse d pos (find_inner is_fixed pos (located b cs ns)) cs marks
