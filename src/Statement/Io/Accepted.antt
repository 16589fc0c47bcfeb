-- ===== src/Statement/Io/Accepted.antt =====
-- Which arguments the visitor of a class takes.
use xevxml.Prelude.{
  ◌≡◌, refl, sym, ap, ◌∙◌, subst, Bool, true, false, not, ◌&&◌, some, List, [], ◌∷◌, arith, codes,
  take, drop,
}
use xevxml.Result.{ok}
use xevxml.Ast.Node.{SgNode, OptNode, null, node}
use xevxml.Statement.Io.Kinds.{
  IoAttrib, IoClass, enumerator, same_attrib, attrib_name, io_fmt, io_iolength, io_unit, io_iostat,
  io_err, io_iomsg, io_pending, io_status, backspace_statement, close_statement, endfile_statement,
  flush_statement, inquire_statement, open_statement, print_statement, read_statement,
  rewind_statement, wait_statement, write_statement,
}
use xevxml.Statement.Io.Write.{IoParts, Entries, inquire_entries, entries, argument}
use xevxml.Statement.Io.Read.{
  Switch, set_field, is_one_of, one_of, is_var_ref, backspace_cases, endfile_cases, flush_cases,
  rewind_cases, wait_cases, close_cases, open_cases, read_cases, write_cases, inquire_cases,
  inquire_switch, io_switch, take_child,
}
use xevxml.Statement.Io.Fields.{Pairs, Fields, put, merged, is_diagonal}
use xevxml.Statement.Io.Taken.{take_all, add_argument, arguments, IsOperand, take_child-argument}

-- The arguments that come back to the fields that they come from: those that are written, but the
-- message that a close statement writes as its error label, and the pending flag that an inquire
-- statement writes under a name that is not in the table.
unfoldable pub diagonal_of : Entries → Pairs
diagonal_of [] = []
diagonal_of ((name, a) ∷ es) = (a, a) ∷ diagonal_of es

unfoldable pub kept : IoClass → Pairs
unfolding diagonal_of entries
kept close_statement =
    (io_unit, io_unit) ∷ (io_iostat, io_iostat) ∷ (io_err, io_err) ∷ (io_status, io_status) ∷ []
kept inquire_statement = diagonal_of (take 31 inquire_entries)
kept c = diagonal_of (entries c)

pub kept-is_diagonal : (c : IoClass) → is_diagonal (kept c) ≡ true
unfolding kept is_diagonal diagonal_of entries enumerator
kept-is_diagonal backspace_statement = refl
kept-is_diagonal close_statement = refl
kept-is_diagonal endfile_statement = refl
kept-is_diagonal flush_statement = refl
kept-is_diagonal inquire_statement = refl
kept-is_diagonal open_statement = refl
kept-is_diagonal print_statement = refl
kept-is_diagonal read_statement = refl
kept-is_diagonal rewind_statement = refl
kept-is_diagonal wait_statement = refl
kept-is_diagonal write_statement = refl

-- The visitor sets the field for each argument that is there.
unfoldable pub Accepts : Switch → Pairs → Fields → Type 0
Accepts switch [] f = Unit
Accepts switch ((t, a) ∷ es) f =
    ((x : SgNode) (s : IoParts)
      → f a ≡ node x
      → switch (codes (attrib_name t)) t x s ≡ ok (set_field t x s))
    × Accepts switch es f

unfoldable pub covers : List IoAttrib → Pairs → Bool
covers cases [] = true
covers cases ((t, a) ∷ es) = is_one_of cases t && covers cases es

pub covers-one_of :
    (cases : List IoAttrib) (es : Pairs) (f : Fields)
    → covers cases es ≡ true
    → Accepts (one_of cases) es f
unfolding covers Accepts one_of
covers-one_of cases [] f h = tt
covers-one_of cases ((t, a) ∷ es) f h =
    let k : (is_one_of cases t ≡ true) × (covers cases es ≡ true) = grind arith in
    ((λ x s e. rw (k.0) refl), covers-one_of cases es f k.1)

unfoldable covers_inquire : Pairs → Bool
covers_inquire [] = true
covers_inquire ((t, a) ∷ es) =
    (is_one_of inquire_cases t && not (same_attrib t io_iolength)) && covers_inquire es

covers-inquire : (es : Pairs) (f : Fields) → covers_inquire es ≡ true → Accepts inquire_switch es f
unfolding covers_inquire Accepts inquire_switch
covers-inquire [] f h = tt
covers-inquire ((t, a) ∷ es) f h =
    let k : (is_one_of inquire_cases t ≡ true)
        × ((same_attrib t io_iolength ≡ false) × (covers_inquire es ≡ true)) =
      grind arith in
    ((λ x s e. rw (k.0, k.1.0) refl), covers-inquire es f k.1.1)

-- What is lost, or not read, must not be there.
abbrev pub IsVarRefOrNull : OptNode → Type 0
IsVarRefOrNull null = Unit
IsVarRefOrNull (node x) = is_var_ref x ≡ true

abbrev pub IsLossless : IoClass → Fields → Type 0
IsLossless close_statement f = f io_iomsg ≡ null
IsLossless inquire_statement f = IsVarRefOrNull (f io_iolength) × (f io_pending ≡ null)
IsLossless _ f = Unit

pub inquire-Accepts :
    (f : Fields)
    → IsVarRefOrNull (f io_iolength)
    → Accepts (io_switch inquire_statement) (kept inquire_statement) f
unfolding kept diagonal_of io_switch Accepts inquire_switch enumerator covers_inquire is_one_of
inquire-Accepts f h = (
  (λ x s e. let v : is_var_ref x ≡ true = subst IsVarRefOrNull e h in rw (v) refl),
  covers-inquire (diagonal_of (drop 1 (take 31 inquire_entries))) f refl,
)

pub kept-Accepts : (c : IoClass) (f : Fields) → IsLossless c f → Accepts (io_switch c) (kept c) f
unfolding kept diagonal_of entries io_switch covers is_one_of enumerator
kept-Accepts inquire_statement f h = inquire-Accepts f h.0
kept-Accepts close_statement f h = covers-one_of close_cases _ f refl
kept-Accepts open_statement f h = covers-one_of open_cases _ f refl
kept-Accepts print_statement f h = covers-one_of (io_fmt ∷ []) _ f refl
kept-Accepts read_statement f h = covers-one_of read_cases _ f refl
kept-Accepts write_statement f h = covers-one_of write_cases _ f refl
kept-Accepts backspace_statement f h = covers-one_of backspace_cases _ f refl
kept-Accepts endfile_statement f h = covers-one_of endfile_cases _ f refl
kept-Accepts flush_statement f h = covers-one_of flush_cases _ f refl
kept-Accepts rewind_statement f h = covers-one_of rewind_cases _ f refl
kept-Accepts wait_statement f h = covers-one_of wait_cases _ f refl

-- The operands that are there are expressions as the readers leave them.
abbrev pub AreOperands : Fields → Type 0
AreOperands f = (a : IoAttrib) (x : SgNode) → f a ≡ node x → IsOperand x

pub take_all-cons :
    (c : IoClass) (n : SgNode) (ns : List SgNode) (s t : IoParts)
    → take_child c (some n) s ≡ ok t
    → take_all c (n ∷ ns) s ≡ take_all c ns t
unfolding take_all
take_all-cons c n ns s t h = rw (h) refl

abbrev pub after : Pairs → Fields → IoParts → IoParts
after es f s = record { io_list = s.io_list; field = merged es f s.field }

module _ (c : IoClass) (t a : IoAttrib) (es : Pairs) (f : Fields) (o : AreOperands f)
    (h : (x : SgNode) (s : IoParts)
      → f a ≡ node x
      → io_switch c (codes (attrib_name t)) t x s ≡ ok (set_field t x s))
    (ih : (s : IoParts) → take_all c (arguments es f) s ≡ ok (after es f s)) where
  take_all-put :
      (s : IoParts) (v : OptNode)
      → f a ≡ v
      → take_all c (add_argument t v (arguments es f)) s
        ≡ ok (record { io_list = s.io_list; field = merged es f (put t v s.field) })
  take_all-put s null e = ih s
  take_all-put s (node x) e =
      take_all-cons c (argument (attrib_name t) x) (arguments es f) s (set_field t x s)
        (take_child-argument c t x s (o a x e) ∙ h x s e)
      ∙ ih (set_field t x s)

  take_all-one :
      (s : IoParts) (v : OptNode)
      → f a ≡ v
      → take_all c (arguments ((t, a) ∷ es) f) s ≡ ok (after ((t, a) ∷ es) f s)
  unfolding arguments merged
  take_all-one s v e =
      ap (λ w. take_all c (add_argument t w (arguments es f)) s) e
      ∙ (take_all-put s v e
          ∙ ap (λ w. ok (record { io_list = s.io_list; field = merged es f (put t w s.field) }))
              (sym e))

-- Each argument that is accepted sets its field, one behind the other.
pub take_all-arguments :
    (c : IoClass) (es : Pairs) (f : Fields) (s : IoParts)
    → AreOperands f
    → Accepts (io_switch c) es f
    → take_all c (arguments es f) s ≡ ok (after es f s)
unfolding arguments merged Accepts take_all
take_all-arguments c [] f s o h = refl
take_all-arguments c ((t, a) ∷ es) f s o h =
    take_all-one c t a es f o h.0 (λ r. take_all-arguments c es f r o h.1) s (f a) refl
