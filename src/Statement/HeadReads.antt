-- ===== src/Statement/HeadReads.antt =====
-- Each class is read with what it keeps in its attributes.
use mathlib.Core.Option.{none-ne-some}
use xevxml.Prelude.{
  ◌≡◌, refl, sym, ap, ◌∙◌, ◌⊎◌, inl, inr, Bool, true, false, Option, none, some, [], ◌∷◌, ◌++◌,
  if◌then◌else◌, Bytes, All,
}
use xevxml.Stream.{ℤ, print_int, print_bool, is_set, pos}
use xevxml.Stream.RoundTrip.{IsInt}
use xevxml.Xml.{Attrs, get_named_item, get_string, get_int}
use xevxml.Platform.{Platform}
use xevxml.Read.Monad.{int_or, string_or}
use xevxml.RoundTrip.Text.{DecodesEntities, IsPlain, decode-plain}
use xevxml.Statement.Io.Write.{label_attribute}
use xevxml.Statement.Node.{
  EndLabels, Head, break_stmt, continue_stmt, case_option_stmt, default_option_stmt, fortran_do,
  if_stmt, stop_or_pause_statement, switch_statement, where_statement, while_stmt,
}
use xevxml.Statement.Write.{int_attribute, string_attribute, while_label, head_attributes}
use xevxml.Statement.HeadReaders.{
  while_labels, read_fortran_do, read_if, read_switch, read_where, read_while,
}
use xevxml.Statement.Lookup.{
  printed, text_or_none, int_attribute-at, int_attribute-other, string_attribute-at,
  string_attribute-other, label_attribute-other, get_int-printed, int_or-printed, string_or-text,
  is_set-printed, in_first, in_second,
}
use xevxml.Statement.Heads.{IsNonzero, IsEmpty, IsHead, reader_of}
use xevxml.Statement.Labels.{
  no_end, no_labels, labelled, name-read, labels-elabel, labels-slabel, nonzero-int_or,
}

module _ {p : Platform} (d : DecodesEntities p) (z : Option ℤ) where
  fortran_do-read :
      (f o e : Bool) (l : EndLabels)
      → IsHead f (fortran_do o e l)
      → read_fortran_do p (labelled z (head_attributes f (fortran_do o e l))) ≡ fortran_do o e l
  unfolding read_fortran_do head_attributes get_named_item
  fortran_do-read f o e l h =
      let a = labelled z (head_attributes f (fortran_do o e l)) in
      rw
        (
          is_set-printed d "style" a o (pos 0) refl,
          is_set-printed d "end" a e (pos 0) refl,
          nonzero-int_or d z "elabel" a l.numeric h.0 (labels-elabel d z l),
          string_or-text d "slabel" a l.string h.1 (labels-slabel d z l),
        )
        refl

  module _ (l : EndLabels) (b : Option ℤ) where
    abbrev if_labels : Attrs
    if_labels =
        int_attribute "elabel" l.numeric
        ++ (int_attribute "ellabel" b ++ string_attribute "slabel" l.string)

    if-elabel : get_named_item "elabel" (labelled z if_labels) ≡ printed l.numeric
    if-elabel =
        in_first "elabel" _ _ (printed l.numeric)
          (in_first "elabel" _ _ (printed l.numeric) (int_attribute-at "elabel" l.numeric refl) (
            in_first "elabel" _ _ none (int_attribute-other "elabel" "ellabel" b refl)
              (string_attribute-other "elabel" "slabel" l.string refl)))
          (label_attribute-other "elabel" z refl)

    if-ellabel : get_named_item "ellabel" (labelled z if_labels) ≡ printed b
    if-ellabel =
        in_first "ellabel" _ _ (printed b)
          (in_second "ellabel" _ _ (printed b)
            (int_attribute-other "ellabel" "elabel" l.numeric refl)
            (in_first "ellabel" _ _ (printed b) (int_attribute-at "ellabel" b refl)
              (string_attribute-other "ellabel" "slabel" l.string refl)))
          (label_attribute-other "ellabel" z refl)

    if-slabel : get_named_item "slabel" (labelled z if_labels) ≡ text_or_none l.string
    if-slabel =
        in_first "slabel" _ _ (text_or_none l.string)
          (in_second "slabel" _ _ (text_or_none l.string)
            (int_attribute-other "slabel" "elabel" l.numeric refl)
            (in_second "slabel" _ _ (text_or_none l.string)
              (int_attribute-other "slabel" "ellabel" b refl)
              (string_attribute-at "slabel" l.string refl)))
          (label_attribute-other "slabel" z refl)

  if-read :
      (f e t : Bool) (b : Option ℤ) (l : EndLabels)
      → IsHead f (if_stmt e t b l)
      → read_if p (labelled z (head_attributes f (if_stmt e t b l))) ≡ if_stmt e t b l
  unfolding read_if head_attributes get_named_item get_int
  if-read f e t b l h =
      let a = labelled z (head_attributes f (if_stmt e t b l)) in
      let k : get_int p.decode p.tmp "ellabel" a ≡ b =
        get_int-printed d "ellabel" a b h.0 (if-ellabel l b) in
      let m : get_int p.decode p.tmp "elabel" a ≡ l.numeric =
        get_int-printed d "elabel" a l.numeric h.1.0 (if-elabel l b) in
      rw
        (
          is_set-printed d "end" a e (pos 1) refl,
          is_set-printed d "then" a t (pos 1) refl,
          k,
          m,
          string_or-text d "slabel" a l.string h.1.1 (if-slabel l b),
        )
        refl

  switch-read :
      (f : Bool) (l : EndLabels)
      → p.is_fortran ≡ f
      → IsHead f (switch_statement l)
      → read_switch p (labelled z (head_attributes f (switch_statement l))) ≡ switch_statement l
  unfolding read_switch head_attributes get_int
  switch-read true l e h =
      let a = labelled z (head_attributes true (switch_statement l)) in
      let k : get_int p.decode p.tmp "elabel" a ≡ l.numeric =
        get_int-printed d "elabel" a l.numeric h.0 (labels-elabel d z l) in
      let m = string_or-text d "slabel" a l.string h.1 (labels-slabel d z l) in
      let x : Head =
        switch_statement (record {
          numeric = get_int p.decode p.tmp "elabel" a;
          string = string_or p a "slabel";
        }) in
      ap (λ b. if b then x else switch_statement no_end) e ∙ rw (k, m) refl
  switch-read false l e h =
      let a = labelled z (head_attributes false (switch_statement l)) in
      let x : Head =
        switch_statement (record {
          numeric = get_int p.decode p.tmp "elabel" a;
          string = string_or p a "slabel";
        }) in
      ap (λ b. if b then x else switch_statement no_end) e
      ∙ (ap (λ (k : EndLabels). switch_statement k) (no_labels l h.0 h.1))

  where-slabel :
      (l : EndLabels)
      → get_named_item "slabel"
          (labelled z (string_attribute "slabel" l.string ++ int_attribute "elabel" l.numeric))
        ≡ text_or_none l.string
  where-slabel l =
      in_first "slabel" _ _ (text_or_none l.string)
        (in_first "slabel" _ _ (text_or_none l.string) (string_attribute-at "slabel" l.string refl)
          (int_attribute-other "slabel" "elabel" l.numeric refl))
        (label_attribute-other "slabel" z refl)

  where-read :
      (f e : Bool) (l : EndLabels)
      → IsHead f (where_statement e l)
      → read_where p (labelled z (head_attributes f (where_statement e l))) ≡ where_statement e l
  unfolding read_where head_attributes get_named_item
  where-read f e l h =
      let a = labelled z (head_attributes f (where_statement e l)) in
      rw
        (
          is_set-printed d "end" a e (pos 0) refl,
          string_or-text d "slabel" a l.string h.1 (where-slabel l),
          sym h.0,
        )
        refl

  -- The attributes of a while statement with either label.
  while-none :
      (l : EndLabels)
      → All IsPlain l.string
      → l.numeric ≡ none
      → (a : Attrs) → get_named_item "slabel" a ≡ some l.string
      → get_named_item "elabel" a ≡ none
      → while_labels (string_or p a "slabel") (int_or p a "elabel" (pos 0)) ≡ l
  unfolding string_or get_string int_or get_int while_labels
  while-none l k e a hs he =
      rw (string_or, get_string, hs, int_or, get_int, he, decode-plain d l.string k)
        (none-labels l.string refl)
    where
      none-labels : (t : Bytes) → l.string ≡ t → while_labels t (pos 0) ≡ l
      none-labels [] q = no_labels l e q
      none-labels (c ∷ t) q = λ i. record { numeric = sym e i; string = sym q i }

  while-some :
      (l : EndLabels) (v : ℤ)
      → IsInt v × (is_set v ≡ true)
      → l.numeric ≡ some v
      → l.string ≡ []
      → (a : Attrs) → get_named_item "slabel" a ≡ none
      → get_named_item "elabel" a ≡ some (print_int v)
      → while_labels (string_or p a "slabel") (int_or p a "elabel" (pos 0)) ≡ l
  unfolding string_or get_string while_labels
  while-some l v k e q a hs he =
      rw (string_or, get_string, hs, int_or-printed d "elabel" a v k.0 he, k.1)
        (λ i. record { numeric = sym e i; string = sym q i })

  module _ (e : Bool) (l : EndLabels) where
    while_labels-read :
        (v : Option ℤ)
        → l.numeric ≡ v
        → All IsPlain l.string
        → IsNonzero v
        → (l.numeric ≡ none) ⊎ IsEmpty l.string
        → (a : Attrs) → a ≡ labelled z (("end", print_bool e) ∷ while_label l)
        → while_labels (string_or p a "slabel") (int_or p a "elabel" (pos 0)) ≡ l
    unfolding while_label get_named_item
    while_labels-read none q k n c a r =
        let w : while_label l ≡ ("slabel", l.string) ∷ [] = rw (q) refl in
        let b = ap (λ u. labelled z (("end", print_bool e) ∷ u)) w in
        while-none l k q a (ap (get_named_item "slabel") (r ∙ b))
          (ap (get_named_item "elabel") (r ∙ b) ∙ label_attribute-other "elabel" z refl)
    while_labels-read (some v) q k n (inl c) a r = absurd (none-ne-some v (sym c ∙ q))
    while_labels-read (some v) q k n (inr c) a r =
        let w : while_label l ≡ ("elabel", print_int v) ∷ [] = rw (q) refl in
        let b = ap (λ u. labelled z (("end", print_bool e) ∷ u)) w in
        while-some l v n q c a
          (ap (get_named_item "slabel") (r ∙ b) ∙ label_attribute-other "slabel" z refl)
          (ap (get_named_item "elabel") (r ∙ b))

    while-read :
        (f : Bool)
        → p.is_fortran ≡ f
        → IsHead f (while_stmt e l)
        → read_while p (labelled z (head_attributes f (while_stmt e l))) ≡ while_stmt e l
    unfolding read_while head_attributes get_named_item
    while-read true q h =
        let a = labelled z (head_attributes true (while_stmt e l)) in
        let labels = while_labels (string_or p a "slabel") (int_or p a "elabel" (pos 0)) in
        ap
          (λ b.
            if b
            then while_stmt (is_set (int_or p a "end" (pos 0))) labels
            else while_stmt false no_end)
          q
        ∙ (ap (λ t. while_stmt t labels) (is_set-printed d "end" a e (pos 0) refl)
            ∙ ap (λ k. while_stmt e k) (while_labels-read l.numeric refl h.0 h.1.0 h.1.1 a refl))
    while-read false q h =
        let a = labelled z (head_attributes false (while_stmt e l)) in
        let labels = while_labels (string_or p a "slabel") (int_or p a "elabel" (pos 0)) in
        ap
          (λ b.
            if b
            then while_stmt (is_set (int_or p a "end" (pos 0))) labels
            else while_stmt false no_end)
          q
        ∙ (ap (λ t. while_stmt t no_end) (sym h.0)
            ∙ ap (λ k. while_stmt e k) (no_labels l h.1.0 h.1.1))

  -- A class comes back from the attributes that are written for it, with the labels and the names that
  -- it keeps there, those that are left out because they are empty included.
  pub reader_of-head_attributes :
      (h : Head)
      → IsHead p.is_fortran h
      → reader_of h p (head_attributes p.is_fortran h ++ label_attribute z) ≡ h
  unfolding reader_of head_attributes get_named_item
  reader_of-head_attributes (break_stmt l) h =
      ap (λ s. break_stmt s) (name-read d z "slabel" l refl refl h)
  reader_of-head_attributes (continue_stmt l) h =
      ap (λ s. continue_stmt s) (name-read d z "slabel" l refl refl h)
  reader_of-head_attributes (case_option_stmt c) h =
      ap (λ s. case_option_stmt s) (name-read d z "construct" c refl refl h)
  reader_of-head_attributes (default_option_stmt c) h =
      ap (λ s. default_option_stmt s) (name-read d z "construct" c refl refl h)
  reader_of-head_attributes (fortran_do o e l) h = fortran_do-read p.is_fortran o e l h
  reader_of-head_attributes (if_stmt e t b l) h = if-read p.is_fortran e t b l h
  reader_of-head_attributes (stop_or_pause_statement t) h =
      ap (λ s. stop_or_pause_statement s) (int_or-printed d "type" _ t h refl)
  reader_of-head_attributes (switch_statement l) h = switch-read p.is_fortran l refl h
  reader_of-head_attributes (where_statement e l) h = where-read p.is_fortran e l h
  reader_of-head_attributes (while_stmt e l) h = while-read e l p.is_fortran refl h
  reader_of-head_attributes _ h = refl
