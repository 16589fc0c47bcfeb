-- ===== src/Statement/Text.antt =====
-- Text between statements: which of its lines are kept (`traverseStatementsAndTexts` of src/stmt.cpp).
use xevxml.Prelude.{
  ℕ, ◌≡◌, refl, sym, ap, ◌∙◌, inl, inr, Bool, true, false, not, ◌&&◌, ◌||◌, [], ◌∷◌, ◌++◌,
  append_assoc, append-nil, arith, leb, ◌==◌, if◌then◌else◌, Bool-cases, Bytes,
}

-- `isspace`
abbrev pub is_blank : ℕ → Bool
is_blank c = c == 32 || (leb 9 c && leb c 13)

abbrev newline : ℕ
newline = 10

-- The loop over the characters, with the line so far and whether it holds anything but white space.
unfoldable pub kept_from : Bytes → Bytes → Bool → Bytes
kept_from [] line flag = if flag then line else []
kept_from (c ∷ s) line flag =
    let seen = flag || not (is_blank c) in
    let whole = line ++ c ∷ [] in
    let next = kept_from s [] false in
    let more = kept_from s whole seen in
    if c == newline then (if seen then whole ++ next else next) else more

-- The lines that hold anything but white space.
unfoldable pub kept_lines : Bytes → Bytes
unfolding kept_from
kept_lines s = kept_from s [] false

unfoldable pub visible : Bytes → Bytes
visible [] = []
visible (c ∷ s) = if is_blank c then visible s else c ∷ visible s

visible-append : (a b : Bytes) → visible (a ++ b) ≡ visible a ++ visible b
unfolding visible
visible-append [] b = refl
visible-append (c ∷ a) b = let h = visible-append a b in ground arith

visible-whole :
    (c : ℕ) (s line : Bytes)
    → visible (line ++ c ∷ []) ++ visible s ≡ visible line ++ visible (c ∷ s)
visible-whole c s line =
    sym (visible-append (line ++ c ∷ []) s)
    ∙ (ap visible (append_assoc line (c ∷ []) s) ∙ visible-append line (c ∷ s))

blank-whole :
    (c : ℕ) (line : Bytes) (flag : Bool)
    → (flag ≡ false → visible line ≡ [])
    → (flag || not (is_blank c)) ≡ false
    → visible (line ++ c ∷ []) ≡ []
unfolding visible
blank-whole c line flag h k =
    let f : flag ≡ false = ground arith in
    let b : is_blank c ≡ true = ground arith in visible-append line (c ∷ []) ∙ rw (h f, b) refl

visible-kept_from :
    (s line : Bytes) (flag : Bool)
    → (flag ≡ false → visible line ≡ [])
    → visible (kept_from s line flag) ≡ visible line ++ visible s
unfolding kept_from visible
visible-kept_from [] line flag h = elim (Bool-cases flag) [
  | inl q ↦ rw (q) (sym (append-nil (visible line)))
  | inr q ↦ rw (q, h q) refl
]
visible-kept_from (c ∷ s) line flag h =
    let next = visible-kept_from s [] false (λ k. refl) in
    let whole = visible-whole c s line in
    let more =
      visible-kept_from s (line ++ c ∷ []) (flag || not (is_blank c)) (blank-whole c line flag h) in
    elim (Bool-cases (c == newline)) [
      | inr n ↦ rw (n) (more ∙ whole)
      | inl n ↦ elim (Bool-cases (flag || not (is_blank c))) [
        | inl q ↦ rw (n, q, visible-append (line ++ c ∷ []) (kept_from s [] false), next) whole
        | inr q ↦
            rw (n, q)
              (next ∙ (sym (ap (λ v. v ++ visible s) (blank-whole c line flag h q)) ∙ whole))
      ]
    ]

-- Only white space is dropped: the characters that can be seen are kept, in their order.
pub visible-kept_lines : (s : Bytes) → visible (kept_lines s) ≡ visible s
unfolding kept_lines visible
visible-kept_lines s = visible-kept_from s [] false (λ h. refl)
