-- ===== src/Entity/Codec.antt =====
-- `XmlStr2Entity` writes each byte by itself, and `XmlEntity2Str` reads such a text back.
use xevxml.Prelude.{
  ℕ, String, Bytes, codes, [], ◌∷◌, ◌++◌, ◌==◌, if◌then◌else◌, ◌≡◌, ◌≢◌, refl, sym, ap, ◌∙◌, arith,
  append_assoc, All, spell_all,
}
use mathlib.Core.Path.{fun_ext}
use xevxml.Entity.{starts_with, str_to_entity}
use xevxml.Entity.Replace.{scan, scan-nil, replace-scan}

-- What `XmlStr2Entity` writes for one byte.
unfoldable pub spell : ℕ → Bytes
spell c =
    if c == b'&'
    then codes "&amp;"
    else if c == b'<'
    then codes "&lt;"
    else if c == b'>'
    then codes "&gt;"
    else if c == b'"'
    then codes "&quot;"
    else if c == b'\''
    then codes "&apos;"
    else if c == 9
    then codes "&#009;"
    else if c == 10
    then codes "&#010;"
    else if c == 13
    then codes "&#013;"
    else c ∷ []

-- One pass for a pattern of a single byte treats each byte by itself.
scan_byte-append :
    (b : ℕ) (q t r : Bytes)
    → scan (b ∷ []) q 0 (t ++ r) ≡ scan (b ∷ []) q 0 t ++ scan (b ∷ []) q 0 r
unfolding scan starts_with
scan_byte-append b q [] r = refl
scan_byte-append b q (c ∷ t) r =
    ground
      (arith, scan_byte-append b q t r, append_assoc q (scan (b ∷ []) q 0 t) (scan (b ∷ []) q 0 r))

scan-spell_all :
    (b : ℕ) (q : Bytes) (f : ℕ → Bytes) (s : Bytes)
    → scan (b ∷ []) q 0 (spell_all f s) ≡ spell_all (λ c. scan (b ∷ []) q 0 (f c)) s
unfolding spell_all scan
scan-spell_all b q f [] = refl
scan-spell_all b q f (c ∷ s) =
    scan_byte-append b q (f c) _ ∙ ap (λ t. scan (b ∷ []) q 0 (f c) ++ t) (scan-spell_all b q f s)

spell_all-singletons : (s : Bytes) → spell_all (λ c. c ∷ []) s ≡ s
unfolding spell_all
spell_all-singletons [] = refl
spell_all-singletons (c ∷ s) = ap (λ t. c ∷ t) (spell_all-singletons s)

abbrev stage : ℕ → String → Bytes → Bytes
stage b q = scan (b ∷ []) (codes q) 0

abbrev stages : Bytes → Bytes
stages t = stage 13 "&#013;" (
    stage 10 "&#010;" (
      stage 9 "&#009;" (
        stage b'\'' "&apos;"
          (stage b'"' "&quot;" (stage b'>' "&gt;" (stage b'<' "&lt;" (stage b'&' "&amp;" t)))))))

stages-spell : (c : ℕ) → stages (c ∷ []) ≡ spell c
unfolding scan starts_with spell
stages-spell c = ground arith

-- The eight replacements come to one table: every byte is written by itself.
pub str_to_entity-spell : (s : Bytes) → str_to_entity s ≡ spell_all spell s
unfolding str_to_entity
str_to_entity-spell s =
    let start = spell_all-singletons s in
    simp (replace-scan) (
      ap stages (sym start)
      ∙ simp (scan-spell_all) (ap (λ f. spell_all f s) (fun_ext stages-spell)))

-- One pass of `XmlEntity2Str` over bytes that are each spelled by `f` leaves them spelled by `g`.
module _ (p q : Bytes) (f g : ℕ → Bytes) where
  pub scan_stage :
      ((c : ℕ) (r : Bytes) → c ≢ b'&' → scan p q 0 (f c ++ r) ≡ g c ++ scan p q 0 r)
      → (s : Bytes) → All (λ c. c ≢ b'&') s
      → scan p q 0 (spell_all f s) ≡ spell_all g s
  unfolding spell_all
  scan_stage h [] tt = scan-nil p q 0
  scan_stage h (c ∷ s) (hc, hs) = h c (spell_all f s) hc ∙ ap (λ t. g c ++ t) (scan_stage h s hs)
