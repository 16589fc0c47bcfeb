-- ===== src/Entity/RoundTrip.antt =====
-- `XmlEntity2Str` after `XmlStr2Entity`: which texts come back, and which do not.
use xevxml.Prelude.{
  ℕ, String, Bool, true, false, ◌&&◌, ◌∙◌, ◌||◌, Bytes, codes, [], ◌∷◌, ◌++◌, ◌==◌, if◌then◌else◌,
  ◌≡◌, ◌≢◌, refl, ap, arith, All, All-spell_all, spell_all,
}
use xevxml.Entity.{starts_with, str_to_entity, entity_to_str}
use xevxml.Entity.Replace.{scan, replace-scan}
use xevxml.Entity.Codec.{spell, str_to_entity-spell, scan_stage}

one_of : Bytes → ℕ → Bool
one_of [] c = false
one_of (b ∷ bs) c = c == b || one_of bs c

-- The spelling that is left when the entities of the bytes `done` have been read.
spelled : Bytes → ℕ → Bytes
unfolding one_of spell
spelled done c = if one_of done c then c ∷ [] else spell c

abbrev Stage : String → Bytes → Bytes → Bytes → Type 0
Stage p q done done' =
    (c : ℕ) (r : Bytes)
    → c ≢ b'&'
    → scan (codes p) q 0 (spelled done c ++ r) ≡ spelled done' c ++ scan (codes p) q 0 r

abbrev d1 : Bytes
d1 = b'<' ∷ []

abbrev d2 : Bytes
d2 = b'>' ∷ d1

abbrev d3 : Bytes
d3 = b'"' ∷ d2

abbrev d4 : Bytes
d4 = b'\'' ∷ d3

abbrev d5 : Bytes
d5 = 9 ∷ d4

abbrev d6 : Bytes
d6 = 10 ∷ d5

abbrev d7 : Bytes
d7 = 13 ∷ d6

Stage-amp : Stage "&amp;" (codes "&") [] []
unfolding scan starts_with spelled
Stage-amp c r h = ground arith

Stage-lt : Stage "&lt;" (codes "<") [] d1
unfolding scan starts_with spelled
Stage-lt c r h = ground arith

Stage-gt : Stage "&gt;" (codes ">") d1 d2
unfolding scan starts_with spelled
Stage-gt c r h = ground arith

Stage-quot : Stage "&quot;" (b'"' ∷ []) d2 d3
unfolding scan starts_with spelled
Stage-quot c r h = ground arith

Stage-apos : Stage "&apos;" (codes "'") d3 d4
unfolding scan starts_with spelled
Stage-apos c r h = ground arith

Stage-tab : Stage "&#009;" (9 ∷ []) d4 d5
unfolding scan starts_with spelled
Stage-tab c r h = ground arith

Stage-lf : Stage "&#010;" (10 ∷ []) d5 d6
unfolding scan starts_with spelled
Stage-lf c r h = ground arith

Stage-cr : Stage "&#013;" (13 ∷ []) d6 d7
unfolding scan starts_with spelled
Stage-cr c r h = ground arith

spelled-done : (c : ℕ) → c ≢ b'&' → spelled d7 c ≡ c ∷ []
unfolding spelled
spelled-done c h = ground arith

spell_all-done : (s : Bytes) → All (λ c. c ≢ b'&') s → spell_all (spelled d7) s ≡ s
unfolding spell_all
spell_all-done [] tt = refl
spell_all-done (c ∷ s) (h, hs) = rw (spelled-done c h) (ap (λ t. c ∷ t) (spell_all-done s hs))

str_to_entity-spelled : (s : Bytes) → str_to_entity s ≡ spell_all (spelled []) s
unfolding spelled
str_to_entity-spelled s = str_to_entity-spell s

-- A text that holds no ampersand is restored by `XmlEntity2Str` from what `XmlStr2Entity` wrote.
pub entity_to_str-str_to_entity :
    (s : Bytes) → All (λ c. c ≢ b'&') s → entity_to_str (str_to_entity s) ≡ s
unfolding entity_to_str
entity_to_str-str_to_entity s h =
    let amp = scan_stage (codes "&amp;") (codes "&") _ (spelled []) Stage-amp s h in
    let lt = scan_stage (codes "&lt;") (codes "<") (spelled []) (spelled d1) Stage-lt s h in
    let gt = scan_stage (codes "&gt;") (codes ">") (spelled d1) (spelled d2) Stage-gt s h in
    let quot = scan_stage (codes "&quot;") (b'"' ∷ []) (spelled d2) (spelled d3) Stage-quot s h in
    let apos = scan_stage (codes "&apos;") (codes "'") (spelled d3) (spelled d4) Stage-apos s h in
    let tab = scan_stage (codes "&#009;") (9 ∷ []) (spelled d4) (spelled d5) Stage-tab s h in
    let lf = scan_stage (codes "&#010;") (10 ∷ []) (spelled d5) (spelled d6) Stage-lf s h in
    let cr = scan_stage (codes "&#013;") (13 ∷ []) (spelled d6) (spelled d7) Stage-cr s h in
    rw (str_to_entity-spelled s)
      (simp replace-scan (rw (amp, lt, gt, quot, apos, tab, lf, cr) (spell_all-done s h)))

-- A text that begins with the four characters of the entity `&lt;` is not restored: they come back
-- as the single character `<`, whatever follows.
pub entity_to_str-str_to_entity_lt :
    (r : Bytes)
    → entity_to_str (str_to_entity (codes "&lt;" ++ r))
      ≡ codes "<" ++ entity_to_str (str_to_entity r)
unfolding entity_to_str
entity_to_str-str_to_entity_lt r =
    simp (str_to_entity-spell, replace-scan) (unfold scan starts_with spell_all spell in refl)

abbrev pub IsMarkupSafe : ℕ → Type 0
IsMarkupSafe c = (c ≢ b'<') × (c ≢ b'>') × (c ≢ b'"') × (c ≢ b'\'') × (c ≢ 9) × (c ≢ 10) × (c ≢ 13)

spell-IsMarkupSafe : (c : ℕ) → All IsMarkupSafe (spell c)
unfolding spell
spell-IsMarkupSafe c = ground arith

-- The text begins with one of the entities.
is_entity : Bytes → Bool
unfolding starts_with
is_entity s =
    starts_with (codes "&amp;") s
    || (starts_with (codes "&lt;") s
        || (starts_with (codes "&gt;") s
            || (starts_with (codes "&quot;") s
                || (starts_with (codes "&apos;") s
                    || (starts_with (codes "&#009;") s
                        || (starts_with (codes "&#010;") s || starts_with (codes "&#013;") s))))))

-- Each ampersand of the text begins an entity.
unfoldable pub is_escaped : Bytes → Bool
unfolding is_entity
is_escaped [] = true
is_escaped (c ∷ s) = (if c == b'&' then is_entity (c ∷ s) else true) && is_escaped s

is_escaped-spell : (c : ℕ) (r : Bytes) → is_escaped (spell c ++ r) ≡ is_escaped r
unfolding is_escaped is_entity spell starts_with
is_escaped-spell c r = ground arith

is_escaped-spell_all : (s : Bytes) → is_escaped (spell_all spell s) ≡ true
unfolding spell_all is_escaped
is_escaped-spell_all [] = refl
is_escaped-spell_all (c ∷ s) = is_escaped-spell c (spell_all spell s) ∙ is_escaped-spell_all s

-- What `XmlStr2Entity` writes holds no angle bracket, no quotation mark of either kind, no tab and no
-- end of line, and each ampersand in it begins one of the eight entities that it writes.
pub str_to_entity-IsMarkupSafe :
    (s : Bytes) → All IsMarkupSafe (str_to_entity s) × (is_escaped (str_to_entity s) ≡ true)
str_to_entity-IsMarkupSafe s = (
  rw str_to_entity-spell (All-spell_all IsMarkupSafe spell spell-IsMarkupSafe s),
  rw str_to_entity-spell (is_escaped-spell_all s),
)
