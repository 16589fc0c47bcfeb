-- ===== src/Examples/Parser.antt =====
-- An XML parser's reading of entity references and of the text around them, in one pass.
use xevxml.Prelude.{
  ℕ, zero, suc, ◌≡◌, refl, ap, ◌∙◌, [], ◌∷◌, ◌++◌, arith, if◌then◌else◌, Bytes, codes, spell_all,
}
use xevxml.Entity.{starts_with, str_to_entity}
use xevxml.Entity.Codec.{spell, str_to_entity-spell}

-- The number of characters that are still to be skipped, and the text.
decode_from : ℕ → Bytes → Bytes
unfolding starts_with
decode_from skip [] = []
decode_from (suc skip) (c ∷ s) = decode_from skip s
decode_from zero (c ∷ s) =
    if starts_with (codes "&amp;") (c ∷ s)
    then b'&' ∷ decode_from 4 s
    else if starts_with (codes "&lt;") (c ∷ s)
    then b'<' ∷ decode_from 3 s
    else if starts_with (codes "&gt;") (c ∷ s)
    then b'>' ∷ decode_from 3 s
    else if starts_with (codes "&quot;") (c ∷ s)
    then b'"' ∷ decode_from 5 s
    else if starts_with (codes "&apos;") (c ∷ s)
    then b'\'' ∷ decode_from 5 s
    else if starts_with (codes "&#009;") (c ∷ s)
    then 9 ∷ decode_from 5 s
    else if starts_with (codes "&#010;") (c ∷ s)
    then 10 ∷ decode_from 5 s
    else if starts_with (codes "&#013;") (c ∷ s)
    then 13 ∷ decode_from 5 s
    else c ∷ decode_from 0 s

unfoldable pub decode_entities : Bytes → Bytes
unfolding decode_from
decode_entities s = decode_from 0 s

decode_from-spell : (c : ℕ) (s : Bytes) → decode_from 0 (spell c ++ s) ≡ c ∷ decode_from 0 s
unfolding decode_from spell starts_with
decode_from-spell c s = ground arith

decode_from-spell_all : (s : Bytes) → decode_from 0 (spell_all spell s) ≡ s
unfolding spell_all decode_from
decode_from-spell_all [] = refl
decode_from-spell_all (c ∷ s) =
    decode_from-spell c (spell_all spell s) ∙ ap (λ t. c ∷ t) (decode_from-spell_all s)

pub decode_entities-str_to_entity : (s : Bytes) → decode_entities (str_to_entity s) ≡ s
unfolding decode_entities
decode_entities-str_to_entity s =
    ap (decode_from 0) (str_to_entity-spell s) ∙ decode_from-spell_all s
