-- ===== src/Examples/Texts.antt =====
-- The theorems on texts, numbers and names at concrete inputs.
use xevxml.Prelude.{true, ◌≡◌, ◌++◌, arith, codes, All, spell_all}
use xevxml.Entity.{replace, str_to_entity, entity_to_str}
use xevxml.Entity.Replace.{scan, replace-scan}
use xevxml.Entity.Codec.{spell, str_to_entity-spell}
use xevxml.Entity.RoundTrip.{
  entity_to_str-str_to_entity, entity_to_str-str_to_entity_lt, IsMarkupSafe, is_escaped,
  str_to_entity-IsMarkupSafe,
}

entity_to_str-str_to_entity_example : entity_to_str (str_to_entity (codes "a<b")) ≡ codes "a<b"
entity_to_str-str_to_entity_example = entity_to_str-str_to_entity (codes "a<b") (ground arith)

entity_to_str-str_to_entity_lt_example :
    entity_to_str (str_to_entity (codes "&lt;" ++ codes "="))
    ≡ codes "<" ++ entity_to_str (str_to_entity (codes "="))
entity_to_str-str_to_entity_lt_example = entity_to_str-str_to_entity_lt (codes "=")

str_to_entity-IsMarkupSafe_example :
    All IsMarkupSafe (str_to_entity (codes "a<b>c"))
    × (is_escaped (str_to_entity (codes "a<b>c")) ≡ true)
str_to_entity-IsMarkupSafe_example = str_to_entity-IsMarkupSafe (codes "a<b>c")

replace-scan_example :
    replace (codes "aabaa") (codes "aa") (codes "aaa")
    ≡ scan (codes "aa") (codes "aaa") 0 (codes "aabaa")
replace-scan_example = replace-scan b'a' (codes "a") (codes "aaa") (codes "aabaa")

str_to_entity-spell_example : str_to_entity (codes "a&b") ≡ spell_all spell (codes "a&b")
str_to_entity-spell_example = str_to_entity-spell (codes "a&b")
