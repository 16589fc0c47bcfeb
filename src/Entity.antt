-- ===== src/Entity.antt =====
-- XML entities: `REPLACE`, `XmlStr2Entity` and `XmlEntity2Str` of src/xmlutils.cpp.
pub mod Replace
pub mod Codec
pub mod RoundTrip
use xevxml.Prelude.{
  ℕ, zero, suc, ◌+◌, Bool, true, false, ◌&&◌, Bytes, codes, [], ◌∷◌, ◌++◌, Option, none, some, ◌==◌,
  length, take, drop, if◌then◌else◌, ◌≡◌, refl,
}

-- The bytes of `p` stand at the front of `s`.
unfoldable pub starts_with : Bytes → Bytes → Bool
starts_with [] s = true
starts_with (b ∷ p) [] = false
starts_with (b ∷ p) (c ∷ s) = b == c && starts_with p s

-- `std::string::find`: the first position from `i` on at which `p` stands, where `s` begins at `i`.
unfoldable pub find_at : Bytes → Bytes → ℕ → Option ℕ
find_at p [] i = if starts_with p [] then some i else none
find_at p (c ∷ s) i = elim (starts_with p (c ∷ s)) [ true ↦ some i | false ↦ find_at p s (i + 1) ]

unfoldable pub find : Bytes → Bytes → ℕ → Option ℕ
find p s pos = find_at p (drop pos s) pos

-- `std::string::replace`
unfoldable pub replace_range : Bytes → ℕ → ℕ → Bytes → Bytes
replace_range s pos n new = take pos s ++ (new ++ drop (pos + n) s)

-- The `while` loop of `REPLACE`; `none` means that the fuel ran out.
unfoldable pub replace_loop : ℕ → Bytes → Bytes → Bytes → Option ℕ → Option Bytes
replace_loop zero str1 str2 str3 pos = none
replace_loop (suc f) str1 str2 str3 none = some str1
replace_loop (suc f) str1 str2 str3 (some pos) =
    let next = replace_range str1 pos (length str2) str3 in
    replace_loop f next str2 str3 (find str2 next (pos + length str3))

-- A round consumes a byte of the text at least, so one more unit of fuel than bytes is enough.
unfoldable pub replace : Bytes → Bytes → Bytes → Bytes
replace str1 str2 str3 = elim (replace_loop (suc (length str1)) str1 str2 str3 (find str2 str1 0)) [
  | none ↦ str1
  | some r ↦ r
]

unfoldable pub str_to_entity : Bytes → Bytes
str_to_entity s =
    let a = replace s (codes "&") (codes "&amp;") in
    let b = replace a (codes "<") (codes "&lt;") in
    let c = replace b (codes ">") (codes "&gt;") in
    let d = replace c (b'"' ∷ []) (codes "&quot;") in
    let e = replace d (codes "'") (codes "&apos;") in
    let f = replace e (9 ∷ []) (codes "&#009;") in
    let g = replace f (10 ∷ []) (codes "&#010;") in replace g (13 ∷ []) (codes "&#013;")

unfoldable pub entity_to_str : Bytes → Bytes
entity_to_str s =
    let a = replace s (codes "&amp;") (codes "&") in
    let b = replace a (codes "&lt;") (codes "<") in
    let c = replace b (codes "&gt;") (codes ">") in
    let d = replace c (codes "&quot;") (b'"' ∷ []) in
    let e = replace d (codes "&apos;") (codes "'") in
    let f = replace e (codes "&#009;") (9 ∷ []) in
    let g = replace f (codes "&#010;") (10 ∷ []) in replace g (codes "&#013;") (13 ∷ [])
