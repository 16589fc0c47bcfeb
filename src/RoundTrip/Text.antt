-- ===== src/RoundTrip/Text.antt =====
-- Texts that survive the way through an attribute.
use xevxml.Prelude.{
  ℕ, zero, suc, ◌+◌, ◌/◌, ◌%◌, ◌≤◌, ◌≡◌, refl, sym, ap, ◌∙◌, ◌≢◌, Bool, true, false, ◌||◌, List, [],
  ◌∷◌, arith, leb, ◌==◌, Bytes, All, spell_all,
}
use xevxml.Stream.{ℤ, digits, print_nat, print_int, print_bool, pos, negsuc}
use xevxml.Entity.{str_to_entity, entity_to_str}
use xevxml.Entity.Codec.{spell, str_to_entity-spell}
use xevxml.Entity.RoundTrip.{entity_to_str-str_to_entity}
use xevxml.Platform.{Platform}

-- A character that an XML document can hold.
abbrev pub IsXmlChar : ℕ → Type 0
IsXmlChar c = (leb 32 c || (c == 9 || (c == 10 || c == 13))) ≡ true

-- A character that has no entity.
abbrev pub IsPlain : ℕ → Type 0
IsPlain c = (32 ≤ c) × (c ≢ b'&') × (c ≢ b'<') × (c ≢ b'>') × (c ≢ b'"') × (c ≢ b'\'')

-- The XML parser reads entity references as the characters that they stand for.
pub record DecodesEntities (p : Platform) : Type 0 where
  pub at : (s : Bytes) → All IsXmlChar s → p.decode (str_to_entity s) ≡ s

-- A text without anything that reads as an entity.
pub record IsRestorable (s : Bytes) : Type 0 where
  pub chars : All IsXmlChar s
  pub no_entity : entity_to_str s ≡ s

All-map {ℓ κ} :
    {A : Type 0} {P : A → Type ℓ} {Q : A → Type κ}
    → ((a : A) → P a → Q a)
    → (xs : List A) → All P xs
    → All Q xs
All-map f [] h = tt
All-map f (x ∷ xs) (h, hs) = (f x h, All-map f xs hs)

spell-plain : (c : ℕ) → IsPlain c → spell c ≡ c ∷ []
unfolding spell
spell-plain c h = ground arith

spell_all-plain : (s : Bytes) → All IsPlain s → spell_all spell s ≡ s
unfolding spell_all
spell_all-plain [] tt = refl
spell_all-plain (c ∷ s) (h, hs) = rw (spell-plain c h) (ap (λ t. c ∷ t) (spell_all-plain s hs))

pub str_to_entity-plain : (s : Bytes) → All IsPlain s → str_to_entity s ≡ s
str_to_entity-plain s h = str_to_entity-spell s ∙ spell_all-plain s h

pub entity_to_str-plain : (s : Bytes) → All IsPlain s → entity_to_str s ≡ s
entity_to_str-plain s h =
    ap entity_to_str (sym (str_to_entity-plain s h))
    ∙ entity_to_str-str_to_entity s (All-map (λ c (k : IsPlain c). k.1) s h)

module _ {p : Platform} (d : DecodesEntities p) where
  pub decode-plain : (s : Bytes) → All IsPlain s → p.decode s ≡ s
  decode-plain s h =
      ap p.decode (sym (str_to_entity-plain s h))
      ∙ d.at s (All-map (λ c (k : IsPlain c). ground arith) s h)

  pub decode-restorable :
      (s : Bytes) → IsRestorable s → entity_to_str (p.decode (str_to_entity s)) ≡ s
  decode-restorable s h = rw (d.at s h.chars) h.no_entity

digits-IsPlain : (f n : ℕ) (out : Bytes) → All IsPlain out → All IsPlain (digits f n out)
unfolding digits
digits-IsPlain zero n out h = h
digits-IsPlain (suc f) n out h = ground (arith, digits-IsPlain f (n / 10) ((b'0' + n % 10) ∷ out))

pub print_nat-IsPlain : (n : ℕ) → All IsPlain (print_nat n)
unfolding print_nat
print_nat-IsPlain n = digits-IsPlain (suc n) n [] tt

pub print_int-IsPlain : (z : ℤ) → All IsPlain (print_int z)
unfolding print_int
print_int-IsPlain (pos n) = print_nat-IsPlain n
print_int-IsPlain (negsuc n) = (omega arith, print_nat-IsPlain (suc n))

pub print_bool-IsPlain : (b : Bool) → All IsPlain (print_bool b)
unfolding print_bool
print_bool-IsPlain true = omega arith
print_bool-IsPlain false = omega arith
