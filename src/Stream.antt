-- ===== src/Stream.antt =====
-- How the source prints and reads an `int` by a stringstream (`sstr() << n`, `str >> tmp` in
-- include/xmlutils.hpp). `int` has 32 bits; a value out of range is read as the nearest bound.
pub mod RoundTrip
use xevxml.Prelude.{
  ℕ, zero, suc, ◌+◌, ◌-◌, ◌*◌, ◌/◌, ◌%◌, ◌^◌, Bool, true, false, ◌&&◌, ◌||◌, Bytes, codes, [], ◌∷◌,
  ltb, leb, ◌==◌, if◌then◌else◌,
}

-- `negsuc n` is -(n + 1).
pub data ℤ : Type 0 where
  pos : ℕ → ℤ
  negsuc : ℕ → ℤ

-- The largest `int`.
abbrev pub int_max : ℕ
int_max = 2 ^ 31 - 1

-- The decimal digits of `n` in front of `out`.
unfoldable pub digits : ℕ → ℕ → Bytes → Bytes
digits zero n out = out
digits (suc f) n out =
    let rest = digits f (n / 10) ((b'0' + n % 10) ∷ out) in
    if ltb n 10 then (b'0' + n) ∷ out else rest

-- A number has no more digits than its value.
unfoldable pub print_nat : ℕ → Bytes
print_nat n = digits (suc n) n []

unfoldable pub print_int : ℤ → Bytes
print_int (pos n) = print_nat n
print_int (negsuc n) = b'-' ∷ print_nat (suc n)

-- A `bool` is printed as 0 or 1.
unfoldable pub print_bool : Bool → Bytes
print_bool true = codes "1"
print_bool false = codes "0"

unfoldable pub is_digit : ℕ → Bool
is_digit c = leb b'0' c && leb c b'9'

-- `isspace` in the C locale.
unfoldable pub is_space : ℕ → Bool
is_space c = c == b' ' || (leb 9 c && leb c 13)

unfoldable pub skip_space : Bytes → Bytes
skip_space [] = []
skip_space (c ∷ s) = elim (is_space c) [ true ↦ skip_space s | false ↦ c ∷ s ]

-- The value of the digits at the front of the text, behind those already read.
unfoldable pub read_digits : Bytes → ℕ → ℕ
read_digits [] n = n
read_digits (c ∷ s) n = elim (is_digit c) [ true ↦ read_digits s (n * 10 + (c - b'0')) | false ↦ n ]

unfoldable pub positive : ℕ → ℤ
positive n = if leb n int_max then pos n else pos int_max

unfoldable pub negative : ℕ → ℤ
negative zero = pos 0
negative (suc n) = if leb n int_max then negsuc n else negsuc int_max

unfoldable pub read_signed : ℤ → Bytes → ℤ
read_signed tmp [] = tmp
read_signed tmp (c ∷ s) =
    if c == b'-'
    then negative (read_digits s 0)
    else if c == b'+'
    then positive (read_digits s 0)
    else positive (read_digits (c ∷ s) 0)

-- `str >> tmp` at `int`: at the end of the text, `tmp` keeps the value that it has.
unfoldable pub stream_int : ℤ → Bytes → ℤ
stream_int tmp s = read_signed tmp (skip_space s)

-- An `int` used as a condition, or handed to a `bool` parameter.
abbrev pub is_set : ℤ → Bool
is_set (pos zero) = false
is_set (pos (suc n)) = true
is_set (negsuc n) = true

-- `str >> tmp` at `unsigned long`, of 64 bits: a minus sign negates modulo the word.
unfoldable pub saturate : ℕ → ℕ
saturate n = if ltb n (2 ^ 64) then n else 2 ^ 64 - 1

unfoldable pub negate : ℕ → ℕ
negate n = if ltb n (2 ^ 64) then (2 ^ 64 - n) % 2 ^ 64 else 2 ^ 64 - 1

unfoldable pub read_unsigned : ℕ → Bytes → ℕ
read_unsigned tmp [] = tmp
read_unsigned tmp (c ∷ s) =
    if c == b'-'
    then negate (read_digits s 0)
    else if c == b'+'
    then saturate (read_digits s 0)
    else saturate (read_digits (c ∷ s) 0)

unfoldable pub stream_ulong : ℕ → Bytes → ℕ
stream_ulong tmp s = read_unsigned tmp (skip_space s)
