-- ===== src/Stream/RoundTrip.antt =====
-- Lemmas on the print of an `int` and of an `unsigned long`, and on what is read of it.
use xevxml.Prelude.{
  ℕ, zero, suc, ◌+◌, ◌*◌, ◌/◌, ◌%◌, ◌^◌, ◌≤◌, ◌<◌, Bool, true, false, Bytes, [], ◌∷◌, ◌≡◌, refl,
  ◌∙◌, arith,
}
use xevxml.Stream.{
  ℤ, pos, negsuc, int_max, digits, print_nat, print_int, print_bool, is_digit, is_space, skip_space,
  read_digits, positive, negative, read_signed, stream_int, is_set, read_unsigned, saturate,
  stream_ulong,
}

abbrev StartsWithDigit : Bytes → Type 0
StartsWithDigit [] = ⊥
StartsWithDigit (c ∷ s) = (b'0' ≤ c) × (c ≤ b'9')

-- A step of the reader at a digit.
read_digit :
    (d : ℕ) (s : Bytes) (n : ℕ)
    → d < 10
    → read_digits ((b'0' + d) ∷ s) n ≡ read_digits s (n * 10 + d)
unfolding read_digits is_digit
read_digit d s n h = ground arith

digits-read : (f n : ℕ) (out : Bytes) → n < f → read_digits (digits f n out) 0 ≡ read_digits out n
unfolding digits
digits-read zero n out h = absurd (omega arith)
digits-read (suc f) n out h = ground (
  arith,
  digits-read f (n / 10) ((b'0' + n % 10) ∷ out),
  read_digit n out 0,
  read_digit (n % 10) out (n / 10),
)

digits-StartsWithDigit : (f n : ℕ) (out : Bytes) → n < f → StartsWithDigit (digits f n out)
unfolding digits
digits-StartsWithDigit zero n out h = absurd (omega arith)
digits-StartsWithDigit (suc f) n out h =
    ground (arith, digits-StartsWithDigit f (n / 10) ((b'0' + n % 10) ∷ out))

skip_space-digit : (s : Bytes) → StartsWithDigit s → skip_space s ≡ s
unfolding skip_space is_space
skip_space-digit [] h = absurd h
skip_space-digit (c ∷ s) h = ground arith

read_signed-digit :
    (tmp : ℤ) (s : Bytes) → StartsWithDigit s → read_signed tmp s ≡ positive (read_digits s 0)
unfolding read_signed
read_signed-digit tmp [] h = absurd h
read_signed-digit tmp (c ∷ s) h = ground arith

skip_space-minus : (s : Bytes) → skip_space (b'-' ∷ s) ≡ b'-' ∷ s
unfolding skip_space is_space
skip_space-minus s = refl

print_nat-StartsWithDigit : (n : ℕ) → StartsWithDigit (print_nat n)
unfolding print_nat
print_nat-StartsWithDigit n = digits-StartsWithDigit (suc n) n [] (omega arith)

read_digits-print_nat : (n : ℕ) → read_digits (print_nat n) 0 ≡ n
unfolding print_nat
read_digits-print_nat n = digits-read (suc n) n [] (omega arith) ∙ (unfold read_digits in refl)

stream_int-pos : (tmp : ℤ) (n : ℕ) → n ≤ int_max → stream_int tmp (print_int (pos n)) ≡ pos n
unfolding print_int stream_int positive
stream_int-pos tmp n h =
    let d = print_nat-StartsWithDigit n in
    rw
      (
        skip_space-digit (print_nat n) d,
        read_signed-digit tmp (print_nat n) d,
        read_digits-print_nat n,
      )
      (ground arith)

stream_int-negsuc :
    (tmp : ℤ) (n : ℕ) → n ≤ int_max → stream_int tmp (print_int (negsuc n)) ≡ negsuc n
unfolding print_int stream_int read_signed negative
stream_int-negsuc tmp n h =
    rw (skip_space-minus (print_nat (suc n)), read_digits-print_nat (suc n)) (ground arith)

-- `z` is a value of the type `int`.
abbrev pub IsInt : ℤ → Type 0
IsInt (pos n) = n ≤ int_max
IsInt (negsuc n) = n ≤ int_max

-- Every `int` is read back from its decimal print, negative ones and the bounds included.
pub stream_int-print_int : (tmp z : ℤ) → IsInt z → stream_int tmp (print_int z) ≡ z
stream_int-print_int tmp (pos n) h = stream_int-pos tmp n h
stream_int-print_int tmp (negsuc n) h = stream_int-negsuc tmp n h

-- A flag that is printed is read back as the same truth value.
pub is_set-print_bool : (tmp : ℤ) (b : Bool) → is_set (stream_int tmp (print_bool b)) ≡ b
unfolding print_bool stream_int skip_space is_space read_signed read_digits is_digit positive
is_set-print_bool tmp true = refl
is_set-print_bool tmp false = refl

read_unsigned-digit :
    (tmp : ℕ) (s : Bytes) → StartsWithDigit s → read_unsigned tmp s ≡ saturate (read_digits s 0)
unfolding read_unsigned
read_unsigned-digit tmp [] h = absurd h
read_unsigned-digit tmp (c ∷ s) h = ground arith

-- Every `unsigned long` is read back from its print.
pub stream_ulong-print_nat : (tmp n : ℕ) → n < 2 ^ 64 → stream_ulong tmp (print_nat n) ≡ n
unfolding stream_ulong saturate
stream_ulong-print_nat tmp n h =
    let d = print_nat-StartsWithDigit n in
    rw
      (
        skip_space-digit (print_nat n) d,
        read_unsigned-digit tmp (print_nat n) d,
        read_digits-print_nat n,
      )
      (ground arith)
