-- ===== src/Statement/Io/Names.antt =====
-- What the table of attributes gives: every name is found, and two attributes are told apart by their
-- places.
use xevxml.Prelude.{
  ℕ, zero, suc, ◌≡◌, refl, sym, ap, ◌∙◌, true, Bool, some, All, Bytes, List, [], ◌∷◌, ◌&&◌, not,
  leb, ◌==◌, codes, arith, ==_iff,
}
use xevxml.Statement.Io.Kinds.{
  IoAttrib, enumerator, same_attrib, attrib_name, find_attrib, io_attribs, io_attrib, io_fmt,
  io_iolength, io_unit, io_iostat, io_err, io_iomsg, io_file, io_access, io_form, io_recl, io_blank,
  io_exist, io_opened, io_number, io_named, io_name, io_sequential, io_direct, io_formatted,
  io_unformatted, io_nextrec, io_position, io_action, io_read, io_write, io_readwrite, io_delim,
  io_pad, io_asynchronous, io_decimal, io_stream, io_size, io_pending, io_status, io_round, io_sign,
  io_advance, io_rec, io_end, io_eor, io_nml,
}
use xevxml.Write.Attributes.{same_bytes}
use xevxml.RoundTrip.Text.{IsPlain}

-- Each attribute is found under its own name.
pub io_attrib-attrib_name : (a : IoAttrib) → io_attrib (codes (attrib_name a)) ≡ some a
unfolding io_attrib find_attrib attrib_name same_bytes
io_attrib-attrib_name io_fmt = refl
io_attrib-attrib_name io_iolength = refl
io_attrib-attrib_name io_unit = refl
io_attrib-attrib_name io_iostat = refl
io_attrib-attrib_name io_err = refl
io_attrib-attrib_name io_iomsg = refl
io_attrib-attrib_name io_file = refl
io_attrib-attrib_name io_access = refl
io_attrib-attrib_name io_form = refl
io_attrib-attrib_name io_recl = refl
io_attrib-attrib_name io_blank = refl
io_attrib-attrib_name io_exist = refl
io_attrib-attrib_name io_opened = refl
io_attrib-attrib_name io_number = refl
io_attrib-attrib_name io_named = refl
io_attrib-attrib_name io_name = refl
io_attrib-attrib_name io_sequential = refl
io_attrib-attrib_name io_direct = refl
io_attrib-attrib_name io_formatted = refl
io_attrib-attrib_name io_unformatted = refl
io_attrib-attrib_name io_nextrec = refl
io_attrib-attrib_name io_position = refl
io_attrib-attrib_name io_action = refl
io_attrib-attrib_name io_read = refl
io_attrib-attrib_name io_write = refl
io_attrib-attrib_name io_readwrite = refl
io_attrib-attrib_name io_delim = refl
io_attrib-attrib_name io_pad = refl
io_attrib-attrib_name io_asynchronous = refl
io_attrib-attrib_name io_decimal = refl
io_attrib-attrib_name io_stream = refl
io_attrib-attrib_name io_size = refl
io_attrib-attrib_name io_pending = refl
io_attrib-attrib_name io_status = refl
io_attrib-attrib_name io_round = refl
io_attrib-attrib_name io_sign = refl
io_attrib-attrib_name io_advance = refl
io_attrib-attrib_name io_rec = refl
io_attrib-attrib_name io_end = refl
io_attrib-attrib_name io_eor = refl
io_attrib-attrib_name io_nml = refl

unfoldable attrib_at : List IoAttrib → ℕ → IoAttrib
attrib_at [] n = io_nml
attrib_at (a ∷ others) zero = a
attrib_at (a ∷ others) (suc n) = attrib_at others n

attrib_at-enumerator : (a : IoAttrib) → attrib_at io_attribs (enumerator a) ≡ a
unfolding attrib_at enumerator
attrib_at-enumerator io_fmt = refl
attrib_at-enumerator io_iolength = refl
attrib_at-enumerator io_unit = refl
attrib_at-enumerator io_iostat = refl
attrib_at-enumerator io_err = refl
attrib_at-enumerator io_iomsg = refl
attrib_at-enumerator io_file = refl
attrib_at-enumerator io_access = refl
attrib_at-enumerator io_form = refl
attrib_at-enumerator io_recl = refl
attrib_at-enumerator io_blank = refl
attrib_at-enumerator io_exist = refl
attrib_at-enumerator io_opened = refl
attrib_at-enumerator io_number = refl
attrib_at-enumerator io_named = refl
attrib_at-enumerator io_name = refl
attrib_at-enumerator io_sequential = refl
attrib_at-enumerator io_direct = refl
attrib_at-enumerator io_formatted = refl
attrib_at-enumerator io_unformatted = refl
attrib_at-enumerator io_nextrec = refl
attrib_at-enumerator io_position = refl
attrib_at-enumerator io_action = refl
attrib_at-enumerator io_read = refl
attrib_at-enumerator io_write = refl
attrib_at-enumerator io_readwrite = refl
attrib_at-enumerator io_delim = refl
attrib_at-enumerator io_pad = refl
attrib_at-enumerator io_asynchronous = refl
attrib_at-enumerator io_decimal = refl
attrib_at-enumerator io_stream = refl
attrib_at-enumerator io_size = refl
attrib_at-enumerator io_pending = refl
attrib_at-enumerator io_status = refl
attrib_at-enumerator io_round = refl
attrib_at-enumerator io_sign = refl
attrib_at-enumerator io_advance = refl
attrib_at-enumerator io_rec = refl
attrib_at-enumerator io_end = refl
attrib_at-enumerator io_eor = refl
attrib_at-enumerator io_nml = refl

pub same_attrib-eq : (a b : IoAttrib) → same_attrib a b ≡ true → a ≡ b
same_attrib-eq a b h =
    sym (attrib_at-enumerator a)
    ∙ (ap (attrib_at io_attribs) ((==_iff (enumerator a) (enumerator b)).0 h)
        ∙ attrib_at-enumerator b)

pub same_attrib_refl : (a : IoAttrib) → same_attrib a a ≡ true
same_attrib_refl a = (==_iff (enumerator a) (enumerator a)).1 refl

abbrev pub is_plain : ℕ → Bool
is_plain c =
    leb 32 c
    && (not (c == b'&')
        && (not (c == b'<') && (not (c == b'>') && (not (c == b'"') && not (c == b'\'')))))

abbrev pub all_plain : Bytes → Bool
all_plain [] = true
all_plain (c ∷ s) = is_plain c && all_plain s

pub all_plain-All : (s : Bytes) → all_plain s ≡ true → All IsPlain s
all_plain-All [] h = tt
all_plain-All (c ∷ s) h =
    let k : (is_plain c ≡ true) × (all_plain s ≡ true) = ground arith in
    (ground arith, all_plain-All s k.1)

attrib_name-all_plain : (a : IoAttrib) → all_plain (codes (attrib_name a)) ≡ true
unfolding attrib_name
attrib_name-all_plain io_fmt = refl
attrib_name-all_plain io_iolength = refl
attrib_name-all_plain io_unit = refl
attrib_name-all_plain io_iostat = refl
attrib_name-all_plain io_err = refl
attrib_name-all_plain io_iomsg = refl
attrib_name-all_plain io_file = refl
attrib_name-all_plain io_access = refl
attrib_name-all_plain io_form = refl
attrib_name-all_plain io_recl = refl
attrib_name-all_plain io_blank = refl
attrib_name-all_plain io_exist = refl
attrib_name-all_plain io_opened = refl
attrib_name-all_plain io_number = refl
attrib_name-all_plain io_named = refl
attrib_name-all_plain io_name = refl
attrib_name-all_plain io_sequential = refl
attrib_name-all_plain io_direct = refl
attrib_name-all_plain io_formatted = refl
attrib_name-all_plain io_unformatted = refl
attrib_name-all_plain io_nextrec = refl
attrib_name-all_plain io_position = refl
attrib_name-all_plain io_action = refl
attrib_name-all_plain io_read = refl
attrib_name-all_plain io_write = refl
attrib_name-all_plain io_readwrite = refl
attrib_name-all_plain io_delim = refl
attrib_name-all_plain io_pad = refl
attrib_name-all_plain io_asynchronous = refl
attrib_name-all_plain io_decimal = refl
attrib_name-all_plain io_stream = refl
attrib_name-all_plain io_size = refl
attrib_name-all_plain io_pending = refl
attrib_name-all_plain io_status = refl
attrib_name-all_plain io_round = refl
attrib_name-all_plain io_sign = refl
attrib_name-all_plain io_advance = refl
attrib_name-all_plain io_rec = refl
attrib_name-all_plain io_end = refl
attrib_name-all_plain io_eor = refl
attrib_name-all_plain io_nml = refl

pub attrib_name-IsPlain : (a : IoAttrib) → All IsPlain (codes (attrib_name a))
attrib_name-IsPlain a = all_plain-All (codes (attrib_name a)) (attrib_name-all_plain a)
