-- ===== src/DataParsers/Text.antt =====
-- Round trips of the string conversions of DataParsers.cpp.
use more_modbus.Prelude.{
  ℕ, ◌+◌, ◌*◌, ◌%◌, ◌^◌, ◌<◌, ◌≡◌, refl, List, [], ◌∷◌, ◌++◌, ap, ◌∙◌, arith, All, length,
}
use more_modbus.Prelude.Int.{◌+ℤ◌, ◌*ℤ◌}
use more_modbus.DataParsers.{
  Endian, big, little, pack_chars, pack_bytes, ascii_pair, unicode_pair, ascii_of_register,
  unicode_of_register, ascii_string_to_registers, unicode_string_to_registers,
  registers_to_ascii_string, registers_to_unicode_string,
}

-- A character that is not NUL, in ASCII or in a byte.
abbrev pub IsAsciiChar : ℕ → Type 0
IsAsciiChar c = (0 < c) × (c < 2 ^ 7)

abbrev pub IsByteChar : ℕ → Type 0
IsByteChar c = (0 < c) × (c < 2 ^ 8)

pack_chars_lem :
    (high low : ℕ) → high < 2 ^ 7 → low < 2 ^ 7 → pack_chars high low ≡ high * 2 ^ 8 + low
unfolding pack_chars ◌+ℤ◌ ◌*ℤ◌
pack_chars_lem high low h l = ground arith

pack_bytes_lem :
    (high low : ℕ) → high < 2 ^ 8 → low < 2 ^ 8 → pack_bytes high low ≡ high * 2 ^ 8 + low
unfolding pack_bytes
pack_bytes_lem high low h l = omega arith

-- The text of a register with two characters, and of one with the padding of an odd string.
ascii_pair_lem :
    (endian : Endian) (a b : ℕ)
    → IsAsciiChar a
    → IsAsciiChar b
    → ascii_of_register endian (ascii_pair endian a b) ≡ a ∷ b ∷ []
unfolding ascii_of_register ascii_pair
ascii_pair_lem big a b ha hb = rw (pack_chars_lem a b ha.1 hb.1) (ground arith)
ascii_pair_lem little a b ha hb = rw (pack_chars_lem b a hb.1 ha.1) (ground arith)

ascii_last_big : (a : ℕ) → IsAsciiChar a → ascii_of_register big (ascii_pair big a 0) ≡ a ∷ []
unfolding ascii_of_register ascii_pair
ascii_last_big a ha = rw (pack_chars_lem a 0 ha.1 (omega arith)) (ground arith)

ascii_last_little :
    (a : ℕ) → IsAsciiChar a → ascii_of_register little (ascii_pair little a 0) ≡ 0 ∷ []
unfolding ascii_of_register ascii_pair
ascii_last_little a ha = rw (pack_chars_lem 0 a (omega arith) ha.1) (ground arith)

unicode_pair_lem :
    (endian : Endian) (a b : ℕ)
    → IsByteChar a
    → IsByteChar b
    → unicode_of_register endian (unicode_pair endian a b) ≡ a ∷ b ∷ []
unfolding unicode_of_register unicode_pair
unicode_pair_lem big a b ha hb = rw (pack_bytes_lem a b ha.1 hb.1) (ground arith)
unicode_pair_lem little a b ha hb = rw (pack_bytes_lem b a hb.1 ha.1) (ground arith)

unicode_last_big : (a : ℕ) → IsByteChar a → unicode_of_register big (unicode_pair big a 0) ≡ a ∷ []
unfolding unicode_of_register unicode_pair
unicode_last_big a ha = rw (pack_bytes_lem a 0 ha.1 (omega arith)) (ground arith)

unicode_last_little :
    (a : ℕ) → IsByteChar a → unicode_of_register little (unicode_pair little a 0) ≡ 0 ∷ []
unfolding unicode_of_register unicode_pair
unicode_last_little a ha = rw (pack_bytes_lem 0 a (omega arith) ha.1) (ground arith)

-- Big-endian registers give back every string of non-NUL ASCII characters, of any length.
pub ascii_big_round_trip :
    (value : List ℕ)
    → All IsAsciiChar value
    → registers_to_ascii_string (ascii_string_to_registers value big) big ≡ value
unfolding registers_to_ascii_string ascii_string_to_registers
ascii_big_round_trip [] h = refl
ascii_big_round_trip (a ∷ []) h = ap (λ t. t ++ []) (ascii_last_big a h.0)
ascii_big_round_trip (a ∷ b ∷ rest) h =
    rw (ascii_big_round_trip rest h.1.1) (ap (λ t. t ++ rest) (ascii_pair_lem big a b h.0 h.1.0))

-- Big-endian registers give back every string of non-NUL bytes, of any length.
pub unicode_big_round_trip :
    (value : List ℕ)
    → All IsByteChar value
    → registers_to_unicode_string (unicode_string_to_registers value big) big ≡ value
unfolding registers_to_unicode_string unicode_string_to_registers
unicode_big_round_trip [] h = refl
unicode_big_round_trip (a ∷ []) h = ap (λ t. t ++ []) (unicode_last_big a h.0)
unicode_big_round_trip (a ∷ b ∷ rest) h =
    rw (unicode_big_round_trip rest h.1.1)
      (ap (λ t. t ++ rest) (unicode_pair_lem big a b h.0 h.1.0))

-- What comes back from little-endian registers: a string of odd length loses its last character to
-- a NUL.
abbrev pub nul_if_odd : List ℕ → List ℕ
nul_if_odd [] = []
nul_if_odd (a ∷ []) = 0 ∷ []
nul_if_odd (a ∷ b ∷ rest) = a ∷ b ∷ nul_if_odd rest

pub ascii_little :
    (value : List ℕ)
    → All IsAsciiChar value
    → registers_to_ascii_string (ascii_string_to_registers value little) little ≡ nul_if_odd value
unfolding registers_to_ascii_string ascii_string_to_registers
ascii_little [] h = refl
ascii_little (a ∷ []) h = ap (λ t. t ++ []) (ascii_last_little a h.0)
ascii_little (a ∷ b ∷ rest) h =
    rw (ascii_little rest h.1.1)
      (ap (λ t. t ++ nul_if_odd rest) (ascii_pair_lem little a b h.0 h.1.0))

pub unicode_little :
    (value : List ℕ)
    → All IsByteChar value
    → registers_to_unicode_string (unicode_string_to_registers value little) little
      ≡ nul_if_odd value
unfolding registers_to_unicode_string unicode_string_to_registers
unicode_little [] h = refl
unicode_little (a ∷ []) h = ap (λ t. t ++ []) (unicode_last_little a h.0)
unicode_little (a ∷ b ∷ rest) h =
    rw (unicode_little rest h.1.1)
      (ap (λ t. t ++ nul_if_odd rest) (unicode_pair_lem little a b h.0 h.1.0))

pub nul_if_odd-even : (value : List ℕ) → length value % 2 ≡ 0 → nul_if_odd value ≡ value
nul_if_odd-even [] h = refl
nul_if_odd-even (a ∷ []) h = absurd (omega arith)
nul_if_odd-even (a ∷ b ∷ rest) h =
    ap (λ (t : List ℕ). a ∷ b ∷ t) (nul_if_odd-even rest (omega arith))

nul_if_odd-odd :
    (value : List ℕ) (c : ℕ)
    → length value % 2 ≡ 0
    → nul_if_odd (value ++ (c ∷ [])) ≡ value ++ (0 ∷ [])
nul_if_odd-odd [] c h = refl
nul_if_odd-odd (a ∷ []) c h = absurd (omega arith)
nul_if_odd-odd (a ∷ b ∷ rest) c h =
    ap (λ (t : List ℕ). a ∷ b ∷ t) (nul_if_odd-odd rest c (omega arith))

IsByteChar-of_ascii : (value : List ℕ) → All IsAsciiChar value → All IsByteChar value
IsByteChar-of_ascii [] h = tt
IsByteChar-of_ascii (a ∷ rest) h = ((h.0.0, omega arith), IsByteChar-of_ascii rest h.1)

-- Little-endian registers give back every string of non-NUL ASCII characters, if its length is
-- even, in the ASCII parsers and in the Unicode parsers.
pub ascii_little_round_trip :
    (value : List ℕ)
    → All IsAsciiChar value
    → length value % 2 ≡ 0
    → (registers_to_ascii_string (ascii_string_to_registers value little) little ≡ value)
      × (registers_to_unicode_string (unicode_string_to_registers value little) little ≡ value)
ascii_little_round_trip value h e = (
  ascii_little value h ∙ nul_if_odd-even value e,
  unicode_little value (IsByteChar-of_ascii value h) ∙ nul_if_odd-even value e,
)

-- After a string of even length one more character is lost to a NUL on the way through
-- little-endian registers, in both parsers, if all characters are non-NUL ASCII.
pub little_odd_loses_last :
    (value : List ℕ) (c : ℕ)
    → length value % 2 ≡ 0
    → All IsAsciiChar (value ++ (c ∷ []))
    → (registers_to_ascii_string (ascii_string_to_registers (value ++ (c ∷ [])) little) little
        ≡ value ++ (0 ∷ []))
      × (registers_to_unicode_string (unicode_string_to_registers (value ++ (c ∷ [])) little) little
          ≡ value ++ (0 ∷ []))
little_odd_loses_last value c e h =
    let lost = nul_if_odd-odd value c e in
    (
      ascii_little (value ++ (c ∷ [])) h ∙ lost,
      unicode_little (value ++ (c ∷ [])) (IsByteChar-of_ascii (value ++ (c ∷ [])) h) ∙ lost,
    )
