-- ===== src/DataParsers.antt =====
-- more_modbus/utilities/DataParsers.{h,cpp}: values to registers and back. A `uint8_t`, `uint16_t`
-- or `uint32_t` is a number below 2 ^ 8, 2 ^ 16 or 2 ^ 32, a signed value a ℤ, a `std::string` the
-- list of its bytes, and a `float` its 32-bit pattern, which the code only moves.
pub mod Words
pub mod Text
pub mod BitSet
use Prim.Native.Nat.{bit_or}
use more_modbus.Prelude.{
  ℕ, zero, suc, ◌+◌, ◌-◌, ◌*◌, ◌/◌, ◌%◌, ◌^◌, Bool, List, [], ◌∷◌, ◌++◌, Result, ok, err,
  logic_error, ◌>>=◌, ltb, ◌==◌, if◌then◌else◌,
}
use more_modbus.Prelude.Int.{ℤ, pos, negsuc, ◌+ℤ◌, ◌*ℤ◌, mod_ℤ}

pub data Endian : Type 0 where
  big little : Endian

-- Conversions between `char` (signed), `int16_t`, `int32_t` and the unsigned types.
abbrev pub to_signed_char : ℕ → ℤ
to_signed_char b = if ltb b (2 ^ 7) then pos b else negsuc (2 ^ 8 - 1 - b)

unfoldable pub uint16_to_int16 : ℕ → ℤ
uint16_to_int16 w = if ltb w (2 ^ 15) then pos w else negsuc (2 ^ 16 - 1 - w)

unfoldable pub int16_to_uint16 : ℤ → ℕ
int16_to_uint16 v = mod_ℤ v (2 ^ 16)

abbrev pub uint32_to_int32 : ℕ → ℤ
uint32_to_int32 w = if ltb w (2 ^ 31) then pos w else negsuc (2 ^ 32 - 1 - w)

abbrev pub int32_to_uint32 : ℤ → ℕ
int32_to_uint32 v = mod_ℤ v (2 ^ 32)

-- One register from two signed chars: `(high << SHIFT_UINT8) + low`, cut to 16 bits.
pub pack_chars : ℕ → ℕ → ℕ
pack_chars high low = mod_ℤ (to_signed_char high *ℤ pos (2 ^ 8) +ℤ to_signed_char low) (2 ^ 16)

-- The same from two `uint8_t`.
pub pack_bytes : ℕ → ℕ → ℕ
pack_bytes high low = (high * 2 ^ 8 + low) % 2 ^ 16

ascii_pair : Endian → ℕ → ℕ → ℕ
unfolding pack_chars
ascii_pair big first second = pack_chars first second
ascii_pair little first second = pack_chars second first

-- `value[i + 1]` at the end of the string is the terminating NUL.
unfoldable pub ascii_string_to_registers : List ℕ → Endian → List ℕ
unfolding ascii_pair
ascii_string_to_registers [] endian = []
ascii_string_to_registers (first ∷ []) endian = ascii_pair endian first 0 ∷ []
ascii_string_to_registers (first ∷ second ∷ rest) endian =
    ascii_pair endian first second ∷ ascii_string_to_registers rest endian

unicode_pair : Endian → ℕ → ℕ → ℕ
unfolding pack_bytes
unicode_pair big first second = pack_bytes first second
unicode_pair little first second = pack_bytes second first

unfoldable pub unicode_string_to_registers : List ℕ → Endian → List ℕ
unfolding unicode_pair
unicode_string_to_registers [] endian = []
unicode_string_to_registers (first ∷ []) endian = unicode_pair endian first 0 ∷ []
unicode_string_to_registers (first ∷ second ∷ rest) endian =
    unicode_pair endian first second ∷ unicode_string_to_registers rest endian

unfoldable pub uint32_to_registers : ℕ → Endian → List ℕ
uint32_to_registers value big = value % 2 ^ 16 ∷ (value / 2 ^ 16 % 2 ^ 16) ∷ []
uint32_to_registers value little = (value / 2 ^ 16 % 2 ^ 16) ∷ value % 2 ^ 16 ∷ []

unfoldable pub int32_to_registers : ℤ → Endian → List ℕ
unfolding uint32_to_registers
int32_to_registers value endian = uint32_to_registers (int32_to_uint32 value) endian

-- The code reads an `unsigned long` (64 bits) at the address of the `float`, and the bitset keeps
-- the low 32 bits of it: `above` is the word that happens to lie behind the value.
unfoldable pub float_to_registers : ℕ → ℕ → Endian → List ℕ
float_to_registers above value big =
    let bits = (above * 2 ^ 32 + value) % 2 ^ 32 in (bits / 2 ^ 16 % 2 ^ 16) ∷ bits % 2 ^ 16 ∷ []
float_to_registers above value little =
    let bits = (above * 2 ^ 32 + value) % 2 ^ 32 in bits % 2 ^ 16 ∷ (bits / 2 ^ 16 % 2 ^ 16) ∷ []

-- `byte == '\0' ? "" : std::string(1, shown)`
pub unless_nul : ℕ → ℕ → List ℕ
unless_nul byte shown = if byte == 0 then [] else shown ∷ []

-- The text of one register; in the little-endian branch each test reads the other byte.
pub ascii_of_register : Endian → ℕ → List ℕ
unfolding unless_nul
ascii_of_register big w =
    let first_byte = w % 2 ^ 8 in
    let second_byte = w / 2 ^ 8 % 2 ^ 8 in
    unless_nul second_byte second_byte ++ unless_nul first_byte first_byte
ascii_of_register little w =
    let first_byte = w % 2 ^ 8 in
    let second_byte = w / 2 ^ 8 % 2 ^ 8 in
    unless_nul second_byte first_byte ++ unless_nul first_byte second_byte

unfoldable pub registers_to_ascii_string : List ℕ → Endian → List ℕ
unfolding ascii_of_register
registers_to_ascii_string [] endian = []
registers_to_ascii_string (w ∷ ws) endian =
    ascii_of_register endian w ++ registers_to_ascii_string ws endian

-- The same over `uint8_t`, whose bytes in a `std::string` are those of the `char`s.
pub unicode_of_register : Endian → ℕ → List ℕ
unfolding unless_nul
unicode_of_register big w =
    let first_byte = w % 2 ^ 8 in
    let second_byte = w / 2 ^ 8 % 2 ^ 8 in
    unless_nul second_byte second_byte ++ unless_nul first_byte first_byte
unicode_of_register little w =
    let first_byte = w % 2 ^ 8 in
    let second_byte = w / 2 ^ 8 % 2 ^ 8 in
    unless_nul second_byte first_byte ++ unless_nul first_byte second_byte

unfoldable pub registers_to_unicode_string : List ℕ → Endian → List ℕ
unfolding unicode_of_register
registers_to_unicode_string [] endian = []
registers_to_unicode_string (w ∷ ws) endian =
    unicode_of_register endian w ++ registers_to_unicode_string ws endian

-- `bigValue` is index 1 for `BIG` and 0 for `LITTLE`.
unfoldable pub registers_to_uint32 : List ℕ → Endian → Result ℕ
registers_to_uint32 (a ∷ b ∷ []) big = ok ((b * 2 ^ 16 + a) % 2 ^ 32)
registers_to_uint32 (a ∷ b ∷ []) little = ok ((a * 2 ^ 16 + b) % 2 ^ 32)
registers_to_uint32 _ _ = err logic_error

unfoldable pub registers_to_int32 : List ℕ → Endian → Result ℤ
unfolding registers_to_uint32
registers_to_int32 (a ∷ b ∷ []) endian = do
  value ← registers_to_uint32 (a ∷ b ∷ []) endian
  ok (uint32_to_int32 value)
registers_to_int32 _ _ = err logic_error

-- A bitset of 32 bits: `or` in one half, shift left by 16, `or` in the other.
pub merge_bits : ℕ → ℕ → ℕ
merge_bits high low = bit_or (bit_or 0 high * 2 ^ 16 % 2 ^ 32) low

unfoldable pub registers_to_float : List ℕ → Endian → Result ℕ
unfolding merge_bits
registers_to_float (a ∷ b ∷ []) big = ok (merge_bits a b)
registers_to_float (a ∷ b ∷ []) little = ok (merge_bits b a)
registers_to_float _ _ = err logic_error

-- The first `n` bits of a number, lowest first.
pub bits_from : ℕ → ℕ → List Bool
bits_from zero w = []
bits_from (suc n) w = (w % 2 == 1) ∷ bits_from n (w / 2)

-- `std::bitset<16>`
unfoldable pub separate_bits : ℕ → List Bool
unfolding bits_from
separate_bits value = bits_from 16 value
