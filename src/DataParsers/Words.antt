-- ===== src/DataParsers/Words.antt =====
-- Round trips of the 16-bit and 32-bit conversions of DataParsers.cpp.
use more_modbus.Prelude.{
  ℕ, ◌+◌, ◌-◌, ◌*◌, ◌%◌, ◌^◌, ◌<◌, ◌≡◌, refl, List, [], ◌∷◌, ap, ◌∙◌, ok, ◌>>=◌, arith,
}
use more_modbus.Prelude.Int.{ℤ, pos, negsuc, ◌≤ℤ◌}
use more_modbus.Prelude.Bits.{zero-bit_or, bit_or_disjoint}
use more_modbus.DataParsers.{
  Endian, big, little, uint16_to_int16, int16_to_uint16, uint32_to_int32, int32_to_uint32,
  uint32_to_registers, int32_to_registers, float_to_registers, registers_to_uint32,
  registers_to_int32, registers_to_float, merge_bits,
}

-- Every `uint32_t` survives the way to two registers and back, in either endianness.
pub uint32_round_trip :
    (value : ℕ) (endian : Endian)
    → value < 2 ^ 32
    → registers_to_uint32 (uint32_to_registers value endian) endian ≡ ok value
unfolding registers_to_uint32 uint32_to_registers
uint32_round_trip value big h = ap ok (omega arith)
uint32_round_trip value little h = ap ok (omega arith)

-- Every pair of registers survives the way to a `uint32_t` and back.
pub uint32_registers_round_trip :
    (a b : ℕ) (endian : Endian) {value : ℕ}
    → a < 2 ^ 16
    → b < 2 ^ 16
    → registers_to_uint32 (a ∷ b ∷ []) endian ≡ ok value
    → uint32_to_registers value endian ≡ a ∷ b ∷ []
unfolding registers_to_uint32 uint32_to_registers
uint32_registers_round_trip a b big ha hb e = ground arith
uint32_registers_round_trip a b little ha hb e = ground arith

-- Every `int16_t` survives the way to a register and back.
pub int16_round_trip :
    (value : ℤ)
    → negsuc (2 ^ 15 - 1) ≤ℤ value
    → value ≤ℤ pos (2 ^ 15 - 1)
    → uint16_to_int16 (int16_to_uint16 value) ≡ value
unfolding uint16_to_int16 int16_to_uint16
int16_round_trip (pos n) lo hi = ground arith
int16_round_trip (negsuc n) lo hi = ground arith

int32_wrap :
    (value : ℤ)
    → negsuc (2 ^ 31 - 1) ≤ℤ value
    → value ≤ℤ pos (2 ^ 31 - 1)
    → (int32_to_uint32 value < 2 ^ 32) × (uint32_to_int32 (int32_to_uint32 value) ≡ value)
int32_wrap (pos n) lo hi = (omega arith, ground arith)
int32_wrap (negsuc n) lo hi = (omega arith, ground arith)

registers_to_int32-bind :
    (values : List ℕ) (endian : Endian)
    → registers_to_int32 values endian
      ≡ (registers_to_uint32 values endian >>= λ value. ok (uint32_to_int32 value))
unfolding registers_to_int32 registers_to_uint32
registers_to_int32-bind [] endian = refl
registers_to_int32-bind (a ∷ []) endian = refl
registers_to_int32-bind (a ∷ b ∷ []) endian = refl
registers_to_int32-bind (a ∷ b ∷ c ∷ rest) endian = refl

-- Every `int32_t` survives the way to two registers and back, in either endianness.
pub int32_round_trip :
    (value : ℤ) (endian : Endian)
    → negsuc (2 ^ 31 - 1) ≤ℤ value
    → value ≤ℤ pos (2 ^ 31 - 1)
    → registers_to_int32 (int32_to_registers value endian) endian ≡ ok value
unfolding int32_to_registers
int32_round_trip value endian lo hi =
    let (b, e) = int32_wrap value lo hi in
    rw (registers_to_int32-bind, uint32_round_trip (int32_to_uint32 value) endian b) (ap ok e)

merge_bits_lem :
    (high low : ℕ) → high < 2 ^ 16 → low < 2 ^ 16 → merge_bits high low ≡ high * 2 ^ 16 + low
unfolding merge_bits
merge_bits_lem high low h l =
    let e : high * 2 ^ 16 % 2 ^ 32 ≡ high * 2 ^ 16 = omega arith in
    rw (zero-bit_or high, e) (bit_or_disjoint 16 high low l)

-- Every `float` pattern survives the way to two registers and back, in either endianness and
-- whatever lies behind it in memory.
pub float_round_trip :
    (above value : ℕ) (endian : Endian)
    → value < 2 ^ 32
    → registers_to_float (float_to_registers above value endian) endian ≡ ok value
unfolding registers_to_float float_to_registers
float_round_trip above value big h =
    ap ok (merge_bits_lem _ _ (omega arith) (omega arith) ∙ omega arith)
float_round_trip above value little h =
    ap ok (merge_bits_lem _ _ (omega arith) (omega arith) ∙ omega arith)
