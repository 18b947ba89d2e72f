-- ===== src/ModbusReader/BitWrite.antt =====
-- The register that ModbusReader::writeBitMapping writes back.
use more_modbus.Prelude.{
  ℕ, ◌+◌, ◌-◌, ◌%◌, ◌^◌, ◌<◌, ◌≡◌, refl, Bool, true, false, not, ok, arith, ◌==◌, if◌then◌else◌,
  Bool-cases, inl, inr, ==_iff,
}
use more_modbus.Prelude.Bits.{bit_at, bit_at-add, bit_at-sub, bit_at-le, add-pow-lt, pow-le_of_bit}
use more_modbus.DataParsers.{separate_bits}
use more_modbus.DataParsers.BitSet.{separate_bits_lem}
use more_modbus.RegisterMapping.Update.{differs_bool}
use more_modbus.ModbusGroupReader.{at-some}
use more_modbus.ModbusReader.{add_bit, with_bit}

-- A truth value as a bit.
abbrev pub as_bit : Bool → ℕ
as_bit true = 1
as_bit false = 0

-- The register with the bit at `index` replaced.
abbrev pub IsWithBit : ℕ → ℕ → Bool → ℕ → Type 0
IsWithBit w index value w' =
    (w' < 2 ^ 16) × ((j : ℕ) → bit_at w' j ≡ (if j == index then as_bit value else bit_at w j))

add_bit-IsWithBit :
    (w index : ℕ) (value : Bool)
    → w < 2 ^ 16
    → index < 16
    → bit_at w index ≡ as_bit (not value)
    → IsWithBit w index value (add_bit w index value)
unfolding add_bit
add_bit-IsWithBit w index true b i h =
    let small = add-pow-lt 16 index w i b h in
    let e : (w + 2 ^ index) % 2 ^ 16 ≡ w + 2 ^ index = omega arith in
    rw e (small, λ j. bit_at-add index j w h)
add_bit-IsWithBit w index false b i h =
    let below = pow-le_of_bit index w h in
    let e : (w + 2 ^ 16 - 2 ^ index) % 2 ^ 16 ≡ w - 2 ^ index = omega arith in
    rw e (omega arith, λ j. bit_at-sub index j w h)

same_bit :
    (w index : ℕ) (value : Bool)
    → w < 2 ^ 16
    → bit_at w index ≡ as_bit value
    → IsWithBit w index value w
same_bit w index value b h = (
  b,
  λ j. elim (Bool-cases (j == index)) [
    | inl same ↦ rw (same, (==_iff j index).0 same) h
    | inr other ↦ rw other refl
  ],
)

change_bit :
    (w index : ℕ) (value bit : Bool)
    → w < 2 ^ 16
    → index < 16
    → (bit_at w index == 1) ≡ bit
    → IsWithBit w index value (if differs_bool bit value then add_bit w index value else w)
change_bit w index true true b i e = same_bit w index true b (ground arith)
change_bit w index true false b i e =
    add_bit-IsWithBit w index true b i (ground (arith, bit_at-le w index))
change_bit w index false true b i e = add_bit-IsWithBit w index false b i (ground arith)
change_bit w index false false b i e = same_bit w index false b (ground (arith, bit_at-le w index))

-- For every register and each of its sixteen bits, setting the bit succeeds, and gives the 16-bit
-- register with that bit at the value and every other bit as it was.
pub with_bit_lem :
    (w index : ℕ) (value : Bool)
    → w < 2 ^ 16
    → index < 16
    → (w' : ℕ) × (with_bit w index value ≡ ok w') × IsWithBit w index value w'
unfolding with_bit
with_bit_lem w index value b i =
    let bit = bit_at w index == 1 in
    (
      if differs_bool bit value then add_bit w index value else w,
      rw (at-some (separate_bits w) index _ (separate_bits_lem w index i)),
      change_bit w index value bit b i refl,
    )
