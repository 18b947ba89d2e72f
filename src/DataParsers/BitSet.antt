-- ===== src/DataParsers/BitSet.antt =====
-- The bits of a register: DataParsers::separateBits.
use more_modbus.Prelude.{ℕ, zero, suc, ◌/◌, ◌<◌, ◌≡◌, refl, some, arith, get_elem?, ◌==◌}
use more_modbus.Prelude.Bits.{bit_at}
use more_modbus.DataParsers.{separate_bits, bits_from}

pub bits_from_lem : (n w i : ℕ) → i < n → get_elem? (bits_from n w) i ≡ some (bit_at w i == 1)
unfolding bits_from
bits_from_lem zero w i h = absurd (omega arith)
bits_from_lem (suc n) w zero h = refl
bits_from_lem (suc n) w (suc i) h = bits_from_lem n (w / 2) i (omega arith)

-- Each of the sixteen bits is the binary digit of the register at that index.
pub separate_bits_lem : (w i : ℕ) → i < 16 → get_elem? (separate_bits w) i ≡ some (bit_at w i == 1)
unfolding separate_bits
separate_bits_lem w i h = bits_from_lem 16 w i h
