-- ===== src/ModbusClient/Buffers.antt =====
-- Reads of several values of ModbusClient.cpp against what libmodbus stores.
use more_modbus.Prelude.{
  ℕ, ◌+◌, ◌-◌, ◌/◌, ◌%◌, ◌≤◌, ◌<◌, ◌≡◌, refl, ap, true, List, [], ◌∷◌, map, Option, ok, err,
  undefined, arith, length, leb, take, ◌==◌, if◌then◌else◌, ap,
}
use mathlib.Core.List.{append-nil}
use more_modbus.Prelude.Int.{ℤ}
use more_modbus.ModbusClient.{
  LibModbus, ModbusClient, fill, to_bool, read_bools, read_coils, read_input_contacts,
}

pub fill_exact : (stored : List ℕ) → fill (length stored) stored ≡ ok stored
unfolding fill
fill_exact stored =
    let room : leb (length stored) (length stored) ≡ true = ground arith in
    let none_left : length stored - length stored ≡ 0 = omega arith in
    rw (room, none_left) (ap ok (append-nil stored))

fill_overflow :
    (size : ℕ) (stored : List ℕ) → size < length stored → fill size stored ≡ err undefined
unfolding fill
fill_overflow size stored h = ground arith

take-length : {A : Type 0} (xs : List A) → take (length xs) xs ≡ xs
take-length [] = refl
take-length (x ∷ xs) = ap (λ t. x ∷ t) (take-length xs)

read_bools_exact :
    (stored : List ℕ)
    → read_bools (length stored) (Option.some stored) ≡ ok (Option.some (map to_bool stored))
unfolding read_bools
read_bools_exact stored =
    rw (fill_exact stored) (ap (λ t. ok (Option.some (map to_bool t))) (take-length stored))

-- What is documented of reads in libmodbus: a successful call stores as many values as it was asked
-- for, and modbus_read_bits and modbus_read_input_bits one byte for each bit.
pub record IsLibModbus {S : Type 0} (l : LibModbus S) : Type 0 where
  pub registers :
      (a : ℤ) (n : ℕ) (s : S) (stored : List ℕ)
      → (l.modbus_read_registers a n s).1 ≡ Option.some stored
      → length stored ≡ n
  pub input_registers :
      (a : ℤ) (n : ℕ) (s : S) (stored : List ℕ)
      → (l.modbus_read_input_registers a n s).1 ≡ Option.some stored
      → length stored ≡ n
  pub bits :
      (a : ℤ) (n : ℕ) (s : S) (stored : List ℕ)
      → (l.modbus_read_bits a n s).1 ≡ Option.some stored
      → length stored ≡ n
  pub input_bits :
      (a : ℤ) (n : ℕ) (s : S) (stored : List ℕ)
      → (l.modbus_read_input_bits a n s).1 ≡ Option.some stored
      → length stored ≡ n

module _ {S : Type 0} ⦃l : LibModbus S⦄ (laws : IsLibModbus l) where
  -- When the slave is set and libmodbus reads coils as documented, readCoils gives a truth value
  -- for each byte that was stored, and nothing more.
  pub read_coils_lem :
      (slave address : ℤ) (number : ℕ) (c : ModbusClient S) (stored : List ℕ)
      → (l.modbus_set_slave slave c.lib).1 ≡ true
      → (l.modbus_read_bits address number (l.modbus_set_slave slave c.lib).0).1
        ≡ Option.some stored
      → read_coils slave address number c
        ≡ ok (
          record c {
            lib = (l.modbus_read_bits address number (l.modbus_set_slave slave c.lib).0).0;
          },
          Option.some (map to_bool stored),
        )
  unfolding read_coils
  read_coils_lem slave address number c stored set read =
      let size = laws.bits address number (l.modbus_set_slave slave c.lib).0 stored read in
      rw (set, read, ← size, read_bools_exact stored)

  -- When the slave is set and libmodbus reads two or more input contacts as documented, its bytes
  -- run over the end of the buffer of readInputContacts, which has room for an eighth of them,
  -- rounded up.
  pub read_input_contacts_overflow :
      (slave address : ℤ) (number : ℕ) (c : ModbusClient S) (stored : List ℕ)
      → 2 ≤ number
      → (l.modbus_set_slave slave c.lib).1 ≡ true
      → (l.modbus_read_input_bits address number (l.modbus_set_slave slave c.lib).0).1
        ≡ Option.some stored
      → read_input_contacts slave address number c ≡ err undefined
  unfolding read_input_contacts
  read_input_contacts_overflow slave address number c stored many set read =
      let size = laws.input_bits address number (l.modbus_set_slave slave c.lib).0 stored read in
      rw (
        set,
        read,
        fill_overflow (number / 8 + (if number % 8 == 0 then 0 else 1)) stored (ground arith),
      )
