-- ===== src/ModbusReader.antt =====
-- more_modbus/ModbusReader.cpp: the writes on behalf of a mapping. `devices` are the slave
-- addresses of the devices that were added, `now` is what the clock shows when a mapping is
-- updated.
pub mod BitWrite
pub mod Writes
pub mod Lifecycle
pub mod Stopping
pub mod Status
pub mod Rewrite
pub mod Run
pub mod Threads
pub mod Dispatch
use more_modbus.Prelude.{
  ℕ, ◌+◌, ◌-◌, ◌%◌, ◌^◌, ◌≡◌, Bool, true, false, not, ◌&&◌, ◌||◌, List, [], ◌∷◌, Option, Result, ok,
  err, undefined, ◌>>=◌, ◌>>◌, throw_if, ◌==◌, if◌then◌else◌, length,
}
use more_modbus.Prelude.Int.{ℤ, ◌==ℤ◌, mod_ℤ}
use more_modbus.DataParsers.{separate_bits, uint16_to_int16}
use more_modbus.RegisterMapping.{
  coil, holding_register, is_register, OperationType, is_operation, Double, RegisterMapping,
  get_starting_address, get_register_count, set_valid,
}
use more_modbus.RegisterMapping.Update.{differs_bool, update_bool}
use more_modbus.Mappings.{update}
use more_modbus.ModbusGroupReader.{Pass, at}
use more_modbus.ModbusMappingReader.{read_register}
use more_modbus.ModbusClient.{
  LibModbus, ModbusClient, write_holding_register, write_holding_registers, write_coil,
  read_holding_register,
}

-- `m_devices.find(slave) != m_devices.end()`
unfoldable pub is_registered : ℤ → List ℤ → Bool
is_registered slave [] = false
is_registered slave (d ∷ rest) = d ==ℤ slave || is_registered slave rest

-- `newValue += (1 << index) * (value ? 1 : -1)` on a `uint16_t`
pub add_bit : ℕ → ℕ → Bool → ℕ
add_bit w index true = (w + 2 ^ index) % 2 ^ 16
add_bit w index false = (w + 2 ^ 16 - 2 ^ index) % 2 ^ 16

-- The register with one bit set to a value.
unfoldable pub with_bit : ℕ → ℕ → Bool → Result ℕ
unfolding add_bit
with_bit w index value = do
  bit ← at (separate_bits w) index
  ok (if differs_bool bit value then add_bit w index value else w)

-- What a write leaves: the client, the mapping and the method's result.
abbrev pub Written : Type 0 → Type 0 → Type 0
Written S D = ModbusClient S × RegisterMapping D × Bool

module _ {S D : Type 0} ⦃l : LibModbus S⦄ where
  -- The end of writeMapping, after the client's call.
  unfoldable pub finish_write :
      ℤ → RegisterMapping D → List ℕ → ModbusClient S × Bool → Result (Written S D)
  finish_write now m values sent =
      let updated = (update now m values >>= λ u. ok (sent.0, u.0, true)) in
      if not (sent.1)
      then ok (sent.0, set_valid m false, false)
      else if m.auto_local_update
      then updated
      else ok (sent.0, m, true)

  -- bool ModbusReader::writeMapping(RegisterMapping&, const std::vector<uint16_t>&)
  unfoldable pub write_mapping :
      ℤ → List ℤ → ModbusClient S → RegisterMapping D → List ℕ → Result (Written S D)
  unfolding finish_write
  write_mapping now devices c m values = do
    throw_if (not (is_register m.register_type holding_register))
    throw_if (not (get_register_count m ==ℤ uint16_to_int16 (length values % 2 ^ 16)))
    throw_if (not (is_registered m.slave_address devices))
    start ← get_starting_address m
    finish_write now m values (write_holding_registers m.slave_address start values c)

  -- bool ModbusReader::writeMapping(RegisterMapping&, bool)
  unfoldable pub write_bool_mapping :
      ℤ → List ℤ → ModbusClient S → RegisterMapping D → Bool → Result (Written S D)
  write_bool_mapping now devices c m value = do
    throw_if (not (is_register m.register_type coil))
    throw_if (not (is_registered m.slave_address devices))
    start ← get_starting_address m
    let sent = write_coil m.slave_address start value c
    ok (
        if not (sent.1)
        then (sent.0, set_valid m false, false)
        else if m.auto_local_update
        then (sent.0, (update_bool now m value).0, true)
        else (sent.0, m, true))

  -- The second half of writeBitMapping, once the register was read.
  pub write_bit : ℤ → ℤ → RegisterMapping D → Bool → ModbusClient S → ℕ → Result (Written S D)
  write_bit now start m value c register = do
    changed ← with_bit register (mod_ℤ m.bit_index (2 ^ 8)) value
    let sent = write_holding_register m.slave_address start changed c
    ok (
        if register == changed
        then (c, m, true)
        else if not (sent.1)
        then (sent.0, set_valid m false, false)
        else if m.auto_local_update
        then (sent.0, (update_bool now m value).0, true)
        else (sent.0, m, true))

  -- bool ModbusReader::writeBitMapping(RegisterMapping&, bool)
  unfoldable pub write_bit_mapping :
      ℤ → List ℤ → ModbusClient S → RegisterMapping D → Bool → Result (Written S D)
  unfolding write_bit
  write_bit_mapping now devices c m value = do
    throw_if (not (is_register m.register_type holding_register))
    throw_if (not (is_operation m.operation_type OperationType.take_bit))
    throw_if (not (is_registered m.slave_address devices))
    start ← get_starting_address m
    got ← read_holding_register m.slave_address start c
    elim (got.1) [
      | Option.none ↦ ok (got.0, set_valid m false, false)
      | Option.some register ↦ write_bit now start m value (got.0) register
    ]

-- bool ModbusReader::forceReadOfMapping(RegisterMapping&)
pub force_read_of_mapping :
    {S D : Type 0} ⦃l : LibModbus S⦄ ⦃d : Double D⦄
    → ℤ
    → Option ℕ
    → ℕ
    → ModbusClient S
    → Pass D
    → Result (ModbusClient S × Pass D × Bool)
unfolding read_register
force_read_of_mapping now device id c p = read_register now device id c p
