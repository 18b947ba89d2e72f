-- ===== src/ModbusMappingReader.antt =====
-- more_modbus/modbus/ModbusMappingReader.cpp: a mapping that is read by itself. `device` is the
-- device of the mapping's group, if there is one. A register count that is negative, for 2^15
-- registers or more, throws here also where the slave cannot be set.
pub mod Agreement
use more_modbus.Prelude.{
  ℕ, ◌^◌, Bool, true, false, List, [], ◌∷◌, Option, Result, ok, err, logic_error, ◌>>=◌,
  if◌then◌else◌,
}
use more_modbus.Prelude.Int.{ℤ, pos, negsuc}
use more_modbus.RegisterMapping.{
  RegisterType, coil, input_contact, holding_register, input_register, Double, RegisterMapping,
  get_register_count,
}
use more_modbus.RegisterMapping.Update.{does_update_values, does_update_bool, update_bool}
use more_modbus.Mappings.{update}
use more_modbus.RegisterGroup.{store}
use more_modbus.ModbusGroupReader.{Pass, notify, bool_changed, values_changed}
use more_modbus.ModbusClient.{
  LibModbus, ModbusClient, read_coil, read_input_contacts, read_holding_registers,
  read_input_registers,
}

module _ {D : Type 0} where
  -- The end of readCoil and readInputContact, once there is a value.
  unfoldable pub take_bool : ℤ → Option ℕ → ℕ → Bool → Pass D → Pass D × Bool
  take_bool now device id value (heap, notices) =
      let updated = update_bool now (heap id) value in
      let heap' = store heap id (updated.0) in
      if does_update_bool now (heap id) value
      then (if updated.1
          then ((heap', notify device (bool_changed id value) notices), true)
          else ((heap', notices), false))
      else ((heap, notices), true)

  -- The first of the values that were read; a read of none fails.
  unfoldable pub take_first : ℤ → Option ℕ → ℕ → Option (List Bool) → Pass D → Pass D × Bool
  take_first now device id Option.none p = (p, false)
  take_first now device id (Option.some []) p = (p, false)
  take_first now device id (Option.some (value ∷ _)) p = take_bool now device id value p

-- The size of a vector.
unfoldable pub natural : ℤ → Result ℕ
natural (pos n) = ok n
natural (negsuc n) = err logic_error

module _ {D : Type 0} ⦃d : Double D⦄ where
  -- The end of readHoldingRegister and readInputRegister, once there are values.
  unfoldable pub take_registers : ℤ → Option ℕ → ℕ → List ℕ → Pass D → Result (Pass D × Bool)
  take_registers now device id values (heap, notices) = do
    wanted ← does_update_values now (heap id) values
    (let changed = (do
      updated ← update now (heap id) values
      let heap' = store heap id (updated.0)
      ok (
          if updated.1
          then ((heap', notify device (values_changed id values) notices), true)
          else ((heap', notices), false))) in
        if wanted then changed else ok ((heap, notices), true))

  -- All the values that were read; a read of none fails.
  unfoldable pub take_all : ℤ → Option ℕ → ℕ → Option (List ℕ) → Pass D → Result (Pass D × Bool)
  take_all now device id Option.none p = ok (p, false)
  take_all now device id (Option.some []) p = ok (p, false)
  take_all now device id (Option.some (value ∷ rest)) p =
      take_registers now device id (value ∷ rest) p

module _ {S D : Type 0} ⦃l : LibModbus S⦄ where
  unfoldable pub read_coil_mapping :
      ℤ → Option ℕ → ℕ → ModbusClient S → Pass D → Result (ModbusClient S × Pass D × Bool)
  read_coil_mapping now device id c p = do
    got ← read_coil (p.0 id).slave_address (p.0 id).address c
    ok (elim (got.1) [
      | Option.none ↦ (got.0, p, false)
      | Option.some value ↦ let taken = take_bool now device id value p in (got.0, taken.0, taken.1)
    ])

  unfoldable pub read_input_contact_mapping :
      ℤ → Option ℕ → ℕ → ModbusClient S → Pass D → Result (ModbusClient S × Pass D × Bool)
  unfolding take_first
  read_input_contact_mapping now device id c p = do
    got ← read_input_contacts (p.0 id).slave_address (p.0 id).address 1 c
    let taken = take_first now device id (got.1) p
    ok (got.0, taken.0, taken.1)

module _ {S D : Type 0} ⦃l : LibModbus S⦄ ⦃d : Double D⦄ where
  unfoldable pub read_holding_register_mapping :
      ℤ → Option ℕ → ℕ → ModbusClient S → Pass D → Result (ModbusClient S × Pass D × Bool)
  unfolding take_all natural
  read_holding_register_mapping now device id c p = do
    let m = p.0 id
    count ← natural (get_register_count m)
    got ← read_holding_registers m.slave_address m.address count c
    taken ← take_all now device id (got.1) p
    ok (got.0, taken.0, taken.1)

  unfoldable pub read_input_register_mapping :
      ℤ → Option ℕ → ℕ → ModbusClient S → Pass D → Result (ModbusClient S × Pass D × Bool)
  unfolding take_all natural
  read_input_register_mapping now device id c p = do
    let m = p.0 id
    count ← natural (get_register_count m)
    got ← read_input_registers m.slave_address m.address count c
    taken ← take_all now device id (got.1) p
    ok (got.0, taken.0, taken.1)

  unfoldable pub read_by :
      RegisterType
      → ℤ
      → Option ℕ
      → ℕ
      → ModbusClient S
      → Pass D
      → Result (ModbusClient S × Pass D × Bool)
  unfolding read_coil_mapping read_input_contact_mapping read_holding_register_mapping
      read_input_register_mapping
  read_by coil = read_coil_mapping
  read_by input_contact = read_input_contact_mapping
  read_by holding_register = read_holding_register_mapping
  read_by input_register = read_input_register_mapping

  -- bool ModbusMappingReader::readRegister(ModbusClient&, RegisterMapping&)
  unfoldable pub read_register :
      ℤ → Option ℕ → ℕ → ModbusClient S → Pass D → Result (ModbusClient S × Pass D × Bool)
  unfolding read_by
  read_register now device id c p =
      let read = read_by (p.0 id).register_type now device id c p in
      if (p.0 id).read_restricted then ok (c, p, true) else read
