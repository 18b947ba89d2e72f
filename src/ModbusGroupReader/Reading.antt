-- ===== src/ModbusGroupReader/Reading.antt =====
-- more_modbus/modbus/ModbusGroupReader.cpp: readGroup, which reads all addresses of a group in one
-- call and passes the values on.
use more_modbus.Prelude.{Bool, true, false, Option, Result, ok, ◌>>=◌, if◌then◌else◌}
use more_modbus.Prelude.Int.{ℤ}
use more_modbus.RegisterMapping.{
  RegisterType, coil, input_contact, holding_register, input_register, Double,
}
use more_modbus.RegisterGroup.{RegisterGroup, starting_address, get_address_count}
use more_modbus.ModbusGroupReader.{Pass, pass_bool_values, pass_register_values}
use more_modbus.ModbusClient.{
  LibModbus, ModbusClient, read_coils, read_input_contacts, read_holding_registers,
  read_input_registers,
}

-- What follows a read: nothing if it failed.
unfoldable pub pass_on :
    {S P A : Type 0}
    → (A → P → Result P)
    → P
    → ModbusClient S × Option A
    → Result (ModbusClient S × P × Bool)
pass_on pass p (c, Option.none) = ok (c, p, false)
pass_on pass p (c, Option.some values) = pass values p >>= λ p'. ok (c, p', true)

module _ {S D : Type 0} ⦃l : LibModbus S⦄ ⦃d : Double D⦄ where
  unfoldable pub read_group_by :
      RegisterType
      → ℤ
      → RegisterGroup
      → (start : ℤ) → ModbusClient S
      → Pass D
      → Result (ModbusClient S × Pass D × Bool)
  unfolding pass_on
  read_group_by coil now g start c p = do
    got ← read_coils g.slave_address start (get_address_count g) c
    pass_on (pass_bool_values now g) p got
  read_group_by input_contact now g start c p = do
    got ← read_input_contacts g.slave_address start (get_address_count g) c
    pass_on (pass_bool_values now g) p got
  read_group_by input_register now g start c p = do
    got ← read_input_registers g.slave_address start (get_address_count g) c
    pass_on (pass_register_values now g) p got
  read_group_by holding_register now g start c p = do
    got ← read_holding_registers g.slave_address start (get_address_count g) c
    pass_on (pass_register_values now g) p got

  -- bool ModbusGroupReader::readGroup(ModbusClient&, RegisterGroup&)
  unfoldable pub read_group :
      ℤ → RegisterGroup → ModbusClient S → Pass D → Result (ModbusClient S × Pass D × Bool)
  unfolding read_group_by
  read_group now g c p =
      let read = (do start ← starting_address g; read_group_by g.register_type now g start c p) in
      if g.read_restricted then ok (c, p, true) else read
