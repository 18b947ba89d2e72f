-- ===== src/ModbusClient/Serial.antt =====
-- more_modbus/modbus/LibModbusSerialRtuClient.cpp: the client on a serial line, which waits after a
-- message, and the messages of the public methods, through which the virtual ones are called. The
-- pause is the parameter `sleep_for`, an action on the line, and libmodbus's constructor of a
-- serial context the parameter `modbus_new_rtu`.
pub mod Pauses
use more_modbus.Prelude.{
  ℕ, Bool, true, false, List, [], ◌∷◌, Option, Result, ok, ◌>>=◌, if◌then◌else◌,
}
use more_modbus.Prelude.Int.{ℤ}
use more_modbus.ModbusClient.{
  LibModbus, ModbusClient, disconnect, on_slave, read_on_slave, write_registers_at,
  write_register_at, write_coil_at, read_input_registers_at, read_input_contacts_at,
  read_register_at, read_registers_at, read_coil_at, read_coils_at,
}

-- LibModbusSerialRtuClient::BitParity
pub data BitParity : Type 0 where
  parity_none parity_even parity_odd : BitParity

pub record SerialPort : Type 0 where
  pub serial_port : List ℕ
  pub baud_rate : ℤ
  pub data_bits : ℕ
  pub stop_bits : ℕ
  pub bit_parity : ℕ

-- The letter that libmodbus takes.
unfoldable pub parity_letter : BitParity → ℕ
parity_letter parity_none = b'N'
parity_letter parity_even = b'E'
parity_letter parity_odd = b'O'

-- LibModbusSerialRtuClient(serialPort, baudRate, dataBits, stopBits, bitParity, responseTimeout),
-- but for the members of ModbusClient
unfoldable pub make_port : List ℕ → ℤ → ℕ → ℕ → BitParity → SerialPort
unfolding parity_letter
make_port serial_port baud_rate data_bits stop_bits parity = record {
  serial_port = serial_port;
  baud_rate = baud_rate;
  data_bits = data_bits;
  stop_bits = stop_bits;
  bit_parity = parity_letter parity;
}

module _ {S : Type 0} ⦃l : LibModbus S⦄
    (modbus_new_rtu : List ℕ → ℤ → ℕ → ℕ → ℕ → S → S × Bool) where
  -- bool LibModbusSerialRtuClient::createContext()
  unfoldable pub create_serial_context : SerialPort → ModbusClient S → ModbusClient S × Bool
  create_serial_context p c =
      let made =
        modbus_new_rtu p.serial_port p.baud_rate p.bit_parity p.data_bits p.stop_bits c.lib in
      if made.1
      then (record c { lib = made.0; modbus = true; context_created = true }, true)
      else (record c { lib = made.0; modbus = false }, false)

-- bool LibModbusSerialRtuClient::destroyContext()
unfoldable pub destroy_serial_context :
    {S : Type 0} ⦃l : LibModbus S⦄ → ModbusClient S → ModbusClient S
destroy_serial_context ⦃l = l⦄ c =
    let closed = disconnect c in
    if c.modbus
    then record closed { lib = l.modbus_free closed.lib; modbus = false; context_created = false }
    else c

-- A call of a public method, but for its results.
pub data Message : Type 0 where
  write_register : (slave address : ℤ) (value : ℕ) → Message
  write_registers : (slave address : ℤ) (values : List ℕ) → Message
  write_bit : (slave address : ℤ) (value : Bool) → Message
  read_register : (slave address : ℤ) → Message
  read_registers : (slave address : ℤ) (number : ℕ) → Message
  read_inputs : (slave address : ℤ) (number : ℕ) → Message
  read_bit : (slave address : ℤ) → Message
  read_bits : (slave address : ℤ) (number : ℕ) → Message
  read_contacts : (slave address : ℤ) (number : ℕ) → Message

module _ {S : Type 0} ⦃l : LibModbus S⦄ (sleep_for : ℕ → S → S) where
  -- sleepBetweenModbusMessages
  abbrev pub pause : ModbusClient S → ModbusClient S
  pause c = record c { lib = sleep_for 10 c.lib }

  abbrev pub paused : {A : Type 0} → ModbusClient S × A → ModbusClient S × A
  paused r = (pause (r.0), r.1)

  serial_write_register_at : ℤ → ℕ → ModbusClient S → ModbusClient S × Bool
  unfolding write_register_at
  serial_write_register_at address value c = paused (write_register_at address value c)

  serial_write_coil_at : ℤ → Bool → ModbusClient S → ModbusClient S × Bool
  unfolding write_coil_at
  serial_write_coil_at address value c = paused (write_coil_at address value c)

  serial_read_input_registers_at :
      ℤ → ℕ → ModbusClient S → Result (ModbusClient S × Option (List ℕ))
  unfolding read_input_registers_at
  serial_read_input_registers_at address number c =
      read_input_registers_at address number c >>= λ r. ok (paused r)

  serial_read_input_contacts_at :
      ℤ → ℕ → ModbusClient S → Result (ModbusClient S × Option (List Bool))
  unfolding read_input_contacts_at
  serial_read_input_contacts_at address number c =
      read_input_contacts_at address number c >>= λ r. ok (paused r)

  serial_read_register_at : ℤ → ModbusClient S → Result (ModbusClient S × Option ℕ)
  unfolding read_register_at
  serial_read_register_at address c = read_register_at address c >>= λ r. ok (paused r)

  serial_read_registers_at : ℤ → ℕ → ModbusClient S → Result (ModbusClient S × Option (List ℕ))
  unfolding read_registers_at
  serial_read_registers_at address number c =
      read_registers_at address number c >>= λ r. ok (paused r)

  serial_read_coil_at : ℤ → ModbusClient S → Result (ModbusClient S × Option Bool)
  unfolding read_coil_at
  serial_read_coil_at address c = read_coil_at address c >>= λ r. ok (paused r)

  serial_read_coils_at : ℤ → ℕ → ModbusClient S → Result (ModbusClient S × Option (List Bool))
  unfolding read_coils_at
  serial_read_coils_at address number c = read_coils_at address number c >>= λ r. ok (paused r)

  -- The public methods of the serial client: each sets the slave, and then calls the overridden
  -- method, but writeHoldingRegisters, which is not overridden.
  unfoldable pub send_serial : Message → ModbusClient S → Result (ModbusClient S)
  unfolding on_slave read_on_slave write_registers_at serial_write_register_at serial_write_coil_at
      serial_read_input_registers_at serial_read_input_contacts_at serial_read_register_at
      serial_read_registers_at serial_read_coil_at serial_read_coils_at
  send_serial (write_register slave address value) c =
      ok ((on_slave slave false c (serial_write_register_at address value)).0)
  send_serial (write_registers slave address values) c =
      ok ((on_slave slave false c (write_registers_at address values)).0)
  send_serial (write_bit slave address value) c =
      ok ((on_slave slave false c (serial_write_coil_at address value)).0)
  send_serial (read_register slave address) c =
      read_on_slave slave c (serial_read_register_at address) >>= λ r. ok (r.0)
  send_serial (read_registers slave address number) c =
      read_on_slave slave c (serial_read_registers_at address number) >>= λ r. ok (r.0)
  send_serial (read_inputs slave address number) c =
      read_on_slave slave c (serial_read_input_registers_at address number) >>= λ r. ok (r.0)
  send_serial (read_bit slave address) c =
      read_on_slave slave c (serial_read_coil_at address) >>= λ r. ok (r.0)
  send_serial (read_bits slave address number) c =
      read_on_slave slave c (serial_read_coils_at address number) >>= λ r. ok (r.0)
  send_serial (read_contacts slave address number) c =
      read_on_slave slave c (serial_read_input_contacts_at address number) >>= λ r. ok (r.0)

  -- A session of such calls: the line before each of them, as far as the calls return.
  unfoldable pub lines : List Message → ModbusClient S → List S
  lines [] c = []
  lines (m ∷ rest) c = c.lib ∷ (elim (send_serial m c) [ ok c' ↦ lines rest c' | _ ↦ [] ])

module _ {S : Type 0} ⦃l : LibModbus S⦄ where
  -- The same for a client that overrides nothing.
  unfoldable pub send : Message → ModbusClient S → Result (ModbusClient S)
  unfolding on_slave read_on_slave write_registers_at write_register_at write_coil_at
      read_input_registers_at read_input_contacts_at read_register_at read_registers_at read_coil_at
      read_coils_at
  send (write_register slave address value) c =
      ok ((on_slave slave false c (write_register_at address value)).0)
  send (write_registers slave address values) c =
      ok ((on_slave slave false c (write_registers_at address values)).0)
  send (write_bit slave address value) c =
      ok ((on_slave slave false c (write_coil_at address value)).0)
  send (read_register slave address) c =
      read_on_slave slave c (read_register_at address) >>= λ r. ok (r.0)
  send (read_registers slave address number) c =
      read_on_slave slave c (read_registers_at address number) >>= λ r. ok (r.0)
  send (read_inputs slave address number) c =
      read_on_slave slave c (read_input_registers_at address number) >>= λ r. ok (r.0)
  send (read_bit slave address) c = read_on_slave slave c (read_coil_at address) >>= λ r. ok (r.0)
  send (read_bits slave address number) c =
      read_on_slave slave c (read_coils_at address number) >>= λ r. ok (r.0)
  send (read_contacts slave address number) c =
      read_on_slave slave c (read_input_contacts_at address number) >>= λ r. ok (r.0)
