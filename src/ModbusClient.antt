-- ===== src/ModbusClient.antt =====
-- more_modbus/modbus/ModbusClient.cpp, with createContext and destroyContext of
-- LibModbusTcpIpClient.cpp. The library libmodbus is the parameter `LibModbus`. Each public call
-- holds the client's mutex, so it is one step.
pub mod Connection
pub mod Buffers
pub mod Serial
use more_modbus.Prelude.{
  ℕ, zero, suc, ◌+◌, ◌-◌, ◌/◌, ◌%◌, Bool, true, false, not, ◌&&◌, ◌||◌, List, [], ◌∷◌, ◌++◌, map,
  Option, Result, ok, err, undefined, ◌>>=◌, leb, ◌==◌, if◌then◌else◌, length, replicate, take,
}
use mathlib.Core.Option
use mathlib.Core.List.{head?}
use more_modbus.Prelude.Int.{ℤ, pos}

-- libmodbus over a state `S` of its own, which holds the context and the line. A failure is `false`
-- or `none`, where the C functions return -1 (or a null context). A read gives what it has stored
-- at `dest`: registers, or one byte for each bit.
pub record LibModbus (S : Type 0) : Type 0 where
  pub modbus_new : S → S × Bool
  pub modbus_free : S → S
  pub modbus_set_response_timeout : ℤ → ℤ → S → S × Bool
  pub modbus_connect : S → S × Bool
  pub modbus_flush : S → S
  pub modbus_close : S → S
  pub modbus_set_slave : ℤ → S → S × Bool
  pub modbus_write_register : ℤ → ℕ → S → S × Bool
  pub modbus_write_registers : ℤ → List ℕ → S → S × Bool
  pub modbus_write_bit : ℤ → Bool → S → S × Bool
  pub modbus_read_registers : ℤ → ℕ → S → S × Option (List ℕ)
  pub modbus_read_input_registers : ℤ → ℕ → S → S × Option (List ℕ)
  pub modbus_read_bits : ℤ → ℕ → S → S × Option (List ℕ)
  pub modbus_read_input_bits : ℤ → ℕ → S → S × Option (List ℕ)

-- `modbus` tells whether `m_modbus` is set. The timeout is in seconds and in microseconds behind.
pub record ModbusClient (S : Type 0) : Type 0 where
  pub lib : S
  pub timeout_seconds : ℤ
  pub timeout_microseconds : ℤ
  pub connected : Bool
  pub context_created : Bool
  pub modbus : Bool

-- A buffer of `size` zeros after `stored` has been written to its start: undefined if it overflows.
unfoldable pub fill : ℕ → List ℕ → Result (List ℕ)
fill size stored =
    if leb (length stored) size
    then ok (stored ++ replicate (size - length stored) 0)
    else err undefined

-- `static_cast<bool>(tmpValue)`
abbrev pub to_bool : ℕ → Bool
to_bool b = not (b == 0)

-- What a read of several values pushes to the caller's vector: `none` where the call is refused.
-- All of the buffer, for registers; as many bytes as were read, for bits.
unfoldable pub all_values : ℕ → Option (List ℕ) → Result (Option (List ℕ))
all_values size Option.none = ok Option.none
all_values size (Option.some stored) = fill size stored >>= λ buffer. ok (Option.some buffer)

unfoldable pub read_bools : ℕ → Option (List ℕ) → Result (Option (List Bool))
read_bools size Option.none = ok Option.none
read_bools size (Option.some stored) =
    fill size stored >>= λ buffer. ok (Option.some (map to_bool (take (length stored) buffer)))

-- The one value of a read into a single variable.
unfoldable pub one_value : Option (List ℕ) → Result (Option ℕ)
one_value Option.none = ok Option.none
one_value (Option.some stored) = fill 1 stored >>= λ buffer. ok (head? buffer)

module _ {S : Type 0} ⦃l : LibModbus S⦄ where
  -- bool createContext()
  unfoldable pub create_context : ModbusClient S → ModbusClient S × Bool
  create_context c =
      let made = l.modbus_new c.lib in
      (
        record c {
          lib = made.0;
          modbus = made.1;
          context_created = if made.1 then true else c.context_created;
        },
        made.1,
      )

  -- bool ModbusClient::disconnect()
  unfoldable pub disconnect : ModbusClient S → ModbusClient S
  disconnect c = record c { lib = l.modbus_close (l.modbus_flush c.lib); connected = false }

  -- bool destroyContext()
  unfoldable pub destroy_context : ModbusClient S → ModbusClient S
  unfolding disconnect
  destroy_context c =
      if c.modbus
      then record (disconnect c) {
        lib = l.modbus_free (disconnect c).lib;
        modbus = false;
        context_created = false;
      }
      else c

  set_timeout : ℤ → ℤ → ModbusClient S → ModbusClient S × Bool
  set_timeout seconds microseconds c =
      let set = l.modbus_set_response_timeout seconds microseconds c.lib in
      (record c { lib = set.0 }, set.1)

  -- The rest of connect once a context is there.
  unfoldable pub connect_context : ModbusClient S → ModbusClient S × Bool
  unfolding destroy_context set_timeout
  connect_context c =
      let timed = set_timeout (pos 2) (pos 0) c in
      let connecting = l.modbus_connect (timed.0).lib in
      let joined = record (timed.0) { lib = connecting.0 } in
      let retimed =
        set_timeout c.timeout_seconds c.timeout_microseconds (record joined { connected = true }) in
      if not (timed.1)
      then (destroy_context (timed.0), false)
      else if not (connecting.1)
      then (joined, false)
      else if not (retimed.1)
      then (destroy_context (retimed.0), false)
      else (retimed.0, true)

  -- bool ModbusClient::connect()
  unfoldable pub connect : ModbusClient S → ModbusClient S × Bool
  connect c =
      if c.connected
      then (c, true)
      else if c.context_created
      then connect_context c
      else (let created = create_context c in
          if created.1 then connect_context (created.0) else (created.0, false))

  -- bool ModbusClient::changeSlaveAddress(slaveAddress)
  change_slave_address : ℤ → ModbusClient S → ModbusClient S × Bool
  change_slave_address slave c =
      let set = l.modbus_set_slave slave c.lib in (record c { lib = set.0 }, set.1)

  -- The frame of the public methods: the protected one is not called if the address is refused.
  on_slave :
      {A : Type 0}
      → ℤ
      → A
      → ModbusClient S
      → (ModbusClient S → ModbusClient S × A)
      → ModbusClient S × A
  unfolding change_slave_address
  on_slave slave failed c call =
      let set = change_slave_address slave c in if set.1 then call (set.0) else (set.0, failed)

  read_on_slave :
      {A : Type 0}
      → ℤ
      → ModbusClient S
      → (ModbusClient S → Result (ModbusClient S × Option A))
      → Result (ModbusClient S × Option A)
  unfolding change_slave_address
  read_on_slave slave c read =
      let set = change_slave_address slave c in
      let called = read (set.0) in if set.1 then called else ok (set.0, Option.none)

  -- One call of libmodbus, with what is done to the values that it stored, if it is a read.
  call_lib : {A : Type 0} → (S → S × A) → ModbusClient S → ModbusClient S × A
  call_lib call c = let called = call c.lib in (record c { lib = called.0 }, called.1)

  read_lib :
      {A : Type 0}
      → (S → S × Option (List ℕ))
      → (Option (List ℕ) → Result (Option A))
      → ModbusClient S
      → Result (ModbusClient S × Option A)
  unfolding call_lib
  read_lib call finish c =
      let called = call_lib call c in finish (called.1) >>= λ values. ok (called.0, values)

  -- The protected methods, which have the current slave's address.
  pub write_register_at : ℤ → ℕ → ModbusClient S → ModbusClient S × Bool
  unfolding call_lib
  write_register_at address value = call_lib (l.modbus_write_register address value)

  pub write_registers_at : ℤ → List ℕ → ModbusClient S → ModbusClient S × Bool
  unfolding call_lib
  write_registers_at address values = call_lib (l.modbus_write_registers address values)

  pub write_coil_at : ℤ → Bool → ModbusClient S → ModbusClient S × Bool
  unfolding call_lib
  write_coil_at address value = call_lib (l.modbus_write_bit address value)

  pub read_register_at : ℤ → ModbusClient S → Result (ModbusClient S × Option ℕ)
  unfolding read_lib one_value
  read_register_at address = read_lib (l.modbus_read_registers address 1) one_value

  pub read_registers_at : ℤ → ℕ → ModbusClient S → Result (ModbusClient S × Option (List ℕ))
  unfolding read_lib all_values
  read_registers_at address number =
      read_lib (l.modbus_read_registers address number) (all_values number)

  pub read_input_registers_at : ℤ → ℕ → ModbusClient S → Result (ModbusClient S × Option (List ℕ))
  unfolding read_lib all_values
  read_input_registers_at address number =
      read_lib (l.modbus_read_input_registers address number) (all_values number)

  pub read_coil_at : ℤ → ModbusClient S → Result (ModbusClient S × Option Bool)
  unfolding read_lib one_value
  read_coil_at address =
      read_lib (l.modbus_read_bits address 1)
        (λ stored. one_value stored >>= λ v. ok (Option.map to_bool v))

  pub read_coils_at : ℤ → ℕ → ModbusClient S → Result (ModbusClient S × Option (List Bool))
  unfolding read_lib read_bools
  read_coils_at address number = read_lib (l.modbus_read_bits address number) (read_bools number)

  -- Here the buffer has a byte for eight bits, rounded up.
  pub read_input_contacts_at : ℤ → ℕ → ModbusClient S → Result (ModbusClient S × Option (List Bool))
  unfolding read_lib read_bools
  read_input_contacts_at address number =
      read_lib (l.modbus_read_input_bits address number)
        (read_bools (number / 8 + (if number % 8 == 0 then 0 else 1)))

  -- The public methods, with the slave's address first.
  unfoldable pub write_holding_register : ℤ → ℤ → ℕ → ModbusClient S → ModbusClient S × Bool
  unfolding on_slave write_register_at
  write_holding_register slave address value c =
      on_slave slave false c (write_register_at address value)

  unfoldable pub write_holding_registers : ℤ → ℤ → List ℕ → ModbusClient S → ModbusClient S × Bool
  unfolding on_slave write_registers_at
  write_holding_registers slave address values c =
      on_slave slave false c (write_registers_at address values)

  unfoldable pub write_coil : ℤ → ℤ → Bool → ModbusClient S → ModbusClient S × Bool
  unfolding on_slave write_coil_at
  write_coil slave address value c = on_slave slave false c (write_coil_at address value)

  unfoldable pub read_holding_register : ℤ → ℤ → ModbusClient S → Result (ModbusClient S × Option ℕ)
  unfolding read_on_slave read_register_at
  read_holding_register slave address c = read_on_slave slave c (read_register_at address)

  unfoldable pub read_holding_registers :
      ℤ → ℤ → ℕ → ModbusClient S → Result (ModbusClient S × Option (List ℕ))
  unfolding read_on_slave read_registers_at
  read_holding_registers slave address number c =
      read_on_slave slave c (read_registers_at address number)

  unfoldable pub read_input_registers :
      ℤ → ℤ → ℕ → ModbusClient S → Result (ModbusClient S × Option (List ℕ))
  unfolding read_on_slave read_input_registers_at
  read_input_registers slave address number c =
      read_on_slave slave c (read_input_registers_at address number)

  unfoldable pub read_coil : ℤ → ℤ → ModbusClient S → Result (ModbusClient S × Option Bool)
  unfolding read_on_slave read_coil_at
  read_coil slave address c = read_on_slave slave c (read_coil_at address)

  unfoldable pub read_coils :
      ℤ → ℤ → ℕ → ModbusClient S → Result (ModbusClient S × Option (List Bool))
  unfolding read_on_slave read_coils_at
  read_coils slave address number c = read_on_slave slave c (read_coils_at address number)

  unfoldable pub read_input_contacts :
      ℤ → ℤ → ℕ → ModbusClient S → Result (ModbusClient S × Option (List Bool))
  unfolding read_on_slave read_input_contacts_at
  read_input_contacts slave address number c =
      read_on_slave slave c (read_input_contacts_at address number)
