-- ===== src/Examples/Serial.antt =====
-- The serial client of LibModbusSerialRtuClient.cpp on a line that is quiet (`true`) or not.
use more_modbus.Prelude.{ℕ, ◌≡◌, refl, Bool, true, false, List, [], ◌∷◌, Option, replicate, All}
use more_modbus.Prelude.Int.{ℤ, pos}
use more_modbus.ModbusClient.{LibModbus, ModbusClient}
use more_modbus.ModbusClient.Serial.{Message, write_register, read_inputs, read_bits, lines}
use more_modbus.ModbusClient.Serial.Pauses.{lines-IsQuiet}

abbrev noisy : ℤ → ℕ → Bool → Bool × Option (List ℕ)
noisy a n s = (false, Option.some (replicate n 1))

abbrev line : LibModbus Bool
line = record {
  modbus_new = λ s. (s, true);
  modbus_free = λ s. s;
  modbus_set_response_timeout = λ _ _ s. (s, true);
  modbus_connect = λ s. (s, true);
  modbus_flush = λ s. s;
  modbus_close = λ s. s;
  modbus_set_slave = λ _ s. (s, true);
  modbus_write_register = λ _ _ s. (false, true);
  modbus_write_registers = λ _ _ s. (false, true);
  modbus_write_bit = λ _ _ s. (false, true);
  modbus_read_registers = noisy;
  modbus_read_input_registers = noisy;
  modbus_read_bits = noisy;
  modbus_read_input_bits = noisy;
}

abbrev client : ModbusClient Bool
client = record {
  lib = true;
  timeout_seconds = pos 0;
  timeout_microseconds = pos 200;
  connected = true;
  context_created = true;
  modbus = true;
}

abbrev session : List Message
session =
    write_register (pos 1) (pos 40) 7
    ∷ read_inputs (pos 1) (pos 40) 3
    ∷ read_bits (pos 2) (pos 8) 9
    ∷ []

lines-IsQuiet_example :
    All (λ s. s ≡ true) (lines ⦃l = line⦄ (λ milliseconds s. true) session client)
lines-IsQuiet_example =
    lines-IsQuiet ⦃l = line⦄ (λ milliseconds s. true) (λ s. s ≡ true) (λ s. refl) (λ slave s h. h)
      session client refl (refl, (refl, (refl, tt)))
