-- ===== src/Examples.antt =====
-- Concrete parameters and states, at which the theorems of the other modules are applied: a
-- `double` over the integers, a libmodbus that answers every read with ones, and a few mappings and
-- groups.
pub mod Parsers
pub mod Registers
pub mod Classes
pub mod Groups
pub mod Client
pub mod Serial
pub mod Copies
pub mod Threads
pub mod Reader
pub mod Turns
pub mod Devices
pub mod Loop
use more_modbus.Prelude.{
  ℕ, ◌+◌, ◌-◌, ◌≡◌, refl, sym, ap, ◌∙◌, Bool, true, false, List, [], ◌∷◌, Option, some, length,
  replicate, length-replicate,
}
use mathlib.Core.Option.{some-injective}
use more_modbus.Prelude.Int.{ℤ, pos, ◌+ℤ◌, ◌-ℤ◌, leb_ℤ, ◌==ℤ◌, minus_one}
use more_modbus.RegisterMapping.{
  RegisterType, OutputType, OperationType, Double, Typed, RegisterMapping, holding_register,
}
use more_modbus.RegisterMapping.Constructors.{Settings}
use more_modbus.RegisterMapping.Deadband.{IsIeee}
use more_modbus.ModbusClient.{LibModbus, ModbusClient}
use more_modbus.ModbusClient.Buffers.{IsLibModbus}

abbrev pub int_double : Double ℤ
int_double = record {
  zero = pos 0;
  add = λ a b. a +ℤ b;
  sub = λ a b. a -ℤ b;
  le = λ a b. leb_ℤ a b;
  eq = λ a b. a ==ℤ b;
  of_int = λ a. a;
  of_float = λ n. pos n;
}

pub int_double-IsIeee : IsIeee int_double
int_double-IsIeee = record {
  add_int = λ a b _ _. refl;
  sub_int = λ a b _ _. refl;
  le_int = λ a b _ _. refl;
}

abbrev ones : ℤ → ℕ → ℕ → ℕ × Option (List ℕ)
ones a n s = (s + 1, some (replicate n 1))

-- The state counts the calls.
abbrev pub counting : LibModbus ℕ
counting = record {
  modbus_new = λ s. (s + 1, true);
  modbus_free = λ s. s + 1;
  modbus_set_response_timeout = λ _ _ s. (s + 1, true);
  modbus_connect = λ s. (s + 1, true);
  modbus_flush = λ s. s + 1;
  modbus_close = λ s. s + 1;
  modbus_set_slave = λ _ s. (s + 1, true);
  modbus_write_register = λ _ _ s. (s + 1, true);
  modbus_write_registers = λ _ _ s. (s + 1, true);
  modbus_write_bit = λ _ _ s. (s + 1, true);
  modbus_read_registers = ones;
  modbus_read_input_registers = ones;
  modbus_read_bits = ones;
  modbus_read_input_bits = ones;
}

-- The same, with a line on which no connection comes about.
abbrev pub unreachable : LibModbus ℕ
unreachable = record counting { modbus_connect = λ s. (s + 1, false) }

length-ones : (n : ℕ) (stored : List ℕ) → some (replicate n 1) ≡ some stored → length stored ≡ n
length-ones n stored e =
    sym (ap length (some-injective (replicate n 1) stored e)) ∙ length-replicate n 1

pub counting-IsLibModbus : IsLibModbus counting
counting-IsLibModbus = record {
  registers = λ a n s stored e. length-ones n stored e;
  input_registers = λ a n s stored e. length-ones n stored e;
  bits = λ a n s stored e. length-ones n stored e;
  input_bits = λ a n s stored e. length-ones n stored e;
}

abbrev pub settings : Settings ℤ
settings = record {
  read_restricted = false;
  slave_address = pos 1;
  deadband = pos 0;
  frequency_filter = pos 0;
  repeated_write = pos 0;
  auto_local_update = true;
}

-- A mapping of holding registers 100 and on, or of register 100 if there is one.
abbrev pub mapping : OutputType → OperationType → ℤ → List ℤ → List ℕ → Typed → RegisterMapping ℤ
mapping output operation address addresses values typed = record {
  reference = [];
  read_restricted = false;
  group = Option.none;
  register_type = holding_register;
  address = address;
  addresses = addresses;
  slave_address = pos 1;
  output_type = output;
  operation_type = operation;
  bit_index = pos 2;
  bool_value = false;
  byte_values = values;
  is_initialized = true;
  is_valid = true;
  repeated_write = pos 0;
  deadband_value = pos 5;
  last_update_time = pos 0;
  frequency_filter_value = pos 0;
  auto_local_update = true;
  typed = typed;
}

abbrev pub int32_sample : RegisterMapping ℤ
int32_sample =
    mapping OutputType.int32 OperationType.merge_big_endian minus_one (pos 100 ∷ pos 101 ∷ [])
      (7 ∷ 0 ∷ []) (Typed.int32_mapping (pos 7))

abbrev pub bit_sample : RegisterMapping ℤ
bit_sample = mapping OutputType.bool OperationType.take_bit (pos 100) [] [] Typed.bool_mapping

abbrev pub disconnected : ModbusClient ℕ
disconnected = record {
  lib = 0;
  timeout_seconds = pos 0;
  timeout_microseconds = pos 200;
  connected = false;
  context_created = false;
  modbus = false;
}
