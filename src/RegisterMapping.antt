-- ===== src/RegisterMapping.antt =====
-- more_modbus/RegisterMapping.h: the enumerations and the fields of a mapping. Times are the ticks
-- (nanoseconds) of `high_resolution_clock`, durations are milliseconds; both are ℤ. `double` is a
-- parameter `D` with the operations that the code uses. The class that a mapping was made as is its
-- field `typed`, with the value that the class adds; virtual calls go by it.
pub mod Parsing
pub mod Constructors
pub mod Update
pub mod Deadband
pub mod WellFormed
use more_modbus.Prelude.{
  ℕ, Bool, List, ◌==◌, if◌then◌else◌, length, Result, ok, err, out_of_range, ◌%◌, ◌^◌, [], ◌∷◌,
  Option,
}
use more_modbus.Prelude.Int.{ℤ, pos, negsuc, ◌*ℤ◌, ◌==ℤ◌, minus_one}
use more_modbus.DataParsers.{uint16_to_int16}

pub data RegisterType : Type 0 where
  coil input_contact holding_register input_register : RegisterType

pub data OutputType : Type 0 where
  bool uint16 int16 uint32 int32 float string : OutputType

pub data OperationType : Type 0 where
  none take_bit : OperationType
  merge_big_endian merge_little_endian : OperationType
  merge_float_big_endian merge_float_little_endian : OperationType
  stringify_ascii_big_endian stringify_ascii_little_endian : OperationType
  stringify_unicode_big_endian stringify_unicode_little_endian : OperationType

-- The enumerators' values.
abbrev pub register_type_number : RegisterType → ℕ
register_type_number coil = 0
register_type_number input_contact = 1
register_type_number holding_register = 2
register_type_number input_register = 3

abbrev pub output_type_number : OutputType → ℕ
output_type_number bool = 0
output_type_number uint16 = 1
output_type_number int16 = 2
output_type_number uint32 = 3
output_type_number int32 = 4
output_type_number float = 5
output_type_number string = 6

abbrev pub operation_type_number : OperationType → ℕ
operation_type_number none = 0
operation_type_number merge_big_endian = 1
operation_type_number merge_little_endian = 2
operation_type_number merge_float_big_endian = 3
operation_type_number merge_float_little_endian = 4
operation_type_number stringify_ascii_big_endian = 5
operation_type_number stringify_ascii_little_endian = 6
operation_type_number stringify_unicode_big_endian = 7
operation_type_number stringify_unicode_little_endian = 8
operation_type_number take_bit = 9

abbrev pub is_register : RegisterType → RegisterType → Bool
is_register a b = register_type_number a == register_type_number b

abbrev pub is_output : OutputType → OutputType → Bool
is_output a b = output_type_number a == output_type_number b

abbrev pub is_operation : OperationType → OperationType → Bool
is_operation a b = operation_type_number a == operation_type_number b

-- `double`: what the deadband filter does with it. `of_float` widens a `float`'s pattern.
pub record Double (D : Type 0) : Type 0 where
  pub zero : D
  pub add : D → D → D
  pub sub : D → D → D
  pub le : D → D → Bool
  pub eq : D → D → Bool
  pub of_int : ℤ → D
  pub of_float : ℕ → D

-- The classes derived from RegisterMapping, with the member that each adds.
pub data Typed : Type 0 where
  plain_mapping : Typed
  bool_mapping : Typed
  int16_mapping : ℤ → Typed
  uint16_mapping : ℕ → Typed
  int32_mapping : ℤ → Typed
  uint32_mapping : ℕ → Typed
  float_mapping : ℕ → Typed
  string_mapping : List ℕ → Typed

pub record RegisterMapping (D : Type 0) : Type 0 where
  pub reference : List ℕ
  pub read_restricted : Bool
  pub group : Option ℕ
  pub register_type : RegisterType
  pub address : ℤ
  pub addresses : List ℤ
  pub slave_address : ℤ
  pub output_type : OutputType
  pub operation_type : OperationType
  pub bit_index : ℤ
  pub bool_value : Bool
  pub byte_values : List ℕ
  pub is_initialized : Bool
  pub is_valid : Bool
  pub repeated_write : ℤ
  pub deadband_value : D
  pub last_update_time : ℤ
  pub frequency_filter_value : ℤ
  pub auto_local_update : Bool
  pub typed : Typed

-- `std::chrono::milliseconds` as ticks of the clock.
abbrev pub ticks : ℤ → ℤ
ticks ms = ms *ℤ pos 1000000

first_address : List ℤ → Result ℤ
first_address [] = err out_of_range
first_address (a ∷ _) = ok a

module _ {D : Type 0} where
  -- `m_address == -1` marks a mapping of several registers.
  unfoldable pub get_starting_address : RegisterMapping D → Result ℤ
  unfolding first_address
  get_starting_address m =
      if m.address ==ℤ minus_one then first_address m.addresses else ok m.address

  -- The size is cut to `int16_t`.
  unfoldable pub get_register_count : RegisterMapping D → ℤ
  unfolding uint16_to_int16
  get_register_count m =
      if m.address ==ℤ minus_one then uint16_to_int16 (length m.addresses % 2 ^ 16) else pos 1

  unfoldable pub set_slave_address : RegisterMapping D → ℤ → RegisterMapping D
  set_slave_address m slave = record m { slave_address = slave }

  unfoldable pub set_valid : RegisterMapping D → Bool → RegisterMapping D
  set_valid m valid = record m { is_valid = valid }

  unfoldable pub set_group : RegisterMapping D → Option ℕ → RegisterMapping D
  set_group m group = record m { group = group }
