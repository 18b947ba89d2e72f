-- ===== src/RegisterMapping/Constructors.antt =====
-- more_modbus/RegisterMapping.cpp: the four constructors. `Settings` collects the arguments that
-- all of them take; the one for a bit has no deadband.
use more_modbus.Prelude.{
  ℕ, ◌%◌, Bool, false, not, ◌&&◌, ◌||◌, List, [], ◌∷◌, Option, Result, ok, err, logic_error, ◌>>◌,
  throw_if, ◌==◌, if◌then◌else◌, length, replicate,
}
use more_modbus.Prelude.Int.{ℤ, pos, minus_one}
use more_modbus.RegisterMapping.{
  RegisterType, OutputType, OperationType, coil, input_contact, holding_register, input_register,
  register_type_number, is_register, is_output, is_operation, Double, Typed, RegisterMapping,
}

pub record Settings (D : Type 0) : Type 0 where
  pub read_restricted : Bool
  pub slave_address : ℤ
  pub deadband : D
  pub frequency_filter : ℤ
  pub repeated_write : ℤ
  pub auto_local_update : Bool

-- INPUT_CONTACT and INPUT_REGISTER have odd enumerators.
abbrev pub is_read_only : RegisterType → Bool
is_read_only t = register_type_number t % 2 == 1

abbrev pub is_discrete : RegisterType → Bool
is_discrete t = is_register t coil || is_register t input_contact

abbrev pub default_output : RegisterType → OutputType
default_output input_register = OutputType.uint16
default_output holding_register = OutputType.uint16
default_output coil = OutputType.bool
default_output input_contact = OutputType.bool

abbrev pub is_merge : OperationType → Bool
is_merge o =
    is_operation o OperationType.merge_big_endian
    || is_operation o OperationType.merge_little_endian

abbrev pub is_merge_float : OperationType → Bool
is_merge_float o =
    is_operation o OperationType.merge_float_big_endian
    || is_operation o OperationType.merge_float_little_endian

abbrev pub is_stringify : OperationType → Bool
is_stringify o =
    is_operation o OperationType.stringify_ascii_big_endian
    || is_operation o OperationType.stringify_ascii_little_endian
    || is_operation o OperationType.stringify_unicode_big_endian
    || is_operation o OperationType.stringify_unicode_little_endian

check_merge : List ℤ → Bool → Result (Unit {0})
check_merge addresses refused = do throw_if (not (length addresses == 2)); throw_if refused

-- The chain of tests on the operation.
unfoldable pub check_operation : List ℤ → OutputType → OperationType → Result (Unit {0})
unfolding check_merge
check_operation addresses output operation =
    if is_merge operation
    then check_merge addresses
        (not (is_output output OutputType.int32) && not (is_output output OutputType.uint32))
    else if is_merge_float operation
    then check_merge addresses (not (is_output output OutputType.float))
    else if is_stringify operation
    then throw_if (not (is_output output OutputType.string))
    else err logic_error

module _ {D : Type 0} where
  -- The members that no constructor sets by its arguments have their initializers.
  unfoldable pub fields :
      List ℕ → RegisterType → Settings D → D → OutputType → OperationType → RegisterMapping D
  fields reference register_type s deadband output operation = record {
    reference = reference;
    read_restricted = s.read_restricted;
    group = Option.none;
    register_type = register_type;
    address = minus_one;
    addresses = [];
    slave_address = s.slave_address;
    output_type = output;
    operation_type = operation;
    bit_index = minus_one;
    bool_value = false;
    byte_values = [];
    is_initialized = false;
    is_valid = false;
    repeated_write = s.repeated_write;
    deadband_value = deadband;
    last_update_time = pos 0;
    frequency_filter_value = s.frequency_filter;
    auto_local_update = s.auto_local_update;
    typed = Typed.plain_mapping;
  }

  -- RegisterMapping(reference, registerType, address, …)
  unfoldable pub make_single : List ℕ → RegisterType → ℤ → Settings D → Result (RegisterMapping D)
  unfolding fields
  make_single reference register_type address s = do
    throw_if (s.read_restricted && is_read_only register_type)
    ok
        (record (fields reference register_type s s.deadband (default_output register_type)
          OperationType.none) { address = address; byte_values = 0 ∷ [] })

  -- RegisterMapping(reference, registerType, address, type, …)
  unfoldable pub make_typed :
      List ℕ → RegisterType → ℤ → OutputType → Settings D → Result (RegisterMapping D)
  unfolding fields
  make_typed reference register_type address output s = do
    throw_if (s.read_restricted && is_read_only register_type)
    throw_if (
        if is_discrete register_type
        then not (is_output output OutputType.bool)
        else not (is_output output OutputType.int16) && not (is_output output OutputType.uint16))
    ok (record (fields reference register_type s s.deadband output OperationType.none) {
      address = address;
      byte_values = 0 ∷ [];
    })

  -- RegisterMapping(reference, registerType, address, operation, bitIndex, …), which takes the
  -- operation to be TAKE_BIT and leaves the deadband at `0.0`.
  unfoldable pub make_bit :
      ⦃d : Double D⦄ → List ℕ → RegisterType → ℤ → ℤ → Settings D → Result (RegisterMapping D)
  unfolding fields
  make_bit ⦃d⦄ reference register_type address bit_index s = do
    throw_if (s.read_restricted && is_read_only register_type)
    throw_if (is_discrete register_type)
    ok (record (fields reference register_type s d.zero OutputType.bool OperationType.take_bit) {
      address = address;
      bit_index = bit_index;
    })

  unfoldable pub multi_mapping :
      List ℕ → RegisterType → List ℤ → OutputType → OperationType → Settings D → RegisterMapping D
  unfolding fields
  multi_mapping reference register_type addresses output operation s =
      record (fields reference register_type s s.deadband output operation) {
        addresses = addresses;
        byte_values = replicate (length addresses) 0;
      }

  -- RegisterMapping(reference, registerType, addresses, type, operation, …)
  unfoldable pub make_multi :
      List ℕ
      → RegisterType
      → List ℤ
      → OutputType
      → OperationType
      → Settings D
      → Result (RegisterMapping D)
  unfolding multi_mapping check_operation
  make_multi reference register_type addresses output operation s = do
    throw_if (s.read_restricted && is_read_only register_type)
    throw_if (is_discrete register_type)
    throw_if (
        is_output output OutputType.bool
        || is_output output OutputType.int16
        || is_output output OutputType.uint16)
    check_operation addresses output operation
    ok (multi_mapping reference register_type addresses output operation s)
