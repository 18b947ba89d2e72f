-- ===== src/Examples/Classes.antt =====
-- The classes of mappings/*.cpp at concrete states.
use more_modbus.Prelude.{◌≡◌, refl, true, false, [], ◌∷◌, ok, err, logic_error, arith}
use more_modbus.Prelude.Int.{ℤ, pos, negsuc, ◌+ℤ◌, ◌*ℤ◌, minus_one}
use more_modbus.DataParsers.{ascii_string_to_registers, big, registers_to_int32, int32_to_registers}
use more_modbus.RegisterMapping.{
  holding_register, get_register_count, OutputType, OperationType, Typed, RegisterMapping,
}
use more_modbus.RegisterMapping.Constructors.{make_multi}
use more_modbus.RegisterMapping.Update.{does_update_values, update_values, differs}
use more_modbus.Mappings.{update, decode, encode_int32, decode_int32, encode, string_capacity}
use more_modbus.Mappings.Constructors.{make_string_mapping}
use more_modbus.Mappings.RoundTrip.{decode-encode, update_in_sync}
use more_modbus.Mappings.Defaults.{short_default_blocks_updates}
use more_modbus.Examples.{int_double, mapping, settings, int32_sample}

decode-encode_example :
    decode
      (Typed.int32_mapping (negsuc 4))
      OperationType.merge_big_endian
      (int32_to_registers (negsuc 4) big)
    ≡ ok (Typed.int32_mapping (negsuc 4))
unfolding encode encode_int32
decode-encode_example =
    decode-encode 0 int32_sample (Typed.int32_mapping (negsuc 4))
      (int32_to_registers (negsuc 4) big) (omega arith, omega arith) refl

abbrev updated_sample : RegisterMapping ℤ
updated_sample = record int32_sample {
  byte_values = 20 ∷ 0 ∷ [];
  last_update_time = pos 3;
  typed = Typed.int32_mapping (pos 20);
}

update_in_sync_example :
    (updated_sample.byte_values ≡ 20 ∷ 0 ∷ [])
    × (decode updated_sample.typed updated_sample.operation_type updated_sample.byte_values
        ≡ ok updated_sample.typed)
unfolding update decode decode_int32 registers_to_int32 update_values differs
update_in_sync_example =
    update_in_sync (pos 3) int32_sample updated_sample (20 ∷ 0 ∷ []) {changed = true} refl

-- A mapping of three registers whose default is a text of two characters.
abbrev string_sample : RegisterMapping ℤ
string_sample =
    record (mapping OutputType.string OperationType.stringify_ascii_big_endian minus_one
      (pos 100 ∷ pos 101 ∷ pos 102 ∷ []) (18537 ∷ []) (Typed.string_mapping (72 ∷ 105 ∷ []))) {
        bit_index = minus_one;
        is_initialized = false;
        is_valid = false;
        deadband_value = pos 0;
      }

short_default_blocks_updates_example :
    (does_update_values ⦃d = int_double⦄ (pos 1) string_sample (18537 ∷ 0 ∷ 0 ∷ [])
      ≡ err logic_error)
    × (update_values (pos 1) string_sample (18537 ∷ 0 ∷ 0 ∷ []) ≡ err logic_error)
unfolding make_string_mapping make_multi string_capacity ◌*ℤ◌ get_register_count
    ascii_string_to_registers ◌+ℤ◌
short_default_blocks_updates_example =
    short_default_blocks_updates ⦃d = int_double⦄ [] holding_register
      (pos 100 ∷ pos 101 ∷ pos 102 ∷ []) OperationType.stringify_ascii_big_endian settings 72
      (105 ∷ []) string_sample refl (omega arith) (omega arith) (pos 1) (18537 ∷ 0 ∷ 0 ∷ []) refl
