-- ===== src/Examples/Turns.antt =====
-- Reads of a mapping and of a device at concrete states.
use more_modbus.Prelude.{
  err, undefined, ℕ, ◌+◌, ◌≡◌, refl, true, false, Bool, List, [], ◌∷◌, ok, ◌>>=◌, arith, Option,
  some,
}
use more_modbus.Prelude.Int.{ℤ, pos, ◌+ℤ◌, ◌*ℤ◌}
use more_modbus.RegisterMapping.{RegisterMapping, Typed, coil}
use more_modbus.RegisterGroup.{RegisterGroup, Heap, starting_address}
use more_modbus.ModbusGroupReader.{Pass, pass_registers}
use more_modbus.ModbusClient.{LibModbus, read_coils}
use more_modbus.ModbusMappingReader.{take_registers}
use more_modbus.ModbusMappingReader.Agreement.{take_registers-eq-pass_registers}
use more_modbus.ModbusReader.Status.{
  DeviceStatus, report_status, report_all, read_groups, read_device,
}
use more_modbus.ModbusGroupReader.Reading.{read_group}
use more_modbus.ModbusReader.Status.Reports.{report_all_lem}
use more_modbus.ModbusReader.Status.Turn.{any, Reads, read_device_lem}
use more_modbus.ModbusReader.Rewrite.{
  rewrite_mapping, rewrite_device, is_due, Keeps, rewrite_mapping_lem, rewrite_bit_undefined,
}
use more_modbus.RegisterMapping.{get_starting_address, get_register_count}
use more_modbus.ModbusClient.{write_holding_registers}
use more_modbus.Mappings.{update, decode, decode_int32}
use more_modbus.DataParsers.{registers_to_int32}
use more_modbus.RegisterMapping.Update.{update_values}
use more_modbus.RegisterMapping.Constructors.{fields, make_bit}
use more_modbus.Examples.{counting, settings, int_double, int32_sample, bit_sample, disconnected}

abbrev bits : Heap ℤ
bits = λ id. bit_sample

abbrev words : Heap ℤ
words = λ id. int32_sample

take_registers-eq-pass_registers_example :
    take_registers ⦃d = int_double⦄ (pos 9) (some 0) 3 (20 ∷ 0 ∷ []) (words, [])
    ≡ ◌>>=◌ {B = Pass ℤ × Bool}
        (pass_registers ⦃d = int_double⦄ (pos 9) (some 0) 3 (20 ∷ 0 ∷ []) (words, []))
        (λ p'. ok (p', true))
take_registers-eq-pass_registers_example =
    take_registers-eq-pass_registers ⦃d = int_double⦄ (pos 9) (some 0) 3 (20 ∷ 0 ∷ []) (words, [])

abbrev untold : DeviceStatus
untold = record { active = true; reported = false; told = [] }

report_all_lem_example : (report_all untold (true ∷ true ∷ false ∷ [])).told ≡ true ∷ false ∷ []
report_all_lem_example = report_all_lem untold (true ∷ true ∷ false ∷ []) refl

-- A line on which no coil can be read.
abbrev deaf : LibModbus ℕ
deaf = record counting { modbus_read_bits = λ a n s. (s + 1, Option.none) }

abbrev group : RegisterGroup
group = record {
  register_type = coil;
  slave_address = pos 1;
  read_restricted = false;
  device = some 0;
  mappings = (b'7' ∷ [], 0) ∷ [];
}

read_device_lem_example :
    (reads : List Bool) × Reads ⦃l = deaf⦄ ⦃d = int_double⦄
      (pos 9)
      (group ∷ [])
      disconnected
      (bits, [])
      reads
      (record disconnected { lib = 2 })
      (bits, [])
    × (record { active = false; reported = true; told = false ∷ [] }
        ≡ report_status untold (any reads))
unfolding read_device read_groups read_group starting_address read_coils report_status
read_device_lem_example =
    read_device_lem ⦃l = deaf⦄ ⦃d = int_double⦄ (pos 9) (group ∷ []) disconnected
      (record disconnected { lib = 2 }) (bits, []) (bits, []) untold
      (record { active = false; reported = true; told = false ∷ [] }) (omega arith) refl

rewrite_mapping_lem_example :
    Keeps (pos 4) int32_sample (record int32_sample { last_update_time = pos 4 }) true
unfolding rewrite_mapping get_starting_address get_register_count write_holding_registers update
    decode decode_int32 registers_to_int32 update_values
rewrite_mapping_lem_example =
    rewrite_mapping_lem ⦃l = counting⦄ (pos 4) disconnected (record disconnected { lib = 2 })
      int32_sample (record int32_sample { last_update_time = pos 4 }) true refl

-- The mapping of bit 2 of register 100 as the constructor makes it, and then rewritten.
abbrev bit_placed : RegisterMapping ℤ
bit_placed = record bit_sample {
  is_initialized = false;
  is_valid = false;
  deadband_value = pos 0;
  typed = Typed.plain_mapping;
}

abbrev often : RegisterMapping ℤ
often = record bit_placed { repeated_write = pos 3 }

rewrite_bit_undefined_example :
    rewrite_device ⦃l = counting⦄ (pos 9000000000) (0 ∷ []) disconnected (λ id. often) untold
    ≡ err undefined
unfolding make_bit fields is_due ◌+ℤ◌ ◌*ℤ◌
rewrite_bit_undefined_example =
    rewrite_bit_undefined ⦃l = counting⦄ ⦃d = int_double⦄ (pos 9000000000) (pos 100) (pos 2) (pos 3)
      [] settings disconnected bit_placed (λ id. often) 0 [] untold refl refl refl refl refl
