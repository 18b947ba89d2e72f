-- ===== src/Examples/Reader.antt =====
-- The writes and the lifecycle of ModbusReader.cpp at concrete states.
use more_modbus.Prelude.{
  ℕ, ◌≡◌, refl, true, false, not, [], ◌∷◌, ok, arith, ◌==◌, if◌then◌else◌, Option,
}
use more_modbus.Prelude.Int.{ℤ, pos, ◌==ℤ◌}
use more_modbus.DataParsers.{uint16_to_int16}
use more_modbus.RegisterMapping.{
  holding_register, is_register, RegisterMapping, get_starting_address, get_register_count,
  set_valid,
}
use more_modbus.RegisterMapping.Update.{update_bool}
use more_modbus.ModbusClient.{
  ModbusClient, fill, connect, connect_context, create_context, write_holding_register,
  write_holding_registers, read_holding_register,
}
use more_modbus.ModbusReader.{with_bit, write_mapping, write_bit_mapping, is_registered}
use more_modbus.ModbusReader.BitWrite.{IsWithBit, with_bit_lem}
use more_modbus.ModbusReader.Writes.{Leaves, write_mapping_lem, write_bit_mapping_lem}
use more_modbus.ModbusReader.Lifecycle.{
  Lifecycle, no_thread, running, joined, start, stop, join, starts_again, no_calls, call_start,
  start_after_failure, restart_runs_nothing,
}
use more_modbus.Examples.{counting, unreachable, disconnected, int32_sample, bit_sample}

with_bit_lem_example : (w' : ℕ) × (with_bit 12 2 false ≡ ok w') × IsWithBit 12 2 false w'
with_bit_lem_example = with_bit_lem 12 2 false (omega arith) (omega arith)

abbrev kept : RegisterMapping ℤ
kept = record int32_sample { auto_local_update = false }

abbrev written : ModbusClient ℕ
written = record disconnected { lib = 2 }

write_mapping_lem_example :
    (is_register kept.register_type holding_register ≡ true)
    × ((get_register_count kept ==ℤ uint16_to_int16 2) ≡ true)
    × (is_registered (pos 1) (pos 1 ∷ []) ≡ true)
    × ((start : ℤ) × (get_starting_address kept ≡ ok start)
        × (written
            ≡ (write_holding_registers ⦃l = counting⦄ (pos 1) start (20 ∷ 0 ∷ []) disconnected).0)
        × (true
            ≡ (write_holding_registers ⦃l = counting⦄ (pos 1) start (20 ∷ 0 ∷ []) disconnected).1))
    × Leaves (pos 4) kept (20 ∷ 0 ∷ []) kept true
unfolding write_mapping get_register_count is_registered get_starting_address
    write_holding_registers
write_mapping_lem_example =
    write_mapping_lem ⦃l = counting⦄ (pos 4) (pos 1 ∷ []) disconnected written kept kept
      (20 ∷ 0 ∷ []) true refl

write_bit_mapping_lem_example :
    (w' : ℕ) × IsWithBit 1 2 true w'
    × (write_bit_mapping ⦃l = counting⦄ (pos 4) (pos 1 ∷ []) disconnected bit_sample true ≡ (
        let sent = write_holding_register ⦃l = counting⦄ (pos 1) (pos 100) w' written in
        ok (
          if 1 == w'
          then (written, bit_sample, true)
          else if not (sent.1)
          then (sent.0, set_valid bit_sample false, false)
          else if true
          then (sent.0, (update_bool (pos 4) bit_sample true).0, true)
          else (sent.0, bit_sample, true))))
unfolding is_registered get_starting_address read_holding_register fill
write_bit_mapping_lem_example =
    write_bit_mapping_lem ⦃l = counting⦄ (pos 4) (pos 1 ∷ []) disconnected written bit_sample true
      (pos 100) 1 refl refl refl refl refl (omega arith) (omega arith)

abbrev idle : Lifecycle ℕ
idle = record { client = disconnected; reader_should_run = false; main_reader_thread = no_thread }

start_after_failure_example :
    let failed = (start ⦃l = unreachable⦄ idle).0 in
    let later = starts_again ⦃l = unreachable⦄ 3 failed in
    ((start ⦃l = unreachable⦄ later).1 ≡ true)
    × ((start ⦃l = unreachable⦄ later).0 ≡ failed)
    × (failed.main_reader_thread ≡ no_thread)
unfolding start connect create_context connect_context
start_after_failure_example = start_after_failure ⦃l = unreachable⦄ 3 idle refl refl refl

abbrev stopped : Lifecycle ℕ
stopped = record idle { main_reader_thread = joined }

abbrev started : Lifecycle ℕ
started = (start ⦃l = counting⦄ stopped).0

restart_runs_nothing_example : started.main_reader_thread ≡ joined
unfolding stop join
restart_runs_nothing_example =
    restart_runs_nothing ⦃l = counting⦄
      (record idle { reader_should_run = true; main_reader_thread = running }) stopped started
      Option.some refl refl refl (call_start stopped stopped (no_calls stopped))
