-- ===== src/Examples/Loop.antt =====
-- The reader's main loop, its devices and the writes that go through it, at concrete states.
use more_modbus.Prelude.{
  ℕ, zero, suc, ◌==◌, subst, Bool-cases, inl, inr, ◌≡◌, refl, true, false, List, [], ◌∷◌, ok, arith,
  Option, get_elem?, if◌then◌else◌, ◌+◌, leb,
}
use mathlib.Core.Option.{some-injective}
use more_modbus.Prelude.Int.{ℤ, pos, negsuc}
use more_modbus.DataParsers.{int32_to_registers, big}
use more_modbus.RegisterMapping.{
  RegisterMapping, Typed, get_starting_address, get_register_count, holding_register, set_group,
}
use more_modbus.RegisterMapping.Update.{update_values}
use more_modbus.Mappings.{write_value, encode, encode_int32, decode, update, decode_int32}
use more_modbus.DataParsers.{registers_to_int32}
use more_modbus.RegisterGroup.{RegisterGroup, Heap}
use more_modbus.ModbusClient.{
  LibModbus, ModbusClient, connect, disconnect, connect_context, create_context,
  write_holding_registers,
}
use more_modbus.ModbusClient.Connection.{IsConsistent}
use more_modbus.ModbusDevice.{ModbusDevice}
use more_modbus.ModbusDevice.Rewritable.{Objects, set_repeated_write}
use more_modbus.ModbusDevice.Rewritable.Tracked.{
  IsTracked, count, rewrites, set_repeated_write-IsTracked,
}
use more_modbus.ModbusReader.{is_registered, write_mapping}
use more_modbus.ModbusReader.Run.{
  MainLoop, connecting, setting, Reachable, first, step, main, first_turn, turn, advance,
  advance_from, connection_attempts,
}
use more_modbus.ModbusReader.Run.Invariant.{IsSteady, Reachable-IsSteady}
use more_modbus.ModbusReader.Run.Backoff.{backoff, connection_attempts_end}
use more_modbus.ModbusReader.Dispatch.{
  ModbusReader, add_devices, addresses_of, reader_of, write_registers_value,
}
use more_modbus.ModbusReader.Dispatch.Adding.{add_devices_lem}
use more_modbus.ModbusReader.Dispatch.EndToEnd.{IsSent, written_value}
use more_modbus.Examples.{counting, disconnected, int32_sample}

-- A line that connects on its second try, after five calls.
abbrev slow : LibModbus ℕ
slow = record counting { modbus_connect = λ s. (s + 1, leb 5 s) }

abbrev start : MainLoop ℕ
start = first_turn disconnected 2

abbrev lost : MainLoop ℕ
lost = record start { should_reconnect = true }

abbrev dropped : MainLoop ℕ
dropped = record start { phase = setting false 0 }

sound : IsConsistent disconnected
sound = record { marked = refl; backed = refl }

reach : Reachable ⦃l = slow⦄ dropped
unfolding advance advance_from turn
reach =
    step lost dropped (step start lost (first disconnected 2 sound) (main start lost refl))
      (main lost dropped refl)

Reachable-IsSteady_example : IsSteady dropped
Reachable-IsSteady_example = Reachable-IsSteady ⦃l = slow⦄ dropped reach

abbrev live : ModbusClient ℕ
live = record disconnected { connected = true; context_created = true; modbus = true }

abbrev cut : ModbusClient ℕ
cut = disconnect ⦃l = slow⦄ live

abbrev second : ModbusClient ℕ
second = (connect ⦃l = slow⦄ cut).0

abbrev third : ModbusClient ℕ
third = (connect ⦃l = slow⦄ second).0

abbrev attempting : MainLoop ℕ
attempting = record start { client = cut; phase = connecting; timeout_iterator = 9 }

connection_attempts_end_example :
    connection_attempts ⦃l = slow⦄ 2 attempting
    ≡ ok (record attempting {
      client = third;
      phase = setting true 0;
      timeout_iterator = 0;
      slept = backoff 9 1;
    })
unfolding disconnect connect connect_context create_context
connection_attempts_end_example =
    connection_attempts_end ⦃l = slow⦄ 1 2 attempting third refl (omega arith) (refl, refl)
      (omega arith)

-- One mapping of each number, all in group 0 of device 0, of which only mapping 3 is rewritten.
abbrev heap : Heap ℤ
heap = λ id. record (set_group int32_sample (Option.some 0)) {
  repeated_write = if id == 3 then pos 50 else pos 0;
}

abbrev group : RegisterGroup
group = record {
  register_type = holding_register;
  slave_address = pos 1;
  read_restricted = false;
  device = Option.some 0;
  mappings = [];
}

abbrev device : ModbusDevice
device = record { slave_address = pos 1; groups = 0 ∷ []; rewrite = 3 ∷ []; reader = Option.some 0 }

abbrev objects : Objects ℤ
objects = record { heap = heap; groups = group ∷ []; devices = device ∷ [] }

tracked : IsTracked objects
unfolding set_group
tracked id zero d pointer found =
    subst (λ (x : ModbusDevice). count id x.rewrite ≡ rewrites (heap id))
      (some-injective device d found)
      (elim (Bool-cases (id == 3)) [ inl same ↦ ground arith | inr other ↦ ground arith ])
tracked id (suc i) d pointer found = cc

set_repeated_write-IsTracked_example : IsTracked (set_repeated_write objects 4 (pos 20))
unfolding set_group
set_repeated_write-IsTracked_example =
    set_repeated_write-IsTracked objects 4 (pos 20) tracked refl refl

abbrev reader : ModbusReader ℕ
reader = record { client = disconnected; devices = (pos 1, 0) ∷ []; statuses = [] }

add_devices_lem_example :
    let s' = add_devices 0 (objects, reader) ((5, pos 9) ∷ (0, pos 1) ∷ []) in
    (is_registered (pos 1) (addresses_of s'.1.devices) ≡ true)
    × (get_elem? s'.0.devices 0 ≡ Option.some (record device { reader = Option.some 0 }))
add_devices_lem_example =
    add_devices_lem 0 (objects, reader) ((5, pos 9) ∷ (0, pos 1) ∷ []) 1 0 (pos 1) device refl refl

abbrev mapping : RegisterMapping ℤ
mapping = heap 0

abbrev value : Typed
value = Typed.int32_mapping (negsuc 4)

abbrev written : RegisterMapping ℤ
written = record mapping {
  typed = value;
  byte_values = int32_to_registers (negsuc 4) big;
  last_update_time = pos 4;
}

written_value_example :
    (bytes : List ℕ) × IsSent ⦃l = counting⦄ objects (reader ∷ []) mapping bytes
    × (decode value mapping.operation_type bytes ≡ ok value)
    × (written.typed ≡ value)
    × (written.byte_values ≡ bytes)
    × (written.is_valid ≡ true)
unfolding set_group write_value encode encode_int32 write_registers_value write_mapping reader_of
    get_register_count int32_to_registers is_registered get_starting_address write_holding_registers
    update decode decode_int32 registers_to_int32 update_values
written_value_example =
    written_value ⦃l = counting⦄ 0 (pos 4) objects (reader ∷ []) mapping written value
      (omega arith, omega arith) refl refl
