-- ===== src/Examples/Client.antt =====
-- The client of ModbusClient.cpp at concrete states.
use more_modbus.Prelude.{ℕ, ◌≡◌, refl, some, true, [], ◌∷◌, map, ok, err, undefined, arith}
use more_modbus.Prelude.Int.{pos}
use more_modbus.ModbusClient.{ModbusClient, to_bool, connect, read_coils, read_input_contacts}
use more_modbus.ModbusClient.Connection.{IsConsistent, connect_result}
use more_modbus.ModbusClient.Buffers.{read_coils_lem, read_input_contacts_overflow}
use more_modbus.Examples.{counting, counting-IsLibModbus, unreachable, disconnected}

connect_result_example :
    let r = connect ⦃l = unreachable⦄ disconnected in ((r.0).connected ≡ r.1) × IsConsistent (r.0)
connect_result_example =
    connect_result ⦃l = unreachable⦄ disconnected (record { marked = refl; backed = refl })

abbrev connected_client : ModbusClient ℕ
connected_client = record disconnected { connected = true; context_created = true; modbus = true }

read_coils_lem_example :
    read_coils ⦃l = counting⦄ (pos 1) (pos 40) 3 connected_client
    ≡ ok (record connected_client { lib = 2 }, some (map to_bool (1 ∷ 1 ∷ 1 ∷ [])))
read_coils_lem_example =
    read_coils_lem ⦃l = counting⦄ counting-IsLibModbus (pos 1) (pos 40) 3 connected_client
      (1 ∷ 1 ∷ 1 ∷ []) refl refl

read_input_contacts_overflow_example :
    read_input_contacts ⦃l = counting⦄ (pos 1) (pos 40) 3 connected_client ≡ err undefined
read_input_contacts_overflow_example =
    read_input_contacts_overflow ⦃l = counting⦄ counting-IsLibModbus (pos 1) (pos 40) 3
      connected_client (1 ∷ 1 ∷ 1 ∷ []) (omega arith) refl refl
