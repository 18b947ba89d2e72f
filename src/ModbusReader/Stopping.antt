-- ===== src/ModbusReader/Stopping.antt =====
-- more_modbus/ModbusReader.cpp: stop while the main thread is in its loop of connection attempts.
use more_modbus.Prelude.{ℕ, ok, err, Option}
use more_modbus.ModbusClient.{LibModbus, ModbusClient}
use more_modbus.ModbusReader.Lifecycle.{Lifecycle, Ending}
use more_modbus.ModbusReader.Run.{MainLoop, connection_attempts}

module _ {S : Type 0} ⦃l : LibModbus S⦄ where
  -- The main thread's end when it is in the loop of attempts: that loop first ends with a
  -- connection, of which the rest of the turn only tells the devices. What the devices' threads do
  -- with the client meanwhile is left out.
  unfoldable pub reconnecting : ℕ → MainLoop S → Ending S
  reconnecting fuel m c = elim (connection_attempts fuel (record m { client = c })) [
    | ok m' ↦ Option.some m'.client
    | err e ↦ Option.none
  ]
