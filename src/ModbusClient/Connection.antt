-- ===== src/ModbusClient/Connection.antt =====
-- The connection flag of ModbusClient.cpp through connect and disconnect.
use more_modbus.Prelude.{◌≡◌, true, false, not, ◌&&◌, arith}
use more_modbus.ModbusClient.{
  LibModbus, ModbusClient, create_context, disconnect, destroy_context, connect_context, connect,
}

-- The context is there exactly when it is marked as created, and a connection needs one.
pub record IsConsistent {S : Type 0} (c : ModbusClient S) : Type 0 where
  pub marked : c.context_created ≡ c.modbus
  pub backed : (c.connected && not c.modbus) ≡ false

module _ {S : Type 0} ⦃l : LibModbus S⦄ where
  connect_context_lem :
      (c : ModbusClient S)
      → c.modbus ≡ true
      → c.context_created ≡ true
      → c.connected ≡ false
      → let r = connect_context c in ((r.0).connected ≡ r.1) × IsConsistent (r.0)
  unfolding connect_context
  connect_context_lem c a b d = ground arith

  -- connect tells whether the client is connected afterwards, keeps the context and its mark
  -- together, and leaves no connection without a context, whatever libmodbus answers.
  pub connect_result :
      (c : ModbusClient S)
      → IsConsistent c
      → let r = connect c in ((r.0).connected ≡ r.1) × IsConsistent (r.0)
  unfolding connect create_context
  connect_result c v =
      ground (arith, connect_context_lem c, connect_context_lem (create_context c).0)

  -- So do disconnect and destroyContext, after which there is no connection, and after
  -- destroyContext no context either.
  pub disconnect_result :
      (c : ModbusClient S)
      → IsConsistent c
      → ((disconnect c).connected ≡ false)
        × IsConsistent (disconnect c)
        × ((destroy_context c).connected ≡ false)
        × ((destroy_context c).modbus ≡ false)
        × IsConsistent (destroy_context c)
  unfolding destroy_context
  disconnect_result c v = ground arith
