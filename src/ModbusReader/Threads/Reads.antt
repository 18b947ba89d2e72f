-- ===== src/ModbusReader/Threads/Reads.antt =====
-- A read of a group by a thread of readDevice of ModbusReader.cpp, whatever the threads did before.
use more_modbus.Prelude.{ℕ, ◌+◌, ◌^◌, ◌≤◌, ◌≡◌, true, false, List, ◌∷◌, Option, ok, ◌>>=◌}
use more_modbus.Prelude.Int.{ℤ, pos}
use more_modbus.RegisterMapping.{Double}
use more_modbus.RegisterGroup.{RegisterGroup}
use more_modbus.RegisterGroup.Layout.{Block, total_size, lay, AreBlocks}
use more_modbus.ModbusGroupReader.Reading.{read_group}
use more_modbus.ModbusGroupReader.Memory.{slice, pass_memory, read_words, read_group_memory}
use more_modbus.ModbusClient.{LibModbus}
use more_modbus.ModbusReader.Threads.{Threads, Moves}
use more_modbus.ModbusReader.Threads.Ownership.{OwnGroups, IsOwn}
use more_modbus.ModbusReader.Threads.Isolation.{Moves-AreBlocks}

-- However the devices' threads and the application's calls took turns before, if the groups of each
-- device, and what its threads were about to use at first, are its own: a group that may be read,
-- and that was laid out as blocks of registers from an address on in the range of an int16, is read
-- as on its own. When the slave is set and libmodbus's read shows what the device holds, each
-- mapping is offered what the device holds at its own addresses.
pub Moves-read_group :
    {S D : Type 0} ⦃l : LibModbus S⦄ ⦃d : Double D⦄ (groups : ℕ → List RegisterGroup)
    (owner : ℕ → ℕ) (is : List ℕ) (s s' : Threads S D) (now : ℤ) (g : RegisterGroup) (mem : ℕ → ℕ)
    (a : ℕ) (first : Block) (rest : List Block)
    → ((i : ℕ) → OwnGroups owner i (groups i))
    → ((i : ℕ) → IsOwn owner i s)
    → Moves groups owner is s s'
    → g.mappings ≡ lay a (first ∷ rest)
    → AreBlocks s.heap (first ∷ rest)
    → a + total_size (first ∷ rest) ≤ 2 ^ 15
    → g.read_restricted ≡ false
    → (l.modbus_set_slave g.slave_address s'.client.lib).1 ≡ true
    → (read_words g.register_type
        (pos a)
        (total_size (first ∷ rest))
        (l.modbus_set_slave g.slave_address s'.client.lib).0).1
      ≡ Option.some (slice mem a (total_size (first ∷ rest)))
    → read_group now g s'.client (s'.heap, s'.notices) ≡ (
        pass_memory now g.device mem a (first ∷ rest) (s'.heap, s'.notices) >>= λ p'. ok (
          record (s'.client) {
            lib =
                (read_words g.register_type
                  (pos a)
                  (total_size (first ∷ rest))
                  (l.modbus_set_slave g.slave_address s'.client.lib).0).0;
          },
          p',
          true,
        ))
Moves-read_group groups owner is s s' now g mem a first rest own first-IsOwn moves laid blocks room
      allowed set e =
    read_group_memory now g mem a first rest s'.client (s'.heap, s'.notices) laid
      (Moves-AreBlocks groups owner own is s s' (first ∷ rest) moves first-IsOwn blocks) room set
      allowed e
