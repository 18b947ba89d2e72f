-- ===== src/RegisterGroup/Copying.antt =====
-- The copy constructors of more_modbus/RegisterGroup.cpp and more_modbus/ModbusDevice.cpp. Each
-- std::make_shared takes the next number of the heap, from `next` on.
pub mod Order
pub mod Claims
pub mod Mappings
use more_modbus.Prelude.{ℕ, ◌+◌, List, [], ◌∷◌, ◌++◌, Option, Result, ok, ◌>>=◌, length}
use more_modbus.Prelude.Int.{ℤ, minus_one}
use more_modbus.RegisterMapping.{RegisterMapping, plain_mapping, set_slave_address}
use more_modbus.RegisterGroup.{RegisterGroup, Entry, Heap, store, emplace, get_mappings_map}

module _ {D : Type 0} where
  -- `RegisterMapping(*mapping)`, which keeps nothing of a derived class, with the slave's address
  -- taken back.
  pub copied : RegisterMapping D → RegisterMapping D
  copied m = set_slave_address (record m { typed = plain_mapping }) minus_one

  -- The loop over the claims of the group that is copied.
  pub copy_entries : ℕ → Heap D → List Entry → List Entry → ℕ × Heap D × List Entry
  unfolding copied
  copy_entries next heap acc [] = (next, heap, acc)
  copy_entries next heap acc (e ∷ rest) =
      copy_entries (next + 1) (store heap next (copied (heap (e.1)))) (emplace (e.0, next) acc) rest

  -- RegisterGroup(const RegisterGroup&)
  unfoldable pub copy_group : ℕ → Heap D → RegisterGroup → ℕ × Heap D × RegisterGroup
  unfolding copy_entries
  copy_group next heap g =
      let copies = copy_entries next heap [] (get_mappings_map g) in
      (
        copies.0,
        copies.1,
        record {
          register_type = g.register_type;
          slave_address = minus_one;
          read_restricted = g.read_restricted;
          device = Option.none;
          mappings = copies.2;
        },
      )
