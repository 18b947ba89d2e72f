-- ===== src/Examples/Copies.antt =====
-- A group that is read, and copies of it and of its device, at concrete mappings.
use more_modbus.RegisterGroup.Copying.Order.{IsOrdered}
use more_modbus.Prelude.{
  length, ℕ, ◌<◌, ◌≡◌, refl, true, false, List, [], ◌∷◌, ◌++◌, map, ok, arith, All, ◌>>=◌, Option,
}
use more_modbus.Prelude.Int.{ℤ, pos, ◌-ℤ◌}
use more_modbus.RegisterMapping.{holding_register, get_register_count}
use more_modbus.RegisterGroup.{
  RegisterGroup, Heap, claim, claim_less, get_mappings_claims, get_address_from_string,
}
use more_modbus.Prelude.Decimal.{to_string, digits_of, read_integer, read_digits}
use more_modbus.RegisterGroup.Layout.{registers, lay}
use more_modbus.RegisterGroup.Copying.{copy_group}
use more_modbus.RegisterGroup.Copying.Mappings.{IsCopy, AreDistinct, copy_group-AreDistinct}
use more_modbus.ModbusDevice.{ModbusDevice}
use more_modbus.ModbusDevice.Copying.{Copies, copy_device, claims_at, numbers, copy_device_total}
use more_modbus.ModbusGroupReader.Memory.{pass_memory, read_group_memory}
use more_modbus.ModbusGroupReader.Reading.{read_group}
use more_modbus.Examples.{int_double, counting, disconnected, int32_sample}

-- Mapping 0, and each other one, is of two registers.
abbrev samples : Heap ℤ
samples = λ id. int32_sample

abbrev group : RegisterGroup
group = record {
  register_type = holding_register;
  slave_address = pos 7;
  read_restricted = false;
  device = Option.none;
  mappings = lay 100 (registers 0 2 ∷ []);
}

read_group_memory_example :
    read_group ⦃l = counting⦄ ⦃d = int_double⦄ (pos 9) group disconnected (samples, []) ≡ (
      pass_memory ⦃d = int_double⦄
        (pos 9)
        Option.none
        (λ address. 1)
        100
        (registers 0 2 ∷ [])
        (samples, [])
      >>= λ p'. ok (record disconnected { lib = 2 }, p', true))
unfolding get_register_count
read_group_memory_example =
    read_group_memory ⦃l = counting⦄ ⦃d = int_double⦄ (pos 9) group (λ address. 1) 100
      (registers 0 2) [] disconnected (samples, []) refl ((omega arith, refl), tt) (omega arith)
      refl refl refl

ordered : IsOrdered (get_mappings_claims group)
unfolding get_mappings_claims claim_less ◌-ℤ◌ get_address_from_string read_integer claim to_string
    digits_of read_digits
ordered = (((refl, refl), tt), (tt, tt))

copy_group-AreDistinct_example :
    let r = copy_group 1 samples group in
    (get_mappings_claims (r.2) ≡ get_mappings_claims group)
    × ((id : ℕ) → id < 1 → r.1 id ≡ samples id)
    × AreDistinct (r.2).mappings
    × All (IsCopy 1 samples group (r.1)) (r.2).mappings
copy_group-AreDistinct_example =
    copy_group-AreDistinct 1 samples group (omega arith, (omega arith, tt)) ordered

abbrev device : ModbusDevice
device = record { slave_address = pos 7; groups = 0 ∷ []; rewrite = 0 ∷ []; reader = Option.none }

copy_device_total_example :
    (r : Copies ℤ × ModbusDevice) × (copy_device (pos 55) 1 samples (group ∷ []) device ≡ ok r)
    × ((added : List RegisterGroup) × (length added ≡ 1)
        × ((r.0).all_groups ≡ (group ∷ []) ++ added))
    × ((r.1).groups ≡ numbers 1 1)
    × (map (claims_at (r.0).all_groups) (r.1).groups ≡ map (claims_at (group ∷ [])) (0 ∷ []))
copy_device_total_example =
    copy_device_total (pos 55) 1 samples (group ∷ []) device ((group, refl, ordered), tt)
