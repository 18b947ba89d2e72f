-- ===== src/ModbusDevice/Rewritable.antt =====
-- The mappings that a device rewrites: addRewritable and removeRewritable of
-- more_modbus/ModbusDevice.cpp, and setRepeatedWrite of more_modbus/RegisterMapping.cpp, which
-- calls them. A weak pointer is an index into the objects, and one past their end has expired.
pub mod Tracked
use more_modbus.Prelude.{
  ℕ, zero, suc, ◌+◌, ◌≡◌, Bool, true, false, not, ◌&&◌, ◌||◌, List, [], ◌∷◌, ◌++◌, Option, ◌==◌,
  if◌then◌else◌, get_elem?, set,
}
use more_modbus.Prelude.Int.{ℤ, pos, ltb_ℤ, ◌==ℤ◌}
use more_modbus.RegisterMapping.{RegisterMapping}
use more_modbus.RegisterGroup.{RegisterGroup, Heap, store}
use more_modbus.ModbusDevice.{ModbusDevice}

-- `std::find`
unfoldable pub find_mapping : ℕ → List ℕ → Bool
find_mapping id [] = false
find_mapping id (x ∷ rest) = x == id || find_mapping id rest

-- `m_rewrite.erase(it)` for the first one found
unfoldable pub erase_mapping : ℕ → List ℕ → List ℕ
erase_mapping id [] = []
erase_mapping id (x ∷ rest) = if x == id then rest else x ∷ erase_mapping id rest

unfoldable pub add_rewritable : ModbusDevice → ℕ → ModbusDevice
unfolding find_mapping
add_rewritable device id =
    if find_mapping id device.rewrite
    then device
    else record device { rewrite = device.rewrite ++ (id ∷ []) }

unfoldable pub remove_rewritable : ModbusDevice → ℕ → ModbusDevice
unfolding erase_mapping
remove_rewritable device id = record device { rewrite = erase_mapping id device.rewrite }

-- All mappings, groups and devices.
pub record Objects (D : Type 0) : Type 0 where
  pub heap : Heap D
  pub groups : List RegisterGroup
  pub devices : List ModbusDevice

-- `pointer.lock()`
abbrev pub lock {ℓ} : {A : Type ℓ} → List A → Option ℕ → Option (ℕ × A)
lock xs Option.none = Option.none
lock xs (Option.some i) = elim (get_elem? xs i) [
  | Option.none ↦ Option.none
  | Option.some x ↦ Option.some (i, x)
]

-- A change of the device that was locked, if any.
abbrev pub change_locked :
    List ModbusDevice
    → Option (ℕ × ModbusDevice)
    → (ModbusDevice → ModbusDevice)
    → List ModbusDevice
change_locked devices Option.none change = devices
change_locked devices (Option.some (i, d)) change = set devices i (change d)

module _ {D : Type 0} where
  -- The device of a mapping's group.
  abbrev pub pointer_of : Objects D → RegisterMapping D → Option ℕ
  pointer_of o m = elim (lock o.groups m.group) [
    | Option.none ↦ Option.none
    | Option.some group ↦ group.1.device
  ]

  abbrev pub set_device : Objects D → RegisterMapping D → (ModbusDevice → ModbusDevice) → Objects D
  set_device o m change = record o {
    devices = change_locked o.devices (lock o.devices (pointer_of o m)) change;
  }

  -- void RegisterMapping::setRepeatedWrite(repeatedWrite)
  unfoldable pub set_repeated_write : Objects D → ℕ → ℤ → Objects D
  set_repeated_write o id interval =
      let m = o.heap id in
      let starts = m.repeated_write ==ℤ pos 0 && ltb_ℤ (pos 0) interval in
      let stops = ltb_ℤ (pos 0) m.repeated_write && interval ==ℤ pos 0 in
      let o' =
        if starts
        then set_device o m (λ d. add_rewritable d id)
        else if stops
        then set_device o m (λ d. remove_rewritable d id)
        else o in
      record o' { heap = store o.heap id (record m { repeated_write = interval }) }
