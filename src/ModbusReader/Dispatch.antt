-- ===== src/ModbusReader/Dispatch.antt =====
-- Writes from a mapping: writeValue of more_modbus/RegisterMapping.cpp goes over the mapping's
-- group and device to the reader, to which addDevice of more_modbus/ModbusReader.cpp put the
-- device.
pub mod EndToEnd
pub mod Adding
use more_modbus.Prelude.{
  ℕ, ◌≡◌, Bool, true, false, List, [], ◌∷◌, map, Option, Result, ok, ◌>>=◌, if◌then◌else◌, set,
  get_elem?,
}
use more_modbus.Prelude.Int.{ℤ, ltb_ℤ}
use more_modbus.RegisterMapping.{OperationType, is_operation, RegisterMapping}
use more_modbus.ModbusClient.{LibModbus, ModbusClient}
use more_modbus.ModbusDevice.{ModbusDevice}
use more_modbus.ModbusDevice.Rewritable.{Objects, lock, pointer_of}
use more_modbus.ModbusReader.{Written, write_mapping, write_bool_mapping, write_bit_mapping}
use more_modbus.ModbusReader.Status.{DeviceStatus}

-- m_devices and m_deviceActiveStatus, by the slave addresses.
pub record ModbusReader (S : Type 0) : Type 0 where
  pub client : ModbusClient S
  pub devices : List (ℤ × ℕ)
  pub statuses : List (ℤ × DeviceStatus)

-- `std::map<int16_t, A>::emplace`
unfoldable pub emplace_at {ℓ} : {A : Type ℓ} → ℤ → A → List (ℤ × A) → List (ℤ × A)
emplace_at key value [] = (key, value) ∷ []
emplace_at key value (e ∷ rest) =
    let more = e ∷ emplace_at key value rest in
    if ltb_ℤ key (e.0) then (key, value) ∷ e ∷ rest else if ltb_ℤ (e.0) key then more else e ∷ rest

abbrev pub addresses_of {ℓ} : {A : Type ℓ} → List (ℤ × A) → List ℤ
addresses_of devices = map (λ e. e.0) devices

-- `device->setReader(reader)`
abbrev pub set_reader : List ModbusDevice → ℕ → ℕ → List ModbusDevice
set_reader devices id reader = elim (get_elem? devices id) [
  | Option.none ↦ devices
  | Option.some d ↦ set devices id (record d { reader = Option.some reader })
]

module _ {S D : Type 0} where
  -- void ModbusReader::addDevice(device); `self` is the reader's own index.
  unfoldable pub add_device : ℕ → Objects D × ModbusReader S → ℕ × ℤ → Objects D × ModbusReader S
  add_device self (o, r) (id, slave) = (
    record o { devices = set_reader o.devices id self },
    record r {
      devices = emplace_at slave id r.devices;
      statuses =
          emplace_at slave (record { active = false; reported = false; told = [] }) r.statuses;
    },
  )

  -- void ModbusReader::addDevices(devices): the devices with their slave addresses.
  unfoldable pub add_devices :
      ℕ → Objects D × ModbusReader S → List (ℕ × ℤ) → Objects D × ModbusReader S
  add_devices self s [] = s
  add_devices self s (device ∷ rest) = add_devices self (add_device self s device) rest

  -- group, device and reader, each if it is there
  unfoldable pub reader_of :
      Objects D → List (ModbusReader S) → RegisterMapping D → Option (ℕ × ModbusReader S)
  reader_of o readers m = elim (lock o.devices (pointer_of o m)) [
    | Option.none ↦ Option.none
    | Option.some device ↦ lock readers device.1.reader
  ]

-- The reader's client after a write, the mapping and the result.
module _ {S D : Type 0} ⦃l : LibModbus S⦄ where
  abbrev pub keep_client :
      List (ModbusReader S)
      → ℕ
      → ModbusReader S
      → Written S D
      → List (ModbusReader S) × RegisterMapping D × Bool
  keep_client readers i r w = (set readers i (record r { client = w.0 }), w.1, w.2)

  unfoldable pub write_through :
      Option (ℕ × ModbusReader S)
      → List (ModbusReader S)
      → RegisterMapping D
      → (ModbusReader S → Result (Written S D))
      → Result (List (ModbusReader S) × RegisterMapping D × Bool)
  write_through Option.none readers m write = ok (readers, m, false)
  write_through (Option.some (i, r)) readers m write =
      write r >>= λ w. ok (keep_client readers i r w)

  -- bool RegisterMapping::writeValue(const std::vector<std::uint16_t>&)
  unfoldable pub write_registers_value :
      ℤ
      → Objects D
      → List (ModbusReader S)
      → RegisterMapping D
      → List ℕ
      → Result (List (ModbusReader S) × RegisterMapping D × Bool)
  unfolding write_through
  write_registers_value now o readers m bytes =
      write_through (reader_of o readers m) readers m
        (λ r. write_mapping now (addresses_of r.devices) r.client m bytes)

  -- bool RegisterMapping::writeValue(bool)
  unfoldable pub write_bool_through :
      ℤ
      → Objects D
      → List (ModbusReader S)
      → RegisterMapping D
      → Bool
      → Result (List (ModbusReader S) × RegisterMapping D × Bool)
  unfolding write_through
  write_bool_through now o readers m value = write_through (reader_of o readers m) readers m (λ r.
      if is_operation m.operation_type OperationType.take_bit
      then write_bit_mapping now (addresses_of r.devices) r.client m value
      else write_bool_mapping now (addresses_of r.devices) r.client m value)
