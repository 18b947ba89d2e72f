-- ===== src/ModbusReader/Dispatch/Adding.antt =====
-- addDevices of ModbusReader.cpp: the devices that were added can be written to.
use more_modbus.Prelude.{
  ℕ, zero, suc, ◌≡◌, ◌≢◌, refl, sym, ap, ◌∙◌, subst, ◌⊎◌, inl, inr, true, List, [], ◌∷◌, Option,
  set, get_elem?, arith, ◌==◌, ==_iff, Bool-cases, get_elem?-set_self, get_elem?-set_ne,
  get_elem?_bound,
}
use mathlib.Core.Option.{some-injective}
use more_modbus.Prelude.Int.{ℤ}
use more_modbus.ModbusDevice.{ModbusDevice}
use more_modbus.ModbusDevice.Rewritable.{Objects}
use more_modbus.ModbusReader.{is_registered}
use more_modbus.ModbusReader.Dispatch.{
  ModbusReader, emplace_at, addresses_of, set_reader, add_device, add_devices,
}

module _ {A : Type 0} where
  emplace_registers :
      (key : ℤ) (value : A) (xs : List (ℤ × A))
      → is_registered key (addresses_of (emplace_at key value xs)) ≡ true
  unfolding emplace_at is_registered
  emplace_registers key value [] = ground arith
  emplace_registers key value (e ∷ rest) = ground (arith, emplace_registers key value rest)

  emplace_keeps :
      (key other : ℤ) (value : A) (xs : List (ℤ × A))
      → is_registered other (addresses_of xs) ≡ true
      → is_registered other (addresses_of (emplace_at key value xs)) ≡ true
  unfolding emplace_at is_registered
  emplace_keeps key other value [] h = cc
  emplace_keeps key other value (e ∷ rest) h = ground (arith, emplace_keeps key other value rest)

abbrev with_reader : ModbusDevice → ℕ → ModbusDevice
with_reader d self = record d { reader = Option.some self }

-- What setReader leaves of a device, by whether the one that it is called on is there.
after : List ModbusDevice → (id self j : ℕ) → Option ModbusDevice → Option ModbusDevice
after ds id self j Option.none = get_elem? ds j
after ds id self j (Option.some d) = get_elem? (set ds id (with_reader d self)) j

set_reader-after :
    (ds : List ModbusDevice) (id self j : ℕ)
    → get_elem? (set_reader ds id self) j ≡ after ds id self j (get_elem? ds id)
unfolding after
set_reader-after ds id self j =
    elim (get_elem? ds id)
      as (λ o.
        get_elem? (elim o [ Option.none ↦ ds | Option.some d ↦ set ds id (with_reader d self) ]) j
        ≡ after ds id self j o) [ Option.none ↦ refl | Option.some d ↦ refl ]

set_reader_at :
    (ds : List ModbusDevice) (id self : ℕ) (d : ModbusDevice)
    → get_elem? ds id ≡ Option.some d
    → get_elem? (set_reader ds id self) id ≡ Option.some (with_reader d self)
unfolding after
set_reader_at ds id self d there =
    set_reader-after ds id self id
    ∙ ap (after ds id self id) there
    ∙ get_elem?-set_self ds id (with_reader d self) (get_elem?_bound ds id d there)

set_reader_other :
    (ds : List ModbusDevice) (id self j : ℕ) (d : ModbusDevice)
    → id ≢ j
    → get_elem? ds j ≡ Option.some d
    → get_elem? (set_reader ds id self) j ≡ Option.some d
unfolding after
set_reader_other ds id self j d apart there = set_reader-after ds id self j ∙ rest (get_elem? ds id)
  where
    rest : (o : Option ModbusDevice) → after ds id self j o ≡ Option.some d
    rest Option.none = there
    rest (Option.some x) = get_elem?-set_ne ds (with_reader x self) apart ∙ there

-- A device that is there has the reader, or is as it was.
set_reader_found :
    (ds : List ModbusDevice) (id self j : ℕ) (d : ModbusDevice)
    → get_elem? ds j ≡ Option.some d
    → (get_elem? (set_reader ds id self) j ≡ Option.some (with_reader d self))
      ⊎ (get_elem? (set_reader ds id self) j ≡ Option.some d)
set_reader_found ds id self j d there = elim (Bool-cases (id == j)) [
  | inl same ↦ inl (
      subst (λ (k : ℕ). get_elem? (set_reader ds k self) j ≡ Option.some (with_reader d self))
        (sym ((==_iff id j).0 same)) (set_reader_at ds j self d there))
  | inr other ↦ inr (set_reader_other ds id self j d (ground arith) there)
]

set_reader_keeps :
    (ds : List ModbusDevice) (id self j : ℕ) (d : ModbusDevice)
    → get_elem? ds j ≡ Option.some (with_reader d self)
    → get_elem? (set_reader ds id self) j ≡ Option.some (with_reader d self)
set_reader_keeps ds id self j d there =
    elim (set_reader_found ds id self j (with_reader d self) there) [ inl e ↦ e | inr e ↦ e ]

module _ {S D : Type 0} where
  add_devices_keep :
      (self : ℕ) (s : Objects D × ModbusReader S) (devices : List (ℕ × ℤ)) (id : ℕ) (slave : ℤ)
      (d : ModbusDevice)
      → is_registered slave (addresses_of s.1.devices) ≡ true
      → get_elem? s.0.devices id ≡ Option.some (with_reader d self)
      → let s' = add_devices self s devices in
        (is_registered slave (addresses_of s'.1.devices) ≡ true)
        × (get_elem? s'.0.devices id ≡ Option.some (with_reader d self))
  unfolding add_devices add_device
  add_devices_keep self s [] id slave d known there = (known, there)
  add_devices_keep self s (e ∷ rest) id slave d known there =
      add_devices_keep self (add_device self s e) rest id slave d
        (emplace_keeps (e.1) slave (e.0) s.1.devices known)
        (set_reader_keeps s.0.devices (e.0) self id d there)

  -- After addDevices, the reader knows the slave address of each device that it was given, also of
  -- one that its map has no place for since another device has the address, and the device has the
  -- reader; nothing else of the device changes.
  pub add_devices_lem :
      (self : ℕ) (s : Objects D × ModbusReader S) (devices : List (ℕ × ℤ)) (k id : ℕ) (slave : ℤ)
      (d : ModbusDevice)
      → get_elem? devices k ≡ Option.some (id, slave)
      → get_elem? s.0.devices id ≡ Option.some d
      → let s' = add_devices self s devices in
        (is_registered slave (addresses_of s'.1.devices) ≡ true)
        × (get_elem? s'.0.devices id ≡ Option.some (record d { reader = Option.some self }))
  unfolding add_devices add_device
  add_devices_lem self s [] k id slave d given there = cc
  add_devices_lem self s (e ∷ rest) zero id slave d given there =
      let eq : e ≡ (id, slave) = some-injective e (id, slave) given in
      subst
        (λ (x : ℕ × ℤ).
          let s' = add_devices self (add_device self s x) rest in
          (is_registered slave (addresses_of s'.1.devices) ≡ true)
          × (get_elem? s'.0.devices id ≡ Option.some (with_reader d self)))
        (sym eq)
        (add_devices_keep self (add_device self s (id, slave)) rest id slave d
          (emplace_registers slave id s.1.devices) (set_reader_at s.0.devices id self d there))
  add_devices_lem self s (e ∷ rest) (suc k) id slave d given there =
      elim (set_reader_found s.0.devices (e.0) self id d there) [
        | inl e' ↦
            add_devices_lem self (add_device self s e) rest k id slave (with_reader d self) given e'
        | inr e' ↦ add_devices_lem self (add_device self s e) rest k id slave d given e'
      ]
