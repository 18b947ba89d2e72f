-- ===== src/ModbusReader/Status.antt =====
-- more_modbus/ModbusReader.cpp: one turn of readDevice over the groups of a device, and the status
-- that readDevice and rewriteDevice report under the mutex.
pub mod Reports
pub mod Turn
use more_modbus.Prelude.{
  ℕ, zero, suc, ◌+◌, ◌%◌, ◌^◌, ◌≤◌, ◌<◌, ◌≡◌, refl, sym, ap, ◌∙◌, Bool, true, false, not, ◌||◌,
  ◌&&◌, List, [], ◌∷◌, ◌++◌, Result, ok, ◌>>=◌, ◌==◌, if◌then◌else◌, length, arith, >>=-eq-ok,
  ok-injective, Option, Bool-cases, inl, inr, subst,
}
use mathlib.Core.List.{append_assoc, append-nil}
use more_modbus.Prelude.Int.{ℤ}
use more_modbus.RegisterMapping.{Double}
use more_modbus.RegisterMapping.Update.{differs_bool}
use more_modbus.RegisterGroup.{RegisterGroup}
use more_modbus.ModbusGroupReader.{Pass}
use more_modbus.ModbusGroupReader.Reading.{read_group}
use more_modbus.ModbusClient.{LibModbus, ModbusClient}

-- One device in m_deviceActiveStatus and m_deviceStatusReported, and what its callback
-- triggerOnStatusChange has been told.
pub record DeviceStatus : Type 0 where
  pub active : Bool
  pub reported : Bool
  pub told : List Bool

-- void ModbusReader::triggerDeviceStatusUpdate(device, status)
unfoldable pub trigger_device_status_update : DeviceStatus → Bool → DeviceStatus
trigger_device_status_update s status = record s {
  active = status;
  reported = true;
  told = s.told ++ (status ∷ []);
}

-- The status is told if it is new.
unfoldable pub report_status : DeviceStatus → Bool → DeviceStatus
unfolding trigger_device_status_update
report_status s status =
    if differs_bool s.active status || not s.reported
    then trigger_device_status_update s status
    else s

unfoldable pub report_all : DeviceStatus → List Bool → DeviceStatus
report_all s [] = s
report_all s (status ∷ rest) = report_all (report_status s status) rest

module _ {S D : Type 0} ⦃l : LibModbus S⦄ ⦃d : Double D⦄ where
  -- The loop over the groups, which counts those that were not read in a `uint16_t`.
  unfoldable pub read_groups :
      ℤ → List RegisterGroup → ModbusClient S → Pass D → ℕ → Result (ModbusClient S × Pass D × ℕ)
  read_groups now [] c p unread = ok (c, p, unread)
  read_groups now (g ∷ rest) c p unread = do
    read ← read_group now g c p
    read_groups now rest read.0 read.1 (if read.2 then unread else ((unread + 1) % 2 ^ 16))

  -- One turn of readDevice. A device without groups is neither read nor reported: the thread ends.
  unfoldable pub read_device :
      ℤ
      → List RegisterGroup
      → ModbusClient S
      → Pass D
      → DeviceStatus
      → Result (ModbusClient S × Pass D × DeviceStatus)
  read_device now [] c p s = ok (c, p, s)
  read_device now (g ∷ rest) c p s = do
    read ← read_groups now (g ∷ rest) c p 0
    ok (read.0, read.1, report_status s (not (read.2 == suc (length rest))))
