-- ===== src/ModbusMappingReader/Agreement.antt =====
-- What ModbusMappingReader.cpp and ModbusGroupReader.cpp do with a value that was read.
use more_modbus.Prelude.{
  ℕ, ◌≡◌, refl, sym, ◌∙◌, Bool, true, false, List, Option, Result, ok, err, ◌>>=◌, if◌then◌else◌,
  arith, >>=-eq-ok,
}
use more_modbus.Prelude.Int.{ℤ, pos}
use more_modbus.RegisterMapping.{Double, RegisterMapping}
use more_modbus.RegisterMapping.Update.{
  does_update_values, does_update_bool, update_bool, update_values, updated, update_values-eq_ok,
}
use more_modbus.RegisterMapping.Deadband.{update-of_does_update}
use more_modbus.Mappings.{update, decode}
use more_modbus.RegisterGroup.{store}
use more_modbus.ModbusGroupReader.{notify, values_changed, Pass, pass_bool, pass_registers}
use more_modbus.ModbusMappingReader.{take_bool, take_registers}

module _ {D : Type 0} where
  -- Without a frequency filter, a coil or contact that is read by itself is handled as in a group,
  -- and the read is reported as successful.
  pub take_bool-eq-pass_bool :
      (now : ℤ) (device : Option ℕ) (id : ℕ) (value : Bool) (p : Pass D)
      → (p.0 id).frequency_filter_value ≡ pos 0
      → take_bool now device id value p ≡ (pass_bool now device id value p, true)
  unfolding take_bool pass_bool does_update_bool update_bool
  take_bool-eq-pass_bool now device id value (heap, notices) off = ground arith

-- Two ways to end are one where the update reports a change.
take_by :
    {M P : Type 0} (wanted : Result Bool) (u : Result (M × Bool)) (told silent : M → P) (p : P)
    → (wanted ≡ ok true → (m : M) (b : Bool) → u ≡ ok (m, b) → b ≡ true)
    → ◌>>=◌ {B = P × Bool} wanted (λ w.
      let finish : M × Bool → P × Bool =
        λ x. if x.1 then (told x.0, true) else (silent x.0, false) in
      if w then (◌>>=◌ {B = P × Bool} u (λ x. ok (finish x))) else ok (p, true))
      ≡ ◌>>=◌ {B = P × Bool}
          (wanted >>= λ w. if w then (u >>= λ x. ok (told x.0)) else ok p)
          (λ q. ok (q, true))
take_by (err e) u told silent p h = refl
take_by (ok false) u told silent p h = refl
take_by (ok true) (err e) told silent p h = refl
take_by (ok true) (ok (m, true)) told silent p h = refl
take_by (ok true) (ok (m, false)) told silent p h = let no = h refl m false refl in cc

module _ {D : Type 0} ⦃d : Double D⦄ where
  update_reports :
      (now : ℤ) (m m' : RegisterMapping D) (new : List ℕ) (changed : Bool)
      → does_update_values now m new ≡ ok true
      → update now m new ≡ ok (m', changed)
      → changed ≡ true
  unfolding update
  update_reports now m m' new changed e u =
      let (v, _, y) =
        >>=-eq-ok (decode m.typed m.operation_type new)
          (λ v. update_values now (record m { typed = v }) new) u in
      let full = update-of_does_update now now m new e in
      let (_, _, a) = update_values-eq_ok now m (updated now m new) new full in
      let (_, _, b) = update_values-eq_ok now (record m { typed = v }) m' new y in b ∙ sym a

  -- Register values that are read by themselves are handled as in a group, errors included, and the
  -- read is reported as successful.
  pub take_registers-eq-pass_registers :
      (now : ℤ) (device : Option ℕ) (id : ℕ) (values : List ℕ) (p : Pass D)
      → take_registers now device id values p
        ≡ (pass_registers now device id values p >>= λ p'. ok (p', true))
  unfolding take_registers pass_registers
  take_registers-eq-pass_registers now device id values (heap, notices) =
      take_by (does_update_values now (heap id) values) (update now (heap id) values)
        (λ m. (store heap id m, notify device (values_changed id values) notices))
        (λ m. (store heap id m, notices)) (heap, notices)
        (λ e m b u. update_reports now (heap id) m values b e u)
