-- ===== src/ModbusReader/Writes.antt =====
-- What the writes of ModbusReader.cpp leave behind.
use more_modbus.Prelude.{
  ℕ, ◌%◌, ◌^◌, ◌<◌, ◌≡◌, ◌⊎◌, inl, inr, refl, sym, ap, ◌∙◌, Bool, true, false, not, List, Option,
  ok, throw_if-eq-ok, >>=-eq-ok, ok-injective, ◌==◌, if◌then◌else◌, length, arith,
}
use more_modbus.Prelude.Int.{ℤ, mod_ℤ, ◌==ℤ◌}
use more_modbus.DataParsers.{uint16_to_int16}
use more_modbus.RegisterMapping.{
  holding_register, is_register, OperationType, is_operation, RegisterMapping, get_starting_address,
  get_register_count, set_valid,
}
use more_modbus.RegisterMapping.Update.{update_bool, update_values-eq_ok, update_values}
use more_modbus.Mappings.{update, decode}
use more_modbus.ModbusClient.{
  LibModbus, ModbusClient, write_holding_register, write_holding_registers, read_holding_register,
}
use more_modbus.ModbusReader.{is_registered, finish_write, write_mapping, write_bit_mapping}
use more_modbus.ModbusReader.BitWrite.{IsWithBit, with_bit_lem}

module _ {D : Type 0} where
  -- The virtual update takes over the values and makes the mapping valid.
  pub update-eq_ok :
      (now : ℤ) (m m' : RegisterMapping D) (values : List ℕ) {changed : Bool}
      → update now m values ≡ ok (m', changed)
      → (m'.byte_values ≡ values) × (m'.is_valid ≡ true) × (m'.last_update_time ≡ now)
  unfolding update
  update-eq_ok now m m' values e =
      let (v, _, y) =
        >>=-eq-ok (decode m.typed m.operation_type values)
          (λ v. update_values now (record m { typed = v }) values) e in
      let (_, eq, _) = update_values-eq_ok now (record m { typed = v }) m' values y in
      rw eq (refl, refl, refl)

-- How a write of registers leaves the mapping: invalid after a failure; as it was; or with the
-- written values where it updates itself.
abbrev pub Leaves :
    {D : Type 0} → ℤ → RegisterMapping D → List ℕ → RegisterMapping D → Bool → Type 0
Leaves {D} now m values m' done =
    ((done ≡ false) × (m' ≡ set_valid m false))
    ⊎ ((done ≡ true) × (m.auto_local_update ≡ false) × (m' ≡ m))
    ⊎ ((done ≡ true)
        × (m.auto_local_update ≡ true)
        × (m'.byte_values ≡ values)
        × (m'.is_valid ≡ true)
        × (m'.last_update_time ≡ now))

module _ {S D : Type 0} ⦃l : LibModbus S⦄ where
  finish_write_by :
      (auto : Bool) (now : ℤ) (m m' : RegisterMapping D) (values : List ℕ) (c₁ c' : ModbusClient S)
      (sent done : Bool)
      → m.auto_local_update ≡ auto
      → finish_write now m values (c₁, sent) ≡ ok (c', m', done)
      → (c' ≡ c₁) × (done ≡ sent) × Leaves now m values m' done
  unfolding finish_write
  finish_write_by auto now m m' values c₁ c' false done h e =
      let r = ok-injective (c₁, set_valid m false, false) (c', m', done) e in
      (
        sym (ap (λ t. t.0) r),
        sym (ap (λ t. t.2) r),
        inl (sym (ap (λ t. t.2) r), sym (ap (λ t. t.1) r)),
      )
  finish_write_by false now m m' values c₁ c' true done h e =
      let r = ok-injective (c₁, m, true) (c', m', done) (simp h at e) in
      (
        sym (ap (λ t. t.0) r),
        sym (ap (λ t. t.2) r),
        inr (inl (sym (ap (λ t. t.2) r), h, sym (ap (λ t. t.1) r))),
      )
  finish_write_by true now m m' values c₁ c' true done h e =
      let ((m₁, b), x, y) =
        >>=-eq-ok (update now m values) (λ u. ok (c₁, u.0, true)) (simp h at e) in
      let r = ok-injective (c₁, m₁, true) (c', m', done) y in
      let (bytes, valid, time) = update-eq_ok now m m₁ values x in
      let same : m₁ ≡ m' = ap (λ t. t.1) r in
      (
        sym (ap (λ t. t.0) r),
        sym (ap (λ t. t.2) r),
        inr (
            inr (
              sym (ap (λ t. t.2) r),
              h,
              ap (λ (t : RegisterMapping D). t.byte_values) (sym same) ∙ bytes,
              ap (λ (t : RegisterMapping D). t.is_valid) (sym same) ∙ valid,
              ap (λ (t : RegisterMapping D). t.last_update_time) (sym same) ∙ time,
            )),
      )

  -- When writeMapping for registers returns, what it was given was a holding register mapping of as
  -- many registers as values on a registered slave; it has made one write of the values at the
  -- mapping's start, whose success is the result; and the mapping is left accordingly.
  pub write_mapping_lem :
      (now : ℤ) (devices : List ℤ) (c c' : ModbusClient S) (m m' : RegisterMapping D)
      (values : List ℕ) (done : Bool)
      → write_mapping now devices c m values ≡ ok (c', m', done)
      → (is_register m.register_type holding_register ≡ true)
        × ((get_register_count m ==ℤ uint16_to_int16 (length values % 2 ^ 16)) ≡ true)
        × (is_registered m.slave_address devices ≡ true)
        × ((start : ℤ) × (get_starting_address m ≡ ok start)
            × (c' ≡ (write_holding_registers m.slave_address start values c).0)
            × (done ≡ (write_holding_registers m.slave_address start values c).1))
        × Leaves now m values m' done
  unfolding write_mapping
  write_mapping_lem now devices c c' m m' values done e =
      let (holding, e₁) = throw_if-eq-ok (not (is_register m.register_type holding_register)) _ e in
      let (size, e₂) =
        throw_if-eq-ok (not (get_register_count m ==ℤ uint16_to_int16 (length values % 2 ^ 16))) _
          e₁ in
      let (known, e₃) = throw_if-eq-ok (not (is_registered m.slave_address devices)) _ e₂ in
      let (start, at, e₄) =
        >>=-eq-ok (get_starting_address m)
          (λ start.
            finish_write now m values (write_holding_registers m.slave_address start values c))
          e₃ in
      let sent = write_holding_registers m.slave_address start values c in
      let (client, result, left) =
        finish_write_by m.auto_local_update now m m' values sent.0 c' sent.1 done refl e₄ in
      (ground arith, ground arith, ground arith, (start, at, client, result), left)

  -- When a bit mapping of a registered slave is written and its register was read as a 16-bit
  -- value, the value written back has the bit at the wanted value and all others as they were; no
  -- write is made if that is the value read; and a failed write makes the mapping invalid.
  pub write_bit_mapping_lem :
      (now : ℤ) (devices : List ℤ) (c c' : ModbusClient S) (m : RegisterMapping D) (value : Bool)
      (start : ℤ) (w : ℕ)
      → is_register m.register_type holding_register ≡ true
      → is_operation m.operation_type OperationType.take_bit ≡ true
      → is_registered m.slave_address devices ≡ true
      → get_starting_address m ≡ ok start
      → read_holding_register m.slave_address start c ≡ ok (c', Option.some w)
      → w < 2 ^ 16
      → mod_ℤ m.bit_index (2 ^ 8) < 16
      → (w' : ℕ) × IsWithBit w (mod_ℤ m.bit_index (2 ^ 8)) value w'
        × (write_bit_mapping now devices c m value ≡ (
            let sent = write_holding_register m.slave_address start w' c' in
            ok (
              if w == w'
              then (c', m, true)
              else if not (sent.1)
              then (sent.0, set_valid m false, false)
              else if m.auto_local_update
              then (sent.0, (update_bool now m value).0, true)
              else (sent.0, m, true))))
  unfolding write_bit_mapping
  write_bit_mapping_lem now devices c c' m value start w holding bit registered at read b i =
      let (w', e, spec) = with_bit_lem w (mod_ℤ m.bit_index (2 ^ 8)) value b i in
      (w', spec, rw (holding, bit, registered, at, read, e) refl)
