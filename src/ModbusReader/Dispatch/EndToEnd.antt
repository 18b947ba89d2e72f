-- ===== src/ModbusReader/Dispatch/EndToEnd.antt =====
-- From writeValue of a class of more_modbus/mappings to the registers of the slave.
use more_modbus.Prelude.{
  ℕ, ◌≡◌, refl, sym, ap, ◌∙◌, inl, inr, Bool, true, false, List, Option, Result, ok, ok-injective,
  >>=-eq-ok, ◌>>=◌, if◌then◌else◌,
}
use more_modbus.Prelude.Int.{ℤ}
use more_modbus.RegisterMapping.{Typed, RegisterMapping, get_starting_address}
use more_modbus.Mappings.{encode, decode, write_value}
use more_modbus.Mappings.RoundTrip.{IsRepresentable, decode-encode}
use more_modbus.ModbusClient.{LibModbus, write_holding_registers}
use more_modbus.ModbusDevice.Rewritable.{Objects}
use more_modbus.ModbusReader.{Written, is_registered, write_mapping}
use more_modbus.ModbusReader.Writes.{Leaves, write_mapping_lem}
use more_modbus.ModbusReader.Dispatch.{
  ModbusReader, addresses_of, keep_client, reader_of, write_through, write_registers_value,
}

module _ {D : Type 0} where
  typed_write :
      (v : Typed) (m' n : RegisterMapping D) (done : Bool)
      → ◌≡◌ {A = RegisterMapping D × Bool}
          (if done then (record n { typed = v }, true) else (n, false))
          (m', true)
      → (done ≡ true) × (record n { typed = v } ≡ m')
  typed_write v m' n true e = (refl, ap (λ (t : RegisterMapping D × Bool). t.0) e)
  typed_write v m' n false e = cc

  updated :
      (now : ℤ) (m m' : RegisterMapping D) (values : List ℕ)
      → m.auto_local_update ≡ true
      → Leaves now m values m' true
      → (m'.byte_values ≡ values) × (m'.is_valid ≡ true)
  updated now m m' values auto (inl (failed, _)) = cc
  updated now m m' values auto (inr (inl (_, manual, _))) = cc
  updated now m m' values auto (inr (inr (_, _, stored, valid, _))) = (stored, valid)

module _ {S D : Type 0} ⦃l : LibModbus S⦄ where
  -- RegisterMapping::writeValue as the classes call it.
  abbrev pub by_reader :
      ℤ
      → Objects D
      → List (ModbusReader S)
      → RegisterMapping D
      → List ℕ
      → Result (RegisterMapping D × Bool)
  by_reader now o readers m bytes =
      write_registers_value now o readers m bytes >>= λ w. ok (w.1, w.2)

  -- The slave of a mapping took the registers, and the mapping's reader knows the slave.
  abbrev pub IsSent : Objects D → List (ModbusReader S) → RegisterMapping D → List ℕ → Type 0
  IsSent o readers m bytes =
      (i : ℕ) × (r : ModbusReader S) × (start : ℤ) × (reader_of o readers m ≡ Option.some (i, r))
      × (is_registered m.slave_address (addresses_of r.devices) ≡ true)
      × (get_starting_address m ≡ ok start)
      × ((write_holding_registers m.slave_address start bytes r.client).1 ≡ true)

  write_through-IsSent :
      (now : ℤ) (o : Objects D) (readers : List (ModbusReader S)) (m m' : RegisterMapping D)
      (bytes : List ℕ) (p : Option (ℕ × ModbusReader S))
      → reader_of o readers m ≡ p
      → ◌>>=◌ {B = RegisterMapping D × Bool}
          (write_through p readers m
            (λ r. write_mapping now (addresses_of r.devices) r.client m bytes))
          (λ w. ok (w.1, w.2))
        ≡ ok (m', true)
      → IsSent o readers m bytes × Leaves now m bytes m' true
  unfolding write_through
  write_through-IsSent now o readers m m' bytes Option.none there e = cc
  write_through-IsSent now o readers m m' bytes (Option.some (i, r)) there e =
      let known = addresses_of r.devices in
      let keep : Written S D → Result (List (ModbusReader S) × RegisterMapping D × Bool) =
        λ w. ok (keep_client readers i r w) in
      let (all, kept, returns) =
        >>=-eq-ok (write_mapping now known r.client m bytes >>= keep) (λ w. ok (w.1, w.2)) e in
      let (w, written, same) = >>=-eq-ok (write_mapping now known r.client m bytes) keep kept in
      let result : (w.1, w.2) ≡ (m', true) =
        ap (λ (t : List (ModbusReader S) × RegisterMapping D × Bool). (t.1, t.2))
          (ok-injective _ all same)
        ∙ ok-injective _ (m', true) returns in
      let written' : write_mapping now known r.client m bytes ≡ ok (w.0, m', true) =
        written ∙ ap (λ (t : RegisterMapping D × Bool). ok (w.0, t.0, t.1)) result in
      let (_, _, registered, (start, at, _, sent), left) =
        write_mapping_lem now known r.client w.0 m m' bytes true written' in
      ((i, r, start, there, registered, at, sym sent), left)

  -- If writeValue of a class for registers returns true, for a value that fits the class and a
  -- mapping that updates itself, then the slave took registers that decode to the value, and the
  -- mapping holds the value and these registers and is valid.
  pub written_value :
      (above : ℕ) (now : ℤ) (o : Objects D) (readers : List (ModbusReader S))
      (m m' : RegisterMapping D) (v : Typed)
      → IsRepresentable m.operation_type v
      → m.auto_local_update ≡ true
      → write_value above (by_reader now o readers) m v ≡ ok (m', true)
      → (bytes : List ℕ) × IsSent o readers m bytes
        × (decode v m.operation_type bytes ≡ ok v)
        × (m'.typed ≡ v)
        × (m'.byte_values ≡ bytes)
        × (m'.is_valid ≡ true)
  unfolding write_value write_registers_value
  written_value above now o readers m m' v fits auto e =
      let (bytes, encoded, e₁) = >>=-eq-ok (encode above m v) _ e in
      let (w, sent, e₂) = >>=-eq-ok (by_reader now o readers m bytes) _ e₁ in
      let (done, typed) = typed_write v m' (w.0) (w.1) (ok-injective _ (m', true) e₂) in
      let (slave, left) =
        write_through-IsSent now o readers m (w.0) bytes (reader_of o readers m) refl
          (sent ∙ ap (λ (b : Bool). ok (w.0, b)) done) in
      let (values, valid) = updated now m (w.0) bytes auto left in
      (
        bytes,
        slave,
        decode-encode above m v bytes fits encoded,
        ap (λ (x : RegisterMapping D). x.typed) (sym typed),
        ap (λ (x : RegisterMapping D). x.byte_values) (sym typed) ∙ values,
        ap (λ (x : RegisterMapping D). x.is_valid) (sym typed) ∙ valid,
      )
