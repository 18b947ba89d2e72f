-- ===== src/ModbusReader/Threads/Counts.antt =====
-- The writes of ModbusReader.cpp leave a mapping's number of registers as it is.
use more_modbus.Prelude.{
  ℕ, ◌^◌, ◌%◌, ◌≡◌, refl, sym, ap, ◌∙◌, Bool, true, false, not, List, Option, Result, ok, ◌>>=◌,
  ◌==◌, throw_if-eq-ok, >>=-eq-ok, ok-injective, Bool-cases, inl, inr, if◌then◌else◌, length,
}
use more_modbus.Prelude.Int.{ℤ, ◌==ℤ◌, mod_ℤ}
use more_modbus.DataParsers.{uint16_to_int16}
use more_modbus.RegisterMapping.{
  coil, holding_register, is_register, OperationType, is_operation, RegisterMapping,
  get_register_count, get_starting_address, set_valid,
}
use more_modbus.RegisterMapping.Update.{update_bool}
use more_modbus.Mappings.{update}
use more_modbus.ModbusClient.{
  LibModbus, ModbusClient, write_coil, write_holding_register, write_holding_registers,
  read_holding_register,
}
use more_modbus.ModbusGroupReader.Counts.{update_bool-count, update-count}
use more_modbus.ModbusReader.{
  Written, is_registered, with_bit, finish_write, write_mapping, write_bool_mapping, write_bit,
  write_bit_mapping,
}

set_valid-count :
    {D : Type 0} (m : RegisterMapping D)
    → get_register_count (set_valid m false) ≡ get_register_count m
unfolding set_valid get_register_count
set_valid-count m = refl

module _ {S D : Type 0} where
  -- The ways in which a write of a bit may end.
  ended-count :
      (sent auto : Bool) (c₁ c' : ModbusClient S) (m u m' : RegisterMapping D) (done : Bool)
      → get_register_count u ≡ get_register_count m
      → ◌≡◌ {A = Result (Written S D)}
          (ok (
            if not sent
            then (c₁, set_valid m false, false)
            else if auto
            then (c₁, u, true)
            else (c₁, m, true)))
          (ok (c', m', done))
      → get_register_count m' ≡ get_register_count m
  unfolding set_valid get_register_count
  ended-count false auto c₁ c' m u m' done h e =
      ap (λ (r : Written S D). get_register_count (r.1)) (sym (ok-injective _ (c', m', done) e))
  ended-count true true c₁ c' m u m' done h e =
      ap (λ (r : Written S D). get_register_count (r.1)) (sym (ok-injective _ (c', m', done) e)) ∙ h
  ended-count true false c₁ c' m u m' done h e =
      ap (λ (r : Written S D). get_register_count (r.1)) (sym (ok-injective _ (c', m', done) e))

  -- The end of a write of registers that succeeded.
  updating-count :
      (auto : Bool) (now : ℤ) (c₁ c' : ModbusClient S) (m m' : RegisterMapping D) (values : List ℕ)
      (done : Bool)
      → ◌≡◌ {A = Result (Written S D)}
          (if auto then (update now m values >>= λ u. ok (c₁, u.0, true)) else ok (c₁, m, true))
          (ok (c', m', done))
      → get_register_count m' ≡ get_register_count m
  updating-count true now c₁ c' m m' values done e =
      let ((u, b), x, y) = >>=-eq-ok (update now m values) (λ u. ok (c₁, u.0, true)) e in
      ap (λ (r : Written S D). get_register_count (r.1)) (sym (ok-injective _ (c', m', done) y))
      ∙ update-count now m u values x
  updating-count false now c₁ c' m m' values done e =
      ap (λ (r : Written S D). get_register_count (r.1)) (sym (ok-injective _ (c', m', done) e))

module _ {S D : Type 0} ⦃l : LibModbus S⦄ where
  finish_write-count :
      (now : ℤ) (m m' : RegisterMapping D) (values : List ℕ) (sent : ModbusClient S × Bool)
      (c' : ModbusClient S) (done : Bool)
      → finish_write now m values sent ≡ ok (c', m', done)
      → get_register_count m' ≡ get_register_count m
  unfolding finish_write set_valid get_register_count
  finish_write-count now m m' values (c₁, false) c' done e =
      ap (λ (r : Written S D). get_register_count (r.1)) (sym (ok-injective _ (c', m', done) e))
  finish_write-count now m m' values (c₁, true) c' done e =
      updating-count m.auto_local_update now c₁ c' m m' values done e

  pub write_mapping-count :
      (now : ℤ) (devices : List ℤ) (c c' : ModbusClient S) (m m' : RegisterMapping D)
      (values : List ℕ) (done : Bool)
      → write_mapping now devices c m values ≡ ok (c', m', done)
      → get_register_count m' ≡ get_register_count m
  unfolding write_mapping
  write_mapping-count now devices c c' m m' values done e =
      let (_, e₁) = throw_if-eq-ok (not (is_register m.register_type holding_register)) _ e in
      let (_, e₂) =
        throw_if-eq-ok (not (get_register_count m ==ℤ uint16_to_int16 (length values % 2 ^ 16))) _
          e₁ in
      let (_, e₃) = throw_if-eq-ok (not (is_registered m.slave_address devices)) _ e₂ in
      let (start, _, y) =
        >>=-eq-ok (get_starting_address m)
          (λ start.
            finish_write now m values (write_holding_registers m.slave_address start values c))
          e₃ in
      finish_write-count now m m' values (write_holding_registers m.slave_address start values c) c'
        done y

  pub write_bool_mapping-count :
      (now : ℤ) (devices : List ℤ) (c c' : ModbusClient S) (m m' : RegisterMapping D) (value : Bool)
      (done : Bool)
      → write_bool_mapping now devices c m value ≡ ok (c', m', done)
      → get_register_count m' ≡ get_register_count m
  unfolding write_bool_mapping
  write_bool_mapping-count now devices c c' m m' value done e =
      let (_, e₁) = throw_if-eq-ok (not (is_register m.register_type coil)) _ e in
      let (_, e₂) = throw_if-eq-ok (not (is_registered m.slave_address devices)) _ e₁ in
      let (start, _, y) = >>=-eq-ok (get_starting_address m) _ e₂ in
      let sent = write_coil m.slave_address start value c in
      ended-count (sent.1) m.auto_local_update (sent.0) c' m ((update_bool now m value).0) m' done
        (update_bool-count now m value) y

  write_bit-count :
      (now start : ℤ) (m m' : RegisterMapping D) (value : Bool) (c c' : ModbusClient S)
      (register : ℕ) (done : Bool)
      → write_bit now start m value c register ≡ ok (c', m', done)
      → get_register_count m' ≡ get_register_count m
  unfolding write_bit
  write_bit-count now start m m' value c c' register done e =
      let (changed, _, y) = >>=-eq-ok (with_bit register (mod_ℤ m.bit_index (2 ^ 8)) value) _ e in
      let sent = write_holding_register m.slave_address start changed c in
      elim (Bool-cases (register == changed)) [
        | inl same ↦
            ap (λ (r : Written S D). get_register_count (r.1))
              (sym (ok-injective (c, m, true) (c', m', done) (rw same at y)))
        | inr apart ↦
            ended-count (sent.1) m.auto_local_update (sent.0) c' m ((update_bool now m value).0) m'
              done (update_bool-count now m value) (rw apart at y)
      ]

  pub write_bit_mapping-count :
      (now : ℤ) (devices : List ℤ) (c c' : ModbusClient S) (m m' : RegisterMapping D) (value : Bool)
      (done : Bool)
      → write_bit_mapping now devices c m value ≡ ok (c', m', done)
      → get_register_count m' ≡ get_register_count m
  unfolding write_bit_mapping
  write_bit_mapping-count now devices c c' m m' value done e =
      let (_, e₁) = throw_if-eq-ok (not (is_register m.register_type holding_register)) _ e in
      let (_, e₂) =
        throw_if-eq-ok (not (is_operation m.operation_type OperationType.take_bit)) _ e₁ in
      let (_, e₃) = throw_if-eq-ok (not (is_registered m.slave_address devices)) _ e₂ in
      let (start, _, y) = >>=-eq-ok (get_starting_address m) _ e₃ in
      let ((c₁, got), _, z) = >>=-eq-ok (read_holding_register m.slave_address start c) _ y in
      read_bit-count start c₁ got z
    where
      read_bit-count :
          (start : ℤ) (c₁ : ModbusClient S) (got : Option ℕ)
          → ◌≡◌ {A = Result (Written S D)}
              (elim got [
                | Option.none ↦ ok (c₁, set_valid m false, false)
                | Option.some register ↦ write_bit now start m value c₁ register
              ])
              (ok (c', m', done))
          → get_register_count m' ≡ get_register_count m
      read_bit-count start c₁ Option.none z =
          ap (λ (r : Written S D). get_register_count (r.1))
            (sym (ok-injective (c₁, set_valid m false, false) (c', m', done) z))
          ∙ set_valid-count m
      read_bit-count start c₁ (Option.some register) z =
          write_bit-count now start m m' value c₁ c' register done z
