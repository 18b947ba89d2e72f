-- ===== src/ModbusReader/Rewrite.antt =====
-- more_modbus/ModbusReader.cpp: one turn of rewriteDevice over the rewritable mappings of a device.
-- `now` is in ticks of the clock, a nanosecond each.
use more_modbus.Prelude.{
  ℕ, ◌+◌, ◌≡◌, ◌⊎◌, inl, inr, refl, Bool, true, false, not, List, [], ◌∷◌, Result, ok, err,
  undefined, ◌>>=◌, ◌==◌, if◌then◌else◌, Bool-cases, arith, >>=-eq-ok, ok-injective, subst,
}
use more_modbus.Prelude.Int.{ℤ, pos, minus_one, ◌+ℤ◌, ◌==ℤ◌, leb_ℤ}
use more_modbus.RegisterMapping.{
  coil, holding_register, is_register, RegisterMapping, get_starting_address, get_register_count,
  ticks,
}
use more_modbus.RegisterMapping.{Double}
use more_modbus.RegisterMapping.Constructors.{Settings, make_bit}
use more_modbus.RegisterMapping.WellFormed.{make_bit-eq_ok}
use more_modbus.Prelude.{ap, ◌∙◌}
use more_modbus.RegisterMapping.Update.{front, update_bool, update_values, update_values-eq_ok}
use more_modbus.Mappings.{update, decode}
use more_modbus.RegisterGroup.{Heap, store}
use more_modbus.ModbusClient.{
  LibModbus, ModbusClient, write_holding_register, write_holding_registers, write_coil,
}
use more_modbus.ModbusReader.Status.{DeviceStatus, report_status}

module _ {S D : Type 0} where
  -- A mapping takes its own values over where they were written.
  refreshed :
      ℤ
      → RegisterMapping D
      → ModbusClient S × Bool
      → Result (ModbusClient S × RegisterMapping D × Bool)
  refreshed now m (c, false) = ok (c, m, false)
  refreshed now m (c, true) = update now m m.byte_values >>= λ u. ok (c, u.0, true)

module _ {D : Type 0} where
  -- `diff > 0`: a millisecond or more has passed since the time of the next write.
  unfoldable pub is_due : ℤ → RegisterMapping D → Bool
  is_due now m = leb_ℤ (m.last_update_time +ℤ ticks m.repeated_write +ℤ ticks (pos 1)) now

module _ {S D : Type 0} ⦃l : LibModbus S⦄ where
  -- The write of a mapping that is due at its start, and whether it succeeded.
  rewrite_at :
      ℤ
      → ModbusClient S
      → RegisterMapping D
      → ℤ
      → Result (ModbusClient S × RegisterMapping D × Bool)
  unfolding refreshed
  rewrite_at now c m start =
      let one = (do
        value ← front m.byte_values
        refreshed now m (write_holding_register m.slave_address start value c)) in
      let sent = write_coil m.slave_address start m.bool_value c in
      if is_register m.register_type coil
      then ok (sent.0, if sent.1 then (update_bool now m m.bool_value).0 else m, sent.1)
      else if get_register_count m ==ℤ pos 1
      then one
      else refreshed now m (write_holding_registers m.slave_address start m.byte_values c)

  unfoldable pub rewrite_mapping :
      ℤ → ModbusClient S → RegisterMapping D → Result (ModbusClient S × RegisterMapping D × Bool)
  unfolding rewrite_at
  rewrite_mapping now c m = get_starting_address m >>= λ start. rewrite_at now c m start

  -- The loop over the rewritable mappings, with the numbers of due and of written ones.
  unfoldable pub rewrite_mappings :
      ℤ
      → List ℕ
      → ModbusClient S
      → Heap D
      → (required succeeded : ℕ) → Result (ModbusClient S × Heap D × ℕ × ℕ)
  unfolding is_due
  rewrite_mappings now [] c heap required succeeded = ok (c, heap, required, succeeded)
  rewrite_mappings now (id ∷ rest) c heap required succeeded =
      let skip = rewrite_mappings now rest c heap required succeeded in
      let write = (do
        done ← rewrite_mapping now c (heap id)
        rewrite_mappings now rest (done.0) (store heap id (done.1)) (required + 1)
            (if done.2 then succeeded + 1 else succeeded)) in
      if (heap id).repeated_write ==ℤ pos 0
      then skip
      else if is_due now (heap id)
      then write
      else skip

  -- One turn of rewriteDevice.
  unfoldable pub rewrite_device :
      ℤ
      → List ℕ
      → ModbusClient S
      → Heap D
      → DeviceStatus
      → Result (ModbusClient S × Heap D × DeviceStatus)
  rewrite_device now rewritable c heap s = do
    done ← rewrite_mappings now rewritable c heap 0 0
    ok (done.0, done.1, if done.2 == 0 then s else report_status s (not (done.3 == 0)))

module _ {D : Type 0} where
  -- How a rewrite leaves a mapping: as it was, or newly valid with the values that it had.
  abbrev pub Keeps : ℤ → RegisterMapping D → RegisterMapping D → Bool → Type 0
  Keeps now m m' done =
      ((done ≡ false) × (m' ≡ m))
      ⊎ ((done ≡ true)
          × (m'.byte_values ≡ m.byte_values)
          × (m'.bool_value ≡ m.bool_value)
          × (m'.is_valid ≡ true)
          × (m'.last_update_time ≡ now)
          × (get_register_count m' ≡ get_register_count m)
          × (if is_register m.register_type coil
              then m'.typed ≡ m.typed
              else decode m.typed m.operation_type m.byte_values ≡ ok m'.typed))

  update-Keeps :
      (now : ℤ) (m m' : RegisterMapping D) {changed : Bool}
      → is_register m.register_type coil ≡ false
      → update now m m.byte_values ≡ ok (m', changed)
      → Keeps now m m' true
  unfolding update get_register_count
  update-Keeps now m m' words e =
      let (v, x, y) =
        >>=-eq-ok (decode m.typed m.operation_type m.byte_values)
          (λ v. update_values now (record m { typed = v }) m.byte_values) e in
      let (_, eq, _) = update_values-eq_ok now (record m { typed = v }) m' m.byte_values y in
      rw eq (inr (refl, refl, refl, refl, refl, refl, rw words x))

module _ {S D : Type 0} where
  refreshed-Keeps :
      (now : ℤ) (m m' : RegisterMapping D) (c₁ c' : ModbusClient S) (sent done : Bool)
      → is_register m.register_type coil ≡ false
      → refreshed now m (c₁, sent) ≡ ok (c', m', done)
      → Keeps now m m' done
  unfolding refreshed
  refreshed-Keeps now m m' c₁ c' false done words e =
      subst (λ (t : ModbusClient S × RegisterMapping D × Bool). Keeps now m (t.1) (t.2))
        (ok-injective (c₁, m, false) (c', m', done) e) (inl (refl, refl))
  refreshed-Keeps now m m' c₁ c' true done words e =
      let ((m₁, b), x, y) = >>=-eq-ok (update now m m.byte_values) (λ u. ok (c₁, u.0, true)) e in
      subst (λ (t : ModbusClient S × RegisterMapping D × Bool). Keeps now m (t.1) (t.2))
        (ok-injective (c₁, m₁, true) (c', m', done) y) (update-Keeps now m m₁ words x)

module _ {D : Type 0} where
  bool-Keeps :
      (now : ℤ) (m : RegisterMapping D) (sent : Bool)
      → is_register m.register_type coil ≡ true
      → Keeps now m (if sent then (update_bool now m m.bool_value).0 else m) sent
  unfolding update_bool get_register_count
  bool-Keeps now m true coils = inr (refl, refl, refl, refl, refl, refl, rw coils refl)
  bool-Keeps now m false coils = inl (refl, refl)

module _ {S D : Type 0} ⦃l : LibModbus S⦄ where
  rewrite_at-Keeps :
      (now start : ℤ) (c c' : ModbusClient S) (m m' : RegisterMapping D) (done : Bool)
      → rewrite_at now c m start ≡ ok (c', m', done)
      → Keeps now m m' done
  unfolding rewrite_at
  rewrite_at-Keeps now start c c' m m' done e =
      let sent = write_coil m.slave_address start m.bool_value c in
      let many = write_holding_registers m.slave_address start m.byte_values c in
      elim (Bool-cases (is_register m.register_type coil)) [
        | inl coils ↦
            subst (λ (t : ModbusClient S × RegisterMapping D × Bool). Keeps now m (t.1) (t.2))
              (ok-injective
                (sent.0, if sent.1 then (update_bool now m m.bool_value).0 else m, sent.1)
                (c', m', done) (rw coils at e))
              (bool-Keeps now m (sent.1) coils)
        | inr words ↦ elim (Bool-cases (get_register_count m ==ℤ pos 1)) [
          | inl single ↦
              let (value, _, y) =
                >>=-eq-ok (front m.byte_values)
                  (λ value. refreshed now m (write_holding_register m.slave_address start value c))
                  (rw (words, single) at e) in
              let one = write_holding_register m.slave_address start value c in
              refreshed-Keeps now m m' (one.0) c' (one.1) done words y
          | inr several ↦
              refreshed-Keeps now m m' (many.0) c' (many.1) done words (rw (words, several) at e)
        ]
      ]

  -- A rewrite that returns leaves the mapping as it was if it fails. If it succeeds, it keeps the
  -- mapping's register values, its bool and its number of registers, makes it valid as of now, and
  -- sets the value of its class to what its registers decode to, except that of a coil, which it
  -- keeps.
  pub rewrite_mapping_lem :
      (now : ℤ) (c c' : ModbusClient S) (m m' : RegisterMapping D) (done : Bool)
      → rewrite_mapping now c m ≡ ok (c', m', done)
      → Keeps now m m' done
  unfolding rewrite_mapping
  rewrite_mapping_lem now c c' m m' done e =
      let (start, _, y) = >>=-eq-ok (get_starting_address m) (rewrite_at now c m) e in
      rewrite_at-Keeps now start c c' m m' done y

  rewrite_empty :
      (now start : ℤ) (c : ModbusClient S) (m : RegisterMapping D)
      → is_register m.register_type holding_register ≡ true
      → m.byte_values ≡ []
      → (get_register_count m ==ℤ pos 1) ≡ true
      → get_starting_address m ≡ ok start
      → rewrite_mapping now c m ≡ err undefined
  unfolding rewrite_mapping rewrite_at front
  rewrite_empty now start c m holding empty one first = rw first (ground arith)

  rewrite_first :
      (now : ℤ) (c : ModbusClient S) (heap : Heap D) (id : ℕ) (rest : List ℕ) (s : DeviceStatus)
      → ((heap id).repeated_write ==ℤ pos 0) ≡ false
      → is_due now (heap id) ≡ true
      → rewrite_mapping now c (heap id) ≡ err undefined
      → rewrite_device now (id ∷ rest) c heap s ≡ err undefined
  unfolding rewrite_device rewrite_mappings
  rewrite_first now c heap id rest s often due e = rw (often, due, e) refl

  -- When the bit mapping that the constructor made for a register that may be written is the first
  -- on a device's list and is due, the device's turn of rewriteDevice has undefined behaviour.
  pub rewrite_bit_undefined :
      ⦃d : Double D⦄ (now a bit interval : ℤ) (reference : List ℕ) (settings : Settings D)
      (c : ModbusClient S) (m : RegisterMapping D) (heap : Heap D) (id : ℕ) (rest : List ℕ)
      (s : DeviceStatus)
      → make_bit reference holding_register a bit settings ≡ ok m
      → (a ==ℤ minus_one) ≡ false
      → heap id ≡ record m { repeated_write = interval }
      → (interval ==ℤ pos 0) ≡ false
      → is_due now (heap id) ≡ true
      → rewrite_device now (id ∷ rest) c heap s ≡ err undefined
  unfolding get_register_count get_starting_address
  rewrite_bit_undefined now a bit interval reference settings c m heap id rest s e place there often
        due =
      let (holding, address, empty) =
        make_bit-eq_ok reference holding_register a bit settings m e in
      let n = record m { repeated_write = interval } in
      let single : (get_register_count n ==ℤ pos 1) ≡ true = rw (address, place) refl in
      let first : get_starting_address n ≡ ok a = rw (address, place) refl in
      rewrite_first now c heap id rest s
        (ap (λ (x : RegisterMapping D). x.repeated_write ==ℤ pos 0) there ∙ often) due
        (ap (rewrite_mapping now c) there
          ∙ rewrite_empty now a c n (ap (λ t. is_register t holding_register) holding) empty single
              first)
