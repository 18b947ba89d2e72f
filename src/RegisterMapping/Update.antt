-- ===== src/RegisterMapping/Update.antt =====
-- more_modbus/RegisterMapping.cpp: doesUpdate, update and deadbandFilter. `now` is what the clock
-- shows when the call reads it.
use more_modbus.Prelude.{
  ℕ, Bool, true, false, not, ◌&&◌, ◌||◌, List, [], ◌∷◌, Result, ok, err, logic_error, undefined,
  ◌>>=◌, ◌==◌, if◌then◌else◌, length, ◌≡◌, ap, sym, ==_iff, if_not_err,
}
use more_modbus.Prelude.Int.{ℤ, pos, ◌+ℤ◌, ltb_ℤ, ◌==ℤ◌}
use more_modbus.DataParsers.{
  Endian, big, little, uint16_to_int16, registers_to_uint32, registers_to_int32, registers_to_float,
}
use more_modbus.RegisterMapping.{
  OutputType, bool, uint16, int16, uint32, int32, float, string, OperationType, is_operation,
  Double, RegisterMapping, ticks,
}

-- The loop that compares two vectors of one size.
unfoldable pub differs : List ℕ → List ℕ → Bool
differs (x ∷ xs) (y ∷ ys) = not (x == y) || differs xs ys
differs _ _ = false

-- `m_boolValue != newRegisterValue`
abbrev pub differs_bool : Bool → Bool → Bool
differs_bool true b = not b
differs_bool false b = b

unfoldable pub front : List ℕ → Result ℕ
front [] = err undefined
front (x ∷ _) = ok x

module _ {D : Type 0} where
  abbrev pub merge_endian : RegisterMapping D → Endian
  merge_endian m =
      if is_operation m.operation_type OperationType.merge_big_endian then big else little

  abbrev pub float_endian : RegisterMapping D → Endian
  float_endian m =
      if is_operation m.operation_type OperationType.merge_float_big_endian then big else little

module _ {D : Type 0} ⦃d : Double D⦄ where
  -- `new >= current + deadband || new <= current - deadband`
  unfoldable pub significant : D → D → D → Bool
  significant deadband current new =
      d.le (d.add current deadband) new || d.le new (d.sub current deadband)

  unfoldable pub deadband_by : OutputType → RegisterMapping D → List ℕ → Result Bool
  deadband_by uint16 m new = do
    current ← front m.byte_values
    value ← front new
    ok (significant m.deadband_value (d.of_int (pos current)) (d.of_int (pos value)))
  deadband_by int16 m new = do
    current ← front m.byte_values
    value ← front new
    ok (
        significant m.deadband_value (d.of_int (uint16_to_int16 current))
          (d.of_int (uint16_to_int16 value)))
  deadband_by uint32 m new = do
    current ← registers_to_uint32 m.byte_values (merge_endian m)
    value ← registers_to_uint32 new (merge_endian m)
    ok (significant m.deadband_value (d.of_int (pos current)) (d.of_int (pos value)))
  deadband_by int32 m new = do
    current ← registers_to_int32 m.byte_values (merge_endian m)
    value ← registers_to_int32 new (merge_endian m)
    ok (significant m.deadband_value (d.of_int current) (d.of_int value))
  deadband_by float m new = do
    current ← registers_to_float m.byte_values (float_endian m)
    value ← registers_to_float new (float_endian m)
    ok (significant m.deadband_value (d.of_float current) (d.of_float value))
  deadband_by bool m new = ok false
  deadband_by string m new = ok false

  unfoldable pub deadband_filter : RegisterMapping D → List ℕ → Result Bool
  unfolding deadband_by significant front
  deadband_filter m new = deadband_by m.output_type m new

  -- `now < m_lastUpdateTime + m_frequencyFilterValue`
  abbrev pub is_frequent : ℤ → RegisterMapping D → Bool
  is_frequent now m = ltb_ℤ now (m.last_update_time +ℤ ticks m.frequency_filter_value)

  -- bool RegisterMapping::doesUpdate(const std::vector<uint16_t>&) const
  unfoldable pub does_update_values : ℤ → RegisterMapping D → List ℕ → Result Bool
  does_update_values now m new =
      if not (length new == length m.byte_values)
      then err logic_error
      else if not m.is_initialized || not m.is_valid
      then ok true
      else if m.frequency_filter_value ==ℤ pos 0 && d.eq m.deadband_value d.zero
      then ok (differs m.byte_values new)
      else if not (differs m.byte_values new)
      then ok false
      else if not (m.frequency_filter_value ==ℤ pos 0)
      then (if d.eq m.deadband_value d.zero
          then ok (not (is_frequent now m))
          else if is_frequent now m
          then ok false
          else deadband_filter m new)
      else deadband_filter m new

module _ {D : Type 0} where
  -- bool RegisterMapping::update(const std::vector<uint16_t>&)
  unfoldable pub update_values : ℤ → RegisterMapping D → List ℕ → Result (RegisterMapping D × Bool)
  update_values now m new =
      if not (length new == length m.byte_values)
      then err logic_error
      else ok (
        record m {
          byte_values = new;
          is_initialized = true;
          is_valid = true;
          last_update_time = now;
        },
        not m.is_initialized || differs m.byte_values new || not m.is_valid,
      )

  -- bool RegisterMapping::doesUpdate(bool) const
  unfoldable pub does_update_bool : ℤ → RegisterMapping D → Bool → Bool
  does_update_bool now m new =
      if not m.is_initialized || not m.is_valid
      then true
      else if not (m.frequency_filter_value ==ℤ pos 0)
      then not m.is_initialized
        || not (ltb_ℤ now (m.last_update_time +ℤ ticks m.frequency_filter_value))
      else differs_bool m.bool_value new || not m.is_initialized || not m.is_valid

  -- bool RegisterMapping::update(bool)
  unfoldable pub update_bool : ℤ → RegisterMapping D → Bool → RegisterMapping D × Bool
  update_bool now m new = (
    record m { bool_value = new; is_initialized = true; is_valid = true; last_update_time = now },
    not m.is_initialized || differs_bool m.bool_value new || not m.is_valid,
  )

  abbrev pub updated : ℤ → RegisterMapping D → List ℕ → RegisterMapping D
  updated now m new = record m {
    byte_values = new;
    is_initialized = true;
    is_valid = true;
    last_update_time = now;
  }

  pub update_values-eq_ok :
      (now : ℤ) (m m' : RegisterMapping D) (new : List ℕ) {changed : Bool}
      → update_values now m new ≡ ok (m', changed)
      → (length new ≡ length m.byte_values)
        × (m' ≡ updated now m new)
        × (changed ≡ (not m.is_initialized || differs m.byte_values new || not m.is_valid))
  unfolding update_values
  update_values-eq_ok now m m' new e =
      let (same, eq) = if_not_err (length new == length m.byte_values) logic_error e in
      ((==_iff _ _).0 same, sym (ap (λ p. p.0) eq), sym (ap (λ p. p.1) eq))
