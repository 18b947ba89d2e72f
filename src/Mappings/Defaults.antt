-- ===== src/Mappings/Defaults.antt =====
-- What the default values of the derived classes lead to.
use more_modbus.Prelude.{
  ℕ, ◌+◌, ◌*◌, ◌/◌, ◌^◌, ◌≤◌, ◌<◌, ◌≡◌, ◌≢◌, subst, Bool, true, not, List, [], ◌∷◌, Option, Result,
  ok, err, logic_error, ◌>>◌, throw_if, ok-injective, >>=-eq-ok, throw_if-eq-ok, length, arith,
  Bool-cases, inl, inr,
}
use more_modbus.Prelude.Int.{ℤ, ◌*ℤ◌}
use more_modbus.DataParsers.{ascii_string_to_registers, unicode_string_to_registers, Endian, big}
use more_modbus.RegisterMapping.{
  RegisterType, OutputType, OperationType, Double, RegisterMapping, get_register_count,
  is_operation, is_register, input_register,
}
use more_modbus.RegisterMapping.Constructors.{
  Settings, make_multi, make_bit, multi_mapping, is_stringify,
}
use more_modbus.RegisterMapping.WellFormed.{make_multi-eq_ok}
use more_modbus.RegisterMapping.Update.{update_values, does_update_values}
use more_modbus.Mappings.{string_capacity}
use more_modbus.Mappings.Constructors.{
  make_string_mapping, make_bool_bit_mapping, default_registers, is_some, with_string,
  check_writable,
}

length-ascii :
    (s : List ℕ) (e : Endian) → length (ascii_string_to_registers s e) ≡ (length s + 1) / 2
unfolding ascii_string_to_registers
length-ascii [] e = omega arith
length-ascii (a ∷ []) e = omega arith
length-ascii (a ∷ b ∷ s) e = omega (arith, length-ascii s e)

length-unicode :
    (s : List ℕ) (e : Endian) → length (unicode_string_to_registers s e) ≡ (length s + 1) / 2
unfolding unicode_string_to_registers
length-unicode [] e = omega arith
length-unicode (a ∷ []) e = omega arith
length-unicode (a ∷ b ∷ s) e = omega (arith, length-unicode s e)

length-default_registers :
    (o : OperationType) (s : List ℕ) → length (default_registers o s) ≡ (length s + 1) / 2
unfolding default_registers
length-default_registers o s =
    elim (Bool-cases (is_operation o OperationType.stringify_ascii_big_endian)) [
      | inl e ↦ rw e (length-ascii s big)
      | inr e ↦ rw e (length-unicode s big)
    ]

module _ {D : Type 0} where
  update_values-wrong_size :
      (now : ℤ) (m : RegisterMapping D) (new : List ℕ)
      → length new ≢ length m.byte_values
      → update_values now m new ≡ err logic_error
  unfolding update_values
  update_values-wrong_size now m new ne = ground arith

  does_update_values-wrong_size :
      ⦃d : Double D⦄ (now : ℤ) (m : RegisterMapping D) (new : List ℕ)
      → length new ≢ length m.byte_values
      → does_update_values now m new ≡ err logic_error
  unfolding does_update_values
  does_update_values-wrong_size now m new ne = ground arith

  string_capacity-multi :
      (r : List ℕ) (t : RegisterType) (addresses : List ℤ) (o : OperationType) (s : Settings D)
      → length addresses < 2 ^ 15
      → string_capacity (multi_mapping r t addresses OutputType.string o s) ≡ 2 * length addresses
  unfolding string_capacity multi_mapping get_register_count ◌*ℤ◌
  string_capacity-multi r t addresses o s h = ground arith

  -- The registers that a string mapping starts with.
  with_string-byte_values :
      (base : RegisterMapping D) (o : OperationType) (c : ℕ) (rest : List ℕ)
      → length (c ∷ rest) ≤ string_capacity base
      → (with_string base o (c ∷ rest)).byte_values ≡ default_registers o (c ∷ rest)
  unfolding with_string
  with_string-byte_values base o c rest h = ground arith

  module _ ⦃d : Double D⦄ where
    make_string_mapping-byte_values :
        (r : List ℕ) (t : RegisterType) (addresses : List ℤ) (o : OperationType) (s : Settings D)
        (c : ℕ) (rest : List ℕ) (m : RegisterMapping D)
        → make_string_mapping r t addresses o s (c ∷ rest) ≡ ok m
        → length addresses < 2 ^ 15
        → length (c ∷ rest) ≤ 2 * length addresses
        → m.byte_values ≡ default_registers o (c ∷ rest)
    unfolding make_string_mapping
    make_string_mapping-byte_values r t addresses o s c rest m e few fits =
        let s' : Settings D = record s { deadband = d.zero } in
        let (base, x, e₁) =
          >>=-eq-ok (make_multi r t addresses OutputType.string o s')
            (λ base. throw_if (not (is_stringify o)) >> finish base) e in
        let (_, e₂) = throw_if-eq-ok (not (is_stringify o)) (finish base) e₁ in
        let (_, _, e₃) =
          >>=-eq-ok (check_writable s (is_register t input_register) true)
            (λ _. ok (with_string base o (c ∷ rest))) e₂ in
        let made = (make_multi-eq_ok r t addresses OutputType.string o s' base x).4 in
        let room : length (c ∷ rest) ≤ string_capacity base =
          subst (λ b. length (c ∷ rest) ≤ string_capacity b) made
            (rw (string_capacity-multi r t addresses o s' few) fits) in
        rw (← ok-injective _ m e₃) (with_string-byte_values base o c rest room)
      where
        finish : RegisterMapping D → Result (RegisterMapping D)
        finish base =
            check_writable s (is_register t input_register) true
            >> ok (with_string base o (c ∷ rest))

    -- A string mapping of fewer than 2^15 registers whose default text is not empty and fills fewer
    -- registers than the mapping has keeps too few register values: as constructed, it throws at
    -- every doesUpdate and update with as many values as it has registers.
    pub short_default_blocks_updates :
        (r : List ℕ) (t : RegisterType) (addresses : List ℤ) (o : OperationType) (s : Settings D)
        (c : ℕ) (rest : List ℕ) (m : RegisterMapping D)
        → make_string_mapping r t addresses o s (c ∷ rest) ≡ ok m
        → length addresses < 2 ^ 15
        → (length (c ∷ rest) + 1) / 2 < length addresses
        → (now : ℤ) (new : List ℕ) → length new ≡ length addresses
        → (does_update_values now m new ≡ err logic_error)
          × (update_values now m new ≡ err logic_error)
    short_default_blocks_updates r t addresses o s c rest m e few short now new size =
        let kept = make_string_mapping-byte_values r t addresses o s c rest m e few (omega arith) in
        let ne : length new ≢ length m.byte_values =
          rw kept (omega (arith, length-default_registers o (c ∷ rest))) in
        (does_update_values-wrong_size now m new ne, update_values-wrong_size now m new ne)

  -- A bit mapping that is made with a default value starts as `true`, also if the default is
  -- `false`; without one it starts as `false`.
  pub bit_default_is_true :
      ⦃d : Double D⦄ (r : List ℕ) (t : RegisterType) (a bit : ℤ) (o : OperationType)
      (s : Settings D) (default : Option Bool) (m : RegisterMapping D)
      → make_bool_bit_mapping r t a o bit s default ≡ ok m
      → m.bool_value ≡ is_some default
  unfolding make_bool_bit_mapping make_bit
  bit_default_is_true r t a bit o s default m e = ground arith
