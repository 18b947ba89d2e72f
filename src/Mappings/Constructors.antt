-- ===== src/Mappings/Constructors.antt =====
-- more_modbus/mappings/*.cpp: the constructors of the derived classes. A default value is an
-- `Option` where the code takes a pointer, and the empty string is none for a StringMapping. The
-- text that getDefaultValue returns is left out.
use more_modbus.Prelude.{
  ℕ, Bool, true, false, not, ◌&&◌, ◌||◌, List, [], ◌∷◌, Option, none, some, Result, ok, ◌>>=◌, ◌>>◌,
  throw_if, ltb, if◌then◌else◌, length,
}
use more_modbus.Prelude.Int.{ℤ, pos, ltb_ℤ}
use more_modbus.DataParsers.{
  big, int16_to_uint16, int32_to_registers, uint32_to_registers, float_to_registers,
  ascii_string_to_registers, unicode_string_to_registers,
}
use more_modbus.RegisterMapping.{
  RegisterType, OutputType, OperationType, coil, input_contact, holding_register, input_register,
  is_register, is_operation, Double, Typed, RegisterMapping,
}
use more_modbus.RegisterMapping.Constructors.{
  Settings, make_single, make_typed, make_bit, make_multi, is_stringify, is_merge,
}
use more_modbus.RegisterMapping.Update.{merge_endian, float_endian}
use more_modbus.Mappings.{string_capacity}

abbrev pub is_some {ℓ} : {A : Type ℓ} → Option A → Bool
is_some none = false
is_some (some a) = true

-- The two checks that every class makes against its read-only register type.
abbrev pub check_writable : {D : Type 0} → Settings D → Bool → Bool → Result (Unit {0})
check_writable s read_only has_default = do
  throw_if (ltb_ℤ (pos 0) s.repeated_write && read_only)
  throw_if (has_default && read_only)

pub is_empty : List ℕ → Bool
is_empty [] = true
is_empty (c ∷ cs) = false

-- The default registers are those of the big-endian parsers, whatever the operation.
unfoldable pub default_registers : OperationType → List ℕ → List ℕ
default_registers operation default =
    if is_operation operation OperationType.stringify_ascii_big_endian
    then ascii_string_to_registers default big
    else unicode_string_to_registers default big

module _ {D : Type 0} where
  -- BoolMapping(reference, registerType, address, …), which has no deadband
  unfoldable pub make_bool_mapping :
      ⦃d : Double D⦄
      → List ℕ
      → RegisterType
      → ℤ
      → Settings D
      → Option Bool
      → Result (RegisterMapping D)
  make_bool_mapping ⦃d⦄ reference t address s default = do
    base ← make_single reference t address (record s { deadband = d.zero })
    throw_if (not (is_register t coil || is_register t input_contact))
    check_writable s (is_register t input_contact) (is_some default)
    ok (record base {
      bool_value = elim default [ none ↦ false | some b ↦ b ];
      typed = Typed.bool_mapping;
    })

  -- BoolMapping(reference, registerType, address, operation, bitIndex, …). A default is assigned as
  -- the pointer that it is, which reads as `true`.
  unfoldable pub make_bool_bit_mapping :
      ⦃d : Double D⦄
      → List ℕ
      → RegisterType
      → ℤ
      → OperationType
      → ℤ
      → Settings D
      → Option Bool
      → Result (RegisterMapping D)
  make_bool_bit_mapping reference t address operation bit_index s default = do
    base ← make_bit reference t address bit_index s
    throw_if (not (is_operation operation OperationType.take_bit))
    check_writable s (is_register t input_register) (is_some default)
    ok (record base { bool_value = is_some default; typed = Typed.bool_mapping })

  with_int16 : RegisterMapping D → Option ℤ → RegisterMapping D
  with_int16 base none = record base { typed = Typed.int16_mapping (pos 0) }
  with_int16 base (some v) = record base {
    byte_values = int16_to_uint16 v ∷ [];
    typed = Typed.int16_mapping v;
  }

  -- Int16Mapping(…)
  unfoldable pub make_int16_mapping :
      List ℕ → RegisterType → ℤ → Settings D → Option ℤ → Result (RegisterMapping D)
  unfolding with_int16
  make_int16_mapping reference t address s default = do
    base ← make_typed reference t address OutputType.int16 s
    check_writable s (is_register t input_register) (is_some default)
    ok (with_int16 base default)

  with_uint16 : RegisterMapping D → Option ℕ → RegisterMapping D
  with_uint16 base none = record base { typed = Typed.uint16_mapping 0 }
  with_uint16 base (some v) = record base { byte_values = v ∷ []; typed = Typed.uint16_mapping v }

  -- UInt16Mapping(…)
  unfoldable pub make_uint16_mapping :
      List ℕ → RegisterType → ℤ → Settings D → Option ℕ → Result (RegisterMapping D)
  unfolding with_uint16
  make_uint16_mapping reference t address s default = do
    base ← make_single reference t address s
    throw_if (not (is_register t input_register || is_register t holding_register))
    check_writable s (is_register t input_register) (is_some default)
    ok (with_uint16 base default)

  with_int32 : RegisterMapping D → Option ℤ → RegisterMapping D
  with_int32 base none = record base { typed = Typed.int32_mapping (pos 0) }
  with_int32 base (some v) = record base {
    byte_values = int32_to_registers v (merge_endian base);
    typed = Typed.int32_mapping v;
  }

  -- Int32Mapping(…)
  unfoldable pub make_int32_mapping :
      List ℕ
      → RegisterType
      → List ℤ
      → OperationType
      → Settings D
      → Option ℤ
      → Result (RegisterMapping D)
  unfolding with_int32
  make_int32_mapping reference t addresses operation s default = do
    base ← make_multi reference t addresses OutputType.int32 operation s
    throw_if (not (is_merge operation))
    check_writable s (is_register t input_register) (is_some default)
    ok (with_int32 base default)

  with_uint32 : RegisterMapping D → Option ℕ → RegisterMapping D
  with_uint32 base none = record base { typed = Typed.uint32_mapping 0 }
  with_uint32 base (some v) = record base {
    byte_values = uint32_to_registers v (merge_endian base);
    typed = Typed.uint32_mapping v;
  }

  -- UInt32Mapping(…)
  unfoldable pub make_uint32_mapping :
      List ℕ
      → RegisterType
      → List ℤ
      → OperationType
      → Settings D
      → Option ℕ
      → Result (RegisterMapping D)
  unfolding with_uint32
  make_uint32_mapping reference t addresses operation s default = do
    base ← make_multi reference t addresses OutputType.uint32 operation s
    throw_if (not (is_merge operation))
    check_writable s (is_register t input_register) (is_some default)
    ok (with_uint32 base default)

  -- `unset` is what `m_floatValue`, which has no initializer, happens to hold, and `above` the word
  -- behind it.
  with_float : (unset above : ℕ) → RegisterMapping D → Option ℕ → RegisterMapping D
  with_float unset above base none = record base { typed = Typed.float_mapping unset }
  with_float unset above base (some v) = record base {
    byte_values = float_to_registers above v (float_endian base);
    typed = Typed.float_mapping v;
  }

  -- FloatMapping(…, operation, …); the other constructor is this one at MERGE_FLOAT_BIG_ENDIAN
  unfoldable pub make_float_mapping :
      (unset above : ℕ)
      → List ℕ
      → RegisterType
      → List ℤ
      → OperationType
      → Settings D
      → Option ℕ
      → Result (RegisterMapping D)
  unfolding with_float
  make_float_mapping unset above reference t addresses operation s default = do
    base ← make_multi reference t addresses OutputType.float operation s
    check_writable s (is_register t input_register) (is_some default)
    ok (with_float unset above base default)

  unfoldable pub with_string : RegisterMapping D → OperationType → List ℕ → RegisterMapping D
  unfolding is_empty default_registers
  with_string base operation default =
      if not (is_empty default) && not (ltb (string_capacity base) (length default))
      then record base {
        byte_values = default_registers operation default;
        typed = Typed.string_mapping default;
      }
      else record base { typed = Typed.string_mapping [] }

  -- StringMapping(…), which has no deadband
  unfoldable pub make_string_mapping :
      ⦃d : Double D⦄
      → List ℕ
      → RegisterType
      → List ℤ
      → OperationType
      → Settings D
      → List ℕ
      → Result (RegisterMapping D)
  unfolding with_string is_empty
  make_string_mapping ⦃d⦄ reference t addresses operation s default = do
    base ←
        make_multi reference t addresses OutputType.string operation
          (record s { deadband = d.zero })
    throw_if (not (is_stringify operation))
    check_writable s (is_register t input_register) (not (is_empty default))
    ok (with_string base operation default)
