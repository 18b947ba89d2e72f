-- ===== src/Mappings.antt =====
-- more_modbus/mappings/*.cpp: what the derived classes do when a value comes in (update, a virtual
-- call that goes by the class) and when one is written (writeValue). An exception leaves no state
-- here; the code may have set the derived class's member before it throws.
pub mod Constructors
pub mod RoundTrip
pub mod Defaults
use more_modbus.Prelude.{
  ℕ, ◌-◌, ◌^◌, Bool, true, false, List, [], ◌∷◌, ◌++◌, Result, ok, err, logic_error, ◌>>=◌, ltb,
  if◌then◌else◌, length, replicate,
}
use more_modbus.Prelude.Int.{ℤ, pos, ◌*ℤ◌, mod_ℤ}
use more_modbus.DataParsers.{
  big, little, uint16_to_int16, int16_to_uint16, uint32_to_registers, int32_to_registers,
  float_to_registers, ascii_string_to_registers, unicode_string_to_registers, registers_to_uint32,
  registers_to_int32, registers_to_float, registers_to_ascii_string, registers_to_unicode_string,
}
use more_modbus.RegisterMapping.{
  OperationType, Typed, plain_mapping, bool_mapping, int16_mapping, uint16_mapping, int32_mapping,
  uint32_mapping, float_mapping, string_mapping, RegisterMapping, get_register_count,
}
use more_modbus.RegisterMapping.Update.{update_values, front}

-- The switch of Int32Mapping::update over the operation; so for the others.
unfoldable pub decode_int32 : OperationType → List ℕ → Result ℤ
decode_int32 OperationType.merge_big_endian new = registers_to_int32 new big
decode_int32 OperationType.merge_little_endian new = registers_to_int32 new little
decode_int32 _ new = err logic_error

unfoldable pub decode_uint32 : OperationType → List ℕ → Result ℕ
decode_uint32 OperationType.merge_big_endian new = registers_to_uint32 new big
decode_uint32 OperationType.merge_little_endian new = registers_to_uint32 new little
decode_uint32 _ new = err logic_error

unfoldable pub decode_float : OperationType → List ℕ → Result ℕ
decode_float OperationType.merge_float_big_endian new = registers_to_float new big
decode_float OperationType.merge_float_little_endian new = registers_to_float new little
decode_float _ new = err logic_error

unfoldable pub decode_string : OperationType → List ℕ → Result (List ℕ)
decode_string OperationType.stringify_ascii_big_endian new = ok (registers_to_ascii_string new big)
decode_string OperationType.stringify_ascii_little_endian new =
    ok (registers_to_ascii_string new little)
decode_string OperationType.stringify_unicode_big_endian new =
    ok (registers_to_unicode_string new big)
decode_string OperationType.stringify_unicode_little_endian new =
    ok (registers_to_unicode_string new little)
decode_string _ new = err logic_error

-- The member of the derived class after new register values; Int16Mapping and UInt16Mapping read
-- `newValues[0]` unchecked.
unfoldable pub decode : Typed → OperationType → List ℕ → Result Typed
decode plain_mapping o new = ok plain_mapping
decode bool_mapping o new = ok bool_mapping
decode (int16_mapping _) o new = front new >>= λ w. ok (int16_mapping (uint16_to_int16 w))
decode (uint16_mapping _) o new = front new >>= λ w. ok (uint16_mapping w)
decode (int32_mapping _) o new = decode_int32 o new >>= λ v. ok (int32_mapping v)
decode (uint32_mapping _) o new = decode_uint32 o new >>= λ v. ok (uint32_mapping v)
decode (float_mapping _) o new = decode_float o new >>= λ v. ok (float_mapping v)
decode (string_mapping _) o new = decode_string o new >>= λ v. ok (string_mapping v)

module _ {D : Type 0} where
  -- The virtual update(const std::vector<uint16_t>&).
  unfoldable pub update : ℤ → RegisterMapping D → List ℕ → Result (RegisterMapping D × Bool)
  update now m new = do
    value ← decode m.typed m.operation_type new
    update_values now (record m { typed = value }) new

-- Int32Mapping::writeValue chooses the registers by the operation; so for the others.
unfoldable pub encode_int32 : OperationType → ℤ → Result (List ℕ)
encode_int32 OperationType.merge_big_endian value = ok (int32_to_registers value big)
encode_int32 OperationType.merge_little_endian value = ok (int32_to_registers value little)
encode_int32 _ value = err logic_error

unfoldable pub encode_uint32 : OperationType → ℕ → Result (List ℕ)
encode_uint32 OperationType.merge_big_endian value = ok (uint32_to_registers value big)
encode_uint32 OperationType.merge_little_endian value = ok (uint32_to_registers value little)
encode_uint32 _ value = err logic_error

unfoldable pub encode_float : ℕ → OperationType → ℕ → Result (List ℕ)
encode_float above OperationType.merge_float_big_endian value =
    ok (float_to_registers above value big)
encode_float above OperationType.merge_float_little_endian value =
    ok (float_to_registers above value little)
encode_float above _ value = err logic_error

unfoldable pub encode_string : OperationType → List ℕ → Result (List ℕ)
encode_string OperationType.stringify_ascii_big_endian value =
    ok (ascii_string_to_registers value big)
encode_string OperationType.stringify_ascii_little_endian value =
    ok (ascii_string_to_registers value little)
encode_string OperationType.stringify_unicode_big_endian value =
    ok (unicode_string_to_registers value big)
encode_string OperationType.stringify_unicode_little_endian value =
    ok (unicode_string_to_registers value little)
encode_string _ value = err logic_error

-- `while (bytes.size() < m_addresses.size()) bytes.emplace_back(0);`
unfoldable pub pad : ℕ → List ℕ → List ℕ
pad size bytes = bytes ++ replicate (size - length bytes) 0

module _ {D : Type 0} where
  -- `static_cast<uint16_t>(getRegisterCount() * 2)`
  unfoldable pub string_capacity : RegisterMapping D → ℕ
  string_capacity m = mod_ℤ (get_register_count m *ℤ pos 2) (2 ^ 16)

  -- The registers of StringMapping::writeValue.
  unfoldable pub string_registers : RegisterMapping D → List ℕ → Result (List ℕ)
  string_registers m value =
      if ltb (string_capacity m) (length value)
      then err logic_error
      else (encode_string m.operation_type value >>= λ bytes. ok (pad (length m.addresses) bytes))

  -- The registers that writeValue of each class hands to RegisterMapping::writeValue. `above` is
  -- the word that floatToRegisters reads past its argument.
  unfoldable pub encode : ℕ → RegisterMapping D → Typed → Result (List ℕ)
  encode above m plain_mapping = err logic_error
  encode above m bool_mapping = err logic_error
  encode above m (int16_mapping v) = ok (int16_to_uint16 v ∷ [])
  encode above m (uint16_mapping v) = ok (v ∷ [])
  encode above m (int32_mapping v) = encode_int32 m.operation_type v
  encode above m (uint32_mapping v) = encode_uint32 m.operation_type v
  encode above m (float_mapping v) = encode_float above m.operation_type v
  encode above m (string_mapping v) = string_registers m v

  -- writeValue(value) of the classes for registers; `write` is RegisterMapping::writeValue.
  unfoldable pub write_value :
      ℕ
      → (RegisterMapping D → List ℕ → Result (RegisterMapping D × Bool))
      → RegisterMapping D
      → Typed
      → Result (RegisterMapping D × Bool)
  write_value above write m value = do
    bytes ← encode above m value
    written ← write m bytes
    ok (if written.1 then (record (written.0) { typed = value }, true) else (written.0, false))

  -- BoolMapping::writeValue(bool)
  unfoldable pub write_bool_value :
      (RegisterMapping D → Bool → Result (RegisterMapping D × Bool))
      → RegisterMapping D
      → Bool
      → Result (RegisterMapping D × Bool)
  write_bool_value write m value = do
    written ← write m value
    ok (if written.1 then (record (written.0) { bool_value = value }, true) else (written.0, false))
