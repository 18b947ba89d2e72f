-- ===== src/Examples/Parsers.antt =====
-- The conversions of DataParsers.cpp at concrete values.
use more_modbus.Prelude.{◌≡◌, [], ◌∷◌, arith}
use more_modbus.DataParsers.{
  little, ascii_string_to_registers, unicode_string_to_registers, registers_to_ascii_string,
  registers_to_unicode_string,
}
use more_modbus.DataParsers.Text.{little_odd_loses_last}

little_odd_loses_last_example :
    (registers_to_ascii_string (ascii_string_to_registers (77 ∷ 98 ∷ 33 ∷ []) little) little
      ≡ 77 ∷ 98 ∷ 0 ∷ [])
    × (registers_to_unicode_string (unicode_string_to_registers (77 ∷ 98 ∷ 33 ∷ []) little) little
        ≡ 77 ∷ 98 ∷ 0 ∷ [])
little_odd_loses_last_example = little_odd_loses_last (77 ∷ 98 ∷ []) 33 (omega arith) (ground arith)
