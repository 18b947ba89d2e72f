-- ===== src/Examples/Registers.antt =====
-- The mappings of RegisterMapping.cpp at concrete states.
use more_modbus.Prelude.{◌≡◌, refl, true, false, [], ◌∷◌, ok, arith, is_ok}
use more_modbus.Prelude.Int.{pos, ◌+ℤ◌}
use more_modbus.DataParsers.{registers_to_int32}
use more_modbus.RegisterMapping.{holding_register, OutputType, OperationType}
use more_modbus.RegisterMapping.Constructors.{make_multi}
use more_modbus.RegisterMapping.Update.{does_update_values, deadband_filter, differs}
use more_modbus.RegisterMapping.Deadband.{does_update_values_lem, deadband_filter_integers}
use more_modbus.RegisterMapping.WellFormed.{make_multi_accepts}
use more_modbus.Examples.{int_double, int_double-IsIeee, settings, int32_sample}

does_update_values_lem_example :
    does_update_values ⦃d = int_double⦄ (pos 1) int32_sample (20 ∷ 0 ∷ []) ≡ ok true
unfolding deadband_filter registers_to_int32 ◌+ℤ◌ differs
does_update_values_lem_example =
    does_update_values_lem ⦃d = int_double⦄ (pos 1) int32_sample (20 ∷ 0 ∷ []) true refl refl refl
      refl

deadband_filter_integers_example :
    deadband_filter ⦃d = int_double⦄ int32_sample (11 ∷ 0 ∷ []) ≡ ok false
unfolding registers_to_int32
deadband_filter_integers_example =
    deadband_filter_integers ⦃d = int_double⦄ int_double-IsIeee 5 (omega arith) int32_sample
      (11 ∷ 0 ∷ []) (pos 7) (pos 11) refl refl refl (omega arith, omega arith)
      (omega arith, omega arith)

make_multi_accepts_example :
    is_ok (
      make_multi [] holding_register
        (pos 1 ∷ pos 2 ∷ pos 3 ∷ [])
        OutputType.int32
        OperationType.merge_big_endian
        settings)
    ≡ false
make_multi_accepts_example =
    make_multi_accepts [] holding_register (pos 1 ∷ pos 2 ∷ pos 3 ∷ []) OutputType.int32
      OperationType.merge_big_endian settings
