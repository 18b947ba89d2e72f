-- ===== src/Examples/Groups.antt =====
-- Groups and what is passed to them, at concrete states.
use more_modbus.Prelude.{ℕ, ◌≡◌, refl, true, false, List, [], ◌∷◌, ok, arith, Option}
use more_modbus.Prelude.Int.{ℤ, pos, negsuc}
use more_modbus.RegisterMapping.{coil, OutputType, OperationType, Typed}
use more_modbus.RegisterGroup.{
  RegisterGroup, Heap, claim, bit_claim, text_less, get_address_from_string, get_bit_from_string,
}
use more_modbus.RegisterGroup.Claims.{claim_round_trip}
use more_modbus.ModbusGroupReader.{Pass, pass_bool, pass_bool_values}
use more_modbus.ModbusGroupReader.TextOrder.{
  next_bool, pass_bool_values_in_order, pass_bool_values_swapped,
}
use more_modbus.Examples.{mapping}

claim_round_trip_example :
    (get_address_from_string (claim (pos 400)) ≡ pos 400)
    × (get_bit_from_string (claim (pos 400)) ≡ negsuc 0)
    × (get_address_from_string (bit_claim (pos 400) (pos 13)) ≡ pos 400)
    × (get_bit_from_string (bit_claim (pos 400) (pos 13)) ≡ pos 13)
claim_round_trip_example =
    claim_round_trip (pos 400) (pos 13) (omega arith, omega arith) (omega arith, omega arith)

abbrev coils : Heap ℤ
coils = λ id.
    record (mapping OutputType.bool OperationType.none (pos id) [] (0 ∷ []) Typed.bool_mapping) {
      register_type = coil;
    }

-- Two coils at neighbouring addresses, with mappings 0 and 1.
abbrev group_at : List ℕ → List ℕ → RegisterGroup
group_at first second = record {
  register_type = coil;
  slave_address = pos 1;
  read_restricted = false;
  device = Option.none;
  mappings = (first, 0) ∷ (second, 1) ∷ [];
}

pass_bool_values_in_order_example :
    (p' : Pass ℤ) × (pass_bool_values
        (pos 9)
        (group_at (b'7' ∷ []) (b'8' ∷ []))
        (true ∷ false ∷ [])
        (coils, [])
      ≡ ok p')
    × (p'.0 1 ≡ next_bool (pos 9) (coils 1) false)
unfolding text_less
pass_bool_values_in_order_example =
    pass_bool_values_in_order (pos 9) (group_at (b'7' ∷ []) (b'8' ∷ [])) (true ∷ false ∷ [])
      (coils, []) (tt, (((refl, refl), tt), tt)) (omega arith) ((refl, tt), (tt, tt)) 1
      (b'8' ∷ [], 1) false refl refl

pass_bool_values_swapped_example :
    pass_bool_values
      (pos 9)
      (group_at (b'9' ∷ []) (b'1' ∷ b'0' ∷ []))
      (true ∷ false ∷ [])
      (coils, [])
    ≡ ok (pass_bool (pos 9) Option.none 0 false (pass_bool (pos 9) Option.none 1 true (coils, [])))
unfolding text_less
pass_bool_values_swapped_example =
    pass_bool_values_swapped (pos 9) (group_at (b'9' ∷ []) (b'1' ∷ b'0' ∷ [])) (b'9' ∷ [], 0)
      (b'1' ∷ b'0' ∷ [], 1) true false (coils, []) refl refl
