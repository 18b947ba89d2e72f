-- ===== src/RegisterGroup/Adding.antt =====
-- addMapping of RegisterGroup.cpp keeps a group laid out as blocks of adjacent registers.
use more_modbus.Prelude.{
  ℕ, ◌+◌, ◌^◌, ◌≤◌, ◌≡◌, refl, sym, ap, ◌∙◌, Bool, true, false, List, [], ◌∷◌, ◌++◌, arith,
  if◌then◌else◌, ◌==◌, ok, Option, inl, inr, Bool-cases,
}
use more_modbus.Prelude.Int.{pos}
use more_modbus.RegisterMapping.{is_operation, OperationType, get_register_count, set_slave_address}
use more_modbus.RegisterGroup.{RegisterGroup, Heap, store, add_mapping, append_claims, joins}
use more_modbus.RegisterGroup.Layout.{Block, registers, total_size, run_claims, lay}
use more_modbus.RegisterGroup.Append.{IsBelow-lay, append_claims-run, lay_last}
use more_modbus.RegisterGroup.Joining.{
  IsNext, joins_laid, add_by, fits_at_end, append_whole, start_of_slave, count_of_slave,
}

-- A group with other claims, or as it was where the mapping was refused.
abbrev pub relaid : RegisterGroup → ℕ → Option (List Block) → RegisterGroup × Bool
relaid g a Option.none = (g, false)
relaid g a (Option.some blocks) = (record g { mappings = lay a blocks }, true)

-- Whole registers go behind the last block, where they start there.
abbrev pub whole_blocks : ℕ → List Block → ℕ → (id n : ℕ) → Option (List Block)
whole_blocks a blocks y id n =
    if y == a + total_size blocks
    then Option.some (blocks ++ (registers id n ∷ []))
    else Option.none

module _ {D : Type 0} where
  -- A mapping of n whole registers that does not start before the group joins it exactly if it
  -- starts where the group ends; its claims then follow those of the group, and nothing else of the
  -- group changes. Either way the mapping takes the group's slave address.
  pub add_mapping-whole :
      (heap : Heap D) (g : RegisterGroup) (id a y n : ℕ) (blocks : List Block)
      → IsNext heap g id a y blocks
      → is_operation (heap id).operation_type OperationType.take_bit ≡ false
      → get_register_count (heap id) ≡ pos n
      → a ≤ y
      → n ≤ 2 ^ 15
      → add_mapping heap g id
        ≡ ok (
            let after = relaid g a (whole_blocks a blocks y id n) in
            (store heap id (set_slave_address (heap id) g.slave_address), after.0, after.1))
  unfolding set_slave_address
  add_mapping-whole heap g id a y n blocks next whole count l few =
      let m = set_slave_address (heap id) g.slave_address in
      let fits : joins g m ≡ ok (y == a + total_size blocks) =
        joins_laid heap g id a y blocks next
        ∙ rw whole (ap ok (fits_at_end m a (total_size blocks) y l)) in
      elim (Bool-cases (y == a + total_size blocks)) [
        | inl here ↦
            let end : y ≡ a + total_size blocks = ground arith in
            let claims : append_claims n (pos y) id g.mappings
                ≡ lay a (blocks ++ (registers id n ∷ [])) =
              ap (λ t. append_claims n (pos y) id t) next.laid
              ∙ append_claims-run n y id (lay a blocks)
                  (IsBelow-lay heap a y blocks next.sound (omega arith) (omega (arith, next.small)))
                  (omega (arith, next.small))
              ∙ ap (λ (k : ℕ). lay a blocks ++ run_claims n k id) end
              ∙ sym (lay_last a blocks (registers id n)) in
            rw here (
              add_by heap g (record g { mappings = lay a (blocks ++ (registers id n ∷ [])) }) id a y
                blocks true true next (fits ∙ ap ok here)
                (append_whole g m id y n whole
                    (start_of_slave (heap id) g.slave_address ∙ next.start)
                    (count_of_slave (heap id) g.slave_address ∙ count)
                  ∙ ap (λ t. ok (record g { mappings = t }, true)) claims))
        | inr gap ↦ rw gap (add_by heap g g id a y blocks false false next (fits ∙ ap ok gap) refl)
      ]
