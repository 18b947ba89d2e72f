-- ===== src/ModbusDevice/Restricting.antt =====
-- addMapping of RegisterGroup.cpp for a mapping that is not read: it always joins.
use more_modbus.Prelude.{
  ◌==◌, ℕ, ◌≡◌, refl, ap, ◌∙◌, Bool, true, Option, ok, ◌>>=◌, ==-refl, inl, inr, Bool-cases,
}
use more_modbus.Prelude.Int.{pos_part, ℤ}
use more_modbus.RegisterMapping.{
  get_register_count, register_type_number, RegisterMapping, OperationType, is_operation,
  get_starting_address, set_slave_address, is_register,
}
use more_modbus.RegisterGroup.{
  RegisterGroup, Heap, store, add_mapping, append_mapping, make_group, key_exists_in_set, claim,
}
use more_modbus.RegisterGroup.Joining.{start_of_slave}
use more_modbus.ModbusDevice.Opening.{empty_group}

-- A group of the same mappings' kind.
abbrev pub IsLike : RegisterGroup → RegisterGroup → Type 0
IsLike g' g = (g'.read_restricted ≡ g.read_restricted) × (g'.register_type ≡ g.register_type)

module _ {D : Type 0} where
  append_mapping-IsLike :
      (g : RegisterGroup) (m : RegisterMapping D) (id : ℕ) (start : ℤ)
      → get_starting_address m ≡ ok start
      → (g' : RegisterGroup) × (b : Bool) × (append_mapping g m id ≡ ok (g', b)) × IsLike g' g
  unfolding append_mapping
  append_mapping-IsLike g m id start h =
      rw h (elim (Bool-cases (is_operation m.operation_type OperationType.take_bit)) [
        | inl is_bit ↦ rw is_bit (elim (Bool-cases (key_exists_in_set (claim start) g.mappings)) [
          | inl taken ↦ rw taken (_, _, refl, (refl, refl))
          | inr free ↦ rw free (_, _, refl, (refl, refl))
        ])
        | inr whole ↦ rw whole (elim (Bool-cases (pos_part (get_register_count m) == 0)) [
          | inl none ↦ rw none (_, _, refl, (refl, refl))
          | inr some ↦ rw some (_, _, refl, (refl, refl))
        ])
      ])

  add_closed :
      (heap : Heap D) (g : RegisterGroup) (id : ℕ)
      → is_register (heap id).register_type g.register_type ≡ true
      → (heap id).read_restricted ≡ true
      → g.read_restricted ≡ true
      → let m = set_slave_address (heap id) g.slave_address in
        add_mapping heap g id
        ≡ (append_mapping g m id >>= λ added. ok (store heap id m, added.0, added.1))
  unfolding add_mapping set_slave_address
  add_closed heap g id same hidden closed = rw (same, hidden, closed) refl

  pub add_restricted :
      (heap : Heap D) (g : RegisterGroup) (id : ℕ) (start : ℤ)
      → is_register (heap id).register_type g.register_type ≡ true
      → (heap id).read_restricted ≡ true
      → g.read_restricted ≡ true
      → get_starting_address (heap id) ≡ ok start
      → (g' : RegisterGroup) × (b : Bool) × (add_mapping heap g id
          ≡ ok (store heap id (set_slave_address (heap id) g.slave_address), g', b))
        × IsLike g' g
  add_restricted heap g id start same hidden closed h =
      let m = set_slave_address (heap id) g.slave_address in
      let (g', b, done, like) =
        append_mapping-IsLike g m id start (start_of_slave (heap id) g.slave_address ∙ h) in
      (
        g',
        b,
        add_closed heap g id same hidden closed
            ∙ ap (λ r. r >>= λ added. ok (store heap id m, added.0, added.1)) done,
        like,
      )

  pub make_restricted :
      (heap : Heap D) (id : ℕ) (start : ℤ) (owner : Option ℕ)
      → (heap id).read_restricted ≡ true
      → get_starting_address (heap id) ≡ ok start
      → (g' : RegisterGroup) × (make_group heap id owner
          ≡ ok (store heap id (set_slave_address (heap id) (heap id).slave_address), g'))
        × IsLike g' (empty_group (heap id) owner)
  unfolding make_group
  make_restricted heap id start owner hidden h =
      let (g', b, done, like) =
        add_restricted heap (empty_group (heap id) owner) id start
          (==-refl (register_type_number (heap id).register_type)) hidden hidden h in
      (g', ap (λ r. r >>= λ added. ok (added.0, added.1)) done, like)
