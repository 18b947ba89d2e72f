-- ===== src/ModbusGroupReader/Counts.antt =====
-- What passValuesToGroup offers to mappings leaves their numbers of registers as they are.
use more_modbus.Prelude.{
  ℕ, ◌≡◌, refl, sym, ap, ◌∙◌, Bool, List, Option, ok, Bool-cases, inl, inr, ◌==◌, ok-injective,
  >>=-eq-ok, ==_iff,
}
use more_modbus.Prelude.Int.{ℤ}
use more_modbus.RegisterMapping.{Double, Typed, RegisterMapping, get_register_count}
use more_modbus.RegisterMapping.Update.{
  does_update_bool, update_bool, does_update_values, updated, update_values, update_values-eq_ok,
}
use more_modbus.Mappings.{update, decode}
use more_modbus.RegisterGroup.{Heap, store}
use more_modbus.ModbusGroupReader.{Pass, notify, values_changed, pass_bool, pass_registers}

-- What is offered to mappings leaves the registers that they take as they are.
module _ {D : Type 0} where
  abbrev pub SameCounts : Heap D → Heap D → Type 0
  SameCounts heap heap' = (id : ℕ) → get_register_count (heap' id) ≡ get_register_count (heap id)

  pub update_bool-count :
      (now : ℤ) (m : RegisterMapping D) (value : Bool)
      → get_register_count ((update_bool now m value).0) ≡ get_register_count m
  unfolding update_bool get_register_count
  update_bool-count now m value = refl

  updated-count :
      (now : ℤ) (m : RegisterMapping D) (v : Typed) (new : List ℕ)
      → get_register_count (updated now (record m { typed = v }) new) ≡ get_register_count m
  unfolding get_register_count
  updated-count now m v new = refl

  pub update-count :
      (now : ℤ) (m m' : RegisterMapping D) (new : List ℕ) {changed : Bool}
      → update now m new ≡ ok (m', changed)
      → get_register_count m' ≡ get_register_count m
  unfolding update
  update-count now m m' new e =
      let (v, _, y) =
        >>=-eq-ok (decode m.typed m.operation_type new)
          (λ v. update_values now (record m { typed = v }) new) e in
      let (_, eq, _) = update_values-eq_ok now (record m { typed = v }) m' new y in
      rw eq (updated-count now m v new)

  store-counts :
      (heap : Heap D) (id : ℕ) (m : RegisterMapping D)
      → get_register_count m ≡ get_register_count (heap id)
      → SameCounts heap (store heap id m)
  store-counts heap id m h other = elim (Bool-cases (other == id)) [
    | inl same ↦ rw (same, (==_iff other id).0 same) h
    | inr apart ↦ rw apart refl
  ]

  pub pass_bool-counts :
      (now : ℤ) (device : Option ℕ) (id : ℕ) (value : Bool) (p : Pass D)
      → SameCounts (p.0) ((pass_bool now device id value p).0)
  unfolding pass_bool
  pass_bool-counts now device id value (heap, notices) other =
      elim (Bool-cases (does_update_bool now (heap id) value)) [
        | inl t ↦ rw t (
            store-counts heap id ((update_bool now (heap id) value).0)
              (update_bool-count now (heap id) value) other)
        | inr f ↦ rw f refl
      ]

  pub pass_registers-counts :
      ⦃d : Double D⦄ (now : ℤ) (device : Option ℕ) (id : ℕ) (values : List ℕ) (p p' : Pass D)
      → pass_registers now device id values p ≡ ok p'
      → SameCounts (p.0) (p'.0)
  unfolding pass_registers
  pass_registers-counts now device id values (heap, notices) p' e other =
      let (wanted, x, y) = >>=-eq-ok (does_update_values now (heap id) values) _ e in
      elim (Bool-cases wanted) [
        | inl t ↦
            let ((m, b), u, z) =
              >>=-eq-ok (update now (heap id) values)
                (λ r. ok (store heap id (r.0), notify device (values_changed id values) notices))
                (rw t at y) in
            ap (λ (q : Pass D). get_register_count (q.0 other)) (sym (ok-injective _ p' z))
            ∙ store-counts heap id m (update-count now (heap id) m values u) other
        | inr f ↦
            ap (λ (q : Pass D). get_register_count (q.0 other))
              (sym (ok-injective (heap, notices) p' (rw f at y)))
      ]
