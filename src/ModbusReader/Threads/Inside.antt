-- ===== src/ModbusReader/Threads/Inside.antt =====
-- Changes of the mappings of one device, as readGroup of ModbusGroupReader.cpp makes them.
use more_modbus.Prelude.{
  ℕ, ◌≡◌, refl, ◌∙◌, subst, Bool, true, false, List, Option, ok, ◌==◌, ==_iff, ==-refl, Bool-cases,
  inl, inr, ok-injective, >>=-eq-ok,
}
use more_modbus.Prelude.Int.{ℤ}
use more_modbus.RegisterMapping.{Double, RegisterMapping, get_register_count}
use more_modbus.RegisterGroup.{Heap, store}
use more_modbus.ModbusGroupReader.{Pass, pass_bool, pass_registers}
use more_modbus.ModbusGroupReader.Counts.{SameCounts, update_bool-count, update-count}
use more_modbus.ModbusGroupReader.Changes.{IsKept}
use more_modbus.RegisterMapping.Update.{does_update_values, does_update_bool, update_bool}
use more_modbus.Mappings.{update}
use more_modbus.ModbusGroupReader.{notify, values_changed}

module _ {D : Type 0} (owner : ℕ → ℕ) where
  -- A change of the mappings of device `i` alone, which leaves all numbers of registers as they
  -- are.
  abbrev pub Inside : ℕ → Heap D → Heap D → Type 0
  Inside i heap heap' =
      ((id : ℕ) → (owner id == i) ≡ false → heap' id ≡ heap id) × SameCounts heap heap'

  pub same-Inside : (i : ℕ) (heap : Heap D) → Inside i heap heap
  same-Inside i heap = ((λ id h. refl), (λ id. refl))

  pub store-Inside :
      (i id : ℕ) (heap : Heap D) (m : RegisterMapping D)
      → owner id ≡ i
      → get_register_count m ≡ get_register_count (heap id)
      → Inside i heap (store heap id m)
  store-Inside i id heap m own count = (
    (λ other h. elim (Bool-cases (other == id)) [
      | inl same ↦
          let e : other ≡ id = (==_iff other id).0 same in
          let o : (owner other == i) ≡ true = rw (e, own) (==-refl i) in cc
      | inr apart ↦ rw apart refl
    ]),
    (λ other. elim (Bool-cases (other == id)) [
      | inl same ↦ rw (same, (==_iff other id).0 same) count
      | inr apart ↦ rw apart refl
    ]),
  )

  pub joined-Inside : (i : ℕ) (a b c : Heap D) → Inside i a b → Inside i b c → Inside i a c
  joined-Inside i a b c h k = ((λ id o. k.0 id o ∙ h.0 id o), (λ id. k.1 id ∙ h.1 id))

  pass_bool-Inside :
      (i : ℕ) (now : ℤ) (device : Option ℕ) (id : ℕ) (value : Bool) (p : Pass D)
      → owner id ≡ i
      → Inside i (p.0) ((pass_bool now device id value p).0)
  unfolding pass_bool
  pass_bool-Inside i now device id value (heap, notices) own =
      elim (Bool-cases (does_update_bool now (heap id) value)) [
        | inl t ↦ rw t (
            store-Inside i id heap ((update_bool now (heap id) value).0) own
              (update_bool-count now (heap id) value))
        | inr f ↦ rw f (same-Inside i heap)
      ]

  pass_registers-Inside :
      ⦃d : Double D⦄ (i : ℕ) (now : ℤ) (device : Option ℕ) (id : ℕ) (values : List ℕ)
      (p p' : Pass D)
      → owner id ≡ i
      → pass_registers now device id values p ≡ ok p'
      → Inside i (p.0) (p'.0)
  unfolding pass_registers
  pass_registers-Inside i now device id values (heap, notices) p' own e =
      let (wanted, x, y) = >>=-eq-ok (does_update_values now (heap id) values) _ e in
      elim (Bool-cases wanted) [
        | inl t ↦
            let ((m, b), u, z) =
              >>=-eq-ok (update now (heap id) values)
                (λ r. ok (store heap id (r.0), notify device (values_changed id values) notices))
                (rw t at y) in
            subst (λ (q : Pass D). Inside i heap (q.0)) (ok-injective _ p' z)
              (store-Inside i id heap m own (update-count now (heap id) m values u))
        | inr f ↦
            subst (λ (q : Pass D). Inside i heap (q.0))
              (ok-injective (heap, notices) p' (rw f at y)) (same-Inside i heap)
      ]

  pub Inside-IsKept : ⦃d : Double D⦄ (i : ℕ) → IsKept (λ id. owner id ≡ i) (Inside i)
  Inside-IsKept i = record {
    same = same-Inside i;
    joined = joined-Inside i;
    one_bool = λ now device id value p own. pass_bool-Inside i now device id value p own;
    some_registers =
        λ now device id values p p' own e. pass_registers-Inside i now device id values p p' own e;
  }
