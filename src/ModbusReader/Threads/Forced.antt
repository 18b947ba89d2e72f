-- ===== src/ModbusReader/Threads/Forced.antt =====
-- What forceReadOfMapping of ModbusReader.cpp may change, which reads one mapping by
-- ModbusMappingReader.
use more_modbus.Prelude.{
  ℕ, ◌≡◌, sym, ap, ◌∙◌, subst, Bool, true, false, List, [], ◌∷◌, Option, Result, ok, ◌>>=◌,
  Bool-cases, inl, inr, ok-injective, >>=-eq-ok, if◌then◌else◌,
}
use more_modbus.Prelude.Int.{ℤ}
use more_modbus.RegisterMapping.{
  RegisterType, coil, input_contact, holding_register, input_register, Double, get_register_count,
}
use more_modbus.RegisterMapping.Update.{does_update_values, does_update_bool, update_bool}
use more_modbus.Mappings.{update}
use more_modbus.ModbusGroupReader.{Pass}
use more_modbus.ModbusGroupReader.Counts.{update_bool-count, update-count}
use more_modbus.ModbusClient.{
  LibModbus, ModbusClient, read_coil, read_input_contacts, read_holding_registers,
  read_input_registers,
}
use more_modbus.ModbusMappingReader.{
  take_bool, take_first, take_registers, take_all, natural, read_by, read_register,
}
use more_modbus.ModbusReader.{force_read_of_mapping}
use more_modbus.ModbusReader.Threads.Inside.{Inside, same-Inside, store-Inside}

module _ {D : Type 0} (owner : ℕ → ℕ) (i : ℕ) (now : ℤ) (device : Option ℕ) (id : ℕ)
    (own : owner id ≡ i) where
  take_bool-Inside :
      (value : Bool) (p : Pass D) → Inside owner i (p.0) ((take_bool now device id value p).0.0)
  unfolding take_bool
  take_bool-Inside value (heap, notices) =
      let kept =
        store-Inside owner i id heap ((update_bool now (heap id) value).0) own
          (update_bool-count now (heap id) value) in
      elim (Bool-cases (does_update_bool now (heap id) value)) [
        | inl t ↦ elim (Bool-cases ((update_bool now (heap id) value).1)) [
          | inl changed ↦ rw (t, changed) kept
          | inr unchanged ↦ rw (t, unchanged) kept
        ]
        | inr f ↦ rw f (same-Inside owner i heap)
      ]

  take_first-Inside :
      (values : Option (List Bool)) (p : Pass D)
      → Inside owner i (p.0) ((take_first now device id values p).0.0)
  unfolding take_first
  take_first-Inside Option.none p = same-Inside owner i (p.0)
  take_first-Inside (Option.some []) p = same-Inside owner i (p.0)
  take_first-Inside (Option.some (value ∷ rest)) p = take_bool-Inside value p

module _ {D : Type 0} ⦃d : Double D⦄ (owner : ℕ → ℕ) (i : ℕ) (now : ℤ) (device : Option ℕ) (id : ℕ)
    (own : owner id ≡ i) where
  take_registers-Inside :
      (values : List ℕ) (p p' : Pass D) (b : Bool)
      → take_registers now device id values p ≡ ok (p', b)
      → Inside owner i (p.0) (p'.0)
  unfolding take_registers
  take_registers-Inside values (heap, notices) p' b e =
      let (wanted, x, y) = >>=-eq-ok (does_update_values now (heap id) values) _ e in
      elim (Bool-cases wanted) [
        | inl t ↦
            let ((m, changed), u, z) = >>=-eq-ok (update now (heap id) values) _ (rw t at y) in
            let kept = store-Inside owner i id heap m own (update-count now (heap id) m values u) in
            elim (Bool-cases changed) [
              | inl c ↦
                  subst (λ (q : Pass D × Bool). Inside owner i heap (q.0.0))
                    (ok-injective _ (p', b) (rw c at z)) kept
              | inr c ↦
                  subst (λ (q : Pass D × Bool). Inside owner i heap (q.0.0))
                    (ok-injective _ (p', b) (rw c at z)) kept
            ]
        | inr f ↦
            subst (λ (q : Pass D × Bool). Inside owner i heap (q.0.0))
              (ok-injective ((heap, notices), true) (p', b) (rw f at y)) (same-Inside owner i heap)
      ]

  take_all-Inside :
      (values : Option (List ℕ)) (p p' : Pass D) (b : Bool)
      → take_all now device id values p ≡ ok (p', b)
      → Inside owner i (p.0) (p'.0)
  unfolding take_all
  take_all-Inside Option.none p p' b e =
      subst (λ (q : Pass D × Bool). Inside owner i (p.0) (q.0.0))
        (ok-injective (p, false) (p', b) e) (same-Inside owner i (p.0))
  take_all-Inside (Option.some []) p p' b e =
      subst (λ (q : Pass D × Bool). Inside owner i (p.0) (q.0.0))
        (ok-injective (p, false) (p', b) e) (same-Inside owner i (p.0))
  take_all-Inside (Option.some (value ∷ rest)) p p' b e =
      take_registers-Inside (value ∷ rest) p p' b e

module _ {S D : Type 0} ⦃l : LibModbus S⦄ ⦃d : Double D⦄ (owner : ℕ → ℕ) (i : ℕ) (now : ℤ)
    (device : Option ℕ) (id : ℕ) (own : owner id ≡ i) where
  coil_end :
      (c₁ c' : ModbusClient S) (got : Option Bool) (p p' : Pass D) (b : Bool)
      → ◌≡◌ {A = Result (ModbusClient S × Pass D × Bool)}
          (ok (elim got [
            | Option.none ↦ (c₁, p, false)
            | Option.some value ↦
                let taken = take_bool now device id value p in (c₁, taken.0, taken.1)
          ]))
          (ok (c', p', b))
      → Inside owner i (p.0) (p'.0)
  coil_end c₁ c' Option.none p p' b e =
      subst (λ (t : ModbusClient S × Pass D × Bool). Inside owner i (p.0) (t.1.0))
        (ok-injective (c₁, p, false) (c', p', b) e) (same-Inside owner i (p.0))
  coil_end c₁ c' (Option.some value) p p' b e =
      subst (λ (t : ModbusClient S × Pass D × Bool). Inside owner i (p.0) (t.1.0))
        (ok-injective _ (c', p', b) e) (take_bool-Inside owner i now device id own value p)

  -- The end of a read of registers.
  read_all-Inside :
      (count : Result ℕ) (read : ℕ → Result (ModbusClient S × Option (List ℕ)))
      (c' : ModbusClient S) (p p' : Pass D) (b : Bool)
      → (count >>= λ n. read n >>= λ got.
          ◌>>=◌ {B = ModbusClient S × Pass D × Bool}
            (take_all now device id (got.1) p)
            (λ taken. ok (got.0, taken.0, taken.1)))
        ≡ ok (c', p', b)
      → Inside owner i (p.0) (p'.0)
  read_all-Inside count read c' p p' b e =
      let (n, _, y) = >>=-eq-ok count _ e in
      let (got, _, z) = >>=-eq-ok (read n) _ y in
      let ((q, done), x, w) =
        >>=-eq-ok (take_all now device id (got.1) p) (λ taken. ok (got.0, taken.0, taken.1)) z in
      subst (λ (t : ModbusClient S × Pass D × Bool). Inside owner i (p.0) (t.1.0))
        (ok-injective (got.0, q, done) (c', p', b) w)
        (take_all-Inside owner i now device id own (got.1) p q done x)

  read_by-Inside :
      (type : RegisterType) (c c' : ModbusClient S) (p p' : Pass D) (b : Bool)
      → read_by type now device id c p ≡ ok (c', p', b)
      → Inside owner i (p.0) (p'.0)
  unfolding read_by
  read_by-Inside coil c c' p p' b e =
      let ((c₁, got), _, y) = >>=-eq-ok (read_coil (p.0 id).slave_address (p.0 id).address c) _ e in
      coil_end c₁ c' got p p' b y
  read_by-Inside input_contact c c' p p' b e =
      let ((c₁, got), _, y) =
        >>=-eq-ok (read_input_contacts (p.0 id).slave_address (p.0 id).address 1 c) _ e in
      subst (λ (t : ModbusClient S × Pass D × Bool). Inside owner i (p.0) (t.1.0))
        (ok-injective _ (c', p', b) y) (take_first-Inside owner i now device id own got p)
  read_by-Inside holding_register c c' p p' b e =
      let m = p.0 id in
      read_all-Inside (natural (get_register_count m))
        (λ n. read_holding_registers m.slave_address m.address n c) c' p p' b e
  read_by-Inside input_register c c' p p' b e =
      let m = p.0 id in
      read_all-Inside (natural (get_register_count m))
        (λ n. read_input_registers m.slave_address m.address n c) c' p p' b e

  pub force_read-Inside :
      (c c' : ModbusClient S) (p p' : Pass D) (b : Bool)
      → force_read_of_mapping now device id c p ≡ ok (c', p', b)
      → Inside owner i (p.0) (p'.0)
  unfolding force_read_of_mapping read_register
  force_read-Inside c c' p p' b e = elim (Bool-cases (p.0 id).read_restricted) [
    | inl restricted ↦
        subst (λ (t : ModbusClient S × Pass D × Bool). Inside owner i (p.0) (t.1.0))
          (ok-injective (c, p, true) (c', p', b) (pick restricted e)) (same-Inside owner i (p.0))
    | inr allowed ↦ read_by-Inside (p.0 id).register_type c c' p p' b (pick allowed e)
  ]
    where
      pick :
          {x : Bool}
          → (p.0 id).read_restricted ≡ x
          → (if (p.0 id).read_restricted
              then ok (c, p, true)
              else read_by (p.0 id).register_type now device id c p)
            ≡ ok (c', p', b)
          → (if x then ok (c, p, true) else read_by (p.0 id).register_type now device id c p)
            ≡ ok (c', p', b)
      pick h f =
          ap (λ y. if y then ok (c, p, true) else read_by (p.0 id).register_type now device id c p)
            (sym h)
          ∙ f
