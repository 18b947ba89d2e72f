-- ===== src/ModbusGroupReader/Changes.antt =====
-- What readGroup of ModbusGroupReader.cpp may change: only mappings of the group, each by an
-- update.
use more_modbus.Prelude.{
  ℕ, zero, suc, ◌+◌, ◌-◌, ◌^◌, ◌≡◌, sym, ap, ◌∙◌, subst, Bool, true, false, List, [], ◌∷◌, Option,
  Result, ok, ◌>>=◌, All, Bool-cases, inl, inr, if◌then◌else◌, ok-injective, >>=-eq-ok,
}
use more_modbus.Prelude.Int.{ℤ, pos_part, mod_ℤ, ◌==ℤ◌}
use more_modbus.DataParsers.{separate_bits}
use more_modbus.RegisterMapping.{
  RegisterType, coil, input_contact, holding_register, input_register, Double, get_register_count,
}
use more_modbus.RegisterGroup.{
  RegisterGroup, Entry, Heap, get_address_count, starting_address, get_address_from_string,
  get_bit_from_string, get_mappings_map, map_of,
}
use more_modbus.RegisterGroup.Copying.Claims.{map_of-All}
use more_modbus.ModbusClient.{
  LibModbus, ModbusClient, read_coils, read_input_contacts, read_holding_registers,
  read_input_registers,
}
use more_modbus.ModbusGroupReader.{
  Pass, at, next_values, pass_bool, pass_bools, pass_bits, pass_registers, pass_claims,
  pass_bool_values, pass_register_values, is_bit_claim,
}
use more_modbus.ModbusGroupReader.Reading.{pass_on, read_group_by, read_group}

-- A relation that holds between the heap before and after each update of a mapping in `P`, is
-- reflexive, and composes.
pub record IsKept {D : Type 0} ⦃d : Double D⦄ (P : ℕ → Type 0) (Keep : Heap D → Heap D → Type 0)
    : Type 0 where
  pub same : (heap : Heap D) → Keep heap heap
  pub joined : (a b c : Heap D) → Keep a b → Keep b c → Keep a c
  pub one_bool :
      (now : ℤ) (device : Option ℕ) (id : ℕ) (value : Bool) (p : Pass D)
      → P id
      → Keep (p.0) ((pass_bool now device id value p).0)
  pub some_registers :
      (now : ℤ) (device : Option ℕ) (id : ℕ) (values : List ℕ) (p p' : Pass D)
      → P id
      → pass_registers now device id values p ≡ ok p'
      → Keep (p.0) (p'.0)

module _ {D : Type 0} ⦃d : Double D⦄ (P : ℕ → Type 0) (Keep : Heap D → Heap D → Type 0)
    (kept : IsKept P Keep) (now : ℤ) (device : Option ℕ) where
  abbrev pub Owned : List Entry → Type 0
  Owned entries = All (λ (e : Entry). P (e.1)) entries

  pass_bools-Keep :
      (entries : List Entry) (values : List Bool) (i : ℕ) (p p' : Pass D)
      → Owned entries
      → pass_bools now device entries values i p ≡ ok p'
      → Keep (p.0) (p'.0)
  unfolding pass_bools
  pass_bools-Keep [] values i p p' h e =
      subst (λ (q : Pass D). Keep (p.0) (q.0)) (ok-injective p p' e) (kept.same (p.0))
  pass_bools-Keep (x ∷ rest) values i p p' h e =
      let (v, _, y) =
        >>=-eq-ok (at values i)
          (λ value. pass_bools now device rest values (i + 1) (pass_bool now device (x.1) value p))
          e in
      let q = pass_bool now device (x.1) v p in
      kept.joined (p.0) (q.0) (p'.0) (kept.one_bool now device (x.1) v p h.0)
        (pass_bools-Keep rest values (i + 1) q p' h.1 y)

  pass_bits-Keep :
      (bits : List Bool) (address : ℤ) (entries : List Entry) (p p' : Pass D) {n : ℕ}
      → Owned entries
      → pass_bits now device bits address entries p ≡ ok (n, p')
      → Keep (p.0) (p'.0)
  unfolding pass_bits
  pass_bits-Keep bits address [] p p' {n = n} h e =
      subst (λ (r : ℕ × Pass D). Keep (p.0) (r.1.0)) (ok-injective (0, p) (n, p') e)
        (kept.same (p.0))
  pass_bits-Keep bits address (x ∷ rest) p p' {n = n} h e =
      elim (Bool-cases (address ==ℤ get_address_from_string (x.0))) [
        | inl here ↦
            let (v, _, y) =
              >>=-eq-ok (at bits (mod_ℤ (get_bit_from_string (x.0)) (2 ^ 16)))
                (λ value.
                  pass_bits now device bits address rest (pass_bool now device (x.1) value p)
                  >>= λ passed. ok (passed.0 + 1, passed.1))
                (rw here at e) in
            let q = pass_bool now device (x.1) v p in
            let ((k, r), u, z) =
              >>=-eq-ok (pass_bits now device bits address rest q)
                (λ passed. ok (passed.0 + 1, passed.1)) y in
            subst (λ (t : ℕ × Pass D). Keep (p.0) (t.1.0)) (ok-injective (k + 1, r) (n, p') z)
              (kept.joined (p.0) (q.0) (r.0) (kept.one_bool now device (x.1) v p h.0)
                (pass_bits-Keep bits address rest q r h.1 u))
        | inr apart ↦
            subst (λ (r : ℕ × Pass D). Keep (p.0) (r.1.0))
              (ok-injective (0, p) (n, p') (rw apart at e)) (kept.same (p.0))
      ]

  pass_claims-Keep :
      (entries : List Entry) (skip : ℕ) (values : List ℕ) (i : ℕ) (p p' : Pass D)
      → Owned entries
      → pass_claims now device entries skip values i p ≡ ok p'
      → Keep (p.0) (p'.0)
  unfolding pass_claims
  pass_claims-Keep [] skip values i p p' h e =
      subst (λ (q : Pass D). Keep (p.0) (q.0)) (ok-injective p p' e) (kept.same (p.0))
  pass_claims-Keep (x ∷ rest) (suc skip) values i p p' h e =
      pass_claims-Keep rest skip values i p p' h.1 e
  pass_claims-Keep (x ∷ rest) zero values i p p' h e = elim (Bool-cases (is_bit_claim (x.0))) [
    | inl bit ↦
        let (v, _, y) =
          >>=-eq-ok (at values i)
            (λ value.
              pass_bits now device (separate_bits value) (get_address_from_string (x.0)) (x ∷ rest)
                p
              >>= λ passed. pass_claims now device rest (passed.0 - 1) values (i + 1) (passed.1))
            (rw bit at e) in
        let ((k, q), u, z) =
          >>=-eq-ok
            (pass_bits now device (separate_bits v) (get_address_from_string (x.0)) (x ∷ rest) p)
            (λ passed. pass_claims now device rest (passed.0 - 1) values (i + 1) (passed.1)) y in
        kept.joined (p.0) (q.0) (p'.0)
          (pass_bits-Keep (separate_bits v) (get_address_from_string (x.0)) (x ∷ rest) p q h u)
          (pass_claims-Keep rest (k - 1) values (i + 1) q p' h.1 z)
    | inr whole ↦
        let count = pos_part (get_register_count (p.0 (x.1))) in
        let (taken, _, y) =
          >>=-eq-ok (next_values count values i)
            (λ taken. pass_registers now device (x.1) taken p >>= λ q.
              pass_claims now device rest (count - 1) values (i + count) q)
            (rw whole at e) in
        let (q, u, z) =
          >>=-eq-ok (pass_registers now device (x.1) taken p)
            (λ q. pass_claims now device rest (count - 1) values (i + count) q) y in
        kept.joined (p.0) (q.0) (p'.0) (kept.some_registers now device (x.1) taken p q h.0 u)
          (pass_claims-Keep rest (count - 1) values (i + count) q p' h.1 z)
  ]

module _ {D : Type 0} ⦃d : Double D⦄ (P : ℕ → Type 0) (Keep : Heap D → Heap D → Type 0)
    (kept : IsKept P Keep) (now : ℤ) (g : RegisterGroup) (p : Pass D)
    (owned : Owned P Keep kept now g.device g.mappings) where
  bools-Keep :
      (values : List Bool) (q : Pass D) → pass_bool_values now g values p ≡ ok q → Keep (p.0) (q.0)
  unfolding pass_bool_values get_mappings_map
  bools-Keep values q e =
      pass_bools-Keep P Keep kept now g.device (map_of [] g.mappings) values 0 p q
        (map_of-All (λ (x : Entry). P (x.1)) [] g.mappings tt owned) e

  registers-Keep :
      (values : List ℕ) (q : Pass D) → pass_register_values now g values p ≡ ok q → Keep (p.0) (q.0)
  unfolding pass_register_values
  registers-Keep values q e =
      pass_claims-Keep P Keep kept now g.device g.mappings 0 values 0 p q owned e

module _ {S D : Type 0} ⦃l : LibModbus S⦄ ⦃d : Double D⦄ (P : ℕ → Type 0)
    (Keep : Heap D → Heap D → Type 0) (kept : IsKept P Keep) (now : ℤ) (g : RegisterGroup)
    (p : Pass D) (owned : Owned P Keep kept now g.device g.mappings) where
  pass_on-Keep :
      {A : Type 0} (pass : A → Pass D → Result (Pass D)) (got : ModbusClient S × Option A)
      (c' : ModbusClient S) (p' : Pass D) {read : Bool}
      → ((values : A) (q : Pass D) → pass values p ≡ ok q → Keep (p.0) (q.0))
      → pass_on pass p got ≡ ok (c', p', read)
      → Keep (p.0) (p'.0)
  unfolding pass_on
  pass_on-Keep pass (c, Option.none) c' p' {read = read} h e =
      subst (λ (t : ModbusClient S × Pass D × Bool). Keep (p.0) (t.1.0))
        (ok-injective (c, p, false) (c', p', read) e) (kept.same (p.0))
  pass_on-Keep pass (c, Option.some values) c' p' {read = read} h e =
      let (q, u, z) = >>=-eq-ok (pass values p) (λ q. ok (c, q, true)) e in
      subst (λ (t : ModbusClient S × Pass D × Bool). Keep (p.0) (t.1.0))
        (ok-injective (c, q, true) (c', p', read) z) (h values q u)

  read-Keep :
      {A : Type 0} (read : Result (ModbusClient S × Option A)) (pass : A → Pass D → Result (Pass D))
      (c' : ModbusClient S) (p' : Pass D) {done : Bool}
      → ((values : A) (q : Pass D) → pass values p ≡ ok q → Keep (p.0) (q.0))
      → (read >>= λ got. pass_on pass p got) ≡ ok (c', p', done)
      → Keep (p.0) (p'.0)
  read-Keep read pass c' p' h e =
      let (got, _, y) = >>=-eq-ok read (λ got. pass_on pass p got) e in
      pass_on-Keep pass got c' p' h y

  read_group_by-Keep :
      (type : RegisterType) (start : ℤ) (c c' : ModbusClient S) (p' : Pass D) {read : Bool}
      → read_group_by type now g start c p ≡ ok (c', p', read)
      → Keep (p.0) (p'.0)
  unfolding read_group_by
  read_group_by-Keep coil start c c' p' e =
      read-Keep (read_coils g.slave_address start (get_address_count g) c) (pass_bool_values now g)
        c' p' (bools-Keep P Keep kept now g p owned) e
  read_group_by-Keep input_contact start c c' p' e =
      read-Keep (read_input_contacts g.slave_address start (get_address_count g) c)
        (pass_bool_values now g) c' p' (bools-Keep P Keep kept now g p owned) e
  read_group_by-Keep holding_register start c c' p' e =
      read-Keep (read_holding_registers g.slave_address start (get_address_count g) c)
        (pass_register_values now g) c' p' (registers-Keep P Keep kept now g p owned) e
  read_group_by-Keep input_register start c c' p' e =
      read-Keep (read_input_registers g.slave_address start (get_address_count g) c)
        (pass_register_values now g) c' p' (registers-Keep P Keep kept now g p owned) e

  pub read_group-Keep :
      (c c' : ModbusClient S) (p' : Pass D) {read : Bool}
      → read_group now g c p ≡ ok (c', p', read)
      → Keep (p.0) (p'.0)
  unfolding read_group
  read_group-Keep c c' p' {read = read} e = elim (Bool-cases g.read_restricted) [
    | inl restricted ↦
        subst (λ (t : ModbusClient S × Pass D × Bool). Keep (p.0) (t.1.0))
          (ok-injective (c, p, true) (c', p', read)
            (ap
                (λ b.
                  if b
                  then ok (c, p, true)
                  else (starting_address g >>= λ start.
                      read_group_by g.register_type now g start c p))
                (sym restricted)
              ∙ e))
          (kept.same (p.0))
    | inr allowed ↦
        let (start, _, y) =
          >>=-eq-ok (starting_address g) (λ start. read_group_by g.register_type now g start c p)
            (ap
                (λ b.
                  if b
                  then ok (c, p, true)
                  else (starting_address g >>= λ start.
                      read_group_by g.register_type now g start c p))
                (sym allowed)
              ∙ e) in
        read_group_by-Keep g.register_type start c c' p' y
  ]
