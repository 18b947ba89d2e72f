-- ===== src/ModbusGroupReader.antt =====
-- more_modbus/modbus/ModbusGroupReader.cpp: values that were read are handed to the mappings of a
-- group. The notices to the device's callbacks are collected in the order in which they are made;
-- `now` is what the clock shows during the pass.
pub mod TextOrder
pub mod Reading
pub mod Counts
pub mod Blocks
pub mod Memory
pub mod Changes
use more_modbus.Prelude.{
  ℕ, zero, suc, ◌+◌, ◌-◌, ◌%◌, ◌^◌, Bool, true, false, not, ◌&&◌, ◌||◌, List, [], ◌∷◌, ◌++◌, ◌≡◌,
  Option, Result, ok, err, undefined, out_of_range, ◌>>=◌, leb, ltb, ◌==◌, if◌then◌else◌, length,
  get_elem?,
}
use more_modbus.Prelude.Int.{ℤ, pos, pos_part, ◌==ℤ◌, mod_ℤ}
use more_modbus.DataParsers.{separate_bits}
use more_modbus.RegisterMapping.{Double, RegisterMapping, get_register_count}
use more_modbus.RegisterMapping.Update.{does_update_values, does_update_bool, update_bool}
use more_modbus.Mappings.{update}
use more_modbus.RegisterGroup.{
  RegisterGroup, Entry, Heap, store, separator, get_address_from_string, get_bit_from_string,
  after_separator, get_mappings_map, get_mappings_claims,
}

-- What ModbusDevice::triggerOnMappingValueChange is told.
pub data Notice : Type 0 where
  bool_changed : ℕ → Bool → Notice
  values_changed : ℕ → List ℕ → Notice

-- The mappings and the notices so far.
abbrev pub Pass : Type 0 → Type 0
Pass D = Heap D × List Notice

-- `v[i]`
unfoldable pub at {ℓ} : {A : Type ℓ} → List A → ℕ → Result A
at xs i = elim (get_elem? xs i) [ Option.none ↦ err undefined | Option.some x ↦ ok x ]

pub at-some {ℓ} :
    {A : Type ℓ} (xs : List A) (i : ℕ) (x : A) → get_elem? xs i ≡ Option.some x → at xs i ≡ ok x
unfolding at
at-some xs i x e = rw (e, at)

abbrev pub notify : Option ℕ → Notice → List Notice → List Notice
notify Option.none n notices = notices
notify (Option.some _) n notices = notices ++ (n ∷ [])

-- `data`, the next `n` values.
unfoldable pub next_values : ℕ → List ℕ → ℕ → Result (List ℕ)
next_values zero values i = ok []
next_values (suc n) values i = do v ← at values i; vs ← next_values n values (i + 1); ok (v ∷ vs)

pub is_bit_claim : List ℕ → Bool
is_bit_claim text = elim (after_separator text) [ Option.none ↦ false | Option.some _ ↦ true ]

module _ {D : Type 0} where
  -- `if (doesUpdate(v)) { update(v); device->triggerOnMappingValueChange(…); }` for a bool
  unfoldable pub pass_bool : ℤ → Option ℕ → ℕ → Bool → Pass D → Pass D
  pass_bool now device id value (heap, notices) =
      if does_update_bool now (heap id) value
      then (
        store heap id (update_bool now (heap id) value).0,
        notify device (bool_changed id value) notices,
      )
      else (heap, notices)

  -- The loop over getMappingsMap, which counts the values along the map's order.
  unfoldable pub pass_bools : ℤ → Option ℕ → List Entry → List Bool → ℕ → Pass D → Result (Pass D)
  pass_bools now device [] values i p = ok p
  pass_bools now device (e ∷ rest) values i p = do
    value ← at values i
    pass_bools now device rest values (i + 1) (pass_bool now device (e.1) value p)

  -- The bits of one register: the `while` over the claims at `address`, from the claim `shift`
  -- places behind the first. The result also counts the claims that were passed.
  unfoldable pub pass_bits :
      ℤ → Option ℕ → List Bool → ℤ → List Entry → Pass D → Result (ℕ × Pass D)
  pass_bits now device bits address [] p = ok (0, p)
  pass_bits now device bits address (e ∷ rest) p =
      let more = (do
        value ← at bits (mod_ℤ (get_bit_from_string (e.0)) (2 ^ 16))
        passed ← pass_bits now device bits address rest (pass_bool now device (e.1) value p)
        ok (passed.0 + 1, passed.1)) in
      if address ==ℤ get_address_from_string (e.0) then more else ok (0, p)

  -- passValuesToGroup(RegisterGroup&, const std::vector<bool>&)
  unfoldable pub pass_bool_values : ℤ → RegisterGroup → List Bool → Pass D → Result (Pass D)
  pass_bool_values now g values p = pass_bools now g.device (get_mappings_map g) values 0 p

module _ {D : Type 0} ⦃d : Double D⦄ where
  -- The same for register values, where update is virtual.
  unfoldable pub pass_registers : ℤ → Option ℕ → ℕ → List ℕ → Pass D → Result (Pass D)
  pass_registers now device id values (heap, notices) = do
    wanted ← does_update_values now (heap id) values
    (let changed = (do
      updated ← update now (heap id) values
      ok (store heap id (updated.0), notify device (values_changed id values) notices)) in
        if wanted then changed else ok (heap, notices))

  -- The loop over the claims: `skip` claims belong to a mapping that has its values, and `i` values
  -- are used up.
  unfoldable pub pass_claims :
      ℤ → Option ℕ → List Entry → (skip : ℕ) → List ℕ → (i : ℕ) → Pass D → Result (Pass D)
  unfolding is_bit_claim
  pass_claims now device [] skip values i p = ok p
  pass_claims now device (e ∷ rest) (suc skip) values i p =
      pass_claims now device rest skip values i p
  pass_claims now device (e ∷ rest) zero values i p =
      let bits = (do
        value ← at values i
        passed ←
            pass_bits now device (separate_bits value) (get_address_from_string (e.0)) (e ∷ rest) p
        pass_claims now device rest (passed.0 - 1) values (i + 1) (passed.1)) in
      let registers =
        (let count = pos_part (get_register_count (p.0 (e.1))) in
          do
            taken ← next_values count values i
            p' ← pass_registers now device (e.1) taken p
            pass_claims now device rest (count - 1) values (i + count) p') in
      if is_bit_claim (e.0) then bits else registers

  -- passValuesToGroup(RegisterGroup&, const std::vector<uint16_t>&)
  unfoldable pub pass_register_values : ℤ → RegisterGroup → List ℕ → Pass D → Result (Pass D)
  pass_register_values now g values p = pass_claims now g.device g.mappings 0 values 0 p
