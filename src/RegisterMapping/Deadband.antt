-- ===== src/RegisterMapping/Deadband.antt =====
-- What doesUpdate decides, and the deadband filter over integers.
use more_modbus.Prelude.{
  ℕ, ◌-◌, ◌^◌, ◌≤◌, ◌≡◌, refl, ap, Bool, true, false, not, ◌&&◌, ◌||◌, List, [], ◌∷◌, Result, ok,
  err, logic_error, ◌>>=◌, arith, leb, length, ok-injective, >>=-eq-ok,
}
use more_modbus.Prelude.Int.{
  ℤ, pos, negsuc, ◌+ℤ◌, ◌-ℤ◌, ◌≤ℤ◌, leb_ℤ, ◌==ℤ◌, distance, +ℤ_parts, -ℤ_parts,
}
use more_modbus.DataParsers.{registers_to_uint32, registers_to_int32, uint16_to_int16}
use more_modbus.RegisterMapping.{OutputType, Double, RegisterMapping}
use more_modbus.RegisterMapping.Update.{
  differs, significant, deadband_filter, deadband_by, front, merge_endian, is_frequent,
  does_update_values, update_values, does_update_bool, update_bool, updated, update_values-eq_ok,
}

differs_self : (xs : List ℕ) → differs xs xs ≡ false
unfolding differs
differs_self [] = refl
differs_self (x ∷ xs) = ground (arith, differs_self xs)

module _ {D : Type 0} ⦃d : Double D⦄ where
  -- Once a mapping has a valid value, a new value of the right size passes exactly if it differs,
  -- the frequency filter is off or its period is over, and the deadband is zero or exceeded.
  pub does_update_values_lem :
      (now : ℤ) (m : RegisterMapping D) (new : List ℕ) (exceeded : Bool)
      → length new ≡ length m.byte_values
      → m.is_initialized ≡ true
      → m.is_valid ≡ true
      → deadband_filter m new ≡ ok exceeded
      → does_update_values now m new
        ≡ ok (
            differs m.byte_values new
            && (m.frequency_filter_value ==ℤ pos 0 || not (is_frequent now m))
            && (d.eq m.deadband_value d.zero || exceeded))
  unfolding does_update_values
  does_update_values_lem now m new exceeded size init valid e = ground arith

  -- A value that doesUpdate lets through is reported as a change by update, which takes it over.
  pub update-of_does_update :
      (now later : ℤ) (m : RegisterMapping D) (new : List ℕ)
      → does_update_values now m new ≡ ok true
      → update_values later m new ≡ ok (updated later m new, true)
  unfolding does_update_values update_values
  update-of_does_update now later m new e = ground arith

  -- The value that a mapping has just taken over does not pass doesUpdate again.
  pub does_update-update :
      (now later : ℤ) (m m' : RegisterMapping D) (new : List ℕ) {changed : Bool}
      → update_values now m new ≡ ok (m', changed)
      → does_update_values later m' new ≡ ok false
  unfolding does_update_values
  does_update-update now later m m' new e =
      let (size, eq, _) = update_values-eq_ok now m m' new e in
      rw eq (ground (arith, differs_self new))

  -- With a frequency filter, a bit or coil that is initialized and valid and shows its old value
  -- again passes doesUpdate as soon as the period is over, and update then reports that nothing
  -- changed.
  pub bool_refresh :
      (now : ℤ) (m : RegisterMapping D)
      → m.is_initialized ≡ true
      → m.is_valid ≡ true
      → (m.frequency_filter_value ==ℤ pos 0) ≡ false
      → is_frequent now m ≡ false
      → (does_update_bool now m m.bool_value ≡ true) × ((update_bool now m m.bool_value).1 ≡ false)
  unfolding does_update_bool update_bool
  bool_refresh now m init valid filter over = ground arith

  -- Without a frequency filter, doesUpdate and update agree on every bit or coil value.
  pub does_update_bool-eq-update :
      (now later : ℤ) (m : RegisterMapping D) (value : Bool)
      → m.frequency_filter_value ≡ pos 0
      → does_update_bool now m value ≡ (update_bool later m value).1
  unfolding does_update_bool update_bool
  does_update_bool-eq-update now later m value off = ground arith

-- The integers that a `double` represents exactly, and a sum of two of which is exact.
abbrev pub IsSmall : ℤ → Type 0
IsSmall a = (negsuc (2 ^ 52 - 1) ≤ℤ a) × (a ≤ℤ pos (2 ^ 52))

abbrev pub IsExactRange : ℤ → Type 0
IsExactRange a = (negsuc (2 ^ 53 - 1) ≤ℤ a) × (a ≤ℤ pos (2 ^ 53))

-- IEEE 754: sums and differences of small integers are exact, and integers compare as such.
pub record IsIeee {D : Type 0} (d : Double D) : Type 0 where
  pub add_int :
      (a b : ℤ) → IsSmall a → IsSmall b → d.add (d.of_int a) (d.of_int b) ≡ d.of_int (a +ℤ b)
  pub sub_int :
      (a b : ℤ) → IsSmall a → IsSmall b → d.sub (d.of_int a) (d.of_int b) ≡ d.of_int (a -ℤ b)
  pub le_int :
      (a b : ℤ) → IsExactRange a → IsExactRange b → d.le (d.of_int a) (d.of_int b) ≡ leb_ℤ a b

module _ {D : Type 0} where
  -- The integer that registers stand for in a mapping of integer output.
  abbrev pub integer_value_by : OutputType → RegisterMapping D → List ℕ → Result ℤ
  integer_value_by OutputType.uint16 m regs = front regs >>= λ w. ok (pos w)
  integer_value_by OutputType.int16 m regs = front regs >>= λ w. ok (uint16_to_int16 w)
  integer_value_by OutputType.uint32 m regs =
      registers_to_uint32 regs (merge_endian m) >>= λ w. ok (pos w)
  integer_value_by OutputType.int32 m regs = registers_to_int32 regs (merge_endian m)
  integer_value_by _ m regs = err logic_error

module _ {D : Type 0} ⦃d : Double D⦄ (laws : IsIeee d) (k : ℕ) (small : k ≤ 2 ^ 51) where
  significant_lem :
      (a b : ℤ)
      → IsSmall a
      → IsSmall b
      → significant (d.of_int (pos k)) (d.of_int a) (d.of_int b) ≡ leb k (distance b a)
  unfolding significant
  significant_lem a b ha hb =
      rw
        (
          laws.add_int a (pos k) ha (omega arith),
          laws.sub_int a (pos k) ha (omega arith),
          laws.le_int (a +ℤ pos k) b (omega (arith, +ℤ_parts a (pos k))) (omega arith),
          laws.le_int b (a -ℤ pos k) (omega arith) (omega (arith, -ℤ_parts a (pos k))),
        )
        (ground (arith, +ℤ_parts a (pos k), -ℤ_parts a (pos k)))

  deadband_by_integers :
      (o : OutputType) (m : RegisterMapping D) (new : List ℕ) (a b : ℤ)
      → m.deadband_value ≡ d.of_int (pos k)
      → integer_value_by o m m.byte_values ≡ ok a
      → integer_value_by o m new ≡ ok b
      → IsSmall a
      → IsSmall b
      → deadband_by o m new ≡ ok (leb k (distance b a))
  unfolding deadband_by
  deadband_by_integers OutputType.uint16 m new a b e old value ha hb =
      let (v, x, p) = >>=-eq-ok (front m.byte_values) (λ w. ok (pos w)) old in
      let (w, y, q) = >>=-eq-ok (front new) (λ w. ok (pos w)) value in
      rw (x, y, e, ok-injective _ _ p, ok-injective _ _ q) (ap ok (significant_lem a b ha hb))
  deadband_by_integers OutputType.int16 m new a b e old value ha hb =
      let (v, x, p) = >>=-eq-ok (front m.byte_values) (λ w. ok (uint16_to_int16 w)) old in
      let (w, y, q) = >>=-eq-ok (front new) (λ w. ok (uint16_to_int16 w)) value in
      rw (x, y, e, ok-injective _ _ p, ok-injective _ _ q) (ap ok (significant_lem a b ha hb))
  deadband_by_integers OutputType.uint32 m new a b e old value ha hb =
      let (v, x, p) =
        >>=-eq-ok (registers_to_uint32 m.byte_values (merge_endian m)) (λ w. ok (pos w)) old in
      let (w, y, q) =
        >>=-eq-ok (registers_to_uint32 new (merge_endian m)) (λ w. ok (pos w)) value in
      rw (x, y, e, ok-injective _ _ p, ok-injective _ _ q) (ap ok (significant_lem a b ha hb))
  deadband_by_integers OutputType.int32 m new a b e old value ha hb =
      rw (old, value, e) (ap ok (significant_lem a b ha hb))
  deadband_by_integers OutputType.bool m new a b e old value ha hb = cc
  deadband_by_integers OutputType.float m new a b e old value ha hb = cc
  deadband_by_integers OutputType.string m new a b e old value ha hb = cc

  -- For an integer output, values of at most 2^52 in size and a whole deadband of at most 2^51, the
  -- deadband filter lets a value through exactly if it is at least the deadband away from the old
  -- value, if `double` behaves as IEEE 754 says.
  pub deadband_filter_integers :
      (m : RegisterMapping D) (new : List ℕ) (a b : ℤ)
      → m.deadband_value ≡ d.of_int (pos k)
      → integer_value_by m.output_type m m.byte_values ≡ ok a
      → integer_value_by m.output_type m new ≡ ok b
      → IsSmall a
      → IsSmall b
      → deadband_filter m new ≡ ok (leb k (distance b a))
  unfolding deadband_filter
  deadband_filter_integers m new a b e old value ha hb =
      deadband_by_integers m.output_type m new a b e old value ha hb
