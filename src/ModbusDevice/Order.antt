-- ===== src/ModbusDevice/Order.antt =====
-- CompareFunction of ModbusDevice.h is a lexicographic order of five numbers.
use more_modbus.Prelude.{
  ℕ, ◌≡◌, refl, Bool, true, false, not, ltb, ◌==◌, if◌then◌else◌, arith, ok, Bool-cases, inl, inr,
}
use more_modbus.Prelude.Int.{ℤ, ltb_ℤ, ◌==ℤ◌}
use more_modbus.RegisterMapping.{
  RegisterMapping, is_register, register_type_number, output_type_number, get_starting_address,
  get_register_count,
}
use more_modbus.ModbusDevice.{same_type_less, mapping_less}

-- What CompareFunction looks at.
pub record Key : Type 0 where
  pub register_type : ℕ
  pub start : ℤ
  pub count : ℤ
  pub output : ℕ
  pub bit : ℤ

abbrev pub before_at : Bool → Bool → Bool → Bool
before_at equal less rest = if not equal then less else rest

abbrev pub key_less : Key → Key → Bool
key_less k m =
    before_at (k.register_type == m.register_type) (ltb k.register_type m.register_type) (
      before_at (k.start ==ℤ m.start) (ltb_ℤ k.start m.start) (
        before_at (k.count ==ℤ m.count) (ltb_ℤ k.count m.count)
          (before_at (k.output == m.output) (ltb k.output m.output) (ltb_ℤ k.bit m.bit))))

before_trans :
    (a b c : ℕ) (ab bc ac : Bool)
    → (ab ≡ true → bc ≡ true → ac ≡ true)
    → before_at (a == b) (ltb a b) ab ≡ true
    → before_at (b == c) (ltb b c) bc ≡ true
    → before_at (a == c) (ltb a c) ac ≡ true
before_trans a b c ab bc ac rest h k = ground arith

before_trans_ℤ :
    (a b c : ℤ) (ab bc ac : Bool)
    → (ab ≡ true → bc ≡ true → ac ≡ true)
    → before_at (a ==ℤ b) (ltb_ℤ a b) ab ≡ true
    → before_at (b ==ℤ c) (ltb_ℤ b c) bc ≡ true
    → before_at (a ==ℤ c) (ltb_ℤ a c) ac ≡ true
before_trans_ℤ a b c ab bc ac rest h k = ground arith

pub key_less_trans : (k m n : Key) → key_less k m ≡ true → key_less m n ≡ true → key_less k n ≡ true
key_less_trans k m n = before_trans k.register_type m.register_type n.register_type _ _ _ (
    before_trans_ℤ k.start m.start n.start _ _ _ (
      before_trans_ℤ k.count m.count n.count _ _ _
        (before_trans k.output m.output n.output _ _ _ (λ h l. ground arith))))

pub key_less_irrefl : (k : Key) → key_less k k ≡ false
key_less_irrefl k = ground arith

module _ {D : Type 0} where
  abbrev pub key_at : RegisterMapping D → ℤ → Key
  key_at m start = record {
    register_type = register_type_number m.register_type;
    start = start;
    count = get_register_count m;
    output = output_type_number m.output_type;
    bit = m.bit_index;
  }

  pub mapping_less-key_less :
      (m n : RegisterMapping D) (a b : ℤ)
      → get_starting_address m ≡ ok a
      → get_starting_address n ≡ ok b
      → mapping_less m n ≡ ok (key_less (key_at m a) (key_at n b))
  unfolding mapping_less same_type_less
  mapping_less-key_less m n a b h k =
      rw (h, k)
        (elim (Bool-cases (is_register m.register_type n.register_type)) [
          | inl same ↦ rw same refl
          | inr other ↦ rw other refl
        ])
