-- ===== src/RegisterMapping/WellFormed.antt =====
-- Which mappings the constructors let through, and that every operation keeps them well formed.
use more_modbus.Prelude.{
  ℕ, ◌≡◌, sym, ap, [], Bool, true, false, not, ◌&&◌, ◌||◌, List, ok, is_ok, ok-injective, >>=-eq-ok,
  throw_if-eq-ok, arith, ◌==◌, if◌then◌else◌, length, Option,
}
use more_modbus.Prelude.Int.{ℤ}
use more_modbus.RegisterMapping.{
  RegisterType, OutputType, OperationType, is_output, Double, RegisterMapping, set_slave_address,
  set_valid, set_group,
}
use more_modbus.RegisterMapping.Constructors.{
  Settings, is_read_only, is_discrete, is_merge, is_merge_float, check_operation, multi_mapping,
  make_single, make_typed, make_bit, make_multi,
}
use more_modbus.RegisterMapping.{Typed}
use more_modbus.Mappings.{update}
use more_modbus.ModbusDevice.Rewritable.{Objects, set_repeated_write}
use more_modbus.RegisterMapping.Update.{update_values, update_bool}

-- Which outputs go with which operation on which registers.
abbrev pub fits : RegisterType → OutputType → OperationType → Bool
fits t o OperationType.none =
    if is_discrete t
    then is_output o OutputType.bool
    else is_output o OutputType.int16 || is_output o OutputType.uint16
fits t o OperationType.take_bit = not (is_discrete t) && is_output o OutputType.bool
fits t o OperationType.merge_big_endian =
    not (is_discrete t) && (is_output o OutputType.int32 || is_output o OutputType.uint32)
fits t o OperationType.merge_little_endian =
    not (is_discrete t) && (is_output o OutputType.int32 || is_output o OutputType.uint32)
fits t o OperationType.merge_float_big_endian = not (is_discrete t) && is_output o OutputType.float
fits t o OperationType.merge_float_little_endian =
    not (is_discrete t) && is_output o OutputType.float
fits t o OperationType.stringify_ascii_big_endian =
    not (is_discrete t) && is_output o OutputType.string
fits t o OperationType.stringify_ascii_little_endian =
    not (is_discrete t) && is_output o OutputType.string
fits t o OperationType.stringify_unicode_big_endian =
    not (is_discrete t) && is_output o OutputType.string
fits t o OperationType.stringify_unicode_little_endian =
    not (is_discrete t) && is_output o OutputType.string

-- The registers whose values a mapping keeps.
abbrev pub slots : OperationType → ℕ → ℕ
slots OperationType.none n = 1
slots OperationType.take_bit n = 0
slots _ n = n

-- Merges take two registers.
abbrev pub enough : OperationType → ℕ → Bool
enough o n = not (is_merge o || is_merge_float o) || n == 2

-- The operations that join several registers.
abbrev pub is_multi : OperationType → Bool
is_multi OperationType.none = false
is_multi OperationType.take_bit = false
is_multi _ = true

module _ {D : Type 0} where
  pub record IsWellFormed (m : RegisterMapping D) : Type 0 where
    pub writable : (m.read_restricted && is_read_only m.register_type) ≡ false
    pub sized : length m.byte_values ≡ slots m.operation_type (length m.addresses)
    pub fitting : fits m.register_type m.output_type m.operation_type ≡ true
    pub paired : enough m.operation_type (length m.addresses) ≡ true

  -- A bit mapping keeps no register values, and its one address.
  pub make_bit-eq_ok :
      ⦃d : Double D⦄ (reference : List ℕ) (t : RegisterType) (a bit : ℤ) (s : Settings D)
      (m : RegisterMapping D)
      → make_bit reference t a bit s ≡ ok m
      → (m.register_type ≡ t) × (m.address ≡ a) × (m.byte_values ≡ [])
  unfolding make_bit
  make_bit-eq_ok reference t a bit s m e =
      let (_, e₁) = throw_if-eq-ok (s.read_restricted && is_read_only t) _ e in
      let (_, e₂) = throw_if-eq-ok (is_discrete t) _ e₁ in
      let same = sym (ok-injective _ m e₂) in
      (
        ap (λ (x : RegisterMapping D). x.register_type) same,
        ap (λ (x : RegisterMapping D). x.address) same,
        ap (λ (x : RegisterMapping D). x.byte_values) same,
      )

  -- What the constructor for several registers has checked when it returns, and what it returns.
  pub make_multi-eq_ok :
      (reference : List ℕ) (t : RegisterType) (addresses : List ℤ) (o : OutputType)
      (op : OperationType) (s : Settings D) (m : RegisterMapping D)
      → make_multi reference t addresses o op s ≡ ok m
      → ((s.read_restricted && is_read_only t) ≡ false)
        × (is_discrete t ≡ false)
        × ((is_output o OutputType.bool
              || is_output o OutputType.int16
              || is_output o OutputType.uint16)
            ≡ false)
        × (check_operation addresses o op ≡ ok tt)
        × (multi_mapping reference t addresses o op s ≡ m)
  unfolding make_multi
  make_multi-eq_ok reference t addresses o op s m e =
      let (writable, e₁) = throw_if-eq-ok _ _ e in
      let (registers, e₂) = throw_if-eq-ok _ _ e₁ in
      let (wide, e₃) = throw_if-eq-ok _ _ e₂ in
      let (_, checked, e₄) =
        >>=-eq-ok (check_operation addresses o op)
          (λ _. ok (multi_mapping reference t addresses o op s)) e₃ in
      (
        writable,
        registers,
        wide,
        checked,
        ok-injective (multi_mapping reference t addresses o op s) m e₄,
      )

  -- A mapping as a constructor leaves it, or after operations on it. Its class, and the value that a
  -- derived writeValue keeps after it was sent, are any.
  pub data Reachable : RegisterMapping D → Type 0 where
    made_single :
        (reference : List ℕ) (t : RegisterType) (a : ℤ) (s : Settings D) {m : RegisterMapping D}
        → make_single reference t a s ≡ ok m
        → Reachable m
    made_typed :
        (reference : List ℕ) (t : RegisterType) (a : ℤ) (o : OutputType) (s : Settings D)
        {m : RegisterMapping D}
        → make_typed reference t a o s ≡ ok m
        → Reachable m
    made_bit :
        ⦃d : Double D⦄ (reference : List ℕ) (t : RegisterType) (a bit : ℤ) (s : Settings D)
        {m : RegisterMapping D}
        → make_bit reference t a bit s ≡ ok m
        → Reachable m
    made_multi :
        (reference : List ℕ) (t : RegisterType) (addresses : List ℤ) (o : OutputType)
        (op : OperationType) (s : Settings D) {m : RegisterMapping D}
        → make_multi reference t addresses o op s ≡ ok m
        → Reachable m
    updated :
        (now : ℤ) (values : List ℕ) {m m' : RegisterMapping D} {b : Bool}
        → Reachable m
        → update_values now m values ≡ ok (m', b)
        → Reachable m'
    updated_bool :
        (now : ℤ) (value : Bool) {m : RegisterMapping D}
        → Reachable m
        → Reachable (update_bool now m value).0
    class_updated :
        ⦃d : Double D⦄ (now : ℤ) (values : List ℕ) {m m' : RegisterMapping D} {b : Bool}
        → Reachable m
        → update now m values ≡ ok (m', b)
        → Reachable m'
    class_set :
        (v : Typed) {m : RegisterMapping D} → Reachable m → Reachable (record m { typed = v })
    bool_set :
        (value : Bool) {m : RegisterMapping D}
        → Reachable m
        → Reachable (record m { bool_value = value })
    interval_set :
        (o : Objects D) (id : ℕ) (interval : ℤ)
        → Reachable (o.heap id)
        → Reachable ((set_repeated_write o id interval).heap id)
    slave_set :
        (slave : ℤ) {m : RegisterMapping D} → Reachable m → Reachable (set_slave_address m slave)
    valid_set : (valid : Bool) {m : RegisterMapping D} → Reachable m → Reachable (set_valid m valid)
    group_set : (g : Option ℕ) {m : RegisterMapping D} → Reachable m → Reachable (set_group m g)

  -- The constructor for several registers accepts exactly the writable or readable mappings of
  -- register type, output and operation that go together, with two registers for a merge.
  pub make_multi_accepts :
      (reference : List ℕ) (t : RegisterType) (addresses : List ℤ) (o : OutputType)
      (op : OperationType) (s : Settings D)
      → is_ok (make_multi reference t addresses o op s) ≡ (
          not (s.read_restricted && is_read_only t)
          && is_multi op
          && fits t o op
          && enough op (length addresses))
  unfolding make_multi
  make_multi_accepts reference t addresses o op s = ground arith

  -- The constructor with an output type accepts exactly the outputs that fit one register.
  pub make_typed_accepts :
      (reference : List ℕ) (t : RegisterType) (a : ℤ) (o : OutputType) (s : Settings D)
      → is_ok (make_typed reference t a o s)
        ≡ (not (s.read_restricted && is_read_only t) && fits t o OperationType.none)
  unfolding make_typed
  make_typed_accepts reference t a o s = ground arith
