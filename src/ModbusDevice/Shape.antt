-- ===== src/ModbusDevice/Shape.antt =====
-- What createGroups of ModbusDevice.cpp goes by: the members of a mapping that it does not change.
use more_modbus.Prelude.{
  arith, ◌++◌, ◌||◌, ◌≢◌, ℕ, ◌+◌, ◌^◌, ◌≤◌, ◌<◌, ◌≡◌, refl, ◌∙◌, Bool, true, false, List, [], ◌∷◌,
  Option, Result, ok, Bool-cases, inl, inr, ==_iff, ◌==◌, ==-refl, ◌⊎◌,
}
use more_modbus.Prelude.Int.{ℤ, pos}
use more_modbus.RegisterMapping.{
  RegisterType, OutputType, is_output, OperationType, is_operation, RegisterMapping,
  get_starting_address, get_register_count, set_slave_address, set_group,
}
use more_modbus.RegisterGroup.{Heap, Entry, store, set_slaves}

pub record Shape : Type 0 where
  pub register_type : RegisterType
  pub read_restricted : Bool
  pub output_type : OutputType
  pub operation_type : OperationType
  pub bit_index : ℤ
  pub start : Result ℤ
  pub count : ℤ

module _ {D : Type 0} where
  abbrev pub shape : RegisterMapping D → Shape
  shape m = record {
    register_type = m.register_type;
    read_restricted = m.read_restricted;
    output_type = m.output_type;
    operation_type = m.operation_type;
    bit_index = m.bit_index;
    start = get_starting_address m;
    count = get_register_count m;
  }

  abbrev pub SameShapes : Heap D → Heap D → Type 0
  SameShapes heap heap' = (id : ℕ) → shape (heap' id) ≡ shape (heap id)

  pub shape-set_slave_address :
      (m : RegisterMapping D) (slave : ℤ) → shape (set_slave_address m slave) ≡ shape m
  unfolding set_slave_address get_starting_address get_register_count
  shape-set_slave_address m slave = refl

  pub shape-set_group :
      (m : RegisterMapping D) (group : Option ℕ) → shape (set_group m group) ≡ shape m
  unfolding set_group get_starting_address get_register_count
  shape-set_group m group = refl

  pub store-SameShapes :
      (heap : Heap D) (id : ℕ) (m : RegisterMapping D)
      → shape m ≡ shape (heap id)
      → SameShapes heap (store heap id m)
  store-SameShapes heap id m h other = elim (Bool-cases (other == id)) [
    | inl same ↦ rw (same, (==_iff other id).0 same) h
    | inr apart ↦ rw apart refl
  ]

  pub set_slaves-SameShapes :
      (heap : Heap D) (slave : ℤ) (entries : List Entry)
      → SameShapes heap (set_slaves heap slave entries)
  unfolding set_slaves
  set_slaves-SameShapes heap slave [] id = refl
  set_slaves-SameShapes heap slave (e ∷ rest) id =
      let heap' = store heap (e.1) (set_slave_address (heap (e.1)) slave) in
      set_slaves-SameShapes heap' slave rest id
      ∙ store-SameShapes heap (e.1) (set_slave_address (heap (e.1)) slave)
          (shape-set_slave_address (heap (e.1)) slave) id

  pub SameShapes-trans :
      (heap heap' heap'' : Heap D)
      → SameShapes heap heap'
      → SameShapes heap' heap''
      → SameShapes heap heap''
  SameShapes-trans heap heap' heap'' h k id = k id ∙ h id

  -- A mapping that is moved between devices and groups keeps its shape.
  pub store_slave-SameShapes :
      (heap : Heap D) (id : ℕ) (slave : ℤ)
      → SameShapes heap (store heap id (set_slave_address (heap id) slave))
  store_slave-SameShapes heap id slave =
      store-SameShapes heap id (set_slave_address (heap id) slave)
        (shape-set_slave_address (heap id) slave)

  pub store_group-SameShapes :
      (heap : Heap D) (id : ℕ) (group : Option ℕ)
      → SameShapes heap (store heap id (set_group (heap id) group))
  store_group-SameShapes heap id group =
      store-SameShapes heap id (set_group (heap id) group) (shape-set_group (heap id) group)

-- The registers that a mapping takes.
pub data Extent : Type 0 where
  whole : ℕ → Extent
  single : ℕ → Extent

abbrev pub extent_size : Extent → ℕ
extent_size (whole n) = n
extent_size (single bit) = 1

abbrev pub IsKind : Shape → Extent → Type 0
IsKind s (whole n) = is_operation s.operation_type OperationType.take_bit ≡ false
IsKind s (single bit) =
    (is_operation s.operation_type OperationType.take_bit ≡ true)
    × (s.bit_index ≡ pos bit)
    × (bit < 16)
    × (is_output s.output_type OutputType.bool ≡ true)

-- A mapping that is read starts at the address `y`, and takes n registers or a bit of one. All lie
-- below 2^15.
pub record IsAt (s : Shape) (y : ℕ) (e : Extent) : Type 0 where
  pub readable : s.read_restricted ≡ false
  pub starts : s.start ≡ ok (pos y)
  pub counts : s.count ≡ pos (extent_size e)
  pub some : 0 < extent_size e
  pub small : y + extent_size e ≤ 2 ^ 15
  pub kind : IsKind s e

-- The order of the set, among mappings of one register type.
abbrev pub Precedes : ℕ → Extent → ℕ → Extent → Type 0
Precedes y (single b) y' (single b') = (y < y') ⊎ ((y ≡ y') × (b < b'))
Precedes y e y' e' = y ≤ y'

-- Whether a group has a claim of a mapping.
abbrev pub is_member : ℕ → List Entry → Bool
is_member id [] = false
is_member id (e ∷ rest) = e.1 == id || is_member id rest

pub is_member-append :
    (id : ℕ) (xs ys : List Entry) → is_member id (xs ++ ys) ≡ (is_member id xs || is_member id ys)
is_member-append id [] ys = refl
is_member-append id (e ∷ rest) ys = ground (arith, is_member-append id rest ys)

module _ {D : Type 0} where
  -- Each mapping is in the group that it was in.
  abbrev pub SameGroups : Heap D → Heap D → Type 0
  SameGroups heap heap' = (id : ℕ) → (heap' id).group ≡ (heap id).group

  pub store_slave-SameGroups :
      (heap : Heap D) (id : ℕ) (slave : ℤ)
      → SameGroups heap (store heap id (set_slave_address (heap id) slave))
  unfolding set_slave_address
  store_slave-SameGroups heap id slave other = elim (Bool-cases (other == id)) [
    | inl same ↦ rw (same, (==_iff other id).0 same) refl
    | inr apart ↦ rw apart refl
  ]

  pub set_slaves-SameGroups :
      (heap : Heap D) (slave : ℤ) (entries : List Entry)
      → SameGroups heap (set_slaves heap slave entries)
  unfolding set_slaves
  set_slaves-SameGroups heap slave [] id = refl
  set_slaves-SameGroups heap slave (e ∷ rest) id =
      set_slaves-SameGroups (store heap (e.1) (set_slave_address (heap (e.1)) slave)) slave rest id
      ∙ store_slave-SameGroups heap (e.1) slave id

  -- What putting the mapping `id` into the group `i` leaves.
  abbrev pub IsPut : Heap D → Heap D → ℕ → ℕ → Type 0
  IsPut heap heap' id i =
      ((heap' id).group ≡ Option.some i)
      × ((other : ℕ) → other ≢ id → (heap' other).group ≡ (heap other).group)

  pub store_group-IsPut :
      (heap heap' : Heap D) (id i : ℕ)
      → SameGroups heap heap'
      → IsPut heap (store heap' id (set_group (heap' id) (Option.some i))) id i
  unfolding set_group
  store_group-IsPut heap heap' id i same =
      let here : (id == id) ≡ true = ==-refl id in
      (
        rw here refl,
        λ other apart. (let there : (other == id) ≡ false = ground arith in rw there (same other)),
      )
