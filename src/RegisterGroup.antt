-- ===== src/RegisterGroup.antt =====
-- more_modbus/RegisterGroup.{h,cpp}. Mappings are shared objects: a heap holds them by number, and
-- a group keeps claims with the number of the mapping that makes each. `std::set` is a list in the
-- order of GroupUtility's comparison. The texts that the code reads numbers from are claims, which
-- the group made itself.
pub mod Claims
pub mod Layout
pub mod Count
pub mod Append
pub mod Keys
pub mod Joining
pub mod Adding
pub mod AddingBits
pub mod Copying
use more_modbus.Prelude.{
  ℕ, zero, suc, ◌-◌, ◌%◌, ◌^◌, Bool, true, false, not, ◌&&◌, ◌||◌, List, [], ◌∷◌, ◌++◌, map, Option,
  Result, ok, err, undefined, ◌>>=◌, ◌>>◌, throw_if, ltb, ◌==◌, if◌then◌else◌, length,
}
use more_modbus.Prelude.Int.{ℤ, pos, pos_part, ◌+ℤ◌, ◌-ℤ◌, ltb_ℤ, ◌==ℤ◌, minus_one, mod_ℤ}
use more_modbus.Prelude.Decimal.{to_string, read_integer}
use more_modbus.DataParsers.{uint16_to_int16, uint32_to_int32}
use more_modbus.RegisterMapping.{
  RegisterType, register_type_number, OperationType, is_operation, RegisterMapping,
  get_starting_address, get_register_count, set_slave_address,
}
use more_modbus.RegisterMapping.Parsing.{same_text}
use more_modbus.RegisterMapping.Update.{differs_bool}

-- GroupUtility::SEPARATOR
abbrev pub separator : ℕ
separator = b'.'

-- The text before the first separator, which is the whole text if there is none.
pub before_separator : List ℕ → List ℕ
before_separator [] = []
before_separator (c ∷ rest) = if c == separator then [] else c ∷ before_separator rest

-- The text behind the first separator, if there is one.
pub after_separator : List ℕ → Option (List ℕ)
after_separator [] = Option.none
after_separator (c ∷ rest) = if c == separator then Option.some rest else after_separator rest

-- GroupUtility::getAddressFromString; `stoul` gives 64 bits, of which the cast keeps 32.
unfoldable pub get_address_from_string : List ℕ → ℤ
unfolding before_separator
get_address_from_string text =
    uint32_to_int32 (mod_ℤ (read_integer (before_separator text)) (2 ^ 32))

-- GroupUtility::getBitFromString
unfoldable pub get_bit_from_string : List ℕ → ℤ
unfolding after_separator
get_bit_from_string text = elim (after_separator text) [
  | Option.none ↦ minus_one
  | Option.some bit ↦ uint16_to_int16 (mod_ℤ (read_integer bit) (2 ^ 16))
]

-- std::to_string(address), and std::to_string(address) + SEPARATOR + std::to_string(bitIndex)
unfoldable pub claim : ℤ → List ℕ
claim address = to_string address

unfoldable pub bit_claim : ℤ → ℤ → List ℕ
bit_claim address bit = to_string address ++ (separator ∷ to_string bit)

-- GroupUtility::operator()
unfoldable pub claim_less : List ℕ → List ℕ → Bool
claim_less left right =
    let diff = get_address_from_string right -ℤ get_address_from_string left in
    if not (diff ==ℤ pos 0)
    then ltb_ℤ (pos 0) diff
    else ltb_ℤ (get_bit_from_string left) (get_bit_from_string right)

-- MappingsMap: a claim and its mapping.
abbrev pub Entry : Type 0
Entry = List ℕ × ℕ

-- `std::set::emplace`, which keeps an entry that compares neither way with the new one.
unfoldable pub emplace : Entry → List Entry → List Entry
emplace e [] = e ∷ []
emplace e (d ∷ rest) =
    let more = d ∷ emplace e rest in
    if claim_less (e.0) (d.0)
    then e ∷ d ∷ rest
    else if claim_less (d.0) (e.0)
    then more
    else d ∷ rest

unfoldable pub key_exists_in_set : List ℕ → List Entry → Bool
key_exists_in_set key [] = false
key_exists_in_set key (e ∷ rest) = same_text (e.0) key || key_exists_in_set key rest

pub record RegisterGroup : Type 0 where
  pub register_type : RegisterType
  pub slave_address : ℤ
  pub read_restricted : Bool
  pub device : Option ℕ
  pub mappings : List Entry

-- The distinct addresses so far are kept as `int16_t` and compared with an `int32_t`.
unfoldable pub contains : ℤ → List ℤ → Bool
contains a [] = false
contains a (b ∷ rest) = b ==ℤ a || contains a rest

unfoldable pub distinct_addresses : List ℤ → List Entry → List ℤ
unfolding contains
distinct_addresses seen [] = seen
distinct_addresses seen (e ∷ rest) =
    let address = get_address_from_string (e.0) in
    distinct_addresses
      (if contains address seen
        then seen
        else (seen ++ (uint16_to_int16 (mod_ℤ address (2 ^ 16)) ∷ [])))
      rest

unfoldable pub first_claim : List Entry → Result ℤ
first_claim [] = err undefined
first_claim (e ∷ _) = ok (get_address_from_string (e.0))

-- getStartingAddress reads `m_mappings.begin()`, which an empty group does not have.
unfoldable pub starting_address : RegisterGroup → Result ℤ
unfolding first_claim
starting_address g = first_claim g.mappings

unfoldable pub get_address_count : RegisterGroup → ℕ
get_address_count g = length (distinct_addresses [] g.mappings) % 2 ^ 16

unfoldable pub get_mappings_claims : RegisterGroup → List (List ℕ)
get_mappings_claims g = map (λ (e : Entry). e.0) g.mappings

-- The shared mappings.
abbrev pub Heap : Type 0 → Type 0
Heap D = ℕ → RegisterMapping D

abbrev pub store : {D : Type 0} → Heap D → ℕ → RegisterMapping D → Heap D
store heap id m = λ other. if other == id then m else heap other

-- The loop of appendMapping over the registers that are left.
unfoldable pub append_claims : ℕ → ℤ → ℕ → List Entry → List Entry
append_claims zero address id entries = entries
append_claims (suc n) address id entries =
    append_claims n (address +ℤ pos 1) id (emplace (claim address, id) entries)

module _ {D : Type 0} where
  -- The starting address, which is not asked for where the loop over the registers does not run.
  append_start : RegisterMapping D → Result ℤ
  append_start m =
      if is_operation m.operation_type OperationType.take_bit
      then get_starting_address m
      else if pos_part (get_register_count m) == 0
      then ok (pos 0)
      else get_starting_address m

  -- bool RegisterGroup::appendMapping(mapping)
  unfoldable pub append_mapping :
      RegisterGroup → RegisterMapping D → ℕ → Result (RegisterGroup × Bool)
  unfolding append_start
  append_mapping g m id = do
    start ← append_start m
    ok (
        if is_operation m.operation_type OperationType.take_bit
        then (if key_exists_in_set (claim start) g.mappings then (g, false) else (
          record g { mappings = emplace (bit_claim start m.bit_index, id) g.mappings },
          true,
        ))
        else (
          record g {
            mappings = append_claims (pos_part (get_register_count m)) start id g.mappings;
          },
          true,
        ))

  -- Whether a bit mapping joins a group that is not empty: its own claim is free, and its register
  -- lies in the group or next to it.
  pub fits_bit : RegisterMapping D → List Entry → ℤ → ℤ → ℤ → Bool
  fits_bit m entries first last start =
      if key_exists_in_set (bit_claim start m.bit_index) entries
      then false
      else if ltb_ℤ start first
      then first -ℤ start ==ℤ pos 1
      else if ltb_ℤ last start
      then start -ℤ last ==ℤ pos 1
      else true

  -- Whether a mapping of whole registers joins: it ends where the group starts or starts where the
  -- group ends.
  pub fits_registers : RegisterMapping D → ℤ → ℕ → ℤ → Bool
  fits_registers m first count start =
      if ltb_ℤ start first
      then first -ℤ (start +ℤ get_register_count m) ==ℤ pos 0
      else start -ℤ (first +ℤ pos count) ==ℤ pos 0

  pub joins_claims : RegisterGroup → RegisterMapping D → Result Bool
  unfolding fits_bit fits_registers
  joins_claims g m = do
    first ← starting_address g
    start ← get_starting_address m
    let count = get_address_count g
    ok (
        if is_operation m.operation_type OperationType.take_bit
        then fits_bit m g.mappings first (first +ℤ pos count -ℤ pos 1) start
        else fits_registers m first count start)

  unfoldable pub joins : RegisterGroup → RegisterMapping D → Result Bool
  unfolding joins_claims
  joins g m = elim g.mappings [ [] ↦ ok true | _ ↦ joins_claims g m ]

  -- bool RegisterGroup::addMapping(mapping): the mapping takes the group's slave address also where
  -- it is refused.
  unfoldable pub add_mapping : Heap D → RegisterGroup → ℕ → Result (Heap D × RegisterGroup × Bool)
  unfolding joins
  add_mapping heap g id = do
    throw_if
        (not (register_type_number (heap id).register_type == register_type_number g.register_type))
    throw_if (differs_bool (heap id).read_restricted g.read_restricted)
    let m = set_slave_address (heap id) g.slave_address
    let heap' = store heap id m
    fit ← (if m.read_restricted && g.read_restricted then ok true else joins g m)
    added ← (if fit then append_mapping g m id else ok (g, false))
    ok (heap', added.0, added.1)

  -- RegisterGroup(mapping, device)
  unfoldable pub make_group : Heap D → ℕ → Option ℕ → Result (Heap D × RegisterGroup)
  unfolding add_mapping
  make_group heap id device = do
    let m = heap id
    let empty : RegisterGroup = record {
      register_type = m.register_type;
      slave_address = m.slave_address;
      read_restricted = m.read_restricted;
      device = device;
      mappings = [];
    }
    added ← add_mapping heap empty id
    ok (added.0, added.1)

  unfoldable pub set_slaves : Heap D → ℤ → List Entry → Heap D
  set_slaves heap slave [] = heap
  set_slaves heap slave (e ∷ rest) =
      set_slaves (store heap (e.1) (set_slave_address (heap (e.1)) slave)) slave rest

  -- RegisterGroup::setSlaveAddress
  unfoldable pub set_group_slave_address : Heap D → RegisterGroup → ℤ → Heap D × RegisterGroup
  unfolding set_slaves
  set_group_slave_address heap g slave =
      (set_slaves heap slave g.mappings, record g { slave_address = slave })

-- The order of `std::string`, by which getMappingsMap sorts the claims.
unfoldable pub text_less : List ℕ → List ℕ → Bool
text_less xs [] = false
text_less [] (d ∷ ds) = true
text_less (c ∷ cs) (d ∷ ds) = ltb c d || (c == d && text_less cs ds)

-- `std::map::emplace`
unfoldable pub map_emplace : Entry → List Entry → List Entry
map_emplace e [] = e ∷ []
map_emplace e (d ∷ rest) =
    let more = d ∷ map_emplace e rest in
    if text_less (e.0) (d.0) then e ∷ d ∷ rest else if text_less (d.0) (e.0) then more else d ∷ rest

unfoldable pub map_of : List Entry → List Entry → List Entry
map_of acc [] = acc
map_of acc (e ∷ rest) = map_of (map_emplace e acc) rest

-- RegisterGroup::getMappingsMap
unfoldable pub get_mappings_map : RegisterGroup → List Entry
get_mappings_map g = map_of [] g.mappings
