-- ===== src/ModbusDevice.antt =====
-- more_modbus/ModbusDevice.{h,cpp}: how the mappings of a device are put into groups, and the list
-- of those that are written again and again. Groups are shared objects too: `groups` holds all of
-- them, by their index. Differences of addresses are exact here; in the code, those of 2^31 or more
-- overflow an `int`.
pub mod Shape
pub mod Opening
pub mod Growing
pub mod Taking
pub mod Restricting
pub mod Membership
pub mod Invariant
pub mod Readable
pub mod Restricted
pub mod Placing
pub mod Order
pub mod Sorting
pub mod Creating
pub mod Copying
pub mod Callbacks
pub mod Rewritable
use more_modbus.Prelude.{
  ℕ, ◌+◌, Bool, true, false, not, List, [], ◌∷◌, ◌++◌, Option, Result, ok, ◌>>=◌, ltb, ◌==◌, set,
  if◌then◌else◌, length,
}
use more_modbus.Prelude.Int.{ℤ, pos, ltb_ℤ, ◌==ℤ◌}
use more_modbus.RegisterMapping.{
  RegisterType, is_register, register_type_number, output_type_number, RegisterMapping,
  get_starting_address, get_register_count, set_group,
}
use more_modbus.RegisterGroup.{
  RegisterGroup, Heap, store, add_mapping, make_group, set_group_slave_address,
}
use more_modbus.ModbusGroupReader.{at}

-- CompareFunction
module _ {D : Type 0} where
  pub same_type_less : RegisterMapping D → RegisterMapping D → ℤ → ℤ → Bool
  same_type_less left right left_start right_start =
      if not (left_start ==ℤ right_start)
      then ltb_ℤ left_start right_start
      else if not (get_register_count left ==ℤ get_register_count right)
      then ltb_ℤ (get_register_count left) (get_register_count right)
      else if not (output_type_number left.output_type == output_type_number right.output_type)
      then ltb (output_type_number left.output_type) (output_type_number right.output_type)
      else ltb_ℤ left.bit_index right.bit_index

  unfoldable pub mapping_less : RegisterMapping D → RegisterMapping D → Result Bool
  unfolding same_type_less
  mapping_less left right =
      let same = (do
        left_start ← get_starting_address left
        right_start ← get_starting_address right
        ok (same_type_less left right left_start right_start)) in
      if is_register left.register_type right.register_type
      then same
      else ok
          (ltb (register_type_number left.register_type) (register_type_number right.register_type))

  -- `std::set<std::shared_ptr<RegisterMapping>, CompareFunction>` of the mappings: one that
  -- compares neither way with an earlier one is left out.
  unfoldable pub insert_mapping : Heap D → ℕ → List ℕ → Result (List ℕ)
  insert_mapping heap id [] = ok (id ∷ [])
  insert_mapping heap id (other ∷ rest) = do
    before ← mapping_less (heap id) (heap other)
    after ← mapping_less (heap other) (heap id)
    more ← insert_mapping heap id rest
    ok (if before then id ∷ other ∷ rest else if after then other ∷ more else other ∷ rest)

  unfoldable pub mapping_set : Heap D → List ℕ → List ℕ → Result (List ℕ)
  mapping_set heap sorted [] = ok sorted
  mapping_set heap sorted (id ∷ rest) = do
    sorted' ← insert_mapping heap id sorted
    mapping_set heap sorted' rest

-- A device: the groups by their index, the mappings to be rewritten, and the reader that it was
-- added to. `status` and the callbacks belong to the notices.
pub record ModbusDevice : Type 0 where
  pub slave_address : ℤ
  pub groups : List ℕ
  pub rewrite : List ℕ
  pub reader : Option ℕ

-- The loop of createGroups: `restricted` are the groups of mappings that are not read, by register
-- type, and `previous` is the group that the last mapping went to.
pub record Grouping (D : Type 0) : Type 0 where
  pub heap : Heap D
  pub all_groups : List RegisterGroup
  pub device : ModbusDevice
  pub restricted : RegisterType → Option ℕ
  pub previous : Option ℕ

module _ {D : Type 0} where
  -- `mapping->setGroup(group)`
  abbrev pub with_group : Heap D → ℕ → ℕ → Heap D
  with_group heap id group = store heap id (set_group (heap id) (Option.some group))

  -- A group that was made for the mapping `id` joins the device.
  pub add_group : Grouping D → Heap D → RegisterGroup → ℕ → Grouping D
  add_group s heap g id = record s {
    heap = with_group heap id (length s.all_groups);
    all_groups = s.all_groups ++ (g ∷ []);
    device = record (s.device) { groups = s.device.groups ++ (length s.all_groups ∷ []) };
  }

  -- A mapping that is not read goes to the group of its register type, if there is one.
  pub place_restricted : ℕ → Grouping D → ℕ → Option ℕ → Result (Grouping D)
  unfolding add_group
  place_restricted owner s id Option.none = do
    made ← make_group s.heap id (Option.some owner)
    ok (record (add_group s (made.0) (made.1) id) {
      restricted = λ t.
          if is_register t (s.heap id).register_type
          then Option.some (length s.all_groups)
          else s.restricted t;
    })
  place_restricted owner s id (Option.some group) = do
    g ← at s.all_groups group
    added ← add_mapping s.heap g id
    ok (record s {
      heap = with_group (added.0) id group;
      all_groups = set s.all_groups group (added.1);
    })

  -- A new group, with the device's slave address, which the following mappings may join.
  pub opened : Grouping D → Heap D × RegisterGroup → ℕ → Grouping D
  unfolding add_group
  opened s made id =
      let slaved = set_group_slave_address (made.0) (made.1) s.device.slave_address in
      record (add_group s (slaved.0) (slaved.1) id) { previous = Option.some (length s.all_groups) }

  pub open_group : ℕ → Grouping D → Heap D → ℕ → Result (Grouping D)
  open_group owner s heap id = do
    made ← make_group heap id (Option.some owner)
    ok (opened s made id)

  -- A mapping joins the previous group, if that is of its register type and takes it.
  pub join_group : ℕ → Grouping D → ℕ → ℕ → Result (Grouping D)
  unfolding open_group
  join_group owner s group id = do
    g ← at s.all_groups group
    (let joined = (do
      added ← add_mapping s.heap g id
      (let kept = record s {
        heap = with_group (added.0) id group;
        all_groups = set s.all_groups group (added.1);
      } in
          let fresh = open_group owner s (added.0) id in if added.2 then ok kept else fresh)) in
        let fresh = open_group owner s s.heap id in
        if is_register g.register_type (s.heap id).register_type then joined else fresh)

  pub place_readable : ℕ → Grouping D → ℕ → Option ℕ → Result (Grouping D)
  place_readable owner s id Option.none = open_group owner s s.heap id
  place_readable owner s id (Option.some group) = join_group owner s group id

  -- A mapping with an interval is to be rewritten.
  abbrev pub rewritten : Grouping D → ℕ → Grouping D
  rewritten s id = record s {
    device =
        if ltb_ℤ (pos 0) (s.heap id).repeated_write
        then record (s.device) { rewrite = s.device.rewrite ++ (id ∷ []) }
        else s.device;
  }

  -- The body of the loop.
  unfoldable pub place : ℕ → Grouping D → ℕ → Result (Grouping D)
  unfolding place_restricted place_readable
  place owner s id =
      if (s.heap id).read_restricted
      then place_restricted owner (rewritten s id) id (s.restricted (s.heap id).register_type)
      else place_readable owner (rewritten s id) id s.previous

  unfoldable pub place_all : ℕ → Grouping D → List ℕ → Result (Grouping D)
  place_all owner s [] = ok s
  place_all owner s (id ∷ rest) = do s' ← place owner s id; place_all owner s' rest

  -- Where the loop starts.
  abbrev pub grouping : Heap D → List RegisterGroup → ModbusDevice → Grouping D
  grouping heap groups device = record {
    heap = heap;
    all_groups = groups;
    device = device;
    restricted = λ t. Option.none;
    previous = Option.none;
  }

  -- void ModbusDevice::createGroups(mappings) on the device `owner`
  unfoldable pub create_groups :
      ℕ
      → Heap D
      → List RegisterGroup
      → ModbusDevice
      → List ℕ
      → Result (Heap D × List RegisterGroup × ModbusDevice)
  create_groups owner heap groups device mappings = do
    sorted ← mapping_set heap [] mappings
    s ← place_all owner (grouping heap groups device) sorted
    ok (s.heap, s.all_groups, s.device)
