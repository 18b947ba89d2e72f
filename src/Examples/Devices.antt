-- ===== src/Examples/Devices.antt =====
-- Groups that are laid out as blocks, and a device's groups, at concrete mappings.
use more_modbus.Prelude.{
  ℕ, zero, suc, ◌≡◌, refl, true, false, List, [], ◌∷◌, Option, ok, arith, All, inr,
}
use more_modbus.Prelude.Int.{ℤ, pos, minus_one}
use more_modbus.RegisterMapping.{
  OutputType, OperationType, Typed, holding_register, get_register_count, get_starting_address,
  set_slave_address, is_register,
}
use more_modbus.RegisterGroup.{
  RegisterGroup, Heap, store, starting_address, get_address_count, add_mapping,
}
use more_modbus.RegisterGroup.Layout.{Block, registers, bits, lay, AreBlocks}
use more_modbus.RegisterGroup.Count.{get_address_count-lay}
use more_modbus.RegisterGroup.Joining.{IsNext}
use more_modbus.RegisterGroup.Adding.{relaid, whole_blocks, add_mapping-whole}
use more_modbus.RegisterGroup.AddingBits.{bit_blocks, add_mapping-bit}
use more_modbus.ModbusDevice.{ModbusDevice, create_groups}
use more_modbus.ModbusDevice.Shape.{SameShapes, Extent, whole, single}
use more_modbus.ModbusDevice.Invariant.{IsSound}
use more_modbus.ModbusDevice.Membership.{IsHome}
use more_modbus.ModbusDevice.Sorting.{IsHeld}
use more_modbus.ModbusDevice.Creating.{IsStarting, create_groups_total}
use more_modbus.Examples.{mapping}

-- Mapping 0 is of the registers 100 and 101, mapping 1 of bit 2 of register 102, mapping 2 of bit 5
-- of it, and each other one of register 103.
abbrev mappings : Heap ℤ
mappings zero =
    mapping OutputType.int32 OperationType.merge_big_endian (minus_one) (pos 100 ∷ pos 101 ∷ [])
      (0 ∷ 0 ∷ []) (Typed.int32_mapping (pos 0))
mappings (suc zero) =
    mapping OutputType.bool OperationType.take_bit (pos 102) [] [] Typed.bool_mapping
mappings (suc (suc zero)) =
    record (mapping OutputType.bool OperationType.take_bit (pos 102) [] [] Typed.bool_mapping) {
      bit_index = pos 5;
    }
mappings _ =
    mapping OutputType.uint16 OperationType.none (pos 103) [] (0 ∷ []) (Typed.uint16_mapping 0)

abbrev blocks : List Block
blocks = registers 0 2 ∷ bits ((2, 1) ∷ []) ∷ []

abbrev group : RegisterGroup
group = record {
  register_type = holding_register;
  slave_address = pos 7;
  read_restricted = false;
  device = Option.none;
  mappings = lay 100 blocks;
}

are_blocks : AreBlocks mappings blocks
unfolding get_register_count
are_blocks = ((omega arith, refl), ((omega arith, (omega arith, tt)), tt))

get_address_count-lay_example :
    (starting_address group ≡ ok (pos 100)) × (get_address_count group ≡ 3)
get_address_count-lay_example =
    get_address_count-lay mappings group 100 (registers 0 2) (bits ((2, 1) ∷ []) ∷ []) refl
      are_blocks (omega arith)

next :
    (id y : ℕ)
    → is_register (mappings id).register_type holding_register ≡ true
    → (mappings id).read_restricted ≡ false
    → get_starting_address (mappings id) ≡ ok (pos y)
    → IsNext mappings group id 100 y blocks
next id y same readable start = record {
  laid = refl;
  sound = are_blocks;
  some = omega arith;
  small = omega arith;
  same = same;
  readable = readable;
  open_group = refl;
  start = start;
}

add_mapping-whole_example :
    add_mapping mappings group 3
    ≡ ok (
        let after = relaid group 100 (whole_blocks 100 blocks 103 3 1) in
        (store mappings 3 (set_slave_address (mappings 3) (pos 7)), after.0, after.1))
unfolding get_register_count get_starting_address
add_mapping-whole_example =
    add_mapping-whole mappings group 3 100 103 1 blocks (next 3 103 refl refl refl) refl refl
      (omega arith) (omega arith)

add_mapping-bit_example :
    add_mapping mappings group 2
    ≡ ok (
        let after =
          relaid group 100 (bit_blocks 100 (registers 0 2 ∷ []) (bits ((2, 1) ∷ [])) 102 2 5) in
        (store mappings 2 (set_slave_address (mappings 2) (pos 7)), after.0, after.1))
unfolding get_starting_address
add_mapping-bit_example =
    add_mapping-bit mappings group 2 100 102 5 (registers 0 2 ∷ []) (bits ((2, 1) ∷ []))
      (next 2 102 refl refl refl) refl refl (omega arith) (omega arith) (λ eq. (omega arith, tt))

abbrev device : ModbusDevice
device = record { slave_address = pos 7; groups = []; rewrite = []; reader = Option.none }

abbrev starts : ℕ → ℕ
starts zero = 100
starts (suc zero) = 102
starts (suc (suc zero)) = 102
starts _ = 103

abbrev extents : ℕ → Extent
extents zero = whole 2
extents (suc zero) = single 2
extents (suc (suc zero)) = single 5
extents _ = whole 1

ready : All (IsStarting mappings starts extents (λ id. pos (starts id))) (3 ∷ 2 ∷ 0 ∷ 1 ∷ [])
unfolding get_starting_address get_register_count
ready = (
  (
    inr (record {
      readable = refl;
      starts = refl;
      counts = refl;
      some = omega arith;
      small = omega arith;
      kind = refl;
    }),
    refl,
  ),
  (
    (
      inr (record {
        readable = refl;
        starts = refl;
        counts = refl;
        some = omega arith;
        small = omega arith;
        kind = (refl, refl, omega arith, refl);
      }),
      refl,
    ),
    (
      (
        inr (record {
          readable = refl;
          starts = refl;
          counts = refl;
          some = omega arith;
          small = omega arith;
          kind = refl;
        }),
        refl,
      ),
      (
        (
          inr (record {
            readable = refl;
            starts = refl;
            counts = refl;
            some = omega arith;
            small = omega arith;
            kind = (refl, refl, omega arith, refl);
          }),
          refl,
        ),
        tt,
      ),
    ),
  ),
)

create_groups_total_example :
    (heap' : Heap ℤ) × (groups' : List RegisterGroup) × (device' : ModbusDevice) × (sorted : List ℕ)
    × (create_groups 0 mappings [] device (3 ∷ 2 ∷ 0 ∷ 1 ∷ []) ≡ ok (heap', groups', device'))
    × SameShapes mappings heap'
    × All (IsSound heap') groups'
    × All (IsHome mappings heap' groups') sorted
    × All (IsHeld mappings (λ id. pos (starts id)) sorted) (3 ∷ 2 ∷ 0 ∷ 1 ∷ [])
create_groups_total_example =
    create_groups_total mappings starts extents (λ id. pos (starts id)) 0 [] device
      (3 ∷ 2 ∷ 0 ∷ 1 ∷ []) tt ready
