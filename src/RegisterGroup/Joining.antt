-- ===== src/RegisterGroup/Joining.antt =====
-- Which mappings addMapping of RegisterGroup.cpp lets join a group that is laid out as blocks, and
-- where their claims go.
use more_modbus.Prelude.{
  ℕ, zero, suc, ◌+◌, ◌-◌, ◌^◌, ◌≤◌, ◌<◌, ◌≡◌, refl, ap, ◌∙◌, Bool, true, false, List, [], ◌∷◌,
  arith, length, if◌then◌else◌, leb, ◌==◌, Result, ok, ◌>>=◌, inl, inr, Bool-cases,
}
use more_modbus.Prelude.Int.{ℤ, pos, ◌==ℤ◌, ◌+ℤ◌, ◌-ℤ◌, ltb_ℤ}
use more_modbus.RegisterMapping.{
  RegisterMapping, register_type_number, is_operation, OperationType, get_starting_address,
  get_register_count, set_slave_address,
}
use more_modbus.RegisterGroup.{
  RegisterGroup, Heap, Entry, store, claim, bit_claim, append_claims, emplace, key_exists_in_set,
  joins, joins_claims, fits_bit, fits_registers, append_mapping, add_mapping, starting_address,
  get_address_count,
}
use more_modbus.RegisterGroup.Layout.{Block, registers, bits, total_size, lay, AreBlocks}
use more_modbus.RegisterGroup.Count.{get_address_count-lay}

lay_nonempty :
    {D : Type 0} (heap : Heap D) (a : ℕ) (blocks : List Block)
    → AreBlocks heap blocks
    → 0 < length blocks
    → (e : Entry) × (rest : List Entry) × (lay a blocks ≡ e ∷ rest)
lay_nonempty heap a [] h l = absurd (omega arith)
lay_nonempty heap a (registers id zero ∷ rest) h l = absurd (omega arith)
lay_nonempty heap a (registers id (suc n) ∷ rest) h l = (_, _, refl)
lay_nonempty heap a (bits [] ∷ rest) h l = absurd (omega arith)
lay_nonempty heap a (bits ((bit, id) ∷ bs) ∷ rest) h l = (_, _, refl)

count_of_lay :
    {D : Type 0} (heap : Heap D) (g : RegisterGroup) (a : ℕ) (blocks : List Block)
    → g.mappings ≡ lay a blocks
    → AreBlocks heap blocks
    → 0 < length blocks
    → a + total_size blocks ≤ 2 ^ 15
    → (starting_address g ≡ ok (pos a)) × (get_address_count g ≡ total_size blocks)
count_of_lay heap g a [] laid h l s = absurd (omega arith)
count_of_lay heap g a (b ∷ rest) laid h l s = get_address_count-lay heap g a b rest laid h s

module _ {D : Type 0} where
  joins_nonempty :
      (g : RegisterGroup) (m : RegisterMapping D) (e : Entry) (rest : List Entry) (first start : ℤ)
      → g.mappings ≡ e ∷ rest
      → starting_address g ≡ ok first
      → get_starting_address m ≡ ok start
      → joins g m
        ≡ ok (
            if is_operation m.operation_type OperationType.take_bit
            then fits_bit m g.mappings first (first +ℤ pos (get_address_count g) -ℤ pos 1) start
            else fits_registers m first (get_address_count g) start)
  unfolding joins joins_claims
  joins_nonempty g m e rest first start some h k =
      let by : List Entry → Result Bool =
        λ entries. elim entries [ [] ↦ ok true | _ ↦ joins_claims g m ] in
      ap by some ∙ rw (h, k) refl

  -- What the guards of addMapping leave to do.
  pub add_readable :
      (heap : Heap D) (g : RegisterGroup) (id : ℕ)
      → (register_type_number (heap id).register_type == register_type_number g.register_type)
        ≡ true
      → (heap id).read_restricted ≡ false
      → g.read_restricted ≡ false
      → let m = set_slave_address (heap id) g.slave_address in
        add_mapping heap g id ≡ (
          joins g m >>= λ fit. (if fit then append_mapping g m id else ok (g, false)) >>= λ added.
          ok (store heap id m, added.0, added.1))
  unfolding add_mapping set_slave_address
  add_readable heap g id same readable open_group = rw (same, readable, open_group) refl

  pub start_of_slave :
      (m : RegisterMapping D) (slave : ℤ)
      → get_starting_address (set_slave_address m slave) ≡ get_starting_address m
  unfolding get_starting_address set_slave_address
  start_of_slave m slave = refl

  pub count_of_slave :
      (m : RegisterMapping D) (slave : ℤ)
      → get_register_count (set_slave_address m slave) ≡ get_register_count m
  unfolding get_register_count set_slave_address
  count_of_slave m slave = refl

-- A mapping that starts at the address `y` and is read, like the group that is laid out as blocks.
pub record IsNext {D : Type 0} (heap : Heap D) (g : RegisterGroup) (id a y : ℕ)
    (blocks : List Block) : Type 0 where
  pub laid : g.mappings ≡ lay a blocks
  pub sound : AreBlocks heap blocks
  pub some : 0 < length blocks
  pub small : a + total_size blocks ≤ 2 ^ 15
  pub same :
      (register_type_number (heap id).register_type == register_type_number g.register_type) ≡ true
  pub readable : (heap id).read_restricted ≡ false
  pub open_group : g.read_restricted ≡ false
  pub start : get_starting_address (heap id) ≡ ok (pos y)

last_address : (a c : ℕ) → 0 < c → pos a +ℤ pos c -ℤ pos 1 ≡ pos (a + c - 1)
unfolding ◌+ℤ◌ ◌-ℤ◌
last_address a c s = ground arith

next_to :
    (a c y : ℕ)
    → a ≤ y
    → 0 < c
    → (if ltb_ℤ (pos y) (pos a)
        then pos a -ℤ pos y ==ℤ pos 1
        else if ltb_ℤ (pos (a + c - 1)) (pos y)
        then pos y -ℤ pos (a + c - 1) ==ℤ pos 1
        else true)
      ≡ leb y (a + c)
unfolding ◌-ℤ◌
next_to a c y l s = ground arith

module _ {D : Type 0} where
  pub joins_laid :
      (heap : Heap D) (g : RegisterGroup) (id a y : ℕ) (blocks : List Block)
      → IsNext heap g id a y blocks
      → let m = set_slave_address (heap id) g.slave_address in
        joins g m
        ≡ ok (
            if is_operation (heap id).operation_type OperationType.take_bit
            then fits_bit m g.mappings (pos a) (pos a +ℤ pos (total_size blocks) -ℤ pos 1) (pos y)
            else fits_registers m (pos a) (total_size blocks) (pos y))
  unfolding set_slave_address
  joins_laid heap g id a y blocks next =
      let m = set_slave_address (heap id) g.slave_address in
      let (e, rest, full) = lay_nonempty heap a blocks next.sound next.some in
      let (first, count) = count_of_lay heap g a blocks next.laid next.sound next.some next.small in
      joins_nonempty g m e rest (pos a) (pos y) (next.laid ∙ full) first
        (start_of_slave (heap id) g.slave_address ∙ next.start)
      ∙ ap
          (λ (c : ℕ). ok (
            if is_operation (heap id).operation_type OperationType.take_bit
            then fits_bit m g.mappings (pos a) (pos a +ℤ pos c -ℤ pos 1) (pos y)
            else fits_registers m (pos a) c (pos y)))
          count

  -- What addMapping does, once it is known whether the mapping fits and what appendMapping does.
  pub add_by :
      (heap : Heap D) (g g' : RegisterGroup) (id a y : ℕ) (blocks : List Block) (fit added : Bool)
      → IsNext heap g id a y blocks
      → let m = set_slave_address (heap id) g.slave_address in
        joins g m ≡ ok fit
        → (if fit then append_mapping g m id else ok (g, false)) ≡ ok (g', added)
        → add_mapping heap g id ≡ ok (store heap id m, g', added)
  add_by heap g g' id a y blocks fit added next fits appended =
      add_readable heap g id next.same next.readable next.open_group ∙ rw (fits, appended) refl

  pub fits_at_end :
      (m : RegisterMapping D) (a c y : ℕ)
      → a ≤ y
      → fits_registers m (pos a) c (pos y) ≡ (y == a + c)
  unfolding fits_registers ◌+ℤ◌ ◌-ℤ◌
  fits_at_end m a c y l = ground arith

  pub fits_bit_until_end :
      (m : RegisterMapping D) (entries : List Entry) (a c y : ℕ)
      → key_exists_in_set (bit_claim (pos y) m.bit_index) entries ≡ false
      → a ≤ y
      → 0 < c
      → fits_bit m entries (pos a) (pos a +ℤ pos c -ℤ pos 1) (pos y) ≡ leb y (a + c)
  unfolding fits_bit
  fits_bit_until_end m entries a c y free l s =
      let last : pos a +ℤ pos c -ℤ pos 1 ≡ pos (a + c - 1) = last_address a c s in
      rw (free, last) (next_to a c y l s)

  pub append_whole :
      (g : RegisterGroup) (m : RegisterMapping D) (id y n : ℕ)
      → is_operation m.operation_type OperationType.take_bit ≡ false
      → get_starting_address m ≡ ok (pos y)
      → get_register_count m ≡ pos n
      → append_mapping g m id
        ≡ ok (record g { mappings = append_claims n (pos y) id g.mappings }, true)
  unfolding append_mapping append_claims
  append_whole g m id y zero whole start count = rw (whole, start, count) refl
  append_whole g m id y (suc n) whole start count =
      let some : (suc n == 0) ≡ false = ground arith in rw (whole, start, count, some) refl

  pub append_bit :
      (g : RegisterGroup) (m : RegisterMapping D) (id y : ℕ) (taken : Bool)
      → is_operation m.operation_type OperationType.take_bit ≡ true
      → get_starting_address m ≡ ok (pos y)
      → key_exists_in_set (claim (pos y)) g.mappings ≡ taken
      → append_mapping g m id
        ≡ ok (
            if taken then (g, false) else (
              record g { mappings = emplace (bit_claim (pos y) m.bit_index, id) g.mappings },
              true,
            ))
  unfolding append_mapping
  append_bit g m id y taken bit start key = rw (bit, start, key) refl

  pub fits_bit_beyond :
      (m : RegisterMapping D) (entries : List Entry) (a c y : ℕ)
      → a + c < y
      → 0 < c
      → fits_bit m entries (pos a) (pos a +ℤ pos c -ℤ pos 1) (pos y) ≡ false
  unfolding fits_bit
  fits_bit_beyond m entries a c y l s =
      elim (Bool-cases (key_exists_in_set (bit_claim (pos y) m.bit_index) entries)) [
        | inl taken ↦ rw taken refl
        | inr free ↦ fits_bit_until_end m entries a c y free (omega arith) s ∙ ground arith
      ]
