-- ===== src/ModbusDevice/Opening.antt =====
-- A group that createGroups of ModbusDevice.cpp opens is one block.
use more_modbus.Prelude.{
  zero, suc, ◌<◌, ℕ, ◌≡◌, refl, sym, ap, ◌∙◌, subst, true, false, [], ◌∷◌, ◌++◌, Option, ok, ◌>>=◌,
  arith, length, ==-refl,
}
use mathlib.Core.List.{append-nil}
use more_modbus.Prelude.Int.{pos}
use more_modbus.RegisterMapping.{register_type_number, RegisterMapping, set_slave_address}
use more_modbus.RegisterGroup.{
  RegisterGroup, Heap, store, claim, bit_claim, emplace, key_exists_in_set, append_claims,
  append_mapping, joins, make_group, set_group_slave_address, set_slaves,
}
use more_modbus.RegisterGroup.Layout.{block_claims, Block, registers, bits, run_claims, lay}
use more_modbus.RegisterGroup.Append.{append_claims-run}
use more_modbus.RegisterGroup.Joining.{add_readable, append_whole, append_bit}
use more_modbus.ModbusDevice.{Grouping, add_group, opened, open_group}
use more_modbus.ModbusDevice.Shape.{
  extent_size, is_member, is_member-append, IsPut, store_group-IsPut, set_slaves-SameGroups,
  store_slave-SameGroups, shape, SameShapes, shape-set_slave_address, SameShapes-trans,
  store_slave-SameShapes, store_group-SameShapes, set_slaves-SameShapes, Extent, whole, single,
  IsAt,
}

abbrev pub block_of : ℕ → Extent → Block
block_of id (whole n) = registers id n
block_of id (single bit) = bits ((bit, id) ∷ [])

pub is_member-block_claims :
    (id y : ℕ) (e : Extent)
    → 0 < extent_size e
    → is_member id (block_claims y (block_of id e)) ≡ true
is_member-block_claims id y (whole zero) h = absurd (omega arith)
is_member-block_claims id y (whole (suc n)) h = ground arith
is_member-block_claims id y (single bit) h = ground arith

-- A group of which no mapping is in yet.
abbrev pub empty_group : {D : Type 0} → RegisterMapping D → Option ℕ → RegisterGroup
empty_group m owner = record {
  register_type = m.register_type;
  slave_address = m.slave_address;
  read_restricted = m.read_restricted;
  device = owner;
  mappings = [];
}

module _ {D : Type 0} where
  append_first :
      (g : RegisterGroup) (m : RegisterMapping D) (id y : ℕ) (e : Extent)
      → g.mappings ≡ []
      → IsAt (shape m) y e
      → append_mapping g m id ≡ ok (record g { mappings = lay y (block_of id e ∷ []) }, true)
  unfolding key_exists_in_set emplace
  append_first g m id y (whole n) none at_y =
      append_whole g m id y n at_y.kind at_y.starts at_y.counts
      ∙ ap (λ t. ok (record g { mappings = t }, true))
          (ap (λ t. append_claims n (pos y) id t) none
            ∙ append_claims-run n y id [] tt (omega (arith, at_y.small))
            ∙ sym (append-nil (run_claims n y id)))
  append_first g m id y (single bit) none at_y =
      append_bit g m id y false at_y.kind.0 at_y.starts
        (ap (key_exists_in_set (claim (pos y))) none)
      ∙ ap (λ t. ok (record g { mappings = t }, true))
          (ap (λ t. emplace (bit_claim (pos y) t, id) g.mappings) at_y.kind.1
            ∙ ap (emplace (bit_claim (pos y) (pos bit), id)) none)

  pub make_group_readable :
      (heap : Heap D) (id y : ℕ) (e : Extent) (owner : Option ℕ)
      → IsAt (shape (heap id)) y e
      → let m = set_slave_address (heap id) (heap id).slave_address in
        make_group heap id owner
        ≡ ok (
          store heap id m,
          record (empty_group (heap id) owner) { mappings = lay y (block_of id e ∷ []) },
        )
  unfolding make_group joins
  make_group_readable heap id y e owner at_y =
      let g = empty_group (heap id) owner in
      let m = set_slave_address (heap id) (heap id).slave_address in
      let at_m =
        subst (λ t. IsAt t y e) (sym (shape-set_slave_address (heap id) (heap id).slave_address))
          at_y in
      ap (λ r. r >>= λ added. ok (added.0, added.1))
        (add_readable heap g id (==-refl (register_type_number (heap id).register_type))
            at_y.readable at_y.readable
          ∙ ap (λ r. r >>= λ added. ok (store heap id m, added.0, added.1))
              (append_first g m id y e refl at_m))

  -- What is true of a group and the heap once it was opened for a mapping.
  pub record IsOpened (owner : ℕ) (s s' : Grouping D) (heap : Heap D) (id y : ℕ) (e : Extent)
      : Type 0 where
    pub groups :
        s'.all_groups
        ≡ s.all_groups
          ++ (record (empty_group (heap id) (Option.some owner)) {
            slave_address = s.device.slave_address;
            mappings = lay y (block_of id e ∷ []);
          }
              ∷ [])
    pub shapes : SameShapes heap s'.heap
    pub previous : s'.previous ≡ Option.some (length s.all_groups)
    pub restricted : s'.restricted ≡ s.restricted
    pub put : IsPut heap s'.heap id (length s.all_groups)
    pub member : is_member id (lay y (block_of id e ∷ [])) ≡ true

  pub open_group-IsOpened :
      (owner : ℕ) (s : Grouping D) (heap : Heap D) (id y : ℕ) (e : Extent)
      → IsAt (shape (heap id)) y e
      → (s' : Grouping D) × (open_group owner s heap id ≡ ok s') × IsOpened owner s s' heap id y e
  unfolding open_group opened add_group set_group_slave_address
  open_group-IsOpened owner s heap id y e at_y =
      let m = set_slave_address (heap id) (heap id).slave_address in
      let heap' = store heap id m in
      let made : Heap D × RegisterGroup = (
        heap',
        record (empty_group (heap id) (Option.some owner)) {
          mappings = lay y (block_of id e ∷ []);
        },
      ) in
      let slaved = set_slaves heap' s.device.slave_address (lay y (block_of id e ∷ [])) in
      (
        opened s made id,
        ap (λ r. r >>= λ made. ok (opened s made id))
            (make_group_readable heap id y e (Option.some owner) at_y),
        record {
          groups = refl;
          shapes =
              SameShapes-trans heap slaved _
                (SameShapes-trans heap heap' slaved
                  (store_slave-SameShapes heap id (heap id).slave_address)
                  (set_slaves-SameShapes heap' s.device.slave_address (lay y (block_of id e ∷ []))))
                (store_group-SameShapes slaved id (Option.some (length s.all_groups)));
          previous = refl;
          restricted = refl;
          put = store_group-IsPut heap slaved id (length s.all_groups) (λ x.
              set_slaves-SameGroups heap' s.device.slave_address (lay y (block_of id e ∷ [])) x
              ∙ store_slave-SameGroups heap id (heap id).slave_address x);
          member =
              is_member-append id (block_claims y (block_of id e)) []
              ∙ ground (arith, is_member-block_claims id y e at_y.some);
        },
      )
