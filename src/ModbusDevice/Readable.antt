-- ===== src/ModbusDevice/Readable.antt =====
-- A mapping that is read, in the loop of createGroups of ModbusDevice.cpp.
use more_modbus.Prelude.{
  ℕ, ◌≡◌, refl, sym, ap, ◌∙◌, subst, Bool, true, false, List, [], ◌∷◌, ◌++◌, Option, ok, arith,
  length, set, if◌then◌else◌, inl, inr, Bool-cases, All, All-append, All-set, get_elem?-append,
  get_elem?_last, get_elem?-set_self, get_elem?_bound,
}
use more_modbus.RegisterMapping.{register_type_number, set_slave_address, is_register}
use more_modbus.RegisterGroup.{RegisterGroup, Heap, store}
use more_modbus.RegisterGroup.Layout.{lay}
use more_modbus.ModbusGroupReader.{at-some}
use more_modbus.ModbusDevice.{Grouping, with_group, open_group, join_group, place_readable}
use more_modbus.ModbusDevice.Shape.{
  SameGroups, store_slave-SameGroups, store_group-IsPut, Shape, shape, SameShapes, SameShapes-trans,
  store_slave-SameShapes, store_group-SameShapes, Extent, IsAt,
}
use more_modbus.ModbusDevice.Opening.{block_of, empty_group, IsOpened, open_group-IsOpened}
use more_modbus.ModbusDevice.Growing.{IsFilled, IsTaken, IsFilled-block_of}
use more_modbus.ModbusDevice.Taking.{add_mapping-IsTaken}
use more_modbus.ModbusDevice.Membership.{append-Evolves, set-Evolves, IsMoved}
use more_modbus.ModbusDevice.Invariant.{
  IsSound, set-IsRestrictedAt, IsFilled-SameShapes, IsTaken-SameShapes, Follows, IsLast, IsPrevious,
  IsPlaced, filled_IsSound,
}

module _ {D : Type 0} (heap : Heap D) (ys : ℕ → ℕ) (es : ℕ → Extent) where
  IsOpened-IsPlaced :
      (owner : ℕ) (s s' : Grouping D) (rest : List ℕ) (heap' : Heap D) (id : ℕ)
      → IsPlaced heap ys es s (id ∷ rest)
      → SameShapes heap heap'
      → IsAt (shape (heap id)) (ys id) (es id)
      → All (Follows heap ys es id) rest
      → IsOpened owner s s' heap' id (ys id) (es id)
      → IsPlaced heap ys es s' rest
  IsOpened-IsPlaced owner s s' rest heap' id h same at_y order o =
      let g : RegisterGroup = record (empty_group (heap' id) (Option.some owner)) {
        slave_address = s.device.slave_address;
        mappings = lay (ys id) (block_of id (es id) ∷ []);
      } in
      let filled : IsFilled heap g (ys id) (es id) =
        IsFilled-block_of heap g id (ys id) (es id) at_y refl
          (ap (λ (t : Shape). t.read_restricted) (same id) ∙ at_y.readable) in
      let last : IsLast heap ys es (s.all_groups ++ (g ∷ [])) rest (length s.all_groups) = record {
        g = g;
        id = id;
        found = get_elem?_last s.all_groups g;
        filled = filled;
        type_of = ap (λ (t : Shape). register_type_number t.register_type) (same id);
        readable = at_y.readable;
        order = order;
      } in
      record {
        shapes = SameShapes-trans heap heap' s'.heap same o.shapes;
        sound = rw o.groups (
            All-append (IsSound heap) s.all_groups (g ∷ []) h.sound
              (filled_IsSound heap ys es g (ys id) (es id) filled, tt));
        restricted = λ t i e.
            let (r, found, res, type_of) =
              h.restricted t i (ap (λ f. f t) (sym o.restricted) ∙ e) in
            (r, rw o.groups (get_elem?-append s.all_groups (g ∷ []) i r found), res, type_of);
        previous = rw (o.previous, o.groups) last;
      }

  IsOpened-IsMoved :
      (owner : ℕ) (s s' : Grouping D) (heap' : Heap D) (id : ℕ)
      → SameShapes heap heap'
      → SameGroups s.heap heap'
      → IsAt (shape (heap id)) (ys id) (es id)
      → IsOpened owner s s' heap' id (ys id) (es id)
      → IsMoved heap s s' id
  IsOpened-IsMoved owner s s' heap' id same groups at_y o =
      let g : RegisterGroup = record (empty_group (heap' id) (Option.some owner)) {
        slave_address = s.device.slave_address;
        mappings = lay (ys id) (block_of id (es id) ∷ []);
      } in
      record {
        i = length s.all_groups;
        g = g;
        put = (o.put.0, λ other apart. o.put.1 other apart ∙ groups other);
        evolves = rw o.groups (append-Evolves s.all_groups (g ∷ []));
        found = rw o.groups (get_elem?_last s.all_groups g);
        like = ap (λ (t : Shape). t.read_restricted) (same id);
        member = inr o.member;
      }

  -- A group that was opened for a mapping.
  open_IsPlaced :
      (owner : ℕ) (s : Grouping D) (rest : List ℕ) (heap' : Heap D) (id : ℕ)
      → IsPlaced heap ys es s (id ∷ rest)
      → SameShapes heap heap'
      → SameGroups s.heap heap'
      → IsAt (shape (heap id)) (ys id) (es id)
      → All (Follows heap ys es id) rest
      → (s' : Grouping D) × (open_group owner s heap' id ≡ ok s')
        × IsPlaced heap ys es s' rest
        × IsMoved heap s s' id
  open_IsPlaced owner s rest heap' id h same groups at_y order =
      let at_y' = subst (λ t. IsAt t (ys id) (es id)) (sym (same id)) at_y in
      let (s', done, o) = open_group-IsOpened owner s heap' id (ys id) (es id) at_y' in
      (
        s',
        done,
        IsOpened-IsPlaced owner s s' rest heap' id h same at_y order o,
        IsOpened-IsMoved owner s s' heap' id same groups at_y o,
      )

  -- The group of the last mapping took the next one.
  kept_IsPlaced :
      (s : Grouping D) (rest : List ℕ) (heap' : Heap D) (id i : ℕ) (g' : RegisterGroup)
      → IsPlaced heap ys es s (id ∷ rest)
      → (last : IsLast heap ys es s.all_groups (id ∷ rest) i) → s.previous ≡ Option.some i
      → SameShapes heap heap'
      → IsFilled heap g' (ys id) (es id)
      → g'.register_type ≡ last.g.register_type
      → is_register (heap id).register_type last.g.register_type ≡ true
      → (heap id).read_restricted ≡ false
      → All (Follows heap ys es id) rest
      → IsPlaced heap ys es (record s { heap = heap'; all_groups = set s.all_groups i g' }) rest
  kept_IsPlaced s rest heap' id i g' h last previous same filled type_of same_type readable order =
      let there : IsLast heap ys es (set s.all_groups i g') rest i = record {
        g = g';
        id = id;
        found =
            get_elem?-set_self s.all_groups i g' (get_elem?_bound s.all_groups i last.g last.found);
        filled = filled;
        type_of = rw type_of (ground arith);
        readable = readable;
        order = order;
      } in
      record {
        shapes = same;
        sound =
            All-set (IsSound heap) s.all_groups i g' h.sound
              (filled_IsSound heap ys es g' (ys id) (es id) filled);
        restricted = λ t j e.
            set-IsRestrictedAt s.all_groups i last.g g' t j last.found
              (filled.open_group ∙ sym last.filled.open_group) type_of (h.restricted t j e);
        previous = rw previous there;
      }

  taken_IsPlaced :
      (owner : ℕ) (s : Grouping D) (rest : List ℕ) (heap' : Heap D) (id i : ℕ) (g' : RegisterGroup)
      (taken : Bool)
      → IsPlaced heap ys es s (id ∷ rest)
      → (last : IsLast heap ys es s.all_groups (id ∷ rest) i) → s.previous ≡ Option.some i
      → SameShapes heap heap'
      → SameGroups s.heap heap'
      → IsTaken heap last.g id (ys id) (es id) g' taken
      → is_register (heap id).register_type last.g.register_type ≡ true
      → IsAt (shape (heap id)) (ys id) (es id)
      → All (Follows heap ys es id) rest
      → (s' : Grouping D) × ((if taken
            then ok (record s { heap = with_group heap' id i; all_groups = set s.all_groups i g' })
            else open_group owner s heap' id)
          ≡ ok s')
        × IsPlaced heap ys es s' rest
        × IsMoved heap s s' id
  taken_IsPlaced owner s rest heap' id i g' false h last previous same groups t same_type at_y
        order =
      open_IsPlaced owner s rest heap' id h same groups at_y order
  taken_IsPlaced owner s rest heap' id i g' true h last previous same groups t same_type at_y
        order =
      (
        _,
        refl,
        kept_IsPlaced s rest (with_group heap' id i) id i g' h last previous
            (SameShapes-trans heap heap' (with_group heap' id i) same
              (store_group-SameShapes heap' id (Option.some i)))
            (t.0) (t.1) same_type at_y.readable order,
        record {
          i = i;
          g = g';
          put = store_group-IsPut s.heap heap' id i groups;
          evolves =
              set-Evolves s.all_groups i last.g g' last.found
                ((t.0).open_group ∙ sym last.filled.open_group, inr (t.2.1));
          found =
              get_elem?-set_self s.all_groups i g'
                (get_elem?_bound s.all_groups i last.g last.found);
          like = (t.0).open_group ∙ sym at_y.readable;
          member = inr (t.2.0);
        },
      )

  join_IsPlaced :
      (owner : ℕ) (s : Grouping D) (rest : List ℕ) (id i : ℕ)
      → IsPlaced heap ys es s (id ∷ rest)
      → IsLast heap ys es s.all_groups (id ∷ rest) i
      → s.previous ≡ Option.some i
      → IsAt (shape (heap id)) (ys id) (es id)
      → All (Follows heap ys es id) rest
      → (s' : Grouping D) × (join_group owner s i id ≡ ok s')
        × IsPlaced heap ys es s' rest
        × IsMoved heap s s' id
  unfolding join_group
  join_IsPlaced owner s rest id i h last previous at_y order =
      let at_s : IsAt (shape (s.heap id)) (ys id) (es id) =
        subst (λ t. IsAt t (ys id) (es id)) (sym (h.shapes id)) at_y in
      let type_s : register_type_number (s.heap id).register_type
          ≡ register_type_number (heap id).register_type =
        ap (λ (t : Shape). register_type_number t.register_type) (h.shapes id) in
      rw (at-some s.all_groups i last.g last.found)
        (elim (Bool-cases (is_register last.g.register_type (s.heap id).register_type)) [
          | inl same ↦
              let same' : is_register (s.heap id).register_type last.g.register_type ≡ true =
                ground arith in
              let same0 : is_register (heap id).register_type last.g.register_type ≡ true =
                ground arith in
              let follows = last.order.0 last.readable at_y.readable (ground arith) in
              let back : SameShapes s.heap heap = λ x. sym (h.shapes x) in
              let (g', b, added, taken) =
                add_mapping-IsTaken s.heap last.g id (ys last.id) (ys id) (es last.id) (es id)
                  (IsFilled-SameShapes heap s.heap last.g (ys last.id) (es last.id) h.shapes
                    last.filled)
                  at_s same' follows in
              let heap' = store s.heap id (set_slave_address (s.heap id) last.g.slave_address) in
              let shapes' =
                SameShapes-trans heap s.heap heap' h.shapes
                  (store_slave-SameShapes s.heap id last.g.slave_address) in
              rw (same, added)
                (taken_IsPlaced owner s rest heap' id i g' b h last previous shapes'
                  (store_slave-SameGroups s.heap id last.g.slave_address)
                  (IsTaken-SameShapes s.heap heap last.g id (ys id) (es id) g' b back taken) same0
                  at_y order)
          | inr other ↦
              rw other (open_IsPlaced owner s rest s.heap id h h.shapes (λ x. refl) at_y order)
        ])

  pub place_readable_lem :
      (owner : ℕ) (s : Grouping D) (rest : List ℕ) (id : ℕ) (o : Option ℕ)
      → s.previous ≡ o
      → IsPlaced heap ys es s (id ∷ rest)
      → IsAt (shape (heap id)) (ys id) (es id)
      → All (Follows heap ys es id) rest
      → (s' : Grouping D) × (place_readable owner s id o ≡ ok s')
        × IsPlaced heap ys es s' rest
        × IsMoved heap s s' id
  unfolding place_readable
  place_readable_lem owner s rest id Option.none e h at_y order =
      open_IsPlaced owner s rest s.heap id h h.shapes (λ x. refl) at_y order
  place_readable_lem owner s rest id (Option.some i) e h at_y order =
      join_IsPlaced owner s rest id i h
        (subst (IsPrevious heap ys es s.all_groups (id ∷ rest)) e h.previous) e at_y order
