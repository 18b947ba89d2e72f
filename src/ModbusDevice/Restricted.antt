-- ===== src/ModbusDevice/Restricted.antt =====
-- A mapping that is not read, in the loop of createGroups of ModbusDevice.cpp.
use more_modbus.Prelude.{
  ℕ, ◌≡◌, ap, ◌∙◌, true, List, [], ◌∷◌, Option, ok, ◌>>=◌, length, set, if◌then◌else◌, inl,
  All-append, All-set,
}
use more_modbus.Prelude.Int.{ℤ}
use more_modbus.RegisterMapping.{get_starting_address, set_slave_address, is_register}
use more_modbus.RegisterGroup.{Heap, store, add_mapping}
use more_modbus.ModbusGroupReader.{at-some}
use more_modbus.ModbusDevice.{Grouping, with_group, add_group, place_restricted}
use more_modbus.ModbusDevice.Shape.{
  store_slave-SameGroups, store_group-IsPut, Shape, SameShapes-trans, store_slave-SameShapes,
  store_group-SameShapes, Extent,
}
use more_modbus.ModbusDevice.Restricting.{add_restricted, make_restricted}
use more_modbus.Prelude.{sym, get_elem?_last, get_elem?-set_self, get_elem?_bound}
use more_modbus.ModbusDevice.Membership.{append-Evolves, set-Evolves, IsMoved}
use more_modbus.ModbusDevice.Invariant.{
  IsSound, set-IsRestrictedAt, append-IsRestrictedAt, IsPlaced, IsLast-skip, IsPrevious-append,
  IsPrevious-set,
}

module _ {D : Type 0} (heap : Heap D) (ys : ℕ → ℕ) (es : ℕ → Extent) where
  -- A mapping that is not read makes the first group of its register type.
  restricted_first :
      (owner : ℕ) (s : Grouping D) (rest : List ℕ) (id : ℕ) (start : ℤ)
      → IsPlaced heap ys es s (id ∷ rest)
      → (heap id).read_restricted ≡ true
      → get_starting_address (heap id) ≡ ok start
      → (s' : Grouping D) × (place_restricted owner s id Option.none ≡ ok s')
        × IsPlaced heap ys es s' rest
        × IsMoved heap s s' id
  unfolding place_restricted add_group
  restricted_first owner s rest id start h closed starts =
      let closed' = ap (λ (t : Shape). t.read_restricted) (h.shapes id) ∙ closed in
      let starts' = ap (λ (t : Shape). t.start) (h.shapes id) ∙ starts in
      let (g', done, like) = make_restricted s.heap id start (Option.some owner) closed' starts' in
      let heap' = store s.heap id (set_slave_address (s.heap id) (s.heap id).slave_address) in
      let i = length s.all_groups in
      (
        _,
        ap
            (λ r. r >>= λ made. ok (record (add_group s (made.0) (made.1) id) {
              restricted = λ t.
                  if is_register t (s.heap id).register_type then Option.some i else s.restricted t;
            }))
            done,
        record {
          shapes =
              SameShapes-trans heap heap' (with_group heap' id i)
                (SameShapes-trans heap s.heap heap' h.shapes
                  (store_slave-SameShapes s.heap id (s.heap id).slave_address))
                (store_group-SameShapes heap' id (Option.some i));
          sound =
              All-append (IsSound heap) s.all_groups (g' ∷ []) h.sound (inl (like.0 ∙ closed'), tt);
          restricted =
              append-IsRestrictedAt s.all_groups s.restricted (s.heap id).register_type g'
                h.restricted (like.0 ∙ closed') (like.1);
          previous =
              IsPrevious-append heap ys es s.all_groups (g' ∷ []) rest s.previous
                (IsLast-skip heap ys es s.all_groups id rest s.previous h.previous);
        },
        record {
          i = i;
          g = g';
          put =
              store_group-IsPut s.heap heap' id i
                (store_slave-SameGroups s.heap id (s.heap id).slave_address);
          evolves = append-Evolves s.all_groups (g' ∷ []);
          found = get_elem?_last s.all_groups g';
          like = like.0 ∙ closed' ∙ sym closed;
          member = inl closed;
        },
      )

  -- A mapping that is not read joins the group of its register type.
  restricted_next :
      (owner : ℕ) (s : Grouping D) (rest : List ℕ) (id i : ℕ) (start : ℤ)
      → IsPlaced heap ys es s (id ∷ rest)
      → s.restricted (s.heap id).register_type ≡ Option.some i
      → (heap id).read_restricted ≡ true
      → get_starting_address (heap id) ≡ ok start
      → (s' : Grouping D) × (place_restricted owner s id (Option.some i) ≡ ok s')
        × IsPlaced heap ys es s' rest
        × IsMoved heap s s' id
  unfolding place_restricted
  restricted_next owner s rest id i start h e closed starts =
      let closed' = ap (λ (t : Shape). t.read_restricted) (h.shapes id) ∙ closed in
      let starts' = ap (λ (t : Shape). t.start) (h.shapes id) ∙ starts in
      let (g, found, res, type_of) = h.restricted (s.heap id).register_type i e in
      let (g', b, done, like) = add_restricted s.heap g id start type_of closed' res starts' in
      let heap' = store s.heap id (set_slave_address (s.heap id) g.slave_address) in
      (
        record s { heap = with_group heap' id i; all_groups = set s.all_groups i g' },
        ap
              (λ r. r >>= λ g. add_mapping s.heap g id >>= λ added. ok (record s {
                heap = with_group (added.0) id i;
                all_groups = set s.all_groups i (added.1);
              }))
              (at-some s.all_groups i g found)
            ∙ ap
                (λ r. r >>= λ added. ok (record s {
                  heap = with_group (added.0) id i;
                  all_groups = set s.all_groups i (added.1);
                }))
                done,
        record {
          shapes =
              SameShapes-trans heap heap' (with_group heap' id i)
                (SameShapes-trans heap s.heap heap' h.shapes
                  (store_slave-SameShapes s.heap id g.slave_address))
                (store_group-SameShapes heap' id (Option.some i));
          sound = All-set (IsSound heap) s.all_groups i g' h.sound (inl (like.0 ∙ res));
          restricted = λ t j e'.
              set-IsRestrictedAt s.all_groups i g g' t j found (like.0) (like.1)
                (h.restricted t j e');
          previous =
              IsPrevious-set heap ys es s.all_groups i g g' rest s.previous found res
                (IsLast-skip heap ys es s.all_groups id rest s.previous h.previous);
        },
        record {
          i = i;
          g = g';
          put =
              store_group-IsPut s.heap heap' id i
                (store_slave-SameGroups s.heap id g.slave_address);
          evolves = set-Evolves s.all_groups i g g' found (like.0, inl res);
          found = get_elem?-set_self s.all_groups i g' (get_elem?_bound s.all_groups i g found);
          like = like.0 ∙ res ∙ sym closed;
          member = inl closed;
        },
      )

  pub place_restricted_lem :
      (owner : ℕ) (s : Grouping D) (rest : List ℕ) (id : ℕ) (start : ℤ) (o : Option ℕ)
      → s.restricted (s.heap id).register_type ≡ o
      → IsPlaced heap ys es s (id ∷ rest)
      → (heap id).read_restricted ≡ true
      → get_starting_address (heap id) ≡ ok start
      → (s' : Grouping D) × (place_restricted owner s id o ≡ ok s')
        × IsPlaced heap ys es s' rest
        × IsMoved heap s s' id
  place_restricted_lem owner s rest id start Option.none e h closed starts =
      restricted_first owner s rest id start h closed starts
  place_restricted_lem owner s rest id start (Option.some i) e h closed starts =
      restricted_next owner s rest id i start h e closed starts
