-- ===== src/ModbusDevice/Placing.antt =====
-- The loop of createGroups of ModbusDevice.cpp: which groups it leaves.
use more_modbus.Prelude.{ℕ, ◌≡◌, refl, ap, ◌∙◌, List, [], ◌∷◌, ok, ◌>>=◌, inl, inr, All, All-imp}
use more_modbus.RegisterGroup.{RegisterGroup, Heap}
use more_modbus.ModbusDevice.{
  rewritten, ModbusDevice, Grouping, place, place_all, mapping_set, grouping, create_groups,
}
use more_modbus.ModbusDevice.Shape.{Shape, SameShapes, Extent}
use mathlib.Core.List.{append-nil, append_assoc}
use more_modbus.Prelude.{◌++◌, subst, sym, All-append}
use more_modbus.ModbusDevice.Membership.{IsMoved-device, IsMoved, IsHome, moved-IsHome, moved-All}
use more_modbus.ModbusDevice.Invariant.{
  IsSound-SameShapes, IsSound, IsReady, Follows, IsSorted, IsPlaced, IsPlaced-device,
}
use more_modbus.ModbusDevice.Readable.{place_readable_lem}
use more_modbus.ModbusDevice.Restricted.{place_restricted_lem}

module _ {D : Type 0} (heap : Heap D) (ys : ℕ → ℕ) (es : ℕ → Extent) where
  place-IsPlaced :
      (owner : ℕ) (s : Grouping D) (rest : List ℕ) (id : ℕ)
      → IsPlaced heap ys es s (id ∷ rest)
      → IsReady heap ys es id
      → All (Follows heap ys es id) rest
      → (s' : Grouping D) × (place owner s id ≡ ok s')
        × IsPlaced heap ys es s' rest
        × IsMoved heap s s' id
  unfolding place
  place-IsPlaced owner s rest id h (inl (closed, start, starts)) order =
      let closed' = ap (λ (t : Shape). t.read_restricted) (h.shapes id) ∙ closed in
      let device = (rewritten s id).device in
      let (s', done, placed, moved) =
        place_restricted_lem heap ys es owner (rewritten s id) rest id start
          (s.restricted (s.heap id).register_type) refl
          (IsPlaced-device heap ys es s (id ∷ rest) device h) closed starts in
      rw closed' (s', done, placed, IsMoved-device heap s s' id device moved)
  place-IsPlaced owner s rest id h (inr at_y) order =
      let open_mapping = ap (λ (t : Shape). t.read_restricted) (h.shapes id) ∙ at_y.readable in
      let device = (rewritten s id).device in
      let (s', done, placed, moved) =
        place_readable_lem heap ys es owner (rewritten s id) rest id s.previous refl
          (IsPlaced-device heap ys es s (id ∷ rest) device h) at_y order in
      rw open_mapping (s', done, placed, IsMoved-device heap s s' id device moved)

  place_all-IsPlaced :
      (owner : ℕ) (s : Grouping D) (ids : List ℕ) (placed : List ℕ)
      → IsPlaced heap ys es s ids
      → All (IsHome heap s.heap s.all_groups) placed
      → All (IsReady heap ys es) ids
      → IsSorted heap ys es ids
      → (s' : Grouping D) × (place_all owner s ids ≡ ok s')
        × IsPlaced heap ys es s' []
        × All (IsHome heap s'.heap s'.all_groups) (placed ++ ids)
  unfolding place_all
  place_all-IsPlaced owner s [] placed h homes ready sorted =
      (s, refl, h, subst (All (IsHome heap s.heap s.all_groups)) (sym (append-nil placed)) homes)
  place_all-IsPlaced owner s (id ∷ rest) placed h homes ready sorted =
      let (s', done, h', moved) = place-IsPlaced owner s rest id h (ready.0) (sorted.0) in
      let homes' =
        All-append (IsHome heap s'.heap s'.all_groups) placed (id ∷ [])
          (moved-All heap s s' id placed moved homes) (moved-IsHome heap s s' id moved, tt) in
      let (s'', more, h'', all) =
        place_all-IsPlaced owner s' rest (placed ++ (id ∷ [])) h' homes' (ready.1) (sorted.1) in
      (
        s'',
        ap (λ r. r >>= λ s'. place_all owner s' rest) done ∙ more,
        h'',
        subst (All (IsHome heap s''.heap s''.all_groups)) (append_assoc placed (id ∷ []) rest) all,
      )

  -- createGroups returns if, in the order of its set, mappings of one register type that are read
  -- come by their registers, each of them below 2^15, and each other mapping has a starting
  -- address. Every group is then of mappings that are not read, or its claims are blocks of
  -- registers and of bits that lie next to each other, if that held of the groups that were there.
  -- Each mapping of the set has a group, which is read if the mapping is, and has then a claim of
  -- it. The type, registers, operation and bit of no mapping change.
  pub create_groups-IsSound :
      (owner : ℕ) (groups : List RegisterGroup) (device : ModbusDevice) (mappings sorted : List ℕ)
      → All (IsSound heap) groups
      → mapping_set heap [] mappings ≡ ok sorted
      → All (IsReady heap ys es) sorted
      → IsSorted heap ys es sorted
      → (heap' : Heap D) × (groups' : List RegisterGroup) × (device' : ModbusDevice)
        × (create_groups owner heap groups device mappings ≡ ok (heap', groups', device'))
        × SameShapes heap heap'
        × All (IsSound heap') groups'
        × All (IsHome heap heap' groups') sorted
  unfolding create_groups
  create_groups-IsSound owner groups device mappings sorted sound set_of ready order =
      let first : IsPlaced heap ys es (grouping heap groups device) sorted = record {
        shapes = λ id. refl;
        sound = sound;
        restricted = λ t i e. cc;
        previous = tt;
      } in
      let (s, done, h, homes) =
        place_all-IsPlaced owner (grouping heap groups device) sorted [] first tt ready order in
      (
        s.heap,
        s.all_groups,
        s.device,
        rw (set_of, done) refl,
        h.shapes,
        All-imp (IsSound heap) (IsSound s.heap) s.all_groups
            (IsSound-SameShapes heap s.heap h.shapes) h.sound,
        homes,
      )
