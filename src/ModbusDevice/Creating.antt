-- ===== src/ModbusDevice/Creating.antt =====
-- createGroups of ModbusDevice.cpp for mappings in any order.
use more_modbus.Prelude.{
  ℕ, ◌<◌, ◌≡◌, refl, sym, ap, ◌∙◌, subst, ◌⊎◌, inl, inr, Bool, true, List, [], ◌∷◌, ok,
  ok-injective, ltb, ◌==◌, All, All-imp, arith,
}
use more_modbus.Prelude.Int.{ℤ, pos, ltb_ℤ, ◌==ℤ◌}
use more_modbus.RegisterMapping.{
  RegisterMapping, get_register_count, is_register, register_type_number, output_type_number,
}
use more_modbus.RegisterGroup.{RegisterGroup, Heap}
use more_modbus.ModbusDevice.{ModbusDevice, create_groups}
use more_modbus.ModbusDevice.Shape.{shape, SameShapes, Extent, whole, single, IsAt, Precedes}
use more_modbus.ModbusDevice.Membership.{IsHome}
use more_modbus.ModbusDevice.Invariant.{IsSound, IsReady, Follows, IsSorted}
use more_modbus.ModbusDevice.Order.{before_at, key_less, key_at}
use more_modbus.ModbusDevice.Sorting.{HasStart, less, IsOrdered, IsHeld, mapping_set-IsOrdered}
use more_modbus.ModbusDevice.Placing.{create_groups-IsSound}

-- Among mappings of one type, the starts decide first.
starts_first :
    (t t' y y' : ℕ) (rest : Bool)
    → (t' == t) ≡ true
    → before_at (t == t') (ltb t t') (before_at (pos y ==ℤ pos y') (ltb_ℤ (pos y) (pos y')) rest)
      ≡ true
    → (y < y') ⊎ ((y ≡ y') × (rest ≡ true))
starts_first t t' y y' rest same h = ground arith

bits_last :
    (c c' : ℤ) (o o' : ℕ) (b b' : ℕ)
    → c ≡ pos 1
    → c' ≡ pos 1
    → (o == 0) ≡ true
    → (o' == 0) ≡ true
    → before_at (c ==ℤ c') (ltb_ℤ c c') (before_at (o == o') (ltb o o') (ltb_ℤ (pos b) (pos b')))
      ≡ true
    → b < b'
bits_last c c' o o' b b' e e' p q h = ground arith

Precedes-starts :
    (y y' : ℕ) (e e' : Extent)
    → (y < y') ⊎ ((y ≡ y') × ((b b' : ℕ) → e ≡ single b → e' ≡ single b' → b < b'))
    → Precedes y e y' e'
Precedes-starts y y' (single b) (single b') (inl l) = inl l
Precedes-starts y y' (single b) (single b') (inr (eq, l)) = inr (eq, l b b' refl refl)
Precedes-starts y y' (single b) (whole n) (inl l) = omega arith
Precedes-starts y y' (single b) (whole n) (inr (eq, l)) = omega arith
Precedes-starts y y' (whole n) (single b) (inl l) = omega arith
Precedes-starts y y' (whole n) (single b) (inr (eq, l)) = omega arith
Precedes-starts y y' (whole n) (whole n') (inl l) = omega arith
Precedes-starts y y' (whole n) (whole n') (inr (eq, l)) = omega arith

module _ {D : Type 0} where
  -- What the comparison goes by after the starts.
  abbrev rest_less : RegisterMapping D → RegisterMapping D → Bool
  rest_less m n =
      before_at (get_register_count m ==ℤ get_register_count n)
        (ltb_ℤ (get_register_count m) (get_register_count n))
        (before_at (output_type_number m.output_type == output_type_number n.output_type)
          (ltb (output_type_number m.output_type) (output_type_number n.output_type))
          (ltb_ℤ m.bit_index n.bit_index))

  rest_bits :
      (m n : RegisterMapping D) (y y' b b' : ℕ)
      → IsAt (shape m) y (single b)
      → IsAt (shape n) y' (single b')
      → rest_less m n ≡ true
      → b < b'
  rest_bits m n y y' b b' h k e =
      bits_last (get_register_count m) (get_register_count n) (output_type_number m.output_type)
        (output_type_number n.output_type) b b' h.counts k.counts h.kind.3 k.kind.3
        (ap
            (λ (x : ℤ × ℤ).
              before_at (get_register_count m ==ℤ get_register_count n)
                (ltb_ℤ (get_register_count m) (get_register_count n))
                (before_at (output_type_number m.output_type == output_type_number n.output_type)
                  (ltb (output_type_number m.output_type) (output_type_number n.output_type))
                  (ltb_ℤ x.0 x.1)))
            (ap (λ (x : ℤ). (pos b, x)) (sym k.kind.1)
              ∙ ap (λ (x : ℤ). (x, n.bit_index)) (sym h.kind.1))
          ∙ e)

  -- Two mappings of one type that the comparison orders come by their registers.
  key-Precedes :
      (m n : RegisterMapping D) (y y' : ℕ) (e e' : Extent)
      → IsAt (shape m) y e
      → IsAt (shape n) y' e'
      → is_register n.register_type m.register_type ≡ true
      → key_less (key_at m (pos y)) (key_at n (pos y')) ≡ true
      → Precedes y e y' e'
  key-Precedes m n y y' e e' h k same before =
      Precedes-starts y y' e e'
        (elim (starts_first (register_type_number m.register_type)
          (register_type_number n.register_type) y y' (rest_less m n) same before) [
            | inl l ↦ inl l
            | inr (eq, later) ↦ inr (
              eq,
              λ b b' f f'.
                  rest_bits m n y y' b b' (subst (IsAt (shape m) y) f h)
                    (subst (IsAt (shape n) y') f' k) later,
            )
          ])

module _ {D : Type 0} (heap : Heap D) (ys : ℕ → ℕ) (es : ℕ → Extent) (starts : ℕ → ℤ) where
  -- A mapping that is ready has the start by which it is compared.
  abbrev pub IsStarting : ℕ → Type 0
  IsStarting id = IsReady heap ys es id × HasStart heap starts id

  follows :
      (id other : ℕ)
      → IsStarting id
      → IsStarting other
      → less heap starts id other ≡ true
      → Follows heap ys es id other
  follows id other (inl (closed, _, _), at) k before open_id open_other same = cc
  follows id other (inr h, at) (inl (closed, _, _), at') before open_id open_other same = cc
  follows id other (inr h, at) (inr k, at') before open_id open_other same =
      let here : pos (ys id) ≡ starts id = ok-injective _ _ (sym h.starts ∙ at) in
      let there : pos (ys other) ≡ starts other = ok-injective _ _ (sym k.starts ∙ at') in
      key-Precedes (heap id) (heap other) (ys id) (ys other) (es id) (es other) h k same (
        ap (λ (x : ℤ). key_less (key_at (heap id) x) (key_at (heap other) (pos (ys other)))) here
        ∙ ap (λ (x : ℤ). key_less (key_at (heap id) (starts id)) (key_at (heap other) x)) there
        ∙ before)

  ordered-IsSorted :
      (ids : List ℕ) → All IsStarting ids → IsOrdered heap starts ids → IsSorted heap ys es ids
  ordered-IsSorted [] h order = tt
  ordered-IsSorted (id ∷ rest) h order =
      (all_follow rest h.1 order.0, ordered-IsSorted rest (h.1) (order.1))
    where
      all_follow :
          (xs : List ℕ)
          → All IsStarting xs
          → All (λ x. less heap starts id x ≡ true) xs
          → All (Follows heap ys es id) xs
      all_follow [] k o = tt
      all_follow (x ∷ xs) k o = (follows id x (h.0) (k.0) (o.0), all_follow xs (k.1) (o.1))

  -- createGroups returns for mappings in any order that all have a starting address, if each one
  -- that is read has registers, or a bit of one, below 2^15. Every group is then of mappings that
  -- are not read, or its claims are blocks of registers and of bits that lie next to each other, if
  -- that held of the groups that were there. For each mapping, it or one that compares equal with
  -- it has a group, which is read if that mapping is, and has then a claim of it. The type,
  -- registers, operation and bit of no mapping change.
  pub create_groups_total :
      (owner : ℕ) (groups : List RegisterGroup) (device : ModbusDevice) (mappings : List ℕ)
      → All (IsSound heap) groups
      → All IsStarting mappings
      → (heap' : Heap D) × (groups' : List RegisterGroup) × (device' : ModbusDevice)
        × (sorted : List ℕ) × (create_groups owner heap groups device mappings
            ≡ ok (heap', groups', device'))
        × SameShapes heap heap'
        × All (IsSound heap') groups'
        × All (IsHome heap heap' groups') sorted
        × All (IsHeld heap starts sorted) mappings
  create_groups_total owner groups device mappings sound h =
      let (sorted, set_of, ready, order, _, held) =
        mapping_set-IsOrdered heap starts IsStarting [] mappings (λ x k. k.1) tt h tt in
      let (heap', groups', device', done, shapes, sound', homes) =
        create_groups-IsSound heap ys es owner groups device mappings sorted sound set_of
          (All-imp IsStarting (IsReady heap ys es) sorted (λ x k. k.0) ready)
          (ordered-IsSorted sorted ready order) in
      (heap', groups', device', sorted, done, shapes, sound', homes, held)
