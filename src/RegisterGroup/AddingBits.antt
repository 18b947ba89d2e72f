-- ===== src/RegisterGroup/AddingBits.antt =====
-- addMapping of RegisterGroup.cpp for a bit: the group stays laid out as blocks.
use more_modbus.Prelude.{
  ℕ, ◌+◌, ◌^◌, ◌≤◌, ◌<◌, ◌≡◌, refl, sym, ap, ◌∙◌, Bool, true, false, List, [], ◌∷◌, ◌++◌, arith,
  All, length, All-last, if◌then◌else◌, leb, ◌==◌, ok, Option, inl, inr, Bool-cases,
}
use mathlib.Core.List.{append_assoc}
use more_modbus.Prelude.Int.{pos, ◌+ℤ◌, ◌-ℤ◌}
use more_modbus.RegisterMapping.{is_operation, OperationType, set_slave_address}
use more_modbus.RegisterGroup.{
  RegisterGroup, Heap, Entry, store, claim, bit_claim, add_mapping, append_mapping, emplace,
  key_exists_in_set, joins, fits_bit,
}
use more_modbus.RegisterGroup.Layout.{
  Block, registers, bits, total_size, bit_claims, lay, IsBlock, AreBlocks, address-claim,
  address-bit_claim,
}
use more_modbus.RegisterGroup.Append.{
  Before, IsBelow-lay, Before-IsBelow, emplace_last, lay_last, total_size_last,
}
use more_modbus.RegisterGroup.Keys.{
  IsApart, Before-IsApart, key_exists-IsApart, key_exists_last, Before-last_bits, IsApart-last_bits,
}
use more_modbus.RegisterGroup.Joining.{
  IsNext, joins_laid, add_by, fits_bit_until_end, fits_bit_beyond, append_bit, start_of_slave,
}
use more_modbus.RegisterGroup.Adding.{relaid}

-- A bit goes behind the last block, or to the bits of the same register there.
abbrev pub bit_blocks : ℕ → List Block → Block → ℕ → (id bit : ℕ) → Option (List Block)
bit_blocks a init (registers other n) y id bit =
    if y == a + total_size init + n
    then Option.some ((init ++ (registers other n ∷ [])) ++ (bits ((bit, id) ∷ []) ∷ []))
    else Option.none
bit_blocks a init (bits bs) y id bit =
    if y == a + total_size init + 1
    then Option.some ((init ++ (bits bs ∷ [])) ++ (bits ((bit, id) ∷ []) ∷ []))
    else if y == a + total_size init
    then Option.some (init ++ (bits (bs ++ ((bit, id) ∷ [])) ∷ []))
    else Option.none

-- The bits of a block are those of lower index.
abbrev pub AreLower : ℕ → Block → Type 0
AreLower bit (registers x n) = Unit {0}
AreLower bit (bits bs) = All (λ b. b.0 < bit) bs

pub bit_claims_last :
    (a bit id : ℕ) (bs : List (ℕ × ℕ))
    → bit_claims a bs ++ ((bit_claim (pos a) (pos bit), id) ∷ [])
      ≡ bit_claims a (bs ++ ((bit, id) ∷ []))
bit_claims_last a bit id [] = refl
bit_claims_last a bit id ((b, x) ∷ bs) =
    ap (λ t. (bit_claim (pos a) (pos b), x) ∷ t) (bit_claims_last a bit id bs)

module _ {D : Type 0} where
  some_size :
      (heap : Heap D) (blocks : List Block)
      → AreBlocks heap blocks
      → 0 < length blocks
      → 0 < total_size blocks
  some_size heap [] h s = absurd (omega arith)
  some_size heap (registers x k ∷ rest) h s = omega arith
  some_size heap (bits bs ∷ rest) h s = omega arith

  -- A bit's claim that is free goes behind all claims that the set's order puts before it.
  add_bit_by :
      (heap : Heap D) (g : RegisterGroup) (id a y bit : ℕ) (blocks blocks' : List Block)
      → IsNext heap g id a y blocks
      → is_operation (heap id).operation_type OperationType.take_bit ≡ true
      → (heap id).bit_index ≡ pos bit
      → a ≤ y
      → y ≤ a + total_size blocks
      → All (Before (bit_claim (pos y) (pos bit), id)) (lay a blocks)
      → All (IsApart (claim (pos y))) (lay a blocks)
      → lay a blocks ++ ((bit_claim (pos y) (pos bit), id) ∷ []) ≡ lay a blocks'
      → add_mapping heap g id
        ≡ ok (
          store heap id (set_slave_address (heap id) g.slave_address),
          record g { mappings = lay a blocks' },
          true,
        )
  unfolding set_slave_address
  add_bit_by heap g id a y bit blocks blocks' next is_bit index l u before apart shape =
      let m = set_slave_address (heap id) g.slave_address in
      let e : Entry = (bit_claim (pos y) (pos bit), id) in
      let free : key_exists_in_set (bit_claim (pos y) m.bit_index) g.mappings ≡ false =
        rw (index, next.laid)
          (key_exists-IsApart (e.0) (lay a blocks) (Before-IsApart e (lay a blocks) before)) in
      let fits : joins g m ≡ ok true =
        joins_laid heap g id a y blocks next
        ∙ rw
            (
              is_bit,
              fits_bit_until_end m g.mappings a (total_size blocks) y free l
                  (some_size heap blocks next.sound next.some),
            )
            (ground arith) in
      let key : key_exists_in_set (claim (pos y)) g.mappings ≡ false =
        rw next.laid (key_exists-IsApart (claim (pos y)) (lay a blocks) apart) in
      let claims : emplace (bit_claim (pos y) m.bit_index, id) g.mappings ≡ lay a blocks' =
        rw (index, next.laid) (emplace_last e (lay a blocks) before ∙ shape) in
      add_by heap g (record g { mappings = lay a blocks' }) id a y blocks true true next fits
        (append_bit g m id y false is_bit (start_of_slave (heap id) g.slave_address ∙ next.start)
            key
          ∙ ap (λ t. ok (record g { mappings = t }, true)) claims)

  add_bit_at_end :
      (heap : Heap D) (g : RegisterGroup) (id a y bit : ℕ) (blocks : List Block)
      → IsNext heap g id a y blocks
      → is_operation (heap id).operation_type OperationType.take_bit ≡ true
      → (heap id).bit_index ≡ pos bit
      → bit < 16
      → y ≡ a + total_size blocks
      → add_mapping heap g id
        ≡ ok (
          store heap id (set_slave_address (heap id) g.slave_address),
          record g { mappings = lay a (blocks ++ (bits ((bit, id) ∷ []) ∷ [])) },
          true,
        )
  add_bit_at_end heap g id a y bit blocks next is_bit index l eq =
      let below =
        IsBelow-lay heap a y blocks next.sound (omega arith) (omega (arith, next.small)) in
      let small : y < 2 ^ 30 = omega (arith, next.small) in
      let e : Entry = (bit_claim (pos y) (pos bit), id) in
      add_bit_by heap g id a y bit blocks (blocks ++ (bits ((bit, id) ∷ []) ∷ [])) next is_bit index
        (omega arith) (omega arith)
        (Before-IsBelow e y (lay a blocks) (address-bit_claim y bit (omega arith) l) below)
        (Before-IsApart (claim (pos y), id) (lay a blocks)
          (Before-IsBelow (claim (pos y), id) y (lay a blocks) (address-claim y (omega arith))
            below))
        (ap (λ (k : ℕ). lay a blocks ++ bit_claims k ((bit, id) ∷ [])) eq
          ∙ sym (lay_last a blocks (bits ((bit, id) ∷ []))))

  refused :
      (heap : Heap D) (g : RegisterGroup) (id a y : ℕ) (blocks : List Block) (fit : Bool)
      → IsNext heap g id a y blocks
      → let m = set_slave_address (heap id) g.slave_address in
        joins g m ≡ ok fit
        → (fit ≡ true → append_mapping g m id ≡ ok (g, false))
        → add_mapping heap g id ≡ ok (store heap id m, g, false)
  refused heap g id a y blocks true next fits full =
      add_by heap g g id a y blocks true false next fits (full refl)
  refused heap g id a y blocks false next fits full =
      add_by heap g g id a y blocks false false next fits refl

  add_bit_beyond :
      (heap : Heap D) (g : RegisterGroup) (id a y : ℕ) (blocks : List Block)
      → IsNext heap g id a y blocks
      → is_operation (heap id).operation_type OperationType.take_bit ≡ true
      → a + total_size blocks < y
      → add_mapping heap g id
        ≡ ok (store heap id (set_slave_address (heap id) g.slave_address), g, false)
  unfolding set_slave_address
  add_bit_beyond heap g id a y blocks next is_bit l =
      let m = set_slave_address (heap id) g.slave_address in
      refused heap g id a y blocks false next
        (joins_laid heap g id a y blocks next
          ∙ rw is_bit (
              ap ok (
                fits_bit_beyond m g.mappings a (total_size blocks) y l
                  (some_size heap blocks next.sound next.some))))
        (λ never. cc)

  add_bit_taken :
      (heap : Heap D) (g : RegisterGroup) (id a y : ℕ) (blocks : List Block)
      → IsNext heap g id a y blocks
      → is_operation (heap id).operation_type OperationType.take_bit ≡ true
      → key_exists_in_set (claim (pos y)) (lay a blocks) ≡ true
      → add_mapping heap g id
        ≡ ok (store heap id (set_slave_address (heap id) g.slave_address), g, false)
  unfolding set_slave_address
  add_bit_taken heap g id a y blocks next is_bit key =
      let m = set_slave_address (heap id) g.slave_address in
      refused heap g id a y blocks
        (fits_bit m g.mappings (pos a) (pos a +ℤ pos (total_size blocks) -ℤ pos 1) (pos y)) next
        (joins_laid heap g id a y blocks next ∙ rw is_bit refl)
        (λ _.
          append_bit g m id y true is_bit (start_of_slave (heap id) g.slave_address ∙ next.start)
            (rw next.laid key))

  -- A bit mapping that starts no earlier than the last block of the group, and, if it starts there,
  -- has a higher index than that block's bits, joins the group exactly if its register is the next
  -- behind the group or has only bits claimed; its claim then follows those of the group, and
  -- nothing else of the group changes. Either way the mapping takes the group's slave address.
  pub add_mapping-bit :
      (heap : Heap D) (g : RegisterGroup) (id a y bit : ℕ) (init : List Block) (last : Block)
      → IsNext heap g id a y (init ++ (last ∷ []))
      → is_operation (heap id).operation_type OperationType.take_bit ≡ true
      → (heap id).bit_index ≡ pos bit
      → bit < 16
      → a + total_size init ≤ y
      → (a + total_size init ≡ y → AreLower bit last)
      → add_mapping heap g id
        ≡ ok (
            let after = relaid g a (bit_blocks a init last y id bit) in
            (store heap id (set_slave_address (heap id) g.slave_address), after.0, after.1))
  add_mapping-bit heap g id a y bit init (registers other n) next is_bit index l from lower =
      let blocks = init ++ (registers other n ∷ []) in
      let total = total_size_last init (registers other n) in
      elim (Bool-cases (y == a + total_size init + n)) [
        | inl end ↦
            rw end (add_bit_at_end heap g id a y bit blocks next is_bit index l (ground arith))
        | inr within ↦ rw within (elim (Bool-cases (leb y (a + total_size init + n))) [
          | inl before ↦
              add_bit_taken heap g id a y blocks next is_bit
                (key_exists_last a init other n y from (ground arith))
          | inr beyond ↦ add_bit_beyond heap g id a y blocks next is_bit (ground arith)
        ])
      ]
  add_mapping-bit heap g id a y bit init (bits bs) next is_bit index l from lower =
      let blocks = init ++ (bits bs ∷ []) in
      let total = total_size_last init (bits bs) in
      let (sound, own) = All-last (IsBlock heap) init (bits bs) next.sound in
      elim (Bool-cases (y == a + total_size init + 1)) [
        | inl end ↦
            rw end (add_bit_at_end heap g id a y bit blocks next is_bit index l (ground arith))
        | inr within ↦ rw within (elim (Bool-cases (y == a + total_size init)) [
          | inl here ↦
              let eq : a + total_size init ≡ y = ground arith in
              let small : y < 2 ^ 30 = omega (arith, next.small) in
              rw here (
                add_bit_by heap g id a y bit blocks (init ++ (bits (bs ++ ((bit, id) ∷ [])) ∷ []))
                  next is_bit index (omega arith) (omega arith)
                  (Before-last_bits heap a y bit id init bs sound eq (lower eq) l small)
                  (IsApart-last_bits heap a y bit id init bs sound eq own.1 small)
                  (ap (λ t. t ++ ((bit_claim (pos y) (pos bit), id) ∷ []))
                      (lay_last a init (bits bs))
                    ∙ append_assoc (lay a init) (bit_claims (a + total_size init) bs)
                        ((bit_claim (pos y) (pos bit), id) ∷ [])
                    ∙ ap
                        (λ (z : ℕ).
                          lay a init
                          ++ (bit_claims (a + total_size init) bs
                              ++ ((bit_claim (pos z) (pos bit), id) ∷ [])))
                        (sym eq)
                    ∙ ap (λ t. lay a init ++ t) (bit_claims_last (a + total_size init) bit id bs)
                    ∙ sym (lay_last a init (bits (bs ++ ((bit, id) ∷ []))))))
          | inr beyond ↦ rw beyond (add_bit_beyond heap g id a y blocks next is_bit (ground arith))
        ])
      ]
