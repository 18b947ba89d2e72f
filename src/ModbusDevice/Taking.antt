-- ===== src/ModbusDevice/Taking.antt =====
-- Whether the group that createGroups of ModbusDevice.cpp filled last takes the next mapping.
use more_modbus.Prelude.{
  ℕ, ◌+◌, ◌<◌, ◌≡◌, refl, sym, ap, ◌∙◌, subst, Bool, true, false, List, [], ◌∷◌, ◌++◌, ok, arith,
  ◌==◌, inl, inr, Bool-cases, All-append, All-last, All-imp, length-append,
}
use mathlib.Core.List.{append_assoc}
use more_modbus.Prelude.Int.{pos}
use more_modbus.RegisterMapping.{set_slave_address, is_register}
use more_modbus.RegisterGroup.{bit_claim, Entry, RegisterGroup, Heap, store, add_mapping}
use more_modbus.RegisterGroup.Layout.{
  block_claims, bit_claims, Block, registers, bits, total_size, lay, IsBlock,
}
use more_modbus.RegisterGroup.Append.{total_size_last, lay_last}
use more_modbus.RegisterGroup.Joining.{IsNext}
use more_modbus.RegisterGroup.Adding.{whole_blocks, relaid, add_mapping-whole}
use more_modbus.RegisterGroup.AddingBits.{bit_claims_last, AreLower, bit_blocks, add_mapping-bit}
use more_modbus.ModbusDevice.Shape.{
  is_member, is_member-append, shape, Extent, whole, single, extent_size, IsAt, Precedes,
}
use more_modbus.ModbusDevice.Opening.{block_of, is_member-block_claims}
use more_modbus.ModbusDevice.Growing.{
  Precedes-le, Precedes-lower, Ends-block_of, size_of_block, Gains, IsLaid, IsFilled, IsTaken,
  IsBlock-block_of,
}

gains :
    (id : ℕ) (g : RegisterGroup) (entries more : List Entry)
    → entries ≡ g.mappings ++ more
    → is_member id more ≡ true
    → Gains id g entries
gains id g entries more eq member = (
  ap (is_member id) eq ∙ is_member-append id g.mappings more ∙ ground arith,
  λ x there. ap (is_member x) eq ∙ is_member-append x g.mappings more ∙ ground arith,
)

behind-Gains :
    (id a : ℕ) (g : RegisterGroup) (blocks : List Block) (e : Extent)
    → g.mappings ≡ lay a blocks
    → 0 < extent_size e
    → Gains id g (lay a (blocks ++ (block_of id e ∷ [])))
behind-Gains id a g blocks e laid some =
    let more = block_claims (a + total_size blocks) (block_of id e) in
    gains id g (lay a (blocks ++ (block_of id e ∷ []))) more
      (lay_last a blocks (block_of id e) ∙ ap (λ (t : List Entry). t ++ more) (sym laid))
      (is_member-block_claims id (a + total_size blocks) e some)

among-Gains :
    (id a bit : ℕ) (g : RegisterGroup) (init : List Block) (bs : List (ℕ × ℕ))
    → g.mappings ≡ lay a (init ++ (bits bs ∷ []))
    → Gains id g (lay a (init ++ (bits (bs ++ ((bit, id) ∷ [])) ∷ [])))
among-Gains id a bit g init bs laid =
    let k = a + total_size init in
    let more : List Entry = (bit_claim (pos k) (pos bit), id) ∷ [] in
    gains id g (lay a (init ++ (bits (bs ++ ((bit, id) ∷ [])) ∷ []))) more
      (lay_last a init (bits (bs ++ ((bit, id) ∷ [])))
        ∙ ap (λ t. lay a init ++ t) (sym (bit_claims_last k bit id bs))
        ∙ sym (append_assoc (lay a init) (bit_claims k bs) more)
        ∙ ap (λ (t : List Entry). t ++ more) (sym (lay_last a init (bits bs)) ∙ sym laid))
      (ground arith)

module _ {D : Type 0} where
  next_of :
      (heap : Heap D) (g : RegisterGroup) (id y y' : ℕ) (e e' : Extent) (h : IsFilled heap g y e)
      → IsAt (shape (heap id)) y' e'
      → is_register (heap id).register_type g.register_type ≡ true
      → IsNext heap g id h.a y' (h.init ++ (h.last ∷ []))
  next_of heap g id y y' e e' h at_y same = record {
    laid = h.laid.laid;
    sound = h.laid.sound;
    some = h.laid.some;
    small = h.laid.small;
    same = same;
    readable = at_y.readable;
    open_group = h.open_group;
    start = at_y.starts;
  }

  -- A block behind the others.
  behind :
      (heap : Heap D) (g : RegisterGroup) (id a y : ℕ) (e : Extent) (blocks : List Block)
      → IsLaid heap g a blocks
      → g.read_restricted ≡ false
      → IsAt (shape (heap id)) y e
      → a + total_size blocks ≡ y
      → IsFilled heap (record g { mappings = lay a (blocks ++ (block_of id e ∷ [])) }) y e
  behind heap g id a y e blocks h open_group at_y end =
      let size = size_of_block id e in
      let total = total_size_last blocks (block_of id e) in
      let count = length-append blocks (block_of id e ∷ []) in
      record {
        a = a;
        init = blocks;
        last = block_of id e;
        laid = record {
          laid = refl;
          sound =
              All-append (IsBlock heap) blocks (block_of id e ∷ []) h.sound
                (IsBlock-block_of heap id y e at_y, tt);
          some = omega arith;
          small = omega (arith, at_y.small);
        };
        starts = end;
        ends = Ends-block_of id e;
        open_group = open_group;
      }

  -- One more bit in the last block.
  among :
      (heap : Heap D) (g : RegisterGroup) (id a y bit : ℕ) (init : List Block) (bs : List (ℕ × ℕ))
      → IsLaid heap g a (init ++ (bits bs ∷ []))
      → g.read_restricted ≡ false
      → bit < 16
      → AreLower bit (bits bs)
      → a + total_size init ≡ y
      → IsFilled heap
          (record g { mappings = lay a (init ++ (bits (bs ++ ((bit, id) ∷ [])) ∷ [])) })
          y
          (single bit)
  among heap g id a y bit init bs h open_group below lower here =
      let (sound, own) = All-last (IsBlock heap) init (bits bs) h.sound in
      let total = total_size_last init (bits bs) in
      let total' = total_size_last init (bits (bs ++ ((bit, id) ∷ []))) in
      let count = length-append init (bits (bs ++ ((bit, id) ∷ [])) ∷ []) in
      let count' = length-append bs ((bit, id) ∷ []) in
      record {
        a = a;
        init = init;
        last = bits (bs ++ ((bit, id) ∷ []));
        laid = record {
          laid = refl;
          sound = All-append (IsBlock heap) init _ sound (
            (
              omega arith,
              All-append (λ (b : ℕ × ℕ). b.0 < 16) bs ((bit, id) ∷ []) own.1 (below, tt),
            ),
            tt,
          );
          some = omega arith;
          small = omega (arith, h.small);
        };
        starts = here;
        ends =
            All-append (λ (b : ℕ × ℕ). b.0 < bit + 1) bs ((bit, id) ∷ [])
              (All-imp (λ (b : ℕ × ℕ). b.0 < bit) (λ b. b.0 < bit + 1) bs (λ b k. omega (arith, k))
                lower)
              (omega arith, tt);
        open_group = open_group;
      }

  take_bit :
      (heap : Heap D) (g : RegisterGroup) (id a y bit : ℕ) (init : List Block) (last : Block)
      → IsLaid heap g a (init ++ (last ∷ []))
      → g.read_restricted ≡ false
      → IsAt (shape (heap id)) y (single bit)
      → (a + total_size init ≡ y → AreLower bit last)
      → let r = relaid g a (bit_blocks a init last y id bit) in
        IsTaken heap g id y (single bit) (r.0) (r.1)
  take_bit heap g id a y bit init (registers x n) h open_group at_y lower =
      let total = total_size_last init (registers x n) in
      elim (Bool-cases (y == a + total_size init + n)) [
        | inl end ↦ rw end (
          behind heap g id a y (single bit) (init ++ (registers x n ∷ [])) h open_group at_y
              (ground arith),
          refl,
          behind-Gains id a g (init ++ (registers x n ∷ [])) (single bit) h.laid at_y.some,
        )
        | inr apart ↦ rw apart refl
      ]
  take_bit heap g id a y bit init (bits bs) h open_group at_y lower =
      let total = total_size_last init (bits bs) in
      elim (Bool-cases (y == a + total_size init + 1)) [
        | inl end ↦ rw end (
          behind heap g id a y (single bit) (init ++ (bits bs ∷ [])) h open_group at_y
              (ground arith),
          refl,
          behind-Gains id a g (init ++ (bits bs ∷ [])) (single bit) h.laid at_y.some,
        )
        | inr apart ↦ rw apart (elim (Bool-cases (y == a + total_size init)) [
          | inl here ↦
              let eq : a + total_size init ≡ y = ground arith in
              rw here (
                among heap g id a y bit init bs h open_group at_y.kind.2 (lower eq) eq,
                refl,
                among-Gains id a bit g init bs h.laid,
              )
          | inr gone ↦ rw gone refl
        ])
      ]

  take_whole :
      (heap : Heap D) (g : RegisterGroup) (id a y n : ℕ) (blocks : List Block)
      → IsLaid heap g a blocks
      → g.read_restricted ≡ false
      → IsAt (shape (heap id)) y (whole n)
      → let r = relaid g a (whole_blocks a blocks y id n) in
        IsTaken heap g id y (whole n) (r.0) (r.1)
  take_whole heap g id a y n blocks h open_group at_y =
      elim (Bool-cases (y == a + total_size blocks)) [
        | inl end ↦ rw end (
          behind heap g id a y (whole n) blocks h open_group at_y (ground arith),
          refl,
          behind-Gains id a g blocks (whole n) h.laid at_y.some,
        )
        | inr apart ↦ rw apart refl
      ]

  -- What addMapping makes of the next mapping of the register type.
  pub add_mapping-IsTaken :
      (heap : Heap D) (g : RegisterGroup) (id y y' : ℕ) (e e' : Extent)
      → IsFilled heap g y e
      → IsAt (shape (heap id)) y' e'
      → is_register (heap id).register_type g.register_type ≡ true
      → Precedes y e y' e'
      → (g' : RegisterGroup) × (b : Bool) × (add_mapping heap g id
          ≡ ok (store heap id (set_slave_address (heap id) g.slave_address), g', b))
        × IsTaken heap g id y' e' g' b
  add_mapping-IsTaken heap g id y y' e (whole n) h at_y same order =
      let blocks = h.init ++ (h.last ∷ []) in
      let order' = Precedes-le y y' e (whole n) order in
      let r = relaid g h.a (whole_blocks h.a blocks y' id n) in
      (
        r.0,
        r.1,
        add_mapping-whole heap g id h.a y' n blocks (next_of heap g id y y' e (whole n) h at_y same)
            at_y.kind at_y.counts (omega (arith, h.starts)) (omega (arith, at_y.small)),
        take_whole heap g id h.a y' n blocks h.laid h.open_group at_y,
      )
  add_mapping-IsTaken heap g id y y' e (single bit) h at_y same order =
      let order' = Precedes-le y y' e (single bit) order in
      let r = relaid g h.a (bit_blocks h.a h.init h.last y' id bit) in
      let lower : h.a + total_size h.init ≡ y' → AreLower bit h.last = λ eq.
        Precedes-lower y bit e h.last h.ends
          (subst (λ t. Precedes y e t (single bit)) (sym eq ∙ h.starts) order) in
      (
        r.0,
        r.1,
        add_mapping-bit heap g id h.a y' bit h.init h.last
            (next_of heap g id y y' e (single bit) h at_y same) at_y.kind.0 at_y.kind.1 at_y.kind.2
            (omega (arith, h.starts)) lower,
        take_bit heap g id h.a y' bit h.init h.last h.laid h.open_group at_y lower,
      )
