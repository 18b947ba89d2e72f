-- ===== src/ModbusDevice/Growing.antt =====
-- The group that createGroups of ModbusDevice.cpp filled last, and whether it takes the next
-- mapping.
use more_modbus.Prelude.{
  ℕ, ◌+◌, ◌^◌, ◌≤◌, ◌<◌, ◌≡◌, refl, ap, ◌∙◌, Bool, true, false, List, [], ◌∷◌, ◌++◌, arith, length,
  inl, inr, All, All-imp,
}
use more_modbus.RegisterGroup.{Entry, RegisterGroup, Heap}
use more_modbus.RegisterGroup.Layout.{
  Block, registers, bits, block_size, total_size, lay, IsBlock, AreBlocks,
}
use more_modbus.RegisterGroup.AddingBits.{AreLower}
use more_modbus.ModbusDevice.Shape.{
  is_member, Shape, shape, SameShapes, Extent, whole, single, extent_size, IsAt, Precedes,
}
use more_modbus.ModbusDevice.Opening.{block_of}

-- The block that the last mapping, with this extent, is in.
abbrev pub Ends : Extent → Block → Type 0
Ends (whole n) (registers id k) = Unit {0}
Ends (single bit) (bits bs) = All (λ b. b.0 < bit + 1) bs
Ends e b = ⊥

pub Precedes-le : (y y' : ℕ) (e e' : Extent) → Precedes y e y' e' → y ≤ y'
Precedes-le y y' (single b) (single b') (inl l) = omega arith
Precedes-le y y' (single b) (single b') (inr l) = omega (arith, l.0)
Precedes-le y y' (single b) (whole n) h = h
Precedes-le y y' (whole n) (single b) h = h
Precedes-le y y' (whole n) (whole k) h = h

pub Precedes-lower :
    (y bit : ℕ) (e : Extent) (last : Block)
    → Ends e last
    → Precedes y e y (single bit)
    → AreLower bit last
Precedes-lower y bit (whole n) (registers id k) ends h = tt
Precedes-lower y bit (whole n) (bits bs) ends h = absurd ends
Precedes-lower y bit (single b) (registers id k) ends h = absurd ends
Precedes-lower y bit (single b) (bits bs) ends (inl l) = absurd (omega arith)
Precedes-lower y bit (single b) (bits bs) ends (inr l) =
    All-imp (λ (x : ℕ × ℕ). x.0 < b + 1) (λ x. x.0 < bit) bs (λ x k. omega (arith, k, l.1)) ends

pub Ends-block_of : (id : ℕ) (e : Extent) → Ends e (block_of id e)
Ends-block_of id (whole n) = tt
Ends-block_of id (single bit) = (omega arith, tt)

pub size_of_block : (id : ℕ) (e : Extent) → block_size (block_of id e) ≡ extent_size e
size_of_block id (whole n) = refl
size_of_block id (single bit) = refl

-- The claims of a group after the mapping `id` joined: it has one, and no mapping has lost all.
abbrev pub Gains : ℕ → RegisterGroup → List Entry → Type 0
Gains id g entries =
    (is_member id entries ≡ true)
    × ((x : ℕ) → is_member x g.mappings ≡ true → is_member x entries ≡ true)

module _ {D : Type 0} where
  -- A group that is read is laid out as blocks, all below 2^15.
  pub record IsLaid (heap : Heap D) (g : RegisterGroup) (a : ℕ) (blocks : List Block) : Type 0 where
    pub laid : g.mappings ≡ lay a blocks
    pub sound : AreBlocks heap blocks
    pub some : 0 < length blocks
    pub small : a + total_size blocks ≤ 2 ^ 15

  pub AreBlocks-SameShapes :
      (heap heap' : Heap D) (blocks : List Block)
      → SameShapes heap heap'
      → AreBlocks heap blocks
      → AreBlocks heap' blocks
  AreBlocks-SameShapes heap heap' [] same h = tt
  AreBlocks-SameShapes heap heap' (registers id n ∷ rest) same h = (
    (h.0.0, ap (λ (t : Shape). t.count) (same id) ∙ h.0.1),
    AreBlocks-SameShapes heap heap' rest same h.1,
  )
  AreBlocks-SameShapes heap heap' (bits bs ∷ rest) same h =
      (h.0, AreBlocks-SameShapes heap heap' rest same h.1)

  -- The group that is filled, whose last mapping starts at `y`.
  pub record IsFilled (heap : Heap D) (g : RegisterGroup) (y : ℕ) (e : Extent) : Type 0 where
    pub a : ℕ
    pub init : List Block
    pub last : Block
    pub laid : IsLaid heap g a (init ++ (last ∷ []))
    pub starts : a + total_size init ≡ y
    pub ends : Ends e last
    pub open_group : g.read_restricted ≡ false

  -- What addMapping returns for the next mapping: the group as it was, or filled up to the mapping.
  abbrev pub IsTaken : Heap D → RegisterGroup → ℕ → ℕ → Extent → RegisterGroup → Bool → Type 0
  IsTaken heap g id y e g' false = g' ≡ g
  IsTaken heap g id y e g' true =
      IsFilled heap g' y e × (g'.register_type ≡ g.register_type) × Gains id g g'.mappings

  -- A mapping makes a block of its own.
  pub IsBlock-block_of :
      (heap : Heap D) (id y : ℕ) (e : Extent)
      → IsAt (shape (heap id)) y e
      → IsBlock heap (block_of id e)
  IsBlock-block_of heap id y (whole n) h = (h.some, h.counts)
  IsBlock-block_of heap id y (single bit) h = (omega arith, (h.kind.2, tt))

  -- A group of one mapping.
  pub IsFilled-block_of :
      (heap : Heap D) (g : RegisterGroup) (id y : ℕ) (e : Extent)
      → IsAt (shape (heap id)) y e
      → g.mappings ≡ lay y (block_of id e ∷ [])
      → g.read_restricted ≡ false
      → IsFilled heap g y e
  IsFilled-block_of heap g id y e at_y laid open_group = record {
    a = y;
    init = [];
    last = block_of id e;
    laid = record {
      laid = laid;
      sound = (IsBlock-block_of heap id y e at_y, tt);
      some = omega arith;
      small = omega (arith, size_of_block id e, at_y.small);
    };
    starts = omega arith;
    ends = Ends-block_of id e;
    open_group = open_group;
  }
