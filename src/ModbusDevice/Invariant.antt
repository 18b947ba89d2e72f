-- ===== src/ModbusDevice/Invariant.antt =====
-- What holds in the loop of createGroups of ModbusDevice.cpp.
use more_modbus.Prelude.{
  ℕ, ◌≡◌, ◌≢◌, sym, ap, ◌∙◌, subst, Bool, true, false, List, [], ◌∷◌, ◌++◌, Option, ok, arith,
  length, set, get_elem?, if◌then◌else◌, ◌==◌, ◌⊎◌, inl, inr, Bool-cases, All, get_elem?-append,
  get_elem?_last, get_elem?-set_ne, get_elem?-set_self, get_elem?_bound,
}
use mathlib.Core.Option.{some-injective}
use more_modbus.Prelude.Int.{ℤ}
use more_modbus.RegisterMapping.{
  RegisterType, register_type_number, get_starting_address, is_register,
}
use more_modbus.RegisterGroup.{RegisterGroup, Heap}
use more_modbus.RegisterGroup.Layout.{Block}
use more_modbus.ModbusDevice.{ModbusDevice, Grouping}
use more_modbus.ModbusDevice.Shape.{shape, SameShapes, Extent, IsAt, Precedes}
use more_modbus.ModbusDevice.Growing.{IsLaid, IsFilled, IsTaken, AreBlocks-SameShapes}

-- A group is of mappings that are not read, or it is laid out as blocks.
abbrev pub IsSound : {D : Type 0} → Heap D → RegisterGroup → Type 0
IsSound heap g =
    (g.read_restricted ≡ true) ⊎ ((a : ℕ) × (blocks : List Block) × IsLaid heap g a blocks)

abbrev pub IsRestrictedAt : List RegisterGroup → RegisterType → ℕ → Type 0
IsRestrictedAt groups t i =
    (g : RegisterGroup) × (get_elem? groups i ≡ Option.some g)
    × (g.read_restricted ≡ true)
    × (is_register t g.register_type ≡ true)

pub set-IsRestrictedAt :
    (groups : List RegisterGroup) (i : ℕ) (g g' : RegisterGroup) (t : RegisterType) (j : ℕ)
    → get_elem? groups i ≡ Option.some g
    → g'.read_restricted ≡ g.read_restricted
    → g'.register_type ≡ g.register_type
    → IsRestrictedAt groups t j
    → IsRestrictedAt (set groups i g') t j
set-IsRestrictedAt groups i g g' t j found same_res same_type (r, there, res, type_of) =
    elim (Bool-cases (i == j)) [
      | inl same ↦
          let eq : i ≡ j = ground arith in
          let own : g ≡ r = some-injective g r (sym found ∙ ap (get_elem? groups) eq ∙ there) in
          (
            g',
            subst (λ k. get_elem? (set groups i g') k ≡ Option.some g') eq
                (get_elem?-set_self groups i g' (get_elem?_bound groups i g found)),
            same_res ∙ ap (λ (x : RegisterGroup). x.read_restricted) own ∙ res,
            rw same_type (
                subst (λ (x : RegisterGroup). is_register t x.register_type ≡ true) (sym own)
                  type_of),
          )
      | inr apart ↦ (r, get_elem?-set_ne groups g' (ground arith) ∙ there, res, type_of)
    ]

-- A group that was made for its register type.
pub append-IsRestrictedAt :
    (groups : List RegisterGroup) (f : RegisterType → Option ℕ) (t0 : RegisterType)
    (g : RegisterGroup)
    → ((t : RegisterType) (i : ℕ) → f t ≡ Option.some i → IsRestrictedAt groups t i)
    → g.read_restricted ≡ true
    → g.register_type ≡ t0
    → (t : RegisterType) (j : ℕ)
    → (if is_register t t0 then Option.some (length groups) else f t) ≡ Option.some j
    → IsRestrictedAt (groups ++ (g ∷ [])) t j
append-IsRestrictedAt groups f t0 g h closed type_of t j e = elim (Bool-cases (is_register t t0)) [
  | inl same ↦ (
    g,
    subst (λ k. get_elem? (groups ++ (g ∷ [])) k ≡ Option.some g)
        (some-injective (length groups) j (rw same at e)) (get_elem?_last groups g),
    closed,
    rw type_of same,
  )
  | inr other ↦
      let (r, there, res, type_of') = h t j (rw other at e) in
      (r, get_elem?-append groups (g ∷ []) j r there, res, type_of')
]

module _ {D : Type 0} where
  pub IsLaid-SameShapes :
      (heap heap' : Heap D) (g : RegisterGroup) (a : ℕ) (blocks : List Block)
      → SameShapes heap heap'
      → IsLaid heap g a blocks
      → IsLaid heap' g a blocks
  IsLaid-SameShapes heap heap' g a blocks same h = record {
    laid = h.laid;
    sound = AreBlocks-SameShapes heap heap' blocks same h.sound;
    some = h.some;
    small = h.small;
  }

  pub IsSound-SameShapes :
      (heap heap' : Heap D)
      → SameShapes heap heap'
      → (g : RegisterGroup) → IsSound heap g
      → IsSound heap' g
  IsSound-SameShapes heap heap' same g (inl closed) = inl closed
  IsSound-SameShapes heap heap' same g (inr (a, blocks, laid)) =
      inr (a, blocks, IsLaid-SameShapes heap heap' g a blocks same laid)

  pub IsFilled-SameShapes :
      (heap heap' : Heap D) (g : RegisterGroup) (y : ℕ) (e : Extent)
      → SameShapes heap heap'
      → IsFilled heap g y e
      → IsFilled heap' g y e
  IsFilled-SameShapes heap heap' g y e same h = record {
    a = h.a;
    init = h.init;
    last = h.last;
    laid = IsLaid-SameShapes heap heap' g h.a (h.init ++ (h.last ∷ [])) same h.laid;
    starts = h.starts;
    ends = h.ends;
    open_group = h.open_group;
  }

  pub IsTaken-SameShapes :
      (heap heap' : Heap D) (g : RegisterGroup) (id y : ℕ) (e : Extent) (g' : RegisterGroup)
      (b : Bool)
      → SameShapes heap heap'
      → IsTaken heap g id y e g' b
      → IsTaken heap' g id y e g' b
  IsTaken-SameShapes heap heap' g id y e g' false same t = t
  IsTaken-SameShapes heap heap' g id y e g' true same t =
      (IsFilled-SameShapes heap heap' g' y e same (t.0), t.1, t.2)

-- The mappings are those of `heap`; the mapping `id` that is read is at `ys id`, with the extent
-- `es id`.
module _ {D : Type 0} (heap : Heap D) (ys : ℕ → ℕ) (es : ℕ → Extent) where
  -- A mapping that is not read has a starting address.
  abbrev pub IsReady : ℕ → Type 0
  IsReady id =
      (((heap id).read_restricted ≡ true)
        × (start : ℤ) × (get_starting_address (heap id) ≡ ok start))
      ⊎ IsAt (shape (heap id)) (ys id) (es id)

  -- Mappings of one register type that are read come in the order of their registers.
  abbrev pub Follows : ℕ → ℕ → Type 0
  Follows id id' =
      (heap id).read_restricted ≡ false
      → (heap id').read_restricted ≡ false
      → is_register (heap id').register_type (heap id).register_type ≡ true
      → Precedes (ys id) (es id) (ys id') (es id')

  abbrev pub IsSorted : List ℕ → Type 0
  IsSorted [] = Unit {0}
  IsSorted (id ∷ rest) = All (Follows id) rest × IsSorted rest

  -- The group of the last mapping that is read.
  pub record IsLast (groups : List RegisterGroup) (rest : List ℕ) (i : ℕ) : Type 0 where
    pub g : RegisterGroup
    pub id : ℕ
    pub found : get_elem? groups i ≡ Option.some g
    pub filled : IsFilled heap g (ys id) (es id)
    pub type_of :
        register_type_number g.register_type ≡ register_type_number (heap id).register_type
    pub readable : (heap id).read_restricted ≡ false
    pub order : All (Follows id) rest

  abbrev pub IsPrevious : List RegisterGroup → List ℕ → Option ℕ → Type 0
  IsPrevious groups rest Option.none = Unit {0}
  IsPrevious groups rest (Option.some i) = IsLast groups rest i

  -- What holds in the loop, when the mappings `rest` are left.
  pub record IsPlaced (s : Grouping D) (rest : List ℕ) : Type 0 where
    pub shapes : SameShapes heap s.heap
    pub sound : All (IsSound heap) s.all_groups
    pub restricted :
        (t : RegisterType) (i : ℕ)
        → s.restricted t ≡ Option.some i
        → IsRestrictedAt s.all_groups t i
    pub previous : IsPrevious s.all_groups rest s.previous

  pub filled_IsSound :
      (g : RegisterGroup) (y : ℕ) (e : Extent) → IsFilled heap g y e → IsSound heap g
  filled_IsSound g y e h = inr (h.a, h.init ++ (h.last ∷ []), h.laid)

  -- The next mapping leaves the group of the last mapping that is read as it is.
  pub IsLast-skip :
      (groups : List RegisterGroup) (id : ℕ) (rest : List ℕ) (o : Option ℕ)
      → IsPrevious groups (id ∷ rest) o
      → IsPrevious groups rest o
  IsLast-skip groups id rest Option.none h = tt
  IsLast-skip groups id rest (Option.some i) h = record {
    g = h.g;
    id = h.id;
    found = h.found;
    filled = h.filled;
    type_of = h.type_of;
    readable = h.readable;
    order = h.order.1;
  }

  pub IsPrevious-append :
      (groups more : List RegisterGroup) (rest : List ℕ) (o : Option ℕ)
      → IsPrevious groups rest o
      → IsPrevious (groups ++ more) rest o
  IsPrevious-append groups more rest Option.none h = tt
  IsPrevious-append groups more rest (Option.some i) h = record {
    g = h.g;
    id = h.id;
    found = get_elem?-append groups more i h.g h.found;
    filled = h.filled;
    type_of = h.type_of;
    readable = h.readable;
    order = h.order;
  }

  -- Nor is it changed by a mapping that joins a group of mappings that are not read.
  pub IsPrevious-set :
      (groups : List RegisterGroup) (j : ℕ) (r g' : RegisterGroup) (rest : List ℕ) (o : Option ℕ)
      → get_elem? groups j ≡ Option.some r
      → r.read_restricted ≡ true
      → IsPrevious groups rest o
      → IsPrevious (set groups j g') rest o
  IsPrevious-set groups j r g' rest Option.none found closed h = tt
  IsPrevious-set groups j r g' rest (Option.some i) found closed h =
      let apart : j ≢ i = λ e.
        (let own : r ≡ h.g = some-injective r h.g (sym found ∙ ap (get_elem? groups) e ∙ h.found) in
          let closed' : h.g.read_restricted ≡ true =
            ap (λ (x : RegisterGroup). x.read_restricted) (sym own) ∙ closed in
          let open_group = h.filled.open_group in cc) in
      record {
        g = h.g;
        id = h.id;
        found = get_elem?-set_ne groups g' apart ∙ h.found;
        filled = h.filled;
        type_of = h.type_of;
        readable = h.readable;
        order = h.order;
      }

  -- The list of mappings to rewrite has no part in it.
  pub IsPlaced-device :
      (s : Grouping D) (rest : List ℕ) (device : ModbusDevice)
      → IsPlaced s rest
      → IsPlaced (record s { device = device }) rest
  IsPlaced-device s rest device h = record {
    shapes = h.shapes;
    sound = h.sound;
    restricted = h.restricted;
    previous = h.previous;
  }
