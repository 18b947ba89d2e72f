-- ===== src/ModbusDevice/Membership.antt =====
-- Where a mapping goes in the loop of createGroups of ModbusDevice.cpp, and that it stays there.
use more_modbus.Prelude.{
  ℕ, ◌≡◌, ◌≢◌, refl, sym, ap, ◌∙◌, subst, ◌⊎◌, inl, inr, true, List, [], ◌∷◌, ◌++◌, Option, ◌==◌,
  ==_iff, All, get_elem?, set, arith, Bool-cases, get_elem?-append, get_elem?-set_self,
  get_elem?-set_ne, get_elem?_bound,
}
use mathlib.Core.Option.{some-injective}
use more_modbus.RegisterGroup.{RegisterGroup, Heap}
use more_modbus.ModbusDevice.{ModbusDevice, Grouping}
use more_modbus.ModbusDevice.Shape.{is_member, IsPut}

-- A group later on: no mapping has lost its last claim, unless the group's mappings are not read.
abbrev pub Grows : RegisterGroup → RegisterGroup → Type 0
Grows g g' =
    (g'.read_restricted ≡ g.read_restricted)
    × ((g.read_restricted ≡ true)
        ⊎ ((x : ℕ) → is_member x g.mappings ≡ true → is_member x g'.mappings ≡ true))

abbrev pub Evolves : List RegisterGroup → List RegisterGroup → Type 0
Evolves groups groups' =
    (i : ℕ) (g : RegisterGroup)
    → get_elem? groups i ≡ Option.some g
    → (g' : RegisterGroup) × (get_elem? groups' i ≡ Option.some g') × Grows g g'

pub append-Evolves : (groups more : List RegisterGroup) → Evolves groups (groups ++ more)
append-Evolves groups more i g found =
    (g, get_elem?-append groups more i g found, (refl, inr (λ x h. h)))

pub set-Evolves :
    (groups : List RegisterGroup) (i : ℕ) (g g' : RegisterGroup)
    → get_elem? groups i ≡ Option.some g
    → Grows g g'
    → Evolves groups (set groups i g')
set-Evolves groups i g g' found grows j x there = elim (Bool-cases (i == j)) [
  | inl same ↦
      let eq : i ≡ j = (==_iff i j).0 same in
      let own : g ≡ x = some-injective g x (sym found ∙ ap (get_elem? groups) eq ∙ there) in
      (
        g',
        subst (λ k. get_elem? (set groups i g') k ≡ Option.some g') eq
            (get_elem?-set_self groups i g' (get_elem?_bound groups i g found)),
        subst (λ (y : RegisterGroup). Grows y g') own grows,
      )
  | inr apart ↦ (x, get_elem?-set_ne groups g' (ground arith) ∙ there, (refl, inr (λ y h. h)))
]

module _ {D : Type 0} (heap : Heap D) where
  -- A mapping's group is there, and is read if the mapping is, in which case it has a claim of it.
  abbrev pub IsHome : Heap D → List RegisterGroup → ℕ → Type 0
  IsHome heap' groups id =
      (i : ℕ) × (g : RegisterGroup) × ((heap' id).group ≡ Option.some i)
      × (get_elem? groups i ≡ Option.some g)
      × (g.read_restricted ≡ (heap id).read_restricted)
      × (((heap id).read_restricted ≡ true) ⊎ (is_member id g.mappings ≡ true))

  pub record IsMoved (s s' : Grouping D) (id : ℕ) : Type 0 where
    pub i : ℕ
    pub g : RegisterGroup
    pub put : IsPut s.heap s'.heap id i
    pub evolves : Evolves s.all_groups s'.all_groups
    pub found : get_elem? s'.all_groups i ≡ Option.some g
    pub like : g.read_restricted ≡ (heap id).read_restricted
    pub member : ((heap id).read_restricted ≡ true) ⊎ (is_member id g.mappings ≡ true)

  pub moved-IsHome :
      (s s' : Grouping D) (id : ℕ) → IsMoved s s' id → IsHome s'.heap s'.all_groups id
  moved-IsHome s s' id m = (m.i, m.g, m.put.0, m.found, m.like, m.member)

  stays :
      (s s' : Grouping D) (id other : ℕ)
      → IsMoved s s' id
      → other ≢ id
      → IsHome s.heap s.all_groups other
      → IsHome s'.heap s'.all_groups other
  stays s s' id other m apart (i, g, group, found, like, member) =
      let (g', found', (like', grows)) = m.evolves i g found in
      (
        i,
        g',
        m.put.1 other apart ∙ group,
        found',
        like' ∙ like,
        elim member [
          | inl closed ↦ inl closed
          | inr there ↦ elim grows [
            | inl closed ↦ inl (sym like ∙ closed)
            | inr more ↦ inr (more other there)
          ]
        ],
      )

  -- A mapping has a group after it or another one was placed.
  pub moved-All :
      (s s' : Grouping D) (id : ℕ) (done : List ℕ)
      → IsMoved s s' id
      → All (IsHome s.heap s.all_groups) done
      → All (IsHome s'.heap s'.all_groups) done
  moved-All s s' id [] m h = tt
  moved-All s s' id (x ∷ rest) m h = (
    elim (Bool-cases (x == id)) [
      | inl same ↦
          subst (IsHome s'.heap s'.all_groups) (sym ((==_iff x id).0 same)) (moved-IsHome s s' id m)
      | inr apart ↦ stays s s' id x m (ground arith) (h.0)
    ],
    moved-All s s' id rest m (h.1),
  )

  -- The list of mappings to rewrite has no part in it.
  pub IsMoved-device :
      (s s' : Grouping D) (id : ℕ) (device : ModbusDevice)
      → IsMoved (record s { device = device }) s' id
      → IsMoved s s' id
  IsMoved-device s s' id device m = record {
    i = m.i;
    g = m.g;
    put = m.put;
    evolves = m.evolves;
    found = m.found;
    like = m.like;
    member = m.member;
  }
