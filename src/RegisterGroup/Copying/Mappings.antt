-- ===== src/RegisterGroup/Copying/Mappings.antt =====
-- The mappings that RegisterGroup(const RegisterGroup&) of RegisterGroup.cpp makes.
use more_modbus.Prelude.{
  ℕ, suc, ◌+◌, ◌<◌, ◌≤◌, ◌≡◌, refl, ap, ◌∙◌, true, false, List, [], ◌∷◌, All, All-imp, Bool-cases,
  inl, inr, arith, ◌==◌, Option, get_elem?,
}
use more_modbus.RegisterMapping.{RegisterMapping, plain_mapping, set_slave_address}
use more_modbus.RegisterGroup.{
  RegisterGroup, Entry, Heap, store, emplace, claim_less, get_mappings_map, get_mappings_claims,
  map_of,
}
use more_modbus.RegisterGroup.Copying.{copied, copy_entries, copy_group}
use more_modbus.RegisterGroup.Copying.Claims.{map_of-All, copy_group-claims}
use more_modbus.RegisterGroup.Copying.Order.{IsOrdered}
use more_modbus.Prelude.Int.{negsuc}

abbrev pub IsIn : List Entry → Entry → Type 0
IsIn entries e = (i : ℕ) × (get_elem? entries i ≡ Option.some e)

All-IsIn : (entries : List Entry) → All (IsIn entries) entries
All-IsIn [] = tt
All-IsIn (e ∷ rest) =
    ((0, refl), All-imp (IsIn rest) (IsIn (e ∷ rest)) rest (λ d h. (suc h.0, h.1)) (All-IsIn rest))

All-both :
    (P Q : Entry → Type 0) (entries : List Entry)
    → All P entries
    → All Q entries
    → All (λ e. P e × Q e) entries
All-both P Q [] h k = tt
All-both P Q (e ∷ rest) h k = ((h.0, k.0), All-both P Q rest h.1 k.1)

-- No two claims are of one mapping.
abbrev pub AreDistinct : List Entry → Type 0
AreDistinct [] = Unit {0}
AreDistinct (e ∷ rest) = All (λ (d : Entry). (d.1 == e.1) ≡ false) rest × AreDistinct rest

emplace-All :
    (P : Entry → Type 0) (e : Entry) (entries : List Entry)
    → P e
    → All P entries
    → All P (emplace e entries)
unfolding emplace
emplace-All P e [] h k = (h, tt)
emplace-All P e (d ∷ rest) h k = elim (Bool-cases (claim_less (e.0) (d.0))) [
  | inl before ↦ rw before (h, k)
  | inr not_before ↦ rw not_before (elim (Bool-cases (claim_less (d.0) (e.0))) [
    | inl after ↦ rw after (k.0, emplace-All P e rest h k.1)
    | inr same ↦ rw same k
  ])
]

emplace-AreDistinct :
    (e : Entry) (entries : List Entry)
    → All (λ (d : Entry). d.1 < e.1) entries
    → AreDistinct entries
    → AreDistinct (emplace e entries)
unfolding emplace
emplace-AreDistinct e [] h k = (tt, tt)
emplace-AreDistinct e (d ∷ rest) h k = elim (Bool-cases (claim_less (e.0) (d.0))) [
  | inl before ↦ rw before (
    All-imp (λ (x : Entry). x.1 < e.1) (λ (x : Entry). (x.1 == e.1) ≡ false) (d ∷ rest)
        (λ x l. ground arith) h,
    k,
  )
  | inr not_before ↦ rw not_before (elim (Bool-cases (claim_less (d.0) (e.0))) [
    | inl after ↦
        let apart : (e.1 == d.1) ≡ false = ground (arith, h.0) in
        rw after (
          emplace-All (λ (x : Entry). (x.1 == d.1) ≡ false) e rest apart k.0,
          emplace-AreDistinct e rest h.1 k.1,
        )
    | inr same ↦ rw same k
  ])
]

store_below :
    {D : Type 0} (heap : Heap D) (next id : ℕ) (m : RegisterMapping D)
    → id < next
    → store heap next m id ≡ heap id
store_below heap next id m h = let apart : (id == next) ≡ false = ground arith in rw apart refl

store_self :
    {D : Type 0} (heap : Heap D) (next : ℕ) (m : RegisterMapping D) → store heap next m next ≡ m
store_self heap next m = let same : (next == next) ≡ true = ground arith in rw same refl

-- A mapping of the base class, on no slave, which is otherwise the same.
abbrev pub as_copied : {D : Type 0} → RegisterMapping D → RegisterMapping D
as_copied m = record m { slave_address = negsuc 0; typed = plain_mapping }

copied_lem : {D : Type 0} (m : RegisterMapping D) → copied m ≡ as_copied m
unfolding copied set_slave_address
copied_lem m = refl

module _ {D : Type 0} (start : ℕ) (before : Heap D) (g : RegisterGroup) where
  -- An entry of the copy: its mapping is new, and a copy of the one with this claim.
  abbrev pub IsCopy : Heap D → Entry → Type 0
  IsCopy heap e =
      (start ≤ e.1) × ((x : ℕ) × (IsIn g.mappings (e.0, x)) × (heap (e.1) ≡ as_copied (before x)))

  abbrev IsCopied : ℕ → Heap D → List Entry → Type 0
  IsCopied next heap acc =
      (start ≤ next)
      × ((id : ℕ) → id < start → heap id ≡ before id)
      × All (λ (e : Entry). (e.1 < next) × IsCopy heap e) acc
      × AreDistinct acc

  copy_entries-IsCopied :
      (next : ℕ) (heap : Heap D) (acc entries : List Entry)
      → IsCopied next heap acc
      → All (λ (e : Entry). (e.1 < start) × IsIn g.mappings e) entries
      → (let r = copy_entries next heap acc entries in IsCopied (r.0) (r.1) (r.2))
  unfolding copy_entries
  copy_entries-IsCopied next heap acc [] h k = h
  copy_entries-IsCopied next heap acc (e ∷ rest) h k =
      copy_entries-IsCopied (next + 1) (store heap next (copied (heap (e.1))))
        (emplace (e.0, next) acc) rest
        (
          omega (arith, h.0),
          λ id l. store_below heap next id (copied (heap (e.1))) (omega (arith, h.0)) ∙ h.1 id l,
          emplace-All
              (λ (d : Entry). (d.1 < next + 1) × IsCopy (store heap next (copied (heap (e.1)))) d)
              (e.0, next) acc
              (
                omega arith,
                (
                  h.0,
                  (
                    e.1,
                    k.0.1,
                    store_self heap next (copied (heap (e.1)))
                        ∙ copied_lem (heap (e.1))
                        ∙ ap as_copied (h.1 (e.1) k.0.0),
                  ),
                ),
              )
              (All-imp (λ (d : Entry). (d.1 < next) × IsCopy heap d)
                (λ (d : Entry). (d.1 < next + 1) × IsCopy (store heap next (copied (heap (e.1)))) d)
                acc
                (λ d c.
                  let (x, there, same) = c.1.1 in
                  (
                    omega (arith, c.0),
                    (
                      c.1.0,
                      (x, there, store_below heap next (d.1) (copied (heap (e.1))) c.0 ∙ same),
                    ),
                  ))
                h.2),
          emplace-AreDistinct (e.0, next) acc
              (All-imp (λ (d : Entry). (d.1 < next) × IsCopy heap d) (λ (d : Entry). d.1 < next) acc
                (λ d c. c.0) h.2)
              h.3,
        )
        k.1

module _ {D : Type 0} where
  -- When the mappings of a group are numbered below `next` and its claims are in the order of its
  -- set, copying the group leaves them as they are. The copy has the same claims, each with a mapping
  -- of its own, from `next` on: a mapping of the base class on the slave -1, which is otherwise the
  -- same as the mapping that makes this claim in the group. So a mapping that makes several claims
  -- becomes as many mappings.
  pub copy_group-AreDistinct :
      (next : ℕ) (heap : Heap D) (g : RegisterGroup)
      → All (λ (e : Entry). e.1 < next) g.mappings
      → IsOrdered (get_mappings_claims g)
      → (let r = copy_group next heap g in
          (get_mappings_claims (r.2) ≡ get_mappings_claims g)
          × ((id : ℕ) → id < next → r.1 id ≡ heap id)
          × AreDistinct (r.2).mappings
          × All (IsCopy next heap g (r.1)) (r.2).mappings)
  unfolding copy_group get_mappings_map
  copy_group-AreDistinct next heap g h ordered =
      let r = copy_entries next heap [] (map_of [] g.mappings) in
      let c =
        copy_entries-IsCopied next heap g next heap [] (map_of [] g.mappings)
          (omega arith, (λ id _. refl), tt, tt)
          (map_of-All (λ (e : Entry). (e.1 < next) × IsIn g.mappings e) [] g.mappings tt
            (All-both (λ (e : Entry). e.1 < next) (IsIn g.mappings) g.mappings h
              (All-IsIn g.mappings))) in
      (
        copy_group-claims next heap g ordered,
        c.1,
        c.3,
        All-imp (λ (e : Entry). (e.1 < r.0) × IsCopy next heap g (r.1) e) (IsCopy next heap g (r.1))
            (r.2) (λ e d. d.1) c.2,
      )
