-- ===== src/ModbusDevice/Rewritable/Tracked.antt =====
-- The list of the mappings that a device rewrites, and their intervals.
use more_modbus.Prelude.{
  ℕ, suc, ◌-◌, ◌≡◌, ◌≢◌, refl, sym, ap, ◌∙◌, ◌⊎◌, inl, inr, false, ◌&&◌, List, [], ◌∷◌, ◌++◌,
  Option, ◌==◌, ==_iff, if◌then◌else◌, get_elem?, set, arith, Bool-cases, Option-cases,
  get_elem?-set_self, get_elem?-set_ne, get_elem?_bound,
}
use mathlib.Core.Option.{some-injective}
use more_modbus.Prelude.Int.{ℤ, pos, ltb_ℤ, ◌==ℤ◌}
use more_modbus.RegisterMapping.{RegisterMapping}
use more_modbus.RegisterGroup.{store}
use more_modbus.ModbusDevice.{ModbusDevice}
use more_modbus.ModbusDevice.Rewritable.{
  find_mapping, erase_mapping, add_rewritable, remove_rewritable, Objects, lock, change_locked,
  pointer_of, set_device, set_repeated_write,
}

-- How often a mapping is in a list.
abbrev pub count : ℕ → List ℕ → ℕ
count id [] = 0
count id (x ∷ rest) = if x == id then suc (count id rest) else count id rest

-- A mapping is to be rewritten if its interval is not 0.
abbrev pub rewrites : {D : Type 0} → RegisterMapping D → ℕ
rewrites m = if ltb_ℤ (pos 0) m.repeated_write then 1 else 0

-- Each mapping with a device is on the device's list once, or not at all if it is not rewritten.
abbrev pub IsTracked : {D : Type 0} → Objects D → Type 0
IsTracked o =
    (id i : ℕ) (d : ModbusDevice)
    → pointer_of o (o.heap id) ≡ Option.some i
    → get_elem? o.devices i ≡ Option.some d
    → count id d.rewrite ≡ rewrites (o.heap id)

find_none : (id : ℕ) (xs : List ℕ) → count id xs ≡ 0 → find_mapping id xs ≡ false
unfolding find_mapping
find_none id [] h = refl
find_none id (x ∷ rest) h = elim (Bool-cases (x == id)) [
  | inl same ↦ absurd (ground arith)
  | inr other ↦ rw other (find_none id rest (ground arith))
]

count_last : (id : ℕ) (xs : List ℕ) → count id (xs ++ (id ∷ [])) ≡ suc (count id xs)
count_last id [] = ground arith
count_last id (x ∷ rest) = ground (arith, count_last id rest)

count_last_other :
    (id other : ℕ) (xs : List ℕ) → other ≢ id → count other (xs ++ (id ∷ [])) ≡ count other xs
count_last_other id other [] apart = ground arith
count_last_other id other (x ∷ rest) apart = ground (arith, count_last_other id other rest apart)

count-erase : (id : ℕ) (xs : List ℕ) → count id (erase_mapping id xs) ≡ count id xs - 1
unfolding erase_mapping
count-erase id [] = refl
count-erase id (x ∷ rest) = elim (Bool-cases (x == id)) [
  | inl same ↦ rw same (omega arith)
  | inr other ↦ rw (other, other) (count-erase id rest)
]

count-erase_other :
    (id other : ℕ) (xs : List ℕ) → other ≢ id → count other (erase_mapping id xs) ≡ count other xs
unfolding erase_mapping
count-erase_other id other [] apart = refl
count-erase_other id other (x ∷ rest) apart = ground (arith, count-erase_other id other rest apart)

-- What a change of a device does to its list, for a mapping that was on it `old` times.
abbrev Moves : (ModbusDevice → ModbusDevice) → ℕ → ℕ → ℕ → Type 0
Moves change id old new =
    (d : ModbusDevice)
    → (count id d.rewrite ≡ old → count id (change d).rewrite ≡ new)
      × ((other : ℕ) → other ≢ id → count other (change d).rewrite ≡ count other d.rewrite)

add_rewritable-Moves : (id : ℕ) → Moves (λ d. add_rewritable d id) id 0 1
unfolding add_rewritable
add_rewritable-Moves id d = (
  λ none. rw (find_none id d.rewrite none) (count_last id d.rewrite ∙ ap suc none),
  λ other apart. elim (Bool-cases (find_mapping id d.rewrite)) [
    | inl there ↦ rw there refl
    | inr new ↦ rw new (count_last_other id other d.rewrite apart)
  ],
)

remove_rewritable-Moves : (id : ℕ) → Moves (λ d. remove_rewritable d id) id 1 0
unfolding remove_rewritable
remove_rewritable-Moves id d = (
  λ once. count-erase id d.rewrite ∙ ap (λ (n : ℕ). n - 1) once,
  λ other apart. count-erase_other id other d.rewrite apart,
)

-- A device after the change of the one that the pointer `p` locks.
change_locked_found :
    (devices : List ModbusDevice) (p : Option ℕ) (change : ModbusDevice → ModbusDevice) (j : ℕ)
    (d' : ModbusDevice)
    → get_elem? (change_locked devices (lock devices p) change) j ≡ Option.some d'
    → ((p ≡ Option.some j)
        × (d : ModbusDevice) × (get_elem? devices j ≡ Option.some d)
        × (change d ≡ d'))
      ⊎ ((p ≢ Option.some j) × (get_elem? devices j ≡ Option.some d'))
change_locked_found devices Option.none change j d' e = inr ((λ x. cc), e)
change_locked_found devices (Option.some i) change j d' e =
    elim (Option-cases (get_elem? devices i)) [
      | inl gone ↦
          let e' : get_elem? devices j ≡ Option.some d' = found_gone gone in
          inr (
            (λ eq.
                let same : get_elem? devices i ≡ get_elem? devices j =
                  ap (get_elem? devices) (some-injective i j eq) in
                cc),
            e',
          )
      | inr (d, there) ↦
          let e' : get_elem? (set devices i (change d)) j ≡ Option.some d' = found_there d there in
          elim (Bool-cases (i == j)) [
            | inl same ↦
                let eq : i ≡ j = (==_iff i j).0 same in
                inl (
                  ap Option.some eq,
                  d,
                  ap (get_elem? devices) (sym eq) ∙ there,
                  some-injective (change d) d' (
                      sym (
                        get_elem?-set_self devices i (change d) (get_elem?_bound devices i d there))
                      ∙ ap (get_elem? (set devices i (change d))) eq
                      ∙ e'),
                )
            | inr other ↦
                let apart : i ≢ j = ground arith in
                inr (
                  (λ eq. apart (some-injective i j eq)),
                  sym (get_elem?-set_ne devices (change d) apart) ∙ e',
                )
          ]
    ]
  where
    locked : Option ModbusDevice → Option ModbusDevice
    locked o =
        get_elem?
          (change_locked devices
            (elim o [ Option.none ↦ Option.none | Option.some x ↦ Option.some (i, x) ]) change)
          j

    found_gone : get_elem? devices i ≡ Option.none → get_elem? devices j ≡ Option.some d'
    found_gone gone = sym (ap locked gone) ∙ e

    found_there :
        (d : ModbusDevice)
        → get_elem? devices i ≡ Option.some d
        → get_elem? (set devices i (change d)) j ≡ Option.some d'
    found_there d there = sym (ap locked there) ∙ e

module _ {D : Type 0} where
  pointer_of_group :
      (o : Objects D) (m m' : RegisterMapping D)
      → m'.group ≡ m.group
      → pointer_of o m' ≡ pointer_of o m
  pointer_of_group o m m' e =
      ap
        (λ (g : Option ℕ). elim (lock o.groups g) [
          | Option.none ↦ Option.none
          | Option.some group ↦ group.1.device
        ])
        e

  -- The device of a mapping is changed along with the mapping.
  change_IsTracked :
      (o : Objects D) (id : ℕ) (m : RegisterMapping D) (change : ModbusDevice → ModbusDevice)
      (old new : ℕ)
      → IsTracked o
      → Moves change id old new
      → m.group ≡ (o.heap id).group
      → rewrites (o.heap id) ≡ old
      → rewrites m ≡ new
      → IsTracked (record (set_device o (o.heap id) change) { heap = store o.heap id m })
  change_IsTracked o id m change old new h moves group was is other i d' pointer found =
      elim (Bool-cases (other == id)) [
        | inl same ↦
            let pointer' : pointer_of o m ≡ Option.some i = rw same at pointer in
            let locked = sym (pointer_of_group o (o.heap id) m group) ∙ pointer' in
            rw (same, (==_iff other id).0 same)
              (elim (change_locked_found o.devices (pointer_of o (o.heap id)) change i d' found) [
                | inl (here, d, there, changed) ↦
                    ap (λ (x : ModbusDevice). count id x.rewrite) (sym changed)
                    ∙ (moves d).0 (h id i d here there ∙ was)
                    ∙ sym is
                | inr (elsewhere, there) ↦ absurd (elsewhere locked)
              ])
        | inr apart ↦
            let pointer' : pointer_of o (o.heap other) ≡ Option.some i = rw apart at pointer in
            rw apart
              (elim (change_locked_found o.devices (pointer_of o (o.heap id)) change i d' found) [
                | inl (here, d, there, changed) ↦
                    ap (λ (x : ModbusDevice). count other x.rewrite) (sym changed)
                    ∙ (moves d).1 other (ground arith)
                    ∙ h other i d pointer' there
                | inr (elsewhere, there) ↦ h other i d' pointer' there
              ])
      ]

  keep_IsTracked :
      (o : Objects D) (id : ℕ) (m : RegisterMapping D)
      → IsTracked o
      → m.group ≡ (o.heap id).group
      → rewrites m ≡ rewrites (o.heap id)
      → IsTracked (record o { heap = store o.heap id m })
  keep_IsTracked o id m h group same_rewrites other i d' pointer found =
      elim (Bool-cases (other == id)) [
        | inl same ↦
            let pointer' : pointer_of o m ≡ Option.some i = rw same at pointer in
            let locked = sym (pointer_of_group o (o.heap id) m group) ∙ pointer' in
            rw (same, (==_iff other id).0 same) (h id i d' locked found ∙ sym same_rewrites)
        | inr apart ↦
            let pointer' : pointer_of o (o.heap other) ≡ Option.some i = rw apart at pointer in
            rw apart (h other i d' pointer' found)
      ]

  -- If the present interval of a mapping and the new one are not negative, setRepeatedWrite keeps
  -- each mapping with a device on its device's list exactly once while its interval is not 0, and
  -- not at all otherwise.
  pub set_repeated_write-IsTracked :
      (o : Objects D) (id : ℕ) (interval : ℤ)
      → IsTracked o
      → ltb_ℤ (o.heap id).repeated_write (pos 0) ≡ false
      → ltb_ℤ interval (pos 0) ≡ false
      → IsTracked (set_repeated_write o id interval)
  unfolding set_repeated_write
  set_repeated_write-IsTracked o id interval h old_sound new_sound =
      let m = record (o.heap id) { repeated_write = interval } in
      let starts = (o.heap id).repeated_write ==ℤ pos 0 && ltb_ℤ (pos 0) interval in
      let stops = ltb_ℤ (pos 0) (o.heap id).repeated_write && interval ==ℤ pos 0 in
      elim (Bool-cases starts) [
        | inl on ↦ rw on (
            change_IsTracked o id m (λ d. add_rewritable d id) 0 1 h (add_rewritable-Moves id) refl
              (ground arith) (ground arith))
        | inr not_on ↦ rw not_on (elim (Bool-cases stops) [
          | inl off ↦ rw off (
              change_IsTracked o id m (λ d. remove_rewritable d id) 1 0 h
                (remove_rewritable-Moves id) refl (ground arith) (ground arith))
          | inr not_off ↦ rw not_off (keep_IsTracked o id m h refl (ground arith))
        ])
      ]
