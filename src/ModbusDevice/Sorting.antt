-- ===== src/ModbusDevice/Sorting.antt =====
-- The set of createGroups of ModbusDevice.cpp: it is in order, and it holds each mapping that it
-- was given, or one that compares equal.
use more_modbus.Prelude.{
  ℕ, ◌≡◌, refl, ap, ◌∙◌, Bool, true, false, ◌||◌, List, [], ◌∷◌, ok, ◌>>=◌, if◌then◌else◌, All,
  All-imp, ◌==◌, Bool-cases, inl, inr, arith,
}
use more_modbus.Prelude.Int.{ℤ}
use more_modbus.RegisterMapping.{get_starting_address}
use more_modbus.RegisterGroup.{Heap}
use more_modbus.ModbusDevice.{insert_mapping, mapping_set}
use more_modbus.ModbusDevice.Order.{
  key_less, key_less_trans, key_less_irrefl, key_at, mapping_less-key_less,
}

abbrev pub is_in : ℕ → List ℕ → Bool
is_in id [] = false
is_in id (x ∷ rest) = x == id || is_in id rest

-- The mapping `id` starts at `starts id`.
module _ {D : Type 0} (heap : Heap D) (starts : ℕ → ℤ) where
  abbrev pub HasStart : ℕ → Type 0
  HasStart id = get_starting_address (heap id) ≡ ok (starts id)

  abbrev pub less : ℕ → ℕ → Bool
  less id other = key_less (key_at (heap id) (starts id)) (key_at (heap other) (starts other))

  abbrev pub IsOrdered : List ℕ → Type 0
  IsOrdered [] = Unit {0}
  IsOrdered (id ∷ rest) = All (λ x. less id x ≡ true) rest × IsOrdered rest

  -- A list has a mapping that compares equal.
  abbrev pub IsHeld : List ℕ → ℕ → Type 0
  IsHeld sorted id = (x : ℕ) × (is_in x sorted ≡ true) × (less id x ≡ false) × (less x id ≡ false)

  -- What insertion does, without the errors.
  insert : ℕ → List ℕ → List ℕ
  insert id [] = id ∷ []
  insert id (other ∷ rest) =
      let more = insert id rest in
      if less id other
      then id ∷ other ∷ rest
      else if less other id
      then other ∷ more
      else other ∷ rest

  insert_mapping-eq_ok :
      (id : ℕ) (sorted : List ℕ)
      → HasStart id
      → All HasStart sorted
      → insert_mapping heap id sorted ≡ ok (insert id sorted)
  unfolding insert_mapping insert
  insert_mapping-eq_ok id [] h k = refl
  insert_mapping-eq_ok id (other ∷ rest) h k =
      rw
        (
          mapping_less-key_less (heap id) (heap other) (starts id) (starts other) h (k.0),
          mapping_less-key_less (heap other) (heap id) (starts other) (starts id) (k.0) h,
          insert_mapping-eq_ok id rest h (k.1),
        )
        refl

  insert-All :
      (P : ℕ → Type 0) (id : ℕ) (sorted : List ℕ) → P id → All P sorted → All P (insert id sorted)
  unfolding insert
  insert-All P id [] h k = (h, tt)
  insert-All P id (other ∷ rest) h k = elim (Bool-cases (less id other)) [
    | inl before ↦ rw before (h, k)
    | inr not_before ↦ rw not_before (elim (Bool-cases (less other id)) [
      | inl after ↦ rw after (k.0, insert-All P id rest h (k.1))
      | inr same ↦ rw same k
    ])
  ]

  insert-IsOrdered : (id : ℕ) (sorted : List ℕ) → IsOrdered sorted → IsOrdered (insert id sorted)
  unfolding insert
  insert-IsOrdered id [] h = (tt, tt)
  insert-IsOrdered id (other ∷ rest) h = elim (Bool-cases (less id other)) [
    | inl before ↦
        let beyond =
          All-imp (λ x. less other x ≡ true) (λ x. less id x ≡ true) rest
            (λ x later.
              key_less_trans (key_at (heap id) (starts id)) (key_at (heap other) (starts other))
                (key_at (heap x) (starts x)) before later)
            h.0 in
        rw before ((before, beyond), h)
    | inr not_before ↦ rw not_before (elim (Bool-cases (less other id)) [
      | inl after ↦
          rw after
            (insert-All (λ x. less other x ≡ true) id rest after h.0, insert-IsOrdered id rest h.1)
      | inr same ↦ rw same h
    ])
  ]

  insert-keeps :
      (id x : ℕ) (sorted : List ℕ) → is_in x sorted ≡ true → is_in x (insert id sorted) ≡ true
  unfolding insert
  insert-keeps id x [] h = cc
  insert-keeps id x (other ∷ rest) h = elim (Bool-cases (less id other)) [
    | inl before ↦ rw before (ground arith)
    | inr not_before ↦ rw not_before (elim (Bool-cases (less other id)) [
      | inl after ↦ rw after (ground (arith, insert-keeps id x rest))
      | inr same ↦ rw same h
    ])
  ]

  insert-IsHeld : (id : ℕ) (sorted : List ℕ) → IsHeld (insert id sorted) id
  unfolding insert
  insert-IsHeld id [] =
      let still = key_less_irrefl (key_at (heap id) (starts id)) in (id, ground arith, still, still)
  insert-IsHeld id (other ∷ rest) = elim (Bool-cases (less id other)) [
    | inl before ↦
        let still = key_less_irrefl (key_at (heap id) (starts id)) in
        rw before (id, ground arith, still, still)
    | inr not_before ↦ rw not_before (elim (Bool-cases (less other id)) [
      | inl after ↦
          let (x, there, left, right) = insert-IsHeld id rest in
          rw after (x, ground arith, left, right)
      | inr same ↦ rw same (other, ground arith, not_before, same)
    ])
  ]

  -- The set of mappings that have starts is in the order of the comparison, and holds each of them,
  -- or one that compares equal. What is true of all of them is true of the set.
  pub mapping_set-IsOrdered :
      (P : ℕ → Type 0) (sorted ids : List ℕ)
      → ((x : ℕ) → P x → HasStart x)
      → All P sorted
      → All P ids
      → IsOrdered sorted
      → (result : List ℕ) × (mapping_set heap sorted ids ≡ ok result)
        × All P result
        × IsOrdered result
        × ((x : ℕ) → is_in x sorted ≡ true → is_in x result ≡ true)
        × All (IsHeld result) ids
  unfolding mapping_set
  mapping_set-IsOrdered P sorted [] imp p q order = (sorted, refl, p, order, (λ x h. h), tt)
  mapping_set-IsOrdered P sorted (id ∷ rest) imp p q order =
      let (result, done, all, order', keeps, held) =
        mapping_set-IsOrdered P (insert id sorted) rest imp (insert-All P id sorted (q.0) p) (q.1)
          (insert-IsOrdered id sorted order) in
      let (x, there, left, right) = insert-IsHeld id sorted in
      (
        result,
        ap (λ r. r >>= λ sorted'. mapping_set heap sorted' rest)
              (insert_mapping-eq_ok id sorted (imp id (q.0)) (All-imp P HasStart sorted imp p))
            ∙ done,
        all,
        order',
        (λ y h. keeps y (insert-keeps id y sorted h)),
        ((x, keeps x there, left, right), held),
      )
