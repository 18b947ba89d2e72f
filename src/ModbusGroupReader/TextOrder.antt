-- ===== src/ModbusGroupReader/TextOrder.antt =====
-- Coils and input contacts: getMappingsMap sorts the claims as texts, the values come by address.
use more_modbus.Prelude.{
  ℕ, zero, suc, ◌+◌, ◌≤◌, ◌≡◌, refl, sym, ap, subst, ◌∙◌, Bool, true, false, List, [], ◌∷◌, ◌++◌,
  Option, some, ok, ◌>>=◌, arith, ◌==◌, if◌then◌else◌, length, get_elem?, get_elem?-total,
  All-get_elem?, ==_false_symm, All,
}
use mathlib.Core.List.{append_assoc, append-nil}
use native.Mathlib.Nat.{add-zero, zero-add}
use mathlib.Core.Option.{some-injective}
use more_modbus.Prelude.Int.{ℤ}
use more_modbus.RegisterMapping.{RegisterMapping}
use more_modbus.RegisterMapping.Update.{does_update_bool, update_bool}
use more_modbus.RegisterGroup.{
  RegisterGroup, Entry, Heap, text_less, map_emplace, map_of, get_mappings_map,
}
use more_modbus.ModbusGroupReader.{
  Pass, Notice, at, at-some, pass_bool, pass_bools, pass_bool_values,
}

-- Every earlier claim is the smaller text.
abbrev pub Above : List Entry → Entry → Type 0
Above acc e =
    All (λ (d : Entry). (text_less (e.0) (d.0) ≡ false) × (text_less (d.0) (e.0) ≡ true)) acc

abbrev pub InTextOrder : List Entry → List Entry → Type 0
InTextOrder acc [] = Unit {0}
InTextOrder acc (e ∷ rest) = Above acc e × InTextOrder (acc ++ (e ∷ [])) rest

map_emplace_last :
    (acc : List Entry) (e : Entry) → Above acc e → map_emplace e acc ≡ acc ++ (e ∷ [])
unfolding map_emplace
map_emplace_last [] e h = refl
map_emplace_last (d ∷ acc) e h =
    rw (h.0.0, h.0.1) (ap (λ (t : List Entry). d ∷ t) (map_emplace_last acc e h.1))

map_of_sorted :
    (acc entries : List Entry) → InTextOrder acc entries → map_of acc entries ≡ acc ++ entries
unfolding map_of
map_of_sorted acc [] h = sym (append-nil acc)
map_of_sorted acc (e ∷ rest) h =
    rw (map_emplace_last acc e h.0)
      (map_of_sorted (acc ++ (e ∷ [])) rest h.1 ∙ append_assoc acc (e ∷ []) rest)

-- No two claims are of one mapping.
abbrev pub DistinctMappings : List Entry → Type 0
DistinctMappings [] = Unit {0}
DistinctMappings (e ∷ rest) = All (λ (d : Entry). (d.1 == e.1) ≡ false) rest × DistinctMappings rest

module _ {D : Type 0} where
  -- A mapping after a value was offered to it.
  abbrev pub next_bool : ℤ → RegisterMapping D → Bool → RegisterMapping D
  next_bool now m v = if does_update_bool now m v then (update_bool now m v).0 else m

  pass_bool_self :
      (now : ℤ) (device : Option ℕ) (id : ℕ) (v : Bool) (heap : Heap D) (ns : List Notice)
      → (pass_bool now device id v (heap, ns)).0 id ≡ next_bool now (heap id) v
  unfolding pass_bool
  pass_bool_self now device id v heap ns = ground arith

  pass_bool-other :
      (now : ℤ) (device : Option ℕ) (id other : ℕ) (v : Bool) (heap : Heap D) (ns : List Notice)
      → (other == id) ≡ false
      → (pass_bool now device id v (heap, ns)).0 other ≡ heap other
  unfolding pass_bool
  pass_bool-other now device id other v heap ns h = ground arith

  pass_bools-cons :
      (now : ℤ) (device : Option ℕ) (e : Entry) (rest : List Entry) (values : List Bool) (i : ℕ)
      (v : Bool) (p : Pass D)
      → get_elem? values i ≡ some v
      → pass_bools now device (e ∷ rest) values i p
        ≡ pass_bools now device rest values (i + 1) (pass_bool now device (e.1) v p)
  unfolding pass_bools
  pass_bools-cons now device e rest values i v p h =
      ap
        (λ r. r >>= λ w. pass_bools now device rest values (i + 1) (pass_bool now device (e.1) w p))
        (at-some values i v h)

  -- The loop ends when there is a value for each claim, and touches the claims' mappings only.
  pass_bools_total :
      (now : ℤ) (device : Option ℕ) (entries : List Entry) (values : List Bool) (i : ℕ) (p : Pass D)
      → i + length entries ≤ length values
      → (p' : Pass D) × (pass_bools now device entries values i p ≡ ok p')
        × ((id : ℕ) → All (λ (d : Entry). (d.1 == id) ≡ false) entries → p'.0 id ≡ p.0 id)
  unfolding pass_bools
  pass_bools_total now device [] values i p h = (p, refl, λ id none. refl)
  pass_bools_total now device (e ∷ rest) values i p h =
      let (v, at_i) = get_elem?-total values i (omega arith) in
      let q = pass_bool now device (e.1) v p in
      let (p', done, keep) = pass_bools_total now device rest values (i + 1) q (omega arith) in
      (
        p',
        pass_bools-cons now device e rest values i v p at_i ∙ done,
        λ id other.
            keep id other.1
            ∙ pass_bool-other now device (e.1) id v p.0 p.1 (==_false_symm (e.1) id other.0),
      )

  pass_bools_lem :
      (now : ℤ) (device : Option ℕ) (entries : List Entry) (values : List Bool) (i : ℕ) (p : Pass D)
      → i + length entries ≤ length values
      → DistinctMappings entries
      → (k : ℕ) (e : Entry) (v : Bool) → get_elem? entries k ≡ some e
      → get_elem? values (i + k) ≡ some v
      → (p' : Pass D) × (pass_bools now device entries values i p ≡ ok p')
        × (p'.0 (e.1) ≡ next_bool now (p.0 (e.1)) v)
  unfolding pass_bools
  pass_bools_lem now device [] values i p h distinct k e v here value = cc
  pass_bools_lem now device (d ∷ rest) values i p h distinct zero e v here value =
      let (p', done, keep) =
        pass_bools_total now device rest values (i + 1) (pass_bool now device (d.1) v p)
          (omega arith) in
      let value' : get_elem? values i ≡ some v = rw (add-zero i) at value in
      let same = some-injective d e here in
      (
        p',
        pass_bools-cons now device d rest values i v p value' ∙ done,
        subst (λ (x : Entry). p'.0 (x.1) ≡ next_bool now (p.0 (x.1)) v) same
            (keep (d.1) distinct.0 ∙ pass_bool_self now device (d.1) v p.0 p.1),
      )
  pass_bools_lem now device (d ∷ rest) values i p h distinct (suc k) e v here value =
      let (w, at_i) = get_elem?-total values i (omega arith) in
      let q = pass_bool now device (d.1) w p in
      let value' : get_elem? values (i + 1 + k) ≡ some v =
        subst (λ (n : ℕ). get_elem? values n ≡ some v) (omega arith) value in
      let (p', done, new) =
        pass_bools_lem now device rest values (i + 1) q (omega arith) distinct.1 k e v here
          value' in
      let apart = All-get_elem? (λ (x : Entry). (x.1 == d.1) ≡ false) rest k e distinct.0 here in
      (
        p',
        pass_bools-cons now device d rest values i w p at_i ∙ done,
        new ∙ ap (λ m. next_bool now m v) (pass_bool-other now device (d.1) (e.1) w p.0 p.1 apart),
      )

  -- If the claims of a group of coils or contacts stand in the order of their texts, there is a
  -- value for each, and no two are of one mapping, then the pass ends, and the mapping of the k-th
  -- claim has been offered the k-th value.
  pub pass_bool_values_in_order :
      (now : ℤ) (g : RegisterGroup) (values : List Bool) (p : Pass D)
      → InTextOrder [] g.mappings
      → length g.mappings ≤ length values
      → DistinctMappings g.mappings
      → (k : ℕ) (e : Entry) (v : Bool) → get_elem? g.mappings k ≡ some e
      → get_elem? values k ≡ some v
      → (p' : Pass D) × (pass_bool_values now g values p ≡ ok p')
        × (p'.0 (e.1) ≡ next_bool now (p.0 (e.1)) v)
  unfolding pass_bool_values get_mappings_map
  pass_bool_values_in_order now g values p sorted enough distinct k e v here value =
      rw (map_of_sorted [] g.mappings sorted) (
        pass_bools_lem now g.device g.mappings values 0 p (omega arith) distinct k e v here
          (rw (zero-add k) value))

  -- If the text of the second claim is the smaller one, as that of 10 is against 9, a group of two
  -- coils or contacts offers each of its mappings the value that was read for the other.
  pub pass_bool_values_swapped :
      (now : ℤ) (g : RegisterGroup) (first second : Entry) (v w : Bool) (p : Pass D)
      → g.mappings ≡ first ∷ second ∷ []
      → text_less (second.0) (first.0) ≡ true
      → pass_bool_values now g (v ∷ w ∷ []) p
        ≡ ok (pass_bool now g.device (first.1) w (pass_bool now g.device (second.1) v p))
  unfolding pass_bool_values pass_bools get_mappings_map map_of map_emplace at
  pass_bool_values_swapped now g first second v w p two less = rw (two, less)
