-- ===== src/RegisterGroup/Copying/Claims.antt =====
-- The claims of a group that is copied by RegisterGroup(const RegisterGroup&) of RegisterGroup.cpp.
use more_modbus.Prelude.{
  ℕ, ◌+◌, ◌≡◌, refl, sym, ap, ◌∙◌, true, false, ◌||◌, List, [], ◌∷◌, All, All-imp, Bool-cases, inl,
  inr, arith,
}
use more_modbus.RegisterMapping.Parsing.{same_text, eq_of_same_text, same_text_refl}
use more_modbus.RegisterGroup.{
  RegisterGroup, Entry, Heap, store, emplace, text_less, map_emplace, map_of, get_mappings_map,
  get_mappings_claims,
}
use more_modbus.RegisterGroup.Copying.{copied, copy_entries, copy_group}
use more_modbus.RegisterGroup.Copying.Order.{
  Key, keys, has, IsOrdered, keys-emplace, puts, puts-chosen, chosen_none,
}

-- Texts of which none is before the other are the same.
text_less_total : (xs ys : Key) → text_less xs ys ≡ false → text_less ys xs ≡ false → xs ≡ ys
unfolding text_less
text_less_total [] [] h k = refl
text_less_total [] (d ∷ ds) h k = cc
text_less_total (c ∷ cs) [] h k = cc
text_less_total (c ∷ cs) (d ∷ ds) h k =
    let same : c ≡ d = ground arith in
    let less : text_less cs ds ≡ false = ground arith in
    let more : text_less ds cs ≡ false = ground arith in
    ap (λ t. t ∷ cs) same ∙ ap (λ t. d ∷ t) (text_less_total cs ds less more)

-- getMappingsMap loses no claim.
has-map_emplace_self : (e : Entry) (acc : List Entry) → has (e.0) (keys (map_emplace e acc)) ≡ true
unfolding map_emplace
has-map_emplace_self e [] = rw (same_text_refl (e.0)) refl
has-map_emplace_self e (d ∷ rest) = elim (Bool-cases (text_less (e.0) (d.0))) [
  | inl before ↦ rw (before, same_text_refl (e.0)) refl
  | inr not_before ↦ rw not_before (elim (Bool-cases (text_less (d.0) (e.0))) [
    | inl after ↦ rw after (ground (arith, has-map_emplace_self e rest))
    | inr not_after ↦ rw not_after (
        ap (λ t. same_text t (e.0) || has (e.0) (keys rest))
          (sym (text_less_total (e.0) (d.0) not_before not_after))
        ∙ ap (λ b. b || has (e.0) (keys rest)) (same_text_refl (e.0)))
  ])
]

has-map_emplace :
    (k : Key) (e : Entry) (acc : List Entry)
    → has k (keys acc) ≡ true
    → has k (keys (map_emplace e acc)) ≡ true
unfolding map_emplace
has-map_emplace k e [] h = cc
has-map_emplace k e (d ∷ rest) h = ground (arith, has-map_emplace k e rest)

has-map_of :
    (k : Key) (acc entries : List Entry)
    → (has k (keys acc) || has k (keys entries)) ≡ true
    → has k (keys (map_of acc entries)) ≡ true
unfolding map_of
has-map_of k acc [] h = ground arith
has-map_of k acc (e ∷ rest) h =
    has-map_of k (map_emplace e acc) rest (elim (Bool-cases (has k (keys acc))) [
      | inl t ↦ rw (has-map_emplace k e acc t) refl
      | inr f ↦ elim (Bool-cases (same_text (e.0) k)) [
        | inl same ↦
            let there = has-map_emplace_self e acc in
            rw
              (ap (λ j. has j (keys (map_emplace e acc))) (sym (eq_of_same_text (e.0) k same))
                ∙ there)
              refl
        | inr other ↦ ground arith
      ]
    ])

-- What holds of the entries of a group holds of those of its map.
map_emplace-All :
    (P : Entry → Type 0) (e : Entry) (acc : List Entry)
    → P e
    → All P acc
    → All P (map_emplace e acc)
unfolding map_emplace
map_emplace-All P e [] h k = (h, tt)
map_emplace-All P e (d ∷ rest) h k = elim (Bool-cases (text_less (e.0) (d.0))) [
  | inl before ↦ rw before (h, k)
  | inr not_before ↦ rw not_before (elim (Bool-cases (text_less (d.0) (e.0))) [
    | inl after ↦ rw after (k.0, map_emplace-All P e rest h k.1)
    | inr same ↦ rw same k
  ])
]

pub map_of-All :
    (P : Entry → Type 0) (acc entries : List Entry)
    → All P acc
    → All P entries
    → All P (map_of acc entries)
unfolding map_of
map_of-All P acc [] h k = h
map_of-All P acc (e ∷ rest) h k =
    map_of-All P (map_emplace e acc) rest (map_emplace-All P e acc k.0 h) k.1

keys-All :
    (P : Key → Type 0) (entries : List Entry)
    → All (λ (e : Entry). P (e.0)) entries
    → All P (keys entries)
keys-All P [] h = tt
keys-All P (e ∷ rest) h = (h.0, keys-All P rest h.1)

All-has-keys : (entries : List Entry) → All (λ (e : Entry). has (e.0) (keys entries) ≡ true) entries
All-has-keys [] = tt
All-has-keys (e ∷ rest) = (
  rw (same_text_refl (e.0)) refl,
  All-imp (λ (d : Entry). has (d.0) (keys rest) ≡ true)
      (λ (d : Entry). has (d.0) (keys (e ∷ rest)) ≡ true) rest (λ d h. ground (arith, h))
      (All-has-keys rest),
)

module _ {D : Type 0} where
  copy_entries-keys :
      (next : ℕ) (heap : Heap D) (acc entries : List Entry)
      → keys ((copy_entries next heap acc entries).2) ≡ puts (keys acc) (keys entries)
  unfolding copy_entries
  copy_entries-keys next heap acc [] = refl
  copy_entries-keys next heap acc (e ∷ rest) =
      copy_entries-keys (next + 1) (store heap next (copied (heap (e.1)))) (emplace (e.0, next) acc)
        rest
      ∙ ap (λ t. puts t (keys rest)) (keys-emplace (e.0, next) acc)

  -- The copy of a group whose claims are in the order of its set makes the same claims in the same
  -- order, though they come to it in the order of texts.
  pub copy_group-claims :
      (next : ℕ) (heap : Heap D) (g : RegisterGroup)
      → IsOrdered (get_mappings_claims g)
      → get_mappings_claims (copy_group next heap g).2 ≡ get_mappings_claims g
  unfolding copy_group get_mappings_claims get_mappings_map
  copy_group-claims next heap g h =
      let all = keys g.mappings in
      let covered : All (λ (e : Entry). (has (e.0) (keys (map_of [] g.mappings)) || false) ≡ true)
          g.mappings =
        All-imp (λ (e : Entry). has (e.0) all ≡ true)
          (λ (e : Entry). (has (e.0) (keys (map_of [] g.mappings)) || false) ≡ true) g.mappings
          (λ e there. rw (has-map_of (e.0) [] g.mappings there) refl) (All-has-keys g.mappings) in
      copy_entries-keys next heap [] (map_of [] g.mappings)
      ∙ ap (λ t. puts t (keys (map_of [] g.mappings))) (sym (chosen_none all))
      ∙ puts-chosen (keys (map_of [] g.mappings)) [] all h
          (keys-All (λ k. has k all ≡ true) (map_of [] g.mappings)
            (map_of-All (λ (e : Entry). has (e.0) all ≡ true) [] g.mappings tt
              (All-has-keys g.mappings)))
          (keys-All (λ k. (has k (keys (map_of [] g.mappings)) || has k []) ≡ true) g.mappings
            covered)
