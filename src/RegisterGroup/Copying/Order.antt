-- ===== src/RegisterGroup/Copying/Order.antt =====
-- Claims in the order of GroupUtility's comparison, put into a set in whatever order they come.
use more_modbus.Prelude.{
  ℕ, ◌≡◌, refl, sym, ap, ◌∙◌, subst, Bool, true, false, not, ◌||◌, List, [], ◌∷◌, map,
  if◌then◌else◌, All, All-imp, Bool-cases, inl, inr, arith,
}
use more_modbus.RegisterMapping.Parsing.{same_text, eq_of_same_text, same_text_refl}
use more_modbus.RegisterGroup.{
  Entry, claim_less, emplace, get_address_from_string, get_bit_from_string,
}
use more_modbus.Prelude.Int.{ℤ, pos, ◌-ℤ◌, ltb_ℤ, ◌==ℤ◌}

-- The texts of claims.
abbrev pub Key : Type 0
Key = List ℕ

abbrev pub keys : List Entry → List Key
keys entries = map (λ (e : Entry). e.0) entries

abbrev pub has : Key → List Key → Bool
has k [] = false
has k (j ∷ rest) = same_text j k || has k rest

-- Each claim is before all that follow it.
abbrev pub Precedes : Key → Key → Type 0
Precedes k j = (claim_less k j ≡ true) × (claim_less j k ≡ false)

abbrev pub IsOrdered : List Key → Type 0
IsOrdered [] = Unit {0}
IsOrdered (k ∷ rest) = All (Precedes k) rest × IsOrdered rest

-- What emplace does to the texts.
pub put : Key → List Key → List Key
put k [] = k ∷ []
put k (j ∷ rest) =
    let more = j ∷ put k rest in
    if claim_less k j then k ∷ j ∷ rest else if claim_less j k then more else j ∷ rest

pub keys-emplace :
    (e : Entry) (entries : List Entry) → keys (emplace e entries) ≡ put (e.0) (keys entries)
unfolding emplace put
keys-emplace e [] = refl
keys-emplace e (d ∷ rest) = elim (Bool-cases (claim_less (e.0) (d.0))) [
  | inl before ↦ rw before refl
  | inr not_before ↦ rw not_before (elim (Bool-cases (claim_less (d.0) (e.0))) [
    | inl after ↦ rw after (ap (λ t. d.0 ∷ t) (keys-emplace e rest))
    | inr same ↦ rw same refl
  ])
]

-- Those of the claims that are among `done`.
pub chosen : List Key → List Key → List Key
chosen done [] = []
chosen done (k ∷ rest) = let more = chosen done rest in if has k done then k ∷ more else more

same_text_sym : (j k : Key) → same_text j k ≡ false → same_text k j ≡ false
same_text_sym j k h = elim (Bool-cases (same_text k j)) [
  | inl same ↦
      let e = eq_of_same_text k j same in
      absurd (cc (ap (λ t. same_text t k) (sym e) ∙ same_text_refl k))
  | inr other ↦ other
]

Precedes-apart : (k j : Key) → Precedes k j → same_text k j ≡ false
Precedes-apart k j h = elim (Bool-cases (same_text k j)) [
  | inl same ↦
      let e = eq_of_same_text k j same in
      absurd (cc (sym h.0 ∙ ap (λ t. claim_less k t) (sym e) ∙ ap (λ t. claim_less t k) e ∙ h.1))
  | inr other ↦ other
]

apart_self :
    (x y : ℤ)
    → (let diff = x -ℤ x in if not (diff ==ℤ pos 0) then ltb_ℤ (pos 0) diff else ltb_ℤ y y) ≡ false
unfolding ◌-ℤ◌
apart_self x y = ground arith

claim_less_irrefl : (k : Key) → claim_less k k ≡ false
unfolding claim_less
claim_less_irrefl k = apart_self (get_address_from_string k) (get_bit_from_string k)

-- A claim that none of the others equals makes no difference to them.
chosen_apart :
    (k : Key) (done rest : List Key)
    → All (Precedes k) rest
    → chosen (k ∷ done) rest ≡ chosen done rest
unfolding chosen
chosen_apart k done [] h = refl
chosen_apart k done (j ∷ rest) h = rw (Precedes-apart k j h.0, chosen_apart k done rest h.1) refl

chosen-All : (P : Key → Type 0) (done rest : List Key) → All P rest → All P (chosen done rest)
unfolding chosen
chosen-All P done [] h = tt
chosen-All P done (j ∷ rest) h = elim (Bool-cases (has j done)) [
  | inl t ↦ rw t (h.0, chosen-All P done rest h.1)
  | inr f ↦ rw f (chosen-All P done rest h.1)
]

put_first : (k : Key) (rest : List Key) → All (Precedes k) rest → put k rest ≡ k ∷ rest
unfolding put
put_first k [] h = refl
put_first k (j ∷ rest) h = rw h.0.0 refl

put_head :
    (k : Key) (done rest : List Key)
    → All (Precedes k) rest
    → put k (chosen done (k ∷ rest)) ≡ chosen (k ∷ done) (k ∷ rest)
unfolding put chosen
put_head k done rest h = elim (Bool-cases (has k done)) [
  | inl t ↦ rw (t, claim_less_irrefl k, same_text_refl k, chosen_apart k done rest h) refl
  | inr f ↦
      rw (f, same_text_refl k, chosen_apart k done rest h)
        (put_first k (chosen done rest) (chosen-All (Precedes k) done rest h))
]

All-has : (P : Key → Type 0) (k : Key) (rest : List Key) → All P rest → has k rest ≡ true → P k
All-has P k [] h e = cc
All-has P k (j ∷ rest) h e = elim (Bool-cases (same_text j k)) [
  | inl same ↦ subst P (eq_of_same_text j k same) h.0
  | inr other ↦ All-has P k rest h.1 (ground (arith, other))
]

-- To put one of them to those that are there.
pub put-chosen :
    (k : Key) (done all : List Key)
    → IsOrdered all
    → has k all ≡ true
    → put k (chosen done all) ≡ chosen (k ∷ done) all
unfolding put chosen
put-chosen k done [] h e = cc
put-chosen k done (x ∷ rest) h e = elim (Bool-cases (same_text x k)) [
  | inl same ↦
      let eq = eq_of_same_text x k same in
      subst (λ j. put j (chosen done (x ∷ rest)) ≡ chosen (j ∷ done) (x ∷ rest)) eq
        (put_head x done rest h.0)
  | inr other ↦
      let there : has k rest ≡ true = ground (arith, other) in
      let before = All-has (Precedes x) k rest h.0 there in
      let more = put-chosen k done rest h.1 there in
      elim (Bool-cases (has x done)) [
        | inl t ↦ rw (t, before.0, before.1, same_text_sym x k other, more) refl
        | inr f ↦ rw (f, same_text_sym x k other, more) refl
      ]
]

pub chosen_none : (all : List Key) → chosen [] all ≡ []
unfolding chosen
chosen_none [] = refl
chosen_none (k ∷ rest) = chosen_none rest

-- To put all of them, in any order.
abbrev pub puts : List Key → List Key → List Key
puts acc [] = acc
puts acc (k ∷ rest) = puts (put k acc) rest

chosen-All_done : (done all : List Key) → All (λ k. has k done ≡ true) all → chosen done all ≡ all
unfolding chosen
chosen-All_done done [] h = refl
chosen-All_done done (k ∷ rest) h = rw (h.0, chosen-All_done done rest h.1) refl

pub puts-chosen :
    (ks done all : List Key)
    → IsOrdered all
    → All (λ k. has k all ≡ true) ks
    → All (λ k. (has k ks || has k done) ≡ true) all
    → puts (chosen done all) ks ≡ all
puts-chosen [] done all o h covered = chosen-All_done done all covered
puts-chosen (k ∷ ks) done all o h covered =
    ap (λ acc. puts acc ks) (put-chosen k done all o h.0)
    ∙ puts-chosen ks (k ∷ done) all o h.1 (
        All-imp (λ j. (has j (k ∷ ks) || has j done) ≡ true)
          (λ j. (has j ks || has j (k ∷ done)) ≡ true) all (λ j c. ground arith) covered)
