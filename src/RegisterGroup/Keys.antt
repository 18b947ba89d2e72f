-- ===== src/RegisterGroup/Keys.antt =====
-- keyExistsInSet of RegisterGroup.cpp on claims that are laid out as blocks.
use more_modbus.Prelude.{
  ℕ, zero, suc, ◌+◌, ◌^◌, ◌≤◌, ◌<◌, ◌≡◌, ◌≢◌, refl, sym, ap, ◌∙◌, true, false, ◌||◌, List, [], ◌∷◌,
  ◌++◌, arith, All, All-append, All-imp, Bool-cases, inl, inr, ◌==◌,
}
use more_modbus.Prelude.Int.{pos, ◌-ℤ◌}
use more_modbus.RegisterMapping.Parsing.{same_text, eq_of_same_text, same_text_refl}
use more_modbus.RegisterGroup.{Entry, Heap, claim, bit_claim, claim_less, key_exists_in_set}
use more_modbus.RegisterGroup.Layout.{
  Block, registers, bits, total_size, run_claims, bit_claims, lay, AreBlocks, address-claim,
  address-bit_claim, bit-bit_claim, bit-claim,
}
use more_modbus.RegisterGroup.Append.{Before, IsBelow-lay, Before-IsBelow, Before-bit, lay_last}

-- The set's order tells two claims apart.
abbrev pub IsApart : List ℕ → Entry → Type 0
IsApart key d = claim_less (d.0) key ≢ claim_less key (d.0)

pub Before-IsApart :
    (e : Entry) (entries : List Entry) → All (Before e) entries → All (IsApart (e.0)) entries
Before-IsApart e entries h = All-imp (Before e) (IsApart (e.0)) entries (λ d b same. cc) h

pub key_exists-IsApart :
    (key : List ℕ) (entries : List Entry)
    → All (IsApart key) entries
    → key_exists_in_set key entries ≡ false
unfolding key_exists_in_set
key_exists-IsApart key [] h = refl
key_exists-IsApart key (d ∷ rest) h = elim (Bool-cases (same_text (d.0) key)) [
  | inl same ↦
      let e = eq_of_same_text (d.0) key same in
      absurd (h.0 (ap (λ t. claim_less t key) e ∙ ap (λ t. claim_less key t) (sym e)))
  | inr other ↦ rw (other, key_exists-IsApart key rest h.1) refl
]

pub key_exists-append :
    (key : List ℕ) (xs ys : List Entry)
    → key_exists_in_set key (xs ++ ys) ≡ (key_exists_in_set key xs || key_exists_in_set key ys)
unfolding key_exists_in_set
key_exists-append key [] ys = refl
key_exists-append key (x ∷ xs) ys = ground (arith, key_exists-append key xs ys)

-- The claim of a register of a mapping is there.
key_exists-run :
    (n a y id : ℕ)
    → a ≤ y
    → y < a + n
    → key_exists_in_set (claim (pos y)) (run_claims n a id) ≡ true
unfolding key_exists_in_set
key_exists-run zero a y id l u = absurd (omega arith)
key_exists-run (suc n) a y id l u = elim (Bool-cases (a == y)) [
  | inl here ↦ let e : a ≡ y = ground arith in rw (e, same_text_refl (claim (pos y))) refl
  | inr later ↦ ground (arith, key_exists-run n (a + 1) y id (ground arith) (ground arith))
]

pub key_exists_last :
    (a : ℕ) (init : List Block) (other n y : ℕ)
    → a + total_size init ≤ y
    → y < a + total_size init + n
    → key_exists_in_set (claim (pos y)) (lay a (init ++ (registers other n ∷ []))) ≡ true
key_exists_last a init other n y l u =
    rw
      (
        lay_last a init (registers other n),
        key_exists-append,
        key_exists-run n (a + total_size init) y other l u,
      )
      (ground arith)

-- The claims of lower bits of a register, and the claim of all of it, are others than that of a
-- bit.
Before-bits :
    (y bit id : ℕ) (bs : List (ℕ × ℕ))
    → All (λ b. b.0 < bit) bs
    → bit < 16
    → y < 2 ^ 30
    → All (Before (bit_claim (pos y) (pos bit), id)) (bit_claims y bs)
Before-bits y bit id [] h l s = tt
Before-bits y bit id ((b, x) ∷ bs) h l s = (
  Before-bit (bit_claim (pos y) (pos b), x) (bit_claim (pos y) (pos bit), id) y b bit
      (address-bit_claim y b (omega arith) (omega arith)) (address-bit_claim y bit (omega arith) l)
      (bit-bit_claim y b (omega arith) (omega arith)) (bit-bit_claim y bit (omega arith) l) h.0,
  Before-bits y bit id bs h.1 l s,
)

IsApart-whole :
    (y b x : ℕ) → y < 2 ^ 30 → b < 16 → IsApart (claim (pos y)) (bit_claim (pos y) (pos b), x)
unfolding claim_less ◌-ℤ◌
IsApart-whole y b x s l =
    rw
      (
        address-claim y (omega arith),
        address-bit_claim y b (omega arith) l,
        bit-claim y (omega arith),
        bit-bit_claim y b (omega arith) l,
      )
      (ground arith)

IsApart-bits :
    (y : ℕ) (bs : List (ℕ × ℕ))
    → All (λ b. b.0 < 16) bs
    → y < 2 ^ 30
    → All (IsApart (claim (pos y))) (bit_claims y bs)
IsApart-bits y [] h s = tt
IsApart-bits y ((b, x) ∷ bs) h s = (IsApart-whole y b x s h.0, IsApart-bits y bs h.1 s)

-- The claims of blocks that end with lower bits of the same register.
module _ {D : Type 0} (heap : Heap D) (a y bit id : ℕ) (init : List Block) (bs : List (ℕ × ℕ)) where
  pub Before-last_bits :
      AreBlocks heap init
      → a + total_size init ≡ y
      → All (λ b. b.0 < bit) bs
      → bit < 16
      → y < 2 ^ 30
      → All (Before (bit_claim (pos y) (pos bit), id)) (lay a (init ++ (bits bs ∷ [])))
  Before-last_bits h eq lower l s =
      rw (lay_last a init (bits bs), eq)
        (All-append (Before (bit_claim (pos y) (pos bit), id)) (lay a init) (bit_claims y bs)
          (Before-IsBelow (bit_claim (pos y) (pos bit), id) y (lay a init)
            (address-bit_claim y bit (omega arith) l) (IsBelow-lay heap a y init h (omega arith) s))
          (Before-bits y bit id bs lower l s))

  pub IsApart-last_bits :
      AreBlocks heap init
      → a + total_size init ≡ y
      → All (λ b. b.0 < 16) bs
      → y < 2 ^ 30
      → All (IsApart (claim (pos y))) (lay a (init ++ (bits bs ∷ [])))
  IsApart-last_bits h eq lower s =
      rw (lay_last a init (bits bs), eq)
        (All-append (IsApart (claim (pos y))) (lay a init) (bit_claims y bs)
          (Before-IsApart (claim (pos y), id) (lay a init)
            (Before-IsBelow (claim (pos y), id) y (lay a init) (address-claim y (omega arith))
              (IsBelow-lay heap a y init h (omega arith) s)))
          (IsApart-bits y bs lower s))
