-- ===== src/ModbusGroupReader/Blocks.antt =====
-- passValuesToGroup for register values, block by block.
use more_modbus.Prelude.{
  ℕ, zero, suc, ◌+◌, ◌-◌, ◌^◌, ◌<◌, ◌≡◌, refl, sym, ap, ◌∙◌, Bool, true, false, List, [], ◌∷◌, ◌++◌,
  Option, Result, ok, ◌>>=◌, arith, All, length, ok-injective, >>=-eq-ok, >>=_congr, >>=_assoc,
}
use more_modbus.Prelude.Int.{ℤ, pos, mod_ℤ, ◌==ℤ◌}
use more_modbus.DataParsers.{separate_bits}
use more_modbus.RegisterMapping.{Double, get_register_count}
use more_modbus.RegisterGroup.{
  RegisterGroup, Entry, Heap, claim, bit_claim, get_address_from_string, get_bit_from_string,
}
use more_modbus.Prelude.Decimal.{to_string}
use more_modbus.RegisterGroup.Claims.{
  after_separator_none, after_separator_split, to_string-NoSeparator,
}
use more_modbus.RegisterGroup.Layout.{
  Block, registers, bits, total_size, run_claims, bit_claims, lay, AreBlocks, address-bit_claim,
  bit-bit_claim, StartsAt, lay-StartsAt,
}
use more_modbus.ModbusGroupReader.Counts.{SameCounts, pass_bool-counts, pass_registers-counts}
use more_modbus.ModbusGroupReader.{
  Pass, at, next_values, pass_bool, pass_bits, pass_registers, pass_claims, pass_register_values,
  is_bit_claim,
}

module _ {D : Type 0} where
  -- The bits of a register are passed to their mappings.
  abbrev pub pass_bit_list : ℤ → Option ℕ → List Bool → List (ℕ × ℕ) → Pass D → Result (Pass D)
  pass_bit_list now device digits [] p = ok p
  pass_bit_list now device digits ((bit, id) ∷ rest) p = at digits bit >>= λ value.
      pass_bit_list now device digits rest (pass_bool now device id value p)

module _ {D : Type 0} ⦃d : Double D⦄ where
  -- Each block gets the values at its addresses.
  abbrev pub pass_blocks : ℤ → Option ℕ → List Block → List ℕ → ℕ → Pass D → Result (Pass D)
  pass_blocks now device [] values i p = ok p
  pass_blocks now device (registers id n ∷ rest) values i p = next_values n values i >>= λ taken.
      pass_registers now device id taken p >>= λ p'. pass_blocks now device rest values (i + n) p'
  pass_blocks now device (bits bs ∷ rest) values i p = at values i >>= λ value.
      pass_bit_list now device (separate_bits value) bs p >>= λ p'.
      pass_blocks now device rest values (i + 1) p'

module _ {D : Type 0} where
  pass_bit_list-counts :
      (now : ℤ) (device : Option ℕ) (digits : List Bool) (bs : List (ℕ × ℕ)) (p p' : Pass D)
      → pass_bit_list now device digits bs p ≡ ok p'
      → SameCounts (p.0) (p'.0)
  pass_bit_list-counts now device digits [] p p' e id =
      ap (λ (q : Pass D). get_register_count (q.0 id)) (sym (ok-injective p p' e))
  pass_bit_list-counts now device digits ((bit, x) ∷ bs) p p' e id =
      let (v, _, y) =
        >>=-eq-ok (at digits bit)
          (λ value. pass_bit_list now device digits bs (pass_bool now device x value p)) e in
      pass_bit_list-counts now device digits bs (pass_bool now device x v p) p' y id
      ∙ pass_bool-counts now device x v p id

  pass_bits-bit_claims :
      (now : ℤ) (device : Option ℕ) (digits : List Bool) (a : ℕ) (bs : List (ℕ × ℕ))
      (rest : List Entry) (p : Pass D)
      → a < 2 ^ 30
      → All (λ b. b.0 < 16) bs
      → StartsAt (a + 1) rest
      → pass_bits now device digits (pos a) (bit_claims a bs ++ rest) p
        ≡ (pass_bit_list now device digits bs p >>= λ p'. ok (length bs, p'))
  unfolding pass_bits
  pass_bits-bit_claims now device digits a [] [] p s h st = refl
  pass_bits-bit_claims now device digits a [] (e ∷ rest) p s h st =
      let other : (pos a ==ℤ get_address_from_string (e.0)) ≡ false = rw st (ground arith) in
      rw other refl
  pass_bits-bit_claims now device digits a ((bit, id) ∷ bs) rest p s h st =
      let here : (pos a ==ℤ get_address_from_string (bit_claim (pos a) (pos bit))) ≡ true =
        rw (address-bit_claim a bit (omega arith) h.0) (ground arith) in
      let index : mod_ℤ (get_bit_from_string (bit_claim (pos a) (pos bit))) (2 ^ 16) ≡ bit =
        rw (bit-bit_claim a bit (omega arith) h.0) (ground arith) in
      let count : length bs + 1 ≡ suc (length bs) = omega arith in
      rw (here, index)
        (>>=_congr (at digits bit) (λ value _.
            let p' = pass_bool now device id value p in
            ap (λ r. ◌>>=◌ {B = ℕ × Pass D} r (λ passed. ok (passed.0 + 1, passed.1)))
              (pass_bits-bit_claims now device digits a bs rest p' s h.1 st)
            ∙ >>=_assoc (pass_bit_list now device digits bs p') (λ q. ok (length bs, q))
                (λ passed. ok (passed.0 + 1, passed.1))
            ∙ >>=_congr (pass_bit_list now device digits bs p')
                (λ q _. ap (λ (n : ℕ). ok (n, q)) count))
          ∙ sym (
              >>=_assoc (at digits bit)
                (λ value. pass_bit_list now device digits bs (pass_bool now device id value p))
                (λ q. ok (suc (length bs), q))))

-- Which claims are of bits.
is_bit_claim-claim : (a : ℤ) → is_bit_claim (claim a) ≡ false
unfolding is_bit_claim claim
is_bit_claim-claim a =
    rw (after_separator_none (to_string a) (to_string-NoSeparator a), is_bit_claim) refl

is_bit_claim-bit_claim : (a b : ℤ) → is_bit_claim (bit_claim a b) ≡ true
unfolding is_bit_claim bit_claim
is_bit_claim-bit_claim a b =
    rw (after_separator_split (to_string a) (to_string b) (to_string-NoSeparator a), is_bit_claim)
      refl

pub AreBlocks-counts :
    {D : Type 0} (heap heap' : Heap D) (blocks : List Block)
    → SameCounts heap heap'
    → AreBlocks heap blocks
    → AreBlocks heap' blocks
AreBlocks-counts heap heap' [] same h = tt
AreBlocks-counts heap heap' (registers id n ∷ rest) same h =
    ((h.0.0, same id ∙ h.0.1), AreBlocks-counts heap heap' rest same h.1)
AreBlocks-counts heap heap' (bits bs ∷ rest) same h =
    (h.0, AreBlocks-counts heap heap' rest same h.1)

module _ {D : Type 0} ⦃d : Double D⦄ where
  -- The claims of a mapping that has its values are skipped.
  skip_run :
      (now : ℤ) (device : Option ℕ) (n a id : ℕ) (rest : List Entry) (values : List ℕ) (i : ℕ)
      (p : Pass D)
      → pass_claims now device (run_claims n a id ++ rest) n values i p
        ≡ pass_claims now device rest 0 values i p
  unfolding pass_claims
  skip_run now device zero a id rest values i p = refl
  skip_run now device (suc n) a id rest values i p =
      skip_run now device n (a + 1) id rest values i p

  skip_bits :
      (now : ℤ) (device : Option ℕ) (a : ℕ) (bs : List (ℕ × ℕ)) (rest : List Entry)
      (values : List ℕ) (i : ℕ) (p : Pass D)
      → pass_claims now device (bit_claims a bs ++ rest) (length bs) values i p
        ≡ pass_claims now device rest 0 values i p
  unfolding pass_claims
  skip_bits now device a [] rest values i p = refl
  skip_bits now device a ((bit, id) ∷ bs) rest values i p =
      skip_bits now device a bs rest values i p

  pub pass_claims-lay :
      (now : ℤ) (device : Option ℕ) (a : ℕ) (blocks : List Block) (values : List ℕ) (i : ℕ)
      (p : Pass D)
      → AreBlocks (p.0) blocks
      → a + total_size blocks < 2 ^ 30
      → pass_claims now device (lay a blocks) 0 values i p
        ≡ pass_blocks now device blocks values i p
  unfolding pass_claims
  pass_claims-lay now device a [] values i p h s = refl
  pass_claims-lay now device a (registers id zero ∷ rest) values i p h s = absurd (omega arith)
  pass_claims-lay now device a (registers id (suc n) ∷ rest) values i p h s =
      let less : suc n - 1 ≡ n = omega arith in
      rw (is_bit_claim-claim (pos a), h.0.1, less)
        (>>=_congr (next_values (suc n) values i) (λ taken _.
          >>=_congr (pass_registers now device id taken p) (λ p' e.
            skip_run now device n (a + 1) id (lay (a + suc n) rest) values (i + suc n) p'
            ∙ pass_claims-lay now device (a + suc n) rest values (i + suc n) p'
                (AreBlocks-counts (p.0) (p'.0) rest
                  (pass_registers-counts now device id taken p p' e) h.1)
                (omega arith))))
  pass_claims-lay now device a (bits [] ∷ rest) values i p h s = absurd (omega arith)
  pass_claims-lay now device a (bits ((bit, id) ∷ bs) ∷ rest) values i p h s =
      rw (is_bit_claim-bit_claim (pos a) (pos bit), address-bit_claim a bit (omega arith) h.0.1.0)
        (>>=_congr (at values i) (λ value _.
          let digits = separate_bits value in
          let behind = bit_claims a bs ++ lay (a + 1) rest in
          let finish : ℕ × Pass D → Result (Pass D) =
            λ passed. pass_claims now device behind (passed.0 - 1) values (i + 1) (passed.1) in
          let one : suc (length bs) - 1 ≡ length bs = omega arith in
          let passed = pass_bit_list now device digits ((bit, id) ∷ bs) p in
          ap (λ r. r >>= finish)
            (pass_bits-bit_claims now device digits a ((bit, id) ∷ bs) (lay (a + 1) rest) p
              (omega arith) h.0.1 (lay-StartsAt (p.0) (a + 1) rest h.1 (omega arith)))
          ∙ >>=_assoc passed (λ q. ok (suc (length bs), q)) finish
          ∙ >>=_congr passed (λ q e.
            ap (λ (n : ℕ). pass_claims now device behind n values (i + 1) q) one
            ∙ skip_bits now device a bs (lay (a + 1) rest) values (i + 1) q
            ∙ pass_claims-lay now device (a + 1) rest values (i + 1) q
                (AreBlocks-counts (p.0) (q.0) rest
                  (pass_bit_list-counts now device digits ((bit, id) ∷ bs) p q e) h.1)
                (omega arith))))

  -- If the claims of a group are laid out as blocks of adjacent registers, passValuesToGroup hands
  -- each block the values at its addresses, errors included: the n values of a mapping with n
  -- registers, and the bits of one value to the mappings of these bits.
  pub pass_register_values-blocks :
      (now : ℤ) (g : RegisterGroup) (a : ℕ) (blocks : List Block) (values : List ℕ) (p : Pass D)
      → g.mappings ≡ lay a blocks
      → AreBlocks (p.0) blocks
      → a + total_size blocks < 2 ^ 30
      → pass_register_values now g values p ≡ pass_blocks now g.device blocks values 0 p
  unfolding pass_register_values
  pass_register_values-blocks now g a blocks values p laid h s =
      rw laid (pass_claims-lay now g.device a blocks values 0 p h s)
