-- ===== src/RegisterGroup/Count.antt =====
-- getAddressCount and getStartingAddress of a group that is laid out as blocks.
use more_modbus.Prelude.{
  ℕ, zero, suc, ◌+◌, ◌^◌, ◌≤◌, ◌<◌, ◌≡◌, refl, ap, ◌∙◌, true, false, List, [], ◌∷◌, ◌++◌, arith,
  All, length, ok,
}
use native.Mathlib.Nat.{add-zero}
use more_modbus.Prelude.Int.{ℤ, pos, mod_ℤ}
use more_modbus.DataParsers.{uint16_to_int16}
use more_modbus.RegisterGroup.{
  RegisterGroup, first_claim, starting_address, get_address_count, Heap, Entry, contains,
  distinct_addresses, get_address_from_string, claim, bit_claim,
}
use more_modbus.RegisterGroup.Layout.{
  Block, registers, bits, block_size, total_size, run_claims, bit_claims, block_claims, lay,
  IsBlock, AreBlocks, address-claim, address-bit_claim,
}

-- The addresses from `a` on.
abbrev pub span : ℕ → ℕ → List ℤ
span a zero = []
span a (suc k) = pos a ∷ span (a + 1) k

length-span : (a k : ℕ) → length (span a k) ≡ k
length-span a zero = refl
length-span a (suc k) = ap suc (length-span (a + 1) k)

span-suc : (a k : ℕ) → span a k ++ (pos (a + k) ∷ []) ≡ span a (suc k)
span-suc a zero = ap (λ (n : ℕ). pos n ∷ []) (omega arith)
span-suc a (suc k) =
    ap (λ (n : ℕ). pos a ∷ (span (a + 1) k ++ (pos n ∷ []))) (omega arith)
    ∙ ap (λ (t : List ℤ). pos a ∷ t) (span-suc (a + 1) k)

contains-span_new : (a k x : ℕ) → a + k ≤ x → contains (pos x) (span a k) ≡ false
unfolding contains
contains-span_new a zero x h = refl
contains-span_new a (suc k) x h = ground (arith, contains-span_new (a + 1) k x)

contains-span_last : (a k x : ℕ) → a + k ≡ x → contains (pos x) (span a (suc k)) ≡ true
unfolding contains
contains-span_last a zero x h = ground arith
contains-span_last a (suc k) x h = ground (arith, contains-span_last (a + 1) k x)

cast_small : (x : ℕ) → x < 2 ^ 15 → uint16_to_int16 (mod_ℤ (pos x) (2 ^ 16)) ≡ pos x
unfolding uint16_to_int16
cast_small x h = ground arith

-- A claim of the next address counts, and another of the same address does not.
distinct_new :
    (a k x : ℕ) (e : Entry) (rest : List Entry)
    → get_address_from_string (e.0) ≡ pos x
    → a + k ≡ x
    → x < 2 ^ 15
    → distinct_addresses (span a k) (e ∷ rest) ≡ distinct_addresses (span a (suc k)) rest
unfolding distinct_addresses
distinct_new a k x e rest h eq s =
    rw (h, contains-span_new a k x (omega arith), cast_small x s, ← eq)
      (ap (λ t. distinct_addresses t rest) (span-suc a k))

distinct_seen :
    (seen : List ℤ) (e : Entry) (rest : List Entry)
    → contains (get_address_from_string (e.0)) seen ≡ true
    → distinct_addresses seen (e ∷ rest) ≡ distinct_addresses seen rest
unfolding distinct_addresses
distinct_seen seen e rest h = rw h refl

distinct_same :
    (a k x : ℕ) (e : Entry) (rest : List Entry)
    → get_address_from_string (e.0) ≡ pos x
    → a + k ≡ x
    → distinct_addresses (span a (suc k)) (e ∷ rest) ≡ distinct_addresses (span a (suc k)) rest
distinct_same a k x e rest h eq =
    distinct_seen (span a (suc k)) e rest
      (ap (λ t. contains t (span a (suc k))) h ∙ contains-span_last a k x eq)

distinct_run :
    (a k n x id : ℕ) (rest : List Entry)
    → a + k ≡ x
    → x + n ≤ 2 ^ 15
    → distinct_addresses (span a k) (run_claims n x id ++ rest)
      ≡ distinct_addresses (span a (k + n)) rest
distinct_run a k zero x id rest eq s = rw (add-zero k) refl
distinct_run a k (suc n) x id rest eq s =
    distinct_new a k x (claim (pos x), id) (run_claims n (x + 1) id ++ rest)
      (address-claim x (omega arith)) eq (omega arith)
    ∙ distinct_run a (suc k) n (x + 1) id rest (omega arith) (omega arith)
    ∙ ap (λ (m : ℕ). distinct_addresses (span a m) rest) (omega arith)

distinct_bits :
    (a k x : ℕ) (bs : List (ℕ × ℕ)) (rest : List Entry)
    → All (λ b. b.0 < 16) bs
    → a + k ≡ x
    → x < 2 ^ 15
    → distinct_addresses (span a (suc k)) (bit_claims x bs ++ rest)
      ≡ distinct_addresses (span a (suc k)) rest
distinct_bits a k x [] rest h eq s = refl
distinct_bits a k x ((bit, id) ∷ bs) rest h eq s =
    distinct_same a k x (bit_claim (pos x) (pos bit), id) (bit_claims x bs ++ rest)
      (address-bit_claim x bit (omega arith) h.0) eq
    ∙ distinct_bits a k x bs rest h.1 eq s

distinct_lay :
    {D : Type 0} (heap : Heap D) (a k x : ℕ) (blocks : List Block)
    → AreBlocks heap blocks
    → a + k ≡ x
    → x + total_size blocks ≤ 2 ^ 15
    → distinct_addresses (span a k) (lay x blocks) ≡ span a (k + total_size blocks)
unfolding distinct_addresses
distinct_lay heap a k x [] h eq s = ap (span a) (omega arith)
distinct_lay heap a k x (registers id n ∷ rest) h eq s =
    distinct_run a k n x id (lay (x + n) rest) eq (omega arith)
    ∙ distinct_lay heap a (k + n) (x + n) rest h.1 (omega arith) (omega arith)
    ∙ ap (span a) (omega arith)
distinct_lay heap a k x (bits [] ∷ rest) h eq s = absurd (omega arith)
distinct_lay heap a k x (bits ((bit, id) ∷ bs) ∷ rest) h eq s =
    distinct_new a k x (bit_claim (pos x) (pos bit), id) (bit_claims x bs ++ lay (x + 1) rest)
      (address-bit_claim x bit (omega arith) h.0.1.0) eq (omega arith)
    ∙ distinct_bits a k x bs (lay (x + 1) rest) h.0.1.1 eq (omega arith)
    ∙ distinct_lay heap a (suc k) (x + 1) rest h.1 (omega arith) (omega arith)
    ∙ ap (span a) (omega arith)

-- A group that is laid out as blocks below address 2^15 starts where its first block does, and its
-- number of addresses is the sum of the blocks' sizes.
pub get_address_count-lay :
    {D : Type 0} (heap : Heap D) (g : RegisterGroup) (a : ℕ) (first : Block) (rest : List Block)
    → g.mappings ≡ lay a (first ∷ rest)
    → AreBlocks heap (first ∷ rest)
    → a + total_size (first ∷ rest) ≤ 2 ^ 15
    → (starting_address g ≡ ok (pos a)) × (get_address_count g ≡ total_size (first ∷ rest))
unfolding get_address_count starting_address first_claim
get_address_count-lay heap g a first rest laid h s = (
  rw laid (starts first h.0),
  rw
      (
        laid,
        distinct_lay heap a 0 a (first ∷ rest) h (omega arith) s,
        length-span a (0 + total_size (first ∷ rest)),
      )
      (omega arith),
)
  where
    starts :
        (b : Block)
        → IsBlock heap b
        → first_claim (block_claims a b ++ lay (a + block_size b) rest) ≡ ok (pos a)
    starts (registers id zero) k = absurd (omega arith)
    starts (registers id (suc n)) k = ap ok (address-claim a (omega arith))
    starts (bits []) k = absurd (omega arith)
    starts (bits ((bit, id) ∷ bs)) k = ap ok (address-bit_claim a bit (omega arith) k.1.0)
