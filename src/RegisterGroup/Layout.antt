-- ===== src/RegisterGroup/Layout.antt =====
-- The claims of a group whose registers lie next to each other: a list of blocks, laid out from an
-- address on. The claims are those of RegisterGroup.cpp.
use more_modbus.Prelude.{ℕ, zero, suc, ◌+◌, ◌^◌, ◌<◌, ◌≡◌, List, [], ◌∷◌, ◌++◌, arith, All, length}
use more_modbus.Prelude.Int.{pos, negsuc}
use more_modbus.RegisterMapping.{get_register_count}
use more_modbus.RegisterGroup.{
  Entry, Heap, claim, bit_claim, get_address_from_string, get_bit_from_string,
}
use more_modbus.RegisterGroup.Claims.{claim_round_trip}

-- The registers of one mapping, or the bits of one register: each with its index and its mapping.
pub data Block : Type 0 where
  registers : (id n : ℕ) → Block
  bits : List (ℕ × ℕ) → Block

-- How many addresses a block takes.
abbrev pub block_size : Block → ℕ
block_size (registers id n) = n
block_size (bits bs) = 1

abbrev pub total_size : List Block → ℕ
total_size [] = 0
total_size (b ∷ rest) = block_size b + total_size rest

abbrev pub run_claims : ℕ → ℕ → ℕ → List Entry
run_claims zero address id = []
run_claims (suc n) address id = (claim (pos address), id) ∷ run_claims n (address + 1) id

abbrev pub bit_claims : ℕ → List (ℕ × ℕ) → List Entry
bit_claims address [] = []
bit_claims address ((bit, id) ∷ rest) =
    (bit_claim (pos address) (pos bit), id) ∷ bit_claims address rest

abbrev pub block_claims : ℕ → Block → List Entry
block_claims address (registers id n) = run_claims n address id
block_claims address (bits bs) = bit_claims address bs

abbrev pub lay : ℕ → List Block → List Entry
lay address [] = []
lay address (b ∷ rest) = block_claims address b ++ lay (address + block_size b) rest

-- Blocks are not empty, and bits are those of a register.
abbrev pub IsBits : List (ℕ × ℕ) → Type 0
IsBits bs = (0 < length bs) × All (λ b. b.0 < 16) bs

-- The mapping of a block of registers has as many.
abbrev pub IsBlock : {D : Type 0} → Heap D → Block → Type 0
IsBlock heap (registers id n) = (0 < n) × (get_register_count (heap id) ≡ pos n)
IsBlock heap (bits bs) = IsBits bs

abbrev pub AreBlocks : {D : Type 0} → Heap D → List Block → Type 0
AreBlocks heap blocks = All (IsBlock heap) blocks

-- What the claims of such an address are read back as.
pub address-claim : (a : ℕ) → a < 2 ^ 31 → get_address_from_string (claim (pos a)) ≡ pos a
address-claim a h =
    (claim_round_trip (pos a) (pos 0) (omega arith, omega arith) (omega arith, omega arith)).0

pub address-bit_claim :
    (a b : ℕ) → a < 2 ^ 31 → b < 16 → get_address_from_string (bit_claim (pos a) (pos b)) ≡ pos a
address-bit_claim a b h k =
    (claim_round_trip (pos a) (pos b) (omega arith, omega arith) (omega arith, omega arith)).2

pub bit-bit_claim :
    (a b : ℕ) → a < 2 ^ 31 → b < 16 → get_bit_from_string (bit_claim (pos a) (pos b)) ≡ pos b
bit-bit_claim a b h k =
    (claim_round_trip (pos a) (pos b) (omega arith, omega arith) (omega arith, omega arith)).3

pub bit-claim : (a : ℕ) → a < 2 ^ 31 → get_bit_from_string (claim (pos a)) ≡ negsuc 0
bit-claim a h =
    (claim_round_trip (pos a) (pos 0) (omega arith, omega arith) (omega arith, omega arith)).1

-- The next claim behind a block is of another register.
abbrev pub StartsAt : ℕ → List Entry → Type 0
StartsAt a [] = Unit {0}
StartsAt a (e ∷ rest) = get_address_from_string (e.0) ≡ pos a

pub lay-StartsAt :
    {D : Type 0} (heap : Heap D) (a : ℕ) (blocks : List Block)
    → AreBlocks heap blocks
    → a < 2 ^ 31
    → StartsAt a (lay a blocks)
lay-StartsAt heap a [] h s = tt
lay-StartsAt heap a (registers id zero ∷ rest) h s = absurd (omega arith)
lay-StartsAt heap a (registers id (suc n) ∷ rest) h s = address-claim a s
lay-StartsAt heap a (bits [] ∷ rest) h s = absurd (omega arith)
lay-StartsAt heap a (bits ((bit, id) ∷ bs) ∷ rest) h s = address-bit_claim a bit s h.0.1.0
