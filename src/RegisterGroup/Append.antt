-- ===== src/RegisterGroup/Append.antt =====
-- addMapping of RegisterGroup.cpp on a group that is laid out as blocks, for a mapping that does
-- not start before the group's last block.
use more_modbus.Prelude.{
  ℕ, zero, suc, ◌+◌, ◌^◌, ◌≤◌, ◌<◌, ◌≡◌, refl, sym, ap, ◌∙◌, true, false, List, [], ◌∷◌, ◌++◌,
  arith, All, All-append, All-imp,
}
use mathlib.Core.List.{append_assoc, append-nil}
use more_modbus.Prelude.Int.{pos, ◌+ℤ◌, ◌-ℤ◌}
use more_modbus.RegisterGroup.{
  Heap, Entry, claim, claim_less, emplace, append_claims, get_address_from_string,
  get_bit_from_string,
}
use more_modbus.RegisterGroup.Layout.{
  Block, registers, bits, block_size, total_size, run_claims, bit_claims, block_claims, lay,
  AreBlocks, address-claim, address-bit_claim,
}

-- The set's order puts `d` before `e`.
abbrev pub Before : Entry → Entry → Type 0
Before e d = (claim_less (d.0) (e.0) ≡ true) × (claim_less (e.0) (d.0) ≡ false)

pub emplace_last :
    (e : Entry) (entries : List Entry)
    → All (Before e) entries
    → emplace e entries ≡ entries ++ (e ∷ [])
unfolding emplace
emplace_last e [] h = refl
emplace_last e (d ∷ rest) h = rw (h.0.0, h.0.1) (ap (λ t. d ∷ t) (emplace_last e rest h.1))

Before-address :
    (d e : Entry) (x y : ℕ)
    → get_address_from_string (d.0) ≡ pos x
    → get_address_from_string (e.0) ≡ pos y
    → x < y
    → Before e d
unfolding claim_less ◌-ℤ◌
Before-address d e x y h k l = rw (h, k) (ground arith, ground arith)

pub Before-bit :
    (d e : Entry) (x b c : ℕ)
    → get_address_from_string (d.0) ≡ pos x
    → get_address_from_string (e.0) ≡ pos x
    → get_bit_from_string (d.0) ≡ pos b
    → get_bit_from_string (e.0) ≡ pos c
    → b < c
    → Before e d
unfolding claim_less ◌-ℤ◌
Before-bit d e x b c h k i j l = rw (h, k, i, j) (ground arith, ground arith)

-- Claims of registers below an address.
abbrev pub IsBelow : ℕ → Entry → Type 0
IsBelow y d = (x : ℕ) × (get_address_from_string (d.0) ≡ pos x) × (x < y)

pub Before-IsBelow :
    (e : Entry) (y : ℕ) (entries : List Entry)
    → get_address_from_string (e.0) ≡ pos y
    → All (IsBelow y) entries
    → All (Before e) entries
Before-IsBelow e y entries k h =
    All-imp (IsBelow y) (Before e) entries (λ d b. Before-address d e (b.0) y (b.1) k (b.2)) h

IsBelow-run : (n a y id : ℕ) → a + n ≤ y → y < 2 ^ 30 → All (IsBelow y) (run_claims n a id)
IsBelow-run zero a y id h s = tt
IsBelow-run (suc n) a y id h s =
    ((a, address-claim a (omega arith), omega arith), IsBelow-run n (a + 1) y id (omega arith) s)

IsBelow-bits :
    (a y : ℕ) (bs : List (ℕ × ℕ))
    → All (λ b. b.0 < 16) bs
    → a < y
    → y < 2 ^ 30
    → All (IsBelow y) (bit_claims a bs)
IsBelow-bits a y [] h l s = tt
IsBelow-bits a y ((bit, id) ∷ bs) h l s =
    ((a, address-bit_claim a bit (omega arith) h.0, l), IsBelow-bits a y bs h.1 l s)

pub IsBelow-lay :
    {D : Type 0} (heap : Heap D) (a y : ℕ) (blocks : List Block)
    → AreBlocks heap blocks
    → a + total_size blocks ≤ y
    → y < 2 ^ 30
    → All (IsBelow y) (lay a blocks)
IsBelow-lay heap a y [] h l s = tt
IsBelow-lay heap a y (registers id n ∷ rest) h l s =
    All-append (IsBelow y) (run_claims n a id) (lay (a + n) rest)
      (IsBelow-run n a y id (omega arith) s) (IsBelow-lay heap (a + n) y rest h.1 (omega arith) s)
IsBelow-lay heap a y (bits bs ∷ rest) h l s =
    All-append (IsBelow y) (bit_claims a bs) (lay (a + 1) rest)
      (IsBelow-bits a y bs h.0.1 (omega arith) s)
      (IsBelow-lay heap (a + 1) y rest h.1 (omega arith) s)

-- The claims of a mapping go behind all claims of lower addresses.
pos_suc : (y : ℕ) → pos y +ℤ pos 1 ≡ pos (y + 1)
unfolding ◌+ℤ◌
pos_suc y = ground arith

pub append_claims-run :
    (n y id : ℕ) (entries : List Entry)
    → All (IsBelow y) entries
    → y + n < 2 ^ 30
    → append_claims n (pos y) id entries ≡ entries ++ run_claims n y id
unfolding append_claims
append_claims-run zero y id entries h s = sym (append-nil entries)
append_claims-run (suc n) y id entries h s =
    let e : Entry = (claim (pos y), id) in
    let at_y = address-claim y (omega arith) in
    let h' =
      All-append (IsBelow (y + 1)) entries (e ∷ [])
        (All-imp (IsBelow y) (IsBelow (y + 1)) entries (λ d b. (b.0, b.1, omega arith)) h)
        ((y, at_y, omega arith), tt) in
    ap (λ t. append_claims n t id (emplace e entries)) (pos_suc y)
    ∙ ap (λ t. append_claims n (pos (y + 1)) id t)
        (emplace_last e entries (Before-IsBelow e y entries at_y h))
    ∙ append_claims-run n (y + 1) id (entries ++ (e ∷ [])) h' (omega arith)
    ∙ append_assoc entries (e ∷ []) (run_claims n (y + 1) id)

-- A last block, laid out.
pub lay_last :
    (a : ℕ) (blocks : List Block) (b : Block)
    → lay a (blocks ++ (b ∷ [])) ≡ lay a blocks ++ block_claims (a + total_size blocks) b
lay_last a [] b = append-nil (block_claims a b) ∙ ap (λ (n : ℕ). block_claims n b) (omega arith)
lay_last a (c ∷ rest) b =
    ap (λ t. block_claims a c ++ t) (lay_last (a + block_size c) rest b)
    ∙ ap (λ (n : ℕ). block_claims a c ++ (lay (a + block_size c) rest ++ block_claims n b))
        (omega arith)
    ∙ sym (
        append_assoc (block_claims a c) (lay (a + block_size c) rest)
          (block_claims (a + total_size (c ∷ rest)) b))

pub total_size_last :
    (blocks : List Block) (b : Block)
    → total_size (blocks ++ (b ∷ [])) ≡ total_size blocks + block_size b
total_size_last [] b = omega arith
total_size_last (c ∷ rest) b = omega (arith, total_size_last rest b)
