-- ===== src/ModbusGroupReader/Memory.antt =====
-- readGroup of a group of registers, against the registers of the device as libmodbus shows them.
use more_modbus.Prelude.{
  ℕ, zero, suc, ◌+◌, ◌^◌, ◌<◌, ◌≤◌, ◌≡◌, refl, sym, ap, Bool, ◌∙◌, true, false, List, [], ◌∷◌,
  Option, Result, ok, ◌>>=◌, arith, length, get_elem?, >>=_congr, if◌then◌else◌,
}
use more_modbus.Prelude.Int.{ℤ, pos}
use more_modbus.DataParsers.{separate_bits}
use more_modbus.RegisterMapping.{
  RegisterType, coil, input_contact, holding_register, input_register, Double,
}
use more_modbus.RegisterGroup.{RegisterGroup, starting_address}
use more_modbus.RegisterGroup.Layout.{Block, registers, bits, total_size, lay, AreBlocks}
use more_modbus.RegisterGroup.Count.{get_address_count-lay}
use more_modbus.ModbusClient.{
  LibModbus, ModbusClient, fill, read_holding_registers, read_input_registers,
}
use more_modbus.ModbusClient.Buffers.{fill_exact}
use more_modbus.ModbusGroupReader.{Pass, at-some, next_values, pass_registers, pass_register_values}
use more_modbus.ModbusGroupReader.Reading.{read_group, read_group_by}
use more_modbus.ModbusGroupReader.Blocks.{pass_bit_list, pass_blocks, pass_register_values-blocks}

-- The `n` registers from address `a` on.
abbrev pub slice : (ℕ → ℕ) → ℕ → ℕ → List ℕ
slice mem a zero = []
slice mem a (suc n) = mem a ∷ slice mem (a + 1) n

length-slice : (mem : ℕ → ℕ) (a n : ℕ) → length (slice mem a n) ≡ n
length-slice mem a zero = refl
length-slice mem a (suc n) = ap suc (length-slice mem (a + 1) n)

get_elem?-slice :
    (mem : ℕ → ℕ) (a n i : ℕ) → i < n → get_elem? (slice mem a n) i ≡ Option.some (mem (a + i))
get_elem?-slice mem a zero i h = absurd (omega arith)
get_elem?-slice mem a (suc n) zero h = ap (λ k. Option.some (mem k)) (omega arith)
get_elem?-slice mem a (suc n) (suc i) h =
    get_elem?-slice mem (a + 1) n i (omega arith) ∙ ap (λ k. Option.some (mem k)) (omega arith)

next_values-slice :
    (mem : ℕ → ℕ) (a n k i : ℕ)
    → i + k ≤ n
    → next_values k (slice mem a n) i ≡ ok (slice mem (a + i) k)
unfolding next_values
next_values-slice mem a n zero i h = refl
next_values-slice mem a n (suc k) i h =
    rw
      (
        at-some (slice mem a n) i (mem (a + i)) (get_elem?-slice mem a n i (omega arith)),
        next_values-slice mem a n k (i + 1) (omega arith),
      )
      (ap (λ j. ok (mem (a + i) ∷ slice mem j k)) (omega arith))

module _ {D : Type 0} ⦃d : Double D⦄ where
  -- Each block is offered what the device holds at the block's own addresses: a mapping its
  -- registers, and the mappings of bits the bits of their register.
  abbrev pub pass_memory : ℤ → Option ℕ → (ℕ → ℕ) → ℕ → List Block → Pass D → Result (Pass D)
  pass_memory now device mem a [] p = ok p
  pass_memory now device mem a (registers id n ∷ rest) p =
      pass_registers now device id (slice mem a n) p >>= λ p'.
      pass_memory now device mem (a + n) rest p'
  pass_memory now device mem a (bits bs ∷ rest) p =
      pass_bit_list now device (separate_bits (mem a)) bs p >>= λ p'.
      pass_memory now device mem (a + 1) rest p'

  pass_blocks-slice :
      (now : ℤ) (device : Option ℕ) (mem : ℕ → ℕ) (a n : ℕ) (blocks : List Block) (i : ℕ)
      (p : Pass D)
      → i + total_size blocks ≤ n
      → pass_blocks now device blocks (slice mem a n) i p
        ≡ pass_memory now device mem (a + i) blocks p
  pass_blocks-slice now device mem a n [] i p h = refl
  pass_blocks-slice now device mem a n (registers id k ∷ rest) i p h =
      rw (next_values-slice mem a n k i (omega arith)) (
        >>=_congr (pass_registers now device id (slice mem (a + i) k) p) (λ p' _.
          pass_blocks-slice now device mem a n rest (i + k) p' (omega arith)
          ∙ ap (λ j. pass_memory now device mem j rest p') (omega arith)))
  pass_blocks-slice now device mem a n (bits bs ∷ rest) i p h =
      rw (at-some (slice mem a n) i (mem (a + i)) (get_elem?-slice mem a n i (omega arith))) (
        >>=_congr (pass_bit_list now device (separate_bits (mem (a + i))) bs p) (λ p' _.
          pass_blocks-slice now device mem a n rest (i + 1) p' (omega arith)
          ∙ ap (λ j. pass_memory now device mem j rest p') (omega arith)))

module _ {S : Type 0} ⦃l : LibModbus S⦄ where
  -- libmodbus's read of registers of a type.
  abbrev pub read_words : RegisterType → ℤ → ℕ → S → S × Option (List ℕ)
  read_words holding_register = l.modbus_read_registers
  read_words input_register = l.modbus_read_input_registers
  read_words coil = λ a n s. (s, Option.none)
  read_words input_contact = λ a n s. (s, Option.none)

module _ {S D : Type 0} ⦃l : LibModbus S⦄ ⦃d : Double D⦄ (now : ℤ) (g : RegisterGroup) (mem : ℕ → ℕ)
    (a : ℕ) (first : Block) (rest : List Block) (c : ModbusClient S) (p : Pass D)
    (laid : g.mappings ≡ lay a (first ∷ rest)) (blocks : AreBlocks (p.0) (first ∷ rest))
    (room : a + total_size (first ∷ rest) ≤ 2 ^ 15)
    (set : (l.modbus_set_slave g.slave_address c.lib).1 ≡ true) where
  abbrev size : ℕ
  size = total_size (first ∷ rest)

  abbrev chosen : S
  chosen = (l.modbus_set_slave g.slave_address c.lib).0

  passed_slice :
      pass_register_values now g (slice mem a size) p
      ≡ pass_memory now g.device mem a (first ∷ rest) p
  passed_slice =
      pass_register_values-blocks now g a (first ∷ rest) (slice mem a size) p laid blocks
        (omega arith)
      ∙ pass_blocks-slice now g.device mem a size (first ∷ rest) 0 p (omega arith)
      ∙ ap (λ j. pass_memory now g.device mem j (first ∷ rest) p) (omega arith)

  filled : fill size (slice mem a size) ≡ ok (slice mem a size)
  filled =
      ap (λ n. fill n (slice mem a size)) (sym (length-slice mem a size))
      ∙ fill_exact (slice mem a size)

  read_group_by-memory :
      (type : RegisterType)
      → (read_words type (pos a) size chosen).1 ≡ Option.some (slice mem a size)
      → read_group_by type now g (pos a) c p ≡ (
          pass_memory now g.device mem a (first ∷ rest) p >>= λ p'.
          ok (record c { lib = (read_words type (pos a) size chosen).0 }, p', true))
  unfolding read_group_by read_holding_registers read_input_registers
  read_group_by-memory holding_register e =
      rw
        (
          set,
          (get_address_count-lay (p.0) g a first rest laid blocks room).1,
          e,
          filled,
          passed_slice,
        )
        refl
  read_group_by-memory input_register e =
      rw
        (
          set,
          (get_address_count-lay (p.0) g a first rest laid blocks room).1,
          e,
          filled,
          passed_slice,
        )
        refl
  read_group_by-memory coil e = cc
  read_group_by-memory input_contact e = cc

  -- When a group may be read and is laid out as blocks of registers from an address on, in the
  -- range of an int16, the slave is set, and libmodbus's read of the group's type shows what the
  -- device holds, readGroup offers each mapping what the device holds at its own addresses, and
  -- reports success unless an update fails; the client is left as libmodbus leaves it.
  pub read_group_memory :
      g.read_restricted ≡ false
      → (read_words g.register_type (pos a) size chosen).1 ≡ Option.some (slice mem a size)
      → read_group now g c p ≡ (
          pass_memory now g.device mem a (first ∷ rest) p >>= λ p'.
          ok (record c { lib = (read_words g.register_type (pos a) size chosen).0 }, p', true))
  unfolding read_group
  read_group_memory allowed e =
      let read : ℤ → Result (ModbusClient S × Pass D × Bool) =
        λ start. read_group_by g.register_type now g start c p in
      ap (λ b. if b then ok (c, p, true) else starting_address g >>= read) allowed
      ∙ ap (λ r. r >>= read) (get_address_count-lay (p.0) g a first rest laid blocks room).0
      ∙ read_group_by-memory g.register_type e
