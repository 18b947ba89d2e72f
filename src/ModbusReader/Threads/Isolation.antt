-- ===== src/ModbusReader/Threads/Isolation.antt =====
-- The devices' threads of ModbusReader.cpp do not touch each other's mappings.
use more_modbus.Prelude.{
  ℕ, ◌≡◌, refl, sym, ap, ◌∙◌, subst, false, List, [], ◌∷◌, ok, All, ◌==◌, ==_iff, Bool-cases, inl,
  inr, ok-injective, >>=-eq-ok,
}
use more_modbus.Prelude.Int.{ℤ, pos, ◌==ℤ◌}
use more_modbus.RegisterMapping.{Double, get_register_count}
use more_modbus.RegisterGroup.{RegisterGroup, Heap}
use more_modbus.RegisterGroup.Layout.{Block, AreBlocks}
use more_modbus.ModbusGroupReader.Blocks.{AreBlocks-counts}
use more_modbus.ModbusGroupReader.Changes.{read_group-Keep}
use more_modbus.ModbusClient.{LibModbus, ModbusClient}
use more_modbus.ModbusDevice.{ModbusDevice}
use more_modbus.ModbusReader.Rewrite.{
  rewrite_mapping, rewrite_mappings, rewrite_mapping_lem, is_due,
}
use more_modbus.ModbusReader.Threads.Inside.{Inside, same-Inside, store-Inside, Inside-IsKept}
use more_modbus.ModbusReader.Threads.Counts.{
  write_mapping-count, write_bool_mapping-count, write_bit_mapping-count,
}
use more_modbus.ModbusReader.Threads.Forced.{force_read-Inside}
use more_modbus.ModbusReader.Threads.Ownership.{OwnGroups, OwnMappings, IsOwn, move-IsOwn}
use more_modbus.ModbusReader.Threads.{
  Threads, ReadThread, RewriteThread, after_read, report_reading, report_rewriting, begin_rewriting,
  end_rewriting, after_rewrite, set_period, after_write, Move, Moves,
}

module _ {S D : Type 0} ⦃l : LibModbus S⦄ ⦃d : Double D⦄ (groups : ℕ → List RegisterGroup)
    (owner : ℕ → ℕ) where
  -- What belongs to another device stays as it is.
  abbrev pub SameDevice : ℕ → Threads S D → Threads S D → Type 0
  SameDevice j s s' =
      (s'.status j ≡ s.status j)
      × (s'.reading j ≡ s.reading j)
      × (s'.rewriting j ≡ s.rewriting j)
      × (s'.devices j ≡ s.devices j)

  move-SameDevice :
      (i j : ℕ) (s s' : Threads S D)
      → Move groups owner i s s'
      → (j == i) ≡ false
      → SameDevice j s s'
  unfolding after_read end_rewriting report_reading report_rewriting begin_rewriting after_rewrite
      set_period after_write
  move-SameDevice i j s _ (Move.read _ _ now g rest c p done left got) h =
      (refl, rw h refl, refl, refl)
  move-SameDevice i j s _ (Move.report_read _ _ left some) h = (rw h refl, rw h refl, refl, refl)
  move-SameDevice i j s _ (Move.end_rewrite _ _ left none empty) h = (refl, refl, rw h refl, refl)
  move-SameDevice i j s _ (Move.begin_rewrite _ _ left none on some) h =
      (refl, refl, rw h refl, refl)
  move-SameDevice i j s _ (Move.rewrite _ _ now id rest c heap required succeeded left got) h =
      (refl, refl, rw h refl, refl)
  move-SameDevice i j s _ (Move.report_rewrite _ _ left) h = (rw h refl, refl, rw h refl, refl)
  move-SameDevice i j s _ (Move.set_interval _ _ id interval own) h = (refl, refl, refl, rw h refl)
  move-SameDevice i j s _ (Move.write_values _ _ now slaves id values c m done o e) h =
      (refl, refl, refl, refl)
  move-SameDevice i j s _ (Move.write_coil _ _ now slaves id value c m done o e) h =
      (refl, refl, refl, refl)
  move-SameDevice i j s _ (Move.write_bit _ _ now slaves id value c m done o e) h =
      (refl, refl, refl, refl)
  move-SameDevice i j s _ (Move.force_read _ _ now device id c p done o e) h =
      (refl, refl, refl, refl)

module _ {S D : Type 0} ⦃l : LibModbus S⦄ ⦃d : Double D⦄ where
  rewrite_one-Inside :
      (owner : ℕ → ℕ) (now : ℤ) (id : ℕ) (c c' : ModbusClient S) (heap heap' : Heap D)
      (required succeeded required' succeeded' : ℕ)
      → rewrite_mappings now (id ∷ []) c heap required succeeded
        ≡ ok (c', heap', required', succeeded')
      → Inside owner (owner id) heap heap'
  unfolding rewrite_mappings
  rewrite_one-Inside owner now id c c' heap heap' required succeeded required' succeeded' e =
      let skipped : ok (c, heap, required, succeeded) ≡ ok (c', heap', required', succeeded')
          → Inside owner (owner id) heap heap' =
        λ e'.
          subst (λ (t : ModbusClient S × Heap D × ℕ × ℕ). Inside owner (owner id) heap (t.1))
            (ok-injective (c, heap, required, succeeded) (c', heap', required', succeeded') e')
            (same-Inside owner (owner id) heap) in
      elim (Bool-cases ((heap id).repeated_write ==ℤ pos 0)) [
        | inl never ↦ skipped (rw never at e)
        | inr often ↦ elim (Bool-cases (is_due now (heap id))) [
          | inl due ↦
              let ((c₁, m, done), x, y) =
                >>=-eq-ok (rewrite_mapping now c (heap id)) _ (rw (often, due) at e) in
              subst (λ (t : ModbusClient S × Heap D × ℕ × ℕ). Inside owner (owner id) heap (t.1))
                (ok-injective _ (c', heap', required', succeeded') y)
                (store-Inside owner (owner id) id heap m refl
                  (elim (rewrite_mapping_lem now c c₁ (heap id) m done x) [
                    | inl kept ↦ ap get_register_count kept.1
                    | inr new ↦ new.5
                  ]))
          | inr early ↦ skipped (rw (often, early) at e)
        ]
      ]

module _ {S D : Type 0} ⦃l : LibModbus S⦄ ⦃d : Double D⦄ (groups : ℕ → List RegisterGroup)
    (owner : ℕ → ℕ) (own : (i : ℕ) → OwnGroups owner i (groups i)) where
  move-Inside :
      (i : ℕ) (s s' : Threads S D)
      → Move groups owner i s s'
      → IsOwn owner i s
      → Inside owner i s.heap s'.heap
  unfolding after_read end_rewriting report_reading report_rewriting begin_rewriting after_rewrite
      set_period after_write get_register_count
  move-Inside i s _ (Move.read _ _ now g rest c p done left got) h =
      read_group-Keep (λ id. owner id ≡ i) (Inside owner i) (Inside-IsKept owner i) now g
        (s.heap, s.notices) ((rw left at h.remaining).0) s.client c p got
  move-Inside i s _ (Move.report_read _ _ left some) h = same-Inside owner i s.heap
  move-Inside i s _ (Move.end_rewrite _ _ left none empty) h = same-Inside owner i s.heap
  move-Inside i s _ (Move.begin_rewrite _ _ left none on some) h = same-Inside owner i s.heap
  move-Inside i s _ (Move.rewrite _ _ now id rest c heap required succeeded left got) h =
      let mine : OwnMappings owner i (id ∷ rest) = subst (OwnMappings owner i) left h.pending in
      subst (λ j. Inside owner j s.heap heap) mine.0
        (rewrite_one-Inside owner now id s.client c s.heap heap (s.rewriting i).required
          (s.rewriting i).succeeded required succeeded got)
  move-Inside i s _ (Move.report_rewrite _ _ left) h = same-Inside owner i s.heap
  move-Inside i s _ (Move.set_interval _ _ id interval o) h =
      store-Inside owner i id s.heap (record (s.heap id) { repeated_write = interval }) o refl
  move-Inside i s _ (Move.write_values _ _ now slaves id values c m done o e) h =
      store-Inside owner i id s.heap m o
        (write_mapping-count now slaves s.client c (s.heap id) m values done e)
  move-Inside i s _ (Move.write_coil _ _ now slaves id value c m done o e) h =
      store-Inside owner i id s.heap m o
        (write_bool_mapping-count now slaves s.client c (s.heap id) m value done e)
  move-Inside i s _ (Move.write_bit _ _ now slaves id value c m done o e) h =
      store-Inside owner i id s.heap m o
        (write_bit_mapping-count now slaves s.client c (s.heap id) m value done e)
  move-Inside i s _ (Move.force_read _ _ now device id c p done o e) h =
      force_read-Inside owner i now device id o s.client c (s.heap, s.notices) p done e

  -- Every device stays the owner of what its threads are about to use.
  move-AllOwn :
      (i : ℕ) (s s' : Threads S D)
      → Move groups owner i s s'
      → ((k : ℕ) → IsOwn owner k s)
      → (k : ℕ) → IsOwn owner k s'
  move-AllOwn i s s' m h k = elim (Bool-cases (k == i)) [
    | inl same ↦
        subst (λ j. IsOwn owner j s') (sym ((==_iff k i).0 same))
          (move-IsOwn groups owner own i s s' m (h i))
    | inr apart ↦
        let (_, reading, rewriting, devices) = move-SameDevice groups owner i k s s' m apart in
        record {
          remaining =
              subst (λ (t : ReadThread). OwnGroups owner k t.remaining) (sym reading)
                (h k).remaining;
          pending =
              subst (λ (t : RewriteThread). OwnMappings owner k t.pending) (sym rewriting)
                (h k).pending;
          rewrite =
              subst (λ (t : ModbusDevice). OwnMappings owner k t.rewrite) (sym devices)
                (h k).rewrite;
        }
  ]

  -- However the devices' threads and the application's calls take turns, if the groups of each
  -- device, and what its threads are about to use at first, are its own: the mappings, the status,
  -- the list of mappings to rewrite and the threads of a device stay as they are, as long as its
  -- threads do not run and the application calls nothing for its mappings.
  pub Moves-SameDevice :
      (is : List ℕ) (s s' : Threads S D) (j : ℕ)
      → Moves groups owner is s s'
      → ((k : ℕ) → IsOwn owner k s)
      → All (λ i. (j == i) ≡ false) is
      → SameDevice groups owner j s s' × ((id : ℕ) → owner id ≡ j → s'.heap id ≡ s.heap id)
  Moves-SameDevice _ s _ j (Moves.stay _) h apart = ((refl, refl, refl, refl), λ id o. refl)
  Moves-SameDevice _ s s'' j (Moves.go i is _ s' _ m rest) h apart =
      let (a, b, c, e) = move-SameDevice groups owner i j s s' m apart.0 in
      let ((a', b', c', e'), heap) =
        Moves-SameDevice is s' s'' j rest (move-AllOwn i s s' m h) apart.1 in
      (
        (a' ∙ a, b' ∙ b, c' ∙ c, e' ∙ e),
        λ id o. heap id o ∙ (move-Inside i s s' m (h i)).0 id (rw o apart.0),
      )

  -- However the devices' threads and the application's calls take turns, claims that are laid out
  -- as blocks of registers of their mappings stay so, if the groups of each device, and what its
  -- threads are about to use at first, are its own.
  pub Moves-AreBlocks :
      (is : List ℕ) (s s' : Threads S D) (blocks : List Block)
      → Moves groups owner is s s'
      → ((k : ℕ) → IsOwn owner k s)
      → AreBlocks s.heap blocks
      → AreBlocks s'.heap blocks
  Moves-AreBlocks _ s _ blocks (Moves.stay _) h laid = laid
  Moves-AreBlocks _ s s'' blocks (Moves.go i is _ s' _ m rest) h laid =
      Moves-AreBlocks is s' s'' blocks rest (move-AllOwn i s s' m h)
        (AreBlocks-counts s.heap s'.heap blocks ((move-Inside i s s' m (h i)).1) laid)
