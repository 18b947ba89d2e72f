-- ===== src/ModbusReader/Threads/Ownership.antt =====
-- What the devices' threads of ModbusReader.cpp are about to use stays their own.
use more_modbus.Prelude.{
  ℕ, ◌≡◌, subst, Bool, true, false, ◌&&◌, List, [], ◌∷◌, All, All-append, ◌==◌, ==-refl, Bool-cases,
  inl, inr, if◌then◌else◌,
}
use more_modbus.Prelude.Int.{pos, ◌==ℤ◌, ltb_ℤ}
use more_modbus.RegisterMapping.{Double}
use more_modbus.RegisterGroup.{RegisterGroup, Entry}
use more_modbus.ModbusClient.{LibModbus}
use more_modbus.ModbusDevice.{ModbusDevice}
use more_modbus.ModbusDevice.Rewritable.{
  find_mapping, erase_mapping, add_rewritable, remove_rewritable,
}
use more_modbus.ModbusReader.Threads.{
  Threads, after_read, report_reading, report_rewriting, begin_rewriting, end_rewriting,
  after_rewrite, set_period, after_write, Move,
}

-- What a device's threads are about to use is its own.
abbrev pub OwnGroups : (ℕ → ℕ) → ℕ → List RegisterGroup → Type 0
OwnGroups owner i gs =
    All (λ (g : RegisterGroup). All (λ (e : Entry). owner (e.1) ≡ i) g.mappings) gs

abbrev pub OwnMappings : (ℕ → ℕ) → ℕ → List ℕ → Type 0
OwnMappings owner i ids = All (λ id. owner id ≡ i) ids

pub record IsOwn {S D : Type 0} (owner : ℕ → ℕ) (i : ℕ) (s : Threads S D) : Type 0 where
  pub remaining : OwnGroups owner i (s.reading i).remaining
  pub pending : OwnMappings owner i (s.rewriting i).pending
  pub rewrite : OwnMappings owner i (s.devices i).rewrite

erase_mapping-All :
    (P : ℕ → Type 0) (id : ℕ) (ids : List ℕ) → All P ids → All P (erase_mapping id ids)
unfolding erase_mapping
erase_mapping-All P id [] h = tt
erase_mapping-All P id (x ∷ rest) h = elim (Bool-cases (x == id)) [
  | inl same ↦ rw same h.1
  | inr apart ↦ rw apart (h.0, erase_mapping-All P id rest h.1)
]

set-OwnMappings :
    (owner : ℕ → ℕ) (i : ℕ) (device : ModbusDevice) (id : ℕ) (starts stops : Bool)
    → owner id ≡ i
    → OwnMappings owner i device.rewrite
    → OwnMappings owner i
        (if starts
          then add_rewritable device id
          else if stops
          then remove_rewritable device id
          else device).rewrite
unfolding add_rewritable remove_rewritable
set-OwnMappings owner i device id true stops o h =
    elim (Bool-cases (find_mapping id device.rewrite)) [
      | inl found ↦ rw found h
      | inr new ↦ rw new (All-append (λ x. owner x ≡ i) device.rewrite (id ∷ []) h (o, tt))
    ]
set-OwnMappings owner i device id false true o h =
    erase_mapping-All (λ x. owner x ≡ i) id device.rewrite h
set-OwnMappings owner i device id false false o h = h

module _ {S D : Type 0} ⦃l : LibModbus S⦄ ⦃d : Double D⦄ (groups : ℕ → List RegisterGroup)
    (owner : ℕ → ℕ) (own : (i : ℕ) → OwnGroups owner i (groups i)) where
  pub move-IsOwn :
      (i : ℕ) (s s' : Threads S D) → Move groups owner i s s' → IsOwn owner i s → IsOwn owner i s'
  unfolding after_read end_rewriting report_reading report_rewriting begin_rewriting after_rewrite
      set_period after_write
  move-IsOwn i s _ (Move.read _ _ now g rest c p done left got) h = record {
    remaining = rw (==-refl i) ((subst (OwnGroups owner i) left h.remaining).1);
    pending = h.pending;
    rewrite = h.rewrite;
  }
  move-IsOwn i s _ (Move.report_read _ _ left some) h = record {
    remaining = rw (==-refl i) (own i);
    pending = h.pending;
    rewrite = h.rewrite;
  }
  move-IsOwn i s _ (Move.end_rewrite _ _ left none empty) h = record {
    remaining = h.remaining;
    pending = rw (==-refl i) h.pending;
    rewrite = h.rewrite;
  }
  move-IsOwn i s _ (Move.begin_rewrite _ _ left none on some) h = record {
    remaining = h.remaining;
    pending = rw (==-refl i) h.rewrite;
    rewrite = h.rewrite;
  }
  move-IsOwn i s _ (Move.rewrite _ _ now id rest c heap required succeeded left got) h = record {
    remaining = h.remaining;
    pending = rw (==-refl i) ((subst (OwnMappings owner i) left h.pending).1);
    rewrite = h.rewrite;
  }
  move-IsOwn i s _ (Move.report_rewrite _ _ left) h = record {
    remaining = h.remaining;
    pending = rw (==-refl i) tt;
    rewrite = h.rewrite;
  }
  move-IsOwn i s _ (Move.set_interval _ _ id interval o) h = record {
    remaining = h.remaining;
    pending = h.pending;
    rewrite = rw (==-refl i) (
        set-OwnMappings owner i (s.devices i) id
          ((s.heap id).repeated_write ==ℤ pos 0 && ltb_ℤ (pos 0) interval)
          (ltb_ℤ (pos 0) (s.heap id).repeated_write && interval ==ℤ pos 0) o h.rewrite);
  }
  move-IsOwn i s _ (Move.write_values _ _ now slaves id values c m done o e) h = record {
    remaining = h.remaining;
    pending = h.pending;
    rewrite = h.rewrite;
  }
  move-IsOwn i s _ (Move.write_coil _ _ now slaves id value c m done o e) h = record {
    remaining = h.remaining;
    pending = h.pending;
    rewrite = h.rewrite;
  }
  move-IsOwn i s _ (Move.write_bit _ _ now slaves id value c m done o e) h = record {
    remaining = h.remaining;
    pending = h.pending;
    rewrite = h.rewrite;
  }
  move-IsOwn i s _ (Move.force_read _ _ now device id c p done o e) h = record {
    remaining = h.remaining;
    pending = h.pending;
    rewrite = h.rewrite;
  }
