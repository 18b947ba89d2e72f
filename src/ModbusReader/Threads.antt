-- ===== src/ModbusReader/Threads.antt =====
-- more_modbus/ModbusReader.cpp: the threads of readDevice and rewriteDevice of all devices, as they
-- take turns, and RegisterMapping::setRepeatedWrite and the three writes and forceReadOfMapping,
-- which the application calls in between. What is done to one group or to one mapping is one step;
-- the main thread waits. `groups i` are the groups of device `i`, which do not change while the
-- threads run, and `owner id` is the device of the group of the mapping `id`.
pub mod Counts
pub mod Inside
pub mod Forced
pub mod Ownership
pub mod Isolation
pub mod Reads
use more_modbus.Prelude.{
  ℕ, ◌+◌, ◌%◌, ◌^◌, ◌<◌, ◌≡◌, Bool, true, false, not, ◌&&◌, List, [], ◌∷◌, Option, Result, ok, ◌==◌,
  if◌then◌else◌, length,
}
use more_modbus.Prelude.Int.{ℤ, pos, ◌==ℤ◌, ltb_ℤ}
use more_modbus.RegisterMapping.{Double, RegisterMapping}
use more_modbus.RegisterGroup.{RegisterGroup, Heap, store}
use more_modbus.ModbusGroupReader.{Notice, Pass}
use more_modbus.ModbusGroupReader.Reading.{read_group}
use more_modbus.ModbusClient.{LibModbus, ModbusClient}
use more_modbus.ModbusDevice.{ModbusDevice}
use more_modbus.ModbusDevice.Rewritable.{add_rewritable, remove_rewritable}
use more_modbus.ModbusReader.Status.{DeviceStatus, report_status}
use more_modbus.ModbusReader.Rewrite.{rewrite_mappings}
use more_modbus.ModbusReader.{
  force_read_of_mapping, write_mapping, write_bool_mapping, write_bit_mapping,
}

-- A thread of readDevice: the groups left in this turn, and `unreadGroups`.
pub record ReadThread : Type 0 where
  pub remaining : List RegisterGroup
  pub unread : ℕ

-- A thread of rewriteDevice: the mappings left in this turn, `requiredMappings` and
-- `succeededMappings`. The thread ends when it finds the device's list empty.
pub record RewriteThread : Type 0 where
  pub pending : List ℕ
  pub required : ℕ
  pub succeeded : ℕ
  pub ended : Bool

pub record Threads (S D : Type 0) : Type 0 where
  pub client : ModbusClient S
  pub heap : Heap D
  pub notices : List Notice
  pub devices : ℕ → ModbusDevice
  pub status : ℕ → DeviceStatus
  pub reading : ℕ → ReadThread
  pub rewriting : ℕ → RewriteThread

-- The entry of one device.
abbrev pub with_entry : {A : Type 0} → (ℕ → A) → ℕ → A → ℕ → A
with_entry f i a j = if j == i then a else f j

module _ {S D : Type 0} where
  -- After a group was read, or not.
  unfoldable pub after_read :
      Threads S D → ℕ → List RegisterGroup → ModbusClient S → Pass D → Bool → Threads S D
  after_read s i rest c p read = record s {
    client = c;
    heap = p.0;
    notices = p.1;
    reading = with_entry s.reading i (record {
      remaining = rest;
      unread = if read then (s.reading i).unread else (((s.reading i).unread + 1) % 2 ^ 16);
    });
  }

  -- The end of a turn of readDevice, and the start of the next.
  unfoldable pub report_reading : List RegisterGroup → Threads S D → ℕ → Threads S D
  report_reading groups s i = record s {
    status =
        with_entry s.status i
          (report_status (s.status i) (not ((s.reading i).unread == length groups)));
    reading = with_entry s.reading i (record { remaining = groups; unread = 0 });
  }

  -- The end of a turn of rewriteDevice.
  unfoldable pub report_rewriting : Threads S D → ℕ → Threads S D
  report_rewriting s i =
      let t = s.rewriting i in
      record s {
        status = with_entry s.status i (
            if t.required == 0
            then s.status i
            else report_status (s.status i) (not (t.succeeded == 0)));
        rewriting =
            with_entry s.rewriting i (record t { pending = []; required = 0; succeeded = 0 });
      }

  -- The start of the next one, which copies the device's list.
  unfoldable pub begin_rewriting : Threads S D → ℕ → Threads S D
  begin_rewriting s i = record s {
    rewriting =
        with_entry s.rewriting i
          (record (s.rewriting i) { pending = (s.devices i).rewrite; required = 0; succeeded = 0 });
  }

  -- The end of the thread, where there is nothing to rewrite.
  unfoldable pub end_rewriting : Threads S D → ℕ → Threads S D
  end_rewriting s i = record s {
    rewriting = with_entry s.rewriting i (record (s.rewriting i) { ended = true });
  }

  unfoldable pub after_rewrite :
      Threads S D → ℕ → List ℕ → ModbusClient S → Heap D → (required succeeded : ℕ) → Threads S D
  after_rewrite s i rest c heap required succeeded = record s {
    client = c;
    heap = heap;
    rewriting =
        with_entry s.rewriting i
          (record (s.rewriting i) { pending = rest; required = required; succeeded = succeeded });
  }

  -- RegisterMapping::setRepeatedWrite of a mapping of the device.
  unfoldable pub set_period : Threads S D → ℕ → ℕ → ℤ → Threads S D
  set_period s i id interval =
      let m = s.heap id in
      let starts = m.repeated_write ==ℤ pos 0 && ltb_ℤ (pos 0) interval in
      let stops = ltb_ℤ (pos 0) m.repeated_write && interval ==ℤ pos 0 in
      record s {
        heap = store s.heap id (record m { repeated_write = interval });
        devices = with_entry s.devices i (
            if starts
            then add_rewritable (s.devices i) id
            else if stops
            then remove_rewritable (s.devices i) id
            else s.devices i);
      }

  -- After the application has written one mapping.
  unfoldable pub after_write : Threads S D → ℕ → ModbusClient S → RegisterMapping D → Threads S D
  after_write s id c m = record s { client = c; heap = store s.heap id m }

module _ {S D : Type 0} ⦃l : LibModbus S⦄ ⦃d : Double D⦄ (groups : ℕ → List RegisterGroup)
    (owner : ℕ → ℕ) where
  -- What the threads of device `i` do, at the time `now`, or the application to one of its
  -- mappings.
  pub data Move : ℕ → Threads S D → Threads S D → Type 0 where
    read :
        (i : ℕ) (s : Threads S D) (now : ℤ) (g : RegisterGroup) (rest : List RegisterGroup)
        (c : ModbusClient S) (p : Pass D) (done : Bool)
        → (s.reading i).remaining ≡ g ∷ rest
        → read_group now g s.client (s.heap, s.notices) ≡ ok (c, p, done)
        → Move i s (after_read s i rest c p done)
    report_read :
        (i : ℕ) (s : Threads S D)
        → (s.reading i).remaining ≡ []
        → 0 < length (groups i)
        → Move i s (report_reading (groups i) s i)
    begin_rewrite :
        (i : ℕ) (s : Threads S D)
        → (s.rewriting i).pending ≡ []
        → (s.rewriting i).required ≡ 0
        → (s.rewriting i).ended ≡ false
        → 0 < length ((s.devices i).rewrite)
        → Move i s (begin_rewriting s i)
    end_rewrite :
        (i : ℕ) (s : Threads S D)
        → (s.rewriting i).pending ≡ []
        → (s.rewriting i).required ≡ 0
        → (s.devices i).rewrite ≡ []
        → Move i s (end_rewriting s i)
    rewrite :
        (i : ℕ) (s : Threads S D) (now : ℤ) (id : ℕ) (rest : List ℕ) (c : ModbusClient S)
        (heap : Heap D) (required succeeded : ℕ)
        → (s.rewriting i).pending ≡ id ∷ rest
        → rewrite_mappings now
            (id ∷ [])
            s.client
            s.heap
            (s.rewriting i).required
            (s.rewriting i).succeeded
          ≡ ok (c, heap, required, succeeded)
        → Move i s (after_rewrite s i rest c heap required succeeded)
    report_rewrite :
        (i : ℕ) (s : Threads S D) → (s.rewriting i).pending ≡ [] → Move i s (report_rewriting s i)
    set_interval :
        (i : ℕ) (s : Threads S D) (id : ℕ) (interval : ℤ)
        → owner id ≡ i
        → Move i s (set_period s i id interval)
    write_values :
        (i : ℕ) (s : Threads S D) (now : ℤ) (slaves : List ℤ) (id : ℕ) (values : List ℕ)
        (c : ModbusClient S) (m : RegisterMapping D) (done : Bool)
        → owner id ≡ i
        → write_mapping now slaves s.client (s.heap id) values ≡ ok (c, m, done)
        → Move i s (after_write s id c m)
    write_coil :
        (i : ℕ) (s : Threads S D) (now : ℤ) (slaves : List ℤ) (id : ℕ) (value : Bool)
        (c : ModbusClient S) (m : RegisterMapping D) (done : Bool)
        → owner id ≡ i
        → write_bool_mapping now slaves s.client (s.heap id) value ≡ ok (c, m, done)
        → Move i s (after_write s id c m)
    write_bit :
        (i : ℕ) (s : Threads S D) (now : ℤ) (slaves : List ℤ) (id : ℕ) (value : Bool)
        (c : ModbusClient S) (m : RegisterMapping D) (done : Bool)
        → owner id ≡ i
        → write_bit_mapping now slaves s.client (s.heap id) value ≡ ok (c, m, done)
        → Move i s (after_write s id c m)
    force_read :
        (i : ℕ) (s : Threads S D) (now : ℤ) (device : Option ℕ) (id : ℕ) (c : ModbusClient S)
        (p : Pass D) (done : Bool)
        → owner id ≡ i
        → force_read_of_mapping now device id s.client (s.heap, s.notices) ≡ ok (c, p, done)
        → Move i s (record s { client = c; heap = p.0; notices = p.1 })

  -- Moves, with the devices that take them in order.
  pub data Moves : List ℕ → Threads S D → Threads S D → Type 0 where
    stay : (s : Threads S D) → Moves [] s s
    go :
        (i : ℕ) (is : List ℕ) (s s' s'' : Threads S D)
        → Move i s s'
        → Moves is s' s''
        → Moves (i ∷ is) s s''
