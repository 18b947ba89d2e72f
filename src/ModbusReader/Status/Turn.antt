-- ===== src/ModbusReader/Status/Turn.antt =====
-- One turn of readDevice over the groups of a device.
use more_modbus.Prelude.{
  ℕ, suc, ◌+◌, ◌%◌, ◌^◌, ◌≤◌, ◌<◌, ◌≡◌, refl, sym, ap, ◌∙◌, Bool, true, false, not, ◌||◌, List, [],
  ◌∷◌, ok, ◌==◌, if◌then◌else◌, length, arith, >>=-eq-ok, ok-injective, subst,
}
use more_modbus.Prelude.Int.{ℤ}
use more_modbus.RegisterMapping.{Double}
use more_modbus.RegisterGroup.{RegisterGroup}
use more_modbus.ModbusGroupReader.{Pass}
use more_modbus.ModbusGroupReader.Reading.{read_group}
use more_modbus.ModbusClient.{LibModbus, ModbusClient}
use more_modbus.ModbusReader.Status.{DeviceStatus, report_status, read_groups, read_device}

-- Whether any of the reads of a turn succeeded, and how many failed.
abbrev pub any : List Bool → Bool
any [] = false
any (b ∷ rest) = b || any rest

abbrev failures : List Bool → ℕ
failures [] = 0
failures (b ∷ rest) = (if b then 0 else 1) + failures rest

failures_le : (reads : List Bool) → failures reads ≤ length reads
failures_le [] = omega arith
failures_le (true ∷ rest) = omega (arith, failures_le rest)
failures_le (false ∷ rest) = omega (arith, failures_le rest)

any-failures : (reads : List Bool) → not (failures reads == length reads) ≡ any reads
any-failures [] = refl
any-failures (true ∷ rest) = ground (arith, failures_le rest)
any-failures (false ∷ rest) = ground (arith, any-failures rest)

counted :
    (r : Bool) (before n : ℕ)
    → before + suc n < 2 ^ 16
    → (if r then before else (before + 1) % 2 ^ 16) ≡ before + (if r then 0 else 1)
counted true before n h = omega arith
counted false before n h = omega arith

at_most_one : (r : Bool) → (if r then 0 else 1) ≤ 1
at_most_one true = omega arith
at_most_one false = omega arith

module _ {S D : Type 0} ⦃l : LibModbus S⦄ ⦃d : Double D⦄ where
  -- The groups are read one after the other, with the results `reads`.
  pub data Reads (now : ℤ)
      : List RegisterGroup
        → ModbusClient S
        → Pass D
        → List Bool
        → ModbusClient S
        → Pass D
        → Type 0 where
    done : {c : ModbusClient S} {p : Pass D} → Reads now [] c p [] c p
    next :
        {g : RegisterGroup} {rest : List RegisterGroup} {c c₁ c' : ModbusClient S}
        {p p₁ p' : Pass D} {b : Bool} {reads : List Bool}
        → read_group now g c p ≡ ok (c₁, p₁, b)
        → Reads now rest c₁ p₁ reads c' p'
        → Reads now (g ∷ rest) c p (b ∷ reads) c' p'

  read_groups_lem :
      (now : ℤ) (groups : List RegisterGroup) (c c' : ModbusClient S) (p p' : Pass D)
      (before after : ℕ)
      → before + length groups < 2 ^ 16
      → read_groups now groups c p before ≡ ok (c', p', after)
      → (reads : List Bool) × Reads now groups c p reads c' p'
        × (length reads ≡ length groups)
        × (after ≡ before + failures reads)
  unfolding read_groups
  read_groups_lem now [] c c' p p' before after b e =
      subst
        (λ (t : ModbusClient S × Pass D × ℕ).
          (reads : List Bool) × Reads now [] c p reads (t.0) (t.1)
          × (length reads ≡ 0)
          × (t.2 ≡ before + failures reads))
        (ok-injective (c, p, before) (c', p', after) e) ([], done, refl, omega arith)
  read_groups_lem now (g ∷ rest) c c' p p' before after b e =
      let ((c₁, p₁, r), x, y) =
        >>=-eq-ok (read_group now g c p)
          (λ read.
            read_groups now rest (read.0) (read.1)
              (if read.2 then before else ((before + 1) % 2 ^ 16)))
          e in
      let one = counted r before (length rest) b in
      let few = at_most_one r in
      let (reads, path, size, count) =
        read_groups_lem now rest c₁ c' p₁ p' (if r then before else ((before + 1) % 2 ^ 16)) after
          (omega arith) y in
      (r ∷ reads, next x path, ap suc size, omega arith)

  -- A turn of readDevice over fewer than 2^16 groups that returns has read them one after the
  -- other. If there are any, it has reported the device as active if one of them was read, and as
  -- not active otherwise; if there are none, it has reported nothing.
  pub read_device_lem :
      (now : ℤ) (groups : List RegisterGroup) (c c' : ModbusClient S) (p p' : Pass D)
      (s s' : DeviceStatus)
      → length groups < 2 ^ 16
      → read_device now groups c p s ≡ ok (c', p', s')
      → (reads : List Bool) × Reads now groups c p reads c' p'
        × (s' ≡ (elim groups [ [] ↦ s | _ ↦ report_status s (any reads) ]))
  unfolding read_device
  read_device_lem now [] c c' p p' s s' b e =
      subst
        (λ (t : ModbusClient S × Pass D × DeviceStatus).
          (reads : List Bool) × Reads now [] c p reads (t.0) (t.1) × (t.2 ≡ s))
        (ok-injective (c, p, s) (c', p', s') e) ([], done, refl)
  read_device_lem now (g ∷ others) c c' p p' s s' b e =
      let groups = g ∷ others in
      let ((c₁, p₁, after), x, y) =
        >>=-eq-ok (read_groups now groups c p 0)
          (λ read. ok (read.0, read.1, report_status s (not (read.2 == suc (length others))))) e in
      let status = report_status s (not (after == suc (length others))) in
      let r = ok-injective (c₁, p₁, status) (c', p', s') y in
      let (reads, path, size, count) =
        read_groups_lem now groups c c₁ p p₁ 0 after (omega arith) x in
      let total : after ≡ failures reads = omega arith in
      let same : not (after == suc (length others)) ≡ any reads =
        rw (total, ← size) (any-failures reads) in
      (
        reads,
        subst
            (λ (t : ModbusClient S × Pass D × DeviceStatus). Reads now groups c p reads (t.0) (t.1))
            r path,
        sym (ap (λ t. t.2) r) ∙ ap (report_status s) same,
      )
