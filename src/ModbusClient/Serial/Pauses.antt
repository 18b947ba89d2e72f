-- ===== src/ModbusClient/Serial/Pauses.antt =====
-- What the pauses of the serial client come to.
use more_modbus.Prelude.{
  ℕ, ◌≡◌, refl, ap, ◌∙◌, subst, Bool, true, false, List, [], ◌∷◌, Option, Result, ok, err,
  ok-injective, >>=-eq-ok, ◌>>=◌, All, Bool-cases, inl, inr,
}
use more_modbus.Prelude.Int.{ℤ}
use more_modbus.ModbusClient.{
  LibModbus, ModbusClient, change_slave_address, on_slave, read_on_slave, write_register_at,
  write_coil_at, read_register_at, read_registers_at, read_input_registers_at, read_coil_at,
  read_coils_at, read_input_contacts_at,
}
use more_modbus.ModbusClient.Serial.{
  Message, write_register, write_registers, write_bit, read_register, read_registers, read_inputs,
  read_bit, read_bits, read_contacts, paused, send_serial, send, lines, serial_write_register_at,
  serial_write_coil_at, serial_read_register_at, serial_read_registers_at,
  serial_read_input_registers_at, serial_read_coil_at, serial_read_coils_at,
  serial_read_input_contacts_at,
}

-- Every call but that of writeHoldingRegisters.
abbrev pub is_paced : Message → Bool
is_paced (write_registers slave address values) = false
is_paced _ = true

>>=_ok : {A : Type 0} (m : Result A) → (m >>= λ a. ok a) ≡ m
>>=_ok (ok a) = refl
>>=_ok (err e) = refl

abbrev pub awake : {S : Type 0} → ℕ → S → S
awake milliseconds s = s

module _ {S : Type 0} ⦃l : LibModbus S⦄ where
  read_awake :
      {A : Type 0} (slave : ℤ) (c : ModbusClient S)
      (read : ModbusClient S → Result (ModbusClient S × Option A))
      → (read_on_slave slave c (λ x. read x >>= λ r. ok (paused awake r)) >>= λ r. ok (r.0))
        ≡ (read_on_slave slave c read >>= λ r. ok (r.0))
  unfolding read_on_slave
  read_awake slave c read = elim (Bool-cases (l.modbus_set_slave slave c.lib).1) [
    | inl set ↦
        rw set (ap (λ t. t >>= λ r. ok (r.0)) (>>=_ok (read (change_slave_address slave c).0)))
    | inr refused ↦ rw refused refl
  ]

  -- The serial client does what a client does that overrides nothing, but for the pauses.
  pub send_serial_without_pause :
      (m : Message) (c : ModbusClient S) → send_serial awake m c ≡ send m c
  unfolding send_serial send serial_read_register_at serial_read_registers_at
      serial_read_input_registers_at serial_read_coil_at serial_read_coils_at
      serial_read_input_contacts_at
  send_serial_without_pause (write_register slave address value) c = refl
  send_serial_without_pause (write_registers slave address values) c = refl
  send_serial_without_pause (write_bit slave address value) c = refl
  send_serial_without_pause (read_register slave address) c =
      read_awake slave c (read_register_at address)
  send_serial_without_pause (read_registers slave address number) c =
      read_awake slave c (read_registers_at address number)
  send_serial_without_pause (read_inputs slave address number) c =
      read_awake slave c (read_input_registers_at address number)
  send_serial_without_pause (read_bit slave address) c = read_awake slave c (read_coil_at address)
  send_serial_without_pause (read_bits slave address number) c =
      read_awake slave c (read_coils_at address number)
  send_serial_without_pause (read_contacts slave address number) c =
      read_awake slave c (read_input_contacts_at address number)

-- `IsQuiet` tells of a line that enough time has passed since its last message: so it has after a
-- sleep of 10 ms, and setting the slave's address sends nothing.
module _ {S : Type 0} ⦃l : LibModbus S⦄ (sleep_for : ℕ → S → S) (IsQuiet : S → Type 0)
    (slept : (s : S) → IsQuiet (sleep_for 10 s))
    (silent : (slave : ℤ) (s : S) → IsQuiet s → IsQuiet (l.modbus_set_slave slave s).0) where
  write_quiet :
      {A : Type 0} (slave : ℤ) (a : A) (c : ModbusClient S)
      (call : ModbusClient S → ModbusClient S × A)
      → IsQuiet c.lib
      → IsQuiet ((on_slave slave a c (λ x. paused sleep_for (call x))).0).lib
  unfolding on_slave
  write_quiet slave a c call h = elim (Bool-cases (l.modbus_set_slave slave c.lib).1) [
    | inl set ↦ rw set (slept _)
    | inr refused ↦ rw refused (silent slave c.lib h)
  ]

  read_quiet :
      {A : Type 0} (slave : ℤ) (c c' : ModbusClient S)
      (read : ModbusClient S → Result (ModbusClient S × Option A))
      → IsQuiet c.lib
      → (read_on_slave slave c (λ x. read x >>= λ r. ok (paused sleep_for r)) >>= λ r. ok (r.0))
        ≡ ok c'
      → IsQuiet c'.lib
  unfolding read_on_slave
  read_quiet {A = A} slave c c' read h e = elim (Bool-cases (l.modbus_set_slave slave c.lib).1) [
    | inl set ↦
        let set_client = (change_slave_address slave c).0 in
        let (x, y, z) =
          >>=-eq-ok (read set_client >>= λ r. ok (paused sleep_for r)) (λ r. ok (r.0))
            (rw set at e) in
        let (u, v, w) = >>=-eq-ok (read set_client) (λ r. ok (paused sleep_for r)) y in
        subst (λ (t : ModbusClient S). IsQuiet t.lib)
          (ap (λ (t : ModbusClient S × Option A). t.0) (ok-injective _ x w)
            ∙ ok-injective (x.0) c' z)
          (slept _)
    | inr refused ↦
        subst (λ (t : ModbusClient S). IsQuiet t.lib) (ok-injective _ c' (rw refused at e))
          (silent slave c.lib h)
  ]

  -- A message of a call that pauses leaves the line quiet.
  send_serial-IsQuiet :
      (m : Message) (c c' : ModbusClient S)
      → is_paced m ≡ true
      → IsQuiet c.lib
      → send_serial sleep_for m c ≡ ok c'
      → IsQuiet c'.lib
  unfolding send_serial serial_write_register_at serial_write_coil_at serial_read_register_at
      serial_read_registers_at serial_read_input_registers_at serial_read_coil_at
      serial_read_coils_at serial_read_input_contacts_at
  send_serial-IsQuiet (write_register slave address value) c c' p h e =
      subst (λ (t : ModbusClient S). IsQuiet t.lib) (ok-injective _ c' e)
        (write_quiet slave false c (write_register_at address value) h)
  send_serial-IsQuiet (write_registers slave address values) c c' p h e = cc
  send_serial-IsQuiet (write_bit slave address value) c c' p h e =
      subst (λ (t : ModbusClient S). IsQuiet t.lib) (ok-injective _ c' e)
        (write_quiet slave false c (write_coil_at address value) h)
  send_serial-IsQuiet (read_register slave address) c c' p h e =
      read_quiet slave c c' (read_register_at address) h e
  send_serial-IsQuiet (read_registers slave address number) c c' p h e =
      read_quiet slave c c' (read_registers_at address number) h e
  send_serial-IsQuiet (read_inputs slave address number) c c' p h e =
      read_quiet slave c c' (read_input_registers_at address number) h e
  send_serial-IsQuiet (read_bit slave address) c c' p h e =
      read_quiet slave c c' (read_coil_at address) h e
  send_serial-IsQuiet (read_bits slave address number) c c' p h e =
      read_quiet slave c c' (read_coils_at address number) h e
  send_serial-IsQuiet (read_contacts slave address number) c c' p h e =
      read_quiet slave c c' (read_input_contacts_at address number) h e

  -- On a line that is quiet at first, a session that writes no several registers at once starts
  -- each call on a quiet line, if a sleep of 10 ms makes the line quiet and the choice of a slave,
  -- which sends nothing, leaves it so.
  pub lines-IsQuiet :
      (messages : List Message) (c : ModbusClient S)
      → IsQuiet c.lib
      → All (λ m. is_paced m ≡ true) messages
      → All IsQuiet (lines sleep_for messages c)
  unfolding lines
  lines-IsQuiet [] c h p = tt
  lines-IsQuiet (m ∷ rest) c h p =
      (h, next_quiet (send_serial sleep_for m c) refl (λ c' k. lines-IsQuiet rest c' k (p.1)))
    where
      next_quiet :
          (r : Result (ModbusClient S))
          → send_serial sleep_for m c ≡ r
          → ((c' : ModbusClient S) → IsQuiet c'.lib → All IsQuiet (lines sleep_for rest c'))
          → All IsQuiet (elim r [ ok c' ↦ lines sleep_for rest c' | _ ↦ [] ])
      next_quiet (ok c') e after = after c' (send_serial-IsQuiet m c c' (p.0) h e)
      next_quiet (err e') e after = tt
