-- ===== src/Mappings/RoundTrip.antt =====
-- What the derived classes write is what they read back, and their value goes with the registers.
use more_modbus.Prelude.{
  ℕ, ◌-◌, ◌%◌, ◌^◌, ◌<◌, ◌≡◌, refl, sym, ap, subst, ◌∙◌, Bool, List, [], ◌∷◌, ◌++◌, Result, ok,
  ◌>>=◌, ok-injective, >>=-eq-ok, ltb, length, replicate, All, Bool-cases, inl, inr, zero, suc,
}
use more_modbus.Prelude.Int.{ℤ, pos, negsuc, ◌≤ℤ◌}
use more_modbus.DataParsers.{
  Endian, big, little, uint16_to_int16, registers_to_ascii_string, registers_to_unicode_string,
}
use more_modbus.DataParsers.Words.{
  uint32_round_trip, int16_round_trip, int32_round_trip, float_round_trip,
}
use more_modbus.DataParsers.Text.{
  IsAsciiChar, IsByteChar, ascii_big_round_trip, unicode_big_round_trip, ascii_little,
  unicode_little, nul_if_odd-even,
}
use more_modbus.RegisterMapping.{
  OperationType, Typed, plain_mapping, bool_mapping, int16_mapping, uint16_mapping, int32_mapping,
  uint32_mapping, float_mapping, string_mapping, RegisterMapping,
}
use more_modbus.RegisterMapping.Update.{update_values, front, update_values-eq_ok}
use more_modbus.Mappings.{
  decode, decode_int32, decode_uint32, decode_float, decode_string, encode, encode_int32,
  encode_uint32, encode_float, encode_string, string_registers, pad, update, string_capacity,
}

-- The values that a class can hold and its registers can carry.
abbrev pub IsRepresentable : OperationType → Typed → Type 0
IsRepresentable o (int16_mapping v) = (negsuc (2 ^ 15 - 1) ≤ℤ v) × (v ≤ℤ pos (2 ^ 15 - 1))
IsRepresentable o (int32_mapping v) = (negsuc (2 ^ 31 - 1) ≤ℤ v) × (v ≤ℤ pos (2 ^ 31 - 1))
IsRepresentable o (uint32_mapping v) = v < 2 ^ 32
IsRepresentable o (float_mapping v) = v < 2 ^ 32
IsRepresentable OperationType.stringify_ascii_big_endian (string_mapping v) = All IsAsciiChar v
IsRepresentable OperationType.stringify_ascii_little_endian (string_mapping v) =
    All IsAsciiChar v × (length v % 2 ≡ 0)
IsRepresentable OperationType.stringify_unicode_big_endian (string_mapping v) = All IsByteChar v
IsRepresentable OperationType.stringify_unicode_little_endian (string_mapping v) =
    All IsByteChar v × (length v % 2 ≡ 0)
IsRepresentable o v = Unit {0}

-- Registers of two NULs behind a text add nothing to it.
ascii_zeros : (n : ℕ) (e : Endian) → registers_to_ascii_string (replicate n 0) e ≡ []
unfolding registers_to_ascii_string
ascii_zeros zero e = refl
ascii_zeros (suc n) big = ascii_zeros n big
ascii_zeros (suc n) little = ascii_zeros n little

unicode_zeros : (n : ℕ) (e : Endian) → registers_to_unicode_string (replicate n 0) e ≡ []
unfolding registers_to_unicode_string
unicode_zeros zero e = refl
unicode_zeros (suc n) big = unicode_zeros n big
unicode_zeros (suc n) little = unicode_zeros n little

ascii_pad :
    (regs : List ℕ) (n : ℕ) (e : Endian)
    → registers_to_ascii_string (regs ++ replicate n 0) e ≡ registers_to_ascii_string regs e
unfolding registers_to_ascii_string
ascii_pad [] n e = ascii_zeros n e
ascii_pad (w ∷ regs) n e = rw (ascii_pad regs n e)

unicode_pad :
    (regs : List ℕ) (n : ℕ) (e : Endian)
    → registers_to_unicode_string (regs ++ replicate n 0) e ≡ registers_to_unicode_string regs e
unfolding registers_to_unicode_string
unicode_pad [] n e = unicode_zeros n e
unicode_pad (w ∷ regs) n e = rw (unicode_pad regs n e)

decode_string-encode :
    (o : OperationType) (size : ℕ) (v bytes : List ℕ)
    → IsRepresentable o (string_mapping v)
    → encode_string o v ≡ ok bytes
    → decode_string o (pad size bytes) ≡ ok v
unfolding decode_string encode_string pad
decode_string-encode OperationType.stringify_ascii_big_endian size v bytes h e =
    rw (← ok-injective _ bytes e) (ap ok (ascii_pad _ _ big ∙ ascii_big_round_trip v h))
decode_string-encode OperationType.stringify_ascii_little_endian size v bytes h e =
    rw (← ok-injective _ bytes e)
      (ap ok (ascii_pad _ _ little ∙ ascii_little v h.0 ∙ nul_if_odd-even v h.1))
decode_string-encode OperationType.stringify_unicode_big_endian size v bytes h e =
    rw (← ok-injective _ bytes e) (ap ok (unicode_pad _ _ big ∙ unicode_big_round_trip v h))
decode_string-encode OperationType.stringify_unicode_little_endian size v bytes h e =
    rw (← ok-injective _ bytes e)
      (ap ok (unicode_pad _ _ little ∙ unicode_little v h.0 ∙ nul_if_odd-even v h.1))
decode_string-encode _ size v bytes h e = cc

decode_int32-encode :
    (o : OperationType) (v : ℤ) (bytes : List ℕ)
    → IsRepresentable o (int32_mapping v)
    → encode_int32 o v ≡ ok bytes
    → decode_int32 o bytes ≡ ok v
unfolding decode_int32 encode_int32
decode_int32-encode OperationType.merge_big_endian v bytes h e =
    rw (← ok-injective _ bytes e) (int32_round_trip v big h.0 h.1)
decode_int32-encode OperationType.merge_little_endian v bytes h e =
    rw (← ok-injective _ bytes e) (int32_round_trip v little h.0 h.1)
decode_int32-encode _ v bytes h e = cc

decode_uint32-encode :
    (o : OperationType) (v : ℕ) (bytes : List ℕ)
    → v < 2 ^ 32
    → encode_uint32 o v ≡ ok bytes
    → decode_uint32 o bytes ≡ ok v
unfolding decode_uint32 encode_uint32
decode_uint32-encode OperationType.merge_big_endian v bytes h e =
    rw (← ok-injective _ bytes e) (uint32_round_trip v big h)
decode_uint32-encode OperationType.merge_little_endian v bytes h e =
    rw (← ok-injective _ bytes e) (uint32_round_trip v little h)
decode_uint32-encode _ v bytes h e = cc

decode_float-encode :
    (above : ℕ) (o : OperationType) (v : ℕ) (bytes : List ℕ)
    → v < 2 ^ 32
    → encode_float above o v ≡ ok bytes
    → decode_float o bytes ≡ ok v
unfolding decode_float encode_float
decode_float-encode above OperationType.merge_float_big_endian v bytes h e =
    rw (← ok-injective _ bytes e) (float_round_trip above v big h)
decode_float-encode above OperationType.merge_float_little_endian v bytes h e =
    rw (← ok-injective _ bytes e) (float_round_trip above v little h)
decode_float-encode above _ v bytes h e = cc

module _ {D : Type 0} where
  -- What writeValue of a class hands on for a value that fits, the class reads back as that value.
  pub decode-encode :
      (above : ℕ) (m : RegisterMapping D) (v : Typed) (bytes : List ℕ)
      → IsRepresentable m.operation_type v
      → encode above m v ≡ ok bytes
      → decode v m.operation_type bytes ≡ ok v
  unfolding decode encode string_registers front
  decode-encode above m plain_mapping bytes h e = cc
  decode-encode above m bool_mapping bytes h e = cc
  decode-encode above m (int16_mapping v) bytes h e =
      rw (← ok-injective _ bytes e) (ap (λ w. ok (int16_mapping w)) (int16_round_trip v h.0 h.1))
  decode-encode above m (uint16_mapping v) bytes h e = rw (← ok-injective _ bytes e) refl
  decode-encode above m (int32_mapping v) bytes h e =
      rw (decode_int32-encode m.operation_type v bytes h e)
  decode-encode above m (uint32_mapping v) bytes h e =
      rw (decode_uint32-encode m.operation_type v bytes h e)
  decode-encode above m (float_mapping v) bytes h e =
      rw (decode_float-encode above m.operation_type v bytes h e)
  decode-encode above m (string_mapping v) bytes h e =
      elim (Bool-cases (ltb (string_capacity m) (length v))) [
        | inl long ↦ absurd (cc (rw long at e))
        | inr fits ↦
            let e' = rw fits at e in
            let (regs, x, y) =
              >>=-eq-ok (encode_string m.operation_type v) (λ b. ok (pad (length m.addresses) b))
                e' in
            rw (
              ← ok-injective _ bytes y,
              decode_string-encode m.operation_type (length m.addresses) v regs h x,
            )
      ]

-- A decoder takes the class, not the value that it held.
decode_again_by :
    (A : Type 0) (r : Result A) (f : A → Typed) (o : OperationType) (new : List ℕ) (t' : Typed)
    → ((a : A) → decode (f a) o new ≡ (r >>= λ v. ok (f v)))
    → (r >>= λ v. ok (f v)) ≡ ok t'
    → decode t' o new ≡ ok t'
decode_again_by A r f o new t' same e =
    let (v, x, y) = >>=-eq-ok r (λ v. ok (f v)) e in
    let eq = ok-injective (f v) t' y in
    subst (λ s. decode s o new ≡ ok s) eq (same v ∙ e ∙ ap ok (sym eq))

decode_again :
    (t t' : Typed) (o : OperationType) (new : List ℕ)
    → decode t o new ≡ ok t'
    → decode t' o new ≡ ok t'
unfolding decode
decode_again plain_mapping t' o new e = rw (← ok-injective plain_mapping t' e) refl
decode_again bool_mapping t' o new e = rw (← ok-injective bool_mapping t' e) refl
decode_again (int16_mapping _) t' o new e =
    decode_again_by ℕ (front new) (λ w. int16_mapping (uint16_to_int16 w)) o new t' (λ _. refl) e
decode_again (uint16_mapping _) t' o new e =
    decode_again_by ℕ (front new) uint16_mapping o new t' (λ _. refl) e
decode_again (int32_mapping _) t' o new e =
    decode_again_by ℤ (decode_int32 o new) int32_mapping o new t' (λ _. refl) e
decode_again (uint32_mapping _) t' o new e =
    decode_again_by ℕ (decode_uint32 o new) uint32_mapping o new t' (λ _. refl) e
decode_again (float_mapping _) t' o new e =
    decode_again_by ℕ (decode_float o new) float_mapping o new t' (λ _. refl) e
decode_again (string_mapping _) t' o new e =
    decode_again_by (List ℕ) (decode_string o new) string_mapping o new t' (λ _. refl) e

module _ {D : Type 0} where
  -- After an update the class's value is the one that the kept registers stand for.
  pub update_in_sync :
      (now : ℤ) (m m' : RegisterMapping D) (new : List ℕ) {changed : Bool}
      → update now m new ≡ ok (m', changed)
      → (m'.byte_values ≡ new) × (decode m'.typed m'.operation_type m'.byte_values ≡ ok m'.typed)
  unfolding update
  update_in_sync now m m' new e =
      let (v, x, y) =
        >>=-eq-ok (decode m.typed m.operation_type new)
          (λ v. update_values now (record m { typed = v }) new) e in
      let (size, eq, _) = update_values-eq_ok now (record m { typed = v }) m' new y in
      rw eq (refl, decode_again m.typed v m.operation_type new x)
