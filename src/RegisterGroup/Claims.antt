-- ===== src/RegisterGroup/Claims.antt =====
-- The claims of RegisterGroup.cpp as text: what is printed is read back.
use Prim.Native.Nat.{ℕ}
use more_modbus.Prelude.{
  zero, suc, ◌-◌, ◌/◌, ◌^◌, ◌≡◌, refl, sym, ap, ◌∙◌, false, List, [], ◌∷◌, ◌++◌, Option, arith, ltb,
  ◌==◌, All, Bool-cases, inl, inr,
}
use mathlib.Core.List.{append-nil}
use more_modbus.Prelude.Int.{ℤ, pos, negsuc, ◌≤ℤ◌, mod_ℤ}
use more_modbus.Prelude.Decimal.{to_string, digits_of, read_integer, read_integer-to_string}
use more_modbus.DataParsers.{uint16_to_int16, uint32_to_int32}
use more_modbus.RegisterGroup.{
  separator, before_separator, after_separator, get_address_from_string, get_bit_from_string, claim,
  bit_claim,
}

-- The values of `int32_t` and of `int8_t`.
abbrev pub IsInt32 : ℤ → Type 0
IsInt32 a = (negsuc (2 ^ 31 - 1) ≤ℤ a) × (a ≤ℤ pos (2 ^ 31 - 1))

abbrev pub IsInt8 : ℤ → Type 0
IsInt8 a = (negsuc (2 ^ 7 - 1) ≤ℤ a) × (a ≤ℤ pos (2 ^ 7 - 1))

abbrev pub NoSeparator : List ℕ → Type 0
NoSeparator = All (λ c. (c == separator) ≡ false)

NoSeparator-append : (xs ys : List ℕ) → NoSeparator xs → NoSeparator ys → NoSeparator (xs ++ ys)
NoSeparator-append [] ys h k = k
NoSeparator-append (x ∷ xs) ys h k = (h.0, NoSeparator-append xs ys h.1 k)

digits_of-NoSeparator : (f n : ℕ) → NoSeparator (digits_of f n)
unfolding digits_of
digits_of-NoSeparator zero n = tt
digits_of-NoSeparator (suc f) n = elim (Bool-cases (ltb n 10)) [
  | inl small ↦ rw small (ground arith, tt)
  | inr large ↦ rw large (
      NoSeparator-append (digits_of f (n / 10)) _ (digits_of-NoSeparator f (n / 10))
        (ground arith, tt))
]

pub to_string-NoSeparator : (a : ℤ) → NoSeparator (to_string a)
unfolding to_string
to_string-NoSeparator (pos n) = digits_of-NoSeparator (suc n) n
to_string-NoSeparator (negsuc n) = (refl, digits_of-NoSeparator (suc (suc n)) (suc n))

before_separator_all : (xs : List ℕ) → NoSeparator xs → before_separator xs ≡ xs
unfolding before_separator
before_separator_all [] h = refl
before_separator_all (c ∷ xs) h = rw (h.0, before_separator_all xs h.1)

before_separator_split :
    (xs rest : List ℕ) → NoSeparator xs → before_separator (xs ++ (separator ∷ rest)) ≡ xs
unfolding before_separator
before_separator_split [] rest h = refl
before_separator_split (c ∷ xs) rest h = rw (h.0, before_separator_split xs rest h.1)

pub after_separator_none : (xs : List ℕ) → NoSeparator xs → after_separator xs ≡ Option.none
unfolding after_separator
after_separator_none [] h = refl
after_separator_none (c ∷ xs) h = rw (h.0, after_separator_none xs h.1)

pub after_separator_split :
    (xs rest : List ℕ)
    → NoSeparator xs
    → after_separator (xs ++ (separator ∷ rest)) ≡ Option.some rest
unfolding after_separator
after_separator_split [] rest h = refl
after_separator_split (c ∷ xs) rest h = rw (h.0, after_separator_split xs rest h.1)

int32_cast : (a : ℤ) → IsInt32 a → uint32_to_int32 (mod_ℤ a (2 ^ 32)) ≡ a
int32_cast (pos n) h = ground arith
int32_cast (negsuc n) h = ground arith

int16_cast : (a : ℤ) → IsInt8 a → uint16_to_int16 (mod_ℤ a (2 ^ 16)) ≡ a
unfolding uint16_to_int16
int16_cast (pos n) h = ground arith
int16_cast (negsuc n) h = ground arith

read_whole : (a : ℤ) → read_integer (to_string a) ≡ a
read_whole a = ap read_integer (sym (append-nil (to_string a))) ∙ read_integer-to_string a [] tt

-- For a 32-bit address and an 8-bit bit index, the address of a register is read back from both
-- kinds of claim, and the bit index from the claim of a bit; the claim of a whole register reads as
-- bit -1.
pub claim_round_trip :
    (address bit : ℤ)
    → IsInt32 address
    → IsInt8 bit
    → (get_address_from_string (claim address) ≡ address)
      × (get_bit_from_string (claim address) ≡ negsuc 0)
      × (get_address_from_string (bit_claim address bit) ≡ address)
      × (get_bit_from_string (bit_claim address bit) ≡ bit)
unfolding get_address_from_string get_bit_from_string claim bit_claim
claim_round_trip a b ha hb =
    let plain = to_string-NoSeparator a in
    (
      rw (before_separator_all (to_string a) plain, read_whole a) (int32_cast a ha),
      rw (after_separator_none (to_string a) plain, get_bit_from_string),
      rw (before_separator_split (to_string a) (to_string b) plain, read_whole a) (int32_cast a ha),
      rw
          (
            after_separator_split (to_string a) (to_string b) plain,
            get_bit_from_string,
            read_whole b,
          )
          (int16_cast b hb),
    )
