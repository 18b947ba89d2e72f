-- ===== src/Prelude/Decimal.antt =====
-- `std::to_string` of an integer and the number that `std::stoul` or `std::stoi` reads at the front
-- of a text that it made: an optional sign and decimal digits.
use Prim.Native.Nat.{ℕ, zero, suc, ◌+◌, ◌-◌, ◌*◌, ◌/◌, ◌%◌, ◌<◌}
use mathlib.Core.Path.{◌≡◌, refl, ap, ◌∙◌}
use mathlib.Core.Bool.{Bool, ◌&&◌}
use mathlib.Core.List.{List, [], ◌∷◌, ◌++◌, append_assoc}
use native.Mathlib.Omega.{arith}
use more_modbus.Prelude.Tests.{ltb, leb, ◌==◌, if◌then◌else◌, Bool-cases, ltb→lt}
use mathlib.Core.Logic.{inl, inr}
use more_modbus.Prelude.Int.{ℤ, pos, negsuc}

-- The digits of `n`, for a fuel above `n`.
unfoldable pub digits_of : ℕ → ℕ → List ℕ
digits_of zero n = []
digits_of (suc f) n =
    let front = digits_of f (n / 10) in
    if ltb n 10 then (48 + n) ∷ [] else front ++ ((48 + n % 10) ∷ [])

unfoldable pub to_string : ℤ → List ℕ
to_string (pos n) = digits_of (suc n) n
to_string (negsuc n) = b'-' ∷ digits_of (suc (suc n)) (suc n)

abbrev pub is_digit : ℕ → Bool
is_digit c = leb 48 c && leb c 57

-- Reading stops at the first character that is no digit.
unfoldable pub read_digits : ℕ → List ℕ → ℕ
read_digits acc [] = acc
read_digits acc (c ∷ rest) =
    let more = read_digits (acc * 10 + (c - 48)) rest in if is_digit c then more else acc

-- -n
abbrev pub negate : ℕ → ℤ
negate zero = pos 0
negate (suc n) = negsuc n

unfoldable pub read_integer : List ℕ → ℤ
read_integer [] = pos 0
read_integer (c ∷ rest) =
    if c == b'-' then negate (read_digits 0 rest) else pos (read_digits 0 (c ∷ rest))

-- A character that ends the number.
abbrev pub Stops : List ℕ → Type 0
Stops [] = Unit {0}
Stops (c ∷ rest) = is_digit c ≡ Bool.false

-- Digits followed by more text: the value of the digits, by the accumulator so far.
abbrev pub shift : ℕ → ℕ → ℕ → ℕ
shift zero acc n = acc
shift (suc f) acc n = if ltb n 10 then acc * 10 + n else shift f acc (n / 10) * 10 + n % 10

read_digits-stop : (acc : ℕ) (rest : List ℕ) → Stops rest → read_digits acc rest ≡ acc
unfolding read_digits
read_digits-stop acc [] h = refl
read_digits-stop acc (c ∷ rest) h = rw h

read_digits-digit :
    (acc d : ℕ) (rest : List ℕ)
    → d < 10
    → read_digits acc ((48 + d) ∷ rest) ≡ read_digits (acc * 10 + d) rest
unfolding read_digits
read_digits-digit acc d rest h = ground arith

read_digits-digits_of :
    (f n acc : ℕ) (rest : List ℕ)
    → n < f
    → read_digits acc (digits_of f n ++ rest) ≡ read_digits (shift f acc n) rest
unfolding digits_of
read_digits-digits_of zero n acc rest h = absurd (omega arith)
read_digits-digits_of (suc f) n acc rest h = elim (Bool-cases (ltb n 10)) [
  | inl small ↦ rw small (read_digits-digit acc n rest (ltb→lt n 10 small))
  | inr large ↦
      rw (large, append_assoc)
        (read_digits-digits_of f (n / 10) acc ((48 + n % 10) ∷ rest) (ground arith)
          ∙ read_digits-digit (shift f acc (n / 10)) (n % 10) rest (omega arith))
]

shift-zero : (f n : ℕ) → n < f → shift f 0 n ≡ n
shift-zero zero n h = absurd (omega arith)
shift-zero (suc f) n h = ground (arith, shift-zero f (n / 10))

pub read_digits-to_string :
    (f n : ℕ) (rest : List ℕ) → n < f → Stops rest → read_digits 0 (digits_of f n ++ rest) ≡ n
read_digits-to_string f n rest h s =
    read_digits-digits_of f n 0 rest h ∙ read_digits-stop _ rest s ∙ shift-zero f n h

abbrev NoMinus : List ℕ → Type 0
NoMinus [] = Unit {0}
NoMinus (c ∷ rest) = (c == b'-') ≡ Bool.false

digits_of-NoMinus : (f n : ℕ) (rest : List ℕ) → n < f → NoMinus (digits_of f n ++ rest)
unfolding digits_of
digits_of-NoMinus zero n rest h = absurd (omega arith)
digits_of-NoMinus (suc f) n rest h = elim (Bool-cases (ltb n 10)) [
  | inl small ↦ rw small (ground arith)
  | inr large ↦
      rw (large, append_assoc) (digits_of-NoMinus f (n / 10) ((48 + n % 10) ∷ rest) (ground arith))
]

read_integer-NoMinus : (xs : List ℕ) → NoMinus xs → read_integer xs ≡ pos (read_digits 0 xs)
unfolding read_integer read_digits
read_integer-NoMinus [] h = refl
read_integer-NoMinus (c ∷ rest) h = rw h

read_integer-digits :
    (f n : ℕ) (rest : List ℕ) → n < f → Stops rest → read_integer (digits_of f n ++ rest) ≡ pos n
read_integer-digits f n rest h s =
    read_integer-NoMinus (digits_of f n ++ rest) (digits_of-NoMinus f n rest h)
    ∙ ap pos (read_digits-to_string f n rest h s)

read_integer-minus :
    (f n : ℕ) (rest : List ℕ)
    → n < f
    → Stops rest
    → read_integer (b'-' ∷ (digits_of f n ++ rest)) ≡ negate n
unfolding read_integer
read_integer-minus f n rest h s = ap negate (read_digits-to_string f n rest h s)

-- Every integer is read back from its text, whatever stands behind it, if that is no digit.
pub read_integer-to_string :
    (a : ℤ) (rest : List ℕ) → Stops rest → read_integer (to_string a ++ rest) ≡ a
unfolding to_string
read_integer-to_string (pos n) rest s = read_integer-digits (suc n) n rest (omega arith) s
read_integer-to_string (negsuc n) rest s =
    read_integer-minus (suc (suc n)) (suc n) rest (omega arith) s
