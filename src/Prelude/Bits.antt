-- ===== src/Prelude/Bits.antt =====
-- The bits of a number, least significant first, and the two facts about them that the library
-- rests on: an `or` of disjoint numbers is their sum, and adding 2 ^ i to a number whose bit i is
-- clear sets that bit and leaves the others.
use Prim.Native.Nat.{
  ℕ, zero, suc, ◌+◌, ◌-◌, ◌*◌, ◌/◌, ◌%◌, ◌^◌, ◌≤◌, ◌<◌, max, bit_or, digits, bit_or-bitwise,
}
use mathlib.Core.Path.{◌≡◌, refl, ap, ◌∙◌}
use native.Mathlib.Omega.{arith}
use native.Mathlib.Nat.{pow-suc}
use more_modbus.Prelude.Tests.{◌==◌, if◌then◌else◌}

-- Bit `i` of `w`, as 0 or 1.
abbrev pub bit_at : ℕ → ℕ → ℕ
bit_at w zero = w % 2
bit_at w (suc i) = bit_at (w / 2) i

abbrev or_digits : ℕ → ℕ → ℕ → ℕ
or_digits n a b = digits (λ b. b) max n a b

or_digits_fuel : (k l x y : ℕ) → x ≤ k → x ≤ l → or_digits k x y ≡ or_digits l x y
or_digits_fuel (suc k) (suc l) (suc x) y h h' =
    omega (arith, or_digits_fuel k l (suc x / 2) (y / 2) (omega arith) (omega arith))
or_digits_fuel (suc k) (suc l) zero y h h' = refl
or_digits_fuel (suc k) zero (suc x) y h h' = absurd (omega arith)
or_digits_fuel (suc k) zero zero y h h' = refl
or_digits_fuel zero (suc l) (suc x) y h h' = absurd (omega arith)
or_digits_fuel zero (suc l) zero y h h' = refl
or_digits_fuel zero zero x y h h' = refl

pub zero-bit_or : (b : ℕ) → bit_or 0 b ≡ b
zero-bit_or b = bit_or-bitwise 0 b

pub bit_or_step : (a b : ℕ) → bit_or a b ≡ bit_or (a / 2) (b / 2) * 2 + max (a % 2) (b % 2)
bit_or_step zero b = omega (arith, zero-bit_or b, zero-bit_or (b / 2))
bit_or_step (suc a) b = omega (
  arith,
  bit_or-bitwise (suc a) b,
  bit_or-bitwise (suc a / 2) (b / 2),
  or_digits_fuel a (suc a / 2) (suc a / 2) (b / 2) (omega arith) (omega arith),
)

bit_or-zero_fuel : (n a : ℕ) → a ≤ n → bit_or a 0 ≡ a
bit_or-zero_fuel n zero h = refl
bit_or-zero_fuel zero (suc a) h = absurd (omega arith)
bit_or-zero_fuel (suc n) (suc a) h =
    omega (arith, bit_or_step (suc a) 0, bit_or-zero_fuel n (suc a / 2) (omega arith))

pub bit_or-zero : (a : ℕ) → bit_or a 0 ≡ a
bit_or-zero a = bit_or-zero_fuel a a (omega arith)

-- An `or` of numbers with no common bit is their sum.
pub bit_or_disjoint : (k x y : ℕ) → y < 2 ^ k → bit_or (x * 2 ^ k) y ≡ x * 2 ^ k + y
bit_or_disjoint zero x y h =
    let e : y ≡ 0 = omega arith in
    let one : x * 2 ^ 0 ≡ x = omega arith in rw (one, e, bit_or-zero x) (omega arith)
bit_or_disjoint (suc k) x y h =
    let twice : x * 2 ^ suc k ≡ x * 2 ^ k * 2 =
      omega (arith, ap (λ (t : ℕ). x * t) (pow-suc 2 k)) in
    let half : x * 2 ^ suc k / 2 ≡ x * 2 ^ k = omega arith in
    let ih = bit_or_disjoint k x (y / 2) (omega (arith, pow-suc 2 k)) in
    let step = bit_or_step (x * 2 ^ suc k) y in let step' = rw half at step in omega arith

-- Adding 2 ^ i where bit i is clear sets that bit and keeps the others.
pub bit_at-add :
    (i j w : ℕ) → bit_at w i ≡ 0 → bit_at (w + 2 ^ i) j ≡ (if j == i then 1 else bit_at w j)
bit_at-add zero zero w h = omega arith
bit_at-add zero (suc j) w h = let e : (w + 2 ^ 0) / 2 ≡ w / 2 = omega arith in rw e (ground arith)
bit_at-add (suc i) zero w h = ground (arith, pow-suc 2 i)
bit_at-add (suc i) (suc j) w h =
    let e : (w + 2 ^ suc i) / 2 ≡ w / 2 + 2 ^ i = omega (arith, pow-suc 2 i) in
    rw e (bit_at-add i j (w / 2) h ∙ ground arith)

pub add-pow-lt : (n i w : ℕ) → i < n → w < 2 ^ n → bit_at w i ≡ 0 → w + 2 ^ i < 2 ^ n
add-pow-lt zero i w h l b = absurd (omega arith)
add-pow-lt (suc n) zero w h l b = omega (arith, pow-suc 2 n)
add-pow-lt (suc n) (suc i) w h l b = omega (
  arith,
  pow-suc 2 n,
  pow-suc 2 i,
  add-pow-lt n i (w / 2) (omega arith) (omega (arith, pow-suc 2 n)) b,
)

pub bit_at-le : (w i : ℕ) → bit_at w i ≤ 1
bit_at-le w zero = omega arith
bit_at-le w (suc i) = bit_at-le (w / 2) i

-- A number with bit i set is at least 2 ^ i, and without it bit i is clear.
pub pow-le_of_bit : (i w : ℕ) → bit_at w i ≡ 1 → 2 ^ i ≤ w
pow-le_of_bit zero w h = omega arith
pow-le_of_bit (suc i) w h = omega (arith, pow-suc 2 i, pow-le_of_bit i (w / 2) h)

-- Taking 2 ^ i away where bit i is set clears that bit and keeps the others.
pub bit_at-sub :
    (i j w : ℕ) → bit_at w i ≡ 1 → bit_at (w - 2 ^ i) j ≡ (if j == i then 0 else bit_at w j)
bit_at-sub zero zero w h = omega arith
bit_at-sub zero (suc j) w h = let e : (w - 2 ^ 0) / 2 ≡ w / 2 = omega arith in rw e (ground arith)
bit_at-sub (suc i) zero w h = ground (arith, pow-suc 2 i, pow-le_of_bit (suc i) w h)
bit_at-sub (suc i) (suc j) w h =
    let e : (w - 2 ^ suc i) / 2 ≡ w / 2 - 2 ^ i =
      omega (arith, pow-suc 2 i, pow-le_of_bit (suc i) w h) in
    rw e (bit_at-sub i j (w / 2) h ∙ ground arith)
