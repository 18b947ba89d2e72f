-- ===== src/Prelude/Errors.antt =====
-- The exceptions that the library throws, as values.
use mathlib.Core.Bool.{Bool, true, false, not}
use more_modbus.Prelude.Tests.{if◌then◌else◌}
use mathlib.Core.Path.{◌≡◌, refl}

-- `std::logic_error`, `std::runtime_error`, `std::out_of_range`, and undefined behaviour: a read
-- past the end of a vector or of a `std::bitset`.
pub data Exception : Type 0 where
  logic_error runtime_error out_of_range undefined : Exception

-- A call that has thrown, or one that has returned.
pub data Result {ℓ} (A : Type ℓ) : Type ℓ where
  err : Exception → Result A
  ok : A → Result A

module _ {ℓ κ} {A : Type ℓ} {B : Type κ} where
  infixl 5 ◌>>=◌
  abbrev pub ◌>>=◌ : Result A → (A → Result B) → Result B
  err thrown >>= next = err thrown
  ok value >>= next = next value

  -- A sequence that returns has returned at each step.
  pub >>=-eq-ok :
      (m : Result A) (next : A → Result B) {result : B}
      → (m >>= next) ≡ ok result
      → (value : A) × (m ≡ ok value) × (next value ≡ ok result)
  >>=-eq-ok (err thrown) next e = cc
  >>=-eq-ok (ok value) next e = (value, refl, e)

module _ {ℓ κ} {A : Type ℓ} {B : Type κ} where
  -- Two continuations that agree on what the first step returns.
  pub >>=_congr :
      (m : Result A) {f g : A → Result B} → ((a : A) → m ≡ ok a → f a ≡ g a) → (m >>= f) ≡ (m >>= g)
  >>=_congr (err thrown) h = refl
  >>=_congr (ok value) h = h value refl

  pub >>=_assoc {μ} :
      {C : Type μ} (m : Result A) (f : A → Result B) (g : B → Result C)
      → ((m >>= f) >>= g) ≡ (m >>= λ a. f a >>= g)
  >>=_assoc (err thrown) f g = refl
  >>=_assoc (ok value) f g = refl

module _ {ℓ} {A : Type ℓ} where
  abbrev pub is_ok : Result A → Bool
  is_ok (err thrown) = false
  is_ok (ok value) = true

  infixl 5 ◌>>◌
  abbrev pub ◌>>◌ : Result (Unit {0}) → Result A → Result A
  check >> rest = check >>= λ passed. rest

  pub ok-injective : (a b : A) → ok a ≡ ok b → a ≡ b
  ok-injective a b e = cc

-- `if (!b) throw e;` before a result, and `if (b) throw std::logic_error(…);` before the rest.
pub if_not_err {ℓ} :
    {A : Type ℓ} (b : Bool) (e : Exception) {x y : A}
    → (if not b then err e else ok x) ≡ ok y
    → (b ≡ true) × (x ≡ y)
if_not_err true e h = (refl, ok-injective _ _ h)
if_not_err false e h = cc

abbrev pub throw_if : Bool → Result (Unit {0})
throw_if true = err logic_error
throw_if false = ok tt

pub throw_if-eq-ok {ℓ} :
    {A : Type ℓ} (b : Bool) (rest : Result A) {x : A}
    → (throw_if b >> rest) ≡ ok x
    → (b ≡ false) × (rest ≡ ok x)
throw_if-eq-ok true rest h = cc
throw_if-eq-ok false rest h = (refl, h)
