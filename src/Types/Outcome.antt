-- ===== src/Types/Outcome.antt =====
-- How a call of src/types/packed_primary_keys.hpp ends.
use mathlib.Core.Bool.{Bool, true, false}
use mathlib.Core.Path.{◌≡◌, refl}

-- `assertion` is a failed `assert`: with asserts compiled out, what follows is undefined.
-- `out_of_fuel` is no end of the code: the fuel of a loop of the model was too little.
pub data Outcome {ℓ} (A : Type ℓ) : Type ℓ where
  value : A → Outcome A
  length_error : Outcome A
  assertion : Outcome A
  out_of_fuel : Outcome A

infixl 5 ◌>>=◌ ◌>>◌
abbrev pub ◌>>=◌ {ℓ κ} : {A : Type ℓ} {B : Type κ} → Outcome A → (A → Outcome B) → Outcome B
value a >>= f = f a
length_error >>= f = length_error
assertion >>= f = assertion
out_of_fuel >>= f = out_of_fuel

abbrev pub ◌>>◌ {ℓ} : {B : Type ℓ} → Outcome (Unit {0}) → Outcome B → Outcome B
m >> k = m >>= λ _. k

abbrev pub assert : Bool → Outcome (Unit {0})
assert true = value tt
assert false = assertion

-- `f` applied to the value of an outcome.
abbrev pub map_value {ℓ κ} : {A : Type ℓ} {B : Type κ} → (A → B) → Outcome A → Outcome B
map_value f m = m >>= λ a. value (f a)

-- A chain that ends with a value has had one from its first part.
pub bind_value {ℓ κ} :
    {A : Type ℓ} {B : Type κ} (m : Outcome A) (f : A → Outcome B) (b : B)
    → (m >>= f) ≡ value b
    → (a : A) × ((m ≡ value a) × (f a ≡ value b))
bind_value (value a) f b h = (a, (refl, h))
bind_value length_error f b h = absurd (cc)
bind_value assertion f b h = absurd (cc)
bind_value out_of_fuel f b h = absurd (cc)
