-- ===== src/Base/Results.antt =====
-- `Result<T, E>`: a value or an error. The message of an error is left out; what is kept is which
-- check raised it.
use mathlib.Core.Path.{◌≡◌, refl}
use mathlib.Core.Bool.{Bool, true, false}

-- The variants of `ParaglobError` and `MmdbError` that the modelled code returns. `panic` is a failed
-- assertion or an index out of range. `out_of_fuel` belongs to the model only.
pub data Error : Type 0 where
  invalid_pattern invalid_format metadata_not_found invalid_metadata resource_limit other panic
        out_of_fuel :
      Error

pub data Result {ℓ} (T : Type ℓ) : Type ℓ where
  err : Error → Result T
  ok : T → Result T

-- `?`: go on with the value, or return the error.
infixl 5 ◌>>=◌ ◌>>◌
abbrev pub ◌>>=◌ {ℓ κ} : {T : Type ℓ} {U : Type κ} → Result T → (T → Result U) → Result U
err why >>= next = err why
ok value >>= next = next value

abbrev pub ◌>>◌ {ℓ} : {U : Type ℓ} → Result (Unit {0}) → Result U → Result U
check >> next = check >>= λ _. next

-- An early return with an error, unless the condition holds.
abbrev pub guard : Bool → Error → Result (Unit {0})
guard false why = err why
guard true why = ok tt

-- A chain that returned a value got one from its first part.
pub >>=-eq-ok {ℓ κ} :
    {T : Type ℓ} {U : Type κ} (first : Result T) (next : T → Result U) {result : U}
    → (first >>= next) ≡ ok result
    → (value : T) × (first ≡ ok value) × (next value ≡ ok result)
>>=-eq-ok (err why) next returned = cc
>>=-eq-ok (ok value) next returned = (value, refl, returned)
