-- ===== src/Error.antt =====
-- AdcError and AdcResult of crates/adc-core/src/error.rs.
use agent_debug_compass.Prelude.{String, Bool, true, false, ◌≡◌, ◌⊎◌, inl, inr, refl}

pub data AdcError : Type 0 where
  profile_parse profile_validation artifact : String → AdcError

pub data AdcResult {ℓ} (A : Type ℓ) : Type ℓ where
  ok : A → AdcResult A
  err : AdcError → AdcResult A

-- The result of a call of a library, std::io or serde_json, with the text of its error.
pub data IoResult (A : Type 0) : Type 0 where
  done : A → IoResult A
  io_error : String → IoResult A

infixl 5 ◌>>=◌ ◌>>◌
abbrev pub ◌>>=◌ {ℓ κ} : {A : Type ℓ} {B : Type κ} → AdcResult A → (A → AdcResult B) → AdcResult B
ok a >>= f = f a
err e >>= f = err e

abbrev pub ◌>>◌ {ℓ} : {B : Type ℓ} → AdcResult (Unit {0}) → AdcResult B → AdcResult B
m >> k = m >>= λ _. k

-- To split on a computed result and keep the equation.
pub AdcResult-cases {ℓ} :
    {A : Type ℓ} (r : AdcResult A) → ((a : A) × (r ≡ ok a)) ⊎ ((e : AdcError) × (r ≡ err e))
AdcResult-cases (ok a) = inl (a, refl)
AdcResult-cases (err e) = inr (e, refl)

pub IoResult-cases :
    {A : Type 0} (r : IoResult A) → ((a : A) × (r ≡ done a)) ⊎ ((e : String) × (r ≡ io_error e))
IoResult-cases (done a) = inl (a, refl)
IoResult-cases (io_error e) = inr (e, refl)

abbrev pub is_ok : {A : Type 0} → AdcResult A → Bool
is_ok (ok a) = true
is_ok (err e) = false
