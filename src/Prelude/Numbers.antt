-- ===== src/Prelude/Numbers.antt =====
-- Boolean tests on the native numbers, the conditional, and the saturating and wrapping operations
-- of Rust's u64. Saturating subtraction is the native `-`, which stops at 0.
use Prim.Native.Nat.{ℕ, ◌+◌, ◌*◌, ◌%◌, ◌^◌, ◌-◌, ◌≤◌, ◌<◌, compare, min, Ordering}
use mathlib.Core.Path.{◌≡◌, refl}
use mathlib.Core.Logic.{◌↔◌, ◌⊎◌, inl, inr}
use mathlib.Core.Bool.{Bool, true, false, ◌&&◌, ◌||◌}
use mathlib.Core.Option.{Option, none, some}
use native.Mathlib.Omega.{arith}

abbrev pub ltb : ℕ → ℕ → Bool
ltb a b = elim (compare a b) [ Ordering.lt ↦ true | _ ↦ false ]

abbrev pub leb : ℕ → ℕ → Bool
leb a b = elim (compare a b) [ Ordering.gt ↦ false | _ ↦ true ]

infix 50 ◌==◌
abbrev pub ◌==◌ : ℕ → ℕ → Bool
a == b = elim (compare a b) [ Ordering.eq ↦ true | _ ↦ false ]

infix 1 if◌then◌else◌
abbrev pub if◌then◌else◌ {ℓ} : {A : Type ℓ} → Bool → A → A → A
if true then x else y = x
if false then x else y = y

abbrev pub u64_modulus : ℕ
u64_modulus = 2 ^ 64

abbrev pub u64_max : ℕ
u64_max = 2 ^ 64 - 1

-- u64::saturating_add and u64::saturating_mul
abbrev pub sat_add : ℕ → ℕ → ℕ
sat_add a b = min (a + b) (2 ^ 64 - 1)

abbrev pub sat_mul : ℕ → ℕ → ℕ
sat_mul a b = min (a * b) (2 ^ 64 - 1)

-- `a + b` on u64 in a release build
abbrev pub wrap_add : ℕ → ℕ → ℕ
wrap_add a b = (a + b) % 2 ^ 64

pub ltb→lt : (a b : ℕ) → ltb a b ≡ true → a < b
ltb→lt a b h = ground arith

pub lt→ltb : (a b : ℕ) → a < b → ltb a b ≡ true
lt→ltb a b h = ground arith

pub ltb→ge : (a b : ℕ) → ltb a b ≡ false → b ≤ a
ltb→ge a b h = ground arith

pub ge→ltb : (a b : ℕ) → b ≤ a → ltb a b ≡ false
ge→ltb a b h = ground arith

pub leb→le : (a b : ℕ) → leb a b ≡ true → a ≤ b
leb→le a b h = ground arith

pub leb→gt : (a b : ℕ) → leb a b ≡ false → b < a
leb→gt a b h = ground arith

pub ==_iff : (a b : ℕ) → ((a == b) ≡ true) ↔ (a ≡ b)
==_iff a b = ground arith

-- To split on a computed value and keep the equation.
pub Bool-cases : (b : Bool) → (b ≡ true) ⊎ (b ≡ false)
Bool-cases true = inl refl
Bool-cases false = inr refl

pub Option-cases {ℓ} : {A : Type ℓ} (o : Option A) → (o ≡ none) ⊎ ((a : A) × (o ≡ some a))
Option-cases none = inl refl
Option-cases (some a) = inr (a, refl)

pub &&-eq-true : (a b : Bool) → (a && b) ≡ true → (a ≡ true) × (b ≡ true)
&&-eq-true a b h = ground arith

pub ||-eq-false : (a b : Bool) → (a || b) ≡ false → (a ≡ false) × (b ≡ false)
||-eq-false a b h = ground arith
