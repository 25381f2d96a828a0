-- ===== src/Prelude/Float.antt =====
-- f64 as its 64 bits (IEEE 754 binary64), with the comparisons that the code makes.
use Prim.Native.Nat.{ℕ, ◌+◌, ◌-◌, ◌*◌, ◌/◌, ◌%◌, ◌^◌, min}
use mathlib.Core.Bool.{Bool, true, false, ◌&&◌, ◌||◌, not}
use mathlib.Core.Path.{◌≡◌, refl}
use native.Mathlib.Omega.{arith}
use agent_debug_compass.Prelude.Numbers.{ltb, leb, ◌==◌, if◌then◌else◌}

pub record F64 : Type 0 where
  pub bits : ℕ

-- The exponent and the fraction, which order the values of one sign.
magnitude : F64 → ℕ
magnitude x = x.bits % 2 ^ 63

is_negative : F64 → Bool
is_negative x = leb (2 ^ 63) x.bits

-- The magnitudes above that of infinity are the NaNs.
is_nan : F64 → Bool
unfolding magnitude
is_nan x = ltb 0x7ff0000000000000 (magnitude x)

-- `a < b`: false at a NaN, and the two zeros are equal.
unfoldable pub lt : F64 → F64 → Bool
unfolding is_nan is_negative magnitude
lt a b =
    if is_nan a || is_nan b
    then false
    else if is_negative a
    then (if is_negative b
        then ltb (magnitude b) (magnitude a)
        else (not (magnitude a == 0) || not (magnitude b == 0)))
    else (if is_negative b then false else ltb (magnitude a) (magnitude b))

-- `a <= b`: false at a NaN.
unfoldable pub le : F64 → F64 → Bool
unfolding lt
le a b = if is_nan a || is_nan b then false else not (lt b a)

-- The absolute value of a finite number in units of 2^-1074, which is exact.
units : F64 → ℕ
unfolding magnitude
units x =
    let exponent = magnitude x / 2 ^ 52 in
    if exponent == 0 then magnitude x else (2 ^ 52 + magnitude x % 2 ^ 52) * 2 ^ (exponent - 1)

is_finite : F64 → Bool
unfolding magnitude
is_finite x = ltb (magnitude x) 0x7ff0000000000000

-- The absolute value of `a - b` in units of 2^-1074, before it is rounded.
distance : F64 → F64 → ℕ
unfolding units is_negative
distance a b = elim (is_negative a) [
  | true ↦ elim (is_negative b) [
    | true ↦ units a - units b + (units b - units a)
    | false ↦ units a + units b
  ]
  | false ↦ elim (is_negative b) [
    | true ↦ units a + units b
    | false ↦ units a - units b + (units b - units a)
  ]
]

-- `(a - b).abs() < f64::EPSILON`, EPSILON being 2^-52. From half a unit in the last place below it
-- on, which is 2^-52 - 2^-106, the difference rounds to EPSILON or more.
unfoldable pub near : F64 → F64 → Bool
unfolding is_finite distance
near a b = (is_finite a && is_finite b) && ltb (distance a b) (2 ^ 1022 - 2 ^ 968)

-- `x.max(1.0) as u64`: a NaN is not taken for the larger, and the cast stops at the largest u64.
unfoldable pub at_least_one_u64 : F64 → ℕ
unfolding lt is_nan units
at_least_one_u64 x =
    if is_nan x || lt x (record { bits = 0x3ff0000000000000 })
    then 1
    else min (units x / 2 ^ 1074) (2 ^ 64 - 1)

abbrev pub one : F64
one = record { bits = 0x3ff0000000000000 }

abbrev pub minus_two : F64
minus_two = record { bits = 0xc000000000000000 }

pub le-lt : (a b c : F64) → le a b ≡ true → lt b c ≡ true → le a c ≡ true
unfolding le lt is_nan is_negative magnitude
le-lt a b c h k = ground arith

lt_example : lt minus_two one ≡ true
unfolding lt
lt_example = refl

near_example : near (record { bits = 0x3ff0000000000001 }) one ≡ false
unfolding near is_finite distance units magnitude is_negative
near_example = refl

at_least_one_u64_example : at_least_one_u64 (record { bits = 0x4014000000000000 }) ≡ 5
unfolding at_least_one_u64 lt is_nan units magnitude is_negative
at_least_one_u64_example = refl
