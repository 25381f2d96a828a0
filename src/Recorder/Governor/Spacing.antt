-- ===== src/Recorder/Governor/Spacing.antt =====
-- The rates that the governors of crates/adc-core/src/recorder/ring.rs enforce.
use agent_debug_compass.Prelude.{
  ℕ, zero, suc, ◌+◌, ◌-◌, ◌*◌, ◌/◌, ◌≤◌, ◌<◌, ◌≡◌, ◌≢◌, refl, ap, ◌∙◌, Option, none, some, List, [],
  ◌∷◌, length, arith, All, Bool-cases, inl, inr, ◌%◌,
}
use native.Mathlib.Nat.{div-add-mod}
use agent_debug_compass.Recorder.Governor.{
  RecorderSampleRateGovernor, should_record, accepted, new_sample_governor,
}

-- A time that may come after the last accepted one.
abbrev pub After : ℕ → Option ℕ → ℕ → Type 0
After d none t = Unit {0}
After d (some last) t = last + d ≤ t

-- Each time is at least `d` after the one before it.
abbrev pub SpacedFrom : ℕ → Option ℕ → List ℕ → Type 0
SpacedFrom d last [] = Unit {0}
SpacedFrom d last (t ∷ ts) = After d last t × SpacedFrom d (some t) ts

accepted-SpacedFrom :
    (d : ℕ) (last : Option ℕ) (g : RecorderSampleRateGovernor) (calls : List ℕ)
    → 1 ≤ d
    → g.min_interval_ns ≡ d
    → g.last_sample_mono_ns ≡ last
    → SpacedFrom d last (accepted g calls)
unfolding accepted
accepted-SpacedFrom d last g [] h e l = tt
accepted-SpacedFrom d none g (now ∷ later) h e l = ground (
  arith,
  accepted-SpacedFrom d (some now) (record g { last_sample_mono_ns = some now }) later h e refl,
)
accepted-SpacedFrom d (some last) g (now ∷ later) h e l = ground (
  arith,
  accepted-SpacedFrom d (some now) (record g { last_sample_mono_ns = some now }) later h e refl,
  accepted-SpacedFrom d (some last) g later h e l,
)

-- Whatever times it is asked at, also when the clock goes back, a governor with an interval of at
-- least a nanosecond accepts each sample at least its interval after the last one that it
-- accepted.
pub accepted-spaced :
    (g : RecorderSampleRateGovernor) (calls : List ℕ)
    → 1 ≤ g.min_interval_ns
    → SpacedFrom g.min_interval_ns g.last_sample_mono_ns (accepted g calls)
accepted-spaced g calls h =
    accepted-SpacedFrom g.min_interval_ns g.last_sample_mono_ns g calls h refl refl

accepted-All :
    (P : ℕ → Type 0) (g : RecorderSampleRateGovernor) (calls : List ℕ)
    → All P calls
    → All P (accepted g calls)
unfolding accepted
accepted-All P g [] h = tt
accepted-All P g (now ∷ later) h = elim (Bool-cases (should_record g now).1) [
  | inl e ↦ rw (e, accepted) (h.0, accepted-All P (should_record g now).0 later h.1)
  | inr e ↦ rw (e, accepted) (accepted-All P (should_record g now).0 later h.1)
]

span-le :
    (d a hi : ℕ) (ts : List ℕ)
    → SpacedFrom d (some a) ts
    → All (λ t. t ≤ hi) ts
    → a ≤ hi
    → length ts * d + a ≤ hi
span-le d a hi [] s b h = omega arith
span-le d a hi (t ∷ ts) s b h = omega (arith, span-le d t hi ts s.1 b.1 b.0)

window-le :
    (d lo hi : ℕ) (last : Option ℕ) (ts : List ℕ)
    → SpacedFrom d last ts
    → All (λ t. lo ≤ t) ts
    → All (λ t. t ≤ hi) ts
    → (length ts - 1) * d ≤ hi - lo
window-le d lo hi last [] s b c = omega arith
window-le d lo hi last (t ∷ ts) s b c =
    let fewer : suc (length ts) - 1 ≡ length ts = omega arith in
    rw fewer (omega (arith, span-le d t hi ts s.1 c.1 c.0))

below-of_mul : (n r d : ℕ) → (n - 1) * d ≤ 999999999 → r * d ≡ 1000000000 → n ≤ r
below-of_mul n r d h e = grind arith

div_exact : (n r : ℕ) → r ≢ 0 → n % r ≡ 0 → n / r * r ≡ n
div_exact n r h e = grind (arith, div-add-mod)

positive-of_mul : (q r : ℕ) → q * r ≡ 1000000000 → 1 ≤ q
positive-of_mul zero r e = absurd (omega arith)
positive-of_mul (suc q) r e = omega arith

interval-exact :
    (rate : ℕ)
    → rate ≢ 0
    → 1000000000 % rate ≡ 0
    → (new_sample_governor rate).min_interval_ns ≡ 1000000000 / rate
unfolding new_sample_governor
interval-exact rate n e =
    ground (arith, positive-of_mul (1000000000 / rate) rate (div_exact 1000000000 rate n e))

-- A governor for a rate that divides a second into whole nanoseconds accepts at most that many
-- samples in any second: among calls within one second, from whatever state earlier calls left.
pub accepted-le-rate :
    (rate lo : ℕ) (last : Option ℕ) (calls : List ℕ)
    → rate ≢ 0
    → 1000000000 % rate ≡ 0
    → All (λ t. lo ≤ t) calls
    → All (λ t. t ≤ lo + 999999999) calls
    → length (accepted (record (new_sample_governor rate) { last_sample_mono_ns = last }) calls)
      ≤ rate
accepted-le-rate rate lo last calls n e b c =
    let g : RecorderSampleRateGovernor = record (new_sample_governor rate) {
      last_sample_mono_ns = last;
    } in
    let d = g.min_interval_ns in
    let exact : d * rate ≡ 1000000000 =
      rw (interval-exact rate n e) (div_exact 1000000000 rate n e) in
    below-of_mul (length (accepted g calls)) rate d
      (omega (
        arith,
        window-le d lo (lo + 999999999) last (accepted g calls)
            (accepted-spaced g calls (positive-of_mul d rate exact))
            (accepted-All (λ t. lo ≤ t) g calls b)
            (accepted-All (λ t. t ≤ lo + 999999999) g calls c),
      ))
      (omega arith)

-- `n` calls, `d` apart.
abbrev pub every : ℕ → ℕ → ℕ → List ℕ
every d start zero = []
every d start (suc n) = start ∷ every d (start + d) n

length-every : (d start n : ℕ) → length (every d start n) ≡ n
length-every d start zero = refl
length-every d start (suc n) = ap suc (length-every d (start + d) n)

accepted-every :
    (g : RecorderSampleRateGovernor) (last n : ℕ)
    → g.last_sample_mono_ns ≡ some last
    → accepted g (every g.min_interval_ns (last + g.min_interval_ns) n)
      ≡ every g.min_interval_ns (last + g.min_interval_ns) n
unfolding accepted
accepted-every g last zero e = refl
accepted-every g last (suc n) e =
    let now = last + g.min_interval_ns in
    ground (arith, accepted-every (record g { last_sample_mono_ns = some now }) now n refl)

every-below : (d start n hi : ℕ) → n * d + start < hi + d → All (λ t. t < hi) (every d start n)
every-below d start zero hi h = tt
every-below d start (suc n) hi h = (omega arith, every-below d (start + d) n hi (omega arith))

interval-short :
    (rate : ℕ)
    → rate < 1000000000
    → 1000000000 % rate ≢ 0
    → rate * (new_sample_governor rate).min_interval_ns < 1000000000
unfolding new_sample_governor
interval-short rate h e = grind (arith, div-add-mod 1000000000 rate)

-- A governor that has accepted nothing accepts all of a run of calls at its own interval.
accepted-from_none :
    (g : RecorderSampleRateGovernor) (n : ℕ)
    → g.last_sample_mono_ns ≡ none
    → accepted g (every g.min_interval_ns 0 (suc n)) ≡ every g.min_interval_ns 0 (suc n)
unfolding accepted
accepted-from_none g n e =
    ground (arith, accepted-every (record g { last_sample_mono_ns = some 0 }) 0 n refl)

last-new : (rate : ℕ) → (new_sample_governor rate).last_sample_mono_ns ≡ none
unfolding new_sample_governor
last-new rate = refl

-- For a rate below 10^9 that does not divide a second into whole nanoseconds, a new governor
-- accepts one sample more than its rate within one second: its interval is rounded down.
pub accepted-exceeds_rate :
    (rate : ℕ)
    → rate ≢ 0
    → rate < 1000000000
    → 1000000000 % rate ≢ 0
    → let g = new_sample_governor rate in
      let calls = every g.min_interval_ns 0 (suc rate) in
      (length (accepted g calls) ≡ suc rate) × All (λ t. t < 1000000000) calls
accepted-exceeds_rate rate n h e =
    let g = new_sample_governor rate in
    (
      ap length (accepted-from_none g rate (last-new rate))
          ∙ length-every g.min_interval_ns 0 (suc rate),
      every-below g.min_interval_ns 0 (suc rate) 1000000000
          (omega (arith, interval-short rate h e)),
    )
