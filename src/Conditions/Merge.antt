-- ===== src/Conditions/Merge.antt =====
-- merge_data_quality of crates/adc-core/src/route_conditions.rs, and the sort and dedup of its ids.
use Prim.Native.Nat.{Ordering}
use Prim.Native.String.{compare}
use agent_debug_compass.Prelude.{
  String, Bool, true, false, ◌||◌, List, [], ◌∷◌, ◌++◌, if◌then◌else◌, wrap_add, ◌=ₛ◌, ◌≡◌, refl,
  arith, All, is_empty,
}
use agent_debug_compass.Prelude.Text.{contains}
use agent_debug_compass.Quality.{DataQuality, ClockConfidence}

-- `if !target.contains(text) { target.push(text) }`, for each text
abbrev pub push_new : List String → List String → List String
push_new target [] = target
push_new target (text ∷ texts) =
    push_new (if contains target text then target else target ++ text ∷ []) texts

abbrev pub merge_clock : ClockConfidence → ClockConfidence → ClockConfidence
merge_clock ClockConfidence.unknown source = source
merge_clock ClockConfidence.low source = ClockConfidence.low
merge_clock ClockConfidence.medium source = ClockConfidence.medium
merge_clock ClockConfidence.high source = ClockConfidence.high

abbrev pub merge_data_quality : DataQuality → DataQuality → DataQuality
merge_data_quality target source = record {
  dropped = target.dropped || source.dropped;
  drop_count = wrap_add target.drop_count source.drop_count;
  throttled = target.throttled || source.throttled;
  missing = push_new target.missing source.missing;
  truncated = target.truncated || source.truncated;
  clock_confidence = merge_clock target.clock_confidence source.clock_confidence;
  notes = push_new target.notes source.notes;
}

abbrev is_lt : Ordering → Bool
is_lt Ordering.lt = true
is_lt Ordering.eq = false
is_lt Ordering.gt = false

insert_sorted : String → List String → List String
insert_sorted x [] = x ∷ []
insert_sorted x (y ∷ ys) =
    let rest = insert_sorted x ys in if is_lt (compare y x) then y ∷ rest else x ∷ y ∷ ys

-- `Vec::sort` on texts
unfoldable pub sort : List String → List String
unfolding insert_sorted
sort [] = []
sort (x ∷ xs) = insert_sorted x (sort xs)

abbrev pub skip_equal : String → List String → List String
skip_equal x [] = []
skip_equal x (y ∷ ys) = if x =ₛ y then skip_equal x ys else y ∷ skip_equal y ys

-- `Vec::dedup`: of a run of equal texts, the first stays.
abbrev pub dedup : List String → List String
dedup [] = []
dedup (x ∷ xs) = x ∷ skip_equal x xs

-- Sorting and removing duplicates keeps a property of all texts, and leaves some text where there
-- was one.
module _ {ℓ} (P : String → Type ℓ) where
  All-if : (b : Bool) (xs ys : List String) → All P xs → All P ys → All P (if b then xs else ys)
  All-if true xs ys h k = h
  All-if false xs ys h k = k

  All-insert_sorted : (x : String) (xs : List String) → P x → All P xs → All P (insert_sorted x xs)
  unfolding insert_sorted
  All-insert_sorted x [] h hs = (h, tt)
  All-insert_sorted x (y ∷ ys) h hs =
      All-if (is_lt (compare y x)) _ _ (hs.0, All-insert_sorted x ys h hs.1) (h, hs)

  pub All-sort : (xs : List String) → All P xs → All P (sort xs)
  unfolding sort
  All-sort [] h = tt
  All-sort (x ∷ xs) h = All-insert_sorted x (sort xs) h.0 (All-sort xs h.1)

  All-skip_equal : (x : String) (xs : List String) → All P xs → All P (skip_equal x xs)
  All-skip_equal x [] h = tt
  All-skip_equal x (y ∷ ys) h =
      All-if (x =ₛ y) _ _ (All-skip_equal x ys h.1) (h.0, All-skip_equal y ys h.1)

  pub All-dedup : (xs : List String) → All P xs → All P (dedup xs)
  All-dedup [] h = tt
  All-dedup (x ∷ xs) h = (h.0, All-skip_equal x xs h.1)

is_empty-if :
    (b : Bool) (x y : String) (xs ys : List String)
    → is_empty (if b then x ∷ xs else y ∷ ys) ≡ false
is_empty-if true x y xs ys = refl
is_empty-if false x y xs ys = refl

is_empty-insert_sorted : (x : String) (xs : List String) → is_empty (insert_sorted x xs) ≡ false
unfolding insert_sorted
is_empty-insert_sorted x [] = refl
is_empty-insert_sorted x (y ∷ ys) = is_empty-if (is_lt (compare y x)) y x _ _

is_empty-sort : (xs : List String) → is_empty (sort xs) ≡ is_empty xs
unfolding sort
is_empty-sort [] = refl
is_empty-sort (x ∷ xs) = is_empty-insert_sorted x (sort xs)

is_empty-dedup : (xs : List String) → is_empty (dedup xs) ≡ is_empty xs
is_empty-dedup [] = refl
is_empty-dedup (x ∷ xs) = refl

pub is_empty-dedup-sort : (xs : List String) → is_empty (dedup (sort xs)) ≡ is_empty xs
is_empty-dedup-sort xs = ground (arith, is_empty-dedup (sort xs), is_empty-sort xs)
