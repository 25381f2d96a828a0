-- ===== src/Prelude/Maps.antt =====
-- BTreeMap<String, V> as the list of its entries in the order of iteration, which is that of the
-- keys, and BTreeSet<String> as the list of its elements.
use Prim.Native.Nat.{Ordering}
use Prim.Native.String.{String, compare}
use mathlib.Core.Path.{◌≡◌, refl}
use mathlib.Core.Bool.{Bool, true, false}
use mathlib.Core.Option.{Option, none, some}
use mathlib.Core.List.{List, [], ◌∷◌, map}
use native.Mathlib.Omega.{arith}
use text.Mathlib.Text.{◌==◌}
use text.Mathlib.TextEquality.{eq_iff}
use agent_debug_compass.Prelude.Numbers.{if◌then◌else◌}
use agent_debug_compass.Prelude.Text.{contains}

abbrev pub BTreeMap {ℓ} : Type ℓ → Type ℓ
BTreeMap V = List (String × V)

abbrev pub BTreeSet : Type 0
BTreeSet = List String

module _ {ℓ} {V : Type ℓ} where
  unfoldable pub get : String → BTreeMap V → Option V
  get k [] = none
  get k ((j, v) ∷ m) = if j == k then some v else get k m

  unfoldable pub contains_key : String → BTreeMap V → Bool
  contains_key k [] = false
  contains_key k ((j, v) ∷ m) = if j == k then true else contains_key k m

  unfoldable pub insert : String → V → BTreeMap V → BTreeMap V
  insert k v [] = (k, v) ∷ []
  insert k v ((j, w) ∷ m) = elim (compare j k) [
    | Ordering.lt ↦ (j, w) ∷ insert k v m
    | Ordering.eq ↦ (k, v) ∷ m
    | Ordering.gt ↦ (k, v) ∷ (j, w) ∷ m
  ]

  unfoldable pub insert_all : List (String × V) → BTreeMap V → BTreeMap V
  unfolding insert
  insert_all [] m = m
  insert_all ((k, v) ∷ es) m = insert_all es (insert k v m)

  -- `iter.collect::<BTreeMap<String, V>>()`: of several entries with one key the last stays.
  unfoldable pub collect : List (String × V) → BTreeMap V
  unfolding insert_all
  collect es = insert_all es []

  abbrev pub keys : BTreeMap V → List String
  keys [] = []
  keys ((k, v) ∷ m) = k ∷ keys m

  abbrev pub values : BTreeMap V → List V
  values [] = []
  values ((k, v) ∷ m) = v ∷ values m

  pub get-insert :
      (k j : String) (v : V) (m : BTreeMap V)
      → get j (insert k v m) ≡ (if k == j then some v else get j m)
  unfolding get insert
  get-insert k j v [] = refl
  get-insert k j v ((i, w) ∷ m) =
      ground (arith, eq_iff k j, eq_iff i k, eq_iff i j, get-insert k j v m)

  get-insert_all :
      (g : String → V) (ks : List String) (k : String) (m : BTreeMap V)
      → get k (insert_all (map (λ j. (j, g j)) ks) m)
        ≡ (if contains ks k then some (g k) else get k m)
  unfolding insert_all
  get-insert_all g [] k m = refl
  get-insert_all g (j ∷ ks) k m =
      ground (arith, eq_iff j k, get-insert j k (g j) m, get-insert_all g ks k (insert j (g j) m))

  -- A map collected from keys, each with its value by one function.
  pub get-collect :
      (g : String → V) (ks : List String) (k : String)
      → get k (collect (map (λ j. (j, g j)) ks)) ≡ (if contains ks k then some (g k) else none)
  unfolding collect get
  get-collect g ks k = get-insert_all g ks k []

  -- A key is in the map exactly when it has a value.
  pub contains_key-get :
      (k : String) (m : BTreeMap V)
      → contains_key k m ≡ elim (get k m) [ none ↦ false | some v ↦ true ]
  unfolding get contains_key
  contains_key-get k [] = refl
  contains_key-get k ((j, v) ∷ m) = ground (arith, contains_key-get k m)

unfoldable pub set_insert : String → BTreeSet → BTreeSet
set_insert k [] = k ∷ []
set_insert k (j ∷ s) = elim (compare j k) [
  | Ordering.lt ↦ j ∷ set_insert k s
  | Ordering.eq ↦ k ∷ s
  | Ordering.gt ↦ k ∷ j ∷ s
]

-- `iter.collect::<BTreeSet<String>>()`
unfoldable pub set_of : List String → BTreeSet
unfolding set_insert
set_of [] = []
set_of (k ∷ ks) = set_insert k (set_of ks)

pub contains-set_insert :
    (k j : String) (s : BTreeSet)
    → contains (set_insert k s) j ≡ (if k == j then true else contains s j)
unfolding set_insert
contains-set_insert k j [] = refl
contains-set_insert k j (i ∷ s) =
    ground (arith, eq_iff k j, eq_iff i k, eq_iff i j, contains-set_insert k j s)

pub contains-set_of : (j : String) (ks : List String) → contains (set_of ks) j ≡ contains ks j
unfolding set_of
contains-set_of j [] = refl
contains-set_of j (k ∷ ks) =
    ground (arith, contains-set_insert k j (set_of ks), contains-set_of j ks)
