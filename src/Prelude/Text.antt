-- ===== src/Prelude/Text.antt =====
-- Formatted text: `format!` joins its pieces, and u64 prints in decimal.
use Prim.Native.Char.{Char, code}
use Prim.Native.Nat.{ℕ, ◌-◌, zero, suc, ◌/◌, ◌%◌}
use Prim.Native.String.{String, [], ◌∷◌, ◌++◌, find, len, slice}
use mathlib.Core.List.{List, ◌++◌ as ◌++ₗ◌}
use native.Mathlib.Omega.{arith}
use mathlib.Core.Path.{◌≡◌, refl}
use mathlib.Core.Bool.{Bool, true, false, ◌&&◌}
use text.Mathlib.Text.{◌==◌}
use agent_debug_compass.Prelude.Numbers.{ltb, leb, if◌then◌else◌}

-- The text of `format!`, piece by piece.
unfoldable pub format : List String → String
format List.[] = ""
format (List.◌∷◌ s r) = s ++ format r

-- `list.contains(x)` and `list.iter().any(|y| y == x)` on texts
abbrev pub contains : List String → String → Bool
contains List.[] x = false
contains (List.◌∷◌ y ys) x = if y == x then true else contains ys x

pub contains-append :
    (xs ys : List String) (x : String)
    → contains (xs ++ₗ ys) x ≡ (if contains xs x then true else contains ys x)
contains-append List.[] ys x = refl
contains-append (List.◌∷◌ y xs) ys x = ground (arith, contains-append xs ys x)

-- `text.contains(needle)`; `find` answers a position past the end where there is none.
abbrev pub includes : String → String → Bool
includes text needle = leb (find text needle) (len text)

-- The letter of `A` to `Z` that a code stands for is the text of one letter of `a` to `z`.
lower_letter : Char → String
lower_letter c =
    if leb 65 (code c) && leb (code c) 90
    then slice "abcdefghijklmnopqrstuvwxyz" (code c - 65) (code c - 64)
    else c ∷ []

-- `text.to_ascii_lowercase()`
unfoldable pub to_ascii_lowercase : String → String
unfolding lower_letter
to_ascii_lowercase [] = []
to_ascii_lowercase (c ∷ s) = lower_letter c ++ to_ascii_lowercase s

to_ascii_lowercase_example : to_ascii_lowercase "OOM-Kill Z" ≡ "oom-kill z"
unfolding to_ascii_lowercase lower_letter
to_ascii_lowercase_example = refl

digit : ℕ → String
digit zero = "0"
digit (suc zero) = "1"
digit (suc (suc zero)) = "2"
digit (suc (suc (suc zero))) = "3"
digit (suc (suc (suc (suc zero)))) = "4"
digit (suc (suc (suc (suc (suc zero))))) = "5"
digit (suc (suc (suc (suc (suc (suc zero)))))) = "6"
digit (suc (suc (suc (suc (suc (suc (suc zero))))))) = "7"
digit (suc (suc (suc (suc (suc (suc (suc (suc zero)))))))) = "8"
digit n = "9"

-- Twenty digits are enough for a u64.
digits : ℕ → ℕ → String
digits zero n = ""
digits (suc f) n =
    let more = digits f (n / 10) in if ltb n 10 then digit n else more ++ digit (n % 10)

-- Display of u64
unfoldable pub show : ℕ → String
unfolding digits digit
show n = digits 20 n

show_example : show 1048576 ≡ "1048576"
unfolding show
show_example = refl
