-- ===== src/Recorder/Validation.antt =====
-- The checks of crates/adc-core/src/recorder/validation.rs.
-- The source tests bytes; a character beyond ASCII has bytes that fail the test, so testing the code
-- points decides alike.
use Prim.Native.Char.{Char, code}
use Prim.Native.String.{◌++◌}
use agent_debug_compass.Prelude.{
  ℕ, String, ◌≡◌, ◌≢◌, refl, subst, Bool, true, false, not, ◌&&◌, ◌||◌, arith, leb, ◌==◌, ◌=ₛ◌,
  if◌then◌else◌, List, [], ◌∷◌,
}
use agent_debug_compass.Prelude.Text.{includes, to_ascii_lowercase}
use agent_debug_compass.Error.{AdcResult, ok, err, artifact}

pub all_codes : (ℕ → Bool) → String → Bool
all_codes p String.[] = true
all_codes p (String.◌∷◌ c s) = p (code c) && all_codes p s

-- char::is_whitespace, the Unicode property White_Space
is_whitespace : ℕ → Bool
is_whitespace c =
    (leb 9 c && leb c 13)
    || c == 32
    || c == 0x85
    || c == 0xa0
    || c == 0x1680
    || (leb 0x2000 c && leb c 0x200a)
    || c == 0x2028
    || c == 0x2029
    || c == 0x202f
    || c == 0x205f
    || c == 0x3000

-- `value.trim().is_empty()`
unfoldable pub is_blank : String → Bool
unfolding all_codes is_whitespace
is_blank value = all_codes is_whitespace value

unfoldable pub is_segment_code : ℕ → Bool
is_segment_code c =
    (leb b'0' c && leb c b'9')
    || (leb b'A' c && leb c b'Z')
    || (leb b'a' c && leb c b'z')
    || c == b'-'
    || c == b'_'
    || c == b'.'

unfoldable pub validate_recorder_file_segment : String → String → AdcResult (Unit {0})
unfolding is_blank all_codes is_segment_code
validate_recorder_file_segment value label =
    if is_blank value
    then err (artifact (label ++ " must not be empty"))
    else if not (all_codes is_segment_code value) || value =ₛ "." || value =ₛ ".."
    then err (artifact (label ++ " must be a single safe recorder file segment"))
    else ok tt

-- A path separator of Unix or Windows, or NUL.
abbrev pub is_separator : ℕ → Bool
is_separator c = c == b'/' || c == b'\\' || c == 0

segment-not_separator : (c : ℕ) → is_segment_code c ≡ true → is_separator c ≡ false
unfolding is_segment_code
segment-not_separator c h = ground arith

all-no_separator :
    (s : String)
    → all_codes is_segment_code s ≡ true
    → all_codes (λ c. not (is_separator c)) s ≡ true
unfolding all_codes
all-no_separator String.[] h = refl
all-no_separator (String.◌∷◌ c s) h =
    ground (arith, segment-not_separator (code c), all-no_separator s)

-- An accepted file segment cannot leave its directory: it is not empty, neither `.` nor `..`, and has
-- no separator and no NUL.
pub validate_recorder_file_segment-safe :
    (value label : String)
    → validate_recorder_file_segment value label ≡ ok tt
    → (value ≢ "")
      × (value ≢ ".")
      × (value ≢ "..")
      × (all_codes (λ c. not (is_separator c)) value ≡ true)
unfolding validate_recorder_file_segment
validate_recorder_file_segment-safe value label h =
    let at = λ (v : String). validate_recorder_file_segment v label ≡ ok tt in
    (
      λ e. cc (subst at e h),
      λ e. cc (subst at e h),
      λ e. cc (subst at e h),
      ground (arith, all-no_separator value),
    )

-- `name.replace(['_', '-'], " ")`
abbrev spaced : Char → String
spaced c = if code c == b'_' || code c == b'-' then " " else String.◌∷◌ c ""

with_spaces : String → String
with_spaces String.[] = ""
with_spaces (String.◌∷◌ c s) = spaced c ++ with_spaces s

abbrev includes_any : String → List String → Bool
includes_any text [] = false
includes_any text (n ∷ ns) = includes text n || includes_any text ns

unfoldable pub validate_preservation_reason_name : String → AdcResult (Unit {0})
unfolding with_spaces to_ascii_lowercase
validate_preservation_reason_name name =
    if includes_any (with_spaces (to_ascii_lowercase name))
      ("root cause" ∷ "caused" ∷ "cause detected" ∷ "driver bug" ∷ "bad firmware" ∷ [])
    then err (
        artifact (
          "recorder trigger name must be symptom/event oriented, not a root-cause claim: " ++ name))
    else ok tt

validate_preservation_reason_name_run :
    validate_preservation_reason_name "Driver-Bug_x"
    ≡ err (
        artifact
          "recorder trigger name must be symptom/event oriented, not a root-cause claim: Driver-Bug_x")
unfolding validate_preservation_reason_name
validate_preservation_reason_name_run = refl
