-- ===== src/Recorder/Resource/Reasons.antt =====
-- What the loss reasons of crates/adc-core/src/recorder/loss.rs hold of a battery policy.
use agent_debug_compass.Prelude.{
  ◌≡◌, String, Bool, true, false, not, ◌&&◌, List, [], ◌∷◌, ◌++◌, arith,
}
use agent_debug_compass.Prelude.Text.{contains, includes, contains-append}
use agent_debug_compass.Recorder.Loss.{policy_reasons, push_if, add_low, add_critical}

contains-push_if :
    (b : Bool) (text x : String) (rs : List String)
    → contains rs x ≡ true
    → contains (push_if b text rs) x ≡ true
contains-push_if true text x rs h = ground (arith, contains-append rs (text ∷ []) x)
contains-push_if false text x rs h = h

-- A reason that stands stays, and a note that names a battery policy gives its reason.
adds-keep :
    (m : String) (rs : List String) (x : String)
    → contains rs x ≡ true
    → (contains (add_low m rs) x ≡ true) × (contains (add_critical m rs) x ≡ true)
adds-keep m rs x h = (
  contains-push_if (includes m "battery_low policy" && not (contains rs "battery_low_policy"))
      "battery_low_policy" x rs h,
  contains-push_if
      (includes m "battery_critical policy" && not (contains rs "battery_critical_policy"))
      "battery_critical_policy" x rs h,
)

contains-add_low :
    (m : String) (rs : List String)
    → includes m "battery_low policy" ≡ true
    → contains (add_low m rs) "battery_low_policy" ≡ true
contains-add_low m rs h =
    ground (arith, contains-append rs ("battery_low_policy" ∷ []) "battery_low_policy")

contains-add_critical :
    (m : String) (rs : List String)
    → includes m "battery_critical policy" ≡ true
    → contains (add_critical m rs) "battery_critical_policy" ≡ true
contains-add_critical m rs h =
    ground (arith, contains-append rs ("battery_critical_policy" ∷ []) "battery_critical_policy")

policy_reasons-keeps :
    (ms rs : List String) (x : String)
    → contains rs x ≡ true
    → contains (policy_reasons ms rs) x ≡ true
unfolding policy_reasons
policy_reasons-keeps [] rs x h = h
policy_reasons-keeps (m ∷ ms) rs x h =
    policy_reasons-keeps ms (add_critical m (add_low m rs)) x
      ((adds-keep m (add_low m rs) x (adds-keep m rs x h).0).1)

-- One of the notes names the policy.
pub policy_reasons-low :
    (ms : List String) (m : String) (after rs : List String)
    → includes m "battery_low policy" ≡ true
    → contains (policy_reasons (ms ++ m ∷ after) rs) "battery_low_policy" ≡ true
unfolding policy_reasons
policy_reasons-low [] m after rs h =
    policy_reasons-keeps after (add_critical m (add_low m rs)) "battery_low_policy"
      (adds-keep m (add_low m rs) "battery_low_policy" (contains-add_low m rs h)).1
policy_reasons-low (x ∷ ms) m after rs h =
    policy_reasons-low ms m after (add_critical x (add_low x rs)) h

pub policy_reasons-critical :
    (ms : List String) (m : String) (after rs : List String)
    → includes m "battery_critical policy" ≡ true
    → contains (policy_reasons (ms ++ m ∷ after) rs) "battery_critical_policy" ≡ true
unfolding policy_reasons
policy_reasons-critical [] m after rs h =
    policy_reasons-keeps after (add_critical m (add_low m rs)) "battery_critical_policy"
      (contains-add_critical m (add_low m rs) h)
policy_reasons-critical (x ∷ ms) m after rs h =
    policy_reasons-critical ms m after (add_critical x (add_low x rs)) h
