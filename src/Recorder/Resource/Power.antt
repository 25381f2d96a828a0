-- ===== src/Recorder/Resource/Power.antt =====
-- The power state of the target: recorder_power_snapshot_from_sysfs and
-- recorder_power_mode_for_snapshot of crates/adc-core/src/recorder/resource.rs. What stands under
-- the root, the trimming of a text and the reading of an f64 are parameters.
use agent_debug_compass.Prelude.{
  String, Bool, true, false, ◌||◌, Option, none, some, List, [], ◌∷◌, if◌then◌else◌, ◌=ₛ◌,
}
use agent_debug_compass.Prelude.Float.{F64}
use agent_debug_compass.Prelude.Text.{format, to_ascii_lowercase}
use agent_debug_compass.Quality.{
  DataQuality, default_data_quality, medium_quality, medium, push_missing, push_note,
}
use agent_debug_compass.Recorder.Resource.Model.{
  RecorderPowerSnapshot, RecorderPowerSource, RecorderBatteryState, RecorderPowerMode, ac_power,
  battery, external, charging, discharging, full, low, critical, absent, battery_normal,
  battery_low, battery_critical,
}

-- An entry of the root: whether it is a directory, and its files by name, where they can be read.
pub record PowerSupply : Type 0 where
  pub is_dir : Bool
  pub file : String → Option String

abbrev pub unknown_power_snapshot : RecorderPowerSnapshot
unknown_power_snapshot = record {
  power_source = RecorderPowerSource.unknown;
  battery_state = RecorderBatteryState.unknown;
  battery_percent = none;
  data_quality = record default_data_quality { clock_confidence = medium };
}

abbrev add_quality : (DataQuality → DataQuality) → RecorderPowerSnapshot → RecorderPowerSnapshot
add_quality f s = record s { data_quality = f s.data_quality }

abbrev no_battery : DataQuality → DataQuality
no_battery = push_missing "battery state is unavailable on this target"

abbrev pub unknown_power_snapshot_with_missing : RecorderPowerSnapshot
unknown_power_snapshot_with_missing = add_quality no_battery unknown_power_snapshot

unfoldable pub battery_state_from_status : String → RecorderBatteryState
unfolding to_ascii_lowercase
battery_state_from_status status =
    let s = to_ascii_lowercase status in
    if s =ₛ "charging"
    then charging
    else if s =ₛ "discharging"
    then discharging
    else if s =ₛ "full"
    then full
    else if s =ₛ "low"
    then low
    else if s =ₛ "critical"
    then critical
    else RecorderBatteryState.unknown

abbrev unwrap_or : String → Option String → String
unwrap_or d none = d
unwrap_or d (some s) = s

abbrev is_line_power : String → Bool
is_line_power s =
    (s =ₛ "mains") || ((s =ₛ "ac") || ((s =ₛ "usb") || ((s =ₛ "usb_c") || (s =ₛ "usb-c"))))

module _ (trim : String → String) (parse_f64 : String → Option F64) where
  -- `read_trimmed`: an unreadable file and one with no text answer none.
  abbrev read_trimmed : Option String → Option String
  read_trimmed none = none
  read_trimmed (some text) = if trim text =ₛ "" then none else some (trim text)

  abbrev percent_of : Option String → Option F64
  percent_of none = none
  percent_of (some text) = parse_f64 text

  abbrev battery_snapshot : PowerSupply → RecorderPowerSnapshot
  battery_snapshot p = record {
    power_source = battery;
    battery_state =
        battery_state_from_status (unwrap_or "unknown" (read_trimmed (p.file "status")));
    battery_percent = percent_of (read_trimmed (p.file "capacity"));
    data_quality = medium_quality;
  }

  -- After the loop without a battery.
  without_battery : Bool → Bool → RecorderPowerSnapshot
  without_battery saw_supply saw_ac =
      if saw_ac
      then record unknown_power_snapshot {
        power_source = ac_power;
        battery_state = absent;
        data_quality = no_battery medium_quality;
      }
      else if saw_supply
      then add_quality
          (push_note "power supplies were present but no battery or AC state was recognized")
          unknown_power_snapshot_with_missing
      else add_quality (push_note "no power supplies were found under sysfs")
          unknown_power_snapshot_with_missing

  -- The loop over the entries, which ends at the first battery.
  scan_supplies : List PowerSupply → Bool → Bool → RecorderPowerSnapshot
  unfolding without_battery to_ascii_lowercase battery_state_from_status
  scan_supplies [] saw_supply saw_ac = without_battery saw_supply saw_ac
  scan_supplies (p ∷ ps) saw_supply saw_ac =
      let type = to_ascii_lowercase (unwrap_or "" (read_trimmed (p.file "type"))) in
      let skipped = scan_supplies ps saw_supply saw_ac in
      let next = scan_supplies ps true (saw_ac || is_line_power type) in
      if p.is_dir then (if type =ₛ "battery" then battery_snapshot p else next) else skipped

  -- The entries under the root, or none where the root cannot be read.
  unfoldable pub recorder_power_snapshot_from_sysfs :
      String → Option (List PowerSupply) → RecorderPowerSnapshot
  unfolding scan_supplies format
  recorder_power_snapshot_from_sysfs root none =
      add_quality (push_note (format ("power supply root " ∷ root ∷ " is unavailable" ∷ [])))
        unknown_power_snapshot_with_missing
  recorder_power_snapshot_from_sysfs root (some entries) = scan_supplies entries false false

  recorder_power_mode_from_str : String → Option RecorderPowerMode
  recorder_power_mode_from_str value =
      let s = trim value in
      if s =ₛ "unknown"
      then some RecorderPowerMode.unknown
      else if s =ₛ "ac_power"
      then some RecorderPowerMode.ac_power
      else if s =ₛ "battery_normal"
      then some battery_normal
      else if s =ₛ "battery_low"
      then some battery_low
      else if s =ₛ "battery_critical"
      then some battery_critical
      else none

  -- The value of ADC_RECORDER_POWER_MODE, where it is set.
  unfoldable pub recorder_power_mode_override_from_env : Option String → Option RecorderPowerMode
  unfolding recorder_power_mode_from_str
  recorder_power_mode_override_from_env none = none
  recorder_power_mode_override_from_env (some value) = recorder_power_mode_from_str value

abbrev pub mode_of : RecorderPowerSource → RecorderBatteryState → RecorderPowerMode
mode_of source critical = battery_critical
mode_of source low = battery_low
mode_of battery _ = battery_normal
mode_of ac_power _ = RecorderPowerMode.ac_power
mode_of external _ = RecorderPowerMode.ac_power
mode_of RecorderPowerSource.unknown _ = RecorderPowerMode.unknown

unfoldable pub recorder_power_mode_for_snapshot :
    RecorderPowerSnapshot → Option RecorderPowerMode → RecorderPowerMode
recorder_power_mode_for_snapshot snapshot (some mode) = mode
recorder_power_mode_for_snapshot snapshot none =
    mode_of snapshot.power_source snapshot.battery_state
