-- ===== src/Tests/Logs.antt =====
-- The log cursor (crates/adc-core/src/recorder/logs.rs) at concrete inputs.
use agent_debug_compass.Prelude.{
  ℕ, zero, suc, ◌≡◌, refl, String, true, List, [], ◌∷◌, length, take, drop, length-drop, min, arith,
}
use agent_debug_compass.Recorder.Logs.{new_app_log}
use agent_debug_compass.Recorder.Logs.Model.{FileIdentity, LogFile}
use agent_debug_compass.Error.{done, io_error}
use agent_debug_compass.Recorder.Logs.Snapshot.{poll, log_source_status_has_continuity}
use agent_debug_compass.Recorder.Logs.Accounting.{IsSound, poll_all, polls-IsSound}
use agent_debug_compass.Recorder.Logs.Progress.{IsReadable, IsRead, polls-catch_up}

abbrev identity : FileIdentity
identity = record { dev = 1; ino = 7 }

abbrev contents : List ℕ
contents = 104 ∷ 105 ∷ []

abbrev readable : LogFile
readable = record {
  metadata = done (record { identity = identity; len = 2 });
  open_file = done tt;
  seek = λ o. done tt;
  read = λ o n. done (take n (drop o contents));
}

abbrev absent_file : LogFile
absent_file = record {
  metadata = io_error "No such file or directory";
  open_file = io_error "No such file or directory";
  seek = λ o. done tt;
  read = λ o n. done [];
}

abbrev one_line : List ℕ → List String
one_line [] = []
one_line (b ∷ bs) = "hi" ∷ []

abbrev same : String → String
same s = s

length-take : (n : ℕ) (xs : List ℕ) → length (take n xs) ≡ min n (length xs)
length-take zero xs = omega arith
length-take (suc n) [] = omega arith
length-take (suc n) (x ∷ xs) = omega (arith, length-take n xs)

taken-IsRead : (o n : ℕ) → IsRead 2 o n (done (take n (drop o contents)))
taken-IsRead o n = record {
  bytes = take n (drop o contents);
  succeeds = refl;
  some_bytes = omega (arith, length-take n (drop o contents), length-drop o contents);
  no_more = omega (arith, length-take n (drop o contents), length-drop o contents);
}

readable-IsReadable : IsReadable identity 2 readable
readable-IsReadable = record { stat = refl; opens = refl; seeks = λ o. refl; reads = taken-IsRead }

abbrev polled : List (LogFile × String × ℕ)
polled = (readable, "target", 1) ∷ (readable, "target", 2) ∷ (readable, "target", 3) ∷ []

polls-IsSound_example :
    IsSound
      (poll_all one_line same ((absent_file, "target", 0) ∷ polled) (new_app_log "/var/log/app"))
polls-IsSound_example =
    polls-IsSound one_line same "/var/log/app" ((absent_file, "target", 0) ∷ polled)

polls-catch_up_example :
    ((poll_all one_line same polled (new_app_log "/var/log/app")).offset ≡ 2)
    × (log_source_status_has_continuity
          (poll one_line same readable "target" 4
            (poll_all one_line same polled (new_app_log "/var/log/app"))).1.source_status
        ≡ true)
polls-catch_up_example =
    polls-catch_up one_line same identity 2 polled (new_app_log "/var/log/app") readable "target" 4
      (omega arith) (readable-IsReadable, (readable-IsReadable, (readable-IsReadable, tt)))
      readable-IsReadable (omega arith)

polls_run : (poll_all one_line same polled (new_app_log "/var/log/app")).events_observed ≡ 1
unfolding new_app_log poll
polls_run = refl
