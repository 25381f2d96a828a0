-- ===== src/Lib.antt =====
-- Verification of agent-debug-compass, the Rust workspace of this repository: the core of
-- crates/adc-core, which records signals in a bounded memory ring, evaluates triggers on them, and freezes the ring
-- into an incident when a trigger fires; route conditions then choose the route of an investigation.
--
-- The parts and their files:
--   Prelude          what the other files share: tests and u64 arithmetic (Numbers), lists (Lists),
--                    formatted text (Text), BTreeMap and BTreeSet over String (Maps), f64 (Float).
--   Quality, Error   DataQuality (crates/adc-core/src/event.rs, recorder/quality.rs) and AdcError.
--   Recorder.Model   the data of crates/adc-core/src/recorder/model.rs.
--   Recorder.Ring    RecorderRing of recorder/ring.rs: `push` makes room and then evicts what the
--                    retention time no longer covers; Ring.Status is `status`, Recorder.Counts the
--                    counters by signal. Ring.Window describes what is retained, Ring.Accounting what
--                    is counted, Ring.Status.Rows what is reported.
--   Recorder.Governor  the sample rate governor and the status write governor of ring.rs.
--   Recorder.Budget  recorder/budget.rs: the capacity of the ring, the inventory of incidents
--                    (Inventory) and the admission of a freeze (Admission).
--   Recorder.Loss    recorder/loss.rs: the samples that a freeze exports and its loss report.
--   Recorder.Validation  recorder/validation.rs: names that become file names.
--   Recorder.Coverage  recorder/coverage.rs: the expected signals (Expected), the coverage of a freeze
--                    and its summary (Summary). Coverage.Loop and Coverage.Rows follow its rows back to
--                    the ring, Coverage.Bounds the intervals and the counts.
--   Recorder.Resource  recorder/resource.rs: the power state (Power), the power policy (Policy), and
--                    with recorder/overhead.rs what the recorder reports of its cost (Report).
--                    Resource.Agreement and Resource.Reasons compare the tables of the policy,
--                    Resource.Limits the budgets.
--   Recorder.Markers  recorder/marker.rs and recorder/refs.rs: markers, their results and references,
--                    and the queue of pending markers (Pending).
--   Recorder.Status  recorder/status.rs: the status made of the other parts.
--   Recorder.Logs    recorder/logs.rs: AppendOnlyLogCursor, its polls, and their Snapshot. Accounting
--                    follows the counters through runs of polls, Progress the offset.
--   Recorder.Freezer  recorder/freezer.rs and recorder/io.rs: a freeze for a Marker and for a Trigger over
--                    their common part (Window), which writes to a disk (Store). Entry, Writes and
--                    Validity show the incident as the inventory finds it afterwards.
--   Trigger          crates/adc-core/src/trigger.rs and the rules of profile.rs: Evaluate is
--                    evaluate_trigger over Rules, Decide trigger_decision_for_rule and the budget
--                    refusal over Outcome, Runtime the state of a service run, Policy the policy made
--                    of a profile.
--   Conditions       route_conditions.rs: the conditions that choose an investigation route, their
--                    evaluation (Evaluate), the merge of data quality (Merge), and what the
--                    statuses and the missing ids mean (Facts, Kleene, Duality, Missing).
--   Profile          profile.rs: a profile, its validation and its loading.
--   Overhead         overhead.rs: the overhead budget of a capture.
--   Tests            witnesses of the theorems at concrete inputs, and runs of the definitions.
--
-- The parts meet where the service does: a ring's `status` is what the loss report starts from, the
-- selection of samples is what the report counts as exported, the budget status decides whether a
-- fired trigger may freeze, and the coverage of a signal decides whether a trigger may fire. A freeze
-- calls `status`, the selection, the loss report and the coverage in this order and writes what they
-- answer; the inventory of the next admission reads the directory that it leaves.
--
-- Conventions. A method on `&mut self` is a function from the state to the state; a `&mut` argument is
-- an argument and a result. u64 is the native number type with its wrap-around (`% 2 ^ 64`) or its
-- saturation written out; the counters of the ring and of the loss report wrap as in a release
-- build. A loop over a collection is recursion on its list. The two `while` loops of the ring take
-- the number of samples as fuel, which is enough because each round removes one. f64 is its 64 bits,
-- with the comparisons of IEEE 754. Texts are UTF-8 strings.
--
-- Parameters. The file system (metadata, directory entries, file contents) and the JSON reader are
-- the record FileSystem of Recorder.Budget.Inventory; the JSON writer is the function from a sample
-- to the bytes of its line in Recorder.Loss; the JSON values of the route conditions are a type with
-- the record Json of Conditions; what the standard library prints for an f64 and for the escaped
-- form of a text is the record Printer of Trigger.Model. The disk that a freeze writes to and the
-- serde_json writer are the records Disk and Json of Recorder.Freezer.Store, with the contract of
-- std::fs in an incident's directory as the record IsDisk, and that of serde_json on an incident's
-- text as the record IsSerde of Recorder.Freezer.Entry; the file that a poll of a log finds is the
-- record LogFile of Recorder.Logs.Model, with the contract of std::io::Read as IsRead of
-- Recorder.Logs.Progress. The entries of sysfs are PowerSupply of Recorder.Resource.Power, the
-- directory of pending markers is Queue of Recorder.Markers.Pending. The YAML reader and the files
-- of profiles are functions and ProfileFiles of Profile. The f64 percentage of two counts, the
-- reading of an f64, the decoding of bytes to lines and the trimming of a text are functions.
--
-- Not modelled: the collectors, the daemon's sockets and clocks, the other writers of artifacts, the
-- command line, the MCP server and the fleet, which are input and output around this core, and
-- investigations and the compiler of route packs.
pub mod Prelude
pub mod Quality
pub mod Error
pub mod Recorder
pub mod Trigger
pub mod Conditions
pub mod Overhead
pub mod Profile
pub mod Tests
