-- ===== src/Tests/Disk.antt =====
-- A disk in memory, for the freezes of crates/adc-core/src/recorder/freezer.rs.
use Prim.Native.String.{◌++◌, len, count}
use text.Mathlib.TextLemmas.{
  append_cancel_left, append-nil as append-empty, length-append, cons≢nil, nil-append, cons-append,
}
use agent_debug_compass.Prelude.{
  ℕ, zero, suc, ◌-◌, subst, ◌≡◌, ◌≢◌, refl, sym, ap, ◌∙◌, inl, inr, String, Bool, true, false,
  Option, none, some, List, [], ◌∷◌, arith, ◌=ₛ◌, eq_iff, if◌then◌else◌, Bool-cases,
}
use agent_debug_compass.Prelude.Text.{contains}
use agent_debug_compass.Prelude.Maps.{BTreeMap, get, insert, get-insert}
use agent_debug_compass.Error.{IoResult, done, io_error}
use agent_debug_compass.Recorder.Budget.Inventory.{
  FileSystem, Metadata, MetadataResult, found, not_found,
}
use agent_debug_compass.Recorder.Freezer.Store.{
  Disk, IsDisk, IsAbsent, IsDirectory, IsFile, IsCutOff, other_files,
}

-- A disk with room for so many characters.
pub record Memory : Type 0 where
  pub dirs : List String
  pub files : BTreeMap String
  pub room : ℕ

-- The first characters of a text, and the rest.
abbrev pub cut : ℕ → String → String × String
cut zero text = (String.[], text)
cut (suc n) String.[] = (String.[], String.[])
cut (suc n) (String.◌∷◌ c text) = (String.◌∷◌ c (cut n text).0, (cut n text).1)

cut-split : (n : ℕ) (text : String) → text ≡ (cut n text).0 ++ (cut n text).1
cut-split zero text = sym (nil-append text)
cut-split (suc n) String.[] = refl
cut-split (suc n) (String.◌∷◌ c text) =
    ap (String.◌∷◌ c) (cut-split n text) ∙ sym (cons-append c (cut n text).0 (cut n text).1)

abbrev pub the_version : String
the_version = "obs.recorder_incident.v1"

abbrev pub incident_text : String
incident_text = "{\"schema_version\": \"obs.recorder_incident.v1\"}"

abbrev pub directory : Metadata
directory = record { is_dir = true; is_file = false; is_symlink = false; len = 0 }

abbrev pub regular : String → Metadata
regular text = record { is_dir = false; is_file = true; is_symlink = false; len = len text }

abbrev pub stat_of : Bool → Option String → MetadataResult
stat_of true text = found directory
stat_of false none = not_found
stat_of false (some text) = found (regular text)

-- The text of an incident has its version, and no other text is a value.
abbrev pub view : Memory → FileSystem
view s = record {
  symlink_metadata = λ path. stat_of (contains s.dirs path) (get path s.files);
  read_dir = λ path. some [];
  read = λ path. get path s.files;
  schema_version = λ text. if text =ₛ incident_text then some (some the_version) else none;
}

-- What fits is written, and where not all of it does the write fails.
abbrev pub stored : String → Memory → String × String → Memory × IoResult (Unit {0})
stored path s (first, String.[]) =
    (record s { files = insert path first s.files; room = s.room - len first }, done tt)
stored path s (first, String.◌∷◌ c rest) =
    (record s { files = insert path first s.files; room = 0 }, io_error "No space left on device")

abbrev pub memory : Disk Memory
memory = record {
  view = view;
  create_dir_all = λ path s. (record s { dirs = path ∷ s.dirs }, done tt);
  write = λ path text s.
      if contains s.dirs path
      then (s, io_error "Is a directory")
      else stored path s (cut s.room text);
}

absent-parts : (b : Bool) (o : Option String) → stat_of b o ≡ not_found → (b ≡ false) × (o ≡ none)
absent-parts b o h = ground arith

only-dirs :
    (b : Bool) (o : Option String) (m : Metadata)
    → stat_of b o ≡ found m
    → m.is_dir ≡ true
    → b ≡ true
only-dirs b o m h k = ground arith

differs : (p q : String) → q ≢ p → (p =ₛ q) ≡ false
differs p q n = elim (Bool-cases (p =ₛ q)) [
  | inl e ↦ absurd (n (sym ((eq_iff p q).0 e)))
  | inr e ↦ e
]

slash_not_empty : (q : String) → "" ≢ ("/" ++ q)
slash_not_empty q h = absurd (omega (arith, ap count h, length-append "/" q))

below_differs : (p q : String) → (p =ₛ (p ++ "/" ++ q)) ≡ false
below_differs p q = elim (Bool-cases (p =ₛ (p ++ "/" ++ q))) [
  | inl e ↦
      let same = (eq_iff p (p ++ "/" ++ q)).0 e in
      absurd (slash_not_empty q (append_cancel_left p "" ("/" ++ q) (append-empty p ∙ same)))
  | inr e ↦ e
]

other-differs : (name : String) → contains other_files name ≡ true → name ≢ "incident.json"
other-differs name h e = cc (subst (λ n. contains other_files n ≡ true) e h)

-- What is stored is a file with the first part of the text.
stored-files :
    (p q : String) (s : Memory) (w : String × String)
    → get q (stored p s w).0.files ≡ (if p =ₛ q then some w.0 else get q s.files)
stored-files p q s (first, String.[]) = get-insert p q first s.files
stored-files p q s (first, String.◌∷◌ c rest) = get-insert p q first s.files

stored-dirs : (p : String) (s : Memory) (w : String × String) → (stored p s w).0.dirs ≡ s.dirs
stored-dirs p s (first, String.[]) = refl
stored-dirs p s (first, String.◌∷◌ c rest) = refl

stored-IsFile :
    (p : String) (s : Memory) (w : String × String)
    → contains s.dirs p ≡ false
    → IsFile (view (stored p s w).0) p w.0
stored-IsFile p s w h =
    let file : get p (stored p s w).0.files ≡ some w.0 =
      ground (arith, eq_iff p p, stored-files p p s w) in
    record {
      metadata = regular w.0;
      stat = rw (stored-dirs p s w, h, file) refl;
      file = refl;
      no_symlink = refl;
      contents = file;
    }

stored-IsAbsent :
    (p q : String) (s : Memory) (w : String × String)
    → q ≢ p
    → IsAbsent (view s) q
    → IsAbsent (view (stored p s w).0) q
stored-IsAbsent p q s w n a =
    let parts = absent-parts (contains s.dirs q) (get q s.files) a in
    rw (stored-dirs p s w, stored-files p q s w, parts.0, differs p q n, parts.1) refl

-- All of a text is stored when the write succeeds, and a part of it when it fails.
stored-done :
    (p : String) (s : Memory) (w : String × String) → (stored p s w).1 ≡ done tt → w.1 ≡ ""
stored-done p s (first, String.[]) h = refl
stored-done p s (first, String.◌∷◌ c rest) h = absurd (ground arith)

stored-failed :
    (p e : String) (s : Memory) (w : String × String) → (stored p s w).1 ≡ io_error e → w.1 ≢ ""
stored-failed p e s (first, String.[]) h = absurd (ground arith)
stored-failed p e s (first, String.◌∷◌ c rest) h = cons≢nil

memory_written :
    (p b : String) (s : Memory)
    → IsAbsent (view s) p
    → (memory.write p b s).1 ≡ done tt
    → IsFile (view (memory.write p b s).0) p b
memory_written p b s a h =
    let w = cut s.room b in
    let free = (absent-parts (contains s.dirs p) (get p s.files) a).0 in
    let ends : w.1 ≡ "" = stored-done p s w (ground (arith, free)) in
    let all : w.0 ≡ b = sym (cut-split s.room b ∙ ap (λ end. w.0 ++ end) ends ∙ append-empty w.0) in
    rw free (subst (λ text. IsFile (view (stored p s w).0) p text) all (stored-IsFile p s w free))

memory-IsCutOff :
    (p b e : String) (s : Memory)
    → IsAbsent (view s) p
    → (memory.write p b s).1 ≡ io_error e
    → IsCutOff (view (memory.write p b s).0) p b
memory-IsCutOff p b e s a h =
    let w = cut s.room b in
    let free = (absent-parts (contains s.dirs p) (get p s.files) a).0 in
    let file = stored-IsFile p s w free in
    let more = stored-failed p e s w (ground (arith, free)) in
    rw free (record {
      metadata = file.metadata;
      stat = file.stat;
      file = file.file;
      no_symlink = file.no_symlink;
      contents = inr (w.0, w.1, file.contents, cut-split s.room b, more);
    })

memory_others :
    (p q b : String) (s : Memory)
    → q ≢ p
    → IsAbsent (view s) q
    → IsAbsent (view (memory.write p b s).0) q
memory_others p q b s n a = elim (Bool-cases (contains s.dirs p)) [
  | inl e ↦ rw (e) a
  | inr e ↦ rw (e) (stored-IsAbsent p q s (cut s.room b) n a)
]

memory_stays :
    (p q b : String) (s : Memory)
    → IsDirectory (view s) q
    → IsDirectory (view (memory.write p b s).0) q
memory_stays p q b s i = elim (Bool-cases (contains s.dirs p)) [
  | inl e ↦ rw (e) i
  | inr e ↦ rw (e) (record {
    metadata = directory;
    stat =
        rw
          (
            stored-dirs p s (cut s.room b),
            only-dirs (contains s.dirs q) (get q s.files) i.metadata i.stat i.directory,
          )
          refl;
    directory = refl;
    no_symlink = refl;
  })
]

pub memory-IsDisk : (dir : String) → IsDisk Memory memory dir
memory-IsDisk dir = record {
  created = λ s a h. record {
    metadata = directory;
    stat = ground (arith, eq_iff dir dir);
    directory = refl;
    no_symlink = refl;
  };
  created_empty = λ s a.
      let path = dir ++ "/incident.json" in
      let parts = absent-parts (contains s.dirs path) (get path s.files) a in
      rw (below_differs dir "incident.json", parts.0, parts.1) refl;
  written = λ text s a h. memory_written (dir ++ "/incident.json") text s a h;
  cut_off = λ text e s a h. inr (memory-IsCutOff (dir ++ "/incident.json") text e s a h);
  still_absent = λ name text s n a.
      memory_others (dir ++ "/" ++ name) (dir ++ "/incident.json") text s
        (λ e. other-differs name n (
          sym (
            append_cancel_left "/" "incident.json" name
              (append_cancel_left dir "/incident.json" ("/" ++ name) e))))
        a;
  directory_stays = λ name text s n i. memory_stays (dir ++ "/" ++ name) dir text s i;
}
