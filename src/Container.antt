-- ===== src/Container.antt =====
-- crates/runtt/src/state.rs and annotations.rs, and `parse_signal` of verbs.rs: what the verbs keep
-- about a container, which ids they take, and how they read signals. Paths are texts.
pub mod Host
pub mod Lock
pub mod Spawn
pub mod Verbs
pub mod Ids
pub mod Recorded
pub mod Create
pub mod Inherit
pub mod Paths
pub mod Files
pub mod Over
pub mod Lifecycle
pub mod Deletion
use runtt.Shared.{ℕ, Bool, true, false, not, ◌&&◌, ◌||◌, List, [], ◌∷◌, ◌++◌, Option, none, some}
use runtt.Shared.{Result, ok, err, all, map, ltb, leb, ◌==◌, ◌=ₗ◌, if◌then◌else◌, is_empty}
use runtt.Shared.Text.{Text, codes, trim, strip_prefix, is_ascii_alphanumeric, to_ascii_uppercase}
use runtt.Shared.Text.{to_ascii_lowercase, byte_len}
use runtt.Shared.Text.Numbers.{I32, plus, minus, parse_i32}

pub data VerbError : Type 0 where
  empty_id long_id bad_start bad_character : VerbError
  no_directory not_written not_renamed unreadable_state not_removed : VerbError
  no_spec no_target bad_target bad_args no_root no_firmware : VerbError
  no_lock_file already_claimed flock_failed not_inherited not_spawned no_pid_file : VerbError
  not_created no_pid not_signalled still_running signal_out_of_range unknown_signal : VerbError

pub data Status : Type 0 where
  creating created running stopped paused : Status

-- The fields of the OCI state that the verbs use.
pub record State : Type 0 where
  pub id : Text
  pub status : Status
  pub pid : Option I32
  pub bundle : Text
  pub annotations : List (Text × Text)

abbrev pub spec_target : Text
spec_target = codes "dev.runtt.target"

abbrev pub spec_skip_if_same : Text
spec_skip_if_same = codes "dev.runtt.skip-if-same-hash"

abbrev pub spec_log_target : Text
spec_log_target = codes "dev.runtt.log-target"

abbrev pub state_firmware_path : Text
state_firmware_path = codes "dev.runtt.firmware-path"

abbrev pub is_id_char : ℕ → Bool
is_id_char c = is_ascii_alphanumeric c || c == b'_' || c == b'.' || c == b'-'

unfoldable pub validate_container_id : Text → Result VerbError (Unit {0})
validate_container_id [] = err empty_id
validate_container_id (first ∷ chars) =
    if ltb 1024 (byte_len (first ∷ chars))
    then err long_id
    else if not (is_ascii_alphanumeric first)
    then err bad_start
    else if all is_id_char chars
    then ok tt
    else err bad_character

-- `get` and `insert` of a map.
unfoldable pub lookup : Text → List (Text × Text) → Option Text
lookup key [] = none
lookup key ((k, v) ∷ entries) = if k =ₗ key then some v else lookup key entries

unfoldable pub insert : Text → Text → List (Text × Text) → List (Text × Text)
insert key value [] = (key, value) ∷ []
insert key value ((k, v) ∷ entries) =
    if k =ₗ key then (k, value) ∷ entries else (k, v) ∷ insert key value entries

unfoldable pub set_annotation : State → Text → Text → State
set_annotation st key value = record st { annotations = insert key value st.annotations }

abbrev pub new_state : Text → Text → State
new_state id bundle = record {
  id = id;
  status = creating;
  pid = none;
  bundle = bundle;
  annotations = [];
}

-- `Path::join`.
unfoldable pub join_path : Text → Text → Text
join_path base [] = base ++ codes "/"
join_path base (c ∷ cs) = if c == b'/' then c ∷ cs else base ++ (b'/' ∷ (c ∷ cs))

abbrev pub state_dir : Text → Text → Text
state_dir root id = join_path root id

abbrev pub state_file : Text → Text → Text
state_file root id = join_path (state_dir root id) (codes "state.json")

abbrev pub tmp_path : Text → Text → Text
tmp_path root id = join_path (state_dir root id) (codes "state.json.tmp")

-- The signals, with their numbers on Linux.
abbrev pub sigint : ℕ
sigint = 2

abbrev pub sigkill : ℕ
sigkill = 9

abbrev pub sigusr1 : ℕ
sigusr1 = 10

abbrev pub sigterm : ℕ
sigterm = 15

abbrev pub signals : List (Text × ℕ)
signals =
    (codes "HUP", 1)
    ∷ (codes "INT", sigint)
    ∷ (codes "QUIT", 3)
    ∷ (codes "ABRT", 6)
    ∷ (codes "KILL", sigkill)
    ∷ (codes "USR1", sigusr1)
    ∷ (codes "USR2", 12)
    ∷ (codes "TERM", sigterm)
    ∷ (codes "CONT", 18)
    ∷ (codes "STOP", 19)
    ∷ (codes "TSTP", 20)
    ∷ (codes "WINCH", 28)
    ∷ []

unfoldable pub signal_named : Text → List (Text × ℕ) → Result VerbError ℕ
signal_named name [] = err unknown_signal
signal_named name ((n, sig) ∷ more) = if n =ₗ name then ok sig else signal_named name more

abbrev pub without_prefix : Text → Option Text → Text
without_prefix name none = name
without_prefix name (some rest) = rest

abbrev pub signal_of : Text → Option I32 → Result VerbError ℕ
signal_of raw (some (plus n)) = if leb 1 n && leb n 64 then ok n else err signal_out_of_range
signal_of raw (some (minus n)) = err signal_out_of_range
signal_of raw none =
    let name = map to_ascii_uppercase raw in
    signal_named (without_prefix name (strip_prefix (codes "SIG") name)) signals

unfoldable pub parse_signal : Text → Result VerbError ℕ
parse_signal input = signal_of (trim input) (parse_i32 (trim input))

-- How `create` reads the annotation that asks for a rewrite.
abbrev pub keeps_image : Option Text → Bool
keeps_image none = true
keeps_image (some v) =
    let word = map to_ascii_lowercase (trim v) in
    not (word =ₗ codes "false" || word =ₗ codes "0" || word =ₗ codes "no")
