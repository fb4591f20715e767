-- ===== src/Tests/Files.antt =====
-- A host with a file system of state files, and an engine that goes on after a start.
use runtt.Shared.{
  ℕ, ◌≡◌, ◌≢◌, ◌⊎◌, refl, ap, sym, ◌∙◌, Bool, true, false, Bool-cases, Option, none, some, Result,
  ok, ◌=ₗ◌, =ₗ_sound, =ₗ_refl, if◌then◌else◌, List, [], ◌∷◌, inl, inr,
}
use runtt.Shared.Text.{Text, codes, byte_len}
use runtt.Shared.Text.Numbers.{plus}
use runtt.Container.{State, VerbError, created, validate_container_id}
use runtt.Container.Host.{Host, locked}
use runtt.Container.Verbs.{start, read_state, write_state}
use runtt.Container.Files.{Files}
use runtt.Cli.{Command, create_cmd, start_cmd, state_cmd, kill_cmd, delete_cmd, real_main}
use runtt.Cli.Once.{run_all, start_once}

abbrev World : Type 0
World = Text → Option State

placed : Text → Option State → World → World
placed path o w f = if f =ₗ path then o else w f

abbrev host : Host World
host = record {
  read_spec = λ path w. none;
  exists = λ path w. true;
  load = λ path w. w path;
  create_dir_all = λ path w. (some tt, w);
  write = λ path st w. (some tt, placed path (some st) w);
  rename = λ a b w. (some tt, placed b (w a) w);
  remove_file = λ path w. placed path none w;
  remove_dir_all = λ path w. (some tt, w);
  write_pid = λ path pid w. (some tt, w);
  open_lock = λ path w. (some 3, w);
  flock = λ fd w. (locked, w);
  get_fd = λ fd w. some 1;
  set_fd = λ fd flags w. (some tt, w);
  current_exe = λ w. none;
  env = λ name w. none;
  exec = λ exe args env w. (none, w);
  kill = λ pid sig w. (some tt, w);
  probe = λ pid w. true;
  sleep = λ w. w;
}

elsewhere : (path f : Text) (o : Option State) (w : World) → f ≢ path → placed path o w f ≡ w f
unfolding placed
elsewhere path f o w other = elim (Bool-cases (f =ₗ path)) [
  | inl same ↦ absurd (other (=ₗ_sound f path same))
  | inr e ↦ rw e refl
]

here : (path : Text) (o : Option State) (w : World) → placed path o w path ≡ o
unfolding placed
here path o w = rw (=ₗ_refl path) refl

removed : (path f : Text) (w : World) → (placed path none w f ≡ w f) ⊎ (placed path none w f ≡ none)
unfolding placed
removed path f w = elim (Bool-cases (f =ₗ path)) [
  | inl same ↦ inr (rw same refl)
  | inr e ↦ inl (rw e refl)
]

read_back :
    (tmp path : Text) (st : State) (w w' w'' : World)
    → ◌≡◌ {A = Option (Unit {0}) × World} (some tt, placed tmp (some st) w) (some tt, w')
    → ◌≡◌ {A = Option (Unit {0}) × World} (some tt, placed path (w' tmp) w') (some tt, w'')
    → w'' path ≡ some st
read_back tmp path st w w' w'' e f =
    sym (ap (λ r. r.1 path) f)
    ∙ here path (w' tmp) w'
    ∙ sym (ap (λ r. r.1 tmp) e)
    ∙ here tmp (some st) w

host-Files : Files host
host-Files = record {
  dir = λ path w f. inl refl;
  remove = λ path w f. removed path f w;
  remove_dir = λ path w f. inl refl;
  pid_file = λ path p w f. inl refl;
  lock_file = λ path w f. inl refl;
  locks = λ fd w f. inl refl;
  flags = λ fd flags w f. inl refl;
  execs = λ exe args env w f. inl refl;
  kills = λ pid sig w f. inl refl;
  sleeps = λ w f. inl refl;
  write = λ path f st w other. inl (elsewhere path f (some st) w other);
  rename = λ a b f w other. inl (elsewhere b f (w a) w other);
  not_renamed = λ a b w w' e f. cc;
  reads_back = λ tmp path st w w' w'' e f. read_back tmp path st w w' w'' e f;
}

abbrev fresh : State
fresh = record {
  id = codes "fw";
  status = created;
  pid = some (plus 7);
  bundle = codes "/b";
  annotations = [];
}

abbrev disk : World
disk f = some fresh

abbrev started : World
started = (start host (codes "/run") (codes "fw") disk).1

accepts : validate_container_id (codes "fw") ≡ ok tt
unfolding validate_container_id byte_len
accepts = refl

reads : read_state host (codes "/run") (codes "fw") disk ≡ (ok fresh, disk)
unfolding read_state validate_container_id byte_len
reads = refl

starts : start host (codes "/run") (codes "fw") disk ≡ (ok tt, started)
unfolding start read_state write_state validate_container_id byte_len
starts = refl

abbrev no_proxy :
    Text → Text → Text → Text → Bool → Option Text → World → Result VerbError ℕ × World
no_proxy root id target firmware skip_if_same log_target w = (ok 0, w)

abbrev later : List Command
later =
    start_cmd (codes "fw")
    ∷ state_cmd (codes "fw")
    ∷ create_cmd (codes "other") (codes "/b") none
    ∷ kill_cmd (codes "fw") (codes "9") false
    ∷ delete_cmd (codes "other") true
    ∷ []

start_once_example :
    (real_main host no_proxy 3
      (codes "/run")
      (start_cmd (codes "fw"))
      (run_all host no_proxy 3 (codes "/run") later started)).0
    ≢ 0
start_once_example =
    start_once host no_proxy 3 (codes "/run") host-Files
      (λ id target firmware skip log_target w f. inl refl) (codes "fw") accepts fresh disk started
      later reads refl starts (tt, (tt, ((λ e. cc), (tt, (tt, tt)))))
