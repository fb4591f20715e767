-- ===== src/Tests/Containers.antt =====
-- Containers on a host that keeps one state file and at most one process, and whose pid file cannot be
-- written.
use runtt.Shared.{
  ℕ, zero, suc, arith, subst, Bool, ◌↔◌, ◌≡◌, refl, ap, [], ◌∷◌, Option, none, some, ok, err, true,
  false, ◌==◌, if◌then◌else◌,
}
use runtt.Shared.Text.{codes, byte_len}
use runtt.Shared.Text.Numbers.{I32, plus}
use runtt.Target.{parse_target, show_target, is_port_path, can}
use runtt.Target.Labels.{parse_target_iff, is_port_path_iff, IsNameable, IsPortPath}
use runtt.Container.{State, created, running, stopped, validate_container_id}
use runtt.Shared.Text.{Text}
use runtt.Cli.{real_main, kill_cmd}
use runtt.Cli.Inert.{real_main-refused}
use runtt.Container.{bad_start, VerbError}
use runtt.Shared.{Result, ℕ}
use runtt.Container.Host.{Spec, Host, locked}
use runtt.Container.Verbs.{create, start, await_exit, is_alive, read_state, write_state}
use runtt.Container.Verbs.{delete, remove_state}
use runtt.Container.Deletion.{Removes, Reaps, delete_ends}
use runtt.Container.Create.{Tracks, Left, create_leaves}
use runtt.Container.Lifecycle.{Stores}

parse_target_iff_example :
    (parse_target (codes "can:vcan0/0x10") ≡ ok (can (codes "vcan0") (codes "0x10"))) ↔ (
      (show_target (can (codes "vcan0") (codes "0x10")) ≡ codes "can:vcan0/0x10")
      × IsNameable (can (codes "vcan0") (codes "0x10")))
parse_target_iff_example =
    parse_target_iff (codes "can:vcan0/0x10") (can (codes "vcan0") (codes "0x10"))

is_port_path_iff_example : (is_port_path (codes "3-4.1") ≡ true) ↔ IsPortPath (codes "3-4.1")
is_port_path_iff_example = is_port_path_iff (codes "3-4.1")

record World : Type 0 where
  process : Option I32
  file : Option State
  tmp : Option State

abbrev spec : Spec
spec = record {
  annotations = (codes "dev.runtt.target", codes "usb:3-6") ∷ [];
  args = codes "app.signed.bin" ∷ [];
  root = some (codes "rootfs");
}

killed : ℕ → World → World
killed sig w = if sig == 9 then record w { process = none } else w

runs : Option I32 → Bool
runs none = false
runs (some _) = true

abbrev host : Host World
host = record {
  read_spec = λ path w. some spec;
  exists = λ path w. true;
  load = λ path w. w.file;
  create_dir_all = λ path w. (some tt, w);
  write = λ path st w. (some tt, record w { tmp = some st });
  rename = λ a b w. (some tt, record w { file = w.tmp });
  remove_file = λ path w. w;
  remove_dir_all = λ path w. (some tt, record w { file = none });
  write_pid = λ path pid w. (none, w);
  open_lock = λ path w. (some 3, w);
  flock = λ fd w. (locked, w);
  get_fd = λ fd w. some 1;
  set_fd = λ fd flags w. (some tt, w);
  current_exe = λ w. some (codes "/usr/bin/runtt");
  env = λ name w. none;
  exec = λ exe args env w. (some (plus 7), record w { process = some (plus 7) });
  kill = λ pid sig w. (some tt, killed sig w);
  probe = λ pid w. runs w.process;
  sleep = λ w. w;
}

abbrev Clear : World → Type 0
Clear w = w.process ≡ none

abbrev Spawned : I32 → World → Type 0
Spawned pid w = w.process ≡ some pid

executed :
    (pid : I32) (w w' : World)
    → ◌≡◌ {A = Option I32 × World}
        (some (plus 7), record w { process = some (plus 7) })
        (some pid, w')
    → Spawned pid w'
executed pid w w' e =
    let same : plus 7 ≡ pid = cc in
    let world : record w { process = some (plus 7) } ≡ w' = ap (λ p. p.1) e in
    rw (← world, same) refl

host-Tracks : Tracks host Clear Spawned
unfolding killed
host-Tracks = record {
  execs = λ exe args env pid w w' c e. executed pid w w' e;
  fails = λ exe args env w w' c e. cc;
  kills = λ pid w k. refl;
  clear_dir = λ path w c. c;
  clear_open = λ path w c. c;
  clear_flock = λ fd w c. c;
  clear_inherit = λ fd flags w c. c;
  lasts = λ pid. record {
    dir = λ path w k. k;
    write = λ path st w k. k;
    rename = λ a b w k. k;
    remove = λ path w k. k;
    pid_file = λ p path w k. k;
  };
}

abbrev idle : World
idle = record { process = none; file = none; tmp = none }

-- The pid file cannot be written, so the process that was spawned is killed again.
create_leaves_example :
    Left Clear Spawned
      (create host (codes "/run") (codes "fw") (codes "/b") (some (codes "/p")) idle).0
      (create host (codes "/run") (codes "fw") (codes "/b") (some (codes "/p")) idle).1
create_leaves_example =
    create_leaves host (codes "/run") Clear Spawned host-Tracks (codes "fw") (codes "/b")
      (some (codes "/p")) idle refl

stored :
    (st : State) (w w' w'' : World)
    → ◌≡◌ {A = Option (Unit {0}) × World} (some tt, record w { tmp = some st }) (some tt, w')
    → ◌≡◌ {A = Option (Unit {0}) × World} (some tt, record w' { file = w'.tmp }) (some tt, w'')
    → w''.file ≡ some st
stored st w w' w'' e f =
    let first : record w { tmp = some st } ≡ w' = ap (λ p. p.1) e in
    let second : record w' { file = w'.tmp } ≡ w'' = ap (λ p. p.1) f in rw (← second, ← first) refl

host-Stores : Stores host
host-Stores = record { reads_back = λ tmp path st w w' w'' e f. stored st w w' w'' e f }

abbrev fresh_state : State
fresh_state = record {
  id = codes "fw";
  status = created;
  pid = some (plus 7);
  bundle = codes "/b";
  annotations = [];
}

abbrev waiting : World
waiting = record { process = some (plus 7); file = some fresh_state; tmp = none }

abbrev up : World
up = record waiting {
  file = some (record fresh_state { status = running });
  tmp = some (record fresh_state { status = running });
}

abbrev down : World
down = record waiting {
  process = none;
  file = some (record fresh_state { status = stopped });
  tmp = some (record fresh_state { status = stopped });
}

reads : read_state host (codes "/run") (codes "fw") waiting ≡ (ok fresh_state, waiting)
unfolding read_state validate_container_id byte_len
reads = refl

starts : start host (codes "/run") (codes "fw") waiting ≡ (ok tt, up)
unfolding start read_state write_state validate_container_id byte_len killed
starts = refl

present : Option State → Bool
present none = false
present (some _) = true

-- The same host, on which the state directory is there while its file is, and a process that is killed
-- takes one sleep to go.
abbrev removing : Host World
removing = record host {
  exists = λ path w. present w.file;
  kill = λ pid sig w. (some tt, w);
  sleep = λ w. record w { process = none };
}

abbrev Dying : ℕ → World → Type 0
Dying zero w = w.process ≡ none
Dying (suc n) w = Unit

sleeps : (n : ℕ) (w : World) → Dying n (record w { process = none })
sleeps zero w = refl
sleeps (suc n) w = tt

gone : (w : World) → w.process ≡ none → is_alive removing (plus 7) w ≡ false
unfolding is_alive runs
gone w e = rw e refl

same_process :
    (w w' : World)
    → ◌≡◌ {A = Option (Unit {0}) × World} (some tt, record w { file = none }) (some tt, w')
    → is_alive removing (plus 7) w ≡ false
    → is_alive removing (plus 7) w' ≡ false
unfolding is_alive
same_process w w' e dead = subst (λ x. runs x ≡ false) (ap (λ p. p.1.process) e) dead

removing-Reaps : Reaps removing (plus 7) Dying
removing-Reaps = record {
  later = λ n w d. sleeps n w;
  dead = λ w d. gone w d;
  stays = λ path w w' e dead. same_process w w' e dead;
}

emptied :
    (w w' : World)
    → ◌≡◌ {A = Option (Unit {0}) × World} (some tt, record w { file = none }) (some tt, w')
    → present w'.file ≡ false
unfolding present
emptied w w' e = let same : record w { file = none } ≡ w' = ap (λ p. p.1) e in rw (← same) refl

removing-Removes : Removes removing
removing-Removes = record { gone = λ path w w' e. emptied w w' e }

abbrev empty : World
empty = record waiting { process = none; file = none }

reads_removing : read_state removing (codes "/run") (codes "fw") waiting ≡ (ok fresh_state, waiting)
unfolding read_state validate_container_id byte_len
reads_removing = refl

deletes : delete removing (codes "/run") 250 (codes "fw") false waiting ≡ (ok tt, empty)
unfolding delete read_state remove_state validate_container_id byte_len is_alive await_exit present
    runs killed
deletes = refl

delete_ends_example : (is_alive removing (plus 7) empty ≡ false) × (present empty.file ≡ false)
delete_ends_example =
    delete_ends removing (plus 7) Dying removing-Reaps (codes "/run") removing-Removes 250 1
      (codes "fw") false fresh_state waiting empty (omega arith) reads_removing refl tt deletes

refused : validate_container_id (codes "../x") ≡ err bad_start
unfolding validate_container_id byte_len
refused = refl

abbrev no_proxy :
    Text → Text → Text → Text → Bool → Option Text → World → Result VerbError ℕ × World
no_proxy root id target firmware skip_if_same log_target w = (ok 0, w)

real_main-refused_example :
    real_main host no_proxy 3 (codes "/run") (kill_cmd (codes "../x") (codes "9") false) up
    ≡ (1, up)
real_main-refused_example =
    real_main-refused host no_proxy 3 (codes "/run") (kill_cmd (codes "../x") (codes "9") false)
      (codes "../x") bad_start up refl refused
