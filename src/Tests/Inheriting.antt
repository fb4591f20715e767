-- ===== src/Tests/Inheriting.antt =====
-- A host with one descriptor, which passes to the process that is started unless it is close-on-exec.
use runtt.Shared.{
  ℕ, ◌%◌, ◌≡◌, refl, ap, sym, ◌∙◌, arith, Bool, true, false, ◌&&◌, Option, none, some, ok, ◌==◌,
  if◌then◌else◌, [], ◌∷◌, ◌=ₗ◌,
}
use runtt.Shared.Text.{Text, codes, split_once, byte_len}
use runtt.Shared.Text.Numbers.{I32, plus}
use runtt.Target.{parse_target, is_port_path}
use runtt.Container.{validate_container_id, set_annotation, join_path, lookup}
use runtt.Container.Host.{Host, locked}
use runtt.Container.Lock.{acquire_named, clear_cloexec, sanitise}
use runtt.Container.Spawn.{spawn}
use runtt.Container.Verbs.{create, write_state, locate_firmware}
use runtt.Container.Inherit.{Passes, Claimed, create_holds}

record World : Type 0 where
  file : Text
  has_lock : Bool
  flags : ℕ
  child : Option Text

inherited : World → Option Text
inherited w = if w.has_lock && (w.flags % 2 == 0) then some w.file else none

abbrev host : Host World
host = record {
  read_spec = λ path w. some (record {
    annotations = (codes "dev.runtt.target", codes "can:can0/5") ∷ [];
    args = codes "app.signed.bin" ∷ [];
    root = some (codes "rootfs");
  });
  exists = λ path w. true;
  load = λ path w. none;
  create_dir_all = λ path w. (some tt, w);
  write = λ path st w. (some tt, w);
  rename = λ a b w. (some tt, w);
  remove_file = λ path w. w;
  remove_dir_all = λ path w. (some tt, w);
  write_pid = λ path pid w. (some tt, w);
  open_lock = λ path w. (some 3, record w { file = path; has_lock = false; flags = 1 });
  flock = λ fd w. (locked, record w { has_lock = true });
  get_fd = λ fd w. some w.flags;
  set_fd = λ fd flags w. (some tt, record w { flags = flags });
  current_exe = λ w. some (codes "/usr/bin/runtt");
  env = λ name w. none;
  exec = λ exe args env w. (some (plus 7), record w { child = inherited w });
  kill = λ pid sig w. (some tt, w);
  probe = λ pid w. true;
  sleep = λ w. w;
}

abbrev Opened : World → ℕ → Text → Type 0
Opened w fd path = w.file ≡ path

abbrev Locked : World → ℕ → Text → Type 0
Locked w fd path = (w.file ≡ path) × (w.has_lock ≡ true)

abbrev Kept : World → ℕ → Type 0
Kept w fd = w.flags % 2 ≡ 0

abbrev Held : World → I32 → Text → Type 0
Held w pid path = w.child ≡ some path

passed : (w : World) (path : Text) → Locked w 3 path → Kept w 3 → inherited w ≡ some path
unfolding inherited
passed w path (file, has) kept = ground arith

host-Passes : Passes host Opened Locked Kept Held
host-Passes = record {
  opens = λ fd path w w' e. sym (ap (λ r. r.1.file) e);
  locks = λ fd path w w' o e. (sym (ap (λ r. r.1.file) e) ∙ o, sym (ap (λ r. r.1.has_lock) e));
  stays = λ fd flags path w w' l e.
      (sym (ap (λ r. r.1.file) e) ∙ l.0, sym (ap (λ r. r.1.has_lock) e) ∙ l.1);
  keeps = λ fd flags w w' even e. ap (λ r. r.1.flags % 2) (sym e) ∙ even;
  inherits = λ fd path exe args env pid w w' l k e. sym (ap (λ r. r.1.child) e) ∙ passed w path l k;
  lasts = λ pid path. record {
    dir = λ p w k. k;
    write = λ p st w k. k;
    rename = λ a b w k. k;
    remove = λ p w k. k;
    pid_file = λ q p w k. k;
  };
}

abbrev before : World
before = record { file = []; has_lock = false; flags = 1; child = none }

abbrev label_lock : Text
label_lock = codes "/run/occupancy-can_can0_5.lock"

abbrev after : World
after = record { file = label_lock; has_lock = true; flags = 0; child = some label_lock }

creates : create host (codes "/run") (codes "fw") (codes "/b") none before ≡ (ok tt, after)
unfolding create validate_container_id byte_len parse_target split_once locate_firmware lookup
    set_annotation join_path acquire_named sanitise clear_cloexec spawn inherited write_state
    is_port_path ◌=ₗ◌
creates = refl

create_holds_example :
    Claimed host (codes "/run") Opened Locked Kept Held host-Passes (codes "/b") before after
create_holds_example =
    create_holds host (codes "/run") Opened Locked Kept Held host-Passes (codes "fw") (codes "/b")
      none before after creates
