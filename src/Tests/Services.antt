-- ===== src/Tests/Services.antt =====
-- Services on a kernel that keeps the holder of each lock file: two processes want one board.
use runtt.Shared.{
  ℕ, suc, ◌≡◌, refl, ap, sym, ◌∙◌, ◌⊎◌, arith, true, false, Bool-cases, Option, none, some, ◌==◌,
  ◌=ₗ◌, =ₗ_sound, =ₗ_refl, subst, if◌then◌else◌, inl, inr, [],
}
use runtt.Shared.Text.{Text, codes, split_once}
use runtt.Target.{parse_target}
use runtt.Container.{join_path}
use runtt.Container.Host.{Host, Flock, locked, would_block, failed}
use runtt.Container.Lock.{sanitise, acquire_named, clear_cloexec}
use runtt.Resolve.{Resolved, serial, System, no_tree, resolve, lock_key, set_log}
use runtt.Proxy.{prepare}
use runtt.Occupancy.{Kernel, Services, Reach, begins, acquires, begin, here, next}
use runtt.Occupancy.Acquire.{Locks}
use runtt.Occupancy.Exclusive.{Reach-exclusive}

record World : Type 0 where
  files : ℕ → Text
  fresh : ℕ
  holder : Text → Option ℕ

taken : Text → Option ℕ → (Text → Option ℕ) → Text → Option ℕ
taken path o f at = if at =ₗ path then o else f at

lock_at : ℕ → Text → World → Option ℕ → Flock × World
lock_at p path w none = (locked, record w { holder = taken path (some p) w.holder })
lock_at p path w (some q) = (would_block, w)

dropped : ℕ → Option ℕ → Option ℕ
dropped p none = none
dropped p (some q) = if q == p then none else some q

abbrev calls : ℕ → Host World
calls p = record {
  read_spec = λ path w. none;
  exists = λ path w. true;
  load = λ path w. none;
  create_dir_all = λ path w. (some tt, w);
  write = λ path st w. (some tt, w);
  rename = λ a b w. (some tt, w);
  remove_file = λ path w. w;
  remove_dir_all = λ path w. (some tt, w);
  write_pid = λ path pid w. (some tt, w);
  open_lock = λ path w. (
    some w.fresh,
    record w { files = (λ fd. if fd == w.fresh then path else w.files fd); fresh = suc w.fresh },
  );
  flock = λ fd w. lock_at p (w.files fd) w (w.holder (w.files fd));
  get_fd = λ fd w. some 1;
  set_fd = λ fd flags w. (some tt, w);
  current_exe = λ w. none;
  env = λ name w. none;
  exec = λ exe args env w. (none, w);
  kill = λ pid sig w. (some tt, w);
  probe = λ pid w. true;
  sleep = λ w. w;
}

abbrev kernel : Kernel World
kernel = record {
  host = calls;
  exits = λ p w. record w { holder = (λ path. dropped p (w.holder path)) };
}

abbrev Opened : World → ℕ → ℕ → Text → Type 0
Opened w p fd path = w.files fd ≡ path

abbrev Holds : World → ℕ → Text → Type 0
Holds w p path = w.holder path ≡ some p

opened :
    (path : Text) (fd : ℕ) (w w' : World)
    → ◌≡◌ {A = Option ℕ × World}
        (
          some w.fresh,
          record w {
            files = (λ fd. if fd == w.fresh then path else w.files fd);
            fresh = suc w.fresh;
          },
        )
        (some fd, w')
    → Opened w' fd fd path
opened path fd w w' e =
    let is : w.fresh ≡ fd = cc in let world = ap (λ r. r.1.files fd) e in sym world ∙ ground arith

module _ (p : ℕ) where
  granted :
      (path : Text) (w w' : World) (o : Option ℕ)
      → lock_at p path w o ≡ (locked, w')
      → (o ≡ none) × ((at : Text) → w'.holder at ≡ taken path (some p) w.holder at)
  unfolding lock_at
  granted path w w' none e = (refl, λ at. ap (λ r. r.1.holder at) (sym e))
  granted path w w' (some q) e = cc

  refused :
      (path : Text) (w w' : World) (o : Option ℕ) (f : Flock)
      → lock_at p path w o ≡ (f, w')
      → (f ≡ would_block) ⊎ (f ≡ failed)
      → w ≡ w'
  unfolding lock_at
  refused path w w' none f e (inl b) = cc
  refused path w w' none f e (inr b) = cc
  refused path w w' (some q) f e kind = ap (λ r. r.1) e

  kept :
      (q : ℕ) (path at : Text) (w : World) (o : Option ℕ)
      → w.holder path ≡ o
      → w.holder at ≡ some q
      → (lock_at p path w o).1.holder at ≡ some q
  unfolding lock_at taken
  kept q path at w none is h = ground (arith, =ₗ_sound at path)
  kept q path at w (some x) is h = h

  new_lock :
      (q : ℕ) (path at : Text) (w : World)
      → taken path (some p) w.holder at ≡ some q
      → (w.holder at ≡ some q) ⊎ ((q ≡ p) × (at ≡ path))
  unfolding taken
  new_lock q path at w h = elim (Bool-cases (at =ₗ path)) [
    | inl same ↦ inr (cc (rw same at h), =ₗ_sound at path same)
    | inr other ↦ inl (rw other at h)
  ]

-- Whatever happens to the descriptors of others, only the process that ends loses its locks.
ended : (p q : ℕ) (o : Option ℕ) → (q ≡ p → ⊥) → o ≡ some q → dropped p o ≡ some q
unfolding dropped
ended p q none other h = cc
ended p q (some x) other h = ground arith

survived : (p q : ℕ) (o : Option ℕ) → dropped p o ≡ some q → o ≡ some q
unfolding dropped
survived p q none h = cc
survived p q (some x) h = ground arith

kernel-Locks : Locks kernel Opened Holds
unfolding taken
kernel-Locks = record {
  opens = λ p fd path w w' e. opened path fd w w' e;
  grants = λ p fd path w w' o e.
      (granted p (w.files fd) w w' (w.holder (w.files fd)) e).1 path ∙ rw (o, =ₗ_refl path) refl;
  excludes = λ p q fd path w w' o e h.
      let free = (granted p (w.files fd) w w' (w.holder (w.files fd)) e).0 in
      cc (sym h ∙ ap w.holder (sym o) ∙ free);
  only = λ p q fd path path' w w' o e h. new_lock p q path path' w (
      subst (λ f. taken f (some p) w.holder path' ≡ some q) o
        (sym ((granted p (w.files fd) w w' (w.holder (w.files fd)) e).1 path') ∙ h));
  refuses = λ p q fd path w w' f e kind h.
      subst (λ v. v.holder path ≡ some q)
        (sym (refused p (w.files fd) w w' (w.holder (w.files fd)) f e kind)) h;
  flock_keeps = λ p q fd path w h. kept p q (w.files fd) path w (w.holder (w.files fd)) refl h;
  dir_keeps = λ p q dir path w h. h;
  dir_only = λ p q dir path w h. h;
  open_keeps = λ p q file path w h. h;
  open_only = λ p q file path w h. h;
  flags_keep = λ p q fd flags path w h. h;
  flags_only = λ p q fd flags path w h. h;
  exit_keeps = λ p q path w other h. ended p q (w.holder path) other h;
  exit_only = λ p q path w h. survived p q (w.holder path) h;
}

abbrev system : System
system = record { exists = λ p. true; has_network = λ n. false; udev = no_tree; ttys = some [] }

-- Both names are links to one device.
abbrev one_link : Text → Option Text
one_link p = some (codes "/dev/ttyACM0")

abbrev blank : World
blank = record { files = λ fd. []; fresh = 3; holder = λ path. none }

abbrev root : Text
root = codes "/run/runtt"

abbrev S : Type 0
S = Services World

abbrev at_first : S
at_first = record { world = blank; resident = λ x. none }

abbrev labelled : S
labelled = record at_first {
  world = (acquire_named (calls 5) root (codes "occupancy-tty_board.lock") blank).1;
}

abbrev won : S
won = begin kernel root one_link 5 system (codes "tty:board") none labelled

abbrev contested : S
contested = begin kernel root one_link 6 system (codes "tty:ttyACM0") none won

abbrev board : Resolved
board = serial (codes "/dev/board") none

resident_5 : contested.resident 5 ≡ some board
unfolding begin prepare parse_target split_once resolve join_path lock_key set_log ◌=ₗ◌ taken
    sanitise acquire_named lock_at clear_cloexec
resident_5 = refl

-- The second process wants the same board by another name, and is refused.
resident_6 : contested.resident 6 ≡ none
unfolding begin prepare parse_target split_once resolve join_path lock_key set_log ◌=ₗ◌ taken
    sanitise acquire_named lock_at clear_cloexec
resident_6 = refl

starts : Reach kernel root one_link at_first contested
unfolding begin prepare parse_target split_once resolve join_path lock_key set_log ◌=ₗ◌ taken
    sanitise acquire_named lock_at clear_cloexec
starts =
    next
      (next (next here (acquires 5 (codes "occupancy-tty_board.lock")))
        (begins 5 system (codes "tty:board") none refl))
      (begins 6 system (codes "tty:ttyACM0") none refl)

Reach-exclusive_example : ◌≡◌ {A = ℕ} 5 5
Reach-exclusive_example =
    Reach-exclusive kernel root one_link Opened Holds kernel-Locks blank contested 5 5 board board
      (λ x path h. cc) starts resident_5 resident_5 refl
