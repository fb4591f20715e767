-- ===== src/Container/Create.antt =====
-- `create` leaves no process behind when it fails.
use runtt.Shared.{
  ℕ, ◌*◌, ◌/◌, Bool, ◌≡◌, refl, Option, none, some, Result, ok, err, List, [], ◌∷◌, Bool-cases, inl,
  inr,
}
use runtt.Shared.Stateful.{M, ◌>>=◌, call, answer, Triple, Triple->>=, Keeps, Keeps->>=, Keeps-call}
use runtt.Shared.Text.{Text, codes}
use runtt.Shared.Text.Numbers.{I32}
use runtt.Target.{parse_target}
use runtt.Container.{lookup, no_target, spec_log_target, spec_target}
use runtt.Container.{
  VerbError, sigkill, validate_container_id, no_directory, no_spec, no_lock_file, not_inherited,
  not_spawned, join_path,
}
use runtt.Container.Host.{
  Spec, Host, Flock, locked, would_block, failed, known, ask, ok_or, Keeps-ask,
}
use runtt.Container.Verbs.{
  firmware_in, locate_firmware, record_created, guarded, create, is_target, is_log_target,
}
use runtt.Container.Recorded.{Lasts, record_created-Keeps}
use runtt.Container.Lock.{claim, clear_cloexec, acquire_named, lock_name}
use runtt.Container.Spawn.{spawn}

-- `Clear` says of a host that no process of this `create` is left on it, and `Spawned pid` that `pid` is.
-- A kill with SIGKILL clears the host; work on files, locks and directories changes neither.
pub record Tracks {W : Type 0} (h : Host W) (Clear : W → Type 0) (Spawned : I32 → W → Type 0)
    : Type 0 where
  pub execs :
      (exe : Text) (args : List Text) (env : List (Text × Text)) (pid : I32) (w w' : W)
      → Clear w
      → h.exec exe args env w ≡ (some pid, w')
      → Spawned pid w'
  pub fails :
      (exe : Text) (args : List Text) (env : List (Text × Text)) (w w' : W)
      → Clear w
      → h.exec exe args env w ≡ (none, w')
      → Clear w'
  pub kills : (pid : I32) (w : W) → Spawned pid w → Clear (h.kill pid sigkill w).1
  pub clear_dir : (path : Text) (w : W) → Clear w → Clear (h.create_dir_all path w).1
  pub clear_open : (path : Text) (w : W) → Clear w → Clear (h.open_lock path w).1
  pub clear_flock : (fd : ℕ) (w : W) → Clear w → Clear (h.flock fd w).1
  pub clear_inherit : (fd flags : ℕ) (w : W) → Clear w → Clear (h.set_fd fd flags w).1
  pub lasts : (pid : I32) → Lasts h (Spawned pid)

-- What a `create` that ended so has left.
abbrev pub Left :
    {W : Type 0} → (W → Type 0) → (I32 → W → Type 0) → Result VerbError (Unit {0}) → W → Type 0
Left Clear Spawned (ok _) w = (pid : I32) × Spawned pid w
Left Clear Spawned (err _) w = Clear w

module _ {W : Type 0} (h : Host W) (root : Text) (Clear : W → Type 0) (Spawned : I32 → W → Type 0)
    (t : Tracks h Clear Spawned) where
  record L (r : Result VerbError (Unit {0})) (w : W) : Type 0 where
    left : Left Clear Spawned r w

  locate_firmware-Keeps :
      (spec : Spec) (bundle : Text) → Keeps Clear (locate_firmware h root spec bundle)
  unfolding locate_firmware
  locate_firmware-Keeps spec bundle = go spec.args spec.root
    where
      go :
          (args : List Text) (rootfs : Option Text)
          → Keeps Clear (firmware_in h root args rootfs bundle)
      go [] rootfs w c = c
      go (arg ∷ []) none w c = c
      go (arg ∷ []) (some dir) w c =
          elim (Bool-cases (h.exists (join_path (join_path bundle dir) arg) w)) [
            | inl there ↦ rw there c
            | inr absent ↦ rw absent c
          ]
      go (arg ∷ arg2 ∷ more) rootfs w c = c

  clear_cloexec-Keeps : (fd : ℕ) → Keeps Clear (clear_cloexec h fd)
  unfolding clear_cloexec
  clear_cloexec-Keeps fd =
      Keeps->>= Clear (ask (h.get_fd fd) not_inherited) _ (Keeps-ask Clear _ not_inherited)
        (λ flags. Keeps-call Clear _ _ (t.clear_inherit fd (flags / 2 * 2)))

  acquire_named-Keeps : (name : Text) → Keeps Clear (acquire_named h root name)
  unfolding acquire_named
  acquire_named-Keeps name =
      Keeps->>= Clear (call (h.create_dir_all root) no_directory) _
        (Keeps-call Clear _ _ (t.clear_dir root))
        (λ _.
          Keeps->>= Clear (call (h.open_lock (join_path root name)) no_lock_file) _
            (Keeps-call Clear _ _ (t.clear_open (join_path root name)))
            (λ fd w c. claimed fd (h.flock fd w) (t.clear_flock fd w c)))
    where
      claimed : (fd : ℕ) (r : Flock × W) → Clear r.1 → Clear (claim h fd r).1
      claimed fd (locked, w) c =
          Keeps->>= Clear (clear_cloexec h fd) _ (clear_cloexec-Keeps fd) (λ _ w' k. k) w c
      claimed fd (would_block, w) c = c
      claimed fd (failed, w) c = c

  module _ (pid : I32) where
    abbrev P : W → Type 0
    P w = Spawned pid w

    guarded-Left :
        (r : Result VerbError (Unit {0}) × W)
        → P r.1
        → L (guarded h root pid r).0 (guarded h root pid r).1
    guarded-Left (ok a, w) k = record { left = (pid, k) }
    guarded-Left (err e, w) k = record { left = t.kills pid w k }

  before :
      {A : Type 0} (m : M VerbError W A) (f : A → M VerbError W (Unit {0}))
      → Keeps Clear m
      → ((a : A) → Triple Clear (f a) L)
      → Triple Clear (m >>= f) L
  before m f k later = Triple->>= L m f (λ _ w. Clear w) k later (λ e w c. record { left = c })

  abbrev Exec : Result VerbError I32 → W → Type 0
  Exec (ok pid) w = Spawned pid w
  Exec (err _) w = Clear w

  exec-Exec :
      (exe : Text) (args : List Text) (env : List (Text × Text))
      → Triple Clear (call (h.exec exe args env) not_spawned) Exec
  exec-Exec exe args env w c = go (h.exec exe args env w) refl
    where
      go :
          (r : Option I32 × W)
          → h.exec exe args env w ≡ r
          → Exec (answer r not_spawned).0 (answer r not_spawned).1
      go (some pid, w') e = t.execs exe args env pid w w' c e
      go (none, w') e = t.fails exe args env w w' c e

  spawn-Exec :
      (id target firmware : Text) (skip_if_same : Bool) (log_target : Option Text) (fd : ℕ)
      → Triple Clear (spawn h root id target firmware skip_if_same log_target fd) Exec
  unfolding spawn
  spawn-Exec id target firmware skip_if_same log_target fd =
      Triple->>= Exec (ask h.current_exe not_spawned) _ (λ _ w. Clear w)
        (Keeps-ask Clear h.current_exe not_spawned) (λ exe w c. exec-Exec exe _ _ w c) (λ e w c. c)

  -- For a host on which only the spawn brings a process about: a `create` that fails, wherever it fails,
  -- leaves no process of its own behind, and one that succeeds leaves the process that it spawned.
  pub create_leaves :
      (id bundle : Text) (pid_file : Option Text) (w : W)
      → Clear w
      → Left Clear Spawned
          (create h root id bundle pid_file w).0
          (create h root id bundle pid_file w).1
  unfolding create
  create_leaves id bundle pid_file w c = (all w c).left
    where
      all : Triple Clear (create h root id bundle pid_file) L
      all =
          before (known (validate_container_id id)) _ (λ w c. c)
            λ _.
              before (ask (h.read_spec (join_path bundle (codes "config.json"))) no_spec) _
                (Keeps-ask Clear _ no_spec)
                λ spec.
                  before (known (ok_or (lookup spec_target spec.annotations) no_target)) _
                    (λ w c. c)
                    λ target.
                      before (known (is_target (parse_target target))) _ (λ w c. c)
                        λ _.
                          before (locate_firmware h root spec bundle) _
                            (locate_firmware-Keeps spec bundle)
                            λ firmware.
                              before
                                (known (is_log_target (lookup spec_log_target spec.annotations))) _
                                (λ w c. c)
                                λ _.
                                  before (acquire_named h root (lock_name target)) _
                                    (acquire_named-Keeps (lock_name target))
                                    λ fd.
                                      Triple->>= L (spawn h root id target firmware _ _ fd) _ Exec
                                        (spawn-Exec id target firmware _ _ fd)
                                        (λ pid w k.
                                          guarded-Left pid
                                            (record_created h root id bundle pid_file target
                                              firmware pid w)
                                            (record_created-Keeps h root (Spawned pid) (t.lasts pid)
                                              id bundle pid_file target firmware pid w k))
                                        (λ e w c. record { left = c })
